-- ===== src/Session/Handles.antt =====
-- is_valid_session of src/lxi.c, and the calls that take a handle: on handles that are not open, on
-- the number just behind the table, and on open ones.
use liblxi.Base.{
  ℕ, ◌<◌, ◌≡◌, refl, ap, ◌⊎◌, inl, inr, true, false, none, some, get_elem?, set, get_elem?-in, ltb,
  ◌==◌, ==_refl, if◌then◌else◌, arith, Bool-cases, Option-cases, ℤ, pos, negsuc, is_negative, ok,
  fault, bounds, Run-cases, ◌>>=◌, Bytes, get_elem?-lt,
}
use liblxi.Backends.{Library}
use liblxi.Session.{
  Session, State, sessions_max, lxi_ok, lxi_error, update, is_valid_session, with_block, free,
  disconnect_session, lxi_disconnect, send_session, lxi_send, receive_session, lxi_receive,
}
use liblxi.Session.Invariant.{Inv, IsOpen}

-- The handle of a session in use.
pub record OpenHandle {D W : Type 0} (st : State D W) (i : ℕ) : Type 0 where
  pub entry : Session
  pub is_there : get_elem? st.sessions i ≡ some entry
  pub in_use : entry.allocated ≡ true

-- No session in use has the handle, and it is not the number just behind the table.
pub data NotOpen {D W : Type 0} (st : State D W) : ℤ → Type 0 where
  negative : {n : ℕ} → NotOpen st (negsuc n)
  too_large : {n : ℕ} → sessions_max < n → NotOpen st (pos n)
  not_in_use :
      {n : ℕ} {s : Session}
      → get_elem? st.sessions n ≡ some s
      → s.allocated ≡ false
      → NotOpen st (pos n)

module _ {D W : Type 0} (st : State D W) where
  pub is_valid_session-NotOpen :
      {device : ℤ} → NotOpen st device → is_valid_session st device ≡ ok false
  unfolding is_valid_session
  is_valid_session-NotOpen negative = refl
  is_valid_session-NotOpen (too_large {n} h) = let e : ltb 1024 n ≡ true = ground arith in rw e refl
  is_valid_session-NotOpen (not_in_use {n} {s} e f) = elim (Bool-cases (ltb 1024 n)) [
    | inl a ↦ rw a refl
    | inr a ↦ rw (a, e) (ap ok f)
  ]

  module _ (inv : Inv st) where
    pub is_valid_session-OpenHandle :
        (i : ℕ) → OpenHandle st i → is_valid_session st (pos i) ≡ ok true
    unfolding is_valid_session
    is_valid_session-OpenHandle i h =
        let lt = get_elem?-lt st.sessions i h.is_there in
        let size = inv.size in
        let e : ltb 1024 i ≡ false = ground arith in rw (e, h.is_there) (ap ok h.in_use)

    is_valid_session-bounds : is_valid_session st (pos sessions_max) ≡ fault bounds
    unfolding is_valid_session
    is_valid_session-bounds = elim (Option-cases (get_elem? st.sessions 1024)) [
      | inl e ↦ rw e refl
      | inr (s, e) ↦ absurd (omega (arith, get_elem?-lt st.sessions 1024 e, inv.size))
    ]

    -- Every handle is open, or not open, or the number just behind the table.
    pub handle_cases :
        (device : ℤ)
        → NotOpen st device
          ⊎ ((i : ℕ) × (device ≡ pos i) × OpenHandle st i)
          ⊎ (device ≡ pos sessions_max)
    handle_cases (negsuc n) = inl negative
    handle_cases (pos n) = elim (Bool-cases (ltb n 1024)) [
      | inl a ↦
          let size = inv.size in
          let (s, e) = get_elem?-in st.sessions n (ground arith) in
          elim (Bool-cases s.allocated) [
            | inl b ↦ inr (inl (n, refl, record { entry = s; is_there = e; in_use = b }))
            | inr b ↦ inl (not_in_use e b)
          ]
      | inr a ↦ elim (Bool-cases (n == 1024)) [
        | inl b ↦ inr (inr (ground arith))
        | inr b ↦ inl (too_large (ground arith))
      ]
    ]

module _ {D W : Type 0} (lib : Library D W) (st : State D W) where
  -- On a handle that is not open, lxi_send, lxi_receive and lxi_disconnect return LXI_ERROR and
  -- change nothing: not the table, not a block, not the world, not the caller's buffer. The handle
  -- is negative, or above SESSIONS_MAX, or an entry that is not in use.
  pub NotOpen-is_rejected :
      (device : ℤ) (message : Bytes) (len : ℕ) (timeout : ℤ)
      → NotOpen st device
      → (lxi_send lib st device message len timeout ≡ ok (lxi_error, st))
        × (lxi_receive lib st device message len timeout ≡ ok ((lxi_error, message), st))
        × (lxi_disconnect lib st device ≡ ok (lxi_error, st))
  unfolding lxi_send lxi_receive lxi_disconnect
  NotOpen-is_rejected device message len timeout h =
      let e = is_valid_session-NotOpen st h in (rw e refl, rw e refl, rw e refl)

  -- On the handle SESSIONS_MAX itself, the three calls read the entry behind the end of the table:
  -- the test of the handle lets it through. The table has SESSIONS_MAX entries.
  pub handle_behind_table :
      (message : Bytes) (len : ℕ) (timeout : ℤ)
      → Inv st
      → (lxi_send lib st (pos sessions_max) message len timeout ≡ fault bounds)
        × (lxi_receive lib st (pos sessions_max) message len timeout ≡ fault bounds)
        × (lxi_disconnect lib st (pos sessions_max) ≡ fault bounds)
  unfolding lxi_send lxi_receive lxi_disconnect
  handle_behind_table message len timeout inv =
      let e = is_valid_session-bounds st inv in (rw e refl, rw e refl, rw e refl)

  module _ (inv : Inv st) (i : ℕ) (s : Session) (there : get_elem? st.sessions i ≡ some s)
      (used : s.allocated ≡ true) (o : IsOpen st.heap s) where
    valid : is_valid_session st (pos i) ≡ ok true
    valid =
        is_valid_session-OpenHandle st inv i (record { entry = s; is_there = there; in_use = used })

    -- lxi_send on an open handle is its protocol's send on its own block: a negative result becomes
    -- LXI_ERROR, any other is returned, and only that block and the world change. The table is well
    -- formed.
    pub lxi_send-open :
        (message : Bytes) (len : ℕ) (timeout : ℤ)
        → lxi_send lib st (pos i) message len timeout ≡ (
            (lib.backend o.protocol).send o.contents message len timeout st.world >>= λ r. ok (
              if is_negative r.0 then lxi_error else r.0,
              record st { heap = update st.heap o.pointer (some r.1); world = r.2 },
            ))
    unfolding lxi_send send_session with_block
    lxi_send-open message len timeout =
        elim (Run-cases ((lib.backend o.protocol).send o.contents message len timeout st.world)) [
          | inl (x, e) ↦
              rw (valid, there, o.has_send, o.has_block, o.is_live, e)
                (elim (Bool-cases (is_negative x.0)) [ inl a ↦ rw a refl | inr a ↦ rw a refl ])
          | inr (f, e) ↦ rw (valid, there, o.has_send, o.has_block, o.is_live, e) refl
        ]

    -- lxi_receive on an open handle is its protocol's receive on its own block and the caller's
    -- buffer: a negative result becomes LXI_ERROR, any other is returned, and only that buffer, that
    -- block and the world change. The table is well formed.
    pub lxi_receive-open :
        (message : Bytes) (len : ℕ) (timeout : ℤ)
        → lxi_receive lib st (pos i) message len timeout ≡ (
            (lib.backend o.protocol).receive o.contents message len timeout st.world >>= λ r. ok (
              (if is_negative r.0 then lxi_error else r.0, r.1),
              record st { heap = update st.heap o.pointer (some r.2); world = r.3 },
            ))
    unfolding lxi_receive receive_session with_block
    lxi_receive-open message len timeout =
        elim (Run-cases
          ((lib.backend o.protocol).receive o.contents message len timeout st.world)) [
            | inl (x, e) ↦
                rw (valid, there, o.has_receive, o.has_block, o.is_live, e)
                  (elim (Bool-cases (is_negative x.0)) [ inl a ↦ rw a refl | inr a ↦ rw a refl ])
            | inr (f, e) ↦ rw (valid, there, o.has_receive, o.has_block, o.is_live, e) refl
          ]

    -- lxi_send and lxi_receive on an open handle are its protocol's functions on its own block, and
    -- on the caller's buffer: a negative result becomes LXI_ERROR, any other is returned, and only
    -- that buffer, that block and the world change. The table is well formed.
    pub transfers-open :
        (message : Bytes) (len : ℕ) (timeout : ℤ)
        → (lxi_send lib st (pos i) message len timeout ≡ (
            (lib.backend o.protocol).send o.contents message len timeout st.world >>= λ r. ok (
              if is_negative r.0 then lxi_error else r.0,
              record st { heap = update st.heap o.pointer (some r.1); world = r.2 },
            )))
          × (lxi_receive lib st (pos i) message len timeout ≡ (
              (lib.backend o.protocol).receive o.contents message len timeout st.world >>= λ r. ok (
                (if is_negative r.0 then lxi_error else r.0, r.1),
                record st { heap = update st.heap o.pointer (some r.2); world = r.3 },
              )))
    transfers-open message len timeout =
        (lxi_send-open message len timeout, lxi_receive-open message len timeout)

    -- lxi_disconnect on an open handle calls its protocol's disconnect on its own block, whatever
    -- that returns, then frees the block and returns LXI_OK. The table is well formed.
    pub lxi_disconnect-open : lxi_disconnect lib st (pos i) ≡ (
        (lib.backend o.protocol).disconnect o.contents st.world >>= λ r. ok (
          lxi_ok,
          record st {
            sessions = set st.sessions i (record s { allocated = false; connected = false });
            heap = update (update st.heap o.pointer (some r.1)) o.pointer none;
            world = r.2;
          },
        ))
    unfolding lxi_disconnect disconnect_session with_block free
    lxi_disconnect-open =
        elim (Run-cases ((lib.backend o.protocol).disconnect o.contents st.world)) [
          | inl (x, e) ↦
              rw
                (
                  valid,
                  there,
                  o.is_connected,
                  o.has_disconnect,
                  o.has_block,
                  o.is_live,
                  e,
                  ==_refl o.pointer,
                )
                refl
          | inr (f, e) ↦
              rw (valid, there, o.is_connected, o.has_disconnect, o.has_block, o.is_live, e) refl
        ]
