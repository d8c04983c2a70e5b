-- ===== src/Session/Threads/Races.antt =====
-- Interleavings of calls on one handle of src/lxi.c.
use liblxi.Base.{
  ℕ, ◌≡◌, refl, sym, ◌∙◌, inl, inr, true, false, none, some, [], ◌∷◌, ℤ, pos, get_elem?, set,
  get_elem?-set_self, get_elem?-lt, Run, ok, fault, dangling, Run-cases, negsuc, ◌>>=◌, ==_refl,
}
use liblxi.Backends.{Library}
use liblxi.Session.{
  Session, State, lxi_ok, update, with_block, free, is_valid_session, disconnect_session,
  send_session, receive_session, lxi_disconnect, lxi_send, lxi_receive,
}
use liblxi.Session.Invariant.{Inv, IsOpen}
use liblxi.Session.Handles.{is_valid_session-OpenHandle, lxi_disconnect-open}
use liblxi.Session.Threads.{
  Use, using, disconnecting, sending, receiving, before, behind_check, returned, check, act, step,
  run,
}

module _ {D W : Type 0} (lib : Library D W) where
  -- The public calls, with their statuses alone.
  unfoldable call_of : Use → ℤ → State D W → Run (ℤ × State D W)
  call_of disconnecting device st = lxi_disconnect lib st device
  call_of (sending message len timeout) device st = lxi_send lib st device message len timeout
  call_of (receiving message len timeout) device st = do
    (reply, st1) ← lxi_receive lib st device message len timeout
    ok (reply.0, st1)

  -- A thread that no other one interrupts does in two steps what the public call does.
  alone_lem :
      (what : Use) (device : ℤ) (st : State D W)
      → run lib (0 ∷ 0 ∷ []) (before (using device what) ∷ []) st
        ≡ (do (z, st1) ← call_of what device st; ok (returned z ∷ [], st1))
  unfolding run step check act call_of lxi_disconnect lxi_send lxi_receive
  alone_lem disconnecting (negsuc n) st = elim (Run-cases (is_valid_session st (negsuc n))) [
    | inl (false, e) ↦ rw e refl
    | inl (true, e) ↦ rw e refl
    | inr (f, e) ↦ rw e refl
  ]
  alone_lem disconnecting (pos n) st = elim (Run-cases (is_valid_session st (pos n))) [
    | inl (false, e) ↦ rw e refl
    | inl (true, e) ↦ elim (Run-cases (disconnect_session lib n st)) [
      | inl (r, e1) ↦ rw (e, e1) refl
      | inr (f, e1) ↦ rw (e, e1) refl
    ]
    | inr (f, e) ↦ rw e refl
  ]
  alone_lem (sending message len timeout) (negsuc n) st =
      elim (Run-cases (is_valid_session st (negsuc n))) [
        | inl (false, e) ↦ rw e refl
        | inl (true, e) ↦ rw e refl
        | inr (f, e) ↦ rw e refl
      ]
  alone_lem (sending message len timeout) (pos n) st =
      elim (Run-cases (is_valid_session st (pos n))) [
        | inl (false, e) ↦ rw e refl
        | inl (true, e) ↦ elim (Run-cases (send_session lib n message len timeout st)) [
          | inl (r, e1) ↦ rw (e, e1) refl
          | inr (f, e1) ↦ rw (e, e1) refl
        ]
        | inr (f, e) ↦ rw e refl
      ]
  alone_lem (receiving message len timeout) (negsuc n) st =
      elim (Run-cases (is_valid_session st (negsuc n))) [
        | inl (false, e) ↦ rw e refl
        | inl (true, e) ↦ rw e refl
        | inr (f, e) ↦ rw e refl
      ]
  alone_lem (receiving message len timeout) (pos n) st =
      elim (Run-cases (is_valid_session st (pos n))) [
        | inl (false, e) ↦ rw e refl
        | inl (true, e) ↦ elim (Run-cases (receive_session lib n message len timeout st)) [
          | inl (r, e1) ↦ rw (e, e1) refl
          | inr (f, e1) ↦ rw (e, e1) refl
        ]
        | inr (f, e) ↦ rw e refl
      ]

  module _ (st : State D W) (inv : Inv st) (i : ℕ) (s : Session)
      (there : get_elem? st.sessions i ≡ some s) (used : s.allocated ≡ true) (o : IsOpen st.heap s)
      (status : ℤ) (d : D) (w : W)
      (closes : (lib.backend o.protocol).disconnect o.contents st.world ≡ ok (status, d, w)) where
    closed : State D W
    closed = record st {
      sessions = set st.sessions i (record s { allocated = false; connected = false });
      heap = update (update st.heap o.pointer (some d)) o.pointer none;
      world = w;
    }

    valid_handle : is_valid_session st (pos i) ≡ ok true
    valid_handle =
        is_valid_session-OpenHandle st inv i (record { entry = s; is_there = there; in_use = used })

    body : disconnect_session lib i st ≡ ok (lxi_ok, closed)
    unfolding lxi_disconnect closed
    body =
        let same : lxi_disconnect lib st (pos i) ≡ disconnect_session lib i st =
          rw (lxi_disconnect, valid_handle) refl in
        sym same ∙ (lxi_disconnect-open lib st inv i s there used o ∙ rw closes refl)

    entry_closed :
        get_elem? closed.sessions i ≡ some (record s { allocated = false; connected = false })
    unfolding closed
    entry_closed =
        get_elem?-set_self st.sessions i (record s { allocated = false; connected = false })
          (get_elem?-lt st.sessions i there)

    act_dangling : (what : Use) → act lib what i closed ≡ fault dangling
    unfolding act disconnect_session send_session receive_session with_block free closed
    act_dangling disconnecting = rw (entry_closed, o.has_block, ==_refl o.pointer) refl
    act_dangling (sending message len timeout) =
        rw (entry_closed, o.has_send, o.has_block, ==_refl o.pointer) refl
    act_dangling (receiving message len timeout) =
        rw (entry_closed, o.has_receive, o.has_block, ==_refl o.pointer) refl

    act_disconnects : act lib disconnecting i st ≡ ok (returned lxi_ok, closed)
    unfolding act
    act_disconnects = rw body refl

    passes : (what : Use) → check lib what (pos i) st ≡ ok (behind_check what i, st)
    unfolding check
    passes what = rw valid_handle refl

    -- Where two threads have passed is_valid_session with the same open handle and one of them
    -- disconnects it first, the other one's disconnect, send or receive works on the freed block.
    -- The table is well formed and the protocol's disconnect returns.
    pub overlapping_use :
        (what : Use)
        → run lib
            (0 ∷ 1 ∷ 0 ∷ 1 ∷ [])
            (before (using (pos i) disconnecting) ∷ before (using (pos i) what) ∷ [])
            st
          ≡ fault dangling
    unfolding run step
    overlapping_use what =
        rw (passes disconnecting, passes what, act_disconnects, act_dangling what) refl
