-- ===== src/Session/Connect/Returns.antt =====
-- When lxi_connect of src/lxi.c returns at all: what it needs of malloc() and of the protocol.
use liblxi.Base.{
  ℕ, ◌≡◌, refl, ◌∙◌, inl, inr, Option, some, arith, Bool-cases, Option-cases, ℤ, is_zero,
  is_zero→eq, ok, Bytes,
}
use liblxi.Backends.{Library, Module}
use liblxi.Session.{
  State, Protocol, sessions_max, lxi_error, find_free, backend_of, connect_session, lxi_connect,
}
use liblxi.Session.Table.{FirstFree, find_free-some}
use liblxi.Session.Calls.{after_set_up, set_up_lem, connect_session_opens, connect_session_fails}
use liblxi.Session.Connect.{call_full, call_unsupported, call_on}

module _ {D W : Type 0} (lib : Library D W) (st : State D W) (address : Bytes) (port : ℤ)
    (name : Option Bytes) (timeout : ℤ) (protocol : Protocol) where
  found_free : (i : ℕ) → find_free sessions_max st.sessions 0 ≡ some i → FirstFree st.sessions i
  found_free i e =
      let (k, ik, lt, first) = find_free-some sessions_max st.sessions 0 i e in
      let same : i ≡ k = omega arith in rw same first

  -- malloc() gives a block for the protocol, and the protocol's connect returns on it.
  pub record Answers (m : Module) : Type 0 where
    pub contents : D
    pub contents' : D
    pub world1 : W
    pub world2 : W
    pub status : ℤ
    pub allocates : lib.malloc m st.world ≡ (some contents, world1)
    pub connects :
        (lib.backend m).connect contents address port name timeout world1
        ≡ ok (status, contents', world2)

  attempt_returns :
      (i : ℕ) (m : Module)
      → find_free sessions_max st.sessions 0 ≡ some i
      → backend_of protocol ≡ some m
      → Answers m
      → (z : ℤ) × (st' : State D W) × (lxi_connect lib st address port name timeout protocol
          ≡ ok (z, st'))
  attempt_returns i m e f a =
      let first = found_free i e in
      let go : lxi_connect lib st address port name timeout protocol
          ≡ connect_session lib i address port name timeout
              (after_set_up lib st i first.entry m first.is_there a.contents a.world1) =
        call_on lib st address port name timeout protocol i m e f
        ∙ rw (set_up_lem lib st i first.entry m first.is_there a.contents a.world1 a.allocates)
            refl in
      elim (Bool-cases (is_zero a.status)) [
        | inl zero ↦ (
          _,
          _,
          go
              ∙ connect_session_opens lib st i first.entry m first.is_there address port name
                  timeout a.contents a.contents' a.world1 a.world2
                  (rw (is_zero→eq a.status zero) at a.connects),
        )
        | inr nonzero ↦ (
          _,
          _,
          go
              ∙ connect_session_fails lib st i first.entry m first.is_there address port name
                  timeout a.contents a.contents' a.status a.world1 a.world2 nonzero a.connects,
        )
      ]

  -- lxi_connect returns on every table, if malloc() gives a block for the protocol that was asked for
  -- and that protocol's connect returns on it.
  pub lxi_connect_returns :
      ((m : Module) → backend_of protocol ≡ some m → Answers m)
      → (z : ℤ) × (st' : State D W) × (lxi_connect lib st address port name timeout protocol
          ≡ ok (z, st'))
  lxi_connect_returns answers = elim (Option-cases (find_free sessions_max st.sessions 0)) [
    | inl e ↦ (lxi_error, st, call_full lib st address port name timeout protocol e)
    | inr (i, e) ↦ elim (Option-cases (backend_of protocol)) [
      | inl f ↦ (lxi_error, st, call_unsupported lib st address port name timeout protocol i e f)
      | inr (m, f) ↦ attempt_returns i m e f (answers m f)
    ]
  ]
