-- ===== src/Session/Calls.antt =====
-- What lxi_connect and lxi_disconnect of src/lxi.c compute, branch by branch: each equation has the
-- answers of malloc() and of the protocol's functions as premises.
use liblxi.Base.{
  ℕ, suc, ◌≡◌, refl, true, false, Option, none, some, get_elem?, set, get_elem?-set_self,
  get_elem?-lt, set-set, arith, ℤ, pos, is_zero, ok, fault, Fault, Bytes, ==_refl,
}
use liblxi.Backends.{Library, Module}
use liblxi.Session.{
  Session, State, lxi_error, update, with_block, free, set_up, call_connect, connect_session,
}

-- The entry that the switch leaves, and the entry of an open session.
abbrev pub prepared : Session → Module → Option ℕ → Session
prepared s m p = record s {
  block = p;
  connect = some m;
  disconnect = some m;
  send = some m;
  receive = some m;
}

abbrev pub opened : Session → Module → ℕ → Session
opened s m p = record (prepared s m (some p)) { allocated = true; connected = true }

module _ {D W : Type 0} (lib : Library D W) (st : State D W) (i : ℕ) (s : Session) (m : Module)
    (found : get_elem? st.sessions i ≡ some s) where
  -- The state behind the switch.
  abbrev pub after_set_up : D → W → State D W
  after_set_up d w1 = record st {
    sessions = set st.sessions i (prepared s m (some st.next));
    heap = update st.heap st.next (some d);
    next = suc st.next;
    world = w1;
  }

  pub set_up_lem :
      (d : D) (w1 : W)
      → lib.malloc m st.world ≡ (some d, w1)
      → set_up lib m i st ≡ ok (after_set_up d w1)
  unfolding set_up
  set_up_lem d w1 e = ground arith

  pub set_up-none :
      (w1 : W)
      → lib.malloc m st.world ≡ (none, w1)
      → set_up lib m i st
        ≡ ok (record st { sessions = set st.sessions i (prepared s m none); world = w1 })
  unfolding set_up
  set_up-none w1 e = ground arith

  module _ (address : Bytes) (port : ℤ) (name : Option Bytes) (timeout : ℤ) where
    there : (v : Session) → get_elem? (set st.sessions i v) i ≡ some v
    there v = get_elem?-set_self st.sessions i v (get_elem?-lt st.sessions i found)

    pub connect_session_opens :
        (d d' : D) (w1 w2 : W)
        → (lib.backend m).connect d address port name timeout w1 ≡ ok (pos 0, d', w2)
        → connect_session lib i address port name timeout (after_set_up d w1)
          ≡ ok (
            pos i,
            record st {
              sessions = set st.sessions i (opened s m st.next);
              heap = update (update st.heap st.next (some d)) st.next (some d');
              next = suc st.next;
              world = w2;
            },
          )
    unfolding connect_session call_connect with_block
    connect_session_opens d d' w1 w2 e =
        rw (there (prepared s m (some st.next)), ==_refl st.next, e, set-set) refl

    pub connect_session_fails :
        (d d' : D) (status : ℤ) (w1 w2 : W)
        → is_zero status ≡ false
        → (lib.backend m).connect d address port name timeout w1 ≡ ok (status, d', w2)
        → connect_session lib i address port name timeout (after_set_up d w1)
          ≡ ok (
            lxi_error,
            record st {
              sessions = set st.sessions i (prepared s m (some st.next));
              heap =
                  update (update (update st.heap st.next (some d)) st.next (some d')) st.next none;
              next = suc st.next;
              world = w2;
            },
          )
    unfolding connect_session call_connect with_block free
    connect_session_fails d d' status w1 w2 z e =
        rw (there (prepared s m (some st.next)), ==_refl st.next, e, z, ==_refl st.next) refl

    pub connect_session_faults :
        (d : D) (w1 : W) (f : Fault)
        → (lib.backend m).connect d address port name timeout w1 ≡ fault f
        → connect_session lib i address port name timeout (after_set_up d w1) ≡ fault f
    unfolding connect_session call_connect with_block
    connect_session_faults d w1 f e =
        rw (there (prepared s m (some st.next)), ==_refl st.next, e) refl

    -- The state behind the switch when malloc() has failed.
    abbrev pub without_block : W → State D W
    without_block w1 = record st { sessions = set st.sessions i (prepared s m none); world = w1 }

    pub connect_session_null :
        (w1 w2 : W)
        → (lib.backend m).connect_null address port name timeout w1 ≡ ok w2
        → connect_session lib i address port name timeout (without_block w1)
          ≡ ok (lxi_error, without_block w2)
    unfolding connect_session call_connect free
    connect_session_null w1 w2 e = rw (there (prepared s m none), e) refl

    pub connect_session_null_faults :
        (w1 : W) (f : Fault)
        → (lib.backend m).connect_null address port name timeout w1 ≡ fault f
        → connect_session lib i address port name timeout (without_block w1) ≡ fault f
    unfolding connect_session call_connect
    connect_session_null_faults w1 f e = rw (there (prepared s m none), e) refl
