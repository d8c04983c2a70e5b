-- ===== src/Session/Connect.antt =====
-- lxi_connect of src/lxi.c as a whole: how it can return, and what it promises of the handles and of
-- memory when it does.
pub mod Returns
use liblxi.Base.{
  ℕ, suc, ◌<◌, ◌≡◌, refl, ◌∙◌, ◌⊎◌, inl, inr, true, false, Option, none, some, set, arith,
  Bool-cases, Option-cases, ℤ, pos, is_zero, is_zero→eq, Run, ok, fault, Run-cases, ◌>>=◌, Bytes,
}
use liblxi.Backends.{Library, Module}
use liblxi.Session.{
  State, Protocol, sessions_max, lxi_error, update, find_free, backend_of, set_up, connect_session,
  lxi_connect,
}
use liblxi.Session.Table.{FirstFree, find_free-some}
use liblxi.Session.Calls.{
  prepared, opened, after_set_up, set_up_lem, set_up-none, connect_session_opens,
  connect_session_fails, connect_session_faults, connect_session_null, connect_session_null_faults,
}

module _ {D W : Type 0} (lib : Library D W) (st : State D W) (address : Bytes) (port : ℤ)
    (name : Option Bytes) (timeout : ℤ) (protocol : Protocol) where
  -- What lxi_connect found and was answered, when it got as far as calling the protocol's connect.
  pub record Attempt (i : ℕ) : Type 0 where
    pub module_used : Module
    pub supported : backend_of protocol ≡ some module_used
    pub in_table : i < sessions_max
    pub first : FirstFree st.sessions i
    pub contents : D
    pub contents' : D
    pub world1 : W
    pub world2 : W
    pub status : ℤ
    pub allocates : lib.malloc module_used st.world ≡ (some contents, world1)
    pub connects :
        (lib.backend module_used).connect contents address port name timeout world1
        ≡ ok (status, contents', world2)

  -- What it found and was answered, when malloc() gave no block.
  pub record Starved (i : ℕ) : Type 0 where
    pub module_used : Module
    pub supported : backend_of protocol ≡ some module_used
    pub first : FirstFree st.sessions i
    pub world1 : W
    pub world2 : W
    pub allocates : lib.malloc module_used st.world ≡ (none, world1)
    pub connects :
        (lib.backend module_used).connect_null address port name timeout world1 ≡ ok world2

  -- The ways in which lxi_connect returns.
  pub data Connects (z : ℤ) (st' : State D W) : Type 0 where
    full : find_free sessions_max st.sessions 0 ≡ none → z ≡ lxi_error → st' ≡ st → Connects z st'
    unsupported : backend_of protocol ≡ none → z ≡ lxi_error → st' ≡ st → Connects z st'
    no_memory :
        (i : ℕ) (a : Starved i)
        → z ≡ lxi_error
        → st' ≡ record st {
          sessions = set st.sessions i (prepared a.first.entry a.module_used none);
          world = a.world2;
        }
        → Connects z st'
    opens :
        (i : ℕ) (a : Attempt i)
        → is_zero a.status ≡ true
        → z ≡ pos i
        → st' ≡ record st {
          sessions = set st.sessions i (opened a.first.entry a.module_used st.next);
          heap = update (update st.heap st.next (some a.contents)) st.next (some a.contents');
          next = suc st.next;
          world = a.world2;
        }
        → Connects z st'
    fails :
        (i : ℕ) (a : Attempt i)
        → is_zero a.status ≡ false
        → z ≡ lxi_error
        → st' ≡ record st {
          sessions = set st.sessions i (prepared a.first.entry a.module_used (some st.next));
          heap =
              update
                (update (update st.heap st.next (some a.contents)) st.next (some a.contents'))
                st.next
                none;
          next = suc st.next;
          world = a.world2;
        }
        → Connects z st'

  abbrev call : Run (ℤ × State D W)
  call = lxi_connect lib st address port name timeout protocol

  call_full : find_free sessions_max st.sessions 0 ≡ none → call ≡ ok (lxi_error, st)
  unfolding lxi_connect
  call_full e = rw (e, lxi_connect) refl

  call_unsupported :
      (i : ℕ)
      → find_free sessions_max st.sessions 0 ≡ some i
      → backend_of protocol ≡ none
      → call ≡ ok (lxi_error, st)
  unfolding lxi_connect
  call_unsupported i e f = rw (e, lxi_connect) (rw f refl)

  call_on :
      (i : ℕ) (m : Module)
      → find_free sessions_max st.sessions 0 ≡ some i
      → backend_of protocol ≡ some m
      → call ≡ (set_up lib m i st >>= connect_session lib i address port name timeout)
  unfolding lxi_connect
  call_on i m e f = rw (e, lxi_connect) (rw f refl)

  returned :
      {r : ℤ × State D W} (z : ℤ) (st' : State D W)
      → call ≡ ok (z, st')
      → call ≡ ok r
      → (z ≡ r.0) × (st' ≡ r.1)
  returned z st' h e = (cc, cc)

  -- On a free entry and a supported protocol.
  attempt_cases :
      (i : ℕ) (m : Module) (z : ℤ) (st' : State D W)
      → backend_of protocol ≡ some m
      → i < sessions_max
      → FirstFree st.sessions i
      → call ≡ (set_up lib m i st >>= connect_session lib i address port name timeout)
      → call ≡ ok (z, st')
      → Connects z st'
  attempt_cases i m z st' f lt first on h = elim (malloc_cases (lib.malloc m st.world)) [
    | inl (w1, e) ↦
        let go : call
            ≡ connect_session lib i address port name timeout (record st {
              sessions = set st.sessions i (prepared first.entry m none);
              world = w1;
            }) =
          on ∙ rw (set_up-none lib st i first.entry m first.is_there w1 e) refl in
        elim (Run-cases ((lib.backend m).connect_null address port name timeout w1)) [
          | inr (x, g) ↦
              let bad : call ≡ fault x =
                go
                ∙ connect_session_null_faults lib st i first.entry m first.is_there address port
                    name timeout w1 x g in
              absurd (cc)
          | inl (w2, g) ↦
              let a : Starved i = record {
                module_used = m;
                supported = f;
                first = first;
                world1 = w1;
                world2 = w2;
                allocates = e;
                connects = g;
              } in
              let r = returned z st' h (
                go
                ∙ connect_session_null lib st i first.entry m first.is_there address port name
                    timeout w1 w2 g) in
              no_memory i a r.0 r.1
        ]
    | inr (d, w1, e) ↦
        let go : call
            ≡ connect_session lib i address port name timeout
                (after_set_up lib st i first.entry m first.is_there d w1) =
          on ∙ rw (set_up_lem lib st i first.entry m first.is_there d w1 e) refl in
        elim (Run-cases ((lib.backend m).connect d address port name timeout w1)) [
          | inr (x, g) ↦
              let bad : call ≡ fault x =
                go
                ∙ connect_session_faults lib st i first.entry m first.is_there address port name
                    timeout d w1 x g in
              absurd (cc)
          | inl ((status, d', w2), g) ↦
              let a : Attempt i = record {
                module_used = m;
                supported = f;
                in_table = lt;
                first = first;
                contents = d;
                contents' = d';
                world1 = w1;
                world2 = w2;
                status = status;
                allocates = e;
                connects = g;
              } in
              elim (Bool-cases (is_zero status)) [
                | inl zero ↦
                    let r = returned z st' h (
                      go
                      ∙ connect_session_opens lib st i first.entry m first.is_there address port
                          name timeout d d' w1 w2 (rw (is_zero→eq status zero) at g)) in
                    opens i a zero r.0 r.1
                | inr nonzero ↦
                    let r = returned z st' h (
                      go
                      ∙ connect_session_fails lib st i first.entry m first.is_there address port
                          name timeout d d' status w1 w2 nonzero g) in
                    fails i a nonzero r.0 r.1
              ]
        ]
  ]
    where
      malloc_cases :
          (p : Option D × W) → ((w : W) × (p ≡ (none, w))) ⊎ ((d : D) × (w : W) × (p ≡ (some d, w)))
      malloc_cases (none, w) = inl (w, refl)
      malloc_cases (some d, w) = inr (d, w, refl)

  -- lxi_connect returns in one of these ways only.
  pub lxi_connect-Connects : (z : ℤ) (st' : State D W) → call ≡ ok (z, st') → Connects z st'
  lxi_connect-Connects z st' h = elim (Option-cases (find_free sessions_max st.sessions 0)) [
    | inl e ↦ let r = returned z st' h (call_full e) in full e r.0 r.1
    | inr (i, e) ↦ elim (Option-cases (backend_of protocol)) [
      | inl f ↦ let r = returned z st' h (call_unsupported i e f) in unsupported f r.0 r.1
      | inr (m, f) ↦
          let (k, ik, lt, first) = find_free-some sessions_max st.sessions 0 i e in
          let same : i ≡ k = omega arith in
          attempt_cases i m z st' f (omega arith) (rw same first) (call_on i m e f) h
    ]
  ]
