-- ===== src/Session/Reach.antt =====
-- Sequences of the public calls of src/lxi.c, from the program's start and lxi_init.
use mathlib.Core.Path.{subst}
use liblxi.Base.{
  ℕ, ◌≡◌, refl, sym, ap, ◌∙◌, inl, inr, true, false, Option, none, some, [], length, replicate,
  get_elem?, set, get_elem?-set, get_elem?-set_self, get_elem?-lt, length-replicate, ◌==◌, ==_refl,
  if◌then◌else◌, arith, Bool-cases, ℤ, pos, is_negative, Run, ok, fault, Run-cases, ok-ne-fault,
  Bytes,
}
use liblxi.Backends.{Library}
use liblxi.Session.{
  Session, State, Protocol, sessions_max, lxi_ok, lxi_error, update, start, empty_session, lxi_init,
  lxi_connect, lxi_disconnect, lxi_send, lxi_receive,
}
use liblxi.Session.Table.{length-init_loop, init_loop-free}
use liblxi.Session.Invariant.{Inv}
use liblxi.Session.Invariant.Changes.{touch-Inv, close-Inv}
use liblxi.Session.Handles.{
  NotOpen, not_in_use, handle_cases, NotOpen-is_rejected, handle_behind_table, lxi_send-open,
  lxi_receive-open, lxi_disconnect-open,
}
use liblxi.Session.Contract.{lxi_connect-Inv, view}

same_result : {A : Type 0} {m : Run A} {a b : A} → m ≡ ok a → m ≡ ok b → a ≡ b
same_result e f = cc

module _ {D W : Type 0} (lib : Library D W) (st : State D W) (inv : Inv st) where
  pub lxi_send-Inv :
      (device : ℤ) (message : Bytes) (len : ℕ) (timeout : ℤ) (z : ℤ) (st' : State D W)
      → lxi_send lib st device message len timeout ≡ ok (z, st')
      → Inv st'
  lxi_send-Inv device message len timeout z st' h = elim (handle_cases st inv device) [
    | inl closed ↦
        subst Inv
          (ap (λ (r : ℤ × State D W). r.1)
            (same_result (NotOpen-is_rejected lib st device message len timeout closed).0 h))
          inv
    | inr (inl (i, is, o)) ↦
        let p = inv.active i o.entry o.is_there o.in_use in
        let call = lxi_send-open lib st inv i o.entry o.is_there o.in_use p message len timeout in
        elim (Run-cases ((lib.backend p.protocol).send p.contents message len timeout st.world)) [
          | inl (r, e) ↦
              let step : lxi_send lib st (pos i) message len timeout
                  ≡ ok (
                    if is_negative r.0 then lxi_error else r.0,
                    record st { heap = update st.heap p.pointer (some r.1); world = r.2 },
                  ) =
                call ∙ rw e refl in
              subst Inv (ap (λ (x : ℤ × State D W). x.1) (same_result step (rw is at h)))
                (touch-Inv st inv p.pointer p.contents r.1 r.2 p.is_live)
          | inr (f, e) ↦
              let step : lxi_send lib st (pos i) message len timeout ≡ fault f = call ∙ rw e refl in
              absurd (ok-ne-fault (rw is at h) step)
        ]
    | inr (inr is) ↦
        absurd (ok-ne-fault (rw is at h) (handle_behind_table lib st message len timeout inv).0)
  ]

  pub lxi_receive-Inv :
      (device : ℤ) (message : Bytes) (len : ℕ) (timeout : ℤ) (z : ℤ × Bytes) (st' : State D W)
      → lxi_receive lib st device message len timeout ≡ ok (z, st')
      → Inv st'
  lxi_receive-Inv device message len timeout z st' h = elim (handle_cases st inv device) [
    | inl closed ↦
        subst Inv
          (ap (λ (r : (ℤ × Bytes) × State D W). r.1)
            (same_result (NotOpen-is_rejected lib st device message len timeout closed).1 h))
          inv
    | inr (inl (i, is, o)) ↦
        let p = inv.active i o.entry o.is_there o.in_use in
        let call =
          lxi_receive-open lib st inv i o.entry o.is_there o.in_use p message len timeout in
        elim (Run-cases
          ((lib.backend p.protocol).receive p.contents message len timeout st.world)) [
            | inl (r, e) ↦
                let step : lxi_receive lib st (pos i) message len timeout
                    ≡ ok (
                      (if is_negative r.0 then lxi_error else r.0, r.1),
                      record st { heap = update st.heap p.pointer (some r.2); world = r.3 },
                    ) =
                  call ∙ rw e refl in
                subst Inv
                  (ap (λ (x : (ℤ × Bytes) × State D W). x.1) (same_result step (rw is at h)))
                  (touch-Inv st inv p.pointer p.contents r.2 r.3 p.is_live)
            | inr (f, e) ↦
                let step : lxi_receive lib st (pos i) message len timeout ≡ fault f =
                  call ∙ rw e refl in
                absurd (ok-ne-fault (rw is at h) step)
          ]
    | inr (inr is) ↦
        absurd (ok-ne-fault (rw is at h) (handle_behind_table lib st message len timeout inv).1)
  ]

  -- What is left when the session of an open handle has been closed.
  pub record Closed (i : ℕ) (p : ℕ) (st' : State D W) : Type 0 where
    pub gone : NotOpen st' (pos i)
    pub freed : st'.heap p ≡ none
    pub handles : (j : ℕ) → view st' j ≡ (if i == j then none else view st j)
    pub blocks : (q : ℕ) → (p == q) ≡ false → st'.heap q ≡ st.heap q

  -- When lxi_disconnect returns on an open handle it returns LXI_OK; the handle is then not open,
  -- its block is freed, and every other handle and block is as it was. The table is well formed.
  pub lxi_disconnect-Closed :
      (i : ℕ) (s : Session) (z : ℤ) (st' : State D W)
      → get_elem? st.sessions i ≡ some s
      → s.allocated ≡ true
      → lxi_disconnect lib st (pos i) ≡ ok (z, st')
      → (z ≡ lxi_ok) × Inv st' × ((p : ℕ) × (s.block ≡ some p) × Closed i p st')
  lxi_disconnect-Closed i s z st' there used h =
      let o = inv.active i s there used in
      let lt = get_elem?-lt st.sessions i there in
      let call = lxi_disconnect-open lib st inv i s there used o in
      elim (Run-cases ((lib.backend o.protocol).disconnect o.contents st.world)) [
        | inr (f, e) ↦
            let step : lxi_disconnect lib st (pos i) ≡ fault f = call ∙ rw e refl in
            absurd (ok-ne-fault h step)
        | inl (r, e) ↦
            let v : Session = record s { allocated = false; connected = false } in
            let heap' : ℕ → Option D =
              update (update st.heap o.pointer (some r.1)) o.pointer none in
            let after : State D W = record st {
              sessions = set st.sessions i v;
              heap = heap';
              world = r.2;
            } in
            let others : (q : ℕ) → (o.pointer == q) ≡ false → heap' q ≡ st.heap q =
              λ q ne. rw ne refl in
            let step : lxi_disconnect lib st (pos i) ≡ ok (lxi_ok, after) = call ∙ rw e refl in
            let eq : (lxi_ok, after) ≡ (z, st') = same_result step h in
            let st_eq : after ≡ st' = ap (λ (x : ℤ × State D W). x.1) eq in
            (
              sym (ap (λ (x : ℤ × State D W). x.0) eq),
              subst Inv st_eq (
                  close-Inv st inv i s there v heap' o.pointer r.2 used o.has_block refl
                    (rw (==_refl o.pointer) refl) others),
              (
                o.pointer,
                o.has_block,
                subst (Closed i o.pointer) st_eq (record {
                  gone = not_in_use (get_elem?-set_self st.sessions i v lt) refl;
                  freed = rw (==_refl o.pointer) refl;
                  handles = λ j.
                      rw (get_elem?-set st.sessions i j v lt)
                        (elim (Bool-cases (i == j)) [ inl a ↦ rw a refl | inr a ↦ rw a refl ]);
                  blocks = others;
                }),
              ),
            )
      ]

  lxi_disconnect-Inv :
      (device : ℤ) (z : ℤ) (st' : State D W) → lxi_disconnect lib st device ≡ ok (z, st') → Inv st'
  lxi_disconnect-Inv device z st' h = elim (handle_cases st inv device) [
    | inl closed ↦
        subst Inv
          (ap (λ (r : ℤ × State D W). r.1)
            (same_result (NotOpen-is_rejected lib st device [] 0 (pos 0) closed).2 h))
          inv
    | inr (inl (i, is, o)) ↦
        (lxi_disconnect-Closed i o.entry z st' o.is_there o.in_use (rw is at h)).1
    | inr (inr is) ↦
        absurd (ok-ne-fault (rw is at h) (handle_behind_table lib st [] 0 (pos 0) inv).2)
  ]

module _ {D W : Type 0} (lib : Library D W) where
  -- One call that returns.
  pub data Step (st st' : State D W) : Type 0 where
    connecting :
        (address : Bytes) (port : ℤ) (name : Option Bytes) (timeout : ℤ) (protocol : Protocol)
        (z : ℤ)
        → lxi_connect lib st address port name timeout protocol ≡ ok (z, st')
        → Step st st'
    sending :
        (device : ℤ) (message : Bytes) (len : ℕ) (timeout z : ℤ)
        → lxi_send lib st device message len timeout ≡ ok (z, st')
        → Step st st'
    receiving :
        (device : ℤ) (message : Bytes) (len : ℕ) (timeout : ℤ) (z : ℤ × Bytes)
        → lxi_receive lib st device message len timeout ≡ ok (z, st')
        → Step st st'
    disconnecting : (device z : ℤ) → lxi_disconnect lib st device ≡ ok (z, st') → Step st st'

  pub data Reach (st : State D W) : State D W → Type 0 where
    here : Reach st st
    next : {t u : State D W} → Reach st t → Step t u → Reach st u

  Step-Inv : (st st' : State D W) → Step st st' → Inv st → Inv st'
  Step-Inv st st' (connecting a p n t pr z h) inv = lxi_connect-Inv lib st a p n t pr inv z st' h
  Step-Inv st st' (sending d m l t z h) inv = lxi_send-Inv lib st inv d m l t z st' h
  Step-Inv st st' (receiving d m l t z h) inv = lxi_receive-Inv lib st inv d m l t z st' h
  Step-Inv st st' (disconnecting d z h) inv = lxi_disconnect-Inv lib st inv d z st' h

  start-Inv : (w : W) → Inv (lxi_init {D = D} (start w)).1
  unfolding lxi_init start
  start-Inv w =
      let size : length (replicate sessions_max empty_session) ≡ sessions_max =
        length-replicate sessions_max empty_session in
      let idle = init_loop-free sessions_max (replicate sessions_max empty_session) in
      record {
        size = length-init_loop sessions_max (replicate sessions_max empty_session) ∙ size;
        active = λ i s e a. let f = idle i s (omega arith) e in absurd (cc);
        distinct = λ i j p s t e f a b c d. let f = idle i s (omega arith) e in absurd (cc);
        owned = λ p d e. absurd (cc);
        fresh = λ p d e. absurd (cc);
      }

  -- After lxi_init and any sequence of calls of lxi_connect, lxi_send, lxi_receive and lxi_disconnect
  -- that return, every session in use is connected, with all four functions of one protocol and a
  -- live block of its own, and no other block is live.
  pub Reach-Inv : (w : W) (st : State D W) → Reach (lxi_init {D = D} (start w)).1 st → Inv st
  Reach-Inv w st here = start-Inv w
  Reach-Inv w st (next {t} r s) = Step-Inv t st s (Reach-Inv w t r)
