-- ===== src/Session/Threads/Effects.antt =====
-- What one step of a call of src/lxi.c does to the handles of the other threads.
use liblxi.Base.{
  ℕ, ◌≡◌, refl, sym, ap, ◌∙◌, inl, inr, true, Option, none, some, ℤ, pos, get_elem?, Run, ok, fault,
  Run-cases, Option-cases, Bool-cases, ok-injective, ok-ne-fault, ==_iff, ◌==◌, ◌>>=◌, Bytes,
  is_negative, if◌then◌else◌, arith,
}
use mathlib.Core.Path.{subst}
use liblxi.Backends.{Library, Module}
use liblxi.Session.{
  State, Protocol, update, lxi_error, is_valid_session, disconnect_session, send_session,
  receive_session, lxi_connect, lxi_disconnect, lxi_send, lxi_receive,
}
use liblxi.Session.Invariant.{Inv}
use liblxi.Session.Handles.{
  OpenHandle, is_valid_session-OpenHandle, lxi_send-open, lxi_receive-open,
}
use liblxi.Session.Contract.{view, refused, granted, lxi_connect-ConnectSpec, lxi_connect-Inv}
use liblxi.Session.Reach.{lxi_disconnect-Closed, lxi_send-Inv, lxi_receive-Inv}
use liblxi.Session.Threads.{
  Use, using, connecting, disconnecting, sending, receiving, Thread, before, behind_check, returned,
  act,
}

-- The handle is open.
abbrev pub Used : {D W : Type 0} → State D W → ℕ → Type 0
Used st i = (m : Module) × (view st i ≡ some m)

-- The handle that a thread uses, or is going to use.
abbrev pub Targets : Thread → ℤ → Type 0
Targets (before (connecting a p n t pr)) z = ⊥
Targets (before (using device what)) z = device ≡ z
Targets (behind_check what i) z = pos i ≡ z
Targets (returned s) z = ⊥

-- What a thread does with the result of its call.
abbrev pub finish : {A D W : Type 0} → (A → ℤ) → Run (A × State D W) → Run (Thread × State D W)
finish status m = do (a, st1) ← m; ok (returned (status a), st1)

pub returned_lem :
    {A D W : Type 0} (status : A → ℤ) (m : Run (A × State D W)) (t' : Thread) (st' : State D W)
    → finish status m ≡ ok (t', st')
    → (a : A) × (m ≡ ok (a, st')) × (t' ≡ returned (status a))
returned_lem {D = D} {W = W} status (ok (a, st1)) t' st' e =
    let same = ok-injective e in
    (
      a,
      ap (λ (s : State D W). ok (a, s)) (ap (λ (r : Thread × State D W). r.1) same),
      sym (ap (λ (r : Thread × State D W). r.0) same),
    )
returned_lem status (fault f) t' st' e = absurd (cc)

module _ {D W : Type 0} (lib : Library D W) (st : State D W) (inv : Inv st) where
  pub Used-OpenHandle : (i : ℕ) → Used st i → OpenHandle st i
  Used-OpenHandle i (m, e) = elim (Option-cases (get_elem? st.sessions i)) [
    | inl gone ↦ let clash : none ≡ some m = rw gone at e in absurd (cc)
    | inr (s, there) ↦ elim (Bool-cases s.allocated) [
      | inl used ↦ record { entry = s; is_there = there; in_use = used }
      | inr idle ↦ let clash : none ≡ some m = rw (there, idle) at e in absurd (cc)
    ]
  ]

  pub OpenHandle-Used : (i : ℕ) → OpenHandle st i → Used st i
  OpenHandle-Used i h =
      let o = inv.active i h.entry h.is_there h.in_use in
      let sends : view st i ≡ h.entry.send = rw (h.is_there, h.in_use) refl in
      (o.protocol, sends ∙ o.has_send)

  -- What a step of a thread on a well-formed table does to the table and to the other handles.
  pub record Effect (t t' : Thread) (st' : State D W) : Type 0 where
    pub well_formed : Inv st'
    pub no_new : (z : ℤ) → Targets t' z → Targets t z
    pub still_open : (what : Use) (i : ℕ) → t' ≡ behind_check what i → Used st' i
    pub others : (j : ℕ) → (Targets t (pos j) → ⊥) → Used st j → Used st' j

  pub same_sessions :
      (st' : State D W) (i : ℕ) → st'.sessions ≡ st.sessions → Used st i → Used st' i
  same_sessions st' i e (m, h) = (m, rw e h)

  pub connect-Effect :
      (a : Bytes) (p : ℤ) (n : Option Bytes) (t : ℤ) (pr : Protocol) (z : ℤ) (st' : State D W)
      → lxi_connect lib st a p n t pr ≡ ok (z, st')
      → Effect (before (connecting a p n t pr)) (returned z) st'
  connect-Effect a p n t pr z st' h = record {
    well_formed = lxi_connect-Inv lib st a p n t pr inv z st' h;
    no_new = λ z e. e;
    still_open = λ what i e. absurd (cc);
    others = λ j free used. elim (lxi_connect-ConnectSpec lib st a p n t pr inv z st' h) [
      | refused e same ↦ (used.0, same j ∙ used.1)
      | granted i m e inside supported free_before busy after ↦ elim (Bool-cases (i == j)) [
        | inl hit ↦
            let ij : i ≡ j = ground arith in
            let clash : none ≡ some used.0 = sym (rw ij at free_before) ∙ used.1 in absurd (cc)
        | inr miss ↦ (used.0, (rw miss at (after j)) ∙ used.1)
      ]
    ];
  }

  send_sessions :
      (i : ℕ) (message : Bytes) (len : ℕ) (timeout z : ℤ) (st' : State D W)
      → OpenHandle st i
      → lxi_send lib st (pos i) message len timeout ≡ ok (z, st')
      → st'.sessions ≡ st.sessions
  send_sessions i message len timeout z st' h e =
      let p = inv.active i h.entry h.is_there h.in_use in
      let call = lxi_send-open lib st inv i h.entry h.is_there h.in_use p message len timeout in
      elim (Run-cases ((lib.backend p.protocol).send p.contents message len timeout st.world)) [
        | inl (r, e1) ↦
            let step : lxi_send lib st (pos i) message len timeout
                ≡ ok (
                  if is_negative r.0 then lxi_error else r.0,
                  record st { heap = update st.heap p.pointer (some r.1); world = r.2 },
                ) =
              call ∙ rw e1 refl in
            ap (λ (x : ℤ × State D W). x.1.sessions) (ok-injective (sym e ∙ step))
        | inr (f, e1) ↦
            let step : lxi_send lib st (pos i) message len timeout ≡ fault f = call ∙ rw e1 refl in
            absurd (ok-ne-fault e step)
      ]

  receive_sessions :
      (i : ℕ) (message : Bytes) (len : ℕ) (timeout : ℤ) (z : ℤ × Bytes) (st' : State D W)
      → OpenHandle st i
      → lxi_receive lib st (pos i) message len timeout ≡ ok (z, st')
      → st'.sessions ≡ st.sessions
  receive_sessions i message len timeout z st' h e =
      let p = inv.active i h.entry h.is_there h.in_use in
      let call = lxi_receive-open lib st inv i h.entry h.is_there h.in_use p message len timeout in
      elim (Run-cases ((lib.backend p.protocol).receive p.contents message len timeout st.world)) [
        | inl (r, e1) ↦
            let step : lxi_receive lib st (pos i) message len timeout
                ≡ ok (
                  (if is_negative r.0 then lxi_error else r.0, r.1),
                  record st { heap = update st.heap p.pointer (some r.2); world = r.3 },
                ) =
              call ∙ rw e1 refl in
            ap (λ (x : (ℤ × Bytes) × State D W). x.1.sessions) (ok-injective (sym e ∙ step))
        | inr (f, e1) ↦
            let step : lxi_receive lib st (pos i) message len timeout ≡ fault f =
              call ∙ rw e1 refl in
            absurd (ok-ne-fault e step)
      ]

  pub valid_handle : (i : ℕ) → OpenHandle st i → is_valid_session st (pos i) ≡ ok true
  valid_handle i h = is_valid_session-OpenHandle st inv i h

  -- The effect of a part that leaves the table of sessions as it is, and of one that closes entry i.
  quiet-Effect :
      (what : Use) (i : ℕ) (z : ℤ) (t' : Thread) (st' : State D W)
      → t' ≡ returned z
      → Inv st'
      → st'.sessions ≡ st.sessions
      → Effect (behind_check what i) t' st'
  quiet-Effect what i z t' st' is_returned keeps e = record {
    well_formed = keeps;
    no_new = λ y target. absurd (subst (λ (t : Thread). Targets t y) is_returned target);
    still_open = λ what' j ahead.
        let clash : behind_check what' j ≡ returned z = sym ahead ∙ is_returned in absurd (cc);
    others = λ j free used. same_sessions st' j e used;
  }

  pub act-Effect :
      (what : Use) (i : ℕ) (t' : Thread) (st' : State D W)
      → OpenHandle st i
      → act lib what i st ≡ ok (t', st')
      → Effect (behind_check what i) t' st'
  unfolding act lxi_send lxi_receive lxi_disconnect
  act-Effect (sending message len timeout) i t' st' h e =
      let (z, run1, is_returned) =
        returned_lem (λ (z : ℤ). z) (send_session lib i message len timeout st) t' st' e in
      let whole : lxi_send lib st (pos i) message len timeout ≡ ok (z, st') =
        rw (lxi_send, valid_handle i h) run1 in
      quiet-Effect (sending message len timeout) i z t' st' is_returned
        (lxi_send-Inv lib st inv (pos i) message len timeout z st' whole)
        (send_sessions i message len timeout z st' h whole)
  act-Effect (receiving message len timeout) i t' st' h e =
      let (z, run1, is_returned) =
        returned_lem (λ (z : ℤ × Bytes). z.0) (receive_session lib i message len timeout st) t' st'
          e in
      let whole : lxi_receive lib st (pos i) message len timeout ≡ ok (z, st') =
        rw (lxi_receive, valid_handle i h) run1 in
      quiet-Effect (receiving message len timeout) i z.0 t' st' is_returned
        (lxi_receive-Inv lib st inv (pos i) message len timeout z st' whole)
        (receive_sessions i message len timeout z st' h whole)
  act-Effect disconnecting i t' st' h e =
      let (z, run1, is_returned) =
        returned_lem (λ (z : ℤ). z) (disconnect_session lib i st) t' st' e in
      let whole : lxi_disconnect lib st (pos i) ≡ ok (z, st') =
        rw (lxi_disconnect, valid_handle i h) run1 in
      let (one, keeps, gone) =
        lxi_disconnect-Closed lib st inv i h.entry z st' h.is_there h.in_use whole in
      record {
        well_formed = keeps;
        no_new = λ y target. absurd (subst (λ (t : Thread). Targets t y) is_returned target);
        still_open = λ what' j ahead.
            let clash : behind_check what' j ≡ returned z = sym ahead ∙ is_returned in absurd (cc);
        others = λ j free used. elim (Bool-cases (i == j)) [
          | inl hit ↦ absurd (free (ap pos ((==_iff i j).0 hit)))
          | inr miss ↦ (used.0, rw miss at (gone.2.handles j) ∙ used.1)
        ];
      }
