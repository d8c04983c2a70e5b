-- ===== src/Session/Threads/Exclusive.antt =====
-- The steps of a thread, for threads of which no two use one handle of src/lxi.c.
use liblxi.Base.{
  ℕ, ◌≡◌, refl, sym, ap, ◌∙◌, inl, inr, true, false, ℤ, pos, negsuc, get_elem?, ok, fault, bounds,
  Run-cases, Option-cases, Bool-cases, ok-injective, ltb,
}
use mathlib.Core.Path.{subst}
use liblxi.Backends.{Library}
use liblxi.Session.{State, at_index, lxi_error, is_valid_session, lxi_connect}
use liblxi.Session.Invariant.{Inv}
use liblxi.Session.Handles.{OpenHandle}
use liblxi.Session.Threads.{
  Use, using, connecting, Thread, before, behind_check, returned, check, step,
}
use liblxi.Session.Threads.Effects.{
  Used, Targets, Effect, returned_lem, Used-OpenHandle, OpenHandle-Used, connect-Effect, act-Effect,
}

module _ {D W : Type 0} (lib : Library D W) (st : State D W) (inv : Inv st) where
  valid-OpenHandle : (i : ℕ) → is_valid_session st (pos i) ≡ ok true → OpenHandle st i
  unfolding is_valid_session
  valid-OpenHandle i e = elim (Bool-cases (ltb 1024 i)) [
    | inl large ↦ let clash : ok false ≡ ok true = rw large at e in absurd (cc)
    | inr small ↦ elim (Option-cases (get_elem? st.sessions i)) [
      | inl outside ↦ let clash : fault bounds ≡ ok true = rw (small, outside) at e in absurd (cc)
      | inr (s, there) ↦
          let same : ok s.allocated ≡ ok true = rw (small, there) at e in
          record { entry = s; is_there = there; in_use = ok-injective same }
    ]
  ]

  -- The test changes nothing.
  still-Effect :
      (t t' : Thread) (st' : State D W)
      → st ≡ st'
      → ((z : ℤ) → Targets t' z → Targets t z)
      → ((what : Use) (i : ℕ) → t' ≡ behind_check what i → Used st i)
      → Effect lib st inv t t' st'
  still-Effect t t' st' same fewer opens = subst (Effect lib st inv t t') same (record {
    well_formed = inv;
    no_new = fewer;
    still_open = opens;
    others = λ j free used. used;
  })

  check-Effect :
      (what : Use) (device : ℤ) (t' : Thread) (st' : State D W)
      → check lib what device st ≡ ok (t', st')
      → Effect lib st inv (before (using device what)) t' st'
  unfolding check
  check-Effect what device t' st' e = elim (Run-cases (is_valid_session st device)) [
    | inr (f, e1) ↦ let clash : fault f ≡ ok (t', st') = rw e1 at e in absurd (cc)
    | inl (false, e1) ↦
        let same : ok (returned lxi_error, st) ≡ ok (t', st') = rw e1 at e in
        let left : returned lxi_error ≡ t' =
          ap (λ (r : Thread × State D W). r.0) (ok-injective same) in
        still-Effect (before (using device what)) t' st'
          (ap (λ (r : Thread × State D W). r.1) (ok-injective same))
          (λ z target. absurd (subst (λ (t : Thread). Targets t z) (sym left) target))
          (λ what' i ahead.
            let clash : returned lxi_error ≡ behind_check what' i = left ∙ ahead in absurd (cc))
    | inl (true, e1) ↦ passed what device t' st' e1 (rw e1 at e)
  ]
    where
      passed :
          (what : Use) (device : ℤ) (t' : Thread) (st' : State D W)
          → is_valid_session st device ≡ ok true
          → at_index {A = Thread × State D W} device (λ i. ok (behind_check what i, st))
            ≡ ok (t', st')
          → Effect lib st inv (before (using device what)) t' st'
      passed what (negsuc n) t' st' e1 e = absurd (cc)
      passed what (pos i) t' st' e1 e =
          let left : behind_check what i ≡ t' =
            ap (λ (r : Thread × State D W). r.0) (ok-injective e) in
          let used = OpenHandle-Used lib st inv i (valid-OpenHandle i e1) in
          still-Effect (before (using (pos i) what)) t' st'
            (ap (λ (r : Thread × State D W). r.1) (ok-injective e))
            (λ z target. subst (λ (t : Thread). Targets t z) (sym left) target)
            (λ what' j ahead.
              let same : behind_check what i ≡ behind_check what' j = left ∙ ahead in
              let ij : i ≡ j = cc in subst (Used st) ij used)

  -- A step of a thread whose handle, once tested, is still open.
  pub step-Effect :
      (t t' : Thread) (st' : State D W)
      → ((what : Use) (i : ℕ) → t ≡ behind_check what i → Used st i)
      → step lib t st ≡ ok (t', st')
      → Effect lib st inv t t' st'
  unfolding step
  step-Effect (before (connecting a p n t pr)) t' st' opens e =
      let (z, run1, is_returned) =
        returned_lem (λ (z : ℤ). z) (lxi_connect lib st a p n t pr) t' st' e in
      subst (λ (u : Thread). Effect lib st inv (before (connecting a p n t pr)) u st')
        (sym is_returned) (connect-Effect lib st inv a p n t pr z st' run1)
  step-Effect (before (using device what)) t' st' opens e = check-Effect what device t' st' e
  step-Effect (behind_check what i) t' st' opens e =
      act-Effect lib st inv what i t' st' (Used-OpenHandle lib st inv i (opens what i refl)) e
  step-Effect (returned z) t' st' opens e =
      let left : returned z ≡ t' = ap (λ (r : Thread × State D W). r.0) (ok-injective e) in
      still-Effect (returned z) t' st' (ap (λ (r : Thread × State D W). r.1) (ok-injective e))
        (λ y target. subst (λ (t : Thread). Targets t y) (sym left) target)
        (λ what i ahead. let clash : returned z ≡ behind_check what i = left ∙ ahead in absurd (cc))
