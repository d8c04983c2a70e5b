-- ===== src/Session/Threads/Schedules.antt =====
-- Schedules of threads in which no two use one handle of src/lxi.c.
use liblxi.Base.{
  ℕ, ◌≡◌, refl, sym, ap, ◌∙◌, inl, inr, true, false, some, [], ◌∷◌, List, ℤ, pos, get_elem?, set,
  get_elem?-lt, set-cases, ok, fault, Run-cases, Option-cases, ok-injective, ◌==◌, arith,
}
use mathlib.Core.Path.{subst}
use liblxi.Backends.{Library}
use liblxi.Session.{State}
use liblxi.Session.Invariant.{Inv}
use liblxi.Session.Threads.{Use, Thread, behind_check, step, run}
use liblxi.Session.Threads.Effects.{Used, Targets}
use liblxi.Session.Threads.Exclusive.{step-Effect}

-- The table is well formed, no two threads use one handle, and the handles that have been tested
-- are open.
pub record Exclusive {D W : Type 0} (threads : List Thread) (st : State D W) : Type 0 where
  pub well_formed : Inv st
  pub distinct :
      (j k : ℕ) (t u : Thread) (z : ℤ)
      → get_elem? threads j ≡ some t
      → get_elem? threads k ≡ some u
      → Targets t z
      → Targets u z
      → j ≡ k
  pub tested :
      (k : ℕ) (what : Use) (i : ℕ) → get_elem? threads k ≡ some (behind_check what i) → Used st i

module _ {D W : Type 0} (lib : Library D W) where
  pub step-Exclusive :
      (threads : List Thread) (st : State D W) (k : ℕ) (t t' : Thread) (st' : State D W)
      → Exclusive threads st
      → get_elem? threads k ≡ some t
      → step lib t st ≡ ok (t', st')
      → Exclusive (set threads k t') st'
  step-Exclusive threads st k t t' st' x there e =
      let inside = get_elem?-lt threads k there in
      let change =
        step-Effect lib st x.well_formed t t' st'
          (λ what i is. x.tested k what i (there ∙ ap some is)) e in
      record {
        well_formed = change.well_formed;
        distinct = λ i j a b z ea eb ta tb. elim (set-cases threads k i t' a inside ea) [
          | inl (ki, fresh) ↦ elim (set-cases threads k j t' b inside eb) [
            | inl (kj, fresh2) ↦ sym ki ∙ kj
            | inr (other, old) ↦
                let target = change.no_new z (subst (λ (u : Thread). Targets u z) fresh ta) in
                sym ki ∙ x.distinct k j t b z there old target tb
          ]
          | inr (other, old) ↦ elim (set-cases threads k j t' b inside eb) [
            | inl (kj, fresh2) ↦
                let target = change.no_new z (subst (λ (u : Thread). Targets u z) fresh2 tb) in
                x.distinct i k a t z old there ta target ∙ kj
            | inr (other2, old2) ↦ x.distinct i j a b z old old2 ta tb
          ]
        ];
        tested = λ j what i ej. elim (set-cases threads k j t' (behind_check what i) inside ej) [
          | inl (kj, fresh) ↦ change.still_open what i (sym fresh)
          | inr (other, old) ↦
              change.others i
                (λ target.
                  let same : k ≡ j =
                    x.distinct k j t (behind_check what i) (pos i) there old target refl in
                  let hit : (k == j) ≡ true = ground arith in
                  let clash : true ≡ false = sym hit ∙ other in absurd (cc))
                (x.tested j what i old)
        ];
      }

  -- Whatever the order of their steps, threads of which no two use one handle keep the table well
  -- formed, and a handle that one of them has tested stays open until that thread goes on.
  pub run-Exclusive :
      (schedule : List ℕ) (threads threads' : List Thread) (st st' : State D W)
      → Exclusive threads st
      → run lib schedule threads st ≡ ok (threads', st')
      → Exclusive threads' st'
  unfolding run
  run-Exclusive [] threads threads' st st' x e =
      subst (λ (r : List Thread × State D W). Exclusive r.0 r.1) (ok-injective e) x
  run-Exclusive (k ∷ schedule) threads threads' st st' x e =
      elim (Option-cases (get_elem? threads k)) [
        | inl nobody ↦ run-Exclusive schedule threads threads' st st' x (rw (nobody, run) at e)
        | inr (t, there) ↦ elim (Run-cases (step lib t st)) [
          | inr (f, e1) ↦
              let clash : fault f ≡ ok (threads', st') = rw (there, run, e1) at e in absurd (cc)
          | inl ((t1, st1), e1) ↦
              run-Exclusive schedule (set threads k t1) threads' st1 st'
                (step-Exclusive threads st k t t1 st1 x there e1) (rw (there, run, e1) at e)
        ]
      ]
