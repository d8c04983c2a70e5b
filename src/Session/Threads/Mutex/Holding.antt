-- ===== src/Session/Threads/Mutex/Holding.antt =====
-- Who holds session_mutex of src/lxi.c.
use liblxi.Base.{
  ℕ, ◌≡◌, sym, ap, ◌∙◌, inl, inr, Option, none, some, get_elem?, set, Bool-cases, Option-cases, ok,
  fault, Run-cases, ok-injective,
}
use liblxi.Backends.{Library}
use liblxi.Session.{State}
use liblxi.Session.Threads.{Thread, step}
use liblxi.Session.Threads.Mutex.{
  Phase, outside, inside, leaving, locks, Machine, lock, part, move, tick,
}

-- The phases of a thread that holds the mutex.
pub data Holds : Phase → Type 0 where
  in_part : {t : Thread} → Holds (inside t)
  behind_part : {t : Thread} → Holds (leaving t)

-- The mutex is held by the thread that is in such a phase, and by no other one.
pub record Held {D W : Type 0} (mach : Machine D W) : Type 0 where
  pub holder_owns :
      (k : ℕ) (p : Phase) → get_elem? mach.phases k ≡ some p → Holds p → mach.owner ≡ some k
  pub owner_holds :
      (k : ℕ) → mach.owner ≡ some k → (p : Phase) × (get_elem? mach.phases k ≡ some p) × Holds p

pub outside-Holds : {t : Thread} {p : Phase} → p ≡ outside t → Holds p → ⊥
outside-Holds e in_part = absurd (cc)
outside-Holds e behind_part = absurd (cc)

module _ {D W : Type 0} (lib : Library D W) where
  -- What one step of a machine can be.
  pub data Move (k : ℕ) (mach mach' : Machine D W) : Type 0 where
    idle : mach' ≡ mach → Move k mach mach'
    locked :
        (t : Thread)
        → get_elem? mach.phases k ≡ some (outside t)
        → mach.owner ≡ none
        → mach' ≡ record mach { phases = set mach.phases k (inside t); owner = some k }
        → Move k mach mach'
    ran :
        (t t1 : Thread) (st1 : State D W)
        → get_elem? mach.phases k ≡ some (outside t)
        → step lib t mach.state ≡ ok (t1, st1)
        → mach' ≡ record mach { phases = set mach.phases k (outside t1); state = st1 }
        → Move k mach mach'
    ran_inside :
        (t t1 : Thread) (st1 : State D W)
        → get_elem? mach.phases k ≡ some (inside t)
        → step lib t mach.state ≡ ok (t1, st1)
        → mach' ≡ record mach { phases = set mach.phases k (leaving t1); state = st1 }
        → Move k mach mach'
    unlocked :
        (t : Thread)
        → get_elem? mach.phases k ≡ some (leaving t)
        → mach' ≡ record mach { phases = set mach.phases k (outside t); owner = none }
        → Move k mach mach'

  part-step :
      (next : Thread → Phase) (k : ℕ) (t : Thread) (mach mach' : Machine D W)
      → part lib next k t mach ≡ ok mach'
      → (t1 : Thread) × (st1 : State D W) × (step lib t mach.state ≡ ok (t1, st1))
        × (mach' ≡ record mach { phases = set mach.phases k (next t1); state = st1 })
  unfolding part
  part-step next k t mach mach' h = elim (Run-cases (step lib t mach.state)) [
    | inl ((t1, st1), e) ↦ (t1, st1, e, sym (ok-injective (rw e at h)))
    | inr (why, e) ↦ let bad : fault why ≡ ok mach' = rw e at h in absurd (cc)
  ]

  move-Move :
      (k : ℕ) (p : Phase) (mach mach' : Machine D W)
      → get_elem? mach.phases k ≡ some p
      → move lib k p mach ≡ ok mach'
      → Move k mach mach'
  unfolding move
  move-Move k (outside t) mach mach' there h = elim (Bool-cases (locks t)) [
    | inl needed ↦ elim (Option-cases mach.owner) [
      | inl e ↦
          locked t there e
            (sym (ok-injective (rw needed at h)) ∙ ap (λ (o : Option ℕ). lock o k t mach) e)
      | inr (j, e) ↦
          idle (sym (ok-injective (rw needed at h)) ∙ ap (λ (o : Option ℕ). lock o k t mach) e)
    ]
    | inr free ↦
        let (t1, st1, e, is) = part-step outside k t mach mach' (rw free at h) in
        ran t t1 st1 there e is
  ]
  move-Move k (inside t) mach mach' there h =
      let (t1, st1, e, is) = part-step leaving k t mach mach' h in ran_inside t t1 st1 there e is
  move-Move k (leaving t) mach mach' there h = unlocked t there (sym (ok-injective h))

  pub tick-Move :
      (k : ℕ) (mach mach' : Machine D W) → tick lib k mach ≡ ok mach' → Move k mach mach'
  unfolding tick
  tick-Move k mach mach' h = elim (Option-cases (get_elem? mach.phases k)) [
    | inl e ↦ idle (sym (ok-injective (rw (e, tick) at h)))
    | inr (p, e) ↦ move-Move k p mach mach' e (rw (e, tick) at h)
  ]
