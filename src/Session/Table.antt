-- ===== src/Session/Table.antt =====
-- The array of sessions: the search for a free entry, and the reset of all entries.
use liblxi.Base.{
  ℕ, zero, suc, ◌+◌, ◌≤◌, ◌<◌, ◌≡◌, refl, ap, inl, inr, true, false, none, some, List, [], ◌∷◌,
  length, get_elem?, arith, Bool-cases,
}
use liblxi.Session.{Session, find_free, init_loop}

-- The entries before number `k` are in use.
abbrev pub BusyBelow : List Session → ℕ → Type 0
BusyBelow ss k = (j : ℕ) (s : Session) → j < k → get_elem? ss j ≡ some s → s.allocated ≡ true

-- Entry `k` is the first that is not in use.
pub record FirstFree (ss : List Session) (k : ℕ) : Type 0 where
  pub entry : Session
  pub is_there : get_elem? ss k ≡ some entry
  pub is_free : entry.allocated ≡ false
  pub busy_below : BusyBelow ss k

busy_cons :
    (s : Session) (ss : List Session) (k : ℕ)
    → s.allocated ≡ true
    → BusyBelow ss k
    → BusyBelow (s ∷ ss) (suc k)
busy_cons s ss k a b zero s' h e = cc
busy_cons s ss k a b (suc j) s' h e = b j s' (omega arith) e

-- The search finds the first free entry.
pub find_free-some :
    (n : ℕ) (ss : List Session) (i r : ℕ)
    → find_free n ss i ≡ some r
    → (k : ℕ) × (r ≡ i + k) × (k < n) × FirstFree ss k
unfolding find_free
find_free-some zero ss i r e = absurd (cc)
find_free-some (suc n) [] i r e = absurd (cc)
find_free-some (suc n) (s ∷ ss) i r e = elim (Bool-cases s.allocated) [
  | inl a ↦
      let (k, e', lt, first) = find_free-some n ss (i + 1) r (rw a at e) in
      (
        suc k,
        omega arith,
        omega arith,
        record {
          entry = first.entry;
          is_there = first.is_there;
          is_free = first.is_free;
          busy_below = busy_cons s ss k a first.busy_below;
        },
      )
  | inr a ↦ (
    0,
    ground arith,
    omega arith,
    record {
      entry = s;
      is_there = refl;
      is_free = a;
      busy_below = λ j s' h e'. absurd (omega arith);
    },
  )
]

-- It fails only if every entry that it looks at is in use.
pub find_free-none : (n : ℕ) (ss : List Session) (i : ℕ) → find_free n ss i ≡ none → BusyBelow ss n
unfolding find_free
find_free-none zero ss i e = λ j s h g. absurd (omega arith)
find_free-none (suc n) [] i e = λ j s h g. absurd (cc)
find_free-none (suc n) (x ∷ ss) i e = elim (Bool-cases x.allocated) [
  | inl a ↦ busy_cons x ss n a (find_free-none n ss (i + 1) (rw a at e))
  | inr a ↦ absurd (ground arith)
]

pub length-init_loop : (n : ℕ) (ss : List Session) → length (init_loop n ss) ≡ length ss
unfolding init_loop
length-init_loop zero ss = refl
length-init_loop (suc n) [] = refl
length-init_loop (suc n) (s ∷ ss) = ap suc (length-init_loop n ss)

-- After the reset of all entries none is in use.
pub init_loop-free :
    (n : ℕ) (ss : List Session) (i : ℕ) (s : Session)
    → length ss ≤ n
    → get_elem? (init_loop n ss) i ≡ some s
    → s.allocated ≡ false
unfolding init_loop
init_loop-free zero [] i s h e = absurd (cc)
init_loop-free zero (x ∷ ss) i s h e = absurd (omega arith)
init_loop-free (suc n) [] i s h e = absurd (cc)
init_loop-free (suc n) (x ∷ ss) zero s h e = ground arith
init_loop-free (suc n) (x ∷ ss) (suc i) s h e = init_loop-free n ss i s (omega arith) e
