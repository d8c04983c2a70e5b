-- ===== src/Session/Invariant/Changes.antt =====
-- The changes of a state that the calls of src/lxi.c make, each of which keeps the invariant.
use mathlib.Core.Path.{subst}
use liblxi.Base.{
  ℕ, suc, ◌≤◌, ◌<◌, ◌≡◌, refl, sym, ap, ◌∙◌, inl, inr, true, false, Option, none, some, length,
  get_elem?, set, length-set, get_elem?-set, get_elem?-lt, get_elem?-set_self, ◌==◌, arith,
  Bool-cases, Option-cases, set-cases,
}
use liblxi.Session.{Session, State, update}
use liblxi.Session.Invariant.{Inv, IsOpen, Owner}

IsOpen-keeps :
    {D : Type 0} {heap : ℕ → Option D} (heap' : ℕ → Option D) {s : Session} (o : IsOpen heap s)
    (d : D)
    → heap' o.pointer ≡ some d
    → IsOpen heap' s
IsOpen-keeps heap' o d e = record {
  protocol = o.protocol;
  pointer = o.pointer;
  contents = d;
  is_connected = o.is_connected;
  has_connect = o.has_connect;
  has_disconnect = o.has_disconnect;
  has_send = o.has_send;
  has_receive = o.has_receive;
  has_block = o.has_block;
  is_live = e;
}

module _ {D W : Type 0} (st : State D W) (inv : Inv st) where
  -- A call that works on a live block.
  pub touch-Inv :
      (p : ℕ) (d d' : D) (w' : W)
      → st.heap p ≡ some d
      → Inv (record st { heap = update st.heap p (some d'); world = w' })
  touch-Inv p d d' w' live = record {
    size = inv.size;
    active = λ i s e a.
        let o = inv.active i s e a in
        elim (Bool-cases (p == o.pointer)) [
          | inl same ↦ IsOpen-keeps (update st.heap p (some d')) o d' (rw same refl)
          | inr other ↦ IsOpen-keeps (update st.heap p (some d')) o o.contents (rw other o.is_live)
        ];
    distinct = inv.distinct;
    owned = λ q d0 h. elim (Bool-cases (p == q)) [
      | inl same ↦ inv.owned q d (ground (arith, live))
      | inr other ↦ inv.owned q d0 (rw other at h)
    ];
    fresh = λ q d0 h. elim (Bool-cases (p == q)) [
      | inl same ↦ inv.fresh q d (ground (arith, live))
      | inr other ↦ inv.fresh q d0 (rw other at h)
    ];
  }

  -- No live block is the next one.
  fresh_block : (p : ℕ) (d : D) → st.heap p ≡ some d → (st.next == p) ≡ false
  fresh_block p d h = let lt = inv.fresh p d h in ground arith

  pub next_not_live : st.heap st.next ≡ none
  next_not_live = elim (Option-cases (st.heap st.next)) [
    | inl e ↦ e
    | inr (d, e) ↦ absurd (omega (arith, inv.fresh st.next d e))
  ]

  -- The block of a session in use is older than the next one.
  block_below :
      (j p : ℕ) (t : Session)
      → get_elem? st.sessions j ≡ some t
      → t.allocated ≡ true
      → t.block ≡ some p
      → p < st.next
  block_below j p t e a b =
      let o = inv.active j t e a in
      let below = inv.fresh o.pointer o.contents o.is_live in ground (arith, o.has_block)

  module _ (i : ℕ) (s : Session) (found : get_elem? st.sessions i ≡ some s) where
    inside : i < length st.sessions
    inside = get_elem?-lt st.sessions i found

    -- An owner whose entry is not the one written.
    keep-Owner :
        (v : Session) (p : ℕ) (o : Owner st.sessions p)
        → (o.entry ≡ s → ⊥)
        → Owner (set st.sessions i v) p
    keep-Owner v p o ne = elim (Bool-cases (i == o.index)) [
      | inl same ↦
          let at_i : i ≡ o.index = ground arith in
          let there : get_elem? st.sessions i ≡ some o.entry = rw at_i o.is_there in
          absurd (ne (cc))
      | inr other ↦ record {
        index = o.index;
        entry = o.entry;
        is_there = get_elem?-set st.sessions i o.index v inside ∙ rw other o.is_there;
        in_use = o.in_use;
        owns = o.owns;
      }
    ]

    -- A free entry is opened on the next block.
    pub open-Inv :
        (v : Session) (heap' : ℕ → Option D) (w' : W)
        → s.allocated ≡ false
        → v.allocated ≡ true
        → IsOpen heap' v
        → v.block ≡ some st.next
        → ((q : ℕ) → (st.next == q) ≡ false → heap' q ≡ st.heap q)
        → Inv (record st {
          sessions = set st.sessions i v;
          heap = heap';
          next = suc st.next;
          world = w';
        })
    open-Inv v heap' w' free used o block others = record {
      size = length-set st.sessions i v ∙ inv.size;
      active = λ j t e a. elim (set-cases st.sessions i j v t inside e) [
        | inl (ij, tv) ↦ subst (IsOpen heap') (sym tv) o
        | inr (ij, e') ↦
            let q = inv.active j t e' a in
            IsOpen-keeps heap' q q.contents
              (others q.pointer (fresh_block q.pointer q.contents q.is_live) ∙ q.is_live)
      ];
      distinct = λ j k p t u e f a b c d. elim (set-cases st.sessions i j v t inside e) [
        | inl (ij, tv) ↦ elim (set-cases st.sessions i k v u inside f) [
          | inl (ik, uv) ↦ sym ij ∙ ik
          | inr (ik, f') ↦
              let below = block_below k p u f' b d in
              let same : t.block ≡ v.block = ap (λ (x : Session). x.block) tv in
              absurd (ground arith)
        ]
        | inr (ij, e') ↦ elim (set-cases st.sessions i k v u inside f) [
          | inl (ik, uv) ↦
              let below = block_below j p t e' a c in
              let same : u.block ≡ v.block = ap (λ (x : Session). x.block) uv in
              absurd (ground arith)
          | inr (ik, f') ↦ inv.distinct j k p t u e' f' a b c d
        ]
      ];
      owned = λ p d h. elim (Bool-cases (st.next == p)) [
        | inl same ↦ record {
          index = i;
          entry = v;
          is_there = get_elem?-set_self st.sessions i v inside;
          in_use = used;
          owns = block ∙ ap some (ground arith);
        }
        | inr other ↦
            let w = inv.owned p d (sym (others p other) ∙ h) in
            keep-Owner v p w (λ e. ground (arith, w.in_use))
      ];
      fresh = λ p d h. elim (Bool-cases (st.next == p)) [
        | inl same ↦ ground arith
        | inr other ↦ let below = inv.fresh p d (sym (others p other) ∙ h) in omega arith
      ];
    }

    -- An entry that is not in use is written, and no block changes.
    pub quiet-Inv :
        (v : Session) (heap' : ℕ → Option D) (n : ℕ) (w' : W)
        → s.allocated ≡ false
        → v.allocated ≡ false
        → ((q : ℕ) → heap' q ≡ st.heap q)
        → st.next ≤ n
        → Inv (record st { sessions = set st.sessions i v; heap = heap'; next = n; world = w' })
    quiet-Inv v heap' n w' free free' same le = record {
      size = length-set st.sessions i v ∙ inv.size;
      active = λ j t e a. elim (set-cases st.sessions i j v t inside e) [
        | inl (ij, tv) ↦ absurd (cc)
        | inr (ij, e') ↦
            let q = inv.active j t e' a in
            IsOpen-keeps heap' q q.contents (same q.pointer ∙ q.is_live)
      ];
      distinct = λ j k p t u e f a b c d. elim (set-cases st.sessions i j v t inside e) [
        | inl (ij, tv) ↦ absurd (cc)
        | inr (ij, e') ↦ elim (set-cases st.sessions i k v u inside f) [
          | inl (ik, uv) ↦ absurd (cc)
          | inr (ik, f') ↦ inv.distinct j k p t u e' f' a b c d
        ]
      ];
      owned = λ p d h.
          let w = inv.owned p d (sym (same p) ∙ h) in
          keep-Owner v p w (λ e. ground (arith, w.in_use));
      fresh = λ p d h. let below = inv.fresh p d (sym (same p) ∙ h) in omega arith;
    }

    -- A session in use is closed and its block freed.
    pub close-Inv :
        (v : Session) (heap' : ℕ → Option D) (p0 : ℕ) (w' : W)
        → s.allocated ≡ true
        → s.block ≡ some p0
        → v.allocated ≡ false
        → heap' p0 ≡ none
        → ((q : ℕ) → (p0 == q) ≡ false → heap' q ≡ st.heap q)
        → Inv (record st { sessions = set st.sessions i v; heap = heap'; world = w' })
    close-Inv v heap' p0 w' used block free freed others = record {
      size = length-set st.sessions i v ∙ inv.size;
      active = λ j t e a. elim (set-cases st.sessions i j v t inside e) [
        | inl (ij, tv) ↦ absurd (cc)
        | inr (ij, e') ↦
            let q = inv.active j t e' a in
            elim (Bool-cases (p0 == q.pointer)) [
              | inl same ↦
                  let ij' =
                    inv.distinct i j p0 s t found e' used a block
                      (q.has_block ∙ ap some (ground arith)) in
                  absurd (ground arith)
              | inr other ↦ IsOpen-keeps heap' q q.contents (others q.pointer other ∙ q.is_live)
            ]
      ];
      distinct = λ j k p t u e f a b c d. elim (set-cases st.sessions i j v t inside e) [
        | inl (ij, tv) ↦ absurd (cc)
        | inr (ij, e') ↦ elim (set-cases st.sessions i k v u inside f) [
          | inl (ik, uv) ↦ absurd (cc)
          | inr (ik, f') ↦ inv.distinct j k p t u e' f' a b c d
        ]
      ];
      owned = λ p d h. elim (Bool-cases (p0 == p)) [
        | inl same ↦ absurd (ground (arith, freed))
        | inr other ↦
            let o = inv.owned p d (sym (others p other) ∙ h) in
            keep-Owner v p o (λ e. ground (arith, o.owns))
      ];
      fresh = λ p d h. elim (Bool-cases (p0 == p)) [
        | inl same ↦ absurd (ground (arith, freed))
        | inr other ↦ inv.fresh p d (sym (others p other) ∙ h)
      ];
    }
