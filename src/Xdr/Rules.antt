-- ===== src/Xdr/Rules.antt =====
-- What the XDR standard (RFC 4506) and its library promise of the routines, and rules that build
-- the same for the generated code.
use mathlib.Core.Path.{subst}
use liblxi.Base.{
  ℕ, ◌+◌, ◌-◌, ◌/◌, ◌%◌, ◌^◌, ◌≤◌, ◌<◌, ◌≡◌, refl, sym, ap, ◌∙◌, some, Option-cases, inl, inr, [],
  ◌∷◌, ◌++◌, append-nil, append_assoc, length, length-append, replicate, ltb, if◌then◌else◌, Bytes,
  arith,
}
use liblxi.Xdr.{
  Xdr, encode, decode, Kind, int, u_int, bool, enum, u_short, char, u_char, M, ◌>>=◌, done, by_op,
  if_inline, ixdr_put, ixdr_get,
}

pub bool_word : {v : ℕ} → v < 2 → v < 2 ^ 32
bool_word h = omega arith

-- Four bytes, the most significant first.
abbrev pub be32 : ℕ → Bytes
be32 v = (v / 2 ^ 24 % 256) ∷ (v / 2 ^ 16 % 256) ∷ (v / 2 ^ 8 % 256) ∷ (v % 256) ∷ []

-- The values of each kind, and the 32-bit number that stands for one. A char is signed.
abbrev pub Fits : Kind → ℕ → Type 0
Fits int v = v < 2 ^ 32
Fits u_int v = v < 2 ^ 32
Fits bool v = v < 2
Fits enum v = v < 2 ^ 32
Fits u_short v = v < 2 ^ 16
Fits char v = v < 2 ^ 8
Fits u_char v = v < 2 ^ 8

abbrev pub extended : Kind → ℕ → ℕ
extended char v = if ltb v 128 then v else 2 ^ 32 - 2 ^ 8 + v
extended int v = v
extended u_int v = v
extended bool v = v
extended enum v = v
extended u_short v = v
extended u_char v = v

-- Counted bytes, filled up to a multiple of four with zeros.
abbrev pub counted : Bytes → Bytes
counted b = be32 (length b) ++ (b ++ replicate ((4 - length b % 4) % 4) 0)

abbrev pub NoNul : Bytes → Type 0
NoNul [] = Unit {0}
NoNul (c ∷ cs) = (0 < c) × NoNul cs

-- How much of the stream has been written, what is left to read, how much can still be written,
-- and how much of an open window is left.
pub record Observer (S : Type 0) : Type 0 where
  pub written : S → Bytes
  pub unread : S → Bytes
  pub room : S → ℕ
  pub pending : S → ℕ

module _ {S : Type 0} (x : Xdr S) (obs : Observer S) where
  -- Encoding with a window of `p` bytes left, given room, writes exactly `w`, returns `a`, and
  -- leaves a window of `q` bytes.
  pub record Writes {A : Type 0} (p q : ℕ) (m : M S A) (w : Bytes) (a : A) : Type 0 where
    pub run :
        (s : S)
        → x.x_op s ≡ encode
        → obs.pending s ≡ p
        → length w ≤ obs.room s
        → (s' : S) × (m s ≡ some (a, s'))
          × (obs.written s' ≡ obs.written s ++ w)
          × (x.x_op s' ≡ encode)
          × (obs.pending s' ≡ q)
          × (obs.room s ≤ obs.room s' + length w)

  -- Decoding a stream that begins with `w` returns `a` and leaves the rest.
  pub record Reads {A : Type 0} (p q : ℕ) (m : M S A) (w : Bytes) (a : A) : Type 0 where
    pub run :
        (s : S) (rest : Bytes)
        → x.x_op s ≡ decode
        → obs.pending s ≡ p
        → obs.unread s ≡ w ++ rest
        → (s' : S) × (m s ≡ some (a, s'))
          × (obs.unread s' ≡ rest)
          × (x.x_op s' ≡ decode)
          × (obs.pending s' ≡ q)

  -- The library's promises. `old` is what the object held before it is decoded into.
  pub record XdrLaw : Type 0 where
    pub number_writes :
        (k : Kind) (v : ℕ) → Fits k v → Writes 0 0 (x.number k v) (be32 (extended k v)) v
    pub number_reads :
        (k : Kind) (old v : ℕ) → Fits k v → Reads 0 0 (x.number k old) (be32 (extended k v)) v
    pub bytes_writes :
        (b : Bytes) (max : ℕ)
        → length b ≤ max
        → max < 2 ^ 32
        → Writes 0 0 (x.bytes b max) (counted b) b
    pub bytes_reads :
        (old b : Bytes) (max : ℕ)
        → length b ≤ max
        → max < 2 ^ 32
        → Reads 0 0 (x.bytes old max) (counted b) b
    pub string_writes :
        (b : Bytes) (max : ℕ)
        → NoNul b
        → length b ≤ max
        → max < 2 ^ 32
        → Writes 0 0 (x.string b max) (counted b) b
    pub string_reads :
        (old b : Bytes) (max : ℕ)
        → NoNul b
        → length b ≤ max
        → max < 2 ^ 32
        → Reads 0 0 (x.string old max) (counted b) b
    -- Opening a window leaves the position and the direction; the window has the size asked for.
    pub inline_opens :
        (n : ℕ) (s s' : S)
        → x.inline n s ≡ some s'
        → (x.x_op s' ≡ x.x_op s)
          × (obs.pending s' ≡ n)
          × (obs.written s' ≡ obs.written s)
          × (obs.unread s' ≡ obs.unread s)
          × (obs.room s' ≡ obs.room s)
    pub put_writes : (p v : ℕ) → v < 2 ^ 32 → Writes (4 + p) p (ixdr_put x v) (be32 v) v
    pub get_reads : (p v : ℕ) → v < 2 ^ 32 → Reads (4 + p) p (ixdr_get x) (be32 v) v

module _ {S : Type 0} {x : Xdr S} {obs : Observer S} where
  pub done-Writes : {A : Type 0} (p : ℕ) (a : A) → Writes x obs p p (done a) [] a
  unfolding done
  done-Writes p a = record {
    run = λ s op pend room. (s, refl, sym (append-nil (obs.written s)), op, pend, omega arith);
  }

  pub done-Reads : {A : Type 0} (p : ℕ) (a : A) → Reads x obs p p (done a) [] a
  unfolding done
  done-Reads p a = record { run = λ s rest op pend left. (s, refl, left, op, pend) }

  pub bind-Writes :
      {A B : Type 0} {p q r : ℕ} {m : M S A} (f : A → M S B) {w w' : Bytes} {a : A} {b : B}
      → Writes x obs p q m w a
      → Writes x obs q r (f a) w' b
      → Writes x obs p r (m >>= f) (w ++ w') b
  unfolding ◌>>=◌
  bind-Writes {p} {q} {r} {m} f {w} {w'} {a} {b} first then_ = record {
    run = λ s op pend room.
        let sum = length-append w w' in
        let (s1, e1, w1, op1, pend1, room1) = first.run s op pend (omega arith) in
        let (s2, e2, w2, op2, pend2, room2) = then_.run s1 op1 pend1 (omega arith) in
        (
          s2,
          rw (e1, ◌>>=◌) e2,
          w2 ∙ rw w1 (append_assoc (obs.written s) w w'),
          op2,
          pend2,
          omega arith,
        );
  }

  pub bind-Reads :
      {A B : Type 0} {p q r : ℕ} {m : M S A} (f : A → M S B) {w w' : Bytes} {a : A} {b : B}
      → Reads x obs p q m w a
      → Reads x obs q r (f a) w' b
      → Reads x obs p r (m >>= f) (w ++ w') b
  unfolding ◌>>=◌
  bind-Reads {p} {q} {r} {m} f {w} {w'} {a} {b} first then_ = record {
    run = λ s rest op pend left.
        let (s1, e1, left1, op1, pend1) =
          first.run s (w' ++ rest) op pend (left ∙ append_assoc w w' rest) in
        let (s2, e2, left2, op2, pend2) = then_.run s1 rest op1 pend1 left1 in
        (s2, rw (e1, ◌>>=◌) e2, left2, op2, pend2);
  }

  -- The last field, and the `return TRUE` behind it.
  pub bind_done-Writes :
      {A B : Type 0} {p q : ℕ} {m : M S A} (g : A → B) {w : Bytes} {a : A}
      → Writes x obs p q m w a
      → Writes x obs p q (m >>= λ v. done (g v)) w (g a)
  bind_done-Writes {p} {q} {m} g {w} {a} h =
      subst (λ (b : Bytes). Writes x obs p q (m >>= λ v. done (g v)) b (g a)) (append-nil w)
        (bind-Writes (λ v. done (g v)) h (done-Writes q (g a)))

  pub bind_done-Reads :
      {A B : Type 0} {p q : ℕ} {m : M S A} (g : A → B) {w : Bytes} {a : A}
      → Reads x obs p q m w a
      → Reads x obs p q (m >>= λ v. done (g v)) w (g a)
  bind_done-Reads {p} {q} {m} g {w} {a} h =
      subst (λ (b : Bytes). Reads x obs p q (m >>= λ v. done (g v)) b (g a)) (append-nil w)
        (bind-Reads (λ v. done (g v)) h (done-Reads q (g a)))

  pub by_op-Writes :
      {A : Type 0} {p q : ℕ} {m : M S A} (n k : M S A) {w : Bytes} {a : A}
      → Writes x obs p q m w a
      → Writes x obs p q (by_op x m n k) w a
  unfolding by_op
  by_op-Writes n k h = record { run = λ s op pend room. rw (op, by_op) (h.run s op pend room) }

  pub by_op-Reads :
      {A : Type 0} {p q : ℕ} {n : M S A} (m k : M S A) {w : Bytes} {a : A}
      → Reads x obs p q n w a
      → Reads x obs p q (by_op x m n k) w a
  unfolding by_op
  by_op-Reads m k h = record {
    run = λ s rest op pend left. rw (op, by_op) (h.run s rest op pend left);
  }

  -- A window of `n` bytes that the fast branch fills, or the slow branch in its place.
  pub inline-Writes :
      {A : Type 0} (n : ℕ) {slow fast : M S A} {w : Bytes} {a : A}
      → XdrLaw x obs
      → Writes x obs 0 0 slow w a
      → Writes x obs n 0 fast w a
      → Writes x obs 0 0 (if_inline x n slow fast) w a
  unfolding if_inline
  inline-Writes n {slow} {fast} {w} {a} law hs hf = record {
    run = λ s op pend room. elim (Option-cases (x.inline n s)) [
      | inl e ↦ rw (e, if_inline) (hs.run s op pend room)
      | inr (s1, e) ↦
          let (op1, pend1, wr1, un1, rm1) = law.inline_opens n s s1 e in
          let (s2, e2, w2, op2, pend2, room2) = hf.run s1 (op1 ∙ op) pend1 (omega arith) in
          (s2, rw (e, if_inline) e2, w2 ∙ ap (λ (b : Bytes). b ++ w) wr1, op2, pend2, omega arith)
    ];
  }

  pub inline-Reads :
      {A : Type 0} (n : ℕ) {slow fast : M S A} {w : Bytes} {a : A}
      → XdrLaw x obs
      → Reads x obs 0 0 slow w a
      → Reads x obs n 0 fast w a
      → Reads x obs 0 0 (if_inline x n slow fast) w a
  unfolding if_inline
  inline-Reads n {slow} {fast} {w} {a} law hs hf = record {
    run = λ s rest op pend left. elim (Option-cases (x.inline n s)) [
      | inl e ↦ rw (e, if_inline) (hs.run s rest op pend left)
      | inr (s1, e) ↦
          let (op1, pend1, wr1, un1, rm1) = law.inline_opens n s s1 e in
          let (s2, e2, left2, op2, pend2) = hf.run s1 rest (op1 ∙ op) pend1 (un1 ∙ left) in
          (s2, rw (e, if_inline) e2, left2, op2, pend2)
    ];
  }

-- A generated routine carries each valid object over the wire in the form that is given for it.
pub record Codes {S : Type 0} (x : Xdr S) (obs : Observer S) {A : Type 0} (routine : A → M S A)
    (wire : A → Bytes) (IsValid : A → Type 0) : Type 0 where
  pub writes : (a : A) → IsValid a → Writes x obs 0 0 (routine a) (wire a) a
  pub reads : (old a : A) → IsValid a → Reads x obs 0 0 (routine old) (wire a) a
