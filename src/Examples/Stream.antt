-- ===== src/Examples/Stream.antt =====
-- An XDR stream in memory, which writes and reads words of four bytes, the most significant first.
use liblxi.Base.{
  ℕ, zero, suc, ◌+◌, ◌-◌, ◌*◌, ◌/◌, ◌%◌, ◌^◌, ◌<◌, ◌≡◌, refl, ap, ◌∙◌, Option, none, some, [], ◌∷◌,
  ◌++◌, append_assoc, Bool-cases, inl, inr, length, take, drop, take-append, drop-append, replicate,
  leb, if◌then◌else◌, Bytes, arith,
}
use liblxi.Xdr.{
  Xdr, Op, encode, decode, free, Kind, int, u_int, bool, enum, u_short, char, u_char, M, ixdr_put,
  ixdr_get,
}
use liblxi.Xdr.Rules.{be32, Fits, extended, counted, Observer, Writes, Reads, XdrLaw}

pub record Memory : Type 0 where
  pub direction : Op
  pub output : Bytes
  pub input : Bytes
  pub space : ℕ
  pub window : ℕ

-- The next word, and what follows it.
abbrev word : Bytes → Option (ℕ × Bytes)
word [] = none
word (a ∷ []) = none
word (a ∷ b ∷ []) = none
word (a ∷ b ∷ c ∷ []) = none
word (a ∷ b ∷ c ∷ d ∷ rest) = some (a * 2 ^ 24 + b * 2 ^ 16 + c * 2 ^ 8 + d, rest)

word-be32 : (v : ℕ) (rest : Bytes) → v < 2 ^ 32 → word (be32 v ++ rest) ≡ some (v, rest)
word-be32 v rest h =
    let e : v / 2 ^ 24 % 256 * 2 ^ 24
          + v / 2 ^ 16 % 256 * 2 ^ 16
          + v / 2 ^ 8 % 256 * 2 ^ 8
          + v % 256
        ≡ v =
      omega arith in
    ap (λ (n : ℕ). some (n, rest)) e

-- A char is the low byte of its word.
abbrev narrowed : Kind → ℕ → ℕ
narrowed char v = v % 2 ^ 8
narrowed int v = v
narrowed u_int v = v
narrowed bool v = v
narrowed enum v = v
narrowed u_short v = v
narrowed u_char v = v

narrowed-extended : (k : Kind) (v : ℕ) → Fits k v → narrowed k (extended k v) ≡ v
narrowed-extended char v h = ground arith
narrowed-extended int v h = refl
narrowed-extended u_int v h = refl
narrowed-extended bool v h = refl
narrowed-extended enum v h = refl
narrowed-extended u_short v h = refl
narrowed-extended u_char v h = refl

extended-word : (k : Kind) (v : ℕ) → Fits k v → extended k v < 2 ^ 32
extended-word char v h = ground arith
extended-word int v h = h
extended-word u_int v h = h
extended-word bool v h = omega arith
extended-word enum v h = h
extended-word u_short v h = omega arith
extended-word u_char v h = omega arith

abbrev put_bytes : {A : Type 0} → A → Bytes → Memory → Option (A × Memory)
put_bytes a b s = some (a, record s { output = s.output ++ b; space = s.space - length b })

abbrev word_got : Kind → Option (ℕ × Bytes) → Memory → Option (ℕ × Memory)
word_got k none s = none
word_got k (some (v, rest)) s = some (narrowed k v, record s { input = rest })

abbrev number_by : Op → Kind → ℕ → Memory → Option (ℕ × Memory)
number_by encode k v s = put_bytes v (be32 (extended k v)) s
number_by decode k v s = word_got k (word s.input) s
number_by free k v s = some (v, s)

abbrev padding : ℕ → ℕ
padding n = (4 - n % 4) % 4

abbrev counted_got : Option (ℕ × Bytes) → Memory → Option (Bytes × Memory)
counted_got none s = none
counted_got (some (n, rest)) s =
    some (take n rest, record s { input = drop (padding n) (drop n rest) })

abbrev bytes_by : Op → Bytes → Memory → Option (Bytes × Memory)
bytes_by encode b s = put_bytes b (counted b) s
bytes_by decode b s = counted_got (word s.input) s
bytes_by free b s = some ([], s)

abbrev window_open : Op → ℕ → Memory → Option Memory
window_open encode n s = if leb n s.space then some (record s { window = n }) else none
window_open decode n s = if leb n (length s.input) then some (record s { window = n }) else none
window_open free n s = none

abbrev word_or_zero : Option (ℕ × Bytes) → Memory → ℕ × Memory
word_or_zero none s = (0, s)
word_or_zero (some (v, rest)) s = (v, record s { input = rest; window = s.window - 4 })

abbrev pub memory_xdr : Xdr Memory
memory_xdr = record {
  x_op = λ s. s.direction;
  number = λ k v s. number_by s.direction k v s;
  string = λ b max s. bytes_by s.direction b s;
  bytes = λ b max s. bytes_by s.direction b s;
  inline = λ n s. window_open s.direction n s;
  put = λ v s. record s { output = s.output ++ be32 v; space = s.space - 4; window = s.window - 4 };
  get = λ s. word_or_zero (word s.input) s;
}

abbrev pub memory_observer : Observer Memory
memory_observer = record {
  written = λ s. s.output;
  unread = λ s. s.input;
  room = λ s. s.space;
  pending = λ s. s.window;
}

abbrev Put : {A : Type 0} → ℕ → ℕ → M Memory A → Bytes → A → Type 0
Put p q m w a = Writes memory_xdr memory_observer p q m w a

abbrev Got : {A : Type 0} → ℕ → ℕ → M Memory A → Bytes → A → Type 0
Got p q m w a = Reads memory_xdr memory_observer p q m w a

number-Put : (k : Kind) (v : ℕ) → Put 0 0 (memory_xdr.number k v) (be32 (extended k v)) v
number-Put k v = record {
  run = λ s op pend room.
      let word4 : Bytes = be32 (extended k v) in
      (
        record s { output = s.output ++ word4; space = s.space - length word4 },
        rw op refl,
        refl,
        op,
        pend,
        omega arith,
      );
}

number-Got :
    (k : Kind) (old v : ℕ) → Fits k v → Got 0 0 (memory_xdr.number k old) (be32 (extended k v)) v
number-Got k old v h = record {
  run = λ s rest op pend left.
      let e = word-be32 (extended k v) rest (extended-word k v h) in
      (
        record s { input = rest },
        (let got : word s.input ≡ some (extended k v, rest) = ap word left ∙ e in
            rw (op, got, narrowed-extended k v h) refl),
        refl,
        op,
        pend,
      );
}

bytes-Put : (b : Bytes) (max : ℕ) → Put 0 0 (memory_xdr.bytes b max) (counted b) b
bytes-Put b max = record {
  run = λ s op pend room. (
    record s { output = s.output ++ counted b; space = s.space - length (counted b) },
    rw op refl,
    refl,
    op,
    pend,
    omega arith,
  );
}

drop_fill : (n : ℕ) (rest : Bytes) → drop n (replicate n 0 ++ rest) ≡ rest
drop_fill zero rest = refl
drop_fill (suc n) rest = drop_fill n rest

counted-split :
    (b rest : Bytes)
    → counted b ++ rest ≡ be32 (length b) ++ (b ++ (replicate (padding (length b)) 0 ++ rest))
counted-split b rest =
    ap (λ (t : Bytes). be32 (length b) ++ t)
      (append_assoc b (replicate (padding (length b)) 0) rest)

bytes-Got :
    (old b : Bytes) (max : ℕ) → length b < 2 ^ 32 → Got 0 0 (memory_xdr.bytes old max) (counted b) b
bytes-Got old b max h = record {
  run = λ s rest op pend left.
      let fill : Bytes = replicate (padding (length b)) 0 in
      let e = word-be32 (length b) (b ++ (fill ++ rest)) h in
      (
        record s { input = rest },
        (let got : word s.input ≡ some (length b, b ++ (fill ++ rest)) =
              ap word (left ∙ counted-split b rest) ∙ e in
            rw
              (
                op,
                got,
                take-append b (fill ++ rest),
                drop-append b (fill ++ rest),
                drop_fill (padding (length b)) rest,
              )
              refl),
        refl,
        op,
        pend,
      );
}

put-Put : (p v : ℕ) → Put (4 + p) p (λ (t : Memory). some (v, memory_xdr.put v t)) (be32 v) v
put-Put p v = record {
  run = λ s op pend room. (memory_xdr.put v s, refl, refl, op, omega arith, omega arith);
}

get-Got :
    (p v : ℕ) → v < 2 ^ 32 → Got (4 + p) p (λ (t : Memory). some (memory_xdr.get t)) (be32 v) v
get-Got p v h = record {
  run = λ s rest op pend left.
      let e = word-be32 v rest h in
      (
        record s { input = rest; window = s.window - 4 },
        (let got : word s.input ≡ some (v, rest) = ap word left ∙ e in rw got refl),
        refl,
        op,
        omega arith,
      );
}

window_opens :
    (o : Op) (n : ℕ) (s s' : Memory) → window_open o n s ≡ some s' → s' ≡ record s { window = n }
window_opens encode n s s' e = elim (Bool-cases (leb n s.space)) [
  | inl a ↦ let f : some (record s { window = n }) ≡ some s' = rw a at e in cc
  | inr a ↦ let f : none ≡ some s' = rw a at e in absurd (cc)
]
window_opens decode n s s' e = elim (Bool-cases (leb n (length s.input))) [
  | inl a ↦ let f : some (record s { window = n }) ≡ some s' = rw a at e in cc
  | inr a ↦ let f : none ≡ some s' = rw a at e in absurd (cc)
]
window_opens free n s s' e = absurd (cc)

pub memory-XdrLaw : XdrLaw memory_xdr memory_observer
unfolding ixdr_put ixdr_get
memory-XdrLaw = record {
  number_writes = λ k v h. number-Put k v;
  number_reads = λ k old v h. number-Got k old v h;
  bytes_writes = λ b max h k. bytes-Put b max;
  bytes_reads = λ old b max h k. bytes-Got old b max (omega arith);
  string_writes = λ b max n h k. bytes-Put b max;
  string_reads = λ old b max n h k. bytes-Got old b max (omega arith);
  inline_opens = λ n s s' e.
      let same = window_opens s.direction n s s' e in rw same (refl, refl, refl, refl, refl);
  put_writes = λ p v h. put-Put p v;
  get_reads = λ p v h. get-Got p v h;
}
