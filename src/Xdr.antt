-- ===== src/Xdr.antt =====
-- The XDR routines of the RPC library that src/vxi11core_xdr.c calls, as an interface over a stream
-- `S`, and the shape of the generated code: `none` is `return FALSE`, after which neither the
-- object nor the stream is used.
pub mod Rules
use liblxi.Base.{ℕ, Option, none, some, Bytes}

-- enum xdr_op
pub data Op : Type 0 where
  encode decode free : Op

-- The routines for numbers: xdr_int, xdr_u_int, xdr_bool, xdr_enum, xdr_u_short, xdr_char and
-- xdr_u_char.
pub data Kind : Type 0 where
  int u_int bool enum u_short char u_char : Kind

-- A signed number is given by its bit pattern of 32 (for a char 8) bits. `inline` is XDR_INLINE,
-- which opens a window of that many bytes or gives NULL; `put` and `get` are the IXDR macros for
-- the next four bytes of the window.
pub record Xdr (S : Type 0) : Type 0 where
  pub x_op : S → Op
  pub number : Kind → ℕ → S → Option (ℕ × S)
  pub string : Bytes → ℕ → S → Option (Bytes × S)
  pub bytes : Bytes → ℕ → S → Option (Bytes × S)
  pub inline : ℕ → S → Option S
  pub put : ℕ → S → S
  pub get : S → ℕ × S

abbrev pub M : Type 0 → Type 0 → Type 0
M S A = S → Option (A × S)

abbrev pub uint_max : ℕ
uint_max = 0xffff_ffff

module _ {S : Type 0} where
  infixl 5 ◌>>=◌
  unfoldable pub ◌>>=◌ : {A B : Type 0} → M S A → (A → M S B) → M S B
  ◌>>=◌ m f s = elim (m s) [ none ↦ none | some (a, s') ↦ f a s' ]

  unfoldable pub done : {A : Type 0} → A → M S A
  done a s = some (a, s)

  module _ (x : Xdr S) where
    -- The two `if`s on xdrs->x_op, and what follows them.
    unfoldable pub by_op : {A : Type 0} → M S A → M S A → M S A → M S A
    by_op encoding decoding freeing s = elim (x.x_op s) [
      | encode ↦ encoding s
      | decode ↦ decoding s
      | free ↦ freeing s
    ]

    -- `buf = XDR_INLINE (xdrs, n); if (buf == NULL) { … } else { … }`
    unfoldable pub if_inline : {A : Type 0} → ℕ → M S A → M S A → M S A
    if_inline n slow fast s = elim (x.inline n s) [ none ↦ slow s | some s' ↦ fast s' ]

    unfoldable pub ixdr_put : ℕ → M S ℕ
    ixdr_put v s = some (v, x.put v s)

    unfoldable pub ixdr_get : M S ℕ
    ixdr_get s = some (x.get s)
