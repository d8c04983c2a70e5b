-- ===== src/Base/Memory.antt =====
-- Arrays of bytes that C code reads and writes by offset, with the accesses that leave the array.
use Prim.Native.Nat.{ℕ, suc, ◌+◌, ◌≤◌, ◌<◌}
use mathlib.Core.Path.{◌≡◌, refl, ap}
use mathlib.Core.List.{List, [], ◌∷◌, ◌++◌}
use native.Mathlib.Omega.{arith}
use liblxi.Base.Tests.{leb, if◌then◌else◌}
use liblxi.Base.Lists.{
  length, take, drop, length-append, length-take, length-drop, take-append-drop,
}
use liblxi.Base.Faults.{Run, ok, fault, bounds}

abbrev pub Bytes : Type 0
Bytes = List ℕ

-- The bytes of all pieces, in order.
abbrev pub flat : List Bytes → Bytes
flat [] = []
flat (c ∷ cs) = c ++ flat cs

-- `bytes` stored from `buf[off]` on.
abbrev pub splice : Bytes → ℕ → Bytes → Bytes
splice buf off bytes = take off buf ++ (bytes ++ drop (off + length bytes) buf)

-- memcpy(buf + off, bytes, n), where the array's size is the list's.
unfoldable pub write_at : Bytes → ℕ → Bytes → Run Bytes
write_at buf off bytes =
    if leb (off + length bytes) (length buf) then ok (splice buf off bytes) else fault bounds

-- The `n` bytes from `buf[off]` on.
unfoldable pub read_at : Bytes → ℕ → ℕ → Run Bytes
read_at buf off n = if leb (off + n) (length buf) then ok (take n (drop off buf)) else fault bounds

pub write_at-splice :
    (buf : Bytes) (off : ℕ) (bytes : Bytes)
    → off + length bytes ≤ length buf
    → write_at buf off bytes ≡ ok (splice buf off bytes)
unfolding write_at
write_at-splice buf off bytes h = ground arith

pub write_at_overrun :
    (buf : Bytes) (off : ℕ) (bytes : Bytes)
    → length buf < off + length bytes
    → write_at buf off bytes ≡ fault bounds
unfolding write_at
write_at_overrun buf off bytes h = ground arith

pub read_at_lem :
    (buf : Bytes) (off n : ℕ)
    → off + n ≤ length buf
    → read_at buf off n ≡ ok (take n (drop off buf))
unfolding read_at
read_at_lem buf off n h = ground arith

pub length-splice :
    (buf : Bytes) (off : ℕ) (bytes : Bytes)
    → off + length bytes ≤ length buf
    → length (splice buf off bytes) ≡ length buf
length-splice buf off bytes h =
    rw
      (
        length-append (take off buf) (bytes ++ drop (off + length bytes) buf),
        length-append bytes (drop (off + length bytes) buf),
        length-take off buf,
        length-drop (off + length bytes) buf,
      )
      (omega arith)

pub splice-nil : (buf : Bytes) (off : ℕ) → splice buf off [] ≡ buf
splice-nil buf off = let e : off + 0 ≡ off = omega arith in rw e (take-append-drop off buf)

-- The array that starts with `front` takes `bytes` right behind it.
pub splice-append :
    (front back bytes : Bytes)
    → splice (front ++ back) (length front) bytes ≡ front ++ (bytes ++ drop (length bytes) back)
splice-append [] back bytes = let e : 0 + length bytes ≡ length bytes = omega arith in rw e refl
splice-append (x ∷ front) back bytes =
    let e : suc (length front) + length bytes ≡ suc (length front + length bytes) = omega arith in
    rw e (ap (◌∷◌ x) (splice-append front back bytes))
