-- ===== src/Base/Strings.antt =====
-- C strings: text in a buffer up to the first NUL, and the functions of <string.h> on it. Without
-- a NUL in its buffer, a string runs out of bounds.
use Prim.Native.Nat.{zero, suc, ◌+◌, ◌<◌, ◌≤◌}
use mathlib.Core.Path.{◌≡◌, refl}
use mathlib.Core.Bool.{Bool, true, false}
use mathlib.Core.Option.{Option, none, some}
use mathlib.Core.List.{[], ◌∷◌, ◌++◌, append_assoc}
use native.Mathlib.Omega.{arith}
use liblxi.Base.Tests.{◌==◌, if◌then◌else◌}
use liblxi.Base.Lists.{length, drop, length-append}
use liblxi.Base.Faults.{Run, ok, fault, bounds, ◌>>=◌}
use liblxi.Base.Memory.{Bytes, write_at, write_at-splice, splice-append}

unfoldable pub c_string : Bytes → Run Bytes
c_string [] = fault bounds
c_string (zero ∷ rest) = ok []
c_string (suc b ∷ rest) = do text ← c_string rest; ok (suc b ∷ text)

-- strcat(). `text` is a string's own bytes, without the NUL.
unfoldable pub strcat : Bytes → Bytes → Run Bytes
strcat buf text = do front ← c_string buf; write_at buf (length front) (text ++ (0 ∷ []))

-- strcmp() == 0
abbrev pub same_text : Bytes → Bytes → Bool
same_text [] [] = true
same_text [] (b ∷ bs) = false
same_text (a ∷ rest) [] = false
same_text (a ∷ rest) (b ∷ bs) = if a == b then same_text rest bs else false

abbrev pub starts_with : Bytes → Bytes → Bool
starts_with text [] = true
starts_with [] (b ∷ bs) = false
starts_with (a ∷ rest) (b ∷ bs) = if a == b then starts_with rest bs else false

-- strstr(): the text from the first place on at which `part` stands.
abbrev pub strstr : Bytes → Bytes → Option Bytes
strstr [] part = if starts_with [] part then some [] else none
strstr (a ∷ rest) part = if starts_with (a ∷ rest) part then some (a ∷ rest) else strstr rest part

-- No byte is NUL.
abbrev pub IsText : Bytes → Type 0
IsText [] = Unit {0}
IsText (b ∷ bs) = (0 < b) × IsText bs

pub append-IsText : (s t : Bytes) → IsText s → IsText t → IsText (s ++ t)
append-IsText [] t hs ht = ht
append-IsText (b ∷ s) t (h, hs) ht = (h, append-IsText s t hs ht)

pub c_string_lem : (t rest : Bytes) → IsText t → c_string (t ++ (0 ∷ rest)) ≡ ok t
unfolding c_string
c_string_lem [] rest h = refl
c_string_lem (zero ∷ t) rest (h, hs) = absurd (omega arith)
c_string_lem (suc b ∷ t) rest (h, hs) = rw (c_string_lem t rest hs) refl

-- strcat() on a buffer that has room for both texts and the NUL.
pub strcat_lem :
    (t rest s : Bytes)
    → IsText t
    → length s ≤ length rest
    → strcat (t ++ (0 ∷ rest)) s ≡ ok ((t ++ s) ++ (0 ∷ drop (length s) rest))
unfolding strcat
strcat_lem t rest s h fits =
    let size : length t + length (s ++ (0 ∷ [])) ≤ length (t ++ (0 ∷ rest)) =
      omega (arith, length-append s (0 ∷ []), length-append t (0 ∷ rest)) in
    let one_more : length (s ++ (0 ∷ [])) ≡ suc (length s) =
      omega (arith, length-append s (0 ∷ [])) in
    rw
      (
        c_string_lem t rest h,
        write_at-splice (t ++ (0 ∷ rest)) (length t) (s ++ (0 ∷ [])) size,
        splice-append t (0 ∷ rest) (s ++ (0 ∷ [])),
        one_more,
        append_assoc s (0 ∷ []) (drop (length s) rest),
        append_assoc t s (0 ∷ drop (length s) rest),
      )
      refl
