-- ===== src/Utils.antt =====
-- src/utils.h: numbers of 32 bits from bytes, and maps of names. `none` is an exception.
pub mod Inversion
use Prim.Native.String.{String}
use text.Mathlib.Text.{◌==◌ as str_eq}
use mtb_daemon.Base.{
  ℕ, ◌+◌, ◌*◌, ◌%◌, ◌^◌, ◌≡◌, Bool, true, false, Option, none, some, List, [], ◌∷◌, IsByte, ap,
  ◌==◌, if◌then◌else◌, arith,
}

-- One turn of the loops: `result <<= 8; result |= byte`, in 32 bits.
unfoldable pub push_byte : ℕ → ℕ → ℕ
push_byte result byte = result * 256 % 2 ^ 32 + byte

-- pack<uint32_t>: the loop begins at an index behind the bytes, where it reads `beyond`.
unfoldable pub pack : ℕ → List ℕ → Option ℕ
pack beyond (a ∷ b ∷ c ∷ d ∷ []) =
    some (push_byte (push_byte (push_byte (push_byte (push_byte 0 beyond) d) c) b) a)
pack beyond _ = none

-- pack_reverse<uint32_t>.
unfoldable pub pack_reverse : List ℕ → Option ℕ
pack_reverse (a ∷ b ∷ c ∷ d ∷ []) = some (push_byte (push_byte (push_byte (push_byte 0 a) b) c) d)
pack_reverse _ = none

-- A QMap of numbers and names: its entries. The first one with a key counts.
abbrev pub name_of : List (ℕ × String) → ℕ → Option String
name_of [] key = none
name_of ((k, name) ∷ rest) key = if k == key then some name else name_of rest key

abbrev pub number_of : List (String × ℕ) → String → Option ℕ
number_of [] name = none
number_of ((n, k) ∷ rest) name = if str_eq n name then some k else number_of rest name

abbrev pub has_number : List (String × ℕ) → String → Bool
has_number [] name = false
has_number ((n, k) ∷ rest) name = if str_eq n name then true else has_number rest name

-- The loop of invertQMap: `out` is outMap.
unfoldable pub invert_from : List (ℕ × String) → List (String × ℕ) → Option (List (String × ℕ))
invert_from [] out = some out
invert_from ((k, name) ∷ rest) out =
    if has_number out name then none else invert_from rest ((name, k) ∷ out)

unfoldable pub invert_qmap : List (ℕ × String) → Option (List (String × ℕ))
invert_qmap map = invert_from map []

-- A constant map: with an exception the program does not start.
unfoldable pub inverted : List (ℕ × String) → List (String × ℕ)
inverted map = elim (invert_qmap map) [ none ↦ [] | some out ↦ out ]

-- Four bytes are packed to the number whose lowest byte is the first one, or the last one in the
-- reverse order, whatever byte is read behind them.
pub pack_bytes :
    (beyond a b c d : ℕ)
    → IsByte beyond
    → IsByte a
    → IsByte b
    → IsByte c
    → IsByte d
    → (pack beyond (a ∷ b ∷ c ∷ d ∷ []) ≡ some (a + 256 * (b + 256 * (c + 256 * d))))
      × (pack_reverse (d ∷ c ∷ b ∷ a ∷ []) ≡ some (a + 256 * (b + 256 * (c + 256 * d))))
unfolding pack pack_reverse push_byte
pack_bytes beyond a b c d hx ha hb hc hd = (ap some (omega arith), ap some (omega arith))
