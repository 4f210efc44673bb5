-- ===== src/Json/Laws.antt =====
-- Reading integers and arrays (src/qjsonsafe.cpp).
use mtb_daemon.Base.{
  ℕ, suc, ◌≡◌, refl, ap, none, some, List, [], ◌∷◌, map, length, ◌==◌, if◌then◌else◌, arith,
}
use mtb_daemon.Json.{
  Json, undefined, null, bool, number, negative, fraction, string, array, object, to_int, entries,
  to_array,
}
use mtb_daemon.Json.Safe.{safe_uint}

-- A value that toInt(-1) reads as a number that is not negative is one that safeUInt accepts.
pub safe_uint-to_int : (v : Json) → safe_uint v ≡ to_int none v
unfolding safe_uint
safe_uint-to_int undefined = refl
safe_uint-to_int null = refl
safe_uint-to_int (bool b) = refl
safe_uint-to_int (number n) = refl
safe_uint-to_int (negative n) = refl
safe_uint-to_int (fraction n) = refl
safe_uint-to_int (string s) = refl
safe_uint-to_int (array vs) = refl
safe_uint-to_int (object fs) = refl

entries-to_array : (vs : List Json) → entries (to_array vs) ≡ vs
entries-to_array [] = refl
entries-to_array (v ∷ vs) = ap (◌∷◌ v) (entries-to_array vs)

pub length-map : {A : Type 0} (f : A → Json) (xs : List A) → length (map f xs) ≡ length xs
length-map f [] = refl
length-map f (x ∷ xs) = ap suc (length-map f xs)

-- An array of the right size is read as the values that it was made of.
pub array_back :
    (n : ℕ) (vs : List Json)
    → length vs ≡ n
    → (if length (entries (to_array vs)) == n then some (entries (to_array vs)) else none) ≡ some vs
array_back n vs h = rw (entries-to_array vs, h) (ground arith)
