-- ===== src/Json.antt =====
-- JSON values as the daemon reads them (QJsonValue, QJsonObject, QJsonArray of Qt, by their
-- documented behaviour). An object is the list of its fields, of which the first with a key counts.
pub mod Safe
pub mod Laws
use Prim.Native.String.{String}
use text.Mathlib.Text.{◌==◌}
use mtb_daemon.Base.{
  ℕ, suc, ◌-◌, ◌^◌, Bool, true, false, Option, none, some, List, [], ◌∷◌, ltb, if◌then◌else◌,
}

-- A number of JSON is a double: `number n` and `negative n` are the whole ones, n and -(n + 1),
-- `fraction` is any other. `undefined` is what a missing key reads as.
mutual
  pub data Json : Type 0 where
    undefined : Json
    null : Json
    bool : Bool → Json
    number : ℕ → Json
    negative : ℕ → Json
    fraction : ℕ → Json
    string : String → Json
    array : Items → Json
    object : Fields → Json

  pub data Items : Type 0 where
    nil : Items
    cons : Json → Items → Items

  pub data Fields : Type 0 where
    end : Fields
    field : String → Json → Fields → Fields

-- request[key] and request.contains(key).
abbrev pub get : Fields → String → Json
get end k = undefined
get (field j v fs) k = if j == k then v else get fs k

abbrev pub contains : Fields → String → Bool
contains end k = false
contains (field j v fs) k = if j == k then true else contains fs k

-- The entries of an array.
abbrev pub entries : Items → List Json
entries nil = []
entries (cons v vs) = v ∷ entries vs

abbrev pub to_array : List Json → Items
to_array [] = nil
to_array (v ∷ vs) = cons v (to_array vs)

-- toInt(d), where d is negative or 0: a whole number that an int holds. `none` is a negative result;
-- the first argument is the result for other values.
abbrev pub to_int : Option ℕ → Json → Option ℕ
to_int d (number n) = if ltb n (2 ^ 31) then some n else d
to_int d (negative n) = if ltb n (2 ^ 31) then none else d
to_int d _ = d

-- size_t x = value.toInt(): a negative number is one near 2^64.
abbrev pub to_size : Json → ℕ
to_size (number n) = if ltb n (2 ^ 31) then n else 0
to_size (negative n) = if ltb n (2 ^ 31) then 2 ^ 64 - suc n else 0
to_size _ = 0

-- static_cast<int>(value.toInt()), put into JSON again.
abbrev pub as_int : Json → Json
as_int (number n) = if ltb n (2 ^ 31) then number n else number 0
as_int (negative n) = if ltb n (2 ^ 31) then negative n else number 0
as_int _ = number 0

abbrev pub to_bool : Json → Bool
to_bool (bool b) = b
to_bool _ = false

-- toObject(), toString() and remove(key).
abbrev pub to_object : Json → Fields
to_object (object fs) = fs
to_object _ = end

abbrev pub to_string : Json → String
to_string (string s) = s
to_string _ = ""

abbrev pub remove : Fields → String → Fields
remove end k = end
remove (field j v fs) k = let rest = remove fs k in if j == k then rest else field j v rest
