-- ===== src/Json/Safe.antt =====
-- src/qjsonsafe.cpp: checked reading of JSON. `none` is the exception JsonParseError.
use Prim.Native.String.{String}
use mtb_daemon.Base.{ℕ, Bool, not, Option, none, some, List, length, ◌==◌, if◌then◌else◌}
use mtb_daemon.Json.{
  Json, bool, number, negative, fraction, string, array, object, Fields, get, contains, entries,
  to_int,
}

unfoldable pub safe_object : Json → Option Fields
safe_object (object fs) = some fs
safe_object _ = none

unfoldable pub safe_object_at : Fields → String → Option Fields
safe_object_at parent key = if not (contains parent key) then none else safe_object (get parent key)

abbrev pub array_of : Json → Option (List Json)
array_of (array vs) = some (entries vs)
array_of _ = none

abbrev of_size : ℕ → Option (List Json) → Option (List Json)
of_size size none = none
of_size size (some vs) = if length vs == size then some vs else none

unfoldable pub safe_array_of_size : Json → ℕ → Option (List Json)
safe_array_of_size json size = of_size size (array_of json)

unfoldable pub safe_array_at : Fields → String → Option (List Json)
safe_array_at parent key = if not (contains parent key) then none else array_of (get parent key)

unfoldable pub safe_array_of_size_at : Fields → String → ℕ → Option (List Json)
safe_array_of_size_at parent key size =
    if not (contains parent key) then none else of_size size (array_of (get parent key))

-- isDouble, then toInt(-1) that must not be negative.
unfoldable pub safe_uint : Json → Option ℕ
safe_uint (number n) = to_int none (number n)
safe_uint (negative n) = to_int none (negative n)
safe_uint (fraction n) = to_int none (fraction n)
safe_uint _ = none

unfoldable pub safe_uint_at : Fields → String → Option ℕ
safe_uint_at parent key = if not (contains parent key) then none else safe_uint (get parent key)

unfoldable pub safe_bool : Json → Option Bool
safe_bool (bool b) = some b
safe_bool _ = none

unfoldable pub safe_bool_at : Fields → String → Option Bool
safe_bool_at parent key = if not (contains parent key) then none else safe_bool (get parent key)

unfoldable pub safe_string : Json → Option String
safe_string (string s) = some s
safe_string _ = none

unfoldable pub safe_string_at : Fields → String → Option String
safe_string_at parent key = if not (contains parent key) then none else safe_string (get parent key)
