-- ===== src/Uni/Outputs.antt =====
-- src/modules/uni.cpp: the values of outputs, in JSON (jsonOutputToByte, the table of flicker
-- frequencies, outputsToJson) and on the bus (mtbBusOutputsData, moduleOutputsData).
pub mod Laws
use mtb_daemon.Base.{
  ℕ, zero, suc, ◌+◌, ◌*◌, ◌/◌, ◌%◌, Bool, true, false, Option, none, some, List, [], ◌∷◌, ◌++◌, leb,
  ltb, ◌==◌, if◌then◌else◌, take, drop, length, word, map,
}
use mtb_daemon.Uni.{uni_io_cnt}

-- The "type" of an output in JSON.
pub data OutputType : Type 0 where
  plain : OutputType
  s_com : OutputType
  flicker : OutputType
  unknown : OutputType

unfoldable pub flick_per_min_to_mtb_uni_value : ℕ → ℕ
flick_per_min_to_mtb_uni_value n =
    if n == 60
    then 1
    else if n == 120
    then 2
    else if n == 180
    then 3
    else if n == 240
    then 4
    else if n == 300
    then 5
    else if n == 600
    then 6
    else if n == 33
    then 7
    else if n == 66
    then 8
    else 0

unfoldable pub flick_mtb_uni_to_per_min : ℕ → ℕ
flick_mtb_uni_to_per_min code =
    if code == 1
    then 60
    else if code == 2
    then 120
    else if code == 3
    then 180
    else if code == 4
    then 240
    else if code == 5
    then 300
    else if code == 6
    then 600
    else if code == 7
    then 33
    else if code == 8
    then 66
    else 0

-- `value | 0x40` of a code below 9, `value | 0x80` of a value up to 127; `none` is a JsonParseError.
unfoldable pub json_output_to_byte : OutputType → ℕ → Option ℕ
unfolding flick_per_min_to_mtb_uni_value
json_output_to_byte plain value = if value == 0 then some 0 else if value == 1 then some 1 else none
json_output_to_byte s_com value = if leb value 127 then some (value + 0x80) else none
json_output_to_byte flicker value =
    if flick_per_min_to_mtb_uni_value value == 0
    then none
    else some (flick_per_min_to_mtb_uni_value value + 0x40)
json_output_to_byte unknown value = none

-- One output of `outputsToJson`, for a byte.
unfoldable pub output_to_json : ℕ → OutputType × ℕ
unfolding flick_mtb_uni_to_per_min
output_to_json output =
    if output / 128 % 2 == 1
    then (s_com, output % 128)
    else if output / 64 % 2 == 1
    then (flicker, flick_mtb_uni_to_per_min (output % 16))
    else (plain, output % 2)

-- `(outputs[i] & 0xC0) > 0`, for a byte.
unfoldable pub is_not_plain : ℕ → Bool
is_not_plain output = leb 64 output

-- The bit that an output sets in data[0..1], and the one in data[2..3].
unfoldable pub mask_bit : ℕ → ℕ
unfolding is_not_plain
mask_bit output = if is_not_plain output then 1 else 0

unfoldable pub plain_bit : ℕ → ℕ
unfolding is_not_plain
plain_bit output = if is_not_plain output then 0 else if leb 1 output then 1 else 0

-- The bits of outputs, the first output lowest.
unfoldable pub bits : (ℕ → ℕ) → List ℕ → ℕ
bits f [] = 0
bits f (o ∷ os) = f o + 2 * bits f os

-- The bytes appended for the outputs that are not plain.
unfoldable pub not_plain : List ℕ → List ℕ
unfolding is_not_plain
not_plain [] = []
not_plain (o ∷ os) = if is_not_plain o then o ∷ not_plain os else not_plain os

unfoldable pub mtb_bus_outputs_data : List ℕ → List ℕ
unfolding bits mask_bit plain_bit not_plain
mtb_bus_outputs_data os =
    bits mask_bit (drop 8 os)
    ∷ bits mask_bit (take 8 os)
    ∷ bits plain_bit (drop 8 os)
    ∷ bits plain_bit (take 8 os)
    ∷ not_plain os

-- The loop of moduleOutputsData: `rest` is the data from index j on. An entry that the loop leaves
-- uninitialised is `none`.
unfoldable pub read_outputs : ℕ → ℕ → ℕ → List ℕ → List (Option ℕ)
read_outputs zero mask full rest = []
read_outputs (suc n) mask full [] =
    (if mask % 2 == 0 then some (full % 2) else none) ∷ read_outputs n (mask / 2) (full / 2) []
read_outputs (suc n) mask full (b ∷ rest) =
    let plain_one = read_outputs n (mask / 2) (full / 2) (b ∷ rest) in
    let other = read_outputs n (mask / 2) (full / 2) rest in
    if mask % 2 == 0 then some (full % 2) ∷ plain_one else some b ∷ other

unfoldable pub module_outputs_data : List ℕ → List (Option ℕ)
unfolding read_outputs
module_outputs_data (a ∷ b ∷ c ∷ d ∷ rest) = read_outputs uni_io_cnt (word a b) (word c d) rest
module_outputs_data _ =
    none ∷ none ∷ none ∷ none ∷ none ∷ none ∷ none ∷ none ∷ none ∷ none ∷ none ∷ none ∷ none ∷ none
    ∷ none ∷ none ∷ []
