-- ===== src/Led.antt =====
-- src/modules/led.h, led.cpp: the configuration and the outputs of a LED module, on the bus and in
-- JSON.
pub mod Laws
pub mod Kind
pub mod Form
pub mod Handlers
use Prim.Native.String.{String}
use mtb_daemon.Base.{
  ℕ, zero, suc, ◌+◌, ◌*◌, ◌/◌, ◌%◌, Bool, true, false, Option, none, some, List, [], ◌∷◌, ◌++◌, map,
  leb, ltb, ◌==◌, if◌then◌else◌, take, drop, length, replicate,
}
use mtb_daemon.Json.{Json, bool, number, array, Fields, end, field, to_array}
use mtb_daemon.Json.Safe.{safe_array_of_size_at, safe_bool, safe_uint}

abbrev pub led_io_cnt : ℕ
led_io_cnt = 32

-- MtbLedConfig.
pub record LedConfig : Type 0 where
  pub outputs_safe : List Bool
  pub brightness : List ℕ

abbrev pub bit_of : Bool → ℕ
bit_of true = 1
bit_of false = 0

-- A byte of eight inputs or outputs, the first one lowest.
unfoldable pub byte_of : List Bool → ℕ
byte_of [] = 0
byte_of (b ∷ bs) = bit_of b + 2 * byte_of bs

unfoldable pub io_to_mtb : List Bool → List ℕ
io_to_mtb io =
    byte_of (take 8 io)
    ∷ byte_of (take 8 (drop 8 io))
    ∷ byte_of (take 8 (drop 8 (drop 8 io)))
    ∷ byte_of (drop 8 (drop 8 (drop 8 io)))
    ∷ []

-- The lowest `n` bits of a byte.
unfoldable pub bits_of : ℕ → ℕ → List Bool
bits_of zero byte = []
bits_of (suc n) byte = (byte % 2 == 1) ∷ bits_of n (byte / 2)

unfoldable pub mtb_data_to_io : List ℕ → List Bool
mtb_data_to_io (a ∷ b ∷ c ∷ d ∷ rest) = bits_of 8 a ++ (bits_of 8 b ++ (bits_of 8 c ++ bits_of 8 d))
mtb_data_to_io _ = replicate led_io_cnt false

unfoldable pub led_serialize : LedConfig → List ℕ
led_serialize c = io_to_mtb c.outputs_safe ++ c.brightness

unfoldable pub led_from_mtb_usb : List ℕ → LedConfig → LedConfig
led_from_mtb_usb bytes c =
    if ltb (length bytes) (led_io_cnt + 4)
    then c
    else record { outputs_safe = mtb_data_to_io bytes; brightness = take led_io_cnt (drop 4 bytes) }

unfoldable pub led_json : LedConfig → Fields
led_json c =
    field "outputsSafe" (array (to_array (map bool c.outputs_safe)))
      (field "brightness" (array (to_array (map number c.brightness))) end)

-- The loops of fromJson; `none` is an exception.
unfoldable pub read_bools : List Json → Option (List Bool)
read_bools [] = some []
read_bools (v ∷ vs) =
    let rest = read_bools vs in
    elim (safe_bool v) [
      | none ↦ none
      | some b ↦ elim rest [ none ↦ none | some bs ↦ some (b ∷ bs) ]
    ]

unfoldable pub read_bytes : List Json → Option (List ℕ)
read_bytes [] = some []
read_bytes (v ∷ vs) =
    let rest = read_bytes vs in
    elim (safe_uint v) [
      | none ↦ none
      | some n ↦ elim rest [ none ↦ none | some ns ↦ some (n % 256 ∷ ns) ]
    ]

unfoldable pub read_array : {A : Type 0} → (List Json → Option A) → Option (List Json) → Option A
read_array read none = none
read_array read (some vs) = read vs

unfoldable pub config_of : Option (List Bool) → Option (List ℕ) → Option LedConfig
config_of none brightness = none
config_of (some outputs) none = none
config_of (some outputs) (some brightness) =
    some (record { outputs_safe = outputs; brightness = brightness })

-- The constructor MtbLedConfig(const QJsonObject&).
unfoldable pub led_from_json : Fields → Option LedConfig
led_from_json fields =
    config_of (read_array read_bools (safe_array_of_size_at fields "outputsSafe" led_io_cnt))
      (read_array read_bytes (safe_array_of_size_at fields "brightness" led_io_cnt))
