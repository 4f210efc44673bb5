-- ===== src/Led/Laws.antt =====
-- Reading back the configuration of a LED module (src/modules/led.cpp).
use mtb_daemon.Base.{
  ℕ, zero, suc, ◌+◌, ◌*◌, ◌/◌, ◌%◌, ◌^◌, ◌<◌, ◌≤◌, ◌≡◌, refl, sym, ap, ◌∙◌, Bool, true, false, some,
  List, [], ◌∷◌, ◌++◌, map, ltb, take, drop, length, All, IsByte, arith,
}
use mtb_daemon.Json.{bool, number}
use mtb_daemon.Json.Laws.{array_back, length-map}
use mtb_daemon.Json.Safe.{safe_array_of_size_at, safe_bool, safe_uint}
use mtb_daemon.Led.{
  LedConfig, byte_of, io_to_mtb, bits_of, mtb_data_to_io, led_serialize, led_from_mtb_usb, led_json,
  read_bools, read_bytes, read_array, config_of, led_from_json,
}

bits_of-byte_of : (io : List Bool) → bits_of (length io) (byte_of io) ≡ io
unfolding bits_of byte_of
bits_of-byte_of [] = refl
bits_of-byte_of (true ∷ io) =
    let low : (1 + 2 * byte_of io) % 2 ≡ 1 = omega arith in
    let high : (1 + 2 * byte_of io) / 2 ≡ byte_of io = omega arith in
    rw (low, high) (ap (◌∷◌ true) (bits_of-byte_of io))
bits_of-byte_of (false ∷ io) =
    let low : (0 + 2 * byte_of io) % 2 ≡ 0 = omega arith in
    let high : (0 + 2 * byte_of io) / 2 ≡ byte_of io = omega arith in
    rw (low, high) (ap (◌∷◌ false) (bits_of-byte_of io))

length-take : (n : ℕ) (io : List Bool) → n ≤ length io → length (take n io) ≡ n
length-take zero io h = refl
length-take (suc n) [] h = absurd (omega arith)
length-take (suc n) (b ∷ io) h = ap suc (length-take n io (omega arith))

length-drop : (n : ℕ) (io : List Bool) → n ≤ length io → n + length (drop n io) ≡ length io
length-drop zero io h = omega arith
length-drop (suc n) [] h = absurd (omega arith)
length-drop (suc n) (b ∷ io) h = omega (arith, length-drop n io (omega arith))

take-drop : (n : ℕ) (io : List Bool) → take n io ++ drop n io ≡ io
take-drop zero io = refl
take-drop (suc n) [] = refl
take-drop (suc n) (b ∷ io) = ap (◌∷◌ b) (take-drop n io)

byte_back : (t : List Bool) → length t ≡ 8 → bits_of 8 (byte_of t) ≡ t
byte_back t h = ap (λ n. bits_of n (byte_of t)) (sym h) ∙ bits_of-byte_of t

-- Inputs and outputs of 32 bits are read back from their four bytes, whatever follows these.
mtb_data_to_io-io_to_mtb :
    (io : List Bool) (rest : List ℕ) → length io ≡ 32 → mtb_data_to_io (io_to_mtb io ++ rest) ≡ io
unfolding mtb_data_to_io io_to_mtb
mtb_data_to_io-io_to_mtb io rest h =
    let one = drop 8 io in
    let two = drop 8 one in
    let three = drop 8 two in
    let one_length = length-drop 8 io (omega arith) in
    let two_length = length-drop 8 one (omega arith) in
    let three_length = length-drop 8 two (omega arith) in
    rw
      (
        byte_back (take 8 io) (length-take 8 io (omega arith)),
        byte_back (take 8 one) (length-take 8 one (omega arith)),
        byte_back (take 8 two) (length-take 8 two (omega arith)),
        byte_back three (omega arith),
      )
      (rw (take-drop 8 two, take-drop 8 one) (take-drop 8 io))

-- What the program keeps of a LED module: 32 outputs and 32 bytes of brightness.
pub record IsLedConfig (c : LedConfig) : Type 0 where
  pub outputs : length c.outputs_safe ≡ 32
  pub values : length c.brightness ≡ 32
  pub bytes : All IsByte c.brightness

length-led_serialize : (c : LedConfig) → length (led_serialize c) ≡ 4 + length c.brightness
unfolding led_serialize io_to_mtb
length-led_serialize c = omega arith

brightness_at : (io : List Bool) (values : List ℕ) → drop 4 (io_to_mtb io ++ values) ≡ values
unfolding io_to_mtb
brightness_at io values = refl

take_whole : (n : ℕ) (xs : List ℕ) → length xs ≡ n → take n xs ≡ xs
take_whole zero [] h = refl
take_whole zero (x ∷ xs) h = absurd (omega arith)
take_whole (suc n) [] h = absurd (omega arith)
take_whole (suc n) (x ∷ xs) h = ap (◌∷◌ x) (take_whole n xs (omega arith))

-- A configuration of 32 outputs and 32 bytes of brightness that is written to a module is read back
-- from it as it was, whatever was known before.
pub led_from_mtb_usb-led_serialize :
    (c old : LedConfig) → IsLedConfig c → led_from_mtb_usb (led_serialize c) old ≡ c
unfolding led_from_mtb_usb led_serialize
led_from_mtb_usb-led_serialize c old h =
    let total = length-led_serialize c in
    let values = h.values in
    let enough : ltb (length (io_to_mtb c.outputs_safe ++ c.brightness)) 36 ≡ false =
      ground (arith, total, values) in
    rw
      (
        enough,
        mtb_data_to_io-io_to_mtb c.outputs_safe c.brightness h.outputs,
        brightness_at c.outputs_safe c.brightness,
        take_whole 32 c.brightness h.values,
      )
      refl

pub read_bools-map : (bs : List Bool) → read_bools (map bool bs) ≡ some bs
unfolding read_bools safe_bool
read_bools-map [] = refl
read_bools-map (b ∷ bs) = rw (read_bools-map bs) refl

pub safe_uint-number : (n : ℕ) → n < 256 → safe_uint (number n) ≡ some n
unfolding safe_uint
safe_uint-number n h = let inside : ltb n (2 ^ 31) ≡ true = ground arith in rw inside refl

pub read_bytes-map : (ns : List ℕ) → All IsByte ns → read_bytes (map number ns) ≡ some ns
unfolding read_bytes
read_bytes-map [] h = refl
read_bytes-map (n ∷ ns) h =
    let byte : n % 256 ≡ n = omega (arith, h.0) in
    rw (read_bytes, safe_uint-number n h.0, read_bytes-map ns h.1, byte) refl

-- A configuration of 32 outputs and 32 bytes of brightness is read back from its JSON as it was.
pub led_from_json-led_json : (c : LedConfig) → IsLedConfig c → led_from_json (led_json c) ≡ some c
unfolding led_from_json led_json safe_array_of_size_at read_array config_of
led_from_json-led_json c h =
    rw
      (
        array_back 32 (map bool c.outputs_safe) (length-map bool c.outputs_safe ∙ h.outputs),
        array_back 32 (map number c.brightness) (length-map number c.brightness ∙ h.values),
        read_bools-map c.outputs_safe,
        read_bytes-map c.brightness h.bytes,
      )
      refl
