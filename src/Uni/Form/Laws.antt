-- ===== src/Uni/Form/Laws.antt =====
-- Reading back a configuration of a universal module from its JSON (MtbUniConfig::json and fromJson of
-- src/modules/uni.cpp).
use native.Mathlib.Numerals.{unary_clauses}
use mtb_daemon.Base.{
  ℕ, zero, suc, ◌*◌, ◌/◌, ◌%◌, ◌^◌, ◌<◌, ◌≤◌, ◌≡◌, refl, ap, ◌∙◌, Bool, true, false, Option, some,
  List, [], ◌∷◌, map, ltb, ◌==◌, length, All, arith,
}
use mtb_daemon.Json.{Json, bool, number, string}
use mtb_daemon.Json.Laws.{array_back, length-map}
use mtb_daemon.Json.Safe.{safe_object, safe_uint, safe_uint_at, safe_array_of_size_at}
use mtb_daemon.Led.{read_array, bits_of, byte_of, bit_of}
use mtb_daemon.Led.Laws.{read_bools-map}
use mtb_daemon.Uni.{UniConfig}
use mtb_daemon.Uni.Outputs.{
  OutputType, plain, s_com, flicker, unknown, json_output_to_byte, flick_per_min_to_mtb_uni_value,
}
use mtb_daemon.Uni.Outputs.Laws.{output_to_json-json_output_to_byte}
use mtb_daemon.Uni.Form.{
  type_text, json_type, output_fields, output_content, output_object, read_safe_outputs, delay_of,
  read_delays, read_irs, uni_from_json, uni_json,
}

-- An output that jsonOutputToByte can give.
abbrev pub IsOutput : ℕ → Type 0
IsOutput o = (kind : OutputType) × (value : ℕ) × (json_output_to_byte kind value ≡ some o)

-- Its value is small.
value_small :
    (kind : OutputType) (value byte : ℕ) → json_output_to_byte kind value ≡ some byte → value < 1000
unfolding json_output_to_byte flick_per_min_to_mtb_uni_value
value_small plain value byte h = ground arith
value_small s_com value byte h = ground arith
value_small flicker value byte h = ground arith
value_small unknown value byte h = absurd (cc)

safe_uint_small : (n : ℕ) → n < 1000 → safe_uint (number n) ≡ some n
unfolding safe_uint
safe_uint_small n h = let inside : ltb n (2 ^ 31) ≡ true = ground arith in rw inside refl

type_back : (kind : OutputType) → json_type (string (type_text kind)) ≡ kind
type_back plain = refl
type_back s_com = refl
type_back flicker = refl
type_back unknown = refl

output_content-object :
    (kind : OutputType) (value o : ℕ)
    → json_output_to_byte kind value ≡ some o
    → output_content (output_object o) ≡ some (kind, value)
unfolding output_content output_object output_fields safe_object safe_uint_at
output_content-object kind value o h =
    let told = (output_to_json-json_output_to_byte kind value o h).0 in
    rw (told, output_fields, safe_uint_at, safe_uint_small value (value_small kind value o h))
      (rw told (ap (λ t. some (t, value)) (type_back kind)))

pub read_safe_outputs-map :
    (os : List ℕ) → All IsOutput os → read_safe_outputs (map output_object os) ≡ some os
unfolding read_safe_outputs
read_safe_outputs-map [] h = refl
read_safe_outputs-map (o ∷ os) h =
    let (kind, value, e) = h.0 in
    rw (read_safe_outputs, output_content-object kind value o e, e, read_safe_outputs-map os h.1)
      refl

-- ten times the tenth of a delay is the delay.
abbrev pub AreTenths : (ℕ → Option ℕ) → (ℕ → Json) → Type 0
AreTenths tenths tenth = (d : ℕ) → d ≤ 15 → delay_of tenths (tenth d) ≡ some d

pub read_delays-map :
    (tenths : ℕ → Option ℕ) (tenth : ℕ → Json) (ds : List ℕ)
    → AreTenths tenths tenth
    → All (λ d. d ≤ 15) ds
    → read_delays tenths (map tenth ds) ≡ some ds
unfolding read_delays
read_delays-map tenths tenth [] t h = refl
read_delays-map tenths tenth (d ∷ ds) t h =
    rw (read_delays, t d h.0, read_delays-map tenths tenth ds t h.1) refl

byte_of-bits_of : (n x : ℕ) → x < 2 ^ n → byte_of (bits_of n x) ≡ x
unfolding byte_of bits_of
byte_of-bits_of zero x h = omega (arith, h)
byte_of-bits_of (suc n) x h =
    let power : 2 ^ suc n ≡ 2 * 2 ^ n = simp unary_clauses (omega arith) in
    let half : x / 2 < 2 ^ n = omega (arith, h, power) in
    let rest = byte_of-bits_of n (x / 2) half in
    let low : bit_of (x % 2 == 1) ≡ x % 2 = ground arith in rw (low, rest) (omega arith)

length-bits_of : (n x : ℕ) → length (bits_of n x) ≡ n
unfolding bits_of
length-bits_of zero x = refl
length-bits_of (suc n) x = ap suc (length-bits_of n (x / 2))

-- What the program keeps of a universal module: 16 outputs that are accepted, 16 delays up to 1.5 s,
-- and 16 bits of IR inputs, which are 0 if the module has none.
pub record IsUniJson (with_irs : Bool) (c : UniConfig) : Type 0 where
  pub outputs : length c.outputs_safe ≡ 16
  pub accepted : All IsOutput c.outputs_safe
  pub delays : length c.inputs_delay ≡ 16
  pub delays_bound : All (λ d. d ≤ 15) c.inputs_delay
  pub irs_bound : c.irs < 65536
  pub without_irs : with_irs ≡ false → c.irs ≡ 0

-- A configuration that is written to the file is read back from its JSON as it was.
pub uni_from_json-uni_json :
    (tenths : ℕ → Option ℕ) (tenth : ℕ → Json) (with_irs : Bool) (c : UniConfig)
    → AreTenths tenths tenth
    → IsUniJson with_irs c
    → uni_from_json tenths (uni_json tenth with_irs true c) ≡ some c
unfolding uni_from_json uni_json safe_array_of_size_at read_array read_irs
uni_from_json-uni_json tenths tenth true c t h =
    rw
      (
        array_back 16 (map output_object c.outputs_safe)
            (length-map output_object c.outputs_safe ∙ h.outputs),
        array_back 16 (map tenth c.inputs_delay) (length-map tenth c.inputs_delay ∙ h.delays),
        array_back 16 (map bool (bits_of 16 c.irs))
            (length-map bool (bits_of 16 c.irs) ∙ length-bits_of 16 c.irs),
        read_safe_outputs-map c.outputs_safe h.accepted,
        read_delays-map tenths tenth c.inputs_delay t h.delays_bound,
        read_bools-map (bits_of 16 c.irs),
        byte_of-bits_of 16 c.irs h.irs_bound,
      )
      refl
uni_from_json-uni_json tenths tenth false c t h =
    rw
      (
        array_back 16 (map output_object c.outputs_safe)
            (length-map output_object c.outputs_safe ∙ h.outputs),
        array_back 16 (map tenth c.inputs_delay) (length-map tenth c.inputs_delay ∙ h.delays),
        read_safe_outputs-map c.outputs_safe h.accepted,
        read_delays-map tenths tenth c.inputs_delay t h.delays_bound,
        h.without_irs refl,
      )
      refl
