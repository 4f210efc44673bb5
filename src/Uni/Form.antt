-- ===== src/Uni/Form.antt =====
-- src/modules/uni.cpp: the JSON forms of the outputs, the inputs, the configuration and the state of a
-- universal module.
pub mod Laws
use Prim.Native.String.{String}
use text.Mathlib.Text.{◌==◌ as str_eq}
use mtb_daemon.Base.{
  ℕ, suc, ◌*◌, Bool, ◌&&◌, ◌||◌, Option, none, some, List, [], ◌∷◌, map, leb, ◌==◌, if◌then◌else◌,
}
use mtb_daemon.Cmd.Reply.{ModuleInfo, uint_fw_version}
use mtb_daemon.Firmware.{Firmware}
use mtb_daemon.Json.{
  Json, bool, number, fraction, string, array, object, Fields, end, field, get, contains, to_array,
}
use mtb_daemon.Json.Safe.{safe_object, safe_uint_at, safe_array_of_size_at}
use mtb_daemon.Led.{read_bools, read_array, bits_of, byte_of}
use mtb_daemon.Module.Io.{IoForm}
use mtb_daemon.Uni.{IoModule, UniConfig, uni_io_cnt, is_ir_support, is_univ2}
use mtb_daemon.Uni.Outputs.{
  OutputType, plain, s_com, flicker, unknown, json_output_to_byte, output_to_json,
}
use mtb_daemon.Uni.Kind.{uni_kind}

-- "type" and "value" of an output.
abbrev pub type_text : OutputType → String
type_text plain = "plain"
type_text s_com = "s-com"
type_text flicker = "flicker"
type_text unknown = ""

abbrev pub text_type : String → OutputType
text_type t =
    if str_eq t "plain"
    then plain
    else if str_eq t "s-com"
    then s_com
    else if str_eq t "flicker"
    then flicker
    else unknown

abbrev pub json_type : Json → OutputType
json_type (string t) = text_type t
json_type _ = unknown

-- What jsonOutputToByte reads of an object.
unfoldable pub output_fields : Fields → Option (OutputType × ℕ)
output_fields fs = elim (safe_uint_at fs "value") [
  | none ↦ none
  | some value ↦ some (json_type (get fs "type"), value)
]

unfoldable pub output_content : Json → Option (OutputType × ℕ)
output_content json = elim (safe_object json) [ none ↦ none | some fs ↦ output_fields fs ]

unfoldable pub output_object : ℕ → Json
output_object output =
    let told = output_to_json output in
    object (field "type" (string (type_text told.0)) (field "value" (number told.1) end))

-- outputsToJson; an output that was never written is left out.
unfoldable pub outputs_to_json : (ℕ → String) → ℕ → List (Option ℕ) → Fields
outputs_to_json show i [] = end
outputs_to_json show i (none ∷ os) = outputs_to_json show (suc i) os
outputs_to_json show i (some o ∷ os) =
    field (show i) (output_object o) (outputs_to_json show (suc i) os)

-- inputsToJson, of so many inputs; the packed ones are converted to int.
unfoldable pub inputs_to_json : ℕ → Json → ℕ → Json
inputs_to_json n packed inputs =
    object
      (field "full" (array (to_array (map bool (bits_of n inputs)))) (field "packed" packed end))

-- The loop over outputs of a configuration; `none` is an exception.
abbrev byte_of_json : Json → Option ℕ
byte_of_json json = elim (output_content json) [
  | none ↦ none
  | some (kind, value) ↦ json_output_to_byte kind value
]

unfoldable pub read_safe_outputs : List Json → Option (List ℕ)
read_safe_outputs [] = some []
read_safe_outputs (v ∷ vs) =
    let rest = read_safe_outputs vs in
    elim (byte_of_json v) [
      | none ↦ none
      | some o ↦ elim rest [ none ↦ none | some os ↦ some (o ∷ os) ]
    ]

-- int value = safeDouble(json)*10, from 0 to 15; `tenths` is ten times a fraction as an int (none: a
-- negative one).
unfoldable pub delay_of : (ℕ → Option ℕ) → Json → Option ℕ
delay_of tenths (number n) = if leb n 1 then some (n * 10) else none
delay_of tenths (fraction n) = elim (tenths n) [
  | none ↦ none
  | some d ↦ if leb d 15 then some d else none
]
delay_of tenths _ = none

unfoldable pub read_delays : (ℕ → Option ℕ) → List Json → Option (List ℕ)
read_delays tenths [] = some []
read_delays tenths (v ∷ vs) =
    let rest = read_delays tenths vs in
    elim (delay_of tenths v) [
      | none ↦ none
      | some d ↦ elim rest [ none ↦ none | some ds ↦ some (d ∷ ds) ]
    ]

-- "irs" does not have to be there.
unfoldable pub read_irs : Fields → Option ℕ
read_irs fs =
    if contains fs "irs"
    then elim (read_array read_bools (safe_array_of_size_at fs "irs" uni_io_cnt)) [
      | none ↦ none
      | some bs ↦ some (byte_of bs)
    ]
    else some 0

abbrev uni_config_of : Option (List ℕ) → Option (List ℕ) → Option ℕ → Option UniConfig
uni_config_of (some os) (some ds) (some irs) =
    some (record { outputs_safe = os; inputs_delay = ds; irs = irs })
uni_config_of _ _ _ = none

-- MtbUniConfig(const QJsonObject&).
unfoldable pub uni_from_json : (ℕ → Option ℕ) → Fields → Option UniConfig
uni_from_json tenths fs =
    uni_config_of (read_array read_safe_outputs (safe_array_of_size_at fs "outputsSafe" uni_io_cnt))
      (read_array (read_delays tenths) (safe_array_of_size_at fs "inputsDelay" uni_io_cnt))
      (read_irs fs)

-- MtbUniConfig::json; `tenth` is delay/10.0.
unfoldable pub uni_json : (ℕ → Json) → Bool → Bool → UniConfig → Fields
uni_json tenth with_irs file c =
    let packed = if file then end else field "irsPacked" (number c.irs) end in
    let irs =
      if with_irs
      then field "irs" (array (to_array (map bool (bits_of uni_io_cnt c.irs)))) packed
      else end in
    field "outputsSafe" (array (to_array (map output_object c.outputs_safe)))
      (field "inputsDelay" (array (to_array (map tenth c.inputs_delay))) irs)

-- isUniv4, UNIv2_FW_DEPRECATED, UNIv4_FW_DEPRECATED.
unfoldable pub is_univ4 : ℕ → Bool
is_univ4 kind = kind == 0x15 || kind == 0x16

unfoldable pub uni_deprecated : ℕ → ModuleInfo → Bool
uni_deprecated kind info =
    (is_univ4 kind && leb (uint_fw_version info) 0x0105)
    || (is_univ2 kind && leb (uint_fw_version info) 0x0104)

-- "state" of moduleInfo.
unfoldable pub uni_state_json : (ℕ → String) → List (Option ℕ) → ℕ → Fields
uni_state_json show outputs inputs = field "outputs" (object (outputs_to_json show 0 outputs)) (
    field "inputs" (inputs_to_json uni_io_cnt (number inputs) inputs)
      (field "inputsPacked" (number inputs) end))

-- The rest is given: what is Qt's, the reading of firmware, and dvRepr, which computes with floats.
abbrev pub uni_form :
    (String → Option ℕ)
    → (ℕ → String)
    → (ℕ → Option ℕ)
    → (ℕ → Json)
    → (Fields → Option Firmware)
    → (IoModule uni_kind → ℕ → List ℕ → Fields)
    → IoForm uni_kind
uni_form to_int show tenths tenth firmware_of repr = record {
  to_int = to_int;
  show = show;
  content_of = output_content;
  config_of = uni_from_json tenths;
  firmware_of = firmware_of;
  config_json = λ kind file c. uni_json tenth (is_ir_support kind) file c;
  head_json = λ kind rest. field "ir" (bool (is_ir_support kind)) rest;
  state_json = uni_state_json show;
  deprecated = uni_deprecated;
  dv_form = repr;
}
