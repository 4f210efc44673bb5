-- ===== src/Unis/Form.antt =====
-- src/modules/unis.cpp: the JSON forms of the configuration and the state of a universal module with
-- servos. Outputs, inputs and delays have the forms of Uni/Form.
pub mod Laws
use Prim.Native.String.{String}
use mtb_daemon.Base.{ℕ, ◌%◌, Option, none, some, List, map, if◌then◌else◌}
use mtb_daemon.Firmware.{Firmware}
use mtb_daemon.Json.{Json, number, array, object, Fields, end, field, contains, to_array}
use mtb_daemon.Json.Safe.{safe_uint_at, safe_array_of_size_at}
use mtb_daemon.Led.{read_bytes, read_array}
use mtb_daemon.Module.Io.{IoForm}
use mtb_daemon.Module.Values.{as_signed}
use mtb_daemon.Uni.{IoModule}
use mtb_daemon.Uni.Form.{
  output_content, output_object, outputs_to_json, inputs_to_json, read_safe_outputs, read_delays,
}
use mtb_daemon.Unis.{UnisConfig, unis_out_cnt, unis_deprecated}
use mtb_daemon.Unis.Kind.{unis_kind, unis_default_config}

-- "servoInputMap" does not have to be there.
unfoldable pub read_input_map : Fields → Option (List ℕ)
read_input_map fs =
    if contains fs "servoInputMap"
    then read_array read_bytes (safe_array_of_size_at fs "servoInputMap" 6)
    else some unis_default_config.servo_input_map

abbrev servo_config_of :
    Option (List ℕ)
    → Option (List ℕ)
    → Option ℕ
    → Option (List ℕ)
    → Option (List ℕ)
    → Option (List ℕ)
    → Option UnisConfig
servo_config_of (some os) (some ds) (some mask) (some positions) (some speeds) (some input_map) =
    some (record {
      outputs_safe = os;
      inputs_delay = ds;
      servo_enabled_mask = mask % 256;
      servo_position = positions;
      servo_speed = speeds;
      servo_input_map = input_map;
    })
servo_config_of _ _ _ _ _ _ = none

-- MtbUnisConfig(const QJsonObject&).
unfoldable pub unis_from_json : (ℕ → Option ℕ) → Fields → Option UnisConfig
unis_from_json tenths fs =
    servo_config_of
      (read_array read_safe_outputs (safe_array_of_size_at fs "outputsSafe" unis_out_cnt))
      (read_array (read_delays tenths) (safe_array_of_size_at fs "inputsDelay" 16))
      (safe_uint_at fs "servoEnabledMask")
      (read_array read_bytes (safe_array_of_size_at fs "servoPosition" 12))
      (read_array read_bytes (safe_array_of_size_at fs "servoSpeed" 6)) (read_input_map fs)

abbrev numbers : List ℕ → Json
numbers ns = array (to_array (map number ns))

-- MtbUnisConfig::json; `tenth` is delay/10.0.
unfoldable pub unis_json : (ℕ → Json) → UnisConfig → Fields
unis_json tenth c = field "outputsSafe" (array (to_array (map output_object c.outputs_safe))) (
    field "inputsDelay" (array (to_array (map tenth c.inputs_delay))) (
      field "servoEnabledMask" (number c.servo_enabled_mask) (
        field "servoPosition" (numbers c.servo_position) (
          field "servoSpeed" (numbers c.servo_speed)
            (field "servoInputMap" (numbers c.servo_input_map) end)))))

-- "state" of moduleInfo: 28 inputs, in a uint32_t that is cast to int.
unfoldable pub unis_inputs_to_json : ℕ → Json
unis_inputs_to_json inputs = inputs_to_json unis_out_cnt (as_signed 32 inputs) inputs

unfoldable pub unis_state_json : (ℕ → String) → List (Option ℕ) → ℕ → Fields
unis_state_json show outputs inputs =
    field "outputs" (object (outputs_to_json show 0 outputs))
      (field "inputs" (unis_inputs_to_json inputs) (field "inputsPacked" (as_signed 32 inputs) end))

abbrev pub unis_form :
    (String → Option ℕ)
    → (ℕ → String)
    → (ℕ → Option ℕ)
    → (ℕ → Json)
    → (Fields → Option Firmware)
    → (IoModule unis_kind → ℕ → List ℕ → Fields)
    → IoForm unis_kind
unis_form to_int show tenths tenth firmware_of repr = record {
  to_int = to_int;
  show = show;
  content_of = output_content;
  config_of = unis_from_json tenths;
  firmware_of = firmware_of;
  config_json = λ kind file c. unis_json tenth c;
  head_json = λ kind rest. rest;
  state_json = unis_state_json show;
  deprecated = λ kind info. unis_deprecated info;
  dv_form = repr;
}
