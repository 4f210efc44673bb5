-- ===== src/Led/Form.antt =====
-- src/modules/led.cpp: the JSON forms of the outputs, the inputs, the diagnostic values and the state of
-- a LED module.
use Prim.Native.String.{String}
use mtb_daemon.Base.{
  ℕ, ◌+◌, ◌*◌, Bool, false, Option, none, some, List, map, bit, get_or, ltb, length, ◌==◌,
  if◌then◌else◌,
}
use mtb_daemon.Firmware.{Firmware}
use mtb_daemon.Json.{bool, number, array, object, Fields, end, field, to_array}
use mtb_daemon.Json.Safe.{safe_bool}
use mtb_daemon.Module.Io.{IoForm}
use mtb_daemon.Module.Values.{as_signed, dv_repr, dv_errors, dv_warnings}
use mtb_daemon.Led.{byte_of, led_json, led_from_json}
use mtb_daemon.Led.Kind.{led_kind}

-- ioStateToJson: `packed` is a uint32_t that is cast to int.
unfoldable pub io_state_to_json : List Bool → Fields
io_state_to_json io =
    field "full" (array (to_array (map bool io))) (field "packed" (as_signed 32 (byte_of io)) end)

-- Outputs are told of an active module only, whose outputs are all written.
abbrev written_or_off : Option Bool → Bool
written_or_off none = false
written_or_off (some b) = b

unfoldable pub led_state_json : List (Option Bool) → List Bool → Fields
led_state_json outputs inputs =
    field "outputs" (object (io_state_to_json (map written_or_off outputs)))
      (field "inputs" (object (io_state_to_json inputs)) end)

abbrev at : List ℕ → ℕ → ℕ
at bytes i = get_or bytes i 0

-- DVCommon::MCUTemperature.
abbrev pub dv_mcu_temperature : ℕ
dv_mcu_temperature = 13

-- MtbLed::dvRepr; `show` and `beyond` as in MtbModule::dvRepr.
unfoldable pub led_dv_repr : (ℕ → String) → ℕ → ℕ → List ℕ → Fields
led_dv_repr show beyond dv bytes =
    if dv == dv_errors
    then (if ltb (length bytes) 1
        then end
        else field "mcutemp_critical" (bool (bit (at bytes 0) 2)) end)
    else if dv == dv_warnings
    then (if ltb (length bytes) 2
        then end
        else field "extrf" (bool (bit (at bytes 0) 0)) (
            field "borf" (bool (bit (at bytes 0) 1)) (
              field "wdrf" (bool (bit (at bytes 0) 2)) (
                field "timer_miss" (bool (bit (at bytes 0) 4)) (
                  field "tlc_tef" (bool (bit (at bytes 1) 0)) (
                    field "tlc_lod" (bool (bit (at bytes 1) 1)) (
                      field "ts_offset_uncalibrated" (bool (bit (at bytes 1) 2))
                        (field "mcutemp_high" (bool (bit (at bytes 1) 3)) end))))))))
    else if dv == dv_mcu_temperature
    then (if ltb (length bytes) 6
        then end
        else field "mcu_temp_celsius" (number (at bytes 3 * 256 + at bytes 2)) (
            field "mcu_temp_raw" (number (at bytes 1 * 256 + at bytes 0))
              (field "ts_offset" (as_signed 16 (at bytes 5 * 256 + at bytes 4)) end)))
    else dv_repr show beyond dv bytes

-- The rest is given: what is Qt's, the reading of firmware, and the byte behind the data of `pack`.
abbrev pub led_form :
    (String → Option ℕ) → (ℕ → String) → (Fields → Option Firmware) → ℕ → IoForm led_kind
led_form to_int show firmware_of beyond = record {
  to_int = to_int;
  show = show;
  content_of = safe_bool;
  config_of = led_from_json;
  firmware_of = firmware_of;
  config_json = λ kind file c. led_json c;
  head_json = λ kind rest. rest;
  state_json = led_state_json;
  deprecated = λ kind info. false;
  dv_form = λ s dv bytes. led_dv_repr show beyond dv bytes;
}
