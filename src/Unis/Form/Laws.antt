-- ===== src/Unis/Form/Laws.antt =====
-- Reading back a configuration of a universal module with servos from its JSON (MtbUnisConfig::json and
-- fromJson of src/modules/unis.cpp).
use mtb_daemon.Base.{ℕ, ◌%◌, ◌≤◌, ◌≡◌, refl, ◌∙◌, Option, some, map, length, All, IsByte, arith}
use mtb_daemon.Json.{Json, number}
use mtb_daemon.Json.Laws.{array_back, length-map}
use mtb_daemon.Json.Safe.{safe_uint_at, safe_array_of_size_at}
use mtb_daemon.Led.{read_array}
use mtb_daemon.Led.Laws.{read_bytes-map, safe_uint-number}
use mtb_daemon.Uni.Form.{output_object}
use mtb_daemon.Uni.Form.Laws.{IsOutput, AreTenths, read_safe_outputs-map, read_delays-map}
use mtb_daemon.Unis.{UnisConfig}
use mtb_daemon.Unis.Form.{unis_from_json, unis_json, read_input_map}

-- What the program keeps of a universal module with servos.
pub record IsUnisJson (c : UnisConfig) : Type 0 where
  pub outputs : length c.outputs_safe ≡ 28
  pub accepted : All IsOutput c.outputs_safe
  pub delays : length c.inputs_delay ≡ 16
  pub delays_bound : All (λ d. d ≤ 15) c.inputs_delay
  pub mask : IsByte c.servo_enabled_mask
  pub positions : length c.servo_position ≡ 12
  pub positions_bytes : All IsByte c.servo_position
  pub speeds : length c.servo_speed ≡ 6
  pub speeds_bytes : All IsByte c.servo_speed
  pub input_map : length c.servo_input_map ≡ 6
  pub input_map_bytes : All IsByte c.servo_input_map

-- A configuration that is written to the file is read back from its JSON as it was.
pub unis_from_json-unis_json :
    (tenths : ℕ → Option ℕ) (tenth : ℕ → Json) (c : UnisConfig)
    → AreTenths tenths tenth
    → IsUnisJson c
    → unis_from_json tenths (unis_json tenth c) ≡ some c
unfolding unis_from_json unis_json safe_array_of_size_at read_array read_input_map safe_uint_at
unis_from_json-unis_json tenths tenth c t h =
    let mask_byte : c.servo_enabled_mask % 256 ≡ c.servo_enabled_mask = omega (arith, h.mask) in
    rw
      (
        array_back 28 (map output_object c.outputs_safe)
            (length-map output_object c.outputs_safe ∙ h.outputs),
        array_back 16 (map tenth c.inputs_delay) (length-map tenth c.inputs_delay ∙ h.delays),
        array_back 12 (map number c.servo_position)
            (length-map number c.servo_position ∙ h.positions),
        array_back 6 (map number c.servo_speed) (length-map number c.servo_speed ∙ h.speeds),
        array_back 6 (map number c.servo_input_map)
            (length-map number c.servo_input_map ∙ h.input_map),
        read_safe_outputs-map c.outputs_safe h.accepted,
        read_delays-map tenths tenth c.inputs_delay t h.delays_bound,
        safe_uint-number c.servo_enabled_mask h.mask,
        read_bytes-map c.servo_position h.positions_bytes,
        read_bytes-map c.servo_speed h.speeds_bytes,
        read_bytes-map c.servo_input_map h.input_map_bytes,
        mask_byte,
      )
      refl
