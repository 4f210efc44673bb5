-- ===== src/Tests/Modules.antt =====
-- Concrete inputs for the theorems about src/modules, src/mtbusb/mtbusb-commands.h and
-- src/mtbusb/mtbusb-common.cpp.
use mtb_daemon.Base.{
  ◌==◌, ℕ, ◌+◌, ◌*◌, ◌/◌, ◌≤◌, ◌<◌, ◌≡◌, refl, Bool, true, false, none, some, List, [], ◌∷◌, map,
  take, drop, replicate, arith,
}
use mtb_daemon.Cmd.{module_set_output, get_bytes, forward}
use mtb_daemon.Cmd.Reply.{in_bootloader}
use mtb_daemon.Cmd.Laws.{get_bytes-forward}
use mtb_daemon.Firmware.{Firmware, parse_firmware, align_firmware, find}
use mtb_daemon.Firmware.Bytes.{IsFirmware, image, written, image-parse_firmware}
use mtb_daemon.Firmware.Pages.{IsPresent, image-align_firmware, align_firmware-IsPresent}
use mtb_daemon.Uni.{UniConfig, ServerRequest, for_upgrade, refused, effect}
use mtb_daemon.Uni.Kind.{Uni, uni_kind}
use mtb_daemon.Uni.Error
use mtb_daemon.Uni.Config.{serialize_for_mtb_usb, from_mtb_usb, unpack_delays}
use mtb_daemon.Uni.Config.Laws.{IsUniConfig, from_mtb_usb-serialize_for_mtb_usb}
use mtb_daemon.Uni.Outputs.{
  plain, flicker, json_output_to_byte, output_to_json, mtb_bus_outputs_data, module_outputs_data,
  flick_per_min_to_mtb_uni_value,
}
use mtb_daemon.Uni.Outputs.Laws.{
  as_set, module_outputs_data-mtb_bus_outputs_data, output_to_json-json_output_to_byte,
}
use mtb_daemon.Uni.Upgrade.Laws.{rounds, flash_writes, in_order, ready, flash_writes-rounds}
use mtb_daemon.Uni.Setting.{
  Entry, validate, port_of, port_value, store_ports, same_outputs, json_set_output, json_upgrade_fw,
}
use mtb_daemon.Uni.Setting.Laws.{Accepts, json_upgrade_fw_locks}
use mtb_daemon.Uni.Setting.Answers.{
  Step, asks, answers, fails, do_steps, accounted, answered_in, asked_in, do_steps-bounded,
  json_set_output_loses,
}

outputs_forwarded : forward (module_set_output 7 (1 ∷ 2 ∷ [])) ≡ some (7, 0x11)
unfolding forward
outputs_forwarded = refl

get_bytes-forward_example :
    take 3 (get_bytes (module_set_output 7 (1 ∷ 2 ∷ []))) ≡ 0x10 ∷ 7 ∷ 0x11 ∷ []
get_bytes-forward_example =
    get_bytes-forward (module_set_output 7 (1 ∷ 2 ∷ [])) 7 0x11 outputs_forwarded

-- A number whose characters are digits, for QString::toInt.
abbrev digits_to_int : List ℕ → ℕ
digits_to_int [] = 0
digits_to_int (c ∷ cs) = c + 10 * digits_to_int cs

abbrev two_entries : List (List ℕ × List ℕ)
two_entries = (2 ∷ [], 1 ∷ 2 ∷ 3 ∷ 4 ∷ []) ∷ (3 ∷ [], 5 ∷ 6 ∷ []) ∷ []

image-parse_firmware_example :
    image (parse_firmware digits_to_int digits_to_int two_entries) 3
    ≡ written digits_to_int digits_to_int two_entries (λ _. 0xFF) 3
image-parse_firmware_example = image-parse_firmware digits_to_int digits_to_int two_entries 3

-- A firmware with one block.
abbrev one_block : Firmware
one_block = (5, replicate 64 1) ∷ []

one_block-IsFirmware : IsFirmware one_block
one_block-IsFirmware = record { sorted = (omega arith, tt); blocks = (refl, tt) }

one_block-IsPresent : IsPresent 5 one_block
unfolding find
one_block-IsPresent = (replicate 64 1, refl)

image-align_firmware_example : image (align_firmware 256 one_block) 320 ≡ image one_block 320
image-align_firmware_example = image-align_firmware 256 one_block 320 one_block-IsFirmware

align_firmware-IsPresent_example :
    IsPresent (5 / (256 / 64) * (256 / 64) + 3) (align_firmware 256 one_block)
    × IsPresent 5 (align_firmware 256 one_block)
align_firmware-IsPresent_example =
    align_firmware-IsPresent 256 one_block 5 3 one_block-IsFirmware one_block-IsPresent
      (omega arith)

-- Outputs of each kind, and a configuration with them.
abbrev mixed : List ℕ
mixed = 1 ∷ 0 ∷ 0x85 ∷ 0x43 ∷ 0 ∷ 1 ∷ 0 ∷ 1 ∷ 0x80 ∷ 0 ∷ 1 ∷ 0 ∷ 0x48 ∷ 0 ∷ 0 ∷ 1 ∷ []

abbrev mixed_config : UniConfig
mixed_config = record { outputs_safe = mixed; inputs_delay = replicate 16 3; irs = 0x8001 }

mixed_config-IsUniConfig : IsUniConfig mixed_config
mixed_config-IsUniConfig =
    let le : 3 ≤ 15 = omega arith in
    record {
      outputs = refl;
      delays = (le, le, (le, le, (le, le, (le, le, (le, le, (le, le, (le, le, (le, le, refl))))))));
      irs_bound = omega arith;
    }

from_mtb_usb-serialize_for_mtb_usb_example :
    from_mtb_usb (serialize_for_mtb_usb mixed_config true) mixed_config
    ≡ record { outputs_safe = mixed; inputs_delay = unpack_delays (take 8 mixed); irs = 0x8001 }
from_mtb_usb-serialize_for_mtb_usb_example =
    from_mtb_usb-serialize_for_mtb_usb mixed_config mixed_config true mixed_config-IsUniConfig

module_outputs_data-mtb_bus_outputs_data_example :
    module_outputs_data (mtb_bus_outputs_data mixed) ≡ map (λ o. some (as_set o)) mixed
module_outputs_data-mtb_bus_outputs_data_example =
    module_outputs_data-mtb_bus_outputs_data mixed refl

flicker_accepted : json_output_to_byte flicker 180 ≡ some 0x43
unfolding json_output_to_byte flick_per_min_to_mtb_uni_value
flicker_accepted = refl

output_to_json-json_output_to_byte_example :
    (output_to_json 0x43 ≡ (flicker, 180)) × (0x43 < 256) × (as_set 0x43 ≡ 0x43)
output_to_json-json_output_to_byte_example =
    output_to_json-json_output_to_byte flicker 180 0x43 flicker_accepted

-- An active module in operation.
abbrev pub test_uni : Uni
test_uni = record {
  address = 7;
  name = "Module 7";
  kind = 0x15;
  active = true;
  activating = false;
  activations_remaining = 0;
  bus_module_info = record {
    kind = 0x15;
    bootloader_int = false;
    bootloader_unint = false;
    error = false;
    warning = false;
    fw_major = 1;
    fw_minor = 6;
    proto_major = 4;
    proto_minor = 0;
    bootloader_major = 1;
    bootloader_minor = 0;
  };
  config_writing = none;
  rebooting = false;
  reboot_for = for_upgrade;
  activated_by_mtb_usb = true;
  beacon = false;
  fw_upgrading = none;
  data_ = [];
  to_write = [];
  config = none;
  config_to_write = none;
  inputs = 0;
  outputs_want = replicate 16 0;
  outputs_confirmed = replicate 16 (some 0);
  who_set_output = replicate 16 none;
  set_outputs_waiting = [];
  set_outputs_sent = [];
  effects = [];
}

abbrev request : ℕ → ServerRequest
request socket = record { socket = some socket; request_id = some 1 }

-- Two blocks to write, and a module that is busy once.
abbrev two_blocks : Uni
two_blocks = record test_uni { to_write = (4, 1 ∷ []) ∷ (5, 2 ∷ []) ∷ [] }

flash_writes-rounds_example :
    (flash_writes (rounds (0 ∷ 1 ∷ 0 ∷ []) two_blocks).effects
      ≡ in_order
          (take (ready (0 ∷ 1 ∷ 0 ∷ [])) two_blocks.to_write)
          (flash_writes two_blocks.effects))
    × ((rounds (0 ∷ 1 ∷ 0 ∷ []) two_blocks).to_write
        ≡ drop (ready (0 ∷ 1 ∷ 0 ∷ [])) two_blocks.to_write)
flash_writes-rounds_example = flash_writes-rounds (0 ∷ 1 ∷ 0 ∷ []) two_blocks (omega arith)

-- A command for outputs in flight for one client, and another client that waits.
abbrev in_flight : Uni
in_flight = record test_uni {
  set_outputs_sent = request 1 ∷ [];
  set_outputs_waiting = request 2 ∷ [];
}

-- A request that turns on output 3.
abbrev turn_on : List (Entry uni_kind)
turn_on = (some 3, some (plain, 1)) ∷ []

turn_on_valid : validate uni_kind turn_on ≡ some ((3, 1) ∷ [])
unfolding validate port_of json_output_to_byte
turn_on_valid = refl

-- The requests of client 1, and what happens once another client has asked for an output while the
-- command for client 1 is in flight and the outputs that are wanted are those that were confirmed.
abbrev of_first : ServerRequest → Bool
of_first r = elim r.socket [ none ↦ false | some socket ↦ socket == 1 ]

abbrev set_back : Uni
set_back = record in_flight { outputs_confirmed = map some in_flight.outputs_want }

set_back-Accepts : Accepts set_back
unfolding in_bootloader
set_back-Accepts = record {
  active = refl;
  not_upgrading = refl;
  in_operation = refl;
  not_writing = refl;
}

set_back-same : same_outputs uni_kind set_back.outputs_want set_back.outputs_confirmed ≡ true
unfolding same_outputs
set_back-same = refl

turn_on_changes_back : (store_ports (some 3) ((3, 1) ∷ []) ((3, 1) ∷ []) set_back).1 ≡ true
unfolding store_ports port_value
turn_on_changes_back = refl

abbrev two_answers : List (Step uni_kind)
two_answers = answers (0 ∷ 0 ∷ 0 ∷ 1 ∷ []) ∷ fails 18 ∷ []

json_set_output_loses_example :
    answered_in of_first (do_steps (asks (request 3) turn_on ∷ two_answers) set_back).effects ≤ 0
json_set_output_loses_example =
    json_set_output_loses of_first (request 3) turn_on ((3, 1) ∷ []) two_answers set_back
      set_back-Accepts turn_on_valid turn_on_changes_back set_back-same refl refl refl

do_steps-bounded_example :
    accounted of_first (do_steps (asks (request 1) turn_on ∷ two_answers) in_flight)
    ≤ accounted of_first in_flight + asked_in of_first (asks (request 1) turn_on ∷ two_answers)
do_steps-bounded_example =
    do_steps-bounded of_first (asks (request 1) turn_on ∷ two_answers) in_flight refl

json_upgrade_fw_locks_example :
    ((json_upgrade_fw (request 1) none test_uni).effects ≡ [])
    × (json_upgrade_fw (request 2) (some one_block) (json_upgrade_fw (request 1) none test_uni)
        ≡ effect
            (refused (request 2) Error.upgrading_fw)
            (json_upgrade_fw (request 1) none test_uni))
    × (json_set_output (request 2) turn_on (json_upgrade_fw (request 1) none test_uni)
        ≡ effect
            (refused (request 2) Error.upgrading_fw)
            (json_upgrade_fw (request 1) none test_uni))
json_upgrade_fw_locks_example =
    json_upgrade_fw_locks (request 1) (request 2) (some one_block) turn_on test_uni refl refl
