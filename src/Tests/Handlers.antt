-- ===== src/Tests/Handlers.antt =====
-- Concrete modules for the theorems about the handlers that modules share.
use Prim.Native.String.{String, ◌∷◌ as text_cons, count as characters}
use Prim.Native.String.count
use mtb_daemon.Base.{
  Option, zero, suc, ℕ, ◌+◌, ◌-◌, ◌≡◌, refl, true, false, none, some, List, [], ◌∷◌, replicate,
}
use mtb_daemon.Cmd.Reply.{ModuleInfo, in_bootloader}
use mtb_daemon.Json.{string, number, Fields, end, field}
use mtb_daemon.Daemon.Files.{state}
use mtb_daemon.Uni.{ServerRequest}
use mtb_daemon.Classes.{AnyModule, a_led}
use mtb_daemon.Daemon.{put}
use mtb_daemon.Daemon.Files.{Surroundings}
use mtb_daemon.Module.Upgrading.{Upgraded, reboots-Upgraded}
use mtb_daemon.Led.{LedConfig}
use mtb_daemon.Led.Kind.{led_kind, LedModule}
use mtb_daemon.Led.Form.{led_form}
use mtb_daemon.Classes.{new_io, rc_virtuals}
use mtb_daemon.Rc.Handlers.{rc_kind, RcModule}
use mtb_daemon.Module.Io.{IoForm}
use mtb_daemon.Module.Requests.{json_command}
use mtb_daemon.Module.Activating.{Completes, mtb_bus_activate-Completes}
use mtb_daemon.Module.Failing.{IsIdle, commands, retries, retries_bounded}
use mtb_daemon.Module.Reading.{OnlyAsks, json_command-OnlyAsks}
use mtb_daemon.Tests.Daemon.{test_setup, test_ops, around}

abbrev form : IoForm led_kind
form = led_form (λ t. none) (λ n. "1") (λ fs. none) 0

abbrev led_info : ModuleInfo
led_info = record {
  kind = 0x40;
  bootloader_int = false;
  bootloader_unint = false;
  error = false;
  warning = true;
  fw_major = 1;
  fw_minor = 0;
  proto_major = 4;
  proto_minor = 0;
  bootloader_major = 1;
  bootloader_minor = 0;
}

led_info-operates : in_bootloader led_info ≡ false
unfolding in_bootloader
led_info-operates = refl

-- A LED module with a configuration from the file, and two attempts that are left.
abbrev led_config : LedConfig
led_config = record { outputs_safe = true ∷ replicate 31 false; brightness = replicate 32 50 }

abbrev test_led : LedModule
test_led = record (new_io (λ n. "led") led_kind 9) {
  config = some led_config;
  activations_remaining = 2;
}

test_led-IsIdle : IsIdle test_led
unfolding new_io
test_led-IsIdle = (refl, refl)

new_led_at_rest : test_led.rebooting ≡ false
unfolding new_io
new_led_at_rest = refl

mtb_bus_activate-Completes_example : Completes form led_info [] (1 ∷ 0 ∷ 0 ∷ 128 ∷ []) test_led
mtb_bus_activate-Completes_example =
    mtb_bus_activate-Completes form led_info [] (1 ∷ 0 ∷ 0 ∷ 128 ∷ []) test_led led_info-operates
      new_led_at_rest

-- Three failures.
abbrev errors : List ℕ
errors = 18 ∷ 18 ∷ 17 ∷ []

retries_bounded_example :
    (IsIdle (retries errors test_led))
    × ((retries errors test_led).activations_remaining ≡ 2 - 3)
    × (commands (retries errors test_led).effects + (retries errors test_led).activations_remaining
        ≡ commands test_led.effects + 2)
retries_bounded_example = retries_bounded errors test_led test_led-IsIdle

-- A request to reboot an RC module.
abbrev reboot_request : Fields
reboot_request = field "command" (string "module_reboot") (field "address" (number 9) end)

abbrev test_rc : RcModule
test_rc = new_io (λ n. "rc") rc_kind 9

json_command-OnlyAsks_example :
    OnlyAsks 1 reboot_request test_rc
      (state (json_command (rc_virtuals test_setup) (λ a. false) 1 reboot_request false test_rc))
json_command-OnlyAsks_example =
    json_command-OnlyAsks (rc_virtuals test_setup) (λ a. false) 1 reboot_request test_rc

-- An upgrade that a client with socket 4 has asked for.
abbrev asked_by : ServerRequest
asked_by = record { socket = some 4; request_id = some 11 }

abbrev upgrading_led : LedModule
upgrading_led = record test_led { fw_upgrading = some asked_by }

reboots-Upgraded_example : Upgraded form led_info [] (1 ∷ 0 ∷ 0 ∷ 128 ∷ []) asked_by upgrading_led
reboots-Upgraded_example =
    reboots-Upgraded form led_info [] (1 ∷ 0 ∷ 0 ∷ 128 ∷ []) asked_by upgrading_led
      led_info-operates new_led_at_rest refl

abbrev saved_led : AnyModule
saved_led = a_led (record test_led { kind = 0x40; name = "signals" })

-- Keys of a file that are read back as the address.
abbrev tally : ℕ → String
tally zero = ""
tally (suc n) = text_cons "i" (tally n)

abbrev with_keys : Surroundings
with_keys = record around { text_to_int = characters; key = tally }

abbrev saved_at_nine : ℕ → Option AnyModule
saved_at_nine = put 9 (some saved_led) (λ a. none)
