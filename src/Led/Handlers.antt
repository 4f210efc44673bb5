-- ===== src/Led/Handlers.antt =====
-- src/modules/led.cpp: the handlers of a LED module. Their text is that of MtbUni with
-- the values, the configuration and the inputs of this class, so that they are the handlers of
-- Uni/Setting, Uni/Activation and Uni/Setters for its kind.
use mtb_daemon.Base.{ℕ, Option, List}
use mtb_daemon.Cmd.Reply.{ModuleInfo}
use mtb_daemon.Firmware.{Firmware}
use mtb_daemon.Uni.{ServerRequest}
use mtb_daemon.Uni.Setting.{
  Entry, set_outputs, mtb_bus_outputs_set, mtb_bus_outputs_not_set, json_set_output,
  json_set_config, mtb_bus_config_written, mtb_bus_config_not_written, json_upgrade_fw,
  reset_outputs_of_client,
}
use mtb_daemon.Uni.Activation.{
  all_outputs_reset, mtb_bus_activate, activate, config_was_set, config_was_got, inputs_were_read,
  outputs_reset, mtb_bus_inputs_changed, mtb_usb_disconnected, reactivate_check,
}
use mtb_daemon.Uni.Setters.{uni_output_setters}
use mtb_daemon.Led.{LedConfig}
use mtb_daemon.Led.Kind.{led_kind, LedModule}

unfoldable pub led_set_outputs : LedModule → LedModule
led_set_outputs = set_outputs

unfoldable pub led_mtb_bus_outputs_set : List ℕ → LedModule → LedModule
led_mtb_bus_outputs_set = mtb_bus_outputs_set

unfoldable pub led_mtb_bus_outputs_not_set : ℕ → LedModule → LedModule
led_mtb_bus_outputs_not_set = mtb_bus_outputs_not_set

unfoldable pub led_json_set_output : ServerRequest → List (Entry led_kind) → LedModule → LedModule
led_json_set_output = json_set_output

unfoldable pub led_json_set_config : ServerRequest → Option ℕ → LedConfig → LedModule → LedModule
led_json_set_config = json_set_config

unfoldable pub led_mtb_bus_config_written : LedModule → LedModule
led_mtb_bus_config_written = mtb_bus_config_written

unfoldable pub led_mtb_bus_config_not_written : ℕ → LedModule → LedModule
led_mtb_bus_config_not_written = mtb_bus_config_not_written

unfoldable pub led_json_upgrade_fw : ServerRequest → Option Firmware → LedModule → LedModule
led_json_upgrade_fw = json_upgrade_fw

unfoldable pub led_reset_outputs_of_client : ℕ → LedModule → LedModule
led_reset_outputs_of_client = reset_outputs_of_client

unfoldable pub led_all_outputs_reset : LedModule → LedModule
led_all_outputs_reset = all_outputs_reset

unfoldable pub led_mtb_bus_activate : ModuleInfo → LedModule → LedModule
led_mtb_bus_activate = mtb_bus_activate

unfoldable pub led_activate : LedModule → LedModule
led_activate = activate

unfoldable pub led_config_was_set : LedModule → LedModule
led_config_was_set = config_was_set

unfoldable pub led_config_was_got : List ℕ → LedModule → LedModule
led_config_was_got = config_was_got

unfoldable pub led_inputs_were_read : List ℕ → LedModule → LedModule
led_inputs_were_read = inputs_were_read

unfoldable pub led_outputs_reset : LedModule → LedModule
led_outputs_reset = outputs_reset

unfoldable pub led_mtb_bus_inputs_changed : List ℕ → LedModule → LedModule
led_mtb_bus_inputs_changed = mtb_bus_inputs_changed

unfoldable pub led_mtb_usb_disconnected : LedModule → LedModule
led_mtb_usb_disconnected = mtb_usb_disconnected

unfoldable pub led_reactivate_check : LedModule → LedModule
led_reactivate_check = reactivate_check

unfoldable pub led_output_setters : LedModule → List ℕ
led_output_setters = uni_output_setters
