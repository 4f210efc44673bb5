-- ===== src/Unis/Handlers.antt =====
-- src/modules/unis.cpp: the handlers of a universal module with servos. Their text is that of MtbUni with
-- the values, the configuration and the inputs of this class, so that they are the handlers of
-- Uni/Setting, Uni/Activation and Uni/Setters for its kind.
use mtb_daemon.Base.{ℕ, Option, List}
use mtb_daemon.Cmd.Reply.{ModuleInfo}
use mtb_daemon.Firmware.{Firmware}
use mtb_daemon.Uni.{ServerRequest}
use mtb_daemon.Uni.Setting.{
  Entry, set_outputs, mtb_bus_outputs_set, mtb_bus_outputs_not_set, json_set_output,
  json_set_config, mtb_bus_config_written, mtb_bus_config_not_written, json_upgrade_fw,
  reset_outputs_of_client,
}
use mtb_daemon.Uni.Activation.{
  all_outputs_reset, mtb_bus_activate, activate, config_was_set, config_was_got, inputs_were_read,
  outputs_reset, mtb_bus_inputs_changed, mtb_usb_disconnected, reactivate_check,
}
use mtb_daemon.Uni.Setters.{uni_output_setters}
use mtb_daemon.Unis.{UnisConfig}
use mtb_daemon.Unis.Kind.{unis_kind, UnisModule}

unfoldable pub unis_set_outputs : UnisModule → UnisModule
unis_set_outputs = set_outputs

unfoldable pub unis_mtb_bus_outputs_set : List ℕ → UnisModule → UnisModule
unis_mtb_bus_outputs_set = mtb_bus_outputs_set

unfoldable pub unis_mtb_bus_outputs_not_set : ℕ → UnisModule → UnisModule
unis_mtb_bus_outputs_not_set = mtb_bus_outputs_not_set

unfoldable pub unis_json_set_output :
    ServerRequest → List (Entry unis_kind) → UnisModule → UnisModule
unis_json_set_output = json_set_output

unfoldable pub unis_json_set_config :
    ServerRequest → Option ℕ → UnisConfig → UnisModule → UnisModule
unis_json_set_config = json_set_config

unfoldable pub unis_mtb_bus_config_written : UnisModule → UnisModule
unis_mtb_bus_config_written = mtb_bus_config_written

unfoldable pub unis_mtb_bus_config_not_written : ℕ → UnisModule → UnisModule
unis_mtb_bus_config_not_written = mtb_bus_config_not_written

unfoldable pub unis_json_upgrade_fw : ServerRequest → Option Firmware → UnisModule → UnisModule
unis_json_upgrade_fw = json_upgrade_fw

unfoldable pub unis_reset_outputs_of_client : ℕ → UnisModule → UnisModule
unis_reset_outputs_of_client = reset_outputs_of_client

unfoldable pub unis_all_outputs_reset : UnisModule → UnisModule
unis_all_outputs_reset = all_outputs_reset

unfoldable pub unis_mtb_bus_activate : ModuleInfo → UnisModule → UnisModule
unis_mtb_bus_activate = mtb_bus_activate

unfoldable pub unis_activate : UnisModule → UnisModule
unis_activate = activate

unfoldable pub unis_config_was_set : UnisModule → UnisModule
unis_config_was_set = config_was_set

unfoldable pub unis_config_was_got : List ℕ → UnisModule → UnisModule
unis_config_was_got = config_was_got

unfoldable pub unis_inputs_were_read : List ℕ → UnisModule → UnisModule
unis_inputs_were_read = inputs_were_read

unfoldable pub unis_outputs_reset : UnisModule → UnisModule
unis_outputs_reset = outputs_reset

unfoldable pub unis_mtb_bus_inputs_changed : List ℕ → UnisModule → UnisModule
unis_mtb_bus_inputs_changed = mtb_bus_inputs_changed

unfoldable pub unis_mtb_usb_disconnected : UnisModule → UnisModule
unis_mtb_usb_disconnected = mtb_usb_disconnected

unfoldable pub unis_reactivate_check : UnisModule → UnisModule
unis_reactivate_check = reactivate_check

unfoldable pub unis_output_setters : UnisModule → List ℕ
unis_output_setters = uni_output_setters
