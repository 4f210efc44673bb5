-- ===== src/Module/Replies.antt =====
-- src/modules/module.cpp, uni.cpp, unis.cpp, led.cpp: the callbacks that a module hands to mtbusb.send
-- and to QTimer::singleShot. A callback that gets what is no answer to its command does not occur.
use mtb_daemon.Base.{ℕ}
use mtb_daemon.Cmd.Reply.{
  Reply, module_completed, module_info, module_bytes, diag_value, flash_status, specific,
}
use mtb_daemon.Server.{cmd_error_code}
use mtb_daemon.Uni.{
  IoKind, IoModule, Callback, outputs_set, upgrade_requested, upgrade_info, upgrade_status,
  upgrade_written, config_written, config_set, config_got, inputs_read, outputs_were_reset,
  rebooted, reboot_info, address_changed, diag_got, specific_got, beacon_set,
}
use mtb_daemon.Uni.Setting.{
  mtb_bus_outputs_set, mtb_bus_outputs_not_set, mtb_bus_config_written, mtb_bus_config_not_written,
}
use mtb_daemon.Uni.Upgrade.{
  fw_upgd_error, fw_upgd_got_info, fw_upgd_get_status, fw_upgd_got_status, fw_upgd_req_ack,
  fw_upgd_req_waited, reboot_ack, reboot_waited, reboot_error,
}
use mtb_daemon.Uni.Activation.{activation_error, config_was_set, config_was_got, outputs_reset}
use mtb_daemon.Module.Requests.{
  Virtuals, request_failed, address_was_changed, beacon_was_set, specific_was_answered,
  diag_was_got,
}

module _ {k : IoKind} where
  unfoldable pub on_ok : Virtuals k → Callback → Reply → IoModule k → IoModule k
  on_ok v outputs_set (module_bytes m bytes) s = mtb_bus_outputs_set bytes s
  on_ok v upgrade_requested (module_completed m) s = fw_upgd_req_ack s
  on_ok v upgrade_info (module_info m info) s = fw_upgd_got_info info s
  on_ok v upgrade_status (flash_status m status) s = fw_upgd_got_status status s
  on_ok v upgrade_written (module_completed m) s = fw_upgd_get_status s
  on_ok v config_written (module_completed m) s = mtb_bus_config_written s
  on_ok v config_set (module_completed m) s = config_was_set s
  on_ok v config_got (module_bytes m bytes) s = config_was_got bytes s
  on_ok v inputs_read (module_bytes m bytes) s = v.read_inputs bytes s
  on_ok v outputs_were_reset (module_completed m) s = outputs_reset s
  on_ok v rebooted (module_completed m) s = reboot_ack s
  on_ok v reboot_info (module_info m info) s = v.activated info s
  on_ok v (address_changed c r) (module_completed m) s = address_was_changed c r s
  on_ok v (diag_got c r) (diag_value m dv bytes) s =
      diag_was_got v.dv_to_str (v.repr_of s) c r dv bytes s
  on_ok v (specific_got c r) (specific m command bytes) s =
      specific_was_answered c r command bytes s
  on_ok v (beacon_set b c r) (module_completed m) s = beacon_was_set b c r s
  on_ok v _ _ s = s

  unfoldable pub on_error : Callback → ℕ → IoModule k → IoModule k
  on_error outputs_set error s = mtb_bus_outputs_not_set (cmd_error_code error) s
  on_error config_written error s = mtb_bus_config_not_written (cmd_error_code error) s
  on_error config_set error s = activation_error s
  on_error config_got error s = activation_error s
  on_error inputs_read error s = activation_error s
  on_error outputs_were_reset error s = activation_error s
  on_error rebooted error s = reboot_error s
  on_error reboot_info error s = reboot_error s
  on_error (address_changed c r) error s = request_failed c r error s
  on_error (diag_got c r) error s = request_failed c r error s
  on_error (specific_got c r) error s = request_failed c r error s
  on_error (beacon_set b c r) error s = request_failed c r error s
  on_error _ error s = fw_upgd_error s

  unfoldable pub on_timeout : Callback → IoModule k → IoModule k
  on_timeout upgrade_info s = fw_upgd_req_waited s
  on_timeout reboot_info s = reboot_waited s
  on_timeout _ s = s
