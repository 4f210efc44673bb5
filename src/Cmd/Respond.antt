-- ===== src/Cmd/Respond.antt =====
-- src/mtbusb/mtbusb-commands.h: `processUsbResponse` and `processBusResponse` of each class. The
-- result is the argument of the callback that the method calls before it returns true; `none` is
-- its `return false`.
use mtb_daemon.Base.{
  ℕ, Bool, ◌&&◌, ◌||◌, Option, none, some, List, length, get_or, drop, leb, ◌==◌, if◌then◌else◌,
}
use mtb_daemon.Common.UsbRecv
use mtb_daemon.Common.BusRecv
use mtb_daemon.Cmd.{
  Body, usb_info_request, usb_change_speed, usb_active_modules_request, usb_ping,
  module_info_request, module_set_config, module_get_config, module_beacon, module_get_inputs,
  module_set_output, module_reset_outputs, module_change_addr, module_change_speed,
  module_fw_upgrade_req, module_fw_write_flash, module_fw_write_flash_status_request,
  module_specific, module_reboot, module_get_diag_value,
}
use mtb_daemon.Cmd.Reply.{
  Reply, completed, module_completed, module_info, module_bytes, diag_value, flash_status, specific,
  parse_module_info,
}

abbrev when : Bool → Reply → Option Reply
when b r = if b then some r else none

unfoldable pub process_usb_response : Body → ℕ → Option Reply
process_usb_response usb_info_request command = when (command == UsbRecv.mtbusb_info) completed
process_usb_response (usb_change_speed speed) command = when (command == UsbRecv.ack) completed
process_usb_response usb_active_modules_request command =
    when (command == UsbRecv.active_modules) completed
process_usb_response usb_ping command = when (command == UsbRecv.ack) completed
process_usb_response _ command = none

-- An acknowledgement calls `onOkBroadcast` for a broadcast and `onOkModule` otherwise.
abbrev acknowledged : ℕ → ℕ → Option Reply
acknowledged m command =
    when (command == BusRecv.acknowledgement) (if m == 0 then completed else module_completed m)

unfoldable pub process_bus_response : Body → ℕ → List ℕ → Option Reply
unfolding parse_module_info
process_bus_response (module_info_request m) command bytes =
    when (command == BusRecv.module_info && leb 6 (length bytes))
      (module_info m (parse_module_info bytes))
process_bus_response (module_set_config m config) command bytes =
    when (command == BusRecv.acknowledgement) (module_completed m)
process_bus_response (module_get_config m) command bytes =
    when (command == BusRecv.module_config) (module_bytes m bytes)
process_bus_response (module_beacon m state) command bytes =
    when (command == BusRecv.acknowledgement) (module_completed m)
process_bus_response (module_get_inputs m) command bytes =
    when (command == BusRecv.input_state) (module_bytes m bytes)
process_bus_response (module_set_output m outputs) command bytes =
    when (command == BusRecv.output_set) (module_bytes m bytes)
process_bus_response (module_reset_outputs m) command bytes = acknowledged m command
process_bus_response (module_change_addr m new_addr) command bytes = acknowledged m command
process_bus_response (module_change_speed m speed) command bytes = acknowledged m command
process_bus_response (module_fw_upgrade_req m) command bytes =
    when (command == BusRecv.acknowledgement) (module_completed m)
process_bus_response (module_fw_write_flash m flash_addr blob) command bytes =
    when (command == BusRecv.acknowledgement) (module_completed m)
process_bus_response (module_fw_write_flash_status_request m) command bytes =
    when (command == BusRecv.fw_write_flash_status && leb 1 (length bytes))
      (flash_status m (get_or bytes 0 0))
process_bus_response (module_specific m payload) command bytes =
    if m == 0
    then when (command == BusRecv.acknowledgement) completed
    else when
        (command == BusRecv.acknowledgement
          || command == BusRecv.error
          || command == BusRecv.module_specific)
        (specific m command bytes)
process_bus_response (module_reboot m) command bytes = acknowledged m command
process_bus_response (module_get_diag_value m dvi) command bytes =
    when (command == BusRecv.diag_value && leb 1 (length bytes))
      (diag_value m (get_or bytes 0 0) (drop 1 bytes))
process_bus_response _ command bytes = none
