-- ===== src/Common/Texts.antt =====
-- src/mtbusb/mtbusb-common.h, mtbusb-common.cpp: the texts of errors, and the names of diagnostic
-- values.
use Prim.Native.String.{String}
use mtb_daemon.Base.{ℕ, Option, none, some, List, [], ◌∷◌, ◌==◌, if◌then◌else◌}
use mtb_daemon.Common.CmdError
use mtb_daemon.Utils.{inverted, name_of, number_of}

-- `default:` is what BadAddress and PendingConflict fall to.
unfoldable pub cmd_error_to_str : ℕ → String
cmd_error_to_str error =
    if error == CmdError.serial_port_closed
    then "Serial port closed"
    else if error == CmdError.usb_no_response
    then "No response from MTB-USB module"
    else if error == CmdError.bus_no_response
    then "No response from MTBbus module"
    else if error == CmdError.unknown_command
    then "Unknown command"
    else if error == CmdError.unsupported_command
    then "Unsupported command"
    else "Unknown error"

-- dvsCommon.
abbrev pub dvs_common : List (ℕ × String)
dvs_common =
    (0, "version")
    ∷ (1, "state")
    ∷ (2, "uptime")
    ∷ (10, "errors")
    ∷ (11, "warnings")
    ∷ (12, "mcu_voltage")
    ∷ (13, "mcu_temperature")
    ∷ (16, "mtbbus_received")
    ∷ (17, "mtbbus_bad_crc")
    ∷ (18, "mtbbus_sent")
    ∷ (19, "mtbbus_not_sent")
    ∷ []

unfoldable pub dv_common_to_str : ℕ → String
dv_common_to_str dv = elim (name_of dvs_common dv) [ none ↦ "unknown" | some name ↦ name ]

unfoldable pub str_to_dv_common : String → Option ℕ
str_to_dv_common name = number_of (inverted dvs_common) name
