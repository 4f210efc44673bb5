-- ===== src/Common.antt =====
-- src/mtbusb/mtbusb-common.h and .cpp: the enumerations of the protocol, MTBbus speeds, module
-- addresses. An enumeration that the code reads by a cast from a byte is the byte itself.
pub mod UsbRecv
pub mod BusRecv
pub mod UsbError
pub mod CmdError
pub mod Laws
pub mod Texts
use BusRecv
use mtb_daemon.Base.{ℕ, Bool, ◌&&◌, ◌||◌, Option, none, some, ltb, leb, ◌==◌, if◌then◌else◌}

-- MtbBusSpeed.
abbrev pub br38400 : ℕ
br38400 = 1

abbrev pub br57600 : ℕ
br57600 = 2

abbrev pub br115200 : ℕ
br115200 = 3

abbrev pub br230400 : ℕ
br230400 = 4

-- `none` is the exception EInvalidSpeed.
unfoldable pub speed_to_int : ℕ → Option ℕ
speed_to_int speed =
    if speed == br38400
    then some 38400
    else if speed == br57600
    then some 57600
    else if speed == br115200
    then some 115200
    else if speed == br230400
    then some 230400
    else none

unfoldable pub int_to_speed : ℕ → ℕ
int_to_speed speed =
    if speed == 57600
    then br57600
    else if speed == 115200
    then br115200
    else if speed == 230400
    then br230400
    else br38400

unfoldable pub speed_valid : ℕ → ℕ → Bool
speed_valid speed fw_version =
    speed == 38400
    || speed == 57600
    || speed == 115200
    || (speed == 230400 && leb 0x0103 fw_version)

unfoldable pub is_valid_module_address : ℕ → Bool
is_valid_module_address addr = ltb 0 addr && ltb addr 256

-- `none` is the exception EInvalidAddress.
unfoldable pub check_valid_module_address : ℕ → Option (Unit {0})
unfolding is_valid_module_address
check_valid_module_address addr = if is_valid_module_address addr then some tt else none

unfoldable pub is_bus_event : ℕ → Bool
is_bus_event command = command == BusRecv.input_changed || command == BusRecv.diag_value

-- DVCommon::State.
abbrev pub dv_state : ℕ
dv_state = 1
