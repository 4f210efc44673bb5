-- ===== src/Common/CmdError.antt =====
-- src/mtbusb/mtbusb-common.h: CmdError, what an error callback is told.
use Prim.Native.Nat.{ℕ}

abbrev pub unknown_command : ℕ
unknown_command = 0x01

abbrev pub unsupported_command : ℕ
unsupported_command = 0x02

abbrev pub bad_address : ℕ
bad_address = 0x03

abbrev pub serial_port_closed : ℕ
serial_port_closed = 0x10

abbrev pub usb_no_response : ℕ
usb_no_response = 0x11

abbrev pub bus_no_response : ℕ
bus_no_response = 0x12

abbrev pub pending_conflict : ℕ
pending_conflict = 0x13
