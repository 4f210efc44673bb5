-- ===== src/Common/BusRecv.antt =====
-- src/mtbusb/mtbusb-common.h: MtbBusRecvCommand, the messages that MTBbus modules send.
use Prim.Native.Nat.{ℕ}

abbrev pub acknowledgement : ℕ
acknowledgement = 0x01

abbrev pub error : ℕ
error = 0x02

abbrev pub module_info : ℕ
module_info = 0x03

abbrev pub module_config : ℕ
module_config = 0x04

abbrev pub input_changed : ℕ
input_changed = 0x10

abbrev pub input_state : ℕ
input_state = 0x11

abbrev pub output_set : ℕ
output_set = 0x12

abbrev pub diag_value : ℕ
diag_value = 0xD0

abbrev pub fw_write_flash_status : ℕ
fw_write_flash_status = 0xF2

abbrev pub module_specific : ℕ
module_specific = 0xFE
