-- ===== src/Common/UsbRecv.antt =====
-- src/mtbusb/mtbusb-common.h: MtbUsbRecvCommand, the messages that MTB-USB sends.
use Prim.Native.Nat.{ℕ}

abbrev pub ack : ℕ
ack = 0x01

abbrev pub error : ℕ
error = 0x02

abbrev pub mtbbus_forward : ℕ
mtbbus_forward = 0x10

abbrev pub mtbusb_info : ℕ
mtbusb_info = 0x20

abbrev pub active_modules : ℕ
active_modules = 0x22

abbrev pub new_module : ℕ
new_module = 0x23

abbrev pub module_failed : ℕ
module_failed = 0x24
