-- ===== src/Common/UsbError.antt =====
-- src/mtbusb/mtbusb-common.h: MtbUsbRecvError.
use Prim.Native.Nat.{ℕ}

abbrev pub no_response : ℕ
no_response = 0x01

abbrev pub full_buffer : ℕ
full_buffer = 0x02
