-- ===== src/Common/Laws.antt =====
-- Laws of the MTBbus speeds and of the module addresses of src/mtbusb/mtbusb-common.cpp.
use mtb_daemon.Base.{ℕ, ◌≤◌, ◌≡◌, ◌↔◌, true, some, arith}
use mtb_daemon.Common.{speed_to_int, int_to_speed, speed_valid, check_valid_module_address}

-- A speed in baud that a firmware accepts is the speed of the code that the daemon sends for it.
speed_to_int-int_to_speed :
    (speed fw_version : ℕ)
    → speed_valid speed fw_version ≡ true
    → speed_to_int (int_to_speed speed) ≡ some speed
unfolding speed_to_int int_to_speed speed_valid
speed_to_int-int_to_speed speed fw_version h = ground arith

-- The code of a speed is the one that the speed in baud gives back, and firmware 1.3 and later
-- accept that speed.
pub int_to_speed-speed_to_int :
    (code speed fw_version : ℕ)
    → speed_to_int code ≡ some speed
    → 0x0103 ≤ fw_version
    → (int_to_speed speed ≡ code) × (speed_valid speed fw_version ≡ true)
unfolding speed_to_int int_to_speed speed_valid
int_to_speed-speed_to_int code speed fw_version h fw = ground arith

-- The address check passes exactly on 1 to 255.
check_valid_module_address_iff :
    (addr : ℕ) → (check_valid_module_address addr ≡ some tt) ↔ ((1 ≤ addr) × (addr ≤ 255))
unfolding check_valid_module_address
check_valid_module_address_iff addr = ground arith
