-- ===== src/Cmd.antt =====
-- src/mtbusb/mtbusb-commands.h: the commands for MTB-USB and for MTBbus modules. A class is a
-- constructor of `Body`; what all classes share (the address of the object, the two callbacks) is
-- the record `Cmd`. A callback is a value of an abstract type `K`.
pub mod Reply
pub mod Respond
pub mod Laws
use mtb_daemon.Base.{
  ℕ, ◌/◌, ◌%◌, Bool, true, false, Option, none, some, List, [], ◌∷◌, ◌==◌, if◌then◌else◌,
}

-- `module_…` are the classes below CmdMtbUsbForward; their first argument is the module's address,
-- 0 for a broadcast.
pub data Body : Type 0 where
  usb_info_request : Body
  usb_change_speed : ℕ → Body
  usb_active_modules_request : Body
  usb_ping : Body
  module_info_request : ℕ → Body
  module_set_config : ℕ → List ℕ → Body
  module_get_config : ℕ → Body
  module_beacon : ℕ → Bool → Body
  module_get_inputs : ℕ → Body
  module_set_output : ℕ → List ℕ → Body
  module_reset_outputs : ℕ → Body
  module_change_addr : ℕ → ℕ → Body
  module_change_speed : ℕ → ℕ → Body
  module_fw_upgrade_req : ℕ → Body
  module_fw_write_flash : ℕ → ℕ → List ℕ → Body
  module_fw_write_flash_status_request : ℕ → Body
  module_specific : ℕ → List ℕ → Body
  module_reboot : ℕ → Body
  module_get_diag_value : ℕ → ℕ → Body

-- `id` is the address of the object, by which the receiver finds a command again.
pub record Cmd (K : Type 0) : Type 0 where
  pub id : ℕ
  pub body : Body
  pub on_ok : K
  pub on_error : K

-- The constructors with a module's address: `none` is the exception EInvalidAddress.
unfoldable pub forward_address : ℕ → Option ℕ
forward_address addr = if addr == 0 then none else some addr

-- `module` and `busCommandCode` of a CmdMtbUsbForward; `none` for the other classes.
unfoldable pub forward : Body → Option (ℕ × ℕ)
forward (module_info_request m) = some (m, 0x02)
forward (module_set_config m config) = some (m, 0x03)
forward (module_get_config m) = some (m, 0x04)
forward (module_beacon m state) = some (m, 0x05)
forward (module_get_inputs m) = some (m, 0x10)
forward (module_set_output m outputs) = some (m, 0x11)
forward (module_reset_outputs m) = some (m, 0x12)
forward (module_change_addr m new_addr) = some (m, 0x20)
forward (module_change_speed m speed) = some (m, 0xE0)
forward (module_fw_upgrade_req m) = some (m, 0xF0)
forward (module_fw_write_flash m flash_addr blob) = some (m, 0xF1)
forward (module_fw_write_flash_status_request m) = some (m, 0xF2)
forward (module_specific m payload) = some (m, 0xFE)
forward (module_reboot m) = some (m, 0xFF)
forward (module_get_diag_value m dvi) = some (m, 0xD0)
forward _ = none

abbrev bool_byte : Bool → ℕ
bool_byte true = 1
bool_byte false = 0

unfoldable pub get_bytes : Body → List ℕ
get_bytes usb_info_request = 0x20 ∷ []
get_bytes (usb_change_speed speed) = 0x21 ∷ (speed % 256) ∷ []
get_bytes usb_active_modules_request = 0x22 ∷ []
get_bytes usb_ping = 0x30 ∷ []
get_bytes (module_info_request m) = 0x10 ∷ m ∷ 0x02 ∷ []
get_bytes (module_set_config m config) = 0x10 ∷ m ∷ 0x03 ∷ config
get_bytes (module_get_config m) = 0x10 ∷ m ∷ 0x04 ∷ []
get_bytes (module_beacon m state) = 0x10 ∷ m ∷ 0x05 ∷ bool_byte state ∷ []
get_bytes (module_get_inputs m) = 0x10 ∷ m ∷ 0x10 ∷ []
get_bytes (module_set_output m outputs) = 0x10 ∷ m ∷ 0x11 ∷ outputs
get_bytes (module_reset_outputs m) = 0x10 ∷ m ∷ 0x12 ∷ []
get_bytes (module_change_addr m new_addr) = 0x10 ∷ m ∷ 0x20 ∷ new_addr ∷ []
get_bytes (module_change_speed m speed) = 0x10 ∷ m ∷ 0xE0 ∷ (speed % 256) ∷ []
get_bytes (module_fw_upgrade_req m) = 0x10 ∷ m ∷ 0xF0 ∷ []
get_bytes (module_fw_write_flash m flash_addr blob) =
    0x10 ∷ m ∷ 0xF1 ∷ (flash_addr / 256 % 256) ∷ (flash_addr % 256) ∷ blob
get_bytes (module_fw_write_flash_status_request m) = 0x10 ∷ m ∷ 0xF2 ∷ []
get_bytes (module_specific m payload) = 0x10 ∷ m ∷ 0xFE ∷ payload
get_bytes (module_reboot m) = 0x10 ∷ m ∷ 0xFF ∷ []
get_bytes (module_get_diag_value m dvi) = 0x10 ∷ m ∷ 0xD0 ∷ dvi ∷ []

abbrev is_usb_change_speed : Body → Bool
is_usb_change_speed (usb_change_speed speed) = true
is_usb_change_speed _ = false

-- `a.conflict(b)`; only CmdMtbUsbChangeSpeed overrides it.
unfoldable pub conflict : Body → Body → Bool
conflict (usb_change_speed speed) b = is_usb_change_speed b
conflict _ b = false
