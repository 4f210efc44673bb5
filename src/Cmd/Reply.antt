-- ===== src/Cmd/Reply.antt =====
-- src/mtbusb/mtbusb-commands.h: ModuleInfo, and what the callbacks of commands are called with.
use mtb_daemon.Base.{ℕ, Bool, ◌||◌, List, length, get_or, bit, leb, if◌then◌else◌, word}

pub record ModuleInfo : Type 0 where
  pub kind : ℕ  -- `type`
  pub bootloader_int : Bool
  pub bootloader_unint : Bool
  pub error : Bool
  pub warning : Bool
  pub fw_major : ℕ
  pub fw_minor : ℕ
  pub proto_major : ℕ
  pub proto_minor : ℕ
  pub bootloader_major : ℕ
  pub bootloader_minor : ℕ

unfoldable pub in_bootloader : ModuleInfo → Bool
in_bootloader i = i.bootloader_int || i.bootloader_unint

unfoldable pub uint_fw_version : ModuleInfo → ℕ
uint_fw_version i = word i.fw_major i.fw_minor

-- The argument of a callback. `completed` is that of StdCallbackFunc, `failed` that of
-- ErrCallbackFunc with the CmdError's code; the others begin with the module's address.
pub data Reply : Type 0 where
  completed : Reply
  module_completed : ℕ → Reply
  module_info : ℕ → ModuleInfo → Reply
  module_bytes : ℕ → List ℕ → Reply
  diag_value : ℕ → ℕ → List ℕ → Reply
  flash_status : ℕ → ℕ → Reply
  specific : ℕ → ℕ → List ℕ → Reply
  failed : ℕ → Reply

-- The bytes of a ModuleInfo response with six bytes or more.
unfoldable pub parse_module_info : List ℕ → ModuleInfo
unfolding in_bootloader
parse_module_info bytes =
    let at = λ (i : ℕ). get_or bytes i 0 in
    let info : ModuleInfo = record {
      kind = at 0;
      bootloader_int = bit (at 1) 0;
      bootloader_unint = bit (at 1) 1;
      warning = bit (at 1) 2;
      error = bit (at 1) 3;
      fw_major = at 2;
      fw_minor = at 3;
      proto_major = at 4;
      proto_minor = at 5;
      bootloader_major = 0;
      bootloader_minor = 0;
    } in
    if leb 8 (length bytes)
    then record info { bootloader_major = at 6; bootloader_minor = at 7 }
    else if in_bootloader info
    then record info { bootloader_major = info.fw_major; bootloader_minor = info.fw_minor }
    else record info { bootloader_major = 1; bootloader_minor = 1 }
