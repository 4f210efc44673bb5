-- ===== src/Unis.antt =====
-- src/modules/unis.h, unis.cpp: the outputs and the configuration of a universal module with servos,
-- on the bus. Its values of outputs are those of Uni/Outputs.
pub mod Laws
pub mod Kind
pub mod Form
pub mod Handlers
use mtb_daemon.Base.{
  ℕ, zero, suc, ◌+◌, ◌*◌, ◌/◌, ◌%◌, Bool, Option, none, some, List, [], ◌∷◌, ◌++◌, leb, ltb,
  if◌then◌else◌, get_or, take, drop, length, replicate,
}
use mtb_daemon.Cmd.Reply.{ModuleInfo, uint_fw_version}
use mtb_daemon.Uni.Outputs.{mask_bit, plain_bit, bits, not_plain, read_outputs}
use mtb_daemon.Uni.Config.{pack_delays, unpack_delays}

-- UNIS_OUT_CNT, UNIS_FW_DEPRECATED.
abbrev pub unis_out_cnt : ℕ
unis_out_cnt = 28

abbrev pub unis_fw_deprecated : ℕ
unis_fw_deprecated = 0x01FF

-- MtbUnisConfig.
pub record UnisConfig : Type 0 where
  pub outputs_safe : List ℕ
  pub inputs_delay : List ℕ
  pub servo_enabled_mask : ℕ
  pub servo_position : List ℕ
  pub servo_speed : List ℕ
  pub servo_input_map : List ℕ

unfoldable pub unis_deprecated : ModuleInfo → Bool
unis_deprecated info = leb (uint_fw_version info) unis_fw_deprecated

-- Four bytes: one bit of each output, eight outputs in a byte, the first one lowest.
unfoldable pub four_bytes : (ℕ → ℕ) → List ℕ → List ℕ
four_bytes f os =
    bits f (take 8 os)
    ∷ bits f (take 8 (drop 8 os))
    ∷ bits f (take 8 (drop 8 (drop 8 os)))
    ∷ bits f (drop 8 (drop 8 (drop 8 os)))
    ∷ []

unfoldable pub unis_outputs_data : List ℕ → List ℕ
unis_outputs_data os = four_bytes mask_bit os ++ (four_bytes plain_bit os ++ not_plain os)

-- A number of four bytes, the lowest first.
unfoldable pub dword : ℕ → ℕ → ℕ → ℕ → ℕ
dword a b c d = a + 256 * (b + 256 * (c + 256 * d))

unfoldable pub unis_module_outputs : List ℕ → List (Option ℕ)
unis_module_outputs (a ∷ b ∷ c ∷ d ∷ e ∷ f ∷ g ∷ h ∷ rest) =
    read_outputs unis_out_cnt (dword a b c d) (dword e f g h) rest
unis_module_outputs _ = replicate unis_out_cnt none

-- storeInputsState: the inputs that are stored.
unfoldable pub unis_inputs : List ℕ → ℕ → ℕ
unis_inputs (a ∷ b ∷ c ∷ d ∷ rest) inputs = dword a b c d
unis_inputs _ inputs = inputs

unfoldable pub unis_serialize : UnisConfig → List ℕ
unis_serialize c =
    c.outputs_safe
    ++ (pack_delays c.inputs_delay
        ++ ((c.servo_enabled_mask % 64)
            ∷ (c.servo_position ++ (c.servo_speed ++ c.servo_input_map))))

-- The configuration read from the bytes at `pos` and behind, by the parts that the code reads one
-- after another.
unfoldable pub unis_from_mtb_usb : List ℕ → UnisConfig → UnisConfig
unis_from_mtb_usb bytes c =
    if ltb (length bytes) 61
    then c
    else (let delays = drop unis_out_cnt bytes in
        let mask = drop 8 delays in
        let positions = drop 1 mask in
        let speeds = drop 12 positions in
        let input_map = drop 6 speeds in
        record {
          outputs_safe = take unis_out_cnt bytes;
          inputs_delay = unpack_delays (take 8 delays);
          servo_enabled_mask = get_or mask 0 0;
          servo_position = take 12 positions;
          servo_speed = take 6 speeds;
          servo_input_map = take 6 input_map;
        })
