-- ===== src/Unis/Kind.antt =====
-- src/modules/unis.h, unis.cpp: what is particular to the class MtbUnis among the modules with inputs
-- and outputs. Its values of outputs in JSON are those of Uni/Outputs.
use mtb_daemon.Base.{ℕ, Bool, ◌&&◌, ◌==◌, Option, [], ◌∷◌, replicate}
use mtb_daemon.Uni.{IoKind, IoModule}
use mtb_daemon.Uni.Kind.{same_list}
use mtb_daemon.Uni.Outputs.{
  OutputType, json_output_to_byte, output_to_json, flick_per_min_to_mtb_uni_value,
  flick_mtb_uni_to_per_min,
}
use mtb_daemon.Unis.{
  UnisConfig, unis_out_cnt, unis_serialize, unis_from_mtb_usb, unis_outputs_data,
  unis_module_outputs, unis_inputs,
}

-- UNIS_PAGE_SIZE.
abbrev pub unis_page_size : ℕ
unis_page_size = 256

-- The values of outputs in JSON; the functions of MtbUnis have the text of those of MtbUni.
unfoldable pub unis_flick_value : ℕ → ℕ
unis_flick_value = flick_per_min_to_mtb_uni_value

unfoldable pub unis_flick_per_min : ℕ → ℕ
unis_flick_per_min = flick_mtb_uni_to_per_min

unfoldable pub unis_json_output_to_byte : OutputType → ℕ → Option ℕ
unis_json_output_to_byte = json_output_to_byte

unfoldable pub unis_output_to_json : ℕ → OutputType × ℕ
unis_output_to_json = output_to_json

-- MtbUnisConfig::operator==.
unfoldable pub same_unis_config : UnisConfig → UnisConfig → Bool
unfolding same_list
same_unis_config b c =
    (same_list b.outputs_safe c.outputs_safe
      && (same_list b.inputs_delay c.inputs_delay && b.servo_enabled_mask == c.servo_enabled_mask))
    && (same_list b.servo_position c.servo_position
        && (same_list b.servo_speed c.servo_speed && same_list b.servo_input_map c.servo_input_map))

-- The default values: only the first speed is 100.
abbrev pub unis_default_config : UnisConfig
unis_default_config = record {
  outputs_safe = replicate unis_out_cnt 0;
  inputs_delay = replicate 16 0;
  servo_enabled_mask = 0;
  servo_position = 50 ∷ 100 ∷ 50 ∷ 100 ∷ 50 ∷ 100 ∷ 50 ∷ 100 ∷ 50 ∷ 100 ∷ 50 ∷ 100 ∷ [];
  servo_speed = 100 ∷ replicate 5 0;
  servo_input_map = 1 ∷ 3 ∷ 5 ∷ 7 ∷ 9 ∷ 11 ∷ [];
}

abbrev pub unis_kind : IoKind
unis_kind = record {
  Config = UnisConfig;
  Value = ℕ;
  Inputs = ℕ;
  Content = OutputType × ℕ;
  io_cnt = unis_out_cnt;
  off = 0;
  same_value = ◌==◌;
  equal_configs = same_unis_config;
  safe_of = λ c. c.outputs_safe;
  new_config = unis_default_config;
  serialize = λ kind c. unis_serialize c;
  read_config = unis_from_mtb_usb;
  output_of = λ content. unis_json_output_to_byte content.0 content.1;
  outputs_data = unis_outputs_data;
  outputs_of = unis_module_outputs;
  no_inputs = 0;
  store_inputs = unis_inputs;
  page_bytes = λ kind. unis_page_size;
}

abbrev pub UnisModule : Type 0
UnisModule = IoModule unis_kind
