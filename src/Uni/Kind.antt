-- ===== src/Uni/Kind.antt =====
-- src/modules/uni.h, uni.cpp: what is particular to the class MtbUni among the modules with inputs and
-- outputs.
use mtb_daemon.Base.{
  ℕ, Bool, true, false, ◌&&◌, ◌==◌, List, [], ◌∷◌, replicate, leb, length, word, get_or,
  if◌then◌else◌,
}
use mtb_daemon.Uni.{IoKind, IoModule, UniConfig, uni_io_cnt, page_size, is_ir_support}
use mtb_daemon.Uni.Config.{serialize_for_mtb_usb, from_mtb_usb}
use mtb_daemon.Uni.Outputs.{
  OutputType, json_output_to_byte, mtb_bus_outputs_data, module_outputs_data,
}

-- MtbUniConfig's default values.
abbrev pub default_config : UniConfig
default_config = record {
  outputs_safe = replicate uni_io_cnt 0;
  inputs_delay = replicate uni_io_cnt 0;
  irs = 0;
}

unfoldable pub same_list : List ℕ → List ℕ → Bool
same_list [] [] = true
same_list [] (b ∷ bs) = false
same_list (a ∷ rest) [] = false
same_list (a ∷ rest) (b ∷ bs) = a == b && same_list rest bs

-- MtbUniConfig::operator==.
unfoldable pub same_uni_config : UniConfig → UniConfig → Bool
unfolding same_list
same_uni_config b c =
    (same_list b.outputs_safe c.outputs_safe && same_list b.inputs_delay c.inputs_delay)
    && b.irs == c.irs

-- storeInputsState: the inputs that are stored.
unfoldable pub uni_inputs : List ℕ → ℕ → ℕ
uni_inputs bytes inputs =
    if leb 2 (length bytes) then word (get_or bytes 0 0) (get_or bytes 1 0) else inputs

abbrev pub uni_kind : IoKind
uni_kind = record {
  Config = UniConfig;
  Value = ℕ;
  Inputs = ℕ;
  Content = OutputType × ℕ;
  io_cnt = uni_io_cnt;
  off = 0;
  same_value = ◌==◌;
  equal_configs = same_uni_config;
  safe_of = λ c. c.outputs_safe;
  new_config = default_config;
  serialize = λ kind c. serialize_for_mtb_usb c (is_ir_support kind);
  read_config = from_mtb_usb;
  output_of = λ content. json_output_to_byte content.0 content.1;
  outputs_data = mtb_bus_outputs_data;
  outputs_of = module_outputs_data;
  no_inputs = 0;
  store_inputs = uni_inputs;
  page_bytes = page_size;
}

abbrev pub Uni : Type 0
Uni = IoModule uni_kind
