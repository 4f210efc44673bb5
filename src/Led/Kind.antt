-- ===== src/Led/Kind.antt =====
-- src/modules/led.h, led.cpp: what is particular to the class MtbLed among the modules with inputs and
-- outputs. An output is a Boolean.
use mtb_daemon.Base.{ℕ, Bool, true, false, ◌&&◌, not, some, List, [], ◌∷◌, replicate, map}
use mtb_daemon.Uni.{IoKind, IoModule}
use mtb_daemon.Uni.Kind.{same_list}
use mtb_daemon.Led.{
  LedConfig, led_io_cnt, led_serialize, led_from_mtb_usb, io_to_mtb, mtb_data_to_io,
}

abbrev same_bool : Bool → Bool → Bool
same_bool true b = b
same_bool false b = not b

unfoldable pub same_bools : List Bool → List Bool → Bool
same_bools [] [] = true
same_bools [] (b ∷ bs) = false
same_bools (a ∷ rest) [] = false
same_bools (a ∷ rest) (b ∷ bs) = same_bool a b && same_bools rest bs

-- MtbLedConfig::operator== and the default values: only the first brightness is 100.
unfoldable pub same_led_config : LedConfig → LedConfig → Bool
unfolding same_list same_bools
same_led_config b c =
    same_bools b.outputs_safe c.outputs_safe && same_list b.brightness c.brightness

abbrev pub led_default_config : LedConfig
led_default_config = record {
  outputs_safe = replicate led_io_cnt false;
  brightness = 100 ∷ replicate 31 0;
}

-- PAGE_SIZE.
abbrev pub led_page_size : ℕ
led_page_size = 128

abbrev pub led_kind : IoKind
led_kind = record {
  Config = LedConfig;
  Value = Bool;
  Inputs = List Bool;
  Content = Bool;
  io_cnt = led_io_cnt;
  off = false;
  same_value = same_bool;
  equal_configs = same_led_config;
  safe_of = λ c. c.outputs_safe;
  new_config = led_default_config;
  serialize = λ kind c. led_serialize c;
  read_config = led_from_mtb_usb;
  output_of = some;
  outputs_data = io_to_mtb;
  outputs_of = λ bytes. map some (mtb_data_to_io bytes);
  no_inputs = replicate led_io_cnt false;
  store_inputs = λ bytes inputs. mtb_data_to_io bytes;
  page_bytes = λ kind. led_page_size;
}

abbrev pub LedModule : Type 0
LedModule = IoModule led_kind
