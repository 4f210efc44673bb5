-- ===== src/Tests/Kinds.antt =====
-- Configurations, outputs and inputs of LED, servo and RC modules, and a run of the production log.
use mtb_daemon.Base.{
  ℕ, zero, suc, All, IsByte, ◌+◌, ◌*◌, ◌≡◌, refl, true, false, none, some, List, [], ◌∷◌, ◌++◌, map,
  get_or, replicate, arith,
}
use mtb_daemon.Server.{member}
use mtb_daemon.Uni.Outputs.Laws.{as_set}
use mtb_daemon.Uni.Config.Laws.{AreDelays}
use mtb_daemon.Led.{LedConfig, led_from_mtb_usb, led_serialize, led_from_json, led_json}
use mtb_daemon.Led.Laws.{IsLedConfig, led_from_mtb_usb-led_serialize, led_from_json-led_json}
use mtb_daemon.Unis.{
  UnisConfig, unis_from_mtb_usb, unis_serialize, unis_module_outputs, unis_outputs_data,
}
use mtb_daemon.Unis.Laws.{
  IsUnisConfig, unis_from_mtb_usb-unis_serialize, unis_module_outputs-unis_outputs_data,
}
use mtb_daemon.Rc.{store_rc_inputs, store_pairs, input_of, insert, addr_of}
use mtb_daemon.Rc.Laws.{tells, store_rc_inputs-tells, IsAscending}
use mtb_daemon.Logging.{LogRecord, Logger, remember, prod_log}
use mtb_daemon.Logging.Laws.{Closes, log_all, prod_log-Closes}
use mtb_daemon.Utils.{pack, pack_reverse, pack_bytes}

abbrev led_config : LedConfig
led_config = record {
  outputs_safe = true ∷ false ∷ true ∷ replicate 29 false;
  brightness = 100 ∷ replicate 31 0;
}

abbrev default_led : LedConfig
default_led = record { outputs_safe = replicate 32 false; brightness = replicate 32 0 }

replicate-IsByte : (n : ℕ) → All IsByte (replicate n 0)
replicate-IsByte zero = tt
replicate-IsByte (suc n) = (omega arith, replicate-IsByte n)

led_config-IsLedConfig : IsLedConfig led_config
led_config-IsLedConfig = record {
  outputs = refl;
  values = refl;
  bytes = (omega arith, replicate-IsByte 31);
}

led_from_mtb_usb-led_serialize_example :
    led_from_mtb_usb (led_serialize led_config) default_led ≡ led_config
led_from_mtb_usb-led_serialize_example =
    led_from_mtb_usb-led_serialize led_config default_led led_config-IsLedConfig

led_from_json-led_json_example : led_from_json (led_json led_config) ≡ some led_config
led_from_json-led_json_example = led_from_json-led_json led_config led_config-IsLedConfig

abbrev unis_config : UnisConfig
unis_config = record {
  outputs_safe = 1 ∷ 0xC2 ∷ replicate 26 0;
  inputs_delay = 3 ∷ 15 ∷ replicate 14 0;
  servo_enabled_mask = 0x21;
  servo_position = 50 ∷ 100 ∷ replicate 10 0;
  servo_speed = 100 ∷ replicate 5 0;
  servo_input_map = 1 ∷ 3 ∷ 5 ∷ 7 ∷ 9 ∷ 11 ∷ [];
}

blank_delays : (n : ℕ) → AreDelays n (replicate (n + n) 0)
blank_delays zero = refl
blank_delays (suc n) =
    let twice : suc n + suc n ≡ suc (suc (n + n)) = omega arith in
    rw twice (omega arith, omega arith, blank_delays n)

unis_config-IsUnisConfig : IsUnisConfig unis_config
unis_config-IsUnisConfig = record {
  outputs = refl;
  delays = (omega arith, omega arith, blank_delays 7);
  mask = omega arith;
  positions = refl;
  speeds = refl;
  input_map = refl;
}

unis_from_mtb_usb-unis_serialize_example :
    unis_from_mtb_usb (unis_serialize unis_config) unis_config ≡ unis_config
unis_from_mtb_usb-unis_serialize_example =
    unis_from_mtb_usb-unis_serialize unis_config unis_config unis_config-IsUnisConfig

-- Servo outputs, a signal and plain outputs.
abbrev wanted : List ℕ
wanted = 1 ∷ 0x85 ∷ replicate 25 0 ++ 1 ∷ []

unis_module_outputs-unis_outputs_data_example :
    unis_module_outputs (unis_outputs_data wanted) ≡ map (λ o. some (as_set o)) wanted
unis_module_outputs-unis_outputs_data_example = unis_module_outputs-unis_outputs_data wanted refl

-- Addresses 3 and 260 at input 2.
abbrev rc_bytes : List ℕ
rc_bytes = 0x41 ∷ 4 ∷ 0x40 ∷ 3 ∷ 0x41 ∷ 4 ∷ []

store_rc_inputs-tells_example :
    (member 260 (get_or (store_rc_inputs rc_bytes) 2 []) ≡ tells rc_bytes 2 260)
    × IsAscending (get_or (store_rc_inputs rc_bytes) 2 [])
store_rc_inputs-tells_example = store_rc_inputs-tells rc_bytes 2 260 (omega arith)

test_store : store_rc_inputs rc_bytes ≡ [] ∷ [] ∷ (3 ∷ 260 ∷ []) ∷ [] ∷ [] ∷ [] ∷ [] ∷ [] ∷ []
unfolding store_rc_inputs store_pairs input_of insert addr_of
test_store = refl

pack_bytes_example :
    (pack 0xFF (4 ∷ 3 ∷ 2 ∷ 1 ∷ []) ≡ some (4 + 256 * (3 + 256 * (2 + 256 * 1))))
    × (pack_reverse (1 ∷ 2 ∷ 3 ∷ 4 ∷ []) ≡ some (4 + 256 * (3 + 256 * (2 + 256 * 1))))
pack_bytes_example =
    pack_bytes 0xFF 4 3 2 1 (omega arith) (omega arith) (omega arith) (omega arith) (omega arith)

-- A history of two records, of which a third calls for a file with one more.
abbrev info : LogRecord
info = record { message = "info"; loglevel = 3 }

abbrev warning : LogRecord
warning = record { message = "warning"; loglevel = 2 }

abbrev logger : Logger
logger = record {
  loglevel = 3;
  enabled = true;
  terminal = [];
  prod_level = 5;
  history = 2;
  future = 1;
  detect_level = 2;
  remaining = 0;
  file = none;
  log_history = info ∷ info ∷ [];
  closed = [];
  undefined = false;
}

prod_log-Closes_example :
    Closes
      ((remember warning logger).log_history ++ info ∷ [])
      logger
      (log_all (info ∷ []) (prod_log true warning logger))
prod_log-Closes_example =
    prod_log-Closes warning (info ∷ []) logger (omega arith) (omega arith) refl refl (omega arith)
      (omega arith) ((omega arith, omega arith), tt) refl
