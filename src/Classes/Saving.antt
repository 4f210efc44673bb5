-- ===== src/Classes/Saving.antt =====
-- The modules in the configuration file (saveConfig and loadConfig of src/main.cpp and src/modules).
use Prim.Native.String.{◌++◌}
use mtb_daemon.Base.{ℕ, ◌<◌, ◌^◌, ◌≡◌, ap, Option, none, some}
use mtb_daemon.Json.Safe.{safe_uint_at}
use mtb_daemon.Daemon.{Daemon, returned}
use mtb_daemon.Daemon.Files.Reloading.{SavingLaws}
use mtb_daemon.Daemon.Modules.{ModuleClass}
use mtb_daemon.Daemon.Activation.{class_of, new_module}
use mtb_daemon.Led.{LedConfig}
use mtb_daemon.Led.Laws.{IsLedConfig, led_from_json-led_json}
use mtb_daemon.Unis.{UnisConfig}
use mtb_daemon.Unis.Form.Laws.{IsUnisJson, unis_from_json-unis_json}
use mtb_daemon.Uni.{IoKind, IoModule, UniConfig, is_ir_support}
use mtb_daemon.Uni.Kind.{uni_kind}
use mtb_daemon.Led.Kind.{led_kind}
use mtb_daemon.Unis.Kind.{unis_kind}
use mtb_daemon.Uni.Form.Laws.{AreTenths, IsUniJson, uni_from_json-uni_json}
use mtb_daemon.Module.Saving.{
  io_load_config-io_save_config, base_load_config-base_save_config, type_of-io_save_config,
  type_of-base_save_config,
}
use mtb_daemon.Classes.{
  AnyModule, a_uni, a_unis, a_led, a_rc, a_plain, Outside, setup_of, class_ops, new_io, outcome,
}

-- A module whose type is one of its class, and whose configuration is there and as the program keeps
-- it.
abbrev pub IsSaved : AnyModule → Type 0
IsSaved (a_uni m) =
    (class_of m.kind ≡ ModuleClass.uni)
    × (m.kind < 2 ^ 31)
    × ((c : UniConfig) × (m.config ≡ some c) × IsUniJson (is_ir_support m.kind) c)
IsSaved (a_unis m) =
    (class_of m.kind ≡ ModuleClass.unis)
    × (m.kind < 2 ^ 31)
    × ((c : UnisConfig) × (m.config ≡ some c) × IsUnisJson c)
IsSaved (a_led m) =
    (class_of m.kind ≡ ModuleClass.led)
    × (m.kind < 2 ^ 31)
    × ((c : LedConfig) × (m.config ≡ some c) × IsLedConfig c)
IsSaved (a_rc m) = (class_of m.kind ≡ ModuleClass.rc) × (m.kind < 2 ^ 31)
IsSaved (a_plain m) = (class_of m.kind ≡ ModuleClass.plain) × (m.kind < 2 ^ 31)

-- A module as it is after the start: at an address, with the name, the type and the configuration of
-- another one.
abbrev pub fresh : Outside → {k : IoKind} → ℕ → IoModule k → IoModule k
fresh out {k} addr m = record (new_io (λ a. "Module " ++ out.show a) k addr) {
  name = m.name;
  kind = m.kind;
  config = m.config;
}

abbrev pub restored : Outside → ℕ → AnyModule → AnyModule
restored out addr (a_uni m) = a_uni (fresh out addr m)
restored out addr (a_unis m) = a_unis (fresh out addr m)
restored out addr (a_led m) = a_led (fresh out addr m)
restored out addr (a_rc m) = a_rc (record (fresh out addr m) { config = none })
restored out addr (a_plain m) = a_plain (record (fresh out addr m) { config = none })

-- The modules after the start.
abbrev pub restored_modules : Outside → (ℕ → Option AnyModule) → ℕ → Option AnyModule
restored_modules out ms a = elim (ms a) [ none ↦ none | some m ↦ some (restored out a m) ]

-- What a module writes is read back by a new module of the type that is written, where ten times the
-- tenth of a delay is the delay.
read_back :
    (out : Outside) (addr : ℕ) (m : AnyModule)
    → AreTenths out.tenths out.tenth
    → IsSaved m
    → let ops = class_ops (setup_of out) in
      ops.load_config (ops.save_config m) (ops.create (class_of (ops.module_type m)) addr)
      ≡ returned (restored out addr m)
unfolding new_io
read_back out addr (a_uni m) t (k, b, (c, e, w)) =
    let form = (setup_of out).uni_form in
    let back = uni_from_json-uni_json out.tenths out.tenth (is_ir_support m.kind) c t w in
    rw k (
      ap (outcome a_uni) (
        io_load_config-io_save_config form m (new_io (λ a. "Module " ++ out.show a) uni_kind addr) c
          e b back))
read_back out addr (a_unis m) t (k, b, (c, e, w)) =
    let form = (setup_of out).unis_form in
    let back = unis_from_json-unis_json out.tenths out.tenth c t w in
    rw k (
      ap (outcome a_unis) (
        io_load_config-io_save_config form m (new_io (λ a. "Module " ++ out.show a) unis_kind addr)
          c e b back))
read_back out addr (a_led m) t (k, b, (c, e, w)) =
    let form = (setup_of out).led_form in
    let back = led_from_json-led_json c w in
    rw k (
      ap (outcome a_led) (
        io_load_config-io_save_config form m (new_io (λ a. "Module " ++ out.show a) led_kind addr) c
          e b back))
read_back out addr (a_rc m) t (k, b) =
    rw k (ap (outcome a_rc) (base_load_config-base_save_config m _ b))
read_back out addr (a_plain m) t (k, b) =
    rw k (ap (outcome a_plain) (base_load_config-base_save_config m _ b))

type_written :
    (out : Outside) (m : AnyModule)
    → IsSaved m
    → let ops = class_ops (setup_of out) in
      safe_uint_at (ops.save_config m) "type" ≡ some (ops.module_type m)
type_written out (a_uni m) (k, b, (c, e, w)) =
    type_of-io_save_config (setup_of out).uni_form m c e b
type_written out (a_unis m) (k, b, (c, e, w)) =
    type_of-io_save_config (setup_of out).unis_form m c e b
type_written out (a_led m) (k, b, (c, e, w)) =
    type_of-io_save_config (setup_of out).led_form m c e b
type_written out (a_rc m) (k, b) = type_of-base_save_config m b
type_written out (a_plain m) (k, b) = type_of-base_save_config m b

saving_laws :
    (out : Outside) (t : AreTenths out.tenths out.tenth)
    → SavingLaws AnyModule ⦃ops = class_ops (setup_of out)⦄
unfolding new_module
saving_laws out t = record {
  IsSaved = IsSaved;
  restored = restored out;
  type_written = type_written out;
  read_back = λ addr m h. read_back out addr m t h;
}
