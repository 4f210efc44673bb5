-- ===== src/Classes.antt =====
-- src/modules: the classes of modules together, as main.cpp uses them through MtbModule. A class is a
-- constructor; a virtual function is a function by clauses.
pub mod Laws
pub mod Saving
use Prim.Native.String.{String, ◌++◌}
use mtb_daemon.Base.{ℕ, Bool, true, false, Option, none, some, List, [], replicate}
use mtb_daemon.Cmd.Reply.{ModuleInfo}
use mtb_daemon.Json.{Json, Fields}
use mtb_daemon.Firmware.{Firmware}
use mtb_daemon.Uni.Form.{uni_form}
use mtb_daemon.Unis.Form.{unis_form}
use mtb_daemon.Led.Form.{led_form}
use mtb_daemon.Daemon.{Outcome, returned, threw}
use mtb_daemon.Daemon.Modules.{ModuleOps, ModuleClass}
use mtb_daemon.Uni.{IoKind, IoModule, for_upgrade}
use mtb_daemon.Uni.Kind.{uni_kind}
use mtb_daemon.Uni.Setting.{is_some, reset_outputs_of_client, client_disconnected}
use mtb_daemon.Uni.Setters.{uni_output_setters}
use mtb_daemon.Uni.Upgrade.{mtb_bus_lost}
use mtb_daemon.Uni.Activation.{
  all_outputs_reset, mtb_bus_activate, reactivate_check, mtb_bus_inputs_changed,
  mtb_usb_disconnected, got_info,
}
use mtb_daemon.Led.Kind.{led_kind}
use mtb_daemon.Led.Handlers.{
  led_reset_outputs_of_client, led_output_setters, led_all_outputs_reset, led_mtb_bus_activate,
  led_reactivate_check, led_mtb_bus_inputs_changed, led_mtb_usb_disconnected,
}
use mtb_daemon.Unis.Kind.{unis_kind}
use mtb_daemon.Unis.Handlers.{
  unis_reset_outputs_of_client, unis_output_setters, unis_all_outputs_reset, unis_mtb_bus_activate,
  unis_reactivate_check, unis_mtb_bus_inputs_changed, unis_mtb_usb_disconnected,
}
use mtb_daemon.Common.Texts.{dv_common_to_str, str_to_dv_common}
use mtb_daemon.Rc.Values.{rc_dv_to_str, rc_str_to_dv, rc_dv_repr}
use mtb_daemon.Rc.Handlers.{
  rc_kind, rc_module_info, rc_json_set_config, rc_json_upgrade_fw, rc_mtb_bus_activate,
  rc_inputs_were_read, rc_mtb_bus_inputs_changed, rc_mtb_usb_disconnected, rc_reactivate_check,
}
use mtb_daemon.Module.Info.{base_info, base_load_config, base_save_config}
use mtb_daemon.Module.Values.{mtb_bus_diag_state_changed, dv_repr}
use mtb_daemon.Module.Requests.{Virtuals, json_command, unsupported, base_set_config}
use mtb_daemon.Module.Io.{IoForm, io_virtuals, io_module_info, io_load_config, io_save_config}

-- A module of no known type: MtbModule itself. It has no inputs and no outputs.
abbrev pub plain_kind : IoKind
plain_kind = record rc_kind { Inputs = Unit {0}; no_inputs = tt; store_inputs = λ bytes inputs. tt }

pub data AnyModule : Type 0 where
  a_uni : IoModule uni_kind → AnyModule
  a_unis : IoModule unis_kind → AnyModule
  a_led : IoModule led_kind → AnyModule
  a_rc : IoModule rc_kind → AnyModule
  a_plain : IoModule plain_kind → AnyModule

-- What the classes take from outside: the JSON forms of three classes, QString::number, the name of a
-- new module, the byte behind the data of `pack`, and at which addresses there is an active module.
pub record Setup : Type 0 where
  pub uni_form : IoForm uni_kind
  pub unis_form : IoForm unis_kind
  pub led_form : IoForm led_kind
  pub show : ℕ → String
  pub beyond : ℕ
  pub active_at : ℕ → Bool

-- The same, by what comes from Qt and from floats: QString::toInt and QString::number, ten times a
-- fraction and a tenth, the reading of firmware, and dvRepr of universal modules.
pub record Outside : Type 0 where
  pub to_int : String → Option ℕ
  pub show : ℕ → String
  pub tenths : ℕ → Option ℕ
  pub tenth : ℕ → Json
  pub firmware_of : Fields → Option Firmware
  pub uni_repr : IoModule uni_kind → ℕ → List ℕ → Fields
  pub unis_repr : IoModule unis_kind → ℕ → List ℕ → Fields
  pub beyond : ℕ
  pub active_at : ℕ → Bool

abbrev pub setup_of : Outside → Setup
setup_of out = record {
  uni_form = uni_form out.to_int out.show out.tenths out.tenth out.firmware_of out.uni_repr;
  unis_form = unis_form out.to_int out.show out.tenths out.tenth out.firmware_of out.unis_repr;
  led_form = led_form out.to_int out.show out.firmware_of out.beyond;
  show = out.show;
  beyond = out.beyond;
  active_at = out.active_at;
}

-- A member of MtbModule that is not virtual, and one that changes the module.
abbrev pub common : {R : Type 0} → ((k : IoKind) → IoModule k → R) → AnyModule → R
common f (a_uni m) = f uni_kind m
common f (a_unis m) = f unis_kind m
common f (a_led m) = f led_kind m
common f (a_rc m) = f rc_kind m
common f (a_plain m) = f plain_kind m

abbrev pub change : ((k : IoKind) → IoModule k → IoModule k) → AnyModule → AnyModule
change f (a_uni m) = a_uni (f uni_kind m)
change f (a_unis m) = a_unis (f unis_kind m)
change f (a_led m) = a_led (f led_kind m)
change f (a_rc m) = a_rc (f rc_kind m)
change f (a_plain m) = a_plain (f plain_kind m)

abbrev pub outcome : {S T : Type 0} → (S → T) → Outcome S → Outcome T
outcome f (returned s) = returned (f s)
outcome f (threw s) = threw (f s)

-- The constructors. The arrays of outputs are not initialised; they are read once the module has been
-- active, or written before.
unfoldable pub new_io : (ℕ → String) → (k : IoKind) → ℕ → IoModule k
new_io name k addr = record {
  address = addr;
  name = name addr;
  kind = 0;
  active = false;
  activating = false;
  activations_remaining = 0;
  bus_module_info = record {
    kind = 0;
    bootloader_int = false;
    bootloader_unint = false;
    error = false;
    warning = false;
    fw_major = 0;
    fw_minor = 0;
    proto_major = 0;
    proto_minor = 0;
    bootloader_major = 0;
    bootloader_minor = 0;
  };
  config_writing = none;
  rebooting = false;
  reboot_for = for_upgrade;
  activated_by_mtb_usb = false;
  beacon = false;
  fw_upgrading = none;
  data_ = [];
  to_write = [];
  config = none;
  config_to_write = none;
  inputs = k.no_inputs;
  outputs_want = replicate k.io_cnt k.off;
  outputs_confirmed = replicate k.io_cnt none;
  who_set_output = replicate k.io_cnt none;
  set_outputs_waiting = [];
  set_outputs_sent = [];
  effects = [];
}

abbrev pub create_module : (ℕ → String) → ModuleClass → ℕ → AnyModule
create_module name ModuleClass.uni addr = a_uni (new_io name uni_kind addr)
create_module name ModuleClass.unis addr = a_unis (new_io name unis_kind addr)
create_module name ModuleClass.rc addr = a_rc (new_io name rc_kind addr)
create_module name ModuleClass.led addr = a_led (new_io name led_kind addr)
create_module name ModuleClass.plain addr = a_plain (new_io name plain_kind addr)

abbrev pub rc_virtuals : Setup → Virtuals rc_kind
rc_virtuals setup = record {
  set_output = unsupported;
  set_config = rc_json_set_config;
  upgrade_fw = rc_json_upgrade_fw;
  str_to_dv = rc_str_to_dv;
  dv_to_str = rc_dv_to_str;
  repr_of =
      λ s dv bytes. rc_dv_repr setup.beyond dv bytes (dv_repr setup.show setup.beyond dv bytes);
  activated = rc_mtb_bus_activate;
  read_inputs = rc_inputs_were_read;
}

abbrev pub plain_virtuals : Setup → Virtuals plain_kind
plain_virtuals setup = record {
  set_output = unsupported;
  set_config = λ socket. base_set_config;
  upgrade_fw = unsupported;
  str_to_dv = str_to_dv_common;
  dv_to_str = dv_common_to_str;
  repr_of = λ s. dv_repr setup.show setup.beyond;
  activated = got_info;
  read_inputs = λ bytes s. s;
}

abbrev any_activate : ModuleInfo → AnyModule → AnyModule
any_activate info (a_uni m) = a_uni (mtb_bus_activate info m)
any_activate info (a_unis m) = a_unis (unis_mtb_bus_activate info m)
any_activate info (a_led m) = a_led (led_mtb_bus_activate info m)
any_activate info (a_rc m) = a_rc (rc_mtb_bus_activate info m)
any_activate info (a_plain m) = a_plain (got_info info m)

abbrev any_disconnected : AnyModule → AnyModule
any_disconnected (a_uni m) = a_uni (mtb_usb_disconnected m)
any_disconnected (a_unis m) = a_unis (unis_mtb_usb_disconnected m)
any_disconnected (a_led m) = a_led (led_mtb_usb_disconnected m)
any_disconnected (a_rc m) = a_rc (rc_mtb_usb_disconnected m)
any_disconnected (a_plain m) = a_plain (record m { active = false })

abbrev any_inputs_changed : List ℕ → AnyModule → AnyModule
any_inputs_changed bytes (a_uni m) = a_uni (mtb_bus_inputs_changed bytes m)
any_inputs_changed bytes (a_unis m) = a_unis (unis_mtb_bus_inputs_changed bytes m)
any_inputs_changed bytes (a_led m) = a_led (led_mtb_bus_inputs_changed bytes m)
any_inputs_changed bytes (a_rc m) = a_rc (rc_mtb_bus_inputs_changed bytes m)
any_inputs_changed bytes (a_plain m) = a_plain m

abbrev any_reactivate : AnyModule → AnyModule
any_reactivate (a_uni m) = a_uni (reactivate_check m)
any_reactivate (a_unis m) = a_unis (unis_reactivate_check m)
any_reactivate (a_led m) = a_led (led_reactivate_check m)
any_reactivate (a_rc m) = a_rc (rc_reactivate_check m)
any_reactivate (a_plain m) = a_plain m

-- RC modules and modules of no known type have the functions of MtbModule.
abbrev pub any_output_setters : AnyModule → List ℕ
any_output_setters (a_uni m) = uni_output_setters m
any_output_setters (a_unis m) = unis_output_setters m
any_output_setters (a_led m) = led_output_setters m
any_output_setters (a_rc m) = []
any_output_setters (a_plain m) = []

abbrev pub any_reset_of_client : ℕ → AnyModule → AnyModule
any_reset_of_client c (a_uni m) = a_uni (reset_outputs_of_client c m)
any_reset_of_client c (a_unis m) = a_unis (unis_reset_outputs_of_client c m)
any_reset_of_client c (a_led m) = a_led (led_reset_outputs_of_client c m)
any_reset_of_client c (a_rc m) = a_rc m
any_reset_of_client c (a_plain m) = a_plain m

abbrev pub any_all_outputs_reset : AnyModule → AnyModule
any_all_outputs_reset (a_uni m) = a_uni (all_outputs_reset m)
any_all_outputs_reset (a_unis m) = a_unis (unis_all_outputs_reset m)
any_all_outputs_reset (a_led m) = a_led (led_all_outputs_reset m)
any_all_outputs_reset (a_rc m) = a_rc m
any_all_outputs_reset (a_plain m) = a_plain m

module _ (setup : Setup) where
  abbrev any_info : Bool → AnyModule → Fields
  any_info state (a_uni m) = io_module_info setup.uni_form state true m
  any_info state (a_unis m) = io_module_info setup.unis_form state true m
  any_info state (a_led m) = io_module_info setup.led_form state true m
  any_info state (a_rc m) = rc_module_info setup.show state m
  any_info state (a_plain m) = base_info setup.show false m

  abbrev any_command : ℕ → Fields → Bool → AnyModule → Outcome AnyModule
  any_command c r w (a_uni m) =
      outcome a_uni (json_command (io_virtuals setup.uni_form) setup.active_at c r w m)
  any_command c r w (a_unis m) =
      outcome a_unis (json_command (io_virtuals setup.unis_form) setup.active_at c r w m)
  any_command c r w (a_led m) =
      outcome a_led (json_command (io_virtuals setup.led_form) setup.active_at c r w m)
  any_command c r w (a_rc m) =
      outcome a_rc (json_command (rc_virtuals setup) setup.active_at c r w m)
  any_command c r w (a_plain m) =
      outcome a_plain (json_command (plain_virtuals setup) setup.active_at c r w m)

  abbrev any_set_config : ℕ → Fields → AnyModule → Outcome AnyModule
  any_set_config c r (a_uni m) = outcome a_uni ((io_virtuals setup.uni_form).set_config c r m)
  any_set_config c r (a_unis m) = outcome a_unis ((io_virtuals setup.unis_form).set_config c r m)
  any_set_config c r (a_led m) = outcome a_led ((io_virtuals setup.led_form).set_config c r m)
  any_set_config c r (a_rc m) = outcome a_rc (rc_json_set_config c r m)
  any_set_config c r (a_plain m) = outcome a_plain (base_set_config r m)

  abbrev any_save : AnyModule → Fields
  any_save (a_uni m) = io_save_config setup.uni_form m
  any_save (a_unis m) = io_save_config setup.unis_form m
  any_save (a_led m) = io_save_config setup.led_form m
  any_save (a_rc m) = base_save_config m
  any_save (a_plain m) = base_save_config m

  abbrev any_load : Fields → AnyModule → Outcome AnyModule
  any_load json (a_uni m) = outcome a_uni (io_load_config setup.uni_form json m)
  any_load json (a_unis m) = outcome a_unis (io_load_config setup.unis_form json m)
  any_load json (a_led m) = outcome a_led (io_load_config setup.led_form json m)
  any_load json (a_rc m) = outcome a_rc (base_load_config json m)
  any_load json (a_plain m) = outcome a_plain (base_load_config json m)

  -- Every class behind the interface of the daemon.
  abbrev pub class_ops : ModuleOps AnyModule
  class_ops = record {
    create = create_module (λ addr. "Module " ++ setup.show addr);
    module_type = common (λ k m. m.kind);
    is_active = common (λ k m. m.active);
    is_activating = common (λ k m. m.activating);
    is_rebooting = common (λ k m. m.rebooting);
    is_firmware_upgrading = common (λ k m. is_some m.fw_upgrading);
    module_info = any_info;
    mtb_bus_activate = any_activate;
    mtb_bus_lost = change (λ k m. mtb_bus_lost m);
    mtb_usb_disconnected = any_disconnected;
    inputs_changed = any_inputs_changed;
    diag_state_changed = λ bytes. change (λ k m. mtb_bus_diag_state_changed bytes m);
    reactivate_check = any_reactivate;
    json_command = any_command;
    json_set_config = any_set_config;
    output_setters = any_output_setters;
    reset_outputs_of_client = any_reset_of_client;
    all_outputs_reset = any_all_outputs_reset;
    client_disconnected = λ c. change (λ k m. client_disconnected c m);
    save_config = any_save;
    load_config = any_load;
  }
