-- ===== src/Module/Io.antt =====
-- src/modules/uni.cpp, unis.cpp, led.cpp: the parts of MtbUni, MtbUnis and MtbLed that read and write
-- JSON, and the virtual functions of these classes.
use Prim.Native.String.{String}
use mtb_daemon.Base.{ℕ, Bool, true, false, not, ◌&&◌, Option, none, some, List, if◌then◌else◌}
use mtb_daemon.Cmd.Reply.{ModuleInfo, in_bootloader}
use mtb_daemon.Common.Texts.{dv_common_to_str, str_to_dv_common}
use mtb_daemon.Firmware.{Firmware}
use mtb_daemon.Json.{Json, object, Fields, end, field}
use mtb_daemon.Json.Safe.{safe_object_at}
use mtb_daemon.Daemon.{Outcome, returned, threw}
use mtb_daemon.Uni.{IoKind, IoModule}
use mtb_daemon.Uni.Activation.{mtb_bus_activate, inputs_were_read}
use mtb_daemon.Module.Info.{base_info, module_type_to_str, base_load_config, base_save_config}
use mtb_daemon.Module.Requests.{Virtuals, io_set_output, io_set_config, io_upgrade_fw}

-- The forms that a class gives its values in JSON, and what it takes of Qt: `to_int` is
-- QString::toInt, `show` QString::number. `config_json` has the module's type and whether it is for
-- the file; `head_json` begins the object of the class, `state_json` is its "state".
pub record IoForm (k : IoKind) : Type 0 where
  pub to_int : String → Option ℕ
  pub show : ℕ → String
  pub content_of : Json → Option k.Content
  pub config_of : Fields → Option k.Config
  pub firmware_of : Fields → Option Firmware
  pub config_json : ℕ → Bool → k.Config → Fields
  pub head_json : ℕ → Fields → Fields
  pub state_json : List (Option k.Value) → k.Inputs → Fields
  pub deprecated : ℕ → ModuleInfo → Bool
  pub dv_form : IoModule k → ℕ → List ℕ → Fields

abbrev config_field : Option Fields → Fields → Fields
config_field none rest = rest
config_field (some config) rest = field "config" (object config) rest

module _ {k : IoKind} where
  -- A module with outputs, by its class.
  abbrev pub io_virtuals : IoForm k → Virtuals k
  io_virtuals form = record {
    set_output = io_set_output form.to_int form.content_of;
    set_config = io_set_config form.config_of;
    upgrade_fw = io_upgrade_fw form.firmware_of;
    str_to_dv = str_to_dv_common;
    dv_to_str = dv_common_to_str;
    repr_of = form.dv_form;
    activated = mtb_bus_activate;
    read_inputs = inputs_were_read;
  }

  abbrev config_fields : IoForm k → Bool → IoModule k → Option Fields
  config_fields form file s = elim s.config [
    | none ↦ none
    | some c ↦ some (form.config_json s.kind file c)
  ]

  unfoldable pub io_module_info : IoForm k → Bool → Bool → IoModule k → Fields
  io_module_info form state config s =
      let told =
        if (state && s.active) && not (in_bootloader s.bus_module_info)
        then field "state" (object (form.state_json s.outputs_confirmed s.inputs)) end
        else end in
      let own =
        form.head_json s.kind
          (if config then config_field (config_fields form false s) told else told) in
      field (module_type_to_str s.kind) (object own)
        (base_info form.show (form.deprecated s.kind s.bus_module_info) s)

  -- The configuration in the file, behind what MtbModule reads of it.
  abbrev load_then : IoForm k → Fields → Outcome (IoModule k) → Outcome (IoModule k)
  load_then form json (threw s) = threw s
  load_then form json (returned s) = elim (safe_object_at json "config") [
    | none ↦ threw s
    | some fs ↦ elim (form.config_of fs) [
      | none ↦ threw s
      | some c ↦ returned (record s { config = some c })
    ]
  ]

  unfoldable pub io_load_config : IoForm k → Fields → IoModule k → Outcome (IoModule k)
  io_load_config form json s = load_then form json (base_load_config json s)

  unfoldable pub io_save_config : IoForm k → IoModule k → Fields
  io_save_config form s = config_field (config_fields form true s) (base_save_config s)
