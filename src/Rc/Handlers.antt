-- ===== src/Rc/Handlers.antt =====
-- src/modules/rc.cpp: the handlers of an RC module: a module with inputs only. What MtbModule does for
-- every class is that of Uni/Upgrade, Uni/Activation and Module, for a kind without outputs and
-- configuration.
use Prim.Native.String.{String}
use mtb_daemon.Base.{
  ℕ, Bool, true, false, not, ◌&&◌, ◌||◌, none, List, [], map, replicate, ltb, if◌then◌else◌,
}
use mtb_daemon.Cmd.{module_get_inputs}
use mtb_daemon.Cmd.Reply.{ModuleInfo, in_bootloader}
use mtb_daemon.Json.{Json, number, array, object, Fields, end, field, to_array}
use mtb_daemon.Daemon.{Outcome, returned}
use mtb_daemon.Uni.{IoKind, IoModule, sent, inputs_event, request_refused, effect, inputs_read}
use mtb_daemon.Uni.Error as IoError
use mtb_daemon.Uni.Setting.{is_some}
use mtb_daemon.Uni.Activation.{got_info}
use mtb_daemon.Uni.Upgrade.{fully_activated}
use mtb_daemon.Module.Info.{base_info, module_type_to_str}
use mtb_daemon.Module.Requests.{base_set_config}
use mtb_daemon.Rc.{rc_in_cnt, store_rc_inputs}

abbrev pub rc_kind : IoKind
rc_kind = record {
  Config = Unit {0};
  Value = Unit {0};
  Inputs = List (List ℕ);
  Content = Unit {0};
  io_cnt = 0;
  off = tt;
  same_value = λ a b. true;
  equal_configs = λ a b. true;
  safe_of = λ c. [];
  new_config = tt;
  serialize = λ kind c. [];
  read_config = λ bytes c. c;
  output_of = λ content. none;
  outputs_data = λ outputs. [];
  outputs_of = λ bytes. [];
  no_inputs = replicate rc_in_cnt [];
  store_inputs = λ bytes inputs. store_rc_inputs bytes;
  page_bytes = λ kind. 128;
}

abbrev pub RcModule : Type 0
RcModule = IoModule rc_kind

-- MtbRc::storeInputsState, into the field.
abbrev stored : List ℕ → RcModule → RcModule
stored bytes s = record s { inputs = store_rc_inputs bytes }

unfoldable pub rc_inputs_json : List (List ℕ) → Json
rc_inputs_json inputs = object (
    field "ports" (array (to_array (map (λ addrs. array (to_array (map number addrs))) inputs)))
      end)

unfoldable pub rc_module_info : (ℕ → String) → Bool → RcModule → Fields
rc_module_info show state s =
    let rc =
      if (state && s.active) && not (in_bootloader s.bus_module_info)
      then field "state" (object (field "inputs" (rc_inputs_json s.inputs) end)) end
      else end in
    field (module_type_to_str s.kind) (object rc) (base_info show false s)

unfoldable pub rc_json_set_config : ℕ → Fields → RcModule → Outcome RcModule
rc_json_set_config socket request s =
    if is_some s.fw_upgrading
    then returned (effect (request_refused socket request IoError.upgrading_fw) s)
    else if in_bootloader s.bus_module_info
    then returned (effect (request_refused socket request IoError.in_bootloader_error) s)
    else base_set_config request s

unfoldable pub rc_json_upgrade_fw : ℕ → Fields → RcModule → Outcome RcModule
rc_json_upgrade_fw socket request s =
    let code =
      if is_some s.fw_upgrading then IoError.upgrading_fw else IoError.unsupported_command in
    returned (effect (request_refused socket request code) s)

unfoldable pub rc_activate : RcModule → RcModule
rc_activate s =
    effect (sent (module_get_inputs s.address) inputs_read) (record s { activating = true })

-- In the bootloader: active at once.
unfoldable pub rc_mtb_bus_activate : ModuleInfo → RcModule → RcModule
rc_mtb_bus_activate info s =
    let known = got_info info s in
    if in_bootloader info then record known { active = true } else rc_activate known

unfoldable pub rc_inputs_were_read : List ℕ → RcModule → RcModule
rc_inputs_were_read bytes s = fully_activated (stored bytes s)

unfoldable pub rc_mtb_bus_inputs_changed : List ℕ → RcModule → RcModule
rc_mtb_bus_inputs_changed bytes s =
    if s.active || s.activating
    then (let told = stored bytes s in effect (inputs_event told.inputs) told)
    else s

unfoldable pub rc_mtb_usb_disconnected : RcModule → RcModule
rc_mtb_usb_disconnected s = record s { active = false; inputs = replicate rc_in_cnt [] }

unfoldable pub rc_reactivate_check : RcModule → RcModule
rc_reactivate_check s =
    if (not s.activating && ltb 0 s.activations_remaining) && not s.active then rc_activate s else s
