-- ===== src/Module/Requests.antt =====
-- src/modules/module.cpp: the requests of clients that a module handles (jsonCommand). `threw` is a
-- JsonParseError.
use Prim.Native.String.{String}
use text.Mathlib.Text.{◌==◌ as str_eq}
use mtb_daemon.Base.{ℕ, ◌%◌, Bool, not, ◌||◌, Option, none, some, List, [], ◌∷◌, map, if◌then◌else◌}
use mtb_daemon.Json.{
  Json, bool, number, string, array, object, Fields, end, field, get, contains, to_array, to_object,
  to_string, to_size,
}
use mtb_daemon.Json.Safe.{safe_object_at, safe_uint_at, safe_string_at, safe_bool_at}
use mtb_daemon.Cmd.{module_change_addr, module_specific, module_beacon, module_get_diag_value}
use mtb_daemon.Cmd.Reply.{ModuleInfo, in_bootloader}
use mtb_daemon.Common.{is_valid_module_address}
use mtb_daemon.Firmware.{Firmware}
use mtb_daemon.Server.{json_ok_response, cmd_error_code}
use mtb_daemon.Server.Error
use mtb_daemon.Daemon.{Outcome, returned, threw}
use mtb_daemon.Daemon.Requests.{specific_data}
use mtb_daemon.Uni.{
  IoKind, IoModule, ServerRequest, sent, told, request_refused, effect, address_changed, diag_got,
  specific_got, beacon_set,
}
use mtb_daemon.Uni.Error as IoError
use mtb_daemon.Uni.Setting.{Entry, is_some, json_set_output, json_set_config, json_upgrade_fw}
use mtb_daemon.Uni.Upgrade.{json_reboot}
use mtb_daemon.Module.Values.{note_diag_value}

-- ServerRequest(socket, request).
unfoldable pub server_request : ℕ → Fields → ServerRequest
server_request socket request = record {
  socket = some socket;
  request_id = if contains request "id" then some (to_size (get request "id")) else none;
}

-- The entries of "outputs" in the order of the object's keys; `to_int` is QString::toInt (none: no
-- number, or a negative one), `content_of` reads what is to be set.
unfoldable pub entries_of :
    (k : IoKind) → (String → Option ℕ) → (Json → Option k.Content) → Fields → List (Entry k)
entries_of k to_int content_of end = []
entries_of k to_int content_of (field key v fs) =
    (to_int key, content_of v) ∷ entries_of k to_int content_of fs

-- The configuration of a request, the default one where it holds none.
unfoldable pub requested_config :
    (k : IoKind) → (Fields → Option k.Config) → Fields → Option k.Config
requested_config k config_of request =
    if contains request "config"
    then elim (safe_object_at request "config") [ none ↦ none | some fs ↦ config_of fs ]
    else some k.new_config

unfoldable pub requested_firmware : (Fields → Option Firmware) → Fields → Option Firmware
requested_firmware firmware_of request = elim (safe_object_at request "firmware") [
  | none ↦ none
  | some fs ↦ firmware_of fs
]

-- The virtual functions that a class gives: jsonSetOutput, jsonSetConfig and jsonUpgradeFw; StrToDV,
-- DVToStr and dvRepr; mtbBusActivate and inputsRead.
pub record Virtuals (k : IoKind) : Type 0 where
  pub set_output : ℕ → Fields → IoModule k → Outcome (IoModule k)
  pub set_config : ℕ → Fields → IoModule k → Outcome (IoModule k)
  pub upgrade_fw : ℕ → Fields → IoModule k → Outcome (IoModule k)
  pub str_to_dv : String → Option ℕ
  pub dv_to_str : ℕ → String
  pub repr_of : IoModule k → ℕ → List ℕ → Fields
  pub activated : ModuleInfo → IoModule k → IoModule k
  pub read_inputs : List ℕ → IoModule k → IoModule k

module _ {k : IoKind} where
  abbrev refuse : ℕ → Fields → ℕ → IoModule k → Outcome (IoModule k)
  refuse socket request code s = returned (effect (request_refused socket request code) s)

  -- MtbModule::jsonSetOutput and jsonUpgradeFw.
  unfoldable pub unsupported : ℕ → Fields → IoModule k → Outcome (IoModule k)
  unsupported socket request s = refuse socket request IoError.unsupported_command s

  -- MtbModule::jsonSetConfig.
  unfoldable pub set_name : Fields → IoModule k → Outcome (IoModule k)
  set_name request s =
      if contains request "name"
      then elim (safe_string_at request "name") [
        | none ↦ threw s
        | some name ↦ returned (record s { name = name })
      ]
      else returned s

  unfoldable pub base_set_config : Fields → IoModule k → Outcome (IoModule k)
  base_set_config request s =
      if contains request "type_code"
      then elim (safe_uint_at request "type_code") [
        | none ↦ threw s
        | some kind ↦ set_name request (record s { kind = kind })
      ]
      else set_name request s

  -- jsonSetOutput of a module with outputs: the request is read once nothing speaks against it.
  unfoldable pub io_set_output :
      (String → Option ℕ)
      → (Json → Option k.Content)
      → ℕ
      → Fields
      → IoModule k
      → Outcome (IoModule k)
  io_set_output to_int content_of socket request s =
      let r = server_request socket request in
      if (not s.active || is_some s.fw_upgrading)
        || (in_bootloader s.bus_module_info || is_some s.config_writing)
      then returned (json_set_output r [] s)
      else elim (safe_object_at request "outputs") [
        | none ↦ threw s
        | some fs ↦ returned (json_set_output r (entries_of k to_int content_of fs) s)
      ]

  -- What jsonSetConfig goes on with once the configuration is read.
  abbrev set_config_then : ServerRequest → k.Config → Outcome (IoModule k) → Outcome (IoModule k)
  set_config_then r new (threw s) = threw s
  set_config_then r new (returned s) = returned (json_set_config r none new s)

  unfoldable pub io_set_config :
      (Fields → Option k.Config) → ℕ → Fields → IoModule k → Outcome (IoModule k)
  io_set_config config_of socket request s =
      let r = server_request socket request in
      if is_some s.config_writing || (is_some s.fw_upgrading || in_bootloader s.bus_module_info)
      then returned (json_set_config r none k.new_config s)
      else elim (requested_config k config_of request) [
        | none ↦ threw s
        | some new ↦ set_config_then r new (base_set_config request s)
      ]

  unfoldable pub io_upgrade_fw :
      (Fields → Option Firmware) → ℕ → Fields → IoModule k → Outcome (IoModule k)
  io_upgrade_fw firmware_of socket request s =
      let r = server_request socket request in
      if is_some s.fw_upgrading
      then returned (json_upgrade_fw r none s)
      else elim (requested_firmware firmware_of request) [
        | none ↦ threw (json_upgrade_fw r none s)
        | some firmware ↦ returned (json_upgrade_fw r (some firmware) s)
      ]

  -- `active_at` tells whether there is an active module at an address.
  unfoldable pub json_set_address : (ℕ → Bool) → ℕ → Fields → IoModule k → Outcome (IoModule k)
  json_set_address active_at socket request s =
      if is_some s.fw_upgrading
      then refuse socket request IoError.upgrading_fw s
      else if in_bootloader s.bus_module_info
      then refuse socket request IoError.in_bootloader_error s
      else if is_some s.config_writing
      then refuse socket request IoError.config_setting s
      else elim (safe_uint_at request "new_address") [
        | none ↦ threw s
        | some new_addr ↦
            if not (is_valid_module_address new_addr)
            then refuse socket request Error.module_invalid_addr s
            else if active_at new_addr
            then refuse socket request Error.module_active s
            else returned (
                effect
                  (sent (module_change_addr s.address new_addr) (address_changed socket request)) s)
      ]

  unfoldable pub json_specific_command : ℕ → Fields → IoModule k → Outcome (IoModule k)
  json_specific_command socket request s = elim (specific_data request) [
    | none ↦ threw s
    | some bytes ↦
        returned (effect (sent (module_specific s.address bytes) (specific_got socket request)) s)
  ]

  unfoldable pub json_beacon : ℕ → Fields → IoModule k → Outcome (IoModule k)
  json_beacon socket request s = elim (safe_bool_at request "beacon") [
    | none ↦ threw s
    | some b ↦ returned (effect (sent (module_beacon s.address b) (beacon_set b socket request)) s)
  ]

  -- jsonGetDiag; a number is cut to eight bits.
  abbrev ask_diag : ℕ → Fields → ℕ → IoModule k → Outcome (IoModule k)
  ask_diag socket request dv s =
      returned (effect (sent (module_get_diag_value s.address dv) (diag_got socket request)) s)

  unfoldable pub json_get_diag :
      (String → Option ℕ) → ℕ → Fields → IoModule k → Outcome (IoModule k)
  json_get_diag str_to_dv socket request s =
      if contains request "DVnum"
      then elim (safe_uint_at request "DVnum") [
        | none ↦ threw s
        | some dv ↦ ask_diag socket request (dv % 256) s
      ]
      else elim (str_to_dv (to_string (get request "DVkey"))) [
        | none ↦ refuse socket request IoError.invalid_dv s
        | some dv ↦ ask_diag socket request dv s
      ]

  -- jsonCommand from the command on, with write access.
  unfoldable pub command_of :
      Virtuals k → (ℕ → Bool) → String → ℕ → Fields → IoModule k → Outcome (IoModule k)
  command_of virtuals active_at command socket request s =
      if str_eq command "module_set_outputs"
      then virtuals.set_output socket request s
      else if str_eq command "module_set_config"
      then virtuals.set_config socket request s
      else if str_eq command "module_upgrade_fw"
      then virtuals.upgrade_fw socket request s
      else if str_eq command "module_reboot"
      then returned (json_reboot (server_request socket request) s)
      else if str_eq command "module_specific_command"
      then json_specific_command socket request s
      else if str_eq command "module_beacon"
      then json_beacon socket request s
      else if str_eq command "module_set_address"
      then json_set_address active_at socket request s
      else refuse socket request Error.unknown_command s

  unfoldable pub json_command :
      Virtuals k → (ℕ → Bool) → ℕ → Fields → Bool → IoModule k → Outcome (IoModule k)
  json_command virtuals active_at socket request has_write_access s =
      elim (safe_string_at request "command") [
        | none ↦ threw s
        | some command ↦
            if str_eq command "module_diag"
            then json_get_diag virtuals.str_to_dv socket request s
            else if not has_write_access
            then refuse socket request Error.forbidden s
            else command_of virtuals active_at command socket request s
      ]

  -- The callbacks of the commands above: `request_failed` for errors.
  unfoldable pub request_failed : ℕ → Fields → ℕ → IoModule k → IoModule k
  request_failed socket request error s =
      effect (request_refused socket request (cmd_error_code error)) s

  unfoldable pub address_was_changed : ℕ → Fields → IoModule k → IoModule k
  address_was_changed socket request s = effect (told socket (json_ok_response request)) s

  unfoldable pub beacon_was_set : Bool → ℕ → Fields → IoModule k → IoModule k
  beacon_was_set b socket request s =
      effect (told socket (field "beacon" (bool b) (json_ok_response request)))
        (record s { beacon = b })

  unfoldable pub specific_was_answered : ℕ → Fields → ℕ → List ℕ → IoModule k → IoModule k
  specific_was_answered socket request command bytes s =
      let json = json_ok_response request in
      let response =
        field "command_code" (number command)
          (field "data" (array (to_array (map number bytes))) (to_object (get json "response"))) in
      effect (told socket (field "response" (object response) json)) s

  -- `name` and `repr` are the virtual functions DVToStr and dvRepr at the value.
  unfoldable pub diag_was_got :
      (ℕ → String) → (ℕ → List ℕ → Fields) → ℕ → Fields → ℕ → List ℕ → IoModule k → IoModule k
  diag_was_got name repr socket request dv bytes s =
      let response = field "DVnum" (number dv) (
        field "DVkey" (string (name dv)) (
          field "DVvalue" (object (repr dv bytes)) (
            field "DVvalueRaw" (array (to_array (map number bytes)))
              (json_ok_response request)))) in
      note_diag_value dv bytes (effect (told socket response) s)
