-- ===== src/Module/Info.antt =====
-- src/modules/module.cpp: what a module tells of itself, and to whom.
use Prim.Native.String.{String, ◌++◌}
use mtb_daemon.Base.{ℕ, Bool, true, false, Option, none, some, List, [], ◌∷◌, ◌==◌, if◌then◌else◌}
use mtb_daemon.Json.{Json, bool, number, string, object, Fields, end, field}
use mtb_daemon.Json.Safe.{safe_string_at, safe_uint_at}
use mtb_daemon.Server.{emplace}
use mtb_daemon.Daemon.{Outcome, returned, threw}
use mtb_daemon.Uni.{IoKind, IoModule}
use mtb_daemon.Uni.Setting.{is_some, same_number}

-- moduleTypeToStr, by the codes of MtbModuleType.
unfoldable pub module_type_to_str : ℕ → String
module_type_to_str kind =
    if kind == 0x10
    then "MTB-UNI v2 IR"
    else if kind == 0x11
    then "MTB-UNI v2"
    else if kind == 0x15
    then "MTB-UNI v4"
    else if kind == 0x16
    then "MTB-UNI v4"
    else if kind == 0x50
    then "MTB-UNIS"
    else if kind == 0x30
    then "MTB-RC"
    else if kind == 0x40
    then "MTB-LED"
    else "Unknown type"

-- Two numbers with a dot (fw_version and its like); `show` is QString::number.
abbrev dotted : (ℕ → String) → ℕ → ℕ → String
dotted show major minor = show major ++ ("." ++ show minor)

-- The set of sockets that are in one of two sets.
unfoldable pub union : List ℕ → List ℕ → List ℕ
union [] ds = ds
union (c ∷ cs) ds = emplace c (union cs ds)

-- The sockets of a list that are not the ignored one, or not among the ignored ones.
unfoldable pub but_one : Option ℕ → List ℕ → List ℕ
but_one ignore [] = []
but_one ignore (c ∷ cs) =
    let rest = but_one ignore cs in if same_number (some c) ignore then rest else c ∷ rest

unfoldable pub among : ℕ → List (Option ℕ) → Bool
among c [] = false
among c (o ∷ os) = if same_number o (some c) then true else among c os

unfoldable pub but_some : List (Option ℕ) → List ℕ → List ℕ
but_some ignore [] = []
but_some ignore (c ∷ cs) =
    let rest = but_some ignore cs in if among c ignore then rest else c ∷ rest

-- To whom sendModuleInfo and sendOutputsChanged send, by the subscriptions to the topology and to the
-- module.
unfoldable pub info_receivers : List ℕ → List ℕ → Option ℕ → List ℕ
info_receivers topo subscribers ignore = but_one ignore (union topo subscribers)

unfoldable pub outputs_receivers : List ℕ → List (Option ℕ) → List ℕ
outputs_receivers subscribers ignore = but_some ignore subscribers

unfoldable pub module_json : Fields → Fields
module_json info =
    field "command" (string "module")
      (field "type" (string "event") (field "module" (object info) end))

module _ {k : IoKind} where
  -- "state" of moduleInfo.
  unfoldable pub state_text : IoModule k → String
  state_text s =
      if s.active
      then (if s.bus_module_info.bootloader_unint
          then "bootloader_err"
          else if s.bus_module_info.bootloader_int
          then "bootloader_int"
          else if is_some s.fw_upgrading
          then "fw_upgrading"
          else "active")
      else if s.rebooting
      then "rebooting"
      else "inactive"

  -- MtbModule::moduleInfo; `deprecated` is the virtual function fwDeprecated.
  unfoldable pub base_info : (ℕ → String) → Bool → IoModule k → Fields
  base_info show deprecated s =
      let info = s.bus_module_info in
      let known = field "firmware_version" (string (dotted show info.fw_major info.fw_minor)) (
        field "protocol_version" (string (dotted show info.proto_major info.proto_minor)) (
          field "bootloader_version"
            (string (dotted show info.bootloader_major info.bootloader_minor))
            (field "error" (bool info.error) (
              field "warning" (bool info.warning) (
                field "beacon" (bool s.beacon) (field "fw_deprecated" (bool deprecated) end)))))) in
      field "address" (number s.address) (
        field "name" (string s.name) (
          field "type_code" (number s.kind) (
            field "type" (string (module_type_to_str s.kind))
              (field "state" (string (state_text s)) (if s.active then known else end)))))

  -- The messages of sendInputsChanged, sendOutputsChanged and sendModuleInfo.
  unfoldable pub changed_json : String → String → Json → IoModule k → Fields
  changed_json command key content s = field "command" (string command) (
      field "type" (string "event") (
        field command
          (object (
            field "address" (number s.address) (
              field "type" (string (module_type_to_str s.kind))
                (field "type_code" (number s.kind) (field key content end)))))
          end))

  unfoldable pub inputs_changed_json : Json → IoModule k → Fields
  inputs_changed_json inputs s = changed_json "module_inputs_changed" "inputs" inputs s

  unfoldable pub outputs_changed_json : Json → IoModule k → Fields
  outputs_changed_json outputs s = changed_json "module_outputs_changed" "outputs" outputs s

  -- MtbModule::loadConfig and saveConfig.
  unfoldable pub base_load_config : Fields → IoModule k → Outcome (IoModule k)
  base_load_config json s = elim (safe_string_at json "name") [
    | none ↦ threw s
    | some name ↦ elim (safe_uint_at json "type") [
      | none ↦ threw (record s { name = name })
      | some kind ↦ returned (record s { name = name; kind = kind })
    ]
  ]

  unfoldable pub base_save_config : IoModule k → Fields
  base_save_config s = field "name" (string s.name) (field "type" (number s.kind) end)
