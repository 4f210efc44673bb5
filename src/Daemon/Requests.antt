-- ===== src/Daemon/Requests.antt =====
-- src/main.cpp: the requests of clients about MTB-USB and about modules, but for subscriptions,
-- outputs and the files of configuration.
use Prim.Native.String.{String}
use mtb_daemon.Base.{
  ℕ, zero, suc, ◌%◌, Bool, true, false, not, Option, none, some, List, [], ◌∷◌, ◌==◌, ◌&&◌, ◌||◌,
  ltb, if◌then◌else◌,
}
use mtb_daemon.Cmd.{module_specific, module_change_addr}
use mtb_daemon.Common.{is_valid_module_address, speed_valid, int_to_speed}
use mtb_daemon.Json.{
  Json, number, string, object, Fields, end, field, get, contains, as_int, to_size, to_bool,
}
use mtb_daemon.Json.Safe.{safe_array_at, safe_object_at, safe_uint, safe_uint_at}
use mtb_daemon.Server.{emplace, json_error, json_ok_response}
use mtb_daemon.Server.Error
use mtb_daemon.Usb.{UsbInfo, fw_raw, max_modules}
use mtb_daemon.Daemon.{
  Daemon, Outcome, returned, threw, client_speed_set, specific_answered, specific_broadcast,
  address_changed, sent, speed_change, effect, put, send, send_error, send_all,
}
use mtb_daemon.Daemon.Modules.{ModuleOps}
use mtb_daemon.Daemon.Activation.{new_module, usb_json}

-- The bytes of "data"; `none` is an exception.
unfoldable pub specific_bytes : List Json → Option (List ℕ)
specific_bytes [] = some []
specific_bytes (v ∷ vs) =
    let rest = specific_bytes vs in
    elim (safe_uint v) [
      | none ↦ none
      | some value ↦
          if ltb 0xFF value then none else elim rest [ none ↦ none | some bs ↦ some (value ∷ bs) ]
    ]

unfoldable pub specific_data : Fields → Option (List ℕ)
specific_data request = elim (safe_array_at request "data") [
  | none ↦ none
  | some vs ↦ specific_bytes vs
]

-- To which module a specific command goes. The code cuts the address to eight bits, and the
-- constructor of the command throws at 0.
pub data Target : Type 0 where
  bad_target : Target
  to_all : Target
  to_one : ℕ → Target

unfoldable pub target_of : Fields → Target
target_of request =
    if contains request "address"
    then elim (safe_uint_at request "address") [
      | none ↦ bad_target
      | some addr ↦ if addr == 0 then to_all else to_one addr
    ]
    else to_all

-- What "mtbusb" of a request asks for.
pub data SpeedRequest : Type 0 where
  bad_speed : SpeedRequest
  no_speed : SpeedRequest
  with_speed : Fields → SpeedRequest

unfoldable pub speed_request : Fields → SpeedRequest
speed_request request =
    if contains request "mtbusb"
    then elim (safe_object_at request "mtbusb") [
      | none ↦ bad_speed
      | some json_usb ↦ if contains json_usb "speed" then with_speed json_usb else no_speed
    ]
    else no_speed

-- clients.insert(…) for each of a set.
unfoldable pub union : List ℕ → List ℕ → List ℕ
union [] clients = clients
union (c ∷ cs) clients = union cs (emplace c clients)

-- Messages to all of a set of sockets but one.
unfoldable pub others : ℕ → List ℕ → List ℕ
others socket [] = []
others socket (c ∷ cs) = let rest = others socket cs in if socket == c then rest else c ∷ rest

abbrev pub module_refusal : ℕ → Fields → Fields
module_refusal code response =
    field "status" (string "error") (field "error" (json_error code) response)

abbrev pub deleted_event : ℕ → Fields
deleted_event addr =
    field "command" (string "module_deleted")
      (field "type" (string "event") (field "module" (number addr) end))

-- The information, where MTB-USB is connected and has told it.
abbrev pub known_usb : Bool → Option UsbInfo → Option UsbInfo
known_usb true info = info
known_usb false info = none

module _ {M : Type 0} where
  -- The answer with the state of MTB-USB.
  unfoldable pub send_usb_state : ℕ → Fields → Daemon M → Daemon M
  send_usb_state socket request d =
      send socket (field "mtbusb" (usb_json d) (json_ok_response request)) d

  -- Changing the speed, with write access and the information about MTB-USB; `none` is an exception
  -- of safeUInt.
  unfoldable pub change_speed : Option ℕ → UsbInfo → ℕ → Fields → Daemon M → Outcome (Daemon M)
  change_speed none info socket request d = threw d
  change_speed (some speed) info socket request d =
      if not (speed_valid speed (fw_raw info))
      then returned (send_error socket request Error.invalid_speed d)
      else if info.speed == int_to_speed speed
      then returned (send_usb_state socket request d)
      else returned (effect (speed_change (int_to_speed speed) (client_speed_set socket request)) d)

  unfoldable pub ask_speed :
      Bool → Option UsbInfo → Fields → ℕ → Fields → Daemon M → Outcome (Daemon M)
  ask_speed false info json_usb socket request d =
      returned (send_error socket request Error.forbidden d)
  ask_speed true none json_usb socket request d =
      returned (send_error socket request Error.device_disconnected d)
  ask_speed true (some info) json_usb socket request d =
      change_speed (safe_uint_at json_usb "speed") info socket request d

  unfoldable pub mtbusb_request : SpeedRequest → Bool → ℕ → Fields → Daemon M → Outcome (Daemon M)
  mtbusb_request bad_speed write_access socket request d = threw d
  mtbusb_request no_speed write_access socket request d = returned (send_usb_state socket request d)
  mtbusb_request (with_speed json_usb) write_access socket request d =
      ask_speed write_access (known_usb d.connected d.usb_info) json_usb socket request d

  unfoldable pub cmd_mtbusb : Bool → ℕ → Fields → Daemon M → Outcome (Daemon M)
  cmd_mtbusb write_access socket request d =
      mtbusb_request (speed_request request) write_access socket request d

  -- With write access.
  unfoldable pub send_specific : Target → List ℕ → ℕ → Fields → Daemon M → Outcome (Daemon M)
  send_specific bad_target bytes socket request d = threw d
  send_specific to_all bytes socket request d =
      returned (effect (sent (module_specific 0 bytes) (specific_broadcast socket request)) d)
  send_specific (to_one addr) bytes socket request d =
      if addr % 256 == 0
      then threw d
      else returned
          (effect (sent (module_specific (addr % 256) bytes) (specific_answered socket request)) d)

  -- With write access.
  unfoldable pub cmd_module_specific_command : ℕ → Fields → Daemon M → Outcome (Daemon M)
  cmd_module_specific_command socket request d = elim (specific_data request) [
    | none ↦ threw d
    | some bytes ↦ send_specific (target_of request) bytes socket request d
  ]

module _ {M : Type 0} ⦃ops : ModuleOps M⦄ where
  unfoldable pub cmd_module : ℕ → Fields → Daemon M → Daemon M
  cmd_module socket request d =
      let response = json_ok_response request in
      let addr = to_size (get request "address") in
      let refused = module_refusal Error.module_invalid_addr response in
      if not (is_valid_module_address addr) then send socket refused d else elim (d.modules addr) [
        | none ↦ send socket refused d
        | some m ↦
            send socket
              (field "module" (object (ops.module_info (to_bool (get request "state")) m))
                (field "status" (string "ok") response))
              d
      ]

  unfoldable pub cmd_module_delete : ℕ → Fields → Daemon M → Daemon M
  cmd_module_delete socket request d =
      let addr = to_size (get request "address") in
      let response = field "address" (as_int (get request "address")) (json_ok_response request) in
      let refused = module_refusal Error.module_invalid_addr response in
      if not (is_valid_module_address addr) then send socket refused d else elim (d.modules addr) [
        | none ↦ send socket refused d
        | some m ↦
            if ops.is_active m || ops.is_activating m
            then send socket (module_refusal Error.module_active response) d
            else send socket response (
                send_all (others socket (union (d.subscribes addr) d.topo_subscribes))
                  (deleted_event addr) (record d { modules = put addr none d.modules }))
      ]

  -- The loop over the modules from `addr` on; `key` writes an address as a text.
  unfoldable pub modules_json : (ℕ → String) → Bool → ℕ → ℕ → (ℕ → Option M) → Fields
  modules_json key state zero addr modules = end
  modules_json key state (suc n) addr modules =
      let rest = modules_json key state n (suc addr) modules in
      elim (modules addr) [
        | none ↦ rest
        | some m ↦ field (key addr) (object (ops.module_info state m)) rest
      ]

  unfoldable pub cmd_modules : (ℕ → String) → ℕ → Fields → Daemon M → Daemon M
  cmd_modules key socket request d =
      let jsons = modules_json key (to_bool (get request "state")) max_modules 0 d.modules in
      send socket (field "modules" (object jsons) (json_ok_response request)) d

  -- The change of an outcome's module.
  abbrev pub store_module : ℕ → Daemon M → Outcome M → Outcome (Daemon M)
  store_module addr d (returned m) = returned (record d { modules = put addr (some m) d.modules })
  store_module addr d (threw m) = threw (record d { modules = put addr (some m) d.modules })

  -- serverCmdModuleSetConfig from the point on where the module is there.
  abbrev set_config_of : ℕ → Fields → ℕ → M → Daemon M → Outcome (Daemon M)
  set_config_of socket request addr m d =
      let stored = record d { modules = put addr (some m) d.modules } in
      if ops.is_active m && contains request "type_code"
      then elim (safe_uint_at request "type_code") [
        | none ↦ threw stored
        | some code ↦
            if code == ops.module_type m
            then store_module addr stored (ops.json_set_config socket request m)
            else returned (send_error socket request Error.already_started stored)
      ]
      else store_module addr stored (ops.json_set_config socket request m)

  -- With write access.
  unfoldable pub cmd_module_set_config : ℕ → Fields → Daemon M → Outcome (Daemon M)
  cmd_module_set_config socket request d =
      let addr = to_size (get request "address") in
      if not (is_valid_module_address addr)
      then returned (send_error socket request Error.module_invalid_addr d)
      else elim (d.modules addr) [
        | some m ↦ set_config_of socket request addr m d
        | none ↦ elim (safe_uint_at request "type_code") [
          | none ↦ threw d
          | some code ↦ set_config_of socket request addr (new_module (code % 256) addr) d
        ]
      ]

  abbrev pub is_active_module : Option M → Bool
  is_active_module none = false
  is_active_module (some m) = ops.is_active m

  -- With write access.
  unfoldable pub cmd_set_address : ℕ → Fields → Daemon M → Outcome (Daemon M)
  cmd_set_address socket request d = elim (safe_uint_at request "new_address") [
    | none ↦ threw d
    | some new_addr ↦
        if not (is_valid_module_address new_addr)
        then returned (send_error socket request Error.module_invalid_addr d)
        else if is_active_module (d.modules new_addr)
        then returned (send_error socket request Error.module_active d)
        else returned
            (effect (sent (module_change_addr 0 new_addr) (address_changed socket request)) d)
  ]
