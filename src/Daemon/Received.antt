-- ===== src/Daemon/Received.antt =====
-- src/main.cpp: what the daemon does with a request of a client (serverReceived), and with the
-- answers to the commands that it has sent.
use Prim.Native.String.{String}
use Prim.Native.Char.{code}
use text.Mathlib.Text.{◌==◌ as str_eq}
use mtb_daemon.Base.{ℕ, ◌==◌, Bool, true, false, not, none, some, List, [], ◌∷◌, if◌then◌else◌, map}
use mtb_daemon.Cmd.Reply.{Reply, module_info, specific}
use mtb_daemon.Common.{is_valid_module_address}
use mtb_daemon.Common.CmdError
use mtb_daemon.Json.{number, array, object, Fields, end, field, get, contains, to_size, to_array}
use mtb_daemon.Json.Safe.{safe_string_at}
use mtb_daemon.Server.{json_ok_response, cmd_error_code}
use mtb_daemon.Server.Error
use mtb_daemon.Daemon.{
  Daemon, Outcome, returned, threw, Callback, usb_info_got, startup_speed_set, active_modules_got,
  module_info_got, client_speed_set, specific_answered, specific_broadcast, address_changed,
  client_outputs_reset, gone_outputs_reset, Timer, activate_again, new_module_event,
  module_fail_event, usb_disconnect, effect, send, send_error, send_access_denied,
}
use mtb_daemon.Daemon.Modules.{ModuleOps}
use mtb_daemon.Daemon.Subscriptions.{
  cmd_module_subscribe, cmd_module_unsubscribe, cmd_my_module_subscribes, cmd_topo_subscribe,
  cmd_topo_unsubscribe,
}
use mtb_daemon.Daemon.Outputs.{cmd_reset_my_outputs}
use mtb_daemon.Daemon.Activation.{
  mtb_usb_got_info, mtb_usb_proper_speed_set, mtb_usb_got_modules, module_got_info,
  module_got_no_info, activate_again_tick, new_module_tick, module_fail_tick,
}
use mtb_daemon.Daemon.Requests.{
  send_usb_state, cmd_mtbusb, cmd_module_specific_command, cmd_module, cmd_module_delete,
  cmd_modules, cmd_module_set_config, cmd_set_address, store_module,
}
use mtb_daemon.Daemon.Files.{Surroundings, has_write_access, cmd_save_config, cmd_load_config}

-- The values of "command", by the handler that serverReceived calls.
pub data Command : Type 0 where
  mtbusb : Command
  version : Command
  save_config : Command
  load_config : Command
  module_state : Command
  module_delete : Command
  modules : Command
  module_subscribe : Command
  module_unsubscribe : Command
  my_module_subscribes : Command
  module_set_config : Command
  module_specific_command : Command
  set_address : Command
  reset_my_outputs : Command
  topology_subscribe : Command
  topology_unsubscribe : Command
  of_module : Command
  unknown : Command

-- The texts that serverReceived compares with, in its order.
abbrev pub names : List (String × Command)
names =
    ("mtbusb", mtbusb)
    ∷ ("version", version)
    ∷ ("save_config", save_config)
    ∷ ("load_config", load_config)
    ∷ ("module", module_state)
    ∷ ("module_delete", module_delete)
    ∷ ("modules", modules)
    ∷ ("module_subscribe", module_subscribe)
    ∷ ("module_unsubscribe", module_unsubscribe)
    ∷ ("my_module_subscribes", my_module_subscribes)
    ∷ ("module_set_config", module_set_config)
    ∷ ("module_specific_command", module_specific_command)
    ∷ ("set_address", set_address)
    ∷ ("reset_my_outputs", reset_my_outputs)
    ∷ ("topology_subscribe", topology_subscribe)
    ∷ ("topology_unsubscribe", topology_unsubscribe)
    ∷ []

-- command.startsWith(…).
abbrev pub starts_with : String → String → Bool
starts_with s String.[] = true
starts_with String.[] (String.◌∷◌ p ps) = false
starts_with (String.◌∷◌ c cs) (String.◌∷◌ p ps) =
    let rest = starts_with cs ps in if code c == code p then rest else false

abbrev lookup_command : String → List (String × Command) → Command
lookup_command text [] = if starts_with text "module_" then of_module else unknown
lookup_command text ((name, command) ∷ rest) =
    let later = lookup_command text rest in if str_eq text name then command else later

unfoldable pub command_of : String → Command
command_of text = lookup_command text names

abbrev specific_response : ℕ → ℕ → List ℕ → Fields → Fields
specific_response addr answer_code bytes request = field "address" (number addr) (
    field "response"
      (object (
        field "command" (number answer_code)
          (field "data" (array (to_array (map number bytes))) end)))
      (json_ok_response request))

-- `write_access` tells whether the client may write.
module _ {M : Type 0} where
  abbrev pub guarded : Bool → ℕ → Fields → Daemon M → Outcome (Daemon M) → Outcome (Daemon M)
  guarded write_access socket request d outcome =
      if write_access then outcome else returned (send_access_denied socket request d)

  -- The end of serverReceived: the answer to an exception.
  abbrev pub answer_exception : ℕ → Fields → Outcome (Daemon M) → Daemon M
  answer_exception socket request (returned d) = d
  answer_exception socket request (threw d) = send_error socket request Error.invalid_json d

  unfoldable pub cmd_version : Surroundings → ℕ → Fields → Daemon M → Daemon M
  cmd_version around socket request d =
      send socket (field "version" (object around.build_version) (json_ok_response request)) d

module _ {M : Type 0} ⦃ops : ModuleOps M⦄ where
  -- A command for a module.
  unfoldable pub cmd_of_module : Bool → ℕ → Fields → Daemon M → Outcome (Daemon M)
  cmd_of_module write_access socket request d =
      let addr = to_size (get request "address") in
      if not (is_valid_module_address addr)
      then returned (send_error socket request Error.module_invalid_addr d)
      else elim (d.modules addr) [
        | none ↦ returned (send_error socket request Error.module_invalid_addr d)
        | some m ↦ store_module addr d (ops.json_command socket request write_access m)
      ]

  unfoldable pub handle : Command → Surroundings → ℕ → Fields → Daemon M → Outcome (Daemon M)
  handle mtbusb around c r d = cmd_mtbusb (has_write_access around c d) c r d
  handle version around c r d = returned (cmd_version around c r d)
  handle save_config around c r d =
      guarded (has_write_access around c d) c r d (cmd_save_config around c r d)
  handle load_config around c r d =
      guarded (has_write_access around c d) c r d (cmd_load_config around c r d)
  handle module_state around c r d = returned (cmd_module c r d)
  handle module_delete around c r d = returned (cmd_module_delete c r d)
  handle modules around c r d = returned (cmd_modules around.int_to_text c r d)
  handle module_subscribe around c r d = cmd_module_subscribe c r d
  handle module_unsubscribe around c r d = cmd_module_unsubscribe c r d
  handle my_module_subscribes around c r d = cmd_my_module_subscribes c r d
  handle module_set_config around c r d =
      guarded (has_write_access around c d) c r d (cmd_module_set_config c r d)
  handle module_specific_command around c r d =
      guarded (has_write_access around c d) c r d (cmd_module_specific_command c r d)
  handle set_address around c r d =
      guarded (has_write_access around c d) c r d (cmd_set_address c r d)
  handle reset_my_outputs around c r d =
      guarded (has_write_access around c d) c r d (returned (cmd_reset_my_outputs c r d))
  handle topology_subscribe around c r d = returned (cmd_topo_subscribe c r d)
  handle topology_unsubscribe around c r d = returned (cmd_topo_unsubscribe c r d)
  handle of_module around c r d = cmd_of_module (has_write_access around c d) c r d
  handle unknown around c r d = returned (send_error c r Error.unknown_command d)

  -- A request without "command" is a ping.
  unfoldable pub server_received : Surroundings → ℕ → Fields → Daemon M → Daemon M
  server_received around socket request d =
      if not (contains request "command")
      then d
      else answer_exception socket request (elim (safe_string_at request "command") [
        | none ↦ threw d
        | some text ↦ handle (command_of text) around socket request d
      ])

  -- A command of the daemon succeeds. A command for a module's information or a specific one is
  -- called back with that.
  unfoldable pub on_ok : Callback → Reply → Daemon M → Daemon M
  on_ok usb_info_got reply d = mtb_usb_got_info d
  on_ok startup_speed_set reply d = mtb_usb_proper_speed_set d
  on_ok active_modules_got reply d = mtb_usb_got_modules d
  on_ok (module_info_got addr n) (module_info a info) d = module_got_info a info d
  on_ok (module_info_got addr n) _ d = d
  on_ok (client_speed_set c r) reply d = send_usb_state c r d
  on_ok (specific_answered c r) (specific a answer_code bytes) d =
      send c (specific_response a answer_code bytes r) d
  on_ok (specific_answered c r) _ d = d
  on_ok (specific_broadcast c r) reply d = send c (json_ok_response r) d
  on_ok (address_changed c r) reply d = send c (json_ok_response r) d
  on_ok (client_outputs_reset c r) reply d = send c (json_ok_response r) d
  on_ok gone_outputs_reset reply d = d

  -- A command of the daemon fails with a CmdError.
  unfoldable pub on_error : Callback → ℕ → Daemon M → Daemon M
  on_error usb_info_got error d = effect usb_disconnect d
  on_error startup_speed_set error d = effect usb_disconnect d
  on_error active_modules_got error d = effect usb_disconnect d
  on_error (module_info_got addr n) error d = module_got_no_info addr n d
  on_error (client_speed_set c r) error d = send_error c r (cmd_error_code error) d
  on_error (specific_answered c r) error d = send_error c r (cmd_error_code error) d
  on_error (specific_broadcast c r) error d = send_error c r (cmd_error_code error) d
  on_error (address_changed c r) error d = send_error c r (cmd_error_code error) d
  on_error (client_outputs_reset c r) error d =
      send_error c r (cmd_error_code CmdError.bus_no_response) d
  on_error gone_outputs_reset error d = d

  unfoldable pub timeout : Timer → Daemon M → Daemon M
  timeout (activate_again addr n) d = activate_again_tick addr n d
  timeout new_module_event d = new_module_tick d
  timeout module_fail_event d = module_fail_tick d
