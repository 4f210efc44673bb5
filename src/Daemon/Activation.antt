-- ===== src/Daemon/Activation.antt =====
-- src/main.cpp: MTB-USB connects, modules appear, are activated, fail and disappear.
pub mod Laws
use Prim.Native.String.{String}
use text.Mathlib.Text.{◌==◌ as str_eq}
use mtb_daemon.Base.{
  ℕ, zero, suc, ◌-◌, ◌+◌, ◌*◌, ◌/◌, ◌%◌, Bool, true, false, not, Option, none, some, List, [], ◌∷◌,
  ◌==◌, ◌&&◌, ◌||◌, ltb, leb, length, get_or, if◌then◌else◌,
}
use mtb_daemon.Cmd.{module_info_request, usb_info_request, usb_active_modules_request}
use mtb_daemon.Cmd.Reply.{ModuleInfo}
use mtb_daemon.Common.{speed_valid, int_to_speed, speed_to_int}
use mtb_daemon.Json.{
  Json, bool, number, string, array, object, Items, nil, cons, Fields, end, field, get, contains,
  to_int,
}
use mtb_daemon.Usb.{UsbInfo, fw_raw, fw_deprecated, max_modules}
use mtb_daemon.Daemon.{
  Daemon, usb_config, module_info_got, usb_info_got, startup_speed_set, active_modules_got,
  activate_again, new_module_event, module_fail_event, sent, speed_change, usb_disconnect,
  usb_connect, started, effect, put, for_all, send, send_all,
}
use mtb_daemon.Daemon.Modules.{ModuleOps, ModuleClass, uni, unis, rc, led, plain}
use mtb_daemon.Daemon.Outputs.{on_module}

-- The class that newModule makes an object of, and the addresses of MtbUsb::activeModules.
unfoldable pub class_of : ℕ → ModuleClass
class_of kind =
    if kind / 16 % 16 == 1
    then uni
    else if kind == 0x50
    then unis
    else if kind == 0x30
    then rc
    else if kind == 0x40
    then led
    else plain

unfoldable pub active_from : ℕ → List Bool → Items
active_from addr [] = nil
active_from addr (b ∷ bs) =
    let rest = active_from (suc addr) bs in if b then cons (number addr) rest else rest

abbrev json_speed : Option ℕ → Fields → Fields
json_speed none fields = fields
json_speed (some speed) fields = field "speed" (number speed) fields

-- mtbUsbJson, without the texts of the versions of firmware and protocol.
unfoldable pub mtb_usb_json : Bool → Option UsbInfo → Option (List Bool) → Fields
mtb_usb_json true (some info) (some active) = field "connected" (bool true) (
    field "type" (number info.kind) (
      json_speed (speed_to_int info.speed) (
        field "firmware_deprecated" (bool (fw_deprecated info))
          (field "active_modules" (array (active_from 0 active)) end))))
mtb_usb_json _ _ _ = field "connected" (bool false) end

-- toInt() of the speed: what is no number in the range of int is 0, which is not valid, and neither is
-- a negative number.
abbrev or_zero : Option ℕ → ℕ
or_zero none = 0
or_zero (some n) = n

module _ {M : Type 0} where
  abbrev pub usb_json : Daemon M → Json
  usb_json d = object (mtb_usb_json d.connected d.usb_info d.active_modules)

  unfoldable pub mtb_usb_event : Daemon M → Fields
  mtb_usb_event d =
      field "command" (string "mtbusb")
        (field "type" (string "event") (field "mtbusb" (usb_json d) end))

  -- DaemonServer::broadcast.
  unfoldable pub broadcast : Fields → Daemon M → Daemon M
  broadcast fields d = send_all d.clients fields d

  unfoldable pub mtb_usb_on_connect : Daemon M → Daemon M
  mtb_usb_on_connect d = effect (sent usb_info_request usb_info_got) d

  unfoldable pub mtb_usb_proper_speed_set : Daemon M → Daemon M
  mtb_usb_proper_speed_set d = effect (sent usb_active_modules_request active_modules_got) d

  -- With the information that MTB-USB has sent; `file_speed` is "speed" of the configuration.
  abbrev check_speed : ℕ → UsbInfo → Daemon M → Daemon M
  check_speed file_speed info d =
      if not (speed_valid file_speed (fw_raw info))
      then mtb_usb_proper_speed_set d
      else if int_to_speed file_speed == info.speed
      then mtb_usb_proper_speed_set d
      else effect (speed_change (int_to_speed file_speed) startup_speed_set) d

  -- Without information, `value()` throws.
  unfoldable pub mtb_usb_got_info : Daemon M → Daemon M
  mtb_usb_got_info d = elim d.usb_info [
    | none ↦ d
    | some info ↦
        if not (contains (usb_config d) "speed")
        then mtb_usb_proper_speed_set d
        else check_speed (or_zero (to_int (some 0) (get (usb_config d) "speed"))) info d
  ]

module _ {M : Type 0} ⦃ops : ModuleOps M⦄ where
  unfoldable pub new_module : ℕ → ℕ → M
  new_module kind addr = ops.create (class_of kind) addr

  unfoldable pub activate_module : ℕ → ℕ → Daemon M → Daemon M
  activate_module addr attempts_remaining d =
      effect (sent (module_info_request addr) (module_info_got addr attempts_remaining)) d

  -- The callbacks of the command of `activate_module`.
  unfoldable pub module_got_no_info : ℕ → ℕ → Daemon M → Daemon M
  module_got_no_info addr attempts_remaining d =
      if ltb 0 attempts_remaining
      then effect (started 500 (activate_again addr attempts_remaining)) d
      else d

  abbrev pub is_idle : Option M → Bool
  is_idle none = true
  is_idle (some m) = not (ops.is_active m) && not (ops.is_activating m)

  unfoldable pub activate_again_tick : ℕ → ℕ → Daemon M → Daemon M
  activate_again_tick addr attempts_remaining d =
      if not d.connected
      then d
      else if is_idle (d.modules addr)
      then activate_module addr (attempts_remaining - 1) d
      else d

  -- The module that is activated: a stored one of another type is forgotten.
  unfoldable pub module_for : ModuleInfo → ℕ → Option M → M
  module_for info addr none = new_module info.kind addr
  module_for info addr (some m) =
      if ops.module_type m == info.kind then m else new_module info.kind addr

  unfoldable pub module_got_info : ℕ → ModuleInfo → Daemon M → Daemon M
  module_got_info addr info d = record d {
    modules =
        put addr (some (ops.mtb_bus_activate info (module_for info addr (d.modules addr))))
          d.modules;
  }

  -- The loop over the array of active modules, from `addr` on.
  unfoldable pub activate_all : ℕ → List Bool → Daemon M → Daemon M
  activate_all addr [] d = d
  activate_all addr (b ∷ bs) d =
      activate_all (suc addr) bs (if b then activate_module addr 5 d else d)

  -- Without the array, `value()` throws after the event is sent.
  unfoldable pub mtb_usb_got_modules : Daemon M → Daemon M
  mtb_usb_got_modules d =
      let told = broadcast (mtb_usb_event d) d in
      elim d.active_modules [ none ↦ told | some active ↦ activate_all 0 active told ]

  unfoldable pub mtb_usb_on_disconnect : Daemon M → Daemon M
  mtb_usb_on_disconnect d =
      let told = broadcast (mtb_usb_event d) d in
      record told {
        modules = for_all (on_module ops.mtb_usb_disconnected) told.modules;
        reconnecting = true;
      }

  abbrev pub may_activate : Option M → Bool
  may_activate none = true
  may_activate (some m) =
      (not (ops.is_active m) && not (ops.is_rebooting m)) && not (ops.is_firmware_upgrading m)

  unfoldable pub mtb_usb_on_new_module : ℕ → Daemon M → Daemon M
  mtb_usb_on_new_module addr d =
      let activated = if may_activate (d.modules addr) then activate_module addr 5 d else d in
      if activated.new_timer_pending
      then activated
      else effect (started 500 new_module_event) (record activated { new_timer_pending = true })

  abbrev pub lost : Option M → Option M
  lost none = none
  lost (some m) =
      if not (ops.is_firmware_upgrading m) && not (ops.is_rebooting m)
      then some (ops.mtb_bus_lost m)
      else some m

  unfoldable pub mtb_usb_on_module_fail : ℕ → Daemon M → Daemon M
  mtb_usb_on_module_fail addr d =
      let failed = record d { modules = put addr (lost (d.modules addr)) d.modules } in
      if failed.fail_timer_pending
      then failed
      else effect (started 500 module_fail_event) (record failed { fail_timer_pending = true })

  -- The timers of both.
  unfoldable pub new_module_tick : Daemon M → Daemon M
  new_module_tick d =
      send_all d.topo_subscribes (mtb_usb_event d) (record d { new_timer_pending = false })

  unfoldable pub module_fail_tick : Daemon M → Daemon M
  module_fail_tick d =
      send_all d.topo_subscribes (mtb_usb_event d) (record d { fail_timer_pending = false })

  unfoldable pub mtb_usb_on_inputs_change : ℕ → List ℕ → Daemon M → Daemon M
  mtb_usb_on_inputs_change addr bytes d = record d {
    modules = put addr (on_module (ops.inputs_changed bytes) (d.modules addr)) d.modules;
  }

  unfoldable pub mtb_usb_on_diag_state_change : ℕ → List ℕ → Daemon M → Daemon M
  mtb_usb_on_diag_state_change addr bytes d = record d {
    modules = put addr (on_module (ops.diag_state_changed bytes) (d.modules addr)) d.modules;
  }

  unfoldable pub t_reactivate_tick : Daemon M → Daemon M
  t_reactivate_tick d =
      if not d.connected
      then d
      else record d { modules = for_all (on_module ops.reactivate_check) d.modules }
