-- ===== src/Daemon/Answers/Requests.antt =====
-- The answers to requests, by their handlers (src/main.cpp).
use mtb_daemon.Base.{
  ℕ, ◌≡◌, refl, Bool, true, false, not, Option, none, some, List, ◌%◌, ◌==◌, if_rule,
}
use mtb_daemon.Common.{speed_valid, int_to_speed}
use mtb_daemon.Json.{Json, Fields}
use mtb_daemon.Json.Safe.{safe_uint_at}
use mtb_daemon.Server.{member}
use mtb_daemon.Server.Error
use mtb_daemon.Usb.{UsbInfo, fw_raw}
use mtb_daemon.Daemon.{Daemon, Outcome, returned, threw, send, send_error, send_access_denied}
use mtb_daemon.Daemon.Subscriptions.{
  Addresses, all_addresses, malformed, invalid, listed, keep_subscribes, tell_subscribes,
  keep_replaced, module_subscribe, module_unsubscribe, my_module_subscribes,
}
use mtb_daemon.Daemon.Requests.{
  SpeedRequest, bad_speed, no_speed, with_speed, change_speed, ask_speed, mtbusb_request,
  send_usb_state, Target, bad_target, to_all, to_one, target_of, specific_data, send_specific,
  cmd_module_specific_command,
}
use mtb_daemon.Daemon.Received.{guarded}
use mtb_daemon.Daemon.Answers.{
  answers, same_number, Quiet, Done, Quiet-refl, Answered-send, Answered-send_error,
}

module _ {M : Type 0} (c : ℕ) (r : Fields) (d : Daemon M) (client : member c d.clients ≡ true) where
  pub sent_once : (fs : Fields) → Done c d (returned (send c fs d))
  sent_once fs = Answered-send c d d fs client (Quiet-refl c d)

  pub refused_once : (code : ℕ) → Done c d (returned (send_error c r code d))
  refused_once code = Answered-send_error c d d r code (Quiet-refl c d)

  pub Done-guarded :
      (write_access : Bool) (o : Outcome (Daemon M))
      → Done c d o
      → Done c d (guarded write_access c r d o)
  unfolding send_access_denied
  Done-guarded true o h = h
  Done-guarded false o h = refused_once Error.forbidden

  pub Done-change_speed : (o : Option ℕ) (info : UsbInfo) → Done c d (change_speed o info c r d)
  unfolding change_speed send_usb_state answers
  Done-change_speed none info = Quiet-refl c d
  Done-change_speed (some speed) info =
      if_rule (Done c d) (not (speed_valid speed (fw_raw info)))
        (λ _. refused_once Error.invalid_speed)
        (λ _.
          if_rule (Done c d) (info.speed == int_to_speed speed) (λ _. sent_once _)
            (λ _. rw (same_number c) refl))

  pub Done-ask_speed :
      (write_access : Bool) (o : Option UsbInfo) (json_usb : Fields)
      → Done c d (ask_speed write_access o json_usb c r d)
  unfolding ask_speed
  Done-ask_speed false o json_usb = refused_once Error.forbidden
  Done-ask_speed true none json_usb = refused_once Error.device_disconnected
  Done-ask_speed true (some info) json_usb = Done-change_speed (safe_uint_at json_usb "speed") info

  pub Done-mtbusb_request :
      (s : SpeedRequest) (write_access : Bool) → Done c d (mtbusb_request s write_access c r d)
  unfolding mtbusb_request send_usb_state
  Done-mtbusb_request bad_speed write_access = Quiet-refl c d
  Done-mtbusb_request no_speed write_access = sent_once _
  Done-mtbusb_request (with_speed json_usb) write_access = Done-ask_speed write_access _ json_usb

  pub Done-keep_subscribes :
      (response : Fields) (addrs : List Json) (o : Option (ℕ → List ℕ))
      → Done c d (keep_subscribes c response addrs o d)
  unfolding keep_subscribes
  Done-keep_subscribes response addrs none = Quiet-refl c d
  Done-keep_subscribes response addrs (some subs) =
      Answered-send c d (record d { subscribes = subs }) _ client (refl, refl)

  pub Done-module_subscribe :
      (o : Addresses) (response : Fields) → Done c d (module_subscribe o c response d)
  unfolding module_subscribe
  Done-module_subscribe all_addresses response =
      Answered-send c d (record d { subscribes = _ }) response client (refl, refl)
  Done-module_subscribe malformed response = Quiet-refl c d
  Done-module_subscribe invalid response = sent_once _
  Done-module_subscribe (listed addrs) response = Done-keep_subscribes response addrs _

  pub Done-module_unsubscribe :
      (o : Addresses) (response : Fields) → Done c d (module_unsubscribe o c response d)
  unfolding module_unsubscribe
  Done-module_unsubscribe all_addresses response =
      Answered-send c d (record d { subscribes = _ }) response client (refl, refl)
  Done-module_unsubscribe malformed response = Quiet-refl c d
  Done-module_unsubscribe invalid response = sent_once _
  Done-module_unsubscribe (listed addrs) response = Done-keep_subscribes response addrs _

  pub Done-keep_replaced :
      (response : Fields) (o : Option (ℕ → List ℕ)) → Done c d (keep_replaced c response o d)
  unfolding keep_replaced tell_subscribes
  Done-keep_replaced response none = (refl, refl)
  Done-keep_replaced response (some subs) =
      Answered-send c d (record d { subscribes = subs }) _ client (refl, refl)

  pub Done-my_module_subscribes :
      (o : Addresses) (response : Fields) → Done c d (my_module_subscribes o c response d)
  unfolding my_module_subscribes tell_subscribes
  Done-my_module_subscribes all_addresses response = sent_once _
  Done-my_module_subscribes malformed response = Quiet-refl c d
  Done-my_module_subscribes invalid response = sent_once _
  Done-my_module_subscribes (listed addrs) response = Done-keep_replaced response _

  pub Done-send_specific : (t : Target) (bytes : List ℕ) → Done c d (send_specific t bytes c r d)
  unfolding send_specific answers
  Done-send_specific bad_target bytes = Quiet-refl c d
  Done-send_specific to_all bytes = rw (same_number c) refl
  Done-send_specific (to_one addr) bytes =
      if_rule (Done c d) (addr % 256 == 0) (λ _. Quiet-refl c d) (λ _. rw (same_number c) refl)

  pub Done-cmd_module_specific_command : Done c d (cmd_module_specific_command c r d)
  unfolding cmd_module_specific_command
  Done-cmd_module_specific_command =
      elim (specific_data r)
        as (λ o. Done c d (elim o as (λ _. Outcome (Daemon M)) [
          | none ↦ threw d
          | some bytes ↦ send_specific (target_of r) bytes c r d
        ])) [ none ↦ Quiet-refl c d | some bytes ↦ Done-send_specific (target_of r) bytes ]

  pub told : (e : Daemon M) (fs : Fields) → Quiet c d e → Done c d (returned (send c fs e))
  told e fs q = Answered-send c d e fs client q
