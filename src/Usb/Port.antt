-- ===== src/Usb/Port.antt =====
-- src/mtbusb/mtbusb.cpp: opening and closing of the port, the ping, the change of speed. While
-- QSerialPort tells that it is about to close, it is still open.
pub mod Closing
use mtb_daemon.Base.{
  ℕ, zero, suc, Bool, true, false, ◌&&◌, Option, none, some, [], ◌∷◌, if◌then◌else◌,
}
use mtb_daemon.Common.CmdError
use mtb_daemon.Cmd.{usb_ping, usb_change_speed, module_change_speed}
use mtb_daemon.Usb.{Usb, Env, on_connect, on_disconnect, undefined, log_event, call_error, emit}
use mtb_daemon.Usb.Queue.{send_new}

module _ {K : Type 0} where
  -- `pop_front`; on an empty queue it is undefined.
  unfoldable pub pop_pending : Usb K → Usb K
  pop_pending s = elim s.pending [
    | [] ↦ log_event undefined s
    | p ∷ rest ↦ record s { pending = rest }
  ]

  unfoldable pub pop_out : Usb K → Usb K
  pop_out s = elim s.out [ [] ↦ log_event undefined s | c ∷ rest ↦ record s { out = rest } ]

  -- The loops of `spAboutToClose`, on fuel: a callback may send again, and `none` is a loop that has
  -- not ended.
  unfoldable pub fail_pending : ℕ → Env K → Usb K → Option (Usb K)
  unfolding pop_pending
  fail_pending zero env s = none
  fail_pending (suc fuel) env s = elim s.pending [
    | [] ↦ some s
    | p ∷ rest ↦
        fail_pending fuel env (pop_pending (call_error env p.cmd CmdError.serial_port_closed s))
  ]

  unfoldable pub fail_out : ℕ → Env K → Usb K → Option (Usb K)
  unfolding pop_out
  fail_out zero env s = none
  fail_out (suc fuel) env s = elim s.out [
    | [] ↦ some s
    | c ∷ rest ↦ fail_out fuel env (pop_out (call_error env c CmdError.serial_port_closed s))
  ]

  unfoldable pub sp_about_to_close : ℕ → Env K → Usb K → Option (Usb K)
  unfolding fail_pending fail_out
  sp_about_to_close fuel env s = elim (fail_pending fuel env s) [
    | none ↦ none
    | some t ↦ elim (fail_out fuel env t) [
      | none ↦ none
      | some u ↦ some (record u { info = none; active = none })
    ]
  ]

  -- `disconnect`: the port closes, the slot above runs, and the signal is emitted.
  unfoldable pub disconnect : ℕ → Env K → Usb K → Option (Usb K)
  unfolding sp_about_to_close
  disconnect fuel env s =
      if s.is_open
      then (elim (sp_about_to_close fuel env s) [
        | none ↦ none
        | some t ↦ some (emit env on_disconnect (record t { is_open = false }))
      ])
      else some s

  -- `spHandleError`, by whether the error is other than NoError.
  unfoldable pub sp_handle_error : ℕ → Env K → Bool → Usb K → Option (Usb K)
  unfolding disconnect
  sp_handle_error fuel env failing s = if failing then disconnect fuel env s else some s

  -- `connect`, by whether the port opens; `none` is the exception EOpenError.
  unfoldable pub connect : Env K → Bool → Usb K → Option (Usb K)
  connect env opens s =
      if opens then some (emit env on_connect (record s { is_open = true })) else none

  -- The ping's callbacks: the second one disconnects.
  unfoldable pub ping_timer_tick : Env K → K → K → Usb K → Usb K
  unfolding send_new
  ping_timer_tick env on_ok on_error s =
      if s.is_open && s.ping then send_new env usb_ping on_ok on_error s else s

  -- `changeSpeed`: the speed is broadcast three times; `nothing` is the default callback, and
  -- `on_ok` goes on with `change_usb_speed`.
  unfoldable pub change_speed : Env K → ℕ → K → K → K → Usb K → Usb K
  unfolding send_new
  change_speed env speed nothing on_ok on_error s = elim s.info [
    | none ↦ s
    | some info ↦
        if s.is_open
        then send_new env (module_change_speed 0 speed) on_ok on_error (
            send_new env (module_change_speed 0 speed) nothing nothing
              (send_new env (module_change_speed 0 speed) nothing nothing s))
        else s
  ]

  -- What the third broadcast's callback sends, and what the answer to that does.
  unfoldable pub change_usb_speed : Env K → ℕ → K → K → Usb K → Usb K
  unfolding send_new
  change_usb_speed env speed on_ok on_error s =
      send_new env (usb_change_speed speed) on_ok on_error s

  unfoldable pub usb_speed_changed : ℕ → Usb K → Usb K
  usb_speed_changed new_speed s = elim s.info [
    | none ↦ s
    | some info ↦ record s { info = some (record info { speed = new_speed }) }
  ]
