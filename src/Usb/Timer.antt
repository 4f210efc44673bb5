-- ===== src/Usb/Timer.antt =====
-- src/mtbusb/mtbusb-hist.cpp and `pendingTimeoutError` of src/mtbusb/mtbusb-receive.cpp: what
-- happens to commands that get no response.
use mtb_daemon.Base.{
  ℕ, ◌+◌, none, some, List, [], ◌∷◌, get_elem?, erase_at, ltb, leb, if◌then◌else◌,
}
use mtb_daemon.Common.CmdError
use mtb_daemon.Usb.{Usb, Pending, Env, pending_resend_max, call_error}
use mtb_daemon.Usb.Queue.{conflict_with_out, write, send_next_out}

module _ {K : Type 0} where
  -- Takes the command at an index out, tells it the error, and sends the next one.
  unfoldable pub pending_timeout_error : Env K → ℕ → ℕ → Usb K → Usb K
  unfolding send_next_out
  pending_timeout_error env error i s = elim (get_elem? s.pending i) [
    | none ↦ s
    | some p ↦
        send_next_out env (call_error env p.cmd error (record s { pending = erase_at s.pending i }))
  ]

  unfoldable pub pending_resend : Env K → Usb K → Usb K
  unfolding conflict_with_out write send_next_out
  pending_resend env s = elim s.pending [
    | [] ↦ s
    | p ∷ rest ↦
        let t = record s { pending = rest } in
        if conflict_with_out p.cmd t
        then send_next_out env (call_error env p.cmd CmdError.pending_conflict t)
        else write env p.cmd (p.no_sent + 1) t
  ]

  unfoldable pub fail_all : Env K → List (Pending K) → Usb K → Usb K
  fail_all env [] s = s
  fail_all env (p ∷ ps) s = fail_all env ps (call_error env p.cmd CmdError.serial_port_closed s)

  -- The first half of the tick: with the port closed, every pending command fails.
  unfoldable pub flush_closed : Env K → Usb K → Usb K
  unfolding fail_all
  flush_closed env s = if s.is_open then s else record (fail_all env s.pending s) { pending = [] }

  -- The second half: the oldest command is resent, or given up.
  unfoldable pub check_timeout : Env K → Usb K → Usb K
  unfolding pending_timeout_error pending_resend
  check_timeout env s = elim s.pending [
    | [] ↦ s
    | p ∷ rest ↦
        if ltb p.timeout s.now
        then if leb pending_resend_max p.no_sent
          then pending_timeout_error env CmdError.usb_no_response 0 s
          else pending_resend env s
        else s
  ]

  unfoldable pub pending_timer_tick : Env K → Usb K → Usb K
  unfolding flush_closed check_timeout
  pending_timer_tick env s = check_timeout env (flush_closed env s)
