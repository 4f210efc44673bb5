-- ===== src/Usb/Progress/Stalled.antt =====
-- Stalled queues: src/mtbusb/mtbusb-hist.cpp and mtbusb-send.cpp with a port that refuses bytes.
use mtb_daemon.Base.{
  ℕ, ◌+◌, ◌<◌, ◌≡◌, ◌≢◌, refl, sym, subst, ◌∙◌, true, false, List, [], ◌∷◌, get_elem?, arith, ap,
}
use mtb_daemon.Common.CmdError
use mtb_daemon.Cmd.{Cmd, Body, get_bytes}
use mtb_daemon.Usb.{Usb, Pending, Env, call_error}
use mtb_daemon.Usb.Queue.{conflict_with_out, must_wait, frame, write, send, send_new}
use mtb_daemon.Usb.Timer.{
  pending_timeout_error, pending_resend, flush_closed, check_timeout, pending_timer_tick,
}
use mtb_daemon.Usb.Client.{
  Step, Acts, IsClient, observe, enqueue, transmit, fail_to_transmit, set_info, drop_pending,
  drop_out, close, stay, next, fresh, allocate,
}
use mtb_daemon.Usb.Keep.{Keeps, SameQueues}
use mtb_daemon.Usb.Run.{Runs}
use mtb_daemon.Usb.Run.Steady.{Runs_keeps}
use mtb_daemon.Usb.Progress.{IsStalled}
use mtb_daemon.Usb.Progress.Steps.{append_one-ne-nil, must_wait_idle, flush_closed_open}

module _ {K : Type 0} where
  must_wait_stalled :
      (c : Cmd K) (s : Usb K) → s.pending ≡ [] → s.out ≢ [] → must_wait c false s ≡ true
  must_wait_stalled c s e w = ground (arith, must_wait_idle c false s e)

  same-IsStalled : (s t : Usb K) → SameQueues s t → IsStalled s → IsStalled t
  same-IsStalled s t e h = record {
    opened = e.0 ∙ h.opened;
    idle = e.1 ∙ h.idle;
    waiting = λ n. h.waiting (sym e.2 ∙ n);
  }

  Step-IsStalled : {s t : Usb K} → Step false s t → IsStalled s → IsStalled t
  Step-IsStalled (observe e s) h = record { opened = h.opened; idle = h.idle; waiting = h.waiting }
  Step-IsStalled (enqueue body on_ok on_error s w) h = record {
    opened = h.opened;
    idle = h.idle;
    waiting = append_one-ne-nil s.out _;
  }
  Step-IsStalled (transmit body on_ok on_error s w) h =
      let waits : must_wait (fresh body on_ok on_error s) false (allocate s) ≡ true =
        must_wait_stalled _ (allocate s) h.idle h.waiting in
      absurd (cc (sym w ∙ waits))
  Step-IsStalled (fail_to_transmit s) h = record {
    opened = h.opened;
    idle = h.idle;
    waiting = h.waiting;
  }
  Step-IsStalled (set_info info s) h = record {
    opened = h.opened;
    idle = h.idle;
    waiting = h.waiting;
  }
  Step-IsStalled (drop_pending s m) h = absurd (cc m)
  Step-IsStalled (drop_out s m) h = absurd (cc m)
  Step-IsStalled (close s m p o) h = absurd (cc m)

  Acts-IsStalled : {s t : Usb K} → Acts false s t → IsStalled s → IsStalled t
  Acts-IsStalled stay h = h
  Acts-IsStalled (next a st) h = Step-IsStalled st (Acts-IsStalled a h)

module _ {K : Type 0} (env : Env K) (client : IsClient false env) where
  send_new-IsStalled :
      (body : Body) (on_ok on_error : K) (s : Usb K)
      → IsStalled s
      → IsStalled (send_new env body on_ok on_error s)
  unfolding send_new send
  send_new-IsStalled body on_ok on_error s h =
      rw (must_wait_stalled (fresh body on_ok on_error s) (allocate s) h.idle h.waiting)
        (record { opened = h.opened; idle = h.idle; waiting = append_one-ne-nil s.out _ })

  pending_timer_tick-IsStalled : (s : Usb K) → IsStalled s → IsStalled (pending_timer_tick env s)
  unfolding pending_timer_tick flush_closed check_timeout
  pending_timer_tick-IsStalled s h = subst IsStalled (sym same) h
    where
      same : check_timeout env (flush_closed env s) ≡ s
      same = ground (arith, h.opened, h.idle)

  IsStalled-Keeps : Keeps env IsStalled
  unfolding pending_timeout_error
  IsStalled-Keeps = record {
    same = same-IsStalled;
    calls = λ k r s h.
        Acts-IsStalled (client.call_Acts k r _) (same-IsStalled s _ (refl, refl, refl, refl) h);
    emits = λ sig s h.
        Acts-IsStalled (client.signal_Acts sig _) (same-IsStalled s _ (refl, refl, refl, refl) h);
    timeout = λ error i s h. rw (h.idle, pending_timeout_error) h;
    finish = λ i c s g h. absurd (cc (sym (ap (λ ps. get_elem? ps i) h.idle) ∙ g));
  }

  -- In a run in which clients do not close the port, from a state in which the port is open,
  -- commands wait to be sent and none is pending, the same holds at the end, whatever MTB-USB
  -- answers and the clients send.
  pub Runs-IsStalled : {s t : Usb K} → Runs false env s t → IsStalled s → IsStalled t
  Runs-IsStalled r h =
      Runs_keeps env IsStalled IsStalled-Keeps send_new-IsStalled pending_timer_tick-IsStalled r h

  refused_write :
      (c : Cmd K) (n : ℕ) (s : Usb K)
      → env.accepts s (frame (get_bytes c.body)) ≡ false
      → write env c n s ≡ call_error env c CmdError.serial_port_closed s
  unfolding write
  refused_write c n s r = ground arith

  check_timeout-resend :
      (s : Usb K) (p : Pending K) (rest : List (Pending K))
      → s.pending ≡ p ∷ rest
      → p.timeout < s.now
      → p.no_sent < 3
      → check_timeout env s ≡ pending_resend env s
  unfolding check_timeout
  check_timeout-resend s p rest e late few = ground arith

  pending_resend-write :
      (s : Usb K) (p : Pending K) (rest : List (Pending K))
      → s.pending ≡ p ∷ rest
      → conflict_with_out p.cmd s ≡ false
      → pending_resend env s ≡ write env p.cmd (p.no_sent + 1) (record s { pending = rest })
  unfolding pending_resend conflict_with_out
  pending_resend-write s p rest e free = ground arith

  -- With the port open, one command pending and others waiting: if the pending command's time is
  -- over, it was sent fewer than three times, no waiting command is in conflict with it, and the
  -- port refuses its bytes, then the timer leaves a stalled queue.
  pub pending_timer_tick_refused-IsStalled :
      (s : Usb K) (p : Pending K)
      → s.is_open ≡ true
      → s.pending ≡ p ∷ []
      → s.out ≢ []
      → p.timeout < s.now
      → p.no_sent < 3
      → conflict_with_out p.cmd s ≡ false
      → env.accepts (record s { pending = [] }) (frame (get_bytes p.cmd.body)) ≡ false
      → IsStalled (pending_timer_tick env s)
  unfolding pending_timer_tick
  pending_timer_tick_refused-IsStalled s p o e w late few free refused =
      let t : Usb K = record s { pending = [] } in
      let failed_once : check_timeout env s ≡ call_error env p.cmd CmdError.serial_port_closed t =
        check_timeout-resend s p [] e late few
        ∙ pending_resend-write s p [] e free
        ∙ refused_write p.cmd (p.no_sent + 1) t refused in
      subst IsStalled (sym (ap (check_timeout env) (flush_closed_open env s o) ∙ failed_once)) (
        Acts-IsStalled (client.call_Acts p.cmd.on_error _ _)
          (record { opened = o; idle = refl; waiting = w }))
