-- ===== src/Usb/Progress/Live.antt =====
-- Whether waiting commands are served, with a port that takes all bytes (src/mtbusb/mtbusb-send.cpp).
use mtb_daemon.Base.{
  ℕ, ◌+◌, ◌≡◌, refl, sym, ◌∙◌, true, false, ◌&&◌, Option, none, some, List, [], ◌∷◌, if◌then◌else◌,
  if_rule, ltb, leb, get_elem?, erase_at, arith,
}
use mtb_daemon.Common.CmdError
use mtb_daemon.Cmd.{Cmd, Body, get_bytes}
use mtb_daemon.Usb.{Usb, Pending, Env, pending_resend_max, call_error, log_event, written}
use mtb_daemon.Usb.Queue.{conflict_with_out, must_wait, frame, write, send, send_next_out, send_new}
use mtb_daemon.Usb.Timer.{pending_timeout_error, pending_resend, check_timeout, pending_timer_tick}
use mtb_daemon.Usb.Match.{finish_at}
use mtb_daemon.Usb.Client.{IsClient, fresh, allocate}
use mtb_daemon.Usb.Keep.{Keeps, SameQueues}
use mtb_daemon.Usb.Run.{Runs}
use mtb_daemon.Usb.Run.Steady.{Runs_keeps}
use mtb_daemon.Usb.Progress.{IsLive}
use mtb_daemon.Usb.Progress.Steps.{
  push-IsLive, not_waiting_idle, not_waiting_bypass, Acts-IsLive, Acts-is_open, flush_closed_open,
}

module _ {K : Type 0} (env : Env K) (client : IsClient false env)
    (takes_all : (s : Usb K) (bytes : List ℕ) → env.accepts s bytes ≡ true) where
  call_error_open :
      (c : Cmd K) (e : ℕ) (s : Usb K) → s.is_open ≡ true → (call_error env c e s).is_open ≡ true
  call_error_open c e s o = Acts-is_open (client.call_Acts c.on_error _ _) ∙ o

  write-IsLive : (c : Cmd K) (n : ℕ) (s : Usb K) → s.is_open ≡ true → IsLive (write env c n s)
  unfolding write
  write-IsLive c n s o =
      let bytes = frame (get_bytes c.body) in
      if_rule IsLive (s.is_open && env.accepts s bytes)
        (λ _. push-IsLive c n (log_event (written bytes) s) o)
        (λ refused. absurd (ground (arith, takes_all s bytes)))

  send-IsLive : (c : Cmd K) (s : Usb K) → IsLive s → IsLive (send env c false s)
  unfolding send
  send-IsLive c s h =
      if_rule IsLive (must_wait c false s)
        (λ w. record {
          opened = h.opened;
          served = λ e. absurd (not_waiting_idle c s e (h.served e) w);
        })
        (λ _. write-IsLive c 1 s h.opened)

  send_new-IsLive :
      (body : Body) (on_ok on_error : K) (s : Usb K)
      → IsLive s
      → IsLive (send_new env body on_ok on_error s)
  unfolding send_new
  send_new-IsLive body on_ok on_error s h =
      send-IsLive (fresh body on_ok on_error s) (allocate s)
        (record { opened = h.opened; served = h.served })

  -- Sending the next command restores what taking a pending one out may have broken.
  send_next_out-IsLive : (s : Usb K) → s.is_open ≡ true → IsLive (send_next_out env s)
  unfolding send_next_out send
  send_next_out-IsLive s o = first s.out refl
    where
      first :
          (cs : List (Cmd K))
          → s.out ≡ cs
          → IsLive (elim cs [ [] ↦ s | c ∷ rest ↦ send env c true (record s { out = rest }) ])
      first [] e = record { opened = o; served = λ _. e }
      first (c ∷ rest) e =
          let t : Usb K = record s { out = rest } in
          if_rule IsLive (must_wait c true t)
            (λ w. record { opened = o; served = λ i. absurd (not_waiting_bypass c t w i) })
            (λ _. write-IsLive c 1 t o)

  pending_timeout_error-IsLive :
      (error i : ℕ) (s : Usb K) → IsLive s → IsLive (pending_timeout_error env error i s)
  unfolding pending_timeout_error
  pending_timeout_error-IsLive error i s h = found (get_elem? s.pending i)
    where
      found :
          (o : Option (Pending K))
          → IsLive (elim o [
            | none ↦ s
            | some p ↦
                send_next_out env
                  (call_error env p.cmd error (record s { pending = erase_at s.pending i }))
          ])
      found none = h
      found (some p) =
          let t : Usb K = record s { pending = erase_at s.pending i } in
          send_next_out-IsLive (call_error env p.cmd error t)
            (call_error_open p.cmd error t h.opened)

  pending_resend-IsLive : (s : Usb K) → IsLive s → IsLive (pending_resend env s)
  unfolding pending_resend
  pending_resend-IsLive s h = oldest s.pending
    where
      oldest :
          (ps : List (Pending K))
          → IsLive (elim ps [
            | [] ↦ s
            | p ∷ rest ↦
                let t = record s { pending = rest } in
                if conflict_with_out p.cmd t
                then send_next_out env (call_error env p.cmd CmdError.pending_conflict t)
                else write env p.cmd (p.no_sent + 1) t
          ])
      oldest [] = h
      oldest (p ∷ rest) =
          let t : Usb K = record s { pending = rest } in
          if_rule IsLive (conflict_with_out p.cmd t)
            (λ _.
              send_next_out-IsLive (call_error env p.cmd CmdError.pending_conflict t)
                (call_error_open p.cmd CmdError.pending_conflict t h.opened))
            (λ _. write-IsLive p.cmd (p.no_sent + 1) t h.opened)

  check_timeout-IsLive : (s : Usb K) → IsLive s → IsLive (check_timeout env s)
  unfolding check_timeout
  check_timeout-IsLive s h = oldest s.pending
    where
      oldest :
          (ps : List (Pending K))
          → IsLive (elim ps [
            | [] ↦ s
            | p ∷ rest ↦
                if ltb p.timeout s.now
                then if leb pending_resend_max p.no_sent
                  then pending_timeout_error env CmdError.usb_no_response 0 s
                  else pending_resend env s
                else s
          ])
      oldest [] = h
      oldest (p ∷ rest) =
          if_rule IsLive (ltb p.timeout s.now)
            (λ _.
              if_rule IsLive (leb pending_resend_max p.no_sent)
                (λ _. pending_timeout_error-IsLive CmdError.usb_no_response 0 s h)
                (λ _. pending_resend-IsLive s h))
            (λ _. h)

  pending_timer_tick-IsLive : (s : Usb K) → IsLive s → IsLive (pending_timer_tick env s)
  unfolding pending_timer_tick
  pending_timer_tick-IsLive s h = rw (flush_closed_open env s h.opened) (check_timeout-IsLive s h)

  same-IsLive : (s t : Usb K) → SameQueues s t → IsLive s → IsLive t
  same-IsLive s t e h = record {
    opened = e.0 ∙ h.opened;
    served = λ i. e.2 ∙ h.served (sym e.1 ∙ i);
  }

  IsLive-Keeps : Keeps env IsLive
  unfolding finish_at
  IsLive-Keeps = record {
    same = same-IsLive;
    calls = λ k r s h.
        Acts-IsLive (client.call_Acts k r _) (same-IsLive s _ (refl, refl, refl, refl) h);
    emits = λ sig s h.
        Acts-IsLive (client.signal_Acts sig _) (same-IsLive s _ (refl, refl, refl, refl) h);
    timeout = pending_timeout_error-IsLive;
    finish =
        λ i c s g h. send_next_out-IsLive (record s { pending = erase_at s.pending i }) h.opened;
  }

  -- In a run in which the port stays open and takes all bytes, from a state in which commands wait
  -- to be sent only while a command is pending, the port is open at the end, and commands wait to
  -- be sent only while a command is pending.
  pub Runs-IsLive : {s t : Usb K} → Runs false env s t → IsLive s → IsLive t
  Runs-IsLive r h = Runs_keeps env IsLive IsLive-Keeps send_new-IsLive pending_timer_tick-IsLive r h
