-- ===== src/Usb/Invariant/Handlers.antt =====
-- The handlers of src/mtbusb and the invariant of the queues.
use mtb_daemon.Base.{
  ℕ, ◌+◌, ◌≤◌, ◌<◌, ◌≡◌, refl, inl, inr, Bool, true, false, ◌&&◌, Option, none, some, List, [], ◌∷◌,
  length, All, Bool-cases, if_rule, if◌then◌else◌, ltb, ap, get_elem?, erase_at, leb, arith,
}
use mtb_daemon.Common.CmdError
use mtb_daemon.Cmd.{Cmd, Body, get_bytes}
use mtb_daemon.Usb.{pending_resend_max, Usb, Pending, Env, call_error}
use mtb_daemon.Usb.Queue.{
  pending_cmds, must_wait, conflict_with_pending, conflict_with_out, frame, write, send,
  send_next_out, send_new,
}
use mtb_daemon.Usb.Timer.{
  pending_timeout_error, pending_resend, flush_closed, check_timeout, pending_timer_tick,
}
use mtb_daemon.Usb.Match.{finish_at}
use mtb_daemon.Usb.Client.{IsClient}
use mtb_daemon.Usb.Invariant.{
  QueueInv, Compatible, NoConflict, conflicts-Compatible, push-QueueInv, QueueInv-erase_at,
  QueueInv-subst,
}
use mtb_daemon.Usb.Invariant.Run.{must_wait_room, call_back-QueueInv}

module _ {K : Type 0} {b : Bool} (env : Env K) (client : IsClient b env) where
  write-QueueInv :
      (c : Cmd K) (no_sent : ℕ) (s : Usb K)
      → QueueInv s
      → length s.pending < 3
      → All (Compatible c) (pending_cmds s.pending)
      → 1 ≤ no_sent
      → no_sent ≤ 3
      → QueueInv (write env c no_sent s)
  unfolding write
  write-QueueInv c no_sent s h room free low high =
      elim (Bool-cases (s.is_open && env.accepts s (frame (get_bytes c.body)))) [
        | inl e ↦ rw e (push-QueueInv c no_sent _ (QueueInv-subst s _ refl h) room free low high)
        | inr e ↦ rw e (call_back-QueueInv env client c.on_error _ s h)
      ]

  pub send-QueueInv :
      (c : Cmd K) (bypass : Bool) (s : Usb K) → QueueInv s → QueueInv (send env c bypass s)
  unfolding send conflict_with_pending
  send-QueueInv c bypass s h = elim (Bool-cases (must_wait c bypass s)) [
    | inl e ↦ rw e (QueueInv-subst s _ refl h)
    | inr e ↦ rw e (
        write-QueueInv c 1 s h (must_wait_room c bypass s e).0
          (conflicts-Compatible c (pending_cmds s.pending) (must_wait_room c bypass s e).1)
          (omega arith) (omega arith))
  ]

  pub send_new-QueueInv :
      (body : Body) (on_ok on_error : K) (s : Usb K)
      → QueueInv s
      → QueueInv (send_new env body on_ok on_error s)
  unfolding send_new
  send_new-QueueInv body on_ok on_error s h = send-QueueInv _ false _ (QueueInv-subst s _ refl h)

  send_next_out-QueueInv : (s : Usb K) → QueueInv s → QueueInv (send_next_out env s)
  unfolding send_next_out
  send_next_out-QueueInv s h = out_cases s.out
    where
      out_cases :
          (o : List (Cmd K))
          → QueueInv (elim o [ [] ↦ s | c ∷ rest ↦ send env c true (record s { out = rest }) ])
      out_cases [] = h
      out_cases (c ∷ rest) = send-QueueInv c true _ (QueueInv-subst s _ refl h)

  pub pending_timeout_error-QueueInv :
      (error i : ℕ) (s : Usb K) → QueueInv s → QueueInv (pending_timeout_error env error i s)
  unfolding pending_timeout_error
  pending_timeout_error-QueueInv error i s h = found (get_elem? s.pending i)
    where
      found :
          (o : Option (Pending K))
          → QueueInv (elim o [
            | none ↦ s
            | some p ↦
                send_next_out env
                  (call_error env p.cmd error (record s { pending = erase_at s.pending i }))
          ])
      found none = h
      found (some p) =
          send_next_out-QueueInv _
            (call_back-QueueInv env client _ _ _ (QueueInv-erase_at s _ i refl h))

  -- A command is resent while it was sent fewer than three times.
  resend_first-QueueInv :
      (s : Usb K) (p : Pending K) (rest : List (Pending K))
      → s.pending ≡ p ∷ rest
      → QueueInv s
      → p.no_sent < 3
      → QueueInv (pending_resend env s)
  unfolding pending_resend pending_cmds
  resend_first-QueueInv s p rest e h fewer =
      let t : Usb K = record s { pending = rest } in
      let ht : QueueInv t = QueueInv-erase_at s t 0 (rw e) h in
      let room : length rest < 3 = omega (arith, h.bounded, ap length e) in
      let apart : NoConflict (pending_cmds (p ∷ rest)) = rw e at h.compatible in
      rw (e, pending_resend)
        (if_rule QueueInv (conflict_with_out p.cmd t)
          (λ _. send_next_out-QueueInv _ (call_back-QueueInv env client _ _ t ht))
          (λ _. write-QueueInv p.cmd (p.no_sent + 1) t ht room apart.0 (omega arith) (omega arith)))

  flush_closed-QueueInv : (s : Usb K) → QueueInv s → QueueInv (flush_closed env s)
  unfolding flush_closed pending_cmds
  flush_closed-QueueInv s h =
      if_rule QueueInv s.is_open (λ _. h)
        (λ _. record { bounded = omega arith; compatible = tt; sent = tt })

  check_timeout-QueueInv : (s : Usb K) → QueueInv s → QueueInv (check_timeout env s)
  unfolding check_timeout
  check_timeout-QueueInv s h = oldest s.pending refl
    where
      oldest :
          (ps : List (Pending K))
          → s.pending ≡ ps
          → QueueInv (elim ps [
            | [] ↦ s
            | p ∷ rest ↦
                if ltb p.timeout s.now
                then if leb pending_resend_max p.no_sent
                  then pending_timeout_error env CmdError.usb_no_response 0 s
                  else pending_resend env s
                else s
          ])
      oldest [] e = h
      oldest (p ∷ rest) e =
          if_rule QueueInv (ltb p.timeout s.now)
            (λ _.
              if_rule QueueInv (leb pending_resend_max p.no_sent)
                (λ _. pending_timeout_error-QueueInv CmdError.usb_no_response 0 s h)
                (λ few. resend_first-QueueInv s p rest e h (ground arith)))
            (λ _. h)

  -- The timer keeps the invariant.
  pub pending_timer_tick-QueueInv : (s : Usb K) → QueueInv s → QueueInv (pending_timer_tick env s)
  unfolding pending_timer_tick
  pending_timer_tick-QueueInv s h = check_timeout-QueueInv _ (flush_closed-QueueInv s h)

  pub finish_at-QueueInv : (i : ℕ) (s : Usb K) → QueueInv s → QueueInv (finish_at env i s)
  unfolding finish_at
  finish_at-QueueInv i s h =
      send_next_out-QueueInv (record s { pending = erase_at s.pending i })
        (QueueInv-erase_at s _ i refl h)
