-- ===== src/Usb/Run/Queues.antt =====
-- The invariant of the queues of src/mtbusb/mtbusb.h in runs.
use mtb_daemon.Base.{
  ℕ, zero, suc, ◌≡◌, refl, Bool, true, false, Option, none, some, List, [], ◌∷◌, if_rule, arith,
}
use mtb_daemon.Common.CmdError
use mtb_daemon.Cmd.{Cmd}
use mtb_daemon.Usb.{
  Usb, Pending, Env, emit, on_connect, on_disconnect, log_event, call_error, undefined,
}
use mtb_daemon.Usb.Queue.{pending_cmds}
use mtb_daemon.Usb.Port.{
  pop_pending, pop_out, fail_pending, fail_out, sp_about_to_close, disconnect, connect,
}
use mtb_daemon.Usb.Client.{IsClient}
use mtb_daemon.Usb.Keep.{Keeps}
use mtb_daemon.Usb.Keep.Frame.{handle_ready_read_keeps}
use mtb_daemon.Usb.Keep.Sending.{ping_timer_tick_keeps, change_speed_keeps}
use mtb_daemon.Usb.Invariant.{QueueInv, QueueInv-subst, QueueInv-erase_at}
use mtb_daemon.Usb.Invariant.Run.{call_back-QueueInv, emit-QueueInv}
use mtb_daemon.Usb.Invariant.Handlers.{
  send_new-QueueInv, pending_timer_tick-QueueInv, pending_timeout_error-QueueInv,
  finish_at-QueueInv,
}
use mtb_daemon.Usb.Run.{
  initial, Runs, start, connects, disconnects, receives, ticks, pings, sends, changes_speed, waits,
}

module _ {K : Type 0} {b : Bool} (env : Env K) (client : IsClient b env) where
  QueueInv-Keeps : Keeps env QueueInv
  QueueInv-Keeps = record {
    same = λ s t e h. QueueInv-subst s t e.1 h;
    calls = call_back-QueueInv env client;
    emits = emit-QueueInv env client;
    timeout = pending_timeout_error-QueueInv env client;
    finish = λ i c s g h. finish_at-QueueInv env client i s h;
  }

  pop_pending-QueueInv : (s : Usb K) → QueueInv s → QueueInv (pop_pending s)
  unfolding pop_pending
  pop_pending-QueueInv s h = first s.pending refl
    where
      first :
          (ps : List (Pending K))
          → s.pending ≡ ps
          → QueueInv
              (elim ps [ [] ↦ log_event undefined s | p ∷ rest ↦ record s { pending = rest } ])
      first [] e = QueueInv-subst s _ refl h
      first (p ∷ rest) e = QueueInv-erase_at s _ 0 (rw e) h

  -- What an unfinished or finished loop leaves.
  abbrev Leaves : Option (Usb K) → Type 0
  Leaves none = Unit
  Leaves (some t) = QueueInv t

  fail_pending-Leaves : (fuel : ℕ) (s : Usb K) → QueueInv s → Leaves (fail_pending fuel env s)
  unfolding fail_pending
  fail_pending-Leaves zero s h = tt
  fail_pending-Leaves (suc fuel) s h = first s.pending (λ t ht. fail_pending-Leaves fuel t ht)
    where
      first :
          (ps : List (Pending K))
          → ((t : Usb K) → QueueInv t → Leaves (fail_pending fuel env t))
          → Leaves (elim ps [
            | [] ↦ some s
            | p ∷ rest ↦
                fail_pending fuel env
                  (pop_pending (call_error env p.cmd CmdError.serial_port_closed s))
          ])
      first [] next = h
      first (p ∷ rest) next =
          next _ (pop_pending-QueueInv _ (call_back-QueueInv env client p.cmd.on_error _ s h))

  pop_out-QueueInv : (s : Usb K) → QueueInv s → QueueInv (pop_out s)
  unfolding pop_out
  pop_out-QueueInv s h = first s.out
    where
      first :
          (cs : List (Cmd K))
          → QueueInv (elim cs [ [] ↦ log_event undefined s | c ∷ rest ↦ record s { out = rest } ])
      first [] = QueueInv-subst s _ refl h
      first (c ∷ rest) = QueueInv-subst s _ refl h

  fail_out-Leaves : (fuel : ℕ) (s : Usb K) → QueueInv s → Leaves (fail_out fuel env s)
  unfolding fail_out
  fail_out-Leaves zero s h = tt
  fail_out-Leaves (suc fuel) s h = first s.out (λ t ht. fail_out-Leaves fuel t ht)
    where
      first :
          (cs : List (Cmd K))
          → ((t : Usb K) → QueueInv t → Leaves (fail_out fuel env t))
          → Leaves (elim cs [
            | [] ↦ some s
            | c ∷ rest ↦
                fail_out fuel env (pop_out (call_error env c CmdError.serial_port_closed s))
          ])
      first [] next = h
      first (c ∷ rest) next =
          next _ (pop_out-QueueInv _ (call_back-QueueInv env client c.on_error _ s h))

  sp_about_to_close-Leaves :
      (fuel : ℕ) (s : Usb K) → QueueInv s → Leaves (sp_about_to_close fuel env s)
  unfolding sp_about_to_close
  sp_about_to_close-Leaves fuel s h =
      flushed (fail_pending fuel env s) (fail_pending-Leaves fuel s h)
    where
      closed :
          (o : Option (Usb K))
          → Leaves o
          → Leaves
              (elim o [ none ↦ none | some u ↦ some (record u { info = none; active = none }) ])
      closed none k = tt
      closed (some u) k = QueueInv-subst u _ refl k

      flushed :
          (o : Option (Usb K))
          → Leaves o
          → Leaves (elim o [
            | none ↦ none
            | some t ↦ elim (fail_out fuel env t) [
              | none ↦ none
              | some u ↦ some (record u { info = none; active = none })
            ]
          ])
      flushed none k = tt
      flushed (some t) k = closed (fail_out fuel env t) (fail_out-Leaves fuel t k)

  disconnect-Leaves : (fuel : ℕ) (s : Usb K) → QueueInv s → Leaves (disconnect fuel env s)
  unfolding disconnect
  disconnect-Leaves fuel s h =
      if_rule Leaves s.is_open
        (λ _. emitted (sp_about_to_close fuel env s) (sp_about_to_close-Leaves fuel s h)) (λ _. h)
    where
      emitted :
          (o : Option (Usb K))
          → Leaves o
          → Leaves (elim o [
            | none ↦ none
            | some t ↦ some (emit env on_disconnect (record t { is_open = false }))
          ])
      emitted none k = tt
      emitted (some t) k =
          emit-QueueInv env client on_disconnect (record t { is_open = false })
            (QueueInv-subst t _ refl k)

  Leaves-some : {o : Option (Usb K)} {t : Usb K} → o ≡ some t → Leaves o → QueueInv t
  Leaves-some e h = rw e at h

  connect-QueueInv : (opens : Bool) (s : Usb K) → QueueInv s → Leaves (connect env opens s)
  unfolding connect
  connect-QueueInv opens s h =
      if_rule Leaves opens
        (λ _.
          emit-QueueInv env client on_connect (record s { is_open = true })
            (QueueInv-subst s _ refl h))
        (λ _. tt)

  -- In every run from the start, whatever the clients do, at most three commands wait for a
  -- response, no two of them are in conflict, and each of them was sent once, twice or three times.
  pub Runs-QueueInv : {now : ℕ} {s : Usb K} → Runs true env (initial now) s → QueueInv s
  unfolding pending_cmds
  Runs-QueueInv start = record { bounded = omega arith; compatible = tt; sent = tt }
  Runs-QueueInv (connects {s = s} opens r m e) =
      Leaves-some e (connect-QueueInv opens s (Runs-QueueInv r))
  Runs-QueueInv (disconnects {s = s} fuel r m e) =
      Leaves-some e (disconnect-Leaves fuel s (Runs-QueueInv r))
  Runs-QueueInv (receives {s = s} received r) =
      handle_ready_read_keeps env QueueInv QueueInv-Keeps received s (Runs-QueueInv r)
  Runs-QueueInv (ticks {s = s} r) = pending_timer_tick-QueueInv env client s (Runs-QueueInv r)
  Runs-QueueInv (pings {s = s} on_ok on_error r) =
      ping_timer_tick_keeps env QueueInv (send_new-QueueInv env client) on_ok on_error s
        (Runs-QueueInv r)
  Runs-QueueInv (sends {s = s} body on_ok on_error r) =
      send_new-QueueInv env client body on_ok on_error s (Runs-QueueInv r)
  Runs-QueueInv (changes_speed {s = s} speed nothing on_ok on_error r) =
      change_speed_keeps env QueueInv (send_new-QueueInv env client) speed nothing on_ok on_error s
        (Runs-QueueInv r)
  Runs-QueueInv (waits {s = s} ms r) = QueueInv-subst s _ refl (Runs-QueueInv r)
