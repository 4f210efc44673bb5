-- ===== src/Usb/Run/Steady.antt =====
-- Runs of MtbUsb (src/mtbusb/mtbusb.cpp) with the port open throughout.
use mtb_daemon.Base.{refl, false}
use mtb_daemon.Usb.{Usb, Env}
use mtb_daemon.Cmd.{Body}
use mtb_daemon.Usb.Queue.{send_new}
use mtb_daemon.Usb.Timer.{pending_timer_tick}
use mtb_daemon.Usb.Keep.{Keeps}
use mtb_daemon.Usb.Keep.Frame.{handle_ready_read_keeps}
use mtb_daemon.Usb.Keep.Sending.{ping_timer_tick_keeps, change_speed_keeps}
use mtb_daemon.Usb.Run.{
  Runs, start, connects, disconnects, receives, ticks, pings, sends, changes_speed, waits,
}

module _ {K : Type 0} (env : Env K) (P : Usb K → Type 0) (kept : Keeps env P)
    (sending : (body : Body) (on_ok on_error : K) (s : Usb K)
      → P s
      → P (send_new env body on_ok on_error s))
    (ticking : (s : Usb K) → P s → P (pending_timer_tick env s)) where
  -- What the operations keep, a run with the port open keeps.
  pub Runs_keeps : {s t : Usb K} → Runs false env s t → P s → P t
  Runs_keeps start h = h
  Runs_keeps (connects opens r m e) h = absurd (cc m)
  Runs_keeps (disconnects fuel r m e) h = absurd (cc m)
  Runs_keeps (receives {s = u} received r) h =
      handle_ready_read_keeps env P kept received u (Runs_keeps r h)
  Runs_keeps (ticks {s = u} r) h = ticking u (Runs_keeps r h)
  Runs_keeps (pings {s = u} on_ok on_error r) h =
      ping_timer_tick_keeps env P sending on_ok on_error u (Runs_keeps r h)
  Runs_keeps (sends {s = u} body on_ok on_error r) h =
      sending body on_ok on_error u (Runs_keeps r h)
  Runs_keeps (changes_speed {s = u} speed nothing on_ok on_error r) h =
      change_speed_keeps env P sending speed nothing on_ok on_error u (Runs_keeps r h)
  Runs_keeps (waits {s = u} ms r) h = kept.same u _ (refl, refl, refl, refl) (Runs_keeps r h)
