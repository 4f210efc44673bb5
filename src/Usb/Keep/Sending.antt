-- ===== src/Usb/Keep/Sending.antt =====
-- The ping and the change of speed (src/mtbusb/mtbusb.cpp), and what sending a command keeps.
use mtb_daemon.Base.{ℕ, ◌&&◌, Option, none, some, if_rule, if◌then◌else◌}
use mtb_daemon.Cmd.{Body, usb_ping, module_change_speed}
use mtb_daemon.Usb.{Usb, UsbInfo, Env}
use mtb_daemon.Usb.Queue.{send_new}
use mtb_daemon.Usb.Port.{ping_timer_tick, change_speed}

module _ {K : Type 0} (env : Env K) (P : Usb K → Type 0)
    (sending : (body : Body) (on_ok on_error : K) (s : Usb K)
      → P s
      → P (send_new env body on_ok on_error s)) where
  pub ping_timer_tick_keeps :
      (on_ok on_error : K) (s : Usb K) → P s → P (ping_timer_tick env on_ok on_error s)
  unfolding ping_timer_tick
  ping_timer_tick_keeps on_ok on_error s h =
      if_rule P (s.is_open && s.ping) (λ _. sending usb_ping on_ok on_error s h) (λ _. h)

  pub change_speed_keeps :
      (speed : ℕ) (nothing on_ok on_error : K) (s : Usb K)
      → P s
      → P (change_speed env speed nothing on_ok on_error s)
  unfolding change_speed
  change_speed_keeps speed nothing on_ok on_error s h = known s.info
    where
      body : Body
      body = module_change_speed 0 speed

      known :
          (o : Option UsbInfo)
          → P (elim o [
            | none ↦ s
            | some info ↦
                if s.is_open
                then send_new env body on_ok on_error
                    (send_new env body nothing nothing (send_new env body nothing nothing s))
                else s
          ])
      known none = h
      known (some info) =
          if_rule P s.is_open (λ _. sending _ _ _ _ (sending _ _ _ _ (sending _ _ _ s h))) (λ _. h)
