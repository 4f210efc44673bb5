-- ===== src/Usb/Keep/Frame.antt =====
-- Reading the input buffer (src/mtbusb/mtbusb-receive.cpp) and what single operations keep.
use mtb_daemon.Base.{ℕ, zero, suc, refl, List, length}
use mtb_daemon.Usb.{Usb, Env, log_event, undefined}
use mtb_daemon.Usb.Receive.{parse_mtbusb_message}
use mtb_daemon.Usb.Frame.{
  Head, incomplete, broken, message, next_frame, read_frames, fill_buffer, handle_ready_read,
}
use mtb_daemon.Usb.Keep.{Keeps}
use mtb_daemon.Usb.Keep.Receive.{parse_mtbusb_message_keeps}

module _ {K : Type 0} (env : Env K) (P : Usb K → Type 0) (kept : Keeps env P) where
  read_frames_keeps : (fuel : ℕ) (s : Usb K) → P s → P (read_frames fuel env s)
  unfolding read_frames
  read_frames_keeps zero s h = h
  read_frames_keeps (suc fuel) s h =
      head_cases (next_frame s.read_data) (λ t ht. read_frames_keeps fuel t ht)
    where
      head_cases :
          (x : Head)
          → ((t : Usb K) → P t → P (read_frames fuel env t))
          → P (elim x [
            | incomplete ↦ s
            | broken ↦ log_event undefined s
            | message code bytes rest ↦
                let t = parse_mtbusb_message env code bytes s in
                read_frames fuel env (record t { read_data = rest })
          ])
      head_cases incomplete next = h
      head_cases broken next = kept.same s _ (refl, refl, refl, refl) h
      head_cases (message code bytes rest) next =
          let t : Usb K = parse_mtbusb_message env code bytes s in
          next (record t { read_data = rest })
            (kept.same t _ (refl, refl, refl, refl)
              (parse_mtbusb_message_keeps env P kept code bytes s h))

  pub handle_ready_read_keeps :
      (received : List ℕ) (s : Usb K) → P s → P (handle_ready_read env received s)
  unfolding handle_ready_read fill_buffer
  handle_ready_read_keeps received s h =
      let t : Usb K = fill_buffer received s in
      let u : Usb K = read_frames (length t.read_data) env t in
      kept.same u _ (refl, refl, refl, refl)
        (read_frames_keeps (length t.read_data) t (kept.same s t (refl, refl, refl, refl) h))
