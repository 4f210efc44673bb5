-- ===== src/Usb/Progress/Steps.antt =====
-- The steps of clients and single transmissions of src/mtbusb/mtbusb-send.cpp, and waiting commands.
use mtb_daemon.Base.{
  ℕ, ◌≡◌, ◌≢◌, refl, ◌∙◌, Bool, true, false, ◌&&◌, not, List, [], ◌∷◌, ◌++◌, is_empty, arith,
}
use mtb_daemon.Cmd.{Cmd}
use mtb_daemon.Usb.{Usb, Env}
use mtb_daemon.Usb.Queue.{conflicts, pending_cmds, conflict_with_pending, must_wait, push_pending}
use mtb_daemon.Usb.Timer.{flush_closed}
use mtb_daemon.Usb.Client.{
  Step, Acts, observe, enqueue, transmit, fail_to_transmit, set_info, drop_pending, drop_out, close,
  stay, next, allocate,
}
use mtb_daemon.Usb.Progress.{IsLive}

pub append_one-ne-nil {ℓ} : {A : Type ℓ} (xs : List A) (a : A) → xs ++ a ∷ [] ≢ []
append_one-ne-nil [] a e = cc
append_one-ne-nil (x ∷ xs) a e = cc

module _ {K : Type 0} where
  pub push-IsLive : (c : Cmd K) (n : ℕ) (s : Usb K) → s.is_open ≡ true → IsLive (push_pending c n s)
  unfolding push_pending
  push-IsLive c n s o = record {
    opened = o;
    served = λ e. absurd (append_one-ne-nil s.pending _ e);
  }

  -- With nothing pending, only commands that wait already make a command wait.
  pub must_wait_idle :
      (c : Cmd K) (bypass : Bool) (s : Usb K)
      → s.pending ≡ []
      → must_wait c bypass s ≡ (not (is_empty s.out) && not bypass)
  unfolding must_wait conflict_with_pending pending_cmds conflicts
  must_wait_idle c bypass s e = rw (e, must_wait) (ground arith)

  pub not_waiting_idle :
      (c : Cmd K) (s : Usb K) → s.pending ≡ [] → s.out ≡ [] → must_wait c false s ≡ true → ⊥
  not_waiting_idle c s e o w = ground (arith, must_wait_idle c false s e)

  pub not_waiting_bypass : (c : Cmd K) (s : Usb K) → must_wait c true s ≡ true → s.pending ≢ []
  not_waiting_bypass c s w e = ground (arith, must_wait_idle c true s e)

  Step-IsLive : {s t : Usb K} → Step false s t → IsLive s → IsLive t
  Step-IsLive (observe e s) h = record { opened = h.opened; served = h.served }
  Step-IsLive (enqueue body on_ok on_error s w) h = record {
    opened = h.opened;
    served = λ e. absurd (not_waiting_idle _ (allocate s) e (h.served e) w);
  }
  Step-IsLive (transmit body on_ok on_error s w) h = push-IsLive _ 1 _ h.opened
  Step-IsLive (fail_to_transmit s) h = record { opened = h.opened; served = h.served }
  Step-IsLive (set_info info s) h = record { opened = h.opened; served = h.served }
  Step-IsLive (drop_pending s m) h = absurd (cc m)
  Step-IsLive (drop_out s m) h = absurd (cc m)
  Step-IsLive (close s m p o) h = absurd (cc m)

  Step-is_open : {s t : Usb K} → Step false s t → t.is_open ≡ s.is_open
  unfolding push_pending
  Step-is_open (observe e s) = refl
  Step-is_open (enqueue body on_ok on_error s w) = refl
  Step-is_open (transmit body on_ok on_error s w) = refl
  Step-is_open (fail_to_transmit s) = refl
  Step-is_open (set_info info s) = refl
  Step-is_open (drop_pending s m) = refl
  Step-is_open (drop_out s m) = refl
  Step-is_open (close s m p o) = absurd (cc m)

  pub Acts-IsLive : {s t : Usb K} → Acts false s t → IsLive s → IsLive t
  Acts-IsLive stay h = h
  Acts-IsLive (next a st) h = Step-IsLive st (Acts-IsLive a h)

  pub Acts-is_open : {s t : Usb K} → Acts false s t → t.is_open ≡ s.is_open
  Acts-is_open stay = refl
  Acts-is_open (next a st) = Step-is_open st ∙ Acts-is_open a

  pub flush_closed_open : (env : Env K) (s : Usb K) → s.is_open ≡ true → flush_closed env s ≡ s
  unfolding flush_closed
  flush_closed_open env s o = ground arith
