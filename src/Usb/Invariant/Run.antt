-- ===== src/Usb/Invariant/Run.antt =====
-- Clients of MtbUsb (src/mtbusb/mtbusb.h) and the invariant of the queues.
use mtb_daemon.Base.{◌<◌, ◌≡◌, refl, Bool, false, List, [], ◌∷◌, drop, erase_at, length, arith}
use mtb_daemon.Cmd.{Cmd}
use mtb_daemon.Cmd.Reply.{Reply}
use mtb_daemon.Usb.{Usb, Pending, Env, Signal, call_back, emit}
use mtb_daemon.Usb.Queue.{conflict_with_pending, pending_cmds, must_wait, push_pending}
use mtb_daemon.Usb.Client.{
  Step, Acts, IsClient, observe, enqueue, transmit, fail_to_transmit, set_info, drop_pending,
  drop_out, close, stay, next, fresh, allocate,
}
use mtb_daemon.Usb.Invariant.{
  QueueInv, conflicts-Compatible, push-QueueInv, QueueInv-erase_at, QueueInv-subst,
}

module _ {K : Type 0} where
  pub must_wait_room :
      (c : Cmd K) (bypass : Bool) (s : Usb K)
      → must_wait c bypass s ≡ false
      → (length s.pending < 3) × (conflict_with_pending c s ≡ false)
  unfolding must_wait
  must_wait_room c bypass s h = ground arith

  -- What does not have to wait may become pending.
  pub push-QueueInv_of_must_wait :
      (c : Cmd K) (bypass : Bool) (s t : Usb K)
      → must_wait c bypass s ≡ false
      → t.pending ≡ s.pending
      → QueueInv s
      → QueueInv (push_pending c 1 t)
  unfolding conflict_with_pending
  push-QueueInv_of_must_wait c bypass s t w e h =
      push-QueueInv c 1 t (QueueInv-subst s t e h) (rw e (must_wait_room c bypass s w).0)
        (rw e (conflicts-Compatible c (pending_cmds s.pending) (must_wait_room c bypass s w).1))
        (omega arith) (omega arith)

  drop-erase_at : (ps : List (Pending K)) → drop 1 ps ≡ erase_at ps 0
  drop-erase_at [] = refl
  drop-erase_at (p ∷ ps) = refl

  Step-QueueInv : {b : Bool} {s t : Usb K} → Step b s t → QueueInv s → QueueInv t
  Step-QueueInv (observe e s) h = QueueInv-subst s _ refl h
  Step-QueueInv (enqueue body on_ok on_error s w) h = QueueInv-subst s _ refl h
  Step-QueueInv (transmit body on_ok on_error s w) h =
      push-QueueInv_of_must_wait (fresh body on_ok on_error s) false (allocate s) _ w refl
        (QueueInv-subst s (allocate s) refl h)
  Step-QueueInv (fail_to_transmit s) h = QueueInv-subst s _ refl h
  Step-QueueInv (set_info info s) h = QueueInv-subst s _ refl h
  Step-QueueInv (drop_pending s m) h = QueueInv-erase_at s _ 0 (drop-erase_at s.pending) h
  Step-QueueInv (drop_out s m) h = QueueInv-subst s _ refl h
  Step-QueueInv (close s m p o) h = QueueInv-subst s _ refl h

  pub Acts-QueueInv : {b : Bool} {s t : Usb K} → Acts b s t → QueueInv s → QueueInv t
  Acts-QueueInv stay h = h
  Acts-QueueInv (next a st) h = Step-QueueInv st (Acts-QueueInv a h)

  module _ {b : Bool} (env : Env K) (client : IsClient b env) where
    pub call_back-QueueInv :
        (k : K) (r : Reply) (s : Usb K) → QueueInv s → QueueInv (call_back env k r s)
    call_back-QueueInv k r s h = Acts-QueueInv (client.call_Acts k r _) (QueueInv-subst s _ refl h)

    pub emit-QueueInv : (sig : Signal) (s : Usb K) → QueueInv s → QueueInv (emit env sig s)
    emit-QueueInv sig s h = Acts-QueueInv (client.signal_Acts sig _) (QueueInv-subst s _ refl h)
