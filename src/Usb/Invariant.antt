-- ===== src/Usb/Invariant.antt =====
-- The invariant of the two queues of MtbUsb (src/mtbusb/mtbusb.h), and the steps of clients.
pub mod Run
pub mod Handlers
use mtb_daemon.Base.{
  ℕ, zero, suc, ◌+◌, ◌≤◌, ◌<◌, ◌≡◌, ◌⊎◌, inl, inr, refl, ap, Bool, true, false, ◌||◌, List, [], ◌∷◌,
  ◌++◌, All, All-append, length, length-append, erase_at, drop, Bool-cases, arith,
}
use mtb_daemon.Cmd.{Cmd, conflict}
use mtb_daemon.Usb.{Usb, Pending, Env}
use mtb_daemon.Usb.Queue.{conflicts, pending_cmds, must_wait, push_pending}
use mtb_daemon.Usb.Client.{
  Step, Acts, observe, enqueue, transmit, fail_to_transmit, set_info, drop_pending, drop_out, close,
  stay, next, fresh, allocate,
}

module _ {K : Type 0} where
  abbrev pub Compatible : Cmd K → Cmd K → Type 0
  Compatible c d = (conflict d.body c.body ≡ false) × (conflict c.body d.body ≡ false)

  abbrev pub NoConflict : List (Cmd K) → Type 0
  NoConflict [] = Unit
  NoConflict (c ∷ cs) = All (Compatible c) cs × NoConflict cs

  abbrev pub SentInRange : Pending K → Type 0
  SentInRange p = (1 ≤ p.no_sent) × (p.no_sent ≤ 3)

  pub record QueueInv (s : Usb K) : Type 0 where
    pub bounded : length s.pending ≤ 3
    pub compatible : NoConflict (pending_cmds s.pending)
    pub sent : All SentInRange s.pending

  pub conflicts-Compatible :
      (c : Cmd K) (cs : List (Cmd K)) → conflicts c cs ≡ false → All (Compatible c) cs
  unfolding conflicts
  conflicts-Compatible c [] h = tt
  conflicts-Compatible c (d ∷ ds) h = (ground arith, conflicts-Compatible c ds (ground arith))

  NoConflict-append :
      (cs : List (Cmd K)) (c : Cmd K)
      → NoConflict cs
      → All (Compatible c) cs
      → NoConflict (cs ++ c ∷ [])
  NoConflict-append [] c h k = (tt, tt)
  NoConflict-append (d ∷ ds) c h k = (
    All-append (Compatible d) ds (c ∷ []) h.0 ((k.0.1, k.0.0), tt),
    NoConflict-append ds c h.1 k.1,
  )

  pending_cmds-append :
      (ps : List (Pending K)) (p : Pending K)
      → pending_cmds (ps ++ p ∷ []) ≡ pending_cmds ps ++ p.cmd ∷ []
  unfolding pending_cmds
  pending_cmds-append [] p = refl
  pending_cmds-append (q ∷ ps) p = ap (◌∷◌ q.cmd) (pending_cmds-append ps p)

  -- A pending command goes to the end of a list that has room for it and no conflict with it.
  pub push-QueueInv :
      (c : Cmd K) (no_sent : ℕ) (s : Usb K)
      → QueueInv s
      → length s.pending < 3
      → All (Compatible c) (pending_cmds s.pending)
      → 1 ≤ no_sent
      → no_sent ≤ 3
      → QueueInv (push_pending c no_sent s)
  unfolding push_pending
  push-QueueInv c no_sent s h room free low high = record {
    bounded = omega (arith, length-append {0} s.pending _);
    compatible =
        rw (pending_cmds-append s.pending _)
          (NoConflict-append (pending_cmds s.pending) c h.compatible free);
    sent = All-append SentInRange s.pending _ h.sent ((low, high), tt);
  }

  pending_cmds-erase_at :
      (c : Cmd K) (ps : List (Pending K)) (i : ℕ)
      → All (Compatible c) (pending_cmds ps)
      → All (Compatible c) (pending_cmds (erase_at ps i))
  unfolding pending_cmds
  pending_cmds-erase_at c [] i h = h
  pending_cmds-erase_at c (p ∷ ps) zero h = h.1
  pending_cmds-erase_at c (p ∷ ps) (suc i) h = (h.0, pending_cmds-erase_at c ps i h.1)

  NoConflict-erase_at :
      (ps : List (Pending K)) (i : ℕ)
      → NoConflict (pending_cmds ps)
      → NoConflict (pending_cmds (erase_at ps i))
  unfolding pending_cmds
  NoConflict-erase_at [] i h = h
  NoConflict-erase_at (p ∷ ps) zero h = h.1
  NoConflict-erase_at (p ∷ ps) (suc i) h =
      (pending_cmds-erase_at p.cmd ps i h.0, NoConflict-erase_at ps i h.1)

  length-erase_at-le : (ps : List (Pending K)) (i : ℕ) → length (erase_at ps i) ≤ length ps
  length-erase_at-le [] i = omega arith
  length-erase_at-le (p ∷ ps) zero = omega arith
  length-erase_at-le (p ∷ ps) (suc i) = omega (arith, length-erase_at-le ps i)

  All-erase_at :
      (ps : List (Pending K)) (i : ℕ) → All SentInRange ps → All SentInRange (erase_at ps i)
  All-erase_at [] i h = h
  All-erase_at (p ∷ ps) zero h = h.1
  All-erase_at (p ∷ ps) (suc i) h = (h.0, All-erase_at ps i h.1)

  -- The invariant reads the pending commands only.
  pub QueueInv-erase_at :
      (s t : Usb K) (i : ℕ) → t.pending ≡ erase_at s.pending i → QueueInv s → QueueInv t
  QueueInv-erase_at s t i e h = record {
    bounded = rw e (omega (arith, h.bounded, length-erase_at-le s.pending i));
    compatible = rw e (NoConflict-erase_at s.pending i h.compatible);
    sent = rw e (All-erase_at s.pending i h.sent);
  }

  pub QueueInv-subst : (s t : Usb K) → t.pending ≡ s.pending → QueueInv s → QueueInv t
  QueueInv-subst s t e h = record {
    bounded = rw e h.bounded;
    compatible = rw e h.compatible;
    sent = rw e h.sent;
  }
