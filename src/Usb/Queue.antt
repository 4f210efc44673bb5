-- ===== src/Usb/Queue.antt =====
-- src/mtbusb/mtbusb-send.cpp and the conflict tests of src/mtbusb/mtbusb-hist.cpp: commands that
-- wait for their response (`pending`) and commands that wait to be sent (`out`).
use mtb_daemon.Base.{
  ℕ, suc, ◌+◌, ◌%◌, Bool, true, false, not, ◌&&◌, ◌||◌, List, [], ◌∷◌, ◌++◌, length, is_empty, leb,
  if◌then◌else◌,
}
use mtb_daemon.Common.CmdError
use mtb_daemon.Cmd.{Cmd, Body, get_bytes, conflict}
use mtb_daemon.Usb.{Usb, Pending, Env, written, max_pending, pending_timeout, log_event, call_error}

-- The frame that `send(std::vector<uint8_t>)` writes.
unfoldable pub frame : List ℕ → List ℕ
frame bytes = 0x2A ∷ 0x42 ∷ (length bytes % 256) ∷ bytes

module _ {K : Type 0} where
  unfoldable pub conflicts : Cmd K → List (Cmd K) → Bool
  conflicts c [] = false
  conflicts c (d ∷ ds) = (conflict d.body c.body || conflict c.body d.body) || conflicts c ds

  unfoldable pub pending_cmds : List (Pending K) → List (Cmd K)
  pending_cmds [] = []
  pending_cmds (p ∷ ps) = p.cmd ∷ pending_cmds ps

  unfoldable pub conflict_with_pending : Cmd K → Usb K → Bool
  unfolding conflicts pending_cmds
  conflict_with_pending c s = conflicts c (pending_cmds s.pending)

  unfoldable pub conflict_with_out : Cmd K → Usb K → Bool
  unfolding conflicts
  conflict_with_out c s = conflicts c s.out

  -- A command that has gone out becomes the last pending one.
  unfoldable pub push_pending : Cmd K → ℕ → Usb K → Usb K
  push_pending c no_sent s = record s {
    pending =
        s.pending
        ++ (record { cmd = c; timeout = s.now + pending_timeout; no_sent = no_sent }) ∷ [];
  }

  -- Sends or calls the error callback; what `send` throws is caught here.
  unfoldable pub write : Env K → Cmd K → ℕ → Usb K → Usb K
  unfolding frame push_pending
  write env c no_sent s =
      let bytes = frame (get_bytes c.body) in
      if s.is_open && env.accepts s bytes
      then push_pending c no_sent (log_event (written bytes) s)
      else call_error env c CmdError.serial_port_closed s

  -- The test of `send(std::unique_ptr<const Cmd>&, bool)`.
  unfoldable pub must_wait : Cmd K → Bool → Usb K → Bool
  unfolding conflict_with_pending
  must_wait c bypass s =
      (leb max_pending (length s.pending) || (not (is_empty s.out) && not bypass))
      || conflict_with_pending c s

  unfoldable pub send : Env K → Cmd K → Bool → Usb K → Usb K
  unfolding must_wait write
  send env c bypass s =
      if must_wait c bypass s then record s { out = s.out ++ c ∷ [] } else write env c 1 s

  -- `if (!m_out.empty()) this->sendNextOut();`
  unfoldable pub send_next_out : Env K → Usb K → Usb K
  unfolding send
  send_next_out env s = elim s.out [ [] ↦ s | c ∷ rest ↦ send env c true (record s { out = rest }) ]

  -- The public `send(const T&&)`: allocates the command.
  unfoldable pub send_new : Env K → Body → K → K → Usb K → Usb K
  unfolding send
  send_new env body on_ok on_error s =
      send env (record { id = s.next_id; body = body; on_ok = on_ok; on_error = on_error }) false
        (record s { next_id = suc s.next_id })
