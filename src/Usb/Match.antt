-- ===== src/Usb/Match.antt =====
-- src/mtbusb/mtbusb-receive.cpp: how a message is paired with the pending command that it answers.
use mtb_daemon.Base.{
  ℕ, suc, Option, none, some, List, [], ◌∷◌, get_elem?, erase_at, is_empty, ◌==◌, if◌then◌else◌,
}
use mtb_daemon.Cmd.{forward}
use mtb_daemon.Cmd.Reply.{Reply}
use mtb_daemon.Cmd.Respond.{process_usb_response, process_bus_response}
use mtb_daemon.Usb.{Usb, Pending, Env, undefined, log_event, call_back}
use mtb_daemon.Usb.Queue.{send_next_out}

-- The first pending command that a test accepts: its index, the command, and the test's result.
module _ {K A : Type 0} where
  unfoldable pub find_pending :
      (Pending K → Option A) → List (Pending K) → Option (ℕ × Pending K × A)
  find_pending test [] = none
  find_pending test (p ∷ ps) =
      let later : Option (ℕ × Pending K × A) = elim (find_pending test ps) [
        | none ↦ none
        | some (i, q, a) ↦ some (suc i, q, a)
      ] in
      elim (test p) [ some a ↦ some (0, p, a) | none ↦ later ]

module _ {K : Type 0} where
  -- Index of the command object with an address.
  unfoldable pub index_of_id : ℕ → List (Pending K) → Option ℕ
  index_of_id id [] = none
  index_of_id id (p ∷ ps) =
      let later : Option ℕ = elim (index_of_id id ps) [ none ↦ none | some i ↦ some (suc i) ] in
      if p.cmd.id == id then some 0 else later

  -- `processUsbResponse` on a pending command.
  abbrev pub usb_answer : ℕ → Pending K → Option Reply
  usb_answer command p = process_usb_response p.cmd.body command

  -- The tests on a pending CmdMtbUsbForward, `processBusResponse` last.
  unfoldable pub bus_answer : ℕ → ℕ → List ℕ → Pending K → Option Reply
  bus_answer addr command bytes p = elim (forward p.cmd.body) [
    | none ↦ none
    | some (m, code) ↦ if m == addr then process_bus_response p.cmd.body command bytes else none
  ]

  -- Takes the command at an index out and sends the next one.
  unfoldable pub finish_at : Env K → ℕ → Usb K → Usb K
  unfolding send_next_out
  finish_at env i s = send_next_out env (record s { pending = erase_at s.pending i })

  -- The end of `parseMtbUsbMessage`. The command is looked for again after its callback, by address.
  unfoldable pub match_usb : Env K → ℕ → Usb K → Usb K
  unfolding find_pending index_of_id finish_at
  match_usb env command s = elim (find_pending (usb_answer command) s.pending) [
    | none ↦ s
    | some (i, p, r) ↦
        let t = call_back env p.cmd.on_ok r s in
        elim (index_of_id p.cmd.id t.pending) [ none ↦ t | some j ↦ finish_at env j t ]
  ]

  -- The search for the command after its callback in `parseMtbBusMessage`: by the index that it had
  -- before. The loop reads that index only if a command is pending.
  unfoldable pub finish_index : Env K → ℕ → Usb K → Usb K
  unfolding finish_at
  finish_index env i t = if is_empty t.pending then t else elim (get_elem? t.pending i) [
    | none ↦ log_event undefined t
    | some c ↦ finish_at env i t
  ]

  -- The search of `parseMtbBusMessage`; `none` if no command is found.
  unfoldable pub match_bus : Env K → ℕ → ℕ → List ℕ → Usb K → Option (Usb K)
  unfolding find_pending bus_answer finish_index
  match_bus env addr command bytes s =
      elim (find_pending (bus_answer addr command bytes) s.pending) [
        | none ↦ none
        | some (i, p, r) ↦ some (finish_index env i (call_back env p.cmd.on_ok r s))
      ]
