-- ===== src/Usb/Receive.antt =====
-- src/mtbusb/mtbusb-receive.cpp: the messages of MTB-USB, one function for each handler.
use mtb_daemon.Base.{
  ℕ, zero, suc, ◌/◌, ◌%◌, Bool, true, false, ◌&&◌, Option, none, some, List, [], ◌∷◌, length,
  get_or, set, drop, bit, ltb, leb, ◌==◌, if◌then◌else◌,
}
use mtb_daemon.Common.{speed_to_int, dv_state}
use mtb_daemon.Common.UsbRecv
use mtb_daemon.Common.BusRecv
use mtb_daemon.Common.UsbError
use mtb_daemon.Common.CmdError
use mtb_daemon.Cmd.{forward}
use mtb_daemon.Usb.{
  Usb, UsbInfo, Pending, Env, undefined, on_new_module, on_module_fail, on_inputs_change,
  on_diag_state_change, max_modules, log_event, emit,
}
use mtb_daemon.Usb.Timer.{pending_timeout_error}
use mtb_daemon.Usb.Match.{find_pending, match_usb, match_bus}

-- The list of active modules: one bit for each address, eight to a byte, the lowest first.
unfoldable pub active_bits : ℕ → ℕ → List ℕ → List Bool
active_bits zero i bytes = []
active_bits (suc n) i bytes = bit (get_or bytes (i / 8) 0) (i % 8) ∷ active_bits n (suc i) bytes

unfoldable pub parse_info : List ℕ → UsbInfo
parse_info bytes =
    let at = λ (i : ℕ). get_or bytes i 0 in
    record {
      kind = at 0;
      speed = at 1 % 16;
      fw_major = at 2;
      fw_minor = at 3;
      proto_major = at 4;
      proto_minor = at 5;
    }

-- A DiagValue message with the module's state and at least one byte of it.
unfoldable pub is_state_report : ℕ → List ℕ → Bool
is_state_report command bytes =
    command == BusRecv.diag_value && ltb 1 (length bytes) && get_or bytes 0 0 == dv_state

module _ {K : Type 0} where
  -- Is it a command with this code to this module, or, with no code, any command to this module?
  unfoldable pub sent_to : ℕ → Option ℕ → Pending K → Option (Unit {0})
  sent_to addr code p = elim (forward p.cmd.body) [
    | none ↦ none
    | some (m, c) ↦
        let right : Bool = elim code [ none ↦ true | some d ↦ d == c ] in
        if right && addr == m then some tt else none
  ]

  -- The oldest command that a test accepts gets an error; nothing happens if there is none.
  unfoldable pub fail_first : Env K → ℕ → (Pending K → Option (Unit {0})) → Usb K → Usb K
  unfolding find_pending pending_timeout_error
  fail_first env error test s = elim (find_pending test s.pending) [
    | none ↦ s
    | some (i, p, u) ↦ pending_timeout_error env error i s
  ]

  unfoldable pub handle_mtbusb_error : Env K → ℕ → ℕ → ℕ → Usb K → Usb K
  unfolding fail_first sent_to
  handle_mtbusb_error env code out_command_code addr s =
      if code == UsbError.no_response
      then fail_first env CmdError.bus_no_response (sent_to addr (some out_command_code)) s
      else s

  unfoldable pub handle_mtbbus_error : Env K → ℕ → ℕ → Usb K → Usb K
  unfolding fail_first sent_to
  handle_mtbbus_error env error_code addr s = fail_first env error_code (sent_to addr none) s

  -- What is left of a message for MTBbus that answers no command: the state that a module reports
  -- by itself.
  unfoldable pub unmatched_bus : Env K → ℕ → ℕ → List ℕ → Usb K → Usb K
  unfolding is_state_report
  unmatched_bus env addr command bytes s =
      if is_state_report command bytes
      then emit env (on_diag_state_change addr (drop 1 bytes)) s
      else s

  -- `attempts` is only logged. An error message without its code is read out of bounds.
  unfoldable pub parse_mtbbus_message : Env K → ℕ → ℕ → ℕ → List ℕ → Usb K → Usb K
  unfolding handle_mtbbus_error match_bus unmatched_bus
  parse_mtbbus_message env addr attempts command bytes s =
      if command == BusRecv.error
      then (elim bytes [
        | [] ↦ log_event undefined s
        | error_code ∷ rest ↦ handle_mtbbus_error env error_code addr s
      ])
      else if command == BusRecv.input_changed
      then emit env (on_inputs_change addr bytes) s
      else elim (match_bus env addr command bytes s) [
        | some t ↦ t
        | none ↦ unmatched_bus env addr command bytes s
      ]

  -- MtbBusForward. The guard lets two bytes pass, and the third one is read.
  unfoldable pub receive_forward : Env K → List ℕ → Usb K → Usb K
  unfolding parse_mtbbus_message
  receive_forward env [] s = s
  receive_forward env (attempts ∷ []) s = s
  receive_forward env (attempts ∷ addr ∷ []) s = log_event undefined s
  receive_forward env (attempts ∷ addr ∷ command ∷ bytes) s =
      parse_mtbbus_message env addr attempts command bytes s

  -- Error.
  unfoldable pub receive_error : Env K → List ℕ → Usb K → Usb K
  unfolding handle_mtbusb_error
  receive_error env (code ∷ out_command_code ∷ addr ∷ rest) s =
      handle_mtbusb_error env code out_command_code addr s
  receive_error env _ s = s

  -- MtbUsbInfo. A speed that has no name throws once the information is stored, so that no command
  -- is answered.
  unfoldable pub receive_info : Env K → List ℕ → Usb K → Usb K
  unfolding parse_info match_usb speed_to_int
  receive_info env bytes s =
      let t = record s { info = some (parse_info bytes) } in
      if leb 6 (length bytes)
      then (elim (speed_to_int (parse_info bytes).speed) [
        | none ↦ t
        | some speed ↦ match_usb env UsbRecv.mtbusb_info t
      ])
      else match_usb env UsbRecv.mtbusb_info s

  -- ActiveModules: shorter messages are not stored.
  unfoldable pub store_active : List ℕ → Usb K → Usb K
  unfolding active_bits
  store_active bytes s =
      if leb 32 (length bytes)
      then record s { active = some (active_bits max_modules 0 bytes) }
      else s

  unfoldable pub receive_active : Env K → List ℕ → Usb K → Usb K
  unfolding store_active match_usb
  receive_active env bytes s = match_usb env UsbRecv.active_modules (store_active bytes s)

  -- m_activeModules.value()[addr] = b, and the signal; without the list nothing happens.
  unfoldable pub mark_module : Env K → ℕ → Bool → Usb K → Usb K
  mark_module env addr b s = elim s.active [
    | none ↦ s
    | some modules ↦
        emit env (if b then on_new_module addr else on_module_fail addr)
          (record s { active = some (set modules addr b) })
  ]

  -- NewModule.
  unfoldable pub receive_new_module : Env K → List ℕ → Usb K → Usb K
  unfolding mark_module
  receive_new_module env [] s = s
  receive_new_module env (addr ∷ rest) s = mark_module env addr true s

  -- ModuleFailed: the module is lost when no attempt remains.
  unfoldable pub receive_module_failed : Env K → List ℕ → Usb K → Usb K
  unfolding mark_module
  receive_module_failed env (addr ∷ remaining ∷ rest) s =
      if remaining == 0 then mark_module env addr false s else s
  receive_module_failed env _ s = s

  unfoldable pub parse_mtbusb_message : Env K → ℕ → List ℕ → Usb K → Usb K
  unfolding receive_error receive_forward receive_info receive_active receive_new_module
      receive_module_failed match_usb
  parse_mtbusb_message env command bytes s =
      if command == UsbRecv.error
      then receive_error env bytes s
      else if command == UsbRecv.mtbbus_forward
      then receive_forward env bytes s
      else if command == UsbRecv.mtbusb_info
      then receive_info env bytes s
      else if command == UsbRecv.active_modules
      then receive_active env bytes s
      else if command == UsbRecv.new_module
      then receive_new_module env bytes s
      else if command == UsbRecv.module_failed
      then receive_module_failed env bytes s
      else match_usb env command s
