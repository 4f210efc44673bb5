-- ===== src/Usb/Keep/Receive.antt =====
-- The handlers of messages of src/mtbusb/mtbusb-receive.cpp and what single operations keep.
use mtb_daemon.Base.{
  ℕ, refl, inl, inr, Bool, true, false, Option, none, some, List, [], ◌∷◌, Option-cases, if_rule,
  if◌then◌else◌, set, drop, ◌==◌, leb, length,
}
use mtb_daemon.Common.{speed_to_int}
use mtb_daemon.Common.UsbRecv
use mtb_daemon.Common.BusRecv
use mtb_daemon.Common.UsbError
use mtb_daemon.Usb.{
  Usb, Pending, Env, emit, log_event, undefined, max_modules, on_diag_state_change, on_new_module,
  on_module_fail,
}
use mtb_daemon.Usb.Match.{find_pending, match_usb, match_bus}
use mtb_daemon.Usb.Receive.{
  fail_first, handle_mtbusb_error, handle_mtbbus_error, unmatched_bus, is_state_report,
  parse_mtbbus_message, receive_forward, receive_error, receive_info, receive_active, store_active,
  active_bits, mark_module, receive_new_module, receive_module_failed, parse_mtbusb_message,
  parse_info,
}
use mtb_daemon.Usb.Keep.{Keeps, IsKept, match_usb_keeps, match_bus-IsKept}

module _ {K : Type 0} (env : Env K) (P : Usb K → Type 0) (kept : Keeps env P) where
  fail_first_keeps :
      (error : ℕ) (test : Pending K → Option (Unit {0})) (s : Usb K)
      → P s
      → P (fail_first env error test s)
  unfolding fail_first
  fail_first_keeps error test s h = elim (Option-cases (find_pending test s.pending)) [
    | inl e ↦ rw (e, fail_first) h
    | inr ((i, p, u), e) ↦ rw (e, fail_first) (kept.timeout error i s h)
  ]

  kept_or :
      (o : Option (Usb K)) (other : Usb K)
      → IsKept env P kept o
      → P other
      → P (elim o [ some t ↦ t | none ↦ other ])
  kept_or none other k h = h
  kept_or (some t) other k h = k

  unmatched_bus_keeps :
      (addr command : ℕ) (bytes : List ℕ) (s : Usb K)
      → P s
      → P (unmatched_bus env addr command bytes s)
  unfolding unmatched_bus
  unmatched_bus_keeps addr command bytes s h =
      if_rule P (is_state_report command bytes)
        (λ _. kept.emits (on_diag_state_change addr (drop 1 bytes)) s h) (λ _. h)

  parse_mtbbus_message_keeps :
      (addr attempts command : ℕ) (bytes : List ℕ) (s : Usb K)
      → P s
      → P (parse_mtbbus_message env addr attempts command bytes s)
  unfolding parse_mtbbus_message handle_mtbbus_error
  parse_mtbbus_message_keeps addr attempts command bytes s h =
      if_rule P (command == BusRecv.error) (λ _. on_error bytes)
        (λ _.
          if_rule P (command == BusRecv.input_changed) (λ _. kept.emits _ s h)
            (λ _.
              kept_or (match_bus env addr command bytes s) (unmatched_bus env addr command bytes s)
                (match_bus-IsKept env P kept addr command bytes s h)
                (unmatched_bus_keeps addr command bytes s h)))
    where
      on_error :
          (bs : List ℕ)
          → P (elim bs [
            | [] ↦ log_event undefined s
            | error_code ∷ rest ↦ handle_mtbbus_error env error_code addr s
          ])
      on_error [] = kept.same s _ (refl, refl, refl, refl) h
      on_error (error_code ∷ rest) = fail_first_keeps error_code _ s h

  receive_forward_keeps : (bytes : List ℕ) (s : Usb K) → P s → P (receive_forward env bytes s)
  unfolding receive_forward
  receive_forward_keeps [] s h = h
  receive_forward_keeps (attempts ∷ []) s h = h
  receive_forward_keeps (attempts ∷ addr ∷ []) s h = kept.same s _ (refl, refl, refl, refl) h
  receive_forward_keeps (attempts ∷ addr ∷ command ∷ bytes) s h =
      parse_mtbbus_message_keeps addr attempts command bytes s h

  receive_error_keeps : (bytes : List ℕ) (s : Usb K) → P s → P (receive_error env bytes s)
  unfolding receive_error handle_mtbusb_error
  receive_error_keeps [] s h = h
  receive_error_keeps (code ∷ []) s h = h
  receive_error_keeps (code ∷ out_code ∷ []) s h = h
  receive_error_keeps (code ∷ out_code ∷ addr ∷ rest) s h =
      if_rule P (code == UsbError.no_response) (λ _. fail_first_keeps _ _ s h) (λ _. h)

  receive_info_keeps : (bytes : List ℕ) (s : Usb K) → P s → P (receive_info env bytes s)
  unfolding receive_info
  receive_info_keeps bytes s h =
      if_rule P _ (λ _. named (speed_to_int (parse_info bytes).speed))
        (λ _. match_usb_keeps env P kept UsbRecv.mtbusb_info s h)
    where
      t : Usb K
      t = record s { info = some (parse_info bytes) }

      named :
          (o : Option ℕ)
          → P (elim o [ none ↦ t | some speed ↦ match_usb env UsbRecv.mtbusb_info t ])
      named none = kept.same s t (refl, refl, refl, refl) h
      named (some speed) =
          match_usb_keeps env P kept UsbRecv.mtbusb_info t
            (kept.same s t (refl, refl, refl, refl) h)

  store_active_keeps : (bytes : List ℕ) (s : Usb K) → P s → P (store_active bytes s)
  unfolding store_active
  store_active_keeps bytes s h =
      if_rule P (leb 32 (length bytes))
        (λ _.
          kept.same s (record s { active = some (active_bits max_modules 0 bytes) })
            (refl, refl, refl, refl) h)
        (λ _. h)

  receive_active_keeps : (bytes : List ℕ) (s : Usb K) → P s → P (receive_active env bytes s)
  unfolding receive_active
  receive_active_keeps bytes s h =
      match_usb_keeps env P kept UsbRecv.active_modules (store_active bytes s)
        (store_active_keeps bytes s h)

  mark_module_keeps : (addr : ℕ) (alive : Bool) (s : Usb K) → P s → P (mark_module env addr alive s)
  unfolding mark_module
  mark_module_keeps addr alive s h = listed s.active
    where
      listed :
          (o : Option (List Bool))
          → P (elim o [
            | none ↦ s
            | some modules ↦
                emit env
                  (if alive then on_new_module addr else on_module_fail addr)
                  (record s { active = some (set modules addr alive) })
          ])
      listed none = h
      listed (some modules) =
          kept.emits _ (record s { active = some (set modules addr alive) })
            (kept.same s _ (refl, refl, refl, refl) h)

  receive_new_module_keeps : (bytes : List ℕ) (s : Usb K) → P s → P (receive_new_module env bytes s)
  unfolding receive_new_module
  receive_new_module_keeps [] s h = h
  receive_new_module_keeps (addr ∷ rest) s h = mark_module_keeps addr true s h

  receive_module_failed_keeps :
      (bytes : List ℕ) (s : Usb K) → P s → P (receive_module_failed env bytes s)
  unfolding receive_module_failed
  receive_module_failed_keeps [] s h = h
  receive_module_failed_keeps (addr ∷ []) s h = h
  receive_module_failed_keeps (addr ∷ remaining ∷ rest) s h =
      if_rule P _ (λ _. mark_module_keeps addr false s h) (λ _. h)

  -- A message keeps the invariant.
  pub parse_mtbusb_message_keeps :
      (command : ℕ) (bytes : List ℕ) (s : Usb K)
      → P s
      → P (parse_mtbusb_message env command bytes s)
  unfolding parse_mtbusb_message
  parse_mtbusb_message_keeps command bytes s h =
      if_rule P (command == UsbRecv.error) (λ _. receive_error_keeps bytes s h)
        (λ _.
          if_rule P (command == UsbRecv.mtbbus_forward) (λ _. receive_forward_keeps bytes s h)
            (λ _.
              if_rule P (command == UsbRecv.mtbusb_info) (λ _. receive_info_keeps bytes s h)
                (λ _.
                  if_rule P (command == UsbRecv.active_modules)
                    (λ _. receive_active_keeps bytes s h)
                    (λ _.
                      if_rule P (command == UsbRecv.new_module)
                        (λ _. receive_new_module_keeps bytes s h)
                        (λ _.
                          if_rule P (command == UsbRecv.module_failed)
                            (λ _. receive_module_failed_keeps bytes s h)
                            (λ _. match_usb_keeps env P kept command s h))))))
