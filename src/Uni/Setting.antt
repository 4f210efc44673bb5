-- ===== src/Uni/Setting.antt =====
-- src/modules/uni.cpp: requests of clients for a universal module: setting outputs, writing the
-- configuration, upgrading the firmware, and the end of a client's connection.
pub mod Laws
pub mod Answers
use mtb_daemon.Base.{
  ℕ, zero, suc, Bool, true, false, not, ◌&&◌, ◌||◌, Option, none, some, List, [], ◌∷◌, ◌++◌, map,
  ltb, ◌==◌, if◌then◌else◌, is_empty, get_or, set, length,
}
use mtb_daemon.Cmd.{module_set_output, module_set_config}
use mtb_daemon.Cmd.Reply.{in_bootloader}
use mtb_daemon.Firmware.{Firmware, align_firmware}
use mtb_daemon.Uni.{
  IoKind, IoModule, ServerRequest, sent, answered, refused, done, module_event, outputs_event,
  effect, outputs_set, config_written, Callback,
}
use mtb_daemon.Uni.Error
use mtb_daemon.Uni.Upgrade.{fw_upgd_init}

unfoldable pub is_some {ℓ} : {A : Type ℓ} → Option A → Bool
is_some none = false
is_some (some a) = true

-- `==` of optional numbers, and of the two arrays of outputs.
unfoldable pub same_number : Option ℕ → Option ℕ → Bool
same_number none none = true
same_number none (some b) = false
same_number (some a) none = false
same_number (some a) (some b) = a == b

unfoldable pub same_outputs : (k : IoKind) → List k.Value → List (Option k.Value) → Bool
same_outputs k [] [] = true
same_outputs k [] (b ∷ bs) = false
same_outputs k (a ∷ rest) [] = false
same_outputs k (a ∷ rest) (none ∷ bs) = false
same_outputs k (a ∷ rest) (some b ∷ bs) = k.same_value a b && same_outputs k rest bs

-- `==` of two optional configurations.
unfoldable pub same_config : (k : IoKind) → Option k.Config → Option k.Config → Bool
same_config k none none = true
same_config k none (some c) = false
same_config k (some b) none = false
same_config k (some b) (some c) = k.equal_configs b c

-- An entry of "outputs": the number that the key spells (none: no number, or a negative one), and the
-- type and the value (none: QJsonSafe throws).
abbrev pub Entry : IoKind → Type 0
Entry k = Option ℕ × Option k.Content

-- The value of an entry, `none` where the request is refused.
unfoldable pub port_of : (k : IoKind) → Entry k → Option (ℕ × k.Value)
port_of k (none, content) = none
port_of k (some port, none) = none
port_of k (some port, some content) = elim (k.output_of content) [
  | none ↦ none
  | some value ↦ if ltb port k.io_cnt then some (port, value) else none
]

-- The loop that validates; `ports` in the order of the keys.
unfoldable pub validate : (k : IoKind) → List (Entry k) → Option (List (ℕ × k.Value))
unfolding port_of
validate k [] = some []
validate k (e ∷ es) =
    let rest = validate k es in
    elim (port_of k e) [
      | none ↦ none
      | some p ↦ elim rest [ none ↦ none | some ps ↦ some (p ∷ ps) ]
    ]

-- The QMap `ports`: of two keys that spell the same number the later one counts.
unfoldable pub port_value : {A : Type 0} → ℕ → A → List (ℕ × A) → A
port_value port byte [] = byte
port_value port byte ((p, b) ∷ ps) = port_value port (if p == port then b else byte) ps

-- MtbModule::jsonSetConfig, of the field `type`.
unfoldable pub kind_of : Option ℕ → ℕ → ℕ
kind_of none kind = kind
kind_of (some code) kind = code

-- The loop of resetOutputsOfClient over outputs, safe outputs and setters; the Boolean is `send`.
unfoldable pub reset_outputs_of :
    {A : Type 0} → ℕ → List A → List A → List (Option ℕ) → (List A × List (Option ℕ)) × Bool
unfolding same_number
reset_outputs_of socket (w ∷ ws) (v ∷ vs) (who ∷ whos) =
    let rest = reset_outputs_of socket ws vs whos in
    if same_number who (some socket)
    then ((v ∷ rest.0.0, none ∷ rest.0.1), true)
    else ((w ∷ rest.0.0, who ∷ rest.0.1), rest.1)
reset_outputs_of socket ws vs whos = ((ws, whos), false)

-- MtbModule::clientDisconnected.
unfoldable pub forget_socket : ℕ → Option ServerRequest → Option ServerRequest
unfolding same_number
forget_socket socket none = none
forget_socket socket (some r) =
    if same_number r.socket (some socket) then some (record r { socket = none }) else some r

module _ {k : IoKind} where
  -- The end of the handlers of answers: the next command.
  unfoldable pub set_outputs : IoModule k → IoModule k
  set_outputs s =
      effect (sent (module_set_output s.address (k.outputs_data s.outputs_want)) outputs_set)
        (record s { set_outputs_sent = s.set_outputs_waiting; set_outputs_waiting = [] })

  unfoldable pub send_next_outputs : IoModule k → IoModule k
  unfolding set_outputs fw_upgd_init is_some
  send_next_outputs s =
      if is_empty s.set_outputs_waiting
      then (if is_some s.fw_upgrading then fw_upgd_init s else s)
      else set_outputs s

  -- One message to each request.
  unfoldable pub answer_all :
      (ServerRequest → IoModule k → IoModule k) → List ServerRequest → IoModule k → IoModule k
  answer_all answer [] s = s
  answer_all answer (r ∷ rs) s = answer_all answer rs (answer r s)

  unfoldable pub mtb_bus_outputs_set : List ℕ → IoModule k → IoModule k
  unfolding answer_all send_next_outputs
  mtb_bus_outputs_set values s =
      let outputs = k.outputs_of values in
      let told =
        answer_all (λ r. effect (answered r outputs)) s.set_outputs_sent
          (record s { outputs_confirmed = outputs; set_outputs_sent = [] }) in
      send_next_outputs
        (effect (outputs_event outputs (map (λ r. r.socket) s.set_outputs_sent)) told)

  unfoldable pub mtb_bus_outputs_not_set : ℕ → IoModule k → IoModule k
  unfolding answer_all send_next_outputs
  mtb_bus_outputs_not_set error s = send_next_outputs (
      answer_all (λ r. effect (refused r error)) s.set_outputs_sent
        (record s { outputs_confirmed = map some s.outputs_want; set_outputs_sent = [] }))

  -- The loop that stores; the Boolean is `changed`.
  unfoldable pub store_ports :
      Option ℕ → List (ℕ × k.Value) → List (ℕ × k.Value) → IoModule k → IoModule k × Bool
  unfolding port_value
  store_ports socket all [] s = (s, false)
  store_ports socket all ((port, b) ∷ rest) s =
      let value = port_value port b all in
      if k.same_value value (get_or s.outputs_want port k.off)
      then store_ports socket all rest s
      else (
        (store_ports socket all rest (record s {
          outputs_want = set s.outputs_want port value;
          who_set_output = set s.who_set_output port socket;
        })).0,
        true,
      )

  unfoldable pub json_set_output : ServerRequest → List (Entry k) → IoModule k → IoModule k
  unfolding validate store_ports set_outputs same_outputs in_bootloader is_some
  json_set_output r entries s =
      if not s.active
      then effect (refused r Error.failed) s
      else if is_some s.fw_upgrading
      then effect (refused r Error.upgrading_fw) s
      else if in_bootloader s.bus_module_info
      then effect (refused r Error.in_bootloader_error) s
      else if is_some s.config_writing
      then effect (refused r Error.config_setting) s
      else elim (validate k entries) [
        | none ↦ effect (refused r Error.invalid_port) s
        | some ports ↦
            let send = same_outputs k s.outputs_want s.outputs_confirmed in
            let stored = store_ports r.socket ports ports s in
            let waiting = record stored.0 {
              set_outputs_waiting = stored.0.set_outputs_waiting ++ r ∷ [];
            } in
            if stored.1
            then (if send then set_outputs waiting else waiting)
            else effect (answered r s.outputs_confirmed) stored.0
      ]

  unfoldable pub upgrade_if_asked : IoModule k → IoModule k
  unfolding fw_upgd_init is_some
  upgrade_if_asked s = if is_some s.fw_upgrading then fw_upgd_init s else s

  -- With no configuration being written, `configWriting.value()` throws; the state stays as it is.
  unfoldable pub mtb_bus_config_written : IoModule k → IoModule k
  unfolding upgrade_if_asked
  mtb_bus_config_written s = elim s.config_writing [
    | none ↦ s
    | some r ↦ upgrade_if_asked (
        effect (done r) (
          effect (module_event r.socket true)
            (record s { config = s.config_to_write; config_writing = none })))
  ]

  unfoldable pub mtb_bus_config_not_written : ℕ → IoModule k → IoModule k
  unfolding upgrade_if_asked
  mtb_bus_config_not_written error s = elim s.config_writing [
    | none ↦ s
    | some r ↦ upgrade_if_asked (effect (refused r error) (record s { config_writing = none }))
  ]

  -- The request with its JSON read: "type_code" if it is there, and the new configuration.
  unfoldable pub json_set_config : ServerRequest → Option ℕ → k.Config → IoModule k → IoModule k
  unfolding is_some in_bootloader same_config mtb_bus_config_written kind_of
  json_set_config r type_code new s =
      if is_some s.config_writing
      then effect (refused r Error.already_writing) s
      else if is_some s.fw_upgrading
      then effect (refused r Error.upgrading_fw) s
      else if in_bootloader s.bus_module_info
      then effect (refused r Error.in_bootloader_error) s
      else (let kind = kind_of type_code s.kind in
          let writing = record s {
            kind = kind;
            config_to_write = some new;
            config_writing = some r;
          } in
          if s.active && not (same_config k s.config_to_write (some new))
          then effect (sent (module_set_config s.address (k.serialize kind new)) config_written)
              writing
          else mtb_bus_config_written writing)

  -- The request with its firmware read, `none` where `parseFirmware` throws.
  unfoldable pub json_upgrade_fw : ServerRequest → Option Firmware → IoModule k → IoModule k
  unfolding is_some fw_upgd_init align_firmware
  json_upgrade_fw r firmware s =
      if is_some s.fw_upgrading then effect (refused r Error.upgrading_fw) s else elim firmware [
        | none ↦ record s { fw_upgrading = some r }
        | some fw ↦
            let asked = record s {
              fw_upgrading = some r;
              data_ = align_firmware (k.page_bytes s.kind) fw;
            } in
            if not (is_some s.config_writing) && is_empty s.set_outputs_sent
            then fw_upgd_init asked
            else asked
      ]

  unfoldable pub reset_outputs_of_client : ℕ → IoModule k → IoModule k
  unfolding reset_outputs_of set_outputs
  reset_outputs_of_client socket s = elim s.config [
    | none ↦ s
    | some c ↦
        let reset = reset_outputs_of socket s.outputs_want (k.safe_of c) s.who_set_output in
        let stored = record s { outputs_want = reset.0.0; who_set_output = reset.0.1 } in
        let waiting = record stored {
          set_outputs_waiting =
              s.set_outputs_waiting ++ (record { socket = none; request_id = none }) ∷ [];
        } in
        if reset.1
        then (if is_empty s.set_outputs_sent then set_outputs waiting else waiting)
        else stored
  ]

  unfoldable pub client_disconnected : ℕ → IoModule k → IoModule k
  unfolding forget_socket
  client_disconnected socket s = record s {
    config_writing = forget_socket socket s.config_writing;
    fw_upgrading = forget_socket socket s.fw_upgrading;
  }
