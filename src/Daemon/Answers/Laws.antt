-- ===== src/Daemon/Answers/Laws.antt =====
-- Each request that the daemon itself answers has one answer (src/main.cpp).
use Prim.Native.String.{String}
use mtb_daemon.Base.{
  ℕ, ◌≡◌, refl, true, not, ◌&&◌, ◌||◌, none, some, List, ◌==◌, leb, length, if◌then◌else◌, if_rule,
  Bool-cases, Option-cases, inl, inr,
}
use mtb_daemon.Cmd.{module_change_addr}
use mtb_daemon.Common.{is_valid_module_address}
use mtb_daemon.Json.{Fields, get, contains, to_size}
use mtb_daemon.Json.Safe.{safe_string_at, safe_uint_at}
use mtb_daemon.Server.{member, json_ok_response}
use mtb_daemon.Server.Error
use mtb_daemon.Daemon.{
  Daemon, client_outputs_reset, address_changed, Outcome, returned, threw, put, effect, sent, send,
  send_error,
}
use mtb_daemon.Daemon.Modules.{ModuleOps}
use mtb_daemon.Daemon.Subscriptions.{
  addresses_of, cmd_module_subscribe, cmd_module_unsubscribe, cmd_my_module_subscribes,
  cmd_topo_subscribe, cmd_topo_unsubscribe,
}
use mtb_daemon.Daemon.Outputs.{
  output_setters, reset_by_setters, client_reset_outputs, cmd_reset_my_outputs,
}
use mtb_daemon.Daemon.Requests.{
  speed_request, cmd_mtbusb, cmd_module, cmd_modules, cmd_module_delete, deleted_event,
  cmd_set_address, is_active_module,
}
use mtb_daemon.Daemon.Files.{
  Surroundings, has_write_access, filename_of, status_response, succeeded, state,
  load_config as load, save_config as save, cmd_save_config, cmd_load_config,
}
use mtb_daemon.Daemon.Received.{
  Command, mtbusb, version, save_config, load_config, module_state, module_delete, modules,
  module_subscribe as subscribing, module_unsubscribe as unsubscribing,
  my_module_subscribes as replacing, module_set_config, module_specific_command, set_address,
  reset_my_outputs, topology_subscribe, topology_unsubscribe, of_module, unknown, command_of,
  cmd_version, handle, server_received,
}
use mtb_daemon.Daemon.Answers.{
  is_daemons, answers, same_number, Answered, Done, Quiet-refl, Answered-send,
  Answered-answer_exception, Quiet-send_all,
}
use mtb_daemon.Daemon.Answers.Files.{Quiet-load_config, Quiet-save_config}
use mtb_daemon.Daemon.Answers.Requests.{
  sent_once, refused_once, Done-guarded, Done-mtbusb_request, Done-module_subscribe,
  Done-module_unsubscribe, Done-my_module_subscribes, Done-cmd_module_specific_command, told,
}

module _ {M : Type 0} ⦃ops : ModuleOps M⦄ (c : ℕ) (r : Fields) (d : Daemon M)
    (client : member c d.clients ≡ true) where
  Done-cmd_save_config : (around : Surroundings) → Done c d (cmd_save_config around c r d)
  unfolding cmd_save_config
  Done-cmd_save_config around =
      elim (filename_of r d.config_file_name)
        as (λ o. Done c d (elim o as (λ _. Outcome (Daemon M)) [
          | none ↦ threw d
          | some name ↦
              let outcome = save around name d in
              returned
                (send c (status_response "save_config" (succeeded outcome) r) (state outcome))
        ])) [
          | none ↦ Quiet-refl c d
          | some name ↦
              told c r d client (state (save around name d)) _ (Quiet-save_config around name c d)
        ]

  Done-cmd_load_config : (around : Surroundings) → Done c d (cmd_load_config around c r d)
  unfolding cmd_load_config
  Done-cmd_load_config around =
      elim (filename_of r d.config_file_name)
        as (λ o. Done c d (elim o as (λ _. Outcome (Daemon M)) [
          | none ↦ threw d
          | some name ↦
              let outcome = load around name d in
              returned
                (send c (status_response "load_config" (succeeded outcome) r) (state outcome))
        ])) [
          | none ↦ Quiet-refl c d
          | some name ↦
              told c r d client (state (load around name d)) _ (Quiet-load_config around name c d)
        ]

  Answered-cmd_module : Answered c d (cmd_module c r d)
  unfolding cmd_module
  Answered-cmd_module =
      let addr = to_size (get r "address") in
      elim (Bool-cases (is_valid_module_address addr)) [
        | inr e ↦ rw e (sent_once c r d client _)
        | inl e ↦ elim (Option-cases (d.modules addr)) [
          | inl f ↦ rw (e, f) (sent_once c r d client _)
          | inr (m, f) ↦ rw (e, f) (sent_once c r d client _)
        ]
      ]

  Answered-cmd_module_delete : Answered c d (cmd_module_delete c r d)
  unfolding cmd_module_delete
  Answered-cmd_module_delete =
      let addr = to_size (get r "address") in
      elim (Bool-cases (is_valid_module_address addr)) [
        | inr e ↦ rw e (sent_once c r d client _)
        | inl e ↦ elim (Option-cases (d.modules addr)) [
          | inl f ↦ rw (e, f) (sent_once c r d client _)
          | inr (m, f) ↦ elim (Bool-cases (ops.is_active m || ops.is_activating m)) [
            | inl g ↦ rw (e, f, g) (sent_once c r d client _)
            | inr g ↦
                rw (e, f, g)
                  (Answered-send c d _ _ client (
                    Quiet-send_all c _ d (record d { modules = put addr none d.modules })
                      (deleted_event addr) (refl, refl)))
          ]
        ]
      ]

  Done-cmd_set_address : Done c d (cmd_set_address c r d)
  unfolding cmd_set_address answers
  Done-cmd_set_address =
      elim (safe_uint_at r "new_address")
        as (λ o. Done c d (elim o as (λ _. Outcome (Daemon M)) [
          | none ↦ threw d
          | some addr ↦
              if not (is_valid_module_address addr)
              then returned (send_error c r Error.module_invalid_addr d)
              else if is_active_module (d.modules addr)
              then returned (send_error c r Error.module_active d)
              else returned (effect (sent (module_change_addr 0 addr) (address_changed c r)) d)
        ])) [
          | none ↦ Quiet-refl c d
          | some addr ↦
              if_rule (Done c d) (not (is_valid_module_address addr))
                (λ _. refused_once c r d client _)
                (λ _.
                  if_rule (Done c d) (is_active_module (d.modules addr))
                    (λ _. refused_once c r d client _) (λ _. rw (same_number c) refl))
        ]

  Answered-reset_by_setters :
      (setters : List ℕ)
      → Answered c d
          (reset_by_setters setters c (send c (json_ok_response r)) (client_outputs_reset c r) d)
  unfolding reset_by_setters answers
  Answered-reset_by_setters setters =
      if_rule (Answered c d) (leb 2 (length setters))
        (λ _. Answered-send c d (record d { modules = _ }) _ client (refl, refl))
        (λ _.
          if_rule (Answered c d) (length setters == 1 && member c setters)
            (λ _. rw (same_number c) refl) (λ _. sent_once c r d client _))

  Done-handle :
      (command : Command) (around : Surroundings)
      → is_daemons command ≡ true
      → Done c d (handle command around c r d)
  unfolding handle cmd_mtbusb cmd_version cmd_modules cmd_module_subscribe cmd_module_unsubscribe
      cmd_my_module_subscribes cmd_topo_subscribe cmd_topo_unsubscribe cmd_reset_my_outputs
      client_reset_outputs
  Done-handle mtbusb around h =
      Done-mtbusb_request c r d client (speed_request r) (has_write_access around c d)
  Done-handle version around h = sent_once c r d client _
  Done-handle save_config around h =
      Done-guarded c r d client (has_write_access around c d) _ (Done-cmd_save_config around)
  Done-handle load_config around h =
      Done-guarded c r d client (has_write_access around c d) _ (Done-cmd_load_config around)
  Done-handle module_state around h = Answered-cmd_module
  Done-handle module_delete around h = Answered-cmd_module_delete
  Done-handle modules around h = sent_once c r d client _
  Done-handle subscribing around h = Done-module_subscribe c r d client (addresses_of r) _
  Done-handle unsubscribing around h = Done-module_unsubscribe c r d client (addresses_of r) _
  Done-handle replacing around h = Done-my_module_subscribes c r d client (addresses_of r) _
  Done-handle module_set_config around h = absurd (cc)
  Done-handle module_specific_command around h =
      Done-guarded c r d client (has_write_access around c d) _
        (Done-cmd_module_specific_command c r d client)
  Done-handle set_address around h =
      Done-guarded c r d client (has_write_access around c d) _ Done-cmd_set_address
  Done-handle reset_my_outputs around h =
      Done-guarded c r d client (has_write_access around c d) _
        (Answered-reset_by_setters (output_setters d))
  Done-handle topology_subscribe around h =
      Answered-send c d (record d { topo_subscribes = _ }) _ client (refl, refl)
  Done-handle topology_unsubscribe around h =
      Answered-send c d (record d { topo_subscribes = _ }) _ client (refl, refl)
  Done-handle of_module around h = absurd (cc)
  Done-handle unknown around h = refused_once c r d client _

module _ {M : Type 0} ⦃ops : ModuleOps M⦄ where
  -- A connected client that sends a request with a command that is not given to a module has one
  -- answer more afterwards, counting the messages to it and the commands for MTB-USB whose callbacks
  -- answer it.
  pub server_received-Answered :
      (around : Surroundings) (c : ℕ) (r : Fields) (d : Daemon M) (text : String)
      → member c d.clients ≡ true
      → contains r "command" ≡ true
      → safe_string_at r "command" ≡ some text
      → is_daemons (command_of text) ≡ true
      → Answered c d (server_received around c r d)
  unfolding server_received
  server_received-Answered around c r d text client has e h =
      rw (has, e)
        (Answered-answer_exception c d r _ (Done-handle c r d client (command_of text) around h))
