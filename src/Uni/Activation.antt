-- ===== src/Uni/Activation.antt =====
-- src/modules/uni.cpp, src/modules/module.cpp: the activation of a universal module.
use mtb_daemon.Base.{
  ℕ, ◌-◌, true, false, not, ◌&&◌, ◌||◌, Option, none, some, List, [], if◌then◌else◌, ltb, replicate,
  map,
}
use mtb_daemon.Cmd.{module_set_config, module_get_config, module_get_inputs, module_reset_outputs}
use mtb_daemon.Cmd.Reply.{ModuleInfo, in_bootloader}
use mtb_daemon.Uni.{
  IoKind, IoModule, sent, inputs_event, outputs_event, effect, config_set, config_got, inputs_read,
  outputs_were_reset, mtb_module_activations,
}
use mtb_daemon.Uni.Upgrade.{fully_activated}

-- The outputs of allOutputsReset and outputsReset.
unfoldable pub safe_outputs : (k : IoKind) → Option k.Config → List k.Value
safe_outputs k none = replicate k.io_cnt k.off
safe_outputs k (some c) = k.safe_of c

module _ {k : IoKind} where
  unfoldable pub clear_outputs : IoModule k → IoModule k
  unfolding safe_outputs
  clear_outputs s = record s {
    outputs_want = safe_outputs k s.config;
    outputs_confirmed = map some (safe_outputs k s.config);
    who_set_output = replicate k.io_cnt none;
  }

  unfoldable pub outputs_reset : IoModule k → IoModule k
  unfolding clear_outputs fully_activated
  outputs_reset s = fully_activated (clear_outputs s)

  unfoldable pub all_outputs_reset : IoModule k → IoModule k
  unfolding clear_outputs safe_outputs
  all_outputs_reset s =
      effect (outputs_event (map some (safe_outputs k s.config)) []) (clear_outputs s)

  unfoldable pub activation_error : IoModule k → IoModule k
  activation_error s = record s {
    activating = false;
    activations_remaining = s.activations_remaining - 1;
  }

  unfoldable pub activate : IoModule k → IoModule k
  activate s = elim s.config [
    | some c ↦
        effect (sent (module_set_config s.address (k.serialize s.kind c)) config_set)
          (record s { activating = true })
    | none ↦ effect (sent (module_get_config s.address) config_got) (record s { activating = true })
  ]

  unfoldable pub config_was_set : IoModule k → IoModule k
  config_was_set s = effect (sent (module_get_inputs s.address) inputs_read) s

  -- The callback of the command for the configuration.
  unfoldable pub config_was_got : List ℕ → IoModule k → IoModule k
  unfolding config_was_set
  config_was_got bytes s =
      config_was_set (record s { config = some (k.read_config bytes k.new_config) })

  unfoldable pub store_inputs_state : List ℕ → IoModule k → IoModule k
  store_inputs_state bytes s = record s { inputs = k.store_inputs bytes s.inputs }

  unfoldable pub inputs_were_read : List ℕ → IoModule k → IoModule k
  unfolding store_inputs_state
  inputs_were_read bytes s =
      effect (sent (module_reset_outputs s.address) outputs_were_reset) (store_inputs_state bytes s)

  -- MtbModule::mtbBusActivate.
  unfoldable pub got_info : ModuleInfo → IoModule k → IoModule k
  got_info info s = record s {
    activations_remaining = mtb_module_activations;
    bus_module_info = info;
    activated_by_mtb_usb = true;
    kind = info.kind;
  }

  unfoldable pub mtb_bus_activate : ModuleInfo → IoModule k → IoModule k
  unfolding got_info outputs_reset activate in_bootloader
  mtb_bus_activate info s =
      let known = got_info info s in
      if in_bootloader info then outputs_reset known else activate known

  unfoldable pub reactivate_check : IoModule k → IoModule k
  unfolding activate
  reactivate_check s =
      if (not s.activating && ltb 0 s.activations_remaining) && not s.active then activate s else s

  unfoldable pub mtb_bus_inputs_changed : List ℕ → IoModule k → IoModule k
  unfolding store_inputs_state
  mtb_bus_inputs_changed bytes s =
      if s.active || s.activating
      then (let stored = store_inputs_state bytes s in effect (inputs_event stored.inputs) stored)
      else s

  unfoldable pub mtb_usb_disconnected : IoModule k → IoModule k
  unfolding all_outputs_reset
  mtb_usb_disconnected s = record (all_outputs_reset (record s { active = false })) {
    inputs = k.no_inputs;
  }
