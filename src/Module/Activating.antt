-- ===== src/Module/Activating.antt =====
-- The activation of a module with outputs when every command is answered (src/modules/uni.cpp,
-- unis.cpp, led.cpp).
use mtb_daemon.Base.{
  ℕ, ◌≡◌, refl, sym, subst, ap, ◌∙◌, true, false, Option, none, some, List, [], ◌∷◌, map, replicate,
  Option-cases, inl, inr,
}
use mtb_daemon.Cmd.{
  Body, module_set_config, module_get_config, module_get_inputs, module_reset_outputs,
}
use mtb_daemon.Cmd.Reply.{ModuleInfo, in_bootloader, Reply, module_completed, module_bytes}
use mtb_daemon.Uni.{
  IoKind, IoModule, Effect, Callback, sent, module_event, config_set, config_got, inputs_read,
  outputs_were_reset,
}
use mtb_daemon.Uni.Activation.{
  mtb_bus_activate, got_info, activate, config_was_set, config_was_got, inputs_were_read,
  outputs_reset, clear_outputs, safe_outputs, store_inputs_state,
}
use mtb_daemon.Uni.Upgrade.{fully_activated}
use mtb_daemon.Module.Requests.{Virtuals}
use mtb_daemon.Module.Replies.{on_ok}
use mtb_daemon.Module.Io.{IoForm, io_virtuals}

module _ {k : IoKind} where
  -- The callback of the command that was sent last.
  abbrev pub last_sent : List (Effect k) → Option Callback
  last_sent [] = none
  last_sent (sent body callback ∷ es) = some callback
  last_sent (e ∷ es) = last_sent es

  -- Replies one after the other, each to the command that was sent last.
  abbrev pub answer : Virtuals k → Reply → IoModule k → IoModule k
  answer v reply s = elim (last_sent s.effects) [ none ↦ s | some c ↦ on_ok v c reply s ]

  abbrev pub answers : Virtuals k → List Reply → IoModule k → IoModule k
  answers v [] s = s
  answers v (reply ∷ replies) s = answers v replies (answer v reply s)

  -- The first command of an activation and the reply to it, and the configuration afterwards; `bytes`
  -- is the configuration that the module has.
  abbrev pub config_command : IoModule k → Body
  config_command s = elim s.config [
    | none ↦ module_get_config s.address
    | some c ↦ module_set_config s.address (k.serialize s.kind c)
  ]

  abbrev pub config_callback : IoModule k → Callback
  config_callback s = elim s.config [ none ↦ config_got | some c ↦ config_set ]

  abbrev pub config_reply : List ℕ → IoModule k → Reply
  config_reply bytes s = elim s.config [
    | none ↦ module_bytes s.address bytes
    | some c ↦ module_completed s.address
  ]

  abbrev pub config_after : List ℕ → IoModule k → k.Config
  config_after bytes s = elim s.config [ none ↦ k.read_config bytes k.new_config | some c ↦ c ]

  -- How an activation ends.
  abbrev pub Completes : IoForm k → ModuleInfo → List ℕ → List ℕ → IoModule k → Type 0
  Completes form info bytes inputs s =
      let known = got_info info s in
      let c = config_after bytes known in
      answers (io_virtuals form)
        (config_reply bytes known ∷ module_bytes s.address inputs ∷ module_completed s.address ∷ [])
        (mtb_bus_activate info s)
      ≡ record known {
        activating = false;
        activations_remaining = 0;
        active = true;
        config = some c;
        inputs = k.store_inputs inputs s.inputs;
        outputs_want = k.safe_of c;
        outputs_confirmed = map some (k.safe_of c);
        who_set_output = replicate k.io_cnt none;
        effects =
            module_event none true
            ∷ sent (module_reset_outputs s.address) outputs_were_reset
            ∷ sent (module_get_inputs s.address) inputs_read
            ∷ sent (config_command known) (config_callback known)
            ∷ s.effects;
      }

  -- The replies of an activation lead to its end.
  abbrev pub ready : List ℕ → List ℕ → IoModule k → IoModule k
  ready bytes inputs s =
      let c = config_after bytes s in
      record s {
        activating = true;
        config = some c;
        inputs = k.store_inputs inputs s.inputs;
        outputs_want = k.safe_of c;
        outputs_confirmed = map some (k.safe_of c);
        who_set_output = replicate k.io_cnt none;
        effects =
            sent (module_reset_outputs s.address) outputs_were_reset
            ∷ sent (module_get_inputs s.address) inputs_read
            ∷ sent (config_command s) (config_callback s)
            ∷ s.effects;
      }

  abbrev pub Activates : IoForm k → List ℕ → List ℕ → IoModule k → Type 0
  Activates form bytes inputs s =
      answers (io_virtuals form)
        (config_reply bytes s ∷ module_bytes s.address inputs ∷ module_completed s.address ∷ [])
        (activate s)
      ≡ fully_activated (ready bytes inputs s)

  Activates-by :
      (form : IoForm k) (bytes inputs : List ℕ) (s : IoModule k) (o : Option k.Config)
      → Activates form bytes inputs (record s { config = o })
  unfolding activate on_ok config_was_got config_was_set inputs_were_read store_inputs_state
      outputs_reset clear_outputs safe_outputs
  Activates-by form bytes inputs s none = refl
  Activates-by form bytes inputs s (some c) = refl

  pub ready-Activates :
      (form : IoForm k) (bytes inputs : List ℕ) (s : IoModule k) → Activates form bytes inputs s
  ready-Activates form bytes inputs s = elim (Option-cases s.config) [
    | inl e ↦
        subst (λ o. Activates form bytes inputs (record s { config = o })) (sym e)
          (Activates-by form bytes inputs s none)
    | inr (c, e) ↦
        subst (λ o. Activates form bytes inputs (record s { config = o })) (sym e)
          (Activates-by form bytes inputs s (some c))
  ]

  completed_lem :
      (s : IoModule k)
      → s.rebooting ≡ false
      → fully_activated s ≡ record s {
        activating = false;
        activations_remaining = 0;
        active = true;
        effects = module_event none true ∷ s.effects;
      }
  unfolding fully_activated
  completed_lem s r = rw r refl

  operates_lem :
      (info : ModuleInfo) (s : IoModule k)
      → in_bootloader info ≡ false
      → mtb_bus_activate info s ≡ activate (got_info info s)
  unfolding mtb_bus_activate
  operates_lem info s h = rw h refl

  -- The activation of a module with outputs, whatever its class, that is in operation and does not
  -- reboot, sends three commands, one after the reply to another: its stored configuration is set, or else the one
  -- that it has is taken over; its inputs are read; its outputs are reset. When all three are answered
  -- it is active with that configuration, these inputs and the safe outputs of the configuration, no
  -- output is any client's, and all subscribers are told.
  pub mtb_bus_activate-Completes :
      (form : IoForm k) (info : ModuleInfo) (bytes inputs : List ℕ) (s : IoModule k)
      → in_bootloader info ≡ false
      → s.rebooting ≡ false
      → Completes form info bytes inputs s
  unfolding got_info
  mtb_bus_activate-Completes form info bytes inputs s h r =
      let known = got_info info s in
      ap
        (answers (io_virtuals form) (
          config_reply bytes known
          ∷ module_bytes s.address inputs
          ∷ module_completed s.address
          ∷ []))
        (operates_lem info s h)
      ∙ ready-Activates form bytes inputs known
      ∙ completed_lem (ready bytes inputs known) r
