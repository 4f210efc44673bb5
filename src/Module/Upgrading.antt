-- ===== src/Module/Upgrading.antt =====
-- The end of an upgrade of the firmware: the reboot after the last block, and the activation that
-- follows it (src/modules/module.cpp, uni.cpp).
use mtb_daemon.Base.{ℕ, ◌≡◌, refl, ap, ◌∙◌, true, false, Option, none, some, List, [], ◌∷◌}
use mtb_daemon.Cmd.{module_get_inputs, module_reset_outputs, module_reboot, module_info_request}
use mtb_daemon.Cmd.Reply.{ModuleInfo, in_bootloader, module_completed, module_bytes, module_info}
use mtb_daemon.Uni.{
  IoKind, IoModule, Effect, Callback, ServerRequest, sent, timer, done, for_upgrade, module_event,
  rebooted, reboot_info, inputs_read, outputs_were_reset,
}
use mtb_daemon.Uni.Activation.{mtb_bus_activate, got_info, activate}
use mtb_daemon.Uni.Upgrade.{
  fw_upgd_all_written, reboot, mtb_bus_lost, reboot_ack, reboot_waited, fully_activated,
  reboot_on_ok, fw_upgd_rebooted,
}
use mtb_daemon.Module.Requests.{Virtuals}
use mtb_daemon.Module.Replies.{on_ok, on_timeout}
use mtb_daemon.Module.Io.{IoForm, io_virtuals}
use mtb_daemon.Module.Activating.{
  answer, answers, config_command, config_callback, config_reply, config_after, ready,
  ready-Activates,
}

module _ {k : IoKind} where
  -- The timer that was started last runs out.
  abbrev pub last_timer : List (Effect k) → Option Callback
  last_timer [] = none
  last_timer (timer ms callback ∷ es) = some callback
  last_timer (e ∷ es) = last_timer es

  abbrev pub wait : IoModule k → IoModule k
  wait s = elim (last_timer s.effects) [ none ↦ s | some c ↦ on_timeout c s ]

  -- The reboot is confirmed; after a second the module is asked for its information and gives it; it
  -- is activated again.
  abbrev pub reboots : IoForm k → ModuleInfo → List ℕ → List ℕ → IoModule k → IoModule k
  reboots form info bytes inputs s =
      let v = io_virtuals form in
      let known = got_info info s in
      answers v
        (module_info s.address info
          ∷ config_reply bytes known
          ∷ module_bytes s.address inputs
          ∷ module_completed s.address
          ∷ [])
        (wait (answer v (module_completed s.address) (fw_upgd_all_written s)))

  -- How an upgrade for a request ends well.
  abbrev pub Upgraded :
      IoForm k → ModuleInfo → List ℕ → List ℕ → ServerRequest → IoModule k → Type 0
  Upgraded form info bytes inputs r s =
      let known = got_info info s in
      let t = reboots form info bytes inputs s in
      (t.fw_upgrading ≡ none)
      × (t.data_ ≡ [])
      × (t.rebooting ≡ false)
      × (t.active ≡ true)
      × (t.config ≡ some (config_after bytes known))
      × (t.effects
          ≡ module_event r.socket true
            ∷ done r
            ∷ module_event none true
            ∷ sent (module_reset_outputs s.address) outputs_were_reset
            ∷ sent (module_get_inputs s.address) inputs_read
            ∷ sent (config_command known) (config_callback known)
            ∷ sent (module_info_request s.address) reboot_info
            ∷ timer 1000 reboot_info
            ∷ sent (module_reboot s.address) rebooted
            ∷ module_event none true
            ∷ module_event none false
            ∷ s.effects)

  -- The module while it reboots, when its information is asked for.
  abbrev asked_again : IoModule k → IoModule k
  asked_again s = record s {
    rebooting = true;
    reboot_for = for_upgrade;
    activated_by_mtb_usb = false;
    activating = false;
    active = false;
    activations_remaining = 0;
    effects =
        sent (module_info_request s.address) reboot_info
        ∷ timer 1000 reboot_info
        ∷ sent (module_reboot s.address) rebooted
        ∷ module_event none true
        ∷ module_event none false
        ∷ s.effects;
  }

  reboot_lem :
      (v : Virtuals k) (s : IoModule k)
      → s.rebooting ≡ false
      → wait (answer v (module_completed s.address) (fw_upgd_all_written s)) ≡ asked_again s
  unfolding fw_upgd_all_written reboot mtb_bus_lost reboot_ack reboot_waited on_ok on_timeout
  reboot_lem v s b = rw b refl

  info_lem :
      (v : IoForm k) (a : ℕ) (info : ModuleInfo) (s : IoModule k)
      → in_bootloader info ≡ false
      → on_ok (io_virtuals v) reboot_info (module_info a info) s ≡ activate (got_info info s)
  unfolding on_ok mtb_bus_activate
  info_lem v a info s h = rw h refl

  -- The end of an activation that an upgrade has waited for.
  ended_lem :
      (r : ServerRequest) (s : IoModule k)
      → s.rebooting ≡ true
      → s.reboot_for ≡ for_upgrade
      → s.fw_upgrading ≡ some r
      → in_bootloader s.bus_module_info ≡ false
      → fully_activated s ≡ record s {
        activating = false;
        activations_remaining = 0;
        active = true;
        rebooting = false;
        fw_upgrading = none;
        data_ = [];
        to_write = [];
        effects = module_event r.socket true ∷ done r ∷ module_event none true ∷ s.effects;
      }
  unfolding fully_activated reboot_on_ok fw_upgd_rebooted
  ended_lem r s b f u h = rw (b, f, h, u) refl

  -- When all blocks of an upgrade are written, and the module confirms its reboot, comes up in
  -- operation and is activated, the client's request is answered once, with success, nothing is left
  -- of the upgrade or of the reboot, and the module is active again.
  pub reboots-Upgraded :
      (form : IoForm k) (info : ModuleInfo) (bytes inputs : List ℕ) (r : ServerRequest)
      (s : IoModule k)
      → in_bootloader info ≡ false
      → s.rebooting ≡ false
      → s.fw_upgrading ≡ some r
      → Upgraded form info bytes inputs r s
  unfolding got_info
  reboots-Upgraded form info bytes inputs r s h b u =
      let v = io_virtuals form in
      let known = got_info info (asked_again s) in
      let replies =
        config_reply bytes known
        ∷ module_bytes s.address inputs
        ∷ module_completed s.address
        ∷ [] in
      let whole : reboots form info bytes inputs s ≡ fully_activated (ready bytes inputs known) =
        ap (answers v (module_info s.address info ∷ replies)) (reboot_lem v s b)
        ∙ ap (answers v replies) (info_lem form s.address info (asked_again s) h)
        ∙ ready-Activates form bytes inputs known in
      let end = whole ∙ ended_lem r (ready bytes inputs known) refl refl u h in
      (
        ap (λ t. t.fw_upgrading) end,
        ap (λ t. t.data_) end,
        ap (λ t. t.rebooting) end,
        ap (λ t. t.active) end,
        ap (λ t. t.config) end,
        ap (λ t. t.effects) end,
      )
