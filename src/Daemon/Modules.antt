-- ===== src/Daemon/Modules.antt =====
-- src/modules/module.h: the interface of a module, as main.cpp uses it: the virtual functions of
-- MtbModule. What a module does to MTB-USB, timers and clients is part of its own state.
use mtb_daemon.Base.{ℕ, Bool, false, List, [], ◌≡◌}
use mtb_daemon.Json.{Fields}
use mtb_daemon.Cmd.Reply.{ModuleInfo}
use mtb_daemon.Server.{member}
use mtb_daemon.Daemon.{Outcome}

-- The classes that implement MtbModule.
pub data ModuleClass : Type 0 where
  uni : ModuleClass
  unis : ModuleClass
  rc : ModuleClass
  led : ModuleClass
  plain : ModuleClass

pub record ModuleOps (M : Type 0) : Type 0 where
  pub create : ModuleClass → ℕ → M
  pub module_type : M → ℕ
  pub is_active : M → Bool
  pub is_activating : M → Bool
  pub is_rebooting : M → Bool
  pub is_firmware_upgrading : M → Bool
  pub module_info : Bool → M → Fields
  pub mtb_bus_activate : ModuleInfo → M → M
  pub mtb_bus_lost : M → M
  pub mtb_usb_disconnected : M → M
  pub inputs_changed : List ℕ → M → M
  pub diag_state_changed : List ℕ → M → M
  pub reactivate_check : M → M
  pub json_command : ℕ → Fields → Bool → M → Outcome M
  pub json_set_config : ℕ → Fields → M → Outcome M
  pub output_setters : M → List ℕ
  pub reset_outputs_of_client : ℕ → M → M
  pub all_outputs_reset : M → M
  pub client_disconnected : ℕ → M → M
  pub save_config : M → Fields
  pub load_config : Fields → M → Outcome M

-- What the daemon relies on when it resets outputs: who has set outputs of a module in the state that
-- `IsWell` describes.
pub record OutputLaws (M : Type 0) ⦃ops : ModuleOps M⦄ : Type 1 where
  pub IsWell : M → Type 0
  pub reset_outputs_of_client_gone :
      (c : ℕ) (m : M)
      → IsWell m
      → member c (ops.output_setters (ops.reset_outputs_of_client c m)) ≡ false
  pub output_setters-all_outputs_reset :
      (m : M) → IsWell m → ops.output_setters (ops.all_outputs_reset m) ≡ []
  pub client_disconnected-IsWell : (c : ℕ) (m : M) → IsWell m → IsWell (ops.client_disconnected c m)
