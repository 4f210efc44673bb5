-- ===== src/Daemon/Answers/Files.antt =====
-- Loading the configuration sends no messages (src/main.cpp).
use Prim.Native.String.{String}
use mtb_daemon.Base.{ℕ, refl, ◌∙◌, Option, none, some, List, [], if_rule, ltb}
use mtb_daemon.Json.{Json, Fields, end, field, get, to_object, remove}
use mtb_daemon.Json.Safe.{safe_object, safe_object_at, safe_array_at, safe_uint_at}
use mtb_daemon.Usb.{max_modules}
use mtb_daemon.Daemon.{Daemon, Outcome, returned, threw}
use mtb_daemon.Daemon.Modules.{ModuleOps}
use mtb_daemon.Daemon.Requests.{store_module}
use mtb_daemon.Daemon.Files.{
  Surroundings, state, store_clients, load_clients, then_load_clients, target_of, load_target,
  load_typed, load_entry, load_modules, load_config, read_clients, save_config,
}
use mtb_daemon.Daemon.Answers.{answers, Quiet, Quiet-refl}

module _ {M : Type 0} ⦃ops : ModuleOps M⦄ where
  Quiet-store_module :
      (addr : ℕ) (c : ℕ) (d : Daemon M) (o : Outcome M) → Quiet c d (state (store_module addr d o))
  Quiet-store_module addr c d (returned m) = (refl, refl)
  Quiet-store_module addr c d (threw m) = (refl, refl)

  Quiet-load_target :
      (addr : ℕ) (json : Fields) (o : Option M) (c : ℕ) (d : Daemon M)
      → Quiet c d (state (load_target addr json o d))
  unfolding load_target
  Quiet-load_target addr json none c d = Quiet-refl c d
  Quiet-load_target addr json (some m) c d = Quiet-store_module addr c d (ops.load_config json m)

  Quiet-load_typed :
      (addr : ℕ) (json : Fields) (o : Option ℕ) (c : ℕ) (d : Daemon M)
      → Quiet c d (state (load_typed addr json o d))
  unfolding load_typed answers
  Quiet-load_typed addr json none c d = Quiet-refl c d
  Quiet-load_typed addr json (some kind) c d =
      if_rule (λ o. Quiet c d (state o)) (ltb addr max_modules)
        (λ _. Quiet-load_target addr json (target_of kind addr (d.modules addr)) c d)
        (λ _. (refl, refl))

  Quiet-load_entry :
      (addr : ℕ) (o : Option Fields) (c : ℕ) (d : Daemon M)
      → Quiet c d (state (load_entry addr o d))
  unfolding load_entry
  Quiet-load_entry addr none c d = Quiet-refl c d
  Quiet-load_entry addr (some json) c d = Quiet-load_typed addr json (safe_uint_at json "type") c d

  Quiet-elim :
      (around : Surroundings) (rest : Fields) (c : ℕ) (d : Daemon M) (o : Outcome (Daemon M))
      → Quiet c d (state o)
      → ((e : Daemon M) → Quiet c e (state (load_modules around rest e)))
      → Quiet c d (
          state (elim o as (λ _. Outcome (Daemon M)) [
            | threw e ↦ threw e
            | returned e ↦ load_modules around rest e
          ]))
  Quiet-elim around rest c d (threw e) h k = h
  Quiet-elim around rest c d (returned e) h k = ((k e).0 ∙ h.0, (k e).1 ∙ h.1)

  Quiet-load_modules :
      (around : Surroundings) (entries : Fields) (c : ℕ) (d : Daemon M)
      → Quiet c d (state (load_modules around entries d))
  unfolding load_modules
  Quiet-load_modules around end c d = Quiet-refl c d
  Quiet-load_modules around (field text v rest) c d =
      Quiet-elim around rest c d (load_entry (around.text_to_int text) (safe_object v) d)
        (Quiet-load_entry (around.text_to_int text) (safe_object v) c d)
        (λ e. Quiet-load_modules around rest c e)

  Quiet-store_clients :
      (o : Option (List Json)) (c : ℕ) (d : Daemon M) → Quiet c d (state (store_clients o d))
  unfolding store_clients
  Quiet-store_clients none c d = (refl, refl)
  Quiet-store_clients (some values) c d =
      if_rule (λ o. Quiet c d (state o)) (read_clients values []).1 (λ _. (refl, refl))
        (λ _. (refl, refl))

  Quiet-load_clients :
      (o : Option Fields) (c : ℕ) (d : Daemon M) → Quiet c d (state (load_clients o d))
  unfolding load_clients
  Quiet-load_clients none c d = Quiet-refl c d
  Quiet-load_clients (some server) c d =
      Quiet-store_clients (safe_array_at server "allowedClients") c d

  Quiet-then_load_clients :
      (o : Outcome (Daemon M)) (c : ℕ) (d : Daemon M)
      → Quiet c d (state o)
      → Quiet c d (state (then_load_clients o))
  unfolding then_load_clients
  Quiet-then_load_clients (threw e) c d h = h
  Quiet-then_load_clients (returned e) c d h =
      let k =
        Quiet-load_clients (safe_object_at (remove e.config "modules") "server") c
          (record e { config = remove e.config "modules" }) in
      (k.0 ∙ h.0, k.1 ∙ h.1)

  pub Quiet-load_config :
      (around : Surroundings) (name : String) (c : ℕ) (d : Daemon M)
      → Quiet c d (state (load_config around name d))
  unfolding load_config
  Quiet-load_config around name c d =
      elim (around.read_file name)
        as (λ o. Quiet c d (
          state (elim o as (λ _. Outcome (Daemon M)) [
            | none ↦ threw d
            | some root ↦
                then_load_clients (
                  load_modules around (to_object (get root "modules")) (record d { config = root }))
          ]))) [
            | none ↦ Quiet-refl c d
            | some root ↦
                Quiet-then_load_clients
                  (load_modules around (to_object (get root "modules"))
                    (record d { config = root }))
                  c d
                  (Quiet-load_modules around (to_object (get root "modules")) c
                    (record d { config = root }))
          ]

  pub Quiet-save_config :
      (around : Surroundings) (name : String) (c : ℕ) (d : Daemon M)
      → Quiet c d (state (save_config around name d))
  unfolding save_config answers
  Quiet-save_config around name c d =
      if_rule (λ o. Quiet c d (state o)) (around.writable name) (λ _. (refl, refl))
        (λ _. (refl, refl))
