-- ===== src/Daemon/Start/Laws.antt =====
-- src/main.cpp: the start of the program without a configuration file.
use Prim.Native.String.{String}
use mtb_daemon.Base.{
  Bool, false, Option, none, some, List, [], ◌∷◌, ◌≡◌, refl, inl, inr, Bool-cases, arith,
}
use mtb_daemon.Json.{Fields, get, to_string, to_object}
use text.Mathlib.Text.{◌==◌ as str_eq}
use mtb_daemon.Daemon.{Daemon, usb_config}
use mtb_daemon.Daemon.Modules.{ModuleOps}
use mtb_daemon.Daemon.Files.{Surroundings, open_port, mtb_usb_connect, save_config}
use mtb_daemon.Daemon.Activation.{mtb_usb_on_connect}
use mtb_daemon.Daemon.Start.{serve, serve_saved, start, start_config, default_config_filename}

module _ {M : Type 0} where
  open_port-write_access :
      (around : Surroundings) (port : String) (d : Daemon M)
      → (open_port around port d).write_access ≡ d.write_access
  unfolding open_port mtb_usb_on_connect
  open_port-write_access around port d = ground arith

  only_port-write_access :
      (around : Surroundings) (ports : List String) (d : Daemon M)
      → (elim ports as (λ x. Daemon M) [
        | [] ↦ d
        | one ∷ rest ↦ elim rest as (λ x. Daemon M) [ [] ↦ open_port around one d | two ∷ more ↦ d ]
      ]).write_access
        ≡ d.write_access
  only_port-write_access around [] d = refl
  only_port-write_access around (one ∷ []) d = open_port-write_access around one d
  only_port-write_access around (one ∷ two ∷ more) d = refl

  mtb_usb_connect-write_access :
      (around : Surroundings) (d : Daemon M)
      → (mtb_usb_connect around d).write_access ≡ d.write_access
  unfolding mtb_usb_connect
  mtb_usb_connect-write_access around d =
      elim (Bool-cases (str_eq (to_string (get (usb_config d) "port")) "auto")) [
        | inl e ↦ rw e (only_port-write_access around around.usb_ports d)
        | inr e ↦ rw e (open_port-write_access around (to_string (get (usb_config d) "port")) d)
      ]

  serve-write_access :
      (around : Surroundings) (listens : Fields → Bool) (d : Daemon M)
      → (serve around listens d).daemon.write_access ≡ d.write_access
  unfolding serve
  serve-write_access around listens d =
      elim (Bool-cases (listens (to_object (get d.config "server")))) [
        | inl e ↦
            rw e (elim (Bool-cases (mtb_usb_connect around (record d { clients = [] })).connected) [
              | inl c ↦ rw c (mtb_usb_connect-write_access around (record d { clients = [] }))
              | inr c ↦ rw c (mtb_usb_connect-write_access around (record d { clients = [] }))
            ])
        | inr e ↦ rw e refl
      ]

module _ {M : Type 0} ⦃ops : ModuleOps M⦄ where
  saved-write_access :
      (around : Surroundings) (listens : Fields → Bool) (name : String) (d : Daemon M)
      → (serve_saved around listens (
          save_config around name
            (record d { config_file_name = name; config = start_config }))).daemon.write_access
        ≡ d.write_access
  unfolding save_config
  saved-write_access around listens name d = elim (Bool-cases (around.writable name)) [
    | inl e ↦ rw e (serve-write_access around listens _)
    | inr e ↦ rw e refl
  ]

  -- Without a configuration file that opens, the clients that may write stay as they were (none at the
  -- start of the program), although the default configuration names one.
  pub start-write_access :
      (around : Surroundings) (listens : Fields → Bool) (argument : Option String) (d : Daemon M)
      → (start around false listens argument d).daemon.write_access ≡ d.write_access
  unfolding start
  start-write_access around listens none d =
      saved-write_access around listens default_config_filename d
  start-write_access around listens (some name) d = saved-write_access around listens name d
