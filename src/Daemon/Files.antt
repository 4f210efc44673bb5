-- ===== src/Daemon/Files.antt =====
-- src/main.cpp: loading and saving the configuration, and connecting to MTB-USB.
pub mod Reloading
use Prim.Native.String.{String}
use text.Mathlib.Text.{◌==◌ as str_eq}
use mtb_daemon.Base.{
  ℕ, zero, suc, Bool, true, false, not, Option, none, some, List, [], ◌∷◌, ◌==◌, ◌&&◌, ◌||◌, ltb,
  if◌then◌else◌, length,
}
use mtb_daemon.Json.{
  Json, string, object, Fields, end, field, get, as_int, contains, to_object, to_string, remove,
}
use mtb_daemon.Json.Safe.{
  safe_object, safe_object_at, safe_array_at, safe_uint_at, safe_string, safe_string_at,
}
use mtb_daemon.Server.{json_error}
use mtb_daemon.Server.Error
use mtb_daemon.Usb.{max_modules}
use mtb_daemon.Daemon.{
  Daemon, Outcome, returned, threw, usb_config, usb_connect, saved, out_of_bounds, effect, send,
}
use mtb_daemon.Daemon.Modules.{ModuleOps}
use mtb_daemon.Daemon.Requests.{store_module}
use mtb_daemon.Daemon.Activation.{new_module, mtb_usb_on_connect}

-- What is outside of the program: the address of a socket's peer, the object that a file holds
-- (`none`: it cannot be opened or is no JSON), whether a file can be written, numbers as texts and
-- back (QString::toInt, QString::number, the key of three digits), the serial ports that look like an
-- MTB-USB, all serial ports, whether a port opens, and the version that the build sets.
pub record Surroundings : Type 0 where
  pub peer : ℕ → String
  pub read_file : String → Option Fields
  pub writable : String → Bool
  pub text_to_int : String → ℕ
  pub int_to_text : ℕ → String
  pub key : ℕ → String
  pub usb_ports : List String
  pub ports : List String
  pub opens : String → Bool
  pub build_version : Fields

abbrev pub has_text : String → List String → Bool
has_text t [] = false
has_text t (u ∷ us) = str_eq u t || has_text t us

-- The loop over "allowedClients", which may end with an exception.
unfoldable pub read_clients : List Json → List String → List String × Bool
read_clients [] clients = (clients, true)
read_clients (v ∷ vs) clients = elim (safe_string v) [
  | none ↦ (clients, false)
  | some t ↦ read_clients vs (t ∷ clients)
]

abbrev pub filename_of : Fields → String → Option String
filename_of request default =
    if contains request "filename" then safe_string_at request "filename" else some default

abbrev pub status_response : String → Bool → Fields → Fields
status_response command ok request =
    let id = if contains request "id" then field "id" (as_int (get request "id")) end else end in
    let rest = if ok then id else field "error" (json_error Error.file_cannot_access) id in
    field "command" (string command) (
      field "type" (string "response")
        (field "status" (string (if ok then "ok" else "error")) rest))

abbrev pub succeeded : {S : Type 0} → Outcome S → Bool
succeeded (returned s) = true
succeeded (threw s) = false

abbrev pub state : {S : Type 0} → Outcome S → S
state (returned s) = s
state (threw s) = s

module _ {M : Type 0} where
  -- Addresses of hosts are compared as their texts.
  unfoldable pub has_write_access : Surroundings → ℕ → Daemon M → Bool
  has_write_access around socket d = has_text (around.peer socket) d.write_access

  -- mtbusb.connect: `onConnect` is signalled before it returns. EOpenError is caught.
  unfoldable pub open_port : Surroundings → String → Daemon M → Daemon M
  open_port around port d =
      if not d.connected && around.opens port
      then mtb_usb_on_connect (effect (usb_connect port) (record d { connected = true }))
      else d

  unfoldable pub mtb_usb_connect : Surroundings → Daemon M → Daemon M
  mtb_usb_connect around d =
      let port = to_string (get (usb_config d) "port") in
      if not (str_eq port "auto")
      then open_port around port d
      else elim around.usb_ports [ one ∷ [] ↦ open_port around one d | _ ↦ d ]

  -- Whether the port of the configuration is there.
  abbrev port_found : Surroundings → Daemon M → Bool
  port_found around d =
      let port = to_string (get (usb_config d) "port") in
      if str_eq port "auto" then length around.usb_ports == 1 else has_text port around.ports

  unfoldable pub t_reconnect_tick : Surroundings → Daemon M → Daemon M
  t_reconnect_tick around d =
      let stopped = if d.connected then record d { reconnecting = false } else d in
      let connected = mtb_usb_connect around stopped in
      if not (port_found around stopped)
      then stopped
      else if connected.connected
      then record connected { reconnecting = false }
      else connected

  -- The clients that may write, at the end of loadConfig: what is read of "server", then of
  -- "allowedClients".
  unfoldable pub store_clients : Option (List Json) → Daemon M → Outcome (Daemon M)
  store_clients none d = threw (record d { write_access = [] })
  store_clients (some values) d =
      let read = read_clients values [] in
      let e = record d { write_access = read.0 } in if read.1 then returned e else threw e

  unfoldable pub load_clients : Option Fields → Daemon M → Outcome (Daemon M)
  load_clients none d = threw d
  load_clients (some server) d = store_clients (safe_array_at server "allowedClients") d

  unfoldable pub then_load_clients : Outcome (Daemon M) → Outcome (Daemon M)
  then_load_clients (threw d) = threw d
  then_load_clients (returned d) =
      let e = record d { config = remove d.config "modules" } in
      load_clients (safe_object_at e.config "server") e

module _ {M : Type 0} ⦃ops : ModuleOps M⦄ where
  -- The module that an entry is loaded into: a new one, or one of the same type; `none` where the
  -- entry is ignored.
  unfoldable pub target_of : ℕ → ℕ → Option M → Option M
  target_of kind addr none = some (new_module kind addr)
  target_of kind addr (some m) = if ops.module_type m == kind then some m else none

  -- One entry of "modules", by what is read of it.
  unfoldable pub load_target : ℕ → Fields → Option M → Daemon M → Outcome (Daemon M)
  load_target addr json none d = returned d
  load_target addr json (some m) d = store_module addr d (ops.load_config json m)

  unfoldable pub load_typed : ℕ → Fields → Option ℕ → Daemon M → Outcome (Daemon M)
  load_typed addr json none d = threw d
  load_typed addr json (some kind) d =
      if ltb addr max_modules
      then load_target addr json (target_of kind addr (d.modules addr)) d
      else returned (effect (out_of_bounds addr) d)

  unfoldable pub load_entry : ℕ → Option Fields → Daemon M → Outcome (Daemon M)
  load_entry addr none d = threw d
  load_entry addr (some json) d = load_typed addr json (safe_uint_at json "type") d

  -- The loop over "modules".
  unfoldable pub load_modules : Surroundings → Fields → Daemon M → Outcome (Daemon M)
  load_modules around end d = returned d
  load_modules around (field text v rest) d =
      elim (load_entry (around.text_to_int text) (safe_object v) d) [
        | threw e ↦ threw e
        | returned e ↦ load_modules around rest e
      ]

  unfoldable pub load_config : Surroundings → String → Daemon M → Outcome (Daemon M)
  load_config around filename d = elim (around.read_file filename) [
    | none ↦ threw d
    | some root ↦
        then_load_clients
          (load_modules around (to_object (get root "modules")) (record d { config = root }))
  ]

  -- The loop over the modules from `addr` on.
  unfoldable pub saved_modules : Surroundings → ℕ → ℕ → (ℕ → Option M) → Fields
  saved_modules around zero addr modules = end
  saved_modules around (suc n) addr modules =
      let rest = saved_modules around n (suc addr) modules in
      elim (modules addr) [
        | none ↦ rest
        | some m ↦ field (around.key addr) (object (ops.save_config m)) rest
      ]

  unfoldable pub save_config : Surroundings → String → Daemon M → Outcome (Daemon M)
  save_config around filename d =
      let modules = saved_modules around max_modules 0 d.modules in
      if around.writable filename
      then returned (effect (saved filename (field "modules" (object modules) d.config)) d)
      else threw d

  -- With write access.
  unfoldable pub cmd_save_config : Surroundings → ℕ → Fields → Daemon M → Outcome (Daemon M)
  cmd_save_config around socket request d = elim (filename_of request d.config_file_name) [
    | none ↦ threw d
    | some filename ↦
        let outcome = save_config around filename d in
        returned
          (send socket (status_response "save_config" (succeeded outcome) request) (state outcome))
  ]

  -- With write access.
  unfoldable pub cmd_load_config : Surroundings → ℕ → Fields → Daemon M → Outcome (Daemon M)
  cmd_load_config around socket request d = elim (filename_of request d.config_file_name) [
    | none ↦ threw d
    | some filename ↦
        let outcome = load_config around filename d in
        returned
          (send socket (status_response "load_config" (succeeded outcome) request) (state outcome))
  ]
