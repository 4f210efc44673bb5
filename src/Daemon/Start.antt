-- ===== src/Daemon/Start.antt =====
-- src/main.cpp: the start of the program (the constructor of DaemonCoreApplication).
pub mod Laws
use Prim.Native.String.{String}
use mtb_daemon.Base.{ℕ, Bool, true, false, Option, none, some, List, [], ◌∷◌, if◌then◌else◌}
use mtb_daemon.Json.{
  Json, bool, number, string, array, nil, cons, object, Fields, end, field, get, to_object,
}
use mtb_daemon.Daemon.{Daemon, Outcome, returned, threw, usb_config}
use mtb_daemon.Daemon.Modules.{ModuleOps}
use mtb_daemon.Daemon.Files.{Surroundings, load_config, save_config, mtb_usb_connect}

-- DEFAULT_CONFIG, DEFAULT_CONFIG_FILENAME.
abbrev pub default_config_filename : String
default_config_filename = "mtb-daemon.json"

unfoldable pub start_config : Fields
start_config = field "loglevel" (number 3) (
    field "server"
      (object (
        field "host" (string "127.0.0.1") (
          field "port" (number 3841) (
            field "keepAlive" (bool true)
              (field "allowedClients" (array (cons (string "127.0.0.1") nil)) end)))))
      (field "mtb-usb" (object (field "port" (string "auto") (field "keepAlive" (bool true) end))) (
        field "production_logging"
          (object (
            field "enabled" (bool false) (
              field "loglevel" (number 5) (
                field "history" (number 100) (
                  field "future" (number 20)
                    (field "directory" (string "prodLog") (field "detectLevel" (number 2) end)))))))
          end)))

-- StartupError, and a program that an exception ends which nothing catches: FileWriteError inside the
-- handler of ConfigNotFound.
pub data StartupError : Type 0 where
  ok : StartupError
  config_load : StartupError
  server_start : StartupError
  uncaught : StartupError

-- What the start leaves: the daemon, its timer for activations and the server's keep-alive timer
-- (running or not), `ping` of MTB-USB, and how the start ended.
pub record Started (M : Type 0) : Type 0 where
  pub daemon : Daemon M
  pub reactivating : Bool
  pub sends_keep_alive : Bool
  pub ping : Bool
  pub startup_error : StartupError

-- toBool(true).
abbrev pub to_bool_or_true : Json → Bool
to_bool_or_true (bool b) = b
to_bool_or_true _ = true

module _ {M : Type 0} where
  -- A start that ends early, with the `ping` there is then.
  abbrev pub given_up : StartupError → Bool → Daemon M → Started M
  given_up error ping d = record {
    daemon = d;
    reactivating = false;
    sends_keep_alive = false;
    ping = ping;
    startup_error = error;
  }

  -- DaemonServer::listen and what follows it; `listens` tells of a configuration of the server whether
  -- its host and port can be listened on.
  unfoldable pub serve : Surroundings → (Fields → Bool) → Daemon M → Started M
  serve around listens d =
      let ping = to_bool_or_true (get (usb_config d) "keepAlive") in
      let server = to_object (get d.config "server") in
      let cleared = record d { clients = [] } in
      let connected = mtb_usb_connect around cleared in
      if listens server
      then record {
        daemon =
            if connected.connected then connected else record connected { reconnecting = true };
        reactivating = true;
        sends_keep_alive = to_bool_or_true (get server "keepAlive");
        ping = ping;
        startup_error = ok;
      }
      else given_up server_start ping cleared

  -- How the start goes on after loadConfig, and after saveConfig.
  abbrev pub serve_loaded : Surroundings → (Fields → Bool) → Outcome (Daemon M) → Started M
  serve_loaded around listens (threw d) = given_up config_load true d
  serve_loaded around listens (returned d) = serve around listens d

  abbrev pub serve_saved : Surroundings → (Fields → Bool) → Outcome (Daemon M) → Started M
  serve_saved around listens (threw d) = given_up uncaught true d
  serve_saved around listens (returned d) = serve around listens d

-- `argument` is the name on the command line, `opens_file` whether that file opens: without it,
-- loadConfig throws ConfigNotFound.
module _ {M : Type 0} ⦃ops : ModuleOps M⦄ where
  unfoldable pub start :
      Surroundings → Bool → (Fields → Bool) → Option String → Daemon M → Started M
  start around opens_file listens argument d =
      let name : String = elim argument [ none ↦ default_config_filename | some text ↦ text ] in
      let named = record d { config_file_name = name } in
      if opens_file
      then serve_loaded around listens (load_config around name named)
      else serve_saved around listens
          (save_config around name (record named { config = start_config }))
