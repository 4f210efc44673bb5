-- ===== src/Daemon.antt =====
-- src/main.h, src/main.cpp, src/server.h: the state of the daemon, and what it does to MTB-USB, to
-- timers and to clients. A client's socket is a number.
pub mod Modules
pub mod Subscriptions
pub mod Outputs
pub mod Activation
pub mod Requests
pub mod Files
pub mod Received
pub mod Access
pub mod Answers
pub mod Start
pub mod Lines
use Prim.Native.String.{String}
use mtb_daemon.Base.{
  ℕ, suc, Bool, true, false, Option, none, some, List, [], ◌∷◌, ◌==◌, ltb, if◌then◌else◌,
}
use mtb_daemon.Json.{Json, Fields, get, to_object}
use mtb_daemon.Cmd.{Body}
use mtb_daemon.Usb.{UsbInfo, max_modules}
use mtb_daemon.Server.{member, emplace, json_error, error_response}
use mtb_daemon.Server.Error

-- The callbacks that the daemon hands to mtbusb.send and mtbusb.changeSpeed, by what they do when the
-- command succeeds or fails, with what they capture.
pub data Callback : Type 0 where
  usb_info_got : Callback
  startup_speed_set : Callback
  active_modules_got : Callback
  module_info_got : ℕ → ℕ → Callback
  client_speed_set : ℕ → Fields → Callback
  specific_answered : ℕ → Fields → Callback
  specific_broadcast : ℕ → Fields → Callback
  address_changed : ℕ → Fields → Callback
  client_outputs_reset : ℕ → Fields → Callback
  gone_outputs_reset : Callback

-- The functions given to QTimer::singleShot.
pub data Timer : Type 0 where
  activate_again : ℕ → ℕ → Timer
  new_module_event : Timer
  module_fail_event : Timer

-- A message written to a socket; a message to a socket that is no client any more, which
-- `sendError` writes to all the same; a command; a change of speed; mtbusb.disconnect; mtbusb.connect;
-- a timer in milliseconds; a file written; a read or write out of the bounds of an array, whose effect
-- C++ leaves open.
pub data Effect : Type 0 where
  message : ℕ → Fields → Effect
  message_to_gone : ℕ → Fields → Effect
  sent : Body → Callback → Effect
  speed_change : ℕ → Callback → Effect
  usb_disconnect : Effect
  usb_connect : String → Effect
  started : ℕ → Timer → Effect
  saved : String → Fields → Effect
  out_of_bounds : ℕ → Effect

-- DaemonCoreApplication with the globals `modules`, `subscribes`, `topoSubscribes` of main.cpp, the
-- clients of `server`, and what the daemon reads of `mtbusb`; `M` is the type of modules. `effects` is
-- what was done so far, the latest first.
pub record Daemon (M : Type 0) : Type 0 where
  pub modules : ℕ → Option M
  pub subscribes : ℕ → List ℕ
  pub topo_subscribes : List ℕ
  pub clients : List ℕ
  pub write_access : List String
  pub config : Fields
  pub config_file_name : String
  pub reconnecting : Bool
  pub new_timer_pending : Bool
  pub fail_timer_pending : Bool
  pub connected : Bool
  pub usb_info : Option UsbInfo
  pub active_modules : Option (List Bool)
  pub effects : List Effect

-- How a handler ends: it returns, or throws a JsonParseError once it has changed the state.
pub data Outcome (S : Type 0) : Type 0 where
  returned : S → Outcome S
  threw : S → Outcome S

module _ {A : Type 0} where
  -- A write to an array that is indexed by addresses.
  abbrev pub put : ℕ → A → (ℕ → A) → ℕ → A
  put addr v f i = if i == addr then v else f i

  -- A loop over all addresses.
  abbrev pub for_all : (A → A) → (ℕ → A) → ℕ → A
  for_all g f i = if ltb i max_modules then g (f i) else f i

module _ {M : Type 0} where
  abbrev pub effect : Effect → Daemon M → Daemon M
  effect e d = record d { effects = e ∷ d.effects }

  -- config["mtb-usb"].toObject().
  abbrev pub usb_config : Daemon M → Fields
  usb_config d = to_object (get d.config "mtb-usb")

  -- DaemonServer::send(QTcpSocket*, …): to clients only.
  unfoldable pub send : ℕ → Fields → Daemon M → Daemon M
  send socket fields d = if member socket d.clients then effect (message socket fields) d else d

  -- sendError: DaemonServer::send(QTcpSocket&, …), without a look at `clients`.
  unfoldable pub send_error : ℕ → Fields → ℕ → Daemon M → Daemon M
  send_error socket request code d =
      let response = error_response request (json_error code) in
      effect
        (if member socket d.clients
          then message socket response
          else message_to_gone socket response)
        d

  unfoldable pub send_access_denied : ℕ → Fields → Daemon M → Daemon M
  send_access_denied socket request d = send_error socket request Error.forbidden d

  -- Messages to each of a set of sockets.
  unfoldable pub send_all : List ℕ → Fields → Daemon M → Daemon M
  send_all [] fields d = d
  send_all (c ∷ cs) fields d = send_all cs fields (send c fields d)
