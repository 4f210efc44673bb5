-- ===== src/Uni.antt =====
-- src/modules/uni.cpp, uni.h, src/modules/module.cpp, module.h, src/server.h: modules with
-- inputs and outputs as the daemon sees them. Arrays of 16 entries are lists; a client's socket is a number.
pub mod Error
pub mod Config
pub mod Outputs
pub mod Upgrade
pub mod Activation
pub mod Kind
pub mod Form
pub mod Setting
pub mod Setters
use Prim.Native.String.{String}
use mtb_daemon.Base.{ℕ, Bool, Option, List, ◌∷◌, ◌==◌, ◌||◌, if◌then◌else◌}
use mtb_daemon.Json.{Fields}
use mtb_daemon.Cmd.{Body}
use mtb_daemon.Cmd.Reply.{ModuleInfo}
use mtb_daemon.Firmware.{Firmware}

-- UNI_IO_CNT, MTB_MODULE_ACTIVATIONS.
abbrev pub uni_io_cnt : ℕ
uni_io_cnt = 16

abbrev pub mtb_module_activations : ℕ
mtb_module_activations = 5

-- MtbUniConfig.
pub record UniConfig : Type 0 where
  pub outputs_safe : List ℕ
  pub inputs_delay : List ℕ
  pub irs : ℕ

-- ServerRequest: the socket, `none` for a client that is gone, and the id of the request.
pub record ServerRequest : Type 0 where
  pub socket : Option ℕ
  pub request_id : Option ℕ

-- The callbacks that a module hands to mtbusb.send and to QTimer::singleShot, by the handler that
-- they call; the last ones capture the client's socket and its request.
pub data Callback : Type 0 where
  outputs_set : Callback
  upgrade_requested : Callback
  upgrade_info : Callback
  upgrade_status : Callback
  upgrade_written : Callback
  config_written : Callback
  config_set : Callback
  config_got : Callback
  inputs_read : Callback
  outputs_were_reset : Callback
  rebooted : Callback
  reboot_info : Callback
  address_changed : ℕ → Fields → Callback
  diag_got : ℕ → Fields → Callback
  specific_got : ℕ → Fields → Callback
  beacon_set : Bool → ℕ → Fields → Callback

-- What the classes MtbUni, MtbUnis and MtbLed differ in; their handlers are the same text. `Content` is
-- what "outputs" of a request holds for an output, `output_of` what is stored for it (none: a
-- JsonParseError); `off` is an output of a module without configuration.
pub record IoKind : Type 1 where
  pub Config : Type 0
  pub Value : Type 0
  pub Inputs : Type 0
  pub Content : Type 0
  pub io_cnt : ℕ
  pub off : Value
  pub same_value : Value → Value → Bool
  pub equal_configs : Config → Config → Bool
  pub safe_of : Config → List Value
  pub new_config : Config
  pub serialize : ℕ → Config → List ℕ
  pub read_config : List ℕ → Config → Config
  pub output_of : Content → Option Value
  pub outputs_data : List Value → List ℕ
  pub outputs_of : List ℕ → List (Option Value)
  pub no_inputs : Inputs
  pub store_inputs : List ℕ → Inputs → Inputs
  pub page_bytes : ℕ → ℕ

-- What a module does to its surroundings: a command for MTB-USB, a timer in milliseconds, and the
-- messages for clients, the last two for a request whose socket is at hand (server.send, and sendError
-- with a code).
pub data Effect (k : IoKind) : Type 0 where
  sent : Body → Callback → Effect k
  timer : ℕ → Callback → Effect k
  answered : ServerRequest → List (Option k.Value) → Effect k
  refused : ServerRequest → ℕ → Effect k
  done : ServerRequest → Effect k
  module_event : Option ℕ → Bool → Effect k
  inputs_event : k.Inputs → Effect k
  outputs_event : List (Option k.Value) → List (Option ℕ) → Effect k
  told : ℕ → Fields → Effect k
  request_refused : ℕ → Fields → ℕ → Effect k

-- Who waits for a reboot: `rebooting.onOk` and `rebooting.onError`.
pub data Rebooting : Type 0 where
  for_upgrade : Rebooting
  for_request : ServerRequest → Rebooting

-- The fields of MtbModule and of MtbUni, MtbUnis or MtbLed that the handlers below use. `reboot_for`
-- stands for the functions of the last reboot; `to_write` is the rest of `data` from the iterator on; `effects` is
-- what was done so far, the latest first. Outputs whose value was never written are `none`.
pub record IoModule (k : IoKind) : Type 0 where
  pub address : ℕ
  pub name : String
  pub kind : ℕ  -- `type`
  pub active : Bool
  pub activating : Bool
  pub activations_remaining : ℕ
  pub bus_module_info : ModuleInfo
  pub config_writing : Option ServerRequest
  pub rebooting : Bool
  pub reboot_for : Rebooting
  pub activated_by_mtb_usb : Bool
  pub beacon : Bool
  pub fw_upgrading : Option ServerRequest
  pub data_ : Firmware
  pub to_write : Firmware
  pub config : Option k.Config
  pub config_to_write : Option k.Config
  pub inputs : k.Inputs
  pub outputs_want : List k.Value
  pub outputs_confirmed : List (Option k.Value)
  pub who_set_output : List (Option ℕ)
  pub set_outputs_waiting : List ServerRequest
  pub set_outputs_sent : List ServerRequest
  pub effects : List (Effect k)

abbrev pub effect : {k : IoKind} → Effect k → IoModule k → IoModule k
effect e s = record s { effects = e ∷ s.effects }

-- isUniv2, isIrSupport and pageSize, by the codes of MtbModuleType.
unfoldable pub is_univ2 : ℕ → Bool
is_univ2 kind = kind == 0x10 || kind == 0x11

unfoldable pub is_ir_support : ℕ → Bool
is_ir_support kind = kind == 0x10

unfoldable pub page_size : ℕ → ℕ
unfolding is_univ2
page_size kind = if is_univ2 kind then 128 else 256
