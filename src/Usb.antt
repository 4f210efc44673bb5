-- ===== src/Usb.antt =====
-- src/mtbusb/mtbusb.h: the state of MtbUsb, and what it takes from its surroundings.
pub mod Queue
pub mod Timer
pub mod Match
pub mod Receive
pub mod Frame
pub mod Port
pub mod Client
pub mod Keep
pub mod Run
pub mod Progress
pub mod Invariant
use mtb_daemon.Base.{ℕ, ◌+◌, ◌≤◌, Bool, Option, List, ◌∷◌, word, ltb}
use mtb_daemon.Cmd.{Cmd}
use mtb_daemon.Cmd.Reply.{Reply, failed}

-- _MAX_PENDING, _PENDING_RESEND_MAX, _PENDING_TIMEOUT and _BUF_IN_TIMEOUT (ms), _MAX_MODULES.
abbrev pub max_pending : ℕ
max_pending = 3

abbrev pub pending_resend_max : ℕ
pending_resend_max = 3

abbrev pub pending_timeout : ℕ
pending_timeout = 300

abbrev pub buf_in_timeout : ℕ
buf_in_timeout = 50

abbrev pub max_modules : ℕ
max_modules = 256

-- PendingCmd. Times are milliseconds.
pub record Pending (K : Type 0) : Type 0 where
  pub cmd : Cmd K
  pub timeout : ℕ
  pub no_sent : ℕ

-- MtbUsbInfo.
pub record UsbInfo : Type 0 where
  pub kind : ℕ  -- `type`
  pub speed : ℕ
  pub fw_major : ℕ
  pub fw_minor : ℕ
  pub proto_major : ℕ
  pub proto_minor : ℕ

unfoldable pub fw_raw : UsbInfo → ℕ
fw_raw i = word i.fw_major i.fw_minor

unfoldable pub fw_deprecated : UsbInfo → Bool
unfolding fw_raw
fw_deprecated i = ltb (fw_raw i) 0x0103

-- The signals of MtbUsb.
pub data Signal : Type 0 where
  on_connect : Signal
  on_disconnect : Signal
  on_new_module : ℕ → Signal
  on_module_fail : ℕ → Signal
  on_inputs_change : ℕ → List ℕ → Signal
  on_diag_state_change : ℕ → List ℕ → Signal

-- What an observer sees: bytes given to the port, calls of callbacks, signals; `undefined` stands
-- for an access out of bounds, whose effect C++ leaves open.
pub data Event (K : Type 0) : Type 0 where
  written : List ℕ → Event K
  called : K → Reply → Event K
  signalled : Signal → Event K
  undefined : Event K

-- The fields of MtbUsb; `is_open` is m_serialPort.isOpen(), `now` is the clock, `next_id` the next
-- unused object's address, `events` what was observed so far, the latest first.
pub record Usb (K : Type 0) : Type 0 where
  pub is_open : Bool
  pub ping : Bool
  pub pending : List (Pending K)
  pub out : List (Cmd K)
  pub info : Option UsbInfo
  pub active : Option (List Bool)
  pub read_data : List ℕ
  pub receive_timeout : ℕ
  pub now : ℕ
  pub next_id : ℕ
  pub events : List (Event K)

-- The clients of MtbUsb and the serial port: what a callback does when it is called, what the slot
-- connected to a signal does, and whether QSerialPort::write takes all bytes.
pub record Env (K : Type 0) : Type 0 where
  pub call : K → Reply → Usb K → Usb K
  pub signal : Signal → Usb K → Usb K
  pub accepts : Usb K → List ℕ → Bool

module _ {K : Type 0} where
  abbrev pub log_event : Event K → Usb K → Usb K
  log_event e s = record s { events = e ∷ s.events }

  -- `func(…, data)` of a callback.
  abbrev pub call_back : Env K → K → Reply → Usb K → Usb K
  call_back env k r s = env.call k r (log_event (called k r) s)

  -- Cmd::callError.
  abbrev pub call_error : Env K → Cmd K → ℕ → Usb K → Usb K
  call_error env c error s = call_back env c.on_error (failed error) s

  -- `emit`.
  abbrev pub emit : Env K → Signal → Usb K → Usb K
  emit env sig s = env.signal sig (log_event (signalled sig) s)
