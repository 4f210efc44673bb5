-- ===== src/Usb/Frame.antt =====
-- `spHandleReadyRead` of src/mtbusb/mtbusb-receive.cpp: the input buffer and the frames in it. A
-- frame is 0x2A, 0x42, the length of what follows, a command code, and its data.
pub mod Laws
pub mod Ends
use mtb_daemon.Base.{
  ℕ, zero, suc, ◌+◌, ◌-◌, ◌≤◌, ◌<◌, Bool, true, false, not, ◌&&◌, ◌||◌, Option, none, some, List,
  [], ◌∷◌, ◌++◌, length, take, drop, is_empty, ltb, leb, ◌==◌, if◌then◌else◌,
}
use mtb_daemon.Usb.{Usb, Env, undefined, log_event, buf_in_timeout}
use mtb_daemon.Usb.Receive.{parse_mtbusb_message}

-- `indexOf("\x2A\x42")` and `remove(0, pos)`: the bytes before the first mark are removed, or all
-- of them if there is no mark.
unfoldable pub resync : List ℕ → List ℕ
resync [] = []
resync (a ∷ []) = []
resync (a ∷ b ∷ rest) =
    let later = resync (b ∷ rest) in if a == 0x2A && b == 0x42 then a ∷ b ∷ rest else later

-- One round of the loop on the buffer. `char` is signed: a length byte from 128 up is negative, so
-- the test of the loop passes at once, and the range of the data is out of the buffer, as it is for
-- the length 0: both are `broken`.
pub data Head : Type 0 where
  incomplete : Head
  broken : Head
  message : ℕ → List ℕ → List ℕ → Head

unfoldable pub next_frame : List ℕ → Head
next_frame (a ∷ b ∷ len ∷ rest) =
    if leb 128 len
    then broken
    else if ltb (length rest) len
    then incomplete
    else elim (take len rest) [ [] ↦ broken | code ∷ bytes ↦ message code bytes (drop len rest) ]
next_frame _ = incomplete

module _ {K : Type 0} where
  -- The loop, on fuel. What a broken frame leads to is not defined, and the loop ends there.
  unfoldable pub read_frames : ℕ → Env K → Usb K → Usb K
  unfolding next_frame parse_mtbusb_message
  read_frames zero env s = s
  read_frames (suc fuel) env s = elim (next_frame s.read_data) [
    | incomplete ↦ s
    | broken ↦ log_event undefined s
    | message code bytes rest ↦
        let t = parse_mtbusb_message env code bytes s in
        read_frames fuel env (record t { read_data = rest })
  ]

  -- `received` is what the port has; the buffer is dropped if the last bytes came long ago.
  unfoldable pub fill_buffer : List ℕ → Usb K → Usb K
  unfolding resync
  fill_buffer received s =
      let stale = ltb s.receive_timeout s.now && not (is_empty s.read_data) in
      record s {
        read_data = resync ((if stale then [] else s.read_data) ++ received);
        receive_timeout = s.now + buf_in_timeout;
      }

  unfoldable pub handle_ready_read : Env K → List ℕ → Usb K → Usb K
  unfolding fill_buffer read_frames
  handle_ready_read env received s =
      let t = fill_buffer received s in
      let u = read_frames (length t.read_data) env t in
      record u { receive_timeout = u.now + buf_in_timeout }
