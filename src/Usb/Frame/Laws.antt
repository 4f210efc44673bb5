-- ===== src/Usb/Frame/Laws.antt =====
-- What the reader of src/mtbusb/mtbusb-receive.cpp makes of a buffer.
use mtb_daemon.Base.{
  ℕ, zero, suc, ◌%◌, ◌≤◌, ◌<◌, ◌≡◌, refl, ap, ◌∙◌, false, List, [], ◌∷◌, ◌++◌, length,
  length-append, take_all, drop_all, leb, ltb, arith,
}
use mathlib.Core.List.{append_assoc}
use mtb_daemon.Usb.{Usb, Env}
use mtb_daemon.Usb.Queue.{frame}
use mtb_daemon.Usb.Receive.{parse_mtbusb_message}
use mtb_daemon.Usb.Frame.{incomplete, message, next_frame, read_frames}

-- A command code and its data.
abbrev pub Message : Type 0
Message = ℕ × List ℕ

-- The length byte of the frame is below 128.
abbrev pub IsShort : Message → Type 0
IsShort (code, bytes) = length bytes < 127

-- The bytes on the wire of a sequence of messages.
unfoldable pub wire : List Message → List ℕ
wire [] = []
wire ((code, bytes) ∷ ms) = frame (code ∷ bytes) ++ wire ms

-- A frame with less than 127 bytes of data, as the daemon itself would write it, is read back,
-- whatever follows it.
pub next_frame-frame :
    (code : ℕ) (bytes rest : List ℕ)
    → length bytes < 127
    → next_frame (frame (code ∷ bytes) ++ rest) ≡ message code bytes rest
unfolding next_frame frame
next_frame-frame code bytes rest h =
    let len : suc (length bytes) % 256 ≡ suc (length bytes) = omega arith in
    let fits : ltb (length (code ∷ bytes ++ rest)) (suc (length bytes)) ≡ false =
      ground (arith, length-append {0} bytes rest) in
    let short : leb 128 (suc (length bytes)) ≡ false = ground arith in
    rw (len, short, fits, take_all bytes rest, len, drop_all bytes rest)

pub length-wire : (ms : List Message) → length ms ≤ length (wire ms)
unfolding wire frame
length-wire [] = omega arith
length-wire ((code, bytes) ∷ ms) = omega (arith, length-wire ms, length-append {0} bytes (wire ms))

-- What follows the last whole frame.
abbrev pub IsPartial : List ℕ → Type 0
IsPartial tail = next_frame tail ≡ incomplete

abbrev pub AllShort : List Message → Type 0
AllShort [] = Unit
AllShort (m ∷ ms) = IsShort m × AllShort ms

module _ {K : Type 0} (env : Env K) where
  -- The messages handled one after another; the buffer holds what has not been read yet.
  unfoldable pub deliver : List Message → List ℕ → Usb K → Usb K
  deliver [] tail s = s
  deliver ((code, bytes) ∷ ms) tail s =
      deliver ms tail
        (record (parse_mtbusb_message env code bytes s) { read_data = wire ms ++ tail })

  read_one :
      (fuel : ℕ) (s : Usb K) (code : ℕ) (bytes rest : List ℕ)
      → next_frame s.read_data ≡ message code bytes rest
      → read_frames (suc fuel) env s
        ≡ read_frames fuel env (record (parse_mtbusb_message env code bytes s) { read_data = rest })
  unfolding read_frames
  read_one fuel s code bytes rest e = rw (e, read_frames)

  read_partial : (fuel : ℕ) (s : Usb K) → IsPartial s.read_data → read_frames fuel env s ≡ s
  unfolding read_frames
  read_partial zero s e = refl
  read_partial (suc fuel) s e = rw (e, read_frames)

  -- The loop delivers exactly the messages of the buffer, in their order, and leaves the bytes after
  -- the last whole frame, if its fuel is at least the number of messages.
  pub read_frames-deliver :
      (fuel : ℕ) (ms : List Message) (tail : List ℕ) (s : Usb K)
      → AllShort ms
      → IsPartial tail
      → length ms ≤ fuel
      → s.read_data ≡ wire ms ++ tail
      → read_frames fuel env s ≡ deliver ms tail s
  unfolding deliver wire
  read_frames-deliver fuel [] tail s short part enough e =
      read_partial fuel s (ap next_frame e ∙ part)
  read_frames-deliver zero (m ∷ ms) tail s short part enough e = absurd (omega arith)
  read_frames-deliver (suc fuel) ((code, bytes) ∷ ms) tail s short part enough e =
      read_one fuel s code bytes (wire ms ++ tail) (
        ap next_frame (e ∙ append_assoc (frame (code ∷ bytes)) (wire ms) tail)
        ∙ next_frame-frame code bytes (wire ms ++ tail) short.0)
      ∙ read_frames-deliver fuel ms tail
          (record (parse_mtbusb_message env code bytes s) { read_data = wire ms ++ tail }) short.1
          part (omega arith) refl
