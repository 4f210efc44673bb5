-- ===== src/Usb/Frame/Ends.antt =====
-- The end of the reading loop of src/mtbusb/mtbusb-receive.cpp, and reads that bring parts of frames.
use mtb_daemon.Base.{
  ℕ, zero, suc, ◌+◌, ◌≤◌, ◌<◌, ◌≡◌, ◌⊎◌, inl, inr, refl, sym, ap, ◌∙◌, ◌&&◌, not, List, [], ◌∷◌,
  ◌++◌, length, length-append, drop, is_empty, ltb, if◌then◌else◌, if_rule, arith,
}
use mtb_daemon.Usb.{Usb, Env, buf_in_timeout, log_event, undefined}
use mtb_daemon.Usb.Queue.{frame}
use mtb_daemon.Usb.Receive.{parse_mtbusb_message}
use mtb_daemon.Usb.Frame.{
  Head, incomplete, broken, message, next_frame, resync, read_frames, fill_buffer,
  handle_ready_read,
}
use mtb_daemon.Usb.Frame.Laws.{
  Message, AllShort, IsPartial, wire, deliver, read_frames-deliver, length-wire,
}

length-drop-le {ℓ} : {A : Type ℓ} (n : ℕ) (xs : List A) → length (drop n xs) ≤ length xs
length-drop-le zero xs = omega arith
length-drop-le (suc n) [] = omega arith
length-drop-le (suc n) (x ∷ xs) = omega (arith, length-drop-le n xs)

-- The bytes of a frame leave the buffer.
next_frame_shrinks :
    (xs : List ℕ) (code : ℕ) (bytes rest : List ℕ)
    → next_frame xs ≡ message code bytes rest
    → length rest < length xs
unfolding next_frame
next_frame_shrinks [] code bytes rest e = absurd (cc)
next_frame_shrinks (a ∷ []) code bytes rest e = absurd (cc)
next_frame_shrinks (a ∷ b ∷ []) code bytes rest e = absurd (cc)
next_frame_shrinks (a ∷ b ∷ len ∷ xs) code bytes rest e = ground (arith, length-drop-le {0} len xs)

abbrev pub HasEnded : List ℕ → Type 0
HasEnded buffer = (next_frame buffer ≡ incomplete) ⊎ (next_frame buffer ≡ broken)

shut : (buffer : List ℕ) → length buffer ≤ 0 → next_frame buffer ≡ incomplete
unfolding next_frame
shut [] h = refl
shut (a ∷ xs) h = absurd (omega arith)

module _ {K : Type 0} (env : Env K) where
  -- Fuel of the buffer's length is enough for the reading loop: what it leaves has no whole frame,
  -- or begins with a broken one, whatever the handlers of the messages do.
  pub read_frames-HasEnded :
      (fuel : ℕ) (s : Usb K)
      → length s.read_data ≤ fuel
      → HasEnded (read_frames fuel env s).read_data
  unfolding read_frames
  read_frames-HasEnded zero s h = inl (shut (s.read_data) h)
  read_frames-HasEnded (suc fuel) s h =
      head_cases (next_frame s.read_data) refl (λ t k. read_frames-HasEnded fuel t k)
    where
      head_cases :
          (x : Head)
          → next_frame s.read_data ≡ x
          → ((t : Usb K) → length t.read_data ≤ fuel → HasEnded (read_frames fuel env t).read_data)
          → HasEnded
              (elim x as (λ _. Usb K) [
                | incomplete ↦ s
                | broken ↦ log_event undefined s
                | message code bytes rest ↦
                    let t = parse_mtbusb_message env code bytes s in
                    read_frames fuel env (record t { read_data = rest })
              ]).read_data
      head_cases incomplete e next = inl e
      head_cases broken e next = inr e
      head_cases (message code bytes rest) e next =
          next (record (parse_mtbusb_message env code bytes s) { read_data = rest })
            (omega (arith, next_frame_shrinks s.read_data code bytes rest e))

  fill_empty :
      (received : List ℕ) (s : Usb K)
      → s.read_data ≡ []
      → fill_buffer received s
        ≡ record s { read_data = resync received; receive_timeout = s.now + buf_in_timeout }
  unfolding fill_buffer
  fill_empty received s empty =
      let stale = ltb s.receive_timeout s.now && not (is_empty s.read_data) in
      let kept : (if stale then [] else s.read_data) ≡ [] =
        if_rule (λ xs. xs ≡ []) stale (λ _. refl) (λ _. empty) in
      ap
        (λ xs. record s {
          read_data = resync (xs ++ received);
          receive_timeout = s.now + buf_in_timeout;
        })
        kept

  -- What is left of a read once its buffer is filled.
  after_fill : Usb K → Usb K
  after_fill t =
      let u = read_frames (length t.read_data) env t in
      record u { receive_timeout = u.now + buf_in_timeout }

  handle_ready_read_lem :
      (received : List ℕ) (s : Usb K)
      → handle_ready_read env received s ≡ after_fill (fill_buffer received s)
  unfolding handle_ready_read after_fill
  handle_ready_read_lem received s = refl

  -- When one or more whole frames with less than 127 bytes of data each, and behind them bytes
  -- that hold no whole frame, arrive at an empty buffer, their messages are handled one after
  -- another, and the bytes behind them stay for the next read.
  pub handle_ready_read-deliver :
      (m : Message) (ms : List Message) (tail : List ℕ) (s : Usb K)
      → AllShort (m ∷ ms)
      → IsPartial tail
      → s.read_data ≡ []
      → let buffer = wire (m ∷ ms) ++ tail in
        let t : Usb K = record s { read_data = buffer; receive_timeout = s.now + buf_in_timeout } in
        let u : Usb K = deliver env (m ∷ ms) tail t in
        handle_ready_read env buffer s ≡ record u { receive_timeout = u.now + buf_in_timeout }
  unfolding after_fill
  handle_ready_read-deliver (code, bytes) ms tail s short part empty =
      let buffer = wire ((code, bytes) ∷ ms) ++ tail in
      let t : Usb K = record s { read_data = buffer; receive_timeout = s.now + buf_in_timeout } in
      let marked : resync buffer ≡ buffer = unfold wire frame resync in refl in
      let filled : fill_buffer buffer s ≡ t =
        fill_empty buffer s empty
        ∙ ap (λ xs. record s { read_data = xs; receive_timeout = s.now + buf_in_timeout }) marked in
      handle_ready_read_lem buffer s
      ∙ ap after_fill filled
      ∙ ap {A = Usb K} (λ u. record u { receive_timeout = u.now + buf_in_timeout })
          (read_frames-deliver env (length buffer) ((code, bytes) ∷ ms) tail t short part
            (omega (
              arith,
              length-wire ((code, bytes) ∷ ms),
              length-append {0} (wire ((code, bytes) ∷ ms)) tail,
            ))
            refl)

  handle_nothing :
      (received : List ℕ) (s : Usb K)
      → s.read_data ≡ []
      → resync received ≡ []
      → handle_ready_read env received s ≡ record s { receive_timeout = s.now + buf_in_timeout }
  unfolding after_fill read_frames
  handle_nothing received s empty lost =
      handle_ready_read_lem received s
      ∙ ap after_fill (
          fill_empty received s empty
          ∙ ap (λ xs. record s { read_data = xs; receive_timeout = s.now + buf_in_timeout })
              (lost ∙ sym empty))
      ∙ rw (empty) refl

  -- When the first byte of the mark arrives alone at an empty buffer, and the bytes that come next
  -- hold no mark of their own, both reads leave the state as it was but for the time limit of the
  -- buffer: no message is handled and nothing is kept.
  pub handle_ready_read_split :
      (rest : List ℕ) (s : Usb K)
      → s.read_data ≡ []
      → resync rest ≡ []
      → handle_ready_read env rest (handle_ready_read env (0x2A ∷ []) s)
        ≡ record s { receive_timeout = s.now + buf_in_timeout }
  unfolding resync
  handle_ready_read_split rest s empty lost =
      ap (handle_ready_read env rest) (handle_nothing (0x2A ∷ []) s empty refl)
      ∙ handle_nothing rest (record s { receive_timeout = s.now + buf_in_timeout }) empty lost
