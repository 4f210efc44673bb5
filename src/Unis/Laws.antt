-- ===== src/Unis/Laws.antt =====
-- Reading back the outputs and the configuration of a universal module with servos
-- (src/modules/unis.cpp).
use mtb_daemon.Base.{
  ℕ, zero, suc, ◌+◌, ◌%◌, ◌≤◌, ◌<◌, ◌≡◌, refl, sym, ap, ◌∙◌, false, some, List, [], ◌∷◌, ◌++◌, ltb,
  take, drop, length, length-append, map, arith,
}
use mtb_daemon.Uni.Outputs.{mask_bit, plain_bit, bits, not_plain, read_outputs}
use mtb_daemon.Uni.Outputs.Laws.{as_set, bits-split, read_outputs-bits}
use mtb_daemon.Uni.Config.{pack_delays, unpack_delays}
use mtb_daemon.Uni.Config.Laws.{AreDelays, unpack_delays-pack_delays, take_at, drop_at}
use mtb_daemon.Unis.{
  UnisConfig, four_bytes, unis_outputs_data, dword, unis_module_outputs, unis_serialize,
  unis_from_mtb_usb,
}

length-drop_eight : (os : List ℕ) → 8 ≤ length os → 8 + length (drop 8 os) ≡ length os
length-drop_eight (a ∷ b ∷ c ∷ d ∷ e ∷ g ∷ h ∷ i ∷ os) l = omega arith
length-drop_eight _ l = absurd (omega arith)

dword-bits :
    (f : ℕ → ℕ) (os : List ℕ)
    → length os ≡ 28
    → dword
        (bits f (take 8 os))
        (bits f (take 8 (drop 8 os)))
        (bits f (take 8 (drop 8 (drop 8 os))))
        (bits f (drop 8 (drop 8 (drop 8 os))))
      ≡ bits f os
unfolding dword
dword-bits f os h =
    let one = drop 8 os in
    let two = drop 8 one in
    let one_length = length-drop_eight os (omega arith) in
    let two_length = length-drop_eight one (omega arith) in
    omega (
      arith,
      bits-split f os (omega arith),
      bits-split f one (omega arith),
      bits-split f two (omega arith),
    )

-- For 28 wanted outputs, what a module that confirms the data of the command reports is read as the
-- outputs that were wanted, a plain output being off or on.
pub unis_module_outputs-unis_outputs_data :
    (os : List ℕ)
    → length os ≡ 28
    → unis_module_outputs (unis_outputs_data os) ≡ map (λ o. some (as_set o)) os
unfolding unis_module_outputs unis_outputs_data four_bytes
unis_module_outputs-unis_outputs_data os h =
    rw (dword-bits mask_bit os h, dword-bits plain_bit os h)
      (ap (λ n. read_outputs n (bits mask_bit os) (bits plain_bit os) (not_plain os)) (sym h)
        ∙ read_outputs-bits os)

-- The arrays of a configuration, with delays of at most 1.5 s and the mask of six servos.
pub record IsUnisConfig (c : UnisConfig) : Type 0 where
  pub outputs : length c.outputs_safe ≡ 28
  pub delays : AreDelays 8 c.inputs_delay
  pub mask : c.servo_enabled_mask < 64
  pub positions : length c.servo_position ≡ 12
  pub speeds : length c.servo_speed ≡ 6
  pub input_map : length c.servo_input_map ≡ 6

take_last : (n : ℕ) (xs : List ℕ) → length xs ≡ n → take n xs ≡ xs
take_last zero [] h = refl
take_last zero (x ∷ xs) h = absurd (omega arith)
take_last (suc n) [] h = absurd (omega arith)
take_last (suc n) (x ∷ xs) h = ap (◌∷◌ x) (take_last n xs (omega arith))

length_parts :
    (os ds : List ℕ) (m : ℕ) (ps ss is : List ℕ)
    → length os ≡ 28
    → length ds ≡ 8
    → length ps ≡ 12
    → length ss ≡ 6
    → length is ≡ 6
    → length (os ++ (ds ++ (m ∷ (ps ++ (ss ++ is))))) ≡ 61
length_parts os ds m ps ss is ho hd hp hs hi =
    let inner = length-append ss is in
    let servos = length-append ps (ss ++ is) in
    let rest = length-append ds (m ∷ (ps ++ (ss ++ is))) in
    length-append os (ds ++ (m ∷ (ps ++ (ss ++ is)))) ∙ omega arith

unis_from_mtb_usb_parts :
    (os ds : List ℕ) (m : ℕ) (ps ss is : List ℕ) (old : UnisConfig)
    → length os ≡ 28
    → length ds ≡ 8
    → length ps ≡ 12
    → length ss ≡ 6
    → length is ≡ 6
    → unis_from_mtb_usb (os ++ (ds ++ (m ∷ (ps ++ (ss ++ is))))) old ≡ record {
      outputs_safe = os;
      inputs_delay = unpack_delays ds;
      servo_enabled_mask = m;
      servo_position = ps;
      servo_speed = ss;
      servo_input_map = is;
    }
unfolding unis_from_mtb_usb
unis_from_mtb_usb_parts os ds m ps ss is old ho hd hp hs hi =
    let total = length_parts os ds m ps ss is ho hd hp hs hi in
    let enough : ltb (length (os ++ (ds ++ (m ∷ (ps ++ (ss ++ is)))))) 61 ≡ false =
      ground (arith, total) in
    let servos = m ∷ (ps ++ (ss ++ is)) in
    rw
      (
        enough,
        take_at 28 os (ds ++ servos) ho,
        drop_at 28 os (ds ++ servos) ho,
        take_at 8 ds servos hd,
        drop_at 8 ds servos hd,
        take_at 12 ps (ss ++ is) hp,
        drop_at 12 ps (ss ++ is) hp,
        take_at 6 ss is hs,
        drop_at 6 ss is hs,
        take_last 6 is hi,
      )
      refl

-- A well-formed configuration of a universal module with servos that is written to the module is
-- read back as it was, whatever was known before.
pub unis_from_mtb_usb-unis_serialize :
    (c old : UnisConfig) → IsUnisConfig c → unis_from_mtb_usb (unis_serialize c) old ≡ c
unfolding unis_serialize
unis_from_mtb_usb-unis_serialize c old h =
    let packed = unpack_delays-pack_delays 8 c.inputs_delay h.delays in
    let small = h.mask in
    let mask : c.servo_enabled_mask % 64 ≡ c.servo_enabled_mask = omega arith in
    unis_from_mtb_usb_parts c.outputs_safe (pack_delays c.inputs_delay) (c.servo_enabled_mask % 64)
      c.servo_position c.servo_speed c.servo_input_map old h.outputs packed.1 h.positions h.speeds
      h.input_map
    ∙ rw (packed.0, mask) refl
