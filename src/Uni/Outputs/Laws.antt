-- ===== src/Uni/Outputs/Laws.antt =====
-- Reading back the outputs of a universal module (src/modules/uni.cpp), on the bus and in JSON.
use mtb_daemon.Base.{
  ℕ, suc, ◌+◌, ◌*◌, ◌/◌, ◌%◌, ◌≤◌, ◌<◌, ◌≡◌, refl, ◌∙◌, ap, sym, ◌⊎◌, true, false, some, List, [],
  ◌∷◌, ◌==◌, leb, if◌then◌else◌, take, drop, length, word, map, Bool-cases, inl, inr, arith,
}
use mtb_daemon.Uni.Outputs.{
  OutputType, plain, s_com, flicker, unknown, json_output_to_byte, output_to_json, is_not_plain,
  mask_bit, plain_bit, bits, not_plain, mtb_bus_outputs_data, read_outputs, module_outputs_data,
  flick_per_min_to_mtb_uni_value, flick_mtb_uni_to_per_min,
}

-- The value of an output as the module has it: a plain output is off or on.
abbrev pub as_set : ℕ → ℕ
as_set o = if leb 64 o then o else if leb 1 o then 1 else 0

read_plain :
    (n m f p : ℕ) (rest : List ℕ)
    → p < 2
    → read_outputs (suc n) (0 + 2 * m) (p + 2 * f) rest ≡ some p ∷ read_outputs n m f rest
unfolding read_outputs
read_plain n m f p [] h =
    let bit : ((0 + 2 * m) % 2 == 0) ≡ true = ground arith in
    let value : (p + 2 * f) % 2 ≡ p = omega arith in
    let mask : (0 + 2 * m) / 2 ≡ m = omega arith in
    let full : (p + 2 * f) / 2 ≡ f = omega arith in rw (bit, value, mask, full) refl
read_plain n m f p (b ∷ rest) h =
    let bit : ((0 + 2 * m) % 2 == 0) ≡ true = ground arith in
    let value : (p + 2 * f) % 2 ≡ p = omega arith in
    let mask : (0 + 2 * m) / 2 ≡ m = omega arith in
    let full : (p + 2 * f) / 2 ≡ f = omega arith in rw (bit, value, mask, full) refl

read_other :
    (n m f o : ℕ) (rest : List ℕ)
    → read_outputs (suc n) (1 + 2 * m) (0 + 2 * f) (o ∷ rest) ≡ some o ∷ read_outputs n m f rest
unfolding read_outputs
read_other n m f o rest =
    let bit : ((1 + 2 * m) % 2 == 0) ≡ false = ground arith in
    let mask : (1 + 2 * m) / 2 ≡ m = omega arith in
    let full : (0 + 2 * f) / 2 ≡ f = omega arith in rw (bit, mask, full) refl

pub read_outputs-bits :
    (os : List ℕ)
    → read_outputs (length os) (bits mask_bit os) (bits plain_bit os) (not_plain os)
      ≡ map (λ o. some (as_set o)) os
unfolding read_outputs bits not_plain mask_bit plain_bit is_not_plain
read_outputs-bits [] = refl
read_outputs-bits (o ∷ os) = elim (Bool-cases (leb 64 o)) [
  | inl e ↦ rw e (
      read_other (length os) (bits mask_bit os) (bits plain_bit os) o (not_plain os)
      ∙ ap (◌∷◌ (some o)) (read_outputs-bits os))
  | inr e ↦ rw e (
      read_plain (length os) (bits mask_bit os) (bits plain_bit os) (if leb 1 o then 1 else 0)
        (not_plain os) (ground arith)
      ∙ ap (◌∷◌ (some (if leb 1 o then 1 else 0))) (read_outputs-bits os))
]

-- Eight outputs make a byte.
pub bits-split :
    (f : ℕ → ℕ) (os : List ℕ)
    → 8 ≤ length os
    → bits f os ≡ bits f (take 8 os) + 256 * bits f (drop 8 os)
unfolding bits
bits-split f (a ∷ b ∷ c ∷ d ∷ e ∷ g ∷ h ∷ i ∷ os) l = omega arith
bits-split f _ l = absurd (omega arith)

-- For 16 wanted outputs, what a module that confirms the data of the command reports is read as the
-- outputs that were wanted, a plain output being off or on.
pub module_outputs_data-mtb_bus_outputs_data :
    (os : List ℕ)
    → length os ≡ 16
    → module_outputs_data (mtb_bus_outputs_data os) ≡ map (λ o. some (as_set o)) os
unfolding module_outputs_data mtb_bus_outputs_data
module_outputs_data-mtb_bus_outputs_data os h =
    let mask : word (bits mask_bit (drop 8 os)) (bits mask_bit (take 8 os)) ≡ bits mask_bit os =
      omega (arith, bits-split mask_bit os (omega arith)) in
    let full : word (bits plain_bit (drop 8 os)) (bits plain_bit (take 8 os)) ≡ bits plain_bit os =
      omega (arith, bits-split plain_bit os (omega arith)) in
    rw (mask, full)
      (ap (λ n. read_outputs n (bits mask_bit os) (bits plain_bit os) (not_plain os)) (sym h)
        ∙ read_outputs-bits os)

flick-inverse :
    (v : ℕ)
    → (flick_per_min_to_mtb_uni_value v == 0) ≡ false
    → (flick_mtb_uni_to_per_min (flick_per_min_to_mtb_uni_value v) ≡ v)
      × (flick_per_min_to_mtb_uni_value v ≤ 8)
unfolding flick_per_min_to_mtb_uni_value flick_mtb_uni_to_per_min
flick-inverse v h = (ground arith, ground arith)

-- An output that jsonOutputToByte accepts becomes a byte that outputsToJson gives back with its
-- type and its value, and that the command for outputs carries unchanged.
pub output_to_json-json_output_to_byte :
    (kind : OutputType) (value byte : ℕ)
    → json_output_to_byte kind value ≡ some byte
    → (output_to_json byte ≡ (kind, value)) × (byte < 256) × (as_set byte ≡ byte)
unfolding json_output_to_byte output_to_json
output_to_json-json_output_to_byte plain value byte h =
    let found : ((value ≡ 0) × (byte ≡ 0)) ⊎ ((value ≡ 1) × (byte ≡ 1)) = ground arith in
    elim found [
      | inl (v, b) ↦ rw (v, b) (refl, omega arith, refl)
      | inr (v, b) ↦ rw (v, b) (refl, omega arith, refl)
    ]
output_to_json-json_output_to_byte s_com value byte h =
    let found : (value ≤ 127) × (byte ≡ value + 128) = ground arith in
    let top : (byte / 128 % 2 == 1) ≡ true = ground arith in
    let low : byte % 128 ≡ value = omega arith in rw (top, low) (refl, omega arith, ground arith)
output_to_json-json_output_to_byte flicker value byte h =
    let code = flick_per_min_to_mtb_uni_value value in
    let found : ((code == 0) ≡ false) × (byte ≡ code + 64) = ground arith in
    let known = flick-inverse value found.0 in
    let top : (byte / 128 % 2 == 1) ≡ false = ground arith in
    let next : (byte / 64 % 2 == 1) ≡ true = ground arith in
    let low : byte % 16 ≡ code = omega arith in
    rw (top, next, low, known.0) (refl, omega arith, ground arith)
output_to_json-json_output_to_byte unknown value byte h = absurd (cc)
