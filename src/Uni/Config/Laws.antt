-- ===== src/Uni/Config/Laws.antt =====
-- Reading back the binary form of a configuration (MtbUniConfig of src/modules/uni.cpp).
use mtb_daemon.Base.{
  ℕ, zero, suc, ◌+◌, ◌*◌, ◌/◌, ◌%◌, ◌≤◌, ◌<◌, ◌≡◌, refl, ◌∙◌, ap, sym, Bool, true, false, List, [],
  ◌∷◌, ◌++◌, leb, ltb, if◌then◌else◌, get_or, take, drop, length, length-append, take_all, drop_all,
  word, arith,
}
use mtb_daemon.Uni.{UniConfig}
use mtb_daemon.Uni.Config.{nibble, pack_delays, unpack_delays, serialize_for_mtb_usb, from_mtb_usb}

-- Pairs of delays of at most 1.5 s.
abbrev pub AreDelays : ℕ → List ℕ → Type 0
AreDelays zero ds = ds ≡ []
AreDelays (suc n) [] = ⊥
AreDelays (suc n) (a ∷ []) = ⊥
AreDelays (suc n) (a ∷ b ∷ ds) = (a ≤ 15) × (b ≤ 15) × AreDelays n ds

pub record IsUniConfig (c : UniConfig) : Type 0 where
  pub outputs : length c.outputs_safe ≡ 16
  pub delays : AreDelays 8 c.inputs_delay
  pub irs_bound : c.irs < 65536

nibble_small : (d : ℕ) → d ≤ 15 → nibble d ≡ d
unfolding nibble
nibble_small d h = ground arith

pub unpack_delays-pack_delays :
    (n : ℕ) (ds : List ℕ)
    → AreDelays n ds
    → (unpack_delays (pack_delays ds) ≡ ds) × (length (pack_delays ds) ≡ n)
unfolding pack_delays unpack_delays
unpack_delays-pack_delays zero [] h = (refl, refl)
unpack_delays-pack_delays zero (a ∷ []) h = absurd (cc)
unpack_delays-pack_delays zero (a ∷ b ∷ ds) h = absurd (cc)
unpack_delays-pack_delays (suc n) [] h = elim h [ ]
unpack_delays-pack_delays (suc n) (a ∷ []) h = elim h [ ]
unpack_delays-pack_delays (suc n) (a ∷ b ∷ ds) (ha, hb, h) =
    let rest = unpack_delays-pack_delays n ds h in
    rw (nibble_small a ha, nibble_small b hb)
      (let low : (a + b * 16) % 16 ≡ a = omega arith in
        let high : (a + b * 16) / 16 % 16 ≡ b = omega arith in
        (rw (low, high, rest.0) refl, ap suc rest.1))

-- Reads at a known length of the first part.
pub get_or-append :
    (n : ℕ) (xs ys : List ℕ) (i d : ℕ) → length xs ≡ n → get_or (xs ++ ys) (n + i) d ≡ get_or ys i d
get_or-append zero [] ys i d e = let start : 0 + i ≡ i = omega arith in rw start refl
get_or-append zero (x ∷ xs) ys i d e = absurd (omega arith)
get_or-append (suc n) [] ys i d e = absurd (omega arith)
get_or-append (suc n) (x ∷ xs) ys i d e =
    let step : suc n + i ≡ suc (n + i) = omega arith in
    rw step (get_or-append n xs ys i d (omega arith))

pub take_at : (n : ℕ) (xs ys : List ℕ) → length xs ≡ n → take n (xs ++ ys) ≡ xs
take_at n xs ys e = ap (λ k. take k (xs ++ ys)) (sym e) ∙ take_all xs ys

pub drop_at : (n : ℕ) (xs ys : List ℕ) → length xs ≡ n → drop n (xs ++ ys) ≡ ys
drop_at n xs ys e = ap (λ k. drop k (xs ++ ys)) (sym e) ∙ drop_all xs ys

length_parts :
    (os ps tail : List ℕ)
    → length os ≡ 16
    → length ps ≡ 8
    → length (os ++ (ps ++ tail)) ≡ 24 + length tail
length_parts os ps tail ho hp =
    length-append os (ps ++ tail) ∙ ap (λ n. length os + n) (length-append ps tail) ∙ omega arith

take_within : (n : ℕ) (xs ys : List ℕ) → n ≤ length xs → take n (xs ++ ys) ≡ take n xs
take_within zero xs ys h = refl
take_within (suc n) [] ys h = absurd (omega (arith, h))
take_within (suc n) (x ∷ xs) ys h = ap (λ l. x ∷ l) (take_within n xs ys (omega (arith, h)))

-- What is read of outputs, delays and the rest.
from_mtb_usb_parts :
    (os ps tail : List ℕ) (old : UniConfig)
    → length os ≡ 16
    → length ps ≡ 8
    → from_mtb_usb (os ++ (ps ++ tail)) old ≡ record {
      outputs_safe = os;
      inputs_delay = unpack_delays (take 8 os);
      irs = if leb 2 (length tail) then word (get_or tail 0 0) (get_or tail 1 0) else 0;
    }
unfolding from_mtb_usb
from_mtb_usb_parts os ps tail old ho hp =
    let len = length_parts os ps tail ho hp in
    let enough : ltb (length (os ++ (ps ++ tail))) 24 ≡ false = ground arith in
    let irs_test : leb 26 (length (os ++ (ps ++ tail))) ≡ leb 2 (length tail) = ground arith in
    let irs_at : (i : ℕ) → get_or (os ++ (ps ++ tail)) (16 + (8 + i)) 0 ≡ get_or tail i 0 =
      λ i. get_or-append 16 os (ps ++ tail) (8 + i) 0 ho ∙ get_or-append 8 ps tail i 0 hp in
    rw
      (
        enough,
        irs_test,
        take_at 16 os (ps ++ tail) ho,
        take_within 8 os (ps ++ tail) (omega arith),
        irs_at 0,
        irs_at 1,
      )
      refl

-- A well-formed configuration that is serialised for a module is read back with its outputs and,
-- if the bits of IR inputs were sent, with those (else with none), but its delays are the halves of
-- the first eight outputs: fromMtbUsb takes them from the beginning of the bytes.
pub from_mtb_usb-serialize_for_mtb_usb :
    (c old : UniConfig) (with_irs : Bool)
    → IsUniConfig c
    → from_mtb_usb (serialize_for_mtb_usb c with_irs) old ≡ record {
      outputs_safe = c.outputs_safe;
      inputs_delay = unpack_delays (take 8 c.outputs_safe);
      irs = if with_irs then c.irs else 0;
    }
unfolding from_mtb_usb serialize_for_mtb_usb
from_mtb_usb-serialize_for_mtb_usb c old true h =
    let irs_whole : word (c.irs / 256) (c.irs % 256) ≡ c.irs = omega arith in
    let packed = unpack_delays-pack_delays 8 c.inputs_delay h.delays in
    from_mtb_usb_parts c.outputs_safe (pack_delays c.inputs_delay) _ old h.outputs packed.1
    ∙ rw irs_whole refl
from_mtb_usb-serialize_for_mtb_usb c old false h =
    let packed = unpack_delays-pack_delays 8 c.inputs_delay h.delays in
    from_mtb_usb_parts c.outputs_safe (pack_delays c.inputs_delay) _ old h.outputs packed.1
