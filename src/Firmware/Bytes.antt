-- ===== src/Firmware/Bytes.antt =====
-- The flash image of a firmware (`parseFirmware` of src/modules/module.cpp): the byte that
-- programming leaves at each address, 0xFF where no byte was given.
use mtb_daemon.Base.{
  ℕ, zero, suc, ◌-◌, ◌/◌, ◌%◌, ◌<◌, ◌≡◌, refl, ◌∙◌, true, false, Option, none, some, List, [], ◌∷◌,
  map, set, get_elem?, length, replicate, leb, ◌==◌, if◌then◌else◌, Bool-cases, ==_iff, ap, inl,
  inr, arith,
}
use mtb_daemon.Firmware.{
  Firmware, block_size, blank, find, emplace, set_byte, put, put_all, pairs, parse_firmware_from,
  parse_firmware,
}
use mtb_daemon.Firmware.Storage.{
  IsSortedFrom, or_else, find-emplace, find-set_byte, emplace-IsSortedFrom, set_byte-IsSortedFrom,
  HasBlocks, emplace-HasBlocks, set_byte-HasBlocks, find-HasBlocks,
}

-- What a block has at an offset.
abbrev byte_of : Option (List ℕ) → ℕ → ℕ
byte_of none offset = 0xFF
byte_of (some block) offset = or_else (get_elem? block offset) 0xFF

unfoldable pub image : Firmware → ℕ → ℕ
image fw addr = byte_of (find (addr / block_size) fw) (addr % block_size)

-- The keys rise, and the blocks have their size.
pub record IsFirmware (fw : Firmware) : Type 0 where
  pub sorted : IsSortedFrom 0 fw
  pub blocks : HasBlocks fw

get_elem?-set :
    (xs : List ℕ) (i j v : ℕ)
    → i < length xs
    → get_elem? (set xs i v) j ≡ (if j == i then some v else get_elem? xs j)
get_elem?-set [] i j v h = absurd (omega arith)
get_elem?-set (x ∷ xs) zero zero v h = refl
get_elem?-set (x ∷ xs) zero (suc j) v h = ground arith
get_elem?-set (x ∷ xs) (suc i) zero v h = ground arith
get_elem?-set (x ∷ xs) (suc i) (suc j) v h = ground (arith, get_elem?-set xs i j v)

byte_of-replicate : (n j : ℕ) → byte_of (some (replicate n 0xFF)) j ≡ 0xFF
byte_of-replicate zero j = refl
byte_of-replicate (suc n) zero = refl
byte_of-replicate (suc n) (suc j) = byte_of-replicate n j

byte_of-set :
    (block : List ℕ) (i j v : ℕ)
    → i < length block
    → byte_of (some (set block i v)) j ≡ (if j == i then v else byte_of (some block) j)
byte_of-set block i j v h = ground (arith, get_elem?-set block i j v)

pub blank-length : length blank ≡ 64
unfolding blank
blank-length = refl

byte_of-blank : (o : Option (List ℕ)) (j : ℕ) → byte_of (some (or_else o blank)) j ≡ byte_of o j
unfolding blank
byte_of-blank none j = byte_of-replicate 64 j
byte_of-blank (some block) j = refl

find_other :
    (k j : ℕ) (new : List ℕ) (fw : Firmware)
    → IsSortedFrom 0 fw
    → (j == k) ≡ false
    → find j (emplace k new fw) ≡ find j fw
find_other k j new fw s e = rw (find-emplace k j 0 new fw s, e)

find_created :
    (k : ℕ) (new : List ℕ) (fw : Firmware)
    → IsSortedFrom 0 fw
    → find k (emplace k new fw) ≡ some (or_else (find k fw) new)
find_created k new fw s = find-emplace k k 0 new fw s ∙ ground arith

-- A missing block that is created leaves the image as it was.
pub image-emplace :
    (k : ℕ) (fw : Firmware) (addr : ℕ)
    → IsFirmware fw
    → image (emplace k blank fw) addr ≡ image fw addr
unfolding image
image-emplace k fw addr h = elim (Bool-cases (addr / block_size == k)) [
  | inl e ↦
      let same : addr / block_size ≡ k = (==_iff _ k).0 e in
      rw (same, find_created k blank fw h.sorted) (byte_of-blank (find k fw) (addr % block_size))
  | inr e ↦ ap (λ o. byte_of o (addr % block_size)) (find_other k _ blank fw h.sorted e)
]

pub emplace-IsFirmware : (k : ℕ) (fw : Firmware) → IsFirmware fw → IsFirmware (emplace k blank fw)
emplace-IsFirmware k fw h = record {
  sorted = emplace-IsSortedFrom k 0 blank fw (omega arith) h.sorted;
  blocks = emplace-HasBlocks k blank fw blank-length h.blocks;
}

set_byte-IsFirmware :
    (k offset v : ℕ) (fw : Firmware) → IsFirmware fw → IsFirmware (set_byte k offset v fw)
set_byte-IsFirmware k offset v fw h = record {
  sorted = set_byte-IsSortedFrom k offset v 0 fw h.sorted;
  blocks = set_byte-HasBlocks k offset v fw h.blocks;
}

put-IsFirmware : (addr v : ℕ) (fw : Firmware) → IsFirmware fw → IsFirmware (put addr v fw)
unfolding put
put-IsFirmware addr v fw h = set_byte-IsFirmware _ _ v _ (emplace-IsFirmware _ fw h)

-- A byte that is set in a block that is there.
image-set_byte :
    (addr v : ℕ) (fw : Firmware) (block : List ℕ) (a : ℕ)
    → find (addr / block_size) fw ≡ some block
    → length block ≡ 64
    → image (set_byte (addr / block_size) (addr % block_size) v fw) a
      ≡ (if a == addr then v else image fw a)
unfolding image
image-set_byte addr v fw block a e len = elim (Bool-cases (a / block_size == addr / block_size)) [
  | inl q ↦
      let same : a / block_size ≡ addr / block_size = (==_iff _ _).0 q in
      let here : (a % block_size == addr % block_size) ≡ (a == addr) = ground arith in
      let found : find (a / block_size) fw ≡ some block = ap (λ k. find k fw) same ∙ e in
      rw (find-set_byte (addr / block_size) (addr % block_size) v (a / block_size) fw, q, e)
        (byte_of-set block (addr % block_size) (a % block_size) v (omega arith)
          ∙ rw (here, found) refl)
  | inr q ↦
      rw (find-set_byte (addr / block_size) (addr % block_size) v (a / block_size) fw, q)
        (ground arith)
]

image-put :
    (addr v : ℕ) (fw : Firmware) (a : ℕ)
    → IsFirmware fw
    → image (put addr v fw) a ≡ (if a == addr then v else image fw a)
unfolding put
image-put addr v fw a h =
    let k = addr / block_size in
    let created = find_created k blank fw h.sorted in
    let made = emplace-IsFirmware k fw h in
    image-set_byte addr v (emplace k blank fw) (or_else (find k fw) blank) a created
      (find-HasBlocks k (emplace k blank fw) _ made.blocks created)
    ∙ ap (λ b. if a == addr then v else b) (image-emplace k fw a h)

-- Bytes that are written over an image from an address.
abbrev pub overlay : ℕ → List ℕ → (ℕ → ℕ) → ℕ → ℕ
overlay addr vs base a = if leb addr a then or_else (get_elem? vs (a - addr)) (base a) else base a

overlay-step :
    (addr v : ℕ) (vs : List ℕ) (base : ℕ → ℕ) (a : ℕ)
    → overlay (suc addr) vs (λ b. if b == addr then v else base b) a ≡ overlay addr (v ∷ vs) base a
overlay-step addr v vs base a = elim (Bool-cases (leb (suc addr) a)) [
  | inl e ↦
      let later : a - addr ≡ suc (a - suc addr) = ground arith in
      let fresh : (a == addr) ≡ false = ground arith in
      let from : leb addr a ≡ true = ground arith in rw (e, from, later, fresh) refl
  | inr e ↦ elim (Bool-cases (a == addr)) [
    | inl q ↦
        let from : leb addr a ≡ true = ground arith in
        let first : a - addr ≡ 0 = ground arith in rw (e, q, from, first) refl
    | inr q ↦ let below : leb addr a ≡ false = ground arith in rw (e, q, below) refl
  ]
]

overlay_ap :
    (addr : ℕ) (vs : List ℕ) (base other : ℕ → ℕ) (a : ℕ)
    → base a ≡ other a
    → overlay addr vs base a ≡ overlay addr vs other a
overlay_ap addr vs base other a e =
    ap (λ b. if leb addr a then or_else (get_elem? vs (a - addr)) b else b) e

put_all-IsFirmware :
    (addr : ℕ) (vs : List ℕ) (fw : Firmware) → IsFirmware fw → IsFirmware (put_all addr vs fw)
unfolding put_all
put_all-IsFirmware addr [] fw h = h
put_all-IsFirmware addr (v ∷ vs) fw h =
    put_all-IsFirmware (suc addr) vs (put addr v fw) (put-IsFirmware addr v fw h)

image-put_all :
    (addr : ℕ) (vs : List ℕ) (fw : Firmware) (a : ℕ)
    → IsFirmware fw
    → image (put_all addr vs fw) a ≡ overlay addr vs (image fw) a
unfolding put_all
image-put_all addr [] fw a h = ground arith
image-put_all addr (v ∷ vs) fw a h =
    image-put_all (suc addr) vs (put addr v fw) a (put-IsFirmware addr v fw h)
    ∙ overlay_ap (suc addr) vs (image (put addr v fw)) (λ b. if b == addr then v else image fw b) a
        (image-put addr v fw a h)
    ∙ overlay-step addr v vs (image fw) a

image-empty : (a : ℕ) → image [] a ≡ 0xFF
unfolding image find
image-empty a = refl

module _ (to_int : List ℕ → ℕ) (to_int_hex : List ℕ → ℕ) where
  -- The image that the entries of a firmware describe: each is written over those before it.
  abbrev pub written : List (List ℕ × List ℕ) → (ℕ → ℕ) → ℕ → ℕ
  written [] base = base
  written ((key, text) ∷ entries) base =
      written entries
        (overlay (to_int key) (map (λ digits. to_int_hex digits % 256) (pairs text)) base)

  written_ap :
      (entries : List (List ℕ × List ℕ)) (base other : ℕ → ℕ)
      → ((a : ℕ) → base a ≡ other a)
      → (a : ℕ) → written entries base a ≡ written entries other a
  written_ap [] base other e a = e a
  written_ap ((key, text) ∷ entries) base other e a =
      written_ap entries _ _ (λ b. overlay_ap (to_int key) _ base other b (e b)) a

  image-parse_firmware_from :
      (entries : List (List ℕ × List ℕ)) (fw : Firmware)
      → IsFirmware fw
      → (a : ℕ)
      → image (parse_firmware_from to_int to_int_hex entries fw) a ≡ written entries (image fw) a
  unfolding parse_firmware_from
  image-parse_firmware_from [] fw h a = refl
  image-parse_firmware_from ((key, text) ∷ entries) fw h a =
      let vs = map (λ digits. to_int_hex digits % 256) (pairs text) in
      image-parse_firmware_from entries (put_all (to_int key) vs fw)
        (put_all-IsFirmware (to_int key) vs fw h) a
      ∙ written_ap entries _ _ (λ b. image-put_all (to_int key) vs fw b h) a

  -- For every list of entries, the blocks that `parse_firmware` gives hold at every address the
  -- byte of the last entry that covers it, and 0xFF where no entry does.
  pub image-parse_firmware :
      (entries : List (List ℕ × List ℕ)) (a : ℕ)
      → image (parse_firmware to_int to_int_hex entries) a ≡ written entries (λ _. 0xFF) a
  unfolding parse_firmware
  image-parse_firmware entries a =
      image-parse_firmware_from entries [] (record { sorted = tt; blocks = tt }) a
      ∙ written_ap entries _ _ image-empty a
