-- ===== src/Firmware.antt =====
-- src/modules/module.cpp and module.h: the firmware of a module as blocks of 64 bytes
-- (`parseFirmware`, `alignFirmware`). The std::map is a list in the order of its keys.
pub mod Storage
pub mod Bytes
pub mod Pages
use mtb_daemon.Base.{
  ℕ, zero, suc, ◌+◌, ◌*◌, ◌/◌, ◌%◌, Bool, true, false, Option, none, some, List, [], ◌∷◌, map, set,
  replicate, ltb, ◌==◌, if◌then◌else◌,
}

-- FwUpgrade::BLOCK_SIZE.
abbrev pub block_size : ℕ
block_size = 64

-- FwUpgrade::FirmwareStorage.
abbrev pub Firmware : Type 0
Firmware = List (ℕ × List ℕ)

unfoldable pub find : ℕ → Firmware → Option (List ℕ)
find k [] = none
find k ((j, block) ∷ fw) = if k == j then some block else find k fw

-- `emplace`: a key that is there keeps its value.
unfoldable pub emplace : ℕ → List ℕ → Firmware → Firmware
emplace k new [] = (k, new) ∷ []
emplace k new ((j, block) ∷ fw) =
    let later = emplace k new fw in
    if k == j
    then (j, block) ∷ fw
    else if ltb k j
    then (k, new) ∷ (j, block) ∷ fw
    else (j, block) ∷ later

-- `fw[k][offset] = v` of a key that is there.
unfoldable pub set_byte : ℕ → ℕ → ℕ → Firmware → Firmware
set_byte k offset v [] = []
set_byte k offset v ((j, block) ∷ fw) =
    if k == j then (j, set block offset v) ∷ fw else (j, block) ∷ set_byte k offset v fw

-- A new block.
unfoldable pub blank : List ℕ
blank = replicate block_size 0xFF

-- The body of the inner loop: one byte to an address, in a block that is created if it is missing.
unfoldable pub put : ℕ → ℕ → Firmware → Firmware
unfolding emplace set_byte
put addr v fw =
    set_byte (addr / block_size) (addr % block_size) v (emplace (addr / block_size) blank fw)

-- The inner loop.
unfoldable pub put_all : ℕ → List ℕ → Firmware → Firmware
unfolding put
put_all addr [] fw = fw
put_all addr (v ∷ vs) fw = put_all (suc addr) vs (put addr v fw)

-- `dataStr.mid(i, 2)` for i = 0, 2, …
unfoldable pub pairs : List ℕ → List (List ℕ)
pairs [] = []
pairs (a ∷ []) = (a ∷ []) ∷ []
pairs (a ∷ b ∷ rest) = (a ∷ b ∷ []) ∷ pairs rest

-- `parseFirmware` on the entries of the JSON object in the order of their keys, texts being lists of
-- characters. QString::toInt is a parameter, for the addresses and for two hexadecimal digits.
module _ (to_int : List ℕ → ℕ) (to_int_hex : List ℕ → ℕ) where
  unfoldable pub parse_firmware_from : List (List ℕ × List ℕ) → Firmware → Firmware
  unfolding put_all pairs
  parse_firmware_from [] fw = fw
  parse_firmware_from ((key, text) ∷ entries) fw =
      parse_firmware_from entries
        (put_all (to_int key) (map (λ digits. to_int_hex digits % 256) (pairs text)) fw)

  unfoldable pub parse_firmware : List (List ℕ × List ℕ) → Firmware
  unfolding parse_firmware_from
  parse_firmware entries = parse_firmware_from entries []

-- The loops of `alignFirmware`: every block of the page of a block is there.
unfoldable pub fill_page : ℕ → ℕ → Firmware → Firmware
unfolding emplace
fill_page first zero fw = fw
fill_page first (suc n) fw = fill_page (suc first) n (emplace first blank fw)

unfoldable pub fill_pages : ℕ → List ℕ → Firmware → Firmware
unfolding fill_page
fill_pages blocks_per_page [] fw = fw
fill_pages blocks_per_page (block ∷ blocks) fw =
    fill_pages blocks_per_page blocks
      (fill_page (block / blocks_per_page * blocks_per_page) blocks_per_page fw)

unfoldable pub keys : Firmware → List ℕ
keys [] = []
keys ((k, block) ∷ fw) = k ∷ keys fw

unfoldable pub align_firmware : ℕ → Firmware → Firmware
unfolding fill_pages keys
align_firmware page_size fw = fill_pages (page_size / block_size) (keys fw) fw
