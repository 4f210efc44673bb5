-- ===== src/Firmware/Pages.antt =====
-- The blocks that `alignFirmware` of src/modules/module.cpp adds, and the image.
use mtb_daemon.Base.{
  ℕ, zero, suc, ◌+◌, ◌*◌, ◌/◌, ◌<◌, ◌≡◌, refl, ◌∙◌, some, List, [], ◌∷◌, ◌==◌, Bool-cases, ==_iff,
  inl, inr, ◌⊎◌, arith,
}
use mtb_daemon.Firmware.{
  Firmware, block_size, blank, find, emplace, fill_page, fill_pages, keys, align_firmware,
}
use mtb_daemon.Firmware.Storage.{or_else, find-emplace}
use mtb_daemon.Firmware.Bytes.{IsFirmware, image, image-emplace, emplace-IsFirmware}

-- A block is in the storage.
abbrev pub IsPresent : ℕ → Firmware → Type 0
IsPresent k fw = (block : List ℕ) × (find k fw ≡ some block)

fill_page-IsFirmware :
    (first n : ℕ) (fw : Firmware) → IsFirmware fw → IsFirmware (fill_page first n fw)
unfolding fill_page
fill_page-IsFirmware first zero fw h = h
fill_page-IsFirmware first (suc n) fw h =
    fill_page-IsFirmware (suc first) n (emplace first blank fw) (emplace-IsFirmware first fw h)

image-fill_page :
    (first n : ℕ) (fw : Firmware) (a : ℕ)
    → IsFirmware fw
    → image (fill_page first n fw) a ≡ image fw a
unfolding fill_page
image-fill_page first zero fw a h = refl
image-fill_page first (suc n) fw a h =
    image-fill_page (suc first) n (emplace first blank fw) a (emplace-IsFirmware first fw h)
    ∙ image-emplace first fw a h

image-fill_pages :
    (n : ℕ) (blocks : List ℕ) (fw : Firmware) (a : ℕ)
    → IsFirmware fw
    → image (fill_pages n blocks fw) a ≡ image fw a
unfolding fill_pages
image-fill_pages n [] fw a h = refl
image-fill_pages n (block ∷ blocks) fw a h =
    image-fill_pages n blocks (fill_page (block / n * n) n fw) a
      (fill_page-IsFirmware (block / n * n) n fw h)
    ∙ image-fill_page (block / n * n) n fw a h

-- For every page size and well-formed storage, `align_firmware` leaves the byte at every address as
-- it was.
pub image-align_firmware :
    (page_size : ℕ) (fw : Firmware) (a : ℕ)
    → IsFirmware fw
    → image (align_firmware page_size fw) a ≡ image fw a
unfolding align_firmware
image-align_firmware page_size fw a h = image-fill_pages (page_size / block_size) (keys fw) fw a h

-- Blocks stay.
emplace_keeps :
    (k j : ℕ) (fw : Firmware) → IsFirmware fw → IsPresent j fw → IsPresent j (emplace k blank fw)
emplace_keeps k j fw h (block, e) = elim (Bool-cases (j == k)) [
  | inl q ↦ (or_else (find k fw) blank, find-emplace k j 0 blank fw h.sorted ∙ ground arith)
  | inr q ↦ (block, find-emplace k j 0 blank fw h.sorted ∙ ground arith)
]

emplace-IsPresent : (k : ℕ) (fw : Firmware) → IsFirmware fw → IsPresent k (emplace k blank fw)
emplace-IsPresent k fw h =
    (or_else (find k fw) blank, find-emplace k k 0 blank fw h.sorted ∙ ground arith)

fill_page_keeps :
    (first n j : ℕ) (fw : Firmware)
    → IsFirmware fw
    → IsPresent j fw
    → IsPresent j (fill_page first n fw)
unfolding fill_page
fill_page_keeps first zero j fw h p = p
fill_page_keeps first (suc n) j fw h p =
    fill_page_keeps (suc first) n j (emplace first blank fw) (emplace-IsFirmware first fw h)
      (emplace_keeps first j fw h p)

fill_page-IsPresent :
    (first n i : ℕ) (fw : Firmware)
    → IsFirmware fw
    → i < n
    → IsPresent (first + i) (fill_page first n fw)
unfolding fill_page
fill_page-IsPresent first zero i fw h l = absurd (omega arith)
fill_page-IsPresent first (suc n) zero fw h l =
    let same : first + 0 ≡ first = omega arith in
    rw same (
      fill_page_keeps (suc first) n first (emplace first blank fw) (emplace-IsFirmware first fw h)
        (emplace-IsPresent first fw h))
fill_page-IsPresent first (suc n) (suc i) fw h l =
    let same : first + suc i ≡ suc first + i = omega arith in
    rw same (
      fill_page-IsPresent (suc first) n i (emplace first blank fw) (emplace-IsFirmware first fw h)
        (omega arith))

fill_pages_keeps :
    (n : ℕ) (blocks : List ℕ) (j : ℕ) (fw : Firmware)
    → IsFirmware fw
    → IsPresent j fw
    → IsPresent j (fill_pages n blocks fw)
unfolding fill_pages
fill_pages_keeps n [] j fw h p = p
fill_pages_keeps n (block ∷ blocks) j fw h p =
    fill_pages_keeps n blocks j (fill_page (block / n * n) n fw)
      (fill_page-IsFirmware (block / n * n) n fw h) (fill_page_keeps (block / n * n) n j fw h p)

-- A key is in a list.
abbrev pub IsIn : ℕ → List ℕ → Type 0
IsIn k [] = ⊥
IsIn k (j ∷ js) = (k ≡ j) ⊎ IsIn k js

fill_pages-IsPresent :
    (n : ℕ) (blocks : List ℕ) (k i : ℕ) (fw : Firmware)
    → IsFirmware fw
    → IsIn k blocks
    → i < n
    → IsPresent (k / n * n + i) (fill_pages n blocks fw)
unfolding fill_pages
fill_pages-IsPresent n [] k i fw h m l = elim m [ ]
fill_pages-IsPresent n (block ∷ blocks) k i fw h (inl e) l = rw e (
    fill_pages_keeps n blocks (block / n * n + i) (fill_page (block / n * n) n fw)
      (fill_page-IsFirmware (block / n * n) n fw h)
      (fill_page-IsPresent (block / n * n) n i fw h l))
fill_pages-IsPresent n (block ∷ blocks) k i fw h (inr m) l =
    fill_pages-IsPresent n blocks k i (fill_page (block / n * n) n fw)
      (fill_page-IsFirmware (block / n * n) n fw h) m l

IsIn-keys : (k : ℕ) (fw : Firmware) → IsPresent k fw → IsIn k (keys fw)
unfolding find keys
IsIn-keys k [] (block, e) = absurd (cc)
IsIn-keys k ((j, b) ∷ fw) (block, e) = elim (Bool-cases (k == j)) [
  | inl q ↦ inl ((==_iff k j).0 q)
  | inr q ↦ inr (IsIn-keys k fw (block, ground arith))
]

-- In a well-formed storage in which a block k is present, `align_firmware` makes the i-th block of
-- the page of k present, for every i below the number of blocks of a page, and block k stays present.
pub align_firmware-IsPresent :
    (page_size : ℕ) (fw : Firmware) (k i : ℕ)
    → IsFirmware fw
    → IsPresent k fw
    → i < page_size / block_size
    → IsPresent
        (k / (page_size / block_size) * (page_size / block_size) + i)
        (align_firmware page_size fw)
      × IsPresent k (align_firmware page_size fw)
unfolding align_firmware
align_firmware-IsPresent page_size fw k i h p l = (
  fill_pages-IsPresent (page_size / block_size) (keys fw) k i fw h (IsIn-keys k fw p) l,
  fill_pages_keeps (page_size / block_size) (keys fw) k fw h p,
)
