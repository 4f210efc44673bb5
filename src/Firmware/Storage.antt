-- ===== src/Firmware/Storage.antt =====
-- Laws of the storage of src/modules/module.h: lookups after operations, and the order of the keys.
use mtb_daemon.Base.{
  ℕ, suc, ◌≤◌, ◌<◌, ◌≡◌, refl, ◌∙◌, Option, none, some, List, [], ◌∷◌, set, ltb, ltb→lt, if_rule,
  length, length-set, ◌==◌, if◌then◌else◌, arith,
}
use mathlib.Core.Option
use mtb_daemon.Firmware.{Firmware, find, emplace, set_byte}

-- The keys rise strictly from a bound.
abbrev pub IsSortedFrom : ℕ → Firmware → Type 0
IsSortedFrom lo [] = Unit
IsSortedFrom lo ((k, block) ∷ fw) = (lo ≤ k) × IsSortedFrom (suc k) fw

IsSortedFrom-le : (lo hi : ℕ) (fw : Firmware) → lo ≤ hi → IsSortedFrom hi fw → IsSortedFrom lo fw
IsSortedFrom-le lo hi [] h s = tt
IsSortedFrom-le lo hi ((k, block) ∷ fw) h s = (omega arith, s.1)

find_below : (k lo : ℕ) (fw : Firmware) → k < lo → IsSortedFrom lo fw → find k fw ≡ none
unfolding find
find_below k lo [] h s = refl
find_below k lo ((j, block) ∷ fw) h s = ground (arith, find_below k (suc j) fw (omega arith) s.1)

pub emplace-IsSortedFrom :
    (k lo : ℕ) (new : List ℕ) (fw : Firmware)
    → lo ≤ k
    → IsSortedFrom lo fw
    → IsSortedFrom lo (emplace k new fw)
unfolding emplace
emplace-IsSortedFrom k lo new [] h s = (h, tt)
emplace-IsSortedFrom k lo new ((j, block) ∷ fw) h s =
    if_rule (IsSortedFrom lo) (k == j) (λ _. s)
      (λ other.
        if_rule (IsSortedFrom lo) (ltb k j) (λ l. (h, (ltb→lt k j l, s.1)))
          (λ g. (s.0, emplace-IsSortedFrom k (suc j) new fw (ground arith) s.1)))

pub set_byte-IsSortedFrom :
    (k offset v lo : ℕ) (fw : Firmware)
    → IsSortedFrom lo fw
    → IsSortedFrom lo (set_byte k offset v fw)
unfolding set_byte
set_byte-IsSortedFrom k offset v lo [] s = tt
set_byte-IsSortedFrom k offset v lo ((j, block) ∷ fw) s =
    if_rule (IsSortedFrom lo) (k == j) (λ _. s)
      (λ _. (s.0, set_byte-IsSortedFrom k offset v (suc j) fw s.1))

-- What a lookup finds after `emplace`: the old value if there is one.
abbrev pub or_else {ℓ} : {A : Type ℓ} → Option A → A → A
or_else none a = a
or_else (some b) a = b

pub find-emplace :
    (k j lo : ℕ) (new : List ℕ) (fw : Firmware)
    → IsSortedFrom lo fw
    → find j (emplace k new fw) ≡ (if j == k then some (or_else (find k fw) new) else find j fw)
unfolding find emplace
find-emplace k j lo new [] s = refl
find-emplace k j lo new ((i, block) ∷ fw) s =
    ground (arith, find-emplace k j (suc i) new fw s.1, find_below k (suc i) fw)

pub find-set_byte :
    (k offset v j : ℕ) (fw : Firmware)
    → find j (set_byte k offset v fw)
      ≡ (if j == k then Option.map (λ block. set block offset v) (find k fw) else find j fw)
unfolding find set_byte
find-set_byte k offset v j [] = ground arith
find-set_byte k offset v j ((i, block) ∷ fw) = ground (arith, find-set_byte k offset v j fw)

-- Every block has the same length.
abbrev pub HasBlocks : Firmware → Type 0
HasBlocks [] = Unit
HasBlocks ((k, block) ∷ fw) = (length block ≡ 64) × HasBlocks fw

pub emplace-HasBlocks :
    (k : ℕ) (new : List ℕ) (fw : Firmware)
    → length new ≡ 64
    → HasBlocks fw
    → HasBlocks (emplace k new fw)
unfolding emplace
emplace-HasBlocks k new [] n h = (n, tt)
emplace-HasBlocks k new ((j, block) ∷ fw) n h =
    if_rule HasBlocks (k == j) (λ _. h)
      (λ _.
        if_rule HasBlocks (ltb k j) (λ _. (n, h)) (λ _. (h.0, emplace-HasBlocks k new fw n h.1)))

pub set_byte-HasBlocks :
    (k offset v : ℕ) (fw : Firmware) → HasBlocks fw → HasBlocks (set_byte k offset v fw)
unfolding set_byte
set_byte-HasBlocks k offset v [] h = tt
set_byte-HasBlocks k offset v ((j, block) ∷ fw) h =
    if_rule HasBlocks (k == j) (λ _. (length-set block offset v ∙ h.0, h.1))
      (λ _. (h.0, set_byte-HasBlocks k offset v fw h.1))

pub find-HasBlocks :
    (k : ℕ) (fw : Firmware) (block : List ℕ)
    → HasBlocks fw
    → find k fw ≡ some block
    → length block ≡ 64
unfolding find
find-HasBlocks k [] block h e = absurd (cc)
find-HasBlocks k ((j, b) ∷ fw) block h e = ground (arith, find-HasBlocks k fw block h.1)
