-- ===== src/Uni/Upgrade/Laws.antt =====
-- The writes of an upgrade (fwUpgdGotStatus of src/modules/module.cpp).
use mtb_daemon.Base.{
  ℕ, suc, ◌*◌, ◌%◌, ◌≤◌, ◌≡◌, ◌⊎◌, refl, ap, true, false, List, [], ◌∷◌, ◌==◌, if◌then◌else◌, take,
  drop, length, if_rule, Bool-cases, inl, inr, arith,
}
use mtb_daemon.Cmd.{Body, module_fw_write_flash}
use mtb_daemon.Firmware.{Firmware, block_size}
use mtb_daemon.Uni.{IoKind, IoModule, Effect, sent, effect, upgrade_written}
use mtb_daemon.Uni.Upgrade.{writing_flash, fw_upgd_got_status, fw_upgd_get_status}

-- How many of the statuses let a block be written.
abbrev pub ready : List ℕ → ℕ
ready [] = 0
ready (status ∷ statuses) = if status == writing_flash then ready statuses else suc (ready statuses)

-- The writes among the effects, the latest first.
abbrev pub write_of : Body → List (ℕ × List ℕ) → List (ℕ × List ℕ)
write_of (module_fw_write_flash m addr blob) done = (addr, blob) ∷ done
write_of _ done = done

-- Blocks that are written one after the other.
abbrev pub in_order : Firmware → List (ℕ × List ℕ) → List (ℕ × List ℕ)
in_order [] done = done
in_order ((block, blob) ∷ rest) done = in_order rest ((block * block_size % 65536, blob) ∷ done)

Firmware-cases :
    (fw : Firmware)
    → (fw ≡ []) ⊎ ((block : ℕ) × (blob : List ℕ) × (rest : Firmware) × (fw ≡ (block, blob) ∷ rest))
Firmware-cases [] = inl refl
Firmware-cases ((block, blob) ∷ rest) = inr (block, blob, rest, refl)

module _ {k : IoKind} where
  -- One round: the module tells its status; when it is not writing, it is sent a block and confirms it.
  abbrev pub round : ℕ → IoModule k → IoModule k
  round status s =
      if status == writing_flash
      then fw_upgd_got_status status s
      else fw_upgd_get_status (fw_upgd_got_status status s)

  abbrev pub rounds : List ℕ → IoModule k → IoModule k
  rounds [] s = s
  rounds (status ∷ statuses) s = rounds statuses (round status s)

  abbrev pub flash_writes : List (Effect k) → List (ℕ × List ℕ)
  flash_writes [] = []
  flash_writes (sent body callback ∷ es) = write_of body (flash_writes es)
  flash_writes (_ ∷ es) = flash_writes es

  round_busy :
      (status : ℕ) (s : IoModule k)
      → (status == writing_flash) ≡ true
      → round status s ≡ fw_upgd_get_status s
  unfolding fw_upgd_got_status
  round_busy status s e =
      if_rule (λ t. t ≡ fw_upgd_get_status s) (status == writing_flash)
        (λ _.
          if_rule (λ t. t ≡ fw_upgd_get_status s) (status == writing_flash) (λ _. refl)
            (λ f. absurd (cc)))
        (λ f. absurd (cc))

  -- The state after a block is written and confirmed.
  unfoldable wrote : ℕ → List ℕ → Firmware → IoModule k → IoModule k
  wrote block blob rest s =
      fw_upgd_get_status
        (record (effect
          (sent (module_fw_write_flash s.address (block * block_size % 65536) blob) upgrade_written)
          s) { to_write = rest })

  round_ready :
      (status block : ℕ) (blob : List ℕ) (rest : Firmware) (s : IoModule k)
      → (status == writing_flash) ≡ false
      → s.to_write ≡ (block, blob) ∷ rest
      → round status s ≡ wrote block blob rest s
  unfolding fw_upgd_got_status wrote
  round_ready status block blob rest s e w =
      if_rule (λ t. t ≡ wrote block blob rest s) (status == writing_flash) (λ f. absurd (cc))
        (λ _. ap fw_upgd_get_status (
          if_rule
            (λ t.
              t
              ≡ record (effect
                  (sent (module_fw_write_flash s.address (block * block_size % 65536) blob)
                    upgrade_written)
                  s) { to_write = rest })
            (status == writing_flash) (λ f. absurd (cc)) (λ _. rw w refl)))

  -- What the rounds from a state achieve, for a number of ready statuses.
  unfoldable IsWritten : List ℕ → IoModule k → IoModule k → ℕ → Type 0
  IsWritten statuses t s n =
      (flash_writes (rounds statuses t).effects
        ≡ in_order (take n s.to_write) (flash_writes s.effects))
      × ((rounds statuses t).to_write ≡ drop n s.to_write)

  flash_writes-busy :
      (statuses : List ℕ) (s : IoModule k)
      → IsWritten statuses (fw_upgd_get_status s) (fw_upgd_get_status s) (ready statuses)
      → IsWritten statuses (fw_upgd_get_status s) s (ready statuses)
  unfolding IsWritten fw_upgd_get_status
  flash_writes-busy statuses s h = h

  IsWritten-ready :
      (statuses : List ℕ) (block : ℕ) (blob : List ℕ) (rest : Firmware) (s : IoModule k) (n : ℕ)
      → s.to_write ≡ (block, blob) ∷ rest
      → IsWritten statuses (wrote block blob rest s) (wrote block blob rest s) n
      → IsWritten statuses (wrote block blob rest s) s (suc n)
  unfolding IsWritten wrote fw_upgd_get_status
  IsWritten-ready statuses block blob rest s n w h = rw w h

  -- Whatever the statuses that a module tells, as long as not more of them are ready than blocks are
  -- left, each ready one makes the upgrade write the next block, in the order of the blocks, none twice
  -- and none left out, each to the address of the block in 16 bits.
  pub flash_writes-rounds :
      (statuses : List ℕ) (s : IoModule k)
      → ready statuses ≤ length s.to_write
      → (flash_writes (rounds statuses s).effects
          ≡ in_order (take (ready statuses) s.to_write) (flash_writes s.effects))
        × ((rounds statuses s).to_write ≡ drop (ready statuses) s.to_write)
  unfolding IsWritten wrote fw_upgd_get_status
  flash_writes-rounds [] s h = (refl, refl)
  flash_writes-rounds (status ∷ statuses) s h = elim (Bool-cases (status == writing_flash)) [
    | inl e ↦
        let count : ready (status ∷ statuses) ≡ ready statuses = ground arith in
        let rest : IsWritten statuses (fw_upgd_get_status s) s (ready statuses) =
          flash_writes-busy statuses s
            (flash_writes-rounds statuses (fw_upgd_get_status s) (ground arith)) in
        let main : IsWritten statuses (round status s) s (ready (status ∷ statuses)) =
          rw (round_busy status s e, count) rest in
        main
    | inr e ↦ elim (Firmware-cases s.to_write) [
      | inl w ↦
          let none_left : length s.to_write ≡ 0 = ap length w in
          let some_ready : ready (status ∷ statuses) ≡ suc (ready statuses) = ground arith in
          absurd (omega (arith, h, none_left, some_ready))
      | inr (block, blob, rest, w) ↦
          let count : ready (status ∷ statuses) ≡ suc (ready statuses) = ground arith in
          let len : length s.to_write ≡ suc (length rest) = ap length w in
          let main : IsWritten statuses (round status s) s (ready (status ∷ statuses)) =
            rw (round_ready status block blob rest s e w, count)
              (IsWritten-ready statuses block blob rest s (ready statuses) w (
                flash_writes-rounds statuses (wrote block blob rest s)
                  (omega (arith, h, count, len)))) in
          main
    ]
  ]
