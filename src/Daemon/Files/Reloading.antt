-- ===== src/Daemon/Files/Reloading.antt =====
-- The loops of saveConfig and loadConfig over the modules (src/main.cpp), for classes of modules that
-- read back what they write.
use mtb_daemon.Base.{
  ℕ, zero, suc, ◌+◌, ◌<◌, ◌≤◌, ◌≡◌, refl, sym, ap, ◌∙◌, subst, true, false, Option, none, some,
  ◌==◌, ◌&&◌, ltb, leb, if◌then◌else◌, Bool-cases, Option-cases, inl, inr, arith, ==_iff,
}
use mtb_daemon.Json.{Fields, field, object}
use mtb_daemon.Json.Safe.{safe_uint_at, safe_object}
use mtb_daemon.Usb.{max_modules}
use mtb_daemon.Daemon.{Daemon, Outcome, returned, threw, put}
use mtb_daemon.Daemon.Modules.{ModuleOps}
use mtb_daemon.Daemon.Activation.{new_module}
use mtb_daemon.Daemon.Files.{
  Surroundings, load_entry, load_typed, load_target, target_of, load_modules, saved_modules,
}

-- What the modules promise: the type that is written is the module's, and what is written is read back
-- by a new module of that type.
pub record SavingLaws (M : Type 0) ⦃ops : ModuleOps M⦄ : Type 1 where
  pub IsSaved : M → Type 0
  pub restored : ℕ → M → M
  pub type_written :
      (m : M) → IsSaved m → safe_uint_at (ops.save_config m) "type" ≡ some (ops.module_type m)
  pub read_back :
      (addr : ℕ) (m : M)
      → IsSaved m
      → ops.load_config (ops.save_config m) (new_module (ops.module_type m) addr)
        ≡ returned (restored addr m)

module _ {M : Type 0} where
  -- A loop that ends without an exception, with these modules.
  abbrev pub HasModules : (ℕ → Option M) → Outcome (Daemon M) → Type 0
  HasModules modules (threw e) = ⊥
  HasModules modules (returned e) = (a : ℕ) → e.modules a ≡ modules a

  HasModules-with :
      (ms ns : ℕ → Option M) (o : Outcome (Daemon M))
      → ((a : ℕ) → ms a ≡ ns a)
      → HasModules ms o
      → HasModules ns o
  HasModules-with ms ns (threw e) same h = h
  HasModules-with ms ns (returned e) same h = λ a. h a ∙ same a

  -- The addresses from `from` on, `n` of them, taken from one map, the others from another one.
  abbrev pub patched : ℕ → ℕ → (ℕ → Option M) → (ℕ → Option M) → ℕ → Option M
  patched from n ms old a = if leb from a && ltb a (from + n) then ms a else old a

  patched_none : (from : ℕ) (ms old : ℕ → Option M) (a : ℕ) → old a ≡ patched from 0 ms old a
  patched_none from ms old a =
      let outside : (leb from a && ltb a (from + 0)) ≡ false = ground arith in rw outside refl

  patched_first :
      (from n : ℕ) (ms old : ℕ → Option M) (a : ℕ)
      → patched (suc from) n ms (put from (ms from) old) a ≡ patched from (suc n) ms old a
  patched_first from n ms old a = elim (Bool-cases (a == from)) [
    | inl e ↦
        let here : a ≡ from = (==_iff a from).0 e in
        let before : (leb (suc from) a && ltb a (suc from + n)) ≡ false = ground (arith, here) in
        let within : (leb from a && ltb a (from + suc n)) ≡ true = ground (arith, here) in
        rw (before, within, e) (ap ms (sym here))
    | inr e ↦
        let same : (leb (suc from) a && ltb a (suc from + n))
            ≡ (leb from a && ltb a (from + suc n)) =
          ground (arith, e) in
        rw (same, e) refl
  ]

  patched_same :
      (from n : ℕ) (ms old : ℕ → Option M) (a : ℕ)
      → old from ≡ ms from
      → patched (suc from) n ms old a ≡ patched from (suc n) ms old a
  patched_same from n ms old a equal = elim (Bool-cases (a == from)) [
    | inl e ↦
        let here : a ≡ from = (==_iff a from).0 e in
        let before : (leb (suc from) a && ltb a (suc from + n)) ≡ false = ground (arith, here) in
        let within : (leb from a && ltb a (from + suc n)) ≡ true = ground (arith, here) in
        rw (before, within) (ap old here ∙ equal ∙ ap ms (sym here))
    | inr e ↦
        let same : (leb (suc from) a && ltb a (suc from + n))
            ≡ (leb from a && ltb a (from + suc n)) =
          ground (arith, e) in
        rw same refl
  ]

  put_empty :
      (from : ℕ) (later : Option M) (old : ℕ → Option M)
      → ((a : ℕ) → from ≤ a → old a ≡ none)
      → (a : ℕ) → suc from ≤ a
      → put from later old a ≡ none
  put_empty from later old empty a h =
      let other : (a == from) ≡ false = ground (arith, h) in rw other (empty a (omega (arith, h)))

module _ {M : Type 0} ⦃ops : ModuleOps M⦄ (laws : SavingLaws M) where
  -- A module as it is after the start.
  abbrev pub restored_at : (ℕ → Option M) → ℕ → Option M
  restored_at ms a = elim (ms a) [ none ↦ none | some m ↦ some (laws.restored a m) ]

  load_entry-save_config :
      (addr : ℕ) (m : M) (d : Daemon M)
      → addr < 256
      → d.modules addr ≡ none
      → laws.IsSaved m
      → load_entry addr (some (ops.save_config m)) d
        ≡ returned (record d { modules = put addr (some (laws.restored addr m)) d.modules })
  unfolding load_entry load_typed load_target target_of
  load_entry-save_config addr m d b empty saved =
      let inside : ltb addr max_modules ≡ true = ground (arith, b) in
      rw (laws.type_written m saved, inside, empty, laws.read_back addr m saved) refl

  -- The loop over an entry and what follows it.
  load_modules-first :
      (around : Surroundings) (addr : ℕ) (m : M) (rest : Fields) (d : Daemon M)
      → around.text_to_int (around.key addr) ≡ addr
      → addr < 256
      → d.modules addr ≡ none
      → laws.IsSaved m
      → load_modules around rest
          (record d { modules = put addr (some (laws.restored addr m)) d.modules })
        ≡ load_modules around (field (around.key addr) (object (ops.save_config m)) rest) d
  unfolding load_modules safe_object
  load_modules-first around addr m rest d key b empty saved =
      rw (load_modules, key, load_entry-save_config addr m d b empty saved) refl

  load_saved_modules :
      (around : Surroundings) (n from : ℕ) (ms : ℕ → Option M) (d : Daemon M)
      → ((a : ℕ) → a < 256 → around.text_to_int (around.key a) ≡ a)
      → ((a : ℕ) (m : M) → ms a ≡ some m → laws.IsSaved m)
      → from + n ≤ 256
      → ((a : ℕ) → from ≤ a → d.modules a ≡ none)
      → HasModules
          (patched from n (restored_at ms) d.modules)
          (load_modules around (saved_modules around n from ms) d)
  unfolding load_modules saved_modules
  load_saved_modules around zero from ms d keys saved b empty =
      patched_none from (restored_at ms) d.modules
  load_saved_modules around (suc n) from ms d keys saved b empty = elim (Option-cases (ms from)) [
    | inl e ↦
        rw (saved_modules, e)
          (HasModules-with (patched (suc from) n (restored_at ms) d.modules)
            (patched from (suc n) (restored_at ms) d.modules) _
            (λ a.
              patched_same from n (restored_at ms) d.modules a
                (empty from (omega arith) ∙ (rw (restored_at, e) refl)))
            (load_saved_modules around n (suc from) ms d keys saved (omega (arith, b))
              (λ a h. empty a (omega (arith, h)))))
    | inr (m, e) ↦
        let later = some (laws.restored from m) in
        let put_first : Daemon M = record d { modules = put from later d.modules } in
        let found : restored_at ms from ≡ later = rw (restored_at, e) refl in
        let rest =
          load_saved_modules around n (suc from) ms put_first keys saved (omega (arith, b))
            (put_empty from later d.modules empty) in
        rw (saved_modules, e)
          (subst (HasModules (patched from (suc n) (restored_at ms) d.modules))
            (load_modules-first around from m (saved_modules around n (suc from) ms) d
              (keys from (omega (arith, b))) (omega (arith, b)) (empty from (omega arith))
              (saved from m e))
            (HasModules-with (patched (suc from) n (restored_at ms) put_first.modules)
              (patched from (suc n) (restored_at ms) d.modules) _
              (λ a.
                ap (λ o. patched (suc from) n (restored_at ms) (put from o d.modules) a) (sym found)
                ∙ patched_first from n (restored_at ms) d.modules a)
              rest))
  ]

  -- Loading the modules that were saved, when there are none yet: each of them is there again.
  pub load_modules-saved_modules :
      (around : Surroundings) (ms : ℕ → Option M) (d : Daemon M)
      → ((a : ℕ) → a < 256 → around.text_to_int (around.key a) ≡ a)
      → ((a : ℕ) (m : M) → ms a ≡ some m → laws.IsSaved m)
      → ((a : ℕ) → d.modules a ≡ none)
      → HasModules
          (λ a. if ltb a 256 then restored_at ms a else none)
          (load_modules around (saved_modules around max_modules 0 ms) d)
  load_modules-saved_modules around ms d keys saved empty =
      HasModules-with (patched 0 256 (restored_at ms) d.modules)
        (λ a. if ltb a 256 then restored_at ms a else none) _
        (λ a.
          let within : (leb 0 a && ltb a (0 + 256)) ≡ ltb a 256 = ground arith in
          rw (within, empty a) refl)
        (load_saved_modules around 256 0 ms d keys saved (omega arith) (λ a h. empty a))
