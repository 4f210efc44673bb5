-- ===== src/Daemon/Activation/Laws.antt =====
-- A module that does not answer while it is activated (src/main.cpp, activateModule).
use mtb_daemon.Base.{
  ℕ, zero, suc, ◌+◌, ◌-◌, ◌≡◌, refl, ltb, lt→ltb, ap, ◌∙◌, Bool, true, not, List, [], ◌∷◌, ◌==◌,
  if◌then◌else◌, arith,
}
use mtb_daemon.Cmd.{module_info_request}
use mtb_daemon.Daemon.{Daemon, Effect, effect, sent, started, module_info_got, activate_again}
use mtb_daemon.Daemon.Modules.{ModuleOps}
use mtb_daemon.Daemon.Activation.{activate_module, module_got_no_info, activate_again_tick, is_idle}
use mtb_daemon.Daemon.Received.{on_error, timeout}

-- The commands for a module's information among the effects.
unfoldable pub info_requests : ℕ → List Effect → ℕ
info_requests addr [] = 0
info_requests addr (sent (module_info_request a) callback ∷ es) =
    let rest = info_requests addr es in if a == addr then suc rest else rest
info_requests addr (e ∷ es) = info_requests addr es

-- What is done in `n + 1` attempts, the latest first.
unfoldable pub attempts : ℕ → ℕ → List Effect → List Effect
attempts addr zero done = sent (module_info_request addr) (module_info_got addr 0) ∷ done
attempts addr (suc n) done = attempts addr n (
    started 500 (activate_again addr (suc n))
    ∷ sent (module_info_request addr) (module_info_got addr (suc n))
    ∷ done)

info_requests-attempts :
    (n addr : ℕ) (done : List Effect)
    → info_requests addr (attempts addr n done) ≡ suc n + info_requests addr done
unfolding info_requests attempts
info_requests-attempts zero addr done =
    let same : (addr == addr) ≡ true = ground arith in rw same (omega arith)
info_requests-attempts (suc n) addr done =
    let same : (addr == addr) ≡ true = ground arith in
    info_requests-attempts n addr _ ∙ rw same (omega arith)

if_twice :
    {A : Type 0} (x y z : A) (b c : Bool)
    → b ≡ true
    → c ≡ true
    → (if not b then x else if c then y else z) ≡ y
if_twice x y z b c h i = rw (h, i) refl

module _ {M : Type 0} ⦃ops : ModuleOps M⦄ where
  -- What comes of the latest effect where every command fails and every timer runs out.
  unfoldable pub next_failure : ℕ → List Effect → Daemon M → Daemon M
  next_failure error (sent body callback ∷ es) d = on_error callback error d
  next_failure error (started time timer ∷ es) d = timeout timer d
  next_failure error _ d = d

  unfoldable pub failures : ℕ → ℕ → Daemon M → Daemon M
  failures zero error d = d
  failures (suc n) error d = failures n error (next_failure error d.effects d)

  failures_over :
      (k error addr : ℕ) (d : Daemon M)
      → failures k error (activate_module addr 0 d) ≡ activate_module addr 0 d
  unfolding failures next_failure activate_module on_error module_got_no_info
  failures_over zero error addr d = refl
  failures_over (suc k) error addr d = failures_over k error addr d

  got_no_info_again :
      (n addr : ℕ) (d : Daemon M)
      → module_got_no_info addr (suc n) d ≡ effect (started 500 (activate_again addr (suc n))) d
  unfolding module_got_no_info
  got_no_info_again n addr d =
      let more : ltb 0 (suc n) ≡ true = lt→ltb 0 (suc n) (omega arith) in rw more refl

  activated_again :
      (n addr : ℕ) (d : Daemon M)
      → d.connected ≡ true
      → is_idle (d.modules addr) ≡ true
      → activate_again_tick addr (suc n) d ≡ activate_module addr n d
  unfolding activate_again_tick
  activated_again n addr d h i =
      let one_less : suc n - 1 ≡ n = omega arith in
      if_twice _ _ _ d.connected (is_idle (d.modules addr)) h i
      ∙ ap (λ m. activate_module addr m d) one_less

  failures_twice :
      (n k error addr : ℕ) (d : Daemon M)
      → d.connected ≡ true
      → is_idle (d.modules addr) ≡ true
      → failures (suc (suc k)) error (activate_module addr (suc n) d)
        ≡ failures k error (
            activate_module addr n
              (effect (started 500 (activate_again addr (suc n))) (activate_module addr (suc n) d)))
  unfolding failures next_failure activate_module on_error timeout
  failures_twice n k error addr d h i =
      ap (λ (e : Daemon M). failures k error (next_failure error e.effects e))
        (got_no_info_again n addr (activate_module addr (suc n) d))
      ∙ ap (failures k error) (
          activated_again n addr
            (effect (started 500 (activate_again addr (suc n))) (activate_module addr (suc n) d)) h
            i)

  failures-attempts :
      (n k error addr : ℕ) (d : Daemon M)
      → d.connected ≡ true
      → is_idle (d.modules addr) ≡ true
      → (failures (n + n + k) error (activate_module addr n d)).effects ≡ attempts addr n d.effects
  unfolding attempts activate_module
  failures-attempts zero k error addr d h i =
      let rest : 0 + 0 + k ≡ k = omega arith in
      rw rest (ap (λ (e : Daemon M). e.effects) (failures_over k error addr d))
  failures-attempts (suc n) k error addr d h i =
      let steps : suc n + suc n + k ≡ suc (suc (n + n + k)) = omega arith in
      rw steps (
        ap (λ (e : Daemon M). e.effects) (failures_twice n (n + n + k) error addr d h i)
        ∙ failures-attempts n k error addr
            (effect (started 500 (activate_again addr (suc n))) (activate_module addr (suc n) d)) h
            i)

  -- While MTB-USB stays connected and the module is neither active nor being activated, an activation
  -- with n attempts left whose commands all fail sends n + 1 commands for the module's information:
  -- they are sent once 2 n steps, each a failed command or a timer, have passed, and no further step
  -- sends another.
  pub info_requests-failures :
      (n k error addr : ℕ) (d : Daemon M)
      → d.connected ≡ true
      → is_idle (d.modules addr) ≡ true
      → info_requests addr (failures (n + n + k) error (activate_module addr n d)).effects
        ≡ suc n + info_requests addr d.effects
  info_requests-failures n k error addr d h i =
      ap (info_requests addr) (failures-attempts n k error addr d h i)
      ∙ info_requests-attempts n addr d.effects
