-- ===== src/Module/Failing.antt =====
-- Attempts to activate a module with outputs again whose commands fail (reactivateCheck,
-- activationError of src/modules).
use mtb_daemon.Base.{
  ℕ, suc, ◌+◌, ◌-◌, ◌≡◌, refl, sym, subst, ◌∙◌, true, false, Option, none, some, List, [], ◌∷◌,
  length, Option-cases, Bool-cases, inl, inr, ltb, arith, if◌then◌else◌,
}
use mtb_daemon.Uni.{IoKind, IoModule, Effect, sent}
use mtb_daemon.Uni.Activation.{reactivate_check, activate, activation_error}
use mtb_daemon.Module.Replies.{on_error}
use mtb_daemon.Module.Activating.{last_sent}

-- One attempt is used up where there is one.
used_up : (n r : ℕ) → ltb 0 r ≡ true → suc n + (r - 1) ≡ n + r
used_up n r t = ground arith

none_left : (r : ℕ) → ltb 0 r ≡ false → r ≡ r - 1
none_left r f = ground arith

module _ {k : IoKind} where
  -- The commands among the effects.
  abbrev pub commands : List (Effect k) → ℕ
  commands [] = 0
  commands (sent body callback ∷ es) = suc (commands es)
  commands (e ∷ es) = commands es

  -- A check, and the failure of the command that it sent, if it sent one.
  abbrev pub fail_last : ℕ → IoModule k → IoModule k
  fail_last error s = elim (last_sent s.effects) [ none ↦ s | some c ↦ on_error c error s ]

  abbrev pub retry : ℕ → IoModule k → IoModule k
  retry error s =
      let checked = reactivate_check s in
      if checked.activating then fail_last error checked else checked

  abbrev pub retries : List ℕ → IoModule k → IoModule k
  retries [] s = s
  retries (error ∷ errors) s = retries errors (retry error s)

  abbrev pub IsIdle : IoModule k → Type 0
  IsIdle s = (s.active ≡ false) × (s.activating ≡ false)

  -- What a check with a failing command does.
  abbrev AfterRetry : IoModule k → IoModule k → Type 0
  AfterRetry s t =
      (IsIdle t)
      × (t.activations_remaining ≡ s.activations_remaining - 1)
      × (commands t.effects + t.activations_remaining
          ≡ commands s.effects + s.activations_remaining)

  retry_with :
      (error : ℕ) (s : IoModule k) (o : Option k.Config)
      → s.active ≡ false
      → s.activating ≡ false
      → AfterRetry (record s { config = o }) (retry error (record s { config = o }))
  unfolding reactivate_check activate on_error activation_error
  retry_with error s none h g = elim (Bool-cases (ltb 0 s.activations_remaining)) [
    | inl t ↦
        rw (h, g, t) ((refl, refl), refl, used_up (commands s.effects) s.activations_remaining t)
    | inr f ↦ rw (h, g, f) ((refl, refl), none_left s.activations_remaining f, refl)
  ]
  retry_with error s (some c) h g = elim (Bool-cases (ltb 0 s.activations_remaining)) [
    | inl t ↦
        rw (h, g, t) ((refl, refl), refl, used_up (commands s.effects) s.activations_remaining t)
    | inr f ↦ rw (h, g, f) ((refl, refl), none_left s.activations_remaining f, refl)
  ]

  retry-AfterRetry : (error : ℕ) (s : IoModule k) → IsIdle s → AfterRetry s (retry error s)
  retry-AfterRetry error s h = elim (Option-cases s.config) [
    | inl e ↦
        subst (λ o. AfterRetry (record s { config = o }) (retry error (record s { config = o })))
          (sym e) (retry_with error s none h.0 h.1)
    | inr (c, e) ↦
        subst (λ o. AfterRetry (record s { config = o }) (retry error (record s { config = o })))
          (sym e) (retry_with error s (some c) h.0 h.1)
  ]

  -- A module that is neither active nor being activated, and whose commands all fail, stays so; each
  -- check takes one of the attempts that are left while there are any, and sends one command for it,
  -- so that there are never more commands than attempts, whatever the number of checks.
  pub retries_bounded :
      (errors : List ℕ) (s : IoModule k)
      → IsIdle s
      → (IsIdle (retries errors s))
        × ((retries errors s).activations_remaining ≡ s.activations_remaining - length errors)
        × (commands (retries errors s).effects + (retries errors s).activations_remaining
            ≡ commands s.effects + s.activations_remaining)
  retries_bounded [] s h = (h, omega arith, refl)
  retries_bounded (error ∷ errors) s h =
      let once = retry-AfterRetry error s h in
      let rest = retries_bounded errors (retry error s) once.0 in
      (rest.0, rest.1 ∙ rw (once.1) (omega arith), rest.2 ∙ once.2)
