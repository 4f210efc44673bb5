-- ===== src/Uni/Setters/Laws.antt =====
-- Who has set outputs of a universal module after they are reset (src/modules/uni.cpp).
use mtb_daemon.Base.{
  ℕ, zero, suc, replicate, ◌≡◌, refl, sym, subst, Option-cases, ◌⊎◌, inl, inr, false, Option, none,
  some, List, [], ◌∷◌, ◌++◌, ◌==◌, if_rule, Bool-cases, All, length, arith, is_empty,
}
use mtb_daemon.Server.{member}
use mtb_daemon.Uni.{IoKind, IoModule}
use mtb_daemon.Uni.Setting.{
  same_number, reset_outputs_of, reset_outputs_of_client, set_outputs, client_disconnected,
}
use mtb_daemon.Uni.Activation.{all_outputs_reset, clear_outputs}
use mtb_daemon.Uni.Setters.{setters_among, uni_output_setters}

abbrev pub Without : ℕ → List (Option ℕ) → Type 0
Without c whos = All (λ o. same_number o (some c) ≡ false) whos

abbrev pub IsUnset : List (Option ℕ) → Type 0
IsUnset whos = All (λ o. o ≡ none) whos

setters_among-Without :
    (c : ℕ) (whos : List (Option ℕ)) (result : List ℕ)
    → Without c whos
    → member c result ≡ false
    → member c (setters_among whos result) ≡ false
unfolding setters_among same_number
setters_among-Without c [] result h r = r
setters_among-Without c (none ∷ whos) result h r = setters_among-Without c whos result h.1 r
setters_among-Without c (some d ∷ whos) result h r = setters_among-Without c whos _ h.1 (
    if_rule (λ l. member c l ≡ false) (member d result) (λ _. r)
      (λ _. append_other c d result h.0 r))
  where
    append_other :
        (c d : ℕ) (result : List ℕ)
        → (d == c) ≡ false
        → member c result ≡ false
        → member c (result ++ d ∷ []) ≡ false
    append_other c d [] h r = ground arith
    append_other c d (x ∷ xs) h r = ground (arith, append_other c d xs h)

Unset-Without : (c : ℕ) (whos : List (Option ℕ)) → IsUnset whos → Without c whos
unfolding same_number
Unset-Without c [] h = tt
Unset-Without c (o ∷ whos) h = (rw (h.0) refl, Unset-Without c whos h.1)

-- The loop clears the entries of the client, and brings in none.
reset_outputs_of-Without :
    {A : Type 0} (c : ℕ) (ws vs : List A) (whos : List (Option ℕ))
    → (Without c whos) ⊎ ((length ws ≡ length whos) × (length vs ≡ length whos))
    → Without c (reset_outputs_of c ws vs whos).0.1
unfolding reset_outputs_of
reset_outputs_of-Without c [] vs [] h = tt
reset_outputs_of-Without c [] vs (o ∷ whos) (inl h) = h
reset_outputs_of-Without c [] vs (o ∷ whos) (inr h) = absurd (omega (arith, h.0))
reset_outputs_of-Without c (w ∷ ws) [] [] h = tt
reset_outputs_of-Without c (w ∷ ws) [] (o ∷ whos) (inl h) = h
reset_outputs_of-Without c (w ∷ ws) [] (o ∷ whos) (inr h) = absurd (omega (arith, h.1))
reset_outputs_of-Without c (w ∷ ws) (v ∷ vs) [] h = tt
reset_outputs_of-Without c (w ∷ ws) (v ∷ vs) (o ∷ whos) h =
    let rest =
      reset_outputs_of-Without c ws vs whos
        (elim h [ inl k ↦ inl k.1 | inr k ↦ inr (omega (arith, k.0), omega (arith, k.1)) ]) in
    elim (Bool-cases (same_number o (some c))) [
      | inl e ↦ rw e (refl, rest)
      | inr e ↦ rw e (e, rest)
    ]

setters_among-replicate : (n : ℕ) → setters_among (replicate n none) [] ≡ []
unfolding setters_among
setters_among-replicate zero = refl
setters_among-replicate (suc n) = setters_among-replicate n

module _ {k : IoKind} where
  -- The arrays have one length, and a module without configuration has no output that a client set.
  abbrev pub IsSettable : IoModule k → Type 0
  IsSettable s =
      (length s.outputs_want ≡ length s.who_set_output)
      × ((IsUnset s.who_set_output)
          ⊎ ((c : k.Config) × (s.config ≡ some c)
              × (length (k.safe_of c) ≡ length s.who_set_output)))

  abbrev LeftWithout : ℕ → IoModule k → Type 0
  LeftWithout c s = Without c s.who_set_output

  -- With a configuration.
  configured_reset :
      (c : ℕ) (s : IoModule k) (cfg : k.Config)
      → Without c (reset_outputs_of c s.outputs_want (k.safe_of cfg) s.who_set_output).0.1
      → LeftWithout c (reset_outputs_of_client c (record s { config = some cfg }))
  unfolding reset_outputs_of_client set_outputs
  configured_reset c s cfg h =
      if_rule (LeftWithout c) (reset_outputs_of c s.outputs_want (k.safe_of cfg) s.who_set_output).1
        (λ _. if_rule (LeftWithout c) (is_empty s.set_outputs_sent) (λ _. h) (λ _. h)) (λ _. h)

  unconfigured_reset :
      (c : ℕ) (s : IoModule k)
      → Without c s.who_set_output
      → LeftWithout c (reset_outputs_of_client c (record s { config = none }))
  unfolding reset_outputs_of_client
  unconfigured_reset c s h = h

  reset_outputs_of_client-Without :
      (c : ℕ) (s : IoModule k)
      → (Without c s.who_set_output)
        ⊎ ((cfg : k.Config) × (s.config ≡ some cfg)
            × (length s.outputs_want ≡ length s.who_set_output)
            × (length (k.safe_of cfg) ≡ length s.who_set_output))
      → LeftWithout c (reset_outputs_of_client c s)
  reset_outputs_of_client-Without c s (inr (cfg, e, w, v)) =
      subst (λ o. LeftWithout c (reset_outputs_of_client c (record s { config = o }))) (sym e)
        (configured_reset c s cfg
          (reset_outputs_of-Without c s.outputs_want (k.safe_of cfg) s.who_set_output (inr (w, v))))
  reset_outputs_of_client-Without c s (inl h) = elim (Option-cases s.config) [
    | inl e ↦
        subst (λ o. LeftWithout c (reset_outputs_of_client c (record s { config = o }))) (sym e)
          (unconfigured_reset c s h)
    | inr (cfg, e) ↦
        subst (λ o. LeftWithout c (reset_outputs_of_client c (record s { config = o }))) (sym e)
          (configured_reset c s cfg
            (reset_outputs_of-Without c s.outputs_want (k.safe_of cfg) s.who_set_output (inl h)))
  ]

  pub reset_outputs_of_client_gone :
      (c : ℕ) (s : IoModule k)
      → IsSettable s
      → member c (uni_output_setters (reset_outputs_of_client c s)) ≡ false
  unfolding uni_output_setters
  reset_outputs_of_client_gone c s h =
      let without : LeftWithout c (reset_outputs_of_client c s) =
        reset_outputs_of_client-Without c s (elim h.1 [
          | inl unset ↦ inl (Unset-Without c s.who_set_output unset)
          | inr (cfg, e, v) ↦ inr (cfg, e, h.0, v)
        ]) in
      setters_among-Without c (reset_outputs_of_client c s).who_set_output [] without refl

  pub all_outputs_reset_gone : (s : IoModule k) → uni_output_setters (all_outputs_reset s) ≡ []
  unfolding uni_output_setters all_outputs_reset clear_outputs
  all_outputs_reset_gone s = setters_among-replicate k.io_cnt

  pub client_disconnected-IsSettable :
      (c : ℕ) (s : IoModule k) → IsSettable s → IsSettable (client_disconnected c s)
  unfolding client_disconnected
  client_disconnected-IsSettable c s h = h
