-- ===== src/Daemon/Outputs/Laws.antt =====
-- Resetting the outputs of a client (src/main.cpp).
use mtb_daemon.Base.{
  ℕ, zero, suc, ◌+◌, ◌≤◌, ◌<◌, ◌≡◌, refl, ap, ◌∙◌, false, ◌&&◌, ◌||◌, Option, none, some, List, [],
  ◌∷◌, ◌++◌, ◌==◌, leb, length, if_rule, Bool-cases, inl, inr, arith, lt→ltb,
}
use mtb_daemon.Cmd.{module_reset_outputs}
use mtb_daemon.Json.{Fields}
use mtb_daemon.Server.{member, json_ok_response}
use mtb_daemon.Daemon.{
  Daemon, effect, sent, Callback, gone_outputs_reset, client_outputs_reset, for_all, send,
}
use mtb_daemon.Daemon.Modules.{ModuleOps, OutputLaws}
use mtb_daemon.Daemon.Outputs.{
  on_module, push_new, setters_of, output_setters_from, output_setters, reset_by_setters,
  client_reset_outputs, cmd_reset_my_outputs, server_client_disconnected, client_gone,
}

member-append : (x c : ℕ) (ds : List ℕ) → member x (ds ++ c ∷ []) ≡ member x ds || x == c
member-append x c [] = ground arith
member-append x c (d ∷ ds) = ground (arith, member-append x c ds)

-- The sockets of a module that are pushed bring in no other.
push_new_keeps_out :
    (x : ℕ) (cs result : List ℕ)
    → member x cs ≡ false
    → member x result ≡ false
    → member x (push_new cs result) ≡ false
unfolding push_new
push_new_keeps_out x [] result h r = r
push_new_keeps_out x (c ∷ cs) result h r =
    let split : ((x == c) ≡ false) × (member x cs ≡ false) = ground (arith, h) in
    push_new_keeps_out x cs _ split.1 (
      if_rule (λ l. member x l ≡ false) (member c result) (λ _. r)
        (λ _. member-append x c result ∙ rw (r, split.0) refl))

-- Too short a list, or one that the client is not alone in.
not_setter :
    (c : ℕ) (cs : List ℕ)
    → leb 2 (length cs) ≡ false
    → (length cs == 1 && member c cs) ≡ false
    → member c cs ≡ false
not_setter c [] h k = refl
not_setter c (d ∷ []) h k = ground (arith, k)
not_setter c (d ∷ e ∷ cs) h k = absurd (ground (arith, h))

module _ {M : Type 0} ⦃ops : ModuleOps M⦄ where
  abbrev pub Unset : ℕ → (ℕ → Option M) → Type 0
  Unset x modules = (i : ℕ) → i < 256 → member x (setters_of (modules i)) ≡ false

  output_setters_from_keeps_out :
      (n addr x : ℕ) (modules : ℕ → Option M) (result : List ℕ)
      → addr + n ≤ 256
      → Unset x modules
      → member x result ≡ false
      → member x (output_setters_from n addr modules result) ≡ false
  unfolding output_setters_from
  output_setters_from_keeps_out zero addr x modules result b h r = r
  output_setters_from_keeps_out (suc n) addr x modules result b h r =
      output_setters_from_keeps_out n (suc addr) x modules _ (omega arith) h
        (push_new_keeps_out x (setters_of (modules addr)) result (h addr (omega arith)) r)

  pub output_setters-Unset :
      (x : ℕ) (d : Daemon M) → Unset x d.modules → member x (output_setters d) ≡ false
  unfolding output_setters
  output_setters-Unset x d h =
      output_setters_from_keeps_out 256 0 x d.modules [] (omega arith) h refl

  modules-send : (c : ℕ) (fs : Fields) (d : Daemon M) → (send c fs d).modules ≡ d.modules
  unfolding send
  modules-send c fs d =
      if_rule (λ (e : Daemon M). e.modules ≡ d.modules) (member c d.clients) (λ _. refl) (λ _. refl)

  member-output_setters_of :
      (c : ℕ) (e f : Daemon M)
      → e.modules ≡ f.modules
      → member c (output_setters e) ≡ member c (output_setters f)
  unfolding output_setters
  member-output_setters_of c e f h = ap (λ ms. member c (output_setters_from 256 0 ms [])) h

module _ {M : Type 0} ⦃ops : ModuleOps M⦄ ⦃laws : OutputLaws M⦄ where
  abbrev pub WellAt : Option M → Type 0
  WellAt none = Unit
  WellAt (some m) = laws.IsWell m

  abbrev pub AllWell : (ℕ → Option M) → Type 0
  AllWell modules = (i : ℕ) → i < 256 → WellAt (modules i)

  reset_one :
      (c : ℕ) (o : Option M)
      → WellAt o
      → member c (setters_of (on_module (ops.reset_outputs_of_client c) o)) ≡ false
  reset_one c none w = refl
  reset_one c (some m) w = laws.reset_outputs_of_client_gone c m w

  all_reset_one :
      (c : ℕ) (o : Option M)
      → WellAt o
      → member c (setters_of (on_module ops.all_outputs_reset o)) ≡ false
  all_reset_one c none w = refl
  all_reset_one c (some m) w = ap (member c) (laws.output_setters-all_outputs_reset m w)

  keep_one : (c : ℕ) (o : Option M) → WellAt o → WellAt (on_module (ops.client_disconnected c) o)
  keep_one c none w = w
  keep_one c (some m) w = laws.client_disconnected-IsWell c m w

  Unset-reset :
      (c : ℕ) (modules : ℕ → Option M)
      → AllWell modules
      → Unset c (for_all (on_module (ops.reset_outputs_of_client c)) modules)
  Unset-reset c modules well i h = rw (lt→ltb i 256 h) (reset_one c (modules i) (well i h))

  Unset-all_reset :
      (c : ℕ) (modules : ℕ → Option M)
      → AllWell modules
      → Unset c (for_all (on_module ops.all_outputs_reset) modules)
  Unset-all_reset c modules well i h = rw (lt→ltb i 256 h) (all_reset_one c (modules i) (well i h))

  AllWell-client_disconnected :
      (c : ℕ) (modules : ℕ → Option M)
      → AllWell modules
      → AllWell (for_all (on_module (ops.client_disconnected c)) modules)
  AllWell-client_disconnected c modules well i h =
      rw (lt→ltb i 256 h) (keep_one c (modules i) (well i h))

  reset_by_setters_lem :
      (setters : List ℕ) (c : ℕ) (on_ok : Daemon M → Daemon M) (callback : Callback) (d : Daemon M)
      → ((e : Daemon M) → (on_ok e).modules ≡ e.modules)
      → AllWell d.modules
      → member c (output_setters d) ≡ member c setters
      → member c (output_setters (reset_by_setters setters c on_ok callback d)) ≡ false
  unfolding reset_by_setters
  reset_by_setters_lem setters c on_ok callback d keeps well same =
      let reset : Daemon M = record d {
        modules = for_all (on_module (ops.reset_outputs_of_client c)) d.modules;
      } in
      let all_reset : Daemon M = record d {
        modules = for_all (on_module ops.all_outputs_reset) d.modules;
      } in
      elim (Bool-cases (leb 2 (length setters))) [
        | inl two ↦ rw two (
            member-output_setters_of c (on_ok reset) reset (keeps reset)
            ∙ output_setters-Unset c reset (Unset-reset c d.modules well))
        | inr two ↦ elim (Bool-cases (length setters == 1 && member c setters)) [
          | inl one ↦
              rw (two, one)
                (member-output_setters_of c
                    (effect (sent (module_reset_outputs 0) callback) all_reset) all_reset refl
                  ∙ output_setters-Unset c all_reset (Unset-all_reset c d.modules well))
          | inr one ↦
              rw (two, one)
                (member-output_setters_of c (on_ok d) d (keeps d)
                  ∙ same
                  ∙ not_setter c setters two one)
        ]
      ]

  -- When every module is well-formed, a client whose connection ends, and one whose request to reset
  -- its outputs is carried out, is afterwards not among those that have set an output of any module.
  pub client_outputs_gone :
      (c : ℕ) (request : Fields) (d : Daemon M)
      → AllWell d.modules
      → (member c (output_setters (client_gone c d)) ≡ false)
        × (member c (output_setters (cmd_reset_my_outputs c request d)) ≡ false)
  unfolding client_gone server_client_disconnected cmd_reset_my_outputs client_reset_outputs
  client_outputs_gone c request d well = (
    reset_by_setters_lem _ c (λ e. e) gone_outputs_reset _ (λ e. refl)
        (AllWell-client_disconnected c d.modules well) refl,
    reset_by_setters_lem _ c (send c (json_ok_response request)) (client_outputs_reset c request) d
        (λ e. modules-send c (json_ok_response request) e) well refl,
  )
