-- ===== src/Module/Reading.antt =====
-- What a client without write access can do with a module (jsonCommand of src/modules/module.cpp).
use Prim.Native.String.{String}
use text.Mathlib.Text.{◌==◌ as str_eq}
use mtb_daemon.Base.{ℕ, ◌%◌, ◌≡◌, refl, ◌⊎◌, inl, inr, Bool, false, Option, if_rule, Option-cases}
use mtb_daemon.Cmd.{module_get_diag_value}
use mtb_daemon.Json.{Fields, get, contains, to_string}
use mtb_daemon.Json.Safe.{safe_uint_at, safe_string_at}
use mtb_daemon.Daemon.Files.{state}
use mtb_daemon.Uni.{IoKind, IoModule, Effect, sent, request_refused, effect, diag_got}
use mtb_daemon.Module.Requests.{Virtuals, json_get_diag, json_command}

module _ {k : IoKind} where
  -- A refusal, or the command for a diagnostic value of the module, for this request.
  abbrev pub IsAsking : ℕ → Fields → ℕ → Effect k → Type 0
  IsAsking socket request address e =
      ((code : ℕ) × (e ≡ request_refused socket request code))
      ⊎ ((dv : ℕ) × (e ≡ sent (module_get_diag_value address dv) (diag_got socket request)))

  abbrev pub OnlyAsks : ℕ → Fields → IoModule k → IoModule k → Type 0
  OnlyAsks socket request s t =
      (t ≡ s) ⊎ ((e : Effect k) × (t ≡ effect e s) × IsAsking socket request s.address e)

  asked :
      (socket : ℕ) (request : Fields) (dv : ℕ) (s : IoModule k)
      → OnlyAsks socket request s
          (effect (sent (module_get_diag_value s.address dv) (diag_got socket request)) s)
  asked socket request dv s = inr (_, refl, inr (dv, refl))

  was_refused :
      (socket : ℕ) (request : Fields) (code : ℕ) (s : IoModule k)
      → OnlyAsks socket request s (effect (request_refused socket request code) s)
  was_refused socket request code s = inr (_, refl, inl (code, refl))

  json_get_diag-OnlyAsks :
      (str_to_dv : String → Option ℕ) (socket : ℕ) (request : Fields) (s : IoModule k)
      → OnlyAsks socket request s (state (json_get_diag str_to_dv socket request s))
  unfolding json_get_diag
  json_get_diag-OnlyAsks str_to_dv socket request s =
      if_rule (λ o. OnlyAsks socket request s (state o)) (contains request "DVnum")
        (λ _. elim (Option-cases (safe_uint_at request "DVnum")) [
          | inl e ↦ rw e (inl refl)
          | inr (dv, e) ↦ rw e (asked socket request (dv % 256) s)
        ])
        (λ _. elim (Option-cases (str_to_dv (to_string (get request "DVkey")))) [
          | inl e ↦ rw e (was_refused socket request _ s)
          | inr (dv, e) ↦ rw e (asked socket request dv s)
        ])

  -- A request of a client without write access leaves a module as it is, but for one command that
  -- asks for a diagnostic value or one refusal.
  pub json_command-OnlyAsks :
      (virtuals : Virtuals k) (active_at : ℕ → Bool) (socket : ℕ) (request : Fields)
      (s : IoModule k)
      → OnlyAsks socket request s (state (json_command virtuals active_at socket request false s))
  unfolding json_command
  json_command-OnlyAsks virtuals active_at socket request s =
      elim (Option-cases (safe_string_at request "command")) [
        | inl e ↦ rw (e, state) (inl refl)
        | inr (command, e) ↦
            rw (e, state)
              (if_rule (λ o. OnlyAsks socket request s (state o)) (str_eq command "module_diag")
                (λ _. json_get_diag-OnlyAsks virtuals.str_to_dv socket request s)
                (λ _. was_refused socket request _ s))
      ]
