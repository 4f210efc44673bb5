-- ===== src/Daemon/Answers.antt =====
-- How often the daemon answers a request (src/main.cpp): a message to the client, or a command to
-- MTB-USB whose callbacks answer it.
pub mod Requests
pub mod Laws
pub mod Files
use mtb_daemon.Base.{
  ℕ, zero, suc, ◌≡◌, refl, ap, ◌∙◌, Bool, true, false, List, [], ◌∷◌, ◌==◌, if◌then◌else◌, if_rule,
  Bool-cases, inl, inr, arith,
}
use mtb_daemon.Json.{Fields}
use mtb_daemon.Server.{member}
use mtb_daemon.Server.Error
use mtb_daemon.Daemon.{
  Daemon, Effect, message, message_to_gone, sent, speed_change, Callback, client_speed_set,
  specific_answered, specific_broadcast, address_changed, client_outputs_reset, Outcome, returned,
  threw, effect, send, send_error, send_all,
}
use mtb_daemon.Daemon.Requests.{others}
use mtb_daemon.Daemon.Files.{state}
use mtb_daemon.Daemon.Received.{Command, module_set_config, of_module, answer_exception}

-- The commands that the daemon itself answers; the others are given to a module.
abbrev pub is_daemons : Command → Bool
is_daemons module_set_config = false
is_daemons of_module = false
is_daemons _ = true

-- Whether the callbacks of a command answer a client.
abbrev pub answers_to : ℕ → Callback → Bool
answers_to c (client_speed_set x r) = x == c
answers_to c (specific_answered x r) = x == c
answers_to c (specific_broadcast x r) = x == c
answers_to c (address_changed x r) = x == c
answers_to c (client_outputs_reset x r) = x == c
answers_to c _ = false

-- The messages to a client, with those that it is still owed.
unfoldable pub answers : ℕ → List Effect → ℕ
answers c [] = 0
answers c (message x fs ∷ es) = let rest = answers c es in if x == c then suc rest else rest
answers c (message_to_gone x fs ∷ es) = let rest = answers c es in if x == c then suc rest else rest
answers c (sent body k ∷ es) = let rest = answers c es in if answers_to c k then suc rest else rest
answers c (speed_change v k ∷ es) =
    let rest = answers c es in if answers_to c k then suc rest else rest
answers c (e ∷ es) = answers c es

pub same_number : (c : ℕ) → (c == c) ≡ true
same_number c = ground arith

module _ {M : Type 0} where
  abbrev pub Answered : ℕ → Daemon M → Daemon M → Type 0
  Answered c d e = answers c e.effects ≡ suc (answers c d.effects)

  abbrev pub Quiet : ℕ → Daemon M → Daemon M → Type 0
  Quiet c d e = (answers c e.effects ≡ answers c d.effects) × (e.clients ≡ d.clients)

  -- An outcome that leads to one answer.
  abbrev pub Done : ℕ → Daemon M → Outcome (Daemon M) → Type 0
  Done c d (returned e) = Answered c d e
  Done c d (threw e) = Quiet c d e

  pub Quiet-refl : (c : ℕ) (d : Daemon M) → Quiet c d d
  Quiet-refl c d = (refl, refl)

  pub Answered-send :
      (c : ℕ) (d e : Daemon M) (fs : Fields)
      → member c d.clients ≡ true
      → Quiet c d e
      → Answered c d (send c fs e)
  unfolding send answers
  Answered-send c d e fs h q =
      let there : member c e.clients ≡ true = ap (member c) q.1 ∙ h in
      rw (there, same_number c) (ap suc q.0)

  pub Answered-send_error :
      (c : ℕ) (d e : Daemon M) (r : Fields) (code : ℕ)
      → Quiet c d e
      → Answered c d (send_error c r code e)
  unfolding send_error answers
  Answered-send_error c d e r code q = elim (Bool-cases (member c e.clients)) [
    | inl h ↦ rw (h, same_number c) (ap suc q.0)
    | inr h ↦ rw (h, same_number c) (ap suc q.0)
  ]

  pub Answered-answer_exception :
      (c : ℕ) (d : Daemon M) (r : Fields) (o : Outcome (Daemon M))
      → Done c d o
      → Answered c d (answer_exception c r o)
  Answered-answer_exception c d r (returned e) h = h
  Answered-answer_exception c d r (threw e) h = Answered-send_error c d e r Error.invalid_json h

  Quiet-send_other :
      (c x : ℕ) (d e : Daemon M) (fs : Fields)
      → (x == c) ≡ false
      → Quiet c d e
      → Quiet c d (send x fs e)
  unfolding send answers
  Quiet-send_other c x d e fs h q =
      if_rule (Quiet c d) (member x e.clients) (λ _. (rw h q.0, q.1)) (λ _. q)

  -- Messages to all clients but one.
  pub Quiet-send_all :
      (c : ℕ) (cs : List ℕ) (d e : Daemon M) (fs : Fields)
      → Quiet c d e
      → Quiet c d (send_all (others c cs) fs e)
  unfolding send_all others
  Quiet-send_all c [] d e fs q = q
  Quiet-send_all c (x ∷ cs) d e fs q = elim (Bool-cases (c == x)) [
    | inl h ↦ rw h (Quiet-send_all c cs d e fs q)
    | inr h ↦
        rw h (
          Quiet-send_all c cs d (send x fs e) fs
            (Quiet-send_other c x d e fs (ground (arith, h)) q))
  ]
