-- ===== src/Uni/Setting/Answers.antt =====
-- How often requests for outputs are answered (src/modules/uni.cpp, jsonSetOutput, mtbBusOutputsSet and
-- mtbBusOutputsNotSet), in any order of requests and answers of the module.
use mtb_daemon.Base.{
  ℕ, ◌+◌, ◌≤◌, ◌≡◌, refl, ◌∙◌, ap, sym, subst, Bool, true, not, Option, none, some, List, [], ◌∷◌,
  ◌++◌, map, is_empty, if◌then◌else◌, if_rule, arith, Option-cases, inl, inr,
}
use mtb_daemon.Cmd.Reply.{in_bootloader}
use mtb_daemon.Uni.{
  IoKind, IoModule, ServerRequest, Effect, answered, refused, outputs_event, effect,
}
use mtb_daemon.Uni.Error
use mtb_daemon.Uni.Setting.{
  Entry, is_some, same_outputs, set_outputs, mtb_bus_outputs_set, mtb_bus_outputs_not_set, validate,
  store_ports, json_set_output,
}
use mtb_daemon.Uni.Setting.Laws.{
  Accepts, messages, mtb_bus_outputs_answered, json_set_output_accepted, store_ports_keeps,
}

-- A request for outputs, and the end of the command in flight.
pub data Step (k : IoKind) : Type 0 where
  asks : ServerRequest → List (Entry k) → Step k
  answers : List ℕ → Step k
  fails : ℕ → Step k

module _ {k : IoKind} where
  unfoldable pub do_step : Step k → IoModule k → IoModule k
  do_step (asks r entries) s = json_set_output r entries s
  do_step (answers bytes) s = mtb_bus_outputs_set bytes s
  do_step (fails error) s = mtb_bus_outputs_not_set error s

  unfoldable pub do_steps : List (Step k) → IoModule k → IoModule k
  unfolding do_step
  do_steps [] s = s
  do_steps (x ∷ steps) s = do_steps steps (do_step x s)

-- Counting the requests that `p` picks out.
module _ (p : ServerRequest → Bool) where
  abbrev pub one : ServerRequest → ℕ
  one r = if p r then 1 else 0

  abbrev pub picked : List ServerRequest → ℕ
  picked [] = 0
  picked (r ∷ rs) = one r + picked rs

  picked-append : (rs qs : List ServerRequest) → picked (rs ++ qs) ≡ picked rs + picked qs
  picked-append [] qs = omega arith
  picked-append (r ∷ rs) qs = omega (arith, picked-append rs qs)

module _ {k : IoKind} (p : ServerRequest → Bool) where
  -- The messages that answer them.
  abbrev pub answered_in : List (Effect k) → ℕ
  answered_in [] = 0
  answered_in (answered r outputs ∷ done) = one p r + answered_in done
  answered_in (refused r error ∷ done) = one p r + answered_in done
  answered_in (_ ∷ done) = answered_in done

  -- The requests of the steps.
  abbrev pub asked_in : List (Step k) → ℕ
  asked_in [] = 0
  asked_in (asks r entries ∷ steps) = one p r + asked_in steps
  asked_in (_ ∷ steps) = asked_in steps

  -- Those that were answered, those of the command in flight and those that wait.
  abbrev pub accounted : IoModule k → ℕ
  accounted s =
      answered_in s.effects + (picked p s.set_outputs_sent + picked p s.set_outputs_waiting)

  answered_in-messages :
      (outputs : List (Option k.Value)) (rs : List ServerRequest) (done : List (Effect k))
      → answered_in (messages (λ r. answered r outputs) rs done) ≡ picked p rs + answered_in done
  answered_in-messages outputs [] done = omega arith
  answered_in-messages outputs (r ∷ rs) done =
      omega (arith, answered_in-messages outputs rs (answered r outputs ∷ done))

  refused_in-messages :
      (error : ℕ) (rs : List ServerRequest) (done : List (Effect k))
      → answered_in (messages (λ r. refused r error) rs done) ≡ picked p rs + answered_in done
  refused_in-messages error [] done = omega arith
  refused_in-messages error (r ∷ rs) done =
      omega (arith, refused_in-messages error rs (refused r error ∷ done))

  -- At most `n` requests are accounted for, and no upgrade is asked for.
  pub record IsBounded (n : ℕ) (s : IoModule k) : Type 0 where
    pub bound : accounted s ≤ n
    pub not_upgrading : s.fw_upgrading ≡ none

  -- The command for the requests that wait, if there are any.
  IsBounded-next :
      (n : ℕ) (t : IoModule k)
      → t.set_outputs_sent ≡ []
      → IsBounded n t
      → IsBounded n (if is_empty t.set_outputs_waiting then t else set_outputs t)
  unfolding set_outputs
  IsBounded-next n t e h =
      let none_sent : picked p t.set_outputs_sent ≡ 0 = rw e refl in
      if_rule (IsBounded n) (is_empty t.set_outputs_waiting) (λ _. h)
        (λ _. record { bound = omega (arith, h.bound, none_sent); not_upgrading = h.not_upgrading })

  answers-IsBounded :
      (n : ℕ) (bytes : List ℕ) (s : IoModule k)
      → IsBounded n s
      → IsBounded n (mtb_bus_outputs_set bytes s)
  answers-IsBounded n bytes s h =
      let outputs = k.outputs_of bytes in
      let counted = answered_in-messages outputs s.set_outputs_sent s.effects in
      let done : IoModule k = record s {
        outputs_confirmed = outputs;
        set_outputs_sent = [];
        effects =
            outputs_event outputs (map (λ r. r.socket) s.set_outputs_sent)
            ∷ messages (λ r. answered r outputs) s.set_outputs_sent s.effects;
      } in
      subst (IsBounded n) (sym (mtb_bus_outputs_answered bytes 0 s h.not_upgrading).0) (
        IsBounded-next n done refl
          (record { bound = omega (arith, counted, h.bound); not_upgrading = h.not_upgrading }))

  fails-IsBounded :
      (n error : ℕ) (s : IoModule k) → IsBounded n s → IsBounded n (mtb_bus_outputs_not_set error s)
  fails-IsBounded n error s h =
      let counted = refused_in-messages error s.set_outputs_sent s.effects in
      let done : IoModule k = record s {
        outputs_confirmed = map some s.outputs_want;
        set_outputs_sent = [];
        effects = messages (λ r. refused r error) s.set_outputs_sent s.effects;
      } in
      subst (IsBounded n) (sym (mtb_bus_outputs_answered [] error s h.not_upgrading).1) (
        IsBounded-next n done refl
          (record { bound = omega (arith, counted, h.bound); not_upgrading = h.not_upgrading }))

  refused-IsBounded :
      (n error : ℕ) (r : ServerRequest) (s : IoModule k)
      → IsBounded n s
      → IsBounded (n + one p r) (effect (refused r error) s)
  refused-IsBounded n error r s h = record {
    bound = omega (arith, h.bound);
    not_upgrading = h.not_upgrading;
  }

  -- A request whose values were stored: it is answered at once, waits, or is sent with those that wait.
  stored-IsBounded :
      (n : ℕ) (r : ServerRequest) (all : List (ℕ × k.Value)) (s : IoModule k)
      → IsBounded n s
      → let stored = store_ports r.socket all all s in
        let waiting = record stored.0 {
          set_outputs_waiting = stored.0.set_outputs_waiting ++ r ∷ [];
        } in
        IsBounded (n + one p r) (
          if stored.1
          then (if same_outputs k s.outputs_want s.outputs_confirmed
              then set_outputs waiting
              else waiting)
          else effect (answered r s.outputs_confirmed) stored.0)
  unfolding set_outputs
  stored-IsBounded n r all s h =
      let t : IoModule k = (store_ports r.socket all all s).0 in
      let kept = store_ports_keeps r.socket all all s in
      let longer = picked-append p t.set_outputs_waiting (r ∷ []) in
      let in_flight : picked p t.set_outputs_sent ≡ picked p s.set_outputs_sent =
        ap (picked p) kept.0 in
      let waits : picked p t.set_outputs_waiting ≡ picked p s.set_outputs_waiting =
        ap (picked p) kept.1 in
      let done : answered_in t.effects ≡ answered_in s.effects = ap answered_in kept.2 in
      let quiet : t.fw_upgrading ≡ none = kept.3 ∙ h.not_upgrading in
      if_rule (IsBounded (n + one p r)) (store_ports r.socket all all s).1
        (λ _.
          if_rule (IsBounded (n + one p r)) (same_outputs k s.outputs_want s.outputs_confirmed)
            (λ _. record {
              bound = omega (arith, longer, in_flight, waits, done, h.bound);
              not_upgrading = quiet;
            })
            (λ _. record {
              bound = omega (arith, longer, in_flight, waits, done, h.bound);
              not_upgrading = quiet;
            }))
        (λ _. record {
          bound = omega (arith, in_flight, waits, done, h.bound);
          not_upgrading = quiet;
        })

  asks-IsBounded :
      (n : ℕ) (r : ServerRequest) (entries : List (Entry k)) (s : IoModule k)
      → IsBounded n s
      → IsBounded (n + one p r) (json_set_output r entries s)
  unfolding json_set_output
  asks-IsBounded n r entries s h =
      let refuse = λ (error : ℕ). refused-IsBounded n error r s h in
      if_rule (IsBounded (n + one p r)) (not s.active) (λ _. refuse Error.failed)
        (λ _.
          if_rule (IsBounded (n + one p r)) (is_some s.fw_upgrading)
            (λ _. refuse Error.upgrading_fw)
            (λ _.
              if_rule (IsBounded (n + one p r)) (in_bootloader s.bus_module_info)
                (λ _. refuse Error.in_bootloader_error)
                (λ _.
                  if_rule (IsBounded (n + one p r)) (is_some s.config_writing)
                    (λ _. refuse Error.config_setting)
                    (λ _. elim (Option-cases (validate k entries)) [
                      | inl e ↦ rw e (refuse Error.invalid_port)
                      | inr (ports, e) ↦ rw e (stored-IsBounded n r ports s h)
                    ]))))

  do_steps-IsBounded :
      (steps : List (Step k)) (n : ℕ) (s : IoModule k)
      → IsBounded n s
      → IsBounded (n + asked_in steps) (do_steps steps s)
  unfolding do_steps do_step
  do_steps-IsBounded [] n s h = record {
    bound = omega (arith, h.bound);
    not_upgrading = h.not_upgrading;
  }
  do_steps-IsBounded (asks r entries ∷ steps) n s h =
      let rest =
        do_steps-IsBounded steps (n + one p r) (json_set_output r entries s)
          (asks-IsBounded n r entries s h) in
      record { bound = omega (arith, rest.bound); not_upgrading = rest.not_upgrading }
  do_steps-IsBounded (answers bytes ∷ steps) n s h =
      do_steps-IsBounded steps n (mtb_bus_outputs_set bytes s) (answers-IsBounded n bytes s h)
  do_steps-IsBounded (fails error ∷ steps) n s h =
      do_steps-IsBounded steps n (mtb_bus_outputs_not_set error s) (fails-IsBounded n error s h)

  -- While no upgrade is asked for, whatever requests for outputs come and however the module answers
  -- the commands, the requests that are picked out are not answered more often than they were asked
  -- for: those answered, those of the command in flight and those that wait are at most those that
  -- there were at the beginning and those asked for since.
  pub do_steps-bounded :
      (steps : List (Step k)) (s : IoModule k)
      → s.fw_upgrading ≡ none
      → accounted (do_steps steps s) ≤ accounted s + asked_in steps
  do_steps-bounded steps s h =
      (do_steps-IsBounded steps (accounted s) s
        (record { bound = omega arith; not_upgrading = h })).bound

  -- When a request that changes an output is accepted while the wanted outputs equal the confirmed
  -- ones, the requests of a command that is still in flight are lost: whatever follows, requests that
  -- neither wait then nor are asked for again are not answered any more.
  pub json_set_output_loses :
      (r : ServerRequest) (entries : List (Entry k)) (ports : List (ℕ × k.Value))
      (steps : List (Step k)) (s : IoModule k)
      → Accepts s
      → validate k entries ≡ some ports
      → (store_ports r.socket ports ports s).1 ≡ true
      → same_outputs k s.outputs_want s.outputs_confirmed ≡ true
      → picked p s.set_outputs_waiting ≡ 0
      → one p r ≡ 0
      → asked_in steps ≡ 0
      → answered_in (do_steps (asks r entries ∷ steps) s).effects ≤ answered_in s.effects
  unfolding do_steps do_step
  json_set_output_loses r entries ports steps s a v c same w o q =
      let t : IoModule k = json_set_output r entries s in
      let accepted = json_set_output_accepted r entries ports s a v c in
      let longer = picked-append p s.set_outputs_waiting (r ∷ []) in
      let sent_now : picked p t.set_outputs_sent ≡ picked p (s.set_outputs_waiting ++ r ∷ []) =
        ap (picked p) (rw same at accepted.0) in
      let none_wait : picked p t.set_outputs_waiting ≡ 0 = ap (picked p) (rw same at accepted.1) in
      let told : answered_in t.effects ≡ answered_in s.effects =
        ap answered_in (rw same at accepted.2) in
      let start : IsBounded (accounted s) s = record {
        bound = omega arith;
        not_upgrading = a.not_upgrading;
      } in
      let left : IsBounded (answered_in s.effects) t = record {
        bound = omega (arith, longer, sent_now, none_wait, told, w, o);
        not_upgrading = (asks-IsBounded (accounted s) r entries s start).not_upgrading;
      } in
      let ends = do_steps-IsBounded steps (answered_in s.effects) t left in
      omega (arith, ends.bound, q)
