-- ===== src/Uni/Setting/Laws.antt =====
-- Requests for outputs and for upgrades (src/modules/uni.cpp): which are sent, answered or wait.
use mtb_daemon.Base.{
  ◌≡◌, refl, ◌∙◌, ap, Bool, true, false, Option, none, some, List, [], ◌∷◌, ◌++◌, map, is_empty,
  if◌then◌else◌, if_rule, get_or, ℕ, Bool-cases, inl, inr,
}
use mtb_daemon.Cmd.{module_set_output}
use mtb_daemon.Cmd.Reply.{in_bootloader}
use mtb_daemon.Uni.{
  IoKind, IoModule, ServerRequest, Effect, sent, answered, refused, outputs_event, effect,
  outputs_set,
}
use mtb_daemon.Uni.Error
use mtb_daemon.Uni.Setting.{
  Entry, is_some, same_outputs, set_outputs, send_next_outputs, answer_all, mtb_bus_outputs_set,
  mtb_bus_outputs_not_set, validate, port_value, store_ports, json_set_output, json_upgrade_fw,
}

module _ {k : IoKind} where
  -- The messages for requests in the order in which they are sent, the latest first.
  abbrev pub messages :
      (ServerRequest → Effect k) → List ServerRequest → List (Effect k) → List (Effect k)
  messages f [] done = done
  messages f (r ∷ rs) done = messages f rs (f r ∷ done)

  answer_all-effects :
      (f : ServerRequest → Effect k) (rs : List ServerRequest) (s : IoModule k)
      → answer_all (λ r. effect (f r)) rs s ≡ record s { effects = messages f rs s.effects }
  unfolding answer_all
  answer_all-effects f [] s = refl
  answer_all-effects f (r ∷ rs) s = answer_all-effects f rs (effect (f r) s)

  send_next_outputs_only :
      (s : IoModule k)
      → s.fw_upgrading ≡ none
      → send_next_outputs s ≡ (if is_empty s.set_outputs_waiting then s else set_outputs s)
  unfolding send_next_outputs is_some
  send_next_outputs_only s h = rw h refl

  -- When the module answers the command for outputs while no upgrade is asked for, each request that
  -- the command was sent for is answered once, in order, with the outputs of the answer (or, when the
  -- command fails, refused with the error and the outputs taken as wanted), the other clients are told
  -- of the new outputs, and the requests that wait are sent together in one command, if there are any.
  pub mtb_bus_outputs_answered :
      (bytes : List ℕ) (error : ℕ) (s : IoModule k)
      → s.fw_upgrading ≡ none
      → let outputs = k.outputs_of bytes in
        let next =
          λ (t : IoModule k). if is_empty t.set_outputs_waiting then t else set_outputs t in
        (mtb_bus_outputs_set bytes s
          ≡ next (record s {
            outputs_confirmed = outputs;
            set_outputs_sent = [];
            effects =
                outputs_event outputs (map (λ r. r.socket) s.set_outputs_sent)
                ∷ messages (λ r. answered r outputs) s.set_outputs_sent s.effects;
          }))
        × (mtb_bus_outputs_not_set error s
            ≡ next (record s {
              outputs_confirmed = map some s.outputs_want;
              set_outputs_sent = [];
              effects = messages (λ r. refused r error) s.set_outputs_sent s.effects;
            }))
  unfolding mtb_bus_outputs_set mtb_bus_outputs_not_set
  mtb_bus_outputs_answered bytes error s h =
      let outputs = k.outputs_of bytes in
      let told : Effect k = outputs_event outputs (map (λ r. r.socket) s.set_outputs_sent) in
      let set : IoModule k = record s { outputs_confirmed = outputs; set_outputs_sent = [] } in
      let not_set : IoModule k = record s {
        outputs_confirmed = map some s.outputs_want;
        set_outputs_sent = [];
      } in
      let done = answer_all-effects (λ r. answered r outputs) s.set_outputs_sent set in
      let failed = answer_all-effects (λ r. refused r error) s.set_outputs_sent not_set in
      (
        ap (λ t. send_next_outputs (effect told t)) done
            ∙ send_next_outputs_only
                (record set {
                  effects = told ∷ messages (λ r. answered r outputs) s.set_outputs_sent s.effects;
                })
                h,
        ap send_next_outputs failed
            ∙ send_next_outputs_only
                (record not_set {
                  effects = messages (λ r. refused r error) s.set_outputs_sent s.effects;
                })
                h,
      )

  pub store_ports_keeps :
      (socket : Option ℕ) (all ports : List (ℕ × k.Value)) (s : IoModule k)
      → let t = (store_ports socket all ports s).0 in
        (t.set_outputs_sent ≡ s.set_outputs_sent)
        × (t.set_outputs_waiting ≡ s.set_outputs_waiting)
        × (t.effects ≡ s.effects)
        × (t.fw_upgrading ≡ s.fw_upgrading)
  unfolding store_ports
  store_ports_keeps socket all [] s = (refl, refl, refl, refl)
  store_ports_keeps socket all ((port, b) ∷ rest) s =
      if_rule
        (λ (p : IoModule k × Bool).
          (p.0.set_outputs_sent ≡ s.set_outputs_sent)
          × (p.0.set_outputs_waiting ≡ s.set_outputs_waiting)
          × (p.0.effects ≡ s.effects)
          × (p.0.fw_upgrading ≡ s.fw_upgrading))
        (k.same_value (port_value port b all) (get_or s.outputs_want port k.off))
        (λ _. store_ports_keeps socket all rest s) (λ _. store_ports_keeps socket all rest _)

  -- The conditions under which a request for outputs is accepted.
  pub record Accepts (s : IoModule k) : Type 0 where
    pub active : s.active ≡ true
    pub not_upgrading : s.fw_upgrading ≡ none
    pub in_operation : in_bootloader s.bus_module_info ≡ false
    pub not_writing : s.config_writing ≡ none

  -- A request that changes an output of a module that accepts requests waits if the wanted outputs
  -- differ from the confirmed ones, even when no command is in flight; if they are equal, it is sent
  -- at once with those that wait, and takes the place of the requests of a command still in flight,
  -- for which no message has been sent.
  pub json_set_output_accepted :
      (r : ServerRequest) (entries : List (Entry k)) (ports : List (ℕ × k.Value)) (s : IoModule k)
      → Accepts s
      → validate k entries ≡ some ports
      → (store_ports r.socket ports ports s).1 ≡ true
      → let t = json_set_output r entries s in
        let send = same_outputs k s.outputs_want s.outputs_confirmed in
        let new = s.set_outputs_waiting ++ r ∷ [] in
        (t.set_outputs_sent ≡ (if send then new else s.set_outputs_sent))
        × (t.set_outputs_waiting ≡ (if send then [] else new))
        × (t.effects ≡ (
            if send
            then sent (module_set_output t.address (k.outputs_data t.outputs_want)) outputs_set
              ∷ s.effects
            else s.effects))
  unfolding json_set_output set_outputs is_some
  json_set_output_accepted r entries ports s h v c =
      let stored = (store_ports r.socket ports ports s).0 in
      let command : Effect k =
        sent (module_set_output stored.address (k.outputs_data stored.outputs_want)) outputs_set in
      let kept = store_ports_keeps r.socket ports ports s in
      rw (h.active, h.not_upgrading, h.in_operation, h.not_writing, v, c)
        (elim (Bool-cases (same_outputs k s.outputs_want s.outputs_confirmed)) [
          | inl q ↦ rw q (ap (λ w. w ++ r ∷ []) kept.1, refl, ap (◌∷◌ command) kept.2)
          | inr q ↦ rw q (kept.0, ap (λ w. w ++ r ∷ []) kept.1, kept.2)
        ])

  -- A request for an upgrade of an active module that is not being upgraded, whose firmware cannot
  -- be read, is not answered by the module, and in the state that it leaves every request for an
  -- upgrade and every request for outputs is refused.
  pub json_upgrade_fw_locks :
      (r other : ServerRequest) (firmware : Option (List (ℕ × List ℕ))) (entries : List (Entry k))
      (s : IoModule k)
      → s.fw_upgrading ≡ none
      → s.active ≡ true
      → let locked = json_upgrade_fw r none s in
        (locked.effects ≡ s.effects)
        × (json_upgrade_fw other firmware locked ≡ effect (refused other Error.upgrading_fw) locked)
        × (json_set_output other entries locked ≡ effect (refused other Error.upgrading_fw) locked)
  unfolding json_upgrade_fw json_set_output is_some
  json_upgrade_fw_locks r other firmware entries s h a = rw (h, a) (refl, refl, refl)
