-- ===== src/Daemon/Access.antt =====
-- What a client without write access can do (src/main.cpp, serverReceived).
pub mod Others
pub mod Told
use mtb_daemon.Base.{
  ℕ, ◌≡◌, refl, sym, ap, subst, ◌⊎◌, inl, inr, Bool, true, false, ◌||◌, Option, none, some, List,
  [], ◌∷◌, ◌++◌, ◌==◌, if_rule, Bool-cases, Option-cases, All, arith, ==_iff,
}
use mtb_daemon.Common.{is_valid_module_address}
use mtb_daemon.Json.{Json, Fields, get, contains, to_size}
use mtb_daemon.Json.Safe.{safe_string_at}
use mtb_daemon.Server.{member, json_ok_response}
use mtb_daemon.Server.Error
use mtb_daemon.Daemon.{
  Daemon, effect, Effect, message, message_to_gone, Outcome, returned, threw, put, send, send_error,
  send_access_denied, send_all,
}
use mtb_daemon.Daemon.Modules.{ModuleOps}
use mtb_daemon.Daemon.Subscriptions.{
  Addresses, all_addresses, malformed, invalid, listed, addresses_of, keep_subscribes,
  tell_subscribes, keep_replaced, module_subscribe, module_unsubscribe, my_module_subscribes,
  cmd_module_subscribe, cmd_module_unsubscribe, cmd_my_module_subscribes, cmd_topo_subscribe,
  cmd_topo_unsubscribe,
}
use mtb_daemon.Daemon.Requests.{
  SpeedRequest, bad_speed, no_speed, with_speed, mtbusb_request, speed_request, deleted_event,
  ask_speed, cmd_mtbusb, cmd_module, cmd_modules, cmd_module_delete, send_usb_state, store_module,
}
use mtb_daemon.Daemon.Files.{Surroundings, has_write_access, state}
use mtb_daemon.Daemon.Received.{
  Command, mtbusb, version, save_config, load_config, module_state, module_delete, modules,
  module_subscribe as subscribing, module_unsubscribe as unsubscribing,
  my_module_subscribes as replacing, module_set_config, module_specific_command, set_address,
  reset_my_outputs, topology_subscribe, topology_unsubscribe, of_module, unknown, command_of,
  answer_exception, guarded, cmd_version, cmd_of_module, handle, server_received,
}
use mtb_daemon.Daemon.Access.Told.{
  IsMessage, OnlyTold, OnlyTold-refl, OnlyTold-effect, OnlyTold-send, OnlyTold-send_error,
  OnlyTold-send_all, OnlyTold-module_subscribe, OnlyTold-module_unsubscribe,
  OnlyTold-my_module_subscribes, OnlyTold-mtbusb_request, OnlyTold-answer_exception,
  OnlyTold-cmd_topo_subscribe, OnlyTold-cmd_topo_unsubscribe, SameRest, OthersKept,
}

module _ {M : Type 0} ⦃ops : ModuleOps M⦄ where
  neither :
      (m : M)
      → (ops.is_active m || ops.is_activating m) ≡ false
      → (ops.is_active m ≡ false) × (ops.is_activating m ≡ false)
  neither m h = ground (arith, h)

  OnlyTold-cmd_module : (c : ℕ) (r : Fields) (d : Daemon M) → OnlyTold c d (cmd_module c r d)
  unfolding cmd_module
  OnlyTold-cmd_module c r d =
      let addr = to_size (get r "address") in
      elim (Bool-cases (is_valid_module_address addr)) [
        | inr e ↦ rw e (OnlyTold-send c d d c _ (OnlyTold-refl c d))
        | inl e ↦ elim (Option-cases (d.modules addr)) [
          | inl f ↦ rw (e, f) (OnlyTold-send c d d c _ (OnlyTold-refl c d))
          | inr (m, f) ↦ rw (e, f) (OnlyTold-send c d d c _ (OnlyTold-refl c d))
        ]
      ]

  -- What may become of the module at an address: it stays, it is deleted while it is neither active nor
  -- being activated, or it is given the request with the news that the client may not write.
  abbrev pub Kept : ℕ → Fields → Option M → Option M → Type 0
  Kept c r none later = later ≡ none
  Kept c r (some m) later =
      (later ≡ some m)
      ⊎ ((later ≡ none) × (ops.is_active m ≡ false) × (ops.is_activating m ≡ false))
      ⊎ (later ≡ some (state (ops.json_command c r false m)))

  Kept-refl : (c : ℕ) (r : Fields) (o : Option M) → Kept c r o o
  Kept-refl c r none = refl
  Kept-refl c r (some m) = inl refl

  pub record ReadsOnly (c : ℕ) (r : Fields) (d e : Daemon M) : Type 0 where
    pub same_config : e.config ≡ d.config
    pub same_access : e.write_access ≡ d.write_access
    pub same_rest : SameRest d e
    pub others : OthersKept c d e
    pub kept : (a : ℕ) → Kept c r (d.modules a) (e.modules a)
    pub told : (new : List Effect) × (e.effects ≡ new ++ d.effects) × All IsMessage new

  OnlyTold-ReadsOnly : (c : ℕ) (r : Fields) (d e : Daemon M) → OnlyTold c d e → ReadsOnly c r d e
  OnlyTold-ReadsOnly c r d e o = record {
    same_config = o.same_config;
    same_access = o.same_access;
    same_rest = o.same_rest;
    others = o.others;
    kept = λ a.
        subst (λ ms. Kept c r (d.modules a) (ms a)) (sym o.same_modules)
          (Kept-refl c r (d.modules a));
    told = o.told;
  }

  ReadsOnly-modules :
      (c : ℕ) (r : Fields) (d e : Daemon M) (ms : ℕ → Option M)
      → ((a : ℕ) → Kept c r (d.modules a) (ms a))
      → OnlyTold c (record d { modules = ms }) e
      → ReadsOnly c r d e
  ReadsOnly-modules c r d e ms kept o = record {
    same_config = o.same_config;
    same_access = o.same_access;
    same_rest = o.same_rest;
    others = o.others;
    kept = λ a. subst (λ new. Kept c r (d.modules a) (new a)) (sym o.same_modules) (kept a);
    told = o.told;
  }

  Kept-put :
      (c : ℕ) (r : Fields) (addr : ℕ) (later : Option M) (ms : ℕ → Option M)
      → Kept c r (ms addr) later
      → (a : ℕ) → Kept c r (ms a) (put addr later ms a)
  Kept-put c r addr later ms h a = elim (Bool-cases (a == addr)) [
    | inl e ↦ rw e (subst (λ i. Kept c r (ms i) later) (sym ((==_iff a addr).0 e)) h)
    | inr e ↦ rw e (Kept-refl c r (ms a))
  ]

  ReadsOnly-cmd_module_delete :
      (c : ℕ) (r : Fields) (d : Daemon M) → ReadsOnly c r d (cmd_module_delete c r d)
  unfolding cmd_module_delete
  ReadsOnly-cmd_module_delete c r d =
      let addr = to_size (get r "address") in
      let told_only = λ (fs : Fields).
        OnlyTold-ReadsOnly c r d (send c fs d) (OnlyTold-send c d d c fs (OnlyTold-refl c d)) in
      elim (Bool-cases (is_valid_module_address addr)) [
        | inr e ↦ rw e (told_only _)
        | inl e ↦ elim (Option-cases (d.modules addr)) [
          | inl f ↦ rw (e, f) (told_only _)
          | inr (m, f) ↦ elim (Bool-cases (ops.is_active m || ops.is_activating m)) [
            | inl g ↦ rw (e, f, g) (told_only _)
            | inr g ↦
                rw (e, f, g)
                  (let rest : Daemon M = record d { modules = put addr none d.modules } in
                    let idle : Kept c r (d.modules addr) none =
                      rw f (inr (inl (refl, (neither m g).0, (neither m g).1))) in
                    ReadsOnly-modules c r d _ (put addr none d.modules)
                      (Kept-put c r addr none d.modules idle)
                      (OnlyTold-send c rest _ c _ (
                        OnlyTold-send_all c rest rest _ (deleted_event addr)
                          (OnlyTold-refl c rest))))
          ]
        ]
      ]

  OnlyTold-store_module :
      (c : ℕ) (r : Fields) (addr : ℕ) (d : Daemon M) (o : Outcome M)
      → OnlyTold c
          (record d { modules = put addr (some (state o)) d.modules })
          (answer_exception c r (store_module addr d o))
  OnlyTold-store_module c r addr d (returned m) = OnlyTold-refl c _
  OnlyTold-store_module c r addr d (threw m) = OnlyTold-send_error c _ _ c r _ (OnlyTold-refl c _)

  ReadsOnly-cmd_of_module :
      (c : ℕ) (r : Fields) (d : Daemon M)
      → ReadsOnly c r d (answer_exception c r (cmd_of_module false c r d))
  unfolding cmd_of_module
  ReadsOnly-cmd_of_module c r d =
      let addr = to_size (get r "address") in
      let refused =
        OnlyTold-ReadsOnly c r d (send_error c r Error.module_invalid_addr d)
          (OnlyTold-send_error c d d c r Error.module_invalid_addr (OnlyTold-refl c d)) in
      elim (Bool-cases (is_valid_module_address addr)) [
        | inr e ↦ rw e refused
        | inl e ↦ elim (Option-cases (d.modules addr)) [
          | inl f ↦ rw (e, f) refused
          | inr (m, f) ↦
              rw (e, f)
                (let outcome = ops.json_command c r false m in
                  let given : Kept c r (d.modules addr) (some (state outcome)) =
                    rw f (inr (inr refl)) in
                  ReadsOnly-modules c r d _ _
                    (Kept-put c r addr (some (state outcome)) d.modules given)
                    (OnlyTold-store_module c r addr d outcome))
        ]
      ]

  ReadsOnly-told :
      (c : ℕ) (r : Fields) (d : Daemon M) (o : Outcome (Daemon M))
      → OnlyTold c d (state o)
      → ReadsOnly c r d (answer_exception c r o)
  ReadsOnly-told c r d o h = OnlyTold-ReadsOnly c r d _ (OnlyTold-answer_exception c c r d o h)

  ReadsOnly-guarded :
      (write_access : Bool) (c : ℕ) (r : Fields) (d : Daemon M) (o : Outcome (Daemon M))
      → write_access ≡ false
      → ReadsOnly c r d (answer_exception c r (guarded write_access c r d o))
  unfolding send_access_denied
  ReadsOnly-guarded true c r d o h = absurd (cc)
  ReadsOnly-guarded false c r d o h =
      ReadsOnly-told c r d (returned (send_access_denied c r d))
        (OnlyTold-send_error c d d c r Error.forbidden (OnlyTold-refl c d))

  ReadsOnly-handle :
      (command : Command) (around : Surroundings) (c : ℕ) (r : Fields) (d : Daemon M)
      → has_write_access around c d ≡ false
      → ReadsOnly c r d (answer_exception c r (handle command around c r d))
  unfolding handle cmd_mtbusb cmd_version cmd_modules cmd_module_subscribe cmd_module_unsubscribe
      cmd_my_module_subscribes cmd_topo_subscribe cmd_topo_unsubscribe
  ReadsOnly-handle mtbusb around c r d h = rw h (
      ReadsOnly-told c r d (cmd_mtbusb false c r d)
        (OnlyTold-mtbusb_request c (speed_request r) c r d))
  ReadsOnly-handle version around c r d h =
      ReadsOnly-told c r d (returned (cmd_version around c r d))
        (OnlyTold-send c d d c _ (OnlyTold-refl c d))
  ReadsOnly-handle save_config around c r d h = ReadsOnly-guarded _ c r d _ h
  ReadsOnly-handle load_config around c r d h = ReadsOnly-guarded _ c r d _ h
  ReadsOnly-handle module_state around c r d h =
      ReadsOnly-told c r d (returned (cmd_module c r d)) (OnlyTold-cmd_module c r d)
  ReadsOnly-handle module_delete around c r d h = ReadsOnly-cmd_module_delete c r d
  ReadsOnly-handle modules around c r d h =
      ReadsOnly-told c r d (returned (cmd_modules around.int_to_text c r d))
        (OnlyTold-send c d d c _ (OnlyTold-refl c d))
  ReadsOnly-handle subscribing around c r d h =
      ReadsOnly-told c r d (module_subscribe (addresses_of r) c (json_ok_response r) d)
        (OnlyTold-module_subscribe c (addresses_of r) (json_ok_response r) d)
  ReadsOnly-handle unsubscribing around c r d h =
      ReadsOnly-told c r d (module_unsubscribe (addresses_of r) c (json_ok_response r) d)
        (OnlyTold-module_unsubscribe c (addresses_of r) (json_ok_response r) d)
  ReadsOnly-handle replacing around c r d h =
      ReadsOnly-told c r d (my_module_subscribes (addresses_of r) c (json_ok_response r) d)
        (OnlyTold-my_module_subscribes c (addresses_of r) (json_ok_response r) d)
  ReadsOnly-handle module_set_config around c r d h = ReadsOnly-guarded _ c r d _ h
  ReadsOnly-handle module_specific_command around c r d h = ReadsOnly-guarded _ c r d _ h
  ReadsOnly-handle set_address around c r d h = ReadsOnly-guarded _ c r d _ h
  ReadsOnly-handle reset_my_outputs around c r d h = ReadsOnly-guarded _ c r d _ h
  ReadsOnly-handle topology_subscribe around c r d h =
      ReadsOnly-told c r d (returned (cmd_topo_subscribe c r d)) (OnlyTold-cmd_topo_subscribe c r d)
  ReadsOnly-handle topology_unsubscribe around c r d h =
      ReadsOnly-told c r d (returned (cmd_topo_unsubscribe c r d))
        (OnlyTold-cmd_topo_unsubscribe c r d)
  ReadsOnly-handle of_module around c r d h = rw h (ReadsOnly-cmd_of_module c r d)
  ReadsOnly-handle unknown around c r d h =
      ReadsOnly-told c r d (returned (send_error c r Error.unknown_command d))
        (OnlyTold-send_error c d d c r Error.unknown_command (OnlyTold-refl c d))

  -- Whatever a client without write access asks for, all of the daemon stays as it is but its modules,
  -- the subscriptions of this client and the effects; the effects that are added are messages; and
  -- each module stays, or is deleted while it is neither active nor being activated, or is given the
  -- request, as one of a client that may not write.
  pub server_received-ReadsOnly :
      (around : Surroundings) (c : ℕ) (r : Fields) (d : Daemon M)
      → has_write_access around c d ≡ false
      → ReadsOnly c r d (server_received around c r d)
  unfolding server_received
  server_received-ReadsOnly around c r d h = elim (Bool-cases (contains r "command")) [
    | inr e ↦ rw e (OnlyTold-ReadsOnly c r d d (OnlyTold-refl c d))
    | inl e ↦ elim (Option-cases (safe_string_at r "command")) [
      | inl f ↦ rw (e, f) (ReadsOnly-told c r d (threw d) (OnlyTold-refl c d))
      | inr (text, f) ↦ rw (e, f) (ReadsOnly-handle (command_of text) around c r d h)
    ]
  ]
