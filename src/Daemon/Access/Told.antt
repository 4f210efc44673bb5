-- ===== src/Daemon/Access/Told.antt =====
-- Requests that change nothing but subscriptions and send nothing but messages (src/main.cpp).
use mtb_daemon.Base.{
  ℕ, ◌≡◌, refl, ap, false, Option, none, some, List, [], ◌∷◌, ◌++◌, ◌==◌, if_rule, All,
}
use mtb_daemon.Json.{Json, Fields}
use mtb_daemon.Server.{member, emplace, erase}
use mtb_daemon.Server.Error
use mtb_daemon.Daemon.{
  Daemon, effect, Effect, message, message_to_gone, Outcome, returned, threw, send, send_error,
  send_all, for_all,
}
use mtb_daemon.Daemon.Subscriptions.{
  Addresses, all_addresses, malformed, invalid, listed, keep_subscribes, tell_subscribes,
  keep_replaced, module_subscribe, module_unsubscribe, my_module_subscribes, cmd_topo_subscribe,
  cmd_topo_unsubscribe,
}
use mtb_daemon.Daemon.Access.Others.{
  Unchanged, Unchanged-with, change_each-Unchanged, not_emplaced, not_erased, subscribe_all_same,
  erase_all_same,
}
use mtb_daemon.Daemon.Requests.{
  SpeedRequest, bad_speed, no_speed, with_speed, mtbusb_request, ask_speed, send_usb_state,
}
use mtb_daemon.Daemon.Files.{state}
use mtb_daemon.Daemon.Received.{answer_exception}

abbrev pub IsMessage : Effect → Type 0
IsMessage (message c fs) = Unit
IsMessage (message_to_gone c fs) = Unit
IsMessage _ = ⊥

module _ {M : Type 0} where
  -- All but the modules, the subscriptions and what was done stays.
  abbrev pub SameRest : Daemon M → Daemon M → Type 0
  SameRest d e = e ≡ record d {
    modules = e.modules;
    subscribes = e.subscribes;
    topo_subscribes = e.topo_subscribes;
    effects = e.effects;
  }

  -- The subscriptions of clients other than `c` stay.
  abbrev pub OthersKept : ℕ → Daemon M → Daemon M → Type 0
  OthersKept c d e =
      (x : ℕ)
      → (x == c) ≡ false
      → ((a : ℕ) → member x (e.subscribes a) ≡ member x (d.subscribes a))
        × (member x e.topo_subscribes ≡ member x d.topo_subscribes)

-- Nothing but messages and subscriptions of one client.
module _ {M : Type 0} (who : ℕ) where
  pub record OnlyTold (d e : Daemon M) : Type 0 where
    pub same_config : e.config ≡ d.config
    pub same_access : e.write_access ≡ d.write_access
    pub same_modules : e.modules ≡ d.modules
    pub same_rest : SameRest d e
    pub others : OthersKept who d e
    pub told : (new : List Effect) × (e.effects ≡ new ++ d.effects) × All IsMessage new

  pub OnlyTold-refl : (d : Daemon M) → OnlyTold d d
  OnlyTold-refl d = record {
    same_config = refl;
    same_access = refl;
    same_modules = refl;
    same_rest = refl;
    others = λ x h. (λ a. refl, refl);
    told = ([], refl, tt);
  }

  pub OnlyTold-effect :
      (d e : Daemon M) (x : Effect) → IsMessage x → OnlyTold d e → OnlyTold d (effect x e)
  OnlyTold-effect d e x h o = record {
    same_config = o.same_config;
    same_access = o.same_access;
    same_modules = o.same_modules;
    same_rest =
        ap {A = Daemon M} (λ (t : Daemon M). record t { effects = x ∷ e.effects }) o.same_rest;
    others = o.others;
    told = (x ∷ o.told.0, ap (◌∷◌ x) o.told.1, (h, o.told.2));
  }

  pub OnlyTold-send :
      (d e : Daemon M) (c : ℕ) (fs : Fields) → OnlyTold d e → OnlyTold d (send c fs e)
  unfolding send
  OnlyTold-send d e c fs o =
      if_rule (OnlyTold d) (member c e.clients) (λ _. OnlyTold-effect d e (message c fs) tt o)
        (λ _. o)

  pub OnlyTold-send_error :
      (d e : Daemon M) (c : ℕ) (r : Fields) (code : ℕ)
      → OnlyTold d e
      → OnlyTold d (send_error c r code e)
  unfolding send_error
  OnlyTold-send_error d e c r code o =
      OnlyTold-effect d e _ (if_rule IsMessage (member c e.clients) (λ _. tt) (λ _. tt)) o

  pub OnlyTold-send_all :
      (d e : Daemon M) (cs : List ℕ) (fs : Fields) → OnlyTold d e → OnlyTold d (send_all cs fs e)
  unfolding send_all
  OnlyTold-send_all d e [] fs o = o
  OnlyTold-send_all d e (c ∷ cs) fs o =
      OnlyTold-send_all d (send c fs e) cs fs (OnlyTold-send d e c fs o)

  pub OnlyTold-subscribes :
      (d : Daemon M) (subs : ℕ → List ℕ)
      → ((x : ℕ) → (x == who) ≡ false → (a : ℕ) → member x (subs a) ≡ member x (d.subscribes a))
      → OnlyTold d (record d { subscribes = subs })
  OnlyTold-subscribes d subs same = record {
    same_config = refl;
    same_access = refl;
    same_modules = refl;
    same_rest = refl;
    others = λ x h. (same x h, refl);
    told = ([], refl, tt);
  }

  OnlyTold-keep_subscribes :
      (r : Fields) (addrs : List Json) (o : Option (ℕ → List ℕ)) (d : Daemon M)
      → ((x : ℕ) → (x == who) ≡ false → Unchanged x d.subscribes o)
      → OnlyTold d (state (keep_subscribes who r addrs o d))
  unfolding keep_subscribes
  OnlyTold-keep_subscribes r addrs none d h = OnlyTold-refl d
  OnlyTold-keep_subscribes r addrs (some subs) d h =
      OnlyTold-send d (record d { subscribes = subs }) who _ (OnlyTold-subscribes d subs h)

  pub OnlyTold-module_subscribe :
      (o : Addresses) (r : Fields) (d : Daemon M) → OnlyTold d (state (module_subscribe o who r d))
  unfolding module_subscribe
  OnlyTold-module_subscribe all_addresses r d =
      OnlyTold-send d (record d { subscribes = _ }) who r
        (OnlyTold-subscribes d _ (subscribe_all_same who d.subscribes))
  OnlyTold-module_subscribe malformed r d = OnlyTold-refl d
  OnlyTold-module_subscribe invalid r d = OnlyTold-send d d who _ (OnlyTold-refl d)
  OnlyTold-module_subscribe (listed addrs) r d =
      OnlyTold-keep_subscribes r addrs _ d
        (λ x h. change_each-Unchanged (emplace who) x addrs d.subscribes (not_emplaced who x h))

  pub OnlyTold-module_unsubscribe :
      (o : Addresses) (r : Fields) (d : Daemon M)
      → OnlyTold d (state (module_unsubscribe o who r d))
  unfolding module_unsubscribe
  OnlyTold-module_unsubscribe all_addresses r d =
      OnlyTold-send d (record d { subscribes = _ }) who r
        (OnlyTold-subscribes d _ (erase_all_same who d.subscribes))
  OnlyTold-module_unsubscribe malformed r d = OnlyTold-refl d
  OnlyTold-module_unsubscribe invalid r d = OnlyTold-send d d who _ (OnlyTold-refl d)
  OnlyTold-module_unsubscribe (listed addrs) r d =
      OnlyTold-keep_subscribes r addrs _ d
        (λ x h. change_each-Unchanged (erase who) x addrs d.subscribes (not_erased who x h))

  OnlyTold-keep_replaced :
      (r : Fields) (o : Option (ℕ → List ℕ)) (d : Daemon M)
      → ((x : ℕ) → (x == who) ≡ false → Unchanged x d.subscribes o)
      → OnlyTold d (state (keep_replaced who r o d))
  unfolding keep_replaced tell_subscribes
  OnlyTold-keep_replaced r none d h = OnlyTold-subscribes d _ (erase_all_same who d.subscribes)
  OnlyTold-keep_replaced r (some subs) d h =
      OnlyTold-send d (record d { subscribes = subs }) who _ (OnlyTold-subscribes d subs h)

  pub OnlyTold-my_module_subscribes :
      (o : Addresses) (r : Fields) (d : Daemon M)
      → OnlyTold d (state (my_module_subscribes o who r d))
  unfolding my_module_subscribes tell_subscribes
  OnlyTold-my_module_subscribes all_addresses r d = OnlyTold-send d d who _ (OnlyTold-refl d)
  OnlyTold-my_module_subscribes malformed r d = OnlyTold-refl d
  OnlyTold-my_module_subscribes invalid r d = OnlyTold-send d d who _ (OnlyTold-refl d)
  OnlyTold-my_module_subscribes (listed addrs) r d = OnlyTold-keep_replaced r _ d (λ x h.
      Unchanged-with x d.subscribes (for_all (erase who) d.subscribes) _
        (erase_all_same who d.subscribes x h)
        (change_each-Unchanged (emplace who) x addrs (for_all (erase who) d.subscribes)
          (not_emplaced who x h)))

  pub OnlyTold-send_usb_state :
      (c : ℕ) (r : Fields) (d : Daemon M) → OnlyTold d (send_usb_state c r d)
  unfolding send_usb_state
  OnlyTold-send_usb_state c r d = OnlyTold-send d d c _ (OnlyTold-refl d)

  pub OnlyTold-mtbusb_request :
      (s : SpeedRequest) (c : ℕ) (r : Fields) (d : Daemon M)
      → OnlyTold d (state (mtbusb_request s false c r d))
  unfolding mtbusb_request ask_speed
  OnlyTold-mtbusb_request bad_speed c r d = OnlyTold-refl d
  OnlyTold-mtbusb_request no_speed c r d = OnlyTold-send_usb_state c r d
  OnlyTold-mtbusb_request (with_speed json_usb) c r d =
      OnlyTold-send_error d d c r Error.forbidden (OnlyTold-refl d)

  pub OnlyTold-answer_exception :
      (c : ℕ) (r : Fields) (d : Daemon M) (o : Outcome (Daemon M))
      → OnlyTold d (state o)
      → OnlyTold d (answer_exception c r o)
  OnlyTold-answer_exception c r d (returned e) h = h
  OnlyTold-answer_exception c r d (threw e) h = OnlyTold-send_error d e c r Error.invalid_json h

  OnlyTold-topo :
      (d : Daemon M) (fs : Fields) (topo : List ℕ)
      → ((x : ℕ) → (x == who) ≡ false → member x topo ≡ member x d.topo_subscribes)
      → OnlyTold d (send who fs (record d { topo_subscribes = topo }))
  OnlyTold-topo d fs topo same =
      OnlyTold-send d (record d { topo_subscribes = topo }) who fs
        (record {
          same_config = refl;
          same_access = refl;
          same_modules = refl;
          same_rest = refl;
          others = λ x h. (λ a. refl, same x h);
          told = ([], refl, tt);
        })

  pub OnlyTold-cmd_topo_subscribe :
      (r : Fields) (d : Daemon M) → OnlyTold d (cmd_topo_subscribe who r d)
  unfolding cmd_topo_subscribe
  OnlyTold-cmd_topo_subscribe r d =
      OnlyTold-topo d _ _ (λ x h. not_emplaced who x h d.topo_subscribes)

  pub OnlyTold-cmd_topo_unsubscribe :
      (r : Fields) (d : Daemon M) → OnlyTold d (cmd_topo_unsubscribe who r d)
  unfolding cmd_topo_unsubscribe
  OnlyTold-cmd_topo_unsubscribe r d =
      OnlyTold-topo d _ _ (λ x h. not_erased who x h d.topo_subscribes)
