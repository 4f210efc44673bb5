-- ===== src/Daemon/Subscriptions/Refinement.antt =====
-- The sets of subscribers as a relation (src/main.cpp).
use mtb_daemon.Base.{
  ℕ, ◌<◌, ◌≡◌, refl, ap, ◌∙◌, Bool, List, [], ◌∷◌, ◌==◌, ◌&&◌, leb, length, Bool-cases, inl, inr,
}
use mtb_daemon.Server.{member, erase, json_ok_response}
use mtb_daemon.Daemon.{Callback, gone_outputs_reset, Daemon, for_all, send_error}
use mtb_daemon.Daemon.Modules.{ModuleOps}
use mtb_daemon.Daemon.Outputs.{
  on_module, reset_by_setters, client_gone, server_client_disconnected, client_reset_outputs,
}
use mtb_daemon.Daemon.Received.{answer_exception}
use mtb_daemon.Daemon.Subscriptions.{
  cmd_module_subscribe, cmd_module_unsubscribe, cmd_my_module_subscribes,
}
use mtb_daemon.Daemon.Subscriptions.Relation.{
  Step, subscribes, unsubscribes, replaces, leaves, subscribed_after, subscribed_after_all,
}
use mtb_daemon.Daemon.Subscriptions.Reading.{addresses_of-Means}
use mtb_daemon.Daemon.Subscriptions.Steps.{
  erased, member-erase_all, Sub, Sub-answer_exception, subscribe_lem, unsubscribe_lem, replace_lem,
}

module _ {M : Type 0} ⦃ops : ModuleOps M⦄ where
  -- The daemon's steps.
  unfoldable pub do_step : Step → Daemon M → Daemon M
  unfolding cmd_module_subscribe cmd_module_unsubscribe cmd_my_module_subscribes client_gone
      send_error
  do_step (subscribes c request) d = answer_exception c request (cmd_module_subscribe c request d)
  do_step (unsubscribes c request) d =
      answer_exception c request (cmd_module_unsubscribe c request d)
  do_step (replaces c request) d = answer_exception c request (cmd_my_module_subscribes c request d)
  do_step (leaves c) d = client_gone c d

  unfoldable pub do_steps : List Step → Daemon M → Daemon M
  unfolding do_step
  do_steps [] d = d
  do_steps (s ∷ steps) d = do_steps steps (do_step s d)

module _ {M : Type 0} ⦃ops : ModuleOps M⦄ where
  Sub-reset_by_setters :
      (x a : ℕ) (b : Bool) (setters : List ℕ) (c : ℕ) (callback : Callback) (d : Daemon M)
      → Sub x a b d
      → Sub x a b (reset_by_setters setters c (λ e. e) callback d)
  unfolding reset_by_setters
  Sub-reset_by_setters x a b setters c callback d h = elim (Bool-cases (leb 2 (length setters))) [
    | inl two ↦ rw two h
    | inr two ↦ elim (Bool-cases (length setters == 1 && member c setters)) [
      | inl one ↦ rw (two, one) h
      | inr one ↦ rw (two, one) h
    ]
  ]

  Sub-client_gone :
      (x a : ℕ) (c : ℕ) (d : Daemon M)
      → a < 256
      → Sub x a (erased c x (member x (d.subscribes a))) (client_gone c d)
  unfolding client_gone server_client_disconnected client_reset_outputs
  Sub-client_gone x a c d h =
      Sub-reset_by_setters x a _ _ c gone_outputs_reset
        (record d {
          clients = erase c d.clients;
          subscribes = for_all (erase c) d.subscribes;
          modules = for_all (on_module (ops.client_disconnected c)) d.modules;
          topo_subscribes = erase c d.topo_subscribes;
        })
        (member-erase_all c x a d.subscribes h)

  do_step_lem :
      (s : Step) (d : Daemon M) (x a : ℕ)
      → a < 256
      → member x ((do_step s d).subscribes a) ≡ subscribed_after s x a (member x (d.subscribes a))
  unfolding do_step subscribed_after cmd_module_subscribe cmd_module_unsubscribe
      cmd_my_module_subscribes
  do_step_lem (subscribes c request) d x a h =
      Sub-answer_exception x a _ c request (cmd_module_subscribe c request d)
        (subscribe_lem c (json_ok_response request) d x a h (addresses_of-Means request))
  do_step_lem (unsubscribes c request) d x a h =
      Sub-answer_exception x a _ c request (cmd_module_unsubscribe c request d)
        (unsubscribe_lem c (json_ok_response request) d x a h (addresses_of-Means request))
  do_step_lem (replaces c request) d x a h =
      Sub-answer_exception x a _ c request (cmd_my_module_subscribes c request d)
        (replace_lem c (json_ok_response request) d x a h (addresses_of-Means request))
  do_step_lem (leaves c) d x a h = Sub-client_gone x a c d h

  -- After any sequence of requests about subscriptions and of clients that leave, from any state,
  -- a client is subscribed to an address below 256 exactly when the relation says so. A request
  -- to subscribe or to unsubscribe that has no "addresses" is about all of them, but for address 0 when
  -- subscribing; a request to replace the subscriptions that has none changes nothing; nor does one
  -- in which "addresses" is no array or has an entry that is no whole number from 1 to 255; and a
  -- client that leaves has no subscription left.
  pub do_steps_refines :
      (steps : List Step) (d : Daemon M) (x a : ℕ)
      → a < 256
      → member x ((do_steps steps d).subscribes a)
        ≡ subscribed_after_all steps x a (member x (d.subscribes a))
  unfolding do_steps subscribed_after_all
  do_steps_refines [] d x a h = refl
  do_steps_refines (s ∷ steps) d x a h =
      do_steps_refines steps (do_step s d) x a h
      ∙ ap (subscribed_after_all steps x a) (do_step_lem s d x a h)
