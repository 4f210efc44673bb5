-- ===== src/Daemon/Subscriptions/Steps.antt =====
-- The requests about subscriptions one by one (src/main.cpp).
use mtb_daemon.Base.{
  ℕ, ◌<◌, ◌≡◌, refl, ap, subst, ◌∙◌, Bool, true, false, Option, none, some, List, ◌==◌, ltb,
  if◌then◌else◌, if_rule, arith, lt→ltb,
}
use mtb_daemon.Json.{Json, Fields, field, array, to_array}
use mtb_daemon.Server.{member, emplace, erase}
use mtb_daemon.Usb.{max_modules}
use mtb_daemon.Daemon.{Daemon, Outcome, returned, threw, for_all, send, send_error}
use mtb_daemon.Daemon.Files.{state}
use mtb_daemon.Daemon.Received.{answer_exception}
use mtb_daemon.Daemon.Subscriptions.{
  Addresses, listed, change_each, tell_subscribes, keep_subscribes, keep_replaced, module_subscribe,
  module_unsubscribe, my_module_subscribes, subscribe_all,
}
use mtb_daemon.Daemon.Subscriptions.Laws.{
  names_address, member-emplace, member-erase, Changed, change_each-Changed, changed_to,
}
use mtb_daemon.Daemon.Subscriptions.Relation.{Wanted, subscribed, unsubscribed, replaced}
use mtb_daemon.Daemon.Subscriptions.Reading.{Means, all_meant, not_read, not_valid, listed_meant}

-- What emplace and erase of `c` do to the membership of `x`.
abbrev pub emplaced : ℕ → ℕ → Bool → Bool
emplaced c x b = if x == c then true else b

abbrev pub erased : ℕ → ℕ → Bool → Bool
erased c x b = if x == c then false else b

pub emplaced_twice : (c x : ℕ) (b : Bool) → emplaced c x (emplaced c x b) ≡ emplaced c x b
emplaced_twice c x b = ground arith

pub erased_twice : (c x : ℕ) (b : Bool) → erased c x (erased c x b) ≡ erased c x b
erased_twice c x b = ground arith

pub member-subscribe_all :
    (c x a : ℕ) (subs : ℕ → List ℕ)
    → a < 256
    → member x (subscribe_all c subs a)
      ≡ (if x == c then (if ltb 0 a then true else member x (subs a)) else member x (subs a))
unfolding subscribe_all
member-subscribe_all c x a subs h =
    let inside : ltb a max_modules ≡ true = lt→ltb a 256 h in
    rw inside (
      if_rule
        (λ ds.
          member x ds
          ≡ (if x == c then (if ltb 0 a then true else member x (subs a)) else member x (subs a)))
        (ltb 0 a) (λ e. rw e (member-emplace x c (subs a))) (λ e. rw e (ground arith)))

pub member-erase_all :
    (c x a : ℕ) (subs : ℕ → List ℕ)
    → a < 256
    → member x (for_all (erase c) subs a) ≡ erased c x (member x (subs a))
member-erase_all c x a subs h =
    let inside : ltb a max_modules ≡ true = lt→ltb a 256 h in rw inside (member-erase x c (subs a))

pub replaced_to :
    (c x a : ℕ) (addrs : List Json) (subs : ℕ → List ℕ)
    → a < 256
    → changed_to x (emplaced c x) addrs (for_all (erase c) subs) a
      ≡ (if x == c then names_address addrs a else member x (subs a))
replaced_to c x a addrs subs h = let gone = member-erase_all c x a subs h in ground (arith, gone)

module _ {M : Type 0} where
  abbrev pub Sub : ℕ → ℕ → Bool → Daemon M → Type 0
  Sub x a b d = member x (d.subscribes a) ≡ b

  pub Sub-send :
      (x a : ℕ) (b : Bool) (c : ℕ) (fs : Fields) (d : Daemon M)
      → Sub x a b d
      → Sub x a b (send c fs d)
  unfolding send
  Sub-send x a b c fs d h = if_rule (Sub x a b) (member c d.clients) (λ _. h) (λ _. h)

  pub Sub-answer_exception :
      (x a : ℕ) (b : Bool) (c : ℕ) (r : Fields) (o : Outcome (Daemon M))
      → Sub x a b (state o)
      → Sub x a b (answer_exception c r o)
  unfolding send_error
  Sub-answer_exception x a b c r (returned d) h = h
  Sub-answer_exception x a b c r (threw d) h = h

  pub Sub-tell_subscribes :
      (x a : ℕ) (b : Bool) (c : ℕ) (fs : Fields) (d : Daemon M)
      → Sub x a b d
      → Sub x a b (tell_subscribes c fs d)
  unfolding tell_subscribes
  Sub-tell_subscribes x a b c fs d h = Sub-send x a b c _ d h

  pub Sub-keep_subscribes :
      (x a c : ℕ) (response : Fields) (addrs : List Json) (o : Option (ℕ → List ℕ)) (d : Daemon M)
      (g : Bool → Bool)
      → Changed x g addrs d.subscribes o
      → Sub x a (changed_to x g addrs d.subscribes a) (state (keep_subscribes c response addrs o d))
  unfolding keep_subscribes
  Sub-keep_subscribes x a c response addrs none d g h = absurd h
  Sub-keep_subscribes x a c response addrs (some new) d g h =
      Sub-send x a (changed_to x g addrs d.subscribes a) c
        (field "addresses" (array (to_array addrs)) response) (record d { subscribes = new }) (h a)

  pub subscribe_lem :
      {o : Addresses} {w : Wanted} (c : ℕ) (response : Fields) (d : Daemon M) (x a : ℕ)
      → a < 256
      → Means o w
      → Sub x a
          (subscribed w c x a (member x (d.subscribes a)))
          (state (module_subscribe o c response d))
  unfolding subscribed module_subscribe
  subscribe_lem c response d x a h all_meant =
      Sub-send x a _ c response (record d { subscribes = subscribe_all c d.subscribes })
        (member-subscribe_all c x a d.subscribes h)
  subscribe_lem c response d x a h not_read = refl
  subscribe_lem c response d x a h not_valid = Sub-send x a _ c _ d refl
  subscribe_lem c response d x a h (listed_meant {addrs} {names} valid same) =
      let was = member x (d.subscribes a) in
      subst
        (λ named.
          Sub x a (if named then emplaced c x was else was)
            (state (module_subscribe (listed addrs) c response d)))
        (same a)
        (Sub-keep_subscribes x a c response addrs (change_each (emplace c) addrs d.subscribes) d
          (emplaced c x)
          (change_each-Changed (emplace c) x (emplaced c x) (member-emplace x c)
            (emplaced_twice c x) addrs d.subscribes valid))

  pub unsubscribe_lem :
      {o : Addresses} {w : Wanted} (c : ℕ) (response : Fields) (d : Daemon M) (x a : ℕ)
      → a < 256
      → Means o w
      → Sub x a
          (unsubscribed w c x a (member x (d.subscribes a)))
          (state (module_unsubscribe o c response d))
  unfolding unsubscribed module_unsubscribe
  unsubscribe_lem c response d x a h all_meant =
      Sub-send x a _ c response (record d { subscribes = for_all (erase c) d.subscribes })
        (member-erase_all c x a d.subscribes h)
  unsubscribe_lem c response d x a h not_read = refl
  unsubscribe_lem c response d x a h not_valid = Sub-send x a _ c _ d refl
  unsubscribe_lem c response d x a h (listed_meant {addrs} {names} valid same) =
      let was = member x (d.subscribes a) in
      subst
        (λ named.
          Sub x a (if named then erased c x was else was)
            (state (module_unsubscribe (listed addrs) c response d)))
        (same a)
        (Sub-keep_subscribes x a c response addrs (change_each (erase c) addrs d.subscribes) d
          (erased c x)
          (change_each-Changed (erase c) x (erased c x) (member-erase x c) (erased_twice c x) addrs
            d.subscribes valid))

  pub Sub-keep_replaced :
      (x a c : ℕ) (response : Fields) (addrs : List Json) (o : Option (ℕ → List ℕ)) (d : Daemon M)
      → Changed x (emplaced c x) addrs (for_all (erase c) d.subscribes) o
      → Sub x a
          (changed_to x (emplaced c x) addrs (for_all (erase c) d.subscribes) a)
          (state (keep_replaced c response o d))
  unfolding keep_replaced
  Sub-keep_replaced x a c response addrs none d h = absurd h
  Sub-keep_replaced x a c response addrs (some new) d h =
      Sub-tell_subscribes x a (changed_to x (emplaced c x) addrs (for_all (erase c) d.subscribes) a)
        c response (record d { subscribes = new }) (h a)

  pub replace_lem :
      {o : Addresses} {w : Wanted} (c : ℕ) (response : Fields) (d : Daemon M) (x a : ℕ)
      → a < 256
      → Means o w
      → Sub x a
          (replaced w c x a (member x (d.subscribes a)))
          (state (my_module_subscribes o c response d))
  unfolding replaced my_module_subscribes
  replace_lem c response d x a h all_meant = Sub-tell_subscribes x a _ c response d refl
  replace_lem c response d x a h not_read = refl
  replace_lem c response d x a h not_valid = Sub-tell_subscribes x a _ c _ d refl
  replace_lem c response d x a h (listed_meant {addrs} {names} valid same) =
      Sub-keep_replaced x a c response addrs
        (change_each (emplace c) addrs (for_all (erase c) d.subscribes)) d
        (change_each-Changed (emplace c) x (emplaced c x) (member-emplace x c) (emplaced_twice c x)
          addrs (for_all (erase c) d.subscribes) valid)
      ∙ replaced_to c x a addrs d.subscribes h
      ∙ ap (λ named. if x == c then named else member x (d.subscribes a)) (same a)
