-- ===== src/Daemon/Lines/Laws.antt =====
-- src/server.cpp, src/main.cpp: what the lines of a client without write access can do.
use mathlib.Core.List.{append_assoc}
use mtb_daemon.Base.{
  ℕ, ◌≡◌, refl, sym, ap, subst, ◌∙◌, inl, inr, false, Option, none, some, List, [], ◌∷◌, ◌++◌, All,
  All-append,
}
use mtb_daemon.Json.{Fields}
use mtb_daemon.Daemon.{Daemon, Effect}
use mtb_daemon.Daemon.Modules.{ModuleOps}
use mtb_daemon.Daemon.Files.{Surroundings, has_write_access, has_text, state}
use mtb_daemon.Daemon.Received.{server_received}
use mtb_daemon.Daemon.Access.{Kept, ReadsOnly, server_received-ReadsOnly}
use mtb_daemon.Daemon.Access.Told.{IsMessage, SameRest, OthersKept}
use mtb_daemon.Daemon.Lines.{Line, blank, no_json, request, client_ready_read}

module _ {M : Type 0} ⦃ops : ModuleOps M⦄ where
  -- What the requests of client `c` without write access make of the module at an address: it stays,
  -- it is deleted while it is neither active nor being activated, or it is given a request, as one of
  -- a client that may not write, and so on.
  pub data Asked (c : ℕ) : Option M → Option M → Type 0 where
    stays : {o : Option M} → Asked c o o
    deleted :
        {m : M} → ops.is_active m ≡ false → ops.is_activating m ≡ false → Asked c (some m) none
    asked :
        {m : M} {later : Option M} (r : Fields)
        → Asked c (some (state (ops.json_command c r false m))) later
        → Asked c (some m) later

  Asked-trans : {c : ℕ} {o p q : Option M} → Asked c o p → Asked c p q → Asked c o q
  Asked-trans stays h = h
  Asked-trans (deleted a b) stays = deleted a b
  Asked-trans (asked r g) h = asked r (Asked-trans g h)

  Kept-Asked : (c : ℕ) (r : Fields) (o later : Option M) → Kept c r o later → Asked c o later
  Kept-Asked c r none later h = subst (Asked c none) (sym h) stays
  Kept-Asked c r (some m) later (inl h) = subst (Asked c (some m)) (sym h) stays
  Kept-Asked c r (some m) later (inr (inl (h, a, b))) =
      subst (Asked c (some m)) (sym h) (deleted a b)
  Kept-Asked c r (some m) later (inr (inr h)) = subst (Asked c (some m)) (sym h) (asked r stays)

  -- All of the daemon is the same but its modules, the subscriptions of client `c` and the effects;
  -- the new effects are messages, and the modules are only asked.
  pub record IsConfined (c : ℕ) (d e : Daemon M) : Type 0 where
    pub same_access : e.write_access ≡ d.write_access
    pub same_rest : SameRest d e
    pub others : OthersKept c d e
    pub modules_asked : (a : ℕ) → Asked c (d.modules a) (e.modules a)
    pub told : (new : List Effect) × (e.effects ≡ new ++ d.effects) × All IsMessage new

  ReadsOnly-IsConfined :
      (c : ℕ) (r : Fields) (d e : Daemon M) → ReadsOnly c r d e → IsConfined c d e
  ReadsOnly-IsConfined c r d e h = record {
    same_access = h.same_access;
    same_rest = h.same_rest;
    others = h.others;
    modules_asked = λ a. Kept-Asked c r (d.modules a) (e.modules a) (h.kept a);
    told = h.told;
  }

  IsConfined-refl : (c : ℕ) (d : Daemon M) → IsConfined c d d
  IsConfined-refl c d = record {
    same_access = refl;
    same_rest = refl;
    others = λ x h. (λ a. refl, refl);
    modules_asked = λ a. stays;
    told = ([], refl, tt);
  }

  -- The rest of `e` in `f`.
  abbrev rest_of : Daemon M → Daemon M → Daemon M
  rest_of f e = record e {
    modules = f.modules;
    subscribes = f.subscribes;
    topo_subscribes = f.topo_subscribes;
    effects = f.effects;
  }

  IsConfined-trans :
      (c : ℕ) (d e f : Daemon M) → IsConfined c d e → IsConfined c e f → IsConfined c d f
  IsConfined-trans c d e f p q = record {
    same_access = q.same_access ∙ p.same_access;
    same_rest = q.same_rest ∙ ap (rest_of f) p.same_rest;
    others =
        λ x h. (λ a. (q.others x h).0 a ∙ (p.others x h).0 a, (q.others x h).1 ∙ (p.others x h).1);
    modules_asked = λ a. Asked-trans (p.modules_asked a) (q.modules_asked a);
    told = (
      q.told.0 ++ p.told.0,
      q.told.1 ∙ ap (◌++◌ q.told.0) p.told.1 ∙ sym (append_assoc q.told.0 p.told.0 d.effects),
      All-append IsMessage q.told.0 p.told.0 q.told.2 p.told.2,
    );
  }

  -- Whatever lines a client without write access sends, and in whatever state they meet the daemon,
  -- all of the daemon stays as it is but its modules, the subscriptions of this client and the
  -- effects; the effects that are added are messages; and each module stays, or is given requests, as
  -- of a client that may not write, or is deleted while it is neither active nor being activated.
  pub client_ready_read-IsConfined :
      (around : Surroundings) (c : ℕ) (lines : List Line) (d : Daemon M)
      → has_write_access around c d ≡ false
      → IsConfined c d (client_ready_read around c lines d).0
  unfolding client_ready_read has_write_access
  client_ready_read-IsConfined around c [] d h = IsConfined-refl c d
  client_ready_read-IsConfined around c (blank ∷ lines) d h =
      client_ready_read-IsConfined around c lines d h
  client_ready_read-IsConfined around c (no_json ∷ lines) d h = IsConfined-refl c d
  client_ready_read-IsConfined around c (request r ∷ lines) d h =
      let e = server_received around c r d in
      let step = ReadsOnly-IsConfined c r d e (server_received-ReadsOnly around c r d h) in
      let still = ap (has_text (around.peer c)) step.same_access ∙ h in
      IsConfined-trans c d e _ step (client_ready_read-IsConfined around c lines e still)
