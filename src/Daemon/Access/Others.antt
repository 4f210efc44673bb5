-- ===== src/Daemon/Access/Others.antt =====
-- The subscriptions of the clients that a request is not of (src/main.cpp).
use mtb_daemon.Base.{
  ℕ, ◌≡◌, refl, ap, sym, subst, ◌∙◌, false, Option, none, some, List, [], ◌∷◌, ◌==◌, ltb,
  Bool-cases, Option-cases, inl, inr, ==_iff,
}
use mtb_daemon.Json.{Json}
use mtb_daemon.Json.Safe.{safe_uint}
use mtb_daemon.Server.{member, emplace, erase}
use mtb_daemon.Usb.{max_modules}
use mtb_daemon.Daemon.{put, for_all}
use mtb_daemon.Daemon.Subscriptions.{change_each, subscribe_all}
use mtb_daemon.Daemon.Subscriptions.Laws.{member-emplace, member-erase}

-- The sets of subscribers as a loop over addresses leaves them, for a client that it is not about.
abbrev pub Unchanged : ℕ → (ℕ → List ℕ) → Option (ℕ → List ℕ) → Type 0
Unchanged x old none = Unit
Unchanged x old (some new) = (a : ℕ) → member x (new a) ≡ member x (old a)

pub Unchanged-with :
    (x : ℕ) (old mid : ℕ → List ℕ) (o : Option (ℕ → List ℕ))
    → ((a : ℕ) → member x (mid a) ≡ member x (old a))
    → Unchanged x mid o
    → Unchanged x old o
Unchanged-with x old mid none same h = tt
Unchanged-with x old mid (some new) same h = λ a. h a ∙ same a

put_same :
    (f : List ℕ → List ℕ) (x b : ℕ) (old : ℕ → List ℕ)
    → ((ds : List ℕ) → member x (f ds) ≡ member x ds)
    → (a : ℕ) → member x (put b (f (old b)) old a) ≡ member x (old a)
put_same f x b old h a = elim (Bool-cases (a == b)) [
  | inl e ↦ rw e (h (old b) ∙ ap (λ i. member x (old i)) (sym ((==_iff a b).0 e)))
  | inr e ↦ rw e refl
]

pub change_each-Unchanged :
    (f : List ℕ → List ℕ) (x : ℕ) (addrs : List Json) (old : ℕ → List ℕ)
    → ((ds : List ℕ) → member x (f ds) ≡ member x ds)
    → Unchanged x old (change_each f addrs old)
unfolding change_each
change_each-Unchanged f x [] old h = λ a. refl
change_each-Unchanged f x (v ∷ vs) old h = elim (Option-cases (safe_uint v)) [
  | inl e ↦
      let stops : none ≡ change_each f (v ∷ vs) old = rw (change_each, e) refl in
      subst (Unchanged x old) stops tt
  | inr (b, e) ↦
      let goes_on : change_each f vs (put b (f (old b)) old) ≡ change_each f (v ∷ vs) old =
        rw (change_each, e) refl in
      subst (Unchanged x old) goes_on (
        Unchanged-with x old (put b (f (old b)) old) _ (put_same f x b old h)
          (change_each-Unchanged f x vs (put b (f (old b)) old) h))
]

module _ (who : ℕ) where
  pub not_emplaced :
      (x : ℕ) → (x == who) ≡ false → (ds : List ℕ) → member x (emplace who ds) ≡ member x ds
  not_emplaced x h ds = member-emplace x who ds ∙ (rw h refl)

  pub not_erased :
      (x : ℕ) → (x == who) ≡ false → (ds : List ℕ) → member x (erase who ds) ≡ member x ds
  not_erased x h ds = member-erase x who ds ∙ (rw h refl)

  pub subscribe_all_same :
      (subs : ℕ → List ℕ) (x : ℕ)
      → (x == who) ≡ false
      → (a : ℕ) → member x (subscribe_all who subs a) ≡ member x (subs a)
  unfolding subscribe_all
  subscribe_all_same subs x h a = elim (Bool-cases (ltb a max_modules)) [
    | inr e ↦ rw e refl
    | inl e ↦ elim (Bool-cases (ltb 0 a)) [
      | inr f ↦ rw (e, f) refl
      | inl f ↦ rw (e, f) (not_emplaced x h (subs a))
    ]
  ]

  pub erase_all_same :
      (subs : ℕ → List ℕ) (x : ℕ)
      → (x == who) ≡ false
      → (a : ℕ) → member x (for_all (erase who) subs a) ≡ member x (subs a)
  erase_all_same subs x h a = elim (Bool-cases (ltb a max_modules)) [
    | inr e ↦ rw e refl
    | inl e ↦ rw e (not_erased x h (subs a))
  ]
