-- ===== src/Daemon/Subscriptions/Laws.antt =====
-- The subscriptions of clients (src/main.cpp) as a relation between clients and addresses.
use mtb_daemon.Base.{
  ℕ, ◌≡◌, refl, sym, ap, subst, ◌∙◌, Bool, true, false, Option, none, some, List, [], ◌∷◌, ◌==◌,
  if◌then◌else◌, Bool-cases, Option-cases, inl, inr, arith, ==_iff,
}
use mtb_daemon.Json.{Json, to_int}
use mtb_daemon.Json.Laws.{safe_uint-to_int}
use mtb_daemon.Json.Safe.{safe_uint}
use mtb_daemon.Server.{member, emplace, erase}
use mtb_daemon.Daemon.{put}
use mtb_daemon.Daemon.Subscriptions.{validate_addrs, change_each}

pub member-erase :
    (x c : ℕ) (ds : List ℕ) → member x (erase c ds) ≡ (if x == c then false else member x ds)
member-erase x c [] = ground arith
member-erase x c (d ∷ ds) = ground (arith, member-erase x c ds)

member_first : (x c : ℕ) (ds : List ℕ) → (x == c) ≡ true → member x ds ≡ member c ds
member_first x c ds h = ap (λ i. member i ds) (ground arith)

pub member-emplace :
    (x c : ℕ) (ds : List ℕ) → member x (emplace c ds) ≡ (if x == c then true else member x ds)
member-emplace x c ds = ground (arith, member_first x c ds)

-- An address among those of an array.
abbrev pub names_address : List Json → ℕ → Bool
names_address [] a = false
names_address (v ∷ vs) a =
    let rest = names_address vs a in
    elim (to_int none v) [ none ↦ rest | some b ↦ if a == b then true else rest ]

valid_rest :
    (v : Json) (vs : List Json) (b : ℕ)
    → to_int none v ≡ some b
    → validate_addrs (v ∷ vs) ≡ true
    → validate_addrs vs ≡ true
unfolding validate_addrs
valid_rest v vs b e h = ground (arith, e, h)

-- What is to become of a client's membership in the sets of listed addresses, by the change `g` of it.
module _ (x : ℕ) (g : Bool → Bool) where
  abbrev pub changed_to : List Json → (ℕ → List ℕ) → ℕ → Bool
  changed_to addrs old a = if names_address addrs a then g (member x (old a)) else member x (old a)

  abbrev pub Changed : List Json → (ℕ → List ℕ) → Option (ℕ → List ℕ) → Type 0
  Changed addrs old none = ⊥
  Changed addrs old (some new) = (a : ℕ) → member x (new a) ≡ changed_to addrs old a

  Changed-with :
      (addrs rest : List Json) (old mid : ℕ → List ℕ) (o : Option (ℕ → List ℕ))
      → ((a : ℕ) → changed_to rest mid a ≡ changed_to addrs old a)
      → Changed rest mid o
      → Changed addrs old o
  Changed-with addrs rest old mid none same h = h
  Changed-with addrs rest old mid (some new) same h = λ a. h a ∙ same a

-- What a change of one set does to a client's membership.
module _ (f : List ℕ → List ℕ) (x : ℕ) (g : Bool → Bool)
    (member-f : (ds : List ℕ) → member x (f ds) ≡ g (member x ds))
    (twice : (b : Bool) → g (g b) ≡ g b) where
  put_first :
      (vs : List Json) (b : ℕ) (old : ℕ → List ℕ) (a : ℕ)
      → changed_to x g vs (put b (f (old b)) old) a
        ≡ (if a == b then g (member x (old a)) else changed_to x g vs old a)
  put_first vs b old a = elim (Bool-cases (a == b)) [
    | inl e ↦
        let here : member x (f (old b)) ≡ g (member x (old a)) =
          member-f (old b) ∙ ap (λ i. g (member x (old i))) (sym ((==_iff a b).0 e)) in
        elim (Bool-cases (names_address vs a)) [
          | inl n ↦ rw (e, n, here) (twice _)
          | inr n ↦ rw (e, n, here) refl
        ]
    | inr e ↦ rw e refl
  ]

  names_first :
      (v : Json) (vs : List Json) (b : ℕ) (old : ℕ → List ℕ) (a : ℕ)
      → to_int none v ≡ some b
      → (if a == b then g (member x (old a)) else changed_to x g vs old a)
        ≡ changed_to x g (v ∷ vs) old a
  names_first v vs b old a e = elim (Bool-cases (a == b)) [
    | inl s ↦ rw (changed_to, names_address, e, s) refl
    | inr s ↦ rw (changed_to, names_address, e, s) refl
  ]

  change_first :
      (v : Json) (vs : List Json) (b : ℕ) (old : ℕ → List ℕ)
      → safe_uint v ≡ some b
      → change_each f vs (put b (f (old b)) old) ≡ change_each f (v ∷ vs) old
  unfolding change_each
  change_first v vs b old e = rw (change_each, e) refl

  pub change_each-Changed :
      (addrs : List Json) (old : ℕ → List ℕ)
      → validate_addrs addrs ≡ true
      → Changed x g addrs old (change_each f addrs old)
  unfolding validate_addrs change_each
  change_each-Changed [] old h = λ a. refl
  change_each-Changed (v ∷ vs) old h = elim (Option-cases (to_int none v)) [
    | inl e ↦ absurd (cc (h, e))
    | inr (b, e) ↦
        let found : safe_uint v ≡ some b = safe_uint-to_int v ∙ e in
        let valid : validate_addrs vs ≡ true = valid_rest v vs b e h in
        subst (Changed x g (v ∷ vs) old) (change_first v vs b old found) (
          Changed-with x g (v ∷ vs) vs old (put b (f (old b)) old) _
            (λ a. put_first vs b old a ∙ names_first v vs b old a e)
            (change_each-Changed vs (put b (f (old b)) old) valid))
  ]
