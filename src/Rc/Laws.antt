-- ===== src/Rc/Laws.antt =====
-- The inputs of an RC module as sets (src/modules/rc.cpp).
use mtb_daemon.Base.{
  ℕ, zero, suc, ◌<◌, ◌≡◌, refl, sym, ap, subst, ◌∙◌, Bool, true, false, ◌&&◌, ◌||◌, List, [], ◌∷◌,
  ltb, ◌==◌, ==_iff, if◌then◌else◌, get_or, set, length, length-set, replicate, arith, Bool-cases,
  inl, inr,
}
use mtb_daemon.Server.{member}
use mtb_daemon.Rc.{insert, input_of, addr_of, store_pairs, store_rc_inputs}

-- Whether some pair of bytes tells of an address at an input.
unfoldable pub tells : List ℕ → ℕ → ℕ → Bool
tells (high ∷ low ∷ bytes) i a = (i == input_of high && a == addr_of high low) || tells bytes i a
tells _ i a = false

-- Smaller than the first entry; ascending.
abbrev pub IsBelow : ℕ → List ℕ → Type 0
IsBelow a [] = Unit
IsBelow a (b ∷ bs) = a < b

abbrev pub IsAscending : List ℕ → Type 0
IsAscending [] = Unit
IsAscending (a ∷ addrs) = IsBelow a addrs × IsAscending addrs

member-insert : (x a : ℕ) (addrs : List ℕ) → member x (insert a addrs) ≡ (x == a || member x addrs)
unfolding insert
member-insert x a [] = ground arith
member-insert x a (b ∷ addrs) = ground (arith, member-insert x a addrs)

insert-IsBelow : (x a : ℕ) (addrs : List ℕ) → x < a → IsBelow x addrs → IsBelow x (insert a addrs)
unfolding insert
insert-IsBelow x a [] h below = h
insert-IsBelow x a (b ∷ addrs) h below = elim (Bool-cases (a == b)) [
  | inl e ↦ rw e below
  | inr e ↦ elim (Bool-cases (ltb a b)) [ inl f ↦ rw (e, f) h | inr f ↦ rw (e, f) below ]
]

insert-IsAscending : (a : ℕ) (addrs : List ℕ) → IsAscending addrs → IsAscending (insert a addrs)
unfolding insert
insert-IsAscending a [] h = (tt, tt)
insert-IsAscending a (b ∷ addrs) h = elim (Bool-cases (a == b)) [
  | inl e ↦ rw e h
  | inr e ↦ elim (Bool-cases (ltb a b)) [
    | inl f ↦ rw (e, f) (ground (arith, f), (h.0, h.1))
    | inr f ↦
        rw (e, f)
          (insert-IsBelow b a addrs (ground (arith, e, f)) h.0, insert-IsAscending a addrs h.1)
  ]
]

get_or-set :
    (inputs : List (List ℕ)) (i j : ℕ) (v : List ℕ)
    → i < length inputs
    → get_or (set inputs j v) i [] ≡ (if i == j then v else get_or inputs i [])
get_or-set [] i j v h = absurd (omega arith)
get_or-set (x ∷ inputs) zero zero v h = refl
get_or-set (x ∷ inputs) zero (suc j) v h = ground arith
get_or-set (x ∷ inputs) (suc i) zero v h = ground arith
get_or-set (x ∷ inputs) (suc i) (suc j) v h =
    let same : (suc i == suc j) ≡ (i == j) = ground arith in
    rw same (get_or-set inputs i j v (omega arith))

-- No address.
abbrev nowhere : List ℕ
nowhere = []

or_swap : (t b m : Bool) → (t || (b || m)) ≡ ((b || t) || m)
or_swap true true m = refl
or_swap true false m = refl
or_swap false true m = refl
or_swap false false m = refl

or_false : (t : Bool) → (t || false) ≡ t
or_false true = refl
or_false false = refl

get_or-blank : (i n : ℕ) → get_or (replicate n []) i [] ≡ nowhere
get_or-blank i zero = refl
get_or-blank zero (suc n) = refl
get_or-blank (suc i) (suc n) = get_or-blank i n

store_pairs_lem :
    (bytes : List ℕ) (inputs : List (List ℕ)) (i a : ℕ)
    → i < length inputs
    → IsAscending (get_or inputs i [])
    → (member a (get_or (store_pairs bytes inputs) i [])
        ≡ (tells bytes i a || member a (get_or inputs i [])))
      × IsAscending (get_or (store_pairs bytes inputs) i [])
unfolding store_pairs tells
store_pairs_lem [] inputs i a h up = (refl, up)
store_pairs_lem (high ∷ []) inputs i a h up = (refl, up)
store_pairs_lem (high ∷ low ∷ bytes) inputs i a h up =
    let j = input_of high in
    let addr = addr_of high low in
    let new = set inputs j (insert addr (get_or inputs j [])) in
    let inside : i < length new =
      omega (arith, h, length-set inputs j (insert addr (get_or inputs j []))) in
    let now = get_or-set inputs i j (insert addr (get_or inputs j [])) h in
    elim (Bool-cases (i == j)) [
      | inl e ↦
          let found : get_or new i [] ≡ insert addr (get_or inputs i []) =
            now ∙ rw e (ap (λ k. insert addr (get_or inputs k [])) (sym ((==_iff i j).0 e))) in
          let rest =
            store_pairs_lem bytes new i a inside
              (subst IsAscending (sym found) (insert-IsAscending addr (get_or inputs i []) up)) in
          (
            rest.0
                ∙ ap (λ l. tells bytes i a || member a l) found
                ∙ ap (λ b. tells bytes i a || b) (member-insert a addr (get_or inputs i []))
                ∙ rw e (or_swap (tells bytes i a) (a == addr) (member a (get_or inputs i []))),
            rest.1,
          )
      | inr e ↦
          let found : get_or new i [] ≡ get_or inputs i [] = now ∙ rw e refl in
          let rest = store_pairs_lem bytes new i a inside (subst IsAscending (sym found) up) in
          (rest.0 ∙ ap (λ l. tells bytes i a || member a l) found ∙ rw e refl, rest.1)
    ]

-- The code's sets hold what the pairs of bytes tell: an address is in the set of an input exactly when
-- a pair of the data tells of it there, and every set is in ascending order without repetition.
pub store_rc_inputs-tells :
    (bytes : List ℕ) (i a : ℕ)
    → i < 8
    → (member a (get_or (store_rc_inputs bytes) i []) ≡ tells bytes i a)
      × IsAscending (get_or (store_rc_inputs bytes) i [])
unfolding store_rc_inputs
store_rc_inputs-tells bytes i a h =
    let blank = get_or-blank i 8 in
    let all = store_pairs_lem bytes (replicate 8 []) i a h (subst IsAscending (sym blank) tt) in
    (all.0 ∙ ap (λ l. tells bytes i a || member a l) blank ∙ or_false (tells bytes i a), all.1)
