-- ===== src/Utils/Inversion.antt =====
-- Looking up names of diagnostic values after their map is inverted (invertQMap of src/utils.h).
use Prim.Native.String.{String}
use text.Mathlib.Text.{◌==◌ as str_eq}
use mathlib.Core.Bool.{false≢true}
use text.Mathlib.TextEquality.{eq_iff}
use mtb_daemon.Base.{
  ℕ, ◌≡◌, refl, sym, ap, subst, ◌∙◌, true, false, none, some, List, [], ◌∷◌, ◌==◌, ==_iff,
  Bool-cases, inl, inr,
}
use mtb_daemon.Utils.{name_of, number_of, has_number, invert_from, invert_qmap}

some_inj : {m n : String} → some m ≡ some n → m ≡ n
some_inj {m} e = ap (λ o. elim o [ none ↦ m | some t ↦ t ]) e

-- The first entry is taken where its name is not there yet.
invert_from-first :
    (k : ℕ) (n : String) (map : List (ℕ × String)) (out res : List (String × ℕ))
    → invert_from ((k, n) ∷ map) out ≡ some res
    → (has_number out n ≡ false) × (invert_from map ((n, k) ∷ out) ≡ some res)
unfolding invert_from
invert_from-first k n map out res e = elim (Bool-cases (has_number out n)) [
  | inl t ↦ absurd (cc)
  | inr f ↦ (f, cc)
]

-- A new name in front does not hide one that is there.
number_of-other :
    (k : ℕ) (n name : String) (out : List (String × ℕ))
    → has_number out n ≡ false
    → has_number out name ≡ true
    → (has_number ((n, k) ∷ out) name ≡ true) × (number_of ((n, k) ∷ out) name ≡ number_of out name)
number_of-other k n name out f h = elim (Bool-cases (str_eq n name)) [
  | inl t ↦
      let same : n ≡ name = (eq_iff n name).0 t in
      absurd (false≢true (sym f ∙ ap (has_number out) same ∙ h))
  | inr g ↦ rw g (h, refl)
]

-- A name that is there stays with its number.
kept :
    (map : List (ℕ × String)) (out res : List (String × ℕ)) (name : String)
    → has_number out name ≡ true
    → invert_from map out ≡ some res
    → number_of res name ≡ number_of out name
unfolding invert_from
kept [] out res name h e = cc
kept ((k, n) ∷ map) out res name h e =
    let first = invert_from-first k n map out res e in
    let other = number_of-other k n name out first.0 h in
    kept map ((n, k) ∷ out) res name other.0 first.1 ∙ other.1

number_of-invert_from :
    (map : List (ℕ × String)) (out res : List (String × ℕ)) (key : ℕ) (name : String)
    → invert_from map out ≡ some res
    → name_of map key ≡ some name
    → number_of res name ≡ some key
number_of-invert_from [] out res key name e h = absurd (cc)
number_of-invert_from ((k, n) ∷ map) out res key name e h =
    let first = invert_from-first k n map out res e in
    elim (Bool-cases (k == key)) [
      | inl t ↦
          let self : str_eq n n ≡ true = (eq_iff n n).1 refl in
          let at_n : number_of res n ≡ some k =
            kept map ((n, k) ∷ out) res n (rw self refl) first.1 ∙ rw self refl in
          let named : some n ≡ some name = cc in
          let same : n ≡ name = some_inj named in
          let key_same : k ≡ key = (==_iff k key).0 t in
          subst (λ t. number_of res t ≡ some key) same (at_n ∙ ap some key_same)
      | inr f ↦ number_of-invert_from map ((n, k) ∷ out) res key name first.1 cc
    ]

-- Where the names of a map are inverted without an exception, each number is found again by its name.
pub number_of-invert_qmap :
    (map : List (ℕ × String)) (back : List (String × ℕ)) (key : ℕ) (name : String)
    → invert_qmap map ≡ some back
    → name_of map key ≡ some name
    → number_of back name ≡ some key
unfolding invert_qmap
number_of-invert_qmap map back key name = number_of-invert_from map [] back key name
