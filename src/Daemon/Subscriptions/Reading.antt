-- ===== src/Daemon/Subscriptions/Reading.antt =====
-- The addresses of a request as the handlers read them (src/main.cpp) are those that it names.
use mtb_daemon.Base.{
  ℕ, ◌≡◌, refl, true, false, Option, none, some, List, [], ◌∷◌, if◌then◌else◌, Bool-cases,
  Option-cases, inl, inr, arith,
}
use mtb_daemon.Json.{
  Json, number, negative, fraction, string, bool, null, undefined, object, array, Fields, contains,
  entries, get, to_int,
}
use mtb_daemon.Json.Safe.{safe_array_at, array_of}
use mtb_daemon.Common.{is_valid_module_address}
use mtb_daemon.Server.{member}
use mtb_daemon.Daemon.Subscriptions.{
  Addresses, all_addresses, malformed, invalid, listed, addresses_of, validate_addrs,
}
use mtb_daemon.Daemon.Subscriptions.Laws.{names_address}
use mtb_daemon.Daemon.Subscriptions.Relation.{
  Wanted, everything, nothing, these, address_in, addresses_in, these_or_nothing, wanted_in, wanted,
}

-- An array that is accepted has these addresses; one that is not has none.
abbrev Reads : List Json → Option (List ℕ) → Type 0
Reads vs none = validate_addrs vs ≡ false
Reads vs (some addrs) = (validate_addrs vs ≡ true) × ((a : ℕ) → names_address vs a ≡ member a addrs)

-- An entry that is no address makes the array invalid.
refused_entry : (v : Json) (vs : List Json) → address_in v ≡ none → validate_addrs (v ∷ vs) ≡ false
unfolding address_in validate_addrs is_valid_module_address
refused_entry (number n) vs h = ground (arith, h)
refused_entry (negative n) vs h = ground arith
refused_entry (fraction n) vs h = refl
refused_entry (string t) vs h = refl
refused_entry (bool b) vs h = refl
refused_entry null vs h = refl
refused_entry undefined vs h = refl
refused_entry (object fs) vs h = refl
refused_entry (array items) vs h = refl

-- An entry that is one is read as it.
accepted_entry :
    (v : Json) (n : ℕ)
    → address_in v ≡ some n
    → (to_int none v ≡ some n) × (is_valid_module_address n ≡ true)
unfolding address_in is_valid_module_address
accepted_entry (number m) n h = ground (arith, h)
accepted_entry (negative m) n h = absurd (cc)
accepted_entry (fraction m) n h = absurd (cc)
accepted_entry (string t) n h = absurd (cc)
accepted_entry (bool b) n h = absurd (cc)
accepted_entry null n h = absurd (cc)
accepted_entry undefined n h = absurd (cc)
accepted_entry (object fs) n h = absurd (cc)
accepted_entry (array items) n h = absurd (cc)

Reads-first :
    (v : Json) (vs : List Json) (n : ℕ) (o : Option (List ℕ))
    → address_in v ≡ some n
    → Reads vs o
    → Reads (v ∷ vs) (elim o [ none ↦ none | some rest ↦ some (n ∷ rest) ])
unfolding validate_addrs
Reads-first v vs n none e h =
    let read = accepted_entry v n e in rw (validate_addrs, read.0, read.1) h
Reads-first v vs n (some rest) e h =
    let read = accepted_entry v n e in
    (
      rw (validate_addrs, read.0, read.1) h.0,
      λ a. rw (names_address, read.0) (ground (arith, h.1 a)),
    )

pub addresses_in-Reads : (vs : List Json) → Reads vs (addresses_in vs)
unfolding validate_addrs addresses_in
addresses_in-Reads [] = (refl, λ a. refl)
addresses_in-Reads (v ∷ vs) = elim (Option-cases (address_in v)) [
  | inl e ↦ rw (addresses_in, e) (refused_entry v vs e)
  | inr (n, e) ↦
      rw (addresses_in, e) (Reads-first v vs n (addresses_in vs) e (addresses_in-Reads vs))
]

-- What the handlers read, against what the request is about.
pub data Means : Addresses → Wanted → Type 0 where
  all_meant : Means all_addresses everything
  not_read : Means malformed nothing
  not_valid : Means invalid nothing
  listed_meant :
      {addrs : List Json} {names : List ℕ}
      → validate_addrs addrs ≡ true
      → ((a : ℕ) → names_address addrs a ≡ member a names)
      → Means (listed addrs) (these names)

Means-validated :
    (vs : List Json) (o : Option (List ℕ))
    → Reads vs o
    → Means (if validate_addrs vs then listed vs else invalid) (these_or_nothing o)
Means-validated vs none h = rw h not_valid
Means-validated vs (some addrs) h = rw h.0 (listed_meant h.0 h.1)

Means-array :
    (v : Json)
    → Means
        (elim (array_of v) [
          | none ↦ malformed
          | some addrs ↦ if validate_addrs addrs then listed addrs else invalid
        ])
        (wanted_in v)
Means-array (array items) =
    Means-validated (entries items) (addresses_in (entries items))
      (addresses_in-Reads (entries items))
Means-array (number n) = not_read
Means-array (negative n) = not_read
Means-array (fraction n) = not_read
Means-array (string t) = not_read
Means-array (bool b) = not_read
Means-array null = not_read
Means-array undefined = not_read
Means-array (object fs) = not_read

-- The handlers read of a request what it is about.
pub addresses_of-Means : (request : Fields) → Means (addresses_of request) (wanted request)
unfolding addresses_of wanted safe_array_at
addresses_of-Means request = elim (Bool-cases (contains request "addresses")) [
  | inl e ↦ rw e (Means-array (get request "addresses"))
  | inr e ↦ rw e all_meant
]
