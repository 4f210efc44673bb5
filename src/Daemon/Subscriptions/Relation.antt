-- ===== src/Daemon/Subscriptions/Relation.antt =====
-- What clients may rely on in subscriptions (src/main.cpp): a relation between clients and addresses,
-- and how requests and the end of a connection change it. It reads requests by itself.
use mtb_daemon.Base.{
  ℕ, Bool, true, false, Option, none, some, List, [], ◌∷◌, ◌==◌, ◌&&◌, leb, ltb, if◌then◌else◌,
}
use mtb_daemon.Json.{Json, number, array, Fields, contains, entries, get}
use mtb_daemon.Server.{member}

-- The requests about subscriptions, and the end of a connection.
pub data Step : Type 0 where
  subscribes : ℕ → Fields → Step
  unsubscribes : ℕ → Fields → Step
  replaces : ℕ → Fields → Step
  leaves : ℕ → Step

-- Which addresses a request is about.
pub data Wanted : Type 0 where
  everything : Wanted
  nothing : Wanted
  these : List ℕ → Wanted

-- An address is a whole number from 1 to 255.
unfoldable pub address_in : Json → Option ℕ
address_in (number n) = if leb 1 n && leb n 255 then some n else none
address_in _ = none

-- All the addresses of an array, if each of its entries is one.
unfoldable pub addresses_in : List Json → Option (List ℕ)
addresses_in [] = some []
addresses_in (v ∷ vs) = elim (address_in v) [
  | none ↦ none
  | some a ↦ elim (addresses_in vs) [ none ↦ none | some rest ↦ some (a ∷ rest) ]
]

abbrev pub these_or_nothing : Option (List ℕ) → Wanted
these_or_nothing none = nothing
these_or_nothing (some addrs) = these addrs

abbrev pub wanted_in : Json → Wanted
wanted_in (array items) = these_or_nothing (addresses_in (entries items))
wanted_in _ = nothing

unfoldable pub wanted : Fields → Wanted
wanted request =
    if contains request "addresses" then wanted_in (get request "addresses") else everything

-- Whether client `x` is subscribed to address `a` after a request of client `c` about these addresses,
-- by whether it was before.
unfoldable pub subscribed : Wanted → ℕ → ℕ → ℕ → Bool → Bool
subscribed everything c x a was = if x == c then (if ltb 0 a then true else was) else was
subscribed nothing c x a was = was
subscribed (these addrs) c x a was = if member a addrs then (if x == c then true else was) else was

unfoldable pub unsubscribed : Wanted → ℕ → ℕ → ℕ → Bool → Bool
unsubscribed everything c x a was = if x == c then false else was
unsubscribed nothing c x a was = was
unsubscribed (these addrs) c x a was =
    if member a addrs then (if x == c then false else was) else was

-- A request to replace the subscriptions that names no addresses changes nothing.
unfoldable pub replaced : Wanted → ℕ → ℕ → ℕ → Bool → Bool
replaced everything c x a was = was
replaced nothing c x a was = was
replaced (these addrs) c x a was = if x == c then member a addrs else was

-- The same after a step.
unfoldable pub subscribed_after : Step → ℕ → ℕ → Bool → Bool
unfolding wanted subscribed unsubscribed replaced
subscribed_after (subscribes c request) x a was = subscribed (wanted request) c x a was
subscribed_after (unsubscribes c request) x a was = unsubscribed (wanted request) c x a was
subscribed_after (replaces c request) x a was = replaced (wanted request) c x a was
subscribed_after (leaves c) x a was = if x == c then false else was

unfoldable pub subscribed_after_all : List Step → ℕ → ℕ → Bool → Bool
unfolding subscribed_after
subscribed_after_all [] x a was = was
subscribed_after_all (s ∷ steps) x a was =
    subscribed_after_all steps x a (subscribed_after s x a was)
