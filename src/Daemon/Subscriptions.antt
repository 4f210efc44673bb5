-- ===== src/Daemon/Subscriptions.antt =====
-- src/main.cpp: the subscriptions of clients to modules and to changes of the topology.
pub mod Laws
pub mod Relation
pub mod Reading
pub mod Steps
pub mod Refinement
use Prim.Native.String.{String}
use mtb_daemon.Base.{
  ℕ, zero, suc, Bool, true, false, not, Option, none, some, List, [], ◌∷◌, ltb, if◌then◌else◌,
}
use mtb_daemon.Common.{is_valid_module_address}
use mtb_daemon.Json.{Json, number, array, string, Fields, field, contains, to_int, to_array}
use mtb_daemon.Json.Safe.{safe_array_at, safe_uint}
use mtb_daemon.Server.{member, emplace, erase, json_error, json_ok_response}
use mtb_daemon.Server.Error
use mtb_daemon.Usb.{max_modules}
use mtb_daemon.Daemon.{Daemon, Outcome, returned, threw, put, for_all, send}

abbrev refusal : Fields → Fields
refusal response =
    field "status" (string "error") (field "error" (json_error Error.module_invalid_addr) response)

unfoldable pub validate_addrs : List Json → Bool
validate_addrs [] = true
validate_addrs (v ∷ vs) =
    let rest = validate_addrs vs in
    elim (to_int none v) [
      | none ↦ false
      | some addr ↦ if is_valid_module_address addr then rest else false
    ]

-- The loops over validated addresses; `none` is an exception of safeUInt.
unfoldable pub change_each : (List ℕ → List ℕ) → List Json → (ℕ → List ℕ) → Option (ℕ → List ℕ)
change_each f [] subscribes = some subscribes
change_each f (v ∷ vs) subscribes = elim (safe_uint v) [
  | none ↦ none
  | some addr ↦ change_each f vs (put addr (f (subscribes addr)) subscribes)
]

-- The addresses of an array of all addresses from `addr` on that hold a socket.
unfoldable pub subscribed_from : ℕ → ℕ → ℕ → (ℕ → List ℕ) → List Json
subscribed_from zero addr socket subscribes = []
subscribed_from (suc n) addr socket subscribes =
    let rest = subscribed_from n (suc addr) socket subscribes in
    if member socket (subscribes addr) then number addr ∷ rest else rest

-- What "addresses" of a request holds: it is missing, no array, an array with an invalid address, or a
-- valid one.
pub data Addresses : Type 0 where
  all_addresses : Addresses
  malformed : Addresses
  invalid : Addresses
  listed : List Json → Addresses

-- The beginning of the three handlers.
unfoldable pub addresses_of : Fields → Addresses
addresses_of request =
    if contains request "addresses"
    then elim (safe_array_at request "addresses") [
      | none ↦ malformed
      | some addrs ↦ if validate_addrs addrs then listed addrs else invalid
    ]
    else all_addresses

-- The subscriptions of all addresses but 0.
unfoldable pub subscribe_all : ℕ → (ℕ → List ℕ) → ℕ → List ℕ
subscribe_all socket subscribes addr =
    if ltb addr max_modules
    then (if ltb 0 addr then emplace socket (subscribes addr) else subscribes addr)
    else subscribes addr

module _ {M : Type 0} where
  -- The end of the first two handlers, once the loop over the addresses is done.
  unfoldable pub keep_subscribes :
      ℕ → Fields → List Json → Option (ℕ → List ℕ) → Daemon M → Outcome (Daemon M)
  keep_subscribes socket response addrs none d = threw d
  keep_subscribes socket response addrs (some subscribes) d = returned (
      send socket (field "addresses" (array (to_array addrs)) response)
        (record d { subscribes = subscribes }))

  unfoldable pub module_subscribe : Addresses → ℕ → Fields → Daemon M → Outcome (Daemon M)
  module_subscribe all_addresses socket response d =
      returned (send socket response (record d { subscribes = subscribe_all socket d.subscribes }))
  module_subscribe malformed socket response d = threw d
  module_subscribe invalid socket response d = returned (send socket (refusal response) d)
  module_subscribe (listed addrs) socket response d =
      keep_subscribes socket response addrs (change_each (emplace socket) addrs d.subscribes) d

  unfoldable pub cmd_module_subscribe : ℕ → Fields → Daemon M → Outcome (Daemon M)
  cmd_module_subscribe socket request d =
      module_subscribe (addresses_of request) socket (json_ok_response request) d

  unfoldable pub module_unsubscribe : Addresses → ℕ → Fields → Daemon M → Outcome (Daemon M)
  module_unsubscribe all_addresses socket response d =
      returned
        (send socket response (record d { subscribes = for_all (erase socket) d.subscribes }))
  module_unsubscribe malformed socket response d = threw d
  module_unsubscribe invalid socket response d = returned (send socket (refusal response) d)
  module_unsubscribe (listed addrs) socket response d =
      keep_subscribes socket response addrs (change_each (erase socket) addrs d.subscribes) d

  unfoldable pub cmd_module_unsubscribe : ℕ → Fields → Daemon M → Outcome (Daemon M)
  cmd_module_unsubscribe socket request d =
      module_unsubscribe (addresses_of request) socket (json_ok_response request) d

  -- The end of serverCmdMyModuleSubscribes.
  unfoldable pub tell_subscribes : ℕ → Fields → Daemon M → Daemon M
  tell_subscribes socket response d =
      send socket
        (field "addresses" (array (to_array (subscribed_from max_modules 0 socket d.subscribes)))
          response)
        d

  -- The subscriptions of a client once they are replaced; without a result, an exception has left it
  -- with none.
  unfoldable pub keep_replaced : ℕ → Fields → Option (ℕ → List ℕ) → Daemon M → Outcome (Daemon M)
  keep_replaced socket response none d =
      threw (record d { subscribes = for_all (erase socket) d.subscribes })
  keep_replaced socket response (some subscribes) d =
      returned (tell_subscribes socket response (record d { subscribes = subscribes }))

  unfoldable pub my_module_subscribes : Addresses → ℕ → Fields → Daemon M → Outcome (Daemon M)
  my_module_subscribes all_addresses socket response d =
      returned (tell_subscribes socket response d)
  my_module_subscribes malformed socket response d = threw d
  my_module_subscribes invalid socket response d =
      returned (tell_subscribes socket (refusal response) d)
  my_module_subscribes (listed addrs) socket response d =
      keep_replaced socket response
        (change_each (emplace socket) addrs (for_all (erase socket) d.subscribes)) d

  unfoldable pub cmd_my_module_subscribes : ℕ → Fields → Daemon M → Outcome (Daemon M)
  cmd_my_module_subscribes socket request d =
      my_module_subscribes (addresses_of request) socket (json_ok_response request) d

  unfoldable pub cmd_topo_subscribe : ℕ → Fields → Daemon M → Daemon M
  cmd_topo_subscribe socket request d =
      send socket (json_ok_response request)
        (record d { topo_subscribes = emplace socket d.topo_subscribes })

  unfoldable pub cmd_topo_unsubscribe : ℕ → Fields → Daemon M → Daemon M
  cmd_topo_unsubscribe socket request d =
      send socket (json_ok_response request)
        (record d { topo_subscribes = erase socket d.topo_subscribes })
