-- ===== src/Server.antt =====
-- src/server.cpp: answers, errors, and to whom a message goes.
pub mod Error
use Prim.Native.String.{String}
use mtb_daemon.Base.{ℕ, ◌+◌, Bool, true, false, List, [], ◌∷◌, ◌==◌, ◌||◌, if◌then◌else◌}
use mtb_daemon.Json.{Json, string, number, object, Fields, end, field, get, contains}

-- jsonError and DaemonServer::error, without the text of the message.
unfoldable pub json_error : ℕ → Json
json_error code = object (field "code" (number code) end)

unfoldable pub cmd_error_code : ℕ → ℕ
cmd_error_code error = error + 0x1000

abbrev copied : Fields → String → Fields → Fields
copied request key response =
    if contains request key then field key (get request key) response else response

unfoldable pub error_response : Fields → Json → Fields
error_response request error = copied request "address" (
    copied request "id" (
      field "command" (get request "command") (
        field "type" (string "response")
          (field "status" (string "error") (field "error" error end)))))

unfoldable pub json_ok_response : Fields → Fields
json_ok_response request = copied request "address" (
    copied request "id" (
      field "command" (get request "command")
        (field "type" (string "response") (field "status" (string "ok") end))))

-- A set of sockets (std::unordered_set, or the keys of `clients`).
abbrev pub member : ℕ → List ℕ → Bool
member c [] = false
member c (d ∷ ds) = d == c || member c ds

abbrev pub erase : ℕ → List ℕ → List ℕ
erase c [] = []
erase c (d ∷ ds) = let rest = erase c ds in if d == c then rest else d ∷ rest

abbrev pub emplace : ℕ → List ℕ → List ℕ
emplace c ds = if member c ds then ds else c ∷ ds
