-- ===== src/Daemon/Lines.antt =====
-- src/server.cpp: the connections of clients, their lines, and the keep-alive messages.
pub mod Laws
use mtb_daemon.Base.{ℕ, List, [], ◌∷◌}
use mtb_daemon.Json.{Fields, end}
use mtb_daemon.Server.{emplace}
use mtb_daemon.Daemon.{Daemon, send_all}
use mtb_daemon.Daemon.Modules.{ModuleOps}
use mtb_daemon.Daemon.Files.{Surroundings}
use mtb_daemon.Daemon.Received.{server_received}

-- A line as QJsonDocument reads it: of white space only, no JSON, or an object (another value is an
-- empty one).
pub data Line : Type 0 where
  blank : Line
  no_json : Line
  request : Fields → Line

module _ {M : Type 0} where
  unfoldable pub server_new_connection : ℕ → Daemon M → Daemon M
  server_new_connection socket d = record d { clients = emplace socket d.clients }

  -- tKeepAliveTick: an empty object to every client.
  unfoldable pub t_keep_alive_tick : Daemon M → Daemon M
  t_keep_alive_tick d = send_all d.clients end d

module _ {M : Type 0} ⦃ops : ModuleOps M⦄ where
  -- The lines that have come; those behind a line that is no JSON stay in the socket. An exception of a
  -- handler that nothing else catches is logged, and the loop goes on.
  unfoldable pub client_ready_read : Surroundings → ℕ → List Line → Daemon M → Daemon M × List Line
  client_ready_read around socket [] d = (d, [])
  client_ready_read around socket (blank ∷ lines) d = client_ready_read around socket lines d
  client_ready_read around socket (no_json ∷ lines) d = (d, lines)
  client_ready_read around socket (request r ∷ lines) d =
      client_ready_read around socket lines (server_received around socket r d)
