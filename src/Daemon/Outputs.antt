-- ===== src/Daemon/Outputs.antt =====
-- src/main.cpp: whose outputs are set, and resetting the outputs of a client that asks for it or
-- goes away.
pub mod Laws
use mtb_daemon.Base.{
  ℕ, zero, suc, Bool, true, false, not, Option, none, some, List, [], ◌∷◌, ◌++◌, ◌==◌, ◌&&◌, ltb,
  leb, length, is_empty, if◌then◌else◌,
}
use mtb_daemon.Cmd.{module_reset_outputs}
use mtb_daemon.Common.CmdError
use mtb_daemon.Json.{Fields}
use mtb_daemon.Server.{member, erase, cmd_error_code, json_ok_response}
use mtb_daemon.Usb.{max_modules}
use mtb_daemon.Daemon.{
  Daemon, Callback, client_outputs_reset, gone_outputs_reset, sent, effect, for_all, send,
  send_error,
}
use mtb_daemon.Daemon.Modules.{ModuleOps}

-- A method called on a module that there is.
abbrev pub on_module : {M : Type 0} → (M → M) → Option M → Option M
on_module f none = none
on_module f (some m) = some (f m)

-- The loop over the sockets of one module: those that `result` does not hold yet.
unfoldable pub push_new : List ℕ → List ℕ → List ℕ
push_new [] result = result
push_new (c ∷ cs) result = push_new cs (if member c result then result else result ++ c ∷ [])

module _ {M : Type 0} ⦃ops : ModuleOps M⦄ where
  abbrev pub setters_of : Option M → List ℕ
  setters_of none = []
  setters_of (some m) = ops.output_setters m

  -- The loop over the modules from `addr` on.
  unfoldable pub output_setters_from : ℕ → ℕ → (ℕ → Option M) → List ℕ → List ℕ
  output_setters_from zero addr modules result = result
  output_setters_from (suc n) addr modules result =
      output_setters_from n (suc addr) modules (push_new (setters_of (modules addr)) result)

  unfoldable pub output_setters : Daemon M → List ℕ
  output_setters d = output_setters_from max_modules 0 d.modules []

  -- `on_ok` is what the request does on success; `callback` holds what it does when the command for
  -- all modules is answered.
  unfoldable pub reset_by_setters :
      List ℕ → ℕ → (Daemon M → Daemon M) → Callback → Daemon M → Daemon M
  reset_by_setters setters socket on_ok callback d =
      if leb 2 (length setters)
      then on_ok (record d {
        modules = for_all (on_module (ops.reset_outputs_of_client socket)) d.modules;
      })
      else if length setters == 1 && member socket setters
      then effect (sent (module_reset_outputs 0) callback)
          (record d { modules = for_all (on_module ops.all_outputs_reset) d.modules })
      else on_ok d

  unfoldable pub client_reset_outputs : ℕ → (Daemon M → Daemon M) → Callback → Daemon M → Daemon M
  client_reset_outputs socket on_ok callback d =
      reset_by_setters (output_setters d) socket on_ok callback d

  -- With write access.
  unfoldable pub cmd_reset_my_outputs : ℕ → Fields → Daemon M → Daemon M
  cmd_reset_my_outputs socket request d =
      client_reset_outputs socket (send socket (json_ok_response request))
        (client_outputs_reset socket request) d

  unfoldable pub server_client_disconnected : ℕ → Daemon M → Daemon M
  server_client_disconnected socket d =
      client_reset_outputs socket (λ e. e) gone_outputs_reset
        (record d {
          subscribes = for_all (erase socket) d.subscribes;
          modules = for_all (on_module (ops.client_disconnected socket)) d.modules;
          topo_subscribes = erase socket d.topo_subscribes;
        })

  -- DaemonServer::clientDisconnected.
  unfoldable pub client_gone : ℕ → Daemon M → Daemon M
  client_gone socket d =
      server_client_disconnected socket (record d { clients = erase socket d.clients })
