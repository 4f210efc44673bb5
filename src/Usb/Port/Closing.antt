-- ===== src/Usb/Port/Closing.antt =====
-- Closing the port (spAboutToClose and disconnect of src/mtbusb/mtbusb.cpp), with clients that do not
-- send again when they are told that it closes.
use mtb_daemon.Base.{
  ℕ, zero, suc, ◌<◌, ◌≡◌, refl, ap, ◌∙◌, true, false, Option, none, some, List, [], ◌∷◌, length,
  if_rule, arith,
}
use mtb_daemon.Common.CmdError
use mtb_daemon.Cmd.{Cmd}
use mtb_daemon.Cmd.Reply.{Reply, failed}
use mtb_daemon.Usb.{
  Usb, Env, Pending, Event, Signal, called, signalled, on_disconnect, call_error, emit, log_event,
}
use mtb_daemon.Usb.Queue.{pending_cmds}
use mtb_daemon.Usb.Port.{
  pop_pending, pop_out, fail_pending, fail_out, sp_about_to_close, disconnect,
}

module _ {K : Type 0} where
  -- The two queues, the events, and whether the port is open.
  abbrev pub SameView : Usb K → Usb K → Type 0
  SameView s t =
      (t.pending ≡ s.pending) × (t.out ≡ s.out) × (t.events ≡ s.events) × (t.is_open ≡ s.is_open)

  -- Clients that neither send nor close.
  pub record IsQuiet (env : Env K) : Type 0 where
    pub on_call : (k : K) (r : Reply) (s : Usb K) → SameView s (env.call k r s)
    pub on_signal : (sig : Signal) (s : Usb K) → SameView s (env.signal sig s)

  -- The commands are told in order, the latest event first.
  abbrev pub told_closed : List (Cmd K) → List (Event K) → List (Event K)
  told_closed [] es = es
  told_closed (c ∷ cs) es =
      told_closed cs (called c.on_error (failed CmdError.serial_port_closed) ∷ es)

  pop_pending_lem :
      (p : Pending K) (ps : List (Pending K)) (s : Usb K)
      → s.pending ≡ p ∷ ps
      → pop_pending s ≡ record s { pending = ps }
  unfolding pop_pending
  pop_pending_lem p ps s e = rw e refl

  pop_out_lem :
      (c : Cmd K) (cs : List (Cmd K)) (s : Usb K)
      → s.out ≡ c ∷ cs
      → pop_out s ≡ record s { out = cs }
  unfolding pop_out
  pop_out_lem c cs s e = rw e refl

module _ {K : Type 0} (env : Env K) (quiet : IsQuiet env) where
  fail_pending_ends :
      (fuel : ℕ) (ps : List (Pending K)) (s : Usb K)
      → length ps < fuel
      → s.pending ≡ ps
      → (t : Usb K) × (fail_pending fuel env s ≡ some t)
        × (t.pending ≡ [])
        × (t.out ≡ s.out)
        × (t.events ≡ told_closed (pending_cmds ps) s.events)
  unfolding fail_pending pending_cmds
  fail_pending_ends zero ps s h e = absurd (omega arith)
  fail_pending_ends (suc fuel) [] s h e = (s, rw e refl, e, refl, refl)
  fail_pending_ends (suc fuel) (p ∷ ps) s h e =
      let u : Usb K = call_error env p.cmd CmdError.serial_port_closed s in
      let w : Usb K = record u { pending = ps } in
      let told =
        quiet.on_call p.cmd.on_error (failed CmdError.serial_port_closed)
          (log_event (called p.cmd.on_error (failed CmdError.serial_port_closed)) s) in
      let popped : pop_pending u ≡ w = pop_pending_lem p ps u (told.0 ∙ e) in
      let rest = fail_pending_ends fuel ps w (omega arith) refl in
      let step : fail_pending (suc fuel) env s ≡ fail_pending fuel env w =
        ap
          (λ (l : List (Pending K)). elim l as (λ _. Option (Usb K)) [
            | [] ↦ some s
            | q ∷ qs ↦
                fail_pending fuel env
                  (pop_pending (call_error env q.cmd CmdError.serial_port_closed s))
          ])
          e
        ∙ ap (λ v. fail_pending fuel env v) popped in
      (
        rest.0,
        step ∙ rest.1,
        rest.2,
        rest.3 ∙ told.1,
        rest.4 ∙ ap (told_closed (pending_cmds ps)) told.2,
      )

  fail_out_ends :
      (fuel : ℕ) (cs : List (Cmd K)) (s : Usb K)
      → length cs < fuel
      → s.out ≡ cs
      → (t : Usb K) × (fail_out fuel env s ≡ some t)
        × (t.out ≡ [])
        × (t.pending ≡ s.pending)
        × (t.events ≡ told_closed cs s.events)
  unfolding fail_out
  fail_out_ends zero cs s h e = absurd (omega arith)
  fail_out_ends (suc fuel) [] s h e = (s, rw e refl, e, refl, refl)
  fail_out_ends (suc fuel) (c ∷ cs) s h e =
      let u : Usb K = call_error env c CmdError.serial_port_closed s in
      let w : Usb K = record u { out = cs } in
      let told =
        quiet.on_call c.on_error (failed CmdError.serial_port_closed)
          (log_event (called c.on_error (failed CmdError.serial_port_closed)) s) in
      let popped : pop_out u ≡ w = pop_out_lem c cs u (told.1 ∙ e) in
      let rest = fail_out_ends fuel cs w (omega arith) refl in
      let step : fail_out (suc fuel) env s ≡ fail_out fuel env w =
        ap
          (λ (l : List (Cmd K)). elim l as (λ _. Option (Usb K)) [
            | [] ↦ some s
            | d ∷ ds ↦ fail_out fuel env (pop_out (call_error env d CmdError.serial_port_closed s))
          ])
          e
        ∙ ap (λ v. fail_out fuel env v) popped in
      (rest.0, step ∙ rest.1, rest.2, rest.3 ∙ told.0, rest.4 ∙ ap (told_closed cs) told.2)

  sp_about_to_close_lem :
      (fuel : ℕ) (s t u : Usb K)
      → fail_pending fuel env s ≡ some t
      → fail_out fuel env t ≡ some u
      → sp_about_to_close fuel env s ≡ some (record u { info = none; active = none })
  unfolding sp_about_to_close
  sp_about_to_close_lem fuel s t u e f =
      let rest : Option (Usb K) → Option (Usb K) =
        λ r. elim r [ none ↦ none | some v ↦ some (record v { info = none; active = none }) ] in
      ap
        (λ (r : Option (Usb K)). elim r as (λ _. Option (Usb K)) [
          | none ↦ none
          | some v ↦ rest (fail_out fuel env v)
        ])
        e
      ∙ ap rest f

  -- With clients that neither send nor close when they are called, and fuel above the lengths of both
  -- queues, closing an open port ends with the port closed and both queues empty, and the events
  -- are these: every pending command, then every waiting one, has been told once, in order, that the
  -- port is closed, and then the disconnection has been signalled.
  pub disconnect_ends :
      (fuel : ℕ) (s : Usb K)
      → s.is_open ≡ true
      → length s.pending < fuel
      → length s.out < fuel
      → (t : Usb K) × (disconnect fuel env s ≡ some t)
        × (t.is_open ≡ false)
        × (t.pending ≡ [])
        × (t.out ≡ [])
        × (t.events
            ≡ signalled on_disconnect
              ∷ told_closed s.out (told_closed (pending_cmds s.pending) s.events))
  unfolding disconnect sp_about_to_close
  disconnect_ends fuel s o hp ho =
      let first = fail_pending_ends fuel s.pending s hp refl in
      let second = fail_out_ends fuel s.out first.0 ho first.3 in
      let shut : Usb K = record second.0 { info = none; active = none; is_open = false } in
      let final = quiet.on_signal on_disconnect (log_event (signalled on_disconnect) shut) in
      let closed : sp_about_to_close fuel env s
          ≡ some (record second.0 { info = none; active = none }) =
        sp_about_to_close_lem fuel s first.0 second.0 first.1 second.1 in
      let finish : Option (Usb K) → Option (Usb K) = λ r. elim r [
        | none ↦ none
        | some t ↦ some (emit env on_disconnect (record t { is_open = false }))
      ] in
      let opened : disconnect fuel env s ≡ finish (sp_about_to_close fuel env s) =
        if_rule (λ r. r ≡ finish (sp_about_to_close fuel env s)) s.is_open (λ _. refl)
          (λ f. absurd (cc)) in
      (
        emit env on_disconnect shut,
        opened ∙ ap finish closed,
        final.3,
        final.0 ∙ second.3 ∙ first.2,
        final.1 ∙ second.2,
        final.2
            ∙ ap (λ es. signalled on_disconnect ∷ es) (second.4 ∙ ap (told_closed s.out) first.4),
      )
