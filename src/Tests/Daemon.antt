-- ===== src/Tests/Daemon.antt =====
-- Runs of the daemon, with modules of all classes.
use Prim.Native.String.{String}
use text.Mathlib.Text.{◌==◌ as str_eq}
use mtb_daemon.Base.{
  ℕ, Option, if◌then◌else◌, suc, ◌+◌, ◌≡◌, refl, true, false, none, some, List, [], ◌∷◌, ◌==◌, inl,
  inr, replicate, Bool-cases, arith,
}
use mtb_daemon.Json.{number, fraction, string, array, nil, cons, Fields, end, field}
use mtb_daemon.Json.Safe.{safe_string_at, safe_string}
use mtb_daemon.Server.{member}
use mtb_daemon.Uni.Kind.{Uni}
use mtb_daemon.Classes.{AnyModule, a_uni, Setup, Outside, setup_of, class_ops}
use mtb_daemon.Classes.Laws.{class_laws}
use mtb_daemon.Daemon.{Daemon, put}
use mtb_daemon.Daemon.Modules.{ModuleOps, OutputLaws}
use mtb_daemon.Daemon.Files.{Surroundings, has_write_access}
use mtb_daemon.Daemon.Subscriptions.Relation.{Step, subscribes, leaves, subscribed_after_all}
use mtb_daemon.Daemon.Subscriptions.Refinement.{do_steps, do_steps_refines}
use mtb_daemon.Daemon.Outputs.{output_setters, client_gone, cmd_reset_my_outputs}
use mtb_daemon.Daemon.Outputs.Laws.{AllWell, client_outputs_gone}
use mtb_daemon.Daemon.Activation.{activate_module}
use mtb_daemon.Daemon.Activation.Laws.{info_requests, failures, info_requests-failures}
use mtb_daemon.Daemon.Answers.{is_daemons, Answered}
use mtb_daemon.Daemon.Answers.Laws.{server_received-Answered}
use mtb_daemon.Daemon.Access.{ReadsOnly, server_received-ReadsOnly}
use mtb_daemon.Daemon.Received.{command_of, module_set_config, of_module, unknown, server_received}
use mtb_daemon.Daemon.Lines.{Line, blank, no_json, request, client_ready_read}
use mtb_daemon.Daemon.Lines.Laws.{IsConfined, client_ready_read-IsConfined}
use mtb_daemon.Daemon.Start.{start}
use mtb_daemon.Daemon.Start.Laws.{start-write_access}
use mtb_daemon.Tests.Modules.{test_uni}

-- One digit numbers, and no firmware.
abbrev pub digit : String → Option ℕ
digit t = if str_eq t "3" then some 3 else none

-- Delays that are whole numbers or fractions of JSON.
abbrev pub test_outside : Outside
test_outside = record {
  to_int = digit;
  show = λ n. "7";
  tenths = some;
  tenth = fraction;
  firmware_of = λ fs. none;
  uni_repr = λ s dv bytes. end;
  unis_repr = λ s dv bytes. end;
  beyond = 0;
  active_at = λ addr. false;
}

abbrev pub test_setup : Setup
test_setup = setup_of test_outside

instance abbrev pub test_ops : ModuleOps AnyModule
test_ops = class_ops test_setup

instance abbrev test_laws : OutputLaws AnyModule
test_laws = class_laws test_setup

-- Clients 1 and 2 set outputs of module 7.
abbrev set_by_two : Uni
set_by_two = record test_uni {
  config = some (record { outputs_safe = replicate 16 0; inputs_delay = replicate 16 0; irs = 0 });
  who_set_output = some 1 ∷ some 2 ∷ replicate 14 none;
}

abbrev pub test_daemon : Daemon AnyModule
test_daemon = record {
  modules = put 7 (some (a_uni set_by_two)) (λ i. none);
  subscribes = λ i. [];
  topo_subscribes = [];
  clients = 1 ∷ 2 ∷ [];
  write_access = "192.168.0.1" ∷ [];
  config = end;
  config_file_name = "mtb-daemon.json";
  reconnecting = false;
  new_timer_pending = false;
  fail_timer_pending = false;
  connected = true;
  usb_info = none;
  active_modules = none;
  effects = [];
}

abbrev pub around : Surroundings
around = record {
  peer = λ c. "127.0.0.1";
  read_file = λ name. none;
  writable = λ name. true;
  text_to_int = λ t. 0;
  int_to_text = λ n. "";
  key = λ n. "";
  usb_ports = [];
  ports = [];
  opens = λ port. true;
  build_version = end;
}

-- Subscribing to modules 7 and 9 and to all, and a client that leaves.
abbrev two_addresses : Fields
two_addresses =
    field "command" (string "module_subscribe")
      (field "addresses" (array (cons (number 7) (cons (number 9) nil))) end)

abbrev no_addresses : Fields
no_addresses = field "command" (string "module_subscribe") end

abbrev visits : List Step
visits = subscribes 1 two_addresses ∷ subscribes 2 no_addresses ∷ leaves 2 ∷ []

do_steps_refines_example :
    member 1 ((do_steps visits test_daemon).subscribes 9)
    ≡ subscribed_after_all visits 1 9 (member 1 (test_daemon.subscribes 9))
do_steps_refines_example = do_steps_refines visits test_daemon 1 9 (omega arith)

test_daemon-AllWell : AllWell test_daemon.modules
test_daemon-AllWell i h = elim (Bool-cases (i == 7)) [
  | inl e ↦ rw e (refl, inr (_, refl, refl))
  | inr e ↦ rw e tt
]

client_outputs_gone_example :
    (member 1 (output_setters (client_gone 1 test_daemon)) ≡ false)
    × (member 1 (output_setters (cmd_reset_my_outputs 1 no_addresses test_daemon)) ≡ false)
client_outputs_gone_example = client_outputs_gone 1 no_addresses test_daemon test_daemon-AllWell

info_requests-failures_example :
    info_requests 9 (failures (5 + 5 + 3) 0x12 (activate_module 9 5 test_daemon)).effects
    ≡ suc 5 + info_requests 9 test_daemon.effects
info_requests-failures_example = info_requests-failures 5 3 0x12 9 test_daemon refl refl

test_no_access : has_write_access around 1 test_daemon ≡ false
unfolding has_write_access
test_no_access = refl

abbrev delete_request : Fields
delete_request = field "command" (string "module_delete") (field "address" (number 7) end)

server_received-ReadsOnly_example :
    ReadsOnly 1 delete_request test_daemon (server_received around 1 delete_request test_daemon)
server_received-ReadsOnly_example =
    server_received-ReadsOnly around 1 delete_request test_daemon test_no_access

test_command_of : command_of "module_set_config" ≡ module_set_config
unfolding command_of
test_command_of = refl

test_command_of_module : command_of "module_reboot" ≡ of_module
unfolding command_of
test_command_of_module = refl

test_command_of_unknown : command_of "reboot" ≡ unknown
unfolding command_of
test_command_of_unknown = refl

abbrev version_request : Fields
version_request = field "command" (string "version") end

test_version_text : safe_string_at version_request "command" ≡ some "version"
unfolding safe_string_at safe_string
test_version_text = refl

test_version : is_daemons (command_of "version") ≡ true
unfolding command_of
test_version = refl

server_received-Answered_example :
    Answered 2 test_daemon (server_received around 2 version_request test_daemon)
server_received-Answered_example =
    server_received-Answered around 2 version_request test_daemon "version" refl refl
      test_version_text test_version

abbrev some_lines : List Line
some_lines = request delete_request ∷ blank ∷ request version_request ∷ no_json ∷ []

client_ready_read-IsConfined_example :
    IsConfined 1 test_daemon (client_ready_read around 1 some_lines test_daemon).0
client_ready_read-IsConfined_example =
    client_ready_read-IsConfined around 1 some_lines test_daemon test_no_access

start-write_access_example :
    (start around false (λ server. true) none test_daemon).daemon.write_access
    ≡ test_daemon.write_access
start-write_access_example = start-write_access around (λ server. true) none test_daemon
