-- ===== src/Tests.antt =====
-- Concrete inputs for the theorems about src/mtbusb and src/modules: the daemon with clients that do
-- nothing when they are called, and a port that takes, or refuses, all bytes.
pub mod Modules
pub mod Daemon
pub mod Kinds
pub mod Handlers
use mtb_daemon.Base.{
  ℕ, zero, suc, ◌+◌, ◌*◌, ◌/◌, ◌%◌, ◌≤◌, ◌<◌, ◌≡◌, ◌≢◌, refl, Bool, true, false, Option, none, some,
  List, [], ◌∷◌, ◌++◌, inl, inr, ◌⊎◌, map, replicate, arith,
}
use mtb_daemon.Usb.{Usb, Env, Pending, on_connect, emit, buf_in_timeout}
use mtb_daemon.Usb.Queue.{send_new, frame, conflict_with_out, conflicts}
use mtb_daemon.Usb.Timer.{pending_timer_tick}
use mtb_daemon.Usb.Frame.{next_frame, message, incomplete, resync, read_frames, handle_ready_read}
use mtb_daemon.Usb.Frame.Laws.{wire, deliver}
use mtb_daemon.Usb.Frame.Ends.{
  HasEnded, read_frames-HasEnded, handle_ready_read-deliver, handle_ready_read_split,
}
use mtb_daemon.Usb.Port.{connect}
use mtb_daemon.Usb.Port.{disconnect}
use mtb_daemon.Usb.Port.Closing.{IsQuiet, told_closed, disconnect_ends}
use mtb_daemon.Usb.{signalled, on_disconnect}
use mtb_daemon.Usb.Queue.{pending_cmds}
use mtb_daemon.Usb.Client.{IsClient, stay}
use mtb_daemon.Usb.Invariant.{QueueInv}
use mtb_daemon.Usb.Run.{initial, Runs, start, connects, sends, waits, ticks}
use mtb_daemon.Usb.Run.Queues.{Runs-QueueInv}
use mtb_daemon.Usb.Progress.{IsLive, IsStalled}
use mtb_daemon.Usb.Progress.Live.{Runs-IsLive}
use mtb_daemon.Usb.Progress.Stalled.{Runs-IsStalled, pending_timer_tick_refused-IsStalled}
use mtb_daemon.Common.UsbRecv
use mtb_daemon.Cmd.{
  Cmd, conflict, module_info_request, module_get_inputs, usb_info_request, get_bytes, forward,
}

-- Ports and clients.
abbrev test_env : Bool → Env ℕ
test_env accepts = record { call = λ k r s. s; signal = λ sig s. s; accepts = λ s bytes. accepts }

client : (may_close accepts : Bool) → IsClient may_close (test_env accepts)
client may_close accepts = record { call_Acts = λ k r s. stay; signal_Acts = λ sig s. stay }

abbrev connected : Usb ℕ
connected = emit (test_env true) on_connect (record (initial 0) { is_open = true })

-- Two commands, of which the second waits, and the timer after 400 ms.
abbrev two_sent : Usb ℕ → Usb ℕ
two_sent s =
    send_new (test_env true) (module_info_request 5) 3 4
      (send_new (test_env true) (module_info_request 5) 1 2 s)

abbrev late : Usb ℕ → Usb ℕ
late s = record s { now = s.now + 400 }

run_connects : Runs true (test_env true) (initial 0) connected
unfolding connect
run_connects = connects true start refl refl

Runs-QueueInv_example : QueueInv (pending_timer_tick (test_env true) (late (two_sent connected)))
Runs-QueueInv_example = Runs-QueueInv (test_env true) (client true true) (
    ticks (
      waits 400
        (sends (module_info_request 5) 3 4 (sends (module_info_request 5) 1 2 run_connects))))

Runs-IsLive_example : IsLive (pending_timer_tick (test_env true) (late (two_sent connected)))
Runs-IsLive_example =
    Runs-IsLive (test_env true) (client false true) (λ s bytes. refl)
      (ticks
        (waits 400 (sends (module_info_request 5) 3 4 (sends (module_info_request 5) 1 2 start))))
      (record { opened = refl; served = λ e. refl })

-- A message with the information on MTB-USB, one that a module has failed, and the beginning of a third frame.
tail_IsPartial : next_frame (0x2A ∷ 0x42 ∷ 5 ∷ []) ≡ incomplete
unfolding next_frame
tail_IsPartial = refl

abbrev two_messages : List (ℕ × List ℕ)
two_messages =
    (UsbRecv.mtbusb_info, 1 ∷ 1 ∷ 3 ∷ 4 ∷ 0 ∷ []) ∷ (UsbRecv.module_failed, 5 ∷ 0 ∷ []) ∷ []

abbrev buffered : Usb ℕ
buffered = record connected {
  read_data = wire two_messages ++ 0x2A ∷ 0x42 ∷ 5 ∷ [];
  receive_timeout = connected.now + buf_in_timeout;
}

abbrev restart_timeout : Usb ℕ → Usb ℕ
restart_timeout s = record s { receive_timeout = s.now + buf_in_timeout }

handle_ready_read-deliver_example :
    handle_ready_read (test_env true) (wire two_messages ++ 0x2A ∷ 0x42 ∷ 5 ∷ []) connected
    ≡ restart_timeout (deliver (test_env true) two_messages (0x2A ∷ 0x42 ∷ 5 ∷ []) buffered)
handle_ready_read-deliver_example =
    handle_ready_read-deliver (test_env true) (UsbRecv.mtbusb_info, 1 ∷ 1 ∷ 3 ∷ 4 ∷ 0 ∷ [])
      ((UsbRecv.module_failed, 5 ∷ 0 ∷ []) ∷ []) (0x2A ∷ 0x42 ∷ 5 ∷ []) connected
      (omega arith, (omega arith, tt)) tail_IsPartial refl

read_frames-HasEnded_example :
    HasEnded
      (read_frames 9 (test_env true) (record connected {
        read_data = 0x2A ∷ 0x42 ∷ 1 ∷ 0x24 ∷ 0x2A ∷ 0x42 ∷ 200 ∷ [];
      })).read_data
read_frames-HasEnded_example =
    read_frames-HasEnded (test_env true) 9
      (record connected { read_data = 0x2A ∷ 0x42 ∷ 1 ∷ 0x24 ∷ 0x2A ∷ 0x42 ∷ 200 ∷ [] })
      (omega arith)

rest_lost : resync (0x42 ∷ 3 ∷ 0x24 ∷ 5 ∷ 0 ∷ []) ≡ []
unfolding resync
rest_lost = refl

handle_ready_read_split_example :
    handle_ready_read
      (test_env true)
      (0x42 ∷ 3 ∷ 0x24 ∷ 5 ∷ 0 ∷ [])
      (handle_ready_read (test_env true) (0x2A ∷ []) connected)
    ≡ record connected { receive_timeout = 50 }
handle_ready_read_split_example =
    handle_ready_read_split (test_env true) (0x42 ∷ 3 ∷ 0x24 ∷ 5 ∷ 0 ∷ []) connected refl rest_lost

-- One command is pending and another one waits.
abbrev cmd_to : ℕ → ℕ → Cmd ℕ
cmd_to id m = record { id = id; body = module_info_request m; on_ok = 1; on_error = 2 }

abbrev overdue : Usb ℕ
overdue = record connected {
  pending = (record { cmd = cmd_to 0 5; timeout = 300; no_sent = 1 }) ∷ [];
  out = cmd_to 1 6 ∷ [];
  now = 400;
}

abbrev stalled : Usb ℕ
stalled = record overdue { pending = [] }

no_conflict : conflict_with_out (cmd_to 0 5) overdue ≡ false
unfolding conflict_with_out conflicts conflict
no_conflict = refl

some_out : (cmd_to 1 6 ∷ []) ≢ []
some_out e = absurd (cc)

pending_timer_tick_refused-IsStalled_example :
    IsStalled (pending_timer_tick (test_env false) overdue)
pending_timer_tick_refused-IsStalled_example =
    pending_timer_tick_refused-IsStalled (test_env false) (client false false) overdue
      (record { cmd = cmd_to 0 5; timeout = 300; no_sent = 1 }) refl refl some_out (omega arith)
      (omega arith) no_conflict refl

Runs-IsStalled_example : IsStalled (pending_timer_tick (test_env true) (late (two_sent stalled)))
Runs-IsStalled_example =
    Runs-IsStalled (test_env true) (client false true)
      (ticks
        (waits 400 (sends (module_info_request 5) 3 4 (sends (module_info_request 5) 1 2 start))))
      (record { opened = refl; idle = refl; waiting = some_out })

quiet : IsQuiet (test_env true)
quiet = record {
  on_call = λ k r s. (refl, refl, refl, refl);
  on_signal = λ sig s. (refl, refl, refl, refl);
}

disconnect_ends_example :
    (t : Usb ℕ) × (disconnect 2 (test_env true) overdue ≡ some t)
    × (t.is_open ≡ false)
    × (t.pending ≡ [])
    × (t.out ≡ [])
    × (t.events
        ≡ signalled on_disconnect
          ∷ told_closed overdue.out (told_closed (pending_cmds overdue.pending) overdue.events))
disconnect_ends_example =
    disconnect_ends (test_env true) quiet 2 overdue refl (omega arith) (omega arith)
