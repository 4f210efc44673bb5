-- ===== src/Usb/Run.antt =====
-- The runs of MtbUsb: what the serial port, the timers and the daemon may do to it, in any order.
pub mod Queues
pub mod Steady
use mtb_daemon.Base.{ℕ, zero, suc, ◌+◌, ◌≡◌, Bool, true, false, Option, none, some, List, []}
use mtb_daemon.Cmd.{Body}
use mtb_daemon.Usb.{Usb, Env}
use mtb_daemon.Usb.Queue.{send_new}
use mtb_daemon.Usb.Timer.{pending_timer_tick}
use mtb_daemon.Usb.Frame.{handle_ready_read}
use mtb_daemon.Usb.Port.{connect, disconnect, ping_timer_tick, change_speed, usb_speed_changed}

module _ {K : Type 0} where
  -- The constructor MtbUsb, at some time.
  abbrev pub initial : ℕ → Usb K
  initial now = record {
    is_open = false;
    ping = true;
    pending = [];
    out = [];
    info = none;
    active = none;
    read_data = [];
    receive_timeout = 0;
    now = now;
    next_id = 0;
    events = [];
  }

  -- The states after a state, in any order of the operations. `may_close` tells whether the port is
  -- opened and closed on the way.
  pub data Runs (may_close : Bool) (env : Env K) (s₀ : Usb K) : Usb K → Type 0 where
    start : Runs may_close env s₀ s₀
    connects :
        {s t : Usb K} (opens : Bool)
        → Runs may_close env s₀ s
        → may_close ≡ true
        → connect env opens s ≡ some t
        → Runs may_close env s₀ t
    disconnects :
        {s t : Usb K} (fuel : ℕ)
        → Runs may_close env s₀ s
        → may_close ≡ true
        → disconnect fuel env s ≡ some t
        → Runs may_close env s₀ t
    receives :
        {s : Usb K} (received : List ℕ)
        → Runs may_close env s₀ s
        → Runs may_close env s₀ (handle_ready_read env received s)
    ticks : {s : Usb K} → Runs may_close env s₀ s → Runs may_close env s₀ (pending_timer_tick env s)
    pings :
        {s : Usb K} (on_ok on_error : K)
        → Runs may_close env s₀ s
        → Runs may_close env s₀ (ping_timer_tick env on_ok on_error s)
    sends :
        {s : Usb K} (body : Body) (on_ok on_error : K)
        → Runs may_close env s₀ s
        → Runs may_close env s₀ (send_new env body on_ok on_error s)
    changes_speed :
        {s : Usb K} (speed : ℕ) (nothing on_ok on_error : K)
        → Runs may_close env s₀ s
        → Runs may_close env s₀ (change_speed env speed nothing on_ok on_error s)
    waits :
        {s : Usb K} (ms : ℕ)
        → Runs may_close env s₀ s
        → Runs may_close env s₀ (record s { now = s.now + ms })
