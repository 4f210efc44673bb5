-- ===== src/Usb/Client.antt =====
-- What the clients of MtbUsb may do to it from a callback or a slot: they reach its private state
-- only through `send`, `changeSpeed` and `disconnect`. A run of a client is a sequence of the small
-- steps that these operations are made of.
use mtb_daemon.Base.{suc, ◌≡◌, Bool, true, false, Option, none, [], ◌∷◌, ◌++◌, drop}
use mtb_daemon.Cmd.{Cmd, Body, get_bytes}
use mtb_daemon.Cmd.Reply.{Reply}
use mtb_daemon.Usb.{Usb, UsbInfo, Event, Env, Signal, written, log_event}
use mtb_daemon.Usb.Queue.{must_wait, push_pending, frame}

module _ {K : Type 0} where
  -- The command object that `send(const T&&)` allocates, and the state after its allocation.
  abbrev pub fresh : Body → K → K → Usb K → Cmd K
  fresh body on_ok on_error s = record {
    id = s.next_id;
    body = body;
    on_ok = on_ok;
    on_error = on_error;
  }

  abbrev pub allocate : Usb K → Usb K
  allocate s = record s { next_id = suc s.next_id }

  -- `may_close` tells whether the client may call `disconnect`.
  pub data Step (may_close : Bool) : Usb K → Usb K → Type 0 where
    observe : (e : Event K) (s : Usb K) → Step may_close s (log_event e s)
    enqueue :
        (body : Body) (on_ok on_error : K) (s : Usb K)
        → must_wait (fresh body on_ok on_error s) false (allocate s) ≡ true
        → Step may_close s (record (allocate s) { out = s.out ++ fresh body on_ok on_error s ∷ [] })
    transmit :
        (body : Body) (on_ok on_error : K) (s : Usb K)
        → must_wait (fresh body on_ok on_error s) false (allocate s) ≡ false
        → Step may_close s (
            push_pending
              (fresh body on_ok on_error s)
              1
              (log_event (written (frame (get_bytes body))) (allocate s)))
    fail_to_transmit : (s : Usb K) → Step may_close s (allocate s)
    set_info : (info : Option UsbInfo) (s : Usb K) → Step may_close s (record s { info = info })
    drop_pending :
        (s : Usb K) → may_close ≡ true → Step may_close s (record s { pending = drop 1 s.pending })
    drop_out : (s : Usb K) → may_close ≡ true → Step may_close s (record s { out = drop 1 s.out })
    close :
        (s : Usb K)
        → may_close ≡ true
        → s.pending ≡ []
        → s.out ≡ []
        → Step may_close s (record s { is_open = false; info = none; active = none })

  pub data Acts (may_close : Bool) (s : Usb K) : Usb K → Type 0 where
    stay : Acts may_close s s
    next : {t u : Usb K} → Acts may_close s t → Step may_close t u → Acts may_close s u

  -- Callbacks and slots act through the public interface only.
  pub record IsClient (may_close : Bool) (env : Env K) : Type 0 where
    pub call_Acts : (k : K) (r : Reply) (s : Usb K) → Acts may_close s (env.call k r s)
    pub signal_Acts : (sig : Signal) (s : Usb K) → Acts may_close s (env.signal sig s)
