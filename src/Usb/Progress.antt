-- ===== src/Usb/Progress.antt =====
-- Whether waiting commands of MtbUsb (src/mtbusb/mtbusb-send.cpp) are served.
pub mod Steps
pub mod Live
pub mod Stalled
use mtb_daemon.Base.{◌≡◌, ◌≢◌, Bool, true, false, List, []}
use mtb_daemon.Usb.{Usb}

module _ {K : Type 0} where
  -- Commands wait to be sent only while some command is pending.
  pub record IsLive (s : Usb K) : Type 0 where
    pub opened : s.is_open ≡ true
    pub served : s.pending ≡ [] → s.out ≡ []

  -- Commands wait to be sent, and none is pending.
  pub record IsStalled (s : Usb K) : Type 0 where
    pub opened : s.is_open ≡ true
    pub idle : s.pending ≡ []
    pub waiting : s.out ≢ []
