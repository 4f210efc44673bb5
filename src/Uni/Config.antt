-- ===== src/Uni/Config.antt =====
-- src/modules/uni.cpp: the binary form of a configuration, MtbUniConfig::serializeForMtbUsb and
-- fromMtbUsb.
pub mod Laws
use mtb_daemon.Base.{
  ℕ, zero, suc, ◌+◌, ◌*◌, ◌/◌, ◌%◌, Bool, List, [], ◌∷◌, ◌++◌, leb, ltb, if◌then◌else◌, get_or,
  take, length, word,
}
use mtb_daemon.Uni.{UniConfig, uni_io_cnt}

-- std::min<uint8_t>(delay, 0xF).
unfoldable pub nibble : ℕ → ℕ
nibble delay = if leb (delay % 256) 0xF then delay % 256 else 0xF

-- The loop over pairs of delays: the second of two in the high nibble.
unfoldable pub pack_delays : List ℕ → List ℕ
unfolding nibble
pack_delays [] = []
pack_delays (a ∷ []) = []
pack_delays (a ∷ b ∷ delays) = (nibble a + nibble b * 16) ∷ pack_delays delays

unfoldable pub serialize_for_mtb_usb : UniConfig → Bool → List ℕ
unfolding pack_delays
serialize_for_mtb_usb c with_irs =
    c.outputs_safe
    ++ (pack_delays c.inputs_delay ++ (if with_irs then (c.irs / 256) ∷ (c.irs % 256) ∷ [] else []))

-- The loop over delays: two from each byte, from data[0] on.
unfoldable pub unpack_delays : List ℕ → List ℕ
unpack_delays [] = []
unpack_delays (b ∷ bytes) = (b % 16) ∷ (b / 16 % 16) ∷ unpack_delays bytes

unfoldable pub from_mtb_usb : List ℕ → UniConfig → UniConfig
unfolding unpack_delays
from_mtb_usb bytes c = if ltb (length bytes) 24 then c else record {
  outputs_safe = take uni_io_cnt bytes;
  inputs_delay = unpack_delays (take 8 bytes);
  irs = if leb 26 (length bytes) then word (get_or bytes 24 0) (get_or bytes 25 0) else 0;
}
