-- ===== src/Base/Words.antt =====
-- Bytes and bits: fixed-width values are numbers below a power of two.
use Prim.Native.Nat.{ℕ, ◌+◌, ◌*◌, ◌/◌, ◌%◌, ◌^◌, ◌<◌}
use mathlib.Core.Bool.{Bool}
use mtb_daemon.Base.Tests.{◌==◌}

-- Bit `i` of `x`.
abbrev pub bit : ℕ → ℕ → Bool
bit x i = (x / 2 ^ i) % 2 == 1

-- (hi << 8) | lo of two bytes, where `lo` is below 256.
abbrev pub word : ℕ → ℕ → ℕ
word hi lo = hi * 256 + lo

abbrev pub IsByte : ℕ → Type 0
IsByte b = b < 256
