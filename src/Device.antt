-- ===== src/Device.antt =====
-- crates/elusive/src/vfs.rs: `major` and `minor` of a device number.
use Prim.Native.Nat.{bit_and, bit_or}
use elusive.Base.{ℕ, ◌/◌, ◌^◌}

-- `dev >> k`
abbrev pub shr : ℕ → ℕ → ℕ
shr dev k = dev / 2 ^ k

unfoldable pub major : ℕ → ℕ
major dev = bit_or (bit_and (shr dev 32) 0xffff_f000) (bit_and (shr dev 8) 0x0000_0fff)

unfoldable pub minor : ℕ → ℕ
minor dev = bit_or (bit_and (shr dev 12) 0xffff_ff00) (bit_and dev 0x0000_00ff)
