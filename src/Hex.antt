-- ===== src/Hex.antt =====
-- The format `{:08x}` of `write!`, and reading such a field back.
pub mod Field
use elusive.Base.{
  ℕ, zero, suc, ◌+◌, ◌-◌, ◌*◌, ◌/◌, ◌%◌, Bool, ◌&&◌, Option, none, some, [], ◌∷◌, ◌++◌, Bytes, ltb,
  leb, ◌==◌, if◌then◌else◌, length, replicate,
}

unfoldable pub hex_digit : ℕ → ℕ
hex_digit d = if ltb d 10 then b'0' + d else b'a' + (d - 10)

-- The digits of a number below 16 ^ `fuel`, without leading zeros; at least one.
unfoldable pub lower_hex : ℕ → ℕ → Bytes
lower_hex zero n = []
lower_hex (suc fuel) n =
    let last = hex_digit (n % 16) ∷ [] in
    let front = lower_hex fuel (n / 16) in if n / 16 == 0 then last else front ++ last

-- `{n:08x}` of a 64-bit integer: sixteen digits hold any, and zeros fill the field up to eight.
unfoldable pub format_08x : ℕ → Bytes
unfolding lower_hex hex_digit
format_08x n = let digits = lower_hex 16 n in replicate (8 - length digits) b'0' ++ digits

unfoldable pub hex_value : ℕ → Option ℕ
hex_value c =
    if leb b'0' c && leb c b'9'
    then some (c - b'0')
    else if leb b'a' c && leb c b'f'
    then some (c - b'a' + 10)
    else none

abbrev pub shift_in : ℕ → Option ℕ → Option ℕ
shift_in acc none = none
shift_in acc (some d) = some (acc * 16 + d)

unfoldable pub read_hex : Option ℕ → Bytes → Option ℕ
unfolding hex_value
read_hex none s = none
read_hex (some acc) [] = some acc
read_hex (some acc) (c ∷ s) = read_hex (shift_in acc (hex_value c)) s
