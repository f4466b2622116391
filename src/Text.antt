-- ===== src/Text.antt =====
-- `str`: what the program uses of texts, as bytes.
use elusive.Base.{
  ℕ, zero, suc, Bool, true, false, ◌&&◌, ◌||◌, Option, none, some, List, [], ◌∷◌, ◌++◌, Bytes, ltb,
  leb, ◌==◌, if◌then◌else◌, length, drop, ◌-◌, ◌+◌, Result, ok, err, map_ok,
}
use elusive.Base.Order.{same, nat_ord, list_ord}

-- `split(sep)`; `cur` is what was read of the current part.
unfoldable pub split_from : ℕ → Bytes → Bytes → List Bytes
split_from sep [] cur = cur ∷ []
split_from sep (c ∷ s) cur =
    let next = split_from sep s [] in
    let more = split_from sep s (cur ++ (c ∷ [])) in if c == sep then cur ∷ next else more

unfoldable pub split : ℕ → Bytes → List Bytes
unfolding split_from
split sep s = split_from sep s []

-- `strip_prefix(prefix)`
unfoldable pub strip_prefix : Bytes → Bytes → Option Bytes
strip_prefix [] s = some s
strip_prefix (b ∷ bs) [] = none
strip_prefix (b ∷ bs) (c ∷ s) = if b == c then strip_prefix bs s else none

-- `ends_with(suffix)`
unfoldable pub ends_with : Bytes → Bytes → Bool
unfolding list_ord
ends_with suffix s =
    if leb (length suffix) (length s)
    then same (drop (length s - length suffix) s) suffix
    else false

abbrev pub member : ℕ → Bytes → Bool
member c [] = false
member c (d ∷ ds) = c == d || member c ds

-- `trim_start_matches(chars)`
unfoldable pub trim_start_matches : Bytes → Bytes → Bytes
trim_start_matches chars [] = []
trim_start_matches chars (c ∷ s) = if member c chars then trim_start_matches chars s else c ∷ s

-- What follows a first byte of UTF-8: how many bytes, and the range of the next one.
unfoldable pub sequence : ℕ → Option (ℕ × ℕ × ℕ)
sequence b =
    if ltb b 0x80
    then some (0, 0x80, 0xbf)
    else if leb 0xc2 b && leb b 0xdf
    then some (1, 0x80, 0xbf)
    else if b == 0xe0
    then some (2, 0xa0, 0xbf)
    else if b == 0xed
    then some (2, 0x80, 0x9f)
    else if leb 0xe1 b && leb b 0xef
    then some (2, 0x80, 0xbf)
    else if b == 0xf0
    then some (3, 0x90, 0xbf)
    else if leb 0xf1 b && leb b 0xf3
    then some (3, 0x80, 0xbf)
    else if b == 0xf4
    then some (3, 0x80, 0x8f)
    else none

-- `n` bytes are still missing, and the next must lie between `lo` and `hi`.
unfoldable pub utf8_from : ℕ → ℕ → ℕ → Bytes → Bool
unfolding sequence
utf8_from zero lo hi [] = true
utf8_from (suc n) lo hi [] = false
utf8_from zero lo hi (b ∷ s) = elim (sequence b) [
  | none ↦ false
  | some (n, lo', hi') ↦ utf8_from n lo' hi' s
]
utf8_from (suc n) lo hi (b ∷ s) = (leb lo b && leb b hi) && utf8_from n 0x80 0xbf s

-- `str::from_utf8(bytes).is_ok()`
unfoldable pub is_utf8 : Bytes → Bool
unfolding utf8_from
is_utf8 s = utf8_from 0 0x80 0xbf s

-- `CString::new(bytes)?.into_bytes_with_nul()`; `i` counts the bytes that were read.
-- The error is the position of an inner NUL.
unfoldable pub nul_terminated : ℕ → Bytes → Result ℕ Bytes
nul_terminated i [] = ok (0 ∷ [])
nul_terminated i (b ∷ bytes) =
    if b == 0 then err i else map_ok (λ rest. b ∷ rest) (nul_terminated (i + 1) bytes)
