-- ===== src/Encoder/Names.antt =====
-- Encoder.from_str of crates/elusive/src/encoder.rs.
use elusive.Base.{Bytes, codes, ◌≡◌, ◌↔◌, refl, ok, arith}
use elusive.Base.Order.{nat_ord, list_ord, same-eq}
use elusive.Encoder.{Encoder, no_encoder, gzip, zstd, from_str}

abbrev pub name_of : Encoder → Bytes
name_of no_encoder = codes "none"
name_of gzip = codes "gzip"
name_of zstd = codes "zstd"

named : (e : Encoder) → from_str (name_of e) ≡ ok e
unfolding from_str
named no_encoder = refl
named gzip = refl
named zstd = refl

read : (s : Bytes) (e : Encoder) → from_str s ≡ ok e → s ≡ name_of e
unfolding from_str
read s e h =
    ground (arith, same-eq s (codes "none"), same-eq s (codes "gzip"), same-eq s (codes "zstd"))

-- a text is read as an encoder exactly if it is that encoder's name: none, gzip or zstd.
pub from_str-ok_iff : (s : Bytes) (e : Encoder) → (from_str s ≡ ok e) ↔ (s ≡ name_of e)
from_str-ok_iff s e = (read s e, λ h. rw h (named e))
