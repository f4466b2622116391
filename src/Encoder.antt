-- ===== src/Encoder.antt =====
-- crates/elusive/src/encoder.rs: the encoders and their names. Encoder/Stream has the compression.
pub mod Names
pub mod Stream
use elusive.Base.{Bytes, codes, if◌then◌else◌, Result, ok, err}
use elusive.Base.Order.{same, nat_ord, list_ord}
use elusive.Host.{IoError}

pub data EncoderError : Type 0 where
  input_output : IoError → EncoderError
  unknown_encoder : Bytes → EncoderError

pub data Encoder : Type 0 where
  no_encoder gzip zstd : Encoder

-- `Encoder::from_str`
unfoldable pub from_str : Bytes → Result EncoderError Encoder
unfolding list_ord
from_str s =
    if same s (codes "none")
    then ok no_encoder
    else if same s (codes "gzip")
    then ok gzip
    else if same s (codes "zstd")
    then ok zstd
    else err (unknown_encoder s)
