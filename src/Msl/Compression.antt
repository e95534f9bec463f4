-- ===== src/Msl/Compression.antt =====
-- memslicer/msl/compression.py.
pub mod Laws
use memslicer.Prelude.{
  ℕ, zero, suc, ◌+◌, ◌-◌, Option, none, some, length, take, leb, ◌==◌, if◌then◌else◌, Result, ok,
  err, codec_error, value_error, size_mismatch,
}
use memslicer.Bytes.{Bytes}
use memslicer.Msl.Constants.{CompAlgo, uncompressed, zstd, lz4}
use memslicer.Msl.Host.{Host}

-- data[:len(data) - pad]: past the front Python counts from the end again.
unfoldable pub drop_last : ℕ → Bytes → Bytes
drop_last pad b =
    if leb pad (length b) then take (length b - pad) b else take (length b - (pad - length b)) b

-- `raise last_err`, or the ValueError where no attempt raised.
abbrev pub no_attempt : Option (Unit {0}) → Result Bytes
no_attempt none = err (value_error size_mismatch)
no_attempt (some tt) = err codec_error

-- a decompressor that raises
abbrev pub from_codec : Option Bytes → Result Bytes
from_codec none = err codec_error
from_codec (some b) = ok b

module _ (host : Host) where
  unfoldable pub compress : Bytes → CompAlgo → Bytes
  compress b uncompressed = b
  compress b zstd = host.zstd_compress b
  compress b lz4 = host.lz4_compress b

  -- `for pad in range(0, 8)`, with the rounds left and the exception caught last
  unfoldable pub strip_padding : ℕ → ℕ → Bytes → ℕ → Option (Unit {0}) → Result Bytes
  strip_padding zero pad b size last = no_attempt last
  strip_padding (suc rounds) pad b size last =
      let on_error = strip_padding rounds (pad + 1) b size (some tt) in
      let on_other = strip_padding rounds (pad + 1) b size last in
      elim (host.lz4_decompress (if pad == 0 then b else drop_last pad b)) [
        | none ↦ on_error
        | some out ↦ if length out == size then ok out else on_other
      ]

  unfoldable pub decompress : Bytes → CompAlgo → Option ℕ → Result Bytes
  unfolding strip_padding drop_last
  decompress b uncompressed size = ok b
  decompress b zstd size = from_codec (host.zstd_decompress b)
  decompress b lz4 none = from_codec (host.lz4_decompress b)
  decompress b lz4 (some size) = strip_padding 8 0 b size none
