-- ===== src/Msl/Host.antt =====
-- What the format code takes from packages outside the repository, as an interface: the three
-- digests (blake3, hashlib), the two compressors (zstandard, lz4) and AES-256-GCM (cryptography),
-- and the values that `uuid.uuid4` and `time.time_ns` hand out.
use memslicer.Prelude.{ℕ, ◌+◌, ◌<◌, ◌≤◌, ◌≡◌, ◌⊎◌, Option, none, some, ◌++◌, length, replicate}
use memslicer.Bytes.{Bytes}
use memslicer.Msl.Constants.{HashAlgo}

pub record Host : Type 0 where
  -- the digest of all the bytes that a hasher of this algorithm was given
  pub digest : HashAlgo → Bytes → Bytes
  pub zstd_compress : Bytes → Bytes
  -- `none` where the decompressor raises
  pub zstd_decompress : Bytes → Option Bytes
  pub lz4_compress : Bytes → Bytes
  pub lz4_decompress : Bytes → Option Bytes
  -- key, nonce, plaintext, associated data; the answer ends in the tag, `none` is OverflowError
  pub gcm_encrypt : Bytes → Bytes → Bytes → Bytes → Option Bytes
  -- key, nonce, ciphertext with tag, associated data; `none` is InvalidTag
  pub gcm_decrypt : Bytes → Bytes → Bytes → Bytes → Option Bytes
  -- the identifier of the n-th call of `uuid.uuid4`
  pub uuid4 : ℕ → Bytes
  pub now_ns : ℕ

-- Digests have 32 bytes and identifiers 16, and the clock fits 64 bits.
pub record HasSizes (h : Host) : Type 0 where
  pub digest_size : (a : HashAlgo) (b : Bytes) → length (h.digest a b) ≡ 32
  pub uuid_size : (n : ℕ) → length (h.uuid4 n) ≡ 16
  pub clock_size : h.now_ns < 18446744073709551616

-- A zstd frame is self-delimiting: bytes behind it are ignored. The lz4 block format is not: with
-- bytes behind the block its decompressor raises, or answers what it answers without them.
pub record DecompressesAll (h : Host) : Type 0 where
  pub zstd_back :
      (b : Bytes) (n : ℕ) → h.zstd_decompress (h.zstd_compress b ++ replicate n 0) ≡ some b
  pub lz4_back : (b : Bytes) → h.lz4_decompress (h.lz4_compress b) ≡ some b
  pub lz4_overrun :
      (b : Bytes) (n : ℕ)
      → (h.lz4_decompress (h.lz4_compress b ++ replicate n 0) ≡ none)
        ⊎ (h.lz4_decompress (h.lz4_compress b ++ replicate n 0) ≡ some b)

-- The bytes that AESGCM.encrypt takes at most, of plaintext and of associated data.
abbrev pub gcm_limit : ℕ
gcm_limit = 2147483647

-- AES-GCM with a key of 32 and a nonce of 12 bytes. Within its limit encryption succeeds: the answer
-- has the plaintext's length and 16 bytes more, and decrypts to the plaintext under the same key,
-- nonce and associated data. Beyond the limit it raises OverflowError.
pub record Authenticates (h : Host) : Type 0 where
  pub encrypts :
      (key nonce plain aad : Bytes)
      → length key ≡ 32
      → length nonce ≡ 12
      → length plain ≤ gcm_limit
      → length aad ≤ gcm_limit
      → (both : Bytes) × (h.gcm_encrypt key nonce plain aad ≡ some both)
        × (length both ≡ length plain + 16)
        × (h.gcm_decrypt key nonce both aad ≡ some plain)
  pub refuses :
      (key nonce plain aad : Bytes)
      → length key ≡ 32
      → length nonce ≡ 12
      → (gcm_limit < length plain) ⊎ (gcm_limit < length aad)
      → h.gcm_encrypt key nonce plain aad ≡ none
