-- ===== src/Msl/Tests.antt =====
-- A host that meets every hypothesis of the format's theorems, and the values that the runs use.
mod Runs
use memslicer.Prelude.{
  if◌then◌else◌, ◌&&◌, true, leb, ◌≤◌, ◌<◌, ◌⊎◌, ℕ, zero, suc, ◌+◌, ◌-◌, ◌%◌, ◌≡◌, refl, sym, ap,
  ◌∙◌, inl, inr, false, Option, none, some, List, [], ◌∷◌, ◌++◌, length, take, replicate, ok, arith,
  append-nil, length-append, take-append_length,
}
use memslicer.Bytes.{Bytes, encode, zeros}
use memslicer.Msl.Constants.{
  HashAlgo, sha256, file_magic, little, linux, x86_64, clock_realtime, header_size,
}
use memslicer.Msl.Types.{FileHeader, KeyHint}
use memslicer.Msl.Host.{Host, HasSizes, DecompressesAll, Authenticates, gcm_limit}
use memslicer.Msl.Integrity.{make_hasher}
use memslicer.Msl.Writer.{Writer, file_header_format}
use memslicer.Msl.Slice.{IsSlice}
use memslicer.Msl.Encryption.{Cipher, EncryptionParams}
use memslicer.Msl.Encryption.Header.{IsStorable}

-- A compressor that only frames: a 1 before each byte, and a 0 behind the last.
abbrev pub frame : Bytes → Bytes
frame [] = 0 ∷ []
frame (x ∷ b) = 1 ∷ x ∷ frame b

abbrev pub behind_byte : ℕ → Option Bytes → Option Bytes
behind_byte x none = none
behind_byte x (some b) = some (x ∷ b)

abbrev pub unframe : Bytes → Option Bytes
unframe [] = none
unframe (zero ∷ b) = some []
unframe (suc n ∷ []) = none
unframe (suc n ∷ x ∷ b) = behind_byte x (unframe b)

unframe-frame : (b rest : Bytes) → unframe (frame b ++ rest) ≡ some b
unframe-frame [] rest = refl
unframe-frame (x ∷ b) rest = ap (behind_byte x) (unframe-frame b rest)

abbrev pub plain_host : Host
plain_host = record {
  digest = λ a b. (length b % 256) ∷ replicate 31 7;
  zstd_compress = frame;
  zstd_decompress = unframe;
  lz4_compress = frame;
  lz4_decompress = unframe;
  gcm_encrypt = λ key nonce plain aad.
      if leb (length plain) gcm_limit && leb (length aad) gcm_limit
      then some (plain ++ replicate 16 9)
      else none;
  gcm_decrypt = λ key nonce cipher aad. some (take (length cipher - 16) cipher);
  uuid4 = λ n. replicate 16 n;
  now_ns = 1700000000;
}

pub plain_host-HasSizes : HasSizes plain_host
plain_host-HasSizes = record {
  digest_size = λ a b. refl;
  uuid_size = λ n. refl;
  clock_size = omega arith;
}

pub plain_host-DecompressesAll : DecompressesAll plain_host
plain_host-DecompressesAll = record {
  zstd_back = λ b n. unframe-frame b (replicate n 0);
  lz4_back = λ b. ap unframe (sym (append-nil (frame b))) ∙ unframe-frame b [];
  lz4_overrun = λ b n. inr (unframe-frame b (replicate n 0));
}

plain-back :
    (plain : Bytes) → take (length (plain ++ replicate 16 9) - 16) (plain ++ replicate 16 9) ≡ plain
plain-back plain =
    take-append_length (length (plain ++ replicate 16 9) - 16) plain (replicate 16 9)
      (omega (arith, length-append plain (replicate 16 9)))

within : (m n : ℕ) → m ≤ gcm_limit → n ≤ gcm_limit → leb m gcm_limit && leb n gcm_limit ≡ true
within m n h k = ground arith

beyond : (m n : ℕ) → (gcm_limit < m) ⊎ (gcm_limit < n) → leb m gcm_limit && leb n gcm_limit ≡ false
beyond m n h = ground arith

pub plain_host-Authenticates : Authenticates plain_host
plain_host-Authenticates = record {
  encrypts = λ key nonce plain aad hk hn h k. (
    plain ++ replicate 16 9,
    rw (within (length plain) (length aad) h k) refl,
    length-append plain (replicate 16 9),
    ap some (plain-back plain),
  );
  refuses = λ key nonce plain aad hk hn long. rw (beyond (length plain) (length aad) long) refl;
}

abbrev pub linux_header : FileHeader
linux_header = record {
  endianness = little;
  version = (1, 1);
  flags = 2;
  cap_bitmap = 5;
  dump_uuid = replicate 16 3;
  timestamp_ns = 1000;
  os_type = linux;
  arch_type = x86_64;
  pid = 42;
  clock_source = clock_realtime;
  block_count = 0;
  hash_algo = sha256;
}

abbrev pub linux_bytes : Bytes
linux_bytes = encode file_header_format (
  file_magic,
  (
    1,
    (
      header_size,
      (257, (2, (5, (replicate 16 3, (1000, (1, (1, (42, (1, (0, (1, (zeros 2, tt)))))))))))),
    ),
  ),
)

-- The writer behind that header, which compresses with zstd.
abbrev pub linux_writer : Writer
linux_writer = record {
  output = linux_bytes;
  chain = record {
    hash_algo = sha256;
    prev_hash = plain_host.digest sha256 linux_bytes;
    file_hasher = record { algo = sha256; fed = linux_bytes };
  };
  block_index = 0;
  encrypted = false;
  encryptor = none;
  comp_flags = 3;
  drawn = 0;
  warned = 0;
}

pub linux_writer-IsSlice : IsSlice plain_host sha256 linux_bytes [] linux_writer
unfolding make_hasher
linux_writer-IsSlice = record {
  output = refl;
  index = refl;
  plain = refl;
  clear = refl;
  chain_algo = refl;
  file_algo = refl;
  hashed = refl;
  prev = refl;
  comp_flags = inr (inr (inl refl));
  supported = refl;
  blocks_are = tt;
  linked = tt;
}

abbrev pub tls_hint : KeyHint
tls_hint = record {
  region_uuid = replicate 16 4;
  region_offset = 16;
  key_len = 32;
  key_type = 1;
  protocol = 1;
  confidence = 2;
  key_state = 1;
  note = b't' ∷ b'l' ∷ b's' ∷ [];
}

abbrev pub fresh_cipher : Cipher
fresh_cipher = record {
  key = replicate 32 1;
  nonce = replicate 12 2;
  aad = [];
  chunks = (5 ∷ []) ∷ [];
  finalized = false;
}

abbrev pub argon_params : EncryptionParams
argon_params = record {
  enc_algo = 1;
  kdf_type = 1;
  key_encap = 0;
  kdf_time = 3;
  kdf_memory = 65536;
  kdf_lanes = 4;
  kem_ct_len = 0;
  nonce = replicate 12 2;
  kdf_salt = replicate 16 8;
}

pub argon_params-IsStorable : IsStorable argon_params
argon_params-IsStorable = record {
  enc_algo = omega arith;
  kdf_type = omega arith;
  key_encap = omega arith;
  kdf_time = omega arith;
  kdf_memory = omega arith;
  kdf_lanes = omega arith;
  kem_ct_len = omega arith;
  nonce = refl;
  kdf_salt = refl;
}
