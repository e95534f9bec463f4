-- ===== src/Msl/Writer.antt =====
-- memslicer/msl/writer.py: the writer's state, the file header and `_write_block`. A method is a
-- function of the writer to its answer or exception and the writer after it.
pub mod Methods
use memslicer.Prelude.{
  ℕ, zero, suc, ◌+◌, ◌-◌, ◌*◌, ◌/◌, ◌^◌, Bool, true, false, not, Option, none, some, List, [], ◌∷◌,
  ◌++◌, length, bit_and, bit_or, ◌==◌, ltb, leb, if◌then◌else◌, Result, ok, err, value_error,
  payload_too_large, unknown_comp_algo, require, ◌>>=◌, ◌>>◌,
}
use memslicer.Bytes.{Bytes, Format, u8, u16, u32, u64, str, pack, zeros}
use memslicer.Utils.{pad_bytes}
use memslicer.Msl.Constants.{
  file_magic, block_magic, header_size, encrypted_header_size, block_header_size, compressed,
  compalgo_mask, endianness_code, os_code, arch_code, clock_code, hash_code, BlockType, block_code,
  CompAlgo, uncompressed, zstd, lz4, comp_code, comp_of_code,
}
use memslicer.Msl.Types.{FileHeader}
use memslicer.Msl.Host.{Host}
use memslicer.Msl.Integrity
use memslicer.Msl.Integrity.{Chain, new_chain, feed_header, feed_block_parts}
use memslicer.Msl.Compression.{compress}
use memslicer.Msl.Encryption
use memslicer.Msl.Encryption.{EncryptionParams, pack_encryption_extension, Cipher, new_cipher}

-- `output` is what was written to the file, `drawn` counts the calls of `uuid.uuid4`, and `warned`
-- the warnings. `encryptor` is set exactly in a writer with a key, once its header is written.
pub record Writer : Type 0 where
  pub output : Bytes
  pub chain : Chain
  pub block_index : ℕ
  pub encrypted : Bool
  pub encryptor : Option Cipher
  pub comp_flags : ℕ
  pub drawn : ℕ
  pub warned : ℕ

abbrev pub Exec {ℓ} : Type ℓ → Type ℓ
Exec A = Writer → Result A × Writer

-- "<8sBBHIQ16sQHHIBIB2s"
abbrev pub file_header_format : Format
file_header_format =
    str 8 ∷ u8 ∷ u8 ∷ u16 ∷ u32 ∷ u64 ∷ str 16 ∷ u64 ∷ u16 ∷ u16 ∷ u32 ∷ u8 ∷ u32 ∷ u8 ∷ str 2 ∷ []

unfoldable pub base_header : FileHeader → ℕ → Result Bytes
unfolding endianness_code os_code arch_code clock_code hash_code zeros
base_header h size = pack file_header_format (
  file_magic,
  (
    endianness_code h.endianness,
    (
      size,
      (
        bit_or (h.version.0 * 256) h.version.1,
        (
          h.flags,
          (
            h.cap_bitmap,
            (
              h.dump_uuid,
              (
                h.timestamp_ns,
                (
                  os_code h.os_type,
                  (
                    arch_code h.arch_type,
                    (
                      h.pid,
                      (
                        clock_code h.clock_source,
                        (h.block_count, (hash_code h.hash_algo, (zeros 2, tt))),
                      ),
                    ),
                  ),
                ),
              ),
            ),
          ),
        ),
      ),
    ),
  ),
)

-- The header's bytes: 64, or 128 with the encryption extension.
unfoldable pub header_bytes : FileHeader → Option EncryptionParams → Result Bytes
unfolding base_header pack_encryption_extension
header_bytes h none = base_header h header_size
header_bytes h (some p) = do
  base ← base_header h encrypted_header_size
  extension ← pack_encryption_extension p
  ok (base ++ extension)

-- COMPRESSED | (int(comp_algo) << 1)
unfoldable pub flags_of : CompAlgo → ℕ
flags_of uncompressed = 0
flags_of zstd = 3
flags_of lz4 = 5

-- The key and the parameters of an encrypted file; `none` for no key, or the empty one, which
-- Python takes for none.
abbrev pub Keying : Type 0
Keying = Option (Bytes × EncryptionParams)

abbrev params_in : Keying → Option EncryptionParams
params_in none = none
params_in (some (key, p)) = some p

abbrev cipher_for : Keying → Bytes → Result (Option Cipher)
cipher_for none header = ok none
cipher_for (some (key, p)) header = do c ← new_cipher key p.nonce header; ok (some c)

abbrev is_keyed : Keying → Bool
is_keyed none = false
is_keyed (some k) = true

-- "<4sHHIHH16s16s32s"
abbrev pub block_header_format : Format
block_header_format = str 4 ∷ u16 ∷ u16 ∷ u32 ∷ u16 ∷ u16 ∷ str 16 ∷ str 16 ∷ str 32 ∷ []

-- 2^32 - 1 - 80
abbrev pub max_payload : ℕ
max_payload = 4294967215

-- An absent parent is sixteen zeros.
unfoldable pub parent_or_zeros : Option Bytes → Bytes
parent_or_zeros none = zeros 16
parent_or_zeros (some p) = p

module _ (host : Host) where
  -- MSLWriter(output, header, comp_algo, key, params)
  unfoldable pub new_writer : FileHeader → CompAlgo → Keying → Result Writer
  unfolding new_chain header_bytes flags_of feed_header new_cipher
  new_writer h algo keying = do
    chain ← new_chain h.hash_algo
    bytes ← header_bytes h (params_in keying)
    fed ← feed_header host chain bytes
    cipher ← cipher_for keying bytes
    ok (record {
      output = bytes;
      chain = fed;
      block_index = 0;
      encrypted = is_keyed keying;
      encryptor = cipher;
      comp_flags = flags_of algo;
      drawn = 0;
      warned = 0;
    })

  -- The payload as it stands on disk: padded, or compressed behind its size and padded again.
  unfoldable pub on_disk_payload : Bytes → ℕ → Result Bytes
  on_disk_payload payload flags =
      let padded = pad_bytes payload in
      let squeezed : Result Bytes = elim (comp_of_code (bit_and flags compalgo_mask / 2)) [
        | none ↦ err (value_error unknown_comp_algo)
        | some algo ↦ do
          size ← pack (u64 ∷ []) (length padded, tt)
          ok (pad_bytes (size ++ compress host padded algo))
      ] in
      if bit_and flags compressed == 0 then ok padded else squeezed

  -- The block's identifier, drawn where none is given.
  unfoldable pub identify : Option Bytes → Writer → Bytes × Writer
  identify none w = (host.uuid4 w.drawn, record w { drawn = w.drawn + 1 })
  identify (some id) w = (id, w)

  -- To the encryptor's buffer, or to the file.
  unfoldable pub store_block : Option Cipher → Bytes → Bytes → Writer → Result Writer
  store_block none head disk w = ok (record w { output = w.output ++ (head ++ disk) })
  store_block (some c) head disk w = do
    c' ← Encryption.update c head
    c'' ← Encryption.update c' disk
    ok (record w { encryptor = some c'' })

  -- Then the chain takes the block, and it is counted.
  unfoldable pub emit_block : Bytes → Bytes → Writer → Result Writer
  unfolding store_block feed_block_parts
  emit_block head disk w = do
    w' ← store_block w.encryptor head disk w
    fed ← feed_block_parts host w'.chain (head ∷ disk ∷ [])
    ok (record w' { chain = fed; block_index = w'.block_index + 1 })

  unfoldable pub block_header : ℕ → ℕ → ℕ → Bytes → Bytes → Bytes → Result Bytes
  block_header code flags size uuid parent prev = pack block_header_format (
    block_magic,
    (code, (flags, (block_header_size + size, (1, (0, (uuid, (parent, (prev, tt)))))))),
  )

  -- What follows once the identifier is known.
  unfoldable pub write_identified : BlockType → Bytes → ℕ → Bytes → Bytes → Writer → Result Writer
  write_identified type payload flags parent uuid w = do
    disk ← on_disk_payload payload flags
    require (leb (length disk) max_payload) (value_error payload_too_large)
    let prev = if w.encrypted then zeros 32 else w.chain.prev_hash
    head ← block_header (block_code type) flags (length disk) uuid parent prev
    emit_block head disk w

  -- `_write_block`. An exception leaves the writer as it was, but for the identifier drawn.
  unfoldable pub write_block : BlockType → Bytes → ℕ → Option Bytes → Option Bytes → Exec Bytes
  unfolding identify
  write_block type payload flags parent given w =
      let (uuid, w1) = identify given w in
      elim (write_identified type payload flags (parent_or_zeros parent) uuid w1) [
        | ok w2 ↦ (ok uuid, w2)
        | err e ↦ (err e, w1)
      ]
