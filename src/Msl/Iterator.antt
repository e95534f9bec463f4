-- ===== src/Msl/Iterator.antt =====
-- memslicer/msl/iterator.py. A file that is read is its bytes; the generator is the records that it
-- yields and how it ends.
pub mod Total
use memslicer.Prelude.{
  ℕ, zero, suc, ◌+◌, ◌-◌, ◌/◌, Bool, true, false, Option, none, some, List, [], ◌∷◌, length, take,
  drop, bit_and, ◌==◌, leb, if◌then◌else◌, Result, Exn, ok, err, value_error, not_implemented,
  bad_file_magic, encrypted_slice, unknown_hash_algo, truncated_block_header, bad_block_magic,
  short_block_length, truncated_payload, missing_size_prefix, decompression_failed, size_mismatch,
  unknown_comp_algo, require, ◌>>=◌, ◌>>◌,
}
use memslicer.Bytes.{Bytes, Tuple, u8, u32, u64, unpack, decode, bytes_eq}
use memslicer.Msl.Constants.{
  file_magic, block_magic, header_size, block_header_size, compressed, compalgo_mask, continuation,
  flag_encrypted, HashAlgo, hash_of_code, CompAlgo, comp_of_code, end_of_capture, block_code,
}
use memslicer.Msl.Host.{Host}
use memslicer.Msl.Compression.{decompress}
use memslicer.Msl.Writer.{block_header_format}

pub record BlockRecord : Type 0 where
  pub block_type : ℕ
  pub flags : ℕ
  pub length : ℕ
  pub payload_version : ℕ
  pub block_uuid : Bytes
  pub parent_uuid : Bytes
  pub prev_hash : Bytes
  pub payload : Bytes
  pub start_offset : ℕ
  pub end_offset : ℕ

-- `stuck` is no behaviour of the generator: the model ran out of fuel.
pub data Walk : Type 0 where
  done : Walk
  fail : Exn → Walk
  yield : BlockRecord → Walk → Walk
  stuck : Walk

abbrev pub or_raise {ℓ} : {A : Type ℓ} → Option A → Exn → Result A
or_raise none e = err e
or_raise (some a) e = ok a

-- `_read_file_header_info`; the header size is always 64.
unfoldable pub read_hash_algo : Bytes → Result HashAlgo
unfolding bytes_eq hash_of_code
read_hash_algo file = do
  require (bytes_eq (take 8 file) file_magic) (value_error bad_file_magic)
  (flags, _) ← unpack (u32 ∷ []) (take 4 (drop 12 file))
  require (bit_and flags flag_encrypted == 0) (value_error encrypted_slice)
  (code, _) ← unpack (u8 ∷ []) (take 1 (drop 61 file))
  or_raise (hash_of_code code) (value_error unknown_hash_algo)

-- except Exception as exc: raise ValueError(...) from exc
abbrev rethrow : Result Bytes → Result Bytes
rethrow (ok b) = ok b
rethrow (err e) = err (value_error decompression_failed)

module _ (host : Host) where
  unfoldable pub read_compressed : ℕ → Bytes → Result Bytes
  read_compressed flags disk = do
    require (leb 8 (length disk)) (value_error missing_size_prefix)
    (size, _) ← unpack (u64 ∷ []) (take 8 disk)
    algo ← or_raise (comp_of_code (bit_and flags compalgo_mask / 2)) (value_error unknown_comp_algo)
    payload ← rethrow (decompress host (drop 8 disk) algo (some size))
    require (length payload == size) (value_error size_mismatch)
    ok payload

  unfoldable pub read_payload : ℕ → Bytes → Result Bytes
  read_payload flags disk =
      if bit_and flags compressed == 0 then ok disk else read_compressed flags disk

  -- One round of the loop behind `struct.unpack`: the record, with the bytes behind the block.
  unfoldable pub read_block : ℕ → Bytes → Tuple block_header_format → Result (BlockRecord × Bytes)
  unfolding bytes_eq read_payload
  read_block start rest
        (magic, (code, (flags, (size, (version, (_, (uuid, (parent, (prev, _))))))))) =
      do
        require (bytes_eq magic block_magic) (value_error bad_block_magic)
        require (bit_and flags continuation == 0) not_implemented
        require (leb block_header_size size) (value_error short_block_length)
        let payload_len = size - block_header_size
        let disk = take payload_len rest
        require (length disk == payload_len) (value_error truncated_payload)
        payload ← read_payload flags disk
        ok (
          record {
            block_type = code;
            flags = flags;
            length = size;
            payload_version = version;
            block_uuid = uuid;
            parent_uuid = parent;
            prev_hash = prev;
            payload = payload;
            start_offset = start;
            end_offset = start + size;
          },
          drop payload_len rest,
        )

  -- `none` at the end of the file.
  unfoldable pub next_block : ℕ → Bytes → Result (Option (BlockRecord × Bytes))
  unfolding read_block
  next_block start [] = ok none
  next_block start (b ∷ bs) = do
    require (length (take block_header_size (b ∷ bs)) == block_header_size)
        (value_error truncated_block_header)
    r ←
        read_block start (drop block_header_size (b ∷ bs))
          (decode block_header_format (take block_header_size (b ∷ bs)))
    ok (some r)

  unfoldable pub walk : ℕ → ℕ → Bytes → Walk
  unfolding next_block block_code
  walk zero start rest = stuck
  walk (suc fuel) start rest = elim (next_block start rest) [
    | err e ↦ fail e
    | ok none ↦ done
    | ok (some (r, behind)) ↦
        let more = walk fuel r.end_offset behind in
        yield r (if r.block_type == block_code end_of_capture then done else more)
  ]

  -- Each block takes 80 bytes at least, so that there is fuel for every round.
  unfoldable pub iterate_blocks : Bytes → Walk
  unfolding read_hash_algo walk
  iterate_blocks file = elim (read_hash_algo file) [
    | err e ↦ fail e
    | ok algo ↦ walk (suc (length file)) header_size (drop header_size file)
  ]
