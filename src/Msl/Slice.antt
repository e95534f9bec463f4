-- ===== src/Msl/Slice.antt =====
-- The abstract view of a file: its header and its blocks, the newest first, each linked to the one
-- before it by the hash of that one. The children relate it to the writer and to the iterator.
pub mod Stored
pub mod Write
pub mod Session
pub mod Read
pub mod Ops
pub mod Opening
pub mod Ending
pub mod RoundTrip
use memslicer.Prelude.{
  ℕ, ◌+◌, ◌<◌, ◌≤◌, ◌≡◌, ◌⊎◌, Bool, false, none, List, [], ◌∷◌, ◌++◌, length, bit_and, Result, ok,
  All,
}
use memslicer.Bytes.{Bytes, Tuple, encode}
use memslicer.Msl.Constants.{
  HashAlgo, block_magic, block_header_size, continuation, has_children, end_of_capture, block_code,
}
use memslicer.Msl.Host.{Host}
use memslicer.Msl.Integrity.{make_hasher}
use memslicer.Msl.Writer.{Writer, block_header_format, max_payload}
use memslicer.Msl.Iterator.{read_payload}

-- `disk` is the payload as stored, `payload` as it was given, filled to eight bytes.
pub record Block : Type 0 where
  pub code : ℕ
  pub flags : ℕ
  pub uuid : Bytes
  pub parent : Bytes
  pub prev : Bytes
  pub disk : Bytes
  pub payload : Bytes

abbrev pub head_fields : Block → Tuple block_header_format
head_fields b = (
  block_magic,
  (
    b.code,
    (b.flags, (block_header_size + length b.disk, (1, (0, (b.uuid, (b.parent, (b.prev, tt))))))),
  ),
)

abbrev pub head_bytes : Block → Bytes
head_bytes b = encode block_header_format (head_fields b)

abbrev pub block_bytes : Block → Bytes
block_bytes b = head_bytes b ++ b.disk

abbrev pub file_bytes : Bytes → List Block → Bytes
file_bytes header [] = header
file_bytes header (b ∷ older) = file_bytes header older ++ block_bytes b

-- The flags that the writer gives its blocks: none, children, zstd or lz4.
abbrev pub IsWriterFlags : ℕ → Type 0
IsWriterFlags f = (f ≡ 0) ⊎ (f ≡ has_children) ⊎ (f ≡ 3) ⊎ (f ≡ 5)

pub record IsBlock (host : Host) (b : Block) : Type 0 where
  pub code : b.code < 65536
  pub flags : b.flags < 65536
  pub single : bit_and b.flags continuation ≡ 0
  pub size : length b.disk ≤ max_payload
  pub uuid : length b.uuid ≡ 16
  pub parent : length b.parent ≡ 16
  pub prev : length b.prev ≡ 32
  -- what is stored reads back
  pub stored : read_payload host b.flags b.disk ≡ ok b.payload

module _ (host : Host) (algo : HashAlgo) (header : Bytes) where
  -- The hash that the next block carries.
  abbrev pub last_hash : List Block → Bytes
  last_hash [] = host.digest algo header
  last_hash (b ∷ older) = host.digest algo (block_bytes b)

  abbrev pub IsLinked : List Block → Type 0
  IsLinked [] = Unit {0}
  IsLinked (b ∷ older) = (b.prev ≡ last_hash older) × IsLinked older

  -- An unencrypted writer that has written these blocks behind its header.
  pub record IsSlice (blocks : List Block) (w : Writer) : Type 0 where
    pub output : w.output ≡ file_bytes header blocks
    pub index : w.block_index ≡ length blocks
    pub plain : w.encrypted ≡ false
    pub clear : w.encryptor ≡ none
    pub chain_algo : w.chain.hash_algo ≡ algo
    pub file_algo : w.chain.file_hasher.algo ≡ algo
    pub hashed : w.chain.file_hasher.fed ≡ w.output
    pub prev : w.chain.prev_hash ≡ last_hash blocks
    pub comp_flags : IsWriterFlags w.comp_flags
    pub supported : make_hasher algo ≡ ok (record { algo = algo; fed = [] })
    pub blocks_are : All (IsBlock host) blocks
    pub linked : IsLinked blocks
