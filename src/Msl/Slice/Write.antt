-- ===== src/Msl/Slice/Write.antt =====
-- One block of an unencrypted writer.
use memslicer.Prelude.{
  ℕ, ◌+◌, ◌<◌, ◌≤◌, ◌≡◌, refl, sym, ap, ◌∙◌, inl, inr, none, List, [], ◌∷◌, ◌++◌, length, bit_and,
  ok, arith, require, >>=-eq-ok, append_assoc, if◌then◌else◌, value_error, payload_too_large,
  require-eq-ok, leb, leb→le,
}
use memslicer.Bytes.{Bytes, encode, fixed, zeros}
use memslicer.Bytes.Laws.{fixed_self, length-fixed}
use memslicer.Msl.Constants.{
  block_magic, block_header_size, continuation, BlockType, block_code, HashAlgo,
}
use memslicer.Msl.Host.{Host, HasSizes, DecompressesAll}
use memslicer.Msl.Integrity.{make_hasher, feed_block_parts}
use memslicer.Msl.Writer.{
  Writer, block_header_format, max_payload, emit_block, store_block, write_identified,
  on_disk_payload, block_header,
}
use memslicer.Utils.{pad_bytes}
use memslicer.Bytes.Laws.{pack-eq-ok}
use memslicer.Msl.Slice.Stored.{read_payload-on_disk}
use mathlib.Core.Path.{subst}
use memslicer.Msl.Slice.{IsWriterFlags, head_bytes, Block, IsBlock, IsSlice, block_bytes, last_hash}

ok-injective {ℓ} : {A : Type ℓ} {a b : A} → ok a ≡ ok b → a ≡ b
ok-injective p = cc p

pub block_code-lt : (t : BlockType) → block_code t < 65536
unfolding block_code
block_code-lt t = ground arith

module _ (host : Host) where
  -- The writer after a block, where nothing is encrypted.
  abbrev pub after : Bytes → Bytes → HashAlgo → Writer → Writer
  after head disk algo w = record w {
    output = w.output ++ (head ++ disk);
    chain = record {
      hash_algo = w.chain.hash_algo;
      prev_hash = host.digest algo (head ++ disk);
      file_hasher = record {
        algo = w.chain.file_hasher.algo;
        fed = (w.chain.file_hasher.fed ++ head) ++ disk;
      };
    };
    block_index = w.block_index + 1;
  }

  -- Nothing is encrypted: the block goes to the file.
  pub emit_block-clear :
      (head disk : Bytes) (algo : HashAlgo) (w : Writer)
      → w.encryptor ≡ none
      → make_hasher w.chain.hash_algo ≡ ok (record { algo = algo; fed = [] })
      → emit_block host head disk w ≡ ok (after head disk algo w)
  unfolding emit_block
  emit_block-clear head disk algo w clear made =
      let stored : store_block host w.encryptor head disk w
          ≡ ok (record w { output = w.output ++ (head ++ disk) }) =
        ap (λ o. store_block host o head disk w) clear in
      let fed : feed_block_parts host w.chain (head ∷ disk ∷ [])
          ≡ ok (after head disk algo w).chain =
        rw made in
      rw (stored, fed)

  -- The steps that a written block went through.
  write_identified-parts :
      (type : BlockType) (payload : Bytes) (flags : ℕ) (parent uuid : Bytes) (w : Writer)
      {w2 : Writer}
      → write_identified host type payload flags parent uuid w ≡ ok w2
      → (disk : Bytes) × (head : Bytes) × (on_disk_payload host payload flags ≡ ok disk)
        × (length disk ≤ max_payload)
        × (block_header host
              (block_code type)
              flags
              (length disk)
              uuid
              parent
              (if w.encrypted then zeros 32 else w.chain.prev_hash)
            ≡ ok head)
        × (emit_block host head disk w ≡ ok w2)
  unfolding write_identified
  write_identified-parts type payload flags parent uuid w h =
      let (disk, stored, h1) = >>=-eq-ok (on_disk_payload host payload flags) _ h in
      let (u, fits, h2) =
        >>=-eq-ok (require (leb (length disk) max_payload) (value_error payload_too_large)) _ h1 in
      let (head, made, h3) =
        >>=-eq-ok
          (block_header host (block_code type) flags (length disk) uuid parent
            (if w.encrypted then zeros 32 else w.chain.prev_hash))
          _ h2 in
      (disk, head, stored, leb→le _ _ (require-eq-ok _ _ fits), made, h3)

  -- The header's bytes are those of the identifiers cut or filled to 16 bytes.
  encode-fixed :
      (code flags size : ℕ) (uuid parent prev : Bytes)
      → encode block_header_format
          (block_magic, (code, (flags, (size, (1, (0, (uuid, (parent, (prev, tt)))))))))
        ≡ encode block_header_format (
          block_magic,
          (code, (flags, (size, (1, (0, (fixed 16 uuid, (fixed 16 parent, (prev, tt)))))))),
        )
  unfolding encode
  encode-fixed code flags size uuid parent prev = rw (
    fixed_self 16 (fixed 16 uuid) (length-fixed 16 uuid),
    fixed_self 16 (fixed 16 parent) (length-fixed 16 parent),
  )

  module _ (sizes : HasSizes host) (algo : HashAlgo) (header : Bytes) where
    pub length-last_hash : (bs : List Block) → length (last_hash host algo header bs) ≡ 32
    length-last_hash [] = sizes.digest_size algo header
    length-last_hash (b ∷ bs) = sizes.digest_size algo (block_bytes b)

    -- The record of what a block of this type, flags, parent and identifier holds.
    abbrev pub block_of : BlockType → Bytes → ℕ → Bytes → Bytes → List Block → Bytes → Block
    block_of type payload flags parent uuid bs disk = record {
      code = block_code type;
      flags = flags;
      uuid = fixed 16 uuid;
      parent = fixed 16 parent;
      prev = last_hash host algo header bs;
      disk = disk;
      payload = pad_bytes payload;
    }

    flags_small : (f : ℕ) → IsWriterFlags f → f < 65536
    flags_small f h = omega arith

    flags_single : (f : ℕ) → IsWriterFlags f → bit_and f continuation ≡ 0
    flags_single f (inl e) = rw e
    flags_single f (inr (inl e)) = rw e
    flags_single f (inr (inr (inl e))) = rw e
    flags_single f (inr (inr (inr e))) = rw e

    block_of-IsBlock :
        (d : DecompressesAll host) (type : BlockType) (payload : Bytes) (flags : ℕ)
        (parent uuid : Bytes) (bs : List Block) (disk : Bytes)
        → IsWriterFlags flags
        → length disk ≤ max_payload
        → on_disk_payload host payload flags ≡ ok disk
        → IsBlock host (block_of type payload flags parent uuid bs disk)
    block_of-IsBlock d type payload flags parent uuid bs disk f size stored = record {
      code = block_code-lt type;
      flags = flags_small flags f;
      single = flags_single flags f;
      size = size;
      uuid = length-fixed 16 uuid;
      parent = length-fixed 16 parent;
      prev = length-last_hash bs;
      stored = read_payload-on_disk host d payload disk flags f stored;
    }

    block_header-eq-ok :
        (code flags size : ℕ) (uuid parent prev : Bytes) {head : Bytes}
        → block_header host code flags size uuid parent prev ≡ ok head
        → head
          ≡ encode block_header_format (
            block_magic,
            (
              code,
              (
                flags,
                (
                  block_header_size + size,
                  (1, (0, (fixed 16 uuid, (fixed 16 parent, (prev, tt))))),
                ),
              ),
            ),
          )
    unfolding block_header
    block_header-eq-ok code flags size uuid parent prev h =
        (pack-eq-ok block_header_format _ h).0
        ∙ encode-fixed code flags (block_header_size + size) uuid parent prev

    after-IsSlice :
        (head : Bytes) (b : Block) (bs : List Block) (w : Writer)
        → IsSlice host algo header bs w
        → IsBlock host b
        → b.prev ≡ last_hash host algo header bs
        → head ≡ head_bytes b
        → IsSlice host algo header (b ∷ bs) (after head b.disk algo w)
    after-IsSlice head b bs w s is linked e = record {
      output = λ i. s.output i ++ (e i ++ b.disk);
      index = omega (arith, s.index);
      plain = s.plain;
      clear = s.clear;
      chain_algo = s.chain_algo;
      file_algo = s.file_algo;
      hashed =
          append_assoc w.chain.file_hasher.fed head b.disk ∙ (λ i. s.hashed i ++ (head ++ b.disk));
      prev = λ i. host.digest algo (e i ++ b.disk);
      comp_flags = s.comp_flags;
      supported = s.supported;
      blocks_are = (is, s.blocks_are);
      linked = (linked, s.linked);
    }

    -- A writer with these blocks that writes one more is a writer with one more block: of the given
    -- type, flags, parent and identifier, over the given payload, and linked to the last.
    pub write_identified-IsSlice :
        (d : DecompressesAll host) (type : BlockType) (payload : Bytes) (flags : ℕ)
        (parent uuid : Bytes) (bs : List Block) (w : Writer) {w2 : Writer}
        → IsSlice host algo header bs w
        → IsWriterFlags flags
        → write_identified host type payload flags parent uuid w ≡ ok w2
        → (disk : Bytes) × IsSlice host algo header
            (block_of type payload flags parent uuid bs disk ∷ bs)
            w2
    write_identified-IsSlice d type payload flags parent uuid bs w {w2} s f h =
        let (disk, head, stored, size, made, emitted) =
          write_identified-parts type payload flags parent uuid w h in
        let b : Block = block_of type payload flags parent uuid bs disk in
        let prev : (if w.encrypted then zeros 32 else w.chain.prev_hash) ≡ b.prev =
          rw s.plain s.prev in
        let head_is : head ≡ head_bytes b =
          block_header-eq-ok (block_code type) flags (length disk) uuid parent _ made ∙ (λ i.
            encode block_header_format (
              block_magic,
              (
                block_code type,
                (
                  flags,
                  (
                    block_header_size + length disk,
                    (1, (0, (fixed 16 uuid, (fixed 16 parent, (prev i, tt))))),
                  ),
                ),
              ),
            )) in
        let supported : make_hasher w.chain.hash_algo ≡ ok (record { algo = algo; fed = [] }) =
          rw s.chain_algo s.supported in
        let w2_is : after head disk algo w ≡ w2 =
          ok-injective (sym (emit_block-clear head disk algo w s.clear supported) ∙ emitted) in
        let is = block_of-IsBlock d type payload flags parent uuid bs disk f size stored in
        (
          disk,
          subst (IsSlice host algo header (b ∷ bs)) w2_is
              (after-IsSlice head b bs w s is refl head_is),
        )
