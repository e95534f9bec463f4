-- ===== src/Msl/Slice/Ending.antt =====
-- `finalize` on an unencrypted writer.
use mathlib.Core.Path.{subst}
use memslicer.Msl.Iterator.{read_payload}
use memslicer.Prelude.{
  ok-injective, ℕ, ◌+◌, ◌<◌, ◌≤◌, ◌≡◌, refl, sym, ap, ◌∙◌, inl, inr, true, Option, none, List, [],
  ◌∷◌, ◌++◌, length, take, Result, ok, err, arith, append_assoc, length-append, take-append_length,
  le→leb, if◌then◌else◌,
}
use memslicer.Bytes.{Bytes, Tuple, u64, str, encode, pack, in_range, zeros}
use memslicer.Bytes.Laws.{length-encode}
use memslicer.Utils.Laws.{length-pad_bytes}
use memslicer.Prelude.{Exn}
use memslicer.Prelude.{◌-◌, replicate}
use memslicer.Utils.{pad_bytes, pad8}
use memslicer.Msl.Constants.{
  BlockType, HashAlgo, block_code, end_of_capture, block_magic, block_header_size,
}
use memslicer.Msl.Host.{Host, HasSizes, DecompressesAll}
use memslicer.Msl.Integrity
use memslicer.Msl.Integrity.{make_hasher}
use memslicer.Msl.Writer.{
  Writer, Exec, block_header_format, max_payload, on_disk_payload, block_header, write_identified,
  identify, write_block, parent_or_zeros,
}
use memslicer.Msl.Writer.Methods.{end_payload, flush_encryptor, finalize, with_payload}
use memslicer.Msl.Slice.{Block, IsSlice, file_bytes}
use memslicer.Msl.Slice.Write.{after, emit_block-clear, block_code-lt, block_of}
use memslicer.Msl.Slice.Session.{IsSlice-counters, write_block-Outcome}

ok-not-err {ℓ} : {A : Type ℓ} {a : A} {x : Exn} → ok a ≡ err x → ⊥
ok-not-err p = cc p

-- The header of a block with no flags.
abbrev plain_fields : BlockType → ℕ → Bytes → Bytes → Bytes → Tuple block_header_format
plain_fields type size uuid parent prev = (
  block_magic,
  (block_code type, (0, (block_header_size + size, (1, (0, (uuid, (parent, (prev, tt)))))))),
)

block_header-plain :
    (host : Host) (type : BlockType) (size : ℕ) (uuid parent prev : Bytes)
    → size ≤ max_payload
    → block_header host (block_code type) 0 size uuid parent prev
      ≡ ok (encode block_header_format (plain_fields type size uuid parent prev))
unfolding block_header pack in_range
block_header-plain host type size uuid parent prev h =
    let c : block_code type < 65536 = block_code-lt type in
    let whole : in_range block_header_format (plain_fields type size uuid parent prev) ≡ true =
      ground arith in
    rw whole

module _ (host : Host) (algo : HashAlgo) (header : Bytes) where
  -- A block that ends the capture, over a payload that starts with the digest of the file.
  abbrev pub IsEnd : List Block → Block → Type 0
  IsEnd bs b =
      (b.code ≡ block_code end_of_capture)
      × (take 32 b.payload ≡ host.digest algo (file_bytes header bs))

module _ (host : Host) (sizes : HasSizes host) (d : DecompressesAll host) (algo : HashAlgo)
    (header : Bytes) where
  -- A block with no flags is written unless its payload is too large.
  write_identified-plain :
      (type : BlockType) (payload parent uuid : Bytes) (bs : List Block) (w : Writer)
      → IsSlice host algo header bs w
      → length (pad_bytes payload) ≤ max_payload
      → (w2 : Writer) × (write_identified host type payload 0 parent uuid w ≡ ok w2)
  unfolding write_identified on_disk_payload
  write_identified-plain type payload parent uuid bs w s size =
      let prev : Bytes = if w.encrypted then zeros 32 else w.chain.prev_hash in
      let made = block_header-plain host type (length (pad_bytes payload)) uuid parent prev size in
      let head : Bytes =
        encode block_header_format
          (plain_fields type (length (pad_bytes payload)) uuid parent prev) in
      let supported : make_hasher w.chain.hash_algo ≡ ok (record { algo = algo; fed = [] }) =
        rw s.chain_algo s.supported in
      (
        after host head (pad_bytes payload) algo w,
        rw (le→leb _ _ size, made)
            (emit_block-clear host head (pad_bytes payload) algo w s.clear supported),
      )

  write_block-plain_id :
      (type : BlockType) (payload : Bytes) (parent : Option Bytes) (bs : List Block) (w : Writer)
      → IsSlice host algo header bs w
      → length (pad_bytes payload) ≤ max_payload
      → (write_block host type payload 0 parent none w).0 ≡ ok (host.uuid4 w.drawn)
  unfolding write_block
  write_block-plain_id type payload parent bs w s size =
      let (w2, e) =
        write_identified-plain type payload (parent_or_zeros parent) (host.uuid4 w.drawn) bs
          (record w { drawn = w.drawn + 1 })
          (IsSlice-counters host algo header bs w (w.drawn + 1) w.warned s) size in
      rw (e, write_block)

  -- A block with no flags, of this type and parent, over the payload filled to eight bytes.
  abbrev pub plain_block_of : BlockType → Bytes → Bytes → Bytes → List Block → Block
  plain_block_of type payload parent uuid bs =
      block_of host sizes algo header type payload 0 parent uuid bs (pad_bytes payload)

  plain_disk :
      (type : BlockType) (payload parent uuid disk : Bytes) (bs : List Block) (w : Writer)
      → IsSlice host algo header
          (block_of host sizes algo header type payload 0 parent uuid bs disk ∷ bs)
          w
      → IsSlice host algo header (plain_block_of type payload parent uuid bs ∷ bs) w
  unfolding read_payload
  plain_disk type payload parent uuid disk bs w s =
      let e : disk ≡ pad_bytes payload = ok-injective s.blocks_are.0.stored in
      subst
        (λ (b : Bytes).
          IsSlice host algo header
            (block_of host sizes algo header type payload 0 parent uuid bs b ∷ bs) w)
        e s

  -- On an unencrypted writer whose file is a header and linked blocks, for a block with no flags and
  -- no given identifier: if its padded payload is not larger than a block can hold, the identifier
  -- drawn is answered, and one linked block of the given type, parent and that identifier, which holds
  -- the padded payload, has been added to the file.
  pub write_block-plain :
      (type : BlockType) (payload : Bytes) (parent : Option Bytes) (bs : List Block) (w : Writer)
      → IsSlice host algo header bs w
      → length (pad_bytes payload) ≤ max_payload
      → ((write_block host type payload 0 parent none w).0 ≡ ok (host.uuid4 w.drawn))
        × IsSlice host algo header
            (plain_block_of type payload (parent_or_zeros parent) (host.uuid4 w.drawn) bs ∷ bs)
            (write_block host type payload 0 parent none w).1
  unfolding identify
  write_block-plain type payload parent bs w s size =
      let answered = write_block-plain_id type payload parent bs w s size in
      elim (write_block-Outcome host sizes d algo header type payload 0 parent none bs w s
        (inl refl)) [
          | inl (disk, e, s2) ↦ (answered, plain_disk type payload _ _ disk bs _ s2)
          | inr (x, e, s2) ↦ absurd (ok-not-err (sym answered ∙ e))
        ]

  end_payload-ok :
      (w : Writer)
      → (rest : Bytes) × (end_payload host w ≡ ok (Integrity.finalize host w.chain ++ rest))
        × (length rest ≡ 16)
  unfolding end_payload pack in_range
  end_payload-ok w =
      let e : in_range (u64 ∷ str 8 ∷ []) (host.now_ns, (zeros 8, tt)) ≡ true =
        let c = sizes.clock_size in ground arith in
      (
        encode (u64 ∷ str 8 ∷ []) (host.now_ns, (zeros 8, tt)),
        rw e,
        length-encode (u64 ∷ str 8 ∷ []) (host.now_ns, (zeros 8, tt)),
      )

  -- The digest of the bytes in the file.
  finalize-digest :
      (bs : List Block) (w : Writer)
      → IsSlice host algo header bs w
      → Integrity.finalize host w.chain ≡ host.digest algo (file_bytes header bs)
  unfolding Integrity.finalize
  finalize-digest bs w s = λ i. host.digest (s.file_algo i) ((s.hashed ∙ s.output) i)

  end_of-IsEnd :
      (bs : List Block) (w : Writer) (rest : Bytes)
      → IsSlice host algo header bs w
      → take 32 (pad_bytes (Integrity.finalize host w.chain ++ rest))
        ≡ host.digest algo (file_bytes header bs)
  unfolding pad_bytes
  end_of-IsEnd bs w rest s =
      let digest : Bytes = Integrity.finalize host w.chain in
      let e : digest ≡ host.digest algo (file_bytes header bs) = finalize-digest bs w s in
      rw
        (append_assoc digest rest
          (replicate (pad8 (length (digest ++ rest)) - length (digest ++ rest)) 0))
        (take-append_length 32 digest _
            (ap length e ∙ sizes.digest_size algo (file_bytes header bs))
          ∙ e)

  flush_encryptor-clear : (w : Writer) → w.encryptor ≡ none → flush_encryptor host w ≡ (ok tt, w)
  unfolding flush_encryptor
  flush_encryptor-clear w e = simp (e, flush_encryptor)

  -- `finalize` behind its block.
  abbrev finish : Result Bytes × Writer → Result (Unit {0}) × Writer
  finish out = elim out.0 [ ok id ↦ flush_encryptor host out.1 | err e ↦ (err e, out.1) ]

  finish-ok :
      (out : Result Bytes × Writer) (id : Bytes)
      → out.0 ≡ ok id
      → out.1.encryptor ≡ none
      → finish out ≡ (ok tt, out.1)
  finish-ok (ok a, w) id e clear = flush_encryptor-clear w clear
  finish-ok (err x, w) id e clear = cc

  finalize-wrote :
      (w : Writer) (payload id : Bytes)
      → end_payload host w ≡ ok payload
      → (write_block host end_of_capture payload 0 none none w).0 ≡ ok id
      → (write_block host end_of_capture payload 0 none none w).1.encryptor ≡ none
      → finalize host w ≡ (ok tt, (write_block host end_of_capture payload 0 none none w).1)
  unfolding finalize
  finalize-wrote w payload id made wrote clear =
      let write : Bytes → Exec Bytes = λ p. write_block host end_of_capture p 0 none none in
      ap (λ (r : Result Bytes). finish (with_payload r write w)) made
      ∙ finish-ok (write payload w) id wrote clear

  -- On an unencrypted writer whose file is a header and linked blocks, `finalize` does not raise. It
  -- adds one linked block that ends the capture, whose payload starts with the digest of the file.
  pub finalize-IsSlice :
      (bs : List Block) (w : Writer)
      → IsSlice host algo header bs w
      → (b : Block) × (w2 : Writer) × (finalize host w ≡ (ok tt, w2))
        × IsSlice host algo header (b ∷ bs) w2
        × IsEnd host algo header bs b
  unfolding finalize
  finalize-IsSlice bs w s =
      let (rest, made, size) = end_payload-ok w in
      let payload : Bytes = Integrity.finalize host w.chain ++ rest in
      let out : Result Bytes × Writer = write_block host end_of_capture payload 0 none none w in
      let short : length (pad_bytes payload) ≤ max_payload =
        unfold pad8 in
        omega (
          arith,
          size,
          length-pad_bytes payload,
          length-append (Integrity.finalize host w.chain) rest,
          ap length (finalize-digest bs w s),
          sizes.digest_size algo (file_bytes header bs),
        ) in
      let wrote : out.0 ≡ ok (host.uuid4 w.drawn) =
        write_block-plain_id end_of_capture payload none bs w s short in
      elim (write_block-Outcome host sizes d algo header end_of_capture payload 0 none none bs w s
        (inl refl)) [
          | inl (disk, e, s2) ↦ (
            block_of host sizes algo header end_of_capture payload 0 (parent_or_zeros none)
                (identify host none w).0 bs disk,
            out.1,
            finalize-wrote w payload (host.uuid4 w.drawn) made wrote s2.clear,
            s2,
            (refl, end_of-IsEnd bs w rest s),
          )
          | inr (x, e, s2) ↦ absurd (ok-not-err (sym wrote ∙ e))
        ]
