-- ===== src/Msl/Slice/RoundTrip.antt =====
-- A whole session of an unencrypted writer, from its opening to `finalize`, and the iterator on the
-- file that it leaves.
use memslicer.Prelude.{
  ℕ, suc, ◌+◌, ◌-◌, ◌≤◌, ◌≡◌, sym, ap, ◌∙◌, none, List, [], ◌∷◌, ◌++◌, length, bit_and, ok, arith,
  All, append-nil, append_assoc, length-append, drop-append_length,
}
use mathlib.Core.Path.{subst}
use memslicer.Bytes.{Bytes}
use memslicer.Bytes.Laws.{length-encode}
use memslicer.Msl.Constants.{CompAlgo, HashAlgo, flag_encrypted}
use memslicer.Msl.Types.{FileHeader}
use memslicer.Msl.Host.{Host, HasSizes, DecompressesAll}
use memslicer.Msl.Writer.{Writer, block_header_format, new_writer}
use memslicer.Msl.Writer.Methods.{finalize}
use memslicer.Msl.Iterator.{Walk, done, yield, walk, iterate_blocks, read_hash_algo}
use memslicer.Msl.Slice.{
  Block, IsBlock, IsSlice, IsLinked, head_fields, head_bytes, block_bytes, file_bytes,
}
use memslicer.Msl.Slice.Session.{IsMiddle}
use memslicer.Msl.Slice.Ops.{Call, run_all, run_all-Extends}
use memslicer.Msl.Slice.Opening.{new_writer-IsSlice, read_hash_algo-base_header}
use memslicer.Msl.Slice.Ending.{IsEnd, finalize-IsSlice}
use memslicer.Msl.Slice.Read.{record_of, end_of, yields, stream, walk-stream, walk-last}

file_bytes-stream : (header : Bytes) (bs : List Block) → file_bytes header bs ≡ header ++ stream bs
file_bytes-stream header [] = sym (append-nil header)
file_bytes-stream header (b ∷ bs) =
    ap (λ (f : Bytes). f ++ block_bytes b) (file_bytes-stream header bs)
    ∙ append_assoc header (stream bs) (block_bytes b)

length-stream : (bs : List Block) → length bs ≤ length (stream bs)
length-stream [] = omega arith
length-stream (b ∷ bs) = omega (
  arith,
  length-append (stream bs) (block_bytes b),
  length-append (head_bytes b) b.disk,
  length-encode block_header_format (head_fields b),
  length-stream bs,
)

module _ (host : Host) where
  iterate_blocks-opened :
      (algo : HashAlgo) (header s : Bytes)
      → length header ≡ 64
      → read_hash_algo (header ++ s) ≡ ok algo
      → iterate_blocks host (header ++ s) ≡ walk host (suc (length (header ++ s))) 64 s
  unfolding iterate_blocks
  iterate_blocks-opened algo header s size opens =
      rw (opens, iterate_blocks)
        (ap (λ (t : Bytes). walk host (suc (length (header ++ s))) 64 t)
          (drop-append_length 64 header s size))

  -- The iterator on a header and blocks, the last of which ends the capture.
  iterate_blocks-file_bytes :
      (algo : HashAlgo) (header : Bytes) (b : Block) (bs : List Block)
      → length header ≡ 64
      → ((rest : Bytes) → read_hash_algo (header ++ rest) ≡ ok algo)
      → All (IsBlock host) (b ∷ bs)
      → All IsMiddle bs
      → IsEnd host algo header bs b
      → iterate_blocks host (file_bytes header (b ∷ bs))
        ≡ yields 64 bs (yield (record_of (end_of 64 bs) b) done)
  unfolding iterate_blocks
  iterate_blocks-file_bytes algo header b bs size opens (is, are) middle (code, digest) =
      let all : Bytes = stream (b ∷ bs) in
      let n : ℕ = length (header ++ all) - length bs in
      let fuel : suc (length (header ++ all)) ≡ length bs + suc n =
        omega (arith, length-stream (b ∷ bs), length-append header all) in
      let behind : all ≡ stream bs ++ (block_bytes b ++ []) =
        ap (λ (t : Bytes). stream bs ++ t) (sym (append-nil (block_bytes b))) in
      ap (iterate_blocks host) (file_bytes-stream header (b ∷ bs))
      ∙ iterate_blocks-opened algo header all size (opens all)
      ∙ ap (λ (t : Bytes). walk host (suc (length (header ++ all))) 64 t) behind
      ∙ walk-stream host bs (suc n) (suc (length (header ++ all))) 64 (block_bytes b ++ []) are
          middle fuel
      ∙ ap (λ (t : Walk). yields 64 bs t) (walk-last host n (end_of 64 bs) b [] is code)

-- A session of a writer without a key, over a host whose sizes and decompressors are as they should
-- be, and over a header whose bit for encryption is clear: whichever `write_...` methods are called
-- after it has opened, and whether or not they raise, `finalize` does not raise, and the file is a
-- header and blocks that the iterator yields in the order written, up to the end-of-capture block
-- and no further. Each block carries the hash of the block before it, the first the header's, none
-- but the last ends the capture, and that one's payload starts with the digest of all the bytes
-- before it.
pub iterate_blocks-session :
    (host : Host) (sizes : HasSizes host) (d : DecompressesAll host) (h : FileHeader) (a : CompAlgo)
    (calls : List Call) (w : Writer)
    → new_writer host h a none ≡ ok w
    → bit_and h.flags flag_encrypted ≡ 0
    → (header : Bytes) × (bs : List Block) × (b : Block) × (w2 : Writer) × (finalize host
          (run_all host calls w)
        ≡ (ok tt, w2))
      × (w2.output ≡ file_bytes header (b ∷ bs))
      × (iterate_blocks host w2.output ≡ yields 64 bs (yield (record_of (end_of 64 bs) b) done))
      × IsLinked host h.hash_algo header (b ∷ bs)
      × All IsMiddle bs
      × IsEnd host h.hash_algo header bs b
iterate_blocks-session host sizes d h a calls w opened clear =
    let (header, made, s) = new_writer-IsSlice host h a w opened in
    let (bs, s1, middle) = run_all-Extends host sizes d h.hash_algo header calls [] w s in
    let s1 : IsSlice host h.hash_algo header bs (run_all host calls w) =
      subst (λ l. IsSlice host h.hash_algo header l (run_all host calls w)) (append-nil bs) s1 in
    let (b, w2, ended, s2, end) = finalize-IsSlice host sizes d h.hash_algo header bs _ s1 in
    let opens = read_hash_algo-base_header h header in
    let read : iterate_blocks host (file_bytes header (b ∷ bs))
        ≡ yields 64 bs (yield (record_of (end_of 64 bs) b) done) =
      iterate_blocks-file_bytes host h.hash_algo header b bs (opens [] made clear).0
        (λ rest. (opens rest made clear).1) s2.blocks_are middle end in
    (
      header,
      bs,
      b,
      w2,
      ended,
      s2.output,
      ap (iterate_blocks host) s2.output ∙ read,
      s2.linked,
      middle,
      end,
    )
