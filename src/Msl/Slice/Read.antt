-- ===== src/Msl/Slice/Read.antt =====
-- The iterator on the blocks of a file.
use memslicer.Prelude.{
  ℕ, suc, ◌+◌, ◌-◌, ◌≡◌, refl, ap, ◌∙◌, true, some, List, [], ◌∷◌, ◌++◌, append-nil, length, take,
  drop, ok, arith, All, le→leb, ◌==◌, ==_refl, append_assoc, take-append_length, drop-append_length,
}
use memslicer.Bytes.{Bytes, Fits, decode}
use memslicer.Bytes.Laws.{length-encode, decode-encode}
use memslicer.Msl.Constants.{block_code, end_of_capture}
use memslicer.Msl.Host.{Host}
use memslicer.Msl.Writer.{block_header_format}
use memslicer.Msl.Iterator.{BlockRecord, Walk, done, yield, read_block, next_block, walk}
use memslicer.Msl.Slice.{Block, IsBlock, head_fields, head_bytes, block_bytes}
use memslicer.Msl.Iterator.Total.{walk-next}
use memslicer.Msl.Slice.Session.{IsMiddle}

-- The record of a block that stands at this offset.
abbrev pub record_of : ℕ → Block → BlockRecord
record_of start b = record {
  block_type = b.code;
  flags = b.flags;
  length = 80 + length b.disk;
  payload_version = 1;
  block_uuid = b.uuid;
  parent_uuid = b.parent;
  prev_hash = b.prev;
  payload = b.payload;
  start_offset = start;
  end_offset = start + (80 + length b.disk);
}

-- The offset behind the blocks (the newest first), from the first one's on.
abbrev pub end_of : ℕ → List Block → ℕ
end_of start [] = start
end_of start (b ∷ older) = end_of start older + (80 + length b.disk)

-- The records of the blocks in the order written, and then the rest of the walk.
abbrev pub yields : ℕ → List Block → Walk → Walk
yields start [] rest = rest
yields start (b ∷ older) rest = yields start older (yield (record_of (end_of start older) b) rest)

abbrev pub stream : List Block → Bytes
stream [] = []
stream (b ∷ older) = stream older ++ block_bytes b

module _ (host : Host) where
  head_fields-Fits : (b : Block) → IsBlock host b → Fits block_header_format (head_fields b)
  head_fields-Fits b is = (
    refl,
    (
      is.code,
      (
        is.flags,
        (
          omega (arith, is.size),
          (omega arith, (omega arith, (is.uuid, (is.parent, (is.prev, tt))))),
        ),
      ),
    ),
  )

  read_block-head :
      (start : ℕ) (b : Block) (rest : Bytes)
      → IsBlock host b
      → read_block host start (b.disk ++ rest) (head_fields b) ≡ ok (record_of start b, rest)
  unfolding read_block
  read_block-head start b rest is =
      let size : (80 + length b.disk) - 80 ≡ length b.disk = omega arith in
      rw (
        is.single,
        le→leb 80 (80 + length b.disk) (omega arith),
        size,
        take-append_length (length b.disk) b.disk rest refl,
        drop-append_length (length b.disk) b.disk rest refl,
        ==_refl (length b.disk),
        is.stored,
      )

  next_block-parts :
      (start : ℕ) (file head rest : Bytes) {r : BlockRecord × Bytes}
      → take 80 file ≡ head
      → drop 80 file ≡ rest
      → length head ≡ 80
      → read_block host start rest (decode block_header_format head) ≡ ok r
      → next_block host start file ≡ ok (some r)
  unfolding next_block
  next_block-parts start [] head rest t d h e = absurd (omega (arith, ap length t))
  next_block-parts start (x ∷ file) head rest t d h e =
      let len : length (take 80 (x ∷ file)) ≡ 80 = ap length t ∙ h in rw (len, t, d, e)

  next_block-head :
      (start : ℕ) (head rest : Bytes) {r : BlockRecord × Bytes}
      → length head ≡ 80
      → read_block host start rest (decode block_header_format head) ≡ ok r
      → next_block host start (head ++ rest) ≡ ok (some r)
  next_block-head start head rest h e =
      next_block-parts start (head ++ rest) head rest (take-append_length 80 head rest h)
        (drop-append_length 80 head rest h) h e

  -- The bytes of a block, with anything behind them, are read as its record.
  pub next_block-block_bytes :
      (start : ℕ) (b : Block) (rest : Bytes)
      → IsBlock host b
      → next_block host start (block_bytes b ++ rest) ≡ ok (some (record_of start b, rest))
  next_block-block_bytes start b rest is =
      let back : decode block_header_format (head_bytes b) ≡ head_fields b =
        rw (append-nil (head_bytes b)) at
          (decode-encode block_header_format (head_fields b) [] (head_fields-Fits b is)) in
      rw (append_assoc (head_bytes b) b.disk rest) (
        next_block-head start (head_bytes b) (b.disk ++ rest)
          (length-encode block_header_format (head_fields b))
          (rw (back) (read_block-head start b rest is)))

  walk-block :
      (fuel start : ℕ) (b : Block) (rest : Bytes)
      → IsBlock host b
      → IsMiddle b
      → walk host (suc fuel) start (block_bytes b ++ rest)
        ≡ yield (record_of start b) (walk host fuel (start + (80 + length b.disk)) rest)
  walk-block fuel start b rest is middle =
      walk-next host fuel start _ (record_of start b) rest (next_block-block_bytes start b rest is)
      ∙ rw middle refl

  -- Behind the end-of-capture block nothing is read.
  pub walk-last :
      (fuel start : ℕ) (b : Block) (rest : Bytes)
      → IsBlock host b
      → b.code ≡ block_code end_of_capture
      → walk host (suc fuel) start (block_bytes b ++ rest) ≡ yield (record_of start b) done
  walk-last fuel start b rest is last =
      let e : (b.code == block_code end_of_capture) ≡ true =
        rw last (==_refl (block_code end_of_capture)) in
      walk-next host fuel start _ (record_of start b) rest (next_block-block_bytes start b rest is)
      ∙ rw e refl

  -- Blocks that do not end the capture are yielded one after the other, and the walk goes on behind
  -- them with the fuel that is left.
  pub walk-stream :
      (bs : List Block) (fuel all start : ℕ) (rest : Bytes)
      → All (IsBlock host) bs
      → All IsMiddle bs
      → all ≡ length bs + fuel
      → walk host all start (stream bs ++ rest)
        ≡ yields start bs (walk host fuel (end_of start bs) rest)
  walk-stream [] fuel all start rest is middle e =
      ap (λ (n : ℕ). walk host n start rest) (omega (arith, e))
  walk-stream (b ∷ older) fuel all start rest (is, is_older) (middle, middle_older) e =
      rw (append_assoc (stream older) (block_bytes b) rest) (
        walk-stream older (suc fuel) all start (block_bytes b ++ rest) is_older middle_older
          (omega (arith, e))
        ∙ ap (λ (t : Walk). yields start older t)
            (walk-block fuel (end_of start older) b rest is middle))
