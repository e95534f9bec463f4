-- ===== src/Msl/Slice/Stored.antt =====
-- Stored payloads, compressed or not, and the iterator on them.
use memslicer.Prelude.{
  ℕ, ◌-◌, ◌/◌, ◌^◌, ◌<◌, ◌≡◌, ◌≢◌, refl, sym, ap, ◌∙◌, inl, inr, true, false, some, [], ◌∷◌, ◌++◌,
  length, replicate, bit_and, ok, arith, >>=-eq-ok, append_assoc, leb, le→leb, ◌==◌, ==_refl,
  length-append, take-append_length, drop-append_length,
}
use memslicer.Bytes.{Bytes, u64, pack, unpack, in_range}
use memslicer.Bytes.Laws.{pack-eq-ok, length-encode, unpack-encode}
use memslicer.Utils.{pad_bytes, pad8}
use memslicer.Msl.Constants.{
  CompAlgo, uncompressed, zstd, lz4, comp_of_code, compalgo_mask, compressed,
}
use memslicer.Msl.Host.{Host, DecompressesAll}
use memslicer.Msl.Compression.{compress}
use memslicer.Msl.Compression.Laws.{decompress-compress}
use memslicer.Msl.Writer.{on_disk_payload}
use memslicer.Msl.Iterator.{read_payload, read_compressed}
use memslicer.Msl.Slice.{IsWriterFlags}

-- pad_bytes adds fewer than eight zeros.
pad_bytes-zeros : (b : Bytes) → (n : ℕ) × (n < 8) × (pad_bytes b ≡ b ++ replicate n 0)
unfolding pad_bytes
pad_bytes-zeros b = (pad8 (length b) - length b, unfold pad8 in omega arith, refl)

in_range-u64 : (n : ℕ) → in_range (u64 ∷ []) (n, tt) ≡ true → n < 256 ^ 8
unfolding in_range
in_range-u64 n h = ground arith

module _ (host : Host) (d : DecompressesAll host) where
  -- What follows the size prefix, with its padding, is decompressed to the payload.
  squeezed-back :
      (q s : Bytes) (flags : ℕ) (algo : CompAlgo)
      → algo ≢ uncompressed
      → comp_of_code (bit_and flags compalgo_mask / 2) ≡ some algo
      → pack (u64 ∷ []) (length q, tt) ≡ ok s
      → read_compressed host flags (pad_bytes (s ++ compress host q algo)) ≡ ok q
  unfolding read_compressed
  squeezed-back q s flags algo real named packed =
      let (shape, fits) = pack-eq-ok (u64 ∷ []) (length q, tt) packed in
      let width : length s ≡ 8 = ap length shape ∙ length-encode (u64 ∷ []) (length q, tt) in
      let (n, few, zeros) = pad_bytes-zeros (s ++ compress host q algo) in
      let behind : Bytes = compress host q algo ++ replicate n 0 in
      let whole : pad_bytes (s ++ compress host q algo) ≡ s ++ behind =
        zeros ∙ append_assoc s (compress host q algo) (replicate n 0) in
      let room : leb 8 (length (s ++ behind)) ≡ true =
        le→leb _ _ (omega (arith, length-append s behind)) in
      let size_back : unpack (u64 ∷ []) s ≡ ok (length q, tt) =
        rw shape (unpack-encode (u64 ∷ []) (length q, tt) (in_range-u64 _ fits, tt)) in
      rw (
        whole,
        room,
        take-append_length 8 s behind width,
        drop-append_length 8 s behind width,
        size_back,
        named,
        decompress-compress host d q n algo real few,
        ==_refl (length q),
      )

  -- A compressed block, of either algorithm.
  read_payload-compressed :
      (payload disk : Bytes) (flags : ℕ) (algo : CompAlgo)
      → algo ≢ uncompressed
      → comp_of_code (bit_and flags compalgo_mask / 2) ≡ some algo
      → (bit_and flags compressed == 0) ≡ false
      → on_disk_payload host payload flags ≡ ok disk
      → read_payload host flags disk ≡ ok (pad_bytes payload)
  unfolding on_disk_payload read_payload
  read_payload-compressed payload disk flags algo real named set h =
      let (s, packed, e) =
        >>=-eq-ok (pack (u64 ∷ []) (length (pad_bytes payload), tt))
          (λ s. ok (pad_bytes (s ++ compress host (pad_bytes payload) algo)))
          (rw (set, named) at h) in
      let same : pad_bytes (s ++ compress host (pad_bytes payload) algo) ≡ disk = cc e in
      rw (set, ← same) (squeezed-back (pad_bytes payload) s flags algo real named packed)

  -- A block that is stored as it is.
  read_payload-plain :
      (payload disk : Bytes) (flags : ℕ)
      → (bit_and flags compressed == 0) ≡ true
      → on_disk_payload host payload flags ≡ ok disk
      → read_payload host flags disk ≡ ok (pad_bytes payload)
  unfolding on_disk_payload read_payload
  read_payload-plain payload disk flags clear h =
      let same : ok (pad_bytes payload) ≡ ok disk = rw clear at h in rw clear (sym same)

  -- Over a host whose decompressors are as they should be, and for any flags that the writer gives:
  -- what is stored for a payload is read back as the payload filled to eight bytes.
  pub read_payload-on_disk :
      (payload disk : Bytes) (flags : ℕ)
      → IsWriterFlags flags
      → on_disk_payload host payload flags ≡ ok disk
      → read_payload host flags disk ≡ ok (pad_bytes payload)
  read_payload-on_disk payload disk flags (inl e) h = read_payload-plain payload disk flags (rw e) h
  read_payload-on_disk payload disk flags (inr (inl e)) h =
      read_payload-plain payload disk flags (rw e) h
  read_payload-on_disk payload disk flags (inr (inr (inl e))) h =
      read_payload-compressed payload disk flags zstd (λ p. cc) (unfold comp_of_code in rw e) (rw e)
        h
  read_payload-on_disk payload disk flags (inr (inr (inr e))) h =
      read_payload-compressed payload disk flags lz4 (λ p. cc) (unfold comp_of_code in rw e) (rw e)
        h
