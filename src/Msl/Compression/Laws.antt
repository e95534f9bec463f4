-- ===== src/Msl/Compression/Laws.antt =====
-- Compression, the padding of a block, and decompression.
use memslicer.Prelude.{
  ℕ, zero, suc, ◌+◌, ◌<◌, ◌≡◌, ◌≢◌, refl, sym, ap, ◌∙◌, Option, none, some, true, false, ◌∷◌, ◌++◌,
  append_assoc, append-nil, length, replicate, leb, le→leb, ◌==◌, ==_refl, if◌then◌else◌, inl, inr,
  ok, arith, length-append, length-replicate, take-append_length,
}
use memslicer.Bytes.{Bytes}
use memslicer.Msl.Constants.{CompAlgo, uncompressed, zstd, lz4}
use memslicer.Msl.Host.{Host, DecompressesAll}
use memslicer.Msl.Compression.{drop_last, compress, strip_padding, decompress}

abbrev zero_run : ℕ → Bytes
zero_run n = replicate n 0

zero_run-add : (m n : ℕ) → zero_run (n + m) ≡ zero_run n ++ zero_run m
zero_run-add m zero = ap zero_run (omega arith)
zero_run-add m (suc n) =
    ap zero_run (let e : suc n + m ≡ suc (n + m) = omega arith in e)
    ∙ ap (λ (t : Bytes). 0 ∷ t) (zero_run-add m n)

-- Cutting k of the zeros behind `c` leaves the others.
drop_last-zeros : (k n : ℕ) (c : Bytes) → drop_last k (c ++ zero_run (n + k)) ≡ c ++ zero_run n
unfolding drop_last
drop_last-zeros k n c =
    let whole : Bytes = c ++ zero_run n in
    let e : c ++ zero_run (n + k) ≡ whole ++ zero_run k =
      ap (λ (t : Bytes). c ++ t) (zero_run-add k n)
      ∙ sym (append_assoc c (zero_run n) (zero_run k)) in
    let size : length (whole ++ zero_run k) ≡ length whole + k =
      omega (arith, length-append whole (zero_run k), length-replicate k (let z : ℕ = 0 in z)) in
    let fits : leb k (length (whole ++ zero_run k)) ≡ true = le→leb _ _ (omega arith) in
    rw (e, fits) (take-append_length _ whole (zero_run k) (omega arith))

chunk-zeros :
    (k n : ℕ) (c : Bytes)
    → (if k == 0 then c ++ zero_run (n + k) else drop_last k (c ++ zero_run (n + k)))
      ≡ c ++ zero_run n
chunk-zeros zero n c = ap (λ (j : ℕ). c ++ zero_run j) (omega arith)
chunk-zeros (suc k) n c =
    rw (let e : (suc k == 0) ≡ false = ground arith in e) (drop_last-zeros (suc k) n c)

module _ (host : Host) (d : DecompressesAll host) (b : Bytes) where
  -- From the round `pad` on, with n zeros still to cut.
  strip_padding-back :
      (n rounds pad : ℕ) (last : Option (Unit {0}))
      → n < rounds
      → strip_padding host rounds pad (host.lz4_compress b ++ zero_run (n + pad)) (length b) last
        ≡ ok b
  unfolding strip_padding
  strip_padding-back n zero pad last h = absurd (omega arith)
  strip_padding-back zero (suc rounds) pad last h = rw (
    chunk-zeros pad 0 (host.lz4_compress b),
    append-nil,
    d.lz4_back b,
    ==_refl (length b),
    strip_padding,
  )
  strip_padding-back (suc n) (suc rounds) pad last h =
      let later : (l : Option (Unit {0}))
          → strip_padding host rounds (pad + 1) (host.lz4_compress b ++ zero_run (suc n + pad))
              (length b) l
            ≡ ok b =
        λ l.
          rw (let e : suc n + pad ≡ n + (pad + 1) = omega arith in e)
            (strip_padding-back n rounds (pad + 1) l (omega arith)) in
      elim (d.lz4_overrun b (suc n)) [
        | inl raises ↦
            rw (chunk-zeros pad (suc n) (host.lz4_compress b), raises, strip_padding)
              (later (some tt))
        | inr same ↦
            rw (
              chunk-zeros pad (suc n) (host.lz4_compress b),
              same,
              ==_refl (length b),
              strip_padding,
            )
      ]

  -- Over a host whose decompressors are as they should be: data compressed with zstd or lz4, with
  -- fewer than eight zeros behind it, is decompressed to the data when its length is given.
  pub decompress-compress :
      (n : ℕ) (algo : CompAlgo)
      → algo ≢ uncompressed
      → n < 8
      → decompress host (compress host b algo ++ replicate n 0) algo (some (length b)) ≡ ok b
  unfolding decompress compress
  decompress-compress n uncompressed h lt = absurd (h refl)
  decompress-compress n zstd h lt = rw (d.zstd_back b n)
  decompress-compress n lz4 h lt =
      rw (let e : n ≡ n + 0 = omega arith in e) (strip_padding-back n 8 0 none lt)
