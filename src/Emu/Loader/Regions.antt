-- ===== src/Emu/Loader/Regions.antt =====
-- The region that the loader reads from the writer's payload of a memory region.
use memslicer.Prelude.{
  value_error, page_size_not_power, region_not_aligned, page_count_mismatch, page_size_log2_range,
  require, bit_and, ltb, leb, ◌&&◌, ◌>>◌, ℕ, zero, suc, ◌+◌, ◌-◌, ◌*◌, ◌/◌, ◌%◌, ◌^◌, ◌<◌, ◌≤◌, ◌≡◌,
  refl, sym, ap, ◌∙◌, Bool, true, false, some, List, [], ◌++◌, length, take, drop, concat,
  get_elem?, ◌==◌, ==_iff, Exn, Result, ok, ◌>>=◌, >>=-eq-ok, arith, append_assoc, drop-drop,
  drop-append_length, take-append_length,
}
use memslicer.Bytes.{Tuple, in_range, Bytes, encode, pack, zeros}
use memslicer.Utils.{pad_bytes, pad8}
use memslicer.Msl.Constants.{PageState, page_code}
use memslicer.Msl.Types.{MemoryRegion}
use memslicer.Msl.Constants.{region_code}
use memslicer.Msl.Payload.{
  bit_length, bit_length_from, encode_page_state_map, region_payload, region_format,
  region_tail_format,
}
use memslicer.Msl.Payload.Pages.{
  length-encode_page_state_map, page_state, page_state-append, page_state-encode_page_state_map,
}
use memslicer.Emu.Loader.{parse_region, region_header, EmuRegion}
use memslicer.Bytes.Laws.{pack-eq-ok, unpack-take-encode, length-encode}
use memslicer.Utils.Laws.{length-pad_bytes}
use native.Mathlib.Nat.{pow-suc}
use memslicer.Emu.Loader.Captured.{captured_pages, read_pages-captured_pages}

pub pow-pos : (k : ℕ) → 0 < 2 ^ k
pow-pos zero = omega arith
pow-pos (suc k) = omega (arith, pow-suc 2 k, pow-pos k)

-- The number of binary digits of a power of two, with enough fuel.
bit_length_from-pow : (k fuel : ℕ) → 2 ^ k ≤ fuel → bit_length_from fuel (2 ^ k) ≡ suc k
unfolding bit_length_from
bit_length_from-pow k zero h = absurd (omega (arith, pow-pos k))
bit_length_from-pow zero (suc zero) h = refl
bit_length_from-pow zero (suc (suc fuel)) h = refl
bit_length_from-pow (suc k) (suc fuel) h =
    let half : 2 ^ suc k / 2 ≡ 2 ^ k = omega (arith, pow-suc 2 k) in
    let big : (2 ^ suc k == 0) ≡ false = ground (arith, pow-pos (suc k)) in
    let ih : bit_length_from fuel (2 ^ k) ≡ suc k =
      bit_length_from-pow k fuel (omega (arith, pow-suc 2 k, pow-pos k)) in
    rw (big, bit_length_from, half, ih) refl

bit_length-pow : (k : ℕ) → bit_length (2 ^ k) ≡ suc k
unfolding bit_length
bit_length-pow k = bit_length_from-pow k (2 ^ k) (omega arith)

-- The header of the payload of a region.
abbrev region_fields : MemoryRegion → ℕ → Tuple region_header
region_fields r k = (
  r.base_addr,
  (
    r.region_size,
    (r.protection, (region_code r.region_type, (k, (zeros 5, (r.timestamp_ns, tt))))),
  ),
)

abbrev tail_fields : MemoryRegion → ℕ → Tuple region_tail_format
tail_fields r k = (r.protection, (region_code r.region_type, (k, (zeros 5, (r.timestamp_ns, tt)))))

abbrev region_data : MemoryRegion → Bytes
region_data r = pad_bytes (encode_page_state_map r.page_states) ++ concat r.page_data_chunks

-- What is packed once the checks have passed.
abbrev packed_region : MemoryRegion → ℕ → Result Bytes
packed_region r k = pack region_format (r.base_addr, (r.region_size, tt)) >>= λ head.
    pack region_tail_format (tail_fields r k) >>= λ tail. ok (head ++ (tail ++ region_data r))

-- The payload that the writer packs, for a page size of 2 ^ k.
region_payload-pow :
    (r : MemoryRegion) (k : ℕ)
    → r.page_size ≡ 2 ^ k
    → region_payload r ≡ (
        require
          (ltb 0 (2 ^ k) && (bit_and (2 ^ k) (2 ^ k - 1) == 0))
          (value_error page_size_not_power)
        >> (require (r.region_size % 2 ^ k == 0) (value_error region_not_aligned)
            >> (require
                  (length r.page_states == r.region_size / 2 ^ k)
                  (value_error page_count_mismatch)
                >> (require (leb 10 k && leb k 40) (value_error page_size_log2_range)
                    >> packed_region r k))))
unfolding region_payload
region_payload-pow r k power =
    let log : bit_length (2 ^ k) - 1 ≡ k = omega (arith, bit_length-pow k) in rw (power, log) refl

passed_check :
    (test : Bool) (x : Exn) (next : Result Bytes) {p : Bytes}
    → (require test x >> next) ≡ ok p
    → (test ≡ true) × (next ≡ ok p)
passed_check true x next e = (refl, e)
passed_check false x next e = cc

-- Two packed formats in a row are the packed format of both.
in_range-both :
    (r : MemoryRegion) (k : ℕ)
    → in_range region_format (r.base_addr, (r.region_size, tt)) ≡ true
    → in_range region_tail_format
        (r.protection, (region_code r.region_type, (k, (zeros 5, (r.timestamp_ns, tt)))))
      ≡ true
    → in_range region_header (region_fields r k) ≡ true
unfolding in_range
in_range-both r k h t = ground arith

encode-both :
    (r : MemoryRegion) (k : ℕ) (rest : Bytes)
    → encode region_format (r.base_addr, (r.region_size, tt))
        ++ (encode region_tail_format
              (r.protection, (region_code r.region_type, (k, (zeros 5, (r.timestamp_ns, tt)))))
            ++ rest)
      ≡ encode region_header (region_fields r k) ++ rest
unfolding encode
encode-both r k rest = simp (append_assoc)

packed_region-eq-ok :
    (r : MemoryRegion) (k : ℕ) (p : Bytes)
    → packed_region r k ≡ ok p
    → (in_range region_header (region_fields r k) ≡ true)
      × (p ≡ encode region_header (region_fields r k) ++ region_data r)
packed_region-eq-ok r k p e =
    let (head, packed, e1) =
      >>=-eq-ok (pack region_format (r.base_addr, (r.region_size, tt)))
        (λ head. pack region_tail_format (tail_fields r k) >>= λ tail.
          ok (head ++ (tail ++ region_data r)))
        e in
    let (tail, packed_tail, e2) =
      >>=-eq-ok (pack region_tail_format (tail_fields r k))
        (λ tail. ok (head ++ (tail ++ region_data r))) e1 in
    let (head_eq, head_fits) = pack-eq-ok region_format (r.base_addr, (r.region_size, tt)) packed in
    let (tail_eq, tail_fits) = pack-eq-ok region_tail_format (tail_fields r k) packed_tail in
    let whole : head ++ (tail ++ region_data r) ≡ p = cc e2 in
    (
      in_range-both r k head_fits tail_fits,
      sym whole
          ∙ ap (λ (a : Bytes). a ++ (tail ++ region_data r)) head_eq
          ∙ ap
              (λ (b : Bytes).
                encode region_format (r.base_addr, (r.region_size, tt)) ++ (b ++ region_data r))
              tail_eq
          ∙ encode-both r k (region_data r),
    )

-- What a payload that the writer packs is made of.
region_payload-eq-ok :
    (r : MemoryRegion) (k : ℕ) (p : Bytes)
    → r.page_size ≡ 2 ^ k
    → region_payload r ≡ ok p
    → (length r.page_states ≡ r.region_size / 2 ^ k)
      × (in_range region_header (region_fields r k) ≡ true)
      × (p
          ≡ encode region_header (region_fields r k)
            ++ (pad_bytes (encode_page_state_map r.page_states) ++ concat r.page_data_chunks))
region_payload-eq-ok r k p power e =
    let (_, e1) =
      passed_check (ltb 0 (2 ^ k) && (bit_and (2 ^ k) (2 ^ k - 1) == 0))
        (value_error page_size_not_power) _ (sym (region_payload-pow r k power) ∙ e) in
    let (_, e2) = passed_check (r.region_size % 2 ^ k == 0) (value_error region_not_aligned) _ e1 in
    let (count, e3) =
      passed_check (length r.page_states == r.region_size / 2 ^ k) (value_error page_count_mismatch)
        _ e2 in
    let (_, e4) = passed_check (leb 10 k && leb k 40) (value_error page_size_log2_range) _ e3 in
    let (fits, made) = packed_region-eq-ok r k p e4 in ((==_iff _ _).0 count, fits, made)

-- What a page size of 2 ^ k makes of a region of the writer's.
abbrev pub loaded_region : MemoryRegion → ℕ → Bytes → EmuRegion
loaded_region r k rest = record {
  base = r.base_addr;
  size = r.region_size;
  protection = r.protection;
  page_size = 2 ^ k;
  region_type = region_code r.region_type;
  pages = captured_pages r.base_addr (2 ^ k) 0 r.page_states (concat r.page_data_chunks ++ rest);
}

-- The states that the padded map gives.
padded_map :
    (states : List PageState) (j : ℕ) (s : PageState)
    → get_elem? states j ≡ some s
    → page_state (pad_bytes (encode_page_state_map states)) (0 + j) ≡ ok (page_code s)
unfolding pad_bytes
padded_map states j s e =
    ap (page_state (pad_bytes (encode_page_state_map states)))
      (let q : 0 + j ≡ j = omega arith in q)
    ∙ page_state-append (encode_page_state_map states) _ j (page_code s)
        (page_state-encode_page_state_map states j s e)

-- The payload that the writer packs for a region whose page size is 2 ^ k, with anything behind it,
-- is read back as the region, with each captured page at its address and no other page.
pub parse_region-region_payload :
    (r : MemoryRegion) (k : ℕ) (p rest : Bytes)
    → r.page_size ≡ 2 ^ k
    → region_payload r ≡ ok p
    → parse_region (p ++ rest) ≡ ok (loaded_region r k rest)
unfolding parse_region
parse_region-region_payload r k p rest power e =
    let (count, fits, made) = region_payload-eq-ok r k p power e in
    let map_bytes : Bytes = pad_bytes (encode_page_state_map r.page_states) in
    let head : Bytes = encode region_header (region_fields r k) in
    let chunks : Bytes = concat r.page_data_chunks in
    let split : p ++ rest ≡ head ++ (map_bytes ++ (chunks ++ rest)) = rw (made) (
      append_assoc head (map_bytes ++ chunks) rest
      ∙ ap (λ (t : Bytes). head ++ t) (append_assoc map_bytes chunks rest)) in
    let opened =
      unpack-take-encode region_header (region_fields r k) 32 (map_bytes ++ (chunks ++ rest)) refl
        fits in
    let behind : drop 32 (head ++ (map_bytes ++ (chunks ++ rest))) ≡ map_bytes ++ (chunks ++ rest) =
      drop-append_length 32 head (map_bytes ++ (chunks ++ rest))
        (length-encode region_header (region_fields r k)) in
    let pages =
      read_pages-captured_pages map_bytes (chunks ++ rest) r.base_addr (2 ^ k) (pow-pos k)
        r.page_states 0 0 [] (padded_map r.page_states) tt in
    let n : ℕ = pad8 ((length r.page_states + 3) / 4) in
    let size : length map_bytes ≡ n =
      length-pad_bytes (encode_page_state_map r.page_states)
      ∙ ap pad8 (length-encode_page_state_map r.page_states) in
    let cut : take (32 + n - 32) (map_bytes ++ (chunks ++ rest)) ≡ map_bytes =
      take-append_length (32 + n - 32) map_bytes (chunks ++ rest) (omega arith) in
    let left : drop (32 + n) (head ++ (map_bytes ++ (chunks ++ rest))) ≡ chunks ++ rest =
      sym (drop-drop 32 n (32 + n) (head ++ (map_bytes ++ (chunks ++ rest))) refl)
      ∙ ap (drop n) behind
      ∙ drop-append_length n map_bytes (chunks ++ rest) size in
    let start : drop (0 * 2 ^ k) (chunks ++ rest) ≡ chunks ++ rest =
      ap (λ (i : ℕ). drop i (chunks ++ rest)) (let z : 0 * 2 ^ k ≡ 0 = omega arith in z) in
    rw (split, opened, behind, sym count, cut, left, pages, start) refl
