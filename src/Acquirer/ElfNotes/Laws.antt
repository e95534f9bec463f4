-- ===== src/Acquirer/ElfNotes/Laws.antt =====
-- ELF notes that are written in either byte order are parsed back, and no input raises.
use memslicer.Prelude.{
  ℕ, zero, suc, ◌+◌, ◌-◌, ◌^◌, ◌<◌, ◌≡◌, inl, inr, refl, sym, ap, ◌∙◌, Bool, true, false, not, ◌&&◌,
  ◌||◌, Option, none, [], ◌∷◌, ◌++◌, length, take, ltb, leb, le→leb, ◌==◌, same_text, if◌then◌else◌,
  ok, arith, Bool-cases, append_assoc, append-nil, length-append, drop-append_length,
  take-append_length,
}
use memslicer.Bytes.{Bytes, to_le, from_le, slice}
use memslicer.Bytes.Laws.{length-to_le, from_le-to_le}
use memslicer.Utils.{Text}
use memslicer.Acquirer.ElfNotes.{
  reverse, read_uint, uint_from, byte_at, extract_build_id, scan_table, table_of,
}

byte_at-lt : (b : Bytes) (i : ℕ) → i < length b → (x : ℕ) × (byte_at b i ≡ ok x)
unfolding byte_at
byte_at-lt [] i h = absurd (omega arith)
byte_at-lt (x ∷ b) zero h = (x, refl)
byte_at-lt (x ∷ b) (suc i) h = byte_at-lt b i (omega arith)

-- No input makes `extract_build_id` raise.
pub extract_build_id-eq-ok :
    (decode : Bytes → Text) (b : Bytes)
    → (found : Option Bytes) × (extract_build_id decode b ≡ ok found)
unfolding extract_build_id
extract_build_id-eq-ok decode b = elim (Bool-cases (ltb (length b) 52)) [
  | inl short ↦ (none, rw short refl)
  | inr long ↦ elim (Bool-cases (not (same_text (take 4 b) (0x7f ∷ (b'E' ∷ b'L' ∷ b'F' ∷ []))))) [
    | inl other ↦ (none, rw (long, other) refl)
    | inr elf ↦
        let (ei_class, first) = byte_at-lt b 4 (ground arith) in
        let (ei_data, second) = byte_at-lt b 5 (ground arith) in
        let is_64bit : Bool = ei_class == 2 in
        let little : Bool = ei_data == 1 in
        (
          (if not (ei_class == 1 || is_64bit)
              then none
              else if not (little || (ei_data == 2))
              then none
              else if is_64bit && ltb (length b) 64
              then none
              else scan_table decode is_64bit little b (table_of decode is_64bit little b)),
          rw (long, elf, first, second) refl,
        )
  ]
]

reverse-append : (a b : Bytes) → reverse (a ++ b) ≡ reverse b ++ reverse a
reverse-append [] b = sym (append-nil (reverse b))
reverse-append (x ∷ a) b =
    ap (λ (t : Bytes). t ++ x ∷ []) (reverse-append a b)
    ∙ append_assoc (reverse b) (reverse a) (x ∷ [])

reverse-reverse : (a : Bytes) → reverse (reverse a) ≡ a
reverse-reverse [] = refl
reverse-reverse (x ∷ a) =
    reverse-append (reverse a) (x ∷ []) ∙ ap (λ (t : Bytes). x ∷ t) (reverse-reverse a)

length-reverse : (a : Bytes) → length (reverse a) ≡ length a
length-reverse [] = refl
length-reverse (x ∷ a) = omega (arith, length-append (reverse a) (x ∷ []), length-reverse a)

-- An integer as a format with "<" or ">" packs it
unfoldable pub put_uint : Bool → ℕ → ℕ → Bytes
put_uint true w n = to_le w n
put_uint false w n = reverse (to_le w n)

pub length-put_uint : (little : Bool) (w n : ℕ) → length (put_uint little w n) ≡ w
unfolding put_uint
length-put_uint true w n = length-to_le w n
length-put_uint false w n = length-reverse (to_le w n) ∙ length-to_le w n

read_uint-put_uint :
    (little : Bool) (w n : ℕ) → n < 256 ^ w → read_uint little (put_uint little w n) ≡ n
unfolding put_uint read_uint
read_uint-put_uint true w n h = from_le-to_le w n h
read_uint-put_uint false w n h = ap from_le (reverse-reverse (to_le w n)) ∙ from_le-to_le w n h

-- A piece of a byte string, by what stands before and behind it.
pub slice_at :
    (pre mid post : Bytes) (lo hi : ℕ)
    → length pre ≡ lo
    → lo + length mid ≡ hi
    → slice lo hi (pre ++ (mid ++ post)) ≡ mid
slice_at pre mid post lo hi at end =
    ap (take (hi - lo)) (drop-append_length lo pre (mid ++ post) at)
    ∙ take-append_length (hi - lo) mid post (omega arith)

pub uint_from-put_uint :
    (little : Bool) (w n : ℕ) (pre post b : Bytes) (off : ℕ)
    → length pre ≡ off
    → n < 256 ^ w
    → b ≡ pre ++ (put_uint little w n ++ post)
    → uint_from little w b off ≡ ok n
unfolding uint_from
uint_from-put_uint little w n pre post b off at small made =
    let mid : Bytes = put_uint little w n in
    let inside : leb (off + w) (length b) ≡ true = le→leb (off + w) (length b) (
      omega (
        arith,
        ap length made,
        length-append pre (mid ++ post),
        length-append mid post,
        length-put_uint little w n,
      )) in
    let piece : slice off (off + w) b ≡ mid =
      ap (slice off (off + w)) made
      ∙ slice_at pre mid post off (off + w) at
          (ap (λ (k : ℕ). off + k) (length-put_uint little w n)) in
    rw (inside, piece) (ap ok (read_uint-put_uint little w n small))
