-- ===== src/Acquirer/ElfNotes/RoundTrip.antt =====
-- ELF notes that are written in either byte order are parsed back.
use memslicer.Prelude.{
  ℕ, zero, suc, ◌+◌, ◌-◌, ◌^◌, ◌<◌, ◌≤◌, ◌≡◌, refl, sym, ap, ◌∙◌, Bool, true, false, ◌||◌, some,
  List, [], ◌∷◌, ◌++◌, length, replicate, ltb, leb, le→leb, ok, arith, append_assoc, length-append,
  length-replicate, All,
}
use memslicer.Bytes.{Bytes, slice}
use memslicer.Utils.{Text}
use memslicer.Acquirer.ElfNotes.{
  Note, strip_nul, pad4, note_header, note_body, notes_from, parse_elf_notes,
}
use memslicer.Acquirer.ElfNotes.Laws.{put_uint, length-put_uint, uint_from-put_uint, slice_at}

-- Zeros up to a multiple of four
abbrev fill : ℕ → Bytes
fill n = replicate (pad4 n - n) 0

abbrev named : Note → Bytes
named n = n.name ++ 0 ∷ []

-- What stands behind the header of a note.
abbrev note_data : Note → Bytes → Bytes
note_data n post =
    named n ++ (fill (length (named n)) ++ (n.desc ++ (fill (length n.desc) ++ post)))

-- The bytes of a note, and others behind it
unfoldable pub put_note : Bool → Note → Bytes → Bytes
unfolding put_uint
put_note little n post =
    put_uint little 4 (length (named n))
    ++ (put_uint little 4 (length n.desc) ++ (put_uint little 4 n.type ++ note_data n post))

unfoldable pub put_notes : Bool → List Note → Bytes
unfolding put_note
put_notes little [] = []
put_notes little (n ∷ ns) = put_note little n (put_notes little ns)

strip_nul-append : (a : Bytes) → strip_nul (a ++ 0 ∷ []) ≡ strip_nul a
unfolding strip_nul
strip_nul-append [] = refl
strip_nul-append (x ∷ a) = rw (strip_nul-append a) refl

pad4-le : (n : ℕ) → n ≤ pad4 n
unfolding pad4
pad4-le n = omega arith

head : Bool → Note → Bytes
head little n =
    put_uint little 4 (length (named n))
    ++ (put_uint little 4 (length n.desc) ++ put_uint little 4 n.type)

body : Note → Bytes
body n = named n ++ (fill (length (named n)) ++ (n.desc ++ fill (length n.desc)))

length-head : (little : Bool) (n : Note) → length (head little n) ≡ 12
unfolding head
length-head little n =
    let a1 : Bytes = put_uint little 4 (length (named n)) in
    let a2 : Bytes = put_uint little 4 (length n.desc) in
    let a3 : Bytes = put_uint little 4 n.type in
    omega (
      arith,
      length-append a1 (a2 ++ a3),
      length-append a2 a3,
      length-put_uint little 4 (length (named n)),
      length-put_uint little 4 (length n.desc),
      length-put_uint little 4 n.type,
    )

length-fill : (n : ℕ) → length (fill n) ≡ pad4 n - n
length-fill n = length-replicate (pad4 n - n) (let z : ℕ = 0 in z)

length-body : (n : Note) → length (body n) ≡ pad4 (length (named n)) + pad4 (length n.desc)
unfolding body
length-body n =
    let name : Bytes = named n in
    let tail : Bytes = n.desc ++ fill (length n.desc) in
    omega (
      arith,
      length-append name (fill (length name) ++ tail),
      length-append (fill (length name)) tail,
      length-append n.desc (fill (length n.desc)),
      length-fill (length name),
      length-fill (length n.desc),
      pad4-le (length name),
      pad4-le (length n.desc),
    )

put_note-head :
    (little : Bool) (n : Note) (post : Bytes)
    → put_note little n post ≡ head little n ++ note_data n post
unfolding put_note head
put_note-head little n post =
    let a1 : Bytes = put_uint little 4 (length (named n)) in
    let a2 : Bytes = put_uint little 4 (length n.desc) in
    let a3 : Bytes = put_uint little 4 n.type in
    sym (
      append_assoc a1 (a2 ++ a3) (note_data n post)
      ∙ ap (λ (t : Bytes). a1 ++ t) (append_assoc a2 a3 (note_data n post)))

note_data-body : (n : Note) (post : Bytes) → note_data n post ≡ body n ++ post
unfolding body
note_data-body n post =
    let name : Bytes = named n in
    let gap : Bytes = fill (length name) in
    let last : Bytes = fill (length n.desc) in
    sym (
      append_assoc name (gap ++ (n.desc ++ last)) post
      ∙ ap (λ (t : Bytes). name ++ t)
          (append_assoc gap (n.desc ++ last) post
            ∙ ap (λ (t : Bytes). gap ++ t) (append_assoc n.desc last post)))

length-put_note : (little : Bool) (n : Note) (post : Bytes) → 12 ≤ length (put_note little n post)
length-put_note little n post = omega (
  arith,
  ap length (put_note-head little n post),
  length-append (head little n) (note_data n post),
  length-head little n,
)

module _ (decode : Bytes → Text) where
  -- A note whose numbers fit four bytes, and whose name is what the parser makes of it
  abbrev pub IsNote : Note → Type 0
  IsNote n =
      (length (named n) < 256 ^ 4)
      × (length n.desc < 256 ^ 4)
      × (n.type < 256 ^ 4)
      × (decode (strip_nul n.name) ≡ n.name)

  note_header-put_note :
      (little : Bool) (n : Note) (pre post b : Bytes) (off : ℕ)
      → IsNote n
      → length pre ≡ off
      → b ≡ pre ++ put_note little n post
      → note_header little b off ≡ ok (length (named n), length n.desc, n.type)
  unfolding note_header put_note
  note_header-put_note little n pre post b off (h1, h2, h3, _) at made =
      let a1 : Bytes = put_uint little 4 (length (named n)) in
      let a2 : Bytes = put_uint little 4 (length n.desc) in
      let a3 : Bytes = put_uint little 4 n.type in
      let behind : Bytes = note_data n post in
      let made2 : b ≡ (pre ++ a1) ++ (a2 ++ (a3 ++ behind)) =
        made ∙ sym (append_assoc pre a1 (a2 ++ (a3 ++ behind))) in
      let made3 : b ≡ ((pre ++ a1) ++ a2) ++ (a3 ++ behind) =
        made2 ∙ sym (append_assoc (pre ++ a1) a2 (a3 ++ behind)) in
      let l1 : length (pre ++ a1) ≡ off + 4 =
        omega (arith, length-append pre a1, length-put_uint little 4 (length (named n))) in
      let l2 : length ((pre ++ a1) ++ a2) ≡ off + 8 =
        omega (arith, length-append (pre ++ a1) a2, length-put_uint little 4 (length n.desc)) in
      rw
        (
          uint_from-put_uint little 4 (length (named n)) pre (a2 ++ (a3 ++ behind)) b off at h1
              made,
          uint_from-put_uint little 4 (length n.desc) (pre ++ a1) (a3 ++ behind) b (off + 4) l1 h2
              made2,
          uint_from-put_uint little 4 n.type ((pre ++ a1) ++ a2) behind b (off + 8) l2 h3 made3,
        )
        refl

  note_body-put_note :
      (n : Note) (pre post b : Bytes) (off : ℕ)
      → IsNote n
      → length pre ≡ off
      → b ≡ pre ++ note_data n post
      → note_body decode b off (ok (length (named n), length n.desc, n.type))
        ≡ some (n, off + pad4 (length (named n)) + pad4 (length n.desc))
  unfolding note_body
  note_body-put_note n pre post b off (_, _, _, decoded) at made =
      let name : Bytes = named n in
      let gap : Bytes = fill (length name) in
      let tail : Bytes = fill (length n.desc) ++ post in
      let start : ℕ = off + pad4 (length name) in
      let padded : length (name ++ gap) ≡ pad4 (length name) = omega (
        arith,
        length-append name gap,
        length-replicate (pad4 (length name) - length name) (let z : ℕ = 0 in z),
        pad4-le (length name),
      ) in
      let before : length (pre ++ (name ++ gap)) ≡ start =
        omega (arith, length-append pre (name ++ gap)) in
      let split : b ≡ (pre ++ (name ++ gap)) ++ (n.desc ++ tail) =
        made
        ∙ ap (λ (t : Bytes). pre ++ t) (sym (append_assoc name gap (n.desc ++ tail)))
        ∙ sym (append_assoc pre (name ++ gap) (n.desc ++ tail)) in
      let long : length b ≡ start + length n.desc + length tail = omega (
        arith,
        ap length split,
        length-append (pre ++ (name ++ gap)) (n.desc ++ tail),
        length-append n.desc tail,
      ) in
      let t1 : (ltb (length b) (length name) || ltb (length b) (length n.desc)) ≡ false =
        ground (arith, pad4-le (length name)) in
      let t2 : ltb (length b) (off + length name) ≡ false = ground (arith, pad4-le (length name)) in
      let t3 : ltb (length b) (start + length n.desc) ≡ false = ground arith in
      let name_piece : slice off (off + length name) b ≡ name =
        ap (slice off (off + length name)) made
        ∙ slice_at pre name (gap ++ (n.desc ++ tail)) off (off + length name) at refl in
      let desc_piece : slice start (start + length n.desc) b ≡ n.desc =
        ap (slice start (start + length n.desc)) split
        ∙ slice_at (pre ++ (name ++ gap)) n.desc tail start (start + length n.desc) before refl in
      rw (t1, t2, t3, name_piece, desc_piece, strip_nul-append n.name, decoded) refl

  notes_from-put_notes :
      (little : Bool) (ns : List Note) (pre b : Bytes) (off fuel : ℕ)
      → All IsNote ns
      → length pre ≡ off
      → length b ≤ off + fuel
      → b ≡ pre ++ put_notes little ns
      → notes_from decode fuel little b off ≡ ns
  unfolding notes_from put_notes
  notes_from-put_notes little [] pre b off zero h at enough made = refl
  notes_from-put_notes little [] pre b off (suc fuel) h at enough made =
      let over : leb (off + 12) (length b) ≡ false =
        ground (arith, ap length made, length-append pre (let z : Bytes = [] in z)) in
      rw over refl
  notes_from-put_notes little (n ∷ ns) pre b off zero (hn, h) at enough made = absurd (
      omega (
        arith,
        ap length made,
        length-append pre (put_note little n (put_notes little ns)),
        length-put_note little n (put_notes little ns),
      ))
  notes_from-put_notes little (n ∷ ns) pre b off (suc fuel) (hn, h) at enough made =
      let post : Bytes = put_notes little ns in
      let front : Bytes = pre ++ head little n in
      let behind : ℕ = off + 12 + pad4 (length (named n)) + pad4 (length n.desc) in
      let made1 : b ≡ front ++ note_data n post =
        made
        ∙ ap (λ (t : Bytes). pre ++ t) (put_note-head little n post)
        ∙ sym (append_assoc pre (head little n) (note_data n post)) in
      let made2 : b ≡ (front ++ body n) ++ post =
        made1
        ∙ ap (λ (t : Bytes). front ++ t) (note_data-body n post)
        ∙ sym (append_assoc front (body n) post) in
      let l1 : length front ≡ off + 12 =
        omega (arith, length-append pre (head little n), length-head little n) in
      let l2 : length (front ++ body n) ≡ behind =
        omega (arith, length-append front (body n), length-body n) in
      let under : leb (off + 12) (length b) ≡ true =
        le→leb (off + 12) (length b)
          (omega (arith, ap length made1, length-append front (note_data n post))) in
      let ih : notes_from decode fuel little b behind ≡ ns =
        notes_from-put_notes little ns (front ++ body n) b behind fuel h l2 (omega arith) made2 in
      rw
        (
          under,
          note_header-put_note little n pre post b off hn at made,
          note_body-put_note n front post b (off + 12) hn l1 made1,
          ih,
        )
        refl

  -- Notes that are written one behind the other, in either byte order, are parsed back, where their
  -- numbers fit four bytes and their names decode to themselves and do not end in NUL.
  pub parse_elf_notes-put_notes :
      (little : Bool) (ns : List Note)
      → All IsNote ns
      → parse_elf_notes decode (put_notes little ns) little ≡ ns
  unfolding parse_elf_notes
  parse_elf_notes-put_notes little ns h =
      notes_from-put_notes little ns [] (put_notes little ns) 0 (length (put_notes little ns)) h
        refl (omega arith) refl
