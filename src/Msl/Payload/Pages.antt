-- ===== src/Msl/Payload/Pages.antt =====
-- memslicer/emu/loader.py, `_page_state`: the reader of the page state map, on what the writer's
-- `_encode_page_state_map` makes.
use memslicer.Prelude.{
  and_true, ℕ, zero, suc, ◌+◌, ◌-◌, ◌*◌, ◌/◌, ◌%◌, ◌^◌, ◌<◌, ◌≤◌, ◌≡◌, refl, sym, ap, ◌∙◌, Bool,
  true, false, ◌&&◌, none, some, List, [], ◌∷◌, length, set, get_or, get_elem?, bit_and, bit_or,
  All, ◌==◌, ==_iff, ltb, ltb→lt, if◌then◌else◌, Result, Exn, ok, err, index_error, arith,
  length-set, Bool-cases, inl, inr, Option-cases, ◌++◌, ==_refl,
}
use memslicer.Bytes.{Bytes, IsByte, zeros}
use memslicer.Bytes.Laws.{length-zeros}
use memslicer.Msl.Constants.{PageState, captured, failed, unmapped, page_code}
use memslicer.Msl.Payload.{put_state, put_states, encode_page_state_map}

-- (psm[i >> 2] >> (6 - (i & 3) * 2)) & 3
unfoldable pub page_state : Bytes → ℕ → Result ℕ
page_state psm i = elim (get_elem? psm (i / 4)) [
  | none ↦ err index_error
  | some b ↦ ok (bit_and (b / 2 ^ (6 - i % 4 * 2)) 3)
]

every : (ℕ → Bool) → ℕ → Bool
every test zero = true
every test (suc n) = every test n && test n

every-true : (test : ℕ → Bool) (n : ℕ) → every test n ≡ true → (i : ℕ) → i < n → test i ≡ true
unfolding every
every-true test zero h i lt = absurd (omega arith)
every-true test (suc n) h i lt =
    let (below, last) = and_true _ _ h in
    elim (Bool-cases (i == n)) [
      | inl e ↦ ap test ((==_iff i n).0 e) ∙ last
      | inr e ↦ every-true test n below i (ground arith)
    ]

-- The two bits at place k of a byte.
abbrev bits_at : ℕ → ℕ → ℕ
bits_at b k = bit_and (b / 2 ^ (6 - k * 2)) 3

abbrev put_bits : ℕ → ℕ → ℕ → ℕ
put_bits b c k = bit_or b (bit_and c 3 * 2 ^ (6 - k * 2))

abbrev bits_test : ℕ → ℕ → ℕ → ℕ → Bool
bits_test c k j b =
    ltb (put_bits b c k) 256
    && bits_at (put_bits b c k) j == (if j == k then bit_or (bits_at b k) c else bits_at b j)

bits_table : every (λ c. every (λ k. every (λ j. every (bits_test c k j) 256) 4) 4) 4 ≡ true
unfolding every
bits_table = refl

put_bits-lt-bits_at :
    (b c k j : ℕ)
    → b < 256
    → c < 4
    → k < 4
    → j < 4
    → (put_bits b c k < 256)
      × (bits_at (put_bits b c k) j ≡ (if j == k then bit_or (bits_at b k) c else bits_at b j))
put_bits-lt-bits_at b c k j hb hc hk hj =
    let t : bits_test c k j b ≡ true =
      every-true (bits_test c k j) 256
        (every-true (λ j. every (bits_test c k j) 256) 4
          (every-true (λ k. every (λ j. every (bits_test c k j) 256) 4) 4
            (every-true (λ c. every (λ k. every (λ j. every (bits_test c k j) 256) 4) 4) 4
              bits_table c hc)
            k hk)
          j hj)
        b hb in
    let (small, same) = and_true _ _ t in (ltb→lt _ _ small, (==_iff _ _).0 same)

get_or-set_same : (xs : Bytes) (a v : ℕ) → a < length xs → get_or (set xs a v) a 0 ≡ v
get_or-set_same [] a v h = absurd (omega arith)
get_or-set_same (x ∷ xs) zero v h = refl
get_or-set_same (x ∷ xs) (suc a) v h = get_or-set_same xs a v (omega arith)

get_or-set_other : (xs : Bytes) (a b v : ℕ) → (a ≡ b → ⊥) → get_or (set xs a v) b 0 ≡ get_or xs b 0
get_or-set_other [] a b v h = refl
get_or-set_other (x ∷ xs) zero zero v h = absurd (h refl)
get_or-set_other (x ∷ xs) zero (suc b) v h = refl
get_or-set_other (x ∷ xs) (suc a) zero v h = refl
get_or-set_other (x ∷ xs) (suc a) (suc b) v h = get_or-set_other xs a b v (λ e. h (ap suc e))

get_or-lt : (xs : Bytes) (a : ℕ) → All IsByte xs → get_or xs a 0 < 256
get_or-lt [] a h = omega arith
get_or-lt (x ∷ xs) zero (hx, h) = hx
get_or-lt (x ∷ xs) (suc a) (hx, h) = get_or-lt xs a h

set-IsByte : (xs : Bytes) (a v : ℕ) → All IsByte xs → v < 256 → All IsByte (set xs a v)
set-IsByte [] a v h hv = tt
set-IsByte (x ∷ xs) zero v (hx, h) hv = (hv, h)
set-IsByte (x ∷ xs) (suc a) v (hx, h) hv = (hx, set-IsByte xs a v h hv)

page_code-lt : (s : PageState) → page_code s < 4
unfolding page_code
page_code-lt s = ground arith

-- The two bits of a page.
abbrev place : Bytes → ℕ → ℕ
place r i = bits_at (get_or r (i / 4) 0) (i % 4)

put_state-IsByte : (i : ℕ) (s : PageState) (r : Bytes) → All IsByte r → All IsByte (put_state i s r)
unfolding put_state
put_state-IsByte i s r h =
    set-IsByte r (i / 4) _ h
      (put_bits-lt-bits_at (get_or r (i / 4) 0) (page_code s) (i % 4) 0 (get_or-lt r (i / 4) h)
        (page_code-lt s) (omega arith) (omega arith)).0

length-put_state : (i : ℕ) (s : PageState) (r : Bytes) → length (put_state i s r) ≡ length r
unfolding put_state
length-put_state i s r = length-set r (i / 4) _

-- Its own bits are set, and those of the other pages are left.
place-put_state :
    (i j : ℕ) (s : PageState) (r : Bytes)
    → All IsByte r
    → i < 4 * length r
    → place (put_state i s r) j ≡ (if j == i then bit_or (place r i) (page_code s) else place r j)
unfolding put_state
place-put_state i j s r h lt =
    let b : ℕ = get_or r (i / 4) 0 in
    let v : ℕ = put_bits b (page_code s) (i % 4) in
    elim (Bool-cases (j / 4 == i / 4)) [
      | inl e ↦
          let here : j / 4 ≡ i / 4 = (==_iff (j / 4) (i / 4)).0 e in
          let read : get_or (set r (i / 4) v) (j / 4) 0 ≡ v =
            ap (λ (a : ℕ). get_or (set r (i / 4) v) a 0) here
            ∙ get_or-set_same r (i / 4) v (omega arith) in
          let test : (j == i) ≡ (j % 4 == i % 4) = ground arith in
          let kept : get_or r (j / 4) 0 ≡ b = ap (λ (a : ℕ). get_or r a 0) here in
          rw (read, test, kept)
            (put_bits-lt-bits_at b (page_code s) (i % 4) (j % 4) (get_or-lt r (i / 4) h)
              (page_code-lt s) (omega arith) (omega arith)).1
      | inr e ↦
          let test : (j == i) ≡ false = ground arith in
          let kept : get_or (set r (i / 4) v) (j / 4) 0 ≡ get_or r (j / 4) 0 =
            get_or-set_other r (i / 4) (j / 4) v (λ p. ground arith) in
          rw (kept, test) refl
    ]

zero-bit_or : (s : PageState) → bit_or 0 (page_code s) ≡ page_code s
unfolding page_code
zero-bit_or captured = refl
zero-bit_or failed = refl
zero-bit_or unmapped = refl

-- The pages before are kept.
put_states-kept :
    (states : List PageState) (i j : ℕ) (r : Bytes)
    → All IsByte r
    → i + length states ≤ 4 * length r
    → j < i
    → place (put_states i states r) j ≡ place r j
unfolding put_states
put_states-kept [] i j r h room lt = refl
put_states-kept (s ∷ states) i j r h room lt =
    let test : (j == i) ≡ false = ground arith in
    put_states-kept states (i + 1) j (put_state i s r) (put_state-IsByte i s r h)
      (omega (arith, length-put_state i s r)) (omega arith)
    ∙ place-put_state i j s r h (omega arith)
    ∙ rw test refl

-- Where the bits from page i on are clean.
put_states-read :
    (states : List PageState) (i k : ℕ) (s : PageState) (r : Bytes)
    → All IsByte r
    → i + length states ≤ 4 * length r
    → ((j : ℕ) → i ≤ j → place r j ≡ 0)
    → get_elem? states k ≡ some s
    → place (put_states i states r) (i + k) ≡ page_code s
unfolding put_states
put_states-read [] i k s r h room clean e = cc
put_states-read (t ∷ states) i zero s r h room clean e =
    let at : i + 0 ≡ i = omega arith in
    let same : t ≡ s = cc e in
    let set_here : place (put_state i t r) i ≡ bit_or (place r i) (page_code t) =
      place-put_state i i t r h (omega arith) ∙ rw (==_refl i) refl in
    ap (λ (n : ℕ). place (put_states (i + 1) states (put_state i t r)) n) at
    ∙ put_states-kept states (i + 1) i (put_state i t r) (put_state-IsByte i t r h)
        (omega (arith, length-put_state i t r)) (omega arith)
    ∙ set_here
    ∙ ap (λ (n : ℕ). bit_or n (page_code t)) (clean i (omega arith))
    ∙ zero-bit_or t
    ∙ ap page_code same
put_states-read (t ∷ states) i (suc k) s r h room clean e =
    let at : i + suc k ≡ (i + 1) + k = omega arith in
    let still : (j : ℕ) → i + 1 ≤ j → place (put_state i t r) j ≡ 0 = λ j le.
      let test : (j == i) ≡ false = ground arith in
      place-put_state i j t r h (omega arith) ∙ rw test (clean j (omega arith)) in
    ap (λ (n : ℕ). place (put_states (i + 1) states (put_state i t r)) n) at
    ∙ put_states-read states (i + 1) k s (put_state i t r) (put_state-IsByte i t r h)
        (omega (arith, length-put_state i t r)) still e

length-put_states :
    (states : List PageState) (i : ℕ) (r : Bytes) → length (put_states i states r) ≡ length r
unfolding put_states
length-put_states [] i r = refl
length-put_states (s ∷ states) i r =
    length-put_states states (i + 1) (put_state i s r) ∙ length-put_state i s r

get_elem?-get_or : (xs : Bytes) (a : ℕ) → a < length xs → get_elem? xs a ≡ some (get_or xs a 0)
get_elem?-get_or [] a h = absurd (omega arith)
get_elem?-get_or (x ∷ xs) zero h = refl
get_elem?-get_or (x ∷ xs) (suc a) h = get_elem?-get_or xs a (omega arith)

get_or-zeros : (n a : ℕ) → get_or (zeros n) a 0 ≡ 0
unfolding zeros
get_or-zeros zero a = refl
get_or-zeros (suc n) zero = refl
get_or-zeros (suc n) (suc a) = get_or-zeros n a

zeros-IsByte : (n : ℕ) → All IsByte (zeros n)
unfolding zeros
zeros-IsByte zero = tt
zeros-IsByte (suc n) = (omega arith, zeros-IsByte n)

no_bits : every (λ k. bits_at 0 k == 0) 4 ≡ true
unfolding every
no_bits = refl

place-zeros : (n j : ℕ) → place (zeros n) j ≡ 0
place-zeros n j =
    ap (λ (b : ℕ). bits_at b (j % 4)) (get_or-zeros n (j / 4))
    ∙ (==_iff _ 0).0 (every-true (λ k. bits_at 0 k == 0) 4 no_bits (j % 4) (omega arith))

length-get_elem? :
    (states : List PageState) (k : ℕ) (s : PageState)
    → get_elem? states k ≡ some s
    → k < length states
length-get_elem? [] k s e = cc
length-get_elem? (t ∷ states) zero s e = omega arith
length-get_elem? (t ∷ states) (suc k) s e = omega (arith, length-get_elem? states k s e)

page_state-place : (psm : Bytes) (i : ℕ) → i / 4 < length psm → page_state psm i ≡ ok (place psm i)
unfolding page_state
page_state-place psm i h = rw (get_elem?-get_or psm (i / 4) h, page_state) refl

-- For each page that a page state map was made for, the state that the loader reads from the map is
-- the one that the map was made with.
pub page_state-encode_page_state_map :
    (states : List PageState) (k : ℕ) (s : PageState)
    → get_elem? states k ≡ some s
    → page_state (encode_page_state_map states) k ≡ ok (page_code s)
unfolding encode_page_state_map
page_state-encode_page_state_map [] k s e = cc
page_state-encode_page_state_map (t ∷ states) k s e =
    let all : List PageState = t ∷ states in
    let n : ℕ = (length all + 3) / 4 in
    let size : length (put_states 0 all (zeros n)) ≡ n =
      length-put_states all 0 (zeros n) ∙ length-zeros n in
    let inside : k < length all = length-get_elem? all k s e in
    let read : place (put_states 0 all (zeros n)) (0 + k) ≡ page_code s =
      put_states-read all 0 k s (zeros n) (zeros-IsByte n) (omega (arith, length-zeros n))
        (λ j le. place-zeros n j) e in
    let at : 0 + k ≡ k = omega arith in
    page_state-place (put_states 0 all (zeros n)) k (omega arith)
    ∙ ap ok (ap (place (put_states 0 all (zeros n))) (sym at) ∙ read)

pub length-encode_page_state_map :
    (states : List PageState) → length (encode_page_state_map states) ≡ (length states + 3) / 4
unfolding encode_page_state_map
length-encode_page_state_map [] = omega arith
length-encode_page_state_map (t ∷ states) =
    length-put_states (t ∷ states) 0 (zeros ((length (t ∷ states) + 3) / 4))
    ∙ length-zeros ((length (t ∷ states) + 3) / 4)

get_elem?-append : (a b : Bytes) (i x : ℕ) → get_elem? a i ≡ some x → get_elem? (a ++ b) i ≡ some x
get_elem?-append [] b i x e = cc
get_elem?-append (y ∷ a) b zero x e = e
get_elem?-append (y ∷ a) b (suc i) x e = get_elem?-append a b i x e

not-ok : {v : ℕ} {x : Exn} → ok v ≡ err x → ⊥
not-ok p = cc p

-- What stands behind the map is not read.
pub page_state-append :
    (psm b : Bytes) (k v : ℕ) → page_state psm k ≡ ok v → page_state (psm ++ b) k ≡ ok v
unfolding page_state
page_state-append psm b k v e = elim (Option-cases (get_elem? psm (k / 4))) [
  | inl n ↦ absurd (not-ok {x = index_error} (sym e ∙ rw (n, page_state)))
  | inr (x, n) ↦
      rw (get_elem?-append psm b (k / 4) x n, page_state) (sym (rw (n, page_state) refl) ∙ e)
]
