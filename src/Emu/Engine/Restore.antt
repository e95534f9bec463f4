-- ===== src/Emu/Engine/Restore.antt =====
-- That writing the bytes of a stretch of memory back leaves the memory as it was.
use memslicer.Prelude.{
  ℕ, zero, suc, ◌+◌, ◌<◌, ◌≤◌, ◌≡◌, ◌⊎◌, inl, inr, refl, sym, ap, ◌∙◌, Option, none, some, [], ◌∷◌,
  length, ◌==◌, ltb, Bool-cases, arith,
}
use memslicer.Bytes.{Bytes}
use memslicer.Emu.Unicorn.{Memory, cons_read, read_bytes, put_bytes, SameMemory, Writes}

cons_read-eq-some :
    (first : Option ℕ) (rest : Option Bytes) (bytes : Bytes)
    → cons_read first rest ≡ some bytes
    → (b : ℕ) × (bs : Bytes) × (first ≡ some b) × (rest ≡ some bs) × (b ∷ bs ≡ bytes)
cons_read-eq-some none rest bytes h = cc
cons_read-eq-some (some b) none bytes h = cc
cons_read-eq-some (some b) (some bs) bytes h = (b, bs, refl, refl, cc)

pub read_bytes-length :
    (m : Memory) (addr n : ℕ) (bytes : Bytes) → read_bytes m addr n ≡ some bytes → length bytes ≡ n
unfolding read_bytes
read_bytes-length m addr zero [] h = refl
read_bytes-length m addr zero (b ∷ bs) h = cc
read_bytes-length m addr (suc n) bytes h =
    let (b, bs, first, rest, made) =
      cons_read-eq-some (m addr) (read_bytes m (addr + 1) n) bytes h in
    sym (ap length made) ∙ ap suc (read_bytes-length m (addr + 1) n bs rest)

-- A memory in which every byte of another is mapped can be read where that one can.
pub read_bytes-mapped :
    (m m' : Memory) (addr n : ℕ) (bytes : Bytes)
    → ((x b : ℕ) → m x ≡ some b → (c : ℕ) × (m' x ≡ some c))
    → read_bytes m addr n ≡ some bytes
    → (bytes' : Bytes) × (read_bytes m' addr n ≡ some bytes')
unfolding read_bytes
read_bytes-mapped m m' addr zero bytes mapped h = ([], refl)
read_bytes-mapped m m' addr (suc n) bytes mapped h =
    let (b, bs, first, rest, made) =
      cons_read-eq-some (m addr) (read_bytes m (addr + 1) n) bytes h in
    let (c, here) = mapped addr b first in
    let (cs, later) = read_bytes-mapped m m' (addr + 1) n bs mapped rest in
    rw (here, later) (c ∷ cs, refl)

pub Writes-mapped :
    (m m' : Memory) (addr size : ℕ)
    → Writes m addr size m'
    → (x b : ℕ) → m x ≡ some b
    → (c : ℕ) × (m' x ≡ some c)
Writes-mapped m m' addr size h x b e = elim (h x) [
  | inl same ↦ (b, same ∙ e)
  | inr (low, high, old, (c, new)) ↦ (c, new)
]

-- Putting back what was read gives the byte that was there, where the rest is as it was.
put_bytes-read_bytes :
    (m m' : Memory) (addr : ℕ) (old : Bytes) (x : ℕ)
    → read_bytes m addr (length old) ≡ some old
    → ((x < addr) ⊎ (addr + length old ≤ x) → m' x ≡ m x)
    → put_bytes m' addr old x ≡ m x
unfolding read_bytes put_bytes
put_bytes-read_bytes m m' addr [] x h out =
    out (elim (Bool-cases (ltb x addr)) [ inl e ↦ inl (ground arith) | inr e ↦ inr (ground arith) ])
put_bytes-read_bytes m m' addr (b ∷ bs) x h out =
    let (b', bs', first, rest, made) =
      cons_read-eq-some (m addr) (read_bytes m (addr + 1) (length bs)) (b ∷ bs) h in
    let first' : m addr ≡ some b = cc in
    let rest' : read_bytes m (addr + 1) (length bs) ≡ some bs = cc in
    elim (Bool-cases (x == addr)) [
      | inl e ↦ rw e (let at : x ≡ addr = ground arith in sym first' ∙ ap m (sym at))
      | inr e ↦ rw e (
          put_bytes-read_bytes m m' (addr + 1) bs x rest' λ beyond.
            out (elim beyond [ inl low ↦ inl (ground arith) | inr high ↦ inr (omega arith) ]))
    ]

pub put_bytes-SameMemory :
    (m m' : Memory) (addr : ℕ) (bytes : Bytes)
    → SameMemory m m'
    → SameMemory (put_bytes m addr bytes) (put_bytes m' addr bytes)
unfolding put_bytes
put_bytes-SameMemory m m' addr [] same = same
put_bytes-SameMemory m m' addr (b ∷ bs) same = λ x. elim (Bool-cases (x == addr)) [
  | inl e ↦ rw e refl
  | inr e ↦ rw e (put_bytes-SameMemory m m' (addr + 1) bs same x)
]

-- A write is undone by putting back the bytes of its range.
pub Writes-put_bytes :
    (m m' : Memory) (addr : ℕ) (old : Bytes)
    → Writes m addr (length old) m'
    → read_bytes m addr (length old) ≡ some old
    → SameMemory m (put_bytes m' addr old)
Writes-put_bytes m m' addr old h read = λ x. put_bytes-read_bytes m m' addr old x read λ out.
    elim (h x) [
      | inl same ↦ same
      | inr (low, high, old_read, new) ↦
          absurd (elim out [ inl l ↦ omega arith | inr r ↦ omega arith ])
    ]

-- Nothing is written where the range cannot be read.
pub Writes-none :
    (m m' : Memory) (addr size : ℕ)
    → Writes m addr size m'
    → read_bytes m addr size ≡ none
    → SameMemory m m'
Writes-none m m' addr size h unread =
    λ x. elim (h x) [ inl same ↦ same | inr (low, high, (old, read), new) ↦ cc ]

pub read_bytes-SameMemory :
    (m m' : Memory) (addr n : ℕ) → SameMemory m m' → read_bytes m' addr n ≡ read_bytes m addr n
unfolding read_bytes
read_bytes-SameMemory m m' addr zero same = refl
read_bytes-SameMemory m m' addr (suc n) same =
    rw (same addr, read_bytes-SameMemory m m' (addr + 1) n same) refl
