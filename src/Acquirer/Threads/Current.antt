-- ===== src/Acquirer/Threads/Current.antt =====
-- The current thread among the blocks that are written.
use memslicer.Prelude.{
  ℕ, ◌+◌, ◌≤◌, ◌≡◌, ◌⊎◌, inl, inr, refl, ap, ◌∙◌, Bool, true, false, not, ◌||◌, List, [], ◌∷◌, map,
  any_of, bit_and, bit_or, ◌==◌, if◌then◌else◌, Bool-cases, arith,
}
use memslicer.Msl.Constants.{thread_flag_current}
use memslicer.Msl.Types.{ThreadContext}
use memslicer.Acquirer.Bridge.{ThreadInfo}
use memslicer.Acquirer.Threads.{
  thread_context_of, thread_flags, has_registers, is_marked, with_registers, mark_first,
  build_thread_contexts,
}

-- How many blocks are marked as the current thread.
abbrev pub count_marked : List ThreadContext → ℕ
count_marked [] = 0
count_marked (c ∷ cs) = (if is_marked c then 1 else 0) + count_marked cs

-- How many threads the debugger reports as current.
abbrev pub count_current : List ThreadInfo → ℕ
count_current [] = 0
count_current (t ∷ ts) = (if t.is_current then 1 else 0) + count_current ts

-- The flags of a thread, by the three booleans they are made of.
abbrev three_flags : Bool → Bool → Bool → ℕ
three_flags current suspended partial =
    let flags = if current then 1 else 0 in
    let stopped = if suspended then bit_or flags 4 else flags in
    if partial then bit_or stopped 8 else stopped

three_flags-current : (a b c : Bool) → not (bit_and (three_flags a b c) 1 == 0) ≡ a
three_flags-current true true true = refl
three_flags-current true true false = refl
three_flags-current true false true = refl
three_flags-current true false false = refl
three_flags-current false true true = refl
three_flags-current false true false = refl
three_flags-current false false true = refl
three_flags-current false false false = refl

three_flags-marked : (a b c : Bool) → not (bit_and (bit_or (three_flags a b c) 1) 1 == 0) ≡ true
three_flags-marked true true true = refl
three_flags-marked true true false = refl
three_flags-marked true false true = refl
three_flags-marked true false false = refl
three_flags-marked false true true = refl
three_flags-marked false true false = refl
three_flags-marked false false true = refl
three_flags-marked false false false = refl

is_marked-thread_context_of : (t : ThreadInfo) → is_marked (thread_context_of t) ≡ t.is_current
unfolding is_marked thread_context_of thread_flags
is_marked-thread_context_of t = three_flags-current t.is_current t.suspended t.partial

abbrev marked_context : ThreadInfo → ThreadContext
marked_context t = record (thread_context_of t) {
  flags = bit_or (thread_context_of t).flags thread_flag_current;
}

is_marked-marked_context : (t : ThreadInfo) → is_marked (marked_context t) ≡ true
unfolding is_marked thread_context_of thread_flags
is_marked-marked_context t = three_flags-marked t.is_current t.suspended t.partial

count_marked-none : (cs : List ThreadContext) → any_of is_marked cs ≡ false → count_marked cs ≡ 0
count_marked-none [] h = refl
count_marked-none (c ∷ cs) h = elim (Bool-cases (is_marked c)) [
  | inl e ↦ cc (rw e at h)
  | inr e ↦ rw e (omega (arith, count_marked-none cs (rw e at h)))
]

count_marked-some : (cs : List ThreadContext) → any_of is_marked cs ≡ true → 1 ≤ count_marked cs
count_marked-some [] h = cc h
count_marked-some (c ∷ cs) h = elim (Bool-cases (is_marked c)) [
  | inl e ↦ rw e (omega arith)
  | inr e ↦ rw e (omega (arith, count_marked-some cs (rw e at h)))
]

-- The blocks that are written have no more marks than there are current threads.
count_marked-le :
    (ts : List ThreadInfo)
    → count_marked (with_registers (map thread_context_of ts)) ≤ count_current ts
unfolding with_registers
count_marked-le [] = omega arith
count_marked-le (t ∷ ts) =
    let ih = count_marked-le ts in
    elim (Bool-cases (has_registers (thread_context_of t))) [
      | inl e ↦ rw (e, is_marked-thread_context_of t) (omega (arith, ih))
      | inr e ↦ rw e (omega (arith, ih))
    ]

has_registers-marked_context :
    (t : ThreadInfo) → has_registers (marked_context t) ≡ has_registers (thread_context_of t)
unfolding has_registers
has_registers-marked_context t = refl

or-right : (a b : Bool) → (a || b) ≡ false → b ≡ false
or-right true b h = cc h
or-right false b h = h

-- Marking the first block with registers, where none is marked.
count_marked-mark_first :
    (ts : List ThreadInfo)
    → any_of is_marked (with_registers (map thread_context_of ts)) ≡ false
    → (with_registers (mark_first (map thread_context_of ts)) ≡ [])
      ⊎ (count_marked (with_registers (mark_first (map thread_context_of ts))) ≡ 1)
unfolding with_registers mark_first
count_marked-mark_first [] h = inl refl
count_marked-mark_first (t ∷ ts) h =
    let c : ThreadContext = thread_context_of t in
    elim (Bool-cases (has_registers c)) [
      | inl e ↦
          let rest : List ThreadContext = with_registers (map thread_context_of ts) in
          let unmarked : any_of is_marked rest ≡ false =
            or-right (is_marked c) (any_of is_marked rest) (rw e at h) in
          let written : with_registers (marked_context t ∷ map thread_context_of ts)
              ≡ marked_context t ∷ rest =
            rw (with_registers, has_registers-marked_context t, e) refl in
          let one : count_marked (marked_context t ∷ rest) ≡ 1 =
            rw (is_marked-marked_context t) (omega (arith, count_marked-none rest unmarked)) in
          rw e (inr (ap count_marked written ∙ one))
      | inr e ↦ rw (e, with_registers, e) (count_marked-mark_first ts (rw e at h))
    ]

-- Of the thread blocks that are written, those with registers, exactly one is marked as the current
-- thread, where the debugger reports at most one current thread and any block is written.
pub build_thread_contexts-count_marked :
    (ts : List ThreadInfo)
    → count_current ts ≤ 1
    → (with_registers (build_thread_contexts ts) ≡ [])
      ⊎ (count_marked (with_registers (build_thread_contexts ts)) ≡ 1)
unfolding build_thread_contexts
build_thread_contexts-count_marked ts one =
    elim (Bool-cases (any_of is_marked (with_registers (map thread_context_of ts)))) [
      | inl e ↦ rw e (
          inr (
            omega (
              arith,
              count_marked-le ts,
              count_marked-some (with_registers (map thread_context_of ts)) e,
            )))
      | inr e ↦ rw e (count_marked-mark_first ts e)
    ]
