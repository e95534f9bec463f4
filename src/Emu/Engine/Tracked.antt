-- ===== src/Emu/Engine/Tracked.antt =====
-- What every call on an emulator keeps: the bound of the journal, and the record of the addresses
-- that were executed after they had been written.
pub mod Kept
use memslicer.Prelude.{
  ℕ, zero, suc, ◌+◌, ◌-◌, ◌^◌, ◌<◌, ◌≤◌, ◌≡◌, inl, inr, refl, sym, ap, ◌∙◌, Bool, true, false, not,
  ◌&&◌, ◌||◌, Option, none, some, List, [], ◌∷◌, ◌++◌, length, length-append, length-drop,
  append-nil, append_assoc, any_of, All, drop, ◌==◌, ltb, if◌then◌else◌, Result, ok, err, ◌>>=◌,
  >>=-eq-ok, Bool-cases, Option-cases, arith,
}
use memslicer.Bytes.{Bytes}
use memslicer.Emu.Loader.{SliceImage, Selector}
use memslicer.Emu.Engine.Tracked.Kept.{Journal, journal}
use memslicer.Emu.Spans.{Span, covered, in_span}
use memslicer.Emu.Spans.Free.{or_false}
use memslicer.Utils.{Text}
use memslicer.Emu.Engine.Setup.{new_emulator, switch_thread}
use memslicer.Emu.Engine.Frames.{CallerFrame, resume_from_syscall}
use memslicer.Emu.Unicorn.{Unicorn, Run, ended, raised, writing}
use memslicer.Emu.Engine.{
  StepResult, WriteLog, Emulator, max_back, pop_last, on_mem_write, run_hooked, note_executed,
  trimmed, step_at, step, step_back, write_reg, set_pc,
}

-- No address is there twice.
abbrev pub IsDistinct : List ℕ → Type 0
IsDistinct [] = Unit {0}
IsDistinct (a ∷ as') = (any_of (λ b. b == a) as' ≡ false) × IsDistinct as'

-- The spans cover the address.
abbrev IsWritten : List Span → ℕ → Type 0
IsWritten written a = covered written a ≡ true

-- What the journal and the records of an emulator meet.
abbrev pub Tracks : {Context : Type 0} → Journal Context → Type 0
Tracks (history, pending, written, wx_events, wx_seen) =
    (length history ≤ max_back)
    × (pending ≡ none)
    × (wx_seen ≡ wx_events)
    × IsDistinct wx_events
    × All (IsWritten written) wx_events

abbrev pub IsTracked : {Uc Context : Type 0} → Emulator Uc Context → Type 0
IsTracked e = Tracks (journal e)

-- More spans cover what fewer do.
covered-append :
    (spans more : List Span) (a : ℕ) → covered spans a ≡ true → covered (spans ++ more) a ≡ true
unfolding covered
covered-append [] more a h = cc
covered-append (s ∷ spans) more a h = elim (Bool-cases (in_span a s)) [
  | inl q ↦ rw q refl
  | inr q ↦ rw q (covered-append spans more a (rw q at h))
]

All-covered-append :
    (spans more : List Span) (as' : List ℕ)
    → All (IsWritten spans) as'
    → All (IsWritten (spans ++ more)) as'
All-covered-append spans more [] h = tt
All-covered-append spans more (a ∷ as') (first, h) =
    (covered-append spans more a first, All-covered-append spans more as' h)

All-append_one {ℓ κ} :
    {A : Type ℓ} (P : A → Type κ) (xs : List A) (x : A) → All P xs → P x → All P (xs ++ x ∷ [])
All-append_one P [] x h last = (last, tt)
All-append_one P (y ∷ ys) x (first, h) last = (first, All-append_one P ys x h last)

any_of-append_one :
    (test : ℕ → Bool) (xs : List ℕ) (a : ℕ)
    → any_of test xs ≡ false
    → test a ≡ false
    → any_of test (xs ++ a ∷ []) ≡ false
any_of-append_one test [] a h last = rw last refl
any_of-append_one test (x ∷ xs) a h last =
    let (here, later) = or_false (test x) (any_of test xs) h in
    rw here (any_of-append_one test xs a later last)

IsDistinct-append_one :
    (as' : List ℕ) (a : ℕ)
    → IsDistinct as'
    → any_of (λ b. b == a) as' ≡ false
    → IsDistinct (as' ++ a ∷ [])
IsDistinct-append_one [] a h fresh = (refl, tt)
IsDistinct-append_one (b ∷ bs) a (first, h) fresh =
    let (here, later) = or_false (b == a) (any_of (λ c. c == a) bs) fresh in
    let other : (a == b) ≡ false = ground arith in
    (any_of-append_one (λ c. c == b) bs a first other, IsDistinct-append_one bs a h later)

module _ {Uc Context : Type 0} (unicorn : Unicorn Uc Context) where
  note_executed-IsTracked :
      (e : Emulator Uc Context) (addr : ℕ) → IsTracked e → IsTracked (note_executed unicorn e addr)
  unfolding note_executed
  note_executed-IsTracked e addr (short, idle, same, distinct, all) =
      elim (Bool-cases (any_of (λ seen. seen == addr) e.wx_seen)) [
        | inl seen ↦ rw seen (short, idle, same, distinct, all)
        | inr fresh ↦ elim (Bool-cases (covered e.written addr)) [
          | inl q ↦
              rw (fresh, q)
                (
                  short,
                  idle,
                  ap (λ (l : List ℕ). l ++ addr ∷ []) same,
                  IsDistinct-append_one e.wx_events addr distinct (rw same at fresh),
                  All-append_one (IsWritten e.written) e.wx_events addr all q,
                )
          | inr q ↦ rw (fresh, q) (short, idle, same, distinct, all)
        ]
      ]

  -- A run only adds to what is written, and keeps the rest.
  abbrev Extends : Emulator Uc Context → Emulator Uc Context → Type 0
  Extends e e' =
      (more : List Span) × (e'.written ≡ e.written ++ more)
      × (e'.history ≡ e.history)
      × (e'.wx_seen ≡ e.wx_seen)
      × (e'.wx_events ≡ e.wx_events)

  run_hooked-Extends :
      (e : Emulator Uc Context) (run : Run Uc) → Extends e (run_hooked unicorn e run).0
  unfolding run_hooked on_mem_write
  run_hooked-Extends e (ended uc) = ([], sym (append-nil e.written), refl, refl, refl)
  run_hooked-Extends e (raised uc message) = ([], sym (append-nil e.written), refl, refl, refl)
  run_hooked-Extends e (writing uc addr size run) =
      let (more, written, history, seen, events) =
        run_hooked-Extends (on_mem_write unicorn (record e { uc = uc }) addr size) run in
      (
        (addr, addr + size) ∷ more,
        written ∙ append_assoc e.written ((addr, addr + size) ∷ []) more,
        history,
        seen,
        events,
      )

  trimmed-short :
      (history : List (Context × WriteLog)) (last : Context × WriteLog)
      → length history ≤ max_back
      → length (trimmed unicorn (history ++ last ∷ [])) ≤ max_back
  unfolding trimmed
  trimmed-short history last h =
      let long : length (history ++ last ∷ []) ≡ length history + 1 =
        length-append history (last ∷ []) in
      elim (Bool-cases (ltb max_back (length (history ++ last ∷ [])))) [
        | inl q ↦ rw q (omega (arith, length-drop 1 (history ++ last ∷ []), long))
        | inr q ↦ rw q (ground arith)
      ]

  pub step_at-IsTracked :
      (e : Emulator Uc Context) (addr : ℕ) → IsTracked e → IsTracked (step_at unicorn e addr).1
  unfolding step_at
  step_at-IsTracked e addr h =
      let noted : Emulator Uc Context = note_executed unicorn e addr in
      let (short, idle, same, distinct, all) = note_executed-IsTracked e addr h in
      let (more, written, history, seen, events) =
        run_hooked-Extends (record noted { pending = some [] })
          (unicorn.emu_start noted.uc addr (2 ^ e.bits - 1) 1) in
      rw (history, seen, events, written)
        (
          trimmed-short noted.history _ short,
          refl,
          same,
          distinct,
          All-covered-append noted.written more noted.wx_events all,
        )

-- What is left of a list whose last item is taken is no longer.
abbrev pub IsShorter {ℓ} : {A : Type ℓ} → List A → Option (List A × A) → Type 0
IsShorter xs none = Unit {0}
IsShorter xs (some (rest, x)) = length rest ≤ length xs

pub pop_last-IsShorter {ℓ} : {A : Type ℓ} (xs : List A) → IsShorter xs (pop_last xs)
unfolding pop_last
pop_last-IsShorter [] = tt
pop_last-IsShorter (x ∷ xs) =
    let rest = pop_last-IsShorter xs in
    elim (Option-cases (pop_last xs)) [
      | inl q ↦ rw q (omega arith)
      | inr ((ys, y), q) ↦ rw q (omega (arith, (rw q at rest)))
    ]
