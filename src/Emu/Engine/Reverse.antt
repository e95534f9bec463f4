-- ===== src/Emu/Engine/Reverse.antt =====
-- That a step can be undone: its journal holds the bytes that each of its writes replaced.
use memslicer.Prelude.{
  ℕ, suc, ◌+◌, ◌-◌, ◌^◌, ◌≤◌, ◌≡◌, inl, inr, refl, sym, ap, ◌∙◌, true, not, ◌&&◌, some, List, [],
  ◌∷◌, ◌++◌, length, length-append, any_of, drop, ◌==◌, ltb, append-nil, append_assoc, ok,
  Bool-cases, Option-cases, arith,
}
use mathlib.Core.Path.{subst}
use memslicer.Bytes.{Bytes}
use memslicer.Emu.Spans.{covered}
use memslicer.Emu.Unicorn.{
  Unicorn, Run, ended, raised, writing, Memory, memory_of, read_bytes, SameMemory, Writes,
  Announced, Documented,
}
use memslicer.Emu.Engine.{
  StepResult, WriteLog, Emulator, max_back, pop_last, reg_const, pc, on_mem_write, run_hooked,
  note_executed, trimmed, step_at, step, revert_writes, step_back,
}
use memslicer.Emu.Engine.Restore.{
  read_bytes-length, read_bytes-mapped, Writes-mapped, put_bytes-SameMemory, Writes-put_bytes,
  Writes-none, read_bytes-SameMemory,
}

module _ {Uc Context : Type 0} (unicorn : Unicorn Uc Context) (laws : Documented unicorn) where
  -- The writes are reverted from an engine with this memory to one with that memory.
  abbrev Reverts : WriteLog → Memory → Memory → Type 0
  Reverts log from to =
      (uc : Uc)
      → SameMemory from (memory_of unicorn uc)
      → (uc' : Uc) × (revert_writes unicorn uc log ≡ ok uc')
        × SameMemory to (memory_of unicorn uc')
        × ((r : ℕ) → unicorn.reg_read uc' r ≡ unicorn.reg_read uc r)

  -- Undoing the writes behind the first, and then the first.
  Reverts-cons :
      (m m' from : Memory) (addr : ℕ) (old : Bytes) (log : WriteLog)
      → Writes m addr (length old) m'
      → read_bytes m addr (length old) ≡ some old
      → Reverts log from m'
      → Reverts ((addr, old) ∷ log) from m
  unfolding revert_writes
  Reverts-cons m m' from addr old log h read later = λ uc same.
      let (uc1, undone, back, regs) = later uc same in
      let (now, readable) =
        read_bytes-mapped m m' addr (length old) old (Writes-mapped m m' addr (length old) h)
          read in
      let mapped : read_bytes (memory_of unicorn uc1) addr (length old) ≡ some now =
        read_bytes-SameMemory m' (memory_of unicorn uc1) addr (length old) back ∙ readable in
      let (uc2, put, stored, kept) = laws.writes uc1 addr old now mapped in
      rw (undone, put)
        (
          uc2,
          refl,
          λ x.
              stored x
              ∙ put_bytes-SameMemory m' (memory_of unicorn uc1) addr old back x
              ∙ Writes-put_bytes m m' addr old h read x,
          λ r. kept r ∙ regs r,
        )

  -- What a run leaves of the emulator, with the journal of its writes.
  abbrev Journaled : Emulator Uc Context → WriteLog → Memory → Emulator Uc Context → Type 0
  Journaled e log m e' =
      (added : WriteLog) × (e'.pending ≡ some (log ++ added))
      × (e'.history ≡ e.history)
      × Reverts added (memory_of unicorn e'.uc) m

  Reverts-to :
      (log : WriteLog) (from to to' : Memory)
      → SameMemory to' to
      → Reverts log from to
      → Reverts log from to'
  Reverts-to log from to to' same h =
      λ uc s. let (uc', undone, back, regs) = h uc s in (uc', undone, λ x. back x ∙ same x, regs)

  Journaled-run_hooked :
      (e : Emulator Uc Context) (log : WriteLog) (m : Memory) (run : Run Uc)
      → e.pending ≡ some log
      → Announced unicorn m run
      → Journaled e log m (run_hooked unicorn e run).0
  unfolding run_hooked on_mem_write revert_writes
  Journaled-run_hooked e log m (ended uc) h same =
      ([], h ∙ ap some (sym (append-nil log)), refl, λ u s. (u, refl, λ x. s x ∙ same x, λ r. refl))
  Journaled-run_hooked e log m (raised uc message) h same =
      ([], h ∙ ap some (sym (append-nil log)), refl, λ u s. (u, refl, λ x. s x ∙ same x, λ r. refl))
  Journaled-run_hooked e log m (writing uc addr size run) h (same, (m', wrote, rest)) =
      let e' : Emulator Uc Context = on_mem_write unicorn (record e { uc = uc }) addr size in
      let seen : unicorn.mem_read uc addr size ≡ read_bytes m addr size =
        laws.reads uc addr size ∙ read_bytes-SameMemory m (memory_of unicorn uc) addr size same in
      elim (Option-cases (unicorn.mem_read uc addr size)) [
        | inl unread ↦
            let before : e'.pending ≡ some log = rw (h, unread) refl in
            let (added, pending, history, back) = Journaled-run_hooked e' log m' run before rest in
            let still : SameMemory m m' = Writes-none m m' addr size wrote (sym seen ∙ unread) in
            (added, pending, history, Reverts-to added _ m' m still back)
        | inr (old, read) ↦
            let before : e'.pending ≡ some (log ++ (addr, old) ∷ []) = rw (h, read) refl in
            let (added, pending, history, back) =
              Journaled-run_hooked e' (log ++ (addr, old) ∷ []) m' run before rest in
            let was : read_bytes m addr size ≡ some old = sym seen ∙ read in
            let long : length old ≡ size = read_bytes-length m addr size old was in
            (
              (addr, old) ∷ added,
              pending ∙ ap some (append_assoc log ((addr, old) ∷ []) added),
              history,
              Reverts-cons m m' _ addr old added (subst (λ n. Writes m addr n m') (sym long) wrote)
                  (subst (λ n. read_bytes m addr n ≡ some old) (sym long) was) back,
            )
      ]

pop_last-append {ℓ} : {A : Type ℓ} (xs : List A) (x : A) → pop_last (xs ++ x ∷ []) ≡ some (xs, x)
unfolding pop_last
pop_last-append [] x = refl
pop_last-append (y ∷ ys) x = rw (pop_last-append ys x) refl

-- What is left of the journal behind a step that is undone: the oldest step is forgotten where the
-- journal was full.
abbrev pub remembered {ℓ} : {A : Type ℓ} → List A → List A
remembered history = drop (suc (length history) - max_back) history

module _ {Uc Context : Type 0} (unicorn : Unicorn Uc Context) where
  pop_last-trimmed :
      (history : List (Context × WriteLog)) (last : Context × WriteLog)
      → length history ≤ max_back
      → pop_last (trimmed unicorn (history ++ last ∷ [])) ≡ some (remembered history, last)
  unfolding trimmed
  pop_last-trimmed [] last h = pop_last-append [] last
  pop_last-trimmed (x ∷ xs) last h =
      let long : length ((x ∷ xs) ++ last ∷ []) ≡ suc (length (x ∷ xs)) =
        length-append (x ∷ xs) (last ∷ [])
        ∙ (let q : suc (length xs) + 1 ≡ suc (suc (length xs)) = omega arith in q) in
      elim (Bool-cases (ltb max_back (suc (length (x ∷ xs))))) [
        | inl e ↦
            let one : suc (length (x ∷ xs)) - max_back ≡ 1 = ground arith in
            rw (long, e, one) (pop_last-append xs last)
        | inr e ↦
            let none_over : suc (length (x ∷ xs)) - max_back ≡ 0 = ground arith in
            rw (long, e, none_over) (pop_last-append (x ∷ xs) last)
      ]

  note_executed-uc :
      (e : Emulator Uc Context) (addr : ℕ)
      → ((note_executed unicorn e addr).uc ≡ e.uc)
        × ((note_executed unicorn e addr).history ≡ e.history)
  unfolding note_executed
  note_executed-uc e addr =
      elim (Bool-cases (not (any_of (λ seen. seen == addr) e.wx_seen) && covered e.written addr)) [
        | inl q ↦ rw q (refl, refl)
        | inr q ↦ rw q (refl, refl)
      ]

  step_back-undoes :
      (e : Emulator Uc Context) (history : List (Context × WriteLog)) (context : Context)
      (log : WriteLog) (uc : Uc)
      → length history ≤ max_back
      → e.history ≡ trimmed unicorn (history ++ (context, log) ∷ [])
      → revert_writes unicorn (unicorn.context_restore e.uc context) log ≡ ok uc
      → step_back unicorn e ≡ ok (true, record e { history = remembered history; uc = uc })
  unfolding step_back
  step_back-undoes e history context log uc short journal reverted =
      rw (journal, pop_last-trimmed history (context, log) short, reverted) refl

  -- A step is followed by a step back that succeeds, and behind it every register and every byte
  -- of memory is what it was before the step.
  abbrev pub IsUndone : Emulator Uc Context → Type 0
  IsUndone e =
      (res : StepResult) × (e' : Emulator Uc Context) × (e'' : Emulator Uc Context) × (step unicorn
          e
        ≡ ok (res, e'))
      × (step_back unicorn e' ≡ ok (true, e''))
      × SameMemory (memory_of unicorn e.uc) (memory_of unicorn e''.uc)
      × ((r : ℕ) → unicorn.reg_read e''.uc r ≡ unicorn.reg_read e.uc r)
      × (e''.history ≡ remembered e.history)

  -- Where the journal is no longer than its bound, the PC's register is known and unicorn does what
  -- it documents, a step succeeds and a step back behind it succeeds, and then every register and
  -- every byte of memory is what it was before the step, whatever the step wrote and whether or not
  -- it raised. The journal is as before, without its oldest step where it was full.
  pub step_back-step :
      Documented unicorn
      → (e : Emulator Uc Context) (c : ℕ) → reg_const unicorn e e.pc_name ≡ some c
      → length e.history ≤ max_back
      → IsUndone e
  unfolding step pc step_at step_back
  step_back-step laws e c known short =
      let addr : ℕ = unicorn.reg_read e.uc c in
      let noted : Emulator Uc Context = note_executed unicorn e addr in
      let (same_uc, same_history) = note_executed-uc e addr in
      let run : Run Uc = unicorn.emu_start noted.uc addr (2 ^ e.bits - 1) 1 in
      let begun : Emulator Uc Context = record noted { pending = some [] } in
      let after : Emulator Uc Context = (run_hooked unicorn begun run).0 in
      let context : Context = unicorn.context_save noted.uc in
      let (added, pending, history, back) =
        Journaled-run_hooked unicorn laws begun [] (memory_of unicorn noted.uc) run refl
          (laws.announces noted.uc addr (2 ^ e.bits - 1) 1) in
      let (uc, reverted, memory, registers) =
        back (unicorn.context_restore after.uc context)
          (laws.restores_no_memory after.uc context) in
      let (res, e') = step_at unicorn e addr in
      let started : step unicorn e ≡ ok (res, e') = rw known refl in
      let journal : e'.history ≡ trimmed unicorn (e.history ++ (context, added) ∷ []) =
        rw (pending, history, same_history) refl in
      let undone = step_back-undoes e' e.history context added uc short journal reverted in
      (
        res,
        e',
        record e' { history = remembered e.history; uc = uc },
        started,
        undone,
        λ x. memory x ∙ ap (λ (u : Uc). memory_of unicorn u x) same_uc,
        λ r.
            registers r
            ∙ laws.restores_registers noted.uc after.uc r
            ∙ ap (λ (u : Uc). unicorn.reg_read u r) same_uc,
        refl,
      )
