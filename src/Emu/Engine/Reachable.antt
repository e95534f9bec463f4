-- ===== src/Emu/Engine/Reachable.antt =====
-- Every emulator that calls make: its journal is bounded, and its record of addresses executed after
-- they were written is true.
use memslicer.Prelude.{
  ok-injective, ℕ, ◌≡◌, refl, sym, Bool, Option, none, some, List, [], ◌∷◌, length, ◌+◌, ◌/◌, Dict,
  Result, ok, >>=-eq-ok, arith, map, ◌≤◌,
}
use mathlib.Core.Path.{subst}
use memslicer.Bytes.{Bytes}
use memslicer.Utils.{Text}
use memslicer.Emu.Loader.{EmuRegion, SliceImage, Selector}
use memslicer.Emu.Spans.{coalesce}
use memslicer.Emu.Unicorn.{Unicorn}
use memslicer.Emu.Engine.{
  StepResult, WriteLog, Emulator, max_back, pc, revert_writes, undone, step, step_back, write_reg,
  set_pc,
}
use memslicer.Emu.Engine.Arch.{arch_row}
use memslicer.Emu.Engine.Setup.{
  row_or_emu_error, fresh, new_emulator, switch_thread, resolve_thread, clear_registers,
  seed_registers, map_memory, write_pages, write_regions, region_span,
}
use memslicer.Emu.Engine.Frames.{CallerFrame, find_caller_frame, unwind, resume_from_syscall}
use memslicer.Emu.Engine.Tracked.{
  Tracks, IsTracked, step_at-IsTracked, IsShorter, pop_last-IsShorter,
}
use memslicer.Emu.Engine.Tracked.Kept.{
  Keeps, Keeps-ok, Keeps-from, Keeps->>=, with_uc-Keeps, write_const-Keeps, seed_registers-Keeps,
  clear_registers-Keeps, map_spans-Keeps,
}

module _ {Uc Context : Type 0} (unicorn : Unicorn Uc Context) where
  -- The emulators that calls make, from one that is built. A call that raises makes none.
  pub data Reachable : Emulator Uc Context → Type 0 where
    built :
        (image : SliceImage) (spec : Selector) (e : Emulator Uc Context)
        → new_emulator unicorn image spec ≡ ok e
        → Reachable e
    stepped :
        (e e' : Emulator Uc Context) (res : StepResult)
        → Reachable e
        → step unicorn e ≡ ok (res, e')
        → Reachable e'
    stepped_back :
        (e e' : Emulator Uc Context) (undone : Bool)
        → Reachable e
        → step_back unicorn e ≡ ok (undone, e')
        → Reachable e'
    switched :
        (e e' : Emulator Uc Context) (spec : Selector)
        → Reachable e
        → switch_thread unicorn e spec ≡ ok e'
        → Reachable e'
    resumed :
        (e e' : Emulator Uc Context) (image_range : Option (ℕ × ℕ)) (max_depth pop_bytes : ℕ)
        (frame : Option CallerFrame)
        → Reachable e
        → resume_from_syscall unicorn e image_range max_depth pop_bytes ≡ ok (frame, e')
        → Reachable e'
    wrote :
        (e e' : Emulator Uc Context) (name : Text) (value : ℕ)
        → Reachable e
        → write_reg unicorn e name value ≡ ok e'
        → Reachable e'
    jumped :
        (e e' : Emulator Uc Context) (addr : ℕ)
        → Reachable e
        → set_pc unicorn e addr ≡ ok e'
        → Reachable e'

  -- What keeps the journal keeps what it meets.
  Keeps-IsTracked :
      (e e' : Emulator Uc Context) (call : Result (Emulator Uc Context))
      → Keeps e call
      → call ≡ ok e'
      → IsTracked e
      → IsTracked e'
  Keeps-IsTracked e e' call keeps h t = subst Tracks (sym (keeps e' h)) t

  IsTracked-history :
      (e : Emulator Uc Context) (uc : Uc) (history : List (Context × WriteLog))
      → length history ≤ max_back
      → IsTracked e
      → IsTracked (record e { history = history; uc = uc })
  IsTracked-history e uc history le (short, idle, same, distinct, all) =
      (le, idle, same, distinct, all)

  write_pages-Keeps :
      (e : Emulator Uc Context) (pages : Dict ℕ Bytes) → Keeps e (write_pages unicorn e pages)
  unfolding write_pages
  write_pages-Keeps e [] = Keeps-ok e e refl
  write_pages-Keeps e ((addr, page) ∷ pages) =
      Keeps->>= e _ _ (with_uc-Keeps unicorn e _) λ e1. write_pages-Keeps e1 pages

  write_regions-Keeps :
      (e : Emulator Uc Context) (rs : List EmuRegion) → Keeps e (write_regions unicorn e rs)
  unfolding write_regions
  write_regions-Keeps e [] = Keeps-ok e e refl
  write_regions-Keeps e (r ∷ rs) =
      Keeps->>= e _ _ (write_pages-Keeps e r.pages) λ e1. write_regions-Keeps e1 rs

  map_memory-Keeps : (e : Emulator Uc Context) → Keeps e (map_memory unicorn e)
  unfolding map_memory
  map_memory-Keeps e =
      let mapped = coalesce (map region_span e.image.regions) in
      let e0 : Emulator Uc Context = record e { mapped = mapped } in
      Keeps-from e e0 _ refl (
        Keeps->>= e0 _ _ (map_spans-Keeps unicorn e0 mapped)
          λ e1. write_regions-Keeps e1 e.image.regions)

  new_emulator-IsTracked :
      (image : SliceImage) (spec : Selector) (e : Emulator Uc Context)
      → new_emulator unicorn image spec ≡ ok e
      → IsTracked e
  unfolding new_emulator
  new_emulator-IsTracked image spec e h =
      let (thread, resolved, h1) = >>=-eq-ok (resolve_thread unicorn image spec) _ h in
      let (row, found, h2) = >>=-eq-ok (row_or_emu_error unicorn (arch_row image.arch)) _ h1 in
      let e0 : Emulator Uc Context = fresh unicorn image thread row in
      let (mapped, h3, h4) = >>=-eq-ok (map_memory unicorn e0) _ h2 in
      Keeps-IsTracked mapped e _ (seed_registers-Keeps unicorn mapped) h4
        (Keeps-IsTracked e0 mapped _ (map_memory-Keeps e0) h3 (omega arith, refl, refl, tt, tt))

  undone-IsTracked :
      (e e' : Emulator Uc Context) (o : Option (List (Context × WriteLog) × (Context × WriteLog)))
      (b : Bool)
      → IsShorter e.history o
      → IsTracked e
      → undone unicorn e o ≡ ok (b, e')
      → IsTracked e'
  undone-IsTracked e e' none b shorter t h =
      let same = ok-injective h in subst (λ p. IsTracked p.1) same t
  undone-IsTracked e e' (some (history, (context, writes))) b shorter t h =
      let (uc, reverted, h1) =
        >>=-eq-ok (revert_writes unicorn (unicorn.context_restore e.uc context) writes) _ h in
      subst (λ p. IsTracked p.1) (ok-injective h1)
        (IsTracked-history e uc history (omega (arith, t.0)) t)

  switch_thread-IsTracked :
      (e e' : Emulator Uc Context) (spec : Selector)
      → IsTracked e
      → switch_thread unicorn e spec ≡ ok e'
      → IsTracked e'
  unfolding switch_thread
  switch_thread-IsTracked e e' spec t h =
      let (thread, resolved, h1) = >>=-eq-ok (resolve_thread unicorn e.image spec) _ h in
      let e0 : Emulator Uc Context = record e { thread = thread } in
      let (cleared, h2, h3) = >>=-eq-ok (clear_registers unicorn e0 e.gpr_names) _ h1 in
      let (seeded, h4, h5) = >>=-eq-ok (seed_registers unicorn cleared) _ h3 in
      let kept =
        Keeps-IsTracked cleared seeded _ (seed_registers-Keeps unicorn cleared) h4
          (Keeps-IsTracked e0 cleared _ (clear_registers-Keeps unicorn e0 e.gpr_names) h2 t) in
      subst IsTracked (ok-injective h5) (IsTracked-history seeded seeded.uc [] (omega arith) kept)

  unwind-IsTracked :
      (e e' : Emulator Uc Context) (frame out : Option CallerFrame) (pop_bytes : ℕ)
      → IsTracked e
      → unwind unicorn e frame pop_bytes ≡ ok (out, e')
      → IsTracked e'
  unfolding set_pc write_reg
  unwind-IsTracked e e' none out pop_bytes t h = subst (λ p. IsTracked p.1) (ok-injective h) t
  unwind-IsTracked e e' (some frame) out pop_bytes t h =
      let (e1, h1, h2) = >>=-eq-ok (set_pc unicorn e frame.return_addr) _ h in
      let (e2, h3, h4) =
        >>=-eq-ok (write_reg unicorn e1 e1.sp_name (frame.sp_slot + e1.bits / 8 + pop_bytes)) _
          h2 in
      let kept =
        Keeps-IsTracked e1 e2 _ (write_const-Keeps unicorn e1 _ _ _) h3
          (Keeps-IsTracked e e1 _ (write_const-Keeps unicorn e _ _ _) h1 t) in
      subst (λ p. IsTracked p.1) (ok-injective h4)
        (IsTracked-history e2 e2.uc [] (omega arith) kept)

  -- Of every emulator that calls make from one that is built from a slice: the journal has at most
  -- 4096 steps, no write is pending between calls, and the addresses recorded as executed after they
  -- were written are distinct, the same as those marked as seen, and each in a written span.
  pub Reachable-IsTracked : (e : Emulator Uc Context) → Reachable e → IsTracked e
  unfolding step step_back resume_from_syscall write_reg set_pc
  Reachable-IsTracked e (built image spec e1 h) = new_emulator-IsTracked image spec e h
  Reachable-IsTracked e' (stepped e e1 res r h) =
      let (addr, h1, h2) = >>=-eq-ok (pc unicorn e) _ h in
      subst (λ p. IsTracked p.1) (ok-injective h2)
        (step_at-IsTracked unicorn e addr (Reachable-IsTracked e r))
  Reachable-IsTracked e' (stepped_back e e1 b r h) =
      undone-IsTracked e e' _ b (pop_last-IsShorter e.history) (Reachable-IsTracked e r) h
  Reachable-IsTracked e' (switched e e1 spec r h) =
      switch_thread-IsTracked e e' spec (Reachable-IsTracked e r) h
  Reachable-IsTracked e' (resumed e e1 range depth pop frame r h) =
      let (found, h1, h2) = >>=-eq-ok (find_caller_frame unicorn e range depth) _ h in
      unwind-IsTracked e e' found frame pop (Reachable-IsTracked e r) h2
  Reachable-IsTracked e' (wrote e e1 name value r h) =
      Keeps-IsTracked e e' _ (write_const-Keeps unicorn e _ _ _) h (Reachable-IsTracked e r)
  Reachable-IsTracked e' (jumped e e1 addr r h) =
      Keeps-IsTracked e e' _ (write_const-Keeps unicorn e _ _ _) h (Reachable-IsTracked e r)
