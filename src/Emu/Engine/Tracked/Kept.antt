-- ===== src/Emu/Engine/Tracked/Kept.antt =====
-- The calls that set registers, map memory or fill it keep the journal, and the record of writes.
use memslicer.Prelude.{
  codes, ℕ, ◌+◌, ◌-◌, ◌≡◌, refl, ◌∙◌, Bool, true, false, ◌&&◌, Option, none, some, List, [], ◌∷◌,
  ◌++◌, length, Exn, Result, ok, err, if◌then◌else◌, type_error, ◌>>=◌, >>=-eq-ok, inl, inr,
  Bool-cases, ends_with, ◌==◌,
}
use memslicer.Utils.{Text}
use memslicer.Acquirer.Bridge.{lower}
use memslicer.Emu.Loader.{EmuReg, EmuThread}
use memslicer.Emu.Spans.{Span, uc_page, coalesce, find_free_page}
use memslicer.Emu.Unicorn.{Unicorn}
use memslicer.Emu.Engine.{Emulator, WriteLog, with_uc, write_const}
use memslicer.Emu.Engine.Setup.{
  is_x86, seed_const, if_taken, seed_register, seed_each, load_selectors, install_gdt, gdt_of,
  seed_x86_segments, seed_from, seed_registers, clear_const, clear_registers, map_spans,
  segment_bases, base_order, registers_of,
}

-- The fields that those calls keep.
abbrev pub Journal : Type 0 → Type 0
Journal Context = List (Context × WriteLog) × Option WriteLog × List Span × List ℕ × List ℕ

abbrev pub journal : {Uc Context : Type 0} → Emulator Uc Context → Journal Context
journal e = (e.history, e.pending, e.written, e.wx_events, e.wx_seen)

module _ {Uc Context : Type 0} where
  -- What the call answers has the journal that it began with.
  abbrev pub Keeps : Emulator Uc Context → Result (Emulator Uc Context) → Type 0
  Keeps e call = (e' : Emulator Uc Context) → call ≡ ok e' → journal e' ≡ journal e

  pub Keeps-ok : (e e' : Emulator Uc Context) → journal e' ≡ journal e → Keeps e (ok e')
  Keeps-ok e e1 same e' h = cc

  pub Keeps-err : (e : Emulator Uc Context) (x : Exn) → Keeps e (err x)
  Keeps-err e x e' h = cc

  pub Keeps->>= :
      (e : Emulator Uc Context) (call : Result (Emulator Uc Context))
      (next : Emulator Uc Context → Result (Emulator Uc Context))
      → Keeps e call
      → ((e1 : Emulator Uc Context) → Keeps e1 (next e1))
      → Keeps e (call >>= next)
  Keeps->>= e call next first later e' h =
      let (e1, called, rest) = >>=-eq-ok call next h in later e1 e' rest ∙ first e1 called

  -- A call that does not answer an emulator.
  pub Keeps-value {ℓ} :
      {V : Type ℓ} (e : Emulator Uc Context) (call : Result V)
      (next : V → Result (Emulator Uc Context))
      → ((v : V) → Keeps e (next v))
      → Keeps e (call >>= next)
  Keeps-value e call next later e' h =
      let (v, called, rest) = >>=-eq-ok call next h in later v e' rest

  pub Keeps-if :
      (e : Emulator Uc Context) (test : Bool) (x y : Result (Emulator Uc Context))
      → Keeps e x
      → Keeps e y
      → Keeps e (if test then x else y)
  Keeps-if e true x y h k = h
  Keeps-if e false x y h k = k

  pub Keeps-from :
      (e e1 : Emulator Uc Context) (call : Result (Emulator Uc Context))
      → journal e1 ≡ journal e
      → Keeps e1 call
      → Keeps e call
  Keeps-from e e1 call same h e' q = h e' q ∙ same

module _ {Uc Context : Type 0} (unicorn : Unicorn Uc Context) where
  pub with_uc-Keeps : (e : Emulator Uc Context) (o : Option Uc) → Keeps e (with_uc unicorn e o)
  with_uc-Keeps e none = Keeps-err e _
  with_uc-Keeps e (some uc) = Keeps-ok e _ refl

  pub write_const-Keeps :
      (e : Emulator Uc Context) (o : Option ℕ) (value : ℕ) (x : Exn)
      → Keeps e (write_const unicorn e o value x)
  write_const-Keeps e none value x = Keeps-err e x
  write_const-Keeps e (some c) value x = with_uc-Keeps e _

  load_selectors-Keeps :
      (e : Emulator Uc Context) (order : List (Text × ℕ)) (idx : ℕ)
      → Keeps e (load_selectors unicorn e order idx)
  unfolding load_selectors
  load_selectors-Keeps e [] idx = Keeps-ok e e refl
  load_selectors-Keeps e ((seg, base) ∷ order) idx =
      Keeps->>= e _ _ (write_const-Keeps e _ _ type_error)
        λ e1. load_selectors-Keeps e1 order (idx + 1)

  install_gdt-Keeps :
      (e : Emulator Uc Context) (order : List (Text × ℕ)) → Keeps e (install_gdt unicorn e order)
  unfolding install_gdt
  install_gdt-Keeps e order =
      Keeps-value e (find_free_page e.mapped e.bits (length (gdt_of order))) _ λ base.
        Keeps->>= e (with_uc unicorn e (unicorn.mem_map e.uc base uc_page)) _ (with_uc-Keeps e _)
          λ e1.
            Keeps->>= e1 (with_uc unicorn e1 (unicorn.mem_write e1.uc base (gdt_of order))) _
              (with_uc-Keeps e1 _)
              λ e2.
                let e3 : Emulator Uc Context = record e2 {
                  mapped = coalesce (e2.mapped ++ (base, base + uc_page) ∷ []);
                } in
                Keeps-from e2 e3 _ refl (
                  Keeps->>= e3
                    (with_uc unicorn e3 (unicorn.gdtr_write e3.uc base (length (gdt_of order) - 1)))
                    _ (with_uc-Keeps e3 _) λ e4. load_selectors-Keeps e4 order 1)

  seed_const-journal :
      (e : Emulator Uc Context) (o : Option ℕ) (value : ℕ)
      → journal (seed_const unicorn e o value) ≡ journal e
  seed_const-journal e none value = refl
  seed_const-journal e (some c) value = taken (unicorn.reg_write e.uc c value)
    where
      taken : (o : Option Uc) → journal (if_taken unicorn e o) ≡ journal e
      taken none = refl
      taken (some uc) = refl

  seed_register-journal :
      (e : Emulator Uc Context) (reg : EmuReg) → journal (seed_register unicorn e reg) ≡ journal e
  unfolding seed_register
  seed_register-journal e reg =
      elim (Bool-cases (is_x86 e.image.arch && ends_with (lower reg.name) (codes "_base"))) [
        | inl q ↦ rw q refl
        | inr q ↦ rw q (seed_const-journal e _ reg.value)
      ]

  seed_each-journal :
      (e : Emulator Uc Context) (regs : List EmuReg)
      → journal (seed_each unicorn e regs) ≡ journal e
  unfolding seed_each
  seed_each-journal e [] = refl
  seed_each-journal e (reg ∷ regs) =
      seed_each-journal (seed_register unicorn e reg) regs ∙ seed_register-journal e reg

  seed_x86_segments-Keeps : (e : Emulator Uc Context) → Keeps e (seed_x86_segments unicorn e)
  unfolding seed_x86_segments
  seed_x86_segments-Keeps e =
      let bases = segment_bases (registers_of e.thread) [] in
      let e' : Emulator Uc Context = record e { seg_bases = bases } in
      Keeps-if e (length bases == 0) (ok e') (install_gdt unicorn e' (base_order bases))
        (Keeps-ok e e' refl) (Keeps-from e e' _ refl (install_gdt-Keeps e' (base_order bases)))

  seed_from-Keeps :
      (e : Emulator Uc Context) (thread : Option EmuThread) → Keeps e (seed_from unicorn e thread)
  seed_from-Keeps e none = Keeps-ok e _ refl
  seed_from-Keeps e (some t) =
      let seeded : Emulator Uc Context = seed_each unicorn e t.registers in
      Keeps-if e (is_x86 e.image.arch) _ _
        (Keeps-from e seeded _ (seed_each-journal e t.registers) (seed_x86_segments-Keeps seeded))
        (Keeps-ok e seeded (seed_each-journal e t.registers))

  pub seed_registers-Keeps : (e : Emulator Uc Context) → Keeps e (seed_registers unicorn e)
  unfolding seed_registers
  seed_registers-Keeps e = seed_from-Keeps e e.thread

  clear_const-Keeps : (e : Emulator Uc Context) (o : Option ℕ) → Keeps e (clear_const unicorn e o)
  clear_const-Keeps e none = Keeps-ok e e refl
  clear_const-Keeps e (some c) = with_uc-Keeps e _

  pub clear_registers-Keeps :
      (e : Emulator Uc Context) (names : List Text) → Keeps e (clear_registers unicorn e names)
  unfolding clear_registers
  clear_registers-Keeps e [] = Keeps-ok e e refl
  clear_registers-Keeps e (name ∷ names) =
      Keeps->>= e _ _ (clear_const-Keeps e _) λ e1. clear_registers-Keeps e1 names

  pub map_spans-Keeps :
      (e : Emulator Uc Context) (spans : List Span) → Keeps e (map_spans unicorn e spans)
  unfolding map_spans
  map_spans-Keeps e [] = Keeps-ok e e refl
  map_spans-Keeps e ((lo, hi) ∷ spans) =
      Keeps->>= e _ _ (with_uc-Keeps e _) λ e1. map_spans-Keeps e1 spans
