-- ===== src/Emu/Engine/Nearest.antt =====
-- The frame that the walk up the stack finds.
use memslicer.Prelude.{
  ℕ, zero, suc, ◌+◌, ◌*◌, ◌/◌, ◌<◌, ◌≤◌, ◌≡◌, ◌==◌, ◌⊎◌, inl, inr, refl, sym, ap, ◌∙◌, true, false,
  Option, none, some, ok, Bool-cases, Option-cases, arith,
}
use mathlib.Core.Path.{subst}
use memslicer.Bytes.{Bytes, from_le}
use memslicer.Emu.Unicorn.{Unicorn}
use memslicer.Emu.Engine.{Emulator, reg_const, read_reg}
use memslicer.Emu.Engine.Frames.{
  CallerFrame, frame_at, target_range, is_return_address, walk_stack, find_caller_frame,
}

module _ {Uc Context : Type 0} (unicorn : Unicorn Uc Context) where
  -- What the slot at this depth holds, if it can be read.
  abbrev slot_bytes : Emulator Uc Context → ℕ → ℕ → Option Bytes
  slot_bytes e sp depth = unicorn.mem_read e.uc (sp + depth * (e.bits / 8)) (e.bits / 8)

  -- The slots from one depth up to another can be read, and hold no return address into the range.
  abbrev pub PassedOver : Emulator Uc Context → ℕ → ℕ → ℕ → ℕ → ℕ → Type 0
  PassedOver e lo hi sp from to =
      (j : ℕ)
      → from ≤ j
      → j < to
      → (bytes : Bytes) × (slot_bytes e sp j ≡ some bytes)
        × (is_return_address e.image lo hi (from_le bytes) ≡ false)

  -- The nearest slot that holds a return address, or the reason why there is none: a slot that
  -- cannot be read, or the end of the walk.
  abbrev pub IsNearest : Emulator Uc Context → ℕ → ℕ → ℕ → ℕ → ℕ → Option CallerFrame → Type 0
  IsNearest e lo hi sp from to (some frame) =
      (bytes : Bytes) × (from ≤ frame.depth)
      × (frame.depth < to)
      × (slot_bytes e sp frame.depth ≡ some bytes)
      × (frame ≡ frame_at e.image (sp + frame.depth * (e.bits / 8)) (from_le bytes) frame.depth)
      × (is_return_address e.image lo hi (from_le bytes) ≡ true)
      × PassedOver e lo hi sp from frame.depth
  IsNearest e lo hi sp from to none =
      (last : ℕ) × PassedOver e lo hi sp from last × ((last ≡ to) ⊎ (slot_bytes e sp last ≡ none))

  PassedOver-cons :
      (e : Emulator Uc Context) (lo hi sp from to : ℕ) (bytes : Bytes)
      → slot_bytes e sp from ≡ some bytes
      → is_return_address e.image lo hi (from_le bytes) ≡ false
      → PassedOver e lo hi sp (from + 1) to
      → PassedOver e lo hi sp from to
  PassedOver-cons e lo hi sp from to bytes read miss later = λ j low high.
      elim (Bool-cases (j == from)) [
        | inl same ↦
            let at : from ≡ j = ground arith in (bytes, ap (slot_bytes e sp) (sym at) ∙ read, miss)
        | inr other ↦ later j (ground arith) high
      ]

  PassedOver-none : (e : Emulator Uc Context) (lo hi sp from : ℕ) → PassedOver e lo hi sp from from
  PassedOver-none e lo hi sp from = λ j low high. absurd (omega arith)

  IsNearest-cons :
      (e : Emulator Uc Context) (lo hi sp from to : ℕ) (bytes : Bytes) (found : Option CallerFrame)
      → slot_bytes e sp from ≡ some bytes
      → is_return_address e.image lo hi (from_le bytes) ≡ false
      → IsNearest e lo hi sp (from + 1) to found
      → IsNearest e lo hi sp from to found
  IsNearest-cons e lo hi sp from to bytes none read miss (last, passed, why) =
      (last, PassedOver-cons e lo hi sp from last bytes read miss passed, why)
  IsNearest-cons e lo hi sp from to bytes (some frame) read miss
        (held, low, high, at, made, hit, passed) =
      (
        held,
        omega arith,
        high,
        at,
        made,
        hit,
        PassedOver-cons e lo hi sp from frame.depth bytes read miss passed,
      )

  walk_stack-IsNearest :
      (e : Emulator Uc Context) (lo hi sp depth n : ℕ)
      → IsNearest e lo hi sp depth (depth + n) (walk_stack unicorn e lo hi sp depth n)
  unfolding walk_stack
  walk_stack-IsNearest e lo hi sp depth zero =
      (depth, PassedOver-none e lo hi sp depth, inl (omega arith))
  walk_stack-IsNearest e lo hi sp depth (suc n) = elim (Option-cases (slot_bytes e sp depth)) [
    | inl unread ↦ rw unread (depth, PassedOver-none e lo hi sp depth, inr unread)
    | inr (bytes, read) ↦
        rw read (elim (Bool-cases (is_return_address e.image lo hi (from_le bytes))) [
          | inl hit ↦
              rw hit
                (bytes, omega arith, omega arith, read, refl, hit, PassedOver-none e lo hi sp depth)
          | inr miss ↦ rw miss (
              let rest = walk_stack-IsNearest e lo hi sp (depth + 1) n in
              let ends : depth + 1 + n ≡ depth + suc n = omega arith in
              IsNearest-cons e lo hi sp depth (depth + suc n) bytes _ read miss (
                subst
                  (λ (to : ℕ).
                    IsNearest e lo hi sp (depth + 1) to
                      (walk_stack unicorn e lo hi sp (depth + 1) n))
                  ends rest))
        ])
  ]

  -- Where the range to look in and the stack register are known, the frame is the nearest slot, of
  -- as many as were asked for, that holds an executable address of the range: every slot before it
  -- can be read and holds none. Where no frame is found, that is so of every slot up to the last
  -- one asked for or up to one that cannot be read.
  pub find_caller_frame-IsNearest :
      (e : Emulator Uc Context) (image_range : Option (ℕ × ℕ)) (max_depth lo hi c : ℕ)
      → target_range e.image image_range ≡ some (lo, hi)
      → reg_const unicorn e e.sp_name ≡ some c
      → (found : Option CallerFrame) × (find_caller_frame unicorn e image_range max_depth
          ≡ ok found)
        × IsNearest e lo hi (unicorn.reg_read e.uc c) 0 max_depth found
  unfolding find_caller_frame read_reg
  find_caller_frame-IsNearest e image_range max_depth lo hi c range known =
      let sp : ℕ = unicorn.reg_read e.uc c in
      let ends : 0 + max_depth ≡ max_depth = omega arith in
      rw (range, known)
        (
          walk_stack unicorn e lo hi sp 0 max_depth,
          refl,
          subst (λ (to : ℕ). IsNearest e lo hi sp 0 to (walk_stack unicorn e lo hi sp 0 max_depth))
              ends (walk_stack-IsNearest e lo hi sp 0 max_depth),
        )
