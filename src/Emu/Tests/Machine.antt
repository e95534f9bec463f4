-- ===== src/Emu/Tests/Machine.antt =====
-- A machine to instantiate the emulator with: all of its memory is mapped, and each of its
-- instructions writes two overlapping pairs of bytes and moves to the next address.
use memslicer.Prelude.{
  codes, ℕ, zero, suc, ◌+◌, ◌<◌, ◌≤◌, ◌≡◌, ◌⊎◌, inl, inr, refl, ap, false, Option, none, some, [],
  ◌∷◌, length, ◌==◌, ltb, leb, ◌&&◌, same_text, if◌then◌else◌, Bool-cases, arith,
}
use memslicer.Bytes.{Bytes}
use memslicer.Utils.{Text}
use memslicer.Emu.Unicorn.{
  Unicorn, ended, writing, Memory, read_bytes, put_bytes, Writes, Documented,
}

pub record Toy : Type 0 where
  pub memory : ℕ → ℕ
  pub regs : ℕ → ℕ

abbrev all_mapped : (ℕ → ℕ) → Memory
all_mapped f x = some (f x)

unfoldable pub put_all : (ℕ → ℕ) → ℕ → Bytes → ℕ → ℕ
put_all f addr [] x = f x
put_all f addr (b ∷ bs) x = let rest = put_all f (addr + 1) bs x in if x == addr then b else rest

abbrev put_reg : (ℕ → ℕ) → ℕ → ℕ → ℕ → ℕ
put_reg regs r value q = if q == r then value else regs q

abbrev toy_constant : Text → Option ℕ
toy_constant name =
    if same_text name (codes "RIP")
    then some 0
    else if same_text name (codes "RSP")
    then some 1
    else none

abbrev stored : Toy → ℕ → Bytes → Toy
stored uc addr bytes = record uc { memory = put_all uc.memory addr bytes }

-- Address 0x2011 holds 0x10, so that a pointer to 0x1000 stands two slots above the stack's top.
abbrev pub start : Toy
start = record {
  memory = λ x. if x == 0x2011 then 0x10 else 0;
  regs = λ r. if r == 1 then 0x2000 else 0;
}

abbrev pub toy : Unicorn Toy (ℕ → ℕ)
toy = record {
  reg_constant = λ arch name. toy_constant name;
  new = λ arch. start;
  reg_read = λ uc r. uc.regs r;
  reg_write = λ uc r value. some (record uc { regs = put_reg uc.regs r value });
  gdtr_write = λ uc base limit. some uc;
  mem_map = λ uc lo size. some uc;
  mem_read = λ uc addr size. read_bytes (all_mapped uc.memory) addr size;
  mem_write = λ uc addr bytes. some (stored uc addr bytes);
  context_save = λ uc. uc.regs;
  context_restore = λ uc regs. record uc { regs = regs };
  emu_start = λ uc begin until count.
      let first = stored uc 0x3000 (7 ∷ 8 ∷ []) in
      writing uc 0x3000 2 (
        writing first 0x3001 2 (
          ended
            (record (stored first 0x3001 (9 ∷ 10 ∷ [])) { regs = put_reg uc.regs 0 (begin + 1) })));
  disasm = λ arch code addr. some (record { size = 1; mnemonic = (codes "nop"); op_str = [] });
}

put_all-put_bytes :
    (f : ℕ → ℕ) (addr : ℕ) (bytes : Bytes) (x : ℕ)
    → some (put_all f addr bytes x) ≡ put_bytes (all_mapped f) addr bytes x
unfolding put_all put_bytes
put_all-put_bytes f addr [] x = refl
put_all-put_bytes f addr (b ∷ bs) x = elim (Bool-cases (x == addr)) [
  | inl q ↦ rw q refl
  | inr q ↦ rw q (put_all-put_bytes f (addr + 1) bs x)
]

put_all_outside :
    (f : ℕ → ℕ) (addr : ℕ) (bytes : Bytes) (x : ℕ)
    → (x < addr) ⊎ (addr + length bytes ≤ x)
    → put_all f addr bytes x ≡ f x
unfolding put_all
put_all_outside f addr [] x h = refl
put_all_outside f addr (b ∷ bs) x h =
    let other : (x == addr) ≡ false = ground arith in
    let beyond : (x < addr + 1) ⊎ (addr + 1 + length bs ≤ x) = elim h [
      | inl low ↦ inl (omega arith)
      | inr high ↦ inr (omega arith)
    ] in
    rw other (put_all_outside f (addr + 1) bs x beyond)

all_read :
    (f : ℕ → ℕ) (addr n : ℕ) → (bytes : Bytes) × (read_bytes (all_mapped f) addr n ≡ some bytes)
unfolding read_bytes
all_read f addr zero = ([], refl)
all_read f addr (suc n) =
    let (bytes, read) = all_read f (addr + 1) n in rw read (f addr ∷ bytes, refl)

put_all-Writes :
    (f : ℕ → ℕ) (addr : ℕ) (bytes : Bytes)
    → Writes (all_mapped f) addr (length bytes) (all_mapped (put_all f addr bytes))
put_all-Writes f addr bytes = λ x. elim (Bool-cases (leb addr x && ltb x (addr + length bytes))) [
  | inl q ↦
      inr
        (ground arith, ground arith, all_read f addr (length bytes), (put_all f addr bytes x, refl))
  | inr q ↦
      inl
        (ap (λ (b : ℕ). some b) (put_all_outside f addr bytes x (outside addr (length bytes) x q)))
]
  where
    outside :
        (addr n x : ℕ) → (leb addr x && ltb x (addr + n)) ≡ false → (x < addr) ⊎ (addr + n ≤ x)
    outside addr n x q = elim (Bool-cases (ltb x addr)) [
      | inl low ↦ inl (ground arith)
      | inr high ↦ inr (ground arith)
    ]

pub toy-Documented : Documented toy
unfolding read_bytes
toy-Documented = record {
  reads = λ uc addr size. refl;
  writes = λ uc addr bytes old read.
      (stored uc addr bytes, refl, λ x. put_all-put_bytes uc.memory addr bytes x, λ r. refl);
  restores_registers = λ uc later r. refl;
  restores_no_memory = λ uc regs x. refl;
  announces = λ uc begin until count. (
    λ x. refl,
    (
      all_mapped (put_all uc.memory 0x3000 (7 ∷ 8 ∷ [])),
      put_all-Writes uc.memory 0x3000 (7 ∷ 8 ∷ []),
      (
        λ x. refl,
        (
          all_mapped (put_all (put_all uc.memory 0x3000 (7 ∷ 8 ∷ [])) 0x3001 (9 ∷ 10 ∷ [])),
          put_all-Writes (put_all uc.memory 0x3000 (7 ∷ 8 ∷ [])) 0x3001 (9 ∷ 10 ∷ []),
          λ x. refl,
        ),
      ),
    ),
  );
}
