-- ===== src/Emu/Unicorn.antt =====
-- What memslicer/emu/engine.py takes from the packages unicorn and capstone, as an interface: an
-- engine's state with its registers and its memory, and what the emulator relies on of it.
use memslicer.Prelude.{
  ℕ, zero, suc, ◌+◌, ◌<◌, ◌≤◌, ◌≡◌, ◌⊎◌, Option, none, some, [], ◌∷◌, length, ◌==◌, if◌then◌else◌,
}
use memslicer.Bytes.{Bytes}
use memslicer.Utils.{Text}
use memslicer.Msl.Constants.{ArchType}

-- A call of `emu_start`: the engine's states at which the hook for memory writes is called, each
-- before the write is applied, with the write's address and size, and how the call ends.
pub data Run (Uc : Type 0) : Type 0 where
  ended : Uc → Run Uc
  raised : Uc → Text → Run Uc
  writing : Uc → ℕ → ℕ → Run Uc → Run Uc

-- What capstone answers for the instruction at the head of some bytes.
pub record Insn : Type 0 where
  pub size : ℕ
  pub mnemonic : Text
  pub op_str : Text

-- `none` is a `UcError`, or a value that the register cannot take.
pub record Unicorn (Uc Context : Type 0) : Type 0 where
  -- the constant of the register of this upper-case name
  pub reg_constant : ArchType → Text → Option ℕ
  pub new : ArchType → Uc
  pub reg_read : Uc → ℕ → ℕ
  pub reg_write : Uc → ℕ → ℕ → Option Uc
  -- the descriptor table's base and limit
  pub gdtr_write : Uc → ℕ → ℕ → Option Uc
  pub mem_map : Uc → ℕ → ℕ → Option Uc
  pub mem_read : Uc → ℕ → ℕ → Option Bytes
  pub mem_write : Uc → ℕ → Bytes → Option Uc
  pub context_save : Uc → Context
  pub context_restore : Uc → Context → Uc
  -- from this address, until that one, for so many instructions
  pub emu_start : Uc → ℕ → ℕ → ℕ → Run Uc
  -- capstone's first instruction of these bytes at this address
  pub disasm : ArchType → Bytes → ℕ → Option Insn

-- The byte at each address, where memory is mapped.
abbrev pub Memory : Type 0
Memory = ℕ → Option ℕ

abbrev only : Option Bytes → Option ℕ
only none = none
only (some []) = none
only (some (b ∷ bs)) = some b

abbrev pub memory_of : {Uc Context : Type 0} → Unicorn Uc Context → Uc → Memory
memory_of unicorn uc addr = only (unicorn.mem_read uc addr 1)

abbrev pub cons_read : Option ℕ → Option Bytes → Option Bytes
cons_read none rest = none
cons_read (some b) none = none
cons_read (some b) (some bs) = some (b ∷ bs)

unfoldable pub read_bytes : Memory → ℕ → ℕ → Option Bytes
read_bytes m addr zero = some []
read_bytes m addr (suc n) = cons_read (m addr) (read_bytes m (addr + 1) n)

unfoldable pub put_bytes : Memory → ℕ → Bytes → Memory
put_bytes m addr [] x = m x
put_bytes m addr (b ∷ bs) x =
    let rest = put_bytes m (addr + 1) bs x in if x == addr then some b else rest

abbrev pub SameMemory : Memory → Memory → Type 0
SameMemory m m' = (x : ℕ) → m' x ≡ m x

-- A write changes bytes of its range and no others, and none unless the whole range is mapped.
abbrev pub Writes : Memory → ℕ → ℕ → Memory → Type 0
Writes m addr size m' =
    (x : ℕ)
    → (m' x ≡ m x)
      ⊎ ((addr ≤ x)
          × (x < addr + size)
          × ((old : Bytes) × (read_bytes m addr size ≡ some old))
          × ((b : ℕ) × (m' x ≡ some b)))

module _ {Uc Context : Type 0} (unicorn : Unicorn Uc Context) where
  -- From this memory on, each change of memory is by a write that the hook was called for.
  abbrev pub Announced : Memory → Run Uc → Type 0
  Announced m (ended uc) = SameMemory m (memory_of unicorn uc)
  Announced m (raised uc message) = SameMemory m (memory_of unicorn uc)
  Announced m (writing uc addr size run) =
      SameMemory m (memory_of unicorn uc)
      × ((m' : Memory) × Writes m addr size m' × Announced m' run)

  -- What unicorn's documentation says of memory, of contexts and of the hook.
  pub record Documented : Type 0 where
    -- a read is of the bytes at its addresses, and fails where one of them is not mapped
    pub reads :
        (uc : Uc) (addr size : ℕ)
        → unicorn.mem_read uc addr size ≡ read_bytes (memory_of unicorn uc) addr size
    -- a write to mapped memory sets the bytes, and no register
    pub writes :
        (uc : Uc) (addr : ℕ) (bytes old : Bytes)
        → read_bytes (memory_of unicorn uc) addr (length bytes) ≡ some old
        → (uc' : Uc) × (unicorn.mem_write uc addr bytes ≡ some uc')
          × SameMemory (put_bytes (memory_of unicorn uc) addr bytes) (memory_of unicorn uc')
          × ((r : ℕ) → unicorn.reg_read uc' r ≡ unicorn.reg_read uc r)
    -- a context has the registers, and nothing of the memory
    pub restores_registers :
        (uc later : Uc) (r : ℕ)
        → unicorn.reg_read (unicorn.context_restore later (unicorn.context_save uc)) r
          ≡ unicorn.reg_read uc r
    pub restores_no_memory :
        (uc : Uc) (context : Context)
        → SameMemory (memory_of unicorn uc) (memory_of unicorn (unicorn.context_restore uc context))
    pub announces :
        (uc : Uc) (begin until count : ℕ)
        → Announced (memory_of unicorn uc) (unicorn.emu_start uc begin until count)
