-- ===== src/Emu/Engine.antt =====
-- memslicer/emu/engine.py: the emulator's state, its registers, and stepping in both directions.
-- unicorn and capstone are the parameter `unicorn`.
pub mod Reverse
pub mod Restore
pub mod Arch
pub mod Setup
pub mod Frames
pub mod Nearest
pub mod Tracked
pub mod Reachable
use memslicer.Prelude.{
  codes, ℕ, zero, suc, ◌+◌, ◌-◌, ◌^◌, ◌≡◌, Bool, true, false, not, ◌&&◌, Option, none, some, List,
  [], ◌∷◌, ◌++◌, length, drop, any_of, ◌==◌, ltb, leb, if◌then◌else◌, Dict, Result, Exn, ok, err,
  type_error, runtime_error, engine_error, ◌>>=◌,
}
use memslicer.Bytes.{Bytes}
use memslicer.Utils.{Text}
use memslicer.Msl.Constants.{ArchType, x86, x86_64, arm64, arm32}
use memslicer.Emu.Loader.{SliceImage, EmuThread}
use memslicer.Emu.Spans.{Span, covered, coalesce}
use memslicer.Emu.Unicorn.{Unicorn, Insn, Run, ended, raised, writing}

pub record StepResult : Type 0 where
  pub addr : ℕ
  pub size : ℕ
  pub mnemonic : Text
  pub op_str : Text
  pub success : Bool
  pub error : Option Text

-- A memory write: its address, and the bytes that it replaced.
abbrev pub WriteLog : Type 0
WriteLog = List (ℕ × Bytes)

-- MSLEmulator. The names of registers are those of the row of the table of architectures.
pub record Emulator (Uc Context : Type 0) : Type 0 where
  pub image : SliceImage
  pub thread : Option EmuThread
  pub bits : ℕ
  pub pc_name : Text
  pub sp_name : Text
  pub gpr_names : List Text
  pub uc : Uc
  pub mapped : List Span
  pub seg_bases : Dict Text ℕ
  pub history : List (Context × WriteLog)
  pub pending : Option WriteLog
  pub written : List Span
  pub wx_events : List ℕ
  pub wx_seen : List ℕ

abbrev pub max_back : ℕ
max_back = 4096

-- name.upper(), of ASCII names
abbrev upper_char : ℕ → ℕ
upper_char c = if leb 97 c && leb c 122 then c - 32 else c

unfoldable pub upper : Text → Text
upper [] = []
upper (c ∷ cs) = upper_char c ∷ upper cs

-- xs.pop(): the list without its last item, and that item
unfoldable pub pop_last {ℓ} : {A : Type ℓ} → List A → Option (List A × A)
pop_last [] = none
pop_last (x ∷ xs) = elim (pop_last xs) [
  | none ↦ some ([], x)
  | some rest ↦ some (x ∷ rest.0, rest.1)
]

module _ {Uc Context : Type 0} (unicorn : Unicorn Uc Context) where
  unfoldable pub reg_const : Emulator Uc Context → Text → Option ℕ
  unfolding upper
  reg_const e name = unicorn.reg_constant e.image.arch (upper name)

  -- The binding refuses a register that is None.
  abbrev pub read_const : Emulator Uc Context → Option ℕ → Exn → Result ℕ
  read_const e none exn = err exn
  read_const e (some c) exn = ok (unicorn.reg_read e.uc c)

  abbrev pub with_uc : Emulator Uc Context → Option Uc → Result (Emulator Uc Context)
  with_uc e none = err engine_error
  with_uc e (some uc) = ok (record e { uc = uc })

  abbrev pub write_const : Emulator Uc Context → Option ℕ → ℕ → Exn → Result (Emulator Uc Context)
  write_const e none value exn = err exn
  write_const e (some c) value exn = with_uc e (unicorn.reg_write e.uc c value)

  unfoldable pub pc : Emulator Uc Context → Result ℕ
  unfolding reg_const
  pc e = read_const e (reg_const e e.pc_name) type_error

  unfoldable pub set_pc : Emulator Uc Context → ℕ → Result (Emulator Uc Context)
  unfolding reg_const
  set_pc e value = write_const e (reg_const e e.pc_name) value type_error

  unfoldable pub read_reg : Emulator Uc Context → Text → Result ℕ
  unfolding reg_const
  read_reg e name = read_const e (reg_const e name) runtime_error

  unfoldable pub write_reg : Emulator Uc Context → Text → ℕ → Result (Emulator Uc Context)
  unfolding reg_const
  write_reg e name value = write_const e (reg_const e name) value runtime_error

  abbrev some_or_engine_error {ℓ} : {A : Type ℓ} → Option A → Result A
  some_or_engine_error none = err engine_error
  some_or_engine_error (some a) = ok a

  unfoldable pub read_mem : Emulator Uc Context → ℕ → ℕ → Result Bytes
  read_mem e addr size = some_or_engine_error (unicorn.mem_read e.uc addr size)

  -- self._pending.append((address, old)), where the old bytes can be read
  abbrev pub logged : WriteLog → ℕ → Option Bytes → WriteLog
  logged log address none = log
  logged log address (some old) = log ++ (address, old) ∷ []

  abbrev pub pending_after : Option WriteLog → ℕ → Option Bytes → Option WriteLog
  pending_after none address old = none
  pending_after (some log) address old = some (logged log address old)

  unfoldable pub on_mem_write : Emulator Uc Context → ℕ → ℕ → Emulator Uc Context
  on_mem_write e address size = record e {
    written = e.written ++ (address, address + size) ∷ [];
    pending = pending_after e.pending address (unicorn.mem_read e.uc address size);
  }

  -- emu_start with the hook: the emulator behind it, and the message where it raises.
  unfoldable pub run_hooked : Emulator Uc Context → Run Uc → Emulator Uc Context × Option Text
  unfolding on_mem_write
  run_hooked e (ended uc) = (record e { uc = uc }, none)
  run_hooked e (raised uc message) = (record e { uc = uc }, some message)
  run_hooked e (writing uc address size run) =
      run_hooked (on_mem_write (record e { uc = uc }) address size) run

  abbrev shown_insn : Option Insn → ℕ × Text × Text
  shown_insn none = (0, (codes "(bad)"), [])
  shown_insn (some insn) = (insn.size, insn.mnemonic, insn.op_str)

  abbrev shown_code : ArchType → ℕ → Option Bytes → ℕ × Text × Text
  shown_code arch addr none = (0, (codes "(unreadable)"), [])
  shown_code arch addr (some code) = shown_insn (unicorn.disasm arch code addr)

  unfoldable pub disasm_at : Emulator Uc Context → ℕ → ℕ × Text × Text
  disasm_at e addr = shown_code e.image.arch addr (unicorn.mem_read e.uc addr 16)

  -- pc not in self._wx_seen and self._is_written(pc)
  unfoldable pub note_executed : Emulator Uc Context → ℕ → Emulator Uc Context
  unfolding covered
  note_executed e addr =
      if not (any_of (λ seen. seen == addr) e.wx_seen) && covered e.written addr
      then record e { wx_seen = e.wx_seen ++ addr ∷ []; wx_events = e.wx_events ++ addr ∷ [] }
      else e

  -- self._history.append(...), and pop(0) where it has grown too long
  unfoldable pub trimmed : List (Context × WriteLog) → List (Context × WriteLog)
  trimmed history = if ltb max_back (length history) then drop 1 history else history

  abbrev pub log_of : Option WriteLog → WriteLog
  log_of none = []
  log_of (some log) = log

  abbrev pub no_error {ℓ} : {A : Type ℓ} → Option A → Bool
  no_error none = true
  no_error (some a) = false

  -- step, once the PC is read
  unfoldable pub step_at : Emulator Uc Context → ℕ → StepResult × Emulator Uc Context
  unfolding note_executed disasm_at run_hooked trimmed
  step_at e addr =
      let noted = note_executed e addr in
      let shown = disasm_at noted addr in
      let context = unicorn.context_save noted.uc in
      let after =
        run_hooked (record noted { pending = some [] })
          (unicorn.emu_start noted.uc addr (2 ^ e.bits - 1) 1) in
      (
        record {
          addr = addr;
          size = shown.0;
          mnemonic = shown.1;
          op_str = shown.2;
          success = no_error after.1;
          error = after.1;
        },
        record after.0 {
          pending = none;
          history = trimmed (after.0.history ++ (context, log_of after.0.pending) ∷ []);
        },
      )

  unfoldable pub step : Emulator Uc Context → Result (StepResult × Emulator Uc Context)
  unfolding pc step_at
  step e = do addr ← pc e; ok (step_at e addr)

  unfoldable pub can_step_back : Emulator Uc Context → Bool
  can_step_back e = not (length e.history == 0)

  -- for addr, old in reversed(writes)
  unfoldable pub revert_writes : Uc → WriteLog → Result Uc
  revert_writes uc [] = ok uc
  revert_writes uc ((addr, old) ∷ writes) = do
    uc' ← revert_writes uc writes
    some_or_engine_error (unicorn.mem_write uc' addr old)

  abbrev pub undone :
      Emulator Uc Context
      → Option (List (Context × WriteLog) × (Context × WriteLog))
      → Result (Bool × Emulator Uc Context)
  undone e none = ok (false, e)
  undone e (some (history, (context, writes))) = do
    uc ← revert_writes (unicorn.context_restore e.uc context) writes
    ok (true, record e { history = history; uc = uc })

  unfoldable pub step_back : Emulator Uc Context → Result (Bool × Emulator Uc Context)
  unfolding pop_last revert_writes
  step_back e = undone e (pop_last e.history)

  -- Until the PC is `addr` or a step faults, for `max_steps` steps at most: the results, and the
  -- emulator when the generator returns.
  unfoldable pub step_until :
      ℕ → Emulator Uc Context → ℕ → Result (List StepResult × Emulator Uc Context)
  unfolding step pc
  step_until zero e addr = ok ([], e)
  step_until (suc n) e addr = do
    (res, e') ← step e
    let stop = ok (res ∷ [], e')
    let go = (do (rest, e'') ← step_until n e' addr; ok (res ∷ rest, e''))
    if not res.success then stop else (do now ← pc e'; if now == addr then stop else go)

  unfoldable pub written_ranges : Emulator Uc Context → List Span
  unfolding coalesce
  written_ranges e = coalesce e.written
