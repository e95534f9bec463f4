-- ===== src/Acquirer/Threads.antt =====
-- memslicer/acquirer/engine.py, `_build_thread_contexts`: the threads of a debugger as blocks.
pub mod Current
use memslicer.Prelude.{
  ℕ, ◌+◌, ◌*◌, ◌%◌, ◌^◌, Bool, true, false, not, ◌&&◌, List, [], ◌∷◌, map, any_of, bit_and, bit_or,
  ◌==◌, same_text, if◌then◌else◌,
}
use memslicer.Bytes.{Bytes, to_le}
use memslicer.Utils.{Text}
use memslicer.Msl.Constants.{
  ThreadState, thread_state_of_code, thread_flag_current, thread_flag_suspended,
  thread_flag_partial, reg_flag_pc, reg_flag_sp, reg_flag_fp, reg_flag_flags, reg_flag_tls,
  reg_flag_lr,
}
use memslicer.Msl.Types.{ThreadContext, ThreadRegister}
use memslicer.Acquirer.Bridge.{RegisterValue, ThreadInfo}

-- _REG_ROLE_FLAG.get(role, 0)
unfoldable pub role_flag : Text → ℕ
role_flag role =
    if same_text role (b'p' ∷ b'c' ∷ [])
    then reg_flag_pc
    else if same_text role (b's' ∷ b'p' ∷ [])
    then reg_flag_sp
    else if same_text role (b'f' ∷ b'p' ∷ [])
    then reg_flag_fp
    else if same_text role (b'f' ∷ b'l' ∷ b'a' ∷ b'g' ∷ b's' ∷ [])
    then reg_flag_flags
    else if same_text role (b't' ∷ b'l' ∷ b's' ∷ [])
    then reg_flag_tls
    else if same_text role (b'l' ∷ b'r' ∷ [])
    then reg_flag_lr
    else 0

-- A value that is not negative is masked to its width, so `to_bytes` does not raise.
unfoldable pub thread_register : RegisterValue → ThreadRegister
unfolding role_flag to_le
thread_register rv =
    let width = if rv.size == 0 then 8 else rv.size in
    record {
      name = rv.name;
      value = to_le width (rv.value % 2 ^ (width * 8));
      flags = role_flag rv.role;
    }

unfoldable pub thread_flags : ThreadInfo → ℕ
thread_flags t =
    let flags = if t.is_current then thread_flag_current else 0 in
    let stopped = if t.suspended then bit_or flags thread_flag_suspended else flags in
    if t.partial then bit_or stopped thread_flag_partial else stopped

unfoldable pub thread_context_of : ThreadInfo → ThreadContext
unfolding thread_register thread_flags thread_state_of_code
thread_context_of t = record {
  thread_id = t.tid;
  start_time_ns = 0;
  flags = thread_flags t;
  state = thread_state_of_code t.state;
  arch = 0;
  name = t.name;
  registers = map thread_register t.registers;
}

unfoldable pub has_registers : ThreadContext → Bool
has_registers c = elim c.registers [ [] ↦ false | ◌∷◌ r rs ↦ true ]

unfoldable pub is_marked : ThreadContext → Bool
is_marked c = not (bit_and c.flags thread_flag_current == 0)

-- with_regs = [c for c in contexts if c.registers]
unfoldable pub with_registers : List ThreadContext → List ThreadContext
unfolding has_registers
with_registers [] = []
with_registers (c ∷ cs) = if has_registers c then c ∷ with_registers cs else with_registers cs

-- with_regs[0].flags |= THREAD_FLAG_CURRENT, where the context is one of `contexts`
unfoldable pub mark_first : List ThreadContext → List ThreadContext
unfolding has_registers
mark_first [] = []
mark_first (c ∷ cs) =
    let rest = mark_first cs in
    if has_registers c
    then record c { flags = bit_or c.flags thread_flag_current } ∷ cs
    else c ∷ rest

unfoldable pub build_thread_contexts : List ThreadInfo → List ThreadContext
unfolding thread_context_of is_marked with_registers mark_first
build_thread_contexts threads =
    let contexts = map thread_context_of threads in
    if any_of is_marked (with_registers contexts) then contexts else mark_first contexts
