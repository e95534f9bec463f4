-- ===== src/Emu/Engine/Arch.antt =====
-- memslicer/emu/engine.py: the table of architectures, less the constants of the packages.
use memslicer.Prelude.{
  codes, ℕ, zero, suc, ◌+◌, ◌-◌, ◌*◌, ◌/◌, Option, none, some, List, [], ◌∷◌, ◌++◌, ltb,
  if◌then◌else◌,
}
use memslicer.Utils.{Text}
use memslicer.Msl.Constants.{ArchType, x86, x86_64, arm64, arm32}

-- A row of the table of architectures, without the constants of the packages.
pub record ArchRow : Type 0 where
  pub bits : ℕ
  pub pc_name : Text
  pub sp_name : Text
  pub gpr_names : List Text

abbrev digit : ℕ → ℕ
digit n = b'0' + n

-- f"{prefix}{i}" for a number below 100
unfoldable pub numbered : Text → ℕ → Text
numbered prefix i =
    if ltb i 10
    then prefix ++ digit i ∷ []
    else prefix ++ digit (i / 10) ∷ digit (i - i / 10 * 10) ∷ []

-- [f"{prefix}{i}" for i in range(n)], from i on
unfoldable pub numbered_from : Text → ℕ → ℕ → List Text
unfolding numbered
numbered_from prefix i zero = []
numbered_from prefix i (suc n) = numbered prefix i ∷ numbered_from prefix (i + 1) n

-- _arch_table
unfoldable pub arch_row : ArchType → Option ArchRow
unfolding numbered_from
arch_row x86_64 = some (record {
  bits = 64;
  pc_name = (codes "rip");
  sp_name = (codes "rsp");
  gpr_names =
      (codes "rax")
      ∷ (codes "rbx")
      ∷ (codes "rcx")
      ∷ (codes "rdx")
      ∷ (codes "rsi")
      ∷ (codes "rdi")
      ∷ (codes "rbp")
      ∷ (codes "rsp")
      ∷ (codes "r8")
      ∷ (codes "r9")
      ∷ (codes "r10")
      ∷ (codes "r11")
      ∷ (codes "r12")
      ∷ (codes "r13")
      ∷ (codes "r14")
      ∷ (codes "r15")
      ∷ (codes "rip")
      ∷ (codes "rflags")
      ∷ [];
})
arch_row x86 = some (record {
  bits = 32;
  pc_name = (codes "eip");
  sp_name = (codes "esp");
  gpr_names =
      (codes "eax")
      ∷ (codes "ebx")
      ∷ (codes "ecx")
      ∷ (codes "edx")
      ∷ (codes "esi")
      ∷ (codes "edi")
      ∷ (codes "ebp")
      ∷ (codes "esp")
      ∷ (codes "eip")
      ∷ (codes "eflags")
      ∷ [];
})
arch_row arm64 = some (record {
  bits = 64;
  pc_name = (codes "pc");
  sp_name = (codes "sp");
  gpr_names = numbered_from (codes "x") 0 31 ++ (codes "sp") ∷ (codes "pc") ∷ (codes "pstate") ∷ [];
})
arch_row arm32 = some (record {
  bits = 32;
  pc_name = (codes "pc");
  sp_name = (codes "sp");
  gpr_names =
      numbered_from (codes "r") 0 13
      ++ (codes "sp") ∷ (codes "lr") ∷ (codes "pc") ∷ (codes "cpsr") ∷ [];
})
arch_row _ = none
