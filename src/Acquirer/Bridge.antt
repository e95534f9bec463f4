-- ===== src/Acquirer/Bridge.antt =====
-- memslicer/acquirer/bridge.py: what a debugger reports, and the names of registers. Register names
-- are ASCII, so `lower` folds the ASCII letters.
pub mod Laws
use memslicer.Prelude.{
  ℕ, ◌+◌, Bool, ◌&&◌, Option, none, some, List, [], ◌∷◌, leb, one_of, same_text, starts_with, map,
  if◌then◌else◌,
}
use memslicer.Utils.{Text}
use memslicer.Msl.Constants.{
  ArchType, x86, x86_64, arm64, arm32, mips32, riscv32, ppc32, OsType, windows, linux, macos, ios,
  android, freebsd,
}

pub record PlatformInfo : Type 0 where
  pub arch : ArchType
  pub os : OsType
  pub pid : ℕ
  pub page_size : ℕ

pub record MemoryRange : Type 0 where
  pub base : ℕ
  pub size : ℕ
  pub protection : Text
  pub file_path : Text

pub record ModuleInfo : Type 0 where
  pub name : Text
  pub path : Text
  pub base : ℕ
  pub size : ℕ

pub record RegisterValue : Type 0 where
  pub name : Text
  pub value : ℕ
  pub size : ℕ
  pub role : Text

pub record ThreadInfo : Type 0 where
  pub tid : ℕ
  pub registers : List RegisterValue
  pub name : Text
  pub is_current : Bool
  pub state : ℕ
  pub suspended : Bool
  pub partial : Bool

-- str.lower
unfoldable pub lower_char : ℕ → ℕ
lower_char c = if leb 65 c && leb c 90 then c + 32 else c

unfoldable pub lower : Text → Text
unfolding lower_char
lower s = map lower_char s

-- _CANONICAL_NAMES.get(arch, {}).get(n, n)
unfoldable pub canonical_of : ArchType → Text → Text
canonical_of x86_64 n =
    if same_text n (b'e' ∷ b'f' ∷ b'l' ∷ b'a' ∷ b'g' ∷ b's' ∷ [])
    then (b'r' ∷ b'f' ∷ b'l' ∷ b'a' ∷ b'g' ∷ b's' ∷ [])
    else n
canonical_of arm64 n =
    if same_text n (b'f' ∷ b'p' ∷ [])
    then (b'x' ∷ b'2' ∷ b'9' ∷ [])
    else if same_text n (b'l' ∷ b'r' ∷ [])
    then (b'x' ∷ b'3' ∷ b'0' ∷ [])
    else if same_text n (b'c' ∷ b'p' ∷ b's' ∷ b'r' ∷ [])
    then (b'p' ∷ b's' ∷ b't' ∷ b'a' ∷ b't' ∷ b'e' ∷ [])
    else if same_text n (b't' ∷ b'p' ∷ b'i' ∷ b'd' ∷ b'r' ∷ [])
    then (b't' ∷ b'p' ∷ b'i' ∷ b'd' ∷ b'r' ∷ b'_' ∷ b'e' ∷ b'l' ∷ b'0' ∷ [])
    else n
canonical_of arm32 n =
    if same_text n (b'r' ∷ b'1' ∷ b'3' ∷ [])
    then (b's' ∷ b'p' ∷ [])
    else if same_text n (b'r' ∷ b'1' ∷ b'4' ∷ [])
    then (b'l' ∷ b'r' ∷ [])
    else if same_text n (b'r' ∷ b'1' ∷ b'5' ∷ [])
    then (b'p' ∷ b'c' ∷ [])
    else n
canonical_of _ n = n

unfoldable pub canonical_register_name : Text → ArchType → Text
unfolding lower canonical_of
canonical_register_name name arch = canonical_of arch (lower name)

abbrev pub pc_names : List Text
pc_names = (b'r' ∷ b'i' ∷ b'p' ∷ []) ∷ (b'e' ∷ b'i' ∷ b'p' ∷ []) ∷ (b'p' ∷ b'c' ∷ []) ∷ []

abbrev pub sp_names : List Text
sp_names = (b'r' ∷ b's' ∷ b'p' ∷ []) ∷ (b'e' ∷ b's' ∷ b'p' ∷ []) ∷ (b's' ∷ b'p' ∷ []) ∷ []

abbrev pub fp_names : List Text
fp_names = (b'r' ∷ b'b' ∷ b'p' ∷ []) ∷ (b'e' ∷ b'b' ∷ b'p' ∷ []) ∷ (b'x' ∷ b'2' ∷ b'9' ∷ []) ∷ []

abbrev pub flags_names : List Text
flags_names =
    (b'r' ∷ b'f' ∷ b'l' ∷ b'a' ∷ b'g' ∷ b's' ∷ [])
    ∷ (b'e' ∷ b'f' ∷ b'l' ∷ b'a' ∷ b'g' ∷ b's' ∷ [])
    ∷ (b'c' ∷ b'p' ∷ b's' ∷ b'r' ∷ [])
    ∷ (b'p' ∷ b's' ∷ b't' ∷ b'a' ∷ b't' ∷ b'e' ∷ [])
    ∷ (b'n' ∷ b'z' ∷ b'c' ∷ b'v' ∷ [])
    ∷ []

abbrev pub lr_names : List Text
lr_names = (b'x' ∷ b'3' ∷ b'0' ∷ []) ∷ (b'l' ∷ b'r' ∷ []) ∷ []

-- _TLS_NAMES.get((arch, os))
unfoldable pub tls_name : ArchType → OsType → Option Text
tls_name x86_64 windows = some (b'g' ∷ b's' ∷ b'_' ∷ b'b' ∷ b'a' ∷ b's' ∷ b'e' ∷ [])
tls_name x86_64 macos = some (b'g' ∷ b's' ∷ b'_' ∷ b'b' ∷ b'a' ∷ b's' ∷ b'e' ∷ [])
tls_name x86_64 linux = some (b'f' ∷ b's' ∷ b'_' ∷ b'b' ∷ b'a' ∷ b's' ∷ b'e' ∷ [])
tls_name x86_64 android = some (b'f' ∷ b's' ∷ b'_' ∷ b'b' ∷ b'a' ∷ b's' ∷ b'e' ∷ [])
tls_name x86_64 freebsd = some (b'f' ∷ b's' ∷ b'_' ∷ b'b' ∷ b'a' ∷ b's' ∷ b'e' ∷ [])
tls_name x86 windows = some (b'f' ∷ b's' ∷ b'_' ∷ b'b' ∷ b'a' ∷ b's' ∷ b'e' ∷ [])
tls_name x86 linux = some (b'g' ∷ b's' ∷ b'_' ∷ b'b' ∷ b'a' ∷ b's' ∷ b'e' ∷ [])
tls_name x86 android = some (b'g' ∷ b's' ∷ b'_' ∷ b'b' ∷ b'a' ∷ b's' ∷ b'e' ∷ [])
tls_name arm64 windows = some (b'x' ∷ b'1' ∷ b'8' ∷ [])
tls_name arm64 macos =
    some (b't' ∷ b'p' ∷ b'i' ∷ b'd' ∷ b'r' ∷ b'r' ∷ b'o' ∷ b'_' ∷ b'e' ∷ b'l' ∷ b'0' ∷ [])
tls_name arm64 ios =
    some (b't' ∷ b'p' ∷ b'i' ∷ b'd' ∷ b'r' ∷ b'r' ∷ b'o' ∷ b'_' ∷ b'e' ∷ b'l' ∷ b'0' ∷ [])
tls_name arm64 linux = some (b't' ∷ b'p' ∷ b'i' ∷ b'd' ∷ b'r' ∷ b'_' ∷ b'e' ∷ b'l' ∷ b'0' ∷ [])
tls_name arm64 android = some (b't' ∷ b'p' ∷ b'i' ∷ b'd' ∷ b'r' ∷ b'_' ∷ b'e' ∷ b'l' ∷ b'0' ∷ [])
tls_name arm64 freebsd = some (b't' ∷ b'p' ∷ b'i' ∷ b'd' ∷ b'r' ∷ b'_' ∷ b'e' ∷ b'l' ∷ b'0' ∷ [])
tls_name arm32 linux = some (b't' ∷ b'p' ∷ b'i' ∷ b'd' ∷ b'r' ∷ b'u' ∷ b'r' ∷ b'o' ∷ [])
tls_name arm32 android = some (b't' ∷ b'p' ∷ b'i' ∷ b'd' ∷ b'r' ∷ b'u' ∷ b'r' ∷ b'o' ∷ [])
tls_name _ _ = none

abbrev tls_role : Text → Option Text → Text
tls_role n none = []
tls_role n (some name) = if same_text n name then (b't' ∷ b'l' ∷ b's' ∷ []) else []

-- Called with an architecture and a system, as `make_register` does.
unfoldable pub register_role : Text → ArchType → OsType → Text
unfolding lower tls_name
register_role name arch os =
    let n = lower name in
    if one_of n pc_names
    then (b'p' ∷ b'c' ∷ [])
    else if one_of n sp_names
    then (b's' ∷ b'p' ∷ [])
    else if one_of n fp_names
    then (b'f' ∷ b'p' ∷ [])
    else if one_of n flags_names
    then (b'f' ∷ b'l' ∷ b'a' ∷ b'g' ∷ b's' ∷ [])
    else if one_of n lr_names
    then (b'l' ∷ b'r' ∷ [])
    else tls_role n (tls_name arch os)

unfoldable pub make_register : Text → ℕ → ℕ → ArchType → OsType → RegisterValue
unfolding canonical_register_name register_role
make_register name value size arch os =
    let canon = canonical_register_name name arch in
    record { name = canon; value = value; size = size; role = register_role canon arch os }

unfoldable pub register_width_bytes : ArchType → ℕ
register_width_bytes x86 = 4
register_width_bytes arm32 = 4
register_width_bytes mips32 = 4
register_width_bytes riscv32 = 4
register_width_bytes ppc32 = 4
register_width_bytes _ = 8

unfoldable pub vector_register_width : Text → ℕ
unfolding lower
vector_register_width name =
    let n = lower name in
    if starts_with n (b'z' ∷ b'm' ∷ b'm' ∷ [])
    then 64
    else if starts_with n (b'y' ∷ b'm' ∷ b'm' ∷ [])
    then 32
    else if starts_with n (b'x' ∷ b'm' ∷ b'm' ∷ [])
    then 16
    else 0
