-- ===== src/Utils.antt =====
-- memslicer/utils: padding.py and protection.py. A Python `str` is the bytes of its UTF-8 encoding,
-- so `s.encode("utf-8")` is the text itself.
pub mod Laws
pub mod Rights
mod Tests
use memslicer.Prelude.{
  ℕ, ◌+◌, ◌-◌, ◌*◌, ◌/◌, ◌<◌, Bool, List, [], ◌∷◌, ◌++◌, length, replicate, bit_and, bit_or, ◌==◌,
  if◌then◌else◌,
}
use memslicer.Bytes.{Bytes}

abbrev pub Text : Type 0
Text = Bytes

-- (n + 7) & ~7
unfoldable pub pad8 : ℕ → ℕ
pad8 n = (n + 7) / 8 * 8

-- data.ljust(pad8(len(data)), b"\x00")
unfoldable pub pad_bytes : Bytes → Bytes
unfolding pad8
pad_bytes b = b ++ replicate (pad8 (length b) - length b) 0

-- s.encode("utf-8") + b"\x00"
unfoldable pub nul_terminated : Text → Bytes
nul_terminated s = s ++ 0 ∷ []

unfoldable pub encode_string : Text → Bytes
encode_string s = pad_bytes (nul_terminated s)

-- bits |= mask, where the character of the string at this place is `c`
abbrev flag_at : ℕ → ℕ → Bytes → ℕ → ℕ
flag_at c mask [] bits = bits
flag_at c mask (x ∷ xs) bits = if x == c then bit_or bits mask else bits

abbrev tail : Bytes → Bytes
tail [] = []
tail (x ∷ xs) = xs

unfoldable pub parse_protection : Text → ℕ
parse_protection s = flag_at b'x' 4 (tail (tail s)) (flag_at b'w' 2 (tail s) (flag_at b'r' 1 s 0))

-- The letter where the bit is set, "-" where it is not.
abbrev letter : ℕ → ℕ → ℕ → ℕ
letter bits mask c = if bit_and bits mask == 0 then b'-' else c

unfoldable pub format_protection : ℕ → Text
format_protection bits = letter bits 1 b'r' ∷ letter bits 2 b'w' ∷ letter bits 4 b'x' ∷ []

abbrev pub prot_r : ℕ
prot_r = 1

abbrev pub prot_w : ℕ
prot_w = 2

abbrev pub prot_x : ℕ
prot_x = 4

abbrev pub prot_rwx : ℕ
prot_rwx = 7

unfoldable pub is_rwx : ℕ → Bool
is_rwx bits = bit_and bits prot_rwx == prot_rwx
