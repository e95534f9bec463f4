-- ===== src/Acquirer/Projections/Laws.antt =====
-- Hexadecimal text comes back as its bytes, and hashes have their length or are left out.
use memslicer.Prelude.{
  ℕ, ◌+◌, ◌*◌, ◌/◌, ◌%◌, ◌<◌, ◌≡◌, refl, false, none, some, [], ◌∷◌, length, ltb, ◌==◌, All,
  if◌then◌else◌, arith,
}
use memslicer.Bytes.{Bytes, IsByte}
use memslicer.Utils.{Text}
use memslicer.Acquirer.Projections.{hex_value, is_space, from_hex, hex_to_bytes}

-- The lower-case digit of a number below sixteen
abbrev pub digit : ℕ → ℕ
digit n = if ltb n 10 then n + 48 else n + 87

-- bytes.hex
abbrev pub to_hex : Bytes → Text
to_hex [] = []
to_hex (b ∷ bs) = digit (b / 16) ∷ digit (b % 16) ∷ to_hex bs

hex_value-digit : (n : ℕ) → n < 16 → hex_value (digit n) ≡ some n
unfolding hex_value
hex_value-digit n h = ground arith

is_space-digit : (n : ℕ) → n < 16 → is_space (digit n) ≡ false
unfolding is_space
is_space-digit n h = ground arith

from_hex-to_hex : (b : Bytes) → All IsByte b → from_hex (to_hex b) ≡ some b
unfolding from_hex
from_hex-to_hex [] h = refl
from_hex-to_hex (x ∷ b) (hx, h) =
    let high : x / 16 < 16 = omega arith in
    let low : x % 16 < 16 = omega arith in
    let whole : x / 16 * 16 + x % 16 ≡ x = omega arith in
    rw
      (
        is_space-digit (x / 16) high,
        hex_value-digit (x / 16) high,
        hex_value-digit (x % 16) low,
        from_hex-to_hex b h,
        whole,
      )
      refl

-- Bytes written as hexadecimal text are read back, and where a length is expected that they do not
-- have, nothing is.
pub hex_to_bytes-to_hex :
    (b : Bytes) (n : ℕ)
    → All IsByte b
    → (hex_to_bytes (to_hex b) none ≡ b)
      × (hex_to_bytes (to_hex b) (some n) ≡ (if length b == n then b else []))
unfolding hex_to_bytes
hex_to_bytes-to_hex b n h = (rw (from_hex-to_hex b h) refl, rw (from_hex-to_hex b h) refl)
