-- ===== src/Utils/Tests.antt =====
-- Concrete runs of the helpers.
use memslicer.Prelude.{◌<◌, arith}
use memslicer.Utils.Laws.{parse-format_protection, parse_protection-lt}
use memslicer.Prelude.{◌≡◌, refl, [], ◌∷◌}
use memslicer.Utils.{parse_protection, format_protection, pad_bytes}

rwx_read : parse_protection (b'r' ∷ b'w' ∷ b'x' ∷ b'p' ∷ []) ≡ 7
unfolding parse_protection
rwx_read = refl

short_read : parse_protection (b'r' ∷ []) ≡ 1
unfolding parse_protection
short_read = refl

five_written : format_protection 5 ≡ b'r' ∷ b'-' ∷ b'x' ∷ []
unfolding format_protection
five_written = refl

pad_three : pad_bytes (1 ∷ 2 ∷ 3 ∷ []) ≡ 1 ∷ 2 ∷ 3 ∷ 0 ∷ 0 ∷ 0 ∷ 0 ∷ 0 ∷ []
unfolding pad_bytes
pad_three = refl

parse-format_protection_example : parse_protection (format_protection 6) ≡ 6
parse-format_protection_example = parse-format_protection 6 (omega arith)

parse_protection-lt_example : parse_protection (b'r' ∷ b'w' ∷ b'x' ∷ b'p' ∷ []) < 8
parse_protection-lt_example = parse_protection-lt (b'r' ∷ b'w' ∷ b'x' ∷ b'p' ∷ [])
