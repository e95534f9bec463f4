-- ===== src/Utils/Laws.antt =====
-- Padding to eight bytes, and the round trip of protection strings.
use memslicer.Prelude.{
  ℕ, zero, suc, ◌+◌, ◌-◌, ◌%◌, ◌<◌, ◌≤◌, ◌≡◌, refl, [], ◌∷◌, length, replicate, length-append,
  length-replicate, arith,
}
use memslicer.Bytes.{Bytes}
use memslicer.Utils.{
  Text, pad8, pad_bytes, nul_terminated, encode_string, parse_protection, format_protection,
}

-- `pad8 n` is the least multiple of 8 that is not below n.
pub pad8_least :
    (n : ℕ) → (n ≤ pad8 n) × (pad8 n % 8 ≡ 0) × ((m : ℕ) → n ≤ m → m % 8 ≡ 0 → pad8 n ≤ m)
unfolding pad8
pad8_least n = (omega arith, omega arith, λ m h e. omega arith)

pub pad8-add_pad8 : (n m : ℕ) → m % 8 ≡ 0 → pad8 (n + m) ≡ pad8 n + m
unfolding pad8
pad8-add_pad8 n m h = omega arith

pub pad8_self : (n : ℕ) → n % 8 ≡ 0 → pad8 n ≡ n
unfolding pad8
pad8_self n h = omega arith

pub length-pad_bytes : (b : Bytes) → length (pad_bytes b) ≡ pad8 (length b)
unfolding pad_bytes
length-pad_bytes b = omega (
  arith,
  length-append b (replicate (pad8 (length b) - length b) 0),
  length-replicate (pad8 (length b) - length b) (let z : ℕ = 0 in z),
)

-- The encoding of a text is as long as the text with one NUL, filled to a multiple of eight.
pub length-encode_string : (s : Text) → length (encode_string s) ≡ pad8 (length s + 1)
unfolding encode_string nul_terminated pad8
length-encode_string s =
    omega
      (arith, length-pad_bytes (nul_terminated s), length-append s (let z : Bytes = 0 ∷ [] in z))

-- For protection bits below 8, parsing the three letters that they are written as gives the bits.
pub parse-format_protection :
    (bits : ℕ) → bits < 8 → parse_protection (format_protection bits) ≡ bits
unfolding parse_protection format_protection
parse-format_protection zero h = refl
parse-format_protection (suc zero) h = refl
parse-format_protection (suc (suc zero)) h = refl
parse-format_protection (suc (suc (suc zero))) h = refl
parse-format_protection (suc (suc (suc (suc zero)))) h = refl
parse-format_protection (suc (suc (suc (suc (suc zero))))) h = refl
parse-format_protection (suc (suc (suc (suc (suc (suc zero)))))) h = refl
parse-format_protection (suc (suc (suc (suc (suc (suc (suc zero))))))) h = refl
parse-format_protection (suc (suc (suc (suc (suc (suc (suc (suc n)))))))) h = absurd (omega arith)

-- Whatever the text, the parsed bits are among read, write and execute.
pub parse_protection-lt : (s : Text) → parse_protection s < 8
unfolding parse_protection
parse_protection-lt [] = omega arith
parse_protection-lt (r ∷ []) = ground arith
parse_protection-lt (r ∷ w ∷ []) = ground arith
parse_protection-lt (r ∷ w ∷ x ∷ s) = ground arith
