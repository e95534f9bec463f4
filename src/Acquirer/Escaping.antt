-- ===== src/Acquirer/Escaping.antt =====
-- memslicer/acquirer/os_detail.py: the escaped form of a value.
use memslicer.Prelude.{
  ℕ, zero, suc, ◌+◌, ◌*◌, ◌/◌, ◌%◌, Bool, ◌||◌, Option, none, some, [], ◌∷◌, ◌++◌, ◌==◌, ltb,
  if◌then◌else◌, Result, ok, err, value_error, chr_range,
}
use memslicer.Utils.{Text}
use memslicer.Acquirer.Texts.{is_space_char, digit_value}

-- ch in "\x00;=\n|%"
unfoldable pub is_reserved : ℕ → Bool
is_reserved c = c == 0 || c == 59 || c == 61 || c == 10 || c == 124 || c == 37

abbrev pub hex_letter : ℕ → ℕ
hex_letter d = if ltb d 10 then 48 + d else 55 + d

unfoldable pub escape_char : ℕ → Text
unfolding is_reserved
escape_char c =
    if is_reserved c then 37 ∷ hex_letter (c / 16) ∷ hex_letter (c % 16) ∷ [] else c ∷ []

unfoldable pub escape_value : Text → Text
unfolding escape_char
escape_value [] = []
escape_value (c ∷ cs) = escape_char c ++ escape_value cs

-- What `int(hi + lo, 16)` comes to: a ValueError, a number below zero, or a number.
pub data Parsed : Type 0 where
  no_number : Parsed
  below_zero : Parsed
  number : ℕ → Parsed

abbrev pub prepend : ℕ → Result Text → Result Text
prepend c (err x) = err x
prepend c (ok t) = ok (c ∷ t)

module _ (wide_digit : ℕ → Option ℕ) (wide_space : ℕ → Bool) where
  abbrev pub signed : ℕ → Option ℕ → Parsed
  signed c none = no_number
  signed c (some d) =
      if is_space_char wide_digit wide_space c || c == 43
      then number d
      else if c == 45
      then (if d == 0 then number 0 else below_zero)
      else no_number

  abbrev pub spaced : ℕ → ℕ → Parsed
  spaced d c = if is_space_char wide_digit wide_space c then number d else no_number

  abbrev pub two_digits : ℕ → ℕ → Option ℕ → Option ℕ → Parsed
  two_digits hi lo none low = signed hi low
  two_digits hi lo (some h) none = spaced h lo
  two_digits hi lo (some h) (some l) = number (h * 16 + l)

  -- int(hi + lo, 16)
  unfoldable pub parse_hex : ℕ → ℕ → Parsed
  unfolding digit_value is_space_char
  parse_hex hi lo =
      two_digits hi lo (digit_value wide_digit wide_space hi) (digit_value wide_digit wide_space lo)

  -- What stands behind a "%", if two characters do
  abbrev pub parse_behind : Text → Parsed
  parse_behind [] = no_number
  parse_behind (hi ∷ []) = no_number
  parse_behind (hi ∷ lo ∷ rest) = parse_hex hi lo

  -- `chr` refuses a number below zero.
  abbrev pub decode_percent : Parsed → Result Text → Result Text → Result Text
  decode_percent no_number plain decoded = prepend 37 plain
  decode_percent below_zero plain decoded = err (value_error chr_range)
  decode_percent (number n) plain decoded =
      if is_reserved n then prepend n decoded else prepend 37 plain

  -- The loop of _unescape_value, where so many characters are to be passed over.
  unfoldable pub unescape_from : ℕ → Text → Result Text
  unfolding is_reserved parse_hex
  unescape_from skip [] = ok []
  unescape_from (suc skip) (c ∷ cs) = unescape_from skip cs
  unescape_from zero (c ∷ cs) =
      let plain = unescape_from 0 cs in
      let decoded = unescape_from 2 cs in
      if c == 37 then decode_percent (parse_behind cs) plain decoded else prepend c plain

  unfoldable pub unescape_value : Text → Result Text
  unfolding unescape_from
  unescape_value = unescape_from 0
