-- ===== src/Acquirer/Texts.antt =====
-- Python's methods on texts, as lists of code points. `int` and `str.strip` know digits and spaces
-- beyond ASCII; these are the parameters `wide_digit` and `wide_space`.
pub mod Laws
use memslicer.Prelude.{
  ℕ, zero, suc, ◌+◌, ◌-◌, ◌*◌, ◌/◌, ◌%◌, Bool, true, false, not, ◌&&◌, ◌||◌, Option, none, some,
  List, [], ◌∷◌, ◌++◌, length, drop, ◌==◌, ltb, leb, starts_with, if◌then◌else◌, codes,
}
use memslicer.Utils.{Text}

-- sep.join(texts)
unfoldable pub join : Text → List Text → Text
join sep [] = []
join sep (t ∷ []) = t
join sep (t ∷ u ∷ us) = t ++ (sep ++ join sep (u ∷ us))

-- The decimal digits of a number, in front of others; as many rounds as the number are enough.
unfoldable pub decimal_from : ℕ → ℕ → Text → Text
decimal_from zero n digits = digits
decimal_from (suc fuel) n digits =
    let more = decimal_from fuel (n / 10) ((48 + n % 10) ∷ digits) in
    if ltb n 10 then (48 + n) ∷ digits else more

abbrev pub decimal : ℕ → Text
decimal n = decimal_from (suc n) n []

abbrev pub in_front : ℕ → Option (Text × Text) → Option (Text × Text)
in_front c none = none
in_front c (some (before, behind)) = some (c ∷ before, behind)

-- text.partition(sep), where it holds the separator
unfoldable pub partition : Text → Text → Option (Text × Text)
partition [] sep = none
partition (c ∷ cs) sep =
    let rest = in_front c (partition cs sep) in
    if starts_with (c ∷ cs) sep then some ([], drop (length sep) (c ∷ cs)) else rest

abbrev pub onto : ℕ → List Text → List Text
onto c [] = (c ∷ []) ∷ []
onto c (t ∷ ts) = (c ∷ t) ∷ ts

-- text.split(";")
unfoldable pub split_at : ℕ → Text → List Text
split_at sep [] = [] ∷ []
split_at sep (c ∷ cs) = let rest = split_at sep cs in if c == sep then [] ∷ rest else onto c rest

abbrev pub if_word : Text → List Text → List Text
if_word [] ws = ws
if_word (c ∷ cs) ws = (c ∷ cs) ∷ ws

module _ (wide_digit : ℕ → Option ℕ) (wide_space : ℕ → Bool) where
  unfoldable pub is_space_char : ℕ → Bool
  is_space_char c = (leb 9 c && leb c 13) || (leb 28 c && leb c 32) || (leb 128 c && wide_space c)

  -- The value of a digit to the base 16.
  unfoldable pub digit_value : ℕ → Option ℕ
  digit_value c =
      if leb 48 c && leb c 57
      then some (c - 48)
      else if leb 65 c && leb c 70
      then some (c - 55)
      else if leb 97 c && leb c 102
      then some (c - 87)
      else if leb 128 c
      then wide_digit c
      else none

  -- s.lstrip()
  unfoldable pub strip_left : Text → Text
  unfolding is_space_char
  strip_left [] = []
  strip_left (c ∷ cs) = let rest = strip_left cs in if is_space_char c then rest else c ∷ cs

  abbrev pub cons_stripped : ℕ → Text → Text
  cons_stripped c [] = if is_space_char c then [] else c ∷ []
  cons_stripped c (d ∷ ds) = c ∷ d ∷ ds

  -- s.rstrip()
  unfoldable pub strip_right : Text → Text
  unfolding is_space_char
  strip_right [] = []
  strip_right (c ∷ cs) = cons_stripped c (strip_right cs)

  abbrev pub strip : Text → Text
  strip s = strip_left (strip_right s)

  -- line.split(): the words between spaces, where `word` is what is read of one so far
  unfoldable pub words_from : Text → Text → List Text
  unfolding is_space_char
  words_from word [] = if_word word []
  words_from word (c ∷ cs) =
      let ended = if_word word (words_from [] cs) in
      let longer = words_from (word ++ c ∷ []) cs in if is_space_char c then ended else longer

  unfoldable pub split_words : Text → List Text
  unfolding words_from
  split_words line = words_from [] line

  abbrev pub digit_below : ℕ → Option ℕ → Option ℕ
  digit_below base none = none
  digit_below base (some d) = if ltb d base then some d else none

  abbrev pub with_digit : Option ℕ → (ℕ → Option ℕ) → Option ℕ
  with_digit none next = none
  with_digit (some d) next = next d

  -- Digits, with single underscores between them; `last` where a digit came last.
  unfoldable pub digits_from : ℕ → Bool → ℕ → Text → Option ℕ
  unfolding digit_value
  digits_from base last value [] = if last then some value else none
  digits_from base last value (c ∷ cs) =
      let behind = digits_from base false value cs in
      let more =
        with_digit (digit_below base (digit_value c))
          λ d. digits_from base true (value * base + d) cs in
      if c == 95 then (if last then behind else none) else more

  -- "0x" may stand before digits to the base 16, and an underscore behind it.
  abbrev pub behind_prefix : ℕ → Text → Option ℕ
  behind_prefix base [] = none
  behind_prefix base (c ∷ cs) = digits_from base false 0 (if c == 95 then cs else c ∷ cs)

  abbrev pub unsigned : ℕ → Text → Option ℕ
  unsigned base [] = none
  unsigned base (c ∷ []) = digits_from base false 0 (c ∷ [])
  unsigned base (c ∷ d ∷ ds) =
      if base == 16 && c == 48 && (d == 120 || d == 88)
      then behind_prefix base ds
      else digits_from base false 0 (c ∷ d ∷ ds)

  abbrev pub as_signed : Bool → Option ℕ → Option (Bool × ℕ)
  as_signed negative none = none
  as_signed negative (some n) = some (negative && not (n == 0), n)

  abbrev pub signed_text : ℕ → Text → Option (Bool × ℕ)
  signed_text base [] = none
  signed_text base (c ∷ cs) =
      if c == 43
      then as_signed false (unsigned base cs)
      else if c == 45
      then as_signed true (unsigned base cs)
      else as_signed false (unsigned base (c ∷ cs))

  -- int(text, base): whether it is below zero, and how far it is from zero. `none` is a ValueError.
  unfoldable pub parse_int : ℕ → Text → Option (Bool × ℕ)
  unfolding digits_from strip_left strip_right
  parse_int base t = signed_text base (strip t)
