-- ===== src/Acquirer/OsDetail/Delimited.antt =====
-- That keys and escaped values hold no delimiter of the format of os_detail.
use memslicer.Prelude.{
  and_true, ℕ, ◌/◌, ◌%◌, ◌≡◌, inl, inr, refl, ap, ◌∙◌, Bool, true, false, ◌&&◌, none, some, [], ◌∷◌,
  ◌++◌, All, ◌==◌, starts_with, same_text, Dict, dict_put, Bool-cases, arith,
}
use memslicer.Utils.{Text}
use memslicer.Acquirer.OsDetail.{delimiter}
use memslicer.Acquirer.Collected.{all_key_chars, is_key_char, valid_key, Pairs}
use memslicer.Acquirer.Escaping.{is_reserved, escape_char, escape_value, hex_letter}
use memslicer.Acquirer.Texts.Laws.{Lacks, Lacks-append}
use memslicer.Acquirer.Texts.{partition}

and_false : (a : Bool) → (a && false) ≡ false
and_false true = refl
and_false false = refl

-- The delimiter starts nowhere in a prefix without a bar.
bar_not_next :
    (prefix behind : Text)
    → Lacks 124 prefix
    → starts_with (prefix ++ 32 ∷ behind) (124 ∷ 32 ∷ []) ≡ false
bar_not_next [] behind h = refl
bar_not_next (c ∷ cs) behind (first, h) = rw first refl

-- A key has none of the characters that divide pairs, and no space.
pub key_Lacks :
    (k : Text) (c : ℕ)
    → ((d : ℕ) → is_key_char d ≡ true → (d == c) ≡ false)
    → all_key_chars k ≡ true
    → Lacks c k
key_Lacks [] c never h = tt
key_Lacks (d ∷ ds) c never h =
    let (here, later) = and_true (is_key_char d) (all_key_chars ds) h in
    (never d here, key_Lacks ds c never later)

pub key_not_semicolon : (d : ℕ) → is_key_char d ≡ true → (d == 59) ≡ false
key_not_semicolon d h = ground arith

pub key_not_equals : (d : ℕ) → is_key_char d ≡ true → (d == 61) ≡ false
key_not_equals d h = ground arith

digit_not_semicolon : (d : ℕ) → (hex_letter d == 59) ≡ false
digit_not_semicolon d = ground arith

plain_not_semicolon : (c : ℕ) → is_reserved c ≡ false → (c == 59) ≡ false
unfolding is_reserved
plain_not_semicolon c h = ground arith

escape_char-Lacks : (c : ℕ) → Lacks 59 (escape_char c)
unfolding escape_char
escape_char-Lacks c = elim (Bool-cases (is_reserved c)) [
  | inl q ↦ rw q (refl, (digit_not_semicolon (c / 16), (digit_not_semicolon (c % 16), tt)))
  | inr q ↦ rw q (plain_not_semicolon c q, tt)
]

pub escape_value-Lacks : (v : Text) → Lacks 59 (escape_value v)
unfolding escape_value
escape_value-Lacks [] = tt
escape_value-Lacks (c ∷ cs) =
    Lacks-append 59 (escape_char c) (escape_value cs) (escape_char-Lacks c) (escape_value-Lacks cs)

-- A key that no pair of the dictionary has goes to the end.
abbrev NotIn : Text → Dict Text Text → Type 0
NotIn k d = All (λ item. same_text item.0 k ≡ false) d

pub dict_put-new :
    (d : Dict Text Text) (k v : Text) → NotIn k d → dict_put same_text d k v ≡ d ++ (k, v) ∷ []
dict_put-new [] k v h = refl
dict_put-new ((j, w) ∷ d) k v (first, h) =
    rw first (ap (λ (t : Dict Text Text). (j, w) ∷ t) (dict_put-new d k v h))

-- No pair has the key of one before it, or of one of the dictionary.
abbrev pub IsFresh : Dict Text Text → Pairs → Type 0
IsFresh d [] = Unit {0}
IsFresh d ((k, v) ∷ ps) = NotIn k d × IsFresh (d ++ (k, v) ∷ []) ps

abbrev pub HasKeys : Pairs → Type 0
HasKeys ps = All (λ p. valid_key p.0 ≡ true) ps

pub valid_key-all : (k : Text) → valid_key k ≡ true → all_key_chars k ≡ true
unfolding valid_key
valid_key-all [] h = cc
valid_key-all (c ∷ cs) h = h

pub partition-delimiter :
    (prefix body : Text)
    → Lacks 124 prefix
    → partition (prefix ++ (delimiter ++ body)) delimiter ≡ some (prefix, body)
unfolding partition
partition-delimiter [] body h = refl
partition-delimiter (c ∷ cs) body (first, h) =
    let before : (c == 32 && starts_with (cs ++ (delimiter ++ body)) (124 ∷ 32 ∷ [])) ≡ false =
      ap (λ (b : Bool). c == 32 && b) (bar_not_next cs (124 ∷ 32 ∷ body) h) ∙ and_false (c == 32) in
    rw (before, partition-delimiter cs body h) refl

pub partition-none : (prefix : Text) → Lacks 124 prefix → partition prefix delimiter ≡ none
unfolding partition
partition-none [] h = refl
partition-none (c ∷ []) h = rw (and_false (c == 32)) refl
partition-none (c ∷ d ∷ ds) (first, (second, h)) =
    rw (second, and_false (c == 32), partition-none (d ∷ ds) (second, h)) refl
