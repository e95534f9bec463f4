-- ===== src/Acquirer/OsDetail/Escape.antt =====
-- Values in their escaped form, and back.
use memslicer.Prelude.{
  ℕ, ◌≡◌, ◌⊎◌, inl, inr, refl, Bool, true, false, ◌||◌, Option, [], ◌∷◌, ◌++◌, ◌==◌, Result, ok,
  Bool-cases, arith,
}
use memslicer.Utils.{Text}
use memslicer.Acquirer.Escaping.{
  is_reserved, escape_char, escape_value, parse_hex, unescape_from, unescape_value,
}
use memslicer.Acquirer.Texts.{digit_value, is_space_char}

pub or_true : (a b : Bool) → (a || b) ≡ true → (a ≡ true) ⊎ (b ≡ true)
or_true true b h = inl refl
or_true false b h = inr h

reserved_cases :
    (c : ℕ) → is_reserved c ≡ true → (c ≡ 0) ⊎ (c ≡ 59) ⊎ (c ≡ 61) ⊎ (c ≡ 10) ⊎ (c ≡ 124) ⊎ (c ≡ 37)
unfolding is_reserved
reserved_cases c h = elim (or_true _ (c == 37) h) [
  | inr e ↦ inr (inr (inr (inr (inr (ground arith)))))
  | inl h0 ↦ elim (or_true _ (c == 124) h0) [
    | inr e ↦ inr (inr (inr (inr (inl (ground arith)))))
    | inl h1 ↦ elim (or_true _ (c == 10) h1) [
      | inr e ↦ inr (inr (inr (inl (ground arith))))
      | inl h2 ↦ elim (or_true _ (c == 61) h2) [
        | inr e ↦ inr (inr (inl (ground arith)))
        | inl h3 ↦ elim (or_true (c == 0) (c == 59) h3) [
          | inr e ↦ inr (inl (ground arith))
          | inl e ↦ inl (ground arith)
        ]
      ]
    ]
  ]
]

not_percent : (c : ℕ) → is_reserved c ≡ false → (c == 37) ≡ false
unfolding is_reserved
not_percent c h = ground arith

module _ (wide_digit : ℕ → Option ℕ) (wide_space : ℕ → Bool) where
  abbrev unescape : ℕ → Text → Result Text
  unescape = unescape_from wide_digit wide_space

  abbrev IsRestored : ℕ → Text → Text → Type 0
  IsRestored c behind text = unescape 0 (escape_char c ++ behind) ≡ ok (c ∷ text)

  -- An escaped character in front of what is read back.
  unescape-reserved :
      (c : ℕ) (behind text : Text)
      → unescape 0 behind ≡ ok text
      → is_reserved c ≡ true
      → IsRestored c behind text
  unfolding unescape_from escape_char is_reserved parse_hex digit_value is_space_char
  unescape-reserved c behind text h q = elim (reserved_cases c q) [
    | inl e ↦ rw (e, h) refl
    | inr (inl e) ↦ rw (e, h) refl
    | inr (inr (inl e)) ↦ rw (e, h) refl
    | inr (inr (inr (inl e))) ↦ rw (e, h) refl
    | inr (inr (inr (inr (inl e)))) ↦ rw (e, h) refl
    | inr (inr (inr (inr (inr e)))) ↦ rw (e, h) refl
  ]

  unescape-plain :
      (c : ℕ) (behind text : Text)
      → unescape 0 behind ≡ ok text
      → is_reserved c ≡ false
      → IsRestored c behind text
  unfolding unescape_from escape_char
  unescape-plain c behind text h q =
      let other : (c == 37) ≡ false = not_percent c q in rw (q, other, h) refl

  unescape-escape : (value : Text) → unescape 0 (escape_value value) ≡ ok value
  unfolding unescape_from escape_value
  unescape-escape [] = refl
  unescape-escape (c ∷ cs) = elim (Bool-cases (is_reserved c)) [
    | inl q ↦ unescape-reserved c (escape_value cs) cs (unescape-escape cs) q
    | inr q ↦ unescape-plain c (escape_value cs) cs (unescape-escape cs) q
  ]

  -- Any text comes back from its escaped form.
  pub unescape_value-escape_value :
      (value : Text) → unescape_value wide_digit wide_space (escape_value value) ≡ ok value
  unfolding unescape_value
  unescape_value-escape_value value = unescape-escape value
