-- ===== src/Acquirer/OsDetail/Budget.antt =====
-- What the limits on the packed text do to it.
use memslicer.Prelude.{
  ℕ, zero, suc, ◌+◌, ◌-◌, ◌≤◌, ◌≡◌, ◌⊎◌, inl, inr, refl, ap, ◌∙◌, Bool, true, Option, none, some,
  [], ◌∷◌, ◌++◌, length, All, ltb, leb, codes, if◌then◌else◌, Bool-cases, Option-cases, arith,
}
use memslicer.Utils.{Text}
use memslicer.Acquirer.OsDetail.{
  render, utf8_length, cut_utf8, is_provenance, dropped, drop_one, drop_pairs, cap, pack_with,
  pack_os_detail,
}
use memslicer.Acquirer.Collected.{Fields, Pairs}

utf8_length-append : (s t : Text) → utf8_length (s ++ t) ≡ utf8_length s + utf8_length t
unfolding utf8_length
utf8_length-append [] t = omega arith
utf8_length-append (c ∷ cs) t = omega (arith, utf8_length-append cs t)

cut_utf8_le : (n : ℕ) (t : Text) → utf8_length (cut_utf8 n t) ≤ n
unfolding cut_utf8 utf8_length
cut_utf8_le n [] = omega arith
cut_utf8_le n (c ∷ cs) =
    let width : ℕ = utf8_length (c ∷ []) in
    let rest = cut_utf8_le (n - width) cs in
    elim (Bool-cases (leb width n)) [ inl q ↦ rw q (ground arith) | inr q ↦ rw q (omega arith) ]

mark_length : utf8_length (codes ";truncated=hard") ≡ 15
unfolding utf8_length
mark_length = refl

utf8_length-cap : (hard : ℕ) (t : Text) → 16 ≤ hard → utf8_length (cap hard t) ≤ hard
unfolding cap
utf8_length-cap hard t room = elim (Bool-cases (ltb hard (utf8_length t))) [
  | inr q ↦ rw q (ground arith)
  | inl q ↦
      let cut = cut_utf8_le (hard - 16) t in
      let mark = mark_length in
      rw q (omega (arith, utf8_length-append (cut_utf8 (hard - 16) t) (codes ";truncated=hard")))
]

-- The pairs with a key of provenance.
abbrev pub provenance_of : Pairs → Pairs
provenance_of [] = []
provenance_of (p ∷ ps) = let rest = provenance_of ps in if is_provenance p then p ∷ rest else rest

-- Every pair has a key of provenance.
abbrev pub NoneDroppable : Pairs → Type 0
NoneDroppable ps = All (λ p. is_provenance p ≡ true) ps

dropped-none :
    (p : Text × Text) (ps : Pairs) (o : Option Pairs)
    → dropped p ps o ≡ none
    → (is_provenance p ≡ true) × (o ≡ none)
dropped-none p ps (some rest) h = cc
dropped-none p ps none h = elim (Bool-cases (is_provenance p)) [
  | inl q ↦ (q, refl)
  | inr q ↦ let some_none : some ps ≡ none = rw q at h in cc
]

drop_one-none : (ps : Pairs) → drop_one ps ≡ none → NoneDroppable ps
unfolding drop_one
drop_one-none [] h = tt
drop_one-none (p ∷ ps) h =
    let (here, later) = dropped-none p ps (drop_one ps) h in (here, drop_one-none ps later)

-- One pair fewer, and each pair of provenance.
abbrev IsOneLess : Pairs → Option Pairs → Type 0
IsOneLess ps none = Unit {0}
IsOneLess ps (some qs) = (provenance_of qs ≡ provenance_of ps) × (suc (length qs) ≡ length ps)

IsOneLess-dropped :
    (p : Text × Text) (ps : Pairs) (o : Option Pairs)
    → IsOneLess ps o
    → IsOneLess (p ∷ ps) (dropped p ps o)
IsOneLess-dropped p ps (some rest) (same, less) = elim (Bool-cases (is_provenance p)) [
  | inl q ↦ rw q (ap (λ (l : Pairs). p ∷ l) same, ap suc less)
  | inr q ↦ rw q (same, ap suc less)
]
IsOneLess-dropped p ps none h = elim (Bool-cases (is_provenance p)) [
  | inl q ↦ rw q tt
  | inr q ↦ rw q (rw q refl, refl)
]

drop_one-IsOneLess : (ps : Pairs) → IsOneLess ps (drop_one ps)
unfolding drop_one
drop_one-IsOneLess [] = tt
drop_one-IsOneLess (p ∷ ps) = IsOneLess-dropped p ps (drop_one ps) (drop_one-IsOneLess ps)

module _ (wide_digit : ℕ → Option ℕ) (wide_space : ℕ → Bool) where
  -- The pairs fit the budget, or none of them may be dropped.
  abbrev pub IsFitted : Text → ℕ → Pairs → Type 0
  IsFitted prefix budget ps =
      (utf8_length (render wide_digit wide_space prefix ps) ≤ budget) ⊎ NoneDroppable ps

  drop_pairs-fuel :
      (fuel : ℕ) (prefix : Text) (budget : ℕ) (ps : Pairs)
      → length ps ≤ fuel
      → IsFitted prefix budget (drop_pairs wide_digit wide_space fuel prefix budget ps)
        × (provenance_of (drop_pairs wide_digit wide_space fuel prefix budget ps)
            ≡ provenance_of ps)
  unfolding drop_pairs
  drop_pairs-fuel zero prefix budget [] le = (inr tt, refl)
  drop_pairs-fuel zero prefix budget (p ∷ ps) le = absurd (omega arith)
  drop_pairs-fuel (suc fuel) prefix budget ps le =
      elim (Bool-cases (ltb budget (utf8_length (render wide_digit wide_space prefix ps)))) [
        | inr q ↦ rw q (inl (ground arith), refl)
        | inl q ↦
            let less = drop_one-IsOneLess ps in
            elim (Option-cases (drop_one ps)) [
              | inl e ↦ rw (q, e) (inr (drop_one-none ps e), refl)
              | inr (rest, e) ↦
                  let (same, one) = rw e at less in
                  let (fitted, kept) = drop_pairs-fuel fuel prefix budget rest (omega arith) in
                  rw (q, e) (fitted, kept ∙ same)
            ]
      ]

  -- The loop that drops pairs ends, with as many rounds as there are pairs, in pairs that fit the
  -- budget or of which none may be dropped; and it drops no pair with a key of provenance.
  pub drop_pairs-IsFitted :
      (prefix : Text) (budget : ℕ) (ps : Pairs)
      → IsFitted prefix budget (drop_pairs wide_digit wide_space (length ps) prefix budget ps)
        × (provenance_of (drop_pairs wide_digit wide_space (length ps) prefix budget ps)
            ≡ provenance_of ps)
  drop_pairs-IsFitted prefix budget ps = drop_pairs-fuel (length ps) prefix budget ps (omega arith)

  -- The packed text is never longer, in UTF-8, than a hard cap of at least 16 bytes.
  pub utf8_length-pack_os_detail :
      (fields : Fields) (human_prefix : Option Text) (hard soft : ℕ)
      → 16 ≤ hard
      → utf8_length (pack_os_detail wide_digit wide_space fields human_prefix hard soft) ≤ hard
  unfolding pack_os_detail pack_with
  utf8_length-pack_os_detail fields human_prefix hard soft room = utf8_length-cap hard _ room
