-- ===== src/Acquirer/Collectors/Environ/Redacted.antt =====
-- What the redaction leaves of secrets.
use memslicer.Prelude.{
  ℕ, ◌≡◌, ◌⊎◌, inl, inr, refl, sym, ap, false, Option, none, some, List, [], ◌∷◌, ◌++◌, All, ◌==◌,
  ==_iff, Bool-cases, codes,
}
use mathlib.Core.Path.{subst}
use memslicer.Bytes.{Bytes}
use memslicer.Utils.{Text}
use memslicer.Acquirer.Texts.{join, partition, in_front, split_at, onto}
use memslicer.Acquirer.Texts.Laws.{Lacks, Lacks-append, split_at-join, partition-equals}
use memslicer.Acquirer.Collectors.Environ.{is_secret, redact_parts, redact_entries, redact_environ}

-- The pieces of a split lack the separator.
onto-Lacks :
    (sep c : ℕ) (ts : List Text)
    → (c == sep) ≡ false
    → All (Lacks sep) ts
    → All (Lacks sep) (onto c ts)
onto-Lacks sep c [] ne h = ((ne, tt), tt)
onto-Lacks sep c (t ∷ ts) ne (first, h) = ((ne, first), h)

split_at-Lacks : (sep : ℕ) (t : Text) → All (Lacks sep) (split_at sep t)
unfolding split_at
split_at-Lacks sep [] = (tt, tt)
split_at-Lacks sep (c ∷ cs) = elim (Bool-cases (c == sep)) [
  | inl e ↦ rw e (tt, split_at-Lacks sep cs)
  | inr e ↦ rw e (onto-Lacks sep c (split_at sep cs) e (split_at-Lacks sep cs))
]

-- What a partition at "=" is made of
abbrev IsCut : Text → Option (Text × Text) → Type 0
IsCut t none = Unit {0}
IsCut t (some (key, value)) = Lacks 61 key × (t ≡ key ++ 61 ∷ value)

in_front-IsCut :
    (c : ℕ) (t : Text) (o : Option (Text × Text))
    → (c == 61) ≡ false
    → IsCut t o
    → IsCut (c ∷ t) (in_front c o)
in_front-IsCut c t none ne h = tt
in_front-IsCut c t (some (key, value)) ne (lacks, made) =
    ((ne, lacks), ap (λ (u : Text). c ∷ u) made)

partition-IsCut : (t : Text) → IsCut t (partition t (61 ∷ []))
unfolding partition
partition-IsCut [] = tt
partition-IsCut (c ∷ cs) = elim (Bool-cases (c == 61)) [
  | inl e ↦ let same : c ≡ 61 = (==_iff c 61).0 e in rw same (tt, refl)
  | inr e ↦ rw e (in_front-IsCut c cs (partition cs (61 ∷ [])) e (partition-IsCut cs))
]

Lacks-prefix : (c : ℕ) (s t : Text) → Lacks c (s ++ t) → Lacks c s
Lacks-prefix c [] t h = tt
Lacks-prefix c (d ∷ ds) t (first, h) = (first, Lacks-prefix c ds t h)

-- The mark is visible.
visible_mark : Lacks 0 (codes "=<redacted>")
visible_mark =
    (refl, (refl, (refl, (refl, (refl, (refl, (refl, (refl, (refl, (refl, (refl, tt)))))))))))

module _ (decode : Bytes → Text) (wide_fold : ℕ → ℕ) where
  -- The text is no assignment, or it is one to a name that is no secret's, or of "<redacted>".
  abbrev pub IsHarmless : Text → Type 0
  IsHarmless t =
      (partition t (61 ∷ []) ≡ none)
      ⊎ ((key : Text) × (value : Text) × (partition t (61 ∷ []) ≡ some (key, value))
          × ((is_secret decode wide_fold key ≡ false) ⊎ (value ≡ codes "<redacted>")))

  -- An entry as it is shown
  abbrev IsShown : Text → Type 0
  IsShown t = Lacks 0 t × IsHarmless t

  redact_parts-IsShown :
      (t : Text) (o : Option (Text × Text))
      → partition t (61 ∷ []) ≡ o
      → IsCut t o
      → Lacks 0 t
      → IsShown (redact_parts decode wide_fold t o).0
  redact_parts-IsShown t none h cut lacks = (lacks, inl h)
  redact_parts-IsShown t (some (key, value)) h (no_equals, made) lacks =
      elim (Bool-cases (is_secret decode wide_fold key)) [
        | inl q ↦ rw q (
          Lacks-append 0 key (codes "=<redacted>")
              (Lacks-prefix 0 key (61 ∷ value) (subst (Lacks 0) made lacks)) visible_mark,
          inr (
            key,
            codes "<redacted>",
            partition-equals key (codes "<redacted>") no_equals,
            inr refl,
          ),
        )
        | inr q ↦ rw q (lacks, inr (key, value, h, inl q))
      ]

  redact_entries-IsShown :
      ((b : Bytes) → Lacks 0 b → Lacks 0 (decode b))
      → (entries : List Bytes) → All (Lacks 0) entries
      → All IsShown (redact_entries decode wide_fold entries).0
  unfolding redact_entries
  redact_entries-IsShown decodes [] h = tt
  redact_entries-IsShown decodes ([] ∷ entries) (first, h) =
      redact_entries-IsShown decodes entries h
  redact_entries-IsShown decodes ((b ∷ bs) ∷ entries) (first, h) =
      let text : Text = decode (b ∷ bs) in
      (
        redact_parts-IsShown text (partition text (61 ∷ [])) refl (partition-IsCut text)
            (decodes (b ∷ bs) first),
        redact_entries-IsShown decodes entries h,
      )

  All-left : (ts : List Text) → All IsShown ts → All (Lacks 0) ts
  All-left [] h = tt
  All-left (t ∷ ts) ((lacks, harmless), h) = (lacks, All-left ts h)

  All-right : (ts : List Text) → All IsShown ts → All IsHarmless ts
  All-right [] h = tt
  All-right (t ∷ ts) ((lacks, harmless), h) = (harmless, All-right ts h)

  nothing_shown : IsHarmless []
  unfolding partition
  nothing_shown = inl refl

  split_at-shown :
      (ts : List Text) → All IsShown ts → All IsHarmless (split_at 0 (join (0 ∷ []) ts))
  unfolding split_at join
  split_at-shown [] h = (nothing_shown, tt)
  split_at-shown (t ∷ ts) h =
      subst (All IsHarmless) (sym (split_at-join 0 t ts (All-left (t ∷ ts) h)))
        (All-right (t ∷ ts) h)

  -- Where decoding brings in no NUL, each of the NUL-separated entries of the redacted environment
  -- is no assignment, or it assigns to a name that is not a secret's, or it assigns "<redacted>".
  pub redact_environ-IsHarmless :
      ((b : Bytes) → Lacks 0 b → Lacks 0 (decode b))
      → (raw : Bytes) → All IsHarmless (split_at 0 (redact_environ decode wide_fold raw).0)
  unfolding redact_environ
  redact_environ-IsHarmless decodes [] = split_at-shown [] tt
  redact_environ-IsHarmless decodes (b ∷ bs) =
      split_at-shown (redact_entries decode wide_fold (split_at 0 (b ∷ bs))).0
        (redact_entries-IsShown decodes (split_at 0 (b ∷ bs)) (split_at-Lacks 0 (b ∷ bs)))
