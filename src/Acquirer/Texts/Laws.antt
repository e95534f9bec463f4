-- ===== src/Acquirer/Texts/Laws.antt =====
-- Searching, splitting and joining texts.
use memslicer.Prelude.{ℕ, ◌≡◌, refl, ap, ◌∙◌, false, some, List, [], ◌∷◌, ◌++◌, All, ◌==◌, ==_refl}
use memslicer.Utils.{Text}
use memslicer.Acquirer.Texts.{join, split_at, partition}

-- The character is not in the text.
abbrev pub Lacks : ℕ → Text → Type 0
Lacks c t = All (λ d. (d == c) ≡ false) t

pub Lacks-append : (c : ℕ) (s t : Text) → Lacks c s → Lacks c t → Lacks c (s ++ t)
Lacks-append c [] t h k = k
Lacks-append c (d ∷ ds) t (first, h) k = (first, Lacks-append c ds t h k)

-- Splitting what was joined.
pub split_at-end : (sep : ℕ) (t : Text) → Lacks sep t → split_at sep t ≡ t ∷ []
unfolding split_at
split_at-end sep [] h = refl
split_at-end sep (c ∷ cs) (first, h) = rw (first, split_at-end sep cs h) refl

pub split_at-append :
    (sep : ℕ) (t rest : Text) → Lacks sep t → split_at sep (t ++ sep ∷ rest) ≡ t ∷ split_at sep rest
unfolding split_at
split_at-append sep [] rest h = rw (==_refl sep) refl
split_at-append sep (c ∷ cs) rest (first, h) = rw (first, split_at-append sep cs rest h) refl

pub split_at-join :
    (sep : ℕ) (t : Text) (ts : List Text)
    → All (Lacks sep) (t ∷ ts)
    → split_at sep (join (sep ∷ []) (t ∷ ts)) ≡ t ∷ ts
unfolding join
split_at-join sep t [] (h, none_left) = split_at-end sep t h
split_at-join sep t (u ∷ us) (h, rest) =
    split_at-append sep t (join (sep ∷ []) (u ∷ us)) h
    ∙ ap (λ (l : List Text). t ∷ l) (split_at-join sep u us rest)

pub partition-equals : (k v : Text) → Lacks 61 k → partition (k ++ 61 ∷ v) (61 ∷ []) ≡ some (k, v)
unfolding partition
partition-equals [] v h = refl
partition-equals (c ∷ cs) v (first, h) = rw (first, partition-equals cs v h) refl
