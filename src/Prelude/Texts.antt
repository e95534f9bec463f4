-- ===== src/Prelude/Texts.antt =====
-- Python's `str` methods, on texts as lists of byte values.
use Prim.Native.Nat.{ℕ}
use mathlib.Core.Bool.{Bool, true, false, ◌&&◌, ◌||◌}
use mathlib.Core.List.{List, [], ◌∷◌}
use memslicer.Prelude.Tests.{◌==◌}
use Prim.Native.String.{String}
use Prim.Native.Char.{code}

-- s.startswith(prefix)
abbrev pub starts_with : List ℕ → List ℕ → Bool
starts_with s [] = true
starts_with [] (p ∷ ps) = false
starts_with (c ∷ cs) (p ∷ ps) = c == p && starts_with cs ps

-- part in s
abbrev pub has_part : List ℕ → List ℕ → Bool
has_part [] part = starts_with [] part
has_part (c ∷ cs) part = starts_with (c ∷ cs) part || has_part cs part

abbrev pub same_text : List ℕ → List ℕ → Bool
same_text [] [] = true
same_text [] (b ∷ bs) = false
same_text (a ∷ as') [] = false
same_text (a ∷ as') (b ∷ bs) = a == b && same_text as' bs

-- s.endswith(suffix)
abbrev pub ends_with : List ℕ → List ℕ → Bool
ends_with [] suffix = same_text [] suffix
ends_with (c ∷ cs) suffix = same_text (c ∷ cs) suffix || ends_with cs suffix

-- text in a tuple or a set of texts
abbrev pub one_of : List ℕ → List (List ℕ) → Bool
one_of s [] = false
one_of s (t ∷ ts) = same_text s t || one_of s ts

-- any(test(x) for x in xs)
abbrev pub any_of {ℓ} : {A : Type ℓ} → (A → Bool) → List A → Bool
any_of test [] = false
any_of test (x ∷ xs) = test x || any_of test xs

-- The code points of a text, which are its bytes where it is ASCII.
abbrev pub codes : String → List ℕ
codes String.[] = []
codes (String.◌∷◌ c s) = code c ∷ codes s
