-- ===== src/Acquirer/Collectors/Environ.antt =====
-- memslicer/acquirer/collectors/linux.py, `redact_environ`: the environment of a process without the
-- values of secrets. `decode` is what `bytes.decode("utf-8", "replace")` answers, and `wide_fold` is
-- how `re` folds the case of a character beyond ASCII.
pub mod Redacted
use memslicer.Prelude.{
  ℕ, ◌+◌, ◌-◌, Bool, true, false, ◌&&◌, ◌||◌, Option, none, some, List, [], ◌∷◌, ◌++◌, map, ltb,
  leb, ◌==◌, one_of, codes, if◌then◌else◌,
}
use memslicer.Bytes.{Bytes}
use memslicer.Utils.{Text}
use memslicer.Acquirer.Texts.{join, partition, split_at}

-- The words of _SECRET_PATTERN
abbrev pub secret_words : List Text
secret_words =
    codes "token"
    ∷ codes "key"
    ∷ codes "secret"
    ∷ codes "password"
    ∷ codes "pass"
    ∷ codes "credential"
    ∷ codes "auth"
    ∷ []

-- `$` also matches before a newline that ends the text.
unfoldable pub without_newline : Text → Text
without_newline [] = []
without_newline (c ∷ []) = if c == 10 then [] else c ∷ []
without_newline (c ∷ d ∷ ds) = c ∷ without_newline (d ∷ ds)

module _ (decode : Bytes → Text) (wide_fold : ℕ → ℕ) where
  abbrev fold_char : ℕ → ℕ
  fold_char c = if leb 65 c && leb c 90 then c + 32 else if leb 128 c then wide_fold c else c

  -- A part between underscores, or between one and an end of the name, is one of the words.
  unfoldable pub any_secret : List Text → Bool
  unfolding without_newline
  any_secret [] = false
  any_secret (part ∷ []) =
      one_of (map fold_char part) secret_words
      || one_of (map fold_char (without_newline part)) secret_words
  any_secret (part ∷ next ∷ parts) =
      one_of (map fold_char part) secret_words || any_secret (next ∷ parts)

  -- _SECRET_PATTERN.search(key)
  unfoldable pub is_secret : Text → Bool
  unfolding split_at any_secret
  is_secret key = any_secret (split_at 95 key)

  abbrev pub hidden : Text → Text
  hidden key = key ++ codes "=<redacted>"

  -- What stands for an entry, and its key if it was redacted
  abbrev pub redact_parts : Text → Option (Text × Text) → Text × List Text
  redact_parts text none = (text, [])
  redact_parts text (some (key, value)) =
      if is_secret key then (hidden key, key ∷ []) else (text, [])

  -- for entry in entries
  unfoldable pub redact_entries : List Bytes → List Text × List Text
  unfolding partition is_secret
  redact_entries [] = ([], [])
  redact_entries ([] ∷ entries) = redact_entries entries
  redact_entries ((b ∷ bs) ∷ entries) =
      let text = decode (b ∷ bs) in
      let shown = redact_parts text (partition text (61 ∷ [])) in
      let rest = redact_entries entries in (shown.0 ∷ rest.0, shown.1 ++ rest.1)

  unfoldable pub redact_environ : Bytes → Text × List Text
  unfolding split_at redact_entries join
  redact_environ [] = ([], [])
  redact_environ (b ∷ bs) =
      let done = redact_entries (split_at 0 (b ∷ bs)) in (join (0 ∷ []) done.0, done.1)
