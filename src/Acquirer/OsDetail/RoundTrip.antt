-- ===== src/Acquirer/OsDetail/RoundTrip.antt =====
-- The fields that were packed, read back.
use memslicer.Prelude.{
  and_true, ℕ, zero, suc, ◌≤◌, ◌≡◌, inl, inr, refl, sym, ap, ◌∙◌, Bool, true, false, Option, none,
  some, List, [], ◌∷◌, ◌++◌, map, length, All, ==_refl, ltb, leb, same_text, Dict, dict_get, ok,
  Bool-cases, append_assoc, append-nil, arith,
}
use memslicer.Utils.{Text}
use memslicer.Acquirer.OsDetail.{
  escape_pair, pair_text, body_of, parse_pairs, parse_os_detail, human_key, render, utf8_length,
  drop_pairs, fit_budget, cap, pack_with, prefix_or_human, pack_os_detail,
}
use memslicer.Acquirer.Collected.{
  all_key_chars, is_key_char, valid_key, RawValue, Fields, text_of, maybe_add, when_text,
  known_pairs, collected, field_order, Pairs,
}
use memslicer.Acquirer.Escaping.{escape_value}
use memslicer.Acquirer.Texts.Laws.{Lacks, Lacks-append, split_at-join, partition-equals}
use memslicer.Acquirer.Texts.{join, is_space_char, strip_left, strip_right, split_at}
use memslicer.Acquirer.OsDetail.Escape.{unescape_value-escape_value}
use memslicer.Acquirer.OsDetail.Delimited.{
  key_Lacks, key_not_semicolon, key_not_equals, escape_value-Lacks, dict_put-new, IsFresh, HasKeys,
  valid_key-all, partition-delimiter, partition-none,
}

module _ (wide_digit : ℕ → Option ℕ) (wide_space : ℕ → Bool) where
  abbrev space : ℕ → Bool
  space = is_space_char wide_digit wide_space

  key_not_space : (d : ℕ) → is_key_char d ≡ true → space d ≡ false
  unfolding is_space_char
  key_not_space d h = let ascii : leb 128 d ≡ false = ground arith in rw ascii (ground arith)

  strip_left-key : (k : Text) → all_key_chars k ≡ true → strip_left wide_digit wide_space k ≡ k
  unfolding strip_left
  strip_left-key [] h = refl
  strip_left-key (d ∷ ds) h =
      rw (key_not_space d (and_true (is_key_char d) (all_key_chars ds) h).0) refl

  strip_right-key : (k : Text) → all_key_chars k ≡ true → strip_right wide_digit wide_space k ≡ k
  unfolding strip_right
  strip_right-key [] h = refl
  strip_right-key (d ∷ []) h = rw (key_not_space d (and_true (is_key_char d) true h).0) refl
  strip_right-key (d ∷ e ∷ es) h =
      let later = (and_true (is_key_char d) (all_key_chars (e ∷ es)) h).1 in
      rw (strip_right-key (e ∷ es) later) refl

  strip-key :
      (k : Text)
      → all_key_chars k ≡ true
      → strip_left wide_digit wide_space (strip_right wide_digit wide_space k) ≡ k
  strip-key k h = ap (strip_left wide_digit wide_space) (strip_right-key k h) ∙ strip_left-key k h

  -- The pairs are read back in order.
  parse_pairs-escaped :
      (ps : Pairs) (d : Dict Text Text)
      → HasKeys ps
      → IsFresh d ps
      → parse_pairs wide_digit wide_space (map pair_text (map escape_pair ps)) d ≡ ok (d ++ ps)
  unfolding parse_pairs
  parse_pairs-escaped [] d keys fresh = ap ok (sym (append-nil d))
  parse_pairs-escaped ((k, v) ∷ ps) d (key, keys) (new, fresh) =
      let all = valid_key-all k key in
      let cut = partition-equals k (escape_value v) (key_Lacks k 61 key_not_equals all) in
      let back = unescape_value-escape_value wide_digit wide_space v in
      rw (cut, strip-key k all, key, back, dict_put-new d k v new)
        (parse_pairs-escaped ps (d ++ (k, v) ∷ []) keys fresh
          ∙ ap ok (append_assoc d ((k, v) ∷ []) ps))

  pair_texts-Lacks : (ps : Pairs) → HasKeys ps → All (Lacks 59) (map pair_text (map escape_pair ps))
  pair_texts-Lacks [] keys = tt
  pair_texts-Lacks ((k, v) ∷ ps) (key, keys) = (
    Lacks-append 59 k (61 ∷ escape_value v) (key_Lacks k 59 key_not_semicolon (valid_key-all k key))
        (refl, escape_value-Lacks v),
    pair_texts-Lacks ps keys,
  )

  split_at-body :
      (k v : Text) (ps : Pairs)
      → HasKeys ((k, v) ∷ ps)
      → split_at 59 (body_of (map escape_pair ((k, v) ∷ ps)))
        ≡ map pair_text (map escape_pair ((k, v) ∷ ps))
  unfolding body_of
  split_at-body k v ps keys =
      split_at-join 59 (pair_text (escape_pair (k, v))) (map pair_text (map escape_pair ps))
        (pair_texts-Lacks ((k, v) ∷ ps) keys)

  no_body : body_of [] ≡ []
  unfolding body_of join
  no_body = refl

  body_cons :
      (k v : Text) (ps : Pairs)
      → valid_key k ≡ true
      → (c : ℕ) × (t : Text) × (body_of (map escape_pair ((k, v) ∷ ps)) ≡ c ∷ t)
  unfolding body_of join valid_key
  body_cons [] v ps h = cc
  body_cons (c ∷ cs) v [] h = (c, cs ++ 61 ∷ escape_value v, refl)
  body_cons (c ∷ cs) v (q ∷ ps) h = (c, _, refl)

  parse_os_detail-render :
      (c : ℕ) (cs : Text) (ps : Pairs)
      → Lacks 124 (c ∷ cs)
      → HasKeys ps
      → IsFresh ((human_key, c ∷ cs) ∷ []) ps
      → parse_os_detail wide_digit wide_space
          (render wide_digit wide_space (c ∷ cs) (map escape_pair ps))
        ≡ ok ((human_key, c ∷ cs) ∷ ps)
  unfolding parse_os_detail render
  parse_os_detail-render c cs [] lacks keys fresh = rw (no_body, partition-none (c ∷ cs) lacks) refl
  parse_os_detail-render c cs ((k, v) ∷ ps) lacks (key, keys) fresh =
      let (d, t, made) = body_cons k v ps key in
      let cut = partition-delimiter (c ∷ cs) (d ∷ t) lacks in
      let parts : split_at 59 (d ∷ t) ≡ map pair_text (map escape_pair ((k, v) ∷ ps)) =
        ap (split_at 59) (sym made) ∙ split_at-body k v ps (key, keys) in
      let read = parse_pairs-escaped ((k, v) ∷ ps) ((human_key, c ∷ cs) ∷ []) (key, keys) fresh in
      rw (made, cut, parts) read

  HasKeys-append : (ps qs : Pairs) → HasKeys ps → HasKeys qs → HasKeys (ps ++ qs)
  HasKeys-append [] qs h k = k
  HasKeys-append (p ∷ ps) qs (first, h) k = (first, HasKeys-append ps qs h k)

  when_text-HasKeys : (key text : Text) → valid_key key ≡ true → HasKeys (when_text key text)
  when_text-HasKeys key [] h = tt
  when_text-HasKeys key (c ∷ cs) h = (h, tt)

  maybe_add-HasKeys : (key : Text) (raw : Option RawValue) → HasKeys (maybe_add key raw)
  unfolding maybe_add
  maybe_add-HasKeys key none = tt
  maybe_add-HasKeys key (some raw) = elim (Bool-cases (valid_key key)) [
    | inl q ↦ rw q (when_text-HasKeys key (text_of raw) q)
    | inr q ↦ rw q tt
  ]

  known_pairs-HasKeys : (fields : Fields) (keys : List Text) → HasKeys (known_pairs fields keys)
  unfolding known_pairs
  known_pairs-HasKeys fields [] = tt
  known_pairs-HasKeys fields (key ∷ keys) =
      HasKeys-append (maybe_add key (dict_get same_text fields key)) (known_pairs fields keys)
        (maybe_add-HasKeys key (dict_get same_text fields key)) (known_pairs-HasKeys fields keys)

  collected-HasKeys : (fields : Fields) → HasKeys (collected fields)
  unfolding collected
  collected-HasKeys fields =
      HasKeys-append (known_pairs fields field_order) _ (known_pairs-HasKeys fields field_order)
        (known_pairs-HasKeys fields _)

  -- Pairs that fit the budget are all kept.
  drop_pairs_none :
      (fuel : ℕ) (prefix : Text) (budget : ℕ) (ps : Pairs)
      → utf8_length (render wide_digit wide_space prefix ps) ≤ budget
      → drop_pairs wide_digit wide_space fuel prefix budget ps ≡ ps
  unfolding drop_pairs
  drop_pairs_none zero prefix budget ps fits = refl
  drop_pairs_none (suc fuel) prefix budget ps fits =
      let short : ltb budget (utf8_length (render wide_digit wide_space prefix ps)) ≡ false =
        ground arith in
      rw short refl

  fit_budget_all :
      (prefix : Text) (budget : ℕ) (ps : Pairs)
      → utf8_length (render wide_digit wide_space prefix ps) ≤ budget
      → fit_budget wide_digit wide_space prefix budget ps ≡ ps
  unfolding fit_budget
  fit_budget_all prefix budget ps fits =
      rw (drop_pairs_none (length ps) prefix budget ps fits, ==_refl (length ps)) refl

  -- Where the prefix is not empty and has no "|", no two collected fields have one key, none has
  -- the key "_human", and the packed text fits both limits, the fields that were packed are read
  -- back: the prefix, and each collected field with its text, in order, whatever characters the
  -- texts hold.
  pub parse_os_detail-pack_os_detail :
      (fields : Fields) (human_prefix : Option Text) (hard soft c : ℕ) (cs : Text)
      → prefix_or_human human_prefix fields ≡ c ∷ cs
      → Lacks 124 (c ∷ cs)
      → IsFresh ((human_key, c ∷ cs) ∷ []) (collected fields)
      → utf8_length (render wide_digit wide_space (c ∷ cs) (map escape_pair (collected fields)))
        ≤ soft
      → soft ≤ hard
      → parse_os_detail wide_digit wide_space
          (pack_os_detail wide_digit wide_space fields human_prefix hard soft)
        ≡ ok ((human_key, c ∷ cs) ∷ collected fields)
  unfolding pack_os_detail pack_with cap
  parse_os_detail-pack_os_detail fields human_prefix hard soft c cs e lacks fresh fits le =
      let all = fit_budget_all (c ∷ cs) soft (map escape_pair (collected fields)) fits in
      let short : ltb hard (
            utf8_length
              (render wide_digit wide_space (c ∷ cs) (map escape_pair (collected fields))))
          ≡ false =
        ground arith in
      rw (e, all, short)
        (parse_os_detail-render c cs (collected fields) lacks (collected-HasKeys fields) fresh)
