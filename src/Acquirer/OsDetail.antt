-- ===== src/Acquirer/OsDetail.antt =====
-- memslicer/acquirer/os_detail.py: the text that carries what was collected of the system. A text
-- is the list of its code points. Python's `int` and `str.strip` know digits and spaces beyond
-- ASCII; these are the parameters `wide_digit` and `wide_space`.
pub mod Escape
pub mod Delimited
pub mod RoundTrip
pub mod Budget
pub mod Projected
use memslicer.Prelude.{
  ℕ, zero, suc, ◌+◌, ◌-◌, ◌*◌, ◌/◌, ◌%◌, Bool, true, false, not, ◌&&◌, ◌||◌, Option, none, some,
  List, [], ◌∷◌, ◌++◌, map, length, take, drop, any_of, ◌==◌, ltb, leb, one_of, same_text,
  starts_with, codes, if◌then◌else◌, Dict, dict_get, dict_put, Result, Exn, ok, err, value_error,
  chr_range, ◌>>=◌,
}
use memslicer.Acquirer.Escaping.{escape_value, unescape_value}
use memslicer.Acquirer.Collected.{valid_key, text_of, Fields, collected, Pairs}
use memslicer.Utils.{Text}
use memslicer.Acquirer.Texts.{
  join, decimal_from, decimal, partition, split_at, is_space_char, digit_value, strip_left,
  strip_right, strip,
}

abbrev pub schema_prefix : Text
schema_prefix = codes "msl.memslicer/1 "

abbrev pub delimiter : Text
delimiter = codes " | "

abbrev pub hard_cap_bytes : ℕ
hard_cap_bytes = 61440

abbrev pub soft_budget_bytes : ℕ
soft_budget_bytes = 4096

-- _PROVENANCE_KEYS
abbrev pub provenance_keys : List Text
provenance_keys =
    codes "mode" ∷ codes "collector_caps" ∷ codes "redacted_keys" ∷ codes "truncated" ∷ []

abbrev or_text : Text → Text → Text
or_text [] other = other
or_text (c ∷ cs) other = c ∷ cs

abbrev extra : Text → List Text
extra [] = []
extra (c ∷ cs) = (c ∷ cs) ∷ []

abbrev with_extras : Text → List Text → Text
with_extras base [] = base
with_extras base (t ∷ ts) = base ++ codes " (" ++ join (codes " ") (t ∷ ts) ++ codes ")"

unfoldable pub build_human_os_string : Text → Text → Text → Text → Text
unfolding join
build_human_os_string distro kernel arch raw_os =
    with_extras (or_text (or_text distro raw_os) (codes "unknown OS")) (extra kernel ++ extra arch)

abbrev pub escape_pair : Text × Text → Text × Text
escape_pair (k, v) = (k, escape_value v)

abbrev pub pair_text : Text × Text → Text
pair_text (k, v) = k ++ 61 ∷ v

unfoldable pub body_of : Pairs → Text
unfolding join
body_of pairs = join (codes ";") (map pair_text pairs)

-- len(text.encode("utf-8"))
unfoldable pub utf8_length : Text → ℕ
utf8_length [] = 0
utf8_length (c ∷ cs) =
    (if ltb c 0x80 then 1 else if ltb c 0x800 then 2 else if ltb c 0x10000 then 3 else 4)
    + utf8_length cs

-- The bytes of the text cut to `n`, backed off to a whole character, as a text.
unfoldable pub cut_utf8 : ℕ → Text → Text
unfolding utf8_length
cut_utf8 n [] = []
cut_utf8 n (c ∷ cs) =
    let width = utf8_length (c ∷ []) in
    let rest = cut_utf8 (n - width) cs in if leb width n then c ∷ rest else []

unfoldable pub is_provenance : Text × Text → Bool
is_provenance (k, v) = one_of k provenance_keys

abbrev pub dropped : Text × Text → Pairs → Option Pairs → Option Pairs
dropped p ps (some rest) = some (p ∷ rest)
dropped p ps none = if is_provenance p then none else some ps

-- ordered_pairs.pop(droppable.pop()): without the last pair that may be dropped, if there is one
unfoldable pub drop_one : Pairs → Option Pairs
unfolding is_provenance
drop_one [] = none
drop_one (p ∷ ps) = dropped p ps (drop_one ps)

abbrev not_truncated : Pairs → Pairs
not_truncated [] = []
not_truncated ((k, v) ∷ ps) =
    let rest = not_truncated ps in if same_text k (codes "truncated") then rest else (k, v) ∷ rest

-- The pairs with the mark of truncation
unfoldable pub marked : Pairs → Pairs
unfolding escape_value
marked pairs = not_truncated pairs ++ (codes "truncated", escape_value (codes "1")) ∷ []

abbrev too_long : ℕ → Text → Bool
too_long budget t = ltb budget (utf8_length t)

unfoldable pub cap : ℕ → Text → Text
unfolding utf8_length cut_utf8
cap hard t =
    if ltb hard (utf8_length t) then cut_utf8 (hard - 16) t ++ codes ";truncated=hard" else t

-- str(fields.get(key) or "")
abbrev text_at : Fields → Text → Text
text_at fields key = elim (dict_get same_text fields key) [ none ↦ [] | some v ↦ text_of v ]

abbrev pub prefix_or_human : Option Text → Fields → Text
prefix_or_human (some prefix) fields = prefix
prefix_or_human none fields =
    build_human_os_string (text_at fields (codes "distro")) (text_at fields (codes "kernel"))
      (text_at fields (codes "arch")) (text_at fields (codes "raw_os"))

abbrev pub human_key : Text
human_key = codes "_human"

abbrev with_human : Text → Dict Text Text
with_human [] = []
with_human (c ∷ cs) = (human_key, c ∷ cs) ∷ []

module _ (wide_digit : ℕ → Option ℕ) (wide_space : ℕ → Bool) where
  abbrev rendered_body : Text → Text
  rendered_body [] = codes "msl.memslicer/1"
  rendered_body (c ∷ cs) = strip_right wide_digit wide_space (schema_prefix ++ codes "| " ++ c ∷ cs)

  abbrev rendered : Text → Text → Text
  rendered [] body = rendered_body body
  rendered (p ∷ ps) [] = schema_prefix ++ p ∷ ps
  rendered (p ∷ ps) (c ∷ cs) = schema_prefix ++ ((p ∷ ps) ++ (delimiter ++ c ∷ cs))

  -- _render
  unfoldable pub render : Text → Pairs → Text
  unfolding body_of strip_right
  render prefix pairs = rendered prefix (body_of pairs)

  -- The loop that drops pairs, which ends within as many rounds as there are pairs: the pairs that
  -- are left.
  unfoldable pub drop_pairs : ℕ → Text → ℕ → Pairs → Pairs
  unfolding render utf8_length drop_one
  drop_pairs zero prefix budget pairs = pairs
  drop_pairs (suc fuel) prefix budget pairs =
      if too_long budget (render prefix pairs)
      then elim (drop_one pairs) [ none ↦ pairs | some rest ↦ drop_pairs fuel prefix budget rest ]
      else pairs

  -- The pairs within the soft budget, marked where any was dropped.
  unfoldable pub fit_budget : Text → ℕ → Pairs → Pairs
  unfolding drop_pairs marked
  fit_budget prefix budget pairs =
      let fitting = drop_pairs (length pairs) prefix budget pairs in
      if length fitting == length pairs then pairs else marked fitting

  unfoldable pub pack_with : Fields → Text → ℕ → ℕ → Text
  unfolding collected escape_value fit_budget render cap
  pack_with fields prefix hard soft =
      cap hard (render prefix (fit_budget prefix soft (map escape_pair (collected fields))))

  unfoldable pub pack_os_detail : Fields → Option Text → ℕ → ℕ → Text
  unfolding text_of build_human_os_string pack_with
  pack_os_detail fields human_prefix hard soft =
      pack_with fields (prefix_or_human human_prefix fields) hard soft

  abbrev add_pair : Dict Text Text → Option (Text × Text) → Result (Dict Text Text)
  add_pair out none = ok out
  add_pair out (some (k, v)) =
      if valid_key (strip wide_digit wide_space k)
      then (do
        value ← unescape_value wide_digit wide_space v
        ok (dict_put same_text out (strip wide_digit wide_space k) value))
      else ok out

  -- for pair in kv_block.split(";")
  unfoldable pub parse_pairs : List Text → Dict Text Text → Result (Dict Text Text)
  unfolding partition valid_key strip_left strip_right unescape_value
  parse_pairs [] out = ok out
  parse_pairs (pair ∷ pairs) out = do
    out' ← add_pair out (partition pair (61 ∷ []))
    parse_pairs pairs out'

  abbrev parse_block : Text → Dict Text Text → Result (Dict Text Text)
  parse_block [] out = ok out
  parse_block (c ∷ cs) out = parse_pairs (split_at 59 (c ∷ cs)) out

  abbrev parse_parts : Text → Option (Text × Text) → Result (Dict Text Text)
  parse_parts remainder none = ok (with_human remainder)
  parse_parts remainder (some (human, block)) = parse_block block (with_human human)

  unfoldable pub parse_os_detail : Text → Result (Dict Text Text)
  unfolding partition split_at parse_pairs
  parse_os_detail value =
      if starts_with value schema_prefix
      then parse_parts (drop 16 value) (partition (drop 16 value) delimiter)
      else ok (with_human value)
