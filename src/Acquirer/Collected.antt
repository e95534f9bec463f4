-- ===== src/Acquirer/Collected.antt =====
-- memslicer/acquirer/os_detail.py: the fields that are packed, as pairs of a key and a text in order.
use memslicer.Prelude.{
  ℕ, Bool, true, false, ◌&&◌, ◌||◌, Option, none, some, List, [], ◌∷◌, ◌++◌, map, ◌==◌, ltb, leb,
  one_of, same_text, codes, if◌then◌else◌, Dict, dict_get,
}
use memslicer.Utils.{Text}
use memslicer.Acquirer.Texts.{join, decimal_from, decimal}

-- FIELD_ORDER
abbrev pub field_order : List Text
field_order =
    codes "distro"
    ∷ codes "kernel"
    ∷ codes "arch"
    ∷ codes "machine_id"
    ∷ codes "hw_vendor"
    ∷ codes "hw_model"
    ∷ codes "hw_serial"
    ∷ codes "bios"
    ∷ codes "cpu"
    ∷ codes "cpu_count"
    ∷ codes "ram"
    ∷ codes "boot_id"
    ∷ codes "virt"
    ∷ codes "secure_boot"
    ∷ codes "disk_enc"
    ∷ codes "selinux"
    ∷ codes "apparmor"
    ∷ codes "tz"
    ∷ codes "nic_macs"
    ∷ codes "mode"
    ∷ codes "collector_caps"
    ∷ codes "redacted_keys"
    ∷ codes "truncated"
    ∷ []

abbrev pub is_key_char : ℕ → Bool
is_key_char c = (leb 97 c && leb c 122) || (leb 48 c && leb c 57) || c == 95

abbrev pub all_key_chars : Text → Bool
all_key_chars [] = true
all_key_chars (c ∷ cs) = is_key_char c && all_key_chars cs

unfoldable pub valid_key : Text → Bool
valid_key [] = false
valid_key (c ∷ cs) = all_key_chars (c ∷ cs)

-- A value of a field, of the types that the collectors give. Numbers are counts and sizes.
pub data RawValue : Type 0 where
  nothing : RawValue
  flag : Bool → RawValue
  count : ℕ → RawValue
  word : Text → RawValue
  words : List Text → RawValue

abbrev pub not_empty : List Text → List Text
not_empty [] = []
not_empty ([] ∷ ts) = not_empty ts
not_empty ((c ∷ cs) ∷ ts) = (c ∷ cs) ∷ not_empty ts

-- The text of a value; nothing, zero, false and an empty list have none.
unfoldable pub text_of : RawValue → Text
unfolding join decimal_from
text_of nothing = []
text_of (flag b) = if b then codes "1" else []
text_of (count n) = if n == 0 then [] else decimal n
text_of (word t) = t
text_of (words ts) = join (codes ",") (not_empty ts)

abbrev pub when_text : Text → Text → List (Text × Text)
when_text key [] = []
when_text key (c ∷ cs) = (key, c ∷ cs) ∷ []

-- _maybe_add, before the value is escaped
unfoldable pub maybe_add : Text → Option RawValue → List (Text × Text)
unfolding valid_key text_of
maybe_add key none = []
maybe_add key (some raw) = if valid_key key then when_text key (text_of raw) else []

abbrev pub Fields : Type 0
Fields = Dict Text RawValue

-- The keys of FIELD_ORDER
unfoldable pub known_pairs : Fields → List Text → List (Text × Text)
unfolding maybe_add
known_pairs fields [] = []
known_pairs fields (key ∷ keys) =
    maybe_add key (dict_get same_text fields key) ++ known_pairs fields keys

-- Texts are compared code point by code point.
abbrev pub text_before : Text → Text → Bool
text_before s [] = false
text_before [] (d ∷ ds) = true
text_before (c ∷ cs) (d ∷ ds) = ltb c d || (c == d && text_before cs ds)

unfoldable pub insert_key : Text → List Text → List Text
insert_key k [] = k ∷ []
insert_key k (j ∷ js) =
    let rest = insert_key k js in if text_before j k then j ∷ rest else k ∷ j ∷ js

-- sorted(fields.keys())
unfoldable pub sort_keys : List Text → List Text
unfolding insert_key
sort_keys [] = []
sort_keys (k ∷ ks) = insert_key k (sort_keys ks)

-- The keys that are not seen in FIELD_ORDER
unfoldable pub other_keys : List Text → List Text
other_keys [] = []
other_keys (k ∷ ks) = let rest = other_keys ks in if one_of k field_order then rest else k ∷ rest

-- ordered_pairs, before the values are escaped
unfoldable pub collected : Fields → List (Text × Text)
unfolding known_pairs sort_keys other_keys
collected fields =
    known_pairs fields field_order
    ++ known_pairs fields (other_keys (sort_keys (map (λ item. item.0) fields)))

abbrev pub Pairs : Type 0
Pairs = List (Text × Text)
