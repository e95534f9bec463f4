-- ===== src/Acquirer/OsDetail/Projected/Gates.antt =====
-- What the privacy gates keep out of the packed text.
use memslicer.Prelude.{
  ◌≡◌, ◌⊎◌, inl, inr, refl, Bool, true, false, Option, none, some, List, [], ◌∷◌, ◌++◌, All, ◌==◌,
  ==_iff, same_text, dict_get, Bool-cases, codes,
}
use memslicer.Utils.{Text}
use memslicer.Acquirer.Collected.{
  Fields, RawValue, Pairs, valid_key, text_of, when_text, maybe_add, known_pairs, field_order,
  collected,
}
use memslicer.Acquirer.OsDetail.Projected.{Attributes, base_fields, of_names, system_info_to_fields}

same_text-eq : (s t : Text) → same_text s t ≡ true → s ≡ t
same_text-eq [] [] h = refl
same_text-eq [] (d ∷ ds) h = cc
same_text-eq (c ∷ cs) [] h = cc
same_text-eq (c ∷ cs) (d ∷ ds) h = elim (Bool-cases (c == d)) [
  | inl e ↦
      let first : c ≡ d = (==_iff c d).0 e in
      let rest : same_text cs ds ≡ true = rw e at h in rw (first, same_text-eq cs ds rest) refl
  | inr e ↦ let bad : false ≡ true = rw e at h in cc
]

-- No pair has the key.
abbrev Without : Text → Pairs → Type 0
Without key ps = All (λ p. same_text p.0 key ≡ false) ps

Without-append :
    (key : Text) (ps qs : Pairs) → Without key ps → Without key qs → Without key (ps ++ qs)
Without-append key [] qs h k = k
Without-append key (p ∷ ps) qs (first, h) k = (first, Without-append key ps qs h k)

when_text-Without : (key k text : Text) → same_text k key ≡ false → Without key (when_text k text)
when_text-Without key k [] h = tt
when_text-Without key k (c ∷ cs) h = (h, tt)

maybe_add-Without :
    (key k : Text) (raw : Option RawValue) → same_text k key ≡ false → Without key (maybe_add k raw)
unfolding maybe_add
maybe_add-Without key k none h = tt
maybe_add-Without key k (some raw) h = elim (Bool-cases (valid_key k)) [
  | inl q ↦ rw q (when_text-Without key k (text_of raw) h)
  | inr q ↦ rw q tt
]

-- A key that the fields have no value for is not among the pairs made of them.
known_pairs-Without :
    (fields : Fields) (key : Text) (keys : List Text)
    → dict_get same_text fields key ≡ none
    → Without key (known_pairs fields keys)
unfolding known_pairs maybe_add
known_pairs-Without fields key [] h = tt
known_pairs-Without fields key (k ∷ ks) h = elim (Bool-cases (same_text k key)) [
  | inl e ↦
      let same : k ≡ key = same_text-eq k key e in
      rw (same, h) (known_pairs-Without fields key ks h)
  | inr e ↦
      Without-append key (maybe_add k (dict_get same_text fields k)) (known_pairs fields ks)
        (maybe_add-Without key k (dict_get same_text fields k) e)
        (known_pairs-Without fields key ks h)
]

-- The key is not among the pairs that are packed.
abbrev pub IsAbsent : Text → Fields → Type 0
IsAbsent key fields = Without key (collected fields)

IsAbsent-none :
    (fields : Fields) (key : Text) → dict_get same_text fields key ≡ none → IsAbsent key fields
unfolding collected
IsAbsent-none fields key h =
    Without-append key (known_pairs fields field_order) _
      (known_pairs-Without fields key field_order h) (known_pairs-Without fields key _ h)

closed_serials :
    (info : Attributes) (n f k : Bool)
    → (dict_get same_text (system_info_to_fields info false n f k) (codes "machine_id") ≡ none)
      × (dict_get same_text (system_info_to_fields info false n f k) (codes "hw_serial") ≡ none)
unfolding system_info_to_fields base_fields of_names
closed_serials info false false false = (refl, refl)
closed_serials info false false true = (refl, refl)
closed_serials info false true false = (refl, refl)
closed_serials info false true true = (refl, refl)
closed_serials info true false false = (refl, refl)
closed_serials info true false true = (refl, refl)
closed_serials info true true false = (refl, refl)
closed_serials info true true true = (refl, refl)

closed_network :
    (info : Attributes) (s f k : Bool)
    → dict_get same_text (system_info_to_fields info s false f k) (codes "nic_macs") ≡ none
unfolding system_info_to_fields base_fields of_names
closed_network info false false false = refl
closed_network info false false true = refl
closed_network info false true false = refl
closed_network info false true true = refl
closed_network info true false false = refl
closed_network info true false true = refl
closed_network info true true false = refl
closed_network info true true true = refl

closed_fingerprint :
    (info : Attributes) (s n k : Bool)
    → dict_get same_text (system_info_to_fields info s n false k) (codes "fingerprint") ≡ none
unfolding system_info_to_fields base_fields of_names
closed_fingerprint info false false false = refl
closed_fingerprint info false false true = refl
closed_fingerprint info false true false = refl
closed_fingerprint info false true true = refl
closed_fingerprint info true false false = refl
closed_fingerprint info true false true = refl
closed_fingerprint info true true false = refl
closed_fingerprint info true true true = refl

-- Whatever the attributes of the system hold: without the gate for serials the packed pairs have
-- neither a machine_id nor a hw_serial, without the gate for the network's identity no nic_macs, and
-- without the gate for the fingerprint no fingerprint.
pub system_info_to_fields-IsAbsent :
    (info : Attributes) (s n f k : Bool)
    → ((s ≡ true)
        ⊎ (IsAbsent (codes "machine_id") (system_info_to_fields info s n f k)
            × IsAbsent (codes "hw_serial") (system_info_to_fields info s n f k)))
      × ((n ≡ true) ⊎ IsAbsent (codes "nic_macs") (system_info_to_fields info s n f k))
      × ((f ≡ true) ⊎ IsAbsent (codes "fingerprint") (system_info_to_fields info s n f k))
system_info_to_fields-IsAbsent info s n f k = (serials s, network n, fingerprint f)
  where
    serials :
        (s : Bool)
        → (s ≡ true)
          ⊎ (IsAbsent (codes "machine_id") (system_info_to_fields info s n f k)
              × IsAbsent (codes "hw_serial") (system_info_to_fields info s n f k))
    serials true = inl refl
    serials false =
        let (machine, serial) = closed_serials info n f k in
        inr (IsAbsent-none _ _ machine, IsAbsent-none _ _ serial)

    network :
        (n : Bool) → (n ≡ true) ⊎ IsAbsent (codes "nic_macs") (system_info_to_fields info s n f k)
    network true = inl refl
    network false = inr (IsAbsent-none _ _ (closed_network info s f k))

    fingerprint :
        (f : Bool)
        → (f ≡ true) ⊎ IsAbsent (codes "fingerprint") (system_info_to_fields info s n f k)
    fingerprint true = inl refl
    fingerprint false = inr (IsAbsent-none _ _ (closed_fingerprint info s n k))
