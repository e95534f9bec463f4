-- ===== src/Utils/Rights.antt =====
-- memslicer/utils/protection.py: protection bits as three rights.
use memslicer.Prelude.{
  ℕ, ◌+◌, ◌≡◌, refl, Bool, true, false, not, ◌&&◌, ◌||◌, Option, none, some, [], ◌∷◌, get_elem?,
  bit_and, bit_or, ◌==◌, if◌then◌else◌, Bool-cases, and_true, inl, inr,
}
use memslicer.Utils.{Text, parse_protection}

abbrev pub rights : Bool → Bool → Bool → ℕ
rights r w x = (if r then 1 else 0) + ((if w then 2 else 0) + (if x then 4 else 0))

-- Whether this is the letter that stands in the place.
abbrev pub is_letter : ℕ → Option ℕ → Bool
is_letter c none = false
is_letter c (some x) = x == c

abbrev pub may_read : Text → Bool
may_read s = is_letter b'r' (get_elem? s 0)

abbrev pub may_write : Text → Bool
may_write s = is_letter b'w' (get_elem? s 1)

abbrev pub may_execute : Text → Bool
may_execute s = is_letter b'x' (get_elem? s 2)

-- A protection string has the rights whose letters stand in their places.
pub parse_protection-rights :
    (s : Text) → parse_protection s ≡ rights (may_read s) (may_write s) (may_execute s)
unfolding parse_protection
parse_protection-rights [] = refl
parse_protection-rights (a ∷ []) = elim (Bool-cases (a == b'r')) [
  | inl e ↦ rw e refl
  | inr e ↦ rw e refl
]
parse_protection-rights (a ∷ b ∷ []) = elim (Bool-cases (a == b'r')) [
  | inl e ↦ elim (Bool-cases (b == b'w')) [ inl f ↦ rw (e, f) refl | inr f ↦ rw (e, f) refl ]
  | inr e ↦ elim (Bool-cases (b == b'w')) [ inl f ↦ rw (e, f) refl | inr f ↦ rw (e, f) refl ]
]
parse_protection-rights (a ∷ b ∷ c ∷ s) = of_letters (a == b'r') (b == b'w') (c == b'x')
  where
    of_letters :
        (r w x : Bool)
        → (let read : ℕ = if r then bit_or 0 1 else 0 in
            let write : ℕ = if w then bit_or read 2 else read in
            if x then bit_or write 4 else write)
          ≡ rights r w x
    of_letters true true true = refl
    of_letters true true false = refl
    of_letters true false true = refl
    of_letters true false false = refl
    of_letters false true true = refl
    of_letters false true false = refl
    of_letters false false true = refl
    of_letters false false false = refl

every : (Bool → Bool) → Bool
every test = test true && test false

every-true : (test : Bool → Bool) → every test ≡ true → (b : Bool) → test b ≡ true
unfolding every
every-true test h true = (and_true (test true) (test false) h).0
every-true test h false = (and_true (test true) (test false) h).1

-- Of two rights the second is given where the first is asked for.
abbrev pub granted : Bool → Bool → Bool
granted asked given = not asked || given

same : Bool → Bool → Bool
same true b = b
same false b = not b

same-eq : (a b : Bool) → same a b ≡ true → a ≡ b
unfolding same
same-eq true true h = refl
same-eq true false h = cc
same-eq false true h = cc
same-eq false false h = refl

abbrev pub granted_all : Bool → Bool → Bool → Bool → Bool → Bool → Bool
granted_all p q s r w x = granted p r && (granted q w && granted s x)

abbrev asked_test : Bool → Bool → Bool → Bool → Bool → Bool → Bool
asked_test p q s r w x =
    same (bit_and (rights r w x) (rights p q s) == rights p q s) (granted_all p q s r w x)

table :
    every
      (λ p. every (λ q. every (λ s. every (λ r. every (λ w. every (λ x. asked_test p q s r w x))))))
    ≡ true
unfolding every same
table = refl

-- The bits that are asked for are among those given exactly where each right asked for is given.
pub bit_and-rights :
    (p q s r w x : Bool)
    → (bit_and (rights r w x) (rights p q s) == rights p q s) ≡ granted_all p q s r w x
bit_and-rights p q s r w x = same-eq _ _ (
    every-true (asked_test p q s r w)
      (every-true (λ w'. every (asked_test p q s r w'))
        (every-true (λ r'. every (λ w'. every (asked_test p q s r' w')))
          (every-true (λ s'. every (λ r'. every (λ w'. every (asked_test p q s' r' w'))))
            (every-true
              (λ q'. every (λ s'. every (λ r'. every (λ w'. every (asked_test p q' s' r' w')))))
              (every-true
                (λ p'. every (λ q'.
                  every (λ s'. every (λ r'. every (λ w'. every (asked_test p' q' s' r' w'))))))
                table p)
              q)
            s)
          r)
        w)
      x)

-- Whether a right is among the bits.
pub bit_and-read : (r w x : Bool) → (bit_and (rights r w x) 1 == 0) ≡ not r
bit_and-read true true true = refl
bit_and-read true true false = refl
bit_and-read true false true = refl
bit_and-read true false false = refl
bit_and-read false true true = refl
bit_and-read false true false = refl
bit_and-read false false true = refl
bit_and-read false false false = refl
