-- ===== src/Acquirer/Bridge/Laws.antt =====
-- The names that a bridge gives to registers.
use memslicer.Prelude.{
  ℕ, ◌≡◌, refl, ap, Bool, true, false, ◌&&◌, [], ◌∷◌, same_text, if◌then◌else◌, arith, ◌==◌,
}
use memslicer.Utils.{Text}
use memslicer.Msl.Constants.{
  ArchType, x86, x86_64, arm64, arm32, mips32, mips64, riscv32, riscv64, ppc32, ppc64, s390x,
  loongarch64, unknown_arch,
}
use memslicer.Bytes.{bytes_eq}
use memslicer.Emu.Loader.{normalise}
use memslicer.Acquirer.Bridge.{canonical_of, canonical_register_name, lower, lower_char}

lower_char_idem : (c : ℕ) → lower_char (lower_char c) ≡ lower_char c
unfolding lower_char
lower_char_idem c = ground arith

lower_idem : (s : Text) → lower (lower s) ≡ lower s
unfolding lower
lower_idem [] = refl
lower_idem (c ∷ cs) = rw (lower_char_idem c) (ap (λ (t : Text). lower_char c ∷ t) (lower_idem cs))

abbrev Settled : ArchType → Text → Type 0
Settled arch t = canonical_of arch (lower t) ≡ t

-- Both answers of a test.
split :
    (P : Text → Type 0) (b : Bool) (t u : Text) → P t → (b ≡ false → P u) → P (if b then t else u)
split P true t u ht hu = ht
split P false t u ht hu = hu refl

module _ (n : Text) (low : lower n ≡ n) where
  x86_64-Settled : Settled x86_64 (canonical_of x86_64 n)
  unfolding canonical_of lower lower_char
  x86_64-Settled =
      split (Settled x86_64) (same_text n (b'e' ∷ b'f' ∷ b'l' ∷ b'a' ∷ b'g' ∷ b's' ∷ [])) _ n refl
        (λ e. rw (low, canonical_of, e) refl)

  arm64-Settled : Settled arm64 (canonical_of arm64 n)
  unfolding canonical_of lower lower_char
  arm64-Settled = split (Settled arm64) (same_text n (b'f' ∷ b'p' ∷ [])) _ _ refl (λ e1.
      split (Settled arm64) (same_text n (b'l' ∷ b'r' ∷ [])) _ _ refl (λ e2.
        split (Settled arm64) (same_text n (b'c' ∷ b'p' ∷ b's' ∷ b'r' ∷ [])) _ _ refl (λ e3.
          split (Settled arm64) (same_text n (b't' ∷ b'p' ∷ b'i' ∷ b'd' ∷ b'r' ∷ [])) _ _ refl
            (λ e4. rw (low, canonical_of, e1, e2, e3, e4) refl))))

  arm32-Settled : Settled arm32 (canonical_of arm32 n)
  unfolding canonical_of lower lower_char
  arm32-Settled = split (Settled arm32) (same_text n (b'r' ∷ b'1' ∷ b'3' ∷ [])) _ _ refl (λ e1.
      split (Settled arm32) (same_text n (b'r' ∷ b'1' ∷ b'4' ∷ [])) _ _ refl (λ e2.
        split (Settled arm32) (same_text n (b'r' ∷ b'1' ∷ b'5' ∷ [])) _ _ refl
          (λ e3. rw (low, canonical_of, e1, e2, e3) refl)))

  canonical_of-Settled : (arch : ArchType) → Settled arch (canonical_of arch n)
  unfolding canonical_of
  canonical_of-Settled x86_64 = x86_64-Settled
  canonical_of-Settled arm64 = arm64-Settled
  canonical_of-Settled arm32 = arm32-Settled
  canonical_of-Settled x86 = low
  canonical_of-Settled mips32 = low
  canonical_of-Settled mips64 = low
  canonical_of-Settled riscv32 = low
  canonical_of-Settled riscv64 = low
  canonical_of-Settled ppc32 = low
  canonical_of-Settled ppc64 = low
  canonical_of-Settled s390x = low
  canonical_of-Settled loongarch64 = low
  canonical_of-Settled unknown_arch = low

-- A canonical name is its own canonical name.
pub canonical_register_name_idem :
    (name : Text) (arch : ArchType)
    → canonical_register_name (canonical_register_name name arch) arch
      ≡ canonical_register_name name arch
unfolding canonical_register_name
canonical_register_name_idem name arch = canonical_of-Settled (lower name) (lower_idem name) arch

bytes_eq-same_text : (a b : Text) → bytes_eq a b ≡ same_text a b
unfolding bytes_eq
bytes_eq-same_text [] [] = refl
bytes_eq-same_text [] (y ∷ b) = refl
bytes_eq-same_text (x ∷ a) [] = refl
bytes_eq-same_text (x ∷ a) (y ∷ b) = ap (λ (t : Bool). x == y && t) (bytes_eq-same_text a b)

-- The name that a bridge gives to an ARM64 register is not one of the aliases that the loader
-- replaces.
pub normalise-canonical_register_name :
    (name : Text)
    → normalise (canonical_register_name name arm64) ≡ canonical_register_name name arm64
unfolding canonical_register_name canonical_of normalise bytes_eq
normalise-canonical_register_name name =
    let n : Text = lower name in
    split (λ t. normalise t ≡ t) (same_text n (b'f' ∷ b'p' ∷ [])) _ _ refl
      (λ e1.
        split (λ t. normalise t ≡ t) (same_text n (b'l' ∷ b'r' ∷ [])) _ _ refl
          (λ e2.
            split (λ t. normalise t ≡ t) (same_text n (b'c' ∷ b'p' ∷ b's' ∷ b'r' ∷ [])) _ _ refl
              (λ e3.
                split (λ t. normalise t ≡ t) (same_text n (b't' ∷ b'p' ∷ b'i' ∷ b'd' ∷ b'r' ∷ [])) _
                  _ refl
                  (λ e4.
                    rw
                      (
                        bytes_eq-same_text n (b'f' ∷ b'p' ∷ []),
                        bytes_eq-same_text n (b'l' ∷ b'r' ∷ []),
                        e1,
                        e2,
                      )
                      refl))))
