-- ===== src/Bytes/Laws.antt =====
-- Integers and their bytes, tuples and their packed form.
use memslicer.Prelude.{
  ◌∙◌, ◌-◌, ℕ, zero, suc, ◌/◌, ◌^◌, ◌<◌, ◌≡◌, refl, ap, true, [], ◌∷◌, ◌++◌, append-nil,
  append_assoc, length, take, replicate, length-append, length-replicate, length-take,
  take-append_length, drop-append_length, take_all, All, ok, arith, lt→ltb, ==_refl,
}
use memslicer.Bytes.{
  Bytes, IsByte, to_le, from_le, zeros, fixed, bytes_eq, uint, str, pad, Format, Tuple, calcsize,
  encode, in_range, pack, decode, unpack, Fits,
}
use native.Mathlib.Nat.{pow-suc}

pub length-to_le : (w n : ℕ) → length (to_le w n) ≡ w
unfolding to_le
length-to_le zero n = refl
length-to_le (suc w) n = ap suc (length-to_le w (n / 256))

pub to_le-IsByte : (w n : ℕ) → All IsByte (to_le w n)
unfolding to_le
to_le-IsByte zero n = tt
to_le-IsByte (suc w) n = (omega arith, to_le-IsByte w (n / 256))

-- A number below 256 ^ w is read back from its w bytes.
pub from_le-to_le : (w n : ℕ) → n < 256 ^ w → from_le (to_le w n) ≡ n
unfolding to_le from_le
from_le-to_le zero n h = omega arith
from_le-to_le (suc w) n h =
    let ih : from_le (to_le w (n / 256)) ≡ n / 256 =
      from_le-to_le w (n / 256) (omega (arith, pow-suc 256 w)) in
    omega arith

pub from_le-lt : (b : Bytes) → All IsByte b → from_le b < 256 ^ length b
unfolding from_le
from_le-lt [] h = omega arith
from_le-lt (x ∷ b) (hx, h) = omega (arith, pow-suc 256 (length b), from_le-lt b h)

pub length-zeros : (n : ℕ) → length (zeros n) ≡ n
unfolding zeros
length-zeros n = length-replicate n 0

pub length-fixed : (w : ℕ) (b : Bytes) → length (fixed w b) ≡ w
unfolding fixed
length-fixed w b = omega (
  arith,
  length-append (take w b) (replicate (w - length b) 0),
  length-take w b,
  length-replicate (w - length b) (let z : ℕ = 0 in z),
)

pub fixed_self : (w : ℕ) (b : Bytes) → length b ≡ w → fixed w b ≡ b
unfolding fixed
fixed_self w b h =
    let e : w - length b ≡ 0 = omega arith in rw (e, take_all w b (omega arith)) (append-nil b)

pub bytes_eq_refl : (b : Bytes) → bytes_eq b b ≡ true
unfolding bytes_eq
bytes_eq_refl [] = refl
bytes_eq_refl (x ∷ b) = rw (==_refl x, bytes_eq_refl b)

pub bytes_eq→eq : (a b : Bytes) → bytes_eq a b ≡ true → a ≡ b
unfolding bytes_eq
bytes_eq→eq [] [] h = refl
bytes_eq→eq [] (y ∷ b) h = cc
bytes_eq→eq (x ∷ a) [] h = cc
bytes_eq→eq (x ∷ a) (y ∷ b) h = ground (arith, bytes_eq→eq a b)

pub length-encode : (k : Format) (t : Tuple k) → length (encode k t) ≡ calcsize k
unfolding encode
length-encode [] t = refl
length-encode (uint w ∷ k) (n, t) =
    omega (arith, length-append (to_le w n) (encode k t), length-to_le w n, length-encode k t)
length-encode (str w ∷ k) (b, t) =
    omega (arith, length-append (fixed w b) (encode k t), length-fixed w b, length-encode k t)
length-encode (pad w ∷ k) t = omega (
  arith,
  length-append (replicate w (let z : ℕ = 0 in z)) (encode k t),
  length-replicate w (let z : ℕ = 0 in z),
  length-encode k t,
)

pub Fits-in_range : (k : Format) (t : Tuple k) → Fits k t → in_range k t ≡ true
unfolding in_range
Fits-in_range [] t h = refl
Fits-in_range (uint w ∷ k) (n, t) (hn, h) = rw (lt→ltb _ _ hn, Fits-in_range k t h)
Fits-in_range (str w ∷ k) (b, t) (hb, h) = Fits-in_range k t h
Fits-in_range (pad w ∷ k) t h = Fits-in_range k t h

-- The packed bytes, with anything behind them, give the tuple back.
pub decode-encode :
    (k : Format) (t : Tuple k) (rest : Bytes) → Fits k t → decode k (encode k t ++ rest) ≡ t
unfolding decode encode
decode-encode [] t rest h = refl
decode-encode (uint w ∷ k) (n, t) rest (hn, h) =
    let e = append_assoc (to_le w n) (encode k t) rest in
    rw (
      e,
      take-append_length w (to_le w n) (encode k t ++ rest) (length-to_le w n),
      drop-append_length w (to_le w n) (encode k t ++ rest) (length-to_le w n),
      from_le-to_le w n hn,
      decode-encode k t rest h,
    )
decode-encode (str w ∷ k) (b, t) rest (hb, h) = rw (
  fixed_self w b hb,
  append_assoc b (encode k t) rest,
  take-append_length w b (encode k t ++ rest) hb,
  drop-append_length w b (encode k t ++ rest) hb,
  decode-encode k t rest h,
)
decode-encode (pad w ∷ k) t rest h = rw (
  append_assoc (replicate w 0) (encode k t) rest,
  drop-append_length w (replicate w 0) (encode k t ++ rest) (length-replicate w 0),
  decode-encode k t rest h,
)

pub pack-Fits : (k : Format) (t : Tuple k) → Fits k t → pack k t ≡ ok (encode k t)
unfolding pack
pack-Fits k t h = rw (Fits-in_range k t h)

-- `pack` answers the encoding or raises, and what it answers has the length of its format.
pub pack-eq-ok :
    (k : Format) (t : Tuple k) {b : Bytes}
    → pack k t ≡ ok b
    → (b ≡ encode k t) × (in_range k t ≡ true)
unfolding pack
pack-eq-ok k t h = ground arith

pub unpack-encode : (k : Format) (t : Tuple k) → Fits k t → unpack k (encode k t) ≡ ok t
unfolding unpack
unpack-encode k t h =
    rw (length-encode k t, ==_refl (calcsize k)) (ap ok (rw append-nil at (decode-encode k t [] h)))

-- The tuple with each string cut or filled to its width.
abbrev pub trim : (k : Format) → Tuple k → Tuple k
trim [] t = tt
trim (uint w ∷ k) (n, t) = (n, trim k t)
trim (str w ∷ k) (b, t) = (fixed w b, trim k t)
trim (pad w ∷ k) t = trim k t

-- A tuple that packs is read back with its strings cut or filled.
pub decode-encode-trim :
    (k : Format) (t : Tuple k) (rest : Bytes)
    → in_range k t ≡ true
    → decode k (encode k t ++ rest) ≡ trim k t
unfolding decode encode in_range
decode-encode-trim [] t rest h = refl
decode-encode-trim (uint w ∷ k) (n, t) rest h =
    let (hn, hk) : (n < 256 ^ w) × (in_range k t ≡ true) = ground arith in
    rw (
      append_assoc (to_le w n) (encode k t) rest,
      take-append_length w (to_le w n) (encode k t ++ rest) (length-to_le w n),
      drop-append_length w (to_le w n) (encode k t ++ rest) (length-to_le w n),
      from_le-to_le w n hn,
      decode-encode-trim k t rest hk,
    )
decode-encode-trim (str w ∷ k) (b, t) rest h = rw (
  append_assoc (fixed w b) (encode k t) rest,
  take-append_length w (fixed w b) (encode k t ++ rest) (length-fixed w b),
  drop-append_length w (fixed w b) (encode k t ++ rest) (length-fixed w b),
  decode-encode-trim k t rest h,
)
decode-encode-trim (pad w ∷ k) t rest h = rw (
  append_assoc (replicate w 0) (encode k t) rest,
  drop-append_length w (replicate w 0) (encode k t ++ rest) (length-replicate w 0),
  decode-encode-trim k t rest h,
)

-- The first bytes of what a packed tuple starts are unpacked to it.
pub unpack-take-encode :
    (k : Format) (t : Tuple k) (n : ℕ) (rest : Bytes)
    → calcsize k ≡ n
    → in_range k t ≡ true
    → unpack k (take n (encode k t ++ rest)) ≡ ok (trim k t)
unfolding unpack
unpack-take-encode k t n rest size h =
    let e : take n (encode k t ++ rest) ≡ encode k t =
      take-append_length n (encode k t) rest (length-encode k t ∙ size) in
    rw (e, length-encode k t, ==_refl (calcsize k))
      (ap ok (rw (append-nil (encode k t)) at (decode-encode-trim k t [] h)))
