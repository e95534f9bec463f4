-- ===== src/Bytes.antt =====
-- Python's `bytes` as lists of numbers below 256, and the standard `struct` module as the program
-- uses it: a format is a list of kinds, and `pack` and `unpack` work on a tuple of its own type.
pub mod Laws
use memslicer.Prelude.{
  ℕ, zero, suc, ◌+◌, ◌*◌, ◌/◌, ◌%◌, ◌^◌, ◌<◌, ◌≡◌, Bool, true, false, List, [], ◌∷◌, ◌++◌, length,
  take, drop, replicate, ltb, ◌==◌, if◌then◌else◌, Result, ok, err, struct_error, ◌>>=◌,
}
use memslicer.Prelude.{◌-◌, ◌&&◌}

abbrev pub Bytes : Type 0
Bytes = List ℕ

abbrev pub IsByte : ℕ → Type 0
IsByte b = b < 256

-- `int.to_bytes(width, "little")`, for a number that fits
unfoldable pub to_le : ℕ → ℕ → Bytes
to_le zero n = []
to_le (suc w) n = (n % 256) ∷ to_le w (n / 256)

-- `int.from_bytes(b, "little")`
unfoldable pub from_le : Bytes → ℕ
from_le [] = 0
from_le (b ∷ bs) = b + 256 * from_le bs

-- b"\x00" * n
unfoldable pub zeros : ℕ → Bytes
zeros n = replicate n 0

-- A byte string cut or filled with zeros to `w` bytes, as the format `s` does.
unfoldable pub fixed : ℕ → Bytes → Bytes
fixed w b = take w b ++ replicate (w - length b) 0

-- `data[lo:hi]`, for bounds that are not negative
abbrev pub slice : ℕ → ℕ → Bytes → Bytes
slice lo hi b = take (hi - lo) (drop lo b)

unfoldable pub bytes_eq : Bytes → Bytes → Bool
bytes_eq [] [] = true
bytes_eq [] (b ∷ bs) = false
bytes_eq (a ∷ as') [] = false
bytes_eq (a ∷ as') (b ∷ bs) = a == b && bytes_eq as' bs

-- One item of a little-endian format: an unsigned integer of `w` bytes, `w`s, or `w` pad bytes.
pub data Kind : Type 0 where
  uint : ℕ → Kind
  str : ℕ → Kind
  pad : ℕ → Kind

abbrev pub u8 : Kind
u8 = uint 1

abbrev pub u16 : Kind
u16 = uint 2

abbrev pub u32 : Kind
u32 = uint 4

abbrev pub u64 : Kind
u64 = uint 8

abbrev pub Format : Type 0
Format = List Kind

-- What a format packs: a tuple that ends in `tt`.
abbrev pub Tuple : Format → Type 0
Tuple [] = Unit {0}
Tuple (uint w ∷ k) = ℕ × Tuple k
Tuple (str w ∷ k) = Bytes × Tuple k
Tuple (pad w ∷ k) = Tuple k

abbrev pub calcsize : Format → ℕ
calcsize [] = 0
calcsize (uint w ∷ k) = w + calcsize k
calcsize (str w ∷ k) = w + calcsize k
calcsize (pad w ∷ k) = w + calcsize k

-- The bytes of a tuple whose integers are in range.
unfoldable pub encode : (k : Format) → Tuple k → Bytes
encode [] t = []
encode (uint w ∷ k) (n, t) = to_le w n ++ encode k t
encode (str w ∷ k) (b, t) = fixed w b ++ encode k t
encode (pad w ∷ k) t = replicate w 0 ++ encode k t

-- `struct` raises where an integer does not fit its width.
unfoldable pub in_range : (k : Format) → Tuple k → Bool
in_range [] t = true
in_range (uint w ∷ k) (n, t) = ltb n (256 ^ w) && in_range k t
in_range (str w ∷ k) (b, t) = in_range k t
in_range (pad w ∷ k) t = in_range k t

-- struct.pack("<...", ...)
unfoldable pub pack : (k : Format) → Tuple k → Result Bytes
pack k t = if in_range k t then ok (encode k t) else err struct_error

unfoldable pub decode : (k : Format) → Bytes → Tuple k
decode [] b = tt
decode (uint w ∷ k) b = (from_le (take w b), decode k (drop w b))
decode (str w ∷ k) b = (take w b, decode k (drop w b))
decode (pad w ∷ k) b = decode k (drop w b)

-- struct.unpack("<...", b): the length must be that of the format.
unfoldable pub unpack : (k : Format) → Bytes → Result (Tuple k)
unpack k b = if length b == calcsize k then ok (decode k b) else err struct_error

-- What a tuple must meet to come back unchanged: integers in range, strings of their width.
abbrev pub Fits : (k : Format) → Tuple k → Type 0
Fits [] t = Unit {0}
Fits (uint w ∷ k) (n, t) = (n < 256 ^ w) × Fits k t
Fits (str w ∷ k) (b, t) = (length b ≡ w) × Fits k t
Fits (pad w ∷ k) t = Fits k t
