-- ===== src/State/Codec/RoundTrip.antt =====
-- Fields that fit their widths are read back as they were written.
use allwinprotocol.Base.{
  ℕ, zero, suc, ◌+◌, ◌*◌, ◌/◌, ◌%◌, ◌^◌, ◌≤◌, ◌<◌, ◌≡◌, refl, Bool, true, false, List, [], ◌∷◌,
  ◌++◌, arith, take, drop, length, length-append, drop-append, ap, Fits, ltb, le→ltb, All,
}
use mathlib.Core.List.{append_assoc}
use native.Mathlib.Nat.{pow-suc, pow-zero}
use allwinprotocol.Error.{Result, ok, ◌>>=◌}
use allwinprotocol.State.Codec.{
  to_le_bytes, from_le_bytes, array_refs, write_fields, pack_decimal, pack_bool, unpack_bool,
  unwrap_u8,
}

pub from_le_bytes-to_le_bytes : (k n : ℕ) → n < 256 ^ k → from_le_bytes (to_le_bytes k n) ≡ n
unfolding to_le_bytes from_le_bytes
from_le_bytes-to_le_bytes zero n h = omega arith
from_le_bytes-to_le_bytes (suc k) n h =
    omega (arith, from_le_bytes-to_le_bytes k (n / 256) (omega (arith, pow-suc 256 k)))

pub length-to_le_bytes : (k n : ℕ) → length (to_le_bytes k n) ≡ k
unfolding to_le_bytes
length-to_le_bytes zero n = refl
length-to_le_bytes (suc k) n = ap suc (length-to_le_bytes k (n / 256))

take-append-to_le_bytes :
    (k n : ℕ) (rest : List ℕ) → take k (to_le_bytes k n ++ rest) ≡ to_le_bytes k n
unfolding to_le_bytes
take-append-to_le_bytes zero n rest = refl
take-append-to_le_bytes (suc k) n rest =
    ap (λ l. (n % 256) ∷ l) (take-append-to_le_bytes k (n / 256) rest)

drop-append-to_le_bytes : (k n : ℕ) (rest : List ℕ) → drop k (to_le_bytes k n ++ rest) ≡ rest
unfolding to_le_bytes
drop-append-to_le_bytes zero n rest = refl
drop-append-to_le_bytes (suc k) n rest = drop-append-to_le_bytes k (n / 256) rest

-- What a reader of `k` bytes sees in front of the rest.
pub read-append :
    (k n : ℕ) (rest : List ℕ)
    → n < 256 ^ k
    → (ltb (length (to_le_bytes k n ++ rest)) k ≡ false)
      × (from_le_bytes (take k (to_le_bytes k n ++ rest)) ≡ n)
      × (drop k (to_le_bytes k n ++ rest) ≡ rest)
read-append k n rest h = (
  le→ltb (length (to_le_bytes k n ++ rest)) k
      (omega (arith, length-append (to_le_bytes k n) rest, length-to_le_bytes k n)),
  rw (take-append-to_le_bytes k n rest) (from_le_bytes-to_le_bytes k n h),
  drop-append-to_le_bytes k n rest,
)

abbrev pub widths : List (ℕ × ℕ) → List ℕ
widths [] = []
widths ((w, n) ∷ fields) = w ∷ widths fields

abbrev pub values : List (ℕ × ℕ) → List ℕ
values [] = []
values ((w, n) ∷ fields) = n ∷ values fields

abbrev pub total : List ℕ → ℕ
total [] = 0
total (w ∷ ws) = w + total ws

abbrev pub FieldsFit : List (ℕ × ℕ) → Type 0
FieldsFit [] = Unit {0}
FieldsFit ((w, n) ∷ fields) = (n < 256 ^ w) × FieldsFit fields

pub array_refs-write_fields :
    (fields : List (ℕ × ℕ)) (rest : List ℕ)
    → FieldsFit fields
    → array_refs (widths fields) (write_fields fields ++ rest) ≡ values fields
unfolding array_refs write_fields
array_refs-write_fields [] rest h = refl
array_refs-write_fields ((w, n) ∷ fields) rest h = rw (
  append_assoc,
  take-append-to_le_bytes,
  drop-append-to_le_bytes,
  from_le_bytes-to_le_bytes w n h.0,
  array_refs-write_fields fields rest h.1,
)

-- What is read of a field of `w` bytes: what of the number fits them.
unfoldable pub cut : ℕ → ℕ → ℕ
unfolding to_le_bytes from_le_bytes
cut w n = from_le_bytes (to_le_bytes w n)

pub cut_lem : (w n : ℕ) → n < 256 ^ w → cut w n ≡ n
unfolding cut
cut_lem w n h = from_le_bytes-to_le_bytes w n h

from_le_bytes-to_le_bytes_lt : (w n : ℕ) → from_le_bytes (to_le_bytes w n) < 256 ^ w
unfolding to_le_bytes from_le_bytes
from_le_bytes-to_le_bytes_lt zero n = omega (arith, pow-zero 256)
from_le_bytes-to_le_bytes_lt (suc w) n =
    omega (arith, from_le_bytes-to_le_bytes_lt w (n / 256), pow-suc 256 w)

pub cut-cut : (w n : ℕ) → cut w (cut w n) ≡ cut w n
unfolding cut
cut-cut w n = from_le_bytes-to_le_bytes w (cut w n) (from_le_bytes-to_le_bytes_lt w n)

abbrev pub cut_values : List (ℕ × ℕ) → List ℕ
cut_values [] = []
cut_values ((w, n) ∷ fields) = cut w n ∷ cut_values fields

pub array_refs-write_fields_cut :
    (fields : List (ℕ × ℕ)) (rest : List ℕ)
    → array_refs (widths fields) (write_fields fields ++ rest) ≡ cut_values fields
unfolding array_refs write_fields cut
array_refs-write_fields_cut [] rest = refl
array_refs-write_fields_cut ((w, n) ∷ fields) rest = rw (
  append_assoc,
  take-append-to_le_bytes,
  drop-append-to_le_bytes,
  array_refs-write_fields_cut fields rest,
)

pub length-write_fields :
    (fields : List (ℕ × ℕ)) → length (write_fields fields) ≡ total (widths fields)
unfolding write_fields
length-write_fields [] = refl
length-write_fields ((w, n) ∷ fields) = omega (
  arith,
  length-append (to_le_bytes w n) (write_fields fields),
  length-to_le_bytes w n,
  length-write_fields fields,
)

-- Dropping what was written.
pub drop-write_fields :
    (fields : List (ℕ × ℕ)) (rest : List ℕ)
    → drop (total (widths fields)) (write_fields fields ++ rest) ≡ rest
drop-write_fields fields rest =
    rw (← length-write_fields fields) (drop-append (write_fields fields) rest)

pub unpack_bool-pack_bool : (b : Bool) → unpack_bool (pack_bool b) ≡ ok b
unfolding unpack_bool pack_bool
unpack_bool-pack_bool true = refl
unpack_bool-pack_bool false = refl

pub pack_bool-lt : (b : Bool) → pack_bool b < 256
unfolding pack_bool
pack_bool-lt true = omega arith
pack_bool-lt false = omega arith

pub pack_decimal-ok : (d : ℕ) → Fits 128 d → pack_decimal d ≡ ok d
unfolding pack_decimal
pack_decimal-ok d h = ground arith

-- A decimal that is packed with success is packed as it is.
pub pack_decimal->>= {ℓ} :
    {A : Type ℓ} (d : ℕ) (rest : ℕ → Result A) {a : A}
    → (pack_decimal d >>= rest) ≡ ok a
    → rest d ≡ ok a
unfolding pack_decimal
pack_decimal->>= d rest h = ground arith

pub unwrap_u8-ok : (n : ℕ) → Fits 8 n → unwrap_u8 n ≡ ok n
unfolding unwrap_u8
unwrap_u8-ok n h = ground arith

abbrev pub IsByte : ℕ → Type 0
IsByte b = b < 256

digit : (b n : ℕ) → b < 256 → ((b + 256 * n) % 256 ≡ b) × ((b + 256 * n) / 256 ≡ n)
digit b n h = omega arith

-- The first `k` bytes are those of the number that they spell.
pub read_split :
    (k : ℕ) (bs : List ℕ)
    → All IsByte bs
    → k ≤ length bs
    → (bs ≡ to_le_bytes k (from_le_bytes (take k bs)) ++ drop k bs)
      × (from_le_bytes (take k bs) < 256 ^ k)
      × All IsByte (drop k bs)
unfolding to_le_bytes from_le_bytes
read_split zero bs h le = (refl, omega arith, h)
read_split (suc k) [] h le = absurd (omega arith)
read_split (suc k) (b ∷ bs) h le =
    let (same, small, bytes) = read_split k bs h.1 (omega arith) in
    let (low, high) = digit b (from_le_bytes (take k bs)) h.0 in
    (rw (low, high) (ap (λ l. b ∷ l) same), omega (arith, pow-suc 256 k, small), bytes)
