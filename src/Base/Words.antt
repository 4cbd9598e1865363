-- ===== src/Base/Words.antt =====
-- Byte strings: a `&[u8]` is a list of numbers. Comparison, and big-endian words.
use Prim.Native.Nat.{ℕ, zero, suc, ◌+◌, ◌-◌, ◌*◌, ◌/◌, ◌%◌, ◌^◌, ◌<◌}
use mathlib.Core.Path.{◌≡◌, refl, ap}
use mathlib.Core.Bool.{Bool, true, false, ◌&&◌}
use mathlib.Core.Option.{Option, none, some}
use mathlib.Core.List.{List, [], ◌∷◌}
use native.Mathlib.Nat.{pow-suc, div-div-eq-div-mul}
use native.Mathlib.Omega.{arith}
use tine_storage.Base.Tests.{◌==◌, ltb, if◌then◌else◌}
use tine_storage.Base.Lists.{All, length, replicate}

abbrev pub Bytes : Type 0
Bytes = List ℕ

abbrev pub IsByte : ℕ → Type 0
IsByte b = b < 256

abbrev pub IsBytes : Bytes → Type 0
IsBytes = All IsByte

-- `left == right` on byte slices.
unfoldable pub bytes_eq : Bytes → Bytes → Bool
bytes_eq [] [] = true
bytes_eq [] (y ∷ ys) = false
bytes_eq (x ∷ xs) [] = false
bytes_eq (x ∷ xs) (y ∷ ys) = x == y && bytes_eq xs ys

pub bytes_eq_sound : (xs ys : Bytes) → bytes_eq xs ys ≡ true → xs ≡ ys
unfolding bytes_eq
bytes_eq_sound [] [] h = refl
bytes_eq_sound [] (y ∷ ys) h = cc
bytes_eq_sound (x ∷ xs) [] h = cc
bytes_eq_sound (x ∷ xs) (y ∷ ys) h = ground (arith, bytes_eq_sound xs ys)

pub bytes_eq_refl : (xs : Bytes) → bytes_eq xs xs ≡ true
unfolding bytes_eq
bytes_eq_refl [] = refl
bytes_eq_refl (x ∷ xs) = ground (arith, bytes_eq_refl xs)

-- `bytes.iter().any(|byte| *byte != 0)`
unfoldable pub any_nonzero : Bytes → Bool
any_nonzero [] = false
any_nonzero (x ∷ xs) = if x == 0 then any_nonzero xs else true

pub any_nonzero-replicate : (n : ℕ) → any_nonzero (replicate n 0) ≡ false
unfolding any_nonzero
any_nonzero-replicate zero = refl
any_nonzero-replicate (suc n) = any_nonzero-replicate n

pub any_nonzero_sound : (xs : Bytes) → any_nonzero xs ≡ false → xs ≡ replicate (length xs) 0
unfolding any_nonzero
any_nonzero_sound [] h = refl
any_nonzero_sound (x ∷ xs) h = ground (arith, any_nonzero_sound xs)

-- `n.to_be_bytes()` of a word of `width` bytes.
unfoldable pub to_be_bytes : ℕ → ℕ → Bytes
to_be_bytes zero n = []
to_be_bytes (suc width) n = (n / 256 ^ width % 256) ∷ to_be_bytes width n

unfoldable pub be_fold : ℕ → Bytes → ℕ
be_fold acc [] = acc
be_fold acc (b ∷ bs) = be_fold (acc * 256 + b) bs

-- `from_be_bytes`
unfoldable pub from_be_bytes : Bytes → ℕ
unfolding be_fold
from_be_bytes bs = be_fold 0 bs

pub length-to_be_bytes : (width n : ℕ) → length (to_be_bytes width n) ≡ width
unfolding to_be_bytes
length-to_be_bytes zero n = refl
length-to_be_bytes (suc width) n = ap suc (length-to_be_bytes width n)

pub to_be_bytes-IsBytes : (width n : ℕ) → IsBytes (to_be_bytes width n)
unfolding to_be_bytes
to_be_bytes-IsBytes zero n = tt
to_be_bytes-IsBytes (suc width) n = (omega arith, to_be_bytes-IsBytes width n)

pub from-to_be32 : (n : ℕ) → n < 2 ^ 32 → from_be_bytes (to_be_bytes 4 n) ≡ n
unfolding from_be_bytes to_be_bytes
from-to_be32 n h = omega arith

pub from-to_be64 : (n : ℕ) → n < 2 ^ 64 → from_be_bytes (to_be_bytes 8 n) ≡ n
unfolding from_be_bytes to_be_bytes
from-to_be64 n h = omega arith

-- `a.checked_add(b)` on `u64`, and on `usize` of a 64-bit target.
abbrev pub checked_add : ℕ → ℕ → Option ℕ
checked_add a b = if ltb (a + b) (2 ^ 64) then some (a + b) else none

-- `a.saturating_add(b)` on `u64`.
abbrev pub saturating_add : ℕ → ℕ → ℕ
saturating_add a b = if ltb (a + b) (2 ^ 64) then a + b else 2 ^ 64 - 1

be_fold-div : (bs : Bytes) (acc : ℕ) → IsBytes bs → be_fold acc bs / 256 ^ length bs ≡ acc
unfolding be_fold
be_fold-div [] acc h = omega arith
be_fold-div (b ∷ bs) acc h =
    rw (pow-suc, ← div-div-eq-div-mul, be_fold-div bs (acc * 256 + b) h.1) (omega (arith, h.0))

to_be-be_fold : (bs : Bytes) (acc : ℕ) → IsBytes bs → to_be_bytes (length bs) (be_fold acc bs) ≡ bs
unfolding be_fold to_be_bytes
to_be-be_fold [] acc h = refl
to_be-be_fold (b ∷ bs) acc h =
    let e : (acc * 256 + b) % 256 ≡ b = omega (arith, h.0) in
    rw (be_fold-div bs (acc * 256 + b) h.1, e, to_be-be_fold bs (acc * 256 + b) h.1)

-- A field of `width` bytes is what its value is written as.
pub to_be-from_be :
    (width : ℕ) (bs : Bytes)
    → length bs ≡ width
    → IsBytes bs
    → to_be_bytes width (from_be_bytes bs) ≡ bs
unfolding from_be_bytes
to_be-from_be width bs n h = rw (← n) (to_be-be_fold bs 0 h)

pub from_be64-lt : (bs : Bytes) → length bs ≡ 8 → IsBytes bs → from_be_bytes bs < 2 ^ 64
unfolding from_be_bytes
from_be64-lt bs n h = let q = rw n at (be_fold-div bs 0 h) in omega (arith, q)

pub from_be32-lt : (bs : Bytes) → length bs ≡ 4 → IsBytes bs → from_be_bytes bs < 2 ^ 32
unfolding from_be_bytes
from_be32-lt bs n h = let q = rw n at (be_fold-div bs 0 h) in omega (arith, q)
