-- ===== src/Patricia/Bits.antt =====
-- The bits of a key, most significant first, and the comparison of prefixes. A key is its bytes.
use Prim.Native.Nat.{bit_and}
use tine_storage.Base.{
  ℕ, zero, suc, ◌+◌, ◌-◌, ◌*◌, ◌/◌, ◌%◌, ◌^◌, ◌≤◌, ◌<◌, ◌≡◌, ◌≢◌, refl, min, Bool, true, false, not,
  none, some, [], ◌∷◌, Bytes, length, take, get_or, ltb, leb, ◌==◌, if◌then◌else◌, Result, ok,
  ◌>>=◌, ◌>>◌, refuse_if, ok_or, arith, Bool-cases, inl, inr,
}

-- `PatriciaError`
pub data PatriciaError : Type 0 where
  filesystem : PatriciaError
  publication : PatriciaError
  missing_node : Bytes → PatriciaError
  path_mismatch : Bytes → PatriciaError
  malformed : PatriciaError

unfoldable pub bool_eq : Bool → Bool → Bool
bool_eq true b = b
bool_eq false b = not b

-- `x.checked_mul(8)` on the 64-bit `usize`.
unfoldable pub key_bit_len : Bytes → Result PatriciaError ℕ
key_bit_len key =
    ok_or malformed (if ltb (length key * 8) (2 ^ 64) then some (length key * 8) else none)

-- `key[bit / 8] & (0x80 >> (bit % 8)) != 0`; every call is in range.
unfoldable pub key_bit_unchecked : Bytes → ℕ → Bool
key_bit_unchecked key bit = not (bit_and (get_or key (bit / 8) 0) (2 ^ (7 - bit % 8)) == 0)

unfoldable pub key_bit : Bytes → ℕ → Result PatriciaError Bool
key_bit key bit = do
  len ← key_bit_len key
  refuse_if (leb len bit) malformed
  ok (key_bit_unchecked key bit)

-- `(bit..bit + count).find(..).unwrap_or(bit + count)`
unfoldable pub first_difference : ℕ → ℕ → Bytes → Bytes → ℕ
first_difference zero bit left right = bit
first_difference (suc count) bit left right =
    if bool_eq (key_bit_unchecked left bit) (key_bit_unchecked right bit)
    then first_difference count (suc bit) left right
    else bit

unfoldable pub common_prefix_bits : Bytes → Bytes → ℕ → Result PatriciaError ℕ
common_prefix_bits left right limit = do
  left_bits ← key_bit_len left
  right_bits ← key_bit_len right
  ok (first_difference (min (min limit left_bits) right_bits) 0 left right)

unfoldable pub match_prefix : Bytes → Bytes → ℕ → Result PatriciaError Bool
match_prefix key prefix bits = do
  prefix_bits ← key_bit_len prefix
  (if ltb prefix_bits bits
      then ok false
      else (common_prefix_bits key prefix bits >>= λ shared. ok (shared == bits)))

-- `&&` stops at the first test that fails.
unfoldable pub prefix_matches : Bytes → Bytes → ℕ → Result PatriciaError Bool
prefix_matches key prefix bits = do
  key_bits ← key_bit_len key
  (if ltb key_bits bits then ok false else match_prefix key prefix bits)

-- `*last &= mask`, where there is a last byte.
unfoldable pub mask_last : ℕ → Bytes → Bytes
mask_last mask [] = []
mask_last mask (x ∷ []) = bit_and x mask ∷ []
mask_last mask (x ∷ (y ∷ ys)) = x ∷ mask_last mask (y ∷ ys)

-- `0xff << (8 - bits % 8)` keeps its low byte, since the mask is a `u8`.
unfoldable pub masked_prefix : Bytes → ℕ → Bytes
masked_prefix key bits =
    let prefix = take (min ((bits + 7) / 8) (length key)) key in
    if bits % 8 == 0 then prefix else mask_last (255 * 2 ^ (8 - bits % 8) % 256) prefix

unfoldable pub traversal_node_budget : ℕ → Result PatriciaError ℕ
traversal_node_budget key_bytes =
    ok_or malformed (if ltb (key_bytes * 8 + 1) (2 ^ 64) then some (key_bytes * 8 + 1) else none)

bool_eq_sound : (a b : Bool) → bool_eq a b ≡ true → a ≡ b
unfolding bool_eq
bool_eq_sound true true h = refl
bool_eq_sound true false h = cc
bool_eq_sound false true h = cc
bool_eq_sound false false h = refl

bool_eq-differs : (a b : Bool) → bool_eq a b ≡ false → a ≢ b
unfolding bool_eq
bool_eq-differs true true h = cc
bool_eq-differs true false h = cc
bool_eq-differs false true h = cc
bool_eq-differs false false h = cc

-- Two keys have the same bits from `from` on, in front of `to`.
pub record Agree (left right : Bytes) (from to : ℕ) : Type 0 where
  pub bits :
      (bit : ℕ) → from ≤ bit → bit < to → key_bit_unchecked left bit ≡ key_bit_unchecked right bit

Agree-extend :
    (left right : Bytes) (from to : ℕ)
    → key_bit_unchecked left from ≡ key_bit_unchecked right from
    → Agree left right (suc from) to
    → Agree left right from to
Agree-extend left right from to h rest = record {
  bits = λ bit low high. elim (Bool-cases (from == bit)) [
    | inl at ↦ let e : from ≡ bit = ground (arith, at) in rw (← e) h
    | inr behind ↦ rest.bits bit (ground (arith, behind, low)) high
  ];
}

-- The search stops at the first bit that differs, or at the end of its range.
pub first_difference_lem :
    (count bit : ℕ) (left right : Bytes)
    → (bit ≤ first_difference count bit left right)
      × (first_difference count bit left right ≤ bit + count)
      × Agree left right bit (first_difference count bit left right)
      × (first_difference count bit left right < bit + count
          → key_bit_unchecked left (first_difference count bit left right)
            ≢ key_bit_unchecked right (first_difference count bit left right))
unfolding first_difference
first_difference_lem zero bit left right = (
  omega arith,
  omega arith,
  record { bits = λ b low high. absurd (omega arith) },
  λ h. absurd (omega arith),
)
first_difference_lem (suc count) bit left right =
    elim (Bool-cases (bool_eq (key_bit_unchecked left bit) (key_bit_unchecked right bit))) [
      | inl same ↦
          let (low, high, agree, stop) = first_difference_lem count (suc bit) left right in
          rw same (
            omega arith,
            omega arith,
            Agree-extend left right bit (first_difference count (suc bit) left right)
                (bool_eq_sound _ _ same) agree,
            λ h. stop (omega arith),
          )
      | inr differs ↦ rw differs (
        omega arith,
        omega arith,
        record { bits = λ b low high. absurd (omega arith) },
        λ h. bool_eq-differs (key_bit_unchecked left bit) (key_bit_unchecked right bit) differs,
      )
    ]
