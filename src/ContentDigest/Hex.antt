-- ===== src/ContentDigest/Hex.antt =====
-- The hexadecimal text of a digest: `write_hex` and `parse_digest` undo each other.
use Prim.Native.Nat.{bit_and}
use tine_storage.Base.{
  ℕ, zero, suc, ◌+◌, ◌*◌, ◌/◌, ◌%◌, ◌^◌, ◌<◌, ◌≡◌, refl, ap, ◌∙◌, not, ◌&&◌, ◌||◌, ltb, get_or,
  true, false, Option, none, some, [], ◌∷◌, Bytes, IsBytes, length, ◌==◌, ==_iff, ok, err, arith,
  Bool-cases, inl, inr, ◌≢◌, ◌⊎◌,
}
use tine_storage.Base.Tables.{passes_below, passes_below_at}
use tine_storage.ContentDigest.{
  digest_parse_error, hex_digits, high_digit, low_digit, write_hex, is_hex, hex_nibble, all_hex,
  join_nibbles, cons_byte, parse_pairs, parse_digest,
}

low_nibble : (b : ℕ) → b < 256 → bit_and b 0x0f ≡ b % 16
low_nibble b h =
    (==_iff _ _).0
      (passes_below_at 256 (λ x. bit_and x 0x0f == x % 16) b (unfold passes_below in refl) h)

high_digit-is_hex : (b : ℕ) → b < 256 → is_hex (high_digit b) ≡ true
high_digit-is_hex b h =
    passes_below_at 256 (λ x. is_hex (high_digit x)) b
      (unfold passes_below is_hex high_digit in refl) h

low_digit-is_hex : (b : ℕ) → b < 256 → is_hex (low_digit b) ≡ true
low_digit-is_hex b h =
    passes_below_at 256 (λ x. is_hex (low_digit x)) b (unfold passes_below is_hex low_digit in refl)
      h

-- The value of a pair of characters, with 256 for a panic.
abbrev pair_value : Option ℕ → ℕ
pair_value none = 256
pair_value (some b) = b

pair_value_sound : (o : Option ℕ) (b : ℕ) → b < 256 → pair_value o ≡ b → o ≡ some b
pair_value_sound none b h e = absurd (omega arith)
pair_value_sound (some c) b h e = ap some e

join-digits :
    (b : ℕ) → b < 256 → join_nibbles (hex_nibble (high_digit b)) (hex_nibble (low_digit b)) ≡ some b
join-digits b h = pair_value_sound _ b h (
    (==_iff _ _).0 (
      passes_below_at 256
        (λ x. pair_value (join_nibbles (hex_nibble (high_digit x)) (hex_nibble (low_digit x))) == x)
        b (unfold passes_below join_nibbles hex_nibble high_digit low_digit in refl) h))

parse_pairs_step :
    (c d : ℕ) (rest : Bytes)
    → parse_pairs (c ∷ d ∷ rest)
      ≡ cons_byte (join_nibbles (hex_nibble c) (hex_nibble d)) (parse_pairs rest)
unfolding parse_pairs
parse_pairs_step c d rest = refl

parse_pairs-write_hex : (bytes : Bytes) → IsBytes bytes → parse_pairs (write_hex bytes) ≡ ok bytes
unfolding write_hex
parse_pairs-write_hex [] h = unfold parse_pairs in refl
parse_pairs-write_hex (b ∷ bs) h =
    parse_pairs_step (high_digit b) (low_digit b) (write_hex bs)
    ∙ rw (join-digits b h.0, parse_pairs-write_hex bs h.1)

all_hex-write_hex : (bytes : Bytes) → IsBytes bytes → all_hex (write_hex bytes) ≡ true
unfolding write_hex all_hex
all_hex-write_hex [] h = refl
all_hex-write_hex (b ∷ bs) h =
    rw (high_digit-is_hex b h.0, low_digit-is_hex b h.0, all_hex-write_hex bs h.1)

length-write_hex : (bytes : Bytes) → length (write_hex bytes) ≡ 2 * length bytes
unfolding write_hex
length-write_hex [] = refl
length-write_hex (b ∷ bs) = omega (arith, length-write_hex bs)

-- Parsing the text of a 32-byte digest gives the digest back.
pub parse_digest-write_hex :
    (bytes : Bytes) → IsBytes bytes → length bytes ≡ 32 → parse_digest (write_hex bytes) ≡ ok bytes
unfolding parse_digest
parse_digest-write_hex bytes h n =
    let e : length (write_hex bytes) ≡ 64 = omega (arith, length-write_hex bytes) in
    rw (e, all_hex-write_hex bytes h) (parse_pairs-write_hex bytes h)

is_hex-lt : (c : ℕ) → is_hex c ≡ true → c < 256
unfolding is_hex
is_hex-lt c h = ground arith

abbrev nibble : ℕ → ℕ
nibble c = pair_value (hex_nibble c)

nibble-digit : (c : ℕ) → is_hex c ≡ true → (nibble c < 16) × (get_or hex_digits (nibble c) 0 ≡ c)
nibble-digit c h = ground (
  arith,
  passes_below_at 256
      (λ x. not (is_hex x) || (ltb (nibble x) 16 && (get_or hex_digits (nibble x) 0 == x))) c
      (unfold passes_below is_hex hex_nibble in refl) (is_hex-lt c h),
)

join_bits_at : (x : ℕ) → x < 256 → join_nibbles (some (x / 16)) (some (x % 16)) ≡ some x
join_bits_at x h = pair_value_sound _ x h (
    (==_iff _ _).0 (
      passes_below_at 256 (λ y. pair_value (join_nibbles (some (y / 16)) (some (y % 16))) == y) x
        (unfold passes_below join_nibbles in refl) h))

join_bits : (n m : ℕ) → n < 16 → m < 16 → join_nibbles (some n) (some m) ≡ some (n * 16 + m)
join_bits n m hn hm =
    let hi : (n * 16 + m) / 16 ≡ n = omega arith in
    let lo : (n * 16 + m) % 16 ≡ m = omega arith in
    rw (hi, lo) at (join_bits_at (n * 16 + m) (omega arith))

nibble-some : (c : ℕ) → nibble c < 16 → hex_nibble c ≡ some (nibble c)
nibble-some c h = from_value (hex_nibble c) h
  where
    from_value : (o : Option ℕ) → pair_value o < 16 → o ≡ some (pair_value o)
    from_value none p = absurd (omega arith)
    from_value (some b) p = refl

-- The byte of two accepted characters, which writes those characters.
parsed_pair :
    (c d : ℕ)
    → is_hex c ≡ true
    → is_hex d ≡ true
    → (b : ℕ) × (join_nibbles (hex_nibble c) (hex_nibble d) ≡ some b)
      × (b < 256)
      × (high_digit b ≡ c)
      × (low_digit b ≡ d)
unfolding high_digit low_digit
parsed_pair c d hc hd =
    let (n, nd) = nibble-digit c hc in
    let (m, md) = nibble-digit d hd in
    let b = nibble c * 16 + nibble d in
    let below : b < 256 = omega arith in
    let hi : b / 2 ^ 4 ≡ nibble c = omega arith in
    let lo : bit_and b 0x0f ≡ nibble d = low_nibble b below ∙ omega arith in
    (
      b,
      rw (nibble-some c n, nibble-some d m) (join_bits (nibble c) (nibble d) n m),
      below,
      rw hi nd,
      rw lo md,
    )

parse_pairs_sound :
    (cs : Bytes) (k : ℕ)
    → length cs ≡ 2 * k
    → all_hex cs ≡ true
    → (r : Bytes) × (parse_pairs cs ≡ ok r) × (write_hex r ≡ cs) × IsBytes r × (length r ≡ k)
unfolding all_hex write_hex
parse_pairs_sound [] k n h = ([], unfold parse_pairs in refl, refl, tt, omega arith)
parse_pairs_sound (c ∷ []) k n h = absurd (omega arith)
parse_pairs_sound (c ∷ d ∷ rest) zero n h = absurd (omega arith)
parse_pairs_sound (c ∷ d ∷ rest) (suc k) n h =
    let (b, joined, below, hi, lo) = parsed_pair c d (ground arith) (ground arith) in
    let (r, parsed, written, bytes, size) = parse_pairs_sound rest k (omega arith) (ground arith) in
    (
      b ∷ r,
      parse_pairs_step c d rest ∙ rw (joined, parsed),
      rw (hi, lo, written),
      (below, bytes),
      omega arith,
    )

-- `parse_digest` accepts exactly the texts that `write_hex` writes of 32-byte digests: what it
-- accepts is such a text, and any other text is answered with the error.
pub parse_digest_cases :
    (value : Bytes)
    → ((r : Bytes) × (parse_digest value ≡ ok r)
        × (write_hex r ≡ value)
        × IsBytes r
        × (length r ≡ 32))
      ⊎ ((parse_digest value ≡ err digest_parse_error)
          × ((r : Bytes) → IsBytes r → length r ≡ 32 → write_hex r ≢ value))
parse_digest_cases value = elim (Bool-cases (length value == 64 && all_hex value)) [
  | inl yes_ ↦
      let (r, parsed, written, bytes, size) =
        parse_pairs_sound value 32 (ground arith) (ground arith) in
      inl (r, accepted value r (ground arith) (ground arith) parsed, written, bytes, size)
  | inr no_ ↦ inr (
    refused value no_,
    λ r h n e. let back = rw e at (parse_digest-write_hex r h n) in cc (back, refused value no_),
  )
]
  where
    accepted :
        (v r : Bytes)
        → (length v == 64) ≡ true
        → all_hex v ≡ true
        → parse_pairs v ≡ ok r
        → parse_digest v ≡ ok r
    accepted v r a b p = unfold parse_digest in rw (a, b) p

    refused :
        (v : Bytes)
        → (length v == 64 && all_hex v) ≡ false
        → parse_digest v ≡ err digest_parse_error
    refused v a = unfold parse_digest in ground arith
