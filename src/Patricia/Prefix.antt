-- ===== src/Patricia/Prefix.antt =====
-- What the comparison of prefixes decides.
use tine_storage.Base.{
  ℕ, ◌*◌, ◌^◌, ◌≤◌, ◌<◌, ◌≡◌, ◌≢◌, refl, min, true, false, Bytes, length, ltb, lt→ltb, ◌==◌, ok,
  arith, Bool-cases, ◌⊎◌, inl, inr,
}
use tine_storage.Patricia.Bits.{
  key_bit_len, key_bit_unchecked, first_difference, common_prefix_bits, prefix_matches,
  match_prefix, Agree, first_difference_lem,
}

key_bit_len_lem : (key : Bytes) → length key * 8 < 2 ^ 64 → key_bit_len key ≡ ok (length key * 8)
unfolding key_bit_len
key_bit_len_lem key h = rw (lt→ltb (length key * 8) (2 ^ 64) h) refl

-- On keys whose bits a `usize` counts, `common_prefix_bits` answers the number of leading bits,
-- at most the limit, in which both agree; where that is less than the limit and both lengths,
-- the bit at that place differs.
pub common_prefix_bits_lem :
    (left right : Bytes) (limit : ℕ)
    → length left * 8 < 2 ^ 64
    → length right * 8 < 2 ^ 64
    → let n =
        first_difference (min (min limit (length left * 8)) (length right * 8)) 0 left right in
      (common_prefix_bits left right limit ≡ ok n)
      × (n ≤ min (min limit (length left * 8)) (length right * 8))
      × Agree left right 0 n
      × (n < min (min limit (length left * 8)) (length right * 8)
          → key_bit_unchecked left n ≢ key_bit_unchecked right n)
unfolding common_prefix_bits
common_prefix_bits_lem left right limit l r =
    let top = min (min limit (length left * 8)) (length right * 8) in
    let (low, high, agree, stop) = first_difference_lem top 0 left right in
    (
      rw (key_bit_len_lem left l, key_bit_len_lem right r) refl,
      omega (arith, high),
      agree,
      λ h. stop (omega (arith, h)),
    )

-- On keys whose bits a `usize` counts, `prefix_matches` always answers, and it answers `true`
-- exactly where both have that many bits and agree in all of them.
pub prefix_matches_lem :
    (key prefix : Bytes) (bits : ℕ)
    → length key * 8 < 2 ^ 64
    → length prefix * 8 < 2 ^ 64
    → (prefix_matches key prefix bits ≡ ok true
        × bits ≤ length key * 8
        × bits ≤ length prefix * 8
        × Agree key prefix 0 bits)
      ⊎ (prefix_matches key prefix bits ≡ ok false
          × ¬ (bits ≤ length key * 8 × bits ≤ length prefix * 8 × Agree key prefix 0 bits))
unfolding prefix_matches match_prefix
prefix_matches_lem key prefix bits k p = elim (Bool-cases (ltb (length key * 8) bits)) [
  | inl short ↦ inr (rw (key_bit_len_lem key k, short) refl, λ (a, b, c). ground (arith, short, a))
  | inr fits ↦ elim (Bool-cases (ltb (length prefix * 8) bits)) [
    | inl short ↦ inr (
      rw (key_bit_len_lem key k, fits, key_bit_len_lem prefix p, short) refl,
      λ (a, b, c). ground (arith, short, b),
    )
    | inr fits' ↦
        let (run, high, agree, stop) = common_prefix_bits_lem key prefix bits k p in
        let n =
          first_difference (min (min bits (length key * 8)) (length prefix * 8)) 0 key prefix in
        elim (Bool-cases (n == bits)) [
          | inl all ↦
              let e : n ≡ bits = ground (arith, all) in
              inl (
                rw (key_bit_len_lem key k, fits, key_bit_len_lem prefix p, fits', run, all) refl,
                ground (arith, fits),
                ground (arith, fits'),
                rw e at agree,
              )
          | inr part ↦ inr (
            rw (key_bit_len_lem key k, fits, key_bit_len_lem prefix p, fits', run, part) refl,
            λ (a, b, c).
                stop (ground (arith, part, high, a, b))
                  (c.bits n (omega arith) (ground (arith, part, high))),
          )
        ]
  ]
]
