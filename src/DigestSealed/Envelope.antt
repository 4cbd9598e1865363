-- ===== src/DigestSealed/Envelope.antt =====
-- The round trips of the envelope, and what its digest check decides.
use tine_storage.Base.{
  ℕ, ◌≡◌, refl, true, false, not, Bytes, bytes_eq, bytes_eq_refl, bytes_eq_sound, Result, ok, err,
  ◌>>=◌, >>=-eq-ok, refuse_if, lift, lift-eq-ok, inl, inr, Bool-cases,
}
use tine_storage.ContentDigest.{Sha256, of}
use tine_storage.Postcard.{Postcard}
use tine_storage.DigestSealed.{
  Sealed, DigestSealedError, encode, decode, non_canonical, seal, encode_canonical,
  decode_canonical, verify_digest,
}

differs : (xs ys : Bytes) → bytes_eq xs ys ≡ false → xs ≡ ys → ⊥
differs xs ys h e = let t : bytes_eq xs ys ≡ true = rw e (bytes_eq_refl ys) in cc (h, t)

module _ (sha : Sha256) (pc : Postcard Sealed) where
  -- An envelope that is sealed over a payload and encodes is decoded again, and its digest check
  -- passes.
  pub sealed_round_trip :
      (schema_version : ℕ) (payload bytes : Bytes)
      → encode_canonical pc (seal sha schema_version payload) ≡ ok bytes
      → (decode_canonical pc bytes ≡ ok (seal sha schema_version payload))
        × (verify_digest sha (seal sha schema_version payload) ≡ ok tt)
  unfolding encode_canonical decode_canonical verify_digest seal
  sealed_round_trip schema_version payload bytes h =
      let value : Sealed = seal sha schema_version payload in
      let written : pc.to_allocvec value ≡ inr bytes =
        lift-eq-ok (λ cause. encode) (pc.to_allocvec value) bytes h in
      let back : pc.from_bytes bytes ≡ inr value = pc.from_bytes-to_allocvec value bytes written in
      (rw (back, written, bytes_eq_refl bytes) refl, rw (bytes_eq_refl (of sha payload)) refl)

  decode_parts :
      (value result : Sealed) (bytes canonical : Bytes)
      → (refuse_if (not (bytes_eq canonical bytes)) non_canonical >>= λ u. ok value) ≡ ok result
      → (canonical ≡ bytes) × (◌≡◌ {A = Result DigestSealedError Sealed} (ok value) (ok result))
  decode_parts value result bytes canonical h = elim (Bool-cases (bytes_eq canonical bytes)) [
    | inl same ↦ (bytes_eq_sound canonical bytes same, rw same at h)
    | inr other ↦
        let e : ◌≡◌ {A = Result DigestSealedError Sealed} (err non_canonical) (ok result) =
          rw other at h in
        absurd (cc (e))
  ]

  -- The bytes of an envelope that decodes are the ones its own encoding writes, so no two byte
  -- strings decode to one envelope.
  pub encode_canonical-decode_canonical :
      (value : Sealed) (bytes : Bytes)
      → decode_canonical pc bytes ≡ ok value
      → encode_canonical pc value ≡ ok bytes
  unfolding decode_canonical
  encode_canonical-decode_canonical value bytes h =
      let (found, read, rest) =
        >>=-eq-ok (lift (λ cause. decode) (pc.from_bytes bytes))
          (λ v. encode_canonical pc v >>= λ c.
            refuse_if (not (bytes_eq c bytes)) non_canonical >>= λ u. ok v)
          value h in
      let (canonical, written, last) =
        >>=-eq-ok (encode_canonical pc found)
          (λ c. refuse_if (not (bytes_eq c bytes)) non_canonical >>= λ u. ok found) value rest in
      let (same, e) = decode_parts found value bytes canonical last in cc (same, e, written)
