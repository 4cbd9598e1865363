-- ===== src/DigestSealed.antt =====
-- src/digest_sealed.rs: the envelope that binds a payload to a schema version and its digest.
pub mod Envelope
mod Examples
use tine_storage.Base.{ℕ, Bool, not, Bytes, bytes_eq, Result, ok, err, ◌>>=◌, ◌>>◌, refuse_if, lift}
use tine_storage.ContentDigest.{Sha256, of}
use tine_storage.Postcard.{Postcard}

-- `DigestSealedPayload`
pub record Sealed : Type 0 where
  pub schema_version : ℕ
  pub payload : Bytes
  pub payload_digest : Bytes

-- `DigestSealedError`
pub data DigestSealedError : Type 0 where
  encode : DigestSealedError
  decode : DigestSealedError
  non_canonical : DigestSealedError
  digest_mismatch : DigestSealedError

-- `DigestSealedPayload::new`
unfoldable pub seal : Sha256 → ℕ → Bytes → Sealed
seal sha schema_version payload = record {
  schema_version = schema_version;
  payload = payload;
  payload_digest = of sha payload;
}

unfoldable pub encode_canonical : Postcard Sealed → Sealed → Result DigestSealedError Bytes
encode_canonical pc value = lift (λ cause. encode) (pc.to_allocvec value)

unfoldable pub decode_canonical : Postcard Sealed → Bytes → Result DigestSealedError Sealed
decode_canonical pc bytes = do
  value ← lift (λ cause. decode) (pc.from_bytes bytes)
  canonical ← encode_canonical pc value
  refuse_if (not (bytes_eq canonical bytes)) non_canonical
  ok value

unfoldable pub verify_digest : Sha256 → Sealed → Result DigestSealedError (Unit {0})
verify_digest sha value =
    refuse_if (not (bytes_eq (of sha value.payload) value.payload_digest)) digest_mismatch
