-- ===== src/DurableBatch/Object.antt =====
-- `OperationObject` of src/durable_batch.rs: the envelope of one object. `serde_json` is a parameter;
-- `usize` is the 64-bit one.
pub mod RoundTrip
pub mod Decoded
use tine_storage.Base.{
  ℕ, ◌+◌, ◌-◌, ◌*◌, ◌^◌, ◌≡◌, Bool, false, not, List, [], ◌∷◌, ◌++◌, Bytes, String, ◌⊎◌, inr,
  length, take, drop, slice, ltb, ◌==◌, bytes_eq, to_be_bytes, from_be_bytes, checked_add, and_then,
  ok_or, Result, ok, err, ◌>>=◌, ◌>>◌, refuse_if, lift,
}
use tine_storage.ContentDigest.{Sha256, of}
use tine_storage.DurableBatch.{
  Ids, ObjectDescriptor, ObjectKind, BatchError, object_envelope_schema_version, max_object_bytes,
  new_descriptor,
}
use tine_storage.DurableBatch.BatchError.{
  encode, decode, object_too_large, object_header_too_large, unknown_version,
  unsupported_encryption, non_canonical_object_header, truncated_object, invalid_object_magic,
  length_overflow, object_length_mismatch, checksum_mismatch,
}

-- `b"TINEOBJ2"`
abbrev pub object_magic : Bytes
object_magic = b'T' ∷ b'I' ∷ b'N' ∷ b'E' ∷ b'O' ∷ b'B' ∷ b'J' ∷ b'2' ∷ []

abbrev pub checksum_len : ℕ
checksum_len = 32

abbrev pub object_prefix_len : ℕ
object_prefix_len = 20

abbrev pub max_object_header_bytes : ℕ
max_object_header_bytes = 64 * 1024

pub data EncryptionMode : Type 0 where
  unencrypted : EncryptionMode

-- `header.encryption != EncryptionMode::None`
abbrev pub is_encrypted : EncryptionMode → Bool
is_encrypted unencrypted = false

pub record ObjectHeader (ids : Ids) : Type 0 where
  pub envelope_schema_version : ℕ
  pub workspace_id : ids.WorkspaceId
  pub document_id : ids.DocumentId
  pub kind : ObjectKind
  pub encryption : EncryptionMode

pub record OperationObject (ids : Ids) : Type 0 where
  pub workspace_id : ids.WorkspaceId
  pub document_id : ids.DocumentId
  pub kind : ObjectKind
  pub payload : Bytes

-- `serde_json` on headers: what `to_vec` writes, `from_slice` reads back.
pub record HeaderJson (ids : Ids) : Type 0 where
  pub to_vec : ObjectHeader ids → String ⊎ Bytes
  pub from_slice : Bytes → String ⊎ ObjectHeader ids
  pub from_slice-to_vec :
      (header : ObjectHeader ids) (bytes : Bytes)
      → to_vec header ≡ inr bytes
      → from_slice bytes ≡ inr header

-- Everything but the checksum.
unfoldable pub object_body : Bytes → Bytes → Bytes
object_body header_bytes payload =
    object_magic
    ++ (to_be_bytes 4 (length header_bytes)
        ++ (to_be_bytes 8 (length payload) ++ (header_bytes ++ payload)))

module _ (ids : Ids) (sha : Sha256) (json : HeaderJson ids) where
  -- The lengths of the prefix, the header and the payload, with `checked_add`.
  unfoldable pub body_len : ℕ → ℕ → Result (BatchError ids) ℕ
  body_len header_len payload_len =
      ok_or length_overflow
        (and_then (checked_add object_prefix_len header_len) (λ n. checked_add n payload_len))

  unfoldable pub object_len : ℕ → ℕ → Result (BatchError ids) ℕ
  unfolding body_len
  object_len header_len payload_len = do
    body ← body_len header_len payload_len
    ok_or length_overflow (checked_add body checksum_len)

  abbrev pub object_header : OperationObject ids → ObjectHeader ids
  object_header object = record {
    envelope_schema_version = object_envelope_schema_version;
    workspace_id = object.workspace_id;
    document_id = object.document_id;
    kind = object.kind;
    encryption = unencrypted;
  }

  -- What `encode` does with the encoded header.
  unfoldable pub seal_object : Bytes → Bytes → Result (BatchError ids) Bytes
  unfolding object_len object_body
  seal_object header_bytes payload = do
    refuse_if (ltb max_object_header_bytes (length header_bytes))
        (object_header_too_large (length header_bytes))
    refuse_if (not (ltb (length header_bytes) (2 ^ 32)))
        (object_header_too_large (length header_bytes))
    total ← object_len (length header_bytes) (length payload)
    refuse_if (ltb max_object_bytes total) (object_too_large total)
    ok (object_body header_bytes payload ++ of sha (object_body header_bytes payload))

  -- `OperationObject::encode`
  unfoldable pub encode_object : OperationObject ids → Result (BatchError ids) Bytes
  unfolding seal_object
  encode_object object = do
    header_bytes ← lift encode (json.to_vec (object_header object))
    seal_object header_bytes object.payload

  -- `OperationObject::encoded_len`
  unfoldable pub encoded_len : OperationObject ids → Result (BatchError ids) ℕ
  unfolding encode_object
  encoded_len object = do bytes ← encode_object object; ok (length bytes)

  -- `OperationObject::new`
  unfoldable pub new_object :
      ids.WorkspaceId
      → ids.DocumentId
      → ObjectKind
      → Bytes
      → Result (BatchError ids) (OperationObject ids)
  unfolding encoded_len
  new_object workspace_id document_id kind payload = do
    let object : OperationObject ids = record {
      workspace_id = workspace_id;
      document_id = document_id;
      kind = kind;
      payload = payload;
    }
    n ← encoded_len object
    refuse_if (ltb max_object_bytes n) (object_too_large n)
    ok object

  -- `OperationObject::descriptor`
  unfoldable pub descriptor_of :
      OperationObject ids → Result (BatchError ids) (ObjectDescriptor ids)
  unfolding encode_object new_descriptor
  descriptor_of object = do
    bytes ← encode_object object
    new_descriptor ids object.document_id object.kind (of sha bytes) (length bytes)

  -- `canonical_header.as_slice() != header_bytes`
  unfoldable pub require_canonical_header :
      ObjectHeader ids → Bytes → Result (BatchError ids) (Unit {0})
  require_canonical_header header header_bytes = do
    canonical_header ← lift encode (json.to_vec header)
    refuse_if (not (bytes_eq canonical_header header_bytes)) non_canonical_object_header

  -- The checks on a header that was read, and the object.
  unfoldable pub open_object :
      Bytes → ℕ → ℕ → ObjectHeader ids → Result (BatchError ids) (OperationObject ids)
  unfolding require_canonical_header
  open_object bytes header_len body header = do
    refuse_if (not (header.envelope_schema_version == object_envelope_schema_version)) (
        unknown_version "object_envelope_schema_version" object_envelope_schema_version
          header.envelope_schema_version)
    refuse_if (is_encrypted header.encryption) unsupported_encryption
    require_canonical_header header (slice object_prefix_len (object_prefix_len + header_len) bytes)
    ok (record {
      workspace_id = header.workspace_id;
      document_id = header.document_id;
      kind = header.kind;
      payload = slice (object_prefix_len + header_len) body bytes;
    })

  -- What `decode` does with the length of everything but the checksum.
  unfoldable pub decode_body : Bytes → ℕ → ℕ → Result (BatchError ids) (OperationObject ids)
  unfolding open_object
  decode_body bytes header_len body = do
    expected ← ok_or length_overflow (checked_add body checksum_len)
    refuse_if (not (expected == length bytes)) (object_length_mismatch expected (length bytes))
    refuse_if (not (bytes_eq (drop body bytes) (of sha (take body bytes)))) checksum_mismatch
    header ←
        lift decode
          (json.from_slice (slice object_prefix_len (object_prefix_len + header_len) bytes))
    open_object bytes header_len body header

  -- What `decode` does with the two lengths of the prefix.
  unfoldable pub decode_lengths : Bytes → ℕ → ℕ → Result (BatchError ids) (OperationObject ids)
  unfolding body_len decode_body
  decode_lengths bytes header_len payload_len = do
    body ← body_len header_len payload_len
    decode_body bytes header_len body

  -- `OperationObject::decode`
  unfoldable pub decode_object : Bytes → Result (BatchError ids) (OperationObject ids)
  unfolding decode_lengths
  decode_object bytes = do
    refuse_if (ltb max_object_bytes (length bytes)) (object_too_large (length bytes))
    refuse_if (ltb (length bytes) (object_prefix_len + checksum_len)) truncated_object
    refuse_if (not (bytes_eq (take 8 bytes) object_magic)) invalid_object_magic
    let header_len = from_be_bytes (slice 8 12 bytes)
    refuse_if (ltb max_object_header_bytes header_len) (object_header_too_large header_len)
    let payload_len = from_be_bytes (slice 12 20 bytes)
    decode_lengths bytes header_len payload_len
