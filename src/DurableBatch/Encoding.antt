-- ===== src/DurableBatch/Encoding.antt =====
-- The codec of `OperationBatch` in src/durable_batch.rs. `serde_json` is a parameter.
use tine_storage.Base.{
  ℕ, ◌≡◌, not, List, All, Bytes, String, length, ltb, bytes_eq, ◌⊎◌, inl, inr, Result, ok, err,
  stuck, ◌>>=◌, ◌>>◌, refuse_if, lift,
}
use tine_storage.DurableBatch.{
  Ids, ObjectDescriptor, ObjectKind, BatchCausalDot, BatchError, Policy, new_descriptor,
  max_manifest_bytes,
}
use tine_storage.DurableBatch.BatchError.{
  encode, decode, manifest_too_large, non_canonical_manifest,
}
use tine_storage.DurableBatch.Manifest.{OperationBatch, validate}

pub record OperationBatchWire (ids : Ids) : Type 0 where
  pub manifest_encoding_version : ℕ
  pub protocol_version : ℕ
  pub operation_schema_version : ℕ
  pub object_envelope_schema_version : ℕ
  pub managed_entity_set_version : ℕ
  pub workspace_id : ids.WorkspaceId
  pub lineage_digest : Bytes
  pub batch_id : ids.BatchId
  pub author_device_id : ids.DeviceId
  pub author_session_id : ids.SessionId
  pub origin : ids.Origin
  pub causal_dot : BatchCausalDot ids
  pub causal_dependency_heads : List ids.BatchId
  pub dependency_frontier : ids.DependencyFrontier
  pub semantic_effect_digest : Bytes
  pub required_objects : List (ObjectDescriptor ids)

-- `ObjectDescriptorWire`
pub record ObjectDescriptorWire (ids : Ids) : Type 0 where
  pub document_id : ids.DocumentId
  pub kind : ObjectKind
  pub content_digest : Bytes
  pub encoded_byte_length : ℕ

unfoldable pub from_wire : (ids : Ids) → OperationBatchWire ids → OperationBatch ids
from_wire ids wire = record {
  manifest_encoding_version = wire.manifest_encoding_version;
  protocol_version = wire.protocol_version;
  operation_schema_version = wire.operation_schema_version;
  object_envelope_schema_version = wire.object_envelope_schema_version;
  managed_entity_set_version = wire.managed_entity_set_version;
  workspace_id = wire.workspace_id;
  lineage_digest = wire.lineage_digest;
  batch_id = wire.batch_id;
  author_device_id = wire.author_device_id;
  author_session_id = wire.author_session_id;
  origin = wire.origin;
  causal_dot = wire.causal_dot;
  causal_dependency_heads = wire.causal_dependency_heads;
  dependency_frontier = wire.dependency_frontier;
  semantic_effect_digest = wire.semantic_effect_digest;
  required_objects = wire.required_objects;
}

-- `serde_json` on manifests. `from_slice` calls the `Deserialize` of `ObjectDescriptor`, its first
-- argument, on each descriptor that it reads; where that accepts every descriptor unchanged, what
-- `to_vec` writes is read back.
pub record ManifestJson (ids : Ids) : Type 0 where
  pub to_vec : OperationBatch ids → String ⊎ Bytes
  pub from_slice :
      (ObjectDescriptorWire ids → String ⊎ ObjectDescriptor ids)
      → Bytes
      → String ⊎ OperationBatchWire ids
  pub from_slice-to_vec :
      (visit : ObjectDescriptorWire ids → String ⊎ ObjectDescriptor ids)
      (batch : OperationBatch ids) (bytes : Bytes)
      → to_vec batch ≡ inr bytes
      → All
          (λ d.
            visit (record {
              document_id = d.document_id;
              kind = d.kind;
              content_digest = d.content_digest;
              encoded_byte_length = d.encoded_byte_length;
            })
            ≡ inr d)
          batch.required_objects
      → (wire : OperationBatchWire ids) × (from_slice visit bytes ≡ inr wire)
        × (from_wire ids wire ≡ batch)

module _ (ids : Ids) (policy : Policy ids) (json : ManifestJson ids)
    (to_text : BatchError ids → String) where
  -- `OperationBatch::encode`
  unfoldable pub encode_batch : OperationBatch ids → Result (BatchError ids) Bytes
  encode_batch batch = do
    bytes ← lift encode (json.to_vec batch)
    refuse_if (ltb max_manifest_bytes (length bytes)) (manifest_too_large (length bytes))
    ok bytes

  -- `map_err(serde::de::Error::custom)`; `new_descriptor` is never stuck.
  abbrev pub text_of :
      Result (BatchError ids) (ObjectDescriptor ids) → String ⊎ ObjectDescriptor ids
  text_of (ok descriptor) = inr descriptor
  text_of (err e) = inl (to_text e)
  text_of stuck = inl ""

  -- `ObjectDescriptor::deserialize`, behind the derived one of its wire form.
  unfoldable pub read_descriptor : ObjectDescriptorWire ids → String ⊎ ObjectDescriptor ids
  unfolding new_descriptor
  read_descriptor wire =
      text_of
        (new_descriptor ids wire.document_id wire.kind wire.content_digest wire.encoded_byte_length)

  -- The checks of `decode` on a batch that was read.
  unfoldable pub accept_batch :
      Bytes → OperationBatch ids → Result (BatchError ids) (OperationBatch ids)
  unfolding validate encode_batch
  accept_batch bytes batch = do
    validate ids policy batch
    canonical ← encode_batch batch
    refuse_if (not (bytes_eq canonical bytes)) non_canonical_manifest
    ok batch

  -- `OperationBatch::decode`
  unfoldable pub decode_batch : Bytes → Result (BatchError ids) (OperationBatch ids)
  unfolding accept_batch read_descriptor from_wire
  decode_batch bytes = do
    refuse_if (ltb max_manifest_bytes (length bytes)) (manifest_too_large (length bytes))
    wire ← lift decode (json.from_slice read_descriptor bytes)
    accept_batch bytes (from_wire ids wire)
