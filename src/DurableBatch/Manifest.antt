-- ===== src/DurableBatch/Manifest.antt =====
-- `OperationBatch` of src/durable_batch.rs: how a manifest is built and checked.
use tine_storage.Base.{
  ℕ, Bool, true, false, not, ◌&&◌, List, [], ◌∷◌, Option, none, some, Bytes, String, ◌==◌, bytes_eq,
  Result, ok, ◌>>=◌, ◌>>◌, refuse_if,
}
use tine_storage.Order.{is_strictly_sorted, adjacent_duplicate, sort, dedup, holds}
use tine_storage.DurableBatch.{
  Ids, ObjectDescriptor, BatchCausalDot, BatchError, Policy, descriptor_order, bad_length,
  manifest_encoding_version, oplog_protocol_version, object_envelope_schema_version,
}
use tine_storage.DurableBatch.BatchError.{
  unknown_version, invalid_causal_dot, non_canonical_causal_dependencies, causal_self_dependency,
  non_canonical_descriptors, duplicate_descriptor, duplicate_object_digest, invalid_object_length,
}

pub record OperationBatch (ids : Ids) : Type 0 where
  pub manifest_encoding_version : ℕ
  pub protocol_version : ℕ
  pub operation_schema_version : ℕ
  pub object_envelope_schema_version : ℕ
  pub managed_entity_set_version : ℕ
  pub workspace_id : ids.WorkspaceId
  pub lineage_digest : Bytes
  pub batch_id : ids.BatchId
  pub author_device_id : ids.DeviceId
  pub author_session_id : ids.SessionId
  pub origin : ids.Origin
  pub causal_dot : BatchCausalDot ids
  pub causal_dependency_heads : List ids.BatchId
  pub dependency_frontier : ids.DependencyFrontier
  pub semantic_effect_digest : Bytes
  pub required_objects : List (ObjectDescriptor ids)

module _ (ids : Ids) (policy : Policy ids) where
  -- `HashSet::insert` answers whether the digest is new.
  abbrev pub is_new : List Bytes → Bytes → Bool
  is_new [] digest = true
  is_new (seen ∷ digests) digest = not (bytes_eq seen digest) && is_new digests digest

  -- The loop over the descriptors, and the end of the policy.
  unfoldable pub check_descriptors :
      List Bytes → policy.State → List (ObjectDescriptor ids) → Result (BatchError ids) (Unit {0})
  check_descriptors digests state [] = policy.finish_manifest_validation state
  check_descriptors digests state (descriptor ∷ rest) = do
    refuse_if (bad_length ids descriptor.encoded_byte_length)
        (invalid_object_length descriptor.encoded_byte_length)
    refuse_if (not (is_new digests descriptor.content_digest))
        (duplicate_object_digest descriptor.content_digest)
    next ← policy.validate_descriptor_policy state descriptor
    check_descriptors (descriptor.content_digest ∷ digests) next rest

  unfoldable pub require_version : String → ℕ → ℕ → Result (BatchError ids) (Unit {0})
  require_version field found expected =
      refuse_if (not (found == expected)) (unknown_version field expected found)

  unfoldable pub check_versions : OperationBatch ids → Result (BatchError ids) (Unit {0})
  unfolding require_version
  check_versions batch = do
    require_version "manifest_encoding_version" batch.manifest_encoding_version
        manifest_encoding_version
    require_version "protocol_version" batch.protocol_version oplog_protocol_version
    require_version "operation_schema_version" batch.operation_schema_version
        policy.operation_schema_version
    require_version "object_envelope_schema_version" batch.object_envelope_schema_version
        object_envelope_schema_version
    require_version "managed_entity_set_version" batch.managed_entity_set_version
        policy.managed_entity_set_version

  unfoldable pub is_empty : List ids.BatchId → Bool
  is_empty [] = true
  is_empty (head ∷ heads) = false

  -- The checks on the causal dot and on the heads.
  unfoldable pub check_causality : OperationBatch ids → Result (BatchError ids) (Unit {0})
  unfolding is_empty
  check_causality batch = do
    refuse_if (batch.causal_dot.counter == 0) invalid_causal_dot
    refuse_if
        (not (is_strictly_sorted ids.batch_order batch.causal_dependency_heads)
          && not (is_empty batch.causal_dependency_heads))
        non_canonical_causal_dependencies
    refuse_if (holds ids.batch_order batch.batch_id batch.causal_dependency_heads)
        (causal_self_dependency batch.batch_id)

  unfoldable pub order_error : Option (ObjectDescriptor ids) → BatchError ids
  order_error (some duplicate) = duplicate_descriptor duplicate
  order_error none = non_canonical_descriptors

  unfoldable pub check_order : List (ObjectDescriptor ids) → Result (BatchError ids) (Unit {0})
  unfolding order_error
  check_order objects =
      refuse_if (not (is_strictly_sorted (descriptor_order ids) objects))
        (order_error (adjacent_duplicate (descriptor_order ids) objects))

  -- `OperationBatch::validate`
  unfoldable pub validate : OperationBatch ids → Result (BatchError ids) (Unit {0})
  unfolding check_versions check_causality check_order check_descriptors
  validate batch = do
    check_versions batch
    check_causality batch
    check_order batch.required_objects
    check_descriptors [] policy.begin_manifest_validation batch.required_objects

  -- The batch that `new_with_causality` puts together: its inputs, with the objects and the heads
  -- sorted and the heads deduplicated.
  unfoldable pub assemble :
      ids.WorkspaceId
      → Bytes
      → ids.BatchId
      → ids.DeviceId
      → ids.SessionId
      → ids.Origin
      → BatchCausalDot ids
      → List ids.BatchId
      → ids.DependencyFrontier
      → Bytes
      → List (ObjectDescriptor ids)
      → OperationBatch ids
  assemble workspace_id lineage_digest batch_id author_device_id author_session_id origin causal_dot
        causal_dependency_heads dependency_frontier semantic_effect_digest required_objects =
      record {
        manifest_encoding_version = manifest_encoding_version;
        protocol_version = oplog_protocol_version;
        operation_schema_version = policy.operation_schema_version;
        object_envelope_schema_version = object_envelope_schema_version;
        managed_entity_set_version = policy.managed_entity_set_version;
        workspace_id = workspace_id;
        lineage_digest = lineage_digest;
        batch_id = batch_id;
        author_device_id = author_device_id;
        author_session_id = author_session_id;
        origin = origin;
        causal_dot = causal_dot;
        causal_dependency_heads =
            dedup ids.batch_order (sort ids.batch_order causal_dependency_heads);
        dependency_frontier = dependency_frontier;
        semantic_effect_digest = semantic_effect_digest;
        required_objects = sort (descriptor_order ids) required_objects;
      }

  -- `OperationBatch::new_with_causality`
  unfoldable pub new_with_causality :
      ids.WorkspaceId
      → Bytes
      → ids.BatchId
      → ids.DeviceId
      → ids.SessionId
      → ids.Origin
      → BatchCausalDot ids
      → List ids.BatchId
      → ids.DependencyFrontier
      → Bytes
      → List (ObjectDescriptor ids)
      → Result (BatchError ids) (OperationBatch ids)
  unfolding assemble validate
  new_with_causality workspace lineage batch_id device session origin dot heads frontier effect
        objects =
      do
        let batch =
            assemble workspace lineage batch_id device session origin dot heads frontier effect
              objects
        validate batch
        ok batch
