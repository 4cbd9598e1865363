-- ===== src/DurableBatch.antt =====
-- src/durable_batch.rs: the manifests and object envelopes of durable batches, over the identifiers
-- and the policy that the product supplies.
pub mod Manifest
pub mod Encoding
pub mod Canonical
pub mod Codec
pub mod Building
pub mod Selection
pub mod Object
pub mod Samples
mod Examples
use tine_storage.Base.{
  ℕ, zero, suc, ◌≡◌, refl, sym, ap, ◌∙◌, ◌*◌, ◌+◌, Bool, ◌||◌, Bytes, String, ltb, ◌==◌, Result, ok,
  err, ◌>>=◌, ◌>>◌, refuse_if, arith,
}
use tine_storage.Order.{StrictOrder}
use tine_storage.Order.Laws.{nat_order, bytes_order, lex_order, order_by}

abbrev pub oplog_protocol_version : ℕ
oplog_protocol_version = 2

abbrev pub object_envelope_schema_version : ℕ
object_envelope_schema_version = 2

abbrev pub manifest_encoding_version : ℕ
manifest_encoding_version = 4

abbrev pub max_manifest_bytes : ℕ
max_manifest_bytes = 1024 * 1024

abbrev pub max_object_bytes : ℕ
max_object_bytes = 256 * 1024 * 1024

-- The product's identifiers: the associated types of `DurableBatchContract`, with the `Ord` of
-- those that are sorted.
pub record Ids : Type 1 where
  pub WorkspaceId : Type 0
  pub DocumentId : Type 0
  pub BatchId : Type 0
  pub DeviceId : Type 0
  pub SessionId : Type 0
  pub Origin : Type 0
  pub DependencyFrontier : Type 0
  pub document_order : StrictOrder DocumentId
  pub batch_order : StrictOrder BatchId

pub data ObjectKind : Type 0 where
  semantic_effect : ObjectKind
  crdt_update : ObjectKind
  projection_intent : ObjectKind
  annotated_base_blob : ObjectKind
  external_import_observation : ObjectKind

-- The position of a kind in the derived order.
unfoldable pub kind_rank : ObjectKind → ℕ
kind_rank semantic_effect = 0
kind_rank crdt_update = 1
kind_rank projection_intent = 2
kind_rank annotated_base_blob = 3
kind_rank external_import_observation = 4

abbrev pub kind_of_rank : ℕ → ObjectKind
kind_of_rank zero = semantic_effect
kind_of_rank (suc zero) = crdt_update
kind_of_rank (suc (suc zero)) = projection_intent
kind_of_rank (suc (suc (suc zero))) = annotated_base_blob
kind_of_rank (suc (suc (suc (suc n)))) = external_import_observation

pub kind_of_rank-kind_rank : (kind : ObjectKind) → kind_of_rank (kind_rank kind) ≡ kind
unfolding kind_rank
kind_of_rank-kind_rank semantic_effect = refl
kind_of_rank-kind_rank crdt_update = refl
kind_of_rank-kind_rank projection_intent = refl
kind_of_rank-kind_rank annotated_base_blob = refl
kind_of_rank-kind_rank external_import_observation = refl

pub kind_rank_injective : (a b : ObjectKind) → kind_rank a ≡ kind_rank b → a ≡ b
kind_rank_injective a b h =
    sym (kind_of_rank-kind_rank a) ∙ ap kind_of_rank h ∙ kind_of_rank-kind_rank b

-- `ObjectDescriptor`
pub record ObjectDescriptor (ids : Ids) : Type 0 where
  pub document_id : ids.DocumentId
  pub kind : ObjectKind
  pub content_digest : Bytes
  pub encoded_byte_length : ℕ

-- `BatchCausalDot`; a peer is its device.
pub record BatchCausalDot (ids : Ids) : Type 0 where
  pub peer_id : ids.DeviceId
  pub counter : ℕ

-- `BatchError`
pub data BatchError (ids : Ids) : Type 0 where
  encode : String → BatchError ids
  decode : String → BatchError ids
  manifest_too_large : ℕ → BatchError ids
  object_too_large : ℕ → BatchError ids
  object_header_too_large : ℕ → BatchError ids
  unknown_version : String → ℕ → ℕ → BatchError ids
  unsupported_encryption : BatchError ids
  invalid_causal_dot : BatchError ids
  non_canonical_causal_dependencies : BatchError ids
  causal_self_dependency : ids.BatchId → BatchError ids
  non_canonical_manifest : BatchError ids
  non_canonical_descriptors : BatchError ids
  non_canonical_object_header : BatchError ids
  duplicate_descriptor : ObjectDescriptor ids → BatchError ids
  duplicate_object_digest : Bytes → BatchError ids
  duplicate_crdt_document : ids.DocumentId → BatchError ids
  semantic_effect_cardinality : ℕ → BatchError ids
  semantic_effect_digest_mismatch : Bytes → Bytes → BatchError ids
  projection_object : String → BatchError ids
  external_import_object : String → BatchError ids
  invalid_object_length : ℕ → BatchError ids
  truncated_object : BatchError ids
  invalid_object_magic : BatchError ids
  length_overflow : BatchError ids
  object_length_mismatch : ℕ → ℕ → BatchError ids
  checksum_mismatch : BatchError ids
  workspace_mismatch : ids.WorkspaceId → ids.WorkspaceId → BatchError ids
  missing_object : ObjectDescriptor ids → BatchError ids
  unexpected_object : ObjectDescriptor ids → BatchError ids
  descriptor_mismatch : ObjectDescriptor ids → ObjectDescriptor ids → BatchError ids

-- The product's policy: the functions and constants of `DurableBatchContract`.
pub record Policy (ids : Ids) : Type 1 where
  pub State : Type 0
  pub operation_schema_version : ℕ
  pub managed_entity_set_version : ℕ
  pub begin_manifest_validation : State
  pub validate_descriptor_policy : State → ObjectDescriptor ids → Result (BatchError ids) State
  pub finish_manifest_validation : State → Result (BatchError ids) (Unit {0})

module _ (ids : Ids) where
  -- The fields that the derived `Ord` compares, in their order.
  abbrev pub descriptor_key : ObjectDescriptor ids → ids.DocumentId × (ℕ × (Bytes × ℕ))
  descriptor_key d = (d.document_id, (kind_rank d.kind, (d.content_digest, d.encoded_byte_length)))

  pub descriptor_key_injective :
      (a b : ObjectDescriptor ids) → descriptor_key a ≡ descriptor_key b → a ≡ b
  descriptor_key_injective a b h =
      let documents : a.document_id ≡ b.document_id = ap (λ k. k.0) h in
      let kinds : a.kind ≡ b.kind = kind_rank_injective a.kind b.kind (ap (λ k. k.1.0) h) in
      let digests : a.content_digest ≡ b.content_digest = ap (λ k. k.1.1.0) h in
      let lengths : a.encoded_byte_length ≡ b.encoded_byte_length = ap (λ k. k.1.1.1) h in cc

  -- The derived `Ord` of a descriptor.
  unfoldable pub descriptor_order : StrictOrder (ObjectDescriptor ids)
  descriptor_order =
      order_by
        (lex_order ids.document_order (lex_order nat_order (lex_order bytes_order nat_order)))
        descriptor_key descriptor_key_injective

  abbrev pub bad_length : ℕ → Bool
  bad_length encoded_byte_length =
      encoded_byte_length == 0 || ltb max_object_bytes encoded_byte_length

  -- `ObjectDescriptor::new`
  unfoldable pub new_descriptor :
      ids.DocumentId → ObjectKind → Bytes → ℕ → Result (BatchError ids) (ObjectDescriptor ids)
  new_descriptor document_id kind content_digest encoded_byte_length = do
    refuse_if (bad_length encoded_byte_length)
        (BatchError.invalid_object_length encoded_byte_length)
    ok (record {
      document_id = document_id;
      kind = kind;
      content_digest = content_digest;
      encoded_byte_length = encoded_byte_length;
    })

  -- `BatchCausalDot::new`
  unfoldable pub new_dot : ids.DeviceId → ℕ → Result (BatchError ids) (BatchCausalDot ids)
  new_dot peer_id counter = do
    refuse_if (counter == 0) BatchError.invalid_causal_dot
    ok (record { peer_id = peer_id; counter = counter })
