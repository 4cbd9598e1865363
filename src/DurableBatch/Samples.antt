-- ===== src/DurableBatch/Samples.antt =====
-- Concrete identifiers, a policy, a batch, and codecs of headers and manifests.
use tine_storage.Base.{
  ℕ, suc, ◌≡◌, refl, sym, ap, List, [], ◌∷◌, ◌++◌, All, Bytes, String, ◌⊎◌, inl, inr, length, take,
  drop, take-append, drop-append, ok, err, if◌then◌else◌, ◌==◌,
}
use tine_storage.Order.Laws.{nat_order}
use tine_storage.DurableBatch.{
  Ids, ObjectKind, semantic_effect, crdt_update, kind_rank, kind_of_rank, kind_of_rank-kind_rank,
  ObjectDescriptor, BatchCausalDot, Policy,
}
use tine_storage.DurableBatch.BatchError.{semantic_effect_cardinality}
use tine_storage.DurableBatch.Manifest.{OperationBatch, assemble}
use tine_storage.DurableBatch.Encoding.{
  OperationBatchWire, ObjectDescriptorWire, ManifestJson, from_wire,
}
use tine_storage.DurableBatch.Object.{ObjectHeader, EncryptionMode, unencrypted, HeaderJson}
use tine_storage.Samples.{bytes_of, note}

abbrev pub ids : Ids
ids = record {
  WorkspaceId = ℕ;
  DocumentId = ℕ;
  BatchId = ℕ;
  DeviceId = ℕ;
  SessionId = ℕ;
  Origin = ℕ;
  DependencyFrontier = ℕ;
  document_order = nat_order;
  batch_order = nat_order;
}

-- A policy that wants exactly one semantic effect.
abbrev pub count_effect : ℕ → ObjectKind → ℕ
count_effect n semantic_effect = suc n
count_effect n kind = n

abbrev pub policy : Policy ids
policy = record {
  State = ℕ;
  operation_schema_version = 7;
  managed_entity_set_version = 9;
  begin_manifest_validation = 0;
  validate_descriptor_policy = λ n descriptor. ok (count_effect n descriptor.kind);
  finish_manifest_validation = λ n. if n == 1 then ok tt else err (semantic_effect_cardinality n);
}

abbrev pub effect_object : ObjectDescriptor ids
effect_object = record {
  document_id = 4;
  kind = semantic_effect;
  content_digest = 1 ∷ [];
  encoded_byte_length = 60;
}

abbrev pub update_object : ObjectDescriptor ids
update_object = record {
  document_id = 4;
  kind = crdt_update;
  content_digest = 2 ∷ [];
  encoded_byte_length = 70;
}

abbrev pub dot : BatchCausalDot ids
dot = record { peer_id = 3; counter = 1 }

abbrev pub sample : OperationBatch ids
sample =
    assemble ids policy 1 note 8 3 5 6 dot (6 ∷ 2 ∷ 6 ∷ []) 0 note
      (update_object ∷ effect_object ∷ [])

abbrev pub write_header : ObjectHeader ids → String ⊎ Bytes
write_header header = inr (
    header.envelope_schema_version
    ∷ header.workspace_id
    ∷ header.document_id
    ∷ kind_rank header.kind
    ∷ [])

abbrev pub parse_header : Bytes → String ⊎ ObjectHeader ids
parse_header (version ∷ workspace ∷ document ∷ rank ∷ []) = inr (record {
  envelope_schema_version = version;
  workspace_id = workspace;
  document_id = document;
  kind = kind_of_rank rank;
  encryption = unencrypted;
})
parse_header bytes = inl "unexpected end"

one_mode : (mode : EncryptionMode) → unencrypted ≡ mode
one_mode unencrypted = refl

pub parse_header-write_header :
    (header : ObjectHeader ids) (bytes : Bytes)
    → write_header header ≡ inr bytes
    → parse_header bytes ≡ inr header
unfolding bytes_of
parse_header-write_header header bytes h =
    let e : header.envelope_schema_version
          ∷ header.workspace_id
          ∷ header.document_id
          ∷ kind_rank header.kind
          ∷ []
        ≡ bytes =
      ap bytes_of h in
    rw (← e, kind_of_rank-kind_rank header.kind, one_mode header.encryption) refl

abbrev pub header_json : HeaderJson ids
header_json = record {
  to_vec = write_header;
  from_slice = parse_header;
  from_slice-to_vec = parse_header-write_header;
}

-- A codec of manifests with one descriptor: the numbers, the lengths of the four lists, the lists.
abbrev pub write_parts : OperationBatch ids → List (ObjectDescriptor ids) → String ⊎ Bytes
write_parts batch (d ∷ []) = inr (
    batch.manifest_encoding_version
      ∷ batch.protocol_version
      ∷ batch.operation_schema_version
      ∷ batch.object_envelope_schema_version
      ∷ batch.managed_entity_set_version
      ∷ batch.workspace_id
      ∷ batch.batch_id
      ∷ batch.author_device_id
      ∷ batch.author_session_id
      ∷ batch.origin
      ∷ batch.causal_dot.peer_id
      ∷ batch.causal_dot.counter
      ∷ batch.dependency_frontier
      ∷ d.document_id
      ∷ kind_rank d.kind
      ∷ d.encoded_byte_length
      ∷ length batch.lineage_digest
      ∷ length batch.semantic_effect_digest
      ∷ length batch.causal_dependency_heads
      ∷ batch.lineage_digest
    ++ (batch.semantic_effect_digest ++ (batch.causal_dependency_heads ++ d.content_digest)))
write_parts batch objects = inl "not one descriptor"

abbrev pub write_manifest : OperationBatch ids → String ⊎ Bytes
write_manifest batch = write_parts batch batch.required_objects

abbrev pub put_descriptor :
    (ObjectDescriptor ids → OperationBatchWire ids)
    → String ⊎ ObjectDescriptor ids
    → String ⊎ OperationBatchWire ids
put_descriptor wire (inl e) = inl e
put_descriptor wire (inr d) = inr (wire d)

abbrev pub parse_manifest :
    (ObjectDescriptorWire ids → String ⊎ ObjectDescriptor ids)
    → Bytes
    → String ⊎ OperationBatchWire ids
parse_manifest visit
      (a ∷ b ∷ c ∷ d ∷ e ∷ workspace ∷ batch ∷ device ∷ session ∷ origin ∷ peer ∷ counter ∷ frontier
        ∷ document ∷ rank ∷ size ∷ l ∷ m ∷ n ∷ rest) =
    put_descriptor
      (λ descriptor. record {
        manifest_encoding_version = a;
        protocol_version = b;
        operation_schema_version = c;
        object_envelope_schema_version = d;
        managed_entity_set_version = e;
        workspace_id = workspace;
        lineage_digest = take l rest;
        batch_id = batch;
        author_device_id = device;
        author_session_id = session;
        origin = origin;
        causal_dot = record { peer_id = peer; counter = counter };
        causal_dependency_heads = take n (drop m (drop l rest));
        dependency_frontier = frontier;
        semantic_effect_digest = take m (drop l rest);
        required_objects = descriptor ∷ [];
      })
      (visit (record {
        document_id = document;
        kind = kind_of_rank rank;
        content_digest = drop n (drop m (drop l rest));
        encoded_byte_length = size;
      }))
parse_manifest visit bytes = inl "unexpected end"

abbrev pub put : OperationBatch ids → List (ObjectDescriptor ids) → OperationBatch ids
put batch objects = record {
  manifest_encoding_version = batch.manifest_encoding_version;
  protocol_version = batch.protocol_version;
  operation_schema_version = batch.operation_schema_version;
  object_envelope_schema_version = batch.object_envelope_schema_version;
  managed_entity_set_version = batch.managed_entity_set_version;
  workspace_id = batch.workspace_id;
  lineage_digest = batch.lineage_digest;
  batch_id = batch.batch_id;
  author_device_id = batch.author_device_id;
  author_session_id = batch.author_session_id;
  origin = batch.origin;
  causal_dot = batch.causal_dot;
  causal_dependency_heads = batch.causal_dependency_heads;
  dependency_frontier = batch.dependency_frontier;
  semantic_effect_digest = batch.semantic_effect_digest;
  required_objects = objects;
}

module _ (visit : ObjectDescriptorWire ids → String ⊎ ObjectDescriptor ids)
    (batch : OperationBatch ids) (bytes : Bytes) where
  pub parse_manifest-write_parts :
      (objects : List (ObjectDescriptor ids))
      → batch.required_objects ≡ objects
      → write_parts batch objects ≡ inr bytes
      → All
          (λ d.
            visit (record {
              document_id = d.document_id;
              kind = d.kind;
              content_digest = d.content_digest;
              encoded_byte_length = d.encoded_byte_length;
            })
            ≡ inr d)
          objects
      → (wire : OperationBatchWire ids) × (parse_manifest visit bytes ≡ inr wire)
        × (from_wire ids wire ≡ batch)
  unfolding bytes_of from_wire
  parse_manifest-write_parts [] same h visits = cc
  parse_manifest-write_parts (d ∷ []) same h (visited, u) =
      let wire : OperationBatchWire ids = record {
        manifest_encoding_version = batch.manifest_encoding_version;
        protocol_version = batch.protocol_version;
        operation_schema_version = batch.operation_schema_version;
        object_envelope_schema_version = batch.object_envelope_schema_version;
        managed_entity_set_version = batch.managed_entity_set_version;
        workspace_id = batch.workspace_id;
        lineage_digest = batch.lineage_digest;
        batch_id = batch.batch_id;
        author_device_id = batch.author_device_id;
        author_session_id = batch.author_session_id;
        origin = batch.origin;
        causal_dot = batch.causal_dot;
        causal_dependency_heads = batch.causal_dependency_heads;
        dependency_frontier = batch.dependency_frontier;
        semantic_effect_digest = batch.semantic_effect_digest;
        required_objects = d ∷ [];
      } in
      let written : bytes_of (write_parts batch (d ∷ [])) ≡ bytes = ap bytes_of h in
      let read : parse_manifest visit bytes ≡ inr wire =
        rw
          (
            ← written,
            take-append batch.lineage_digest (
                batch.semantic_effect_digest
                ++ (batch.causal_dependency_heads ++ d.content_digest)),
            drop-append batch.lineage_digest (
                batch.semantic_effect_digest
                ++ (batch.causal_dependency_heads ++ d.content_digest)),
            take-append batch.semantic_effect_digest
                (batch.causal_dependency_heads ++ d.content_digest),
            drop-append batch.semantic_effect_digest
                (batch.causal_dependency_heads ++ d.content_digest),
            take-append batch.causal_dependency_heads d.content_digest,
            drop-append batch.causal_dependency_heads d.content_digest,
            kind_of_rank-kind_rank d.kind,
            visited,
          )
          refl in
      let back : from_wire ids wire ≡ batch = ap (put batch) (sym same) in (wire, read, back)
  parse_manifest-write_parts (d ∷ e ∷ objects) same h visits = cc

abbrev pub manifest_json : ManifestJson ids
manifest_json = record {
  to_vec = write_manifest;
  from_slice = parse_manifest;
  from_slice-to_vec = λ visit batch bytes h visits.
      parse_manifest-write_parts visit batch bytes batch.required_objects refl h visits;
}
