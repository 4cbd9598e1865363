-- ===== src/DurableBatch/Canonical.antt =====
-- Which manifests `validate` accepts, and the round trips of the manifest codec.
use tine_storage.Base.{
  ◌≡◌, ◌≢◌, ◌↔◌, ◌<◌, ◌≤◌, refl, true, false, not, ◌&&◌, List, [], ◌∷◌, All, Bytes, ◌==◌, ==_refl,
  bytes_eq, bytes_eq_sound, bytes_eq_refl, Bool-cases, inl, inr, Result, ok, ◌>>=◌, ◌>>◌, >>=-eq-ok,
  refuse_if->>, arith,
}
use tine_storage.Order.{is_strictly_sorted, holds, same, StrictOrder}
use tine_storage.Order.Sorting.{IsStrict, is_strictly_sorted-IsStrict, IsStrict-is_strictly_sorted}
use tine_storage.DurableBatch.{
  Ids, ObjectDescriptor, BatchError, Policy, descriptor_order, bad_length,
  manifest_encoding_version, oplog_protocol_version, object_envelope_schema_version,
  max_object_bytes,
}
use tine_storage.DurableBatch.Manifest.{
  OperationBatch, is_new, check_descriptors, check_versions, check_causality, check_order, validate,
  is_empty,
}

-- What `holds` searches for is among the elements.
module _ {A : Type 0} (o : StrictOrder A) where
  pub holds_sound : (a : A) (xs : List A) → holds o a xs ≡ false → All (λ x. x ≢ a) xs
  unfolding holds
  holds_sound a [] h = tt
  holds_sound a (x ∷ xs) h = elim (Bool-cases (same o x a)) [
    | inl here ↦ let e : true ≡ false = rw here at h in absurd (cc e)
    | inr other ↦ (λ e. ground (arith, o.irrefl a, rw e at other), holds_sound a xs (rw other at h))
  ]

  pub holds_complete : (a : A) (xs : List A) → All (λ x. x ≢ a) xs → holds o a xs ≡ false
  unfolding holds
  holds_complete a [] h = refl
  holds_complete a (x ∷ xs) (n, h) = elim (Bool-cases (same o x a)) [
    | inl here ↦ absurd (n (o.connected x a (ground arith) (ground arith)))
    | inr other ↦ rw other (holds_complete a xs h)
  ]

module _ (ids : Ids) (policy : Policy ids) where
  -- The policy alone, over the descriptors in their order.
  abbrev pub run_policy :
      policy.State → List (ObjectDescriptor ids) → Result (BatchError ids) (Unit {0})
  run_policy state [] = policy.finish_manifest_validation state
  run_policy state (descriptor ∷ rest) =
      policy.validate_descriptor_policy state descriptor >>= λ next. run_policy next rest

  -- No digest is one of those behind it or of the ones seen before.
  abbrev pub IsDistinct : List Bytes → List (ObjectDescriptor ids) → Type 0
  IsDistinct seen [] = Unit
  IsDistinct seen (descriptor ∷ rest) =
      All (λ digest. digest ≢ descriptor.content_digest) seen
      × IsDistinct (descriptor.content_digest ∷ seen) rest

  abbrev pub IsSized : ObjectDescriptor ids → Type 0
  IsSized descriptor =
      (0 < descriptor.encoded_byte_length) × (descriptor.encoded_byte_length ≤ max_object_bytes)

  is_new_sound :
      (seen : List Bytes) (digest : Bytes)
      → is_new ids policy seen digest ≡ true
      → All (λ d. d ≢ digest) seen
  is_new_sound [] digest h = tt
  is_new_sound (first ∷ seen) digest h = (
    λ e. ground (arith, bytes_eq_refl digest, rw e at h),
    is_new_sound seen digest (ground arith),
  )

  is_new_complete :
      (seen : List Bytes) (digest : Bytes)
      → All (λ d. d ≢ digest) seen
      → is_new ids policy seen digest ≡ true
  is_new_complete [] digest h = refl
  is_new_complete (first ∷ seen) digest (n, h) = elim (Bool-cases (bytes_eq first digest)) [
    | inl here ↦ absurd (n (bytes_eq_sound first digest here))
    | inr other ↦ rw (other, is_new_complete seen digest h) refl
  ]

  check_descriptors_sound :
      (seen : List Bytes) (state : policy.State) (objects : List (ObjectDescriptor ids))
      → check_descriptors ids policy seen state objects ≡ ok tt
      → All IsSized objects × IsDistinct seen objects × (run_policy state objects ≡ ok tt)
  unfolding check_descriptors
  check_descriptors_sound seen state [] h = (tt, tt, h)
  check_descriptors_sound seen state (descriptor ∷ rest) h =
      let (sized, h1) = refuse_if->> (bad_length ids descriptor.encoded_byte_length) _ _ tt h in
      let (fresh, h2) =
        refuse_if->> (not (is_new ids policy seen descriptor.content_digest)) _ _ tt h1 in
      let (next, stepped, h3) =
        >>=-eq-ok (policy.validate_descriptor_policy state descriptor)
          (λ next. check_descriptors ids policy (descriptor.content_digest ∷ seen) next rest) tt
          h2 in
      let (sizes, distinct, accepted) =
        check_descriptors_sound (descriptor.content_digest ∷ seen) next rest h3 in
      (
        ((ground arith, ground arith), sizes),
        (is_new_sound seen descriptor.content_digest (ground arith), distinct),
        rw stepped accepted,
      )

  check_descriptors_complete :
      (seen : List Bytes) (state : policy.State) (objects : List (ObjectDescriptor ids))
      → All IsSized objects
      → IsDistinct seen objects
      → run_policy state objects ≡ ok tt
      → check_descriptors ids policy seen state objects ≡ ok tt
  unfolding check_descriptors
  check_descriptors_complete seen state [] sizes distinct h = h
  check_descriptors_complete seen state (descriptor ∷ rest) ((a, b), sizes) (fresh, distinct) h =
      let (next, stepped, accepted) =
        >>=-eq-ok (policy.validate_descriptor_policy state descriptor)
          (λ next. run_policy next rest) tt h in
      let good : bad_length ids descriptor.encoded_byte_length ≡ false = ground arith in
      rw (good, is_new_complete seen descriptor.content_digest fresh, stepped)
        (check_descriptors_complete (descriptor.content_digest ∷ seen) next rest sizes distinct
          accepted)

  -- The manifests that are in canonical form and that the policy accepts.
  pub record IsCanonical (batch : OperationBatch ids) : Type 0 where
    pub manifest_version : batch.manifest_encoding_version ≡ manifest_encoding_version
    pub protocol : batch.protocol_version ≡ oplog_protocol_version
    pub operation_schema : batch.operation_schema_version ≡ policy.operation_schema_version
    pub object_schema : batch.object_envelope_schema_version ≡ object_envelope_schema_version
    pub entity_set : batch.managed_entity_set_version ≡ policy.managed_entity_set_version
    pub counted : 0 < batch.causal_dot.counter
    pub heads_ascend : IsStrict ids.batch_order batch.causal_dependency_heads
    pub not_its_own_head : All (λ head. head ≢ batch.batch_id) batch.causal_dependency_heads
    pub objects_ascend : IsStrict (descriptor_order ids) batch.required_objects
    pub sized : All IsSized batch.required_objects
    pub distinct : IsDistinct [] batch.required_objects
    pub accepted : run_policy policy.begin_manifest_validation batch.required_objects ≡ ok tt

  check_versions_sound :
      (batch : OperationBatch ids)
      → check_versions ids policy batch ≡ ok tt
      → (batch.manifest_encoding_version ≡ manifest_encoding_version)
        × (batch.protocol_version ≡ oplog_protocol_version)
        × (batch.operation_schema_version ≡ policy.operation_schema_version)
        × (batch.object_envelope_schema_version ≡ object_envelope_schema_version)
        × (batch.managed_entity_set_version ≡ policy.managed_entity_set_version)
  unfolding check_versions
  check_versions_sound batch h = ground arith

  -- No heads are sorted, so that the second conjunct decides nothing.
  heads_test :
      (heads : List ids.BatchId)
      → (not (is_strictly_sorted ids.batch_order heads) && not (is_empty ids policy heads))
        ≡ not (is_strictly_sorted ids.batch_order heads)
  unfolding is_strictly_sorted is_empty
  heads_test [] = refl
  heads_test (head ∷ heads) = ground arith

  check_causality_sound :
      (batch : OperationBatch ids)
      → check_causality ids policy batch ≡ ok tt
      → (0 < batch.causal_dot.counter)
        × (is_strictly_sorted ids.batch_order batch.causal_dependency_heads ≡ true)
        × (holds ids.batch_order batch.batch_id batch.causal_dependency_heads ≡ false)
  unfolding check_causality
  check_causality_sound batch h = ground (arith, heads_test batch.causal_dependency_heads)

  check_order_sound :
      (objects : List (ObjectDescriptor ids))
      → check_order ids policy objects ≡ ok tt
      → is_strictly_sorted (descriptor_order ids) objects ≡ true
  unfolding check_order
  check_order_sound objects h = ground arith

  validate_sound :
      (batch : OperationBatch ids) → validate ids policy batch ≡ ok tt → IsCanonical batch
  unfolding validate
  validate_sound batch h =
      let (u, versions, h1) =
        >>=-eq-ok (check_versions ids policy batch)
          (λ _.
            check_causality ids policy batch
            >> (check_order ids policy batch.required_objects
                >> check_descriptors ids policy [] policy.begin_manifest_validation
                    batch.required_objects))
          tt h in
      let (v, causal, h2) =
        >>=-eq-ok (check_causality ids policy batch)
          (λ _.
            check_order ids policy batch.required_objects
            >> check_descriptors ids policy [] policy.begin_manifest_validation
                batch.required_objects)
          tt h1 in
      let (w, ordered, h3) =
        >>=-eq-ok (check_order ids policy batch.required_objects)
          (λ _.
            check_descriptors ids policy [] policy.begin_manifest_validation batch.required_objects)
          tt h2 in
      let (a, b, c, d, e) = check_versions_sound batch versions in
      let (counted, heads, own) = check_causality_sound batch causal in
      let (sized, distinct, accepted) =
        check_descriptors_sound [] policy.begin_manifest_validation batch.required_objects h3 in
      record {
        manifest_version = a;
        protocol = b;
        operation_schema = c;
        object_schema = d;
        entity_set = e;
        counted = counted;
        heads_ascend = is_strictly_sorted-IsStrict ids.batch_order _ heads;
        not_its_own_head = holds_sound ids.batch_order _ _ own;
        objects_ascend =
            is_strictly_sorted-IsStrict (descriptor_order ids) _
              (check_order_sound batch.required_objects ordered);
        sized = sized;
        distinct = distinct;
        accepted = accepted;
      }

  validate_complete :
      (batch : OperationBatch ids) → IsCanonical batch → validate ids policy batch ≡ ok tt
  unfolding validate check_versions check_causality check_order
  validate_complete batch c =
      let counted : (batch.causal_dot.counter == 0) ≡ false =
        let positive = c.counted in ground arith in
      rw (
        c.manifest_version,
        c.protocol,
        c.operation_schema,
        c.object_schema,
        c.entity_set,
        ==_refl policy.operation_schema_version,
        ==_refl policy.managed_entity_set_version,
        counted,
        IsStrict-is_strictly_sorted ids.batch_order _ c.heads_ascend,
        holds_complete ids.batch_order _ _ c.not_its_own_head,
        IsStrict-is_strictly_sorted (descriptor_order ids) _ c.objects_ascend,
        check_descriptors_complete [] policy.begin_manifest_validation batch.required_objects
            c.sized c.distinct c.accepted,
      )

  -- `validate` accepts exactly the manifests in canonical form: the five versions are the current
  -- ones, the counter is positive, the heads are strictly ascending and none is the batch itself,
  -- the descriptors are strictly ascending with lengths from 1 to 256 MiB and with distinct
  -- digests, and the policy accepts them in that order.
  pub validate_iff :
      (batch : OperationBatch ids) → (validate ids policy batch ≡ ok tt) ↔ IsCanonical batch
  validate_iff batch = (validate_sound batch, validate_complete batch)
