-- ===== src/DurableBatch/Building.antt =====
-- `new_with_causality` of src/durable_batch.rs: when it builds a batch, and what it forgets of its inputs.
use tine_storage.Base.{
  ◌≡◌, ◌≢◌, ◌<◌, refl, sym, ap, ◌∙◌, List, [], ◌∷◌, All, Bytes, Result, ok, >>=-eq-ok,
}
use tine_storage.Order.{sort}
use tine_storage.Order.Sorting.{Rearranged, sort-Rearranged, dedup-sort-IsStrict}
use tine_storage.Order.Pairs.{AllPairs, All-both, sort-All, dedup-All, sort-AllPairs, sort-IsStrict}
use tine_storage.DurableBatch.{
  Ids, ObjectDescriptor, BatchError, BatchCausalDot, Policy, descriptor_order,
}
use tine_storage.DurableBatch.Manifest.{OperationBatch, validate, assemble, new_with_causality}
use tine_storage.DurableBatch.Canonical.{IsCanonical, IsSized, IsDistinct, run_policy, validate_iff}

module _ (ids : Ids) (policy : Policy ids) where
  AllPairs-IsDistinct :
      (seen : List Bytes) (objects : List (ObjectDescriptor ids))
      → All (λ d. All (λ digest. digest ≢ d.content_digest) seen) objects
      → AllPairs (λ a b. a.content_digest ≢ b.content_digest) objects
      → IsDistinct ids policy seen objects
  AllPairs-IsDistinct seen [] h k = tt
  AllPairs-IsDistinct seen (d ∷ objects) (h, hs) (k, ks) = (
    h,
    AllPairs-IsDistinct (d.content_digest ∷ seen) objects
        (All-both (λ b. d.content_digest ≢ b.content_digest)
          (λ b. All (λ digest. digest ≢ b.content_digest) seen) objects k hs)
        ks,
  )

  none_seen :
      (objects : List (ObjectDescriptor ids))
      → All (λ d. All (λ digest. digest ≢ d.content_digest) []) objects
  none_seen [] = tt
  none_seen (d ∷ objects) = (tt, none_seen objects)

  module _ (workspace : ids.WorkspaceId) (lineage : Bytes) (batch_id : ids.BatchId)
      (device : ids.DeviceId) (session : ids.SessionId) (origin : ids.Origin)
      (dot : BatchCausalDot ids) (frontier : ids.DependencyFrontier) (effect : Bytes) where
    abbrev built : List ids.BatchId → List (ObjectDescriptor ids) → OperationBatch ids
    built heads objects =
        assemble ids policy workspace lineage batch_id device session origin dot heads frontier
          effect objects

    abbrev build :
        List ids.BatchId
        → List (ObjectDescriptor ids)
        → Result (BatchError ids) (OperationBatch ids)
    build heads objects =
        new_with_causality ids policy workspace lineage batch_id device session origin dot heads
          frontier effect objects

    -- The result of `new_with_causality`, an error or a batch, does not depend on the order in which
    -- the heads and the descriptors are given.
    pub new_with_causality-Rearranged :
        (heads heads' : List ids.BatchId) (objects objects' : List (ObjectDescriptor ids))
        → Rearranged heads heads'
        → Rearranged objects objects'
        → new_with_causality ids policy workspace lineage batch_id device session origin dot heads
            frontier effect objects
          ≡ new_with_causality ids policy workspace lineage batch_id device session origin dot
              heads' frontier effect objects'
    unfolding new_with_causality assemble
    new_with_causality-Rearranged heads heads' objects objects' p q =
        rw (sort-Rearranged ids.batch_order p, sort-Rearranged (descriptor_order ids) q) refl

    -- What `new_with_causality` returns is the assembled batch, in canonical form.
    pub new_with_causality-IsCanonical :
        (heads : List ids.BatchId) (objects : List (ObjectDescriptor ids))
        (batch : OperationBatch ids)
        → new_with_causality ids policy workspace lineage batch_id device session origin dot heads
            frontier effect objects
          ≡ ok batch
        → (batch
            ≡ assemble ids policy workspace lineage batch_id device session origin dot heads
                frontier effect objects)
          × IsCanonical ids policy batch
    unfolding new_with_causality
    new_with_causality-IsCanonical heads objects batch h =
        let (u, valid, e) =
          >>=-eq-ok (validate ids policy (built heads objects)) (λ _. ok (built heads objects))
            batch h in
        let same : built heads objects ≡ batch = cc e in
        (sym same, (validate_iff ids policy batch).0 (ap (validate ids policy) (sym same) ∙ valid))

    -- It builds the batch whenever the counter is positive, no head is the batch itself, the
    -- descriptors have lengths from 1 to 256 MiB and distinct digests, and the policy accepts the
    -- sorted descriptors; the heads may repeat and both lists may be in any order.
    pub new_with_causality_complete :
        (heads : List ids.BatchId) (objects : List (ObjectDescriptor ids))
        → 0 < dot.counter
        → All (λ head. head ≢ batch_id) heads
        → All (λ d. IsSized ids policy d) objects
        → AllPairs (λ a b. a.content_digest ≢ b.content_digest) objects
        → run_policy ids policy policy.begin_manifest_validation
            (sort (descriptor_order ids) objects)
          ≡ ok tt
        → new_with_causality ids policy workspace lineage batch_id device session origin dot heads
            frontier effect objects
          ≡ ok (
              assemble ids policy workspace lineage batch_id device session origin dot heads
                frontier effect objects)
    unfolding new_with_causality assemble
    new_with_causality_complete heads objects counted others sizes distinct accepted =
        let sorted = sort (descriptor_order ids) objects in
        let canonical : IsCanonical ids policy (built heads objects) = record {
          manifest_version = refl;
          protocol = refl;
          operation_schema = refl;
          object_schema = refl;
          entity_set = refl;
          counted = counted;
          heads_ascend = dedup-sort-IsStrict ids.batch_order heads;
          not_its_own_head =
              dedup-All ids.batch_order (λ head. head ≢ batch_id) (sort ids.batch_order heads)
                (sort-All ids.batch_order (λ head. head ≢ batch_id) heads others);
          objects_ascend =
              sort-IsStrict (descriptor_order ids) (λ d. d.content_digest) objects distinct;
          sized = sort-All (descriptor_order ids) (λ d. IsSized ids policy d) objects sizes;
          distinct = AllPairs-IsDistinct [] sorted (none_seen sorted) (
              sort-AllPairs (descriptor_order ids) (λ a b. a.content_digest ≢ b.content_digest)
                (λ a b n e. n (sym e)) objects distinct);
          accepted = accepted;
        } in
        rw ((validate_iff ids policy (built heads objects)).1 canonical) refl
