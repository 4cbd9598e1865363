-- ===== src/DurableBatch/Examples.antt =====
-- The theorems on batches and objects at concrete inputs.
use tine_storage.Base.{
  ℕ, suc, ◌+◌, ◌≡◌, ◌≢◌, ◌↔◌, ◌<◌, refl, sym, ap, Bool, true, false, List, [], ◌∷◌, ◌++◌, All,
  Bytes, IsBytes, String, ◌⊎◌, inl, inr, length, take, drop, replicate, take-append, drop-append,
  to_be_bytes, Result, ok, err, if◌then◌else◌, ◌==◌, arith, map_err,
}
use tine_storage.ContentDigest.{of}
use tine_storage.Order.{sort}
use tine_storage.Order.Laws.{nat_order}
use tine_storage.Order.Sorting.{exchange}
use tine_storage.Order.Pairs.{AllPairs}
use tine_storage.DurableBatch.{crdt_update, kind_rank, descriptor_order}
use tine_storage.DurableBatch.Manifest.{OperationBatch, validate, assemble, new_with_causality}
use tine_storage.DurableBatch.Encoding.{encode_batch, decode_batch}
use tine_storage.DurableBatch.Canonical.{IsCanonical, run_policy, validate_iff}
use tine_storage.DurableBatch.Codec.{decode_batch_iff}
use tine_storage.DurableBatch.Building.{new_with_causality-Rearranged, new_with_causality_complete}
use tine_storage.DurableBatch.Selection.{
  required_objects_for_document_kind, required_objects_for_document_kind-filter, filter, is_at,
}
use tine_storage.DurableBatch.Object.{OperationObject, object_body, encode_object, decode_object}
use tine_storage.DurableBatch.Object.Decoded.{decode_object_iff}
use tine_storage.Samples.{toy_sha, bytes_of, note}
use tine_storage.DurableBatch.Samples.{
  ids, policy, effect_object, update_object, dot, sample, header_json, write_manifest, put,
  manifest_json,
}

sample-validate : validate ids policy sample ≡ ok tt
unfolding validate assemble tine_storage.Order.is_strictly_sorted tine_storage.Order.dedup sort
    nat_order tine_storage.Order.holds descriptor_order tine_storage.Order.Laws.order_by
    tine_storage.Order.Laws.lex_order kind_rank tine_storage.Base.bytes_eq
sample-validate = refl

sample-IsCanonical : IsCanonical ids policy sample
sample-IsCanonical = (validate_iff ids policy sample).0 sample-validate

validate_iff_example : (validate ids policy sample ≡ ok tt) ↔ IsCanonical ids policy sample
validate_iff_example = validate_iff ids policy sample

new_with_causality-Rearranged_example :
    new_with_causality ids policy 1 note 8 3 5 6 dot
      (6 ∷ 2 ∷ [])
      0
      note
      (update_object ∷ effect_object ∷ [])
    ≡ new_with_causality ids policy 1 note 8 3 5 6 dot
        (2 ∷ 6 ∷ [])
        0
        note
        (effect_object ∷ update_object ∷ [])
new_with_causality-Rearranged_example =
    new_with_causality-Rearranged ids policy 1 note 8 3 5 6 dot 0 note (6 ∷ 2 ∷ []) (2 ∷ 6 ∷ [])
      (update_object ∷ effect_object ∷ []) (effect_object ∷ update_object ∷ []) (exchange 6 2 [])
      (exchange update_object effect_object [])

policy_accepts :
    run_policy ids policy policy.begin_manifest_validation
      (sort (descriptor_order ids) (update_object ∷ effect_object ∷ []))
    ≡ ok tt
unfolding sort descriptor_order tine_storage.Order.insert_sorted tine_storage.Order.Laws.order_by
    tine_storage.Order.Laws.lex_order nat_order kind_rank
policy_accepts = refl

new_with_causality_complete_example :
    new_with_causality ids policy 1 note 8 3 5 6 dot
      (6 ∷ 2 ∷ 6 ∷ [])
      0
      note
      (update_object ∷ effect_object ∷ [])
    ≡ ok sample
new_with_causality_complete_example =
    new_with_causality_complete ids policy 1 note 8 3 5 6 dot 0 note (6 ∷ 2 ∷ 6 ∷ [])
      (update_object ∷ effect_object ∷ []) (omega arith) (omega arith) (omega arith) differ
      policy_accepts
  where
    first : List ℕ → ℕ
    first [] = 0
    first (x ∷ xs) = x

    apart : update_object.content_digest ≢ effect_object.content_digest
    apart e = let n : ◌≡◌ {A = ℕ} 2 1 = ap first e in omega (arith, n)

    differ :
        AllPairs (λ a b. a.content_digest ≢ b.content_digest) (update_object ∷ effect_object ∷ [])
    differ = ((apart, tt), (tt, tt))

required_objects_for_document_kind-filter_example :
    required_objects_for_document_kind ids sample 4 crdt_update
    ≡ filter (is_at ids 4 crdt_update) sample.required_objects
required_objects_for_document_kind-filter_example =
    required_objects_for_document_kind-filter ids policy sample 4 crdt_update sample-IsCanonical

abbrev note_object : OperationObject ids
note_object = record { workspace_id = 1; document_id = 4; kind = crdt_update; payload = note }

abbrev note_bytes : Bytes
note_bytes =
    object_body (2 ∷ 1 ∷ 4 ∷ 1 ∷ []) note ++ of toy_sha (object_body (2 ∷ 1 ∷ 4 ∷ 1 ∷ []) note)

note_encodes : encode_object ids toy_sha header_json note_object ≡ ok note_bytes
unfolding encode_object kind_rank
note_encodes = refl

note_bytes-IsBytes : IsBytes note_bytes
unfolding object_body to_be_bytes
note_bytes-IsBytes = omega arith

decode_object_iff_example :
    (decode_object ids toy_sha header_json note_bytes ≡ ok note_object)
    ↔ (encode_object ids toy_sha header_json note_object ≡ ok note_bytes)
decode_object_iff_example =
    decode_object_iff ids toy_sha header_json note_bytes note_object note_bytes-IsBytes

abbrev small_batch : OperationBatch ids
small_batch = put sample (effect_object ∷ [])

abbrev small_bytes : Bytes
small_bytes = bytes_of (write_manifest small_batch)

small_encodes : encode_batch ids policy manifest_json (λ error. "") small_batch ≡ ok small_bytes
unfolding encode_batch assemble tine_storage.Order.dedup sort nat_order bytes_of
small_encodes = refl

decode_batch_iff_example :
    (decode_batch ids policy manifest_json (λ error. "") small_bytes ≡ ok small_batch) ↔ (
      (encode_batch ids policy manifest_json (λ error. "") small_batch ≡ ok small_bytes)
      × IsCanonical ids policy small_batch)
decode_batch_iff_example =
    decode_batch_iff ids policy manifest_json (λ error. "") small_batch small_bytes
