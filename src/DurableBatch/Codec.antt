-- ===== src/DurableBatch/Codec.antt =====
-- The manifest codec of src/durable_batch.rs reads exactly what it writes.
use tine_storage.Base.{
  ◌≡◌, ◌↔◌, refl, ap, ◌∙◌, false, not, List, [], ◌∷◌, All, Bytes, String, length, ltb, bytes_eq,
  bytes_eq_sound, bytes_eq_refl, inr, ok, ◌>>=◌, ◌>>◌, >>=-eq-ok, refuse_if, refuse_if->>, lift,
  lift-eq-ok, arith,
}
use tine_storage.DurableBatch.{
  Ids, ObjectDescriptor, BatchError, Policy, bad_length, new_descriptor, max_manifest_bytes,
}
use tine_storage.DurableBatch.BatchError.{
  decode, non_canonical_manifest, manifest_too_large, encode,
}
use tine_storage.DurableBatch.Manifest.{OperationBatch, validate}
use tine_storage.DurableBatch.Encoding.{
  ManifestJson, from_wire, encode_batch, read_descriptor, accept_batch, decode_batch,
}
use tine_storage.DurableBatch.Canonical.{IsCanonical, IsSized, validate_iff}

module _ (ids : Ids) (policy : Policy ids) (json : ManifestJson ids)
    (to_text : BatchError ids → String) where
  read_sized :
      (objects : List (ObjectDescriptor ids))
      → All (λ d. IsSized ids policy d) objects
      → All
          (λ d.
            read_descriptor ids policy json to_text (record {
              document_id = d.document_id;
              kind = d.kind;
              content_digest = d.content_digest;
              encoded_byte_length = d.encoded_byte_length;
            })
            ≡ inr d)
          objects
  unfolding read_descriptor new_descriptor
  read_sized [] h = tt
  read_sized (d ∷ objects) ((a, b), h) =
      let good : bad_length ids d.encoded_byte_length ≡ false = ground arith in
      (rw good refl, read_sized objects h)

  encode_batch-parts :
      (batch : OperationBatch ids) (bytes : Bytes)
      → encode_batch ids policy json to_text batch ≡ ok bytes
      → (json.to_vec batch ≡ inr bytes) × (ltb max_manifest_bytes (length bytes) ≡ false)
  unfolding encode_batch
  encode_batch-parts batch bytes h =
      let (written, e, rest) =
        >>=-eq-ok (lift encode (json.to_vec batch))
          (λ written.
            refuse_if (ltb max_manifest_bytes (length written))
              (manifest_too_large (length written))
            >> ok written)
          bytes h in
      let (small, same) =
        refuse_if->> (ltb max_manifest_bytes (length written)) _ (ok written) bytes rest in
      let equal : written ≡ bytes = cc same in
      (lift-eq-ok encode (json.to_vec batch) written e ∙ ap inr equal, rw equal at small)

  accept_batch-parts :
      (bytes : Bytes) (found batch : OperationBatch ids)
      → accept_batch ids policy json to_text bytes found ≡ ok batch
      → (found ≡ batch)
        × (validate ids policy found ≡ ok tt)
        × (encode_batch ids policy json to_text found ≡ ok bytes)
  unfolding accept_batch
  accept_batch-parts bytes found batch h =
      let (u, valid, h1) =
        >>=-eq-ok (validate ids policy found)
          (λ _. encode_batch ids policy json to_text found >>= λ canonical.
            refuse_if (not (bytes_eq canonical bytes)) non_canonical_manifest >> ok found)
          batch h in
      let (canonical, written, h2) =
        >>=-eq-ok (encode_batch ids policy json to_text found)
          (λ canonical.
            refuse_if (not (bytes_eq canonical bytes)) non_canonical_manifest >> ok found)
          batch h1 in
      let (same, e) =
        refuse_if->> (not (bytes_eq canonical bytes)) non_canonical_manifest (ok found) batch h2 in
      let equal : canonical ≡ bytes = bytes_eq_sound canonical bytes (ground arith) in
      (cc e, valid, written ∙ ap ok equal)

  accept_canonical :
      (bytes : Bytes) (found batch : OperationBatch ids)
      → found ≡ batch
      → validate ids policy batch ≡ ok tt
      → encode_batch ids policy json to_text batch ≡ ok bytes
      → accept_batch ids policy json to_text bytes found ≡ ok batch
  unfolding accept_batch
  accept_canonical bytes found batch same valid written =
      rw (same, valid, written, bytes_eq_refl bytes) refl

  decode_batch-encode_batch :
      (batch : OperationBatch ids) (bytes : Bytes)
      → encode_batch ids policy json to_text batch ≡ ok bytes
      → IsCanonical ids policy batch
      → decode_batch ids policy json to_text bytes ≡ ok batch
  unfolding decode_batch
  decode_batch-encode_batch batch bytes h canonical =
      let (written, small) = encode_batch-parts batch bytes h in
      let (wire, read, back) =
        json.from_slice-to_vec (read_descriptor ids policy json to_text) batch bytes written
          (read_sized batch.required_objects canonical.sized) in
      rw (small, read)
        (accept_canonical bytes (from_wire ids wire) batch back
          ((validate_iff ids policy batch).1 canonical) h)

  encode_batch-decode_batch :
      (batch : OperationBatch ids) (bytes : Bytes)
      → decode_batch ids policy json to_text bytes ≡ ok batch
      → (encode_batch ids policy json to_text batch ≡ ok bytes) × IsCanonical ids policy batch
  unfolding decode_batch
  encode_batch-decode_batch batch bytes h =
      let (small, h1) =
        refuse_if->> (ltb max_manifest_bytes (length bytes)) _
          (lift decode (json.from_slice (read_descriptor ids policy json to_text) bytes) >>= λ wire.
            accept_batch ids policy json to_text bytes (from_wire ids wire))
          batch h in
      let (wire, read, h2) =
        >>=-eq-ok (lift decode (json.from_slice (read_descriptor ids policy json to_text) bytes))
          (λ wire. accept_batch ids policy json to_text bytes (from_wire ids wire)) batch h1 in
      let (same, valid, written) = accept_batch-parts bytes (from_wire ids wire) batch h2 in
      (rw same at written, (validate_iff ids policy batch).0 (rw same at valid))

  -- Bytes decode to a manifest exactly if the manifest is in canonical form and they are what its
  -- encoding writes, so a manifest has one encoding and no other bytes are accepted.
  pub decode_batch_iff :
      (batch : OperationBatch ids) (bytes : Bytes)
      → (decode_batch ids policy json to_text bytes ≡ ok batch)
        ↔ ((encode_batch ids policy json to_text batch ≡ ok bytes) × IsCanonical ids policy batch)
  decode_batch_iff batch bytes =
      (encode_batch-decode_batch batch bytes, λ h. decode_batch-encode_batch batch bytes h.0 h.1)
