-- ===== src/DurableBatch/Object/RoundTrip.antt =====
-- `decode` of an object reads back what `encode` writes, and accepts nothing else.
use tine_storage.Base.{
  ℕ, ◌+◌, ◌-◌, ◌^◌, ◌≤◌, ◌≡◌, refl, sym, ◌∙◌, ap, true, Bytes, length, take, slice, ==_refl,
  bytes_eq_refl, from-to_be32, from-to_be64, ok, >>=-eq-ok, arith, le→ltb, ltb, lift, lift-eq-ok,
  inr,
}
use tine_storage.ContentDigest.{Sha256, of}
use tine_storage.Envelope.{
  prefix_of, body_of, framed, header_field, payload_field, magic_field, slice-take, length-framed,
  take-framed, header-framed, payload-framed, body-framed, checksum-framed,
}
use tine_storage.DurableBatch.{Ids, max_object_bytes}
use tine_storage.DurableBatch.BatchError.{encode}
use tine_storage.DurableBatch.Object.{
  object_magic, max_object_header_bytes, unencrypted, ObjectHeader, OperationObject, HeaderJson,
  object_body, body_len, object_len, object_header, seal_object, encode_object,
  require_canonical_header, open_object, decode_body, decode_lengths, decode_object,
}

module _ (ids : Ids) (sha : Sha256) (json : HeaderJson ids) where
  body_len-ok :
      (h p : ℕ) → h + p + 52 ≤ max_object_bytes → body_len ids sha json h p ≡ ok (h + p + 20)
  unfolding body_len
  body_len-ok h p b = ground arith

  pub seal_object-ok :
      (hb payload : Bytes)
      → length hb ≤ max_object_header_bytes
      → length hb + length payload + 52 ≤ max_object_bytes
      → seal_object ids sha json hb payload
        ≡ ok (framed object_magic hb payload (of sha (body_of object_magic hb payload)))
  unfolding seal_object object_len object_body framed
  seal_object-ok hb payload a b = ground (arith, body_len-ok (length hb) (length payload) b)

  seal_object-guards :
      (hb payload bytes : Bytes)
      → seal_object ids sha json hb payload ≡ ok bytes
      → (length hb ≤ max_object_header_bytes)
        × (length hb + length payload + 52 ≤ max_object_bytes)
        × (bytes ≡ framed object_magic hb payload (of sha (body_of object_magic hb payload)))
  unfolding seal_object object_len body_len object_body framed
  seal_object-guards hb payload bytes h = ground arith

  pub encode_object-parts :
      (object : OperationObject ids) (bytes : Bytes)
      → encode_object ids sha json object ≡ ok bytes
      → (hb : Bytes) × (json.to_vec (object_header ids sha json object) ≡ inr hb)
        × (length hb ≤ max_object_header_bytes)
        × (length hb + length object.payload + 52 ≤ max_object_bytes)
        × (bytes
            ≡ framed object_magic hb object.payload
                (of sha (body_of object_magic hb object.payload)))
  unfolding encode_object
  encode_object-parts object bytes h =
      let (hb, written, sealed) =
        >>=-eq-ok (lift encode (json.to_vec (object_header ids sha json object)))
          (λ hb. seal_object ids sha json hb object.payload) bytes h in
      let (small, bounded, e) = seal_object-guards hb object.payload bytes sealed in
      (hb, lift-eq-ok encode _ hb written, small, bounded, e)

  -- The decoder behind the prefix, on an envelope of a header that `serde_json` wrote.
  decode_lengths-framed :
      (hb payload cs : Bytes) (header : ObjectHeader ids)
      → length cs ≡ 32
      → cs ≡ of sha (body_of object_magic hb payload)
      → length hb + length payload + 52 ≤ max_object_bytes
      → json.to_vec header ≡ inr hb
      → header.envelope_schema_version ≡ 2
      → header.encryption ≡ unencrypted
      → decode_lengths ids sha json (framed object_magic hb payload cs) (length hb) (length payload)
        ≡ ok (record {
          workspace_id = header.workspace_id;
          document_id = header.document_id;
          kind = header.kind;
          payload = payload;
        })
  unfolding decode_lengths decode_body open_object require_canonical_header
  decode_lengths-framed hb payload cs header n sealed bounded written version plain =
      let h = length hb in
      let p = length payload in
      let e : h + p + 52 - 32 ≡ h + p + 20 = omega arith in
      let e' : h + p + 20 + 32 ≡ h + p + 52 = omega arith in
      let in_range : ltb (h + p + 20 + 32) (2 ^ 64) ≡ true = ground arith in
      rw (
        body_len-ok h p bounded,
        in_range,
        e',
        length-framed object_magic refl hb payload cs n,
        ==_refl (h + p + 52),
        rw e at (body-framed object_magic refl hb payload cs n),
        rw e at (checksum-framed object_magic refl hb payload cs n),
        ← sealed,
        bytes_eq_refl cs,
        header-framed object_magic refl hb payload cs n,
        json.from_slice-to_vec header hb written,
        written,
        version,
        plain,
        bytes_eq_refl hb,
        rw e at (payload-framed object_magic refl hb payload cs n),
      )

  -- The decoder's view of the prefix.
  decode_object-framed :
      (hb payload cs : Bytes)
      → length cs ≡ 32
      → length hb ≤ max_object_header_bytes
      → length hb + length payload + 52 ≤ max_object_bytes
      → decode_object ids sha json (framed object_magic hb payload cs)
        ≡ decode_lengths ids sha json
            (framed object_magic hb payload cs)
            (length hb)
            (length payload)
  unfolding decode_object
  decode_object-framed hb payload cs n small bounded =
      let h = length hb in
      let p = length payload in
      let bytes = framed object_magic hb payload cs in
      let front : take 20 bytes ≡ prefix_of object_magic h p =
        take-framed object_magic refl hb payload cs n in
      let magic : take 8 bytes ≡ object_magic =
        sym (slice-take 0 8 20 bytes (omega arith))
        ∙ ap (slice 0 8) front
        ∙ magic_field object_magic refl h p in
      let first : slice 8 12 bytes ≡ _ =
        sym (slice-take 8 12 20 bytes (omega arith))
        ∙ ap (slice 8 12) front
        ∙ header_field object_magic refl h p in
      let second : slice 12 20 bytes ≡ _ =
        sym (slice-take 12 20 20 bytes (omega arith))
        ∙ ap (slice 12 20) front
        ∙ payload_field object_magic refl h p in
      rw (
        length-framed object_magic refl hb payload cs n,
        le→ltb max_object_bytes (h + p + 52) bounded,
        le→ltb (h + p + 52) 52 (omega arith),
        magic,
        bytes_eq_refl object_magic,
        first,
        second,
        from-to_be32 h (omega arith),
        from-to_be64 p (omega arith),
        le→ltb max_object_header_bytes h small,
      )

  -- An object that encodes decodes again.
  pub decode_object-encode_object :
      (object : OperationObject ids) (bytes : Bytes)
      → encode_object ids sha json object ≡ ok bytes
      → decode_object ids sha json bytes ≡ ok object
  decode_object-encode_object object bytes h =
      let (hb, written, small, bounded, e) = encode_object-parts object bytes h in
      let cs = of sha (body_of object_magic hb object.payload) in
      let n = sha.length-digest (body_of object_magic hb object.payload) in
      rw e (
        decode_object-framed hb object.payload cs n small bounded
        ∙ decode_lengths-framed hb object.payload cs (object_header ids sha json object) n refl
            bounded written refl refl)
