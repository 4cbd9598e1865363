-- ===== src/DurableBatch/Object/Decoded.antt =====
-- What `decode` of an object accepts, and the descriptor of an object.
use tine_storage.Base.{
  ℕ, ◌+◌, ◌≤◌, ◌≡◌, ◌↔◌, refl, sym, ◌∙◌, ap, true, false, not, Bytes, IsBytes, length, take, drop,
  slice, bytes_eq, bytes_eq_sound, from_be_bytes, ok, ◌>>=◌, >>=-eq-ok, refuse_if, arith, lift,
  lift-eq-ok, inr, append_assoc, All-take, length-slice, length-take, take-append-drop, take-slice,
}
use tine_storage.ContentDigest.{Sha256, of}
use tine_storage.Envelope.{
  prefix_of, body_of, framed, prefix_of_fields, slice-take, length-framed, body_of-prefix_of,
}
use tine_storage.DurableBatch.{Ids, max_object_bytes, new_descriptor, bad_length}
use tine_storage.DurableBatch.BatchError.{encode, decode, non_canonical_object_header}
use tine_storage.DurableBatch.Object.{
  object_magic, max_object_header_bytes, EncryptionMode, unencrypted, ObjectHeader, OperationObject,
  HeaderJson, body_len, seal_object, encode_object, descriptor_of, require_canonical_header,
  open_object, decode_body, decode_lengths, decode_object,
}
use tine_storage.DurableBatch.Object.RoundTrip.{
  seal_object-ok, encode_object-parts, decode_object-encode_object,
}

not_encrypted : (mode : EncryptionMode) → mode ≡ unencrypted
not_encrypted unencrypted = refl

module _ (ids : Ids) (sha : Sha256) (json : HeaderJson ids) where
  decode_object-guards :
      (bytes : Bytes) (object : OperationObject ids)
      → decode_object ids sha json bytes ≡ ok object
      → (length bytes ≤ max_object_bytes)
        × (52 ≤ length bytes)
        × (bytes_eq (take 8 bytes) object_magic ≡ true)
        × (from_be_bytes (slice 8 12 bytes) ≤ max_object_header_bytes)
        × (decode_lengths ids sha json bytes
              (from_be_bytes (slice 8 12 bytes))
              (from_be_bytes (slice 12 20 bytes))
            ≡ ok object)
  unfolding decode_object
  decode_object-guards bytes object h = ground arith

  body_len_sound : (h p body : ℕ) → body_len ids sha json h p ≡ ok body → body ≡ h + p + 20
  unfolding body_len
  body_len_sound h p body e = ground arith

  decode_body-guards :
      (bytes : Bytes) (h body : ℕ) (object : OperationObject ids)
      → decode_body ids sha json bytes h body ≡ ok object
      → (length bytes ≡ body + 32)
        × (bytes_eq (drop body bytes) (of sha (take body bytes)) ≡ true)
        × ((lift decode (json.from_slice (slice 20 (20 + h) bytes))
              >>= open_object ids sha json bytes h body)
            ≡ ok object)
  unfolding decode_body
  decode_body-guards bytes h body object e = ground arith

  open_object-guards :
      (bytes : Bytes) (h body : ℕ) (header : ObjectHeader ids) (object : OperationObject ids)
      → open_object ids sha json bytes h body header ≡ ok object
      → (header.envelope_schema_version ≡ 2)
        × (require_canonical_header ids sha json header (slice 20 (20 + h) bytes) ≡ ok tt)
        × (object ≡ record {
          workspace_id = header.workspace_id;
          document_id = header.document_id;
          kind = header.kind;
          payload = slice (20 + h) body bytes;
        })
  unfolding open_object
  open_object-guards bytes h body header object e = ground arith

  require_canonical_header-ok :
      (header : ObjectHeader ids) (hb : Bytes)
      → require_canonical_header ids sha json header hb ≡ ok tt
      → json.to_vec header ≡ inr hb
  unfolding require_canonical_header
  require_canonical_header-ok header hb h =
      let (c, written, same) =
        >>=-eq-ok (lift encode (json.to_vec header))
          (λ c. refuse_if (not (bytes_eq c hb)) non_canonical_object_header) tt h in
      lift-eq-ok encode _ c written ∙ ap inr (bytes_eq_sound c hb (ground arith))

  encode_object-header :
      (header : ObjectHeader ids) (hb payload : Bytes) (object : OperationObject ids)
      → json.to_vec header ≡ inr hb
      → header.envelope_schema_version ≡ 2
      → object ≡ record {
        workspace_id = header.workspace_id;
        document_id = header.document_id;
        kind = header.kind;
        payload = payload;
      }
      → encode_object ids sha json object ≡ seal_object ids sha json hb payload
  unfolding encode_object
  encode_object-header header hb payload object written version e =
      rw (e, ← version, ← (not_encrypted header.encryption), written)

  decoded-parts :
      (bytes : Bytes) (object : OperationObject ids)
      → decode_object ids sha json bytes ≡ ok object
      → (header : ObjectHeader ids) × (length bytes
          ≡ from_be_bytes (slice 8 12 bytes) + from_be_bytes (slice 12 20 bytes) + 52)
        × (bytes_eq
              (drop
                (from_be_bytes (slice 8 12 bytes) + from_be_bytes (slice 12 20 bytes) + 20)
                bytes)
              (of sha (
                take
                  (from_be_bytes (slice 8 12 bytes) + from_be_bytes (slice 12 20 bytes) + 20)
                  bytes))
            ≡ true)
        × (open_object ids sha json bytes
              (from_be_bytes (slice 8 12 bytes))
              (from_be_bytes (slice 8 12 bytes) + from_be_bytes (slice 12 20 bytes) + 20)
              header
            ≡ ok object)
  unfolding decode_lengths
  decoded-parts bytes object e =
      let h = from_be_bytes (slice 8 12 bytes) in
      let p = from_be_bytes (slice 12 20 bytes) in
      let (large, small, magic, header_small, e1) = decode_object-guards bytes object e in
      let (body, total, e2) =
        >>=-eq-ok (body_len ids sha json h p) (decode_body ids sha json bytes h) object e1 in
      let at : body ≡ h + p + 20 = body_len_sound h p body total in
      let (size, checksum, e3) =
        decode_body-guards bytes h (h + p + 20) object
          (ap (decode_body ids sha json bytes h) (sym at) ∙ e2) in
      let (header, read, e4) =
        >>=-eq-ok (lift decode (json.from_slice (slice 20 (20 + h) bytes)))
          (open_object ids sha json bytes h (h + p + 20)) object e3 in
      (header, omega arith, checksum, e4)

  -- Whatever bytes decode to an object are the encoding of that object.
  encode_object-decode_object :
      (bytes : Bytes) (object : OperationObject ids)
      → IsBytes bytes
      → decode_object ids sha json bytes ≡ ok object
      → encode_object ids sha json object ≡ ok bytes
  unfolding framed
  encode_object-decode_object bytes object b e =
      let h = from_be_bytes (slice 8 12 bytes) in
      let p = from_be_bytes (slice 12 20 bytes) in
      let (large, small, magic, header_small, rest) = decode_object-guards bytes object e in
      let (header, size, checksum, opened) = decoded-parts bytes object e in
      let (version, canonical, found) =
        open_object-guards bytes h (h + p + 20) header object opened in
      let hb = slice 20 (20 + h) bytes in
      let payload = slice (20 + h) (h + p + 20) bytes in
      let lh : length hb ≡ h =
        omega (arith, length-slice 20 (20 + h) bytes (omega arith) (omega arith)) in
      let lp : length payload ≡ p =
        omega (arith, length-slice (20 + h) (h + p + 20) bytes (omega arith) (omega arith)) in
      let written = require_canonical_header-ok header hb canonical in
      let front : take 20 bytes ≡ prefix_of object_magic h p =
        rw (slice-take 8 12 20 bytes (omega arith), slice-take 12 20 20 bytes (omega arith)) at
          (prefix_of_fields object_magic refl (take 20 bytes) (omega (arith, length-take 20 bytes))
            (All-take _ 20 bytes b)
            (slice-take 0 8 20 bytes (omega arith) ∙ bytes_eq_sound _ _ magic)) in
      let body : take (h + p + 20) bytes ≡ body_of object_magic hb payload = cc (
        take-slice (20 + h) (h + p + 20) bytes (omega arith),
        take-slice 20 (20 + h) bytes (omega arith),
        front,
        lh,
        lp,
        append_assoc (take 20 bytes) hb payload,
        body_of-prefix_of object_magic refl hb payload,
      ) in
      let whole : bytes
          ≡ framed object_magic hb payload (of sha (body_of object_magic hb payload)) =
        cc (take-append-drop (h + p + 20) bytes, bytes_eq_sound _ _ checksum, body) in
      encode_object-header header hb payload object written version found
      ∙ seal_object-ok ids sha json hb payload (omega arith) (omega arith)
      ∙ ap ok (sym whole)

  -- An object that encodes has a descriptor: the digest and the length of its encoding, which is
  -- between 52 bytes and 256 MiB.
  pub descriptor_of-encode_object :
      (object : OperationObject ids) (bytes : Bytes)
      → encode_object ids sha json object ≡ ok bytes
      → (descriptor_of ids sha json object
          ≡ ok (record {
            document_id = object.document_id;
            kind = object.kind;
            content_digest = of sha bytes;
            encoded_byte_length = length bytes;
          }))
        × (52 ≤ length bytes)
        × (length bytes ≤ max_object_bytes)
  unfolding descriptor_of new_descriptor
  descriptor_of-encode_object object bytes h =
      let (hb, written, small, bounded, e) = encode_object-parts ids sha json object bytes h in
      let size : length bytes ≡ length hb + length object.payload + 52 =
        ap length e
        ∙ length-framed object_magic refl hb object.payload
            (of sha (body_of object_magic hb object.payload))
            (sha.length-digest (body_of object_magic hb object.payload)) in
      let good : bad_length ids (length bytes) ≡ false = ground arith in
      (rw (h, good) refl, omega arith, omega arith)

  -- Bytes decode to an object exactly if they are what the encoding of that object writes: an
  -- object has one encoding, and nothing else is accepted.
  pub decode_object_iff :
      (bytes : Bytes) (object : OperationObject ids)
      → IsBytes bytes
      → (decode_object ids sha json bytes ≡ ok object)
        ↔ (encode_object ids sha json object ≡ ok bytes)
  decode_object_iff bytes object b = (
    encode_object-decode_object bytes object b,
    decode_object-encode_object ids sha json object bytes,
  )
