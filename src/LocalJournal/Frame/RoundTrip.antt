-- ===== src/LocalJournal/Frame/RoundTrip.antt =====
-- `decode` reads back what `encode_frame` writes, and accepts nothing else.
use tine_storage.Base.{
  ℕ, ◌+◌, ◌-◌, ◌≤◌, ◌≡◌, refl, sym, ◌∙◌, ap, true, not, ◌++◌, Bytes, IsBytes, length, take, drop,
  slice, ==_refl, bytes_eq, bytes_eq_refl, bytes_eq_sound, ok, ◌>>=◌, >>=-eq-ok, refuse_if, arith,
  le→ltb, lift, lift-eq-ok, inr, append_assoc, All-take, length-slice, length-take,
  take-append-drop, take-slice,
}
use tine_storage.ContentDigest.{Sha256, of}
use tine_storage.Postcard.{Postcard}
use tine_storage.LocalJournal.Errors.LocalJournalError.{encode, decode, non_canonical_frame_header}
use tine_storage.LocalJournal.Frame.{
  max_frame_bytes, max_frame_header_bytes, min_frame_bytes, FrameHeader, Frame, FrameExtent,
  total_len, parse_extent, header_of, frame_body, encode_frame, encode_of, seal_frame, decode_frame,
  decode_body, decode_extent, require_canonical,
}
use tine_storage.LocalJournal.Frame.Layout.{
  frame_body-prefix, framed, length-framed, take-framed, header-framed, payload-framed, body-framed,
  checksum-framed,
}
use tine_storage.LocalJournal.Frame.Extent.{
  total_len-ok, prefix_of, parse_extent-prefix, parse_extent_sound,
}

module _ {K : Type 0} (sha : Sha256) (pc : Postcard (FrameHeader K)) where
  -- The guards of `seal_frame`, and what it writes.
  seal_frame-ok :
      (hb payload : Bytes)
      → length hb ≤ max_frame_header_bytes
      → length hb + length payload + 52 ≤ max_frame_bytes
      → seal_frame sha pc hb payload ≡ ok (frame_body hb payload ++ of sha (frame_body hb payload))
  unfolding seal_frame
  seal_frame-ok hb payload a b = ground (arith, total_len-ok (length hb) (length payload) b)

  seal_frame-guards :
      (hb payload bytes : Bytes)
      → seal_frame sha pc hb payload ≡ ok bytes
      → (length hb ≤ max_frame_header_bytes)
        × (length hb + length payload + 52 ≤ max_frame_bytes)
        × (bytes ≡ frame_body hb payload ++ of sha (frame_body hb payload))
  unfolding seal_frame total_len
  seal_frame-guards hb payload bytes h = ground arith

  -- What a successful `encode_frame` has written.
  encode_frame-parts :
      (d : Bytes) (s : ℕ) (k : K) (payload bytes : Bytes)
      → encode_frame sha pc d s k payload ≡ ok bytes
      → (hb : Bytes) × (pc.to_allocvec (header_of sha pc d s k payload) ≡ inr hb)
        × (length hb ≤ max_frame_header_bytes)
        × (length hb + length payload + 52 ≤ max_frame_bytes)
        × (bytes ≡ frame_body hb payload ++ of sha (frame_body hb payload))
  unfolding encode_frame
  encode_frame-parts d s k payload bytes h =
      let (hb, written, sealed) =
        >>=-eq-ok (lift encode (pc.to_allocvec (header_of sha pc d s k payload)))
          (λ hb. seal_frame sha pc hb payload) bytes h in
      let (small, bounded, e) = seal_frame-guards hb payload bytes sealed in
      (hb, lift-eq-ok encode _ hb written, small, bounded, e)

  -- The decoder on a frame of a header that `postcard` wrote.
  decode_framed :
      (hb payload cs : Bytes) (header : FrameHeader K)
      → length cs ≡ 32
      → cs ≡ of sha (frame_body hb payload)
      → length hb ≤ max_frame_header_bytes
      → length hb + length payload + 52 ≤ max_frame_bytes
      → pc.to_allocvec header ≡ inr hb
      → header.schema_version ≡ 1
      → header.payload_digest ≡ of sha payload
      → decode_frame sha pc (framed hb payload cs)
        ≡ ok (record {
          device_id = header.device_id;
          sequence = header.sequence;
          payload_kind = header.payload_kind;
          payload = payload;
        })
  unfolding decode_frame decode_extent decode_body require_canonical
  decode_framed hb payload cs header n sealed small bounded written version digest = rw (
    length-framed hb payload cs n,
    le→ltb max_frame_bytes (length hb + length payload + 52) bounded,
    le→ltb (length hb + length payload + 52) 52 (omega arith),
    take-framed hb payload cs n,
    parse_extent-prefix (length hb) (length payload) small bounded,
    ==_refl (length hb + length payload + 52),
    body-framed hb payload cs n,
    checksum-framed hb payload cs n,
    ← sealed,
    bytes_eq_refl cs,
    header-framed hb payload cs n,
    pc.from_bytes-to_allocvec header hb written,
    written,
    version,
    bytes_eq_refl hb,
    payload-framed hb payload cs n,
    ← digest,
    bytes_eq_refl header.payload_digest,
  )

  -- A frame that was encoded is decoded to itself.
  pub decode_frame-encode_frame :
      (d : Bytes) (s : ℕ) (k : K) (payload bytes : Bytes)
      → encode_frame sha pc d s k payload ≡ ok bytes
      → decode_frame sha pc bytes
        ≡ ok (record { device_id = d; sequence = s; payload_kind = k; payload = payload })
  unfolding framed header_of
  decode_frame-encode_frame d s k payload bytes h =
      let (hb, written, small, bounded, e) = encode_frame-parts d s k payload bytes h in
      rw e (
        decode_framed hb payload (of sha (frame_body hb payload)) (header_of sha pc d s k payload)
          (sha.length-digest (frame_body hb payload)) refl small bounded written refl refl)

  -- The guards of the decoder.
  decode_frame-guards :
      (bytes : Bytes) (f : Frame K)
      → decode_frame sha pc bytes ≡ ok f
      → (length bytes ≤ max_frame_bytes)
        × (min_frame_bytes ≤ length bytes)
        × ((parse_extent (take 20 bytes) >>= decode_extent sha pc bytes) ≡ ok f)
  unfolding decode_frame
  decode_frame-guards bytes f h = ground arith

  decode_extent-guards :
      (bytes : Bytes) (e : FrameExtent) (f : Frame K)
      → decode_extent sha pc bytes e ≡ ok f
      → (e.total ≡ length bytes)
        × (bytes_eq (drop (e.total - 32) bytes) (of sha (take (e.total - 32) bytes)) ≡ true)
        × ((lift decode (pc.from_bytes (slice 20 (20 + e.header_len) bytes))
              >>= decode_body sha pc bytes e)
            ≡ ok f)
  unfolding decode_extent
  decode_extent-guards bytes e f h = ground arith

  decode_body-guards :
      (bytes : Bytes) (e : FrameExtent) (header : FrameHeader K) (f : Frame K)
      → decode_body sha pc bytes e header ≡ ok f
      → (header.schema_version ≡ 1)
        × (require_canonical sha pc header (slice 20 (20 + e.header_len) bytes) ≡ ok tt)
        × (bytes_eq (of sha (slice (20 + e.header_len) (e.total - 32) bytes)) header.payload_digest
            ≡ true)
        × (f ≡ record {
          device_id = header.device_id;
          sequence = header.sequence;
          payload_kind = header.payload_kind;
          payload = slice (20 + e.header_len) (e.total - 32) bytes;
        })
  unfolding decode_body
  decode_body-guards bytes e header f h = ground arith

  require_canonical-ok :
      (header : FrameHeader K) (hb : Bytes)
      → require_canonical sha pc header hb ≡ ok tt
      → pc.to_allocvec header ≡ inr hb
  unfolding require_canonical
  require_canonical-ok header hb h =
      let (c, written, same) =
        >>=-eq-ok (lift encode (pc.to_allocvec header))
          (λ c. refuse_if (not (bytes_eq c hb)) non_canonical_frame_header) tt h in
      lift-eq-ok encode _ c written ∙ ap inr (bytes_eq_sound c hb (ground arith))

  -- The encoder on the fields of a header that describes the payload.
  encode_frame-header :
      (header : FrameHeader K) (hb payload : Bytes)
      → pc.to_allocvec header ≡ inr hb
      → header.schema_version ≡ 1
      → of sha payload ≡ header.payload_digest
      → encode_frame sha pc header.device_id header.sequence header.payload_kind payload
        ≡ seal_frame sha pc hb payload
  unfolding encode_frame header_of
  encode_frame-header header hb payload written version digest = rw (digest, ← version, written)

  -- Whatever bytes are decoded are the encoding of the frame that was read.
  pub encode_of-decode_frame :
      (bytes : Bytes) (f : Frame K)
      → IsBytes bytes
      → decode_frame sha pc bytes ≡ ok f
      → encode_of sha pc f ≡ ok bytes
  encode_of-decode_frame bytes f b h =
      let (large, small, h1) = decode_frame-guards bytes f h in
      let (e, parsed, h2) =
        >>=-eq-ok (parse_extent (take 20 bytes)) (decode_extent sha pc bytes) f h1 in
      let (total, checksum, h3) = decode_extent-guards bytes e f h2 in
      let (header, read, h4) =
        >>=-eq-ok (lift decode (pc.from_bytes (slice 20 (20 + e.header_len) bytes)))
          (decode_body sha pc bytes e) f h3 in
      let (version, canonical, digest, frame) = decode_body-guards bytes e header f h4 in
      let (p, prefix, extent, hsmall, bounded) =
        parse_extent_sound (take 20 bytes) e (omega (arith, length-take 20 bytes))
          (All-take _ 20 bytes b) parsed in
      let hb = slice 20 (20 + e.header_len) bytes in
      let payload = slice (20 + e.header_len) (e.total - 32) bytes in
      let lh : length hb ≡ e.header_len =
        omega (arith, length-slice 20 (20 + e.header_len) bytes (omega arith) (omega arith)) in
      let lp : length payload ≡ p = omega (
        arith,
        length-slice (20 + e.header_len) (e.total - 32) bytes (omega arith) (omega arith),
      ) in
      let written = require_canonical-ok header hb canonical in
      let body : take (e.total - 32) bytes ≡ frame_body hb payload = cc (
        take-slice (20 + e.header_len) (e.total - 32) bytes (omega arith),
        take-slice 20 (20 + e.header_len) bytes (omega arith),
        prefix,
        lh,
        lp,
        append_assoc (take 20 bytes) hb payload,
        frame_body-prefix hb payload,
      ) in
      let whole : bytes ≡ frame_body hb payload ++ of sha (frame_body hb payload) =
        cc (take-append-drop (e.total - 32) bytes, bytes_eq_sound _ _ checksum, body) in
      ap (λ g. encode_of sha pc g) frame
      ∙ encode_frame-header header hb payload written version (bytes_eq_sound _ _ digest)
      ∙ seal_frame-ok hb payload (omega arith) (omega arith)
      ∙ ap ok (sym whole)

  -- The prefix of an encoded frame declares its length, which is within the bounds.
  pub encode_of-extent :
      (f : Frame K) (bytes : Bytes)
      → encode_of sha pc f ≡ ok bytes
      → (h : ℕ) × (parse_extent (take 20 bytes)
          ≡ ok (record { header_len = h; total = length bytes }))
        × (min_frame_bytes ≤ length bytes)
        × (length bytes ≤ max_frame_bytes)
  unfolding framed
  encode_of-extent f bytes h =
      let (hb, written, small, bounded, e) =
        encode_frame-parts f.device_id f.sequence f.payload_kind f.payload bytes h in
      let cs = of sha (frame_body hb f.payload) in
      let n = sha.length-digest (frame_body hb f.payload) in
      let size : length bytes ≡ length hb + length f.payload + 52 =
        ap length e ∙ length-framed hb f.payload cs n in
      let front : take 20 bytes ≡ prefix_of (length hb) (length f.payload) =
        ap (take 20) e ∙ take-framed hb f.payload cs n in
      (
        length hb,
        rw (front, size) (parse_extent-prefix (length hb) (length f.payload) small bounded),
        omega arith,
        omega arith,
      )
