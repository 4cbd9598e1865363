-- ===== src/LocalJournalV2/Frontier/RoundTrip.antt =====
-- `SegmentHeaderV2::encode` and `decode`, one after the other, with what the frontier shares.
use tine_storage.Base.{
  ℕ, ◌+◌, ◌^◌, ◌<◌, ◌≡◌, refl, sym, ap, ◌∙◌, true, ◌++◌, Bytes, length, take, drop, slice,
  replicate, ◌==◌, ==_refl, bytes_eq_refl, any_nonzero-replicate, to_be_bytes, from_be_bytes,
  from-to_be32, from-to_be64, length-to_be_bytes, length-replicate, ok, arith, length-append,
  append_assoc, take-append_at, next_field,
}
use tine_storage.ContentDigest.{Sha256, of}
use tine_storage.LocalJournalV2.Frontier.{
  SegmentHeader, segment_magic, identity_fields, header_body, encode_header, read_identity,
  decode_header, segment_header_bytes, segment_protocol_version,
}

-- The sizes that the Rust types fix: 16-byte UUIDs, 32-byte digests, `u64` numbers.
pub record IsHeader (header : SegmentHeader) : Type 0 where
  pub segment_id_size : length header.segment_id ≡ 16
  pub digest_size : length header.segment_name_digest ≡ 32
  pub device_id_size : length header.device_id ≡ 16
  pub base_u64 : header.base_sequence < 2 ^ 64

-- Bytes whose fields from 16 on are the four of `header`, and then `rest`.
pub identity-read :
    (bytes rest : Bytes) (header : SegmentHeader)
    → IsHeader header
    → drop 16 bytes ≡ identity_fields header rest
    → (read_identity bytes ≡ header) × (drop 88 bytes ≡ rest)
unfolding identity_fields read_identity
identity-read bytes rest header w d =
    let (segment_id, d1) = next_field 16 16 32 bytes header.segment_id _ refl d w.segment_id_size in
    let (digest, d2) =
      next_field 32 32 64 bytes header.segment_name_digest _ refl d1 w.digest_size in
    let (device_id, d3) = next_field 64 16 80 bytes header.device_id _ refl d2 w.device_id_size in
    let (base, d4) =
      next_field 80 8 88 bytes (to_be_bytes 8 header.base_sequence) rest refl d3
        (length-to_be_bytes 8 header.base_sequence) in
    (rw (segment_id, digest, device_id, base, from-to_be64 header.base_sequence w.base_u64), d4)

pub identity_fields-append :
    (header : SegmentHeader) (rest more : Bytes)
    → identity_fields header rest ++ more ≡ identity_fields header (rest ++ more)
unfolding identity_fields
identity_fields-append header rest more = simp (append_assoc)

pub length-identity_fields :
    (header : SegmentHeader) (rest : Bytes)
    → IsHeader header
    → length (identity_fields header rest) ≡ 72 + length rest
unfolding identity_fields
length-identity_fields header rest w =
    let sizes : length (identity_fields header rest)
        ≡ length header.segment_id
          + (length header.segment_name_digest
              + (length header.device_id
                  + (length (to_be_bytes 8 header.base_sequence) + length rest))) =
      simp (length-append) in
    omega (
      arith,
      sizes,
      w.segment_id_size,
      w.digest_size,
      w.device_id_size,
      length-to_be_bytes 8 header.base_sequence,
    )

pub equal_passes : {a b : ℕ} → a ≡ b → (a == b) ≡ true
equal_passes {a} {b} e = rw e (==_refl b)

-- The first sixteen bytes: a magic, the protocol version and a reserved word.
pub front_read :
    (bytes magic rest : Bytes)
    → length magic ≡ 8
    → bytes ≡ magic ++ (to_be_bytes 4 2 ++ (replicate 4 0 ++ rest))
    → (take 8 bytes ≡ magic)
      × (slice 8 12 bytes ≡ to_be_bytes 4 2)
      × (slice 12 16 bytes ≡ replicate 4 0)
      × (drop 16 bytes ≡ rest)
front_read bytes magic rest m e =
    let (first, d1) = next_field 0 8 8 bytes magic _ refl e m in
    let (version, d2) =
      next_field 8 4 12 bytes (to_be_bytes 4 2) _ refl d1 (length-to_be_bytes 4 2) in
    let (reserved, d3) =
      next_field 12 4 16 bytes (replicate 4 0) rest refl d2 (length-replicate {A = ℕ} 4 0) in
    (first, version, reserved, d3)

-- The front of a header or frontier, followed by a checksum.
pub front-append :
    (magic rest more : Bytes)
    → (magic ++ (to_be_bytes 4 2 ++ (replicate 4 0 ++ rest))) ++ more
      ≡ magic ++ (to_be_bytes 4 2 ++ (replicate 4 0 ++ (rest ++ more)))
front-append magic rest more = simp (append_assoc)

pub length-front :
    (magic rest : Bytes)
    → length magic ≡ 8
    → length (magic ++ (to_be_bytes 4 2 ++ (replicate 4 0 ++ rest))) ≡ 16 + length rest
length-front magic rest m = omega (
  arith,
  m,
  length-append magic (to_be_bytes 4 2 ++ (replicate 4 0 ++ rest)),
  length-append (to_be_bytes 4 2) (replicate 4 0 ++ rest),
  length-append (replicate 4 0) rest,
  length-to_be_bytes 4 2,
  length-replicate {A = ℕ} 4 0,
)

length-header_body : (header : SegmentHeader) → IsHeader header → length (header_body header) ≡ 104
unfolding header_body
length-header_body header w =
    let rest : Bytes = identity_fields header (replicate 16 0) in
    omega (
      arith,
      length-front segment_magic rest refl,
      length-identity_fields header (replicate 16 0) w,
      length-replicate {A = ℕ} 16 0,
    )

header_body-append :
    (header : SegmentHeader) (more : Bytes)
    → header_body header ++ more
      ≡ segment_magic
        ++ (to_be_bytes 4 2 ++ (replicate 4 0 ++ identity_fields header (replicate 16 0 ++ more)))
unfolding header_body
header_body-append header more = rw (
  front-append segment_magic (identity_fields header (replicate 16 0)) more,
  identity_fields-append header (replicate 16 0) more,
)

pub version_passes :
    (bytes : Bytes)
    → slice 8 12 bytes ≡ to_be_bytes 4 2
    → (from_be_bytes (slice 8 12 bytes) == segment_protocol_version) ≡ true
version_passes bytes v = equal_passes (ap from_be_bytes v ∙ from-to_be32 2 (omega arith))

header_guards :
    (sha : Sha256) (bytes : Bytes) (header : SegmentHeader)
    → length bytes ≡ 136
    → take 8 bytes ≡ segment_magic
    → slice 8 12 bytes ≡ to_be_bytes 4 2
    → slice 12 16 bytes ≡ replicate 4 0
    → slice 88 104 bytes ≡ replicate 16 0
    → drop 104 bytes ≡ of sha (take 104 bytes)
    → read_identity bytes ≡ header
    → decode_header sha bytes ≡ ok header
unfolding decode_header
header_guards sha bytes header n m v z r c i =
    let size : (length bytes == segment_header_bytes) ≡ true = equal_passes n in
    rw (
      size,
      m,
      bytes_eq_refl segment_magic,
      version_passes bytes v,
      z,
      any_nonzero-replicate 4,
      r,
      any_nonzero-replicate 16,
      c,
      bytes_eq_refl (of sha (take 104 bytes)),
      i,
    )

-- A header of the sizes the source's types fix is read back from its own encoding.
pub decode_header-encode_header :
    (sha : Sha256) (header : SegmentHeader)
    → IsHeader header
    → decode_header sha (encode_header sha header) ≡ ok header
unfolding encode_header
decode_header-encode_header sha header w =
    let body : Bytes = header_body header in
    let checksum : Bytes = of sha body in
    let bytes : Bytes = body ++ checksum in
    let n = length-header_body header w in
    let size : length bytes ≡ 136 =
      omega (arith, length-append body checksum, n, sha.length-digest body) in
    let (m, v, z, d) = front_read bytes segment_magic _ refl (header_body-append header checksum) in
    let (i, d2) = identity-read bytes (replicate 16 0 ++ checksum) header w d in
    let (r, d3) =
      next_field 88 16 104 bytes (replicate 16 0) checksum refl d2
        (length-replicate {A = ℕ} 16 0) in
    let body_first : take 104 bytes ≡ body = take-append_at 104 body checksum n in
    header_guards sha bytes header size m v z r (d3 ∙ ap (of sha) (sym body_first)) i
