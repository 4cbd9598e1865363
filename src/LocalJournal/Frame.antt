-- ===== src/LocalJournal/Frame.antt =====
-- One journal frame: magic, header length, payload length, header, payload and checksum. The codec
-- of the header is `postcard`'s; `usize` is the 64-bit one.
pub mod Extent
pub mod Layout
pub mod RoundTrip
use tine_storage.Base.{
  ℕ, ◌+◌, ◌-◌, ◌*◌, ◌^◌, ◌≡◌, Bool, not, List, [], ◌∷◌, ◌++◌, Bytes, length, take, drop, slice, ltb,
  ◌==◌, bytes_eq, to_be_bytes, from_be_bytes, checked_add, and_then, ok_or, Result, ok, err, ◌>>=◌,
  ◌>>◌, refuse_if, lift,
}
use tine_storage.ContentDigest.{Sha256, of}
use tine_storage.Postcard.{Postcard}
use tine_storage.LocalJournal.Errors.{LocalJournalError}
use tine_storage.LocalJournal.Errors.LocalJournalError.{
  encode, decode, invalid_frame_magic, length_overflow, frame_too_large, frame_header_too_large,
  truncated_frame, frame_length_mismatch, checksum_mismatch, non_canonical_frame_header,
  payload_digest_mismatch, unknown_frame_schema_version,
}

abbrev pub frame_schema_version : ℕ
frame_schema_version = 1

abbrev pub max_frame_bytes : ℕ
max_frame_bytes = 64 * 1024 * 1024

abbrev pub max_frame_header_bytes : ℕ
max_frame_header_bytes = 4 * 1024

-- `b"TINEJRN1"`
abbrev pub frame_magic : Bytes
frame_magic = b'T' ∷ b'I' ∷ b'N' ∷ b'E' ∷ b'J' ∷ b'R' ∷ b'N' ∷ b'1' ∷ []

abbrev pub frame_checksum_bytes : ℕ
frame_checksum_bytes = 32

abbrev pub frame_prefix_bytes : ℕ
frame_prefix_bytes = 20

abbrev pub min_frame_bytes : ℕ
min_frame_bytes = frame_prefix_bytes + frame_checksum_bytes

-- `LocalJournalFrameHeader`; a device is the 16 bytes of its UUID.
pub record FrameHeader (K : Type 0) : Type 0 where
  pub schema_version : ℕ
  pub device_id : Bytes
  pub sequence : ℕ
  pub payload_kind : K
  pub payload_digest : Bytes

-- `LocalJournalFrame`
pub record Frame (K : Type 0) : Type 0 where
  pub device_id : Bytes
  pub sequence : ℕ
  pub payload_kind : K
  pub payload : Bytes

pub record FrameExtent : Type 0 where
  pub header_len : ℕ
  pub total : ℕ

-- The chain of `checked_add` over the four parts of a frame.
unfoldable pub total_len : ℕ → ℕ → Result LocalJournalError ℕ
total_len header_len payload_len = ok_or length_overflow (
    and_then (and_then (checked_add frame_prefix_bytes header_len) (λ n. checked_add n payload_len))
      (λ n. checked_add n frame_checksum_bytes))

-- `FrameExtent::parse`
unfoldable pub parse_extent : Bytes → Result LocalJournalError FrameExtent
parse_extent prefix = do
  refuse_if (not (bytes_eq (take 8 prefix) frame_magic)) invalid_frame_magic
  let header_len = from_be_bytes (slice 8 12 prefix)
  refuse_if (ltb max_frame_header_bytes header_len) (frame_header_too_large header_len)
  let payload_len = from_be_bytes (slice 12 20 prefix)
  total ← total_len header_len payload_len
  refuse_if (ltb max_frame_bytes total) (frame_too_large total)
  ok (record { header_len = header_len; total = total })

module _ {K : Type 0} (sha : Sha256) (pc : Postcard (FrameHeader K)) where
  unfoldable pub header_of : Bytes → ℕ → K → Bytes → FrameHeader K
  header_of device_id sequence payload_kind payload = record {
    schema_version = frame_schema_version;
    device_id = device_id;
    sequence = sequence;
    payload_kind = payload_kind;
    payload_digest = of sha payload;
  }

-- Everything but the checksum.
unfoldable pub frame_body : Bytes → Bytes → Bytes
frame_body header_bytes payload =
    frame_magic
    ++ (to_be_bytes 4 (length header_bytes)
        ++ (to_be_bytes 8 (length payload) ++ (header_bytes ++ payload)))

module _ {K : Type 0} (sha : Sha256) (pc : Postcard (FrameHeader K)) where
  -- What `encode_frame` does with the encoded header.
  unfoldable pub seal_frame : Bytes → Bytes → Result LocalJournalError Bytes
  seal_frame header_bytes payload = do
    let header_len = length header_bytes
    refuse_if (ltb max_frame_header_bytes header_len) (frame_header_too_large header_len)
    refuse_if (not (ltb header_len (2 ^ 32))) (frame_header_too_large header_len)
    total ← total_len header_len (length payload)
    refuse_if (ltb max_frame_bytes total) (frame_too_large total)
    ok (frame_body header_bytes payload ++ of sha (frame_body header_bytes payload))

  unfoldable pub encode_frame : Bytes → ℕ → K → Bytes → Result LocalJournalError Bytes
  encode_frame device_id sequence payload_kind payload = do
    header_bytes ←
        lift encode (pc.to_allocvec (header_of sha pc device_id sequence payload_kind payload))
    seal_frame header_bytes payload

  -- `LocalJournalFrame::encode`
  abbrev pub encode_of : Frame K → Result LocalJournalError Bytes
  encode_of frame = encode_frame frame.device_id frame.sequence frame.payload_kind frame.payload

  -- `postcard::to_allocvec(&header)? != header_bytes`
  unfoldable pub require_canonical : FrameHeader K → Bytes → Result LocalJournalError (Unit {0})
  require_canonical header header_bytes = do
    canonical_header ← lift encode (pc.to_allocvec header)
    refuse_if (not (bytes_eq canonical_header header_bytes)) non_canonical_frame_header

  -- The checks on a header that `postcard` has read.
  unfoldable pub decode_body :
      Bytes → FrameExtent → FrameHeader K → Result LocalJournalError (Frame K)
  decode_body bytes extent header = do
    let header_end = frame_prefix_bytes + extent.header_len
    refuse_if (not (header.schema_version == frame_schema_version))
        (unknown_frame_schema_version frame_schema_version header.schema_version)
    require_canonical header (slice frame_prefix_bytes header_end bytes)
    let payload = slice header_end (extent.total - frame_checksum_bytes) bytes
    refuse_if (not (bytes_eq (of sha payload) header.payload_digest)) payload_digest_mismatch
    ok (record {
      device_id = header.device_id;
      sequence = header.sequence;
      payload_kind = header.payload_kind;
      payload = payload;
    })

  -- What `decode` does with the extent that the prefix declares.
  unfoldable pub decode_extent : Bytes → FrameExtent → Result LocalJournalError (Frame K)
  decode_extent bytes extent = do
    refuse_if (not (extent.total == length bytes))
        (frame_length_mismatch extent.total (length bytes))
    let body = extent.total - frame_checksum_bytes
    refuse_if (not (bytes_eq (drop body bytes) (of sha (take body bytes)))) checksum_mismatch
    let header_bytes = slice frame_prefix_bytes (frame_prefix_bytes + extent.header_len) bytes
    header ← lift decode (pc.from_bytes header_bytes)
    decode_body bytes extent header

  -- `LocalJournalFrame::decode`
  unfoldable pub decode_frame : Bytes → Result LocalJournalError (Frame K)
  decode_frame bytes = do
    refuse_if (ltb max_frame_bytes (length bytes)) (frame_too_large (length bytes))
    refuse_if (ltb (length bytes) min_frame_bytes) truncated_frame
    extent ← parse_extent (take frame_prefix_bytes bytes)
    decode_extent bytes extent
