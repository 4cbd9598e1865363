-- ===== src/LocalJournalV2/Frontier.antt =====
-- The fixed-size header of a version 2 segment and its frontier, as bytes.
pub mod RoundTrip
pub mod FrontierRoundTrip
use tine_storage.Base.{
  ℕ, ◌+◌, ◌-◌, ◌*◌, ◌^◌, Bool, not, ◌||◌, Option, none, some, List, [], ◌∷◌, ◌++◌, String, Bytes,
  length, take, drop, slice, replicate, get_or, ltb, ◌==◌, if◌then◌else◌, bytes_eq, any_nonzero,
  to_be_bytes, from_be_bytes, checked_add, saturating_add, ok_or, Result, ok, err, ◌>>=◌, ◌>>◌,
  refuse_if,
}
use tine_storage.ContentDigest.{Sha256, of}
use tine_storage.LocalJournal.Errors.{LocalJournalError, message}
use tine_storage.LocalJournal.Errors.LocalJournalError.{
  corrupt_segment, sequence_exhausted, segment_too_large,
}
use tine_storage.LocalJournal.Reader.{max_segment_bytes}

abbrev pub segment_protocol_version : ℕ
segment_protocol_version = 2

-- `b"TINEJNL2"` and `b"TINEFRT2"`
abbrev pub segment_magic : Bytes
segment_magic = b'T' ∷ b'I' ∷ b'N' ∷ b'E' ∷ b'J' ∷ b'N' ∷ b'L' ∷ b'2' ∷ []

abbrev pub frontier_magic : Bytes
frontier_magic = b'T' ∷ b'I' ∷ b'N' ∷ b'E' ∷ b'F' ∷ b'R' ∷ b'T' ∷ b'2' ∷ []

abbrev pub segment_header_bytes : ℕ
segment_header_bytes = 136

abbrev pub frontier_bytes : ℕ
frontier_bytes = 240

abbrev pub header_checksum_offset : ℕ
header_checksum_offset = 104

abbrev pub frontier_checksum_offset : ℕ
frontier_checksum_offset = 208

-- `corrupt(0, cause)`, as a guard.
abbrev pub corrupt_if : Bool → String → Result LocalJournalError (Unit {0})
corrupt_if refused cause = refuse_if refused (corrupt_segment 0 (message cause))

-- `SegmentHeaderV2`
pub record SegmentHeader : Type 0 where
  pub segment_id : Bytes
  pub segment_name_digest : Bytes
  pub device_id : Bytes
  pub base_sequence : ℕ

-- The four fields that header and frontier share, in front of `rest`.
unfoldable pub identity_fields : SegmentHeader → Bytes → Bytes
identity_fields header rest =
    header.segment_id
    ++ (header.segment_name_digest
        ++ (header.device_id ++ (to_be_bytes 8 header.base_sequence ++ rest)))

-- The array that `SegmentHeaderV2::encode` fills, up to its checksum.
unfoldable pub header_body : SegmentHeader → Bytes
unfolding identity_fields
header_body header =
    segment_magic
    ++ (to_be_bytes 4 segment_protocol_version
        ++ (replicate 4 0 ++ identity_fields header (replicate 16 0)))

unfoldable pub encode_header : Sha256 → SegmentHeader → Bytes
encode_header sha header = header_body header ++ of sha (header_body header)

-- The fields at 16..88, which `decode` reads in the header and in the frontier.
unfoldable pub read_identity : Bytes → SegmentHeader
read_identity bytes = record {
  segment_id = slice 16 32 bytes;
  segment_name_digest = slice 32 64 bytes;
  device_id = slice 64 80 bytes;
  base_sequence = from_be_bytes (slice 80 88 bytes);
}

-- `SegmentHeaderV2::decode`
unfoldable pub decode_header : Sha256 → Bytes → Result LocalJournalError SegmentHeader
decode_header sha bytes = do
  corrupt_if (not (length bytes == segment_header_bytes)) "segment header has a noncanonical length"
  corrupt_if (not (bytes_eq (take 8 bytes) segment_magic)) "segment header magic is invalid"
  corrupt_if (not (from_be_bytes (slice 8 12 bytes) == segment_protocol_version))
      "segment protocol version is unsupported"
  corrupt_if
      (any_nonzero (slice 12 16 bytes) || any_nonzero (slice 88 header_checksum_offset bytes))
      "segment header reserved bytes are nonzero"
  corrupt_if
      (not
        (bytes_eq (drop header_checksum_offset bytes) (of sha (take header_checksum_offset bytes))))
      "segment header checksum mismatch"
  ok (read_identity bytes)

pub record TerminalFrame : Type 0 where
  pub sequence : ℕ
  pub encoded_len : ℕ
  pub frame_digest : Bytes

-- `FrontierV2`
pub record Frontier : Type 0 where
  pub header : SegmentHeader
  pub next_sequence : ℕ
  pub committed_extent : ℕ
  pub terminal : Option TerminalFrame
  pub predecessor_digest : Bytes

-- `FrontierV2::initial`
unfoldable pub initial : SegmentHeader → Frontier
initial header = record {
  header = header;
  next_sequence = header.base_sequence;
  committed_extent = segment_header_bytes;
  terminal = none;
  predecessor_digest = replicate 32 0;
}

-- The fields at 104..160.
unfoldable pub terminal_fields : Option TerminalFrame → Bytes → Bytes
terminal_fields none rest = replicate 1 0 ++ (replicate 7 0 ++ (replicate 48 0 ++ rest))
terminal_fields (some terminal) rest =
    (1 ∷ [])
    ++ (replicate 7 0
        ++ ((to_be_bytes 8 terminal.sequence
              ++ (to_be_bytes 8 terminal.encoded_len ++ terminal.frame_digest))
            ++ rest))

-- The array that `FrontierV2::encode` fills, up to its checksum.
unfoldable pub frontier_body : Frontier → Bytes
unfolding identity_fields terminal_fields
frontier_body frontier =
    frontier_magic
    ++ (to_be_bytes 4 segment_protocol_version
        ++ (replicate 4 0
            ++ identity_fields frontier.header (
                to_be_bytes 8 frontier.next_sequence
                ++ (to_be_bytes 8 frontier.committed_extent
                    ++ terminal_fields frontier.terminal
                        (frontier.predecessor_digest ++ replicate 16 0)))))

unfoldable pub encode_frontier : Sha256 → Frontier → Bytes
encode_frontier sha frontier = frontier_body frontier ++ of sha (frontier_body frontier)

-- The match on `bytes[104]`.
unfoldable pub read_terminal : Bytes → Result LocalJournalError (Option TerminalFrame)
read_terminal bytes =
    let tag = get_or (drop 104 bytes) 0 0 in
    if tag == 0
    then (do
      corrupt_if (any_nonzero (slice 112 160 bytes)) "empty frontier has terminal frame fields"
      ok none)
    else if tag == 1
    then ok (
        some (record {
          sequence = from_be_bytes (slice 112 120 bytes);
          encoded_len = from_be_bytes (slice 120 128 bytes);
          frame_digest = slice 128 160 bytes;
        }))
    else err (corrupt_segment 0 (message "frontier terminal tag is invalid"))

-- `FrontierV2::decode`
unfoldable pub decode_frontier : Sha256 → Bytes → Result LocalJournalError Frontier
decode_frontier sha bytes = do
  corrupt_if (not (length bytes == frontier_bytes)) "frontier has a noncanonical length"
  corrupt_if (not (bytes_eq (take 8 bytes) frontier_magic)) "frontier magic is invalid"
  corrupt_if (not (from_be_bytes (slice 8 12 bytes) == segment_protocol_version))
      "frontier protocol version is unsupported"
  corrupt_if
      (any_nonzero (slice 12 16 bytes)
        || any_nonzero (slice 105 112 bytes)
        || any_nonzero (slice 192 frontier_checksum_offset bytes))
      "frontier reserved bytes are nonzero"
  corrupt_if
      (not (
        bytes_eq (drop frontier_checksum_offset bytes)
          (of sha (take frontier_checksum_offset bytes))))
      "frontier checksum mismatch"
  terminal ← read_terminal bytes
  ok (record {
    header = read_identity bytes;
    next_sequence = from_be_bytes (slice 88 96 bytes);
    committed_extent = from_be_bytes (slice 96 104 bytes);
    terminal = terminal;
    predecessor_digest = slice 160 192 bytes;
  })

-- `FrontierV2::successor`
unfoldable pub successor : Sha256 → Frontier → Bytes → Result LocalJournalError Frontier
successor sha frontier frame = do
  next_sequence ← ok_or sequence_exhausted (checked_add frontier.next_sequence 1)
  let committed_extent = frontier.committed_extent + length frame
  refuse_if (not (ltb committed_extent (2 ^ 64)) || ltb max_segment_bytes committed_extent)
      (segment_too_large (saturating_add frontier.committed_extent (length frame)))
  ok (record {
    header = frontier.header;
    next_sequence = next_sequence;
    committed_extent = committed_extent;
    terminal = some (record {
      sequence = frontier.next_sequence;
      encoded_len = length frame;
      frame_digest = of sha frame;
    });
    predecessor_digest = of sha (encode_frontier sha frontier);
  })
