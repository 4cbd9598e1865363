-- ===== src/Samples.antt =====
-- A concrete digest, codecs and a small segment, at which the tests and examples run.
use tine_storage.Base.{
  ℕ, ◌%◌, ◌≡◌, refl, ap, false, some, [], ◌∷◌, ◌++◌, ◌⊎◌, inl, inr, String, Bytes, IsBytes, length,
  take, drop, replicate, take-append, drop-append, to_be_bytes, ok, arith,
}
use tine_storage.ContentDigest.{Sha256}
use tine_storage.Postcard.{Postcard}
use tine_storage.LocalJournal.Frame.{
  FrameHeader, Frame, frame_body, encode_frame, decode_frame, seal_frame, header_of, total_len,
}
use tine_storage.LocalJournal.Segment.{Segment, plan_append, plan_growth}
use tine_storage.LocalJournal.Segment.Journal.{Journal}
use tine_storage.LocalJournal.Segment.Live.{IsLive}
use tine_storage.LocalJournalV2.Frontier.{SegmentHeader, Frontier, initial}
use tine_storage.LocalJournalV2.Frontier.RoundTrip.{IsHeader}
use tine_storage.LocalJournalV2.Frontier.FrontierRoundTrip.{IsFrontier, a_terminal}
use tine_storage.LocalJournalV2.Segment.{Selection, Disk}
use tine_storage.LocalJournalV2.Journal.{frontier_suffix, prepare, Journal as JournalV2}
use tine_storage.LocalJournal.Frame.RoundTrip.{decode_frame-encode_frame}

-- The length of the text modulo 256, and 31 bytes more.
abbrev pub toy_digest : Bytes → Bytes
toy_digest bytes = length bytes % 256 ∷ replicate 31 7

abbrev pub toy_sha : Sha256
toy_sha = record {
  digest = toy_digest;
  length-digest = λ bytes. refl;
  digest-IsBytes = λ bytes. omega arith;
}

-- A codec of headers: three numbers, the length of the device, the device and the digest.
abbrev pub write_header : FrameHeader ℕ → String ⊎ Bytes
write_header header = inr (
    header.schema_version
      ∷ header.sequence
      ∷ header.payload_kind
      ∷ length header.device_id
      ∷ header.device_id
    ++ header.payload_digest)

abbrev pub parse_header : Bytes → String ⊎ FrameHeader ℕ
parse_header (version ∷ sequence ∷ kind ∷ n ∷ rest) = inr (record {
  schema_version = version;
  device_id = take n rest;
  sequence = sequence;
  payload_kind = kind;
  payload_digest = drop n rest;
})
parse_header bytes = inl "unexpected end"

unfoldable pub bytes_of : String ⊎ Bytes → Bytes
bytes_of (inl e) = []
bytes_of (inr bytes) = bytes

pub parse_header-write_header :
    (header : FrameHeader ℕ) (bytes : Bytes)
    → write_header header ≡ inr bytes
    → parse_header bytes ≡ inr header
unfolding bytes_of
parse_header-write_header header bytes h =
    let written : header.schema_version
            ∷ header.sequence
            ∷ header.payload_kind
            ∷ length header.device_id
            ∷ header.device_id
          ++ header.payload_digest
        ≡ bytes =
      ap bytes_of h in
    rw
      (
        ← written,
        take-append header.device_id header.payload_digest,
        drop-append header.device_id header.payload_digest,
      )
      refl

abbrev pub toy_codec : Postcard (FrameHeader ℕ)
toy_codec = record {
  to_allocvec = write_header;
  from_bytes = parse_header;
  from_bytes-to_allocvec = parse_header-write_header;
}

abbrev pub device : Bytes
device = replicate 16 1

abbrev pub empty_segment : Segment
empty_segment = record {
  file = [];
  cursor = 0;
  device_id = device;
  base_sequence = 5;
  next_sequence = 5;
  committed_bytes = 0;
  poisoned = false;
  stats = record {
    frames_appended = 0;
    bytes_appended = 0;
    data_durability_syncs = 0;
    directory_durability_syncs = 0;
    recovery_truncations = 0;
  };
}

abbrev pub note : Bytes
note = b'h' ∷ b'i' ∷ []

abbrev pub note_header : Bytes
note_header = 1 ∷ 5 ∷ 9 ∷ 16 ∷ replicate 16 1 ++ toy_digest note

abbrev pub note_frame : Bytes
note_frame = frame_body note_header note ++ toy_digest (frame_body note_header note)

pub encode_note : encode_frame toy_sha toy_codec device 5 9 note ≡ ok note_frame
unfolding encode_frame seal_frame header_of total_len
encode_note = refl

abbrev pub note_of : Frame ℕ
note_of = record { device_id = device; sequence = 5; payload_kind = 9; payload = note }

pub decode_note : decode_frame toy_sha toy_codec note_frame ≡ ok note_of
decode_note = decode_frame-encode_frame toy_sha toy_codec device 5 9 note note_frame encode_note

pub note_frame-IsBytes : IsBytes note_frame
unfolding frame_body to_be_bytes
note_frame-IsBytes = omega arith

pub note_journal : Journal toy_sha toy_codec device 5 (note_of ∷ []) note_frame
unfolding frame_body to_be_bytes
note_journal = (note_frame, [], refl, encode_note, refl, refl, refl)

pub plan_note : plan_append toy_sha toy_codec empty_segment 9 note ≡ ok (note_frame, 106, 6)
unfolding plan_append plan_growth frame_body to_be_bytes
plan_note = rw encode_note refl

pub empty_segment-IsLive : IsLive toy_sha toy_codec empty_segment []
empty_segment-IsLive = record {
  journal = refl;
  at_end = refl;
  committed = refl;
  sequence = refl;
  usable = refl;
  bounded = omega arith;
  room = omega arith;
}

abbrev pub header_v2 : SegmentHeader
header_v2 = record {
  segment_id = replicate 16 2;
  segment_name_digest = replicate 32 3;
  device_id = device;
  base_sequence = 5;
}

pub header_v2-IsHeader : IsHeader header_v2
header_v2-IsHeader = record {
  segment_id_size = refl;
  digest_size = refl;
  device_id_size = refl;
  base_u64 = omega arith;
}

abbrev pub first_frontier : Frontier
first_frontier = record {
  header = header_v2;
  next_sequence = 6;
  committed_extent = 242;
  terminal =
      some (record { sequence = 5; encoded_len = 106; frame_digest = toy_digest note_frame });
  predecessor_digest = replicate 32 4;
}

pub first_frontier-IsFrontier : IsFrontier first_frontier
first_frontier-IsFrontier = record {
  header_fits = header_v2-IsHeader;
  next_u64 = omega arith;
  extent_u64 = omega arith;
  terminal_fits = a_terminal (omega arith) (omega arith) refl;
  predecessor_size = refl;
}

abbrev pub selection_v2 : Selection
selection_v2 = record {
  segment_name = b'j' ∷ [];
  frontier_name = (b'j' ∷ []) ++ frontier_suffix;
  segment_id = replicate 16 2;
  segment_name_digest = replicate 32 3;
  device_id = device;
  base_sequence = 5;
}

abbrev pub fresh_disk : Disk
fresh_disk = prepare toy_sha selection_v2

abbrev pub fresh_journal : JournalV2
fresh_journal = record {
  disk = fresh_disk;
  cursor = 136;
  selection = selection_v2;
  frontier = initial header_v2;
  poisoned = false;
  stats = record {
    frames_appended = 0;
    bytes_appended = 0;
    data_durability_syncs = 0;
    directory_durability_syncs = 0;
    recovery_truncations = 0;
  };
}
