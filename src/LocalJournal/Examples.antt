-- ===== src/LocalJournal/Examples.antt =====
-- The theorems on frames and on version 1 segments at concrete inputs.
use tine_storage.Base.{
  ℕ, ◌+◌, ◌-◌, ◌*◌, ◌^◌, ◌≤◌, ◌<◌, ◌≡◌, ◌≢◌, refl, Bool, true, false, Option, none, some, List, [],
  ◌∷◌, ◌++◌, ◌⊎◌, inl, inr, String, Bytes, IsBytes, length, replicate, to_be_bytes, Result, ok, err,
  arith,
}
use tine_storage.ContentDigest.{of}
use tine_storage.LocalJournal.Errors.{declared_length}
use tine_storage.LocalJournal.Errors.LocalJournalError.{corrupt_segment, segment_poisoned}
use tine_storage.LocalJournal.Frame.{
  FrameExtent, Frame, decode_frame, encode_of, parse_extent, total_len, max_frame_bytes,
  max_frame_header_bytes, frame_body, min_frame_bytes,
}
use tine_storage.LocalJournal.Frame.Extent.{prefix_of, parse_extent_sound}
use tine_storage.LocalJournal.Frame.RoundTrip.{decode_frame-encode_frame, encode_of-decode_frame}
use tine_storage.LocalJournal.Reader.{SegmentScan, scan_segment, max_segment_bytes}
use tine_storage.LocalJournal.Segment.{
  Segment, AppendOutcome, durable, write_fails, sync_fails, FoundFile, OpenOutcome, opens, append,
  replay, open_from_sequence,
}
use tine_storage.LocalJournal.Segment.Scan.{
  scanned, start, Found, scan_segment_complete, scan_segment_sound,
}
use tine_storage.LocalJournal.Segment.Live.{IsLive, appended, append_durable, append_poisons}
use tine_storage.LocalJournal.Segment.Crash.{
  torn_append_recovers, torn_append_fails_closed, unsynced_append_recovers,
}
use tine_storage.LocalJournal.Segment.Open.{replay_live, open-IsLive}
use tine_storage.Base.{stuck}
use tine_storage.LocalJournal.Segment.Answers.{scan_segment_answers}
use tine_storage.Samples.{
  toy_sha, toy_codec, device, empty_segment, note, note_frame, note_of, encode_note, decode_note,
  note_frame-IsBytes, note_journal, plan_note, empty_segment-IsLive,
}

abbrev small_extent : FrameExtent
small_extent = record { header_len = 52; total = 106 }

parse_small : parse_extent (prefix_of 52 2) ≡ ok small_extent
unfolding parse_extent total_len tine_storage.Base.bytes_eq tine_storage.Base.from_be_bytes
    to_be_bytes
parse_small = refl

parse_extent_sound_example :
    (p : ℕ) × (prefix_of 52 2 ≡ prefix_of small_extent.header_len p)
    × (small_extent.total ≡ small_extent.header_len + p + 52)
    × (small_extent.header_len ≤ max_frame_header_bytes)
    × (small_extent.total ≤ max_frame_bytes)
unfolding to_be_bytes
parse_extent_sound_example =
    parse_extent_sound (prefix_of 52 2) small_extent refl (omega arith) parse_small

decode_frame-encode_frame_example : decode_frame toy_sha toy_codec note_frame ≡ ok note_of
decode_frame-encode_frame_example =
    decode_frame-encode_frame toy_sha toy_codec device 5 9 note note_frame encode_note

encode_of-decode_frame_example : encode_of toy_sha toy_codec note_of ≡ ok note_frame
encode_of-decode_frame_example =
    encode_of-decode_frame toy_sha toy_codec note_frame note_of note_frame-IsBytes decode_note

abbrev zeros : Bytes
zeros = replicate 3 0

small : length (note_frame ++ zeros) ≤ max_segment_bytes
unfolding frame_body to_be_bytes
small = omega arith

scan_segment_complete_example :
    scan_segment toy_sha toy_codec (note_frame ++ zeros) device 5
    ≡ ok (scanned (start 5) (note_of ∷ []) (length note_frame))
scan_segment_complete_example =
    scan_segment_complete toy_sha toy_codec device 5 (note_of ∷ []) note_frame zeros note_journal
      (omega arith) small (omega arith)

padded-IsBytes : IsBytes (note_frame ++ zeros)
unfolding frame_body to_be_bytes
padded-IsBytes = omega arith

padded_scan :
    scan_segment toy_sha toy_codec (note_frame ++ zeros) device 5
    ≡ ok (scanned (start 5) (note_of ∷ []) (length note_frame))
padded_scan =
    scan_segment_complete toy_sha toy_codec device 5 (note_of ∷ []) note_frame zeros note_journal
      (omega arith) small (omega arith)

scan_segment_sound_example :
    (length (note_frame ++ zeros) ≤ max_segment_bytes)
    × Found toy_sha toy_codec device
        (note_frame ++ zeros)
        (start 5)
        (scanned (start 5) (note_of ∷ []) (length note_frame))
scan_segment_sound_example =
    scan_segment_sound toy_sha toy_codec (note_frame ++ zeros) device 5
      (scanned (start 5) (note_of ∷ []) (length note_frame)) padded-IsBytes (omega arith)
      padded_scan

abbrev grown_segment : Segment
grown_segment = (append toy_sha toy_codec durable empty_segment 9 note).0

append_durable_example :
    IsLive toy_sha toy_codec grown_segment
      ([] ++ (appended toy_sha toy_codec empty_segment 9 note ∷ []))
    × ((append toy_sha toy_codec durable empty_segment 9 note).1
        ≡ ok (record {
          device_id = device;
          sequence = 5 + 0;
          frame_bytes = length note_frame;
          payload_digest = of toy_sha note;
          data_durability_syncs = 1;
        }))
append_durable_example =
    append_durable toy_sha toy_codec empty_segment [] 9 note note_frame 106 6 empty_segment-IsLive
      plan_note

sync_is_not_durable : sync_fails "EIO" ≢ durable
sync_is_not_durable h = cc

append_poisons_example :
    ((append toy_sha toy_codec (sync_fails "EIO") empty_segment 9 note).0.poisoned ≡ true)
    × ((later : AppendOutcome) (k : ℕ) (payload : Bytes)
        → append toy_sha toy_codec later
            (append toy_sha toy_codec (sync_fails "EIO") empty_segment 9 note).0
            k
            payload
          ≡ (
            (append toy_sha toy_codec (sync_fails "EIO") empty_segment 9 note).0,
            err segment_poisoned,
          ))
append_poisons_example =
    append_poisons toy_sha toy_codec (sync_fails "EIO") empty_segment 9 note (note_frame, 106, 6)
      sync_is_not_durable plan_note

torn_append_recovers_example :
    scan_segment toy_sha toy_codec
      (append toy_sha toy_codec (write_fails 30 "EIO") empty_segment 9 note).0.file
      device
      5
    ≡ ok (scanned (start 5) [] 0)
torn_append_recovers_example =
    torn_append_recovers toy_sha toy_codec empty_segment [] 9 note note_frame 106 6 30 "EIO"
      empty_segment-IsLive plan_note (omega arith)

note_size : 70 < length note_frame
unfolding frame_body to_be_bytes
note_size = omega arith

torn_append_fails_closed_example :
    scan_segment toy_sha toy_codec
      (append toy_sha toy_codec (write_fails 70 "EIO") empty_segment 9 note).0.file
      device
      5
    ≡ err (corrupt_segment 0 (declared_length (length note_frame) 70))
torn_append_fails_closed_example =
    torn_append_fails_closed toy_sha toy_codec empty_segment [] 9 note note_frame 106 6 70 "EIO"
      empty_segment-IsLive plan_note (omega arith) note_size

unsynced_append_recovers_example :
    scan_segment toy_sha toy_codec
      (append toy_sha toy_codec (sync_fails "EIO") empty_segment 9 note).0.file
      device
      5
    ≡ ok (
        scanned
          (start 5)
          ([] ++ (appended toy_sha toy_codec empty_segment 9 note ∷ []))
          (0 + length note_frame))
unsynced_append_recovers_example =
    unsynced_append_recovers toy_sha toy_codec empty_segment [] 9 note note_frame 106 6 "EIO"
      empty_segment-IsLive plan_note

grown-IsLive : IsLive toy_sha toy_codec grown_segment (note_of ∷ [])
grown-IsLive =
    (append_durable toy_sha toy_codec empty_segment [] 9 note note_frame 106 6 empty_segment-IsLive
      plan_note).0

replay_live_example : replay toy_sha toy_codec grown_segment ≡ ok (note_of ∷ [])
replay_live_example = replay_live toy_sha toy_codec grown_segment (note_of ∷ []) grown-IsLive

abbrev found_zeros : FoundFile
found_zeros = record { contents = zeros; created = false; locked_elsewhere = false; is_file = true }

abbrev journal_name : Bytes
journal_name = b'j' ∷ []

abbrev recovered : Segment
recovered = record empty_segment {
  stats = record {
    frames_appended = 0;
    bytes_appended = 0;
    data_durability_syncs = 1;
    directory_durability_syncs = 0;
    recovery_truncations = 1;
  };
}

open_zeros :
    open_from_sequence toy_sha toy_codec opens found_zeros journal_name device 5
    ≡ ([], ok (recovered, start 5, 3))
unfolding open_from_sequence tine_storage.LocalJournal.Segment.finish_open
    tine_storage.LocalJournal.Segment.open_scan
    tine_storage.LocalJournal.Segment.require_safe_segment_name tine_storage.Base.bytes_eq
    tine_storage.LocalJournal.Segment.sync_created scan_segment
    tine_storage.LocalJournal.Reader.scan_loop tine_storage.LocalJournal.Reader.read_frame_at
    tine_storage.LocalJournal.Reader.scan_read tine_storage.LocalJournal.Segment.truncate_tail
    tine_storage.LocalJournal.Segment.adopt
open_zeros = refl

open-IsLive_example :
    (frames : List (Frame ℕ)) × (tail : Bytes) × IsLive toy_sha toy_codec recovered frames
    × ([] ≡ recovered.file)
    × (zeros ≡ recovered.file ++ tail)
    × (length tail ≡ 3)
    × (3 < min_frame_bytes)
open-IsLive_example =
    open-IsLive toy_sha toy_codec opens found_zeros journal_name device 5 [] recovered (start 5) 3
      (omega arith) (omega arith) open_zeros

scan_segment_answers_example : scan_segment toy_sha toy_codec (note_frame ++ zeros) device 5 ≢ stuck
scan_segment_answers_example =
    scan_segment_answers toy_sha toy_codec (note_frame ++ zeros) device 5 padded-IsBytes
