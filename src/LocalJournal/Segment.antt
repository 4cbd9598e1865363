-- ===== src/LocalJournal/Segment.antt =====
-- A version 1 segment: its open, the append and the replay. The file is the bytes it
-- holds, with the cursor of the handle.
pub mod Journal
pub mod Scan
pub mod Live
pub mod Crash
pub mod Open
pub mod Answers
use tine_storage.Base.{
  ℕ, zero, suc, ◌+◌, ◌-◌, ◌*◌, ◌^◌, ◌||◌, Bool, true, false, not, Option, none, some, List, [], ◌∷◌,
  ◌++◌, String, Bytes, length, take, drop, ltb, leb, ◌==◌, bytes_eq, if◌then◌else◌, checked_add,
  saturating_add, ok_or, Result, ok, err, stuck, ◌>>=◌, ◌>>◌, refuse_if, map_err,
}
use tine_storage.ContentDigest.{Sha256, of}
use tine_storage.Postcard.{Postcard}
use tine_storage.LocalJournal.Errors.{LocalJournalError, Cause, declared_length, shown, message}
use tine_storage.LocalJournal.Errors.LocalJournalError.{
  io, unsafe_segment_name, segment_already_open, segment_too_large, corrupt_segment,
  segment_device_mismatch, segment_sequence_gap, sequence_exhausted, segment_poisoned,
}
use tine_storage.LocalJournal.Frame.{
  FrameHeader, Frame, FrameExtent, min_frame_bytes, frame_prefix_bytes, parse_extent, decode_frame,
  encode_frame,
}
use tine_storage.LocalJournal.Reader.{
  max_segment_bytes, read_exact, FrameRead, complete, incomplete_byte_tail, SegmentScan, read_body,
  read_extent, read_prefix, read_frame_at, scan_frame, scan_read, scan_loop, scan_segment,
}

pub record Stats : Type 0 where
  pub frames_appended : ℕ
  pub bytes_appended : ℕ
  pub data_durability_syncs : ℕ
  pub directory_durability_syncs : ℕ
  pub recovery_truncations : ℕ

-- `LocalJournalSegment`, with the bytes and the cursor of its file.
pub record Segment : Type 0 where
  pub file : Bytes
  pub cursor : ℕ
  pub device_id : Bytes
  pub base_sequence : ℕ
  pub next_sequence : ℕ
  pub committed_bytes : ℕ
  pub poisoned : Bool
  pub stats : Stats

pub record Append : Type 0 where
  pub device_id : Bytes
  pub sequence : ℕ
  pub frame_bytes : ℕ
  pub payload_digest : Bytes
  pub data_durability_syncs : ℕ

-- What the file system answers to one append: success, a write that fails after some of the
-- bytes, or a failing `sync_data`.
pub data AppendOutcome : Type 0 where
  durable : AppendOutcome
  write_fails : ℕ → String → AppendOutcome
  sync_fails : String → AppendOutcome

-- What the file system answers to one open: success, or the failure of one of its calls.
pub data OpenOutcome : Type 0 where
  opens : OpenOutcome
  sync_dir_fails : String → OpenOutcome
  set_len_fails : String → OpenOutcome
  sync_data_fails : String → OpenOutcome

pub record FoundFile : Type 0 where
  pub contents : Bytes
  pub created : Bool
  pub locked_elsewhere : Bool
  pub is_file : Bool

-- `sync_dir_required(dir)?`, where this open has created the file.
unfoldable pub sync_created : OpenOutcome → Bool → Result LocalJournalError (Unit {0})
sync_created (sync_dir_fails error) true = err (io error)
sync_created outcome created = ok tt

unfoldable pub contains : ℕ → Bytes → Bool
contains c [] = false
contains c (x ∷ xs) = x == c || contains c xs

-- A name is the bytes of its text.
unfoldable pub require_safe_segment_name : Bytes → Result LocalJournalError (Unit {0})
unfolding contains
require_safe_segment_name name =
    refuse_if
      (bytes_eq name []
        || bytes_eq name (b'.' ∷ [])
        || bytes_eq name (b'.' ∷ b'.' ∷ [])
        || contains b'/' name
        || contains b'\\' name
        || contains 0 name)
      (unsafe_segment_name name)

-- `file.write_all(bytes)` at the cursor.
unfoldable pub write_at : ℕ → Bytes → Bytes → Bytes
write_at cursor bytes file = take cursor file ++ (bytes ++ drop (cursor + length bytes) file)

module _ {K : Type 0} (sha : Sha256) (pc : Postcard (FrameHeader K)) where
  -- The checks of `append` on the encoded frame: the frame, the grown length, the next sequence.
  unfoldable pub plan_growth : Segment → Bytes → Result LocalJournalError (Bytes × ℕ × ℕ)
  plan_growth segment bytes = do
    let grown = segment.committed_bytes + length bytes
    refuse_if (not (ltb grown (2 ^ 64)) || ltb max_segment_bytes grown)
        (segment_too_large (saturating_add segment.committed_bytes (length bytes)))
    next_sequence ← ok_or sequence_exhausted (checked_add segment.next_sequence 1)
    ok (bytes, grown, next_sequence)

  -- The part of `append` in front of the first write.
  unfoldable pub plan_append : Segment → K → Bytes → Result LocalJournalError (Bytes × ℕ × ℕ)
  plan_append segment payload_kind payload =
      if segment.poisoned
      then err segment_poisoned
      else (encode_frame sha pc segment.device_id segment.next_sequence payload_kind payload
          >>= plan_growth segment)

  unfoldable pub finish_append :
      AppendOutcome → Segment → Bytes → Bytes × ℕ × ℕ → Segment × Result LocalJournalError Append
  finish_append (write_fails written error) segment payload (bytes, grown, next_sequence) = (
    record segment {
      file = write_at segment.cursor (take written bytes) segment.file;
      poisoned = true;
    },
    err (io error),
  )
  finish_append (sync_fails error) segment payload (bytes, grown, next_sequence) = (
    record segment { file = write_at segment.cursor bytes segment.file; poisoned = true },
    err (io error),
  )
  finish_append durable segment payload (bytes, grown, next_sequence) = (
    record segment {
      file = write_at segment.cursor bytes segment.file;
      cursor = segment.cursor + length bytes;
      next_sequence = next_sequence;
      committed_bytes = grown;
      stats = record (segment.stats) {
        frames_appended = segment.stats.frames_appended + 1;
        bytes_appended = segment.stats.bytes_appended + length bytes;
        data_durability_syncs = segment.stats.data_durability_syncs + 1;
      };
    },
    ok (record {
      device_id = segment.device_id;
      sequence = segment.next_sequence;
      frame_bytes = length bytes;
      payload_digest = of sha payload;
      data_durability_syncs = 1;
    }),
  )

  unfoldable pub append :
      AppendOutcome → Segment → K → Bytes → Segment × Result LocalJournalError Append
  append outcome segment payload_kind payload = elim (plan_append segment payload_kind payload) [
    | ok plan ↦ finish_append outcome segment payload plan
    | err error ↦ (segment, err error)
    | stuck ↦ (segment, stuck)
  ]

  -- The `while` loop of `replay`, which hands each frame to `visit`: the frames it has visited.
  unfoldable pub replay_loop : ℕ → ℕ → Bytes → ℕ → Result LocalJournalError (List (Frame K))
  replay_loop zero committed_bytes reader offset = stuck
  replay_loop (suc fuel) committed_bytes reader offset =
      if ltb offset committed_bytes
      then (read_frame_at sha pc reader offset committed_bytes >>= λ (read, rest). elim read [
        | complete frame encoded_len ↦
            replay_loop fuel committed_bytes rest (offset + encoded_len) >>= λ frames.
            ok (frame ∷ frames)
        | incomplete_byte_tail ↦
            err (corrupt_segment offset (message "a committed frame is incomplete"))
      ])
      else ok []

  unfoldable pub replay : Segment → Result LocalJournalError (List (Frame K))
  replay segment = replay_loop (suc (length segment.file)) segment.committed_bytes segment.file 0

  -- The segment that `open_from_sequence` returns after its scan.
  unfoldable pub adopt : Bool → Bytes → Bytes → ℕ → SegmentScan K → Segment
  adopt created file device_id base_sequence scan =
      let truncated = ltb scan.committed_bytes (length file) in
      record {
        file = if truncated then take scan.committed_bytes file else file;
        cursor = scan.committed_bytes;
        device_id = device_id;
        base_sequence = base_sequence;
        next_sequence = scan.next_sequence;
        committed_bytes = scan.committed_bytes;
        poisoned = false;
        stats = record {
          frames_appended = 0;
          bytes_appended = 0;
          data_durability_syncs = if truncated then 1 else 0;
          directory_durability_syncs = if created then 1 else 0;
          recovery_truncations = if truncated then 1 else 0;
        };
      }

  -- The truncation of the discarded tail: the file that is left, and the segment with its scan.
  unfoldable pub truncate_tail :
      OpenOutcome
      → Bytes
      → Segment
      → SegmentScan K
      → Bytes × Result LocalJournalError (Segment × SegmentScan K × ℕ)
  truncate_tail outcome file segment scan =
      if ltb scan.committed_bytes (length file)
      then elim outcome [
        | set_len_fails error ↦ (file, err (io error))
        | sync_data_fails error ↦ (segment.file, err (io error))
        | _ ↦ (segment.file, ok (segment, scan, length file - scan.committed_bytes))
      ]
      else (segment.file, ok (segment, scan, length file - scan.committed_bytes))

  -- The part of `open_from_sequence` in front of the truncation. `found` is the file that
  -- `open_or_create_segment_file` has opened or created.
  unfoldable pub open_scan :
      OpenOutcome → FoundFile → Bytes → Bytes → ℕ → Result LocalJournalError (SegmentScan K)
  open_scan outcome found name device_id base_sequence = do
    require_safe_segment_name name
    refuse_if found.locked_elsewhere (segment_already_open name)
    refuse_if (not found.is_file) (unsafe_segment_name name)
    sync_created outcome found.created
    scan_segment sha pc found.contents device_id base_sequence

  unfoldable pub finish_open :
      OpenOutcome
      → FoundFile
      → Bytes
      → ℕ
      → Result LocalJournalError (SegmentScan K)
      → Bytes × Result LocalJournalError (Segment × SegmentScan K × ℕ)
  finish_open outcome found device_id base_sequence (ok scan) =
      truncate_tail outcome found.contents
        (adopt found.created found.contents device_id base_sequence scan) scan
  finish_open outcome found device_id base_sequence (err error) = (found.contents, err error)
  finish_open outcome found device_id base_sequence stuck = (found.contents, stuck)

  -- `open_from_sequence`: the file that is left, and what is returned.
  unfoldable pub open_from_sequence :
      OpenOutcome
      → FoundFile
      → Bytes
      → Bytes
      → ℕ
      → Bytes × Result LocalJournalError (Segment × SegmentScan K × ℕ)
  open_from_sequence outcome found name device_id base_sequence =
      finish_open outcome found device_id base_sequence
        (open_scan outcome found name device_id base_sequence)
