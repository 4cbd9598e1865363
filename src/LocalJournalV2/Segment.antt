-- ===== src/LocalJournalV2/Segment.antt =====
-- A version 2 segment and its frontier file, as the bytes they hold, and the checked scan.
use tine_storage.Base.{
  ℕ, zero, suc, ◌+◌, ◌-◌, ◌||◌, ◌&&◌, Bool, false, not, Option, none, some, ◌++◌, Bytes, length,
  take, drop, slice, replicate, ltb, ◌==◌, bytes_eq, if◌then◌else◌, checked_add, ok_or,
  from_be_bytes, Result, ok, stuck, ◌>>=◌, ◌>>◌, refuse_if, map_err,
}
use tine_storage.ContentDigest.{Sha256, of}
use tine_storage.Postcard.{Postcard}
use tine_storage.LocalJournal.Errors.{LocalJournalError, declared_length, shown, message}
use tine_storage.LocalJournal.Errors.LocalJournalError.{
  segment_too_large, corrupt_segment, segment_device_mismatch, segment_sequence_gap,
  sequence_exhausted, frame_too_large,
}
use tine_storage.LocalJournal.Frame.{
  FrameHeader, Frame, min_frame_bytes, max_frame_bytes, frame_prefix_bytes, frame_magic, total_len,
  decode_frame,
}
use tine_storage.LocalJournal.Reader.{max_segment_bytes, read_exact}
use tine_storage.LocalJournalV2.Frontier.{
  SegmentHeader, TerminalFrame, Frontier, segment_header_bytes,
}

-- `LocalJournalSegmentV2Selection`
pub record Selection : Type 0 where
  pub segment_name : Bytes
  pub frontier_name : Bytes
  pub segment_id : Bytes
  pub segment_name_digest : Bytes
  pub device_id : Bytes
  pub base_sequence : ℕ

-- `SegmentHeaderV2::for_selection`
unfoldable pub for_selection : Selection → SegmentHeader
for_selection selection = record {
  segment_id = selection.segment_id;
  segment_name_digest = selection.segment_name_digest;
  device_id = selection.device_id;
  base_sequence = selection.base_sequence;
}

-- The derived equality of `SegmentHeaderV2`.
unfoldable pub header_eq : SegmentHeader → SegmentHeader → Bool
header_eq x y =
    bytes_eq x.segment_id y.segment_id
    && bytes_eq x.segment_name_digest y.segment_name_digest
    && bytes_eq x.device_id y.device_id
    && x.base_sequence == y.base_sequence

-- The two files of a segment.
pub record Disk : Type 0 where
  pub segment : Bytes
  pub frontier : Bytes

-- `verify_regular_exact`, on the bytes that have been read.
unfoldable pub verify_regular_exact : Bytes → Bytes → Result LocalJournalError (Unit {0})
verify_regular_exact file expected = do
  refuse_if (not (length file == length expected))
      (corrupt_segment 0 (message "frontier is not canonical"))
  refuse_if (not (bytes_eq file expected))
      (corrupt_segment 0 (message "reopened frontier bytes differ from the published successor"))
  ok tt

-- `limit.checked_sub(offset)`
unfoldable pub checked_sub : ℕ → ℕ → Option ℕ
checked_sub x y = if ltb x y then none else some (x - y)

-- `PrefixScan`, with the `terminal_bytes` of the scan; `committed_extent` is its offset.
pub record PrefixScan (K : Type 0) : Type 0 where
  pub committed_extent : ℕ
  pub frames_recovered : ℕ
  pub next_sequence : ℕ
  pub last_frame : Option (Frame K)
  pub terminal_bytes : Option Bytes

unfoldable pub start_at : {K : Type 0} → ℕ → ℕ → PrefixScan K
start_at offset base_sequence = record {
  committed_extent = offset;
  frames_recovered = 0;
  next_sequence = base_sequence;
  last_frame = none;
  terminal_bytes = none;
}

module _ {K : Type 0} (sha : Sha256) (pc : Postcard (FrameHeader K)) where
  -- `read_complete_frame`, in its steps: the body, the declared length, the prefix.
  unfoldable pub complete_body :
      ℕ → Bytes → Bytes × Bytes → Result LocalJournalError (Frame K × Bytes)
  complete_body offset prefix (body, rest) =
      map_err (λ cause. corrupt_segment offset (shown cause)) (decode_frame sha pc (prefix ++ body))
      >>= λ frame. ok (frame, prefix ++ body)

  unfoldable pub complete_total :
      ℕ → ℕ → Bytes → Bytes → ℕ → Result LocalJournalError (Frame K × Bytes)
  complete_total offset remaining prefix rest total = do
    refuse_if (ltb max_frame_bytes total) (frame_too_large total)
    refuse_if (ltb remaining total) (corrupt_segment offset (declared_length total remaining))
    body ← read_exact (total - frame_prefix_bytes) rest
    complete_body offset prefix body

  unfoldable pub complete_prefix :
      ℕ → ℕ → Bytes × Bytes → Result LocalJournalError (Frame K × Bytes)
  complete_prefix offset remaining (prefix, rest) = do
    refuse_if (not (bytes_eq (take 8 prefix) frame_magic))
        (corrupt_segment offset (message "frame magic is invalid"))
    total ← total_len (from_be_bytes (slice 8 12 prefix)) (from_be_bytes (slice 12 20 prefix))
    complete_total offset remaining prefix rest total

  unfoldable pub read_complete_frame : Bytes → ℕ → ℕ → Result LocalJournalError (Frame K × Bytes)
  read_complete_frame file offset limit = do
    remaining ←
        ok_or (corrupt_segment offset (message "frame offset exceeds committed extent"))
          (checked_sub limit offset)
    refuse_if (ltb remaining min_frame_bytes)
        (corrupt_segment offset (message "committed frame is truncated"))
    prefix ← read_exact frame_prefix_bytes (drop offset file)
    complete_prefix offset remaining prefix

  -- What both scans do with the frame at their offset.
  unfoldable pub scan_next :
      Bytes → PrefixScan K → Frame K × Bytes → Result LocalJournalError (PrefixScan K)
  scan_next device_id scan (frame, bytes) = do
    refuse_if (not (bytes_eq frame.device_id device_id))
        (segment_device_mismatch scan.committed_extent device_id frame.device_id)
    refuse_if (not (frame.sequence == scan.next_sequence))
        (segment_sequence_gap scan.committed_extent scan.next_sequence frame.sequence)
    next_sequence ← ok_or sequence_exhausted (checked_add scan.next_sequence 1)
    ok (record {
      committed_extent = scan.committed_extent + length bytes;
      frames_recovered = scan.frames_recovered + 1;
      next_sequence = next_sequence;
      last_frame = some frame;
      terminal_bytes = some bytes;
    })

  -- The body of the loop of `scan_v2_prefix`.
  unfoldable pub prefix_round :
      Bytes → Frontier → PrefixScan K → Result LocalJournalError (PrefixScan K)
  prefix_round file frontier scan = do
    read ← read_complete_frame file scan.committed_extent frontier.committed_extent
    next ← scan_next frontier.header.device_id scan read
    refuse_if (ltb frontier.committed_extent next.committed_extent)
        (corrupt_segment scan.committed_extent (message "frame crosses the committed frontier"))
    ok next

  unfoldable pub prefix_loop :
      ℕ → Bytes → Frontier → PrefixScan K → Result LocalJournalError (PrefixScan K)
  prefix_loop zero file frontier scan = stuck
  prefix_loop (suc fuel) file frontier scan =
      if ltb scan.committed_extent frontier.committed_extent
      then (prefix_round file frontier scan >>= prefix_loop fuel file frontier)
      else ok scan

  -- The match on the terminal metadata.
  unfoldable pub terminal_matches :
      Frontier → Option TerminalFrame → Option Bytes → Option (Frame K) → Bool
  terminal_matches frontier none none none =
      frontier.committed_extent == segment_header_bytes
      && frontier.next_sequence == frontier.header.base_sequence
      && bytes_eq frontier.predecessor_digest (replicate 32 0)
  terminal_matches frontier (some expected) (some bytes) (some frame) =
      expected.sequence == frame.sequence
      && expected.encoded_len == length bytes
      && bytes_eq expected.frame_digest (of sha bytes)
      && not (bytes_eq frontier.predecessor_digest (replicate 32 0))
  terminal_matches frontier terminal terminal_bytes last_frame = false

  -- `scan_v2_prefix`: a round consumes at least one byte, so the fuel covers the file.
  unfoldable pub check_prefix : Frontier → PrefixScan K → Result LocalJournalError (PrefixScan K)
  check_prefix frontier scan = do
    refuse_if
        (not (scan.committed_extent == frontier.committed_extent)
          || not (scan.next_sequence == frontier.next_sequence))
        (corrupt_segment scan.committed_extent
          (message "frontier extent or next sequence does not match its frames"))
    refuse_if
        (not (terminal_matches frontier frontier.terminal scan.terminal_bytes scan.last_frame))
        (corrupt_segment scan.committed_extent
          (message "frontier terminal metadata does not match the segment"))
    ok scan

  unfoldable pub scan_v2_prefix : Bytes → Frontier → Result LocalJournalError (PrefixScan K)
  scan_v2_prefix file frontier = do
    refuse_if (ltb max_segment_bytes (length file)) (segment_too_large (length file))
    refuse_if
        (ltb frontier.committed_extent segment_header_bytes
          || ltb max_segment_bytes frontier.committed_extent
          || ltb (length file) frontier.committed_extent)
        (corrupt_segment 0 (message "frontier committed extent is outside the segment"))
    scan ←
        prefix_loop (suc (length file)) file frontier
          (start_at segment_header_bytes frontier.header.base_sequence)
    check_prefix frontier scan
