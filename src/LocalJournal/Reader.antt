-- ===== src/LocalJournal/Reader.antt =====
-- The reading of a version 1 segment: frame by frame, and the scan of its file. A reader is the
-- bytes that it has not consumed.
use tine_storage.Base.{
  ℕ, zero, suc, ◌+◌, ◌-◌, ◌*◌, not, Option, none, some, ◌++◌, Bytes, length, take, drop, ltb, ◌==◌,
  bytes_eq, if◌then◌else◌, checked_add, ok_or, Result, ok, err, stuck, ◌>>=◌, ◌>>◌, refuse_if,
  map_err,
}
use tine_storage.ContentDigest.{Sha256}
use tine_storage.Postcard.{Postcard}
use tine_storage.LocalJournal.Errors.{LocalJournalError, declared_length, shown}
use tine_storage.LocalJournal.Errors.LocalJournalError.{
  io, segment_too_large, corrupt_segment, segment_device_mismatch, segment_sequence_gap,
  sequence_exhausted,
}
use tine_storage.LocalJournal.Frame.{
  FrameHeader, Frame, FrameExtent, min_frame_bytes, frame_prefix_bytes, parse_extent, decode_frame,
}

abbrev pub max_segment_bytes : ℕ
max_segment_bytes = 4 * 1024 * 1024 * 1024

-- `reader.read_exact(&mut buffer)`: the bytes read, and the reader behind them.
unfoldable pub read_exact : ℕ → Bytes → Result LocalJournalError (Bytes × Bytes)
read_exact n reader =
    if ltb (length reader) n
    then err (io "failed to fill whole buffer")
    else ok (take n reader, drop n reader)

pub data FrameRead (K : Type 0) : Type 0 where
  complete : Frame K → ℕ → FrameRead K
  incomplete_byte_tail : FrameRead K

-- `SegmentScan`, without the length of the tail; `committed_bytes` is the offset of the loop.
pub record SegmentScan (K : Type 0) : Type 0 where
  pub committed_bytes : ℕ
  pub frames_recovered : ℕ
  pub next_sequence : ℕ
  pub last_frame : Option (Frame K)

module _ {K : Type 0} (sha : Sha256) (pc : Postcard (FrameHeader K)) where
  -- `read_frame_at`, in its steps: the body behind the prefix, the declared extent, the prefix.
  unfoldable pub read_body :
      Bytes → ℕ → ℕ → Bytes × Bytes → Result LocalJournalError (FrameRead K × Bytes)
  read_body prefix offset total (body, rest) =
      map_err (λ cause. corrupt_segment offset (shown cause)) (decode_frame sha pc (prefix ++ body))
      >>= λ frame. ok (complete frame total, rest)

  unfoldable pub read_extent :
      Bytes → Bytes → ℕ → ℕ → FrameExtent → Result LocalJournalError (FrameRead K × Bytes)
  read_extent prefix reader offset remaining extent =
      if ltb remaining extent.total
      then err (corrupt_segment offset (declared_length extent.total remaining))
      else (read_exact (extent.total - frame_prefix_bytes) reader
          >>= read_body prefix offset extent.total)

  unfoldable pub read_prefix :
      ℕ → ℕ → Bytes × Bytes → Result LocalJournalError (FrameRead K × Bytes)
  read_prefix offset remaining (prefix, reader) =
      map_err (λ cause. corrupt_segment offset (shown cause)) (parse_extent prefix)
      >>= read_extent prefix reader offset remaining

  unfoldable pub read_frame_at : Bytes → ℕ → ℕ → Result LocalJournalError (FrameRead K × Bytes)
  read_frame_at reader offset file_len =
      let remaining = file_len - offset in
      if ltb remaining min_frame_bytes
      then ok (incomplete_byte_tail, reader)
      else (read_exact frame_prefix_bytes reader >>= read_prefix offset remaining)

  -- The scan behind a complete frame: `frame` must be the next one of `device_id`.
  unfoldable pub scan_frame :
      Bytes → Frame K → ℕ → SegmentScan K → Result LocalJournalError (SegmentScan K)
  scan_frame device_id frame encoded_len scan = do
    refuse_if (not (bytes_eq frame.device_id device_id))
        (segment_device_mismatch scan.committed_bytes device_id frame.device_id)
    refuse_if (not (frame.sequence == scan.next_sequence))
        (segment_sequence_gap scan.committed_bytes scan.next_sequence frame.sequence)
    next_sequence ← ok_or sequence_exhausted (checked_add frame.sequence 1)
    ok (record {
      committed_bytes = scan.committed_bytes + encoded_len;
      frames_recovered = scan.frames_recovered + 1;
      next_sequence = next_sequence;
      last_frame = some frame;
    })

  -- The body of the scan's loop, with the rounds that follow as `again`.
  unfoldable pub scan_read :
      (Bytes → SegmentScan K → Result LocalJournalError (SegmentScan K))
      → Bytes
      → SegmentScan K
      → FrameRead K × Bytes
      → Result LocalJournalError (SegmentScan K)
  scan_read again device_id scan (complete frame encoded_len, rest) =
      scan_frame device_id frame encoded_len scan >>= again rest
  scan_read again device_id scan (incomplete_byte_tail, rest) = ok scan

  -- The `while` loop of `scan_segment`; the fuel bounds its rounds.
  unfoldable pub scan_loop :
      ℕ → Bytes → ℕ → Bytes → SegmentScan K → Result LocalJournalError (SegmentScan K)
  scan_loop zero device_id file_len reader scan = stuck
  scan_loop (suc fuel) device_id file_len reader scan =
      if ltb scan.committed_bytes file_len
      then (read_frame_at reader scan.committed_bytes file_len
          >>= scan_read (scan_loop fuel device_id file_len) device_id scan)
      else ok scan

  -- Each round but the last consumes a frame, so a round for each byte and one more are enough.
  unfoldable pub scan_segment : Bytes → Bytes → ℕ → Result LocalJournalError (SegmentScan K)
  scan_segment file device_id base_sequence = do
    refuse_if (ltb max_segment_bytes (length file)) (segment_too_large (length file))
    scan_loop (suc (length file)) device_id (length file) file (record {
      committed_bytes = 0;
      frames_recovered = 0;
      next_sequence = base_sequence;
      last_frame = none;
    })
