-- ===== src/LocalJournalV2/Journal.antt =====
-- `prepare`, `open_selected`, `append` and `replay` of a version 2 segment, and the inspection of
-- a version 1 segment. `Disk` holds both files of the segment.
pub mod Planning
pub mod Writing
pub mod Outcome
pub mod Reopen
use tine_storage.Base.{
  ℕ, zero, suc, ◌+◌, ◌-◌, ◌*◌, ◌^◌, ◌||◌, ◌&&◌, Bool, true, false, not, Option, none, some, List,
  [], ◌∷◌, ◌++◌, String, Bytes, length, take, drop, slice, replicate, ltb, leb, ◌==◌, bytes_eq,
  if◌then◌else◌, Result, ok, err, stuck, ◌>>=◌, ◌>>◌, refuse_if, map_err,
}
use tine_storage.ContentDigest.{Sha256, of}
use tine_storage.Postcard.{Postcard}
use tine_storage.LocalJournal.Errors.{LocalJournalError, Cause, declared_length, shown, message}
use tine_storage.LocalJournal.Errors.LocalJournalError.{
  io, segment_already_open, unsafe_segment_name, segment_too_large, corrupt_segment,
  segment_poisoned, ambiguous_legacy_suffix,
}
use tine_storage.LocalJournal.Frame.{FrameHeader, Frame, min_frame_bytes, encode_frame}
use tine_storage.LocalJournal.Reader.{max_segment_bytes}
use tine_storage.LocalJournal.Segment.{
  require_safe_segment_name, write_at, Stats, Append, OpenOutcome, set_len_fails, sync_data_fails,
}
use tine_storage.LocalJournalV2.Frontier.{
  SegmentHeader, Frontier, segment_header_bytes, frontier_bytes, decode_header, encode_header,
  initial, encode_frontier, decode_frontier, successor,
}
use tine_storage.LocalJournalV2.Writes.{Setting, files_of, disk_of, append_writes}
use tine_storage.LocalJournalV2.Segment.{
  Selection, for_selection, header_eq, Disk, PrefixScan, start_at, read_complete_frame, scan_next,
  scan_v2_prefix,
}

-- `LOCAL_JOURNAL_FRONTIER_SUFFIX`, ".frontier-v2"
abbrev pub frontier_suffix : Bytes
frontier_suffix =
    b'.' ∷ b'f' ∷ b'r' ∷ b'o' ∷ b'n' ∷ b't' ∷ b'i' ∷ b'e' ∷ b'r' ∷ b'-' ∷ b'v' ∷ b'2' ∷ []

-- `LocalJournalSegmentV2Selection::new`
unfoldable pub new_selection :
    Sha256 → Bytes → Bytes → Bytes → ℕ → Result LocalJournalError Selection
new_selection sha segment_name segment_id device_id base_sequence = do
  require_safe_segment_name segment_name
  require_safe_segment_name (segment_name ++ frontier_suffix)
  ok (record {
    segment_name = segment_name;
    frontier_name = segment_name ++ frontier_suffix;
    segment_id = segment_id;
    segment_name_digest = of sha segment_name;
    device_id = device_id;
    base_sequence = base_sequence;
  })

-- `LocalJournalSegmentV2`, with its files and the cursor of the segment's handle.
pub record Journal : Type 0 where
  pub disk : Disk
  pub cursor : ℕ
  pub selection : Selection
  pub frontier : Frontier
  pub poisoned : Bool
  pub stats : Stats

-- `LocalJournalAppendError`
pub data AppendError : Type 0 where
  definitely_not_appended : LocalJournalError → AppendError
  append_outcome_unknown : LocalJournalError → AppendError

-- `read_frontier_exact`, with the error of a file of another length.
unfoldable pub read_frontier_exact : Bytes → Result LocalJournalError Bytes
read_frontier_exact file = do
  refuse_if (not (length file == frontier_bytes))
      (corrupt_segment 0 (message "frontier is not canonical"))
  ok file

-- What `prepare` publishes where neither file exists.
unfoldable pub prepare : Sha256 → Selection → Disk
prepare sha selection = record {
  segment = encode_header sha (for_selection selection);
  frontier = encode_frontier sha (initial (for_selection selection));
}

-- `read_header`
unfoldable pub read_header : Sha256 → Bytes → Result LocalJournalError SegmentHeader
read_header sha file = do
  refuse_if (ltb (length file) segment_header_bytes)
      (corrupt_segment 0 (message "segment header is truncated"))
  decode_header sha (take segment_header_bytes file)

module _ {K : Type 0} (sha : Sha256) (pc : Postcard (FrameHeader K)) where
  -- The part of `open_selected` in front of the truncation, in its steps: the scan, the checks on
  -- the frontier and on the header.
  unfoldable pub check_scan : Bytes → Frontier → Result LocalJournalError (Frontier × PrefixScan K)
  check_scan file frontier = do scan ← scan_v2_prefix sha pc file frontier; ok (frontier, scan)

  unfoldable pub check_frontier :
      Bytes → SegmentHeader → Frontier → Result LocalJournalError (Frontier × PrefixScan K)
  check_frontier file header frontier = do
    refuse_if (not (header_eq frontier.header header))
        (corrupt_segment 0 (message "frontier does not bind the selected segment header"))
    check_scan file frontier

  unfoldable pub check_header :
      Selection → Disk → SegmentHeader → Result LocalJournalError (Frontier × PrefixScan K)
  check_header selection disk header = do
    refuse_if (not (header_eq header (for_selection selection)))
        (corrupt_segment 0 (message "segment header does not match the selected generation"))
    frontier ← read_frontier_exact disk.frontier >>= decode_frontier sha
    check_frontier disk.segment header frontier

  unfoldable pub check_selected :
      Selection → Bool → Bool → Disk → Result LocalJournalError (Frontier × PrefixScan K)
  check_selected selection locked_elsewhere is_file disk = do
    require_safe_segment_name selection.segment_name
    refuse_if locked_elsewhere (segment_already_open selection.segment_name)
    refuse_if (not is_file) (unsafe_segment_name selection.segment_name)
    header ← read_header sha disk.segment
    check_header selection disk header

  -- The journal that `open_selected` returns.
  unfoldable pub selected : Selection → Disk → Frontier → Journal
  selected selection disk frontier =
      let truncated = ltb frontier.committed_extent (length disk.segment) in
      record {
        disk = record disk {
          segment = if truncated then take frontier.committed_extent disk.segment else disk.segment;
        };
        cursor = frontier.committed_extent;
        selection = selection;
        frontier = frontier;
        poisoned = false;
        stats = record {
          frames_appended = 0;
          bytes_appended = 0;
          data_durability_syncs = if truncated then 1 else 0;
          directory_durability_syncs = 0;
          recovery_truncations = if truncated then 1 else 0;
        };
      }

  -- The truncation: the files it leaves, and the journal with its scan.
  unfoldable pub truncate_suffix :
      OpenOutcome
      → Selection
      → Disk
      → Frontier
      → PrefixScan K
      → Disk × Result LocalJournalError (Journal × PrefixScan K × ℕ)
  truncate_suffix outcome selection disk frontier scan =
      let journal = selected selection disk frontier in
      let recovery : Journal × PrefixScan K × ℕ =
        (journal, scan, length disk.segment - scan.committed_extent) in
      if ltb frontier.committed_extent (length disk.segment)
      then elim outcome [
        | set_len_fails error ↦ (disk, err (io error))
        | sync_data_fails error ↦ (journal.disk, err (io error))
        | _ ↦ (journal.disk, ok recovery)
      ]
      else (journal.disk, ok recovery)

  unfoldable pub finish_selected :
      OpenOutcome
      → Selection
      → Disk
      → Result LocalJournalError (Frontier × PrefixScan K)
      → Disk × Result LocalJournalError (Journal × PrefixScan K × ℕ)
  finish_selected outcome selection disk (ok (frontier, scan)) =
      truncate_suffix outcome selection disk frontier scan
  finish_selected outcome selection disk (err error) = (disk, err error)
  finish_selected outcome selection disk stuck = (disk, stuck)

  abbrev pub open_selected :
      OpenOutcome
      → Selection
      → Bool
      → Bool
      → Disk
      → Disk × Result LocalJournalError (Journal × PrefixScan K × ℕ)
  open_selected outcome selection locked_elsewhere is_file disk =
      finish_selected outcome selection disk
        (check_selected selection locked_elsewhere is_file disk)

  -- The part of `append` in front of the first write: the frame and the frontier behind it.
  unfoldable pub plan_append : Journal → K → Bytes → Result LocalJournalError (Bytes × Frontier)
  plan_append journal payload_kind payload =
      if journal.poisoned
      then err segment_poisoned
      else (encode_frame sha pc journal.selection.device_id journal.frontier.next_sequence
            payload_kind payload
          >>= λ bytes. successor sha journal.frontier bytes >>= λ next. ok (bytes, next))

  -- The end of `append`, on the files and the answers of its writes.
  unfoldable pub settle :
      Journal
      → Disk
      → Bytes
      → Bytes
      → Frontier
      → Result LocalJournalError (Unit {0})
      → Journal × Result AppendError Append
  settle journal disk payload bytes next (ok done) = (
    record journal {
      disk = disk;
      cursor = journal.cursor + length bytes;
      frontier = next;
      poisoned = false;
      stats = record (journal.stats) {
        frames_appended = journal.stats.frames_appended + 1;
        bytes_appended = journal.stats.bytes_appended + length bytes;
        data_durability_syncs = journal.stats.data_durability_syncs + 2;
        directory_durability_syncs = journal.stats.directory_durability_syncs + 1;
      };
    },
    ok (record {
      device_id = journal.selection.device_id;
      sequence = journal.frontier.next_sequence;
      frame_bytes = length bytes;
      payload_digest = of sha payload;
      data_durability_syncs = 2;
    }),
  )
  settle journal disk payload bytes next (err error) =
      (record journal { disk = disk; poisoned = true }, err (append_outcome_unknown error))
  settle journal disk payload bytes next stuck =
      (record journal { disk = disk; poisoned = true }, stuck)

  -- The writes of `append` on the files of the journal, and its end on what they leave.
  unfoldable pub write_frame :
      Setting → Journal → Bytes → Bytes → Frontier → Journal × Result AppendError Append
  write_frame setting journal payload bytes next =
      let run =
        append_writes setting journal.selection journal.cursor bytes (encode_frontier sha next)
          (record { files = files_of journal.selection journal.disk setting.others; calls = 0 }) in
      settle journal (disk_of journal.selection run.1.files) payload bytes next run.0

  unfoldable pub finish_append :
      Setting
      → Journal
      → Bytes
      → Result LocalJournalError (Bytes × Frontier)
      → Journal × Result AppendError Append
  finish_append setting journal payload (ok (bytes, next)) =
      write_frame setting journal payload bytes next
  finish_append setting journal payload (err error) = (journal, err (definitely_not_appended error))
  finish_append setting journal payload stuck = (journal, stuck)

  abbrev pub append : Setting → Journal → K → Bytes → Journal × Result AppendError Append
  append setting journal payload_kind payload =
      finish_append setting journal payload (plan_append journal payload_kind payload)

  -- The `while` loop of both `replay` functions, with the frames it has visited.
  unfoldable pub replay_loop : ℕ → Bytes → ℕ → ℕ → Result LocalJournalError (List (Frame K))
  replay_loop zero file extent offset = stuck
  replay_loop (suc fuel) file extent offset =
      if ltb offset extent
      then (read_complete_frame sha pc file offset extent >>= λ (frame, bytes).
          replay_loop fuel file extent (offset + length bytes) >>= λ frames. ok (frame ∷ frames))
      else ok []

  -- `replay`: the frames it visits, in order, with their number.
  unfoldable pub replay : Journal → Result LocalJournalError (List (Frame K) × ℕ)
  replay journal =
      replay_loop (suc (length journal.disk.segment)) journal.disk.segment
        journal.frontier.committed_extent segment_header_bytes
      >>= λ frames. ok (frames, length frames)
