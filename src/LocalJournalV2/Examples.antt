-- ===== src/LocalJournalV2/Examples.antt =====
-- The theorems on version 2 segments at concrete inputs.
use tine_storage.Base.{
  ℕ, ◌+◌, ◌-◌, ◌*◌, ◌^◌, ◌≤◌, ◌<◌, ◌≡◌, refl, Bool, true, false, Option, none, some, List, [], ◌∷◌,
  ◌++◌, String, Bytes, length, replicate, Result, ok, err, stuck, take, sym, ◌∙◌, length-append,
  take-append, arith, ◌≢◌, ap, ◌==◌, if◌then◌else◌, ◌>>=◌,
}
use tine_storage.LocalJournal.Errors.LocalJournalError.{io, segment_poisoned}
use tine_storage.LocalJournal.Segment.{opens}
use tine_storage.LocalJournalV2.Frontier.{
  Frontier, initial, encode_header, decode_header, encode_frontier, decode_frontier,
}
use tine_storage.LocalJournalV2.Frontier.RoundTrip.{decode_header-encode_header}
use tine_storage.LocalJournalV2.Frontier.FrontierRoundTrip.{decode_frontier-encode_frontier}
use tine_storage.LocalJournalV2.Segment.{PrefixScan, start_at, scan_v2_prefix}
use tine_storage.LocalJournalV2.Writes.{
  Setting, append_writes, write_segment_for_append, publish_frontier_durable, verify_frontier,
  frontier_temp_name,
}
use tine_storage.Files.{absent}
use tine_storage.LocalJournalV2.Suffix.{scan_v2_prefix-agree}
use tine_storage.LocalJournalV2.Answers.{scan_v2_prefix_answers}
use tine_storage.LocalJournal.Errors.{LocalJournalError}
use tine_storage.LocalJournalV2.Journal.{
  Journal, definitely_not_appended, append_outcome_unknown, plan_append, append, check_selected,
  open_selected, read_frontier_exact,
}
use tine_storage.LocalJournalV2.Journal.Outcome.{
  Leaves, append_definitely_not, append_is_atomic, append_unknown_is_final,
}
use tine_storage.LocalJournalV2.Journal.Reopen.{torn, reopened, torn_suffix_is_cut}
use tine_storage.Samples.{
  toy_sha, toy_codec, note, header_v2, header_v2-IsHeader, first_frontier,
  first_frontier-IsFrontier, selection_v2, fresh_disk, fresh_journal,
}

decode_header-encode_header_example :
    decode_header toy_sha (encode_header toy_sha header_v2) ≡ ok header_v2
decode_header-encode_header_example =
    decode_header-encode_header toy_sha header_v2 header_v2-IsHeader

decode_frontier-encode_frontier_example :
    decode_frontier toy_sha (encode_frontier toy_sha first_frontier) ≡ ok first_frontier
decode_frontier-encode_frontier_example =
    decode_frontier-encode_frontier toy_sha first_frontier first_frontier-IsFrontier

-- The operating system refuses the call with this number, and a write there stops at 70 bytes.
abbrev refusing : ℕ → Setting
refusing call = record {
  os = record { refuses = λ n. if n == call then some 5 else none; torn = λ n. 70 };
  uuid = 7 ∷ [];
  text = λ e. "EIO";
  others = λ path. absent;
}

abbrev poisoned_journal : Journal
poisoned_journal = record fresh_journal { poisoned = true }

refused :
    (append toy_sha toy_codec (refusing 9) poisoned_journal 9 note).1
    ≡ err (definitely_not_appended segment_poisoned)
unfolding tine_storage.LocalJournalV2.Journal.finish_append plan_append
refused = refl

append_definitely_not_example :
    (append toy_sha toy_codec (refusing 9) poisoned_journal 9 note).0 ≡ poisoned_journal
append_definitely_not_example =
    append_definitely_not toy_sha toy_codec (refusing 9) poisoned_journal 9 note segment_poisoned
      refused

torn_write :
    (append toy_sha toy_codec (refusing 0) fresh_journal 9 note).1
    ≡ err (append_outcome_unknown (io "EIO"))
unfolding tine_storage.LocalJournalV2.Journal.finish_append plan_append
    tine_storage.LocalJournal.Frame.encode_frame tine_storage.LocalJournal.Frame.seal_frame
    tine_storage.LocalJournal.Frame.header_of tine_storage.LocalJournal.Frame.total_len
    tine_storage.LocalJournalV2.Frontier.successor initial
    tine_storage.LocalJournal.Frame.frame_body tine_storage.Base.to_be_bytes
    tine_storage.LocalJournalV2.Journal.write_frame tine_storage.LocalJournalV2.Journal.settle
    tine_storage.LocalJournalV2.Writes.append_writes
    tine_storage.LocalJournalV2.Writes.write_segment_for_append
torn_write = refl

append_unknown_is_final_example :
    append toy_sha toy_codec
      (refusing 9)
      (append toy_sha toy_codec (refusing 0) fresh_journal 9 note).0
      8
      note
    ≡ (
      (append toy_sha toy_codec (refusing 0) fresh_journal 9 note).0,
      err (definitely_not_appended segment_poisoned),
    )
append_unknown_is_final_example =
    append_unknown_is_final toy_sha toy_codec (refusing 0) (refusing 9) fresh_journal 9 8 note note
      (io "EIO") torn_write

fresh_size : 136 ≤ length fresh_disk.segment
unfolding tine_storage.LocalJournalV2.Journal.prepare
    tine_storage.LocalJournalV2.Frontier.encode_header
    tine_storage.LocalJournalV2.Frontier.header_body
    tine_storage.LocalJournalV2.Frontier.identity_fields
    tine_storage.LocalJournalV2.Segment.for_selection tine_storage.Base.to_be_bytes
fresh_size = omega arith

names_apart : selection_v2.segment_name ≢ selection_v2.frontier_name
names_apart e =
    let n : length selection_v2.segment_name ≡ length selection_v2.frontier_name = ap length e in
    omega (arith, n)

fresh_cursor : 136 ≡ fresh_journal.frontier.committed_extent
unfolding initial
fresh_cursor = refl

-- The synchronization of the directory behind the rename is refused.
append_is_atomic_example :
    Leaves toy_sha toy_codec fresh_journal
      (plan_append toy_sha toy_codec fresh_journal 9 note)
      (append toy_sha toy_codec (refusing 6) fresh_journal 9 note).1
      (append toy_sha toy_codec (refusing 6) fresh_journal 9 note).0.disk
append_is_atomic_example =
    append_is_atomic toy_sha toy_codec (refusing 6) fresh_journal 9 note names_apart fresh_cursor
      fresh_size

-- The journal after one append with no call refused.
abbrev one_frame : Journal
one_frame = (append toy_sha toy_codec (refusing 9) fresh_journal 9 note).0

abbrev frames_of : Result LocalJournalError (PrefixScan ℕ) → ℕ
frames_of (ok scan) = scan.frames_recovered
frames_of (err e) = 99
frames_of stuck = 98

one_frame_is_found :
    (frames_of (scan_v2_prefix toy_sha toy_codec one_frame.disk.segment one_frame.frontier) ≡ 1)
    × (one_frame.frontier.committed_extent ≡ length one_frame.disk.segment)
    × (length one_frame.disk.segment ≤ 1000)
unfolding append_writes write_segment_for_append publish_frontier_durable verify_frontier
    frontier_temp_name scan_v2_prefix plan_append initial
    tine_storage.LocalJournalV2.Journal.finish_append
    tine_storage.LocalJournalV2.Journal.write_frame tine_storage.LocalJournalV2.Journal.settle
    tine_storage.LocalJournalV2.Journal.prepare tine_storage.LocalJournal.Frame.encode_frame
    tine_storage.LocalJournal.Frame.seal_frame tine_storage.LocalJournal.Frame.header_of
    tine_storage.LocalJournal.Frame.total_len tine_storage.LocalJournal.Frame.frame_body
    tine_storage.LocalJournal.Frame.decode_frame tine_storage.LocalJournal.Frame.decode_extent
    tine_storage.LocalJournal.Frame.decode_body tine_storage.LocalJournal.Frame.parse_extent
    tine_storage.LocalJournal.Frame.require_canonical tine_storage.LocalJournal.Segment.write_at
    tine_storage.LocalJournal.Reader.read_exact tine_storage.LocalJournalV2.Frontier.successor
    tine_storage.LocalJournalV2.Frontier.encode_header
    tine_storage.LocalJournalV2.Frontier.header_body
    tine_storage.LocalJournalV2.Frontier.encode_frontier
    tine_storage.LocalJournalV2.Frontier.frontier_body
    tine_storage.LocalJournalV2.Frontier.identity_fields
    tine_storage.LocalJournalV2.Frontier.terminal_fields
    tine_storage.LocalJournalV2.Segment.for_selection
    tine_storage.LocalJournalV2.Segment.verify_regular_exact
    tine_storage.LocalJournalV2.Segment.prefix_loop tine_storage.LocalJournalV2.Segment.prefix_round
    tine_storage.LocalJournalV2.Segment.read_complete_frame
    tine_storage.LocalJournalV2.Segment.complete_prefix
    tine_storage.LocalJournalV2.Segment.complete_total
    tine_storage.LocalJournalV2.Segment.complete_body tine_storage.LocalJournalV2.Segment.scan_next
    tine_storage.LocalJournalV2.Segment.start_at tine_storage.LocalJournalV2.Segment.check_prefix
    tine_storage.LocalJournalV2.Segment.checked_sub
    tine_storage.LocalJournalV2.Segment.terminal_matches tine_storage.Base.to_be_bytes
    tine_storage.Base.from_be_bytes tine_storage.Base.bytes_eq tine_storage.Files.path_eq
    tine_storage.Files.create_new tine_storage.Files.write_all tine_storage.Files.sync_all
    tine_storage.Files.rename tine_storage.Files.sync_directory
one_frame_is_found = (refl, refl, omega arith)

one_frame_extent : one_frame.frontier.committed_extent ≡ length one_frame.disk.segment
one_frame_extent = one_frame_is_found.1

one_frame_size : length one_frame.disk.segment ≤ 1000
one_frame_size = omega (arith, one_frame_is_found.2)

scan_v2_prefix-agree_example :
    scan_v2_prefix toy_sha toy_codec (one_frame.disk.segment ++ note) one_frame.frontier
    ≡ scan_v2_prefix toy_sha toy_codec (one_frame.disk.segment ++ (8 ∷ [])) one_frame.frontier
scan_v2_prefix-agree_example =
    scan_v2_prefix-agree toy_sha toy_codec (one_frame.disk.segment ++ note)
      (one_frame.disk.segment ++ (8 ∷ [])) one_frame.frontier (inside note) (inside (8 ∷ []))
      (front note ∙ sym (front (8 ∷ []))) (fits note (omega arith)) (fits (8 ∷ []) (omega arith))
  where
    inside :
        (suffix : Bytes)
        → one_frame.frontier.committed_extent ≤ length (one_frame.disk.segment ++ suffix)
    inside suffix = omega (arith, one_frame_extent, length-append one_frame.disk.segment suffix)

    front :
        (suffix : Bytes)
        → take one_frame.frontier.committed_extent (one_frame.disk.segment ++ suffix)
          ≡ one_frame.disk.segment
    front suffix = rw one_frame_extent (take-append one_frame.disk.segment suffix)

    fits :
        (suffix : Bytes)
        → length suffix ≤ 100
        → length (one_frame.disk.segment ++ suffix) ≤ 4294967296
    fits suffix short =
        omega (arith, short, one_frame_size, length-append one_frame.disk.segment suffix)

scan_v2_prefix_answers_example :
    scan_v2_prefix toy_sha toy_codec one_frame.disk.segment one_frame.frontier ≢ stuck
scan_v2_prefix_answers_example =
    scan_v2_prefix_answers toy_sha toy_codec one_frame.disk.segment one_frame.frontier

fresh_opens :
    check_selected toy_sha toy_codec selection_v2 false true fresh_disk
    ≡ ok (initial header_v2, start_at 136 5)
unfolding check_selected tine_storage.LocalJournal.Segment.require_safe_segment_name
    tine_storage.LocalJournal.Segment.contains tine_storage.Base.bytes_eq
    tine_storage.Base.to_be_bytes tine_storage.Base.from_be_bytes tine_storage.Base.any_nonzero
    tine_storage.LocalJournalV2.Journal.read_header tine_storage.LocalJournalV2.Journal.prepare
    tine_storage.LocalJournalV2.Journal.check_header
    tine_storage.LocalJournalV2.Journal.read_frontier_exact
    tine_storage.LocalJournalV2.Journal.check_frontier
    tine_storage.LocalJournalV2.Journal.check_scan
    tine_storage.LocalJournalV2.Frontier.encode_header
    tine_storage.LocalJournalV2.Frontier.header_body
    tine_storage.LocalJournalV2.Frontier.decode_header
    tine_storage.LocalJournalV2.Frontier.read_identity
    tine_storage.LocalJournalV2.Frontier.encode_frontier
    tine_storage.LocalJournalV2.Frontier.decode_frontier
    tine_storage.LocalJournalV2.Frontier.frontier_body
    tine_storage.LocalJournalV2.Frontier.identity_fields
    tine_storage.LocalJournalV2.Frontier.initial tine_storage.LocalJournalV2.Frontier.read_terminal
    tine_storage.LocalJournalV2.Frontier.terminal_fields
    tine_storage.LocalJournalV2.Segment.for_selection tine_storage.LocalJournalV2.Segment.header_eq
    tine_storage.LocalJournalV2.Segment.scan_v2_prefix
    tine_storage.LocalJournalV2.Segment.prefix_loop tine_storage.LocalJournalV2.Segment.check_prefix
    tine_storage.LocalJournalV2.Segment.terminal_matches
    tine_storage.LocalJournalV2.Segment.start_at
fresh_opens = refl

fresh_extent : 136 ≡ length fresh_disk.segment
unfolding tine_storage.LocalJournalV2.Journal.prepare
    tine_storage.LocalJournalV2.Frontier.encode_header
    tine_storage.LocalJournalV2.Frontier.header_body
    tine_storage.LocalJournalV2.Frontier.identity_fields
    tine_storage.LocalJournalV2.Segment.for_selection tine_storage.Base.to_be_bytes
fresh_extent = refl

fresh_fits : length (fresh_disk.segment ++ note) ≤ 4294967296
unfolding tine_storage.LocalJournalV2.Journal.prepare
    tine_storage.LocalJournalV2.Frontier.encode_header
    tine_storage.LocalJournalV2.Frontier.header_body
    tine_storage.LocalJournalV2.Frontier.identity_fields
    tine_storage.LocalJournalV2.Segment.for_selection tine_storage.Base.to_be_bytes
fresh_fits = omega arith

torn_suffix_is_cut_example :
    (open_selected toy_sha toy_codec opens selection_v2 false true (torn fresh_disk note) ≡ (
      fresh_disk,
      ok (
        reopened toy_sha toy_codec selection_v2 fresh_disk (initial header_v2) (length note),
        start_at 136 5,
        length note,
      ),
    ))
    × ((read_frontier_exact fresh_disk.frontier >>= decode_frontier toy_sha)
        ≡ ok (initial header_v2))
    × (scan_v2_prefix toy_sha toy_codec fresh_disk.segment (initial header_v2)
        ≡ ok (start_at 136 5))
unfolding initial start_at
torn_suffix_is_cut_example =
    torn_suffix_is_cut toy_sha toy_codec selection_v2 fresh_disk note (initial header_v2)
      (start_at 136 5) fresh_extent fresh_fits fresh_opens
