-- ===== src/LocalJournalV2/Answers.antt =====
-- The termination of scan_v2_prefix of src/local_journal_v2.rs.
use tine_storage.Base.{
  ℕ, zero, suc, ◌+◌, ◌-◌, ◌<◌, ◌≤◌, true, false, ◌≡◌, ◌≢◌, ap, ◌||◌, Bytes, length, ltb, Result, ok,
  stuck, ◌>>=◌, ◌>>◌, >>=-eq-ok, refuse_if, refuse_if->>, arith, Bool-cases, inl, inr,
}
use tine_storage.ContentDigest.{Sha256}
use tine_storage.Postcard.{Postcard}
use tine_storage.LocalJournal.Errors.{LocalJournalError, message}
use tine_storage.LocalJournal.Errors.LocalJournalError.{corrupt_segment}
use tine_storage.LocalJournal.Frame.{FrameHeader, Frame}
use tine_storage.LocalJournal.Reader.{max_segment_bytes}
use tine_storage.LocalJournal.Segment.Answers.{bind_stuck, refuse_if-stuck}
use tine_storage.LocalJournalV2.Frontier.{Frontier, segment_header_bytes}
use tine_storage.LocalJournalV2.Segment.{
  PrefixScan, start_at, read_complete_frame, scan_next, prefix_round, prefix_loop, check_prefix,
  scan_v2_prefix,
}
use tine_storage.LocalJournalV2.Reads.{read_complete_frame_answers, read_complete_frame-length}

fewer :
    (at next extent fuel : ℕ)
    → ltb at extent ≡ true
    → at < next
    → extent - at < suc fuel
    → extent - next < fuel
fewer at next extent fuel more on enough =
    let below : at < extent = ground (arith, more) in omega (arith, below, on, enough)

pub enough_for :
    (extent size : ℕ)
    → (ltb extent segment_header_bytes || ltb max_segment_bytes extent || ltb size extent) ≡ false
    → extent - segment_header_bytes < suc size
enough_for extent size inside =
    let fits : extent ≤ size = ground (arith, inside) in omega (arith, fits)

module _ {K : Type 0} (sha : Sha256) (pc : Postcard (FrameHeader K)) where
  scan_next_answers :
      (device_id : Bytes) (scan : PrefixScan K) (read : Frame K × Bytes)
      → scan_next sha pc device_id scan read ≢ stuck
  unfolding scan_next
  scan_next_answers device_id scan (frame, bytes) h = ground arith

  scan_next-extent :
      (device_id : Bytes) (scan next : PrefixScan K) (frame : Frame K) (bytes : Bytes)
      → scan_next sha pc device_id scan (frame, bytes) ≡ ok next
      → next.committed_extent ≡ scan.committed_extent + length bytes
  unfolding scan_next
  scan_next-extent device_id scan next frame bytes h = ground arith

  abbrev crosses : Frontier → PrefixScan K → PrefixScan K → Result LocalJournalError (PrefixScan K)
  crosses frontier scan next = do
    refuse_if (ltb frontier.committed_extent next.committed_extent)
        (corrupt_segment scan.committed_extent (message "frame crosses the committed frontier"))
    ok next

  crosses_answers :
      (frontier : Frontier) (scan next : PrefixScan K) → crosses frontier scan next ≢ stuck
  crosses_answers frontier scan next h = ground arith

  prefix_round_answers :
      (file : Bytes) (frontier : Frontier) (scan : PrefixScan K)
      → prefix_round sha pc file frontier scan ≢ stuck
  unfolding prefix_round
  prefix_round_answers file frontier scan h =
      let read = read_complete_frame sha pc file scan.committed_extent frontier.committed_extent in
      elim (bind_stuck read
        (λ r. scan_next sha pc frontier.header.device_id scan r >>= crosses frontier scan) h) [
          | inl none_read ↦
              read_complete_frame_answers sha pc file scan.committed_extent
                frontier.committed_extent none_read
          | inr (found, done, run) ↦
              elim (bind_stuck (scan_next sha pc frontier.header.device_id scan found)
                (crosses frontier scan) run) [
                  | inl none_next ↦ scan_next_answers frontier.header.device_id scan found none_next
                  | inr (next, scanned, e) ↦ crosses_answers frontier scan next e
                ]
        ]

  -- A round moves on.
  prefix_round-extent :
      (file : Bytes) (frontier : Frontier) (scan next : PrefixScan K)
      → prefix_round sha pc file frontier scan ≡ ok next
      → scan.committed_extent < next.committed_extent
  unfolding prefix_round
  prefix_round-extent file frontier scan next h =
      let ((frame, bytes), read, run) =
        >>=-eq-ok (read_complete_frame sha pc file scan.committed_extent frontier.committed_extent)
          (λ r. scan_next sha pc frontier.header.device_id scan r >>= crosses frontier scan) next
          h in
      let (found, scanned, kept) =
        >>=-eq-ok (scan_next sha pc frontier.header.device_id scan (frame, bytes))
          (crosses frontier scan) next run in
      let (g, same) =
        refuse_if->> (ltb frontier.committed_extent found.committed_extent) _ (ok found) next
          kept in
      let one : found ≡ next = cc same in
      let extent = scan_next-extent frontier.header.device_id scan found frame bytes scanned in
      let more =
        read_complete_frame-length sha pc file scan.committed_extent frontier.committed_extent frame
          bytes read in
      omega (arith, extent, more, ap (λ s. s.committed_extent) one)

  pub prefix_loop_answers :
      (fuel : ℕ) (file : Bytes) (frontier : Frontier) (scan : PrefixScan K)
      → frontier.committed_extent - scan.committed_extent < fuel
      → prefix_loop sha pc fuel file frontier scan ≢ stuck
  unfolding prefix_loop
  prefix_loop_answers zero file frontier scan enough h = absurd (omega (arith, enough))
  prefix_loop_answers (suc fuel) file frontier scan enough h =
      elim (Bool-cases (ltb scan.committed_extent frontier.committed_extent)) [
        | inr at_end ↦
            let e : ◌≡◌ {A = Result LocalJournalError (PrefixScan K)} (ok scan) stuck =
              rw at_end at h in
            absurd (cc e)
        | inl more ↦
            let round : Result LocalJournalError (PrefixScan K) =
              prefix_round sha pc file frontier scan in
            let run : (round >>= prefix_loop sha pc fuel file frontier) ≡ stuck = rw more at h in
            elim (bind_stuck round (prefix_loop sha pc fuel file frontier) run) [
              | inl none_read ↦ prefix_round_answers file frontier scan none_read
              | inr (next, done, e) ↦
                  let on = prefix_round-extent file frontier scan next done in
                  prefix_loop_answers fuel file frontier next
                    (fewer scan.committed_extent next.committed_extent frontier.committed_extent
                      fuel more on enough)
                    e
            ]
      ]

  check_prefix_answers :
      (frontier : Frontier) (scan : PrefixScan K) → check_prefix sha pc frontier scan ≢ stuck
  unfolding check_prefix
  check_prefix_answers frontier scan h = ground arith

  -- The scan of every file answers, with a scan or with an error, whatever its frontier says: its
  -- loop ends before its fuel does.
  pub scan_v2_prefix_answers :
      (file : Bytes) (frontier : Frontier) → scan_v2_prefix sha pc file frontier ≢ stuck
  unfolding scan_v2_prefix start_at
  scan_v2_prefix_answers file frontier h =
      let begin : PrefixScan K = start_at segment_header_bytes frontier.header.base_sequence in
      let loop = prefix_loop sha pc (suc (length file)) file frontier begin in
      let outside =
        ltb frontier.committed_extent segment_header_bytes
        || ltb max_segment_bytes frontier.committed_extent
        || ltb (length file) frontier.committed_extent in
      let past_size = refuse_if-stuck (ltb max_segment_bytes (length file)) _ _ h in
      elim (Bool-cases outside) [
        | inl out ↦ absurd (cc (rw out at past_size))
        | inr inside ↦
            let run : (loop >>= check_prefix sha pc frontier) ≡ stuck = rw inside at past_size in
            elim (bind_stuck loop (check_prefix sha pc frontier) run) [
              | inl unfinished ↦
                  prefix_loop_answers (suc (length file)) file frontier begin
                    (enough_for frontier.committed_extent (length file) inside) unfinished
              | inr (found, done, e) ↦ check_prefix_answers frontier found e
            ]
      ]
