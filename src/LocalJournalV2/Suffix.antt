-- ===== src/LocalJournalV2/Suffix.antt =====
-- The scan of a version 2 segment, and bytes behind the committed extent of its frontier.
pub mod Frames
use tine_storage.Base.{
  ℕ, zero, suc, ◌+◌, ◌-◌, ◌≤◌, ◌≡◌, refl, ap, Bool, true, false, List, [], ◌∷◌, ◌++◌, Bytes, length,
  take, drop, ltb, le→ltb, ◌==◌, Result, ok, refuse_if, ◌>>◌, bytes_eq, not, ◌||◌, slice,
  from_be_bytes, ◌>>=◌, >>=-eq-ok, arith, sym, ◌∙◌, ◌≢◌, err, stuck, length-append, length-take,
  take-append-drop, length-drop, Bool-cases, inl, inr,
}
use tine_storage.ContentDigest.{Sha256}
use tine_storage.Postcard.{Postcard}
use tine_storage.LocalJournal.Errors.{LocalJournalError, message}
use tine_storage.LocalJournal.Errors.LocalJournalError.{corrupt_segment}
use tine_storage.LocalJournal.Frame.{FrameHeader, frame_magic, total_len}
use tine_storage.LocalJournal.Reader.{max_segment_bytes, read_exact}
use tine_storage.LocalJournalV2.Frontier.{Frontier, segment_header_bytes}
use tine_storage.LocalJournalV2.Answers.{prefix_loop_answers, enough_for}
use tine_storage.LocalJournalV2.Segment.{
  PrefixScan, start_at, complete_body, complete_total, complete_prefix, read_complete_frame,
  prefix_round, prefix_loop, check_prefix, scan_v2_prefix, checked_sub, terminal_matches,
}
use tine_storage.LocalJournalV2.Suffix.Frames.{read_complete_frame-suffix}

module _ {K : Type 0} (sha : Sha256) (pc : Postcard (FrameHeader K)) where
  prefix_round-suffix :
      (front suffix : Bytes) (frontier : Frontier) (scan : PrefixScan K)
      → frontier.committed_extent ≡ length front
      → prefix_round sha pc (front ++ suffix) frontier scan
        ≡ prefix_round sha pc front frontier scan
  unfolding prefix_round
  prefix_round-suffix front suffix frontier scan e =
      rw (e, read_complete_frame-suffix sha pc front suffix scan.committed_extent) refl

  round-suffix :
      (round : Result LocalJournalError (PrefixScan K))
      (short long : PrefixScan K → Result LocalJournalError (PrefixScan K))
      → ((next : PrefixScan K) → short next ≢ stuck → long next ≡ short next)
      → (round >>= short) ≢ stuck
      → (round >>= long) ≡ (round >>= short)
  round-suffix (ok next) short long k n = k next n
  round-suffix (err error) short long k n = refl
  round-suffix stuck short long k n = refl

  -- More fuel changes no answer.
  prefix_loop-suffix :
      (fuel more : ℕ) (front suffix : Bytes) (frontier : Frontier) (scan : PrefixScan K)
      → frontier.committed_extent ≡ length front
      → fuel ≤ more
      → prefix_loop sha pc fuel front frontier scan ≢ stuck
      → prefix_loop sha pc more (front ++ suffix) frontier scan
        ≡ prefix_loop sha pc fuel front frontier scan
  unfolding prefix_loop
  prefix_loop-suffix zero more front suffix frontier scan e l n = absurd (n refl)
  prefix_loop-suffix (suc fuel) zero front suffix frontier scan e l n = absurd (omega arith)
  prefix_loop-suffix (suc fuel) (suc more) front suffix frontier scan e l n =
      elim (Bool-cases (ltb scan.committed_extent frontier.committed_extent)) [
        | inr done ↦ rw done refl
        | inl again ↦
            rw (again, prefix_round-suffix front suffix frontier scan e)
              (round-suffix (prefix_round sha pc front frontier scan)
                (prefix_loop sha pc fuel front frontier)
                (prefix_loop sha pc more (front ++ suffix) frontier)
                (λ next.
                  prefix_loop-suffix fuel more front suffix frontier next e (omega (arith, l)))
                (rw again at n))
      ]

  two_guards :
      (g g' : Bool) (e e' : LocalJournalError) (m : Result LocalJournalError (PrefixScan K))
      (scan : PrefixScan K)
      → (refuse_if g e >> (refuse_if g' e' >> m)) ≡ ok scan
      → (g ≡ false) × (g' ≡ false) × (m ≡ ok scan)
  two_guards false false e e' m scan h = (refl, refl, h)
  two_guards false true e e' m scan h = cc
  two_guards true g' e e' m scan h = cc

  same_bounds :
      (extent size size' : ℕ)
      → extent ≤ size
      → extent ≤ size'
      → (ltb extent segment_header_bytes || ltb max_segment_bytes extent || ltb size' extent)
        ≡ (ltb extent segment_header_bytes || ltb max_segment_bytes extent || ltb size extent)
  same_bounds extent size size' h h' = rw (le→ltb size extent h, le→ltb size' extent h') refl

  -- The scan of a segment answers as that of the segment cut at its committed extent.
  pub scan_v2_prefix-suffix :
      (front suffix : Bytes) (frontier : Frontier)
      → frontier.committed_extent ≡ length front
      → length (front ++ suffix) ≤ max_segment_bytes
      → scan_v2_prefix sha pc (front ++ suffix) frontier ≡ scan_v2_prefix sha pc front frontier
  unfolding scan_v2_prefix start_at
  scan_v2_prefix-suffix front suffix frontier e size =
      let all : Bytes = front ++ suffix in
      let extent = frontier.committed_extent in
      let outside =
        ltb extent segment_header_bytes
        || ltb max_segment_bytes extent
        || ltb (length front) extent in
      let grown : length front ≤ length all = omega (arith, length-append front suffix) in
      let bounds =
        same_bounds extent (length front) (length all) (omega (arith, e))
          (omega (arith, e, grown)) in
      let begin : PrefixScan K = start_at segment_header_bytes frontier.header.base_sequence in
      let small = le→ltb max_segment_bytes (length front) (omega (arith, grown, size)) in
      elim (Bool-cases outside) [
        | inl out ↦ rw (le→ltb max_segment_bytes (length all) size, small, bounds, out) refl
        | inr inside ↦
            rw (le→ltb max_segment_bytes (length all) size, small, bounds, inside)
              (ap (λ r. r >>= check_prefix sha pc frontier)
                (prefix_loop-suffix (suc (length front)) (suc (length all)) front suffix frontier
                  begin e (omega (arith, grown))
                  (prefix_loop_answers sha pc (suc (length front)) front frontier begin
                    (enough_for extent (length front) inside))))
      ]

  cut_at :
      (file : Bytes) (frontier : Frontier)
      → frontier.committed_extent ≤ length file
      → length file ≤ max_segment_bytes
      → scan_v2_prefix sha pc file frontier
        ≡ scan_v2_prefix sha pc (take frontier.committed_extent file) frontier
  cut_at file frontier inside size =
      let extent = frontier.committed_extent in
      let whole : take extent file ++ drop extent file ≡ file = take-append-drop extent file in
      ap (λ f. scan_v2_prefix sha pc f frontier) (sym whole)
      ∙ scan_v2_prefix-suffix (take extent file) (drop extent file) frontier
          (omega (arith, inside, length-take extent file)) (rw whole size)

  -- The scans of two files that agree up to the committed extent, both at least that long and
  -- within the limit on segments, answer the same: one scan or one error.
  pub scan_v2_prefix-agree :
      (file other : Bytes) (frontier : Frontier)
      → frontier.committed_extent ≤ length file
      → frontier.committed_extent ≤ length other
      → take frontier.committed_extent file ≡ take frontier.committed_extent other
      → length file ≤ max_segment_bytes
      → length other ≤ max_segment_bytes
      → scan_v2_prefix sha pc file frontier ≡ scan_v2_prefix sha pc other frontier
  scan_v2_prefix-agree file other frontier inside inside' same size size' =
      cut_at file frontier inside size
      ∙ ap (λ f. scan_v2_prefix sha pc f frontier) same
      ∙ sym (cut_at other frontier inside' size')

  -- A segment that passes the scan holds at least its header.
  pub scan_v2_prefix-extent :
      (file : Bytes) (frontier : Frontier) (scan : PrefixScan K)
      → scan_v2_prefix sha pc file frontier ≡ ok scan
      → segment_header_bytes ≤ length file
  unfolding scan_v2_prefix
  scan_v2_prefix-extent file frontier scan h =
      let (g, g', m) =
        two_guards (ltb max_segment_bytes (length file))
          (ltb frontier.committed_extent segment_header_bytes
            || ltb max_segment_bytes frontier.committed_extent
            || ltb (length file) frontier.committed_extent)
          _ _ _ scan h in
      ground (arith, g')

  -- A scan that succeeds ends at the committed extent.
  pub scan_v2_prefix-ends :
      (file : Bytes) (frontier : Frontier) (scan : PrefixScan K)
      → scan_v2_prefix sha pc file frontier ≡ ok scan
      → scan.committed_extent ≡ frontier.committed_extent
  unfolding scan_v2_prefix check_prefix
  scan_v2_prefix-ends file frontier scan h =
      let (g, g', m) =
        two_guards (ltb max_segment_bytes (length file))
          (ltb frontier.committed_extent segment_header_bytes
            || ltb max_segment_bytes frontier.committed_extent
            || ltb (length file) frontier.committed_extent)
          _ _ _ scan h in
      let begin : PrefixScan K = start_at segment_header_bytes frontier.header.base_sequence in
      let (final, run, checked) =
        >>=-eq-ok (prefix_loop sha pc (suc (length file)) file frontier begin)
          (check_prefix sha pc frontier) scan m in
      let (extents, terminals, same) =
        two_guards
          (not (final.committed_extent == frontier.committed_extent)
            || not (final.next_sequence == frontier.next_sequence))
          (not (
            terminal_matches sha pc frontier frontier.terminal final.terminal_bytes
              final.last_frame))
          _ _ (ok final) scan checked in
      let at_end : final.committed_extent ≡ frontier.committed_extent = ground (arith, extents) in
      cc (at_end, same)
