-- ===== src/LocalJournalV2/Journal/Reopen.antt =====
-- The open of a segment with bytes of an unfinished append behind its frontier.
use tine_storage.Base.{
  ℕ, ◌-◌, ◌≤◌, ◌≡◌, refl, sym, ap, ◌∙◌, Bool, true, false, not, ◌++◌, Bytes, length, ltb, le→ltb,
  Result, ok, err, stuck, ◌>>=◌, ◌>>◌, >>=-eq-ok, refuse_if, arith, length-append, take-append,
  take_all, Bool-cases, inl, inr, if◌then◌else◌,
}
use tine_storage.ContentDigest.{Sha256}
use tine_storage.Postcard.{Postcard}
use tine_storage.LocalJournal.Errors.{LocalJournalError}
use tine_storage.LocalJournal.Frame.{FrameHeader}
use tine_storage.LocalJournal.Reader.{max_segment_bytes}
use tine_storage.LocalJournal.Segment.{require_safe_segment_name, opens}
use tine_storage.LocalJournalV2.Frontier.{
  SegmentHeader, Frontier, segment_header_bytes, decode_frontier,
}
use tine_storage.LocalJournalV2.Segment.{
  Selection, for_selection, header_eq, Disk, PrefixScan, scan_v2_prefix,
}
use tine_storage.LocalJournalV2.Suffix.Frames.{take-front}
use tine_storage.LocalJournalV2.Suffix.{
  scan_v2_prefix-suffix, scan_v2_prefix-extent, scan_v2_prefix-ends,
}
use tine_storage.LocalJournalV2.Journal.{
  read_frontier_exact, read_header, check_scan, check_frontier, check_header, check_selected,
  Journal, selected, truncate_suffix, finish_selected, open_selected,
}

-- `disk` with `suffix` behind its segment.
abbrev pub torn : Disk → Bytes → Disk
torn disk suffix = record disk { segment = disk.segment ++ suffix }

read_header-suffix :
    (sha : Sha256) (front suffix : Bytes)
    → segment_header_bytes ≤ length front
    → read_header sha (front ++ suffix) ≡ read_header sha front
unfolding read_header
read_header-suffix sha front suffix h =
    rw
      (
        le→ltb (length front) 136 h,
        le→ltb (length (front ++ suffix)) 136 (omega (arith, h, length-append front suffix)),
        take-front 136 front suffix h,
      )
      refl

module _ {K : Type 0} (sha : Sha256) (pc : Postcard (FrameHeader K)) where
  refuse_if-then :
      {A : Type 0} (g : Bool) (e : LocalJournalError) (m : Result LocalJournalError A) (a : A)
      → (refuse_if g e >> m) ≡ ok a
      → (g ≡ false) × (m ≡ ok a)
  refuse_if-then false e m a h = (refl, h)
  refuse_if-then true e m a h = cc

  extent_of : Result LocalJournalError (Frontier × PrefixScan K) → ℕ
  extent_of (ok (frontier, scan)) = frontier.committed_extent
  extent_of (err e) = 0
  extent_of stuck = 0

  check_scan-suffix :
      (front suffix : Bytes) (frontier found : Frontier) (scan : PrefixScan K)
      → found.committed_extent ≡ length front
      → length (front ++ suffix) ≤ max_segment_bytes
      → check_scan sha pc front frontier ≡ ok (found, scan)
      → (check_scan sha pc (front ++ suffix) frontier ≡ ok (found, scan))
        × (segment_header_bytes ≤ length front)
  unfolding check_scan extent_of
  check_scan-suffix front suffix frontier found scan e size h =
      let (s, run, same) =
        >>=-eq-ok (scan_v2_prefix sha pc front frontier) (λ s. ok (frontier, s)) (found, scan) h in
      let extent : frontier.committed_extent ≡ length front = ap extent_of same ∙ e in
      let again = scan_v2_prefix-suffix sha pc front suffix frontier extent size ∙ run in
      (rw again same, scan_v2_prefix-extent sha pc front frontier s run)

  check_frontier-suffix :
      (front suffix : Bytes) (header : SegmentHeader) (frontier found : Frontier)
      (scan : PrefixScan K)
      → found.committed_extent ≡ length front
      → length (front ++ suffix) ≤ max_segment_bytes
      → check_frontier sha pc front header frontier ≡ ok (found, scan)
      → (check_frontier sha pc (front ++ suffix) header frontier ≡ ok (found, scan))
        × (segment_header_bytes ≤ length front)
  unfolding check_frontier
  check_frontier-suffix front suffix header frontier found scan e size h =
      let (g, m) =
        refuse_if-then (not (header_eq frontier.header header)) _ (check_scan sha pc front frontier)
          (found, scan) h in
      let (again, headed) = check_scan-suffix front suffix frontier found scan e size m in
      (rw (g, again) refl, headed)

  check_header-suffix :
      (selection : Selection) (disk : Disk) (suffix : Bytes) (header : SegmentHeader)
      (found : Frontier) (scan : PrefixScan K)
      → found.committed_extent ≡ length disk.segment
      → length (disk.segment ++ suffix) ≤ max_segment_bytes
      → check_header sha pc selection disk header ≡ ok (found, scan)
      → (check_header sha pc selection (torn disk suffix) header ≡ ok (found, scan))
        × (segment_header_bytes ≤ length disk.segment)
  unfolding check_header
  check_header-suffix selection disk suffix header found scan e size h =
      let read : Result LocalJournalError Frontier =
        read_frontier_exact disk.frontier >>= decode_frontier sha in
      let (g, m) =
        refuse_if-then (not (header_eq header (for_selection selection))) _
          (read >>= check_frontier sha pc disk.segment header) (found, scan) h in
      let (frontier, decoded, checked) =
        >>=-eq-ok read (check_frontier sha pc disk.segment header) (found, scan) m in
      let (again, headed) =
        check_frontier-suffix disk.segment suffix header frontier found scan e size checked in
      (rw (g, decoded, again) refl, headed)

  -- Bytes behind the frontier of a segment that opens change nothing of what the open reads.
  pub check_selected-suffix :
      (selection : Selection) (disk : Disk) (suffix : Bytes) (found : Frontier)
      (scan : PrefixScan K)
      → found.committed_extent ≡ length disk.segment
      → length (disk.segment ++ suffix) ≤ max_segment_bytes
      → check_selected sha pc selection false true disk ≡ ok (found, scan)
      → check_selected sha pc selection false true (torn disk suffix) ≡ ok (found, scan)
  unfolding check_selected
  check_selected-suffix selection disk suffix found scan e size h =
      let name : Result LocalJournalError (Unit {0}) =
        require_safe_segment_name selection.segment_name in
      let (u, safe, m) =
        >>=-eq-ok name (λ u. read_header sha disk.segment >>= check_header sha pc selection disk)
          (found, scan) h in
      let (header, decoded, checked) =
        >>=-eq-ok (read_header sha disk.segment) (check_header sha pc selection disk) (found, scan)
          m in
      let (again, headed) =
        check_header-suffix selection disk suffix header found scan e size checked in
      rw (safe, read_header-suffix sha disk.segment suffix headed, decoded, again) refl

  nothing_behind : (front suffix : Bytes) → ltb 0 (length suffix) ≡ false → front ++ suffix ≡ front
  nothing_behind front suffix h =
      let all : length (front ++ suffix) ≤ length front =
        ground (arith, h, length-append front suffix) in
      sym (take_all (length front) (front ++ suffix) all) ∙ take-append front suffix

  -- A segment that opens has been scanned to the extent of the frontier in its file.
  check_selected-frontier :
      (selection : Selection) (disk : Disk) (found : Frontier) (scan : PrefixScan K)
      → check_selected sha pc selection false true disk ≡ ok (found, scan)
      → ((read_frontier_exact disk.frontier >>= decode_frontier sha) ≡ ok found)
        × (scan_v2_prefix sha pc disk.segment found ≡ ok scan)
  unfolding check_selected check_header check_frontier check_scan
  check_selected-frontier selection disk found scan h =
      let (u, safe, m) =
        >>=-eq-ok (require_safe_segment_name selection.segment_name)
          (λ u. read_header sha disk.segment >>= check_header sha pc selection disk) (found, scan)
          h in
      let (header, headed, checked) =
        >>=-eq-ok (read_header sha disk.segment) (check_header sha pc selection disk) (found, scan)
          m in
      let read : Result LocalJournalError Frontier =
        read_frontier_exact disk.frontier >>= decode_frontier sha in
      let (g, n) =
        refuse_if-then (not (header_eq header (for_selection selection))) _
          (read >>= check_frontier sha pc disk.segment header) (found, scan) checked in
      let (frontier, decoded, bound) =
        >>=-eq-ok read (check_frontier sha pc disk.segment header) (found, scan) n in
      let (g', scanned) =
        refuse_if-then (not (header_eq frontier.header header)) _
          (check_scan sha pc disk.segment frontier) (found, scan) bound in
      let (s, run, same) =
        >>=-eq-ok (scan_v2_prefix sha pc disk.segment frontier) (λ s. ok (frontier, s))
          (found, scan) scanned in
      let one : frontier ≡ found = cc same in
      let other : s ≡ scan = cc same in (cc (decoded, one), cc (run, one, other))

  -- The journal of a selected segment whose file ends at its frontier, behind the truncation of
  -- `cut` bytes.
  abbrev pub reopened : Selection → Disk → Frontier → ℕ → Journal
  reopened selection disk frontier cut = record {
    disk = disk;
    cursor = length disk.segment;
    selection = selection;
    frontier = frontier;
    poisoned = false;
    stats = record {
      frames_appended = 0;
      bytes_appended = 0;
      data_durability_syncs = if ltb 0 cut then 1 else 0;
      directory_durability_syncs = 0;
      recovery_truncations = if ltb 0 cut then 1 else 0;
    };
  }

  longer_by :
      (front suffix : Bytes) → ltb (length front) (length (front ++ suffix)) ≡ ltb 0 (length suffix)
  longer_by front suffix = rw (length-append front suffix) (ground arith)

  selected-torn :
      (selection : Selection) (disk : Disk) (suffix : Bytes) (found : Frontier)
      → found.committed_extent ≡ length disk.segment
      → selected sha pc selection (torn disk suffix) found
        ≡ reopened selection disk found (length suffix)
  unfolding selected
  selected-torn selection disk suffix found e = elim (Bool-cases (ltb 0 (length suffix))) [
    | inl some_bytes ↦
        rw (e, longer_by disk.segment suffix, some_bytes, take-append disk.segment suffix) refl
    | inr no_bytes ↦
        rw (e, longer_by disk.segment suffix, no_bytes, nothing_behind disk.segment suffix no_bytes)
          refl
  ]

  -- A segment whose file ends at the extent of its frontier, and which opens, opens again with
  -- any bytes behind that extent that keep to the limit on segments. The open cuts just these
  -- bytes off and leaves both files as they were; it returns the scan and the frontier that the
  -- frontier file holds, with the cursor at the end of the segment and the journal not poisoned.
  pub torn_suffix_is_cut :
      (selection : Selection) (disk : Disk) (suffix : Bytes) (found : Frontier)
      (scan : PrefixScan K)
      → found.committed_extent ≡ length disk.segment
      → length (disk.segment ++ suffix) ≤ max_segment_bytes
      → check_selected sha pc selection false true disk ≡ ok (found, scan)
      → (open_selected sha pc opens selection false true (torn disk suffix)
          ≡ (disk, ok (reopened selection disk found (length suffix), scan, length suffix)))
        × ((read_frontier_exact disk.frontier >>= decode_frontier sha) ≡ ok found)
        × (scan_v2_prefix sha pc disk.segment found ≡ ok scan)
  unfolding finish_selected truncate_suffix
  torn_suffix_is_cut selection disk suffix found scan e size h =
      let again = check_selected-suffix selection disk suffix found scan e size h in
      let journal = selected-torn selection disk suffix found e in
      let reads = check_selected-frontier selection disk found scan h in
      let cut : length (disk.segment ++ suffix) - scan.committed_extent ≡ length suffix = omega (
        arith,
        scan_v2_prefix-ends sha pc disk.segment found scan reads.1,
        e,
        length-append disk.segment suffix,
      ) in
      (
        elim (Bool-cases (ltb found.committed_extent (length (disk.segment ++ suffix)))) [
          | inl longer ↦ rw (again, longer, journal, cut) refl
          | inr same ↦ rw (again, same, journal, cut) refl
        ],
        reads.0,
        reads.1,
      )
