-- ===== src/LocalJournal/Segment/Open.antt =====
-- Opening a segment and replaying it.
use tine_storage.Base.{
  ℕ, zero, suc, ◌+◌, ◌-◌, ◌^◌, ◌≤◌, ◌<◌, ◌≡◌, refl, sym, ap, ◌∙◌, Bool, List, [], ◌∷◌, ◌++◌, Bytes,
  IsBytes, length, take, ltb, lt→ltb, le→ltb, Result, ok, err, stuck, arith, length-append, inl,
  inr, Bool-cases, take_all, take-append_at, if◌then◌else◌,
}
use native.Mathlib.Nat.{zero-add}
use tine_storage.ContentDigest.{Sha256}
use tine_storage.Postcard.{Postcard}
use tine_storage.LocalJournal.Errors.{LocalJournalError}
use tine_storage.LocalJournal.Frame.{FrameHeader, Frame, min_frame_bytes}
use tine_storage.LocalJournal.Frame.RoundTrip.{encode_of-extent}
use tine_storage.LocalJournal.Reader.{SegmentScan, scan_segment, max_segment_bytes}
use tine_storage.LocalJournal.Segment.{
  Segment, replay_loop, replay, adopt, truncate_tail, open_scan, finish_open, OpenOutcome,
  FoundFile, open_from_sequence,
}
use tine_storage.LocalJournal.Segment.Journal.{Journal, read_frame_at-encoded}
use tine_storage.LocalJournal.Segment.Scan.{start, scan_segment_sound, Found, length-frames-le}
use tine_storage.LocalJournal.Segment.Live.{IsLive}

module _ {K : Type 0} (sha : Sha256) (pc : Postcard (FrameHeader K)) where
  replay_loop-journal :
      (frames : List (Frame K)) (fuel : ℕ) (d : Bytes) (s : ℕ) (committed : ℕ) (bytes : Bytes)
      (offset : ℕ)
      → Journal sha pc d s frames bytes
      → offset + length bytes ≡ committed
      → length frames < fuel
      → replay_loop sha pc fuel committed bytes offset ≡ ok frames
  unfolding replay_loop
  replay_loop-journal [] zero d s committed bytes offset j n f = absurd (omega arith)
  replay_loop-journal (frame ∷ frames) zero d s committed bytes offset j n f = absurd (omega arith)
  replay_loop-journal [] (suc fuel) d s committed bytes offset j n f =
      rw (le→ltb offset committed (omega (arith, ap length j)))
  replay_loop-journal (frame ∷ frames) (suc fuel) d s committed bytes offset
        (front, rest, e, enc, dev, seq, j) n f =
      let size = ap length e ∙ length-append front rest in
      rw (
        e,
        lt→ltb offset committed (omega (arith, size, (encode_of-extent sha pc frame front enc).2)),
        read_frame_at-encoded sha pc frame front rest offset committed enc (rw e at n),
        replay_loop-journal frames fuel d (s + 1) committed rest (offset + length front) j
            (omega (arith, size)) (omega arith),
      )

  -- The replay of a live segment visits exactly its frames, in the order of their appends.
  pub replay_live :
      (segment : Segment) (frames : List (Frame K))
      → IsLive sha pc segment frames
      → replay sha pc segment ≡ ok frames
  unfolding replay
  replay_live segment frames live =
      replay_loop-journal frames (suc (length segment.file)) segment.device_id segment.base_sequence
        segment.committed_bytes segment.file 0 live.journal (omega (arith, live.committed))
        (omega (
          arith,
          length-frames-le sha pc segment.device_id segment.base_sequence frames segment.file
              live.journal,
        ))

  kept : (file : Bytes) (n : ℕ) → (if ltb n (length file) then take n file else file) ≡ take n file
  kept file n = elim (Bool-cases (ltb n (length file))) [
    | inl cut ↦ rw cut
    | inr whole ↦ rw whole (sym (take_all n file (ground arith)))
  ]

  adopt-file :
      (created : Bool) (file bytes tail d : Bytes) (base : ℕ) (scan : SegmentScan K)
      → file ≡ bytes ++ tail
      → scan.committed_bytes ≡ length bytes
      → (adopt sha pc created file d base scan).file ≡ bytes
  unfolding adopt
  adopt-file created file bytes tail d base scan e size =
      kept file scan.committed_bytes
      ∙ ap (take scan.committed_bytes) e
      ∙ take-append_at scan.committed_bytes bytes tail (sym size)

  -- The segment that a scan of `file` leads to is live, with the frames that the scan has found.
  adopt-IsLive :
      (created : Bool) (file d : Bytes) (base : ℕ) (scan : SegmentScan K)
      → length file ≤ max_segment_bytes
      → (found : Found sha pc d file (start base) scan)
      → IsLive sha pc (adopt sha pc created file d base scan) found.0
  unfolding adopt
  adopt-IsLive created file d base scan bound (frames, bytes, tail, e, j, short, o, room) =
      let size : scan.committed_bytes ≡ length bytes =
        ap (λ (s : SegmentScan K). s.committed_bytes) o ∙ zero-add (length bytes) in
      let left : (if ltb scan.committed_bytes (length file)
            then take scan.committed_bytes file
            else file)
          ≡ bytes =
        adopt-file created file bytes tail d base scan e size in
      let next : scan.next_sequence ≡ base + length frames =
        ap (λ (s : SegmentScan K). s.next_sequence) o in
      let total = ap length e ∙ length-append bytes tail in
      rw left (record {
        journal = j;
        at_end = size;
        committed = size;
        sequence = next;
        usable = refl;
        bounded = omega (arith, total);
        room = omega arith;
      })

  truncate_tail-guards :
      (outcome : OpenOutcome) (file left : Bytes) (segment segment' : Segment)
      (scan scan' : SegmentScan K) (discarded : ℕ)
      → truncate_tail sha pc outcome file segment scan ≡ (left, ok (segment', scan', discarded))
      → (segment ≡ segment')
        × (scan ≡ scan')
        × (left ≡ segment'.file)
        × (discarded ≡ length file - scan.committed_bytes)
  unfolding truncate_tail
  truncate_tail-guards outcome file left segment segment' scan scan' discarded h = ground arith

  finish_open-guards :
      (outcome : OpenOutcome) (found : FoundFile) (d : Bytes) (base : ℕ)
      (r : Result LocalJournalError (SegmentScan K)) (left : Bytes) (segment : Segment)
      (scan : SegmentScan K) (discarded : ℕ)
      → finish_open sha pc outcome found d base r ≡ (left, ok (segment, scan, discarded))
      → (r ≡ ok scan)
        × (adopt sha pc found.created found.contents d base scan ≡ segment)
        × (left ≡ segment.file)
        × (discarded ≡ length found.contents - scan.committed_bytes)
  unfolding finish_open
  finish_open-guards outcome found d base (ok s) left segment scan discarded h =
      let (a, b, c, e) =
        truncate_tail-guards outcome found.contents left _ segment s scan discarded h in
      (ap ok b, rw (← b) a, c, rw (← b) e)
  finish_open-guards outcome found d base (err e) left segment scan discarded h = cc
  finish_open-guards outcome found d base stuck left segment scan discarded h = cc

  open_scan-guards :
      (outcome : OpenOutcome) (found : FoundFile) (name d : Bytes) (base : ℕ) (scan : SegmentScan K)
      → open_scan sha pc outcome found name d base ≡ ok scan
      → scan_segment sha pc found.contents d base ≡ ok scan
  unfolding open_scan
  open_scan-guards outcome found name d base scan h = ground arith

  -- An open that succeeds returns a live segment whose frames are all that its file held, up to a
  -- tail too short for a frame, and leaves that segment's file behind.
  pub open-IsLive :
      (outcome : OpenOutcome) (found : FoundFile) (name d : Bytes) (base : ℕ) (left : Bytes)
      (segment : Segment) (scan : SegmentScan K) (discarded : ℕ)
      → IsBytes found.contents
      → base < 2 ^ 64
      → open_from_sequence sha pc outcome found name d base ≡ (left, ok (segment, scan, discarded))
      → (frames : List (Frame K)) × (tail : Bytes) × IsLive sha pc segment frames
        × (left ≡ segment.file)
        × (found.contents ≡ segment.file ++ tail)
        × (length tail ≡ discarded)
        × (discarded < min_frame_bytes)
  unfolding open_from_sequence
  open-IsLive outcome found name d base left segment scan discarded b u64 h =
      let (scanned_ok, adopted, same, cut) =
        finish_open-guards outcome found d base (open_scan sha pc outcome found name d base) left
          segment scan discarded h in
      let (bound, all) =
        scan_segment_sound sha pc found.contents d base scan b u64
          (open_scan-guards outcome found name d base scan scanned_ok) in
      let live = adopt-IsLive found.created found.contents d base scan bound all in
      let (frames, bytes, tail, e, j, short, o, room) = all in
      let size : scan.committed_bytes ≡ length bytes =
        ap (λ (s : SegmentScan K). s.committed_bytes) o ∙ zero-add (length bytes) in
      let total = ap length e ∙ length-append bytes tail in
      let file : bytes ≡ segment.file =
        sym (adopt-file found.created found.contents bytes tail d base scan e size)
        ∙ ap (λ (s : Segment). s.file) adopted in
      (
        frames,
        tail,
        rw adopted at live,
        same,
        e ∙ ap (λ l. l ++ tail) file,
        omega (arith, total, cut, size),
        omega (arith, total, cut, size),
      )
