-- ===== src/LocalJournal/Segment/Crash.antt =====
-- What a reopening finds after an append that did not return: the old frames, the new frame as
-- well, or a refusal that leaves the file alone. And what a reopening gives in general.
use tine_storage.Base.{
  ℕ, suc, ◌+◌, ◌-◌, ◌≤◌, ◌<◌, ◌≡◌, refl, ap, ◌∙◌, List, [], ◌∷◌, ◌++◌, String, Bytes, length, take,
  lt→ltb, le→ltb, ok, err, arith, length-append, append-nil, length-take, take-slice, slice,
}
use native.Mathlib.Nat.{zero-add}
use tine_storage.ContentDigest.{Sha256}
use tine_storage.Postcard.{Postcard}
use tine_storage.LocalJournal.Errors.{declared_length}
use tine_storage.LocalJournal.Errors.LocalJournalError.{corrupt_segment}
use tine_storage.LocalJournal.Frame.{FrameHeader, Frame, encode_of, min_frame_bytes}
use tine_storage.LocalJournal.Frame.RoundTrip.{encode_of-extent}
use tine_storage.LocalJournal.Reader.{
  SegmentScan, scan_segment, scan_loop, read_frame_at, read_prefix, read_extent,
}
use tine_storage.LocalJournal.Segment.{
  Segment, write_fails, sync_fails, plan_append, finish_append, append,
}
use tine_storage.LocalJournal.Segment.Journal.{read_exact-append}
use tine_storage.LocalJournal.Segment.Scan.{
  scanned, start, scan_segment_complete, scan_segment-frames,
}
use tine_storage.LocalJournal.Segment.Live.{
  IsLive, appended, plan_append-guards, append-planned, write_at_end, Journal-snoc,
}

append_size : (bytes : Bytes) → length (bytes ++ []) ≡ length bytes
append_size bytes = ap length (append-nil bytes)

module _ {K : Type 0} (sha : Sha256) (pc : Postcard (FrameHeader K)) where
  -- The file of a segment after an append that was cut off in its write.
  pub torn_file :
      (segment : Segment) (frames : List (Frame K)) (k : K) (payload bytes : Bytes)
      (grown next n : ℕ) (e : String)
      → IsLive sha pc segment frames
      → plan_append sha pc segment k payload ≡ ok (bytes, grown, next)
      → (append sha pc (write_fails n e) segment k payload).0.file ≡ segment.file ++ take n bytes
  unfolding finish_append
  torn_file segment frames k payload bytes grown next n e live h =
      rw (append-planned sha pc (write_fails n e) segment k payload (bytes, grown, next) h)
        (write_at_end sha pc segment.cursor (take n bytes) segment.file live.at_end)

  -- If fewer than 52 bytes of the frame reached the file, the reopening scan finds the frames from
  -- before the append, and nothing else.
  pub torn_append_recovers :
      (segment : Segment) (frames : List (Frame K)) (k : K) (payload bytes : Bytes)
      (grown next n : ℕ) (e : String)
      → IsLive sha pc segment frames
      → plan_append sha pc segment k payload ≡ ok (bytes, grown, next)
      → n < min_frame_bytes
      → scan_segment sha pc
          (append sha pc (write_fails n e) segment k payload).0.file
          segment.device_id
          segment.base_sequence
        ≡ ok (scanned (start segment.base_sequence) frames (length segment.file))
  torn_append_recovers segment frames k payload bytes grown next n e live h short =
      let (usable, enc, size, bound, successor, room) =
        plan_append-guards sha pc segment k payload bytes grown next h in
      let cut = length-take n bytes in
      rw (torn_file segment frames k payload bytes grown next n e live h) (
        scan_segment_complete sha pc segment.device_id segment.base_sequence frames segment.file
          (take n bytes) live.journal (omega (arith, cut))
          (omega (arith, cut, length-append segment.file (take n bytes), live.committed)) live.room)

  -- A read of 52 bytes or more of a frame, but not of all of it.
  torn_read :
      (frame : Frame K) (bytes : Bytes) (n offset file_len : ℕ)
      → encode_of sha pc frame ≡ ok bytes
      → min_frame_bytes ≤ n
      → n < length bytes
      → offset + n ≡ file_len
      → read_frame_at sha pc (take n bytes) offset file_len
        ≡ err (corrupt_segment offset (declared_length (length bytes) n))
  unfolding read_frame_at read_prefix read_extent
  torn_read frame bytes n offset file_len enc long torn size =
      let (h, parsed, large, small) = encode_of-extent sha pc frame bytes enc in
      let remaining : file_len - offset ≡ n = omega arith in
      rw (
        take-slice 20 n bytes (omega arith),
        remaining,
        le→ltb n 52 long,
        read_exact-append 20 (take 20 bytes) (slice 20 n bytes)
            (omega (arith, length-take 20 bytes)),
        parsed,
        lt→ltb n (length bytes) torn,
      )

  torn_round :
      (frame : Frame K) (bytes : Bytes) (n fuel : ℕ) (d : Bytes) (file_len : ℕ)
      (scan : SegmentScan K)
      → encode_of sha pc frame ≡ ok bytes
      → min_frame_bytes ≤ n
      → n < length bytes
      → scan.committed_bytes + n ≡ file_len
      → scan_loop sha pc (suc fuel) d file_len (take n bytes) scan
        ≡ err (corrupt_segment scan.committed_bytes (declared_length (length bytes) n))
  unfolding scan_loop
  torn_round frame bytes n fuel d file_len scan enc long torn size = rw (
    lt→ltb scan.committed_bytes file_len (omega arith),
    torn_read frame bytes n scan.committed_bytes file_len enc long torn size,
  )

  -- If 52 bytes or more but not the whole frame reached the file, the scan refuses the file: it
  -- reports the declared length of the frame, at the frame's offset.
  pub torn_append_fails_closed :
      (segment : Segment) (frames : List (Frame K)) (k : K) (payload bytes : Bytes)
      (grown next n : ℕ) (e : String)
      → IsLive sha pc segment frames
      → plan_append sha pc segment k payload ≡ ok (bytes, grown, next)
      → min_frame_bytes ≤ n
      → n < length bytes
      → scan_segment sha pc
          (append sha pc (write_fails n e) segment k payload).0.file
          segment.device_id
          segment.base_sequence
        ≡ err (corrupt_segment (length segment.file) (declared_length (length bytes) n))
  torn_append_fails_closed segment frames k payload bytes grown next n e live h long torn =
      let (usable, enc, size, bound, successor, room) =
        plan_append-guards sha pc segment k payload bytes grown next h in
      let cut : length (take n bytes) ≡ n = omega (arith, length-take n bytes) in
      let longer = length-append segment.file (take n bytes) in
      let (fuel, reached) =
        scan_segment-frames sha pc segment.device_id segment.base_sequence frames segment.file
          (take n bytes) live.journal (omega (arith, cut, longer, live.committed)) live.room in
      rw (torn_file segment frames k payload bytes grown next n e live h) (
        reached
        ∙ torn_round (appended sha pc segment k payload) bytes n fuel segment.device_id
            (length (segment.file ++ take n bytes))
            (scanned (start segment.base_sequence) frames (length segment.file)) enc long torn
            (omega (arith, longer, cut))
        ∙ ap (λ m. err (corrupt_segment m (declared_length (length bytes) n)))
            (zero-add (length segment.file)))

  -- If the whole frame reached the file and only the barrier failed, the scan finds the old frames
  -- and the new one.
  pub unsynced_append_recovers :
      (segment : Segment) (frames : List (Frame K)) (k : K) (payload bytes : Bytes) (grown next : ℕ)
      (e : String)
      → IsLive sha pc segment frames
      → plan_append sha pc segment k payload ≡ ok (bytes, grown, next)
      → scan_segment sha pc
          (append sha pc (sync_fails e) segment k payload).0.file
          segment.device_id
          segment.base_sequence
        ≡ ok (
            scanned
              (start segment.base_sequence)
              (frames ++ (appended sha pc segment k payload ∷ []))
              (length segment.file + length bytes))
  unfolding finish_append
  unsynced_append_recovers segment frames k payload bytes grown next e live h =
      let (usable, enc, size, bound, successor, room) =
        plan_append-guards sha pc segment k payload bytes grown next h in
      let longer = length-append segment.file bytes in
      let frame = appended sha pc segment k payload in
      let counted = length-append frames (frame ∷ []) in
      let found =
        scan_segment_complete sha pc segment.device_id segment.base_sequence
          (frames ++ (frame ∷ [])) (segment.file ++ bytes) []
          (Journal-snoc sha pc segment.device_id segment.base_sequence frames segment.file frame
            bytes live.journal enc refl live.sequence)
          (omega arith) (omega (arith, longer, live.committed, append_size (segment.file ++ bytes)))
          (omega (arith, counted, live.sequence)) in
      rw
        (
          append-planned sha pc (sync_fails e) segment k payload (bytes, grown, next) h,
          finish_append,
          write_at_end sha pc segment.cursor bytes segment.file live.at_end,
          ← longer,
        )
        (rw append-nil at found)
