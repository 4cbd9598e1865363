-- ===== src/LocalJournal/Segment/Answers.antt =====
-- The termination of the scan.
use tine_storage.Base.{
  ℕ, zero, suc, ◌+◌, ◌-◌, ◌<◌, ◌≡◌, ◌≢◌, refl, ap, ◌∙◌, Bool, true, false, not, [], ◌∷◌, ◌++◌,
  String, Bytes, IsBytes, length, take, drop, slice, ltb, ◌==◌, bytes_eq, Result, ok, err, stuck,
  ◌>>=◌, ◌>>◌, refuse_if, map_err, lift, arith, length-append, Bool-cases, ◌⊎◌, inl, inr,
}
use tine_storage.ContentDigest.{Sha256, of}
use tine_storage.Postcard.{Postcard}
use tine_storage.LocalJournal.Errors.{LocalJournalError, shown, declared_length}
use tine_storage.LocalJournal.Errors.LocalJournalError.{corrupt_segment, decode}
use tine_storage.LocalJournal.Frame.{
  FrameHeader, Frame, FrameExtent, total_len, parse_extent, require_canonical, decode_body,
  decode_extent, decode_frame, min_frame_bytes, max_frame_bytes,
}
use tine_storage.LocalJournal.Frame.RoundTrip.{encode_of-extent}
use tine_storage.LocalJournal.Segment.Journal.{read_frame_at_sound}
use tine_storage.LocalJournal.Reader.{
  FrameRead, complete, incomplete_byte_tail, SegmentScan, read_exact, read_body, read_extent,
  read_prefix, read_frame_at, scan_frame, scan_read, scan_loop, scan_segment, max_segment_bytes,
}

-- A chain that is stuck is so in its first part, or behind a result of it.
pub bind_stuck :
    {A B : Type 0} (m : Result LocalJournalError A) (f : A → Result LocalJournalError B)
    → (m >>= f) ≡ stuck
    → (m ≡ stuck) ⊎ ((a : A) × (m ≡ ok a) × (f a ≡ stuck))
bind_stuck (ok a) f h = inr (a, refl, h)
bind_stuck (err e) f h = cc
bind_stuck stuck f h = inl refl

pub refuse_if-stuck :
    {A : Type 0} (b : Bool) (e : LocalJournalError) (m : Result LocalJournalError A)
    → (refuse_if b e >> m) ≡ stuck
    → m ≡ stuck
refuse_if-stuck true e m h = cc
refuse_if-stuck false e m h = h

pub lift_answers : {A : Type 0} (f : String → LocalJournalError) (r : String ⊎ A) → lift f r ≢ stuck
lift_answers f (inl e) h = cc
lift_answers f (inr a) h = cc

pub map_err_answers :
    {A : Type 0} (f : LocalJournalError → LocalJournalError) (r : Result LocalJournalError A)
    → map_err f r ≡ stuck
    → r ≡ stuck
map_err_answers f (ok a) h = cc
map_err_answers f (err e) h = cc
map_err_answers f stuck h = refl

parse_extent_answers : (prefix : Bytes) → parse_extent prefix ≢ stuck
unfolding parse_extent total_len
parse_extent_answers prefix h = ground arith

abbrev size_of : {K : Type 0} → FrameRead K → ℕ
size_of (complete frame encoded_len) = encoded_len
size_of incomplete_byte_tail = 0

module _ {K : Type 0} (sha : Sha256) (pc : Postcard (FrameHeader K)) where
  decode_body_answers :
      (bytes : Bytes) (extent : FrameExtent) (header : FrameHeader K)
      → decode_body sha pc bytes extent header ≢ stuck
  unfolding decode_body require_canonical
  decode_body_answers bytes extent header h = ground arith

  decode_extent_answers :
      (bytes : Bytes) (extent : FrameExtent) → decode_extent sha pc bytes extent ≢ stuck
  unfolding decode_extent
  decode_extent_answers bytes extent h =
      let body = extent.total - 32 in
      let header : Result LocalJournalError (FrameHeader K) =
        lift decode (pc.from_bytes (slice 20 (20 + extent.header_len) bytes)) in
      let past_length = refuse_if-stuck (not (extent.total == length bytes)) _ _ h in
      let past_checksum =
        refuse_if-stuck (not (bytes_eq (drop body bytes) (of sha (take body bytes)))) _
          (header >>= decode_body sha pc bytes extent) past_length in
      elim (bind_stuck header (decode_body sha pc bytes extent) past_checksum) [
        | inl none_read ↦
            lift_answers decode (pc.from_bytes (slice 20 (20 + extent.header_len) bytes)) none_read
        | inr (found, read, rest) ↦ decode_body_answers bytes extent found rest
      ]

  pub decode_frame_answers : (bytes : Bytes) → decode_frame sha pc bytes ≢ stuck
  unfolding decode_frame
  decode_frame_answers bytes h =
      let past_bound = refuse_if-stuck (ltb max_frame_bytes (length bytes)) _ _ h in
      let past_short =
        refuse_if-stuck (ltb (length bytes) min_frame_bytes) _
          (parse_extent (take 20 bytes) >>= decode_extent sha pc bytes) past_bound in
      elim (bind_stuck (parse_extent (take 20 bytes)) (decode_extent sha pc bytes) past_short) [
        | inl none_read ↦ parse_extent_answers (take 20 bytes) none_read
        | inr (found, read, rest) ↦ decode_extent_answers bytes found rest
      ]

  pub read_exact_answers : (n : ℕ) (reader : Bytes) → read_exact n reader ≢ stuck
  unfolding read_exact
  read_exact_answers n reader h = ground arith

  read_body_answers :
      (prefix : Bytes) (offset total : ℕ) (read : Bytes × Bytes)
      → read_body sha pc prefix offset total read ≢ stuck
  unfolding read_body
  read_body_answers prefix offset total (body, rest) h =
      let decoded : Result LocalJournalError (Frame K) = decode_frame sha pc (prefix ++ body) in
      elim (bind_stuck (map_err (λ cause. corrupt_segment offset (shown cause)) decoded)
        (λ frame. ok (complete frame total, rest)) h) [
          | inl none_read ↦
              decode_frame_answers (prefix ++ body) (map_err_answers _ decoded none_read)
          | inr (found, read, e) ↦ cc (e)
        ]

  read_extent_answers :
      (prefix reader : Bytes) (offset remaining : ℕ) (extent : FrameExtent)
      → read_extent sha pc prefix reader offset remaining extent ≢ stuck
  unfolding read_extent
  read_extent_answers prefix reader offset remaining extent h =
      elim (Bool-cases (ltb remaining extent.total)) [
        | inl over ↦
            let e : ◌≡◌ {A = Result LocalJournalError (FrameRead K × Bytes)}
                (err (corrupt_segment offset (declared_length extent.total remaining))) stuck =
              rw over at h in
            absurd (cc (e))
        | inr fits ↦
            let run : (read_exact (extent.total - 20) reader
                  >>= read_body sha pc prefix offset extent.total)
                ≡ stuck =
              rw fits at h in
            elim (bind_stuck (read_exact (extent.total - 20) reader)
              (read_body sha pc prefix offset extent.total) run) [
                | inl none_read ↦ read_exact_answers (extent.total - 20) reader none_read
                | inr (found, read, e) ↦ read_body_answers prefix offset extent.total found e
              ]
      ]

  read_prefix_answers :
      (offset remaining : ℕ) (read : Bytes × Bytes)
      → read_prefix sha pc offset remaining read ≢ stuck
  unfolding read_prefix
  read_prefix_answers offset remaining (prefix, reader) h =
      elim (bind_stuck
        (map_err (λ cause. corrupt_segment offset (shown cause)) (parse_extent prefix))
        (read_extent sha pc prefix reader offset remaining) h) [
          | inl none_read ↦
              parse_extent_answers prefix (map_err_answers _ (parse_extent prefix) none_read)
          | inr (found, read, e) ↦ read_extent_answers prefix reader offset remaining found e
        ]

  read_frame_at_answers :
      (reader : Bytes) (offset file_len : ℕ) → read_frame_at sha pc reader offset file_len ≢ stuck
  unfolding read_frame_at
  read_frame_at_answers reader offset file_len h =
      elim (Bool-cases (ltb (file_len - offset) min_frame_bytes)) [
        | inl short ↦
            let e : ◌≡◌ {A = Result LocalJournalError (FrameRead K × Bytes)}
                (ok (incomplete_byte_tail, reader)) stuck =
              rw short at h in
            absurd (cc (e))
        | inr long ↦
            let run : (read_exact 20 reader >>= read_prefix sha pc offset (file_len - offset))
                ≡ stuck =
              rw long at h in
            elim (bind_stuck (read_exact 20 reader) (read_prefix sha pc offset (file_len - offset))
              run) [
                | inl none_read ↦ read_exact_answers 20 reader none_read
                | inr (found, read, e) ↦ read_prefix_answers offset (file_len - offset) found e
              ]
      ]

  scan_frame_answers :
      (device_id : Bytes) (frame : Frame K) (encoded_len : ℕ) (scan : SegmentScan K)
      → scan_frame sha pc device_id frame encoded_len scan ≢ stuck
  unfolding scan_frame
  scan_frame_answers device_id frame encoded_len scan h = ground arith

  scan_frame-extent :
      (device_id : Bytes) (frame : Frame K) (encoded_len : ℕ) (scan next : SegmentScan K)
      → scan_frame sha pc device_id frame encoded_len scan ≡ ok next
      → next.committed_bytes ≡ scan.committed_bytes + encoded_len
  unfolding scan_frame
  scan_frame-extent device_id frame encoded_len scan next h = ground arith

  IsBytes-back : (front back : Bytes) → IsBytes (front ++ back) → IsBytes back
  IsBytes-back [] back h = h
  IsBytes-back (x ∷ front) back h = IsBytes-back front back h.1

  scan_read_answers :
      (again : Bytes → SegmentScan K → Result LocalJournalError (SegmentScan K))
      (device_id reader : Bytes) (file_len : ℕ) (scan : SegmentScan K) (read : FrameRead K × Bytes)
      → IsBytes reader
      → scan.committed_bytes + length reader ≡ file_len
      → read_frame_at sha pc reader scan.committed_bytes file_len ≡ ok read
      → ((rest : Bytes) (next : SegmentScan K)
          → IsBytes rest
          → next.committed_bytes + length rest ≡ file_len
          → length rest < length reader
          → again rest next ≢ stuck)
      → scan_read sha pc again device_id scan read ≢ stuck
  unfolding scan_read
  scan_read_answers again device_id reader file_len scan (incomplete_byte_tail, rest) b n e ih h =
      cc
  scan_read_answers again device_id reader file_len scan (complete frame encoded_len, rest) b n e ih
        h =
      elim (read_frame_at_sound sha pc reader scan.committed_bytes file_len
        (complete frame encoded_len) rest b n e) [
          | inl (short, tail) ↦ absurd (cc (tail))
          | inr (found, front, same, cut, encoded) ↦
              let size : encoded_len ≡ length front = ap size_of same in
              let (header_len, parsed, large, small) =
                encode_of-extent sha pc found front encoded in
              let behind : IsBytes rest = IsBytes-back front rest (rw cut at b) in
              let whole : length reader ≡ length front + length rest =
                ap length cut ∙ length-append front rest in
              elim (bind_stuck (scan_frame sha pc device_id frame encoded_len scan) (again rest)
                h) [
                  | inl none_scanned ↦
                      scan_frame_answers device_id frame encoded_len scan none_scanned
                  | inr (next, scanned_next, stops) ↦
                      let extent =
                        scan_frame-extent device_id frame encoded_len scan next scanned_next in
                      ih rest next behind (omega (arith, extent, size, whole, n))
                        (omega (arith, whole, large)) stops
                ]
        ]

  scan_loop_answers :
      (fuel : ℕ) (device_id reader : Bytes) (file_len : ℕ) (scan : SegmentScan K)
      → IsBytes reader
      → scan.committed_bytes + length reader ≡ file_len
      → length reader < fuel
      → scan_loop sha pc fuel device_id file_len reader scan ≢ stuck
  unfolding scan_loop
  scan_loop_answers zero device_id reader file_len scan b n enough h = absurd (omega arith)
  scan_loop_answers (suc fuel) device_id reader file_len scan b n enough h =
      elim (Bool-cases (ltb scan.committed_bytes file_len)) [
        | inr at_end ↦
            let e : ◌≡◌ {A = Result LocalJournalError (SegmentScan K)} (ok scan) stuck =
              rw at_end at h in
            absurd (cc (e))
        | inl more ↦
            let again : Bytes → SegmentScan K → Result LocalJournalError (SegmentScan K) =
              scan_loop sha pc fuel device_id file_len in
            let read : Result LocalJournalError (FrameRead K × Bytes) =
              read_frame_at sha pc reader scan.committed_bytes file_len in
            let run : (read >>= scan_read sha pc again device_id scan) ≡ stuck = rw more at h in
            elim (bind_stuck read (scan_read sha pc again device_id scan) run) [
              | inl none_read ↦ read_frame_at_answers reader scan.committed_bytes file_len none_read
              | inr (found, done, stops) ↦
                  scan_read_answers again device_id reader file_len scan found b n done
                    (λ rest next b' n' shorter.
                      scan_loop_answers fuel device_id rest file_len next b' n' (omega arith))
                    stops
            ]
      ]

  -- The scan of every file of bytes answers, with a scan or with an error: its loop ends before
  -- its fuel does.
  pub scan_segment_answers :
      (file device_id : Bytes) (base_sequence : ℕ)
      → IsBytes file
      → scan_segment sha pc file device_id base_sequence ≢ stuck
  unfolding scan_segment
  scan_segment_answers file device_id base_sequence b h =
      let past_bound = refuse_if-stuck (ltb max_segment_bytes (length file)) _ _ h in
      scan_loop_answers (suc (length file)) device_id file (length file) _ b (omega arith)
        (omega arith) past_bound
