-- ===== src/LocalJournal/Segment/Scan.antt =====
-- `scan_segment` finds the frames of a journal and leaves its short tail, and finds nothing else.
use tine_storage.Base.{
  ℕ, zero, suc, ◌+◌, ◌-◌, ◌*◌, ◌^◌, ◌≤◌, ◌<◌, ◌≡◌, refl, sym, ap, ◌∙◌, Option, none, some, List, [],
  ◌∷◌, ◌++◌, Bytes, IsBytes, length, ltb, lt→ltb, le→ltb, ==_refl, bytes_eq_refl, bytes_eq_sound,
  Result, ok, ◌>>=◌, >>=-eq-ok, arith, length-append, append_assoc, inl, inr, All-drop, drop-append,
  Bool-cases,
}
use native.Mathlib.Nat.{zero-add}
use tine_storage.ContentDigest.{Sha256}
use tine_storage.Postcard.{Postcard}
use tine_storage.LocalJournal.Errors.{LocalJournalError}
use tine_storage.LocalJournal.Frame.{FrameHeader, Frame, encode_of, min_frame_bytes}
use tine_storage.LocalJournal.Frame.RoundTrip.{encode_of-extent}
use tine_storage.LocalJournal.Reader.{
  FrameRead, complete, incomplete_byte_tail, SegmentScan, read_frame_at, scan_frame, scan_read,
  scan_loop, scan_segment, max_segment_bytes,
}
use tine_storage.LocalJournal.Segment.Journal.{Journal, read_frame_at-encoded, read_frame_at_sound}

abbrev pub last_or {ℓ} : {A : Type ℓ} → Option A → List A → Option A
last_or o [] = o
last_or o (x ∷ xs) = last_or (some x) xs

module _ {K : Type 0} where
  -- The loop's state after `frames`, which take `size` bytes.
  abbrev pub scanned : SegmentScan K → List (Frame K) → ℕ → SegmentScan K
  scanned scan frames size = record {
    committed_bytes = scan.committed_bytes + size;
    frames_recovered = scan.frames_recovered + length frames;
    next_sequence = scan.next_sequence + length frames;
    last_frame = last_or scan.last_frame frames;
  }

  scanned-nil : (scan : SegmentScan K) → scanned scan [] 0 ≡ scan
  scanned-nil scan = ground arith

  abbrev pub scan_next : SegmentScan K → Frame K → ℕ → SegmentScan K
  scan_next scan frame size = record {
    committed_bytes = scan.committed_bytes + size;
    frames_recovered = scan.frames_recovered + 1;
    next_sequence = scan.next_sequence + 1;
    last_frame = some frame;
  }

  scanned-cons :
      (scan : SegmentScan K) (frame : Frame K) (frames : List (Frame K)) (m n : ℕ)
      → scanned (scan_next scan frame m) frames n ≡ scanned scan (frame ∷ frames) (m + n)
  scanned-cons scan frame frames m n = ground arith

module _ {K : Type 0} (sha : Sha256) (pc : Postcard (FrameHeader K)) where
  scan_frame-next :
      (d : Bytes) (frame : Frame K) (size : ℕ) (scan : SegmentScan K)
      → frame.device_id ≡ d
      → frame.sequence ≡ scan.next_sequence
      → scan.next_sequence + 1 < 2 ^ 64
      → scan_frame sha pc d frame size scan ≡ ok (scan_next scan frame size)
  unfolding scan_frame
  scan_frame-next d frame size scan device sequence room = rw (
    device,
    sequence,
    bytes_eq_refl d,
    ==_refl scan.next_sequence,
    lt→ltb (scan.next_sequence + 1) (2 ^ 64) room,
  )

  scan_frame_sound :
      (d : Bytes) (frame : Frame K) (size : ℕ) (scan out : SegmentScan K)
      → scan_frame sha pc d frame size scan ≡ ok out
      → (frame.device_id ≡ d)
        × (frame.sequence ≡ scan.next_sequence)
        × (scan.next_sequence + 1 < 2 ^ 64)
        × (out ≡ scan_next scan frame size)
  unfolding scan_frame
  scan_frame_sound d frame size scan out h = ground (arith, bytes_eq_sound frame.device_id d)

  -- Each frame of a journal takes 52 bytes at least.
  pub length-frames-le :
      (d : Bytes) (s : ℕ) (frames : List (Frame K)) (bytes : Bytes)
      → Journal sha pc d s frames bytes
      → 52 * length frames ≤ length bytes
  length-frames-le d s [] bytes j = omega arith
  length-frames-le d s (frame ∷ frames) bytes (front, rest, e, enc, dev, seq, j) = omega (
    arith,
    ap length e,
    length-append front rest,
    (encode_of-extent sha pc frame front enc).2,
    length-frames-le d (s + 1) frames rest j,
  )

  -- On a tail that is too short for a frame the loop ends.
  scan_loop_tail :
      (fuel : ℕ) (d : Bytes) (file_len : ℕ) (tail : Bytes) (scan : SegmentScan K)
      → length tail < 52
      → scan.committed_bytes + length tail ≡ file_len
      → scan_loop sha pc (suc fuel) d file_len tail scan ≡ ok scan
  unfolding scan_loop scan_read read_frame_at
  scan_loop_tail fuel d file_len tail scan short n = ground arith

  -- One round over a frame.
  scan_loop_step :
      (fuel : ℕ) (d : Bytes) (file_len : ℕ) (front rest : Bytes) (frame : Frame K)
      (scan : SegmentScan K)
      → encode_of sha pc frame ≡ ok front
      → scan.committed_bytes + length (front ++ rest) ≡ file_len
      → frame.device_id ≡ d
      → frame.sequence ≡ scan.next_sequence
      → scan.next_sequence + 1 < 2 ^ 64
      → scan_loop sha pc (suc fuel) d file_len (front ++ rest) scan
        ≡ scan_loop sha pc fuel d file_len rest (scan_next scan frame (length front))
  unfolding scan_loop scan_read
  scan_loop_step fuel d file_len front rest frame scan enc n dev seq room =
      let (h, parsed, large, small) = encode_of-extent sha pc frame front enc in
      rw (
        lt→ltb scan.committed_bytes file_len (omega (arith, length-append front rest)),
        read_frame_at-encoded sha pc frame front rest scan.committed_bytes file_len enc n,
        scan_frame-next d frame (length front) scan dev seq room,
      )

  -- The rounds over a journal, whatever follows it.
  pub scan_loop-frames :
      (frames : List (Frame K)) (fuel : ℕ) (d : Bytes) (file_len : ℕ) (bytes behind : Bytes)
      (scan : SegmentScan K)
      → Journal sha pc d scan.next_sequence frames bytes
      → scan.committed_bytes + length (bytes ++ behind) ≡ file_len
      → scan.next_sequence + length frames < 2 ^ 64
      → scan_loop sha pc (length frames + fuel) d file_len (bytes ++ behind) scan
        ≡ scan_loop sha pc fuel d file_len behind (scanned scan frames (length bytes))
  scan_loop-frames [] fuel d file_len bytes behind scan j n room =
      rw (j, zero-add, scanned-nil scan)
  scan_loop-frames (frame ∷ frames) fuel d file_len bytes behind scan
        (front, rest, e, enc, dev, seq, j) n room =
      let split : bytes ++ behind ≡ front ++ (rest ++ behind) =
        ap (λ l. l ++ behind) e ∙ append_assoc front rest behind in
      let size : length bytes ≡ length front + length rest =
        ap length e ∙ length-append front rest in
      let rounds : suc (length frames) + fuel ≡ suc (length frames + fuel) = omega arith in
      rw (rounds, split, size, ← scanned-cons scan frame frames (length front) (length rest))
        (scan_loop_step (length frames + fuel) d file_len front (rest ++ behind) frame scan enc
            (rw split at n) dev seq (omega arith)
          ∙ scan_loop-frames frames fuel d file_len rest behind
              (scan_next scan frame (length front)) j
              (omega (arith, ap length split, length-append front (rest ++ behind))) (omega arith))

  -- What a scan of `reader` that ends in `out` has found.
  abbrev pub Found : Bytes → Bytes → SegmentScan K → SegmentScan K → Type 0
  Found d reader scan out =
      (frames : List (Frame K)) × (bytes : Bytes) × (tail : Bytes) × (reader ≡ bytes ++ tail)
      × Journal sha pc d scan.next_sequence frames bytes
      × (length tail < min_frame_bytes)
      × (out ≡ scanned scan frames (length bytes))
      × (out.next_sequence < 2 ^ 64)

  nothing_left :
      (d reader : Bytes) (scan out : SegmentScan K)
      → length reader < min_frame_bytes
      → scan ≡ out
      → scan.next_sequence < 2 ^ 64
      → Found d reader scan out
  nothing_left d reader scan out short e room =
      ([], [], reader, refl, refl, short, sym e ∙ sym (scanned-nil scan), ground arith)

  one_read :
      (d front rest : Bytes) (frame : Frame K) (scan out : SegmentScan K)
      → encode_of sha pc frame ≡ ok front
      → frame.device_id ≡ d
      → frame.sequence ≡ scan.next_sequence
      → Found d rest (scan_next scan frame (length front)) out
      → Found d (front ++ rest) scan out
  one_read d front rest frame scan out enc dev seq (frames, bytes, tail, e, j, short, o, room) = (
    frame ∷ frames,
    front ++ bytes,
    tail,
    ap (λ l. front ++ l) e ∙ sym (append_assoc front bytes tail),
    (front, bytes, refl, enc, dev, seq, j),
    short,
    o
        ∙ scanned-cons scan frame frames (length front) (length bytes)
        ∙ ap (scanned scan (frame ∷ frames)) (sym (length-append front bytes)),
    room,
  )

  scan_read-frame :
      (again : Bytes → SegmentScan K → Result LocalJournalError (SegmentScan K)) (d : Bytes)
      (frame : Frame K) (size : ℕ) (rest : Bytes) (scan out : SegmentScan K)
      → scan_read sha pc again d scan (complete frame size, rest) ≡ ok out
      → (frame.device_id ≡ d)
        × (frame.sequence ≡ scan.next_sequence)
        × (scan.next_sequence + 1 < 2 ^ 64)
        × (again rest (scan_next scan frame size) ≡ ok out)
  unfolding scan_read
  scan_read-frame again d frame size rest scan out h =
      let (scan', e, h') = >>=-eq-ok (scan_frame sha pc d frame size scan) (again rest) out h in
      let (dev, seq, room, next) = scan_frame_sound d frame size scan scan' e in
      (dev, seq, room, rw next at h')

  scan_read-tail :
      (again : Bytes → SegmentScan K → Result LocalJournalError (SegmentScan K)) (d rest : Bytes)
      (scan out : SegmentScan K)
      → scan_read sha pc again d scan (incomplete_byte_tail, rest) ≡ ok out
      → scan ≡ out
  unfolding scan_read
  scan_read-tail again d rest scan out h = cc

  -- The same for the read that the round has made.
  scan_returned :
      (again : Bytes → SegmentScan K → Result LocalJournalError (SegmentScan K)) (d reader : Bytes)
      (file_len : ℕ) (scan out : SegmentScan K) (r : FrameRead K) (rest : Bytes)
      → IsBytes reader
      → scan.committed_bytes + length reader ≡ file_len
      → scan.next_sequence < 2 ^ 64
      → read_frame_at sha pc reader scan.committed_bytes file_len ≡ ok (r, rest)
      → scan_read sha pc again d scan (r, rest) ≡ ok out
      → ((left : Bytes) (scan' : SegmentScan K)
          → IsBytes left
          → scan'.committed_bytes + length left ≡ file_len
          → scan'.next_sequence < 2 ^ 64
          → again left scan' ≡ ok out
          → Found d left scan' out)
      → Found d reader scan out
  scan_returned again d reader file_len scan out r rest b n u64 read h ih =
      elim (read_frame_at_sound sha pc reader scan.committed_bytes file_len r rest b n read) [
        | inl (short, e) ↦
            nothing_left d reader scan out short (scan_read-tail again d rest scan out (rw e at h))
              u64
        | inr (frame, front, e, split, enc) ↦
            let (dev, seq, room, more) =
              scan_read-frame again d frame (length front) rest scan out (rw e at h) in
            let left : IsBytes rest =
              rw (drop-append front rest) at
                (All-drop _ (length front) (front ++ rest) (rw split at b)) in
            let size = ap length split ∙ length-append front rest in
            rw split (
              one_read d front rest frame scan out enc dev seq (
                ih rest (scan_next scan frame (length front)) left (omega (arith, size)) room more))
      ]

  -- One round of the scan, from what the rounds behind it find.
  scan_read_sound :
      (again : Bytes → SegmentScan K → Result LocalJournalError (SegmentScan K)) (d reader : Bytes)
      (file_len : ℕ) (scan out : SegmentScan K)
      → IsBytes reader
      → scan.committed_bytes + length reader ≡ file_len
      → scan.next_sequence < 2 ^ 64
      → (read_frame_at sha pc reader scan.committed_bytes file_len
          >>= scan_read sha pc again d scan)
        ≡ ok out
      → ((rest : Bytes) (scan' : SegmentScan K)
          → IsBytes rest
          → scan'.committed_bytes + length rest ≡ file_len
          → scan'.next_sequence < 2 ^ 64
          → again rest scan' ≡ ok out
          → Found d rest scan' out)
      → Found d reader scan out
  scan_read_sound again d reader file_len scan out b n u64 h ih =
      let (p, read, h') =
        >>=-eq-ok (read_frame_at sha pc reader scan.committed_bytes file_len)
          (scan_read sha pc again d scan) out h in
      scan_returned again d reader file_len scan out p.0 p.1 b n u64 read h' ih

  scan_loop_sound :
      (fuel : ℕ) (d : Bytes) (file_len : ℕ) (reader : Bytes) (scan out : SegmentScan K)
      → IsBytes reader
      → scan.committed_bytes + length reader ≡ file_len
      → scan.next_sequence < 2 ^ 64
      → scan_loop sha pc fuel d file_len reader scan ≡ ok out
      → Found d reader scan out
  unfolding scan_loop
  scan_loop_sound zero d file_len reader scan out b n u64 h = cc
  scan_loop_sound (suc fuel) d file_len reader scan out b n u64 h =
      elim (Bool-cases (ltb scan.committed_bytes file_len)) [
        | inl more ↦
            scan_read_sound (scan_loop sha pc fuel d file_len) d reader file_len scan out b n u64
              (rw more at h)
              (λ rest scan' b' n' room h'.
                scan_loop_sound fuel d file_len rest scan' out b' n' room h')
        | inr at_end ↦ nothing_left d reader scan out (ground arith) (ground arith) u64
      ]

abbrev pub start : {K : Type 0} → ℕ → SegmentScan K
start base_sequence = record {
  committed_bytes = 0;
  frames_recovered = 0;
  next_sequence = base_sequence;
  last_frame = none;
}

module _ {K : Type 0} (sha : Sha256) (pc : Postcard (FrameHeader K)) where
  -- The scan of a file reaches what is behind its journal.
  pub scan_segment-frames :
      (d : Bytes) (base : ℕ) (frames : List (Frame K)) (bytes behind : Bytes)
      → Journal sha pc d base frames bytes
      → length (bytes ++ behind) ≤ max_segment_bytes
      → base + length frames < 2 ^ 64
      → (fuel : ℕ) × (scan_segment sha pc (bytes ++ behind) d base
          ≡ scan_loop sha pc
              (suc fuel)
              d
              (length (bytes ++ behind))
              behind
              (scanned (start base) frames (length bytes)))
  unfolding scan_segment
  scan_segment-frames d base frames bytes behind j bound room =
      let n = length (bytes ++ behind) in
      let fuel = n - length frames in
      let rounds : suc n ≡ length frames + suc fuel =
        omega (arith, length-append bytes behind, length-frames-le sha pc d base frames bytes j) in
      (
        fuel,
        rw (le→ltb max_segment_bytes n bound, rounds)
            (scan_loop-frames sha pc frames (suc fuel) d n bytes behind (start base) j (omega arith)
              room),
      )

  -- The scan of a journal with a tail too short for a frame finds all its frames: it reports their
  -- bytes, their number, the sequence behind them and the last of them.
  pub scan_segment_complete :
      (d : Bytes) (base : ℕ) (frames : List (Frame K)) (bytes tail : Bytes)
      → Journal sha pc d base frames bytes
      → length tail < min_frame_bytes
      → length (bytes ++ tail) ≤ max_segment_bytes
      → base + length frames < 2 ^ 64
      → scan_segment sha pc (bytes ++ tail) d base ≡ ok (scanned (start base) frames (length bytes))
  scan_segment_complete d base frames bytes tail j short bound room =
      let (fuel, e) = scan_segment-frames d base frames bytes tail j bound room in
      e
      ∙ scan_loop_tail sha pc fuel d (length (bytes ++ tail)) tail _ short
          (omega (arith, length-append bytes tail))

  -- A scan that succeeds has found a journal of its device from its base on, followed by a tail too
  -- short for a frame, and reports just that.
  pub scan_segment_sound :
      (file d : Bytes) (base : ℕ) (out : SegmentScan K)
      → IsBytes file
      → base < 2 ^ 64
      → scan_segment sha pc file d base ≡ ok out
      → (length file ≤ max_segment_bytes) × Found sha pc d file (start base) out
  unfolding scan_segment
  scan_segment_sound file d base out b u64 h = (
    ground arith,
    scan_loop_sound sha pc (suc (length file)) d (length file) file (start base) out b (omega arith)
        u64 (ground arith),
  )
