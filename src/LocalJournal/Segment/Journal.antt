-- ===== src/LocalJournal/Segment/Journal.antt =====
-- What a segment's file stands for: the frames of one device in sequence, one encoding behind the
-- other. `read_frame_at` on such bytes, and on any.
use tine_storage.Base.{
  ℕ, ◌+◌, ◌-◌, ◌≤◌, ◌<◌, ◌≡◌, sym, ap, ◌∙◌, List, [], ◌∷◌, ◌++◌, Bytes, IsBytes, length, take, drop,
  ltb, ltb→lt, le→ltb, Bool-cases, map_err-eq-ok, Result, ok, ◌>>=◌, map_err, >>=-eq-ok, arith,
  length-append, length-take, take-append-drop, take-append_at, drop-append_at, ◌⊎◌, inl, inr,
  All-take, All-drop, All-append, append_assoc,
}
use tine_storage.ContentDigest.{Sha256}
use tine_storage.Postcard.{Postcard}
use tine_storage.LocalJournal.Errors.{LocalJournalError, shown}
use tine_storage.LocalJournal.Errors.LocalJournalError.{corrupt_segment}
use tine_storage.LocalJournal.Frame.{
  FrameHeader, Frame, FrameExtent, min_frame_bytes, encode_of, decode_frame, parse_extent,
}
use tine_storage.LocalJournal.Frame.RoundTrip.{
  decode_frame-encode_frame, encode_of-decode_frame, encode_of-extent,
}
use tine_storage.LocalJournal.Reader.{
  FrameRead, complete, incomplete_byte_tail, read_exact, read_body, read_extent, read_prefix,
  read_frame_at,
}

pub read_exact-append :
    (n : ℕ) (xs ys : Bytes) → length xs ≡ n → read_exact n (xs ++ ys) ≡ ok (xs, ys)
unfolding read_exact
read_exact-append n xs ys h = rw (
  le→ltb (length (xs ++ ys)) n (omega (arith, length-append xs ys)),
  take-append_at n xs ys h,
  drop-append_at n xs ys h,
)

pub read_exact_sound :
    (n : ℕ) (reader front rest : Bytes)
    → read_exact n reader ≡ ok (front, rest)
    → (n ≤ length reader) × (front ≡ take n reader) × (rest ≡ drop n reader)
unfolding read_exact
read_exact_sound n reader front rest h = ground arith

module _ {K : Type 0} (sha : Sha256) (pc : Postcard (FrameHeader K)) where
  -- `bytes` is the encoding of `frames`, which device `device_id` wrote from `sequence` on.
  abbrev pub Journal : Bytes → ℕ → List (Frame K) → Bytes → Type 0
  Journal device_id sequence [] bytes = bytes ≡ []
  Journal device_id sequence (frame ∷ frames) bytes =
      (front : Bytes) × (rest : Bytes) × (bytes ≡ front ++ rest)
      × (encode_of sha pc frame ≡ ok front)
      × (frame.device_id ≡ device_id)
      × (frame.sequence ≡ sequence)
      × Journal device_id (sequence + 1) frames rest

  -- A frame that comes in two parts, the prefix and what is behind it.
  read_parts :
      (frame : Frame K) (a b rest : Bytes) (h offset file_len : ℕ)
      → length a ≡ 20
      → parse_extent a ≡ ok (record { header_len = h; total = length (a ++ b) })
      → decode_frame sha pc (a ++ b) ≡ ok frame
      → 52 ≤ length (a ++ b)
      → offset + length (a ++ (b ++ rest)) ≡ file_len
      → read_frame_at sha pc (a ++ (b ++ rest)) offset file_len
        ≡ ok (complete frame (length (a ++ b)), rest)
  unfolding read_frame_at read_prefix read_extent read_body
  read_parts frame a b rest h offset file_len la parsed decoded large n =
      let room : length (a ++ b) ≤ file_len - offset =
        omega (arith, length-append a b, length-append a (b ++ rest), length-append b rest) in
      let body : length b ≡ length (a ++ b) - 20 = omega (arith, length-append a b) in
      rw (
        le→ltb (file_len - offset) 52 (omega arith),
        read_exact-append 20 a (b ++ rest) la,
        parsed,
        le→ltb (file_len - offset) (length (a ++ b)) room,
        read_exact-append (length (a ++ b) - 20) b rest body,
        decoded,
      )

  -- The encoding of a frame is read back, and what follows it is left.
  pub read_frame_at-encoded :
      (frame : Frame K) (front rest : Bytes) (offset file_len : ℕ)
      → encode_of sha pc frame ≡ ok front
      → offset + length (front ++ rest) ≡ file_len
      → read_frame_at sha pc (front ++ rest) offset file_len
        ≡ ok (complete frame (length front), rest)
  read_frame_at-encoded frame front rest offset file_len e n =
      let (h, parsed, large, small) = encode_of-extent sha pc frame front e in
      let a = take 20 front in
      let b = drop 20 front in
      let whole : a ++ b ≡ front = take-append-drop 20 front in
      let decoded =
        decode_frame-encode_frame sha pc frame.device_id frame.sequence frame.payload_kind
          frame.payload front e in
      let split : a ++ (b ++ rest) ≡ front ++ rest =
        sym (append_assoc a b rest) ∙ ap (λ l. l ++ rest) whole in
      let read =
        read_parts frame a b rest h offset file_len (omega (arith, length-take 20 front))
          (rw whole parsed) (rw whole decoded) (rw whole large) (rw split n) in
      rw (split, whole) at read

  declared_total :
      (e : FrameExtent) (h n : ℕ)
      → ◌≡◌ {A = Result LocalJournalError FrameExtent}
          (ok e)
          (ok (record { header_len = h; total = n }))
      → e.total ≡ n
  declared_total e h n p = ground arith

  returned_frame :
      (r : FrameRead K) (rest : Bytes) (frame : Frame K) (front left : Bytes) (total : ℕ)
      {reader : Bytes}
      → total ≡ length front
      → ◌≡◌ {A = Result LocalJournalError (FrameRead K × Bytes)}
          (ok (complete frame total, left))
          (ok (r, rest))
      → reader ≡ front ++ left
      → encode_of sha pc frame ≡ ok front
      → (f : Frame K) × (bytes : Bytes) × (r ≡ complete f (length bytes))
        × (reader ≡ bytes ++ rest)
        × (encode_of sha pc f ≡ ok bytes)
  returned_frame r rest frame front left total n h e enc =
      (frame, front, ground arith, ground arith, enc)

  -- The frame behind a parsed prefix: the reader began with its encoding.
  read_prefix_sound :
      (reader : Bytes) (offset remaining : ℕ) (r : FrameRead K) (rest : Bytes)
      → IsBytes reader
      → 20 ≤ length reader
      → read_prefix sha pc offset remaining (take 20 reader, drop 20 reader) ≡ ok (r, rest)
      → (frame : Frame K) × (front : Bytes) × (r ≡ complete frame (length front))
        × (reader ≡ front ++ rest)
        × (encode_of sha pc frame ≡ ok front)
  unfolding read_prefix read_extent read_body
  read_prefix_sound reader offset remaining r rest b n h =
      let (e, parsed', h1) =
        >>=-eq-ok
          (map_err (λ cause. corrupt_segment offset (shown cause)) (parse_extent (take 20 reader)))
          (read_extent sha pc (take 20 reader) (drop 20 reader) offset remaining) (r, rest) h in
      let parsed = map_err-eq-ok _ _ e parsed' in
      let h2 : (read_exact (e.total - 20) (drop 20 reader)
            >>= read_body sha pc (take 20 reader) offset e.total)
          ≡ ok (r, rest) =
        ground arith in
      let ((body, left), taken, h3) =
        >>=-eq-ok (read_exact (e.total - 20) (drop 20 reader))
          (read_body sha pc (take 20 reader) offset e.total) (r, rest) h2 in
      let (enough, is_body, is_left) =
        read_exact_sound (e.total - 20) (drop 20 reader) body left taken in
      let (frame, decoded', h4) =
        >>=-eq-ok
          (map_err (λ cause. corrupt_segment offset (shown cause))
            (decode_frame sha pc (take 20 reader ++ body)))
          (λ frame. ok (complete frame e.total, left)) (r, rest) h3 in
      let front = take 20 reader ++ body in
      let body_bytes : IsBytes body =
        rw is_body (All-take _ (e.total - 20) (drop 20 reader) (All-drop _ 20 reader b)) in
      let encoded =
        encode_of-decode_frame sha pc front frame
          (All-append _ (take 20 reader) body (All-take _ 20 reader b) body_bytes)
          (map_err-eq-ok _ _ frame decoded') in
      let (hl, parsed', large, small) = encode_of-extent sha pc frame front encoded in
      let same : take 20 front ≡ take 20 reader =
        take-append_at 20 (take 20 reader) body (omega (arith, length-take 20 reader)) in
      let total : e.total ≡ length front =
        declared_total e hl (length front) (cc (parsed, parsed', ap parse_extent same)) in
      let whole : reader ≡ front ++ left = cc (
        take-append-drop 20 reader,
        take-append-drop (e.total - 20) (drop 20 reader),
        is_body,
        is_left,
        append_assoc (take 20 reader) body left,
      ) in
      returned_frame r rest frame front left e.total total h4 whole encoded

  -- A read that succeeds has met a short tail, or the encoding of the frame that it returns.
  pub read_frame_at_sound :
      (reader : Bytes) (offset file_len : ℕ) (r : FrameRead K) (rest : Bytes)
      → IsBytes reader
      → offset + length reader ≡ file_len
      → read_frame_at sha pc reader offset file_len ≡ ok (r, rest)
      → ((length reader < min_frame_bytes) × (r ≡ incomplete_byte_tail))
        ⊎ ((frame : Frame K) × (front : Bytes) × (r ≡ complete frame (length front))
            × (reader ≡ front ++ rest)
            × (encode_of sha pc frame ≡ ok front))
  unfolding read_frame_at read_exact
  read_frame_at_sound reader offset file_len r rest b n h =
      elim (Bool-cases (ltb (length reader) 52)) [
        | inl short ↦ inl (ltb→lt _ _ short, ground arith)
        | inr long ↦ inr (
            read_prefix_sound reader offset (file_len - offset) r rest b (ground arith)
              (ground arith))
      ]
