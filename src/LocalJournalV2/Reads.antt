-- ===== src/LocalJournalV2/Reads.antt =====
-- The reads of one frame by read_complete_frame of src/local_journal_v2.rs: they answer, and a frame
-- that is read has bytes.
use tine_storage.Base.{
  ℕ, ◌-◌, ◌<◌, ◌≡◌, ◌≢◌, sym, ap, ◌∙◌, not, ◌++◌, Bytes, length, take, drop, slice, ltb, bytes_eq,
  from_be_bytes, ok_or, Result, ok, stuck, ◌>>=◌, ◌>>◌, >>=-eq-ok, refuse_if, refuse_if->>, map_err,
  arith, length-append, length-take, Bool-cases, inl, inr,
}
use tine_storage.ContentDigest.{Sha256}
use tine_storage.Postcard.{Postcard}
use tine_storage.LocalJournal.Errors.{LocalJournalError, shown, declared_length, message}
use tine_storage.LocalJournal.Errors.LocalJournalError.{corrupt_segment, frame_too_large}
use tine_storage.LocalJournal.Frame.{
  FrameHeader, Frame, frame_magic, max_frame_bytes, total_len, decode_frame,
}
use tine_storage.LocalJournal.Reader.{read_exact}
use tine_storage.LocalJournal.Segment.Answers.{
  bind_stuck, refuse_if-stuck, map_err_answers, decode_frame_answers, read_exact_answers,
}
use tine_storage.LocalJournalV2.Segment.{
  checked_sub, complete_body, complete_total, complete_prefix, read_complete_frame,
}

total_len_answers : (header_len payload_len : ℕ) → total_len header_len payload_len ≢ stuck
unfolding total_len
total_len_answers header_len payload_len h = ground arith

checked_sub_answers : (x y : ℕ) (e : LocalJournalError) → ok_or e (checked_sub x y) ≢ stuck
unfolding checked_sub
checked_sub_answers x y e h = ground arith

read_exact-length :
    (n : ℕ) (reader : Bytes) (read : Bytes × Bytes)
    → read_exact n reader ≡ ok read
    → length read.0 ≡ n
unfolding read_exact
read_exact-length n reader read h = elim (Bool-cases (ltb (length reader) n)) [
  | inl short ↦ absurd (cc (rw short at h))
  | inr enough ↦
      let same : ◌≡◌ {A = Result LocalJournalError (Bytes × Bytes)}
          (ok (take n reader, drop n reader)) (ok read) =
        rw enough at h in
      let front : take n reader ≡ read.0 = cc same in
      ap length (sym front) ∙ ground (arith, enough, length-take n reader)
]

module _ {K : Type 0} (sha : Sha256) (pc : Postcard (FrameHeader K)) where
  complete_body_answers :
      (offset : ℕ) (prefix : Bytes) (read : Bytes × Bytes)
      → complete_body sha pc offset prefix read ≢ stuck
  unfolding complete_body
  complete_body_answers offset prefix (body, rest) h =
      let decoded : Result LocalJournalError (Frame K) = decode_frame sha pc (prefix ++ body) in
      elim (bind_stuck (map_err (λ cause. corrupt_segment offset (shown cause)) decoded)
        (λ frame. ok (frame, prefix ++ body)) h) [
          | inl none_read ↦
              decode_frame_answers sha pc (prefix ++ body) (map_err_answers _ decoded none_read)
          | inr (found, read, e) ↦ cc e
        ]

  complete_total_answers :
      (offset remaining : ℕ) (prefix rest : Bytes) (total : ℕ)
      → complete_total sha pc offset remaining prefix rest total ≢ stuck
  unfolding complete_total
  complete_total_answers offset remaining prefix rest total h =
      let body = read_exact (total - 20) rest in
      let past_bound =
        refuse_if-stuck (ltb max_frame_bytes total) (frame_too_large total)
          (refuse_if (ltb remaining total)
              (corrupt_segment offset (declared_length total remaining))
            >> (body >>= complete_body sha pc offset prefix))
          h in
      let past_length = refuse_if-stuck (ltb remaining total) _ _ past_bound in
      elim (bind_stuck body (complete_body sha pc offset prefix) past_length) [
        | inl none_read ↦ read_exact_answers sha pc (total - 20) rest none_read
        | inr (found, read, e) ↦ complete_body_answers offset prefix found e
      ]

  complete_prefix_answers :
      (offset remaining : ℕ) (read : Bytes × Bytes)
      → complete_prefix sha pc offset remaining read ≢ stuck
  unfolding complete_prefix
  complete_prefix_answers offset remaining (prefix, rest) h =
      let total =
        total_len (from_be_bytes (slice 8 12 prefix)) (from_be_bytes (slice 12 20 prefix)) in
      let past_magic =
        refuse_if-stuck (not (bytes_eq (take 8 prefix) frame_magic))
          (corrupt_segment offset (message "frame magic is invalid"))
          (total >>= complete_total sha pc offset remaining prefix rest) h in
      elim (bind_stuck total (complete_total sha pc offset remaining prefix rest) past_magic) [
        | inl none_total ↦ total_len_answers _ _ none_total
        | inr (found, read, e) ↦ complete_total_answers offset remaining prefix rest found e
      ]

  pub read_complete_frame_answers :
      (file : Bytes) (offset limit : ℕ) → read_complete_frame sha pc file offset limit ≢ stuck
  unfolding read_complete_frame
  read_complete_frame_answers file offset limit h =
      let left =
        ok_or (corrupt_segment offset (message "frame offset exceeds committed extent"))
          (checked_sub limit offset) in
      elim (bind_stuck left _ h) [
        | inl none_left ↦ checked_sub_answers limit offset _ none_left
        | inr (remaining, enough, run) ↦
            let past_short =
              refuse_if-stuck (ltb remaining 52)
                (corrupt_segment offset (message "committed frame is truncated"))
                (read_exact 20 (drop offset file) >>= complete_prefix sha pc offset remaining)
                run in
            elim (bind_stuck (read_exact 20 (drop offset file))
              (complete_prefix sha pc offset remaining) past_short) [
                | inl none_read ↦ read_exact_answers sha pc 20 (drop offset file) none_read
                | inr (found, read, e) ↦ complete_prefix_answers offset remaining found e
              ]
      ]

  complete_body-length :
      (offset : ℕ) (prefix : Bytes) (read : Bytes × Bytes) (frame : Frame K) (bytes : Bytes)
      → complete_body sha pc offset prefix read ≡ ok (frame, bytes)
      → 0 < length prefix
      → 0 < length bytes
  unfolding complete_body
  complete_body-length offset prefix (body, rest) frame bytes h some_prefix =
      let (found, decoded, same) =
        >>=-eq-ok
          (map_err (λ cause. corrupt_segment offset (shown cause))
            (decode_frame sha pc (prefix ++ body)))
          (λ f. ok (f, prefix ++ body)) (frame, bytes) h in
      let whole : prefix ++ body ≡ bytes = cc same in
      omega (arith, some_prefix, ap length whole, length-append prefix body)

  -- A frame that is read has bytes.
  pub read_complete_frame-length :
      (file : Bytes) (offset limit : ℕ) (frame : Frame K) (bytes : Bytes)
      → read_complete_frame sha pc file offset limit ≡ ok (frame, bytes)
      → 0 < length bytes
  unfolding read_complete_frame complete_prefix complete_total
  read_complete_frame-length file offset limit frame bytes h =
      let left =
        ok_or (corrupt_segment offset (message "frame offset exceeds committed extent"))
          (checked_sub limit offset) in
      let (remaining, enough, run) = >>=-eq-ok left _ (frame, bytes) h in
      let (g, run') =
        refuse_if->> (ltb remaining 52)
          (corrupt_segment offset (message "committed frame is truncated"))
          (read_exact 20 (drop offset file) >>= complete_prefix sha pc offset remaining)
          (frame, bytes) run in
      let ((prefix, rest), read, behind) =
        >>=-eq-ok (read_exact 20 (drop offset file)) (complete_prefix sha pc offset remaining)
          (frame, bytes) run' in
      let sum =
        total_len (from_be_bytes (slice 8 12 prefix)) (from_be_bytes (slice 12 20 prefix)) in
      let (magic, behind') =
        refuse_if->> (not (bytes_eq (take 8 prefix) frame_magic))
          (corrupt_segment offset (message "frame magic is invalid"))
          (sum >>= complete_total sha pc offset remaining prefix rest) (frame, bytes) behind in
      let (total, added, last) =
        >>=-eq-ok sum (complete_total sha pc offset remaining prefix rest) (frame, bytes) behind' in
      let (bound, last') =
        refuse_if->> (ltb max_frame_bytes total) (frame_too_large total)
          (refuse_if (ltb remaining total)
              (corrupt_segment offset (declared_length total remaining))
            >> (read_exact (total - 20) rest >>= complete_body sha pc offset prefix))
          (frame, bytes) last in
      let (fits, last'') =
        refuse_if->> (ltb remaining total)
          (corrupt_segment offset (declared_length total remaining))
          (read_exact (total - 20) rest >>= complete_body sha pc offset prefix) (frame, bytes)
          last' in
      let (body, taken, made) =
        >>=-eq-ok (read_exact (total - 20) rest) (complete_body sha pc offset prefix) (frame, bytes)
          last'' in
      let twenty = read_exact-length 20 (drop offset file) (prefix, rest) read in
      complete_body-length offset prefix body frame bytes made (omega (arith, twenty))
