-- ===== src/LocalJournalV2/Journal/Planning.antt =====
-- The frame and the frontier that `append` of src/local_journal_v2.rs plans before its first write,
-- and the names that `LocalJournalSegmentV2Selection::new` chooses.
use tine_storage.Base.{
  ℕ, ◌+◌, ◌^◌, ◌≡◌, ◌≢◌, sym, ap, ◌∙◌, [], not, ◌||◌, ◌++◌, Bytes, length, ltb, some, Result, ok,
  err, stuck, ◌>>=◌, >>=-eq-ok, refuse_if->>, lift, saturating_add, arith, length-append,
  Bool-cases, inl, inr,
}
use tine_storage.ContentDigest.{Sha256, of}
use tine_storage.Postcard.{Postcard}
use tine_storage.LocalJournal.Errors.{LocalJournalError}
use tine_storage.LocalJournal.Errors.LocalJournalError.{segment_too_large, encode}
use tine_storage.LocalJournal.Frame.{FrameHeader, encode_frame, seal_frame, header_of, total_len}
use tine_storage.LocalJournal.Reader.{max_segment_bytes}
use tine_storage.LocalJournal.Segment.{require_safe_segment_name}
use tine_storage.LocalJournal.Segment.Answers.{bind_stuck, lift_answers}
use tine_storage.LocalJournalV2.Frontier.{Frontier, encode_frontier, successor}
use tine_storage.LocalJournalV2.Segment.{Selection}
use tine_storage.LocalJournalV2.Journal.{Journal, plan_append, frontier_suffix, new_selection}

extent_and_sequence : Frontier → Result LocalJournalError Frontier → ℕ × ℕ
extent_and_sequence other (ok frontier) = (frontier.next_sequence, frontier.committed_extent)
extent_and_sequence other (err e) = (0, 0)
extent_and_sequence other stuck = (0, 0)

-- The successor counts one frame and covers its bytes.
pub successor-covers :
    (sha : Sha256) (frontier next : Frontier) (frame : Bytes)
    → successor sha frontier frame ≡ ok next
    → (next.next_sequence ≡ frontier.next_sequence + 1)
      × (next.committed_extent ≡ frontier.committed_extent + length frame)
unfolding successor extent_and_sequence
successor-covers sha frontier next frame h =
    elim (Bool-cases (ltb (frontier.next_sequence + 1) (2 ^ 64))) [
      | inr over ↦ absurd (cc (rw over at h))
      | inl fits ↦
          let extent = frontier.committed_extent + length frame in
          let built : Frontier = record {
            header = frontier.header;
            next_sequence = frontier.next_sequence + 1;
            committed_extent = extent;
            terminal = some (record {
              sequence = frontier.next_sequence;
              encoded_len = length frame;
              frame_digest = of sha frame;
            });
            predecessor_digest = of sha (encode_frontier sha frontier);
          } in
          let (g, made) =
            refuse_if->> (not (ltb extent (2 ^ 64)) || ltb max_segment_bytes extent)
              (segment_too_large (saturating_add frontier.committed_extent (length frame)))
              (ok built) next (rw fits at h) in
          let same = ap (extent_and_sequence frontier) made in
          (sym (ap (λ p. p.0) same), sym (ap (λ p. p.1) same))
    ]

-- The two files of a selection have different names.
pub new_selection-apart :
    (sha : Sha256) (segment_name segment_id device_id : Bytes) (base_sequence : ℕ)
    (selection : Selection)
    → new_selection sha segment_name segment_id device_id base_sequence ≡ ok selection
    → selection.segment_name ≢ selection.frontier_name
unfolding new_selection
new_selection-apart sha segment_name segment_id device_id base_sequence selection h same =
    let (u, safe, rest) = >>=-eq-ok (require_safe_segment_name segment_name) _ selection h in
    let (v, safe_too, made) =
      >>=-eq-ok (require_safe_segment_name (segment_name ++ frontier_suffix)) _ selection rest in
    let first : segment_name ≡ selection.segment_name = ap (names [] (λ s. s.segment_name)) made in
    let second : segment_name ++ frontier_suffix ≡ selection.frontier_name =
      ap (names [] (λ s. s.frontier_name)) made in
    let n : length segment_name ≡ length (segment_name ++ frontier_suffix) =
      ap length (first ∙ same ∙ sym second) in
    omega (arith, n, length-append segment_name frontier_suffix)
  where
    names : Bytes → (Selection → Bytes) → Result LocalJournalError Selection → Bytes
    names other f (ok selection) = f selection
    names other f (err e) = other
    names other f stuck = other

module _ {K : Type 0} (sha : Sha256) (pc : Postcard (FrameHeader K)) where
  encode_frame_answers :
      (device_id : Bytes) (sequence : ℕ) (payload_kind : K) (payload : Bytes)
      → encode_frame sha pc device_id sequence payload_kind payload ≢ stuck
  unfolding encode_frame seal_frame total_len
  encode_frame_answers device_id sequence payload_kind payload h =
      let read = pc.to_allocvec (header_of sha pc device_id sequence payload_kind payload) in
      elim (bind_stuck (lift encode read) (λ header_bytes. seal_frame sha pc header_bytes payload)
        h) [
          | inl none_read ↦ lift_answers encode read none_read
          | inr (header_bytes, written, sealed) ↦ absurd (ground (arith, sealed))
        ]

  successor_answers : (frontier : Frontier) (frame : Bytes) → successor sha frontier frame ≢ stuck
  unfolding successor
  successor_answers frontier frame h = ground arith

  pub plan_append-covers :
      (journal : Journal) (payload_kind : K) (payload bytes : Bytes) (next : Frontier)
      → plan_append sha pc journal payload_kind payload ≡ ok (bytes, next)
      → successor sha journal.frontier bytes ≡ ok next
  unfolding plan_append
  plan_append-covers journal payload_kind payload bytes next h =
      elim (Bool-cases journal.poisoned) [
        | inl poisoned ↦ absurd (cc (rw poisoned at h))
        | inr live ↦
            let (frame, encoded, rest) =
              >>=-eq-ok
                (encode_frame sha pc journal.selection.device_id journal.frontier.next_sequence
                  payload_kind payload)
                (λ b. successor sha journal.frontier b >>= λ n. ok (b, n)) (bytes, next)
                (rw live at h) in
            let (found, run, same) =
              >>=-eq-ok (successor sha journal.frontier frame) (λ n. ok (frame, n)) (bytes, next)
                rest in
            cc (run, same)
      ]

  pub plan_append_answers :
      (journal : Journal) (payload_kind : K) (payload : Bytes)
      → plan_append sha pc journal payload_kind payload ≢ stuck
  unfolding plan_append
  plan_append_answers journal payload_kind payload h = elim (Bool-cases journal.poisoned) [
    | inl poisoned ↦ absurd (cc (rw poisoned at h))
    | inr live ↦
        elim (bind_stuck
          (encode_frame sha pc journal.selection.device_id journal.frontier.next_sequence
            payload_kind payload)
          (λ b. successor sha journal.frontier b >>= λ n. ok (b, n)) (rw live at h)) [
            | inl none_encoded ↦
                encode_frame_answers journal.selection.device_id journal.frontier.next_sequence
                  payload_kind payload none_encoded
            | inr (frame, encoded, rest) ↦
                elim (bind_stuck (successor sha journal.frontier frame) (λ n. ok (frame, n)) rest) [
                  | inl none_next ↦ successor_answers journal.frontier frame none_next
                  | inr (next, found, e) ↦ absurd (cc e)
                ]
          ]
  ]
