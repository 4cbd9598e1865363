-- ===== src/LocalJournal/Segment/Live.antt =====
-- A segment that is open and usable: its file is a journal, and its cursors stand at its end.
use tine_storage.Base.{
  ℕ, ◌+◌, ◌^◌, ◌≤◌, ◌<◌, ◌≡◌, refl, ◌≢◌, ap, ◌∙◌, true, false, List, [], ◌∷◌, ◌++◌, Bytes, length,
  ok, err, ◌>>=◌, >>=-eq-ok, arith, length-append, append_assoc, append-nil, take_all, drop_all,
}
use tine_storage.ContentDigest.{Sha256, of}
use tine_storage.Postcard.{Postcard}
use tine_storage.LocalJournal.Errors.{LocalJournalError}
use tine_storage.LocalJournal.Errors.LocalJournalError.{segment_poisoned}
use tine_storage.LocalJournal.Frame.{FrameHeader, Frame, encode_of}
use tine_storage.LocalJournal.Reader.{max_segment_bytes}
use tine_storage.LocalJournal.Segment.{
  Segment, AppendOutcome, durable, write_fails, sync_fails, write_at, plan_growth, plan_append,
  finish_append, append,
}
use tine_storage.LocalJournal.Segment.Journal.{Journal}

module _ {K : Type 0} (sha : Sha256) (pc : Postcard (FrameHeader K)) where
  pub record IsLive (segment : Segment) (frames : List (Frame K)) : Type 0 where
    pub journal : Journal sha pc segment.device_id segment.base_sequence frames segment.file
    pub at_end : segment.cursor ≡ length segment.file
    pub committed : segment.committed_bytes ≡ length segment.file
    pub sequence : segment.next_sequence ≡ segment.base_sequence + length frames
    pub usable : segment.poisoned ≡ false
    pub bounded : length segment.file ≤ max_segment_bytes
    pub room : segment.base_sequence + length frames < 2 ^ 64

  pub Journal-snoc :
      (d : Bytes) (s : ℕ) (frames : List (Frame K)) (bytes : Bytes) (frame : Frame K)
      (front : Bytes)
      → Journal sha pc d s frames bytes
      → encode_of sha pc frame ≡ ok front
      → frame.device_id ≡ d
      → frame.sequence ≡ s + length frames
      → Journal sha pc d s (frames ++ (frame ∷ [])) (bytes ++ front)
  Journal-snoc d s [] bytes frame front j enc dev seq =
      (front, [], rw (j, append-nil), enc, dev, omega arith, refl)
  Journal-snoc d s (f ∷ frames) bytes frame front (a, rest, e, fe, fd, fs, j) enc dev seq = (
    a,
    rest ++ front,
    ap (λ l. l ++ front) e ∙ append_assoc a rest front,
    fe,
    fd,
    fs,
    Journal-snoc d (s + 1) frames rest frame front j enc dev (omega arith),
  )

  -- The frame that an append writes.
  abbrev pub appended : Segment → K → Bytes → Frame K
  appended segment payload_kind payload = record {
    device_id = segment.device_id;
    sequence = segment.next_sequence;
    payload_kind = payload_kind;
    payload = payload;
  }

  plan_growth-guards :
      (segment : Segment) (encoded bytes : Bytes) (grown next : ℕ)
      → plan_growth sha pc segment encoded ≡ ok (bytes, grown, next)
      → (encoded ≡ bytes)
        × (grown ≡ segment.committed_bytes + length bytes)
        × (grown ≤ max_segment_bytes)
        × (next ≡ segment.next_sequence + 1)
        × (next < 2 ^ 64)
  unfolding plan_growth
  plan_growth-guards segment encoded bytes grown next h = ground arith

  -- The guards in front of an append's first write.
  pub plan_append-guards :
      (segment : Segment) (k : K) (payload bytes : Bytes) (grown next : ℕ)
      → plan_append sha pc segment k payload ≡ ok (bytes, grown, next)
      → (segment.poisoned ≡ false)
        × (encode_of sha pc (appended segment k payload) ≡ ok bytes)
        × (grown ≡ segment.committed_bytes + length bytes)
        × (grown ≤ max_segment_bytes)
        × (next ≡ segment.next_sequence + 1)
        × (next < 2 ^ 64)
  plan_append-guards segment k payload bytes grown next h =
      let (usable, h1) = split_poisoned h in
      let (encoded, enc, h2) =
        >>=-eq-ok (encode_of sha pc (appended segment k payload)) (plan_growth sha pc segment)
          (bytes, grown, next) h1 in
      let (same, size, bound, successor, room) =
        plan_growth-guards segment encoded bytes grown next h2 in
      (usable, enc ∙ ap ok same, size, bound, successor, room)
    where
      split_poisoned :
          plan_append sha pc segment k payload ≡ ok (bytes, grown, next)
          → (segment.poisoned ≡ false)
            × ((encode_of sha pc (appended segment k payload) >>= plan_growth sha pc segment)
                ≡ ok (bytes, grown, next))
      split_poisoned e = unfold plan_append in ground arith

  -- An append whose checks succeed goes on to write.
  pub append-planned :
      (outcome : AppendOutcome) (segment : Segment) (k : K) (payload : Bytes) (plan : Bytes × ℕ × ℕ)
      → plan_append sha pc segment k payload ≡ ok plan
      → append sha pc outcome segment k payload ≡ finish_append sha pc outcome segment payload plan
  unfolding append
  append-planned outcome segment k payload plan h = rw (h, append)

  -- A write at the end of the file.
  pub write_at_end :
      (cursor : ℕ) (bytes file : Bytes)
      → cursor ≡ length file
      → write_at cursor bytes file ≡ file ++ bytes
  unfolding write_at
  write_at_end cursor bytes file e = rw (
    take_all cursor file (omega arith),
    drop_all (cursor + length bytes) file (omega arith),
    append-nil,
  )

  -- An append that becomes durable extends the journal by its frame, and reports the frame's
  -- sequence and length.
  pub append_durable :
      (segment : Segment) (frames : List (Frame K)) (k : K) (payload bytes : Bytes) (grown next : ℕ)
      → IsLive segment frames
      → plan_append sha pc segment k payload ≡ ok (bytes, grown, next)
      → IsLive
          (append sha pc durable segment k payload).0
          (frames ++ (appended segment k payload ∷ []))
        × ((append sha pc durable segment k payload).1
            ≡ ok (record {
              device_id = segment.device_id;
              sequence = segment.base_sequence + length frames;
              frame_bytes = length bytes;
              payload_digest = of sha payload;
              data_durability_syncs = 1;
            }))
  unfolding finish_append
  append_durable segment frames k payload bytes grown next live h =
      let (usable, enc, size, bound, successor, room) =
        plan_append-guards segment k payload bytes grown next h in
      let file = write_at_end segment.cursor bytes segment.file live.at_end in
      let longer = length-append segment.file bytes in
      let counted = length-append frames (appended segment k payload ∷ []) in
      rw (append-planned durable segment k payload (bytes, grown, next) h, finish_append, file)
        (
          record {
            journal =
                Journal-snoc segment.device_id segment.base_sequence frames segment.file
                  (appended segment k payload) bytes live.journal enc refl live.sequence;
            at_end = omega (arith, live.at_end, longer);
            committed = omega (arith, live.committed, longer);
            sequence = omega (arith, live.sequence, counted);
            usable = usable;
            bounded = omega (arith, live.committed, longer);
            room = omega (arith, live.sequence, counted);
          },
          rw live.sequence,
        )

  -- An append that is refused in front of its write leaves the segment as it is.
  pub append_refused :
      (outcome : AppendOutcome) (segment : Segment) (k : K) (payload : Bytes)
      (error : LocalJournalError)
      → plan_append sha pc segment k payload ≡ err error
      → append sha pc outcome segment k payload ≡ (segment, err error)
  unfolding append
  append_refused outcome segment k payload error h = rw (h, append)

  pub poisoned_refuses :
      (segment : Segment) (outcome : AppendOutcome) (k : K) (payload : Bytes)
      → segment.poisoned ≡ true
      → append sha pc outcome segment k payload ≡ (segment, err segment_poisoned)
  poisoned_refuses segment outcome k payload e =
      append_refused outcome segment k payload segment_poisoned (refusal e)
    where
      refusal :
          segment.poisoned ≡ true → plan_append sha pc segment k payload ≡ err segment_poisoned
      refusal p = unfold plan_append in ground arith

  finish_append-poisons :
      (outcome : AppendOutcome) (segment : Segment) (payload : Bytes) (plan : Bytes × ℕ × ℕ)
      → outcome ≢ durable
      → (finish_append sha pc outcome segment payload plan).0.poisoned ≡ true
  unfolding finish_append
  finish_append-poisons durable segment payload plan failed = absurd (failed refl)
  finish_append-poisons (write_fails n e) segment payload plan failed = refl
  finish_append-poisons (sync_fails e) segment payload plan failed = refl

  -- An append that fails while it writes, or whose barrier fails, poisons the segment; and a
  -- poisoned segment refuses every further append, which leaves it as it is.
  pub append_poisons :
      (outcome : AppendOutcome) (segment : Segment) (k : K) (payload : Bytes) (plan : Bytes × ℕ × ℕ)
      → outcome ≢ durable
      → plan_append sha pc segment k payload ≡ ok plan
      → ((append sha pc outcome segment k payload).0.poisoned ≡ true)
        × ((later : AppendOutcome) (k' : K) (payload' : Bytes)
            → append sha pc later (append sha pc outcome segment k payload).0 k' payload'
              ≡ ((append sha pc outcome segment k payload).0, err segment_poisoned))
  append_poisons outcome segment k payload plan failed h =
      let poisoned : (append sha pc outcome segment k payload).0.poisoned ≡ true =
        rw (append-planned outcome segment k payload plan h)
          (finish_append-poisons outcome segment payload plan failed) in
      (
        poisoned,
        λ later k' payload'.
            poisoned_refuses (append sha pc outcome segment k payload).0 later k' payload' poisoned,
      )
