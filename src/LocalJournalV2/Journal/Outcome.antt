-- ===== src/LocalJournalV2/Journal/Outcome.antt =====
-- The two classes of append errors, and what each leaves on the disk.
use tine_storage.Base.{
  ℕ, ◌+◌, ◌≤◌, ◌≡◌, ◌≢◌, refl, sym, ap, ◌∙◌, true, ◌++◌, Bytes, length, take, drop, Result, ok, err,
  stuck, arith, append_assoc, take-append_at, length-take, length-append, ◌⊎◌, inl, inr,
}
use tine_storage.ContentDigest.{Sha256}
use tine_storage.Postcard.{Postcard}
use tine_storage.Files.{Files, World}
use tine_storage.Files.Hoare.{Ends}
use tine_storage.LocalJournal.Errors.{LocalJournalError}
use tine_storage.LocalJournal.Errors.LocalJournalError.{segment_poisoned}
use tine_storage.LocalJournal.Frame.{FrameHeader}
use tine_storage.LocalJournal.Segment.{write_at, Append}
use tine_storage.LocalJournalV2.Frontier.{Frontier, encode_frontier, successor}
use tine_storage.LocalJournalV2.Segment.{Disk}
use tine_storage.LocalJournalV2.Writes.{Setting, files_of, content, disk_of}
use tine_storage.LocalJournalV2.Journal.{
  Journal, AppendError, definitely_not_appended, append_outcome_unknown, plan_append, settle,
  write_frame, finish_append, append,
}
use tine_storage.LocalJournalV2.Journal.Planning.{
  successor-covers, plan_append-covers, plan_append_answers,
}
use tine_storage.LocalJournalV2.Journal.Writing.{Holds, Left, append_writes-Runs, files_of-Holds}

write_at-front :
    (n : ℕ) (bytes file : Bytes) → n ≤ length file → take n (write_at n bytes file) ≡ take n file
unfolding write_at
write_at-front n bytes file h = take-append_at n (take n file) _ (omega (arith, length-take n file))

write_at-covers :
    (n : ℕ) (bytes file : Bytes)
    → n ≤ length file
    → take (n + length bytes) (write_at n bytes file) ≡ take n file ++ bytes
unfolding write_at
write_at-covers n bytes file h =
    let front : length (take n file ++ bytes) ≡ n + length bytes =
      omega (arith, length-append (take n file) bytes, length-take n file) in
    rw (← append_assoc (take n file) bytes (drop (n + length bytes) file))
      (take-append_at (n + length bytes) (take n file ++ bytes) _ front)

module _ {K : Type 0} (sha : Sha256) (pc : Postcard (FrameHeader K)) where
  settle-not_certain :
      (journal : Journal) (disk : Disk) (payload bytes : Bytes) (next : Frontier)
      (r : Result LocalJournalError (Unit {0})) (e : LocalJournalError)
      → (settle sha pc journal disk payload bytes next r).1 ≡ err (definitely_not_appended e)
      → (settle sha pc journal disk payload bytes next r).0 ≡ journal
  unfolding settle
  settle-not_certain journal disk payload bytes next (ok done) e h = cc
  settle-not_certain journal disk payload bytes next (err x) e h = cc
  settle-not_certain journal disk payload bytes next stuck e h = cc

  finish-not_certain :
      (setting : Setting) (journal : Journal) (payload : Bytes)
      (plan : Result LocalJournalError (Bytes × Frontier)) (e : LocalJournalError)
      → (finish_append sha pc setting journal payload plan).1 ≡ err (definitely_not_appended e)
      → (finish_append sha pc setting journal payload plan).0 ≡ journal
  unfolding finish_append write_frame
  finish-not_certain setting journal payload (ok (bytes, next)) e h =
      settle-not_certain journal _ payload bytes next _ e h
  finish-not_certain setting journal payload (err x) e h = refl
  finish-not_certain setting journal payload stuck e h = refl

  -- An append that answers `DefinitelyNotAppended` has changed nothing, neither the journal's
  -- state nor its files, whatever the file system would have done.
  pub append_definitely_not :
      (setting : Setting) (journal : Journal) (payload_kind : K) (payload : Bytes)
      (e : LocalJournalError)
      → (append sha pc setting journal payload_kind payload).1 ≡ err (definitely_not_appended e)
      → (append sha pc setting journal payload_kind payload).0 ≡ journal
  append_definitely_not setting journal payload_kind payload e =
      finish-not_certain setting journal payload (plan_append sha pc journal payload_kind payload) e

  -- The whole frame stands behind the committed bytes, the frontier file is the successor's, and
  -- the successor covers just these bytes and counts one frame more.
  pub data Committed (journal : Journal) (plan : Result LocalJournalError (Bytes × Frontier))
      (disk : Disk) : Type 0 where
    committed :
        {bytes : Bytes} {next : Frontier}
        → plan ≡ ok (bytes, next)
        → disk.segment ≡ write_at journal.cursor bytes journal.disk.segment
        → disk.frontier ≡ encode_frontier sha next
        → take next.committed_extent disk.segment
          ≡ take journal.cursor journal.disk.segment ++ bytes
        → next.next_sequence ≡ journal.frontier.next_sequence + 1
        → Committed journal plan disk

  -- The committed bytes and the frontier file are as before.
  abbrev pub Uncommitted : Journal → Disk → Type 0
  Uncommitted journal disk =
      (take journal.cursor disk.segment ≡ take journal.cursor journal.disk.segment)
      × (disk.frontier ≡ journal.disk.frontier)

  -- The files that each answer of an append leaves.
  abbrev pub Leaves :
      Journal
      → Result LocalJournalError (Bytes × Frontier)
      → Result AppendError Append
      → Disk
      → Type 0
  Leaves journal plan (ok report) disk = Committed journal plan disk
  Leaves journal plan (err (definitely_not_appended e)) disk = disk ≡ journal.disk
  Leaves journal plan (err (append_outcome_unknown e)) disk =
      Uncommitted journal disk ⊎ Committed journal plan disk
  Leaves journal plan stuck disk = ⊥

  module _ (setting : Setting) (journal : Journal) (payload bytes : Bytes) (next : Frontier)
      (apart : journal.selection.segment_name ≢ journal.selection.frontier_name)
      (inside : journal.cursor ≤ length journal.disk.segment)
      (covers : next.committed_extent ≡ journal.cursor + length bytes)
      (counts : next.next_sequence ≡ journal.frontier.next_sequence + 1) where
    abbrev Plan : Result LocalJournalError (Bytes × Frontier)
    Plan = ok (bytes, next)

    Holds-Committed :
        (files : Files)
        → Holds journal.selection
            (write_at journal.cursor bytes journal.disk.segment)
            (encode_frontier sha next)
            files
        → Committed journal Plan (disk_of journal.selection files)
    Holds-Committed files (s, f) =
        let segment = ap content s in
        committed refl segment (ap content f)
          (rw (segment, covers) (write_at-covers journal.cursor bytes journal.disk.segment inside))
          counts

    Holds-Uncommitted :
        (part : Bytes) (files : Files)
        → Holds journal.selection
            (write_at journal.cursor part journal.disk.segment)
            journal.disk.frontier
            files
        → Uncommitted journal (disk_of journal.selection files)
    Holds-Uncommitted part files (s, f) = (
      ap (λ e. take journal.cursor (content e)) s
          ∙ write_at-front journal.cursor part journal.disk.segment inside,
      ap content f,
    )

    settle-Leaves :
        (o : Result LocalJournalError (Unit {0}) × World)
        → Ends
            (λ u.
              Holds journal.selection
                (write_at journal.cursor bytes journal.disk.segment)
                (encode_frontier sha next))
            (Left setting journal.selection journal.disk journal.cursor bytes
              (encode_frontier sha next)
              apart)
            o
        → let settled =
            settle sha pc journal (disk_of journal.selection o.1.files) payload bytes next o.0 in
          Leaves journal Plan settled.1 settled.0.disk
    unfolding settle
    settle-Leaves (ok u, w) h = Holds-Committed w.files h
    settle-Leaves (err e, w) (inl (part, h)) = inl (Holds-Uncommitted part w.files h)
    settle-Leaves (err e, w) (inr h) = inr (Holds-Committed w.files h)
    settle-Leaves (stuck, w) h = absurd h

    write_frame-Leaves :
        Leaves journal Plan
          (write_frame sha pc setting journal payload bytes next).1
          (write_frame sha pc setting journal payload bytes next).0.disk
    unfolding write_frame
    write_frame-Leaves = settle-Leaves _ (
        append_writes-Runs setting journal.selection journal.disk journal.cursor bytes
          (encode_frontier sha next) apart
          (record { files = files_of journal.selection journal.disk setting.others; calls = 0 })
          (files_of-Holds setting journal.selection journal.disk journal.cursor bytes
            (encode_frontier sha next) apart))

  finish-Leaves :
      (setting : Setting) (journal : Journal) (payload : Bytes)
      (plan : Result LocalJournalError (Bytes × Frontier))
      → journal.selection.segment_name ≢ journal.selection.frontier_name
      → journal.cursor ≡ journal.frontier.committed_extent
      → journal.cursor ≤ length journal.disk.segment
      → plan ≢ stuck
      → ((bytes : Bytes) (next : Frontier)
          → plan ≡ ok (bytes, next)
          → successor sha journal.frontier bytes ≡ ok next)
      → Leaves journal plan
          (finish_append sha pc setting journal payload plan).1
          (finish_append sha pc setting journal payload plan).0.disk
  unfolding finish_append
  finish-Leaves setting journal payload (ok (bytes, next)) apart at_end inside n k =
      let (counts, covers) = successor-covers sha journal.frontier next bytes (k bytes next refl) in
      write_frame-Leaves setting journal payload bytes next apart inside
        (covers ∙ ap (λ c. c + length bytes) (sym at_end)) counts
  finish-Leaves setting journal payload (err e) apart at_end inside n k = refl
  finish-Leaves setting journal payload stuck apart at_end inside n k = n refl

  -- Whichever calls the operating system refuses, and whatever a refused write has written, an
  -- append ends, and its answer says what its files are. After a success the whole frame stands
  -- behind the committed bytes and the frontier file is the successor's, whose extent covers just
  -- these bytes. After `DefinitelyNotAppended` both files are as before. After
  -- `AppendOutcomeUnknown` either the committed bytes and the frontier file are as before, or both
  -- are as after a success: the frontier is never torn. The journal's two files are to have
  -- different names, and its cursor is to stand at its committed extent, inside its segment.
  pub append_is_atomic :
      (setting : Setting) (journal : Journal) (payload_kind : K) (payload : Bytes)
      → journal.selection.segment_name ≢ journal.selection.frontier_name
      → journal.cursor ≡ journal.frontier.committed_extent
      → journal.cursor ≤ length journal.disk.segment
      → Leaves journal
          (plan_append sha pc journal payload_kind payload)
          (append sha pc setting journal payload_kind payload).1
          (append sha pc setting journal payload_kind payload).0.disk
  append_is_atomic setting journal payload_kind payload apart at_end inside =
      finish-Leaves setting journal payload (plan_append sha pc journal payload_kind payload) apart
        at_end inside (plan_append_answers sha pc journal payload_kind payload)
        (plan_append-covers sha pc journal payload_kind payload)

  settle-unknown :
      (journal : Journal) (disk : Disk) (payload bytes : Bytes) (next : Frontier)
      (r : Result LocalJournalError (Unit {0})) (e : LocalJournalError)
      → (settle sha pc journal disk payload bytes next r).1 ≡ err (append_outcome_unknown e)
      → (settle sha pc journal disk payload bytes next r).0.poisoned ≡ true
  unfolding settle
  settle-unknown journal disk payload bytes next (ok done) e h = cc
  settle-unknown journal disk payload bytes next (err x) e h = refl
  settle-unknown journal disk payload bytes next stuck e h = cc

  finish-unknown :
      (setting : Setting) (journal : Journal) (payload : Bytes)
      (plan : Result LocalJournalError (Bytes × Frontier)) (e : LocalJournalError)
      → (finish_append sha pc setting journal payload plan).1 ≡ err (append_outcome_unknown e)
      → (finish_append sha pc setting journal payload plan).0.poisoned ≡ true
  unfolding finish_append write_frame
  finish-unknown setting journal payload (ok (bytes, next)) e h =
      settle-unknown journal _ payload bytes next _ e h
  finish-unknown setting journal payload (err x) e h = cc
  finish-unknown setting journal payload stuck e h = cc

  poisoned_refuses :
      (setting : Setting) (journal : Journal) (payload_kind : K) (payload : Bytes)
      → journal.poisoned ≡ true
      → append sha pc setting journal payload_kind payload
        ≡ (journal, err (definitely_not_appended segment_poisoned))
  unfolding plan_append finish_append
  poisoned_refuses setting journal payload_kind payload h = rw h refl

  -- After an append that answers `AppendOutcomeUnknown`, the journal refuses every further append
  -- and changes nothing, so its files stay as they are until it is opened again.
  pub append_unknown_is_final :
      (setting again : Setting) (journal : Journal) (payload_kind other_kind : K)
      (payload other : Bytes) (e : LocalJournalError)
      → (append sha pc setting journal payload_kind payload).1 ≡ err (append_outcome_unknown e)
      → append sha pc again (append sha pc setting journal payload_kind payload).0 other_kind other
        ≡ (
          (append sha pc setting journal payload_kind payload).0,
          err (definitely_not_appended segment_poisoned),
        )
  append_unknown_is_final setting again journal payload_kind other_kind payload other e h =
      poisoned_refuses again _ other_kind other (
        finish-unknown setting journal payload (plan_append sha pc journal payload_kind payload) e
          h)
