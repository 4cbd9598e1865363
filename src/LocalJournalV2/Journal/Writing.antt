-- ===== src/LocalJournalV2/Journal/Writing.antt =====
-- What the writes of `append` of src/local_journal_v2.rs leave, whichever of their calls is refused.
use tine_storage.Base.{
  ℕ, ◌≡◌, ◌≢◌, refl, sym, ap, ◌∙◌, [], ◌∷◌, Bytes, take, Result, ok, err, stuck, ◌⊎◌, inl, inr,
  arith,
}
use tine_storage.Files.{
  FilePath, Entry, absent, file, link, folder, IoError, Files, put, pure, fail, map_io_err, answer,
  created, create_new, write_all, moved, rename,
}
use tine_storage.Files.Entries.{put_same, put_other}
use tine_storage.Files.Hoare.{
  Runs, Answered, >>=-Runs, match_io-Runs, answer_or-Runs, sync_all-Runs, sync_directory-Runs,
}
use tine_storage.LocalJournal.Errors.{LocalJournalError}
use tine_storage.LocalJournal.Segment.{write_at}
use tine_storage.LocalJournalV2.Segment.{Selection, Disk, verify_regular_exact}
use tine_storage.LocalJournalV2.Writes.{
  Setting, in_directory, content, files_of, frontier_temp_name, read_of, failed,
  write_segment_for_append, publish_frontier_durable, verify_frontier, append_writes,
}

module _ (selection : Selection) where
  -- The contents of the two files of the segment.
  abbrev pub Holds : Bytes → Bytes → Files → Type 0
  Holds segment frontier files =
      (files (in_directory selection.segment_name) ≡ file segment)
      × (files (in_directory selection.frontier_name) ≡ file frontier)

module _ (setting : Setting) (selection : Selection) (disk : Disk) (cursor : ℕ)
    (bytes successor : Bytes) (apart : selection.segment_name ≢ selection.frontier_name) where
  abbrev segment_path : FilePath
  segment_path = in_directory selection.segment_name

  abbrev frontier_path : FilePath
  frontier_path = in_directory selection.frontier_name

  abbrev Before : Files → Type 0
  Before = Holds selection disk.segment disk.frontier

  abbrev Written : Files → Type 0
  Written = Holds selection (write_at cursor bytes disk.segment) disk.frontier

  abbrev Selected : Files → Type 0
  Selected = Holds selection (write_at cursor bytes disk.segment) successor

  -- Some bytes are written at the cursor and the frontier is the old one, or all is done.
  abbrev pub Left : LocalJournalError → Files → Type 0
  Left e files =
      ((part : Bytes) × Holds selection (write_at cursor part disk.segment) disk.frontier files)
      ⊎ Selected files

  one_name : Bytes → FilePath → Bytes
  one_name other [] = other
  one_name other (name ∷ directory) = name

  paths_apart : segment_path ≢ frontier_path
  unfolding one_name
  paths_apart e = apart (ap (one_name []) e)

  put_segment :
      (before after frontier : Bytes) (files : Files)
      → Holds selection before frontier files
      → Holds selection after frontier (put segment_path (file after) files)
  put_segment before after frontier files (s, f) = (
    put_same segment_path (file after) files,
    put_other segment_path frontier_path (file after) files paths_apart ∙ f,
  )

  -- A change of a third path keeps both files.
  put_third :
      (path : FilePath) (e : Entry) (segment frontier : Bytes) (files : Files)
      → path ≢ segment_path
      → path ≢ frontier_path
      → Holds selection segment frontier files
      → Holds selection segment frontier (put path e files)
  put_third path e segment frontier files ns nf (s, f) =
      (put_other path segment_path e files ns ∙ s, put_other path frontier_path e files nf ∙ f)

  written : (files : Files) → Before files → content (files segment_path) ≡ disk.segment
  written files (s, f) = ap content s

  write_segment-Runs :
      Runs Before
        (map_io_err (failed setting) (write_segment_for_append setting segment_path cursor bytes))
        (λ (u : Unit {0}). Written)
        Left
  unfolding write_segment_for_append
  write_segment-Runs =
      let torn : (e : IoError) (files : Files) → Type 0 = λ e files.
        (part : Bytes) × Holds selection (write_at cursor part disk.segment) disk.frontier files in
      match_io-Runs (λ u. Written) torn (λ u. Written) Left Before
        (write_segment_for_append setting segment_path cursor bytes) pure
        (λ e. fail (failed setting e))
        (answer_or-Runs setting.os (λ u. Written) torn Before
          (λ n files.
            put segment_path
              (file
                (write_at cursor (take (setting.os.torn n) bytes) (content (files segment_path))))
              files)
          (λ files. (
            ok tt,
            put segment_path (file (write_at cursor bytes (content (files segment_path)))) files,
          ))
          (λ files p.
            rw (written files p)
              (put_segment disk.segment (write_at cursor bytes disk.segment) disk.frontier files p))
          (λ files n code r p. (
            take (setting.os.torn n) bytes,
            rw (written files p) (
                put_segment disk.segment
                  (write_at cursor (take (setting.os.torn n) bytes) disk.segment) disk.frontier
                  files p),
          )))
        (λ u w p. p) (λ e w p. inl p)

  -- What stops behind the write of the frame leaves the whole frame and the old frontier.
  whole : (e : LocalJournalError) (files : Files) → Written files → Left e files
  whole e files p = inl (bytes, p)

  module _ (temporary : FilePath) where
    -- The temporary holds `c` and is neither of the two files.
    abbrev Aside : Bytes → Files → Type 0
    Aside c files =
        (temporary ≢ segment_path)
        × (temporary ≢ frontier_path)
        × (files temporary ≡ file c)
        × Written files

    differs :
        (path : FilePath) (held : Bytes) (files : Files)
        → files temporary ≡ absent
        → files path ≡ file held
        → temporary ≢ path
    differs path held files a h e =
        let b : files temporary ≡ files path = ap files e in cc (a, h, b)

    created-Answered :
        (here : Entry) (files : Files)
        → Written files
        → files temporary ≡ here
        → Answered
            (λ u. Aside [])
            (λ (e : IoError). Written)
            (created setting.os temporary here files)
    created-Answered absent files p h =
        let ns = differs segment_path _ files h p.0 in
        let nf = differs frontier_path _ files h p.1 in
        (
          ns,
          nf,
          put_same temporary (file []) files,
          put_third temporary (file []) _ _ files ns nf p,
        )
    created-Answered (file old) files p h = p
    created-Answered (link to) files p h = p
    created-Answered folder files p h = p

    create-Runs :
        Runs Written
          (map_io_err (failed setting) (create_new setting.os temporary))
          (λ (u : Unit {0}). Aside [])
          Left
    unfolding create_new
    create-Runs =
        match_io-Runs (λ u. Aside []) (λ e. Written) (λ u. Aside []) Left Written
          (create_new setting.os temporary) pure (λ e. fail (failed setting e))
          (answer_or-Runs setting.os (λ u. Aside []) (λ e. Written) Written (λ n files. files)
            (λ files. created setting.os temporary (files temporary) files)
            (λ files p. created-Answered (files temporary) files p refl) (λ files n code r p. p))
          (λ u w p. p) (λ e w p. whole (failed setting e) w.files p)

    refill : (c d : Bytes) (files : Files) → Aside c files → Aside d (put temporary (file d) files)
    refill c d files (ns, nf, t, p) =
        (ns, nf, put_same temporary (file d) files, put_third temporary (file d) _ _ files ns nf p)

    fill-Runs :
        Runs
          (Aside [])
          (map_io_err (failed setting) (write_all setting.os temporary successor))
          (λ (u : Unit {0}). Aside successor)
          Left
    unfolding write_all
    fill-Runs =
        match_io-Runs (λ u. Aside successor) (λ e. Written) (λ u. Aside successor) Left (Aside [])
          (write_all setting.os temporary successor) pure (λ e. fail (failed setting e))
          (answer_or-Runs setting.os (λ u. Aside successor) (λ e. Written) (Aside [])
            (λ n files. put temporary (file (take (setting.os.torn n) successor)) files)
            (λ files. (ok tt, put temporary (file successor) files))
            (λ files p. refill [] successor files p)
            (λ files n code r p. (refill [] (take (setting.os.torn n) successor) files p).3))
          (λ u w p. p) (λ e w p. whole (failed setting e) w.files p)

    replaced :
        (files : Files)
        → Aside successor files
        → Selected (put frontier_path (file successor) (put temporary absent files))
    replaced files (ns, nf, t, p) =
        let emptied = put_third temporary absent _ _ files ns nf p in
        (
          put_other frontier_path segment_path (file successor) (put temporary absent files)
                (λ e. paths_apart (sym e))
              ∙ emptied.0,
          put_same frontier_path (file successor) (put temporary absent files),
        )

    rename-Runs :
        Runs
          (Aside successor)
          (map_io_err (failed setting) (rename setting.os temporary frontier_path))
          (λ (u : Unit {0}). Selected)
          Left
    unfolding rename
    rename-Runs =
        match_io-Runs (λ u. Selected) (λ e. Written) (λ u. Selected) Left (Aside successor)
          (rename setting.os temporary frontier_path) pure (λ e. fail (failed setting e))
          (answer_or-Runs setting.os (λ u. Selected) (λ e. Written) (Aside successor)
            (λ n files. files)
            (λ files.
              moved setting.os temporary frontier_path (files temporary) (files frontier_path)
                files)
            (λ files p. rw (p.2, p.3.1) (replaced files p)) (λ files n code r p. p.3))
          (λ u w p. p) (λ e w p. whole (failed setting e) w.files p)

  publish-Runs :
      Runs Written
        (publish_frontier_durable setting selection.frontier_name successor)
        (λ u. Selected)
        Left
  unfolding publish_frontier_durable
  publish-Runs =
      let temporary : FilePath =
        in_directory (frontier_temp_name selection.frontier_name setting.uuid) in
      let done : Unit {0} → Files → Type 0 = λ u. Selected in
      let aside : Bytes → Unit {0} → Files → Type 0 = λ c u. Aside temporary c in
      >>=-Runs (aside []) done Left Written _ _ (create-Runs temporary) (λ u.
        >>=-Runs (aside successor) done Left (Aside temporary []) _ _ (fill-Runs temporary) (λ u.
          >>=-Runs (aside successor) done Left (Aside temporary successor) _ _
            (sync_all-Runs setting.os (Aside temporary successor) Left (failed setting)
              (λ e files r p. whole e files p.3))
            (λ u.
              >>=-Runs done done Left (Aside temporary successor) _ _ (rename-Runs temporary) (λ u.
                sync_directory-Runs setting.os [] Selected Left (failed setting)
                  (λ e files r p. inr p)))))

  compared :
      (r : Result LocalJournalError (Unit {0}))
      → r ≢ stuck
      → Runs Selected (λ w. (r, w)) (λ u. Selected) Left
  compared (ok u) n w p = p
  compared (err e) n w p = inr p
  compared stuck n w p = n refl

  verify_answers : (found : Bytes) → verify_regular_exact found successor ≢ stuck
  unfolding verify_regular_exact
  verify_answers found h = ground arith

  read-Answered :
      (here : Entry) (files : Files)
      → Selected files
      → Answered (λ (b : Bytes). Selected) (λ (e : IoError). Selected) (read_of here files)
  read-Answered absent files p = p
  read-Answered (file bytes) files p = p
  read-Answered (link to) files p = p
  read-Answered folder files p = p

  verify-Runs :
      Runs Selected (verify_frontier setting selection.frontier_name successor) (λ u. Selected) Left
  unfolding verify_frontier
  verify-Runs =
      >>=-Runs (λ b. Selected) (λ u. Selected) Left Selected _ _
        (match_io-Runs (λ b. Selected) (λ e. Selected) (λ b. Selected) Left Selected
          (answer setting.os (λ files. read_of (files frontier_path) files)) pure
          (λ e. fail (failed setting e))
          (answer_or-Runs setting.os (λ b. Selected) (λ e. Selected) Selected (λ n files. files)
            (λ files. read_of (files frontier_path) files)
            (λ files p. read-Answered (files frontier_path) files p) (λ files n code r p. p))
          (λ b w p. p) (λ e w p. inr p))
        (λ found. compared (verify_regular_exact found successor) (verify_answers found))

  -- The writes end: on success with the whole frame and the successor, on a failure with a part of
  -- the frame and the old frontier, or with the whole frame and the successor.
  pub append_writes-Runs :
      Runs Before (append_writes setting selection cursor bytes successor) (λ u. Selected) Left
  unfolding append_writes
  append_writes-Runs =
      let done : Unit {0} → Files → Type 0 = λ u. Selected in
      let whole_frame : Unit {0} → Files → Type 0 = λ u. Written in
      >>=-Runs whole_frame done Left Before _ _ write_segment-Runs (λ u.
        >>=-Runs whole_frame done Left Written _ _
          (sync_all-Runs setting.os Written Left (failed setting) (λ e files r p. whole e files p))
          (λ u. >>=-Runs done done Left Written _ _ publish-Runs (λ u. verify-Runs)))

  pub files_of-Holds : Before (files_of selection disk setting.others)
  files_of-Holds = (
    put_same segment_path (file disk.segment)
        (put frontier_path (file disk.frontier) setting.others),
    put_other segment_path frontier_path (file disk.segment)
          (put frontier_path (file disk.frontier) setting.others) paths_apart
        ∙ put_same frontier_path (file disk.frontier) setting.others,
  )
