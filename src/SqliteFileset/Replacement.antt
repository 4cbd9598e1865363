-- ===== src/SqliteFileset/Replacement.antt =====
-- The steps of `publish_checkpoint` of src/sqlite_fileset.rs that write one temporary and replace the
-- checkpoint by it.
use tine_storage.Base.{
  ℕ, ◌≡◌, ◌≢◌, refl, sym, ap, ◌∙◌, Bool, [], Option, none, some, Bytes, take, ◌⊎◌, inl, inr, Result,
  ok,
}
use tine_storage.Files.{
  FilePath, Entry, absent, file, link, folder, IoError, not_found, already_exists, refused, Files,
  put, Faults, pure, fail, match_io, map_io_err, answer, write_all, sync_all, sync_directory,
  rename, remove_file, moved, removed,
}
use tine_storage.Files.Entries.{put_same, put_other, put-put, put_back}
use tine_storage.Files.Hoare.{
  Runs, Answered, >>=-Runs, match_io-Runs, answer_or-Runs, Refuses, sync_all-Runs,
  sync_directory-Runs,
}
use tine_storage.SqliteFileset.{
  SqliteFileSetError, io, SqliteFileSet, CheckpointPublicationStage, file_synced, replaced,
  parent_sync_applied, stage_result, write_and_replace, publish_through, after_cleanup,
}

module _ (before : Files) (target : FilePath) (bytes : Bytes) where
  -- The files are as before, but for the entry `e` at an absent path other than the target.
  abbrev pub Temporary : Files → Type 0
  Temporary files =
      (temporary : FilePath) × (e : Entry) × (before temporary ≡ absent)
      × (temporary ≢ target)
      × (files ≡ put temporary e before)

  -- The files are as before, but for the whole bytes at the target.
  abbrev pub Published : Files → Type 0
  Published files = files ≡ put target (file bytes) before

  abbrev pub Failed : Files → Type 0
  Failed files = (files ≡ before) ⊎ (Temporary files ⊎ Published files)

module _ (os : Faults) (temporary_name : Bytes → ℕ → Bytes)
    (post_stage : CheckpointPublicationStage → Option SqliteFileSetError) (is_utf8 : Bytes → Bool)
    (before : Files) (set : SqliteFileSet) (bytes : Bytes) where
  abbrev Good : Files → Type 0
  Good = Published before set.checkpoint bytes

  -- What a failure is due to: a refusal, the callback, or a directory in the checkpoint's place.
  abbrev pub Blame : Type 0
  Blame =
      Refuses os
      ⊎ (((stage : CheckpointPublicationStage) × (e : SqliteFileSetError) × (post_stage stage
              ≡ some e))
          ⊎ (before set.checkpoint ≡ folder))

  abbrev Bad : SqliteFileSetError → Files → Type 0
  Bad e files = Blame × Failed before set.checkpoint bytes files

  stage-Runs :
      (P : Files → Type 0) (R : SqliteFileSetError → Files → Type 0)
      (stage : Option SqliteFileSetError)
      → ((e : SqliteFileSetError) (files : Files) → stage ≡ some e → P files → R e files)
      → Runs P (stage_result stage) (λ u. P) R
  stage-Runs P R none k w p = p
  stage-Runs P R (some e) k w p = k e w.files refl p

  module _ (temporary : FilePath) (fresh : before temporary ≡ absent)
      (apart : temporary ≢ set.checkpoint) where
    abbrev Holding : Entry → Files → Type 0
    Holding e files = files ≡ put temporary e before

    abbrev Stopped : SqliteFileSetError → Files → Type 0
    Stopped e files = Blame × (((c : Entry) × Holding c files) ⊎ Good files)

    write-Runs :
        Runs
          (Holding (file []))
          (map_io_err io (write_all os temporary bytes))
          (λ u. Holding (file bytes))
          Stopped
    unfolding write_all
    write-Runs =
        let torn : (e : IoError) (files : Files) → Type 0 =
          λ e files. Refuses os × ((c : Entry) × Holding c files) in
        match_io-Runs (λ u. Holding (file bytes)) torn (λ u. Holding (file bytes)) Stopped
          (Holding (file [])) (write_all os temporary bytes) pure (λ e. fail (io e))
          (answer_or-Runs os (λ u. Holding (file bytes)) torn (Holding (file []))
            (λ n files. put temporary (file (take (os.torn n) bytes)) files)
            (λ files. (ok tt, put temporary (file bytes) files))
            (λ files p.
              ap (put temporary (file bytes)) p ∙ put-put temporary (file bytes) (file []) before)
            (λ files n code r p. (
              (n, code, r),
              (
                file (take (os.torn n) bytes),
                ap (put temporary (file (take (os.torn n) bytes))) p
                    ∙ put-put temporary (file (take (os.torn n) bytes)) (file []) before,
              ),
            )))
          (λ u w p. p) (λ e w p. (inl p.0, inl p.1))

    unwritten : (c : Entry) (files : Files) → Holding c files → put temporary absent files ≡ before
    unwritten c files p =
        ap (put temporary absent) p
        ∙ put-put temporary absent c before
        ∙ put_back temporary absent before fresh

    moved-Answered :
        (here : Entry) (files : Files)
        → Holding (file bytes) files
        → before set.checkpoint ≡ here
        → Answered
            (λ u. Good)
            (λ e files. Blame × ((c : Entry) × Holding c files))
            (moved os temporary set.checkpoint (file bytes) here files)
    moved-Answered absent files p h =
        ap (put set.checkpoint (file bytes)) (unwritten (file bytes) files p)
    moved-Answered (file old) files p h =
        ap (put set.checkpoint (file bytes)) (unwritten (file bytes) files p)
    moved-Answered (link to) files p h =
        ap (put set.checkpoint (file bytes)) (unwritten (file bytes) files p)
    moved-Answered folder files p h = (inr (inr h), (file bytes, p))

    rename-Runs :
        Runs
          (Holding (file bytes))
          (map_io_err io (rename os temporary set.checkpoint))
          (λ u. Good)
          Stopped
    unfolding rename
    rename-Runs =
        let kept : (e : IoError) (files : Files) → Type 0 =
          λ e files. Blame × ((c : Entry) × Holding c files) in
        let call : Files → Result IoError (Unit {0}) × Files = λ files.
          moved os temporary set.checkpoint (files temporary) (files set.checkpoint) files in
        match_io-Runs (λ u. Good) kept (λ u. Good) Stopped (Holding (file bytes)) (answer os call)
          pure (λ e. fail (io e))
          (answer_or-Runs os (λ u. Good) kept (Holding (file bytes)) (λ n files. files) call
            (λ files p.
              let here : files temporary ≡ file bytes =
                ap (λ fs. fs temporary) p ∙ put_same temporary (file bytes) before in
              let there : files set.checkpoint ≡ before set.checkpoint =
                ap (λ fs. fs set.checkpoint) p
                ∙ put_other temporary set.checkpoint (file bytes) before apart in
              rw here (moved-Answered (files set.checkpoint) files p (sym there)))
            (λ files n code r p. (inl (n, code, r), (file bytes, p))))
          (λ u w p. p) (λ e w p. (p.0, inl p.1))

    -- The closure ends with the whole file published, or fails with the temporary in any state or
    -- with the whole file published.
    write_and_replace-Runs :
        (directory : FilePath)
        → Runs
            (Holding (file []))
            (write_and_replace os temporary_name post_stage is_utf8 set directory bytes temporary)
            (λ u. Good)
            Stopped
    unfolding write_and_replace
    write_and_replace-Runs directory =
        let held : Unit {0} → Files → Type 0 = λ u. Holding (file bytes) in
        let good : Unit {0} → Files → Type 0 = λ u. Good in
        let early : (e : SqliteFileSetError) (files : Files)
            → Blame
            → Holding (file bytes) files
            → Stopped e files =
          λ e files b p. (b, inl (file bytes, p)) in
        let late : (e : SqliteFileSetError) (files : Files) → Blame → Good files → Stopped e files =
          λ e files b p. (b, inr p) in
        >>=-Runs held good Stopped (Holding (file []))
          (map_io_err io (write_all os temporary bytes)) _ write-Runs
          (λ u.
            >>=-Runs held good Stopped (Holding (file bytes)) (map_io_err io (sync_all os)) _
              (sync_all-Runs os (Holding (file bytes)) Stopped io
                (λ e files r p. early e files (inl r) p))
              (λ u.
                >>=-Runs held good Stopped (Holding (file bytes))
                  (stage_result (post_stage file_synced)) _
                  (stage-Runs (Holding (file bytes)) Stopped (post_stage file_synced)
                    (λ e files h p. early e files (inr (inl (file_synced, e, h))) p))
                  (λ u.
                    >>=-Runs good good Stopped (Holding (file bytes))
                      (map_io_err io (rename os temporary set.checkpoint)) _ rename-Runs
                      (λ u.
                        >>=-Runs good good Stopped Good (stage_result (post_stage replaced)) _
                          (stage-Runs Good Stopped (post_stage replaced)
                            (λ e files h p. late e files (inr (inl (replaced, e, h))) p))
                          (λ u.
                            >>=-Runs good good Stopped Good
                              (map_io_err io (sync_directory os directory)) _
                              (sync_directory-Runs os directory Good Stopped io
                                (λ e files r p. late e files (inl r) p))
                              (λ u.
                                stage-Runs Good Stopped (post_stage parent_sync_applied)
                                  (λ e files h p.
                                    late e files (inr (inl (parent_sync_applied, e, h))) p)))))))

    removed-Answered :
        (b : Blame) (c here : Entry) (files : Files)
        → Holding c files
        → Answered
            (λ u files. Blame × Failed before set.checkpoint bytes files)
            (λ (e : IoError) files. Blame × Failed before set.checkpoint bytes files)
            (removed os temporary here files)
    removed-Answered b c absent files p = (b, inr (inl (temporary, c, fresh, apart, p)))
    removed-Answered b c (file old) files p = (b, inl (unwritten c files p))
    removed-Answered b c (link to) files p = (b, inl (unwritten c files p))
    removed-Answered b c folder files p = (b, inr (inl (temporary, c, fresh, apart, p)))

    gone : (files : Files) → Good files → files temporary ≡ absent
    gone files p =
        ap (λ fs. fs temporary) p
        ∙ put_other set.checkpoint temporary (file bytes) before (λ e. apart (sym e))
        ∙ fresh

    Stopped-Answered :
        (e : SqliteFileSetError) (files : Files)
        → Stopped e files
        → Answered
            (λ u files. Blame × Failed before set.checkpoint bytes files)
            (λ (f : IoError) files. Blame × Failed before set.checkpoint bytes files)
            (removed os temporary (files temporary) files)
    Stopped-Answered e files (b, inl (c, p)) = removed-Answered b c (files temporary) files p
    Stopped-Answered e files (b, inr p) = rw (gone files p) (b, inr (inr p))

    Stopped-Failed :
        (e : SqliteFileSetError) (files : Files)
        → Stopped e files
        → Blame × Failed before set.checkpoint bytes files
    Stopped-Failed e files (b, inl (c, p)) = (b, inr (inl (temporary, c, fresh, apart, p)))
    Stopped-Failed e files (b, inr p) = (b, inr (inr p))

    -- The cleanup behind a failure.
    cleanup-Runs :
        (e : SqliteFileSetError)
        → Runs
            (Stopped e)
            (match_io (remove_file os temporary) (λ u. fail e) (λ f. fail e))
            (λ (u : Unit {0}). Good)
            Bad
    unfolding remove_file
    cleanup-Runs e =
        let over : (f : IoError) (files : Files) → Type 0 =
          λ f files. Blame × Failed before set.checkpoint bytes files in
        let cleared : (u : Unit {0}) (files : Files) → Type 0 =
          λ u files. Blame × Failed before set.checkpoint bytes files in
        let call : Files → Result IoError (Unit {0}) × Files =
          λ files. removed os temporary (files temporary) files in
        match_io-Runs cleared over (λ u. Good) Bad (Stopped e) (answer os call) (λ u. fail e)
          (λ f. fail e)
          (answer_or-Runs os cleared over (Stopped e) (λ n files. files) call (Stopped-Answered e)
            (λ files n code r p. Stopped-Failed e files p))
          (λ u w p. p) (λ f w p. p)

    -- Behind the publication there is no temporary.
    nothing_left-Runs :
        Runs Good
          (match_io
            (remove_file os temporary)
            (λ u. pure tt)
            (after_cleanup os temporary_name post_stage is_utf8))
          (λ (u : Unit {0}). Good)
          Bad
    unfolding remove_file
    nothing_left-Runs =
        let call : Files → Result IoError (Unit {0}) × Files =
          λ files. removed os temporary (files temporary) files in
        let kept : (f : IoError) (files : Files) → Type 0 =
          λ f files. ((f ≡ not_found) ⊎ Refuses os) × Good files in
        match_io-Runs (λ u. Good) kept (λ u. Good) Bad Good (answer os call) (λ u. pure tt)
          (after_cleanup os temporary_name post_stage is_utf8)
          (answer_or-Runs os (λ u. Good) kept Good (λ n files. files) call
            (λ files p. rw (gone files p) (inl refl, p))
            (λ files n code r p. (inr (n, code, r), p)))
          (λ u w p. p) reported
      where
        reported :
            (f : IoError)
            → Runs
                (λ files. ((f ≡ not_found) ⊎ Refuses os) × Good files)
                (after_cleanup os temporary_name post_stage is_utf8 f)
                (λ u. Good)
                Bad
        reported not_found w p = p.1
        reported already_exists w (inl e, p) = absurd (cc e)
        reported already_exists w (inr r, p) = (inl r, inr (inr p))
        reported (refused code) w (inl e, p) = absurd (cc e)
        reported (refused code) w (inr r, p) = (inl r, inr (inr p))

    pub publish_through-Runs :
        (directory : FilePath)
        → Runs
            (Holding (file []))
            (publish_through os temporary_name post_stage is_utf8 set directory bytes temporary)
            (λ u. Good)
            Bad
    unfolding publish_through
    publish_through-Runs directory =
        match_io-Runs (λ u. Good) Stopped (λ u. Good) Bad (Holding (file [])) _ _ _
          (write_and_replace-Runs directory) (λ u. nothing_left-Runs) (λ e. cleanup-Runs e)
