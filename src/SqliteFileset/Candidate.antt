-- ===== src/SqliteFileset/Candidate.antt =====
-- `publish_candidate` of src/sqlite_fileset.rs under every refusal of the operating system.
use tine_storage.Base.{
  ℕ, ◌≡◌, ◌≢◌, refl, sym, ◌∙◌, Bool, true, false, All, Option, none, some, if◌then◌else◌, ◌⊎◌, inl,
  inr, Result,
}
use tine_storage.Files.{
  FilePath, Entry, absent, file, link, folder, IoError, Files, put, Faults, pure, fail, ◌>>◌,
  map_io_err, answer, rename, moved, exists, parent,
}
use tine_storage.Files.Entries.{put_same}
use tine_storage.Files.Hoare.{
  Runs, Ends, Answered, >>=-Runs, match_io-Runs, answer_or-Runs, Runs-weaken, Runs-both,
  sync_directory-Runs,
}
use tine_storage.SqliteFileset.{
  SqliteFileSetError, io, SqliteFileSet, stage_result, remove_if_present, remove_all, remove, paths,
  sync_parent, publish_database, retained, publish_candidate,
}
use tine_storage.SqliteFileset.Keeping.{Kept, remove_if_present-Runs, remove_all-Runs, exists-Runs}

module _ (os : Faults) (before : Files) (target : FilePath) (set : SqliteFileSet) where
  -- The target has the candidate's database.
  abbrev Replaced : Files → Type 0
  Replaced files = files target ≡ before set.database

  abbrev Either : SqliteFileSetError → Files → Type 0
  Either e files = Kept os before target files ⊎ Replaced files

  placed :
      (e : Entry) (files : Files)
      → before set.database ≡ e
      → put target e (put set.database absent files) target ≡ before set.database
  placed e files k = put_same target e (put set.database absent files) ∙ sym k

  moved-Answered :
      (e here : Entry) (files : Files)
      → Kept os before target files
      → before set.database ≡ e
      → Answered
          (λ u. Replaced)
          (λ (f : IoError). Kept os before target)
          (moved os set.database target e here files)
  moved-Answered absent here files h k = h
  moved-Answered (file bytes) absent files h k = placed _ files k
  moved-Answered (file bytes) (file old) files h k = placed _ files k
  moved-Answered (file bytes) (link to) files h k = placed _ files k
  moved-Answered (file bytes) folder files h k = h
  moved-Answered (link to) absent files h k = placed _ files k
  moved-Answered (link to) (file old) files h k = placed _ files k
  moved-Answered (link to) (link to') files h k = placed _ files k
  moved-Answered (link to) folder files h k = h
  moved-Answered folder absent files h k = placed _ files k
  moved-Answered folder (file old) files h k = h
  moved-Answered folder (link to) files h k = h
  moved-Answered folder folder files h k = h

  rename-Runs :
      Runs
        (λ files. Kept os before target files × Kept os before set.database files)
        (map_io_err io (rename os set.database target))
        (λ u. Replaced)
        Either
  unfolding rename
  rename-Runs =
      let both : Files → Type 0 =
        λ files. Kept os before target files × Kept os before set.database files in
      let call : Files → Result IoError (Unit {0}) × Files =
        λ files. moved os set.database target (files set.database) (files target) files in
      match_io-Runs (λ u. Replaced) (λ (e : IoError). Kept os before target) (λ u. Replaced) Either
        both (answer os call) pure (λ e. fail (io e))
        (answer_or-Runs os (λ u. Replaced) (λ e. Kept os before target) both (λ n files. files) call
          (λ files h. moved-Answered (files set.database) (files target) files h.0 (sym h.1))
          (λ files n code r h. h.0))
        (λ u w h. h) (λ e w h. inl h)

  stage-Runs :
      (stage : Option SqliteFileSetError)
      → Runs Replaced (stage_result stage) (λ u. Replaced) Either
  stage-Runs none w h = h
  stage-Runs (some e) w h = inr h

  sync_parent-Runs :
      (above : Option FilePath) → Runs Replaced (sync_parent os above) (λ u. Replaced) Either
  sync_parent-Runs none = λ w h. inr h
  sync_parent-Runs (some directory) =
      sync_directory-Runs os directory Replaced Either io (λ e files r h. inr h)

  publish_database-Runs :
      (post_rename : Option SqliteFileSetError)
      → set.checkpoint ≢ target
      → set.checkpoint ≢ set.database
      → Runs
          (λ files. Kept os before target files × Kept os before set.database files)
          (publish_database os set target post_rename)
          (λ u. Replaced)
          Either
  unfolding publish_database
  publish_database-Runs post_rename n n' =
      let both : Files → Type 0 =
        λ files. Kept os before target files × Kept os before set.database files in
      let done : Unit {0} → Files → Type 0 = λ u. Replaced in
      >>=-Runs (λ u. both) done Either both (remove_if_present os set.checkpoint) _
        (Runs-weaken (λ u. both) (λ u. both) (λ e. both) Either both
          (remove_if_present os set.checkpoint) (λ u files h. h) (λ e files h. inl h.0)
          (Runs-both (λ u. Kept os before target) (λ u. Kept os before set.database)
            (λ (e : SqliteFileSetError). Kept os before target)
            (λ (e : SqliteFileSetError). Kept os before set.database) (Kept os before target)
            (Kept os before set.database) (remove_if_present os set.checkpoint)
            (remove_if_present-Runs os before set.checkpoint target n)
            (remove_if_present-Runs os before set.checkpoint set.database n')))
        (λ u.
          >>=-Runs done done Either both (map_io_err io (rename os set.database target)) _
            rename-Runs
            (λ u.
              >>=-Runs done done Either Replaced (stage_result post_rename) _
                (stage-Runs post_rename) (λ u. sync_parent-Runs (parent target))))

  exists-Kept :
      (path : FilePath)
      → Runs
          (λ files. Kept os before target files × Kept os before set.database files)
          (exists os path)
          (λ b files. Kept os before target files × Kept os before set.database files)
          Either
  exists-Kept path =
      Runs-weaken (λ b files. Kept os before target files × Kept os before set.database files)
        (λ b files. Kept os before target files × Kept os before set.database files)
        (λ (e : SqliteFileSetError) files.
          Kept os before target files × Kept os before set.database files)
        Either (λ files. Kept os before target files × Kept os before set.database files)
        (exists os path) (λ b files h. h) (λ e files h. inl h.0)
        (Runs-both (λ b. Kept os before target) (λ b. Kept os before set.database)
          (λ e. Kept os before target) (λ e. Kept os before set.database) (Kept os before target)
          (Kept os before set.database) (exists os path)
          (exists-Runs os before path target (λ e. Kept os before target))
          (exists-Runs os before path set.database (λ e. Kept os before set.database)))

  -- Behind the two tests for the sidecars.
  tested-Runs :
      (post_rename : Option SqliteFileSetError) (sidecar : Bool)
      → All (λ path. path ≢ target) (paths set)
      → set.checkpoint ≢ set.database
      → Runs
          (λ files. Kept os before target files × Kept os before set.database files)
          (if sidecar
            then (remove os set >> retained os)
            else publish_database os set target post_rename)
          (λ u. Replaced)
          Either
  unfolding remove
  tested-Runs post_rename true n n' =
      >>=-Runs (λ u. Kept os before target) (λ (u : Unit {0}). Replaced) Either
        (λ files. Kept os before target files × Kept os before set.database files)
        (remove_all os (paths set)) (λ u. retained os)
        (λ w h.
          Runs-weaken (λ u. Kept os before target) (λ u. Kept os before target)
            (λ (e : SqliteFileSetError). Kept os before target) Either (Kept os before target)
            (remove_all os (paths set)) (λ u files h. h) (λ e files h. inl h)
            (remove_all-Runs os before (paths set) target n) w h.0)
        (λ u w h. inl h)
  tested-Runs post_rename false n n' = publish_database-Runs post_rename n.1.1.1.0 n'

  sidecar-Runs :
      (wal : Bool)
      → Runs
          (λ files. Kept os before target files × Kept os before set.database files)
          (if wal then pure true else exists os {E = SqliteFileSetError} set.shm)
          (λ b files. Kept os before target files × Kept os before set.database files)
          Either
  sidecar-Runs true = λ w h. h
  sidecar-Runs false = exists-Kept set.shm

  -- Under every refusal, the publication of a candidate ends. If it succeeds, the target has what was
  -- at the candidate's database path; if it fails, it has that or what it had before. The candidate's
  -- paths are other than the target, and its checkpoint other than its database.
  pub publish_candidate_is_atomic :
      (post_rename : Option SqliteFileSetError)
      → All (λ path. path ≢ target) (paths set)
      → set.checkpoint ≢ set.database
      → (calls : ℕ)
      → Ends
          (λ u files. files target ≡ before set.database)
          (λ e files. (files target ≡ before target) ⊎ (files target ≡ before set.database))
          (publish_candidate os set target post_rename (record { files = before; calls = calls }))
  unfolding publish_candidate
  publish_candidate_is_atomic post_rename n n' calls =
      let both : Bool → Files → Type 0 =
        λ b files. Kept os before target files × Kept os before set.database files in
      let done : Unit {0} → Files → Type 0 = λ u. Replaced in
      >>=-Runs both done Either (both true) (exists os set.wal) _ (exists-Kept set.wal)
        (λ wal.
          >>=-Runs both done Either (both true) (if wal then pure true else exists os set.shm) _
            (sidecar-Runs wal) (λ sidecar. tested-Runs post_rename sidecar n n'))
        (record { files = before; calls = calls }) (refl, refl)
