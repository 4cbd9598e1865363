-- ===== src/SqliteFileset.antt =====
-- src/sqlite_fileset.rs: the names of a SQLite file set, and the calls that publish, move and remove
-- its files. `std::fs` is modelled in Files.
pub mod Checkpoint
pub mod Sampling
pub mod Sampled
pub mod Replacement
pub mod Publication
pub mod Keeping
pub mod Candidate
pub mod Forensics
mod Examples
use tine_storage.Base.{
  ℕ, zero, suc, ◌*◌, ◌≡◌, Bool, true, false, ◌||◌, List, [], ◌∷◌, ◌++◌, Option, none, some, Bytes,
  String, length, ltb, if◌then◌else◌, Result, ok, err, stuck,
}
use tine_storage.Files.{
  FilePath, Entry, absent, file, link, folder, IoError, not_found, already_exists, refused, Files,
  World, Faults, Io, pure, fail, ◌>>=◌, ◌>>◌, match_io, map_io_err, symlink_metadata, create_new,
  write_all, sync_all, sync_directory, rename, remove_file, exists, parent, file_name, join,
}

abbrev pub max_sqlite_checkpoint_bytes : ℕ
max_sqlite_checkpoint_bytes = 64 * 1024

abbrev pub sqlite_checkpoint_temp_attempts : ℕ
sqlite_checkpoint_temp_attempts = 8

pub data SqliteFileSetError : Type 0 where
  io : IoError → SqliteFileSetError
  unsafe_path : String → SqliteFileSetError
  corrupt : String → SqliteFileSetError
  checkpoint_too_large : ℕ → ℕ → SqliteFileSetError
  candidate_retained_sidecars : SqliteFileSetError

pub record SqliteFileSet : Type 0 where
  pub database : FilePath
  pub wal : FilePath
  pub shm : FilePath
  pub checkpoint : FilePath

unfoldable pub appended_path : FilePath → Bytes → FilePath
appended_path [] suffix = suffix ∷ []
appended_path (name ∷ directory) suffix = (name ++ suffix) ∷ directory

-- `SqliteFileSet::new`
unfoldable pub new_file_set : FilePath → SqliteFileSet
unfolding appended_path
new_file_set database = record {
  database = database;
  wal = appended_path database (b'-' ∷ b'w' ∷ b'a' ∷ b'l' ∷ []);
  shm = appended_path database (b'-' ∷ b's' ∷ b'h' ∷ b'm' ∷ []);
  checkpoint = appended_path database (b'-' ∷ b'a' ∷ b'u' ∷ b't' ∷ b'h' ∷ []);
}

-- `SqliteFileSet::paths`
abbrev pub paths : SqliteFileSet → List FilePath
paths set = set.database ∷ set.wal ∷ set.shm ∷ set.checkpoint ∷ []

pub data CheckpointPublicationStage : Type 0 where
  file_synced : CheckpointPublicationStage
  replaced : CheckpointPublicationStage
  parent_sync_applied : CheckpointPublicationStage

-- The callback of the tests between two steps; it is `Ok` in production.
abbrev pub stage_result : Option SqliteFileSetError → Io SqliteFileSetError (Unit {0})
stage_result none = pure tt
stage_result (some e) = fail e

module _ (os : Faults) (temporary_name : Bytes → ℕ → Bytes)
    (post_stage : CheckpointPublicationStage → Option SqliteFileSetError)
    (is_utf8 : Bytes → Bool) where
  -- The closure that writes the temporary and renames it over the checkpoint.
  unfoldable pub write_and_replace :
      SqliteFileSet → FilePath → Bytes → FilePath → Io SqliteFileSetError (Unit {0})
  write_and_replace set directory bytes temporary = do
    map_io_err io (write_all os temporary bytes)
    map_io_err io (sync_all os)
    stage_result (post_stage file_synced)
    map_io_err io (rename os temporary set.checkpoint)
    stage_result (post_stage replaced)
    map_io_err io (sync_directory os directory)
    stage_result (post_stage parent_sync_applied)

  -- Errors of the cleanup other than `NotFound` are reported, where the closure succeeded.
  abbrev pub after_cleanup : IoError → Io SqliteFileSetError (Unit {0})
  after_cleanup not_found = pure tt
  after_cleanup already_exists = fail (io already_exists)
  after_cleanup (refused code) = fail (io (refused code))

  -- The temporary is removed after the closure, whatever it returned.
  unfoldable pub publish_through :
      SqliteFileSet → FilePath → Bytes → FilePath → Io SqliteFileSetError (Unit {0})
  unfolding write_and_replace
  publish_through set directory bytes temporary =
      match_io (write_and_replace set directory bytes temporary)
        (λ _. match_io (remove_file os temporary) (λ _. pure tt) after_cleanup)
        (λ e. match_io (remove_file os temporary) (λ _. fail e) (λ _. fail e))

  abbrev pub collision_or : Option IoError → IoError
  collision_or none = already_exists
  collision_or (some e) = e

  abbrev pub retry_or_fail :
      (IoError → Io SqliteFileSetError (Unit {0})) → IoError → Io SqliteFileSetError (Unit {0})
  retry_or_fail retry already_exists = retry already_exists
  retry_or_fail retry not_found = fail (io not_found)
  retry_or_fail retry (refused code) = fail (io (refused code))

  -- The loop over the attempts, of which `left` are left.
  unfoldable pub publish_attempts :
      ℕ
      → SqliteFileSet
      → FilePath
      → Bytes
      → Bytes
      → ℕ
      → Option IoError
      → Io SqliteFileSetError (Unit {0})
  unfolding publish_through
  publish_attempts zero set directory name bytes attempt last_collision =
      fail (io (collision_or last_collision))
  publish_attempts (suc left) set directory name bytes attempt last_collision =
      match_io (create_new os (join directory (temporary_name name attempt)))
        (λ _. publish_through set directory bytes (join directory (temporary_name name attempt)))
        (retry_or_fail (λ e. publish_attempts left set directory name bytes (suc attempt) (some e)))

  -- What `publish_checkpoint` does at a path with a parent and a name.
  unfoldable pub publish_below : SqliteFileSet → FilePath → Bytes → Io SqliteFileSetError (Unit {0})
  unfolding publish_attempts
  publish_below set [] bytes = fail (unsafe_path "checkpoint has no parent")
  publish_below set (name ∷ directory) bytes =
      if is_utf8 name
      then publish_attempts sqlite_checkpoint_temp_attempts set directory name bytes 0 none
      else fail (unsafe_path "checkpoint name is not UTF-8")

  -- `SqliteFileSet::publish_checkpoint_with`
  unfoldable pub publish_checkpoint_with : SqliteFileSet → Bytes → Io SqliteFileSetError (Unit {0})
  unfolding publish_below
  publish_checkpoint_with set bytes =
      if ltb max_sqlite_checkpoint_bytes (length bytes)
      then fail (checkpoint_too_large (length bytes) max_sqlite_checkpoint_bytes)
      else publish_below set set.checkpoint bytes

-- `.{name}.candidate-{uuid}.sqlite`
unfoldable pub candidate_name : Bytes → Bytes → Bytes
candidate_name name uuid =
    (b'.' ∷ name)
    ++ ((b'.' ∷ b'c' ∷ b'a' ∷ b'n' ∷ b'd' ∷ b'i' ∷ b'd' ∷ b'a' ∷ b't' ∷ b'e' ∷ b'-' ∷ [])
        ++ (uuid ++ (b'.' ∷ b's' ∷ b'q' ∷ b'l' ∷ b'i' ∷ b't' ∷ b'e' ∷ [])))

module _ (os : Faults) where
  abbrev pub absent_is_fine : {A : Type 0} → A → IoError → Io SqliteFileSetError A
  absent_is_fine a not_found = pure a
  absent_is_fine a already_exists = fail (io already_exists)
  absent_is_fine a (refused code) = fail (io (refused code))

  -- One round of `remove`, and the removal of the candidate's checkpoint.
  unfoldable pub remove_if_present : FilePath → Io SqliteFileSetError (Unit {0})
  remove_if_present path = match_io (remove_file os path) (λ _. pure tt) (absent_is_fine tt)

  unfoldable pub remove_all : List FilePath → Io SqliteFileSetError (Unit {0})
  unfolding remove_if_present
  remove_all [] = pure tt
  remove_all (path ∷ rest) = remove_if_present path >> remove_all rest

  -- `SqliteFileSet::remove`
  unfoldable pub remove : SqliteFileSet → Io SqliteFileSetError (Unit {0})
  unfolding remove_all
  remove set = remove_all (paths set)

  abbrev pub sync_parent : Option FilePath → Io SqliteFileSetError (Unit {0})
  sync_parent none = fail (unsafe_path "database has no parent")
  sync_parent (some directory) = map_io_err io (sync_directory os directory)

  -- What `publish_candidate` does where neither sidecar exists.
  unfoldable pub publish_database :
      SqliteFileSet → FilePath → Option SqliteFileSetError → Io SqliteFileSetError (Unit {0})
  unfolding remove_if_present
  publish_database set target post_rename = do
    remove_if_present set.checkpoint
    map_io_err io (rename os set.database target)
    stage_result post_rename
    sync_parent (parent target)

  abbrev pub retained : {A : Type 0} → Io SqliteFileSetError A
  retained = fail candidate_retained_sidecars

  -- `SqliteFileSet::publish_candidate_with_post_rename`
  unfoldable pub publish_candidate :
      SqliteFileSet → FilePath → Option SqliteFileSetError → Io SqliteFileSetError (Unit {0})
  unfolding publish_database remove
  publish_candidate set target post_rename = do
    wal ← exists os set.wal
    shm ← (if wal then pure true else exists os set.shm)
    if shm then (remove set >> retained) else publish_database set target post_rename

  abbrev pub any_of : List FilePath → Io SqliteFileSetError Bool
  any_of [] = pure false
  any_of (path ∷ rest) = exists os path >>= λ found. if found then pure true else any_of rest

  -- `SqliteFileSet::any_exists`
  unfoldable pub any_exists : SqliteFileSet → Io SqliteFileSetError Bool
  any_exists set = any_of (paths set)

  -- `SqliteFileSet::prepare_candidate`, with the text of the UUID that it takes.
  unfoldable pub prepare_candidate :
      (Bytes → Bool) → Bytes → FilePath → Io SqliteFileSetError SqliteFileSet
  unfolding new_file_set remove candidate_name
  prepare_candidate is_utf8 uuid [] = fail (unsafe_path "database path has no parent")
  prepare_candidate is_utf8 uuid (name ∷ above) =
      if is_utf8 name
      then (let candidate = new_file_set (join above (candidate_name name uuid)) in
          remove candidate >> pure candidate)
      else fail (unsafe_path "database file name is not UTF-8")
