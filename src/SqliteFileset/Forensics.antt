-- ===== src/SqliteFileset/Forensics.antt =====
-- The forensic moves of src/sqlite_fileset.rs: moving a file set away, and resuming a move that was
-- interrupted.
pub mod Moves
pub mod Resumption
pub mod Quiet
pub mod Recovery
use tine_storage.Base.{
  Bool, true, false, not, ◌&&◌, List, [], ◌∷◌, Option, none, some, Bytes, if◌then◌else◌, Result, ok,
  err, stuck,
}
use tine_storage.Files.{
  FilePath, Entry, absent, file, link, folder, IoError, not_found, already_exists, refused, Files,
  World, Faults, Io, pure, fail, ◌>>=◌, ◌>>◌, match_io, map_io_err, symlink_metadata,
  sync_directory, rename, exists, parent, join,
}
use tine_storage.SqliteFileset.{SqliteFileSetError, io, unsafe_path, corrupt, SqliteFileSet}

pub record SqliteForensicPathMapping : Type 0 where
  pub original_path : FilePath
  pub preserved_path : FilePath

-- `SqliteFileSet::forensic_path_mappings`
unfoldable pub forensic_path_mappings : SqliteFileSet → FilePath → List SqliteForensicPathMapping
forensic_path_mappings set directory =
    record {
      original_path = set.database;
      preserved_path = join directory (b'd' ∷ b'a' ∷ b't' ∷ b'a' ∷ b'b' ∷ b'a' ∷ b's' ∷ b'e' ∷ []);
    }
    ∷ record { original_path = set.wal; preserved_path = join directory (b'w' ∷ b'a' ∷ b'l' ∷ []) }
    ∷ record { original_path = set.shm; preserved_path = join directory (b's' ∷ b'h' ∷ b'm' ∷ []) }
    ∷ record {
      original_path = set.checkpoint;
      preserved_path = join directory (b'a' ∷ b'u' ∷ b't' ∷ b'h' ∷ []);
    }
    ∷ []

module _ (os : Faults) (above directory : FilePath) where
  -- The rename of one file, and the synchronization of both directories.
  unfoldable pub move : SqliteForensicPathMapping → Io SqliteFileSetError (Unit {0})
  move mapping = do
    map_io_err io (rename os mapping.original_path mapping.preserved_path)
    map_io_err io (sync_directory os directory)
    map_io_err io (sync_directory os above)

  -- Only what is a regular file is moved.
  abbrev pub move_regular : SqliteForensicPathMapping → Entry → Io SqliteFileSetError (Unit {0})
  move_regular mapping absent = fail (unsafe_path "projection evidence is not a regular file")
  move_regular mapping (file bytes) = move mapping
  move_regular mapping (link to) = fail (unsafe_path "projection evidence is not a regular file")
  move_regular mapping folder = fail (unsafe_path "projection evidence is not a regular file")

  abbrev pub skip_absent :
      Io SqliteFileSetError (List SqliteForensicPathMapping)
      → IoError
      → Io SqliteFileSetError (List SqliteForensicPathMapping)
  skip_absent rest not_found = rest
  skip_absent rest already_exists = fail (io already_exists)
  skip_absent rest (refused code) = fail (io (refused code))

  unfoldable pub preserve_loop :
      List SqliteForensicPathMapping → Io SqliteFileSetError (List SqliteForensicPathMapping)
  unfolding move
  preserve_loop [] = pure []
  preserve_loop (mapping ∷ mappings) =
      match_io (symlink_metadata os mapping.original_path)
        (λ entry.
          move_regular mapping entry
          >> (preserve_loop mappings >>= λ preserved. pure (mapping ∷ preserved)))
        (skip_absent (preserve_loop mappings))

  -- The moves of one mapping, given which of its paths exist.
  unfoldable pub resume_move :
      Bool → SqliteForensicPathMapping → Bool → Bool → Io SqliteFileSetError (Unit {0})
  unfolding move
  resume_move evidence_complete mapping original_exists preserved_exists =
      if not evidence_complete && (original_exists && preserved_exists)
      then fail (corrupt "forensic recovery found both paths")
      else (if not evidence_complete && original_exists
          then (map_io_err io (symlink_metadata os mapping.original_path) >>= move_regular mapping)
          else pure tt)

  unfoldable pub resume_one : Bool → SqliteForensicPathMapping → Io SqliteFileSetError Bool
  unfolding resume_move
  resume_one evidence_complete mapping = do
    original_exists ← exists os mapping.original_path
    preserved_exists ← exists os mapping.preserved_path
    resume_move evidence_complete mapping original_exists preserved_exists
    exists os mapping.preserved_path

  abbrev pub keep :
      Bool
      → SqliteForensicPathMapping
      → List SqliteForensicPathMapping
      → List SqliteForensicPathMapping
  keep true mapping mappings = mapping ∷ mappings
  keep false mapping mappings = mappings

  unfoldable pub resume_loop :
      Bool → List SqliteForensicPathMapping → Io SqliteFileSetError (List SqliteForensicPathMapping)
  unfolding resume_one
  resume_loop evidence_complete [] = pure []
  resume_loop evidence_complete (mapping ∷ mappings) = do
    kept ← resume_one evidence_complete mapping
    preserved ← resume_loop evidence_complete mappings
    pure (keep kept mapping preserved)

module _ (os : Faults) where
  abbrev pub with_parent :
      (FilePath → Io SqliteFileSetError (List SqliteForensicPathMapping))
      → Option FilePath
      → Io SqliteFileSetError (List SqliteForensicPathMapping)
  with_parent f none = fail (unsafe_path "database path has no parent")
  with_parent f (some above) = f above

  -- `SqliteFileSet::preserve_forensic_files`
  unfoldable pub preserve_forensic_files :
      SqliteFileSet → FilePath → Io SqliteFileSetError (List SqliteForensicPathMapping)
  unfolding preserve_loop forensic_path_mappings
  preserve_forensic_files set directory =
      with_parent (λ above. preserve_loop os above directory (forensic_path_mappings set directory))
        (parent set.database)

  -- `SqliteFileSet::resume_forensic_files`
  unfoldable pub resume_forensic_files :
      SqliteFileSet → FilePath → Bool → Io SqliteFileSetError (List SqliteForensicPathMapping)
  unfolding resume_loop forensic_path_mappings
  resume_forensic_files set directory evidence_complete =
      with_parent
        (λ above.
          resume_loop os above directory evidence_complete (forensic_path_mappings set directory))
        (parent set.database)
