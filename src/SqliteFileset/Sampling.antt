-- ===== src/SqliteFileset/Sampling.antt =====
-- `physical_checkpoint` of src/sqlite_fileset.rs: the digests of the sampled bytes.
use tine_storage.Base.{
  ℕ, ◌+◌, ◌-◌, ◌*◌, ◌/◌, List, [], ◌∷◌, ◌++◌, Option, none, some, Bytes, length, min, leb, ltb,
  slice, to_be_bytes, if◌then◌else◌, Result, ok, err,
}
use tine_storage.ContentDigest.{Sha256, of}
use tine_storage.Files.{
  FilePath, Entry, absent, file, link, folder, IoError, not_found, already_exists, refused, Files,
  Faults, Io, pure, fail, ◌>>=◌, match_io, map_io_err, answer, symlink_metadata,
}
use tine_storage.SqliteFileset.{SqliteFileSetError, io, unsafe_path, SqliteFileSet}
use tine_storage.SqliteFileset.Checkpoint.{
  CheckpointInteriorRange, interior_ranges, sqlite_checkpoint_edge_bytes,
}

pub record PhysicalFileCheckpoint : Type 0 where
  pub length : ℕ
  pub first_chunk_digest : Bytes
  pub last_chunk_digest : Bytes
  pub interior_sample_digest : Bytes

pub record PhysicalSqliteCheckpoint : Type 0 where
  pub database : PhysicalFileCheckpoint
  pub wal : Option PhysicalFileCheckpoint

-- The three domain separators, `tine/sqlite/checkpoint/v2/` with its ending and a zero.
abbrev separator : Bytes → Bytes
separator ending =
    b't' ∷ b'i' ∷ b'n' ∷ b'e' ∷ b'/' ∷ b's' ∷ b'q' ∷ b'l' ∷ b'i' ∷ b't' ∷ b'e' ∷ b'/' ∷ b'c' ∷ b'h'
      ∷ b'e' ∷ b'c' ∷ b'k' ∷ b'p' ∷ b'o' ∷ b'i' ∷ b'n' ∷ b't' ∷ b'/' ∷ b'v' ∷ b'2' ∷ b'/' ∷ ending
    ++ (0 ∷ [])

abbrev pub first_separator : Bytes
first_separator = separator (b'f' ∷ b'i' ∷ b'r' ∷ b's' ∷ b't' ∷ [])

abbrev pub last_separator : Bytes
last_separator = separator (b'l' ∷ b'a' ∷ b's' ∷ b't' ∷ [])

abbrev pub interior_separator : Bytes
interior_separator = separator (
    b'i' ∷ b'n' ∷ b't' ∷ b'e' ∷ b'r' ∷ b'i' ∷ b'o' ∷ b'r' ∷ b'-' ∷ b's' ∷ b'a' ∷ b'm' ∷ b'p' ∷ b'l'
    ∷ b'e' ∷ [])

-- `physical_file_checkpoint_sample_bytes`, where the product cannot overflow.
unfoldable pub sample_bytes : ℕ → ℕ
sample_bytes total = min total sqlite_checkpoint_edge_bytes * 2

abbrev pub contents_of : Entry → Files → Result IoError Bytes × Files
contents_of absent files = (err not_found, files)
contents_of (file bytes) files = (ok bytes, files)
contents_of (link to) files = (err (refused 0), files)
contents_of folder files = (err (refused 0), files)

module _ (os : Faults) (sha : Sha256) where
  -- `OpenOptions::new().read(true).open(path)` on what is no link; the handle reads these contents.
  unfoldable pub open_read : FilePath → Io IoError Bytes
  open_read path = answer os (λ files. contents_of (files path) files)

  -- `seek` and `read_exact`
  unfoldable pub read_at : Bytes → ℕ → ℕ → Io IoError Bytes
  read_at contents from count = answer os (λ files.
      if leb (from + count) (length contents)
      then (ok (slice from (from + count) contents), files)
      else (err (refused 1), files))

  -- The loop over the ranges, as what it appends.
  unfoldable pub read_ranges : Bytes → List CheckpointInteriorRange → Io SqliteFileSetError Bytes
  unfolding read_at
  read_ranges contents [] = pure []
  read_ranges contents (range ∷ ranges) = do
    bytes ← map_io_err io (read_at contents range.offset range.length)
    rest ← read_ranges contents ranges
    pure (to_be_bytes 8 range.offset ++ (to_be_bytes 8 range.length ++ (bytes ++ rest)))

  -- `physical_file_checkpoint_interior_digest`
  unfoldable pub interior_digest : Bytes → ℕ → Io SqliteFileSetError Bytes
  unfolding read_ranges
  interior_digest contents total = do
    let ranges = interior_ranges total
    sampled ← read_ranges contents ranges
    pure (
        of sha (
          interior_separator
          ++ (to_be_bytes 8 total ++ (to_be_bytes 4 (length ranges) ++ sampled))))

  -- The last chunk, which is the first one where the file has no more bytes.
  unfoldable pub read_last : Bytes → ℕ → ℕ → Bytes → Io SqliteFileSetError Bytes
  unfolding read_at
  read_last contents total chunk first =
      if ltb chunk total then map_io_err io (read_at contents (total - chunk) chunk) else pure first

  -- The reads behind the metadata.
  unfoldable pub sample_file : FilePath → ℕ → Io SqliteFileSetError PhysicalFileCheckpoint
  unfolding open_read read_at read_last interior_digest sample_bytes
  sample_file path total = do
    let chunk = sample_bytes total / 2
    contents ← map_io_err io (open_read path)
    first ← map_io_err io (read_at contents 0 chunk)
    last ← read_last contents total chunk first
    interior ← interior_digest contents total
    pure (record {
      length = total;
      first_chunk_digest = of sha (first_separator ++ (to_be_bytes 8 total ++ first));
      last_chunk_digest = of sha (last_separator ++ (to_be_bytes 8 total ++ last));
      interior_sample_digest = interior;
    })

  abbrev pub sample_entry : FilePath → Entry → Io SqliteFileSetError PhysicalFileCheckpoint
  sample_entry path absent = fail (unsafe_path "SQLite projection file is not regular")
  sample_entry path (file bytes) = sample_file path (length bytes)
  sample_entry path (link to) = fail (unsafe_path "SQLite projection file is not regular")
  sample_entry path folder = fail (unsafe_path "SQLite projection file is not regular")

  -- `physical_file_checkpoint`
  unfoldable pub physical_file_checkpoint : FilePath → Io SqliteFileSetError PhysicalFileCheckpoint
  unfolding sample_file
  physical_file_checkpoint path = do
    entry ← map_io_err io (symlink_metadata os path)
    sample_entry path entry

  abbrev some_of :
      Io SqliteFileSetError PhysicalFileCheckpoint
      → Io SqliteFileSetError (Option PhysicalFileCheckpoint)
  some_of m = m >>= λ found. pure (some found)

  -- An empty file counts as none; the metadata of what is no file has a length over 0.
  abbrev pub optional_entry :
      FilePath → Entry → Io SqliteFileSetError (Option PhysicalFileCheckpoint)
  optional_entry path (file []) = pure none
  optional_entry path entry = some_of (physical_file_checkpoint path)

  abbrev pub none_if_absent : IoError → Io SqliteFileSetError (Option PhysicalFileCheckpoint)
  none_if_absent not_found = pure none
  none_if_absent already_exists = fail (io already_exists)
  none_if_absent (refused code) = fail (io (refused code))

  -- `optional_physical_file_checkpoint`
  unfoldable pub optional_physical_file_checkpoint :
      FilePath → Io SqliteFileSetError (Option PhysicalFileCheckpoint)
  unfolding physical_file_checkpoint
  optional_physical_file_checkpoint path =
      match_io (symlink_metadata os path) (optional_entry path) none_if_absent

  -- `SqliteFileSet::physical_checkpoint`
  unfoldable pub physical_checkpoint :
      SqliteFileSet → Io SqliteFileSetError PhysicalSqliteCheckpoint
  unfolding physical_file_checkpoint optional_physical_file_checkpoint
  physical_checkpoint set = do
    database ← physical_file_checkpoint set.database
    wal ← optional_physical_file_checkpoint set.wal
    pure (record { database = database; wal = wal })
