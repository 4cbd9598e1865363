-- ===== src/LocalJournalV2/Writes.antt =====
-- The calls by which `append` of src/local_journal_v2.rs writes: the frame into the segment, its
-- synchronization, `publish_frontier_durable` on unix, and the read that verifies it.
use tine_storage.Base.{ℕ, [], ◌∷◌, ◌++◌, String, Bytes, take, Result, ok, err}
use tine_storage.Files.{
  FilePath, Entry, absent, file, link, folder, IoError, not_found, refused, Files, put, Faults, Io,
  map_io_err, answer_or, answer, create_new, write_all, sync_all, sync_directory, rename, ◌>>=◌,
  ◌>>◌,
}
use tine_storage.LocalJournal.Errors.{LocalJournalError}
use tine_storage.LocalJournal.Errors.LocalJournalError.{io}
use tine_storage.LocalJournal.Segment.{write_at}
use tine_storage.LocalJournalV2.Segment.{Selection, Disk, verify_regular_exact}

-- What an append meets: the calls that are refused, the text of the identifier that
-- `Uuid::new_v4` returns, the texts of errors, and the other entries of the journal's directory.
pub record Setting : Type 0 where
  pub os : Faults
  pub uuid : Bytes
  pub text : IoError → String
  pub others : Files

-- A name in the journal's directory.
abbrev pub in_directory : Bytes → FilePath
in_directory name = name ∷ []

-- The directory with the two files of a segment, and these files read off it.
abbrev pub files_of : Selection → Disk → Files → Files
files_of selection disk others =
    put (in_directory selection.segment_name) (file disk.segment)
      (put (in_directory selection.frontier_name) (file disk.frontier) others)

abbrev pub content : Entry → Bytes
content (file bytes) = bytes
content absent = []
content (link to) = []
content folder = []

abbrev pub disk_of : Selection → Files → Disk
disk_of selection files = record {
  segment = content (files (in_directory selection.segment_name));
  frontier = content (files (in_directory selection.frontier_name));
}

-- `.{name}.{uuid}.tmp`
unfoldable pub frontier_temp_name : Bytes → Bytes → Bytes
frontier_temp_name name uuid = (b'.' ∷ name) ++ ((b'.' ∷ uuid) ++ (b'.' ∷ b't' ∷ b'm' ∷ b'p' ∷ []))

abbrev pub read_of : Entry → Files → Result IoError Bytes × Files
read_of (file bytes) files = (ok bytes, files)
read_of absent files = (err not_found, files)
read_of (link to) files = (err (refused 0), files)
read_of folder files = (err (refused 0), files)

module _ (setting : Setting) where
  abbrev pub failed : IoError → LocalJournalError
  failed e = io (setting.text e)

  -- `write_segment_for_append`, with what a refused write has written.
  unfoldable pub write_segment_for_append : FilePath → ℕ → Bytes → Io IoError (Unit {0})
  write_segment_for_append path cursor bytes =
      answer_or setting.os
        (λ n files.
          put path (file (write_at cursor (take (setting.os.torn n) bytes) (content (files path))))
            files)
        (λ files. (ok tt, put path (file (write_at cursor bytes (content (files path)))) files))

  -- `publish_frontier_durable` on unix
  unfoldable pub publish_frontier_durable : Bytes → Bytes → Io LocalJournalError (Unit {0})
  publish_frontier_durable name bytes =
      let temporary = in_directory (frontier_temp_name name setting.uuid) in
      do
        map_io_err failed (create_new setting.os temporary)
        map_io_err failed (write_all setting.os temporary bytes)
        map_io_err failed (sync_all setting.os)
        map_io_err failed (rename setting.os temporary (in_directory name))
        map_io_err failed (sync_directory setting.os [])

  -- The read of `verify_regular_exact`, which follows no link, with its comparison.
  unfoldable pub verify_frontier : Bytes → Bytes → Io LocalJournalError (Unit {0})
  verify_frontier name expected =
      map_io_err failed (answer setting.os (λ files. read_of (files (in_directory name)) files))
      >>= λ found w. (verify_regular_exact found expected, w)

  -- The writes of `append`.
  unfoldable pub append_writes : Selection → ℕ → Bytes → Bytes → Io LocalJournalError (Unit {0})
  append_writes selection cursor bytes successor_bytes = do
    map_io_err failed (write_segment_for_append (in_directory selection.segment_name) cursor bytes)
    map_io_err failed (sync_all setting.os)
    publish_frontier_durable selection.frontier_name successor_bytes
    verify_frontier selection.frontier_name successor_bytes
