-- ===== src/SqliteFileset/Keeping.antt =====
-- What the removals and probes of src/sqlite_fileset.rs keep of the other paths.
use tine_storage.Base.{◌≡◌, ◌≢◌, ◌∙◌, false, List, [], ◌∷◌, All, ok}
use tine_storage.Files.{
  FilePath, Entry, absent, file, link, folder, IoError, not_found, already_exists, refused, Files,
  Faults, pure, answer, remove_file, removed, exists, follow,
}
use tine_storage.Files.Entries.{put_other}
use tine_storage.Files.Hoare.{Runs, Answered, >>=-Runs, match_io-Runs, answer_or-Runs}
use tine_storage.SqliteFileset.{SqliteFileSetError, remove_if_present, remove_all, absent_is_fine}

module _ (os : Faults) (before : Files) where
  -- The entry at a path is the one of before.
  abbrev pub Kept : FilePath → Files → Type 0
  Kept path files = files path ≡ before path

  removed-Answered :
      (path other : FilePath) (e : Entry) (files : Files)
      → path ≢ other
      → Kept other files
      → Answered (λ u. Kept other) (λ (f : IoError). Kept other) (removed os path e files)
  removed-Answered path other absent files n h = h
  removed-Answered path other (file bytes) files n h = put_other path other absent files n ∙ h
  removed-Answered path other (link to) files n h = put_other path other absent files n ∙ h
  removed-Answered path other folder files n h = h

  remove_file-Runs :
      (path other : FilePath)
      → path ≢ other
      → Runs (Kept other) (remove_file os path) (λ u. Kept other) (λ (f : IoError). Kept other)
  unfolding remove_file
  remove_file-Runs path other n =
      answer_or-Runs os (λ u. Kept other) (λ f. Kept other) (Kept other) (λ n files. files)
        (λ files. removed os path (files path) files)
        (λ files h. removed-Answered path other (files path) files n h) (λ files n code r h. h)

  absent_is_fine-Runs :
      (other : FilePath) (e : IoError)
      → Runs
          (Kept other)
          (absent_is_fine os tt e)
          (λ u. Kept other)
          (λ (f : SqliteFileSetError). Kept other)
  absent_is_fine-Runs other not_found w h = h
  absent_is_fine-Runs other already_exists w h = h
  absent_is_fine-Runs other (refused code) w h = h

  pub remove_if_present-Runs :
      (path other : FilePath)
      → path ≢ other
      → Runs
          (Kept other)
          (remove_if_present os path)
          (λ u. Kept other)
          (λ (f : SqliteFileSetError). Kept other)
  unfolding remove_if_present
  remove_if_present-Runs path other n =
      match_io-Runs (λ u. Kept other) (λ f. Kept other) (λ u. Kept other) (λ f. Kept other)
        (Kept other) (remove_file os path) (λ u. pure tt) (absent_is_fine os tt)
        (remove_file-Runs path other n) (λ u w h. h) (absent_is_fine-Runs other)

  pub remove_all-Runs :
      (ps : List FilePath) (other : FilePath)
      → All (λ path. path ≢ other) ps
      → Runs
          (Kept other)
          (remove_all os ps)
          (λ u. Kept other)
          (λ (f : SqliteFileSetError). Kept other)
  unfolding remove_all
  remove_all-Runs [] other n = λ w h. h
  remove_all-Runs (path ∷ ps) other (n, ns) =
      >>=-Runs (λ u. Kept other) (λ u. Kept other) (λ f. Kept other) (Kept other)
        (remove_if_present os path) _ (remove_if_present-Runs path other n)
        (λ u. remove_all-Runs ps other ns)

  pub exists-Runs :
      {E : Type 0} (path other : FilePath) (R : E → Files → Type 0)
      → Runs (Kept other) (exists os path) (λ b. Kept other) R
  unfolding exists
  exists-Runs path other R =
      match_io-Runs (λ b. Kept other) (λ (e : IoError). Kept other) (λ b. Kept other) R (Kept other)
        (answer os (λ files. (ok (follow os 40 files (files path)), files))) pure (λ e. pure false)
        (answer_or-Runs os (λ b. Kept other) (λ e. Kept other) (Kept other) (λ n files. files)
          (λ files. (ok (follow os 40 files (files path)), files)) (λ files h. h)
          (λ files n code r h. h))
        (λ b w h. h) (λ e w h. h)
