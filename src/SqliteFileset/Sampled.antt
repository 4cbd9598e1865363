-- ===== src/SqliteFileset/Sampled.antt =====
-- Where nothing is refused, a regular file of any length has a physical checkpoint.
use tine_storage.Base.{
  ℕ, ◌+◌, ◌-◌, ◌*◌, ◌/◌, ◌≤◌, ◌≡◌, refl, ap, ◌∙◌, true, List, [], ◌∷◌, ◌++◌, Bytes, length, min,
  leb, ltb, slice, take, to_be_bytes, Bool-cases, inl, inr, arith,
}
use mathlib.Core.Path.{subst}
use native.Mathlib.Nat.{zero-add}
use tine_storage.ContentDigest.{Sha256, of}
use tine_storage.Files.{FilePath, file, Files, World, map_io_err, symlink_metadata}
use tine_storage.Files.Hoare.{Runs, Ends, >>=-Runs}
use tine_storage.SqliteFileset.{SqliteFileSetError, io}
use tine_storage.SqliteFileset.Checkpoint.{
  CheckpointInteriorRange, interior_ranges, Between, interior_ranges_lem,
}
use tine_storage.SqliteFileset.Sampling.{
  PhysicalFileCheckpoint, first_separator, last_separator, sample_bytes, open_read, read_at,
  read_ranges, interior_digest, read_last, sample_file, physical_file_checkpoint,
}
use tine_storage.SqliteFileset.Forensics.Quiet.{quiet}

module _ (sha : Sha256) (fs : Files) (contents : Bytes) where
  -- The files stay as they are.
  abbrev Still : {A : Type 0} → A → Files → Type 0
  Still a files = files ≡ fs

  abbrev Silent : SqliteFileSetError → Files → Type 0
  Silent e files = ⊥

  read_at-Runs :
      (from count : ℕ)
      → from + count ≤ length contents
      → Runs
          (λ files. files ≡ fs)
          (map_io_err io (read_at quiet sha contents from count))
          (λ bytes files. (bytes ≡ slice from (from + count) contents) × (files ≡ fs))
          Silent
  unfolding read_at
  read_at-Runs from count h w p =
      let within : leb (from + count) (length contents) ≡ true = ground arith in rw within (refl, p)

  read_ranges-Runs :
      (ranges : List CheckpointInteriorRange) (from to : ℕ)
      → Between from to ranges
      → to ≤ length contents
      → Runs (λ files. files ≡ fs) (read_ranges quiet sha contents ranges) Still Silent
  unfolding read_ranges
  read_ranges-Runs [] from to h k = λ w p. p
  read_ranges-Runs (range ∷ ranges) from to (a, b, h) k =
      >>=-Runs
        (λ bytes files.
          (bytes ≡ slice range.offset (range.offset + range.length) contents) × (files ≡ fs))
        Still Silent (λ files. files ≡ fs)
        (map_io_err io (read_at quiet sha contents range.offset range.length)) _
        (read_at-Runs range.offset range.length (omega arith))
        (λ bytes w p.
          >>=-Runs Still Still Silent (λ files. files ≡ fs) (read_ranges quiet sha contents ranges)
            _ (read_ranges-Runs ranges (range.offset + range.length) to h k) (λ rest w q. q) w p.1)

  interior_digest-Runs :
      Runs (λ files. files ≡ fs) (interior_digest quiet sha contents (length contents)) Still Silent
  unfolding interior_digest
  interior_digest-Runs =
      let total = length contents in
      >>=-Runs Still Still Silent (λ files. files ≡ fs)
        (read_ranges quiet sha contents (interior_ranges total)) _
        (read_ranges-Runs (interior_ranges total) (min total 65536) (total - min total 65536)
          (interior_ranges_lem total).0 (omega arith))
        (λ sampled w p. p)

  read_last-Runs :
      (chunk : ℕ) (first : Bytes)
      → chunk ≡ min (length contents) 65536
      → first ≡ slice 0 (0 + chunk) contents
      → Runs
          (λ files. files ≡ fs)
          (read_last quiet sha contents (length contents) chunk first)
          (λ bytes files.
            (bytes ≡ slice (length contents - chunk) (length contents) contents) × (files ≡ fs))
          Silent
  unfolding read_last
  read_last-Runs chunk first h front =
      let total = length contents in
      elim (Bool-cases (ltb chunk total)) [
        | inl longer ↦
            let e : total - chunk + chunk ≡ total = omega arith in
            let read = read_at-Runs (total - chunk) chunk (omega arith) in
            rw longer (
              subst
                (λ end.
                  Runs (λ files. files ≡ fs)
                    (map_io_err io (read_at quiet sha contents (total - chunk) chunk))
                    (λ bytes files. (bytes ≡ slice (total - chunk) end contents) × (files ≡ fs))
                    Silent)
                e read)
        | inr whole ↦
            let all : chunk ≡ total = ground arith in
            let none_before : total - chunk ≡ 0 = omega arith in
            rw (whole, none_before)
              (λ w p. (front ∙ ap (λ n. slice 0 n contents) (zero-add chunk ∙ all), p))
      ]

  open_read-Runs :
      (path : FilePath)
      → fs path ≡ file contents
      → Runs
          (λ files. files ≡ fs)
          (map_io_err io (open_read quiet sha path))
          (λ found files. (found ≡ contents) × (files ≡ fs))
          Silent
  unfolding open_read
  open_read-Runs path here w p =
      let at : w.files path ≡ file contents = ap (λ g. g path) p ∙ here in rw at (refl, p)

  -- What the checkpoint of the contents says.
  abbrev pub Describes : PhysicalFileCheckpoint → Type 0
  Describes found =
      (found.length ≡ length contents)
      × (found.first_chunk_digest
          ≡ of sha (
              first_separator
              ++ (to_be_bytes 8 (length contents) ++ take (min (length contents) 65536) contents)))
      × (found.last_chunk_digest
          ≡ of sha (
              last_separator
              ++ (to_be_bytes 8 (length contents)
                  ++ slice (length contents - min (length contents) 65536) (length contents)
                      contents)))

  -- The record that the chunks make.
  described :
      (first last interior : Bytes)
      → first ≡ take (min (length contents) 65536) contents
      → last ≡ slice (length contents - min (length contents) 65536) (length contents) contents
      → Describes (record {
        length = length contents;
        first_chunk_digest = of sha (first_separator ++ (to_be_bytes 8 (length contents) ++ first));
        last_chunk_digest = of sha (last_separator ++ (to_be_bytes 8 (length contents) ++ last));
        interior_sample_digest = interior;
      })
  described first last interior e e' = rw (e, e') (refl, refl, refl)

  sample_file-Runs :
      (path : FilePath)
      → fs path ≡ file contents
      → Runs
          (λ files. files ≡ fs)
          (sample_file quiet sha path (length contents))
          (λ found files. Describes found × (files ≡ fs))
          Silent
  unfolding sample_file sample_bytes
  sample_file-Runs path here =
      let total = length contents in
      let edge = min total 65536 in
      let e : edge * 2 / 2 ≡ edge = omega arith in
      let front : slice 0 (0 + edge) contents ≡ take edge contents =
        let same : 0 + edge - 0 ≡ edge = omega arith in ap (λ n. take n contents) same in
      let end : PhysicalFileCheckpoint → Files → Type 0 =
        λ found files. Describes found × (files ≡ fs) in
      rw e (
        >>=-Runs (λ found files. (found ≡ contents) × (files ≡ fs)) end Silent (λ files. files ≡ fs)
          (map_io_err io (open_read quiet sha path)) _ (open_read-Runs path here)
          (λ found w p. rw p.0 (
            >>=-Runs (λ first files. (first ≡ slice 0 (0 + edge) contents) × (files ≡ fs)) end
              Silent (λ files. files ≡ fs) (map_io_err io (read_at quiet sha contents 0 edge)) _
              (read_at-Runs 0 edge (omega arith))
              (λ first v q.
                >>=-Runs (λ last files. (last ≡ slice (total - edge) total contents) × (files ≡ fs))
                  end Silent (λ files. files ≡ fs) (read_last quiet sha contents total edge first) _
                  (read_last-Runs edge first refl q.0)
                  (λ last u r.
                    >>=-Runs Still end Silent (λ files. files ≡ fs)
                      (interior_digest quiet sha contents total) _ interior_digest-Runs
                      (λ interior t s. (described first last interior (q.0 ∙ front) r.0, s)) u r.1)
                  v q.1)
              w p.1)))

-- Where no call is refused, the physical checkpoint of a regular file of any length is computed
-- without an error, no read reaches behind the end of the file, and the files stay as they are. It
-- states the length of the file, and the digests of its first and its last 64 KiB, or of all its
-- bytes if it has fewer, each behind its separator and the length.
pub physical_file_checkpoint_lem :
    (sha : Sha256) (path : FilePath) (contents : Bytes) (w : World)
    → w.files path ≡ file contents
    → Ends
        (λ found files. Describes sha w.files contents found × (files ≡ w.files))
        (λ (e : SqliteFileSetError) files. ⊥)
        (physical_file_checkpoint quiet sha path w)
unfolding physical_file_checkpoint symlink_metadata
physical_file_checkpoint_lem sha path contents w here =
    rw here (sample_file-Runs sha w.files contents path here _ refl)
