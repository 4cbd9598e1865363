-- ===== src/SqliteFileset/Publication.antt =====
-- `publish_checkpoint` of src/sqlite_fileset.rs under every refusal of the operating system.
use tine_storage.Base.{
  ℕ, zero, suc, ◌+◌, ◌<◌, ◌≤◌, true, arith, ◌≡◌, ◌≢◌, refl, sym, ap, ◌∙◌, Bool, [], ◌∷◌, Option,
  none, some, ◌⊎◌, Bytes, length, ltb, ltb→lt, Bool-cases, inl, inr, Result,
}
use native.Mathlib.Nat.{eq-or-lt_of_le}
use tine_storage.Files.{
  FilePath, Entry, absent, file, link, folder, IoError, not_found, already_exists, refused, Files,
  put, Faults, Io, answer, create_new, created, join,
}
use tine_storage.Files.Hoare.{
  Runs, Ends, Answered, match_io-Runs, answer_or-Runs, Runs-weaken, Refuses,
}
use tine_storage.SqliteFileset.{
  SqliteFileSetError, SqliteFileSet, CheckpointPublicationStage, retry_or_fail, publish_attempts,
  publish_below, publish_through, publish_checkpoint_with,
}
use tine_storage.SqliteFileset.Replacement.{Published, Failed, Blame, publish_through-Runs}

first_of : Bytes → FilePath → Bytes
first_of other [] = other
first_of other (name ∷ directory) = name

module _ (os : Faults) (temporary_name : Bytes → ℕ → Bytes)
    (post_stage : CheckpointPublicationStage → Option SqliteFileSetError) (is_utf8 : Bytes → Bool)
    (before : Files) (set : SqliteFileSet) (bytes : Bytes) where
  abbrev Good : Files → Type 0
  Good = Published before set.checkpoint bytes

  -- What a publication can fail for: a refusal, the callback or a directory in the checkpoint's
  -- place; too many bytes; a path with no parent or a name that is not UTF-8; or something at each
  -- of the eight temporary paths.
  abbrev pub Cause : Type 0
  Cause =
      Blame os temporary_name post_stage is_utf8 before set bytes
      ⊎ ((65536 < length bytes)
          ⊎ (((name : Bytes)
                → is_utf8 name ≡ true
                → (directory : FilePath) → set.checkpoint ≢ name ∷ directory)
              ⊎ ((directory : FilePath) × (name : Bytes) × (set.checkpoint ≡ name ∷ directory)
                  × ((attempt : ℕ)
                      → attempt < 8
                      → before (join directory (temporary_name name attempt)) ≢ absent))))

  abbrev Bad : SqliteFileSetError → Files → Type 0
  Bad e files = Cause × Failed before set.checkpoint bytes files

  abbrev Uncreated : FilePath → IoError → Files → Type 0
  Uncreated temporary e files =
      (((e ≡ already_exists) × (before temporary ≢ absent))
        ⊎ ((code : ℕ) × (e ≡ refused code) × Refuses os))
      × (files ≡ before)

  created-Answered :
      (temporary : FilePath) (here : Entry) (files : Files)
      → files ≡ before
      → before temporary ≡ here
      → Answered
          (λ u files. (before temporary ≡ absent) × (files ≡ put temporary (file []) before))
          (Uncreated temporary)
          (created os temporary here files)
  created-Answered temporary absent files p here = (here, ap (put temporary (file [])) p)
  created-Answered temporary (file old) files p here = (inl (refl, λ a. cc (a, here)), p)
  created-Answered temporary (link to) files p here = (inl (refl, λ a. cc (a, here)), p)
  created-Answered temporary folder files p here = (inl (refl, λ a. cc (a, here)), p)

  retry-Runs :
      (temporary : FilePath) (retry : IoError → Io SqliteFileSetError (Unit {0}))
      → (before temporary ≢ absent
          → Runs (λ files. files ≡ before) (retry already_exists) (λ u. Good) Bad)
      → (e : IoError)
      → Runs
          (Uncreated temporary e)
          (retry_or_fail os temporary_name post_stage is_utf8 retry e)
          (λ u. Good)
          Bad
  retry-Runs temporary retry h already_exists w (inl (e, taken), p) = h taken w p
  retry-Runs temporary retry h already_exists w (inr (code, e, r), p) = absurd (cc e)
  retry-Runs temporary retry h not_found w (inl (e, taken), p) = absurd (cc e)
  retry-Runs temporary retry h not_found w (inr (code, e, r), p) = absurd (cc e)
  retry-Runs temporary retry h (refused code) w (inl (e, taken), p) = absurd (cc e)
  retry-Runs temporary retry h (refused code) w (inr (same, e, r), p) = (inl (inl r), inl p)

  module _ (directory : FilePath) (name : Bytes) (here : set.checkpoint ≡ name ∷ directory)
      (apart : (attempt : ℕ) → join directory (temporary_name name attempt) ≢ set.checkpoint) where
    also :
        (attempt : ℕ)
        → ((k : ℕ) → k < attempt → before (join directory (temporary_name name k)) ≢ absent)
        → before (join directory (temporary_name name attempt)) ≢ absent
        → (k : ℕ) → k < suc attempt
        → before (join directory (temporary_name name k)) ≢ absent
    also attempt taken now k h free =
        let bound : k ≤ attempt = omega (arith, h) in
        elim (eq-or-lt_of_le bound) [
          | inr below ↦ taken k below free
          | inl same ↦
              now (ap (λ n. before (join directory (temporary_name name n))) (sym same) ∙ free)
        ]

    publish_attempts-Runs :
        (left attempt : ℕ) (last : Option IoError)
        → left + attempt ≡ 8
        → ((k : ℕ) → k < attempt → before (join directory (temporary_name name k)) ≢ absent)
        → Runs
            (λ files. files ≡ before)
            (publish_attempts os temporary_name post_stage is_utf8 left set directory name bytes
              attempt last)
            (λ u. Good)
            Bad
    unfolding publish_attempts create_new
    publish_attempts-Runs zero attempt last e taken = λ w p.
        (inr (inr (inr (directory, name, here, λ k h. taken k (omega (arith, e, h))))), inl p)
    publish_attempts-Runs (suc left) attempt last e taken =
        let temporary = join directory (temporary_name name attempt) in
        let made : Unit {0} → Files → Type 0 =
          λ u files. (before temporary ≡ absent) × (files ≡ put temporary (file []) before) in
        let kept : IoError → Files → Type 0 = Uncreated temporary in
        let call : Files → Result IoError (Unit {0}) × Files =
          λ files. created os temporary (files temporary) files in
        match_io-Runs made kept (λ u. Good) Bad (λ files. files ≡ before) (answer os call) _ _
          (answer_or-Runs os made kept (λ files. files ≡ before) (λ n files. files) call
            (λ files p.
              created-Answered temporary (files temporary) files p
                (ap (λ fs. fs temporary) (sym p)))
            (λ files n code r p. (inr (code, refl, (n, code, r)), p)))
          (λ u w p.
            Runs-weaken (λ v. Good) (λ v. Good)
              (λ e files.
                Blame os temporary_name post_stage is_utf8 before set bytes
                × Failed before set.checkpoint bytes files)
              Bad (λ files. files ≡ put temporary (file []) before)
              (publish_through os temporary_name post_stage is_utf8 set directory bytes temporary)
              (λ v files q. q) (λ e files q. (inl q.0, q.1))
              (publish_through-Runs os temporary_name post_stage is_utf8 before set bytes temporary
                p.0 (apart attempt) directory)
              w p.1)
          (retry-Runs temporary
            (λ e.
              publish_attempts os temporary_name post_stage is_utf8 left set directory name bytes
                (suc attempt) (some e))
            (λ now.
              publish_attempts-Runs left (suc attempt) (some already_exists) (omega (arith, e))
                (also attempt taken now)))

  -- Under every refusal, at whatever call, the publication of a checkpoint ends. If it succeeds, the
  -- files are as before but for the whole bytes at the checkpoint's path. If it fails, they are as
  -- before, or as before but for one temporary at a path where nothing was, or as before but for the
  -- whole bytes at the checkpoint's path: nothing that existed is lost, and the checkpoint is never
  -- torn. A failure has a cause: a refusal, the callback, a directory in the checkpoint's place, more
  -- bytes than the bound, an unsafe path, or something at each of the eight temporary paths. So with
  -- no cause the publication succeeds. A temporary name is to be other than the name it is made from.
  pub publish_checkpoint_is_atomic :
      ((name : Bytes) (attempt : ℕ) → temporary_name name attempt ≢ name)
      → (calls : ℕ)
      → Ends
          (λ (u : Unit {0}). Published before set.checkpoint bytes)
          (λ (e : SqliteFileSetError) files. Cause × Failed before set.checkpoint bytes files)
          (publish_checkpoint_with os temporary_name post_stage is_utf8 set bytes
            (record { files = before; calls = calls }))
  unfolding publish_checkpoint_with publish_below first_of
  publish_checkpoint_is_atomic apart calls = elim (Bool-cases (ltb 65536 (length bytes))) [
    | inl large ↦
        let many : 65536 < length bytes = ltb→lt 65536 (length bytes) large in
        rw large (inr (inl many), inl refl)
    | inr small ↦
        rw small (below set.checkpoint refl (record { files = before; calls = calls }) refl)
  ]
    where
      below :
          (path : FilePath)
          → set.checkpoint ≡ path
          → Runs
              (λ files. files ≡ before)
              (publish_below os temporary_name post_stage is_utf8 set path bytes)
              (λ u. Good)
              Bad
      below [] here = λ w p. (inr (inr (inl (λ name valid directory e. cc (e, here)))), inl p)
      below (name ∷ directory) here = λ w p. elim (Bool-cases (is_utf8 name)) [
        | inl valid ↦ rw valid (
            publish_attempts-Runs directory name here
              (λ attempt e. apart name attempt (ap (first_of name) (e ∙ here))) 8 0 none refl
              (λ k h. absurd (omega (arith, h))) w p)
        | inr invalid ↦ rw invalid (
          inr (
              inr (
                inl (λ other valid above e.
                  let same : other ≡ name = ap (first_of []) (sym e ∙ here) in
                  cc (valid, same, invalid)))),
          inl p,
        )
      ]
