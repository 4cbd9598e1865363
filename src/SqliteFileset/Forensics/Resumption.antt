-- ===== src/SqliteFileset/Forensics/Resumption.antt =====
-- An interrupted forensic move, resumed, ends where an uninterrupted one does.
use tine_storage.Base.{
  ◌≡◌, ◌≢◌, refl, sym, ap, ◌∙◌, List, [], ◌∷◌, ◌++◌, Bytes, ◌⊎◌, inl, inr, Result,
}
use tine_storage.Files.{
  FilePath, Entry, absent, file, link, folder, IoError, not_found, already_exists, refused, Files,
  put, Faults, Io, pure, fail, ◌>>=◌, map_io_err, answer, symlink_metadata, metadata_of,
  sync_directory, rename, moved,
}
use tine_storage.Files.Hoare.{
  Runs, Answered, >>=-Runs, match_io-Runs, answer_or-Runs, Refuses, Runs-weaken,
  sync_directory-Runs,
}
use tine_storage.Order.Pairs.{AllPairs}
use tine_storage.SqliteFileset.{SqliteFileSetError, io}
use tine_storage.SqliteFileset.Forensics.{
  SqliteForensicPathMapping, move, move_regular, skip_absent, preserve_loop,
}
use tine_storage.SqliteFileset.Forensics.Moves.{
  moved_one, moved_all, Disjoint, Fresh, AllFresh, moved_one-All, moved_one-absent,
}

module _ (os : Faults) (above directory : FilePath) where
  -- A move that fails has met a refusal, and has moved the file or not.
  abbrev pub Interrupted : SqliteForensicPathMapping → Files → SqliteFileSetError → Files → Type 0
  Interrupted m fs e files = Refuses os × ((files ≡ fs) ⊎ (files ≡ moved_one m fs))

  synced-Runs :
      (path : FilePath) (m : SqliteForensicPathMapping) (fs : Files)
      → Runs
          (λ files. files ≡ moved_one m fs)
          (map_io_err io (sync_directory os path))
          (λ u files. files ≡ moved_one m fs)
          (Interrupted m fs)
  synced-Runs path m fs =
      sync_directory-Runs os path (λ files. files ≡ moved_one m fs) (Interrupted m fs) io
        (λ e files r p. (r, inr p))

  rename_entry :
      (m : SqliteForensicPathMapping) (bytes : Bytes) (fs : Files)
      → fs m.original_path ≡ file bytes
      → fs m.preserved_path ≡ absent
      → Runs
          (λ files. files ≡ fs)
          (map_io_err io (rename os m.original_path m.preserved_path))
          (λ u files. files ≡ moved_one m fs)
          (Interrupted m fs)
  unfolding rename
  rename_entry m bytes fs ho hp =
      let call : Files → Result IoError (Unit {0}) × Files = λ files.
        moved os m.original_path m.preserved_path (files m.original_path) (files m.preserved_path)
          files in
      let kept : IoError → Files → Type 0 = λ e files. Refuses os × (files ≡ fs) in
      let there : Unit {0} → Files → Type 0 = λ u files. files ≡ moved_one m fs in
      match_io-Runs there kept there (Interrupted m fs) (λ files. files ≡ fs) (answer os call) pure
        (λ e. fail (io e))
        (answer_or-Runs os there kept (λ files. files ≡ fs) (λ n files. files) call
          (λ files p.
            let a : files m.original_path ≡ file bytes = ap (λ g. g m.original_path) p ∙ ho in
            let b : files m.preserved_path ≡ absent = ap (λ g. g m.preserved_path) p ∙ hp in
            rw (a, b, ho)
              (ap (λ g. put m.preserved_path (file bytes) (put m.original_path absent g)) p))
          (λ files n code r p. ((n, code, r), p)))
        (λ u w p. p) (λ e w p. (p.0, inl p.1))

  pub move-Runs :
      (m : SqliteForensicPathMapping) (bytes : Bytes) (fs : Files)
      → fs m.original_path ≡ file bytes
      → fs m.preserved_path ≡ absent
      → Runs
          (λ files. files ≡ fs)
          (move os above directory m)
          (λ u files. files ≡ moved_one m fs)
          (Interrupted m fs)
  unfolding move
  move-Runs m bytes fs ho hp =
      let there : Unit {0} → Files → Type 0 = λ u files. files ≡ moved_one m fs in
      >>=-Runs there there (Interrupted m fs) (λ files. files ≡ fs)
        (map_io_err io (rename os m.original_path m.preserved_path)) _
        (rename_entry m bytes fs ho hp)
        (λ u.
          >>=-Runs there there (Interrupted m fs) (λ files. files ≡ moved_one m fs)
            (map_io_err io (sync_directory os directory)) _ (synced-Runs directory m fs)
            (λ u. synced-Runs above m fs))

  -- An error is a refusal, or says that there is no original.
  abbrev pub Unread : SqliteForensicPathMapping → Files → IoError → Files → Type 0
  Unread m fs e files =
      (files ≡ fs)
      × ((Refuses os × (e ≢ not_found)) ⊎ ((e ≡ not_found) × (fs m.original_path ≡ absent)))

  metadata-Answered :
      (m : SqliteForensicPathMapping) (fs files : Files) (e : Entry)
      → files ≡ fs
      → fs m.original_path ≡ e
      → Answered
          (λ e files. (fs m.original_path ≡ e) × (files ≡ fs))
          (Unread m fs)
          (metadata_of os e files)
  metadata-Answered m fs files absent p h = (p, inr (refl, h))
  metadata-Answered m fs files (file bytes) p h = (h, p)
  metadata-Answered m fs files (link to) p h = (h, p)
  metadata-Answered m fs files folder p h = (h, p)

  pub metadata-Runs :
      (m : SqliteForensicPathMapping) (fs : Files)
      → Runs
          (λ files. files ≡ fs)
          (symlink_metadata os m.original_path)
          (λ e files. (fs m.original_path ≡ e) × (files ≡ fs))
          (Unread m fs)
  unfolding symlink_metadata
  metadata-Runs m fs =
      answer_or-Runs os (λ e files. (fs m.original_path ≡ e) × (files ≡ fs)) (Unread m fs)
        (λ files. files ≡ fs) (λ n files. files)
        (λ files. metadata_of os (files m.original_path) files)
        (λ files p.
          metadata-Answered m fs files (files m.original_path) p
            (ap (λ g. g m.original_path) (sym p)))
        (λ files n code r p. (p, inl ((n, code, r), λ e. cc)))

  -- The mappings up to some point are moved and the others are not.
  abbrev pub Reached : List SqliteForensicPathMapping → Files → Files → Type 0
  Reached ms fs files =
      (done : List SqliteForensicPathMapping) × (rest : List SqliteForensicPathMapping) × (ms
        ≡ done ++ rest)
      × (files ≡ moved_all done fs)

  move_regular-Runs :
      (m : SqliteForensicPathMapping) (fs : Files) (e : Entry)
      → fs m.original_path ≡ e
      → Fresh (fs m.original_path) (fs m.preserved_path)
      → Runs
          (λ files. files ≡ fs)
          (move_regular os above directory m e)
          (λ u files. files ≡ moved_one m fs)
          (λ e files. (files ≡ fs) ⊎ (files ≡ moved_one m fs))
  move_regular-Runs m fs absent h fresh = λ w p. inl p
  move_regular-Runs m fs (file bytes) h fresh =
      Runs-weaken (λ u files. files ≡ moved_one m fs) (λ u files. files ≡ moved_one m fs)
        (Interrupted m fs) (λ e files. (files ≡ fs) ⊎ (files ≡ moved_one m fs))
        (λ files. files ≡ fs) (move os above directory m) (λ u files p. p) (λ e files p. p.1)
        (move-Runs m bytes fs h fresh.0)
  move_regular-Runs m fs (link to) h fresh = λ w p. inl p
  move_regular-Runs m fs folder h fresh = λ w p. inl p

  -- One more mapping in front of those that were reached.
  moved_one-Reached :
      (m : SqliteForensicPathMapping) (ms : List SqliteForensicPathMapping) (fs files : Files)
      → Reached ms (moved_one m fs) files
      → Reached (m ∷ ms) fs files
  moved_one-Reached m ms fs files (done, rest, e, p) = (m ∷ done, rest, ap (λ l. m ∷ l) e, p)

  pub preserve_loop-Runs :
      (ms : List SqliteForensicPathMapping) (fs : Files)
      → AllFresh fs ms
      → AllPairs Disjoint ms
      → Runs
          (λ files. files ≡ fs)
          (preserve_loop os above directory ms)
          (λ l files. files ≡ moved_all ms fs)
          (λ e. Reached ms fs)
  unfolding preserve_loop
  preserve_loop-Runs [] fs fresh apart = λ w p. p
  preserve_loop-Runs (m ∷ ms) fs (here, fresh) (disjoint, apart) =
      let after : Unit {0} → Files → Type 0 = λ u files. files ≡ moved_one m fs in
      let finished : List SqliteForensicPathMapping → Files → Type 0 =
        λ l files. files ≡ moved_all ms (moved_one m fs) in
      let stopped : SqliteFileSetError → Files → Type 0 = λ e. Reached (m ∷ ms) fs in
      let again : Runs (λ files. files ≡ moved_one m fs) (preserve_loop os above directory ms)
          finished stopped =
        Runs-weaken finished finished (λ e. Reached ms (moved_one m fs)) stopped
          (λ files. files ≡ moved_one m fs) (preserve_loop os above directory ms) (λ l files p. p)
          (λ e files p. moved_one-Reached m ms fs files p)
          (preserve_loop-Runs ms (moved_one m fs) (moved_one-All Fresh m ms fs disjoint fresh)
            apart) in
      let moving : (e : Entry)
          → fs m.original_path ≡ e
          → Runs (λ files. files ≡ fs) (move_regular os above directory m e) after stopped =
        λ e h.
          Runs-weaken after after (λ e files. (files ≡ fs) ⊎ (files ≡ moved_one m fs)) stopped
            (λ files. files ≡ fs) (move_regular os above directory m e) (λ u files p. p)
            (λ e files p. stopped_at m ms fs files p) (move_regular-Runs m fs e h here) in
      match_io-Runs (λ e files. (fs m.original_path ≡ e) × (files ≡ fs)) (Unread m fs) finished
        stopped (λ files. files ≡ fs) (symlink_metadata os m.original_path) _ _ (metadata-Runs m fs)
        (λ e w p.
          >>=-Runs after finished stopped (λ files. files ≡ fs)
            (move_regular os above directory m e)
            (λ u. preserve_loop os above directory ms >>= λ preserved. pure (m ∷ preserved))
            (moving e p.0)
            (λ u.
              >>=-Runs finished finished stopped (λ files. files ≡ moved_one m fs)
                (preserve_loop os above directory ms) (λ preserved. pure (m ∷ preserved)) again
                (λ l w p. p))
            w p.1)
        (skip_absent-Runs m ms fs (preserve_loop os above directory ms) again)
    where
      stopped_at :
          (m : SqliteForensicPathMapping) (ms : List SqliteForensicPathMapping) (fs files : Files)
          → (files ≡ fs) ⊎ (files ≡ moved_one m fs)
          → Reached (m ∷ ms) fs files
      stopped_at m ms fs files (inl p) = ([], m ∷ ms, refl, p)
      stopped_at m ms fs files (inr p) = (m ∷ [], ms, refl, p)

      skip_absent-Runs :
          (m : SqliteForensicPathMapping) (ms : List SqliteForensicPathMapping) (fs : Files)
          (rest : Io SqliteFileSetError (List SqliteForensicPathMapping))
          → Runs
              (λ files. files ≡ moved_one m fs)
              rest
              (λ l files. files ≡ moved_all ms (moved_one m fs))
              (λ e. Reached (m ∷ ms) fs)
          → (e : IoError)
          → Runs
              (Unread m fs e)
              (skip_absent os above directory rest e)
              (λ l files. files ≡ moved_all ms (moved_one m fs))
              (λ e. Reached (m ∷ ms) fs)
      skip_absent-Runs m ms fs rest h not_found w (p, inl (r, n)) = absurd (n refl)
      skip_absent-Runs m ms fs rest h not_found w (p, inr (e, gone)) =
          h w (p ∙ sym (moved_one-absent m fs gone))
      skip_absent-Runs m ms fs rest h already_exists w p = ([], m ∷ ms, refl, p.0)
      skip_absent-Runs m ms fs rest h (refused code) w p = ([], m ∷ ms, refl, p.0)
