-- ===== src/SqliteFileset/Forensics/Recovery.antt =====
-- A forensic move that was interrupted, resumed.
use tine_storage.Base.{
  ◌≡◌, ◌≢◌, refl, sym, ap, ◌∙◌, false, List, [], ◌∷◌, ◌++◌, append-nil, All, some, inl, inr, Result,
  ok, err, stuck,
}
use tine_storage.Files.{FilePath, Entry, absent, file, Files, put, World, Faults, parent}
use tine_storage.Files.Entries.{put_same, put_other}
use tine_storage.Files.Hoare.{Ends}
use tine_storage.Order.Pairs.{AllPairs}
use tine_storage.SqliteFileset.{SqliteFileSetError, SqliteFileSet}
use tine_storage.SqliteFileset.Forensics.{
  SqliteForensicPathMapping, forensic_path_mappings, preserve_loop, resume_loop,
  preserve_forensic_files, resume_forensic_files,
}
use tine_storage.SqliteFileset.Forensics.Moves.{
  moved_one, moved_all, Disjoint, Fresh, AllFresh, Ready, AllReady, moved_one-All, moved_one-absent,
  moved_one-other,
}
use tine_storage.SqliteFileset.Forensics.Resumption.{preserve_loop-Runs}
use tine_storage.SqliteFileset.Forensics.Quiet.{quiet, resume_loop-quiet}

abbrev pub Separate : SqliteForensicPathMapping → Type 0
Separate m = m.preserved_path ≢ m.original_path

-- Moves of disjoint mappings leave a mapping's paths alone.
moved_all-other :
    (m : SqliteForensicPathMapping) (ms : List SqliteForensicPathMapping) (fs : Files)
    → All (Disjoint m) ms
    → (moved_all ms fs m.original_path ≡ fs m.original_path)
      × (moved_all ms fs m.preserved_path ≡ fs m.preserved_path)
moved_all-other m [] fs d = (refl, refl)
moved_all-other m (n ∷ ms) fs ((a, b, c, d), ds) =
    let (e, e') = moved_all-other m ms (moved_one n fs) ds in
    (
      e ∙ moved_one-other n fs m.original_path (λ p. a (sym p)) (λ p. b (sym p)),
      e' ∙ moved_one-other n fs m.preserved_path (λ p. c (sym p)) (λ p. d (sym p)),
    )

-- Behind its move a mapping's original is absent, and the mapping is ready.
moved_one-Ready :
    (m : SqliteForensicPathMapping) (fs : Files)
    → Separate m
    → Fresh (fs m.original_path) (fs m.preserved_path)
    → (moved_one m fs m.original_path ≡ absent)
      × Ready (moved_one m fs m.original_path) (moved_one m fs m.preserved_path)
moved_one-Ready m fs n (hp, inl ho) = rw (moved_one-absent m fs ho) (ho, inl (ho, inl hp))
moved_one-Ready m fs n (hp, inr (bytes, ho)) =
    let e : moved_one m fs m.original_path ≡ absent = rw ho (
      put_other m.preserved_path m.original_path (file bytes) (put m.original_path absent fs) n
      ∙ put_same m.original_path absent fs) in
    let e' : moved_one m fs m.preserved_path ≡ file bytes =
      rw ho (put_same m.preserved_path (file bytes) (put m.original_path absent fs)) in
    (e, inl (e, inr (bytes, e')))

Fresh-Ready : (original preserved : Entry) → Fresh original preserved → Ready original preserved
Fresh-Ready original preserved (hp, inl ho) = inl (ho, inl hp)
Fresh-Ready original preserved (hp, inr (bytes, ho)) = inr (bytes, ho, hp)

AllFresh-AllReady :
    (ms : List SqliteForensicPathMapping) (fs : Files) → AllFresh fs ms → AllReady fs ms
AllFresh-AllReady [] fs h = tt
AllFresh-AllReady (m ∷ ms) fs (h, hs) = (Fresh-Ready _ _ h, AllFresh-AllReady ms fs hs)

All-front :
    (P : SqliteForensicPathMapping → Type 0) (done rest : List SqliteForensicPathMapping)
    → All P (done ++ rest)
    → All P done
All-front P [] rest h = tt
All-front P (m ∷ done) rest (h, hs) = (h, All-front P done rest hs)

-- Wherever the moves stopped, all mappings are ready, and the originals of the moved ones absent.
moved_all-AllReady :
    (done rest : List SqliteForensicPathMapping) (fs : Files)
    → AllFresh fs (done ++ rest)
    → AllPairs Disjoint (done ++ rest)
    → All Separate (done ++ rest)
    → AllReady (moved_all done fs) (done ++ rest)
      × All (λ m. moved_all done fs m.original_path ≡ absent) done
moved_all-AllReady [] rest fs fresh apart separate = (AllFresh-AllReady rest fs fresh, tt)
moved_all-AllReady (m ∷ done) rest fs (here, fresh) (disjoint, apart) (n, separate) =
    let (ready, gone) =
      moved_all-AllReady done rest (moved_one m fs)
        (moved_one-All Fresh m (done ++ rest) fs disjoint fresh) apart separate in
    let (e, e') =
      moved_all-other m done (moved_one m fs) (All-front (Disjoint m) done rest disjoint) in
    let (left, ready_here) = moved_one-Ready m fs n here in
    ((rw (e, e') ready_here, ready), (e ∙ left, gone))

-- Moves of mappings without an original change nothing.
moved_all-absent :
    (ms : List SqliteForensicPathMapping) (fs : Files)
    → All (λ m. fs m.original_path ≡ absent) ms
    → moved_all ms fs ≡ fs
moved_all-absent [] fs h = refl
moved_all-absent (m ∷ ms) fs (h, hs) =
    ap (moved_all ms) (moved_one-absent m fs h) ∙ moved_all-absent ms fs hs

moved_all-append :
    (done rest : List SqliteForensicPathMapping) (fs : Files)
    → moved_all (done ++ rest) fs ≡ moved_all rest (moved_all done fs)
moved_all-append [] rest fs = refl
moved_all-append (m ∷ done) rest fs = moved_all-append done rest (moved_one m fs)

module _ (above directory : FilePath) where
  -- From wherever the moves stopped, a resumption completes them.
  resume_reached :
      (done rest : List SqliteForensicPathMapping) (fs : Files) (w : World)
      → AllFresh fs (done ++ rest)
      → AllPairs Disjoint (done ++ rest)
      → All Separate (done ++ rest)
      → w.files ≡ moved_all done fs
      → Ends
          (λ l files. files ≡ moved_all (done ++ rest) fs)
          (λ e files. ⊥)
          (resume_loop quiet above directory false (done ++ rest) w)
  resume_reached done rest fs w fresh apart separate p =
      let (ready, gone) = moved_all-AllReady done rest fs fresh apart separate in
      let same : moved_all (done ++ rest) (moved_all done fs) ≡ moved_all (done ++ rest) fs =
        moved_all-append done rest (moved_all done fs)
        ∙ ap (moved_all rest) (moved_all-absent done (moved_all done fs) gone)
        ∙ sym (moved_all-append done rest fs) in
      rw same at
        (resume_loop-quiet above directory (done ++ rest) (moved_all done fs) ready apart w p)

  resume_anywhere :
      (ms done rest : List SqliteForensicPathMapping) (fs : Files) (w : World)
      → ms ≡ done ++ rest
      → AllFresh fs ms
      → AllPairs Disjoint ms
      → All Separate ms
      → w.files ≡ moved_all done fs
      → Ends
          (λ l files. files ≡ moved_all ms fs)
          (λ (e : SqliteFileSetError) files. ⊥)
          (resume_loop quiet above directory false ms w)
  resume_anywhere ms done rest fs w e fresh apart separate p =
      rw e (resume_reached done rest fs w (rw e at fresh) (rw e at apart) (rw e at separate) p)

reached_state :
    (ms : List SqliteForensicPathMapping) (fs : Files)
    (o : Result SqliteFileSetError (List SqliteForensicPathMapping) × World)
    → Ends
        (λ l files. files ≡ moved_all ms fs)
        (λ e files.
          (done : List SqliteForensicPathMapping) × (rest : List SqliteForensicPathMapping) × (ms
            ≡ done ++ rest)
          × (files ≡ moved_all done fs))
        o
    → (done : List SqliteForensicPathMapping) × (rest : List SqliteForensicPathMapping) × (ms
        ≡ done ++ rest)
      × (o.1.files ≡ moved_all done fs)
reached_state ms fs (ok l, w) h = (ms, [], sym (append-nil ms), h)
reached_state ms fs (err e, w) h = h
reached_state ms fs (stuck, w) h = absurd h

-- A forensic move that any refusals interrupt at any call, or that is complete, is completed by a
-- resumption that meets no refusal: it ends without an error, with every regular file of the set at
-- its preserved path and all else as it was before the move. Before the move nothing is at the
-- preserved paths, the originals are regular files or absent, and the paths are all different.
pub resume_completes_preserve :
    (os : Faults) (set : SqliteFileSet) (above directory : FilePath) (w : World)
    → parent set.database ≡ some above
    → AllFresh w.files (forensic_path_mappings set directory)
    → AllPairs Disjoint (forensic_path_mappings set directory)
    → All Separate (forensic_path_mappings set directory)
    → Ends
        (λ l files. files ≡ moved_all (forensic_path_mappings set directory) w.files)
        (λ (e : SqliteFileSetError) files. ⊥)
        (resume_forensic_files quiet set directory false
          (preserve_forensic_files os set directory w).1)
unfolding preserve_forensic_files resume_forensic_files
resume_completes_preserve os set above directory w located fresh apart separate =
    let ms = forensic_path_mappings set directory in
    let o = preserve_loop os above directory ms w in
    let (done, rest, e, p) =
      reached_state ms w.files o
        (preserve_loop-Runs os above directory ms w.files fresh apart w refl) in
    rw located (resume_anywhere above directory ms done rest w.files o.1 e fresh apart separate p)
