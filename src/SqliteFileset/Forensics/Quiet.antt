-- ===== src/SqliteFileset/Forensics/Quiet.antt =====
-- Resuming a forensic move where the operating system refuses nothing.
use tine_storage.Base.{◌≡◌, sym, ap, ◌∙◌, Bool, true, false, List, [], ◌∷◌, none, Bytes, inl, inr}
use tine_storage.Files.{
  FilePath, Entry, absent, file, IoError, Files, Faults, pure, fail, map_io_err, symlink_metadata,
  exists, follow,
}
use tine_storage.Files.Hoare.{Runs, >>=-Runs, match_io-Runs, Refuses, Runs-weaken}
use tine_storage.Order.Pairs.{AllPairs}
use tine_storage.SqliteFileset.{SqliteFileSetError, io}
use tine_storage.SqliteFileset.Forensics.{
  SqliteForensicPathMapping, move, move_regular, resume_move, resume_one, keep, resume_loop,
}
use tine_storage.SqliteFileset.Forensics.Moves.{
  moved_one, moved_all, Disjoint, Ready, AllReady, moved_one-All, moved_one-absent,
}
use tine_storage.SqliteFileset.Forensics.Resumption.{metadata-Runs, Unread, move-Runs, Interrupted}

abbrev pub quiet : Faults
quiet = record { refuses = λ n. none; torn = λ n. 0 }

quiet-Refuses : Refuses quiet → ⊥
quiet-Refuses (n, code, r) = absurd (cc r)

module _ (above directory : FilePath) where
  abbrev Silent : {E : Type 0} → E → Files → Type 0
  Silent e files = ⊥

  exists-quiet :
      {E : Type 0} (path : FilePath) (fs : Files) (R : E → Files → Type 0)
      → Runs
          (λ files. files ≡ fs)
          (exists quiet path)
          (λ b files. (b ≡ follow quiet 40 fs (fs path)) × (files ≡ fs))
          R
  unfolding exists
  exists-quiet path fs R w p = (ap (λ g. follow quiet 40 g (g path)) p, p)

  move-quiet :
      (m : SqliteForensicPathMapping) (bytes : Bytes) (fs : Files)
      → fs m.original_path ≡ file bytes
      → fs m.preserved_path ≡ absent
      → Runs
          (λ files. files ≡ fs)
          (move quiet above directory m)
          (λ u files. files ≡ moved_one m fs)
          Silent
  move-quiet m bytes fs ho hp =
      Runs-weaken (λ u files. files ≡ moved_one m fs) (λ u files. files ≡ moved_one m fs)
        (Interrupted quiet above directory m fs) Silent (λ files. files ≡ fs)
        (move quiet above directory m) (λ u files p. p) (λ e files p. quiet-Refuses p.0)
        (move-Runs quiet above directory m bytes fs ho hp)

  unread :
      (m : SqliteForensicPathMapping) (bytes : Bytes) (fs : Files) (e : IoError) (files : Files)
      → fs m.original_path ≡ file bytes
      → Unread quiet above directory m fs e files
      → ⊥
  unread m bytes fs e files ho (p, inl (r, n)) = quiet-Refuses r
  unread m bytes fs e files ho (p, inr (e', gone)) =
      let clash : absent ≡ file bytes = sym gone ∙ ho in absurd (cc clash)

  -- The moves of a mapping whose original exists.
  resume_move-quiet :
      (m : SqliteForensicPathMapping) (bytes : Bytes) (fs : Files) (b c : Bool)
      → fs m.original_path ≡ file bytes
      → fs m.preserved_path ≡ absent
      → b ≡ true
      → c ≡ false
      → Runs
          (λ files. files ≡ fs)
          (resume_move quiet above directory false m b c)
          (λ u files. files ≡ moved_one m fs)
          Silent
  unfolding resume_move
  resume_move-quiet m bytes fs b c ho hp hb hc =
      let there : Unit {0} → Files → Type 0 = λ u files. files ≡ moved_one m fs in
      let read : Entry → Files → Type 0 = λ e files. (fs m.original_path ≡ e) × (files ≡ fs) in
      let reading : Runs (λ files. files ≡ fs)
          (map_io_err {F = SqliteFileSetError} io (symlink_metadata quiet m.original_path)) read
          Silent =
        match_io-Runs read (Unread quiet above directory m fs) read Silent (λ files. files ≡ fs)
          (symlink_metadata quiet m.original_path) pure (λ e. fail (io e))
          (metadata-Runs quiet above directory m fs) (λ e w p. p)
          (λ e w p. unread m bytes fs e w.files ho p) in
      rw (hb, hc)
        (>>=-Runs read there Silent (λ files. files ≡ fs)
          (map_io_err io (symlink_metadata quiet m.original_path))
          (move_regular quiet above directory m) reading
          (λ e w p.
            let same : e ≡ file bytes = sym p.0 ∙ ho in
            rw same (move-quiet m bytes fs ho hp w p.1)))

  still_there :
      (m : SqliteForensicPathMapping) (fs : Files)
      → Runs
          (λ files. files ≡ moved_one m fs)
          (exists quiet m.preserved_path)
          (λ kept files. files ≡ moved_one m fs)
          (Silent {E = SqliteFileSetError})
  still_there m fs =
      Runs-weaken
        (λ b files.
          (b ≡ follow quiet 40 (moved_one m fs) (moved_one m fs m.preserved_path))
          × (files ≡ moved_one m fs))
        (λ kept files. files ≡ moved_one m fs) (Silent {E = SqliteFileSetError})
        (Silent {E = SqliteFileSetError}) (λ files. files ≡ moved_one m fs)
        (exists quiet m.preserved_path) (λ b files p. p.1) (λ e files p. p)
        (exists-quiet m.preserved_path (moved_one m fs) Silent)

  decided :
      (m : SqliteForensicPathMapping) (fs : Files)
      → Ready (fs m.original_path) (fs m.preserved_path)
      → (b c : Bool) → b ≡ follow quiet 40 fs (fs m.original_path)
      → c ≡ follow quiet 40 fs (fs m.preserved_path)
      → Runs
          (λ files. files ≡ fs)
          (resume_move quiet above directory false m b c)
          (λ u files. files ≡ moved_one m fs)
          Silent
  unfolding resume_move
  decided m fs (inl (ho, q)) b c hb hc =
      let e : b ≡ false = rw ho at hb in rw e (λ w p. p ∙ sym (moved_one-absent m fs ho))
  decided m fs (inr (bytes, ho, hp)) b c hb hc =
      resume_move-quiet m bytes fs b c ho hp (rw ho at hb) (rw hp at hc)

  resume_one-quiet :
      (m : SqliteForensicPathMapping) (fs : Files)
      → Ready (fs m.original_path) (fs m.preserved_path)
      → Runs
          (λ files. files ≡ fs)
          (resume_one quiet above directory false m)
          (λ kept files. files ≡ moved_one m fs)
          Silent
  unfolding resume_one
  resume_one-quiet m fs ready =
      let found : FilePath → Bool → Files → Type 0 =
        λ path b files. (b ≡ follow quiet 40 fs (fs path)) × (files ≡ fs) in
      let there : Unit {0} → Files → Type 0 = λ u files. files ≡ moved_one m fs in
      let at_end : Bool → Files → Type 0 = λ kept files. files ≡ moved_one m fs in
      >>=-Runs (found m.original_path) at_end Silent (λ files. files ≡ fs)
        (exists quiet m.original_path) _ (exists-quiet m.original_path fs Silent)
        (λ b w p.
          >>=-Runs (found m.preserved_path) at_end Silent (λ files. files ≡ fs)
            (exists quiet m.preserved_path) _ (exists-quiet m.preserved_path fs Silent)
            (λ c v q.
              >>=-Runs there at_end Silent (λ files. files ≡ fs)
                (resume_move quiet above directory false m b c) (λ u. exists quiet m.preserved_path)
                (decided m fs ready b c p.0 q.0) (λ u. still_there m fs) v q.1)
            w p.1)

  -- With nothing refused, a resumption of mappings that are ready ends, and leaves all of them moved.
  pub resume_loop-quiet :
      (ms : List SqliteForensicPathMapping) (fs : Files)
      → AllReady fs ms
      → AllPairs Disjoint ms
      → Runs
          (λ files. files ≡ fs)
          (resume_loop quiet above directory false ms)
          (λ l files. files ≡ moved_all ms fs)
          Silent
  unfolding resume_loop
  resume_loop-quiet [] fs ready apart = λ w p. p
  resume_loop-quiet (m ∷ ms) fs (here, ready) (disjoint, apart) =
      let all : List SqliteForensicPathMapping → Files → Type 0 =
        λ l files. files ≡ moved_all ms (moved_one m fs) in
      >>=-Runs (λ kept files. files ≡ moved_one m fs) all Silent (λ files. files ≡ fs)
        (resume_one quiet above directory false m) _ (resume_one-quiet m fs here)
        (λ kept.
          >>=-Runs all all Silent (λ files. files ≡ moved_one m fs)
            (resume_loop quiet above directory false ms)
            (λ preserved. pure (keep quiet above directory kept m preserved))
            (resume_loop-quiet ms (moved_one m fs) (moved_one-All Ready m ms fs disjoint ready)
              apart)
            (λ l w p. p))
