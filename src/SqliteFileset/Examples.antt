-- ===== src/SqliteFileset/Examples.antt =====
-- The theorems on SQLite file sets at concrete files.
use tine_storage.Base.{
  ℕ, suc, ◌-◌, ◌≡◌, ◌≢◌, refl, sym, ap, ◌∙◌, Bool, true, false, min, List, [], ◌∷◌, ◌++◌, All,
  Option, none, some, Bytes, length, ◌⊎◌, inl, inr, Result, ok, err, ◌==◌, if◌then◌else◌, arith,
}
use tine_storage.Files.{
  FilePath, path_eq, path_eq_refl, Entry, absent, file, link, IoError, Files, put, World, Faults,
  parent,
}
use tine_storage.Files.Hoare.{Ends}
use tine_storage.Order.Pairs.{AllPairs}
use tine_storage.SqliteFileset.{
  SqliteFileSetError, SqliteFileSet, new_file_set, publish_checkpoint_with, publish_candidate,
}
use tine_storage.SqliteFileset.Checkpoint.{interior_ranges, interior_ranges_lem, Between, sampled}
use tine_storage.SqliteFileset.Replacement.{Published, Failed}
use tine_storage.SqliteFileset.Publication.{Cause, publish_checkpoint_is_atomic}
use tine_storage.SqliteFileset.Candidate.{publish_candidate_is_atomic}
use tine_storage.SqliteFileset.Forensics.{
  SqliteForensicPathMapping, forensic_path_mappings, preserve_forensic_files, resume_forensic_files,
}
use tine_storage.SqliteFileset.Forensics.Moves.{moved_all, Disjoint, AllFresh}
use tine_storage.SqliteFileset.Forensics.Quiet.{quiet}
use tine_storage.SqliteFileset.Forensics.Recovery.{Separate, resume_completes_preserve}
use tine_storage.SqliteFileset.Sampling.{physical_file_checkpoint}
use tine_storage.SqliteFileset.Sampled.{Describes, physical_file_checkpoint_lem}
use tine_storage.Samples.{toy_sha, note}

interior_ranges_lem_example :
    Between (min 3000000 65536) (3000000 - min 3000000 65536) (interior_ranges 3000000)
    × (sampled (interior_ranges 3000000)
        ≡ min (3000000 - min 3000000 65536 - min 3000000 65536) 1048576)
interior_ranges_lem_example = interior_ranges_lem 3000000

-- The third call is refused, and a refused write leaves one byte.
abbrev third_fails : Faults
third_fails = record { refuses = λ n. if n == 2 then some 5 else none; torn = λ n. 1 }

abbrev set : SqliteFileSet
set = new_file_set ((b'd' ∷ b'b' ∷ []) ∷ (b'h' ∷ []) ∷ [])

abbrev dotted : Bytes → ℕ → Bytes
dotted name attempt = b'.' ∷ name

dotted-apart : (name : Bytes) (attempt : ℕ) → dotted name attempt ≢ name
dotted-apart name attempt e =
    let n : suc (length name) ≡ length name = ap length e in omega (arith, n)

abbrev nothing : Files
nothing path = absent

publish_checkpoint_is_atomic_example :
    Ends
      (λ (u : Unit {0}). Published nothing set.checkpoint note)
      (λ (e : SqliteFileSetError) files.
        Cause third_fails dotted (λ stage. none) (λ name. true) nothing set note
        × Failed nothing set.checkpoint note files)
      (publish_checkpoint_with third_fails dotted
        (λ stage. none)
        (λ name. true)
        set
        note
        (record { files = nothing; calls = 0 }))
publish_checkpoint_is_atomic_example =
    publish_checkpoint_is_atomic third_fails dotted (λ stage. none) (λ name. true) nothing set note
      dotted-apart 0

differ : (p q : FilePath) → path_eq p q ≡ false → p ≢ q
differ p q h e =
    let same : path_eq p q ≡ true = rw e (path_eq_refl q) in
    let clash : true ≡ false = sym same ∙ h in cc clash

abbrev target : FilePath
target = (b'n' ∷ []) ∷ (b'h' ∷ []) ∷ []

abbrev with_database : Files
with_database = put set.database (file note) nothing

publish_candidate_is_atomic_example :
    Ends
      (λ (u : Unit {0}) files. files target ≡ with_database set.database)
      (λ (e : SqliteFileSetError) files.
        (files target ≡ with_database target) ⊎ (files target ≡ with_database set.database))
      (publish_candidate third_fails set target none (record { files = with_database; calls = 0 }))
unfolding new_file_set path_eq tine_storage.Base.bytes_eq
publish_candidate_is_atomic_example =
    publish_candidate_is_atomic third_fails with_database target set none
      (
        differ set.database target refl,
        (
          differ set.wal target refl,
          (differ set.shm target refl, (differ set.checkpoint target refl, tt)),
        ),
      )
      (differ set.checkpoint set.database refl) 0

abbrev evidence : FilePath
evidence = (b'e' ∷ []) ∷ []

path_eq-Disjoint :
    (m n : SqliteForensicPathMapping)
    → path_eq m.original_path n.original_path ≡ false
    → path_eq m.original_path n.preserved_path ≡ false
    → path_eq m.preserved_path n.original_path ≡ false
    → path_eq m.preserved_path n.preserved_path ≡ false
    → Disjoint m n
path_eq-Disjoint m n a b c d = (differ _ _ a, differ _ _ b, differ _ _ c, differ _ _ d)

forensic_path_mappings-Disjoint : AllPairs Disjoint (forensic_path_mappings set evidence)
unfolding forensic_path_mappings new_file_set path_eq tine_storage.Base.bytes_eq
forensic_path_mappings-Disjoint = (
  (
    path_eq-Disjoint _ _ refl refl refl refl,
    (path_eq-Disjoint _ _ refl refl refl refl, (path_eq-Disjoint _ _ refl refl refl refl, tt)),
  ),
  (
    (path_eq-Disjoint _ _ refl refl refl refl, (path_eq-Disjoint _ _ refl refl refl refl, tt)),
    ((path_eq-Disjoint _ _ refl refl refl refl, tt), (tt, tt)),
  ),
)

forensic_path_mappings-Separate : All Separate (forensic_path_mappings set evidence)
unfolding forensic_path_mappings new_file_set path_eq tine_storage.Base.bytes_eq
forensic_path_mappings-Separate =
    (differ _ _ refl, (differ _ _ refl, (differ _ _ refl, (differ _ _ refl, tt))))

with_database-AllFresh : AllFresh with_database (forensic_path_mappings set evidence)
unfolding forensic_path_mappings new_file_set path_eq tine_storage.Base.bytes_eq
with_database-AllFresh =
    ((refl, inr (note, refl)), ((refl, inl refl), ((refl, inl refl), ((refl, inl refl), tt))))

resume_completes_preserve_example :
    Ends
      (λ (l : List SqliteForensicPathMapping) files.
        files ≡ moved_all (forensic_path_mappings set evidence) with_database)
      (λ (e : SqliteFileSetError) files. ⊥)
      (resume_forensic_files quiet set evidence false
        (preserve_forensic_files third_fails set evidence
          (record { files = with_database; calls = 0 })).1)
unfolding new_file_set
resume_completes_preserve_example =
    resume_completes_preserve third_fails set ((b'h' ∷ []) ∷ []) evidence
      (record { files = with_database; calls = 0 }) refl with_database-AllFresh
      forensic_path_mappings-Disjoint forensic_path_mappings-Separate

physical_file_checkpoint_lem_example :
    Ends
      (λ found files. Describes toy_sha with_database note found × (files ≡ with_database))
      (λ (e : SqliteFileSetError) files. ⊥)
      (physical_file_checkpoint quiet toy_sha set.database
        (record { files = with_database; calls = 0 }))
unfolding new_file_set path_eq tine_storage.Base.bytes_eq
physical_file_checkpoint_lem_example =
    physical_file_checkpoint_lem toy_sha set.database note
      (record { files = with_database; calls = 0 }) refl

-- A link that leads nowhere is left where it is, and its resumption succeeds.
dangling_link_is_skipped :
    (resume_forensic_files quiet set evidence false
      (record { files = put set.database (link target) nothing; calls = 0 })).0
    ≡ ok []
unfolding resume_forensic_files new_file_set tine_storage.Files.exists path_eq
    tine_storage.Base.bytes_eq
dangling_link_is_skipped = refl

-- With nothing refused, the three operations succeed on these files.
checkpoint_is_published :
    (publish_checkpoint_with quiet dotted
      (λ stage. none)
      (λ name. true)
      set
      note
      (record { files = nothing; calls = 0 })).0
    ≡ ok tt
unfolding publish_checkpoint_with new_file_set tine_storage.Files.create_new
    tine_storage.Files.write_all tine_storage.Files.sync_all tine_storage.Files.rename path_eq
    tine_storage.Base.bytes_eq tine_storage.Files.sync_directory tine_storage.Files.remove_file
checkpoint_is_published = refl

candidate_is_published :
    (publish_candidate quiet set target none (record { files = with_database; calls = 0 })).0
    ≡ ok tt
unfolding publish_candidate tine_storage.Files.exists path_eq new_file_set
    tine_storage.Base.bytes_eq tine_storage.Files.remove_file tine_storage.Files.rename
    tine_storage.Files.sync_directory
candidate_is_published = refl

database_is_preserved :
    (preserve_forensic_files quiet set evidence (record { files = with_database; calls = 0 })).0
    ≡ ok (
        record {
          original_path = set.database;
          preserved_path = (b'd' ∷ b'a' ∷ b't' ∷ b'a' ∷ b'b' ∷ b'a' ∷ b's' ∷ b'e' ∷ []) ∷ evidence;
        }
        ∷ [])
unfolding preserve_forensic_files new_file_set tine_storage.Files.symlink_metadata path_eq
    tine_storage.Base.bytes_eq tine_storage.Files.rename tine_storage.Files.sync_directory
database_is_preserved = refl
