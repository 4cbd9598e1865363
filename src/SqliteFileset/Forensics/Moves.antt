-- ===== src/SqliteFileset/Forensics/Moves.antt =====
-- What the forensic moves of src/sqlite_fileset.rs make of the files.
use tine_storage.Base.{◌≡◌, ◌≢◌, refl, ◌∙◌, List, [], ◌∷◌, All, Bytes, ◌⊎◌}
use tine_storage.Files.{FilePath, Entry, absent, file, link, folder, Files, put}
use tine_storage.Files.Entries.{put_other}
use tine_storage.SqliteFileset.Forensics.{SqliteForensicPathMapping}

-- What a move leaves of the entry at the original path: regular files go to the preserved one.
abbrev pub moved_entry : SqliteForensicPathMapping → Entry → Files → Files
moved_entry mapping absent files = files
moved_entry mapping (file bytes) files =
    put mapping.preserved_path (file bytes) (put mapping.original_path absent files)
moved_entry mapping (link to) files = files
moved_entry mapping folder files = files

abbrev pub moved_one : SqliteForensicPathMapping → Files → Files
moved_one mapping files = moved_entry mapping (files mapping.original_path) files

abbrev pub moved_all : List SqliteForensicPathMapping → Files → Files
moved_all [] files = files
moved_all (mapping ∷ mappings) files = moved_all mappings (moved_one mapping files)

-- The paths of two mappings have nothing in common.
abbrev pub Disjoint : SqliteForensicPathMapping → SqliteForensicPathMapping → Type 0
Disjoint m n =
    (m.original_path ≢ n.original_path)
    × (m.original_path ≢ n.preserved_path)
    × (m.preserved_path ≢ n.original_path)
    × (m.preserved_path ≢ n.preserved_path)

abbrev pub Fresh : Entry → Entry → Type 0
Fresh original preserved =
    (preserved ≡ absent) × ((original ≡ absent) ⊎ ((bytes : Bytes) × (original ≡ file bytes)))

-- Nothing is preserved, and every original is a regular file or absent.
abbrev pub AllFresh : Files → List SqliteForensicPathMapping → Type 0
AllFresh files ms = All (λ m. Fresh (files m.original_path) (files m.preserved_path)) ms

abbrev pub Ready : Entry → Entry → Type 0
Ready original preserved =
    ((original ≡ absent) × ((preserved ≡ absent) ⊎ ((bytes : Bytes) × (preserved ≡ file bytes))))
    ⊎ ((bytes : Bytes) × (original ≡ file bytes) × (preserved ≡ absent))

-- The same, or the file was moved before.
abbrev pub AllReady : Files → List SqliteForensicPathMapping → Type 0
AllReady files ms = All (λ m. Ready (files m.original_path) (files m.preserved_path)) ms

-- A move leaves every other path alone.
pub moved_one-other :
    (m : SqliteForensicPathMapping) (files : Files) (p : FilePath)
    → m.original_path ≢ p
    → m.preserved_path ≢ p
    → moved_one m files p ≡ files p
moved_one-other m files p n n' = at (files m.original_path)
  where
    at : (e : Entry) → moved_entry m e files p ≡ files p
    at absent = refl
    at (file bytes) =
        put_other m.preserved_path p (file bytes) (put m.original_path absent files) n'
        ∙ put_other m.original_path p absent files n
    at (link to) = refl
    at folder = refl

pub moved_one-absent :
    (m : SqliteForensicPathMapping) (files : Files)
    → files m.original_path ≡ absent
    → moved_one m files ≡ files
moved_one-absent m files h = rw h refl

-- What holds of the entries of other mappings holds behind a move.
pub moved_one-All :
    (P : Entry → Entry → Type 0) (m : SqliteForensicPathMapping)
    (ms : List SqliteForensicPathMapping) (files : Files)
    → All (Disjoint m) ms
    → All (λ n. P (files n.original_path) (files n.preserved_path)) ms
    → All (λ n. P (moved_one m files n.original_path) (moved_one m files n.preserved_path)) ms
moved_one-All P m [] files d h = tt
moved_one-All P m (n ∷ ms) files ((a, b, c, d), ds) (h, hs) =
    let e = moved_one-other m files n.original_path a c in
    let e' = moved_one-other m files n.preserved_path b d in
    (rw (e, e') h, moved_one-All P m ms files ds hs)
