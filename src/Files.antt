-- ===== src/Files.antt =====
-- `std::fs` and `std::path` as the code uses them: paths, the entries below them, and calls that the
-- operating system may refuse. A path is its components, the last one first.
pub mod Hoare
pub mod Entries
use tine_storage.Base.{
  ℕ, zero, suc, ◌+◌, ◌≡◌, refl, ap, ◌∙◌, Bool, true, false, not, ◌&&◌, List, [], ◌∷◌, ◌++◌, Option,
  none, some, Bytes, bytes_eq, bytes_eq_sound, bytes_eq_refl, if◌then◌else◌, take, ◌⊎◌, inl, inr,
  Result, ok, err, stuck, arith,
}

abbrev pub FilePath : Type 0
FilePath = List Bytes

unfoldable pub path_eq : FilePath → FilePath → Bool
path_eq [] [] = true
path_eq (a ∷ p) (b ∷ q) = bytes_eq a b && path_eq p q
path_eq p q = false

pub path_eq_refl : (p : FilePath) → path_eq p p ≡ true
unfolding path_eq
path_eq_refl [] = refl
path_eq_refl (a ∷ p) = ground (arith, bytes_eq_refl a, path_eq_refl p)

pub path_eq_sound : (p q : FilePath) → path_eq p q ≡ true → p ≡ q
unfolding path_eq
path_eq_sound [] [] h = refl
path_eq_sound [] (b ∷ q) h = cc
path_eq_sound (a ∷ p) [] h = cc
path_eq_sound (a ∷ p) (b ∷ q) h =
    let front : bytes_eq a b ≡ true = ground arith in
    let back : path_eq p q ≡ true = ground arith in
    cc (bytes_eq_sound a b front, path_eq_sound p q back)

-- `path.parent()`, `path.file_name()` and `directory.join(name)`
abbrev pub parent : FilePath → Option FilePath
parent [] = none
parent (name ∷ directory) = some directory

abbrev pub file_name : FilePath → Option Bytes
file_name [] = none
file_name (name ∷ directory) = some name

abbrev pub join : FilePath → Bytes → FilePath
join directory name = name ∷ directory

pub data Entry : Type 0 where
  absent : Entry
  file : Bytes → Entry
  link : FilePath → Entry
  folder : Entry

-- `io::Error` by its kind; `refused` is any other failure.
pub data IoError : Type 0 where
  not_found : IoError
  already_exists : IoError
  refused : ℕ → IoError

abbrev pub Files : Type 0
Files = FilePath → Entry

abbrev pub put : FilePath → Entry → Files → Files
put path entry files = λ p. if path_eq path p then entry else files p

-- The files, and how many calls the operating system has answered.
pub record World : Type 0 where
  pub files : Files
  pub calls : ℕ

-- Which calls the operating system refuses, and what a refused write has written.
pub record Faults : Type 0 where
  pub refuses : ℕ → Option ℕ
  pub torn : ℕ → ℕ

abbrev pub Io : Type 0 → Type 0 → Type 0
Io E A = World → Result E A × World

abbrev pub pure : {E A : Type 0} → A → Io E A
pure a w = (ok a, w)

abbrev pub fail : {E A : Type 0} → E → Io E A
fail e w = (err e, w)

infixl 5 ◌>>=◌ ◌>>◌
abbrev pub continue_with : {E A B : Type 0} → (A → Io E B) → Result E A × World → Result E B × World
continue_with f (ok a, w) = f a w
continue_with f (err e, w) = (err e, w)
continue_with f (stuck, w) = (stuck, w)

abbrev pub ◌>>=◌ : {E A B : Type 0} → Io E A → (A → Io E B) → Io E B
(m >>= f) w = continue_with f (m w)

abbrev pub ◌>>◌ : {E B : Type 0} → Io E (Unit {0}) → Io E B → Io E B
m >> k = m >>= λ _. k

-- What `match` does with the result of a call.
abbrev pub match_on :
    {E F A B : Type 0} → (A → Io F B) → (E → Io F B) → Result E A × World → Result F B × World
match_on f g (ok a, w) = f a w
match_on f g (err e, w) = g e w
match_on f g (stuck, w) = (stuck, w)

abbrev pub match_io : {E F A B : Type 0} → Io E A → (A → Io F B) → (E → Io F B) → Io F B
match_io m f g w = match_on f g (m w)

-- `result.map_err(f)`
abbrev pub map_io_err : {E F A : Type 0} → (E → F) → Io E A → Io F A
map_io_err f m = match_io m pure (λ e. fail (f e))

module _ (os : Faults) where
  abbrev answer_as :
      {A : Type 0} → Option ℕ → (Files → Files) → (Files → Result IoError A × Files) → Io IoError A
  answer_as (some code) broken call w =
      (err (refused code), record { files = broken w.files; calls = suc w.calls })
  answer_as none broken call w =
      ((call w.files).0, record { files = (call w.files).1; calls = suc w.calls })

  -- One call: it is refused, with what that leaves, or answered.
  abbrev pub answer_or :
      {A : Type 0} → (ℕ → Files → Files) → (Files → Result IoError A × Files) → Io IoError A
  answer_or broken call w = answer_as (os.refuses w.calls) (broken w.calls) call w

  abbrev pub answer : {A : Type 0} → (Files → Result IoError A × Files) → Io IoError A
  answer call = answer_or (λ n files. files) call

  abbrev pub metadata_of : Entry → Files → Result IoError Entry × Files
  metadata_of absent files = (err not_found, files)
  metadata_of (file bytes) files = (ok (file bytes), files)
  metadata_of (link target) files = (ok (link target), files)
  metadata_of folder files = (ok folder, files)

  unfoldable pub symlink_metadata : FilePath → Io IoError Entry
  symlink_metadata path = answer (λ files. metadata_of (files path) files)

  abbrev pub created : FilePath → Entry → Files → Result IoError (Unit {0}) × Files
  created path absent files = (ok tt, put path (file []) files)
  created path (file bytes) files = (err already_exists, files)
  created path (link target) files = (err already_exists, files)
  created path folder files = (err already_exists, files)

  -- `OpenOptions::new().write(true).create_new(true).open(path)`
  unfoldable pub create_new : FilePath → Io IoError (Unit {0})
  create_new path = answer (λ files. created path (files path) files)

  -- `write_all` on the file that was just created there.
  unfoldable pub write_all : FilePath → Bytes → Io IoError (Unit {0})
  write_all path bytes =
      answer_or (λ n files. put path (file (take (os.torn n) bytes)) files)
        (λ files. (ok tt, put path (file bytes) files))

  -- Synchronization, which changes no entry.
  unfoldable pub sync_all : Io IoError (Unit {0})
  sync_all = answer (λ files. (ok tt, files))

  -- `Dir::open_ambient_dir` and `sync_dir_required`
  unfoldable pub sync_directory : FilePath → Io IoError (Unit {0})
  unfolding sync_all
  sync_directory path = sync_all >> sync_all

  abbrev pub moved : FilePath → FilePath → Entry → Entry → Files → Result IoError (Unit {0}) × Files
  moved from to absent e files = (err not_found, files)
  moved from to folder (file bytes) files = (err (refused 0), files)
  moved from to folder (link target) files = (err (refused 0), files)
  moved from to found folder files = (err (refused 0), files)
  moved from to found e files = (ok tt, put to found (put from absent files))

  -- `fs::rename`: the entry itself moves. What is no directory replaces what is none; a directory
  -- moves only to where nothing is; that it may replace an empty directory is left out.
  unfoldable pub rename : FilePath → FilePath → Io IoError (Unit {0})
  rename from to = answer (λ files. moved from to (files from) (files to) files)

  abbrev pub removed : FilePath → Entry → Files → Result IoError (Unit {0}) × Files
  removed path absent files = (err not_found, files)
  removed path folder files = (err (refused 0), files)
  removed path found files = (ok tt, put path absent files)

  -- `fs::remove_file`: a link is removed, not followed.
  unfoldable pub remove_file : FilePath → Io IoError (Unit {0})
  remove_file path = answer (λ files. removed path (files path) files)

  abbrev pub follow : ℕ → Files → Entry → Bool
  follow fuel files absent = false
  follow zero files (link target) = false
  follow (suc fuel) files (link target) = follow fuel files (files target)
  follow fuel files found = true

  -- `path.exists()`: what the path leads to through at most 40 links; a refused call is absence.
  unfoldable pub exists : {E : Type 0} → FilePath → Io E Bool
  exists path =
      match_io (answer (λ files. (ok (follow 40 files (files path)), files))) pure (λ e. pure false)
