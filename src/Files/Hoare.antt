-- ===== src/Files/Hoare.antt =====
-- Rules about every run of a program on files, whatever calls are refused: from a state where the
-- precondition holds it ends, with the one condition on a result and the other on an error.
use tine_storage.Base.{ℕ, suc, ◌≡◌, refl, Option, none, some, Result, ok, err, stuck}
use tine_storage.Files.{
  FilePath, IoError, refused, Files, World, Faults, Io, pure, fail, map_io_err, continue_with,
  ◌>>=◌, ◌>>◌, match_on, match_io, answer_or, answer_as, sync_all, sync_directory,
}

abbrev pub Ends :
    {E A : Type 0} → (A → Files → Type 0) → (E → Files → Type 0) → Result E A × World → Type 0
Ends Q R (ok a, w) = Q a w.files
Ends Q R (err e, w) = R e w.files
Ends Q R (stuck, w) = ⊥

abbrev pub Runs :
    {E A : Type 0}
    → (Files → Type 0)
    → Io E A
    → (A → Files → Type 0)
    → (E → Files → Type 0)
    → Type 0
Runs P m Q R = (w : World) → P w.files → Ends Q R (m w)

module _ {E A B : Type 0} (Q : A → Files → Type 0) (S : B → Files → Type 0)
    (R : E → Files → Type 0) where
  continue_with-Ends :
      (o : Result E A × World) (f : A → Io E B)
      → Ends Q R o
      → ((a : A) → Runs (Q a) (f a) S R)
      → Ends S R (continue_with f o)
  continue_with-Ends (ok a, w) f h k = k a w h
  continue_with-Ends (err e, w) f h k = h
  continue_with-Ends (stuck, w) f h k = h

  pub >>=-Runs :
      (P : Files → Type 0) (m : Io E A) (f : A → Io E B)
      → Runs P m Q R
      → ((a : A) → Runs (Q a) (f a) S R)
      → Runs P (m >>= f) S R
  >>=-Runs P m f h k w p = continue_with-Ends (m w) f (h w p) k

module _ {E F A B : Type 0} (Q : A → Files → Type 0) (R : E → Files → Type 0)
    (S : B → Files → Type 0) (T : F → Files → Type 0) where
  match_on-Ends :
      (o : Result E A × World) (f : A → Io F B) (g : E → Io F B)
      → Ends Q R o
      → ((a : A) → Runs (Q a) (f a) S T)
      → ((e : E) → Runs (R e) (g e) S T)
      → Ends S T (match_on f g o)
  match_on-Ends (ok a, w) f g h k l = k a w h
  match_on-Ends (err e, w) f g h k l = l e w h
  match_on-Ends (stuck, w) f g h k l = h

  pub match_io-Runs :
      (P : Files → Type 0) (m : Io E A) (f : A → Io F B) (g : E → Io F B)
      → Runs P m Q R
      → ((a : A) → Runs (Q a) (f a) S T)
      → ((e : E) → Runs (R e) (g e) S T)
      → Runs P (match_io m f g) S T
  match_io-Runs P m f g h k l w p = match_on-Ends (m w) f g (h w p) k l

-- What holds of every answer and of every refusal holds at the end of a call.
abbrev pub Answered :
    {E A : Type 0} → (A → Files → Type 0) → (E → Files → Type 0) → Result E A × Files → Type 0
Answered Q R (ok a, files) = Q a files
Answered Q R (err e, files) = R e files
Answered Q R (stuck, files) = ⊥

module _ (os : Faults) {A : Type 0} (Q : A → Files → Type 0) (R : IoError → Files → Type 0) where
  Answered-Ends :
      (o : Result IoError A × Files) (n : ℕ)
      → Answered Q R o
      → Ends Q R (o.0, record { files = o.1; calls = n })
  Answered-Ends (ok a, files) n h = h
  Answered-Ends (err e, files) n h = h
  Answered-Ends (stuck, files) n h = h

  answer_as-Ends :
      (r : Option ℕ) (broken : Files → Files) (call : Files → Result IoError A × Files) (w : World)
      → Answered Q R (call w.files)
      → ((code : ℕ) → r ≡ some code → R (refused code) (broken w.files))
      → Ends Q R (answer_as os r broken call w)
  answer_as-Ends (some code) broken call w h k = k code refl
  answer_as-Ends none broken call w h k = Answered-Ends (call w.files) (suc w.calls) h

  pub answer_or-Runs :
      (P : Files → Type 0) (broken : ℕ → Files → Files) (call : Files → Result IoError A × Files)
      → ((fs : Files) → P fs → Answered Q R (call fs))
      → ((fs : Files) (n code : ℕ)
          → os.refuses n ≡ some code
          → P fs
          → R (refused code) (broken n fs))
      → Runs P (answer_or os broken call) Q R
  answer_or-Runs P broken call h k w p =
      answer_as-Ends (os.refuses w.calls) (broken w.calls) call w (h w.files p)
        (λ code r. k w.files w.calls code r p)

-- Some call is refused.
abbrev pub Refuses : Faults → Type 0
Refuses os = (n : ℕ) × (code : ℕ) × (os.refuses n ≡ some code)

module _ (os : Faults) where
  synced-Runs :
      (P : Files → Type 0) → Runs P (sync_all os) (λ u. P) (λ e files. Refuses os × P files)
  unfolding sync_all
  synced-Runs P =
      answer_or-Runs os (λ u. P) (λ e files. Refuses os × P files) P (λ n files. files)
        (λ files. (ok tt, files)) (λ files p. p) (λ files n code r p. ((n, code, r), p))

module _ (os : Faults) {E : Type 0} where
  -- Synchronization keeps whatever holds of the files, and fails only if a call is refused.
  pub sync_all-Runs :
      (P : Files → Type 0) (R : E → Files → Type 0) (f : IoError → E)
      → ((e : E) (files : Files) → Refuses os → P files → R e files)
      → Runs P (map_io_err f (sync_all os)) (λ u. P) R
  sync_all-Runs P R f k =
      match_io-Runs (λ u. P) (λ e files. Refuses os × P files) (λ u. P) R P (sync_all os) pure
        (λ e. fail (f e)) (synced-Runs os P) (λ u w p. p) (λ e w p. k (f e) w.files p.0 p.1)

  pub sync_directory-Runs :
      (directory : FilePath) (P : Files → Type 0) (R : E → Files → Type 0) (f : IoError → E)
      → ((e : E) (files : Files) → Refuses os → P files → R e files)
      → Runs P (map_io_err f (sync_directory os directory)) (λ u. P) R
  unfolding sync_directory
  sync_directory-Runs directory P R f k =
      match_io-Runs (λ u. P) (λ e files. Refuses os × P files) (λ u. P) R P
        (sync_all os >> sync_all os) pure (λ e. fail (f e))
        (>>=-Runs (λ u. P) (λ u. P) (λ e files. Refuses os × P files) P (sync_all os)
          (λ u. sync_all os) (synced-Runs os P) (λ u. synced-Runs os P))
        (λ u w p. p) (λ e w p. k (f e) w.files p.0 p.1)

-- Weaker conditions hold as well.
module _ {E A : Type 0} (Q S : A → Files → Type 0) (R T : E → Files → Type 0) where
  Ends-weaken :
      (o : Result E A × World)
      → ((a : A) (files : Files) → Q a files → S a files)
      → ((e : E) (files : Files) → R e files → T e files)
      → Ends Q R o
      → Ends S T o
  Ends-weaken (ok a, w) f g h = f a w.files h
  Ends-weaken (err e, w) f g h = g e w.files h
  Ends-weaken (stuck, w) f g h = h

  pub Runs-weaken :
      (P : Files → Type 0) (m : Io E A)
      → ((a : A) (files : Files) → Q a files → S a files)
      → ((e : E) (files : Files) → R e files → T e files)
      → Runs P m Q R
      → Runs P m S T
  Runs-weaken P m f g h w p = Ends-weaken (m w) f g (h w p)

-- Two conditions that hold at the end hold together.
module _ {E A : Type 0} (Q S : A → Files → Type 0) (R T : E → Files → Type 0) where
  Ends-both :
      (o : Result E A × World)
      → Ends Q R o
      → Ends S T o
      → Ends (λ a files. Q a files × S a files) (λ e files. R e files × T e files) o
  Ends-both (ok a, w) h k = (h, k)
  Ends-both (err e, w) h k = (h, k)
  Ends-both (stuck, w) h k = h

  pub Runs-both :
      (P U : Files → Type 0) (m : Io E A)
      → Runs P m Q R
      → Runs U m S T
      → Runs
          (λ files. P files × U files)
          m
          (λ a files. Q a files × S a files)
          (λ e files. R e files × T e files)
  Runs-both P U m h k w p = Ends-both (m w) (h w p.0) (k w p.1)
