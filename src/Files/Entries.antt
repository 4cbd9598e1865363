-- ===== src/Files/Entries.antt =====
-- The laws of changing one entry.
use tine_storage.Base.{◌≡◌, ◌≢◌, refl, sym, ap, ◌∙◌, false, Bool-cases, ◌⊎◌, inl, inr}
use tine_storage.Files.{FilePath, path_eq, path_eq_refl, path_eq_sound, Entry, Files, put}

pub path_cases : (p q : FilePath) → (p ≡ q) ⊎ (path_eq p q ≡ false)
path_cases p q = elim (Bool-cases (path_eq p q)) [
  | inl same ↦ inl (path_eq_sound p q same)
  | inr other ↦ inr other
]

pub path_differs : (p q : FilePath) → p ≢ q → path_eq p q ≡ false
path_differs p q n = elim (path_cases p q) [ inl e ↦ absurd (n e) | inr other ↦ other ]

pub put_same : (p : FilePath) (e : Entry) (fs : Files) → put p e fs p ≡ e
put_same p e fs = rw (path_eq_refl p) refl

pub put_other : (p q : FilePath) (e : Entry) (fs : Files) → p ≢ q → put p e fs q ≡ fs q
put_other p q e fs n = rw (path_differs p q n) refl

pub same_files : (fs gs : Files) → ((p : FilePath) → fs p ≡ gs p) → fs ≡ gs
same_files fs gs h i p = h p i

pub put-put : (p : FilePath) (e f : Entry) (fs : Files) → put p e (put p f fs) ≡ put p e fs
put-put p e f fs = same_files _ _ pointwise
  where
    pointwise : (q : FilePath) → put p e (put p f fs) q ≡ put p e fs q
    pointwise q = elim (Bool-cases (path_eq p q)) [ inl h ↦ rw h refl | inr h ↦ rw h refl ]

pub put_back : (p : FilePath) (e : Entry) (fs : Files) → fs p ≡ e → put p e fs ≡ fs
put_back p e fs here = same_files _ _ pointwise
  where
    pointwise : (q : FilePath) → put p e fs q ≡ fs q
    pointwise q = elim (path_cases p q) [
      | inl h ↦ ap (put p e fs) (sym h) ∙ put_same p e fs ∙ sym here ∙ ap fs h
      | inr h ↦ rw h refl
    ]
