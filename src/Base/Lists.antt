-- ===== src/Base/Lists.antt =====
-- Lists measured and cut by native numbers, under the library's names.
use Prim.Native.Nat.{ℕ, zero, suc, ◌+◌, ◌-◌, ◌≤◌, min}
use mathlib.Core.Path.{◌≡◌, refl, sym, ap, ◌∙◌}
use mathlib.Core.List.{List, [], ◌∷◌, ◌++◌}
use native.Mathlib.Nat.{zero-add}
use native.Mathlib.Omega.{arith}

module _ {ℓ} {A : Type ℓ} where
  abbrev pub length : List A → ℕ
  length [] = 0
  length (x ∷ xs) = suc (length xs)

  abbrev pub get_or : List A → ℕ → A → A
  get_or [] i d = d
  get_or (x ∷ xs) zero d = x
  get_or (x ∷ xs) (suc i) d = get_or xs i d

  abbrev pub take : ℕ → List A → List A
  take zero xs = []
  take (suc n) [] = []
  take (suc n) (x ∷ xs) = x ∷ take n xs

  abbrev pub drop : ℕ → List A → List A
  drop zero xs = xs
  drop (suc n) [] = []
  drop (suc n) (x ∷ xs) = drop n xs

  abbrev pub replicate : ℕ → A → List A
  replicate zero a = []
  replicate (suc n) a = a ∷ replicate n a

  abbrev pub All {κ} : (A → Type κ) → List A → Type κ
  All P [] = Unit {κ}
  All P (x ∷ xs) = P x × All P xs

  -- `bytes[from..to]`, for bounds within the slice.
  abbrev pub slice : ℕ → ℕ → List A → List A
  slice from to xs = take (to - from) (drop from xs)

module _ {ℓ} {A : Type ℓ} where
  pub length-append : (xs ys : List A) → length (xs ++ ys) ≡ length xs + length ys
  length-append [] ys = omega arith
  length-append (x ∷ xs) ys = omega (arith, length-append xs ys)

  pub take-append-drop : (n : ℕ) (xs : List A) → take n xs ++ drop n xs ≡ xs
  take-append-drop zero xs = refl
  take-append-drop (suc n) [] = refl
  take-append-drop (suc n) (x ∷ xs) = ap (λ l. x ∷ l) (take-append-drop n xs)

  pub length-take : (n : ℕ) (xs : List A) → length (take n xs) ≡ min n (length xs)
  length-take zero xs = omega arith
  length-take (suc n) [] = omega arith
  length-take (suc n) (x ∷ xs) = omega (arith, length-take n xs)

  pub length-drop : (n : ℕ) (xs : List A) → length (drop n xs) ≡ length xs - n
  length-drop zero xs = omega arith
  length-drop (suc n) [] = omega arith
  length-drop (suc n) (x ∷ xs) = omega (arith, length-drop n xs)

  pub take-append : (xs ys : List A) → take (length xs) (xs ++ ys) ≡ xs
  take-append [] ys = refl
  take-append (x ∷ xs) ys = ap (λ l. x ∷ l) (take-append xs ys)

  pub drop-append : (xs ys : List A) → drop (length xs) (xs ++ ys) ≡ ys
  drop-append [] ys = refl
  drop-append (x ∷ xs) ys = drop-append xs ys

  pub take_all : (n : ℕ) (xs : List A) → length xs ≤ n → take n xs ≡ xs
  take_all zero [] h = refl
  take_all zero (x ∷ xs) h = absurd (omega arith)
  take_all (suc n) [] h = refl
  take_all (suc n) (x ∷ xs) h = ap (λ l. x ∷ l) (take_all n xs (omega arith))

  pub drop_all : (n : ℕ) (xs : List A) → length xs ≤ n → drop n xs ≡ []
  drop_all zero [] h = refl
  drop_all zero (x ∷ xs) h = absurd (omega arith)
  drop_all (suc n) [] h = refl
  drop_all (suc n) (x ∷ xs) h = drop_all n xs (omega arith)

  pub length-replicate : (n : ℕ) (a : A) → length (replicate n a) ≡ n
  length-replicate zero a = refl
  length-replicate (suc n) a = ap suc (length-replicate n a)

  pub All-append {κ} :
      (P : A → Type κ) (front back : List A) → All P front → All P back → All P (front ++ back)
  All-append P [] back none_left rest = rest
  All-append P (first ∷ front) back (here, there) rest = (here, All-append P front back there rest)

  pub All-take {κ} : (P : A → Type κ) (n : ℕ) (xs : List A) → All P xs → All P (take n xs)
  All-take P zero xs h = tt
  All-take P (suc n) [] h = tt
  All-take P (suc n) (x ∷ xs) h = (h.0, All-take P n xs h.1)

  pub All-drop {κ} : (P : A → Type κ) (n : ℕ) (xs : List A) → All P xs → All P (drop n xs)
  All-drop P zero xs h = h
  All-drop P (suc n) [] h = tt
  All-drop P (suc n) (x ∷ xs) h = All-drop P n xs h.1

  pub take-append_at : (n : ℕ) (xs ys : List A) → length xs ≡ n → take n (xs ++ ys) ≡ xs
  take-append_at n xs ys h = rw (← h) (take-append xs ys)

  pub drop-append_at : (n : ℕ) (xs ys : List A) → length xs ≡ n → drop n (xs ++ ys) ≡ ys
  drop-append_at n xs ys h = rw (← h) (drop-append xs ys)

  pub drop-append_add :
      (n k : ℕ) (xs ys : List A) → length xs ≡ n → drop (n + k) (xs ++ ys) ≡ drop k ys
  drop-append_add zero k [] ys h = rw zero-add
  drop-append_add zero k (x ∷ xs) ys h = absurd (omega arith)
  drop-append_add (suc n) k [] ys h = absurd (omega arith)
  drop-append_add (suc n) k (x ∷ xs) ys h =
      let e : suc n + k ≡ suc (n + k) = omega arith in
      rw e (drop-append_add n k xs ys (omega arith))

  -- A slice that begins behind the first part.
  pub slice_skip :
      (n from to : ℕ) (xs ys : List A)
      → length xs ≡ n
      → slice (n + from) (n + to) (xs ++ ys) ≡ slice from to ys
  slice_skip n from to xs ys h =
      let e : n + to - (n + from) ≡ to - from = omega arith in
      rw (e, drop-append_add n from xs ys h)

  pub length-slice :
      (from to : ℕ) (xs : List A)
      → from ≤ to
      → to ≤ length xs
      → length (slice from to xs) ≡ to - from
  length-slice from to xs h k =
      omega (arith, length-take (to - from) (drop from xs), length-drop from xs)

  pub drop-drop : (a k : ℕ) (xs : List A) → drop k (drop a xs) ≡ drop (a + k) xs
  drop-drop zero k xs = rw zero-add
  drop-drop (suc a) zero [] = let e : suc a + 0 ≡ suc a = omega arith in rw e
  drop-drop (suc a) (suc k) [] = let e : suc a + suc k ≡ suc (suc (a + k)) = omega arith in rw e
  drop-drop (suc a) k (x ∷ xs) =
      let e : suc a + k ≡ suc (a + k) = omega arith in rw e (drop-drop a k xs)

  -- Cutting what is left after `from` at `to`.
  pub slice-drop :
      (from to : ℕ) (xs : List A) → from ≤ to → slice from to xs ++ drop to xs ≡ drop from xs
  slice-drop from to xs h =
      let e : from + (to - from) ≡ to = omega arith in
      let back : drop (to - from) (drop from xs) ≡ drop to xs =
        rw e at (drop-drop from (to - from) xs) in
      rw (← back) (take-append-drop (to - from) (drop from xs))

  pub take-slice :
      (from to : ℕ) (xs : List A) → from ≤ to → take to xs ≡ take from xs ++ slice from to xs
  take-slice zero to xs h = let e : to - 0 ≡ to = omega arith in rw e
  take-slice (suc from) zero xs h = absurd (omega arith)
  take-slice (suc from) (suc to) [] h = sym (take_all (suc to - suc from) [] (omega arith))
  take-slice (suc from) (suc to) (x ∷ xs) h =
      let e : suc to - suc from ≡ to - from = omega arith in
      rw (e, take-slice from to xs (omega arith))

  -- The next field of a record of fixed-size fields: where it is cut, and what is behind it.
  pub next_field :
      (from n to : ℕ) (xs field rest : List A)
      → from + n ≡ to
      → drop from xs ≡ field ++ rest
      → length field ≡ n
      → (slice from to xs ≡ field) × (drop to xs ≡ rest)
  next_field from n to xs field rest e d h =
      let size : to - from ≡ n = omega arith in
      (
        rw (d, size) (take-append_at n field rest h),
        rw (← e) (sym (drop-drop from n xs) ∙ ap (drop n) d ∙ drop-append_at n field rest h),
      )
