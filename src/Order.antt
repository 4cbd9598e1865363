-- ===== src/Order.antt =====
-- Rust's derived `Ord`: strict total orders as Boolean tests, for numbers, byte strings and pairs, and
-- `sort_unstable`, `dedup` and `windows(2)` over them.
pub mod Laws
pub mod Sorting
pub mod Pairs
use tine_storage.Base.{
  ℕ, ◌≡◌, refl, Bool, true, false, not, ◌&&◌, List, [], ◌∷◌, Bytes, ltb, ◌==◌, if◌then◌else◌, arith,
  Bool-cases, ◌⊎◌, inl, inr, Option, none, some,
}

pub record StrictOrder (A : Type 0) : Type 0 where
  pub lt : A → A → Bool
  pub irrefl : (a : A) → lt a a ≡ false
  pub trans : (a b c : A) → lt a b ≡ true → lt b c ≡ true → lt a c ≡ true
  pub connected : (a b : A) → lt a b ≡ false → lt b a ≡ false → a ≡ b

module _ {A : Type 0} (o : StrictOrder A) where
  -- The `==` that agrees with the order.
  abbrev pub same : A → A → Bool
  same a b = not (o.lt a b) && not (o.lt b a)

  -- `values.windows(2).all(|pair| pair[0] < pair[1])`
  unfoldable pub is_strictly_sorted : List A → Bool
  is_strictly_sorted [] = true
  is_strictly_sorted (x ∷ []) = true
  is_strictly_sorted (x ∷ y ∷ rest) = o.lt x y && is_strictly_sorted (y ∷ rest)

  -- `adjacent_duplicate`
  unfoldable pub adjacent_duplicate : List A → Option A
  adjacent_duplicate [] = none
  adjacent_duplicate (x ∷ []) = none
  adjacent_duplicate (x ∷ y ∷ rest) = if same x y then some x else adjacent_duplicate (y ∷ rest)

  -- `values.sort_unstable()`
  unfoldable pub insert_sorted : A → List A → List A
  insert_sorted x [] = x ∷ []
  insert_sorted x (y ∷ ys) = if o.lt y x then y ∷ insert_sorted x ys else x ∷ y ∷ ys

  unfoldable pub sort : List A → List A
  unfolding insert_sorted
  sort [] = []
  sort (x ∷ xs) = insert_sorted x (sort xs)

  -- `values.dedup()`, behind the element that was kept last.
  unfoldable pub dedup_behind : A → List A → List A
  dedup_behind kept [] = []
  dedup_behind kept (x ∷ xs) =
      let dropped = dedup_behind kept xs in
      let next = x ∷ dedup_behind x xs in if same kept x then dropped else next

  unfoldable pub dedup : List A → List A
  unfolding dedup_behind
  dedup [] = []
  dedup (x ∷ xs) = x ∷ dedup_behind x xs

  -- `values.binary_search(&x).is_ok()`, on the sorted slices that it is called with.
  unfoldable pub holds : A → List A → Bool
  holds a [] = false
  holds a (x ∷ xs) = if same x a then true else holds a xs
