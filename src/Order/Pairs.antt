-- ===== src/Order/Pairs.antt =====
-- Properties of all pairs of a list's elements, and what sorting and deduplication keep of them.
use tine_storage.Base.{◌≡◌, ◌≢◌, sym, ap, true, false, List, [], ◌∷◌, Bool-cases, inl, inr, All}
use tine_storage.Order.{StrictOrder, insert_sorted, sort, dedup}
use tine_storage.Order.Sorting.{
  All-weaken, IsAscending, IsStrict, sort-IsAscending, insert_sorted-All, dedup_behind-All,
}

-- The relation holds between every element and each one behind it.
abbrev pub AllPairs : {A : Type 0} → (A → A → Type 0) → List A → Type 0
AllPairs R [] = Unit
AllPairs R (x ∷ xs) = All (R x) xs × AllPairs R xs

module _ {A : Type 0} where
  pub All-both : (P Q : A → Type 0) (l : List A) → All P l → All Q l → All (λ x. P x × Q x) l
  All-both P Q [] h k = tt
  All-both P Q (x ∷ l) (h, hs) (k, ks) = ((h, k), All-both P Q l hs ks)

module _ {A : Type 0} (o : StrictOrder A) where
  pub sort-All : (P : A → Type 0) (l : List A) → All P l → All P (sort o l)
  unfolding sort
  sort-All P [] h = tt
  sort-All P (x ∷ l) (h, hs) = insert_sorted-All o P x (sort o l) h (sort-All P l hs)

  pub dedup-All : (P : A → Type 0) (l : List A) → All P l → All P (dedup o l)
  unfolding dedup
  dedup-All P [] h = tt
  dedup-All P (x ∷ l) (h, hs) = (h, dedup_behind-All o P x l hs)

  module _ (R : A → A → Type 0) (symmetric : (x y : A) → R x y → R y x) where
    insert_sorted-AllPairs :
        (x : A) (l : List A) → All (R x) l → AllPairs R l → AllPairs R (insert_sorted o x l)
    unfolding insert_sorted
    insert_sorted-AllPairs x [] h k = (tt, tt)
    insert_sorted-AllPairs x (y ∷ l) (h, hs) (k, ks) = elim (Bool-cases (o.lt y x)) [
      | inl less ↦
          rw less
            (insert_sorted-All o (R y) x l (symmetric x y h) k, insert_sorted-AllPairs x l hs ks)
      | inr more ↦ rw more ((h, hs), (k, ks))
    ]

    pub sort-AllPairs : (l : List A) → AllPairs R l → AllPairs R (sort o l)
    unfolding sort
    sort-AllPairs [] h = tt
    sort-AllPairs (x ∷ l) (h, hs) =
        insert_sorted-AllPairs x (sort o l) (sort-All (R x) l h) (sort-AllPairs l hs)

  above_strict :
      (x : A) (l : List A)
      → All (λ y. o.lt y x ≡ false) l
      → All (λ y. x ≢ y) l
      → All (λ y. o.lt x y ≡ true) l
  above_strict x [] h k = tt
  above_strict x (y ∷ l) (h, hs) (k, ks) = elim (Bool-cases (o.lt x y)) [
    | inl less ↦ (less, above_strict x l hs ks)
    | inr more ↦ absurd (k (o.connected x y more h))
  ]

  -- Ascending without repetitions is strictly ascending.
  pub IsAscending-IsStrict :
      (l : List A) → IsAscending o l → AllPairs (λ x y. x ≢ y) l → IsStrict o l
  IsAscending-IsStrict [] h k = tt
  IsAscending-IsStrict (x ∷ l) (h, hs) (k, ks) =
      (above_strict x l h k, IsAscending-IsStrict l hs ks)

  AllPairs-weaken :
      (R S : A → A → Type 0) (l : List A)
      → ((x y : A) → R x y → S x y)
      → AllPairs R l
      → AllPairs S l
  AllPairs-weaken R S [] f h = tt
  AllPairs-weaken R S (x ∷ l) f (h, hs) =
      (All-weaken o l (λ y k. f x y k) h, AllPairs-weaken R S l f hs)

  -- Elements that differ in a key sort to a strictly ascending list.
  pub sort-IsStrict :
      {B : Type 0} (key : A → B) (l : List A)
      → AllPairs (λ x y. key x ≢ key y) l
      → IsStrict o (sort o l)
  sort-IsStrict key l h = IsAscending-IsStrict (sort o l) (sort-IsAscending o l) (
      AllPairs-weaken (λ x y. key x ≢ key y) (λ x y. x ≢ y) (sort o l) (λ x y n e. n (ap key e))
        (sort-AllPairs (λ x y. key x ≢ key y) (λ x y n e. n (sym e)) l h))
