-- ===== src/Order/Sorting.antt =====
-- Sorting and deduplication: what they keep, and that they forget the order of their input.
use tine_storage.Base.{
  ◌≡◌, refl, Bool, true, false, ◌&&◌, List, [], ◌∷◌, arith, Bool-cases, inl, inr, ◌∙◌, All,
}
use tine_storage.Order.{
  StrictOrder, same, is_strictly_sorted, insert_sorted, sort, dedup_behind, dedup,
}

-- One list is the other with its elements in another order.
pub data Rearranged {A : Type 0} : List A → List A → Type 0 where
  unchanged : (xs : List A) → Rearranged xs xs
  behind : (x : A) {xs ys : List A} → Rearranged xs ys → Rearranged (x ∷ xs) (x ∷ ys)
  exchange : (x y : A) (xs : List A) → Rearranged (x ∷ y ∷ xs) (y ∷ x ∷ xs)
  then_on : {xs ys zs : List A} → Rearranged xs ys → Rearranged ys zs → Rearranged xs zs

module _ {A : Type 0} (o : StrictOrder A) where
  -- Inserting two elements, in either order.
  insert_comm :
      (x y : A) (l : List A)
      → insert_sorted o x (insert_sorted o y l) ≡ insert_sorted o y (insert_sorted o x l)
  unfolding insert_sorted
  insert_comm x y [] = ground (arith, o.connected x y, o.trans x y x, o.irrefl x)
  insert_comm x y (z ∷ l) = ground (
    arith,
    insert_comm x y l,
    o.connected x y,
    o.trans x y x,
    o.irrefl x,
    o.trans y z x,
    o.trans x z y,
    o.connected y z,
    o.connected x z,
    o.trans z x y,
    o.trans z y x,
  )

  -- Two lists of the same elements sort to one list.
  pub sort-Rearranged : {xs ys : List A} → Rearranged xs ys → sort o xs ≡ sort o ys
  unfolding sort
  sort-Rearranged (unchanged xs) = refl
  sort-Rearranged (behind x p) = rw (sort-Rearranged p) refl
  sort-Rearranged (exchange x y xs) = insert_comm x y (sort o xs)
  sort-Rearranged (then_on p q) = sort-Rearranged p ∙ sort-Rearranged q

  -- Ascending, with repetitions.
  abbrev pub IsAscending : List A → Type 0
  IsAscending [] = Unit
  IsAscending (x ∷ xs) = All (λ y. o.lt y x ≡ false) xs × IsAscending xs

  -- `y < x` refutes `x < y`.
  not_below : (y x : A) → o.lt y x ≡ true → o.lt x y ≡ false
  not_below y x h = ground (arith, o.trans x y x, o.irrefl x)

  -- What is not under `y` is not under `x`, if `y` is not under `x`.
  above_all : (z y x : A) → o.lt z y ≡ false → o.lt y x ≡ false → o.lt z x ≡ false
  above_all z y x h k = ground (arith, o.trans y z x, o.connected y z, o.trans z x y)

  pub All-weaken : {P Q : A → Type 0} (l : List A) → ((z : A) → P z → Q z) → All P l → All Q l
  All-weaken [] f h = tt
  All-weaken (z ∷ l) f (h, hs) = (f z h, All-weaken l f hs)

  and_parts : (a b : Bool) → (a && b) ≡ true → (a ≡ true) × (b ≡ true)
  and_parts true b h = (refl, h)
  and_parts false b h = cc

  pub insert_sorted-All :
      (P : A → Type 0) (x : A) (l : List A) → P x → All P l → All P (insert_sorted o x l)
  unfolding insert_sorted
  insert_sorted-All P x [] h k = (h, tt)
  insert_sorted-All P x (y ∷ l) h (k, ks) = elim (Bool-cases (o.lt y x)) [
    | inl less ↦ rw less (k, insert_sorted-All P x l h ks)
    | inr more ↦ rw more (h, (k, ks))
  ]

  insert_sorted-IsAscending :
      (x : A) (l : List A) → IsAscending l → IsAscending (insert_sorted o x l)
  unfolding insert_sorted
  insert_sorted-IsAscending x [] h = (tt, tt)
  insert_sorted-IsAscending x (y ∷ l) (above, rest) = elim (Bool-cases (o.lt y x)) [
    | inl less ↦ rw less (
      insert_sorted-All (λ z. o.lt z y ≡ false) x l (not_below y x less) above,
      insert_sorted-IsAscending x l rest,
    )
    | inr more ↦ rw more ((more, All-weaken l (λ z h. above_all z y x h more) above), (above, rest))
  ]

  pub sort-IsAscending : (l : List A) → IsAscending (sort o l)
  unfolding sort
  sort-IsAscending [] = tt
  sort-IsAscending (x ∷ l) = insert_sorted-IsAscending x (sort o l) (sort-IsAscending l)

  -- Strictly ascending.
  abbrev pub IsStrict : List A → Type 0
  IsStrict [] = Unit
  IsStrict (x ∷ xs) = All (λ y. o.lt x y ≡ true) xs × IsStrict xs

  -- The test on neighbours decides it.
  pub is_strictly_sorted-IsStrict : (l : List A) → is_strictly_sorted o l ≡ true → IsStrict l
  unfolding is_strictly_sorted
  is_strictly_sorted-IsStrict [] h = tt
  is_strictly_sorted-IsStrict (x ∷ []) h = (tt, tt)
  is_strictly_sorted-IsStrict (x ∷ y ∷ l) h =
      let (less, rest) = and_parts (o.lt x y) (is_strictly_sorted o (y ∷ l)) h in
      let (above, tail) = is_strictly_sorted-IsStrict (y ∷ l) rest in
      ((less, All-weaken l (λ z k. o.trans x y z less k) above), (above, tail))

  pub IsStrict-is_strictly_sorted : (l : List A) → IsStrict l → is_strictly_sorted o l ≡ true
  unfolding is_strictly_sorted
  IsStrict-is_strictly_sorted [] h = refl
  IsStrict-is_strictly_sorted (x ∷ []) h = refl
  IsStrict-is_strictly_sorted (x ∷ y ∷ l) ((less, above), rest) =
      rw (less, IsStrict-is_strictly_sorted (y ∷ l) rest) refl

  pub dedup_behind-All :
      (P : A → Type 0) (kept : A) (l : List A) → All P l → All P (dedup_behind o kept l)
  unfolding dedup_behind
  dedup_behind-All P kept [] h = tt
  dedup_behind-All P kept (x ∷ l) (h, hs) = elim (Bool-cases (same o kept x)) [
    | inl again ↦ rw again (dedup_behind-All P kept l hs)
    | inr fresh ↦ rw fresh (h, dedup_behind-All P x l hs)
  ]

  -- Behind an element that nothing undercuts, deduplication leaves only greater ones.
  dedup_behind-IsStrict :
      (kept : A) (l : List A)
      → All (λ y. o.lt y kept ≡ false) l
      → IsAscending l
      → IsStrict (kept ∷ dedup_behind o kept l)
  unfolding dedup_behind
  dedup_behind-IsStrict kept [] above rest = (tt, tt)
  dedup_behind-IsStrict kept (x ∷ l) (h, above) (above', rest) = elim (Bool-cases (same o kept x)) [
    | inl again ↦ rw again (dedup_behind-IsStrict kept l above rest)
    | inr fresh ↦
        let less : o.lt kept x ≡ true = ground (arith, h, fresh) in
        let (upper, tail) = dedup_behind-IsStrict x l above' rest in
        rw fresh (
          (less, All-weaken (dedup_behind o x l) (λ z k. o.trans kept x z less k) upper),
          (upper, tail),
        )
  ]

  pub dedup-sort-IsStrict : (l : List A) → IsStrict (dedup o (sort o l))
  unfolding dedup
  dedup-sort-IsStrict l = strict (sort o l) (sort-IsAscending l)
    where
      strict : (l : List A) → IsAscending l → IsStrict (dedup o l)
      strict [] h = tt
      strict (x ∷ l) (above, rest) = dedup_behind-IsStrict x l above rest
