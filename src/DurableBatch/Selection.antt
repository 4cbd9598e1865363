-- ===== src/DurableBatch/Selection.antt =====
-- `required_objects_for_document_kind` of src/durable_batch.rs: the slice that two searches bound, against the
-- descriptors of that document and kind.
use tine_storage.Base.{
  ℕ, suc, ◌+◌, ◌-◌, ◌≡◌, refl, ap, ◌∙◌, Bool, true, false, List, [], ◌∷◌, All, take, drop, slice,
  if◌then◌else◌, Bool-cases, inl, inr, arith,
}
use tine_storage.Order.{StrictOrder, same}
use tine_storage.Order.Laws.{lex_order, nat_order, order_by}
use tine_storage.Order.Sorting.{IsStrict}
use tine_storage.DurableBatch.{
  Ids, ObjectDescriptor, ObjectKind, Policy, descriptor_order, kind_rank,
}
use tine_storage.DurableBatch.Manifest.{OperationBatch}
use tine_storage.DurableBatch.Canonical.{IsCanonical}

module _ {A : Type 0} where
  -- `slice::partition_point` on a slice that the test partitions: the length of its first part.
  unfoldable pub partition_point : (A → Bool) → List A → ℕ
  partition_point test [] = 0
  partition_point test (x ∷ xs) = if test x then suc (partition_point test xs) else 0

  abbrev pub filter : (A → Bool) → List A → List A
  filter test [] = []
  filter test (x ∷ xs) = let rest = filter test xs in if test x then x ∷ rest else rest

module _ (ids : Ids) where
  -- The pairs that the searches compare.
  unfoldable pub selection_order : StrictOrder (ids.DocumentId × ℕ)
  selection_order = lex_order ids.document_order nat_order

  abbrev pub selection_key : ObjectDescriptor ids → ids.DocumentId × ℕ
  selection_key descriptor = (descriptor.document_id, kind_rank descriptor.kind)

  abbrev pub is_before : ids.DocumentId → ObjectKind → ObjectDescriptor ids → Bool
  is_before document_id kind descriptor =
      selection_order.lt (selection_key descriptor) (document_id, kind_rank kind)

  abbrev pub is_at : ids.DocumentId → ObjectKind → ObjectDescriptor ids → Bool
  is_at document_id kind descriptor =
      same selection_order (selection_key descriptor) (document_id, kind_rank kind)

  -- The two searches over the sorted descriptors.
  unfoldable pub select_objects :
      ids.DocumentId → ObjectKind → List (ObjectDescriptor ids) → List (ObjectDescriptor ids)
  unfolding partition_point
  select_objects document_id kind objects =
      let start = partition_point (is_before document_id kind) objects in
      let end = start + partition_point (is_at document_id kind) (drop start objects) in
      slice start end objects

  -- `OperationBatch::required_objects_for_document_kind`
  unfoldable pub required_objects_for_document_kind :
      OperationBatch ids → ids.DocumentId → ObjectKind → List (ObjectDescriptor ids)
  unfolding select_objects
  required_objects_for_document_kind batch document_id kind =
      select_objects document_id kind batch.required_objects

  -- A descriptor that stands behind another is not under it in the searched pair.
  selection_ascends :
      (x y : ObjectDescriptor ids)
      → (descriptor_order ids).lt x y ≡ true
      → selection_order.lt (selection_key y) (selection_key x) ≡ false
  unfolding descriptor_order selection_order lex_order order_by nat_order
  selection_ascends x y h =
      let o = ids.document_order in
      ground (arith, o.trans x.document_id y.document_id x.document_id, o.irrefl x.document_id)

  module _ (document_id : ids.DocumentId) (kind : ObjectKind) where
    none_at :
        (xs : List (ObjectDescriptor ids))
        → All (λ x. is_at document_id kind x ≡ false) xs
        → filter (is_at document_id kind) xs ≡ []
    none_at [] h = refl
    none_at (x ∷ xs) (h, hs) = rw (h, none_at xs hs) refl

    -- Behind a descriptor over the searched pair there is none at it.
    over :
        (x y : ObjectDescriptor ids)
        → is_before document_id kind x ≡ false
        → is_at document_id kind x ≡ false
        → (descriptor_order ids).lt x y ≡ true
        → is_at document_id kind y ≡ false
    over x y h k less =
        let o = selection_order in
        let key : ids.DocumentId × ℕ = (document_id, kind_rank kind) in
        ground (
          arith,
          selection_ascends x y less,
          o.trans key (selection_key x) (selection_key y),
          o.trans key (selection_key x) key,
          o.trans (selection_key y) key (selection_key x),
          o.connected (selection_key x) (selection_key y),
        )

    over_behind :
        (x : ObjectDescriptor ids) (ys : List (ObjectDescriptor ids))
        → is_before document_id kind x ≡ false
        → is_at document_id kind x ≡ false
        → All (λ y. (descriptor_order ids).lt x y ≡ true) ys
        → All (λ y. is_at document_id kind y ≡ false) ys
    over_behind x [] h k ascending = tt
    over_behind x (y ∷ ys) h k (less, ascending) =
        (over x y h k less, over_behind x ys h k ascending)

    -- The descriptors at the searched pair are the first ones, where none is before it.
    leading :
        (xs : List (ObjectDescriptor ids))
        → All (λ x. is_before document_id kind x ≡ false) xs
        → IsStrict (descriptor_order ids) xs
        → take (partition_point (is_at document_id kind) xs) xs ≡ filter (is_at document_id kind) xs
    unfolding partition_point
    leading [] h ascending = refl
    leading (x ∷ xs) (h, hs) (less, ascending) = elim (Bool-cases (is_at document_id kind x)) [
      | inl here ↦ rw here (ap (λ l. x ∷ l) (leading xs hs ascending))
      | inr other ↦ rw (other, none_at xs (over_behind x xs h other less)) refl
    ]

    -- No descriptor before the pair stands behind one that is not.
    not_before :
        (x y : ObjectDescriptor ids)
        → is_before document_id kind x ≡ false
        → (descriptor_order ids).lt x y ≡ true
        → is_before document_id kind y ≡ false
    not_before x y h less =
        let o = selection_order in
        let key : ids.DocumentId × ℕ = (document_id, kind_rank kind) in
        ground (
          arith,
          selection_ascends x y less,
          o.trans (selection_key x) (selection_key y) key,
          o.connected (selection_key x) (selection_key y),
        )

    none_before :
        (x : ObjectDescriptor ids) (ys : List (ObjectDescriptor ids))
        → is_before document_id kind x ≡ false
        → All (λ y. (descriptor_order ids).lt x y ≡ true) ys
        → All (λ y. is_before document_id kind y ≡ false) ys
    none_before x [] h ascending = tt
    none_before x (y ∷ ys) h (less, ascending) =
        (not_before x y h less, none_before x ys h ascending)

    pub select_objects-filter :
        (xs : List (ObjectDescriptor ids))
        → IsStrict (descriptor_order ids) xs
        → select_objects document_id kind xs ≡ filter (is_at document_id kind) xs
    unfolding select_objects partition_point
    select_objects-filter [] ascending = refl
    select_objects-filter (x ∷ xs) (less, ascending) =
        elim (Bool-cases (is_before document_id kind x)) [
          | inl before ↦
              let start = partition_point (is_before document_id kind) xs in
              let n = partition_point (is_at document_id kind) (drop start xs) in
              let e : suc start + n ≡ suc (start + n) = omega arith in
              let e' : suc (start + n) - suc start ≡ start + n - start = omega arith in
              rw (before, e, e') (select_objects-filter xs ascending)
          | inr other ↦
              let n = partition_point (is_at document_id kind) (x ∷ xs) in
              let e : 0 + n - 0 ≡ n = omega arith in
              let at_start : partition_point (is_before document_id kind) (x ∷ xs) ≡ 0 =
                rw other refl in
              ap
                (λ s.
                  take (s + partition_point (is_at document_id kind) (drop s (x ∷ xs)) - s)
                    (drop s (x ∷ xs)))
                at_start
              ∙ ap (λ m. take m (x ∷ xs)) e
              ∙ leading (x ∷ xs) (other, none_before x xs other less) (less, ascending)
        ]

module _ (ids : Ids) (policy : Policy ids) where
  -- On a manifest in canonical form, the two searches for a document and kind select all of its
  -- descriptors of that document and kind, in their order, and no others.
  pub required_objects_for_document_kind-filter :
      (batch : OperationBatch ids) (document_id : ids.DocumentId) (kind : ObjectKind)
      → IsCanonical ids policy batch
      → required_objects_for_document_kind ids batch document_id kind
        ≡ filter (is_at ids document_id kind) batch.required_objects
  unfolding required_objects_for_document_kind
  required_objects_for_document_kind-filter batch document_id kind canonical =
      select_objects-filter ids document_id kind batch.required_objects canonical.objects_ascend
