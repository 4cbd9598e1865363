-- ===== src/Patricia/Store/Walks.antt =====
-- The walks that change the index: insertion into staged nodes and removal.
use tine_storage.Base.{
  ℕ, zero, suc, ◌^◌, Bool, not, Option, none, some, List, [], ◌∷◌, Bytes, length, ltb, bytes_eq,
  if◌then◌else◌, Result, ok, err, ◌>>=◌, ◌>>◌, refuse_if, lift,
}
use tine_storage.ContentDigest.{Sha256, of}
use tine_storage.Postcard.{Postcard}
use tine_storage.Patricia.Bits.{
  publication, PatriciaError, malformed, bool_eq, key_bit_len, key_bit, common_prefix_bits,
  prefix_matches, masked_prefix, traversal_node_budget,
}
use tine_storage.Patricia.Node.{
  Node, Leaf, leaf, branch, ChildPathConstraint, BranchFrame, node_schema_version, max_node_bytes,
  empty_root, validate_record, validate_node, node_prefix, node_prefix_bits, validate_node_path,
  child_of, constraint_of, rebuild,
}
use tine_storage.Patricia.Store.{
  Store, Staged, read_node, read_staged_or_persisted, stage, new_leaf,
}

module _ (sha : Sha256) (pc : Postcard Node) where
  -- `stage_split`
  unfoldable pub split_node : Bytes → ℕ → Bool → Bytes → Bytes → Node
  split_node key shared key_right existing added = branch (record {
    schema_version = node_schema_version;
    prefix = masked_prefix key shared;
    prefix_bit_len = shared;
    left = if key_right then existing else added;
    right = if key_right then added else existing;
  })

  unfoldable pub stage_split :
      Bytes → ℕ → Bytes → Bytes → Bytes × Staged → Result PatriciaError (Bytes × Staged)
  stage_split key shared existing existing_prefix (added, staged) = do
    key_right ← key_bit key shared
    existing_right ← key_bit existing_prefix shared
    refuse_if (bool_eq key_right existing_right) malformed
    refuse_if (not (ltb shared (2 ^ 16))) malformed
    stage sha pc (split_node key shared key_right existing added) staged

  -- A node whose prefix the key leaves after `shared` bits.
  unfoldable pub split_at :
      Bytes → Bytes → ℕ → Bytes → Node → Staged → Result PatriciaError (Bytes × Staged)
  split_at key value shared digest node staged =
      stage sha pc (new_leaf sha pc key value) staged
      >>= stage_split key shared digest (node_prefix node)

  -- A leaf that the walk of `insert_at_staged` reaches.
  unfoldable pub insert_at_leaf :
      Bytes → Bytes → Bytes → Leaf → Staged → Result PatriciaError (Bytes × Staged)
  insert_at_leaf key value digest found staged =
      if bytes_eq found.key key
      then (if bytes_eq found.value value
          then ok (digest, staged)
          else stage sha pc (new_leaf sha pc key value) staged)
      else (key_bit_len key >>= λ bits. common_prefix_bits key found.key bits >>= λ shared.
          split_at key value shared digest (leaf found) staged)

  -- The loop of `insert_at_staged`, with the ancestors rebuilt on the way back.
  unfoldable pub insert_walk :
      ℕ
      → Store
      → Bytes
      → Bytes
      → Bytes
      → Option ChildPathConstraint
      → Staged
      → Result PatriciaError (Bytes × Staged)
  insert_walk zero store key value digest constraint staged = err malformed
  insert_walk (suc remaining) store key value digest constraint staged = do
    node ← read_staged_or_persisted sha pc store staged digest
    validate_node_path node constraint
    bits ← node_prefix_bits node
    shared ← common_prefix_bits key (node_prefix node) bits
    (if ltb shared bits then split_at key value shared digest node staged else elim node [
      | leaf found ↦ insert_at_leaf key value digest found staged
      | branch found ↦ key_bit key found.prefix_bit_len >>= λ rightward.
          insert_walk remaining store key value (child_of found rightward)
            (some (constraint_of found rightward)) staged
          >>= λ (child, grown).
              stage sha pc (rebuild (record { at = found; rightward = rightward }) child) grown
    ])

  unfoldable pub insert_staged :
      Store → Bytes → Bytes → Bytes → Staged → Result PatriciaError (Bytes × Staged)
  insert_staged store root key value staged =
      if bytes_eq root (empty_root sha)
      then stage sha pc (new_leaf sha pc key value) staged
      else (traversal_node_budget (length key) >>= λ budget.
          insert_walk budget store key value root none staged)

  -- `stage_many`: the records in key order.
  unfoldable pub validate_records : List (Bytes × Bytes) → Result PatriciaError (Unit {0})
  validate_records [] = ok tt
  validate_records ((key, value) ∷ records) = validate_record key value >> validate_records records

  unfoldable pub stage_records :
      Store → List (Bytes × Bytes) → Bytes × Staged → Result PatriciaError (Bytes × Staged)
  stage_records store [] (root, staged) = ok (root, staged)
  stage_records store ((key, value) ∷ records) (root, staged) =
      insert_staged store root key value staged >>= stage_records store records

  unfoldable pub stage_many :
      Store → Bytes → List (Bytes × Bytes) → Result PatriciaError (Bytes × Staged)
  stage_many store root records = do
    validate_records records
    stage_records store records (root, record { nodes = []; encoded_bytes = 0 })

  -- `publish_node`, where the file that is published is read back from then on; what a later
  -- failure leaves published stays without a reference to it.
  unfoldable pub publish_node : Node → Store → Result PatriciaError (Bytes × Store)
  publish_node node store = do
    validate_node sha node
    bytes ← lift (λ cause. malformed) (pc.to_allocvec node)
    refuse_if (ltb max_node_bytes (length bytes)) malformed
    refuse_if (not (store.publishes (of sha bytes) bytes)) publication
    ok (of sha bytes, record store { loose = (of sha bytes, bytes) ∷ store.loose })

  -- What `remove` finds: the key is absent, or the ancestors of its leaf, the nearest first.
  unfoldable pub remove_walk :
      ℕ
      → Store
      → Bytes
      → Bytes
      → Option ChildPathConstraint
      → List BranchFrame
      → Result PatriciaError (Option (List BranchFrame))
  remove_walk zero store key digest constraint ancestors = err malformed
  remove_walk (suc remaining) store key digest constraint ancestors = do
    node ← read_node sha pc store digest
    validate_node_path node constraint
    elim node [
      | leaf found ↦ ok (if bytes_eq found.key key then some ancestors else none)
      | branch found ↦ prefix_matches key found.prefix found.prefix_bit_len >>= λ matches.
          if not matches
          then ok none
          else (key_bit key found.prefix_bit_len >>= λ rightward.
              remove_walk remaining store key (child_of found rightward)
                (some (constraint_of found rightward))
                (record { at = found; rightward = rightward } ∷ ancestors))
    ]

  -- The `try_fold` over the ancestors.
  unfoldable pub rebuild_ancestors :
      List BranchFrame → Bytes × Store → Result PatriciaError (Bytes × Store)
  rebuild_ancestors [] (child, store) = ok (child, store)
  rebuild_ancestors (ancestor ∷ ancestors) (child, store) =
      publish_node (rebuild ancestor child) store >>= rebuild_ancestors ancestors

  unfoldable pub remove_found :
      Store → Bytes → Option (List BranchFrame) → Result PatriciaError (Bytes × Store)
  remove_found store root none = ok (root, store)
  remove_found store root (some []) = ok (empty_root sha, store)
  remove_found store root (some (parent ∷ ancestors)) =
      rebuild_ancestors ancestors (child_of parent.at (not parent.rightward), store)

  unfoldable pub remove : Store → Bytes → Bytes → Result PatriciaError (Bytes × Store)
  remove store root key =
      if bytes_eq root (empty_root sha)
      then ok (root, store)
      else (traversal_node_budget (length key) >>= λ budget.
          remove_walk budget store key root none [] >>= remove_found store root)
