-- ===== src/Patricia/Store/Reads.antt =====
-- What the reads of the index establish.
use tine_storage.Base.{
  ℕ, zero, suc, ◌≡◌, refl, ap, ◌∙◌, Bool, true, false, Option, none, some, Bytes, length, bytes_eq,
  bytes_eq_sound, if◌then◌else◌, Result, ok, err, stuck, ◌>>=◌, ◌>>◌, >>=-eq-ok, Bool-cases, inl,
  inr,
}
use tine_storage.ContentDigest.{Sha256}
use tine_storage.Postcard.{Postcard}
use tine_storage.Patricia.Bits.{PatriciaError, key_bit, prefix_matches, traversal_node_budget}
use tine_storage.Patricia.Node.{
  Node, Leaf, leaf, Branch, branch, ChildPathConstraint, empty_root, validate_key,
  validate_node_path, child_of, constraint_of,
}
use tine_storage.Patricia.Store.{
  Store, read_node, lookup_branch, lookup_node, lookup_checked, lookup_walk, lookup,
}

none_found :
    (m : Result PatriciaError (Unit {0})) (value : Bytes)
    → ◌≡◌ {A = Result PatriciaError (Option Bytes)} (m >> ok none) (ok (some value))
    → ⊥
none_found (ok u) value h = cc
none_found (err e) value h = cc
none_found stuck value h = cc

module _ (sha : Sha256) (pc : Postcard Node) where
  -- The leaf of `key` is reached from the node `digest` along the bits of `key`.
  pub data Holds (store : Store) (key value : Bytes) : Bytes → Type 0 where
    at_leaf :
        {digest : Bytes} {found : Leaf}
        → read_node sha pc store digest ≡ ok (leaf found)
        → found.key ≡ key
        → found.value ≡ value
        → Holds store key value digest
    below :
        {digest : Bytes} {found : Branch} {rightward : Bool}
        → read_node sha pc store digest ≡ ok (branch found)
        → prefix_matches key found.prefix found.prefix_bit_len ≡ ok true
        → key_bit key found.prefix_bit_len ≡ ok rightward
        → Holds store key value (child_of found rightward)
        → Holds store key value digest

  leaf_found :
      (found : Leaf) (key value : Bytes)
      → ◌≡◌ {A = Result PatriciaError (Option Bytes)}
          (ok (if bytes_eq found.key key then some found.value else none))
          (ok (some value))
      → (found.key ≡ key) × (found.value ≡ value)
  leaf_found found key value h = elim (Bool-cases (bytes_eq found.key key)) [
    | inl same ↦
        let e : ◌≡◌ {A = Result PatriciaError (Option Bytes)} (ok (some found.value))
            (ok (some value)) =
          rw same at h in
        (bytes_eq_sound found.key key same, cc (e))
    | inr other ↦
        let e : ◌≡◌ {A = Result PatriciaError (Option Bytes)} (ok none) (ok (some value)) =
          rw other at h in
        absurd (cc (e))
  ]

  branch_found :
      (again : Bytes → Option ChildPathConstraint → Result PatriciaError (Option Bytes))
      (key : Bytes) (found : Branch) (matches : Bool) (value : Bytes)
      → lookup_branch sha pc again key found matches ≡ ok (some value)
      → (matches ≡ true)
        × ((key_bit key found.prefix_bit_len >>= λ rightward.
              again (child_of found rightward) (some (constraint_of found rightward)))
            ≡ ok (some value))
  unfolding lookup_branch
  branch_found again key found true value h = (refl, h)
  branch_found again key found false value h = cc

  node-Holds :
      (again : Bytes → Option ChildPathConstraint → Result PatriciaError (Option Bytes))
      (store : Store) (key digest value : Bytes) (node : Node)
      → ((d : Bytes) (c : Option ChildPathConstraint)
          → again d c ≡ ok (some value)
          → Holds store key value d)
      → read_node sha pc store digest ≡ ok node
      → lookup_node sha pc again key node ≡ ok (some value)
      → Holds store key value digest
  unfolding lookup_node
  node-Holds again store key digest value (leaf found) rec read h =
      let (same, found_value) = leaf_found found key value h in at_leaf read same found_value
  node-Holds again store key digest value (branch found) rec read h =
      let (matches, matched, run) =
        >>=-eq-ok (prefix_matches key found.prefix found.prefix_bit_len)
          (lookup_branch sha pc again key found) (some value) h in
      let (agrees, go) = branch_found again key found matches value run in
      let (rightward, bit, rest) =
        >>=-eq-ok (key_bit key found.prefix_bit_len)
          (λ rightward. again (child_of found rightward) (some (constraint_of found rightward)))
          (some value) go in
      below read (matched ∙ ap ok agrees) bit (rec (child_of found rightward) _ rest)

  lookup_walk_sound :
      (fuel : ℕ) (store : Store) (key digest value : Bytes)
      (constraint : Option ChildPathConstraint)
      → lookup_walk sha pc fuel store key digest constraint ≡ ok (some value)
      → Holds store key value digest
  unfolding lookup_walk lookup_checked
  lookup_walk_sound zero store key digest value constraint h = cc
  lookup_walk_sound (suc fuel) store key digest value constraint h =
      let again : Bytes → Option ChildPathConstraint → Result PatriciaError (Option Bytes) =
        lookup_walk sha pc fuel store key in
      let (node, read, run) =
        >>=-eq-ok (read_node sha pc store digest) (lookup_checked sha pc again key constraint)
          (some value) h in
      let (u, valid, found) =
        >>=-eq-ok (validate_node_path node constraint) (λ u. lookup_node sha pc again key node)
          (some value) run in
      node-Holds again store key digest value node
        (λ d c e. lookup_walk_sound fuel store key d value c e) read found

  -- A value that `lookup` answers stands in a leaf of exactly that key, which is reached from the
  -- root through branches that share their prefix with the key, by the key's own bits.
  pub lookup_sound :
      (store : Store) (root key value : Bytes)
      → lookup sha pc store root key ≡ ok (some value)
      → Holds store key value root
  unfolding lookup
  lookup_sound store root key value h = elim (Bool-cases (bytes_eq root (empty_root sha))) [
    | inl empty ↦ absurd (none_found (validate_key key) value (rw empty at h))
    | inr full ↦
        let run : (validate_key key
              >> (traversal_node_budget (length key) >>= λ budget.
                  lookup_walk sha pc budget store key root none))
            ≡ ok (some value) =
          rw full at h in
        let (u, valid, walk) =
          >>=-eq-ok (validate_key key)
            (λ u. traversal_node_budget (length key) >>= λ budget.
              lookup_walk sha pc budget store key root none)
            (some value) run in
        let (budget, bounded, found) =
          >>=-eq-ok (traversal_node_budget (length key))
            (λ budget. lookup_walk sha pc budget store key root none) (some value) walk in
        lookup_walk_sound budget store key root value none found
  ]
