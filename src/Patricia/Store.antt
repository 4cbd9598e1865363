-- ===== src/Patricia/Store.antt =====
-- The reads of nodes and the walks over them: lookup, insertion into staged nodes and removal. The walks recurse on the budget of nodes that the source counts down.
pub mod Reads
pub mod Walks
pub mod Authentic
use tine_storage.Base.{
  ℕ, zero, suc, ◌+◌, ◌-◌, ◌*◌, ◌^◌, min, Bool, true, false, not, ◌||◌, ◌&&◌, Option, none, some,
  List, [], ◌∷◌, ◌++◌, Bytes, length, take, ltb, leb, ◌==◌, bytes_eq, if◌then◌else◌, Result, ok,
  err, stuck, ◌>>=◌, ◌>>◌, refuse_if, lift, String,
}
use tine_storage.ContentDigest.{Sha256, of}
use tine_storage.Postcard.{Postcard}
use tine_storage.Patricia.Bits.{
  PatriciaError, filesystem, malformed, missing_node, path_mismatch, bool_eq, key_bit_len, key_bit,
  common_prefix_bits, prefix_matches, masked_prefix, traversal_node_budget,
}
use tine_storage.Patricia.Node.{
  Node, Leaf, leaf, Branch, branch, ChildPathConstraint, BranchFrame, node_schema_version,
  max_node_bytes, construction_max_valid_node_bytes, empty_root, validate_key, validate_record,
  validate_node, node_prefix, node_prefix_bits, validate_node_path, child_of, constraint_of,
  rebuild,
}

-- Files by the digest that names them.
abbrev pub Files : Type 0
Files = List (Bytes × Bytes)

unfoldable pub get : Files → Bytes → Option Bytes
get [] digest = none
get ((name, bytes) ∷ files) digest = if bytes_eq name digest then some bytes else get files digest

-- `PatriciaIndexStore`: the loose node files and what the packed store answers.
pub record Store : Type 0 where
  pub loose : Files
  pub packed : Files
  -- Whether the publisher that the store is given publishes these bytes for this digest.
  pub publishes : Bytes → Bytes → Bool

-- `StagedNodes`
pub record Staged : Type 0 where
  pub nodes : List (Bytes × Node)
  pub encoded_bytes : ℕ

unfoldable pub find_staged : List (Bytes × Node) → Bytes → Option Node
find_staged [] digest = none
find_staged ((name, node) ∷ nodes) digest =
    if bytes_eq name digest then some node else find_staged nodes digest

-- The test on a loose file, and the agreement of a loose file with a packed one.
unfoldable pub check_loose : Sha256 → Bytes → Option Bytes → Result PatriciaError (Unit {0})
check_loose sha digest none = ok tt
check_loose sha digest (some bytes) = do
  refuse_if (ltb max_node_bytes (length bytes)) filesystem
  refuse_if (not (bytes_eq (of sha bytes) digest)) (path_mismatch digest)

unfoldable pub select_bytes : Bytes → Option Bytes → Option Bytes → Result PatriciaError Bytes
select_bytes digest (some loose) (some packed) =
    if not (bytes_eq loose packed) then err (path_mismatch digest) else ok loose
select_bytes digest (some loose) none = ok loose
select_bytes digest none (some packed) = ok packed
select_bytes digest none none = err (missing_node digest)

module _ (sha : Sha256) (pc : Postcard Node) where
  -- The decoding of the bytes of a node, which must be canonical.
  unfoldable pub decode_node : Bytes → Result PatriciaError Node
  decode_node bytes = do
    node ← lift (λ cause. malformed) (pc.from_bytes bytes)
    validate_node sha node
    canonical ← lift (λ cause. malformed) (pc.to_allocvec node)
    refuse_if (not (bytes_eq canonical bytes)) malformed
    ok node

  unfoldable pub read_node : Store → Bytes → Result PatriciaError Node
  read_node store digest = do
    check_loose sha digest (get store.loose digest)
    bytes ← select_bytes digest (get store.loose digest) (get store.packed digest)
    decode_node bytes

  unfoldable pub read_staged_or_persisted : Store → Staged → Bytes → Result PatriciaError Node
  read_staged_or_persisted store staged digest = elim (find_staged staged.nodes digest) [
    | some node ↦ ok node
    | none ↦ read_node store digest
  ]

  -- The entry of a node that is not staged yet.
  unfoldable pub enter : Bytes → Bytes → Node → Staged → Result PatriciaError (Bytes × Staged)
  enter digest bytes node staged = elim (find_staged staged.nodes digest) [
    | some found ↦ ok (digest, staged)
    | none ↦
        if ltb (staged.encoded_bytes + length bytes) (2 ^ 64)
        then ok (
          digest,
          record {
            nodes = (digest, node) ∷ staged.nodes;
            encoded_bytes = staged.encoded_bytes + length bytes;
          },
        )
        else err malformed
  ]

  -- `StagedNodes::stage`
  unfoldable pub stage : Node → Staged → Result PatriciaError (Bytes × Staged)
  stage node staged = do
    validate_node sha node
    bytes ← lift (λ cause. malformed) (pc.to_allocvec node)
    refuse_if
        (ltb construction_max_valid_node_bytes (length bytes) || ltb max_node_bytes (length bytes))
        malformed
    enter (of sha bytes) bytes node staged

  abbrev pub new_leaf : Bytes → Bytes → Node
  new_leaf key value =
      leaf (record { schema_version = node_schema_version; key = key; value = value })

  -- The loop of `lookup`, with the rounds that follow as `again`.
  unfoldable pub lookup_branch :
      (Bytes → Option ChildPathConstraint → Result PatriciaError (Option Bytes))
      → Bytes
      → Branch
      → Bool
      → Result PatriciaError (Option Bytes)
  lookup_branch again key found matches =
      if matches
      then (key_bit key found.prefix_bit_len >>= λ rightward.
          again (child_of found rightward) (some (constraint_of found rightward)))
      else ok none

  unfoldable pub lookup_node :
      (Bytes → Option ChildPathConstraint → Result PatriciaError (Option Bytes))
      → Bytes
      → Node
      → Result PatriciaError (Option Bytes)
  lookup_node again key (leaf found) =
      ok (if bytes_eq found.key key then some found.value else none)
  lookup_node again key (branch found) =
      prefix_matches key found.prefix found.prefix_bit_len >>= lookup_branch again key found

  unfoldable pub lookup_checked :
      (Bytes → Option ChildPathConstraint → Result PatriciaError (Option Bytes))
      → Bytes
      → Option ChildPathConstraint
      → Node
      → Result PatriciaError (Option Bytes)
  lookup_checked again key constraint node =
      validate_node_path node constraint >> lookup_node again key node

  -- The budget of nodes bounds the rounds.
  unfoldable pub lookup_walk :
      ℕ → Store → Bytes → Bytes → Option ChildPathConstraint → Result PatriciaError (Option Bytes)
  lookup_walk zero store key digest constraint = err malformed
  lookup_walk (suc remaining) store key digest constraint =
      read_node store digest >>= lookup_checked (lookup_walk remaining store key) key constraint

  unfoldable pub lookup : Store → Bytes → Bytes → Result PatriciaError (Option Bytes)
  lookup store root key = do
    validate_key key
    (if bytes_eq root (empty_root sha)
        then ok none
        else (traversal_node_budget (length key) >>= λ budget.
            lookup_walk budget store key root none))
