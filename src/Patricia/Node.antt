-- ===== src/Patricia/Node.antt =====
-- Nodes, their validation, and the constraint that a parent puts on its child.
use tine_storage.Base.{
  ℕ, ◌+◌, ◌*◌, ◌/◌, Bool, not, ◌||◌, Option, none, some, [], ◌∷◌, Bytes, length, ltb, leb, ◌==◌,
  bytes_eq, if◌then◌else◌, Result, ok, ◌>>=◌, ◌>>◌, refuse_if,
}
use tine_storage.ContentDigest.{Sha256, of}
use tine_storage.Patricia.Bits.{
  PatriciaError, malformed, bool_eq, key_bit_len, key_bit, prefix_matches, masked_prefix,
}

abbrev pub node_schema_version : ℕ
node_schema_version = 1

abbrev pub max_key_bytes : ℕ
max_key_bytes = 96

abbrev pub max_key_bits : ℕ
max_key_bits = max_key_bytes * 8

abbrev pub max_value_bytes : ℕ
max_value_bytes = 4 * 1024

abbrev pub max_node_bytes : ℕ
max_node_bytes = 128 * 1024

abbrev pub construction_max_valid_node_bytes : ℕ
construction_max_valid_node_bytes = max_value_bytes + max_key_bytes + 512

pub record Branch : Type 0 where
  pub schema_version : ℕ
  pub prefix : Bytes
  pub prefix_bit_len : ℕ
  pub left : Bytes
  pub right : Bytes

pub record Leaf : Type 0 where
  pub schema_version : ℕ
  pub key : Bytes
  pub value : Bytes

pub data Node : Type 0 where
  leaf : Leaf → Node
  branch : Branch → Node

pub record ChildPathConstraint : Type 0 where
  pub parent_prefix : Bytes
  pub parent_prefix_bit_len : ℕ
  pub right : Bool

-- `BranchFrame`: `at` has the fields that it copies from its branch.
pub record BranchFrame : Type 0 where
  pub at : Branch
  pub rightward : Bool

-- `PatriciaIndexRoot::empty`, the digest of its name.
abbrev pub empty_name : Bytes
empty_name =
    b't' ∷ b'i' ∷ b'n' ∷ b'e' ∷ b'/' ∷ b'a' ∷ b'u' ∷ b't' ∷ b'h' ∷ b'e' ∷ b'n' ∷ b't' ∷ b'i' ∷ b'c'
    ∷ b'a' ∷ b't' ∷ b'e' ∷ b'd' ∷ b'-' ∷ b'c' ∷ b'o' ∷ b'n' ∷ b't' ∷ b'e' ∷ b'n' ∷ b't' ∷ b'-'
    ∷ b'a' ∷ b'd' ∷ b'd' ∷ b'r' ∷ b'e' ∷ b's' ∷ b's' ∷ b'e' ∷ b'd' ∷ b'-' ∷ b'p' ∷ b'a' ∷ b't'
    ∷ b'r' ∷ b'i' ∷ b'c' ∷ b'i' ∷ b'a' ∷ b'/' ∷ b'v' ∷ b'1' ∷ b'/' ∷ b'e' ∷ b'm' ∷ b'p' ∷ b't'
    ∷ b'y' ∷ []

unfoldable pub empty_root : Sha256 → Bytes
empty_root sha = of sha empty_name

unfoldable pub validate_key : Bytes → Result PatriciaError (Unit {0})
validate_key key = do
  refuse_if (length key == 0 || ltb max_key_bytes (length key)) malformed
  key_bit_len key >>= λ bits. ok tt

unfoldable pub validate_record : Bytes → Bytes → Result PatriciaError (Unit {0})
validate_record key value = do
  validate_key key
  refuse_if (length value == 0 || ltb max_value_bytes (length value)) malformed

unfoldable pub validate_node : Sha256 → Node → Result PatriciaError (Unit {0})
validate_node sha (leaf node) = do
  refuse_if (not (node.schema_version == node_schema_version)) malformed
  validate_record node.key node.value
validate_node sha (branch node) =
    refuse_if
      (not (node.schema_version == node_schema_version)
        || leb max_key_bits node.prefix_bit_len
        || not (length node.prefix == (node.prefix_bit_len + 7) / 8)
        || not (bytes_eq (masked_prefix node.prefix node.prefix_bit_len) node.prefix)
        || bytes_eq node.left node.right
        || bytes_eq node.left (empty_root sha)
        || bytes_eq node.right (empty_root sha))
      malformed

unfoldable pub node_prefix : Node → Bytes
node_prefix (leaf node) = node.key
node_prefix (branch node) = node.prefix

unfoldable pub node_prefix_bits : Node → Result PatriciaError ℕ
node_prefix_bits (leaf node) = key_bit_len node.key
node_prefix_bits (branch node) = ok node.prefix_bit_len

-- The three tests stop at the first that refuses.
unfoldable pub validate_node_path :
    Node → Option ChildPathConstraint → Result PatriciaError (Unit {0})
validate_node_path node none = ok tt
validate_node_path node (some constraint) = do
  bits ← node_prefix_bits node
  refuse_if (leb bits constraint.parent_prefix_bit_len) malformed
  matches ←
      prefix_matches (node_prefix node) constraint.parent_prefix constraint.parent_prefix_bit_len
  refuse_if (not matches) malformed
  bit ← key_bit (node_prefix node) constraint.parent_prefix_bit_len
  refuse_if (not (bool_eq bit constraint.right)) malformed

abbrev pub child_of : Branch → Bool → Bytes
child_of node rightward = if rightward then node.right else node.left

abbrev pub constraint_of : Branch → Bool → ChildPathConstraint
constraint_of node rightward = record {
  parent_prefix = node.prefix;
  parent_prefix_bit_len = node.prefix_bit_len;
  right = rightward;
}

-- An ancestor with `child` in place of the child that was taken.
unfoldable pub rebuild : BranchFrame → Bytes → Node
rebuild ancestor child = branch (record {
  schema_version = node_schema_version;
  prefix = ancestor.at.prefix;
  prefix_bit_len = ancestor.at.prefix_bit_len;
  left = if ancestor.rightward then ancestor.at.left else child;
  right = if ancestor.rightward then child else ancestor.at.right;
})
