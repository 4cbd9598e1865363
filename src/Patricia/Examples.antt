-- ===== src/Patricia/Examples.antt =====
-- The theorems on prefixes and lookups at concrete inputs.
use tine_storage.Base.{
  ℕ, zero, suc, ◌*◌, ◌≤◌, ◌<◌, ◌≡◌, ◌≢◌, refl, ap, min, Bool, true, false, Option, none, some, List,
  [], ◌∷◌, ◌++◌, ◌⊎◌, inl, inr, String, Bytes, length, take, drop, replicate, take-append,
  drop-append, Result, ok, err, arith,
}
use tine_storage.Postcard.{Postcard}
use tine_storage.Patricia.Bits.{
  key_bit_unchecked, first_difference, common_prefix_bits, prefix_matches, Agree,
}
use tine_storage.Patricia.Prefix.{common_prefix_bits_lem, prefix_matches_lem}
use tine_storage.Patricia.Node.{Node, leaf, branch}
use tine_storage.Patricia.Store.{Store, lookup}
use tine_storage.Patricia.Store.Reads.{Holds, lookup_sound}
use tine_storage.ContentDigest.{of}
use tine_storage.Patricia.Node.{validate_node}
use tine_storage.Patricia.Store.{get, select_bytes, read_node}
use tine_storage.Patricia.Store.Authentic.{read_node_sound}
use tine_storage.Samples.{toy_sha, bytes_of}

abbrev low_key : Bytes
low_key = 0xf0 ∷ 1 ∷ []

abbrev high_key : Bytes
high_key = 0xff ∷ []

common_prefix_bits_lem_example :
    (common_prefix_bits low_key high_key 8
      ≡ ok (
          first_difference
            (min (min 8 (length low_key * 8)) (length high_key * 8))
            0
            low_key
            high_key))
    × (first_difference (min (min 8 (length low_key * 8)) (length high_key * 8)) 0 low_key high_key
        ≤ min (min 8 (length low_key * 8)) (length high_key * 8))
    × Agree low_key high_key 0 (
        first_difference
          (min (min 8 (length low_key * 8)) (length high_key * 8))
          0
          low_key
          high_key)
    × (first_difference (min (min 8 (length low_key * 8)) (length high_key * 8)) 0 low_key high_key
          < min (min 8 (length low_key * 8)) (length high_key * 8)
        → key_bit_unchecked low_key (
            first_difference
              (min (min 8 (length low_key * 8)) (length high_key * 8))
              0
              low_key
              high_key)
          ≢ key_bit_unchecked high_key (
              first_difference
                (min (min 8 (length low_key * 8)) (length high_key * 8))
                0
                low_key
                high_key))
common_prefix_bits_lem_example =
    common_prefix_bits_lem low_key high_key 8 (omega arith) (omega arith)

prefix_matches_lem_example :
    (prefix_matches low_key high_key 4 ≡ ok true
      × 4 ≤ length low_key * 8
      × 4 ≤ length high_key * 8
      × Agree low_key high_key 0 4)
    ⊎ (prefix_matches low_key high_key 4 ≡ ok false
        × ¬ (4 ≤ length low_key * 8 × 4 ≤ length high_key * 8 × Agree low_key high_key 0 4))
prefix_matches_lem_example = prefix_matches_lem low_key high_key 4 (omega arith) (omega arith)

-- A codec of nodes, tagged by their kind; a branch has 32 bytes on its right.
abbrev write_node : Node → String ⊎ Bytes
write_node (leaf node) = inr (0 ∷ node.schema_version ∷ length node.key ∷ node.key ++ node.value)
write_node (branch node) = inr (
    1
      ∷ node.schema_version
      ∷ node.prefix_bit_len
      ∷ length node.prefix
      ∷ length node.left
      ∷ node.prefix
    ++ (node.left ++ node.right))

abbrev parse_leaf : Bytes → String ⊎ Node
parse_leaf (version ∷ n ∷ rest) =
    inr (leaf (record { schema_version = version; key = take n rest; value = drop n rest }))
parse_leaf bytes = inl "unexpected end"

abbrev parse_branch : Bytes → String ⊎ Node
parse_branch (version ∷ bits ∷ n ∷ m ∷ rest) = inr (
    branch (record {
      schema_version = version;
      prefix = take n rest;
      prefix_bit_len = bits;
      left = take m (drop n rest);
      right = drop m (drop n rest);
    }))
parse_branch bytes = inl "unexpected end"

abbrev parse_node : Bytes → String ⊎ Node
parse_node [] = inl "unexpected end"
parse_node (zero ∷ bytes) = parse_leaf bytes
parse_node (suc tag ∷ bytes) = parse_branch bytes

parse_node-write_node :
    (node : Node) (bytes : Bytes) → write_node node ≡ inr bytes → parse_node bytes ≡ inr node
unfolding bytes_of
parse_node-write_node (leaf node) bytes h =
    let written : 0 ∷ node.schema_version ∷ length node.key ∷ node.key ++ node.value ≡ bytes =
      ap bytes_of h in
    rw (← written, take-append node.key node.value, drop-append node.key node.value) refl
parse_node-write_node (branch node) bytes h =
    let written : 1
            ∷ node.schema_version
            ∷ node.prefix_bit_len
            ∷ length node.prefix
            ∷ length node.left
            ∷ node.prefix
          ++ (node.left ++ node.right)
        ≡ bytes =
      ap bytes_of h in
    rw
      (
        ← written,
        take-append node.prefix (node.left ++ node.right),
        drop-append node.prefix (node.left ++ node.right),
        take-append node.left node.right,
        drop-append node.left node.right,
      )
      refl

abbrev node_codec : Postcard Node
node_codec = record {
  to_allocvec = write_node;
  from_bytes = parse_node;
  from_bytes-to_allocvec = parse_node-write_node;
}

-- A store of one leaf, whose digest counts its six bytes.
abbrev leaf_root : Bytes
leaf_root = 6 ∷ replicate 31 7

abbrev leaf_store : Store
leaf_store = record {
  loose = (leaf_root, 0 ∷ 1 ∷ 2 ∷ 0xf0 ∷ 1 ∷ 42 ∷ []) ∷ [];
  packed = [];
  publishes = λ digest bytes. true;
}

found_42 : lookup toy_sha node_codec leaf_store leaf_root low_key ≡ ok (some (42 ∷ []))
unfolding lookup tine_storage.Patricia.Node.validate_key tine_storage.Patricia.Node.empty_root
    tine_storage.Patricia.Node.validate_node tine_storage.Patricia.Node.validate_record
    tine_storage.Patricia.Node.validate_node_path tine_storage.Patricia.Bits.key_bit_len
    tine_storage.Patricia.Bits.traversal_node_budget tine_storage.Base.bytes_eq
    tine_storage.Patricia.Store.lookup_walk tine_storage.Patricia.Store.lookup_checked
    tine_storage.Patricia.Store.lookup_node tine_storage.Patricia.Store.read_node
    tine_storage.Patricia.Store.check_loose tine_storage.Patricia.Store.get
    tine_storage.Patricia.Store.select_bytes tine_storage.Patricia.Store.decode_node
found_42 = refl

lookup_sound_example : Holds toy_sha node_codec leaf_store low_key (42 ∷ []) leaf_root
lookup_sound_example =
    lookup_sound toy_sha node_codec leaf_store leaf_root low_key (42 ∷ []) found_42

abbrev leaf_42 : Node
leaf_42 = leaf (record { schema_version = 1; key = low_key; value = 42 ∷ [] })

read_42 : read_node toy_sha node_codec leaf_store leaf_root ≡ ok leaf_42
unfolding read_node tine_storage.Base.bytes_eq tine_storage.Patricia.Store.check_loose get
    select_bytes tine_storage.Patricia.Store.decode_node validate_node
    tine_storage.Patricia.Node.validate_record tine_storage.Patricia.Node.validate_key
    tine_storage.Patricia.Bits.key_bit_len
read_42 = refl

read_node_sound_example :
    (bytes : Bytes) × (select_bytes leaf_root
        (get leaf_store.loose leaf_root)
        (get leaf_store.packed leaf_root)
      ≡ ok bytes)
    × (write_node leaf_42 ≡ inr bytes)
    × (validate_node toy_sha leaf_42 ≡ ok tt)
    × ((loose : Bytes) → get leaf_store.loose leaf_root ≡ some loose → of toy_sha loose ≡ leaf_root)
read_node_sound_example = read_node_sound toy_sha node_codec leaf_store leaf_root leaf_42 read_42
