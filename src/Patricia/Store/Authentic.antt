-- ===== src/Patricia/Store/Authentic.antt =====
-- What a node that has been read is known to be.
use tine_storage.Base.{
  ◌≡◌, refl, ap, ◌∙◌, not, Option, none, some, Bytes, length, ltb, bytes_eq, bytes_eq_sound, Result,
  ok, err, ◌>>=◌, ◌>>◌, >>=-eq-ok, refuse_if, refuse_if->>, lift, lift-eq-ok, Bool-cases, inl, inr,
}
use tine_storage.ContentDigest.{Sha256, of}
use tine_storage.Postcard.{Postcard}
use tine_storage.Patricia.Bits.{PatriciaError, malformed, path_mismatch, filesystem}
use tine_storage.Patricia.Node.{Node, max_node_bytes, validate_node}
use tine_storage.Patricia.Store.{Store, get, check_loose, select_bytes, decode_node, read_node}

module _ (sha : Sha256) (pc : Postcard Node) where
  canonical_node :
      (bytes canonical : Bytes) (read node : Node)
      → (refuse_if (not (bytes_eq canonical bytes)) malformed >> ok read) ≡ ok node
      → (canonical ≡ bytes) × (◌≡◌ {A = Result PatriciaError Node} (ok read) (ok node))
  canonical_node bytes canonical read node h = elim (Bool-cases (bytes_eq canonical bytes)) [
    | inl same ↦ (bytes_eq_sound canonical bytes same, rw same at h)
    | inr other ↦
        let e : ◌≡◌ {A = Result PatriciaError Node} (err malformed) (ok node) = rw other at h in
        absurd (cc (e))
  ]

  abbrev Canonical : Bytes → Node → Type 0
  Canonical bytes node = (pc.to_allocvec node ≡ inr bytes) × (validate_node sha node ≡ ok tt)

  transfer :
      (bytes : Bytes) (read node : Node)
      → Canonical bytes read
      → ◌≡◌ {A = Result PatriciaError Node} (ok read) (ok node)
      → Canonical bytes node
  transfer bytes read node (written, valid) e =
      let same : read ≡ node = cc (e) in (rw (← same) written, rw (← same) valid)

  decode_node_sound :
      (bytes : Bytes) (node : Node) → decode_node sha pc bytes ≡ ok node → Canonical bytes node
  unfolding decode_node
  decode_node_sound bytes node h =
      let rest : Node → Unit {0} → Result PatriciaError Node = λ n u.
        lift (λ cause. malformed) (pc.to_allocvec n) >>= λ c.
        refuse_if (not (bytes_eq c bytes)) malformed >> ok n in
      let (read, parsed, m) =
        >>=-eq-ok (lift (λ cause. malformed) (pc.from_bytes bytes))
          (λ n. validate_node sha n >>= rest n) node h in
      let (u, valid, m') = >>=-eq-ok (validate_node sha read) (rest read) node m in
      let (canonical, written, last) =
        >>=-eq-ok (lift (λ cause. malformed) (pc.to_allocvec read))
          (λ c. refuse_if (not (bytes_eq c bytes)) malformed >> ok read) node m' in
      let (same, e) = canonical_node bytes canonical read node last in
      transfer bytes read node
        (
          lift-eq-ok (λ cause. malformed) (pc.to_allocvec read) canonical written ∙ ap inr same,
          valid ∙ ap ok refl,
        )
        e

  check_loose_sound :
      (digest : Bytes) (found : Option Bytes) (loose : Bytes)
      → check_loose sha digest found ≡ ok tt
      → found ≡ some loose
      → of sha loose ≡ digest
  unfolding check_loose
  check_loose_sound digest none loose h e = cc
  check_loose_sound digest (some bytes) loose h e =
      let same : bytes ≡ loose = cc (e) in
      let (small, hashed) = refuse_if->> (ltb max_node_bytes (length bytes)) filesystem _ tt h in
      elim (Bool-cases (bytes_eq (of sha bytes) digest)) [
        | inl fits ↦ rw (← same) (bytes_eq_sound (of sha bytes) digest fits)
        | inr other ↦
            let refused : ◌≡◌ {A = Result PatriciaError (Unit {0})} (err (path_mismatch digest))
                (ok tt) =
              rw other at hashed in
            absurd (cc (refused))
      ]

  -- A node that is read is valid, and it is read from the bytes of its own encoding, which a loose
  -- file or the packed store holds under its digest; a loose file of it has that digest.
  pub read_node_sound :
      (store : Store) (digest : Bytes) (node : Node)
      → read_node sha pc store digest ≡ ok node
      → (bytes : Bytes) × (select_bytes digest (get store.loose digest) (get store.packed digest)
          ≡ ok bytes)
        × (pc.to_allocvec node ≡ inr bytes)
        × (validate_node sha node ≡ ok tt)
        × ((loose : Bytes) → get store.loose digest ≡ some loose → of sha loose ≡ digest)
  unfolding read_node
  read_node_sound store digest node h =
      let selected : Result PatriciaError Bytes =
        select_bytes digest (get store.loose digest) (get store.packed digest) in
      let (u, checked, m) =
        >>=-eq-ok (check_loose sha digest (get store.loose digest))
          (λ u. selected >>= decode_node sha pc) node h in
      let (bytes, chosen, decoded) = >>=-eq-ok selected (decode_node sha pc) node m in
      let (written, valid) = decode_node_sound bytes node decoded in
      (
        bytes,
        chosen,
        written,
        valid,
        λ loose e. check_loose_sound digest (get store.loose digest) loose checked e,
      )
