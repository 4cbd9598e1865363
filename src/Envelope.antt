-- ===== src/Envelope.antt =====
-- The envelope that frames and objects share: an 8-byte magic, the lengths of a header and of a
-- payload, the header, the payload and a 32-byte checksum; and the pieces that a decoder cuts out.
use tine_storage.Base.{
  ℕ, zero, suc, [], ◌∷◌, ◌+◌, ◌-◌, ◌≤◌, ◌≡◌, refl, ◌∙◌, ap, ◌++◌, Bytes, IsBytes, length, take,
  drop, slice, to_be_bytes, from_be_bytes, length-to_be_bytes, to_be-from_be, take-append,
  drop-append, arith, take-append_at, drop-append_at, append_assoc, length-append, drop-append_add,
  slice_skip, take_all, drop_all, append-nil, All-take, All-drop, length-slice, slice-drop,
  take-append-drop,
}

take-take_within : (b n : ℕ) (xs : Bytes) → b ≤ n → take b (take n xs) ≡ take b xs
take-take_within zero n xs h = refl
take-take_within (suc b) zero xs h = absurd (omega arith)
take-take_within (suc b) (suc n) [] h = refl
take-take_within (suc b) (suc n) (x ∷ xs) h =
    ap (λ l. x ∷ l) (take-take_within b n xs (omega arith))

-- A slice that ends within the bytes taken.
pub slice-take :
    (from to n : ℕ) (xs : Bytes) → to ≤ n → slice from to (take n xs) ≡ slice from to xs
slice-take zero to n xs h = let e : to - 0 ≡ to = omega arith in rw e (take-take_within to n xs h)
slice-take (suc from) zero n xs h = let e : 0 - suc from ≡ 0 = omega arith in rw e refl
slice-take (suc from) (suc to) zero xs h = absurd (omega arith)
slice-take (suc from) (suc to) (suc n) [] h = refl
slice-take (suc from) (suc to) (suc n) (x ∷ xs) h =
    let e : suc to - suc from ≡ to - from = omega arith in
    rw e (slice-take from to n xs (omega arith))

module _ (magic : Bytes) where
  abbrev pub prefix_of : ℕ → ℕ → Bytes
  prefix_of h p = magic ++ (to_be_bytes 4 h ++ to_be_bytes 8 p)

  -- Everything but the checksum.
  abbrev pub body_of : Bytes → Bytes → Bytes
  body_of hb payload =
      magic ++ (to_be_bytes 4 (length hb) ++ (to_be_bytes 8 (length payload) ++ (hb ++ payload)))

  -- Such bytes with a checksum.
  unfoldable pub framed : Bytes → Bytes → Bytes → Bytes
  framed hb payload cs = body_of hb payload ++ cs

module _ (magic : Bytes) (length-magic : length magic ≡ 8) where
  pub header_field : (h p : ℕ) → slice 8 12 (prefix_of magic h p) ≡ to_be_bytes 4 h
  header_field h p =
      slice_skip 8 0 4 magic (to_be_bytes 4 h ++ to_be_bytes 8 p) length-magic
      ∙ take-append_at 4 _ _ (length-to_be_bytes 4 h)

  pub payload_field : (h p : ℕ) → slice 12 20 (prefix_of magic h p) ≡ to_be_bytes 8 p
  payload_field h p =
      slice_skip 8 4 12 magic (to_be_bytes 4 h ++ to_be_bytes 8 p) length-magic
      ∙ slice_skip 4 0 8 (to_be_bytes 4 h) (to_be_bytes 8 p) (length-to_be_bytes 4 h)
      ∙ take_all 8 _ (omega (arith, length-to_be_bytes 8 p))

  pub magic_field : (h p : ℕ) → take 8 (prefix_of magic h p) ≡ magic
  magic_field h p = take-append_at 8 magic _ length-magic

  -- A prefix of 20 bytes that begins with the magic is the one of its two lengths.
  pub prefix_of_fields :
      (prefix : Bytes)
      → length prefix ≡ 20
      → IsBytes prefix
      → take 8 prefix ≡ magic
      → prefix
        ≡ prefix_of magic (from_be_bytes (slice 8 12 prefix)) (from_be_bytes (slice 12 20 prefix))
  prefix_of_fields prefix n b front =
      let field =
        to_be-from_be 4 (slice 8 12 prefix) (length-slice 8 12 prefix (omega arith) (omega arith))
          (All-take _ 4 (drop 8 prefix) (All-drop _ 8 prefix b)) in
      let field' =
        to_be-from_be 8 (slice 12 20 prefix) (length-slice 12 20 prefix (omega arith) (omega arith))
          (All-take _ 8 (drop 12 prefix) (All-drop _ 12 prefix b)) in
      cc (
        take-append-drop 8 prefix,
        front,
        slice-drop 8 12 prefix (omega arith),
        slice-drop 12 20 prefix (omega arith),
        drop_all 20 prefix (omega arith),
        append-nil (slice 12 20 prefix),
        field,
        field',
      )

  pub body_of-prefix_of :
      (hb payload : Bytes)
      → body_of magic hb payload ≡ prefix_of magic (length hb) (length payload) ++ (hb ++ payload)
  body_of-prefix_of hb payload =
      let h = to_be_bytes 4 (length hb) in
      let p = to_be_bytes 8 (length payload) in
      cc (append_assoc magic (h ++ p) (hb ++ payload), append_assoc h p (hb ++ payload))

  pub length-prefix_of : (h p : ℕ) → length (prefix_of magic h p) ≡ 20
  length-prefix_of h p = omega (
    arith,
    length-append magic (to_be_bytes 4 h ++ to_be_bytes 8 p),
    length-append (to_be_bytes 4 h) (to_be_bytes 8 p),
    length-to_be_bytes 4 h,
    length-to_be_bytes 8 p,
  )

  pub length-body_of :
      (hb payload : Bytes) → length (body_of magic hb payload) ≡ length hb + length payload + 20
  length-body_of hb payload = rw (body_of-prefix_of hb payload) (
      omega (
        arith,
        length-append (prefix_of magic (length hb) (length payload)) (hb ++ payload),
        length-append hb payload,
        length-prefix_of (length hb) (length payload),
      ))

  -- The pieces that the decoder cuts from such bytes.
  module _ (hb payload cs : Bytes) (length-cs : length cs ≡ 32) where
    pub framed-prefix :
        framed magic hb payload cs
        ≡ prefix_of magic (length hb) (length payload) ++ (hb ++ (payload ++ cs))
    unfolding framed
    framed-prefix = rw (body_of-prefix_of hb payload) (
        append_assoc (prefix_of magic (length hb) (length payload)) (hb ++ payload) cs
        ∙ ap (λ l. prefix_of magic (length hb) (length payload) ++ l) (append_assoc hb payload cs))

    pub length-framed : length (framed magic hb payload cs) ≡ length hb + length payload + 52
    unfolding framed
    length-framed =
        omega (arith, length-append (body_of magic hb payload) cs, length-body_of hb payload)

    pub take-framed :
        take 20 (framed magic hb payload cs) ≡ prefix_of magic (length hb) (length payload)
    take-framed =
        rw framed-prefix (take-append_at 20 _ _ (length-prefix_of (length hb) (length payload)))

    pub header-framed : slice 20 (20 + length hb) (framed magic hb payload cs) ≡ hb
    header-framed =
        let e : 20 + length hb - 20 ≡ length hb = omega arith in
        rw
          (
            e,
            framed-prefix,
            drop-append_at 20 (prefix_of magic (length hb) (length payload)) (hb ++ (payload ++ cs))
                (length-prefix_of (length hb) (length payload)),
          )
          (take-append hb (payload ++ cs))

    pub payload-framed :
        slice (20 + length hb) (length hb + length payload + 52 - 32) (framed magic hb payload cs)
        ≡ payload
    payload-framed =
        rw
          (
            framed-prefix,
            drop-append_add 20 (length hb) (prefix_of magic (length hb) (length payload))
                (hb ++ (payload ++ cs)) (length-prefix_of (length hb) (length payload)),
            drop-append hb (payload ++ cs),
          )
          (take-append_at _ payload cs (omega arith))

    pub body-framed :
        take (length hb + length payload + 52 - 32) (framed magic hb payload cs)
        ≡ body_of magic hb payload
    unfolding framed
    body-framed =
        take-append_at _ (body_of magic hb payload) cs (omega (arith, length-body_of hb payload))

    pub checksum-framed :
        drop (length hb + length payload + 52 - 32) (framed magic hb payload cs) ≡ cs
    unfolding framed
    checksum-framed =
        drop-append_at _ (body_of magic hb payload) cs (omega (arith, length-body_of hb payload))
