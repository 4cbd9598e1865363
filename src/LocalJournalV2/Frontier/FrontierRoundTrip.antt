-- ===== src/LocalJournalV2/Frontier/FrontierRoundTrip.antt =====
-- `FrontierV2::encode` and `FrontierV2::decode`, one after the other.
use tine_storage.Base.{
  ℕ, ◌+◌, ◌^◌, ◌<◌, ◌≡◌, refl, sym, ap, ◌∙◌, true, Option, none, some, [], ◌∷◌, ◌++◌, Bytes, length,
  take, drop, slice, replicate, ◌==◌, bytes_eq_refl, any_nonzero-replicate, to_be_bytes,
  from_be_bytes, from-to_be64, length-to_be_bytes, length-replicate, ok, arith, length-append,
  append_assoc, take-append_at, next_field,
}
use tine_storage.ContentDigest.{Sha256, of}
use tine_storage.LocalJournalV2.Frontier.{
  TerminalFrame, Frontier, frontier_magic, identity_fields, read_identity, frontier_bytes,
  terminal_fields, frontier_body, encode_frontier, read_terminal, decode_frontier,
}
use tine_storage.LocalJournalV2.Frontier.RoundTrip.{
  IsHeader, identity-read, identity_fields-append, length-identity_fields, front_read, length-front,
  front-append, version_passes, equal_passes,
}

-- The sizes of a terminal frame's fields.
pub data IsTerminal : Option TerminalFrame → Type 0 where
  no_terminal : IsTerminal none
  a_terminal :
      {terminal : TerminalFrame}
      → terminal.sequence < 2 ^ 64
      → terminal.encoded_len < 2 ^ 64
      → length terminal.frame_digest ≡ 32
      → IsTerminal (some terminal)

pub record IsFrontier (frontier : Frontier) : Type 0 where
  pub header_fits : IsHeader frontier.header
  pub next_u64 : frontier.next_sequence < 2 ^ 64
  pub extent_u64 : frontier.committed_extent < 2 ^ 64
  pub terminal_fits : IsTerminal frontier.terminal
  pub predecessor_size : length frontier.predecessor_digest ≡ 32

terminal_fields-append :
    (terminal : Option TerminalFrame) (rest more : Bytes)
    → terminal_fields terminal rest ++ more ≡ terminal_fields terminal (rest ++ more)
unfolding terminal_fields
terminal_fields-append none rest more = simp (append_assoc)
terminal_fields-append (some terminal) rest more = simp (append_assoc)

terminal_width :
    (terminal : TerminalFrame)
    → length terminal.frame_digest ≡ 32
    → length (
        to_be_bytes 8 terminal.sequence
        ++ (to_be_bytes 8 terminal.encoded_len ++ terminal.frame_digest))
      ≡ 48
terminal_width terminal h = omega (
  arith,
  h,
  length-append (to_be_bytes 8 terminal.sequence)
      (to_be_bytes 8 terminal.encoded_len ++ terminal.frame_digest),
  length-append (to_be_bytes 8 terminal.encoded_len) terminal.frame_digest,
  length-to_be_bytes 8 terminal.sequence,
  length-to_be_bytes 8 terminal.encoded_len,
)

length-terminal_fields :
    (terminal : Option TerminalFrame) (rest : Bytes)
    → IsTerminal terminal
    → length (terminal_fields terminal rest) ≡ 56 + length rest
unfolding terminal_fields
length-terminal_fields none rest no_terminal = omega arith
length-terminal_fields (some terminal) rest (a_terminal s l d) =
    let fields : Bytes =
      to_be_bytes 8 terminal.sequence
      ++ (to_be_bytes 8 terminal.encoded_len ++ terminal.frame_digest) in
    omega (arith, terminal_width terminal d, length-append fields rest)

-- What is read at 104..160, and what is behind it.
terminal-read :
    (bytes rest : Bytes) (terminal : Option TerminalFrame)
    → IsTerminal terminal
    → drop 104 bytes ≡ terminal_fields terminal rest
    → (read_terminal bytes ≡ ok terminal)
      × (slice 105 112 bytes ≡ replicate 7 0)
      × (drop 160 bytes ≡ rest)
unfolding terminal_fields read_terminal
terminal-read bytes rest none no_terminal d =
    let (tag, d1) = next_field 104 1 105 bytes (replicate 1 0) _ refl d refl in
    let (reserved, d2) = next_field 105 7 112 bytes (replicate 7 0) _ refl d1 refl in
    let (fields, d3) = next_field 112 48 160 bytes (replicate 48 0) rest refl d2 refl in
    (rw (d, fields, any_nonzero-replicate 48) refl, reserved, d3)
terminal-read bytes rest (some terminal) (a_terminal s l h) d =
    let fields : Bytes =
      to_be_bytes 8 terminal.sequence
      ++ (to_be_bytes 8 terminal.encoded_len ++ terminal.frame_digest) in
    let (tag, d1) = next_field 104 1 105 bytes (1 ∷ []) _ refl d refl in
    let (reserved, d2) = next_field 105 7 112 bytes (replicate 7 0) (fields ++ rest) refl d1 refl in
    let (all, d3) = next_field 112 48 160 bytes fields rest refl d2 (terminal_width terminal h) in
    let tail : drop 112 bytes
        ≡ to_be_bytes 8 terminal.sequence
          ++ (to_be_bytes 8 terminal.encoded_len ++ (terminal.frame_digest ++ rest)) =
      d2 ∙ simp (append_assoc) in
    let (sequence, e1) =
      next_field 112 8 120 bytes (to_be_bytes 8 terminal.sequence) _ refl tail
        (length-to_be_bytes 8 terminal.sequence) in
    let (len, e2) =
      next_field 120 8 128 bytes (to_be_bytes 8 terminal.encoded_len) _ refl e1
        (length-to_be_bytes 8 terminal.encoded_len) in
    let (digest, e3) = next_field 128 32 160 bytes terminal.frame_digest rest refl e2 h in
    (
      rw
          (
            d,
            sequence,
            len,
            digest,
            from-to_be64 terminal.sequence s,
            from-to_be64 terminal.encoded_len l,
          )
          refl,
      reserved,
      d3,
    )

-- The fields from 88 on, behind the identity.
counters : Frontier → Bytes → Bytes
counters frontier more =
    to_be_bytes 8 frontier.next_sequence
    ++ (to_be_bytes 8 frontier.committed_extent
        ++ terminal_fields frontier.terminal
            (frontier.predecessor_digest ++ (replicate 16 0 ++ more)))

frontier_body-append :
    (frontier : Frontier) (more : Bytes)
    → frontier_body frontier ++ more
      ≡ frontier_magic
        ++ (to_be_bytes 4 2
            ++ (replicate 4 0 ++ identity_fields frontier.header (counters frontier more)))
unfolding frontier_body counters
frontier_body-append frontier more =
    let next : Bytes = to_be_bytes 8 frontier.next_sequence in
    let extent : Bytes = to_be_bytes 8 frontier.committed_extent in
    let last : Bytes = frontier.predecessor_digest ++ replicate 16 0 in
    rw
      (
        front-append frontier_magic
            (identity_fields frontier.header
              (next ++ (extent ++ terminal_fields frontier.terminal last)))
            more,
        identity_fields-append frontier.header
            (next ++ (extent ++ terminal_fields frontier.terminal last)) more,
        append_assoc next (extent ++ terminal_fields frontier.terminal last) more,
        append_assoc extent (terminal_fields frontier.terminal last) more,
        terminal_fields-append frontier.terminal last more,
        append_assoc frontier.predecessor_digest (replicate 16 0) more,
      )
      refl

length-frontier_body :
    (frontier : Frontier) → IsFrontier frontier → length (frontier_body frontier) ≡ 208
unfolding frontier_body
length-frontier_body frontier w =
    let next : Bytes = to_be_bytes 8 frontier.next_sequence in
    let extent : Bytes = to_be_bytes 8 frontier.committed_extent in
    let last : Bytes = frontier.predecessor_digest ++ replicate 16 0 in
    let fields : Bytes = terminal_fields frontier.terminal last in
    let rest : Bytes = identity_fields frontier.header (next ++ (extent ++ fields)) in
    omega (
      arith,
      length-front frontier_magic rest refl,
      length-identity_fields frontier.header (next ++ (extent ++ fields)) w.header_fits,
      length-append next (extent ++ fields),
      length-append extent fields,
      length-to_be_bytes 8 frontier.next_sequence,
      length-to_be_bytes 8 frontier.committed_extent,
      length-terminal_fields frontier.terminal last w.terminal_fits,
      length-append frontier.predecessor_digest (replicate 16 0),
      w.predecessor_size,
      length-replicate {A = ℕ} 16 0,
    )

frontier_guards :
    (sha : Sha256) (bytes : Bytes) (frontier : Frontier)
    → length bytes ≡ 240
    → take 8 bytes ≡ frontier_magic
    → slice 8 12 bytes ≡ to_be_bytes 4 2
    → slice 12 16 bytes ≡ replicate 4 0
    → slice 105 112 bytes ≡ replicate 7 0
    → slice 192 208 bytes ≡ replicate 16 0
    → drop 208 bytes ≡ of sha (take 208 bytes)
    → read_terminal bytes ≡ ok frontier.terminal
    → read_identity bytes ≡ frontier.header
    → from_be_bytes (slice 88 96 bytes) ≡ frontier.next_sequence
    → from_be_bytes (slice 96 104 bytes) ≡ frontier.committed_extent
    → slice 160 192 bytes ≡ frontier.predecessor_digest
    → decode_frontier sha bytes ≡ ok frontier
unfolding decode_frontier
frontier_guards sha bytes frontier n m v z r7 r16 c t i next extent p =
    let size : (length bytes == frontier_bytes) ≡ true = equal_passes n in
    rw
      (
        size,
        m,
        bytes_eq_refl frontier_magic,
        version_passes bytes v,
        z,
        any_nonzero-replicate 4,
        r7,
        any_nonzero-replicate 7,
        r16,
        any_nonzero-replicate 16,
        c,
        bytes_eq_refl (of sha (take 208 bytes)),
        t,
        i,
        next,
        extent,
        p,
      )
      refl

-- A frontier of the sizes the source's types fix is read back from its own encoding.
pub decode_frontier-encode_frontier :
    (sha : Sha256) (frontier : Frontier)
    → IsFrontier frontier
    → decode_frontier sha (encode_frontier sha frontier) ≡ ok frontier
unfolding encode_frontier counters
decode_frontier-encode_frontier sha frontier w =
    let body : Bytes = frontier_body frontier in
    let checksum : Bytes = of sha body in
    let bytes : Bytes = body ++ checksum in
    let n = length-frontier_body frontier w in
    let size : length bytes ≡ 240 =
      omega (arith, length-append body checksum, n, sha.length-digest body) in
    let (m, v, z, d) =
      front_read bytes frontier_magic _ refl (frontier_body-append frontier checksum) in
    let (i, d1) =
      identity-read bytes (counters frontier checksum) frontier.header w.header_fits d in
    let (next, d2) =
      next_field 88 8 96 bytes (to_be_bytes 8 frontier.next_sequence) _ refl d1
        (length-to_be_bytes 8 frontier.next_sequence) in
    let (extent, d3) =
      next_field 96 8 104 bytes (to_be_bytes 8 frontier.committed_extent) _ refl d2
        (length-to_be_bytes 8 frontier.committed_extent) in
    let (t, r7, d4) = terminal-read bytes _ frontier.terminal w.terminal_fits d3 in
    let (p, d5) =
      next_field 160 32 192 bytes frontier.predecessor_digest _ refl d4 w.predecessor_size in
    let (r16, d6) =
      next_field 192 16 208 bytes (replicate 16 0) checksum refl d5
        (length-replicate {A = ℕ} 16 0) in
    let body_first : take 208 bytes ≡ body = take-append_at 208 body checksum n in
    frontier_guards sha bytes frontier size m v z r7 r16 (d6 ∙ ap (of sha) (sym body_first)) t i
      (ap from_be_bytes next ∙ from-to_be64 frontier.next_sequence w.next_u64)
      (ap from_be_bytes extent ∙ from-to_be64 frontier.committed_extent w.extent_u64) p
