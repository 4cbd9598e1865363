-- ===== src/LocalJournal/Frame/Extent.antt =====
-- The 20-byte prefix of a frame: `parse_extent` on what the encoder writes, and on any input.
use tine_storage.Base.{
  ℕ, ◌+◌, ◌≤◌, ◌≡◌, refl, true, ◌++◌, Bytes, IsBytes, length, take, slice, bytes_eq, bytes_eq_sound,
  to_be_bytes, from_be_bytes, from-to_be32, from-to_be64, ok, arith, le→ltb,
}
use tine_storage.Envelope.{header_field, payload_field, prefix_of_fields}
use tine_storage.LocalJournal.Frame.{
  max_frame_bytes, max_frame_header_bytes, frame_magic, FrameExtent, total_len, parse_extent,
}

pub total_len-ok : (h p : ℕ) → h + p + 52 ≤ max_frame_bytes → total_len h p ≡ ok (h + p + 52)
unfolding total_len
total_len-ok h p b = ground arith

pub total_len_sound : (h p t : ℕ) → total_len h p ≡ ok t → t ≡ h + p + 52
unfolding total_len
total_len_sound h p t e = ground arith

-- The prefix that announces a header of `h` bytes and a payload of `p` bytes.
abbrev pub prefix_of : ℕ → ℕ → Bytes
prefix_of h p = frame_magic ++ (to_be_bytes 4 h ++ to_be_bytes 8 p)

-- The extent of a prefix that the encoder writes.
pub parse_extent-prefix :
    (h p : ℕ)
    → h ≤ max_frame_header_bytes
    → h + p + 52 ≤ max_frame_bytes
    → parse_extent (prefix_of h p) ≡ ok (record { header_len = h; total = h + p + 52 })
unfolding parse_extent bytes_eq
parse_extent-prefix h p a b = rw (
  header_field frame_magic refl h p,
  payload_field frame_magic refl h p,
  from-to_be32 h (omega arith),
  from-to_be64 p (omega arith),
  le→ltb max_frame_header_bytes h a,
  total_len-ok h p b,
  le→ltb max_frame_bytes (h + p + 52) b,
)

-- What the guards of `parse_extent` have checked.
parse_extent-guards :
    (prefix : Bytes) (e : FrameExtent)
    → parse_extent prefix ≡ ok e
    → (bytes_eq (take 8 prefix) frame_magic ≡ true)
      × (from_be_bytes (slice 8 12 prefix) ≡ e.header_len)
      × (total_len e.header_len (from_be_bytes (slice 12 20 prefix)) ≡ ok e.total)
      × (e.header_len ≤ max_frame_header_bytes)
      × (e.total ≤ max_frame_bytes)
unfolding parse_extent
parse_extent-guards prefix e h = ground arith

-- An accepted prefix of 20 bytes is the one that the encoder writes for its extent, which is within
-- the bounds.
pub parse_extent_sound :
    (prefix : Bytes) (e : FrameExtent)
    → length prefix ≡ 20
    → IsBytes prefix
    → parse_extent prefix ≡ ok e
    → (p : ℕ) × (prefix ≡ prefix_of e.header_len p)
      × (e.total ≡ e.header_len + p + 52)
      × (e.header_len ≤ max_frame_header_bytes)
      × (e.total ≤ max_frame_bytes)
parse_extent_sound prefix e n b h =
    let (magic, header, total, small, bounded) = parse_extent-guards prefix e h in
    let p = from_be_bytes (slice 12 20 prefix) in
    let pieces : prefix ≡ prefix_of e.header_len p =
      rw header at (prefix_of_fields frame_magic refl prefix n b (bytes_eq_sound _ _ magic)) in
    (p, pieces, total_len_sound _ p _ total, small, bounded)
