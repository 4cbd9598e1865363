-- ===== src/ContentDigest.antt =====
-- src/content_digest.rs: SHA-256 identities of content bytes and their hexadecimal text.
-- A digest is its 32 bytes, a text is its ASCII codes. SHA-256 itself is a parameter.
pub mod Hex
mod Examples
use Prim.Native.Nat.{bit_and, bit_or}
use tine_storage.Base.{
  ℕ, ◌+◌, ◌-◌, ◌*◌, ◌/◌, ◌%◌, ◌^◌, ◌≡◌, Bool, true, false, not, ◌&&◌, ◌||◌, Option, none, some,
  List, [], ◌∷◌, ◌++◌, Bytes, IsBytes, length, get_or, leb, ◌==◌, if◌then◌else◌, Result, ok, err,
  stuck,
}

-- The `sha2` crate: every digest is 32 bytes long.
pub record Sha256 : Type 0 where
  pub digest : Bytes → Bytes
  pub length-digest : (bytes : Bytes) → length (digest bytes) ≡ 32
  pub digest-IsBytes : (bytes : Bytes) → IsBytes (digest bytes)

-- `ContentDigest::of`
abbrev pub of : Sha256 → Bytes → Bytes
of sha bytes = sha.digest bytes

pub data DigestParseError : Type 0 where
  digest_parse_error : DigestParseError

abbrev pub hex_digits : Bytes
hex_digits =
    b'0' ∷ b'1' ∷ b'2' ∷ b'3' ∷ b'4' ∷ b'5' ∷ b'6' ∷ b'7' ∷ b'8' ∷ b'9' ∷ b'a' ∷ b'b' ∷ b'c' ∷ b'd'
    ∷ b'e' ∷ b'f' ∷ []

-- The two characters of one byte: `HEX[byte >> 4]`, `HEX[byte & 0x0f]`.
unfoldable pub high_digit : ℕ → ℕ
high_digit byte = get_or hex_digits (byte / 2 ^ 4) 0

unfoldable pub low_digit : ℕ → ℕ
low_digit byte = get_or hex_digits (bit_and byte 0x0f) 0

unfoldable pub write_hex : Bytes → Bytes
write_hex [] = []
write_hex (byte ∷ bytes) = high_digit byte ∷ low_digit byte ∷ write_hex bytes

unfoldable pub is_hex : ℕ → Bool
is_hex c = (leb b'0' c && leb c b'9') || (leb b'a' c && leb c b'f')

-- `none` is the `unreachable!` panic.
unfoldable pub hex_nibble : ℕ → Option ℕ
hex_nibble c =
    if leb b'0' c && leb c b'9'
    then some (c - b'0')
    else if leb b'a' c && leb c b'f'
    then some (c - b'a' + 10)
    else none

unfoldable pub all_hex : Bytes → Bool
all_hex [] = true
all_hex (c ∷ cs) = is_hex c && all_hex cs

-- `(high << 4) | low` on `u8`.
unfoldable pub join_nibbles : Option ℕ → Option ℕ → Option ℕ
join_nibbles (some high) (some low) = some (bit_or (high * 2 ^ 4 % 256) low)
join_nibbles (some high) none = none
join_nibbles none low = none

abbrev pub cons_byte : Option ℕ → Result DigestParseError Bytes → Result DigestParseError Bytes
cons_byte none rest = stuck
cons_byte (some b) (ok bs) = ok (b ∷ bs)
cons_byte (some b) (err e) = err e
cons_byte (some b) stuck = stuck

-- The loop over `chunks_exact(2)`, which leaves a last odd character out.
unfoldable pub parse_pairs : Bytes → Result DigestParseError Bytes
parse_pairs [] = ok []
parse_pairs (c ∷ []) = ok []
parse_pairs (c ∷ d ∷ rest) =
    cons_byte (join_nibbles (hex_nibble c) (hex_nibble d)) (parse_pairs rest)

unfoldable pub parse_digest : Bytes → Result DigestParseError Bytes
parse_digest value =
    if not (length value == 64) || not (all_hex value)
    then err digest_parse_error
    else parse_pairs value
