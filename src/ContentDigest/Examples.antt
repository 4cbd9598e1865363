-- ===== src/ContentDigest/Examples.antt =====
-- The theorems on hexadecimal text at concrete inputs.
use tine_storage.Base.{◌≡◌, refl, ◌⊎◌, ◌≢◌, Bytes, IsBytes, length, replicate, ok, err, arith}
use tine_storage.ContentDigest.{digest_parse_error, write_hex, parse_digest}
use tine_storage.ContentDigest.Hex.{parse_digest-write_hex, parse_digest_cases}

abbrev digest_ab : Bytes
digest_ab = replicate 32 0xab

parse_digest-write_hex_example : parse_digest (write_hex digest_ab) ≡ ok digest_ab
parse_digest-write_hex_example = parse_digest-write_hex digest_ab (omega arith) refl

abbrev upper_case : Bytes
upper_case = replicate 64 b'A'

parse_digest_cases_example :
    ((r : Bytes) × (parse_digest upper_case ≡ ok r)
      × (write_hex r ≡ upper_case)
      × IsBytes r
      × (length r ≡ 32))
    ⊎ ((parse_digest upper_case ≡ err digest_parse_error)
        × ((r : Bytes) → IsBytes r → length r ≡ 32 → write_hex r ≢ upper_case))
parse_digest_cases_example = parse_digest_cases upper_case
