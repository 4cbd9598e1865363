-- ===== src/DigestSealed/Examples.antt =====
-- The theorems on the envelope at concrete inputs.
use tine_storage.Base.{
  ◌≡◌, refl, ap, ◌∷◌, ◌++◌, ◌⊎◌, inl, inr, String, Bytes, length, take, drop, take-append,
  drop-append, ok,
}
use tine_storage.ContentDigest.{of}
use tine_storage.Postcard.{Postcard}
use tine_storage.DigestSealed.{Sealed, seal, encode_canonical, decode_canonical, verify_digest}
use tine_storage.DigestSealed.Envelope.{sealed_round_trip, encode_canonical-decode_canonical}
use tine_storage.Samples.{toy_sha, bytes_of, note}

abbrev write_sealed : Sealed → String ⊎ Bytes
write_sealed value =
    inr (value.schema_version ∷ length value.payload ∷ value.payload ++ value.payload_digest)

abbrev parse_sealed : Bytes → String ⊎ Sealed
parse_sealed (version ∷ n ∷ rest) =
    inr (record { schema_version = version; payload = take n rest; payload_digest = drop n rest })
parse_sealed bytes = inl "unexpected end"

parse_sealed-write_sealed :
    (value : Sealed) (bytes : Bytes)
    → write_sealed value ≡ inr bytes
    → parse_sealed bytes ≡ inr value
unfolding bytes_of
parse_sealed-write_sealed value bytes h =
    let written : value.schema_version ∷ length value.payload ∷ value.payload
          ++ value.payload_digest
        ≡ bytes =
      ap bytes_of h in
    rw
      (
        ← written,
        take-append value.payload value.payload_digest,
        drop-append value.payload value.payload_digest,
      )
      refl

abbrev sealed_codec : Postcard Sealed
sealed_codec = record {
  to_allocvec = write_sealed;
  from_bytes = parse_sealed;
  from_bytes-to_allocvec = parse_sealed-write_sealed;
}

abbrev sealed_note : Bytes
sealed_note = 3 ∷ 2 ∷ note ++ of toy_sha note

note_encodes : encode_canonical sealed_codec (seal toy_sha 3 note) ≡ ok sealed_note
unfolding encode_canonical seal
note_encodes = refl

note_decodes : decode_canonical sealed_codec sealed_note ≡ ok (seal toy_sha 3 note)
note_decodes = (sealed_round_trip toy_sha sealed_codec 3 note sealed_note note_encodes).0

sealed_round_trip_example :
    (decode_canonical sealed_codec sealed_note ≡ ok (seal toy_sha 3 note))
    × (verify_digest toy_sha (seal toy_sha 3 note) ≡ ok tt)
sealed_round_trip_example = sealed_round_trip toy_sha sealed_codec 3 note sealed_note note_encodes

encode_canonical-decode_canonical_example :
    encode_canonical sealed_codec (seal toy_sha 3 note) ≡ ok sealed_note
encode_canonical-decode_canonical_example =
    encode_canonical-decode_canonical toy_sha sealed_codec (seal toy_sha 3 note) sealed_note
      note_decodes
