-- ===== src/LocalJournal/Errors.antt =====
-- `LocalJournalError`. A `cause: String` is kept as what it was made from: a literal text, the
-- text on a declared frame length, or the `to_string()` of another error.
use Prim.Native.String.{String}
use tine_storage.Base.{ℕ, Bytes}

mutual
  pub data LocalJournalError : Type 0 where
    io : String → LocalJournalError
    encode : String → LocalJournalError
    decode : String → LocalJournalError
    invalid_frame_magic : LocalJournalError
    length_overflow : LocalJournalError
    frame_too_large : ℕ → LocalJournalError
    frame_header_too_large : ℕ → LocalJournalError
    truncated_frame : LocalJournalError
    frame_length_mismatch : ℕ → ℕ → LocalJournalError
    checksum_mismatch : LocalJournalError
    non_canonical_frame_header : LocalJournalError
    payload_digest_mismatch : LocalJournalError
    unknown_frame_schema_version : ℕ → ℕ → LocalJournalError
    unsafe_segment_name : Bytes → LocalJournalError
    ambiguous_legacy_suffix : ℕ → ℕ → LocalJournalError
    unsupported_durable_replacement : LocalJournalError
    prepared_artifact_exists : Bytes → LocalJournalError
    segment_already_open : Bytes → LocalJournalError
    segment_too_large : ℕ → LocalJournalError
    corrupt_segment : ℕ → Cause → LocalJournalError
    segment_device_mismatch : ℕ → Bytes → Bytes → LocalJournalError
    segment_sequence_gap : ℕ → ℕ → ℕ → LocalJournalError
    sequence_exhausted : LocalJournalError
    segment_poisoned : LocalJournalError

  pub data Cause : Type 0 where
    message : String → Cause
    declared_length : ℕ → ℕ → Cause
    shown : LocalJournalError → Cause
