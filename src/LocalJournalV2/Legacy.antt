-- ===== src/LocalJournalV2/Legacy.antt =====
-- `inspect_v1`: the inspection of a version 1 segment, which accepts no incomplete suffix.
use tine_storage.Base.{
  Bool, true, false, ℕ, zero, suc, ◌-◌, Bytes, length, ltb, if◌then◌else◌, Result, ok, err, stuck,
  ◌>>=◌, ◌>>◌, refuse_if,
}
use tine_storage.ContentDigest.{Sha256}
use tine_storage.Postcard.{Postcard}
use tine_storage.LocalJournal.Errors.{LocalJournalError, declared_length}
use tine_storage.LocalJournal.Errors.LocalJournalError.{
  segment_too_large, corrupt_segment, ambiguous_legacy_suffix,
}
use tine_storage.LocalJournal.Frame.{FrameHeader, min_frame_bytes}
use tine_storage.LocalJournal.Reader.{max_segment_bytes}
use tine_storage.LocalJournalV2.Segment.{PrefixScan, start_at, read_complete_frame, scan_next}

-- `cause.contains("declared frame length")`: only the text on a declared length has these words.
unfoldable pub declares_length : LocalJournalError → Bool
declares_length (corrupt_segment offset (declared_length total remaining)) = true
declares_length error = false

-- The match on the answer of `read_complete_frame`.
unfoldable pub legacy_read :
    {A : Type 0} → ℕ → ℕ → Result LocalJournalError A → Result LocalJournalError A
legacy_read offset remaining (ok frame) = ok frame
legacy_read offset remaining stuck = stuck
legacy_read offset remaining (err error) =
    if declares_length error then err (ambiguous_legacy_suffix offset remaining) else err error

module _ {K : Type 0} (sha : Sha256) (pc : Postcard (FrameHeader K)) where
  unfoldable pub legacy_round :
      Bytes → Bytes → PrefixScan K → Result LocalJournalError (PrefixScan K)
  legacy_round file device_id scan = do
    let remaining = length file - scan.committed_extent
    refuse_if (ltb remaining min_frame_bytes)
        (ambiguous_legacy_suffix scan.committed_extent remaining)
    read ←
        legacy_read scan.committed_extent remaining
          (read_complete_frame sha pc file scan.committed_extent (length file))
    scan_next sha pc device_id scan read

  unfoldable pub legacy_loop :
      ℕ → Bytes → Bytes → PrefixScan K → Result LocalJournalError (PrefixScan K)
  legacy_loop zero file device_id scan = stuck
  legacy_loop (suc fuel) file device_id scan =
      if ltb scan.committed_extent (length file)
      then (legacy_round file device_id scan >>= legacy_loop fuel file device_id)
      else ok scan

  unfoldable pub inspect_v1 : Bytes → Bytes → ℕ → Result LocalJournalError (PrefixScan K)
  inspect_v1 file device_id base_sequence = do
    refuse_if (ltb max_segment_bytes (length file)) (segment_too_large (length file))
    legacy_loop (suc (length file)) file device_id (start_at 0 base_sequence)
