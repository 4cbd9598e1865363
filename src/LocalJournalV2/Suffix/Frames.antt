-- ===== src/LocalJournalV2/Suffix/Frames.antt =====
-- The read of one frame of a version 2 segment in front of bytes behind its committed extent.
use tine_storage.Base.{
  ℕ, zero, suc, ◌+◌, ◌-◌, ◌≤◌, ◌≡◌, refl, ap, false, List, [], ◌∷◌, ◌++◌, Bytes, length, take, drop,
  ltb, le→ltb, ok, refuse_if, ◌>>◌, bytes_eq, not, slice, from_be_bytes, ◌>>=◌, arith,
  length-append, length-drop, Bool-cases, inl, inr,
}
use tine_storage.ContentDigest.{Sha256}
use tine_storage.Postcard.{Postcard}
use tine_storage.LocalJournal.Errors.{message}
use tine_storage.LocalJournal.Errors.LocalJournalError.{corrupt_segment}
use tine_storage.LocalJournal.Frame.{FrameHeader, frame_magic, total_len}
use tine_storage.LocalJournal.Reader.{read_exact}
use tine_storage.LocalJournalV2.Segment.{
  complete_body, complete_total, complete_prefix, read_complete_frame, checked_sub,
}

module _ {A : Type 0} where
  pub take-front :
      (n : ℕ) (front suffix : List A) → n ≤ length front → take n (front ++ suffix) ≡ take n front
  take-front zero front suffix h = refl
  take-front (suc n) [] suffix h = absurd (omega arith)
  take-front (suc n) (x ∷ front) suffix h =
      ap (λ l. x ∷ l) (take-front n front suffix (omega arith))

  drop-front :
      (n : ℕ) (front suffix : List A)
      → n ≤ length front
      → drop n (front ++ suffix) ≡ drop n front ++ suffix
  drop-front zero front suffix h = refl
  drop-front (suc n) [] suffix h = absurd (omega arith)
  drop-front (suc n) (x ∷ front) suffix h = drop-front n front suffix (omega arith)

-- A read that ends in front of the suffix.
pub read_exact-suffix :
    (n : ℕ) (front suffix : Bytes)
    → n ≤ length front
    → (read_exact n front ≡ ok (take n front, drop n front))
      × (read_exact n (front ++ suffix) ≡ ok (take n front, drop n front ++ suffix))
unfolding read_exact
read_exact-suffix n front suffix h =
    let short : ltb (length front) n ≡ false = le→ltb (length front) n h in
    let short_of_all : ltb (length (front ++ suffix)) n ≡ false =
      le→ltb (length (front ++ suffix)) n (omega (arith, length-append front suffix)) in
    (
      rw short refl,
      rw (short_of_all, take-front n front suffix h, drop-front n front suffix h) refl,
    )

module _ {K : Type 0} (sha : Sha256) (pc : Postcard (FrameHeader K)) where
  complete_total-suffix :
      (offset remaining : ℕ) (prefix rest suffix : Bytes) (total : ℕ)
      → remaining ≤ 20 + length rest
      → complete_total sha pc offset remaining prefix (rest ++ suffix) total
        ≡ complete_total sha pc offset remaining prefix rest total
  unfolding complete_total complete_body
  complete_total-suffix offset remaining prefix rest suffix total h =
      elim (Bool-cases (ltb remaining total)) [
        | inl over ↦ rw over refl
        | inr fits ↦
            let (short, long) =
              read_exact-suffix (total - 20) rest suffix (ground (arith, fits, h)) in
            rw (fits, short, long) refl
      ]

  complete_prefix-suffix :
      (offset remaining : ℕ) (prefix rest suffix : Bytes)
      → remaining ≤ 20 + length rest
      → complete_prefix sha pc offset remaining (prefix, rest ++ suffix)
        ≡ complete_prefix sha pc offset remaining (prefix, rest)
  unfolding complete_prefix
  complete_prefix-suffix offset remaining prefix rest suffix h = λ i.
      refuse_if (not (bytes_eq (take 8 prefix) frame_magic))
        (corrupt_segment offset (message "frame magic is invalid"))
      >> (total_len (from_be_bytes (slice 8 12 prefix)) (from_be_bytes (slice 12 20 prefix))
          >>= λ total. complete_total-suffix offset remaining prefix rest suffix total h i)

  pub read_complete_frame-suffix :
      (front suffix : Bytes) (offset : ℕ)
      → read_complete_frame sha pc (front ++ suffix) offset (length front)
        ≡ read_complete_frame sha pc front offset (length front)
  unfolding read_complete_frame checked_sub
  read_complete_frame-suffix front suffix offset = elim (Bool-cases (ltb (length front) offset)) [
    | inl beyond ↦ rw beyond refl
    | inr inside ↦
        let at : offset ≤ length front = ground (arith, inside) in
        elim (Bool-cases (ltb (length front - offset) 52)) [
          | inl truncated ↦ rw (inside, truncated) refl
          | inr whole ↦
              let rest : Bytes = drop offset front in
              let size : 20 ≤ length rest = ground (arith, whole, length-drop offset front) in
              let (short, long) = read_exact-suffix 20 rest suffix size in
              let left : length front - offset ≤ 20 + length (drop 20 rest) =
                omega (arith, length-drop offset front, length-drop 20 rest, size) in
              rw (inside, whole, drop-front offset front suffix at, short, long)
                (complete_prefix-suffix offset (length front - offset) (take 20 rest) (drop 20 rest)
                  suffix left)
        ]
  ]
