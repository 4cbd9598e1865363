-- ===== src/SqliteFileset/Checkpoint.antt =====
-- The physical checkpoint of src/sqlite_fileset.rs: which bytes of a database it samples.
use tine_storage.Base.{
  Bool-cases, inl, inr, ℕ, zero, suc, ◌+◌, ◌-◌, ◌*◌, ◌/◌, ◌≤◌, ◌<◌, ◌≡◌, refl, List, [], ◌∷◌, min,
  leb, ◌==◌, if◌then◌else◌, arith,
}
use mathlib.Core.Path.{subst}
use native.Mathlib.Nat.{mul-le-mul_left}

abbrev pub sqlite_checkpoint_edge_bytes : ℕ
sqlite_checkpoint_edge_bytes = 64 * 1024

abbrev pub sqlite_checkpoint_interior_sample_bytes : ℕ
sqlite_checkpoint_interior_sample_bytes = 1024 * 1024

abbrev pub sqlite_checkpoint_interior_range_bytes : ℕ
sqlite_checkpoint_interior_range_bytes = 16 * 1024

abbrev pub sqlite_checkpoint_interior_max_ranges : ℕ
sqlite_checkpoint_interior_max_ranges = 64

pub record CheckpointInteriorRange : Type 0 where
  pub offset : ℕ
  pub length : ℕ

-- The ranges from `index` on, of which `left` are left.
unfoldable pub ranges_from : ℕ → ℕ → ℕ → ℕ → List CheckpointInteriorRange
ranges_from start span zero index = []
ranges_from start span (suc left) index =
    record {
      offset = start + span * index / (sqlite_checkpoint_interior_max_ranges - 1);
      length = sqlite_checkpoint_interior_range_bytes;
    }
    ∷ ranges_from start span left (suc index)

-- `physical_file_checkpoint_interior_ranges`
unfoldable pub interior_ranges : ℕ → List CheckpointInteriorRange
unfolding ranges_from
interior_ranges total =
    let edge = min total sqlite_checkpoint_edge_bytes in
    let interior = total - edge - edge in
    if interior == 0
    then []
    else (if leb interior sqlite_checkpoint_interior_sample_bytes
        then record { offset = edge; length = interior } ∷ []
        else ranges_from edge (interior - sqlite_checkpoint_interior_range_bytes)
            sqlite_checkpoint_interior_max_ranges 0)

-- The ranges stand one behind the other between the two positions.
abbrev pub Between : ℕ → ℕ → List CheckpointInteriorRange → Type 0
Between from to [] = Unit
Between from to (range ∷ ranges) =
    (from ≤ range.offset)
    × (range.offset + range.length ≤ to)
    × Between (range.offset + range.length) to ranges

abbrev pub sampled : List CheckpointInteriorRange → ℕ
sampled [] = 0
sampled (range ∷ ranges) = range.length + sampled ranges

-- The sampled positions climb by more than a range.
step_apart : (span index : ℕ) → 1032192 < span → span * index / 63 + 16384 ≤ span * suc index / 63
step_apart span index h =
    let e : span * suc index ≡ span * index + span = ground arith in omega (arith, e)

-- None of the 64 positions is behind the last one.
span_bound : (span index : ℕ) → index ≤ 63 → span * index / 63 ≤ span
span_bound span index h = omega (arith, mul-le-mul_left {m = index} {n = 63} span h)

ranges_from-Between :
    (start span left index : ℕ)
    → 1032192 < span
    → left + index ≡ 64
    → (from : ℕ) → from ≤ start + span * index / 63
    → Between from (start + span + 16384) (ranges_from start span left index)
unfolding ranges_from
ranges_from-Between start span zero index h k from below = tt
ranges_from-Between start span (suc left) index h k from below =
    let next : start + span * index / 63 + 16384 ≤ start + span * suc index / 63 =
      omega (arith, step_apart span index h) in
    let last : start + span * index / 63 + 16384 ≤ start + span + 16384 =
      omega (arith, span_bound span index (omega arith)) in
    (
      below,
      last,
      ranges_from-Between start span left (suc index) h (omega arith)
          (start + span * index / 63 + 16384) next,
    )

sampled-ranges_from :
    (start span left index : ℕ) → sampled (ranges_from start span left index) ≡ 16384 * left
unfolding ranges_from
sampled-ranges_from start span zero index = refl
sampled-ranges_from start span (suc left) index =
    omega (arith, sampled-ranges_from start span left (suc index))

-- The sampled ranges of a file of any length stand one behind the other between its first and its
-- last 64 KiB, or as many bytes as it has, and hold all of what lies between, but at most 1 MiB.
pub interior_ranges_lem :
    (total : ℕ)
    → Between (min total 65536) (total - min total 65536) (interior_ranges total)
      × (sampled (interior_ranges total) ≡ min (total - min total 65536 - min total 65536) 1048576)
unfolding interior_ranges
interior_ranges_lem total =
    let edge = min total 65536 in
    let interior = total - edge - edge in
    elim (Bool-cases (interior == 0)) [
      | inl nothing ↦ let none_between : interior ≡ 0 = ground arith in rw nothing (tt, omega arith)
      | inr some_bytes ↦ elim (Bool-cases (leb interior 1048576)) [
        | inl one ↦
            let positive : 0 < interior = ground arith in
            let bounded : interior ≤ 1048576 = ground arith in
            rw (some_bytes, one) ((omega arith, omega arith, tt), omega arith)
        | inr many ↦
            let large : 1032192 < interior - 16384 = ground arith in
            let end : edge + (interior - 16384) + 16384 ≡ total - edge = omega arith in
            rw (some_bytes, many)
              (
                subst (λ to. Between edge to (ranges_from edge (interior - 16384) 64 0)) end
                    (ranges_from-Between edge (interior - 16384) 64 0 large refl edge
                      (omega arith)),
                omega (arith, sampled-ranges_from edge (interior - 16384) 64 0),
              )
      ]
    ]
