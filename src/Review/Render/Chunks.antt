-- ===== src/Review/Render/Chunks.antt =====
-- crates/nits-review-core/src/render/mod.rs: `Rendered`, the rows of a file cut into chunks.
-- A row is of any type `R`. A `usize` has 64 bits.
pub mod Whole
use nits.Prelude.{
  ◌-◌, ℕ, zero, suc, ◌+◌, ◌*◌, ◌/◌, ◌%◌, ◌^◌, Bool, true, false, not, ◌&&◌, Option, none, some,
  List, [], ◌∷◌, length, take, drop, ltb, leb, ◌==◌, min, max, if◌then◌else◌,
}
use nits.Protocol.Lines.{u32_mod}

abbrev pub chunk_rows : ℕ
chunk_rows = 500

pub record RenderChunk (R : Type 0) : Type 0 where
  pub index : ℕ
  pub rows : List R

-- `rows.div_ceil(CHUNK_ROWS)`
abbrev pub div_ceil : ℕ → ℕ
div_ceil n = if n % chunk_rows == 0 then n / chunk_rows else n / chunk_rows + 1

unfoldable pub chunk_count : ℕ → ℕ
chunk_count n = let count = max (div_ceil n) 1 in if ltb count u32_mod then count else 2 ^ 32 - 1

unfoldable pub checked_mul : ℕ → ℕ → Option ℕ
checked_mul a b = if ltb (a * b) (2 ^ 64) then some (a * b) else none

module _ {R : Type 0} where
  abbrev pub is_empty : List R → Bool
  is_empty [] = true
  is_empty (_ ∷ _) = false

  -- `rows[start..end]`
  abbrev pub slice : ℕ → ℕ → List R → List R
  slice s e rows = drop s (take e rows)

  unfoldable pub chunk : List R → ℕ → Option (RenderChunk R)
  unfolding checked_mul
  chunk rows i = elim (checked_mul i chunk_rows) [
    | none ↦ none
    | some s ↦
        if leb (length rows) s && not (is_empty rows && (i == 0))
        then none
        else some (record { index = i; rows = slice s (min (s + chunk_rows) (length rows)) rows })
  ]

  -- The range `0..chunk_count`, from `i` on.
  unfoldable pub chunks_from : List R → ℕ → ℕ → List (RenderChunk R)
  chunks_from rows i zero = []
  chunks_from rows i (suc n) =
      record {
        index = i;
        rows = slice (i * chunk_rows) (min ((i + 1) * chunk_rows) (length rows)) rows;
      }
      ∷ chunks_from rows (i + 1) n

  unfoldable pub chunks : List R → List (RenderChunk R)
  unfolding chunks_from chunk_count
  chunks rows = chunks_from rows 0 (chunk_count (length rows))
