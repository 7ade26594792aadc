-- ===== src/Review/Render/Chunks/Whole.antt =====
-- render/mod.rs: the chunks hold every row once, in order, and are what a client gets one by one.
use mathlib.Core.List.{flatten}
use mathlib.Core.Path.{subst}
use nits.Prelude.{
  ℕ, zero, suc, ◌+◌, ◌-◌, ◌*◌, ◌≤◌, ◌<◌, ◌≡◌, refl, sym, ap, ◌∙◌, inl, inr, arith, ltb, leb, none,
  some, List, [], ◌∷◌, ◌++◌, map, length, min, max, Bool-cases, get_elem?, false,
}
use nits.Protocol.Lines.{u32_mod}
use nits.Review.Render.Chunks.{
  chunk_rows, RenderChunk, chunk_count, checked_mul, slice, chunk, chunks_from, chunks,
}

-- How many chunks there are, when they can be numbered.
chunk_count_bounds :
    (n : ℕ)
    → n < u32_mod * chunk_rows - chunk_rows
    → (n ≤ chunk_count n * chunk_rows)
      × (chunk_count n * chunk_rows ≤ max (n + chunk_rows - 1) chunk_rows)
      × (chunk_count n < u32_mod)
      × (1 ≤ chunk_count n)
unfolding chunk_count
chunk_count_bounds n h = ground arith

checked_start : (i : ℕ) → i < u32_mod → checked_mul i chunk_rows ≡ some (i * chunk_rows)
unfolding checked_mul
checked_start i h = ground arith

module _ {R : Type 0} where
  slice-append :
      (a b c : ℕ) (xs : List R) → a ≤ b → b ≤ c → slice a b xs ++ slice b c xs ≡ slice a c xs
  slice-append zero zero c xs hab hbc = refl
  slice-append zero (suc b) zero xs hab hbc = absurd (omega arith)
  slice-append zero (suc b) (suc c) [] hab hbc = refl
  slice-append zero (suc b) (suc c) (x ∷ xs) hab hbc =
      ap (λ r. x ∷ r) (slice-append zero b c xs (omega arith) (omega arith))
  slice-append (suc a) zero c xs hab hbc = absurd (omega arith)
  slice-append (suc a) (suc b) zero xs hab hbc = absurd (omega arith)
  slice-append (suc a) (suc b) (suc c) [] hab hbc = refl
  slice-append (suc a) (suc b) (suc c) (x ∷ xs) hab hbc =
      slice-append a b c xs (omega arith) (omega arith)

  slice_all : (n : ℕ) (xs : List R) → length xs ≤ n → slice 0 n xs ≡ xs
  slice_all zero [] h = refl
  slice_all zero (x ∷ xs) h = absurd (omega arith)
  slice_all (suc n) [] h = refl
  slice_all (suc n) (x ∷ xs) h = ap (λ r. x ∷ r) (slice_all n xs (omega arith))

  slice_nil : (a : ℕ) (xs : List R) → slice a a xs ≡ []
  slice_nil zero xs = refl
  slice_nil (suc a) [] = refl
  slice_nil (suc a) (x ∷ xs) = slice_nil a xs

  -- The rows of some chunks.
  abbrev pub rows_of : List (RenderChunk R) → List R
  rows_of cs = flatten (map (λ (c : RenderChunk R). c.rows) cs)

  flatten-chunks_from :
      (rows : List R) (i n : ℕ)
      → (i + n) * chunk_rows ≤ length rows + chunk_rows
      → rows_of (chunks_from rows i n)
        ≡ slice (min (i * chunk_rows) (length rows)) (min ((i + n) * chunk_rows) (length rows)) rows
  unfolding chunks_from flatten
  flatten-chunks_from rows i zero h =
      let at : i + 0 ≡ i = omega arith in
      rw at (sym (slice_nil (min (i * chunk_rows) (length rows)) rows))
  flatten-chunks_from rows i (suc n) h =
      let before : min (i * chunk_rows) (length rows) ≡ i * chunk_rows = omega arith in
      let at : i + suc n ≡ i + 1 + n = omega arith in
      rw (before, at)
        (ap (λ r. slice (i * chunk_rows) (min ((i + 1) * chunk_rows) (length rows)) rows ++ r)
            (flatten-chunks_from rows (i + 1) n (omega arith))
          ∙ slice-append (i * chunk_rows) (min ((i + 1) * chunk_rows) (length rows))
              (min ((i + 1 + n) * chunk_rows) (length rows)) rows (omega arith) (omega arith))

  -- The chunk at an index.
  abbrev nth_chunk : List R → ℕ → RenderChunk R
  nth_chunk rows i = record {
    index = i;
    rows = slice (i * chunk_rows) (min ((i + 1) * chunk_rows) (length rows)) rows;
  }

  get_elem?-chunks_from :
      (rows : List R) (i n k : ℕ)
      → k < n
      → get_elem? (chunks_from rows i n) k ≡ some (nth_chunk rows (i + k))
  unfolding chunks_from
  get_elem?-chunks_from rows i zero k h = absurd (omega arith)
  get_elem?-chunks_from rows i (suc n) zero h =
      let at : i ≡ i + 0 = omega arith in ap (λ j. some (nth_chunk rows j)) at
  get_elem?-chunks_from rows i (suc n) (suc k) h =
      let at : i + 1 + k ≡ i + suc k = omega arith in
      get_elem?-chunks_from rows (i + 1) n k (omega arith) ∙ ap (λ j. some (nth_chunk rows j)) at

  get_elem?-chunks_from_past :
      (rows : List R) (i n k : ℕ) → n ≤ k → get_elem? (chunks_from rows i n) k ≡ none
  unfolding chunks_from
  get_elem?-chunks_from_past rows i zero k h = refl
  get_elem?-chunks_from_past rows i (suc n) zero h = absurd (omega arith)
  get_elem?-chunks_from_past rows i (suc n) (suc k) h =
      get_elem?-chunks_from_past rows (i + 1) n k (omega arith)

  chunk-none :
      (rows : List R) (i : ℕ)
      → i < u32_mod
      → length rows ≤ i * chunk_rows
      → 1 ≤ i
      → chunk rows i ≡ none
  unfolding chunk checked_mul
  chunk-none rows i hi h pos = ground arith

  chunk-some :
      (rows : List R) (i : ℕ)
      → i < u32_mod
      → i * chunk_rows ≤ length rows - 1
      → chunk rows i ≡ some (nth_chunk rows i)
  unfolding chunk
  chunk-some [] i hi h =
      let first : 0 ≡ i = omega arith in
      subst (λ (j : ℕ). chunk {R = R} [] j ≡ some (nth_chunk [] j)) first refl
  chunk-some (x ∷ xs) i hi h =
      let inside : leb (length (x ∷ xs)) (i * chunk_rows) ≡ false = ground arith in
      let ends : i * chunk_rows + chunk_rows ≡ (i + 1) * chunk_rows = omega arith in
      rw (chunk, checked_start i hi, inside, ends) refl

  -- The chunks of a file hold its rows, each once and in order. For every index, inside or past
  -- the end, asking for one chunk gives the one in the sequence, or nothing. The chunks must be few
  -- enough to be numbered in 32 bits.
  pub chunks-chunk :
      (rows : List R)
      → length rows < u32_mod * chunk_rows - chunk_rows
      → (rows_of (chunks rows) ≡ rows)
        × ((i : ℕ) → i < u32_mod → chunk rows i ≡ get_elem? (chunks rows) i)
  unfolding chunks
  chunks-chunk rows h =
      let (cover, few, numbered, some_chunk) = chunk_count_bounds (length rows) h in
      let count = chunk_count (length rows) in
      let whole : min ((0 + count) * chunk_rows) (length rows) ≡ length rows =
        omega (arith, cover) in
      let from_first : min (0 * chunk_rows) (length rows) ≡ 0 = omega arith in
      (
        flatten-chunks_from rows 0 count (omega (arith, few))
            ∙ (rw (whole, from_first) (slice_all (length rows) rows (omega arith))),
        λ i hi. elim (Bool-cases (ltb i count)) [
          | inl inside ↦
              chunk-some rows i hi (ground (arith, few))
              ∙ sym (
                  get_elem?-chunks_from rows 0 count i (ground arith)
                  ∙ ap (λ j. some (nth_chunk rows j)) (omega arith))
          | inr past ↦
              chunk-none rows i hi (ground (arith, cover)) (ground (arith, some_chunk))
              ∙ sym (get_elem?-chunks_from_past rows 0 count i (ground arith))
        ],
      )
