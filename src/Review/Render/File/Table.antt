-- ===== src/Review/Render/File/Table.antt =====
-- render/mod.rs, `gaps_of`: the table names the rows of the expanders.
use nits.Prelude.{
  ℕ, zero, suc, ◌+◌, ◌≤◌, ◌<◌, ◌≡◌, ◌↔◌, ◌∙◌, inl, inr, arith, List, [], ◌∷◌, length,
}
use nits.Protocol.Lines.{u32_mod}
use nits.Protocol.Gaps.{GapRow}
use nits.Protocol.Gaps.Table.{Names, TableAscends, gap_table-TableAscends}
use nits.Review.Render.Rows.{
  Row, hunk_header_row, context, removed, added, modified, expander, whitespace_only, to_u32,
}
use nits.Review.Render.Rows.Gapped.{Gapped}
use nits.Review.Render.File.{gap_rows, gaps_of}

-- Gaps and rows ascend from `lo` and `i` on.
abbrev From : ℕ → ℕ → List GapRow → Type 0
From lo i [] = Unit
From lo i (r ∷ rs) = (lo ≤ r.gap) × (i ≤ r.row) × From (r.gap + 1) (r.row + 1) rs

From-lower : (rs : List GapRow) (lo i i' : ℕ) → i ≤ i' → From lo i' rs → From lo i rs
From-lower [] lo i i' h f = tt
From-lower (r ∷ rs) lo i i' h f = (f.0, omega (arith, f.1), f.2)

From-TableAscends : (rs : List GapRow) (lo i : ℕ) → From lo i rs → TableAscends rs
From-TableAscends [] lo i f = tt
From-TableAscends (r ∷ []) lo i f = tt
From-TableAscends (r ∷ q ∷ rs) lo i f = (
  omega (arith, f.2.0),
  omega (arith, f.2.1),
  From-TableAscends (q ∷ rs) (r.gap + 1) (r.row + 1) f.2,
)

module _ {S : Type 0} where
  -- Row `k` is an expander of the gap `g`.
  abbrev pub IsExpander : List (Row S) → ℕ → ℕ → Type 0
  IsExpander [] k g = ⊥
  IsExpander (expander _ _ gap ∷ rows) zero g = gap ≡ g
  IsExpander (hunk_header_row _ ∷ rows) zero g = ⊥
  IsExpander (context _ _ ∷ rows) zero g = ⊥
  IsExpander (removed _ ∷ rows) zero g = ⊥
  IsExpander (added _ ∷ rows) zero g = ⊥
  IsExpander (modified _ _ ∷ rows) zero g = ⊥
  IsExpander (whitespace_only ∷ rows) zero g = ⊥
  IsExpander (_ ∷ rows) (suc k) g = IsExpander rows k g

  gap_rows-From :
      (rows : List (Row S)) (lo hi i : ℕ)
      → Gapped lo hi rows
      → i + length rows < u32_mod
      → From lo i (gap_rows i rows)
  unfolding gap_rows
  gap_rows-From [] lo hi i g h = tt
  gap_rows-From (expander _ _ gap ∷ rows) lo hi i g h =
      let whole : to_u32 i ≡ i = ground arith in
      rw whole ((g.0, omega arith, gap_rows-From rows (gap + 1) hi (i + 1) g.1 (omega arith)))
  gap_rows-From (hunk_header_row _ ∷ rows) lo hi i g h =
      From-lower (gap_rows (i + 1) rows) lo i (i + 1) (omega arith)
        (gap_rows-From rows lo hi (i + 1) g (omega arith))
  gap_rows-From (context _ _ ∷ rows) lo hi i g h =
      From-lower (gap_rows (i + 1) rows) lo i (i + 1) (omega arith)
        (gap_rows-From rows lo hi (i + 1) g (omega arith))
  gap_rows-From (removed _ ∷ rows) lo hi i g h =
      From-lower (gap_rows (i + 1) rows) lo i (i + 1) (omega arith)
        (gap_rows-From rows lo hi (i + 1) g (omega arith))
  gap_rows-From (added _ ∷ rows) lo hi i g h =
      From-lower (gap_rows (i + 1) rows) lo i (i + 1) (omega arith)
        (gap_rows-From rows lo hi (i + 1) g (omega arith))
  gap_rows-From (modified _ _ ∷ rows) lo hi i g h =
      From-lower (gap_rows (i + 1) rows) lo i (i + 1) (omega arith)
        (gap_rows-From rows lo hi (i + 1) g (omega arith))
  gap_rows-From (whitespace_only ∷ rows) lo hi i g h =
      From-lower (gap_rows (i + 1) rows) lo i (i + 1) (omega arith)
        (gap_rows-From rows lo hi (i + 1) g (omega arith))

From-Names : (rs : List GapRow) (lo i k g : ℕ) → From lo i rs → Names k g rs → i ≤ k
From-Names [] lo i k g f n = absurd n
From-Names (r ∷ rs) lo i k g f (inl n) = omega (arith, f.1, n.0)
From-Names (r ∷ rs) lo i k g f (inr n) =
    omega (arith, f.1, From-Names rs (r.gap + 1) (r.row + 1) k g f.2 n)

module _ {S : Type 0} where
  -- The rows behind row `i` do not name it.
  behind :
      (rows : List (Row S)) (lo hi i p g : ℕ)
      → Gapped lo hi rows
      → i + 1 + length rows < u32_mod
      → p ≡ i
      → Names p g (gap_rows (i + 1) rows)
      → ⊥
  behind rows lo hi i p g gaps h e n = omega (
    arith,
    From-Names (gap_rows (i + 1) rows) lo (i + 1) p g
        (gap_rows-From rows lo hi (i + 1) gaps (omega arith)) n,
  )

  gap_rows-Names :
      (rows : List (Row S)) (lo hi i k p g : ℕ)
      → Gapped lo hi rows
      → i + length rows < u32_mod
      → p ≡ i + k
      → Names p g (gap_rows i rows) ↔ IsExpander rows k g
  unfolding gap_rows
  gap_rows-Names [] lo hi i k p g gaps h e = (λ n. n, λ n. n)
  gap_rows-Names (expander _ _ gap ∷ rows) lo hi i zero p g gaps h e =
      let whole : to_u32 i ≡ i = ground arith in
      (
        λ n. elim n [
          | inl here ↦ here.1
          | inr later ↦
              absurd (behind rows (gap + 1) hi i p g gaps.1 (omega arith) (omega arith) later)
        ],
        λ same. inl (whole ∙ omega arith, same),
      )
  gap_rows-Names (expander _ _ gap ∷ rows) lo hi i (suc k) p g gaps h e =
      let whole : to_u32 i ≡ i = ground arith in
      let rest =
        gap_rows-Names rows (gap + 1) hi (i + 1) k p g gaps.1 (omega arith) (omega arith) in
      (
        λ n. elim n [ inl here ↦ absurd (omega (arith, here.0, whole)) | inr later ↦ rest.0 later ],
        λ there. inr (rest.1 there),
      )
  gap_rows-Names (hunk_header_row _ ∷ rows) lo hi i zero p g gaps h e =
      (behind rows lo hi i p g gaps (omega arith) (omega arith), λ n. absurd n)
  gap_rows-Names (hunk_header_row _ ∷ rows) lo hi i (suc k) p g gaps h e =
      gap_rows-Names rows lo hi (i + 1) k p g gaps (omega arith) (omega arith)
  gap_rows-Names (context _ _ ∷ rows) lo hi i zero p g gaps h e =
      (behind rows lo hi i p g gaps (omega arith) (omega arith), λ n. absurd n)
  gap_rows-Names (context _ _ ∷ rows) lo hi i (suc k) p g gaps h e =
      gap_rows-Names rows lo hi (i + 1) k p g gaps (omega arith) (omega arith)
  gap_rows-Names (removed _ ∷ rows) lo hi i zero p g gaps h e =
      (behind rows lo hi i p g gaps (omega arith) (omega arith), λ n. absurd n)
  gap_rows-Names (removed _ ∷ rows) lo hi i (suc k) p g gaps h e =
      gap_rows-Names rows lo hi (i + 1) k p g gaps (omega arith) (omega arith)
  gap_rows-Names (added _ ∷ rows) lo hi i zero p g gaps h e =
      (behind rows lo hi i p g gaps (omega arith) (omega arith), λ n. absurd n)
  gap_rows-Names (added _ ∷ rows) lo hi i (suc k) p g gaps h e =
      gap_rows-Names rows lo hi (i + 1) k p g gaps (omega arith) (omega arith)
  gap_rows-Names (modified _ _ ∷ rows) lo hi i zero p g gaps h e =
      (behind rows lo hi i p g gaps (omega arith) (omega arith), λ n. absurd n)
  gap_rows-Names (modified _ _ ∷ rows) lo hi i (suc k) p g gaps h e =
      gap_rows-Names rows lo hi (i + 1) k p g gaps (omega arith) (omega arith)
  gap_rows-Names (whitespace_only ∷ rows) lo hi i zero p g gaps h e =
      (behind rows lo hi i p g gaps (omega arith) (omega arith), λ n. absurd n)
  gap_rows-Names (whitespace_only ∷ rows) lo hi i (suc k) p g gaps h e =
      gap_rows-Names rows lo hi (i + 1) k p g gaps (omega arith) (omega arith)

  -- Rows with ascending gaps, fewer than 2^32 of them: the table is not the empty default. Its gaps
  -- and rows ascend, and it has the row `k` for the gap `g` exactly if row `k` is an expander of `g`.
  pub gaps_of-IsExpander :
      (rows : List (Row S)) (hi : ℕ)
      → Gapped 0 hi rows
      → length rows < u32_mod
      → TableAscends (gaps_of rows) × ((k g : ℕ) → Names k g (gaps_of rows) ↔ IsExpander rows k g)
  unfolding gaps_of
  gaps_of-IsExpander rows hi gaps h =
      let ascends =
        From-TableAscends (gap_rows 0 rows) 0 0 (gap_rows-From rows 0 hi 0 gaps (omega arith)) in
      rw (gaps_of, (gap_table-TableAscends (gap_rows 0 rows)).1 ascends)
        ((ascends, λ k g. gap_rows-Names rows 0 hi 0 k k g gaps (omega arith) (omega arith)))
