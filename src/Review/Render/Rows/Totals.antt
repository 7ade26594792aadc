-- ===== src/Review/Render/Rows/Totals.antt =====
-- render/mod.rs, `build_rows`: the rows have as many changed lines as are counted.
use mathlib.Core.Path.{ap, subst}
use nits.Prelude.{
  ℕ, zero, suc, ◌+◌, ◌-◌, ◌≤◌, ◌<◌, ◌≡◌, refl, sym, ◌∙◌, inl, inr, arith, ◌==◌, Bool-cases,
  if◌then◌else◌, min, List, [], ◌∷◌, ◌++◌, length,
}
use nits.Protocol.Lines.{u32_mod, ColRange}
use nits.Protocol.Domain.{Text}
use nits.Protocol.Gaps.{ExpandDir, up_dir, down_dir, both_dirs, GapExpansion, of}
use nits.Review.Anchor.{Hunk}
use nits.Review.Render.Lines.{Line}
use nits.Review.Render.Rows.{Group, hunk_header_row, hunk_header, Block}
use nits.Review.Render.Rows.Layout.{group_from, windows_from, blocks_of}
use nits.Review.Render.Rows.Emit.{
  expander_rows, emit_context, emit_modified, emit_removed, emit_added, emit_hunk, emit_hunks,
  emit_block, emit_blocks, unchanged_rows, build_rows,
}
use nits.Review.Render.Rows.Laid.{Valid, block_hunks, blocks_of-Laid, group_hunks-group_from}
use nits.Review.Render.Rows.Whole.{IsHunks, IsHunks-Valid}
use nits.Review.Render.Rows.Counts.{
  deleted_rows, added_rows, Counts, Counts-append, deleted_lines, added_lines, deleted_lines-append,
  added_lines-append, deletions_from_lem, additions_from_lem,
}

-- The hunks of a diff have no more lines than the files.
hunk_lines :
    {A : Type 0} (old new : List Line) (key : Line → A) (hs : List Hunk) (i j : ℕ)
    → Valid old new key i j hs
    → (deleted_lines hs + i ≤ length old) × (added_lines hs + j ≤ length new)
hunk_lines old new key [] i j v = (omega (arith, v.0), omega (arith, v.0, v.1))
hunk_lines old new key (h ∷ hs) i j v =
    let rest = hunk_lines old new key hs h.before_end h.after_end v.7 in
    (omega (arith, v.0, v.2, rest.0), omega (arith, v.0, v.1, v.3, rest.1))

expander_rows-Counts :
    (S : Type 0) (hidden gap : ℕ) (dir : ExpandDir)
    → Counts {S = S} 0 0 (expander_rows {S = S} hidden dir gap)
expander_rows-Counts S hidden gap dir = elim (Bool-cases (hidden == 0)) [
  | inl none_hidden ↦ rw none_hidden ((refl, refl))
  | inr some_hidden ↦ rw some_hidden ((refl, refl))
]

module _ {S : Type 0} (changed_ranges : Text → Text → List ColRange × List ColRange)
    (old new : List Line) (old_spans new_spans : List (List S)) where
  emit_context-Counts :
      (count o n : ℕ)
      → Counts 0 0 (emit_context changed_ranges old new old_spans new_spans o n count)
  unfolding emit_context
  emit_context-Counts zero o n = (refl, refl)
  emit_context-Counts (suc count) o n = emit_context-Counts count (o + 1) (n + 1)

  emit_modified-Counts :
      (count o n : ℕ)
      → Counts count count (emit_modified changed_ranges old new old_spans new_spans o n count)
  unfolding emit_modified
  emit_modified-Counts zero o n = (refl, refl)
  emit_modified-Counts (suc count) o n =
      let rest = emit_modified-Counts count (o + 1) (n + 1) in
      (omega (arith, rest.0), omega (arith, rest.1))

  emit_removed-Counts :
      (count o : ℕ)
      → Counts count 0 (emit_removed changed_ranges old new old_spans new_spans o count)
  unfolding emit_removed
  emit_removed-Counts zero o = (refl, refl)
  emit_removed-Counts (suc count) o =
      let rest = emit_removed-Counts count (o + 1) in (omega (arith, rest.0), rest.1)

  emit_added-Counts :
      (count n : ℕ) → Counts 0 count (emit_added changed_ranges old new old_spans new_spans n count)
  unfolding emit_added
  emit_added-Counts zero n = (refl, refl)
  emit_added-Counts (suc count) n =
      let rest = emit_added-Counts count (n + 1) in (rest.0, omega (arith, rest.1))

  emit_hunk-Counts :
      (h : Hunk)
      → Counts
          (h.before_end - h.before_start)
          (h.after_end - h.after_start)
          (emit_hunk changed_ranges old new old_spans new_spans h)
  unfolding emit_hunk
  emit_hunk-Counts h =
      let d = h.before_end - h.before_start in
      let a = h.after_end - h.after_start in
      let p = min d a in
      let rows =
        emit_removed changed_ranges old new old_spans new_spans (h.before_start + p) (d - p) in
      let rows' =
        emit_added changed_ranges old new old_spans new_spans (h.after_start + p) (a - p) in
      Counts-append
        (emit_modified changed_ranges old new old_spans new_spans h.before_start h.after_start p)
        (rows ++ rows') p p (d - p) (a - p) d a (omega arith) (omega arith)
        (emit_modified-Counts p h.before_start h.after_start)
        (Counts-append rows rows' (d - p) 0 0 (a - p) (d - p) (a - p) (omega arith) (omega arith)
          (emit_removed-Counts (d - p) (h.before_start + p))
          (emit_added-Counts (a - p) (h.after_start + p)))

  emit_hunks-Counts :
      (hs : List Hunk) (end_o co cn : ℕ)
      → Counts
          (deleted_lines hs)
          (added_lines hs)
          (emit_hunks changed_ranges old new old_spans new_spans end_o co cn hs)
  unfolding emit_hunks
  emit_hunks-Counts [] end_o co cn = emit_context-Counts (end_o - co) co cn
  emit_hunks-Counts (h ∷ hs) end_o co cn =
      let d = deleted_lines (h ∷ hs) in
      let a = added_lines (h ∷ hs) in
      let change = emit_hunk changed_ranges old new old_spans new_spans h in
      let rest =
        emit_hunks changed_ranges old new old_spans new_spans end_o h.before_end h.after_end hs in
      Counts-append
        (emit_context changed_ranges old new old_spans new_spans co cn (h.before_start - co))
        (change ++ rest) 0 0 d a d a (omega arith) (omega arith)
        (emit_context-Counts (h.before_start - co) co cn)
        (Counts-append change rest (h.before_end - h.before_start) (h.after_end - h.after_start)
          (deleted_lines hs) (added_lines hs) d a refl refl (emit_hunk-Counts h)
          (emit_hunks-Counts hs end_o h.before_end h.after_end))

  emit_block-Counts :
      (oi : ℕ) (b : Block)
      → Counts
          (deleted_lines (b.first ∷ b.rest))
          (added_lines (b.first ∷ b.rest))
          (emit_block changed_ranges old new old_spans new_spans oi b)
  unfolding emit_block
  emit_block-Counts oi b =
      let d = deleted_lines (b.first ∷ b.rest) in
      let a = added_lines (b.first ∷ b.rest) in
      let dir = if b.index == 0 then up_dir else both_dirs in
      Counts-append (expander_rows (b.head.start_o - oi) dir b.index)
        (hunk_header_row (
            hunk_header b.head.start_o (b.tail.end_o - b.head.start_o) b.head.start_n
              (b.tail.end_n - b.head.start_n))
          ∷ emit_hunks changed_ranges old new old_spans new_spans b.tail.end_o b.head.start_o
              b.head.start_n (b.first ∷ b.rest))
        0 0 d a d a (omega arith) (omega arith)
        (expander_rows-Counts S (b.head.start_o - oi) b.index dir)
        (emit_hunks-Counts (b.first ∷ b.rest) b.tail.end_o b.head.start_o b.head.start_n)

  emit_blocks-Counts :
      (groups oi : ℕ) (bs : List Block)
      → Counts
          (deleted_lines (block_hunks bs))
          (added_lines (block_hunks bs))
          (emit_blocks changed_ranges old new old_spans new_spans groups oi bs)
  unfolding emit_blocks
  emit_blocks-Counts groups oi [] = expander_rows-Counts S (length old - oi) groups down_dir
  emit_blocks-Counts groups oi (b ∷ bs) =
      let hunks = b.first ∷ b.rest in
      let ks = block_hunks bs in
      Counts-append (emit_block changed_ranges old new old_spans new_spans oi b)
        (emit_blocks changed_ranges old new old_spans new_spans groups b.tail.end_o bs)
        (deleted_lines hunks) (added_lines hunks) (deleted_lines ks) (added_lines ks)
        (deleted_lines (hunks ++ ks)) (added_lines (hunks ++ ks))
        (sym (deleted_lines-append hunks ks)) (sym (added_lines-append hunks ks))
        (emit_block-Counts oi b) (emit_blocks-Counts groups b.tail.end_o bs)

  unchanged_rows-Counts :
      (expanded : List GapExpansion)
      → Counts 0 0 (unchanged_rows changed_ranges old new old_spans new_spans expanded)
  unfolding unchanged_rows
  unchanged_rows-Counts expanded =
      let reveal = of expanded 0 in
      let shown = min (reveal.0 + reveal.1) (length old) in
      let head = min reveal.1 shown in
      let tail = shown - head in
      let from = length old - tail in
      let middle = expander_rows (length old - shown) both_dirs 0 in
      let bottom = emit_context changed_ranges old new old_spans new_spans from from tail in
      Counts-append (emit_context changed_ranges old new old_spans new_spans 0 0 head)
        (middle ++ bottom) 0 0 0 0 0 0 (omega arith) (omega arith) (emit_context-Counts head 0 0)
        (Counts-append middle bottom 0 0 0 0 0 0 (omega arith) (omega arith)
          (expander_rows-Counts S (length old - shown) 0 both_dirs)
          (emit_context-Counts tail from from))

  -- For the hunks of a diff of two files of less than 2^32 lines, the additions that `build_rows`
  -- counts are the added and modified rows that it returns, and the deletions the removed and
  -- modified ones.
  pub build_rows-Counts :
      {A : Type 0} (key : Line → A) (hs : List Hunk) (ctx : ℕ) (expanded : List GapExpansion)
      → length old < u32_mod
      → length new < u32_mod
      → IsHunks old new key hs
      → let built = build_rows changed_ranges old new old_spans new_spans hs ctx expanded in
        (added_rows built.0 ≡ built.1) × (deleted_rows built.0 ≡ built.2)
  unfolding build_rows
  build_rows-Counts key [] ctx expanded so sn d =
      ((unchanged_rows-Counts expanded).1, (unchanged_rows-Counts expanded).0)
  build_rows-Counts key (h ∷ hs) ctx expanded so sn d =
      let g : Group = record { first = h; rest = [] } in
      let groups = group_from ctx g hs in
      let blocks = blocks_of (windows_from (length old) ctx expanded 0 0 0 groups) in
      let grouped = group_hunks-group_from ctx hs g in
      let v = IsHunks-Valid old new key (h ∷ hs) d in
      let small = hunk_lines old new key (h ∷ hs) 0 0 v in
      let laid =
        blocks_of-Laid old new key ctx expanded groups
          (subst (λ ks. Valid old new key 0 0 ks) (sym grouped) v) in
      let whole : block_hunks blocks ≡ h ∷ hs = laid.1 ∙ grouped in
      let counts = emit_blocks-Counts (length groups) 0 blocks in
      (
        counts.1
            ∙ ap (λ ks. added_lines ks) whole
            ∙ omega (arith, additions_from_lem 0 (h ∷ hs) (omega (arith, small.1))),
        counts.0
            ∙ ap (λ ks. deleted_lines ks) whole
            ∙ omega (arith, deletions_from_lem 0 (h ∷ hs) (omega (arith, small.0))),
      )
