-- ===== src/Review/Render/Rows/Emit.antt =====
-- render/mod.rs, `build_rows`: the rows of the blocks.
use nits.Prelude.{
  ℕ, zero, suc, ◌+◌, ◌-◌, ◌%◌, ◌==◌, if◌then◌else◌, min, List, [], ◌∷◌, ◌++◌, length,
}
use nits.Protocol.Lines.{u32_mod, ColRange}
use nits.Protocol.Domain.{Text}
use nits.Protocol.Gaps.{ExpandDir, up_dir, down_dir, both_dirs, GapExpansion, of}
use nits.Review.Anchor.{Hunk}
use nits.Review.Render.Lines.{Line}
use nits.Review.Render.Rows.{
  Row, hunk_header_row, context, removed, added, modified, expander, to_u32, line_at, hunk_header,
  Block, cell,
}
use nits.Review.Render.Rows.Layout.{group_from, windows_from, blocks_of}

-- `if hidden > 0 { rows.push(Row::Expander { … }) }`
abbrev pub expander_rows : {S : Type 0} → ℕ → ExpandDir → ℕ → List (Row S)
expander_rows hidden dir gap =
    if hidden == 0 then [] else expander (to_u32 hidden) dir (to_u32 gap) ∷ []

-- `additions` and `deletions`, counted hunk by hunk.
unfoldable pub additions_from : ℕ → List Hunk → ℕ
additions_from n [] = n
additions_from n (h ∷ hs) = additions_from ((n + to_u32 (h.after_end - h.after_start)) % u32_mod) hs

unfoldable pub deletions_from : ℕ → List Hunk → ℕ
deletions_from n [] = n
deletions_from n (h ∷ hs) =
    deletions_from ((n + to_u32 (h.before_end - h.before_start)) % u32_mod) hs

module _ {S : Type 0} (changed_ranges : Text → Text → List ColRange × List ColRange)
    (old new : List Line) (old_spans new_spans : List (List S)) where
  unfoldable pub emit_context : ℕ → ℕ → ℕ → List (Row S)
  emit_context oi ni zero = []
  emit_context oi ni (suc count) =
      context (cell oi (line_at old oi) old_spans []) (cell ni (line_at new ni) new_spans [])
      ∷ emit_context (oi + 1) (ni + 1) count

  unfoldable pub emit_modified : ℕ → ℕ → ℕ → List (Row S)
  emit_modified o n zero = []
  emit_modified o n (suc count) =
      let (lc, rc) = changed_ranges (line_at old o).text (line_at new n).text in
      modified (cell o (line_at old o) old_spans lc) (cell n (line_at new n) new_spans rc)
      ∷ emit_modified (o + 1) (n + 1) count

  unfoldable pub emit_removed : ℕ → ℕ → List (Row S)
  emit_removed o zero = []
  emit_removed o (suc count) =
      removed (cell o (line_at old o) old_spans []) ∷ emit_removed (o + 1) count

  unfoldable pub emit_added : ℕ → ℕ → List (Row S)
  emit_added n zero = []
  emit_added n (suc count) = added (cell n (line_at new n) new_spans []) ∷ emit_added (n + 1) count

  -- The rows of one hunk.
  unfoldable pub emit_hunk : Hunk → List (Row S)
  unfolding emit_modified emit_removed emit_added
  emit_hunk h =
      let removals = h.before_end - h.before_start in
      let additions = h.after_end - h.after_start in
      let paired = min removals additions in
      emit_modified h.before_start h.after_start paired
      ++ (emit_removed (h.before_start + paired) (removals - paired)
          ++ emit_added (h.after_start + paired) (additions - paired))

  -- The loops over a block's hunks, then its trailing context up to `end_o`.
  unfoldable pub emit_hunks : ℕ → ℕ → ℕ → List Hunk → List (Row S)
  unfolding emit_context emit_hunk
  emit_hunks end_o co cn [] = emit_context co cn (end_o - co)
  emit_hunks end_o co cn (h ∷ hs) =
      emit_context co cn (h.before_start - co)
      ++ (emit_hunk h ++ emit_hunks end_o h.before_end h.after_end hs)

  unfoldable pub emit_block : ℕ → Block → List (Row S)
  unfolding emit_hunks
  emit_block oi b =
      expander_rows (b.head.start_o - oi) (if b.index == 0 then up_dir else both_dirs) b.index
      ++ (hunk_header_row (
            hunk_header b.head.start_o (b.tail.end_o - b.head.start_o) b.head.start_n
              (b.tail.end_n - b.head.start_n))
          ∷ emit_hunks b.tail.end_o b.head.start_o b.head.start_n (b.first ∷ b.rest))

  -- The loop over the blocks, then the expander of the hidden tail.
  unfoldable pub emit_blocks : ℕ → ℕ → List Block → List (Row S)
  unfolding emit_block
  emit_blocks groups oi [] = expander_rows (length old - oi) down_dir groups
  emit_blocks groups oi (b ∷ bs) = emit_block oi b ++ emit_blocks groups b.tail.end_o bs

  -- The branch for no hunk: one gap, the whole file. An empty file has no row.
  unfoldable pub unchanged_rows : List GapExpansion → List (Row S)
  unfolding emit_context
  unchanged_rows expanded =
      let (up, down) = of expanded 0 in
      let shown = min (up + down) (length old) in
      let head = min down shown in
      let tail = shown - head in
      emit_context 0 0 head
      ++ (expander_rows (length old - shown) both_dirs 0
          ++ emit_context (length old - tail) (length old - tail) tail)

  unfoldable pub build_rows : List Hunk → ℕ → List GapExpansion → List (Row S) × ℕ × ℕ
  unfolding unchanged_rows emit_blocks group_from windows_from blocks_of additions_from
      deletions_from
  build_rows [] ctx expanded = (unchanged_rows expanded, 0, 0)
  build_rows (h ∷ hs) ctx expanded =
      let groups = group_from ctx (record { first = h; rest = [] }) hs in
      let windows = windows_from (length old) ctx expanded 0 0 0 groups in
      (
        emit_blocks (length groups) 0 (blocks_of windows),
        additions_from 0 (h ∷ hs),
        deletions_from 0 (h ∷ hs),
      )
