-- ===== src/Review/Render/Rows/GapOrder.antt =====
-- render/mod.rs, `build_rows`: the gaps of the expanders of the rows ascend.
use nits.Prelude.{
  ℕ, zero, suc, ◌+◌, ◌-◌, ◌≤◌, ◌<◌, arith, ◌==◌, if◌then◌else◌, min, List, [], ◌∷◌, ◌++◌, length,
}
use nits.Protocol.Lines.{u32_mod, ColRange}
use nits.Protocol.Domain.{Text}
use nits.Protocol.Gaps.{up_dir, down_dir, both_dirs, GapExpansion, of}
use nits.Review.Anchor.{Hunk}
use nits.Review.Render.Lines.{Line}
use nits.Review.Render.Rows.{hunk_header_row, hunk_header, Block}
use nits.Review.Render.Rows.Layout.{group_from, windows_from, blocks_of}
use nits.Review.Render.Rows.Emit.{
  expander_rows, emit_context, emit_modified, emit_removed, emit_added, emit_hunk, emit_hunks,
  emit_block, emit_blocks, unchanged_rows, build_rows,
}
use nits.Review.Render.Rows.Gapped.{
  Gapped, Gapped-append, expander_rows-Gapped, Indexed, Indexed-le, length-group_from,
  blocks_of-Indexed,
}

module _ {S : Type 0} (changed_ranges : Text → Text → List ColRange × List ColRange)
    (old new : List Line) (old_spans new_spans : List (List S)) where
  emit_context-Gapped :
      (count o n lo : ℕ)
      → Gapped lo lo (emit_context changed_ranges old new old_spans new_spans o n count)
  unfolding emit_context
  emit_context-Gapped zero o n lo = omega arith
  emit_context-Gapped (suc count) o n lo = emit_context-Gapped count (o + 1) (n + 1) lo

  emit_modified-Gapped :
      (count o n lo : ℕ)
      → Gapped lo lo (emit_modified changed_ranges old new old_spans new_spans o n count)
  unfolding emit_modified
  emit_modified-Gapped zero o n lo = omega arith
  emit_modified-Gapped (suc count) o n lo = emit_modified-Gapped count (o + 1) (n + 1) lo

  emit_removed-Gapped :
      (count o lo : ℕ)
      → Gapped lo lo (emit_removed changed_ranges old new old_spans new_spans o count)
  unfolding emit_removed
  emit_removed-Gapped zero o lo = omega arith
  emit_removed-Gapped (suc count) o lo = emit_removed-Gapped count (o + 1) lo

  emit_added-Gapped :
      (count n lo : ℕ)
      → Gapped lo lo (emit_added changed_ranges old new old_spans new_spans n count)
  unfolding emit_added
  emit_added-Gapped zero n lo = omega arith
  emit_added-Gapped (suc count) n lo = emit_added-Gapped count (n + 1) lo

  emit_hunk-Gapped :
      (h : Hunk) (lo : ℕ) → Gapped lo lo (emit_hunk changed_ranges old new old_spans new_spans h)
  unfolding emit_hunk
  emit_hunk-Gapped h lo =
      let p = min (h.before_end - h.before_start) (h.after_end - h.after_start) in
      let a =
        emit_modified changed_ranges old new old_spans new_spans h.before_start h.after_start p in
      let b =
        emit_removed changed_ranges old new old_spans new_spans (h.before_start + p)
          (h.before_end - h.before_start - p) in
      let c =
        emit_added changed_ranges old new old_spans new_spans (h.after_start + p)
          (h.after_end - h.after_start - p) in
      Gapped-append a (b ++ c) lo lo lo (emit_modified-Gapped p h.before_start h.after_start lo) (
        Gapped-append b c lo lo lo
          (emit_removed-Gapped (h.before_end - h.before_start - p) (h.before_start + p) lo)
          (emit_added-Gapped (h.after_end - h.after_start - p) (h.after_start + p) lo))

  emit_hunks-Gapped :
      (hs : List Hunk) (end_o co cn lo : ℕ)
      → Gapped lo lo (emit_hunks changed_ranges old new old_spans new_spans end_o co cn hs)
  unfolding emit_hunks
  emit_hunks-Gapped [] end_o co cn lo = emit_context-Gapped (end_o - co) co cn lo
  emit_hunks-Gapped (h ∷ hs) end_o co cn lo =
      let ctx =
        emit_context changed_ranges old new old_spans new_spans co cn (h.before_start - co) in
      let change = emit_hunk changed_ranges old new old_spans new_spans h in
      let rest =
        emit_hunks changed_ranges old new old_spans new_spans end_o h.before_end h.after_end hs in
      Gapped-append ctx (change ++ rest) lo lo lo
        (emit_context-Gapped (h.before_start - co) co cn lo)
        (Gapped-append change rest lo lo lo (emit_hunk-Gapped h lo)
          (emit_hunks-Gapped hs end_o h.before_end h.after_end lo))

  emit_block-Gapped :
      (oi lo : ℕ) (b : Block)
      → lo ≤ b.index
      → b.index < u32_mod
      → Gapped lo (b.index + 1) (emit_block changed_ranges old new old_spans new_spans oi b)
  unfolding emit_block
  emit_block-Gapped oi lo b h small =
      let dir = if b.index == 0 then up_dir else both_dirs in
      Gapped-append (expander_rows (b.head.start_o - oi) dir b.index)
        (hunk_header_row (
            hunk_header b.head.start_o (b.tail.end_o - b.head.start_o) b.head.start_n
              (b.tail.end_n - b.head.start_n))
          ∷ emit_hunks changed_ranges old new old_spans new_spans b.tail.end_o b.head.start_o
              b.head.start_n (b.first ∷ b.rest))
        lo (b.index + 1) (b.index + 1)
        (expander_rows-Gapped S (b.head.start_o - oi) lo b.index dir h small)
        (emit_hunks-Gapped (b.first ∷ b.rest) b.tail.end_o b.head.start_o b.head.start_n
          (b.index + 1))

  emit_blocks-Gapped :
      (groups oi lo : ℕ) (bs : List Block)
      → groups < u32_mod
      → Indexed lo groups bs
      → Gapped lo (groups + 1) (emit_blocks changed_ranges old new old_spans new_spans groups oi bs)
  unfolding emit_blocks
  emit_blocks-Gapped groups oi lo [] small i =
      expander_rows-Gapped S (length old - oi) lo groups down_dir i small
  emit_blocks-Gapped groups oi lo (b ∷ bs) small i =
      Gapped-append (emit_block changed_ranges old new old_spans new_spans oi b)
        (emit_blocks changed_ranges old new old_spans new_spans groups b.tail.end_o bs) lo
        (b.index + 1) (groups + 1)
        (emit_block-Gapped oi lo b i.0 (omega (arith, Indexed-le bs (b.index + 1) groups i.1)))
        (emit_blocks-Gapped groups b.tail.end_o (b.index + 1) bs small i.1)

  -- The rows of a file of less than 2^32 - 1 hunks.
  pub build_rows-Gapped :
      (hs : List Hunk) (ctx : ℕ) (expanded : List GapExpansion)
      → suc (length hs) < u32_mod
      → (hi : ℕ) × Gapped 0 hi
          (build_rows changed_ranges old new old_spans new_spans hs ctx expanded).0
  unfolding build_rows unchanged_rows
  build_rows-Gapped [] ctx expanded small =
      let reveal = of expanded 0 in
      let shown = min (reveal.0 + reveal.1) (length old) in
      let head = min reveal.1 shown in
      let tail = shown - head in
      let from = length old - tail in
      let top = emit_context changed_ranges old new old_spans new_spans 0 0 head in
      let middle = expander_rows (length old - shown) both_dirs 0 in
      let bottom = emit_context changed_ranges old new old_spans new_spans from from tail in
      (
        1,
        Gapped-append top (middle ++ bottom) 0 0 1 (emit_context-Gapped head 0 0 0) (
            Gapped-append middle bottom 0 1 1
              (expander_rows-Gapped S (length old - shown) 0 0 both_dirs (omega arith)
                (omega arith))
              (emit_context-Gapped tail from from 1)),
      )
  build_rows-Gapped (h ∷ hs) ctx expanded small =
      let groups = group_from ctx (record { first = h; rest = [] }) hs in
      (
        length groups + 1,
        emit_blocks-Gapped (length groups) 0 0
            (blocks_of (windows_from (length old) ctx expanded 0 0 0 groups))
            (omega (arith, length-group_from ctx hs (record { first = h; rest = [] })))
            (blocks_of-Indexed (length old) ctx expanded groups),
      )
