-- ===== src/Review/Render/Rows/Faithful.antt =====
-- render/mod.rs, `build_rows`: the rows of a diff show both files whole.
use nits.Protocol.Gaps.{up_dir, down_dir, both_dirs}
use nits.Prelude.{
  if◌then◌else◌, ◌==◌, ℕ, ◌+◌, ◌-◌, ◌≤◌, ◌<◌, ◌≡◌, arith, List, [], ◌∷◌, ◌++◌, length,
}
use nits.Protocol.Lines.{u32_mod, ColRange}
use nits.Protocol.Domain.{Text}
use nits.Review.Anchor.{Hunk}
use nits.Review.Render.Lines.{Line}
use nits.Review.Render.Rows.{hunk_header, hunk_header_row, Row, Block, last_of}
use nits.Review.Render.Rows.Emit.{
  expander_rows, emit_context, emit_hunk, emit_hunks, emit_block, emit_blocks,
}
use nits.Review.Render.Rows.Shows.{
  expander_rows-Shows, emit_hunk-Shows, emit_context-Shows, Equal, Equal-part, Shows, Shows-append,
}
use nits.Review.Render.Rows.Laid.{Valid, next_hunk, Laid, block_hunks, Valid-rest, Valid-rebase}

module _ {A S : Type 0} (old new : List Line) (key : Line → A)
    (changed_ranges : Text → Text → List ColRange × List ColRange)
    (old_spans new_spans : List (List S)) where
  Valid-Equal :
      (i j : ℕ) (hs : List Hunk)
      → Valid old new key i j hs
      → Equal old new key i j (next_hunk (length old) hs - i)
  Valid-Equal i j [] v = v.2
  Valid-Equal i j (h ∷ hs) v = v.6

  -- The lines before the next change are inside the new side too.
  Valid-inside :
      (i j : ℕ) (hs : List Hunk)
      → Valid old new key i j hs
      → next_hunk (length old) hs + j ≤ length new + i
  Valid-inside i j [] v = omega (arith, v.1)
  Valid-inside i j (h ∷ hs) v = omega (arith, v.1, v.3, v.5)

  Valid-old :
      (i j : ℕ) (hs : List Hunk) → Valid old new key i j hs → next_hunk (length old) hs ≤ length old
  Valid-old i j [] v = omega arith
  Valid-old i j (h ∷ hs) v = omega (arith, v.2, v.4)

  -- Context up to a place before the next change.
  context-Shows :
      (i j i' j' : ℕ) (hs : List Hunk)
      → i ≤ i'
      → i' ≤ next_hunk (length old) hs
      → i' + j ≡ j' + i
      → Valid old new key i j hs
      → Shows old new key
          (emit_context changed_ranges old new old_spans new_spans i j (i' - i))
          i
          j
          i'
          j'
  context-Shows i j i' j' hs h hn e v =
      emit_context-Shows old new key changed_ranges old_spans new_spans (i' - i) i j i' j'
        (omega arith) (omega arith) (omega (arith, Valid-old i j hs v))
        (omega (arith, Valid-inside i j hs v))
        (Equal-part old new key i j (next_hunk (length old) hs - i) i j (i' - i) (omega arith)
          (omega arith) (omega arith) (Valid-Equal i j hs v))

  -- Context up to a change, the change, and what is behind it.
  change-Shows :
      (i j i' j' : ℕ) (h : Hunk) (hs : List Hunk) (rows : List (Row S))
      → Valid old new key i j (h ∷ hs)
      → Shows old new key rows h.before_end h.after_end i' j'
      → Shows old new key
          (emit_context changed_ranges old new old_spans new_spans i j (h.before_start - i)
            ++ (emit_hunk changed_ranges old new old_spans new_spans h ++ rows))
          i
          j
          i'
          j'
  change-Shows i j i' j' h hs rows v rest =
      let ctx = emit_context changed_ranges old new old_spans new_spans i j (h.before_start - i) in
      let change = emit_hunk changed_ranges old new old_spans new_spans h in
      Shows-append old new key ctx (change ++ rows) i j h.before_start h.after_start i' j'
        (context-Shows i j h.before_start h.after_start (h ∷ hs) v.0 (omega arith) v.1 v)
        (Shows-append old new key change rows h.before_start h.after_start h.before_end h.after_end
          i' j' (emit_hunk-Shows old new key changed_ranges old_spans new_spans h v.2 v.3 v.4 v.5)
          rest)

  emit_hunks-Shows :
      (h : Hunk) (hs ks : List Hunk) (i j i' j' : ℕ)
      → Valid old new key i j (h ∷ (hs ++ ks))
      → (last_of h hs).before_end ≤ i'
      → i' + (last_of h hs).after_end ≡ j' + (last_of h hs).before_end
      → i' ≤ next_hunk (length old) ks
      → Shows old new key
          (emit_hunks changed_ranges old new old_spans new_spans i' i j (h ∷ hs))
          i
          j
          i'
          j'
  unfolding emit_hunks
  emit_hunks-Shows h [] ks i j i' j' v after e before =
      change-Shows i j i' j' h ks
        (emit_context changed_ranges old new old_spans new_spans h.before_end h.after_end
          (i' - h.before_end))
        v (context-Shows h.before_end h.after_end i' j' ks after before e v.7)
  emit_hunks-Shows h (x ∷ hs) ks i j i' j' v after e before =
      change-Shows i j i' j' h (x ∷ (hs ++ ks))
        (emit_hunks changed_ranges old new old_spans new_spans i' h.before_end h.after_end (x ∷ hs))
        v (emit_hunks-Shows x hs ks h.before_end h.after_end i' j' v.7 after e before)

  -- The rows of a block, from the end of the block before it.
  emit_block-Shows :
      (oi ni : ℕ) (b : Block) (ks : List Hunk)
      → length old < u32_mod
      → Valid old new key oi ni (b.first ∷ (b.rest ++ ks))
      → oi ≤ b.head.start_o
      → b.head.start_o + ni ≡ b.head.start_n + oi
      → b.head.start_o ≤ b.first.before_start
      → (last_of b.first b.rest).before_end ≤ b.tail.end_o
      → b.tail.end_o + (last_of b.first b.rest).after_end
        ≡ b.tail.end_n + (last_of b.first b.rest).before_end
      → b.tail.end_o ≤ next_hunk (length old) ks
      → Shows old new key
          (emit_block changed_ranges old new old_spans new_spans oi b)
          oi
          ni
          b.tail.end_o
          b.tail.end_n
  unfolding emit_block
  emit_block-Shows oi ni b ks small v h0 h1 h2 h3 h4 h5 =
      let hunks = b.first ∷ (b.rest ++ ks) in
      let rows =
        emit_hunks changed_ranges old new old_spans new_spans b.tail.end_o b.head.start_o
          b.head.start_n (b.first ∷ b.rest) in
      Shows-append old new key
        (expander_rows (b.head.start_o - oi) (if b.index == 0 then up_dir else both_dirs) b.index)
        (hunk_header_row (
            hunk_header b.head.start_o (b.tail.end_o - b.head.start_o) b.head.start_n
              (b.tail.end_n - b.head.start_n))
          ∷ rows)
        oi ni b.head.start_o b.head.start_n b.tail.end_o b.tail.end_n
        (expander_rows-Shows old new key changed_ranges old_spans new_spans (b.head.start_o - oi) oi
          ni b.head.start_o b.head.start_n (if b.index == 0 then up_dir else both_dirs) b.index
          (omega arith) (omega arith) (omega (arith, Valid-old oi ni hunks v, h2))
          (Equal-part old new key oi ni (b.first.before_start - oi) oi ni (b.head.start_o - oi)
            (omega arith) (omega arith) (omega arith) v.6))
        (emit_hunks-Shows b.first b.rest ks b.head.start_o b.head.start_n b.tail.end_o b.tail.end_n
          (Valid-rebase old new key hunks oi ni b.head.start_o b.head.start_n h0 h2 h1 v) h3 h4 h5)

  pub emit_blocks-Shows :
      (groups oi ni : ℕ) (bs : List Block)
      → length old < u32_mod
      → Laid old new key oi ni bs
      → Valid old new key oi ni (block_hunks bs)
      → Shows old new key
          (emit_blocks changed_ranges old new old_spans new_spans groups oi bs)
          oi
          ni
          (length old)
          (length new)
  unfolding emit_blocks
  emit_blocks-Shows groups oi ni [] small l v =
      expander_rows-Shows old new key changed_ranges old_spans new_spans (length old - oi) oi ni
        (length old) (length new) down_dir groups (omega (arith, v.0)) (omega (arith, v.0, v.1))
        (omega arith) v.2
  emit_blocks-Shows groups oi ni (b ∷ bs) small l v =
      let ks = block_hunks bs in
      let last = last_of b.first b.rest in
      let left = Valid-rest old new key b.first b.rest ks oi ni v in
      Shows-append old new key (emit_block changed_ranges old new old_spans new_spans oi b)
        (emit_blocks changed_ranges old new old_spans new_spans groups b.tail.end_o bs) oi ni
        b.tail.end_o b.tail.end_n (length old) (length new)
        (emit_block-Shows oi ni b ks small v l.0 l.1 l.2 l.3 l.4 l.5)
        (emit_blocks-Shows groups b.tail.end_o b.tail.end_n bs small l.6 (
          Valid-rebase old new key ks last.before_end last.after_end b.tail.end_o b.tail.end_n l.3
            l.5 l.4 left.1))
