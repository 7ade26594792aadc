-- ===== src/Review/Render/Rows/Layout.antt =====
-- render/mod.rs, `build_rows`: which hunks are shown together, and what is shown around them.
use nits.Prelude.{ℕ, ◌+◌, ◌-◌, ◌*◌, List, [], ◌∷◌, ◌++◌, leb, min, max, true, false}
use nits.Protocol.Gaps.{GapExpansion, of}
use nits.Review.Anchor.{Hunk}
use nits.Review.Render.Rows.{to_u32, Group, Window, Block, hunks_of, group_last}

abbrev pub add_hunk : Group → Hunk → Group
add_hunk g h = record g { rest = g.rest ++ h ∷ [] }

-- The loop over the hunks after the first, with the last group so far.
unfoldable pub group_from : ℕ → Group → List Hunk → List Group
group_from ctx g [] = g ∷ []
group_from ctx g (h ∷ hs) = elim (leb (h.before_start - (group_last g).before_end) (2 * ctx)) [
  | true ↦ group_from ctx (add_hunk g h) hs
  | false ↦ g ∷ group_from ctx (record { first = h; rest = [] }) hs
]

-- Where the next group's first change is, or the end of the old side.
abbrev pub next_change : ℕ → List Group → ℕ
next_change len [] = len
next_change len (g ∷ gs) = g.first.before_start

unfoldable pub window_of : ℕ → ℕ → List GapExpansion → ℕ → ℕ → ℕ → Group → List Group → Window
window_of len ctx expanded index oi ni g later =
    let last = group_last g in
    let lead = ctx + (of expanded (to_u32 index)).0 in
    let start_o = max (g.first.before_start - lead) oi in
    let trail = ctx + (of expanded (to_u32 (index + 1))).1 in
    let end_o = min (min (last.before_end + trail) len) (next_change len later) in
    record {
      start_o = start_o;
      end_o = end_o;
      start_n = ni + (start_o - oi);
      end_n = last.after_end + (end_o - last.before_end);
    }

-- The loop over the groups: each with its window.
unfoldable pub windows_from :
    ℕ → ℕ → List GapExpansion → ℕ → ℕ → ℕ → List Group → List (Group × Window)
unfolding window_of
windows_from len ctx expanded index oi ni [] = []
windows_from len ctx expanded index oi ni (g ∷ gs) =
    let w = window_of len ctx expanded index oi ni g gs in
    (g, w) ∷ windows_from len ctx expanded (index + 1) w.end_o w.end_n gs

abbrev pub block_of : ℕ → Group → Window → Block
block_of index g w = record { index = index; head = w; first = g.first; rest = g.rest; tail = w }

abbrev pub add_group : Block → Group → Window → Block
add_group b g w = record b { rest = b.rest ++ hunks_of g; tail = w }

-- The loop that joins groups whose windows meet, with the last block so far.
unfoldable pub blocks_from : ℕ → Block → List (Group × Window) → List Block
blocks_from index b [] = b ∷ []
blocks_from index b ((g, w) ∷ gws) = elim (leb w.start_o b.tail.end_o) [
  | true ↦ blocks_from (index + 1) (add_group b g w) gws
  | false ↦ b ∷ blocks_from (index + 1) (block_of index g w) gws
]

unfoldable pub blocks_of : List (Group × Window) → List Block
unfolding blocks_from
blocks_of [] = []
blocks_of ((g, w) ∷ gws) = blocks_from 1 (block_of 0 g w) gws
