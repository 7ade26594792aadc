-- ===== src/Review/Render/Rows/Whole.antt =====
-- render/mod.rs: `build_rows` shows both files whole.
use mathlib.Core.Path.{subst}
use nits.Review.Render.Rows.Laid.{Valid, blocks_of-Laid, group_hunks-group_from}
use nits.Review.Render.Rows.Faithful.{emit_blocks-Shows}
use nits.Prelude.{
  length-map, ℕ, ◌+◌, ◌-◌, ◌≤◌, ◌<◌, ◌≡◌, sym, arith, min, List, [], ◌∷◌, ◌++◌, length, All, map,
}
use nits.Protocol.Lines.{u32_mod, ColRange}
use nits.Protocol.Domain.{Text}
use nits.Protocol.Gaps.{both_dirs, GapExpansion, of}
use nits.Review.Anchor.{Hunk}
use nits.Review.Diff.{IsDiff}
use nits.Review.Render.Lines.{Line}
use nits.Review.Render.Rows.Emit.{expander_rows, emit_context, unchanged_rows, build_rows}
use nits.Review.Render.Rows.Layout.{group_from, windows_from, blocks_of}
use nits.Review.Render.Rows.Shows.{
  expander_rows-Shows, emit_context-Shows, Equal, Equal-part, Shows, Shows-append,
  emit_context-Shows, expander_rows-Shows,
}

module _ {A : Type 0} (old new : List Line) (key : Line → A) where
  -- A diff of the lines' keys, with its hunks inside the old side.
  pub record IsHunks (hs : List Hunk) : Type 0 where
    pub diff : IsDiff (map key old) (map key new) 0 0 hs
    pub inside : All (λ h. h.before_end ≤ length old) hs

  -- A diff's hunks are inside the new side because its last unchanged rows are.
  IsDiff-Valid :
      (hs : List Hunk) (i j : ℕ)
      → i ≤ length old
      → All (λ h. h.before_end ≤ length old) hs
      → IsDiff (map key old) (map key new) i j hs
      → Valid old new key i j hs × (j ≤ length new)
  IsDiff-Valid [] i j hi inside d =
      let lo = length-map key old in
      let ln = length-map key new in
      (
        (hi, omega (arith, lo, ln, d.0), subst (λ n. Equal old new key i j (n - i)) lo d.1),
        omega (arith, lo, ln, d.0),
      )
  IsDiff-Valid (h ∷ hs) i j hi inside d =
      let rest = IsDiff-Valid hs h.before_end h.after_end inside.0 inside.1 d.5 in
      ((d.0, d.1, d.2, d.3, inside.0, rest.1, d.4, rest.0), omega (arith, d.0, d.1, d.3, rest.1))

  pub IsHunks-Valid : (hs : List Hunk) → IsHunks hs → Valid old new key 0 0 hs
  IsHunks-Valid hs d = (IsDiff-Valid hs 0 0 (omega arith) d.inside d.diff).0

module _ {A S : Type 0} (old new : List Line) (key : Line → A)
    (changed_ranges : Text → Text → List ColRange × List ColRange)
    (old_spans new_spans : List (List S)) where
  -- No hunk: the lines shown at both ends and the hidden run between them.
  unchanged_rows-Shows :
      (expanded : List GapExpansion)
      → length old < u32_mod
      → length old ≡ length new
      → Equal old new key 0 0 (length old)
      → Shows old new key
          (unchanged_rows changed_ranges old new old_spans new_spans expanded)
          0
          0
          (length old)
          (length new)
  unfolding unchanged_rows
  unchanged_rows-Shows expanded small e same =
      let reveal = of expanded 0 in
      let shown = min (reveal.0 + reveal.1) (length old) in
      let head = min reveal.1 shown in
      let tail = shown - head in
      let from = length old - tail in
      let part = Equal-part old new key 0 0 (length old) in
      let top = emit_context changed_ranges old new old_spans new_spans 0 0 head in
      let middle = expander_rows (length old - shown) both_dirs 0 in
      let bottom = emit_context changed_ranges old new old_spans new_spans from from tail in
      Shows-append old new key top (middle ++ bottom) 0 0 head head (length old) (length new)
        (emit_context-Shows old new key changed_ranges old_spans new_spans head 0 0 head head
          (omega arith) (omega arith) (omega arith) (omega arith)
          (part 0 0 head (omega arith) (omega arith) (omega arith) same))
        (Shows-append old new key middle bottom head head from from (length old) (length new)
          (expander_rows-Shows old new key changed_ranges old_spans new_spans (length old - shown)
            head head from from both_dirs 0 (omega arith) (omega arith) (omega arith)
            (part head head (length old - shown) (omega arith) (omega arith) (omega arith) same))
          (emit_context-Shows old new key changed_ranges old_spans new_spans tail from from
            (length old) (length new) (omega arith) (omega arith) (omega arith) (omega arith)
            (part from from tail (omega arith) (omega arith) (omega arith) same)))

  -- For the hunks of a diff of two files of less than 2^32 lines, the rows go through both files
  -- whole and in order, whatever the context and the expansions: each line is in a row on its
  -- side, with its number, text and ending, or counted by an expander; a line in a context row
  -- and a hidden line have the same key on both sides.
  pub build_rows-Shows :
      (hs : List Hunk) (ctx : ℕ) (expanded : List GapExpansion)
      → length old < u32_mod
      → IsHunks old new key hs
      → Shows old new key
          (build_rows changed_ranges old new old_spans new_spans hs ctx expanded).0
          0
          0
          (length old)
          (length new)
  unfolding build_rows
  build_rows-Shows [] ctx expanded small d =
      let v = IsHunks-Valid old new key [] d in
      unchanged_rows-Shows expanded small (omega (arith, v.1)) (
        Equal-part old new key 0 0 (length old - 0) 0 0 (length old) (omega arith) (omega arith)
          (omega arith) v.2)
  build_rows-Shows (h ∷ hs) ctx expanded small d =
      let groups = group_from ctx (record { first = h; rest = [] }) hs in
      let laid = blocks_of-Laid old new key ctx expanded groups (
        subst (λ ks. Valid old new key 0 0 ks)
          (sym (group_hunks-group_from ctx hs (record { first = h; rest = [] })))
          (IsHunks-Valid old new key (h ∷ hs) d)) in
      emit_blocks-Shows old new key changed_ranges old_spans new_spans (length groups) 0 0
        (blocks_of (windows_from (length old) ctx expanded 0 0 0 groups)) small laid.0
        (subst (λ ks. Valid old new key 0 0 ks) (sym laid.1)
          (subst (λ ks. Valid old new key 0 0 ks)
            (sym (group_hunks-group_from ctx hs (record { first = h; rest = [] })))
            (IsHunks-Valid old new key (h ∷ hs) d)))
