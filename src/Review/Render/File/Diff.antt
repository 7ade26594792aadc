-- ===== src/Review/Render/File/Diff.antt =====
-- render/mod.rs: what `render_file` returns for two text files.
use nits.Prelude.{ℕ, suc, ◌<◌, ◌≡◌, ◌↔◌, refl, Bool, false, not, ◌&&◌, ◌||◌, Option, List, length}
use nits.Protocol.Lines.{u32_mod, ColRange}
use nits.Protocol.Domain.{Text}
use nits.Protocol.Gaps.{GapExpansion}
use nits.Protocol.Gaps.Table.{Names, TableAscends}
use nits.Review.Anchor.{Hunk}
use nits.Review.Render.Lines.{Line, split_lines}
use nits.Review.Render.Chunks.{is_empty}
use nits.Review.Render.Intraline.{changed_ranges}
use nits.Review.Render.Rows.Emit.{build_rows}
use nits.Review.Render.Rows.Shows.{Shows}
use nits.Review.Render.Rows.Whole.{IsHunks, build_rows-Shows}
use nits.Review.Render.Rows.Counts.{added_rows, deleted_rows}
use nits.Review.Render.Rows.Totals.{build_rows-Counts}
use nits.Review.Render.Rows.GapOrder.{build_rows-Gapped}
use nits.Review.Render.File.{
  RenderOpts, TextContent, text_content, Rendered, LineKey, key, is_binary, is_some_and,
  unwrap_or_default, same_blob, should_highlight, spans_for, gaps_of, diff_hunks, render_text,
  render_file,
}
use nits.Review.Render.File.Table.{IsExpander, gaps_of-IsExpander}

module _ {S : Type 0} where
  -- For less than 2^32 - 1 hunks and less than 2^32 rows, the table that `gaps_of` makes of the rows
  -- of `build_rows` is accepted: its gaps and rows ascend strictly, and it has the row `k` for the
  -- gap `g` exactly if row `k` is an expander of `g`.
  pub gaps_of-build_rows :
      (changed : Text → Text → List ColRange × List ColRange) (old new : List Line)
      → (old_spans new_spans : List (List S)) (hs : List Hunk) (ctx : ℕ)
        (expanded : List GapExpansion)
      → suc (length hs) < u32_mod
      → length (build_rows changed old new old_spans new_spans hs ctx expanded).0 < u32_mod
      → let rows = (build_rows changed old new old_spans new_spans hs ctx expanded).0 in
        TableAscends (gaps_of rows) × ((k g : ℕ) → Names k g (gaps_of rows) ↔ IsExpander rows k g)
  gaps_of-build_rows changed old new old_spans new_spans hs ctx expanded few small =
      let gaps = build_rows-Gapped changed old new old_spans new_spans hs ctx expanded few in
      gaps_of-IsExpander (build_rows changed old new old_spans new_spans hs ctx expanded).0 gaps.0
        gaps.1 small

abbrev pub lines_of_blob : (List ℕ → Text) → (ℕ → Bool) → Option (List ℕ) → List Line
lines_of_blob from_utf8_lossy is_whitespace blob =
    split_lines from_utf8_lossy is_whitespace (unwrap_or_default blob)

-- The render shows both files whole and counts their changed lines.
abbrev pub IsWhole : {S : Type 0} → List Line → List Line → Bool → Rendered S → Type 0
IsWhole old new ignore r =
    Shows old new (key ignore) r.rows 0 0 (length old) (length new)
    × ((c : TextContent) × (r.content ≡ text_content c)
        × (added_rows r.rows ≡ c.additions)
        × (deleted_rows r.rows ≡ c.deletions))

module _ {S : Type 0} (highlight : Text → List Text → List (List S))
    (from_utf8_lossy : List ℕ → Text) (is_whitespace is_alphanumeric : ℕ → Bool) (len_utf8 : ℕ → ℕ)
    (token_diff : List Text → List Text → List Hunk)
    (line_diff : List LineKey → List LineKey → List Hunk) where
  -- Two blobs, one of them possibly missing, that are not binary and do not differ in whitespace
  -- alone under `ignore_whitespace`, of less than 2^32 lines, with hunks that are a diff of the
  -- lines' keys: the rows of the render go through both files whole and in order, and its additions
  -- and deletions are the rows with a changed line of the new and of the old side.
  pub render_file-IsWhole :
      (old new : Option (List ℕ)) (lang : Option Text) (opts : RenderOpts)
      → (is_some_and is_binary old || is_some_and is_binary new) ≡ false
      → (is_empty (
            diff_hunks line_diff
              (lines_of_blob from_utf8_lossy is_whitespace old)
              (lines_of_blob from_utf8_lossy is_whitespace new)
              opts.ignore_whitespace)
          && (opts.ignore_whitespace && not (same_blob old new)))
        ≡ false
      → length (lines_of_blob from_utf8_lossy is_whitespace old) < u32_mod
      → length (lines_of_blob from_utf8_lossy is_whitespace new) < u32_mod
      → IsHunks
          (lines_of_blob from_utf8_lossy is_whitespace old)
          (lines_of_blob from_utf8_lossy is_whitespace new)
          (key opts.ignore_whitespace)
          (diff_hunks line_diff
            (lines_of_blob from_utf8_lossy is_whitespace old)
            (lines_of_blob from_utf8_lossy is_whitespace new)
            opts.ignore_whitespace)
      → IsWhole
          (lines_of_blob from_utf8_lossy is_whitespace old)
          (lines_of_blob from_utf8_lossy is_whitespace new)
          opts.ignore_whitespace
          (render_file highlight from_utf8_lossy is_whitespace is_alphanumeric len_utf8 token_diff
            line_diff old new lang opts)
  unfolding render_file render_text
  render_file-IsWhole old new lang opts text differs so sn d =
      let o = lines_of_blob from_utf8_lossy is_whitespace old in
      let n = lines_of_blob from_utf8_lossy is_whitespace new in
      let shown = should_highlight old new o n lang in
      let changed = changed_ranges is_alphanumeric is_whitespace len_utf8 token_diff in
      let spans = spans_for highlight shown lang in
      let hunks = diff_hunks line_diff o n opts.ignore_whitespace in
      let counts =
        build_rows-Counts changed o n (spans o) (spans n) (key opts.ignore_whitespace) hunks
          opts.context_lines opts.expanded so sn d in
      rw (render_file, text, differs)
        ((
          build_rows-Shows o n (key opts.ignore_whitespace) changed (spans o) (spans n) hunks
              opts.context_lines opts.expanded so d,
          (_, refl, counts.0, counts.1),
        ))
