-- ===== src/Review/Render/File.antt =====
-- crates/nits-review-core/src/render/mod.rs: `render_file` and `render_blob`. `Highlighter::highlight`
-- is any function, `S` is `Span`; the diff of two line or token sequences is imara_diff's, UTF-8 and
-- the classes of characters are the standard library's: parameters. A `RenderOpts` holds an
-- `Expansions`, here its list.
pub mod Table
pub mod Diff
use nits.Prelude.{
  same_bytes, ℕ, zero, suc, ◌+◌, ◌-◌, ◌^◌, Bool, true, false, not, ◌&&◌, ◌||◌, Option, none, some,
  List, [], ◌∷◌, map, length, take, Result, ok, err, ltb, leb, ◌==◌, if◌then◌else◌,
}
use nits.Protocol.Domain.{Text}
use nits.Protocol.Gaps.{GapExpansion, GapRow, gap_table}
use nits.Review.Anchor.{Hunk}
use nits.Review.Render.Lines.{Line, LineEnding, missing, split_lines}
use nits.Review.Render.Intraline.{changed_ranges}
use nits.Review.Render.Chunks.{chunk_rows, chunk_count, is_empty}
use nits.Review.Render.Rows.{
  Row, hunk_header_row, context, removed, added, modified, expander, whitespace_only, to_u32, cell,
}
use nits.Review.Render.Rows.Emit.{build_rows}

pub record RenderOpts : Type 0 where
  pub ignore_whitespace : Bool
  pub context_lines : ℕ
  pub expanded : List GapExpansion

pub record TextContent : Type 0 where
  pub total_rows : ℕ
  pub chunk_rows : ℕ
  pub chunk_count : ℕ
  pub highlighted : Bool
  pub additions : ℕ
  pub deletions : ℕ
  pub gaps : List GapRow

pub data RenderContent : Type 0 where
  submodule : RenderContent
  binary : RenderContent
  text_content : TextContent → RenderContent

pub record Rendered (S : Type 0) : Type 0 where
  pub content : RenderContent
  pub rows : List (Row S)

-- What the differ compares of a line.
pub record LineKey : Type 0 where
  pub text : Text
  pub ending : LineEnding

abbrev pub key : Bool → Line → LineKey
key true l = record { text = l.normalised; ending = missing }
key false l = record { text = l.text; ending = l.ending }

abbrev pub has_zero : List ℕ → Bool
has_zero [] = false
has_zero (b ∷ bs) = (b == 0) || has_zero bs

-- git.rs: a zero among the first 8000 bytes.
unfoldable pub is_binary : List ℕ → Bool
is_binary bytes = has_zero (take 8000 bytes)

abbrev pub is_some_and {ℓ} : {A : Type ℓ} → (A → Bool) → Option A → Bool
is_some_and p none = false
is_some_and p (some a) = p a

abbrev pub is_none_or {ℓ} : {A : Type ℓ} → (A → Bool) → Option A → Bool
is_none_or p none = true
is_none_or p (some a) = p a

abbrev pub is_some {ℓ} : {A : Type ℓ} → Option A → Bool
is_some none = false
is_some (some _) = true

abbrev pub unwrap_or_default : Option (List ℕ) → List ℕ
unwrap_or_default none = []
unwrap_or_default (some bytes) = bytes

abbrev pub same_blob : Option (List ℕ) → Option (List ℕ) → Bool
same_blob none none = true
same_blob none (some _) = false
same_blob (some _) none = false
same_blob (some a) (some b) = same_bytes a b

abbrev pub highlight_byte_cap : ℕ
highlight_byte_cap = 2 ^ 20

abbrev pub highlight_line_cap : ℕ
highlight_line_cap = 20000

unfoldable pub should_highlight :
    Option (List ℕ) → Option (List ℕ) → List Line → List Line → Option Text → Bool
should_highlight old new old_lines new_lines lang =
    is_some lang
    && (is_none_or (λ b. leb (length b) highlight_byte_cap) old
        && (is_none_or (λ b. leb (length b) highlight_byte_cap) new
            && (leb (length old_lines) highlight_line_cap
                && leb (length new_lines) highlight_line_cap)))

module _ {S : Type 0} where
  -- The rows from row `i` on.
  unfoldable pub gap_rows : ℕ → List (Row S) → List GapRow
  gap_rows i [] = []
  gap_rows i (expander _ _ gap ∷ rows) =
      record { gap = gap; row = to_u32 i } ∷ gap_rows (i + 1) rows
  gap_rows i (hunk_header_row _ ∷ rows) = gap_rows (i + 1) rows
  gap_rows i (context _ _ ∷ rows) = gap_rows (i + 1) rows
  gap_rows i (added _ ∷ rows) = gap_rows (i + 1) rows
  gap_rows i (removed _ ∷ rows) = gap_rows (i + 1) rows
  gap_rows i (modified _ _ ∷ rows) = gap_rows (i + 1) rows
  gap_rows i (whitespace_only ∷ rows) = gap_rows (i + 1) rows

  unfoldable pub gaps_of : List (Row S) → List GapRow
  unfolding gap_rows
  gaps_of rows = elim (gap_table (gap_rows 0 rows)) [ ok table ↦ table | err _ ↦ [] ]

  module _ (highlight : Text → List Text → List (List S)) where
    unfoldable pub spans_for : Bool → Option Text → List Line → List (List S)
    spans_for true (some lang) lines = highlight lang (map (λ (l : Line). l.text) lines)
    spans_for true none lines = map (λ _. []) lines
    spans_for false lang lines = map (λ _. []) lines

unfoldable pub diff_hunks :
    (List LineKey → List LineKey → List Hunk) → List Line → List Line → Bool → List Hunk
diff_hunks line_diff old new ignore = line_diff (map (key ignore) old) (map (key ignore) new)

abbrev pub no_file : {S : Type 0} → Rendered S
no_file = record { content = binary; rows = [] }

abbrev pub only_whitespace : {S : Type 0} → Rendered S
only_whitespace = record {
  content = text_content (record {
    total_rows = 1;
    chunk_rows = chunk_rows;
    chunk_count = 1;
    highlighted = false;
    additions = 0;
    deletions = 0;
    gaps = [];
  });
  rows = whitespace_only ∷ [];
}

module _ {S : Type 0} (highlight : Text → List Text → List (List S))
    (from_utf8_lossy : List ℕ → Text) (is_whitespace is_alphanumeric : ℕ → Bool) (len_utf8 : ℕ → ℕ)
    (token_diff : List Text → List Text → List Hunk)
    (line_diff : List LineKey → List LineKey → List Hunk) where
  -- The part behind the early returns.
  unfoldable pub render_text :
      Option (List ℕ)
      → Option (List ℕ)
      → Option Text
      → RenderOpts
      → List Line
      → List Line
      → List Hunk
      → Rendered S
  unfolding should_highlight spans_for build_rows gaps_of
  render_text old new lang opts old_lines new_lines hunks =
      let highlighted = should_highlight old new old_lines new_lines lang in
      let (rows, additions, deletions) =
        build_rows (changed_ranges is_alphanumeric is_whitespace len_utf8 token_diff) old_lines
          new_lines (spans_for highlight highlighted lang old_lines)
          (spans_for highlight highlighted lang new_lines) hunks opts.context_lines opts.expanded in
      record {
        content = text_content (record {
          total_rows = to_u32 (length rows);
          chunk_rows = chunk_rows;
          chunk_count = chunk_count (length rows);
          highlighted = highlighted;
          additions = additions;
          deletions = deletions;
          gaps = gaps_of rows;
        });
        rows = rows;
      }

  unfoldable pub render_file :
      Option (List ℕ) → Option (List ℕ) → Option Text → RenderOpts → Rendered S
  unfolding is_binary split_lines diff_hunks render_text
  render_file old new lang opts =
      if is_some_and is_binary old || is_some_and is_binary new
      then no_file
      else let old_lines = split_lines from_utf8_lossy is_whitespace (unwrap_or_default old) in
        let new_lines = split_lines from_utf8_lossy is_whitespace (unwrap_or_default new) in
        let hunks = diff_hunks line_diff old_lines new_lines opts.ignore_whitespace in
        if is_empty hunks && (opts.ignore_whitespace && not (same_blob old new))
        then only_whitespace
        else render_text old new lang opts old_lines new_lines hunks

  -- Every line as a context row, from line `i` on.
  unfoldable pub context_rows : ℕ → List (List S) → List Line → List (Row S)
  context_rows i spans [] = []
  context_rows i spans (l ∷ ls) =
      context (cell i l spans []) (cell i l spans []) ∷ context_rows (i + 1) spans ls

  unfoldable pub render_blob : List ℕ → Option Text → Rendered S
  unfolding is_binary split_lines should_highlight spans_for context_rows
  render_blob bytes lang =
      if is_binary bytes
      then no_file
      else let lines = split_lines from_utf8_lossy is_whitespace bytes in
        let highlighted = should_highlight (some bytes) (some bytes) lines lines lang in
        let rows = context_rows 0 (spans_for highlight highlighted lang lines) lines in
        record {
          content = text_content (record {
            total_rows = to_u32 (length rows);
            chunk_rows = chunk_rows;
            chunk_count = chunk_count (length rows);
            highlighted = highlighted;
            additions = 0;
            deletions = 0;
            gaps = [];
          });
          rows = rows;
        }
