-- ===== src/Review/Render/Rows.antt =====
-- crates/nits-review-core/src/render/mod.rs: `build_rows`, the rows of the diff of two files. The
-- index ranges of the source that stand for groups of hunks are the groups themselves. `S` is
-- `Span`. An index past the end of a side panics in the source and is the empty line here; the rows
-- are shown to hold lines of the two sides, so that it does not happen. Sums of `usize` do not
-- overflow.
pub mod Layout
pub mod Emit
pub mod Shows
pub mod Laid
pub mod Faithful
pub mod Whole
pub mod Gapped
pub mod GapOrder
pub mod Totals
pub mod Counts
use nits.Prelude.{
  ℕ, zero, suc, ◌+◌, ◌-◌, ◌*◌, ◌%◌, Bool, true, false, not, Option, none, some, List, [], ◌∷◌, ◌++◌,
  length, get_elem?, ltb, leb, ◌==◌, if◌then◌else◌, min, max,
}
use nits.Protocol.Lines.{u32_mod, LineNo, ColRange, from_index}
use nits.Protocol.Gaps.{ExpandDir}
use nits.Protocol.Domain.{Text}
use nits.Review.Anchor.{Hunk}
use nits.Review.Render.Lines.{Line, LineEnding, missing}

pub record Cell (S : Type 0) : Type 0 where
  pub line_no : LineNo
  pub text : Text
  pub ending : LineEnding
  pub spans : List S
  pub changed : List ColRange

-- The numbers of a hunk header; the text that `format!` makes of them is not modelled.
pub record HeaderText : Type 0 where
  pub old_start : ℕ
  pub old_len : ℕ
  pub new_start : ℕ
  pub new_len : ℕ

pub data Row (S : Type 0) : Type 0 where
  hunk_header_row : HeaderText → Row S
  context : Cell S → Cell S → Row S
  removed added : Cell S → Row S
  modified : Cell S → Cell S → Row S
  -- hidden lines, direction, gap
  expander : ℕ → ExpandDir → ℕ → Row S
  whitespace_only : Row S

-- `u32::try_from(n).unwrap_or(u32::MAX)`
abbrev pub to_u32 : ℕ → ℕ
to_u32 n = if ltb n u32_mod then n else u32_mod - 1

-- `u32::try_from(index).unwrap_or(u32::MAX - 1)`
abbrev pub line_index : ℕ → ℕ
line_index n = if ltb n u32_mod then n else u32_mod - 2

abbrev pub empty_line : Line
empty_line = record { text = []; ending = missing; normalised = [] }

abbrev pub line_at : List Line → ℕ → Line
line_at [] i = empty_line
line_at (l ∷ ls) zero = l
line_at (l ∷ ls) (suc i) = line_at ls i

-- `spans.get(index).cloned().unwrap_or_default()`
abbrev pub spans_at {ℓ} : {S : Type ℓ} → List (List S) → ℕ → List S
spans_at [] i = []
spans_at (s ∷ ss) zero = s
spans_at (s ∷ ss) (suc i) = spans_at ss i

-- git prints the 1-based start, or the start where the range is empty.
abbrev pub header_start : ℕ → ℕ → ℕ
header_start start len = if len == 0 then start else start + 1

unfoldable pub hunk_header : ℕ → ℕ → ℕ → ℕ → HeaderText
hunk_header old_start old_len new_start new_len = record {
  old_start = header_start old_start old_len;
  old_len = old_len;
  new_start = header_start new_start new_len;
  new_len = new_len;
}

-- Hunks that are shown together; never empty.
pub record Group : Type 0 where
  pub first : Hunk
  pub rest : List Hunk

abbrev pub last_of : Hunk → List Hunk → Hunk
last_of h [] = h
last_of h (k ∷ ks) = last_of k ks

abbrev pub hunks_of : Group → List Hunk
hunks_of g = g.first ∷ g.rest

abbrev pub group_last : Group → Hunk
group_last g = last_of g.first g.rest

pub record Window : Type 0 where
  pub start_o : ℕ
  pub end_o : ℕ
  pub start_n : ℕ
  pub end_n : ℕ

-- Groups under one header: the index of the first, the window that it starts with, its groups'
-- hunks and the window that it ends with.
pub record Block : Type 0 where
  pub index : ℕ
  pub head : Window
  pub first : Hunk
  pub rest : List Hunk
  pub tail : Window

module _ {S : Type 0} where
  unfoldable pub cell : ℕ → Line → List (List S) → List ColRange → Cell S
  cell index line spans changed = record {
    line_no = from_index (line_index index);
    text = line.text;
    ending = line.ending;
    spans = spans_at spans index;
    changed = changed;
  }
