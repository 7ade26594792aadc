-- ===== src/Tests/Render.antt =====
-- Runs of the rows of a render, of its gaps and of the changed columns of a line.
use nits.Prelude.{
  not, ◌&&◌, ◌||◌, ◌<◌, ◌≤◌, ℕ, zero, suc, ◌==◌, leb, Bool, true, false, ◌≡◌, ◌≢◌, ◌↔◌, refl, arith,
  none, some, List, [], ◌∷◌, length, ok, map,
}
use nits.Protocol.Lines.{u32_mod, ColRange}
use nits.Protocol.Domain.{Text}
use nits.Protocol.Gaps.{GapExpansion, GapRow, up_dir, expansions, of, opened, gap_table, nearest}
use nits.Protocol.Gaps.Opened.{Widened, opened_lem}
use nits.Protocol.Gaps.Table.{Names, TableAscends, Closest, nearest-Closest}
use nits.Review.Anchor.{Hunk}
use nits.Review.Diff.{SameRows}
use nits.Review.Render.Lines.{lf, split_lines, Line}
use nits.Review.Render.Intraline.{tokens, changed_ranges}
use nits.Review.Render.Intraline.Ranges.{Spaced, In, Changed}
use nits.Review.Render.Intraline.Columns.{tok_text, Diffs, changed_ranges-Changed}
use nits.Review.Render.Chunks.{is_empty}
use nits.Review.Render.Rows.{Row}
use nits.Review.Render.Rows.Emit.{build_rows}
use nits.Review.Render.Rows.Whole.{IsHunks}
use nits.Review.Render.File.{
  same_blob, is_some_and, is_binary, RenderOpts, LineKey, key, render_file, diff_hunks, gaps_of,
}
use nits.Review.Render.File.Table.{IsExpander}
use nits.Review.Render.File.Diff.{lines_of_blob, IsWhole, render_file-IsWhole, gaps_of-build_rows}

abbrev two_open : List GapExpansion
two_open = (record { gap = 1; up = 5; down = 0 }) ∷ (record { gap = 4; up = 0; down = 20 }) ∷ []

two_open_ok : expansions two_open ≡ ok two_open
unfolding expansions
two_open_ok = refl

opened_lem_example :
    (expansions (opened two_open 2 up_dir 20) ≡ ok (opened two_open 2 up_dir 20))
    × Widened up_dir 20 (of two_open 2) (of (opened two_open 2 up_dir 20) 2)
    × ((k : ℕ) → k ≢ 2 → of (opened two_open 2 up_dir 20) k ≡ of two_open k)
opened_lem_example = opened_lem two_open 2 up_dir 20 two_open_ok

abbrev three_gaps : List GapRow
three_gaps =
    (record { gap = 0; row = 0 })
    ∷ (record { gap = 1; row = 12 })
    ∷ (record { gap = 3; row = 40 })
    ∷ []

three_gaps_ok : gap_table three_gaps ≡ ok three_gaps
unfolding gap_table
three_gaps_ok = refl

nearest_up : nearest three_gaps 30 true ≡ some 1
unfolding nearest
nearest_up = refl

nearest-Closest_example :
    Closest three_gaps (λ k. k ≤ 30) (λ k best. k ≤ best) (nearest three_gaps 30 true)
    × Closest three_gaps (λ k. 30 ≤ k) (λ k best. best ≤ k) (nearest three_gaps 30 false)
nearest-Closest_example = nearest-Closest three_gaps 30 three_gaps_ok

-- ASCII: a byte is a character.
abbrev ascii : List ℕ → Text
ascii bytes = bytes

abbrev is_blank : ℕ → Bool
is_blank c = c == 32

abbrev is_letter : ℕ → Bool
is_letter c = leb 97 c

abbrev one_byte : ℕ → ℕ
one_byte c = 1

-- `x = b` became `x = c`: the fifth token is another one.
abbrev fifth_token : List Text → List Text → List Hunk
fifth_token _ _ = (record { before_start = 4; before_end = 5; after_start = 4; after_end = 5 }) ∷ []

abbrev was : Text
was = 120 ∷ 32 ∷ 61 ∷ 32 ∷ 98 ∷ []

abbrev becomes : Text
becomes = 120 ∷ 32 ∷ 61 ∷ 32 ∷ 99 ∷ []

last_column :
    changed_ranges is_letter is_blank one_byte fifth_token was becomes
    ≡ ((record { start = 4; end = 5 }) ∷ [], (record { start = 4; end = 5 }) ∷ [])
unfolding changed_ranges
last_column = refl

four_tokens :
    SameRows
      (map tok_text (tokens is_letter is_blank one_byte was))
      (map tok_text (tokens is_letter is_blank one_byte becomes))
      0
      0
      4
unfolding tokens
four_tokens zero h = refl
four_tokens (suc zero) h = refl
four_tokens (suc (suc zero)) h = refl
four_tokens (suc (suc (suc zero))) h = refl
four_tokens (suc (suc (suc (suc k)))) h = absurd (omega arith)

fifth_token-Diffs : Diffs is_letter is_blank one_byte fifth_token was becomes
unfolding tokens
fifth_token-Diffs = record {
  diff = (
    omega arith,
    omega arith,
    omega arith,
    omega arith,
    four_tokens,
    (refl, λ k h. absurd (omega arith)),
  );
  inside = (omega arith, tt);
}

changed_ranges-Changed_example :
    (Spaced 0 5 (changed_ranges is_letter is_blank one_byte fifth_token was becomes).0
      × (In 4 (changed_ranges is_letter is_blank one_byte fifth_token was becomes).0
          ↔ Changed (tokens is_letter is_blank one_byte was) 4 ((4, 5) ∷ [])))
    × (Spaced 0 5 (changed_ranges is_letter is_blank one_byte fifth_token was becomes).1
        × (In 4 (changed_ranges is_letter is_blank one_byte fifth_token was becomes).1
            ↔ Changed (tokens is_letter is_blank one_byte becomes) 4 ((4, 5) ∷ [])))
changed_ranges-Changed_example =
    changed_ranges-Changed is_letter is_blank one_byte fifth_token was becomes (λ c. omega arith)
      (omega arith) (omega arith) fifth_token-Diffs 4

-- Three lines, the second of which changes.
abbrev old_file : List ℕ
old_file = 97 ∷ 10 ∷ 98 ∷ 10 ∷ 99 ∷ 10 ∷ []

abbrev new_file : List ℕ
new_file = 97 ∷ 10 ∷ 120 ∷ 10 ∷ 99 ∷ 10 ∷ []

abbrev second_line : List LineKey → List LineKey → List Hunk
second_line _ _ = (record { before_start = 1; before_end = 2; after_start = 1; after_end = 2 }) ∷ []

abbrev first_token : List Text → List Text → List Hunk
first_token _ _ = (record { before_start = 0; before_end = 1; after_start = 0; after_end = 1 }) ∷ []

abbrev no_context : RenderOpts
no_context = record { ignore_whitespace = false; context_lines = 0; expanded = [] }

abbrev plain : Text → List Text → List (List ℕ)
plain lang texts = map (λ _. []) texts

-- Two expanders around the header and the changed line.
four_rows :
    length
      (render_file plain ascii is_blank is_letter one_byte first_token second_line
        (some old_file)
        (some new_file)
        none
        no_context).rows
    ≡ 4
unfolding render_file of
four_rows = refl

abbrev line_keys : List ℕ → List LineKey
line_keys bytes = map (key false) (lines_of_blob ascii is_blank (some bytes))

first_row : SameRows (line_keys old_file) (line_keys new_file) 0 0 1
unfolding split_lines
first_row zero h = refl
first_row (suc k) h = absurd (omega arith)

last_row : SameRows (line_keys old_file) (line_keys new_file) 2 2 1
unfolding split_lines
last_row zero h = refl
last_row (suc k) h = absurd (omega arith)

second_line-IsHunks :
    IsHunks
      (lines_of_blob ascii is_blank (some old_file))
      (lines_of_blob ascii is_blank (some new_file))
      (key false)
      (diff_hunks second_line
        (lines_of_blob ascii is_blank (some old_file))
        (lines_of_blob ascii is_blank (some new_file))
        false)
unfolding diff_hunks split_lines
second_line-IsHunks = record {
  diff = (omega arith, omega arith, omega arith, omega arith, first_row, (refl, last_row));
  inside = (omega arith, tt);
}

short_file :
    (bytes : List ℕ)
    → length (lines_of_blob ascii is_blank (some bytes)) ≡ 3
    → length (lines_of_blob ascii is_blank (some bytes)) < u32_mod
short_file bytes e = omega (arith, e)

old_lines_count : length (lines_of_blob ascii is_blank (some old_file)) ≡ 3
unfolding split_lines
old_lines_count = refl

new_lines_count : length (lines_of_blob ascii is_blank (some new_file)) ≡ 3
unfolding split_lines
new_lines_count = refl

text_files :
    (is_some_and is_binary (some old_file) || is_some_and is_binary (some new_file)) ≡ false
unfolding is_binary
text_files = refl

real_change :
    (is_empty (
        diff_hunks second_line
          (lines_of_blob ascii is_blank (some old_file))
          (lines_of_blob ascii is_blank (some new_file))
          false)
      && (false && not (same_blob (some old_file) (some new_file))))
    ≡ false
unfolding diff_hunks
real_change = refl

render_file-IsWhole_example :
    IsWhole
      (lines_of_blob ascii is_blank (some old_file))
      (lines_of_blob ascii is_blank (some new_file))
      false
      (render_file plain ascii is_blank is_letter one_byte first_token second_line
        (some old_file)
        (some new_file)
        none
        no_context)
render_file-IsWhole_example =
    render_file-IsWhole plain ascii is_blank is_letter one_byte first_token second_line
      (some old_file) (some new_file) none no_context text_files real_change
      (short_file old_file old_lines_count) (short_file new_file new_lines_count)
      second_line-IsHunks

abbrev a_line : ℕ → Line
a_line c = record { text = c ∷ []; ending = lf; normalised = c ∷ [] }

abbrev three_lines : ℕ → List Line
three_lines c = a_line 97 ∷ a_line c ∷ a_line 99 ∷ []

abbrev all_columns : Text → Text → List ColRange × List ColRange
all_columns _ _ = ((record { start = 0; end = 1 }) ∷ [], (record { start = 0; end = 1 }) ∷ [])

abbrev rows_of_three : List (Row ℕ)
rows_of_three =
    (build_rows all_columns (three_lines 98) (three_lines 120) [] [] (second_line [] []) 0 []).0

rows_of_three_count : length rows_of_three ≡ 4
unfolding build_rows of
rows_of_three_count = refl

-- The expanders are in the first row and in the last one.
gaps_of_three :
    gaps_of rows_of_three ≡ (record { gap = 0; row = 0 }) ∷ (record { gap = 1; row = 3 }) ∷ []
unfolding gaps_of build_rows of gap_table
gaps_of_three = refl

gaps_of-build_rows_example :
    TableAscends (gaps_of rows_of_three)
    × ((k g : ℕ) → Names k g (gaps_of rows_of_three) ↔ IsExpander rows_of_three k g)
gaps_of-build_rows_example =
    gaps_of-build_rows all_columns (three_lines 98) (three_lines 120) [] [] (second_line [] []) 0 []
      (omega arith) (omega (arith, rows_of_three_count))
