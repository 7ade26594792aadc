-- ===== src/Tests/Patch.antt =====
-- Runs of the suggestions' patches.
use nits.Prelude.{ℕ, ◌≡◌, ◌↔◌, refl, List, [], ◌∷◌, All, ok, err, map}
use nits.Review.Patch.{Bytes, Hunk, remove, add, misplaced_end_of_file}
use nits.Review.Patch.Parse.{parse}
use nits.Review.Patch.Apply.{apply, apply_parsed, patched_lines}
use nits.Review.Patch.Applies.{Applies}
use nits.Review.Patch.Refines.{patched_lines-Applies}
use nits.Review.Patch.Reverse.{reverse_hunk}
use nits.Review.Patch.Parsed.{IsParsed, parse-IsParsed}
use nits.Review.Render.Lines.{split_inclusive, lf}
use nits.Review.Patch.Preview.{PatchPreview, remove_line, add_line, preview}
use nits.Review.Patch.Preview.Numbers.{HunkShown, preview-HunkShown}
use nits.Review.Patch.Undo.{apply-reverse_hunk}

-- a, b, c
abbrev three_letters : Bytes
three_letters = 97 ∷ 10 ∷ 98 ∷ 10 ∷ 99 ∷ 10 ∷ []

-- @@ -2,1 +2,1 @@, with b replaced by B
abbrev upper_b : Bytes
upper_b =
    64 ∷ 64 ∷ 32 ∷ 45 ∷ 50 ∷ 44 ∷ 49 ∷ 32 ∷ 43 ∷ 50 ∷ 44 ∷ 49 ∷ 32 ∷ 64 ∷ 64 ∷ 10 ∷ 45 ∷ 98 ∷ 10
    ∷ 43 ∷ 66 ∷ 10 ∷ []

abbrev three_letters_patched : Bytes
three_letters_patched = 97 ∷ 10 ∷ 66 ∷ 10 ∷ 99 ∷ 10 ∷ []

abbrev upper_b_hunks : List Hunk
upper_b_hunks =
    (record {
      header = 64 ∷ 64 ∷ 32 ∷ 45 ∷ 50 ∷ 44 ∷ 49 ∷ 32 ∷ 43 ∷ 50 ∷ 44 ∷ 49 ∷ 32 ∷ 64 ∷ 64 ∷ [];
      old = record { offset = 1; count = 1 };
      new = record { offset = 1; count = 1 };
      lines =
          (record { kind = remove; bytes = 98 ∷ 10 ∷ [] })
          ∷ (record { kind = add; bytes = 66 ∷ 10 ∷ [] })
          ∷ [];
    })
    ∷ []

upper_b_parsed : parse upper_b ≡ ok upper_b_hunks
unfolding parse
upper_b_parsed = refl

replaces_a_line : apply three_letters upper_b ≡ ok three_letters_patched
unfolding apply
replaces_a_line = refl

-- @@ -0,0 +1,1 @@ puts a line without a newline before others.
inserts_nothing_inside :
    apply three_letters (
      64 ∷ 64 ∷ 32 ∷ 45 ∷ 48 ∷ 44 ∷ 48 ∷ 32 ∷ 43 ∷ 49 ∷ 44 ∷ 49 ∷ 32 ∷ 64 ∷ 64 ∷ 10 ∷ 43 ∷ 120 ∷ 10
      ∷ 92 ∷ 32 ∷ 78 ∷ 111 ∷ 32 ∷ 110 ∷ 101 ∷ 119 ∷ 108 ∷ 105 ∷ 110 ∷ 101 ∷ 32 ∷ 97 ∷ 116 ∷ 32 ∷ 101
      ∷ 110 ∷ 100 ∷ 32 ∷ 111 ∷ 102 ∷ 32 ∷ 102 ∷ 105 ∷ 108 ∷ 101 ∷ 10 ∷ [])
    ≡ err misplaced_end_of_file
unfolding apply
inserts_nothing_inside = refl

apply-reverse_hunk_example :
    (hs : List Hunk) × (parse upper_b ≡ ok hs)
    × (apply_parsed three_letters_patched (map reverse_hunk hs) ≡ ok three_letters)
apply-reverse_hunk_example = apply-reverse_hunk three_letters upper_b replaces_a_line

parse-IsParsed_example : All IsParsed upper_b_hunks
parse-IsParsed_example = parse-IsParsed upper_b upper_b_parsed

abbrev letter_lines : ℕ → List Bytes
letter_lines c = (97 ∷ 10 ∷ []) ∷ (c ∷ 10 ∷ []) ∷ (99 ∷ 10 ∷ []) ∷ []

patched_lines-Applies_example :
    (patched_lines (letter_lines 98) upper_b_hunks ≡ ok (letter_lines 66))
    ↔ Applies 0 0 upper_b_hunks (letter_lines 98) (letter_lines 66)
patched_lines-Applies_example =
    patched_lines-Applies (letter_lines 98) (letter_lines 66) upper_b_hunks

abbrev upper_b_preview : PatchPreview
upper_b_preview = record {
  hunks =
      (record {
        header = 64 ∷ 64 ∷ 32 ∷ 45 ∷ 50 ∷ 44 ∷ 49 ∷ 32 ∷ 43 ∷ 50 ∷ 44 ∷ 49 ∷ 32 ∷ 64 ∷ 64 ∷ [];
        lines =
            (record { kind = remove_line (record { get = 2 }); text = 98 ∷ []; ending = lf })
            ∷ (record { kind = add_line (record { get = 2 }); text = 66 ∷ []; ending = lf })
            ∷ [];
      })
      ∷ [];
  result = three_letters_patched;
}

upper_b_previewed : preview three_letters upper_b ≡ ok upper_b_preview
unfolding preview
upper_b_previewed = refl

preview-HunkShown_example :
    (apply three_letters upper_b ≡ ok three_letters_patched)
    × All
        (HunkShown (split_inclusive three_letters) (split_inclusive three_letters_patched))
        upper_b_preview.hunks
preview-HunkShown_example = preview-HunkShown three_letters upper_b upper_b_previewed
