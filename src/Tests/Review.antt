-- ===== src/Tests/Review.antt =====
-- Runs of the anchors and of the lines of a blob.
use mathlib.Core.List.{flatten}
use nits.Prelude.{
  if◌then◌else◌, ◌==◌, All, ℕ, zero, suc, All, length, if◌then◌else◌, ◌==◌, ◌≡◌, refl, List, [],
  ◌∷◌, Option, none, some, Bool, arith, map,
}
use nits.Prelude.Int.{◌+ℤ◌, ◌-ℤ◌}
use nits.Protocol.Lines.{LineRange, index, from_index, line_range}
use nits.Protocol.Domain.{Text, head, Anchor, lines, CommentState, live}
use nits.Review.Anchor.{
  Hunk, PathFate, present, gone, map_range, walk_hunks, place_range, to_u32, shift,
}
use nits.Review.Diff.{SameRows}
use nits.Review.Anchor.MapRange.{Spares, IsMapped, map_range-IsMapped, map_range_total}
use nits.Review.Render.Lines.{split_lines, lines_of, split_inclusive}
use nits.Review.Anchor.{context_hash, effective_anchor}
use nits.Review.Reanchor.{reanchor}
use nits.Review.Reanchor.Outcomes.{run, Follows, reanchor-Follows, run-run}
use nits.Review.Reanchor.Return.{run_all, IsAway, comes_back}
use nits.Review.Render.Lines.Rebuild.{split_lines-rebuild, line_bytes}

abbrev old_blob_lines : List Text
old_blob_lines = (97 ∷ []) ∷ (98 ∷ []) ∷ (99 ∷ []) ∷ []

abbrev new_blob_lines : List Text
new_blob_lines = (120 ∷ []) ∷ (97 ∷ []) ∷ (98 ∷ []) ∷ (99 ∷ []) ∷ []

-- A line was put in front.
abbrev prepend : List Text → List Text → List Hunk
prepend _ _ = (record { before_start = 0; before_end = 0; after_start = 0; after_end = 1 }) ∷ []

abbrev second_third : LineRange
second_third = record { start = record { get = 2 }; end = record { get = 3 } }

abbrev third_fourth : LineRange
third_fourth = record { start = record { get = 3 }; end = record { get = 4 } }

moved_down : map_range prepend old_blob_lines new_blob_lines second_third ≡ some third_fourth
unfolding map_range walk_hunks place_range to_u32 shift index from_index line_range ◌+ℤ◌ ◌-ℤ◌
moved_down = refl

kept_tail : SameRows old_blob_lines new_blob_lines 0 1 3
kept_tail zero h = refl
kept_tail (suc zero) h = refl
kept_tail (suc (suc zero)) h = refl
kept_tail (suc (suc (suc k))) h = absurd (omega arith)

map_range-IsMapped_example :
    IsMapped prepend old_blob_lines new_blob_lines second_third third_fourth
map_range-IsMapped_example =
    map_range-IsMapped prepend old_blob_lines new_blob_lines second_third
      (record { start_valid = omega arith; end_valid = omega arith; ordered = omega arith })
      (omega arith)
      ((
        omega arith,
        omega arith,
        omega arith,
        omega arith,
        λ k h. absurd (omega arith),
        (omega arith, kept_tail),
      ))
      third_fourth moved_down

-- The inserted line lies above the range.
prepend-Spares : All (Spares 1 2) (prepend old_blob_lines new_blob_lines)
prepend-Spares = ((refl, refl), tt)

map_range_total_example :
    (r' : LineRange) × (map_range prepend old_blob_lines new_blob_lines second_third ≡ some r')
map_range_total_example =
    map_range_total prepend old_blob_lines new_blob_lines second_third
      (record { start_valid = omega arith; end_valid = omega arith; ordered = omega arith })
      (omega arith)
      ((
        omega arith,
        omega arith,
        omega arith,
        omega arith,
        λ k h. absurd (omega arith),
        (omega arith, kept_tail),
      ))
      (unfold index in omega arith) (unfold index in prepend-Spares)

-- Texts are their bytes, and the hash of lines is their number.
abbrev decode : List ℕ → Text
decode bytes = bytes

abbrev count : List Text → ℕ
count ls = length ls

abbrev is_space : ℕ → Bool
is_space c = c == 32

abbrev stored : ℕ → Option (List ℕ)
stored b =
    if b == 1
    then some (97 ∷ 10 ∷ 98 ∷ 10 ∷ 99 ∷ 10 ∷ [])
    else if b == 2
    then some (120 ∷ 10 ∷ 97 ∷ 10 ∷ 98 ∷ 10 ∷ 99 ∷ 10 ∷ [])
    else none

abbrev path : Text
path = 109 ∷ []

abbrev anchored : Anchor
anchored = lines 7 path head 1 second_third 3

abbrev followed : Anchor
followed = lines 7 path head 2 third_fourth 4

abbrev four_hash : Anchor
four_hash = lines 7 path head 1 second_third 4

follows_run :
    run prepend count decode is_space stored stored (four_hash, live) (present path 2)
    ≡ (followed, live)
unfolding reanchor split_lines context_hash map_range walk_hunks place_range to_u32 shift index
    from_index line_range ◌+ℤ◌ ◌-ℤ◌ lines_of
follows_run = refl

reanchor-Follows_example :
    Follows prepend count decode is_space stored stored 7 path head 1 second_third 4 followed path 2
reanchor-Follows_example =
    reanchor-Follows prepend count decode is_space stored stored 7 path head 1 second_third 4
      four_hash followed live path 2 (unfold effective_anchor in refl) follows_run

run-run_example :
    let try_at = λ (c : Anchor × CommentState).
      run prepend count decode is_space stored stored c (present path 2) in
    try_at (try_at (anchored, live)) ≡ try_at (anchored, live)
run-run_example = run-run prepend count decode is_space stored stored anchored live (present path 2)

-- The context hash of the new blob differs, and then the path is gone.
abbrev lost : List PathFate
lost = present path 2 ∷ gone ∷ []

lost-IsAway : IsAway prepend count decode is_space stored stored (anchored, live) lost
unfolding reanchor split_lines context_hash map_range walk_hunks place_range to_u32 shift index
    from_index line_range ◌+ℤ◌ ◌-ℤ◌ lines_of
lost-IsAway = (λ q. cc, (λ q. cc, tt))

comes_back_example :
    run prepend count decode is_space stored stored
      (run_all prepend count decode is_space stored stored (anchored, live) lost)
      (present path 1)
    ≡ (anchored, live)
comes_back_example =
    comes_back prepend count decode is_space stored stored 7 path head 1 second_third 3 lost
      lost-IsAway

-- "a\r\nb"
abbrev mixed : List ℕ
mixed = 97 ∷ 13 ∷ 10 ∷ 98 ∷ []

split_lines-rebuild_example :
    flatten (map (line_bytes decode is_space decode) (split_lines decode is_space mixed)) ≡ mixed
split_lines-rebuild_example =
    split_lines-rebuild decode is_space decode mixed (unfold split_inclusive in (refl, (refl, tt)))
