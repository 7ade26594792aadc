-- ===== src/Review/Patch/Apply.antt =====
-- crates/nits-review-core/src/patch.rs: `apply_parsed` and `apply`.
use mathlib.Core.List.{flatten}
use nits.Prelude.{
  ℕ, ◌+◌, Bool, true, false, not, ◌&&◌, ◌||◌, Option, none, some, List, [], ◌∷◌, ◌++◌, length, take,
  drop, get_elem?, Result, ok, err, ◌>>=◌, leb, ◌==◌, if◌then◌else◌, same_bytes,
}
use nits.Review.Render.Lines.{split_inclusive}
use nits.Review.Patch.{
  Bytes, PatchError, header_error, misplaced_end_of_file, mismatch, LineKind, context, remove, add,
  BodyLine, Hunk, ok_or, ends_with_newline,
}
use nits.Review.Patch.Parse.{parse}

-- `old_lines.get(start..end)`
unfoldable pub get_range : List Bytes → ℕ → ℕ → Option (List Bytes)
get_range ls start end =
    if leb start end && leb end (length ls) then some (drop start (take end ls)) else none

abbrev pub same_line : Option Bytes → Bytes → Bool
same_line none b = false
same_line (some found) b = same_bytes found b

abbrev pub kept_line : LineKind → Bytes → List Bytes
kept_line context b = b ∷ []
kept_line remove b = []
kept_line add b = b ∷ []

abbrev pub is_add : LineKind → Bool
is_add context = false
is_add remove = false
is_add add = true

-- The loop over a hunk's lines, with the cursor and the lines so far.
unfoldable pub apply_lines :
    List Bytes → ℕ → List Bytes → List BodyLine → Result (ℕ × List Bytes) PatchError
apply_lines old cursor out [] = ok (cursor, out)
apply_lines old cursor out (l ∷ ls) = elim (is_add l.kind) [
  | true ↦ apply_lines old cursor (out ++ l.bytes ∷ []) ls
  | false ↦ elim (same_line (get_elem? old cursor) l.bytes) [
    | true ↦ apply_lines old (cursor + 1) (out ++ kept_line l.kind l.bytes) ls
    | false ↦ err (mismatch (cursor + 1) l.bytes (get_elem? old cursor))
  ]
]

unfoldable pub apply_hunks :
    List Bytes → ℕ → List Bytes → List Hunk → Result (ℕ × List Bytes) PatchError
unfolding get_range apply_lines
apply_hunks old cursor out [] = ok (cursor, out)
apply_hunks old cursor out (h ∷ hs) =
    ok_or (get_range old cursor h.old.offset) (header_error h.header) >>= λ untouched.
    if not (length (out ++ untouched) == h.new.offset)
    then err (header_error h.header)
    else apply_lines old h.old.offset (out ++ untouched) h.lines >>= λ done.
        apply_hunks old done.0 done.1 hs

-- `out.iter().rev().skip(1).any(|line| !line.ends_with(b"\n"))`
unfoldable pub unended_inside : List Bytes → Bool
unfolding ends_with_newline
unended_inside [] = false
unended_inside (l ∷ []) = false
unended_inside (l ∷ m ∷ ls) = not (ends_with_newline l) || unended_inside (m ∷ ls)

-- The lines of the patched file, before the last check.
unfoldable pub patched_lines : List Bytes → List Hunk → Result (List Bytes) PatchError
unfolding apply_hunks get_range
patched_lines old hunks = apply_hunks old 0 [] hunks >>= λ done.
    ok_or (get_range old done.0 (length old)) misplaced_end_of_file >>= λ rest. ok (done.1 ++ rest)

unfoldable pub apply_parsed : Bytes → List Hunk → Result Bytes PatchError
unfolding split_inclusive patched_lines unended_inside flatten
apply_parsed original hunks = patched_lines (split_inclusive original) hunks >>= λ out.
    if unended_inside out then err misplaced_end_of_file else ok (flatten out)

unfoldable pub apply : Bytes → Bytes → Result Bytes PatchError
unfolding parse apply_parsed
apply original patch = parse patch >>= λ hunks. apply_parsed original hunks
