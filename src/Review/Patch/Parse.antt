-- ===== src/Review/Patch/Parse.antt =====
-- crates/nits-review-core/src/patch.rs: `Patch::try_from`, the parser of unified diffs.
use nits.Prelude.{
  ℕ, ◌+◌, Bool, true, false, not, ◌||◌, Option, none, some, List, [], ◌∷◌, ◌++◌, Result, ok, err,
  ◌>>=◌, ◌==◌, if◌then◌else◌, same_bytes,
}
use nits.Review.Render.Lines.{strip_last, split_inclusive}
use nits.Review.Patch.{
  Bytes, PatchError, header_error, line_error, count_error, empty_patch, unterminated_patch_line,
  misplaced_end_of_file, LineKind, context, remove, add, BodyLine, Hunk, ok_or, starts_with,
  ends_with_newline, trim_newlines, strip_newline, hunk_header,
}

abbrev pub count_line : LineKind → ℕ × ℕ → ℕ × ℕ
count_line context (old, new) = (old + 1, new + 1)
count_line remove (old, new) = (old + 1, new)
count_line add (old, new) = (old, new + 1)

unfoldable pub count_lines : ℕ × ℕ → List BodyLine → ℕ × ℕ
count_lines counts [] = counts
count_lines counts (l ∷ ls) = count_lines (count_line l.kind counts) ls

unfoldable pub validate_counts : Hunk → Result {0, 0} Unit PatchError
unfolding count_lines
validate_counts h =
    let (old, new) = count_lines (0, 0) h.lines in
    if not (old == h.old.count) || not (new == h.new.count)
    then err (count_error h.header)
    else ok tt

abbrev pub no_newline : Bytes
no_newline =
    92 ∷ 32 ∷ 78 ∷ 111 ∷ 32 ∷ 110 ∷ 101 ∷ 119 ∷ 108 ∷ 105 ∷ 110 ∷ 101 ∷ 32 ∷ 97 ∷ 116 ∷ 32 ∷ 101
    ∷ 110 ∷ 100 ∷ 32 ∷ 111 ∷ 102 ∷ 32 ∷ 102 ∷ 105 ∷ 108 ∷ 101 ∷ []

-- `\ No newline at end of file` comes next.
unfoldable pub marker_next : List Bytes → Bool
unfolding trim_newlines
marker_next [] = false
marker_next (l ∷ ls) = same_bytes (trim_newlines l) no_newline

abbrev pub kind_of : ℕ → Option LineKind
kind_of c =
    if c == 32
    then some context
    else if c == 45
    then some remove
    else if c == 43
    then some add
    else none

abbrev pub kept_bytes : Bool → Bytes → Result Bytes PatchError
kept_bytes true content = ok_or (strip_last 10 content) unterminated_patch_line
kept_bytes false content = ok content

-- The behaviour on one body line; whether the marker follows is given.
unfoldable pub body_line : Bytes → Bool → Result BodyLine PatchError
unfolding strip_last ends_with_newline trim_newlines
body_line [] marker = err (line_error [])
body_line (c ∷ content) marker = elim (kind_of c) [
  | none ↦ err (line_error (trim_newlines (c ∷ content)))
  | some kind ↦
      if not (ends_with_newline content)
      then err unterminated_patch_line
      else kept_bytes marker content >>= λ bytes.
          if same_bytes bytes []
          then err misplaced_end_of_file
          else ok (record { kind = kind; bytes = bytes })
]

abbrev pub push_line : Hunk → BodyLine → Hunk
push_line h l = record h { lines = h.lines ++ l ∷ [] }

-- The loops over the lines behind the header of the hunk that is open. A marker is skipped in the
-- step after its line.
unfoldable pub body_from : Hunk → Bool → List Bytes → Result (List Hunk) PatchError
unfolding validate_counts strip_newline hunk_header starts_with body_line marker_next
body_from h skip [] = validate_counts h >>= λ _. ok (h ∷ [])
body_from h true (l ∷ ls) = body_from h false ls
body_from h false (l ∷ ls) = elim (starts_with (64 ∷ 64 ∷ 32 ∷ []) l) [
  | true ↦ validate_counts h >>= λ _.
      hunk_header (strip_newline l) >>= λ next. body_from next false ls >>= λ hs. ok (h ∷ hs)
  | false ↦ body_line l (marker_next ls) >>= λ b. body_from (push_line h b) (marker_next ls) ls
]

unfoldable pub hunks_from : List Bytes → Result (List Hunk) PatchError
unfolding strip_newline hunk_header body_from
hunks_from [] = ok []
hunks_from (l ∷ ls) = hunk_header (strip_newline l) >>= λ h. body_from h false ls

abbrev pub expected_file_header : Bytes
expected_file_header =
    101 ∷ 120 ∷ 112 ∷ 101 ∷ 99 ∷ 116 ∷ 101 ∷ 100 ∷ 32 ∷ 43 ∷ 43 ∷ 43 ∷ 32 ∷ 102 ∷ 105 ∷ 108 ∷ 101
    ∷ 32 ∷ 104 ∷ 101 ∷ 97 ∷ 100 ∷ 101 ∷ 114 ∷ []

-- The pair of file headers, if there is one.
unfoldable pub after_files : List Bytes → Result (List Bytes) PatchError
unfolding starts_with
after_files [] = ok []
after_files (l ∷ []) =
    if starts_with (45 ∷ 45 ∷ 45 ∷ 32 ∷ []) l
    then err (header_error expected_file_header)
    else ok (l ∷ [])
after_files (l ∷ m ∷ ls) =
    if starts_with (45 ∷ 45 ∷ 45 ∷ 32 ∷ []) l
    then if starts_with (43 ∷ 43 ∷ 43 ∷ 32 ∷ []) m
      then ok ls
      else err (header_error expected_file_header)
    else ok (l ∷ m ∷ ls)

abbrev pub some_hunk : List Hunk → Result (List Hunk) PatchError
some_hunk [] = err empty_patch
some_hunk (h ∷ hs) = ok (h ∷ hs)

-- `Patch::try_from`
unfoldable pub parse : Bytes → Result (List Hunk) PatchError
unfolding split_inclusive after_files hunks_from
parse patch = after_files (split_inclusive patch) >>= λ ls. hunks_from ls >>= λ hs. some_hunk hs
