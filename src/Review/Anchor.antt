-- ===== src/Review/Anchor.antt =====
-- crates/nits-review-core/src/anchor.rs: following a comment's anchor from one blob to another.
-- The diff (imara_diff) and the hasher (`DefaultHasher`) are third-party or standard library code:
-- a differ and a hash of a list of lines are parameters. `u32` sums wrap as in a release build.
pub mod MapRange
use nits.Prelude.{
  ℕ, suc, ◌+◌, ◌-◌, ◌%◌, ◌<◌, Bool, true, false, not, ◌&&◌, ◌||◌, Option, none, some, List, [], ◌∷◌,
  length, take, drop, ltb, leb, ◌==◌, if◌then◌else◌, min, Result, ok, err,
}
use nits.Prelude.Int.{ℤ, pos, negsuc, ◌+ℤ◌, ◌-ℤ◌}
use nits.Protocol.Lines.{u32_mod, LineRange, index, from_index, line_range}
use nits.Protocol.Domain.{
  Text, RepoId, BlobOid, Side, head, Anchor, review, file, lines, CommentState, live, outdated,
  deleted,
}

abbrev pub context_lines : ℕ
context_lines = 3

-- One changed region: rows `before_start .. before_end` of the old side became
-- `after_start .. after_end` of the new one.
pub record Hunk : Type 0 where
  pub before_start : ℕ
  pub before_end : ℕ
  pub after_start : ℕ
  pub after_end : ℕ

-- The lines that the context hash covers, `lines[start.min(end)..end]`.
unfoldable pub context_slice : List Text → LineRange → List Text
context_slice ls r =
    let s = index r.start - context_lines in
    let e = min ((index r.end + context_lines) % u32_mod + 1) (length ls) in
    drop (min s e) (take e ls)

unfoldable pub context_hash : (List Text → ℕ) → List Text → LineRange → ℕ
unfolding context_slice
context_hash hash ls r = hash (context_slice ls r)

pub data PathFate : Type 0 where
  present : Text → BlobOid → PathFate
  gone : PathFate

pub data Reanchor : Type 0 where
  unchanged : Reanchor
  moved : Anchor → CommentState → Reanchor

unfoldable pub effective_anchor : Anchor → CommentState → Anchor
effective_anchor a (outdated good) = good
effective_anchor a live = a
effective_anchor a deleted = a

-- The three tests of the loop body of `map_range`.
abbrev pub touches : Hunk → ℕ → ℕ → Bool
touches h s e = leb h.before_start e && ltb s h.before_end && not (h.before_start == h.before_end)

abbrev pub splits : Hunk → ℕ → ℕ → Bool
splits h s e = (h.before_start == h.before_end) && ltb s h.before_start && leb h.before_start e

abbrev pub lies_before : Hunk → ℕ → Bool
lies_before h s = leb h.before_end s || ((h.before_start == h.before_end) && leb h.before_start s)

-- What a hunk adds to the offset.
unfoldable pub shift : Hunk → ℤ
shift h = (pos h.after_end -ℤ pos h.after_start) -ℤ (pos h.before_end -ℤ pos h.before_start)

-- The loop over the hunks: `none` is the early `return None`.
unfoldable pub walk_hunks : ℕ → ℕ → ℤ → List Hunk → Option ℤ
walk_hunks s e offset [] = some offset
walk_hunks s e offset (h ∷ hs) =
    let rest = walk_hunks s e (if lies_before h s then offset +ℤ shift h else offset) hs in
    if ltb e h.before_start
    then some offset
    else if touches h s e
    then none
    else if splits h s e
    then none
    else rest

-- `u32::try_from` of an `i64`
unfoldable pub to_u32 : ℤ → Option ℕ
to_u32 (pos n) = if ltb n u32_mod then some n else none
to_u32 (negsuc n) = none

abbrev ok_range {ℓ} : {E : Type ℓ} → Result LineRange E → Option LineRange
ok_range (ok r) = some r
ok_range (err _) = none

-- What follows the loop, once both ends are numbers.
unfoldable pub place : ℕ → Option ℕ → Option ℕ → Option LineRange
place new_len (some ns) (some ne) =
    if leb new_len ne then none else ok_range (line_range (from_index ns) (from_index ne))
place new_len (some ns) none = none
place new_len none ne = none

unfoldable pub place_range : ℕ → ℕ → ℕ → ℤ → Option LineRange
unfolding place
place_range new_len s e offset = place new_len (to_u32 (pos s +ℤ offset)) (to_u32 (pos e +ℤ offset))

module _ (diff : List Text → List Text → List Hunk) where
  unfoldable pub map_range : List Text → List Text → LineRange → Option LineRange
  map_range old new r =
      let s = index r.start in
      let e = index r.end in
      if leb (length old) e then none else elim (walk_hunks s e (pos 0) (diff old new)) [
        | none ↦ none
        | some offset ↦ place_range (length new) s e offset
      ]

unfoldable pub side_of : Anchor → Option Side
side_of (lines _ _ s _ _ _) = some s
side_of (file _ _ _) = some head
side_of review = none
