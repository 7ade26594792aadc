-- ===== src/Review/Patch.antt =====
-- crates/nits-review-core/src/patch.rs: unified diffs of suggestions. A `str` is its UTF-8 bytes:
-- every test of the parser is on ASCII characters, which no other character contains. Where an error
-- shows lossily decoded bytes, it holds the bytes here. A `usize` has 64 bits.
pub mod Parse
pub mod Apply
pub mod Applies
pub mod Inversion
pub mod Refines
pub mod Split
pub mod Reverse
pub mod Parsed
pub mod Undo
pub mod Preview
use mathlib.Core.List.{flatten}
use nits.Prelude.{
  ℕ, zero, suc, ◌+◌, ◌-◌, ◌*◌, ◌^◌, Bool, true, false, not, ◌&&◌, ◌||◌, Option, none, some, List,
  [], ◌∷◌, ◌++◌, length, take, drop, get_elem?, Result, ok, err, ◌>>=◌, ltb, leb, ◌==◌,
  if◌then◌else◌, same_bytes,
}
use nits.Review.Render.Lines.{strip_last, split_inclusive}

abbrev pub Bytes : Type 0
Bytes = List ℕ

pub data PatchError : Type 0 where
  header_error line_error count_error : Bytes → PatchError
  empty_patch unterminated_patch_line misplaced_end_of_file : PatchError
  mismatch : ℕ → Bytes → Option Bytes → PatchError

pub record HunkRange : Type 0 where
  pub offset : ℕ
  pub count : ℕ

pub data LineKind : Type 0 where
  context remove add : LineKind

pub record BodyLine : Type 0 where
  pub kind : LineKind
  pub bytes : Bytes

pub record Hunk : Type 0 where
  pub header : Bytes
  pub old : HunkRange
  pub new : HunkRange
  pub lines : List BodyLine

abbrev pub and_then {ℓ κ} : {A : Type ℓ} {B : Type κ} → Option A → (A → Option B) → Option B
and_then none f = none
and_then (some a) f = f a

abbrev pub ok_or {ℓ κ} : {A : Type ℓ} {E : Type κ} → Option A → E → Result A E
ok_or none e = err e
ok_or (some a) e = ok a

unfoldable pub strip_prefix : Bytes → Bytes → Option Bytes
strip_prefix [] s = some s
strip_prefix (p ∷ ps) [] = none
strip_prefix (p ∷ ps) (c ∷ cs) = let rest = strip_prefix ps cs in if p == c then rest else none

unfoldable pub starts_with : Bytes → Bytes → Bool
unfolding strip_prefix
starts_with p s = elim (strip_prefix p s) [ none ↦ false | some _ ↦ true ]

-- The text before the first separator and behind it.
unfoldable pub split_once : Bytes → Bytes → Option (Bytes × Bytes)
unfolding strip_prefix
split_once sep [] = and_then (strip_prefix sep []) (λ r. some ([], r))
split_once sep (c ∷ cs) =
    let rest = split_once sep cs in
    elim (strip_prefix sep (c ∷ cs)) [
      | some r ↦ some ([], r)
      | none ↦ and_then rest (λ q. some (c ∷ q.0, q.1))
    ]

unfoldable pub ends_with_newline : Bytes → Bool
unfolding strip_last
ends_with_newline s = elim (strip_last 10 s) [ none ↦ false | some _ ↦ true ]

unfoldable pub trim_newlines : Bytes → Bytes
trim_newlines [] = []
trim_newlines (c ∷ cs) =
    let rest = trim_newlines cs in if (c == 10) && same_bytes rest [] then [] else c ∷ rest

-- `strip_suffix('\n').unwrap_or(line)`
unfoldable pub strip_newline : Bytes → Bytes
unfolding strip_last
strip_newline s = elim (strip_last 10 s) [ none ↦ s | some t ↦ t ]

abbrev pub all_digits : Bytes → Bool
all_digits [] = true
all_digits (c ∷ cs) = (leb 48 c && leb c 57) && all_digits cs

abbrev pub digits_value : ℕ → Bytes → ℕ
digits_value n [] = n
digits_value n (c ∷ cs) = digits_value (n * 10 + (c - 48)) cs

unfoldable pub number : Bytes → Option ℕ
number value =
    if same_bytes value [] || not (all_digits value)
    then none
    else if ltb (digits_value 0 value) (2 ^ 64)
    then some (digits_value 0 value)
    else none

abbrev pub range_parts : Bytes → Option (ℕ × ℕ)
range_parts value = elim (split_once (44 ∷ []) value) [
  | some (start, count) ↦ and_then (number start) (λ s. and_then (number count) (λ c. some (s, c)))
  | none ↦ and_then (number value) (λ s. some (s, 1))
]

abbrev pub range_offset : ℕ → ℕ → Option ℕ
range_offset start count =
    if count == 0 then some start else if start == 0 then none else some (start - 1)

-- `HunkRange::parse`
unfoldable pub hunk_range : Bytes → Option HunkRange
unfolding split_once number
hunk_range value = and_then (range_parts value) (λ p. and_then (range_offset p.0 p.1) (λ offset.
    if ltb (offset + p.1) (2 ^ 64) then some (record { offset = offset; count = p.1 }) else none))

abbrev pub good_suffix : Bytes → Bool
good_suffix suffix = same_bytes suffix [] || starts_with (32 ∷ []) suffix

abbrev pub header_parts : Bytes → Option (Bytes × Bytes × Bytes)
header_parts line = and_then (strip_prefix (64 ∷ 64 ∷ 32 ∷ 45 ∷ []) line) (λ r.
    and_then (split_once (32 ∷ 43 ∷ []) r)
      (λ p. and_then (split_once (32 ∷ 64 ∷ 64 ∷ []) p.1) (λ q. some (p.0, q.0, q.1))))

-- `Hunk::header`
unfoldable pub hunk_header : Bytes → Result Hunk PatchError
unfolding strip_prefix split_once starts_with hunk_range
hunk_header line =
    ok_or
      (and_then (header_parts line) (λ p.
        if good_suffix p.2
        then and_then (hunk_range p.0) (λ old. and_then (hunk_range p.1) (λ new.
          if (old.count == 0) && (new.count == 0)
          then none
          else some (record { header = line; old = old; new = new; lines = [] })))
        else none))
      (header_error line)
