-- ===== src/Review/Render/Intraline.antt =====
-- crates/nits-review-core/src/render/intraline.rs: the columns that differ in a changed line.
-- `char::is_alphanumeric`, `char::is_whitespace` and `char::len_utf8` are the standard library's, the
-- diff of two token sequences is imara_diff's: parameters. A hunk index past the tokens panics in
-- the source and is the empty token here; the hunks of a diff are inside.
pub mod Tokens
pub mod Ranges
pub mod Columns
use nits.Prelude.{
  ℕ, zero, suc, ◌+◌, ◌-◌, Bool, true, false, not, ◌&&◌, List, [], ◌∷◌, ◌++◌, map, ok, err, ltb, leb,
  ◌==◌, if◌then◌else◌,
}
use nits.Protocol.Lines.{ColRange, col_range, u32_mod}
use nits.Protocol.Domain.{Text}
use nits.Review.Anchor.{Hunk}

pub record Tok : Type 0 where
  pub text : Text
  pub start : ℕ
  pub end : ℕ

pub data Class : Type 0 where
  word space other : Class

abbrev pub same_class : Class → Class → Bool
same_class word word = true
same_class space space = true
same_class other other = true
same_class word space = false
same_class word other = false
same_class space word = false
same_class space other = false
same_class other word = false
same_class other space = false

abbrev pub try_u32 : ℕ → ℕ
try_u32 n = if ltb n u32_mod then n else u32_mod - 1

abbrev pub tok : Text → ℕ → ℕ → Tok
tok text start end = record { text = text; start = try_u32 start; end = try_u32 end }

module _ (is_alphanumeric is_whitespace : ℕ → Bool) where
  -- 95 is `_`.
  unfoldable pub class_of : ℕ → Class
  class_of c =
      if is_alphanumeric c
      then word
      else if c == 95
      then word
      else if is_whitespace c
      then space
      else other

  module _ (len_utf8 : ℕ → ℕ) where
    -- The two loops, with the token that is open: its text so far, its first byte and its end. The
    -- inner loop goes on while the class is the same and not `Other`.
    unfoldable pub tokens_from : Text → ℕ → ℕ → Class → Text → List Tok
    unfolding class_of
    tokens_from text start end class [] = tok text start end ∷ []
    tokens_from text start end class (d ∷ ds) =
        elim (not (same_class class other) && same_class (class_of d) class) [
          | true ↦ tokens_from (text ++ d ∷ []) start (end + len_utf8 d) class ds
          | false ↦ tok text start end ∷ tokens_from (d ∷ []) end (end + len_utf8 d) (class_of d) ds
        ]

    unfoldable pub tokens : Text → List Tok
    unfolding tokens_from
    tokens [] = []
    tokens (c ∷ cs) = tokens_from (c ∷ []) 0 (len_utf8 c) (class_of c) cs

abbrev pub tok_at : List Tok → ℕ → Tok
tok_at [] i = record { text = []; start = 0; end = 0 }
tok_at (t ∷ ts) zero = t
tok_at (t ∷ ts) (suc i) = tok_at ts i

-- `if let Ok(cr) = ColRange::new(start, end) { out.push(cr) }`
unfoldable pub push_new : List ColRange → ℕ → ℕ → List ColRange
unfolding col_range
push_new out start end = elim (col_range start end) [ ok cr ↦ out ++ cr ∷ [] | err _ ↦ out ]

-- The last range grows when the new one starts where it ends.
unfoldable pub merge_last : List ColRange → ℕ → ℕ → List ColRange
unfolding push_new col_range
merge_last [] start end = push_new [] start end
merge_last (last ∷ []) start end =
    if last.end == start
    then elim (col_range last.start end) [
      | ok merged ↦ merged ∷ []
      | err _ ↦ push_new (last ∷ []) start end
    ]
    else push_new (last ∷ []) start end
merge_last (r ∷ s ∷ rs) start end = r ∷ merge_last (s ∷ rs) start end

unfoldable pub push_range : List ColRange → List Tok → ℕ → ℕ → List ColRange
unfolding merge_last
push_range out toks start end =
    if leb end start
    then out
    else merge_last out (tok_at toks start).start (tok_at toks (end - 1)).end

unfoldable pub push_ranges :
    List Tok → List Tok → List ColRange → List ColRange → List Hunk → List ColRange × List ColRange
unfolding push_range
push_ranges lt rt l r [] = (l, r)
push_ranges lt rt l r (h ∷ hs) =
    push_ranges lt rt (push_range l lt h.before_start h.before_end)
      (push_range r rt h.after_start h.after_end) hs

module _ (is_alphanumeric is_whitespace : ℕ → Bool) (len_utf8 : ℕ → ℕ)
    (compute : List Text → List Text → List Hunk) where
  unfoldable pub changed_ranges : Text → Text → List ColRange × List ColRange
  unfolding tokens push_ranges
  changed_ranges left right =
      let lt = tokens is_alphanumeric is_whitespace len_utf8 left in
      let rt = tokens is_alphanumeric is_whitespace len_utf8 right in
      push_ranges lt rt [] [] (compute (map (λ t. t.text) lt) (map (λ t. t.text) rt))
