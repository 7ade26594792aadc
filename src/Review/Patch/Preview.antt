-- ===== src/Review/Patch/Preview.antt =====
-- crates/nits-review-core/src/patch.rs: `preview`, the lines of a patch with their numbers. A `str` is
-- its UTF-8 bytes, so the text of a body line is not decoded again.
pub mod Numbers
use nits.Prelude.{
  ℕ, ◌+◌, ◌^◌, Option, none, some, List, [], ◌∷◌, Result, ok, err, ◌>>=◌, ltb, if◌then◌else◌,
}
use nits.Protocol.Lines.{LineNo, line_no, u32_mod}
use nits.Review.Render.Lines.{LineEnding, take_ending}
use nits.Review.Patch.{
  Bytes, PatchError, header_error, LineKind, context, remove, add, BodyLine, Hunk, ok_or,
}
use nits.Review.Patch.Parse.{parse}
use nits.Review.Patch.Apply.{apply_parsed}

pub data SuggestionLineKind : Type 0 where
  context_line : LineNo → LineNo → SuggestionLineKind
  remove_line : LineNo → SuggestionLineKind
  add_line : LineNo → SuggestionLineKind

pub record SuggestionLine : Type 0 where
  pub kind : SuggestionLineKind
  pub text : Bytes
  pub ending : LineEnding

pub record SuggestionHunk : Type 0 where
  pub header : Bytes
  pub lines : List SuggestionLine

pub record PatchPreview : Type 0 where
  pub hunks : List SuggestionHunk
  pub result : Bytes

-- `checked_add(1)`, then `u32::try_from`, then `LineNo::new`.
unfoldable pub number_of : Bytes → ℕ → Result LineNo PatchError
unfolding line_no
number_of header offset =
    if ltb (offset + 1) u32_mod
    then ok_or (line_no (offset + 1)) (header_error header)
    else err (header_error header)

-- The numbers of one line, and the lines that come next on each side.
unfoldable pub numbered : Bytes → LineKind → ℕ → ℕ → Result (SuggestionLineKind × ℕ × ℕ) PatchError
unfolding number_of
numbered header context old new = number_of header old >>= λ o.
    number_of header new >>= λ n. ok (context_line o n, old + 1, new + 1)
numbered header remove old new = number_of header old >>= λ o. ok (remove_line o, old + 1, new)
numbered header add old new = number_of header new >>= λ n. ok (add_line n, old, new + 1)

unfoldable pub preview_lines :
    Bytes → ℕ → ℕ → List BodyLine → Result (List SuggestionLine) PatchError
unfolding numbered take_ending
preview_lines header old new [] = ok []
preview_lines header old new (l ∷ ls) = numbered header l.kind old new >>= λ k.
    preview_lines header k.1 k.2 ls >>= λ rest.
    let (text, ending) = take_ending l.bytes in
    ok ((record { kind = k.0; text = text; ending = ending }) ∷ rest)

unfoldable pub preview_hunks : List Hunk → Result (List SuggestionHunk) PatchError
unfolding preview_lines
preview_hunks [] = ok []
preview_hunks (h ∷ hs) = preview_lines h.header h.old.offset h.new.offset h.lines >>= λ lines.
    preview_hunks hs >>= λ rest. ok ((record { header = h.header; lines = lines }) ∷ rest)

unfoldable pub preview : Bytes → Bytes → Result PatchPreview PatchError
unfolding parse apply_parsed preview_hunks
preview original source = parse source >>= λ patch. apply_parsed original patch >>= λ result.
    preview_hunks patch >>= λ hunks. ok (record { hunks = hunks; result = result })
