-- ===== src/Review/Render/Lines.antt =====
-- crates/nits-review-core/src/render/lines.rs: splitting a blob into lines.
-- `String::from_utf8_lossy` and `char::is_whitespace` are the standard library's: parameters.
pub mod Rebuild
use nits.Prelude.{ℕ, Bool, not, Option, none, some, List, [], ◌∷◌, map, ◌==◌, if◌then◌else◌}
use nits.Protocol.Domain.{Text}

pub data LineEnding : Type 0 where
  lf crlf missing : LineEnding

-- `LineEnding::as_str`, as bytes.
abbrev pub ending_bytes : LineEnding → List ℕ
ending_bytes lf = 10 ∷ []
ending_bytes crlf = 13 ∷ 10 ∷ []
ending_bytes missing = []

pub record Line : Type 0 where
  pub text : Text
  pub ending : LineEnding
  pub normalised : Text

-- A byte joins the piece that follows it.
unfoldable pub push_byte : ℕ → List (List ℕ) → List (List ℕ)
push_byte b [] = (b ∷ []) ∷ []
push_byte b (p ∷ ps) = (b ∷ p) ∷ ps

-- `split_inclusive(|b| *b == b'\n')`
unfoldable pub split_inclusive : List ℕ → List (List ℕ)
unfolding push_byte
split_inclusive [] = []
split_inclusive (b ∷ bs) =
    let rest = split_inclusive bs in if b == 10 then (b ∷ []) ∷ rest else push_byte b rest

-- `strip_suffix` of one byte
unfoldable pub strip_last : ℕ → List ℕ → Option (List ℕ)
strip_last c [] = none
strip_last c (x ∷ []) = if x == c then some [] else none
strip_last c (x ∷ y ∷ r) = elim (strip_last c (y ∷ r)) [ none ↦ none | some p ↦ some (x ∷ p) ]

unfoldable pub take_ending : List ℕ → List ℕ × LineEnding
unfolding strip_last
take_ending raw = elim (strip_last 10 raw) [
  | none ↦ (raw, missing)
  | some line ↦ elim (strip_last 13 line) [ none ↦ (line, lf) | some short ↦ (short, crlf) ]
]

unfoldable pub keep : (ℕ → Bool) → Text → Text
keep p [] = []
keep p (c ∷ cs) = let rest = keep p cs in if p c then c ∷ rest else rest

module _ (from_utf8_lossy : List ℕ → Text) (is_whitespace : ℕ → Bool) where
  unfoldable pub line_of : List ℕ → Line
  unfolding take_ending keep
  line_of raw =
      let (body, how) = take_ending raw in
      record {
        text = from_utf8_lossy body;
        ending = how;
        normalised = keep (λ c. not (is_whitespace c)) (from_utf8_lossy body);
      }

  -- An empty blob has no piece, so the early return needs no clause of its own.
  unfoldable pub split_lines : List ℕ → List Line
  unfolding split_inclusive line_of
  split_lines bytes = map line_of (split_inclusive bytes)

  -- render/mod.rs: `lines_of`
  unfoldable pub lines_of : List ℕ → List Text
  unfolding split_lines
  lines_of bytes = map (λ l. l.text) (split_lines bytes)
