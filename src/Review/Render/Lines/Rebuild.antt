-- ===== src/Review/Render/Lines/Rebuild.antt =====
-- render/lines.rs: the lines of a blob, with their terminators, are the blob.
use mathlib.Core.List.{flatten, append-nil, append_assoc}
use nits.Prelude.{
  ℕ, ◌≡◌, refl, ◌∙◌, inl, inr, Option-cases, Bool, some, List, [], ◌∷◌, ◌++◌, map, All, arith,
}
use nits.Protocol.Domain.{Text}
use nits.Review.Render.Lines.{
  Line, LineEnding, ending_bytes, push_byte, split_inclusive, strip_last, take_ending, line_of,
  split_lines,
}

flatten-push_byte : (b : ℕ) (ps : List (List ℕ)) → flatten (push_byte b ps) ≡ b ∷ flatten ps
unfolding push_byte flatten
flatten-push_byte b [] = refl
flatten-push_byte b (p ∷ ps) = refl

pub flatten-split_inclusive : (bs : List ℕ) → flatten (split_inclusive bs) ≡ bs
unfolding split_inclusive flatten
flatten-split_inclusive [] = refl
flatten-split_inclusive (b ∷ bs) =
    ground (arith, flatten-push_byte b (split_inclusive bs), flatten-split_inclusive bs)

strip_last-append :
    (c : ℕ) (raw : List ℕ) {p : List ℕ} → strip_last c raw ≡ some p → p ++ c ∷ [] ≡ raw
unfolding strip_last
strip_last-append c [] h = cc
strip_last-append c (x ∷ []) h = ground arith
strip_last-append c (x ∷ y ∷ r) {p} h = elim (Option-cases (strip_last c (y ∷ r))) [
  | inl e ↦ ground arith
  | inr (q, e) ↦ ground (arith, strip_last-append c (y ∷ r) e)
]

abbrev pub rejoin : List ℕ × LineEnding → List ℕ
rejoin (body, how) = body ++ ending_bytes how

pub rejoin-take_ending : (raw : List ℕ) → rejoin (take_ending raw) ≡ raw
unfolding take_ending
rejoin-take_ending raw = elim (Option-cases (strip_last 10 raw)) [
  | inl e ↦ rw (e, take_ending) (append-nil raw)
  | inr (line, e) ↦ elim (Option-cases (strip_last 13 line)) [
    | inl e' ↦ rw (e, e', take_ending) (strip_last-append 10 raw e)
    | inr (short, e') ↦
        rw (e, e', take_ending)
          (cc (
            append_assoc short (13 ∷ []) (10 ∷ []),
            strip_last-append 13 line e',
            strip_last-append 10 raw e,
          ))
  ]
]

module _ (from_utf8_lossy : List ℕ → Text) (is_whitespace : ℕ → Bool) (encode : Text → List ℕ) where
  -- The pieces that decode to a text with the same bytes: those of a blob in valid UTF-8.
  abbrev pub IsExact : List ℕ → Type 0
  IsExact raw = encode (from_utf8_lossy (take_ending raw).0) ≡ (take_ending raw).0

  abbrev pub line_bytes : Line → List ℕ
  line_bytes l = encode l.text ++ ending_bytes l.ending

  flatten-lines :
      (ps : List (List ℕ))
      → All IsExact ps
      → flatten (map line_bytes (map (line_of from_utf8_lossy is_whitespace) ps)) ≡ flatten ps
  unfolding line_of flatten
  flatten-lines [] h = refl
  flatten-lines (p ∷ ps) h = cc (h.0, rejoin-take_ending p, flatten-lines ps h.1)

  -- A blob whose pieces decode exactly is rebuilt by its lines, each text followed by its own
  -- terminator: no byte is lost or added, whatever mix of endings it has.
  pub split_lines-rebuild :
      (bytes : List ℕ)
      → All IsExact (split_inclusive bytes)
      → flatten (map line_bytes (split_lines from_utf8_lossy is_whitespace bytes)) ≡ bytes
  unfolding split_lines
  split_lines-rebuild bytes h =
      flatten-lines (split_inclusive bytes) h ∙ flatten-split_inclusive bytes
