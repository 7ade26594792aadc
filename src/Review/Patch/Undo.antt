-- ===== src/Review/Patch/Undo.antt =====
-- patch.rs, `apply`: an applied suggestion is undone by its reverse.
use nits.Prelude.{◌≡◌, List, [], ◌∷◌, All, ok, map}
use nits.Review.Patch.{Bytes, Hunk}
use nits.Review.Patch.Parse.{parse}
use nits.Review.Patch.Apply.{apply_parsed, apply}
use nits.Review.Patch.Inversion.{bind_ok}
use nits.Review.Patch.Reverse.{reverse_hunk, LinesArePieces, apply_parsed-reverse_hunk}
use nits.Review.Patch.Parsed.{IsParsed, parse-IsParsed}

pub IsParsed-LinesArePieces : (hs : List Hunk) → All IsParsed hs → LinesArePieces hs
IsParsed-LinesArePieces [] p = tt
IsParsed-LinesArePieces (h ∷ hs) p = (p.0.pieces, IsParsed-LinesArePieces hs p.1)

-- If a patch applies to a file, it parses to hunks, and these with the sides of each exchanged apply
-- to the patched file and give the original one back, byte for byte.
pub apply-reverse_hunk :
    (original patch : Bytes) {out : Bytes}
    → apply original patch ≡ ok out
    → (hs : List Hunk) × (parse patch ≡ ok hs)
      × (apply_parsed out (map reverse_hunk hs) ≡ ok original)
unfolding apply
apply-reverse_hunk original patch run =
    let (hs, parsed, applied) = bind_ok (parse patch) (λ hs. apply_parsed original hs) run in
    (
      hs,
      parsed,
      apply_parsed-reverse_hunk original hs
          (IsParsed-LinesArePieces hs (parse-IsParsed patch parsed)) applied,
    )
