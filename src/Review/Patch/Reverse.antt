-- ===== src/Review/Patch/Reverse.antt =====
-- patch.rs: a patch undoes its reverse.
use mathlib.Core.Path.{subst}
use mathlib.Core.List.{flatten}
use nits.Prelude.{
  ℕ, ◌+◌, ◌≡◌, refl, sym, ap, ◌∙◌, Bool, true, false, List, [], ◌∷◌, ◌++◌, map, length, All,
  All-append, ok, err, if◌then◌else◌,
}
use nits.Review.Render.Lines.{split_inclusive}
use nits.Review.Render.Lines.Rebuild.{flatten-split_inclusive}
use nits.Review.Patch.{Bytes, misplaced_end_of_file, LineKind, context, remove, add, BodyLine, Hunk}
use nits.Review.Patch.Apply.{patched_lines, unended_inside, apply_parsed}
use nits.Review.Patch.Applies.{olds, news, old_part, new_part, Applies}
use nits.Review.Patch.Refines.{patched_lines-Applies}
use nits.Review.Patch.Inversion.{bind_ok}
use nits.Review.Patch.Split.{
  Piece, split_inclusive-flatten, split_inclusive-Pieces, Pieces-All, unended_inside-Pieces,
  Pieces-unended_inside,
}

abbrev pub reverse_kind : LineKind → LineKind
reverse_kind context = context
reverse_kind remove = add
reverse_kind add = remove

abbrev pub reverse_line : BodyLine → BodyLine
reverse_line l = record { kind = reverse_kind l.kind; bytes = l.bytes }

-- The hunk with its sides exchanged.
abbrev pub reverse_hunk : Hunk → Hunk
reverse_hunk h = record {
  header = h.header;
  old = h.new;
  new = h.old;
  lines = map reverse_line h.lines;
}

old_part-reverse_kind :
    (k : LineKind) (b : Bytes) (ls : List Bytes) → old_part (reverse_kind k) b ls ≡ new_part k b ls
old_part-reverse_kind context b ls = refl
old_part-reverse_kind remove b ls = refl
old_part-reverse_kind add b ls = refl

new_part-reverse_kind :
    (k : LineKind) (b : Bytes) (ls : List Bytes) → new_part (reverse_kind k) b ls ≡ old_part k b ls
new_part-reverse_kind context b ls = refl
new_part-reverse_kind remove b ls = refl
new_part-reverse_kind add b ls = refl

olds-reverse_line : (ls : List BodyLine) → olds (map reverse_line ls) ≡ news ls
olds-reverse_line [] = refl
olds-reverse_line (l ∷ ls) =
    ap (old_part (reverse_kind l.kind) l.bytes) (olds-reverse_line ls)
    ∙ old_part-reverse_kind l.kind l.bytes (news ls)

news-reverse_line : (ls : List BodyLine) → news (map reverse_line ls) ≡ olds ls
news-reverse_line [] = refl
news-reverse_line (l ∷ ls) =
    ap (new_part (reverse_kind l.kind) l.bytes) (news-reverse_line ls)
    ∙ new_part-reverse_kind l.kind l.bytes (olds ls)

-- What a patch says of two files, its reverse says of them in the other order.
Applies-reverse_hunk :
    (hs : List Hunk) (i j : ℕ) (xs ys : List Bytes)
    → Applies i j hs xs ys
    → Applies j i (map reverse_hunk hs) ys xs
Applies-reverse_hunk [] i j xs ys a = sym a
Applies-reverse_hunk (h ∷ hs) i j xs ys (same, xs', ys', ex, ey, eo, en, rest) =
    let eo' = olds-reverse_line h.lines in
    let en' = news-reverse_line h.lines in
    (
      same,
      ys',
      xs',
      ey ∙ ap (λ q. same ++ (q ++ ys')) (sym eo'),
      ex ∙ ap (λ q. same ++ (q ++ xs')) (sym en'),
      en,
      eo,
      subst
          (λ (q : List Bytes).
            Applies (h.new.offset + length q)
              (h.old.offset + length (news (map reverse_line h.lines))) (map reverse_hunk hs) ys'
              xs')
          (sym eo')
          (subst
            (λ (q : List Bytes).
              Applies (h.new.offset + length (news h.lines)) (h.old.offset + length q)
                (map reverse_hunk hs) ys' xs')
            (sym en')
            (Applies-reverse_hunk hs (h.old.offset + length (olds h.lines))
              (h.new.offset + length (news h.lines)) xs' ys' rest)),
    )

-- Every line of the patch is a line of a file.
abbrev pub LinesArePieces : List Hunk → Type 0
LinesArePieces hs = All (λ h. All (λ l. Piece l.bytes) h.lines) hs

All-rest : (xs ys : List Bytes) → All Piece (xs ++ ys) → All Piece ys
All-rest [] ys a = a
All-rest (x ∷ xs) ys a = All-rest xs ys a.1

All-first : (xs ys : List Bytes) → All Piece (xs ++ ys) → All Piece xs
All-first [] ys a = tt
All-first (x ∷ xs) ys a = (a.0, All-first xs ys a.1)

new_part-All :
    (k : LineKind) (b : Bytes) (ls : List Bytes)
    → Piece b
    → All Piece ls
    → All Piece (new_part k b ls)
new_part-All context b ls p a = (p, a)
new_part-All remove b ls p a = a
new_part-All add b ls p a = (p, a)

news-All : (ls : List BodyLine) → All (λ l. Piece l.bytes) ls → All Piece (news ls)
news-All [] a = tt
news-All (l ∷ ls) a = new_part-All l.kind l.bytes (news ls) a.0 (news-All ls a.1)

-- The lines of the patched file are lines of the file or of the patch.
Applies-All :
    (hs : List Hunk) (i j : ℕ) (xs ys : List Bytes)
    → LinesArePieces hs
    → All Piece xs
    → Applies i j hs xs ys
    → All Piece ys
Applies-All [] i j xs ys p a e = subst (All Piece) e a
Applies-All (h ∷ hs) i j xs ys p a (same, xs', ys', ex, ey, eo, en, rest) =
    let a' = subst (All Piece) ex a in
    subst (All Piece) (sym ey) (
      All-append Piece same (news h.lines ++ ys') (All-first same (olds h.lines ++ xs') a') (
        All-append Piece (news h.lines) ys' (news-All h.lines p.0) (
          Applies-All hs (h.old.offset + length (olds h.lines))
            (h.new.offset + length (news h.lines)) xs' ys' p.1
            (All-rest (olds h.lines) xs' (All-rest same (olds h.lines ++ xs') a')) rest)))

ended_ok :
    (t : Bool) (bytes : Bytes) {out : Bytes}
    → (if t then err misplaced_end_of_file else ok bytes) ≡ ok out
    → (t ≡ false) × (bytes ≡ out)
ended_ok true bytes h = cc
ended_ok false bytes h = (refl, cc)

-- The lines of the patched file, split again, are what the patch says: the last check lets them.
pub apply_parsed-Applies :
    (original : Bytes) (hs : List Hunk) {out : Bytes}
    → LinesArePieces hs
    → apply_parsed original hs ≡ ok out
    → Applies 0 0 hs (split_inclusive original) (split_inclusive out)
unfolding apply_parsed
apply_parsed-Applies original hs {out} p run =
    let (new, made, checked) = bind_ok (patched_lines (split_inclusive original) hs) _ run in
    let (ended, same) = ended_ok (unended_inside new) (flatten new) checked in
    let old = split_inclusive original in
    let says = (patched_lines-Applies old new hs).0 made in
    let lines =
      unended_inside-Pieces new
        (Applies-All hs 0 0 old new p (Pieces-All old (split_inclusive-Pieces original)) says)
        ended in
    subst (Applies 0 0 hs old)
      (sym (ap split_inclusive (sym same) ∙ split_inclusive-flatten new lines)) says

-- A patch that applies is undone by its reverse.
pub apply_parsed-reverse_hunk :
    (original : Bytes) (hs : List Hunk) {out : Bytes}
    → LinesArePieces hs
    → apply_parsed original hs ≡ ok out
    → apply_parsed out (map reverse_hunk hs) ≡ ok original
unfolding apply_parsed
apply_parsed-reverse_hunk original hs {out} p run =
    let old = split_inclusive original in
    let new = split_inclusive out in
    let back =
      (patched_lines-Applies new old (map reverse_hunk hs)).1
        (Applies-reverse_hunk hs 0 0 old new (apply_parsed-Applies original hs p run)) in
    rw (apply_parsed, back, Pieces-unended_inside old (split_inclusive-Pieces original))
      (ap ok (flatten-split_inclusive original))
