-- ===== src/Review/Patch/Split.antt =====
-- patch.rs: splitting the lines of a patched file again gives those lines, by its last check.
use mathlib.Core.List.{flatten, append-nil}
use nits.Prelude.{
  ℕ, ◌≡◌, refl, ap, ◌∙◌, inl, inr, arith, true, false, some, List, [], ◌∷◌, ◌++◌, All, ◌==◌,
  Bool-cases, Option-cases,
}
use nits.Review.Render.Lines.{push_byte, split_inclusive, strip_last}
use nits.Review.Patch.{Bytes, ends_with_newline}
use nits.Review.Patch.Apply.{unended_inside}

-- Bytes with one newline, at the end.
abbrev pub Ended : Bytes → Type 0
Ended [] = ⊥
Ended (c ∷ []) = c ≡ 10
Ended (c ∷ d ∷ cs) = ((c == 10) ≡ false) × Ended (d ∷ cs)

-- Bytes with no newline but at the end; there are some.
abbrev pub Piece : Bytes → Type 0
Piece [] = ⊥
Piece (c ∷ []) = Unit
Piece (c ∷ d ∷ cs) = ((c == 10) ≡ false) × Piece (d ∷ cs)

-- The lines of a file: all but the last have their newline.
abbrev pub Pieces : List Bytes → Type 0
Pieces [] = Unit
Pieces (l ∷ []) = Piece l
Pieces (l ∷ m ∷ ls) = Ended l × Pieces (m ∷ ls)

pub Ended-Piece : (l : Bytes) → Ended l → Piece l
Ended-Piece [] e = e
Ended-Piece (c ∷ []) e = tt
Ended-Piece (c ∷ d ∷ cs) e = (e.0, Ended-Piece (d ∷ cs) e.1)

split_inclusive-append :
    (l bs : Bytes) → Ended l → split_inclusive (l ++ bs) ≡ l ∷ split_inclusive bs
unfolding split_inclusive push_byte
split_inclusive-append [] bs e = absurd e
split_inclusive-append (c ∷ []) bs e = ground arith
split_inclusive-append (c ∷ d ∷ cs) bs e =
    rw (split_inclusive, e.0) (ap (push_byte c) (split_inclusive-append (d ∷ cs) bs e.1))

split_inclusive-one : (l : Bytes) → Piece l → split_inclusive l ≡ l ∷ []
unfolding split_inclusive push_byte
split_inclusive-one [] p = absurd p
split_inclusive-one (c ∷ []) p = ground arith
split_inclusive-one (c ∷ d ∷ cs) p =
    rw (split_inclusive, p.0) (ap (push_byte c) (split_inclusive-one (d ∷ cs) p.1))

pub split_inclusive-flatten : (ls : List Bytes) → Pieces ls → split_inclusive (flatten ls) ≡ ls
unfolding split_inclusive flatten
split_inclusive-flatten [] p = refl
split_inclusive-flatten (l ∷ []) p = ap split_inclusive (append-nil l) ∙ split_inclusive-one l p
split_inclusive-flatten (l ∷ m ∷ ls) p =
    split_inclusive-append l (flatten (m ∷ ls)) p.0
    ∙ ap (λ q. l ∷ q) (split_inclusive-flatten (m ∷ ls) p.1)

push_byte-Pieces :
    (b : ℕ) (ps : List Bytes) → (b == 10) ≡ false → Pieces ps → Pieces (push_byte b ps)
unfolding push_byte
push_byte-Pieces b [] h p = tt
push_byte-Pieces b ([] ∷ []) h p = absurd p
push_byte-Pieces b ((c ∷ cs) ∷ []) h p = (h, p)
push_byte-Pieces b ([] ∷ m ∷ ls) h p = absurd p.0
push_byte-Pieces b ((c ∷ cs) ∷ m ∷ ls) h p = ((h, p.0), p.1)

newline-Pieces : (b : ℕ) (ps : List Bytes) → (b == 10) ≡ true → Pieces ps → Pieces ((b ∷ []) ∷ ps)
newline-Pieces b [] h p = tt
newline-Pieces b (l ∷ ls) h p = (ground (arith, h), p)

pub split_inclusive-Pieces : (bs : Bytes) → Pieces (split_inclusive bs)
unfolding split_inclusive
split_inclusive-Pieces [] = tt
split_inclusive-Pieces (b ∷ bs) = elim (Bool-cases (b == 10)) [
  | inl newline ↦
      rw newline (newline-Pieces b (split_inclusive bs) newline (split_inclusive-Pieces bs))
  | inr other ↦ rw other (push_byte-Pieces b (split_inclusive bs) other (split_inclusive-Pieces bs))
]

pub Pieces-All : (ls : List Bytes) → Pieces ls → All Piece ls
Pieces-All [] p = tt
Pieces-All (l ∷ []) p = (p, tt)
Pieces-All (l ∷ m ∷ ls) p = (Ended-Piece l p.0, Pieces-All (m ∷ ls) p.1)

strip_last-Ended : (l r : Bytes) → Piece l → strip_last 10 l ≡ some r → Ended l
unfolding strip_last
strip_last-Ended [] r p h = absurd p
strip_last-Ended (c ∷ []) r p h = ground arith
strip_last-Ended (c ∷ d ∷ cs) r p h = elim (Option-cases (strip_last 10 (d ∷ cs))) [
  | inl nothing ↦ ground arith
  | inr (q, e) ↦ (p.0, strip_last-Ended (d ∷ cs) q p.1 e)
]

Ended-strip_last : (l : Bytes) → Ended l → (r : Bytes) × (strip_last 10 l ≡ some r)
unfolding strip_last
Ended-strip_last [] e = absurd e
Ended-strip_last (c ∷ []) e = ([], ground arith)
Ended-strip_last (c ∷ d ∷ cs) e =
    let rest = Ended-strip_last (d ∷ cs) e.1 in (c ∷ rest.0, rw rest.1 refl)

ends_with_newline-Ended : (l : Bytes) → Piece l → ends_with_newline l ≡ true → Ended l
unfolding ends_with_newline
ends_with_newline-Ended l p h = elim (Option-cases (strip_last 10 l)) [
  | inl nothing ↦ ground arith
  | inr (r, e) ↦ strip_last-Ended l r p e
]

Ended-ends_with_newline : (l : Bytes) → Ended l → ends_with_newline l ≡ true
unfolding ends_with_newline
Ended-ends_with_newline l e = rw (ends_with_newline, (Ended-strip_last l e).1) refl

-- The last check of `apply_parsed` on lines that are pieces.
pub unended_inside-Pieces : (ls : List Bytes) → All Piece ls → unended_inside ls ≡ false → Pieces ls
unfolding unended_inside
unended_inside-Pieces [] a h = tt
unended_inside-Pieces (l ∷ []) a h = a.0
unended_inside-Pieces (l ∷ m ∷ ls) a h = elim (Bool-cases (ends_with_newline l)) [
  | inl ended ↦ (
    ends_with_newline-Ended l a.0 ended,
    unended_inside-Pieces (m ∷ ls) a.1 (ground (arith, h, ended)),
  )
  | inr open_end ↦ ground (arith, h, open_end)
]

pub Pieces-unended_inside : (ls : List Bytes) → Pieces ls → unended_inside ls ≡ false
unfolding unended_inside
Pieces-unended_inside [] p = refl
Pieces-unended_inside (l ∷ []) p = refl
Pieces-unended_inside (l ∷ m ∷ ls) p =
    ground (arith, Ended-ends_with_newline l p.0, Pieces-unended_inside (m ∷ ls) p.1)
