-- ===== src/Review/Render/Rows/Counts.antt =====
-- render/mod.rs, `build_rows`: the counts of added and deleted lines.
use nits.Prelude.{ℕ, suc, ◌+◌, ◌-◌, ◌%◌, ◌<◌, ◌≡◌, ◌∙◌, arith, List, [], ◌∷◌, ◌++◌}
use nits.Protocol.Lines.{u32_mod}
use nits.Review.Anchor.{Hunk}
use nits.Review.Render.Rows.{
  Row, hunk_header_row, context, removed, added, modified, expander, whitespace_only, to_u32,
}
use nits.Review.Render.Rows.Emit.{additions_from, deletions_from}

module _ {S : Type 0} where
  -- The rows with a changed line of the old side.
  abbrev pub deleted_rows : List (Row S) → ℕ
  deleted_rows [] = 0
  deleted_rows (removed _ ∷ rows) = suc (deleted_rows rows)
  deleted_rows (modified _ _ ∷ rows) = suc (deleted_rows rows)
  deleted_rows (hunk_header_row _ ∷ rows) = deleted_rows rows
  deleted_rows (context _ _ ∷ rows) = deleted_rows rows
  deleted_rows (added _ ∷ rows) = deleted_rows rows
  deleted_rows (expander _ _ _ ∷ rows) = deleted_rows rows
  deleted_rows (whitespace_only ∷ rows) = deleted_rows rows

  -- The rows with a changed line of the new side.
  abbrev pub added_rows : List (Row S) → ℕ
  added_rows [] = 0
  added_rows (added _ ∷ rows) = suc (added_rows rows)
  added_rows (modified _ _ ∷ rows) = suc (added_rows rows)
  added_rows (hunk_header_row _ ∷ rows) = added_rows rows
  added_rows (context _ _ ∷ rows) = added_rows rows
  added_rows (removed _ ∷ rows) = added_rows rows
  added_rows (expander _ _ _ ∷ rows) = added_rows rows
  added_rows (whitespace_only ∷ rows) = added_rows rows

  abbrev pub Counts : ℕ → ℕ → List (Row S) → Type 0
  Counts d a rows = (deleted_rows rows ≡ d) × (added_rows rows ≡ a)

  deleted_rows-append :
      (xs ys : List (Row S)) → deleted_rows (xs ++ ys) ≡ deleted_rows xs + deleted_rows ys
  deleted_rows-append [] ys = omega arith
  deleted_rows-append (removed _ ∷ xs) ys = omega (arith, deleted_rows-append xs ys)
  deleted_rows-append (modified _ _ ∷ xs) ys = omega (arith, deleted_rows-append xs ys)
  deleted_rows-append (hunk_header_row _ ∷ xs) ys = deleted_rows-append xs ys
  deleted_rows-append (context _ _ ∷ xs) ys = deleted_rows-append xs ys
  deleted_rows-append (added _ ∷ xs) ys = deleted_rows-append xs ys
  deleted_rows-append (expander _ _ _ ∷ xs) ys = deleted_rows-append xs ys
  deleted_rows-append (whitespace_only ∷ xs) ys = deleted_rows-append xs ys

  added_rows-append : (xs ys : List (Row S)) → added_rows (xs ++ ys) ≡ added_rows xs + added_rows ys
  added_rows-append [] ys = omega arith
  added_rows-append (added _ ∷ xs) ys = omega (arith, added_rows-append xs ys)
  added_rows-append (modified _ _ ∷ xs) ys = omega (arith, added_rows-append xs ys)
  added_rows-append (hunk_header_row _ ∷ xs) ys = added_rows-append xs ys
  added_rows-append (context _ _ ∷ xs) ys = added_rows-append xs ys
  added_rows-append (removed _ ∷ xs) ys = added_rows-append xs ys
  added_rows-append (expander _ _ _ ∷ xs) ys = added_rows-append xs ys
  added_rows-append (whitespace_only ∷ xs) ys = added_rows-append xs ys

  pub Counts-append :
      (xs ys : List (Row S)) (d a d' a' e b : ℕ)
      → d + d' ≡ e
      → a + a' ≡ b
      → Counts d a xs
      → Counts d' a' ys
      → Counts e b (xs ++ ys)
  Counts-append xs ys d a d' a' e b hd ha cx cy = (
    omega (arith, deleted_rows-append xs ys, cx.0, cy.0),
    omega (arith, added_rows-append xs ys, cx.1, cy.1),
  )

abbrev pub deleted_lines : List Hunk → ℕ
deleted_lines [] = 0
deleted_lines (h ∷ hs) = h.before_end - h.before_start + deleted_lines hs

abbrev pub added_lines : List Hunk → ℕ
added_lines [] = 0
added_lines (h ∷ hs) = h.after_end - h.after_start + added_lines hs

pub deleted_lines-append :
    (hs ks : List Hunk) → deleted_lines (hs ++ ks) ≡ deleted_lines hs + deleted_lines ks
deleted_lines-append [] ks = omega arith
deleted_lines-append (h ∷ hs) ks = omega (arith, deleted_lines-append hs ks)

pub added_lines-append :
    (hs ks : List Hunk) → added_lines (hs ++ ks) ≡ added_lines hs + added_lines ks
added_lines-append [] ks = omega arith
added_lines-append (h ∷ hs) ks = omega (arith, added_lines-append hs ks)

-- The counters do not wrap while the sums fit.
pub deletions_from_lem :
    (n : ℕ) (hs : List Hunk)
    → n + deleted_lines hs < u32_mod
    → deletions_from n hs ≡ n + deleted_lines hs
unfolding deletions_from
deletions_from_lem n [] h = omega arith
deletions_from_lem n (k ∷ hs) h =
    let len : to_u32 (k.before_end - k.before_start) ≡ k.before_end - k.before_start =
      ground arith in
    let m : (n + to_u32 (k.before_end - k.before_start)) % u32_mod
        ≡ n + (k.before_end - k.before_start) =
      rw len (omega arith) in
    rw (deletions_from, m)
      (deletions_from_lem (n + (k.before_end - k.before_start)) hs (omega arith) ∙ omega arith)

pub additions_from_lem :
    (n : ℕ) (hs : List Hunk)
    → n + added_lines hs < u32_mod
    → additions_from n hs ≡ n + added_lines hs
unfolding additions_from
additions_from_lem n [] h = omega arith
additions_from_lem n (k ∷ hs) h =
    let len : to_u32 (k.after_end - k.after_start) ≡ k.after_end - k.after_start = ground arith in
    let m : (n + to_u32 (k.after_end - k.after_start)) % u32_mod
        ≡ n + (k.after_end - k.after_start) =
      rw len (omega arith) in
    rw (additions_from, m)
      (additions_from_lem (n + (k.after_end - k.after_start)) hs (omega arith) ∙ omega arith)
