-- ===== src/Review/Render/Rows/Shows.antt =====
-- render/mod.rs: what rows show of two files.
use mathlib.Core.Path.{subst}
use nits.Prelude.{
  ℕ, zero, suc, ◌+◌, ◌-◌, ◌≤◌, ◌<◌, ◌≡◌, refl, sym, ap, ◌∙◌, inl, inr, arith, ◌==◌, Bool-cases,
  some, List, [], ◌∷◌, ◌++◌, length, get_elem?, map, min,
}
use nits.Protocol.Lines.{u32_mod, from_index, ColRange}
use nits.Protocol.Gaps.{ExpandDir}
use nits.Protocol.Domain.{Text}
use nits.Review.Anchor.{Hunk}
use nits.Review.Diff.{SameRows}
use nits.Review.Render.Lines.{Line}
use nits.Review.Render.Rows.{
  Cell, Row, hunk_header_row, context, removed, added, modified, expander, whitespace_only, to_u32,
  line_index, line_at, cell,
}
use nits.Review.Render.Rows.Emit.{
  expander_rows, emit_context, emit_modified, emit_removed, emit_added, emit_hunk,
}

get_elem?-line_at : (ls : List Line) (i : ℕ) → i < length ls → get_elem? ls i ≡ some (line_at ls i)
get_elem?-line_at [] i h = absurd (omega arith)
get_elem?-line_at (l ∷ ls) zero h = refl
get_elem?-line_at (l ∷ ls) (suc i) h = get_elem?-line_at ls i (omega arith)

module _ {A : Type 0} (old new : List Line) (key : Line → A) where
  -- The `k` lines from here on have the same keys on both sides.
  abbrev pub Equal : ℕ → ℕ → ℕ → Type 0
  Equal o n k = SameRows (map key old) (map key new) o n k

  pub Equal-part :
      (o n k o' n' m : ℕ) → o ≤ o' → o' + m ≤ o + k → o' + n ≡ n' + o → Equal o n k → Equal o' n' m
  Equal-part o n k o' n' m h hm e same i hi =
      ap (get_elem? (map key old)) (omega arith)
      ∙ same (o' - o + i) (omega arith)
      ∙ ap (get_elem? (map key new)) (omega arith)

module _ {A S : Type 0} (old new : List Line) (key : Line → A) where
  -- The cell shows line `i` of a side.
  pub record IsCell (side : List Line) (i : ℕ) (c : Cell S) : Type 0 where
    pub line : Line
    pub there : get_elem? side i ≡ some line
    pub number : c.line_no ≡ from_index (line_index i)
    pub text : c.text ≡ line.text
    pub ending : c.ending ≡ line.ending

  -- The rows go through the lines of both sides from `o` and `n` to `o'` and `n'`, in order: every
  -- line is in a row of its side, or hidden behind an expander that counts it. Lines in a context
  -- row and hidden lines have the same key on both sides.
  abbrev pub Shows : List (Row S) → ℕ → ℕ → ℕ → ℕ → Type 0
  Shows [] o n o' n' = (o ≡ o') × (n ≡ n')
  Shows (hunk_header_row _ ∷ rows) o n o' n' = Shows rows o n o' n'
  Shows (context l r ∷ rows) o n o' n' =
      IsCell old o l × IsCell new n r × Equal old new key o n 1 × Shows rows (o + 1) (n + 1) o' n'
  Shows (removed l ∷ rows) o n o' n' = IsCell old o l × Shows rows (o + 1) n o' n'
  Shows (added r ∷ rows) o n o' n' = IsCell new n r × Shows rows o (n + 1) o' n'
  Shows (modified l r ∷ rows) o n o' n' =
      IsCell old o l × IsCell new n r × Shows rows (o + 1) (n + 1) o' n'
  Shows (expander k _ _ ∷ rows) o n o' n' =
      (0 < k) × Equal old new key o n k × Shows rows (o + k) (n + k) o' n'
  Shows (whitespace_only ∷ rows) o n o' n' = ⊥

  pub Shows-append :
      (xs ys : List (Row S)) (o n a b o' n' : ℕ)
      → Shows xs o n a b
      → Shows ys a b o' n'
      → Shows (xs ++ ys) o n o' n'
  Shows-append [] ys o n a b o' n' h k =
      subst (λ (i : ℕ). Shows ys i n o' n') (sym h.0)
        (subst (λ (j : ℕ). Shows ys a j o' n') (sym h.1) k)
  Shows-append (hunk_header_row _ ∷ xs) ys o n a b o' n' h k = Shows-append xs ys o n a b o' n' h k
  Shows-append (context l r ∷ xs) ys o n a b o' n' h k =
      (h.0, h.1, h.2, Shows-append xs ys (o + 1) (n + 1) a b o' n' h.3 k)
  Shows-append (removed l ∷ xs) ys o n a b o' n' h k =
      (h.0, Shows-append xs ys (o + 1) n a b o' n' h.1 k)
  Shows-append (added r ∷ xs) ys o n a b o' n' h k =
      (h.0, Shows-append xs ys o (n + 1) a b o' n' h.1 k)
  Shows-append (modified l r ∷ xs) ys o n a b o' n' h k =
      (h.0, h.1, Shows-append xs ys (o + 1) (n + 1) a b o' n' h.2 k)
  Shows-append (expander m _ _ ∷ xs) ys o n a b o' n' h k =
      (h.0, h.1, Shows-append xs ys (o + m) (n + m) a b o' n' h.2 k)
  Shows-append (whitespace_only ∷ xs) ys o n a b o' n' h k = absurd h

  cell-IsCell :
      (side : List Line) (i : ℕ) (spans : List (List S)) (changed : List ColRange)
      → i < length side
      → IsCell side i (cell i (line_at side i) spans changed)
  unfolding cell
  cell-IsCell side i spans changed h = record {
    line = line_at side i;
    there = get_elem?-line_at side i h;
    number = refl;
    text = refl;
    ending = refl;
  }

  module _ (changed_ranges : Text → Text → List ColRange × List ColRange)
      (old_spans new_spans : List (List S)) where
    pub emit_context-Shows :
        (count o n o' n' : ℕ)
        → o + count ≡ o'
        → n + count ≡ n'
        → o' ≤ length old
        → n' ≤ length new
        → Equal old new key o n count
        → Shows (emit_context changed_ranges old new old_spans new_spans o n count) o n o' n'
    unfolding emit_context
    emit_context-Shows zero o n o' n' eo en ho hn same = (omega arith, omega arith)
    emit_context-Shows (suc count) o n o' n' eo en ho hn same = (
      cell-IsCell old o old_spans [] (omega arith),
      cell-IsCell new n new_spans [] (omega arith),
      Equal-part old new key o n (suc count) o n 1 (omega arith) (omega arith) (omega arith) same,
      emit_context-Shows count (o + 1) (n + 1) o' n' (omega arith) (omega arith) ho hn (
          Equal-part old new key o n (suc count) (o + 1) (n + 1) count (omega arith) (omega arith)
            (omega arith) same),
    )

    emit_modified-Shows :
        (count o n o' n' : ℕ)
        → o + count ≡ o'
        → n + count ≡ n'
        → o' ≤ length old
        → n' ≤ length new
        → Shows (emit_modified changed_ranges old new old_spans new_spans o n count) o n o' n'
    unfolding emit_modified
    emit_modified-Shows zero o n o' n' eo en ho hn = (omega arith, omega arith)
    emit_modified-Shows (suc count) o n o' n' eo en ho hn =
        let ranges = changed_ranges (line_at old o).text (line_at new n).text in
        (
          cell-IsCell old o old_spans ranges.0 (omega arith),
          cell-IsCell new n new_spans ranges.1 (omega arith),
          emit_modified-Shows count (o + 1) (n + 1) o' n' (omega arith) (omega arith) ho hn,
        )

    emit_removed-Shows :
        (count o n o' : ℕ)
        → o + count ≡ o'
        → o' ≤ length old
        → Shows (emit_removed changed_ranges old new old_spans new_spans o count) o n o' n
    unfolding emit_removed
    emit_removed-Shows zero o n o' eo ho = (omega arith, refl)
    emit_removed-Shows (suc count) o n o' eo ho = (
      cell-IsCell old o old_spans [] (omega arith),
      emit_removed-Shows count (o + 1) n o' (omega arith) ho,
    )

    emit_added-Shows :
        (count o n n' : ℕ)
        → n + count ≡ n'
        → n' ≤ length new
        → Shows (emit_added changed_ranges old new old_spans new_spans n count) o n o n'
    unfolding emit_added
    emit_added-Shows zero o n n' en hn = (refl, omega arith)
    emit_added-Shows (suc count) o n n' en hn = (
      cell-IsCell new n new_spans [] (omega arith),
      emit_added-Shows count o (n + 1) n' (omega arith) hn,
    )

    -- A hunk's rows go through its lines on both sides.
    pub emit_hunk-Shows :
        (h : Hunk)
        → h.before_start ≤ h.before_end
        → h.after_start ≤ h.after_end
        → h.before_end ≤ length old
        → h.after_end ≤ length new
        → Shows
            (emit_hunk changed_ranges old new old_spans new_spans h)
            h.before_start
            h.after_start
            h.before_end
            h.after_end
    unfolding emit_hunk
    emit_hunk-Shows h ho hn lo ln =
        let p = min (h.before_end - h.before_start) (h.after_end - h.after_start) in
        let a =
          emit_modified changed_ranges old new old_spans new_spans h.before_start h.after_start p in
        let b =
          emit_removed changed_ranges old new old_spans new_spans (h.before_start + p)
            (h.before_end - h.before_start - p) in
        let c =
          emit_added changed_ranges old new old_spans new_spans (h.after_start + p)
            (h.after_end - h.after_start - p) in
        Shows-append a (b ++ c) h.before_start h.after_start (h.before_start + p)
          (h.after_start + p) h.before_end h.after_end
          (emit_modified-Shows p h.before_start h.after_start (h.before_start + p)
            (h.after_start + p) refl refl (omega arith) (omega arith))
          (Shows-append b c (h.before_start + p) (h.after_start + p) h.before_end
            (h.after_start + p) h.before_end h.after_end
            (emit_removed-Shows (h.before_end - h.before_start - p) (h.before_start + p)
              (h.after_start + p) h.before_end (omega arith) lo)
            (emit_added-Shows (h.after_end - h.after_start - p) h.before_end (h.after_start + p)
              h.after_end (omega arith) ln))

    pub expander_rows-Shows :
        (k o n o' n' : ℕ) (dir : ExpandDir) (gap : ℕ)
        → o + k ≡ o'
        → n + k ≡ n'
        → k < u32_mod
        → Equal old new key o n k
        → Shows (expander_rows k dir gap) o n o' n'
    expander_rows-Shows k o n o' n' dir gap eo en hk same = elim (Bool-cases (k == 0)) [
      | inl none_hidden ↦ rw none_hidden ((ground arith, ground arith))
      | inr hidden ↦
          let whole : to_u32 k ≡ k = ground arith in
          rw (hidden, whole) ((ground arith, same, (eo, en)))
    ]
