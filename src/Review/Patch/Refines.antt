-- ===== src/Review/Patch/Refines.antt =====
-- patch.rs, `apply_parsed`: the patched lines are those that the patch says.
use mathlib.Core.Path.{subst}
use mathlib.Core.List.{append_assoc, append-nil}
use nits.Prelude.{
  ℕ, zero, suc, ◌+◌, ◌-◌, ◌≤◌, ◌≡◌, ◌↔◌, refl, sym, ap, ◌∙◌, inl, inr, arith, true, none, some,
  List, [], ◌∷◌, ◌++◌, length, length-append, ok, leb, ◌==◌, ◌&&◌, Bool-cases,
}
use nits.Review.Patch.{Bytes, header_error, misplaced_end_of_file, Hunk, ok_or}
use nits.Review.Patch.Inversion.{bind_ok, ok_or_ok, guard_ok, none-some, ok_inj, some_eq}
use nits.Review.Patch.Apply.{get_range, apply_lines, apply_hunks, patched_lines}
use nits.Review.Patch.Applies.{
  olds, news, Applies, get_range-append, apply_lines_ok, apply_lines-Took,
}

split_at :
    (xs : List Bytes) (n : ℕ)
    → n ≤ length xs
    → (us : List Bytes) × (vs : List Bytes) × (xs ≡ us ++ vs) × (length us ≡ n)
split_at xs zero h = ([], xs, refl, refl)
split_at [] (suc n) h = absurd (omega arith)
split_at (x ∷ xs) (suc n) h =
    let rest = split_at xs n (omega arith) in
    (x ∷ rest.0, rest.1, ap (◌∷◌ x) rest.2, omega (arith, rest.3))

-- The end of the loop over the hunks, with what is left of the old file.
Ends : List Bytes → ℕ → List Bytes → List Hunk → List Bytes → Type 0
Ends old i out hs ys =
    (c : ℕ) × (out' : List Bytes) × (rest : List Bytes) × (apply_hunks old i out hs ≡ ok (c, out'))
    × (get_range old c (length old) ≡ some rest)
    × (out' ++ rest ≡ out ++ ys)

apply_hunks-Ends :
    (hs : List Hunk) (old pre xs out ys : List Bytes) (i j : ℕ)
    → old ≡ pre ++ xs
    → i ≡ length pre
    → j ≡ length out
    → Applies i j hs xs ys
    → Ends old i out hs ys
unfolding apply_hunks Ends
apply_hunks-Ends [] old pre xs out ys i j e ei ej a = (
  i,
  out,
  xs,
  refl,
  get_range-append old pre xs [] i (length old) (e ∙ ap (λ q. pre ++ q) (sym (append-nil xs))) ei
      (ap length e ∙ omega (arith, length-append pre xs)),
  ap (λ q. out ++ q) a,
)
apply_hunks-Ends (h ∷ hs) old pre xs out ys i j e ei ej (same, xs', ys', ex, ey, eo, en, rest) =
    let behind : old ≡ (pre ++ same) ++ (olds h.lines ++ xs') =
      e ∙ ap (λ q. pre ++ q) ex ∙ sym (append_assoc pre same (olds h.lines ++ xs')) in
    let untouched =
      get_range-append old pre same (olds h.lines ++ xs') i h.old.offset (e ∙ ap (λ q. pre ++ q) ex)
        ei (sym eo) in
    let counted : (length (out ++ same) == h.new.offset) ≡ true =
      ground (arith, length-append out same) in
    let start : h.old.offset ≡ length (pre ++ same) = omega (arith, length-append pre same) in
    let ran =
      apply_lines_ok old h.lines (pre ++ same) xs' (out ++ same) h.old.offset behind start in
    let tail =
      apply_hunks-Ends hs old ((pre ++ same) ++ olds h.lines) xs' ((out ++ same) ++ news h.lines)
        ys' (h.old.offset + length (olds h.lines)) (h.new.offset + length (news h.lines))
        (behind ∙ sym (append_assoc (pre ++ same) (olds h.lines) xs'))
        (omega (arith, length-append (pre ++ same) (olds h.lines)))
        (omega (arith, length-append (out ++ same) (news h.lines), length-append out same)) rest in
    (
      tail.0,
      tail.1,
      tail.2,
      rw (apply_hunks, untouched, counted, ran) tail.3,
      tail.4,
      tail.5
          ∙ append_assoc (out ++ same) (news h.lines) ys'
          ∙ append_assoc out same (news h.lines ++ ys')
          ∙ ap (λ q. out ++ q) (sym ey),
    )

-- The range behind a prefix is the first lines that follow it.
get_range-some :
    (old pre xs us : List Bytes) (i n : ℕ)
    → old ≡ pre ++ xs
    → i ≡ length pre
    → get_range old i n ≡ some us
    → (vs : List Bytes) × (xs ≡ us ++ vs) × (i + length us ≡ n)
unfolding get_range
get_range-some old pre xs us i n e ei h = elim (Bool-cases (leb i n && leb n (length old))) [
  | inl inside ↦
      let count : length old ≡ length pre + length xs = ap length e ∙ length-append pre xs in
      let le : i ≤ n = ground arith in
      let cut = split_at xs (n - i) (ground (arith, count)) in
      let len : n ≡ i + length cut.0 = omega (arith, cut.3, le) in
      let same : cut.0 ≡ us = some_eq (
        sym (get_range-append old pre cut.0 cut.1 i n (e ∙ ap (λ q. pre ++ q) cut.2) ei len) ∙ h) in
      (cut.1, cut.2 ∙ ap (λ q. q ++ cut.1) same, ap (λ q. i + length q) (sym same) ∙ sym len)
  | inr outside ↦
      let nothing : get_range old i n ≡ none = rw (get_range, outside) refl in
      absurd (none-some (sym nothing ∙ h))
]

-- What a hunk's part of the loop did.
hunk_ran :
    (old : List Bytes) (i : ℕ) (out : List Bytes) (h : Hunk) (hs : List Hunk) {r : ℕ × List Bytes}
    → apply_hunks old i out (h ∷ hs) ≡ ok r
    → (same : List Bytes) × (c : ℕ) × (out' : List Bytes) × (get_range old i h.old.offset
        ≡ some same)
      × (length (out ++ same) ≡ h.new.offset)
      × (apply_lines old h.old.offset (out ++ same) h.lines ≡ ok (c, out'))
      × (apply_hunks old c out' hs ≡ ok r)
unfolding apply_hunks
hunk_ran old i out h hs run =
    let (same, got, run') =
      bind_ok (ok_or (get_range old i h.old.offset) (header_error h.header)) _ run in
    let (counted, run'') =
      guard_ok (length (out ++ same) == h.new.offset) (header_error h.header) _ run' in
    let (done, body, later) =
      bind_ok (apply_lines old h.old.offset (out ++ same) h.lines) _ run'' in
    (
      same,
      done.0,
      done.1,
      ok_or_ok (get_range old i h.old.offset) (header_error h.header) got,
      ground (arith, counted),
      body,
      later,
    )

apply_hunks-Applies :
    (hs : List Hunk) (old pre xs out : List Bytes) (i j : ℕ) {c : ℕ} {out' rest : List Bytes}
    → old ≡ pre ++ xs
    → i ≡ length pre
    → j ≡ length out
    → apply_hunks old i out hs ≡ ok (c, out')
    → get_range old c (length old) ≡ some rest
    → (ys : List Bytes) × Applies i j hs xs ys × (out' ++ rest ≡ out ++ ys)
unfolding apply_hunks
apply_hunks-Applies [] old pre xs out i j {c} {out'} {rest} e ei ej h g =
    let same : i ≡ c = cc in
    let same' : out ≡ out' = cc in
    let left : some xs ≡ some rest =
      sym (
        get_range-append old pre xs [] i (length old) (e ∙ ap (λ q. pre ++ q) (sym (append-nil xs)))
          ei (ap length e ∙ omega (arith, length-append pre xs)))
      ∙ ap (λ q. get_range old q (length old)) same
      ∙ g in
    (xs, refl, cc (same', some_eq left))
apply_hunks-Applies (h ∷ hs) old pre xs out i j {c} {out'} {rest} e ei ej run g =
    let (same, c', out'', got, counted, body, later) = hunk_ran old i out h hs run in
    let (vs, ex, eo) = get_range-some old pre xs same i h.old.offset e ei got in
    let behind : old ≡ (pre ++ same) ++ vs =
      e ∙ ap (λ q. pre ++ q) ex ∙ sym (append_assoc pre same vs) in
    let (xs', ex', ec, eout) =
      apply_lines-Took old h.lines (pre ++ same) vs (out ++ same) h.old.offset behind
        (omega (arith, eo, length-append pre same)) body in
    let tail =
      apply_hunks-Applies hs old ((pre ++ same) ++ olds h.lines) xs' out'' c'
        (h.new.offset + length (news h.lines))
        (behind
          ∙ ap (λ q. (pre ++ same) ++ q) ex'
          ∙ sym (append_assoc (pre ++ same) (olds h.lines) xs'))
        (omega (arith, ec, eo, length-append (pre ++ same) (olds h.lines), length-append pre same))
        (sym (
          ap length eout
          ∙ length-append (out ++ same) (news h.lines)
          ∙ ap (λ q. q + length (news h.lines)) counted))
        later g in
    (
      same ++ (news h.lines ++ tail.0),
      (
        same,
        xs',
        tail.0,
        ex ∙ ap (λ q. same ++ q) ex',
        refl,
        eo,
        omega (arith, counted, length-append out same),
        subst (λ (q : ℕ). Applies q (h.new.offset + length (news h.lines)) hs xs' tail.0) ec tail.1,
      ),
      tail.2
          ∙ ap (λ q. q ++ tail.0) eout
          ∙ append_assoc (out ++ same) (news h.lines) tail.0
          ∙ append_assoc out same (news h.lines ++ tail.0),
    )

-- The lines that `apply_parsed` makes of a file are exactly those that the patch says: untouched
-- lines up to each hunk, there the hunk's context and removed lines on the old side and its context
-- and added lines on the new one, at the offsets of its header, and the same lines behind it.
pub patched_lines-Applies :
    (old new : List Bytes) (hs : List Hunk)
    → (patched_lines old hs ≡ ok new) ↔ Applies 0 0 hs old new
unfolding patched_lines Ends
patched_lines-Applies old new hs = (
  λ run.
      let (done, ran, last) = bind_ok (apply_hunks old 0 [] hs) _ run in
      let (rest, got, made) =
        bind_ok (ok_or (get_range old done.0 (length old)) misplaced_end_of_file) _ last in
      let found =
        apply_hunks-Applies hs old [] old [] 0 0 refl refl refl ran
          (ok_or_ok (get_range old done.0 (length old)) misplaced_end_of_file got) in
      subst (λ ls. Applies 0 0 hs old ls) (sym found.2 ∙ ok_inj made) found.1,
  λ says.
      let end = apply_hunks-Ends hs old [] old [] new 0 0 refl refl refl says in
      rw (patched_lines, end.3, end.4) (ap ok end.5),
)
