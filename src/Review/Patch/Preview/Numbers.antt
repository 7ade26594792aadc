-- ===== src/Review/Patch/Preview/Numbers.antt =====
-- patch.rs, `preview`: the numbers that it shows are those of the lines in the two files.
use mathlib.Core.Path.{subst}
use mathlib.Core.List.{append_assoc}
use nits.Prelude.{
  ℕ, ◌+◌, ◌≡◌, refl, sym, ap, ◌∙◌, inl, inr, arith, some, List, [], ◌∷◌, ◌++◌, All, length,
  get_elem?, length-append, Result, ok, err, ltb, Bool-cases,
}
use nits.Protocol.Lines.{LineNo, line_no, index, u32_mod}
use nits.Review.Render.Lines.{ending_bytes, split_inclusive}
use nits.Review.Render.Lines.Rebuild.{rejoin-take_ending}
use nits.Review.Patch.{
  Bytes, PatchError, header_error, LineKind, context, remove, add, BodyLine, Hunk,
}
use nits.Review.Patch.Parse.{parse}
use nits.Review.Patch.Apply.{apply_parsed, apply}
use nits.Review.Patch.Applies.{olds, news, old_part, new_part, Applies, get_elem?-append}
use nits.Review.Patch.Inversion.{bind_ok, ok_inj}
use nits.Review.Patch.Parsed.{parse-IsParsed}
use nits.Review.Patch.Reverse.{apply_parsed-Applies}
use nits.Review.Patch.Undo.{IsParsed-LinesArePieces}
use nits.Review.Patch.Preview.{
  SuggestionLineKind, context_line, remove_line, add_line, SuggestionLine, SuggestionHunk,
  PatchPreview, number_of, numbered, preview_lines, preview_hunks, preview,
}

-- The line of a file with that number is these bytes.
abbrev pub LineIs : List Bytes → LineNo → Bytes → Type 0
LineIs ls n b = get_elem? ls (index n) ≡ some b

abbrev pub KindIs : List Bytes → List Bytes → SuggestionLineKind → Bytes → Type 0
KindIs old new (context_line o n) b = LineIs old o b × LineIs new n b
KindIs old new (remove_line o) b = LineIs old o b
KindIs old new (add_line n) b = LineIs new n b

-- A shown line, with its ending, is the line of the files with the numbers shown.
abbrev pub LineShown : List Bytes → List Bytes → SuggestionLine → Type 0
LineShown old new l = KindIs old new l.kind (l.text ++ ending_bytes l.ending)

err_ok :
    {A : Type 0} {e : PatchError} {a : A} → ◌≡◌ {A = Result {0, 0} A PatchError} (err e) (ok a) → ⊥
err_ok h = cc

number_of-index :
    (header : Bytes) (offset : ℕ) {n : LineNo} → number_of header offset ≡ ok n → index n ≡ offset
unfolding number_of index line_no
number_of-index header offset {n} e = elim (Bool-cases (ltb (offset + 1) u32_mod)) [
  | inl small ↦
      let made : line_no (offset + 1) ≡ some (record { get = offset + 1 }) = ground arith in
      let shown : number_of header offset ≡ ok (record { get = offset + 1 }) =
        rw (number_of, small, made) refl in
      ap index (sym (ok_inj (sym shown ∙ e))) ∙ omega arith
  | inr large ↦
      let refused : number_of header offset ≡ err (header_error header) =
        rw (number_of, large) refl in
      absurd (err_ok (sym refused ∙ e))
]

line_there :
    (ls pre : List Bytes) (b : Bytes) (xs : List Bytes) (i : ℕ) (n : LineNo)
    → ls ≡ pre ++ (b ∷ xs)
    → i ≡ length pre
    → index n ≡ i
    → LineIs ls n b
line_there ls pre b xs i n e ei en =
    ap (get_elem? ls) en ∙ ap (λ q. get_elem? q i) e ∙ get_elem?-append pre (b ∷ xs) i ei

-- The rest of a hunk behind one line of it.
abbrev Behind : List Bytes → List Bytes → List BodyLine → List Bytes → List Bytes → ℕ → ℕ → Type 0
Behind old new ls xs ys i j =
    (pre : List Bytes) × (pre' : List Bytes) × (old ≡ pre ++ (olds ls ++ xs))
    × (new ≡ pre' ++ (news ls ++ ys))
    × (i ≡ length pre)
    × (j ≡ length pre')

step_line :
    (ls pre : List Bytes) (b : Bytes) (xs : List Bytes)
    → ls ≡ pre ++ (b ∷ xs)
    → ls ≡ (pre ++ b ∷ []) ++ xs
step_line ls pre b xs e = e ∙ sym (append_assoc pre (b ∷ []) xs)

numbered-KindIs :
    (header : Bytes) (old new : List Bytes) (k : LineKind) (b : Bytes) (ls : List BodyLine)
    → (pre pre' xs ys : List Bytes) (i j : ℕ) {r : SuggestionLineKind × ℕ × ℕ}
    → old ≡ pre ++ (old_part k b (olds ls) ++ xs)
    → new ≡ pre' ++ (new_part k b (news ls) ++ ys)
    → i ≡ length pre
    → j ≡ length pre'
    → numbered header k i j ≡ ok r
    → KindIs old new r.0 b × Behind old new ls xs ys r.1 r.2
unfolding numbered
numbered-KindIs header old new context b ls pre pre' xs ys i j {r} eo en ei ej h =
    let (o, ho, h1) = bind_ok (number_of header i) _ h in
    let (n, hn, h2) = bind_ok (number_of header j) _ h1 in
    subst
      (λ (r : SuggestionLineKind × ℕ × ℕ). KindIs old new r.0 b × Behind old new ls xs ys r.1 r.2)
      (ok_inj h2)
      ((
        (
          line_there old pre b (olds ls ++ xs) i o eo ei (number_of-index header i ho),
          line_there new pre' b (news ls ++ ys) j n en ej (number_of-index header j hn),
        ),
        (
          pre ++ b ∷ [],
          pre' ++ b ∷ [],
          step_line old pre b (olds ls ++ xs) eo,
          step_line new pre' b (news ls ++ ys) en,
          omega (arith, length-append pre (b ∷ [])),
          omega (arith, length-append pre' (b ∷ [])),
        ),
      ))
numbered-KindIs header old new remove b ls pre pre' xs ys i j {r} eo en ei ej h =
    let (o, ho, h1) = bind_ok (number_of header i) _ h in
    subst
      (λ (r : SuggestionLineKind × ℕ × ℕ). KindIs old new r.0 b × Behind old new ls xs ys r.1 r.2)
      (ok_inj h1)
      ((
        line_there old pre b (olds ls ++ xs) i o eo ei (number_of-index header i ho),
        (
          pre ++ b ∷ [],
          pre',
          step_line old pre b (olds ls ++ xs) eo,
          en,
          omega (arith, length-append pre (b ∷ [])),
          ej,
        ),
      ))
numbered-KindIs header old new add b ls pre pre' xs ys i j {r} eo en ei ej h =
    let (n, hn, h1) = bind_ok (number_of header j) _ h in
    subst
      (λ (r : SuggestionLineKind × ℕ × ℕ). KindIs old new r.0 b × Behind old new ls xs ys r.1 r.2)
      (ok_inj h1)
      ((
        line_there new pre' b (news ls ++ ys) j n en ej (number_of-index header j hn),
        (
          pre,
          pre' ++ b ∷ [],
          eo,
          step_line new pre' b (news ls ++ ys) en,
          ei,
          omega (arith, length-append pre' (b ∷ [])),
        ),
      ))

preview_lines-LineShown :
    (header : Bytes) (old new : List Bytes) (ls : List BodyLine) (pre pre' xs ys : List Bytes)
    (i j : ℕ)
    → {shown : List SuggestionLine} → old ≡ pre ++ (olds ls ++ xs)
    → new ≡ pre' ++ (news ls ++ ys)
    → i ≡ length pre
    → j ≡ length pre'
    → preview_lines header i j ls ≡ ok shown
    → All (LineShown old new) shown
unfolding preview_lines
preview_lines-LineShown header old new [] pre pre' xs ys i j eo en ei ej h =
    subst (All (LineShown old new)) (ok_inj h) tt
preview_lines-LineShown header old new (l ∷ ls) pre pre' xs ys i j eo en ei ej h =
    let (k, numbers, h1) = bind_ok (numbered header l.kind i j) _ h in
    let (rest, more, h2) = bind_ok (preview_lines header k.1 k.2 ls) _ h1 in
    let (here, (p, p', eo', en', ei', ej')) =
      numbered-KindIs header old new l.kind l.bytes ls pre pre' xs ys i j eo en ei ej numbers in
    subst (All (LineShown old new)) (ok_inj h2) (
      (
        subst (KindIs old new k.0) (sym (rejoin-take_ending l.bytes)) here,
        preview_lines-LineShown header old new ls p p' xs ys k.1 k.2 eo' en' ei' ej' more,
      ))

abbrev pub HunkShown : List Bytes → List Bytes → SuggestionHunk → Type 0
HunkShown old new h = All (LineShown old new) h.lines

preview_hunks-HunkShown :
    (old new : List Bytes) (hs : List Hunk) (pre pre' xs ys : List Bytes) (i j : ℕ)
    → {shown : List SuggestionHunk} → old ≡ pre ++ xs
    → new ≡ pre' ++ ys
    → i ≡ length pre
    → j ≡ length pre'
    → Applies i j hs xs ys
    → preview_hunks hs ≡ ok shown
    → All (HunkShown old new) shown
unfolding preview_hunks
preview_hunks-HunkShown old new [] pre pre' xs ys i j eo en ei ej a h =
    subst (All (HunkShown old new)) (ok_inj h) tt
preview_hunks-HunkShown old new (k ∷ ks) pre pre' xs ys i j eo en ei ej
      (same, xs', ys', ex, ey, io, jn, a) h =
    let (lines, shown, h1) =
      bind_ok (preview_lines k.header k.old.offset k.new.offset k.lines) _ h in
    let (rest, more, h2) = bind_ok (preview_hunks ks) _ h1 in
    let eo' = eo ∙ ap (λ q. pre ++ q) ex ∙ sym (append_assoc pre same (olds k.lines ++ xs')) in
    let en' = en ∙ ap (λ q. pre' ++ q) ey ∙ sym (append_assoc pre' same (news k.lines ++ ys')) in
    let io' : k.old.offset ≡ length (pre ++ same) = omega (arith, length-append pre same) in
    let jn' : k.new.offset ≡ length (pre' ++ same) = omega (arith, length-append pre' same) in
    subst (All (HunkShown old new)) (ok_inj h2) (
      (
        preview_lines-LineShown k.header old new k.lines (pre ++ same) (pre' ++ same) xs' ys'
            k.old.offset k.new.offset eo' en' io' jn' shown,
        preview_hunks-HunkShown old new ks ((pre ++ same) ++ olds k.lines)
            ((pre' ++ same) ++ news k.lines) xs' ys' (k.old.offset + length (olds k.lines))
            (k.new.offset + length (news k.lines))
            (eo' ∙ sym (append_assoc (pre ++ same) (olds k.lines) xs'))
            (en' ∙ sym (append_assoc (pre' ++ same) (news k.lines) ys'))
            (omega (arith, length-append (pre ++ same) (olds k.lines)))
            (omega (arith, length-append (pre' ++ same) (news k.lines))) a more,
      ))

-- A preview has the bytes that applying the patch gives, and each line that it shows, with its
-- ending, is the line of the original file with the old number shown and the line of the result with
-- the new number shown.
pub preview-HunkShown :
    (original source : Bytes) {p : PatchPreview}
    → preview original source ≡ ok p
    → (apply original source ≡ ok p.result)
      × All (HunkShown (split_inclusive original) (split_inclusive p.result)) p.hunks
unfolding preview apply
preview-HunkShown original source {p} run =
    let (hs, parsed, h1) = bind_ok (parse source) _ run in
    let (out, applied, h2) = bind_ok (apply_parsed original hs) _ h1 in
    let (shown, numbers, h3) = bind_ok (preview_hunks hs) _ h2 in
    let says =
      apply_parsed-Applies original hs (IsParsed-LinesArePieces hs (parse-IsParsed source parsed))
        applied in
    let old = split_inclusive original in
    let new = split_inclusive out in
    subst
      (λ (q : PatchPreview).
        (apply original source ≡ ok q.result)
        × All (HunkShown old (split_inclusive q.result)) q.hunks)
      (ok_inj h3)
      ((
        rw (apply, parsed) applied,
        preview_hunks-HunkShown old new hs [] [] old new 0 0 refl refl refl refl says numbers,
      ))
