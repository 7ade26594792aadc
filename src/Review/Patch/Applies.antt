-- ===== src/Review/Patch/Applies.antt =====
-- patch.rs, `apply_parsed`: what a patch says of two files, and that applying it is that.
use mathlib.Core.Path.{subst}
use mathlib.Core.List.{append_assoc, append-nil}
use nits.Prelude.{
  ℕ, zero, suc, ◌+◌, ◌≡◌, refl, sym, ap, ◌∙◌, arith, Bool, true, false, Option, none, some, List,
  [], ◌∷◌, ◌++◌, length, take, drop, get_elem?, length-append, Result, ok, err, leb, ◌&&◌,
  same_bytes→eq, same_bytes_refl,
}
use nits.Review.Patch.{Bytes, PatchError, mismatch, LineKind, context, remove, add, BodyLine, Hunk}
use nits.Review.Patch.Apply.{get_range, same_line, apply_lines}

abbrev pub old_part : LineKind → Bytes → List Bytes → List Bytes
old_part context b ls = b ∷ ls
old_part remove b ls = b ∷ ls
old_part add b ls = ls

abbrev pub new_part : LineKind → Bytes → List Bytes → List Bytes
new_part context b ls = b ∷ ls
new_part remove b ls = ls
new_part add b ls = b ∷ ls

-- The lines of a hunk on the old side and on the new one.
abbrev pub olds : List BodyLine → List Bytes
olds [] = []
olds (l ∷ ls) = old_part l.kind l.bytes (olds ls)

abbrev pub news : List BodyLine → List Bytes
news [] = []
news (l ∷ ls) = new_part l.kind l.bytes (news ls)

-- The files from their lines `i` and `j` on, `xs` and `ys`: untouched lines up to each hunk's
-- offsets, there its lines of each side, and the same lines behind the last hunk.
abbrev pub Applies : ℕ → ℕ → List Hunk → List Bytes → List Bytes → Type 0
Applies i j [] xs ys = xs ≡ ys
Applies i j (h ∷ hs) xs ys =
    (same : List Bytes) × (xs' : List Bytes) × (ys' : List Bytes) × (xs
      ≡ same ++ (olds h.lines ++ xs'))
    × (ys ≡ same ++ (news h.lines ++ ys'))
    × (i + length same ≡ h.old.offset)
    × (j + length same ≡ h.new.offset)
    × Applies (h.old.offset + length (olds h.lines)) (h.new.offset + length (news h.lines)) hs xs'
        ys'

take-append : (xs ys : List Bytes) (n : ℕ) → n ≡ length xs → take n (xs ++ ys) ≡ xs
take-append [] [] zero e = refl
take-append [] (y ∷ ys) zero e = refl
take-append [] ys (suc n) e = absurd (omega arith)
take-append (x ∷ xs) ys zero e = absurd (omega arith)
take-append (x ∷ xs) ys (suc n) e = ap (◌∷◌ x) (take-append xs ys n (omega arith))

drop-append : (xs ys : List Bytes) (n : ℕ) → n ≡ length xs → drop n (xs ++ ys) ≡ ys
drop-append [] ys zero e = refl
drop-append [] ys (suc n) e = absurd (omega arith)
drop-append (x ∷ xs) ys zero e = absurd (omega arith)
drop-append (x ∷ xs) ys (suc n) e = drop-append xs ys n (omega arith)

pub get_elem?-append :
    (xs ys : List Bytes) (n : ℕ) → n ≡ length xs → get_elem? (xs ++ ys) n ≡ get_elem? ys 0
get_elem?-append [] ys zero e = refl
get_elem?-append [] ys (suc n) e = absurd (omega arith)
get_elem?-append (x ∷ xs) ys zero e = absurd (omega arith)
get_elem?-append (x ∷ xs) ys (suc n) e = get_elem?-append xs ys n (omega arith)

-- The lines of the range behind a prefix.
pub get_range-append :
    (old pre us vs : List Bytes) (i n : ℕ)
    → old ≡ pre ++ (us ++ vs)
    → i ≡ length pre
    → n ≡ i + length us
    → get_range old i n ≡ some us
unfolding get_range
get_range-append old pre us vs i n e ei en =
    let split : old ≡ (pre ++ us) ++ vs = e ∙ sym (append_assoc pre us vs) in
    let count : length old ≡ length pre + (length us + length vs) =
      ap length e ∙ length-append pre (us ++ vs) ∙ omega (arith, length-append us vs) in
    let inside : (leb i n && leb n (length old)) ≡ true = ground (arith, count) in
    let part : drop i (take n old) ≡ us =
      ap (λ o. drop i (take n o)) split
      ∙ ap (drop i) (take-append (pre ++ us) vs n (omega (arith, length-append pre us)))
      ∙ drop-append pre us i ei in
    rw (get_range, inside, part) refl

ok_eq :
    {i j : ℕ} {xs ys : List Bytes}
    → i ≡ j
    → xs ≡ ys
    → ◌≡◌ {A = Result {0, 0} (ℕ × List Bytes) PatchError} (ok (i, xs)) (ok (j, ys))
ok_eq e f = cc

-- One line of the loop, for what the rest of it does.
apply_line :
    (old : List Bytes) (k : LineKind) (b : Bytes) (ls : List BodyLine) (pre xs out : List Bytes)
    (i : ℕ)
    → old ≡ pre ++ (old_part k b (olds ls) ++ xs)
    → i ≡ length pre
    → ((pre' out' : List Bytes) (i' : ℕ)
        → old ≡ pre' ++ (olds ls ++ xs)
        → i' ≡ length pre'
        → apply_lines old i' out' ls ≡ ok (i' + length (olds ls), out' ++ news ls))
    → apply_lines old i out (record { kind = k; bytes = b } ∷ ls)
      ≡ ok (i + length (old_part k b (olds ls)), out ++ new_part k b (news ls))
unfolding apply_lines
apply_line old context b ls pre xs out i e ei rest =
    let found : get_elem? old i ≡ some b =
      ap (λ o. get_elem? o i) e ∙ get_elem?-append pre (b ∷ (olds ls ++ xs)) i ei in
    rw (apply_lines, found, same_bytes_refl b)
      (rest (pre ++ b ∷ []) (out ++ b ∷ []) (i + 1)
          (e ∙ sym (append_assoc pre (b ∷ []) (olds ls ++ xs)))
          (omega (arith, length-append pre (b ∷ [])))
        ∙ ok_eq (omega arith) (append_assoc out (b ∷ []) (news ls)))
apply_line old remove b ls pre xs out i e ei rest =
    let found : get_elem? old i ≡ some b =
      ap (λ o. get_elem? o i) e ∙ get_elem?-append pre (b ∷ (olds ls ++ xs)) i ei in
    rw (apply_lines, found, same_bytes_refl b)
      (rest (pre ++ b ∷ []) (out ++ []) (i + 1)
          (e ∙ sym (append_assoc pre (b ∷ []) (olds ls ++ xs)))
          (omega (arith, length-append pre (b ∷ [])))
        ∙ ok_eq (omega arith) (append_assoc out [] (news ls)))
apply_line old add b ls pre xs out i e ei rest =
    rest pre (out ++ b ∷ []) i e ei ∙ ok_eq refl (append_assoc out (b ∷ []) (news ls))

pub apply_lines_ok :
    (old : List Bytes) (ls : List BodyLine) (pre xs out : List Bytes) (i : ℕ)
    → old ≡ pre ++ (olds ls ++ xs)
    → i ≡ length pre
    → apply_lines old i out ls ≡ ok (i + length (olds ls), out ++ news ls)
unfolding apply_lines
apply_lines_ok old [] pre xs out i e ei = ok_eq (omega arith) (sym (append-nil out))
apply_lines_ok old (l ∷ ls) pre xs out i e ei =
    apply_line old l.kind l.bytes ls pre xs out i e ei
      (λ pre' out' i' e' ei'. apply_lines_ok old ls pre' xs out' i' e' ei')

-- The converse: a loop that ends took the lines of the old side.
abbrev pub Took : List BodyLine → ℕ → List Bytes → List Bytes → ℕ × List Bytes → Type 0
Took ls i out xs r =
    (xs' : List Bytes) × (xs ≡ olds ls ++ xs')
    × (r.0 ≡ i + length (olds ls))
    × (r.1 ≡ out ++ news ls)

same_line→some : (o : Option Bytes) (b : Bytes) → same_line o b ≡ true → o ≡ some b
same_line→some none b h = cc
same_line→some (some c) b h = ap some (same_bytes→eq c b h)

head_of :
    (xs : List Bytes) {b : Bytes} → get_elem? xs 0 ≡ some b → (ys : List Bytes) × (xs ≡ b ∷ ys)
head_of [] h = cc
head_of (x ∷ xs) h = (xs, cc)

pub went_on :
    {A : Type 0} (t : Bool) (m : Result {0, 0} A PatchError) (e : PatchError) {r : A}
    → elim t [ true ↦ m | false ↦ err e ] ≡ ok r
    → (t ≡ true) × (m ≡ ok r)
went_on true m e h = (refl, h)
went_on false m e h = cc

take_line :
    (old : List Bytes) (k : LineKind) (b : Bytes) (ls : List BodyLine) (pre xs out : List Bytes)
    (i : ℕ)
    → {r : ℕ × List Bytes} → old ≡ pre ++ xs
    → i ≡ length pre
    → apply_lines old i out (record { kind = k; bytes = b } ∷ ls) ≡ ok r
    → ((pre' xs' out' : List Bytes) (i' : ℕ)
        → old ≡ pre' ++ xs'
        → i' ≡ length pre'
        → apply_lines old i' out' ls ≡ ok r
        → Took ls i' out' xs' r)
    → Took (record { kind = k; bytes = b } ∷ ls) i out xs r
unfolding apply_lines
take_line old context b ls pre xs out i {r} e ei h rest =
    let went =
      went_on (same_line (get_elem? old i) b) (apply_lines old (i + 1) (out ++ b ∷ []) ls)
        (mismatch (i + 1) b (get_elem? old i)) h in
    let found : get_elem? old i ≡ some b = same_line→some (get_elem? old i) b went.0 in
    let here =
      head_of xs (sym (ap (λ o. get_elem? o i) e ∙ get_elem?-append pre xs i ei) ∙ found) in
    let tail =
      rest (pre ++ b ∷ []) here.0 (out ++ b ∷ []) (i + 1)
        (e ∙ ap (λ q. pre ++ q) here.1 ∙ sym (append_assoc pre (b ∷ []) here.0))
        (omega (arith, length-append pre (b ∷ []))) went.1 in
    (
      tail.0,
      here.1 ∙ ap (λ q. b ∷ q) tail.1,
      omega (arith, tail.2),
      tail.3 ∙ append_assoc out (b ∷ []) (news ls),
    )
take_line old remove b ls pre xs out i {r} e ei h rest =
    let went =
      went_on (same_line (get_elem? old i) b) (apply_lines old (i + 1) (out ++ []) ls)
        (mismatch (i + 1) b (get_elem? old i)) h in
    let found : get_elem? old i ≡ some b = same_line→some (get_elem? old i) b went.0 in
    let here =
      head_of xs (sym (ap (λ o. get_elem? o i) e ∙ get_elem?-append pre xs i ei) ∙ found) in
    let tail =
      rest (pre ++ b ∷ []) here.0 (out ++ []) (i + 1)
        (e ∙ ap (λ q. pre ++ q) here.1 ∙ sym (append_assoc pre (b ∷ []) here.0))
        (omega (arith, length-append pre (b ∷ []))) went.1 in
    (
      tail.0,
      here.1 ∙ ap (λ q. b ∷ q) tail.1,
      omega (arith, tail.2),
      tail.3 ∙ append_assoc out [] (news ls),
    )
take_line old add b ls pre xs out i {r} e ei h rest =
    let tail = rest pre xs (out ++ b ∷ []) i e ei h in
    (tail.0, tail.1, tail.2, tail.3 ∙ append_assoc out (b ∷ []) (news ls))

pub apply_lines-Took :
    (old : List Bytes) (ls : List BodyLine) (pre xs out : List Bytes) (i : ℕ) {r : ℕ × List Bytes}
    → old ≡ pre ++ xs
    → i ≡ length pre
    → apply_lines old i out ls ≡ ok r
    → Took ls i out xs r
unfolding apply_lines
apply_lines-Took old [] pre xs out i {r} e ei h =
    let same : (i, out) ≡ r = cc in
    (
      xs,
      refl,
      subst (λ (q : ℕ × List Bytes). q.0 ≡ i + 0) same (omega arith),
      subst (λ (q : ℕ × List Bytes). q.1 ≡ out ++ []) same (sym (append-nil out)),
    )
apply_lines-Took old (l ∷ ls) pre xs out i e ei h =
    take_line old l.kind l.bytes ls pre xs out i e ei h
      (λ pre' xs' out' i' e' ei' h'. apply_lines-Took old ls pre' xs' out' i' e' ei' h')
