-- ===== src/Review/Patch/Parsed.antt =====
-- patch.rs: what the parser promises of the hunks that it returns.
use mathlib.Core.Path.{subst}
use nits.Prelude.{
  ℕ, ◌+◌, ◌≡◌, refl, sym, ap, ◌∙◌, inl, inr, arith, Bool, true, false, not, ◌&&◌, ◌||◌, Option,
  none, some, List, [], ◌∷◌, length, All, All-append, Result, ok, err, ◌==◌, same_bytes,
  if◌then◌else◌, Bool-cases,
}
use nits.Review.Render.Lines.{split_inclusive, strip_last}
use nits.Review.Patch.{
  Bytes, PatchError, line_error, count_error, header_error, unterminated_patch_line,
  misplaced_end_of_file, LineKind, context, remove, add, BodyLine, Hunk, good_suffix, header_parts,
  hunk_range, hunk_header, ends_with_newline, trim_newlines, strip_newline, starts_with,
}
use nits.Review.Patch.Inversion.{
  bind_ok, ok_or_ok, guard_ok, ok_inj, some_eq, and_then-some, if_some, else_some, else_ok, then_ok,
  branch_ok, if_ok,
}
use nits.Review.Patch.Parse.{
  count_line, count_lines, validate_counts, marker_next, kind_of, kept_bytes, body_line, push_line,
  body_from, hunks_from, after_files, some_hunk, parse,
}
use nits.Review.Patch.Applies.{olds, news}
use nits.Review.Patch.Split.{Piece, split_inclusive-Pieces, Pieces-All}

-- A header opens a hunk without lines.
hunk_header_lem : (l : Bytes) {h : Hunk} → hunk_header l ≡ ok h → h.lines ≡ []
unfolding hunk_header
hunk_header_lem l {h} e =
    let (p, _, e1) = and_then-some (header_parts l) _ (ok_or_ok _ (header_error l) e) in
    let (old, _, e2) = and_then-some (hunk_range p.0) _ (if_some (good_suffix p.2) _ e1) in
    let (new, _, e3) = and_then-some (hunk_range p.1) _ e2 in
    let made = some_eq (else_some ((old.count == 0) && (new.count == 0)) _ e3) in
    ap (λ (k : Hunk). k.lines) (sym made)

count_line_lem :
    (k : LineKind) (b : Bytes) (ls : List BodyLine) (n m : ℕ)
    → ((count_line k (n, m)).0 + length (olds ls)
        ≡ n + length (olds (record { kind = k; bytes = b } ∷ ls)))
      × ((count_line k (n, m)).1 + length (news ls)
          ≡ m + length (news (record { kind = k; bytes = b } ∷ ls)))
count_line_lem context b ls n m = (omega arith, omega arith)
count_line_lem remove b ls n m = (omega arith, omega arith)
count_line_lem add b ls n m = (omega arith, omega arith)

count_lines_lem :
    (ls : List BodyLine) (n m : ℕ)
    → ((count_lines (n, m) ls).0 ≡ n + length (olds ls))
      × ((count_lines (n, m) ls).1 ≡ m + length (news ls))
unfolding count_lines
count_lines_lem [] n m = (omega arith, omega arith)
count_lines_lem (l ∷ ls) n m =
    let next = count_line l.kind (n, m) in
    let rest = count_lines_lem ls next.0 next.1 in
    let here = count_line_lem l.kind l.bytes ls n m in (rest.0 ∙ here.0, rest.1 ∙ here.1)

-- A hunk of a patch: its lines are lines of files, and as many as its header says.
pub record IsParsed (h : Hunk) : Type 0 where
  pub pieces : All (λ l. Piece l.bytes) h.lines
  pub old_count : length (olds h.lines) ≡ h.old.count
  pub new_count : length (news h.lines) ≡ h.new.count

counted :
    (c : ℕ × ℕ) (h : Hunk) {u : Unit}
    → ◌≡◌ {A = Result {0, 0} Unit PatchError}
        (if not (c.0 == h.old.count) || not (c.1 == h.new.count)
          then err (count_error h.header)
          else ok tt)
        (ok u)
    → (c.0 ≡ h.old.count) × (c.1 ≡ h.new.count)
counted c h v = elim (Bool-cases (c.0 == h.old.count)) [
  | inl a ↦ elim (Bool-cases (c.1 == h.new.count)) [
    | inl b ↦ (ground (arith, a), ground (arith, b))
    | inr b ↦ ground (arith, a, b, v)
  ]
  | inr a ↦ ground (arith, a, v)
]

validate_counts-IsParsed :
    (h : Hunk) {u : Unit} → validate_counts h ≡ ok u → All (λ l. Piece l.bytes) h.lines → IsParsed h
unfolding validate_counts
validate_counts-IsParsed h v p =
    let counts = count_lines_lem h.lines 0 0 in
    let agree = counted (count_lines (0, 0) h.lines) h v in
    record {
      pieces = p;
      old_count = omega (arith, counts.0, agree.0);
      new_count = omega (arith, counts.1, agree.1);
    }

cons_some :
    (o : Option Bytes) (c x : ℕ) {xs : Bytes}
    → elim o [ none ↦ none | some q ↦ some (c ∷ q) ] ≡ some (x ∷ xs)
    → (c ≡ x) × (o ≡ some xs)
cons_some none c x h = cc
cons_some (some q) c x h = (cc, cc)

strip_last-Piece :
    (s r : Bytes) → Piece s → strip_last 10 s ≡ some r → same_bytes r [] ≡ false → Piece r
unfolding strip_last
strip_last-Piece [] r p e n = absurd p
strip_last-Piece (c ∷ s) [] p e n = cc
strip_last-Piece (c ∷ s) (x ∷ []) p e n = tt
strip_last-Piece (c ∷ []) (x ∷ y ∷ ys) p e n = elim (Bool-cases (c == 10)) [
  | inl newline ↦ ground (arith, newline, e)
  | inr other ↦ ground (arith, other, e)
]
strip_last-Piece (c ∷ d ∷ cs) (x ∷ y ∷ ys) p e n =
    let same = cons_some (strip_last 10 (d ∷ cs)) c x e in
    (
      subst (λ (q : ℕ). (q == 10) ≡ false) same.0 p.0,
      strip_last-Piece (d ∷ cs) (y ∷ ys) p.1 same.1 refl,
    )

kept_bytes-Piece :
    (marker : Bool) (content : Bytes) {bytes : Bytes}
    → Piece content
    → kept_bytes marker content ≡ ok bytes
    → same_bytes bytes [] ≡ false
    → Piece bytes
kept_bytes-Piece true content p k n =
    strip_last-Piece content _ p (ok_or_ok (strip_last 10 content) unterminated_patch_line k) n
kept_bytes-Piece false content p k n = subst Piece (ok_inj k) p

kind_ok :
    (o : Option LineKind) (e : PatchError) (f : LineKind → Result {0, 0} BodyLine PatchError)
    {b : BodyLine}
    → elim o [ none ↦ err e | some k ↦ f k ] ≡ ok b
    → (k : LineKind) × (f k ≡ ok b)
kind_ok none e f h = cc
kind_ok (some k) e f h = (k, h)

content-Piece :
    (c : ℕ) (content : Bytes)
    → Piece (c ∷ content)
    → ends_with_newline content ≡ true
    → Piece content
unfolding ends_with_newline
content-Piece c [] p e = cc
content-Piece c (d ∷ cs) p e = p.1

body_line-Piece :
    (l : Bytes) (marker : Bool) {b : BodyLine} → Piece l → body_line l marker ≡ ok b → Piece b.bytes
unfolding body_line
body_line-Piece [] marker p e = absurd p
body_line-Piece (c ∷ content) marker p e =
    let (kind, e1) = kind_ok (kind_of c) (line_error (trim_newlines (c ∷ content))) _ e in
    let (ended, e2) = guard_ok (ends_with_newline content) unterminated_patch_line _ e1 in
    let (bytes, kept, e3) = bind_ok (kept_bytes marker content) _ e2 in
    let (present, made) = else_ok (same_bytes bytes []) misplaced_end_of_file _ e3 in
    subst (λ (x : BodyLine). Piece x.bytes) (ok_inj made)
      (kept_bytes-Piece marker content (content-Piece c content p ended) kept present)

body_from-IsParsed :
    (ls : List Bytes) (h : Hunk) (skip : Bool) {hs : List Hunk}
    → All Piece ls
    → All (λ l. Piece l.bytes) h.lines
    → body_from h skip ls ≡ ok hs
    → All IsParsed hs
unfolding body_from
body_from-IsParsed [] h skip p q e =
    let (u, valid, made) = bind_ok (validate_counts h) _ e in
    subst (All IsParsed) (ok_inj made) ((validate_counts-IsParsed h valid q, tt))
body_from-IsParsed (l ∷ ls) h true p q e = body_from-IsParsed ls h false p.1 q e
body_from-IsParsed (l ∷ ls) h false {hs} p q e =
    elim (branch_ok (starts_with (64 ∷ 64 ∷ 32 ∷ []) l) e) [
      | inl next ↦
          let (u, valid, e1) = bind_ok (validate_counts h) _ next in
          let (g, opened, e2) = bind_ok (hunk_header (strip_newline l)) _ e1 in
          let (rest, more, made) = bind_ok (body_from g false ls) _ e2 in
          let fresh =
            subst (All (λ (x : BodyLine). Piece x.bytes))
              (sym (hunk_header_lem (strip_newline l) opened)) tt in
          subst (All IsParsed) (ok_inj made)
            ((validate_counts-IsParsed h valid q, body_from-IsParsed ls g false p.1 fresh more))
      | inr line ↦
          let (b, read, more) = bind_ok (body_line l (marker_next ls)) _ line in
          body_from-IsParsed ls (push_line h b) (marker_next ls) p.1
            (All-append (λ (x : BodyLine). Piece x.bytes) h.lines (b ∷ []) q
              ((body_line-Piece l (marker_next ls) p.0 read, tt)))
            more
    ]

hunks_from-IsParsed :
    (ls : List Bytes) {hs : List Hunk} → All Piece ls → hunks_from ls ≡ ok hs → All IsParsed hs
unfolding hunks_from
hunks_from-IsParsed [] p e = subst (All IsParsed) (ok_inj e) tt
hunks_from-IsParsed (l ∷ ls) p e =
    let (h, opened, more) = bind_ok (hunk_header (strip_newline l)) _ e in
    body_from-IsParsed ls h false p.1
      (subst (All (λ (x : BodyLine). Piece x.bytes))
        (sym (hunk_header_lem (strip_newline l) opened)) tt)
      more

after_files-All :
    (ls : List Bytes) {rest : List Bytes} → All Piece ls → after_files ls ≡ ok rest → All Piece rest
unfolding after_files
after_files-All [] p e = subst (All Piece) (ok_inj e) tt
after_files-All (l ∷ []) p e =
    subst (All Piece) (ok_inj (else_ok (starts_with (45 ∷ 45 ∷ 45 ∷ 32 ∷ []) l) _ _ e).1) p
after_files-All (l ∷ m ∷ ls) p e = elim (if_ok (starts_with (45 ∷ 45 ∷ 45 ∷ 32 ∷ []) l) e) [
  | inl files ↦
      subst (All Piece) (ok_inj (then_ok (starts_with (43 ∷ 43 ∷ 43 ∷ 32 ∷ []) m) _ _ files)) p.1.1
  | inr bare ↦ subst (All Piece) (ok_inj bare) p
]

some_hunk_ok : (hs : List Hunk) {ks : List Hunk} → some_hunk hs ≡ ok ks → hs ≡ ks
some_hunk_ok [] e = cc
some_hunk_ok (h ∷ hs) e = ok_inj e

-- The hunks that the parser returns hold lines of files, and as many on each side as their headers
-- say.
pub parse-IsParsed : (patch : Bytes) {hs : List Hunk} → parse patch ≡ ok hs → All IsParsed hs
unfolding parse
parse-IsParsed patch e =
    let (ls, found, e1) = bind_ok (after_files (split_inclusive patch)) _ e in
    let (hs, read, e2) = bind_ok (hunks_from ls) _ e1 in
    let pieces = Pieces-All (split_inclusive patch) (split_inclusive-Pieces patch) in
    subst (All IsParsed) (some_hunk_ok hs e2)
      (hunks_from-IsParsed ls (after_files-All (split_inclusive patch) pieces found) read)
