-- ===== src/Protocol/Gaps/Opened.antt =====
-- domain.rs: opening a gap keeps the expansions canonical and changes that gap alone.
use nits.Prelude.{
  ◌+◌, ◌≤◌, ◌⊎◌, sym, ℕ, ◌<◌, ◌≡◌, ◌≢◌, ◌↔◌, refl, ◌∙◌, inl, inr, arith, List, [], ◌∷◌, ◌++◌, none,
  ok, ◌==◌, if◌then◌else◌, Bool-cases,
}
use mathlib.Core.Path.{subst}
use nits.Protocol.Gaps.{
  GapExpansion, ExpandDir, up_dir, down_dir, both_dirs, saturating_add, check_expansions,
  expansions, of, widen, without, insert_by_gap, sort_by_gap, opened,
}

-- The gaps ascend.
abbrev pub Ascends : List GapExpansion → Type 0
Ascends [] = Unit
Ascends (a ∷ []) = Unit
Ascends (a ∷ b ∷ es) = (a.gap < b.gap) × Ascends (b ∷ es)

check_expansions-Ascends : (es : List GapExpansion) → (check_expansions es ≡ none) ↔ Ascends es
unfolding check_expansions
check_expansions-Ascends [] = ground arith
check_expansions-Ascends (a ∷ []) = ground arith
check_expansions-Ascends (a ∷ b ∷ es) = ground (arith, check_expansions-Ascends (b ∷ es))

-- Exactly the ascending lists are accepted.
expansions-Ascends : (es : List GapExpansion) → (expansions es ≡ ok es) ↔ Ascends es
unfolding expansions
expansions-Ascends es = ground (arith, check_expansions-Ascends es)

-- `gap` stands in no entry.
abbrev IsFree : ℕ → List GapExpansion → Type 0
IsFree gap [] = Unit
IsFree gap (e ∷ es) = (e.gap ≢ gap) × IsFree gap es

abbrev IsDistinct : List GapExpansion → Type 0
IsDistinct [] = Unit
IsDistinct (e ∷ es) = IsFree e.gap es × IsDistinct es

insert_by_gap-IsFree :
    (gap : ℕ) (x : GapExpansion) (es : List GapExpansion)
    → x.gap ≢ gap
    → IsFree gap es
    → IsFree gap (insert_by_gap x es)
unfolding insert_by_gap
insert_by_gap-IsFree gap x [] ne h = (ne, tt)
insert_by_gap-IsFree gap x (e ∷ es) ne h = ground (arith, insert_by_gap-IsFree gap x es ne h.1)

sort_by_gap-IsFree :
    (gap : ℕ) (es : List GapExpansion) → IsFree gap es → IsFree gap (sort_by_gap es)
unfolding sort_by_gap
sort_by_gap-IsFree gap [] h = tt
sort_by_gap-IsFree gap (e ∷ es) h =
    insert_by_gap-IsFree gap e (sort_by_gap es) h.0 (sort_by_gap-IsFree gap es h.1)

insert_by_gap-Ascends :
    (x : GapExpansion) (es : List GapExpansion)
    → IsFree x.gap es
    → Ascends es
    → Ascends (insert_by_gap x es)
unfolding insert_by_gap
insert_by_gap-Ascends x [] free asc = tt
insert_by_gap-Ascends x (e ∷ []) free asc = ground arith
insert_by_gap-Ascends x (e ∷ f ∷ es) free asc =
    ground (arith, insert_by_gap-Ascends x (f ∷ es) free.1 asc.1)

sort_by_gap-Ascends : (es : List GapExpansion) → IsDistinct es → Ascends (sort_by_gap es)
unfolding sort_by_gap
sort_by_gap-Ascends [] h = tt
sort_by_gap-Ascends (e ∷ es) h =
    insert_by_gap-Ascends e (sort_by_gap es) (sort_by_gap-IsFree e.gap es h.0)
      (sort_by_gap-Ascends es h.1)

above_IsFree :
    (a : GapExpansion) (es : List GapExpansion) (gap : ℕ)
    → Ascends (a ∷ es)
    → gap < a.gap
    → IsFree gap (a ∷ es)
above_IsFree a [] gap asc h = (ground arith, tt)
above_IsFree a (b ∷ es) gap asc h =
    (ground arith, above_IsFree b es gap asc.1 (omega (arith, asc.0)))

Ascends-IsDistinct : (es : List GapExpansion) → Ascends es → IsDistinct es
Ascends-IsDistinct [] asc = tt
Ascends-IsDistinct (a ∷ []) asc = (tt, tt)
Ascends-IsDistinct (a ∷ b ∷ es) asc =
    (above_IsFree b es a.gap asc.1 asc.0, Ascends-IsDistinct (b ∷ es) asc.1)

without-append-IsFree :
    (gap k : ℕ) (x : GapExpansion) (es : List GapExpansion)
    → IsFree k es
    → x.gap ≢ k
    → IsFree k (without gap es ++ x ∷ [])
unfolding without
without-append-IsFree gap k x [] h ne = (ne, tt)
without-append-IsFree gap k x (e ∷ es) h ne =
    ground (arith, without-append-IsFree gap k x es h.1 ne)

without-append-IsDistinct :
    (x : GapExpansion) (es : List GapExpansion)
    → IsDistinct es
    → IsDistinct (without x.gap es ++ x ∷ [])
unfolding without
without-append-IsDistinct x [] h = (tt, tt)
without-append-IsDistinct x (e ∷ es) h = elim (Bool-cases (e.gap == x.gap)) [
  | inl here ↦ rw (without, here) (without-append-IsDistinct x es h.1)
  | inr other ↦
      rw (without, other)
        ((
          without-append-IsFree x.gap e.gap x es h.0 (ground arith),
          without-append-IsDistinct x es h.1,
        ))
]

of-insert_by_gap :
    (x : GapExpansion) (es : List GapExpansion) (k : ℕ)
    → of (insert_by_gap x es) k ≡ (if x.gap == k then (x.up, x.down) else of es k)
unfolding insert_by_gap of
of-insert_by_gap x [] k = ground arith
of-insert_by_gap x (e ∷ es) k = ground (arith, of-insert_by_gap x es k)

of-sort_by_gap : (es : List GapExpansion) (k : ℕ) → of (sort_by_gap es) k ≡ of es k
unfolding sort_by_gap of
of-sort_by_gap [] k = refl
of-sort_by_gap (e ∷ es) k =
    ground (arith, of-insert_by_gap e (sort_by_gap es) k, of-sort_by_gap es k)

of-without :
    (x : GapExpansion) (es : List GapExpansion) (k : ℕ)
    → of (without x.gap es ++ x ∷ []) k ≡ (if x.gap == k then (x.up, x.down) else of es k)
unfolding without of
of-without x [] k = ground arith
of-without x (e ∷ es) k = ground (arith, of-without x es k)

-- `after` is `step` more than `before`, or the largest u32 where that is more than it.
abbrev pub Grown : ℕ → ℕ → ℕ → Type 0
Grown step before after =
    ((before + step ≤ 4294967295) × (after ≡ before + step))
    ⊎ ((4294967295 < before + step) × (after ≡ 4294967295))

-- The rows shown at the upper and at the lower end of a gap, before and after.
abbrev pub Widened : ExpandDir → ℕ → ℕ × ℕ → ℕ × ℕ → Type 0
Widened dir step before after = elim dir [
  | up_dir ↦ Grown step before.0 after.0 × (after.1 ≡ before.1)
  | down_dir ↦ (after.0 ≡ before.0) × Grown step before.1 after.1
  | both_dirs ↦ Grown step before.0 after.0 × Grown step before.1 after.1
]

Grown-saturating_add : (n step : ℕ) → Grown step n (saturating_add n step)
Grown-saturating_add n step = ground arith

Widened-widen : (dir : ExpandDir) (step : ℕ) (p : ℕ × ℕ) → Widened dir step p (widen dir step p)
Widened-widen up_dir step (u, d) = (Grown-saturating_add u step, refl)
Widened-widen down_dir step (u, d) = (refl, Grown-saturating_add d step)
Widened-widen both_dirs step (u, d) = (Grown-saturating_add u step, Grown-saturating_add d step)

chosen : (n : ℕ) (a b : ℕ × ℕ) → (if n == n then a else b) ≡ a
chosen n a b = ground arith

skipped : (n k : ℕ) (a b : ℕ × ℕ) → k ≢ n → (if n == k then a else b) ≡ b
skipped n k a b h = ground arith

-- Opening one gap of a canonical set gives a canonical set, which is accepted on the wire. The gap
-- shows `step` rows more at its upper end, at its lower end or at both, as asked for, but never more
-- than 2^32 - 1 at an end; its other end and every other gap stay as they were.
pub opened_lem :
    (es : List GapExpansion) (gap : ℕ) (dir : ExpandDir) (step : ℕ)
    → expansions es ≡ ok es
    → (expansions (opened es gap dir step) ≡ ok (opened es gap dir step))
      × Widened dir step (of es gap) (of (opened es gap dir step) gap)
      × ((k : ℕ) → k ≢ gap → of (opened es gap dir step) k ≡ of es k)
unfolding opened
opened_lem es gap dir step canonical =
    let x : GapExpansion = record {
      gap = gap;
      up = (widen dir step (of es gap)).0;
      down = (widen dir step (of es gap)).1;
    } in
    let shows = λ (k : ℕ). of-sort_by_gap (without gap es ++ x ∷ []) k ∙ of-without x es k in
    (
      (expansions-Ascends (sort_by_gap (without gap es ++ x ∷ []))).1 (
          sort_by_gap-Ascends (without gap es ++ x ∷ []) (
            without-append-IsDistinct x es
              (Ascends-IsDistinct es ((expansions-Ascends es).0 canonical)))),
      subst (λ p. Widened dir step (of es gap) p)
          (sym (shows gap ∙ chosen gap (x.up, x.down) (of es gap)))
          (Widened-widen dir step (of es gap)),
      λ k other. shows k ∙ skipped gap k (x.up, x.down) (of es k) other,
    )
