-- ===== src/Review/Render/Intraline/Ranges.antt =====
-- render/intraline.rs: the changed ranges of a line.
use nits.Prelude.{
  ltb, ◌∙◌, ap, ℕ, zero, suc, ◌+◌, ◌-◌, ◌≤◌, ◌<◌, ◌≡◌, ◌⊎◌, ◌↔◌, refl, inl, inr, arith, leb,
  Bool-cases, List, [], ◌∷◌, length,
}
use nits.Protocol.Lines.{ColRange, col_range}
use nits.Review.Render.Intraline.{Tok, tok_at, push_new, merge_last, push_range}
use nits.Review.Render.Intraline.Tokens.{
  edge-hi, Contiguous, edge, start-edge, end-edge, edge-le, edge-lt,
}

-- The ranges ascend between `lo` and `hi`; none is empty, and no two of them touch.
abbrev pub Spaced : ℕ → ℕ → List ColRange → Type 0
Spaced lo hi [] = Unit
Spaced lo hi (r ∷ rs) = (lo ≤ r.start) × (r.start < r.end) × (r.end ≤ hi) × Spaced (r.end + 1) hi rs

-- A range covers the column.
abbrev pub In : ℕ → List ColRange → Type 0
In b [] = ⊥
In b (r ∷ rs) = ((r.start ≤ b) × (b < r.end)) ⊎ In b rs

Spaced-widen : (rs : List ColRange) (lo hi hi' : ℕ) → hi ≤ hi' → Spaced lo hi rs → Spaced lo hi' rs
Spaced-widen [] lo hi hi' h s = tt
Spaced-widen (r ∷ rs) lo hi hi' h s =
    (s.0, s.1, omega (arith, s.2), Spaced-widen rs (r.end + 1) hi hi' h s.3)

merge_last-Spaced :
    (out : List ColRange) (lo hi start end : ℕ)
    → Spaced lo hi out
    → lo ≤ start
    → hi ≤ start
    → start < end
    → Spaced lo end (merge_last out start end)
unfolding merge_last push_new col_range
merge_last-Spaced [] lo hi start end s h k e = ground arith
merge_last-Spaced (r ∷ []) lo hi start end s h k e = ground arith
merge_last-Spaced (r ∷ q ∷ rs) lo hi start end s h k e = (
  s.0,
  s.1,
  omega (arith, s.2),
  merge_last-Spaced (q ∷ rs) (r.end + 1) hi start end s.3 (omega (arith, s.3)) k e,
)

merge_last-In :
    (out : List ColRange) (lo hi start end b : ℕ)
    → Spaced lo hi out
    → hi ≤ start
    → start < end
    → In b (merge_last out start end) ↔ (In b out ⊎ ((start ≤ b) × (b < end)))
unfolding merge_last push_new col_range
merge_last-In [] lo hi start end b s k e = ground arith
merge_last-In (r ∷ []) lo hi start end b s k e = ground arith
merge_last-In (r ∷ q ∷ rs) lo hi start end b s k e =
    ground (arith, merge_last-In (q ∷ rs) (r.end + 1) hi start end b s.3 k e)

-- The token ranges of one side, in order and inside the `n` tokens.
abbrev pub Ordered : ℕ → ℕ → List (ℕ × ℕ) → Type 0
Ordered n i [] = Unit
Ordered n i ((s, e) ∷ rs) = (i ≤ s) × (s ≤ e) × (e ≤ n) × Ordered n e rs

-- One of the tokens of the ranges holds the column.
abbrev pub Changed : List Tok → ℕ → List (ℕ × ℕ) → Type 0
Changed toks b [] = ⊥
Changed toks b ((s, e) ∷ rs) =
    ((i : ℕ) × (s ≤ i) × (i < e) × ((tok_at toks i).start ≤ b) × (b < (tok_at toks i).end))
    ⊎ Changed toks b rs

-- `push_range` for the ranges of one side.
abbrev pub push_side : List Tok → List ColRange → List (ℕ × ℕ) → List ColRange
push_side toks out [] = out
push_side toks out ((s, e) ∷ rs) = push_side toks (push_range out toks s e) rs

replace_middle : {P Q R O X Y : Type 0} → P ↔ (Q ⊎ R) → Q ↔ (O ⊎ X) → X ↔ Y → P ↔ (O ⊎ (Y ⊎ R))
replace_middle p q x = ground arith

module _ (toks : List Tok) (hi : ℕ) (c : Contiguous 0 hi toks) where
  -- A column between two edges is in a token between them.
  token_there :
      (n s e b : ℕ)
      → s + n ≡ e
      → e ≤ length toks
      → edge 0 toks s ≤ b
      → b < edge 0 toks e
      → (i : ℕ) × (s ≤ i) × (i < e) × ((tok_at toks i).start ≤ b) × (b < (tok_at toks i).end)
  token_there zero s e b q h l r =
      let same : edge 0 toks s ≡ edge 0 toks e = ap (edge 0 toks) (omega arith) in
      absurd (omega (arith, same))
  token_there (suc n) s e b q h l r = elim (Bool-cases (ltb b (edge 0 toks (s + n)))) [
    | inl before ↦
        let found = token_there n s (s + n) b refl (omega arith) l (ground arith) in
        (found.0, found.1, omega (arith, found.2), found.3, found.4)
    | inr here ↦
        let last : edge 0 toks (suc (s + n)) ≡ edge 0 toks e = ap (edge 0 toks) (omega arith) in
        let from = start-edge toks 0 hi (s + n) c (omega arith) in
        let to = end-edge toks 0 (s + n) (omega arith) in
        let above : edge 0 toks (s + n) ≤ b = ground arith in
        (s + n, omega arith, omega arith, omega (arith, from), omega (arith, to, last))
  ]

  -- The columns of the tokens `s .. e` are those between their edges.
  token_columns :
      (s e b : ℕ)
      → s ≤ e
      → e ≤ length toks
      → ((edge 0 toks s ≤ b) × (b < edge 0 toks e))
        ↔ ((i : ℕ) × (s ≤ i) × (i < e) × ((tok_at toks i).start ≤ b) × (b < (tok_at toks i).end))
  token_columns s e b q h = (
    λ p. token_there (e - s) s e b (omega arith) h p.0 p.1,
    λ p.
        let from = start-edge toks 0 hi p.0 c (omega (arith, p.2)) in
        let to = end-edge toks 0 p.0 (omega (arith, p.2)) in
        (
          omega (arith, from, p.3, edge-le toks 0 hi s p.0 c p.1),
          omega (arith, to, p.4, edge-le toks 0 hi (suc p.0) e c (omega (arith, p.2))),
        ),
  )

  pushed_end : (e s : ℕ) → s < e → e ≤ length toks → (tok_at toks (e - 1)).end ≡ edge 0 toks e
  pushed_end e s h k = end-edge toks 0 (e - 1) (omega arith) ∙ ap (edge 0 toks) (omega arith)

  push_range-Spaced :
      (out : List ColRange) (i s e : ℕ)
      → Spaced 0 (edge 0 toks i) out
      → i ≤ s
      → s ≤ e
      → e ≤ length toks
      → Spaced 0 (edge 0 toks e) (push_range out toks s e)
  unfolding push_range
  push_range-Spaced out i s e sp his hse he = elim (Bool-cases (leb e s)) [
    | inl none_new ↦
        rw (push_range, none_new)
          (Spaced-widen out 0 (edge 0 toks i) (edge 0 toks e)
            (edge-le toks 0 hi i e c (omega arith)) sp)
    | inr some_new ↦
        let lt : s < e = ground arith in
        rw (push_range, some_new, start-edge toks 0 hi s c (omega arith), pushed_end e s lt he)
          (merge_last-Spaced out 0 (edge 0 toks i) (edge 0 toks s) (edge 0 toks e) sp (omega arith)
            (edge-le toks 0 hi i s c his) (edge-lt toks 0 hi s e c lt he))
  ]

  push_range-In :
      (out : List ColRange) (i s e b : ℕ)
      → Spaced 0 (edge 0 toks i) out
      → i ≤ s
      → s ≤ e
      → e ≤ length toks
      → In b (push_range out toks s e) ↔ (In b out ⊎ ((edge 0 toks s ≤ b) × (b < edge 0 toks e)))
  unfolding push_range
  push_range-In out i s e b sp his hse he = elim (Bool-cases (leb e s)) [
    | inl none_new ↦
        let same : edge 0 toks s ≡ edge 0 toks e = ap (edge 0 toks) (ground arith) in
        rw (push_range, none_new) (ground (arith, same))
    | inr some_new ↦
        let lt : s < e = ground arith in
        rw (push_range, some_new, start-edge toks 0 hi s c (omega arith), pushed_end e s lt he)
          (merge_last-In out 0 (edge 0 toks i) (edge 0 toks s) (edge 0 toks e) b sp
            (edge-le toks 0 hi i s c his) (edge-lt toks 0 hi s e c lt he))
  ]

  -- The ranges of one side: in order, apart, and over the columns of the changed tokens.
  pub push_side-Changed :
      (rs : List (ℕ × ℕ)) (out : List ColRange) (i b : ℕ)
      → Spaced 0 (edge 0 toks i) out
      → i ≤ length toks
      → Ordered (length toks) i rs
      → Spaced 0 hi (push_side toks out rs)
        × (In b (push_side toks out rs) ↔ (In b out ⊎ Changed toks b rs))
  push_side-Changed [] out i b sp hi_le o =
      (Spaced-widen out 0 (edge 0 toks i) hi (edge-hi toks 0 hi i c) sp, ground arith)
  push_side-Changed ((s, e) ∷ rs) out i b sp hi_le o =
      let rest =
        push_side-Changed rs (push_range out toks s e) e b
          (push_range-Spaced out i s e sp o.0 o.1 o.2) o.2 o.3 in
      let here = push_range-In out i s e b sp o.0 o.1 o.2 in
      let columns = token_columns s e b o.1 o.2 in (rest.0, replace_middle rest.1 here columns)
