-- ===== src/Protocol/Gaps.antt =====
-- crates/nits-protocol/src/domain.rs: how far the hidden runs of a render are opened, and
-- crates/nits-protocol/src/render.rs: the table of the rows where they are. A `Gap` is its `u32`.
pub mod Opened
pub mod Table
use nits.Prelude.{
  ℕ, ◌+◌, ◌-◌, ◌<◌, Bool, true, false, not, Option, none, some, List, [], ◌∷◌, ◌++◌, Result, ok,
  err, ltb, leb, ◌==◌, if◌then◌else◌,
}
use nits.Protocol.Lines.{u32_mod}

pub record GapExpansion : Type 0 where
  pub gap : ℕ
  pub up : ℕ
  pub down : ℕ

pub data ExpansionsError : Type 0 where
  duplicate_gap : ℕ → ExpansionsError
  unordered_gaps : ExpansionsError

pub data ExpandDir : Type 0 where
  up_dir down_dir both_dirs : ExpandDir

-- The loop over `windows(2)`; `none` if it ends.
unfoldable pub check_expansions : List GapExpansion → Option ExpansionsError
check_expansions [] = none
check_expansions (a ∷ []) = none
check_expansions (a ∷ b ∷ es) =
    let rest = check_expansions (b ∷ es) in
    if a.gap == b.gap
    then some (duplicate_gap a.gap)
    else if ltb b.gap a.gap
    then some unordered_gaps
    else rest

-- `Expansions::try_from`
unfoldable pub expansions : List GapExpansion → Result (List GapExpansion) ExpansionsError
unfolding check_expansions
expansions es = elim (check_expansions es) [ none ↦ ok es | some e ↦ err e ]

unfoldable pub of : List GapExpansion → ℕ → ℕ × ℕ
of [] gap = (0, 0)
of (e ∷ es) gap = let rest = of es gap in if e.gap == gap then (e.up, e.down) else rest

abbrev pub saturating_add : ℕ → ℕ → ℕ
saturating_add a b = if ltb (a + b) u32_mod then a + b else u32_mod - 1

abbrev pub widen : ExpandDir → ℕ → ℕ × ℕ → ℕ × ℕ
widen up_dir step (up, down) = (saturating_add up step, down)
widen down_dir step (up, down) = (up, saturating_add down step)
widen both_dirs step (up, down) = (saturating_add up step, saturating_add down step)

-- `filter(|e| e.gap != gap)`
unfoldable pub without : ℕ → List GapExpansion → List GapExpansion
without gap [] = []
without gap (e ∷ es) = let rest = without gap es in if e.gap == gap then rest else e ∷ rest

unfoldable pub insert_by_gap : GapExpansion → List GapExpansion → List GapExpansion
insert_by_gap x [] = x ∷ []
insert_by_gap x (e ∷ es) =
    let rest = insert_by_gap x es in if leb x.gap e.gap then x ∷ e ∷ es else e ∷ rest

-- `sort_by_key(|e| e.gap)`, a stable sort.
unfoldable pub sort_by_gap : List GapExpansion → List GapExpansion
unfolding insert_by_gap
sort_by_gap [] = []
sort_by_gap (e ∷ es) = insert_by_gap e (sort_by_gap es)

unfoldable pub opened : List GapExpansion → ℕ → ExpandDir → ℕ → List GapExpansion
unfolding of without sort_by_gap
opened es gap dir step =
    let (up, down) = widen dir step (of es gap) in
    sort_by_gap (without gap es ++ record { gap = gap; up = up; down = down } ∷ [])

pub record GapRow : Type 0 where
  pub gap : ℕ
  pub row : ℕ

pub data GapTableError : Type 0 where
  unordered_rows unordered_table_gaps : GapTableError
  duplicate_table_gap : ℕ → GapTableError

unfoldable pub check_table : List GapRow → Option GapTableError
check_table [] = none
check_table (a ∷ []) = none
check_table (a ∷ b ∷ rows) =
    let rest = check_table (b ∷ rows) in
    if a.gap == b.gap
    then some (duplicate_table_gap a.gap)
    else if ltb b.gap a.gap
    then some unordered_table_gaps
    else if leb b.row a.row
    then some unordered_rows
    else rest

-- `GapTable::try_from`
unfoldable pub gap_table : List GapRow → Result (List GapRow) GapTableError
unfolding check_table
gap_table rows = elim (check_table rows) [ none ↦ ok rows | some e ↦ err e ]

-- The two searches of `nearest`, from the end and from the start.
unfoldable pub last_above : ℕ → List GapRow → Option ℕ
last_above row [] = none
last_above row (g ∷ gs) = elim (last_above row gs) [
  | some gap ↦ some gap
  | none ↦ if leb g.row row then some g.gap else none
]

unfoldable pub first_below : ℕ → List GapRow → Option ℕ
first_below row [] = none
first_below row (g ∷ gs) =
    let rest = first_below row gs in if leb row g.row then some g.gap else rest

unfoldable pub nearest : List GapRow → ℕ → Bool → Option ℕ
unfolding last_above first_below
nearest table row up = if up then last_above row table else first_below row table
