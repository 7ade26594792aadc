-- ===== src/Protocol/Gaps/Table.antt =====
-- render.rs: the nearest expander of a table of gaps.
use mathlib.Core.Path.{subst}
use nits.Prelude.{
  sym, ℕ, ◌<◌, ◌≤◌, ◌≡◌, ◌⊎◌, ◌↔◌, refl, inl, inr, arith, true, false, Option, none, some, List, [],
  ◌∷◌, ok, leb, Bool-cases, Option-cases,
}
use nits.Protocol.Gaps.{GapRow, check_table, gap_table, last_above, first_below, nearest}

-- Gaps and rows ascend.
abbrev pub TableAscends : List GapRow → Type 0
TableAscends [] = Unit
TableAscends (a ∷ []) = Unit
TableAscends (a ∷ b ∷ rows) = (a.gap < b.gap) × (a.row < b.row) × TableAscends (b ∷ rows)

check_table-TableAscends : (rows : List GapRow) → (check_table rows ≡ none) ↔ TableAscends rows
unfolding check_table
check_table-TableAscends [] = ground arith
check_table-TableAscends (a ∷ []) = ground arith
check_table-TableAscends (a ∷ b ∷ rows) = ground (arith, check_table-TableAscends (b ∷ rows))

pub gap_table-TableAscends : (rows : List GapRow) → (gap_table rows ≡ ok rows) ↔ TableAscends rows
unfolding gap_table
gap_table-TableAscends rows = ground (arith, check_table-TableAscends rows)

-- The table has the row `k` for the gap `g`.
abbrev pub Names : ℕ → ℕ → List GapRow → Type 0
Names k g [] = ⊥
Names k g (r ∷ rs) = ((r.row ≡ k) × (r.gap ≡ g)) ⊎ Names k g rs

TableAscends-lower :
    (r : GapRow) (rs : List GapRow) (k g : ℕ) → TableAscends (r ∷ rs) → Names k g rs → r.row < k
TableAscends-lower r [] k g t n = absurd n
TableAscends-lower r (q ∷ rs) k g t (inl n) = omega (arith, t.1, n.0)
TableAscends-lower r (q ∷ rs) k g t (inr n) = omega (arith, t.1, TableAscends-lower q rs k g t.2 n)

TableAscends-rest : (r : GapRow) (rs : List GapRow) → TableAscends (r ∷ rs) → TableAscends rs
TableAscends-rest r [] t = tt
TableAscends-rest r (q ∷ rs) t = t.2

-- Of the rows of the table on the side `P`, the answer's is related by `R` to each; no answer means
-- that there is none.
abbrev pub Closest : List GapRow → (ℕ → Type 0) → (ℕ → ℕ → Type 0) → Option ℕ → Type 0
Closest table P R none = (k g : ℕ) → Names k g table → P k → ⊥
Closest table P R (some gap) =
    (row : ℕ) × Names row gap table × P row × ((k g : ℕ) → Names k g table → P k → R k row)

-- A row that is not on that side does not matter.
Closest-skip :
    (r : GapRow) (rs : List GapRow) (P : ℕ → Type 0) (R : ℕ → ℕ → Type 0) (o : Option ℕ)
    → (P r.row → ⊥)
    → Closest rs P R o
    → Closest (r ∷ rs) P R o
Closest-skip r rs P R none far c =
    λ k g n p. elim n [ inl same ↦ far (subst P (sym same.0) p) | inr later ↦ c k g later p ]
Closest-skip r rs P R (some gap) far c = (
  c.0,
  inr c.1,
  c.2,
  λ k g n p. elim n [
    | inl same ↦ absurd (far (subst P (sym same.0) p))
    | inr later ↦ c.3 k g later p
  ],
)

last_above_lem :
    (rs : List GapRow) (row : ℕ)
    → TableAscends rs
    → Closest rs (λ k. k ≤ row) (λ k best. k ≤ best) (last_above row rs)
unfolding last_above
last_above_lem [] row t = λ k g n p. n
last_above_lem (r ∷ rs) row t =
    let rest = last_above_lem rs row (TableAscends-rest r rs t) in
    elim (Option-cases (last_above row rs)) [
      | inl e ↦
          let nothing = subst (λ o. Closest rs (λ k. k ≤ row) (λ k best. k ≤ best) o) e rest in
          elim (Bool-cases (leb r.row row)) [
            | inl here ↦
                let le : r.row ≤ row = ground arith in
                rw (e, here)
                  ((
                    r.row,
                    inl (refl, refl),
                    le,
                    λ k g n p. elim n [
                      | inl same ↦ omega (arith, same.0)
                      | inr later ↦ absurd (nothing k g later p)
                    ],
                  ))
            | inr below ↦
                rw (e, below)
                  (Closest-skip r rs (λ k. k ≤ row) (λ k best. k ≤ best) none (ground arith)
                    nothing)
          ]
      | inr (gap, e) ↦
          let found = subst (λ o. Closest rs (λ k. k ≤ row) (λ k best. k ≤ best) o) e rest in
          rw e (
            (
              found.0,
              inr found.1,
              found.2,
              λ k g n p. elim n [
                | inl same ↦ omega (arith, same.0, TableAscends-lower r rs found.0 gap t found.1)
                | inr later ↦ found.3 k g later p
              ],
            ))
    ]

first_below_lem :
    (rs : List GapRow) (row : ℕ)
    → TableAscends rs
    → Closest rs (λ k. row ≤ k) (λ k best. best ≤ k) (first_below row rs)
unfolding first_below
first_below_lem [] row t = λ k g n p. n
first_below_lem (r ∷ rs) row t =
    let rest = first_below_lem rs row (TableAscends-rest r rs t) in
    elim (Bool-cases (leb row r.row)) [
      | inl here ↦
          let le : row ≤ r.row = ground arith in
          rw here (
            (
              r.row,
              inl (refl, refl),
              le,
              λ k g n p. elim n [
                | inl same ↦ omega (arith, same.0)
                | inr later ↦ omega (arith, TableAscends-lower r rs k g t later)
              ],
            ))
      | inr above ↦ rw above (
          Closest-skip r rs (λ k. row ≤ k) (λ k best. best ≤ k) (first_below row rs) (ground arith)
            rest)
    ]

-- In a table that is accepted, `nearest` upwards names the gap of the last row at or above the given
-- one, downwards that of the first row at or below it, and none only if there is no such row.
pub nearest-Closest :
    (table : List GapRow) (row : ℕ)
    → gap_table table ≡ ok table
    → Closest table (λ k. k ≤ row) (λ k best. k ≤ best) (nearest table row true)
      × Closest table (λ k. row ≤ k) (λ k best. best ≤ k) (nearest table row false)
unfolding nearest
nearest-Closest table row accepted =
    let ascends = (gap_table-TableAscends table).0 accepted in
    (last_above_lem table row ascends, first_below_lem table row ascends)
