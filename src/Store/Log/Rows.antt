-- ===== src/Store/Log/Rows.antt =====
-- store/mod.rs: the rows of the log, their keys and what a range of them holds.
use mathlib.Core.Path.{subst}
use nits.Prelude.{
  sym, ◌∙◌, ◌<◌, ap, drop, ◌≤◌, ℕ, zero, suc, ◌+◌, ◌-◌, ◌≡◌, refl, Option, none, some, List, [],
  ◌∷◌, ◌++◌, length, ok, arith, inl, inr, Result-cases, ◌==◌, if◌then◌else◌,
}
use nits.Prelude.Maps.{btree_insert}
use nits.Store.Views.Apply.{apply}
use nits.Store.Views.{Tables}
use nits.Store.Log.{rows_after, StoredEvent, last_key, fold_rows}

-- The keys and the sequence numbers of the rows count up from `k`.
abbrev pub Counted : ℕ → List (ℕ × StoredEvent) → Type 0
Counted k [] = Unit
Counted k ((j, row) ∷ rows) = (j ≡ k) × (row.event.seq ≡ k) × Counted (suc k) rows

pub last_key-Counted :
    (k : ℕ) (rows : List (ℕ × StoredEvent))
    → Counted k rows
    → last_key rows ≡ (if length rows == 0 then none else some (k + length rows - 1))
unfolding last_key
last_key-Counted k [] h = refl
last_key-Counted k ((j, row) ∷ rows) h = ground (arith, last_key-Counted (suc k) rows h.2)

pub btree_insert-Counted :
    (k t : ℕ) (v : StoredEvent) (rows : List (ℕ × StoredEvent))
    → Counted k rows
    → k + length rows ≡ t
    → btree_insert t v rows ≡ rows ++ (t, v) ∷ []
unfolding btree_insert
btree_insert-Counted k t v [] h e = refl
btree_insert-Counted k t v ((j, row) ∷ rows) h e =
    ground (arith, btree_insert-Counted (suc k) t v rows h.2)

pub Counted-append :
    (k t : ℕ) (v : StoredEvent) (rows : List (ℕ × StoredEvent))
    → Counted k rows
    → k + length rows ≡ t
    → v.event.seq ≡ t
    → Counted k (rows ++ (t, v) ∷ [])
Counted-append k t v [] h e s = (omega arith, omega arith, tt)
Counted-append k t v ((j, row) ∷ rows) h e s =
    (h.0, h.1, Counted-append (suc k) t v rows h.2 (omega arith) s)

-- One more row is one more application.
pub fold_rows-append :
    (rows : List (ℕ × StoredEvent)) (t : ℕ) (v : StoredEvent) (views views' out : Tables)
    (last last' : Option ℕ)
    → fold_rows rows views last ≡ ok (views', last')
    → apply views' v.event ≡ ok out
    → fold_rows (rows ++ (t, v) ∷ []) views last ≡ ok (out, some t)
unfolding fold_rows
fold_rows-append [] t v views views' out last last' h a = ground arith
fold_rows-append ((j, row) ∷ rows) t v views views' out last last' h a =
    elim (Result-cases (apply views row.event)) [
      | inl (x, e) ↦ rw e (fold_rows-append rows t v x views' out (some j) last' (ground arith) a)
      | inr (x, e) ↦ ground arith
    ]

pub rows_after-append :
    (after : Option ℕ) (rows more : List (ℕ × StoredEvent))
    → rows_after after (rows ++ more) ≡ rows_after after rows ++ rows_after after more
unfolding rows_after
rows_after-append after [] more = refl
rows_after-append after ((k, row) ∷ rows) more = ground (arith, rows_after-append after rows more)

-- Nothing stands after a key that no row exceeds.
pub rows_after_past :
    (k n : ℕ) (rows : List (ℕ × StoredEvent))
    → Counted k rows
    → k + length rows ≤ suc n
    → rows_after (some n) rows ≡ []
unfolding rows_after
rows_after_past k n [] h b = refl
rows_after_past k n ((j, row) ∷ rows) h b = ground (arith, rows_after_past (suc k) n rows h.2)

-- Every row stands after a key below the first one.
rows_after_all :
    (k n : ℕ) (rows : List (ℕ × StoredEvent))
    → Counted k rows
    → n < k
    → rows_after (some n) rows ≡ rows_after none rows
unfolding rows_after
rows_after_all k n [] h b = refl
rows_after_all k n ((j, row) ∷ rows) h b = ground (arith, rows_after_all (suc k) n rows h.2)

pub rows_after-drop :
    (k n : ℕ) (rows : List (ℕ × StoredEvent))
    → Counted (suc k) rows
    → rows_after (some (k + n)) rows ≡ drop n (rows_after none rows)
unfolding rows_after
rows_after-drop k zero [] h = refl
rows_after-drop k (suc n) [] h = refl
rows_after-drop k zero ((j, row) ∷ rows) h =
    rows_after_all (suc k) (k + zero) ((j, row) ∷ rows) h (omega arith)
rows_after-drop k (suc n) ((j, row) ∷ rows) h =
    let e : k + suc n ≡ suc k + n = omega arith in
    ground (arith, ap (λ x. rows_after (some x) rows) e, rows_after-drop (suc k) n rows h.2)

-- A fold ends with the last key as its cursor.
pub fold_rows-last_key :
    (rows : List (ℕ × StoredEvent)) (views views' : Tables) (last last' : Option ℕ)
    → fold_rows rows views last ≡ ok (views', last')
    → last' ≡ elim (last_key rows) [ none ↦ last | some k ↦ some k ]
unfolding fold_rows last_key
fold_rows-last_key [] views views' last last' h = ground arith
fold_rows-last_key ((j, row) ∷ rows) views views' last last' h =
    elim (Result-cases (apply views row.event)) [
      | inl (x, e) ↦ ground (arith, fold_rows-last_key rows x views' (some j) last')
      | inr (x, e) ↦ ground arith
    ]

Counted-split :
    (k : ℕ) (rows more : List (ℕ × StoredEvent))
    → Counted k (rows ++ more)
    → Counted k rows × Counted (k + length rows) more
Counted-split k [] more h = (tt, subst (λ x. Counted x more) (omega arith) h)
Counted-split k ((j, row) ∷ rows) more h =
    let (a, b) = Counted-split (suc k) rows more h.2 in
    ((h.0, h.1, a), subst (λ x. Counted x more) (omega arith) b)

-- What stands after the last of the first rows is the rest.
pub rows_after-last_key :
    (rows more : List (ℕ × StoredEvent))
    → Counted 1 (rows ++ more)
    → rows_after none (rows ++ more)
      ≡ rows_after none rows ++ rows_after (last_key rows) (rows ++ more)
unfolding last_key rows_after
rows_after-last_key [] more h = refl
rows_after-last_key ((j, row) ∷ rows) more h =
    let all = (j, row) ∷ rows in
    let (a, b) = Counted-split 1 all more h in
    let n = length all in
    let last : last_key all ≡ some n = last_key-Counted 1 all a ∙ ground arith in
    let past : rows_after (some n) (all ++ more) ≡ rows_after none more =
      rows_after-append (some n) all more
      ∙ (ap (λ x. x ++ rows_after (some n) more) (rows_after_past 1 n all a (omega arith))
          ∙ rows_after_all (1 + n) n more b (omega arith)) in
    rows_after-append none all more
    ∙ ap (λ x. rows_after none all ++ x) (sym past)
    ∙ ap (λ x. rows_after none all ++ rows_after x (all ++ more)) (sym last)
