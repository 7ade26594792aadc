-- ===== src/Prelude/Maps.antt =====
-- Maps and sets of the standard library (`HashMap`, `BTreeMap`, `HashSet`) as association lists.
-- Every law has the form of a conditional, so that it has no side condition.
use Prim.Native.Nat.{◌<◌, ℕ, ◌+◌}
use mathlib.Core.Path.{◌≡◌, refl, ap, sym, ◌∙◌}
use mathlib.Core.Bool.{Bool, true, false}
use mathlib.Core.Option.{Option, none, some}
use mathlib.Core.List.{List, [], ◌∷◌}
use native.Mathlib.Omega.{arith}
use mathlib.Core.Logic.{◌≢◌, ◌⊎◌, inl, inr}
use nits.Prelude.Tests.{Eq, nat_eq, Bool-cases, ltb, ◌==◌, if◌then◌else◌}

abbrev pub measure_of {κ} : {V : Type κ} → (V → ℕ) → Option V → ℕ
measure_of f none = 0
measure_of f (some v) = f v

module _ {ℓ κ} {K : Type ℓ} {V : Type κ} ⦃e : Eq K⦄ where
  unfoldable pub get : K → List (K × V) → Option V
  get k [] = none
  get k ((j, v) ∷ m) = let rest = get k m in if e.beq j k then some v else rest

  unfoldable pub remove : K → List (K × V) → List (K × V)
  remove k [] = []
  remove k ((j, v) ∷ m) = let rest = remove k m in if e.beq j k then rest else (j, v) ∷ rest

  unfoldable pub insert : K → V → List (K × V) → List (K × V)
  unfolding remove
  insert k v m = (k, v) ∷ remove k m

  pub get-remove :
      (k j : K) (m : List (K × V)) → get j (remove k m) ≡ (if e.beq k j then none else get j m)
  unfolding get remove
  get-remove k j [] = ground arith
  get-remove k j ((i, v) ∷ m) =
      ground (arith, get-remove k j m, e.beq_iff i k, e.beq_iff i j, e.beq_iff k j)

  pub get-insert :
      (k j : K) (v : V) (m : List (K × V))
      → get j (insert k v m) ≡ (if e.beq k j then some v else get j m)
  unfolding insert get
  get-insert k j v m = ground (arith, get-remove k j m)

  pub get-insert_self : (k : K) (v : V) (m : List (K × V)) → get k (insert k v m) ≡ some v
  get-insert_self k v m = ground (arith, get-insert k k v m, e.beq_iff k k)

  pub get-insert_other :
      (k j : K) (v : V) (m : List (K × V)) → k ≢ j → get j (insert k v m) ≡ get j m
  get-insert_other k j v m n = ground (arith, get-insert k j v m, e.beq_iff k j)

  -- What a table holds after an insertion is the new value or stood there before.
  pub get-insert_cases :
      (k j : K) (v w : V) (m : List (K × V))
      → get j (insert k v m) ≡ some w
      → ((k ≡ j) × (v ≡ w)) ⊎ ((k ≢ j) × (get j m ≡ some w))
  get-insert_cases k j v w m h = elim (Bool-cases (e.beq k j)) [
    | inl q ↦ inl ((e.beq_iff k j).0 q, ground (arith, get-insert k j v m))
    | inr q ↦
        inr (λ p. absurd (ground (arith, (e.beq_iff k j).1 p)), ground (arith, get-insert k j v m))
  ]

  -- What is known of the values of a table and of the new one is known afterwards.
  pub get-insert_keeps {μ} :
      (P : V → Type μ) (k j : K) (v w : V) (m : List (K × V))
      → get j m ≡ some w
      → P w
      → (k ≡ j → P v)
      → (x : V) × (get j (insert k v m) ≡ some x) × P x
  get-insert_keeps P k j v w m h p q = elim (Bool-cases (e.beq k j)) [
    | inl b ↦ (v, ground (arith, get-insert k j v m), q ((e.beq_iff k j).0 b))
    | inr b ↦ (w, ground (arith, get-insert k j v m), p)
  ]

  pub get-remove_other : (k j : K) (m : List (K × V)) → k ≢ j → get j (remove k m) ≡ get j m
  get-remove_other k j m n = ground (arith, get-remove k j m, e.beq_iff k j)

  pub get-remove_inv :
      (k j : K) (w : V) (m : List (K × V))
      → get j (remove k m) ≡ some w
      → (k ≢ j) × (get j m ≡ some w)
  get-remove_inv k j w m h = elim (Bool-cases (e.beq k j)) [
    | inl q ↦ absurd (ground (arith, get-remove k j m))
    | inr q ↦ (λ p. absurd (ground (arith, (e.beq_iff k j).1 p)), ground (arith, get-remove k j m))
  ]

  pub remove_absent : (k : K) (m : List (K × V)) → get k m ≡ none → remove k m ≡ m
  unfolding get remove
  remove_absent k [] h = refl
  remove_absent k ((j, v) ∷ m) h = ground (arith, remove_absent k m)

  pub insert-remove : (k : K) (v : V) (m : List (K × V)) → insert k v (remove k m) ≡ insert k v m
  unfolding insert
  insert-remove k v m =
      ap (λ r. (k, v) ∷ r)
        (remove_absent k (remove k m) (ground (arith, get-remove k k m, e.beq_iff k k)))

  -- No key stands twice.
  abbrev pub IsMap : List (K × V) → Type κ
  IsMap [] = Unit
  IsMap ((k, v) ∷ m) = (get k m ≡ none) × IsMap m

  pub remove-IsMap : (k : K) (m : List (K × V)) → IsMap m → IsMap (remove k m)
  unfolding remove
  remove-IsMap k [] h = h
  remove-IsMap k ((j, v) ∷ m) h = elim (Bool-cases (e.beq j k)) [
    | inl q ↦ rw q (remove-IsMap k m h.1)
    | inr q ↦ rw q ((ground (arith, get-remove k j m, h.0)), remove-IsMap k m h.1)
  ]

  pub insert-IsMap : (k : K) (v : V) (m : List (K × V)) → IsMap m → IsMap (insert k v m)
  unfolding insert
  insert-IsMap k v m h = (ground (arith, get-remove k k m, e.beq_iff k k), remove-IsMap k m h)

  -- The sum of a measure over the values.
  unfoldable pub total : (V → ℕ) → List (K × V) → ℕ
  total f [] = 0
  total f ((k, v) ∷ m) = f v + total f m

  pub total-remove :
      (f : V → ℕ) (k : K) (m : List (K × V))
      → IsMap m
      → total f (remove k m) + measure_of f (get k m) ≡ total f m
  unfolding total remove get
  total-remove f k [] h = omega arith
  total-remove f k ((j, v) ∷ m) h = elim (Bool-cases (e.beq j k)) [
    | inl q ↦
        let gone : get k m ≡ none = ap (λ x. get x m) (sym ((e.beq_iff j k).0 q)) ∙ h.0 in
        rw (q, remove_absent k m gone) (omega arith)
    | inr q ↦ rw q (omega (arith, total-remove f k m h.1))
  ]

  pub total-insert :
      (f : V → ℕ) (k : K) (v : V) (m : List (K × V))
      → IsMap m
      → total f (insert k v m) + measure_of f (get k m) ≡ f v + total f m
  unfolding total insert
  total-insert f k v m h = omega (arith, total-remove f k m h)

-- `HashSet`: membership alone is observed.
module _ {ℓ} {K : Type ℓ} ⦃e : Eq K⦄ where
  unfoldable pub contains : K → List K → Bool
  contains k [] = false
  contains k (j ∷ s) = let rest = contains k s in if e.beq j k then true else rest

  -- `retain`
  unfoldable pub retain : (K → Bool) → List K → List K
  retain p [] = []
  retain p (j ∷ s) = let rest = retain p s in if p j then j ∷ rest else rest

  pub contains-retain :
      (p : K → Bool) (k : K) (s : List K)
      → contains k (retain p s) ≡ (if p k then contains k s else false)
  unfolding contains retain
  contains-retain p k [] = ground arith
  contains-retain p k (j ∷ s) = elim (Bool-cases (e.beq j k)) [
    | inl q ↦ ground (arith, contains-retain p k s, ap p ((e.beq_iff j k).0 q))
    | inr q ↦ ground (arith, contains-retain p k s)
  ]

-- `BTreeMap` with number keys: the entries stand in key order.
module _ {κ} {V : Type κ} where
  unfoldable pub btree_insert : ℕ → V → List (ℕ × V) → List (ℕ × V)
  btree_insert t v [] = (t, v) ∷ []
  btree_insert t v ((u, w) ∷ m) =
      let rest = btree_insert t v m in
      if ltb t u then (t, v) ∷ (u, w) ∷ m else if t == u then (t, v) ∷ m else (u, w) ∷ rest

  pub get-btree_insert :
      (t u : ℕ) (v : V) (m : List (ℕ × V))
      → get u (btree_insert t v m) ≡ (if t == u then some v else get u m)
  unfolding get btree_insert
  get-btree_insert t u v [] = refl
  get-btree_insert t u v ((s, w) ∷ m) = ground (arith, get-btree_insert t u v m)

  abbrev pub IsAbove : ℕ → List (ℕ × V) → Type 0
  IsAbove t [] = Unit
  IsAbove t ((u, _) ∷ m) = (t < u) × IsAbove t m

  -- The keys ascend.
  abbrev pub IsSorted : List (ℕ × V) → Type 0
  IsSorted [] = Unit
  IsSorted ((t, _) ∷ m) = IsAbove t m × IsSorted m

  IsAbove-trans : (t u : ℕ) (m : List (ℕ × V)) → t < u → IsAbove u m → IsAbove t m
  IsAbove-trans t u [] h a = tt
  IsAbove-trans t u ((s, w) ∷ m) h a = (omega (arith, a.0), IsAbove-trans t u m h a.1)

  remove-IsAbove : (t u : ℕ) (m : List (ℕ × V)) → IsAbove t m → IsAbove t (remove u m)
  unfolding remove
  remove-IsAbove t u [] a = tt
  remove-IsAbove t u ((s, w) ∷ m) a = ground (arith, remove-IsAbove t u m a.1)

  pub remove-IsSorted : (u : ℕ) (m : List (ℕ × V)) → IsSorted m → IsSorted (remove u m)
  unfolding remove
  remove-IsSorted u [] h = tt
  remove-IsSorted u ((s, w) ∷ m) h =
      ground (arith, remove-IsSorted u m h.1, remove-IsAbove s u m h.0)

  insert-IsAbove :
      (t u : ℕ) (v : V) (m : List (ℕ × V)) → t < u → IsAbove t m → IsAbove t (btree_insert u v m)
  unfolding btree_insert
  insert-IsAbove t u v [] h a = (h, tt)
  insert-IsAbove t u v ((s, w) ∷ m) h a = ground (arith, insert-IsAbove t u v m h a.1)

  pub btree_insert-IsSorted :
      (u : ℕ) (v : V) (m : List (ℕ × V)) → IsSorted m → IsSorted (btree_insert u v m)
  unfolding btree_insert
  btree_insert-IsSorted u v [] h = (tt, tt)
  btree_insert-IsSorted u v ((s, w) ∷ m) h =
      ground (arith, btree_insert-IsSorted u v m h.1, insert-IsAbove s u v m, IsAbove-trans u s m)

  pub get-IsAbove : (t u : ℕ) (v : V) (m : List (ℕ × V)) → IsAbove t m → get u m ≡ some v → t < u
  unfolding get
  get-IsAbove t u v [] a h = cc
  get-IsAbove t u v ((s, w) ∷ m) a h = ground (arith, get-IsAbove t u v m a.1)
