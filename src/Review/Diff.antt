-- ===== src/Review/Diff.antt =====
-- What the differ of imara_diff promises of two sequences of lines or of their keys.
use nits.Prelude.{ℕ, ◌+◌, ◌-◌, ◌≤◌, ◌<◌, ◌≡◌, List, [], ◌∷◌, length, get_elem?}
use nits.Review.Anchor.{Hunk}

module _ {A : Type 0} where
  -- `n` rows of the two sides from `i` and `j` on are the same lines.
  abbrev pub SameRows : List A → List A → ℕ → ℕ → ℕ → Type 0
  SameRows old new i j n = (k : ℕ) → k < n → get_elem? old (i + k) ≡ get_elem? new (j + k)

  -- What a diff promises from rows `i` and `j` on: its hunks come in order, and the rows between
  -- two hunks, before the first and after the last are unchanged.
  abbrev pub IsDiff : List A → List A → ℕ → ℕ → List Hunk → Type 0
  IsDiff old new i j [] = (length old + j ≡ length new + i) × SameRows old new i j (length old - i)
  IsDiff old new i j (h ∷ hs) =
      (i ≤ h.before_start)
      × (h.before_start + j ≡ h.after_start + i)
      × (h.before_start ≤ h.before_end)
      × (h.after_start ≤ h.after_end)
      × SameRows old new i j (h.before_start - i)
      × IsDiff old new h.before_end h.after_end hs
