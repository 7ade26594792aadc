-- ===== src/Tests/Logs.antt =====
-- Runs of the event log and of line numbers.
use nits.Prelude.{◌≤◌, ℕ, ◌+◌, ◌≡◌, refl, List, [], ◌∷◌, some, arith}
use nits.Review.Replay.{StoredRow, start, since_after, head_of, range_of}
use nits.Review.Replay.Pages.{IsGood, events_of}
use nits.Review.Replay.Follow.{collect}
use nits.Review.Replay.History.{collect-events_of}

abbrev row : ℕ → ℕ → StoredRow ℕ
row seq size = record { seq = seq; bytes = size; event = some (seq + 100); encoded = size }

-- The first two do not fit in one page.
abbrev rows : List (StoredRow ℕ)
rows = row 1 600000 ∷ row 2 600000 ∷ row 4 5 ∷ []

row-IsGood : (seq size : ℕ) → size ≤ 1000000 → IsGood (row seq size)
row-IsGood seq size h = record {
  payload = seq + 100;
  decodes = refl;
  small = omega arith;
  small_encoded = omega arith;
}

collect-events_of_example :
    collect 4 rows (start (since_after 0)) ≡ some (events_of (range_of 0 (head_of rows) rows))
collect-events_of_example =
    collect-events_of rows 0
      ((
        row-IsGood 1 600000 (omega arith),
        (row-IsGood 2 600000 (omega arith), (row-IsGood 4 5 (omega arith), tt)),
      ))
      ((omega arith, (omega arith, (omega arith, tt))))

whole_log : events_of (range_of 0 (head_of rows) rows) ≡ 101 ∷ 102 ∷ 104 ∷ []
unfolding events_of range_of head_of
whole_log = refl
