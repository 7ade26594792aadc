-- ===== src/Review/Replay/History.antt =====
-- store/replay.rs: a whole history read from a starting sequence number.
use nits.Prelude.{
  ltb→lt, ℕ, suc, ◌<◌, ◌≤◌, ◌≡◌, ◌≢◌, refl, sym, ap, ◌∙◌, inl, inr, true, false, ◌&&◌, some, List,
  [], ◌∷◌, ltb, leb, max, ok, All, arith, length, Bool-cases,
}
use nits.Review.Replay.{start, since_after, StoredRow, head_of, range_of, window, replay_page}
use nits.Review.Replay.Pages.{IsGood, Ascends, events_of, last_seq}
use nits.Review.Replay.Follow.{
  collect, collect-window, range_of_same, range_of_head, head_of-last_seq,
}

start_window : (a h : ℕ) → a ≤ h → window (start (since_after a)) h ≡ ok (a, h)
unfolding window
start_window a h le = let at : max h a ≡ h = omega arith in rw at

module _ {E : Type 0} where
  le-last_seq : (b : ℕ) (rows : List (StoredRow E)) → Ascends b rows → b ≤ last_seq b rows
  unfolding last_seq
  le-last_seq b [] asc = omega arith
  le-last_seq b (r ∷ rows) asc = omega (arith, asc.0, le-last_seq r.seq rows asc.1)

  nothing_past :
      (a t : ℕ) (rows : List (StoredRow E)) (b : ℕ)
      → Ascends b rows
      → t ≤ a
      → (rest : List (StoredRow E)) → range_of a t rows ≡ rest
      → rest ≡ []
  nothing_past a t rows b asc h [] e = refl
  nothing_past a t rows b asc h (r ∷ rest) e =
      absurd (omega (arith, range_of_head a b t rows r rest asc e))

  at_end :
      (r : StoredRow E) (rows : List (StoredRow E)) (t : ℕ)
      → Ascends r.seq rows
      → last_seq r.seq rows ≡ t
      → t ≤ r.seq
      → r.seq ≡ t
  at_end r rows t asc ends h = omega (arith, le-last_seq r.seq rows asc)

  range_of_ends :
      (rows : List (StoredRow E)) (a b t : ℕ)
      → Ascends b rows
      → b ≤ a
      → a < t
      → last_seq b rows ≡ t
      → last_seq a (range_of a t rows) ≡ t
  unfolding last_seq range_of
  range_of_ends [] a b t asc hba hat ends = absurd (omega arith)
  range_of_ends (r ∷ rows) a b t asc hba hat ends = elim (Bool-cases (ltb a r.seq)) [
    | inl above ↦
        let kept : (ltb a r.seq && leb r.seq t) ≡ true =
          ground (arith, le-last_seq r.seq rows asc.1) in
        rw kept (
          ap (last_seq r.seq) (range_of_same a r.seq t rows (ground arith) asc.1)
          ∙ elim (Bool-cases (ltb r.seq t)) [
            | inl before ↦
                range_of_ends rows r.seq r.seq t asc.1 (omega arith) (ltb→lt r.seq t before) ends
            | inr at ↦
                ap (last_seq r.seq) (nothing_past r.seq t rows r.seq asc.1 (ground arith) _ refl)
                ∙ at_end r rows t asc.1 ends (ground arith)
          ])
    | inr below ↦
        let dropped : (ltb a r.seq && leb r.seq t) ≡ false = ground arith in
        rw dropped (range_of_ends rows a r.seq t asc.1 (ground arith) hat ends)
  ]

  length-range_of : (a t : ℕ) (rows : List (StoredRow E)) → length (range_of a t rows) ≤ length rows
  unfolding range_of
  length-range_of a t [] = omega arith
  length-range_of a t (r ∷ rows) = ground (arith, length-range_of a t rows)

  has_rows : (a : ℕ) (rows : List (StoredRow E)) → a < head_of rows → rows ≢ []
  unfolding head_of
  has_rows a [] h = absurd (omega arith)
  has_rows a (r ∷ rows) h = λ q. cc

  -- A start at or past the head is one complete page with no event.
  start_past :
      (rows : List (StoredRow E)) (a n : ℕ)
      → head_of rows ≤ a
      → collect (suc n) rows (start (since_after a)) ≡ some (events_of [])
  unfolding collect replay_page events_of
  start_past rows a n h =
      let at : max (head_of rows) a ≡ a = omega arith in
      let all_read : leb a a ≡ true = ground arith in rw (at, all_read, collect)

  -- From a start after `a`, a client that follows the cursors reads every later event of the log,
  -- each once and in order, whatever the sizes of the events, and needs at most one page for each
  -- stored row and one more. The rows must decode and be within the limit of an event, with
  -- ascending sequence numbers.
  pub collect-events_of :
      (rows : List (StoredRow E)) (a : ℕ)
      → All IsGood rows
      → Ascends 0 rows
      → collect (suc (length rows)) rows (start (since_after a))
        ≡ some (events_of (range_of a (head_of rows) rows))
  collect-events_of rows a good asc = elim (Bool-cases (ltb a (head_of rows))) [
    | inl before ↦
        let ahead : a < head_of rows = ltb→lt a (head_of rows) before in
        let ends : last_seq 0 rows ≡ head_of rows =
          sym (head_of-last_seq 0 rows asc (has_rows a rows ahead)) in
        collect-window rows 0 (head_of rows) good asc (suc (length rows)) a (start (since_after a))
          (start_window a (head_of rows) (omega (arith, ahead))) ahead (omega arith)
          (range_of_ends rows a 0 (head_of rows) asc (omega arith) ahead ends)
          (omega (arith, length-range_of a (head_of rows) rows))
    | inr past ↦
        start_past rows a (length rows) (ground arith)
        ∙ ap (λ q. some (events_of q))
            (sym (nothing_past a (head_of rows) rows 0 asc (ground arith) _ refl))
  ]
