-- ===== src/Review/Replay/Pages.antt =====
-- store/replay.rs: a client that follows the cursors reads each event of its window once, in order.
use mathlib.Core.List.{append-nil, append_assoc}
use nits.Prelude.{
  ℕ, ◌+◌, ◌<◌, ◌≤◌, ◌≡◌, ◌≢◌, refl, sym, ap, ◌∙◌, inl, inr, Bool, true, false, not, ◌&&◌, none,
  some, List, [], ◌∷◌, ◌++◌, ltb, ok, All, arith, Bool-cases,
}
use nits.Review.Replay.{
  StoredRow, Scan, replay_event_bytes, replay_page_bytes, keep_row, scan_rows, is_empty,
}

nonempty_of : (b c : Bool) → not b && c ≡ true → b ≡ false
nonempty_of b c h = ground arith

module _ {E : Type 0} where
  -- A row that decodes, within the limit of an event, stored and re-encoded.
  pub record IsGood (r : StoredRow E) : Type 0 where
    pub payload : E
    pub decodes : r.event ≡ some payload
    pub small : r.bytes ≤ replay_event_bytes
    pub small_encoded : r.encoded ≤ replay_event_bytes

  -- The rows' sequence numbers ascend, from above `a`.
  abbrev pub Ascends : ℕ → List (StoredRow E) → Type 0
  Ascends a [] = Unit
  Ascends a (r ∷ rows) = (a < r.seq) × Ascends r.seq rows

  unfoldable pub events_of : List (StoredRow E) → List E
  events_of [] = []
  events_of (r ∷ rows) = elim r.event [ none ↦ events_of rows | some ev ↦ ev ∷ events_of rows ]

  unfoldable pub last_seq : ℕ → List (StoredRow E) → ℕ
  last_seq a [] = a
  last_seq a (r ∷ rows) = last_seq r.seq rows

  pub events_of-append :
      (xs ys : List (StoredRow E)) → events_of (xs ++ ys) ≡ events_of xs ++ events_of ys
  unfolding events_of
  events_of-append [] ys = refl
  events_of-append (r ∷ xs) ys = ground (arith, events_of-append xs ys)

  -- What one scan takes of its rows.
  pub record Scans (rs : List (StoredRow E)) (s : Scan E) : Type 0 where
    pub taken : List (StoredRow E)
    pub left : List (StoredRow E)
    pub split : taken ++ left ≡ rs
    pub final : Scan E
    pub runs : scan_rows rs s ≡ ok final
    pub reaches : final.after ≡ last_seq s.after taken
    pub gathers : final.events ≡ s.events ++ events_of taken
    pub moves : is_empty s.events ≡ true → rs ≢ [] → taken ≢ []

  stop_here :
      (rs : List (StoredRow E)) (s : Scan E)
      → is_empty s.events ≡ false
      → scan_rows rs s ≡ ok s
      → Scans rs s
  unfolding last_seq events_of
  stop_here rs s nonempty e = record {
    taken = [];
    left = rs;
    split = refl;
    final = s;
    runs = e;
    reaches = refl;
    gathers = sym (append-nil s.events);
    moves = λ q. cc;
  }

  take_row :
      (r : StoredRow E) (rs : List (StoredRow E)) (s : Scan E) (ev : E)
      → r.event ≡ some ev
      → scan_rows (r ∷ rs) s ≡ scan_rows rs (keep_row r ev s)
      → Scans rs (keep_row r ev s)
      → Scans (r ∷ rs) s
  unfolding last_seq events_of
  take_row r rs s ev decodes e h = record {
    taken = r ∷ h.taken;
    left = h.left;
    split = ap (λ q. r ∷ q) h.split;
    final = h.final;
    runs = e ∙ h.runs;
    reaches = h.reaches;
    gathers =
        rw (decodes, events_of) (h.gathers ∙ append_assoc s.events (ev ∷ []) (events_of h.taken));
    moves = λ q ne. λ z. cc;
  }

  -- Good rows are taken up to a budget, the first one whatever its size.
  pub scan_rows-Scans : (rs : List (StoredRow E)) (s : Scan E) → All IsGood rs → Scans rs s
  unfolding scan_rows
  scan_rows-Scans [] s good = record {
    taken = [];
    left = [];
    split = refl;
    final = s;
    runs = refl;
    reaches = unfold last_seq in refl;
    gathers = unfold events_of in sym (append-nil s.events);
    moves = λ q ne. absurd (ne refl);
  }
  scan_rows-Scans (r ∷ rs) s good =
      let fits : ltb replay_event_bytes r.bytes ≡ false = ground (arith, good.0.small) in
      let fits' : ltb replay_event_bytes r.encoded ≡ false = ground (arith, good.0.small_encoded) in
      elim (Bool-cases
        (not (is_empty s.events) && ltb replay_page_bytes (s.stored_bytes + r.bytes))) [
          | inl full ↦ stop_here (r ∷ rs) s (nonempty_of _ _ full) (rw (full, scan_rows))
          | inr room ↦
              elim (Bool-cases
                (not (is_empty s.events) && ltb replay_page_bytes (s.wire_bytes + r.encoded + 1))) [
                  | inl full ↦
                      stop_here (r ∷ rs) s (nonempty_of _ _ full)
                        (rw (room, fits, good.0.decodes, fits', full, scan_rows))
                  | inr room' ↦
                      take_row r rs s good.0.payload good.0.decodes
                        (rw (room, fits, good.0.decodes, fits', room', scan_rows))
                        (scan_rows-Scans rs (keep_row r good.0.payload s) good.1)
                ]
        ]
