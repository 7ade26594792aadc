-- ===== src/Review/Replay.antt =====
-- crates/nits-review-core/src/store/replay.rs and crates/nits-protocol/src/replay.rs: reading the
-- event log page by page. A `Seq` is its `u64`. The database table is the list of its rows in key
-- order, as a read transaction sees it; a row is a sequence number and the stored bytes, of which
-- only the length, the decoded event and the length of its re-encoding matter.
pub mod Pages
pub mod Follow
pub mod History
use nits.Prelude.{
  ℕ, zero, suc, ◌+◌, ◌*◌, ◌-◌, Bool, true, false, not, ◌&&◌, Option, none, some, List, [], ◌∷◌,
  ◌++◌, ltb, leb, max, take, if◌then◌else◌, Result, ok, err,
}

-- The cursor of a remainder; `after < through`.
pub record ReplayCursor : Type 0 where
  pub after : ℕ
  pub through : ℕ

pub data CursorError : Type 0 where
  not_before : ℕ → ℕ → CursorError

unfoldable pub replay_cursor : ℕ → ℕ → Result ReplayCursor CursorError
replay_cursor a t = if ltb a t then ok (record { after = a; through = t }) else err (not_before a t)

pub data Since : Type 0 where
  now : Since
  since_after : ℕ → Since

pub data ReplayPosition : Type 0 where
  start : Since → ReplayPosition
  continue_at : ReplayCursor → ReplayPosition
  follow : ℕ → ReplayPosition

pub data ReplayProgress : Type 0 where
  more : ℕ → ReplayProgress
  complete : ReplayProgress

pub record ReplayPage (E : Type 0) : Type 0 where
  pub through : ℕ
  pub events : List E
  pub progress : ReplayProgress

pub data StoreError : Type 0 where
  past_head : ℕ → ℕ → StoreError
  too_large : ℕ → StoreError
  corrupt : ℕ → StoreError

abbrev pub replay_scan_limit : ℕ
replay_scan_limit = 256

abbrev pub replay_page_bytes : ℕ
replay_page_bytes = 1024 * 1024

abbrev pub replay_event_bytes : ℕ
replay_event_bytes = 64 * 1024 * 1024 - 4096

-- `event` is `none` where the stored bytes do not decode; `encoded` is the length of its JSON.
pub record StoredRow (E : Type 0) : Type 0 where
  pub seq : ℕ
  pub bytes : ℕ
  pub event : Option E
  pub encoded : ℕ

-- What the loop carries: `after`, the events and the two byte counts.
pub record Scan (E : Type 0) : Type 0 where
  pub after : ℕ
  pub events : List E
  pub stored_bytes : ℕ
  pub wire_bytes : ℕ

unfoldable pub window : ReplayPosition → ℕ → Result (ℕ × ℕ) StoreError
window (start now) h = ok (h, h)
window (start (since_after seq)) h = ok (seq, max h seq)
window (follow seq) h = ok (seq, max h seq)
window (continue_at c) h =
    if ltb h c.through then err (past_head c.through h) else ok (c.after, c.through)

module _ {E : Type 0} where
  -- `table.last()`
  unfoldable pub head_of : List (StoredRow E) → ℕ
  head_of [] = 0
  head_of (r ∷ []) = r.seq
  head_of (r ∷ q ∷ rows) = head_of (q ∷ rows)

  -- `table.range((Excluded(after), Included(through)))`
  unfoldable pub range_of : ℕ → ℕ → List (StoredRow E) → List (StoredRow E)
  range_of a t [] = []
  range_of a t (r ∷ rows) =
      let rest = range_of a t rows in if ltb a r.seq && leb r.seq t then r ∷ rest else rest

  abbrev pub is_empty : List E → Bool
  is_empty [] = true
  is_empty (_ ∷ _) = false

  abbrev pub keep_row : StoredRow E → E → Scan E → Scan E
  keep_row r ev s = record {
    after = r.seq;
    events = s.events ++ ev ∷ [];
    stored_bytes = s.stored_bytes + r.bytes;
    wire_bytes = s.wire_bytes + (r.encoded + 1);
  }

  -- The loop over the rows of the range; both budgets let a first event through.
  unfoldable pub scan_rows : List (StoredRow E) → Scan E → Result (Scan E) StoreError
  scan_rows [] s = ok s
  scan_rows (r ∷ rows) s =
      elim (not (is_empty s.events) && ltb replay_page_bytes (s.stored_bytes + r.bytes)) [
        | true ↦ ok s
        | false ↦ elim (ltb replay_event_bytes r.bytes) [
          | true ↦ err (too_large r.seq)
          | false ↦ elim r.event [
            | none ↦ err (corrupt r.seq)
            | some ev ↦ elim (ltb replay_event_bytes r.encoded) [
              | true ↦ err (too_large r.seq)
              | false ↦
                  elim (not (is_empty s.events)
                    && ltb replay_page_bytes (s.wire_bytes + r.encoded + 1)) [
                      | true ↦ ok s
                      | false ↦ scan_rows rows (keep_row r ev s)
                    ]
            ]
          ]
        ]
      ]

  unfoldable pub page_of : ℕ → Scan E → ReplayPage E
  page_of through s = record {
    through = through;
    events = s.events;
    progress = if leb through s.after then complete else more s.after;
  }

  unfoldable pub read_window : List (StoredRow E) → ℕ × ℕ → Result (ReplayPage E) StoreError
  unfolding page_of range_of
  read_window rows (a, t) =
      if leb t a
      then ok (record { through = t; events = []; progress = complete })
      else elim (scan_rows (take replay_scan_limit (range_of a t rows))
          (record { after = a; events = []; stored_bytes = 0; wire_bytes = 0 })) [
            | ok s ↦ ok (page_of t s)
            | err x ↦ err x
          ]

  unfoldable pub replay_page :
      List (StoredRow E) → ReplayPosition → Result (ReplayPage E) StoreError
  unfolding window read_window
  replay_page rows position = elim (window position (head_of rows)) [
    | ok w ↦ read_window rows w
    | err x ↦ err x
  ]
