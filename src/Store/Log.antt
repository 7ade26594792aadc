-- ===== src/Store/Log.antt =====
-- crates/nits-review-core/src/store/mod.rs and tables.rs: the log with its views. A write
-- transaction is a function from the store to a result: on an error nothing is committed. Reading
-- and writing of the database and of JSON do not fail. A `Seq` is a `u64` and its successor wraps.
pub mod Rows
pub mod Rebuild
use nits.Prelude.{
  ℕ, ◌+◌, ◌%◌, ◌^◌, Bool, true, false, ◌&&◌, Option, none, some, List, [], ◌∷◌, ◌++◌, Result, ok,
  err, ◌>>=◌, ltb, ◌==◌, not, map, if◌then◌else◌, nat_eq, pair_eq,
}
use nits.Prelude.Maps
use nits.Prelude.Maps.{btree_insert}
use nits.Protocol.Author.{Author}
use nits.Store.Events.{Event, EventBody, Comment, Thread, SuggestionRecord, ViewedMark, Workspace}
use nits.Store.Views.Apply.{apply}
use nits.Store.Views.{Tables, StoreError, ReviewRecord, empty_tables, review_live}

pub record NewEvent : Type 0 where
  pub ts : ℕ
  pub author : Author
  pub client_id : ℕ
  pub client_seq : ℕ
  pub body : EventBody

pub record StoredEvent : Type 0 where
  pub schema : ℕ
  pub event : Event

-- The tables of the database: the log in key order, the views, and `view_seq` of `meta`.
pub record Store : Type 0 where
  pub events : List (ℕ × StoredEvent)
  pub views : Tables
  pub view_seq : Option ℕ

abbrev pub u64_mod : ℕ
u64_mod = 2 ^ 64

abbrev pub first_seq : ℕ
first_seq = 1

unfoldable pub next_seq : ℕ → ℕ
next_seq n = (n + 1) % u64_mod

-- `events.last()`
unfoldable pub last_key : List (ℕ × StoredEvent) → Option ℕ
last_key [] = none
last_key ((k, _) ∷ rows) = elim (last_key rows) [ none ↦ some k | some j ↦ some j ]

unfoldable pub last_seq : Store → Option ℕ
unfolding last_key
last_seq s = last_key s.events

-- The sequence number that the next event takes.
unfoldable pub coming_seq : Store → ℕ
unfolding last_seq next_seq
coming_seq s = elim (last_seq s) [ none ↦ first_seq | some n ↦ next_seq n ]

unfoldable pub sequenced : ℕ → NewEvent → Event
sequenced seq e = record {
  seq = seq;
  ts = e.ts;
  author = e.author;
  client_id = e.client_id;
  client_seq = e.client_seq;
  body = e.body;
}

unfoldable pub put_event : StoredEvent → List (ℕ × StoredEvent) → List (ℕ × StoredEvent)
put_event row rows = btree_insert row.event.seq row rows

-- The version of this build, `SchemaVersion::CURRENT`, is a parameter.
module _ (current_schema : ℕ) where
  unfoldable pub append : NewEvent → Store → Result (Event × Store) StoreError
  unfolding coming_seq sequenced put_event
  append e s =
      let event = sequenced (coming_seq s) e in
      apply s.views event >>= λ views. ok (
        event,
        record {
          events = put_event (record { schema = current_schema; event = event }) s.events;
          views = views;
          view_seq = some event.seq;
        },
      )

-- The fold of `rebuild_views`: the views and the last key seen.
unfoldable pub fold_rows :
    List (ℕ × StoredEvent) → Tables → Option ℕ → Result (Tables × Option ℕ) StoreError
fold_rows [] t last = ok (t, last)
fold_rows ((seq, row) ∷ rows) t last = apply t row.event >>= λ t'. fold_rows rows t' (some seq)

unfoldable pub rebuild_views : Store → Result Store StoreError
unfolding fold_rows
rebuild_views s =
    fold_rows s.events empty_tables none >>= λ r. ok (record s { views = r.0; view_seq = r.1 })

-- `range((start, Unbounded))` in key order.
unfoldable pub rows_after : Option ℕ → List (ℕ × StoredEvent) → List Event
rows_after after [] = []
rows_after after ((k, row) ∷ rows) =
    let rest = rows_after after rows in
    if elim after [ none ↦ true | some n ↦ ltb n k ] then row.event ∷ rest else rest

unfoldable pub events_after : Option ℕ → Store → List Event
unfolding rows_after
events_after after s = rows_after after s.events

abbrev pub empty_store : Store
empty_store = record { events = []; views = empty_tables; view_seq = none }

-- `init` of an open store: views that are behind the log are rebuilt. Migrations are left out.
unfoldable pub same_seq : Option ℕ → Option ℕ → Bool
same_seq none none = true
same_seq none (some _) = false
same_seq (some _) none = false
same_seq (some a) (some b) = a == b

unfoldable pub init : Store → Result Store StoreError
unfolding same_seq last_seq rebuild_views
init s = if not (same_seq s.view_seq (last_seq s)) then rebuild_views s else ok s

-- Queries. A range over the keys of one review is what the table has under that review.
unfoldable pub of_review {ℓ} : {V : Type ℓ} → ℕ → List ((ℕ × ℕ) × V) → List V
of_review r [] = []
of_review r ((k, v) ∷ m) = let rest = of_review r m in if k.0 == r then v ∷ rest else rest

unfoldable pub comments : ℕ → Store → List Comment
unfolding of_review
comments r s = of_review r s.views.comments

unfoldable pub threads : ℕ → Store → List Thread
unfolding of_review
threads r s = of_review r s.views.threads

unfoldable pub find_comment : ℕ → ℕ → Store → Option Comment
find_comment r c s = Maps.get (r, c) s.views.comments

unfoldable pub find_review : ℕ → Store → Option ReviewRecord
find_review r s = Maps.get r s.views.reviews

unfoldable pub find_workspace : ℕ → Store → Option Workspace
find_workspace w s = Maps.get w s.views.workspaces

unfoldable pub find_suggestion : ℕ → ℕ → Store → Option SuggestionRecord
find_suggestion r c s = Maps.get (r, c) s.views.suggestions

-- Live reviews of a workspace.
unfoldable pub live_reviews : ℕ → List (ℕ × ReviewRecord) → List ReviewRecord
live_reviews w [] = []
live_reviews w ((_, rec) ∷ m) =
    let rest = live_reviews w m in
    if rec.review.workspace_id == w
    then elim rec.lifecycle [ review_live ↦ rec ∷ rest | _ ↦ rest ]
    else rest

-- `comments_on_blob`: review and comment, under a repository and a blob.
unfoldable pub comments_on_blob : ℕ → ℕ → List (((ℕ × ℕ) × ℕ) × ℕ) → List (ℕ × ℕ)
comments_on_blob repo blob [] = []
comments_on_blob repo blob ((k, r) ∷ m) =
    let rest = comments_on_blob repo blob m in
    if (k.0.0 == repo) && (k.0.1 == blob) then (r, k.1) ∷ rest else rest
