-- ===== src/Tests/Store.antt =====
-- The event log and the operations on comments on concrete inputs.
use nits.Prelude.{
  ◌↔◌, true, ◌==◌, ◌++◌, ℕ, ◌+◌, ◌*◌, ◌/◌, ◌%◌, ◌^◌, ◌≡◌, refl, none, some, List, [], ◌∷◌, ok, err,
  arith, nat_eq, pair_eq,
}
use nits.Prelude.Maps.{contains, get, insert, remove}
use nits.Protocol.Domain.{Text}
use nits.Protocol.Domain
use nits.Protocol.Author.{Author, human_author, agent_author, mcp}
use nits.Protocol.Changes.{branch}
use nits.Store.Events.{
  resolved_by, comment_created, Event, Review, open_status, Comment, Thread, open_thread, note,
  review_created, review_deleted, thread_resolved,
}
use nits.Store.Views.{Tables, review_live, empty_tables}
use nits.Store.Log.{
  comments_on_blob, NewEvent, Store, empty_store, append, rebuild_views, events_after, last_seq,
}
use nits.Store.Log.Rows.{Counted}
use nits.Store.Log.Rebuild.{append_all, rebuild_views-append_all, events_after-append_all}
use nits.Store.Core.{Ctx, Git, CoreError}
use nits.Store.Consistent.{IsConsistent}
use nits.Store.Consistent.Steps.{review-Consistent}
use nits.Store.Index.{IsIndexed, OnBlob}
use nits.Store.Index.Listing.{comments_on_blob-apply}
use nits.Store.Comments.{Ulid, IsUlid}
use nits.Store.Comments.Rules.{Step, Trace}
use nits.Store.Comments.Rules.{Command, adding, replying, editing, deleting, deferring, resolving}
use nits.Store.Log
use nits.Store.Core
use nits.Store.Log.{find_comment, find_review, coming_seq, sequenced}
use nits.Store.Core.{only_live}
use nits.Store.Views.{
  create_comment, load_review, thread_with, put_comment, add_suggestion, index_anchor,
}
use nits.Store.Events.{from_created, suggestion_of, for_root}
use nits.Store.Views.Apply.{apply, apply_body}
use nits.Store.Index.{IsIndexed, OnBlob}
use nits.Store.Index.Listing.{comments_on_blob-apply}
use nits.Store.Comments.{add_comment, validate_anchor, thread_id_of}
use nits.Store.Comments.Commands.{run, run_all}
use nits.Store.Comments.Settles.{Settled, asks_resolve}
use nits.Store.Comments.Machine.{run-Step, run_all-Trace}
use nits.Store.Comments.Runs.{NoneOfStore, run_all-Sound}

abbrev pub ada : Author
ada = human_author (97 ∷ []) []

abbrev pub bot : Author
bot = agent_author (98 ∷ []) [] [] none mcp

abbrev the_review : Review
the_review = record {
  id = 7;
  workspace_id = 3;
  title = [];
  targets = record { repo_id = 1; base_ref = branch (109 ∷ []); head_ref = branch (102 ∷ []) } ∷ [];
  created = 5;
  status = open_status;
}

abbrev pub by : Author → ℕ → Ctx
by who at = record { author = who; client_id = 1; client_seq = at; now = at }

abbrev events : List NewEvent
events =
    record { ts = 1; author = ada; client_id = 1; client_seq = 1; body = review_created the_review }
    ∷ record { ts = 2; author = bot; client_id = 2; client_seq = 1; body = thread_resolved 7 9 }
    ∷ record { ts = 3; author = ada; client_id = 1; client_seq = 2; body = review_deleted 7 }
    ∷ []

rebuild_views-append_all_example :
    (rebuild_views (append_all 4 events empty_store) ≡ ok (append_all 4 events empty_store))
    × ((append_all 4 events empty_store).view_seq ≡ last_seq (append_all 4 events empty_store))
rebuild_views-append_all_example = rebuild_views-append_all 4 events (omega arith)

events_after-append_all_example :
    let s = append_all 4 events empty_store in
    let s' = append_all 4 events s in
    (events_after none s' ≡ events_after none s ++ events_after (last_seq s) s')
    × Counted 1 s'.events
events_after-append_all_example = events_after-append_all 4 events events (omega arith)

abbrev pub ulid : Ulid
ulid = record {
  timestamp_ms = λ n. n / 2 ^ 80;
  random = λ n. n % 2 ^ 80;
  from_parts = λ t r. t * 2 ^ 80 + r;
}

pub ulid-IsUlid : IsUlid ulid
ulid-IsUlid n = omega arith

abbrev pub git : Git ℕ
git = record {
  lookup = λ repo. ok repo;
  blob = λ handle oid. ok (97 ∷ 10 ∷ []);
  resolve = λ handle spec. err 1;
}

abbrev pub start : Store
start = record empty_store {
  views = record empty_tables {
    reviews =
        insert 7 (record { review = the_review; resolved = none; lifecycle = review_live }) [];
  };
}

empty-IsConsistent : IsConsistent empty_tables
unfolding get
empty-IsConsistent = record {
  comment_map = tt;
  review_keys = λ r rec q. absurd (ground arith);
  comment_keys = λ r c x q. absurd (ground arith);
  thread_keys = tt;
  placed = λ r c x q. absurd (ground arith);
  members = λ r h th q. absurd (ground arith);
  owned = λ r h th q. absurd (ground arith);
}

pub start-IsConsistent : IsConsistent start.views
start-IsConsistent = review-Consistent 7 _ [] [] [] refl empty-IsConsistent

abbrev run_here : List (Ctx × Command) → Store → Store × List (CoreError ℕ)
run_here = run_all 4 git ulid (λ ls. 0) (λ bytes. bytes) (λ c. c == 32)

abbrev opening : List (Ctx × Command)
opening = (by ada 10, adding 7 20 note Domain.review (104 ∷ []) none) ∷ []

-- The thread is answered and resolved, by others edited and deleted in vain, and deferred too late.
abbrev talk : List (Ctx × Command)
talk =
    (by bot 11, replying 7 20 21 note (111 ∷ []))
    ∷ (by bot 12, editing 7 20 (120 ∷ []))
    ∷ (by bot 13, deleting 7 20)
    ∷ (by bot 14, resolving 7 20)
    ∷ (by bot 15, deferring 7 20 (114 ∷ []) none)
    ∷ []

abbrev opened : Store
opened = (run_here opening start).0

abbrev pub root_comment : Comment
root_comment = record {
  id = 20;
  review_id = 7;
  thread_id = 20;
  author = ada;
  kind = note;
  anchor = Domain.review;
  body = 104 ∷ [];
  created = 10;
  edited = none;
  state = Domain.live;
  context = none;
}

opened-IsConsistent : IsConsistent opened.views
opened-IsConsistent =
    (run_all-Sound 4 git ulid (λ ls. 0) (λ bytes. bytes) (λ c. c == 32) ulid-IsUlid opening start
      start-IsConsistent).0

run_all-Sound_example :
    IsConsistent (run_here talk opened).0.views × NoneOfStore (run_here talk opened).1
run_all-Sound_example =
    run_all-Sound 4 git ulid (λ ls. 0) (λ bytes. bytes) (λ c. c == 32) ulid-IsUlid talk opened
      opened-IsConsistent

abbrev root_thread : Thread
root_thread = record { id = 20; review_id = 7; root = 20; replies = []; resolution = open_thread }

opened_lem :
    (get (7, 20) opened.views.comments ≡ some root_comment)
    × (get (7, 20) opened.views.threads ≡ some root_thread)
unfolding get insert remove run_all run add_comment find_comment validate_anchor Core.review
    find_review only_live thread_id_of Core.append Log.append coming_seq last_seq sequenced apply
    apply_body create_comment load_review thread_with put_comment add_suggestion from_created
    suggestion_of index_anchor for_root
opened_lem = (refl, refl)

run_all-Trace_example :
    (y : Thread) × (get (7, 20) (run_here talk opened).0.views.threads ≡ some y)
    × Trace 7 20 talk root_thread.resolution y.resolution
    × (y.root ≡ root_thread.root)
run_all-Trace_example =
    run_all-Trace 4 git ulid (λ ls. 0) (λ bytes. bytes) (λ c. c == 32) ulid-IsUlid talk opened 7 20
      root_thread opened-IsConsistent opened_lem.1

run-Step_example :
    Step (by bot 14) 7 20 (resolving 7 20) open_thread (resolved_by bot 14)
    ↔ Settled 7 20 root_thread (resolved_by bot 14) (
        run 4 git ulid
          (λ ls. 0)
          (λ bytes. bytes)
          (λ c. c == 32)
          (by bot 14)
          (resolving 7 20)
          opened)
run-Step_example =
    run-Step 4 git ulid (λ ls. 0) (λ bytes. bytes) (λ c. c == 32) (by bot 14) (resolving 7 20) 7 20
      opened root_thread (resolved_by bot 14) opened-IsConsistent opened_lem.1 asks_resolve

abbrev filed : Event
filed = record {
  seq = 9;
  ts = 11;
  author = bot;
  client_id = 2;
  client_seq = 2;
  body =
      comment_created
        (record root_comment { id = 30; thread_id = 30; anchor = Domain.file 1 (97 ∷ []) 55 });
}

abbrev filed_comment : Comment
filed_comment = record root_comment { id = 30; thread_id = 30; anchor = Domain.file 1 (97 ∷ []) 55 }

abbrev filed_tables : Tables
filed_tables = put_comment filed_comment (record root_thread { id = 30; root = 30 }) start.views

start-IsIndexed : IsIndexed start.views
unfolding get
start-IsIndexed = record {
  is_map = tt;
  entries = λ k r c q. absurd (ground arith);
  complete = λ k r c on. absurd (ground (arith, on.1));
  one_review = λ r q c x y g l. absurd (ground arith);
}

apply-filed : apply start.views filed ≡ ok filed_tables
unfolding apply apply_body create_comment load_review thread_with get insert remove for_root
apply-filed = refl

comments_on_blob-apply_example :
    IsIndexed filed_tables
    × ((contains (7, 30) (comments_on_blob 1 55 filed_tables.anchors_by_blob) ≡ true)
        ↔ OnBlob filed_tables.comments (1, 55) 7 30)
unfolding get
comments_on_blob-apply_example =
    comments_on_blob-apply start.views filed_tables filed 1 55 7 30 start-IsConsistent
      start-IsIndexed ((λ q. refl), refl) apply-filed
