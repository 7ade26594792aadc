-- ===== src/Tests/Reanchoring.antt =====
-- Commands and reanchorings on a comment on a file.
use nits.Prelude.{
  same, ℕ, ◌≡◌, ◌≢◌, refl, arith, true, ◌==◌, none, some, List, [], ◌∷◌, ok, inl, nat_eq, pair_eq,
}
use nits.Prelude.Maps.{get, insert}
use nits.Protocol.Domain.{file, Anchor-discrete}
use nits.Review.Anchor.{effective_anchor}
use nits.Review.Reanchor.{reanchor}
use nits.Protocol.Changes.{file_entry, ResolvedRef, from_commit, ResolvedTarget}
use nits.Store.Events.{Comment, Workspace, note}
use nits.Store.Log.{Store}
use nits.Store.Core.{Ctx}
use nits.Store.Core
use nits.Store.Core.{review_repo}
use nits.Store.Log
use nits.Store.Log.{find_comment}
use nits.Store.Views.Apply.{apply}
use nits.Store.Comments.{add_comment}
use nits.Store.Consistent.{IsConsistent}
use nits.Store.Comments.Rules.{Command, adding, replying, editing, deleting, resolving}
use nits.Store.Comments.Commands.{run_all}
use nits.Store.Comments.Runs.{run_all-Sound}
use nits.Store.Reanchoring.{Trees, reanchor_review}
use nits.Store.Reanchoring.Sound.{Reanchored, reanchor_review-Reanchored}
use nits.Store.Reanchoring.Kept.{serve_all-Left, serve_all-SameMaker}
use nits.Store.Reanchoring.Requests.{
  Request, commands, reanchors, Left, Stays, SameMaker, serve_all,
}
use nits.Tests.Store.{ada, bot, by, start, root_comment, ulid, git, start-IsConsistent, ulid-IsUlid}

abbrev the_workspace : Workspace
the_workspace = record {
  id = 3;
  name = [];
  repos = record { id = 1; path = []; display_name = [] } ∷ [];
}

abbrev housed : Store
housed = record start { views = record start.views { workspaces = insert 3 the_workspace [] } }

housed-IsConsistent : IsConsistent housed.views
housed-IsConsistent = record {
  comment_map = start-IsConsistent.comment_map;
  review_keys = start-IsConsistent.review_keys;
  comment_keys = start-IsConsistent.comment_keys;
  thread_keys = start-IsConsistent.thread_keys;
  placed = start-IsConsistent.placed;
  members = start-IsConsistent.members;
  owned = start-IsConsistent.owned;
}

abbrev opening : List (Ctx × Command)
opening = (by ada 10, adding 7 20 note (file 1 (97 ∷ []) 55) (104 ∷ []) none) ∷ []

abbrev opened : Store
opened = (run_all 4 git ulid (λ ls. 0) (λ bytes. bytes) (λ c. c == 32) opening housed).0

abbrev file_comment : Comment
file_comment = record root_comment { anchor = file 1 (97 ∷ []) 55 }

opened-IsConsistent : IsConsistent opened.views
opened-IsConsistent =
    (run_all-Sound 4 git ulid (λ ls. 0) (λ bytes. bytes) (λ c. c == 32) ulid-IsUlid opening housed
      housed-IsConsistent).0

opened_comment : get (7, 20) opened.views.comments ≡ some file_comment
unfolding get run_all add_comment find_comment Core.review insert review_repo Core.append Log.append
    apply
opened_comment = refl

-- The file has another blob in the new tree.
abbrev trees : Trees ℕ
trees = record {
  entries = λ handle tree. ok (record { path = 97 ∷ []; kind = file_entry 56 4 true } ∷ []);
  changed_files = λ handle old new. ok [];
}

abbrev tree : ℕ → ResolvedRef
tree oid = record { tree = oid; source = from_commit oid }

abbrev target : ResolvedTarget
target = record { repo_id = 1; base_tree = tree 80; head_tree = tree 81 }

-- Another caller answers, edits, resolves and deletes, and the review is reanchored in between.
abbrev requests : List (Ctx × Request)
requests =
    (by bot 11, commands (replying 7 20 21 note (111 ∷ [])))
    ∷ (by bot 12, commands (editing 7 20 (120 ∷ [])))
    ∷ (by ada 13, reanchors 7 [] (target ∷ []))
    ∷ (by bot 14, commands (resolving 7 20))
    ∷ (by bot 15, commands (deleting 7 20))
    ∷ []

bot_is_other : bot ≢ ada
bot_is_other e = absurd (ground arith)

serve_all-Left_example :
    Left file_comment
      (serve_all 4 git ulid trees
        (λ a b. [])
        (λ ls. 0)
        (λ bytes. bytes)
        (λ c. c == 32)
        requests
        opened).views
      7
      20
      (Stays 7 file_comment requests)
serve_all-Left_example =
    serve_all-Left 4 git ulid trees (λ a b. []) (λ ls. 0) (λ bytes. bytes) (λ c. c == 32)
      ulid-IsUlid requests opened 7 20 file_comment opened-IsConsistent opened_comment
      (inl (bot_is_other, (bot_is_other, (tt, (bot_is_other, (bot_is_other, tt))))))

reanchor_review-Reanchored_example : Reanchored 7 opened.views (
    reanchor_review 4 git trees
      (λ a b. [])
      (λ ls. 0)
      (λ bytes. bytes)
      (λ c. c == 32)
      (by bot 12)
      7
      []
      (target ∷ [])
      opened)
reanchor_review-Reanchored_example =
    reanchor_review-Reanchored 4 git trees (λ a b. []) (λ ls. 0) (λ bytes. bytes) (λ c. c == 32)
      (by bot 12) 7 [] (target ∷ []) opened opened-IsConsistent

-- The comment follows the file to its new blob.
followed :
    get
      (7, 20)
      (reanchor_review 4 git trees
        (λ a b. [])
        (λ ls. 0)
        (λ bytes. bytes)
        (λ c. c == 32)
        (by bot 12)
        7
        []
        (target ∷ [])
        opened).1.views.comments
    ≡ some (record file_comment { anchor = file 1 (97 ∷ []) 56 })
unfolding get reanchor_review Log.comments run_all add_comment find_comment Core.review insert
    review_repo Core.append Log.append apply effective_anchor reanchor same Anchor-discrete
followed = refl

serve_all-SameMaker_example :
    (y : Comment) × (get
        (7, 20)
        (serve_all 4 git ulid trees
          (λ a b. [])
          (λ ls. 0)
          (λ bytes. bytes)
          (λ c. c == 32)
          requests
          opened).views.comments
      ≡ some y)
    × SameMaker file_comment y
serve_all-SameMaker_example =
    serve_all-SameMaker 4 git ulid trees (λ a b. []) (λ ls. 0) (λ bytes. bytes) (λ c. c == 32)
      ulid-IsUlid requests opened 7 20 file_comment opened-IsConsistent opened_comment
