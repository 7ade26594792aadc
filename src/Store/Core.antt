-- ===== src/Store/Core.antt =====
-- crates/nits-review-core/src/core.rs, with the lookups of review.rs and repository.rs: the façade
-- over the store. An operation that changes the store returns the new one; on an error the store
-- stays. An opened repository is its handle; what git answers is a parameter. The reason of an
-- error is a constructor.
use nits.Prelude.{
  ℕ, Bool, false, not, ◌||◌, ◌==◌, Option, none, some, List, [], ◌∷◌, Result, ok, err, ◌>>=◌,
  if◌then◌else◌,
}
use nits.Protocol.Domain.{RepoId, BlobOid}
use nits.Protocol.Author.{Author}
use nits.Protocol.Changes.{RefSpec, ResolvedRef, ReviewTarget}
use nits.Store.Events.{Repo, Workspace, Comment, Thread, Event, EventBody}
use nits.Store.Views.{StoreError, ReviewRecord, review_live, review_deleted_at, ok_or, is_deleted}
use nits.Store.Log.{Store, NewEvent, find_comment, find_review, find_workspace, threads}
use nits.Store.Log

pub record Ctx : Type 0 where
  pub author : Author
  pub client_id : ℕ
  pub client_seq : ℕ
  pub now : ℕ

pub data EntityKind : Type 0 where
  workspace_entity review_entity comment_entity thread_entity repo_entity : EntityKind

pub data InvalidReason : Type 0 where
  comment_exists workspace_exists review_exists : ℕ → InvalidReason
  informational_needs_review browse_needs_head : InvalidReason
  -- repository, review; repository, workspace
  repo_not_in_review repo_not_attached : RepoId → ℕ → InvalidReason
  -- start, end, number of lines
  range_exceeds : ℕ → ℕ → ℕ → InvalidReason
  informational_fixed reopen_first : InvalidReason
  already_resolved not_resolved : ℕ → InvalidReason
  name_empty no_targets : InvalidReason
  repo_twice : RepoId → InvalidReason

pub data ForbiddenReason : Type 0 where
  only_author_edits only_author_deletes only_humans_view : ForbiddenReason

pub data CoreError (G : Type 0) : Type 0 where
  not_found : EntityKind → ℕ → CoreError G
  invalid : InvalidReason → CoreError G
  forbidden : ForbiddenReason → CoreError G
  store_error : StoreError → CoreError G
  git_error : G → CoreError G

-- What git answers: opening a repository, the bytes of a blob, and what a revision is.
pub record Git (G : Type 0) : Type 0 where
  pub lookup : RepoId → Result ℕ G
  pub blob : ℕ → BlobOid → Result (List ℕ) G
  pub resolve : ℕ → RefSpec → Result ResolvedRef G

-- `.filter(|c| !matches!(c.state, Deleted))`
unfoldable pub undeleted : Option Comment → Option Comment
undeleted none = none
undeleted (some c) = if not (is_deleted c.state) then some c else none

-- `.find(|t| t.id == id)`
unfoldable pub thread_of : ℕ → List Thread → Option Thread
thread_of h [] = none
thread_of h (th ∷ ths) = let rest = thread_of h ths in if th.id == h then some th else rest

abbrev pub targets_repo : RepoId → List ReviewTarget → Bool
targets_repo repo [] = false
targets_repo repo (t ∷ ts) = (t.repo_id == repo) || targets_repo repo ts

abbrev pub holds_repo : RepoId → List Repo → Bool
holds_repo repo [] = false
holds_repo repo (r ∷ rs) = (r.id == repo) || holds_repo repo rs

abbrev pub new_event : Ctx → EventBody → NewEvent
new_event ctx body = record {
  ts = ctx.now;
  author = ctx.author;
  client_id = ctx.client_id;
  client_seq = ctx.client_seq;
  body = body;
}

module _ {G : Type 0} where
  -- `?` on an error of git.
  abbrev pub from_git {ℓ} : {A : Type ℓ} → Result A G → Result A (CoreError G)
  from_git (ok a) = ok a
  from_git (err g) = err (git_error g)

  -- `?` on an error of the store.
  abbrev pub from_store {ℓ} : {A : Type ℓ} → Result A StoreError → Result A (CoreError G)
  from_store (ok a) = ok a
  from_store (err e) = err (store_error e)

  unfoldable pub append : ℕ → Ctx → EventBody → Store → Result (Event × Store) (CoreError G)
  append current_schema ctx body s = from_store (Log.append current_schema (new_event ctx body) s)

  unfoldable pub workspace : ℕ → Store → Result Workspace (CoreError G)
  unfolding find_workspace
  workspace w s = ok_or (not_found workspace_entity w) (find_workspace w s)

  -- `match rec.lifecycle`
  unfoldable pub only_live : ℕ → ReviewRecord → Result ReviewRecord (CoreError G)
  only_live r rec = elim rec.lifecycle [
    | review_live ↦ ok rec
    | review_deleted_at _ ↦ err (not_found review_entity r)
  ]

  unfoldable pub review : ℕ → Store → Result ReviewRecord (CoreError G)
  unfolding find_review only_live
  review r s = ok_or (not_found review_entity r) (find_review r s) >>= λ rec. only_live r rec

  unfoldable pub comment : ℕ → ℕ → Store → Result Comment (CoreError G)
  unfolding find_comment undeleted
  comment r c s = ok_or (not_found comment_entity c) (undeleted (find_comment r c s))

  unfoldable pub thread : ℕ → ℕ → Store → Result Thread (CoreError G)
  unfolding threads thread_of
  thread r h s = ok_or (not_found thread_entity h) (thread_of h (threads r s))

  unfoldable pub workspace_repo : Git G → ℕ → RepoId → Store → Result ℕ (CoreError G)
  unfolding workspace
  workspace_repo git w repo s = workspace w s >>= λ ws.
      if not (holds_repo repo ws.repos)
      then err (invalid (repo_not_attached repo w))
      else from_git (git.lookup repo)

  unfoldable pub review_repo : Git G → ℕ → RepoId → Store → Result ℕ (CoreError G)
  unfolding review workspace_repo
  review_repo git r repo s = review r s >>= λ rec.
      if not (targets_repo repo rec.review.targets)
      then err (invalid (repo_not_in_review repo r))
      else workspace_repo git rec.review.workspace_id repo s
