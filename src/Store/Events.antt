-- ===== src/Store/Events.antt =====
-- crates/nits-protocol/src/events.rs, with the records of domain.rs and suggestion.rs that events
-- carry. An id is the number of its ULID, a `Seq` and a time are their numbers, a patch and every
-- other string is its text. A request or checkpoint id is the `Seq` of its event.
use nits.Prelude.{ℕ, Option, none, some, List}
use nits.Protocol.Domain.{Text, RepoId, BlobOid, Anchor, CommentState, live, outdated, deleted}
use nits.Protocol.Author.{Author, Human}
use nits.Protocol.Changes.{ChangeKind, RefSpec, ReviewTarget, ResolvedTarget, ViewedContent}

pub record Repo : Type 0 where
  pub id : RepoId
  pub path : Text
  pub display_name : Text

pub record Workspace : Type 0 where
  pub id : ℕ
  pub name : Text
  pub repos : List Repo

pub data ReviewStatus : Type 0 where
  open_status archived : ReviewStatus

pub record Review : Type 0 where
  pub id : ℕ
  pub workspace_id : ℕ
  pub title : Text
  pub targets : List ReviewTarget
  pub created : ℕ
  pub status : ReviewStatus

pub data CommentKind : Type 0 where
  note informational request : CommentKind
  suggestion : Text → CommentKind

pub data CommentContext : Type 0 where
  diff_context : ChangeKind → CommentContext
  browse_context : RefSpec → CommentContext

pub record Comment : Type 0 where
  pub id : ℕ
  pub review_id : ℕ
  pub thread_id : ℕ
  pub author : Author
  pub kind : CommentKind
  pub anchor : Anchor
  pub body : Text
  pub created : ℕ
  pub edited : Option ℕ
  pub state : CommentState
  pub context : Option CommentContext

pub data ThreadResolution : Type 0 where
  informational_thread open_thread : ThreadResolution
  -- reason, tracking URL, by, at
  deferred : Text → Option Text → Author → ℕ → ThreadResolution
  resolved_by : Author → ℕ → ThreadResolution

unfoldable pub for_root : CommentKind → ThreadResolution
for_root informational = informational_thread
for_root note = open_thread
for_root (suggestion _) = open_thread
for_root request = open_thread

pub record Thread : Type 0 where
  pub id : ℕ
  pub review_id : ℕ
  pub root : ℕ
  pub replies : List ℕ
  pub resolution : ThreadResolution

pub record ViewedMark : Type 0 where
  pub review_id : ℕ
  pub repo_id : RepoId
  pub path : Text
  pub viewer : Human
  pub content : ViewedContent

pub data RequestedTargets : Type 0 where
  unknown_targets : RequestedTargets
  captured : List ResolvedTarget → RequestedTargets

pub data TargetComparison : Type 0 where
  same_targets changed_targets unknown_revision : TargetComparison

pub data RequestCheckpointComparison : Type 0 where
  unknown_comparison no_checkpoint : RequestCheckpointComparison
  compared : ℕ → TargetComparison → RequestCheckpointComparison

pub data ReviewerIdentity : Type 0 where
  human_reviewer : Text → Text → ReviewerIdentity
  agent_reviewer : Text → ReviewerIdentity

pub data ReviewRound : Type 0 where
  request_round checkpoint_round : ℕ → ReviewRound

pub data EventBody : Type 0 where
  workspace_created : Workspace → EventBody
  workspace_updated : (workspace_id : ℕ) (name : Text) → EventBody
  repo_attached : (workspace_id : ℕ) (repo : Repo) → EventBody
  repo_detached : (workspace_id : ℕ) (repo_id : RepoId) → EventBody
  review_created : Review → EventBody
  review_updated : (review_id : ℕ) (title : Text) (status : ReviewStatus) → EventBody
  review_target_updated : (review_id : ℕ) (target : ReviewTarget) → EventBody
  review_deleted : (review_id : ℕ) → EventBody
  review_targets_resolved : (review_id : ℕ) (targets : List ResolvedTarget) → EventBody
  comment_created : Comment → EventBody
  comment_edited : (review_id comment_id : ℕ) (body : Text) → EventBody
  comment_deleted : (review_id comment_id : ℕ) → EventBody
  comment_reanchored :
      (review_id comment_id : ℕ) (anchor : Anchor) (state : CommentState) → EventBody
  thread_deferred :
      (review_id thread_id : ℕ) (reason : Text) (tracking_url : Option Text) → EventBody
  thread_resolved thread_unresolved : (review_id thread_id : ℕ) → EventBody
  file_viewed :
      (review_id : ℕ) (repo_id : RepoId) (path : Text) (viewer : Human) (content : ViewedContent)
      → EventBody
  file_unviewed : (review_id : ℕ) (repo_id : RepoId) (path : Text) (viewer : Human) → EventBody
  review_requested :
      (review_id : ℕ) (agent note_text : Text) (targets : RequestedTargets)
      (comparison : RequestCheckpointComparison)
      → EventBody
  review_checked :
      (review_id : ℕ) (reviewer : ReviewerIdentity) (targets : List ResolvedTarget)
      (in_reply_to : Option ReviewRound)
      → EventBody
  suggestion_applied :
      (review_id comment_id : ℕ) (repo_id : RepoId) (path : Text) (result_blob : BlobOid)
      → EventBody

pub record Event : Type 0 where
  pub seq : ℕ
  pub ts : ℕ
  pub author : Author
  pub client_id : ℕ
  pub client_seq : ℕ
  pub body : EventBody

pub record ReviewRequest : Type 0 where
  pub id : ℕ
  pub review_id : ℕ
  pub requester : Author
  pub recipient : Text
  pub targets : RequestedTargets
  pub checkpoint_comparison : RequestCheckpointComparison
  pub note_text : Text
  pub created : ℕ

pub record ReviewCheckpoint : Type 0 where
  pub id : ℕ
  pub review_id : ℕ
  pub reviewer : ReviewerIdentity
  pub author : Author
  pub created : ℕ
  pub targets : List ResolvedTarget
  pub in_reply_to : Option ReviewRound

pub record SuggestionReceipt : Type 0 where
  pub seq : ℕ
  pub at : ℕ
  pub author : Author
  pub repo_id : RepoId
  pub path : Text
  pub result_blob : BlobOid

pub data SuggestionOutcome : Type 0 where
  unapplied : SuggestionOutcome
  applied : SuggestionReceipt → SuggestionOutcome

pub record SuggestionRecord : Type 0 where
  pub review_id : ℕ
  pub comment_id : ℕ
  pub anchor : Anchor
  pub patch : Text
  pub outcome : SuggestionOutcome

-- The anchor at creation: for an outdated comment, its last good one.
unfoldable pub created_anchor : Anchor → CommentState → Anchor
created_anchor a live = a
created_anchor a deleted = a
created_anchor a (outdated good) = good

unfoldable pub suggestion_of : Comment → CommentKind → Option SuggestionRecord
unfolding created_anchor
suggestion_of c note = none
suggestion_of c informational = none
suggestion_of c request = none
suggestion_of c (suggestion patch) = some (record {
  review_id = c.review_id;
  comment_id = c.id;
  anchor = created_anchor c.anchor c.state;
  patch = patch;
  outcome = unapplied;
})

unfoldable pub from_created : Comment → Option SuggestionRecord
unfolding suggestion_of
from_created c = suggestion_of c c.kind
