-- ===== src/Store/Comments/Rules.antt =====
-- comments.rs: the abstract view of the operations. The commands, the step each of them takes in
-- the state machine of a thread's resolution, and who may cause which event.
use nits.Prelude.{ℕ, ◌≡◌, Option, none, some, List, [], ◌∷◌, false, nat_eq, pair_eq}
use nits.Prelude.Maps.{get}
use nits.Protocol.Domain.{Text, Anchor}
use nits.Protocol.Author.{Author}
use nits.Store.Events.{
  CommentKind, CommentContext, Comment, Thread, ThreadResolution, open_thread, deferred,
  resolved_by, EventBody, comment_created, comment_edited, comment_deleted, thread_deferred,
  thread_resolved, thread_unresolved,
}
use nits.Store.Views.{Tables, is_deleted}
use nits.Store.Core.{Ctx}

-- What a client asks of comments and threads: the review and the arguments of the operation. The
-- operation that follows moved targets, `reanchor_review`, is not among these seven.
pub data Command : Type 0 where
  adding : (r id : ℕ) → CommentKind → Anchor → Text → Option CommentContext → Command
  replying : (r thread id : ℕ) → CommentKind → Text → Command
  editing : (r id : ℕ) → Text → Command
  deleting : (r id : ℕ) → Command
  deferring : (r thread : ℕ) → Text → Option Text → Command
  resolving reopening : (r thread : ℕ) → Command

-- What a command of this caller makes of the resolution of thread `h` of review `r`. There is no
-- step from an informational thread, none from a deferred one to another deferral, none that
-- resolves twice and none that reopens an open thread.
pub data Step (ctx : Ctx) (r h : ℕ) : Command → ThreadResolution → ThreadResolution → Type 0 where
  defers :
      {reason : Text} {url : Option Text}
      → Step ctx r h (deferring r h reason url) open_thread (deferred reason url ctx.author ctx.now)
  resolves : Step ctx r h (resolving r h) open_thread (resolved_by ctx.author ctx.now)
  resolves_deferred :
      {reason : Text} {url : Option Text} {was : Author} {then : ℕ}
      → Step ctx r h (resolving r h) (deferred reason url was then) (resolved_by ctx.author ctx.now)
  reopens_deferred :
      {reason : Text} {url : Option Text} {was : Author} {then : ℕ}
      → Step ctx r h (reopening r h) (deferred reason url was then) open_thread
  reopens :
      {was : Author} {then : ℕ} → Step ctx r h (reopening r h) (resolved_by was then) open_thread

-- The resolutions that a run of commands makes of one: each command takes its step if there is one,
-- and only then.
pub data Trace (r h : ℕ) : List (Ctx × Command) → ThreadResolution → ThreadResolution → Type 0 where
  ends : {a : ThreadResolution} → Trace r h [] a a
  takes :
      {c : Ctx × Command} {cs : List (Ctx × Command)} {a b d : ThreadResolution}
      → Step c.0 r h c.1 a b
      → Trace r h cs b d
      → Trace r h (c ∷ cs) a d
  passes :
      {c : Ctx × Command} {cs : List (Ctx × Command)} {a d : ThreadResolution}
      → ((b : ThreadResolution) → Step c.0 r h c.1 a b → ⊥)
      → Trace r h cs a d
      → Trace r h (c ∷ cs) a d

abbrev Mine : Ctx → Tables → ℕ → ℕ → Type 0
Mine ctx t r id =
    (x : Comment) × (get (r, id) t.comments ≡ some x)
    × (is_deleted x.state ≡ false)
    × (x.author ≡ ctx.author)

-- The thread is there, and the new resolution follows the old one.
abbrev StepsTo : Ctx → Command → Tables → ℕ → ℕ → ThreadResolution → Type 0
StepsTo ctx k t r h new =
    (x : Thread) × (get (r, h) t.threads ≡ some x) × Step ctx r h k x.resolution new

-- What holds of the views before an event that a command appends for the caller.
abbrev pub Allowed : Ctx → Command → Tables → EventBody → Type 0
Allowed ctx k t b = elim b [
  | comment_created c ↦ (get (c.review_id, c.id) t.comments ≡ none) × (c.author ≡ ctx.author)
  | comment_edited r id _ ↦ Mine ctx t r id
  | comment_deleted r id ↦ Mine ctx t r id
  | thread_deferred r h reason url ↦ StepsTo ctx k t r h (deferred reason url ctx.author ctx.now)
  | thread_resolved r h ↦ StepsTo ctx k t r h (resolved_by ctx.author ctx.now)
  | thread_unresolved r h ↦ StepsTo ctx k t r h open_thread
  | _ ↦ ⊥
]
