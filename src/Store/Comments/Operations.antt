-- ===== src/Store/Comments/Operations.antt =====
-- comments.rs: no operation on comments or threads meets an event that the views refuse.
use nits.Prelude.{
  ◌⊎◌, ℕ, ◌≡◌, refl, Option, none, some, [], Result, ok, err, ◌>>=◌, arith, inl, inr, nat_eq,
  same→eq, pair_eq, Option-cases, Bool-cases, ==_iff, same,
}
use nits.Prelude.Maps.{get}
use nits.Protocol.Domain.{Text}
use nits.Protocol.Author.{Author-discrete}
use nits.Store.Events.{
  Comment, Thread, CommentKind, comment_created, comment_edited, comment_deleted, thread_deferred,
  thread_resolved, thread_unresolved, ThreadResolution, EventBody, informational_thread,
  open_thread, deferred, resolved_by,
}
use nits.Store.Views.{
  Tables, ReviewRecord, load_comment, load_thread, load_review, thread_with, create_comment,
}
use nits.Store.Views.Apply.{apply_body, set_resolution}
use nits.Store.Log.{Store, find_comment}
use nits.Store.Core.{Ctx, CoreError}
use nits.Store.Consistent.{IsConsistent}
use nits.Store.Comments.{
  append, reply, edit_comment, delete_comment, defer_thread, resolve_thread, unresolve_thread,
  may_defer, may_resolve, may_unresolve,
}
use nits.Store.Consistent.Events.{IsFresh}
use nits.Store.Comments.Rules.{
  Command, replying, editing, deleting, deferring, resolving, reopening, Allowed, Step, defers,
  resolves, resolves_deferred, reopens_deferred, reopens,
}
use nits.Store.Comments.Sound.{Sound, Clean, Applies, append-Sound, thread_cases, comment_cases}

comment_Applies :
    (t : Tables) (r c : ℕ) (x : Comment) (body : Text)
    → get (r, c) t.comments ≡ some x
    → Applies t (comment_edited r c body) × Applies t (comment_deleted r c)
unfolding apply_body load_comment
comment_Applies t r c x body q = (λ e. rw q tt, λ e. rw q tt)

thread_Applies :
    (t : Tables) (r h : ℕ) (x : Thread) (reason : Text) (url : Option Text)
    → get (r, h) t.threads ≡ some x
    → Applies t (thread_deferred r h reason url)
      × Applies t (thread_resolved r h)
      × Applies t (thread_unresolved r h)
unfolding apply_body load_thread set_resolution
thread_Applies t r h x reason url q = (λ e. rw q tt, λ e. rw q tt, λ e. rw q tt)

module _ (G : Type 0) (current_schema : ℕ) (ctx : Ctx) (r : ℕ) (s : Store)
    (h : IsConsistent s.views) where
  pub edit_comment-Sound :
      (id : ℕ) (body : Text)
      → Sound {G = G} ctx (editing r id body) s (edit_comment current_schema ctx r id body s)
  unfolding edit_comment
  edit_comment-Sound id body = elim (comment_cases {G = G} r s h id) [
    | inl q ↦ rw q tt
    | inr (x, q, g, d) ↦ elim (Bool-cases (same Author-discrete x.author ctx.author)) [
      | inl b ↦
          rw (q, b)
            (append-Sound G current_schema ctx (editing r id body) (comment_edited r id body) s tt h
              tt (comment_Applies s.views r id x body g).0
              (x, g, d, same→eq Author-discrete x.author ctx.author b))
      | inr b ↦ rw (q, b) tt
    ]
  ]

  pub delete_comment-Sound :
      (id : ℕ) → Sound {G = G} ctx (deleting r id) s (delete_comment current_schema ctx r id s)
  unfolding delete_comment
  delete_comment-Sound id = elim (comment_cases {G = G} r s h id) [
    | inl q ↦ rw q tt
    | inr (x, q, g, d) ↦ elim (Bool-cases (same Author-discrete x.author ctx.author)) [
      | inl b ↦
          rw (q, b)
            (append-Sound G current_schema ctx (deleting r id) (comment_deleted r id) s tt h tt
              (comment_Applies s.views r id x [] g).1
              (x, g, d, same→eq Author-discrete x.author ctx.author b))
      | inr b ↦ rw (q, b) tt
    ]
  ]

  -- A guard that passes or refuses, before an event that applies.
  guarded :
      (k : Command) (m : Result {0, 0} Unit (CoreError G)) (b : EventBody)
      → Clean m
      → IsFresh s.views b
      → Applies s.views b
      → (m ≡ ok tt → Allowed ctx k s.views b)
      → Sound {G = G} ctx k s (m >>= λ _. append current_schema ctx b s >>= λ x. ok (tt {0}, x.1))
  guarded k (ok _) b c f a w = append-Sound G current_schema ctx k b s tt h f a (w refl)
  guarded k (err e) b c f a w = c

  guards-Clean :
      (th : ℕ) (x : ThreadResolution)
      → Clean (may_defer {G = G} x)
        × Clean (may_resolve {G = G} th x)
        × Clean (may_unresolve {G = G} th x)
  unfolding may_defer may_resolve may_unresolve
  guards-Clean th informational_thread = (tt, tt, tt)
  guards-Clean th open_thread = (tt, tt, tt)
  guards-Clean th (deferred _ _ _ _) = (tt, tt, tt)
  guards-Clean th (resolved_by _ _) = (tt, tt, tt)

  pub defer_Step :
      {reason : Text} {url : Option Text} (th : ℕ) (x : ThreadResolution)
      → may_defer {G = G} x ≡ ok tt
      → Step ctx r th (deferring r th reason url) x (deferred reason url ctx.author ctx.now)
  unfolding may_defer
  defer_Step th open_thread p = defers
  defer_Step th informational_thread p = absurd (ground arith)
  defer_Step th (deferred _ _ _ _) p = absurd (ground arith)
  defer_Step th (resolved_by _ _) p = absurd (ground arith)

  pub resolve_Step :
      (th : ℕ) (x : ThreadResolution)
      → may_resolve {G = G} th x ≡ ok tt
      → Step ctx r th (resolving r th) x (resolved_by ctx.author ctx.now)
  unfolding may_resolve
  resolve_Step th open_thread p = resolves
  resolve_Step th informational_thread p = absurd (ground arith)
  resolve_Step th (deferred _ _ _ _) p = resolves_deferred
  resolve_Step th (resolved_by _ _) p = absurd (ground arith)

  pub unresolve_Step :
      (th : ℕ) (x : ThreadResolution)
      → may_unresolve {G = G} th x ≡ ok tt
      → Step ctx r th (reopening r th) x open_thread
  unfolding may_unresolve
  unresolve_Step th open_thread p = absurd (ground arith)
  unresolve_Step th informational_thread p = absurd (ground arith)
  unresolve_Step th (deferred _ _ _ _) p = reopens_deferred
  unresolve_Step th (resolved_by _ _) p = reopens

  pub defer_thread-Sound :
      (th : ℕ) (reason : Text) (url : Option Text)
      → Sound {G = G} ctx
          (deferring r th reason url)
          s
          (defer_thread current_schema ctx r th reason url s)
  unfolding defer_thread
  defer_thread-Sound th reason url = elim (thread_cases {G = G} r s h th) [
    | inl q ↦ rw q tt
    | inr (x, q, g) ↦ rw q (
        guarded (deferring r th reason url) (may_defer x.resolution)
          (thread_deferred r th reason url) (guards-Clean th x.resolution).0 tt
          (thread_Applies s.views r th x reason url g).0
          (λ p. (x, g, defer_Step th x.resolution p)))
  ]

  pub resolve_thread-Sound :
      (th : ℕ) → Sound {G = G} ctx (resolving r th) s (resolve_thread current_schema ctx r th s)
  unfolding resolve_thread
  resolve_thread-Sound th = elim (thread_cases {G = G} r s h th) [
    | inl q ↦ rw q tt
    | inr (x, q, g) ↦ rw q (
        guarded (resolving r th) (may_resolve th x.resolution) (thread_resolved r th)
          (guards-Clean th x.resolution).1 tt (thread_Applies s.views r th x [] none g).1
          (λ p. (x, g, resolve_Step th x.resolution p)))
  ]

  pub unresolve_thread-Sound :
      (th : ℕ) → Sound {G = G} ctx (reopening r th) s (unresolve_thread current_schema ctx r th s)
  unfolding unresolve_thread
  unresolve_thread-Sound th = elim (thread_cases {G = G} r s h th) [
    | inl q ↦ rw q tt
    | inr (x, q, g) ↦ rw q (
        guarded (reopening r th) (may_unresolve th x.resolution) (thread_unresolved r th)
          (guards-Clean th x.resolution).2 tt (thread_Applies s.views r th x [] none g).2
          (λ p. (x, g, unresolve_Step th x.resolution p)))
  ]

  -- A comment on a known review, in a known thread or as its own root, applies.
  pub created_Applies :
      (c : Comment)
      → (rec : ReviewRecord) × (get c.review_id s.views.reviews ≡ some rec)
      → ((x : Thread) × (get (c.review_id, c.thread_id) s.views.threads ≡ some x))
        ⊎ (c.thread_id ≡ c.id)
      → Applies s.views (comment_created c)
  unfolding apply_body create_comment load_review thread_with
  created_Applies c (rec, live) (inl (x, there)) e = rw (live, there) tt
  created_Applies c (rec, live) (inr own) e =
      elim (Option-cases (get (c.review_id, c.thread_id) s.views.threads)) [
        | inr (x, there) ↦ rw (live, there) tt
        | inl q ↦ rw (live, q, (==_iff c.thread_id c.id).1 own) tt
      ]

  pub reply-Sound :
      (th id : ℕ) (kind : CommentKind) (body : Text)
      → Sound {G = G} ctx
          (replying r th id kind body)
          s
          (reply current_schema ctx r th id kind body s)
  unfolding reply find_comment
  reply-Sound th id kind body = elim (Option-cases (get (r, id) s.views.comments)) [
    | inr (x, q) ↦ rw q tt
    | inl fresh ↦ elim (thread_cases {G = G} r s h th) [
      | inl q ↦ rw (fresh, q) tt
      | inr (x, q, g) ↦ elim (comment_cases {G = G} r s h x.root) [
        | inl p ↦ rw (fresh, q, p) tt
        | inr (root, p, k, d) ↦
            rw (fresh, q, p)
              (append-Sound G current_schema ctx (replying r th id kind body) (comment_created _) s
                _ h fresh (created_Applies _ (h.owned r th x g) (inl (x, g))) (fresh, refl))
      ]
    ]
  ]
