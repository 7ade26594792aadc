-- ===== src/Store/Comments/Settles.antt =====
-- comments.rs: deferring, resolving and reopening a thread, as steps of its resolution. Each is
-- accepted exactly where there is a step, and makes the resolution that the step leads to.
use nits.Prelude.{
  ℕ, ◌≡◌, List, Bool, Option, refl, ap, ◌∙◌, some, Result, ok, ◌>>=◌, inl, inr, nat_eq, pair_eq,
  Result-cases,
}
use nits.Prelude.Maps.{get, insert, get-insert_self}
use nits.Protocol.Domain.{Text}
use nits.Store.Events.{
  Thread, ThreadResolution, open_thread, deferred, resolved_by, Event, EventBody, thread_deferred,
  thread_resolved, thread_unresolved,
}
use nits.Store.Views.{load_thread, save_thread}
use nits.Store.Views.Apply.{apply, apply_body, set_resolution}
use nits.Store.Log.{Store, threads, coming_seq, sequenced, put_event}
use nits.Store.Log
use nits.Store.Core.{Git, Ctx, CoreError, append, thread, new_event}
use nits.Store.Consistent.{IsConsistent}
use nits.Store.Consistent.Steps.{KeyOf-get}
use nits.Store.Consistent.Writes.{pair_path}
use nits.Store.Comments.{
  Ulid, defer_thread, resolve_thread, unresolve_thread, may_defer, may_resolve, may_unresolve,
}
use nits.Store.Comments.Rules.{
  Command, deferring, resolving, reopening, Step, defers, resolves, resolves_deferred,
  reopens_deferred, reopens,
}
use nits.Store.Comments.Commands.{run}
use nits.Store.Comments.Sound.{thread_of-get}
use nits.Store.Comments.Operations.{defer_Step, resolve_Step, unresolve_Step}

-- The operation is accepted, and in the store that it returns the thread has this resolution and is
-- else as it was.
abbrev pub Settled :
    {G : Type 0}
    → ℕ
    → ℕ
    → Thread
    → ThreadResolution
    → Result {0, 0} (Unit {0} × Store) (CoreError G)
    → Type 0
Settled r th x a m =
    (s' : Store) × (m ≡ ok (tt, s'))
    × (get (r, th) s'.views.threads ≡ some (record x { resolution = a }))

module _ {G : Type 0} (current_schema : ℕ) (ctx : Ctx) (r th : ℕ) (s : Store)
    (h : IsConsistent s.views) (x : Thread) (q : get (r, th) s.views.threads ≡ some x) where
  found : thread {G = G} r th s ≡ ok x
  unfolding thread threads
  found = rw (thread_of-get r th s.views.threads h.thread_keys, q) refl

  appends :
      (b : EventBody) (a : ThreadResolution)
      → ((e : Event)
          → e.author ≡ ctx.author
          → e.ts ≡ ctx.now
          → apply_body s.views e b ≡ set_resolution s.views e.seq r th a)
      → Settled {G = G} r th x a (append current_schema ctx b s >>= λ z. ok (tt {0}, z.1))
  unfolding append Log.append apply sequenced set_resolution load_thread save_thread
  appends b a sets =
      let event = sequenced (coming_seq s) (new_event ctx b) in
      let y = record x { resolution = a } in
      let t' = save_thread y s.views in
      let loaded : set_resolution s.views event.seq r th a ≡ ok t' = rw q refl in
      let done : apply_body s.views event b ≡ ok t' = sets event refl refl ∙ loaded in
      let (i, l) = KeyOf-get r th x s.views.threads h.thread_keys q in
      let after : Store = record {
        events = put_event (record { schema = current_schema; event = event }) s.events;
        views = t';
        view_seq = some event.seq;
      } in
      (
        after,
        rw done refl,
        ap (λ w. get (r, th) (insert w y s.views.threads)) (pair_path i l)
            ∙ get-insert_self (r, th) y s.views.threads,
      )

  deferred_lem :
      (reason : Text) (url : Option Text)
      → Settled {G = G} r th x
          (deferred reason url ctx.author ctx.now)
          (append current_schema ctx (thread_deferred r th reason url) s >>= λ z. ok (tt {0}, z.1))
  deferred_lem reason url =
      appends (thread_deferred r th reason url) _ (λ e w n. unfold apply_body in rw (w, n) refl)

  resolved_lem :
      Settled {G = G} r th x
        (resolved_by ctx.author ctx.now)
        (append current_schema ctx (thread_resolved r th) s >>= λ z. ok (tt {0}, z.1))
  resolved_lem = appends (thread_resolved r th) _ (λ e w n. unfold apply_body in rw (w, n) refl)

  reopened_lem :
      Settled {G = G} r th x open_thread
        (append current_schema ctx (thread_unresolved r th) s >>= λ z. ok (tt {0}, z.1))
  reopened_lem = appends (thread_unresolved r th) _ (λ e w n. unfold apply_body in refl)

-- A command that defers, resolves or reopens this thread.
pub data Settling (r th : ℕ) : Command → Type 0 where
  asks_defer : (reason : Text) (url : Option Text) → Settling r th (deferring r th reason url)
  asks_resolve : Settling r th (resolving r th)
  asks_reopen : Settling r th (reopening r th)

module _ {G : Type 0} (current_schema : ℕ) (git : Git G) (ulid : Ulid) (hash : List Text → ℕ)
    (from_utf8_lossy : List ℕ → Text) (is_whitespace : ℕ → Bool) (ctx : Ctx) (r th : ℕ) (s : Store)
    (h : IsConsistent s.views) (x : Thread) (q : get (r, th) s.views.threads ≡ some x) where
  abbrev go : Command → Result {0, 0} (Unit {0} × Store) (CoreError G)
  go k = run current_schema git ulid hash from_utf8_lossy is_whitespace ctx k s

  abbrev known : thread {G = G} r th s ≡ ok x
  known = found current_schema ctx r th s h x q

  -- A step is taken.
  pub Step-run :
      {k : Command} {a b : ThreadResolution}
      → Step ctx r th k a b
      → x.resolution ≡ a
      → Settled r th x b (go k)
  unfolding run defer_thread resolve_thread unresolve_thread may_defer may_resolve may_unresolve
  Step-run (defers {reason = reason} {url = url}) e =
      rw (known, e) (deferred_lem current_schema ctx r th s h x q reason url)
  Step-run resolves e = rw (known, e) (resolved_lem current_schema ctx r th s h x q)
  Step-run resolves_deferred e = rw (known, e) (resolved_lem current_schema ctx r th s h x q)
  Step-run reopens_deferred e = rw (known, e) (reopened_lem current_schema ctx r th s h x q)
  Step-run reopens e = rw (known, e) (reopened_lem current_schema ctx r th s h x q)

  -- What is accepted is a step.
  pub accepted-Step :
      {k : Command} (s' : Store)
      → Settling r th k
      → go k ≡ ok (tt, s')
      → (b : ThreadResolution) × Step ctx r th k x.resolution b
  unfolding run defer_thread resolve_thread unresolve_thread
  accepted-Step s' (asks_defer reason url) e =
      elim (Result-cases (may_defer {G = G} x.resolution)) [
        | inl (_, p) ↦ (
          _,
          defer_Step G current_schema ctx r s h {reason = reason} {url = url} th x.resolution p,
        )
        | inr (_, p) ↦ absurd (cc (rw (known, p) at e))
      ]
  accepted-Step s' asks_resolve e = elim (Result-cases (may_resolve {G = G} th x.resolution)) [
    | inl (_, p) ↦ (_, resolve_Step G current_schema ctx r s h th x.resolution p)
    | inr (_, p) ↦ absurd (cc (rw (known, p) at e))
  ]
  accepted-Step s' asks_reopen e = elim (Result-cases (may_unresolve {G = G} th x.resolution)) [
    | inl (_, p) ↦ (_, unresolve_Step G current_schema ctx r s h th x.resolution p)
    | inr (_, p) ↦ absurd (cc (rw (known, p) at e))
  ]
