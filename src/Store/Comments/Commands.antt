-- ===== src/Store/Comments/Commands.antt =====
-- comments.rs: the operations as commands, one after another. A command that fails leaves the store.
use nits.Prelude.{ℕ, List, [], ◌∷◌, Result, ok, err, ◌>>=◌, Bool}
use nits.Protocol.Domain.{Text}
use nits.Store.Log.{Store}
use nits.Store.Core.{Git, Ctx, CoreError}
use nits.Store.Consistent.{IsConsistent}
use nits.Store.Comments.{
  Ulid, IsUlid, add_comment, reply, edit_comment, delete_comment, defer_thread, resolve_thread,
  unresolve_thread,
}
use nits.Store.Comments.Rules.{
  Command, adding, replying, editing, deleting, deferring, resolving, reopening,
}
use nits.Store.Comments.Sound.{Sound}
use nits.Store.Comments.Operations.{
  reply-Sound, edit_comment-Sound, delete_comment-Sound, defer_thread-Sound, resolve_thread-Sound,
  unresolve_thread-Sound,
}
use nits.Store.Comments.Anchors.{add_comment-Sound}

abbrev forget {ℓ} :
    {A : Type ℓ} {G : Type 0}
    → Result (A × Store) (CoreError G)
    → Result (Unit {0} × Store) (CoreError G)
forget r = r >>= λ x. ok (tt, x.1)

forget-Sound :
    {A G : Type 0} (ctx : Ctx) (k : Command) (s : Store)
    (r : Result {0, 0} (A × Store) (CoreError G))
    → Sound ctx k s r
    → Sound ctx k s (forget r)
forget-Sound ctx k s (ok x) h = h
forget-Sound ctx k s (err e) h = h

module _ {G : Type 0} (current_schema : ℕ) (git : Git G) (ulid : Ulid) (hash : List Text → ℕ)
    (from_utf8_lossy : List ℕ → Text) (is_whitespace : ℕ → Bool) where
  unfoldable pub run : Ctx → Command → Store → Result (Unit {0} × Store) (CoreError G)
  run ctx (adding r id kind anchor body context) s = forget (
      add_comment current_schema git ulid hash from_utf8_lossy is_whitespace ctx r id kind anchor
        body context s)
  run ctx (replying r th id kind body) s = forget (reply current_schema ctx r th id kind body s)
  run ctx (editing r id body) s = edit_comment current_schema ctx r id body s
  run ctx (deleting r id) s = delete_comment current_schema ctx r id s
  run ctx (deferring r th reason url) s = defer_thread current_schema ctx r th reason url s
  run ctx (resolving r th) s = resolve_thread current_schema ctx r th s
  run ctx (reopening r th) s = unresolve_thread current_schema ctx r th s

  -- The store after all commands, and the errors of those that failed.
  unfoldable pub run_all : List (Ctx × Command) → Store → Store × List (CoreError G)
  unfolding run
  run_all [] s = (s, [])
  run_all (c ∷ cs) s = elim (run c.0 c.1 s) [
    | ok x ↦ run_all cs x.1
    | err e ↦ let rest = run_all cs s in (rest.0, e ∷ rest.1)
  ]

module _ {G : Type 0} (current_schema : ℕ) (git : Git G) (ulid : Ulid) (hash : List Text → ℕ)
    (from_utf8_lossy : List ℕ → Text) (is_whitespace : ℕ → Bool) (u : IsUlid ulid) where
  pub run-Sound :
      (ctx : Ctx) (c : Command) (s : Store)
      → IsConsistent s.views
      → Sound ctx c s (run current_schema git ulid hash from_utf8_lossy is_whitespace ctx c s)
  unfolding run
  run-Sound ctx (adding r id kind anchor body context) s h = forget-Sound ctx _ s _ (
      add_comment-Sound G git hash from_utf8_lossy is_whitespace current_schema ulid ctx r id kind
        anchor body context s u h)
  run-Sound ctx (replying r th id kind body) s h =
      forget-Sound ctx _ s _ (reply-Sound G current_schema ctx r s h th id kind body)
  run-Sound ctx (editing r id body) s h = edit_comment-Sound G current_schema ctx r s h id body
  run-Sound ctx (deleting r id) s h = delete_comment-Sound G current_schema ctx r s h id
  run-Sound ctx (deferring r th reason url) s h =
      defer_thread-Sound G current_schema ctx r s h th reason url
  run-Sound ctx (resolving r th) s h = resolve_thread-Sound G current_schema ctx r s h th
  run-Sound ctx (reopening r th) s h = unresolve_thread-Sound G current_schema ctx r s h th
