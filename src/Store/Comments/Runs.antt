-- ===== src/Store/Comments/Runs.antt =====
-- comments.rs: any sequence of comment and thread operations, by any callers.
use mathlib.Core.Path.{subst}
use nits.Prelude.{ℕ, List, [], ◌∷◌, inl, inr, Bool, nat_eq, pair_eq, Result-cases}
use nits.Protocol.Domain.{Text}
use nits.Store.Log.{Store}
use nits.Store.Core.{Git, Ctx, CoreError, store_error}
use nits.Store.Consistent.{IsConsistent}
use nits.Store.Comments.{Ulid, IsUlid}
use nits.Store.Comments.Rules.{Command}
use nits.Store.Comments.Sound.{Sound}
use nits.Store.Comments.Commands.{run, run_all, run-Sound}

-- The errors of a run are none of the store's.
abbrev pub NoneOfStore : {G : Type 0} → List (CoreError G) → Type 0
NoneOfStore [] = Unit
NoneOfStore (e ∷ es) = (elim e [ store_error _ ↦ ⊥ | _ ↦ Unit ]) × NoneOfStore es

module _ {G : Type 0} (current_schema : ℕ) (git : Git G) (ulid : Ulid) (hash : List Text → ℕ)
    (from_utf8_lossy : List ℕ → Text) (is_whitespace : ℕ → Bool) (u : IsUlid ulid) where
  abbrev go : List (Ctx × Command) → Store → Store × List (CoreError G)
  go = run_all current_schema git ulid hash from_utf8_lossy is_whitespace

  -- Validation comes before the append: from a store whose views are consistent, whatever commands
  -- whatever callers send, no event is refused by the views, so every error is one of validation
  -- or of git; and the views stay consistent: every comment is in its thread, every thread has its
  -- root and replies and belongs to a review. An id must be made of its time and its random bits.
  pub run_all-Sound :
      (cs : List (Ctx × Command)) (s : Store)
      → IsConsistent s.views
      → IsConsistent (go cs s).0.views × NoneOfStore (go cs s).1
  unfolding run_all
  run_all-Sound [] s h = (h, tt)
  run_all-Sound (c ∷ cs) s h =
      let sound =
        run-Sound current_schema git ulid hash from_utf8_lossy is_whitespace u c.0 c.1 s h in
      elim (Result-cases
        (run current_schema git ulid hash from_utf8_lossy is_whitespace c.0 c.1 s)) [
          | inl (x, q) ↦
              let (h', _) = subst (λ z. Sound c.0 c.1 s z) q sound in
              rw (q, run_all) (run_all-Sound cs x.1 h')
          | inr (e, q) ↦
              let rest = run_all-Sound cs s h in
              rw (q, run_all) (rest.0, (subst (λ z. Sound c.0 c.1 s z) q sound, rest.1))
        ]
