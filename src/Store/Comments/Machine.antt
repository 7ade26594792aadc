-- ===== src/Store/Comments/Machine.antt =====
-- comments.rs: the state machine of threads, over one command and over any sequence of commands by
-- any callers.
use mathlib.Core.Path.{subst}
use nits.Prelude.{
  ℕ, ◌≡◌, ◌↔◌, ◌≢◌, refl, sym, ap, ◌∙◌, Bool, some, List, [], ◌∷◌, Result, ok, arith, inl, inr,
  nat_eq, pair_eq, Result-cases, ok-ok, some_inj,
}
use nits.Prelude.Maps.{get}
use nits.Protocol.Domain.{Text}
use nits.Store.Events.{Thread, ThreadResolution}
use nits.Store.Log.{Store}
use nits.Store.Core.{Git, Ctx, CoreError}
use nits.Store.Consistent.{IsConsistent}
use nits.Store.Comments.{Ulid, IsUlid}
use nits.Store.Comments.Rules.{
  Command, Step, defers, resolves, resolves_deferred, reopens_deferred, reopens, Trace, ends, takes,
  passes,
}
use nits.Store.Comments.Sound.{Sound}
use nits.Store.Comments.Changes.{Allowed-Change}
use nits.Store.Comments.Effects.{Change-ThreadAfter}
use nits.Store.Comments.Commands.{run, run_all, run-Sound}
use nits.Store.Comments.Settles.{Settled, Settling, Step-run, accepted-Step}

Step-moves :
    {ctx : Ctx} {r th : ℕ} {k : Command} {a b : ThreadResolution} → Step ctx r th k a b → a ≢ b
Step-moves defers e = absurd (ground arith)
Step-moves resolves e = absurd (ground arith)
Step-moves resolves_deferred e = absurd (ground arith)
Step-moves reopens_deferred e = absurd (ground arith)
Step-moves reopens e = absurd (ground arith)

-- Where a thread is settled, another look at the same result finds it settled the same way.
Settled-once :
    {G : Type 0} (r th : ℕ) (x y : Thread) (a : ThreadResolution) (s' : Store)
    (m : Result {0, 0} (Unit {0} × Store) (CoreError G))
    → Settled r th x a m
    → m ≡ ok (tt, s')
    → get (r, th) s'.views.threads ≡ some y
    → y.resolution ≡ a
Settled-once r th x y a s' m (s'', e, g) e' g' =
    let at : (tt {0}, s'') ≡ (tt {0}, s') = ok-ok (sym e ∙ e') in
    let there : get (r, th) s'.views.threads ≡ some (record x { resolution = a }) =
      ap (λ (z : Unit {0} × Store). get (r, th) z.1.views.threads) (sym at) ∙ g in
    ap (λ (w : Thread). w.resolution) (some_inj (sym g' ∙ there))

module _ {G : Type 0} (current_schema : ℕ) (git : Git G) (ulid : Ulid) (hash : List Text → ℕ)
    (from_utf8_lossy : List ℕ → Text) (is_whitespace : ℕ → Bool) where
  abbrev once : Ctx → Command → Store → Result {0, 0} (Unit {0} × Store) (CoreError G)
  once = run current_schema git ulid hash from_utf8_lossy is_whitespace

  -- From a store whose views are consistent, a command that defers, resolves or reopens a thread
  -- that is there is accepted exactly where the machine has a step for it, and the thread then has
  -- the resolution that the step leads to, by this caller at this time, and is else unchanged: an
  -- open thread can be deferred or resolved, a deferred one resolved or reopened, a resolved one
  -- reopened, and every other request is refused.
  pub run-Step :
      (ctx : Ctx) (k : Command) (r th : ℕ) (s : Store) (x : Thread) (b : ThreadResolution)
      → IsConsistent s.views
      → get (r, th) s.views.threads ≡ some x
      → Settling r th k
      → Step ctx r th k x.resolution b ↔ Settled r th x b (once ctx k s)
  run-Step ctx k r th s x b h q asks = (
    λ st.
        Step-run current_schema git ulid hash from_utf8_lossy is_whitespace ctx r th s h x q st
          refl,
    λ settled.
        let (s', e, g) = settled in
        let (b', st) =
          accepted-Step current_schema git ulid hash from_utf8_lossy is_whitespace ctx r th s h x q
            s' asks e in
        let made =
          Step-run current_schema git ulid hash from_utf8_lossy is_whitespace ctx r th s h x q st
            refl in
        let same : b ≡ b' =
          Settled-once r th x (record x { resolution = b }) b' s' (once ctx k s) made e g in
        subst (λ w. Step ctx r th k x.resolution w) (sym same) st,
  )

  module _ (u : IsUlid ulid) where
    -- Threads follow the machine over whole runs: from a store whose views are consistent, after
    -- any sequence of the seven commands, by any callers and on any comments and threads, a thread
    -- that was there is there with its root, and its resolution is the one that the machine gives:
    -- each command took its step on this thread if the machine has one, and left the resolution
    -- alone if not. An id must be made of its time and its random bits.
    pub run_all-Trace :
        (cs : List (Ctx × Command)) (s : Store) (r th : ℕ) (x : Thread)
        → IsConsistent s.views
        → get (r, th) s.views.threads ≡ some x
        → let s' = (run_all current_schema git ulid hash from_utf8_lossy is_whitespace cs s).0 in
          (y : Thread) × (get (r, th) s'.views.threads ≡ some y)
          × Trace r th cs x.resolution y.resolution
          × (y.root ≡ x.root)
    unfolding run_all
    run_all-Trace [] s r th x h q = (x, q, ends, refl)
    run_all-Trace (c ∷ cs) s r th x h q =
        let sound =
          run-Sound current_schema git ulid hash from_utf8_lossy is_whitespace u c.0 c.1 s h in
        let taken = λ (b : ThreadResolution) (st : Step c.0 r th c.1 x.resolution b).
          Step-run current_schema git ulid hash from_utf8_lossy is_whitespace c.0 r th s h x q st
            refl in
        elim (Result-cases (once c.0 c.1 s)) [
          | inr (e, p) ↦
              let (y, g, tr, o) = run_all-Trace cs s r th x h q in
              rw (p, run_all) ((y, g, passes (λ b st. cc (p, (taken b st).1)) tr, o))
          | inl (z, p) ↦
              let (h', (b, e, w, who, when, done)) = subst (λ m. Sound c.0 c.1 s m) p sound in
              let change = Allowed-Change c.0 c.1 s.views z.1.views h e b w who when done in
              let (y, g, root, how) =
                Change-ThreadAfter c.0 c.1 s.views z.1.views r th x q change in
              let (y', g', tr, o) = run_all-Trace cs z.1 r th y h' g in
              rw (p, run_all)
                (elim how [
                  | inr st ↦ (y', g', takes st tr, o ∙ root)
                  | inl same ↦ (
                    y',
                    g',
                    passes
                        (λ b' st. Step-moves st (
                          sym same
                          ∙ Settled-once r th x y b' z.1 (once c.0 c.1 s) (taken b' st) p g))
                        (subst (λ a. Trace r th cs a y'.resolution) same tr),
                    o ∙ root,
                  )
                ])
        ]
