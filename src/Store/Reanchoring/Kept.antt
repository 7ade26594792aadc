-- ===== src/Store/Reanchoring/Kept.antt =====
-- comments.rs: what commands of clients and reanchorings, in any order, leave of a comment.
use mathlib.Core.Path.{subst}
use nits.Prelude.{
  ℕ, ◌≡◌, ◌≢◌, ◌⊎◌, refl, sym, ap, ◌∙◌, Bool, true, some, List, [], ◌∷◌, inl, inr, nat_eq, pair_eq,
  Result-cases,
}
use nits.Prelude.Maps.{get}
use nits.Protocol.Domain.{Text}
use nits.Review.Anchor.{Hunk}
use nits.Store.Events.{Comment}
use nits.Store.Views.{is_deleted}
use nits.Store.Log.{Store}
use nits.Store.Core.{Git, Ctx}
use nits.Store.Consistent.{IsConsistent}
use nits.Store.Comments.{Ulid, IsUlid}
use nits.Store.Comments.Rules.{Command}
use nits.Store.Comments.Sound.{Sound}
use nits.Store.Comments.Changes.{Allowed-Change}
use nits.Store.Comments.Effects.{Change-CommentAfter}
use nits.Store.Comments.Commands.{run, run-Sound}
use nits.Store.Reanchoring.{Trees}
use nits.Store.Reanchoring.Sound.{reanchor_review-Reanchored}
use nits.Store.Reanchoring.Requests.{
  Request, commands, reanchors, Others, Stays, Left, SameMaker, OnlyMoved-SameMaker,
  SameMaker-trans, OnlyMoved-trans, unless_own, Stays-now, Stays-later, serve, serve_all,
}

module _ {G : Type 0} (current_schema : ℕ) (git : Git G) (ulid : Ulid) (trees : Trees G)
    (diff : List Text → List Text → List Hunk) (hash : List Text → ℕ)
    (from_utf8_lossy : List ℕ → Text) (is_whitespace : ℕ → Bool) (u : IsUlid ulid) where
  abbrev reply_to : Ctx → Request → Store → Store
  reply_to = serve current_schema git ulid trees diff hash from_utf8_lossy is_whitespace

  abbrev after : List (Ctx × Request) → Store → Store
  after = serve_all current_schema git ulid trees diff hash from_utf8_lossy is_whitespace

  commanded :
      (ctx : Ctx) (k : Command) (s : Store) (r c : ℕ) (x : Comment)
      → IsConsistent s.views
      → get (r, c) s.views.comments ≡ some x
      → (ctx.author ≢ x.author) ⊎ (is_deleted x.state ≡ true)
      → let s' = reply_to ctx (commands k) s in
        IsConsistent s'.views × (get (r, c) s'.views.comments ≡ some x)
  unfolding serve
  commanded ctx k s r c x h q others =
      let sound =
        run-Sound current_schema git ulid hash from_utf8_lossy is_whitespace u ctx k s h in
      elim (Result-cases (run current_schema git ulid hash from_utf8_lossy is_whitespace ctx k s)) [
        | inr (e, p) ↦ rw (serve, p) ((h, q))
        | inl (z, p) ↦
            let (h', (b, e, w, who, when, done)) = subst (λ m. Sound ctx k s m) p sound in
            let change = Allowed-Change ctx k s.views z.1.views h e b w who when done in
            let (y, g, _, how) = Change-CommentAfter ctx k s.views z.1.views r c x q change in
            rw (serve, p) ((h', g ∙ ap (λ v. some v) (unless_own ctx x y others how)))
      ]

  -- One request, of somebody else or on a deleted comment.
  served :
      (d : Ctx × Request) (s : Store) (r c : ℕ) (x : Comment)
      → IsConsistent s.views
      → get (r, c) s.views.comments ≡ some x
      → Others x.author (d ∷ []) ⊎ (is_deleted x.state ≡ true)
      → let s' = reply_to d.0 d.1 s in
        IsConsistent s'.views × Left x s'.views r c (Stays r x (d ∷ []))
  unfolding serve
  served (ctx, commands k) s r c x h q others =
      let foreign : (ctx.author ≢ x.author) ⊎ (is_deleted x.state ≡ true) = elim others [
        | inl o ↦ inl o.0
        | inr gone ↦ inr gone
      ] in
      let (h', g) = commanded ctx k s r c x h q foreign in (h', (x, g, refl, refl, λ _. refl))
  served (ctx, reanchors t old new) s r c x h q others =
      let (_, h', _, k) =
        reanchor_review-Reanchored current_schema git trees diff hash from_utf8_lossy is_whitespace
          ctx t old new s h in
      let (y, g, o, del, fixed) = k r c x q in
      (h', (y, g, o, del, λ w. fixed (elim w [ inl n ↦ inl n.0 | inr z ↦ inr z ])))

  -- Only its author edits or deletes a comment, and nobody changes a deleted one: take any run of commands on
  -- comments and threads and of reanchorings, in any order and by any callers, in which no
  -- command is from the author of the comment, or let the comment be deleted. Then all but its
  -- anchor and state stays as it was, and it is deleted exactly if it was; and it stays whole if
  -- the run does not reanchor its review, if it was made on a browsed revision, or if it is
  -- deleted. The views must be consistent, and an id made of its time and its random bits.
  pub serve_all-Left :
      (ds : List (Ctx × Request)) (s : Store) (r c : ℕ) (x : Comment)
      → IsConsistent s.views
      → get (r, c) s.views.comments ≡ some x
      → Others x.author ds ⊎ (is_deleted x.state ≡ true)
      → Left x (after ds s).views r c (Stays r x ds)
  unfolding serve_all
  serve_all-Left [] s r c x h q others = (x, q, refl, refl, λ _. refl)
  serve_all-Left (d ∷ ds) s r c x h q others =
      let first : Others x.author (d ∷ []) ⊎ (is_deleted x.state ≡ true) = elim others [
        | inl o ↦ inl (o.0, tt)
        | inr gone ↦ inr gone
      ] in
      let (h', (y, g, o, del, stay)) = served d s r c x h q first in
      let who : y.author ≡ x.author = ap (λ (v : Comment). v.author) o in
      let later : Others y.author ds ⊎ (is_deleted y.state ≡ true) = elim others [
        | inl os ↦ inl (subst (λ a. Others a ds) (sym who) os.1)
        | inr gone ↦ inr (del ∙ gone)
      ] in
      let (z, g', o', del', stay') = serve_all-Left ds (reply_to d.0 d.1 s) r c y h' g later in
      (
        z,
        g',
        OnlyMoved-trans x y z o o',
        del' ∙ del,
        λ w.
            stay' (Stays-later r x y d ds (ap (λ (v : Comment). v.context) o) del w)
            ∙ stay (Stays-now r x d ds w),
      )

  served_made :
      (d : Ctx × Request) (s : Store) (r c : ℕ) (x : Comment)
      → IsConsistent s.views
      → get (r, c) s.views.comments ≡ some x
      → let s' = reply_to d.0 d.1 s in
        IsConsistent s'.views
        × ((y : Comment) × (get (r, c) s'.views.comments ≡ some y) × SameMaker x y)
  unfolding serve
  served_made (ctx, commands k) s r c x h q =
      let sound =
        run-Sound current_schema git ulid hash from_utf8_lossy is_whitespace u ctx k s h in
      elim (Result-cases (run current_schema git ulid hash from_utf8_lossy is_whitespace ctx k s)) [
        | inr (e, p) ↦ rw (serve, p) ((h, (x, q, (refl, refl, refl, refl, refl))))
        | inl (z, p) ↦
            let (h', (b, e, w, who, when, done)) = subst (λ m. Sound ctx k s m) p sound in
            let change = Allowed-Change ctx k s.views z.1.views h e b w who when done in
            let (y, g, o, _) = Change-CommentAfter ctx k s.views z.1.views r c x q change in
            rw (serve, p) ((h', (y, g, (o.0, o.1, o.2, o.3, o.5))))
      ]
  served_made (ctx, reanchors t old new) s r c x h q =
      let (_, h', _, k) =
        reanchor_review-Reanchored current_schema git trees diff hash from_utf8_lossy is_whitespace
          ctx t old new s h in
      let (y, g, o, _, _) = k r c x q in (h', (y, g, OnlyMoved-SameMaker x y o))

  -- Whoever sends commands on comments and threads and whatever is reanchored, in any order: a
  -- comment that was there is there, with its author, its thread, its kind, its context and the
  -- time it was made. The views must be consistent, and an id made of its time and random bits.
  pub serve_all-SameMaker :
      (ds : List (Ctx × Request)) (s : Store) (r c : ℕ) (x : Comment)
      → IsConsistent s.views
      → get (r, c) s.views.comments ≡ some x
      → (y : Comment) × (get (r, c) (after ds s).views.comments ≡ some y) × SameMaker x y
  unfolding serve_all
  serve_all-SameMaker [] s r c x h q = (x, q, (refl, refl, refl, refl, refl))
  serve_all-SameMaker (d ∷ ds) s r c x h q =
      let (h', (y, g, o)) = served_made d s r c x h q in
      let (z, g', o') = serve_all-SameMaker ds (reply_to d.0 d.1 s) r c y h' g in
      (z, g', SameMaker-trans x y z o o')
