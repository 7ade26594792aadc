-- ===== src/Store/Reanchoring/Sound.antt =====
-- comments.rs: the driver of reanchoring moves anchors and nothing else.
use mathlib.Core.Path.{subst}
use nits.Prelude.{
  ℕ, ◌≡◌, ◌≢◌, ◌⊎◌, refl, sym, ap, ◌∙◌, Bool, false, Option, none, some, List, [], ◌∷◌, ◌++◌, All,
  Result, ok, arith, inl, inr, nat_eq, pair_eq, Option-cases, Result-cases, Bool-cases, ok-ok,
}
use nits.Prelude.Maps.{get}
use nits.Protocol.Domain.{
  BlobOid, Text, RepoId, Side, Anchor, CommentState, live, outdated, deleted,
}
use nits.Protocol.Changes.{TreeOid, ResolvedTarget}
use nits.Review.Anchor.{Hunk, PathFate, Reanchor, unchanged, moved, effective_anchor}
use nits.Review.Reanchor.{reanchor}
use nits.Store.Events.{Comment}
use nits.Store.Views.{Tables, is_deleted}
use nits.Store.Log.{Store, comments}
use nits.Store.Core.{Git, Ctx, CoreError, review_repo, from_git}
use nits.Store.Consistent.{IsConsistent}
use nits.Store.Comments.{is_browse}
use nits.Store.Comments.Sound.{Clean}
use nits.Store.Comments.Anchors.{>>=-Clean, from_git-Clean, review_repo-Clean}
use nits.Review.Reanchor.Return.{step-ne-deleted}
use nits.Review.Reanchor.Outcomes.{settle}
use nits.Store.Reanchoring.{
  side_key, path_fates, Trees, Cache, outcome, outcome_at, reanchor_each, reanchor_review, place_of,
  target_of, cached_fates,
}
use nits.Store.Reanchoring.Moves.{
  CommentsMoved, Listed, of_review-Listed, move_comment-CommentsMoved, appended,
}

unchanged_moved : {a : Anchor} {s : CommentState} → unchanged ≡ moved a s → ⊥
unchanged_moved e = absurd (ground arith)

Reanchor-cases :
    (o : Reanchor) → (o ≡ unchanged) ⊎ ((a : Anchor) × (s : CommentState) × (o ≡ moved a s))
Reanchor-cases unchanged = inl refl
Reanchor-cases (moved a s) = inr (a, s, refl)

not_deleted : (s : CommentState) → s ≢ deleted → is_deleted s ≡ false
not_deleted live n = refl
not_deleted (outdated a) n = refl
not_deleted deleted n = absurd (n refl)

-- A comment that moves is deleted neither before nor after.
reanchor_moved :
    (diff : List Text → List Text → List Hunk) (hash : List Text → ℕ)
    (from_utf8_lossy : List ℕ → Text) (is_whitespace : ℕ → Bool)
    (old_blob new_blob : BlobOid → Option (List ℕ)) (a a' : Anchor) (s s' : CommentState)
    (fate : PathFate)
    → reanchor diff hash from_utf8_lossy is_whitespace old_blob new_blob a s fate ≡ moved a' s'
    → (is_deleted s ≡ false) × (is_deleted s' ≡ false)
reanchor_moved diff hash from_utf8_lossy is_whitespace old_blob new_blob a a' s s' fate e =
    let n : s ≢ deleted = λ d.
      let stays : reanchor diff hash from_utf8_lossy is_whitespace old_blob new_blob a s fate
          ≡ unchanged =
        unfold reanchor in rw d refl in
      unchanged_moved (sym stays ∙ e) in
    let n' : s' ≢ deleted =
      subst (λ o. (settle o (a, s)).1 ≢ deleted) e
        (step-ne-deleted diff hash from_utf8_lossy is_whitespace old_blob new_blob a s fate n) in
    (not_deleted s n, not_deleted s' n')

-- The errors are those of validation and of git, the threads stay, and of the comments only
-- anchors and states move.
abbrev pub Reanchored :
    {G : Type 0} → ℕ → Tables → Result {0, 0} (List ℕ) (CoreError G) × Store → Type 0
Reanchored r t z =
    Clean z.0
    × IsConsistent z.1.views
    × (z.1.views.threads ≡ t.threads)
    × CommentsMoved r t z.1.views

module _ {G : Type 0} (current_schema : ℕ) (git : Git G) (trees : Trees G)
    (diff : List Text → List Text → List Hunk) (hash : List Text → ℕ)
    (from_utf8_lossy : List ℕ → Text) (is_whitespace : ℕ → Bool) where
  path_fates-Clean :
      (handle : ℕ) (old : Option TreeOid) (new : TreeOid) → Clean (path_fates trees handle old new)
  unfolding path_fates
  path_fates-Clean handle none new =
      >>=-Clean (from_git (trees.entries handle new)) _ (from_git-Clean _) (λ es. tt)
  path_fates-Clean handle (some o) new =
      >>=-Clean (from_git (trees.entries handle new)) _ (from_git-Clean _) (λ es.
        >>=-Clean (from_git (trees.changed_files handle o new)) _ (from_git-Clean _) (λ cs. tt))

  cached_fates-Clean :
      (handle : ℕ) (repo : RepoId) (side : Side) (old : Option ResolvedTarget)
      (new : ResolvedTarget) (m : Cache)
      → Clean (cached_fates trees handle repo side old new m)
  unfolding cached_fates
  cached_fates-Clean handle repo side old new m =
      elim (Option-cases (get (repo, side_key side) m)) [
        | inr (fates, q) ↦ rw (cached_fates, q) tt
        | inl q ↦
            rw (cached_fates, q)
              (>>=-Clean (path_fates trees handle _ _) _ (path_fates-Clean handle _ _)
                (λ fates. tt))
      ]

  abbrev tried :
      ℕ
      → List ResolvedTarget
      → List ResolvedTarget
      → Store
      → Cache
      → Comment
      → Result (Cache × Reanchor) (CoreError G)
  tried = outcome current_schema git trees diff hash from_utf8_lossy is_whitespace

  outcome_at-Clean :
      (r : ℕ) (old : List ResolvedTarget) (s : Store) (m : Cache) (c : Comment)
      (at : RepoId × Text × Side) (new : ResolvedTarget)
      → Clean (
          outcome_at current_schema git trees diff hash from_utf8_lossy is_whitespace r old s m c at
            new)
  unfolding outcome_at
  outcome_at-Clean r old s m c at new =
      >>=-Clean (review_repo git r at.0 s) _ (review_repo-Clean G git r at.0 s) (λ handle.
        >>=-Clean (cached_fates trees handle at.0 at.2 (target_of at.0 old) new m) _
          (cached_fates-Clean handle at.0 at.2 (target_of at.0 old) new m) (λ x. tt))

  outcome-Clean :
      (r : ℕ) (old new : List ResolvedTarget) (s : Store) (m : Cache) (c : Comment)
      → Clean (tried r old new s m c)
  unfolding outcome
  outcome-Clean r old new s m c = elim (Bool-cases (is_browse c.context)) [
    | inl b ↦ rw b tt
    | inr b ↦ elim (Option-cases (place_of (effective_anchor c.anchor c.state))) [
      | inl p ↦ rw (b, p) tt
      | inr (at, p) ↦ elim (Option-cases (target_of at.0 new)) [
        | inl q ↦ rw (b, p, q) tt
        | inr (t, q) ↦ rw (b, p, q) (outcome_at-Clean r old s m c at t)
      ]
    ]
  ]

  -- A comment that moves is not of a browsed revision, and is deleted neither before nor after.
  outcome_at_moved :
      (r : ℕ) (old : List ResolvedTarget) (s : Store) (m m' : Cache) (c : Comment)
      (at : RepoId × Text × Side) (new : ResolvedTarget) (a : Anchor) (st : CommentState)
      → outcome_at current_schema git trees diff hash from_utf8_lossy is_whitespace r old s m c at
          new
        ≡ ok (m', moved a st)
      → (is_deleted c.state ≡ false) × (is_deleted st ≡ false)
  unfolding outcome_at
  outcome_at_moved r old s m m' c at new a st e = elim (Result-cases (review_repo git r at.0 s)) [
    | inr (x, p) ↦ absurd (cc (rw (outcome_at, p) at e))
    | inl (handle, p) ↦
        elim (Result-cases (cached_fates trees handle at.0 at.2 (target_of at.0 old) new m)) [
          | inr (x, q) ↦ absurd (cc (rw (outcome_at, p, q) at e))
          | inl (x, q) ↦
              let made = ok-ok (rw (outcome_at, p, q) at e) in
              reanchor_moved diff hash from_utf8_lossy is_whitespace _ _ c.anchor a c.state st _
                (ap (λ (z : Cache × Reanchor). z.1) made)
        ]
  ]

  outcome_moved :
      (r : ℕ) (old new : List ResolvedTarget) (s : Store) (m m' : Cache) (c : Comment) (a : Anchor)
      (st : CommentState)
      → tried r old new s m c ≡ ok (m', moved a st)
      → (is_browse c.context ≡ false) × (is_deleted c.state ≡ false) × (is_deleted st ≡ false)
  unfolding outcome
  outcome_moved r old new s m m' c a st e = elim (Bool-cases (is_browse c.context)) [
    | inl b ↦ absurd (ground (arith, rw (outcome, b) at e))
    | inr b ↦ elim (Option-cases (place_of (effective_anchor c.anchor c.state))) [
      | inl p ↦ absurd (ground (arith, rw (outcome, b, p) at e))
      | inr (at, p) ↦ elim (Option-cases (target_of at.0 new)) [
        | inl q ↦ absurd (ground (arith, rw (outcome, b, p, q) at e))
        | inr (t, q) ↦
            let (d, d') = outcome_at_moved r old s m m' c at t a st (rw (outcome, b, p, q) at e) in
            (b, d, d')
      ]
    ]
  ]

  each-Reanchored :
      (ctx : Ctx) (r : ℕ) (old new : List ResolvedTarget) (t : Tables) (cs : List Comment)
      (m : Cache) (ids : List ℕ) (u : Store)
      → IsConsistent u.views
      → u.views.threads ≡ t.threads
      → CommentsMoved r t u.views
      → All (Listed r t) cs
      → Reanchored r t (
          reanchor_each current_schema git trees diff hash from_utf8_lossy is_whitespace ctx r old
            new cs m ids u)
  unfolding reanchor_each
  each-Reanchored ctx r old new t [] m ids u h th k listed = (tt, h, th, k)
  each-Reanchored ctx r old new t (c ∷ cs) m ids u h th k listed =
      elim (Result-cases (tried r old new u m c)) [
        | inr (e, p) ↦
            rw (reanchor_each, p) ((subst Clean p (outcome-Clean r old new u m c), h, th, k))
        | inl (x, p) ↦ elim (Reanchor-cases x.1) [
          | inl q ↦
              rw (reanchor_each, p, q)
                (each-Reanchored ctx r old new t cs x.0 ids u h th k listed.1)
          | inr (a, st, q) ↦
              let made : tried r old new u m c ≡ ok (x.0, moved a st) =
                p ∙ ap (λ o. ok (x.0, o)) q in
              let (b, d, d') = outcome_moved r old new u m x.0 c a st made in
              let (y, g, _, _, _) = k r c.id c listed.0 in
              let (z, done, h', cm, ts) = appended G current_schema ctx r c.id a st y u h g in
              let k' =
                move_comment-CommentsMoved r c.id a st c y t z.1.views u.views listed.0 b d d' k g
                  cm in
              rw (reanchor_each, p, q, done)
                (each-Reanchored ctx r old new t cs x.0 (ids ++ c.id ∷ []) z.1 h' (ts ∙ th) k'
                  listed.1)
        ]
      ]

  -- Reanchoring a review whose targets moved, from a store whose views are consistent: no event is
  -- refused by the views, so that an error is one of validation or of git; whether it fails or
  -- not, the views stay consistent, no thread changes, and every comment is there with all but its
  -- anchor and state, deleted exactly if it was. Deleted comments, those on a browsed revision and
  -- those of other reviews stay whole.
  pub reanchor_review-Reanchored :
      (ctx : Ctx) (r : ℕ) (old new : List ResolvedTarget) (s : Store)
      → IsConsistent s.views
      → Reanchored r s.views (
          reanchor_review current_schema git trees diff hash from_utf8_lossy is_whitespace ctx r old
            new s)
  unfolding reanchor_review comments
  reanchor_review-Reanchored ctx r old new s h =
      each-Reanchored ctx r old new s.views (comments r s) [] [] s h refl
        (λ q d x l. (x, l, refl, refl, λ _. refl))
        (of_review-Listed r s.views s.views.comments (λ j w l. l) h.comment_map
          (λ q d x l. (h.comment_keys q d x l).1))
