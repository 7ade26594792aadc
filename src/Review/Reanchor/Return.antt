-- ===== src/Review/Reanchor/Return.antt =====
-- anchor.rs: an outdated comment is tried from its last good anchor each time, so that it comes
-- back to exactly where it was once its blob is there again.
use mathlib.Core.Path.{subst}
use nits.Prelude.{
  ℕ, Bool, Option, List, [], ◌∷◌, ◌≡◌, ◌≢◌, refl, sym, ◌∙◌, inl, inr, arith, ==_refl, same_refl,
}
use nits.Protocol.Lines.{LineRange}
use nits.Protocol.Domain.{
  Text, RepoId, BlobOid, Side, Anchor, review, file, lines, CommentState, live, outdated, deleted,
  Text-discrete,
}
use nits.Review.Anchor.{Hunk, PathFate, present, gone, effective_anchor}
use nits.Review.Reanchor.{reanchor, anchor_path}
use nits.Review.Reanchor.Outcomes.{run, effective-run}

module _ (diff : List Text → List Text → List Hunk) (hash : List Text → ℕ)
    (from_utf8_lossy : List ℕ → Text) (is_whitespace : ℕ → Bool)
    (old_blob new_blob : BlobOid → Option (List ℕ)) where
  abbrev step : Anchor × CommentState → PathFate → Anchor × CommentState
  step = run diff hash from_utf8_lossy is_whitespace old_blob new_blob

  -- The comment after its path met these fates, one revision after another.
  abbrev pub run_all : Anchor × CommentState → List PathFate → Anchor × CommentState
  run_all c [] = c
  run_all c (f ∷ fs) = run_all (step c f) fs

  -- At none of them the comment is live.
  abbrev pub IsAway : Anchor × CommentState → List PathFate → Type 0
  IsAway c [] = Unit
  IsAway c (f ∷ fs) = ((step c f).1 ≢ live) × IsAway (step c f) fs

  pub step-ne-deleted :
      (a : Anchor) (s : CommentState) (f : PathFate) → s ≢ deleted → (step (a, s) f).1 ≢ deleted
  unfolding reanchor
  step-ne-deleted a deleted f ne = absurd (ne refl)
  step-ne-deleted review live f ne = ground arith
  step-ne-deleted (file r p b) live gone ne = ground arith
  step-ne-deleted (file r p b) live (present p' b') ne = ground arith
  step-ne-deleted (lines r p sd b l h) live gone ne = ground arith
  step-ne-deleted (lines r p sd b l h) live (present p' b') ne = ground arith
  step-ne-deleted a (outdated review) f ne = ground arith
  step-ne-deleted a (outdated (file r p b)) gone ne = ground arith
  step-ne-deleted a (outdated (file r p b)) (present p' b') ne = ground arith
  step-ne-deleted a (outdated (lines r p sd b l h)) gone ne = ground arith
  step-ne-deleted a (outdated (lines r p sd b l h)) (present p' b') ne = ground arith

  effective-run_all :
      (c : Anchor × CommentState) (fs : List PathFate)
      → IsAway c fs
      → effective_anchor (run_all c fs).0 (run_all c fs).1 ≡ effective_anchor c.0 c.1
  effective-run_all c [] away = refl
  effective-run_all c (f ∷ fs) away =
      elim (effective-run diff hash from_utf8_lossy is_whitespace old_blob new_blob c.0 c.1 f) [
        | inl alive ↦ absurd (away.0 alive)
        | inr kept ↦ effective-run_all (step c f) fs away.1 ∙ kept
      ]

  run_all-ne-deleted :
      (c : Anchor × CommentState) (fs : List PathFate) → c.1 ≢ deleted → (run_all c fs).1 ≢ deleted
  run_all-ne-deleted c [] ne = ne
  run_all-ne-deleted c (f ∷ fs) ne = run_all-ne-deleted (step c f) fs (step-ne-deleted c.0 c.1 f ne)

  module _ (repo : RepoId) (p : Text) (side : Side) (b : BlobOid) (r : LineRange) (h : ℕ) where
    abbrev home : Anchor
    home = lines repo p side b r h

    step_home :
        (a : Anchor) (s : CommentState)
        → s ≢ deleted
        → effective_anchor a s ≡ home
        → step (a, s) (present p b) ≡ (home, live)
    unfolding reanchor anchor_path
    step_home a deleted ne e = absurd (ne refl)
    step_home a live ne e =
        subst (λ x. step (x, live) (present p b) ≡ (home, live)) (sym e)
          (ground (arith, ==_refl b, same_refl Text-discrete p))
    step_home a (outdated g) ne e =
        subst (λ x. step (a, outdated x) (present p b) ≡ (home, live)) (sym e)
          (ground (arith, ==_refl b))

    -- A live comment on lines that met any fates of its path, none of which left it live, is
    -- live again at its first anchor, lines and hash included, when its path has its blob again.
    pub comes_back :
        (fs : List PathFate)
        → IsAway (home, live) fs
        → step (run_all (home, live) fs) (present p b) ≡ (home, live)
    unfolding effective_anchor
    comes_back fs away =
        step_home (run_all (home, live) fs).0 (run_all (home, live) fs).1
          (run_all-ne-deleted (home, live) fs (λ e. cc)) (effective-run_all (home, live) fs away)
