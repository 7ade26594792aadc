-- ===== src/Review/Reanchor/Outcomes.antt =====
-- anchor.rs: what every outcome of `reanchor` promises.
use mathlib.Core.Path.{subst}
use nits.Prelude.{
  ap, sym, ℕ, Bool, ◌&&◌, Option, some, List, ◌==◌, if◌then◌else◌, same, same_refl, same→eq, arith,
  ◌≡◌, refl, ◌⊎◌, inl, inr, ==_refl, ==_iff, Bool-cases, Option-cases,
}
use nits.Protocol.Lines.{LineRange}
use nits.Protocol.Domain.{
  Text, RepoId, BlobOid, Side, Anchor, review, file, lines, CommentState, live, outdated, deleted,
  Text-discrete, Anchor-discrete,
}
use nits.Review.Anchor.{
  Hunk, context_hash, PathFate, present, gone, Reanchor, unchanged, moved, effective_anchor,
  map_range,
}
use nits.Review.Render.Lines.{lines_of}
use nits.Review.Reanchor.{
  reanchor, outdate, reanchor_from, lines_arm, follow, both_blobs, is_live, anchor_path,
}

-- The comment after an outcome is recorded.
abbrev pub settle : Reanchor → Anchor × CommentState → Anchor × CommentState
settle unchanged c = c
settle (moved a s) c = (a, s)

module _ (diff : List Text → List Text → List Hunk) (hash : List Text → ℕ)
    (from_utf8_lossy : List ℕ → Text) (is_whitespace : ℕ → Bool)
    (old_blob new_blob : BlobOid → Option (List ℕ)) where
  abbrev pub run : Anchor × CommentState → PathFate → Anchor × CommentState
  run (a, s) fate =
      settle (reanchor diff hash from_utf8_lossy is_whitespace old_blob new_blob a s fate) (a, s)

  -- A comment that does not come back to `Live` keeps its last good anchor.
  pub effective-run :
      (a : Anchor) (s : CommentState) (fate : PathFate)
      → let (a', s') = run (a, s) fate in
        (s' ≡ live) ⊎ (effective_anchor a' s' ≡ effective_anchor a s)
  unfolding reanchor
  effective-run a deleted fate = ground arith
  effective-run review live fate = ground arith
  effective-run (file r p b) live gone = ground arith
  effective-run (file r p b) live (present p' b') = ground arith
  effective-run (lines r p sd b l h) live gone = ground arith
  effective-run (lines r p sd b l h) live (present p' b') = ground arith
  effective-run a (outdated review) fate = ground arith
  effective-run a (outdated (file r p b)) gone = ground arith
  effective-run a (outdated (file r p b)) (present p' b') = ground arith
  effective-run a (outdated (lines r p sd b l h)) gone = ground arith
  effective-run a (outdated (lines r p sd b l h)) (present p' b') = ground arith

  -- Trying again changes nothing
  pub run-run :
      (a : Anchor) (s : CommentState) (fate : PathFate)
      → run (run (a, s) fate) fate ≡ run (a, s) fate
  unfolding reanchor
  run-run a deleted fate = ground arith
  run-run review live fate = ground arith
  run-run (file r p b) live gone = ground arith
  run-run (file r p b) live (present p' b') =
      ground (arith, same_refl Anchor-discrete (file r p' b'))
  run-run (lines r p sd b l h) live gone = ground arith
  run-run (lines r p sd b l h) live (present p' b') =
      ground (arith, ==_refl b', same_refl Text-discrete p')
  run-run a (outdated review) fate = ground arith
  run-run a (outdated (file r p b)) gone = ground arith
  run-run a (outdated (file r p b)) (present p' b') =
      ground (arith, same_refl Anchor-discrete (file r p' b'))
  run-run a (outdated (lines r p sd b l h)) gone = ground arith
  run-run a (outdated (lines r p sd b l h)) (present p' b') =
      ground (arith, ==_refl b', same_refl Text-discrete p')

  abbrev pub texts_of : List ℕ → List Text
  texts_of = lines_of from_utf8_lossy is_whitespace

  -- How a line comment can end up live at a blob: it was anchored there all along, or its lines
  -- were mapped and the context hash of their new surroundings is the one it was written with.
  module _ (repo : RepoId) (p : Text) (side : Side) (b0 : BlobOid) (r : LineRange) (h : ℕ) where
    abbrev base_anchor : Anchor
    base_anchor = lines repo p side b0 r h

    abbrev pub Follows : Anchor → Text → BlobOid → Type 0
    Follows a' path blob =
        ((b0 ≡ blob) × (a' ≡ lines repo path side blob r h))
        ⊎ ((old : List ℕ) × (new : List ℕ) × (r' : LineRange) × (old_blob b0 ≡ some old)
            × (new_blob blob ≡ some new)
            × (a' ≡ lines repo path side blob r' h)
            × (map_range diff (texts_of old) (texts_of new) r ≡ some r')
            × (context_hash hash (texts_of new) r' ≡ h))

    abbrev arm : Anchor → CommentState → Text → BlobOid → Reanchor
    arm a s path blob =
        lines_arm diff hash from_utf8_lossy is_whitespace old_blob new_blob a s repo side b0 r h
          (present path blob)

    outdate-ne-live :
        (a a' : Anchor) (s : CommentState) → settle (outdate a s) (a, s) ≡ (a', live) → ⊥
    outdate-ne-live a a' s e = cc (ap (λ (c : Anchor × CommentState). c.1) e)

    -- The blob is the one that the comment is anchored to.
    arm_same_blob :
        (a a' : Anchor) (s : CommentState) (path : Text) (blob : BlobOid)
        → (s ≡ live → a ≡ base_anchor)
        → settle
            (if is_live s && same Text-discrete path (anchor_path a)
              then unchanged
              else moved (lines repo path side blob r h) live)
            (a, s)
          ≡ (a', live)
        → blob ≡ b0
        → a' ≡ lines repo path side blob r h
    unfolding anchor_path
    arm_same_blob a a' live path blob based e at =
        elim (Bool-cases (same Text-discrete path (anchor_path a))) [
          | inl here ↦
              let same_path : path ≡ anchor_path a =
                same→eq Text-discrete path (anchor_path a) here in
              let base_path : anchor_path a ≡ p = ap anchor_path (based refl) in
              cc (rw here at e, based refl, same_path, base_path)
          | inr away ↦ cc (rw away at e)
        ]
    arm_same_blob a a' (outdated g) path blob based e at = cc
    arm_same_blob a a' deleted path blob based e at = cc

    arm-Follows :
        (a a' : Anchor) (s : CommentState) (path : Text) (blob : BlobOid)
        → (s ≡ live → a ≡ base_anchor)
        → settle (arm a s path blob) (a, s) ≡ (a', live)
        → Follows a' path blob
    unfolding lines_arm follow both_blobs
    arm-Follows a a' s path blob based e = elim (Bool-cases (blob == b0)) [
      | inl at ↦
          let at' : blob ≡ b0 = (==_iff blob b0).0 at in
          inl (sym at', arm_same_blob a a' s path blob based (rw at at e) at')
      | inr other ↦ elim (Option-cases (old_blob b0)) [
        | inl no_old ↦ absurd (outdate-ne-live a a' s (rw (other, no_old) at e))
        | inr (old, eo) ↦ elim (Option-cases (new_blob blob)) [
          | inl no_new ↦ absurd (outdate-ne-live a a' s (rw (other, eo, no_new) at e))
          | inr (new, en) ↦ elim (Option-cases (map_range diff (texts_of old) (texts_of new) r)) [
            | inl no_range ↦
                absurd
                  (outdate-ne-live a a' s (rw (other, eo, en, both_blobs, follow, no_range) at e))
            | inr (r', er) ↦ elim (Bool-cases (context_hash hash (texts_of new) r' == h)) [
              | inl same_hash ↦ inr (
                  (
                    old,
                    new,
                    r',
                    eo,
                    en,
                    cc (rw (other, eo, en, both_blobs, follow, er, same_hash) at e),
                    er,
                    (==_iff _ h).0 same_hash,
                  ))
              | inr differs ↦ absurd (
                  outdate-ne-live a a' s (rw (other, eo, en, both_blobs, follow, er, differs) at e))
            ]
          ]
        ]
      ]
    ]

  module _ (repo : RepoId) (p : Text) (side : Side) (b0 : BlobOid) (r : LineRange) (h : ℕ)
      (a a' : Anchor) (s : CommentState) (path : Text) (blob : BlobOid) where
    from_base :
        (base : Anchor)
        → base ≡ lines repo p side b0 r h
        → (s ≡ live → a ≡ lines repo p side b0 r h)
        → settle
            (reanchor_from diff hash from_utf8_lossy is_whitespace old_blob new_blob a s base
              (present path blob))
            (a, s)
          ≡ (a', live)
        → Follows repo p side b0 r h a' path blob
    unfolding reanchor_from
    from_base base e based run_eq = arm-Follows repo p side b0 r h a a' s path blob based (
        subst
          (λ b.
            settle
              (reanchor_from diff hash from_utf8_lossy is_whitespace old_blob new_blob a s b
                (present path blob))
              (a, s)
            ≡ (a', live))
          e run_eq)

  -- A comment on lines that is live at a blob, after the anchor was followed there, either stood at
  -- this very blob with the same lines, or both blobs were read, the lines were mapped by the
  -- diff and the context hash of the lines around them is the recorded one.
  pub reanchor-Follows :
      (repo : RepoId) (p : Text) (side : Side) (b0 : BlobOid) (r : LineRange) (h : ℕ)
      (a a' : Anchor) (s : CommentState) (path : Text) (blob : BlobOid)
      → effective_anchor a s ≡ lines repo p side b0 r h
      → run (a, s) (present path blob) ≡ (a', live)
      → Follows repo p side b0 r h a' path blob
  unfolding reanchor
  reanchor-Follows repo p side b0 r h a a' deleted path blob based e =
      cc (ap (λ (c : Anchor × CommentState). c.1) e)
  reanchor-Follows repo p side b0 r h a a' live path blob based e =
      from_base repo p side b0 r h a a' live path blob a based (λ _. based) e
  reanchor-Follows repo p side b0 r h a a' (outdated g) path blob based e =
      from_base repo p side b0 r h a a' (outdated g) path blob g based (λ q. cc) e
