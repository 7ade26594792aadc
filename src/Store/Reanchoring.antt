-- ===== src/Store/Reanchoring.antt =====
-- crates/nits-review-core/src/comments.rs: `reanchor_review`, which moves the comments of a review
-- after its targets, over `reanchor` of Review.Reanchor. A tree listing and the changed files of two
-- trees are what git answers. The comments come in the order of the table; an error in the middle
-- leaves what was appended before it.
pub mod Moves
pub mod Sound
pub mod Requests
pub mod Kept
use nits.Prelude.{
  ℕ, Bool, ◌==◌, Option, none, some, List, [], ◌∷◌, ◌++◌, Result, ok, err, ◌>>=◌, if◌then◌else◌,
  nat_eq, bytes_eq, pair_eq,
}
use nits.Prelude.Maps
use nits.Protocol.Domain.{Text, RepoId, BlobOid, Side, base, head, Anchor, review, file, lines}
use nits.Protocol.Changes.{
  TreeOid, TreeEntry, TreeEntryKind, file_entry, dir_entry, symlink_entry, submodule_entry,
  FileChange, SubmoduleChange, submodule_to_blob, submodule, added, removed, modified, renamed,
  ResolvedTarget,
}
use nits.Review.Anchor.{Hunk, PathFate, present, gone, Reanchor, unchanged, moved, effective_anchor}
use nits.Review.Reanchor.{reanchor}
use nits.Store.Events.{Comment, comment_reanchored}
use nits.Store.Log.{Store, comments}
use nits.Store.Core.{Git, Ctx, CoreError, append, review_repo, from_git}
use nits.Store.Comments.{is_browse}

-- What git answers about trees.
pub record Trees (G : Type 0) : Type 0 where
  pub entries : ℕ → TreeOid → Result (List TreeEntry) G
  pub changed_files : ℕ → TreeOid → TreeOid → Result (List FileChange) G

abbrev pub Fates : Type 0
Fates = List (List ℕ × PathFate)

-- The key of the cache, a repository and a side.
abbrev pub side_key : Side → ℕ
side_key s = elim s [ base ↦ 0 | head ↦ 1 ]

unfoldable pub entry_blob : TreeEntryKind → Option BlobOid
entry_blob (file_entry oid _ _) = some oid
entry_blob (symlink_entry oid) = some oid
entry_blob (dir_entry _) = none
entry_blob (submodule_entry _) = none

-- `filter_map` and `collect`
unfoldable pub collect_fates : List TreeEntry → Fates → Fates
unfolding entry_blob
collect_fates [] m = m
collect_fates (e ∷ es) m = elim (entry_blob e.kind) [
  | none ↦ collect_fates es m
  | some oid ↦ collect_fates es (Maps.insert e.path (present e.path oid) m)
]

unfoldable pub new_blob : SubmoduleChange → Option BlobOid
new_blob c = elim c [ submodule_to_blob _ new ↦ some new.oid | _ ↦ none ]

unfoldable pub change_fate : FileChange → Fates → Fates
unfolding new_blob
change_fate c m = elim c.kind [
  | renamed from _ new ↦ Maps.insert from (present c.path new.oid) m
  | removed _ ↦ Maps.insert c.path gone m
  | added _ ↦ m
  | modified _ _ ↦ m
  | submodule change ↦ elim (new_blob change) [ none ↦ Maps.insert c.path gone m | some _ ↦ m ]
]

unfoldable pub change_fates : List FileChange → Fates → Fates
unfolding change_fate
change_fates [] m = m
change_fates (c ∷ cs) m = change_fates cs (change_fate c m)

unfoldable pub path_fates :
    {G : Type 0} → Trees G → ℕ → Option TreeOid → TreeOid → Result Fates (CoreError G)
unfolding collect_fates change_fates
path_fates trees handle old new = from_git (trees.entries handle new) >>= λ es. elim old [
  | none ↦ ok (collect_fates es [])
  | some o ↦ from_git (trees.changed_files handle o new) >>= λ cs.
      ok (change_fates cs (collect_fates es []))
]

-- `.find(|t| t.repo_id == repo_id)`
unfoldable pub target_of : RepoId → List ResolvedTarget → Option ResolvedTarget
target_of repo [] = none
target_of repo (t ∷ ts) = let rest = target_of repo ts in if t.repo_id == repo then some t else rest

abbrev pub tree_of : Side → ResolvedTarget → TreeOid
tree_of s t = elim s [ base ↦ t.base_tree.tree | head ↦ t.head_tree.tree ]

abbrev pub Cache : Type 0
Cache = List ((ℕ × ℕ) × Fates)

-- The cache of one run, `fates.entry(…)`.
unfoldable pub cached_fates :
    {G : Type 0}
    → Trees G
    → ℕ
    → RepoId
    → Side
    → Option ResolvedTarget
    → ResolvedTarget
    → Cache
    → Result (Cache × Fates) (CoreError G)
unfolding path_fates
cached_fates trees handle repo side old new m = elim (Maps.get (repo, side_key side) m) [
  | some fates ↦ ok (m, fates)
  | none ↦
      path_fates trees handle (elim old [ none ↦ none | some t ↦ some (tree_of side t) ])
        (tree_of side new)
      >>= λ fates. ok (Maps.insert (repo, side_key side) fates m, fates)
]

-- Repository, path and side of the anchor that is tried; a review anchor has none.
unfoldable pub place_of : Anchor → Option (RepoId × Text × Side)
place_of review = none
place_of (file repo path _) = some (repo, path, head)
place_of (lines repo path side _ _ _) = some (repo, path, side)

-- `repo.blob(b).ok()`
abbrev pub to_option {ℓ κ} : {A : Type ℓ} {E : Type κ} → Result A E → Option A
to_option (ok a) = some a
to_option (err _) = none

module _ {G : Type 0} (current_schema : ℕ) (git : Git G) (trees : Trees G)
    (diff : List Text → List Text → List Hunk) (hash : List Text → ℕ)
    (from_utf8_lossy : List ℕ → Text) (is_whitespace : ℕ → Bool) where
  -- The body of the loop up to the outcome; what it skips is unchanged.
  unfoldable pub outcome_at :
      ℕ
      → List ResolvedTarget
      → Store
      → Cache
      → Comment
      → RepoId × Text × Side
      → ResolvedTarget
      → Result (Cache × Reanchor) (CoreError G)
  unfolding target_of cached_fates
  outcome_at r old s m c at new = review_repo git r at.0 s >>= λ handle.
      cached_fates trees handle at.0 at.2 (target_of at.0 old) new m >>= λ x.
      let fate : PathFate = elim (Maps.get at.1 x.1) [ none ↦ gone | some f ↦ f ] in
      let blob : BlobOid → Option (List ℕ) = λ b. to_option (git.blob handle b) in
      ok (x.0, reanchor diff hash from_utf8_lossy is_whitespace blob blob c.anchor c.state fate)

  unfoldable pub outcome :
      ℕ
      → List ResolvedTarget
      → List ResolvedTarget
      → Store
      → Cache
      → Comment
      → Result (Cache × Reanchor) (CoreError G)
  unfolding outcome_at place_of target_of
  outcome r old new s m c =
      if is_browse c.context
      then ok (m, unchanged)
      else elim (place_of (effective_anchor c.anchor c.state)) [
        | none ↦ ok (m, unchanged)
        | some at ↦ elim (target_of at.0 new) [
          | none ↦ ok (m, unchanged)
          | some t ↦ outcome_at r old s m c at t
        ]
      ]

  unfoldable pub reanchor_each :
      Ctx
      → ℕ
      → List ResolvedTarget
      → List ResolvedTarget
      → List Comment
      → Cache
      → List ℕ
      → Store
      → Result (List ℕ) (CoreError G) × Store
  unfolding outcome
  reanchor_each ctx r old new [] m ids s = (ok ids, s)
  reanchor_each ctx r old new (c ∷ cs) m ids s = elim (outcome r old new s m c) [
    | err e ↦ (err e, s)
    | ok x ↦ elim x.1 [
      | unchanged ↦ reanchor_each ctx r old new cs x.0 ids s
      | moved anchor state ↦
          elim (append {G = G} current_schema ctx (comment_reanchored r c.id anchor state) s) [
            | err e ↦ (err e, s)
            | ok y ↦ reanchor_each ctx r old new cs x.0 (ids ++ c.id ∷ []) y.1
          ]
    ]
  ]

  unfoldable pub reanchor_review :
      Ctx
      → ℕ
      → List ResolvedTarget
      → List ResolvedTarget
      → Store
      → Result (List ℕ) (CoreError G) × Store
  unfolding reanchor_each
  reanchor_review ctx r old new s = reanchor_each ctx r old new (comments r s) [] [] s
