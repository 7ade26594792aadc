-- ===== src/Client/Cache/Keys.antt =====
-- crates/nits-client-core/src/cache.rs: keys, values and the typed lookups. The target `T` and the
-- options `O` of a render are only compared; `S`, `H` and `R` are what else a snapshot, a header and
-- a chunk hold. A tree id is a number.
pub mod Typed
use nits.Prelude.{ℕ, Bool, true, false, Option, none, some, ◌==◌, Eq, nat_eq, same}
use nits.Protocol.Domain.{Text, RepoId, Text-discrete}
use native.Mathlib.Decide.{ℕ_discrete}
use nits.Review.Render.Chunks.{RenderChunk}
use nits.Client.Cache
use nits.Client.Cache.{ContentCache}

pub record RenderKey (T O : Type 0) : Type 0 where
  pub repo_id : RepoId
  pub path : Text
  pub target : T
  pub opts : O

pub record TreeKey : Type 0 where
  pub repo_id : RepoId
  pub root : ℕ

pub record TreeSnapshot (S : Type 0) : Type 0 where
  pub repo_id : RepoId
  pub root_oid : ℕ
  pub content : S

pub record FileRenderHeader (T O H : Type 0) : Type 0 where
  pub repo_id : RepoId
  pub path : Text
  pub target : T
  pub opts : O
  pub content : H

pub data CacheKey (T O : Type 0) : Type 0 where
  tree_key : TreeKey → CacheKey T O
  header_key : RenderKey T O → CacheKey T O
  chunk_key : RenderKey T O → ℕ → CacheKey T O

pub data CacheValue (T O S H R : Type 0) : Type 0 where
  tree_value : TreeSnapshot S → CacheValue T O S H R
  header_value : FileRenderHeader T O H → CacheValue T O S H R
  chunk_value : RenderChunk R → CacheValue T O S H R

unfoldable pub TreeKey-discrete : Discrete TreeKey
unfolding ℕ_discrete
TreeKey-discrete = hlevel ℕ_discrete

unfoldable pub of_snapshot : {S : Type 0} → TreeSnapshot S → TreeKey
of_snapshot s = record { repo_id = s.repo_id; root = s.root_oid }

unfoldable pub of_header : {T O H : Type 0} → FileRenderHeader T O H → RenderKey T O
of_header h = record { repo_id = h.repo_id; path = h.path; target = h.target; opts = h.opts }

unfoldable pub render : {T O : Type 0} → CacheKey T O → Option (RenderKey T O)
render (tree_key _) = none
render (header_key r) = some r
render (chunk_key r _) = some r

module _ {T O S H R : Type 0} where
  module _ (RenderKey-discrete : Discrete (RenderKey T O)) where
    unfoldable pub matches : CacheValue T O S H R → CacheKey T O → Bool
    unfolding of_snapshot of_header
    matches (tree_value s) (tree_key t) = same TreeKey-discrete (of_snapshot s) t
    matches (tree_value s) (header_key _) = false
    matches (tree_value s) (chunk_key _ _) = false
    matches (header_value h) (header_key r) = same RenderKey-discrete (of_header h) r
    matches (header_value h) (tree_key _) = false
    matches (header_value h) (chunk_key _ _) = false
    matches (chunk_value c) (chunk_key _ i) = c.index == i
    matches (chunk_value c) (tree_key _) = false
    matches (chunk_value c) (header_key _) = false

  abbrev pub as_tree : CacheValue T O S H R → Option (TreeSnapshot S)
  as_tree (tree_value s) = some s
  as_tree (header_value _) = none
  as_tree (chunk_value _) = none

  abbrev pub as_header : CacheValue T O S H R → Option (FileRenderHeader T O H)
  as_header (header_value h) = some h
  as_header (tree_value _) = none
  as_header (chunk_value _) = none

  abbrev pub as_chunk : CacheValue T O S H R → Option (RenderChunk R)
  as_chunk (chunk_value c) = some c
  as_chunk (tree_value _) = none
  as_chunk (header_value _) = none

  -- `?` and the match on the value.
  abbrev pub lookup :
      {A : Type 0}
      → (CacheValue T O S H R → Option A)
      → Option (CacheValue T O S H R) × ContentCache (CacheKey T O) (CacheValue T O S H R)
      → Option A × ContentCache (CacheKey T O) (CacheValue T O S H R)
  lookup f (none, c) = (none, c)
  lookup f (some v, c) = (f v, c)

  module _ ⦃e : Eq (CacheKey T O)⦄ where
    unfoldable pub tree :
        TreeKey
        → ContentCache (CacheKey T O) (CacheValue T O S H R)
        → Option (TreeSnapshot S) × ContentCache (CacheKey T O) (CacheValue T O S H R)
    tree t c = lookup as_tree (Cache.get (tree_key t) c)

    unfoldable pub header :
        RenderKey T O
        → ContentCache (CacheKey T O) (CacheValue T O S H R)
        → Option (FileRenderHeader T O H) × ContentCache (CacheKey T O) (CacheValue T O S H R)
    header r c = lookup as_header (Cache.get (header_key r) c)

    unfoldable pub chunk :
        RenderKey T O
        → ℕ
        → ContentCache (CacheKey T O) (CacheValue T O S H R)
        → Option (RenderChunk R) × ContentCache (CacheKey T O) (CacheValue T O S H R)
    chunk r i c = lookup as_chunk (Cache.get (chunk_key r i) c)
