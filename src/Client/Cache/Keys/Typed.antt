-- ===== src/Client/Cache/Keys/Typed.antt =====
-- cache.rs: typed lookups in a cache whose values belong to their keys.
use nits.Prelude.{
  ◌≡◌, ◌⊎◌, refl, ap, ◌∙◌, inl, inr, true, none, some, Eq, Option, Option-cases, same→eq,
}
use nits.Client.Cache.{ContentCache, get, peek}
use nits.Client.Cache.Ops.{get-peek}
use nits.Client.Cache.Keys.{
  RenderKey, TreeKey, TreeSnapshot, FileRenderHeader, CacheKey, tree_key, header_key, CacheValue,
  tree_value, header_value, chunk_value, TreeKey-discrete, of_snapshot, of_header, matches, as_tree,
  as_header, lookup, tree, header,
}

module _ {T O S H R : Type 0} where
  lookup-none :
      {A : Type 0} (f : CacheValue T O S H R → Option A)
      (p : Option (CacheValue T O S H R) × ContentCache (CacheKey T O) (CacheValue T O S H R))
      → p.0 ≡ none
      → (lookup f p).0 ≡ none
  lookup-none f (none, c) h = refl
  lookup-none f (some v, c) h = cc

  lookup-some :
      {A : Type 0} (f : CacheValue T O S H R → Option A)
      (p : Option (CacheValue T O S H R) × ContentCache (CacheKey T O) (CacheValue T O S H R))
      (v : CacheValue T O S H R)
      → p.0 ≡ some v
      → (lookup f p).0 ≡ f v
  lookup-some f (none, c) v h = cc
  lookup-some f (some w, c) v h = cc

  module _ (dR : Discrete (RenderKey T O)) where
    matches-tree :
        (v : CacheValue T O S H R) (t : TreeKey)
        → matches dR v (tree_key t) ≡ true
        → (s : TreeSnapshot S) × (v ≡ tree_value s) × (of_snapshot s ≡ t)
    unfolding matches
    matches-tree (tree_value s) t h = (s, refl, same→eq TreeKey-discrete (of_snapshot s) t h)
    matches-tree (header_value x) t h = cc
    matches-tree (chunk_value x) t h = cc

    matches-header :
        (v : CacheValue T O S H R) (r : RenderKey T O)
        → matches dR v (header_key r) ≡ true
        → (x : FileRenderHeader T O H) × (v ≡ header_value x) × (of_header x ≡ r)
    unfolding matches
    matches-header (header_value x) r h = (x, refl, same→eq dR (of_header x) r h)
    matches-header (tree_value s) r h = cc
    matches-header (chunk_value x) r h = cc

    module _ ⦃e : Eq (CacheKey T O)⦄ (c : ContentCache (CacheKey T O) (CacheValue T O S H R)) where
      -- Every value is of the shape of its key.
      abbrev pub IsPaired : Type 0
      IsPaired =
          (k : CacheKey T O) (v : CacheValue T O S H R) → peek k c ≡ some v → matches dR v k ≡ true

      -- In a cache whose values match their keys, the lookup of a tree or of a header finds the
      -- entry under its key if there is one, and what it finds has that very key.
      pub tree-header_lem :
          (t : TreeKey) (r : RenderKey T O)
          → IsPaired
          → ((((tree t c).0 ≡ none) × (peek (tree_key t) c ≡ none))
              ⊎ ((s : TreeSnapshot S) × ((tree t c).0 ≡ some s) × (of_snapshot s ≡ t)))
            × ((((header r c).0 ≡ none) × (peek (header_key r) c ≡ none))
                ⊎ ((x : FileRenderHeader T O H) × ((header r c).0 ≡ some x) × (of_header x ≡ r)))
      unfolding tree header
      tree-header_lem t r paired = (
        elim (Option-cases (peek (tree_key t) c)) [
          | inl miss ↦ inl (
              (lookup-none as_tree (get (tree_key t) c) ((get-peek (tree_key t) c).0 ∙ miss), miss))
          | inr (v, hit) ↦
              let (s, is_tree, of_key) = matches-tree v t (paired (tree_key t) v hit) in
              inr (
                (
                  s,
                  lookup-some as_tree (get (tree_key t) c) v ((get-peek (tree_key t) c).0 ∙ hit)
                      ∙ ap as_tree is_tree,
                  of_key,
                ))
        ],
        elim (Option-cases (peek (header_key r) c)) [
          | inl miss ↦ inl (
              (
                lookup-none as_header (get (header_key r) c) ((get-peek (header_key r) c).0 ∙ miss),
                miss,
              ))
          | inr (v, hit) ↦
              let (x, is_header, of_key) = matches-header v r (paired (header_key r) v hit) in
              inr (
                (
                  x,
                  lookup-some as_header (get (header_key r) c) v
                        ((get-peek (header_key r) c).0 ∙ hit)
                      ∙ ap as_header is_header,
                  of_key,
                ))
        ],
      )
