-- ===== src/Tests/Keys.antt =====
-- A typed lookup in a cache with one tree.
use native.Mathlib.Decide.{ℕ_discrete}
use nits.Prelude.{
  ℕ, ◌≡◌, sym, ap, ◌∙◌, inl, inr, true, [], ◌∷◌, Eq, same, same→eq, same_refl, Bool-cases,
}
use nits.Prelude.Maps
use mathlib.Core.Path.{subst}
use nits.Protocol.Domain.{Text-discrete}
use nits.Client.Cache.{ContentCache, peek}
use nits.Client.Cache.Keys.{
  RenderKey, TreeKey, TreeSnapshot, CacheKey, tree_key, CacheValue, tree_value, TreeKey-discrete,
  of_snapshot, matches,
}
use nits.Client.Cache.Keys.Typed.{IsPaired}

abbrev Key : Type 0
Key = CacheKey ℕ ℕ

abbrev Value : Type 0
Value = CacheValue ℕ ℕ ℕ ℕ ℕ

Render-discrete : Discrete (RenderKey ℕ ℕ)
unfolding Text-discrete ℕ_discrete
Render-discrete = hlevel (ℕ_discrete, Text-discrete)

Key-discrete : Discrete Key
unfolding Render-discrete TreeKey-discrete ℕ_discrete
Key-discrete = hlevel (ℕ_discrete, Render-discrete, TreeKey-discrete)

instance abbrev key_eq : Eq Key
key_eq = record {
  beq = same Key-discrete;
  beq_iff = λ a b.
      (same→eq Key-discrete a b, λ p. ap (same Key-discrete a) (sym p) ∙ same_refl Key-discrete a);
}

abbrev root : TreeKey
root = record { repo_id = 1; root = 2 }

abbrev snapshot : TreeSnapshot ℕ
snapshot = record { repo_id = 1; root_oid = 2; content = 3 }

abbrev cached : ContentCache Key Value
cached = record {
  budget = 10;
  used = 4;
  entries = (tree_key root, record { value = tree_value snapshot; size = 4; tick = 0 }) ∷ [];
  order = (0, tree_key root) ∷ [];
  next_tick = 1;
  pinned = [];
}

cached-IsPaired : IsPaired Render-discrete cached
unfolding peek Maps.get matches of_snapshot
cached-IsPaired k v h = elim (Bool-cases (same Key-discrete (tree_key root) k)) [
  | inl here ↦
      let at : tree_key root ≡ k = same→eq Key-discrete (tree_key root) k here in
      let held : tree_value snapshot ≡ v = cc (rw (peek, Maps.get, here) at h) in
      subst (λ (x : Value). matches Render-discrete x k ≡ true) held
        (subst (λ (j : Key). matches {H = ℕ} {R = ℕ} Render-discrete (tree_value snapshot) j ≡ true)
          at (same_refl TreeKey-discrete root))
  | inr away ↦ cc (rw (peek, Maps.get, away) at h)
]

abbrev shown : RenderKey ℕ ℕ
shown = record { repo_id = 1; path = []; target = 5; opts = 6 }
