-- ===== src/Store/Index/Listing.antt =====
-- store/mod.rs: `comments_on_blob` reads the index of anchors.
use mathlib.Core.Path.{subst}
use nits.Prelude.{ℕ, ◌≡◌, ◌↔◌, some, [], ◌∷◌, arith, ok, true, nat_eq, pair_eq}
use nits.Prelude.Maps.{get, IsMap, contains}
use nits.Store.Events.{Event}
use nits.Store.Views.{Tables}
use nits.Store.Views.Apply.{apply}
use nits.Store.Log.{comments_on_blob}
use nits.Store.Consistent.{IsConsistent}
use nits.Store.Index.{Anchors, OnBlob, IsIndexed}
use nits.Store.Index.Events.{IsNew, StaysIndexed, apply_body-StaysIndexed}

contains-comments_on_blob :
    (repo blob r c : ℕ) (m : Anchors)
    → IsMap m
    → (contains (r, c) (comments_on_blob repo blob m) ≡ true) ↔ (get ((repo, blob), c) m ≡ some r)
unfolding contains comments_on_blob get
contains-comments_on_blob repo blob r c [] h = ground arith
contains-comments_on_blob repo blob r c ((k, q) ∷ m) h =
    ground (arith, contains-comments_on_blob repo blob r c m h.1, h.0)

pub comments_on_blob-apply :
    (t t' : Tables) (e : Event) (repo blob r c : ℕ)
    → IsConsistent t
    → IsIndexed t
    → IsNew t e.body
    → apply t e ≡ ok t'
    → IsIndexed t'
      × ((contains (r, c) (comments_on_blob repo blob t'.anchors_by_blob) ≡ true)
          ↔ OnBlob t'.comments (repo, blob) r c)
unfolding apply
comments_on_blob-apply t t' e repo blob r c h i new done =
    let i' : IsIndexed t' = subst StaysIndexed done (apply_body-StaysIndexed t e h i e.body new) in
    let (a, b) = contains-comments_on_blob repo blob r c t'.anchors_by_blob i'.is_map in
    (i', (λ l. i'.entries (repo, blob) r c (a l), λ on. b (i'.complete (repo, blob) r c on)))
