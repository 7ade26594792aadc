-- ===== src/Store/Reanchoring/Moves.antt =====
-- comments.rs: what one event of reanchoring does to the comments of a review.
use mathlib.Core.Path.{subst}
use nits.Prelude.{
  ℕ, ◌≡◌, ◌≢◌, ◌⊎◌, refl, sym, ap, ◌∙◌, true, false, some, [], ◌∷◌, All, ok, arith, inl, inr,
  nat_eq, pair_eq, Bool-cases, ◌==◌, ==_iff,
}
use nits.Prelude.Maps.{get, insert, IsMap}
use nits.Protocol.Domain.{Anchor, CommentState}
use nits.Store.Events.{Comment, Event, comment_reanchored}
use nits.Store.Views.{Tables, is_deleted, load_comment, save_comment, unindex_anchor}
use nits.Store.Views.Apply.{apply, apply_body, move_comment}
use nits.Store.Log.{Store, of_review, comments, coming_seq, sequenced, put_event}
use nits.Store.Log
use nits.Store.Core.{Ctx, append, new_event}
use nits.Store.Consistent.{IsConsistent, Comments, pair_keeps}
use nits.Store.Consistent.Events.{apply_body-Kept}
use nits.Store.Consistent.Writes.{Kept, unindex_anchor-SameParts, index_anchor-SameParts, pair_path}
use nits.Store.Comments.{is_browse}

-- Everything but the anchor and the state is as it was.
abbrev pub OnlyMoved : Comment → Comment → Type 0
OnlyMoved x y = y ≡ record x { anchor = y.anchor; state = y.state }

-- What the driver leaves alone: other reviews, comments of a browsed revision, deleted ones.
abbrev pub Fixed : ℕ → ℕ → Comment → Type 0
Fixed r q x = (q ≢ r) ⊎ ((is_browse x.context ≡ true) ⊎ (is_deleted x.state ≡ true))

abbrev pub CommentsMoved : ℕ → Tables → Tables → Type 0
CommentsMoved r t t' =
    (q d : ℕ) (x : Comment)
    → get (q, d) t.comments ≡ some x
    → (y : Comment) × (get (q, d) t'.comments ≡ some y)
      × OnlyMoved x y
      × (is_deleted y.state ≡ is_deleted x.state)
      × (Fixed r q x → y ≡ x)

abbrev pub Listed : ℕ → Tables → Comment → Type 0
Listed r t c = get (r, c.id) t.comments ≡ some c

-- Each comment of the listing is what its id looks up.
pub of_review-Listed :
    (r : ℕ) (t : Tables) (m : Comments)
    → ((j : ℕ × ℕ) (w : Comment) → get j m ≡ some w → get j t.comments ≡ some w)
    → IsMap m
    → ((q d : ℕ) (x : Comment) → get (q, d) t.comments ≡ some x → x.id ≡ d)
    → All (Listed r t) (of_review r m)
unfolding of_review get
of_review-Listed r t [] up h keys = tt
of_review-Listed r t ((k, v) ∷ m) up h keys =
    let here : get k t.comments ≡ some v = up k v (ground arith) in
    let rest = of_review-Listed r t m (λ j w l. up j w (ground (arith, h.0))) h.1 keys in
    elim (Bool-cases (k.0 == r)) [
      | inl b ↦
          let id : v.id ≡ k.1 = keys k.0 k.1 v here in
          let rev : k.0 ≡ r = (==_iff k.0 r).0 b in rw b (ground (arith, here, id, rev), rest)
      | inr b ↦ rw b rest
    ]

true-false : true ≡ false → ⊥
true-false e = absurd (ground arith)

not-Fixed :
    (r q : ℕ) (c x : Comment)
    → r ≡ q
    → c ≡ x
    → is_browse c.context ≡ false
    → is_deleted c.state ≡ false
    → Fixed r q x
    → ⊥
not-Fixed r q c x i was b l (inl n) = n (sym i)
not-Fixed r q c x i was b l (inr (inl n)) =
    true-false (sym n ∙ subst (λ v. is_browse v.context ≡ false) was b)
not-Fixed r q c x i was b l (inr (inr n)) =
    true-false (sym n ∙ subst (λ v. is_deleted v.state ≡ false) was l)

pub move_comment-CommentsMoved :
    (r id : ℕ) (a : Anchor) (s : CommentState) (c y : Comment) (t t' u : Tables)
    → get (r, id) t.comments ≡ some c
    → is_browse c.context ≡ false
    → is_deleted c.state ≡ false
    → is_deleted s ≡ false
    → CommentsMoved r t u
    → get (r, id) u.comments ≡ some y
    → t'.comments ≡ insert (r, id) (record y { anchor = a; state = s }) u.comments
    → CommentsMoved r t t'
move_comment-CommentsMoved r id a s c y t t' u g b l n k there e q d x at =
    let (z, f, o, del, same) = k q d x at in
    let new = record y { anchor = a; state = s } in
    let P : Comment → Type 0 =
      λ w. OnlyMoved x w × (is_deleted w.state ≡ is_deleted x.state) × (Fixed r q x → w ≡ x) in
    let (w, m, p) =
      pair_keeps P r id q d new z u.comments f (o, del, same)
        (λ i j.
          let was : c ≡ x = ground (arith, i, j, g, at) in
          let now : y ≡ z = ground (arith, i, j, there, f) in
          (
            ap (λ (v : Comment). record v { anchor = a; state = s }) (now ∙ o),
            n ∙ sym (subst (λ v. is_deleted v.state ≡ false) was l),
            λ fixed. absurd (not-Fixed r q c x i was b l fixed),
          )) in
    (w, ap (λ v. get (q, d) v) e ∙ m, p.0, p.1, p.2)

move_comment-writes :
    (r : ℕ) (a : Anchor) (s : CommentState) (y : Comment) (t : Tables)
    → ((move_comment r a s y t).comments
        ≡ insert (y.review_id, y.id) (record y { anchor = a; state = s }) t.comments)
      × ((move_comment r a s y t).threads ≡ t.threads)
unfolding move_comment save_comment
move_comment-writes r a s y t =
    let new = record y { anchor = a; state = s } in
    let u = save_comment new (unindex_anchor y t) in
    let (_, c, h) = unindex_anchor-SameParts y t in
    let saved : u.comments ≡ insert (y.review_id, y.id) new t.comments =
      ap (λ m. insert (y.review_id, y.id) new m) c in
    elim (Bool-cases (is_deleted s)) [
      | inl b ↦ rw b (saved, h)
      | inr b ↦ let (_, c', h') = index_anchor-SameParts r new u in rw b (c' ∙ saved, h' ∙ h)
    ]

-- The event of a comment that is there always applies.
pub appended :
    (G : Type 0) (current_schema : ℕ) (ctx : Ctx) (r id : ℕ) (a : Anchor) (s : CommentState)
    (y : Comment) (u : Store)
    → IsConsistent u.views
    → get (r, id) u.views.comments ≡ some y
    → (z : Event × Store) × (append {G = G} current_schema ctx (comment_reanchored r id a s) u
        ≡ ok z)
      × IsConsistent z.1.views
      × (z.1.views.comments ≡ insert (r, id) (record y { anchor = a; state = s }) u.views.comments)
      × (z.1.views.threads ≡ u.views.threads)
unfolding append Log.append apply apply_body load_comment sequenced
appended G current_schema ctx r id a s y u h q =
    let b = comment_reanchored r id a s in
    let event = sequenced (coming_seq u) (new_event ctx b) in
    let t' = move_comment r a s y u.views in
    let done : apply_body u.views event b ≡ ok t' = rw q refl in
    let (c, th) = move_comment-writes r a s y u.views in
    let (k, l) = h.comment_keys r id y q in
    let after : Event × Store = (
      event,
      record {
        events = put_event (record { schema = current_schema; event = event }) u.events;
        views = t';
        view_seq = some event.seq;
      },
    ) in
    (
      after,
      rw done refl,
      subst Kept done (apply_body-Kept u.views event h b tt),
      c ∙ ap (λ v. insert v (record y { anchor = a; state = s }) u.views.comments) (pair_path k l),
      th,
    )
