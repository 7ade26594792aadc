-- ===== src/Store/Consistent/Writes.antt =====
-- store/views.rs: what each helper of `apply` writes keeps the views consistent.
use mathlib.Core.Path.{subst}
use nits.Prelude.{
  true, ℕ, ◌≡◌, refl, sym, ◌∙◌, none, some, List, [], ◌∷◌, ◌++◌, arith, inl, inr, Result, ok, err,
  nat_eq, pair_eq, Option-cases, Bool-cases, ◌==◌, ==_iff, All-append,
}
use nits.Prelude.Maps.{get, insert, contains, get-insert_self}
use nits.Protocol.Changes.{ReviewTarget}
use nits.Protocol.Domain.{Anchor, CommentState}
use nits.Store.Events.{from_created, ThreadResolution, Comment, Thread}
use nits.Store.Views.{
  thread_with, create_comment, put_comment, add_suggestion, anchor_key, is_deleted, index_anchor,
  replace_target, unindex_anchor, save_thread, load_thread, save_comment, Tables, StoreError,
  ReviewRecord, load_review, save_review,
}
use nits.Store.Views.Apply.{move_comment, retarget, set_resolution}
use nits.Store.Consistent.{Consistent, IsConsistent, Known}
use nits.Store.Consistent.Steps.{
  review-Consistent, comment-Consistent, thread-Consistent, put-Consistent, KeyOf-get,
  All-Known-insert,
}

-- The index and the other tables aside, nothing has changed.
abbrev pub SameParts : Tables → Tables → Type 0
SameParts t u = (u.reviews ≡ t.reviews) × (u.comments ≡ t.comments) × (u.threads ≡ t.threads)

pub pair_path : {a b c d : ℕ} → a ≡ c → b ≡ d → ◌≡◌ {A = ℕ × ℕ} (a, b) (c, d)
pair_path p q = ground (arith, p, q)

-- What a result leaves behind, if it is one.
abbrev pub Kept : Result Tables StoreError → Type 0
Kept (ok t) = IsConsistent t
Kept (err _) = Unit

pub save-IsConsistent :
    (t : Tables) (new : ReviewRecord) → IsConsistent t → IsConsistent (save_review new t)
unfolding save_review
save-IsConsistent t new c =
    review-Consistent new.review.id new t.reviews t.comments t.threads refl c

pub retarget-Kept :
    (t : Tables) (seq : ℕ) (target : ReviewTarget) (rec : ReviewRecord)
    → IsConsistent t
    → Kept (retarget t seq target rec)
unfolding retarget
retarget-Kept t seq target rec c = elim (Option-cases (replace_target target rec.review.targets)) [
  | inl q ↦ rw q tt
  | inr (ts, q) ↦ rw q (save-IsConsistent t _ c)
]

pub set_resolution-Kept :
    (t : Tables) (seq r h : ℕ) (s : ThreadResolution)
    → IsConsistent t
    → Kept (set_resolution t seq r h s)
unfolding set_resolution load_thread save_thread
set_resolution-Kept t seq r h s c = elim (Option-cases (get (r, h) t.threads)) [
  | inl q ↦ rw q tt
  | inr (th, q) ↦
      let (a, b) = KeyOf-get r h th t.threads c.thread_keys q in
      let new = record th { resolution = s } in
      rw q (
        subst (λ k. Consistent t.reviews t.comments (insert k new t.threads))
          (pair_path (sym a) (sym b))
          (thread-Consistent r h th new t.reviews t.comments t.threads q (refl, refl, refl, refl)
            c))
]

-- A comment is written back, after the index has changed or not.
pub save_comment-IsConsistent :
    (t u : Tables) (r id : ℕ) (old new : Comment)
    → get (r, id) t.comments ≡ some old
    → (new.review_id ≡ old.review_id) × (new.id ≡ old.id) × (new.thread_id ≡ old.thread_id)
    → SameParts t u
    → IsConsistent t
    → IsConsistent (save_comment new u)
unfolding save_comment
save_comment-IsConsistent t u r id old new q (er, ei, et) (x, y, z) c =
    let (a, b) = c.comment_keys r id old q in
    let step = comment-Consistent r id old new t.reviews t.comments t.threads q er ei et c in
    rw (x, y, z)
      (subst (λ k. Consistent t.reviews (insert k new t.comments) t.threads)
        (pair_path (sym (er ∙ a)) (sym (ei ∙ b))) step)

pub index_anchor-SameParts : (r : ℕ) (c : Comment) (t : Tables) → SameParts t (index_anchor r c t)
unfolding index_anchor
index_anchor-SameParts r c t = elim (Option-cases (anchor_key c.anchor)) [
  | inl q ↦ rw (q, index_anchor) (refl, refl, refl)
  | inr (k, q) ↦ rw (q, index_anchor) (refl, refl, refl)
]

pub unindex_anchor-SameParts : (c : Comment) (t : Tables) → SameParts t (unindex_anchor c t)
unfolding unindex_anchor
unindex_anchor-SameParts c t = elim (Option-cases (anchor_key c.anchor)) [
  | inl q ↦ rw (q, unindex_anchor) (refl, refl, refl)
  | inr (k, q) ↦ rw (q, unindex_anchor) (refl, refl, refl)
]

pub SameParts-IsConsistent : (t u : Tables) → SameParts t u → IsConsistent t → IsConsistent u
SameParts-IsConsistent t u (x, y, z) c = rw (x, y, z) c

pub move_comment-IsConsistent :
    (t : Tables) (r id : ℕ) (anchor : Anchor) (state : CommentState) (old : Comment)
    → get (r, id) t.comments ≡ some old
    → IsConsistent t
    → IsConsistent (move_comment r anchor state old t)
unfolding move_comment
move_comment-IsConsistent t r id anchor state old q c =
    let moved = record old { anchor = anchor; state = state } in
    let u = save_comment moved (unindex_anchor old t) in
    let saved : IsConsistent u =
      save_comment-IsConsistent t (unindex_anchor old t) r id old moved q (refl, refl, refl)
        (unindex_anchor-SameParts old t) c in
    elim (Bool-cases (is_deleted state)) [
      | inl b ↦ rw b saved
      | inr b ↦ rw b (
          SameParts-IsConsistent u (index_anchor r moved u) (index_anchor-SameParts r moved u)
            saved)
    ]

add_suggestion-SameParts : (c : Comment) (t : Tables) → SameParts t (add_suggestion c t)
unfolding add_suggestion
add_suggestion-SameParts c t = elim (Option-cases (from_created c)) [
  | inl q ↦ rw (q, add_suggestion) (refl, refl, refl)
  | inr (k, q) ↦ rw (q, add_suggestion) (refl, refl, refl)
]

-- The writes of a new comment, by what they leave in the three tables.
pub put_comment-writes :
    (t : Tables) (c : Comment) (th : Thread)
    → ((put_comment c th t).reviews ≡ t.reviews)
      × ((put_comment c th t).comments ≡ insert (c.review_id, c.id) c t.comments)
      × ((put_comment c th t).threads ≡ insert (c.review_id, c.thread_id) th t.threads)
unfolding put_comment
put_comment-writes t c th =
    let u = record t {
      threads = insert (c.review_id, c.thread_id) th t.threads;
      comments = insert (c.review_id, c.id) c t.comments;
    } in
    let v = add_suggestion c u in
    let (x, y, z) = add_suggestion-SameParts c u in
    let (k, l, m) = index_anchor-SameParts c.review_id c v in (k ∙ x, l ∙ y, m ∙ z)

put_comment-IsConsistent :
    (t : Tables) (c : Comment) (th : Thread)
    → Consistent t.reviews
        (insert (c.review_id, c.id) c t.comments)
        (insert (c.review_id, c.thread_id) th t.threads)
    → IsConsistent (put_comment c th t)
put_comment-IsConsistent t c th h = let (x, y, z) = put_comment-writes t c th in rw (x, y, z) h

contains_last : (c d : ℕ) (ds : List ℕ) → contains c (ds ++ c ∷ []) ≡ true
unfolding contains
contains_last c d [] = ground arith
contains_last c d (x ∷ ds) = ground (arith, contains_last c d ds)

contains_more : (c d : ℕ) (ds : List ℕ) → contains d ds ≡ true → contains d (ds ++ c ∷ []) ≡ true
unfolding contains
contains_more c d [] h = cc
contains_more c d (x ∷ ds) h = ground (arith, contains_more c d ds)

module _ (t : Tables) (c : Comment) (rec : ReviewRecord)
    (fresh : get (c.review_id, c.id) t.comments ≡ none)
    (live : get c.review_id t.reviews ≡ some rec) (h : IsConsistent t) where
  new_Known : Known (insert (c.review_id, c.id) c t.comments) c.review_id c.thread_id c.id
  new_Known = (c, get-insert_self (c.review_id, c.id) c t.comments, refl)

  root-IsConsistent :
      (th : Thread)
      → get (c.review_id, c.thread_id) t.threads ≡ none
      → c.thread_id ≡ c.id
      → (th.id ≡ c.thread_id) × (th.review_id ≡ c.review_id) × (th.root ≡ c.id) × (th.replies ≡ [])
      → IsConsistent (put_comment c th t)
  unfolding contains
  root-IsConsistent th empty own (a, b, d, e) = put_comment-IsConsistent t c th (
      put-Consistent c th rec t.reviews t.comments t.threads fresh live (b, a)
        (rw (d, e) (sym own, (new_Known, tt))) (ground (arith, d))
        (λ old x q m. absurd (ground (arith, empty, q))) h)

  reply-IsConsistent :
      (old : Thread)
      → get (c.review_id, c.thread_id) t.threads ≡ some old
      → IsConsistent (put_comment c (record old { replies = old.replies ++ c.id ∷ [] }) t)
  reply-IsConsistent old there =
      let th = record old { replies = old.replies ++ c.id ∷ [] } in
      let (b, a) = KeyOf-get c.review_id c.thread_id old t.threads h.thread_keys there in
      let (rooted, all) = h.members c.review_id c.thread_id old there in
      let kept =
        All-Known-insert c.review_id c.id c t.comments c.review_id c.thread_id
          (old.root ∷ old.replies) (λ d known p q. refl) all in
      put_comment-IsConsistent t c th (
        put-Consistent c th rec t.reviews t.comments t.threads fresh live (b, a)
          (
            rooted,
            (
              kept.0,
              All-append (Known _ c.review_id c.thread_id) old.replies (c.id ∷ []) kept.1
                  (new_Known, tt),
            ),
          )
          (contains_last c.id c.id (old.root ∷ old.replies))
          (λ x d q m.
            let same : old ≡ x = ground (arith, there, q) in
            contains_more c.id d (old.root ∷ old.replies) (rw same m))
          h)

pub create_comment-Kept :
    (t : Tables) (seq : ℕ) (c : Comment)
    → get (c.review_id, c.id) t.comments ≡ none
    → IsConsistent t
    → Kept (create_comment t seq c)
unfolding create_comment load_review thread_with
create_comment-Kept t seq c fresh h = elim (Option-cases (get c.review_id t.reviews)) [
  | inl q ↦ rw q tt
  | inr (rec, q) ↦ elim (Option-cases (get (c.review_id, c.thread_id) t.threads)) [
    | inr (old, there) ↦ rw (q, there) (reply-IsConsistent t c rec fresh q h old there)
    | inl empty ↦ elim (Bool-cases (c.thread_id == c.id)) [
      | inl b ↦
          rw (q, empty, b)
            (root-IsConsistent t c rec fresh q h _ empty ((==_iff c.thread_id c.id).0 b)
              (refl, refl, refl, refl))
      | inr b ↦ rw (q, empty, b) tt
    ]
  ]
]
