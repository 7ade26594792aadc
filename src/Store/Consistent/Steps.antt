-- ===== src/Store/Consistent/Steps.antt =====
-- store/views.rs: each way to write a table keeps the views consistent.
use mathlib.Core.Path.{subst}
use nits.Prelude.{
  ℕ, ◌≡◌, sym, ap, ◌∙◌, none, some, List, [], ◌∷◌, All, arith, inl, inr, nat_eq, pair_eq,
}
use nits.Prelude.Maps.{
  insert-IsMap, get, insert, get-insert_cases, get-insert_keeps, get-insert_self,
}
use nits.Store.Events.{Comment, Thread}
use nits.Store.Views.{ReviewRecord}
use nits.Store.Consistent.{
  Comments, Threads, Known, Member, KeyOf, IsThread, Consistent, All-remove, triple_eq, pair_cases,
  pair_keeps,
}

-- A review is written under its id.
pub review-Consistent :
    (r : ℕ) (rec : ReviewRecord) (rs : List (ℕ × ReviewRecord)) (cs : Comments) (ths : Threads)
    → rec.review.id ≡ r
    → Consistent rs cs ths
    → Consistent (insert r rec rs) cs ths
review-Consistent r rec rs cs ths e h = record {
  comment_map = h.comment_map;
  review_keys = λ j w q. elim (get-insert_cases r j rec w rs q) [
    | inl (a, b) ↦ sym (ap (λ x. x.review.id) b) ∙ e ∙ a
    | inr (a, b) ↦ h.review_keys j w b
  ];
  comment_keys = h.comment_keys;
  thread_keys = h.thread_keys;
  placed = h.placed;
  members = h.members;
  owned = λ j k th q.
      let (w, g) = h.owned j k th q in
      let (x, y, z) = get-insert_keeps (λ _. Unit {0}) r j rec w rs g tt (λ _. tt) in (x, y);
}

-- A comment that takes the place of one of the same thread keeps what is known.
pub Known-insert :
    (r c : ℕ) (new : Comment) (cs : Comments) (j h d : ℕ)
    → (r ≡ j → c ≡ d → new.thread_id ≡ h)
    → Known cs j h d
    → Known (insert (r, c) new cs) j h d
Known-insert r c new cs j h d n (x, g, e) = pair_keeps (λ y. y.thread_id ≡ h) r c j d new x cs g e n

pub All-Known-insert :
    (r c : ℕ) (new : Comment) (cs : Comments) (j h : ℕ) (ds : List ℕ)
    → ((d : ℕ) → Known cs j h d → r ≡ j → c ≡ d → new.thread_id ≡ h)
    → All (Known cs j h) ds
    → All (Known (insert (r, c) new cs) j h) ds
All-Known-insert r c new cs j h [] n a = tt
All-Known-insert r c new cs j h (d ∷ ds) n a =
    (Known-insert r c new cs j h d (n d a.0) a.0, All-Known-insert r c new cs j h ds n a.1)

-- A comment is rewritten in place, its ids unchanged.
pub comment-Consistent :
    (r c : ℕ) (old new : Comment) (rs : List (ℕ × ReviewRecord)) (cs : Comments) (ths : Threads)
    → get (r, c) cs ≡ some old
    → new.review_id ≡ old.review_id
    → new.id ≡ old.id
    → new.thread_id ≡ old.thread_id
    → Consistent rs cs ths
    → Consistent rs (insert (r, c) new cs) ths
comment-Consistent r c old new rs cs ths g er ei et h = record {
  comment_map = insert-IsMap (r, c) new cs h.comment_map;
  review_keys = h.review_keys;
  comment_keys = λ j d x q. elim (pair_cases r c j d new x cs q) [
    | inl (a, b, e) ↦
        let (k, l) = h.comment_keys r c old g in
        (sym (ap (λ y. y.review_id) e) ∙ er ∙ k ∙ a, sym (ap (λ y. y.id) e) ∙ ei ∙ l ∙ b)
    | inr b ↦ h.comment_keys j d x b
  ];
  thread_keys = h.thread_keys;
  placed = λ j d x q. elim (pair_cases r c j d new x cs q) [
    | inl (a, b, e) ↦
        let t : old.thread_id ≡ x.thread_id = sym et ∙ ap (λ y. y.thread_id) e in
        subst (λ y. (th : Thread) × (get (y.0, y.2) ths ≡ some th) × Member y.1 th)
          (triple_eq a b t) (h.placed r c old g)
    | inr b ↦ h.placed j d x b
  ];
  members = λ j k th q.
      let (e, a) = h.members j k th q in
      (
        e,
        All-Known-insert r c new cs j k (th.root ∷ th.replies)
            (λ d known p q'.
              let (x, y, z) = known in
              let same : old ≡ x = ground (arith, p, q', g, y) in
              et ∙ ap (λ w. w.thread_id) same ∙ z)
            a,
      );
  owned = h.owned;
}

-- Another resolution of the same thread.
abbrev pub SameThread : Thread → Thread → Type 0
SameThread old new =
    (new.review_id ≡ old.review_id)
    × (new.id ≡ old.id)
    × (new.root ≡ old.root)
    × (new.replies ≡ old.replies)

pub KeyOf-get :
    (r h : ℕ) (th : Thread) (ths : Threads)
    → All KeyOf ths
    → get (r, h) ths ≡ some th
    → (th.review_id ≡ r) × (th.id ≡ h)
unfolding get
KeyOf-get r h th [] a g = cc
KeyOf-get r h th ((k, v) ∷ ths) a g = ground (arith, a.0, KeyOf-get r h th ths a.1)

move_thread :
    (cs : Comments) {r j h k : ℕ} {new th : Thread}
    → r ≡ j
    → h ≡ k
    → new ≡ th
    → IsThread cs r h new
    → IsThread cs j k th
move_thread cs {r = r} {j = j} {h = h} {k = k} {th = th} p q e t =
    subst (λ x. IsThread cs x k th) p
      (subst (λ x. IsThread cs r x th) q (subst (λ x. IsThread cs r h x) e t))

move_owner :
    (rs : List (ℕ × ReviewRecord)) {r j : ℕ}
    → r ≡ j
    → (rec : ReviewRecord) × (get r rs ≡ some rec)
    → (rec : ReviewRecord) × (get j rs ≡ some rec)
move_owner rs p o = subst (λ x. (rec : ReviewRecord) × (get x rs ≡ some rec)) p o

pub thread-Consistent :
    (r h : ℕ) (old new : Thread) (rs : List (ℕ × ReviewRecord)) (cs : Comments) (ths : Threads)
    → get (r, h) ths ≡ some old
    → SameThread old new
    → Consistent rs cs ths
    → Consistent rs cs (insert (r, h) new ths)
unfolding insert
thread-Consistent r h old new rs cs ths g e c = record {
  comment_map = c.comment_map;
  review_keys = c.review_keys;
  comment_keys = c.comment_keys;
  thread_keys =
      let (a, b) = KeyOf-get r h old ths c.thread_keys g in
      ((e.0 ∙ a, e.1 ∙ b), All-remove KeyOf (r, h) ths c.thread_keys);
  placed = λ j d x q.
      let (th, l, m) = c.placed j d x q in
      pair_keeps (λ y. Member d y) r h j x.thread_id new th ths l m
        (λ p p'. let same : old ≡ th = ground (arith, p, p', g, l) in rw (e.2, e.3, same) m);
  members = λ j k th q. elim (pair_cases r h j k new th ths q) [
    | inl (a, b, f) ↦ move_thread cs a b f (rw (e.2, e.3) (c.members r h old g))
    | inr b ↦ c.members j k th b
  ];
  owned = λ j k th q. elim (pair_cases r h j k new th ths q) [
    | inl (a, b, f) ↦ move_owner rs a (c.owned r h old g)
    | inr b ↦ c.owned j k th b
  ];
}

-- A new comment and the thread that it starts or extends.
pub put-Consistent :
    (x : Comment) (th' : Thread) (rec : ReviewRecord) (rs : List (ℕ × ReviewRecord)) (cs : Comments)
    (ths : Threads)
    → get (x.review_id, x.id) cs ≡ none
    → get x.review_id rs ≡ some rec
    → (th'.review_id ≡ x.review_id) × (th'.id ≡ x.thread_id)
    → IsThread (insert (x.review_id, x.id) x cs) x.review_id x.thread_id th'
    → Member x.id th'
    → ((th : Thread) (d : ℕ)
        → get (x.review_id, x.thread_id) ths ≡ some th
        → Member d th
        → Member d th')
    → Consistent rs cs ths
    → Consistent rs (insert (x.review_id, x.id) x cs) (insert (x.review_id, x.thread_id) th' ths)
unfolding insert
put-Consistent x th' rec rs cs ths fresh live keys is_thread here old c = record {
  comment_map = insert-IsMap (x.review_id, x.id) x cs c.comment_map;
  review_keys = c.review_keys;
  comment_keys = λ j d y q. elim (pair_cases x.review_id x.id j d x y cs q) [
    | inl (a, b, e) ↦ (sym (ap (λ z. z.review_id) e) ∙ a, sym (ap (λ z. z.id) e) ∙ b)
    | inr b ↦ c.comment_keys j d y b
  ];
  thread_keys = (keys, All-remove KeyOf (x.review_id, x.thread_id) ths c.thread_keys);
  placed = λ j d y q. elim (pair_cases x.review_id x.id j d x y cs q) [
    | inl (a, b, e) ↦
        subst
          (λ z.
            (th : Thread) × (get (z.0, z.2) (insert (x.review_id, x.thread_id) th' ths) ≡ some th)
            × Member z.1 th)
          (triple_eq a b (ap (λ z. z.thread_id) e))
          (th', get-insert_self (x.review_id, x.thread_id) th' ths, here)
    | inr b ↦
        let (th, l, m) = c.placed j d y b in
        pair_keeps (λ z. Member d z) x.review_id x.thread_id j y.thread_id th' th ths l m
          (λ p p'. old th d (ground (arith, p, p', l)) m)
  ];
  members = λ j k th q. elim (pair_cases x.review_id x.thread_id j k th' th ths q) [
    | inl (a, b, e) ↦ move_thread _ a b e is_thread
    | inr b ↦
        let (e, m) = c.members j k th b in
        (
          e,
          All-Known-insert x.review_id x.id x cs j k (th.root ∷ th.replies)
              (λ d known p q'.
                let (y, z, w) = known in
                let clash : none ≡ some y = ground (arith, p, q', fresh, z) in
                absurd (ground arith))
              m,
        )
  ];
  owned = λ j k th q. elim (pair_cases x.review_id x.thread_id j k th' th ths q) [
    | inl (a, b, e) ↦ move_owner rs a (rec, live)
    | inr b ↦ c.owned j k th b
  ];
}
