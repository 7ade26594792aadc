-- ===== src/Store/Index/Writes.antt =====
-- store/views.rs: each way to write a comment keeps the index right.
use mathlib.Core.Path.{subst}
use nits.Prelude.{
  ℕ, ◌≡◌, ◌≢◌, ◌⊎◌, ◌↔◌, if◌then◌else◌, refl, sym, ap, ◌∙◌, false, Option, none, some, arith, inl,
  inr, nat_eq, pair_eq, Bool-cases, some_inj, ◌==◌, ==_iff,
}
use nits.Prelude.Maps.{
  get, insert, get-insert_self, get-insert_other, get-insert_cases, get-remove_other,
  get-remove_inv, IsMap, insert-IsMap, remove-IsMap,
}
use nits.Store.Events.{Comment}
use nits.Store.Views.{anchor_key, is_deleted}
use nits.Store.Consistent.{Comments, pair_cases, pair_keeps}
use nits.Store.Index.{Anchors, Indexed, with_anchor, without_anchor}

was_there :
    (r c : ℕ) (x new : Comment) (cs : Comments)
    → get (r, c) cs ≡ some x
    → (q d : ℕ) (y : Comment) → get (q, d) (insert (r, c) new cs) ≡ some y
    → (w : Comment) × (get (q, d) cs ≡ some w)
was_there r c x new cs g q d y l = elim (pair_cases r c q d new y cs l) [
  | inl (a, b, e) ↦ (x, ground (arith, a, b, g))
  | inr l' ↦ (y, l')
]

one_review-insert :
    (r c : ℕ) (x new : Comment) (cs : Comments) (index : Anchors)
    → get (r, c) cs ≡ some x
    → Indexed cs index
    → (q p d : ℕ) (y z : Comment) → get (q, d) (insert (r, c) new cs) ≡ some y
    → get (p, d) (insert (r, c) new cs) ≡ some z
    → q ≡ p
one_review-insert r c x new cs index g h q p d y z l m =
    let (u, a) = was_there r c x new cs g q d y l in
    let (v, b) = was_there r c x new cs g p d z m in h.one_review q p d u v a b

-- A comment whose anchor and state stay.
pub edit-Indexed :
    (r c : ℕ) (x new : Comment) (cs : Comments) (index : Anchors)
    → get (r, c) cs ≡ some x
    → new.anchor ≡ x.anchor
    → new.state ≡ x.state
    → Indexed cs index
    → Indexed (insert (r, c) new cs) index
edit-Indexed r c x new cs index g a s h = record {
  is_map = h.is_map;
  entries = λ k q d e.
      let (y, l, del, key) = h.entries k q d e in
      let (z, m, p) =
        pair_keeps (λ w. (is_deleted w.state ≡ false) × (anchor_key w.anchor ≡ some k)) r c q d new
          y cs l (del, key)
          (λ b b'.
            let same : x ≡ y = ground (arith, b, b', g, l) in
            (rw (s, same) del, rw (a, same) key)) in
      (z, m, p.0, p.1);
  complete = λ k q d (y, l, del, key). elim (pair_cases r c q d new y cs l) [
    | inl (b, b', e) ↦ h.complete k q d (
      x,
      ground (arith, b, b', g),
      subst (λ w. is_deleted w ≡ false) s (subst (λ w. is_deleted w.state ≡ false) (sym e) del),
      subst (λ w. anchor_key w ≡ some k) a (subst (λ w. anchor_key w.anchor ≡ some k) (sym e) key),
    )
    | inr l' ↦ h.complete k q d (y, l', del, key)
  ];
  one_review = one_review-insert r c x new cs index g h;
}

with_anchor-IsMap :
    (r c : ℕ) (o : Option (ℕ × ℕ)) (m : Anchors) → IsMap m → IsMap (with_anchor r c o m)
with_anchor-IsMap r c none m h = h
with_anchor-IsMap r c (some k) m h = insert-IsMap (k, c) r m h

without_anchor-IsMap :
    (c : ℕ) (o : Option (ℕ × ℕ)) (m : Anchors) → IsMap m → IsMap (without_anchor c o m)
without_anchor-IsMap c none m h = h
without_anchor-IsMap c (some k) m h = remove-IsMap (k, c) m h

key_ne : {a b : ℕ × ℕ} {c d : ℕ} → a ≢ b ⊎ c ≢ d → ◌≢◌ {A = (ℕ × ℕ) × ℕ} (a, c) (b, d)
key_ne (inl n) e = n (ap (λ x. x.0) e)
key_ne (inr n) e = n (ap (λ x. x.1) e)

get-without_anchor :
    (c : ℕ) (o : Option (ℕ × ℕ)) (m : Anchors) (k : ℕ × ℕ) (d r : ℕ)
    → get (k, d) (without_anchor c o m) ≡ some r
    → (get (k, d) m ≡ some r) × (c ≡ d → o ≢ some k)
get-without_anchor c none m k d r h = (h, λ p e. absurd (ground arith))
get-without_anchor c (some j) m k d r h =
    let (n, l) = get-remove_inv (j, c) (k, d) r m h in (l, λ p e. n (ground (arith, p, some_inj e)))

get-without_anchor_other :
    (c : ℕ) (o : Option (ℕ × ℕ)) (m : Anchors) (k : ℕ × ℕ) (d : ℕ)
    → c ≢ d
    → get (k, d) (without_anchor c o m) ≡ get (k, d) m
get-without_anchor_other c none m k d n = refl
get-without_anchor_other c (some j) m k d n = get-remove_other (j, c) (k, d) m (key_ne (inr n))

get-with_anchor :
    (r c : ℕ) (o : Option (ℕ × ℕ)) (m : Anchors) (k : ℕ × ℕ) (d q : ℕ)
    → get (k, d) (with_anchor r c o m) ≡ some q
    → ((o ≡ some k) × (c ≡ d) × (r ≡ q)) ⊎ (get (k, d) m ≡ some q)
get-with_anchor r c none m k d q h = inr h
get-with_anchor r c (some j) m k d q h = elim (get-insert_cases (j, c) (k, d) r q m h) [
  | inl (a, b) ↦ inl (ap (λ x. some x.0) a, ap (λ x. x.1) a, b)
  | inr (a, b) ↦ inr b
]

get-with_anchor_other :
    (r c : ℕ) (o : Option (ℕ × ℕ)) (m : Anchors) (k : ℕ × ℕ) (d : ℕ)
    → c ≢ d
    → get (k, d) (with_anchor r c o m) ≡ get (k, d) m
get-with_anchor_other r c none m k d n = refl
get-with_anchor_other r c (some j) m k d n = get-insert_other (j, c) (k, d) r m (key_ne (inr n))

get-with_anchor_self :
    (r c : ℕ) (o : Option (ℕ × ℕ)) (m : Anchors) (k : ℕ × ℕ)
    → o ≡ some k
    → get (k, c) (with_anchor r c o m) ≡ some r
get-with_anchor_self r c none m k h = absurd (ground arith)
get-with_anchor_self r c (some j) m k h =
    ap (λ x. get (x, c) (insert (j, c) r m)) (sym (some_inj h)) ∙ get-insert_self (j, c) r m

-- The blob that a comment is indexed under, if it is not deleted.
abbrev pub indexed_key : Comment → Option (ℕ × ℕ)
indexed_key x = if is_deleted x.state then none else anchor_key x.anchor

indexed_key_lem :
    (x : Comment) (k : ℕ × ℕ)
    → (indexed_key x ≡ some k) ↔ ((is_deleted x.state ≡ false) × (anchor_key x.anchor ≡ some k))
indexed_key_lem x k = elim (Bool-cases (is_deleted x.state)) [
  | inl b ↦ rw b (ground arith)
  | inr b ↦ rw b (ground arith)
]

found :
    (r c : ℕ) (new : Comment) (q d : ℕ) (y : Comment) (k : ℕ × ℕ) (m : Anchors)
    → r ≡ q
    → c ≡ d
    → new ≡ y
    → is_deleted y.state ≡ false
    → anchor_key y.anchor ≡ some k
    → get (k, d) (with_anchor r c (indexed_key new) m) ≡ some q
found r c new q d y k m a b e del key =
    let own = (indexed_key_lem new k).1 (
      subst (λ w. is_deleted w.state ≡ false) (sym e) del,
      subst (λ w. anchor_key w.anchor ≡ some k) (sym e) key,
    ) in
    let there = get-with_anchor_self r c (indexed_key new) m k own in ground (arith, a, b, there)

-- A comment is written anew: its old entry goes, and it gets one for its new anchor.
pub rewrite-Indexed :
    (r c : ℕ) (x new : Comment) (cs : Comments) (index : Anchors)
    → get (r, c) cs ≡ some x
    → Indexed cs index
    → Indexed
        (insert (r, c) new cs)
        (with_anchor r c (indexed_key new) (without_anchor c (anchor_key x.anchor) index))
rewrite-Indexed r c x new cs index g h = record {
  is_map =
      with_anchor-IsMap r c (indexed_key new) _
        (without_anchor-IsMap c (anchor_key x.anchor) index h.is_map);
  entries = λ k q d e.
      elim (get-with_anchor r c (indexed_key new) (without_anchor c (anchor_key x.anchor) index) k d
        q e) [
          | inl (key, a, b) ↦
              let (del, key') = (indexed_key_lem new k).0 key in
              (new, ground (arith, a, b, get-insert_self (r, c) new cs), del, key')
          | inr e' ↦
              let (l, n) = get-without_anchor c (anchor_key x.anchor) index k d q e' in
              let (y, m, del, key) = h.entries k q d l in
              let (z, m', p) =
                pair_keeps (λ w. w ≡ y) r c q d new y cs m refl
                  (λ a b.
                    let same : x ≡ y = ground (arith, a, b, g, m) in
                    absurd (n b (ap (λ w. anchor_key w.anchor) same ∙ key))) in
              (
                z,
                m',
                subst (λ w. is_deleted w.state ≡ false) (sym p) del,
                subst (λ w. anchor_key w.anchor ≡ some k) (sym p) key,
              )
        ];
  complete = λ k q d (y, l, del, key). elim (Bool-cases (c == d)) [
    | inl b ↦
        let same : c ≡ d = (==_iff c d).0 b in
        let (w, m) = was_there r c x new cs g q d y l in
        let here : r ≡ q = h.one_review r q d x w (ground (arith, same, g)) m in
        let self : new ≡ y = ground (arith, here, same, l, get-insert_self (r, c) new cs) in
        found r c new q d y k _ here same self del key
    | inr b ↦
        let apart : c ≢ d = λ e. absurd (ground (arith, e, b)) in
        elim (pair_cases r c q d new y cs l) [
          | inl (e, e', _) ↦ absurd (apart e')
          | inr l' ↦
              get-with_anchor_other r c (indexed_key new) _ k d apart
              ∙ (get-without_anchor_other c (anchor_key x.anchor) index k d apart
                  ∙ h.complete k q d (y, l', del, key))
        ]
  ];
  one_review = one_review-insert r c x new cs index g h;
}

-- A new comment whose id is of no review.
pub create-Indexed :
    (r c : ℕ) (new : Comment) (cs : Comments) (index : Anchors)
    → ((q : ℕ) → get (q, c) cs ≡ none)
    → Indexed cs index
    → Indexed (insert (r, c) new cs) (with_anchor r c (indexed_key new) index)
create-Indexed r c new cs index fresh h = record {
  is_map = with_anchor-IsMap r c (indexed_key new) index h.is_map;
  entries = λ k q d e. elim (get-with_anchor r c (indexed_key new) index k d q e) [
    | inl (key, a, b) ↦
        let (del, key') = (indexed_key_lem new k).0 key in
        (new, ground (arith, a, b, get-insert_self (r, c) new cs), del, key')
    | inr e' ↦
        let (y, m, del, key) = h.entries k q d e' in
        let (z, m', p) =
          pair_keeps (λ w. w ≡ y) r c q d new y cs m refl
            (λ a b. absurd (ground (arith, b, m, fresh q))) in
        (
          z,
          m',
          subst (λ w. is_deleted w.state ≡ false) (sym p) del,
          subst (λ w. anchor_key w.anchor ≡ some k) (sym p) key,
        )
  ];
  complete = λ k q d (y, l, del, key). elim (pair_cases r c q d new y cs l) [
    | inl (a, b, e) ↦ found r c new q d y k index a b e del key
    | inr l' ↦
        let apart : c ≢ d = λ e. absurd (ground (arith, e, l', fresh q)) in
        get-with_anchor_other r c (indexed_key new) index k d apart
        ∙ h.complete k q d (y, l', del, key)
  ];
  one_review = λ q p d y z l m. elim (pair_cases r c q d new y cs l) [
    | inl (a, b, _) ↦ elim (pair_cases r c p d new z cs m) [
      | inl (a', _, _) ↦ sym a ∙ a'
      | inr m' ↦ absurd (ground (arith, b, m', fresh p))
    ]
    | inr l' ↦ elim (pair_cases r c p d new z cs m) [
      | inl (_, b', _) ↦ absurd (ground (arith, b', l', fresh q))
      | inr m' ↦ h.one_review q p d y z l' m'
    ]
  ];
}
