-- ===== src/Store/Comments/Effects.antt =====
-- comments.rs: the state machine of threads, and whose comments an event may touch.
use mathlib.Core.Path.{subst}
use nits.Prelude.{
  ℕ, ◌≡◌, ◌⊎◌, refl, sym, ap, ◌∙◌, some, List, arith, inl, inr, false, nat_eq, pair_eq,
}
use nits.Prelude.Maps.{get}
use nits.Store.Events.{Comment, Thread}
use nits.Store.Views.{Tables, is_deleted}
use nits.Store.Core.{Ctx}
use nits.Store.Consistent.{pair_keeps}
use nits.Store.Comments.Rules.{Command, Step}
use nits.Store.Comments.Changes.{Change, creates, writes, settles, SameOrigin}

same_key :
    {V : Type 0} (m : List ((ℕ × ℕ) × V)) {r c j d : ℕ} {x y : V}
    → r ≡ j
    → c ≡ d
    → get (r, c) m ≡ some x
    → get (j, d) m ≡ some y
    → x ≡ y
same_key m p q g l = ground (arith, p, q, g, l)

-- A thread that was there keeps its root, and its resolution unless the command takes a step.
abbrev pub ThreadAfter : Ctx → Command → Tables → ℕ → ℕ → Thread → Type 0
ThreadAfter ctx k t' r h x =
    (y : Thread) × (get (r, h) t'.threads ≡ some y)
    × (y.root ≡ x.root)
    × ((y.resolution ≡ x.resolution) ⊎ Step ctx r h k x.resolution y.resolution)

pub Change-ThreadAfter :
    (ctx : Ctx) (k : Command) (t t' : Tables) (r h : ℕ) (x : Thread)
    → get (r, h) t.threads ≡ some x
    → Change ctx k t t'
    → ThreadAfter ctx k t' r h x
Change-ThreadAfter ctx k t t' r h x q (creates c th f e g same) =
    let P : Thread → Type 0 = λ y. (y.root ≡ x.root) × (y.resolution ≡ x.resolution) in
    let (y, l, p) =
      pair_keeps P c.review_id c.thread_id r h th x t.threads q (refl, refl)
        (λ a b. let (s, o) = same x (ground (arith, a, b, q)) in (o, s)) in
    (y, ap (λ m. get (r, h) m) g ∙ l, p.0, inl p.1)
Change-ThreadAfter ctx k t t' r h x q (writes j d y new g own e same) =
    (x, ap (λ m. get (r, h) m) same ∙ q, refl, inl refl)
Change-ThreadAfter ctx k t t' r h x q (settles j d y new g (st, o) e same) =
    let P : Thread → Type 0 = λ z.
      (z.root ≡ x.root)
      × ((z.resolution ≡ x.resolution) ⊎ Step ctx r h k x.resolution z.resolution) in
    let (z, l, p) =
      pair_keeps P j d r h new x t.threads q (refl, inl refl)
        (λ a b.
          let was : y ≡ x = same_key t.threads a b g q in
          let here : Step ctx r h k y.resolution new.resolution =
            subst (λ d'. Step ctx r d' k y.resolution new.resolution) b
              (subst (λ j'. Step ctx j' d k y.resolution new.resolution) a st) in
          (
            o ∙ ap (λ w. w.root) was,
            inr (subst (λ w. Step ctx r h k w.resolution new.resolution) was here),
          )) in
    (z, ap (λ m. get (r, h) m) e ∙ l, p.0, p.1)

-- A comment keeps its origin, and is unchanged unless it was live and is the caller's.
abbrev pub CommentAfter : Ctx → Tables → ℕ → ℕ → Comment → Type 0
CommentAfter ctx t' r c x =
    (y : Comment) × (get (r, c) t'.comments ≡ some y)
    × SameOrigin x y
    × ((y ≡ x) ⊎ ((is_deleted x.state ≡ false) × (x.author ≡ ctx.author)))

pub Change-CommentAfter :
    (ctx : Ctx) (k : Command) (t t' : Tables) (r c : ℕ) (x : Comment)
    → get (r, c) t.comments ≡ some x
    → Change ctx k t t'
    → CommentAfter ctx t' r c x
Change-CommentAfter ctx k t t' r c x q (settles j d y new g st e same) =
    (x, ap (λ m. get (r, c) m) same ∙ q, (refl, refl, refl, refl, refl, refl), inl refl)
Change-CommentAfter ctx k t t' r c x q (creates n th f e g _) =
    let P : Comment → Type 0 = λ y. y ≡ x in
    let (y, l, p) =
      pair_keeps P n.review_id n.id r c n x t.comments q refl
        (λ a b. absurd (ground (arith, a, b, q, f))) in
    (
      y,
      ap (λ m. get (r, c) m) e ∙ l,
      subst (λ z. SameOrigin x z) (sym p) (refl, refl, refl, refl, refl, refl),
      inl p,
    )
Change-CommentAfter ctx k t t' r c x q (writes j d y new g (del, own, origin) e _) =
    let P : Comment → Type 0 =
      λ z. SameOrigin x z × ((z ≡ x) ⊎ ((is_deleted x.state ≡ false) × (x.author ≡ ctx.author))) in
    let (z, l, p) =
      pair_keeps P j d r c new x t.comments q ((refl, refl, refl, refl, refl, refl), inl refl)
        (λ a b.
          let was : y ≡ x = same_key t.comments a b g q in
          subst
            (λ w.
              SameOrigin w new
              × ((new ≡ w) ⊎ ((is_deleted w.state ≡ false) × (w.author ≡ ctx.author))))
            was (origin, inr (del, own))) in
    (z, ap (λ m. get (r, c) m) e ∙ l, p.0, p.1)
