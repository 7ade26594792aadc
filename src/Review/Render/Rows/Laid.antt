-- ===== src/Review/Render/Rows/Laid.antt =====
-- render/mod.rs: the groups hold every hunk, and their blocks lie in order between the changes.
use mathlib.Core.Path.{subst}
use mathlib.Core.List.{append_assoc}
use nits.Prelude.{
  ℕ, ◌+◌, ◌-◌, ◌*◌, ◌≤◌, ◌≡◌, refl, sym, ap, ◌∙◌, inl, inr, arith, leb, List, [], ◌∷◌, ◌++◌, length,
  Bool-cases,
}
use nits.Protocol.Gaps.{GapExpansion}
use nits.Review.Anchor.{Hunk}
use nits.Review.Render.Lines.{Line}
use nits.Review.Render.Rows.{Group, Window, Block, hunks_of, group_last, last_of}
use nits.Review.Render.Rows.Layout.{
  group_from, next_change, add_hunk, window_of, windows_from, block_of, add_group, blocks_from,
  blocks_of,
}
use nits.Review.Render.Rows.Shows.{Equal, Equal-part}

abbrev pub next_hunk : ℕ → List Hunk → ℕ
next_hunk len [] = len
next_hunk len (h ∷ hs) = h.before_start

abbrev pub group_hunks : List Group → List Hunk
group_hunks [] = []
group_hunks (g ∷ gs) = hunks_of g ++ group_hunks gs

abbrev pub block_hunks : List Block → List Hunk
block_hunks [] = []
block_hunks (b ∷ bs) = (b.first ∷ b.rest) ++ block_hunks bs

-- Grouping keeps every hunk, in order.
pub group_hunks-group_from :
    (ctx : ℕ) (hs : List Hunk) (g : Group) → group_hunks (group_from ctx g hs) ≡ hunks_of g ++ hs
unfolding group_from
group_hunks-group_from ctx [] g = refl
group_hunks-group_from ctx (h ∷ hs) g =
    elim (Bool-cases (leb (h.before_start - (group_last g).before_end) (2 * ctx))) [
      | inl near ↦
          rw (group_from, near)
            (group_hunks-group_from ctx hs (add_hunk g h) ∙ append_assoc (hunks_of g) (h ∷ []) hs)
      | inr far ↦
          rw (group_from, far)
            (ap (λ q. hunks_of g ++ q)
              (group_hunks-group_from ctx hs (record { first = h; rest = [] })))
    ]

module _ {A : Type 0} (old new : List Line) (key : Line → A) where
  -- The hunks from the lines `i` and `j` on, in order and inside the files, with equal lines
  -- between them.
  abbrev pub Valid : ℕ → ℕ → List Hunk → Type 0
  Valid i j [] =
      (i ≤ length old) × (length old + j ≡ length new + i) × Equal old new key i j (length old - i)
  Valid i j (h ∷ hs) =
      (i ≤ h.before_start)
      × (h.before_start + j ≡ h.after_start + i)
      × (h.before_start ≤ h.before_end)
      × (h.after_start ≤ h.after_end)
      × (h.before_end ≤ length old)
      × (h.after_end ≤ length new)
      × Equal old new key i j (h.before_start - i)
      × Valid h.before_end h.after_end hs

  -- The cursor may move on through equal lines.
  pub Valid-rebase :
      (hs : List Hunk) (i j i' j' : ℕ)
      → i ≤ i'
      → i' ≤ next_hunk (length old) hs
      → i' + j ≡ j' + i
      → Valid i j hs
      → Valid i' j' hs
  Valid-rebase [] i j i' j' h hn e v = (
    hn,
    omega (arith, v.1),
    Equal-part old new key i j (length old - i) i' j' (length old - i') h (omega arith) e v.2,
  )
  Valid-rebase (x ∷ hs) i j i' j' h hn e v = (
    hn,
    omega (arith, v.1),
    v.2,
    v.3,
    v.4,
    v.5,
    Equal-part old new key i j (x.before_start - i) i' j' (x.before_start - i') h (omega arith) e
        v.6,
    v.7,
  )

  -- The blocks lie in order from `oi` and `ni` on: each starts before its first change and ends
  -- behind its last one and before the next block's first.
  abbrev pub Laid : ℕ → ℕ → List Block → Type 0
  Laid oi ni [] = Unit
  Laid oi ni (b ∷ bs) =
      (oi ≤ b.head.start_o)
      × (b.head.start_o + ni ≡ b.head.start_n + oi)
      × (b.head.start_o ≤ b.first.before_start)
      × ((last_of b.first b.rest).before_end ≤ b.tail.end_o)
      × (b.tail.end_o + (last_of b.first b.rest).after_end
          ≡ b.tail.end_n + (last_of b.first b.rest).before_end)
      × (b.tail.end_o ≤ next_hunk (length old) (block_hunks bs))
      × Laid b.tail.end_o b.tail.end_n bs

  -- Each group with its window as a block of its own.
  abbrev pub singles : ℕ → List (Group × Window) → List Block
  singles index [] = []
  singles index ((g, w) ∷ gws) = block_of index g w ∷ singles (index + 1) gws

  last_of-append : (h k : Hunk) (hs ks : List Hunk) → last_of h (hs ++ k ∷ ks) ≡ last_of k ks
  last_of-append h k [] ks = refl
  last_of-append h k (x ∷ hs) ks = last_of-append x k hs ks

  -- Joining blocks that meet keeps their hunks and their order.
  pub blocks_from-Laid :
      (gws : List (Group × Window)) (index : ℕ) (b : Block) (oi ni : ℕ)
      → Laid oi ni (b ∷ singles index gws)
      → Laid oi ni (blocks_from index b gws)
        × (block_hunks (blocks_from index b gws) ≡ block_hunks (b ∷ singles index gws))
  unfolding blocks_from
  blocks_from-Laid [] index b oi ni l = (l, refl)
  blocks_from-Laid ((g, w) ∷ gws) index b oi ni l = elim (Bool-cases (leb w.start_o b.tail.end_o)) [
    | inl meet ↦
        let last = last_of-append b.first g.first b.rest g.rest in
        let joined : Laid oi ni (add_group b g w ∷ singles (index + 1) gws) = (
          l.0,
          l.1,
          l.2,
          subst (λ (x : Hunk). x.before_end ≤ w.end_o) (sym last) l.6.3,
          subst (λ (x : Hunk). w.end_o + x.after_end ≡ w.end_n + x.before_end) (sym last) l.6.4,
          l.6.5,
          l.6.6,
        ) in
        let rest = blocks_from-Laid gws (index + 1) (add_group b g w) oi ni joined in
        rw (blocks_from, meet)
          ((
            rest.0,
            rest.1
                ∙ ap (λ q. b.first ∷ q)
                    (append_assoc b.rest (hunks_of g) (block_hunks (singles (index + 1) gws))),
          ))
    | inr apart ↦
        let rest =
          blocks_from-Laid gws (index + 1) (block_of index g w) b.tail.end_o b.tail.end_n l.6 in
        rw (blocks_from, apart)
          ((
            (
              l.0,
              l.1,
              l.2,
              l.3,
              l.4,
              subst (λ hs. b.tail.end_o ≤ next_hunk (length old) hs) (sym rest.1) l.5,
              rest.0,
            ),
            ap (λ q. (b.first ∷ b.rest) ++ q) rest.1,
          ))
  ]

  pub Valid-next : (i j : ℕ) (hs : List Hunk) → Valid i j hs → i ≤ next_hunk (length old) hs
  Valid-next i j [] v = v.0
  Valid-next i j (h ∷ hs) v = v.0

  -- What is left behind a group's last hunk.
  pub Valid-rest :
      (h : Hunk) (hs ks : List Hunk) (i j : ℕ)
      → Valid i j (h ∷ (hs ++ ks))
      → ((last_of h hs).before_end ≤ length old)
        × Valid (last_of h hs).before_end (last_of h hs).after_end ks
  Valid-rest h [] ks i j v = (v.4, v.7)
  Valid-rest h (x ∷ hs) ks i j v = Valid-rest x hs ks h.before_end h.after_end v.7

  next_change-group_hunks :
      (len : ℕ) (gs : List Group) → next_change len gs ≡ next_hunk len (group_hunks gs)
  next_change-group_hunks len [] = refl
  next_change-group_hunks len (g ∷ gs) = refl

  -- The windows of groups of a diff, each a block of its own.
  pub windows_from-Laid :
      (ctx : ℕ) (expanded : List GapExpansion) (gs : List Group) (index oi ni : ℕ)
      → Valid oi ni (group_hunks gs)
      → Laid oi ni (singles index (windows_from (length old) ctx expanded index oi ni gs))
        × (block_hunks (singles index (windows_from (length old) ctx expanded index oi ni gs))
            ≡ group_hunks gs)
  unfolding windows_from
  windows_from-Laid ctx expanded [] index oi ni v = (tt, refl)
  windows_from-Laid ctx expanded (g ∷ gs) index oi ni v =
      let last = group_last g in
      let left = Valid-rest g.first g.rest (group_hunks gs) oi ni v in
      let w = window_of (length old) ctx expanded index oi ni g gs in
      let next : next_change (length old) gs ≡ next_hunk (length old) (group_hunks gs) =
        next_change-group_hunks (length old) gs in
      let ahead : last.before_end ≤ next_hunk (length old) (group_hunks gs) =
        Valid-next last.before_end last.after_end (group_hunks gs) left.1 in
      let behind : last.before_end ≤ w.end_o = omega (arith, left.0) in
      let inside : w.end_o ≤ next_hunk (length old) (group_hunks gs) = omega arith in
      let same : w.end_o + last.after_end ≡ w.end_n + last.before_end = omega arith in
      let rest = windows_from-Laid ctx expanded gs (index + 1) w.end_o w.end_n (
        Valid-rebase (group_hunks gs) last.before_end last.after_end w.end_o w.end_n behind inside
          same left.1) in
      (
        (
          omega arith,
          omega arith,
          omega (arith, v.0),
          behind,
          same,
          subst (λ hs. w.end_o ≤ next_hunk (length old) hs) (sym rest.1) inside,
          rest.0,
        ),
        ap (λ q. hunks_of g ++ q) rest.1,
      )

  -- The blocks that `build_rows` shows.
  pub blocks_of-Laid :
      (ctx : ℕ) (expanded : List GapExpansion) (gs : List Group)
      → Valid 0 0 (group_hunks gs)
      → Laid 0 0 (blocks_of (windows_from (length old) ctx expanded 0 0 0 gs))
        × (block_hunks (blocks_of (windows_from (length old) ctx expanded 0 0 0 gs))
            ≡ group_hunks gs)
  unfolding blocks_of windows_from
  blocks_of-Laid ctx expanded [] v = (tt, refl)
  blocks_of-Laid ctx expanded (g ∷ gs) v =
      let w = window_of (length old) ctx expanded 0 0 0 g gs in
      let alone = windows_from-Laid ctx expanded (g ∷ gs) 0 0 0 v in
      let joined =
        blocks_from-Laid (windows_from (length old) ctx expanded 1 w.end_o w.end_n gs) 1
          (block_of 0 g w) 0 0 alone.0 in
      (joined.0, joined.1 ∙ alone.1)
