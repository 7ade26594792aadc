-- ===== src/Review/Render/Rows/Gapped.antt =====
-- render/mod.rs, `build_rows`: the gaps of the expanders ascend.
use nits.Prelude.{
  ℕ, suc, ◌+◌, ◌-◌, ◌*◌, ◌≤◌, ◌<◌, ◌≡◌, refl, inl, inr, arith, leb, ◌==◌, Bool-cases, List, [], ◌∷◌,
  ◌++◌, length,
}
use nits.Protocol.Lines.{u32_mod}
use nits.Protocol.Gaps.{ExpandDir, GapExpansion}
use nits.Review.Anchor.{Hunk}
use nits.Review.Render.Rows.{
  Row, hunk_header_row, context, removed, added, modified, expander, whitespace_only, to_u32, Group,
  Window, Block, group_last,
}
use nits.Review.Render.Rows.Layout.{
  group_from, add_hunk, windows_from, window_of, blocks_from, blocks_of, block_of, add_group,
}
use nits.Review.Render.Rows.Emit.{expander_rows}

module _ {S : Type 0} where
  -- The gaps of the expanders strictly ascend, from `lo` on and below `hi`.
  abbrev pub Gapped : ℕ → ℕ → List (Row S) → Type 0
  Gapped lo hi [] = lo ≤ hi
  Gapped lo hi (expander _ _ gap ∷ rows) = (lo ≤ gap) × Gapped (gap + 1) hi rows
  Gapped lo hi (hunk_header_row _ ∷ rows) = Gapped lo hi rows
  Gapped lo hi (context _ _ ∷ rows) = Gapped lo hi rows
  Gapped lo hi (removed _ ∷ rows) = Gapped lo hi rows
  Gapped lo hi (added _ ∷ rows) = Gapped lo hi rows
  Gapped lo hi (modified _ _ ∷ rows) = Gapped lo hi rows
  Gapped lo hi (whitespace_only ∷ rows) = Gapped lo hi rows

  Gapped-lower : (xs : List (Row S)) (lo lo' hi : ℕ) → lo ≤ lo' → Gapped lo' hi xs → Gapped lo hi xs
  Gapped-lower [] lo lo' hi h g = omega arith
  Gapped-lower (expander _ _ gap ∷ xs) lo lo' hi h g = (omega (arith, g.0), g.1)
  Gapped-lower (hunk_header_row _ ∷ xs) lo lo' hi h g = Gapped-lower xs lo lo' hi h g
  Gapped-lower (context _ _ ∷ xs) lo lo' hi h g = Gapped-lower xs lo lo' hi h g
  Gapped-lower (removed _ ∷ xs) lo lo' hi h g = Gapped-lower xs lo lo' hi h g
  Gapped-lower (added _ ∷ xs) lo lo' hi h g = Gapped-lower xs lo lo' hi h g
  Gapped-lower (modified _ _ ∷ xs) lo lo' hi h g = Gapped-lower xs lo lo' hi h g
  Gapped-lower (whitespace_only ∷ xs) lo lo' hi h g = Gapped-lower xs lo lo' hi h g

  pub Gapped-append :
      (xs ys : List (Row S)) (lo mid hi : ℕ)
      → Gapped lo mid xs
      → Gapped mid hi ys
      → Gapped lo hi (xs ++ ys)
  Gapped-append [] ys lo mid hi g k = Gapped-lower ys lo mid hi g k
  Gapped-append (expander _ _ gap ∷ xs) ys lo mid hi g k =
      (g.0, Gapped-append xs ys (gap + 1) mid hi g.1 k)
  Gapped-append (hunk_header_row _ ∷ xs) ys lo mid hi g k = Gapped-append xs ys lo mid hi g k
  Gapped-append (context _ _ ∷ xs) ys lo mid hi g k = Gapped-append xs ys lo mid hi g k
  Gapped-append (removed _ ∷ xs) ys lo mid hi g k = Gapped-append xs ys lo mid hi g k
  Gapped-append (added _ ∷ xs) ys lo mid hi g k = Gapped-append xs ys lo mid hi g k
  Gapped-append (modified _ _ ∷ xs) ys lo mid hi g k = Gapped-append xs ys lo mid hi g k
  Gapped-append (whitespace_only ∷ xs) ys lo mid hi g k = Gapped-append xs ys lo mid hi g k

pub expander_rows-Gapped :
    (S : Type 0) (hidden lo gap : ℕ) (dir : ExpandDir)
    → lo ≤ gap
    → gap < u32_mod
    → Gapped {S = S} lo (gap + 1) (expander_rows {S = S} hidden dir gap)
expander_rows-Gapped S hidden lo gap dir h small = elim (Bool-cases (hidden == 0)) [
  | inl none_hidden ↦ rw none_hidden (omega arith)
  | inr some_hidden ↦
      let whole : to_u32 gap ≡ gap = ground arith in rw (some_hidden, whole) ((h, omega arith))
]

-- The indexes of the blocks ascend in the same way.
abbrev pub Indexed : ℕ → ℕ → List Block → Type 0
Indexed lo hi [] = lo ≤ hi
Indexed lo hi (b ∷ bs) = (lo ≤ b.index) × Indexed (b.index + 1) hi bs

blocks_from-Indexed :
    (gws : List (Group × Window)) (index : ℕ) (b : Block) (lo hi : ℕ)
    → lo ≤ b.index
    → b.index < index
    → index + length gws ≤ hi
    → Indexed lo hi (blocks_from index b gws)
unfolding blocks_from
blocks_from-Indexed [] index b lo hi h k e = (h, omega arith)
blocks_from-Indexed ((g, w) ∷ gws) index b lo hi h k e =
    elim (Bool-cases (leb w.start_o b.tail.end_o)) [
      | inl meet ↦
          rw (blocks_from, meet)
            (blocks_from-Indexed gws (index + 1) (add_group b g w) lo hi h (omega arith)
              (omega arith))
      | inr apart ↦
          rw (blocks_from, apart)
            ((
              h,
              blocks_from-Indexed gws (index + 1) (block_of index g w) (b.index + 1) hi
                  (omega arith) (omega arith) (omega arith),
            ))
    ]

length-windows_from :
    (len ctx : ℕ) (expanded : List GapExpansion) (gs : List Group) (index oi ni : ℕ)
    → length (windows_from len ctx expanded index oi ni gs) ≡ length gs
unfolding windows_from
length-windows_from len ctx expanded [] index oi ni = refl
length-windows_from len ctx expanded (g ∷ gs) index oi ni =
    let w = window_of len ctx expanded index oi ni g gs in
    omega (arith, length-windows_from len ctx expanded gs (index + 1) w.end_o w.end_n)

pub length-group_from :
    (ctx : ℕ) (hs : List Hunk) (g : Group) → length (group_from ctx g hs) ≤ suc (length hs)
unfolding group_from
length-group_from ctx [] g = omega arith
length-group_from ctx (h ∷ hs) g =
    elim (Bool-cases (leb (h.before_start - (group_last g).before_end) (2 * ctx))) [
      | inl near ↦ rw (group_from, near) (omega (arith, length-group_from ctx hs (add_hunk g h)))
      | inr far ↦
          rw (group_from, far)
            (omega (arith, length-group_from ctx hs (record { first = h; rest = [] })))
    ]

pub Indexed-le : (bs : List Block) (lo hi : ℕ) → Indexed lo hi bs → lo ≤ hi
Indexed-le [] lo hi i = i
Indexed-le (b ∷ bs) lo hi i = omega (arith, i.0, Indexed-le bs (b.index + 1) hi i.1)

pub blocks_of-Indexed :
    (len ctx : ℕ) (expanded : List GapExpansion) (gs : List Group)
    → Indexed 0 (length gs) (blocks_of (windows_from len ctx expanded 0 0 0 gs))
unfolding blocks_of windows_from
blocks_of-Indexed len ctx expanded [] = omega arith
blocks_of-Indexed len ctx expanded (g ∷ gs) =
    let w = window_of len ctx expanded 0 0 0 g gs in
    blocks_from-Indexed (windows_from len ctx expanded 1 w.end_o w.end_n gs) 1 (block_of 0 g w) 0
      (suc (length gs)) (omega arith) (omega arith)
      (omega (arith, length-windows_from len ctx expanded gs 1 w.end_o w.end_n))
