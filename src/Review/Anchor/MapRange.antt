-- ===== src/Review/Anchor/MapRange.antt =====
-- anchor.rs: `map_range` maps a range of lines to the same lines of the new blob.
use nits.Prelude.{
  ℕ, ◌+◌, ◌-◌, ◌≤◌, ◌<◌, ◌≡◌, refl, sym, ap, ◌∙◌, inl, inr, true, false, some, List, [], ◌∷◌,
  length, get_elem?, ltb, leb, if◌then◌else◌, arith, ok, Bool-cases, Option-cases, some_inj,
  lt-length_of_some, get_elem?-some, All,
}
use mathlib.Core.Path.{subst}
use nits.Prelude.Int.{ℤ, pos, pos_part, neg_part, eq_of_parts, ◌+ℤ◌, int_laws, +ℤ_parts}
use nits.Protocol.Lines.{
  u32_mod, LineRange, index, from_index, line_range, IsLineRange, index-from_index,
}
use nits.Protocol.Domain.{Text}
use nits.Review.Diff.{SameRows, IsDiff}
use nits.Review.Anchor.{
  Hunk, walk_hunks, shift, place_range, to_u32, map_range, touches, splits, lies_before,
}

shift_parts :
    (h : Hunk)
    → pos_part (shift h) + h.after_start + h.before_end
      ≡ neg_part (shift h) + h.after_end + h.before_start
unfolding shift
shift_parts h = omega int_laws

SameRows-part :
    (old new : List Text) (i j n s m : ℕ)
    → i ≤ s
    → s + m ≤ i + n
    → SameRows old new i j n
    → SameRows old new s (s - i + j) m
SameRows-part old new i j n s m his hm same k hk =
    ap (get_elem? old) (omega arith)
    ∙ same (s - i + k) (omega arith)
    ∙ ap (get_elem? new) (omega arith)

-- A hunk that neither ends the loop nor makes it fail lies before the range.
passed_over :
    (h : Hunk) (s e : ℕ)
    → h.before_start ≤ h.before_end
    → ltb e h.before_start ≡ false
    → touches h s e ≡ false
    → splits h s e ≡ false
    → (lies_before h s ≡ true) × (h.before_end ≤ s)
passed_over h s e ho a b c = ground arith

module _ (old new : List Text) (s e : ℕ) where
  abbrev Settles : ℤ → Type 0
  Settles o = (t : ℕ) × (pos_part o + s ≡ neg_part o + t) × SameRows old new s t (e + 1 - s)

  settle :
      (i j n : ℕ) (offset o : ℤ)
      → i ≤ s
      → s ≤ e
      → e < i + n
      → pos_part offset + i ≡ neg_part offset + j
      → SameRows old new i j n
      → some offset ≡ some o
      → Settles o
  settle i j n offset o his hse hin ho same w =
      subst Settles (some_inj w)
        ((s - i + j, omega arith, SameRows-part old new i j n s (e + 1 - s) his (omega arith) same))

  -- The loop keeps `offset = j - i` for the rows `i` and `j` that follow the hunks behind it.
  pub walk_hunks-Settles :
      (hs : List Hunk) (i j : ℕ) (offset o : ℤ)
      → i ≤ s
      → s ≤ e
      → e < length old
      → pos_part offset + i ≡ neg_part offset + j
      → IsDiff old new i j hs
      → walk_hunks s e offset hs ≡ some o
      → Settles o
  unfolding walk_hunks
  walk_hunks-Settles [] i j offset o his hse hel ho d w =
      settle i j (length old - i) offset o his hse (omega arith) ho d.1 w
  walk_hunks-Settles (h ∷ hs) i j offset o his hse hel ho d w =
      elim (Bool-cases (ltb e h.before_start)) [
        | inl past ↦
            settle i j (h.before_start - i) offset o his hse (ground arith) ho d.4 (rw past at w)
        | inr here ↦ elim (Bool-cases (touches h s e)) [
          | inl hit ↦ absurd (cc (rw (here, hit) at w))
          | inr miss ↦ elim (Bool-cases (splits h s e)) [
            | inl hit ↦ absurd (cc (rw (here, miss, hit) at w))
            | inr whole ↦
                let (before, behind) = passed_over h s e d.2 here miss whole in
                walk_hunks-Settles hs h.before_end h.after_end (offset +ℤ shift h) o behind hse hel
                  (omega (arith, +ℤ_parts offset (shift h), shift_parts h)) d.5
                  (rw (here, miss, whole, before) at w)
          ]
        ]
      ]

-- A row that stands on both sides puts its target inside the new blob.
SameRows-lt :
    (old new : List Text) (i j n k : ℕ)
    → SameRows old new i j n
    → k < n
    → i + k < length old
    → j + k < length new
SameRows-lt old new i j n k same hk hl =
    let (a, e) = get_elem?-some old (i + k) hl in
    lt-length_of_some new (j + k) (sym (same k hk) ∙ e)

to_u32-pos : (n : ℕ) → n < u32_mod → to_u32 (pos n) ≡ some n
unfolding to_u32
to_u32-pos n h = ground arith

line_range-from_index :
    (a b : ℕ)
    → a ≤ b
    → b + 1 < u32_mod
    → line_range (from_index a) (from_index b)
      ≡ ok (record { start = from_index a; end = from_index b })
unfolding line_range from_index
line_range-from_index a b hab hb = ground arith

-- With the target known, the conversions after the loop succeed.
place_range-eq :
    (new_len s e t : ℕ) (o : ℤ)
    → s ≤ e
    → pos_part o + s ≡ neg_part o + t
    → t + (e - s) < new_len
    → new_len < u32_mod
    → place_range new_len s e o
      ≡ some (record { start = from_index t; end = from_index (t + (e - s)) })
unfolding place_range
place_range-eq new_len s e t o hse ho hn hu =
    let at_start : pos s +ℤ o ≡ pos t = eq_of_parts _ _ (omega (arith, +ℤ_parts (pos s) o)) in
    let at_end : pos e +ℤ o ≡ pos (t + (e - s)) =
      eq_of_parts _ _ (omega (arith, +ℤ_parts (pos e) o)) in
    let fits : leb new_len (t + (e - s)) ≡ false = ground arith in
    rw (
      at_start,
      at_end,
      to_u32-pos t (omega arith),
      to_u32-pos (t + (e - s)) (omega arith),
      fits,
      line_range-from_index t (t + (e - s)) (omega arith) (omega arith),
    )

-- A hunk that leaves the rows `s ..= e` whole.
abbrev pub Spares : ℕ → ℕ → Hunk → Type 0
Spares s e h = (touches h s e ≡ false) × (splits h s e ≡ false)

walk_hunks_total :
    (s e : ℕ) (hs : List Hunk) (offset : ℤ)
    → All (Spares s e) hs
    → (o : ℤ) × (walk_hunks s e offset hs ≡ some o)
unfolding walk_hunks
walk_hunks_total s e [] offset a = (offset, refl)
walk_hunks_total s e (h ∷ hs) offset a = elim (Bool-cases (ltb e h.before_start)) [
  | inl past ↦ (offset, rw past)
  | inr here ↦
      rw (here, a.0.0, a.0.1)
        (walk_hunks_total s e hs (if lies_before h s then offset +ℤ shift h else offset) a.1)
]

mapped_valid :
    (a b : ℕ)
    → a ≤ b
    → b + 1 < u32_mod
    → IsLineRange (record { start = from_index a; end = from_index b })
unfolding from_index
mapped_valid a b h hb = ground arith

module _ (diff : List Text → List Text → List Hunk) (old new : List Text) (r : LineRange) where
  -- A range that is mapped holds the same lines, as many of them, inside the new blob.
  pub record IsMapped (r' : LineRange) : Type 0 where
    pub valid : IsLineRange r'
    pub same_len : index r'.end + index r.start ≡ index r'.start + index r.end
    pub inside : index r'.end < length new
    pub same_lines :
        SameRows old new (index r.start) (index r'.start) (index r.end + 1 - index r.start)

  module _ (r_valid : IsLineRange r) (fits : length new < u32_mod)
      (real : IsDiff old new 0 0 (diff old new)) where
    in_order : index r.start ≤ index r.end
    unfolding index
    in_order = ground (arith, r_valid)

    -- The target of the range, with what the conversions need.
    landing :
        (o : ℤ)
        → index r.end < length old
        → walk_hunks (index r.start) (index r.end) (pos 0) (diff old new) ≡ some o
        → (r' : LineRange) × (place_range (length new) (index r.start) (index r.end) o ≡ some r')
          × IsMapped r'
    landing o hel w =
        let (t, ht, same) =
          walk_hunks-Settles old new (index r.start) (index r.end) (diff old new) 0 0 (pos 0) o
            (omega arith) in_order hel refl real w in
        let last = t + (index r.end - index r.start) in
        let inside : last < length new =
          SameRows-lt old new (index r.start) t (index r.end + 1 - index r.start)
            (index r.end - index r.start) same (omega (arith, in_order))
            (omega (arith, in_order)) in
        let start_index : index (from_index t) ≡ t = index-from_index t (omega arith) in
        let end_index : index (from_index last) ≡ last = index-from_index last (omega arith) in
        (
          record { start = from_index t; end = from_index last },
          place_range-eq (length new) (index r.start) (index r.end) t o in_order ht inside fits,
          record {
            valid = mapped_valid t last (omega (arith, in_order)) (omega arith);
            same_len = rw (start_index, end_index) (omega (arith, in_order));
            inside = rw end_index inside;
            same_lines = rw start_index same;
          },
        )

    -- Whatever a real diff of two blobs is, a valid range that `map_range` maps goes to a valid
    -- range of the new blob that holds the same lines, as many of them and in the same order. The
    -- new blob must have fewer than 2^32 lines.
    pub map_range-IsMapped : (r' : LineRange) → map_range diff old new r ≡ some r' → IsMapped r'
    unfolding map_range
    map_range-IsMapped r' m = elim (Bool-cases (leb (length old) (index r.end))) [
      | inl past ↦ absurd (cc (rw past at m))
      | inr inside ↦
          elim (Option-cases (walk_hunks (index r.start) (index r.end) (pos 0) (diff old new))) [
            | inl hit ↦ absurd (cc (rw (inside, hit) at m))
            | inr (o, w) ↦
                let (t, placed, mapped) = landing o (ground arith) w in
                subst IsMapped (some_inj (sym placed ∙ (rw (inside, w) at m))) mapped
          ]
    ]

    pub map_range_total :
        index r.end < length old
        → All (Spares (index r.start) (index r.end)) (diff old new)
        → (r' : LineRange) × (map_range diff old new r ≡ some r')
    unfolding map_range
    map_range_total hel spared =
        let (o, w) = walk_hunks_total (index r.start) (index r.end) (diff old new) (pos 0) spared in
        let (r', placed, mapped) = landing o hel w in
        let inside : leb (length old) (index r.end) ≡ false = ground arith in
        (r', rw (inside, w) placed)
