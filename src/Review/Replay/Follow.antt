-- ===== src/Review/Replay/Follow.antt =====
-- store/replay.rs: the pages of a window, one after another.
use mathlib.Core.Path.{subst}
use mathlib.Core.List.{append-nil, append_assoc, head-eq_of_cons-eq, tail-eq_of_cons-eq}
use nits.Prelude.{
  leb→le, ℕ, zero, suc, ◌<◌, ◌≤◌, ◌≡◌, ◌≢◌, refl, sym, ap, ◌∙◌, inl, inr, false, ◌&&◌, Option, none,
  some, List, [], ◌∷◌, ◌++◌, ltb, leb, take, drop, if◌then◌else◌, ok, err, All, arith, length,
  Bool-cases, take-append-drop, length-append,
}
use nits.Review.Replay.{
  ReplayPosition, continue_at, more, complete, ReplayPage, StoredRow, Scan, replay_cursor,
  replay_scan_limit, head_of, range_of, window, page_of, read_window, replay_page,
}
use nits.Review.Replay.Pages.{
  IsGood, Ascends, events_of, last_seq, Scans, scan_rows-Scans, events_of-append,
}

module _ {E : Type 0} where
  -- A client that reads a first page and follows its cursors; `none` if a page is an error or the
  -- rounds run out.
  unfoldable pub collect : ℕ → List (StoredRow E) → ReplayPosition → Option (List E)
  collect zero rows position = none
  collect (suc n) rows position = elim (replay_page rows position) [
    | err _ ↦ none
    | ok page ↦ elim page.progress [
      | complete ↦ some page.events
      | more a ↦ elim (replay_cursor a page.through) [
        | err _ ↦ none
        | ok c ↦ elim (collect n rows (continue_at c)) [
          | none ↦ none
          | some later ↦ some (page.events ++ later)
        ]
      ]
    ]
  ]

  All-range_of :
      (a t : ℕ) (rows : List (StoredRow E)) → All IsGood rows → All IsGood (range_of a t rows)
  unfolding range_of
  All-range_of a t [] h = tt
  All-range_of a t (r ∷ rows) h = elim (Bool-cases (ltb a r.seq && leb r.seq t)) [
    | inl e ↦ rw e ((h.0, All-range_of a t rows h.1))
    | inr e ↦ rw e (All-range_of a t rows h.1)
  ]

  All-take : (n : ℕ) (rows : List (StoredRow E)) → All IsGood rows → All IsGood (take n rows)
  All-take zero rows h = tt
  All-take (suc n) [] h = tt
  All-take (suc n) (r ∷ rows) h = (h.0, All-take n rows h.1)

  -- Below the first row the start of a range does not matter.
  pub range_of_same :
      (a b t : ℕ) (rows : List (StoredRow E))
      → a ≤ b
      → Ascends b rows
      → range_of a t rows ≡ range_of b t rows
  unfolding range_of
  range_of_same a b t [] h asc = refl
  range_of_same a b t (r ∷ rows) h asc = ground (
    arith,
    range_of_same a r.seq t rows (omega (arith, asc.0)) asc.1,
    range_of_same b r.seq t rows (omega (arith, asc.0)) asc.1,
  )

  pub range_of_head :
      (a b t : ℕ) (rows : List (StoredRow E)) (r : StoredRow E) (zs : List (StoredRow E))
      → Ascends b rows
      → range_of a t rows ≡ r ∷ zs
      → (b < r.seq) × (a < r.seq) × (r.seq ≤ t)
  unfolding range_of
  range_of_head a b t [] r zs asc h = cc
  range_of_head a b t (q ∷ rows) r zs asc h = elim (Bool-cases (ltb a q.seq && leb q.seq t)) [
    | inl e ↦
        subst (λ (x : StoredRow E). (b < x.seq) × (a < x.seq) × (x.seq ≤ t))
          (head-eq_of_cons-eq (rw e at h)) (ground (arith, asc.0))
    | inr e ↦
        let ih = range_of_head a q.seq t rows r zs asc.1 (rw e at h) in omega (arith, asc.0, ih)
  ]

  -- The range from its first row on is the rest of it.
  range_of_step :
      (a b t : ℕ) (rows : List (StoredRow E)) (r : StoredRow E) (zs : List (StoredRow E))
      → Ascends b rows
      → range_of a t rows ≡ r ∷ zs
      → range_of r.seq t rows ≡ zs
  unfolding range_of
  range_of_step a b t [] r zs asc h = cc
  range_of_step a b t (q ∷ rows) r zs asc h = elim (Bool-cases (ltb a q.seq && leb q.seq t)) [
    | inl e ↦
        let later : range_of a t rows ≡ range_of q.seq t rows =
          range_of_same a q.seq t rows (ground arith) asc.1 in
        let rest : range_of a t rows ≡ zs = tail-eq_of_cons-eq (rw e at h) in
        subst (λ (x : StoredRow E). range_of x.seq t (q ∷ rows) ≡ zs)
          (head-eq_of_cons-eq (rw e at h)) (ground (arith, later, rest))
    | inr e ↦
        let head_later = range_of_head a q.seq t rows r zs asc.1 (rw e at h) in
        ground (arith, head_later, range_of_step a q.seq t rows r zs asc.1 (rw e at h))
  ]

  range_of_append :
      (xs : List (StoredRow E)) (a b t : ℕ) (rows ys : List (StoredRow E))
      → Ascends b rows
      → range_of a t rows ≡ xs ++ ys
      → range_of (last_seq a xs) t rows ≡ ys
  unfolding last_seq
  range_of_append [] a b t rows ys asc h = h
  range_of_append (x ∷ xs) a b t rows ys asc h =
      range_of_append xs x.seq b t rows ys asc (range_of_step a b t rows x (xs ++ ys) asc h)

  last_seq-append :
      (xs ys : List (StoredRow E)) (a : ℕ) → last_seq a (xs ++ ys) ≡ last_seq (last_seq a xs) ys
  unfolding last_seq
  last_seq-append [] ys a = refl
  last_seq-append (x ∷ xs) ys a = last_seq-append xs ys x.seq

  length-cons-append : (xs ys : List (StoredRow E)) → xs ≢ [] → length ys < length (xs ++ ys)
  length-cons-append [] ys ne = absurd (ne refl)
  length-cons-append (x ∷ xs) ys ne = omega (arith, length-append xs ys)

  take_ne : (n : ℕ) (xs : List (StoredRow E)) → xs ≢ [] → take (suc n) xs ≢ []
  take_ne n [] ne = ne
  take_ne n (x ∷ xs) ne = λ q. cc

  nil_of_length : (xs : List (StoredRow E)) → length xs ≤ 0 → xs ≡ []
  nil_of_length [] h = refl
  nil_of_length (x ∷ xs) h = absurd (omega arith)

  append_none : (es : List E) → es ++ events_of [] ≡ es
  unfolding events_of
  append_none es = append-nil es

  module _ (rows : List (StoredRow E)) (b t : ℕ) (good : All IsGood rows)
      (asc : Ascends b rows) where
    -- One page of a window whose end is a row: the events of a first part of the range that is
    -- not empty, and the rest of the range after it.
    record OnePage (a : ℕ) (page : ReplayPage E) : Type 0 where
      part : List (StoredRow E)
      rest : List (StoredRow E)
      parts : range_of a t rows ≡ part ++ rest
      nonempty : part ≢ []
      reads : read_window rows (a, t) ≡ ok page
      through : page.through ≡ t
      events : page.events ≡ events_of part
      progress :
          page.progress ≡ (if leb t (last_seq a part) then complete else more (last_seq a part))

    one_page : (a : ℕ) → a < t → range_of a t rows ≢ [] → (page : ReplayPage E) × OnePage a page
    unfolding page_of read_window
    one_page a hat ne =
        let r : List (StoredRow E) = range_of a t rows in
        let s : Scan E = record { after = a; events = []; stored_bytes = 0; wire_bytes = 0 } in
        let sc : Scans (take replay_scan_limit r) s =
          scan_rows-Scans (take replay_scan_limit r) s
            (All-take replay_scan_limit r (All-range_of a t rows good)) in
        let ahead : leb t a ≡ false = ground arith in
        (
          page_of t sc.final,
          record {
            part = sc.taken;
            rest = sc.left ++ drop replay_scan_limit r;
            parts =
                sym (take-append-drop replay_scan_limit r)
                ∙ ap (λ q. q ++ drop replay_scan_limit r) (sym sc.split)
                ∙ append_assoc sc.taken sc.left (drop replay_scan_limit r);
            nonempty = sc.moves refl (take_ne 255 r ne);
            reads = rw (ahead, sc.runs, read_window);
            through = refl;
            events = sc.gathers;
            progress = rw sc.reaches;
          },
        )

    page_of_position :
        (position : ReplayPosition) (a : ℕ)
        → window position (head_of rows) ≡ ok (a, t)
        → replay_page rows position ≡ read_window rows (a, t)
    unfolding replay_page
    page_of_position position a e = rw (e, replay_page)

    continue_window :
        (a : ℕ)
        → t ≤ head_of rows
        → window (continue_at (record { after = a; through = t })) (head_of rows) ≡ ok (a, t)
    unfolding window
    continue_window a h = ground arith

    cursor_ok : (a : ℕ) → a < t → replay_cursor a t ≡ ok (record { after = a; through = t })
    unfolding replay_cursor
    cursor_ok a h = ground arith

    -- Past the last row of the window there is nothing left.
    no_rest : (a : ℕ) (rest : List (StoredRow E)) → range_of a t rows ≡ rest → t ≤ a → rest ≡ []
    no_rest a [] e h = refl
    no_rest a (r ∷ rest) e h = absurd (omega (arith, range_of_head a b t rows r rest asc e))

    window_ne : (a : ℕ) → a < t → last_seq a (range_of a t rows) ≡ t → range_of a t rows ≢ []
    unfolding last_seq
    window_ne a hat ends q = omega (arith, ends, ap (last_seq a) q)

    -- The rest of a window after a page has the same end.
    rest_ends :
        (a : ℕ) (part rest : List (StoredRow E))
        → range_of a t rows ≡ part ++ rest
        → last_seq a (range_of a t rows) ≡ t
        → last_seq (last_seq a part) rest ≡ t
    rest_ends a part rest parts ends =
        sym (last_seq-append part rest a) ∙ ap (last_seq a) (sym parts) ∙ ends

    pub collect-window :
        (n a : ℕ) (position : ReplayPosition)
        → window position (head_of rows) ≡ ok (a, t)
        → a < t
        → t ≤ head_of rows
        → last_seq a (range_of a t rows) ≡ t
        → length (range_of a t rows) ≤ n
        → collect n rows position ≡ some (events_of (range_of a t rows))
    unfolding collect
    collect-window zero a position w hat hth ends short =
        absurd (window_ne a hat ends (nil_of_length _ short))
    collect-window (suc n) a position w hat hth ends short =
        let (page, p) = one_page a hat (window_ne a hat ends) in
        let at : ℕ = last_seq a p.part in
        let onward : range_of at t rows ≡ p.rest =
          range_of_append p.part a b t rows p.rest asc p.parts in
        let whole : events_of (range_of a t rows) ≡ events_of p.part ++ events_of p.rest =
          ap events_of p.parts ∙ events_of-append p.part p.rest in
        let first : replay_page rows position ≡ ok page = page_of_position position a w ∙ p.reads in
        elim (Bool-cases (leb t at)) [
          | inl done ↦
              let nothing : p.rest ≡ [] = no_rest at p.rest onward (leb→le t at done) in
              let last : page.progress ≡ complete = p.progress ∙ (rw done) in
              rw (first, last, collect)
                (ap some (
                  p.events
                  ∙ sym (
                      whole
                      ∙ ap (λ q. events_of p.part ++ events_of q) nothing
                      ∙ append_none (events_of p.part))))
          | inr on ↦
              let next : page.progress ≡ more at = p.progress ∙ (rw on) in
              let before : at < t = ground arith in
              let fewer : length (range_of at t rows) ≤ n = omega (
                arith,
                ap length onward,
                ap length p.parts,
                length-cons-append p.part p.rest p.nonempty,
              ) in
              let later : collect n rows (continue_at (record { after = at; through = t }))
                  ≡ some (events_of (range_of at t rows)) =
                collect-window n at (continue_at (record { after = at; through = t }))
                  (continue_window at hth) before hth
                  (ap (last_seq at) onward ∙ rest_ends a p.part p.rest p.parts ends) fewer in
              rw (first, next, p.through, cursor_ok at before, later, collect)
                (ap some (cc (p.events, whole, ap events_of onward)))
        ]

  pub head_of-last_seq :
      (b : ℕ) (rows : List (StoredRow E))
      → Ascends b rows
      → rows ≢ []
      → head_of rows ≡ last_seq b rows
  unfolding head_of last_seq
  head_of-last_seq b [] asc ne = absurd (ne refl)
  head_of-last_seq b (r ∷ []) asc ne = refl
  head_of-last_seq b (r ∷ q ∷ rows) asc ne = head_of-last_seq r.seq (q ∷ rows) asc.1 (λ e. cc)
