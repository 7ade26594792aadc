-- ===== src/Review/Render/Intraline/Columns.antt =====
-- render/intraline.rs: `changed_ranges` covers the columns of the changed tokens.
use nits.Prelude.{
  ◌⊎◌, length-map, ℕ, ◌≤◌, ◌<◌, ◌≡◌, ◌↔◌, refl, arith, Bool, List, [], ◌∷◌, length, All, map,
}
use nits.Protocol.Lines.{u32_mod, ColRange}
use nits.Protocol.Domain.{Text}
use nits.Review.Anchor.{Hunk}
use nits.Review.Diff.{IsDiff}
use nits.Review.Render.Intraline.{Tok, tokens, push_range, push_ranges, changed_ranges}
use nits.Review.Render.Intraline.Tokens.{byte_len, tokens-Contiguous}
use nits.Review.Render.Intraline.Ranges.{Spaced, In, Ordered, Changed, push_side, push_side-Changed}

abbrev pub befores : List Hunk → List (ℕ × ℕ)
befores [] = []
befores (h ∷ hs) = (h.before_start, h.before_end) ∷ befores hs

abbrev pub afters : List Hunk → List (ℕ × ℕ)
afters [] = []
afters (h ∷ hs) = (h.after_start, h.after_end) ∷ afters hs

abbrev pub tok_text : Tok → Text
tok_text t = t.text

-- The two sides of the loop do not depend on each other.
push_ranges_lem :
    (lt rt : List Tok) (hs : List Hunk) (l r : List ColRange)
    → push_ranges lt rt l r hs ≡ (push_side lt l (befores hs), push_side rt r (afters hs))
unfolding push_ranges
push_ranges_lem lt rt [] l r = refl
push_ranges_lem lt rt (h ∷ hs) l r =
    push_ranges_lem lt rt hs (push_range l lt h.before_start h.before_end)
      (push_range r rt h.after_start h.after_end)

-- The hunks of a diff, inside the old side, are inside the new side too.
IsDiff-Ordered :
    {A : Type 0} (old new : List A) (n m : ℕ) (hs : List Hunk) (i j : ℕ)
    → length old ≡ n
    → length new ≡ m
    → i ≤ n
    → All (λ h. h.before_end ≤ n) hs
    → IsDiff old new i j hs
    → Ordered n i (befores hs) × Ordered m j (afters hs) × (j ≤ m)
IsDiff-Ordered old new n m [] i j eo en hi inside d = (tt, tt, omega (arith, d.0))
IsDiff-Ordered old new n m (h ∷ hs) i j eo en hi inside d =
    let rest = IsDiff-Ordered old new n m hs h.before_end h.after_end eo en inside.0 inside.1 d.5 in
    (
      (d.0, d.2, inside.0, rest.0),
      (omega (arith, d.0, d.1), d.3, rest.2, rest.1),
      omega (arith, d.0, d.1, d.3, rest.2),
    )

drop_empty : {P Q : Type 0} → P ↔ (⊥ ⊎ Q) → P ↔ Q
drop_empty p = ground arith

module _ (is_alphanumeric is_whitespace : ℕ → Bool) (len_utf8 : ℕ → ℕ)
    (compute : List Text → List Text → List Hunk) where
  -- The differ's hunks for the tokens of two lines are a diff, with its hunks inside the left line.
  pub record Diffs (left right : Text) : Type 0 where
    pub diff :
        IsDiff
          (map tok_text (tokens is_alphanumeric is_whitespace len_utf8 left))
          (map tok_text (tokens is_alphanumeric is_whitespace len_utf8 right))
          0
          0
          (compute
            (map tok_text (tokens is_alphanumeric is_whitespace len_utf8 left))
            (map tok_text (tokens is_alphanumeric is_whitespace len_utf8 right)))
    pub inside :
        All
          (λ h. h.before_end ≤ length (tokens is_alphanumeric is_whitespace len_utf8 left))
          (compute
            (map tok_text (tokens is_alphanumeric is_whitespace len_utf8 left))
            (map tok_text (tokens is_alphanumeric is_whitespace len_utf8 right)))

  pub changed_ranges-Changed :
      (left right : Text)
      → ((c : ℕ) → 0 < len_utf8 c)
      → byte_len len_utf8 left < u32_mod
      → byte_len len_utf8 right < u32_mod
      → Diffs left right
      → (b : ℕ)
      → let found = changed_ranges is_alphanumeric is_whitespace len_utf8 compute left right in
        let hunks =
          compute
            (map tok_text (tokens is_alphanumeric is_whitespace len_utf8 left))
            (map tok_text (tokens is_alphanumeric is_whitespace len_utf8 right)) in
        (Spaced 0 (byte_len len_utf8 left) found.0
          × (In b found.0
              ↔ Changed (tokens is_alphanumeric is_whitespace len_utf8 left) b (befores hunks)))
        × (Spaced 0 (byte_len len_utf8 right) found.1
            × (In b found.1
                ↔ Changed (tokens is_alphanumeric is_whitespace len_utf8 right) b (afters hunks)))
  unfolding changed_ranges
  changed_ranges-Changed left right pos sl sr d b =
      let hunks =
        compute (map tok_text (tokens is_alphanumeric is_whitespace len_utf8 left))
          (map tok_text (tokens is_alphanumeric is_whitespace len_utf8 right)) in
      let order =
        IsDiff-Ordered (map tok_text (tokens is_alphanumeric is_whitespace len_utf8 left))
          (map tok_text (tokens is_alphanumeric is_whitespace len_utf8 right))
          (length (tokens is_alphanumeric is_whitespace len_utf8 left))
          (length (tokens is_alphanumeric is_whitespace len_utf8 right)) hunks 0 0
          (length-map tok_text (tokens is_alphanumeric is_whitespace len_utf8 left))
          (length-map tok_text (tokens is_alphanumeric is_whitespace len_utf8 right)) (omega arith)
          d.inside d.diff in
      let cl = tokens-Contiguous is_alphanumeric is_whitespace len_utf8 pos left sl in
      let cr = tokens-Contiguous is_alphanumeric is_whitespace len_utf8 pos right sr in
      let l =
        push_side-Changed (tokens is_alphanumeric is_whitespace len_utf8 left)
          (byte_len len_utf8 left) cl (befores hunks) [] 0 b tt (omega arith) order.0 in
      let r =
        push_side-Changed (tokens is_alphanumeric is_whitespace len_utf8 right)
          (byte_len len_utf8 right) cr (afters hunks) [] 0 b tt (omega arith) order.1 in
      rw
        (
          changed_ranges,
          push_ranges_lem (tokens is_alphanumeric is_whitespace len_utf8 left)
              (tokens is_alphanumeric is_whitespace len_utf8 right) hunks [] [],
        )
        (((l.0, drop_empty l.1), (r.0, drop_empty r.1)))
