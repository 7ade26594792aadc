-- ===== src/Review/Render/Intraline/Tokens.antt =====
-- render/intraline.rs: the tokens of a line hold its text and its bytes in order.
use mathlib.Core.List.{append_assoc}
use nits.Prelude.{
  Bool, ℕ, zero, suc, ◌+◌, ◌≤◌, ◌<◌, ◌≡◌, refl, ◌∙◌, ap, inl, inr, arith, not, ◌&&◌, Bool-cases,
  List, [], ◌∷◌, ◌++◌, length,
}
use nits.Protocol.Lines.{u32_mod}
use nits.Protocol.Domain.{Text}
use nits.Review.Render.Intraline.{
  Tok, Class, other, same_class, class_of, tokens_from, tokens, tok_at, try_u32,
}

abbrev pub texts : List Tok → Text
texts [] = []
texts (t ∷ ts) = t.text ++ texts ts

-- The tokens go from byte `lo` to byte `hi`, each from the end of the one before it, none empty.
abbrev pub Contiguous : ℕ → ℕ → List Tok → Type 0
Contiguous lo hi [] = lo ≡ hi
Contiguous lo hi (t ∷ ts) = (t.start ≡ lo) × (lo < t.end) × Contiguous t.end hi ts

-- Where token `i` starts, or the last token ends.
abbrev pub edge : ℕ → List Tok → ℕ → ℕ
edge lo [] i = lo
edge lo (t ∷ ts) zero = lo
edge lo (t ∷ ts) (suc i) = edge t.end ts i

pub start-edge :
    (ts : List Tok) (lo hi i : ℕ)
    → Contiguous lo hi ts
    → i < length ts
    → (tok_at ts i).start ≡ edge lo ts i
start-edge [] lo hi i c h = absurd (omega arith)
start-edge (t ∷ ts) lo hi zero c h = c.0
start-edge (t ∷ ts) lo hi (suc i) c h = start-edge ts t.end hi i c.2 (omega arith)

pub end-edge : (ts : List Tok) (lo i : ℕ) → i < length ts → (tok_at ts i).end ≡ edge lo ts (suc i)
end-edge [] lo i h = absurd (omega arith)
end-edge (t ∷ []) lo zero h = refl
end-edge (t ∷ u ∷ ts) lo zero h = refl
end-edge (t ∷ ts) lo (suc i) h = end-edge ts t.end i (omega arith)

lo-edge : (ts : List Tok) (lo hi i : ℕ) → Contiguous lo hi ts → lo ≤ edge lo ts i
lo-edge [] lo hi i c = omega arith
lo-edge (t ∷ ts) lo hi zero c = omega arith
lo-edge (t ∷ ts) lo hi (suc i) c = omega (arith, c.1, lo-edge ts t.end hi i c.2)

pub edge-le :
    (ts : List Tok) (lo hi i j : ℕ) → Contiguous lo hi ts → i ≤ j → edge lo ts i ≤ edge lo ts j
edge-le [] lo hi i j c h = omega arith
edge-le (t ∷ ts) lo hi zero j c h = lo-edge (t ∷ ts) lo hi j c
edge-le (t ∷ ts) lo hi (suc i) zero c h = absurd (omega arith)
edge-le (t ∷ ts) lo hi (suc i) (suc j) c h = edge-le ts t.end hi i j c.2 (omega arith)

pub edge-lt :
    (ts : List Tok) (lo hi i j : ℕ)
    → Contiguous lo hi ts
    → i < j
    → j ≤ length ts
    → edge lo ts i < edge lo ts j
edge-lt [] lo hi i j c h k = absurd (omega arith)
edge-lt (t ∷ ts) lo hi zero zero c h k = absurd (omega arith)
edge-lt (t ∷ ts) lo hi zero (suc j) c h k = omega (arith, c.1, lo-edge ts t.end hi j c.2)
edge-lt (t ∷ ts) lo hi (suc i) zero c h k = absurd (omega arith)
edge-lt (t ∷ ts) lo hi (suc i) (suc j) c h k =
    edge-lt ts t.end hi i j c.2 (omega arith) (omega arith)

pub edge-hi : (ts : List Tok) (lo hi i : ℕ) → Contiguous lo hi ts → edge lo ts i ≤ hi
edge-hi [] lo hi i c = omega (arith, c)
edge-hi (t ∷ ts) lo hi zero c =
    omega (arith, c.1, edge-hi ts t.end hi zero c.2, lo-edge ts t.end hi zero c.2)
edge-hi (t ∷ ts) lo hi (suc i) c = edge-hi ts t.end hi i c.2

abbrev pub byte_len : (ℕ → ℕ) → Text → ℕ
byte_len len_utf8 [] = 0
byte_len len_utf8 (c ∷ cs) = len_utf8 c + byte_len len_utf8 cs

module _ (is_alphanumeric is_whitespace : ℕ → Bool) (len_utf8 : ℕ → ℕ) where
  texts-tokens_from :
      (ds text : Text) (start end : ℕ) (class : Class)
      → texts (tokens_from is_alphanumeric is_whitespace len_utf8 text start end class ds)
        ≡ text ++ ds
  unfolding tokens_from
  texts-tokens_from [] text start end class = refl
  texts-tokens_from (d ∷ ds) text start end class =
      elim (Bool-cases (
        not (same_class class other)
        && same_class (class_of is_alphanumeric is_whitespace d) class)) [
          | inl same ↦
              rw (tokens_from, same)
                (texts-tokens_from ds (text ++ d ∷ []) start (end + len_utf8 d) class
                  ∙ append_assoc text (d ∷ []) ds)
          | inr split ↦
              rw (tokens_from, split)
                (ap (λ q. text ++ q)
                  (texts-tokens_from ds (d ∷ []) end (end + len_utf8 d)
                    (class_of is_alphanumeric is_whitespace d)))
        ]

  -- The texts of a line's tokens are the line.
  pub texts-tokens : (s : Text) → texts (tokens is_alphanumeric is_whitespace len_utf8 s) ≡ s
  unfolding tokens
  texts-tokens [] = refl
  texts-tokens (c ∷ cs) =
      texts-tokens_from cs (c ∷ []) 0 (len_utf8 c) (class_of is_alphanumeric is_whitespace c)

  module _ (len_utf8_pos : (c : ℕ) → 0 < len_utf8 c) where
    tokens_from-Contiguous :
        (ds text : Text) (start end hi : ℕ) (class : Class)
        → start < end
        → end + byte_len len_utf8 ds ≡ hi
        → hi < u32_mod
        → Contiguous start hi
            (tokens_from is_alphanumeric is_whitespace len_utf8 text start end class ds)
    unfolding tokens_from
    tokens_from-Contiguous [] text start end hi class h e small =
        (ground arith, ground arith, ground arith)
    tokens_from-Contiguous (d ∷ ds) text start end hi class h e small =
        let whole : try_u32 start ≡ start = ground arith in
        let whole' : try_u32 end ≡ end = ground arith in
        let pos = len_utf8_pos d in
        elim (Bool-cases (
          not (same_class class other)
          && same_class (class_of is_alphanumeric is_whitespace d) class)) [
            | inl same ↦
                rw (tokens_from, same)
                  (tokens_from-Contiguous ds (text ++ d ∷ []) start (end + len_utf8 d) hi class
                    (omega arith) (omega arith) small)
            | inr split ↦
                rw (tokens_from, split, whole, whole')
                  ((
                    refl,
                    h,
                    tokens_from-Contiguous ds (d ∷ []) end (end + len_utf8 d) hi
                        (class_of is_alphanumeric is_whitespace d) (omega arith) (omega arith)
                        small,
                  ))
          ]

    -- A line of less than 2^32 bytes: its tokens go through its bytes.
    pub tokens-Contiguous :
        (s : Text)
        → byte_len len_utf8 s < u32_mod
        → Contiguous 0 (byte_len len_utf8 s) (tokens is_alphanumeric is_whitespace len_utf8 s)
    unfolding tokens
    tokens-Contiguous [] small = refl
    tokens-Contiguous (c ∷ cs) small =
        tokens_from-Contiguous cs (c ∷ []) 0 (len_utf8 c) (byte_len len_utf8 (c ∷ cs))
          (class_of is_alphanumeric is_whitespace c) (len_utf8_pos c) refl small
