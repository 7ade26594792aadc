-- ===== src/Client/Delivery/Pieces.antt =====
-- delivery.rs: the pieces that a JSON text is cut into.
use mathlib.Core.List.{flatten, append_assoc}
use nits.Prelude.{
  ℕ, ◌+◌, ◌≤◌, ◌<◌, ◌≡◌, refl, ap, ◌∙◌, inl, inr, arith, ltb, List, [], ◌∷◌, ◌++◌, length, All,
  Bool-cases,
}
use nits.Protocol.Domain.{Text}
use nits.Client.Delivery.{data_limit, escape_cost, len_utf8, text_len, cut}

-- The bytes of a text inside a JSON string.
unfoldable pub text_cost : Text → ℕ
text_cost [] = 0
text_cost (c ∷ cs) = escape_cost c + text_cost cs

escape_cost_le : (c : ℕ) → escape_cost c ≤ 6
unfolding escape_cost
escape_cost_le c = ground arith

text_cost-append : (xs ys : Text) → text_cost (xs ++ ys) ≡ text_cost xs + text_cost ys
unfolding text_cost
text_cost-append [] ys = omega arith
text_cost-append (x ∷ xs) ys = omega (arith, text_cost-append xs ys)

pub flatten-cut : (cs : Text) (e : ℕ) (piece : Text) → flatten (cut e piece cs) ≡ piece ++ cs
unfolding cut flatten
flatten-cut [] e piece = refl
flatten-cut (c ∷ cs) e piece = elim (Bool-cases (ltb data_limit (e + escape_cost c))) [
  | inl over ↦ rw (cut, over) (ap (λ q. piece ++ q) (flatten-cut cs (escape_cost c) (c ∷ [])))
  | inr room ↦
      rw (cut, room)
        (flatten-cut cs (e + escape_cost c) (piece ++ c ∷ []) ∙ append_assoc piece (c ∷ []) cs)
]

-- A piece that the messages have room for.
abbrev pub IsSmall : Text → Type 0
IsSmall piece = text_cost piece ≤ data_limit

pub cut-IsSmall :
    (cs : Text) (e : ℕ) (piece : Text)
    → e ≡ text_cost piece
    → e ≤ data_limit
    → All IsSmall (cut e piece cs)
unfolding cut
cut-IsSmall [] e piece counted fits = (omega arith, tt)
cut-IsSmall (c ∷ cs) e piece counted fits = elim (Bool-cases (ltb data_limit (e + escape_cost c))) [
  | inl over ↦
      rw (cut, over)
        ((
          omega arith,
          cut-IsSmall cs (escape_cost c) (c ∷ []) (unfold text_cost in omega arith)
              (omega (arith, escape_cost_le c)),
        ))
  | inr room ↦
      rw (cut, room)
        (cut-IsSmall cs (e + escape_cost c) (piece ++ c ∷ [])
          (unfold text_cost in omega (arith, text_cost-append piece (c ∷ []))) (ground arith))
]

pub length-cut : (cs : Text) (e : ℕ) (piece : Text) → length (cut e piece cs) ≤ length cs + 1
unfolding cut
length-cut [] e piece = omega arith
length-cut (c ∷ cs) e piece = elim (Bool-cases (ltb data_limit (e + escape_cost c))) [
  | inl over ↦ rw (cut, over) (omega (arith, length-cut cs (escape_cost c) (c ∷ [])))
  | inr room ↦ rw (cut, room) (omega (arith, length-cut cs (e + escape_cost c) (piece ++ c ∷ [])))
]

pub length-text_len : (cs : Text) → length cs ≤ text_len cs
unfolding text_len
length-text_len [] = omega arith
length-text_len (c ∷ cs) =
    let some_byte : 1 ≤ len_utf8 c = ground arith in omega (arith, some_byte, length-text_len cs)

cut_nonempty :
    (cs : Text) (e : ℕ) (piece : Text) → (p : Text) × (ps : List Text) × (cut e piece cs ≡ p ∷ ps)
unfolding cut
cut_nonempty [] e piece = (piece, [], refl)
cut_nonempty (c ∷ cs) e piece = elim (Bool-cases (ltb data_limit (e + escape_cost c))) [
  | inl over ↦ (piece, cut (escape_cost c) (c ∷ []) cs, rw (cut, over) refl)
  | inr room ↦ rw (cut, room) (cut_nonempty cs (e + escape_cost c) (piece ++ c ∷ []))
]

-- A text that does not fit in one piece has at least two.
pub cut_two :
    (cs : Text) (e : ℕ) (piece : Text)
    → e ≤ data_limit
    → data_limit < e + text_cost cs
    → (p q : Text) × (ps : List Text) × (cut e piece cs ≡ p ∷ q ∷ ps)
unfolding cut text_cost
cut_two [] e piece fits over = absurd (omega arith)
cut_two (c ∷ cs) e piece fits long = elim (Bool-cases (ltb data_limit (e + escape_cost c))) [
  | inl over ↦
      let (q, ps, at) = cut_nonempty cs (escape_cost c) (c ∷ []) in
      (piece, q, ps, rw (cut, over) (ap (λ r. piece ∷ r) at))
  | inr room ↦
      rw (cut, room) (cut_two cs (e + escape_cost c) (piece ++ c ∷ []) (ground arith) (omega arith))
]
