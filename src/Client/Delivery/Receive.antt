-- ===== src/Client/Delivery/Receive.antt =====
-- delivery.rs: a UI puts the fragments of a batch together again.
use mathlib.Core.Path.{subst}
use mathlib.Core.List.{flatten, append-nil, append_assoc}
use nits.Prelude.{
  ℕ, ◌+◌, ◌-◌, ◌≤◌, ◌<◌, ◌≡◌, refl, sym, ap, ◌∙◌, arith, ◌==◌, Option, none, some, List, [], ◌∷◌,
  ◌++◌, length, All, ok, if◌then◌else◌, true, false,
}
use nits.Protocol.Domain.{Text}
use nits.Protocol.Lines.{u32_mod}
use nits.Client.Delivery.{
  data_limit, ViewBatchKind, ViewFragmentPosition, at_start, more_at, end_at, complete_body,
  fragment_body, ViewFrame, nonzero_u32, position_of, frames_of, fragment, cut, text_len,
}
use nits.Client.Delivery.Pieces.{
  text_cost, IsSmall, flatten-cut, cut-IsSmall, length-cut, length-text_len, cut_two,
}

position_more :
    (bytes last offset : ℕ)
    → 0 < offset
    → offset < last
    → last < u32_mod
    → position_of bytes last offset ≡ ok (more_at offset)
unfolding position_of nonzero_u32
position_more bytes last offset h hl hu = ground arith

position_end :
    (bytes last : ℕ) → 0 < last → last < u32_mod → position_of bytes last last ≡ ok (end_at last)
unfolding position_of nonzero_u32
position_end bytes last h hu = ground arith

module _ {P : Type 0} where
  -- The fragments after the first: indices count up, and the end closes the group.
  unfoldable pub receive_rest : ℕ → Text → List (ViewFrame P) → Option Text
  receive_rest n acc [] = none
  receive_rest n acc (f ∷ fs) = elim f.body [
    | complete_body _ ↦ none
    | fragment_body position json ↦ elim position [
      | at_start _ ↦ none
      | more_at i ↦ elim (i == n) [ true ↦ receive_rest (n + 1) (acc ++ json) fs | false ↦ none ]
      | end_at i ↦ elim fs [ [] ↦ if i == n then some (acc ++ json) else none | _ ∷ _ ↦ none ]
    ]
  ]

  -- A whole group: it starts with the byte count, which the text must have in the end.
  unfoldable pub receive : List (ViewFrame P) → Option Text
  unfolding receive_rest
  receive [] = none
  receive (f ∷ fs) = elim f.body [
    | complete_body _ ↦ none
    | fragment_body position json ↦ elim position [
      | at_start bytes ↦ elim (receive_rest 1 json fs) [
        | none ↦ none
        | some text ↦ if text_len text == bytes then some text else none
      ]
      | more_at _ ↦ none
      | end_at _ ↦ none
    ]
  ]

  -- Of the batch, with a piece that the message has room for.
  pub record IsPart (r : ℕ) (k : ViewBatchKind) (f : ViewFrame P) : Type 0 where
    pub revision : f.revision ≡ r
    pub kind : f.kind ≡ k
    pub position : ViewFragmentPosition
    pub piece : Text
    pub body : f.body ≡ fragment_body position piece
    pub small : IsSmall piece

module _ (P : Type 0) where
  -- The frames of the pieces at some offset, and what a receiver makes of them.
  record Sends (r : ℕ) (k : ViewBatchKind) (bytes last offset : ℕ) (ps : List Text) : Type 0 where
    frames : List (ViewFrame P)
    built : frames_of r k bytes last offset ps ≡ ok frames
    parts : All (IsPart r k) frames
    received : (acc : Text) → receive_rest offset acc frames ≡ some (acc ++ flatten ps)

  module _ (r : ℕ) (k : ViewBatchKind) (bytes last : ℕ) (hu : last < u32_mod) where
    send_end : (p : Text) → 0 < last → IsSmall p → Sends r k bytes last last (p ∷ [])
    unfolding frames_of receive_rest flatten
    send_end p h small = record {
      frames = record { revision = r; kind = k; body = fragment_body (end_at last) p } ∷ [];
      built = rw (frames_of, position_end bytes last h hu) refl;
      parts = (
        record {
          revision = refl;
          kind = refl;
          position = end_at last;
          piece = p;
          body = refl;
          small = small;
        },
        tt,
      );
      received = λ acc. ground (arith, append-nil p);
    }

    send_more :
        (offset : ℕ) (p : Text) (ps : List Text)
        → 0 < offset
        → offset < last
        → IsSmall p
        → Sends r k bytes last (offset + 1) ps
        → Sends r k bytes last offset (p ∷ ps)
    unfolding frames_of receive_rest flatten
    send_more offset p ps h hl small rest = record {
      frames =
          record { revision = r; kind = k; body = fragment_body (more_at offset) p } ∷ rest.frames;
      built = rw (frames_of, position_more bytes last offset h hl hu, rest.built) refl;
      parts = (
        record {
          revision = refl;
          kind = refl;
          position = more_at offset;
          piece = p;
          body = refl;
          small = small;
        },
        rest.parts,
      );
      received = λ acc. ground (arith, rest.received (acc ++ p), append_assoc acc p (flatten ps));
    }

    send :
        (offset : ℕ) (p : Text) (ps : List Text)
        → 0 < offset
        → offset + length ps ≡ last
        → All IsSmall (p ∷ ps)
        → Sends r k bytes last offset (p ∷ ps)
    send offset p [] h hl small =
        subst (λ (o : ℕ). Sends r k bytes last o (p ∷ [])) (omega arith)
          (send_end p (omega arith) small.0)
    send offset p (q ∷ ps) h hl small =
        send_more offset p (q ∷ ps) h (omega arith) small.0
          (send (offset + 1) q ps (omega arith) (omega arith) small.1)

module _ {P : Type 0} where
  open_group :
      (r : ℕ) (k : ViewBatchKind) (bytes : ℕ) (p q : Text) (ps : List Text)
      (fs : List (ViewFrame P))
      → frames_of r k bytes (length ps + 1) 1 (q ∷ ps) ≡ ok fs
      → frames_of r k bytes (length (p ∷ q ∷ ps) - 1) 0 (p ∷ q ∷ ps)
        ≡ ok (record { revision = r; kind = k; body = fragment_body (at_start bytes) p } ∷ fs)
  unfolding frames_of position_of
  open_group r k bytes p q ps fs e =
      let last : length (p ∷ q ∷ ps) - 1 ≡ length ps + 1 = omega arith in
      subst
        (λ (n : ℕ).
          frames_of r k bytes n 0 (p ∷ q ∷ ps)
          ≡ ok (record { revision = r; kind = k; body = fragment_body (at_start bytes) p } ∷ fs))
        (sym last) (ground (arith, e))

  fragment-pieces :
      (r : ℕ) (k : ViewBatchKind) (json : Text) (ps : List Text)
      → nonzero_u32 (text_len json) ≡ some (text_len json)
      → cut 0 [] json ≡ ps
      → fragment {P = P} r k json ≡ frames_of r k (text_len json) (length ps - 1) 0 ps
  unfolding fragment frames_of
  fragment-pieces r k json ps e at =
      subst
        (λ (q : List Text).
          fragment {P = P} r k json ≡ frames_of r k (text_len json) (length q - 1) 0 q)
        at (rw (fragment, e) refl)

  -- A text that is not empty, has fewer than 2^32 bytes and does not fit in one piece is sent as
  -- frames of the batch, each with at most the piece budget of escaped bytes, from which a
  -- receiver that checks the indices and the byte count gets exactly the text.
  pub fragment-receive :
      (r : ℕ) (k : ViewBatchKind) (json : Text)
      → text_len json < u32_mod
      → data_limit < text_cost json
      → (frames : List (ViewFrame P)) × (fragment r k json ≡ ok frames)
        × All (IsPart r k) frames
        × (receive frames ≡ some json)
  unfolding receive nonzero_u32 flatten
  fragment-receive r k json hu long =
      let (p, q, ps, at) = cut_two json 0 [] (omega arith) (omega arith) in
      let small : All IsSmall (p ∷ q ∷ ps) =
        subst (All IsSmall) at (cut-IsSmall json 0 [] (unfold text_cost in refl) (omega arith)) in
      let whole : p ++ (q ++ flatten ps) ≡ json = sym (ap flatten at) ∙ flatten-cut json 0 [] in
      let count : length ps + 2 ≤ length json + 1 =
        omega (arith, ap length at, length-cut json 0 []) in
      let bytes = text_len json in
      let s =
        send P r k bytes (length ps + 1) (omega (arith, count, length-text_len json)) 1 q ps
          (omega arith) (omega arith) small.1 in
      let first : ViewFrame P = record {
        revision = r;
        kind = k;
        body = fragment_body (at_start bytes) p;
      } in
      let sized : nonzero_u32 bytes ≡ some bytes = ground (arith, count, length-text_len json) in
      (
        first ∷ s.frames,
        fragment-pieces r k json (p ∷ q ∷ ps) sized at
            ∙ open_group r k bytes p q ps s.frames s.built,
        (
          record {
            revision = refl;
            kind = refl;
            position = at_start bytes;
            piece = p;
            body = refl;
            small = small.0;
          },
          s.parts,
        ),
        rw (receive, s.received p, whole) (ground arith),
      )
