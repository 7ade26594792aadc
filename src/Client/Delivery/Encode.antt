-- ===== src/Client/Delivery/Encode.antt =====
-- delivery.rs: what the encoder promises of the frames of a batch and of its own revision.
use mathlib.Core.Path.{subst}
use nits.Prelude.{
  ◌/◌, ◌%◌, ◌==◌, ◌++◌, if◌then◌else◌, ℕ, ◌+◌, ◌≤◌, ◌<◌, ◌≡◌, refl, sym, ap, ◌∙◌, ◌⊎◌, inl, inr,
  arith, ltb, leb, true, false, Option, some, List, [], ◌∷◌, All, ok, err, Bool-cases, Option-cases,
  Result-cases,
}
use nits.Protocol.Domain.{Text}
use nits.Protocol.Lines.{u32_mod}
use nits.Client.Delivery.{
  frame_limit, ViewBatchKind, ViewFragmentPosition, ViewFrame, complete_body, fragment_body,
  ViewDeliveryError, ViewEncoder, escape_cost, len_utf8, text_len, check_frames, frames_for,
  settle_encoder, encode,
}
use nits.Client.Delivery.Pieces.{text_cost}
use nits.Client.Delivery.Receive.{receive, IsPart, fragment-receive}

-- JSON's text of a character inside a string: `\"`, `\\`, `\b`, `\t`, `\n`, `\f` and `\r`, other
-- control characters as `\u00` and two hexadecimal digits, and any other character itself.
abbrev hex_digit : ℕ → ℕ
hex_digit n = if ltb n 10 then 48 + n else 87 + n

abbrev pub json_escape : ℕ → Text
json_escape c =
    if c == 34
    then 92 ∷ 34 ∷ []
    else if c == 92
    then 92 ∷ 92 ∷ []
    else if c == 8
    then 92 ∷ 98 ∷ []
    else if c == 9
    then 92 ∷ 116 ∷ []
    else if c == 10
    then 92 ∷ 110 ∷ []
    else if c == 12
    then 92 ∷ 102 ∷ []
    else if c == 13
    then 92 ∷ 114 ∷ []
    else if ltb c 32
    then 92 ∷ 117 ∷ 48 ∷ 48 ∷ hex_digit (c / 16) ∷ hex_digit (c % 16) ∷ []
    else c ∷ []

-- The text between the quotes of a JSON string.
unfoldable pub json_string : Text → Text
json_string [] = []
json_string (c ∷ cs) = json_escape c ++ json_string cs

text_len-append : (xs ys : Text) → text_len (xs ++ ys) ≡ text_len xs + text_len ys
unfolding text_len
text_len-append [] ys = omega arith
text_len-append (x ∷ xs) ys = omega (arith, text_len-append xs ys)

hex_len : (n : ℕ) → n < 16 → len_utf8 (hex_digit n) ≡ 1
hex_len n h = ground arith

-- What the program counts for a character is what JSON takes for it.
json_escape_len : (c : ℕ) → text_len (json_escape c) ≤ escape_cost c
unfolding text_len escape_cost
json_escape_len c =
    let high = hex_len (c / 16) in
    let low = hex_len (c % 16) (omega arith) in ground (arith, high, low)

json_string_len : (cs : Text) → text_len (json_string cs) ≤ text_cost cs
unfolding json_string text_cost
json_string_len [] = unfold text_len in omega arith
json_string_len (c ∷ cs) =
    rw (text_len-append (json_escape c) (json_string cs))
      (omega (arith, json_escape_len c, json_string_len cs))

len_utf8_le : (c : ℕ) → len_utf8 c ≤ escape_cost c
unfolding escape_cost
len_utf8_le c = ground arith

text_len_le : (cs : Text) → text_len cs ≤ text_cost cs
unfolding text_len text_cost
text_len_le [] = omega arith
text_len_le (c ∷ cs) = omega (arith, len_utf8_le c, text_len_le cs)

module _ {P : Type 0} (to_string : List P → Option Text) (frame_len : ViewFrame P → Option ℕ) where
  -- A message that fits.
  abbrev pub IsBounded : ViewFrame P → Type 0
  IsBounded f = (n : ℕ) × (frame_len f ≡ some n) × (n < frame_limit)

  check_frames_ok :
      (all fs out : List (ViewFrame P))
      → check_frames to_string frame_len all fs ≡ ok out
      → All IsBounded fs × (out ≡ all)
  unfolding check_frames
  check_frames_ok all [] out h = (tt, cc)
  check_frames_ok all (f ∷ fs) out h = elim (Option-cases (frame_len f)) [
    | inl failed ↦ cc (rw (check_frames, failed) at h)
    | inr (n, len) ↦ elim (Bool-cases (leb frame_limit n)) [
      | inl over ↦ cc (rw (check_frames, len, over) at h)
      | inr fits ↦
          let rest = check_frames_ok all fs out (rw (check_frames, len, fits) at h) in
          (((n, len, ground arith), rest.0), rest.1)
    ]
  ]

  bounded-check_frames :
      (all fs : List (ViewFrame P))
      → All IsBounded fs
      → check_frames to_string frame_len all fs ≡ ok all
  unfolding check_frames
  bounded-check_frames all [] h = refl
  bounded-check_frames all (f ∷ fs) h =
      let (n, len, fits) = h.0 in
      let within : leb frame_limit n ≡ false = ground arith in
      rw (check_frames, len, within) (bounded-check_frames all fs h.1)

  -- Frames are sent only if every one of them fits, whatever the serialiser makes of them, and
  -- only with the next revision, which the encoder then has.
  pub encode_ok :
      (e : ViewEncoder) (k : ViewBatchKind) (patches : List P) (frames : List (ViewFrame P))
      → (encode to_string frame_len e k patches).0 ≡ ok frames
      → All IsBounded frames
        × ((encode to_string frame_len e k patches).1.revision ≡ e.revision + 1)
        × (e.revision + 1 < u32_mod)
  unfolding encode settle_encoder
  encode_ok e k patches frames h = elim (Bool-cases (ltb (e.revision + 1) u32_mod)) [
    | inr spent ↦ cc (rw (encode, spent) at h)
    | inl next ↦ elim (Result-cases (frames_for to_string frame_len (e.revision + 1) k patches)) [
      | inr (x, failed) ↦ cc (rw (encode, next, failed) at h)
      | inl (made, built) ↦ elim (Result-cases (check_frames to_string frame_len made made)) [
        | inr (x, failed) ↦ cc (rw (encode, next, built, failed) at h)
        | inl (out, passed) ↦
            let checked = check_frames_ok made made out passed in
            let sent : made ≡ frames =
              sym checked.1 ∙ (cc (rw (encode, next, built, passed) at h)) in
            (
              subst (All IsBounded) sent checked.0,
              rw (encode, next, built, passed) refl,
              ground arith,
            )
      ]
    ]
  ]

  -- What the serialiser keeps to: it does not fail, and the metadata around the JSON text of a
  -- batch, or around the JSON string of a fragment, stays below the allowance of 1024 bytes.
  pub record IsSerialiser : Type 0 where
    pub complete_len :
        (r : ℕ) (k : ViewBatchKind) (ps : List P) (json : Text)
        → to_string ps ≡ some json
        → (n : ℕ) × (frame_len (record { revision = r; kind = k; body = complete_body ps })
            ≡ some n)
          × (n < text_len json + 1024)
    pub fragment_len :
        (r : ℕ) (k : ViewBatchKind) (position : ViewFragmentPosition) (piece : Text)
        → (n : ℕ) × (frame_len
              (record { revision = r; kind = k; body = fragment_body position piece })
            ≡ some n)
          × (n < text_len (json_string piece) + 1024)

  module _ (serialiser : IsSerialiser) where
    part-IsBounded : (r : ℕ) (k : ViewBatchKind) (f : ViewFrame P) → IsPart r k f → IsBounded f
    part-IsBounded r k f part =
        let made : f
            ≡ record { revision = r; kind = k; body = fragment_body part.position part.piece } =
          cc (part.revision, part.kind, part.body) in
        let (n, len, small) = serialiser.fragment_len r k part.position part.piece in
        (n, ap frame_len made ∙ len, omega (arith, part.small, json_string_len part.piece))

    parts-IsBounded :
        (r : ℕ) (k : ViewBatchKind) (fs : List (ViewFrame P))
        → All (IsPart r k) fs
        → All IsBounded fs
    parts-IsBounded r k [] h = tt
    parts-IsBounded r k (f ∷ fs) h = (part-IsBounded r k f h.0, parts-IsBounded r k fs h.1)

    module _ (k : ViewBatchKind) (patches : List P) (json : Text)
        (printed : to_string patches ≡ some json) (short : text_len json < u32_mod) where
      -- The batch as one message, or fragments from which a receiver gets its JSON text.
      abbrev pub Delivers : ℕ → List (ViewFrame P) → Type 0
      Delivers r frames =
          (frames ≡ record { revision = r; kind = k; body = complete_body patches } ∷ [])
          ⊎ (receive frames ≡ some json)

      frames_for-Delivers :
          (r : ℕ)
          → (frames : List (ViewFrame P)) × (frames_for to_string frame_len r k patches ≡ ok frames)
            × All IsBounded frames
            × Delivers r frames
      unfolding frames_for
      frames_for-Delivers r =
          let (n, len, below) = serialiser.complete_len r k patches json printed in
          elim (Bool-cases (ltb n frame_limit)) [
            | inl fits ↦ (
              record { revision = r; kind = k; body = complete_body patches } ∷ [],
              rw (frames_for, len, fits) refl,
              ((n, len, ground arith), tt),
              inl refl,
            )
            | inr over ↦
                let (frames, built, parts, received) =
                  fragment-receive {P = P} r k json short (ground (arith, text_len_le json)) in
                (
                  frames,
                  rw (frames_for, len, over, printed) built,
                  parts-IsBounded r k frames parts,
                  inr received,
                )
          ]

      pub encode-Delivers :
          (e : ViewEncoder)
          → e.revision + 1 < u32_mod
          → (frames : List (ViewFrame P)) × (encode to_string frame_len e k patches
              ≡ (ok frames, record { revision = e.revision + 1 }))
            × All IsBounded frames
            × Delivers (e.revision + 1) frames
      unfolding encode settle_encoder
      encode-Delivers e room =
          let (frames, built, bounded, delivers) = frames_for-Delivers (e.revision + 1) in
          let next : ltb (e.revision + 1) u32_mod ≡ true = ground arith in
          (
            frames,
            rw (encode, next, built, bounded-check_frames frames frames bounded) refl,
            bounded,
            delivers,
          )

  -- A batch that is not sent costs no revision.
  pub encode_err :
      (e : ViewEncoder) (k : ViewBatchKind) (patches : List P) (x : ViewDeliveryError)
      → (encode to_string frame_len e k patches).0 ≡ err x
      → (encode to_string frame_len e k patches).1 ≡ e
  unfolding encode settle_encoder
  encode_err e k patches x h = elim (Bool-cases (ltb (e.revision + 1) u32_mod)) [
    | inr spent ↦ rw (encode, spent) refl
    | inl next ↦ elim (Result-cases (frames_for to_string frame_len (e.revision + 1) k patches)) [
      | inr (y, failed) ↦ rw (encode, next, failed) refl
      | inl (made, built) ↦ elim (Result-cases (check_frames to_string frame_len made made)) [
        | inr (y, failed) ↦ rw (encode, next, built, failed) refl
        | inl (out, passed) ↦ cc (rw (encode, next, built, passed) at h)
      ]
    ]
  ]
