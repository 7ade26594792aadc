-- ===== src/Client/Delivery.antt =====
-- crates/nits-client-core/src/delivery.rs: the patches of one view batch as bounded messages.
-- A patch is of any type `P`. serde_json is a parameter: `to_string` is the JSON text of some
-- patches and `frame_len` the length of a serialised frame, both `none` on an error. A text is
-- its characters. Sums of `usize` lengths in memory do not overflow.
pub mod Pieces
pub mod Receive
pub mod Encode
use nits.Prelude.{
  ℕ, ◌+◌, ◌-◌, ◌*◌, Bool, true, false, ◌||◌, Option, none, some, List, [], ◌∷◌, ◌++◌, Result, ok,
  err, ltb, leb, ◌==◌, if◌then◌else◌, length,
}
use nits.Protocol.Domain.{Text}
use nits.Protocol.Lines.{u32_mod}

abbrev pub frame_limit : ℕ
frame_limit = 64 * 1024 - 1024

abbrev pub data_limit : ℕ
data_limit = frame_limit - 1024

pub data ViewBatchKind : Type 0 where
  snapshot delta : ViewBatchKind

pub data ViewFragmentPosition : Type 0 where
  at_start : ℕ → ViewFragmentPosition
  more_at end_at : ℕ → ViewFragmentPosition

pub data ViewFrameBody (P : Type 0) : Type 0 where
  complete_body : List P → ViewFrameBody P
  fragment_body : ViewFragmentPosition → Text → ViewFrameBody P

pub record ViewFrame (P : Type 0) : Type 0 where
  pub revision : ℕ
  pub kind : ViewBatchKind
  pub body : ViewFrameBody P

pub data ViewDeliveryError : Type 0 where
  revision_exhausted batch_too_large frame_too_large json_error : ViewDeliveryError

pub record ViewEncoder : Type 0 where
  pub revision : ℕ

-- `char::len_utf8`
abbrev pub len_utf8 : ℕ → ℕ
len_utf8 c = if ltb c 128 then 1 else if ltb c 2048 then 2 else if ltb c 65536 then 3 else 4

-- `str::len`
unfoldable pub text_len : Text → ℕ
text_len [] = 0
text_len (c ∷ cs) = len_utf8 c + text_len cs

-- The bytes of a character inside a JSON string.
unfoldable pub escape_cost : ℕ → ℕ
escape_cost c =
    if (c == 34) || (c == 92) || (c == 8) || (c == 12) || (c == 10) || (c == 13) || (c == 9)
    then 2
    else if ltb c 32
    then 6
    else len_utf8 c

-- The loop over the characters: `escaped` and the piece from `start` on.
unfoldable pub cut : ℕ → Text → Text → List Text
cut escaped piece [] = piece ∷ []
cut escaped piece (c ∷ cs) = elim (ltb data_limit (escaped + escape_cost c)) [
  | true ↦ piece ∷ cut (escape_cost c) (c ∷ []) cs
  | false ↦ cut (escaped + escape_cost c) (piece ++ c ∷ []) cs
]

-- `u32::try_from(n).ok().and_then(NonZeroU32::new)`
unfoldable pub nonzero_u32 : ℕ → Option ℕ
nonzero_u32 n = if ltb n u32_mod then (if n == 0 then none else some n) else none

-- The position of the piece at an offset.
unfoldable pub position_of : ℕ → ℕ → ℕ → Result ViewFragmentPosition ViewDeliveryError
unfolding nonzero_u32
position_of bytes last offset =
    if offset == 0 then ok (at_start bytes) else elim (nonzero_u32 offset) [
      | none ↦ err batch_too_large
      | some index ↦ if offset == last then ok (end_at index) else ok (more_at index)
    ]

module _ {P : Type 0} where
  unfoldable pub frames_of :
      ℕ → ViewBatchKind → ℕ → ℕ → ℕ → List Text → Result (List (ViewFrame P)) ViewDeliveryError
  unfolding position_of
  frames_of r k bytes last offset [] = ok []
  frames_of r k bytes last offset (piece ∷ pieces) = elim (position_of bytes last offset) [
    | err e ↦ err e
    | ok p ↦ elim (frames_of r k bytes last (offset + 1) pieces) [
      | err e ↦ err e
      | ok frames ↦ ok (record { revision = r; kind = k; body = fragment_body p piece } ∷ frames)
    ]
  ]

  unfoldable pub fragment : ℕ → ViewBatchKind → Text → Result (List (ViewFrame P)) ViewDeliveryError
  unfolding cut frames_of
  fragment r k json = elim (nonzero_u32 (text_len json)) [
    | none ↦ err batch_too_large
    | some bytes ↦ let pieces = cut 0 [] json in frames_of r k bytes (length pieces - 1) 0 pieces
  ]

module _ {P : Type 0} (to_string : List P → Option Text) (frame_len : ViewFrame P → Option ℕ) where
  -- The loop that checks the frames that are about to leave.
  unfoldable pub check_frames :
      List (ViewFrame P) → List (ViewFrame P) → Result (List (ViewFrame P)) ViewDeliveryError
  check_frames all [] = ok all
  check_frames all (f ∷ fs) = elim (frame_len f) [
    | none ↦ err json_error
    | some n ↦ elim (leb frame_limit n) [ true ↦ err frame_too_large | false ↦ check_frames all fs ]
  ]

  -- `frames`, before they are checked.
  unfoldable pub frames_for :
      ℕ → ViewBatchKind → List P → Result (List (ViewFrame P)) ViewDeliveryError
  unfolding fragment
  frames_for r k patches =
      let complete : ViewFrame P = record {
        revision = r;
        kind = k;
        body = complete_body patches;
      } in
      elim (frame_len complete) [
        | none ↦ err json_error
        | some n ↦ elim (ltb n frame_limit) [
          | true ↦ ok (complete ∷ [])
          | false ↦ elim (to_string patches) [
            | none ↦ err json_error
            | some json ↦ fragment r k json
          ]
        ]
      ]

  -- An error leaves the encoder as it was.
  unfoldable pub settle_encoder :
      ViewEncoder
      → ℕ
      → Result (List (ViewFrame P)) ViewDeliveryError
      → Result (List (ViewFrame P)) ViewDeliveryError × ViewEncoder
  settle_encoder e r (ok frames) = (ok frames, record { revision = r })
  settle_encoder e r (err x) = (err x, e)

  unfoldable pub encode :
      ViewEncoder
      → ViewBatchKind
      → List P
      → Result (List (ViewFrame P)) ViewDeliveryError × ViewEncoder
  unfolding frames_for check_frames settle_encoder
  encode e k patches =
      if ltb (e.revision + 1) u32_mod
      then settle_encoder e (e.revision + 1) (elim (frames_for (e.revision + 1) k patches) [
        | err x ↦ err x
        | ok frames ↦ check_frames frames frames
      ])
      else (err revision_exhausted, e)
