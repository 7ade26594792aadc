-- ===== src/Daemon/Codec.antt =====
-- crates/nitsd/src/codec.rs: length-prefixed frames. A stream is the bytes that its reader will get
-- before the end of the file; no other error of the transport is modelled. JSON is a parameter:
-- `to_vec` and `from_slice`, on messages of any type `M`.
pub mod Streams
use nits.Prelude.{
  ℕ, ◌+◌, ◌-◌, ◌*◌, ◌/◌, ◌%◌, ◌^◌, Option, none, some, List, [], ◌∷◌, ◌++◌, Result, ok, err, ltb,
  leb, if◌then◌else◌, length, take, drop, Bool, true, false,
}
use nits.Protocol.Lines.{u32_mod}

abbrev pub max_frame : ℕ
max_frame = 64 * 1024 * 1024

pub data CodecError : Type 0 where
  oversized : ℕ → CodecError
  json io : CodecError

-- `u32::try_from(n).unwrap_or(u32::MAX)`
abbrev pub clamp_u32 : ℕ → ℕ
clamp_u32 n = if ltb n u32_mod then n else u32_mod - 1

-- `u32::to_be_bytes`
unfoldable pub be_bytes : ℕ → List ℕ
be_bytes n = n / 2 ^ 24 % 256 ∷ n / 2 ^ 16 % 256 ∷ n / 2 ^ 8 % 256 ∷ n % 256 ∷ []

-- `u32::from_be_bytes`, the first byte highest.
unfoldable pub from_be : ℕ → List ℕ → ℕ
from_be acc [] = acc
from_be acc (b ∷ bs) = from_be (acc * 256 + b) bs

-- `read_exact`: `none` is the end of the file.
unfoldable pub read_exact : ℕ → List ℕ → Option (List ℕ × List ℕ)
read_exact n stream = if ltb (length stream) n then none else some (take n stream, drop n stream)

-- What follows the length of a frame.
unfoldable pub read_body : ℕ → List ℕ → Result (Option (List ℕ) × List ℕ) CodecError
unfolding read_exact
read_body n stream = elim (ltb max_frame n) [
  | true ↦ err (oversized n)
  | false ↦ elim (read_exact n stream) [ none ↦ err io | some body ↦ ok (some body.0, body.1) ]
]

-- The frame, if any, and what is left to read.
unfoldable pub read_frame : List ℕ → Result (Option (List ℕ) × List ℕ) CodecError
unfolding read_body from_be
read_frame stream = elim (read_exact 4 stream) [
  | none ↦ ok (none, [])
  | some header ↦ read_body (from_be 0 header.0) header.1
]

-- What the writer has sent after one more frame.
unfoldable pub write_frame : List ℕ → List ℕ → Result (List ℕ) CodecError
unfolding be_bytes
write_frame sent payload =
    if ltb (length payload) u32_mod
    then (if leb (length payload) max_frame
        then ok (sent ++ (be_bytes (length payload) ++ payload))
        else err (oversized (clamp_u32 (length payload))))
    else err (oversized (clamp_u32 (length payload)))

module _ {M : Type 0} (to_vec : M → Option (List ℕ)) (from_slice : List ℕ → Option M) where
  unfoldable pub encode : M → Result (List ℕ) CodecError
  encode m = elim (to_vec m) [
    | none ↦ err json
    | some bytes ↦
        if ltb max_frame (length bytes)
        then err (oversized (clamp_u32 (length bytes)))
        else ok bytes
  ]

  unfoldable pub decode : List ℕ → Result M CodecError
  decode bytes = elim (from_slice bytes) [ none ↦ err json | some m ↦ ok m ]

  unfoldable pub read_msg : List ℕ → Result (Option M × List ℕ) CodecError
  unfolding read_frame decode
  read_msg stream = elim (read_frame stream) [
    | err e ↦ err e
    | ok frame ↦ elim frame.0 [
      | none ↦ ok (none, frame.1)
      | some bytes ↦ elim (decode bytes) [ err e ↦ err e | ok m ↦ ok (some m, frame.1) ]
    ]
  ]

  unfoldable pub write_msg : List ℕ → M → Result (List ℕ) CodecError
  unfolding encode write_frame
  write_msg sent m = elim (encode m) [ err e ↦ err e | ok bytes ↦ write_frame sent bytes ]
