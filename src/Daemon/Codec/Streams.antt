-- ===== src/Daemon/Codec/Streams.antt =====
-- codec.rs: what a reader gets of the frames that a writer sent.
use mathlib.Core.Path.{subst}
use mathlib.Core.List.{append-nil, append_assoc}
use nits.Prelude.{
  ℕ, zero, suc, ◌-◌, ◌≤◌, ◌<◌, ◌≡◌, refl, sym, ap, ◌∙◌, arith, ltb, leb, Option, none, some, List,
  [], ◌∷◌, ◌++◌, length, take, drop, Result, ◌>>=◌, ok, err, All, true, false, length-append, min,
}
use nits.Protocol.Lines.{u32_mod}
use nits.Daemon.Codec.{
  max_frame, CodecError, oversized, io, be_bytes, from_be, read_exact, read_body, read_frame,
  write_frame, encode, decode, read_msg, write_msg,
}

from_be-be_bytes : (n : ℕ) → n < u32_mod → from_be 0 (be_bytes n) ≡ n
unfolding from_be be_bytes
from_be-be_bytes n h = omega arith

take-append : (xs ys : List ℕ) → take (length xs) (xs ++ ys) ≡ xs
take-append [] ys = refl
take-append (x ∷ xs) ys = ap (λ r. x ∷ r) (take-append xs ys)

drop-append : (xs ys : List ℕ) → drop (length xs) (xs ++ ys) ≡ ys
drop-append [] ys = refl
drop-append (x ∷ xs) ys = drop-append xs ys

read_exact-append : (xs ys : List ℕ) → read_exact (length xs) (xs ++ ys) ≡ some (xs, ys)
unfolding read_exact
read_exact-append xs ys =
    let enough : ltb (length (xs ++ ys)) (length xs) ≡ false =
      ground (arith, length-append xs ys) in
    rw (enough, take-append xs ys, drop-append xs ys) refl

-- The bytes of one frame.
abbrev pub frame_bytes : List ℕ → List ℕ
frame_bytes payload = be_bytes (length payload) ++ payload

length-be_bytes : (n : ℕ) → length (be_bytes n) ≡ 4
unfolding be_bytes
length-be_bytes n = refl

header-append :
    (n : ℕ) (rest : List ℕ) → read_exact 4 (be_bytes n ++ rest) ≡ some (be_bytes n, rest)
header-append n rest =
    let four : length (be_bytes n) ≡ 4 = length-be_bytes n in
    subst (λ (k : ℕ). read_exact k (be_bytes n ++ rest) ≡ some (be_bytes n, rest)) four
      (read_exact-append (be_bytes n) rest)

read_frame-header :
    (n : ℕ) (rest : List ℕ) → n < u32_mod → read_frame (be_bytes n ++ rest) ≡ read_body n rest
unfolding read_frame
read_frame-header n rest h =
    rw (read_frame, header-append n rest) (ap (λ k. read_body k rest) (from_be-be_bytes n h))

read_body-append :
    (payload rest : List ℕ)
    → length payload ≤ max_frame
    → read_body (length payload) (payload ++ rest) ≡ ok (some payload, rest)
unfolding read_body
read_body-append payload rest h =
    let fits : ltb max_frame (length payload) ≡ false = ground arith in
    rw (read_body, fits, read_exact-append payload rest) refl

-- A frame that stands in a stream is read as it was, and leaves the rest.
read_frame-append :
    (payload rest : List ℕ)
    → length payload ≤ max_frame
    → read_frame (frame_bytes payload ++ rest) ≡ ok (some payload, rest)
read_frame-append payload rest h =
    ap read_frame (append_assoc (be_bytes (length payload)) payload rest)
    ∙ read_frame-header (length payload) (payload ++ rest) (omega arith)
    ∙ read_body-append payload rest h

-- A writer that sends one payload after another.
unfoldable pub write_all : List ℕ → List (List ℕ) → Result (List ℕ) CodecError
write_all sent [] = ok sent
write_all sent (p ∷ ps) = write_frame sent p >>= (λ more. write_all more ps)

-- A reader that reads frames until the end; `err` if one of them is, or if `n` frames are not all.
unfoldable pub read_all : ℕ → List ℕ → Result (List (List ℕ)) CodecError
read_all zero stream = err io
read_all (suc n) stream = elim (read_frame stream) [
  | err e ↦ err e
  | ok frame ↦ elim frame.0 [
    | none ↦ ok []
    | some payload ↦ elim (read_all n frame.1) [ err e ↦ err e | ok later ↦ ok (payload ∷ later) ]
  ]
]

-- A payload that a frame may hold.
abbrev pub Fits : List ℕ → Type 0
Fits payload = length payload ≤ max_frame

abbrev all_bytes : List (List ℕ) → List ℕ
all_bytes [] = []
all_bytes (p ∷ ps) = frame_bytes p ++ all_bytes ps

write_frame-Fits : (sent p : List ℕ) → Fits p → write_frame sent p ≡ ok (sent ++ frame_bytes p)
unfolding write_frame
write_frame-Fits sent p h =
    let small : ltb (length p) u32_mod ≡ true = ground arith in
    let fits : leb (length p) max_frame ≡ true = ground arith in rw (small, fits) refl

write_all_bytes :
    (ps : List (List ℕ)) (sent : List ℕ)
    → All Fits ps
    → write_all sent ps ≡ ok (sent ++ all_bytes ps)
unfolding write_all
write_all_bytes [] sent h = ap ok (sym (append-nil sent))
write_all_bytes (p ∷ ps) sent h = rw (write_frame-Fits sent p h.0) (
    write_all_bytes ps (sent ++ frame_bytes p) h.1
    ∙ ap ok (append_assoc sent (frame_bytes p) (all_bytes ps)))

read_all_bytes :
    (ps : List (List ℕ)) → All Fits ps → read_all (suc (length ps)) (all_bytes ps) ≡ ok ps
unfolding read_all read_frame read_exact
read_all_bytes [] h = refl
read_all_bytes (p ∷ ps) h =
    rw (read_all, read_frame-append p (all_bytes ps) h.0, read_all_bytes ps h.1) refl

-- Payloads of at most 64 MiB are all sent, and a reader gets exactly them, in order, and then the
-- end of the file.
pub read_all-write_all :
    (ps : List (List ℕ)) → All Fits ps → (write_all [] ps >>= read_all (suc (length ps))) ≡ ok ps
read_all-write_all ps h = rw (write_all_bytes ps [] h) (read_all_bytes ps h)

read_exact_short : (n : ℕ) (stream : List ℕ) → length stream < n → read_exact n stream ≡ none
unfolding read_exact
read_exact_short n stream h = ground arith

-- A payload above 64 MiB is refused by the writer, and a length above it by the reader before
-- any of the payload is read; the error names the length, or the greatest `u32` where it is longer.
pub oversized_refused :
    (n : ℕ) (sent payload rest : List ℕ)
    → max_frame < n
    → n < u32_mod
    → max_frame < length payload
    → (read_frame (be_bytes n ++ rest) ≡ err (oversized n))
      × (write_frame sent payload ≡ err (oversized (min (length payload) (u32_mod - 1))))
unfolding write_frame read_body
oversized_refused n sent payload rest big fits long =
    (read_frame-header n rest fits ∙ (ground arith), ground arith)

-- A frame that is cut off inside its payload is an error, while a stream that ends inside the
-- four bytes of the length reads as a clean end, as an empty stream does.
pub read_frame_cut :
    (n : ℕ) (part header : List ℕ)
    → n ≤ max_frame
    → length part < n
    → length header < 4
    → (read_frame (be_bytes n ++ part) ≡ err io) × (read_frame header ≡ ok (none, []))
unfolding read_frame read_body
read_frame_cut n part header h short cut = (
  read_frame-header n part (omega arith)
      ∙ (let fits : ltb max_frame n ≡ false = ground arith in
          rw (read_body, fits, read_exact_short n part short) refl),
  rw (read_frame, read_exact_short 4 header cut) refl,
)

module _ {M : Type 0} (to_vec : M → Option (List ℕ)) (from_slice : List ℕ → Option M) where
  -- A message that its JSON decodes to again, in a frame that is not too large, is read back by
  -- the other side, which then stands at what was sent later.
  pub read_msg-write_msg :
      (m : M) (bytes later : List ℕ)
      → to_vec m ≡ some bytes
      → from_slice bytes ≡ some m
      → Fits bytes
      → (write_msg to_vec from_slice [] m
          >>= (λ stream. read_msg to_vec from_slice (stream ++ later)))
        ≡ ok (some m, later)
  unfolding read_msg write_msg encode decode write_frame
  read_msg-write_msg m bytes later printed parsed h =
      let small : ltb (length bytes) u32_mod ≡ true = ground (arith, h) in
      let fits : leb (length bytes) max_frame ≡ true = ground (arith, h) in
      let not_large : ltb max_frame (length bytes) ≡ false = ground (arith, h) in
      rw (write_msg, encode, printed, not_large, write_frame, small, fits)
        (rw (read_msg, read_frame-append bytes later h, decode, parsed) refl)
