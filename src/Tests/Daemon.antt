-- ===== src/Tests/Daemon.antt =====
-- Runs of the frame codec, the admission gate and the chunks of a render.
use nits.Prelude.{
  true, ℕ, zero, suc, ◌<◌, ◌≡◌, refl, arith, Option, none, some, List, [], ◌∷◌, ◌++◌, ok, err,
  length, ◌==◌, get_elem?, ◌>>=◌,
}
use nits.Protocol.Lines.{u32_mod}
use nits.Daemon.Codec.{io, be_bytes, read_frame, read_msg, write_msg}
use nits.Daemon.Codec.Streams.{
  write_all, read_all, read_all-write_all, read_frame_cut, read_msg-write_msg,
}
use nits.Daemon.Admission.{Admission, new, is_drained, subscribe, close}
use nits.Daemon.Admission.Runs.{
  Call, accept_call, drop_call, close_call, run, StaysClosed, is_drained-run, run-StaysClosed,
}
use nits.Review.Render.Chunks.{chunk, chunks}
use nits.Review.Render.Chunks.Whole.{rows_of, chunks-chunk}

abbrev payloads : List (List ℕ)
payloads = (1 ∷ 2 ∷ []) ∷ [] ∷ (3 ∷ []) ∷ []

read_all-write_all_example : (write_all [] payloads >>= read_all 4) ≡ ok payloads
read_all-write_all_example =
    read_all-write_all payloads ((omega arith, (omega arith, (omega arith, tt))))

zeros : ℕ → List ℕ
zeros zero = []
zeros (suc n) = 0 ∷ zeros n

length-zeros : (n : ℕ) → length (zeros n) ≡ n
unfolding zeros
length-zeros zero = refl
length-zeros (suc n) = omega (arith, length-zeros n)

read_frame_cut_example :
    (read_frame (be_bytes 5 ++ 1 ∷ 2 ∷ []) ≡ err io) × (read_frame (0 ∷ 0 ∷ []) ≡ ok (none, []))
read_frame_cut_example =
    read_frame_cut 5 (1 ∷ 2 ∷ []) (0 ∷ 0 ∷ []) (omega arith) (omega arith) (omega arith)

abbrev print : ℕ → Option (List ℕ)
print n = some (n ∷ [])

abbrev parse : List ℕ → Option ℕ
parse [] = none
parse (n ∷ _) = some n

read_msg-write_msg_example :
    (write_msg print parse [] 7 >>= (λ stream. read_msg print parse (stream ++ 9 ∷ [])))
    ≡ ok (some 7, 9 ∷ [])
read_msg-write_msg_example =
    read_msg-write_msg print parse 7 (7 ∷ []) (9 ∷ []) refl refl (omega arith)

abbrev calls : List (Call ℕ)
calls = accept_call ∷ accept_call ∷ drop_call ∷ close_call 8 ∷ accept_call ∷ close_call 9 ∷ []

is_drained-run_example :
    let (a, permits) = run calls (new, 0) in
    (is_drained a ≡ (permits == 0)) × (subscribe a ≡ a.operation)
is_drained-run_example = is_drained-run calls (omega arith)

-- Two permits are out.
abbrev busy : Admission ℕ
busy = record { operation = none; active = 2; lifecycle = none }

run-StaysClosed_example :
    let s = run calls ((close 8 busy).1, 2) in
    let later = run calls s in
    StaysClosed (close 8 busy).0.0 2 s
    × StaysClosed (close 8 busy).0.0 s.1 later
    × (is_drained s.0 ≡ true → is_drained later.0 ≡ true)
run-StaysClosed_example = run-StaysClosed calls calls 8 busy 2 refl (omega arith)

abbrev three : List ℕ
three = 1 ∷ 2 ∷ 3 ∷ []

chunks-chunk_example :
    (rows_of (chunks three) ≡ three)
    × ((i : ℕ) → i < u32_mod → chunk three i ≡ get_elem? (chunks three) i)
chunks-chunk_example = chunks-chunk three (omega arith)
