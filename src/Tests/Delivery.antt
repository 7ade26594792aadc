-- ===== src/Tests/Delivery.antt =====
-- Runs of the view delivery.
use nits.Prelude.{ℕ, zero, suc, ◌+◌, ◌≡◌, refl, arith, Option, some, List, [], ◌∷◌, All, ok}
use nits.Protocol.Domain.{Text}
use nits.Client.Delivery.{
  snapshot, delta, ViewFrameBody, complete_body, fragment_body, ViewFrame, ViewEncoder,
  revision_exhausted, text_len, escape_cost, fragment, encode,
}
use nits.Client.Delivery.Pieces.{text_cost}
use nits.Client.Delivery.Receive.{receive, IsPart, fragment-receive}
use nits.Client.Delivery.Encode.{
  json_string, IsBounded, IsSerialiser, Delivers, encode_err, encode-Delivers,
}

-- `n` letters.
letters : ℕ → Text
letters zero = []
letters (suc n) = 97 ∷ letters n

letters_len : (n : ℕ) → text_len (letters n) ≡ n
unfolding text_len letters
letters_len zero = refl
letters_len (suc n) = omega (arith, letters_len n)

letters_cost : (n : ℕ) → text_cost (letters n) ≡ n
unfolding text_cost letters escape_cost
letters_cost zero = refl
letters_cost (suc n) = omega (arith, letters_cost n)

abbrev long : Text
long = letters 70000

fragment-receive_example :
    (frames : List (ViewFrame ℕ)) × (fragment 1 delta long ≡ ok frames)
    × All (IsPart 1 delta) frames
    × (receive frames ≡ some long)
fragment-receive_example =
    fragment-receive 1 delta long (omega (arith, letters_len 70000))
      (omega (arith, letters_cost 70000))

-- A patch is a character, and a frame has ten bytes of its own.
abbrev print : List ℕ → Option Text
print ps = some ps

abbrev body_len : ViewFrameBody ℕ → Option ℕ
body_len (complete_body ps) = some (text_len ps + 10)
body_len (fragment_body _ piece) = some (text_len (json_string piece) + 10)

abbrev measure : ViewFrame ℕ → Option ℕ
measure f = body_len f.body

plain : IsSerialiser print measure
plain = record {
  complete_len =
      λ r k ps json h. (text_len ps + 10, refl, (let e : ps ≡ json = cc in ground (arith, e)));
  fragment_len = λ r k position piece. (text_len (json_string piece) + 10, refl, omega arith);
}

abbrev fresh : ViewEncoder
fresh = record { revision = 0 }

encode-Delivers_example :
    (frames : List (ViewFrame ℕ)) × (encode print measure fresh snapshot long
      ≡ (ok frames, record { revision = 1 }))
    × All (IsBounded print measure) frames
    × Delivers print measure plain snapshot long long refl
        (omega (arith, letters_len 70000))
        1
        frames
encode-Delivers_example =
    encode-Delivers print measure plain snapshot long long refl (omega (arith, letters_len 70000))
      fresh (omega arith)

abbrev one_frame : List (ViewFrame ℕ)
one_frame = record { revision = 1; kind = delta; body = complete_body (5 ∷ 6 ∷ []) } ∷ []

abbrev spent : ViewEncoder
spent = record { revision = 4294967295 }

encode_err_example : (encode print measure spent delta []).1 ≡ spent
encode_err_example =
    encode_err print measure spent delta [] revision_exhausted (unfold encode in refl)
