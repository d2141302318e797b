-- ===== src/Notify/Aes/Tests.antt =====
-- Encrypted messages at concrete values.
use memory_leak.Prelude.{ℕ, ◌+◌, ◌≡◌, refl, some, List, [], ◌∷◌, take, replicate, arith}
use memory_leak.Prelude.Same.{same}
use memory_leak.Prelude.Run.{◌>>=◌, Returns}
use memory_leak.Notify.Aes.{msg_aes_enc, msg_aes_dec}
use memory_leak.Notify.Aes.Wire.{wire}
use memory_leak.Notify.Aes.RoundTrip.{
  count, output, msg_aes_enc-wire, msg_aes_dec-verdict, msg_aes_round_trip,
}
use memory_leak.Notify.Aes.Toy.{toy, toy_laws, key, iv}

abbrev text : List ℕ
text = 104 ∷ 105 ∷ []

abbrev block : List ℕ
block = replicate 30 0

-- "hi", a tag of zeros, and the marker; and the same with another tag.
abbrev message : List ℕ
message = 104 ∷ 105 ∷ 0 ∷ 0 ∷ 0 ∷ 0 ∷ 0 ∷ 0 ∷ 0 ∷ 0 ∷ 0 ∷ 0 ∷ 0 ∷ 0 ∷ 0 ∷ 0 ∷ 0 ∷ 1 ∷ 3 ∷ []

msg_aes_enc-wire_example :
    Returns (msg_aes_enc toy (some text) (some block) (some key) (some iv) 2 (some 0) 30) λ r.
      (r.err ≡ 0) × (r.lenout ≡ some (2 + 17)) × (output r ≡ wire toy toy_laws key iv (take 2 text))
msg_aes_enc-wire_example =
    msg_aes_enc-wire toy toy_laws key iv refl refl text block 2 0 30 (omega arith) (omega arith)
      (omega arith)

msg_aes_dec-verdict_example :
    Returns
      (msg_aes_dec toy (some message) (some block) (some key) (some iv) 19 (some 7) 30)
      λ r. (r.err ≡ 1) × (output r ≡ [])
unfolding same
msg_aes_dec-verdict_example =
    msg_aes_dec-verdict toy toy_laws key iv refl refl message block 19 7 30 (omega arith)
      (omega arith) (omega arith) (omega arith) (omega arith)

msg_aes_round_trip_example :
    Returns
      (msg_aes_enc toy (some text) (some block) (some key) (some iv) 2 (some 0) 30 >>= λ r.
        msg_aes_dec toy r.buffer (some block) (some key) (some iv) (count r.lenout) (some 7) 30)
      λ r. (r.err ≡ 0) × (output r ≡ take 2 text)
msg_aes_round_trip_example =
    msg_aes_round_trip toy toy_laws key iv refl refl text block block 2 0 7 30 30 (omega arith)
      (omega arith) (omega arith) (omega arith) (omega arith) (omega arith)
