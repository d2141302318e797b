-- ===== src/Notify/Tests.antt =====
-- Integers in byte arrays and the hash of an id, at concrete values.
use memory_leak.Prelude.{ℕ, ◌%◌, ◌≡◌, refl, some, List, [], ◌∷◌, arith}
use memory_leak.Prelude.Run.{ok, ◌>>=◌}
use memory_leak.Notify.Codec.RoundTrip.{of_64, to_arr, from_arr, codec_round_trip}
use memory_leak.Notify.Hash.{hash_func, hash_size}
use memory_leak.Notify.Hash.Poly.{poly, hash_func-poly}

abbrev field : List ℕ
field = 9 ∷ 9 ∷ 9 ∷ []

codec_round_trip_example :
    (to_arr of_64 (some field) 4097 2 >>= λ a. from_arr of_64 a (some 5) 2) ≡ ok (some 4097)
codec_round_trip_example =
    codec_round_trip field 4097 2 (omega arith) (omega arith) (omega arith) 5 of_64 (omega arith)

abbrev name : List ℕ
name = 119 ∷ 49 ∷ []

hash_func-poly_example : hash_func name ≡ poly name % hash_size
hash_func-poly_example = hash_func-poly name (omega arith, (omega arith, tt)) (omega arith)

hash_name : hash_func name ≡ 3598
unfolding hash_func
hash_name = refl
