-- ===== src/Notify/Ev/Tests.antt =====
-- Encryption with a tag of its own at concrete values.
use memory_leak.Prelude.{
  ℕ, ◌≡◌, refl, true, false, some, List, [], ◌∷◌, ◌++◌, take, replicate, arith,
}
use memory_leak.Prelude.Run.{◌>>=◌, or_fault, Returns}
use memory_leak.Notify.Aes.Toy.{toy, toy_laws, key, iv}
use memory_leak.Notify.Registry.Sample.{env}
use memory_leak.Notify.Ev.{ev_aes_enc, ev_aes_dec}
use memory_leak.Notify.Ev.RoundTrip.{ev_aes_round_trip}

abbrev text : List ℕ
text = 104 ∷ 105 ∷ []

abbrev tag : List ℕ
tag = replicate 17 5

ev_aes_round_trip_example :
    Returns (ev_aes_enc toy (env false) (some text) true (some key) (some iv) 2 (some 0) tag) λ c.
      (c.err ≡ 0)
      × (c.outlen ≡ some 2)
      × Returns
          (or_fault c.outlen >>= λ len.
            ev_aes_dec toy (env false) c.out true (some key) (some iv) len (some 7) c.tag)
          λ r. (r.err ≡ 0) × (r.out ≡ some (take 2 text ++ 0 ∷ [])) × (r.outlen ≡ some 2)
ev_aes_round_trip_example =
    ev_aes_round_trip toy toy_laws (env false) (λ n. refl) key iv refl refl text tag 2 0 7
      (λ e. omega arith) (omega arith) (omega arith) (omega arith)
