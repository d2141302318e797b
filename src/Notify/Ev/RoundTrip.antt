-- ===== src/Notify/Ev/RoundTrip.antt =====
-- What `ev_aes_enc` stores and `ev_aes_dec` makes of it.
use memory_leak.Prelude.{
  ℕ, zero, suc, ◌+◌, ◌≤◌, ◌≡◌, ◌≢◌, refl, sym, ◌∙◌, true, some, List, [], ◌∷◌, ◌++◌, length, take,
  drop, replicate, length-replicate, length-append, length-take_of_le, take-append_of_eq, arith,
}
use memory_leak.Prelude.Int.{pos}
use memory_leak.Prelude.Same.{same, same_refl}
use memory_leak.Prelude.Memory.{copy_in-eq_some, copy_out-eq_some, overwrite, length-overwrite}
use memory_leak.Prelude.Run.{ok, ◌>>=◌, or_fault, Returns}
use memory_leak.Notify.Evp.{Evp, IsGcm}
use memory_leak.Notify.Message.{max_msg}
use memory_leak.Notify.Registry.{Env, my_malloc, pointer_size}
use memory_leak.Notify.Aes.{key_bytes}
use memory_leak.Notify.Aes.Gcm.{prefixed, gcm_encrypt-seal, gcm_decrypt-checked}
use memory_leak.Notify.Ev.{ev_buf, ev_store, ev_seal, ev_aes_enc, ev_unseal, ev_aes_dec}

-- A positive length is stored with its bytes and a 0 behind them.
ev_store-text :
    (env : Env) (n outlen : ℕ) (text rest tag : List ℕ)
    → ((k : ℕ) → env.grants k ≡ true)
    → length text ≡ n
    → n ≢ 0
    → ev_store env (pos n) (text ++ rest) outlen tag
      ≡ ok (record { err = 0; out = some (text ++ 0 ∷ []); outlen = some n; tag = tag })
unfolding ev_store my_malloc
ev_store-text env zero outlen text rest tag g l ne = absurd (ne refl)
ev_store-text env (suc n) outlen text rest tag g l ne =
    rw
      (
        g (suc n + 1),
        ◌>>=◌,
        copy_out-eq_some (text ++ rest) (suc n) (omega (arith, length-append text rest)),
        take-append_of_eq (suc n) text rest (sym l),
      )
      refl

length-ev_buf : length ev_buf ≡ max_msg + 1
length-ev_buf = length-replicate {A = ℕ} (max_msg + 1) 0

module _ (e : Evp) (g : IsGcm e) (env : Env) (grants : (k : ℕ) → env.grants k ≡ true)
    (key iv : List ℕ) (k : length key ≡ key_bytes) (v : length iv ≡ 16) where
  -- The tag block behind the encryption.
  abbrev sealed_tag : (tag text : List ℕ) → List ℕ
  sealed_tag tag text =
      prefixed e g (g.mac key iv iv (g.seal key iv text))
        (overwrite tag 0 (replicate pointer_size 0))

  ev_aes_enc-sealed :
      (input tag : List ℕ) (n old : ℕ)
      → n ≢ 0
      → n ≤ length input
      → n ≤ max_msg + 1
      → 16 ≤ length tag
      → ev_aes_enc e env (some input) true (some key) (some iv) n (some old) tag
        ≡ ok (record {
          err = 0;
          out = some (g.seal key iv (take n input) ++ 0 ∷ []);
          outlen = some n;
          tag = sealed_tag tag (take n input);
        })
  unfolding ev_aes_enc ev_seal
  ev_aes_enc-sealed input tag n old ne inside small room =
      let a = g.seal key iv (take n input) in
      let la : length a ≡ n =
        g.length-seal key iv (take n input) ∙ length-take_of_le n input inside in
      let tag0 = overwrite tag 0 (replicate pointer_size 0) in
      let eight : length {A = ℕ} (replicate pointer_size 0) ≡ 8 = refl in
      let cleared = length-overwrite tag 0 (replicate pointer_size 0) (omega arith) in
      rw
        (
          copy_in-eq_some tag 0 (replicate pointer_size 0) (omega arith),
          ◌>>=◌,
          gcm_encrypt-seal e g input key iv ev_buf tag0 n inside k v
              (omega (arith, length-ev_buf, small)) (omega (arith, cleared, room)),
        )
        (ev_store-text env n old a (drop (0 + length a) ev_buf) (sealed_tag tag (take n input))
          grants la ne)

  -- A ciphertext with its own tag.
  ev_aes_dec-genuine :
      (text tail tag' : List ℕ) (n old : ℕ)
      → n ≢ 0
      → length text ≡ n
      → n ≤ max_msg + 1
      → 16 ≤ length tag'
      → take 16 tag' ≡ g.mac key iv iv (g.seal key iv text)
      → ev_aes_dec e env
          (some (g.seal key iv text ++ tail))
          true
          (some key)
          (some iv)
          n
          (some old)
          tag'
        ≡ ok (record { err = 0; out = some (text ++ 0 ∷ []); outlen = some n; tag = tag' })
  unfolding ev_aes_dec ev_unseal
  ev_aes_dec-genuine text tail tag' n old ne l small room t =
      let a = g.seal key iv text in
      let la : length a ≡ n = g.length-seal key iv text ∙ l in
      let cut : take n (a ++ tail) ≡ a = take-append_of_eq n a tail (sym la) in
      let good : same (take 16 tag') (g.mac key iv iv a) ≡ true =
        rw t (same_refl (g.mac key iv iv a)) in
      rw
        (
          gcm_decrypt-checked e g (a ++ tail) key iv tag' ev_buf n
              (omega (arith, length-append a tail, la)) k v room
              (omega (arith, length-ev_buf, small)),
          ◌>>=◌,
          cut,
          good,
          la,
          g.unseal-seal key iv text,
        )
        (ev_store-text env n old text (drop (0 + length text) ev_buf) tag' grants l ne)

  -- With documented EVP calls, memory granted, a key of 32 and a vector of 16 bytes and room for 16
  -- bytes in the tag block, and a text of 1 to MAX_MSG + 1 bytes: `ev_aes_enc` returns 0 and stores
  -- the length of the text as the length of its output, and `ev_aes_dec` with the same key and
  -- vector, and the output, length and tag block of `ev_aes_enc`, returns 0 and stores the text
  -- with a 0 behind it, and its length.
  pub ev_aes_round_trip :
      (input tag : List ℕ) (n old old' : ℕ)
      → n ≢ 0
      → n ≤ length input
      → n ≤ max_msg + 1
      → 16 ≤ length tag
      → Returns (ev_aes_enc e env (some input) true (some key) (some iv) n (some old) tag) λ c.
        (c.err ≡ 0)
        × (c.outlen ≡ some n)
        × Returns
            (or_fault c.outlen >>= λ len.
              ev_aes_dec e env c.out true (some key) (some iv) len (some old') c.tag)
            λ r. (r.err ≡ 0) × (r.out ≡ some (take n input ++ 0 ∷ [])) × (r.outlen ≡ some n)
  ev_aes_round_trip input tag n old old' ne inside small room =
      let text = take n input in
      let b = g.mac key iv iv (g.seal key iv text) in
      let tag0 = overwrite tag 0 (replicate pointer_size 0) in
      let lb = g.length-mac key iv iv (g.seal key iv text) in
      let eight : length {A = ℕ} (replicate pointer_size 0) ≡ 8 = refl in
      let l0 = length-overwrite tag 0 (replicate pointer_size 0) (omega arith) in
      let l1 = length-overwrite tag0 0 b (omega (arith, l0, lb, room)) in
      (
        record {
          err = 0;
          out = some (g.seal key iv text ++ 0 ∷ []);
          outlen = some n;
          tag = sealed_tag tag text;
        },
        ev_aes_enc-sealed input tag n old ne inside small room,
        (
          refl,
          refl,
          (
            record {
              err = 0;
              out = some (text ++ 0 ∷ []);
              outlen = some n;
              tag = sealed_tag tag text;
            },
            ev_aes_dec-genuine text (0 ∷ []) (sealed_tag tag text) n old' ne
                (length-take_of_le n input inside) small (omega (arith, l0, l1, room))
                (take-append_of_eq 16 b (drop (0 + length b) tag0) (sym lb)),
            (refl, refl, refl),
          ),
        ),
      )
