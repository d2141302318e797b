-- ===== src/Notify/Aes/Wire.antt =====
-- What `msg_aes_enc` puts on the wire and `msg_aes_dec` makes of it.
use memory_leak.Prelude.{
  ℕ, zero, suc, ◌+◌, ◌-◌, ◌≤◌, ◌≡◌, refl, ap, sym, ◌∙◌, some, List, [], ◌∷◌, ◌++◌, length, take,
  drop, replicate, arith, length-take_of_le, take-take, take-append_of_eq, drop-append_of_eq,
  length-append, length-drop,
}
use memory_leak.Prelude.Memory.{
  copy_in-eq_some, copy_out-eq_some, overwrite, length-overwrite, take-overwrite,
}
use memory_leak.Prelude.Run.{ok, ◌>>=◌}
use memory_leak.Notify.Evp.{Evp, IsGcm}
use memory_leak.Notify.Aes.{key_bytes, encode, decode, verdict, encrypt_aes, aes_iv_bytes}
use memory_leak.Notify.Aes.Gcm.{prefixed, checked, gcm_encrypt-seal, gcm_decrypt-checked}

module _ (e : Evp) (g : IsGcm e) where
  -- Ciphertext, tag, and how the message is encrypted.
  abbrev pub wire : (key iv text : List ℕ) → List ℕ
  wire key iv text =
      (g.seal key iv text ++ g.mac key iv iv (g.seal key iv text)) ++ (encrypt_aes ∷ [])

  -- The three writes of `msg_aes_enc`, one behind the other.
  pub three_writes :
      (buffer a b c : List ℕ)
      → length a + length b + length c ≤ length buffer
      → take
          (length a + length b + length c)
          (overwrite (overwrite (overwrite buffer 0 a) (length a) b) (length a + length b) c)
        ≡ (a ++ b) ++ c
  three_writes buffer a b c h =
      let b1 = overwrite buffer 0 a in
      let l1 = length-overwrite buffer 0 a (omega arith) in
      let l2 = length-overwrite b1 (length a) b (omega arith) in
      take-overwrite (overwrite b1 (length a) b) (length a + length b) c (omega arith)
      ∙ ap (λ (t : List ℕ). t ++ c)
          (take-overwrite b1 (length a) b (omega arith)
            ∙ ap (λ (t : List ℕ). t ++ b)
                (take-append_of_eq (length a) a (drop (0 + length a) buffer) refl))

  -- The block behind the three writes.
  abbrev pub sealed : (buffer key iv text : List ℕ) → List ℕ
  sealed buffer key iv text =
      let a = g.seal key iv text in
      let b = g.mac key iv iv a in
      overwrite (overwrite (overwrite buffer 0 a) (length a) b) (length a + length b)
        (encrypt_aes ∷ [])

  pub encode-sealed :
      (input buffer key iv : List ℕ) (n : ℕ)
      → n ≤ length input
      → length key ≡ key_bytes
      → length iv ≡ 16
      → n + 17 ≤ length buffer
      → encode e input buffer key iv n
        ≡ ok (record {
          err = 0;
          buffer = some (sealed buffer key iv (take n input));
          lenout = some (n + aes_iv_bytes + 1);
        })
  unfolding encode
  encode-sealed input buffer key iv n inside k v room =
      let a = g.seal key iv (take n input) in
      let b = g.mac key iv iv a in
      let la : length a ≡ n =
        g.length-seal key iv (take n input) ∙ length-take_of_le n input inside in
      let lb : length b ≡ 16 = g.length-mac key iv iv a in
      let b1 = overwrite buffer 0 a in
      let l1 = length-overwrite buffer 0 a (omega arith) in
      let l2 = length-overwrite b1 n b (omega arith) in
      let tag : take 16 (prefixed e g b (replicate 17 0)) ≡ b =
        take-append_of_eq 16 b (drop (0 + length b) (replicate 17 0)) (sym lb) in
      rw
        (
          gcm_encrypt-seal e g input key iv buffer (replicate 17 0) n inside k v (omega arith)
              (omega arith),
          ◌>>=◌,
          copy_out-eq_some (prefixed e g b (replicate 17 0)) 16
              (omega (arith, length-overwrite (replicate 17 0) 0 b (omega arith))),
          tag,
          copy_in-eq_some b1 n b (omega arith),
          copy_in-eq_some (overwrite b1 n b) (n + aes_iv_bytes) (encrypt_aes ∷ []) (omega arith),
          la,
          lb,
        )
        refl

  -- The text and the tag of a message of `lenin` bytes.
  abbrev pub text_of : List ℕ → ℕ → List ℕ
  text_of x lenin = take (lenin - 1 - aes_iv_bytes) x

  abbrev pub tag_of : List ℕ → ℕ → List ℕ
  tag_of x lenin = take aes_iv_bytes (drop (lenin - 1 - aes_iv_bytes) x)

  pub decode-verdict :
      (x buf key iv : List ℕ) (lenin : ℕ)
      → 17 ≤ lenin
      → lenin ≤ length x
      → length key ≡ key_bytes
      → length iv ≡ 16
      → lenin - 17 ≤ length buf
      → decode e x buf key iv lenin
        ≡ ok (
            verdict e (
              checked e g key iv (text_of x lenin) (tag_of x lenin),
              prefixed e g (g.unseal key iv (text_of x lenin)) buf,
            ))
  unfolding decode
  decode-verdict x buf key iv lenin least inside k v room =
      let t = tag_of x lenin in
      let rest = drop (lenin - 1 - aes_iv_bytes) x in
      let lr = length-drop (lenin - 1 - aes_iv_bytes) x in
      let lt : length t ≡ 16 = length-take_of_le 16 rest (omega arith) in
      let lp = length-overwrite (replicate 17 0) 0 t (omega arith) in
      let tag : take 16 (prefixed e g t (replicate 17 0)) ≡ t =
        take-append_of_eq 16 t (drop (0 + length t) (replicate 17 0)) (sym lt) in
      rw
        (
          copy_out-eq_some rest 16 (omega arith),
          ◌>>=◌,
          copy_in-eq_some (replicate 17 0) 0 t (omega arith),
          gcm_decrypt-checked e g x key iv (prefixed e g t (replicate 17 0)) buf
              (lenin - 1 - aes_iv_bytes) (omega arith) k v (omega arith) (omega arith),
          tag,
        )
        refl

  take-drop : (n m k : ℕ) (xs : List ℕ) → k ≡ n + m → take m (drop n xs) ≡ drop n (take k xs)
  take-drop zero m k xs e = ap (λ (i : ℕ). take i xs) (omega arith)
  take-drop (suc n) m zero xs e = absurd (omega arith)
  take-drop (suc n) m (suc k) [] e = take-nil m
    where
      take-nil : (m : ℕ) → take {A = ℕ} m [] ≡ []
      take-nil zero = refl
      take-nil (suc m) = refl
  take-drop (suc n) m (suc k) (x ∷ xs) e = take-drop n m k xs (omega arith)

  -- A message that carries `wire` has that text and that tag.
  pub wire-text :
      (x key iv text : List ℕ) (n : ℕ)
      → length text ≡ n
      → take (n + 17) x ≡ wire key iv text
      → (take n x ≡ g.seal key iv text)
        × (take 16 (drop n x) ≡ g.mac key iv iv (g.seal key iv text))
  wire-text x key iv text n l w =
      let a = g.seal key iv text in
      let b = g.mac key iv iv a in
      let la = g.length-seal key iv text in
      let lb = g.length-mac key iv iv a in
      let both : take (n + 16) x ≡ a ++ b =
        sym (take-take (n + 16) (n + 17) x (omega arith))
        ∙ ap (λ (t : List ℕ). take (n + 16) t) w
        ∙ take-append_of_eq (n + 16) (a ++ b) (encrypt_aes ∷ [])
            (omega (arith, length-append a b)) in
      (
        sym (take-take n (n + 16) x (omega arith))
            ∙ ap (λ (t : List ℕ). take n t) both
            ∙ take-append_of_eq n a b (omega arith),
        take-drop n 16 (n + 16) x refl
            ∙ ap (λ (t : List ℕ). drop n t) both
            ∙ drop-append_of_eq n a b (omega arith),
      )
