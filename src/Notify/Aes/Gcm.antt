-- ===== src/Notify/Aes/Gcm.antt =====
-- `gcm_encrypt` and `gcm_decrypt` with documented EVP calls.
use memory_leak.Prelude.{
  ℕ, ◌+◌, ◌≤◌, ◌≡◌, refl, ap, ◌∙◌, Bool, true, false, Option, some, List, [], if◌then◌else◌, length,
  take, arith, take-append-drop, take_all, length-take_of_le,
}
use memory_leak.Prelude.Int.{ℤ, pos, negsuc}
use memory_leak.Prelude.Memory.{
  copy_in, copy_in-eq_some, copy_out-eq_some, overwrite, length-overwrite,
}
use memory_leak.Prelude.Same.{same}
use memory_leak.Prelude.Run.{ok, ◌>>=◌}
use memory_leak.Notify.Evp.{Evp, IsGcm, bound}
use memory_leak.Notify.Aes.{
  start, seal_text, gcm_encrypt, opened_len, open_text, gcm_decrypt, key_bytes,
}

module _ (e : Evp) (g : IsGcm e) where
  -- A context that is ready for the text.
  start-bound :
      (b : Bool) (key iv aad : List ℕ) (iv_len : ℕ)
      → length key ≡ 32
      → length iv ≡ iv_len
      → g.stage (start e b key iv aad iv_len) ≡ bound b key iv aad
  unfolding start
  start-bound b key iv aad iv_len k v =
      let c0 = e.ctx_new in
      let s1 = g.at_cipher b c0 g.at_new in
      let s2 = g.at_ivlen b iv_len (e.init_cipher b c0) s1 in
      let s3 = g.at_key b key iv (e.set_ivlen iv_len (e.init_cipher b c0)) (rw v s2) k in
      g.at_aad b key iv aad (e.init_key b key iv (e.set_ivlen iv_len (e.init_cipher b c0))) s3

  -- The block from its start on: new bytes, then what was there.
  abbrev pub prefixed : List ℕ → List ℕ → List ℕ
  prefixed new old = overwrite old 0 new

  length-prefixed :
      (new old : List ℕ) → length new ≤ length old → length (prefixed new old) ≡ length old
  length-prefixed new old h = length-overwrite old 0 new (omega arith)

  -- A write of nothing.
  copy_in-nil : (dst : List ℕ) (off : ℕ) → off ≤ length dst → copy_in dst off [] ≡ some dst
  copy_in-nil dst off h =
      let same_end : off + 0 ≡ off = omega arith in
      copy_in-eq_some dst off [] (omega arith)
      ∙ ap {B = Option (List ℕ)} (λ (l : List ℕ). some l) (rw same_end (take-append-drop off dst))

  seal_text-seal :
      (key iv aad text ciphertext tag : List ℕ) (c : e.Ctx)
      → g.stage c ≡ bound true key iv aad
      → length text ≤ length ciphertext
      → 16 ≤ length tag
      → seal_text e c text ciphertext tag
        ≡ ok (
          length text,
          prefixed (g.seal key iv text) ciphertext,
          prefixed (g.mac key iv aad (g.seal key iv text)) tag,
        )
  unfolding seal_text
  seal_text-seal key iv aad text ciphertext tag c s room room' =
      let out : (e.update true text c).0 ≡ g.seal key iv text =
        (g.at_update true key iv aad text c s).0 in
      let s' = (g.at_update true key iv aad text c s).1 in
      let (rest, s'') = g.at_seal key iv aad text (e.update true text c).1 s' in
      let t = g.at_get_tag key iv aad text (e.final true (e.update true text c).1).2 s'' in
      let n = g.length-seal key iv text in
      let all : length text + 0 ≡ length text = omega arith in
      rw
        (
          out,
          rest,
          t,
          copy_in-eq_some ciphertext 0 (g.seal key iv text) (omega arith),
          ◌>>=◌,
          copy_in-nil (prefixed (g.seal key iv text) ciphertext) (length (g.seal key iv text))
              (omega (arith, length-prefixed (g.seal key iv text) ciphertext (omega arith))),
          copy_in-eq_some tag 0 (g.mac key iv aad (g.seal key iv text))
              (omega (arith, g.length-mac key iv aad (g.seal key iv text))),
          n,
          all,
        )
        refl

  -- With room for it, `gcm_encrypt` leaves the ciphertext and the tag at the start of their blocks.
  pub gcm_encrypt-seal :
      (plaintext key iv ciphertext tag : List ℕ) (n : ℕ)
      → n ≤ length plaintext
      → length key ≡ key_bytes
      → length iv ≡ 16
      → n ≤ length ciphertext
      → 16 ≤ length tag
      → gcm_encrypt e plaintext n iv 16 key iv 16 ciphertext tag
        ≡ ok (
          n,
          prefixed (g.seal key iv (take n plaintext)) ciphertext,
          prefixed (g.mac key iv iv (g.seal key iv (take n plaintext))) tag,
        )
  unfolding gcm_encrypt
  gcm_encrypt-seal plaintext key iv ciphertext tag n inside k v room room' =
      rw
        (
          copy_out-eq_some key key_bytes (omega arith),
          copy_out-eq_some iv 16 (omega arith),
          copy_out-eq_some plaintext n inside,
          ◌>>=◌,
          take_all key_bytes key (omega arith),
          take_all 16 iv (omega arith),
          seal_text-seal key iv iv (take n plaintext) ciphertext tag (start e true key iv iv 16)
              (start-bound true key iv iv 16 k v)
              (omega (arith, length-take_of_le n plaintext inside)) room',
          length-take_of_le n plaintext inside,
        )
        refl

  -- What `gcm_decrypt` returns for a tag: the length, or -1.
  abbrev pub checked : (key iv text tag : List ℕ) → ℤ
  checked key iv text tag = if same tag (g.mac key iv iv text) then pos (length text) else negsuc 0

  opened_len-checked :
      (key iv text tag : List ℕ) (b : Bool)
      → opened_len e (if b then pos 1 else pos 0) (length text)
        ≡ (if b then pos (length text) else negsuc 0)
  unfolding opened_len
  opened_len-checked key iv text tag true = refl
  opened_len-checked key iv text tag false = refl

  open_text-checked :
      (key iv text tag plaintext : List ℕ) (c : e.Ctx)
      → g.stage c ≡ bound false key iv iv
      → length text ≤ length plaintext
      → open_text e c text tag plaintext
        ≡ ok (checked key iv text tag, prefixed (g.unseal key iv text) plaintext)
  unfolding open_text
  open_text-checked key iv text tag plaintext c s room =
      let out : (e.update false text c).0 ≡ g.unseal key iv text =
        (g.at_update false key iv iv text c s).0 in
      let s' =
        g.at_set_tag key iv iv text tag (e.update false text c).1
          (g.at_update false key iv iv text c s).1 in
      let (ret, rest) = g.at_open key iv iv text tag (e.set_tag tag (e.update false text c).1) s' in
      let n = g.length-unseal key iv text in
      let all : length text + 0 ≡ length text = omega arith in
      rw
        (
          out,
          rest,
          ret,
          copy_in-eq_some plaintext 0 (g.unseal key iv text) (omega arith),
          ◌>>=◌,
          copy_in-nil (prefixed (g.unseal key iv text) plaintext) (length (g.unseal key iv text))
              (omega (arith, length-prefixed (g.unseal key iv text) plaintext (omega arith))),
          n,
          all,
          opened_len-checked key iv text tag (same tag (g.mac key iv iv text)),
        )
        refl

  -- With room for it, `gcm_decrypt` leaves the plaintext at the start of its block, and returns its
  -- length if the tag is right, else -1.
  pub gcm_decrypt-checked :
      (ciphertext key iv tag plaintext : List ℕ) (n : ℕ)
      → n ≤ length ciphertext
      → length key ≡ key_bytes
      → length iv ≡ 16
      → 16 ≤ length tag
      → n ≤ length plaintext
      → gcm_decrypt e ciphertext n iv 16 tag key iv 16 plaintext
        ≡ ok (
          checked key iv (take n ciphertext) (take 16 tag),
          prefixed (g.unseal key iv (take n ciphertext)) plaintext,
        )
  unfolding gcm_decrypt
  gcm_decrypt-checked ciphertext key iv tag plaintext n inside k v t room =
      rw
        (
          copy_out-eq_some key key_bytes (omega arith),
          copy_out-eq_some iv 16 (omega arith),
          copy_out-eq_some ciphertext n inside,
          copy_out-eq_some tag 16 t,
          ◌>>=◌,
          take_all key_bytes key (omega arith),
          take_all 16 iv (omega arith),
          open_text-checked key iv (take n ciphertext) (take 16 tag) plaintext
              (start e false key iv iv 16) (start-bound false key iv iv 16 k v)
              (omega (arith, length-take_of_le n ciphertext inside)),
        )
        refl
