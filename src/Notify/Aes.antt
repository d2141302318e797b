-- ===== src/Notify/Aes.antt =====
-- notify.system/msg_notify.c: encrypted messages. A message on the wire is the ciphertext, the
-- tag of 16 bytes, and a byte that says how it is encrypted; the initialisation vector is the
-- additional data too. Sizes are not negative, and the blocks do not overlap.
pub mod Gcm
pub mod Wire
pub mod RoundTrip
pub mod Toy
mod Tests
use memory_leak.Prelude.{
  ℕ, suc, ◌+◌, ◌-◌, Bool, true, false, Option, none, some, List, [], ◌∷◌, leb, ltb, if◌then◌else◌,
  length, drop, replicate,
}
use memory_leak.Prelude.Int.{ℤ, pos, negsuc}
use memory_leak.Prelude.Memory.{copy_in, copy_out}
use memory_leak.Prelude.Run.{Run, ok, ◌>>=◌, or_fault}
use memory_leak.Notify.Evp.{Evp}
use memory_leak.Notify.Message.{max_msg}

-- AES_IV_BYTES, ENCRYPT_AES, and the bytes of a 256-bit key.
abbrev pub aes_iv_bytes : ℕ
aes_iv_bytes = 16

abbrev pub encrypt_aes : ℕ
encrypt_aes = 3

abbrev pub key_bytes : ℕ
key_bytes = 32

module _ (e : Evp) where
  -- The calls up to the additional data; what they answer is only printed.
  unfoldable pub start : Bool → (key iv aad : List ℕ) (iv_len : ℕ) → e.Ctx
  start b key iv aad iv_len =
      e.update_aad b aad (e.init_key b key iv (e.set_ivlen iv_len (e.init_cipher b e.ctx_new)))

  -- The result, the ciphertext block and the tag block.
  abbrev pub Sealed : Type 0
  Sealed = ℕ × List ℕ × List ℕ

  -- The calls from the plaintext on.
  unfoldable pub seal_text : e.Ctx → (text ciphertext tag : List ℕ) → Run Sealed
  seal_text c text ciphertext tag =
      let u = e.update true text c in
      let f = e.final true u.1 in
      (or_fault (copy_in ciphertext 0 u.0) >>= λ buf.
      or_fault (copy_in buf (length u.0) f.1) >>= λ buf.
      or_fault (copy_in tag 0 (e.get_tag f.2).0) >>= λ tag. ok (length u.0 + length f.1, buf, tag))

  unfoldable pub gcm_encrypt :
      (plaintext : List ℕ) (plaintext_len : ℕ)
      → (aad : List ℕ) (aad_len : ℕ) → (key iv : List ℕ) (iv_len : ℕ) → (ciphertext tag : List ℕ)
      → Run Sealed
  gcm_encrypt plaintext plaintext_len aad aad_len key iv iv_len ciphertext tag = do
    key ← or_fault (copy_out key key_bytes)
    iv ← or_fault (copy_out iv iv_len)
    aad ← or_fault (copy_out aad aad_len)
    text ← or_fault (copy_out plaintext plaintext_len)
    seal_text (start true key iv aad iv_len) text ciphertext tag

  -- The length if the tag is right, else -1.
  unfoldable pub opened_len : ℤ → ℕ → ℤ
  opened_len (negsuc ret) n = negsuc 0
  opened_len (pos ret) n = if ltb 0 ret then pos n else negsuc 0

  -- The calls from the ciphertext on.
  unfoldable pub open_text : e.Ctx → (text tag plaintext : List ℕ) → Run (ℤ × List ℕ)
  open_text c text tag plaintext =
      let u = e.update false text c in
      let f = e.final false (e.set_tag tag u.1) in
      (or_fault (copy_in plaintext 0 u.0) >>= λ buf.
      or_fault (copy_in buf (length u.0) f.1) >>= λ buf.
      ok (opened_len f.0 (length u.0 + length f.1), buf))

  unfoldable pub gcm_decrypt :
      (ciphertext : List ℕ) (ciphertext_len : ℕ)
      → (aad : List ℕ) (aad_len : ℕ) → (tag key iv : List ℕ) (iv_len : ℕ) → (plaintext : List ℕ)
      → Run (ℤ × List ℕ)
  gcm_decrypt ciphertext ciphertext_len aad aad_len tag key iv iv_len plaintext = do
    key ← or_fault (copy_out key key_bytes)
    iv ← or_fault (copy_out iv iv_len)
    aad ← or_fault (copy_out aad aad_len)
    text ← or_fault (copy_out ciphertext ciphertext_len)
    tag ← or_fault (copy_out tag 16)
    open_text (start false key iv aad iv_len) text tag plaintext

-- `err`, the output block and `*lenout`.
pub record Coded : Type 0 where
  pub err : ℕ
  pub buffer : Option (List ℕ)
  pub lenout : Option ℕ

module _ (e : Evp) where
  -- The body of `msg_aes_enc` behind its guards.
  unfoldable pub encode : (input buffer key iv : List ℕ) (lenin : ℕ) → Run Coded
  encode input buffer key iv lenin = do
    (len, buf, tag) ←
        gcm_encrypt e input lenin iv aes_iv_bytes key iv aes_iv_bytes buffer
          (replicate (aes_iv_bytes + 1) 0)
    tag ← or_fault (copy_out tag aes_iv_bytes)
    buf ← or_fault (copy_in buf len tag)
    buf ← or_fault (copy_in buf (len + aes_iv_bytes) (encrypt_aes ∷ []))
    ok (record { err = 0; buffer = some buf; lenout = some (len + aes_iv_bytes + 1) })

  unfoldable pub msg_aes_enc :
      (input buffer key iv : Option (List ℕ)) (lenin : ℕ) (lenout : Option ℕ) (lim : ℕ) → Run Coded
  msg_aes_enc none buffer key iv lenin lenout lim =
      ok (record { err = 1; buffer = buffer; lenout = lenout })
  msg_aes_enc (some input) none key iv lenin lenout lim =
      ok (record { err = 1; buffer = none; lenout = lenout })
  msg_aes_enc (some input) (some buffer) none iv lenin lenout lim =
      ok (record { err = 1; buffer = some buffer; lenout = lenout })
  msg_aes_enc (some input) (some buffer) (some key) none lenin lenout lim =
      ok (record { err = 1; buffer = some buffer; lenout = lenout })
  msg_aes_enc (some input) (some buffer) (some key) (some iv) lenin none lim =
      ok (record { err = 1; buffer = some buffer; lenout = none })
  msg_aes_enc (some input) (some buffer) (some key) (some iv) lenin (some lenout) lim =
      if ltb lim (lenin + 1 + aes_iv_bytes)
      then ok (record { err = 1; buffer = some buffer; lenout = some lenout })
      else encode input buffer key iv lenin

  -- What `msg_aes_dec` makes of the result of `gcm_decrypt`.
  unfoldable pub verdict : ℤ × List ℕ → Coded
  verdict (negsuc n, buf) = record { err = 1; buffer = some buf; lenout = some 0 }
  verdict (pos n, buf) = record { err = 0; buffer = some buf; lenout = some n }

  -- The body of `msg_aes_dec` behind its guards.
  unfoldable pub decode : (input buf key iv : List ℕ) (lenin : ℕ) → Run Coded
  decode input buf key iv lenin = do
    tag ← or_fault (copy_out (drop (lenin - 1 - aes_iv_bytes) input) aes_iv_bytes)
    tag ← or_fault (copy_in (replicate (aes_iv_bytes + 1) 0) 0 tag)
    r ← gcm_decrypt e input (lenin - 1 - aes_iv_bytes) iv aes_iv_bytes tag key iv aes_iv_bytes buf
    ok (verdict r)

  unfoldable pub msg_aes_dec :
      (input buf key iv : Option (List ℕ)) (lenin : ℕ) (lenout : Option ℕ) (lim : ℕ) → Run Coded
  msg_aes_dec none buf key iv lenin lenout lim =
      ok (record { err = 1; buffer = buf; lenout = lenout })
  msg_aes_dec (some input) none key iv lenin lenout lim =
      ok (record { err = 1; buffer = none; lenout = lenout })
  msg_aes_dec (some input) (some buf) none iv lenin lenout lim =
      ok (record { err = 1; buffer = some buf; lenout = lenout })
  msg_aes_dec (some input) (some buf) (some key) none lenin lenout lim =
      ok (record { err = 1; buffer = some buf; lenout = lenout })
  msg_aes_dec (some input) (some buf) (some key) (some iv) lenin none lim =
      ok (record { err = 1; buffer = some buf; lenout = none })
  msg_aes_dec (some input) (some buf) (some key) (some iv) lenin (some lenout) lim =
      if ltb (max_msg + 1) lenin
      then ok (record { err = 1; buffer = some buf; lenout = some lenout })
      else if ltb lenin (aes_iv_bytes + 1)
      then ok (record { err = 1; buffer = some buf; lenout = some lenout })
      else if ltb lim (lenin - 1 - aes_iv_bytes)
      then ok (record { err = 1; buffer = some buf; lenout = some lenout })
      else decode input buf key iv lenin
