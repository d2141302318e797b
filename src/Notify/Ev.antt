-- ===== src/Notify/Ev.antt =====
-- notify.system/msg_notify.c: `ev_aes_enc` and `ev_aes_dec`, which keep the tag apart and allocate
-- the output. Sizes are not negative, and the blocks do not overlap.
pub mod RoundTrip
mod Tests
use memory_leak.Prelude.{
  ℕ, zero, suc, ◌+◌, Bool, true, false, Option, none, some, List, [], ◌∷◌, ◌++◌, replicate,
}
use memory_leak.Prelude.Int.{ℤ, pos, negsuc}
use memory_leak.Prelude.Memory.{copy_in, copy_out}
use memory_leak.Prelude.Run.{Run, ok, ◌>>=◌, or_fault}
use memory_leak.Notify.Evp.{Evp}
use memory_leak.Notify.Message.{max_msg}
use memory_leak.Notify.Registry.{Env, my_malloc, pointer_size}
use memory_leak.Notify.Aes.{gcm_encrypt, gcm_decrypt, aes_iv_bytes}

-- `err`, the block that is stored in `*out` if one is, `*outlen`, and the tag block.
pub record EvResult : Type 0 where
  pub err : ℕ
  pub out : Option (List ℕ)
  pub outlen : Option ℕ
  pub tag : List ℕ

-- A null argument, or no output.
abbrev pub ev_error : Option ℕ → List ℕ → EvResult
ev_error outlen tag = record { err = 1; out = none; outlen = outlen; tag = tag }

-- `buf`, all zeros.
abbrev pub ev_buf : List ℕ
ev_buf = replicate (max_msg + 1) 0

-- The part behind the call of libcrypto: a length below 1 is an error.
unfoldable pub ev_store : Env → ℤ → (buf : List ℕ) (outlen : ℕ) (tag : List ℕ) → Run EvResult
ev_store env (negsuc n) buf outlen tag = ok (ev_error (some outlen) tag)
ev_store env (pos zero) buf outlen tag = ok (ev_error (some outlen) tag)
ev_store env (pos (suc n)) buf outlen tag = do
  _ ← my_malloc env (suc n + 1)
  text ← or_fault (copy_out buf (suc n))
  ok (record { err = 0; out = some (text ++ 0 ∷ []); outlen = some (suc n); tag = tag })

module _ (e : Evp) (env : Env) where
  -- `memset(tag, 0, sizeof(tag))` clears as many bytes as a pointer has.
  unfoldable pub ev_seal : (input key iv : List ℕ) (lenin outlen : ℕ) (tag : List ℕ) → Run EvResult
  ev_seal input key iv lenin outlen tag = do
    tag ← or_fault (copy_in tag 0 (replicate pointer_size 0))
    (n, buf, tag) ← gcm_encrypt e input lenin iv aes_iv_bytes key iv aes_iv_bytes ev_buf tag
    ev_store env (pos n) buf outlen tag

  -- `wanted` says that `out` is not null.
  unfoldable pub ev_aes_enc :
      (input : Option (List ℕ)) (wanted : Bool) (key iv : Option (List ℕ)) (lenin : ℕ)
      (outlen : Option ℕ) (tag : List ℕ)
      → Run EvResult
  ev_aes_enc none wanted key iv lenin outlen tag = ok (ev_error outlen tag)
  ev_aes_enc (some input) false key iv lenin outlen tag = ok (ev_error outlen tag)
  ev_aes_enc (some input) true none iv lenin outlen tag = ok (ev_error outlen tag)
  ev_aes_enc (some input) true (some key) none lenin outlen tag = ok (ev_error outlen tag)
  ev_aes_enc (some input) true (some key) (some iv) lenin none tag = ok (ev_error none tag)
  ev_aes_enc (some input) true (some key) (some iv) lenin (some outlen) tag =
      ev_seal input key iv lenin outlen tag

  unfoldable pub ev_unseal :
      (input key iv : List ℕ) (lenin outlen : ℕ) (tag : List ℕ) → Run EvResult
  ev_unseal input key iv lenin outlen tag = do
    (n, buf) ← gcm_decrypt e input lenin iv aes_iv_bytes tag key iv aes_iv_bytes ev_buf
    ev_store env n buf outlen tag

  unfoldable pub ev_aes_dec :
      (input : Option (List ℕ)) (wanted : Bool) (key iv : Option (List ℕ)) (lenin : ℕ)
      (outlen : Option ℕ) (tag : List ℕ)
      → Run EvResult
  ev_aes_dec none wanted key iv lenin outlen tag = ok (ev_error outlen tag)
  ev_aes_dec (some input) false key iv lenin outlen tag = ok (ev_error outlen tag)
  ev_aes_dec (some input) true none iv lenin outlen tag = ok (ev_error outlen tag)
  ev_aes_dec (some input) true (some key) none lenin outlen tag = ok (ev_error outlen tag)
  ev_aes_dec (some input) true (some key) (some iv) lenin none tag = ok (ev_error none tag)
  ev_aes_dec (some input) true (some key) (some iv) lenin (some outlen) tag =
      ev_unseal input key iv lenin outlen tag
