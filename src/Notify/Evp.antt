-- ===== src/Notify/Evp.antt =====
-- The calls of libcrypto's EVP interface that msg_notify.c makes with AES-256-GCM, as a parameter,
-- and what their documentation says of them. `Ctx` is the pointer with the context behind it.
use memory_leak.Prelude.{ℕ, ◌≡◌, Bool, true, false, List, [], length, if◌then◌else◌}
use memory_leak.Prelude.Int.{ℤ, pos}
use memory_leak.Prelude.Same.{same}

-- `true` is encryption, `false` decryption. A call that hands out bytes gives them and the new
-- context; `final` has its result in front.
pub record Evp : Type 1 where
  pub Ctx : Type 0
  pub ctx_new : Ctx
  pub init_cipher : Bool → Ctx → Ctx
  pub set_ivlen : ℕ → Ctx → Ctx
  pub init_key : Bool → (key iv : List ℕ) → Ctx → Ctx
  pub update_aad : Bool → List ℕ → Ctx → Ctx
  pub update : Bool → List ℕ → Ctx → List ℕ × Ctx
  pub final : Bool → Ctx → ℤ × List ℕ × Ctx
  pub get_tag : Ctx → List ℕ × Ctx
  pub set_tag : List ℕ → Ctx → Ctx

-- The calls that a context has seen.
pub data Stage : Type 0 where
  fresh : Stage
  ciphered : Bool → Stage
  sized : Bool → ℕ → Stage
  keyed : Bool → (key iv : List ℕ) → Stage
  bound : Bool → (key iv aad : List ℕ) → Stage
  worked : Bool → (key iv aad text : List ℕ) → Stage
  tagged : (key iv aad text tag : List ℕ) → Stage

-- The documented behaviour: a 256-bit key and an initialisation vector of the size that was set
-- give a stream cipher (`seal` and `unseal`) and a tag of 16 bytes over the additional data and the
-- ciphertext (`mac`); a decryption is final with 1 if the tag that was set is that one, else 0.
pub record IsGcm (e : Evp) : Type 0 where
  pub seal : (key iv text : List ℕ) → List ℕ
  pub unseal : (key iv text : List ℕ) → List ℕ
  pub mac : (key iv aad text : List ℕ) → List ℕ
  pub unseal-seal : (key iv text : List ℕ) → unseal key iv (seal key iv text) ≡ text
  pub length-seal : (key iv text : List ℕ) → length (seal key iv text) ≡ length text
  pub length-unseal : (key iv text : List ℕ) → length (unseal key iv text) ≡ length text
  pub length-mac : (key iv aad text : List ℕ) → length (mac key iv aad text) ≡ 16
  pub stage : e.Ctx → Stage
  pub at_new : stage e.ctx_new ≡ fresh
  pub at_cipher : (b : Bool) (c : e.Ctx) → stage c ≡ fresh → stage (e.init_cipher b c) ≡ ciphered b
  pub at_ivlen :
      (b : Bool) (n : ℕ) (c : e.Ctx) → stage c ≡ ciphered b → stage (e.set_ivlen n c) ≡ sized b n
  pub at_key :
      (b : Bool) (key iv : List ℕ) (c : e.Ctx)
      → stage c ≡ sized b (length iv)
      → length key ≡ 32
      → stage (e.init_key b key iv c) ≡ keyed b key iv
  pub at_aad :
      (b : Bool) (key iv aad : List ℕ) (c : e.Ctx)
      → stage c ≡ keyed b key iv
      → stage (e.update_aad b aad c) ≡ bound b key iv aad
  pub at_update :
      (b : Bool) (key iv aad text : List ℕ) (c : e.Ctx)
      → stage c ≡ bound b key iv aad
      → ((e.update b text c).0 ≡ (if b then seal key iv text else unseal key iv text))
        × (stage (e.update b text c).1 ≡ worked b key iv aad text)
  pub at_seal :
      (key iv aad text : List ℕ) (c : e.Ctx)
      → stage c ≡ worked true key iv aad text
      → ((e.final true c).1 ≡ []) × (stage (e.final true c).2 ≡ worked true key iv aad text)
  pub at_get_tag :
      (key iv aad text : List ℕ) (c : e.Ctx)
      → stage c ≡ worked true key iv aad text
      → (e.get_tag c).0 ≡ mac key iv aad (seal key iv text)
  pub at_set_tag :
      (key iv aad text tag : List ℕ) (c : e.Ctx)
      → stage c ≡ worked false key iv aad text
      → stage (e.set_tag tag c) ≡ tagged key iv aad text tag
  pub at_open :
      (key iv aad text tag : List ℕ) (c : e.Ctx)
      → stage c ≡ tagged key iv aad text tag
      → ((e.final false c).0 ≡ (if same tag (mac key iv aad text) then pos 1 else pos 0))
        × ((e.final false c).1 ≡ [])
