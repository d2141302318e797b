-- ===== src/Notify/Rsa.antt =====
-- notify.system/msg_notify.c: `get_cli_pub`, `rsa_enc` and `rsa_dec`, over what is used of the system and of
-- libcrypto.
use memory_leak.Prelude.{
  ℕ, zero, suc, ◌+◌, ◌-◌, ◌%◌, ◌≤◌, ◌<◌, arith, ne→==, Bool, true, false, Option, none, some, List,
  [], ◌∷◌, ◌++◌, ◌==◌, if◌then◌else◌, length, take, replicate,
}
use native.Mathlib.Nat.{mod-eq_of_lt}
use memory_leak.Prelude.Int.{ℤ, pos, negsuc}
use memory_leak.Prelude.Memory.{copy_in, copy_out}
use memory_leak.Prelude.Run.{Run, ok, ◌>>=◌, or_fault}
use memory_leak.Notify.Evp.{Evp}
use memory_leak.Notify.Message.{strlen}
use memory_leak.Notify.Registry.{SockaddrIn, Env, my_malloc, fits_block}

-- What is used of the system and of libcrypto: the result of `sendto`; the RSA keys, with a key
-- that is read from a path, its RSA_size, and the result of RSA_public_encrypt, `none` below 1.
pub record Net : Type 1 where
  pub sendto : SockaddrIn → List ℕ → ℤ
  pub evp : Evp
  pub Key : Type 0
  pub read_key : List ℕ → Option Key
  pub rsa_size : Key → ℤ
  pub encrypt : Key → List ℕ → Option (List ℕ)

-- ".public-key.pem"
abbrev pub cli_suffix : List ℕ
cli_suffix = 46 ∷ 112 ∷ 117 ∷ 98 ∷ 108 ∷ 105 ∷ 99 ∷ 45 ∷ 107 ∷ 101 ∷ 121 ∷ 46 ∷ 112 ∷ 101 ∷ 109 ∷ []

-- The size of the block for the result.
unfoldable pub buflen : (lenin rsa_block : ℕ) → ℕ
buflen lenin zero = lenin + 1
buflen lenin (suc b) = if lenin % suc b == 0 then lenin + 1 else lenin + (suc b - lenin % suc b) + 1

-- The block is longer than the text that comes in, and has room for a result of the size of the
-- key, if the text is shorter than that.
pub buflen-text : (lenin b : ℕ) → lenin < buflen lenin (suc b)
unfolding buflen
buflen-text lenin b = ground arith

pub buflen-room : (lenin b : ℕ) → 0 < lenin → lenin < suc b → suc b ≤ buflen lenin (suc b)
unfolding buflen
buflen-room lenin b p small =
    rw (mod-eq_of_lt small, ne→== lenin 0 (λ e. omega arith)) (omega arith)

-- What libcrypto writes into the block `buf` of `room` bytes.
unfoldable pub into_block : (room : ℕ) → Option (List ℕ) → Run (Option (List ℕ))
into_block room none = ok none
into_block room (some result) = do _ ← fits_block (length result) room; ok (some result)

module _ (net : Net) where
  -- The path goes into 1024 bytes.
  unfoldable pub get_cli_pub : (idd : List ℕ) → Run (Option net.Key)
  get_cli_pub idd = do
    n ← or_fault (strlen idd)
    path ← or_fault (copy_in (replicate 1024 0) 0 (take n idd ++ (cli_suffix ++ 0 ∷ [])))
    ok (net.read_key (take (n + 15) path))

  -- The part of `rsa_enc` behind `RSA_size`.
  unfoldable pub rsa_block_enc :
      Env → net.Key → List ℕ → (lenin : ℕ) → ℤ → Run (ℕ × Option (List ℕ))
  rsa_block_enc env key input lenin (negsuc b) = ok (0, none)
  rsa_block_enc env key input lenin (pos zero) = ok (0, none)
  rsa_block_enc env key input lenin (pos (suc b)) = do
    _ ← my_malloc env (buflen lenin (suc b))
    text ← or_fault (copy_out input lenin)
    out ← into_block (buflen lenin (suc b)) (net.encrypt key text)
    ok (0, out)

  -- The result, and what `*out` gets, which `*outlen` counts; `wanted` says that `out` is not null.
  unfoldable pub rsa_enc :
      Env → Option net.Key → List ℕ → (wanted : Bool) (lenin : ℕ) → Run (ℕ × Option (List ℕ))
  rsa_enc env none input wanted lenin = ok (1, none)
  rsa_enc env (some key) input false lenin = ok (1, none)
  rsa_enc env (some key) input true lenin = rsa_block_enc env key input lenin (net.rsa_size key)

-- The server's private key, if its file can be read, its RSA_size, and the result of
-- RSA_private_decrypt, `none` below 1.
pub record Private : Type 1 where
  pub Key : Type 0
  pub srv_prv : Option Key
  pub rsa_size : Key → ℤ
  pub decrypt : Key → List ℕ → Option (List ℕ)

module _ (prv : Private) where
  abbrev pub decrypted : Option (List ℕ) → ℕ × Option (List ℕ)
  decrypted none = (1, none)
  decrypted (some text) = (0, some text)

  -- The part of `rsa_dec` behind `RSA_size`.
  unfoldable pub rsa_block_dec :
      Env → prv.Key → List ℕ → (lenin : ℕ) → ℤ → Run (ℕ × Option (List ℕ))
  rsa_block_dec env key input lenin (negsuc b) = ok (0, none)
  rsa_block_dec env key input lenin (pos zero) = ok (0, none)
  rsa_block_dec env key input lenin (pos (suc b)) = do
    _ ← my_malloc env (buflen lenin (suc b))
    text ← or_fault (copy_out input lenin)
    out ← into_block (buflen lenin (suc b)) (prv.decrypt key text)
    ok (decrypted out)

  -- The result, and what `*out` gets, which `*outlen` counts.
  unfoldable pub rsa_dec :
      Env
      → Option prv.Key
      → Option (List ℕ)
      → (wanted : Bool) (lenin : ℕ) → Run (ℕ × Option (List ℕ))
  rsa_dec env none input wanted lenin = ok (1, none)
  rsa_dec env (some key) none wanted lenin = ok (1, none)
  rsa_dec env (some key) (some input) false lenin = ok (1, none)
  rsa_dec env (some key) (some input) true lenin =
      rsa_block_dec env key input lenin (prv.rsa_size key)
