-- ===== src/Notify/Server/Open.antt =====
-- What the server reads out of a datagram.
use memory_leak.Prelude.{
  ℕ, zero, suc, ◌+◌, ◌-◌, ◌≤◌, ◌≡◌, ◌≢◌, ◌⊎◌, inl, inr, refl, ap, sym, ◌∙◌, some, List, [], ◌∷◌,
  ◌++◌, length, drop, get_elem?, arith, take, take-append_of_eq, take-append_of_le, length-append,
  length-drop, length-replicate, ne→==, le→leb,
}
use memory_leak.Prelude.Int.{pos}
use memory_leak.Prelude.Memory.{copy_in-eq_some, copy_out-eq_some, overwrite}
use memory_leak.Prelude.Run.{ok, ◌>>=◌, Returns}
use memory_leak.Notify.Evp.{IsGcm}
use memory_leak.Notify.Aes.{encrypt_aes, msg_aes_dec}
use memory_leak.Notify.Aes.Wire.{wire}
use memory_leak.Notify.Aes.RoundTrip.{dec-wire}
use memory_leak.Notify.Message.{max_msg}
use memory_leak.Notify.Registry.{Env, my_malloc, fits_block}
use memory_leak.Notify.Registry.Fresh.{Grants}
use memory_leak.Notify.Rsa.{Net, Private, buflen, into_block, rsa_dec, rsa_block_dec, buflen-text}
use memory_leak.Notify.Forward.{aes_key, aes_iv}
use memory_leak.Notify.Server.{
  Opened, in_buffer, in_bufout, encrypt_srv_pub, cleared, unwrap, open_rsa, put_text, open_aes,
}

-- A datagram whose last byte does not say that it is encrypted.
pub record IsPlain (d : List ℕ) : Type 0 where
  pub enc : ℕ
  pub last : get_elem? d (length d - 1) ≡ some enc
  pub not_rsa : enc ≢ encrypt_srv_pub
  pub not_aes : enc ≢ encrypt_aes

-- The memory that is read: the text, and the rest of a block of 1201 bytes.
pub record Read (o : Opened) (text : List ℕ) : Type 0 where
  pub rest : List ℕ
  pub size : length text + length rest ≡ max_msg + 1
  pub place :
      (o ≡ in_buffer (text ++ rest) (length text)) ⊎ (o ≡ in_bufout (text ++ rest) (length text))

get_elem?-append :
    (xs ys : List ℕ) (i : ℕ) (x : ℕ) → get_elem? xs i ≡ some x → get_elem? (xs ++ ys) i ≡ some x
get_elem?-append [] ys i x e = cc
get_elem?-append (y ∷ xs) ys zero x e = e
get_elem?-append (y ∷ xs) ys (suc i) x e = get_elem?-append xs ys i x e

pub get_elem?-last : (xs : List ℕ) (y : ℕ) → get_elem? (xs ++ y ∷ []) (length xs) ≡ some y
get_elem?-last [] y = refl
get_elem?-last (x ∷ xs) y = get_elem?-last xs y

-- A datagram that the server's private key decrypts to a text that is not longer.
pub record IsRsa (prv : Private) (d text : List ℕ) : Type 0 where
  pub last : get_elem? d (length d - 1) ≡ some encrypt_srv_pub
  pub key : prv.Key
  pub loaded : prv.srv_prv ≡ some key
  pub block : ℕ
  pub sized : prv.rsa_size key ≡ pos (suc block)
  pub decrypts : prv.decrypt key (take (length d - 1) d) ≡ some text
  pub shorter : length text ≤ length d

module _ (net : Net) (g : IsGcm net.evp) (prv : Private) where
  -- The bytes of a text on their way: as they are, sealed with the key of the server, or encrypted
  -- with its public key.
  pub data Carries (d text : List ℕ) : Type 0 where
    as_it_is : d ≡ text → IsPlain d → Carries d text
    sealed : d ≡ wire net.evp g aes_key aes_iv text → Carries d text
    rsa : IsRsa prv d text → Carries d text

  module _ (env : Env) (grants : Grants env) (bufout : List ℕ)
      (b : length bufout ≡ max_msg + 1) where
    pub length-cleared : length cleared ≡ max_msg + 1
    length-cleared = length-replicate {A = ℕ} (max_msg + 1) 0

    unwrap-IsPlain :
        (d : List ℕ)
        → IsPlain d
        → length d ≤ max_msg + 1
        → Returns (unwrap net prv env bufout (overwrite cleared 0 d) (length d)) λ o. Read o d
    unfolding unwrap
    unwrap-IsPlain d p small =
        let rest = drop (0 + length d) cleared in
        (
          in_buffer (d ++ rest) (length d),
          rw
              (
                get_elem?-append d rest (length d - 1) p.enc p.last,
                ◌>>=◌,
                ne→== p.enc encrypt_srv_pub p.not_rsa,
                ne→== p.enc encrypt_aes p.not_aes,
              )
              refl,
          record {
            rest = rest;
            size = omega (arith, length-drop (0 + length d) cleared, length-cleared);
            place = inl refl;
          },
        )

    pub length-wire :
        (text : List ℕ) → length (wire net.evp g aes_key aes_iv text) ≡ length text + 17
    length-wire text =
        let a = g.seal aes_key aes_iv text in
        let b = g.mac aes_key aes_iv aes_iv a in
        omega (
          arith,
          g.length-seal aes_key aes_iv text,
          g.length-mac aes_key aes_iv aes_iv a,
          length-append a b,
          length-append (a ++ b) (encrypt_aes ∷ []),
        )

    module _ (d text : List ℕ) (e : d ≡ wire net.evp g aes_key aes_iv text) where
      length-sealed : length d ≡ length text + 17
      length-sealed = ap (λ (l : List ℕ). length l) e ∙ length-wire text

      last-sealed : get_elem? d (length d - 1) ≡ some encrypt_aes
      last-sealed =
          let a = g.seal aes_key aes_iv text in
          let c = a ++ g.mac aes_key aes_iv aes_iv a in
          let place : length d - 1 ≡ length c =
            omega (arith, ap (λ (l : List ℕ). length l) e, length-append c (encrypt_aes ∷ [])) in
          ap (λ (l : List ℕ). get_elem? l (length d - 1)) e
          ∙ ap (λ (i : ℕ). get_elem? (c ++ encrypt_aes ∷ []) i) place
          ∙ get_elem?-last c encrypt_aes

      dec-sealed :
          (behind : List ℕ)
          → length d ≤ max_msg + 1
          → msg_aes_dec net.evp
              (some (d ++ behind))
              (some bufout)
              (some aes_key)
              (some aes_iv)
              (length d)
              (some (length d))
              (max_msg + 1)
            ≡ ok (record {
              err = 0;
              buffer = some (text ++ drop (0 + length text) bufout);
              lenout = some (length text);
            })
      dec-sealed behind small =
          ap
            (λ (n : ℕ).
              msg_aes_dec net.evp (some (d ++ behind)) (some bufout) (some aes_key) (some aes_iv) n
                (some n) (max_msg + 1))
            length-sealed
          ∙ dec-wire net.evp g aes_key aes_iv refl refl (d ++ behind) bufout text (length text + 17)
              (max_msg + 1) (take-append_of_eq (length text + 17) d behind (sym length-sealed) ∙ e)
              (omega (arith, length-sealed, length-append d behind))
              (omega (arith, length-sealed, small)) (omega (arith, length-sealed, small))
              (omega (arith, b))

      unwrap-sealed :
          length d ≤ max_msg + 1
          → Returns (unwrap net prv env bufout (overwrite cleared 0 d) (length d)) λ o. Read o text
      unfolding unwrap open_aes
      unwrap-sealed small =
          let behind = drop (0 + length d) cleared in
          let rest = drop (0 + length text) bufout in
          (
            in_bufout (text ++ rest) (length text),
            rw
                (
                  get_elem?-append d behind (length d - 1) encrypt_aes last-sealed,
                  ◌>>=◌,
                  dec-sealed behind small,
                )
                refl,
            record {
              rest = rest;
              size = omega (arith, length-drop (0 + length text) bufout, b, length-sealed, small);
              place = inr refl;
            },
          )

    unwrap-IsRsa :
        (d text : List ℕ)
        → IsRsa prv d text
        → length d ≤ max_msg + 1
        → Returns (unwrap net prv env bufout (overwrite cleared 0 d) (length d)) λ o. Read o text
    unfolding unwrap open_rsa rsa_dec rsa_block_dec my_malloc put_text into_block fits_block
    unwrap-IsRsa d text r small =
        let behind = drop (0 + length d) cleared in
        let rest = drop (0 + length text) cleared in
        (
          in_buffer (text ++ rest) (length text),
          rw
              (
                get_elem?-append d behind (length d - 1) encrypt_srv_pub r.last,
                ◌>>=◌,
                r.loaded,
                open_rsa,
                r.sized,
                rsa_block_dec,
                grants.granted (buflen (length d - 1) (suc r.block)),
                copy_out-eq_some (d ++ behind) (length d - 1)
                    (omega (arith, length-append d behind)),
                take-append_of_le (length d - 1) d behind (omega arith),
                r.decrypts,
                into_block,
                le→leb (length text) (buflen (length d - 1) (suc r.block))
                    (omega (arith, r.shorter, buflen-text (length d - 1) r.block)),
                put_text,
                copy_in-eq_some cleared 0 text (omega (arith, length-cleared, r.shorter, small)),
              )
              refl,
          record {
            rest = rest;
            size =
                omega
                  (arith, length-drop (0 + length text) cleared, length-cleared, r.shorter, small);
            place = inl refl;
          },
        )

    -- In each way the text is read.
    pub unwrap-Carries :
        (d text : List ℕ)
        → Carries d text
        → length d ≤ max_msg + 1
        → Returns (unwrap net prv env bufout (overwrite cleared 0 d) (length d)) λ o. Read o text
    unwrap-Carries d text (as_it_is e p) small = rw (← e) (unwrap-IsPlain d p small)
    unwrap-Carries d text (sealed e) small = unwrap-sealed d text e small
    unwrap-Carries d text (rsa r) small = unwrap-IsRsa d text r small

    pub length-Carries : (d text : List ℕ) → Carries d text → length text ≤ length d
    length-Carries d text (as_it_is e p) = omega (arith, ap (λ (l : List ℕ). length l) e)
    length-Carries d text (sealed e) = omega (arith, length-sealed d text e)
    length-Carries d text (rsa r) = r.shorter
