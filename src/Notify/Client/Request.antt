-- ===== src/Notify/Client/Request.antt =====
-- A command on its way to the server, encrypted with the server's public key.
use memory_leak.Prelude.{
  ℕ, suc, ◌+◌, ◌-◌, ◌≤◌, ◌<◌, ◌≡◌, refl, ap, sym, ◌∙◌, true, none, some, List, [], ◌∷◌, ◌++◌,
  length, take, drop, get_elem?, arith, length-append, length-replicate, take-append_of_eq, lt→leb,
  le→leb, ne→==,
}
use memory_leak.Prelude.Int.{pos}
use memory_leak.Prelude.Memory.{
  overwrite, copy_in-eq_some, copy_out-eq_some, length-overwrite, take-overwrite,
}
use memory_leak.Prelude.Run.{ok, ◌>>=◌, Returns}
use memory_leak.Notify.Codec.RoundTrip.{stored}
use memory_leak.Notify.Codec.Bytes.{le_bytes}
use memory_leak.Notify.Evp.{IsGcm}
use memory_leak.Notify.Message.{Msg, Timespec, memory, common_size, len_devid, max_msg}
use memory_leak.Notify.Message.Ids.{IsString}
use memory_leak.Notify.Message.Memory.{IsHeader, length-memory}
use memory_leak.Notify.Registry.{SockaddrIn, Env, my_malloc, fits_block}
use memory_leak.Notify.Registry.Fresh.{Grants}
use memory_leak.Notify.Rsa.{Net, Private, buflen, rsa_enc, into_block, rsa_block_enc, buflen-room}
use memory_leak.Notify.Server.{Server, receive}
use memory_leak.Notify.Server.Accept.{outgoing, with_waiting}
use memory_leak.Notify.Server.Dump.{dum_msg-header}
use memory_leak.Notify.Server.Open.{IsRsa, rsa, get_elem?-last}
use memory_leak.Notify.Server.Relay.{IsServer, receive-outgoing}
use memory_leak.Notify.Client.{srv_pub_path, send, send_marked, cmd_2_srv}
use memory_leak.Notify.Client.Command.{zeros, command, command-IsHeader, cmd_msg-command}

-- The key on the client's file and the server's private key belong together: with the padding of
-- PKCS #1, a text that is at least 11 bytes shorter than the key becomes a ciphertext of the size
-- of the key, which decrypts to the text.
pub record IsKeyPair (net : Net) (prv : Private) : Type 0 where
  pub pub_key : net.Key
  pub prv_key : prv.Key
  pub on_file : net.read_key srv_pub_path ≡ some pub_key
  pub loaded : prv.srv_prv ≡ some prv_key
  pub block : ℕ
  pub pub_size : net.rsa_size pub_key ≡ pos (suc block)
  pub prv_size : prv.rsa_size prv_key ≡ pos (suc block)
  pub cipher : List ℕ → List ℕ
  pub length-cipher :
      (text : List ℕ) → length text + 11 ≤ suc block → length (cipher text) ≡ suc block
  pub encrypts :
      (text : List ℕ) → length text + 11 ≤ suc block → net.encrypt pub_key text ≡ some (cipher text)
  pub decrypts :
      (text : List ℕ) → length text + 11 ≤ suc block → prv.decrypt prv_key (cipher text) ≡ some text

module _ (net : Net) (env : Env) where
  -- A ciphertext goes out with its marker.
  send_marked-cipher :
      (addr : SockaddrIn) (buf c : List ℕ)
      → length buf ≡ max_msg + 1
      → length c < max_msg
      → send_marked net env addr buf c ≡ ok (net.sendto addr (c ++ 1 ∷ []), some (c ++ 1 ∷ []))
  unfolding send_marked send
  send_marked-cipher addr buf c b small =
      let first : List ℕ = overwrite buf 0 c in
      let l1 : length first ≡ max_msg + 1 =
        length-overwrite buf 0 c (omega (arith, b, small)) ∙ b in
      let both : List ℕ = overwrite first (length c) (1 ∷ []) in
      let l2 : length both ≡ max_msg + 1 =
        length-overwrite first (length c) (1 ∷ []) (omega (arith, l1, small)) ∙ l1 in
      let out : take (length c + 1) both ≡ c ++ 1 ∷ [] =
        take-overwrite first (length c) (1 ∷ []) (omega (arith, l1, small))
        ∙ ap (λ (l : List ℕ). l ++ 1 ∷ [])
            (take-append_of_eq (length c) c (drop (0 + length c) buf) refl) in
      rw
        (
          lt→leb max_msg (length c) small,
          copy_in-eq_some buf 0 c (omega (arith, b, small)),
          ◌>>=◌,
          copy_in-eq_some first (length c) (1 ∷ []) (omega (arith, l1, small)),
          copy_out-eq_some both (length c + 1) (omega (arith, l2, small)),
          out,
        )
        refl

  module _ (prv : Private) (k : IsKeyPair net prv) where
    IsRsa-cipher :
        (text : List ℕ) → length text + 11 ≤ suc k.block → IsRsa prv (k.cipher text ++ 1 ∷ []) text
    IsRsa-cipher text h =
        let c = k.cipher text in
        let size = length-append c (1 ∷ []) in
        let end : length (c ++ 1 ∷ []) - 1 ≡ length c = omega (arith, size) in
        record {
          last = ap (λ (i : ℕ). get_elem? (c ++ 1 ∷ []) i) end ∙ get_elem?-last c 1;
          key = k.prv_key;
          loaded = k.loaded;
          block = k.block;
          sized = k.prv_size;
          decrypts =
              ap (prv.decrypt k.prv_key) (
                ap (λ (i : ℕ). take i (c ++ 1 ∷ [])) end
                ∙ take-append_of_eq (length c) c (1 ∷ []) refl)
              ∙ k.decrypts text h;
          shorter = omega (arith, size, k.length-cipher text h);
        }

    module _ (grants : Grants env) where
      rsa_enc-cipher :
          (text rest : List ℕ) (n : ℕ)
          → n ≡ length text
          → 0 < n
          → length text + 11 ≤ suc k.block
          → rsa_enc net env (net.read_key srv_pub_path) (text ++ rest) true n
            ≡ ok (0, some (k.cipher text))
      unfolding rsa_enc rsa_block_enc my_malloc into_block fits_block
      rsa_enc-cipher text rest n e p h =
          rw
            (
              k.on_file,
              rsa_enc,
              k.pub_size,
              rsa_block_enc,
              grants.granted (buflen n (suc k.block)),
              ◌>>=◌,
              copy_out-eq_some (text ++ rest) n (omega (arith, e, length-append text rest)),
              take-append_of_eq n text rest e,
              k.encrypts text h,
              into_block,
              le→leb (length (k.cipher text)) (buflen n (suc k.block)) (
                  omega
                    (arith, k.length-cipher text h, buflen-room n k.block p (omega (arith, e, h)))),
            )
            refl

      -- What `cmd_2_srv` sends, for an id of less than 40 bytes.
      cmd_2_srv-cipher :
          (id more : List ℕ) (string : IsString id) (short : length id < len_devid)
          (site fd closed cmd r len : ℕ) (addr : SockaddrIn) (t : Timespec)
          → site ≤ 1500
          → cmd < 5
          → r < 6
          → 111 ≤ suc k.block
          → suc k.block < max_msg
          → let m = command cmd r id (stored (zeros 8) t.tv_sec 8) (stored (zeros 8) t.tv_nsec 8) in
            cmd_2_srv net env site (pos (suc fd)) closed cmd r none len (id ++ 0 ∷ more) addr t
            ≡ ok (closed, some (k.cipher (memory m) ++ 1 ∷ []))
      unfolding cmd_2_srv le_bytes
      cmd_2_srv-cipher id more string short site fd closed cmd r len addr t named c q large small =
          let m = command cmd r id (stored (zeros 8) t.tv_sec 8) (stored (zeros 8) t.tv_nsec 8) in
          let header : IsHeader m id =
            command-IsHeader id string short cmd r (stored (zeros 8) t.tv_sec 8)
              (stored (zeros 8) t.tv_nsec 8) refl refl in
          let size : length (memory m) ≡ 100 = omega (arith, length-memory m id header) in
          let fits : length (memory m) + 11 ≤ suc k.block = omega (arith, size, large) in
          let full : length (memory m ++ zeros 1101) ≡ max_msg + 1 =
            omega (
              arith,
              size,
              length-append (memory m) (zeros 1101),
              length-replicate {A = ℕ} 1101 0,
            ) in
          rw
            (
              cmd_msg-command id string short cmd r len more t (omega (arith, c))
                  (omega (arith, q)),
              ◌>>=◌,
              dum_msg-header m id header (zeros 1101) site c q named,
              rsa_enc-cipher (memory m) (zeros 1101) common_size (sym size) (omega arith) fits,
              send_marked-cipher addr (memory m ++ zeros 1101) (k.cipher (memory m)) full
                  (omega (arith, k.length-cipher (memory m) fits, small)),
              ne→== (suc fd) 0 (λ e. omega (arith, e)),
            )
            refl

  module _ (prv : Private) (k : IsKeyPair net prv) (grants : Grants env) (g : IsGcm net.evp) where
    -- With documented EVP calls, memory granted, a key pair of 111 to 1199 bytes, a socket above 0,
    -- an id that is a string of less than 40 bytes, and a type and route that `dum_msg` has a text
    -- for: `cmd_2_srv` without data returns what `close` returns and sends one datagram, which
    -- carries a message for that id with that type and route: `main` of a well-formed server that
    -- receives it puts what the message lets it send in front of its list, and stays well-formed.
    pub receive-cmd_2_srv :
        (id more : List ℕ) (site fd closed cmd r len : ℕ) (addr : SockaddrIn) (t : Timespec)
        (s : Server)
        → IsString id
        → length id < len_devid
        → site ≤ 1500
        → cmd < 5
        → r < 6
        → 111 ≤ suc k.block
        → suc k.block < max_msg
        → IsServer s
        → Returns
            (cmd_2_srv net env site (pos (suc fd)) closed cmd r none len (id ++ 0 ∷ more) addr t)
            λ out.
              (d : List ℕ) × (m : Msg) × (out ≡ (closed, some d))
              × IsHeader m id
              × (m.type ≡ cmd)
              × (m.ifroute ≡ r)
              × Returns (receive net prv env site s d) λ s'.
                IsServer s'
                × (s'.imd_fwd_lt ≡ with_waiting (outgoing m) s.imd_fwd_lt)
                × (s'.table ≡ s.table)
    unfolding le_bytes
    receive-cmd_2_srv id more site fd closed cmd r len addr t s string short named c q large small
          w =
        let m = command cmd r id (stored (zeros 8) t.tv_sec 8) (stored (zeros 8) t.tv_nsec 8) in
        let header : IsHeader m id =
          command-IsHeader id string short cmd r (stored (zeros 8) t.tv_sec 8)
            (stored (zeros 8) t.tv_nsec 8) refl refl in
        let size : length (memory m) ≡ 100 = omega (arith, length-memory m id header) in
        let fits : length (memory m) + 11 ≤ suc k.block = omega (arith, size, large) in
        let d = k.cipher (memory m) ++ 1 ∷ [] in
        let small_d : length d ≤ max_msg + 1 = omega (
          arith,
          k.length-cipher (memory m) fits,
          length-append (k.cipher (memory m)) (1 ∷ []),
          small,
        ) in
        (
          (closed, some d),
          cmd_2_srv-cipher prv k grants id more string short site fd closed cmd r len addr t named c
              q large small,
          (
            d,
            m,
            refl,
            header,
            refl,
            refl,
            receive-outgoing net g prv env grants site named s w d m id header
                (rsa (IsRsa-cipher prv k (memory m) fits)) small_d c q (λ e. omega (arith, size)),
          ),
        )
