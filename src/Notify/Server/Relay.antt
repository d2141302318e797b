-- ===== src/Notify/Server/Relay.antt =====
-- The rounds of the two loops, for datagrams that carry a message.
use memory_leak.Prelude.{
  ℕ, ◌+◌, ◌≤◌, ◌<◌, ◌≡◌, ◌⊎◌, inl, inr, refl, ◌∙◌, List, length, arith, take_all, length-append,
  le→ltb,
}
use memory_leak.Prelude.Memory.{copy_in-eq_some, overwrite}
use memory_leak.Prelude.Run.{fault, ◌>>=◌, Returns}
use memory_leak.Notify.Evp.{IsGcm}
use memory_leak.Notify.Message.{Msg, memory, max_msg, common_size, g_cli_srv}
use memory_leak.Notify.Message.Memory.{IsHeader, length-memory}
use memory_leak.Notify.Registry.{Env}
use memory_leak.Notify.Registry.View.{IsRegistry}
use memory_leak.Notify.Registry.Fresh.{Grants}
use memory_leak.Notify.Rsa.{Net, Private}
use memory_leak.Notify.Server.{Server, cleared, unwrap, handle_opened, handle_datagram, receive}
use memory_leak.Notify.Server.Accept.{
  outgoing, with_waiting, handle_msg-outgoing, handle_msg-overrun, handle_msg-unknown,
}
use memory_leak.Notify.Server.Open.{Carries, length-Carries, length-cleared, unwrap-Carries}

-- The table is well-formed, and the blocks have their sizes.
pub record IsServer (s : Server) : Type 0 where
  pub registry : IsRegistry s.table
  pub main_block : length s.bufout ≡ max_msg + 1
  pub sending_block : length s.bufout_sending ≡ max_msg + 1

module _ (net : Net) (g : IsGcm net.evp) (prv : Private) (env : Env) (grants : Grants env)
    (site : ℕ) (named : site ≤ 1500) where
  module _ (s : Server) (w : IsServer s) (d : List ℕ) (m : Msg) (id : List ℕ) (h : IsHeader m id)
      (c : Carries net g prv d (memory m)) (small : length d ≤ max_msg + 1) where
    long_enough : common_size ≤ length d
    long_enough = omega (
      arith,
      length-Carries net g prv env grants s.bufout w.main_block d (memory m) c,
      length-memory m id h,
    )

    -- The round goes on with what is read.
    receive-unwrap : receive net prv env site s d ≡ (
        unwrap net prv env s.bufout (overwrite cleared 0 d) (length d) >>= λ o.
        handle_opened net prv env site s o)
    unfolding receive handle_datagram
    receive-unwrap =
        rw
          (
            take_all (max_msg + 1) d small,
            le→ltb (length d) common_size long_enough,
            copy_in-eq_some cleared 0 d
                (omega (arith, small, length-cleared net g prv env grants s.bufout w.main_block)),
            ◌>>=◌,
          )
          refl

    -- With documented EVP calls, memory granted and a well-formed server, a datagram that carries a
    -- message with a well-formed header and a known type and route, as it is, sealed with the
    -- server's key or encrypted with its public key, lets `main` end its round without fault, with
    -- `outgoing m` in front of the list, the table as it was and the server well-formed, if a
    -- request of the key leaves 48 bytes of the block.
    pub receive-outgoing :
        m.type < 5
        → m.ifroute < 6
        → (m.ifroute ≡ g_cli_srv → length (memory m) + 48 ≤ max_msg + 1)
        → Returns (receive net prv env site s d) λ s'.
          IsServer s'
          × (s'.imd_fwd_lt ≡ with_waiting (outgoing m) s.imd_fwd_lt)
          × (s'.table ≡ s.table)
    unfolding handle_opened
    receive-outgoing t known room =
        let (o, run, r) =
          unwrap-Carries net g prv env grants s.bufout w.main_block d (memory m) c small in
        let (v, handled, answered) =
          handle_msg-outgoing net prv env grants m id h r.rest s.imd_fwd_lt site t known named
            (λ e. omega (arith, room e, r.size)) in
        elim r.place [
          | inl e ↦ (
            record s { imd_fwd_lt = v.1 },
            receive-unwrap ∙ rw (run, ◌>>=◌, e, handle_opened, handled) refl,
            (
              record {
                registry = w.registry;
                main_block = w.main_block;
                sending_block = w.sending_block;
              },
              answered.1,
              refl,
            ),
          )
          | inr e ↦ (
            record s { imd_fwd_lt = v.1; bufout = v.0 },
            receive-unwrap ∙ rw (run, ◌>>=◌, e, handle_opened, handled) refl,
            (
              record {
                registry = w.registry;
                main_block = answered.0 ∙ length-append (memory m) r.rest ∙ r.size;
                sending_block = w.sending_block;
              },
              answered.1,
              refl,
            ),
          )
        ]

    -- With documented EVP calls, memory granted and a well-formed server, a datagram that carries a
    -- client's request of the key, with a well-formed header and a known type, which leaves less
    -- than 48 bytes of the block, makes `main` write past the end of the block.
    pub receive-overrun :
        m.type < 5
        → m.ifroute ≡ g_cli_srv
        → max_msg + 1 < length (memory m) + 48
        → receive net prv env site s d ≡ fault
    unfolding handle_opened
    receive-overrun t e full =
        let (o, run, r) =
          unwrap-Carries net g prv env grants s.bufout w.main_block d (memory m) c small in
        let fails =
          handle_msg-overrun net prv env grants m id h r.rest s.imd_fwd_lt site t named e
            (omega (arith, full, r.size)) in
        elim r.place [
          | inl e ↦ receive-unwrap ∙ rw (run, ◌>>=◌, e, handle_opened, fails) refl
          | inr e ↦ receive-unwrap ∙ rw (run, ◌>>=◌, e, handle_opened, fails) refl
        ]

    -- With documented EVP calls, memory granted and a well-formed server, a datagram that carries a
    -- message with a well-formed header and a type of 5 or more or a route of 6 or more makes
    -- `main` read past the end of an array of `dum_msg`.
    pub receive-unknown : (5 ≤ m.type) ⊎ (6 ≤ m.ifroute) → receive net prv env site s d ≡ fault
    unfolding handle_opened
    receive-unknown u =
        let (o, run, r) =
          unwrap-Carries net g prv env grants s.bufout w.main_block d (memory m) c small in
        let fails = handle_msg-unknown net prv env grants m id h r.rest s.imd_fwd_lt site u in
        elim r.place [
          | inl e ↦ receive-unwrap ∙ rw (run, ◌>>=◌, e, handle_opened, fails) refl
          | inr e ↦ receive-unwrap ∙ rw (run, ◌>>=◌, e, handle_opened, fails) refl
        ]
