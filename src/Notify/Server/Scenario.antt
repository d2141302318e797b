-- ===== src/Notify/Server/Scenario.antt =====
-- A message that `main` takes in and the sending thread delivers.
use memory_leak.Prelude.{
  ℕ, ◌+◌, ◌≤◌, ◌<◌, ◌≡◌, ◌≢◌, inl, inr, refl, ap, ◌∙◌, some, List, [], ◌∷◌, length, arith, ne→==,
  eq→==,
}
use memory_leak.Prelude.Run.{◌>>=◌, Returns}
use memory_leak.Notify.Evp.{IsGcm}
use memory_leak.Notify.Aes.Wire.{wire}
use memory_leak.Notify.Message.{
  Msg, memory, max_msg, msg_ntf, msg_get_aes, g_ntf_cli, g_cli_srv, from_dev_id,
}
use memory_leak.Notify.Message.Memory.{IsHeader}
use memory_leak.Notify.Registry.{SockaddrIn, Env}
use memory_leak.Notify.Registry.View.{view}
use memory_leak.Notify.Registry.Fresh.{Grants}
use memory_leak.Notify.Rsa.{Net, Private}
use memory_leak.Notify.Forward.{aes_key, aes_iv, destination}
use memory_leak.Notify.Forward.Delivery.{Form}
use memory_leak.Notify.Server.{Server, receive, sending_round}
use memory_leak.Notify.Server.Answer.{answer, length-answer}
use memory_leak.Notify.Server.Accept.{outgoing}
use memory_leak.Notify.Server.Open.{Carries}
use memory_leak.Notify.Server.Relay.{IsServer, receive-outgoing}
use memory_leak.Notify.Server.Deliver.{IsTracking, sending_round-flush}

-- A message for `id` whose ids end inside their fields, with a type and a route that `dum_msg` has
-- a text for.
pub record IsKnown (m : Msg) (id : List ℕ) : Type 0 where
  pub header : IsHeader m id
  pub type_known : m.type < 5
  pub route_known : m.ifroute < 6

module _ (net : Net) (g : IsGcm net.evp) (prv : Private) (env : Env) (grants : Grants env)
    (site : ℕ) (named : site ≤ 1500) where
  -- A registered device, and two datagrams: one carries a message for it, the other one its
  -- tracking message, from the address `addr`.
  pub record IsExchange (s : Server) (m : Msg) (id : List ℕ) (d track_d : List ℕ)
      (addr : SockaddrIn) : Type 0 where
    pub server : IsServer s
    pub empty : s.imd_fwd_lt ≡ []
    pub old : SockaddrIn
    pub registered : view s.table id ≡ some old
    pub known : IsKnown m id
    pub carries : Carries net g prv d (memory m)
    pub small : length d ≤ max_msg + 1
    pub tracking : Msg
    pub tracks : IsTracking tracking id
    pub carries_tracking : Carries net g prv track_d (memory tracking)
    pub small_tracking : length track_d ≤ max_msg

  module _ (s : Server) (m : Msg) (id d track_d : List ℕ) (addr : SockaddrIn)
      (x : IsExchange s m id d track_d addr) where
    -- What `m` lets the server send reaches the address.
    exchange :
        (o : Msg) (bytes : List ℕ)
        → outgoing m ≡ some o
        → destination o ≡ some (from_dev_id o)
        → o.dev_id ≡ m.dev_id
        → Form net g o (length (memory o)) bytes
        → (m.ifroute ≡ g_cli_srv → length (memory m) + 48 ≤ max_msg + 1)
        → Returns
            (receive net prv env site s d >>= λ s'.
              sending_round net prv env s' (some (addr, track_d)))
            λ r. (r.1 ≡ (addr, bytes) ∷ []) × (r.0.imd_fwd_lt ≡ []) × IsServer r.0
    exchange o bytes out names same_id form room =
        let (s', run, kept) =
          receive-outgoing net g prv env grants site named s x.server d m id x.known.header
            x.carries x.small x.known.type_known x.known.route_known room in
        let (r, sent, all) =
          sending_round-flush net g prv env grants s' kept.0 track_d x.tracking id addr x.tracks
            x.carries_tracking x.small_tracking o bytes x.old (kept.1 ∙ rw (out, x.empty) refl)
            names (rw same_id x.known.header.dev_field) form
            (ap (λ t. view t id) kept.2 ∙ x.registered) in
        (r, rw (run, ◌>>=◌) sent, all)

    -- With a well-formed server with an empty list, memory granted and documented EVP calls: a
    -- notification for a registered device that leaves 17 bytes of the block, taken in by `main`,
    -- goes out once, sealed with the server's key, to the sender of the tracking message of that
    -- device that the sending thread receives next, each datagram as it is, sealed or encrypted;
    -- the list is empty then and the server well-formed.
    pub sending_round-wire :
        m.ifroute ≡ g_ntf_cli
        → m.type ≡ msg_ntf
        → length (memory m) + 17 ≤ max_msg + 1
        → Returns
            (receive net prv env site s d >>= λ s'.
              sending_round net prv env s' (some (addr, track_d)))
            λ r.
              (r.1 ≡ (addr, wire net.evp g aes_key aes_iv (memory m)) ∷ [])
              × (r.0.imd_fwd_lt ≡ [])
              × IsServer r.0
    unfolding destination
    sending_round-wire route type fits =
        exchange m (wire net.evp g aes_key aes_iv (memory m))
          (rw
            (
              ne→== m.ifroute g_cli_srv (λ f. omega (arith, f, route)),
              eq→== m.ifroute g_ntf_cli route,
              eq→== m.type msg_ntf type,
            )
            refl)
          (rw (eq→== m.ifroute g_ntf_cli route) refl) refl (inr (type, fits, refl))
          (λ f. absurd (omega (arith, f, route)))

    -- With a well-formed server with an empty list, memory granted and documented EVP calls: a
    -- client's request of the key for a registered device, with room for the answer, whose type is
    -- neither that of a notification nor MSG_GET_AES, taken in by `main`, is answered with the key
    -- and the vector in clear, to the sender of the tracking message of that device that the
    -- sending thread receives next; the list is empty then and the server well-formed.
    pub sending_round-answer :
        m.ifroute ≡ g_cli_srv
        → m.type ≢ msg_ntf
        → m.type ≢ msg_get_aes
        → length (memory m) + 48 ≤ max_msg + 1
        → Returns
            (receive net prv env site s d >>= λ s'.
              sending_round net prv env s' (some (addr, track_d)))
            λ r. (r.1 ≡ (addr, memory (answer m)) ∷ []) × (r.0.imd_fwd_lt ≡ []) × IsServer r.0
    unfolding destination
    sending_round-answer route no_ntf no_aes room =
        exchange (answer m) (memory (answer m)) (rw (eq→== m.ifroute g_cli_srv route) refl) refl
          refl (inl (no_ntf, no_aes, omega (arith, length-answer m id x.known.header, room), refl))
          (λ f. room)
