-- ===== src/Notify/Server/Loop.antt =====
-- The list behind a sequence of datagrams.
use memory_leak.Prelude.{
  ℕ, ◌+◌, ◌≤◌, ◌<◌, ◌≡◌, refl, ap, ◌∙◌, Option, none, some, List, [], ◌∷◌, length, arith, take_all,
  lt→ltb,
}
use memory_leak.Prelude.Run.{◌>>=◌, Returns}
use memory_leak.Notify.Evp.{IsGcm}
use memory_leak.Notify.Message.{Msg, memory, max_msg, common_size, g_cli_srv}
use memory_leak.Notify.Registry.{Item, Env}
use memory_leak.Notify.Registry.Fresh.{Grants}
use memory_leak.Notify.Rsa.{Net, Private}
use memory_leak.Notify.Server.{Server, receive, handle_datagram, main_loop}
use memory_leak.Notify.Server.Accept.{outgoing, with_waiting}
use memory_leak.Notify.Server.Open.{Carries}
use memory_leak.Notify.Server.Relay.{IsServer, receive-outgoing}
use memory_leak.Notify.Server.Scenario.{IsKnown}

-- The list behind what arrived, where `none` stands for what is no message.
abbrev pub queued : List (Option Msg) → List Item → List Item
queued [] fwd = fwd
queued (none ∷ ms) fwd = queued ms fwd
queued (some m ∷ ms) fwd = queued ms (with_waiting (outgoing m) fwd)

module _ (net : Net) (g : IsGcm net.evp) (prv : Private) where
  -- A datagram that is too short for a message, or one that carries a message with a type and route
  -- that have a text, and with room for the key if it asks for it.
  pub data Arrives (d : List ℕ) : Option Msg → Type 0 where
    short : length d < common_size → Arrives d none
    message :
        (m : Msg) (id : List ℕ)
        → IsKnown m id
        → Carries net g prv d (memory m)
        → length d ≤ max_msg + 1
        → (m.ifroute ≡ g_cli_srv → length (memory m) + 48 ≤ max_msg + 1)
        → Arrives d (some m)

  abbrev pub AllArrive : List (List ℕ) → List (Option Msg) → Type 0
  AllArrive [] [] = Unit {0}
  AllArrive [] (m ∷ ms) = ⊥
  AllArrive (d ∷ ds) [] = ⊥
  AllArrive (d ∷ ds) (m ∷ ms) = Arrives d m × AllArrive ds ms

  module _ (env : Env) (grants : Grants env) (site : ℕ) (named : site ≤ 1500) where
    receive-Arrives :
        (s : Server) (d : List ℕ) (m : Option Msg)
        → IsServer s
        → Arrives d m
        → Returns (receive net prv env site s d) λ s'.
          IsServer s' × (s'.imd_fwd_lt ≡ queued (m ∷ []) s.imd_fwd_lt) × (s'.table ≡ s.table)
    unfolding receive handle_datagram
    receive-Arrives s d none w (short h) = (
      s,
      rw (take_all (max_msg + 1) d (omega arith), lt→ltb (length d) common_size h) refl,
      (w, refl, refl),
    )
    receive-Arrives s d (some m) w (message m' id k c small room) =
        receive-outgoing net g prv env grants site named s w d m' id k.header c small k.type_known
          k.route_known room

    queued-cons :
        (m : Option Msg) (ms : List (Option Msg)) (fwd : List Item)
        → queued ms (queued (m ∷ []) fwd) ≡ queued (m ∷ ms) fwd
    queued-cons none ms fwd = refl
    queued-cons (some m) ms fwd = refl

    -- With documented EVP calls, memory granted and a well-formed server, `main` gets through every
    -- sequence of such datagrams without fault: the list then holds, in front of what was there,
    -- the message that each of them lets the server send, the last one first, the table is as it
    -- was, and the server is well-formed.
    pub main_loop-queued :
        (ds : List (List ℕ)) (ms : List (Option Msg)) (s : Server)
        → IsServer s
        → AllArrive ds ms
        → Returns
            (main_loop net prv env site s ds)
            λ s'. IsServer s' × (s'.imd_fwd_lt ≡ queued ms s.imd_fwd_lt) × (s'.table ≡ s.table)
    unfolding main_loop
    main_loop-queued [] [] s w a = (s, refl, (w, refl, refl))
    main_loop-queued [] (m ∷ ms) s w a = absurd a
    main_loop-queued (d ∷ ds) [] s w a = absurd a
    main_loop-queued (d ∷ ds) (m ∷ ms) s w a =
        let (s', first, k) = receive-Arrives s d m w a.0 in
        let (s'', others, k') = main_loop-queued ds ms s' k.0 a.1 in
        (
          s'',
          rw (first, ◌>>=◌) others,
          (k'.0, k'.1 ∙ ap (queued ms) k.1 ∙ queued-cons m ms s.imd_fwd_lt, k'.2 ∙ k.2),
        )
