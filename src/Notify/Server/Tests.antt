-- ===== src/Notify/Server/Tests.antt =====
-- The server at concrete datagrams.
use memory_leak.Prelude.{
  ℕ, ◌≡◌, ◌-◌, get_elem?, false, refl, none, some, List, [], ◌∷◌, ◌++◌, length, replicate, arith,
}
use memory_leak.Prelude.Same.{same}
use memory_leak.Prelude.Run.{fault, ◌>>=◌, Returns}
use memory_leak.Notify.Hash.{hash_func}
use memory_leak.Notify.Aes.Toy.{toy, toy_laws}
use memory_leak.Notify.Aes.Wire.{wire}
use memory_leak.Notify.Message.{Msg, memory, msg_ntf, g_cli_srv}
use memory_leak.Notify.Message.Ids.{IsField}
use memory_leak.Notify.Message.Memory.{IsHeader}
use memory_leak.Notify.Registry.{no_addr}
use memory_leak.Notify.Registry.View.{view, route, cstr}
use memory_leak.Notify.Registry.Sample.{
  first, first_id, first-IsField, one_device, env, env-Grants, addr,
}
use memory_leak.Notify.Forward.{aes_key, aes_iv}
use memory_leak.Notify.Server.{receive, main_loop, sending_round}
use memory_leak.Notify.Server.Sample.{net, prv, server, server-IsServer}
use memory_leak.Notify.Server.Answer.{answer}
use memory_leak.Notify.Server.Accept.{outgoing, with_waiting}
use memory_leak.Notify.Server.Open.{IsPlain, IsRsa, as_it_is, sealed, rsa}
use memory_leak.Notify.Server.Relay.{IsServer, receive-outgoing, receive-overrun}
use memory_leak.Notify.Server.Deliver.{IsTracking}
use memory_leak.Notify.Server.Scenario.{
  IsKnown, IsExchange, sending_round-wire, sending_round-answer,
}
use memory_leak.Notify.Server.Loop.{queued, short, message, main_loop-queued}

empty-IsField : IsField first.ntf_id []
empty-IsField = record { string = tt; pad = replicate 39 0; layout = refl; size = refl }

-- Messages of "w1": a notification, a request of the key, and one by a notifier.
abbrev news : Msg
news = record first { type = msg_ntf }

abbrev request : Msg
request = record first { ifroute = g_cli_srv }

-- A request that fills its datagram.
abbrev long_request : Msg
long_request = record request { data_bytes = replicate 1060 7 }

abbrev sealed_news : List ℕ
sealed_news = wire toy toy_laws aes_key aes_iv (memory news)

with-IsHeader :
    (type ifroute : ℕ) (data_bytes : List ℕ)
    → IsHeader (record first { type = type; ifroute = ifroute; data_bytes = data_bytes }) first_id
with-IsHeader type ifroute data_bytes = record {
  dev_field = first-IsField;
  notifier = [];
  ntf_field = empty-IsField;
  second_size = refl;
  nano_size = refl;
  len_size = refl;
}

news-IsKnown : IsKnown news first_id
news-IsKnown = record {
  header = with-IsHeader news.type news.ifroute news.data_bytes;
  type_known = omega arith;
  route_known = omega arith;
}

request-IsKnown : IsKnown request first_id
request-IsKnown = record {
  header = with-IsHeader request.type request.ifroute request.data_bytes;
  type_known = omega arith;
  route_known = omega arith;
}

-- The last byte is 7.
plain : (d : List ℕ) → get_elem? d (length d - 1) ≡ some 7 → IsPlain d
plain d e = record { enc = 7; last = e; not_rsa = λ f. omega arith; not_aes = λ f. omega arith }

receive-outgoing_example : Returns (receive net prv (env false) 50 server (memory request)) λ s'.
    IsServer s' × (s'.imd_fwd_lt ≡ with_waiting (outgoing request) []) × (s'.table ≡ one_device)
receive-outgoing_example =
    receive-outgoing net toy_laws prv (env false) env-Grants 50 (omega arith) server server-IsServer
      (memory request) request first_id request-IsKnown.header
      (as_it_is refl (plain (memory request) refl)) (omega arith) (omega arith) (omega arith)
      (λ e. omega arith)

receive-overrun_example : receive net prv (env false) 50 server (memory long_request) ≡ fault
receive-overrun_example =
    receive-overrun net toy_laws prv (env false) env-Grants 50 (omega arith) server server-IsServer
      (memory long_request) long_request first_id
      (with-IsHeader request.type request.ifroute long_request.data_bytes)
      (as_it_is refl (plain (memory long_request) refl)) (omega arith) (omega arith) refl
      (omega arith)

-- The request encrypted with a public key that leaves the text as it is.
abbrev encrypted_request : List ℕ
encrypted_request = memory request ++ 1 ∷ []

encrypted-IsRsa : IsRsa prv encrypted_request (memory request)
encrypted-IsRsa = record {
  last = refl;
  key = tt;
  loaded = refl;
  block = 511;
  sized = refl;
  decrypts = refl;
  shorter = omega arith;
}

-- A sealed notification, a datagram that is too short, and an encrypted request.
main_loop-queued_example :
    Returns
      (main_loop net prv (env false) 50 server (sealed_news ∷ [] ∷ encrypted_request ∷ []))
      λ s'.
        IsServer s'
        × (s'.imd_fwd_lt ≡ queued (some news ∷ none ∷ some request ∷ []) [])
        × (s'.table ≡ one_device)
main_loop-queued_example =
    main_loop-queued net toy_laws prv (env false) env-Grants 50 (omega arith)
      (sealed_news ∷ [] ∷ encrypted_request ∷ []) (some news ∷ none ∷ some request ∷ []) server
      server-IsServer
      (
        message news first_id news-IsKnown (sealed refl) (omega arith) (λ e. omega arith),
        (
          short (omega arith),
          (
            message request first_id request-IsKnown (rsa encrypted-IsRsa) (omega arith)
                (λ e. omega arith),
            tt,
          ),
        ),
      )

first-IsTracking : IsTracking first first_id
first-IsTracking = record {
  header = with-IsHeader first.type first.ifroute first.data_bytes;
  tracks = refl;
}

news-IsExchange :
    IsExchange net toy_laws prv
      (env false)
      env-Grants
      50
      (omega arith)
      server
      news
      first_id
      sealed_news
      (memory first)
      addr
unfolding view route hash_func cstr same
news-IsExchange = record {
  server = server-IsServer;
  empty = refl;
  old = no_addr;
  registered = refl;
  known = news-IsKnown;
  carries = sealed refl;
  small = omega arith;
  tracking = first;
  tracks = first-IsTracking;
  carries_tracking = as_it_is refl (plain (memory first) refl);
  small_tracking = omega arith;
}

sending_round-wire_example :
    Returns
      (receive net prv (env false) 50 server sealed_news >>= λ s'.
        sending_round net prv (env false) s' (some (addr, memory first)))
      λ r.
        (r.1 ≡ (addr, wire toy toy_laws aes_key aes_iv (memory news)) ∷ [])
        × (r.0.imd_fwd_lt ≡ [])
        × IsServer r.0
sending_round-wire_example =
    sending_round-wire net toy_laws prv (env false) env-Grants 50 (omega arith) server news first_id
      sealed_news (memory first) addr news-IsExchange refl refl (omega arith)

request-IsExchange :
    IsExchange net toy_laws prv
      (env false)
      env-Grants
      50
      (omega arith)
      server
      request
      first_id
      (memory request)
      (memory first)
      addr
unfolding view route hash_func cstr same
request-IsExchange = record {
  server = server-IsServer;
  empty = refl;
  old = no_addr;
  registered = refl;
  known = request-IsKnown;
  carries = as_it_is refl (plain (memory request) refl);
  small = omega arith;
  tracking = first;
  tracks = first-IsTracking;
  carries_tracking = as_it_is refl (plain (memory first) refl);
  small_tracking = omega arith;
}

sending_round-answer_example :
    Returns
      (receive net prv (env false) 50 server (memory request) >>= λ s'.
        sending_round net prv (env false) s' (some (addr, memory first)))
      λ r. (r.1 ≡ (addr, memory (answer request)) ∷ []) × (r.0.imd_fwd_lt ≡ []) × IsServer r.0
sending_round-answer_example =
    sending_round-answer net toy_laws prv (env false) env-Grants 50 (omega arith) server request
      first_id (memory request) (memory first) addr request-IsExchange refl (λ e. omega arith)
      (λ e. omega arith) (omega arith)
