-- ===== src/Notify/Client/Tests.antt =====
-- What a client sends, at concrete values.
use memory_leak.Prelude.{
  ◌-◌, ◌∷◌, ◌++◌, [], replicate, none, length, take, drop, get_or, ap, length-append,
  length-replicate, take-append, ℕ, ◌≡◌, refl, true, false, some, List, arith,
}
use memory_leak.Prelude.Memory.{copy_out}
use memory_leak.Prelude.Run.{ok, Returns}
use memory_leak.Prelude.Int.{pos}
use memory_leak.Notify.Aes.Toy.{toy, toy_laws}
use memory_leak.Notify.Rsa.{Net, Private}
use memory_leak.Notify.Message.{Msg, Timespec, msg_get_aes, g_cli_srv}
use memory_leak.Notify.Message.Memory.{IsHeader}
use memory_leak.Notify.Registry.Sample.{first, first_id, first-IsField, env, env-Grants, addr}
use memory_leak.Notify.Registry.{no_addr, my_malloc}
use memory_leak.Notify.Forward.{aes_key, aes_iv}
use memory_leak.Notify.Server.{cleared, take_in, receive}
use memory_leak.Notify.Server.Accept.{outgoing, with_waiting}
use memory_leak.Notify.Server.Relay.{IsServer}
use memory_leak.Notify.Server.Deliver.{Tracked}
use memory_leak.Notify.Server.Sample.{net, prv, server, server-IsServer}
use memory_leak.Notify.Client.Request.{IsKeyPair, receive-cmd_2_srv}
use memory_leak.Notify.Client.{cmd_2_srv, send_msg_track, get_aes256_key}
use memory_leak.Notify.Client.Track.{take_in-send_msg_track}

abbrev now : Timespec
now = record { tv_sec = 1700000000; tv_nsec = 5 }

get_aes256_key-aes_key : get_aes256_key net (env false) true true ≡ ok (0, some (aes_key, aes_iv))
unfolding get_aes256_key my_malloc copy_out
get_aes256_key-aes_key = refl

take_in-send_msg_track_example :
    Returns
      (send_msg_track net
        (env false)
        (some first.dev_id)
        (some no_addr)
        (some now)
        (some aes_key)
        (some aes_iv)
        cleared)
      λ r.
        (d : List ℕ) × (r.1 ≡ some d)
        × Returns
            (take_in net prv (env false) server (some (addr, d)))
            λ s'. Tracked net toy_laws prv (env false) env-Grants server first_id addr s'
take_in-send_msg_track_example =
    take_in-send_msg_track net toy_laws prv (env false) env-Grants first.dev_id first_id cleared
      no_addr addr now server first-IsField (omega arith) refl server-IsServer

-- RSA with a key of 256 bytes: the size of the text, the text and zeros.
abbrev padded : List ℕ → List ℕ
padded text = length text ∷ (text ++ replicate (255 - length text) 0)

abbrev paired_net : Net
paired_net = record {
  sendto = λ a d. pos (length d);
  evp = toy;
  Key = Unit {0};
  read_key = λ path. some tt;
  rsa_size = λ k. pos 256;
  encrypt = λ k text. some (padded text);
}

abbrev paired_prv : Private
paired_prv = record {
  Key = Unit {0};
  srv_prv = some tt;
  rsa_size = λ k. pos 256;
  decrypt = λ k c. some (take (get_or c 0 0) (drop 1 c));
}

abbrev paired_keys : IsKeyPair paired_net paired_prv
paired_keys = record {
  pub_key = tt;
  prv_key = tt;
  on_file = refl;
  loaded = refl;
  block = 255;
  pub_size = refl;
  prv_size = refl;
  cipher = padded;
  length-cipher = λ text h. omega (
    arith,
    length-append text (replicate (255 - length text) 0),
    length-replicate {A = ℕ} (255 - length text) 0,
  );
  encrypts = λ text h. refl;
  decrypts = λ text h. ap some (take-append text (replicate (255 - length text) 0));
}

-- A request of the key for "w1".
receive-cmd_2_srv_example :
    Returns
      (cmd_2_srv paired_net
        (env false)
        50
        (pos 4)
        0
        msg_get_aes
        g_cli_srv
        none
        0
        (119 ∷ 49 ∷ 0 ∷ [])
        no_addr
        now)
      λ out.
        (d : List ℕ) × (m : Msg) × (out ≡ (0, some d))
        × IsHeader m (119 ∷ 49 ∷ [])
        × (m.type ≡ msg_get_aes)
        × (m.ifroute ≡ g_cli_srv)
        × Returns (receive paired_net paired_prv (env false) 50 server d) λ s'.
          IsServer s' × (s'.imd_fwd_lt ≡ with_waiting (outgoing m) []) × (s'.table ≡ server.table)
receive-cmd_2_srv_example =
    receive-cmd_2_srv paired_net (env false) paired_prv paired_keys env-Grants toy_laws
      (119 ∷ 49 ∷ []) [] 50 3 0 msg_get_aes g_cli_srv 0 no_addr now server
      (omega arith, (omega arith, tt)) (omega arith) (omega arith) (omega arith) (omega arith)
      (omega arith) (omega arith) server-IsServer
