-- ===== src/Notify/Server/Sample.antt =====
-- Test data: a server with the sample registry, and a private key that leaves a text as it is.
use memory_leak.Prelude.{refl, none, some, [], length}
use memory_leak.Prelude.Int.{pos}
use memory_leak.Notify.Aes.Toy.{toy}
use memory_leak.Notify.Registry.Sample.{one_device, one_device-IsRegistry}
use memory_leak.Notify.Rsa.{Net, Private}
use memory_leak.Notify.Server.{Server, cleared}
use memory_leak.Notify.Server.Relay.{IsServer}

abbrev pub net : Net
net = record {
  sendto = λ a d. pos (length d);
  evp = toy;
  Key = Unit {0};
  read_key = λ path. none;
  rsa_size = λ k. pos 512;
  encrypt = λ k text. none;
}

abbrev pub prv : Private
prv = record {
  Key = Unit {0};
  srv_prv = some tt;
  rsa_size = λ k. pos 512;
  decrypt = λ k text. some text;
}

abbrev pub server : Server
server = record { table = one_device; imd_fwd_lt = []; bufout = cleared; bufout_sending = cleared }

pub server-IsServer : IsServer server
server-IsServer = record {
  registry = one_device-IsRegistry;
  main_block = refl;
  sending_block = refl;
}
