-- ===== src/Notify/Forward/Tests.antt =====
-- Forwarding to the sample registry.
use memory_leak.Prelude.{
  ℕ, ◌≡◌, refl, inl, inr, true, false, none, some, List, [], ◌∷◌, ◌++◌, length, arith,
}
use memory_leak.Prelude.Int.{pos}
use memory_leak.Prelude.Same.{same}
use memory_leak.Prelude.Run.{Returns}
use memory_leak.Notify.Aes.Toy.{toy, toy_laws}
use memory_leak.Notify.Aes.Wire.{wire}
use memory_leak.Notify.Hash.{hash_func}
use memory_leak.Notify.Message.{Msg, msg_ntf, memory, from_ntf_id}
use memory_leak.Notify.Registry.{SockaddrIn, no_addr, Item}
use memory_leak.Notify.Registry.View.{view, route, cstr}
use memory_leak.Notify.Registry.Sample.{
  first, second, first_id, second_id, first-IsField, second-IsField, one_device,
  one_device-IsRegistry, env,
}
use memory_leak.Notify.Rsa.{Net}
use memory_leak.Notify.Forward.{aes_key, aes_iv, destination, send_to_dst}
use memory_leak.Notify.Forward.Delivery.{Routed, Lost}
use memory_leak.Notify.Forward.Batch.{send_to_dst-Routed, send_to_dst-Lost}

-- Messages of type MSG_TRA to "w1", which is registered, and to "02", which is not.
abbrev to_first : Item
to_first = record { ipv4 = no_addr; n_msg = 104; msg = some first }

abbrev to_second : Item
to_second = record { ipv4 = no_addr; n_msg = 104; msg = some second }

abbrev datagram_first : SockaddrIn × List ℕ
datagram_first = (no_addr, memory first)

abbrev net : Net
net = record {
  sendto = λ a d. pos (length d);
  evp = toy;
  Key = Unit {0};
  read_key = λ path. none;
  rsa_size = λ k. pos 512;
  encrypt = λ k text. none;
}

-- A notification to "w1".
abbrev news : Msg
news = record first { type = msg_ntf }

abbrev news_to_first : Item
news_to_first = record { ipv4 = no_addr; n_msg = 104; msg = some news }

abbrev sealed_news : SockaddrIn × List ℕ
sealed_news = (no_addr, wire toy toy_laws aes_key aes_iv (memory news))

to_first-Routed : Routed net toy_laws one_device to_first datagram_first
unfolding view route hash_func cstr same destination
to_first-Routed = record {
  msg = first;
  id = first_id;
  addressed = record {
    there = refl;
    field = first.dev_id;
    rest = from_ntf_id first;
    names = refl;
    id_field = first-IsField;
  };
  known = refl;
  size = refl;
  form = inl (λ e. omega arith, λ e. omega arith, omega arith, refl);
}

news_to_first-Routed : Routed net toy_laws one_device news_to_first sealed_news
unfolding view route hash_func cstr same destination
news_to_first-Routed = record {
  msg = news;
  id = first_id;
  addressed = record {
    there = refl;
    field = first.dev_id;
    rest = from_ntf_id first;
    names = refl;
    id_field = first-IsField;
  };
  known = refl;
  size = refl;
  form = inr (refl, omega arith, refl);
}

to_second-Lost : Lost one_device to_second
unfolding view route hash_func cstr same destination
to_second-Lost = record {
  msg = second;
  id = second_id;
  addressed = record {
    there = refl;
    field = second.dev_id;
    rest = from_ntf_id second;
    names = refl;
    id_field = second-IsField;
  };
  unknown = refl;
}

send_to_dst-Routed_example :
    Returns
      (send_to_dst net (env false) one_device (some (to_first ∷ news_to_first ∷ [])) true)
      λ r.
        (r.0.err ≡ 0)
        × (r.0.sent ≡ datagram_first ∷ sealed_news ∷ [])
        × (r.0.count ≡ 2)
        × (r.1 ≡ some [])
send_to_dst-Routed_example =
    send_to_dst-Routed net toy_laws (env false) one_device one_device-IsRegistry
      (to_first ∷ news_to_first ∷ []) (datagram_first ∷ sealed_news ∷ [])
      (to_first-Routed, (news_to_first-Routed, tt))

send_to_dst-Lost_example :
    Returns
      (send_to_dst net
        (env false)
        one_device
        (some ((to_first ∷ []) ++ to_second ∷ to_first ∷ []))
        true)
      λ r. (r.0.err ≡ 1) × (r.0.sent ≡ datagram_first ∷ []) × (r.0.count ≡ 1) × (r.1 ≡ some [])
send_to_dst-Lost_example =
    send_to_dst-Lost net toy_laws (env false) one_device one_device-IsRegistry (to_first ∷ [])
      (datagram_first ∷ []) to_second (to_first ∷ []) (to_first-Routed, tt) to_second-Lost
