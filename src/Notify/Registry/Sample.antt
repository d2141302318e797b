-- ===== src/Notify/Registry/Sample.antt =====
-- Test data: registries with one device, with the id "w1", or none.
use memory_leak.Prelude.{
  ℕ, refl, Bool, true, false, some, none, List, [], ◌∷◌, ◌++◌, ◌||◌, if◌then◌else◌, replicate,
  arith,
}
use memory_leak.Prelude.Same.{same}
use memory_leak.Notify.Hash.{hash_func}
use memory_leak.Notify.Message.{Msg, msg_tra}
use memory_leak.Notify.Message.Ids.{IsField}
use memory_leak.Notify.Registry.{
  Item, Table, SockaddrIn, no_addr, Realloc, Env, key_suffix, put_bucket,
}
use memory_leak.Notify.Registry.View.{Well, IsRegistry, cstr}
use memory_leak.Notify.Registry.Calls.{put_bucket-IsRegistry}
use memory_leak.Notify.Registry.Fresh.{Grants}

-- Two ids with the same hash.
abbrev pub first_id : List ℕ
first_id = 119 ∷ 49 ∷ []

abbrev pub second_id : List ℕ
second_id = 48 ∷ 50 ∷ []

abbrev pub message : ℕ → ℕ → Msg
message a b = record {
  type = msg_tra;
  ifroute = 0;
  dev_id = a ∷ b ∷ replicate 38 0;
  ntf_id = replicate 40 0;
  second = replicate 8 0;
  nano = replicate 8 0;
  len = 0 ∷ 0 ∷ [];
  data_bytes = replicate 4 7;
}

abbrev pub first : Msg
first = message 119 49

abbrev pub second : Msg
second = message 48 50

pub first-IsField : IsField first.dev_id first_id
first-IsField = record {
  string = (omega arith, (omega arith, tt));
  pad = replicate 37 0;
  layout = refl;
  size = refl;
}

pub second-IsField : IsField second.dev_id second_id
second-IsField = record {
  string = (omega arith, (omega arith, tt));
  pad = replicate 37 0;
  layout = refl;
  size = refl;
}

abbrev pub home : ℕ
home = 3598

abbrev pub device : Item
device = record { ipv4 = no_addr; n_msg = 0; msg = some first }

abbrev pub no_devices : Table
no_devices k = record { n = 0; group = [] }

pub no_devices-IsRegistry : IsRegistry no_devices
no_devices-IsRegistry k = record { counted = refl; well = tt }

abbrev pub one_device : Table
one_device = put_bucket no_devices home (record { n = 1; group = device ∷ [] })

pub device-Well : Well home device
unfolding cstr hash_func
device-Well = record { msg = first; there = refl; field = first-IsField; home = refl }

pub one_device-IsRegistry : IsRegistry one_device
one_device-IsRegistry =
    put_bucket-IsRegistry no_devices home (record { n = 1; group = device ∷ [] })
      no_devices-IsRegistry (record { counted = refl; well = (device-Well, tt) })

-- A key file for the id "w1", and one for "02".
abbrev pub env : Bool → Env
env moves = record {
  grants = λ n. true;
  public_key = λ path.
      if same path (first_id ++ key_suffix) || same path (second_id ++ key_suffix)
      then some (replicate 8 1)
      else none;
  realloc = if moves then Realloc.moved else Realloc.in_place;
}

pub env-Grants : Grants (env false)
env-Grants = record { granted = λ n. refl; stays = refl }

abbrev pub addr : SockaddrIn
addr = record { sin_family = 2; sin_port = 5000; s_addr = 2130706433 }
