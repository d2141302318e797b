-- ===== src/Notify/Registry/Fresh.antt =====
-- The item that `reg_to_table` makes for a message.
use memory_leak.Prelude.{
  ℕ, ◌≤◌, ◌≡◌, ◌≢◌, refl, true, Option, none, some, List, [], ◌∷◌, ◌++◌, length, take, drop, arith,
  le→leb, replicate, append_assoc,
}
use memory_leak.Prelude.Run.{◌>>=◌, Returns}
use memory_leak.Notify.Codec.RoundTrip.{stored, codec-le_bytes}
use memory_leak.Notify.Hash.{hash_func}
use memory_leak.Notify.Message.{
  Msg, Timespec, from_dev_id, from_ntf_id, put_time_to_msg, msg_size, strlen,
}
use memory_leak.Notify.Message.Ids.{IsField, strlen-string}
use memory_leak.Notify.Registry.{
  Item, Bucket, no_addr, Realloc, Env, item_size, grow_with_key, key_path, with_key, attach_key,
  put_pubkey_msg, my_malloc, fits_block, new_item, reg_used, reg_group, pointer_size, key_suffix,
}
use memory_leak.Notify.Registry.View.{cstr-field, id_of, Well}

-- Two messages of the same shape: the same id, a length field and data of the same size.
pub record Alike (m m' : Msg) : Type 0 where
  pub id : m'.dev_id ≡ m.dev_id
  pub len : length m'.len ≡ length m.len
  pub size : msg_size m' ≡ msg_size m

eight_zeros : length {A = ℕ} (replicate 8 0) ≡ 8
eight_zeros = refl

pub put_time_to_msg-Alike :
    (m : Msg) (t : Option Timespec) → Returns (put_time_to_msg m t) (Alike m)
unfolding put_time_to_msg
put_time_to_msg-Alike m none = (m, refl, record { id = refl; len = refl; size = refl })
put_time_to_msg-Alike m (some t) = (
  record m {
    second = stored (replicate 8 0) t.tv_sec 8;
    nano = stored (replicate 8 0) t.tv_nsec 8;
  },
  rw (
    (codec-le_bytes (replicate 8 0) t.tv_sec 8 (omega (arith, eight_zeros))).0 (omega arith),
    (codec-le_bytes (replicate 8 0) t.tv_nsec 8 (omega (arith, eight_zeros))).0 (omega arith),
  ),
  record { id = refl; len = refl; size = refl },
)

-- The message in the table after the key is attached.
record Attached (m : Msg) (r : ℕ × Option Msg) : Type 0 where
  msg : Msg
  there : r.1 ≡ some msg
  id : msg.dev_id ≡ m.dev_id

pub key_path-ok :
    (m : Msg) (id : List ℕ)
    → IsField m.dev_id id
    → Returns (key_path m) λ path. path ≡ take 2047 (take (length id) (from_dev_id m) ++ key_suffix)
unfolding key_path
key_path-ok m id f = (take 2047 (take (length id) (from_dev_id m) ++ key_suffix), rw len refl, refl)
  where
    len : strlen (from_dev_id m) ≡ some (length id)
    len = rw (f.layout, append_assoc) (strlen-string id (f.pad ++ from_ntf_id m) f.string)

attach_key-Attached :
    (env : Env) (m : Msg) (key : Option (List ℕ))
    → env.realloc ≡ Realloc.in_place
    → length m.len ≡ 2
    → Returns (attach_key env m key) (Attached m)
unfolding attach_key grow_with_key with_key
attach_key-Attached env m none s l =
    ((1, some m), refl, record { msg = m; there = refl; id = refl })
attach_key-Attached env m (some key) s l =
    let m' = record m {
      data_bytes = take pointer_size key ++ drop pointer_size m.data_bytes;
      len = stored m.len pointer_size 2;
    } in
    (
      (0, some m'),
      rw (s, (codec-le_bytes m.len pointer_size 2 (omega arith)).2 (omega arith)) refl,
      record { msg = m'; there = refl; id = refl },
    )

put_pubkey_msg-Attached :
    (env : Env) (m : Msg) (id : List ℕ)
    → env.realloc ≡ Realloc.in_place
    → IsField m.dev_id id
    → length m.len ≡ 2
    → Returns (put_pubkey_msg env m) (Attached m)
unfolding put_pubkey_msg
put_pubkey_msg-Attached env m id s f l =
    let (path, e, _) = key_path-ok m id f in
    rw e (attach_key-Attached env m (env.public_key path) s l)

-- The surroundings grant memory, and a message keeps its place when its key is attached.
pub record Grants (env : Env) : Type 0 where
  pub granted : (n : ℕ) → env.grants n ≡ true
  pub stays : env.realloc ≡ Realloc.in_place

-- A new item for `id`, without an address.
pub record Fresh (id : List ℕ) (it : Item) : Type 0 where
  pub well : Well (hash_func id) it
  pub names : id_of it ≡ id
  pub silent : it.ipv4 ≡ no_addr

Attached-Fresh :
    (m : Msg) (id : List ℕ) (r : ℕ × Option Msg)
    → IsField m.dev_id id
    → Attached m r
    → Fresh id (record { ipv4 = no_addr; n_msg = 0; msg = r.1 })
Attached-Fresh m id r f a = record {
  well = record { msg = a.msg; there = a.there; field = rw (names, a.id) f; home = rw names refl };
  names = names;
  silent = refl;
}
  where
    names : id_of (record { ipv4 = no_addr; n_msg = 0; msg = r.1 }) ≡ id
    names = rw (a.there, a.id) (cstr-field m.dev_id id f)

pub new_item-Fresh :
    (env : Env) (room : ℕ) (m : Msg) (id : List ℕ)
    → Grants env
    → msg_size m ≤ room
    → IsField m.dev_id id
    → length m.len ≡ 2
    → Returns (new_item env room m) (Fresh id)
unfolding new_item my_malloc fits_block
new_item-Fresh env room m id g fits f l =
    let (r, e, a) = put_pubkey_msg-Attached env m id g.stays f l in
    (
      record { ipv4 = no_addr; n_msg = 0; msg = r.1 },
      rw (g.granted item_size, g.granted room, le→leb (msg_size m) room fits, ◌>>=◌, e),
      Attached-Fresh m id r f a,
    )

-- With items in the bucket the walk is entered.
pub reg_group-used :
    (env : Env) (m : Msg) (t : Option Timespec) (b : Bucket) (its : List Item)
    → length its ≢ 0
    → reg_group env m t b its ≡ reg_used env m t b
unfolding reg_group
reg_group-used env m t b [] ne = absurd (ne refl)
reg_group-used env m t b (x ∷ its) ne = refl
