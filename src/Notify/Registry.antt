-- ===== src/Notify/Registry.antt =====
-- notify.system/msg_notify.c: `list_reg_dev`, the hash table of registered devices, and the calls
-- that register a device and record where its datagrams come from. The table's mutex makes each
-- call one step.
pub mod View
pub mod Calls
pub mod Fresh
pub mod Faults
pub mod Sample
pub mod Register
mod Tests
use memory_leak.Prelude.{
  ℕ, zero, suc, ◌+◌, ◌-◌, ◌%◌, ◌^◌, Bool, true, false, Option, none, some, List, [], ◌∷◌, ◌++◌,
  ◌==◌, leb, if◌then◌else◌, length, take, drop,
}
use memory_leak.Prelude.Run.{Run, ok, exited, fault, ◌>>=◌, or_fault}
use memory_leak.Notify.Codec.{uint16_2_arr}
use memory_leak.Notify.Message.{
  Msg, Timespec, len_devid, msg_size, strlen, strncmp_eq, bucket_of, from_dev_id, put_time_to_msg,
  or_empty,
}

-- struct sockaddr_in
pub record SockaddrIn : Type 0 where
  pub sin_family : ℕ
  pub sin_port : ℕ
  pub s_addr : ℕ

abbrev pub no_addr : SockaddrIn
no_addr = record { sin_family = 0; sin_port = 0; s_addr = 0 }

-- HASH_ITEM. `msg` is `none` if the memory behind the pointer has been freed.
pub record Item : Type 0 where
  pub ipv4 : SockaddrIn
  pub n_msg : ℕ
  pub msg : Option Msg

-- HASH_LIST; the list is `group` and what follows it by `next`.
pub record Bucket : Type 0 where
  pub n : ℕ
  pub group : List Item

abbrev pub Table : Type 0
Table = ℕ → Bucket

abbrev pub put_bucket : Table → ℕ → Bucket → Table
put_bucket t h b k = if k == h then b else t k

-- sizeof(HASH_ITEM) with pointers of 8 bytes: three socket addresses, of 64 bytes together with
-- the padding behind the last, a count and three pointers.
abbrev pub item_size : ℕ
item_size = 96

-- What `realloc` does: it returns null, or leaves the block in place, or moves it.
pub data Realloc : Type 0 where
  no_block in_place moved : Realloc

-- What the calls use of their surroundings: which sizes `malloc` grants, the first bytes of the
-- RSA structure that is loaded from a file name, if one can be, and what `realloc` does.
pub record Env : Type 0 where
  pub grants : ℕ → Bool
  pub public_key : List ℕ → Option (List ℕ)
  pub realloc : Realloc

-- ".public-key.pem."
abbrev pub key_suffix : List ℕ
key_suffix =
    46 ∷ 112 ∷ 117 ∷ 98 ∷ 108 ∷ 105 ∷ 99 ∷ 45 ∷ 107 ∷ 101 ∷ 121 ∷ 46 ∷ 112 ∷ 101 ∷ 109 ∷ 46 ∷ []

-- sizeof(RSA*)
abbrev pub pointer_size : ℕ
pointer_size = 8

-- `snprintf(path, MAX_PATH, "%s.public-key.pem.", dev_id)` keeps 2047 characters.
unfoldable pub key_path : Msg → Run (List ℕ)
key_path m = do
  n ← or_fault (strlen (from_dev_id m))
  ok (take 2047 (take n (from_dev_id m) ++ key_suffix))

-- The block behind `m` once the key is there: 8 bytes of it stand in `data`, and `len` says so.
unfoldable pub with_key : Msg → List ℕ → Run Msg
with_key m key = do
  len ← uint16_2_arr (some m.len) pointer_size 2
  ok (record m {
    data_bytes = take pointer_size key ++ drop pointer_size m.data_bytes;
    len = or_empty len;
  })

-- `m = realloc(m, *n + k)`, whose result is not tested, and the writes behind it.
unfoldable pub grow_with_key : Realloc → Msg → List ℕ → Run (ℕ × Option Msg)
grow_with_key Realloc.no_block m key = fault
grow_with_key Realloc.in_place m key = do m' ← with_key m key; ok (0, some m')
grow_with_key Realloc.moved m key = ok (0, none)

-- The part of `put_pubkey_msg` behind `file_2_pubrsa`.
unfoldable pub attach_key : Env → Msg → Option (List ℕ) → Run (ℕ × Option Msg)
attach_key env m none = ok (1, some m)
attach_key env m (some key) = grow_with_key env.realloc m key

-- `put_pubkey_msg(m, &sz)`: its result, and what is left behind the caller's pointer, which does
-- not learn where `realloc` has moved the message.
unfoldable pub put_pubkey_msg : Env → Msg → Run (ℕ × Option Msg)
put_pubkey_msg env m = do path ← key_path m; attach_key env m (env.public_key path)

abbrev pub next_position : Option ℕ → Option ℕ
next_position none = none
next_position (some i) = some (suc i)

-- The walk along a bucket: the position of the first item with that id. It stops after `limit`
-- items, or at the end; the first item is looked at in any case.
unfoldable pub find_item : (limit : ℕ) → List ℕ → List Item → Run (Option ℕ)
find_item limit id [] = ok none
find_item limit id (it ∷ its) = or_fault it.msg >>= λ m.
    let rest = find_item (limit - 1) id its >>= λ i. ok (next_position i) in
    if strncmp_eq len_devid id m.dev_id then ok (some 0) else if leb limit 1 then ok none else rest

-- MY_MALLOC ends the process if memory is refused.
unfoldable pub my_malloc : Env → ℕ → Run (Unit {0})
my_malloc env n = if env.grants n then ok tt else exited

-- memcpy(hitem->msg, msg, n) into a block of `room` bytes.
unfoldable pub fits_block : (n room : ℕ) → Run (Unit {0})
fits_block n room = if leb n room then ok tt else fault

-- The new item: `room` bytes are allocated for the message before it is copied.
unfoldable pub new_item : Env → (room : ℕ) → Msg → Run Item
new_item env room m = do
  _ ← my_malloc env item_size
  _ ← my_malloc env room
  _ ← fits_block (msg_size m) room
  (err, cell) ← put_pubkey_msg env m
  ok (record { ipv4 = no_addr; n_msg = 0; msg = cell })

-- `res`, the caller's message, and the bucket.
abbrev pub Registered : Type 0
Registered = ℕ × Msg × Bucket

unfoldable pub add_unless_found : Env → Msg → Bucket → Option ℕ → Run Registered
add_unless_found env m b (some i) = ok (0, m, b)
add_unless_found env m b none = do
  item ← new_item env item_size m
  ok (1, m, record { n = b.n + 1; group = item ∷ b.group })

-- A bucket that counts items: the time is written to the caller's message before the comparison;
-- a new item gets a block of sizeof(HASH_ITEM) bytes for its message, and goes to the front.
unfoldable pub reg_used : Env → Msg → Option Timespec → Bucket → Run Registered
reg_used env m t b = do
  m' ← put_time_to_msg m t
  found ← find_item b.n m'.dev_id b.group
  add_unless_found env m' b found

-- An empty bucket: the block has the size of the message.
unfoldable pub reg_empty : Env → Msg → Bucket → Run Registered
reg_empty env m b = do
  item ← new_item env (msg_size m) m
  ok (1, m, record { n = 1; group = item ∷ [] })

-- A count with no items is repaired.
unfoldable pub reg_group : Env → Msg → Option Timespec → Bucket → List Item → Run Registered
reg_group env m t b [] = ok (0, m, record b { n = 0 })
reg_group env m t b (_ ∷ _) = reg_used env m t b

unfoldable pub reg_bucket : Env → Msg → Option Timespec → Bucket → Run Registered
reg_bucket env m t b = if b.n == 0 then reg_empty env m b else reg_group env m t b b.group

-- The result, the caller's message and the table.
unfoldable pub reg_to_table : Env → Table → Msg → Option Timespec → Run (ℕ × Msg × Table)
reg_to_table env table m t = do
  hn ← bucket_of (from_dev_id m)
  (res, m', b) ← reg_bucket env m t (table hn)
  ok (res, m', put_bucket table hn b)

-- `hitem->ipv4 = *addr` for the item at a position.
unfoldable pub set_route : ℕ → SockaddrIn → List Item → List Item
set_route i addr [] = []
set_route zero addr (it ∷ its) = record it { ipv4 = addr } ∷ its
set_route (suc i) addr (it ∷ its) = it ∷ set_route i addr its

unfoldable pub route_if_found : SockaddrIn → Bucket → Option ℕ → ℕ × Bucket
route_if_found addr b none = (0, b)
route_if_found addr b (some i) = (1, record b { group = set_route i addr b.group })

unfoldable pub track_group : Msg → SockaddrIn → Bucket → List Item → Run (ℕ × Bucket)
track_group m addr b [] = ok (0, record b { n = 0 })
track_group m addr b (_ ∷ _) = do
  found ← find_item b.n m.dev_id b.group
  ok (route_if_found addr b found)

unfoldable pub track_bucket : Msg → SockaddrIn → Bucket → Run (ℕ × Bucket)
track_bucket m addr b = if b.n == 0 then ok (0, b) else track_group m addr b b.group

unfoldable pub hl_track_msg : Table → Msg → SockaddrIn → Run (ℕ × Table)
hl_track_msg table m addr = do
  hn ← bucket_of (from_dev_id m)
  (res, b) ← track_bucket m addr (table hn)
  ok (res, put_bucket table hn b)
