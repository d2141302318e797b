-- ===== src/Notify/Message.antt =====
-- notify.system/msg_notify.h: the message format, and the C string functions on its fields.
-- A message is MSG_COMMON followed by `data`; all its members are bytes, so there is no padding.
pub mod Ids
pub mod Memory
pub mod Dump
use memory_leak.Prelude.{
  ℕ, zero, suc, ◌+◌, ◌%◌, ◌^◌, Bool, true, false, Option, none, some, List, [], ◌∷◌, ◌++◌, ◌==◌,
  leb, if◌then◌else◌, length, take, drop, get_or, replicate,
}
use memory_leak.Prelude.Run.{Run, ok, fault, ◌>>=◌, or_fault}
use memory_leak.Notify.Codec.{uint64_2_arr}
use memory_leak.Notify.Hash.{hash_func}

-- `type`: register, track, notify, confirm, and the request of the AES key.
abbrev pub msg_tra : ℕ
msg_tra = 1

abbrev pub msg_ntf : ℕ
msg_ntf = 2

abbrev pub msg_get_aes : ℕ
msg_get_aes = 4

-- `ifroute`, in the order of MSG_ROUTE.
abbrev pub g_ntf_cli : ℕ
g_ntf_cli = 0

abbrev pub g_cli_ntf : ℕ
g_cli_ntf = 2

abbrev pub g_cli_srv : ℕ
g_cli_srv = 4

abbrev pub f_srv_cli : ℕ
f_srv_cli = 5

abbrev pub g_ntf_srv : ℕ
g_ntf_srv = 6

abbrev pub f_srv_ntf : ℕ
f_srv_ntf = 7

abbrev pub len_devid : ℕ
len_devid = 40

abbrev pub max_msg : ℕ
max_msg = 1200

-- MSG_DATA.
pub record Msg : Type 0 where
  pub type : ℕ
  pub ifroute : ℕ
  pub dev_id : List ℕ
  pub ntf_id : List ℕ
  pub second : List ℕ
  pub nano : List ℕ
  pub len : List ℕ
  pub data_bytes : List ℕ

-- sizeof(MSG_COMMON) is 100.
abbrev pub common_size : ℕ
common_size = 100

abbrev pub msg_size : Msg → ℕ
msg_size m = common_size + length m.data_bytes

-- The message's memory from `dev_id` on, and from `ntf_id` on.
abbrev pub from_ntf_id : Msg → List ℕ
from_ntf_id m = m.ntf_id ++ (m.second ++ (m.nano ++ (m.len ++ m.data_bytes)))

abbrev pub from_dev_id : Msg → List ℕ
from_dev_id m = m.dev_id ++ from_ntf_id m

-- The message's memory, and the message in memory of at least two bytes. In memory of less than
-- 100 bytes some fields are short.
abbrev pub memory : Msg → List ℕ
memory m = m.type ∷ m.ifroute ∷ from_dev_id m

unfoldable pub msg_of : List ℕ → Msg
msg_of b =
    let d = drop 2 b in
    let n = drop 40 d in
    let s = drop 40 n in
    let t = drop 8 s in
    let l = drop 8 t in
    record {
      type = get_or b 0 0;
      ifroute = get_or b 1 0;
      dev_id = take 40 d;
      ntf_id = take 40 n;
      second = take 8 s;
      nano = take 8 t;
      len = take 2 l;
      data_bytes = drop 2 l;
    }

abbrev pub longer : Option ℕ → Option ℕ
longer none = none
longer (some n) = some (suc n)

-- strlen; `none` if no 0 stands in the memory that is given.
unfoldable pub strlen : List ℕ → Option ℕ
strlen [] = none
strlen (c ∷ cs) = if c == 0 then some 0 else longer (strlen cs)

-- `strncmp(a, b, n) == 0`.
unfoldable pub strncmp_eq : ℕ → List ℕ → List ℕ → Bool
strncmp_eq zero a b = true
strncmp_eq (suc n) [] [] = true
strncmp_eq (suc n) [] (y ∷ b) = false
strncmp_eq (suc n) (x ∷ a) [] = false
strncmp_eq (suc n) (x ∷ a) (y ∷ b) =
    if x == y then (if x == 0 then true else strncmp_eq n a b) else false

-- `MIN(MAX_MSG, strlen(id))`
abbrev pub id_len : ℕ → ℕ
id_len n = if leb max_msg n then max_msg else n

-- `hn = hash_func(id, MIN(MAX_MSG, strlen(id)))`
unfoldable pub bucket_of : List ℕ → Run ℕ
bucket_of id = do n ← or_fault (strlen id); ok (hash_func (take (id_len n) id))

-- struct timespec
pub record Timespec : Type 0 where
  pub tv_sec : ℕ
  pub tv_nsec : ℕ

abbrev pub or_empty : Option (List ℕ) → List ℕ
or_empty none = []
or_empty (some b) = b

-- A null `t` or `msg` leaves everything alone; `msg` is not null where this is called.
unfoldable pub put_time_to_msg : Msg → Option Timespec → Run Msg
put_time_to_msg m none = ok m
put_time_to_msg m (some t) = do
  second ← uint64_2_arr (some (replicate 8 0)) t.tv_sec 8
  nano ← uint64_2_arr (some (replicate 8 0)) t.tv_nsec 8
  ok (record m { second = or_empty second; nano = or_empty nano })
