-- ===== src/Notify/Client.antt =====
-- notify.system/msg_notify.c: what a client or a notifier sends: `send_msg_track`, `cmd_2_srv` and
-- `get_aes256_key`. A result goes with the datagram that `sendto` was given, if it was called.
pub mod Track
pub mod Command
pub mod Request
mod Tests
use memory_leak.Prelude.{
  ℕ, ◌+◌, ◌-◌, ◌%◌, ◌^◌, Bool, true, false, Option, none, some, List, [], ◌∷◌, ◌++◌, ◌==◌, leb, ltb,
  if◌then◌else◌, length, take, drop, replicate,
}
use memory_leak.Prelude.Int.{ℤ, pos, negsuc}
use memory_leak.Prelude.Memory.{copy_in, copy_out}
use memory_leak.Prelude.Run.{Run, ok, fault, ◌>>=◌, or_fault}
use memory_leak.Notify.Codec.{uint16_2_arr, uint64_2_arr}
use memory_leak.Notify.Message.{
  Msg, Timespec, common_size, len_devid, max_msg, msg_tra, strlen, memory, or_empty,
  put_time_to_msg,
}
use memory_leak.Notify.Message.Dump.{dum_msg}
use memory_leak.Notify.Registry.{SockaddrIn, Env, my_malloc}
use memory_leak.Notify.Aes.{Coded, msg_aes_enc}
use memory_leak.Notify.Rsa.{Net, rsa_enc}
use memory_leak.Notify.Forward.{aes_key, aes_iv}

-- "srv-public-key.pem"
abbrev pub srv_pub_path : List ℕ
srv_pub_path =
    115 ∷ 114 ∷ 118 ∷ 45 ∷ 112 ∷ 117 ∷ 98 ∷ 108 ∷ 105 ∷ 99 ∷ 45 ∷ 107 ∷ 101 ∷ 121 ∷ 46 ∷ 112 ∷ 101
    ∷ 109 ∷ []

-- ENCRYPT_SRV_PUB
abbrev pub marker : ℕ
marker = 1

-- The result of `sendto` or 0, and what was sent.
abbrev pub Sending : Type 0
Sending = ℤ × Option (List ℕ)

abbrev pub not_sent : Sending
not_sent = (pos 0, none)

-- A message of zeros.
abbrev pub blank : Msg
blank = record {
  type = 0;
  ifroute = 0;
  dev_id = replicate 40 0;
  ntf_id = replicate 40 0;
  second = replicate 8 0;
  nano = replicate 8 0;
  len = replicate 2 0;
  data_bytes = [];
}

-- The message that `send_msg_track` writes at the start of `buf`.
unfoldable pub track_msg : (iid : List ℕ) → Timespec → Run Msg
track_msg iid t = do
  m ← put_time_to_msg blank (some t)
  id ← or_fault (copy_out iid len_devid)
  ok (record m { type = msg_tra; dev_id = id })

-- The rest of `buf` is zero.
abbrev pub buffer_of : Msg → List ℕ
buffer_of m = memory m ++ replicate (max_msg + 1 - common_size) 0

abbrev pub lenout_of : Option ℕ → ℕ
lenout_of none = 0
lenout_of (some n) = n

-- `if (data) { … }`, and `n`, a `uint16_t`.
unfoldable pub put_data : (buffer : List ℕ) → Option (List ℕ) → (len : ℕ) → Run (List ℕ × ℕ)
put_data buffer none len = ok (buffer, common_size)
put_data buffer (some bytes) len = do
  text ← or_fault (copy_out bytes len)
  buffer ← or_fault (copy_in buffer common_size text)
  data_len ← uint16_2_arr (some (replicate 2 0)) len 2
  buffer ← or_fault (copy_in buffer 98 (or_empty data_len))
  ok (buffer, (common_size + len) % 2 ^ 16)

-- The message of `cmd_2_srv` in its buffer, and `n`.
unfoldable pub cmd_msg :
    (cmd r : ℕ) → Option (List ℕ) → (len : ℕ) (idd : List ℕ) → Timespec → Run (List ℕ × ℕ)
cmd_msg cmd r bytes len idd t = do
  size ← or_fault (strlen idd)
  id ← or_fault (copy_out idd (if leb len_devid (size + 1) then len_devid else size + 1))
  buffer ← or_fault (copy_in (replicate (max_msg + 1) 0) 0 (cmd % 2 ^ 8 ∷ r % 2 ^ 8 ∷ id))
  (buffer, n) ← put_data buffer bytes len
  second ← uint64_2_arr (some (replicate 8 0)) t.tv_sec 8
  nano ← uint64_2_arr (some (replicate 8 0)) t.tv_nsec 8
  buffer ← or_fault (copy_in buffer 82 (or_empty second ++ or_empty nano))
  ok (buffer, n)

-- The error behind the loop: a socket above 0 is closed, and `closed` is what that returns.
abbrev pub cmd_err : (sockfd : ℤ) (closed : ℕ) → ℕ → ℕ
cmd_err (negsuc n) closed err = err
cmd_err (pos n) closed err = if n == 0 then err else closed

module _ (net : Net) (env : Env) where
  unfoldable pub send : SockaddrIn → (p : List ℕ) (n : ℕ) → Run Sending
  send addr p n = do d ← or_fault (copy_out p n); ok (net.sendto addr d, some d)

  -- What follows `rsa_enc`; without a ciphertext its size is 0.
  unfoldable pub send_marked : SockaddrIn → (buf rsa_data : List ℕ) → Run Sending
  send_marked addr buf rsa_data =
      let sending = or_fault (copy_in buf 0 rsa_data) >>= λ buf.
      or_fault (copy_in buf (length rsa_data) (marker ∷ [])) >>= λ buf.
      send addr buf (length rsa_data + 1) in
      if leb max_msg (length rsa_data) then ok not_sent else sending

  abbrev pub marked_if : SockaddrIn → (buf : List ℕ) → ℕ × Option (List ℕ) → Run Sending
  marked_if addr buf (err, out) =
      if err == 0 then send_marked addr buf (or_empty out) else ok not_sent

  unfoldable pub track_rsa : SockaddrIn → (buf : List ℕ) → Option net.Key → Run Sending
  track_rsa addr buf none = ok not_sent
  track_rsa addr buf (some pubkey) =
      rsa_enc net env (some pubkey) buf true common_size >>= λ r. marked_if addr buf r

  abbrev pub coded_if : SockaddrIn → Coded → Run Sending
  coded_if addr r =
      if r.err == 0 then send addr (or_empty r.buffer) (lenout_of r.lenout) else ok not_sent

  unfoldable pub track_aes :
      SockaddrIn → (buf bufout key256 : List ℕ) (iv : Option (List ℕ)) → Run Sending
  track_aes addr buf bufout key256 iv = do
    r ←
        msg_aes_enc net.evp (some buf) (some bufout) (some key256) iv common_size (some 0)
          (max_msg + 1)
    coded_if addr r

  unfoldable pub track_sealed :
      SockaddrIn → (buf bufout : List ℕ) (key256 iv : Option (List ℕ)) → Run Sending
  track_sealed addr buf bufout none iv = track_rsa addr buf (net.read_key srv_pub_path)
  track_sealed addr buf bufout (some key256) iv = track_aes addr buf bufout key256 iv

  -- `addr` is the server's, if `ipaddr` is not null: `inet_addr` reads it before the code tests it.
  unfoldable pub send_msg_track :
      (iid : Option (List ℕ)) (addr : Option SockaddrIn) (t : Option Timespec)
      (key256 iv : Option (List ℕ)) (bufout : List ℕ)
      → Run Sending
  send_msg_track iid none t key256 iv bufout = fault
  send_msg_track iid (some addr) none key256 iv bufout = ok not_sent
  send_msg_track none (some addr) (some t) key256 iv bufout = ok not_sent
  send_msg_track (some iid) (some addr) (some t) key256 iv bufout = do
    m ← track_msg iid t
    track_sealed addr (buffer_of m) bufout key256 iv

  -- The result, and `*key` and `*iv`.
  unfoldable pub get_aes256_key : (key iv : Bool) → Run (ℕ × Option (List ℕ × List ℕ))
  get_aes256_key false iv = ok (1, none)
  get_aes256_key true false = ok (1, none)
  get_aes256_key true true = do
    _ ← my_malloc env 32
    _ ← my_malloc env 16
    key ← or_fault (copy_out aes_key 32)
    iv ← or_fault (copy_out aes_iv 16)
    ok (0, some (key, iv))

  abbrev pub cmd_send :
      SockaddrIn → (buffer : List ℕ) → ℕ × Option (List ℕ) → Run (ℕ × Option (List ℕ))
  cmd_send addr buffer (err, out) =
      if err == 0
      then (send_marked addr buffer (or_empty out) >>= λ s. ok (0, s.1))
      else ok (err, none)

  unfoldable pub cmd_2_srv :
      (site : ℕ) (sockfd : ℤ) (closed : ℕ) (cmd r : ℕ)
      → Option (List ℕ)
      → (len : ℕ) (idd : List ℕ) → SockaddrIn
      → Timespec
      → Run (ℕ × Option (List ℕ))
  cmd_2_srv site (negsuc n) closed cmd r bytes len idd addr t = ok (1, none)
  cmd_2_srv site (pos n) closed cmd r bytes len idd addr t = do
    (buffer, size) ← cmd_msg cmd r bytes len idd t
    _ ← dum_msg site buffer
    out ← rsa_enc net env (net.read_key srv_pub_path) buffer true size
    (err, sent) ← cmd_send addr buffer out
    ok (cmd_err (pos n) closed err, sent)
