-- ===== src/Notify/Server.antt =====
-- notify.system/server.c: what the two loops of the server make of a datagram. `main` forwards
-- and answers; `sending_routine_thread` records addresses and sends what waits. They share the
-- table and the list `imd_fwd_lt`, behind one mutex, and each touches them with one call at a time
-- that holds it, so that the rounds of the loops are the steps. `usleep` and signals are left out.
pub mod Dump
pub mod Writes
pub mod Answer
pub mod Accept
pub mod Open
pub mod Relay
pub mod Deliver
pub mod Scenario
pub mod Loop
pub mod Waiting
pub mod Sample
mod Tests
use memory_leak.Prelude.{
  ℕ, ◌+◌, ◌-◌, Bool, true, Option, none, some, List, [], ◌∷◌, ◌==◌, ltb, if◌then◌else◌, length,
  take, drop, replicate, get_elem?,
}
use memory_leak.Prelude.Memory.{copy_in}
use memory_leak.Prelude.Run.{Run, ok, fault, ◌>>=◌, or_fault}
use memory_leak.Notify.Codec.{uint16_2_arr}
use memory_leak.Notify.Message.{
  common_size, max_msg, msg_tra, msg_ntf, g_ntf_cli, g_cli_ntf, g_cli_srv, f_srv_cli, g_ntf_srv,
  f_srv_ntf, msg_of, or_empty,
}
use memory_leak.Notify.Message.Dump.{dum_msg}
use memory_leak.Notify.Registry.{SockaddrIn, Item, Table, Env, hl_track_msg}
use memory_leak.Notify.Aes.{Coded, msg_aes_dec, encrypt_aes, aes_iv_bytes, key_bytes}
use memory_leak.Notify.Rsa.{Net, Private, rsa_dec}
use memory_leak.Notify.Forward.{add_to_item_list, aes_key, aes_iv, send_to_dst}

-- The shared state, and the buffer `bufout` of each loop, which is not cleared between rounds.
pub record Server : Type 0 where
  pub table : Table
  pub imd_fwd_lt : List Item
  pub bufout : List ℕ
  pub bufout_sending : List ℕ

-- What decryption leaves: nothing to handle, or `n` and the memory behind the pointer, which is
-- `buffer` or `bufout`. In the first case the memory is that of `bufout`.
pub data Opened : Type 0 where
  dropped : List ℕ → Opened
  in_buffer : List ℕ → ℕ → Opened
  in_bufout : List ℕ → ℕ → Opened

-- ENCRYPT_SRV_PUB
abbrev pub encrypt_srv_pub : ℕ
encrypt_srv_pub = 1

-- `memset(buffer, 0, sizeof(buffer))`
abbrev pub cleared : List ℕ
cleared = replicate (max_msg + 1) 0

abbrev pub items : Option (List Item) → List Item
items none = []
items (some l) = l

module _ (net : Net) (prv : Private) (env : Env) where
  -- Without a decrypted text the buffer is handled as it is.
  unfoldable pub put_text : (buffer : List ℕ) (n : ℕ) → Option (List ℕ) → Run Opened
  put_text buffer n none = ok (in_buffer buffer n)
  put_text buffer n (some out) = do
    b ← or_fault (copy_in cleared 0 out)
    ok (in_buffer b (length out))

  unfoldable pub open_rsa : (bufout buffer : List ℕ) (n : ℕ) → Option prv.Key → Run Opened
  open_rsa bufout buffer n none = ok (dropped bufout)
  open_rsa bufout buffer n (some key) = do
    (err, out) ← rsa_dec prv env (some key) (some buffer) true (n - 1)
    put_text buffer n out

  abbrev pub size_out : Option ℕ → ℕ
  size_out none = 0
  size_out (some n) = n

  abbrev pub opened_aes : Coded → Opened
  opened_aes r =
      if r.err == 0
      then in_bufout (or_empty r.buffer) (size_out r.lenout)
      else dropped (or_empty r.buffer)

  unfoldable pub open_aes : (bufout buffer : List ℕ) (n : ℕ) → Run Opened
  open_aes bufout buffer n = do
    r ←
        msg_aes_dec net.evp (some buffer) (some bufout) (some aes_key) (some aes_iv) n (some n)
          (max_msg + 1)
    ok (opened_aes r)

  -- The dispatch on the last byte.
  unfoldable pub unwrap : (bufout buffer : List ℕ) (n : ℕ) → Run Opened
  unwrap bufout buffer n = do
    enc ← or_fault (get_elem? buffer (n - 1))
    if enc == encrypt_srv_pub
        then open_rsa bufout buffer n prv.srv_prv
        else if enc == encrypt_aes
        then open_aes bufout buffer n
        else ok (in_buffer buffer n)

  -- `add_to_imd_fwd(p, &imd_fwd_lt, n)`
  unfoldable pub queue : (p : List ℕ) (n : ℕ) → List Item → Run (List Item)
  queue p n fwd = do (err, l) ← add_to_item_list env p (some fwd) n; ok (items l)

  -- The answer to a request of the key: the message with another route and the key behind it.
  unfoldable pub answer_with_key :
      (route : ℕ) (p : List ℕ) (n : ℕ) → List Item → Run (List ℕ × List Item)
  answer_with_key route p n fwd = do
    p ← or_fault (copy_in p 1 (route ∷ []))
    len ← uint16_2_arr (some (take 2 (drop 98 p))) (key_bytes + aes_iv_bytes) 2
    p ← or_fault (copy_in p 98 (or_empty len))
    p ← or_fault (copy_in p n aes_key)
    p ← or_fault (copy_in p (n + key_bytes) aes_iv)
    fwd ← queue p (n + key_bytes + aes_iv_bytes) fwd
    ok (p, fwd)

  unfoldable pub notify : (type : ℕ) (p : List ℕ) (n : ℕ) → List Item → Run (List ℕ × List Item)
  notify type p n fwd =
      if type == msg_ntf then (queue p n fwd >>= λ fwd. ok (p, fwd)) else ok (p, fwd)

  -- From DUM_MSG on: the memory at `msg`, and the list.
  unfoldable pub handle_msg : (site : ℕ) (p : List ℕ) (n : ℕ) → List Item → Run (List ℕ × List Item)
  handle_msg site p n fwd = do
    _ ← dum_msg site p
    type ← or_fault (get_elem? p 0)
    ifroute ← or_fault (get_elem? p 1)
    if ifroute == g_ntf_cli
        then notify type p n fwd
        else if ifroute == g_cli_ntf
        then notify type p n fwd
        else if ifroute == g_cli_srv
        then answer_with_key f_srv_cli p n fwd
        else if ifroute == g_ntf_srv
        then answer_with_key f_srv_ntf p n fwd
        else ok (p, fwd)

  unfoldable pub handle_opened : (site : ℕ) → Server → Opened → Run Server
  handle_opened site s (dropped b) = ok (record s { bufout = b })
  handle_opened site s (in_buffer p n) = do
    (_, fwd) ← handle_msg site p n s.imd_fwd_lt
    ok (record s { imd_fwd_lt = fwd })
  handle_opened site s (in_bufout p n) = do
    (p, fwd) ← handle_msg site p n s.imd_fwd_lt
    ok (record s { imd_fwd_lt = fwd; bufout = p })

  -- A round of the loop of `main` with a datagram of the bytes `got`.
  unfoldable pub handle_datagram : (site : ℕ) → Server → (got : List ℕ) → Run Server
  handle_datagram site s got =
      let handled = or_fault (copy_in cleared 0 got) >>= λ buffer.
      unwrap s.bufout buffer (length got) >>= λ o. handle_opened site s o in
      if ltb (length got) common_size then ok s else handled

  -- `recvfrom` cuts a datagram to MAX_MSG + 1 bytes.
  unfoldable pub receive : (site : ℕ) → Server → (datagram : List ℕ) → Run Server
  receive site s datagram = handle_datagram site s (take (max_msg + 1) datagram)

  -- The loop of `main`, on the datagrams that arrive.
  unfoldable pub main_loop : (site : ℕ) → Server → List (List ℕ) → Run Server
  main_loop site s [] = ok s
  main_loop site s (d ∷ ds) = receive site s d >>= λ s. main_loop site s ds

  -- The sending thread: only tracking messages count.
  unfoldable pub track_sender : Server → SockaddrIn → (p : List ℕ) → Run Server
  track_sender s cliaddr p = do
    type ← or_fault (get_elem? p 0)
    if type == msg_tra
        then (hl_track_msg s.table (msg_of p) cliaddr >>= λ r. ok (record s { table = r.1 }))
        else ok s

  unfoldable pub track_opened : Server → SockaddrIn → Opened → Run Server
  track_opened s cliaddr (dropped b) = ok (record s { bufout_sending = b })
  track_opened s cliaddr (in_buffer p n) = track_sender s cliaddr p
  track_opened s cliaddr (in_bufout p n) = track_sender (record s { bufout_sending = p }) cliaddr p

  unfoldable pub track_datagram : Server → SockaddrIn → (got : List ℕ) → Run Server
  track_datagram s cliaddr got =
      let handled = or_fault (copy_in cleared 0 got) >>= λ buffer.
      unwrap s.bufout_sending buffer (length got) >>= λ o. track_opened s cliaddr o in
      if ltb (length got) common_size then ok s else handled

  -- With nothing to receive `n` is -1, which is not below `sizeof`, a `size_t`; then `buffer[-2]`
  -- is read.
  unfoldable pub take_in : Server → Option (SockaddrIn × List ℕ) → Run Server
  take_in s none = fault
  take_in s (some (cliaddr, datagram)) = track_datagram s cliaddr (take max_msg datagram)

  -- A round of the loop of the sending thread: the server, and the datagrams sent.
  unfoldable pub sending_round :
      Server → Option (SockaddrIn × List ℕ) → Run (Server × List (SockaddrIn × List ℕ))
  sending_round s recv = do
    s ← take_in s recv
    (r, l) ← send_to_dst net env s.table (some s.imd_fwd_lt) true
    ok (record s { imd_fwd_lt = items l }, r.sent)
