-- ===== src/Notify/Forward.antt =====
-- notify.system/msg_notify.c: the list of messages to forward, `add_to_item_list` and
-- `send_to_dst`. The list and the table are behind one mutex; the blocks of the sent items are
-- freed, which nothing else points to.
pub mod Delivery
pub mod Batch
mod Tests
use memory_leak.Prelude.{
  ℕ, zero, suc, ◌+◌, ◌-◌, ◌%◌, Bool, true, false, Option, none, some, List, [], ◌∷◌, ◌++◌, ◌==◌,
  leb, ltb, if◌then◌else◌, length, take, replicate,
}
use memory_leak.Prelude.Int.{ℤ, pos, negsuc}
use memory_leak.Prelude.Memory.{copy_in, copy_out}
use memory_leak.Prelude.Run.{Run, ok, fault, ◌>>=◌, or_fault}
use memory_leak.Notify.Evp.{Evp}
use memory_leak.Notify.Aes.{Coded, msg_aes_enc}
use memory_leak.Notify.Message.{
  Msg, len_devid, max_msg, msg_of, memory, msg_ntf, msg_get_aes, g_ntf_cli, g_cli_ntf, f_srv_cli,
  g_ntf_srv, f_srv_ntf, from_dev_id, from_ntf_id, strlen, strncmp_eq, bucket_of, or_empty,
}
use memory_leak.Notify.Rsa.{Net, get_cli_pub, rsa_enc}
use memory_leak.Notify.Registry.{
  SockaddrIn, no_addr, Item, Bucket, Table, Env, item_size, my_malloc,
}

-- The result, and the list behind `l`; `l` itself may be null. `msg` is the memory there.
unfoldable pub add_to_item_list :
    Env → (msg : List ℕ) → Option (List Item) → (sz : ℕ) → Run (ℕ × Option (List Item))
add_to_item_list env msg none sz = ok (1, none)
add_to_item_list env msg (some l) sz = do
  _ ← my_malloc env item_size
  _ ← my_malloc env sz
  bytes ← or_fault (copy_out msg sz)
  ok (0, some (record { ipv4 = no_addr; n_msg = sz; msg = some (msg_of bytes) } ∷ l))

-- `aes_key` and the first bytes of `aes_iv`.
abbrev pub aes_key : List ℕ
aes_key =
    240 ∷ 161 ∷ 179 ∷ 192 ∷ 213 ∷ 17 ∷ 19 ∷ 23 ∷ 112 ∷ 162 ∷ 181 ∷ 112 ∷ 209 ∷ 26 ∷ 18 ∷ 135 ∷ 112
    ∷ 162 ∷ 181 ∷ 112 ∷ 209 ∷ 26 ∷ 18 ∷ 135 ∷ 112 ∷ 162 ∷ 181 ∷ 112 ∷ 209 ∷ 26 ∷ 18 ∷ 135 ∷ []

abbrev pub aes_iv : List ℕ
aes_iv = 33 ∷ 64 ∷ 35 ∷ 36 ∷ 37 ∷ 94 ∷ 38 ∷ 42 ∷ 40 ∷ 41 ∷ 40 ∷ 42 ∷ 38 ∷ 94 ∷ 37 ∷ 36 ∷ []

-- `iid`, for a route that is forwarded.
unfoldable pub destination : Msg → Option (List ℕ)
destination m =
    if m.ifroute == g_ntf_cli
    then some (from_dev_id m)
    else if m.ifroute == f_srv_cli
    then some (from_dev_id m)
    else if m.ifroute == g_ntf_srv
    then some (from_dev_id m)
    else if m.ifroute == f_srv_ntf
    then some (from_dev_id m)
    else if m.ifroute == g_cli_ntf
    then some (from_ntf_id m)
    else none

-- The walk along a bucket, to its end: the address of the first item with that id.
unfoldable pub find_addr : List ℕ → List Item → Run (Option SockaddrIn)
find_addr iid [] = ok none
find_addr iid (gr ∷ grs) = or_fault gr.msg >>= λ m.
    let rest = find_addr iid grs in
    if strncmp_eq len_devid iid m.dev_id then ok (some gr.ipv4) else rest

-- ENCRYPT_CLI_PUB
abbrev pub encrypt_cli_pub : ℕ
encrypt_cli_pub = 2

module _ (net : Net) where
  -- `err`, `buffer` and `sn` behind the part that encodes the message.
  pub record Packed : Type 0 where
    pub err : ℕ
    pub buffer : List ℕ
    pub sn : ℤ

  abbrev pub zeroed : List ℕ
  zeroed = replicate (max_msg + 1) 0

  -- A ciphertext and its marker go into the buffer; without one, `sn` is what it was.
  unfoldable pub pack_rsa : (err : ℕ) (sn : ℤ) → Option (List ℕ) → Run Packed
  pack_rsa err sn none = ok (record { err = err; buffer = zeroed; sn = sn })
  pack_rsa err sn (some out) = do
    buf ← or_fault (copy_in zeroed 0 out)
    buf ← or_fault (copy_in buf (length out) (encrypt_cli_pub ∷ []))
    ok (record { err = err; buffer = buf; sn = pos (length out + 1) })

  unfoldable pub pack_key : Env → Item → Msg → (err : ℕ) (sn : ℤ) → Option net.Key → Run Packed
  pack_key env hi m err sn none = ok (record { err = 1; buffer = zeroed; sn = sn })
  pack_key env hi m err sn (some key) = do
    (_, out) ← rsa_enc net env (some key) (memory m) true hi.n_msg
    pack_rsa err sn out

  abbrev pub coded_sn : Option ℕ → ℤ
  coded_sn none = pos 0
  coded_sn (some n) = pos n

  -- The first component is false for a `break`; then `sn` is 0.
  unfoldable pub pack_coded : (err : ℕ) → Coded → Bool × Packed
  pack_coded zero r = (true, record { err = 0; buffer = or_empty r.buffer; sn = coded_sn r.lenout })
  pack_coded (suc err) r = (false, record { err = suc err; buffer = or_empty r.buffer; sn = pos 0 })

  -- `sn` is set by `msg_aes_enc` or to 0, so that its old value plays no part.
  unfoldable pub pack_ntf : Item → Msg → Run (Bool × Packed)
  pack_ntf hi m = do
    r ←
        msg_aes_enc net.evp (some (memory m)) (some zeroed) (some aes_key) (some aes_iv) hi.n_msg
          (some 0) (max_msg + 1)
    ok (pack_coded r.err r)

  unfoldable pub pack_plain : Item → Msg → (err : ℕ) → Run Packed
  pack_plain hi m err = do
    text ← or_fault (copy_out (memory m) hi.n_msg)
    buf ← or_fault (copy_in zeroed 0 text)
    ok (record { err = err; buffer = buf; sn = pos hi.n_msg })

  unfoldable pub pack_get_aes : Env → Item → Msg → List ℕ → (err : ℕ) (sn : ℤ) → Run Packed
  pack_get_aes env hi m iid err sn = do key ← get_cli_pub net iid; pack_key env hi m err sn key

  unfoldable pub pack : Env → Item → Msg → List ℕ → (err : ℕ) (sn : ℤ) → Run (Bool × Packed)
  pack env hi m iid err sn =
      if m.type == msg_get_aes
      then (pack_get_aes env hi m iid err sn >>= λ p. ok (true, p))
      else if m.type == msg_ntf
      then pack_ntf hi m
      else (pack_plain hi m err >>= λ p. ok (true, p))

  -- The variables of the loop: `err`, `sn`, the address behind `t`, `*count`, and the datagrams
  -- sent, in order.
  pub record Loop : Type 0 where
    pub err : ℕ
    pub sn : ℤ
    pub t : Option SockaddrIn
    pub count : ℕ
    pub sent : List (SockaddrIn × List ℕ)

  -- What `sendto` reads; a negative `sn` is a size beyond the buffer.
  unfoldable pub datagram : ℤ → List ℕ → Run (List ℕ)
  datagram (negsuc n) buffer = fault
  datagram (pos n) buffer = or_fault (copy_out buffer n)

  -- `t = hi`, and MY_FREE(t) sets `t` to null.
  unfoldable pub kept : (clear : Bool) → Item → Option SockaddrIn
  kept clear hi = if clear then none else some hi.ipv4

  -- From `sendto` on.
  unfoldable pub emit : (clear : Bool) → Item → SockaddrIn → Packed → Loop → Run Loop
  emit clear hi t p s = do
    d ← datagram p.sn p.buffer
    ok (record {
      err = p.err;
      sn = net.sendto t d;
      t = kept clear hi;
      count = s.count + 1;
      sent = s.sent ++ (t, d) ∷ [];
    })

  -- The result is the state and whether the loop goes on.
  unfoldable pub emit_packed :
      (clear : Bool) → Item → SockaddrIn → Bool × Packed → Loop → Run (Bool × Loop)
  emit_packed clear hi t (false, p) s = ok (false, record s { err = p.err; sn = p.sn; t = some t })
  emit_packed clear hi t (true, p) s = emit clear hi t p s >>= λ s. ok (true, s)

  -- `if (!t) { err = 1; break; }` and what follows.
  unfoldable pub send_to :
      Env → (clear : Bool) → Item → Msg → List ℕ → Option SockaddrIn → Loop → Run (Bool × Loop)
  send_to env clear hi m iid none s = ok (false, record s { err = 1; t = none })
  send_to env clear hi m iid (some t) s = do
    r ← pack env hi m iid s.err s.sn
    emit_packed clear hi t r s

  -- `t` is left alone if the walk finds nothing.
  unfoldable pub found_or : Option SockaddrIn → Option SockaddrIn → Option SockaddrIn
  found_or none old = old
  found_or (some a) old = some a

  unfoldable pub send_group :
      Env → (clear : Bool) → Item → Msg → List ℕ → List Item → Loop → Run (Bool × Loop)
  send_group env clear hi m iid [] s = ok (false, record s { err = 1 })
  send_group env clear hi m iid (gr ∷ grs) s = do
    found ← find_addr iid (gr ∷ grs)
    send_to env clear hi m iid (found_or found s.t) s

  unfoldable pub send_routed :
      Env → Table → (clear : Bool) → Item → Msg → Option (List ℕ) → Loop → Run (Bool × Loop)
  send_routed env table clear hi m none s = ok (false, s)
  send_routed env table clear hi m (some iid) s = do
    index ← bucket_of iid
    send_group env clear hi m iid (table index).group s

  -- One round of the loop.
  unfoldable pub send_item : Env → Table → (clear : Bool) → Item → Loop → Run (Bool × Loop)
  send_item env table clear hi s = do
    m ← or_fault hi.msg
    send_routed env table clear hi m (destination m) s

  abbrev pub go_on : (Loop → Run Loop) → Bool × Loop → Run Loop
  go_on rest (false, s) = ok s
  go_on rest (true, s) = rest s

  -- `while (hi)`
  unfoldable pub send_list : Env → Table → (clear : Bool) → List Item → Loop → Run Loop
  send_list env table clear [] s = ok s
  send_list env table clear (hi ∷ his) s =
      send_item env table clear hi s >>= λ r. go_on (send_list env table clear his) r

  abbrev pub loop_start : Loop
  loop_start = record { err = 0; sn = pos 0; t = none; count = 0; sent = [] }

  -- The list is taken from `l` before the loop; the last component is what `l` points to then.
  unfoldable pub send_to_dst :
      Env → Table → Option (List Item) → (clear : Bool) → Run (Loop × Option (List Item))
  send_to_dst env table none clear = ok (record loop_start { err = 1 }, none)
  send_to_dst env table (some l) clear = do
    s ← send_list env table clear l loop_start
    ok (s, some [])
