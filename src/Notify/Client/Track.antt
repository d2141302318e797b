-- ===== src/Notify/Client/Track.antt =====
-- A tracking message from the client to the server.
use memory_leak.Prelude.{
  ℕ, ◌+◌, ◌-◌, ◌≤◌, ◌≡◌, refl, ap, sym, ◌∙◌, some, List, [], ◌++◌, length, take, replicate, arith,
  length-append, take-append_of_eq,
}
use memory_leak.Prelude.Memory.{copy_out-eq_some}
use memory_leak.Prelude.Run.{ok, ◌>>=◌, Returns}
use memory_leak.Notify.Codec.Bytes.{le_bytes}
use memory_leak.Notify.Codec.RoundTrip.{stored, codec-le_bytes}
use memory_leak.Notify.Evp.{IsGcm}
use memory_leak.Notify.Aes.Wire.{wire, sealed}
use memory_leak.Notify.Aes.RoundTrip.{enc-sealed, sealed-wire, length-sealed}
use memory_leak.Notify.Message.{
  Msg, Timespec, memory, common_size, len_devid, max_msg, msg_tra, put_time_to_msg,
}
use memory_leak.Notify.Message.Ids.{IsField}
use memory_leak.Notify.Message.Memory.{length-memory}
use memory_leak.Notify.Registry.{SockaddrIn, Env}
use memory_leak.Notify.Registry.Fresh.{Grants}
use memory_leak.Notify.Rsa.{Net, Private}
use memory_leak.Notify.Forward.{aes_key, aes_iv}
use memory_leak.Notify.Server.{Server, take_in}
use memory_leak.Notify.Server.Open.{sealed as carried, length-wire}
use memory_leak.Notify.Server.Relay.{IsServer}
use memory_leak.Notify.Server.Deliver.{IsTracking, Tracked, take_in-Tracked}
use memory_leak.Notify.Client.{
  blank, track_msg, buffer_of, send, track_aes, track_sealed, send_msg_track,
}

pub empty-IsField : IsField (replicate 40 0) []
empty-IsField = record { string = tt; pad = replicate 39 0; layout = refl; size = refl }

-- The message is a tracking message without data.
track_msg-IsTracking :
    (iid id : List ℕ) (t : Timespec)
    → IsField (take len_devid iid) id
    → len_devid ≤ length iid
    → Returns (track_msg iid t) λ m. IsTracking m id × (m.data_bytes ≡ [])
unfolding track_msg put_time_to_msg le_bytes
track_msg-IsTracking iid id t f h = (
  record blank {
    type = msg_tra;
    dev_id = take len_devid iid;
    second = stored (replicate 8 0) t.tv_sec 8;
    nano = stored (replicate 8 0) t.tv_nsec 8;
  },
  rw
      (
        (codec-le_bytes (replicate 8 0) t.tv_sec 8 (omega arith)).0 (omega arith),
        ◌>>=◌,
        (codec-le_bytes (replicate 8 0) t.tv_nsec 8 (omega arith)).0 (omega arith),
        copy_out-eq_some iid len_devid h,
      )
      refl,
  (
    record {
      header = record {
        dev_field = f;
        notifier = [];
        ntf_field = empty-IsField;
        second_size = refl;
        nano_size = refl;
        len_size = refl;
      };
      tracks = refl;
    },
    refl,
  ),
)

module _ (net : Net) (g : IsGcm net.evp) (prv : Private) (env : Env) (grants : Grants env) where
  -- With the key of the server the message goes out sealed.
  track_aes-wire :
      (srv : SockaddrIn) (m : Msg) (id bufout : List ℕ)
      → IsTracking m id
      → m.data_bytes ≡ []
      → length bufout ≡ max_msg + 1
      → track_aes net env srv (buffer_of m) bufout aes_key (some aes_iv)
        ≡ ok (
          net.sendto srv (wire net.evp g aes_key aes_iv (memory m)),
          some (wire net.evp g aes_key aes_iv (memory m)),
        )
  unfolding track_aes send
  track_aes-wire srv m id bufout t e b =
      let size : length (memory m) ≡ 100 =
        omega (arith, length-memory m id t.header, ap (λ (l : List ℕ). length l) e) in
      let zeros : List ℕ = replicate {A = ℕ} (max_msg + 1 - common_size) 0 in
      let input : List ℕ = memory m ++ zeros in
      let whole : take 100 input ≡ memory m = take-append_of_eq 100 (memory m) zeros (sym size) in
      let inside : 100 ≤ length input = omega (arith, size, length-append (memory m) zeros) in
      let block = sealed net.evp g bufout aes_key aes_iv (take 100 input) in
      let room =
        length-sealed net.evp g aes_key aes_iv refl refl input bufout 100 inside
          (omega (arith, b)) in
      let out : take 117 block ≡ wire net.evp g aes_key aes_iv (memory m) =
        sealed-wire net.evp g aes_key aes_iv refl refl input bufout 100 inside (omega (arith, b))
        ∙ ap (λ (l : List ℕ). wire net.evp g aes_key aes_iv l) whole in
      rw
        (
          enc-sealed net.evp g aes_key aes_iv refl refl input bufout 100 0 (max_msg + 1) inside
              (omega arith) (omega (arith, b)),
          ◌>>=◌,
          copy_out-eq_some block 117 (omega (arith, room)),
          out,
        )
        refl

  -- With documented EVP calls, memory granted, an id that ends inside 40 readable bytes and the
  -- key of the server, `send_msg_track` sends one datagram; when it reaches the sending thread of
  -- a well-formed server, from the address `addr`, that address is recorded for the id if it is
  -- registered, no other address changes, what waits stays, and the server is well-formed.
  pub take_in-send_msg_track :
      (iid id bufout : List ℕ) (srv addr : SockaddrIn) (t : Timespec) (s : Server)
      → IsField (take len_devid iid) id
      → len_devid ≤ length iid
      → length bufout ≡ max_msg + 1
      → IsServer s
      → Returns
          (send_msg_track net env
            (some iid)
            (some srv)
            (some t)
            (some aes_key)
            (some aes_iv)
            bufout)
          λ r.
            (d : List ℕ) × (r.1 ≡ some d)
            × Returns
                (take_in net prv env s (some (addr, d)))
                λ s'. Tracked net g prv env grants s id addr s'
  unfolding send_msg_track track_sealed
  take_in-send_msg_track iid id bufout srv addr t s f h b w =
      let (m, built, k) = track_msg-IsTracking iid id t f h in
      let d = wire net.evp g aes_key aes_iv (memory m) in
      let small : length d ≤ max_msg = omega (
        arith,
        length-wire net g prv env grants s.bufout w.main_block (memory m),
        length-memory m id k.0.header,
        ap (λ (l : List ℕ). length l) k.1,
      ) in
      (
        (net.sendto srv d, some d),
        rw (built, ◌>>=◌) (track_aes-wire srv m id bufout k.0 k.1 b),
        (d, refl, take_in-Tracked net g prv env grants s w d m id addr k.0 (carried refl) small),
      )
