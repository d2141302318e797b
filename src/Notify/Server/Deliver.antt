-- ===== src/Notify/Server/Deliver.antt =====
-- The sending thread: a datagram that records an address, and what is sent then.
use memory_leak.Prelude.{
  ℕ, ◌≤◌, ◌≡◌, inl, inr, refl, ap, ◌∙◌, true, some, List, [], ◌∷◌, ◌++◌, length, arith, take_all,
  length-append, le→ltb, eq→==,
}
use memory_leak.Prelude.Memory.{copy_in-eq_some}
use memory_leak.Prelude.Same.{same_refl}
use memory_leak.Prelude.Run.{ok, ◌>>=◌, Returns}
use memory_leak.Notify.Evp.{IsGcm}
use memory_leak.Notify.Message.{
  Msg, memory, max_msg, common_size, msg_tra, from_dev_id, from_ntf_id,
}
use memory_leak.Notify.Message.Ids.{IsField}
use memory_leak.Notify.Message.Memory.{IsHeader, msg_of-memory, length-memory}
use memory_leak.Notify.Registry.{SockaddrIn, Item, Env}
use memory_leak.Notify.Registry.View.{view}
use memory_leak.Notify.Registry.Calls.{track, hl_track_msg-track}
use memory_leak.Notify.Registry.Fresh.{Grants}
use memory_leak.Notify.Rsa.{Net, Private}
use memory_leak.Notify.Forward.{destination, send_to_dst}
use memory_leak.Notify.Forward.Delivery.{Form, Routed}
use memory_leak.Notify.Forward.Batch.{send_to_dst-Routed}
use memory_leak.Notify.Server.{
  Server, cleared, track_sender, track_opened, track_datagram, take_in, sending_round, items,
}
use memory_leak.Notify.Server.Answer.{waiting}
use memory_leak.Notify.Server.Open.{Carries, length-Carries, length-cleared, unwrap-Carries}
use memory_leak.Notify.Server.Relay.{IsServer}

-- A tracking message for `id`.
pub record IsTracking (m : Msg) (id : List ℕ) : Type 0 where
  pub header : IsHeader m id
  pub tracks : m.type ≡ msg_tra

module _ (net : Net) (g : IsGcm net.evp) (prv : Private) (env : Env) (grants : Grants env) where
  -- The address is recorded in the table, and nothing else changes that is shared.
  pub record Tracked (s : Server) (id : List ℕ) (addr : SockaddrIn) (s' : Server) : Type 0 where
    pub server : IsServer s'
    pub recorded : (j : List ℕ) → view s'.table j ≡ (track (view s.table) id addr).1 j
    pub list : s'.imd_fwd_lt ≡ s.imd_fwd_lt

  track_sender-Tracked :
      (s : Server) (m : Msg) (id : List ℕ) (addr : SockaddrIn) (rest : List ℕ)
      → IsServer s
      → IsTracking m id
      → Returns (track_sender net prv env s addr (memory m ++ rest)) λ s'. Tracked s id addr s'
  unfolding track_sender
  track_sender-Tracked s m id addr rest w t =
      let read = record m { data_bytes = m.data_bytes ++ rest } in
      let (r, run, kept) = hl_track_msg-track s.table read id addr w.registry t.header.dev_field in
      (
        record s { table = r.1 },
        rw (eq→== m.type msg_tra t.tracks, msg_of-memory m id t.header rest, run, ◌>>=◌) refl,
        record {
          server = record {
            registry = kept.0;
            main_block = w.main_block;
            sending_block = w.sending_block;
          };
          recorded = kept.2;
          list = refl;
        },
      )

  module _ (s : Server) (w : IsServer s) (d : List ℕ) (m : Msg) (id : List ℕ) (addr : SockaddrIn)
      (t : IsTracking m id) (c : Carries net g prv d (memory m)) (small : length d ≤ max_msg) where
    long_enough : common_size ≤ length d
    long_enough = omega (
      arith,
      length-Carries net g prv env grants s.bufout w.main_block d (memory m) c,
      length-memory m id t.header,
    )

    pub take_in-Tracked :
        Returns (take_in net prv env s (some (addr, d))) λ s'. Tracked s id addr s'
    unfolding take_in track_datagram track_opened
    take_in-Tracked =
        let (o, run, r) =
          unwrap-Carries net g prv env grants s.bufout_sending w.sending_block d (memory m) c
            (omega arith) in
        let start : take_in net prv env s (some (addr, d)) ≡ track_opened net prv env s addr o =
          rw
            (
              take_all max_msg d small,
              le→ltb (length d) common_size long_enough,
              copy_in-eq_some cleared 0 d
                  (omega (arith, small, length-cleared net g prv env grants s.bufout w.main_block)),
              ◌>>=◌,
              run,
            )
            refl in
        elim r.place [
          | inl e ↦
              let (s', went, kept) = track_sender-Tracked s m id addr r.rest w t in
              (s', start ∙ rw (e, track_opened) went, kept)
          | inr e ↦
              let w' : IsServer (record s { bufout_sending = memory m ++ r.rest }) = record {
                registry = w.registry;
                main_block = w.main_block;
                sending_block = length-append (memory m) r.rest ∙ r.size;
              } in
              let (s', went, kept) =
                track_sender-Tracked (record s { bufout_sending = memory m ++ r.rest }) m id addr
                  r.rest w' t in
              (
                s',
                start ∙ rw (e, track_opened) went,
                record { server = kept.server; recorded = kept.recorded; list = kept.list },
              )
        ]

    -- The address of the sender, once its id is registered.
    recorded_view :
        (s' : Server) (old : SockaddrIn)
        → Tracked s id addr s'
        → view s.table id ≡ some old
        → view s'.table id ≡ some addr
    unfolding track
    recorded_view s' old k e = k.recorded id ∙ rw (track, e, same_refl id) refl

    -- A message that waits goes out to the sender of the tracking message.
    pub sending_round-flush :
        (o : Msg) (bytes : List ℕ) (old : SockaddrIn)
        → s.imd_fwd_lt ≡ waiting o ∷ []
        → destination o ≡ some (from_dev_id o)
        → IsField o.dev_id id
        → Form net g o (length (memory o)) bytes
        → view s.table id ≡ some old
        → Returns
            (sending_round net prv env s (some (addr, d)))
            λ r. (r.1 ≡ (addr, bytes) ∷ []) × (r.0.imd_fwd_lt ≡ []) × IsServer r.0
    unfolding sending_round
    sending_round-flush o bytes old list names field form known =
        let (s', took, k) = take_in-Tracked in
        let routed : Routed net g s'.table (waiting o) (addr, bytes) = record {
          msg = o;
          id = id;
          addressed = record {
            there = refl;
            field = o.dev_id;
            rest = from_ntf_id o;
            names = names;
            id_field = field;
          };
          known = recorded_view s' old k known;
          size = refl;
          form = form;
        } in
        let (r, sent, all) =
          send_to_dst-Routed net g env s'.table k.server.registry (waiting o ∷ [])
            ((addr, bytes) ∷ []) (routed, tt) in
        let queue : s'.imd_fwd_lt ≡ waiting o ∷ [] = k.list ∙ list in
        (
          (record s' { imd_fwd_lt = items r.1 }, r.0.sent),
          rw (took, ◌>>=◌)
              (ap
                  (λ (l : List Item). send_to_dst net env s'.table (some l) true >>= λ r.
                    ok (record s' { imd_fwd_lt = items r.1 }, r.0.sent))
                  queue
                ∙ rw (sent, ◌>>=◌) refl),
          (
            all.1,
            ap items all.3,
            record {
              registry = k.server.registry;
              main_block = k.server.main_block;
              sending_block = k.server.sending_block;
            },
          ),
        )
