-- ===== src/Notify/Forward/Batch.antt =====
-- Whole lists of messages to forward.
use memory_leak.Prelude.{
  ℕ, suc, ◌+◌, ◌≡◌, refl, ap, sym, ◌∙◌, true, false, some, List, [], ◌∷◌, ◌++◌, length, arith,
  append_assoc, append-nil,
}
use memory_leak.Prelude.Int.{ℤ, pos}
use memory_leak.Prelude.Run.{ok, ◌>>=◌, Returns}
use memory_leak.Notify.Registry.{SockaddrIn, Item, Table, Env}
use memory_leak.Notify.Registry.View.{IsRegistry}
use memory_leak.Notify.Evp.{IsGcm}
use memory_leak.Notify.Rsa.{Net}
use memory_leak.Notify.Forward.{send_to, send_item, send_list, loop_start, send_to_dst}
use memory_leak.Notify.Forward.Delivery.{
  Routed, AllRouted, Lost, at, send_item-view, send_to-Routed,
}

module _ (net : Net) (g : IsGcm net.evp) (env : Env) (table : Table) (w : IsRegistry table) where
  send_item-Routed :
      (hi : Item) (d : SockaddrIn × List ℕ) (r : Routed net g table hi d) (sn : ℤ) (count : ℕ)
      (sent : List (SockaddrIn × List ℕ))
      → send_item net env table true hi (at net env table w 0 sn count sent)
        ≡ ok (true, at net env table w 0 (net.sendto d.0 d.1) (count + 1) (sent ++ d ∷ []))
  send_item-Routed hi d r sn count sent =
      send_item-view net env table w hi r.msg r.id r.addressed 0 sn count sent
      ∙ rw r.known (
          send_to-Routed net env table w g hi d r (r.addressed.field ++ r.addressed.rest) sn count
            sent)

  send_item-Lost :
      (hi : Item) (l : Lost table hi) (err : ℕ) (sn : ℤ) (count : ℕ)
      (sent : List (SockaddrIn × List ℕ))
      → send_item net env table true hi (at net env table w err sn count sent)
        ≡ ok (false, at net env table w 1 sn count sent)
  unfolding send_to
  send_item-Lost hi l err sn count sent =
      send_item-view net env table w hi l.msg l.id l.addressed err sn count sent
      ∙ rw (l.unknown, send_to) refl

  -- The loop gets through the routed messages at the front of the list.
  send_list-routed :
      (good : List Item) (ds : List (SockaddrIn × List ℕ)) (rest : List Item) (sn : ℤ) (count : ℕ)
      (sent : List (SockaddrIn × List ℕ))
      → AllRouted net g table good ds
      → (sn' : ℤ) × (send_list net env table true
            (good ++ rest)
            (at net env table w 0 sn count sent)
          ≡ send_list net env table true rest
              (at net env table w 0 sn' (count + length ds) (sent ++ ds)))
  unfolding send_list
  send_list-routed [] [] rest sn count sent a =
      let none_more : count + 0 ≡ count = omega arith in (sn, rw (none_more, append-nil sent) refl)
  send_list-routed [] (d ∷ ds) rest sn count sent a = absurd a
  send_list-routed (hi ∷ his) [] rest sn count sent a = absurd a
  send_list-routed (hi ∷ his) (d ∷ ds) rest sn count sent a =
      let (sn', ih) =
        send_list-routed his ds rest (net.sendto d.0 d.1) (count + 1) (sent ++ d ∷ []) a.1 in
      let counted : count + 1 + length ds ≡ count + suc (length ds) = omega arith in
      (
        sn',
        rw (send_item-Routed hi d a.0 sn count sent, ◌>>=◌) (ih ∙ rw (counted, append_assoc) refl),
      )

  -- With a well-formed registry, documented EVP calls, and messages to registered devices that are
  -- no requests of the AES key, of at most MAX_MSG + 1 bytes, or 17 less for a notification,
  -- `send_to_dst` that clears the list sends each message once, in the order of the list, to the
  -- address recorded for its device, a notification sealed with the server's key and any other
  -- message as it is, counts them, returns 0 and leaves an empty list.
  pub send_to_dst-Routed :
      (l : List Item) (ds : List (SockaddrIn × List ℕ))
      → AllRouted net g table l ds
      → Returns
          (send_to_dst net env table (some l) true)
          λ r. (r.0.err ≡ 0) × (r.0.sent ≡ ds) × (r.0.count ≡ length ds) × (r.1 ≡ some [])
  unfolding send_to_dst send_list
  send_to_dst-Routed l ds a =
      let (sn, e) = send_list-routed l ds [] (pos 0) 0 [] a in
      let run : send_list net env table true l (loop_start net)
          ≡ ok (at net env table w 0 sn (0 + length ds) ds) =
        ap (λ (k : List Item). send_list net env table true k (loop_start net)) (sym (append-nil l))
        ∙ e in
      (
        (at net env table w 0 sn (0 + length ds) ds, some []),
        rw run refl,
        (refl, refl, omega arith, refl),
      )

  -- With a well-formed registry, documented EVP calls, and a list of messages to registered devices
  -- that are no requests of the AES key, of at most MAX_MSG + 1 bytes, or 17 less for a
  -- notification, then a message whose id ends inside its field to a device that is not registered,
  -- then any others: `send_to_dst` that clears the list sends those before that message, returns 1,
  -- and leaves an empty list, so that neither that message nor those behind it are sent by this
  -- call or a later one.
  pub send_to_dst-Lost :
      (good : List Item) (ds : List (SockaddrIn × List ℕ)) (bad : Item) (rest : List Item)
      → AllRouted net g table good ds
      → Lost table bad
      → Returns
          (send_to_dst net env table (some (good ++ bad ∷ rest)) true)
          λ r. (r.0.err ≡ 1) × (r.0.sent ≡ ds) × (r.0.count ≡ length ds) × (r.1 ≡ some [])
  unfolding send_to_dst send_list
  send_to_dst-Lost good ds bad rest a l =
      let (sn, e) = send_list-routed good ds (bad ∷ rest) (pos 0) 0 [] a in
      (
        (at net env table w 1 sn (0 + length ds) ds, some []),
        rw (e, send_item-Lost bad l 0 sn (0 + length ds) ds) refl,
        (refl, refl, omega arith, refl),
      )
