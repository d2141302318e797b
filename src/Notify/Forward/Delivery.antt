-- ===== src/Notify/Forward/Delivery.antt =====
-- What `send_to_dst` delivers, in terms of the map of recorded addresses.
use memory_leak.Prelude.{
  ℕ, zero, suc, ◌+◌, ◌≤◌, ◌≡◌, ◌≢◌, ◌⊎◌, inl, inr, refl, ap, sym, ◌∙◌, Bool, true, false, Option,
  none, some, List, [], ◌∷◌, ◌++◌, if◌then◌else◌, length, length-replicate, drop, arith, ne→==,
  eq→==, take, take_all, take-append_of_eq,
}
use memory_leak.Prelude.Int.{ℤ, pos}
use memory_leak.Prelude.Same.{same}
use memory_leak.Prelude.Memory.{copy_in-eq_some, copy_out-eq_some, overwrite, length-overwrite}
use memory_leak.Prelude.Run.{ok, ◌>>=◌, or_fault}
use memory_leak.Notify.Hash.{hash_func}
use memory_leak.Notify.Message.{memory, Msg, len_devid, max_msg, msg_ntf, msg_get_aes, strncmp_eq}
use memory_leak.Notify.Message.Ids.{IsField, bucket_of-field}
use memory_leak.Notify.Registry.{SockaddrIn, Item, Table, Env}
use memory_leak.Notify.Registry.View.{id_of, AllWell, IsRegistry, route, view, compare-id}
use memory_leak.Notify.Evp.{IsGcm}
use memory_leak.Notify.Aes.Wire.{wire, sealed}
use memory_leak.Notify.Aes.RoundTrip.{enc-sealed, sealed-wire, length-sealed}
use memory_leak.Notify.Rsa.{Net}
use memory_leak.Notify.Forward.{
  Loop, aes_key, aes_iv, pack_ntf, pack_coded, destination, find_addr, zeroed, pack, pack_plain,
  datagram, kept, emit, emit_packed, send_to, found_or, send_group, send_routed, send_item,
}

-- Bytes behind a block of at least `n` play no part in a comparison of `n` bytes.
strncmp_eq-append :
    (n : ℕ) (a r b : List ℕ) → n ≤ length a → strncmp_eq n (a ++ r) b ≡ strncmp_eq n a b
unfolding strncmp_eq
strncmp_eq-append zero a r b h = refl
strncmp_eq-append (suc n) [] r b h = absurd (omega arith)
strncmp_eq-append (suc n) (x ∷ a) r [] h = refl
strncmp_eq-append (suc n) (x ∷ a) r (y ∷ b) h = rw (strncmp_eq-append n a r b (omega arith)) refl

find_addr-cons :
    (iid : List ℕ) (it : Item) (its : List Item) (m : Msg)
    → it.msg ≡ some m
    → find_addr iid (it ∷ its)
      ≡ (if strncmp_eq len_devid iid m.dev_id then ok (some it.ipv4) else find_addr iid its)
unfolding find_addr
find_addr-cons iid it its m e = rw e refl

-- The walk of `send_to_dst` finds the address recorded in the bucket.
find_addr-route :
    (h : ℕ) (field rest id : List ℕ) (its : List Item)
    → IsField field id
    → AllWell h its
    → find_addr (field ++ rest) its ≡ ok (route id its)
unfolding find_addr route
find_addr-route h field rest id [] f w = refl
find_addr-route h field rest id (it ∷ its) f w =
    find_addr-cons (field ++ rest) it its w.0.msg w.0.there
    ∙ rw
        (
          strncmp_eq-append len_devid field rest w.0.msg.dev_id (omega (arith, f.size)),
          compare-id h field id it f w.0,
          find_addr-route h field rest id its f w.1,
        )
        (answer (same (id_of it) id))
  where
    answer :
        (b : Bool)
        → (if b then ok (some it.ipv4) else ok (route id its))
          ≡ ok (if b then some it.ipv4 else route id its)
    answer true = refl
    answer false = refl

-- A message on the list whose route names the device `id`.
pub record Addressed (hi : Item) (m : Msg) (id : List ℕ) : Type 0 where
  pub there : hi.msg ≡ some m
  pub field : List ℕ
  pub rest : List ℕ
  pub names : destination m ≡ some (field ++ rest)
  pub id_field : IsField field id

module _ (net : Net) (g : IsGcm net.evp) where
  -- What goes out for a message of `n` bytes: a notification is sealed, and has to leave room for
  -- that; a message that is no request of the key either goes out as it is.
  abbrev pub Form : Msg → (n : ℕ) (bytes : List ℕ) → Type 0
  Form m n bytes =
      ((m.type ≢ msg_ntf) × (m.type ≢ msg_get_aes) × (n ≤ max_msg + 1) × (bytes ≡ memory m))
      ⊎ ((m.type ≡ msg_ntf)
          × (n + 17 ≤ max_msg + 1)
          × (bytes ≡ wire net.evp g aes_key aes_iv (memory m)))

  -- Such a message to a device whose address is `d.0`; `d.1` is what goes out.
  pub record Routed (table : Table) (hi : Item) (d : SockaddrIn × List ℕ) : Type 0 where
    pub msg : Msg
    pub id : List ℕ
    pub addressed : Addressed hi msg id
    pub known : view table id ≡ some d.0
    pub size : hi.n_msg ≡ length (memory msg)
    pub form : Form msg hi.n_msg d.1

  -- The messages of a list, each with its datagram.
  abbrev pub AllRouted : Table → List Item → List (SockaddrIn × List ℕ) → Type 0
  AllRouted table [] [] = Unit {0}
  AllRouted table [] (d ∷ ds) = ⊥
  AllRouted table (hi ∷ his) [] = ⊥
  AllRouted table (hi ∷ his) (d ∷ ds) = Routed table hi d × AllRouted table his ds

-- A message to a device that is not registered.
pub record Lost (table : Table) (hi : Item) : Type 0 where
  pub msg : Msg
  pub id : List ℕ
  pub addressed : Addressed hi msg id
  pub unknown : view table id ≡ none

module _ (net : Net) (env : Env) (table : Table) (w : IsRegistry table) where
  -- The variables between two rounds.
  abbrev pub at : (err : ℕ) (sn : ℤ) (count : ℕ) (sent : List (SockaddrIn × List ℕ)) → Loop net
  at err sn count sent = record { err = err; sn = sn; t = none; count = count; sent = sent }

  -- A round depends on the address recorded for the id.
  send_group-route :
      (hi : Item) (m : Msg) (field rest id : List ℕ) (h : ℕ) (its : List Item) (err : ℕ) (sn : ℤ)
      (count : ℕ) (sent : List (SockaddrIn × List ℕ))
      → IsField field id
      → AllWell h its
      → send_group net env true hi m (field ++ rest) its (at err sn count sent)
        ≡ send_to net env true hi m (field ++ rest) (route id its) (at err sn count sent)
  unfolding send_group send_to route
  send_group-route hi m field rest id h [] err sn count sent f ws = refl
  send_group-route hi m field rest id h (gr ∷ grs) err sn count sent f ws =
      rw (find_addr-route h field rest id (gr ∷ grs) f ws, ◌>>=◌, found (route id (gr ∷ grs))) refl
    where
      found : (o : Option SockaddrIn) → found_or net o none ≡ o
      found none = unfold found_or in refl
      found (some a) = unfold found_or in refl

  pub send_item-view :
      (hi : Item) (m : Msg) (id : List ℕ) (a : Addressed hi m id) (err : ℕ) (sn : ℤ) (count : ℕ)
      (sent : List (SockaddrIn × List ℕ))
      → send_item net env table true hi (at err sn count sent)
        ≡ send_to net env true hi m (a.field ++ a.rest) (view table id) (at err sn count sent)
  unfolding send_item send_routed view
  send_item-view hi m id a err sn count sent =
      ap
        (λ (o : Option Msg). or_fault o >>= λ m.
          send_routed net env table true hi m (destination m) (at err sn count sent))
        a.there
      ∙ rw (a.names, send_routed, bucket_of-field a.field id a.rest a.id_field)
          (send_group-route hi m a.field a.rest id (hash_func id) (table (hash_func id)).group err
            sn count sent a.id_field (w (hash_func id)).well)

  length-zeroed : length (zeroed net) ≡ max_msg + 1
  length-zeroed = length-replicate {A = ℕ} (max_msg + 1) 0

  -- A plain message goes out whole.
  pack-plain :
      (hi : Item) (m : Msg) (iid : List ℕ) (err : ℕ) (sn : ℤ)
      → hi.n_msg ≡ length (memory m)
      → hi.n_msg ≤ max_msg + 1
      → m.type ≢ msg_ntf
      → m.type ≢ msg_get_aes
      → pack net env hi m iid err sn
        ≡ ok (
          true,
          record { err = err; buffer = overwrite (zeroed net) 0 (memory m); sn = pos hi.n_msg },
        )
  unfolding pack pack_plain
  pack-plain hi m iid err sn size fits ntf aes =
      rw
        (
          ne→== m.type msg_get_aes aes,
          ne→== m.type msg_ntf ntf,
          copy_out-eq_some (memory m) hi.n_msg (omega arith),
          take_all hi.n_msg (memory m) (omega arith),
          ◌>>=◌,
          copy_in-eq_some (zeroed net) 0 (memory m) (omega (arith, length-zeroed, size, fits)),
        )
        refl

  send_to-plain :
      (hi : Item) (m : Msg) (addr : SockaddrIn) (iid : List ℕ) (sn : ℤ) (count : ℕ)
      (sent : List (SockaddrIn × List ℕ))
      → hi.n_msg ≡ length (memory m)
      → hi.n_msg ≤ max_msg + 1
      → m.type ≢ msg_ntf
      → m.type ≢ msg_get_aes
      → send_to net env true hi m iid (some addr) (at 0 sn count sent)
        ≡ ok (true, at 0 (net.sendto addr (memory m)) (count + 1) (sent ++ (addr, memory m) ∷ []))
  unfolding send_to emit_packed emit datagram kept
  send_to-plain hi m addr iid sn count sent size fits ntf aes =
      rw
        (
          pack-plain hi m iid 0 sn size fits ntf aes,
          ◌>>=◌,
          emit_packed,
          emit,
          datagram,
          copy_out-eq_some (overwrite (zeroed net) 0 (memory m)) hi.n_msg (
              omega (
                arith,
                size,
                fits,
                length-zeroed,
                length-overwrite (zeroed net) 0 (memory m)
                    (omega (arith, size, fits, length-zeroed)),
              )),
          take-append_of_eq hi.n_msg (memory m) (drop (0 + length (memory m)) (zeroed net)) size,
        )
        refl

  module _ (g : IsGcm net.evp) where
    send_to-sealed :
        (hi : Item) (m : Msg) (addr : SockaddrIn) (iid : List ℕ) (sn : ℤ) (count : ℕ)
        (sent : List (SockaddrIn × List ℕ))
        → hi.n_msg ≡ length (memory m)
        → hi.n_msg + 17 ≤ max_msg + 1
        → m.type ≡ msg_ntf
        → (d : List ℕ) → d ≡ wire net.evp g aes_key aes_iv (memory m)
        → send_to net env true hi m iid (some addr) (at 0 sn count sent)
          ≡ ok (true, at 0 (net.sendto addr d) (count + 1) (sent ++ (addr, d) ∷ []))
    unfolding send_to pack pack_ntf pack_coded emit_packed emit datagram kept
    send_to-sealed hi m addr iid sn count sent size fits ntf d e =
        let n = hi.n_msg in
        let whole : take n (memory m) ≡ memory m = take_all n (memory m) (omega (arith, size)) in
        let block = sealed net.evp g (zeroed net) aes_key aes_iv (take n (memory m)) in
        let inside =
          length-sealed net.evp g aes_key aes_iv refl refl (memory m) (zeroed net) n
            (omega (arith, size)) (omega (arith, fits, length-zeroed)) in
        let out : take (n + 16 + 1) block ≡ d =
          ap (λ (k : ℕ). take k block) (omega arith)
          ∙ sealed-wire net.evp g aes_key aes_iv refl refl (memory m) (zeroed net) n
              (omega (arith, size)) (omega (arith, fits, length-zeroed))
          ∙ ap (λ (l : List ℕ). wire net.evp g aes_key aes_iv l) whole
          ∙ sym e in
        rw
          (
            ne→== m.type msg_get_aes (λ f. omega (arith, f, ntf)),
            eq→== m.type msg_ntf ntf,
            enc-sealed net.evp g aes_key aes_iv refl refl (memory m) (zeroed net) n 0 (max_msg + 1)
                (omega (arith, size)) fits (omega (arith, length-zeroed)),
            ◌>>=◌,
            copy_out-eq_some block (n + 16 + 1) (omega (arith, inside)),
            out,
          )
          refl

    pub send_to-Routed :
        (hi : Item) (d : SockaddrIn × List ℕ) (r : Routed net g table hi d) (iid : List ℕ) (sn : ℤ)
        (count : ℕ) (sent : List (SockaddrIn × List ℕ))
        → send_to net env true hi r.msg iid (some d.0) (at 0 sn count sent)
          ≡ ok (true, at 0 (net.sendto d.0 d.1) (count + 1) (sent ++ d ∷ []))
    send_to-Routed hi d r iid sn count sent = elim r.form [
      | inl (ntf, aes, fits, bytes) ↦
          rw bytes (send_to-plain hi r.msg d.0 iid sn count sent r.size fits ntf aes)
      | inr (ntf, fits, bytes) ↦
          send_to-sealed hi r.msg d.0 iid sn count sent r.size fits ntf d.1 bytes
    ]
