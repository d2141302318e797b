-- ===== src/Notify/Registry/Calls.antt =====
-- `reg_to_table` and `hl_track_msg` against the map of recorded addresses.
use memory_leak.Prelude.{
  ℕ, ◌≡◌, ◌≢◌, refl, ap, sym, false, Option, none, some, List, [], ◌∷◌, ◌==◌, if◌then◌else◌, length,
  arith, ne→==, eq→==, Bool-cases, Option-cases, inl, inr, ==→eq, ==→ne,
}
use native.Mathlib.Decide.{ℕ_discrete}
use memory_leak.Prelude.Same.{same, same_iff}
use memory_leak.Prelude.Run.{ok, ◌>>=◌, Returns}
use memory_leak.Notify.Hash.{hash_func}
use memory_leak.Notify.Message.{Msg, from_ntf_id}
use memory_leak.Notify.Message.Ids.{IsField, bucket_of-field}
use memory_leak.Notify.Registry.{
  Item, Bucket, Table, SockaddrIn, no_addr, find_item, set_route, put_bucket, route_if_found,
  track_group, track_bucket, hl_track_msg,
}
use memory_leak.Notify.Registry.View.{
  IsBucket, IsRegistry, route, View, view, position, find_item-position, position-nil,
  route-position, route-none, route-set_route, set_route-AllWell, length-set_route,
}

-- A map in which `id` has the address `addr`.
abbrev pub assign : View → List ℕ → SockaddrIn → View
assign v id addr j = if same id j then some addr else v j

-- Recording an address: only for an id that is there.
abbrev pub track_at : View → List ℕ → SockaddrIn → Option SockaddrIn → ℕ × View
track_at v id addr none = (0, v)
track_at v id addr (some old) = (1, assign v id addr)

unfoldable pub track : View → List ℕ → SockaddrIn → ℕ × View
track v id addr = track_at v id addr (v id)

-- Registering an id: only if it is not there.
abbrev pub register_at : View → List ℕ → Option SockaddrIn → ℕ × View
register_at v id (some old) = (0, v)
register_at v id none = (1, assign v id no_addr)

unfoldable pub register : View → List ℕ → ℕ × View
register v id = register_at v id (v id)

pub put_bucket-IsRegistry :
    (table : Table) (h : ℕ) (b : Bucket)
    → IsRegistry table
    → IsBucket h b
    → IsRegistry (put_bucket table h b)
put_bucket-IsRegistry table h b r w k = elim (Bool-cases (k == h)) [
  | inl e ↦ rw (e, ==→eq k h e) w
  | inr n ↦ rw n (r k)
]

-- One bucket changes: the ids of other buckets keep their addresses.
view-put_bucket :
    (table : Table) (h : ℕ) (b : Bucket) (j : List ℕ)
    → view (put_bucket table h b) j ≡ (if hash_func j == h then route j b.group else view table j)
unfolding view
view-put_bucket table h b j = elim (Bool-cases (hash_func j == h)) [ inl e ↦ rw e | inr n ↦ rw n ]

pub view-put_bucket_same :
    (table : Table) (h : ℕ) (j : List ℕ) → view (put_bucket table h (table h)) j ≡ view table j
unfolding view
view-put_bucket_same table h j = elim (Bool-cases (hash_func j == h)) [
  | inl e ↦ rw (e, ==→eq (hash_func j) h e)
  | inr n ↦ rw n
]

track_group-walk :
    (m : Msg) (addr : SockaddrIn) (b : Bucket) (g : List Item)
    → length g ≢ 0
    → track_group m addr b g
      ≡ (find_item b.n m.dev_id b.group >>= λ found. ok (route_if_found addr b found))
unfolding track_group
track_group-walk m addr b [] ne = absurd (ne refl)
track_group-walk m addr b (x ∷ g) ne = refl

track_bucket-position :
    (h : ℕ) (b : Bucket) (m : Msg) (id : List ℕ) (addr : SockaddrIn)
    → IsBucket h b
    → IsField m.dev_id id
    → track_bucket m addr b ≡ ok (route_if_found addr b (position id b.group))
unfolding track_bucket
track_bucket-position h b m id addr w f = elim (ℕ_discrete b.n 0) [
  | yes e ↦
      rw (eq→== b.n 0 e, position-nil id b.group (omega (arith, w.counted)))
        (unfold route_if_found in refl)
  | no ne ↦ rw (
    ne→== b.n 0 ne,
    track_group-walk m addr b b.group (omega (arith, w.counted)),
    find_item-position h b.n m.dev_id id b.group f w.well (omega (arith, w.counted)),
  )
]

-- A bucket in which an address is recorded.
route_if_found-IsBucket :
    (h : ℕ) (b : Bucket) (addr : SockaddrIn) (o : Option ℕ)
    → IsBucket h b
    → IsBucket h (route_if_found addr b o).1
unfolding route_if_found
route_if_found-IsBucket h b addr none w = w
route_if_found-IsBucket h b addr (some i) w = record {
  counted = rw (length-set_route i addr b.group) w.counted;
  well = set_route-AllWell h i addr b.group w.well;
}

-- A bucket that answers for `id` as the map `new` does, and for other ids as before, makes the
-- table answer as `new` does.
pub view-put_bucket_of :
    (table : Table) (id : List ℕ) (b : Bucket) (addr : SockaddrIn)
    → ((j : List ℕ)
        → route j b.group ≡ (if same id j then some addr else route j (table (hash_func id)).group))
    → (j : List ℕ)
    → view (put_bucket table (hash_func id) b) j ≡ (if same id j then some addr else view table j)
unfolding view
view-put_bucket_of table id b addr h j = elim (Bool-cases (hash_func j == hash_func id)) [
  | inl e ↦
      rw (e, h j)
        (ap (λ (k : ℕ). if same id j then some addr else route j (table k).group)
          (sym (==→eq (hash_func j) (hash_func id) e)))
  | inr n ↦ rw (n, other n)
]
  where
    other : (hash_func j == hash_func id) ≡ false → same id j ≡ false
    other n = elim (Bool-cases (same id j)) [
      | inr d ↦ d
      | inl s ↦
          absurd (==→ne (hash_func j) (hash_func id) n (ap hash_func (sym ((same_iff id j).0 s))))
    ]

-- The position of an id in its bucket says whether the map has it.
pub view-absent :
    (table : Table) (id : List ℕ)
    → position id (table (hash_func id)).group ≡ none
    → view table id ≡ none
unfolding view
view-absent table id e = route-position id (table (hash_func id)).group e

pub view-present :
    (table : Table) (id : List ℕ) (i : ℕ)
    → position id (table (hash_func id)).group ≡ some i
    → (old : SockaddrIn) × (view table id ≡ some old)
view-present table id i e = elim (Option-cases (view table id)) [
  | inr found ↦ found
  | inl none' ↦ cc (route-none id (table (hash_func id)).group (unfold view in none'), e)
]

module _ (table : Table) (id : List ℕ) (addr : SockaddrIn) where
  abbrev tracked : ℕ × Bucket
  tracked = route_if_found addr (table (hash_func id)) (position id (table (hash_func id)).group)

  -- What `track_bucket` does to the table, against the map.
  tracked-track :
      (tracked.0 ≡ (track (view table) id addr).0)
      × ((j : List ℕ)
          → view (put_bucket table (hash_func id) tracked.1) j ≡ (track (view table) id addr).1 j)
  unfolding track route_if_found
  tracked-track = elim (Option-cases (position id (table (hash_func id)).group)) [
    | inl e ↦
        rw (e, track, view-absent table id e)
          (refl, λ j. view-put_bucket_same table (hash_func id) j)
    | inr (i, e) ↦
        let (old, there) = view-present table id i e in
        rw (e, track, there)
          (
            refl,
            λ j.
                view-put_bucket_of table id
                  (record (table (hash_func id)) {
                    group = set_route i addr (table (hash_func id)).group;
                  })
                  addr (λ k. route-set_route id k addr (table (hash_func id)).group i e) j,
          )
  ]

-- With a registered table and a message whose id ends inside its field, `hl_track_msg` ends
-- without fault, keeps the table well-formed, and is the recording of the address in the map: it
-- returns 1 and sets the address of that id alone if the id is registered, else it returns 0 and
-- changes nothing.
pub hl_track_msg-track :
    (table : Table) (m : Msg) (id : List ℕ) (addr : SockaddrIn)
    → IsRegistry table
    → IsField m.dev_id id
    → Returns (hl_track_msg table m addr) λ r.
      IsRegistry r.1
      × (r.0 ≡ (track (view table) id addr).0)
      × ((j : List ℕ) → view r.1 j ≡ (track (view table) id addr).1 j)
unfolding hl_track_msg
hl_track_msg-track table m id addr w f =
    let h = hash_func id in
    let b = table h in
    let r = route_if_found addr b (position id b.group) in
    (
      (r.0, put_bucket table h r.1),
      rw (
        bucket_of-field m.dev_id id (from_ntf_id m) f,
        ◌>>=◌,
        track_bucket-position h b m id addr (w h) f,
      ),
      (
        put_bucket-IsRegistry table h r.1 w
            (route_if_found-IsBucket h b addr (position id b.group) (w h)),
        (tracked-track table id addr).0,
        (tracked-track table id addr).1,
      ),
    )
