-- ===== src/Notify/Registry/Register.antt =====
-- `reg_to_table` against the map of recorded addresses.
use memory_leak.Prelude.{
  ℕ, ◌+◌, ◌≡◌, ◌≢◌, refl, Option, none, some, List, [], ◌∷◌, if◌then◌else◌, length, arith, ne→==,
  eq→==,
}
use native.Mathlib.Decide.{ℕ_discrete}
use memory_leak.Prelude.Same.{same}
use memory_leak.Prelude.Run.{◌>>=◌, Returns}
use memory_leak.Notify.Hash.{hash_func}
use memory_leak.Notify.Message.{Msg, Timespec, from_ntf_id, msg_size}
use memory_leak.Notify.Message.Ids.{IsField, bucket_of-field}
use memory_leak.Notify.Registry.{
  Item, Bucket, Table, no_addr, Env, put_bucket, add_unless_found, reg_used, reg_empty, reg_bucket,
  reg_to_table, Registered,
}
use memory_leak.Notify.Registry.View.{
  AllWell, IsBucket, IsRegistry, route, view, position, find_item-position, position-nil,
}
use memory_leak.Notify.Registry.Calls.{
  register, view-present, view-absent, put_bucket-IsRegistry, view-put_bucket_same,
  view-put_bucket_of,
}
use memory_leak.Notify.Registry.Fresh.{
  put_time_to_msg-Alike, Grants, Fresh, new_item-Fresh, reg_group-used,
}

-- The fresh item at the front of its bucket.
front-IsBucket :
    (id : List ℕ) (b : Bucket) (n : ℕ) (it : Item)
    → Fresh id it
    → n ≡ length b.group
    → AllWell (hash_func id) b.group
    → IsBucket (hash_func id) (record { n = n + 1; group = it ∷ b.group })
front-IsBucket id b n it f e w = record { counted = omega arith; well = (f.well, w) }

route-front :
    (id j : List ℕ) (it : Item) (its : List Item)
    → Fresh id it
    → route j (it ∷ its) ≡ (if same id j then some no_addr else route j its)
unfolding route
route-front id j it its f = rw (f.names, f.silent) refl

module _ (table : Table) (id : List ℕ) where
  -- What `register` promises of the result and the bucket.
  abbrev Registers : Registered → Type 0
  Registers r =
      IsBucket (hash_func id) r.2
      × (r.0 ≡ (register (view table) id).0)
      × ((j : List ℕ)
          → view (put_bucket table (hash_func id) r.2) j ≡ (register (view table) id).1 j)

  module _ (w : IsBucket (hash_func id) (table (hash_func id))) where
    -- A bucket with the id is left as it is.
    found-Registers :
        (m : Msg) (i : ℕ)
        → position id (table (hash_func id)).group ≡ some i
        → Registers (0, m, table (hash_func id))
    unfolding register
    found-Registers m i e =
        let (old, there) = view-present table id i e in
        rw (register, there) (w, refl, λ j. view-put_bucket_same table (hash_func id) j)

    -- A bucket without the id gets it in front.
    added-Registers :
        (m : Msg) (n : ℕ) (it : Item)
        → Fresh id it
        → n ≡ length (table (hash_func id)).group
        → position id (table (hash_func id)).group ≡ none
        → Registers (1, m, record { n = n + 1; group = it ∷ (table (hash_func id)).group })
    unfolding register
    added-Registers m n it f counted e =
        let b : Bucket = record { n = n + 1; group = it ∷ (table (hash_func id)).group } in
        rw (register, view-absent table id e)
          (
            front-IsBucket id (table (hash_func id)) n it f counted w.well,
            refl,
            λ j.
                view-put_bucket_of table id b no_addr
                  (λ k. route-front id k it (table (hash_func id)).group f) j,
          )

module _ (env : Env) (table : Table) (id : List ℕ) (g : Grants env) (w : IsRegistry table) where
  abbrev home : Bucket
  home = table (hash_func id)

  add-Registers :
      (m : Msg) (o : Option ℕ)
      → position id home.group ≡ o
      → view table id ≢ none
      → Returns (add_unless_found env m home o) (Registers table id)
  unfolding add_unless_found
  add-Registers m (some i) e known =
      ((0, m, home), refl, found-Registers table id (w (hash_func id)) m i e)
  add-Registers m none e known = absurd (known (view-absent table id e))

  reg_used-Registers :
      (m : Msg) (t : Option Timespec)
      → view table id ≢ none
      → IsField m.dev_id id
      → Returns (reg_used env m t home) (Registers table id)
  unfolding reg_used
  reg_used-Registers m t known f =
      let (m', e, a) = put_time_to_msg-Alike m t in
      let f' : IsField m'.dev_id id = rw a.id f in
      rw
        (
          e,
          ◌>>=◌,
          find_item-position (hash_func id) home.n m'.dev_id id home.group f'
              (w (hash_func id)).well (omega (arith, (w (hash_func id)).counted)),
          ◌>>=◌,
        )
        (add-Registers m' (position id home.group) refl known)

  reg_empty-Registers :
      (m : Msg)
      → home.n ≡ 0
      → IsField m.dev_id id
      → length m.len ≡ 2
      → Returns (reg_empty env m home) (Registers table id)
  unfolding reg_empty
  reg_empty-Registers m z f l =
      let (it, run, fresh) = new_item-Fresh env (msg_size m) m id g (omega arith) f l in
      let after : Bucket = record { n = 1; group = it ∷ [] } in
      (
        (1, m, after),
        rw run refl,
        rw (← empty home.group (omega (arith, (w (hash_func id)).counted))) (
            added-Registers table id (w (hash_func id)) m 0 it fresh
              (omega (arith, (w (hash_func id)).counted))
              (position-nil id home.group (omega (arith, (w (hash_func id)).counted)))),
      )
    where
      empty : (its : List Item) → length its ≡ 0 → its ≡ []
      empty [] e = refl
      empty (x ∷ its) e = absurd (omega arith)

  reg_bucket-Registers :
      (m : Msg) (t : Option Timespec)
      → (home.n ≢ 0 → view table id ≢ none)
      → IsField m.dev_id id
      → length m.len ≡ 2
      → Returns (reg_bucket env m t home) (Registers table id)
  unfolding reg_bucket
  reg_bucket-Registers m t known f l = elim (ℕ_discrete home.n 0) [
    | yes e ↦ rw (eq→== home.n 0 e) (reg_empty-Registers m e f l)
    | no ne ↦
        rw
          (
            ne→== home.n 0 ne,
            reg_group-used env m t home home.group (omega (arith, (w (hash_func id)).counted)),
          )
          (reg_used-Registers m t (known ne) f)
  ]

  -- With a well-formed registry, memory granted and blocks that realloc leaves in place, a message
  -- whose id ends inside its field and whose length has two bytes, and an id that is registered or
  -- whose bucket is empty, `reg_to_table` ends without fault, keeps the registry well-formed, and
  -- is the registration of the id in the map: it returns 1 and adds the id without an address if
  -- the id is new, returns 0 and changes no address if it is registered, and changes no other
  -- id's address.
  pub reg_to_table-register :
      (m : Msg) (t : Option Timespec)
      → ((table (hash_func id)).n ≢ 0 → view table id ≢ none)
      → IsField m.dev_id id
      → length m.len ≡ 2
      → Returns (reg_to_table env table m t) λ r.
        IsRegistry r.2
        × (r.0 ≡ (register (view table) id).0)
        × ((j : List ℕ) → view r.2 j ≡ (register (view table) id).1 j)
  unfolding reg_to_table
  reg_to_table-register m t known f l =
      let (r, e, (kept, res, map)) = reg_bucket-Registers m t known f l in
      (
        (r.0, r.1, put_bucket table (hash_func id) r.2),
        rw (bucket_of-field m.dev_id id (from_ntf_id m) f, ◌>>=◌, e),
        (put_bucket-IsRegistry table (hash_func id) r.2 w kept, res, map),
      )
