-- ===== src/Notify/Registry/Faults.antt =====
-- Two ways in which the registry's calls leave the memory they own.
use memory_leak.Prelude.{ℕ, ◌≡◌, ◌≢◌, refl, true, Option, none, List, arith, ne→==, lt→leb}
use memory_leak.Prelude.Run.{fault, ◌>>=◌}
use memory_leak.Notify.Hash.{hash_func}
use memory_leak.Notify.Message.{Msg, Timespec, from_ntf_id, msg_size}
use memory_leak.Notify.Message.Ids.{IsField, bucket_of-field}
use memory_leak.Notify.Registry.{
  Table, Env, item_size, my_malloc, fits_block, new_item, add_unless_found, reg_used, reg_bucket,
  reg_to_table,
}
use memory_leak.Notify.Registry.View.{IsRegistry, view, find_item-position, route-none}
use memory_leak.Notify.Registry.Fresh.{put_time_to_msg-Alike, reg_group-used}

-- With memory granted and a well-formed registry, a message whose id ends inside its field and is
-- new, and whose bucket holds another device, is copied past the end of its block: the block has
-- the 96 bytes of a HASH_ITEM, and every message has at least 100.
pub reg_to_table-overrun :
    (env : Env) (table : Table) (id : List ℕ) (m : Msg) (t : Option Timespec)
    → ((n : ℕ) → env.grants n ≡ true)
    → IsRegistry table
    → IsField m.dev_id id
    → (table (hash_func id)).n ≢ 0
    → view table id ≡ none
    → reg_to_table env table m t ≡ fault
unfolding reg_to_table reg_bucket reg_used add_unless_found new_item my_malloc fits_block
reg_to_table-overrun env table id m t grants w f used new =
    let b = table (hash_func id) in
    let (m', e, a) = put_time_to_msg-Alike m t in
    let f' : IsField m'.dev_id id = rw a.id f in
    rw
      (
        bucket_of-field m.dev_id id (from_ntf_id m) f,
        ◌>>=◌,
        ne→== b.n 0 used,
        reg_group-used env m t b b.group (omega (arith, (w (hash_func id)).counted)),
        reg_used,
        e,
        find_item-position (hash_func id) b.n m'.dev_id id b.group f' (w (hash_func id)).well
            (omega (arith, (w (hash_func id)).counted)),
        route-none id b.group (unfold view in new),
        add_unless_found,
        new_item,
        my_malloc,
        grants item_size,
        fits_block,
        lt→leb (msg_size m') item_size (omega arith),
      )
      refl
