-- ===== src/Notify/Registry/Tests.antt =====
-- The registry's calls on the sample registries.
use memory_leak.Prelude.{ℕ, ◌≡◌, ◌≢◌, refl, false, none, List, ◌++◌, arith}
use memory_leak.Prelude.Same.{same}
use memory_leak.Prelude.Run.{fault, Returns}
use memory_leak.Notify.Hash.{hash_func}
use memory_leak.Notify.Registry.{key_suffix, reg_to_table, hl_track_msg}
use memory_leak.Notify.Registry.View.{IsRegistry, view, route, cstr}
use memory_leak.Notify.Registry.Calls.{track, register, hl_track_msg-track}
use memory_leak.Notify.Registry.Register.{reg_to_table-register}
use memory_leak.Notify.Registry.Faults.{reg_to_table-overrun}
use memory_leak.Notify.Registry.Sample.{
  first_id, second_id, first, second, first-IsField, second-IsField, one_device,
  one_device-IsRegistry, env, env-Grants, addr,
}

hl_track_msg-track_example : Returns (hl_track_msg one_device first addr) λ r.
    IsRegistry r.1
    × (r.0 ≡ (track (view one_device) first_id addr).0)
    × ((j : List ℕ) → view r.1 j ≡ (track (view one_device) first_id addr).1 j)
hl_track_msg-track_example =
    hl_track_msg-track one_device first first_id addr one_device-IsRegistry first-IsField

first_id-known : view one_device first_id ≢ none
unfolding view hash_func route cstr same
first_id-known e = cc

reg_to_table-register_example : Returns (reg_to_table (env false) one_device first none) λ r.
    IsRegistry r.2
    × (r.0 ≡ (register (view one_device) first_id).0)
    × ((j : List ℕ) → view r.2 j ≡ (register (view one_device) first_id).1 j)
reg_to_table-register_example =
    reg_to_table-register (env false) one_device first_id env-Grants one_device-IsRegistry first
      none (λ ne. first_id-known) first-IsField refl

second_id-new : view one_device second_id ≡ none
unfolding view hash_func route cstr same
second_id-new = refl

occupied : (one_device (hash_func second_id)).n ≢ 0
unfolding hash_func
occupied e = omega arith

reg_to_table-overrun_example : reg_to_table (env false) one_device second none ≡ fault
reg_to_table-overrun_example =
    reg_to_table-overrun (env false) one_device second_id second none (λ n. refl)
      one_device-IsRegistry second-IsField occupied second_id-new

abbrev second_path : List ℕ
second_path = second_id ++ key_suffix
