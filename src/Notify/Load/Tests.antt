-- ===== src/Notify/Load/Tests.antt =====
-- A list of two lines; the last one is an id of 36 characters.
use memory_leak.Prelude.{
  ℕ, zero, suc, ◌≡◌, refl, false, none, some, List, [], ◌∷◌, ◌++◌, replicate, arith,
}
use memory_leak.Prelude.Memory.{copy_out}
use memory_leak.Prelude.Run.{fault, ◌>>=◌}
use memory_leak.Notify.Message.{Timespec, len_devid, strlen}
use memory_leak.Notify.Registry.{my_malloc}
use memory_leak.Notify.Registry.Sample.{env, no_devices}
use memory_leak.Notify.Load.{terminate, tokens, load_token, load_tokens, load_reg_list}
use memory_leak.Notify.Load.Overread.{IsLine, last_token, listing, load_reg_list-overread}

abbrev id : List ℕ
id = replicate 36 97

abbrev now : ℕ → Timespec
now k = record { tv_sec = k; tv_nsec = 0 }

letters-IsLine : (n : ℕ) → IsLine (replicate n 97)
letters-IsLine zero = tt
letters-IsLine (suc n) =
    (λ e. omega arith, (λ e. omega arith, (λ e. omega arith, letters-IsLine n)))

load_reg_list-overread_example :
    (ts : List (List ℕ)) × (tokens false (listing (some (50 ∷ 51 ∷ [])) id ++ 0 ∷ [])
      ≡ ts ++ last_token id ∷ [])
    × (copy_out (last_token id) len_devid ≡ none)
    × (load_reg_list (env false) now (some (listing (some (50 ∷ 51 ∷ [])) id)) no_devices
        ≡ (load_tokens (env false) now 0 ts (0, no_devices) >>= λ _. fault))
load_reg_list-overread_example =
    load_reg_list-overread (env false) now no_devices (some (50 ∷ 51 ∷ [])) id (λ n. refl)
      ((λ e. omega arith), ((λ e. omega arith), tt)) (letters-IsLine 36) (omega arith) (omega arith)

-- A file of that line alone.
load_reg_list_one_line : load_reg_list (env false) now (some (listing none id)) no_devices ≡ fault
unfolding load_reg_list load_tokens load_token tokens terminate strlen my_malloc copy_out
load_reg_list_one_line = refl
