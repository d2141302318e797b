-- ===== src/SharedData/Open.antt =====
-- common/shared_data.c: mapping the region, and initialising it if this process created it.
use memory_leak.Prelude.{
  ℕ, ◌-◌, ◌^◌, ◌<◌, ◌≡◌, ◌≢◌, ◌⊎◌, refl, Bool, true, false, Option, none, some, ◌==◌, if◌then◌else◌,
  replicate, length-replicate, arith,
}
use memory_leak.SharedData.{Layout, SharedData}
use memory_leak.SharedData.Bytes.{IsValid}

-- The lock type that the build chose, USING_MUTEX and so on.
pub data Backend : Type 0 where
  mutex rwlock semaphore spin_lock : Backend

-- What `mmap` answers: a failure, a null pointer, or the region as it stands in the object.
pub data Mapping : Type 0 where
  map_failed null_pointer : Mapping
  mapped : SharedData → Mapping

-- What the system answers: whether `shm_open` creates the object, whether it opens an existing
-- one, the mapping, and the error numbers (0 for success) of initialising the two locks.
pub record System : Type 0 where
  pub creates : Bool
  pub opens : Bool
  pub mapping : Mapping
  pub frame_init : ℕ
  pub exit_init : ℕ

-- `init_shm_mtx`, `init_rwlock` and `init_spin_lock` return their line; `sem_init` its error.
unfoldable pub init_lock : Backend → ℕ → ℕ
init_lock mutex res = if res == 0 then 0 else 231
init_lock rwlock res = if res == 0 then 0 else 257
init_lock semaphore res = res
init_lock spin_lock res = if res == 0 then 0 else 279

-- The frame lock first, then the exit lock.
unfoldable pub init_locks : Backend → System → ℕ
init_locks b sys =
    let err = init_lock b sys.frame_init in if err == 0 then init_lock b sys.exit_init else err

-- The region after `memset(data, 0, sz)` and `p->total = sz`.
unfoldable pub blank : Layout → ℕ → SharedData
blank k sz = record {
  total = sz;
  used_data = 0;
  read_pid = 0;
  should_exit = 0;
  sleeping = 0;
  bytes = replicate (sz - k.data_at) 0;
}

-- `err` and `*out`.
abbrev pub Opened : Type 0
Opened = ℕ × Option SharedData

-- The part behind `shm_open`.
unfoldable pub map_region : Layout → Backend → System → ℕ → Option SharedData → Mapping → Opened
map_region k b sys sz out map_failed = (123, out)
map_region k b sys sz out null_pointer = (129, out)
map_region k b sys sz out (mapped p) =
    if sys.creates then (init_locks b sys, some (blank k sz)) else (0, some p)

unfoldable pub init_service : Layout → Backend → System → ℕ → Option SharedData → Opened
init_service k b sys sz out =
    if sys.creates
    then map_region k b sys sz out sys.mapping
    else if sys.opens
    then map_region k b sys sz out sys.mapping
    else (112, out)

-- The pointer that is returned, and `ntt_data_shm` behind the call.
unfoldable pub ntt_open_shm :
    Layout → Backend → System → ℕ → Option SharedData → Option SharedData × Option SharedData
ntt_open_shm k b sys n shm =
    let r = init_service k b sys n shm in (if r.0 == 0 then r.1 else none, r.1)

-- The locks that a creating process initialises both come up.
abbrev pub LocksUp : System → Type 0
LocksUp sys = (sys.frame_init ≡ 0) × (sys.exit_init ≡ 0)

init_locks-up : (b : Backend) (sys : System) → LocksUp sys → init_locks b sys ≡ 0
unfolding init_locks init_lock
init_locks-up mutex sys up = rw (up.0, up.1)
init_locks-up rwlock sys up = rw (up.0, up.1)
init_locks-up semaphore sys up = rw (up.0, up.1)
init_locks-up spin_lock sys up = rw (up.0, up.1)

init_locks-down :
    (b : Backend) (sys : System) → (sys.frame_init ≢ 0) ⊎ (sys.exit_init ≢ 0) → init_locks b sys ≢ 0
unfolding init_locks init_lock
init_locks-down mutex sys down = ground arith
init_locks-down rwlock sys down = ground arith
init_locks-down semaphore sys down = ground arith
init_locks-down spin_lock sys down = ground arith

-- A region just created.
pub blank-IsValid : (k : Layout) (n : ℕ) → k.size_of < n → n < 2 ^ 31 → IsValid k (blank k n)
unfolding blank
blank-IsValid k n h w = record {
  room = omega arith;
  sized = omega (arith, length-replicate {A = ℕ} (n - k.data_at) 0, k.data_at_le);
  small = w;
}

pub ntt_open_shm-blank :
    (k : Layout) (b : Backend) (sys : System) (n : ℕ) (shm : Option SharedData) (p : SharedData)
    → sys.creates ≡ true
    → sys.mapping ≡ mapped p
    → LocksUp sys
    → ntt_open_shm k b sys n shm ≡ (some (blank k n), some (blank k n))
unfolding ntt_open_shm init_service map_region
ntt_open_shm-blank k b sys n shm p c m up = ground (arith, init_locks-up b sys up)

pub ntt_open_shm-existing :
    (k : Layout) (b : Backend) (sys : System) (n : ℕ) (shm : Option SharedData) (p : SharedData)
    → sys.creates ≡ false
    → sys.opens ≡ true
    → sys.mapping ≡ mapped p
    → ntt_open_shm k b sys n shm ≡ (some p, some p)
unfolding ntt_open_shm init_service map_region
ntt_open_shm-existing k b sys n shm p c o m = rw (c, o, m) refl

-- Every way in which the call returns a null pointer: neither `shm_open` succeeds, the mapping
-- fails or is null, or a creating process cannot initialise a lock. In the last case
-- `ntt_data_shm` points to the blank region all the same; otherwise it keeps its old value.
pub ntt_open_shm-null :
    (k : Layout) (b : Backend) (sys : System) (n : ℕ) (shm : Option SharedData)
    → ((sys.creates ≡ false) × (sys.opens ≡ false) → ntt_open_shm k b sys n shm ≡ (none, shm))
      × ((sys.mapping ≡ map_failed) ⊎ (sys.mapping ≡ null_pointer)
          → ntt_open_shm k b sys n shm ≡ (none, shm))
      × ((p : SharedData)
          → sys.creates ≡ true
          → sys.mapping ≡ mapped p
          → (sys.frame_init ≢ 0) ⊎ (sys.exit_init ≢ 0)
          → ntt_open_shm k b sys n shm ≡ (none, some (blank k n)))
unfolding ntt_open_shm init_service map_region
ntt_open_shm-null k b sys n shm = (
  λ off. rw (off.0, off.1),
  λ bad. ground arith,
  λ p c m down. ground (arith, init_locks-down b sys down),
)

-- `ntt_unlink_shm` with what `munmap` and `shm_unlink` answer: its result, and whether the object
-- is unlinked. The test `!path` is on the constant NTT_PATH, which is not null.
abbrev pub path_is_null : Bool
path_is_null = false

unfoldable pub ntt_unlink_shm : (unmap unlink : ℕ) → Option SharedData → ℕ × Bool
ntt_unlink_shm unmap unlink none = if path_is_null then (unlink, true) else (0, false)
ntt_unlink_shm unmap unlink (some p) = if path_is_null then (unlink, true) else (unmap, false)
