-- ===== src/SharedData.antt =====
-- common/shared_data.c and shared_data.h: the shared memory region that writer processes fill and
-- one reader process empties.
-- A call's lock and unlock are the `frame` lock of the chosen build (mutex, rwlock, semaphore or
-- spin lock); `lock` is the error number that taking it returns, 0 for success. What the calls do
-- between lock and unlock is one step.
pub mod Bytes
pub mod Channel
pub mod Exit
pub mod Open
pub mod Handover
pub mod Refine
pub mod Rounds
mod Tests
use memory_leak.Prelude.{
  ℕ, zero, suc, ◌+◌, ◌%◌, ◌^◌, ◌≤◌, Bool, true, false, Option, none, some, List, [], ◌∷◌, ◌++◌, ltb,
  leb, ◌==◌, if◌then◌else◌, set,
}
use memory_leak.Prelude.Int.{ℤ, pos, negsuc, to_int}
use memory_leak.Prelude.Memory.{copy_in, copy_out}
use memory_leak.Prelude.Run.{Run, ok, fault, ◌>>=◌, or_fault}

-- The sizes of the lock types are the platform's: sizeof(LIST_SHARED_DATA), and the offset of
-- `data` in it, which stands before the padding at the end.
pub record Layout : Type 0 where
  pub size_of : ℕ
  pub data_at : ℕ
  pub data_at_le : data_at ≤ size_of

-- LIST_SHARED_DATA without its locks. `bytes` runs from `data` to the end of the region.
pub record SharedData : Type 0 where
  pub total : ℕ
  pub used_data : ℕ
  pub read_pid : ℕ
  pub should_exit : ℕ
  pub sleeping : ℕ
  pub bytes : List ℕ

abbrev pub ull : ℕ
ull = 2 ^ 64

-- What `ntt_write_shm` leaves: `rs`, the region, `*sendsig` and `*pcid`.
pub record Written : Type 0 where
  pub rs : ℤ
  pub region : Option SharedData
  pub sendsig : Option ℕ
  pub pcid : Option ℕ

-- `*sendsig = send_signal; *pcid = p->read_pid;` if all three are set.
unfoldable pub signal : SharedData → Option ℕ → Option ℕ → Option ℕ × Option ℕ
signal p none pcid = (none, pcid)
signal p (some s) none = (some s, none)
signal p (some s) (some c) =
    if p.sleeping == 0 then (some s, some c) else (some p.sleeping, some p.read_pid)

module _ (k : Layout) where
  -- `if ((n + p->used_data + sizeof(LIST_SHARED_DATA)) >= p->total) p->used_data = 0;`
  unfoldable pub write_at : SharedData → ℕ → ℕ
  write_at p n = if leb p.total ((n + p.used_data + k.size_of) % ull) then 0 else p.used_data

  -- The critical section: the copy at that offset, and the new `used_data`.
  unfoldable pub write_bytes : SharedData → List ℕ → ℕ → Run SharedData
  write_bytes p src n = do
    bytes ← or_fault (copy_out src n)
    region ← or_fault (copy_in p.bytes (write_at p n) bytes)
    ok (record p { used_data = (write_at p n + n) % ull; bytes = region })

  unfoldable pub write_locked : SharedData → List ℕ → ℕ → Option ℕ → Option ℕ → Run Written
  write_locked p src n sendsig pcid = do
    p' ← write_bytes p src n
    ok (record {
      rs = to_int p'.used_data;
      region = some p';
      sendsig = (signal p sendsig pcid).0;
      pcid = (signal p sendsig pcid).1;
    })

  unfoldable pub ntt_write_shm :
      (lock : ℕ) → Option SharedData → Option (List ℕ) → ℤ → (sendsig pcid : Option ℕ) → Run Written
  ntt_write_shm lock p none n sendsig pcid =
      ok (record { rs = negsuc 0; region = p; sendsig = sendsig; pcid = pcid })
  ntt_write_shm lock none (some src) n sendsig pcid =
      ok (record { rs = negsuc 1; region = none; sendsig = sendsig; pcid = pcid })
  ntt_write_shm lock (some p) (some src) (negsuc n) sendsig pcid =
      ok (record { rs = pos 0; region = some p; sendsig = sendsig; pcid = pcid })
  ntt_write_shm lock (some p) (some src) (pos zero) sendsig pcid =
      ok (record { rs = pos 0; region = some p; sendsig = sendsig; pcid = pcid })
  ntt_write_shm lock (some p) (some src) (pos (suc n)) sendsig pcid =
      if lock == 0
      then write_locked p src (suc n) sendsig pcid
      else ok (record { rs = pos 0; region = some p; sendsig = sendsig; pcid = pcid })

-- What `ntt_read_shm` leaves: `rs`, the region, the static `pidd`, and what it stores in `*data`
-- (the outer `none` if it stores nothing, the inner one for a null pointer).
pub record ReadBack : Type 0 where
  pub rs : ℤ
  pub region : Option SharedData
  pub pidd : ℕ
  pub stored : Option (Option (List ℕ))

-- `if (!pidd) { pidd = getpid(); p->read_pid = pidd; }`
unfoldable pub register : (self pidd : ℕ) → SharedData → ℕ × SharedData
register self pidd p = if pidd == 0 then (self, record p { read_pid = self }) else (pidd, p)

-- The critical section: what it copies out, and the region behind it.
unfoldable pub read_bytes : (ℕ → Bool) → SharedData → ℤ → Run (Option (List ℕ) × SharedData)
read_bytes grants p (negsuc n) = ok (none, record p { sleeping = 1 })
read_bytes grants p (pos zero) = ok (none, record p { sleeping = 1 })
read_bytes grants p (pos (suc n)) =
    if grants (suc n + 1)
    then (do
      bytes ← or_fault (copy_out p.bytes (suc n))
      ok (
        some (bytes ++ 0 ∷ []),
        record p { used_data = 0; bytes = set p.bytes 0 0; sleeping = 0 },
      ))
    else ok (none, p)

-- `rs`: the size if something was copied.
abbrev pub read_size : Option (List ℕ) → ℤ → ℤ
read_size none n = pos 0
read_size (some _) n = n

-- `grants` says which sizes `malloc` grants, `self` is the caller's process id, and `wanted` says
-- that `data` is not null.
unfoldable pub ntt_read_shm :
    (ℕ → Bool) → (lock self pidd : ℕ) → Option SharedData → (wanted : Bool) → Run ReadBack
ntt_read_shm grants lock self pidd p false =
    ok (record { rs = negsuc 0; region = p; pidd = pidd; stored = none })
ntt_read_shm grants lock self pidd none true =
    ok (record { rs = negsuc 1; region = none; pidd = pidd; stored = none })
ntt_read_shm grants lock self pidd (some p) true =
    let r = register self pidd p in
    if lock == 0
    then (do
      (out, p') ← read_bytes grants r.1 (to_int r.1.used_data)
      ok (record {
        rs = read_size out (to_int r.1.used_data);
        region = some p';
        pidd = r.0;
        stored = some out;
      }))
    else ok (record { rs = pos 0; region = some r.1; pidd = r.0; stored = some none })
