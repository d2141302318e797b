-- ===== src/SharedData/Exit.antt =====
-- common/shared_data.c: the exit flag of the group, the reader's process id, and the loop of the
-- reading thread. `ntt_data_shm` is the pointer to the region, `none` before it is opened; a call
-- that takes a lock of a null region is a fault.
use memory_leak.Prelude.{
  ℕ, ◌+◌, ◌-◌, ◌^◌, Bool, true, Option, none, some, List, ltb, ◌==◌, if◌then◌else◌,
}
use memory_leak.Prelude.Int.{ℤ, pos, negsuc}
use memory_leak.Prelude.Run.{Run, ok, fault, ◌>>=◌}
use memory_leak.SharedData.{SharedData, ntt_read_shm}

-- The globals of one process: the mapped region, `count_should_exit` and the static `pidd`.
pub record Process : Type 0 where
  pub ntt_data_shm : Option SharedData
  pub count_should_exit : ℕ
  pub pidd : ℕ

abbrev pub int_max : ℕ
int_max = 2 ^ 31 - 1

-- `count_should_exit++` on an int.
unfoldable pub increment : ℕ → Run ℕ
increment c = if ltb c int_max then ok (c + 1) else fault

unfoldable pub counted : (increase count : ℕ) → Run ℕ
counted increase count =
    if increase == 0 then (if count == 0 then increment count else ok count) else increment count

-- The results of the exit lock are not looked at.
unfoldable pub check_exiit : (increase : ℕ) → Process → Run (ℕ × Process)
check_exiit increase s = elim s.ntt_data_shm [
  | none ↦ fault
  | some p ↦
      if p.should_exit == 0
      then ok (0, s)
      else (do c ← counted increase s.count_should_exit; ok (c, record s { count_should_exit = c }))
]

unfoldable pub set_exit_group : (val : ℕ) → Process → Run Process
set_exit_group val s = elim s.ntt_data_shm [
  | none ↦ fault
  | some p ↦ ok (record s { ntt_data_shm = some (record p { should_exit = val }) })
]

-- `lock` is what taking the frame lock returns, 0 for success.
unfoldable pub get_read_pid : (lock : ℕ) → Process → ℕ
get_read_pid lock s = elim s.ntt_data_shm [
  | none ↦ 0
  | some p ↦ if lock == 0 then p.read_pid else 0
]

-- `ntt_lock` and `ntt_unlock` return the result of the frame lock.
unfoldable pub ntt_lock : (lock : ℕ) → Process → Run ℕ
ntt_lock lock s = elim s.ntt_data_shm [ none ↦ fault | some p ↦ ok lock ]

unfoldable pub ntt_unlock : (unlock : ℕ) → Process → Run ℕ
ntt_unlock unlock s = elim s.ntt_data_shm [ none ↦ fault | some p ↦ ok unlock ]

-- The result is -1 for a null region.
unfoldable pub set_read_pid : (lock unlock pid : ℕ) → Process → Run (ℤ × Process)
set_read_pid lock unlock pid s = elim s.ntt_data_shm [
  | none ↦ ok (negsuc 0, s)
  | some p ↦ do
    errx ← ntt_lock lock s
    if errx == 0
        then (do
          let s' = record s { ntt_data_shm = some (record p { read_pid = pid }) }
          errx ← ntt_unlock unlock s'
          ok (pos errx, s'))
        else ok (pos errx, s)
]

-- One round of `read_body_thread`: it ends the loop, or it has read (and freed) some bytes, or it
-- sleeps for a second because there were none.
pub data Round : Type 0 where
  finished : Process → Round
  had_data : ℤ → Option (List ℕ) → Process → Round
  slept : Process → Round

-- What `dta` points to: it starts as a null pointer.
abbrev pub dta : Option (Option (List ℕ)) → Option (List ℕ)
dta none = none
dta (some b) = b

-- `if (!n) sleep(1); else free(dta);`
unfoldable pub handle : Process → Option (List ℕ) → ℤ → Round
handle s b (negsuc n) = had_data (negsuc n) b s
handle s b (pos n) = if n == 0 then slept s else had_data (pos n) b s

unfoldable pub read_round : (ℕ → Bool) → (lock self : ℕ) → Process → Run Round
read_round grants lock self s = do
  (n, s') ← check_exiit 1 s
  if n == 0
      then (do
        r ← ntt_read_shm grants lock self s'.pidd s'.ntt_data_shm true
        ok (handle (record s' { ntt_data_shm = r.region; pidd = r.pidd }) (dta r.stored) r.rs))
      else ok (finished s')
