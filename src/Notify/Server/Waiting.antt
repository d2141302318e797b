-- ===== src/Notify/Server/Waiting.antt =====
-- notify.system/server.c: the flag `g_waiting` behind its mutex. The results of taking and
-- releasing the mutex are arguments.
use memory_leak.Prelude.{ℕ, Bool, true, false, ◌==◌, if◌then◌else◌}
use memory_leak.Prelude.Run.{Run, ok, fault}

-- The last result that is not 0.
abbrev pub last_error : (lock unlock : ℕ) → ℕ
last_error lock unlock = if unlock == 0 then lock else unlock

-- The result, and the flag.
unfoldable pub set_waiting : (lock unlock w : ℕ) → ℕ × ℕ
set_waiting lock unlock w = (last_error lock unlock, if w == 0 then 0 else 1)

-- The result, and `*ret`; a null `ret` is stored through all the same.
unfoldable pub get_waiting : (lock unlock g_waiting : ℕ) → (ret_given : Bool) → Run (ℕ × ℕ)
get_waiting lock unlock g_waiting false = fault
get_waiting lock unlock g_waiting true = ok (last_error lock unlock, g_waiting)
