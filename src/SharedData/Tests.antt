-- ===== src/SharedData/Tests.antt =====
-- A session over a small region, and the theorems at concrete inputs.
use memory_leak.Prelude.{
  ℕ, ◌≡◌, refl, true, false, some, none, List, [], ◌∷◌, ◌++◌, arith, length, if◌then◌else◌, ◌==◌,
  replicate,
}
use memory_leak.Prelude.Int.{pos}
use memory_leak.Prelude.Run.{ok, fault, ◌>>=◌, Returns}
use memory_leak.SharedData.{Layout, SharedData, ntt_write_shm}
use memory_leak.SharedData.Bytes.{contents, IsValid}
use memory_leak.SharedData.Channel.{
  Op, write, read, wrote, was_read, replies, channel, run, receive, arrive, send,
}
use memory_leak.SharedData.Refine.{ntt_write_shm-overrun, run-replies}
use memory_leak.SharedData.Exit.{Process, set_exit_group, read_round, slept, had_data}
use memory_leak.SharedData.Rounds.{
  checks, tally, total_count, checks-set_exit_group, read_round-receive,
}
use memory_leak.SharedData.Open.{System, mutex, mapped}
use memory_leak.SharedData.Handover.{handover, handover-data}

abbrev layout : Layout
layout = record { size_of = 8; data_at = 6; data_at_le = omega arith }

-- 16 bytes, of which 10 are behind the header; three are in use.
abbrev region : SharedData
region = record {
  total = 16;
  used_data = 3;
  read_pid = 42;
  should_exit = 0;
  sleeping = 1;
  bytes = 1 ∷ 2 ∷ 3 ∷ 0 ∷ 0 ∷ 0 ∷ 0 ∷ 0 ∷ 0 ∷ 0 ∷ [];
}

region-IsValid : IsValid layout region
region-IsValid = record { room = omega arith; sized = refl; small = omega arith }

-- The second write finds no room, and the bytes 1, 2, 3, 4 and 5 are lost.
abbrev script : List Op
script = write (4 ∷ 5 ∷ []) ∷ write (6 ∷ 7 ∷ 8 ∷ []) ∷ read ∷ read ∷ []

run-replies_example :
    run layout 42 (λ _. true) region 42 script
    ≡ ok (replies layout 16 42 (channel region 42) script)
run-replies_example =
    run-replies layout 42 (λ _. true) region 42 script (λ _. refl) region-IsValid (omega arith)

script-replies :
    replies layout 16 42 (channel region 42) script
    ≡ wrote (pos 5) (some 1) (some 42)
      ∷ wrote (pos 3) (some 1) (some 42)
      ∷ was_read (pos 3) (some (some (6 ∷ 7 ∷ 8 ∷ 0 ∷ [])))
      ∷ was_read (pos 0) (some none)
      ∷ []
unfolding replies send receive arrive
script-replies = refl

abbrev large : List ℕ
large = 1 ∷ 2 ∷ 3 ∷ 4 ∷ 5 ∷ 6 ∷ 7 ∷ 8 ∷ 9 ∷ 10 ∷ 11 ∷ []

ntt_write_shm-overrun_example :
    ntt_write_shm layout 0 (some region) (some large) (pos (length large)) none none ≡ fault
ntt_write_shm-overrun_example =
    ntt_write_shm-overrun layout region large none none region-IsValid (omega arith) (omega arith)

abbrev process : Process
process = record { ntt_data_shm = some region; count_should_exit = 0; pidd = 0 }

abbrev asked : List ℕ
asked = 1 ∷ 0 ∷ 5 ∷ []

checks-set_exit_group_example : (set_exit_group 7 process >>= checks (0 ∷ asked)) ≡ (
    let s' = record process { ntt_data_shm = some (record region { should_exit = 7 }) } in
    if 7 == 0
    then ok (0 ∷ replicate (length asked) 0, s')
    else ok (1 ∷ tally 1 asked, record s' { count_should_exit = total_count 1 asked }))
checks-set_exit_group_example =
    checks-set_exit_group 7 0 asked process region refl refl (omega arith)

tally_run : tally 1 asked ≡ 2 ∷ 2 ∷ 3 ∷ []
unfolding tally
tally_run = refl

read_round-receive_example : Returns (read_round (λ _. true) 0 42 process) λ round.
    (p' : SharedData) × (pidd : ℕ) × IsValid layout p'
    × (channel p' pidd ≡ (receive (arrive 42 (channel region process.pidd))).0)
    × (round ≡ (
        let s' = record process { ntt_data_shm = some p'; pidd = pidd } in
        if length (contents region) == 0
        then slept s'
        else had_data (pos (length (contents region))) (some (contents region ++ 0 ∷ [])) s'))
read_round-receive_example =
    read_round-receive layout (λ _. true) 42 process region (λ _. refl) region-IsValid refl refl

abbrev system : System
system = record {
  creates = true;
  opens = false;
  mapping = mapped region;
  frame_init = 0;
  exit_init = 0;
}

abbrev greeting : List ℕ
greeting = 7 ∷ 8 ∷ []

handover-data_example : Returns (handover layout mutex system 16 9 (λ _. true) greeting) λ r.
    (r.rs ≡ pos (length greeting))
    × (r.stored ≡ some (if length greeting == 0 then none else some (greeting ++ 0 ∷ [])))
    × (q : SharedData) × (r.region ≡ some q)
    × IsValid layout q
    × (q.total ≡ 16)
    × (contents q ≡ [])
handover-data_example =
    handover-data layout mutex system 16 9 (λ _. true) region greeting (λ _. refl) refl refl
      (refl, refl) (omega arith) (omega arith)
