-- ===== src/SharedData/Rounds.antt =====
-- The exit flag, the reader's process id, and a round of the reading thread.
use memory_leak.Prelude.{
  ℕ, ◌+◌, ◌≤◌, ◌<◌, replicate, ◌≡◌, ◌≢◌, refl, ap, Bool, true, Option, none, some, List, [], ◌∷◌,
  ◌++◌, ◌==◌, if◌then◌else◌, arith, ne→==, eq→==, lt→ltb, length, ◌∙◌,
}
use memory_leak.Prelude.Int.{ℤ, pos}
use memory_leak.Prelude.Run.{Run, ok, ◌>>=◌, Returns}
use native.Mathlib.Decide.{ℕ_discrete}
use memory_leak.SharedData.{Layout, SharedData}
use memory_leak.SharedData.Bytes.{contents, IsValid}
use memory_leak.SharedData.Channel.{Channel, channel, receive, arrive, was_read, wrote, Reply}
use memory_leak.SharedData.Refine.{ntt_read_shm-Received}
use memory_leak.SharedData.Exit.{
  Process, int_max, increment, counted, check_exiit, set_exit_group, finished, had_data, slept, dta,
  handle, read_round,
}

-- Calls of `check_exiit`, with the argument of each: their results.
unfoldable pub checks : List ℕ → Process → Run (List ℕ × Process)
checks [] s = ok ([], s)
checks (increase ∷ more) s = do
  (c, s') ← check_exiit increase s
  (cs, s'') ← checks more s'
  ok (c ∷ cs, s'')

abbrev pub counts_as : ℕ → ℕ
counts_as increase = if increase == 0 then 0 else 1

-- The counts behind each of some checks of a raised flag, and behind all of them, if the count was
-- `c` before.
unfoldable pub tally : (c : ℕ) → List ℕ → List ℕ
tally c [] = []
tally c (increase ∷ more) = (c + counts_as increase) ∷ tally (c + counts_as increase) more

unfoldable pub total_count : (c : ℕ) → List ℕ → ℕ
total_count c [] = c
total_count c (increase ∷ more) = total_count (c + counts_as increase) more

counted-later :
    (increase c : ℕ) → c ≢ 0 → c < int_max → counted increase c ≡ ok (c + counts_as increase)
unfolding counted increment
counted-later increase c ne h = elim (ℕ_discrete increase 0) [
  | yes z ↦ rw (z, ne→== c 0 ne) (ap {B = Run ℕ} (λ (n : ℕ). ok n) (omega arith))
  | no inc ↦ rw (ne→== increase 0 inc, lt→ltb c int_max h)
]

counted-first : (increase : ℕ) → counted increase 0 ≡ ok 1
unfolding counted increment
counted-first increase = ground arith

-- A check of a raised flag.
check_exiit-raised :
    (increase : ℕ) (s : Process) (p : SharedData) (c : ℕ)
    → s.ntt_data_shm ≡ some p
    → p.should_exit ≢ 0
    → counted increase s.count_should_exit ≡ ok c
    → check_exiit increase s ≡ ok (c, record s { count_should_exit = c })
unfolding check_exiit
check_exiit-raised increase s p c e raised run = rw (e, ne→== p.should_exit 0 raised, run)

checks-tally :
    (more : List ℕ) (s : Process) (p : SharedData)
    → s.ntt_data_shm ≡ some p
    → p.should_exit ≢ 0
    → s.count_should_exit ≢ 0
    → s.count_should_exit + length more ≤ int_max
    → checks more s
      ≡ ok (
        tally s.count_should_exit more,
        record s { count_should_exit = total_count s.count_should_exit more },
      )
unfolding checks tally total_count
checks-tally [] s p e raised ne h = refl
checks-tally (increase ∷ more) s p e raised ne h =
    let c = s.count_should_exit + counts_as increase in
    let at_most_one : counts_as increase ≤ 1 = ground arith in
    let run =
      check_exiit-raised increase s p c e raised
        (counted-later increase s.count_should_exit ne (omega arith)) in
    let rest =
      checks-tally more (record s { count_should_exit = c }) p e raised (omega arith)
        (omega (arith, at_most_one)) in
    rw (run, ◌>>=◌, rest)

checks-clear :
    (more : List ℕ) (s : Process) (p : SharedData)
    → s.ntt_data_shm ≡ some p
    → p.should_exit ≡ 0
    → checks more s ≡ ok (replicate (length more) 0, s)
unfolding checks check_exiit
checks-clear [] s p e clear = refl
checks-clear (increase ∷ more) s p e clear =
    let run : check_exiit increase s ≡ ok (0, s) = rw (e, clear) refl in
    rw (run, ◌>>=◌, checks-clear more s p e clear)

-- With a region mapped, no positive check so far, and fewer than 2^31 - 1 checks behind the first:
-- after `set_exit_group`, all the checks return 0 and change nothing if the value set is 0; else
-- the first returns 1, each later one returns 1 more than the number of checks with `increase` set
-- from the second to that one, and the last of these counts is what is stored. The region stays as
-- `set_exit_group` has left it.
pub checks-set_exit_group :
    (val first : ℕ) (more : List ℕ) (s : Process) (p : SharedData)
    → s.ntt_data_shm ≡ some p
    → s.count_should_exit ≡ 0
    → length more < int_max
    → (set_exit_group val s >>= checks (first ∷ more)) ≡ (
        let s' = record s { ntt_data_shm = some (record p { should_exit = val }) } in
        if val == 0
        then ok (0 ∷ replicate (length more) 0, s')
        else ok (1 ∷ tally 1 more, record s' { count_should_exit = total_count 1 more }))
unfolding set_exit_group checks
checks-set_exit_group val first more s p e z h =
    let q = record p { should_exit = val } in
    let s' = record s { ntt_data_shm = some q } in
    elim (ℕ_discrete val 0) [
      | yes clear ↦
          rw (e, ◌>>=◌, eq→== val 0 clear)
            (unfold checks in checks-clear (first ∷ more) s' q refl clear)
      | no raised ↦
          let run =
            check_exiit-raised first s' q 1 refl raised
              (ap (λ (c : ℕ). counted first c) z ∙ counted-first first) in
          let rest =
            checks-tally more (record s' { count_should_exit = 1 }) q refl raised (omega arith)
              (omega arith) in
          rw (e, ◌>>=◌, ne→== val 0 raised, run, rest)
    ]

-- Once the flag is set, by any value but 0, the next round of the reading thread ends its loop and
-- reads nothing: what the region holds stays there.
pub read_round-finished :
    (grants : ℕ → Bool) (lock self val : ℕ) (s : Process) (p : SharedData)
    → val ≢ 0
    → s.ntt_data_shm ≡ some p
    → s.count_should_exit < int_max
    → (set_exit_group val s >>= read_round grants lock self)
      ≡ ok (
          finished (record s {
            ntt_data_shm = some (record p { should_exit = val });
            count_should_exit = s.count_should_exit + 1;
          }))
unfolding set_exit_group read_round check_exiit counted increment
read_round-finished grants lock self val s p ne e h = rw (
  e,
  ◌>>=◌,
  ne→== val 0 ne,
  lt→ltb s.count_should_exit int_max h,
  ◌>>=◌,
  ne→== (s.count_should_exit + 1) 0 (omega arith),
)

abbrev pub rs_of : Reply → ℤ
rs_of (wrote rs sendsig pcid) = rs
rs_of (was_read rs stored) = rs

abbrev pub stored_of : Reply → Option (Option (List ℕ))
stored_of (wrote rs sendsig pcid) = none
stored_of (was_read rs stored) = stored

pub receive_reply :
    (self : ℕ) (c : Channel)
    → (receive (arrive self c)).1 ≡ (
        if length c.held == 0
        then was_read (pos 0) (some none)
        else was_read (pos (length c.held)) (some (some (c.held ++ 0 ∷ []))))
unfolding receive arrive
receive_reply self c = ground arith

-- With the flag clear, a valid region and memory granted, a round of the reading thread hands over
-- all the bytes that the region holds with a 0 behind them and leaves none, or, if there are none,
-- sets the sleeping flag and sleeps; the first round registers the process as the reader.
pub read_round-receive :
    (k : Layout) (grants : ℕ → Bool) (self : ℕ) (s : Process) (p : SharedData)
    → ((n : ℕ) → grants n ≡ true)
    → IsValid k p
    → p.should_exit ≡ 0
    → s.ntt_data_shm ≡ some p
    → Returns (read_round grants 0 self s) λ round.
      (p' : SharedData) × (pidd : ℕ) × IsValid k p'
      × (channel p' pidd ≡ (receive (arrive self (channel p s.pidd))).0)
      × (round ≡ (
          let s' = record s { ntt_data_shm = some p'; pidd = pidd } in
          if length (contents p) == 0
          then slept s'
          else had_data (pos (length (contents p))) (some (contents p ++ 0 ∷ [])) s'))
unfolding read_round check_exiit handle
read_round-receive k grants self s p g v clear e =
    let (r, run, q) = ntt_read_shm-Received k v s.pidd grants self g in
    let both = ap (λ (x : Channel × Reply). x.1) q.effect ∙ receive_reply self (channel p s.pidd) in
    let size = ap (λ (x : Reply). rs_of x) both in
    let stored = ap (λ (x : Reply). stored_of x) both in
    (
      handle (record s { ntt_data_shm = r.region; pidd = r.pidd }) (dta r.stored) r.rs,
      rw (e, clear, ◌>>=◌, e, run),
      (
        q.next,
        r.pidd,
        q.valid,
        ap (λ (x : Channel × Reply). x.0) q.effect,
        elim (ℕ_discrete (length (contents p)) 0) [
          | yes z ↦ rw (size, stored, q.region, z)
          | no z ↦ rw (
            size,
            stored,
            q.region,
            ne→== (length (contents p)) 0 z,
            ne→== (length (contents p)) 0 z,
          )
        ],
      ),
    )
