-- ===== src/SharedData/Handover.antt =====
-- common/shared_data.c: one process creates the region and writes; another process, that opens the
-- region later, reads.
use memory_leak.Prelude.{
  ℕ, ◌+◌, ◌^◌, ◌<◌, ◌≡◌, refl, ap, ◌∙◌, Bool, true, false, none, some, List, [], ◌∷◌, ◌++◌, ◌==◌,
  if◌then◌else◌, length, arith,
}
use memory_leak.Prelude.Int.{pos}
use memory_leak.Prelude.Run.{Run, ◌>>=◌, or_fault, Returns}
use memory_leak.SharedData.{Layout, SharedData, ReadBack, ntt_write_shm, ntt_read_shm}
use memory_leak.SharedData.Bytes.{contents, IsValid}
use memory_leak.SharedData.Channel.{Channel, Reply, channel, arrive, receive, send}
use memory_leak.SharedData.Refine.{ntt_write_shm-Sent, ntt_read_shm-Received}
use memory_leak.SharedData.Rounds.{receive_reply, rs_of, stored_of}
use memory_leak.SharedData.Open.{
  System, Backend, mapped, LocksUp, blank, ntt_open_shm, blank-IsValid, ntt_open_shm-blank,
  ntt_open_shm-existing,
}

-- What the system answers to a process that finds the object and maps what it holds.
abbrev pub finding : SharedData → System
finding p = record {
  creates = false;
  opens = true;
  mapping = mapped p;
  frame_init = 0;
  exit_init = 0;
}

-- The first process gets `sys` for an answer, and writes `d`; then the second, with the id `self`,
-- opens the region and reads.
unfoldable pub handover :
    Layout → Backend → System → (n self : ℕ) → (ℕ → Bool) → List ℕ → Run ReadBack
handover k b sys n self grants d = do
  p ← or_fault (ntt_open_shm k b sys n none).0
  w ← ntt_write_shm k 0 (some p) (some d) (pos (length d)) (some 0) (some 0)
  q ← or_fault w.region
  r ← or_fault (ntt_open_shm k b (finding q) n none).0
  ntt_read_shm grants 0 self 0 (some r) true

-- A channel without bytes holds what is sent.
held_sent :
    (k : Layout) (total : ℕ) (c : Channel) (d : List ℕ)
    → c.held ≡ []
    → (send k total c d).0.held ≡ d
unfolding send
held_sent k total c [] e = e
held_sent k total c (x ∷ d) e = ground arith

held_received : (self : ℕ) (c : Channel) → (receive (arrive self c)).0.held ≡ []
unfolding receive arrive
held_received self c = ground arith

-- With memory granted, the frame lock taken by the write and by the read, a first process that
-- creates the object and gets a mapping and both locks, a size above that of the header and below
-- 2^31, and data that fits the empty region: whatever stood in the mapped memory, a second process
-- that finds and maps what the first has written opens the region, and its read returns the number
-- of the bytes written, stores exactly these with a 0 behind them (nothing if there are none), and
-- leaves a valid region of that size that holds nothing.
pub handover-data :
    (k : Layout) (b : Backend) (sys : System) (n self : ℕ) (grants : ℕ → Bool) (p : SharedData)
    (d : List ℕ)
    → ((size : ℕ) → grants size ≡ true)
    → sys.creates ≡ true
    → sys.mapping ≡ mapped p
    → LocksUp sys
    → n < 2 ^ 31
    → length d + k.size_of < n
    → Returns (handover k b sys n self grants d) λ r.
      (r.rs ≡ pos (length d))
      × (r.stored ≡ some (if length d == 0 then none else some (d ++ 0 ∷ [])))
      × (q : SharedData) × (r.region ≡ some q)
      × IsValid k q
      × (q.total ≡ n)
      × (contents q ≡ [])
unfolding handover blank
handover-data k b sys n self grants p d g c m up w fits =
    let v = blank-IsValid k n (omega arith) w in
    let (sent, run, s) = ntt_write_shm-Sent k v 0 d fits in
    let (r, run', t) = ntt_read_shm-Received k s.valid 0 grants self g in
    let holds : contents s.next ≡ d =
      ap (λ (x : Channel × Reply). x.0.held) s.effect
      ∙ held_sent k n (channel (blank k n) 0) d refl in
    let both = ap (λ (x : Channel × Reply). x.1) t.effect ∙ receive_reply self (channel s.next 0) in
    (
      r,
      rw (
        ntt_open_shm-blank k b sys n none p c m up,
        ◌>>=◌,
        run,
        s.region,
        ntt_open_shm-existing k b (finding s.next) n none s.next refl refl refl,
        run',
      ),
      (
        ap (λ (x : Reply). rs_of x) both ∙ rw holds (ground arith),
        ap (λ (x : Reply). stored_of x) both ∙ rw holds (ground arith),
        t.next,
        t.region,
        t.valid,
        t.total ∙ s.total,
        ap (λ (x : Channel × Reply). x.0.held) t.effect ∙ held_received self (channel s.next 0),
      ),
    )
