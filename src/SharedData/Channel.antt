-- ===== src/SharedData/Channel.antt =====
-- The region as a channel: bytes in order, all handed over by a read, the older ones dropped by a
-- write that finds no room behind them; and the flag by which a writer learns whom to wake.
use memory_leak.Prelude.{
  ℕ, ◌+◌, ◌<◌, ◌≡◌, Bool, true, Option, none, some, List, [], ◌∷◌, ◌++◌, ltb, ◌==◌, if◌then◌else◌,
  length,
}
use memory_leak.Prelude.Int.{ℤ, pos}
use memory_leak.Prelude.Run.{Run, ok, fault, ◌>>=◌}
use memory_leak.SharedData.{Layout, SharedData, Written, ReadBack, ntt_write_shm, ntt_read_shm}
use memory_leak.SharedData.Bytes.{contents, IsValid}

pub record Channel : Type 0 where
  pub held : List ℕ
  pub sleeping : ℕ
  pub reader : ℕ
  pub pidd : ℕ

pub data Op : Type 0 where
  write : List ℕ → Op
  read : Op

-- What a call returns and stores through its pointers.
pub data Reply : Type 0 where
  wrote : ℤ → Option ℕ → Option ℕ → Reply
  was_read : ℤ → Option (Option (List ℕ)) → Reply

-- A writer passes the address of two zero variables.
abbrev pub wake : Channel → Option ℕ × Option ℕ
wake c = if c.sleeping == 0 then (some 0, some 0) else (some c.sleeping, some c.reader)

-- The first read of the process registers it.
unfoldable pub arrive : ℕ → Channel → Channel
arrive self c = if c.pidd == 0 then record c { reader = self; pidd = self } else c

unfoldable pub receive : Channel → Channel × Reply
receive c =
    if length c.held == 0 then (record c { sleeping = 1 }, was_read (pos 0) (some none)) else (
      record c { held = []; sleeping = 0 },
      was_read (pos (length c.held)) (some (some (c.held ++ 0 ∷ []))),
    )

module _ (k : Layout) (total : ℕ) where
  -- The bytes after a write of `d`.
  abbrev pub filled : List ℕ → List ℕ → List ℕ
  filled q d = (if ltb (length d + length q + k.size_of) total then q else []) ++ d

  unfoldable pub send : Channel → List ℕ → Channel × Reply
  send c [] = (c, wrote (pos 0) (some 0) (some 0))
  send c (b ∷ d) =
      let q = filled c.held (b ∷ d) in
      (record c { held = q }, wrote (pos (length q)) (wake c).0 (wake c).1)

  unfoldable pub replies : ℕ → Channel → List Op → List Reply
  replies self c [] = []
  replies self c (write d ∷ ops) = (send c d).1 ∷ replies self (send c d).0 ops
  replies self c (read ∷ ops) =
      (receive (arrive self c)).1 ∷ replies self (receive (arrive self c)).0 ops

  -- Each write fits an empty region.
  abbrev pub AllFit : List Op → Type 0
  AllFit [] = Unit
  AllFit (write d ∷ ops) = (length d + k.size_of < total) × AllFit ops
  AllFit (read ∷ ops) = AllFit ops

-- What the region and the reader's static variable stand for.
abbrev pub channel : SharedData → ℕ → Channel
channel p pidd = record {
  held = contents p;
  sleeping = p.sleeping;
  reader = p.read_pid;
  pidd = pidd;
}

-- The region after a call.
unfoldable pub resume : {A : Type 0} → Option SharedData → (SharedData → Run A) → Run A
resume none next = fault
resume (some p) next = next p

-- The calls of the writers and of the reader, in the order in which they hold the lock.
unfoldable pub run : Layout → ℕ → (ℕ → Bool) → SharedData → ℕ → List Op → Run (List Reply)
unfolding resume
run k self grants p pidd [] = ok []
run k self grants p pidd (write d ∷ ops) =
    ntt_write_shm k 0 (some p) (some d) (pos (length d)) (some 0) (some 0) >>= λ w.
    resume w.region (λ p'. run k self grants p' pidd ops) >>= λ rest.
    ok (wrote w.rs w.sendsig w.pcid ∷ rest)
run k self grants p pidd (read ∷ ops) = ntt_read_shm grants 0 self pidd (some p) true >>= λ r.
    resume r.region (λ p'. run k self grants p' r.pidd ops) >>= λ rest.
    ok (was_read r.rs r.stored ∷ rest)

-- What a write leaves, against the channel.
pub record Sent (k : Layout) (pidd : ℕ) (p : SharedData) (d : List ℕ) (w : Written) : Type 0 where
  pub next : SharedData
  pub region : w.region ≡ some next
  pub valid : IsValid k next
  pub total : next.total ≡ p.total
  pub effect : (channel next pidd, wrote w.rs w.sendsig w.pcid) ≡ send k p.total (channel p pidd) d

-- What a read leaves, against the channel.
pub record Received (k : Layout) (self pidd : ℕ) (p : SharedData) (r : ReadBack) : Type 0 where
  pub next : SharedData
  pub region : r.region ≡ some next
  pub valid : IsValid k next
  pub total : next.total ≡ p.total
  pub effect :
      (channel next r.pidd, was_read r.rs r.stored) ≡ receive (arrive self (channel p pidd))
