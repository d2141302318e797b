-- ===== src/SharedData/Refine.antt =====
-- The calls of shared_data.c refine the channel.
use memory_leak.Prelude.{
  ℕ, zero, suc, ◌+◌, ◌^◌, ◌≤◌, ◌<◌, ◌≡◌, ◌≢◌, refl, ap, ap₂, sym, ◌∙◌, Bool, true, Option, none,
  some, List, [], ◌∷◌, ◌++◌, ◌==◌, set, length, take, length-set, arith, take_all, inl, inr,
  Bool-cases, ne→==,
}
use memory_leak.Prelude.Int.{pos, to_int, to_int_of_lt}
use memory_leak.Prelude.Memory.{copy_out-eq_some}
use memory_leak.Prelude.Run.{ok, fault, ◌>>=◌, Returns}
use native.Mathlib.Decide.{ℕ_discrete}
use memory_leak.SharedData.{
  Layout, SharedData, signal, register, write_locked, read_bytes, read_size, ntt_write_shm,
  ntt_read_shm,
}
use memory_leak.SharedData.Bytes.{
  contents, IsValid, kept, length-contents, write_bytes-Holds, write_bytes-fault,
}
use memory_leak.SharedData.Channel.{
  Channel, Channel, Op, write, read, wrote, was_read, wake, filled, arrive, receive, send, replies,
  AllFit, channel, resume, run, Sent, Received,
}

module _ (k : Layout) {p : SharedData} (v : IsValid k p) (pidd : ℕ) where
  kept-filled :
      (d : List ℕ) → kept k p (length d) ++ take (length d) d ≡ filled k p.total (contents p) d
  kept-filled d =
      ap₂ {A = List ℕ} {B = List ℕ} ◌++◌ (rw (length-contents v) refl)
        (take_all (length d) d (omega arith))

  size-eq :
      (r : SharedData) {q : List ℕ}
      → IsValid k r
      → contents r ≡ q
      → to_int r.used_data ≡ pos (length q)
  size-eq r valid e =
      to_int_of_lt r.used_data (omega (arith, valid.room, valid.small))
      ∙ ap (λ (n : ℕ). pos n) (sym (length-contents valid))
      ∙ ap (λ (u : List ℕ). pos (length u)) e

  -- A write of data that fits an empty region does not fault, keeps the invariant, and does to
  -- the region what `send` does to the channel, replies included.
  pub ntt_write_shm-Sent :
      (d : List ℕ)
      → length d + k.size_of < p.total
      → Returns
          (ntt_write_shm k 0 (some p) (some d) (pos (length d)) (some 0) (some 0))
          (Sent k pidd p d)
  unfolding ntt_write_shm send write_locked signal
  ntt_write_shm-Sent [] h = (
    record { rs = pos 0; region = some p; sendsig = some 0; pcid = some 0 },
    refl,
    record { next = p; region = refl; valid = v; total = refl; effect = refl },
  )
  ntt_write_shm-Sent (b ∷ d) h =
      let item = b ∷ d in
      let (r, run, (valid, bytes, same, asleep)) =
        write_bytes-Holds k v item (length item) (omega arith) h in
      let holds = bytes ∙ kept-filled item in
      let size = size-eq r valid holds in
      (
        record {
          rs = to_int r.used_data;
          region = some r;
          sendsig = (wake (channel p pidd)).0;
          pcid = (wake (channel p pidd)).1;
        },
        rw (run, ◌>>=◌),
        record {
          next = r;
          region = refl;
          valid = valid;
          total = same.total;
          effect = λ i. (
            record { held = holds i; sleeping = asleep i; reader = same.read_pid i; pidd = pidd },
            wrote (size i) (wake (channel p pidd)).0 (wake (channel p pidd)).1,
          );
        },
      )

  read_bytes-some :
      (grants : ℕ → Bool) (n : ℕ)
      → grants (n + 1) ≡ true
      → n ≢ 0
      → n ≤ length p.bytes
      → read_bytes grants p (pos n)
        ≡ ok (
          some (take n p.bytes ++ 0 ∷ []),
          record p { used_data = 0; bytes = set p.bytes 0 0; sleeping = 0 },
        )
  unfolding read_bytes
  read_bytes-some grants zero g ne le = absurd (ne refl)
  read_bytes-some grants (suc n) g ne le = rw (g, copy_out-eq_some p.bytes (suc n) le)

  read_bytes-receive :
      (grants : ℕ → Bool)
      → ((n : ℕ) → grants n ≡ true)
      → Returns (read_bytes grants p (to_int p.used_data)) λ o.
        IsValid k o.1
        × (o.1.total ≡ p.total)
        × ((channel o.1 pidd, was_read (read_size o.0 (to_int p.used_data)) (some o.0))
            ≡ receive (channel p pidd))
  unfolding receive read_bytes
  read_bytes-receive grants g =
      rw (to_int_of_lt p.used_data (omega (arith, v.room, v.small)))
        (elim (ℕ_discrete p.used_data 0) [
          | yes e ↦ (
            (none, record p { sleeping = 1 }),
            rw e,
            (
              record { room = v.room; sized = v.sized; small = v.small },
              refl,
              rw (length-contents v, e),
            ),
          )
          | no ne ↦ (
            (
              some (contents p ++ 0 ∷ []),
              record p { used_data = 0; bytes = set p.bytes 0 0; sleeping = 0 },
            ),
            read_bytes-some grants p.used_data (g (p.used_data + 1)) ne
                (omega (arith, v.room, v.sized, k.data_at_le)),
            (
              record {
                room = omega (arith, v.room);
                sized = rw (length-set p.bytes 0 0) v.sized;
                small = v.small;
              },
              refl,
              rw (length-contents v, ne→== p.used_data 0 ne),
            ),
          )
        ])

module _ (k : Layout) {p : SharedData} (v : IsValid k p) (pidd : ℕ) where
  register-IsValid : (self : ℕ) → IsValid k (register self pidd p).1
  unfolding register
  register-IsValid self = ground arith

  register-total : (self : ℕ) → (register self pidd p).1.total ≡ p.total
  unfolding register
  register-total self = ground arith

  register-arrive :
      (self : ℕ)
      → channel (register self pidd p).1 (register self pidd p).0 ≡ arrive self (channel p pidd)
  unfolding register arrive
  register-arrive self = elim (Bool-cases (pidd == 0)) [ inl e ↦ rw e | inr e ↦ rw e ]

  -- A read with memory granted does not fault, keeps the invariant, and does to the region what
  -- `arrive` and `receive` do to the channel, reply included.
  pub ntt_read_shm-Received :
      (grants : ℕ → Bool) (self : ℕ)
      → ((n : ℕ) → grants n ≡ true)
      → Returns (ntt_read_shm grants 0 self pidd (some p) true) (Received k self pidd p)
  unfolding ntt_read_shm
  ntt_read_shm-Received grants self g =
      let r = register self pidd p in
      let ((out, p'), run, (valid, total, effect)) =
        read_bytes-receive k (register-IsValid self) r.0 grants g in
      (
        record {
          rs = read_size out (to_int r.1.used_data);
          region = some p';
          pidd = r.0;
          stored = some out;
        },
        rw (run),
        record {
          next = p';
          region = refl;
          valid = valid;
          total = total ∙ register-total self;
          effect = effect ∙ ap (λ (c : Channel). receive c) (register-arrive self);
        },
      )

-- A write of more bytes than the region has behind its header, whatever room is left, is not
-- refused: with the lock taken it runs past the end of the region.
pub ntt_write_shm-overrun :
    (k : Layout) (p : SharedData) (d : List ℕ) (sendsig pcid : Option ℕ)
    → IsValid k p
    → p.total < length d + k.data_at
    → length d < 2 ^ 31
    → ntt_write_shm k 0 (some p) (some d) (pos (length d)) sendsig pcid ≡ fault
unfolding ntt_write_shm write_locked
ntt_write_shm-overrun k p [] sendsig pcid v h w = absurd (omega (arith, v.room, k.data_at_le))
ntt_write_shm-overrun k p (b ∷ d) sendsig pcid v h w =
    rw (write_bytes-fault k v (b ∷ d) (length (b ∷ d)) (omega arith) w h)

-- With memory granted and every write small enough for an empty region, each sequence of writes
-- and reads that starts from a valid region ends without fault, and the callers get exactly the
-- replies of the channel.
pub run-replies :
    (k : Layout) (self : ℕ) (grants : ℕ → Bool) (p : SharedData) (pidd : ℕ) (ops : List Op)
    → ((n : ℕ) → grants n ≡ true)
    → IsValid k p
    → AllFit k p.total ops
    → run k self grants p pidd ops ≡ ok (replies k p.total self (channel p pidd) ops)
unfolding run replies resume
run-replies k self grants p pidd [] g v fit = refl
run-replies k self grants p pidd (write d ∷ ops) g v fit =
    let (w, done, s) = ntt_write_shm-Sent k v pidd d fit.0 in
    rw (
      done,
      ◌>>=◌,
      s.region,
      run-replies k self grants s.next pidd ops g s.valid (rw s.total fit.1),
      s.total,
      ← s.effect,
    )
run-replies k self grants p pidd (read ∷ ops) g v fit =
    let (r, done, s) = ntt_read_shm-Received k v pidd grants self g in
    rw (
      done,
      ◌>>=◌,
      s.region,
      run-replies k self grants s.next r.pidd ops g s.valid (rw s.total fit),
      s.total,
      ← s.effect,
    )
