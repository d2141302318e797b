-- ===== src/GenList/Grow.antt =====
-- The loop that finds the new size, and the reservation: enough room, and no step too much.
use memory_leak.Prelude.{
  ap, ℕ, zero, suc, ◌+◌, ◌-◌, ◌*◌, ◌%◌, ◌≤◌, ◌<◌, ◌≡◌, refl, inl, inr, ◌⊎◌, arith, lt→ltb, le→ltb,
}
use memory_leak.Prelude.Run.{Run, ok, Returns}
use native.Mathlib.Decide.{dec_lt}
use memory_leak.GenList.{step, ull, grow}

-- What the loop returns, started at `up` for a need of `need` bytes.
pub record Grown (up need r : ℕ) : Type 0 where
  pub enough : need ≤ r
  pub above : up ≤ r
  pub stepped : r % step ≡ up % step
  pub tight : (r ≡ up) ⊎ (r < need + step)

grow-next :
    (fuel up need : ℕ)
    → up < need
    → up + step < ull
    → grow (suc fuel) up need ≡ grow fuel (up + step) need
unfolding grow
grow-next fuel up need h w = rw (lt→ltb up need h) (ap (λ (u : ℕ). grow fuel u need) (omega arith))

grow-stop : (fuel up need : ℕ) → need ≤ up → grow (suc fuel) up need ≡ ok up
unfolding grow
grow-stop fuel up need h = rw (le→ltb up need h)

widen :
    (up need : ℕ) {r : Run ℕ}
    → up < need
    → Returns r (Grown (up + step) need)
    → Returns r (Grown up need)
widen up need h (r, run, g) = (
  r,
  run,
  record {
    enough = g.enough;
    above = omega (arith, g.above);
    stepped = omega (arith, g.stepped);
    tight = inr (omega (arith, g.tight));
  },
)

-- `j` rounds that reach the need, below 2^64, are enough fuel.
pub grow-Grown :
    (fuel j up need : ℕ)
    → j < fuel
    → need ≤ up + j * step
    → up + j * step < ull
    → Returns (grow fuel up need) (Grown up need)
grow-Grown zero j up need h e w = absurd (omega arith)
grow-Grown (suc fuel) j up need h e w = elim (dec_lt up need) [
  | no fits ↦
      let le : need ≤ up = omega arith in
      (
        up,
        grow-stop fuel up need le,
        record { enough = le; above = omega arith; stepped = refl; tight = inl refl },
      )
  | yes short ↦ rw (grow-next fuel up need short (omega arith)) (
      widen up need short
        (grow-Grown fuel (j - 1) (up + step) need (omega arith) (omega arith) (omega arith)))
]
