-- ===== src/Schedule/Rng/Totality.antt =====
-- The rejection loop of `randomBelow`: the generator's state walks through every 32-bit word,
-- and at the word 0 the output is 0, which is never rejected.
use native.Mathlib.Nat.{mod-lt}
use fault_affinity.Prelude.{
  ℕ, zero, suc, ◌+◌, ◌-◌, ◌*◌, ◌%◌, ◌≤◌, ◌<◌, ◌≡◌, refl, inl, inr, some, Bool-cases, leb, leb→le,
  arith,
}
use fault_affinity.Schedule.Rng.{
  uint32_range, accepted_range, advance, output, next_uint32, draw, random_below,
}

accepted_range_pos : (u : ℕ) → 0 < u → u ≤ uint32_range → 0 < accepted_range u
accepted_range_pos u p h = grind arith

output-zero : output 0 ≡ 0
unfolding output
output-zero = refl

-- Where the next state is 0, the loop ends at once.
draw_at_zero :
    (fuel s u : ℕ)
    → advance s ≡ 0
    → 0 < accepted_range u
    → (r : ℕ × ℕ) × (draw (suc fuel) s u ≡ some r)
unfolding draw next_uint32
draw_at_zero fuel s u e p =
    let z : output (advance s) ≡ 0 = rw e output-zero in
    elim (Bool-cases (leb (accepted_range u) (output (advance s)))) [
      | inl again ↦ absurd (ground (arith, leb→le (accepted_range u) (output (advance s)) again))
      | inr hit ↦ ((output (advance s) % u, advance s), rw hit)
    ]

advance_mult :
    (k s : ℕ)
    → (s + suc (suc k) * 0x6d2b_79f5) % uint32_range ≡ 0
    → (advance s + suc k * 0x6d2b_79f5) % uint32_range ≡ 0
advance_mult k s e = omega arith

-- The state comes to 0 after `suc k` steps, so that many rounds are enough.
draw-reach :
    (k fuel s u : ℕ)
    → k < fuel
    → (s + suc k * 0x6d2b_79f5) % uint32_range ≡ 0
    → 0 < accepted_range u
    → (r : ℕ × ℕ) × (draw fuel s u ≡ some r)
unfolding draw next_uint32
draw-reach k zero s u h e p = elim h [ ]
draw-reach zero (suc fuel) s u h e p = draw_at_zero fuel s u (omega arith) p
draw-reach (suc k) (suc fuel) s u h e p =
    elim (Bool-cases (leb (accepted_range u) (output (advance s)))) [
      | inl again ↦ rw again (draw-reach k fuel (advance s) u (omega arith) (advance_mult k s e) p)
      | inr hit ↦ ((output (advance s) % u, advance s), rw hit)
    ]

-- The increment is odd, so it has an inverse modulo 2 ^ 32.
steps_to_zero :
    (s : ℕ) → (k : ℕ) × (k < uint32_range) × ((s + suc k * 0x6d2b_79f5) % uint32_range ≡ 0)
steps_to_zero s =
    let x : ℕ = 2 * uint32_range - s % uint32_range in
    ((x * 3696798301 + uint32_range - 1) % uint32_range, omega arith, omega arith)

draw-lt : (fuel s u value s' : ℕ) → 0 < u → draw fuel s u ≡ some (value, s') → value < u
unfolding draw next_uint32
draw-lt zero s u value s' p e = cc
draw-lt (suc fuel) s u value s' p e =
    ground (arith, draw-lt fuel (advance s) u value s' p, mod-lt (output (advance s)) p)

-- `randomBelow` returns, for every state and every bound up to 2 ^ 32, a value below the bound.
pub random_below_total :
    (s u : ℕ)
    → 0 < u
    → u ≤ uint32_range
    → (value : ℕ) × (s' : ℕ) × (random_below s u ≡ some (value, s')) × (value < u)
unfolding random_below
random_below_total s u p q =
    let (k, h, e) = steps_to_zero s in
    let (r, d) = draw-reach k uint32_range s u h e (accepted_range_pos u p q) in
    (r.0, r.1, d, draw-lt uint32_range s u r.0 r.1 p d)

pub random_below-lt : (s u value s' : ℕ) → 0 < u → random_below s u ≡ some (value, s') → value < u
unfolding random_below
random_below-lt s u value s' p e = draw-lt uint32_range s u value s' p e
