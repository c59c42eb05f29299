-- ===== src/Schedule/Rng.antt =====
-- `createUint32Rng` and `randomBelow` of diagnose-lib/pinned-runner.mjs. The generator's closure is
-- its 32-bit state, passed on explicitly.
pub mod Totality
use Prim.Native.Nat.{bit_xor, bit_or}
use fault_affinity.Prelude.{
  ℕ, zero, suc, ◌+◌, ◌*◌, ◌/◌, ◌%◌, ◌^◌, Option, none, some, leb, if◌then◌else◌,
}

-- UINT32_RANGE
abbrev pub uint32_range : ℕ
uint32_range = 0x1_0000_0000

abbrev pub domain_isolated : ℕ
domain_isolated = 0x4953_4f4c

abbrev pub domain_groups : ℕ
domain_groups = 0x4752_4f55

abbrev pub domain_concurrent : ℕ
domain_concurrent = 0x434f_4e43

-- `Math.imul`, as the 32-bit pattern of the product.
imul : ℕ → ℕ → ℕ
imul a b = (a * b) % uint32_range

-- `(seed ^ domain) >>> 0`
unfoldable pub create_uint32_rng : ℕ → ℕ → ℕ
create_uint32_rng seed domain = bit_xor seed domain % uint32_range

abbrev pub advance : ℕ → ℕ
advance state = (state + 0x6d2b_79f5) % uint32_range

-- What the generator returns once its state has been advanced.
unfoldable pub output : ℕ → ℕ
unfolding imul
output state =
    let first = imul (bit_xor state (state / 2 ^ 15)) (bit_or state 1) in
    let mixed = (first + imul (bit_xor first (first / 2 ^ 7)) (bit_or first 61)) % uint32_range in
    let second = bit_xor first mixed in bit_xor second (second / 2 ^ 14) % uint32_range

-- The returned word and the new state.
unfoldable pub next_uint32 : ℕ → ℕ × ℕ
next_uint32 state = (output (advance state), advance state)

abbrev pub accepted_range : ℕ → ℕ
accepted_range upper_exclusive = uint32_range / upper_exclusive * upper_exclusive

-- The `do … while` loop, on fuel; `none` means that the fuel ran out.
unfoldable pub draw : ℕ → ℕ → ℕ → Option (ℕ × ℕ)
unfolding next_uint32
draw zero state upper_exclusive = none
draw (suc fuel) state upper_exclusive =
    let (value, state') = next_uint32 state in
    let again = draw fuel state' upper_exclusive in
    if leb (accepted_range upper_exclusive) value
    then again
    else some (value % upper_exclusive, state')

-- `randomBelow`: a round for each state of the generator.
unfoldable pub random_below : ℕ → ℕ → Option (ℕ × ℕ)
unfolding draw
random_below state upper_exclusive = draw uint32_range state upper_exclusive
