-- ===== src/Schedule/Orders.antt =====
-- `shuffle`, `buildCyclicOrders` and the exported order builders of diagnose-lib/pinned-runner.mjs.
-- CPUs and group indices are numbers; a schedule is a list of rounds.
pub mod Shuffle
pub mod Balance
pub mod Validity
pub mod Guarantee
mod Examples
use fault_affinity.Prelude.{
  ℕ, zero, suc, ◌+◌, ◌-◌, ◌*◌, ◌%◌, min, Bool, true, false, List, [], ◌∷◌, ◌++◌, Option, none, some,
  length, get_elem?, get_or, set, array_from, includes, every, ltb, leb, ◌==◌, if◌then◌else◌, not,
  ◌&&◌, ◌||◌, Outcome, ok, throw, ◌>>=◌, ◌>>◌, require, present,
}
use fault_affinity.Schedule.Rng.{
  create_uint32_rng, next_uint32, random_below, domain_isolated, domain_groups, domain_concurrent,
}

pub data RunnerError : Type 0 where
  -- TypeError from `validateCpuArray`: no entries or too many, an id out of range, a duplicate.
  cpu_array_size cpu_out_of_range duplicate_cpu : RunnerError
  -- TypeError from `validateInteger` on a count or the seed.
  count_out_of_range seed_out_of_range : RunnerError
  -- RangeError from `validateScheduleSize`.
  schedule_too_large : RunnerError
  -- TypeError and RangeError from `expandCpuList`.
  bad_string list_too_long descending_range invalid_token : RunnerError
  -- The fuel of the rejection loop ran out.
  diverged : RunnerError

abbrev pub max_cpu_id : ℕ
max_cpu_id = 65_535

abbrev pub max_count : ℕ
max_count = 1_000_000

abbrev pub max_schedule_entries : ℕ
max_schedule_entries = 1_000_000

abbrev pub max_seed : ℕ
max_seed = 0xffff_ffff

unfoldable pub validate_count : ℕ → Outcome RunnerError (Unit {0})
validate_count count = require (leb 1 count && leb count max_count) count_out_of_range

unfoldable pub validate_seed : ℕ → Outcome RunnerError (Unit {0})
validate_seed seed = require (leb seed max_seed) seed_out_of_range

-- `new Set(copy).size === copy.length`
abbrev pub all_distinct : List ℕ → Bool
all_distinct [] = true
all_distinct (x ∷ xs) = not (includes xs x) && all_distinct xs

unfoldable pub validate_cpu_array : List ℕ → Outcome RunnerError (List ℕ)
validate_cpu_array cpus = do
  require (not (length cpus == 0) && leb (length cpus) (max_cpu_id + 1)) cpu_array_size
  require (every (λ cpu. leb cpu max_cpu_id) cpus) cpu_out_of_range
  require (all_distinct cpus) duplicate_cpu
  ok cpus

unfoldable pub validate_schedule_size : ℕ → ℕ → Outcome RunnerError (Unit {0})
validate_schedule_size item_count round_count =
    require (leb (item_count * round_count) max_schedule_entries) schedule_too_large

-- `[result[i], result[j]] = [result[j], result[i]]`; the loop's indices are in range.
unfoldable pub swap : List ℕ → ℕ → ℕ → List ℕ
swap xs i j = set (set xs i (get_or xs j 0)) j (get_or xs i 0)

-- The loop `for (let index = …; index > 0; index -= 1)`, with the generator's state.
unfoldable pub shuffle_from : ℕ → List ℕ → ℕ → Option (List ℕ × ℕ)
shuffle_from zero result state = some (result, state)
shuffle_from (suc index) result state = elim (random_below state (suc index + 1)) [
  | none ↦ none
  | some (other, state') ↦ shuffle_from index (swap result (suc index) other) state'
]

unfoldable pub shuffle : List ℕ → ℕ → Option (List ℕ × ℕ)
unfolding shuffle_from
shuffle values state = shuffle_from (length values - 1) values state

-- `(nextUint32() & 1) === 0`: the direction is 1 where this is true, else -1.
abbrev pub is_forward : ℕ → Bool
is_forward word = word % 2 == 0

-- `(firstOffset + direction * blockRound + items.length) % items.length`
abbrev pub round_offset : ℕ → Bool → ℕ → ℕ → ℕ
round_offset first_offset forward block_round n =
    if forward then (first_offset + block_round + n) % n else (first_offset + n - block_round) % n

-- One order: `base` read cyclically from `offset`.
abbrev pub cyclic_order : List ℕ → ℕ → List ℕ
cyclic_order base offset =
    array_from (length base) (λ position. get_or base ((offset + position) % length base) 0)

-- The inner loop of a block.
unfoldable pub block_orders : List ℕ → ℕ → Bool → ℕ → List (List ℕ)
block_orders base first_offset forward block_length =
    array_from block_length (λ block_round.
      cyclic_order base (round_offset first_offset forward block_round (length base)))

-- The body of the outer loop: the block's orders and the generator's state after it.
unfoldable pub draw_block : List ℕ → ℕ → ℕ → Option (List (List ℕ) × ℕ)
unfolding block_orders next_uint32
draw_block items block_length state = elim (shuffle items state) [
  | none ↦ none
  | some (base, state₁) ↦ elim (random_below state₁ (length items)) [
    | none ↦ none
    | some (first_offset, state₂) ↦
        let (word, state₃) = next_uint32 state₂ in
        some (block_orders base first_offset (is_forward word) block_length, state₃)
  ]
]

-- The outer loop, on fuel: `block_start` grows by at least one, so `round_count + 1` rounds are
-- enough.
unfoldable pub build_blocks : ℕ → List ℕ → ℕ → ℕ → ℕ → Option (List (List ℕ))
build_blocks zero items round_count block_start state = none
build_blocks (suc fuel) items round_count block_start state =
    let block_length = min (length items) (round_count - block_start) in
    let orders : Option (List (List ℕ)) = elim (draw_block items block_length state) [
      | none ↦ none
      | some (block, state') ↦
          elim (build_blocks fuel items round_count (block_start + length items) state') [
            | none ↦ none
            | some later ↦ some (block ++ later)
          ]
    ] in
    if leb round_count block_start then some [] else orders

unfoldable pub build_cyclic_orders : List ℕ → ℕ → ℕ → ℕ → Outcome RunnerError (List (List ℕ))
build_cyclic_orders items round_count seed domain = do
  validate_count round_count
  validate_seed seed
  validate_schedule_size (length items) round_count
  present (build_blocks (round_count + 1) items round_count 0 (create_uint32_rng seed domain))
      diverged

unfoldable pub build_isolated_orders : List ℕ → ℕ → ℕ → Outcome RunnerError (List (List ℕ))
build_isolated_orders cpus round_count seed = do
  items ← validate_cpu_array cpus
  build_cyclic_orders items round_count seed domain_isolated

unfoldable pub build_balanced_group_orders : ℕ → ℕ → ℕ → Outcome RunnerError (List (List ℕ))
build_balanced_group_orders group_count round_count seed = do
  validate_count group_count
  validate_count round_count
  validate_seed seed
  validate_schedule_size group_count round_count
  build_cyclic_orders (array_from group_count (λ index. index)) round_count seed domain_groups

unfoldable pub build_concurrent_launch_orders : List ℕ → ℕ → ℕ → Outcome RunnerError (List (List ℕ))
build_concurrent_launch_orders cpus round_count seed = do
  items ← validate_cpu_array cpus
  build_cyclic_orders items round_count seed domain_concurrent
