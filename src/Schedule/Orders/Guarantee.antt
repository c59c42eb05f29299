-- ===== src/Schedule/Orders/Guarantee.antt =====
-- The order builders: when they return, and what.
use mathlib.Core.List.{Nodup}
use fault_affinity.Prelude.{
  ℕ, zero, suc, ◌+◌, ◌-◌, ◌*◌, ◌≤◌, ◌<◌, ◌≡◌, refl, sym, ◌∙◌, ◌≢◌, subst, true, false, List, [],
  ◌∷◌, ◌++◌, Option, some, min, length, length-append, length-array_from, array_from, includes, leb,
  le→leb, Bool-cases, Outcome, ok, bind_returns, dec_lt, inl, inr, arith,
}
use fault_affinity.Schedule.Rng.{
  uint32_range, create_uint32_rng, next_uint32, random_below, domain_isolated, domain_groups,
  domain_concurrent,
}
use fault_affinity.Schedule.Rng.Totality.{random_below_total}
use fault_affinity.Schedule.Orders.{
  RunnerError, max_count, max_schedule_entries, max_seed, validate_count, validate_seed,
  validate_cpu_array, validate_schedule_size, all_distinct, is_forward, shuffle, block_orders,
  draw_block, build_blocks, build_cyclic_orders, build_isolated_orders, build_balanced_group_orders,
  build_concurrent_launch_orders,
}
use fault_affinity.Schedule.Orders.Validity.{
  IsCpuArray, all_distinct-Nodup, validate_cpu_array_accepts, validate_cpu_array_sound,
}
use fault_affinity.Schedule.Orders.Shuffle.{shuffle-Shuffles}
use fault_affinity.Schedule.Orders.Balance.{IsBlock, Balanced, done, block, block_orders-IsBlock}

draw_block_step :
    (items base : List ℕ) (m s s₁ first s₂ : ℕ)
    → shuffle items s ≡ some (base, s₁)
    → random_below s₁ (length items) ≡ some (first, s₂)
    → draw_block items m s
      ≡ some (block_orders base first (is_forward (next_uint32 s₂).0) m, (next_uint32 s₂).1)
unfolding draw_block
draw_block_step items base m s s₁ first s₂ e₁ e₂ = rw (e₁, draw_block) (rw (e₂, draw_block))

abbrev DrawsBlock : List ℕ → ℕ → Option (List (List ℕ) × ℕ) → Type 0
DrawsBlock items m r =
    (rounds : List (List ℕ)) × (state : ℕ) × (r ≡ some (rounds, state))
    × IsBlock items rounds
    × (length rounds ≡ m)

module _ (items : List ℕ) (nodup : Nodup items) (pos : 0 < length items)
    (small : length items ≤ uint32_range) where
  draw_block-DrawsBlock :
      (m state : ℕ) → m ≤ length items → DrawsBlock items m (draw_block items m state)
  unfolding block_orders
  draw_block-DrawsBlock m state le =
      let (base, s₁, e₁, same, len) = shuffle-Shuffles items state small in
      let (first, s₂, e₂, _) = random_below_total s₁ (length items) pos small in
      (
        block_orders base first (is_forward (next_uint32 s₂).0) m,
        (next_uint32 s₂).1,
        draw_block_step items base m state s₁ first s₂ e₁ e₂,
        block_orders-IsBlock items base same len first (is_forward (next_uint32 s₂).0) m nodup le,
        length-array_from m _,
      )

build_blocks_step :
    (fuel : ℕ) (items : List ℕ) (rc bs s s' : ℕ) (rounds later : List (List ℕ))
    → leb rc bs ≡ false
    → draw_block items (min (length items) (rc - bs)) s ≡ some (rounds, s')
    → build_blocks fuel items rc (bs + length items) s' ≡ some later
    → build_blocks (suc fuel) items rc bs s ≡ some (rounds ++ later)
unfolding build_blocks
build_blocks_step fuel items rc bs s s' rounds later t d b =
    rw (t, build_blocks) (rw (d, build_blocks) (rw b))

build_blocks_end :
    (fuel : ℕ) (items : List ℕ) (rc bs s : ℕ)
    → leb rc bs ≡ true
    → build_blocks (suc fuel) items rc bs s ≡ some []
unfolding build_blocks
build_blocks_end fuel items rc bs s t = rw t

abbrev Builds : List ℕ → ℕ → Option (List (List ℕ)) → Type 0
Builds items count r =
    (orders : List (List ℕ)) × (r ≡ some orders) × Balanced items orders × (length orders ≡ count)

nil_of_length : {A : Type 0} (xs : List A) → length xs ≡ 0 → xs ≡ []
nil_of_length [] e = refl
nil_of_length (x ∷ xs) e = absurd (omega arith)

build_blocks_join :
    (fuel : ℕ) (items : List ℕ) (rc bs s : ℕ)
    → leb rc bs ≡ false
    → (d : DrawsBlock items
        (min (length items) (rc - bs))
        (draw_block items (min (length items) (rc - bs)) s))
    → Builds items (rc - (bs + length items)) (build_blocks fuel items rc (bs + length items) d.1)
    → Builds items (rc - bs) (build_blocks (suc fuel) items rc bs s)
build_blocks_join fuel items rc bs s t (rounds, s', e, blk, len) (later, b, balanced, count) =
    let before : bs < rc = ground arith in
    let whole : later ≢ [] → length rounds ≡ length items = λ more.
      elim (dec_lt (rc - bs) (length items)) [
        | yes p ↦ absurd (more (nil_of_length later (omega arith)))
        | no p ↦ omega arith
      ] in
    (
      rounds ++ later,
      build_blocks_step fuel items rc bs s s' rounds later t e b,
      block rounds later blk whole balanced refl,
      length-append rounds later ∙ omega arith,
    )

module _ (items : List ℕ) (nodup : Nodup items) (pos : 0 < length items)
    (small : length items ≤ uint32_range) where
  build_blocks-Builds :
      (fuel rc bs state : ℕ)
      → rc - bs < fuel
      → Builds items (rc - bs) (build_blocks fuel items rc bs state)
  build_blocks-Builds zero rc bs state lt = elim lt [ ]
  build_blocks-Builds (suc fuel) rc bs state lt = elim (Bool-cases (leb rc bs)) [
    | inl t ↦ ([], build_blocks_end fuel items rc bs state t, done, ground arith)
    | inr t ↦
        let d =
          draw_block-DrawsBlock items nodup pos small (min (length items) (rc - bs)) state
            (omega arith) in
        let before : bs < rc = ground arith in
        build_blocks_join fuel items rc bs state t d
          (build_blocks-Builds fuel rc (bs + length items) d.1 (omega arith))
  ]

-- The numeric limits that `buildCyclicOrders` checks.
pub record IsWithinLimits (item_count round_count seed : ℕ) : Type 0 where
  pub some_round : 1 ≤ round_count
  pub few_rounds : round_count ≤ max_count
  pub seed_word : seed ≤ max_seed
  pub entries : item_count * round_count ≤ max_schedule_entries

abbrev pub Schedules : List ℕ → ℕ → Outcome RunnerError (List (List ℕ)) → Type 0
Schedules items round_count r =
    (orders : List (List ℕ)) × (r ≡ ok orders)
    × Balanced items orders
    × (length orders ≡ round_count)

build_cyclic_orders-Schedules :
    (items : List ℕ) (round_count seed domain : ℕ)
    → Nodup items
    → 0 < length items
    → length items ≤ uint32_range
    → IsWithinLimits (length items) round_count seed
    → Schedules items round_count (build_cyclic_orders items round_count seed domain)
unfolding build_cyclic_orders validate_count validate_seed validate_schedule_size
build_cyclic_orders-Schedules items round_count seed domain nodup pos small v =
    let (orders, e, balanced, count) =
      build_blocks-Builds items nodup pos small (round_count + 1) round_count 0
        (create_uint32_rng seed domain) (omega arith) in
    (
      orders,
      rw
          (
            le→leb 1 round_count v.some_round,
            le→leb round_count max_count v.few_rounds,
            le→leb seed max_seed v.seed_word,
            le→leb (length items * round_count) max_schedule_entries v.entries,
            e,
          )
          refl,
      balanced,
      count ∙ omega arith,
    )

build_cyclic_orders-IsWithinLimits :
    (items : List ℕ) (round_count seed domain : ℕ) {orders : List (List ℕ)}
    → build_cyclic_orders items round_count seed domain ≡ ok orders
    → IsWithinLimits (length items) round_count seed
unfolding build_cyclic_orders validate_count validate_seed validate_schedule_size
build_cyclic_orders-IsWithinLimits items round_count seed domain h = ground arith

-- For a CPU array within the limits, `buildIsolatedOrders` returns one order for each round: every
-- order is a rearrangement of the CPUs; each block of as many rounds as there are CPUs has every CPU
-- in every position exactly once, and a last, shorter block has it there at most once.
pub build_isolated_orders-Schedules :
    (cpus : List ℕ) (round_count seed : ℕ)
    → IsCpuArray cpus
    → IsWithinLimits (length cpus) round_count seed
    → Schedules cpus round_count (build_isolated_orders cpus round_count seed)
unfolding build_isolated_orders
build_isolated_orders-Schedules cpus round_count seed v w = rw (validate_cpu_array_accepts cpus v) (
    build_cyclic_orders-Schedules cpus round_count seed domain_isolated v.distinct v.nonempty
      (omega (arith, v.bounded)) w)

-- Conversely, `buildIsolatedOrders` returns orders only for a CPU array within the limits.
pub build_isolated_orders_accepts :
    (cpus : List ℕ) (round_count seed : ℕ) {orders : List (List ℕ)}
    → build_isolated_orders cpus round_count seed ≡ ok orders
    → IsCpuArray cpus × IsWithinLimits (length cpus) round_count seed
unfolding build_isolated_orders
build_isolated_orders_accepts cpus round_count seed h =
    let (items, e, r) = bind_returns (validate_cpu_array cpus) _ h in
    let (same, valid) = validate_cpu_array_sound cpus items e in
    (
      valid,
      subst (λ xs. IsWithinLimits (length xs) round_count seed) same
          (build_cyclic_orders-IsWithinLimits items round_count seed domain_isolated r),
    )

-- The launch orders of the concurrent phase are balanced in the same way.
pub build_concurrent_launch_orders-Schedules :
    (cpus : List ℕ) (round_count seed : ℕ)
    → IsCpuArray cpus
    → IsWithinLimits (length cpus) round_count seed
    → Schedules cpus round_count (build_concurrent_launch_orders cpus round_count seed)
unfolding build_concurrent_launch_orders
build_concurrent_launch_orders-Schedules cpus round_count seed v w =
    rw (validate_cpu_array_accepts cpus v) (
      build_cyclic_orders-Schedules cpus round_count seed domain_concurrent v.distinct v.nonempty
        (omega (arith, v.bounded)) w)

abbrev pub group_indices : ℕ → List ℕ
group_indices group_count = array_from group_count (λ index. index)

includes-array_from :
    (n : ℕ) (f : ℕ → ℕ) (a : ℕ) → ((i : ℕ) → f i ≢ a) → includes (array_from n f) a ≡ false
includes-array_from zero f a h = refl
includes-array_from (suc n) f a h =
    ground (arith, h 0, includes-array_from n (λ i. f (suc i)) a (λ i. h (suc i)))

array_from-all_distinct :
    (n : ℕ) (f : ℕ → ℕ) → ((i j : ℕ) → f i ≡ f j → i ≡ j) → all_distinct (array_from n f) ≡ true
array_from-all_distinct zero f h = refl
array_from-all_distinct (suc n) f h =
    let fresh =
      includes-array_from n (λ i. f (suc i)) (f 0) (λ i e. absurd (omega (arith, h (suc i) 0 e))) in
    let later =
      array_from-all_distinct n (λ i. f (suc i)) (λ i j e. omega (arith, h (suc i) (suc j) e)) in
    rw (fresh, later)

-- For a group count within the limits, `buildBalancedGroupOrders` returns one order for each round,
-- balanced as the CPU orders are over the group indices 0 to the count less one.
pub build_balanced_group_orders-Schedules :
    (group_count round_count seed : ℕ)
    → 1 ≤ group_count
    → group_count ≤ max_count
    → IsWithinLimits group_count round_count seed
    → Schedules
        (group_indices group_count)
        round_count
        (build_balanced_group_orders group_count round_count seed)
unfolding build_balanced_group_orders validate_count validate_seed validate_schedule_size
build_balanced_group_orders-Schedules group_count round_count seed pos few w =
    let items = group_indices group_count in
    let len : length items ≡ group_count = length-array_from group_count (λ index. index) in
    let nodup =
      all_distinct-Nodup items (array_from-all_distinct group_count (λ i. i) (λ i j e. e)) in
    rw
      (
        le→leb 1 group_count pos,
        le→leb group_count max_count few,
        le→leb 1 round_count w.some_round,
        le→leb round_count max_count w.few_rounds,
        le→leb seed max_seed w.seed_word,
        le→leb (group_count * round_count) max_schedule_entries w.entries,
      )
      (build_cyclic_orders-Schedules items round_count seed domain_groups nodup (rw len pos)
        (rw len (omega arith)) (subst (λ n. IsWithinLimits n round_count seed) (sym len) w))
