-- ===== src/Schedule/Orders/Balance.antt =====
-- What a block of cyclic orders holds: every round visits every item once, and every position is
-- visited by an item at most once, and by every item if the block is full.
use mathlib.Core.List.{Perm, Nodup}
use mathlib.Core.List.Perm
use mathlib.Core.List.Nodup
use native.Mathlib.Nat.{add-mod_right, mod-add-mod, mod-eq_of_lt}
use fault_affinity.Prelude.{
  ℕ, zero, suc, ◌+◌, ◌-◌, ◌%◌, ◌≤◌, ◌<◌, ◌≡◌, sym, ap, ◌∙◌, ◌≢◌, Bool, true, false, List, [], ◌++◌,
  map, subst, length, length-array_from, get_or, array_from, All, arith,
}
use fault_affinity.Prelude.Arrays.{
  array_from_ext, array_from_append, array_from_reversed, array_from_rotate, array_from_get,
  get_or-array_from, map-array_from,
}
use fault_affinity.Schedule.Orders.{round_offset, cyclic_order, block_orders}

-- The items that the rounds place at a position, in the order of the rounds.
abbrev pub column : ℕ → List (List ℕ) → List ℕ
column position = map (λ order. get_or order position 0)

pub record IsBlock (items : List ℕ) (rounds : List (List ℕ)) : Type 0 where
  pub size : length rounds ≤ length items
  pub rows : All (λ order. Perm order items) rounds
  pub once : (position : ℕ) → position < length items → Nodup (column position rounds)
  pub full :
      length rounds ≡ length items
      → (position : ℕ) → position < length items
      → Perm (column position rounds) items

-- Blocks end to end, of which only the last may be short.
pub data Balanced (items : List ℕ) : List (List ℕ) → Type 0 where
  done : Balanced items []
  block :
      (rounds later : List (List ℕ)) {orders : List (List ℕ)}
      → IsBlock items rounds
      → (later ≢ [] → length rounds ≡ length items)
      → Balanced items later
      → orders ≡ rounds ++ later
      → Balanced items orders

abbrev at_cyclic : List ℕ → ℕ → ℕ
at_cyclic base i = get_or base (i % length base) 0

at_cyclic_periodic : (base : List ℕ) (i : ℕ) → at_cyclic base (i + length base) ≡ at_cyclic base i
at_cyclic_periodic base i = ap (λ j. get_or base j 0) (add-mod_right i (length base))

one_period : (base : List ℕ) → array_from (length base) (at_cyclic base) ≡ base
one_period base =
    array_from_ext (length base) (at_cyclic base) (λ i. get_or base i 0)
      (λ i h. ap (λ j. get_or base j 0) (mod-eq_of_lt h))
    ∙ array_from_get base 0

window-perm :
    (base : List ℕ) (k : ℕ) → Perm (array_from (length base) (λ i. at_cyclic base (k + i))) base
window-perm base k =
    rw (one_period base) at
      (array_from_rotate (length base) (at_cyclic base) k (at_cyclic_periodic base))

abbrev placed : List ℕ → ℕ → Bool → ℕ → ℕ → ℕ
placed base first forward position block_round =
    get_or (cyclic_order base (round_offset first forward block_round (length base))) position 0

placed-at :
    (base : List ℕ) (offset position : ℕ)
    → position < length base
    → get_or (cyclic_order base (offset % length base)) position 0
      ≡ at_cyclic base (offset + position)
placed-at base offset position h =
    get_or-array_from (length base) (λ q. at_cyclic base (offset % length base + q)) position 0 h
    ∙ ap (λ j. get_or base j 0) (mod-add-mod offset (length base) position)

-- Over a whole block a position is taken by every item once, in either direction.
placed-perm :
    (base : List ℕ) (first : ℕ) (forward : Bool) (position : ℕ)
    → position < length base
    → Perm (array_from (length base) (placed base first forward position)) base
placed-perm base first true position h =
    let e =
      array_from_ext (length base) (placed base first true position)
        (λ r. at_cyclic base (first + position + r))
        (λ r _.
          placed-at base (first + r + length base) position h
          ∙ ap (at_cyclic base) (omega arith)
          ∙ at_cyclic_periodic base (first + position + r)) in
    rw e (window-perm base (first + position))
placed-perm base first false position h =
    let e =
      array_from_ext (length base) (placed base first false position)
        (λ r. at_cyclic base (first + position + 1 + (length base - suc r)))
        (λ r lt.
          placed-at base (first + length base - r) position h
          ∙ ap (at_cyclic base) (omega arith)) in
    rw e (
      Perm.trans
        (array_from_reversed (length base) (λ i. at_cyclic base (first + position + 1 + i)))
        (window-perm base (first + position + 1)))

column-block_orders :
    (base : List ℕ) (first : ℕ) (forward : Bool) (m position : ℕ)
    → column position (block_orders base first forward m)
      ≡ array_from m (placed base first forward position)
unfolding block_orders
column-block_orders base first forward m position =
    map-array_from m (λ r. cyclic_order base (round_offset first forward r (length base)))
      (λ order. get_or order position 0)

All-array_from {κ} :
    {A : Type 0} (P : A → Type κ) (n : ℕ) (f : ℕ → A) → ((i : ℕ) → P (f i)) → All P (array_from n f)
All-array_from P zero f h = tt
All-array_from P (suc n) f h = (h 0, All-array_from P n (λ i. f (suc i)) (λ i. h (suc i)))

module _ (items base : List ℕ) (same : Perm base items) (len : length base ≡ length items) where
  rows-block_orders :
      (first : ℕ) (forward : Bool) (m : ℕ)
      → All (λ order. Perm order items) (block_orders base first forward m)
  unfolding block_orders
  rows-block_orders first forward m =
      All-array_from (λ order. Perm order items) m
        (λ r. cyclic_order base (round_offset first forward r (length base)))
        (λ r. Perm.trans (window-perm base (round_offset first forward r (length base))) same)

  once-block_orders :
      (first : ℕ) (forward : Bool) (m position : ℕ)
      → Nodup items
      → m ≤ length items
      → position < length items
      → Nodup (column position (block_orders base first forward m))
  once-block_orders first forward m position nodup le lt =
      let f = placed base first forward position in
      let e : length base ≡ m + (length base - m) = omega arith in
      let whole =
        Perm.nodup
          (Perm.symm (Perm.trans (placed-perm base first forward position (omega arith)) same))
          nodup in
      rw (column-block_orders base first forward m position) (
        Nodup.of_append_left (array_from (length base - m) (λ i. f (m + i))) (
          subst Nodup (ap (λ n. array_from n f) e ∙ array_from_append m (length base - m) f) whole))

  length-block_orders :
      (first : ℕ) (forward : Bool) (m : ℕ) → length (block_orders base first forward m) ≡ m
  unfolding block_orders
  length-block_orders first forward m = length-array_from m _

  pub block_orders-IsBlock :
      (first : ℕ) (forward : Bool) (m : ℕ)
      → Nodup items
      → m ≤ length items
      → IsBlock items (block_orders base first forward m)
  block_orders-IsBlock first forward m nodup le = record {
    size = rw (length-block_orders first forward m) le;
    rows = rows-block_orders first forward m;
    once = λ position lt. once-block_orders first forward m position nodup le lt;
    full = λ e position lt.
        let m_len : m ≡ length base = sym (length-block_orders first forward m) ∙ e ∙ sym len in
        rw (column-block_orders base first forward m position, m_len)
          (Perm.trans (placed-perm base first forward position (omega arith)) same);
  }
