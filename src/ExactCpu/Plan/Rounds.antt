-- ===== src/ExactCpu/Plan/Rounds.antt =====
-- The slots of orders: their numbers, rounds and positions, and the CPUs of each round.
use mathlib.Core.List.{Perm}
use mathlib.Core.List.{Permᴰ}
use mathlib.Core.List.Permᴰ.{nil, cons, swap, trans}
use mathlib.Core.Logic.{∥∥₁_elim}
use fault_affinity.Prelude.{
  ℕ, zero, suc, ◌+◌, ◌*◌, ◌≤◌, ◌<◌, inl, inr, ap₂, select, Bool-cases, ==_iff, false, ◌≡◌, refl,
  sym, ◌∙◌, ap, subst, List, [], ◌∷◌, ◌++◌, map, length, length-append, ◌==◌, All, if◌then◌else◌,
  arith,
}
use fault_affinity.Schedule.Orders.Balance.{Balanced, done, block}
use fault_affinity.ExactCpu.Plan.{Slot, order_slots, slots_from}

abbrev pub Numbered : ℕ → List Slot → Type 0
Numbered n [] = Unit
Numbered n (slot ∷ slots) = (slot.ordinal ≡ n) × Numbered (n + 1) slots

pub Numbered-append :
    (n : ℕ) (xs ys : List Slot)
    → Numbered n xs
    → Numbered (n + length xs) ys
    → Numbered n (xs ++ ys)
Numbered-append n [] ys h k = subst (λ m. Numbered m ys) (omega arith) k
Numbered-append n (x ∷ xs) ys h k =
    (h.0, Numbered-append (n + 1) xs ys h.1 (subst (λ m. Numbered m ys) (omega arith) k))

pub order_slots-Numbered :
    (n round position : ℕ) (order : List ℕ) → Numbered n (order_slots n round position order)
order_slots-Numbered n round position [] = tt
order_slots-Numbered n round position (cpu ∷ order) =
    (refl, order_slots-Numbered (n + 1) round (position + 1) order)

pub length-order_slots :
    (n round position : ℕ) (order : List ℕ)
    → length (order_slots n round position order) ≡ length order
length-order_slots n round position [] = refl
length-order_slots n round position (cpu ∷ order) =
    ap suc (length-order_slots (n + 1) round (position + 1) order)

pub slots_from-Numbered :
    (n round : ℕ) (orders : List (List ℕ)) → Numbered n (slots_from n round orders)
slots_from-Numbered n round [] = tt
slots_from-Numbered n round (order ∷ orders) =
    Numbered-append n (order_slots n round 1 order)
      (slots_from (n + length order) (round + 1) orders) (order_slots-Numbered n round 1 order)
      (subst (λ m. Numbered (n + m) (slots_from (n + length order) (round + 1) orders))
        (sym (length-order_slots n round 1 order))
        (slots_from-Numbered (n + length order) (round + 1) orders))

-- How many of the CPUs are `cpu`.
abbrev pub tally : ℕ → List ℕ → ℕ
tally cpu [] = 0
tally cpu (x ∷ xs) = (if x == cpu then 1 else 0) + tally cpu xs

pub tally-append : (cpu : ℕ) (xs ys : List ℕ) → tally cpu (xs ++ ys) ≡ tally cpu xs + tally cpu ys
tally-append cpu [] ys = omega arith
tally-append cpu (x ∷ xs) ys = omega (arith, tally-append cpu xs ys)

pub tally-perm : (cpu : ℕ) (xs ys : List ℕ) → Perm xs ys → tally cpu xs ≡ tally cpu ys
tally-perm cpu xs ys p = ∥∥₁_elim p (λ a b. hlevel) (same xs ys)
  where
    same : (xs ys : List ℕ) → Permᴰ xs ys → tally cpu xs ≡ tally cpu ys
    same _ _ nil = refl
    same _ _ (cons {a} {b} {l₁} {l₂} e p) =
        rw e (ap (λ n. (if b == cpu then 1 else 0) + n) (same l₁ l₂ p))
    same _ _ (swap {a} {b} {a'} {b'} {l} e f) = rw (e, f) (omega arith)
    same _ _ (trans {l₁} {l₂} {l₃} p q) = same l₁ l₂ p ∙ same l₂ l₃ q

pub All-append :
    (P : List ℕ → Type 0) (xs ys : List (List ℕ)) → All P xs → All P ys → All P (xs ++ ys)
All-append P [] ys h k = k
All-append P (x ∷ xs) ys h k = (h.0, All-append P xs ys h.1 k)

pub rows-Balanced :
    {items : List ℕ} {orders : List (List ℕ)}
    → Balanced items orders
    → All (λ order. Perm order items) orders
rows-Balanced done = tt
rows-Balanced {items} {orders} (block rounds later b _ more e) =
    subst (All (λ order. Perm order items)) (sym e)
      (All-append (λ order. Perm order items) rounds later b.rows (rows-Balanced more))

abbrev pub cpus_of : List Slot → List ℕ
cpus_of = map (λ slot. slot.cpu)

pub cpus-order_slots :
    (n round position : ℕ) (order : List ℕ) → cpus_of (order_slots n round position order) ≡ order
cpus-order_slots n round position [] = refl
cpus-order_slots n round position (cpu ∷ order) =
    ap (◌∷◌ cpu) (cpus-order_slots (n + 1) round (position + 1) order)

pub cpus-append : (xs ys : List Slot) → cpus_of (xs ++ ys) ≡ cpus_of xs ++ cpus_of ys
cpus-append [] ys = refl
cpus-append (x ∷ xs) ys = ap (◌∷◌ x.cpu) (cpus-append xs ys)

pub length-perm : (xs ys : List ℕ) → Perm xs ys → length xs ≡ length ys
length-perm xs ys p = ∥∥₁_elim p (λ a b. hlevel) (same xs ys)
  where
    same : (xs ys : List ℕ) → Permᴰ xs ys → length xs ≡ length ys
    same _ _ nil = refl
    same _ _ (cons {l₁} {l₂} e p) = ap suc (same l₁ l₂ p)
    same _ _ (swap e f) = refl
    same _ _ (trans {l₁} {l₂} {l₃} p q) = same l₁ l₂ p ∙ same l₂ l₃ q

pub tally-slots_from :
    (cpu n round : ℕ) (items : List ℕ) (orders : List (List ℕ))
    → All (λ order. Perm order items) orders
    → tally cpu (cpus_of (slots_from n round orders)) ≡ length orders * tally cpu items
tally-slots_from cpu n round items [] rows = omega arith
tally-slots_from cpu n round items (order ∷ orders) rows =
    let first = order_slots n round 1 order in
    let rest = slots_from (n + length order) (round + 1) orders in
    let whole =
      ap (tally cpu) (cpus-append first rest) ∙ tally-append cpu (cpus_of first) (cpus_of rest) in
    let here =
      ap (tally cpu) (cpus-order_slots n round 1 order) ∙ tally-perm cpu order items rows.0 in
    let later = tally-slots_from cpu (n + length order) (round + 1) items orders rows.1 in
    grind (arith, whole, here, later)

pub length-slots_from :
    (n round : ℕ) (items : List ℕ) (orders : List (List ℕ))
    → All (λ order. Perm order items) orders
    → length (slots_from n round orders) ≡ length orders * length items
length-slots_from n round items [] rows = omega arith
length-slots_from n round items (order ∷ orders) rows =
    let first = order_slots n round 1 order in
    let rest = slots_from (n + length order) (round + 1) orders in
    let whole = length-append first rest in
    let here = length-order_slots n round 1 order ∙ length-perm order items rows.0 in
    let later = length-slots_from (n + length order) (round + 1) items orders rows.1 in
    grind (arith, whole, here, later)

-- The slots of a round.
abbrev pub in_round : ℕ → List Slot → List Slot
in_round round slots = select (λ slot. slot.round == round) slots

pub in_round-append :
    (round : ℕ) (xs ys : List Slot)
    → in_round round (xs ++ ys) ≡ in_round round xs ++ in_round round ys
in_round-append round [] ys = refl
in_round-append round (x ∷ xs) ys = elim (Bool-cases (x.round == round)) [
  | inl t ↦ rw t (ap (◌∷◌ x) (in_round-append round xs ys))
  | inr n ↦ rw n (in_round-append round xs ys)
]

pub own_round :
    (n round position : ℕ) (order : List ℕ)
    → in_round round (order_slots n round position order) ≡ order_slots n round position order
own_round n round position [] = refl
own_round n round position (cpu ∷ order) =
    let slot : Slot = record { ordinal = n; round = round; position = position; cpu = cpu } in
    rw ((==_iff round round).1 refl) (ap (◌∷◌ slot) (own_round (n + 1) round (position + 1) order))

pub other_round :
    (n round other position : ℕ) (order : List ℕ)
    → (round == other) ≡ false
    → in_round other (order_slots n round position order) ≡ []
other_round n round other position [] e = refl
other_round n round other position (cpu ∷ order) e =
    rw e (other_round (n + 1) round other (position + 1) order e)

-- No slot is of a round before the first.
pub earlier_round :
    (n round other : ℕ) (orders : List (List ℕ))
    → other < round
    → in_round other (slots_from n round orders) ≡ []
earlier_round n round other [] h = refl
earlier_round n round other (order ∷ orders) h =
    in_round-append other (order_slots n round 1 order) _
    ∙ ap₂ ◌++◌ (other_round n round other 1 order (ground arith))
        (earlier_round (n + length order) (round + 1) other orders (omega arith))

pub append_nil : (xs : List Slot) → xs ++ [] ≡ xs
append_nil [] = refl
append_nil (x ∷ xs) = ap (◌∷◌ x) (append_nil xs)

-- The CPUs of a round are those of its order.
pub rounds-slots_from :
    (n round k : ℕ) (items : List ℕ) (orders : List (List ℕ))
    → All (λ order. Perm order items) orders
    → k < length orders
    → Perm (cpus_of (in_round (round + k) (slots_from n round orders))) items
rounds-slots_from n round k items [] rows h = absurd (omega (arith, h))
rounds-slots_from n round zero items (order ∷ orders) rows h =
    let first = order_slots n round 1 order in
    let rest = slots_from (n + length order) (round + 1) orders in
    let here : in_round (round + 0) (first ++ rest) ≡ first =
      ap (λ r. in_round r (first ++ rest)) {x = round + 0} {y = round} (omega arith)
      ∙ in_round-append round first rest
      ∙ ap₂ ◌++◌ (own_round n round 1 order)
          (earlier_round (n + length order) (round + 1) round orders (omega arith))
      ∙ append_nil first in
    subst (λ l. Perm l items) (sym (ap cpus_of here ∙ cpus-order_slots n round 1 order)) rows.0
rounds-slots_from n round (suc k) items (order ∷ orders) rows h =
    let first = order_slots n round 1 order in
    let rest = slots_from (n + length order) (round + 1) orders in
    let later =
      rounds-slots_from (n + length order) (round + 1) k items orders rows.1 (omega (arith, h)) in
    let here : in_round (round + suc k) (first ++ rest) ≡ in_round (round + 1 + k) rest =
      ap (λ r. in_round r (first ++ rest)) {x = round + suc k} {y = round + 1 + k} (omega arith)
      ∙ in_round-append (round + 1 + k) first rest
      ∙ ap (λ l. l ++ in_round (round + 1 + k) rest)
          (other_round n round (round + 1 + k) 1 order (ground arith)) in
    subst (λ l. Perm l items) (sym (ap cpus_of here)) later

-- A slot's ordinal counts the positions of the rounds before its own, and its own position.
pub record IsPlacedSlot (width : ℕ) (slot : Slot) : Type 0 where
  pub counted : slot.ordinal + width ≡ slot.round * width + slot.position
  pub first : 1 ≤ slot.position
  pub last : slot.position ≤ width

pub All-append_slots :
    (P : Slot → Type 0) (xs ys : List Slot) → All P xs → All P ys → All P (xs ++ ys)
All-append_slots P [] ys h k = k
All-append_slots P (x ∷ xs) ys h k = (h.0, All-append_slots P xs ys h.1 k)

pub order_slots-IsPlacedSlot :
    (width n round position : ℕ) (order : List ℕ)
    → n + width ≡ round * width + position
    → 1 ≤ position
    → position + length order ≤ width + 1
    → All (IsPlacedSlot width) (order_slots n round position order)
order_slots-IsPlacedSlot width n round position [] e low high = tt
order_slots-IsPlacedSlot width n round position (cpu ∷ order) e low high = (
  record { counted = e; first = low; last = omega (arith, high) },
  order_slots-IsPlacedSlot width (n + 1) round (position + 1) order (grind (arith, e))
      (omega (arith, low)) (omega (arith, high)),
)

pub slots_from-IsPlacedSlot :
    (n round : ℕ) (items : List ℕ) (orders : List (List ℕ))
    → All (λ order. Perm order items) orders
    → n + length items ≡ round * length items + 1
    → All (IsPlacedSlot (length items)) (slots_from n round orders)
slots_from-IsPlacedSlot n round items [] rows e = tt
slots_from-IsPlacedSlot n round items (order ∷ orders) rows e =
    let wide = length-perm order items rows.0 in
    All-append_slots (IsPlacedSlot (length items)) (order_slots n round 1 order)
      (slots_from (n + length order) (round + 1) orders)
      (order_slots-IsPlacedSlot (length items) n round 1 order e (omega arith)
        (omega (arith, wide)))
      (slots_from-IsPlacedSlot (n + length order) (round + 1) items orders rows.1
        (grind (arith, wide, e)))
