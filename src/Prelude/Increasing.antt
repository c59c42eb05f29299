-- ===== src/Prelude/Increasing.antt =====
-- Increasing lists of numbers, and `[...new Set(values)].sort((left, right) => left - right)`.
use Prim.Native.Nat.{ℕ, ◌≤◌, ◌<◌, ◌+◌}
use mathlib.Core.Path.{◌≡◌, refl, sym, ap, ap₂, ◌∙◌, subst}
use mathlib.Core.Logic.{inl, inr}
use mathlib.Core.Bool.{Bool, true, false, not, ◌&&◌, ◌||◌, false≢true}
use mathlib.Core.List.{List, [], ◌∷◌, ◌++◌}
use native.Mathlib.Omega.{arith}
use native.Mathlib.Decide.{dec_lt}
use fault_affinity.Prelude.Sorting.{insert_by, sort_by}
use fault_affinity.Prelude.Tests.{Bool-cases, leb, ltb, ◌==◌, ==_iff}
use fault_affinity.Prelude.Lists.{All, includes, select, every, length}

-- `[...new Set(values)]`: the first of each value.
abbrev pub dedupe : List ℕ → List ℕ
dedupe [] = []
dedupe (x ∷ xs) = let later = dedupe xs in x ∷ select (λ y. not (y == x)) later

-- `[...new Set(values)].sort((left, right) => left - right)`
unfoldable pub sorted_unique : List ℕ → List ℕ
sorted_unique xs = sort_by leb (dedupe xs)

-- `cpus.some((cpu, index) => index > 0 && cpu <= cpus[index - 1])`, negated.
abbrev pub is_increasing : List ℕ → Bool
is_increasing [] = true
is_increasing (x ∷ []) = true
is_increasing (x ∷ y ∷ ys) = ltb x y && is_increasing (y ∷ ys)

-- Strictly increasing.
abbrev pub Increasing : List ℕ → Type 0
Increasing [] = Unit {0}
Increasing (x ∷ xs) = All (λ y. x < y) xs × Increasing xs

pub includes-select :
    (p : ℕ → Bool) (xs : List ℕ) (a : ℕ) → includes (select p xs) a ≡ (includes xs a && p a)
includes-select p [] a = refl
includes-select p (x ∷ xs) a = elim (Bool-cases (x == a)) [
  | inl e ↦
      let same : x ≡ a = (==_iff x a).0 e in
      rw same (ground (arith, includes-select p xs a, (==_iff a a).1 refl))
  | inr n ↦ ground (arith, includes-select p xs a)
]

includes-dedupe : (xs : List ℕ) (a : ℕ) → includes (dedupe xs) a ≡ includes xs a
includes-dedupe [] a = refl
includes-dedupe (x ∷ xs) a =
    ground
      (arith, includes-dedupe xs a, includes-select (λ y. not (y == x)) (dedupe xs) a, ==_iff a x)

includes-insert_by :
    (first : ℕ → ℕ → Bool) (x : ℕ) (xs : List ℕ) (a : ℕ)
    → includes (insert_by first x xs) a ≡ (x == a || includes xs a)
includes-insert_by first x [] a = refl
includes-insert_by first x (y ∷ ys) a = ground (arith, includes-insert_by first x ys a)

pub includes-sort_by :
    (first : ℕ → ℕ → Bool) (xs : List ℕ) (a : ℕ) → includes (sort_by first xs) a ≡ includes xs a
includes-sort_by first [] a = refl
includes-sort_by first (x ∷ xs) a =
    includes-insert_by first x (sort_by first xs) a
    ∙ ap (λ b. (x == a) || b) (includes-sort_by first xs a)

pub includes-sorted_unique : (xs : List ℕ) (a : ℕ) → includes (sorted_unique xs) a ≡ includes xs a
unfolding sorted_unique
includes-sorted_unique xs a = includes-sort_by leb (dedupe xs) a ∙ includes-dedupe xs a

-- No entry comes again behind itself.
abbrev Fresh : List ℕ → Type 0
Fresh [] = Unit {0}
Fresh (x ∷ xs) = (includes xs x ≡ false) × Fresh xs

Fresh-select : (p : ℕ → Bool) (xs : List ℕ) → Fresh xs → Fresh (select p xs)
Fresh-select p [] f = tt
Fresh-select p (x ∷ xs) f = elim (Bool-cases (p x)) [
  | inl t ↦ rw t (ground (arith, includes-select p xs x, f.0), Fresh-select p xs f.1)
  | inr n ↦ rw n (Fresh-select p xs f.1)
]

Fresh-dedupe : (xs : List ℕ) → Fresh (dedupe xs)
Fresh-dedupe [] = tt
Fresh-dedupe (x ∷ xs) = (
  ground (arith, includes-select (λ y. not (y == x)) (dedupe xs) x, (==_iff x x).1 refl),
  Fresh-select (λ y. not (y == x)) (dedupe xs) (Fresh-dedupe xs),
)

above_insert_by :
    (z x : ℕ) (xs : List ℕ) → z < x → All (λ y. z < y) xs → All (λ y. z < y) (insert_by leb x xs)
above_insert_by z x [] h all = (h, tt)
above_insert_by z x (y ∷ ys) h all = elim (Bool-cases (leb x y)) [
  | inl t ↦ rw t (h, all)
  | inr n ↦ rw n (all.0, above_insert_by z x ys h all.1)
]

above_trans : (z x : ℕ) (xs : List ℕ) → z < x → All (λ y. x < y) xs → All (λ y. z < y) xs
above_trans z x [] h all = tt
above_trans z x (y ∷ ys) h all = (omega (arith, all.0), above_trans z x ys h all.1)

insert_by-Increasing :
    (x : ℕ) (xs : List ℕ) → includes xs x ≡ false → Increasing xs → Increasing (insert_by leb x xs)
insert_by-Increasing x [] f inc = (tt, tt)
insert_by-Increasing x (y ∷ ys) f inc = elim (Bool-cases (leb x y)) [
  | inl t ↦ let lt : x < y = ground arith in rw t ((lt, above_trans x y ys lt inc.0), inc)
  | inr n ↦
      rw n (
        above_insert_by y x ys (ground arith) inc.0,
        insert_by-Increasing x ys (ground arith) inc.1,
      )
]

sort_by-Increasing : (xs : List ℕ) → Fresh xs → Increasing (sort_by leb xs)
sort_by-Increasing [] f = tt
sort_by-Increasing (x ∷ xs) f =
    insert_by-Increasing x (sort_by leb xs) (includes-sort_by leb xs x ∙ f.0)
      (sort_by-Increasing xs f.1)

pub sorted_unique-Increasing : (xs : List ℕ) → Increasing (sorted_unique xs)
unfolding sorted_unique
sorted_unique-Increasing xs = sort_by-Increasing (dedupe xs) (Fresh-dedupe xs)

includes_above : (a : ℕ) (xs : List ℕ) → All (λ y. a < y) xs → includes xs a ≡ false
includes_above a [] all = refl
includes_above a (y ∷ ys) all = ground (arith, includes_above a ys all.1)

includes_head : (a : ℕ) (xs : List ℕ) → includes (a ∷ xs) a ≡ true
includes_head a xs = rw ((==_iff a a).1 refl)

includes_smaller :
    (a y : ℕ) (ys : List ℕ) → a < y → All (λ z. y < z) ys → includes (y ∷ ys) a ≡ false
includes_smaller a y ys h all = includes_above a (y ∷ ys) (h, above_trans a y ys h all)

least_eq :
    (x y : ℕ) (xs ys : List ℕ)
    → Increasing (x ∷ xs)
    → Increasing (y ∷ ys)
    → ((a : ℕ) → includes (x ∷ xs) a ≡ includes (y ∷ ys) a)
    → x ≡ y
least_eq x y xs ys p q h = elim (dec_lt x y) [
  | yes lt ↦
      absurd (false≢true (sym (includes_smaller x y ys lt q.0) ∙ sym (h x) ∙ includes_head x xs))
  | no ge ↦ elim (dec_lt y x) [
    | yes lt ↦ absurd (false≢true (sym (includes_smaller y x xs lt p.0) ∙ h y ∙ includes_head y ys))
    | no le ↦ omega arith
  ]
]

tail_eq :
    (x : ℕ) (xs ys : List ℕ)
    → All (λ z. x < z) xs
    → All (λ z. x < z) ys
    → ((a : ℕ) → includes (x ∷ xs) a ≡ includes (x ∷ ys) a)
    → (a : ℕ) → includes xs a ≡ includes ys a
tail_eq x xs ys p q h a = elim (Bool-cases (x == a)) [
  | inl e ↦
      let same : x ≡ a = (==_iff x a).0 e in
      subst (λ b. includes xs b ≡ includes ys b) same
        (includes_above x xs p ∙ sym (includes_above x ys q))
  | inr n ↦ ground (arith, h a)
]

-- An increasing list is given by its members.
pub Increasing-ext :
    (xs ys : List ℕ)
    → Increasing xs
    → Increasing ys
    → ((a : ℕ) → includes xs a ≡ includes ys a)
    → xs ≡ ys
Increasing-ext [] [] p q h = refl
Increasing-ext [] (y ∷ ys) p q h = absurd (false≢true (h y ∙ includes_head y ys))
Increasing-ext (x ∷ xs) [] p q h = absurd (false≢true (sym (h x) ∙ includes_head x xs))
Increasing-ext (x ∷ xs) (y ∷ ys) p q h =
    let e : x ≡ y = least_eq x y xs ys p q h in
    let above : All (λ z. x < z) ys = rw e q.0 in
    let rest =
      Increasing-ext xs ys p.1 q.1
        (tail_eq x xs ys p.0 above (λ a. h a ∙ ap (λ b. includes (b ∷ ys) a) (sym e))) in
    ap₂ ◌∷◌ e rest

-- Sorting an increasing list by another comparator, and back, changes nothing.
pub sorted_unique-sort_by :
    (first : ℕ → ℕ → Bool) (xs : List ℕ) → Increasing xs → sorted_unique (sort_by first xs) ≡ xs
sorted_unique-sort_by first xs inc =
    Increasing-ext (sorted_unique (sort_by first xs)) xs
      (sorted_unique-Increasing (sort_by first xs)) inc
      (λ a. includes-sorted_unique (sort_by first xs) a ∙ includes-sort_by first xs a)

every-includes :
    (p : ℕ → Bool) (xs : List ℕ) (a : ℕ) → every p xs ≡ true → includes xs a ≡ true → p a ≡ true
every-includes p [] a h m = cc
every-includes p (x ∷ xs) a h m = elim (Bool-cases (x == a)) [
  | inl e ↦ let same : x ≡ a = (==_iff x a).0 e in subst (λ b. p b ≡ true) same (ground arith)
  | inr n ↦ every-includes p xs a (ground arith) (ground arith)
]

-- What holds of a list holds of each list of its members.
pub every_subset :
    (p : ℕ → Bool) (xs ys : List ℕ)
    → every p ys ≡ true
    → every (λ x. includes ys x) xs ≡ true
    → every p xs ≡ true
every_subset p [] ys h m = refl
every_subset p (x ∷ xs) ys h m =
    rw (every-includes p ys x h (ground arith)) (every_subset p xs ys h (ground arith))

pub every-append :
    (p : ℕ → Bool) (xs ys : List ℕ)
    → every p xs ≡ true
    → every p ys ≡ true
    → every p (xs ++ ys) ≡ true
every-append p [] ys h k = k
every-append p (x ∷ xs) ys h k = ground (arith, every-append p xs ys)

pub every_All :
    (bound : ℕ) (xs : List ℕ) → every (λ x. leb x bound) xs ≡ true → All (λ x. x ≤ bound) xs
every_All bound [] h = tt
every_All bound (x ∷ xs) h = (ground arith, every_All bound xs (ground arith))

from_above : (a : ℕ) (ys : List ℕ) → All (λ y. a < y) ys → All (λ y. a + 1 ≤ y) ys
from_above a [] all = tt
from_above a (y ∷ ys) all = (omega (arith, all.0), from_above a ys all.1)

-- Distinct numbers up to a bound are no more than there are.
pub length-Increasing :
    (lowest bound : ℕ) (xs : List ℕ)
    → All (λ x. lowest ≤ x) xs
    → All (λ x. x ≤ bound) xs
    → Increasing xs
    → lowest ≤ bound + 1
    → lowest + length xs ≤ bound + 1
length-Increasing lowest bound [] low high inc h = omega arith
length-Increasing lowest bound (x ∷ xs) low high inc h = omega (
  arith,
  length-Increasing (x + 1) bound xs (from_above x xs inc.0) high.1 inc.1 (omega (arith, high.0)),
  low.0,
)

pub is_increasing-Increasing : (xs : List ℕ) → is_increasing xs ≡ true → Increasing xs
is_increasing-Increasing [] h = tt
is_increasing-Increasing (x ∷ []) h = (tt, tt)
is_increasing-Increasing (x ∷ y ∷ ys) h =
    let less : x < y = ground arith in
    let later = is_increasing-Increasing (y ∷ ys) (ground arith) in
    ((less, above_trans x y ys less later.0), later)
