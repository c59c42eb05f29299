-- ===== src/Campaign/Units/Groups.antt =====
-- How often a CPU occurs in the units of CPUs, in their halves, and in the list that they are made of.
use fault_affinity.Prelude.{
  ℕ, ◌+◌, ◌≤◌, ◌<◌, ◌≡◌, refl, ap, inl, inr, Bool, true, false, List, [], ◌∷◌, ◌++◌, map, All,
  length, includes, leb, ◌==◌, ==_iff, ok, bind_returns, ok_inj, Bool-cases, by_branch, arith,
}
use fault_affinity.Prelude.Sorting.{insert_by}
use fault_affinity.Prelude.Increasing.{Increasing}
use fault_affinity.Text.{Text, text_eq}
use fault_affinity.Campaign.Sysfs.{Sysfs, core_unit_key}
use fault_affinity.Campaign.Units.{
  CpuUnit, add_to_unit, key_first, ordered_units, core_units, alternate, halves,
}

abbrev one_if : Bool → ℕ
one_if true = 1
one_if false = 0

-- The occurrences of a CPU.
abbrev pub tally : ℕ → List ℕ → ℕ
tally cpu [] = 0
tally cpu (here ∷ others) = tally cpu others + one_if (here == cpu)

abbrev pub total : ℕ → List (List ℕ) → ℕ
total a [] = 0
total a (xs ∷ xss) = tally a xs + total a xss

abbrev pub unit_total : ℕ → List CpuUnit → ℕ
unit_total a [] = 0
unit_total a (unit ∷ units) = tally a unit.cpus + unit_total a units

-- A CPU is as often in two lists joined as it is in the one and in the other.
pub tally-append :
    (cpu : ℕ) (left right : List ℕ) → tally cpu left + tally cpu right ≡ tally cpu (left ++ right)
tally-append cpu [] right = omega arith
tally-append cpu (here ∷ others) right =
    (let joined = tally-append cpu others right in omega (arith, joined))

pub includes-tally : (a : ℕ) (xs : List ℕ) → includes xs a ≡ true → 1 ≤ tally a xs
includes-tally a [] h = cc
includes-tally a (x ∷ xs) h = elim (Bool-cases (x == a)) [
  | inl e ↦ rw e (omega arith)
  | inr n ↦ (let later = includes-tally a xs (ground arith) in omega (arith, later))
]

pub tally-includes : (a : ℕ) (xs : List ℕ) → 1 ≤ tally a xs → includes xs a ≡ true
tally-includes a [] h = absurd (omega arith)
tally-includes a (x ∷ xs) h = elim (Bool-cases (x == a)) [
  | inl e ↦ rw e refl
  | inr n ↦
      let found : 1 ≤ tally a xs + 0 = rw n at h in
      let less : 1 ≤ tally a xs = omega (arith, found) in rw n (tally-includes a xs less)
]

count_above : (a x : ℕ) (xs : List ℕ) → a ≤ x → All (λ y. x < y) xs → tally a xs ≡ 0
count_above a x [] h all = refl
count_above a x (y ∷ ys) h all =
    let n : (y == a) ≡ false = (let less = all.0 in ground arith) in
    rw n (omega (arith, count_above a x ys h all.1))

pub Increasing-tally : (a : ℕ) (xs : List ℕ) → Increasing xs → tally a xs ≤ 1
Increasing-tally a [] h = omega arith
Increasing-tally a (x ∷ xs) h = elim (Bool-cases (x == a)) [
  | inl e ↦
      let same : x ≡ a = (==_iff x a).0 e in
      let none_left = count_above a x xs (omega (arith, same)) h.0 in
      rw e (omega (arith, none_left))
  | inr n ↦ rw n (let later = Increasing-tally a xs h.1 in omega (arith, later))
]

pub alternate-tally :
    (a : ℕ) (xss : List (List ℕ))
    → tally a (alternate xss).0 + tally a (alternate xss).1 ≡ total a xss
alternate-tally a [] = refl
alternate-tally a (xs ∷ xss) =
    let rest = alternate xss in omega (arith, alternate-tally a xss, tally-append a xs rest.1)

add_to_unit-total :
    (a : ℕ) (key label : Text) (cpu : ℕ) (units : List CpuUnit)
    → unit_total a (add_to_unit key label cpu units) ≡ tally a (cpu ∷ []) + unit_total a units
unfolding add_to_unit
add_to_unit-total a key label cpu [] = refl
add_to_unit-total a key label cpu (unit ∷ units) =
    by_branch
      (λ (us : List CpuUnit).
        unit_total a us ≡ tally a (cpu ∷ []) + (tally a unit.cpus + unit_total a units))
      (text_eq unit.key key) (λ _. omega (arith, tally-append a unit.cpus (cpu ∷ [])))
      (λ _. omega (arith, add_to_unit-total a key label cpu units))

insert_by-total :
    (a : ℕ) (unit : CpuUnit) (units : List CpuUnit)
    → unit_total a (insert_by key_first unit units) ≡ tally a unit.cpus + unit_total a units
insert_by-total a unit [] = refl
insert_by-total a unit (next ∷ units) =
    by_branch
      (λ (us : List CpuUnit).
        unit_total a us ≡ tally a unit.cpus + (tally a next.cpus + unit_total a units))
      (key_first unit next) (λ _. refl) (λ _. omega (arith, insert_by-total a unit units))

ordered_units-total :
    (a : ℕ) (units : List CpuUnit) → unit_total a (ordered_units units) ≡ unit_total a units
ordered_units-total a [] = refl
ordered_units-total a (unit ∷ units) =
    omega (arith, insert_by-total a unit (ordered_units units), ordered_units-total a units)

map_cpus-total :
    (a : ℕ) (units : List CpuUnit)
    → total a (map (λ (unit : CpuUnit). unit.cpus) units) ≡ unit_total a units
map_cpus-total a [] = refl
map_cpus-total a (unit ∷ units) = omega (arith, map_cpus-total a units)

singles-total : (a : ℕ) (cpus : List ℕ) → total a (map (λ cpu. cpu ∷ []) cpus) ≡ tally a cpus
singles-total a [] = refl
singles-total a (cpu ∷ cpus) = omega (arith, singles-total a cpus)

pub core_units-total :
    (a : ℕ) (sysfs : Sysfs) (cpus : List ℕ) (units : List CpuUnit) {found : List CpuUnit}
    → core_units sysfs cpus units ≡ ok found
    → unit_total a found ≡ unit_total a units + tally a cpus
unfolding core_units
core_units-total a sysfs [] units h = let same = ap (unit_total a) (ok_inj h) in omega (arith, same)
core_units-total a sysfs (cpu ∷ cpus) units h =
    let (key, _, later) = bind_returns (core_unit_key sysfs cpu) _ h in
    let rest = core_units-total a sysfs cpus (add_to_unit key key cpu units) later in
    omega (arith, rest, add_to_unit-total a key key cpu units)

-- The two halves hold each CPU as often as the list does.
pub halves-tally :
    (a : ℕ) (cpus : List ℕ) (units : List CpuUnit)
    → unit_total a units ≡ tally a cpus
    → tally a (halves cpus units).0 + tally a (halves cpus units).1 ≡ tally a cpus
halves-tally a cpus units h =
    by_branch (λ (p : List ℕ × List ℕ). tally a p.0 + tally a p.1 ≡ tally a cpus)
      (leb 2 (length units))
      (λ _. omega (
        arith,
        alternate-tally a (map (λ (unit : CpuUnit). unit.cpus) (ordered_units units)),
        map_cpus-total a (ordered_units units),
        ordered_units-total a units,
        h,
      ))
      (λ _. omega (arith, alternate-tally a (map (λ cpu. cpu ∷ []) cpus), singles-total a cpus))
