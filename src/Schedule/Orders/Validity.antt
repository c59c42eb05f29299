-- ===== src/Schedule/Orders/Validity.antt =====
-- The lists that `validateCpuArray` accepts.
use mathlib.Core.List.{Nodup, Mem, Nodup-cons, Nodup-nil, mem-cons, not-mem-nil}
use mathlib.Core.Logic.Or
use mathlib.Core.Bool.{Bool-set}
use fault_affinity.Prelude.{
  ℕ, ◌+◌, ◌≤◌, ◌<◌, ◌≡◌, refl, sym, inl, inr, true, false, List, [], ◌∷◌, length, All, every,
  includes, leb, le→leb, ◌==◌, ==_iff, Bool-cases, ok, arith,
}
use fault_affinity.Schedule.Orders.{max_cpu_id, all_distinct, validate_cpu_array}

pub record IsCpuArray (cpus : List ℕ) : Type 0 where
  pub nonempty : 0 < length cpus
  pub bounded : length cpus ≤ max_cpu_id + 1
  pub in_range : All (λ cpu. cpu ≤ max_cpu_id) cpus
  pub distinct : Nodup cpus

pub includes-of_Mem : (xs : List ℕ) (a : ℕ) → Mem a xs → includes xs a ≡ true
includes-of_Mem [] a m = absurd (not-mem-nil m)
includes-of_Mem (x ∷ xs) a m =
    Or.elim (Bool-set (includes (x ∷ xs) a) true) (mem-cons.0 m) (λ e. ground (arith, e))
      (λ r. ground (arith, includes-of_Mem xs a r))

pub Mem-of_includes : (xs : List ℕ) (a : ℕ) → includes xs a ≡ true → Mem a xs
Mem-of_includes [] a h = cc
Mem-of_includes (x ∷ xs) a h = elim (Bool-cases (x == a)) [
  | inl e ↦ mem-cons.1 (Or.inl (sym ((==_iff x a).0 e)))
  | inr n ↦ mem-cons.1 (Or.inr (Mem-of_includes xs a (ground arith)))
]

false_of_not-Mem : (xs : List ℕ) (a : ℕ) → ¬ Mem a xs → includes xs a ≡ false
false_of_not-Mem xs a h = elim (Bool-cases (includes xs a)) [
  | inl t ↦ absurd (h (Mem-of_includes xs a t))
  | inr f ↦ f
]

not-Mem_of_false : (xs : List ℕ) (a : ℕ) → includes xs a ≡ false → ¬ Mem a xs
not-Mem_of_false xs a h m = cc (includes-of_Mem xs a m)

pub all_distinct-Nodup : (xs : List ℕ) → all_distinct xs ≡ true → Nodup xs
all_distinct-Nodup [] h = Nodup-nil
all_distinct-Nodup (x ∷ xs) h =
    Nodup-cons.1 (not-Mem_of_false xs x (ground arith), all_distinct-Nodup xs (ground arith))

pub Nodup-all_distinct : (xs : List ℕ) → Nodup xs → all_distinct xs ≡ true
Nodup-all_distinct [] h = refl
Nodup-all_distinct (x ∷ xs) h =
    let (fresh, later) = Nodup-cons.0 h in
    rw (false_of_not-Mem xs x fresh, Nodup-all_distinct xs later)

every-All :
    (xs : List ℕ) → every (λ cpu. leb cpu max_cpu_id) xs ≡ true → All (λ cpu. cpu ≤ max_cpu_id) xs
every-All [] h = tt
every-All (x ∷ xs) h = (ground arith, every-All xs (ground arith))

pub All-every :
    (xs : List ℕ) → All (λ cpu. cpu ≤ max_cpu_id) xs → every (λ cpu. leb cpu max_cpu_id) xs ≡ true
All-every [] h = refl
All-every (x ∷ xs) h = rw (le→leb x max_cpu_id h.0) (All-every xs h.1)

pub validate_cpu_array_accepts :
    (cpus : List ℕ) → IsCpuArray cpus → validate_cpu_array cpus ≡ ok cpus
unfolding validate_cpu_array
validate_cpu_array_accepts cpus v =
    ground (arith, All-every cpus v.in_range, Nodup-all_distinct cpus v.distinct)

pub validate_cpu_array_sound :
    (cpus items : List ℕ) → validate_cpu_array cpus ≡ ok items → (items ≡ cpus) × IsCpuArray cpus
unfolding validate_cpu_array
validate_cpu_array_sound cpus items h = (
  ground arith,
  record {
    nonempty = ground arith;
    bounded = ground arith;
    in_range = every-All cpus (ground arith);
    distinct = all_distinct-Nodup cpus (ground arith);
  },
)
