-- ===== src/CpuList/Runs.antt =====
-- The runs of `compressCpuList`, and the inner loop of `expandCpuList` on a run.
use mathlib.Core.List.{Nodup, Nodup-cons, perm_middle, mem-append, append_assoc, append-nil}
use mathlib.Core.List.Perm
use mathlib.Core.Logic.Or
use fault_affinity.Prelude.{
  ℕ, zero, suc, ◌+◌, ◌-◌, ◌≤◌, ◌≡◌, refl, sym, ap, ◌∙◌, subst, inl, inr, false, List, [], ◌∷◌, ◌++◌,
  length, All, includes, ◌==◌, ==_iff, Bool-cases, ok, arith,
}
use fault_affinity.Schedule.Orders.{max_cpu_id}
use fault_affinity.Schedule.Orders.Validity.{Mem-of_includes}
use fault_affinity.CpuList.{push_range, runs_from}

abbrev pub upto : ℕ → ℕ → List ℕ
upto zero cpu = []
upto (suc rounds) cpu = cpu ∷ upto rounds (cpu + 1)

abbrev pub run_cpus : List (ℕ × ℕ) → List ℕ
run_cpus [] = []
run_cpus ((first, last) ∷ rest) = upto (suc last - first) first ++ run_cpus rest

upto_snoc : (n cpu : ℕ) → upto (suc n) cpu ≡ upto n cpu ++ (cpu + n) ∷ []
upto_snoc zero cpu = ap (λ c. c ∷ []) (omega arith)
upto_snoc (suc n) cpu =
    ap (◌∷◌ cpu) (upto_snoc n (cpu + 1) ∙ ap (λ c. upto n (cpu + 1) ++ c ∷ []) (omega arith))

pub length-upto : (n cpu : ℕ) → length (upto n cpu) ≡ n
length-upto zero cpu = refl
length-upto (suc n) cpu = ap suc (length-upto n (cpu + 1))

extend_run :
    (first last : ℕ)
    → first ≤ last
    → upto (suc (last + 1) - first) first ≡ upto (suc last - first) first ++ (last + 1) ∷ []
extend_run first last h =
    let e : suc (last + 1) - first ≡ suc (suc last - first) = omega arith in
    rw e (
      upto_snoc (suc last - first) first
      ∙ ap (λ c. upto (suc last - first) first ++ c ∷ []) (omega arith))

pub one_run : (cpu : ℕ) → upto (suc cpu - cpu) cpu ≡ cpu ∷ []
one_run cpu = let e : suc cpu - cpu ≡ 1 = omega arith in rw e

-- The runs, written out, are the CPUs again.
pub run_cpus-runs_from :
    (first last : ℕ) (cpus : List ℕ)
    → first ≤ last
    → run_cpus (runs_from first last cpus) ≡ upto (suc last - first) first ++ cpus
unfolding runs_from
run_cpus-runs_from first last [] h = refl
run_cpus-runs_from first last (cpu ∷ cpus) h = elim (Bool-cases (cpu == last + 1)) [
  | inl joins ↦
      let e : cpu ≡ last + 1 = (==_iff cpu (last + 1)).0 joins in
      rw joins (
        run_cpus-runs_from first cpu cpus (omega arith)
        ∙ ap (λ c. upto (suc c - first) first ++ cpus) e
        ∙ ap (λ r. r ++ cpus) (extend_run first last h)
        ∙ append_assoc (upto (suc last - first) first) ((last + 1) ∷ []) cpus
        ∙ ap (λ c. upto (suc last - first) first ++ c ∷ cpus) (sym e))
  | inr apart ↦ rw apart (
      ap (◌++◌ (upto (suc last - first) first))
        (run_cpus-runs_from cpu cpu cpus (omega arith) ∙ ap (λ r. r ++ cpus) (one_run cpu)))
]

abbrev pub IsRun : ℕ × ℕ → Type 0
IsRun (first, last) = (first ≤ last) × (last ≤ max_cpu_id)

pub runs_from-IsRun :
    (first last : ℕ) (cpus : List ℕ)
    → first ≤ last
    → last ≤ max_cpu_id
    → All (λ cpu. cpu ≤ max_cpu_id) cpus
    → All IsRun (runs_from first last cpus)
unfolding runs_from
runs_from-IsRun first last [] h k all = ((h, k), tt)
runs_from-IsRun first last (cpu ∷ cpus) h k all = elim (Bool-cases (cpu == last + 1)) [
  | inl joins ↦ rw joins (runs_from-IsRun first cpu cpus (ground arith) all.0 all.1)
  | inr apart ↦ rw apart ((h, k), runs_from-IsRun cpu cpu cpus (omega arith) all.0 all.1)
]

fresh_of_Nodup : (xs : List ℕ) (a : ℕ) (ys : List ℕ) → Nodup (xs ++ a ∷ ys) → includes xs a ≡ false
fresh_of_Nodup xs a ys nodup = elim (Bool-cases (includes xs a)) [
  | inl held ↦ absurd (
      (Nodup-cons.0 (Perm.nodup (perm_middle xs ys) nodup)).0
        (mem-append.1 (Or.inl (Mem-of_includes xs a held))))
  | inr fresh ↦ fresh
]

-- Pushing a run that repeats nothing appends it.
pub push_range_fresh :
    (rounds cpu : ℕ) (cpus rest : List ℕ)
    → Nodup (cpus ++ (upto rounds cpu ++ rest))
    → push_range rounds cpu cpus ≡ ok (cpus ++ upto rounds cpu)
unfolding push_range
push_range_fresh zero cpu cpus rest nodup = ap ok (sym (append-nil cpus))
push_range_fresh (suc rounds) cpu cpus rest nodup =
    let later =
      push_range_fresh rounds (cpu + 1) (cpus ++ cpu ∷ []) rest
        (subst Nodup (sym (append_assoc cpus (cpu ∷ []) (upto rounds (cpu + 1) ++ rest))) nodup) in
    rw (fresh_of_Nodup cpus cpu (upto rounds (cpu + 1) ++ rest) nodup)
      (later ∙ ap ok (append_assoc cpus (cpu ∷ []) (upto rounds (cpu + 1))))
