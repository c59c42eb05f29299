-- ===== src/Discovery/Plan/Lists.antt =====
-- What `cpuList` accepts and `selectedCpus` returns.
use fault_affinity.Prelude.{
  ℕ, ◌+◌, ◌≤◌, ◌≡◌, refl, subst, true, false, List, [], ◌∷◌, Option, length, every, includes, leb,
  le→leb, ◌==◌, ==_iff, All, ok, arith,
}
use fault_affinity.Prelude.Increasing.{
  is_increasing, sorted_unique, Increasing, sorted_unique-Increasing, every_All, length-Increasing,
}
use fault_affinity.Schedule.Orders.{max_cpu_id}
use fault_affinity.Discovery.Plan.{
  Topology, is_source, selected_cpus, given_or, cpu_list, same_list,
}

-- What `discoverCampaignTopology` gives: sorted distinct CPU ids.
pub record IsTopology (topology : Topology) : Type 0 where
  pub increasing : Increasing topology.usable
  pub in_range : every (λ cpu. leb cpu max_cpu_id) topology.usable ≡ true
  pub known_source : is_source topology.source ≡ true

pub is_increasing_of : (xs : List ℕ) → Increasing xs → is_increasing xs ≡ true
is_increasing_of [] inc = refl
is_increasing_of (x ∷ []) inc = refl
is_increasing_of (x ∷ y ∷ ys) inc = ground (arith, inc.0.0, is_increasing_of (y ∷ ys) inc.1)

pub same_list_refl : (xs : List ℕ) → same_list xs xs ≡ true
same_list_refl [] = refl
same_list_refl (x ∷ xs) = rw ((==_iff x x).1 refl) (same_list_refl xs)

pub cpu_list_accepts :
    (xs : List ℕ) (maximum : ℕ)
    → (length xs == 0) ≡ false
    → length xs ≤ maximum
    → every (λ cpu. leb cpu max_cpu_id) xs ≡ true
    → Increasing xs
    → cpu_list xs maximum ≡ ok tt
unfolding cpu_list
cpu_list_accepts xs maximum some_cpu few range inc =
    rw (some_cpu, le→leb (length xs) maximum few, range, is_increasing_of xs inc)

pub every-in_range :
    (xs : List ℕ)
    → every (λ cpu. leb cpu max_cpu_id) xs ≡ true
    → Increasing xs
    → length xs ≤ max_cpu_id + 1
every-in_range xs range inc =
    omega
      (arith, length-Increasing 0 max_cpu_id xs (from_zero xs) (every_All max_cpu_id xs range) inc)
  where
    from_zero : (ys : List ℕ) → All (λ y. 0 ≤ y) ys
    from_zero [] = tt
    from_zero (y ∷ ys) = (omega arith, from_zero ys)

pub record IsSelection (usable xs : List ℕ) : Type 0 where
  pub nonempty : (length xs == 0) ≡ false
  pub within : every (λ cpu. includes usable cpu) xs ≡ true
  pub increasing : Increasing xs

pub selected_cpus-IsSelection :
    (usable : List ℕ) (requested : Option (List ℕ)) (fallback xs : List ℕ)
    → selected_cpus usable requested fallback ≡ ok xs
    → IsSelection usable xs
unfolding selected_cpus
selected_cpus-IsSelection usable requested fallback xs h =
    let selected = sorted_unique (given_or requested fallback) in
    let e : selected ≡ xs = ground arith in
    record {
      nonempty = ground arith;
      within = ground arith;
      increasing = subst Increasing e (sorted_unique-Increasing (given_or requested fallback));
    }
