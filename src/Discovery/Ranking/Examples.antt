-- ===== src/Discovery/Ranking/Examples.antt =====
-- A screen of three CPUs, and the candidate that its report names.
use fault_affinity.Prelude.{ℕ, ◌≡◌, refl, ◌⊎◌, List, [], ◌∷◌, none, some, true, ◌↔◌, All}
use fault_affinity.Discovery.Ranking.{
  Row, Stats, compare_rates, compare_loaded_rows, ranks_first, strongest_candidate,
}
use fault_affinity.Discovery.Ranking.Order.{target}
use fault_affinity.Discovery.Ranking.Candidate.{
  IsStrongest, SomeIncomplete, strongest_candidate-IsStrongest, strongest_candidate-none,
}

abbrev stats : ℕ → ℕ → Stats
stats hits passes = record { target = hits; pass = passes; other = 1 }

abbrev screened : ℕ → Stats → Row
screened cpu loaded = record {
  cpu = cpu;
  controller_cpu = 9;
  is_complete = true;
  without_load = stats 0 6;
  with_load = loaded;
  after_recovery = stats 1 5;
  bundle = [];
}

-- 2 of 6, 3 of 5 and none of 6.
abbrev rows : List Row
rows = screened 0 (stats 2 4) ∷ screened 4 (stats 3 2) ∷ screened 2 (stats 0 6) ∷ []

named : strongest_candidate rows ≡ some (screened 4 (stats 3 2))
unfolding strongest_candidate ranks_first compare_loaded_rows compare_rates
named = refl

strongest_candidate-IsStrongest_example : IsStrongest rows (screened 4 (stats 3 2))
strongest_candidate-IsStrongest_example = strongest_candidate-IsStrongest rows named

abbrev quiet_rows : List Row
quiet_rows = screened 0 (stats 0 4) ∷ screened 4 (stats 0 2) ∷ []

strongest_candidate-none_example :
    (strongest_candidate quiet_rows ≡ none)
    ↔ (SomeIncomplete quiet_rows ⊎ All (λ row. target row ≡ 0) quiet_rows)
strongest_candidate-none_example = strongest_candidate-none quiet_rows
