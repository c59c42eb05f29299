-- ===== src/Discovery/Ranking.antt =====
-- `outcomeStats`, `compareLoadedRows` and the choice of the strongest candidate in
-- `buildLoadedDiscoveryReport` of src/fault-affinity/loaded-discovery.mjs.
pub mod Order
pub mod Candidate
mod Examples
use fault_affinity.Prelude.{
  ℕ, suc, ◌+◌, ◌*◌, Bool, true, false, List, [], ◌∷◌, map, Option, none, some, every, select, ltb,
  leb, ◌==◌, if◌then◌else◌, not, ◌&&◌,
}
use fault_affinity.Prelude.Sorting.{sort_by}
use fault_affinity.Text.{Text}

-- `evidence?.outcome?.category`: `other` is any further category, or none.
pub data Category : Type 0 where
  target_fault corruption pass other : Category

pub record Stats : Type 0 where
  pub target : ℕ
  pub pass : ℕ
  pub other : ℕ

-- `resolved`; the rate is `target / resolved`, and null where this is 0.
abbrev pub resolved : Stats → ℕ
resolved stats = stats.target + stats.pass

abbrev pub add_outcome : Category → Stats → Stats
add_outcome target_fault stats = record stats { target = stats.target + 1 }
add_outcome corruption stats = record stats { target = stats.target + 1 }
add_outcome pass stats = record stats { pass = stats.pass + 1 }
add_outcome other stats = record stats { other = stats.other + 1 }

pub count_outcomes : List Category → Stats → Stats
count_outcomes [] stats = stats
count_outcomes (category ∷ rest) stats = count_outcomes rest (add_outcome category stats)

unfoldable pub outcome_stats : List Category → Stats
unfolding count_outcomes
outcome_stats evidences = count_outcomes evidences (record { target = 0; pass = 0; other = 0 })

pub record Row : Type 0 where
  pub cpu : ℕ
  pub controller_cpu : ℕ
  pub is_complete : Bool
  pub without_load : Stats
  pub with_load : Stats
  pub after_recovery : Stats
  pub bundle : Text

-- The sign of a comparator's result.
pub data Verdict : Type 0 where
  left_first equal right_first : Verdict

-- `a - b` as a comparator's result.
abbrev pub ascending : ℕ → ℕ → Verdict
ascending a b = if ltb a b then left_first else if ltb b a then right_first else equal

-- `first || second`
abbrev pub or_else : Verdict → Verdict → Verdict
or_else equal second = second
or_else first second = first

unfoldable pub compare_rates : Row → Row → Verdict
compare_rates left right =
    let left_product = left.with_load.target * resolved right.with_load in
    let right_product = right.with_load.target * resolved left.with_load in
    if left_product == right_product
    then or_else (ascending right.with_load.target left.with_load.target) (
        or_else (ascending (resolved right.with_load) (resolved left.with_load))
          (ascending left.cpu right.cpu))
    else if ltb right_product left_product
    then left_first
    else right_first

unfoldable pub compare_loaded_rows : Row → Row → Verdict
unfolding compare_rates
compare_loaded_rows left right =
    if resolved left.with_load == 0
    then if resolved right.with_load == 0 then ascending left.cpu right.cpu else right_first
    else if resolved right.with_load == 0
    then left_first
    else compare_rates left right

abbrev pub not_behind : Verdict → Bool
not_behind right_first = false
not_behind _ = true

-- The comparator as `sort` reads it.
unfoldable pub ranks_first : Row → Row → Bool
unfolding compare_loaded_rows
ranks_first left right = not_behind (compare_loaded_rows left right)

abbrev pub is_affected : Row → Bool
is_affected row = ltb 0 row.with_load.target

abbrev pub affected_rows : List Row → List Row
affected_rows rows = sort_by ranks_first (select is_affected rows)

abbrev pub all_complete : List Row → Bool
all_complete rows = every (λ row. row.is_complete) rows

-- `strongestCandidate`, as the row that it names.
abbrev pub first_row : Bool → List Row → Option Row
first_row true (row ∷ _) = some row
first_row _ _ = none

unfoldable pub strongest_candidate : List Row → Option Row
strongest_candidate rows = first_row (all_complete rows) (affected_rows rows)
