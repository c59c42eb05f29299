-- ===== src/Attempt/Classify/Examples.antt =====
-- A child that exits with 139, and one that is killed by SIGSEGV.
use fault_affinity.Prelude.{◌≤◌, ◌≡◌, ◌≢◌, refl, ◌↔◌, ◌⊎◌, Bool, true, false, none, some}
use fault_affinity.Text.{Text, text_eq}
use fault_affinity.Attempt.Classify.{
  ChildStatus, sigsegv, other_workload_failure, sigsegv_name, classify_child_outcome,
  classify_individual_child_outcome_v2,
}
use fault_affinity.Attempt.Classify.Agreement.{
  RanAsLaunched, classify_individual_child_outcome_v2_valid_iff, classify_child_outcome-agrees,
}

abbrev known : Text → Bool
known signal = text_eq signal sigsegv_name

abbrev exited_139 : ChildStatus
exited_139 = record {
  exit_code = some 139;
  signal = none;
  launch_failed = false;
  canceled = false;
  secure_launch = true;
}

abbrev killed : ChildStatus
killed = record exited_139 { exit_code = none; signal = some sigsegv_name }

killed_is_sigsegv : (classify_individual_child_outcome_v2 known killed).kind ≡ sigsegv
unfolding classify_individual_child_outcome_v2
killed_is_sigsegv = refl

classify_individual_child_outcome_v2_valid_iff_example :
    ((classify_individual_child_outcome_v2 known exited_139).valid_outcome ≡ true)
    ↔ (RanAsLaunched known exited_139 × (139 ≤ 255))
classify_individual_child_outcome_v2_valid_iff_example =
    classify_individual_child_outcome_v2_valid_iff known exited_139

classify_child_outcome-agrees_example :
    ((exited_139.exit_code ≢ some 139)
      × ((classify_child_outcome exited_139).kind
          ≡ (classify_individual_child_outcome_v2 known exited_139).kind))
    ⊎ ((exited_139.exit_code ≡ some 139)
        × ((classify_child_outcome exited_139).kind ≡ sigsegv)
        × ((classify_individual_child_outcome_v2 known exited_139).kind ≡ other_workload_failure))
unfolding classify_child_outcome classify_individual_child_outcome_v2
classify_child_outcome-agrees_example = classify_child_outcome-agrees known exited_139 refl refl
