-- ===== src/Attempt/Classify.antt =====
-- `classifyChildOutcome` and `classifyIndividualChildOutcomeV2` of diagnose-lib/pinned-runner.mjs.
-- `known_signal` is membership in KNOWN_SIGNALS, the names of `os.constants.signals`.
pub mod Agreement
mod Examples
use fault_affinity.Prelude.{
  ℕ, Bool, true, false, Option, none, some, leb, ◌==◌, if◌then◌else◌, not, ◌&&◌, ◌||◌,
}
use fault_affinity.Text.{Text, text_eq, codes}

pub data Kind : Type 0 where
  pass sigsegv invalid operational_invalid other_workload_failure : Kind

pub data InvalidReason : Type 0 where
  canceled_run launch_error unverified_launch malformed_exit_status : InvalidReason
  unexpected_signal unexpected_exit missing_exit_status : InvalidReason

pub record Classified : Type 0 where
  pub kind : Kind
  pub valid_outcome : Bool
  pub invalid_reason : Option InvalidReason

-- `exitCode` and `signal` are null or a value, and `launch_failed` is `launchError !== null`.
pub record ChildStatus : Type 0 where
  pub exit_code : Option ℕ
  pub signal : Option Text
  pub launch_failed : Bool
  pub canceled : Bool
  pub secure_launch : Bool

abbrev pub refused : Kind → InvalidReason → Classified
refused kind reason = record { kind = kind; valid_outcome = false; invalid_reason = some reason }

abbrev pub valid : Kind → Classified
valid kind = record { kind = kind; valid_outcome = true; invalid_reason = none }

abbrev pub sigsegv_name : Text
sigsegv_name = codes "SIGSEGV"

abbrev pub classify_exit : Option ℕ → Option Text → Classified
classify_exit none none = refused invalid missing_exit_status
classify_exit (some code) none =
    if code == 0
    then valid pass
    else if code == 139
    then valid sigsegv
    else refused invalid unexpected_exit
classify_exit none (some signal) =
    if text_eq signal sigsegv_name then valid sigsegv else refused invalid unexpected_signal
classify_exit (some code) (some signal) = refused invalid unexpected_signal

unfoldable pub classify_child_outcome : ChildStatus → Classified
classify_child_outcome status =
    if status.canceled
    then refused invalid canceled_run
    else if status.launch_failed
    then refused invalid launch_error
    else classify_exit status.exit_code status.signal

module _ (known_signal : Text → Bool) where
  abbrev pub is_canonical_code : Option ℕ → Bool
  is_canonical_code none = true
  is_canonical_code (some code) = leb code 255

  abbrev pub is_canonical_signal : Option Text → Bool
  is_canonical_signal none = true
  is_canonical_signal (some signal) = known_signal signal

  -- Exactly one of the two is null.
  abbrev pub is_one_status : Option ℕ → Option Text → Bool
  is_one_status none none = false
  is_one_status (some code) none = true
  is_one_status none (some signal) = true
  is_one_status (some code) (some signal) = false

  abbrev pub classify_status : Option ℕ → Option Text → Classified
  classify_status (some code) signal =
      if code == 0 then valid pass else valid other_workload_failure
  classify_status none (some signal) =
      if text_eq signal sigsegv_name then valid sigsegv else valid other_workload_failure
  classify_status none none = valid other_workload_failure

  unfoldable pub classify_individual_child_outcome_v2 : ChildStatus → Classified
  classify_individual_child_outcome_v2 status =
      if status.canceled
      then refused operational_invalid canceled_run
      else if status.launch_failed || not status.secure_launch
      then refused operational_invalid
          (if status.launch_failed then launch_error else unverified_launch)
      else if is_canonical_code status.exit_code
          && (is_canonical_signal status.signal && is_one_status status.exit_code status.signal)
      then classify_status status.exit_code status.signal
      else refused operational_invalid malformed_exit_status
