-- ===== src/Load/Managed.antt =====
-- The result of a managed workload: `parseManagedWorkloadResult` of
-- diagnose-lib/managed-workload-result.mjs. The evidence that it builds of the result's lifecycle is
-- diagnose-lib/attempt-evidence.mjs's, which stands here as a test.
use fault_affinity.Prelude.{
  ℕ, Bool, true, false, Option, none, some, ◌==◌, not, ◌&&◌, ◌||◌, Outcome, ok, ◌>>◌, require,
}
use fault_affinity.Text.{Text, text_eq, codes, is_error_code}

pub record ProcessIdentity : Type 0 where
  pub pid : ℕ
  pub start_ticks : Text

pub record ExecutionAffinity : Type 0 where
  pub requested_cpu : ℕ
  pub supervisor_allowed_cpu_list : Text
  pub workload_allowed_cpu_list : Text

-- The fields that the code reads; `rest` is all else that the lifecycle evidence is built of.
pub record ManagedResult (Lifecycle : Type 0) : Type 0 where
  pub version : ℕ
  pub workload_digest : Text
  pub output_mode : Text
  pub is_reported : Bool
  pub readiness_error : Option Text
  pub cpu_affinity : Option ExecutionAffinity
  pub supervisor : Option ProcessIdentity
  pub workload : Option ProcessIdentity
  pub workload_started_ns : Option Text
  pub cleanup_finished_ns : Text
  pub terminal_reason : Text
  pub is_cleanup_complete : Bool
  pub is_group_drained : Bool
  pub is_output_drained : Bool
  pub rest : Lifecycle

pub data ManagedError : Type 0 where
  bad_result_version other_digest bad_output_mode bad_lifecycle bad_readiness : ManagedError
  reported_error unbound_readiness uncanceled_error : ManagedError

abbrev pub managed_result_version : ℕ
managed_result_version = 1

abbrev pub discard : Text
discard = codes "discard"

abbrev pub external_cancel : Text
external_cancel = codes "external-cancel"

abbrev pub is_present {ℓ} : {A : Type ℓ} → Option A → Bool
is_present none = false
is_present (some value) = true

abbrev pub is_code_or_null : Option Text → Bool
is_code_or_null none = true
is_code_or_null (some code) = is_error_code code

module _ {Lifecycle : Type 0} where
  unfoldable pub validate_readiness : ManagedResult Lifecycle → Outcome ManagedError (Unit {0})
  validate_readiness value = do
    require (is_code_or_null value.readiness_error) bad_readiness
    require (not value.is_reported || not (is_present value.readiness_error)) reported_error
    require
        (not value.is_reported
          || (is_present value.supervisor
              && (is_present value.workload && is_present value.workload_started_ns)))
        unbound_readiness
    require
        (not (is_present value.readiness_error) || text_eq value.terminal_reason external_cancel)
        uncanceled_error

  -- `builds` tells whether `buildAttemptEvidence` accepts the lifecycle.
  unfoldable pub parse_managed_result :
      (ManagedResult Lifecycle → Bool)
      → Text
      → ManagedResult Lifecycle
      → Outcome ManagedError (ManagedResult Lifecycle)
  parse_managed_result builds digest value = do
    require (value.version == managed_result_version) bad_result_version
    require (text_eq value.workload_digest digest) other_digest
    require (text_eq value.output_mode discard) bad_output_mode
    require (builds value) bad_lifecycle
    validate_readiness value
    ok value

  -- `validStop`
  abbrev pub is_valid_stop : ManagedResult Lifecycle → Bool
  is_valid_stop result =
      result.is_reported
      && (not (is_present result.readiness_error)
          && (text_eq result.terminal_reason external_cancel
              && (result.is_cleanup_complete
                  && (result.is_group_drained && result.is_output_drained))))
