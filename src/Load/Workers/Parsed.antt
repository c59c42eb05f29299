-- ===== src/Load/Workers/Parsed.antt =====
-- The parsers of a worker set's records return what they were given.
use fault_affinity.Prelude.{
  ◌≡◌, Bool, length, leb, ◌==◌, ok, require, present, bind_returns, then_returns, ok_inj,
}
use fault_affinity.Text.{text_eq}
use fault_affinity.ExactCpu.Phase.{same_workload}
use fault_affinity.Load.Managed.{ManagedResult, discard, is_code_or_null}
use fault_affinity.Load.Workers.{
  ResolvedLoad, StartEvidence, BoundaryEvidence, StopEvidence, bad_version, other_workload,
  bad_taskset, bad_output, bad_cpus, bad_time, bad_workers, bad_boundary_id, early_boundary,
  other_identity, bad_status, early_stop, bad_summary, worker_set_version, load_binding,
  bounded_decimal, is_worker_cpu_list, is_taskset_path, is_boundary_id, check_start_workers,
  parse_start, check_pairs, is_boundary_worker, parse_boundary,
}
use fault_affinity.Load.Stopping.{check_stopped_workers, has_record_failure, is_summary, parse_stop}

pub parse_start-same :
    (resolved : ResolvedLoad) (value : StartEvidence) {found : StartEvidence}
    → parse_start resolved value ≡ ok found
    → value ≡ found
unfolding parse_start
parse_start-same resolved value h =
    let (_, h₁) = then_returns (require (value.version == worker_set_version) bad_version) _ h in
    let (_, h₂) =
      then_returns (require (same_workload value.workload (load_binding resolved)) other_workload) _
        h₁ in
    let (_, h₃) = then_returns (require (is_taskset_path value.taskset_path) bad_taskset) _ h₂ in
    let (_, h₄) = then_returns (require (text_eq value.output_mode discard) bad_output) _ h₃ in
    let (_, h₅) = then_returns (require (is_worker_cpu_list value.cpus) bad_cpus) _ h₄ in
    let (ready, _, h₆) =
      bind_returns (present (bounded_decimal value.ready_monotonic_ns) bad_time) _ h₅ in
    let (_, h₇) =
      then_returns (require (length value.workers == length value.cpus) bad_workers) _ h₆ in
    let (_, last) = then_returns (check_start_workers ready value.cpus value.workers) _ h₇ in
    ok_inj last

pub parse_boundary-same :
    (resolved : ResolvedLoad) (start : StartEvidence) (value : BoundaryEvidence)
    {found : BoundaryEvidence}
    → parse_boundary resolved start value ≡ ok found
    → value ≡ found
unfolding parse_boundary
parse_boundary-same resolved start value h =
    let (_, h₁) = then_returns (require (value.version == worker_set_version) bad_version) _ h in
    let (own, _, h₂) = bind_returns (parse_start resolved start) _ h₁ in
    let (_, h₃) = then_returns (require (is_boundary_id value.boundary) bad_boundary_id) _ h₂ in
    let (now, _, h₄) = bind_returns (present (bounded_decimal value.monotonic_ns) bad_time) _ h₃ in
    let (ready, _, h₅) =
      bind_returns (present (bounded_decimal own.ready_monotonic_ns) bad_time) _ h₄ in
    let (_, h₆) = then_returns (require (leb ready now) early_boundary) _ h₅ in
    let (_, h₇) =
      then_returns (require (length value.workers == length own.workers) bad_workers) _ h₆ in
    let (_, last) =
      then_returns
        (require (check_pairs is_boundary_worker own.workers value.workers) other_identity) _ h₇ in
    ok_inj last

module _ {Lifecycle : Type 0} (builds : ManagedResult Lifecycle → Bool)
    (resolved : ResolvedLoad) where
  -- What a parsed stop evidence says of its own summary.
  pub parse_stop-same :
      (start : StartEvidence) (value : StopEvidence Lifecycle) {found : StopEvidence Lifecycle}
      → parse_stop builds resolved start value ≡ ok found
      → value ≡ found
  unfolding parse_stop
  parse_stop-same start value h =
      let (own, _, h₁) = bind_returns (parse_start resolved start) _ h in
      let (_, h₂) = then_returns (require (value.version == worker_set_version) bad_version) _ h₁ in
      let (_, h₃) = then_returns (require (is_boundary_id value.reason) bad_boundary_id) _ h₂ in
      let (_, h₄) = then_returns (require (is_code_or_null value.failure_code) bad_status) _ h₃ in
      let (stopped, _, h₅) =
        bind_returns (present (bounded_decimal value.stopped_monotonic_ns) bad_time) _ h₄ in
      let (ready, _, h₆) =
        bind_returns (present (bounded_decimal own.ready_monotonic_ns) bad_time) _ h₅ in
      let (_, h₇) = then_returns (require (leb ready stopped) early_stop) _ h₆ in
      let (_, h₈) =
        then_returns (require (length value.workers == length own.workers) bad_workers) _ h₇ in
      let (_, h₉) =
        then_returns (check_stopped_workers builds resolved stopped own.workers value.workers) _
          h₈ in
      let (_, last) =
        then_returns
          (require (is_summary value.valid value.failure_code (has_record_failure value.workers))
            bad_summary)
          _ h₉ in
      ok_inj last
