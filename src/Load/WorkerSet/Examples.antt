-- ===== src/Load/WorkerSet/Examples.antt =====
-- A worker set of one worker on CPU 3, which starts, runs, is verified and is stopped.
use fault_affinity.Prelude.{
  ℕ, ◌==◌, if◌then◌else◌, ap, ◌∙◌, some_inj, ◌≡◌, refl, Bool, true, false, [], ◌∷◌, All, Option,
  none, some, ok, arith,
}
use fault_affinity.Text.{Text, codes, decimal, replicate_char, parse_decimal}
use fault_affinity.Load.Managed.{ManagedResult, discard, external_cancel}
use fault_affinity.Load.Workers.{
  ResolvedLoad, Readiness, StartEvidence, BoundaryEvidence, StopEvidence, bounded_decimal,
  is_worker_cpu_list, is_taskset_path, is_witness, load_binding, is_boundary_worker,
  check_start_workers, parse_start, parse_boundary,
}
use fault_affinity.Load.WorkerSet.{
  running, was_ready, WorkerSet, LiveIdentity, Host, is_set_running, new_set, start_set,
  start_record, worker_cpus, on_first_settled,
}
use fault_affinity.Load.WorkerSet.Methods.{current_witness, current_witnesses, verify, stop}
use fault_affinity.Load.WorkerSet.Steps.{
  worker_started, first_settled, set_step, Reachable, at_start, after,
}
use fault_affinity.Load.WorkerSet.Invariant.{IsSound}
use fault_affinity.Load.WorkerSet.Guarantee.{Reachable-IsSound}
use fault_affinity.Load.WorkerSet.Verified.{StillRuns, verify_sound}
use fault_affinity.Load.WorkerSet.Started.{IsBefore, on_first_settled_starts}

abbrev Set : Type 0
Set = WorkerSet ℕ

abbrev resolved : ResolvedLoad
resolved = record {
  version = 1;
  id = codes "load";
  digest = replicate_char 64 b'a';
  survives_window = true;
}

abbrev path : Text
path = codes "/usr/bin/taskset"

abbrev builds : ManagedResult ℕ → Bool
builds result = true

abbrev witness : Readiness
witness = record {
  monotonic_ns = codes "100";
  supervisor = record {
    pid = 40;
    process_group_id = 40;
    session_id = 40;
    start_ticks = codes "7";
    allowed_cpu_list = codes "3";
  };
  workload = record { pid = 41; start_ticks = codes "8"; allowed_cpu_list = codes "3" };
}

abbrev ready_set : Set
ready_set = record (new_set (3 ∷ []) true) {
  workers =
      (record {
        cpu = 3;
        aborted = false;
        readiness = some witness;
        first = some was_ready;
        completion = none;
      })
      ∷ [];
}

abbrev initial : Set
initial = new_set (3 ∷ []) true

initial_started : start_set resolved (3 ∷ []) path true ≡ ok initial
unfolding start_set is_worker_cpu_list is_taskset_path
initial_started = refl

started_worker : set_step builds resolved path (worker_started 0 witness) initial ≡ ready_set
unfolding is_witness bounded_decimal parse_decimal decimal
started_worker = refl

abbrev start : StartEvidence
start = record {
  version = 1;
  workload = load_binding resolved;
  taskset_path = path;
  output_mode = discard;
  cpus = 3 ∷ [];
  ready_monotonic_ns = codes "150";
  workers = (record { cpu = 3; readiness = witness }) ∷ [];
}

abbrev running_set : Set
running_set = record ready_set { state = running; start_result = some (ok start) }

started_set : on_first_settled resolved path 150 ready_set ≡ running_set
unfolding on_first_settled parse_start check_start_workers is_witness is_worker_cpu_list
    is_taskset_path bounded_decimal parse_decimal decimal
started_set = refl

ready-Reachable : Reachable builds resolved path (3 ∷ []) true ready_set
unfolding is_witness bounded_decimal parse_decimal decimal
ready-Reachable = after (worker_started 0 witness) at_start tt

running-Reachable : Reachable builds resolved path (3 ∷ []) true running_set
unfolding on_first_settled parse_start check_start_workers is_witness is_worker_cpu_list
    is_taskset_path bounded_decimal parse_decimal decimal
running-Reachable = after (first_settled 150) ready-Reachable (refl, refl, refl)

Reachable-IsSound_example : IsSound (3 ∷ []) running_set
Reachable-IsSound_example =
    Reachable-IsSound builds resolved path (3 ∷ []) running_set running-Reachable

clock : bounded_decimal (decimal 150) ≡ some 150
unfolding bounded_decimal parse_decimal decimal
clock = refl

in_time : IsBefore {Lifecycle = ℕ} 150 (record {
  cpu = 3;
  aborted = false;
  readiness = some witness;
  first = some was_ready;
  completion = none;
})
unfolding bounded_decimal parse_decimal
in_time r t own shown =
    let same : some 100 ≡ some t =
      ap (λ (w : Readiness). bounded_decimal w.monotonic_ns) (some_inj own) ∙ shown in
    let time : 100 ≡ t = some_inj same in omega (arith, time)

on_first_settled_starts_example :
    ((on_first_settled resolved path 150 ready_set).state ≡ running)
    × ((on_first_settled resolved path 150 ready_set).start_result
        ≡ some (ok (start_record resolved path 150 ready_set)))
    × (worker_cpus ready_set.workers ≡ 3 ∷ [])
on_first_settled_starts_example =
    on_first_settled_starts builds resolved path (3 ∷ []) true 150 ready_set initial initial_started
      ready-Reachable refl refl clock (in_time, tt)

abbrev identity : ℕ → Text → LiveIdentity
identity pid ticks = record {
  live = true;
  pid = pid;
  start_ticks = ticks;
  process_group_id = 40;
  session_id = 40;
}

abbrev read_identity : ℕ → Option LiveIdentity
read_identity pid =
    if pid == 40
    then some (identity 40 (codes "7"))
    else if pid == 41
    then some (identity 41 (codes "8"))
    else none

abbrev host : Host
host = record { read_identity = read_identity; read_allowed_cpu_list = λ pid. some (codes "3") }

abbrev boundary : BoundaryEvidence
boundary = record {
  version = 1;
  boundary = codes "before-b";
  monotonic_ns = codes "160";
  workers =
      (record {
        cpu = 3;
        supervisor = record { pid = 40; start_ticks = codes "7"; allowed_cpu_list = codes "3" };
        workload = record { pid = 41; start_ticks = codes "8"; allowed_cpu_list = codes "3" };
      })
      ∷ [];
}

verified :
    verify resolved start (codes "before-b") 160 host running_set ≡ (ok boundary, running_set)
unfolding verify current_witnesses current_witness parse_boundary is_boundary_worker parse_start
    check_start_workers is_witness is_worker_cpu_list is_taskset_path bounded_decimal parse_decimal
    decimal
verified = refl

verify_sound_example :
    (is_set_running running_set.state ≡ true)
    × All (StillRuns host) running_set.workers
    × (boundary.boundary ≡ codes "before-b")
    × (parse_boundary resolved start boundary ≡ ok boundary)
    × (running_set ≡ running_set)
verify_sound_example =
    verify_sound host resolved start (codes "before-b") 160 running_set running_set verified

abbrev result : ManagedResult ℕ
result = record {
  version = 1;
  workload_digest = replicate_char 64 b'a';
  output_mode = discard;
  is_reported = true;
  readiness_error = none;
  cpu_affinity = some (record {
    requested_cpu = 3;
    supervisor_allowed_cpu_list = codes "3";
    workload_allowed_cpu_list = codes "3";
  });
  supervisor = some (record { pid = 40; start_ticks = codes "7" });
  workload = some (record { pid = 41; start_ticks = codes "8" });
  workload_started_ns = some (codes "100");
  cleanup_finished_ns = codes "190";
  terminal_reason = external_cancel;
  is_cleanup_complete = true;
  is_group_drained = true;
  is_output_drained = true;
  rest = 0;
}

abbrev ended_set : Set
ended_set = record (stop (codes "complete") running_set) {
  workers =
      (record {
        cpu = 3;
        aborted = true;
        readiness = some witness;
        first = some was_ready;
        completion = some (ok result);
      })
      ∷ [];
}

abbrev evidence : StopEvidence ℕ
evidence = record {
  version = 1;
  reason = codes "complete";
  valid = true;
  failure_code = none;
  stopped_monotonic_ns = codes "200";
  workers = (record { cpu = 3; error_code = none; result = some result }) ∷ [];
}
