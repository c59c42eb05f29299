-- ===== src/Load/WorkerSet/Verified.antt =====
-- What a snapshot of a worker set that is verified shows.
use fault_affinity.Prelude.{
  ℕ, ◌≡◌, refl, sym, ap, ◌∙◌, inl, inr, true, List, [], ◌∷◌, All, Option, none, some, ==_iff, ◌&&◌,
  Outcome, ok, throw, require, bind_returns, then_returns, require_holds, Bool-cases, arith,
}
use fault_affinity.Text.{Text, decimal}
use fault_affinity.Text.Equality.{text_eq_sound}
use fault_affinity.Load.Workers.{
  ResolvedLoad, WorkerSetError, identity_mismatch, affinity_mismatch, Readiness, StartEvidence,
  BoundaryWorker, BoundaryEvidence, is_boundary_id, parse_boundary, worker_set_version,
}
use fault_affinity.Load.Workers.Parsed.{parse_boundary-same}
use fault_affinity.Load.WorkerSet.{Worker, WorkerSet, LiveIdentity, Host, is_set_running}
use fault_affinity.Load.WorkerSet.Methods.{
  identity_matches, is_cpu_list, current_witness, optional_witness, current_witnesses, snapshot,
  or_invalidate, verify,
}

-- A live process of the witness's number and start time, in a group.
pub record IsLive (host : Host) (pid : ℕ) (ticks : Text) (group : ℕ) : Type 0 where
  pub identity : LiveIdentity
  pub found : host.read_identity pid ≡ some identity
  pub live : identity.live ≡ true
  pub started : identity.start_ticks ≡ ticks
  pub grouped : identity.process_group_id ≡ group

-- Both processes of a worker live, and may run on its CPU alone.
pub record IsOnCpu (host : Host) (cpu : ℕ) (ready : Readiness) : Type 0 where
  pub supervisor :
      IsLive host ready.supervisor.pid ready.supervisor.start_ticks ready.supervisor.pid
  pub workload : IsLive host ready.workload.pid ready.workload.start_ticks ready.supervisor.pid
  pub supervisor_list : host.read_allowed_cpu_list ready.supervisor.pid ≡ some (decimal cpu)
  pub workload_list : host.read_allowed_cpu_list ready.workload.pid ≡ some (decimal cpu)

matches-IsLive :
    (host : Host) (pid : ℕ) (ticks : Text) (group session : ℕ) (o : Option LiveIdentity)
    → host.read_identity pid ≡ o
    → identity_matches o pid ticks group session ≡ true
    → IsLive host pid ticks group
matches-IsLive host pid ticks group session none e h = cc
matches-IsLive host pid ticks group session (some found) e h = record {
  identity = found;
  found = e;
  live = ground arith;
  started = text_eq_sound _ _ (ground arith);
  grouped = (==_iff _ _).0 (ground arith);
}

is_cpu_list_reads :
    (list : Option Text) (cpu : ℕ) → is_cpu_list list cpu ≡ true → list ≡ some (decimal cpu)
is_cpu_list_reads none cpu h = cc
is_cpu_list_reads (some text) cpu h = ap some (text_eq_sound text (decimal cpu) h)

current_witness-IsOnCpu :
    (host : Host) (cpu : ℕ) (ready : Readiness) {found : BoundaryWorker}
    → current_witness host cpu ready ≡ ok found
    → IsOnCpu host cpu ready
unfolding current_witness
current_witness-IsOnCpu host cpu ready h =
    let supervisor = ready.supervisor in
    let workload = ready.workload in
    let own_supervisor =
      identity_matches (host.read_identity supervisor.pid) supervisor.pid supervisor.start_ticks
        supervisor.pid supervisor.session_id in
    let own_workload =
      identity_matches (host.read_identity workload.pid) workload.pid workload.start_ticks
        supervisor.pid supervisor.pid in
    let supervised = is_cpu_list (host.read_allowed_cpu_list supervisor.pid) cpu in
    let pinned = is_cpu_list (host.read_allowed_cpu_list workload.pid) cpu in
    let (same, h₁) =
      then_returns (require (own_supervisor && own_workload) identity_mismatch) _ h in
    let (alone, _) = then_returns (require (supervised && pinned) affinity_mismatch) _ h₁ in
    let same = require_holds (own_supervisor && own_workload) identity_mismatch same in
    let alone = require_holds (supervised && pinned) affinity_mismatch alone in
    let supervisor_matches : own_supervisor ≡ true = ground arith in
    let workload_matches : own_workload ≡ true = ground arith in
    let supervisor_alone : supervised ≡ true = ground arith in
    let workload_alone : pinned ≡ true = ground arith in
    record {
      supervisor =
          matches-IsLive host supervisor.pid supervisor.start_ticks supervisor.pid
            supervisor.session_id _ refl supervisor_matches;
      workload =
          matches-IsLive host workload.pid workload.start_ticks supervisor.pid supervisor.pid _ refl
            workload_matches;
      supervisor_list = is_cpu_list_reads _ cpu supervisor_alone;
      workload_list = is_cpu_list_reads _ cpu workload_alone;
    }

module _ {Lifecycle : Type 0} (host : Host) where
  -- The worker has a witness, of processes that still live on its CPU.
  abbrev pub StillRuns : Worker Lifecycle → Type 0
  StillRuns w = (ready : Readiness) × (w.readiness ≡ some ready) × IsOnCpu host w.cpu ready

  optional_witness-StillRuns :
      (w : Worker Lifecycle) (o : Option Readiness) {found : BoundaryWorker}
      → w.readiness ≡ o
      → optional_witness host w.cpu o ≡ ok found
      → StillRuns w
  optional_witness-StillRuns w none e h = cc
  optional_witness-StillRuns w (some ready) e h =
      (ready, e, current_witness-IsOnCpu host w.cpu ready h)

  current_witnesses-StillRuns :
      (ws : List (Worker Lifecycle)) {found : List BoundaryWorker}
      → current_witnesses host ws ≡ ok found
      → All StillRuns ws
  unfolding current_witnesses
  current_witnesses-StillRuns [] h = tt
  current_witnesses-StillRuns (w ∷ ws) h =
      let (first, own, h₁) = bind_returns (optional_witness host w.cpu w.readiness) _ h in
      let (rest, others, _) = bind_returns (current_witnesses host ws) _ h₁ in
      (optional_witness-StillRuns w w.readiness refl own, current_witnesses-StillRuns ws others)

  taken-StillRuns :
      (resolved : ResolvedLoad) (start : StartEvidence) (boundary : Text) (now : ℕ)
      (s : WorkerSet Lifecycle) {found : BoundaryEvidence}
      → snapshot resolved start boundary now host s ≡ ok found
      → All StillRuns s.workers
        × (found.boundary ≡ boundary)
        × (found.monotonic_ns ≡ decimal now)
        × (parse_boundary resolved start found ≡ ok found)
  taken-StillRuns resolved start boundary now s h =
      let (rows, taken, parsed) = bind_returns (current_witnesses host s.workers) _ h in
      let made : BoundaryEvidence = record {
        version = worker_set_version;
        boundary = boundary;
        monotonic_ns = decimal now;
        workers = rows;
      } in
      let same = parse_boundary-same resolved start made parsed in
      (
        current_witnesses-StillRuns s.workers taken,
        ap (λ (e : BoundaryEvidence). e.boundary) (sym same),
        ap (λ (e : BoundaryEvidence). e.monotonic_ns) (sym same),
        ap (parse_boundary resolved start) (sym same) ∙ parsed,
      )

  or_invalidate_returns :
      (o : Outcome WorkerSetError BoundaryEvidence) (s next : WorkerSet Lifecycle)
      {found : BoundaryEvidence}
      → or_invalidate o s ≡ (ok found, next)
      → (o ≡ ok found) × (s ≡ next)
  or_invalidate_returns (throw e) s next h = cc
  or_invalidate_returns (ok found) s next h = (ap (λ p. p.0) h, ap (λ p. p.1) h)

  -- A snapshot that `verify` returns shows a set that runs, and each worker's two processes as they
  -- are: alive, the processes of its witness by number and start time, the workload in its
  -- supervisor's group, and both allowed the worker's CPU alone; it has the boundary's name, its
  -- parser accepts it against the start, and the set stays as it was.
  pub verify_sound :
      (resolved : ResolvedLoad) (start : StartEvidence) (boundary : Text) (now : ℕ)
      (s next : WorkerSet Lifecycle) {found : BoundaryEvidence}
      → verify resolved start boundary now host s ≡ (ok found, next)
      → (is_set_running s.state ≡ true)
        × All StillRuns s.workers
        × (found.boundary ≡ boundary)
        × (parse_boundary resolved start found ≡ ok found)
        × (next ≡ s)
  unfolding verify
  verify_sound resolved start boundary now s next h = elim (Bool-cases (is_boundary_id boundary)) [
    | inr n ↦ cc (n, h)
    | inl t ↦ elim (Bool-cases (is_set_running s.state)) [
      | inr n ↦ cc (t, n, h)
      | inl running ↦
          let (taken, same) =
            or_invalidate_returns (snapshot resolved start boundary now host s) s next
              (rw (t, running) at h) in
          let (all, named, _, parsed) = taken-StillRuns resolved start boundary now s taken in
          (running, all, named, parsed, sym same)
    ]
  ]
