-- ===== src/Load/WorkerSet/Started.antt =====
-- The start evidence of a worker set whose workers are all ready.
use fault_affinity.Prelude.{
  ℕ, ◌≤◌, ◌≡◌, refl, ap, ◌∙◌, inl, inr, Bool, true, false, List, [], ◌∷◌, All, length, leb, le→leb,
  ◌==◌, ==_iff, none, some, ok, require, then_returns, require_holds, Option-cases, arith,
}
use fault_affinity.Text.{Text, decimal}
use fault_affinity.Text.Equality.{text_eq_refl}
use fault_affinity.ExactCpu.Phase.{Workload, same_workload}
use fault_affinity.Load.Managed.{ManagedResult, is_present}
use fault_affinity.Load.Workers.{
  ResolvedLoad, not_surviving, bad_cpus, bad_taskset, load_binding, bounded_decimal, Readiness,
  is_witness, is_worker_cpu_list, is_taskset_path, check_start_workers, parse_start,
}
use fault_affinity.Load.WorkerSet.{
  running, Worker, WorkerSet, is_invalid, start_records, worker_cpus, start_record, start_set,
  incomplete, on_first_settled,
}
use fault_affinity.Load.WorkerSet.Invariant.{IsReady, IsWitnessed}
use fault_affinity.Load.WorkerSet.Steps.{Reachable}
use fault_affinity.Load.WorkerSet.Preserved.{all_ready}
use fault_affinity.Load.WorkerSet.Guarantee.{Reachable-IsSound}

witness_time :
    (r : Readiness) (cpu : ℕ)
    → is_witness r cpu ≡ true
    → (t : ℕ) × (bounded_decimal r.monotonic_ns ≡ some t)
unfolding is_witness
witness_time r cpu h = elim (Option-cases (bounded_decimal r.monotonic_ns)) [
  | inl e ↦ cc (e, h)
  | inr found ↦ found
]

pub same_workload_refl : (w : Workload) → same_workload w w ≡ true
same_workload_refl w =
    rw
      (
        (==_iff w.contract_version w.contract_version).1 refl,
        text_eq_refl w.id,
        text_eq_refl w.digest,
      )
      refl

module _ {Lifecycle : Type 0} where
  -- The clock does not show an earlier time than a witness of the worker does.
  abbrev pub IsBefore : ℕ → Worker Lifecycle → Type 0
  IsBefore now w =
      (r : Readiness) (t : ℕ)
      → w.readiness ≡ some r
      → bounded_decimal r.monotonic_ns ≡ some t
      → t ≤ now

  length-start_records :
      (ws : List (Worker Lifecycle))
      → All IsReady ws
      → All IsWitnessed ws
      → length (start_records ws) ≡ length (worker_cpus ws)
  length-start_records [] ready witnessed = refl
  length-start_records (w ∷ ws) (ready, all) (witnessed, others) =
      let (r, e, _) = witnessed ready in rw e (omega (arith, length-start_records ws all others))

  check_start_workers_accepts :
      (now : ℕ) (ws : List (Worker Lifecycle))
      → All IsReady ws
      → All IsWitnessed ws
      → All (IsBefore now) ws
      → check_start_workers now (worker_cpus ws) (start_records ws) ≡ ok tt
  unfolding check_start_workers
  check_start_workers_accepts now [] ready witnessed before = refl
  check_start_workers_accepts now (w ∷ ws) (ready, all) (witnessed, others) (before, later) =
      let (r, e, fits) = witnessed ready in
      let (t, time) = witness_time r w.cpu fits in
      let own : (w.cpu == w.cpu) ≡ true = (==_iff w.cpu w.cpu).1 refl in
      let early : leb t now ≡ true = le→leb t now (before r t e time) in
      rw (e, own, fits, time, early) (check_start_workers_accepts now ws all others later)

  start_set_accepts :
      (resolved : ResolvedLoad) (cpus : List ℕ) (path : Text) (has_signal : Bool)
      {s : WorkerSet Lifecycle}
      → start_set resolved cpus path has_signal ≡ ok s
      → (is_worker_cpu_list cpus ≡ true) × (is_taskset_path path ≡ true)
  unfolding start_set
  start_set_accepts resolved cpus path has_signal h =
      let (_, h₁) = then_returns (require resolved.survives_window not_surviving) _ h in
      let (list, h₂) = then_returns (require (is_worker_cpu_list cpus) bad_cpus) _ h₁ in
      let (absolute, _) = then_returns (require (is_taskset_path path) bad_taskset) _ h₂ in
      (require_holds _ bad_cpus list, require_holds _ bad_taskset absolute)

  module _ (builds : ManagedResult Lifecycle → Bool) (resolved : ResolvedLoad) (path : Text)
      (cpus : List ℕ) where
    -- A worker set that passed the checks, and whose workers were all ready first, starts to run when
    -- their promises have settled, unless it was invalidated before: the start evidence that is built of
    -- the witnesses is accepted by its own parser, if the clock shows a time of at most 32 digits and
    -- not an earlier one than a witness.
    pub on_first_settled_starts :
        (has_signal : Bool) (now : ℕ) (s initial : WorkerSet Lifecycle)
        → start_set resolved cpus path has_signal ≡ ok initial
        → Reachable builds resolved path cpus has_signal s
        → incomplete s.workers ≡ none
        → is_invalid s.state ≡ false
        → bounded_decimal (decimal now) ≡ some now
        → All (IsBefore now) s.workers
        → ((on_first_settled resolved path now s).state ≡ running)
          × ((on_first_settled resolved path now s).start_result
              ≡ some (ok (start_record resolved path now s)))
          × (worker_cpus s.workers ≡ cpus)
    unfolding on_first_settled parse_start
    on_first_settled_starts has_signal now s initial started reached all fine clock before =
        let sound = Reachable-IsSound builds resolved path cpus s reached in
        let ready = all_ready s.workers (ap is_present all) in
        let (list, absolute) = start_set_accepts resolved cpus path has_signal started in
        let own : is_worker_cpu_list (worker_cpus s.workers) ≡ true =
          ap is_worker_cpu_list sound.based.same ∙ list in
        let sizes : (length (start_records s.workers) == length (worker_cpus s.workers)) ≡ true =
          (==_iff _ _).1 (length-start_records s.workers ready sound.based.witnessed) in
        let checked =
          check_start_workers_accepts now s.workers ready sound.based.witnessed before in
        (
          rw (all, fine) refl,
          rw
              (
                all,
                fine,
                same_workload_refl (load_binding resolved),
                absolute,
                own,
                clock,
                sizes,
                checked,
              )
              refl,
          sound.based.same,
        )
