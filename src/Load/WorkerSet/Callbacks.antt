-- ===== src/Load/WorkerSet/Callbacks.antt =====
-- The invariant at the workers' callbacks.
use fault_affinity.Prelude.{
  ℕ, ◌≡◌, refl, ◌∙◌, true, List, Option, none, some, not, ◌&&◌, Outcome, ok, throw, by_branch,
  arith,
}
use fault_affinity.Text.{Text}
use fault_affinity.Load.Managed.{ManagedResult, is_present}
use fault_affinity.Load.Workers.{Readiness, is_witness}
use fault_affinity.Load.WorkerSet.{
  First, was_ready, Worker, WorkerSet, is_active, is_ready_first, update_at, start_worker,
  complete_worker, settle_first, on_started, on_completed, terminal_code, first_of,
}
use fault_affinity.Load.WorkerSet.Invariant.{
  is_set_running-is_active, settle_first-is_ready, IsIdle, IsAborted, IsReady, IsWitnessed, IsBased,
  IsSound, All-update_at, worker_cpus-update_at, invalidate-IsSound,
}

module _ {Lifecycle : Type 0} where
  start_worker-cpu : (r : Readiness) (w : Worker Lifecycle) → (start_worker r w).cpu ≡ w.cpu
  start_worker-cpu r w =
      by_branch (λ (v : Worker Lifecycle). v.cpu ≡ w.cpu) (is_witness r w.cpu) (λ _. refl)
        (λ _. refl)

  complete_worker-cpu :
      (c : Outcome (Option Text) (ManagedResult Lifecycle)) (w : Worker Lifecycle)
      → (complete_worker c w).cpu ≡ w.cpu
  complete_worker-cpu c w =
      by_branch (λ (v : Worker Lifecycle). v.cpu ≡ w.cpu) (is_present w.completion) (λ _. refl)
        (λ _. refl)

  start_worker-IsIdle :
      (r : Readiness) (w : Worker Lifecycle) → IsIdle w → IsIdle (start_worker r w)
  start_worker-IsIdle r w h = by_branch IsIdle (is_witness r w.cpu) (λ _. h) (λ _. h)

  start_worker-IsAborted :
      (r : Readiness) (w : Worker Lifecycle) → IsAborted w → IsAborted (start_worker r w)
  start_worker-IsAborted r w h = by_branch IsAborted (is_witness r w.cpu) (λ _. h) (λ _. h)

  start_worker-IsReady :
      (r : Readiness) (w : Worker Lifecycle) → IsReady w → IsReady (start_worker r w)
  start_worker-IsReady r w h =
      by_branch IsReady (is_witness r w.cpu) (λ _. settle_first-is_ready was_ready w.first h)
        (λ _. h)

  start_worker-IsWitnessed :
      (r : Readiness) (w : Worker Lifecycle) → IsWitnessed w → IsWitnessed (start_worker r w)
  start_worker-IsWitnessed r w h =
      by_branch IsWitnessed (is_witness r w.cpu) (λ fits _. (r, refl, fits)) (λ _. h)

  pub on_started-IsSound :
      (cpus : List ℕ) (i : ℕ) (r : Readiness) (s : WorkerSet Lifecycle)
      → IsSound cpus s
      → IsSound cpus (on_started i r s)
  on_started-IsSound cpus i r s h = record {
    based = record {
      before = h.based.before;
      witnessed =
          All-update_at IsWitnessed (start_worker r) i s.workers (start_worker-IsWitnessed r)
            h.based.witnessed;
      same = worker_cpus-update_at (start_worker r) i s.workers (start_worker-cpu r) ∙ h.based.same;
      asked = h.based.asked;
    };
    quiet = h.quiet;
    idle =
        λ e. All-update_at IsIdle (start_worker r) i s.workers (start_worker-IsIdle r) (h.idle e);
    ready = λ e.
        All-update_at IsReady (start_worker r) i s.workers (start_worker-IsReady r) (h.ready e);
    aborted = λ e.
        All-update_at IsAborted (start_worker r) i s.workers (start_worker-IsAborted r)
          (h.aborted e);
    explained = h.explained;
  }

  complete_worker-IsAborted :
      (c : Outcome (Option Text) (ManagedResult Lifecycle)) (w : Worker Lifecycle)
      → IsAborted w
      → IsAborted (complete_worker c w)
  complete_worker-IsAborted c w h = by_branch IsAborted (is_present w.completion) (λ _. h) (λ _. h)

  -- A worker that ends without a witness was not ready first.
  first_of-is_ready :
      (c : Outcome (Option Text) (ManagedResult Lifecycle)) (o : Option First)
      → is_ready_first (some (settle_first (first_of c) o)) ≡ true
      → is_ready_first o ≡ true
  first_of-is_ready (throw code) none e = e
  first_of-is_ready (ok result) none e = e
  first_of-is_ready c (some earlier) e = e

  complete_worker-IsWitnessed :
      (c : Outcome (Option Text) (ManagedResult Lifecycle)) (w : Worker Lifecycle)
      → IsWitnessed w
      → IsWitnessed (complete_worker c w)
  complete_worker-IsWitnessed c w h =
      by_branch IsWitnessed (is_present w.completion) (λ _. h)
        (λ _ e. h (first_of-is_ready c w.first e))

  pub on_completed-IsSound :
      (cpus : List ℕ) (i : ℕ) (c : Outcome (Option Text) (ManagedResult Lifecycle))
      (s : WorkerSet Lifecycle)
      → IsSound cpus s
      → IsSound cpus (on_completed i c s)
  on_completed-IsSound cpus i c s h =
      let seen : WorkerSet Lifecycle = record s {
        workers = update_at i (complete_worker c) s.workers;
      } in
      let based : IsBased cpus seen = record {
        before = h.based.before;
        witnessed =
            All-update_at IsWitnessed (complete_worker c) i s.workers
              (complete_worker-IsWitnessed c) h.based.witnessed;
        same =
            worker_cpus-update_at (complete_worker c) i s.workers (complete_worker-cpu c)
            ∙ h.based.same;
        asked = h.based.asked;
      } in
      by_branch (IsSound cpus) (not s.stop_requested && is_active s.state)
        (λ _. invalidate-IsSound cpus (terminal_code c) seen based)
        (λ other. record {
          based = based;
          quiet = h.quiet;
          idle = λ e. (let q = (h.quiet e).1 in absurd (ground arith));
          ready = λ e.
              (let active = is_set_running-is_active s.state e in
                let q = (h.quiet active).1 in absurd (ground arith));
          aborted = λ e.
              All-update_at IsAborted (complete_worker c) i s.workers (complete_worker-IsAborted c)
                (h.aborted e);
          explained = h.explained;
        })
