-- ===== src/Load/WorkerSet/Invariant.antt =====
-- The invariant of a worker set, kept by the functions of
-- diagnose-lib/controlled-load-workers.mjs.
use fault_affinity.Prelude.{
  ℕ, zero, suc, ◌≡◌, refl, ap, ◌∙◌, Bool, true, false, List, [], ◌∷◌, All, map, Option, none, some,
  arith,
}
use fault_affinity.Text.{Text}
use fault_affinity.Load.Managed.{is_present}
use fault_affinity.Load.Workers.{Readiness, is_witness}
use fault_affinity.Load.WorkerSet.{
  SetState, starting, running, invalid, stopping, stopped, First, Worker, WorkerSet, is_active,
  is_set_running, is_invalid, invalidated, is_ready_first, abort_worker, invalidate, update_at,
  worker_cpus, settle_first,
}

-- The start has returned or is about to.
abbrev pub has_begun : SetState → Bool
has_begun starting = false
has_begun invalid = false
has_begun _ = true

pub invalidated-has_begun :
    (st : SetState) → has_begun st ≡ false → has_begun (invalidated st) ≡ false
invalidated-has_begun starting e = refl
invalidated-has_begun running e = refl
invalidated-has_begun invalid e = refl
invalidated-has_begun stopping e = e
invalidated-has_begun stopped e = e

pub invalidated-is_active : (st : SetState) → is_active (invalidated st) ≡ false
invalidated-is_active starting = refl
invalidated-is_active running = refl
invalidated-is_active invalid = refl
invalidated-is_active stopping = refl
invalidated-is_active stopped = refl

pub is_set_running-is_active : (st : SetState) → is_set_running st ≡ true → is_active st ≡ true
is_set_running-is_active running e = refl
is_set_running-is_active starting e = refl
is_set_running-is_active invalid e = e
is_set_running-is_active stopping e = e
is_set_running-is_active stopped e = e

-- A promise that was ready first stays so.
pub settle_first-is_ready :
    (found : First) (o : Option First)
    → is_ready_first o ≡ true
    → is_ready_first (some (settle_first found o)) ≡ true
settle_first-is_ready found none e = cc
settle_first-is_ready found (some earlier) e = e

module _ {Lifecycle : Type 0} where
  -- Not told to end, and not ended.
  abbrev pub IsIdle : Worker Lifecycle → Type 0
  IsIdle w = (w.aborted ≡ false) × (w.completion ≡ none)

  abbrev pub IsAborted : Worker Lifecycle → Type 0
  IsAborted w = w.aborted ≡ true

  abbrev pub IsReady : Worker Lifecycle → Type 0
  IsReady w = is_ready_first w.first ≡ true

  -- A worker that was ready first has a witness of its own CPU.
  abbrev pub IsWitnessed : Worker Lifecycle → Type 0
  IsWitnessed w =
      is_ready_first w.first ≡ true
      → (r : Readiness) × (w.readiness ≡ some r) × (is_witness r w.cpu ≡ true)

  -- What `invalidate` keeps.
  pub record IsBased (cpus : List ℕ) (s : WorkerSet Lifecycle) : Type 0 where
    pub before : s.start_result ≡ none → has_begun s.state ≡ false
    pub witnessed : All IsWitnessed s.workers
    pub same : worker_cpus s.workers ≡ cpus
    pub asked : is_present s.stop_reason ≡ true → s.stop_requested ≡ true

  -- While the set starts or runs, nothing has failed, and no worker has ended or been told to; a set
  -- that runs has all its workers ready; once it neither starts nor runs, each is told to end, and a
  -- set that is invalid says why.
  pub record IsSound (cpus : List ℕ) (s : WorkerSet Lifecycle) : Type 0 where
    pub based : IsBased cpus s
    pub quiet : is_active s.state ≡ true → (s.failure_code ≡ none) × (s.stop_requested ≡ false)
    pub idle : is_active s.state ≡ true → All IsIdle s.workers
    pub ready : is_set_running s.state ≡ true → All IsReady s.workers
    pub aborted : is_active s.state ≡ false → All IsAborted s.workers
    pub explained : is_invalid s.state ≡ true → is_present s.failure_code ≡ true

  pub All-map_to :
      (P Q : Worker Lifecycle → Type 0) (f : Worker Lifecycle → Worker Lifecycle)
      (ws : List (Worker Lifecycle))
      → ((w : Worker Lifecycle) → P w → Q (f w))
      → All P ws
      → All Q (map f ws)
  All-map_to P Q f [] keep all = tt
  All-map_to P Q f (w ∷ ws) keep all = (keep w all.0, All-map_to P Q f ws keep all.1)

  pub All-update_at :
      (P : Worker Lifecycle → Type 0) (f : Worker Lifecycle → Worker Lifecycle) (i : ℕ)
      (ws : List (Worker Lifecycle))
      → ((w : Worker Lifecycle) → P w → P (f w))
      → All P ws
      → All P (update_at i f ws)
  All-update_at P f i [] keep all = tt
  All-update_at P f zero (w ∷ ws) keep all = (keep w all.0, all.1)
  All-update_at P f (suc i) (w ∷ ws) keep all = (all.0, All-update_at P f i ws keep all.1)

  pub map_abort-IsAborted : (ws : List (Worker Lifecycle)) → All IsAborted (map abort_worker ws)
  map_abort-IsAborted [] = tt
  map_abort-IsAborted (w ∷ ws) = (refl, map_abort-IsAborted ws)

  pub worker_cpus-abort :
      (ws : List (Worker Lifecycle)) → worker_cpus (map abort_worker ws) ≡ worker_cpus ws
  worker_cpus-abort [] = refl
  worker_cpus-abort (w ∷ ws) = ap (◌∷◌ w.cpu) (worker_cpus-abort ws)

  pub worker_cpus-update_at :
      (f : Worker Lifecycle → Worker Lifecycle) (i : ℕ) (ws : List (Worker Lifecycle))
      → ((w : Worker Lifecycle) → (f w).cpu ≡ w.cpu)
      → worker_cpus (update_at i f ws) ≡ worker_cpus ws
  worker_cpus-update_at f i [] same = refl
  worker_cpus-update_at f zero (w ∷ ws) same = ap (λ c. c ∷ worker_cpus ws) (same w)
  worker_cpus-update_at f (suc i) (w ∷ ws) same = ap (◌∷◌ w.cpu) (worker_cpus-update_at f i ws same)

  pub invalidate-IsSound :
      (cpus : List ℕ) (code : Text) (s : WorkerSet Lifecycle)
      → IsBased cpus s
      → IsSound cpus (invalidate code s)
  invalidate-IsSound cpus code s h =
      let down : is_active (invalidated s.state) ≡ false = invalidated-is_active s.state in
      record {
        based = record {
          before = λ e. invalidated-has_begun s.state (h.before e);
          witnessed =
              All-map_to IsWitnessed IsWitnessed abort_worker s.workers (λ w k. k) h.witnessed;
          same = worker_cpus-abort s.workers ∙ h.same;
          asked = h.asked;
        };
        quiet = λ e. absurd (ground (arith, down));
        idle = λ e. absurd (ground (arith, down));
        ready = λ e. absurd (ground (arith, down, is_set_running-is_active _ e));
        aborted = λ e. map_abort-IsAborted s.workers;
        explained = λ e. refl;
      }
