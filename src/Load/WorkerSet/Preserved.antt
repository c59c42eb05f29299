-- ===== src/Load/WorkerSet/Preserved.antt =====
-- The invariant at the start's continuation and at the methods.
use fault_affinity.Prelude.{
  ℕ, ◌≡◌, inl, inr, refl, ap, ◌∙◌, true, false, List, [], ◌∷◌, All, none, some, if◌then◌else◌, not,
  ◌&&◌, ◌||◌, Outcome, ok, throw, by_branch, Bool-cases, arith,
}
use fault_affinity.Text.{Text}
use fault_affinity.Load.Managed.{is_present}
use fault_affinity.Load.WorkerSet.{
  SetState, starting, running, invalid, stopping, stopped, Worker, WorkerSet, is_active,
  is_set_running, is_invalid, is_ready_first, abort_worker, invalidate, code_or,
}
use fault_affinity.Load.WorkerSet.Invariant.{
  has_begun, invalidated-is_active, is_set_running-is_active, IsReady, IsWitnessed, IsSound,
  All-map_to, map_abort-IsAborted, worker_cpus-abort, invalidate-IsSound,
}
use fault_affinity.Load.Workers.{
  ResolvedLoad, WorkerSetError, StartEvidence, BoundaryEvidence, StopEvidence, is_boundary_id,
}
use fault_affinity.Load.WorkerSet.{
  Host, incomplete, on_first_settled, on_start_drained, incomplete_code,
}
use fault_affinity.Load.WorkerSet.Methods.{snapshot, or_invalidate, verify, stop, settle_stop}

pub all_ready :
    {Lifecycle : Type 0} (ws : List (Worker Lifecycle))
    → is_present (incomplete ws) ≡ false
    → All IsReady ws
all_ready [] e = tt
all_ready (w ∷ ws) e = elim (Bool-cases (is_ready_first w.first)) [
  | inl t ↦ (t, all_ready ws (ground arith))
  | inr n ↦ absurd (ground arith)
]

pub starting_state :
    (st : SetState) → has_begun st ≡ false → is_invalid st ≡ false → is_active st ≡ true
starting_state starting b i = refl
starting_state running b i = refl
starting_state invalid b i = cc
starting_state stopping b i = cc
starting_state stopped b i = cc

pub invalid_inactive : (st : SetState) → is_invalid st ≡ true → is_active st ≡ false
invalid_inactive starting e = cc
invalid_inactive running e = cc
invalid_inactive invalid e = refl
invalid_inactive stopping e = refl
invalid_inactive stopped e = refl

pub stop_invalid :
    {P : Type 0} (st : SetState)
    → is_invalid (if is_invalid st then st else stopping) ≡ true
    → (is_invalid st ≡ true → P)
    → P
stop_invalid invalid e then_holds = then_holds refl
stop_invalid starting e then_holds = cc
stop_invalid running e then_holds = cc
stop_invalid stopping e then_holds = cc
stop_invalid stopped e then_holds = cc

module _ {Lifecycle : Type 0} (cpus : List ℕ) where
  pub on_first_settled-IsSound :
      (resolved : ResolvedLoad) (path : Text) (now : ℕ) (s : WorkerSet Lifecycle)
      → s.start_result ≡ none
      → IsSound cpus s
      → IsSound cpus (on_first_settled resolved path now s)
  unfolding on_first_settled
  on_first_settled-IsSound resolved path now s fresh h =
      by_branch (IsSound cpus) (is_present (incomplete s.workers) || is_invalid s.state)
        (λ _.
          let down : IsSound cpus
              (invalidate (code_or s.failure_code (incomplete_code (incomplete s.workers))) s) =
            invalidate-IsSound cpus _ s h.based in
          let inactive = invalidated-is_active s.state in
          record {
            based = record {
              before = down.based.before;
              witnessed = down.based.witnessed;
              same = down.based.same;
              asked = λ e. refl;
            };
            quiet = λ e. absurd (ground (arith, inactive));
            idle = down.idle;
            ready = down.ready;
            aborted = down.aborted;
            explained = down.explained;
          })
        (λ good.
          let active : is_active s.state ≡ true =
            starting_state s.state (h.based.before fresh) (ground arith) in
          record {
            based = record {
              before = λ e. cc;
              witnessed = h.based.witnessed;
              same = h.based.same;
              asked = h.based.asked;
            };
            quiet = λ e. h.quiet active;
            idle = λ e. h.idle active;
            ready = λ e. all_ready s.workers (ground arith);
            aborted = λ e. cc;
            explained = λ e. cc;
          })

  pub or_invalidate-IsSound :
      (found : Outcome WorkerSetError BoundaryEvidence) (s : WorkerSet Lifecycle)
      → IsSound cpus s
      → IsSound cpus (or_invalidate found s).1
  or_invalidate-IsSound (ok found) s h = h
  or_invalidate-IsSound (throw e) s h = invalidate-IsSound cpus _ s h.based

  pub verify-IsSound :
      (resolved : ResolvedLoad) (start : StartEvidence) (boundary : Text) (now : ℕ) (host : Host)
      (s : WorkerSet Lifecycle)
      → IsSound cpus s
      → IsSound cpus (verify resolved start boundary now host s).1
  unfolding verify
  verify-IsSound resolved start boundary now host s h =
      by_branch
        (λ (r : Outcome WorkerSetError BoundaryEvidence × WorkerSet Lifecycle). IsSound cpus r.1)
        (is_boundary_id boundary)
        (λ _.
          by_branch
            (λ (r : Outcome WorkerSetError BoundaryEvidence × WorkerSet Lifecycle).
              IsSound cpus r.1)
            (is_set_running s.state)
            (λ _. or_invalidate-IsSound (snapshot resolved start boundary now host s) s h) (λ _. h))
        (λ _. h)

  pub stop-IsSound :
      (reason : Text) (s : WorkerSet Lifecycle) {start : Outcome WorkerSetError StartEvidence}
      → s.start_result ≡ some start
      → IsSound cpus s
      → IsSound cpus (stop reason s)
  unfolding stop
  stop-IsSound reason s begun h =
      by_branch (IsSound cpus) (is_boundary_id reason && not (is_present s.stop_reason))
        (λ _.
          let next = if is_invalid s.state then s.state else stopping in
          let down : is_active next ≡ false =
            by_branch (λ st. is_active st ≡ false) (is_invalid s.state)
              (λ e. invalid_inactive s.state e) (λ _. refl) in
          record {
            based = record {
              before = λ e. cc;
              witnessed =
                  All-map_to IsWitnessed IsWitnessed abort_worker s.workers (λ w k. k)
                    h.based.witnessed;
              same = worker_cpus-abort s.workers ∙ h.based.same;
              asked = λ e. refl;
            };
            quiet = λ e. absurd (ground (arith, down));
            idle = λ e. absurd (ground (arith, down));
            ready = λ e. absurd (ground (arith, down, is_set_running-is_active _ e));
            aborted = λ e. map_abort-IsAborted s.workers;
            explained = λ e. stop_invalid s.state e h.explained;
          })
        (λ _. h)

  pub settle_stop-IsSound :
      (found : Outcome WorkerSetError (StopEvidence Lifecycle)) (s : WorkerSet Lifecycle)
      {start : Outcome WorkerSetError StartEvidence}
      → s.start_result ≡ some start
      → is_active s.state ≡ false
      → IsSound cpus s
      → IsSound cpus (settle_stop found s)
  settle_stop-IsSound (throw e) s begun down h = record {
    based = record {
      before = h.based.before;
      witnessed = h.based.witnessed;
      same = h.based.same;
      asked = h.based.asked;
    };
    quiet = h.quiet;
    idle = h.idle;
    ready = h.ready;
    aborted = h.aborted;
    explained = h.explained;
  }
  settle_stop-IsSound (ok found) s begun down h = record {
    based = record {
      before = λ e. cc;
      witnessed = h.based.witnessed;
      same = h.based.same;
      asked = h.based.asked;
    };
    quiet = λ e. cc;
    idle = λ e. cc;
    ready = λ e. cc;
    aborted = λ e. h.aborted down;
    explained = λ e. cc;
  }

  pub asked_is_down :
      (s : WorkerSet Lifecycle) (reason : Text)
      → s.stop_reason ≡ some reason
      → IsSound cpus s
      → is_active s.state ≡ false
  asked_is_down s reason e h = elim (Bool-cases (is_active s.state)) [
    | inr down ↦ down
    | inl active ↦
        let asked = h.based.asked (ap is_present e) in
        let quiet = (h.quiet active).1 in absurd (ground (arith, asked, quiet))
  ]

  pub drained-IsSound :
      (s : WorkerSet Lifecycle) → IsSound cpus s → IsSound cpus (on_start_drained s)
  drained-IsSound s h = record {
    based = record {
      before = λ e. cc;
      witnessed = h.based.witnessed;
      same = h.based.same;
      asked = h.based.asked;
    };
    quiet = h.quiet;
    idle = h.idle;
    ready = h.ready;
    aborted = h.aborted;
    explained = h.explained;
  }
