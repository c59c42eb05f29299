-- ===== src/Load/Build.antt =====
-- `buildControlledLoadSessionEnvelope` of diagnose-lib/controlled-load-session.mjs.
use fault_affinity.Prelude.{
  ℕ, ◌+◌, Bool, List, [], ◌∷◌, Option, Outcome, ok, ◌>>=◌, ◌>>◌, require, present,
}
use fault_affinity.ExactCpu.Envelope.{AffinityWitness}
use fault_affinity.Load.Managed.{ManagedResult}
use fault_affinity.Load.Workers.{
  ResolvedLoad, load_binding, StartEvidence, BoundaryEvidence, StopEvidence, parse_start,
  parse_boundary,
}
use fault_affinity.Load.Stopping.{parse_stop}
use fault_affinity.Load.Session.{
  SessionError, bad_evidence, other_affinity, session_version, session_phase, LegIdentity, leg_a1,
  leg_b, leg_a2, SessionManifest, parse_session_manifest,
}
use fault_affinity.Load.Envelope.{
  MeasuredEvidences, LoadDigests, LoadAttempt, LegEnvelope, LoadCondition, SessionEnvelope,
  is_measured_affinity, expected_load_slot, from_worker_set, validate_session_envelope,
}

-- An attempt as the session records it; `affinity` is null where it has no witness.
pub record Recorded (Evidence : Type 0) : Type 0 where
  pub evidence : Evidence
  pub affinity : Option AffinityWitness

pub record Attempts (Evidence : Type 0) : Type 0 where
  pub a1 : List (Recorded Evidence)
  pub b : List (Recorded Evidence)
  pub a2 : List (Recorded Evidence)

module _ {Evidence Lifecycle : Type 0} (evidences : MeasuredEvidences Evidence)
    (builds : ManagedResult Lifecycle → Bool) (digests : LoadDigests Lifecycle)
    (measured auxiliary : ResolvedLoad) where
  unfoldable pub bound_attempt :
      SessionManifest
      → ℕ
      → LegIdentity
      → ℕ
      → Recorded Evidence
      → Outcome SessionError (LoadAttempt Evidence)
  bound_attempt manifest leg_index leg position recorded = do
    evidence ← present (evidences.parse recorded.evidence) bad_evidence
    affinity ← present recorded.affinity other_affinity
    require (is_measured_affinity affinity manifest) other_affinity
    ok (record {
      slot = expected_load_slot manifest.schedule.identity.attempts_per_leg leg_index leg position;
      affinity = affinity;
      binding = evidences.binding evidence;
      evidence = evidence;
    })

  unfoldable pub bound_attempts :
      SessionManifest
      → ℕ
      → LegIdentity
      → ℕ
      → List (Recorded Evidence)
      → Outcome SessionError (List (LoadAttempt Evidence))
  bound_attempts manifest leg_index leg position [] = ok []
  bound_attempts manifest leg_index leg position (recorded ∷ rest) =
      let later = bound_attempts manifest leg_index leg (position + 1) rest in
      bound_attempt manifest leg_index leg position recorded
      >>= (λ here. later >>= (λ others. ok (here ∷ others)))

  abbrev pub bound_leg :
      SessionManifest
      → ℕ
      → LegIdentity
      → List (Recorded Evidence)
      → Outcome SessionError (LegEnvelope Evidence)
  bound_leg manifest leg_index leg recorded =
      bound_attempts manifest leg_index leg 1 recorded >>= (λ attempts.
        ok (record { leg = leg.leg; condition = leg.condition; attempts = attempts }))

  -- The lines that the bindings are of are those of the parsed evidence.
  unfoldable pub bound_condition :
      StartEvidence
      → BoundaryEvidence
      → BoundaryEvidence
      → StopEvidence Lifecycle
      → Outcome SessionError (LoadCondition Lifecycle)
  bound_condition start_value before_value after_value stop_value = do
    start ← from_worker_set (parse_start auxiliary start_value)
    before ← from_worker_set (parse_boundary auxiliary start_value before_value)
    after ← from_worker_set (parse_boundary auxiliary start_value after_value)
    stop ← from_worker_set (parse_stop builds auxiliary start_value stop_value)
    ok (record {
      worker_set_start = record { binding = digests.start_binding start; evidence = start };
      before_b = record { binding = digests.boundary_binding before; evidence = before };
      after_b = record { binding = digests.boundary_binding after; evidence = after };
      worker_set_stop = record { binding = digests.stop_binding stop; evidence = stop };
    })

  unfoldable pub build_session_envelope :
      SessionManifest
      → Attempts Evidence
      → StartEvidence
      → BoundaryEvidence
      → BoundaryEvidence
      → StopEvidence Lifecycle
      → Outcome SessionError (SessionEnvelope Evidence Lifecycle)
  build_session_envelope manifest_value attempts start before after stop = do
    manifest ← parse_session_manifest digests.identity_sha256 measured auxiliary manifest_value
    a1 ← bound_leg manifest 0 leg_a1 attempts.a1
    b ← bound_leg manifest 1 leg_b attempts.b
    a2 ← bound_leg manifest 2 leg_a2 attempts.a2
    condition ← bound_condition start before after stop
    let envelope : SessionEnvelope Evidence Lifecycle = record {
      version = session_version;
      phase = session_phase;
      generation = manifest.generation;
      measured_workload = load_binding measured;
      auxiliary_workload = load_binding auxiliary;
      schedule_digest = manifest.schedule.digest;
      legs = a1 ∷ b ∷ a2 ∷ [];
      condition = condition;
    }
    validate_session_envelope evidences builds digests measured auxiliary manifest envelope
    ok envelope
