-- ===== src/Discovery/Plan/Sessions.antt =====
-- The session checks of the parser, on the sessions that the builder makes.
use native.Mathlib.Nat.{mod-lt}
use fault_affinity.Prelude.{
  ℕ, zero, suc, ◌+◌, ◌%◌, ◌<◌, ◌≡◌, refl, sym, ap, ◌∙◌, subst, Bool, true, false, List, [], ◌∷◌,
  map, length, get_or, includes, ◌==◌, ==_iff, not, ◌&&◌, ok, require, bind_returns, then_returns,
  require_holds, ok_inj, arith,
}
use fault_affinity.Prelude.Increasing.{includes-select}
use fault_affinity.Text.Equality.{text_eq_refl}
use fault_affinity.Discovery.Plan.{
  no_controller, Session, Plan, session_directory, available_controllers, build_sessions,
  check_sessions,
}

pub includes-get_or : (xs : List ℕ) (i : ℕ) → i < length xs → includes xs (get_or xs i 0) ≡ true
includes-get_or [] i h = elim h [ ]
includes-get_or (x ∷ xs) zero h = rw ((==_iff x x).1 refl)
includes-get_or (x ∷ xs) (suc i) h = ground (arith, includes-get_or xs i)

abbrev pub targets_of : List Session → List ℕ
targets_of = map (λ session. session.target_cpu)

abbrev pub Covers : Plan → ℕ → List ℕ → List Session → Type 0
Covers plan index targets sessions =
    (check_sessions plan index sessions targets ≡ ok tt) × (targets_of sessions ≡ targets)

controller_fits :
    (usable workers : List ℕ) (target index : ℕ)
    → (length (available_controllers usable workers target) == 0) ≡ false
    → let available = available_controllers usable workers target in
      let controller = get_or available (index % length available) 0 in
      (includes usable controller ≡ true)
      × ((controller == target) ≡ false)
      × (includes workers controller ≡ false)
controller_fits usable workers target index h =
    let available = available_controllers usable workers target in
    let pos : 0 < length available = ground arith in
    let controller = get_or available (index % length available) 0 in
    let held = includes-get_or available (index % length available) (mod-lt index pos) in
    let split =
      includes-select (λ cpu. not (cpu == target) && not (includes workers cpu)) usable
        controller in
    fitting (includes usable controller) (controller == target) (includes workers controller)
      (sym split ∙ held)
  where
    fitting :
        (u t w : Bool) → (u && (not t && not w)) ≡ true → (u ≡ true) × (t ≡ false) × (w ≡ false)
    fitting u t w e = ground arith

session_step :
    (plan : Plan) (index target : ℕ) (targets : List ℕ) (rest : List Session)
    → (length (available_controllers plan.usable_cpus plan.load_cpus target) == 0) ≡ false
    → Covers plan (index + 1) targets rest
    → let available = available_controllers plan.usable_cpus plan.load_cpus target in
      Covers plan index (target ∷ targets) (
        record {
          ordinal = index + 1;
          target_cpu = target;
          controller_cpu = get_or available (index % length available) 0;
          directory = session_directory target;
        }
        ∷ rest)
unfolding check_sessions
session_step plan index target targets rest h (checked, same) =
    let (u, t, w) = controller_fits plan.usable_cpus plan.load_cpus target index h in
    (
      rw
          (
            (==_iff (index + 1) (index + 1)).1 refl,
            (==_iff target target).1 refl,
            u,
            t,
            w,
            text_eq_refl (session_directory target),
          )
          checked,
      ap (◌∷◌ target) same,
    )

pub build_sessions-Covers :
    (plan : Plan) (index : ℕ) (targets : List ℕ) (sessions : List Session)
    → build_sessions plan.usable_cpus plan.load_cpus index targets ≡ ok sessions
    → Covers plan index targets sessions
unfolding build_sessions check_sessions
build_sessions-Covers plan index [] sessions h =
    subst (Covers plan index []) (ok_inj h) (refl, refl)
build_sessions-Covers plan index (target ∷ targets) sessions h =
    let available = available_controllers plan.usable_cpus plan.load_cpus target in
    let (some_left, built) =
      then_returns (require (not (length available == 0)) no_controller) _ h in
    let (rest, later, whole) =
      bind_returns (build_sessions plan.usable_cpus plan.load_cpus (index + 1) targets) _ built in
    let held = require_holds (not (length available == 0)) no_controller some_left in
    subst (Covers plan index (target ∷ targets)) (ok_inj whole) (
      session_step plan index target targets rest (ground (arith, held))
        (build_sessions-Covers plan (index + 1) targets rest later))
