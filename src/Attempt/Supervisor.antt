-- ===== src/Attempt/Supervisor.antt =====
-- The handlers of diagnose-lib/attempt-supervisor.mjs, the process-group leader of one attempt. Its
-- state is the module's variables, the IPC channel, and what it has done so far. What a handler
-- reads from /proc, from the provenance check and from `spawn` comes with the event.
pub mod Traces
pub mod Invariant
pub mod Launched
pub mod Handled
pub mod Safety
pub mod Launching
pub mod Kept
pub mod Orphan
mod Examples
use fault_affinity.Prelude.{
  ℕ, ◌+◌, Bool, true, false, List, [], ◌∷◌, Option, none, some, ◌==◌, if◌then◌else◌, not, ◌&&◌,
  ◌||◌, Outcome, ok, throw,
}
use fault_affinity.Text.{Text, text_eq, codes}
use fault_affinity.Attempt.Launch.{
  Launch, validate_launch, expected_cpu_list, is_text, or_text, normalize_error_code,
}

pub data Message : Type 0 where
  fatal : Text → Message
  workload_launch_error : Text → Message
  workload_started : ℕ → Option Text → Text → Message
  workload_exit : Option ℕ → Option Text → Message

pub data Effect : Type 0 where
  sent : Message → Effect
  spawned : Launch → Effect
  group_term group_kill disconnected : Effect
  -- The two timers of `emergencyCleanup`: the escalation, and the exit with a code.
  kill_after : ℕ → Effect
  exit_after : ℕ → ℕ → Effect

pub data Ending : Type 0 where
  exited : ℕ → Ending
  killed : Ending

-- `awaiting_report`: `spawn` has returned and the workload has emitted neither `spawn` nor `error`.
-- `error_heard`: the `once("error")` listener is spent. `exit_due`: `setImmediate` holds the exit.
pub record Supervisor : Type 0 where
  pub launch_received : Bool
  pub awaiting_report : Bool
  pub started : Bool
  pub has_exited : Bool
  pub error_heard : Bool
  pub intentional_shutdown : Bool
  pub exit_due : Bool
  pub emergency_started : Bool
  pub grace_ms : ℕ
  pub connected : Bool
  pub expected_cpus : Option Text
  pub ended : Option Ending
  pub log : List Effect

abbrev pub supervisor_error_exit : ℕ
supervisor_error_exit = 125

-- The module's initial values, once its own checks have passed and it has reported itself ready.
abbrev pub ready : Supervisor
ready = record {
  launch_received = false;
  awaiting_report = false;
  started = false;
  has_exited = false;
  error_heard = false;
  intentional_shutdown = false;
  exit_due = false;
  emergency_started = false;
  grace_ms = 1_000;
  connected = true;
  expected_cpus = none;
  ended = none;
  log = [];
}

abbrev pub act : Effect → Supervisor → Supervisor
act effect s = record s { log = effect ∷ s.log }

abbrev pub send : Message → Supervisor → Supervisor
send message s = if s.connected then act (sent message) s else s

unfoldable pub emergency_cleanup : Supervisor → Supervisor
emergency_cleanup s = if s.emergency_started then s else record s {
  emergency_started = true;
  log =
      exit_after (s.grace_ms + 1_000) supervisor_error_exit
      ∷ kill_after s.grace_ms
      ∷ group_term
      ∷ s.log;
}

abbrev pub fail_hard : Text → Supervisor → Supervisor
fail_hard code s = emergency_cleanup (send (fatal code) s)

-- What the launch handler observes: its own allowed CPUs, the provenance check's error, and the
-- error that `spawn` throws.
pub record Observed : Type 0 where
  pub own_cpus : Option Text
  pub provenance : Outcome (Option Text) (Unit {0})
  pub spawn : Outcome (Option Text) (Unit {0})

-- `expectedCpuList !== null && observed !== expectedCpuList`
abbrev pub is_mismatch : Option Text → Option Text → Bool
is_mismatch none observed = false
is_mismatch (some expected) observed = not (is_text observed expected)

abbrev pub spawn_workload : Launch → Outcome (Option Text) (Unit {0}) → Supervisor → Supervisor
spawn_workload message (throw code) s =
    send (workload_launch_error (normalize_error_code code (codes "SPAWN_THROW"))) s
spawn_workload message (ok _) s = record s { awaiting_report = true; log = spawned message ∷ s.log }

abbrev pub check_provenance :
    Launch → Observed → Outcome (Option Text) (Unit {0}) → Supervisor → Supervisor
check_provenance message seen (throw code) s =
    send (workload_launch_error (normalize_error_code code (codes "WORKLOAD_PROVENANCE_ERROR"))) s
check_provenance message seen (ok _) s = spawn_workload message seen.spawn s

abbrev pub accept_launch : Launch → Observed → Supervisor → Supervisor
accept_launch message seen s =
    if is_mismatch (expected_cpu_list message.cpu_affinity) seen.own_cpus
    then send (workload_launch_error (codes "AFFINITY_MISMATCH")) s
    else check_provenance message seen seen.provenance s

abbrev pub received : Launch → Supervisor → Supervisor
received message s = record s {
  launch_received = true;
  grace_ms = message.grace_ms;
  expected_cpus = expected_cpu_list message.cpu_affinity;
}

-- `none` is a launch message of another shape.
unfoldable pub launch : Option Launch → Observed → Supervisor → Supervisor
launch none seen s = fail_hard (codes "INVALID_LAUNCH_MESSAGE") s
launch (some message) seen s =
    if s.launch_received || not (validate_launch message)
    then fail_hard (codes "INVALID_LAUNCH_MESSAGE") s
    else accept_launch message seen (received message s)

-- `readIdentity(workload.pid)`: the process group is this supervisor's, or another.
pub record Identity : Type 0 where
  pub own_group : Bool
  pub start_ticks : Text

-- `observed ?? own`
abbrev pub allowed_list : Option Text → Option Text → Option Text
allowed_list none own = own
allowed_list (some observed) own = some observed

abbrev pub outside_group : Option Identity → Bool
outside_group none = false
outside_group (some identity) = not identity.own_group

abbrev pub ticks_of : Option Identity → Option Text
ticks_of none = none
ticks_of (some identity) = some identity.start_ticks

abbrev pub report_start : ℕ → Option Identity → Option Text → Option Text → Supervisor → Supervisor
report_start pid identity observed none s = fail_hard (codes "WORKLOAD_AFFINITY_MISMATCH") s
report_start pid identity observed (some cpus) s =
    if is_mismatch s.expected_cpus observed
    then fail_hard (codes "WORKLOAD_AFFINITY_MISMATCH") s
    else send (workload_started pid (ticks_of identity) cpus) s

unfoldable pub on_spawn : ℕ → Option Identity → Option Text → Option Text → Supervisor → Supervisor
on_spawn pid identity observed own s =
    let running = record s { started = true; awaiting_report = false } in
    if outside_group identity
    then fail_hard (codes "WORKLOAD_GROUP_MISMATCH") running
    else report_start pid identity observed (allowed_list observed own) running

-- A second `error` event has no listener left, and is an uncaught exception.
unfoldable pub on_error : Option Text → Supervisor → Supervisor
on_error code s =
    if s.error_heard
    then fail_hard (codes "SUPERVISOR_EXCEPTION") s
    else let heard = record s { error_heard = true; awaiting_report = false } in
      if s.started
      then send (fatal (normalize_error_code code (codes "WORKLOAD_ERROR"))) heard
      else send (workload_launch_error (normalize_error_code code (codes "SPAWN_ERROR"))) heard

unfoldable pub on_exit : Option ℕ → Option Text → Supervisor → Supervisor
on_exit exit_code signal s = send (workload_exit exit_code signal) (record s { has_exited = true })

unfoldable pub shutdown : Supervisor → Supervisor
shutdown s =
    if s.intentional_shutdown
    then s
    else if s.started && not s.has_exited
    then emergency_cleanup
        (record (send (fatal (codes "SHUTDOWN_WITH_LIVE_WORKLOAD"))
          (record s { intentional_shutdown = true })) { intentional_shutdown = false })
    else record s {
      intentional_shutdown = true;
      connected = false;
      exit_due = true;
      log = disconnected ∷ s.log;
    }

pub data Control : Type 0 where
  launch_message : Option Launch → Observed → Control
  shutdown_message unknown_message : Control

abbrev pub on_message : Control → Supervisor → Supervisor
on_message (launch_message message seen) s = launch message seen s
on_message shutdown_message s = shutdown s
on_message unknown_message s = fail_hard (codes "UNKNOWN_CONTROL_MESSAGE") s

unfoldable pub on_disconnect : Supervisor → Supervisor
on_disconnect s =
    let apart = record s { connected = false } in
    if s.intentional_shutdown then apart else emergency_cleanup apart

pub data Event : Type 0 where
  message : Control → Event
  workload_spawned : ℕ → Option Identity → Option Text → Option Text → Event
  workload_failed : Option Text → Event
  workload_ended : Option ℕ → Option Text → Event
  channel_closed uncaught_exception unhandled_rejection : Event
  -- Whether the group signal reached the group, this process among it.
  kill_timer : Bool → Event
  exit_timer exit_immediate : Event

abbrev pub kill_group : Bool → Supervisor → Supervisor
kill_group true s = record s { ended = some killed; log = group_kill ∷ s.log }
kill_group false s = s

-- The handler of each event.
unfoldable pub step : Event → Supervisor → Supervisor
step (message control) s = on_message control s
step (workload_spawned pid identity observed own) s = on_spawn pid identity observed own s
step (workload_failed code) s = on_error code s
step (workload_ended exit_code signal) s = on_exit exit_code signal s
step channel_closed s = on_disconnect s
step uncaught_exception s = fail_hard (codes "SUPERVISOR_EXCEPTION") s
step unhandled_rejection s = fail_hard (codes "SUPERVISOR_REJECTION") s
step (kill_timer reached) s = kill_group reached s
step exit_timer s = record s { ended = some (exited supervisor_error_exit) }
step exit_immediate s = record s { ended = some (exited 0) }
