-- ===== src/Debugger/Control.antt =====
-- `validateFrame` and `validateSequence` of diagnose-lib/debugger-control.mjs, over records as
-- `JSON.parse` gives them. `known_signal` is membership in `os.constants.signals`.
pub mod Grammar
mod Examples
use fault_affinity.Prelude.{
  ℕ, zero, suc, ◌+◌, Bool, true, false, List, [], ◌∷◌, Option, none, some, length, leb, ◌==◌,
  if◌then◌else◌, ◌&&◌, ◌||◌, Outcome, ok, throw, ◌>>=◌, ◌>>◌, require,
}
use fault_affinity.Text.{Text, text_eq, is_hex_of, is_error_code, is_canonical}

pub data Stage : Type 0 where
  launch observe capture other : Stage

-- What a record holds besides the common keys. `unknown_type` is a record of no known type, and
-- `malformed` one of a known type whose keys, or the kinds of its values, are not the type's.
pub data Body : Type 0 where
  profile_ready : Text → Body
  inferior_started : ℕ → Text → Text → Body
  inferior_stopped : Text → Body
  inferior_exited : ℕ → Body
  inferior_signaled : Text → Body
  capture_complete : List Text → Body
  profile_error : Stage → Text → Body
  profile_complete : Body
  malformed : Body
  unknown_type : Body

pub record Frame : Type 0 where
  pub version : ℕ
  pub generation : Text
  pub manifest_sha256 : Text
  pub run : ℕ
  pub nonce : Text
  pub sequence : ℕ
  pub body : Body

pub record Expected : Type 0 where
  pub generation : Text
  pub manifest_sha256 : Text
  pub run : ℕ
  pub nonce : Text
  pub profile_id : Text
  pub capture_sections : List Text
  pub allowed_cpu_list : Text

-- One constructor for each `requireCondition`, in the order of the source.
pub data ControlError : Type 0 where
  bad_version bad_type bad_generation bad_manifest bad_run bad_nonce bad_sequence : ControlError
  bad_keys bad_profile bad_pid bad_start_ticks bad_cpu bad_signal bad_exit_code : ControlError
  bad_sections bad_stage bad_code : ControlError
  no_ready no_launch no_terminal no_capture no_complete after_complete incomplete : ControlError

abbrev pub texts_eq : List Text → List Text → Bool
texts_eq [] [] = true
texts_eq [] (y ∷ ys) = false
texts_eq (x ∷ xs) [] = false
texts_eq (x ∷ xs) (y ∷ ys) = text_eq x y && texts_eq xs ys

abbrev pub is_known : Body → Bool
is_known unknown_type = false
is_known _ = true

abbrev pub is_known_stage : Stage → Bool
is_known_stage other = false
is_known_stage _ = true

-- `^(0|[1-9][0-9]{0,31})$`
abbrev pub is_start_ticks : Text → Bool
is_start_ticks text = is_canonical text && leb (length text) 32

unfoldable pub validate_common : Frame → Expected → ℕ → Outcome ControlError (Unit {0})
validate_common frame expected sequence = do
  require (frame.version == 1) bad_version
  require (is_known frame.body) bad_type
  require (text_eq frame.generation expected.generation) bad_generation
  require
      (is_hex_of 64 frame.manifest_sha256 && text_eq frame.manifest_sha256 expected.manifest_sha256)
      bad_manifest
  require (frame.run == expected.run) bad_run
  require (text_eq frame.nonce expected.nonce) bad_nonce
  require (frame.sequence == sequence) bad_sequence

module _ (known_signal : Text → Bool) where
  unfoldable pub validate_body : Body → Expected → Outcome ControlError (Unit {0})
  validate_body (profile_ready profile) expected =
      require (text_eq profile expected.profile_id) bad_profile
  validate_body (inferior_started pid start_ticks allowed) expected = do
    require (leb 2 pid && leb pid 2_147_483_647) bad_pid
    require (is_start_ticks start_ticks) bad_start_ticks
    require (text_eq allowed expected.allowed_cpu_list) bad_cpu
  validate_body (inferior_stopped signal) expected = require (known_signal signal) bad_signal
  validate_body (inferior_exited code) expected = require (leb code 255) bad_exit_code
  validate_body (inferior_signaled signal) expected = require (known_signal signal) bad_signal
  validate_body (capture_complete sections) expected =
      require (texts_eq sections expected.capture_sections) bad_sections
  validate_body (profile_error stage code) expected = do
    require (is_known_stage stage) bad_stage
    require (is_error_code code) bad_code
  validate_body profile_complete expected = ok tt
  validate_body malformed expected = throw bad_keys
  validate_body unknown_type expected = throw bad_type

  unfoldable pub validate_frame : Frame → Expected → ℕ → Outcome ControlError (Unit {0})
  validate_frame frame expected sequence = do
    validate_common frame expected sequence
    validate_body frame.body expected

pub data ControlState : Type 0 where
  at_ready at_launch at_terminal at_capture at_complete at_done : ControlState

pub data Terminal : Type 0 where
  stopped : Text → Terminal
  exited : ℕ → Terminal
  signaled : Text → Terminal

pub record Inferior : Type 0 where
  pub pid : ℕ
  pub start_ticks : Text
  pub allowed_cpu_list : Text

-- The local variables of `validateSequence`.
pub record Progress : Type 0 where
  pub state : ControlState
  pub inferior : Option Inferior
  pub terminal : Option Terminal
  pub captured : Option (List Text)
  pub error : Option (Stage × Text)

abbrev pub start : Progress
start = record { state = at_ready; inferior = none; terminal = none; captured = none; error = none }

-- An error record of the stage that the state allows ends the run.
unfoldable pub fail_stage : Progress → Stage → Text → Progress
fail_stage p stage code = record p { error = some (stage, code); state = at_complete }

-- The body of the loop, after `validateFrame`.
unfoldable pub advance_control : ControlState → Body → Progress → Outcome ControlError Progress
unfolding fail_stage
advance_control at_ready (profile_ready _) p = ok (record p { state = at_launch })
advance_control at_ready _ p = throw no_ready
advance_control at_launch (inferior_started pid start_ticks allowed) p = ok (record p {
  inferior = some (record { pid = pid; start_ticks = start_ticks; allowed_cpu_list = allowed });
  state = at_terminal;
})
advance_control at_launch (profile_error launch code) p = ok (fail_stage p launch code)
advance_control at_launch _ p = throw no_launch
advance_control at_terminal (inferior_stopped signal) p =
    ok (record p { terminal = some (stopped signal); state = at_capture })
advance_control at_terminal (inferior_exited code) p =
    ok (record p { terminal = some (exited code); state = at_complete })
advance_control at_terminal (inferior_signaled signal) p =
    ok (record p { terminal = some (signaled signal); state = at_complete })
advance_control at_terminal (profile_error observe code) p = ok (fail_stage p observe code)
advance_control at_terminal _ p = throw no_terminal
advance_control at_capture (capture_complete sections) p =
    ok (record p { captured = some sections; state = at_complete })
advance_control at_capture (profile_error capture code) p = ok (fail_stage p capture code)
advance_control at_capture _ p = throw no_capture
advance_control at_complete profile_complete p = ok (record p { state = at_done })
advance_control at_complete _ p = throw no_complete
advance_control at_done _ p = throw after_complete

-- The test after the loop.
unfoldable pub finish : Progress → Outcome ControlError Progress
finish p = elim p.state [ at_done ↦ ok p | _ ↦ throw incomplete ]

module _ (known_signal : Text → Bool) (expected : Expected) where
  pub run_frames : ℕ → List Frame → Progress → Outcome ControlError Progress
  run_frames index [] p = ok p
  run_frames index (frame ∷ frames) p =
      validate_frame known_signal frame expected (index + 1) >>= λ _.
      advance_control p.state frame.body p >>= λ p'. run_frames (index + 1) frames p'

  unfoldable pub validate_sequence : List Frame → Outcome ControlError Progress
  validate_sequence frames = run_frames 0 frames start >>= finish
