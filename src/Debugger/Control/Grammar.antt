-- ===== src/Debugger/Control/Grammar.antt =====
-- The six conversations of a transcript, beside `validateSequence`.
pub mod Sequences
pub mod Frames
use fault_affinity.Prelude.{ℕ, suc, ◌+◌, ◌≤◌, ◌≡◌, Bool, true, List, [], ◌∷◌, Option, none, some}
use fault_affinity.Text.{Text, is_hex_of, is_error_code}
use fault_affinity.Debugger.Control.{
  Stage, launch, observe, capture, Body, profile_ready, inferior_started, inferior_stopped,
  inferior_exited, inferior_signaled, capture_complete, profile_error, profile_complete, malformed,
  unknown_type, Frame, Expected, is_start_ticks, is_known_stage, ControlState, at_done, Terminal,
  stopped, exited, signaled, Inferior, Progress,
}

abbrev pub IsBodyOf : (Text → Bool) → Expected → Body → Type 0
IsBodyOf known expected (profile_ready profile) = profile ≡ expected.profile_id
IsBodyOf known expected (inferior_started pid ticks allowed) =
    (2 ≤ pid)
    × (pid ≤ 2_147_483_647)
    × (is_start_ticks ticks ≡ true)
    × (allowed ≡ expected.allowed_cpu_list)
IsBodyOf known expected (inferior_stopped signal) = known signal ≡ true
IsBodyOf known expected (inferior_exited code) = code ≤ 255
IsBodyOf known expected (inferior_signaled signal) = known signal ≡ true
IsBodyOf known expected (capture_complete sections) = sections ≡ expected.capture_sections
IsBodyOf known expected (profile_error stage code) =
    (is_known_stage stage ≡ true) × (is_error_code code ≡ true)
IsBodyOf known expected profile_complete = Unit
IsBodyOf known expected malformed = ⊥
IsBodyOf known expected unknown_type = ⊥

-- The record belongs to this run, at this place in the transcript.
pub record IsFrameOf (known : Text → Bool) (expected : Expected) (place : ℕ) (frame : Frame)
    : Type 0 where
  pub version : frame.version ≡ 1
  pub generation : frame.generation ≡ expected.generation
  pub digest : is_hex_of 64 frame.manifest_sha256 ≡ true
  pub manifest : frame.manifest_sha256 ≡ expected.manifest_sha256
  pub run : frame.run ≡ expected.run
  pub nonce : frame.nonce ≡ expected.nonce
  pub sequence : frame.sequence ≡ place
  pub body : IsBodyOf known expected frame.body

-- The records are numbered from the place on, without a gap.
abbrev pub AreFramesOf : (Text → Bool) → Expected → ℕ → List Frame → Type 0
AreFramesOf known expected index [] = Unit
AreFramesOf known expected index (frame ∷ frames) =
    IsFrameOf known expected (index + 1) frame × AreFramesOf known expected (index + 1) frames

abbrev pub bodies : List Frame → List Body
bodies [] = []
bodies (frame ∷ frames) = frame.body ∷ bodies frames

abbrev pub progress :
    ControlState
    → Option Inferior
    → Option Terminal
    → Option (List Text)
    → Option (Stage × Text)
    → Progress
progress state inferior terminal captured error = record {
  state = state;
  inferior = inferior;
  terminal = terminal;
  captured = captured;
  error = error;
}

-- The valid paths of docs/reference/generic-debugger-control.md. Where the inferior started, a path
-- holds its process id, start ticks and CPU list.
pub data Conversation : Type 0 where
  launch_failed : (profile code : Text) → Conversation
  observe_failed : (profile : Text) → Inferior → (code : Text) → Conversation
  ran_to_exit : (profile : Text) → Inferior → (code : ℕ) → Conversation
  ran_to_signal : (profile : Text) → Inferior → (signal : Text) → Conversation
  was_captured : (profile : Text) → Inferior → (signal : Text) → List Text → Conversation
  capture_failed : (profile : Text) → Inferior → (signal code : Text) → Conversation

abbrev pub started : Inferior → Body
started i = inferior_started i.pid i.start_ticks i.allowed_cpu_list

abbrev pub records : Conversation → List Body
records (launch_failed profile code) =
    profile_ready profile ∷ profile_error launch code ∷ profile_complete ∷ []
records (observe_failed profile i code) =
    profile_ready profile ∷ started i ∷ profile_error observe code ∷ profile_complete ∷ []
records (ran_to_exit profile i code) =
    profile_ready profile ∷ started i ∷ inferior_exited code ∷ profile_complete ∷ []
records (ran_to_signal profile i signal) =
    profile_ready profile ∷ started i ∷ inferior_signaled signal ∷ profile_complete ∷ []
records (was_captured profile i signal sections) =
    profile_ready profile
    ∷ started i
    ∷ inferior_stopped signal
    ∷ capture_complete sections
    ∷ profile_complete
    ∷ []
records (capture_failed profile i signal code) =
    profile_ready profile
    ∷ started i
    ∷ inferior_stopped signal
    ∷ profile_error capture code
    ∷ profile_complete
    ∷ []

abbrev pub result : Conversation → Progress
result (launch_failed profile code) = progress at_done none none none (some (launch, code))
result (observe_failed profile i code) = progress at_done (some i) none none (some (observe, code))
result (ran_to_exit profile i code) = progress at_done (some i) (some (exited code)) none none
result (ran_to_signal profile i signal) =
    progress at_done (some i) (some (signaled signal)) none none
result (was_captured profile i signal sections) =
    progress at_done (some i) (some (stopped signal)) (some sections) none
result (capture_failed profile i signal code) =
    progress at_done (some i) (some (stopped signal)) none (some (capture, code))
