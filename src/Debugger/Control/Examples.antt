-- ===== src/Debugger/Control/Examples.antt =====
-- A transcript of a stopped and captured run, and one cut short.
use fault_affinity.Prelude.{
  ℕ, ◌≤◌, ◌≡◌, ◌≢◌, ◌↔◌, refl, Bool, List, [], ◌∷◌, none, some, ok, throw, length, array_from,
}
use fault_affinity.Text.{Text, text_eq}
use fault_affinity.Debugger.Control.{
  Body, profile_ready, inferior_started, inferior_stopped, capture_complete, profile_complete,
  Frame, Expected, stopped, at_done, Progress, incomplete, validate_common, validate_body,
  validate_frame, advance_control, finish, run_frames, validate_sequence,
}
use fault_affinity.Debugger.Control.Grammar.{
  AreFramesOf, bodies, Conversation, records, result, progress,
}
use fault_affinity.Debugger.Control.Grammar.Frames.{
  validate_sequence_iff, validate_sequence_settled,
}

abbrev sigsegv : Text
sigsegv = b'S' ∷ b'E' ∷ b'G' ∷ b'V' ∷ []

abbrev is_sigsegv : Text → Bool
is_sigsegv signal = text_eq signal sigsegv

abbrev expected : Expected
expected = record {
  generation = b'a' ∷ [];
  manifest_sha256 = array_from 64 (λ _. b'f');
  run = 2;
  nonce = b'0' ∷ [];
  profile_id = b'p' ∷ [];
  capture_sections = (b'b' ∷ []) ∷ [];
  allowed_cpu_list = b'7' ∷ [];
}

abbrev frame : ℕ → Body → Frame
frame sequence body = record {
  version = 1;
  generation = expected.generation;
  manifest_sha256 = expected.manifest_sha256;
  run = 2;
  nonce = expected.nonce;
  sequence = sequence;
  body = body;
}

abbrev transcript : List Frame
transcript =
    frame 1 (profile_ready (b'p' ∷ []))
    ∷ frame 2 (inferior_started 41 (b'9' ∷ []) (b'7' ∷ []))
    ∷ frame 3 (inferior_stopped sigsegv)
    ∷ frame 4 (capture_complete expected.capture_sections)
    ∷ frame 5 profile_complete
    ∷ []

abbrev captured_run : Progress
captured_run =
    progress at_done
      (some (record { pid = 41; start_ticks = b'9' ∷ []; allowed_cpu_list = b'7' ∷ [] }))
      (some (stopped sigsegv)) (some expected.capture_sections) none

transcript_accepted : validate_sequence is_sigsegv expected transcript ≡ ok captured_run
unfolding validate_sequence run_frames validate_frame validate_common validate_body advance_control
    finish
transcript_accepted = refl

cut_short :
    validate_sequence is_sigsegv expected (frame 1 (profile_ready (b'p' ∷ [])) ∷ [])
    ≡ throw incomplete
unfolding validate_sequence run_frames validate_frame validate_common validate_body advance_control
    finish
cut_short = refl

validate_sequence_iff_example :
    (validate_sequence is_sigsegv expected transcript ≡ ok captured_run) ↔ (
      AreFramesOf is_sigsegv expected 0 transcript
      × ((c : Conversation) × (bodies transcript ≡ records c) × (captured_run ≡ result c)))
validate_sequence_iff_example = validate_sequence_iff is_sigsegv expected transcript captured_run

validate_sequence_settled_example :
    (3 ≤ length transcript)
    × (length transcript ≤ 5)
    × (captured_run.error ≡ none → (captured_run.inferior ≢ none) × (captured_run.terminal ≢ none))
    × (captured_run.captured ≢ none → captured_run.error ≡ none)
validate_sequence_settled_example =
    validate_sequence_settled is_sigsegv expected transcript transcript_accepted
