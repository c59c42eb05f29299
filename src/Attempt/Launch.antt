-- ===== src/Attempt/Launch.antt =====
-- The launch message of diagnose-lib/attempt-supervisor.mjs and `validateLaunch`. A message whose
-- keys, or the kinds of its values, are not the protocol's is not a `Launch` at all: `validateLaunch`
-- refuses it before anything else. Texts are lists of code points.
use fault_affinity.Prelude.{
  ℕ, ◌+◌, ◌*◌, Bool, true, false, List, [], ◌∷◌, Option, none, some, every, length, ltb, leb, ◌==◌,
  if◌then◌else◌, not, ◌&&◌, ◌||◌,
}
use fault_affinity.Text.{Text, text_eq, is_digit, is_upper, is_error_code, decimal, split}

pub data Affinity : Type 0 where
  any_cpu : Affinity
  one_cpu : ℕ → Affinity
  cpu_text : Text → Affinity

-- `provenance.executable?.path` and `provenance.cwd`, where they are strings.
pub record Provenance : Type 0 where
  pub executable_path : Option Text
  pub provenance_cwd : Option Text

pub record Variable : Type 0 where
  pub name : Text
  pub value : Text

pub record Launch : Type 0 where
  pub version : ℕ
  pub executable : Text
  pub args : List Text
  pub cwd : Text
  pub environment : List Variable
  pub grace_ms : ℕ
  pub cpu_affinity : Affinity
  pub provenance : Provenance
  pub stdin_payload : Option Text

abbrev pub protocol_version : ℕ
protocol_version = 4

abbrev pub max_launch_payload_bytes : ℕ
max_launch_payload_bytes = 2 * 1024 * 1024

-- `Buffer.byteLength` of a string in UTF-8.
abbrev pub char_bytes : ℕ → ℕ
char_bytes c = if ltb c 128 then 1 else if ltb c 2048 then 2 else if ltb c 65_536 then 3 else 4

abbrev pub byte_length : Text → ℕ
byte_length [] = 0
byte_length (c ∷ rest) = char_bytes c + byte_length rest

unfoldable pub valid_string : Text → Bool
valid_string value = every (λ c. not (c == 0)) value && leb (byte_length value) (16 * 1024)

-- `value.startsWith("/")`
abbrev pub starts_with_slash : Text → Bool
starts_with_slash [] = false
starts_with_slash (c ∷ rest) = c == b'/'

abbrev pub is_name_start : ℕ → Bool
is_name_start c = is_upper c || ((leb b'a' c && leb c b'z') || c == b'_')

-- `^[A-Za-z_][A-Za-z0-9_]*$`
abbrev pub is_variable_name : Text → Bool
is_variable_name [] = false
is_variable_name (c ∷ rest) = is_name_start c && every (λ d. is_name_start d || is_digit d) rest

abbrev pub is_digits : Text → Bool
is_digits [] = false
is_digits (c ∷ rest) = every is_digit (c ∷ rest)

-- `[0-9]+(?:-[0-9]+)?`
abbrev pub is_cpu_range : List Text → Bool
is_cpu_range (first ∷ []) = is_digits first
is_cpu_range (first ∷ last ∷ []) = is_digits first && is_digits last
is_cpu_range _ = false

abbrev pub is_cpu_text : Text → Bool
is_cpu_text text =
    leb (length text) (64 * 1024)
    && every (λ piece. is_cpu_range (split b'-' piece)) (split b',' text)

abbrev pub valid_affinity : Affinity → Bool
valid_affinity any_cpu = true
valid_affinity (one_cpu cpu) = leb cpu 65_535
valid_affinity (cpu_text text) = is_cpu_text text

abbrev pub valid_payload : Option Text → Bool
valid_payload none = true
valid_payload (some payload) = leb (byte_length payload) max_launch_payload_bytes

-- `found === wanted`, where `found` may be no string.
abbrev pub is_text : Option Text → Text → Bool
is_text none wanted = false
is_text (some found) wanted = text_eq found wanted

abbrev pub valid_variable : Variable → Bool
valid_variable variable = is_variable_name variable.name && valid_string variable.value

unfoldable pub validate_launch : Launch → Bool
validate_launch message =
    message.version == protocol_version
    && (valid_payload message.stdin_payload
        && ((valid_string message.executable && starts_with_slash message.executable)
            && ((leb (length message.args) 4_096 && every valid_string message.args)
                && ((valid_string message.cwd && starts_with_slash message.cwd)
                    && ((leb (length message.environment) 256
                          && every valid_variable message.environment)
                        && (leb message.grace_ms 60_000
                            && (valid_affinity message.cpu_affinity
                                && (is_text message.provenance.executable_path message.executable
                                    && is_text message.provenance.provenance_cwd message.cwd))))))))

-- `message.cpuAffinity === null ? null : String(message.cpuAffinity)`
abbrev pub expected_cpu_list : Affinity → Option Text
expected_cpu_list any_cpu = none
expected_cpu_list (one_cpu cpu) = some (decimal cpu)
expected_cpu_list (cpu_text text) = some text

abbrev pub or_text : Option Text → Text → Text
or_text none fallback = fallback
or_text (some code) fallback = code

unfoldable pub normalize_error_code : Option Text → Text → Text
normalize_error_code found fallback =
    let candidate = or_text found fallback in
    if is_error_code candidate then candidate else fallback
