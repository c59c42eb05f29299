-- ===== src/CpuList.antt =====
-- `expandCpuList` and `compressCpuList` of diagnose-lib/pinned-runner.mjs. `seen` holds the CPUs
-- pushed so far, so it is not kept apart.
pub mod Runs
pub mod RoundTrip
mod Examples
use fault_affinity.Prelude.{
  ℕ, zero, suc, ◌+◌, ◌-◌, Bool, true, false, List, [], ◌∷◌, ◌++◌, map, Option, none, some, length,
  every, includes, ltb, leb, ◌==◌, if◌then◌else◌, not, ◌&&◌, Outcome, ok, throw, ◌>>=◌, ◌>>◌,
  require,
}
use fault_affinity.Text.{Text, decimal, parse_decimal, split, join}
use fault_affinity.Schedule.Orders.{
  RunnerError, bad_string, list_too_long, descending_range, invalid_token, duplicate_cpu,
  cpu_out_of_range, max_cpu_id, max_count, validate_cpu_array,
}

unfoldable pub validate_cpu : ℕ → Outcome RunnerError (Unit {0})
validate_cpu cpu = require (leb cpu max_cpu_id) cpu_out_of_range

-- `validateString(spec, "CPU list")`
unfoldable pub validate_string : Text → Outcome RunnerError (Unit {0})
validate_string spec = require (not (length spec == 0) && every (λ c. not (c == 0)) spec) bad_string

-- The first and last CPU of a token, by the two regular expressions: numerals hold no dash, so the
-- first matches the token when its dash parts it into two numerals.
pub token_numbers : List Text → Outcome RunnerError (ℕ × ℕ)
token_numbers (single ∷ []) = elim (parse_decimal single) [
  | some cpu ↦ do validate_cpu cpu; ok (cpu, cpu)
  | none ↦ throw invalid_token
]
token_numbers (left ∷ right ∷ []) = elim (parse_decimal left) [
  | some first ↦ elim (parse_decimal right) [
    | some last ↦ do
      validate_cpu first
      validate_cpu last
      require (leb first last) descending_range
      ok (first, last)
    | none ↦ throw invalid_token
  ]
  | none ↦ throw invalid_token
]
token_numbers _ = throw invalid_token

unfoldable pub parse_token : Text → Outcome RunnerError (ℕ × ℕ)
unfolding token_numbers
parse_token token = token_numbers (split b'-' token)

-- `for (let cpu = first; cpu <= last; cpu += 1)`, over the rounds left.
unfoldable pub push_range : ℕ → ℕ → List ℕ → Outcome RunnerError (List ℕ)
push_range zero cpu cpus = ok cpus
push_range (suc rounds) cpu cpus =
    let later = push_range rounds (cpu + 1) (cpus ++ cpu ∷ []) in
    if includes cpus cpu then throw duplicate_cpu else later

unfoldable pub expand_tokens : List Text → List ℕ → Outcome RunnerError (List ℕ)
expand_tokens [] cpus = ok cpus
expand_tokens (token ∷ tokens) cpus = parse_token token >>= λ (first, last).
    push_range (suc last - first) first cpus >>= λ more. expand_tokens tokens more

unfoldable pub expand_cpu_list : Text → Outcome RunnerError (List ℕ)
expand_cpu_list spec = do
  validate_string spec
  require (leb (length spec) max_count) list_too_long
  cpus ← expand_tokens (split b',' spec) []
  validate_cpu_array cpus

-- The outer and inner loop of `compressCpuList`: the run `first` to `last` is still open.
pub runs_from : ℕ → ℕ → List ℕ → List (ℕ × ℕ)
runs_from first last [] = (first, last) ∷ []
runs_from first last (cpu ∷ cpus) =
    let joins = cpu == last + 1 in
    let later = runs_from (if joins then first else cpu) cpu cpus in
    if joins then later else (first, last) ∷ later

abbrev pub runs : List ℕ → List (ℕ × ℕ)
runs [] = []
runs (cpu ∷ cpus) = runs_from cpu cpu cpus

unfoldable pub run_token : ℕ × ℕ → Text
run_token (first, last) =
    if last == first then decimal first else decimal first ++ (b'-' ∷ decimal last)

unfoldable pub compress_cpu_list : List ℕ → Outcome RunnerError Text
compress_cpu_list cpus = do
  values ← validate_cpu_array cpus
  ok (join b',' (map run_token (runs values)))
