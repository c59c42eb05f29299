-- ===== src/CpuList/Examples.antt =====
-- CPU lists that diagnose-lib/tests/pinned-runner.test.mjs expands and compresses, and the round
-- trip at one of them.
use fault_affinity.Prelude.{ℕ, ◌≡◌, refl, List, [], ◌∷◌, ok, throw}
use fault_affinity.Text.{Text, decimal, parse_decimal}
use fault_affinity.Schedule.Orders.{
  descending_range, duplicate_cpu, invalid_token, validate_cpu_array,
}
use fault_affinity.Schedule.Orders.Validity.{IsCpuArray, validate_cpu_array_sound}
use fault_affinity.CpuList.{
  validate_cpu, validate_string, parse_token, push_range, expand_tokens, expand_cpu_list, runs_from,
  run_token, compress_cpu_list,
}
use fault_affinity.CpuList.RoundTrip.{expand_cpu_list-compress_cpu_list, expand_cpu_list-IsCpuArray}

abbrev cpus : List ℕ
cpus = 0 ∷ 1 ∷ 2 ∷ 7 ∷ 5 ∷ 6 ∷ []

-- "0-2,7,5-6"
abbrev text : Text
text = b'0' ∷ b'-' ∷ b'2' ∷ b',' ∷ b'7' ∷ b',' ∷ b'5' ∷ b'-' ∷ b'6' ∷ []

compressed : compress_cpu_list cpus ≡ ok text
unfolding compress_cpu_list validate_cpu_array runs_from run_token decimal
compressed = refl

expanded : expand_cpu_list text ≡ ok cpus
unfolding expand_cpu_list validate_cpu_array validate_cpu validate_string parse_token expand_tokens
    push_range parse_decimal
expanded = refl

-- "3-1", "1,1" and "01"
refused :
    (expand_cpu_list (b'3' ∷ b'-' ∷ b'1' ∷ []) ≡ throw descending_range)
    × (expand_cpu_list (b'1' ∷ b',' ∷ b'1' ∷ []) ≡ throw duplicate_cpu)
    × (expand_cpu_list (b'0' ∷ b'1' ∷ []) ≡ throw invalid_token)
unfolding expand_cpu_list validate_cpu_array validate_cpu validate_string parse_token expand_tokens
    push_range parse_decimal
refused = (refl, refl, refl)

cpus-IsCpuArray : IsCpuArray cpus
unfolding validate_cpu_array
cpus-IsCpuArray = (validate_cpu_array_sound cpus cpus refl).1

expand_cpu_list-compress_cpu_list_example :
    (t : Text) × (compress_cpu_list cpus ≡ ok t) × (expand_cpu_list t ≡ ok cpus)
expand_cpu_list-compress_cpu_list_example = expand_cpu_list-compress_cpu_list cpus cpus-IsCpuArray

expand_cpu_list-IsCpuArray_example : IsCpuArray cpus
expand_cpu_list-IsCpuArray_example = expand_cpu_list-IsCpuArray text expanded
