-- ===== src/CpuList/RoundTrip.antt =====
-- `expandCpuList` on the texts that `compressCpuList` writes.
use mathlib.Core.List.{Nodup, append_assoc, append-nil}
use fault_affinity.Prelude.{
  ℕ, suc, ◌+◌, ◌-◌, ◌*◌, ◌≤◌, ◌<◌, ◌≡◌, refl, sym, ap, ◌∙◌, subst, inl, inr, true, false, List, [],
  ◌∷◌, ◌++◌, map, some, length, length-append, All, every, leb, le→leb, ◌==◌, ==_iff, Bool-cases,
  ok, require, bind_returns, then_returns, arith,
}
use fault_affinity.Text.{Text, is_digit, decimal, parse_decimal, split, join}
use fault_affinity.Text.Decimals.{
  parse_decimal-decimal, decimal-digits, decimal-cons, length-decimal,
}
use fault_affinity.Text.Pieces.{lacks, lacks-append, split-piece, split-first, split-join}
use fault_affinity.Schedule.Orders.{max_cpu_id, max_count, list_too_long}
use fault_affinity.Schedule.Orders.Validity.{
  IsCpuArray, validate_cpu_array_accepts, validate_cpu_array_sound,
}
use fault_affinity.CpuList.{
  validate_cpu, validate_string, token_numbers, parse_token, expand_tokens, expand_cpu_list, runs,
  run_token, compress_cpu_list,
}
use fault_affinity.CpuList.Runs.{
  upto, run_cpus, one_run, length-upto, run_cpus-runs_from, IsRun, runs_from-IsRun,
  push_range_fresh,
}

lacks_of_digits :
    (separator : ℕ) (text : Text)
    → is_digit separator ≡ false
    → every is_digit text ≡ true
    → lacks separator text ≡ true
lacks_of_digits separator [] h all = refl
lacks_of_digits separator (c ∷ text) h all = elim (Bool-cases (c == separator)) [
  | inl e ↦
      let same : c ≡ separator = (==_iff c separator).0 e in
      ground (arith, lacks_of_digits separator text h)
  | inr ne ↦ rw ne (lacks_of_digits separator text h (ground arith))
]

-- A character that is no digit and no dash does not stand in a run's token.
lacks-run_token :
    (separator : ℕ) (run : ℕ × ℕ)
    → is_digit separator ≡ false
    → (b'-' == separator) ≡ false
    → lacks separator (run_token run) ≡ true
unfolding run_token
lacks-run_token separator (first, last) h dash = elim (Bool-cases (last == first)) [
  | inl one ↦ rw one (lacks_of_digits separator (decimal first) h (decimal-digits first))
  | inr two ↦ rw two (
      lacks-append separator (decimal first) (b'-' ∷ decimal last)
        (lacks_of_digits separator (decimal first) h (decimal-digits first))
        (rw dash (lacks_of_digits separator (decimal last) h (decimal-digits last))))
]

token_numbers_one :
    (single : Text) (cpu : ℕ)
    → parse_decimal single ≡ some cpu
    → cpu ≤ max_cpu_id
    → token_numbers (single ∷ []) ≡ ok (cpu, cpu)
unfolding token_numbers validate_cpu
token_numbers_one single cpu e h = rw (e, token_numbers) (rw (le→leb cpu max_cpu_id h))

token_numbers_two :
    (left right : Text) (first last : ℕ)
    → parse_decimal left ≡ some first
    → parse_decimal right ≡ some last
    → first ≤ last
    → last ≤ max_cpu_id
    → token_numbers (left ∷ right ∷ []) ≡ ok (first, last)
unfolding token_numbers validate_cpu
token_numbers_two left right first last e k h m =
    rw (e, token_numbers)
      (rw (k, token_numbers)
        (rw (le→leb first max_cpu_id (omega arith), le→leb last max_cpu_id m, le→leb first last h)))

parse_token-run_token : (run : ℕ × ℕ) → IsRun run → parse_token (run_token run) ≡ ok run
unfolding parse_token run_token
parse_token-run_token (first, last) (h, k) = elim (Bool-cases (last == first)) [
  | inl one ↦
      let same : first ≡ last = sym ((==_iff last first).0 one) in
      let pieces =
        split-piece b'-' (decimal first)
          (lacks_of_digits b'-' (decimal first) refl (decimal-digits first)) in
      rw (one, pieces)
        (token_numbers_one (decimal first) first (parse_decimal-decimal first) (omega arith)
          ∙ ap (λ c. ok (first, c)) same)
  | inr two ↦
      let pieces =
        split-first b'-' (decimal first) (decimal last)
          (lacks_of_digits b'-' (decimal first) refl (decimal-digits first))
        ∙ ap (◌∷◌ (decimal first)) (
            split-piece b'-' (decimal last)
              (lacks_of_digits b'-' (decimal last) refl (decimal-digits last))) in
      rw (two, pieces)
        (token_numbers_two (decimal first) (decimal last) first last (parse_decimal-decimal first)
          (parse_decimal-decimal last) h k)
]

expand_tokens_fresh :
    (rs : List (ℕ × ℕ)) (cpus : List ℕ)
    → All IsRun rs
    → Nodup (cpus ++ run_cpus rs)
    → expand_tokens (map run_token rs) cpus ≡ ok (cpus ++ run_cpus rs)
unfolding expand_tokens
expand_tokens_fresh [] cpus all nodup = ap ok (sym (append-nil cpus))
expand_tokens_fresh ((first, last) ∷ rs) cpus all nodup =
    let pushed = push_range_fresh (suc last - first) first cpus (run_cpus rs) nodup in
    let regroup = append_assoc cpus (upto (suc last - first) first) (run_cpus rs) in
    rw (parse_token-run_token (first, last) all.0, pushed)
      (expand_tokens_fresh rs (cpus ++ upto (suc last - first) first) all.1
          (subst Nodup (sym regroup) nodup)
        ∙ ap ok regroup)

lacks-join :
    (separator other : ℕ) (pieces : List Text)
    → (separator == other) ≡ false
    → All (λ p. lacks other p ≡ true) pieces
    → lacks other (join separator pieces) ≡ true
lacks-join separator other [] h all = refl
lacks-join separator other (piece ∷ []) h all = all.0
lacks-join separator other (piece ∷ next ∷ pieces) h all =
    lacks-append other piece (separator ∷ join separator (next ∷ pieces)) all.0
      (rw h (lacks-join separator other (next ∷ pieces) h all.1))

lacks_of_runs :
    (separator : ℕ) (rs : List (ℕ × ℕ))
    → is_digit separator ≡ false
    → (b'-' == separator) ≡ false
    → All (λ p. lacks separator p ≡ true) (map run_token rs)
lacks_of_runs separator [] h k = tt
lacks_of_runs separator (run ∷ rs) h k =
    (lacks-run_token separator run h k, lacks_of_runs separator rs h k)

length-run_token :
    (first last : ℕ)
    → IsRun (first, last)
    → length (run_token (first, last)) + 1 ≤ 6 * (suc last - first)
unfolding run_token
length-run_token first last (h, k) = elim (Bool-cases (last == first)) [
  | inl one ↦
      let same = (==_iff last first).0 one in
      rw one (omega (arith, length-decimal first (omega arith)))
  | inr two ↦
      let more : first < last = ground arith in
      let len = length-append (decimal first) (b'-' ∷ decimal last) in
      rw (two, len) (omega (arith, length-decimal first (omega arith), length-decimal last k))
]

length-join :
    (rs : List (ℕ × ℕ))
    → All IsRun rs
    → length (join b',' (map run_token rs)) ≤ 6 * length (run_cpus rs)
length-join [] all = omega arith
length-join ((first, last) ∷ []) all = omega (
  arith,
  length-run_token first last all.0,
  length-upto (suc last - first) first,
  length-append (upto (suc last - first) first) [],
)
length-join ((first, last) ∷ next ∷ rs) all = omega (
  arith,
  length-run_token first last all.0,
  length-upto (suc last - first) first,
  length-append (upto (suc last - first) first) (run_cpus (next ∷ rs)),
  length-append (run_token (first, last)) (b',' ∷ join b',' (map run_token (next ∷ rs))),
  length-join (next ∷ rs) all.1,
)

run_token-cons : (run : ℕ × ℕ) → (c : ℕ) × (rest : Text) × (run_token run ≡ c ∷ rest)
unfolding run_token
run_token-cons (first, last) =
    let (c, rest, e) = decimal-cons first in
    elim (Bool-cases (last == first)) [
      | inl one ↦ (c, rest, rw one e)
      | inr two ↦ (c, rest ++ (b'-' ∷ decimal last), rw (two, e) refl)
    ]

length-append_le : (xs ys : Text) → length xs ≤ length (xs ++ ys)
length-append_le xs ys = omega (arith, length-append xs ys)

join-nonempty :
    (run : ℕ × ℕ) (rs : List (ℕ × ℕ)) → 0 < length (join b',' (map run_token (run ∷ rs)))
join-nonempty run [] = let (c, rest, e) = run_token-cons run in omega (arith, ap length e)
join-nonempty run (next ∷ rs) =
    let (c, rest, e) = run_token-cons run in
    omega (
      arith,
      ap length e,
      length-append_le (run_token run) (b',' ∷ join b',' (map run_token (next ∷ rs))),
    )

expand_cpu_list_steps :
    (text : Text) (pieces : List Text) (cpus : List ℕ)
    → 0 < length text
    → length text ≤ 1_000_000
    → lacks 0 text ≡ true
    → split b',' text ≡ pieces
    → expand_tokens pieces [] ≡ ok cpus
    → IsCpuArray cpus
    → expand_cpu_list text ≡ ok cpus
unfolding expand_cpu_list validate_string
expand_cpu_list_steps text pieces cpus filled short clean parts expanded v =
    let held : (length text == 0) ≡ false = ground arith in
    rw (held, clean, le→leb (length text) 1_000_000 short, parts, expanded)
      (validate_cpu_array_accepts cpus v)

expand_written :
    (run : ℕ × ℕ) (rs : List (ℕ × ℕ))
    → All IsRun (run ∷ rs)
    → IsCpuArray (run_cpus (run ∷ rs))
    → expand_cpu_list (join b',' (map run_token (run ∷ rs))) ≡ ok (run_cpus (run ∷ rs))
expand_written run rs all v =
    let text = join b',' (map run_token (run ∷ rs)) in
    let short : length text ≤ 1_000_000 = omega (arith, length-join (run ∷ rs) all, v.bounded) in
    let some_text = join-nonempty run rs in
    let clean =
      lacks-join b',' 0 (map run_token (run ∷ rs)) refl (lacks_of_runs 0 (run ∷ rs) refl refl) in
    let pieces =
      split-join b',' (run_token run) (map run_token rs)
        (lacks_of_runs b',' (run ∷ rs) refl refl) in
    let expanded = expand_tokens_fresh (run ∷ rs) [] all v.distinct in
    expand_cpu_list_steps text (map run_token (run ∷ rs)) (run_cpus (run ∷ rs)) some_text short
      clean pieces expanded v

expand_runs :
    (rs : List (ℕ × ℕ))
    → All IsRun rs
    → IsCpuArray (run_cpus rs)
    → expand_cpu_list (join b',' (map run_token rs)) ≡ ok (run_cpus rs)
expand_runs [] all v = absurd (omega (arith, v.nonempty))
expand_runs (run ∷ rs) all v = expand_written run rs all v

-- `expandCpuList` reads the text that `compressCpuList` writes for a CPU array, and gives the same
-- CPUs in the same order.
pub expand_cpu_list-compress_cpu_list :
    (cpus : List ℕ)
    → IsCpuArray cpus
    → (text : Text) × (compress_cpu_list cpus ≡ ok text) × (expand_cpu_list text ≡ ok cpus)
unfolding compress_cpu_list
expand_cpu_list-compress_cpu_list [] v = absurd (omega (arith, v.nonempty))
expand_cpu_list-compress_cpu_list (cpu ∷ cpus) v =
    let rs = runs (cpu ∷ cpus) in
    let same : run_cpus rs ≡ cpu ∷ cpus =
      run_cpus-runs_from cpu cpu cpus (omega arith) ∙ ap (λ r. r ++ cpus) (one_run cpu) in
    let good = runs_from-IsRun cpu cpu cpus (omega arith) v.in_range.0 v.in_range.1 in
    (
      join b',' (map run_token rs),
      rw (validate_cpu_array_accepts (cpu ∷ cpus) v),
      expand_runs rs good (subst IsCpuArray (sym same) v) ∙ ap ok same,
    )

-- What `expandCpuList` returns is a CPU array: not empty, of distinct ids up to 65535.
pub expand_cpu_list-IsCpuArray :
    (spec : Text) {cpus : List ℕ} → expand_cpu_list spec ≡ ok cpus → IsCpuArray cpus
unfolding expand_cpu_list
expand_cpu_list-IsCpuArray spec h =
    let (_, sized) = then_returns (validate_string spec) _ h in
    let (_, expanded) =
      then_returns (require (leb (length spec) max_count) list_too_long) _ sized in
    let (all, _, checked) = bind_returns (expand_tokens (split b',' spec) []) _ expanded in
    let (same, valid) = validate_cpu_array_sound all _ checked in subst IsCpuArray (sym same) valid
