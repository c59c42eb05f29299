-- ===== src/Text/Decimals.antt =====
-- A printed numeral is digits alone, reads back as the number, and is short for a small number.
use native.Mathlib.Nat.{pow-suc}
use fault_affinity.Prelude.{
  ℕ, zero, suc, ◌+◌, ◌/◌, ◌%◌, ◌^◌, ◌≤◌, ◌<◌, ◌≡◌, refl, ap, ◌∙◌, inl, inr, true, [], ◌∷◌, some,
  length, every, ltb, leb, Bool-cases, arith,
}
use fault_affinity.Text.{Text, emit, decimal, is_digit, is_canonical, number_from, parse_decimal}

number_from-emit :
    (fuel n : ℕ) (out : Text) → n < fuel → number_from 0 (emit fuel n out) ≡ number_from n out
unfolding emit
number_from-emit zero n out h = elim h [ ]
number_from-emit (suc fuel) n out h = elim (Bool-cases (ltb n 10)) [
  | inl small ↦ rw small (ap (λ v. number_from v out) (omega arith))
  | inr large ↦ rw large (
      number_from-emit fuel (n / 10) ((b'0' + n % 10) ∷ out) (ground arith)
      ∙ ap (λ v. number_from v out) (omega arith))
]

-- At least one digit is written, and the first is not 0 unless the number is.
emit_head :
    (fuel n : ℕ) (out : Text)
    → n < fuel
    → (c : ℕ) × (rest : Text) × (emit fuel n out ≡ c ∷ rest)
      × (is_digit c ≡ true)
      × (0 < n → leb b'1' c ≡ true)
unfolding emit
emit_head zero n out h = elim h [ ]
emit_head (suc fuel) n out h = elim (Bool-cases (ltb n 10)) [
  | inl small ↦ (b'0' + n, out, rw small, ground arith, λ pos. ground arith)
  | inr large ↦
      let (c, rest, e, digit, head) =
        emit_head fuel (n / 10) ((b'0' + n % 10) ∷ out) (ground arith) in
      (c, rest, rw large e, digit, λ _. head (ground arith))
]

emit-digits :
    (fuel n : ℕ) (out : Text) → every is_digit out ≡ true → every is_digit (emit fuel n out) ≡ true
unfolding emit
emit-digits zero n out h = h
emit-digits (suc fuel) n out h = ground (arith, emit-digits fuel (n / 10) ((b'0' + n % 10) ∷ out))

length-emit :
    (k fuel n : ℕ) (out : Text) → n < 10 ^ suc k → length (emit fuel n out) ≤ length out + suc k
unfolding emit
length-emit k zero n out h = omega arith
length-emit zero (suc fuel) n out h = ground arith
length-emit (suc k) (suc fuel) n out h =
    let e = pow-suc 10 (suc k) in
    ground (arith, length-emit k fuel (n / 10) ((b'0' + n % 10) ∷ out) (omega (arith, e)))

canonical_of_digits :
    (c : ℕ) (rest : Text)
    → every is_digit (c ∷ rest) ≡ true
    → leb b'1' c ≡ true
    → is_canonical (c ∷ rest) ≡ true
canonical_of_digits c [] h k = ground arith
canonical_of_digits c (d ∷ rest) h k = ground arith

is_canonical-decimal : (n : ℕ) → is_canonical (decimal n) ≡ true
unfolding decimal
is_canonical-decimal zero = refl
is_canonical-decimal (suc n) =
    let (c, rest, e, digit, head) = emit_head (suc n + 1) (suc n) [] (omega arith) in
    let all = emit-digits (suc n + 1) (suc n) [] refl in
    rw e (canonical_of_digits c rest (rw e at all) (head (omega arith)))

pub parse_decimal-decimal : (n : ℕ) → parse_decimal (decimal n) ≡ some n
unfolding parse_decimal
parse_decimal-decimal n =
    rw (is_canonical-decimal n)
      (ap some (unfold decimal in (number_from-emit (n + 1) n [] (omega arith))))

pub decimal-digits : (n : ℕ) → every is_digit (decimal n) ≡ true
unfolding decimal
decimal-digits n = emit-digits (n + 1) n [] refl

pub decimal-cons : (n : ℕ) → (c : ℕ) × (rest : Text) × (decimal n ≡ c ∷ rest)
unfolding decimal
decimal-cons n = let (c, rest, e, _, _) = emit_head (n + 1) n [] (omega arith) in (c, rest, e)

pub length-decimal : (n : ℕ) → n ≤ 65_535 → length (decimal n) ≤ 5
unfolding decimal
length-decimal n h = omega (arith, length-emit 4 (n + 1) n [] (omega arith))
