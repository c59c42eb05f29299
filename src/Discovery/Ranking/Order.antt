-- ===== src/Discovery/Ranking/Order.antt =====
-- The comparator of `compareLoadedRows` as an order on rows, by rates as fractions.
use native.Mathlib.Nat.{
  le_of_mul-le-mul_right, lt_of_mul-lt-mul_right, mul-le-mul_right, mul-lt-mul_of_pos_right,
}
use fault_affinity.Prelude.{ℕ, ◌*◌, ◌≤◌, ◌<◌, ◌≡◌, ◌↔◌, ◌⊎◌, inl, inr, true, dec_lt, arith}
use fault_affinity.Discovery.Ranking.{Row, resolved, ranks_first}

abbrev pub target : Row → ℕ
target row = row.with_load.target

abbrev pub trials : Row → ℕ
trials row = resolved row.with_load

-- The rate of `a` is above that of `b`, or not below it, as fractions with a common denominator.
abbrev pub HasHigherRate : Row → Row → Type 0
HasHigherRate a b = target b * trials a < target a * trials b

abbrev pub HasSameRate : Row → Row → Type 0
HasSameRate a b = target a * trials b ≡ target b * trials a

-- The ranking rule of the report: the with-load target rate, then the target count, the resolved
-- count, and the lower CPU id.
abbrev pub Outranks : Row → Row → Type 0
Outranks a b =
    HasHigherRate a b
    ⊎ (HasSameRate a b
        × ((target b < target a)
            ⊎ ((target a ≡ target b)
                × ((trials b < trials a) ⊎ ((trials a ≡ trials b) × (a.cpu ≤ b.cpu))))))

pub ranks_first-total : (a b : Row) → (ranks_first a b ≡ true) ⊎ (ranks_first b a ≡ true)
unfolding ranks_first
ranks_first-total a b = ground arith

pub ranks_first_iff :
    (a b : Row) → 0 < trials a → 0 < trials b → (ranks_first a b ≡ true) ↔ Outranks a b
unfolding ranks_first
ranks_first_iff a b p q = (λ h. ground arith, λ h. ground arith)

ranks_first_unresolved :
    (a b : Row)
    → trials b ≡ 0
    → (ranks_first a b ≡ true) ↔ ((0 < trials a) ⊎ ((trials a ≡ 0) × (a.cpu ≤ b.cpu)))
unfolding ranks_first
ranks_first_unresolved a b q = (λ h. ground arith, λ h. ground arith)

ranks_first_resolved : (a b : Row) → 0 < trials b → ranks_first a b ≡ true → 0 < trials a
unfolding ranks_first
ranks_first_resolved a b q h = ground arith

module _ (ta ra tb rb tc rc : ℕ) where
  cross_le : tb * ra ≤ ta * rb → tc * rb ≤ tb * rc → 0 < rb → tc * ra ≤ ta * rc
  cross_le h k pos =
      let h' = mul-le-mul_right rc h in
      let k' = mul-le-mul_right ra k in
      le_of_mul-le-mul_right {m = tc * ra} {n = ta * rc} {k = rb} (omega arith) pos

  cross_lt_left : tb * ra < ta * rb → tc * rb ≤ tb * rc → 0 < rb → 0 < rc → tc * ra < ta * rc
  cross_lt_left h k pos pos' =
      let h' = mul-lt-mul_of_pos_right {k = rc} h pos' in
      let k' = mul-le-mul_right ra k in
      lt_of_mul-lt-mul_right rb {m = tc * ra} {n = ta * rc} (omega arith)

  cross_lt_right : tb * ra ≤ ta * rb → tc * rb < tb * rc → 0 < rb → 0 < ra → tc * ra < ta * rc
  cross_lt_right h k pos pos' =
      let h' = mul-le-mul_right rc h in
      let k' = mul-lt-mul_of_pos_right {k = ra} k pos' in
      lt_of_mul-lt-mul_right rb {m = tc * ra} {n = ta * rc} (omega arith)

pub Outranks-trans :
    (a b c : Row)
    → 0 < trials a
    → 0 < trials b
    → 0 < trials c
    → Outranks a b
    → Outranks b c
    → Outranks a c
Outranks-trans a b c pa pb pc h k = ground (
  arith,
  cross_le (target a) (trials a) (target b) (trials b) (target c) (trials c),
  cross_le (target c) (trials c) (target b) (trials b) (target a) (trials a),
  cross_lt_left (target a) (trials a) (target b) (trials b) (target c) (trials c),
  cross_lt_right (target a) (trials a) (target b) (trials b) (target c) (trials c),
)

pub ranks_first_trans :
    (a b c : Row) → ranks_first a b ≡ true → ranks_first b c ≡ true → ranks_first a c ≡ true
ranks_first_trans a b c h k = elim (dec_lt 0 (trials c)) [
  | yes pc ↦
      let pb = ranks_first_resolved b c pc k in
      let pa = ranks_first_resolved a b pb h in
      (ranks_first_iff a c pa pc).1 (
        Outranks-trans a b c pa pb pc ((ranks_first_iff a b pa pb).0 h)
          ((ranks_first_iff b c pb pc).0 k))
  | no nc ↦ elim (dec_lt 0 (trials a)) [
    | yes pa ↦ (ranks_first_unresolved a c (omega arith)).1 (inl pa)
    | no na ↦ elim (dec_lt 0 (trials b)) [
      | yes pb ↦ absurd (na (ranks_first_resolved a b pb h))
      | no nb ↦ (ranks_first_unresolved a c (omega arith)).1 (
          inr (
            omega arith,
            omega (
              arith,
              (ranks_first_unresolved a b (omega arith)).0 h,
              (ranks_first_unresolved b c (omega arith)).0 k,
            ),
          ))
    ]
  ]
]
