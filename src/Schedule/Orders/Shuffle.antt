-- ===== src/Schedule/Orders/Shuffle.antt =====
-- What `shuffle` returns.
use mathlib.Core.List.{Perm, perm-cons}
use mathlib.Core.List.Perm
use fault_affinity.Prelude.{
  ℕ, zero, suc, ◌+◌, ◌-◌, ◌≤◌, ◌<◌, ◌≡◌, refl, sym, subst, ◌∙◌, List, [], ◌∷◌, Option, some, length,
  length-set, get_or, set, arith,
}
use fault_affinity.Schedule.Rng.{uint32_range, random_below}
use fault_affinity.Schedule.Rng.Totality.{random_below_total}
use fault_affinity.Schedule.Orders.{swap, shuffle_from, shuffle}

-- A write trades the entry that stood there for the new one.
set-perm : (xs : List ℕ) (i v : ℕ) → i < length xs → Perm (v ∷ xs) (get_or xs i 0 ∷ set xs i v)
set-perm [] i v h = elim h [ ]
set-perm (x ∷ xs) zero v h = Perm.swap x v xs
set-perm (x ∷ xs) (suc i) v h =
    Perm.trans (Perm.swap x v xs)
      (Perm.trans (Perm.cons x (set-perm xs i v (omega arith))) (Perm.swap (get_or xs i 0) x _))

get_or-set : (xs : List ℕ) (i j v : ℕ) → v ≡ get_or xs j 0 → get_or (set xs i v) j 0 ≡ get_or xs j 0
get_or-set [] i j v e = refl
get_or-set (x ∷ xs) zero zero v e = e
get_or-set (x ∷ xs) zero (suc j) v e = refl
get_or-set (x ∷ xs) (suc i) zero v e = refl
get_or-set (x ∷ xs) (suc i) (suc j) v e = get_or-set xs i j v e

pub swap-perm : (xs : List ℕ) (i j : ℕ) → i < length xs → j < length xs → Perm (swap xs i j) xs
unfolding swap
swap-perm xs i j hi hj =
    let ys = set xs i (get_or xs j 0) in
    let same : get_or ys j 0 ≡ get_or xs j 0 = get_or-set xs i j (get_or xs j 0) refl in
    let inner = set-perm ys j (get_or xs i 0) (rw (length-set xs i (get_or xs j 0)) hj) in
    Perm.symm (
      (perm-cons (get_or xs j 0)).0
        (Perm.trans (set-perm xs i (get_or xs j 0) hi) (rw same at inner)))

length-swap : (xs : List ℕ) (i j : ℕ) → length (swap xs i j) ≡ length xs
unfolding swap
length-swap xs i j =
    rw (length-set (set xs i (get_or xs j 0)) j (get_or xs i 0), length-set xs i (get_or xs j 0))

abbrev pub Shuffles : List ℕ → Option (List ℕ × ℕ) → Type 0
Shuffles xs r =
    (ys : List ℕ) × (state : ℕ) × (r ≡ some (ys, state)) × Perm ys xs × (length ys ≡ length xs)

shuffle_from_step :
    (index : ℕ) (xs : List ℕ) (state other state' : ℕ)
    → random_below state (suc index + 1) ≡ some (other, state')
    → shuffle_from (suc index) xs state ≡ shuffle_from index (swap xs (suc index) other) state'
unfolding shuffle_from
shuffle_from_step index xs state other state' e = rw (e, shuffle_from)

Shuffles-trans :
    (xs ys : List ℕ) (r : Option (List ℕ × ℕ))
    → Perm ys xs
    → length ys ≡ length xs
    → Shuffles ys r
    → Shuffles xs r
Shuffles-trans xs ys r p l (zs, state, e, q, k) = (zs, state, e, Perm.trans q p, k ∙ l)

shuffle_from-Shuffles :
    (index : ℕ) (xs : List ℕ) (state : ℕ)
    → index ≤ length xs - 1
    → length xs ≤ uint32_range
    → Shuffles xs (shuffle_from index xs state)
unfolding shuffle_from
shuffle_from-Shuffles zero xs state h m = (xs, state, refl, Perm.refl xs, refl)
shuffle_from-Shuffles (suc index) xs state h m =
    let (other, state', e, lt) =
      random_below_total state (suc index + 1) (omega arith) (omega arith) in
    let len = length-swap xs (suc index) other in
    subst (Shuffles xs) (sym (shuffle_from_step index xs state other state' e)) (
      Shuffles-trans xs (swap xs (suc index) other) _
        (swap-perm xs (suc index) other (omega arith) (omega arith)) len
        (shuffle_from-Shuffles index (swap xs (suc index) other) state' (omega arith)
          (omega arith)))

pub shuffle-Shuffles :
    (xs : List ℕ) (state : ℕ) → length xs ≤ uint32_range → Shuffles xs (shuffle xs state)
unfolding shuffle
shuffle-Shuffles xs state m = shuffle_from-Shuffles (length xs - 1) xs state (omega arith) m
