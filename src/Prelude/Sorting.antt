-- ===== src/Prelude/Sorting.antt =====
-- `Array.prototype.sort`, a stable sort by a comparator, as insertion sort: `first l r` says that the
-- comparator does not put `l` behind `r`.
use mathlib.Core.List.{Perm, Mem, mem-cons}
use mathlib.Core.Logic.Or
use mathlib.Core.List.Perm
use Prim.Native.Nat.{suc}
use mathlib.Core.Path.{◌≡◌, refl, ap, ◌∙◌}
use mathlib.Core.Logic.{◌⊎◌, inl, inr, ∨₁_prop}
use mathlib.Core.Bool.{Bool, true}
use mathlib.Core.List.{List, [], ◌∷◌}
use native.Mathlib.Omega.{arith}
use fault_affinity.Prelude.Tests.{Bool-cases, if◌then◌else◌}
use fault_affinity.Prelude.Lists.{All, select, length}

module _ {ℓ} {A : Type ℓ} where
  abbrev pub insert_by : (A → A → Bool) → A → List A → List A
  insert_by first a [] = a ∷ []
  insert_by first a (x ∷ xs) =
      let deeper = insert_by first a xs in if first a x then a ∷ x ∷ xs else x ∷ deeper

  abbrev pub sort_by : (A → A → Bool) → List A → List A
  sort_by first [] = []
  sort_by first (x ∷ xs) = insert_by first x (sort_by first xs)

  -- Every entry comes first against each entry behind it.
  abbrev pub IsSorted : (A → A → Bool) → List A → Type 0
  IsSorted first [] = Unit
  IsSorted first (x ∷ xs) = All (λ y. first x y ≡ true) xs × IsSorted first xs

  insert_by-perm :
      (first : A → A → Bool) (a : A) (xs : List A) → Perm (insert_by first a xs) (a ∷ xs)
  insert_by-perm first a [] = Perm.refl (a ∷ [])
  insert_by-perm first a (x ∷ xs) = elim (Bool-cases (first a x)) [
    | inl t ↦ rw t (Perm.refl (a ∷ x ∷ xs))
    | inr f ↦ rw f (Perm.trans (Perm.cons x (insert_by-perm first a xs)) (Perm.swap a x xs))
  ]

  pub sort_by-perm : (first : A → A → Bool) (xs : List A) → Perm (sort_by first xs) xs
  sort_by-perm first [] = Perm.refl []
  sort_by-perm first (x ∷ xs) =
      Perm.trans (insert_by-perm first x (sort_by first xs)) (Perm.cons x (sort_by-perm first xs))

  module _ (first : A → A → Bool) (total : (a b : A) → (first a b ≡ true) ⊎ (first b a ≡ true))
      (trans : (a b c : A) → first a b ≡ true → first b c ≡ true → first a c ≡ true) where
    All-trans :
        (a x : A) (xs : List A)
        → first a x ≡ true
        → All (λ y. first x y ≡ true) xs
        → All (λ y. first a y ≡ true) xs
    All-trans a x [] h all = tt
    All-trans a x (y ∷ ys) h all = (trans a x y h all.0, All-trans a x ys h all.1)

    All-insert_by :
        (z a : A) (xs : List A)
        → first z a ≡ true
        → All (λ y. first z y ≡ true) xs
        → All (λ y. first z y ≡ true) (insert_by first a xs)
    All-insert_by z a [] h all = (h, tt)
    All-insert_by z a (x ∷ xs) h all = elim (Bool-cases (first a x)) [
      | inl t ↦ rw t (h, all)
      | inr f ↦ rw f (all.0, All-insert_by z a xs h all.1)
    ]

    insert_by-IsSorted :
        (a : A) (xs : List A) → IsSorted first xs → IsSorted first (insert_by first a xs)
    insert_by-IsSorted a [] s = (tt, tt)
    insert_by-IsSorted a (x ∷ xs) s = elim (Bool-cases (first a x)) [
      | inl t ↦ rw t ((t, All-trans a x xs t s.0), s)
      | inr f ↦
          let back : first x a ≡ true = elim (total a x) [ inl t ↦ cc | inr b ↦ b ] in
          rw f (All-insert_by x a xs back s.0, insert_by-IsSorted a xs s.1)
    ]

    pub sort_by-IsSorted : (xs : List A) → IsSorted first (sort_by first xs)
    sort_by-IsSorted [] = tt
    sort_by-IsSorted (x ∷ xs) = insert_by-IsSorted x (sort_by first xs) (sort_by-IsSorted xs)

module _ {ℓ} {A : Type ℓ} (P : A → Type 0) (first : A → A → Bool) where
  All-of_insert_by : (a : A) (xs : List A) → All P (insert_by first a xs) → P a × All P xs
  All-of_insert_by a [] all = (all.0, tt)
  All-of_insert_by a (x ∷ xs) all = elim (Bool-cases (first a x)) [
    | inl t ↦ let held : All P (a ∷ x ∷ xs) = rw t at all in held
    | inr n ↦
        let held : All P (x ∷ insert_by first a xs) = rw n at all in
        let (here, rest) = All-of_insert_by a xs held.1 in (here, (held.0, rest))
  ]

  -- What holds of every entry of the sorted list holds of every entry of the list.
  pub All-of_sort_by : (xs : List A) → All P (sort_by first xs) → All P xs
  All-of_sort_by [] all = tt
  All-of_sort_by (x ∷ xs) all =
      let (here, rest) = All-of_insert_by x (sort_by first xs) all in (here, All-of_sort_by xs rest)

module _ {ℓ} {A : Type ℓ} (P : A → Type 0) (first : A → A → Bool) where
  All-to_insert_by : (a : A) (xs : List A) → P a → All P xs → All P (insert_by first a xs)
  All-to_insert_by a [] h all = (h, tt)
  All-to_insert_by a (x ∷ xs) h all = elim (Bool-cases (first a x)) [
    | inl t ↦ rw t (h, all)
    | inr n ↦ rw n (all.0, All-to_insert_by a xs h all.1)
  ]

  pub All-to_sort_by : (xs : List A) → All P xs → All P (sort_by first xs)
  All-to_sort_by [] all = tt
  All-to_sort_by (x ∷ xs) all =
      All-to_insert_by x (sort_by first xs) all.0 (All-to_sort_by xs all.1)

module _ {ℓ} {A : Type ℓ} (first : A → A → Bool) where
  insert_by_ne_nil : (a : A) (xs : List A) → insert_by first a xs ≡ [] → ⊥
  insert_by_ne_nil a [] e = cc
  insert_by_ne_nil a (x ∷ xs) e = ground arith

  pub sort_by_nil : (xs : List A) → sort_by first xs ≡ [] → xs ≡ []
  sort_by_nil [] e = refl
  sort_by_nil (x ∷ xs) e = absurd (insert_by_ne_nil x (sort_by first xs) e)

module _ {ℓ} {A : Type ℓ} where
  pub select-subset : (p : A → Bool) (xs : List A) (a : A) → Mem a (select p xs) → Mem a xs
  select-subset p [] a m = m
  select-subset p (x ∷ xs) a m = elim (Bool-cases (p x)) [
    | inl t ↦
        let held : Mem a (x ∷ select p xs) = rw t at m in
        mem-cons.1
          (Or.elim ∨₁_prop (mem-cons.0 held) (λ e. Or.inl e) (λ r. Or.inr (select-subset p xs a r)))
    | inr n ↦
        let held : Mem a (select p xs) = rw n at m in
        mem-cons.1 (Or.inr (select-subset p xs a held))
  ]

  pub sort_by-subset :
      (first : A → A → Bool) (xs : List A) (a : A) → Mem a (sort_by first xs) → Mem a xs
  sort_by-subset first xs a m = Perm.subset (sort_by-perm first xs) a m

module _ {ℓ} {A : Type ℓ} (first : A → A → Bool) where
  length-insert_by : (a : A) (xs : List A) → length (insert_by first a xs) ≡ suc (length xs)
  length-insert_by a [] = refl
  length-insert_by a (x ∷ xs) = ground (arith, length-insert_by a xs)

  pub length-sort_by : (xs : List A) → length (sort_by first xs) ≡ length xs
  length-sort_by [] = refl
  length-sort_by (x ∷ xs) = length-insert_by x (sort_by first xs) ∙ ap suc (length-sort_by xs)
