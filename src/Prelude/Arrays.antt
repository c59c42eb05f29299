-- ===== src/Prelude/Arrays.antt =====
-- `array_from` read forwards, backwards and cyclically, up to the order of its entries.
use mathlib.Core.List.{Perm, perm_append_singleton}
use mathlib.Core.List.Perm
use Prim.Native.Nat.{ℕ, zero, suc, ◌+◌, ◌-◌, ◌<◌}
use mathlib.Core.Path.{◌≡◌, refl, ap, ap₂, ◌∙◌}
use mathlib.Core.List.{List, [], ◌∷◌, ◌++◌, map}
use native.Mathlib.Omega.{arith}
use fault_affinity.Prelude.Lists.{length, get_or, array_from}

module _ {ℓ} {A : Type ℓ} where
  pub array_from_ext :
      (n : ℕ) (f g : ℕ → A) → ((i : ℕ) → i < n → f i ≡ g i) → array_from n f ≡ array_from n g
  array_from_ext zero f g h = refl
  array_from_ext (suc n) f g h =
      ap₂ ◌∷◌ (h 0 (omega arith))
        (array_from_ext n (λ i. f (suc i)) (λ i. g (suc i)) (λ i p. h (suc i) (omega arith)))

  pub array_from_snoc : (n : ℕ) (f : ℕ → A) → array_from (suc n) f ≡ array_from n f ++ f n ∷ []
  array_from_snoc zero f = refl
  array_from_snoc (suc n) f = ap (◌∷◌ (f 0)) (array_from_snoc n (λ i. f (suc i)))

  pub array_from_append :
      (m d : ℕ) (f : ℕ → A) → array_from (m + d) f ≡ array_from m f ++ array_from d (λ i. f (m + i))
  array_from_append zero d f =
      let e : 0 + d ≡ d = omega arith in
      rw e (array_from_ext d f (λ i. f (0 + i)) (λ i _. ap f (omega arith)))
  array_from_append (suc m) d f =
      let e : suc m + d ≡ suc (m + d) = omega arith in
      rw e (
        ap (◌∷◌ (f 0)) (
          array_from_append m d (λ i. f (suc i))
          ∙ ap (◌++◌ (array_from m (λ i. f (suc i)))) (
              array_from_ext d (λ i. f (suc (m + i))) (λ i. f (suc m + i))
                (λ i _. ap f (omega arith)))))

  pub array_from_reversed :
      (n : ℕ) (f : ℕ → A) → Perm (array_from n (λ i. f (n - suc i))) (array_from n f)
  array_from_reversed zero f = Perm.refl []
  array_from_reversed (suc n) f =
      let first : f (suc n - 1) ≡ f n = ap f (omega arith) in
      let later : array_from n (λ i. f (suc n - suc (suc i))) ≡ array_from n (λ i. f (n - suc i)) =
        array_from_ext n (λ i. f (suc n - suc (suc i))) (λ i. f (n - suc i))
          (λ i _. ap f (omega arith)) in
      rw (first, later, array_from_snoc n f)
        (Perm.trans (Perm.cons (f n) (array_from_reversed n f))
          (Perm.symm (perm_append_singleton (f n) (array_from n f))))

  -- A window of one period holds the same entries wherever it starts.
  pub array_from_rotate :
      (n : ℕ) (f : ℕ → A) (k : ℕ)
      → ((i : ℕ) → f (i + n) ≡ f i)
      → Perm (array_from n (λ i. f (k + i))) (array_from n f)
  array_from_rotate n f zero per =
      rw (array_from_ext n (λ i. f (0 + i)) f (λ i _. ap f (omega arith))) (Perm.refl _)
  array_from_rotate zero f (suc k) per = Perm.refl []
  array_from_rotate (suc m) f (suc k) per =
      let last : f (suc k + m) ≡ f (k + 0) = ap f (omega arith) ∙ per k ∙ ap f (omega arith) in
      let shifted : array_from m (λ i. f (suc k + i)) ≡ array_from m (λ i. f (k + suc i)) =
        array_from_ext m (λ i. f (suc k + i)) (λ i. f (k + suc i)) (λ i _. ap f (omega arith)) in
      Perm.trans
        (rw (array_from_snoc m (λ i. f (suc k + i)), last, shifted)
          (perm_append_singleton (f (k + 0)) (array_from m (λ i. f (k + suc i)))))
        (array_from_rotate (suc m) f k per)

  pub array_from_get : (xs : List A) (d : A) → array_from (length xs) (λ i. get_or xs i d) ≡ xs
  array_from_get [] d = refl
  array_from_get (x ∷ xs) d = ap (◌∷◌ x) (array_from_get xs d)

  pub get_or-array_from :
      (n : ℕ) (f : ℕ → A) (p : ℕ) (d : A) → p < n → get_or (array_from n f) p d ≡ f p
  get_or-array_from zero f p d h = elim h [ ]
  get_or-array_from (suc n) f zero d h = refl
  get_or-array_from (suc n) f (suc p) d h = get_or-array_from n (λ i. f (suc i)) p d (omega arith)

  pub map-array_from {κ} :
      {B : Type κ} (n : ℕ) (f : ℕ → A) (g : A → B)
      → map g (array_from n f) ≡ array_from n (λ i. g (f i))
  map-array_from zero f g = refl
  map-array_from (suc n) f g = ap (◌∷◌ (g (f 0))) (map-array_from n (λ i. f (suc i)) g)
