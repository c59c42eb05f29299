-- ===== src/Text/Pieces.antt =====
-- `split` undoes `join` on pieces that hold no separator.
use fault_affinity.Prelude.{
  ℕ, ◌≡◌, refl, ap, ◌∙◌, Bool, true, List, [], ◌∷◌, ◌++◌, ◌==◌, not, every, All, ==_iff, arith,
}
use fault_affinity.Text.{Text, split, join}

abbrev pub lacks : ℕ → Text → Bool
lacks separator = every (λ c. not (c == separator))

pub lacks-append :
    (separator : ℕ) (xs ys : Text)
    → lacks separator xs ≡ true
    → lacks separator ys ≡ true
    → lacks separator (xs ++ ys) ≡ true
lacks-append separator [] ys h k = k
lacks-append separator (x ∷ xs) ys h k = ground (arith, lacks-append separator xs ys)

pub split-piece :
    (separator : ℕ) (piece : Text)
    → lacks separator piece ≡ true
    → split separator piece ≡ piece ∷ []
split-piece separator [] h = refl
split-piece separator (c ∷ piece) h = ground (arith, split-piece separator piece)

pub split-first :
    (separator : ℕ) (piece rest : Text)
    → lacks separator piece ≡ true
    → split separator (piece ++ (separator ∷ rest)) ≡ piece ∷ split separator rest
split-first separator [] rest h = ground (arith, (==_iff separator separator).1 refl)
split-first separator (c ∷ piece) rest h = ground (arith, split-first separator piece rest)

pub split-join :
    (separator : ℕ) (piece : Text) (pieces : List Text)
    → All (λ p. lacks separator p ≡ true) (piece ∷ pieces)
    → split separator (join separator (piece ∷ pieces)) ≡ piece ∷ pieces
split-join separator piece [] h = split-piece separator piece h.0
split-join separator piece (next ∷ pieces) h =
    split-first separator piece (join separator (next ∷ pieces)) h.0
    ∙ ap (◌∷◌ piece) (split-join separator next pieces h.1)
