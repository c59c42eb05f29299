-- ===== src/Text/Equality.antt =====
-- `===` on texts decides their equality.
use fault_affinity.Prelude.{◌≡◌, refl, ap₂, true, [], ◌∷◌, ==_iff, arith}
use fault_affinity.Text.{Text, text_eq}

pub text_eq_sound : (s t : Text) → text_eq s t ≡ true → s ≡ t
text_eq_sound [] [] h = refl
text_eq_sound [] (d ∷ t) h = cc
text_eq_sound (c ∷ s) [] h = cc
text_eq_sound (c ∷ s) (d ∷ t) h =
    ap₂ ◌∷◌ ((==_iff c d).0 (ground arith)) (text_eq_sound s t (ground arith))

pub text_eq_refl : (s : Text) → text_eq s s ≡ true
text_eq_refl [] = refl
text_eq_refl (c ∷ s) = rw ((==_iff c c).1 refl) (text_eq_refl s)

pub text_eq_complete : (s t : Text) → s ≡ t → text_eq s t ≡ true
text_eq_complete s t e = rw e (text_eq_refl t)
