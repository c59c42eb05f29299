-- ===== src/Baseline/Waves/Failures.antt =====
-- The failure of a wave whose children settle in some order.
use fault_affinity.Prelude.{
  ℕ, array_from, ◌+◌, ◌<◌, ◌⊎◌, ◌∙◌, sym, ap, Option, Outcome, ok, throw, Outcome-cases,
  Option-cases, bind_returns, ok_inj, ◌≡◌, refl, ◌↔◌, inl, inr, true, false, List, [], ◌∷◌, none,
  some, All, includes, ◌==◌, ==_iff, Bool-cases, subst, arith,
}
use fault_affinity.Text.{Text}
use fault_affinity.ExactCpu.Phase.{Resolved}
use fault_affinity.ExactCpu.Envelope.{Evidences}
use fault_affinity.Baseline.Manifest.{WaveIdentity, WaveManifest}
use fault_affinity.Baseline.Waves.{
  WaveSlot, Settled, wave_failed, wave_committed, is_failure, first_failure, settle, evidence_of,
  expected_slot, build_wave_envelope, run_wave,
}

-- Each of the first `count` children settles, and no other.
pub record IsSettling (count : ℕ) (order : List ℕ) : Type 0 where
  pub every_child : (index : ℕ) → index < count → includes order index ≡ true
  pub only_children : All (λ index. index < count) order

module _ {Evidence : Type 0} (settled : ℕ → Settled Evidence) where
  none_failed :
      (order : List ℕ) (index : ℕ)
      → first_failure settled order ≡ none
      → includes order index ≡ true
      → is_failure (settled index) ≡ false
  none_failed [] index h m = cc
  none_failed (next ∷ order) index h m = elim (Bool-cases (is_failure (settled next))) [
    | inl t ↦ let found : some (settled next) ≡ none = rw t at h in absurd (cc found)
    | inr f ↦
        let later : first_failure settled order ≡ none = rw f at h in
        elim (Bool-cases (next == index)) [
          | inl e ↦ subst (λ i. is_failure (settled i) ≡ false) ((==_iff next index).0 e) f
          | inr n ↦ none_failed order index later (ground arith)
        ]
  ]

  all_passed :
      (count : ℕ) (order : List ℕ)
      → ((index : ℕ) → index < count → is_failure (settled index) ≡ false)
      → All (λ index. index < count) order
      → first_failure settled order ≡ none
  all_passed count [] h within = refl
  all_passed count (next ∷ order) h within =
      rw (h next within.0) (all_passed count order h within.1)

  pub first_failure_iff :
      (count : ℕ) (order : List ℕ)
      → IsSettling count order
      → (first_failure settled order ≡ none)
        ↔ ((index : ℕ) → index < count → is_failure (settled index) ≡ false)
  first_failure_iff count order settling = (
    λ h index within. none_failed order index h (settling.every_child index within),
    λ h. all_passed count order h settling.only_children,
  )

  found_failed :
      (count : ℕ) (order : List ℕ) {failure : Settled Evidence}
      → All (λ index. index < count) order
      → first_failure settled order ≡ some failure
      → (index : ℕ) × (index < count) × (is_failure (settled index) ≡ true)
  found_failed count [] within h = cc
  found_failed count (next ∷ order) {failure} within h =
      elim (Bool-cases (is_failure (settled next))) [
        | inl t ↦ (next, within.0, t)
        | inr f ↦
            let later : first_failure settled order ≡ some failure = rw f at h in
            found_failed count order within.1 later
      ]

module _ {Evidence Result : Type 0} (evidences : Evidences Evidence Result) where
  -- The runner throws, or what it returns gives no evidence, or evidence of an invalid outcome.
  abbrev pub Failed : Outcome (Option Text) Result → Type 0
  Failed outcome =
      ((code : Option Text) × (outcome ≡ throw code))
      ⊎ ((result : Result) × (outcome ≡ ok result)
          × (((code : Option Text) × (evidences.build result ≡ throw code))
              ⊎ ((evidence : Evidence) × (evidences.build result ≡ ok evidence)
                  × (evidences.is_valid evidence ≡ false))))

  settle-Failed :
      (slot : WaveSlot) (outcome : Outcome (Option Text) Result)
      → (is_failure (settle evidences slot outcome) ≡ true) ↔ Failed outcome
  settle-Failed slot (throw code) = (λ h. inl (code, refl), λ h. refl)
  settle-Failed slot (ok result) = elim (Outcome-cases (evidences.build result)) [
    | inl (code, e) ↦ (λ h. inr (result, refl, inl (code, e)), λ h. rw e refl)
    | inr (evidence, e) ↦ elim (Bool-cases (evidences.is_valid evidence)) [
      | inl t ↦ (
        λ h. (let held : false ≡ true = rw (e, t) at h in absurd (cc held)),
        λ h. absurd (never slot result evidence e t h),
      )
      | inr f ↦ (λ h. inr (result, refl, inr (evidence, e, f)), λ h. rw (e, f) refl)
    ]
  ]
    where
      never :
          (slot : WaveSlot) (result : Result) (evidence : Evidence)
          → evidences.build result ≡ ok evidence
          → evidences.is_valid evidence ≡ true
          → Failed (ok result)
          → ⊥
      never slot result evidence e t (inl (code, h)) = cc h
      never slot result evidence e t (inr (other, same, inl (code, h))) =
          cc (e, ap evidences.build (ok_inj same), h)
      never slot result evidence e t (inr (other, same, inr (found, h, f))) =
          let agree : evidence ≡ found = ok_inj (sym e ∙ ap evidences.build (ok_inj same) ∙ h) in
          cc (t, f, ap evidences.is_valid agree)

  module _ (resolved : Resolved) (manifest : WaveManifest) (schedule : WaveIdentity) where
    -- Whatever the order in which the children of a wave settle, the wave fails exactly if one of them
    -- does: its runner throws, or what it returns gives no evidence, or evidence of an invalid outcome.
    pub run_wave_fails_iff :
        (wave : ℕ) (results : ℕ → Outcome (Option Text) Result) (order : List ℕ)
        → IsSettling schedule.children_per_wave order
        → ((failure : Settled Evidence) × (run_wave evidences resolved manifest schedule wave
                results order
              ≡ ok (wave_failed failure)))
          ↔ ((index : ℕ) × (index < schedule.children_per_wave) × Failed (results index))
    unfolding run_wave
    run_wave_fails_iff wave results order settling =
        let settled : ℕ → Settled Evidence =
          λ index. settle evidences (expected_slot schedule wave (index + 1)) (results index) in
        elim (Option-cases (first_failure settled order)) [
          | inl e ↦ (
            λ (failure, h).
                let held = rw (e, run_wave) at h in
                let (envelope, _, last) =
                  bind_returns
                    (build_wave_envelope evidences resolved manifest schedule wave (
                      array_from schedule.children_per_wave (λ index. evidence_of (settled index))))
                    (λ envelope. ok (wave_committed wave envelope)) held in
                absurd (cc last),
            λ (index, within, failed).
                let passes =
                  none_failed settled order index e (settling.every_child index within) in
                let fails =
                  (settle-Failed (expected_slot schedule wave (index + 1)) (results index)).1
                    failed in
                absurd (cc (passes, fails)),
          )
          | inr (failure, e) ↦ (
            λ h.
                let (index, within, fails) =
                  found_failed settled schedule.children_per_wave order settling.only_children e in
                (
                  index,
                  within,
                  (settle-Failed (expected_slot schedule wave (index + 1)) (results index)).0 fails,
                ),
            λ h. (failure, rw (e, run_wave) refl),
          )
        ]
