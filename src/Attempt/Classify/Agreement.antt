-- ===== src/Attempt/Classify/Agreement.antt =====
-- When a child's outcome is valid evidence, and how the two classifications differ.
use fault_affinity.Prelude.{
  ℕ, ◌≤◌, ◌≡◌, ◌≢◌, refl, ◌↔◌, ◌⊎◌, Bool, true, false, Option, none, some, ◌==◌, not, ◌&&◌, ◌||◌,
  inl, inr, ap, ==_iff, Bool-cases, by_branch, arith,
}
use fault_affinity.Text.{Text, text_eq}
use fault_affinity.Attempt.Classify.{
  sigsegv, other_workload_failure, Classified, ChildStatus, classify_child_outcome, classify_status,
  classify_individual_child_outcome_v2, sigsegv_name, is_canonical_code, is_canonical_signal,
  is_one_status,
}

module _ (known_signal : Text → Bool) where
  -- The child ran as launched, and ended with a code up to 255 or by a known signal, not both.
  abbrev pub EndedProperly : Option ℕ → Option Text → Type 0
  EndedProperly (some code) none = (code ≤ 255)
  EndedProperly none (some signal) = (known_signal signal ≡ true)
  EndedProperly (some code) (some signal) = ⊥
  EndedProperly none none = ⊥

  abbrev pub RanAsLaunched : ChildStatus → Type 0
  RanAsLaunched status =
      (status.canceled ≡ false) × (status.launch_failed ≡ false) × (status.secure_launch ≡ true)

  status_valid :
      (code : Option ℕ) (signal : Option Text)
      → ((is_canonical_code known_signal code
            && (is_canonical_signal known_signal signal && is_one_status known_signal code signal))
          ≡ true)
        ↔ EndedProperly code signal
  status_valid (some code) none = (λ h. ground arith, λ h. ground arith)
  status_valid none (some signal) = (λ h. ground arith, λ h. ground arith)
  status_valid (some code) (some signal) = (λ h. absurd (ground arith), λ h. absurd h)
  status_valid none none = (λ h. absurd (ground arith), λ h. absurd h)

  classify_status_valid :
      (code : Option ℕ) (signal : Option Text)
      → (classify_status known_signal code signal).valid_outcome ≡ true
  classify_status_valid (some code) signal =
      by_branch (λ (c : Classified). c.valid_outcome ≡ true) (code == 0) (λ _. refl) (λ _. refl)
  classify_status_valid none (some signal) =
      by_branch (λ (c : Classified). c.valid_outcome ≡ true) (text_eq signal sigsegv_name)
        (λ _. refl) (λ _. refl)
  classify_status_valid none none = refl

  -- The second classification takes an outcome as valid exactly if the run was not canceled, the
  -- launch succeeded and was verified, and the child ended with an exit code up to 255 or by a known
  -- signal, and not both.
  pub classify_individual_child_outcome_v2_valid_iff :
      (status : ChildStatus)
      → ((classify_individual_child_outcome_v2 known_signal status).valid_outcome ≡ true)
        ↔ (RanAsLaunched status × EndedProperly status.exit_code status.signal)
  unfolding classify_individual_child_outcome_v2
  classify_individual_child_outcome_v2_valid_iff status =
      let ended = status_valid status.exit_code status.signal in
      let accepted = classify_status_valid status.exit_code status.signal in
      by_branch
        (λ (c : Classified).
          (c.valid_outcome ≡ true)
          ↔ (RanAsLaunched status × EndedProperly status.exit_code status.signal))
        status.canceled
        (λ t. (λ h. absurd (ground arith), λ h. (let c = h.0.0 in absurd (ground arith))))
        (λ f.
          by_branch
            (λ (c : Classified).
              (c.valid_outcome ≡ true)
              ↔ (RanAsLaunched status × EndedProperly status.exit_code status.signal))
            (status.launch_failed || not status.secure_launch)
            (λ t. (
              λ h. absurd (ground arith),
              λ h. (let l = h.0.1 in let s = h.0.2 in absurd (ground arith)),
            ))
            (λ g.
              by_branch
                (λ (c : Classified).
                  (c.valid_outcome ≡ true)
                  ↔ (RanAsLaunched status × EndedProperly status.exit_code status.signal))
                (is_canonical_code known_signal status.exit_code
                  && (is_canonical_signal known_signal status.signal
                      && is_one_status known_signal status.exit_code status.signal))
                (λ t. (λ _. ((f, ground arith, ground arith), ended.0 t), λ _. accepted))
                (λ n. (
                  λ h. absurd (ground arith),
                  λ h. (let whole = ended.1 h.1 in absurd (cc (whole, n))),
                ))))

  abbrev is_139 : Option ℕ → Bool
  is_139 none = false
  is_139 (some code) = code == 139

  is_139_sound : (code : Option ℕ) → is_139 code ≡ true → code ≡ some 139
  is_139_sound none h = cc
  is_139_sound (some code) h = ap some ((==_iff code 139).0 h)

  -- A child that both classifications take as valid evidence gets the same kind from both if its exit
  -- code is not 139; and the exit code 139 the first takes for a SIGSEGV and the second for another failure.
  pub classify_child_outcome-agrees :
      (status : ChildStatus)
      → (classify_child_outcome status).valid_outcome ≡ true
      → (classify_individual_child_outcome_v2 known_signal status).valid_outcome ≡ true
      → ((status.exit_code ≢ some 139)
          × ((classify_child_outcome status).kind
              ≡ (classify_individual_child_outcome_v2 known_signal status).kind))
        ⊎ ((status.exit_code ≡ some 139)
            × ((classify_child_outcome status).kind ≡ sigsegv)
            × ((classify_individual_child_outcome_v2 known_signal status).kind
                ≡ other_workload_failure))
  unfolding classify_child_outcome classify_individual_child_outcome_v2
  classify_child_outcome-agrees status first second = elim (Bool-cases (is_139 status.exit_code)) [
    | inl t ↦ inr (is_139_sound status.exit_code t, ground arith, ground arith)
    | inr n ↦ inl (λ e. cc (n, ap is_139 e), ground arith)
  ]
