-- ===== src/Debugger/Control/Grammar/Sequences.antt =====
-- The loop of `validateSequence` over the records' bodies.
use fault_affinity.Prelude.{
  ◌≡◌, refl, ap, ◌⊎◌, inl, inr, List, [], ◌∷◌, Option, none, some, Outcome, ok, ◌>>=◌, arith,
}
use fault_affinity.Text.{Text}
use fault_affinity.Debugger.Control.{
  Stage, launch, observe, capture, Body, profile_ready, inferior_started, inferior_stopped,
  inferior_exited, inferior_signaled, capture_complete, profile_error, profile_complete,
  ControlError, at_launch, at_terminal, at_capture, at_complete, at_done, Terminal, stopped, exited,
  signaled, Inferior, Progress, start, advance_control, finish,
}
use fault_affinity.Debugger.Control.Grammar.{
  progress, Conversation, launch_failed, observe_failed, ran_to_exit, ran_to_signal, was_captured,
  capture_failed, started, records, result,
}

unfoldable pub run_bodies : List Body → Progress → Outcome ControlError Progress
run_bodies [] p = finish p
run_bodies (b ∷ bs) p = advance_control p.state b p >>= λ p'. run_bodies bs p'

module _ (i : Option Inferior) (t : Option Terminal) (c : Option (List Text))
    (e : Option (Stage × Text)) (r : Progress) where
  done_inversion :
      (bs : List Body)
      → run_bodies bs (progress at_done i t c e) ≡ ok r
      → (bs ≡ []) × (r ≡ progress at_done i t c e)
  unfolding run_bodies finish advance_control
  done_inversion [] h = ground arith
  done_inversion (b ∷ bs) h = cc

  complete_inversion :
      (bs : List Body)
      → run_bodies bs (progress at_complete i t c e) ≡ ok r
      → (bs ≡ profile_complete ∷ []) × (r ≡ progress at_done i t c e)
  unfolding run_bodies finish advance_control
  complete_inversion [] h = cc
  complete_inversion (profile_complete ∷ bs) h =
      let (none_left, same) = done_inversion bs h in (ap (◌∷◌ profile_complete) none_left, same)
  complete_inversion (b ∷ bs) h = cc

capture_inversion :
    (i : Option Inferior) (t : Option Terminal) (r : Progress) (bs : List Body)
    → run_bodies bs (progress at_capture i t none none) ≡ ok r
    → ((sections : List Text) × (bs ≡ capture_complete sections ∷ profile_complete ∷ [])
        × (r ≡ progress at_done i t (some sections) none))
      ⊎ ((code : Text) × (bs ≡ profile_error capture code ∷ profile_complete ∷ [])
          × (r ≡ progress at_done i t none (some (capture, code))))
unfolding run_bodies finish advance_control
capture_inversion i t r [] h = cc
capture_inversion i t r (capture_complete sections ∷ bs) h =
    let (last, same) = complete_inversion i t (some sections) none r bs h in
    inl (sections, ap (◌∷◌ (capture_complete sections)) last, same)
capture_inversion i t r (profile_error capture code ∷ bs) h =
    let (last, same) = complete_inversion i t none (some (capture, code)) r bs h in
    inr (code, ap (◌∷◌ (profile_error capture code)) last, same)
capture_inversion i t r (b ∷ bs) h = cc

abbrev Talks : Progress → List Body → (List Body → List Body) → Type 0
Talks r bs before = (c : Conversation) × (before bs ≡ records c) × (r ≡ result c)

terminal_inversion :
    (profile : Text) (i : Inferior) (r : Progress) (bs : List Body)
    → run_bodies bs (progress at_terminal (some i) none none none) ≡ ok r
    → Talks r bs (λ rest. profile_ready profile ∷ started i ∷ rest)
unfolding run_bodies finish advance_control
terminal_inversion profile i r [] h = cc
terminal_inversion profile i r (inferior_stopped signal ∷ bs) h =
    elim (capture_inversion (some i) (some (stopped signal)) r bs h) [
      | inl (sections, rest, same) ↦ (
        was_captured profile i signal sections,
        ap (λ l. profile_ready profile ∷ started i ∷ inferior_stopped signal ∷ l) rest,
        same,
      )
      | inr (code, rest, same) ↦ (
        capture_failed profile i signal code,
        ap (λ l. profile_ready profile ∷ started i ∷ inferior_stopped signal ∷ l) rest,
        same,
      )
    ]
terminal_inversion profile i r (inferior_exited code ∷ bs) h =
    let (rest, same) = complete_inversion (some i) (some (exited code)) none none r bs h in
    (
      ran_to_exit profile i code,
      ap (λ l. profile_ready profile ∷ started i ∷ inferior_exited code ∷ l) rest,
      same,
    )
terminal_inversion profile i r (inferior_signaled signal ∷ bs) h =
    let (rest, same) = complete_inversion (some i) (some (signaled signal)) none none r bs h in
    (
      ran_to_signal profile i signal,
      ap (λ l. profile_ready profile ∷ started i ∷ inferior_signaled signal ∷ l) rest,
      same,
    )
terminal_inversion profile i r (profile_error observe code ∷ bs) h =
    let (rest, same) = complete_inversion (some i) none none (some (observe, code)) r bs h in
    (
      observe_failed profile i code,
      ap (λ l. profile_ready profile ∷ started i ∷ profile_error observe code ∷ l) rest,
      same,
    )
terminal_inversion profile i r (b ∷ bs) h = cc

launch_inversion :
    (profile : Text) (r : Progress) (bs : List Body)
    → run_bodies bs (progress at_launch none none none none) ≡ ok r
    → Talks r bs (λ rest. profile_ready profile ∷ rest)
unfolding run_bodies finish advance_control
launch_inversion profile r [] h = cc
launch_inversion profile r (inferior_started pid ticks allowed ∷ bs) h =
    terminal_inversion profile
      (record { pid = pid; start_ticks = ticks; allowed_cpu_list = allowed }) r bs h
launch_inversion profile r (profile_error launch code ∷ bs) h =
    let (rest, same) = complete_inversion none none none (some (launch, code)) r bs h in
    (
      launch_failed profile code,
      ap (λ l. profile_ready profile ∷ profile_error launch code ∷ l) rest,
      same,
    )
launch_inversion profile r (b ∷ bs) h = cc

pub run_bodies-records : (c : Conversation) → run_bodies (records c) start ≡ ok (result c)
unfolding run_bodies finish advance_control
run_bodies-records (launch_failed profile code) = refl
run_bodies-records (observe_failed profile i code) = refl
run_bodies-records (ran_to_exit profile i code) = refl
run_bodies-records (ran_to_signal profile i signal) = refl
run_bodies-records (was_captured profile i signal sections) = refl
run_bodies-records (capture_failed profile i signal code) = refl

pub run_bodies_inversion :
    (bs : List Body) (r : Progress)
    → run_bodies bs start ≡ ok r
    → (c : Conversation) × (bs ≡ records c) × (r ≡ result c)
unfolding run_bodies finish advance_control
run_bodies_inversion [] r h = cc
run_bodies_inversion (profile_ready profile ∷ bs) r h = launch_inversion profile r bs h
run_bodies_inversion (b ∷ bs) r h = cc
