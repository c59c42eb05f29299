-- ===== src/Debugger/Control/Grammar/Frames.antt =====
-- The check of one record, and the whole of `validateSequence`.
use fault_affinity.Prelude.{
  ℕ, suc, ◌+◌, ◌≤◌, ◌≡◌, ◌≢◌, ◌↔◌, refl, sym, ap, ap₂, ◌∙◌, subst, Bool, true, List, [], ◌∷◌, none,
  length, le→leb, ==_iff, Outcome, ok, throw, ◌>>=◌, then_returns, require_holds, arith,
}
use fault_affinity.Text.{Text}
use fault_affinity.Text.Equality.{text_eq_sound, text_eq_refl, text_eq_complete}
use fault_affinity.Debugger.Control.{
  Body, profile_ready, inferior_started, inferior_stopped, inferior_exited, inferior_signaled,
  capture_complete, profile_error, profile_complete, malformed, unknown_type, Frame, Expected,
  ControlError, texts_eq, is_known, validate_common, validate_body, validate_frame, Progress, start,
  advance_control, finish, run_frames, validate_sequence,
}
use fault_affinity.Debugger.Control.Grammar.{
  IsBodyOf, IsFrameOf, AreFramesOf, bodies, Conversation, launch_failed, observe_failed,
  ran_to_exit, ran_to_signal, was_captured, capture_failed, records, result,
}
use fault_affinity.Debugger.Control.Grammar.Sequences.{
  run_bodies, run_bodies-records, run_bodies_inversion,
}

texts_eq_sound : (xs ys : List Text) → texts_eq xs ys ≡ true → xs ≡ ys
texts_eq_sound [] [] h = refl
texts_eq_sound [] (y ∷ ys) h = cc
texts_eq_sound (x ∷ xs) [] h = cc
texts_eq_sound (x ∷ xs) (y ∷ ys) h =
    ap₂ ◌∷◌ (text_eq_sound x y (ground arith)) (texts_eq_sound xs ys (ground arith))

texts_eq_refl : (xs : List Text) → texts_eq xs xs ≡ true
texts_eq_refl [] = refl
texts_eq_refl (x ∷ xs) = rw (text_eq_refl x) (texts_eq_refl xs)

module _ (known : Text → Bool) (expected : Expected) where
  validate_body_sound :
      (b : Body) → validate_body known b expected ≡ ok tt → IsBodyOf known expected b
  unfolding validate_body
  validate_body_sound (profile_ready profile) h = text_eq_sound _ _ (require_holds _ _ h)
  validate_body_sound (inferior_started pid ticks allowed) h =
      (ground arith, ground arith, ground arith, text_eq_sound _ _ (ground arith))
  validate_body_sound (inferior_stopped signal) h = require_holds _ _ h
  validate_body_sound (inferior_exited code) h = ground arith
  validate_body_sound (inferior_signaled signal) h = require_holds _ _ h
  validate_body_sound (capture_complete sections) h = texts_eq_sound _ _ (require_holds _ _ h)
  validate_body_sound (profile_error stage code) h = ground arith
  validate_body_sound profile_complete h = tt
  validate_body_sound malformed h = cc
  validate_body_sound unknown_type h = cc

  validate_body_complete :
      (b : Body) → IsBodyOf known expected b → validate_body known b expected ≡ ok tt
  unfolding validate_body
  validate_body_complete (profile_ready profile) h = rw (text_eq_complete _ _ h)
  validate_body_complete (inferior_started pid ticks allowed) h =
      rw (le→leb _ _ h.0, le→leb _ _ h.1, h.2, text_eq_complete _ _ h.3)
  validate_body_complete (inferior_stopped signal) h = rw h
  validate_body_complete (inferior_exited code) h = rw (le→leb _ _ h)
  validate_body_complete (inferior_signaled signal) h = rw h
  validate_body_complete (capture_complete sections) h =
      rw (h, texts_eq_refl expected.capture_sections)
  validate_body_complete (profile_error stage code) h = rw (h.0, h.1)
  validate_body_complete profile_complete h = refl
  validate_body_complete malformed h = absurd h
  validate_body_complete unknown_type h = absurd h

  validate_frame_sound :
      (frame : Frame) (place : ℕ)
      → validate_frame known frame expected place ≡ ok tt
      → IsFrameOf known expected place frame
  unfolding validate_frame validate_common
  validate_frame_sound frame place h =
      let (common, body) = then_returns (validate_common frame expected place) _ h in
      record {
        version = ground arith;
        generation = text_eq_sound _ _ (ground arith);
        digest = ground arith;
        manifest = text_eq_sound _ _ (ground arith);
        run = ground arith;
        nonce = text_eq_sound _ _ (ground arith);
        sequence = ground arith;
        body = validate_body_sound frame.body body;
      }

  known_of_IsBodyOf : (b : Body) → IsBodyOf known expected b → is_known b ≡ true
  known_of_IsBodyOf unknown_type h = absurd h
  known_of_IsBodyOf b h = refl

  validate_frame_complete :
      (frame : Frame) (place : ℕ)
      → IsFrameOf known expected place frame
      → validate_frame known frame expected place ≡ ok tt
  unfolding validate_frame validate_common
  validate_frame_complete frame place v =
      rw
        (
          (==_iff _ _).1 v.version,
          known_of_IsBodyOf frame.body v.body,
          text_eq_complete _ _ v.generation,
          v.digest,
          text_eq_complete _ _ v.manifest,
          (==_iff _ _).1 v.run,
          text_eq_complete _ _ v.nonce,
          (==_iff _ _).1 v.sequence,
        )
        (validate_body_complete frame.body v.body)

length-bodies : (frames : List Frame) → length (bodies frames) ≡ length frames
length-bodies [] = refl
length-bodies (frame ∷ frames) = ap suc (length-bodies frames)

conversation_settled :
    (c : Conversation)
    → (3 ≤ length (records c))
      × (length (records c) ≤ 5)
      × ((result c).error ≡ none → ((result c).inferior ≢ none) × ((result c).terminal ≢ none))
      × ((result c).captured ≢ none → (result c).error ≡ none)
conversation_settled (launch_failed profile code) = grind arith
conversation_settled (observe_failed profile i code) = grind arith
conversation_settled (ran_to_exit profile i code) = grind arith
conversation_settled (ran_to_signal profile i signal) = grind arith
conversation_settled (was_captured profile i signal sections) = grind arith
conversation_settled (capture_failed profile i signal code) = grind arith

-- An iteration that does not throw checked its record, moved on and went through the rest.
iteration_inversion :
    (check : Outcome ControlError (Unit {0})) (move : Outcome ControlError Progress)
    (rest : Progress → Outcome ControlError Progress) {r : Progress}
    → ((check >>= λ _. move >>= rest) >>= finish) ≡ ok r
    → (p : Progress) × (check ≡ ok tt) × (move ≡ ok p) × ((rest p >>= finish) ≡ ok r)
iteration_inversion (throw e) move rest h = cc
iteration_inversion (ok tt) (throw e) rest h = cc
iteration_inversion (ok tt) (ok p) rest h = (p, refl, refl, h)

iteration_finish :
    (move : Outcome ControlError Progress) (rest rest' : Progress → Outcome ControlError Progress)
    → ((p : Progress) → (rest p >>= finish) ≡ rest' p)
    → ((move >>= rest) >>= finish) ≡ (move >>= rest')
iteration_finish (throw e) rest rest' h = refl
iteration_finish (ok p) rest rest' h = h p

module _ (known : Text → Bool) (expected : Expected) where
  run_frames_sound :
      (index : ℕ) (frames : List Frame) (p r : Progress)
      → (run_frames known expected index frames p >>= finish) ≡ ok r
      → AreFramesOf known expected index frames × (run_bodies (bodies frames) p ≡ ok r)
  unfolding run_frames run_bodies
  run_frames_sound index [] p r h = (tt, h)
  run_frames_sound index (frame ∷ frames) p r h =
      let (p', fits, moves, later) =
        iteration_inversion (validate_frame known frame expected (index + 1))
          (advance_control p.state frame.body p)
          (λ q. run_frames known expected (index + 1) frames q) h in
      let (framed, ran) = run_frames_sound (index + 1) frames p' r later in
      ((validate_frame_sound known expected frame (index + 1) fits, framed), rw moves ran)

  run_frames_complete :
      (index : ℕ) (frames : List Frame) (p : Progress)
      → AreFramesOf known expected index frames
      → (run_frames known expected index frames p >>= finish) ≡ run_bodies (bodies frames) p
  unfolding run_frames run_bodies
  run_frames_complete index [] p v = refl
  run_frames_complete index (frame ∷ frames) p v =
      rw (validate_frame_complete known expected frame (index + 1) v.0) (
        iteration_finish (advance_control p.state frame.body p)
          (λ q. run_frames known expected (index + 1) frames q) (λ q. run_bodies (bodies frames) q)
          (λ q. run_frames_complete (index + 1) frames q v.1))

  -- A transcript is accepted, with a given result, exactly when its records belong to the run, are
  -- numbered from 1 without a gap, and are one of the six conversations, with that result.
  pub validate_sequence_iff :
      (frames : List Frame) (r : Progress)
      → (validate_sequence known expected frames ≡ ok r) ↔ (
          AreFramesOf known expected 0 frames
          × ((c : Conversation) × (bodies frames ≡ records c) × (r ≡ result c)))
  unfolding validate_sequence
  validate_sequence_iff frames r = (
    λ h.
        let (framed, ran) = run_frames_sound 0 frames start r h in
        (framed, run_bodies_inversion (bodies frames) r ran),
    λ (framed, (c, talk, same)).
        run_frames_complete 0 frames start framed
        ∙ ap (λ bs. run_bodies bs start) talk
        ∙ run_bodies-records c
        ∙ ap ok (sym same),
  )

  -- An accepted transcript has three to five records; without an error it names the inferior and
  -- its terminal event, and a capture comes with no error.
  pub validate_sequence_settled :
      (frames : List Frame) {r : Progress}
      → validate_sequence known expected frames ≡ ok r
      → (3 ≤ length frames)
        × (length frames ≤ 5)
        × (r.error ≡ none → (r.inferior ≢ none) × (r.terminal ≢ none))
        × (r.captured ≢ none → r.error ≡ none)
  validate_sequence_settled frames {r} h =
      let (_, (c, talk, same)) = (validate_sequence_iff frames r).0 h in
      let count = sym (length-bodies frames) ∙ ap length talk in
      let (least, most, told, clean) = conversation_settled c in
      (
        omega (arith, count, least),
        omega (arith, count, most),
        subst (λ q. q.error ≡ none → (q.inferior ≢ none) × (q.terminal ≢ none)) (sym same) told,
        subst (λ q. q.captured ≢ none → q.error ≡ none) (sym same) clean,
      )
