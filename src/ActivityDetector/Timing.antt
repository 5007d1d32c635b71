-- ===== src/ActivityDetector/Timing.antt =====
-- The events of mpf_activity_detector.c.
use mathlib.Core.Path.{subst}
use unimrcp.Prelude.{
  sym, ap, ◌++◌, ℕ, suc, ◌+◌, ◌*◌, ◌%◌, ◌^◌, ◌≤◌, ◌<◌, ◌≡◌, Bool-cases, ◌∙◌, inl, inr, List, [],
  ◌∷◌, length, All, arith, leb,
}
use unimrcp.ActivityDetector.{
  State, inactivity, activity_transition, activity, inactivity_transition, Event, event_activity,
  event_inactivity, Detector, state_change, process_level,
}
use unimrcp.ActivityDetector.Runs.{after, IsLoud, IsQuiet, Streak, Since, after-moved, after-Since}

-- What an event says of the latest frames.
abbrev pub Justified : Detector → Event → List ℕ → Type 0
Justified d event_activity levels =
    (k : ℕ) × (d.speech_timeout ≤ 10 * k) × Streak (IsLoud d) (suc k) levels
Justified d event_inactivity levels =
    (k : ℕ) × (d.silence_timeout ≤ 10 * k) × Streak (IsQuiet d) (suc k) levels
Justified d _ levels = Unit

step-Justified :
    (d : Detector) (st : State) (duration level : ℕ) (levels : List ℕ)
    → Since d st duration levels
    → Justified d
        (process_level (record d { state = st; duration = duration }) level).1
        (level ∷ levels)
unfolding process_level state_change
step-Justified d inactivity duration level levels h =
    elim (Bool-cases (leb d.level_threshold level)) [
      | inl e ↦ rw e tt
      | inr e ↦ elim (Bool-cases (leb d.noinput_timeout ((duration + 10) % 2 ^ 64))) [
        | inl f ↦ rw (e, f) tt
        | inr f ↦ rw (e, f) tt
      ]
    ]
step-Justified d activity_transition duration level levels (k, g, o, st) =
    elim (Bool-cases (leb d.level_threshold level)) [
      | inl e ↦ elim (Bool-cases (leb d.speech_timeout ((duration + 10) % 2 ^ 64))) [
        | inl f ↦ rw (e, f) (suc k, ground arith, (ground arith, st))
        | inr f ↦ rw (e, f) tt
      ]
      | inr e ↦ rw e tt
    ]
step-Justified d activity duration level levels h =
    elim (Bool-cases (leb d.level_threshold level)) [ inl e ↦ rw e tt | inr e ↦ rw e tt ]
step-Justified d inactivity_transition duration level levels (k, g, o, st) =
    elim (Bool-cases (leb d.level_threshold level)) [
      | inl e ↦ rw e tt
      | inr e ↦ elim (Bool-cases (leb d.silence_timeout ((duration + 10) % 2 ^ 64))) [
        | inl f ↦ rw (e, f) (suc k, ground arith, (ground arith, st))
        | inr f ↦ rw (e, f) tt
      ]
    ]

-- A detector that starts inactive reports activity only at the end of an unbroken run of loud
-- frames, and inactivity only at the end of one of quiet frames, which lasts for the timeout after
-- its first frame. Timeouts are at most 2^63 ms.
pub process_level-Justified :
    (d : Detector) (levels : List ℕ) (level : ℕ)
    → d.speech_timeout ≤ 2 ^ 63
    → d.silence_timeout ≤ 2 ^ 63
    → d.state ≡ inactivity
    → Justified d (process_level (after d levels) level).1 (level ∷ levels)
process_level-Justified d levels level b c e =
    let a = after d levels in
    subst (λ z. Justified d (process_level z level).1 (level ∷ levels)) (sym (after-moved d levels))
      (step-Justified d a.state a.duration level levels (after-Since d levels b c e))

step_loud :
    (d : Detector) (level k : ℕ)
    → d.speech_timeout ≤ 2 ^ 63
    → IsLoud d level
    → 10 * k + 10 < d.speech_timeout
    → (process_level (record d { state = activity_transition; duration = 10 * k }) level).0
      ≡ record d { state = activity_transition; duration = 10 * k + 10 }
unfolding process_level state_change
step_loud d level k b p lt = ground arith

step_first :
    (d : Detector) (level : ℕ)
    → d.state ≡ inactivity
    → IsLoud d level
    → (process_level d level).0 ≡ record d { state = activity_transition; duration = 0 }
unfolding process_level state_change
step_first d level e p = ground arith

-- After a first loud frame and `levels`, which are loud and shorter than the timeout, an inactive
-- detector is in transition to activity.
after_loud :
    (d : Detector) (first : ℕ) (levels : List ℕ)
    → d.speech_timeout ≤ 2 ^ 63
    → d.state ≡ inactivity
    → IsLoud d first
    → All (IsLoud d) levels
    → 10 * length levels < d.speech_timeout
    → after d (levels ++ (first ∷ []))
      ≡ record d { state = activity_transition; duration = 10 * length levels }
unfolding after
after_loud d first [] b e l h lt =
    step_first d first e l
    ∙ ap (λ n. record d { state = activity_transition; duration = n }) (omega arith)
after_loud d first (x ∷ xs) b e l (p, h) lt =
    ap (λ z. (process_level z x).0) (after_loud d first xs b e l h (omega arith))
    ∙ step_loud d x (length xs) b p (omega arith)
    ∙ ap (λ n. record d { state = activity_transition; duration = n }) (omega arith)

-- An inactive detector reports activity at the loud frame that completes the timeout after a first
-- loud frame, if the frames between are loud. The timeout is at most 2^63 ms.
pub process_level-reports :
    (d : Detector) (first last : ℕ) (levels : List ℕ)
    → d.speech_timeout ≤ 2 ^ 63
    → d.state ≡ inactivity
    → IsLoud d first
    → All (IsLoud d) levels
    → IsLoud d last
    → 10 * length levels < d.speech_timeout
    → d.speech_timeout ≤ 10 * length levels + 10
    → process_level (after d (levels ++ (first ∷ []))) last
      ≡ (record d { state = activity; duration = 0 }, event_activity)
unfolding process_level state_change
process_level-reports d first last levels b e l h l' lt ge =
    rw (after_loud d first levels b e l h lt) (ground arith)
