-- ===== src/ActivityDetector/Runs.antt =====
-- Runs of the activity detector over frames of given levels, and how long a transition has lasted.
use mathlib.Core.Path.{subst}
use unimrcp.Prelude.{
  sym, ℕ, zero, suc, ◌+◌, ◌*◌, ◌%◌, ◌^◌, ◌≤◌, ◌<◌, ◌≡◌, ◌⊎◌, refl, Bool-cases, inl, inr, List, [],
  ◌∷◌, arith, leb,
}
use unimrcp.ActivityDetector.{
  State, inactivity, activity_transition, activity, inactivity_transition, Detector, state_change,
  process_level,
}

-- The detector after frames of the given levels, the latest first.
unfoldable pub after : Detector → List ℕ → Detector
after d [] = d
after d (level ∷ levels) = (process_level (after d levels) level).0

abbrev pub IsLoud : Detector → ℕ → Type 0
IsLoud d level = d.level_threshold ≤ level

abbrev pub IsQuiet : Detector → ℕ → Type 0
IsQuiet d level = level < d.level_threshold

-- The latest `n` of the levels have the property.
abbrev pub Streak : (ℕ → Type 0) → ℕ → List ℕ → Type 0
Streak P zero levels = Unit
Streak P (suc n) [] = ⊥
Streak P (suc n) (level ∷ levels) = P level × Streak P n levels

-- How long a transition has lasted: `k` frames after its first one.
abbrev pub Since : Detector → State → ℕ → List ℕ → Type 0
Since d activity_transition duration levels =
    (k : ℕ) × (duration ≡ 10 * k)
    × ((k ≡ 0) ⊎ (duration < d.speech_timeout))
    × Streak (IsLoud d) (suc k) levels
Since d inactivity_transition duration levels =
    (k : ℕ) × (duration ≡ 10 * k)
    × ((k ≡ 0) ⊎ (duration < d.silence_timeout))
    × Streak (IsQuiet d) (suc k) levels
Since d _ duration levels = Unit

Since-start_loud :
    (d : Detector) (level : ℕ) (levels : List ℕ)
    → IsLoud d level
    → Since d activity_transition 0 (level ∷ levels)
Since-start_loud d level levels h = (0, omega arith, inl refl, (h, tt))

Since-start_quiet :
    (d : Detector) (level : ℕ) (levels : List ℕ)
    → IsQuiet d level
    → Since d inactivity_transition 0 (level ∷ levels)
Since-start_quiet d level levels h = (0, omega arith, inl refl, (h, tt))

Since-loud :
    (d : Detector) (duration duration' level : ℕ) (levels : List ℕ)
    → d.speech_timeout ≤ 2 ^ 63
    → IsLoud d level
    → duration' ≡ (duration + 10) % 2 ^ 64
    → duration' < d.speech_timeout
    → Since d activity_transition duration levels
    → Since d activity_transition duration' (level ∷ levels)
Since-loud d duration duration' level levels b h e lt (k, f, o, st) =
    (suc k, elim o [ inl z ↦ omega arith | inr z ↦ omega arith ], inr lt, (h, st))

Since-quiet :
    (d : Detector) (duration duration' level : ℕ) (levels : List ℕ)
    → d.silence_timeout ≤ 2 ^ 63
    → IsQuiet d level
    → duration' ≡ (duration + 10) % 2 ^ 64
    → duration' < d.silence_timeout
    → Since d inactivity_transition duration levels
    → Since d inactivity_transition duration' (level ∷ levels)
Since-quiet d duration duration' level levels b h e lt (k, f, o, st) =
    (suc k, elim o [ inl z ↦ omega arith | inr z ↦ omega arith ], inr lt, (h, st))

-- One frame, with the fields of the detector apart so that its state can be split.
step-Since :
    (d : Detector) (st : State) (duration level : ℕ) (levels : List ℕ)
    → d.speech_timeout ≤ 2 ^ 63
    → d.silence_timeout ≤ 2 ^ 63
    → Since d st duration levels
    → let d' = (process_level (record d { state = st; duration = duration }) level).0 in
      Since d d'.state d'.duration (level ∷ levels)
unfolding process_level state_change
step-Since d inactivity duration level levels b c h =
    elim (Bool-cases (leb d.level_threshold level)) [
      | inl e ↦ rw e (Since-start_loud d level levels (ground arith))
      | inr e ↦ elim (Bool-cases (leb d.noinput_timeout ((duration + 10) % 2 ^ 64))) [
        | inl f ↦ rw (e, f) tt
        | inr f ↦ rw (e, f) tt
      ]
    ]
step-Since d activity_transition duration level levels b c h =
    elim (Bool-cases (leb d.level_threshold level)) [
      | inl e ↦ elim (Bool-cases (leb d.speech_timeout ((duration + 10) % 2 ^ 64))) [
        | inl f ↦ rw (e, f) tt
        | inr f ↦
            rw (e, f)
              (Since-loud d duration ((duration + 10) % 2 ^ 64) level levels b (ground arith) refl
                (ground arith) h)
      ]
      | inr e ↦ rw e tt
    ]
step-Since d activity duration level levels b c h =
    elim (Bool-cases (leb d.level_threshold level)) [
      | inl e ↦ rw e tt
      | inr e ↦ rw e (Since-start_quiet d level levels (ground arith))
    ]
step-Since d inactivity_transition duration level levels b c h =
    elim (Bool-cases (leb d.level_threshold level)) [
      | inl e ↦ rw e tt
      | inr e ↦ elim (Bool-cases (leb d.silence_timeout ((duration + 10) % 2 ^ 64))) [
        | inl f ↦ rw (e, f) tt
        | inr f ↦
            rw (e, f)
              (Since-quiet d duration ((duration + 10) % 2 ^ 64) level levels c (ground arith) refl
                (ground arith) h)
      ]
    ]

-- Only the state and the duration change.
abbrev pub moved : Detector → Detector → Detector
moved d d' = record d { state = d'.state; duration = d'.duration }

step-moved :
    (d : Detector) (st : State) (duration level : ℕ)
    → let d' = (process_level (record d { state = st; duration = duration }) level).0 in
      d' ≡ moved d d'
unfolding process_level state_change
step-moved d inactivity duration level = ground arith
step-moved d activity_transition duration level = ground arith
step-moved d activity duration level = ground arith
step-moved d inactivity_transition duration level = ground arith

pub after-moved : (d : Detector) (levels : List ℕ) → after d levels ≡ moved d (after d levels)
unfolding after
after-moved d [] = refl
after-moved d (level ∷ levels) =
    let a = after d levels in
    subst (λ z. (process_level z level).0 ≡ moved d (process_level z level).0)
      (sym (after-moved d levels)) (step-moved d a.state a.duration level)

pub after-Since :
    (d : Detector) (levels : List ℕ)
    → d.speech_timeout ≤ 2 ^ 63
    → d.silence_timeout ≤ 2 ^ 63
    → d.state ≡ inactivity
    → Since d (after d levels).state (after d levels).duration levels
unfolding after
after-Since d [] b c e = rw e tt
after-Since d (level ∷ levels) b c e =
    let a = after d levels in
    subst
      (λ z.
        Since d (process_level z level).0.state (process_level z level).0.duration (level ∷ levels))
      (sym (after-moved d levels))
      (step-Since d a.state a.duration level levels b c (after-Since d levels b c e))
