-- ===== src/ActivityDetector.antt =====
-- The voice activity detector of libs/mpf/src/mpf_activity_detector.c. An `apr_size_t` has 64 bits.
-- A sample of a frame is the 16-bit word of an `apr_int16_t` in two's complement. A division by
-- zero gives `none`.
pub mod Level
pub mod Runs
pub mod Timing
mod Tests
use unimrcp.Prelude.{
  ℕ, ◌+◌, ◌-◌, ◌/◌, ◌%◌, ◌^◌, Bool, true, false, Option, none, some, List, [], ◌∷◌, length, leb,
  ltb, ◌==◌, if◌then◌else◌,
}

-- `mpf_detector_state_e`
pub data State : Type 0 where
  inactivity activity_transition activity inactivity_transition : State

-- `mpf_detector_event_e`
pub data Event : Type 0 where
  event_none event_activity event_inactivity event_noinput : Event

-- `mpf_activity_detector_t`
pub record Detector : Type 0 where
  pub level_threshold : ℕ
  pub speech_timeout : ℕ
  pub silence_timeout : ℕ
  pub noinput_timeout : ℕ
  pub state : State
  pub duration : ℕ

-- What the detector reads of an `mpf_frame_t`: whether its type has the audio flag, and the
-- samples of its buffer.
pub record Frame : Type 0 where
  pub is_audio : Bool
  pub samples : List ℕ

-- CODEC_FRAME_TIME_BASE, in milliseconds.
abbrev pub codec_frame_time_base : ℕ
codec_frame_time_base = 10

unfoldable pub create : Detector
create = record {
  level_threshold = 2;
  speech_timeout = 300;
  silence_timeout = 300;
  noinput_timeout = 5000;
  duration = 0;
  state = inactivity;
}

unfoldable pub reset : Detector → Detector
reset d = record d { duration = 0; state = inactivity }

unfoldable pub level_set : Detector → ℕ → Detector
level_set d level = record d { level_threshold = level }

unfoldable pub noinput_timeout_set : Detector → ℕ → Detector
noinput_timeout_set d timeout = record d { noinput_timeout = timeout }

unfoldable pub speech_timeout_set : Detector → ℕ → Detector
speech_timeout_set d timeout = record d { speech_timeout = timeout }

unfoldable pub silence_timeout_set : Detector → ℕ → Detector
silence_timeout_set d timeout = record d { silence_timeout = timeout }

unfoldable pub state_change : Detector → State → Detector
state_change d st = record d { duration = 0; state = st }

-- The distance of a sample from zero: what the loop adds to its sum, as `sum -= *cur` or
-- `sum += *cur`.
unfoldable pub magnitude : ℕ → ℕ
magnitude x = if ltb x (2 ^ 15) then x else 2 ^ 16 - x

-- The loop over the samples.
unfoldable pub sum_loop : ℕ → List ℕ → ℕ
unfolding magnitude
sum_loop sum [] = sum
sum_loop sum (x ∷ xs) = sum_loop ((sum + magnitude x) % 2 ^ 64) xs

unfoldable pub level_calculate : List ℕ → Option ℕ
unfolding sum_loop
level_calculate [] = none
level_calculate (x ∷ xs) = some (sum_loop 0 (x ∷ xs) / length (x ∷ xs))

abbrev wait : Detector → Detector
wait d = record d { duration = (d.duration + codec_frame_time_base) % 2 ^ 64 }

-- What `mpf_activity_detector_process` does in each state with the level of the frame.
unfoldable pub process_level : Detector → ℕ → Detector × Event
unfolding state_change
process_level d level = elim d.state [
  | inactivity ↦
      if leb d.level_threshold level
      then (state_change d activity_transition, event_none)
      else if leb d.noinput_timeout (wait d).duration
      then (wait d, event_noinput)
      else (wait d, event_none)
  | activity_transition ↦
      if leb d.level_threshold level
      then if leb d.speech_timeout (wait d).duration
        then (state_change (wait d) activity, event_activity)
        else (wait d, event_none)
      else (state_change d inactivity, event_none)
  | activity ↦
      if leb d.level_threshold level
      then (wait d, event_none)
      else (state_change d inactivity_transition, event_none)
  | inactivity_transition ↦
      if leb d.level_threshold level
      then (state_change d activity, event_none)
      else if leb d.silence_timeout (wait d).duration
      then (state_change (wait d) inactivity, event_inactivity)
      else (wait d, event_none)
]

-- The level of a frame; one without audio is silent.
unfoldable pub frame_level : Frame → Option ℕ
unfolding level_calculate
frame_level f = if f.is_audio then level_calculate f.samples else some 0

unfoldable pub process : Detector → Frame → Option (Detector × Event)
unfolding process_level frame_level
process d f = elim (frame_level f) [ none ↦ none | some level ↦ some (process_level d level) ]
