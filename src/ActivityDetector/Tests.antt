-- ===== src/ActivityDetector/Tests.antt =====
-- Runs of an activity detector with the default settings.
use unimrcp.Prelude.{
  ℕ, ◌+◌, ◌*◌, ◌≤◌, ◌<◌, ◌≡◌, ◌↔◌, refl, true, none, some, List, [], ◌∷◌, length, arith,
}
use unimrcp.ActivityDetector.{
  Detector, Frame, inactivity, activity, event_activity, create, level_calculate, process_level,
  process, state_change,
}
use unimrcp.ActivityDetector.Level.{ℤ, total, level_calculate-mean, process-divides_by_zero}
use unimrcp.ActivityDetector.Runs.{after}
use unimrcp.ActivityDetector.Timing.{Justified, process_level-Justified, process_level-reports}

-- The samples 3, -3 and 6, and their words.
abbrev samples : List ℤ
samples = ℤ.pos 3 ∷ ℤ.negsuc 2 ∷ ℤ.pos 6 ∷ []

abbrev words : List ℕ
words = 3 ∷ 65533 ∷ 6 ∷ []

level_calculate-mean_example :
    (level : ℕ) × (level_calculate words ≡ some level)
    × (level * length samples ≤ total samples)
    × (total samples < (level + 1) * length samples)
    × (level ≤ 32768)
level_calculate-mean_example =
    level_calculate-mean samples (omega arith, (omega arith, (omega arith, tt))) (omega arith)
      (omega arith)

abbrev silent : Frame
silent = record { is_audio = true; samples = [] }

process-divides_by_zero_example :
    (process create silent ≡ none) ↔ ((silent.is_audio ≡ true) × (silent.samples ≡ []))
process-divides_by_zero_example = process-divides_by_zero create silent

-- A short speech timeout.
abbrev quick : Detector
quick = record {
  level_threshold = 2;
  speech_timeout = 30;
  silence_timeout = 30;
  noinput_timeout = 5000;
  state = inactivity;
  duration = 0;
}

process_level-Justified_example :
    Justified quick (process_level (after quick (9 ∷ 9 ∷ 9 ∷ [])) 9).1 (9 ∷ 9 ∷ 9 ∷ 9 ∷ [])
process_level-Justified_example =
    process_level-Justified quick (9 ∷ 9 ∷ 9 ∷ []) 9 (omega arith) (omega arith) refl

quick_reports : (process_level (after quick (9 ∷ 9 ∷ 9 ∷ [])) 9).1 ≡ event_activity
unfolding process_level state_change after
quick_reports = refl

process_level-reports_example :
    process_level (after quick (5 ∷ 6 ∷ 7 ∷ [])) 4
    ≡ (record quick { state = activity; duration = 0 }, event_activity)
process_level-reports_example =
    process_level-reports quick 7 4 (5 ∷ 6 ∷ []) (omega arith) refl (omega arith)
      (omega arith, (omega arith, tt)) (omega arith) (omega arith) (omega arith)
