-- ===== src/Alternation/Tests.antt =====
-- Runs of Lab1/Lab1.2.c.
use system_device_programmin.Base.{
  map, replicate, ◌++◌, ℕ, zero, suc, ◌≡◌, refl, List, [], ◌∷◌, some,
}
use system_device_programmin.Alternation.{
  end_time, Alarm, timer, end_child, handled, sigusr1, sigusr2, child, altern, alternations, pass,
  passes,
}
use system_device_programmin.Alternation.Minute.{seconds, Ended, child-minute}
use system_device_programmin.Alternation.Turns.{shown_passes, passes-shown}

-- Every time is 10 seconds.
abbrev nines : ℕ → ℕ
nines k = 9

child_runs :
    child nines 6 0 0
    ≡ some (timer 10 ∷ timer 10 ∷ timer 10 ∷ timer 10 ∷ timer 10 ∷ end_child 10 ∷ [])
unfolding child
child_runs = refl

child-minute_example :
    (alarms : List Alarm) × (child nines end_time 0 0 ≡ some alarms)
    × (seconds alarms ≡ end_time)
    × Ended alarms
    × (n : ℕ) × (map handled alarms ≡ replicate n sigusr1 ++ sigusr2 ∷ [])
child-minute_example = child-minute nines

-- One signal comes before the third line that is read.
abbrev one : ℕ → ℕ
one (suc (suc zero)) = 1
one _ = 0

abbrev file : List ℕ
file = 11 ∷ 12 ∷ 13 ∷ []

passes_run : passes one 2 file 3 0 1 ≡ (1, 11) ∷ (2, 12) ∷ []
unfolding passes pass alternations altern
passes_run = refl

passes-shown_example : passes one 2 file 3 0 1 ≡ shown_passes one 2 file 0
passes-shown_example = passes-shown one 2 file
