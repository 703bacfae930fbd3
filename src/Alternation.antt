-- ===== src/Alternation.antt =====
-- Lab1/Lab1.2.c: a child sends signals at random times; its parent prints a file again and again, or
-- does not print, in turn.
pub mod Minute
pub mod Turns
mod Tests
use system_device_programmin.Base.{
  ℕ, zero, suc, ◌+◌, ◌-◌, ◌%◌, List, [], ◌∷◌, ◌++◌, Option, none, some, ltb, ◌==◌, if◌then◌else◌,
}

-- `END_TIME`
abbrev pub end_time : ℕ
end_time = 60

-- A call of `alarm` with its seconds, and the handler of SIGALRM that is set then.
pub data Alarm : Type 0 where
  timer : ℕ → Alarm
  end_child : ℕ → Alarm

pub data Signal : Type 0 where
  sigusr1 sigusr2 : Signal

-- The signal that the handler sends to the parent.
pub handled : Alarm → Signal
handled (timer seconds) = sigusr1
handled (end_child seconds) = sigusr2

-- `rand` is what the calls of `rand` return, in their order.
module _ (rand : ℕ → ℕ) where
  abbrev pub time : ℕ → ℕ
  time k = rand k % 10 + 1

  -- The `while` of the child and the last alarm, at the call `k` of `rand`; `none` is a loop that
  -- runs out of fuel.
  pub child : ℕ → ℕ → ℕ → Option (List Alarm)
  child zero k total_time = none
  child (suc fuel) k total_time =
      let rest = child fuel (k + 1) (total_time + time k) in
      if ltb (total_time + time k) end_time
      then elim rest [ none ↦ none | some alarms ↦ some (timer (time k) ∷ alarms) ]
      else some (end_child (end_time - total_time) ∷ [])

-- The handler of SIGUSR1, on `print`.
pub altern : ℕ → ℕ
altern print = 1 - print

-- It runs so many times.
pub alternations : ℕ → ℕ → ℕ
unfolding altern
alternations zero print = print
alternations (suc n) print = alternations n (altern print)

-- What `fgets` returns for the file up to NULL, and what `printf` gets.
module _ {Line : Type 0} where
  -- `signals k` is how many signals SIGUSR1 come between the call `k` of `fgets` and the one before.
  module _ (signals : ℕ → ℕ) where
    -- The inner `while`, from the call `k` on, with what is printed and `print` behind it.
    pub pass : List Line → ℕ → ℕ → ℕ → List (ℕ × Line) × ℕ
    unfolding alternations
    pass [] line_number k print = ([], print)
    pass (line ∷ lines) line_number k print =
        let print' = alternations (signals k) print in
        let (printed, print'') = pass lines (line_number + 1) (suc k) print' in
        (if print' == 0 then printed else (line_number + 1, line) ∷ printed, print'')

    -- `n` rounds of the outer one, for a file that has `size` lines.
    pub passes : ℕ → List Line → ℕ → ℕ → ℕ → List (ℕ × Line)
    unfolding pass
    passes zero file size k print = []
    passes (suc n) file size k print =
        let (printed, print') = pass file 0 k print in
        printed ++ passes n file size (k + size) print'
