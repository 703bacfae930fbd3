-- ===== src/Alternation/Minute.antt =====
-- The child of Lab1/Lab1.2.c ends its parent after a minute.
use system_device_programmin.Base.{
  ℕ, zero, suc, ◌+◌, ◌-◌, ◌≤◌, ◌<◌, ◌≡◌, refl, ap, inl, inr, List, [], ◌∷◌, some, ltb, replicate,
  map, ◌++◌, arith, Bool-cases,
}
use system_device_programmin.Alternation.{
  end_time, Alarm, timer, end_child, sigusr1, sigusr2, handled, time, child,
}

-- What all alarms take.
abbrev pub seconds : List Alarm → ℕ
seconds [] = 0
seconds (timer s ∷ alarms) = s + seconds alarms
seconds (end_child s ∷ alarms) = s + seconds alarms

-- Some alarms of 1 to 10 seconds, and then the last one.
pub data Ended : List Alarm → Type 0 where
  ends : {s : ℕ} → 0 < s → Ended (end_child s ∷ [])
  alternates :
      {s : ℕ} {alarms : List Alarm} → 0 < s → s ≤ 10 → Ended alarms → Ended (timer s ∷ alarms)

-- What the parent gets: signals SIGUSR1, and then SIGUSR2.
Ended-signals :
    {alarms : List Alarm}
    → Ended alarms
    → (n : ℕ) × (map handled alarms ≡ replicate n sigusr1 ++ sigusr2 ∷ [])
unfolding handled
Ended-signals (ends some_time) = (0, refl)
Ended-signals (alternates some_time ten ended) =
    let (n, e) = Ended-signals ended in (suc n, ap (λ ss. sigusr1 ∷ ss) e)

module _ (rand : ℕ → ℕ) where
  child_ends :
      (fuel k total : ℕ)
      → total < end_time
      → end_time ≤ fuel + total
      → (alarms : List Alarm) × (child rand fuel k total ≡ some alarms)
        × (total + seconds alarms ≡ end_time)
        × Ended alarms
  unfolding child
  child_ends zero k total lt enough = absurd (omega arith)
  child_ends (suc fuel) k total lt enough = elim (Bool-cases (ltb (total + time rand k) end_time)) [
    | inl early ↦
        let (alarms, e, sum, ended) =
          child_ends fuel (k + 1) (total + time rand k) (ground arith) (omega arith) in
        (
          timer (time rand k) ∷ alarms,
          ground (arith, e),
          omega arith,
          alternates (omega arith) (omega arith) ended,
        )
    | inr late ↦ (end_child (end_time - total) ∷ [], ground arith, omega arith, ends (omega arith))
  ]

  -- The child sets alarms of 1 to 10 seconds, and then a last one; together they take 60 seconds,
  -- whatever `rand` returns. The parent gets SIGUSR1 at each of them, and SIGUSR2 at the last.
  pub child-minute :
      (alarms : List Alarm) × (child rand end_time 0 0 ≡ some alarms)
      × (seconds alarms ≡ end_time)
      × Ended alarms
      × (n : ℕ) × (map handled alarms ≡ replicate n sigusr1 ++ sigusr2 ∷ [])
  child-minute =
      let (alarms, e, sum, ended) = child_ends end_time 0 0 (omega arith) (omega arith) in
      let (n, got) = Ended-signals ended in (alarms, e, omega arith, ended, n, got)
