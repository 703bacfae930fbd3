-- ===== src/Kernel/Sched.antt =====
-- What file.c uses of proc.c, which the repository does not hold: `sleep` and `wakeup`
-- (declared in Lab6/xv6-semaphores/defs.h). A kernel's process table is any type with these.
use system_device_programmin.Base.{
  ℕ, zero, suc, ◌+◌, ◌≤◌, ◌<◌, ◌≡◌, ap, refl, inl, inr, Option, none, some, Bool-cases, Bool, true,
  false, ltb, ◌==◌, if◌then◌else◌, ℕ_discrete, arith,
}

-- The addresses that file.c sleeps on: `&semaphore_table.semaphore[i].q`,
-- `&mutex_table.mutex[i].q` and `&condition_table.condition[i].alarm_clock`.
pub data Chan : Type 0 where
  sem_q : ℕ → Chan
  mutex_q : ℕ → Chan
  alarm_clock : ℕ → Chan

infix 50 ◌same◌
abbrev pub ◌same◌ : Chan → Chan → Bool
sem_q i same sem_q j = i == j
mutex_q i same mutex_q j = i == j
alarm_clock i same alarm_clock j = i == j
_ same _ = false

-- A process that sleeps on `c` is woken by `wakeup c`; one that does not is left as it is.
abbrev pub woken : Chan → Option Chan → Option Chan
woken c none = none
woken c (some d) = if d same c then none else some d

-- `on q i` is the channel on which process `i` sleeps. The laws are the contract of `sleep`
-- ("atomically release lock and sleep on chan") and of `wakeup` ("wake up all processes sleeping
-- on chan").
pub record Sched : Type 1 where
  pub Procs : Type 0
  pub on : Procs → ℕ → Option Chan
  pub sleep : ℕ → Chan → Procs → Procs
  pub wakeup : Chan → Procs → Procs
  pub on-sleep :
      (i j : ℕ) (c : Chan) (q : Procs) → on (sleep i c q) j ≡ (if i == j then some c else on q j)
  pub on-wakeup : (c : Chan) (q : Procs) (j : ℕ) → on (wakeup c q) j ≡ woken c (on q j)

-- A process table that keeps the contract: the channel of each process.
abbrev pub plain : Sched
plain = record {
  Procs = ℕ → Option Chan;
  on = λ q i. q i;
  sleep = λ i c q j. if i == j then some c else q j;
  wakeup = λ c q j. woken c (q j);
  on-sleep = λ i j c q. refl;
  on-wakeup = λ c q j. refl;
}

-- 1 if a process with this channel sleeps on `c`.
abbrev pub sleeps_on : Chan → Option Chan → ℕ
sleeps_on c none = 0
sleeps_on c (some d) = if d same c then 1 else 0

bounded : (x : Bool) (k : ℕ) → (if x then k else 0) ≤ k
bounded true k = omega arith
bounded false k = omega arith

woken-sleeps_on : (c : Chan) (o : Option Chan) → sleeps_on c (woken c o) ≡ 0
woken-sleeps_on c none = refl
woken-sleeps_on c (some d) = elim (Bool-cases (d same c)) [
  | inl e ↦ rw (e, woken)
  | inr e ↦ rw (e, woken) (rw e)
]

sleeps_on-le : (c : Chan) (o : Option Chan) → sleeps_on c o ≤ 1
sleeps_on-le c none = omega arith
sleeps_on-le c (some d) = bounded (d same c) 1

module _ (sc : Sched) where
  -- How many of the processes below `n` sleep on `c`.
  unfoldable pub sleepers : ℕ → Chan → sc.Procs → ℕ
  sleepers zero c q = 0
  sleepers (suc n) c q = sleepers n c q + sleeps_on c (sc.on q n)

  pub sleepers-sleep :
      (n i : ℕ) (c d : Chan) (q : sc.Procs)
      → sleepers n c (sc.sleep i d q)
        ≤ sleepers n c q + (if ltb i n then sleeps_on c (some d) else 0)
  unfolding sleepers
  sleepers-sleep zero i c d q = omega arith
  sleepers-sleep (suc n) i c d q = ground (arith, sleepers-sleep n i c d q, sc.on-sleep i n d q)

  -- At most one more process sleeps on the channel, and none more on another.
  pub sleepers-sleep_self :
      (n i : ℕ) (c : Chan) (q : sc.Procs) → sleepers n c (sc.sleep i c q) ≤ suc (sleepers n c q)
  sleepers-sleep_self n i c q =
      omega (arith, sleepers-sleep n i c c q, sleeps_on-le c (some c), bounded (ltb i n) _)

  pub sleepers-sleep_other :
      (n i : ℕ) (c d : Chan) (q : sc.Procs)
      → (d same c) ≡ false
      → sleepers n c (sc.sleep i d q) ≤ sleepers n c q
  sleepers-sleep_other n i c d q e =
      omega (
        arith,
        sleepers-sleep n i c d q,
        ap {B = ℕ} (λ x. if x then 1 else 0) e,
        bounded (ltb i n) _,
      )

  pub sleepers-wakeup_self : (n : ℕ) (c : Chan) (q : sc.Procs) → sleepers n c (sc.wakeup c q) ≡ 0
  unfolding sleepers
  sleepers-wakeup_self zero c q = refl
  sleepers-wakeup_self (suc n) c q =
      rw sc.on-wakeup (omega (arith, sleepers-wakeup_self n c q, woken-sleeps_on c (sc.on q n)))

  pub sleepers-wakeup :
      (n : ℕ) (c d : Chan) (q : sc.Procs) → sleepers n c (sc.wakeup d q) ≤ sleepers n c q
  unfolding sleepers
  sleepers-wakeup zero c d q = omega arith
  sleepers-wakeup (suc n) c d q = ground (arith, sleepers-wakeup n c d q, sc.on-wakeup d q n)

  pub not_asleep :
      (n i : ℕ) (c : Chan) (q : sc.Procs) → sleepers n c q ≡ 0 → i < n → sleeps_on c (sc.on q i) ≡ 0
  unfolding sleepers
  not_asleep zero i c q e lt = elim lt [ ]
  not_asleep (suc n) i c q e lt = elim (ℕ_discrete i n) [
    | yes last ↦ rw last (omega arith)
    | no other ↦ not_asleep n i c q (omega arith) (omega arith)
  ]
