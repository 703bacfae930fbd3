-- ===== src/Kernel/Cond/Wake.antt =====
-- Whom the operations on conditions and mutexes of Lab6/xv6-semaphores/file.c wake.
use system_device_programmin.Base.{ℕ, zero, suc, ◌+◌, ◌≡◌, ◌≢◌, refl, true, some, ℤ, arith}
use system_device_programmin.Kernel.Sched.{Sched, mutex_q, alarm_clock, woken}
use system_device_programmin.Kernel.Outcome.{
  Outcome, done, sleeping, spinning, fault, panicked, Resume, in_cond_lock, After, ret, ◌>>=◌,
}
use system_device_programmin.Kernel.Cond

-- Every operation, and every rest of one that runs when its process is woken.
pub data Call : Type 0 where
  alloc : Call
  put : ℕ → ℤ → Call
  get : ℕ → Call
  destroy : ℕ → Call
  wait wait_woken wait_lock_woken signal broadcast lock unlock : ℕ → Call

module _ (sc : Sched) where
  abbrev State : Type 0
  State = Cond.CondTable sc.Procs

  abbrev ignore : {A : Type 0} → (State → Outcome State A) → State → Outcome State (Unit {0})
  ignore m = m >>= λ _. ret tt

  -- The operation, run by process `r`.
  pub run : ℕ → Call → State → Outcome State (Unit {0})
  run r alloc = ignore (Cond.cond_alloc sc)
  run r (put i val) = Cond.cond_set sc i val
  run r (get i) = ignore (Cond.cond_get sc i)
  run r (destroy i) = Cond.cond_destroy sc i
  run r (wait i) = Cond.cond_wait sc r i
  run r (wait_woken i) = Cond.cond_wait_woken sc r i
  run r (wait_lock_woken i) = Cond.cond_wait_lock_woken sc r i
  run r (signal i) = Cond.cond_signal sc i
  run r (broadcast i) = Cond.cond_broadcast sc i
  run r (lock i) = Cond.cond_lock sc r i
  run r (unlock i) = Cond.cond_unlock sc i

  module _ (p c : ℕ) where
    abbrev Stuck : State → Type 0
    Stuck t = sc.on t.procs p ≡ some (mutex_q c)

    alloc_loop-keeps : (n k : ℕ) (t : State) → Stuck t → After Stuck (Cond.alloc_loop sc n k t)
    unfolding Cond.alloc_loop
    alloc_loop-keeps zero k t h = h
    alloc_loop-keeps (suc n) k t h = ground (arith, alloc_loop-keeps n (k + 1 + 1) t)

    alloc-keeps : (t : State) → Stuck t → After Stuck (Cond.cond_alloc sc t)
    unfolding Cond.cond_alloc
    alloc-keeps t h = ground (
      arith,
      alloc_loop-keeps Cond.ncond_max 0 (record t { condition_lock = true; mutex_lock = true }),
    )

    ignore-keeps :
        {A : Type 0} (m : State → Outcome State A) (t : State)
        → After Stuck (m t)
        → After Stuck (ignore m t)
    ignore-keeps {A} m t h = go (m t) h
      where
        go :
            (o : Outcome State A)
            → After Stuck o
            → After Stuck (elim o [
              | done a s' ↦ done tt s'
              | sleeping r s' ↦ sleeping r s'
              | spinning ↦ spinning
              | fault ↦ fault
              | panicked ↦ panicked
            ])
        go (done a s') k = k
        go (sleeping r s') k = k
        go spinning k = tt
        go fault k = tt
        go panicked k = tt

    lock-keeps :
        (at : Resume) (r i : ℕ) (t : State)
        → r ≢ p
        → Stuck t
        → After Stuck (Cond.lock_at sc at r i t)
    unfolding Cond.lock_at
    lock-keeps at r i t ne h = ground (arith, sc.on-sleep r p (mutex_q i) t.procs)

    -- A process that sleeps on a mutex, in `cond_lock`, is woken by no operation of file.c on
    -- conditions and mutexes, whatever process runs it and however it ends.
    pub cond_lock-never_woken :
        (r : ℕ) (call : Call) (t : State)
        → r ≢ p
        → sc.on t.procs p ≡ some (mutex_q c)
        → After (λ t'. sc.on t'.procs p ≡ some (mutex_q c)) (run r call t)
    unfolding run
    cond_lock-never_woken r alloc t ne h = ignore-keeps (Cond.cond_alloc sc) t (alloc-keeps t h)
    cond_lock-never_woken r (put i val) t ne h = unfold Cond.cond_set in ground arith
    cond_lock-never_woken r (get i) t ne h = unfold Cond.cond_get in ground arith
    cond_lock-never_woken r (destroy i) t ne h = unfold Cond.cond_destroy in ground arith
    cond_lock-never_woken r (wait i) t ne h =
        unfold Cond.cond_wait in ground (arith, sc.on-sleep r p (alarm_clock i) t.procs)
    cond_lock-never_woken r (wait_woken i) t ne h =
        unfold Cond.cond_wait_woken in ground (arith, sc.on-sleep r p (mutex_q i) t.procs)
    cond_lock-never_woken r (wait_lock_woken i) t ne h =
        unfold Cond.cond_wait_lock_woken in ground (arith, sc.on-sleep r p (mutex_q i) t.procs)
    cond_lock-never_woken r (signal i) t ne h =
        unfold Cond.cond_signal in ground (arith, sc.on-wakeup (alarm_clock i) t.procs p)
    cond_lock-never_woken r (broadcast i) t ne h =
        unfold Cond.cond_broadcast in ground (arith, sc.on-wakeup (alarm_clock i) t.procs p)
    cond_lock-never_woken r (lock i) t ne h =
        unfold Cond.cond_lock in lock-keeps (in_cond_lock i) r i t ne h
    cond_lock-never_woken r (unlock i) t ne h = unfold Cond.cond_unlock in ground arith

  -- `cond_signal` wakes every process that sleeps on the condition, and only those, as
  -- `cond_broadcast` does.
  pub cond_signal_wakes :
      (i : ℕ) (t : State)
      → (t' : State) × (Cond.cond_signal sc i t ≡ done tt t')
        × (Cond.cond_broadcast sc i t ≡ done tt t')
        × ((p : ℕ) → sc.on t'.procs p ≡ woken (alarm_clock i) (sc.on t.procs p))
  unfolding Cond.cond_signal Cond.cond_broadcast
  cond_signal_wakes i t = (_, refl, refl, λ p. sc.on-wakeup (alarm_clock i) t.procs p)
