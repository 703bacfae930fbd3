-- ===== src/Kernel/Cond/Clients/Exclusion.antt =====
-- One process at a time holds a mutex of Lab6/xv6-semaphores/file.c.
use system_device_programmin.Base.{
  subst, ℕ, ◌+◌, ◌≡◌, refl, some, get_elem?, count, count_pos, count-set, same_place, arith,
}
use system_device_programmin.Kernel.Sched.{Sched}
use system_device_programmin.Kernel.Outcome.{Outcome, done, sleeping, Resume}
use system_device_programmin.Kernel.Cond
use system_device_programmin.Kernel.Cond.{CondTable, cond_lock, cond_unlock}
use system_device_programmin.Kernel.Cond.Clients
use system_device_programmin.Kernel.Cond.Clients.{Pc, outside, inside, behind}
use system_device_programmin.Kernel.Cond.Clients.Mutex.{
  free, Leaves, Same, Taken, Free, cond_lock-Taken, cond_unlock-Free, cond_wait-Free,
  cond_wait_woken-Taken, cond_wait_lock_woken-Taken, cond_signal-Same, cond_broadcast-Same,
  cond_set-Same,
}
use system_device_programmin.Kernel.Cond.Clients.Use.{
  Used, Untouched, cond_lock-Used, cond_unlock-Used, cond_wait-Used, cond_wait_woken-Used,
  cond_wait_lock_woken-Used, cond_set-Used, cond_signal-Used, cond_broadcast-Used,
  cond_alloc-Untouched, cond_destroy-Untouched,
}
use system_device_programmin.Kernel.Outcome.{After}

-- Whether it stands inside the mutex, told by a number.
abbrev pub place : Pc → ℕ
place outside = 0
place inside = 1
place (behind r) = 2

module _ {sc : Sched} {i : ℕ} where
  -- Processes inside, and whether the mutex is free.
  abbrev pub tokens : Clients.System sc i → ℕ
  tokens s = free sc i s.table + count place inside s.pcs

  moved :
      (s : Clients.System sc i) (t : CondTable sc.Procs) (p : ℕ) {old : Pc} (new : Pc)
      → tokens s ≡ 1
      → get_elem? s.pcs p ≡ some old
      → free sc i t + same_place place inside new ≡ free sc i s.table + same_place place inside old
      → tokens (Clients.to sc i p new t s) ≡ 1
  moved s t p new v e h = omega (arith, v, h, count-set place inside new s.pcs p e)

  -- An operation that takes the mutex, and one that gives it up.
  took :
      {A : Type 0} (s : Clients.System sc i) {t : CondTable sc.Procs} (p : ℕ) {old : Pc}
      (o : Outcome (CondTable sc.Procs) A) {a : A}
      → tokens s ≡ 1
      → get_elem? s.pcs p ≡ some old
      → same_place place inside old ≡ 0
      → Leaves sc i (Taken sc i s.table) (Same sc i s.table) o
      → o ≡ done a t
      → tokens (Clients.to sc i p inside t s) ≡ 1
  took {A} s {t} p o v at_p elsewhere h e =
      let (f, g) = subst (Leaves sc i (Taken sc i s.table) (Same sc i s.table)) e h in
      moved s t p inside v at_p (omega (arith, f, g, elsewhere))

  slept :
      {A : Type 0} (s : Clients.System sc i) {t : CondTable sc.Procs} (p : ℕ) {old : Pc}
      (r : Resume) (o : Outcome (CondTable sc.Procs) A)
      → tokens s ≡ 1
      → get_elem? s.pcs p ≡ some old
      → same_place place inside old ≡ 0
      → Leaves sc i (Taken sc i s.table) (Same sc i s.table) o
      → o ≡ sleeping r t
      → tokens (Clients.to sc i p (behind r) t s) ≡ 1
  slept {A} s {t} p r o v at_p elsewhere h e =
      moved s t p (behind r) v at_p
        (omega (arith, elsewhere, subst (Leaves sc i (Taken sc i s.table) (Same sc i s.table)) e h))

  gave_up :
      (s : Clients.System sc i) (t : CondTable sc.Procs) (p : ℕ) (new : Pc)
      → tokens s ≡ 1
      → get_elem? s.pcs p ≡ some inside
      → same_place place inside new ≡ 0
      → free sc i t ≡ 1
      → tokens (Clients.to sc i p new t s) ≡ 1
  gave_up s t p new v at_p elsewhere f =
      moved s t p new v at_p (omega (arith, elsewhere, f, v, count_pos place inside s.pcs p at_p))

  pub Step-tokens :
      {s t : Clients.System sc i}
      → Used sc i s.table
      → tokens s ≡ 1
      → Clients.Step sc i s t
      → tokens t ≡ 1
  Step-tokens {s} u v (Clients.locks p (at_p, awake) e) =
      took s p (Cond.cond_lock sc p i s.table) v at_p refl (cond_lock-Taken sc i p s.table) e
  Step-tokens {s} u v (Clients.waits_for_lock p r (at_p, awake) e) =
      slept s p r (Cond.cond_lock sc p i s.table) v at_p refl (cond_lock-Taken sc i p s.table) e
  Step-tokens {s} u v (Clients.locks_woken p (at_p, awake) e) =
      took s p (Cond.cond_lock sc p i s.table) v at_p refl (cond_lock-Taken sc i p s.table) e
  Step-tokens {s} u v (Clients.waits_again p r (at_p, awake) e) =
      slept s p r (Cond.cond_lock sc p i s.table) v at_p refl (cond_lock-Taken sc i p s.table) e
  Step-tokens {s} u v (Clients.unlocks p {t} (at_p, awake) e) =
      gave_up s t p outside v at_p refl
        (subst (Leaves sc i (Free sc i) (Free sc i)) e (cond_unlock-Free sc i s.table))
  Step-tokens {s} u v (Clients.waits p r {t} (at_p, awake) e) =
      gave_up s t p (behind r) v at_p refl
        (subst (Leaves sc i (Free sc i) (Free sc i)) e (cond_wait-Free sc i p s.table))
  Step-tokens {s} u v (Clients.comes_back p (at_p, awake) e) =
      took s p (Cond.cond_wait_woken sc p i s.table) v at_p refl
        (cond_wait_woken-Taken sc i p s.table) e
  Step-tokens {s} u v (Clients.waits_to_come_back p r (at_p, awake) e) =
      slept s p r (Cond.cond_wait_woken sc p i s.table) v at_p refl
        (cond_wait_woken-Taken sc i p s.table) e
  Step-tokens {s} u v (Clients.comes_back_late p (at_p, awake) e) =
      took s p (Cond.cond_wait_lock_woken sc p i s.table) v at_p refl
        (cond_wait_lock_woken-Taken sc i p s.table) e
  Step-tokens {s} u v (Clients.waits_more p r (at_p, awake) e) =
      slept s p r (Cond.cond_wait_lock_woken sc p i s.table) v at_p refl
        (cond_wait_lock_woken-Taken sc i p s.table) e
  Step-tokens {s} u v (Clients.sets val e) =
      let same =
        subst (Leaves sc i (Same sc i s.table) (Same sc i s.table)) e
          (cond_set-Same sc i (Same sc i s.table) s.table val) in
      omega (arith, v, same)
  Step-tokens {s} u v (Clients.signals e) =
      let same =
        subst (Leaves sc i (Same sc i s.table) (Same sc i s.table)) e
          (cond_signal-Same sc i s.table) in
      omega (arith, v, same)
  Step-tokens {s} u v (Clients.broadcasts e) =
      let same =
        subst (Leaves sc i (Same sc i s.table) (Same sc i s.table)) e
          (cond_broadcast-Same sc i s.table) in
      omega (arith, v, same)
  Step-tokens {s} u v (Clients.allocs r e) =
      let same = subst (After (Untouched sc i s.table)) e (cond_alloc-Untouched sc i s.table u) in
      omega (arith, v, same)
  Step-tokens {s} u v (Clients.destroys j ne e) =
      let same =
        subst (After (Untouched sc i s.table)) e (cond_destroy-Untouched sc i j s.table ne) in
      omega (arith, v, same)

  -- The condition stays in use.
  Step-Used :
      {s t : Clients.System sc i} → Used sc i s.table → Clients.Step sc i s t → Used sc i t.table
  Step-Used {s} u (Clients.locks p at_p e) =
      subst (After (Used sc i)) e (cond_lock-Used sc i p s.table u)
  Step-Used {s} u (Clients.waits_for_lock p r at_p e) =
      subst (After (Used sc i)) e (cond_lock-Used sc i p s.table u)
  Step-Used {s} u (Clients.locks_woken p at_p e) =
      subst (After (Used sc i)) e (cond_lock-Used sc i p s.table u)
  Step-Used {s} u (Clients.waits_again p r at_p e) =
      subst (After (Used sc i)) e (cond_lock-Used sc i p s.table u)
  Step-Used {s} u (Clients.unlocks p at_p e) =
      subst (After (Used sc i)) e (cond_unlock-Used sc i s.table u)
  Step-Used {s} u (Clients.waits p r at_p e) =
      subst (After (Used sc i)) e (cond_wait-Used sc i p s.table u)
  Step-Used {s} u (Clients.comes_back p at_p e) =
      subst (After (Used sc i)) e (cond_wait_woken-Used sc i p s.table u)
  Step-Used {s} u (Clients.waits_to_come_back p r at_p e) =
      subst (After (Used sc i)) e (cond_wait_woken-Used sc i p s.table u)
  Step-Used {s} u (Clients.comes_back_late p at_p e) =
      subst (After (Used sc i)) e (cond_wait_lock_woken-Used sc i p s.table u)
  Step-Used {s} u (Clients.waits_more p r at_p e) =
      subst (After (Used sc i)) e (cond_wait_lock_woken-Used sc i p s.table u)
  Step-Used {s} u (Clients.sets val e) =
      subst (After (Used sc i)) e (cond_set-Used sc i val s.table u)
  Step-Used {s} u (Clients.allocs r e) =
      let same = subst (After (Untouched sc i s.table)) e (cond_alloc-Untouched sc i s.table u) in
      omega (arith, u, same)
  Step-Used {s} u (Clients.destroys j ne e) =
      let same =
        subst (After (Untouched sc i s.table)) e (cond_destroy-Untouched sc i j s.table ne) in
      omega (arith, u, same)
  Step-Used {s} u (Clients.signals e) =
      subst (After (Used sc i)) e (cond_signal-Used sc i s.table u)
  Step-Used {s} u (Clients.broadcasts e) =
      subst (After (Used sc i)) e (cond_broadcast-Used sc i s.table u)

  Reach-Used :
      {s t : Clients.System sc i} {k : ℕ}
      → Used sc i s.table
      → Clients.Reach sc i s k t
      → Used sc i t.table
  Reach-Used u Clients.here = u
  Reach-Used u (Clients.next run step) = Step-Used (Reach-Used u run) step

  -- The condition is in use at the start, no process is inside, and the mutex is free. Then as long as
  -- processes unlock the mutex and wait on the condition only while they are inside, and none releases
  -- the condition by `cond_destroy`, either no process is inside and the mutex is free, or one is and
  -- the mutex is held.
  pub one_holder :
      {s t : Clients.System sc i} {k : ℕ}
      → Used sc i s.table
      → free sc i s.table ≡ 1
      → count place inside s.pcs ≡ 0
      → Clients.Reach sc i s k t
      → free sc i t.table + count place inside t.pcs ≡ 1
  one_holder u f nobody Clients.here = omega (arith, f, nobody)
  one_holder u f nobody (Clients.next run step) =
      Step-tokens (Reach-Used u run) (one_holder u f nobody run) step
