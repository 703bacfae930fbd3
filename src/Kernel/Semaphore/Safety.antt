-- ===== src/Kernel/Semaphore/Safety.antt =====
-- What holds however the processes that use the semaphores of Lab6/xv6-semaphores/file.c are
-- interleaved, and whom `sem_post` wakes.
use system_device_programmin.Base.{
  ℕ, suc, ◌+◌, ◌^◌, ◌<◌, ◌≡◌, refl, subst, some, Bool-cases, not, inl, inr, ==_refl, ◌≢◌,
  if◌then◌else◌, get_elem?, ℤ, pos, negsuc, neg_part, ◌+ℤ◌, ◌≤ℤ◌, ltb_ℤ, arith,
}
use system_device_programmin.Kernel.Sched.{Sched, sem_q, woken, not_asleep}
use system_device_programmin.Kernel.Outcome.{Outcome, done, Ends}
use system_device_programmin.Kernel.Semaphore.{nsem_max, Semaphore, SemTable, sem_alloc, sem_post}
use system_device_programmin.Kernel.Semaphore.Steps.{sem_post_lem}
use system_device_programmin.Kernel.Semaphore.Alloc.{Allocated, taken, full, sem_alloc-Allocated}
use system_device_programmin.Kernel.Semaphore.System.{
  Call, alloc, destroy, wait, post, InTable, run, System, Step, returns, sleeps, resumes, Reach,
  here, next,
}
use system_device_programmin.Kernel.Semaphore.Invariant.{
  IsValid, up, store-IsValid, IsValid-le_Ends, sem_wait-IsValid, sem_post-IsValid,
  sem_destroy-IsValid, sem_wait_woken-IsValid,
}

sign : (z : ℤ) → pos 0 ≤ℤ z → neg_part z ≡ 0
sign (pos n) h = refl
sign (negsuc n) h = absurd (omega arith)

positive : (z : ℤ) → ltb_ℤ (pos 0) (z +ℤ pos 1) ≡ not (ltb_ℤ z (pos 0))
positive (pos n) = ground arith
positive (negsuc n) = ground arith

module _ (sc : Sched) (n : ℕ) where
  sem_alloc-IsValid :
      {b : ℕ} {t : SemTable sc.Procs} → IsValid sc n b t → Ends (IsValid sc n b) (sem_alloc sc t)
  sem_alloc-IsValid {b} {t} v = go (sem_alloc-Allocated sc t v.size v.table_unlocked)
    where
      go : {o : Outcome (SemTable sc.Procs) ℤ} → Allocated sc t o → Ends (IsValid sc n b) o
      go (taken k s at_k free used e) =
          let old = v.entries k s at_k in
          rw e (
            store-IsValid sc n k _ _ v (omega arith)
              (record {
                unlocked = old.unlocked;
                above = old.above;
                below = old.below;
                covered = old.covered;
              })
              (λ j ne. omega arith))
      go (full used e) = rw e v

  -- Every operation ends: it finds its locks free and its entry in the table, returns or sleeps, and
  -- leaves a valid table, with the counts moved by at most one.
  pub run-IsValid :
      {b : ℕ} {t : SemTable sc.Procs} (p : ℕ) (c : Call)
      → IsValid sc n b t
      → suc b < 2 ^ 31
      → InTable c
      → Ends (IsValid sc n (suc b)) (run sc p c t)
  unfolding run
  run-IsValid {b} {t} p alloc v small h = IsValid-le_Ends sc n b _ (sem_alloc-IsValid v)
  run-IsValid {b} {t} p (destroy sn) v small h =
      IsValid-le_Ends sc n b _ (sem_destroy-IsValid sc n v sn h)
  run-IsValid p (wait sn) v small h = sem_wait-IsValid sc n v sn h p small
  run-IsValid p (post sn) v small h = sem_post-IsValid sc n v sn h small

  Step-IsValid :
      {b : ℕ} {s t : System sc}
      → Step sc n s t
      → IsValid sc n b s.table
      → suc b < 2 ^ 31
      → IsValid sc n (suc b) t.table
  Step-IsValid {b} (returns p c r lt at_user awake h e) v small =
      subst (Ends (IsValid sc n (suc b))) e (run-IsValid p c v small h)
  Step-IsValid {b} (sleeps p c at lt at_user awake h e) v small =
      subst (Ends (IsValid sc n (suc b))) e (run-IsValid p c v small h)
  Step-IsValid {b} (resumes p sn r lt behind_sleep awake h e) v small =
      subst (Ends (IsValid sc n (suc b))) e
        (IsValid-le_Ends sc n b _ (sem_wait_woken-IsValid sc n v sn h))

  -- From a valid table with counts up to `b`, after `k` steps the table is valid, with counts up to
  -- `b + k`, as long as no `int` count can have wrapped.
  pub Reach-IsValid :
      {b : ℕ} {s : System sc} {k : ℕ} {t : System sc}
      → IsValid sc n b s.table
      → Reach sc n s k t
      → b + k < 2 ^ 31
      → IsValid sc n (b + k) t.table
  Reach-IsValid {b} {s} v here small = subst (λ c. IsValid sc n c s.table) (omega arith) v
  Reach-IsValid {b} v (next {k = k} {u = u} r st) small =
      subst (λ c. IsValid sc n c u.table) (omega arith)
        (Step-IsValid st (Reach-IsValid v r (omega arith)) (omega arith))

  -- No wake-up is lost, in whatever order processes call `sem_alloc`, `sem_destroy`, `sem_wait` and
  -- `sem_post` with numbers inside the table: after `k` steps from a table in order whose counts are
  -- within `b` of 0, where `b + k` fits in an `int`, no process sleeps on a semaphore whose count is
  -- not negative.
  pub no_lost_wakeup :
      {b : ℕ} {s : System sc} {k : ℕ} {t : System sc}
      → IsValid sc n b s.table
      → Reach sc n s k t
      → b + k < 2 ^ 31
      → (j : ℕ) (u : Semaphore) → get_elem? t.table.semaphore j ≡ some u
      → pos 0 ≤ℤ u.count
      → (p : ℕ) → p < n
      → sc.on t.table.procs p ≢ some (sem_q j)
  no_lost_wakeup {t = t} v r small j u at_j nonneg p lt asleep =
      let sound = (Reach-IsValid v r small).entries j u at_j in
      let quiet =
        not_asleep sc n p (sem_q j) t.table.procs
          (omega (arith, sound.covered, sign u.count nonneg)) lt in
      ground (arith, ==_refl j)

  -- `sem_post` wakes all who sleep on the semaphore as soon as one did: if the new count is not
  -- positive then every process that slept on it runs again, and no other is woken.
  pub sem_post_wakes :
      {b : ℕ} {t : SemTable sc.Procs} (i : ℕ) (s : Semaphore)
      → IsValid sc n b t
      → suc b < 2 ^ 31
      → i < nsem_max
      → get_elem? t.semaphore i ≡ some s
      → (t' : SemTable sc.Procs) × (sem_post sc (pos i) t ≡ done (pos 0) t')
        × ((p : ℕ)
            → sc.on t'.procs p ≡ (
                if ltb_ℤ s.count (pos 0)
                then woken (sem_q i) (sc.on t.procs p)
                else sc.on t.procs p))
  sem_post_wakes {t = t} i s v small lt at_i =
      let old = v.entries i s at_i in
      let d = up small s.count old.above old.below in
      (
        _,
        sem_post_lem sc i t lt at_i old.unlocked (s.count +ℤ pos 1) d.exact,
        λ p. elim (Bool-cases (ltb_ℤ s.count (pos 0))) [
          | inl neg ↦ rw (neg, positive s.count, neg) (sc.on-wakeup (sem_q i) t.procs p)
          | inr nonneg ↦ rw (nonneg, positive s.count, nonneg)
        ],
      )
