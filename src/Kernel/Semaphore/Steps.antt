-- ===== src/Kernel/Semaphore/Steps.antt =====
-- What each operation on a semaphore of Lab6/xv6-semaphores/file.c does, run to its end.
use system_device_programmin.Base.{
  ℕ, ◌<◌, ◌≡◌, List, true, false, some, if◌then◌else◌, get_elem?, set, get_elem?-set_self, set-set,
  get_elem?-lt, ℤ, pos, negsuc, ◌+ℤ◌, ltb_ℤ, int, arith,
}
use system_device_programmin.Kernel.Sched.{Sched, sem_q}
use system_device_programmin.Kernel.Outcome.{Outcome, done, sleeping, in_sem_wait}
use system_device_programmin.Kernel.Semaphore.{
  nsem_max, Semaphore, SemTable, sem_init, sem_destroy, sem_wait, sem_wait_woken, sem_post,
}

module _ (sc : Sched) (i : ℕ) (t : SemTable sc.Procs) {s : Semaphore} (inside : i < nsem_max)
    (at_i : get_elem? t.semaphore i ≡ some s) (open_lock : s.lock ≡ false) where
  abbrev put : Semaphore → List Semaphore
  put = set t.semaphore i

  read_back : (v : Semaphore) → get_elem? (set t.semaphore i v) i ≡ some v
  read_back v = get_elem?-set_self t.semaphore i v (get_elem?-lt t.semaphore i at_i)

  -- The statements of one critical section on entry `i`, whose last store is `v`.
  again : (u v : Semaphore) → set (set t.semaphore i u) i v ≡ set t.semaphore i v
  again u v = set-set t.semaphore i u v

  -- What the tactics need of a section that stores `v`, after the lock was taken.
  record Section (v : Semaphore) : Type 0 where
    locked :
        get_elem? (set t.semaphore i (record s { lock = true })) i ≡ some (record s { lock = true })
    stored : get_elem? (set t.semaphore i v) i ≡ some v
    over : set (set t.semaphore i (record s { lock = true })) i v ≡ set t.semaphore i v
    freed :
        set (set t.semaphore i v) i (record v { lock = false })
        ≡ set t.semaphore i (record v { lock = false })

  in-Section : (v : Semaphore) → Section v
  in-Section v = record {
    locked = read_back (record s { lock = true });
    stored = read_back v;
    over = again (record s { lock = true }) v;
    freed = again v (record v { lock = false });
  }

  pub sem_init_lem :
      (n : ℤ)
      → sem_init sc (pos i) n t
        ≡ done (pos 0) (record t { semaphore = set t.semaphore i (record s { count = n }) })
  unfolding sem_init
  sem_init_lem n = ground (arith, in-Section (record s { lock = true; count = n }))

  pub sem_destroy_lem :
      sem_destroy sc (pos i) t
      ≡ done (pos 0) (record t { semaphore = set t.semaphore i (record s { ref = 0 }) })
  unfolding sem_destroy
  sem_destroy_lem = ground arith

  pub sem_wait_woken_lem :
      sem_wait_woken sc i t ≡ done (pos 0) (record t { semaphore = set t.semaphore i s })
  unfolding sem_wait_woken
  sem_wait_woken_lem = ground (arith, in-Section (record s { lock = true }))

  -- `sem_wait`: below zero the process sleeps.
  abbrev pub after_wait : ℕ → ℤ → Outcome (SemTable sc.Procs) ℤ
  after_wait p c =
      let rest = set t.semaphore i (record s { count = c }) in
      if ltb_ℤ c (pos 0)
      then sleeping (in_sem_wait i)
          (record t { semaphore = rest; procs = sc.sleep p (sem_q i) t.procs })
      else done (pos 0) (record t { semaphore = rest })

  pub sem_wait_lem :
      (p : ℕ) (c : ℤ) → int (s.count +ℤ negsuc 0) ≡ c → sem_wait sc p (pos i) t ≡ after_wait p c
  unfolding sem_wait
  sem_wait_lem p c e = ground (arith, in-Section (record s { lock = true; count = c }))

  -- `sem_post`: up to zero the sleepers are woken.
  abbrev pub after_post : ℤ → SemTable sc.Procs
  after_post c =
      let rest = set t.semaphore i (record s { count = c }) in
      if ltb_ℤ (pos 0) c
      then record t { semaphore = rest }
      else record t { semaphore = rest; procs = sc.wakeup (sem_q i) t.procs }

  pub sem_post_lem :
      (c : ℤ) → int (s.count +ℤ pos 1) ≡ c → sem_post sc (pos i) t ≡ done (pos 0) (after_post c)
  unfolding sem_post
  sem_post_lem c e = ground (arith, in-Section (record s { lock = true; count = c }))
