-- ===== src/Kernel/Cond.antt =====
-- The conditions and their mutexes, Lab6/xv6-semaphores/file.c.
pub mod Alloc
pub mod Wake
pub mod Clients
pub mod Sys
mod Tests
use system_device_programmin.Base.{
  ℕ, zero, suc, ◌+◌, List, Bool, true, false, none, some, ltb, ◌==◌, get_elem?, set, ℤ, pos, negsuc,
}
use system_device_programmin.Kernel.Sched.{Sched, mutex_q, alarm_clock}
use system_device_programmin.Kernel.Outcome.{
  Outcome, done, sleeping, spinning, fault, panicked, Resume, in_cond_lock, in_cond_wait,
  in_cond_wait_lock, ◌>>=◌, ◌>>◌, ret, branch, spin, stray,
}

-- `NCOND_MAX`
abbrev pub ncond_max : ℕ
ncond_max = 20

-- `struct mutex`: `locked` is 0 while the mutex is held, and 1 while it is free.
pub record Mutex : Type 0 where
  pub lock : Bool
  pub locked : ℕ
  pub ref : ℕ

-- `struct condition`
pub record Condition : Type 0 where
  pub lock : Bool
  pub value : ℤ
  pub ref : ℕ

-- `mutex_table` and `condition_table`, with the process table.
pub record CondTable (Q : Type 0) : Type 0 where
  pub mutex_lock : Bool
  pub mutex : List Mutex
  pub condition_lock : Bool
  pub condition : List Condition
  pub procs : Q

module _ (sc : Sched) where
  abbrev pub M : Type 0 → Type 0
  M A = CondTable sc.Procs → Outcome (CondTable sc.Procs) A

  -- `acquire(&condition_table.lock)` and `release`, then those of `mutex_table.lock`.
  acquire_conditions : M (Unit {0})
  acquire_conditions t = branch t.condition_lock spin (ret tt) (record t { condition_lock = true })

  release_conditions : M (Unit {0})
  release_conditions t = done tt (record t { condition_lock = false })

  acquire_mutexes : M (Unit {0})
  acquire_mutexes t = branch t.mutex_lock spin (ret tt) (record t { mutex_lock = true })

  release_mutexes : M (Unit {0})
  release_mutexes t = done tt (record t { mutex_lock = false })

  load_mutex : ℕ → M Mutex
  load_mutex i t = elim (get_elem? t.mutex i) [ none ↦ fault | some m ↦ done m t ]

  store_mutex : ℕ → Mutex → M (Unit {0})
  store_mutex i m t = done tt (record t { mutex = set t.mutex i m })

  load_condition : ℕ → M Condition
  load_condition i t = elim (get_elem? t.condition i) [ none ↦ fault | some c ↦ done c t ]

  store_condition : ℕ → Condition → M (Unit {0})
  store_condition i c t = done tt (record t { condition = set t.condition i c })

  -- `acquire` and `release` of the lock of one entry.
  acquire_mutex : ℕ → M (Unit {0})
  unfolding load_mutex store_mutex
  acquire_mutex i = do
    m ← load_mutex i
    branch m.lock spin (store_mutex i (record m { lock = true }))

  release_mutex : ℕ → M (Unit {0})
  unfolding load_mutex store_mutex
  release_mutex i = do m ← load_mutex i; store_mutex i (record m { lock = false })

  acquire_condition : ℕ → M (Unit {0})
  unfolding load_condition store_condition
  acquire_condition i = do
    c ← load_condition i
    branch c.lock spin (store_condition i (record c { lock = true }))

  release_condition : ℕ → M (Unit {0})
  unfolding load_condition store_condition
  release_condition i = do c ← load_condition i; store_condition i (record c { lock = false })

  -- The `while` of `cond_lock`, which holds the lock of the mutex: `sleep(&mutex->q, &mutex->lock)`
  -- gives it up, and the process goes on at `at`.
  lock_loop : Resume → ℕ → ℕ → M (Unit {0})
  unfolding load_mutex store_mutex release_mutex
  lock_loop at p i = do
    m ← load_mutex i
    branch (m.locked == 0)
        (do release_mutex i; λ t. sleeping at (record t { procs = sc.sleep p (mutex_q i) t.procs }))
        (do store_mutex i (record m { locked = 0 }); release_mutex i)

  -- `cond_lock`, for process `p`. When `sleep` returns the lock is taken again and the test of the
  -- `while` made again: a process that is woken at `in_cond_lock i` runs this from the start.
  lock_at : Resume → ℕ → ℕ → M (Unit {0})
  unfolding acquire_mutex lock_loop
  lock_at at p i = do acquire_mutex i; lock_loop at p i

  pub cond_lock : ℕ → ℕ → M (Unit {0})
  unfolding lock_at
  cond_lock p i = lock_at (in_cond_lock i) p i

  pub cond_unlock : ℕ → M (Unit {0})
  unfolding acquire_mutex release_mutex load_mutex store_mutex
  cond_unlock i = do
    acquire_mutex i
    m ← load_mutex i
    store_mutex i (record m { locked = 1 })
    release_mutex i

  -- The `for` of `cond_alloc` from `counter` on; `n` bounds its rounds. The counter goes up twice in
  -- a round: at the end of the body, and in the head of the `for`.
  alloc_loop : ℕ → ℕ → M ℤ
  unfolding load_condition store_condition load_mutex store_mutex release_conditions release_mutexes
  alloc_loop zero counter = do release_mutexes; release_conditions; ret (negsuc 0)
  alloc_loop (suc n) counter =
      let rest = alloc_loop n (counter + 1 + 1) in
      branch (ltb counter ncond_max)
        (do
          c ← load_condition counter
          m ← load_mutex counter
          branch (c.ref == 0)
              (do
                store_condition counter (record c { ref = 1 })
                store_mutex counter (record m { locked = 1 })
                release_mutexes
                release_conditions
                ret (pos counter))
              rest)
        (do release_mutexes; release_conditions; ret (negsuc 0))

  -- Twenty rounds are more than the loop can make.
  pub cond_alloc : M ℤ
  unfolding acquire_conditions acquire_mutexes alloc_loop
  cond_alloc = do acquire_conditions; acquire_mutexes; alloc_loop ncond_max 0

  pub cond_set : ℕ → ℤ → M (Unit {0})
  unfolding acquire_condition release_condition load_condition store_condition
  cond_set i val = do
    acquire_condition i
    c ← load_condition i
    store_condition i (record c { value = val })
    release_condition i

  pub cond_get : ℕ → M ℤ
  unfolding load_condition
  cond_get i = do c ← load_condition i; ret c.value

  pub cond_destroy : ℕ → M (Unit {0})
  unfolding acquire_conditions release_conditions load_condition store_condition
  cond_destroy i = do
    acquire_conditions
    c ← load_condition i
    store_condition i (record c { ref = 0 })
    release_conditions

  -- `cond_wait` up to its `sleep(&condition->alarm_clock, &condition->lock)`.
  pub cond_wait : ℕ → ℕ → M (Unit {0})
  unfolding acquire_condition cond_unlock release_condition
  cond_wait p i = do
    acquire_condition i
    cond_unlock i
    release_condition i
    λ t. sleeping (in_cond_wait i) (record t { procs = sc.sleep p (alarm_clock i) t.procs })

  -- The rest of `cond_wait`: `sleep` returns with the lock of the condition, and it is held while
  -- `cond_lock` waits for the mutex.
  pub cond_wait_woken : ℕ → ℕ → M (Unit {0})
  unfolding acquire_condition lock_at release_condition
  cond_wait_woken p i = do
    acquire_condition i
    lock_at (in_cond_wait_lock i) p i
    release_condition i

  -- And behind a `sleep` in that call of `cond_lock`.
  pub cond_wait_lock_woken : ℕ → ℕ → M (Unit {0})
  unfolding lock_at release_condition
  cond_wait_lock_woken p i = do lock_at (in_cond_wait_lock i) p i; release_condition i

  pub cond_signal : ℕ → M (Unit {0})
  cond_signal i t = done tt (record t { procs = sc.wakeup (alarm_clock i) t.procs })

  pub cond_broadcast : ℕ → M (Unit {0})
  cond_broadcast i t = done tt (record t { procs = sc.wakeup (alarm_clock i) t.procs })
