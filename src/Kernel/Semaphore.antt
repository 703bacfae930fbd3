-- ===== src/Kernel/Semaphore.antt =====
-- The semaphores of Lab6/xv6-semaphores/file.c.
pub mod Steps
pub mod Alloc
pub mod System
pub mod Invariant
pub mod Safety
pub mod Sys
mod Tests
use system_device_programmin.Base.{
  ℕ, zero, suc, ◌+◌, List, Bool, true, false, none, some, ltb, ◌==◌, get_elem?, set, ℤ, pos, negsuc,
  ◌+ℤ◌, ltb_ℤ, int,
}
use system_device_programmin.Kernel.Sched.{Sched, sem_q}
use system_device_programmin.Kernel.Outcome.{
  Outcome, done, sleeping, spinning, fault, in_sem_wait, ◌>>=◌, ◌>>◌, ret, branch, spin, stray,
}

-- `NSEM_MAX`
abbrev pub nsem_max : ℕ
nsem_max = 20

-- `struct semaphore`. Its `q` is used only for its address.
pub record Semaphore : Type 0 where
  pub lock : Bool
  pub count : ℤ
  pub ref : ℕ

-- `semaphore_table`, with the process table.
pub record SemTable (Q : Type 0) : Type 0 where
  pub lock : Bool
  pub semaphore : List Semaphore
  pub procs : Q

module _ (sc : Sched) where
  abbrev pub M : Type 0 → Type 0
  M A = SemTable sc.Procs → Outcome (SemTable sc.Procs) A

  -- `acquire(&semaphore_table.lock)`
  acquire_table : M (Unit {0})
  acquire_table t = branch t.lock spin (ret tt) (record t { lock = true })

  release_table : M (Unit {0})
  release_table t = done tt (record t { lock = false })

  -- `s = &semaphore_table.semaphore[sn]`, for use: outside the array there is none.
  address : ℤ → M ℕ
  address (pos i) = branch (ltb i nsem_max) (ret i) stray
  address (negsuc i) = stray

  load : ℕ → M Semaphore
  load i t = elim (get_elem? t.semaphore i) [ none ↦ fault | some s ↦ done s t ]

  store : ℕ → Semaphore → M (Unit {0})
  store i s t = done tt (record t { semaphore = set t.semaphore i s })

  -- `acquire(&s->lock)`
  acquire : ℕ → M (Unit {0})
  unfolding load store
  acquire i = do s ← load i; branch s.lock spin (store i (record s { lock = true }))

  release : ℕ → M (Unit {0})
  unfolding load store
  release i = do s ← load i; store i (record s { lock = false })

  -- `sleep(&s->q, &s->lock)` of process `p`: it gives up the lock and waits.
  sleep_on : ℕ → ℕ → M ℤ
  unfolding release
  sleep_on p i = do
    release i
    λ t. sleeping (in_sem_wait i) (record t { procs = sc.sleep p (sem_q i) t.procs })

  -- `wakeup(&s->q)`
  wake : ℕ → M (Unit {0})
  wake i t = done tt (record t { procs = sc.wakeup (sem_q i) t.procs })

  -- The `for` of `sem_alloc`: `n` entries are left, from `k` on.
  alloc_loop : ℕ → ℕ → M ℤ
  unfolding load store release_table
  alloc_loop zero k = do release_table; ret (negsuc 0)
  alloc_loop (suc n) k =
      let rest = alloc_loop n (k + 1) in
      do
        s ← load k
        branch (s.ref == 0) (do store k (record s { ref = 1 }); release_table; ret (pos k)) rest

  pub sem_alloc : M ℤ
  unfolding acquire_table alloc_loop
  sem_alloc = do acquire_table; alloc_loop nsem_max 0

  pub sem_init : ℤ → ℤ → M ℤ
  unfolding address acquire release load store
  sem_init sn n = do
    i ← address sn
    acquire i
    s ← load i
    store i (record s { count = n })
    release i
    ret (pos 0)

  pub sem_destroy : ℤ → M ℤ
  unfolding address load store
  sem_destroy sn = do i ← address sn; s ← load i; store i (record s { ref = 0 }); ret (pos 0)

  -- For process `p`.
  pub sem_wait : ℕ → ℤ → M ℤ
  unfolding address acquire release load store sleep_on
  sem_wait p sn = do
    i ← address sn
    acquire i
    s ← load i
    store i (record s { count = int (s.count +ℤ negsuc 0) })
    s' ← load i
    branch (ltb_ℤ s'.count (pos 0)) (sleep_on p i) (do release i; ret (pos 0))

  -- The rest of `sem_wait` when `sleep` returns, holding the lock again.
  pub sem_wait_woken : ℕ → M ℤ
  unfolding acquire release
  sem_wait_woken i = do acquire i; release i; ret (pos 0)

  pub sem_post : ℤ → M ℤ
  unfolding address acquire release load store wake
  sem_post sn = do
    i ← address sn
    acquire i
    s ← load i
    store i (record s { count = int (s.count +ℤ pos 1) })
    s' ← load i
    branch (ltb_ℤ (pos 0) s'.count) (ret tt) (wake i)
    release i
    ret (pos 0)
