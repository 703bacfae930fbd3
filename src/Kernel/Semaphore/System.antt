-- ===== src/Kernel/Semaphore/System.antt =====
-- Processes that use the semaphores of Lab6/xv6-semaphores/file.c, interleaved in any order. An
-- operation is one step up to its return or its `sleep`: it runs under the lock of its entry, and
-- `sem_alloc` and `sem_destroy` touch no field that the others use.
use system_device_programmin.Base.{ℕ, suc, ◌<◌, ◌≡◌, if◌then◌else◌, ◌==◌, none, ℤ, pos}
use system_device_programmin.Kernel.Sched.{Sched}
use system_device_programmin.Kernel.Outcome.{Outcome, done, sleeping, Resume, in_sem_wait}
use system_device_programmin.Kernel.Semaphore.{
  nsem_max, SemTable, sem_alloc, sem_destroy, sem_wait, sem_wait_woken, sem_post,
}

pub data Call : Type 0 where
  alloc : Call
  destroy : ℕ → Call
  wait : ℕ → Call
  post : ℕ → Call

-- Where a process stands: outside the kernel, or behind a `sleep`.
pub data Pc : Type 0 where
  user : Pc
  behind : Resume → Pc

-- The numbers that lie in the table. `sem_init` is not among the calls: it is run once, before.
abbrev pub InTable : Call → Type 0
InTable alloc = Unit
InTable (destroy sn) = sn < nsem_max
InTable (wait sn) = sn < nsem_max
InTable (post sn) = sn < nsem_max

module _ (sc : Sched) where
  unfoldable pub run : ℕ → Call → SemTable sc.Procs → Outcome (SemTable sc.Procs) ℤ
  run p alloc = sem_alloc sc
  run p (destroy sn) = sem_destroy sc (pos sn)
  run p (wait sn) = sem_wait sc p (pos sn)
  run p (post sn) = sem_post sc (pos sn)

  pub record System : Type 0 where
    pub table : SemTable sc.Procs
    pub pc : ℕ → Pc

  abbrev pub update : (ℕ → Pc) → ℕ → Pc → ℕ → Pc
  update f i v j = if i == j then v else f j

  -- A step of one of the `n` processes; it must not be asleep.
  pub data Step (n : ℕ) (s : System) : System → Type 0 where
    returns :
        (p : ℕ) (c : Call) (r : ℤ) {t : SemTable sc.Procs}
        → p < n
        → s.pc p ≡ user
        → sc.on s.table.procs p ≡ none
        → InTable c
        → run p c s.table ≡ done r t
        → Step n s (record { table = t; pc = s.pc })
    sleeps :
        (p : ℕ) (c : Call) (at : Resume) {t : SemTable sc.Procs}
        → p < n
        → s.pc p ≡ user
        → sc.on s.table.procs p ≡ none
        → InTable c
        → run p c s.table ≡ sleeping at t
        → Step n s (record { table = t; pc = update s.pc p (behind at) })
    resumes :
        (p sn : ℕ) (r : ℤ) {t : SemTable sc.Procs}
        → p < n
        → s.pc p ≡ behind (in_sem_wait sn)
        → sc.on s.table.procs p ≡ none
        → sn < nsem_max
        → sem_wait_woken sc sn s.table ≡ done r t
        → Step n s (record { table = t; pc = update s.pc p user })

  -- `Reach n s k t`: `k` steps lead from `s` to `t`.
  pub data Reach (n : ℕ) (s : System) : ℕ → System → Type 0 where
    here : Reach n s 0 s
    next : {k : ℕ} {t u : System} → Reach n s k t → Step n t u → Reach n s (suc k) u
