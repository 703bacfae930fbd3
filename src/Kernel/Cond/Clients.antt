-- ===== src/Kernel/Cond/Clients.antt =====
-- Processes that use one condition of Lab6/xv6-semaphores/file.c and its mutex, interleaved in any
-- order: they unlock the mutex and wait on the condition only while they hold the mutex, and do not
-- release the condition. They may allocate and release others. An operation is one step up to its
-- return or its `sleep`.
pub mod Mutex
pub mod Use
pub mod Exclusion
use system_device_programmin.Base.{
  ℕ, suc, ◌<◌, ◌≡◌, ◌≢◌, ◌⊎◌, List, Option, none, some, get_elem?, set, replicate, ℤ,
}
use system_device_programmin.Kernel.Sched.{Sched}
use system_device_programmin.Kernel.Outcome.{
  done, sleeping, Resume, in_cond_lock, in_cond_wait, in_cond_wait_lock,
}
use system_device_programmin.Kernel.Cond.{
  CondTable, cond_alloc, cond_destroy, cond_lock, cond_unlock, cond_set, cond_get, cond_wait,
  cond_wait_woken, cond_wait_lock_woken, cond_signal, cond_broadcast,
}

-- Where a process stands: without the mutex, with it, or behind a `sleep`.
pub data Pc : Type 0 where
  outside inside : Pc
  behind : Resume → Pc

module _ (sc : Sched) (i : ℕ) where
  pub record System : Type 0 where
    pub table : CondTable sc.Procs
    pub pcs : List Pc

  abbrev pub At : ℕ → Pc → System → Type 0
  At p pc s = (get_elem? s.pcs p ≡ some pc) × (sc.on s.table.procs p ≡ none)

  abbrev pub to : ℕ → Pc → CondTable sc.Procs → System → System
  to p pc t s = record { table = t; pcs = set s.pcs p pc }

  pub data Step (s : System) : System → Type 0 where
    locks :
        (p : ℕ) {t : CondTable sc.Procs}
        → At p outside s
        → cond_lock sc p i s.table ≡ done tt t
        → Step s (to p inside t s)
    waits_for_lock :
        (p : ℕ) (r : Resume) {t : CondTable sc.Procs}
        → At p outside s
        → cond_lock sc p i s.table ≡ sleeping r t
        → Step s (to p (behind r) t s)
    locks_woken :
        (p : ℕ) {t : CondTable sc.Procs}
        → At p (behind (in_cond_lock i)) s
        → cond_lock sc p i s.table ≡ done tt t
        → Step s (to p inside t s)
    waits_again :
        (p : ℕ) (r : Resume) {t : CondTable sc.Procs}
        → At p (behind (in_cond_lock i)) s
        → cond_lock sc p i s.table ≡ sleeping r t
        → Step s (to p (behind r) t s)
    unlocks :
        (p : ℕ) {t : CondTable sc.Procs}
        → At p inside s
        → cond_unlock sc i s.table ≡ done tt t
        → Step s (to p outside t s)
    waits :
        (p : ℕ) (r : Resume) {t : CondTable sc.Procs}
        → At p inside s
        → cond_wait sc p i s.table ≡ sleeping r t
        → Step s (to p (behind r) t s)
    comes_back :
        (p : ℕ) {t : CondTable sc.Procs}
        → At p (behind (in_cond_wait i)) s
        → cond_wait_woken sc p i s.table ≡ done tt t
        → Step s (to p inside t s)
    waits_to_come_back :
        (p : ℕ) (r : Resume) {t : CondTable sc.Procs}
        → At p (behind (in_cond_wait i)) s
        → cond_wait_woken sc p i s.table ≡ sleeping r t
        → Step s (to p (behind r) t s)
    comes_back_late :
        (p : ℕ) {t : CondTable sc.Procs}
        → At p (behind (in_cond_wait_lock i)) s
        → cond_wait_lock_woken sc p i s.table ≡ done tt t
        → Step s (to p inside t s)
    waits_more :
        (p : ℕ) (r : Resume) {t : CondTable sc.Procs}
        → At p (behind (in_cond_wait_lock i)) s
        → cond_wait_lock_woken sc p i s.table ≡ sleeping r t
        → Step s (to p (behind r) t s)
    sets :
        (val : ℤ) {t : CondTable sc.Procs}
        → cond_set sc i val s.table ≡ done tt t
        → Step s (record s { table = t })
    allocs :
        (r : ℤ) {t : CondTable sc.Procs}
        → cond_alloc sc s.table ≡ done r t
        → Step s (record s { table = t })
    destroys :
        (j : ℕ) {t : CondTable sc.Procs}
        → j ≢ i
        → cond_destroy sc j s.table ≡ done tt t
        → Step s (record s { table = t })
    signals :
        {t : CondTable sc.Procs}
        → cond_signal sc i s.table ≡ done tt t
        → Step s (record s { table = t })
    broadcasts :
        {t : CondTable sc.Procs}
        → cond_broadcast sc i s.table ≡ done tt t
        → Step s (record s { table = t })

  -- `Reach s k t`: `k` steps lead from `s` to `t`.
  pub data Reach (s : System) : ℕ → System → Type 0 where
    here : Reach s 0 s
    next : {k : ℕ} {t u : System} → Reach s k t → Step t u → Reach s (suc k) u
