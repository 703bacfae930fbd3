-- ===== src/Kernel/Semaphore/Alloc.antt =====
-- `sem_alloc` of Lab6/xv6-semaphores/file.c takes the first free entry.
use system_device_programmin.Base.{
  ℕ, zero, suc, ◌+◌, ◌<◌, ◌≡◌, ◌≢◌, inl, inr, List, true, false, some, ◌==◌, Bool-cases, length,
  get_elem?, get_elem?_total, subst, set, ℤ, pos, negsuc, arith, ℕ_discrete,
}
use system_device_programmin.Kernel.Sched.{Sched}
use system_device_programmin.Kernel.Outcome.{Outcome, done}
use system_device_programmin.Kernel.Semaphore.{nsem_max, Semaphore, SemTable, alloc_loop, sem_alloc}

-- The entries below `k` are in use.
abbrev pub InUse : List Semaphore → ℕ → Type 0
InUse l k = (j : ℕ) (u : Semaphore) → j < k → get_elem? l j ≡ some u → u.ref ≢ 0

InUse-next :
    (l : List Semaphore) (k : ℕ) (s : Semaphore)
    → InUse l k
    → get_elem? l k ≡ some s
    → s.ref ≢ 0
    → InUse l (k + 1)
InUse-next l k s used at_k busy j u lt at_j = elim (ℕ_discrete j k) [
  | yes e ↦ λ free. busy (ground arith)
  | no ne ↦ used j u (omega arith) at_j
]

module _ (sc : Sched) where
  -- The entry `k` is the first that is free, and it is taken; or none is free.
  pub data Allocated (t : SemTable sc.Procs) (o : Outcome (SemTable sc.Procs) ℤ) : Type 0 where
    taken :
        (k : ℕ) (s : Semaphore)
        → get_elem? t.semaphore k ≡ some s
        → s.ref ≡ 0
        → InUse t.semaphore k
        → o ≡ done (pos k) (record t { semaphore = set t.semaphore k (record s { ref = 1 }) })
        → Allocated t o
    full : InUse t.semaphore nsem_max → o ≡ done (negsuc 0) t → Allocated t o

  alloc_loop-Allocated :
      (n k : ℕ) (t : SemTable sc.Procs)
      → k + n ≡ nsem_max
      → length t.semaphore ≡ nsem_max
      → t.lock ≡ false
      → InUse t.semaphore k
      → Allocated t (alloc_loop sc n k (record t { lock = true }))
  unfolding alloc_loop
  alloc_loop-Allocated zero k t e size open_lock used =
      full (λ j u lt. used j u (omega arith)) (ground arith)
  alloc_loop-Allocated (suc n) k t e size open_lock used =
      let (s, at_k) = get_elem?_total t.semaphore k (omega arith) in
      elim (Bool-cases (s.ref == 0)) [
        | inl free ↦ taken k s at_k (ground arith) used (ground arith)
        | inr busy ↦ subst (Allocated t) (ground arith) (
            alloc_loop-Allocated n (k + 1) t (omega arith) size open_lock
              (InUse-next t.semaphore k s used at_k (ground arith)))
      ]

  -- `sem_alloc` returns the number of the first free entry, which it marks as used, or -1 if the
  -- table is full; it changes nothing else and gives the lock of the table back.
  pub sem_alloc-Allocated :
      (t : SemTable sc.Procs)
      → length t.semaphore ≡ nsem_max
      → t.lock ≡ false
      → Allocated t (sem_alloc sc t)
  unfolding sem_alloc
  sem_alloc-Allocated t size open_lock =
      subst (Allocated t) (ground arith)
        (alloc_loop-Allocated nsem_max 0 t (omega arith) size open_lock (λ j u lt. elim lt [ ]))
