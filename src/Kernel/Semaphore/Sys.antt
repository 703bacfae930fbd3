-- ===== src/Kernel/Semaphore/Sys.antt =====
-- The system calls on semaphores, Lab6/xv6-semaphores/sysfile.c, on the arguments that `argint`
-- yields. Unlike the calls on conditions they do not look at the number.
use system_device_programmin.Base.{ℕ, ◌≤◌, ◌≡◌, refl, Option, none, some, ℤ, pos, negsuc, arith}
use system_device_programmin.Kernel.Sched.{Sched}
use system_device_programmin.Kernel.Outcome.{fault, ◌>>◌, ret}
use system_device_programmin.Kernel.Semaphore.{
  nsem_max, SemTable, M, sem_alloc, sem_init, sem_destroy, sem_wait, sem_post,
}

module _ (sc : Sched) where
  pub sys_sem_alloc : M sc ℤ
  sys_sem_alloc = sem_alloc sc

  pub sys_sem_init : Option ℤ → Option ℤ → M sc ℤ
  sys_sem_init none b = ret (negsuc 0)
  sys_sem_init (some sn) none = ret (negsuc 0)
  sys_sem_init (some sn) (some n) = do sem_init sc sn n; ret (pos 0)

  pub sys_sem_destroy : Option ℤ → M sc ℤ
  sys_sem_destroy none = ret (negsuc 0)
  sys_sem_destroy (some sn) = do sem_destroy sc sn; ret (pos 0)

  -- For process `p`. Where it sleeps, it returns 0 when the rest of `sem_wait` is done.
  pub sys_sem_wait : ℕ → Option ℤ → M sc ℤ
  sys_sem_wait p none = ret (negsuc 0)
  sys_sem_wait p (some sn) = do sem_wait sc p sn; ret (pos 0)

  pub sys_sem_post : Option ℤ → M sc ℤ
  sys_sem_post none = ret (negsuc 0)
  sys_sem_post (some sn) = do sem_post sc sn; ret (pos 0)

  -- The number of no entry.
  abbrev pub Outside : ℤ → Type 0
  Outside (pos i) = nsem_max ≤ i
  Outside (negsuc n) = Unit

  -- For a number outside the table all four calls leave the bounds of `semaphore_table`.
  pub sys_sem-fault :
      (p : ℕ) (sn n : ℤ) (t : SemTable sc.Procs)
      → Outside sn
      → (sys_sem_init (some sn) (some n) t ≡ fault)
        × (sys_sem_destroy (some sn) t ≡ fault)
        × (sys_sem_wait p (some sn) t ≡ fault)
        × (sys_sem_post (some sn) t ≡ fault)
  unfolding sys_sem_init sys_sem_destroy sys_sem_wait sys_sem_post sem_init sem_destroy sem_wait
      sem_post
  sys_sem-fault p (negsuc k) n t h = (refl, refl, refl, refl)
  sys_sem-fault p (pos i) n t h = (ground arith, ground arith, ground arith, ground arith)
