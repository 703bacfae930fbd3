-- ===== src/Kernel/Cond/Sys.antt =====
-- The system calls on conditions, Lab6/xv6-semaphores/sysfile.c, on the arguments that `argint`
-- yields. The result of `argint` is not looked at: where it fails, the local variable keeps what was
-- on the stack, `junk`.
pub mod Bounds
use system_device_programmin.Base.{ℕ, Option, none, some, leb, ℤ, pos, negsuc}
use system_device_programmin.Kernel.Sched.{Sched}
use system_device_programmin.Kernel.Outcome.{Outcome, done, ◌>>=◌, ◌>>◌, ret, branch}
use system_device_programmin.Kernel.Cond.{
  ncond_max, CondTable, M, cond_alloc, cond_set, cond_get, cond_destroy, cond_wait, cond_signal,
  cond_broadcast, cond_lock, cond_unlock,
}

-- `int x; argint(n, &x);`
abbrev pub local : Option ℤ → ℤ → ℤ
local none junk = junk
local (some z) junk = z

module _ (sc : Sched) where
  -- `if (cond < 0 || cond >= NCOND_MAX) return -1;` and what follows.
  checked : ℤ → (ℕ → M sc ℤ) → M sc ℤ
  checked (negsuc n) k = ret (negsuc 0)
  checked (pos i) k = branch (leb ncond_max i) (ret (negsuc 0)) (k i)

  pub sys_cond_alloc : M sc ℤ
  sys_cond_alloc = cond_alloc sc

  pub sys_cond_set : Option ℤ → Option ℤ → ℤ → ℤ → M sc ℤ
  unfolding checked
  sys_cond_set a b junk junk' =
      checked (local a junk) (λ i. do cond_set sc i (local b junk'); ret (pos 0))

  pub sys_cond_get : Option ℤ → ℤ → M sc ℤ
  unfolding checked
  sys_cond_get a junk = checked (local a junk) (λ i. cond_get sc i)

  pub sys_cond_destroy : Option ℤ → ℤ → M sc ℤ
  unfolding checked
  sys_cond_destroy a junk = checked (local a junk) (λ i. do cond_destroy sc i; ret (pos 0))

  -- For process `p`. Where it sleeps, it returns 0 when the rest of `cond_wait` is done.
  pub sys_cond_wait : ℕ → Option ℤ → ℤ → M sc ℤ
  unfolding checked
  sys_cond_wait p a junk = checked (local a junk) (λ i. do cond_wait sc p i; ret (pos 0))

  pub sys_cond_signal : Option ℤ → ℤ → M sc ℤ
  unfolding checked
  sys_cond_signal a junk = checked (local a junk) (λ i. do cond_signal sc i; ret (pos 0))

  pub sys_cond_broadcast : Option ℤ → ℤ → M sc ℤ
  unfolding checked
  sys_cond_broadcast a junk = checked (local a junk) (λ i. do cond_broadcast sc i; ret (pos 0))

  pub sys_cond_lock : ℕ → Option ℤ → ℤ → M sc ℤ
  unfolding checked
  sys_cond_lock p a junk = checked (local a junk) (λ i. do cond_lock sc p i; ret (pos 0))

  pub sys_cond_unlock : Option ℤ → ℤ → M sc ℤ
  unfolding checked
  sys_cond_unlock a junk = checked (local a junk) (λ i. do cond_unlock sc i; ret (pos 0))
