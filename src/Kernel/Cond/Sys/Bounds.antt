-- ===== src/Kernel/Cond/Sys/Bounds.antt =====
-- The system calls on conditions of Lab6/xv6-semaphores/sysfile.c stay inside the tables, whatever
-- a program passes; and what a waiter holds while it waits.
use system_device_programmin.Base.{
  ℕ, ◌<◌, ◌≡◌, ◌≢◌, ◌⊎◌, inl, inr, refl, true, false, Option, some, leb, Bool-cases, dec_lt,
  get_elem?, get_elem?_total, get_elem?-lt, get_elem?-set_self, set, set-set, ℤ, pos, negsuc, arith,
}
use system_device_programmin.Kernel.Sched.{Sched, mutex_q}
use system_device_programmin.Kernel.Outcome.{
  Outcome, done, sleeping, spinning, fault, in_cond_wait_lock,
}
use system_device_programmin.Kernel.Cond.{
  ncond_max, Mutex, Condition, CondTable, M, cond_set, cond_get, cond_destroy, cond_wait,
  cond_wait_woken, cond_signal, cond_broadcast, cond_lock, cond_unlock,
}
use system_device_programmin.Kernel.Cond.Alloc.{IsIdle}
use system_device_programmin.Kernel.Cond.Sys.{
  local, checked, sys_cond_set, sys_cond_get, sys_cond_destroy, sys_cond_wait, sys_cond_signal,
  sys_cond_broadcast, sys_cond_lock, sys_cond_unlock,
}

-- The calls that take the number of a condition.
pub data Call : Type 0 where
  put get destroy wait signal broadcast lock unlock : Call

module _ (sc : Sched) where
  abbrev State : Type 0
  State = CondTable sc.Procs

  pub run : ℕ → Call → Option ℤ → Option ℤ → ℤ → ℤ → State → Outcome State ℤ
  run p put a b junk junk' = sys_cond_set sc a b junk junk'
  run p get a b junk junk' = sys_cond_get sc a junk
  run p destroy a b junk junk' = sys_cond_destroy sc a junk
  run p wait a b junk junk' = sys_cond_wait sc p a junk
  run p signal a b junk junk' = sys_cond_signal sc a junk
  run p broadcast a b junk junk' = sys_cond_broadcast sc a junk
  run p lock a b junk junk' = sys_cond_lock sc p a junk
  run p unlock a b junk junk' = sys_cond_unlock sc a junk

  -- The number of an entry.
  abbrev pub Inside : ℤ → Type 0
  Inside (pos i) = i < ncond_max
  Inside (negsuc n) = ⊥

  dec_Inside : (z : ℤ) → Dec (Inside z)
  dec_Inside (pos i) = dec_lt i ncond_max
  dec_Inside (negsuc n) = no (λ h. h)

  -- The entry with number `i`, and what is read after a write to it.
  module _ (t : State) (i : ℕ) (c : Condition) (m : Mutex) (at_c : get_elem? t.condition i ≡ some c)
      (at_m : get_elem? t.mutex i ≡ some m) where
    back_c : (u : Condition) → get_elem? (set t.condition i u) i ≡ some u
    back_c u = get_elem?-set_self t.condition i u (get_elem?-lt t.condition i at_c)

    back_m : (u : Mutex) → get_elem? (set t.mutex i u) i ≡ some u
    back_m u = get_elem?-set_self t.mutex i u (get_elem?-lt t.mutex i at_m)

    set-in_bounds : (val : ℤ) → cond_set sc i val t ≢ fault
    unfolding cond_set
    set-in_bounds val = ground (
      arith,
      at_c,
      back_c (record c { lock = true }),
      set-set t.condition i (record c { lock = true }) (record c { lock = true; value = val }),
      back_c (record c { lock = true; value = val }),
    )

    get-in_bounds : cond_get sc i t ≢ fault
    unfolding cond_get
    get-in_bounds = ground (arith, at_c)

    destroy-in_bounds : cond_destroy sc i t ≢ fault
    unfolding cond_destroy
    destroy-in_bounds = ground (arith, at_c)

    unlock_again :
        set (set t.mutex i (record m { lock = true })) i (record m { lock = true; locked = 1 })
        ≡ set t.mutex i (record m { lock = true; locked = 1 })
    unlock_again = set-set t.mutex i _ _

    unlock-in_bounds : cond_unlock sc i t ≢ fault
    unfolding cond_unlock
    unlock-in_bounds = ground (
      arith,
      at_m,
      back_m (record m { lock = true }),
      unlock_again,
      back_m (record m { lock = true; locked = 1 }),
    )

    wait-in_bounds : (p : ℕ) → cond_wait sc p i t ≢ fault
    unfolding cond_wait
    wait-in_bounds p = ground (
      arith,
      at_c,
      at_m,
      back_c (record c { lock = true }),
      back_m (record m { lock = true }),
      unlock_again,
      back_m (record m { lock = true; locked = 1 }),
    )

    lock-in_bounds : (p : ℕ) → cond_lock sc p i t ≢ fault
    unfolding cond_lock
    lock-in_bounds p = ground (
      arith,
      at_m,
      back_m (record m { lock = true }),
      set-set t.mutex i (record m { lock = true }) (record m { lock = true; locked = 0 }),
      back_m (record m { lock = true; locked = 0 }),
    )

    call-in_bounds :
        (p : ℕ) (call : Call) (a b : Option ℤ) (junk junk' : ℤ)
        → local a junk ≡ pos i
        → i < ncond_max
        → run p call a b junk junk' t ≢ fault
    unfolding run
    call-in_bounds p put a b junk junk' e lt =
        unfold sys_cond_set in ground (arith, set-in_bounds (local b junk'))
    call-in_bounds p get a b junk junk' e lt = unfold sys_cond_get in ground (arith, get-in_bounds)
    call-in_bounds p destroy a b junk junk' e lt =
        unfold sys_cond_destroy in ground (arith, destroy-in_bounds)
    call-in_bounds p wait a b junk junk' e lt =
        unfold sys_cond_wait in ground (arith, wait-in_bounds p)
    call-in_bounds p signal a b junk junk' e lt = unfold sys_cond_signal cond_signal in ground arith
    call-in_bounds p broadcast a b junk junk' e lt =
        unfold sys_cond_broadcast cond_broadcast in ground arith
    call-in_bounds p lock a b junk junk' e lt =
        unfold sys_cond_lock in ground (arith, lock-in_bounds p)
    call-in_bounds p unlock a b junk junk' e lt =
        unfold sys_cond_unlock in ground (arith, unlock-in_bounds)

  checked_out :
      (z : ℤ) (k : ℕ → M sc ℤ) (t : State) → ¬ Inside z → checked sc z k t ≡ done (negsuc 0) t
  unfolding checked
  checked_out (negsuc n) k t out = refl
  checked_out (pos i) k t out = elim (Bool-cases (leb ncond_max i)) [
    | inl over ↦ rw over
    | inr below ↦ absurd (out (ground arith))
  ]

  refuses :
      (p : ℕ) (call : Call) (a b : Option ℤ) (junk junk' : ℤ) (t : State)
      → ¬ Inside (local a junk)
      → run p call a b junk junk' t ≡ done (negsuc 0) t
  unfolding run
  refuses p put a b junk junk' t out = unfold sys_cond_set in checked_out (local a junk) _ t out
  refuses p get a b junk junk' t out = unfold sys_cond_get in checked_out (local a junk) _ t out
  refuses p destroy a b junk junk' t out =
      unfold sys_cond_destroy in checked_out (local a junk) _ t out
  refuses p wait a b junk junk' t out = unfold sys_cond_wait in checked_out (local a junk) _ t out
  refuses p signal a b junk junk' t out =
      unfold sys_cond_signal in checked_out (local a junk) _ t out
  refuses p broadcast a b junk junk' t out =
      unfold sys_cond_broadcast in checked_out (local a junk) _ t out
  refuses p lock a b junk junk' t out = unfold sys_cond_lock in checked_out (local a junk) _ t out
  refuses p unlock a b junk junk' t out =
      unfold sys_cond_unlock in checked_out (local a junk) _ t out

  accepts :
      (p : ℕ) (call : Call) (a b : Option ℤ) (junk junk' : ℤ) (t : State)
      → IsIdle t
      → (z : ℤ) → local a junk ≡ z
      → Inside z
      → run p call a b junk junk' t ≢ fault
  accepts p call a b junk junk' t v (negsuc n) e h = absurd h
  accepts p call a b junk junk' t v (pos i) e lt =
      let (c, at_c) = get_elem?_total t.condition i (omega (arith, v.conditions)) in
      let (m, at_m) = get_elem?_total t.mutex i (omega (arith, v.mutexes)) in
      call-in_bounds t i c m at_c at_m p call a b junk junk' e lt

  -- Each of these calls either refuses its argument, returning -1 with nothing changed, which it
  -- does exactly for a number outside the table, or runs without leaving the tables; also where
  -- `argint` has failed and the number is what stood on the stack.
  pub sys_cond-in_bounds :
      (p : ℕ) (call : Call) (a b : Option ℤ) (junk junk' : ℤ) (t : State)
      → IsIdle t
      → (Inside (local a junk) × (run p call a b junk junk' t ≢ fault))
        ⊎ (¬ Inside (local a junk) × (run p call a b junk junk' t ≡ done (negsuc 0) t))
  sys_cond-in_bounds p call a b junk junk' t v = elim (dec_Inside (local a junk)) [
    | yes h ↦ inl (h, accepts p call a b junk junk' t v (local a junk) refl h)
    | no out ↦ inr (out, refuses p call a b junk junk' t out)
  ]

  -- A waiter that is woken while the mutex is held goes to sleep on the mutex with the lock of the
  -- condition still taken: until that lock is given back, `cond_set` and `cond_wait` on the condition
  -- spin in every other process.
  pub cond_wait_woken-keeps_lock :
      (t : State) (i : ℕ) (c : Condition) (m : Mutex) (p : ℕ)
      → get_elem? t.condition i ≡ some c
      → get_elem? t.mutex i ≡ some m
      → c.lock ≡ false
      → m.lock ≡ false
      → m.locked ≡ 0
      → (t' : State) × (cond_wait_woken sc p i t ≡ sleeping (in_cond_wait_lock i) t')
        × ((val : ℤ) → cond_set sc i val t' ≡ spinning)
        × ((q : ℕ) → cond_wait sc q i t' ≡ spinning)
  unfolding cond_wait_woken cond_set cond_wait
  cond_wait_woken-keeps_lock t i c m p at_c at_m open_c open_m held =
      let b_c = back_c t i c m at_c at_m (record c { lock = true }) in
      let b_m = back_m t i c m at_c at_m (record m { lock = true }) in
      let t' = record t {
        condition = set t.condition i (record c { lock = true });
        mutex = set (set t.mutex i (record m { lock = true })) i (record m { lock = false });
        procs = sc.sleep p (mutex_q i) t.procs;
      } in
      (t', ground (arith, b_c, b_m), λ val. ground (arith, b_c), λ q. ground (arith, b_c))
