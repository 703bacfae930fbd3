-- ===== src/Kernel/Cond/Tests.antt =====
-- Conditions of Lab6/xv6-semaphores/file.c on small tables, and the theorems there.
use system_device_programmin.Base.{
  ◌≡◌, refl, false, none, some, if◌then◌else◌, ◌==◌, replicate, set, pos, ℕ, ◌+◌, [], ◌∷◌, count,
}
use system_device_programmin.Kernel.Sched.{mutex_q, alarm_clock, plain}
use system_device_programmin.Kernel.Outcome.{done, in_cond_wait}
use system_device_programmin.Kernel.Cond.{
  ncond_max, CondTable, cond_alloc, cond_lock, cond_wait, cond_signal, cond_unlock, cond_wait_woken,
}
use system_device_programmin.Kernel.Cond.Clients.{
  Pc, outside, inside, System, Reach, here, next, locks, waits, signals, unlocks, comes_back,
}
use system_device_programmin.Kernel.Cond.Clients.Mutex.{free}
use system_device_programmin.Kernel.Cond.Clients.Exclusion.{place, one_holder}
use system_device_programmin.Kernel.Cond.Alloc.{IsIdle}

-- Condition 0 is in use, its mutex is held, and process 3 waits for the mutex.
abbrev busy : CondTable plain.Procs
busy = record {
  mutex_lock = false;
  mutex = replicate ncond_max (record { lock = false; locked = 0; ref = 0 });
  condition_lock = false;
  condition =
      set (replicate ncond_max (record { lock = false; value = pos 0; ref = 0 })) 0
        (record { lock = false; value = pos 0; ref = 1 });
  procs = λ p. if p == 3 then some (mutex_q 0) else none;
}

busy-IsIdle : IsIdle busy
busy-IsIdle = record {
  mutexes = refl;
  conditions = refl;
  mutex_unlocked = refl;
  condition_unlocked = refl;
}

-- The next free entry is 1, and `cond_alloc` returns 2.
skips_one :
    cond_alloc plain busy
    ≡ done (pos 2) (record busy {
      condition = set busy.condition 2 (record { lock = false; value = pos 0; ref = 1 });
      mutex = set busy.mutex 2 (record { lock = false; locked = 1; ref = 0 });
    })
unfolding cond_alloc
skips_one = refl

-- Condition 0 and its mutex, and two processes.
abbrev table_with : ℕ → plain.Procs → CondTable plain.Procs
table_with locked procs = record {
  mutex_lock = false;
  mutex = record { lock = false; locked = locked; ref = 0 } ∷ [];
  condition_lock = false;
  condition = record { lock = false; value = pos 0; ref = 1 } ∷ [];
  procs = procs;
}

abbrev both : ℕ → plain.Procs → Pc → Pc → System plain 0
both locked procs pc pc' = record { table = table_with locked procs; pcs = pc ∷ pc' ∷ [] }

abbrev nobody_asleep : plain.Procs
nobody_asleep p = none

abbrev one_waits : plain.Procs
one_waits = plain.sleep 0 (alarm_clock 0) nobody_asleep

abbrev one_woken : plain.Procs
one_woken = plain.wakeup (alarm_clock 0) one_waits

-- Process 0 locks the mutex and waits on the condition, process 1 locks the mutex, signals and
-- unlocks it, and process 0 comes back from `cond_wait` with the mutex.
passed_on : Reach plain 0 (both 1 nobody_asleep outside outside) 6 (both 0 one_woken inside outside)
unfolding cond_lock cond_wait cond_signal cond_unlock cond_wait_woken
passed_on =
    next
      (next
        (next
          (next
            (next (next here (locks 0 (refl, refl) refl))
              (waits 0 (in_cond_wait 0) (refl, refl) refl))
            (locks 1 (refl, refl) refl))
          (signals refl))
        (unlocks 1 (refl, refl) refl))
      (comes_back 0 (refl, refl) refl)

one_holder_example :
    free plain 0 (table_with 0 one_woken) + count place inside (inside ∷ outside ∷ []) ≡ 1
unfolding count
one_holder_example = one_holder refl refl refl passed_on
