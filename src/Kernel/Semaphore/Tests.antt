-- ===== src/Kernel/Semaphore/Tests.antt =====
-- The semaphores of Lab6/xv6-semaphores/file.c on small tables, and the theorems at concrete tables.
use system_device_programmin.Base.{
  ℕ, ◌≡◌, ◌≢◌, refl, false, Option, none, some, if◌then◌else◌, get_elem?-replicate_inv, subst,
  ==_false, replicate, set, pos, negsuc, arith, int, ◌==◌,
}
use system_device_programmin.Kernel.Sched.{Chan, sem_q, plain, woken, sleepers}
use system_device_programmin.Kernel.Outcome.{done, sleeping, in_sem_wait}
use system_device_programmin.Kernel.Semaphore.{
  nsem_max, Semaphore, SemTable, sem_alloc, sem_wait, sem_post,
}
use system_device_programmin.Kernel.Semaphore.System.{
  post, user, run, System, Step, returns, here, next,
}
use system_device_programmin.Kernel.Semaphore.Invariant.{IsSound, IsValid, store-IsValid}
use system_device_programmin.Kernel.Semaphore.Safety.{no_lost_wakeup}

abbrev free_entry : Semaphore
free_entry = record { lock = false; count = pos 0; ref = 0 }

-- The table of a kernel that has just started: no process sleeps.
abbrev started : SemTable plain.Procs
started = record { lock = false; semaphore = replicate nsem_max free_entry; procs = λ _. none }

alloc_first :
    sem_alloc plain started
    ≡ done
        (pos 0)
        (record started { semaphore = set started.semaphore 0 (record free_entry { ref = 1 }) })
unfolding sem_alloc
alloc_first = refl

wait_sleeps :
    sem_wait plain 4 (pos 2) started
    ≡ sleeping (in_sem_wait 2) (record started {
      semaphore = set started.semaphore 2 (record free_entry { count = negsuc 0 });
      procs = λ j. if 4 == j then some (sem_q 2) else none;
    })
unfolding sem_wait int
wait_sleeps = refl

started-IsValid : IsValid plain 3 0 started
unfolding sleepers
started-IsValid = record {
  size = refl;
  table_unlocked = refl;
  entries = λ j s e.
      subst (IsSound plain 3 0 started.procs j) (get_elem?-replicate_inv nsem_max j free_entry e)
        (record {
          unlocked = refl;
          above = omega arith;
          below = omega arith;
          covered = omega arith;
        });
}

-- Two processes sleep on semaphore 2, and then one post is made.
abbrev asleep : ℕ → Option Chan
asleep p = if p == 0 then some (sem_q 2) else if p == 1 then some (sem_q 2) else none

abbrev two_wait : SemTable plain.Procs
two_wait = record started {
  semaphore = set started.semaphore 2 (record free_entry { count = negsuc 1 });
  procs = asleep;
}

-- Only the semaphore with two sleepers differs from those of `started`.
two_wait-IsValid : IsValid plain 3 2 two_wait
unfolding sleepers
two_wait-IsValid =
    store-IsValid plain 3 2 (record free_entry { count = negsuc 1 }) asleep started-IsValid
      (omega arith)
      (record { unlocked = refl; above = omega arith; below = omega arith; covered = omega arith })
      (λ j ne. ground (arith, ==_false 2 j ne))

-- One post, and both sleepers run again.
two_pass_one_post :
    sem_post plain (pos 2) two_wait
    ≡ done (pos 0) (record two_wait {
      semaphore = set started.semaphore 2 (record free_entry { count = negsuc 0 });
      procs = λ p. woken (sem_q 2) (asleep p);
    })
unfolding sem_post int
two_pass_one_post = refl

abbrev at_start : System plain
at_start = record { table = started; pc = λ _. user }

abbrev after_one : System plain
after_one = record {
  table = record started {
    semaphore = set started.semaphore 2 (record free_entry { count = pos 1 });
    procs = λ j. woken (sem_q 2) none;
  };
  pc = λ _. user;
}

posted_once : Step plain 3 at_start after_one
unfolding run sem_post int
posted_once = returns 1 (post 2) (pos 0) (omega arith) refl refl (omega arith) refl

no_lost_wakeup_example : none ≢ some (sem_q 2)
no_lost_wakeup_example =
    no_lost_wakeup plain 3 {s = at_start} {t = after_one} started-IsValid (next here posted_once)
      (omega arith) 2 (record free_entry { count = pos 1 }) refl (omega arith) 1 (omega arith)
