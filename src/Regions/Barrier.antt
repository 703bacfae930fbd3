-- ===== src/Regions/Barrier.antt =====
-- The barrier of Lab4/Lab4_2.c: what each thread does there is a step, in any order.
pub mod Phases
use system_device_programmin.Base.{
  ℕ, zero, suc, ◌+◌, ◌-◌, ◌≤◌, ◌<◌, ◌≡◌, ◌≢◌, ◌⊎◌, inl, inr, refl, ap, List, [], ◌∷◌, Bool, true,
  false, some, none, Option, if◌then◌else◌, ◌==◌, get_elem?, set, length, length-set, replicate,
  get_elem?-set_ne, ◌∙◌, dec_lt, arith, ℕ_discrete,
}

-- Where a thread is: it sorts its region, or it is in front of `sem_wait(&barrier.sem)`, behind it, or
-- in front of `sem_wait(&barrier.sem2)`.
pub data Place : Type 0 where
  sorting : Place
  first_wait : Place
  between : Place
  second_wait : Place

-- `barrier`, and the threads.
pub record Barrier : Type 0 where
  pub counter : ℕ
  pub sem : ℕ
  pub sem2 : ℕ
  pub threads : List Place

module _ (nthreads : ℕ) where
  -- The section under the lock behind the sort. The thread that counts down to 0 has swapped borders.
  abbrev pub arrive : ℕ → Barrier → Barrier
  arrive i s = record s {
    counter = s.counter - 1;
    sem = (if s.counter - 1 == 0 then s.sem + nthreads else s.sem);
    threads = set s.threads i first_wait;
  }

  -- `sem_wait(&barrier.sem)`
  abbrev pub pass : ℕ → Barrier → Barrier
  pass i s = record s { sem = s.sem - 1; threads = set s.threads i between }

  -- The second section.
  abbrev pub count_up : ℕ → Barrier → Barrier
  count_up i s = record s {
    counter = s.counter + 1;
    sem2 = (if s.counter + 1 == nthreads then s.sem2 + nthreads else s.sem2);
    threads = set s.threads i second_wait;
  }

  -- `sem_wait(&barrier.sem2)`
  abbrev pub go_on : ℕ → Barrier → Barrier
  go_on i s = record s { sem2 = s.sem2 - 1; threads = set s.threads i sorting }

  pub data Step (s : Barrier) : Barrier → Type 0 where
    arriving : (i : ℕ) → get_elem? s.threads i ≡ some sorting → Step s (arrive i s)
    passing : (i : ℕ) → get_elem? s.threads i ≡ some first_wait → 0 < s.sem → Step s (pass i s)
    counting : (i : ℕ) → get_elem? s.threads i ≡ some between → Step s (count_up i s)
    going : (i : ℕ) → get_elem? s.threads i ≡ some second_wait → 0 < s.sem2 → Step s (go_on i s)

  abbrev pub initial : Barrier
  initial = record { counter = nthreads; sem = 0; sem2 = 0; threads = replicate nthreads sorting }

  pub data Reach : Barrier → Type 0 where
    start : Reach initial
    next : {s t : Barrier} → Reach s → Step s t → Reach t
