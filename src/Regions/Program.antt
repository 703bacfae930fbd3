-- ===== src/Regions/Program.antt =====
-- The threads of Lab4/Lab4_2.c with the file that they sort, interleaved in any order. Between its
-- sections under the lock a thread reads and writes its own region only, so its sort is taken
-- together with the section behind it.
pub mod Parts
pub mod Kept
pub mod Prints
mod Tests
use system_device_programmin.Base.{
  ℕ, suc, ◌-◌, if◌then◌else◌, ◌<◌, ◌≡◌, ◌≢◌, Bool, true, false, some, get_elem?,
}
use system_device_programmin.Regions.{Numbers, region_left, region_right, sort_region, borders}
use system_device_programmin.Regions.Barrier.{
  Barrier, sorting, first_wait, between, second_wait, arrive, pass, count_up, go_on, initial,
}

pub record Program : Type 0 where
  pub barrier : Barrier
  pub numbers : Numbers

module _ (nthreads n : ℕ) where
  -- The thread `i` sorts its region.
  abbrev pub SortsTo : ℕ → Numbers → Numbers → Type 0
  SortsTo i v w = sort_region (region_left nthreads n i) (region_right nthreads n i) v ≡ some w

  -- The last thread at the barrier goes through the borders; whether one was swapped.
  abbrev pub CrossesTo : Numbers → Numbers → Bool → Type 0
  CrossesTo v w swapped = borders nthreads n (nthreads - 1) 1 false v ≡ some (w, swapped)

  -- `Step s c t`: a step from `s` to `t`; `c` says whether borders are swapped in it.
  pub data Step (s : Program) : Bool → Program → Type 0 where
    sorts :
        (i : ℕ) {v : Numbers}
        → get_elem? s.barrier.threads i ≡ some sorting
        → s.barrier.counter ≢ 1
        → SortsTo i s.numbers v
        → Step s false (record { barrier = arrive nthreads i s.barrier; numbers = v })
    swaps :
        (i : ℕ) {v w : Numbers}
        → get_elem? s.barrier.threads i ≡ some sorting
        → s.barrier.counter ≡ 1
        → SortsTo i s.numbers v
        → CrossesTo v w true
        → Step s true (record { barrier = arrive nthreads i s.barrier; numbers = w })
    passes :
        (i : ℕ)
        → get_elem? s.barrier.threads i ≡ some first_wait
        → 0 < s.barrier.sem
        → Step s false (record s { barrier = pass nthreads i s.barrier })
    counts :
        (i : ℕ)
        → get_elem? s.barrier.threads i ≡ some between
        → Step s false (record s { barrier = count_up nthreads i s.barrier })
    goes :
        (i : ℕ)
        → get_elem? s.barrier.threads i ≡ some second_wait
        → 0 < s.barrier.sem2
        → Step s false (record s { barrier = go_on nthreads i s.barrier })

  -- The last thread at the barrier finds the borders in order, prints the numbers and ends the
  -- program.
  pub data Ends (s : Program) : Numbers → Type 0 where
    ends :
        (i : ℕ) {v w : Numbers}
        → get_elem? s.barrier.threads i ≡ some sorting
        → s.barrier.counter ≡ 1
        → SortsTo i s.numbers v
        → CrossesTo v w false
        → Ends s w

  -- `Reach v k r s`: `k` steps lead from the file `v` to `s`, and in `r` of them borders are swapped.
  pub data Reach (v : Numbers) : ℕ → ℕ → Program → Type 0 where
    start : Reach v 0 0 (record { barrier = initial nthreads; numbers = v })
    next :
        {k r : ℕ} {c : Bool} {s t : Program}
        → Reach v k r s
        → Step s c t
        → Reach v (suc k) (if c then suc r else r) t
