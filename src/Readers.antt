-- ===== src/Readers.antt =====
-- homework/reader_writer.c: readers and writers, with a counter of readers and two locks.
pub mod Invariant
pub mod Exclusion
pub mod Progress
mod Tests
use system_device_programmin.Base.{
  ℕ, ◌+◌, ◌-◌, ◌≡◌, ◌++◌, List, Bool, true, false, some, if◌then◌else◌, ◌==◌, get_elem?, set,
  replicate,
}

-- Where a thread is, between the statements that another thread may see. `reader_counts` and
-- `reader_leaves` hold the lock of `count`; `first_waits` also holds it, in front of the lock of
-- `library`.
pub data Place : Type 0 where
  reader_asks : Place
  reader_counts : Place
  first_waits : Place
  reader_reads : Place
  reader_leaves : Place
  reader_done : Place
  writer_asks : Place
  writer_writes : Place
  writer_leaves : Place
  writer_done : Place

-- `count` and `library`, each a number with its lock, and the threads.
pub record Library : Type 0 where
  pub count_lock : Bool
  pub count : ℕ
  pub library_lock : Bool
  pub value : ℕ
  pub threads : List Place

-- `count->counter++`, and the first reader goes for the lock of `library`; another one gives that of
-- `count` back.
abbrev pub enter : ℕ → Library → Library
enter i s = record s {
  count = s.count + 1;
  count_lock = (if s.count + 1 == 1 then s.count_lock else false);
  threads = set s.threads i (if s.count + 1 == 1 then first_waits else reader_reads);
}

-- `count->counter--`, and the last reader gives the lock of `library` back.
abbrev pub leave : ℕ → Library → Library
leave i s = record s {
  count = s.count - 1;
  count_lock = false;
  library_lock = (if s.count - 1 == 0 then false else s.library_lock);
  threads = set s.threads i reader_done;
}

pub data Step (s : Library) : Library → Type 0 where
  asking :
      (i : ℕ)
      → get_elem? s.threads i ≡ some reader_asks
      → s.count_lock ≡ false
      → Step s (record s { count_lock = true; threads = set s.threads i reader_counts })
  entering : (i : ℕ) → get_elem? s.threads i ≡ some reader_counts → Step s (enter i s)
  opening :
      (i : ℕ)
      → get_elem? s.threads i ≡ some first_waits
      → s.library_lock ≡ false
      → Step s (record s {
        count_lock = false;
        library_lock = true;
        threads = set s.threads i reader_reads;
      })
  ending :
      (i : ℕ)
      → get_elem? s.threads i ≡ some reader_reads
      → s.count_lock ≡ false
      → Step s (record s { count_lock = true; threads = set s.threads i reader_leaves })
  leaving : (i : ℕ) → get_elem? s.threads i ≡ some reader_leaves → Step s (leave i s)
  claiming :
      (i : ℕ)
      → get_elem? s.threads i ≡ some writer_asks
      → s.library_lock ≡ false
      → Step s (record s { library_lock = true; threads = set s.threads i writer_writes })
  writing :
      (i : ℕ)
      → get_elem? s.threads i ≡ some writer_writes
      → Step s (record s { value = s.value + 1; threads = set s.threads i writer_leaves })
  handing :
      (i : ℕ)
      → get_elem? s.threads i ≡ some writer_leaves
      → Step s (record s { library_lock = false; threads = set s.threads i writer_done })

-- Behind `counter_init`, with all threads at their first request.
abbrev pub initial : ℕ → ℕ → Library
initial readers writers = record {
  count_lock = false;
  count = 0;
  library_lock = false;
  value = 0;
  threads = replicate readers reader_asks ++ replicate writers writer_asks;
}

pub data Reach (readers writers : ℕ) : Library → Type 0 where
  start : Reach readers writers (initial readers writers)
  next : {s t : Library} → Reach readers writers s → Step s t → Reach readers writers t
