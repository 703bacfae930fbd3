-- ===== src/Readers/Invariant.antt =====
-- What the locks and the counter of homework/reader_writer.c say of its threads.
use system_device_programmin.Base.{
  ℕ, zero, suc, ◌+◌, ◌<◌, ◌≤◌, ◌≡◌, ◌≢◌, inl, inr, refl, List, ◌++◌, Bool, true, false, some,
  if◌then◌else◌, ◌==◌, get_elem?, set, replicate, count, same_place, count-set, count_pos, arith,
  Bool-cases,
}
use system_device_programmin.Readers.{
  Place, reader_asks, reader_counts, first_waits, reader_reads, reader_leaves, reader_done,
  writer_asks, writer_writes, writer_leaves, writer_done, Library, enter, leave, Step, asking,
  entering, opening, ending, leaving, claiming, writing, handing, initial, Reach, start, next,
}

abbrev pub code : Place → ℕ
code reader_asks = 0
code reader_counts = 1
code first_waits = 2
code reader_reads = 3
code reader_leaves = 4
code reader_done = 5
code writer_asks = 6
code writer_writes = 7
code writer_leaves = 8
code writer_done = 9

abbrev pub as_number : Bool → ℕ
as_number true = 1
as_number false = 0

-- What the locks and the counter say of the threads.
pub record Fits (s : Library) : Type 0 where
  pub holds_count :
      as_number s.count_lock
      ≡ count code reader_counts s.threads
        + count code first_waits s.threads
        + count code reader_leaves s.threads
  pub readers :
      s.count
      ≡ count code first_waits s.threads
        + count code reader_reads s.threads
        + count code reader_leaves s.threads
  pub alone : 0 < count code first_waits s.threads → s.count ≡ 1
  pub holds_library :
      as_number s.library_lock
      ≡ count code writer_writes s.threads
        + count code writer_leaves s.threads
        + (if count code reader_reads s.threads + count code reader_leaves s.threads == 0
            then 0
            else 1)
  pub updates : s.value ≡ count code writer_leaves s.threads + count code writer_done s.threads

module _ (l : List Place) (i : ℕ) {old : Place} (new : Place) (e : get_elem? l i ≡ some old) where
  abbrev Moved : Place → Type 0
  Moved p =
      count code p (set l i new) + same_place code p old ≡ count code p l + same_place code p new

  -- A thread that moves is counted elsewhere.
  moved :
      Moved reader_counts
      × Moved first_waits
      × Moved reader_reads
      × Moved reader_leaves
      × Moved writer_writes
      × Moved writer_leaves
      × Moved writer_done
  moved = (
    count-set code reader_counts new l i e,
    count-set code first_waits new l i e,
    count-set code reader_reads new l i e,
    count-set code reader_leaves new l i e,
    count-set code writer_writes new l i e,
    count-set code writer_leaves new l i e,
    count-set code writer_done new l i e,
  )

pub as_number_le : (b : Bool) → as_number b ≤ 1
as_number_le true = omega arith
as_number_le false = omega arith

module _ {s : Library} (i : ℕ) (f : Fits s) where
  asking-Fits :
      get_elem? s.threads i ≡ some reader_asks
      → s.count_lock ≡ false
      → Fits (record s { count_lock = true; threads = set s.threads i reader_counts })
  asking-Fits e free =
      let (a, b, c, d, g, h, k) = moved s.threads i reader_counts e in
      record {
        holds_count = ground (arith, f.holds_count);
        readers = ground (arith, f.readers);
        alone = λ some_there. f.alone (omega arith);
        holds_library = ground (arith, f.holds_library);
        updates = ground (arith, f.updates);
      }

  entering-Fits : get_elem? s.threads i ≡ some reader_counts → Fits (enter i s)
  entering-Fits e =
      let at = count_pos code reader_counts s.threads i e in
      let le = as_number_le s.count_lock in
      elim (Bool-cases (s.count + 1 == 1)) [
        | inl first ↦
            let (a, b, c, d, g, h, k) = moved s.threads i first_waits e in
            let zero_count : s.count ≡ 0 = ground arith in
            rw first record {
              holds_count = omega (arith, f.holds_count);
              readers = omega (arith, f.readers);
              alone = λ some_there. omega arith;
              holds_library = ground (arith, f.holds_library);
              updates = omega (arith, f.updates);
            }
        | inr more ↦
            let (a, b, c, d, g, h, k) = moved s.threads i reader_reads e in
            let some_count : s.count ≢ 0 = ground arith in
            rw more record {
              holds_count = omega (arith, f.holds_count);
              readers = omega (arith, f.readers, f.holds_count);
              alone = λ some_there. absurd (omega (arith, f.holds_count));
              holds_library = ground (arith, f.holds_library, f.holds_count, f.readers);
              updates = omega (arith, f.updates);
            }
      ]

  opening-Fits :
      get_elem? s.threads i ≡ some first_waits
      → s.library_lock ≡ false
      → Fits (record s {
        count_lock = false;
        library_lock = true;
        threads = set s.threads i reader_reads;
      })
  opening-Fits e free =
      let at = count_pos code first_waits s.threads i e in
      let le = as_number_le s.count_lock in
      let (a, b, c, d, g, h, k) = moved s.threads i reader_reads e in
      let one = f.alone at in
      record {
        holds_count = omega (arith, f.holds_count);
        readers = omega (arith, f.readers);
        alone = λ some_there. one;
        holds_library = ground (arith, f.holds_library, f.readers);
        updates = omega (arith, f.updates);
      }

  ending-Fits :
      get_elem? s.threads i ≡ some reader_reads
      → s.count_lock ≡ false
      → Fits (record s { count_lock = true; threads = set s.threads i reader_leaves })
  ending-Fits e free =
      let (a, b, c, d, g, h, k) = moved s.threads i reader_leaves e in
      record {
        holds_count = ground (arith, f.holds_count);
        readers = omega (arith, f.readers);
        alone = λ some_there. f.alone (omega arith);
        holds_library = ground (arith, f.holds_library);
        updates = omega (arith, f.updates);
      }

  leaving-Fits : get_elem? s.threads i ≡ some reader_leaves → Fits (leave i s)
  leaving-Fits e =
      let at = count_pos code reader_leaves s.threads i e in
      let le = as_number_le s.count_lock in
      let le' = as_number_le s.library_lock in
      let (a, b, c, d, g, h, k) = moved s.threads i reader_done e in
      record {
        holds_count = omega (arith, f.holds_count);
        readers = omega (arith, f.readers);
        alone = λ some_there. absurd (omega (arith, f.holds_count));
        holds_library = ground (arith, f.holds_library, f.readers, f.holds_count);
        updates = omega (arith, f.updates);
      }

  claiming-Fits :
      get_elem? s.threads i ≡ some writer_asks
      → s.library_lock ≡ false
      → Fits (record s { library_lock = true; threads = set s.threads i writer_writes })
  claiming-Fits e free =
      let (a, b, c, d, g, h, k) = moved s.threads i writer_writes e in
      record {
        holds_count = omega (arith, f.holds_count);
        readers = omega (arith, f.readers);
        alone = λ some_there. f.alone (omega arith);
        holds_library = ground (arith, f.holds_library);
        updates = omega (arith, f.updates);
      }

  writing-Fits :
      get_elem? s.threads i ≡ some writer_writes
      → Fits (record s { value = s.value + 1; threads = set s.threads i writer_leaves })
  writing-Fits e =
      let (a, b, c, d, g, h, k) = moved s.threads i writer_leaves e in
      record {
        holds_count = omega (arith, f.holds_count);
        readers = omega (arith, f.readers);
        alone = λ some_there. f.alone (omega arith);
        holds_library = ground (arith, f.holds_library);
        updates = omega (arith, f.updates);
      }

  handing-Fits :
      get_elem? s.threads i ≡ some writer_leaves
      → Fits (record s { library_lock = false; threads = set s.threads i writer_done })
  handing-Fits e =
      let at = count_pos code writer_leaves s.threads i e in
      let le = as_number_le s.library_lock in
      let (a, b, c, d, g, h, k) = moved s.threads i writer_done e in
      record {
        holds_count = omega (arith, f.holds_count);
        readers = omega (arith, f.readers);
        alone = λ some_there. f.alone (omega arith);
        holds_library = ground (arith, f.holds_library);
        updates = omega (arith, f.updates);
      }

Step-Fits : {s t : Library} → Step s t → Fits s → Fits t
Step-Fits (asking i e free) f = asking-Fits i f e free
Step-Fits (entering i e) f = entering-Fits i f e
Step-Fits (opening i e free) f = opening-Fits i f e free
Step-Fits (ending i e free) f = ending-Fits i f e free
Step-Fits (leaving i e) f = leaving-Fits i f e
Step-Fits (claiming i e free) f = claiming-Fits i f e free
Step-Fits (writing i e) f = writing-Fits i f e
Step-Fits (handing i e) f = handing-Fits i f e

-- No thread is anywhere else at the start.
count-initial :
    (p : Place) (n m : ℕ)
    → code p ≢ 0
    → code p ≢ 6
    → count code p (replicate n reader_asks ++ replicate m writer_asks) ≡ 0
unfolding count
count-initial p zero zero ne ne' = refl
count-initial p zero (suc m) ne ne' = ground (arith, count-initial p zero m ne ne')
count-initial p (suc n) m ne ne' = ground (arith, count-initial p n m ne ne')

initial-Fits : (n m : ℕ) → Fits (initial n m)
initial-Fits n m =
    let a = count-initial reader_counts n m (omega arith) (omega arith) in
    let b = count-initial first_waits n m (omega arith) (omega arith) in
    let c = count-initial reader_reads n m (omega arith) (omega arith) in
    let d = count-initial reader_leaves n m (omega arith) (omega arith) in
    let g = count-initial writer_writes n m (omega arith) (omega arith) in
    let h = count-initial writer_leaves n m (omega arith) (omega arith) in
    let k = count-initial writer_done n m (omega arith) (omega arith) in
    record {
      holds_count = omega arith;
      readers = omega arith;
      alone = λ some_there. absurd (omega arith);
      holds_library = ground arith;
      updates = omega arith;
    }

pub Reach-Fits : {n m : ℕ} {s : Library} → Reach n m s → Fits s
Reach-Fits {n} {m} start = initial-Fits n m
Reach-Fits (next r step) = Step-Fits step (Reach-Fits r)
