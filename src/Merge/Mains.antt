-- ===== src/Merge/Mains.antt =====
-- `main` of Lab2/merge.c, Lab2/Lab2.1.c and Lab2/Lab2.2.c, for numbers that are not negative. The
-- programs with threads print the blank line before they sort, which shows only if they do not end.
pub mod Printed
use system_device_programmin.Base.{
  ℕ, zero, suc, ◌+◌, ◌-◌, ◌%◌, List, [], ◌∷◌, ◌++◌, Option, none, some, ℤ, pos,
}
use system_device_programmin.Merge.{load, store, merge_sort, ◌>>=◌}
use system_device_programmin.Merge.Threads.{Merging, run}

pub data Line : Type 0 where
  syntax blank : Line
  number : ℤ → Line

-- The first `for`, with `n` rounds left; `rand` is what the calls of `rand` return, in their order.
pub fill_loop : (ℕ → ℕ) → ℕ → ℕ → List ℤ → Option (List ℤ × List Line)
unfolding load store
fill_loop rand zero i vet = some (vet, [])
fill_loop rand (suc n) i vet = do
  vet' ← store vet i (pos (rand i % 100))
  v ← load vet' i
  (last, lines) ← fill_loop rand n (i + 1) vet'
  some (last, number v ∷ lines)

-- The last `for`, with `n` rounds left.
pub print_loop : ℕ → ℕ → List ℤ → Option (List Line)
unfolding load
print_loop zero i vet = some []
print_loop (suc n) i vet = do
  v ← load vet i
  lines ← print_loop n (i + 1) vet
  some (number v ∷ lines)

-- `heap` is the memory from the cell on that `malloc` returns.
module _ (rand : ℕ → ℕ) (heap : List ℤ) where
  -- From the first `for` on: what `main` returns and has printed.
  pub sorted_by : (List ℤ → Option (List ℤ)) → ℕ → Option (ℕ × List Line)
  unfolding fill_loop print_loop
  sorted_by sort n = do
    (vet, filled) ← fill_loop rand n 0 heap
    vet' ← sort vet
    printed ← print_loop n 0 vet'
    some (0, filled ++ blank ∷ printed)

  module _ (pad : ℕ) (junk : ℤ) where
    -- merge.c, with the number that the argument is, if there is one argument. A call of mergeSort
    -- halves the cells, and the levels are at most `n`.
    unfoldable pub main_merge : Option ℕ → Option (ℕ × List Line)
    unfolding sorted_by merge_sort
    main_merge none = some (1, syntax ∷ [])
    main_merge (some n) = sorted_by (merge_sort pad junk n 0 (n - 1)) n

    -- `merges threshold left right` is the order in which the threads of `threaded_sort` merge.
    module _ (merges : ℕ → ℕ → ℕ → List Merging) where
      -- Lab2.1.c
      pub main_threads : Option ℕ → Option (ℕ × List Line)
      unfolding sorted_by run
      main_threads none = some (1, syntax ∷ [])
      main_threads (some n) = sorted_by (run pad junk (merges 0 0 (n - 1))) n

      -- Lab2.2.c, with the dimension and the threshold.
      pub main_threshold : Option (ℕ × ℕ) → Option (ℕ × List Line)
      unfolding sorted_by run
      main_threshold none = some (1, syntax ∷ [])
      main_threshold (some (n, threshold)) = sorted_by (run pad junk (merges threshold 0 (n - 1))) n
