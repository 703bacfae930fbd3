-- ===== src/Merge/Tests.antt =====
-- `mergeSort` of Lab2/merge.c on small arrays.
use system_device_programmin.Base.{
  ℕ, ◌-◌, ◌*◌, replicate, ◌≡◌, refl, List, [], ◌∷◌, ◌++◌, some, ℤ, pos, negsuc, arith,
}
use mathlib.Core.List.{Perm}
use system_device_programmin.Merge.{merge_sort}
use system_device_programmin.Merge.Ascending.{IsAscending}
use system_device_programmin.Merge.Sorts.{merge_sort-IsAscending}
use system_device_programmin.Merge.Threads.{
  Merging, Run, small, in_turn, in_threads, both_done, first, second, run,
}
use system_device_programmin.Merge.Mains.{blank, number, main_merge, main_threads, main_threshold}
use system_device_programmin.Merge.Mains.Printed.{Shows, mains-Shows}
use system_device_programmin.Merge.Threads.Orders.{threaded_sort-IsAscending}

abbrev values : List ℤ
values = pos 5 ∷ negsuc 1 ∷ pos 5 ∷ pos 3 ∷ []

sorts_values :
    merge_sort 1 (pos 0) 3 0 3 (values ++ pos 77 ∷ [])
    ≡ some (negsuc 1 ∷ pos 3 ∷ pos 5 ∷ pos 5 ∷ pos 77 ∷ [])
unfolding merge_sort
sorts_values = refl

merge_sort-IsAscending_example :
    (zs : List ℤ) × IsAscending zs
    × Perm values zs
    × (merge_sort 1 (pos 0) 3 0 3 (values ++ pos 77 ∷ []) ≡ some (zs ++ pos 77 ∷ []))
merge_sort-IsAscending_example =
    merge_sort-IsAscending 1 (pos 0) 3 0 3 [] values (pos 77 ∷ []) (omega arith) (omega arith) refl
      (omega arith) (omega arith) (omega arith)

-- The second thread merges its half first.
abbrev second_first : List Merging
second_first =
    record { left = 2; middle = 2; right = 3 }
    ∷ record { left = 0; middle = 0; right = 1 }
    ∷ record { left = 0; middle = 1; right = 3 }
    ∷ []

second_first-Run : Run 0 0 3 second_first
second_first-Run =
    in_threads (omega arith) (omega arith)
      (in_threads (omega arith) (omega arith) (small (omega arith)) (small (omega arith)) both_done
        refl)
      (in_threads (omega arith) (omega arith) (small (omega arith)) (small (omega arith)) both_done
        refl)
      (second _ (first _ both_done)) refl

threaded_sort-IsAscending_example :
    (zs : List ℤ) × IsAscending zs
    × Perm values zs
    × (run 1 (pos 0) second_first (values ++ pos 77 ∷ []) ≡ some (zs ++ pos 77 ∷ []))
threaded_sort-IsAscending_example =
    threaded_sort-IsAscending 1 (pos 0) (omega arith) [] values (pos 77 ∷ []) second_first-Run
      (omega arith) refl (omega arith) (omega arith)

-- The same merges, with a threshold of 2.
second_first-Run_in_turn : Run 2 0 3 second_first
second_first-Run_in_turn =
    in_threads (omega arith) (omega arith)
      (in_turn (omega arith) (omega arith) (small (omega arith)) (small (omega arith)) refl)
      (in_turn (omega arith) (omega arith) (small (omega arith)) (small (omega arith)) refl)
      (second _ (first _ both_done)) refl

abbrev falling : ℕ → ℕ
falling k = 250 - 7 * k

abbrev cells : List ℤ
cells = replicate 6 (pos 0)

prints_falling :
    main_merge falling cells 1 (pos 0) (some 2)
    ≡ some (0, number (pos 50) ∷ number (pos 43) ∷ blank ∷ number (pos 43) ∷ number (pos 50) ∷ [])
unfolding main_merge
prints_falling = refl

mains-Shows_example :
    Shows falling 4 (main_merge falling cells 1 (pos 0) (some 4))
    × Shows falling 4 (main_threads falling cells 1 (pos 0) (λ _ _ _. second_first) (some 4))
    × Shows falling 4 (main_threshold falling cells 1 (pos 0) (λ _ _ _. second_first) (some (4, 2)))
mains-Shows_example =
    mains-Shows falling cells 1 (pos 0) (omega arith) (λ _ _ _. second_first) 4 2 second_first-Run
      second_first-Run_in_turn (omega arith)
