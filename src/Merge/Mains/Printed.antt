-- ===== src/Merge/Mains/Printed.antt =====
-- What the programs Lab2/merge.c, Lab2/Lab2.1.c and Lab2/Lab2.2.c print.
use system_device_programmin.Base.{
  ℕ, zero, suc, ◌+◌, ◌-◌, ◌%◌, ◌<◌, ◌≤◌, ◌≡◌, refl, ap, ◌∙◌, subst, List, [], ◌∷◌, ◌++◌, map, some,
  length, length-append, length-take, length-drop, take, drop, ℤ, pos, arith, Option,
}
use mathlib.Core.List.{Perm, append_assoc}
use mathlib.Core.List.Perm
use mathlib.Core.List.{Permᴰ}
use mathlib.Core.Logic.{∥∥₁_elim}
use native.Mathlib.Nat.{ℕ_set}
use system_device_programmin.Merge.{load, store, merge_sort}
use system_device_programmin.Merge.Ascending.{IsAscending, empty}
use system_device_programmin.Merge.Loops.{set-append}
use system_device_programmin.Merge.Once.{get_elem?-behind}
use system_device_programmin.Merge.Sorts.{take-drop, merge_sort-IsAscending}
use system_device_programmin.Merge.Threads.{Merging, Run, small, in_turn, in_threads, run}
use system_device_programmin.Merge.Threads.Orders.{threaded_sort-IsAscending}
use system_device_programmin.Merge.Mains.{
  Line, blank, number, fill_loop, print_loop, sorted_by, main_merge, main_threads, main_threshold,
}

-- The next `n` random numbers below 100, when `i` were drawn.
abbrev pub numbers : (ℕ → ℕ) → ℕ → ℕ → List ℤ
numbers rand zero i = []
numbers rand (suc n) i = pos (rand i % 100) ∷ numbers rand n (i + 1)

length-numbers : (rand : ℕ → ℕ) (n i : ℕ) → length (numbers rand n i) ≡ n
length-numbers rand zero i = refl
length-numbers rand (suc n) i = omega (arith, length-numbers rand n (i + 1))

load-behind :
    (before tail : List ℤ) (v : ℤ) (i : ℕ)
    → i ≡ length before
    → load (before ++ v ∷ tail) i ≡ some v
unfolding load
load-behind before tail v i e = get_elem?-behind before (v ∷ tail) i 0 (omega (arith, e))

store-behind :
    (before tail : List ℤ) (g v : ℤ) (i : ℕ)
    → i ≡ length before
    → store (before ++ g ∷ tail) i v ≡ some ((before ++ v ∷ []) ++ tail)
unfolding store
store-behind before tail g v i e =
    ground (arith, e, length-append before (g ∷ tail), set-append before g v tail i e)

fill_loop-numbers :
    (rand : ℕ → ℕ) (n i : ℕ) (before cells after : List ℤ)
    → i ≡ length before
    → length cells ≡ n
    → fill_loop rand n i (before ++ (cells ++ after))
      ≡ some (before ++ (numbers rand n i ++ after), map number (numbers rand n i))
unfolding fill_loop
fill_loop-numbers rand zero i before [] after e size = refl
fill_loop-numbers rand zero i before (c ∷ cells) after e size = absurd (omega arith)
fill_loop-numbers rand (suc n) i before [] after e size = absurd (omega arith)
fill_loop-numbers rand (suc n) i before (c ∷ cells) after e size =
    let v = pos (rand i % 100) in
    let nums = numbers rand n (i + 1) in
    let next =
      subst
        (λ vet.
          fill_loop rand n (i + 1) vet
          ≡ some ((before ++ v ∷ []) ++ (nums ++ after), map number nums))
        (append_assoc before (v ∷ []) (cells ++ after))
        (fill_loop-numbers rand n (i + 1) (before ++ v ∷ []) cells after
          (omega (arith, e, length-append before (v ∷ []))) (omega arith)) in
    rw
      (
        store-behind before (cells ++ after) c v i e,
        append_assoc before (v ∷ []) (cells ++ after),
        load-behind before (cells ++ after) v i e,
        next,
        append_assoc before (v ∷ []) (nums ++ after),
      )
      refl

print_loop-lines :
    (n i : ℕ) (before zs after : List ℤ)
    → i ≡ length before
    → length zs ≡ n
    → print_loop n i (before ++ (zs ++ after)) ≡ some (map number zs)
unfolding print_loop
print_loop-lines zero i before [] after e size = refl
print_loop-lines zero i before (z ∷ zs) after e size = absurd (omega arith)
print_loop-lines (suc n) i before [] after e size = absurd (omega arith)
print_loop-lines (suc n) i before (z ∷ zs) after e size =
    rw
      (
        load-behind before (zs ++ after) z i e,
        subst (λ vet. print_loop n (i + 1) vet ≡ some (map number zs))
            (append_assoc before (z ∷ []) (zs ++ after))
            (print_loop-lines n (i + 1) (before ++ z ∷ []) zs after
              (omega (arith, e, length-append before (z ∷ []))) (omega arith)),
      )
      refl

Permᴰ-length : {xs ys : List ℤ} → Permᴰ xs ys → length ys ≡ length xs
Permᴰ-length Permᴰ.nil = refl
Permᴰ-length (Permᴰ.swap e e') = refl
Permᴰ-length (Permᴰ.trans first second) = omega (arith, Permᴰ-length first, Permᴰ-length second)
Permᴰ-length (Permᴰ.cons e rest) = omega (arith, Permᴰ-length rest)

Perm-length : {xs ys : List ℤ} → Perm xs ys → length ys ≡ length xs
Perm-length {xs} {ys} perm = ∥∥₁_elim perm (ℕ_set (length ys) (length xs)) (λ p. Permᴰ-length p)

-- A sort of the first `n` cells of memory that holds a cell more.
abbrev pub Sorts : (List ℤ → Option (List ℤ)) → ℕ → Type 0
Sorts sort n =
    (seg after : List ℤ)
    → length seg ≡ n
    → 0 < length after
    → (zs : List ℤ) × IsAscending zs × Perm seg zs × (sort (seg ++ after) ≡ some (zs ++ after))

-- The numbers, a blank line, and the same numbers in ascending order.
abbrev pub Shows : (ℕ → ℕ) → ℕ → Option (ℕ × List Line) → Type 0
Shows rand n result =
    (zs : List ℤ) × IsAscending zs
    × Perm (numbers rand n 0) zs
    × (result ≡ some (0, map number (numbers rand n 0) ++ blank ∷ map number zs))

module _ (rand : ℕ → ℕ) (heap : List ℤ) where
  sorted_by-Shows :
      (sort : List ℤ → Option (List ℤ)) (n : ℕ)
      → n < length heap
      → Sorts sort n
      → Shows rand n (sorted_by rand heap sort n)
  unfolding sorted_by
  sorted_by-Shows sort n room sorts =
      let after = drop n heap in
      let nums = numbers rand n 0 in
      let (zs, asc, perm, e) =
        sorts nums after (length-numbers rand n 0) (omega (arith, room, length-drop n heap)) in
      let filled =
        subst (λ vet. fill_loop rand n 0 vet ≡ some (nums ++ after, map number nums))
          (take-drop n heap)
          (fill_loop-numbers rand n 0 [] (take n heap) after refl
            (omega (arith, room, length-take n heap))) in
      let shown =
        print_loop-lines n 0 [] zs after refl (Perm-length perm ∙ length-numbers rand n 0) in
      (zs, asc, perm, rw (filled, e, shown) refl)

  module _ (pad : ℕ) (junk : ℤ) (spare : 0 < pad) where
    merge_sort-Sorts : (n : ℕ) → Sorts (merge_sort pad junk n 0 (n - 1)) n
    unfolding merge_sort
    merge_sort-Sorts zero [] after e behind = ([], (pos 0, empty), Perm.nil, refl)
    merge_sort-Sorts zero (x ∷ seg) after e behind = absurd (omega arith)
    merge_sort-Sorts (suc n) seg after e behind =
        merge_sort-IsAscending pad junk (suc n) 0 (suc n - 1) [] seg after spare behind refl
          (omega arith) (omega (arith, e)) (omega arith)

    nothing_to_merge :
        {threshold l r : ℕ} {ms : List Merging} → r ≤ l → Run threshold l r ms → ms ≡ []
    nothing_to_merge le (small ge) = refl
    nothing_to_merge le (in_turn lt few one other e) = absurd (omega (arith, le, lt))
    nothing_to_merge le (in_threads lt many one other i e) = absurd (omega (arith, le, lt))

    run-Sorts :
        {threshold : ℕ} (n : ℕ) {ms : List Merging}
        → Run threshold 0 (n - 1) ms
        → Sorts (run pad junk ms) n
    unfolding run
    run-Sorts zero r [] after e behind = (
      [],
      (pos 0, empty),
      Perm.nil,
      ap (λ ms. run pad junk ms after) (nothing_to_merge (omega arith) r),
    )
    run-Sorts zero r (x ∷ seg) after e behind = absurd (omega arith)
    run-Sorts (suc n) r seg after e behind =
        threaded_sort-IsAscending pad junk spare [] seg after r (omega arith) refl
          (omega (arith, e)) behind

    -- With a cell behind each array, and in whatever order the threads merge, the three programs end,
    -- for any number of cells: each prints that many random numbers, a blank line and the same numbers
    -- in ascending order, and returns 0.
    pub mains-Shows :
        (merges : ℕ → ℕ → ℕ → List Merging) (n threshold : ℕ)
        → Run 0 0 (n - 1) (merges 0 0 (n - 1))
        → Run threshold 0 (n - 1) (merges threshold 0 (n - 1))
        → n < length heap
        → Shows rand n (main_merge rand heap pad junk (some n))
          × Shows rand n (main_threads rand heap pad junk merges (some n))
          × Shows rand n (main_threshold rand heap pad junk merges (some (n, threshold)))
    unfolding main_merge main_threads main_threshold
    mains-Shows merges n threshold always above room = (
      sorted_by-Shows (merge_sort pad junk n 0 (n - 1)) n room (merge_sort-Sorts n),
      sorted_by-Shows (run pad junk (merges 0 0 (n - 1))) n room (run-Sorts n always),
      sorted_by-Shows (run pad junk (merges threshold 0 (n - 1))) n room (run-Sorts n above),
    )
