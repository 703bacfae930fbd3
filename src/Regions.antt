-- ===== src/Regions.antt =====
-- Lab4/Lab4_2.c: the numbers of a file are sorted by threads, a region for each of them.
pub mod Swaps
pub mod Sift
pub mod Borders
pub mod Round
pub mod Sorted
pub mod Barrier
pub mod Main
pub mod Program
mod Tests
use system_device_programmin.Base.{
  ℕ, zero, suc, ◌+◌, ◌-◌, ◌*◌, ◌/◌, List, [], ◌∷◌, Bool, true, false, Option, none, some,
  if◌then◌else◌, leb, ◌==◌, get_elem?, set, length, ℤ, ltb_ℤ,
}

infixl 5 ◌>>=◌
abbrev pub ◌>>=◌ : {A B : Type 0} → Option A → (A → Option B) → Option B
none >>= f = none
some a >>= f = f a

-- The numbers at `paddr`; `none` is an access outside them.
abbrev pub Numbers : Type 0
Numbers = List ℤ

-- `swap(paddr + i, paddr + j)`
unfoldable pub swap : ℕ → ℕ → Numbers → Option Numbers
swap i j v = do x ← get_elem? v i; y ← get_elem? v j; some (set (set v i y) j x)

-- The inner `while` of `thread_sort`: `tmp` is an index here, as are all pointers.
unfoldable pub sift : ℕ → ℕ → Numbers → Option Numbers
unfolding swap
sift left zero v = some v
sift left (suc t) v =
    let next = λ (v' : Numbers). sift left t v' in
    if leb (left + 1) (suc t)
    then (do
      x ← get_elem? v t
      y ← get_elem? v (suc t)
      if ltb_ℤ y x then swap t (suc t) v >>= next else some v)
    else some v

-- The outer `while`, with `n` elements left.
unfoldable pub sort_loop : ℕ → ℕ → ℕ → Numbers → Option Numbers
unfolding sift
sort_loop zero cur left v = some v
sort_loop (suc n) cur left v = sift left cur v >>= λ v'. sort_loop n (suc cur) left v'

unfoldable pub sort_region : ℕ → ℕ → Numbers → Option Numbers
unfolding sort_loop
sort_region left right v = sort_loop (right + 1 - left) left left v

module _ (nthreads n : ℕ) where
  abbrev pub region_length : ℕ
  region_length = n / nthreads

  -- `regions[i]->left` and `regions[i]->right`.
  abbrev pub region_left : ℕ → ℕ
  region_left i = i * region_length

  abbrev pub region_right : ℕ → ℕ
  region_right i = if i == nthreads - 1 then n - 1 else (i + 1) * region_length - 1

  -- The regions are sorted by their threads, in this order.
  pub sort_all : List ℕ → Numbers → Option Numbers
  unfolding sort_region
  sort_all [] v = some v
  sort_all (i ∷ order) v = sort_region (region_left i) (region_right i) v >>= sort_all order

  -- The `for` of the last thread at the barrier, with `k` borders left; whether one was swapped.
  pub borders : ℕ → ℕ → Bool → Numbers → Option (Numbers × Bool)
  unfolding swap
  borders zero i swapped v = some (v, swapped)
  borders (suc k) i swapped v =
      let at = i * region_length in
      let next = λ (v' : Numbers). borders k (suc i) true v' in
      let same = borders k (suc i) swapped v in
      do
        x ← get_elem? v (at - 1)
        y ← get_elem? v at
        if ltb_ℤ y x then swap (at - 1) at v >>= next else same

  -- The loop of the threads, on fuel; `order r` is the order in which they sort in the round `r`.
  pub rounds : (ℕ → List ℕ) → ℕ → ℕ → Numbers → Option Numbers
  unfolding sort_all borders
  rounds order zero r v = none
  rounds order (suc fuel) r v = sort_all (order r) v >>= λ v'.
      borders (nthreads - 1) 1 false v' >>= λ (v'', swapped).
      (let more = rounds order fuel (suc r) v'' in if swapped then more else some v'')
