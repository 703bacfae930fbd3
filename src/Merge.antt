-- ===== src/Merge.antt =====
-- The merge sort of Lab2/merge.c.
pub mod Ascending
pub mod Copy
pub mod Loops
pub mod Once
pub mod Sorts
pub mod Threads
pub mod Mains
mod Tests
use system_device_programmin.Base.{
  ℕ, zero, suc, ◌+◌, ◌-◌, ◌/◌, List, Bool, Option, none, some, ◌&&◌, if◌then◌else◌, ltb, length,
  get_elem?, set, replicate, ℤ, ltb_ℤ, not,
}

infixl 5 ◌>>=◌
abbrev pub ◌>>=◌ : {A B : Type 0} → Option A → (A → Option B) → Option B
none >>= f = none
some a >>= f = f a

-- `none` is an access outside the cells that belong to an array. `pad` is how many cells behind a
-- temporary array nothing else uses: C promises none, a compiler that rounds sizes up leaves some.
-- `junk` is what fresh memory holds.
pub load : List ℤ → ℕ → Option ℤ
load a i = get_elem? a i

pub store : List ℤ → ℕ → ℤ → Option (List ℤ)
store a i v = if ltb i (length a) then some (set a i v) else none

-- `for (i = 0; i <= n1; i++) L[i] = vet[left + i];`, with `n` rounds left; `off` is `left`.
pub copy_loop : ℕ → ℕ → ℕ → List ℤ → List ℤ → Option (List ℤ)
unfolding load store
copy_loop zero i off vet a = some a
copy_loop (suc n) i off vet a = do
  v ← load vet (off + i)
  a' ← store a i v
  copy_loop n (i + 1) off vet a'

-- `while (i < n1) vet[k++] = L[i++];`, with `n` rounds left.
pub rest_loop : ℕ → List ℤ → ℕ → ℕ → List ℤ → Option (List ℤ)
unfolding load store
rest_loop zero a i k vet = some vet
rest_loop (suc n) a i k vet = do
  v ← load a i
  vet' ← store vet k v
  rest_loop n a (i + 1) (k + 1) vet'

-- The first `while`, with fuel, and what follows it; without fuel the loop would go on for ever.
pub merge_loop : ℕ → List ℤ → List ℤ → ℕ → ℕ → ℕ → ℕ → ℕ → List ℤ → Option (List ℤ)
unfolding load store rest_loop
merge_loop zero l r n1 n2 i j k vet = none
merge_loop (suc fuel) l r n1 n2 i j k vet =
    let from_l = λ (vet' : List ℤ). merge_loop fuel l r n1 n2 (i + 1) j (k + 1) vet' in
    let from_r = λ (vet' : List ℤ). merge_loop fuel l r n1 n2 i (j + 1) (k + 1) vet' in
    if ltb i n1 && ltb j n2
    then (do
      x ← load l i
      y ← load r j
      if not (ltb_ℤ y x) then store vet k x >>= from_l else store vet k y >>= from_r)
    else (do vet' ← rest_loop (n1 - i) l i k vet; rest_loop (n2 - j) r j (k + (n1 - i)) vet')

module _ (pad : ℕ) (junk : ℤ) where
  unfoldable pub merge : ℕ → ℕ → ℕ → List ℤ → Option (List ℤ)
  unfolding copy_loop merge_loop
  merge left middle right vet =
      let n1 = middle + 1 - left in
      let n2 = right - middle in
      do
        l ← copy_loop (n1 + 1) 0 left vet (replicate (n1 + pad) junk)
        r ← copy_loop (n2 + 1) 0 (middle + 1) vet (replicate (n2 + pad) junk)
        merge_loop (n1 + n2 + 1) l r n1 n2 0 0 left vet

  -- Fuel for each level of the recursion.
  unfoldable pub merge_sort : ℕ → ℕ → ℕ → List ℤ → Option (List ℤ)
  unfolding merge
  merge_sort zero left right vet = if ltb left right then none else some vet
  merge_sort (suc fuel) left right vet =
      let middle = left + (right - left) / 2 in
      let first = merge_sort fuel left middle vet in
      let second = λ (vet' : List ℤ). merge_sort fuel (middle + 1) right vet' in
      if ltb left right
      then (do vet' ← first; vet'' ← second vet'; merge left middle right vet'')
      else some vet
