-- ===== src/Merge/Threads.antt =====
-- The merge sorts with threads of Lab2/Lab2.1.c and Lab2/Lab2.2.c.
pub mod Acts
pub mod Orders
use system_device_programmin.Base.{
  ℕ, ◌+◌, ◌-◌, ◌/◌, ◌<◌, ◌≤◌, ◌≡◌, List, [], ◌∷◌, ◌++◌, Option, none, some, ℤ,
}
use system_device_programmin.Merge.{merge, ◌>>=◌}

-- A call of `merge` under the lock of `data`.
pub record Merging : Type 0 where
  pub left : ℕ
  pub middle : ℕ
  pub right : ℕ

-- What two threads do, in any order that keeps that of each.
pub data Interleaved {A : Type 0} : List A → List A → List A → Type 0 where
  both_done : Interleaved [] [] []
  first : (a : A) {os ps cs : List A} → Interleaved os ps cs → Interleaved (a ∷ os) ps (a ∷ cs)
  second : (b : A) {os ps cs : List A} → Interleaved os ps cs → Interleaved os (b ∷ ps) (b ∷ cs)

abbrev pub half : ℕ → ℕ → ℕ
half left right = left + (right - left) / 2

-- `threaded_sort`: the merges that it may make. Below `threshold` it calls itself twice, from there on
-- it creates two threads and joins them; Lab2.1.c always does, as with threshold 0.
pub data Run (threshold : ℕ) : ℕ → ℕ → List Merging → Type 0 where
  small : {left right : ℕ} → right ≤ left → Run threshold left right []
  in_turn :
      {left right : ℕ} {os ps cs : List Merging}
      → left < right
      → right - left < threshold
      → Run threshold left (half left right) os
      → Run threshold (half left right + 1) right ps
      → cs ≡ (os ++ ps) ++ (record { left = left; middle = half left right; right = right }) ∷ []
      → Run threshold left right cs
  in_threads :
      {left right : ℕ} {os ps ms cs : List Merging}
      → left < right
      → threshold ≤ right - left
      → Run threshold left (half left right) os
      → Run threshold (half left right + 1) right ps
      → Interleaved os ps ms
      → cs ≡ ms ++ (record { left = left; middle = half left right; right = right }) ∷ []
      → Run threshold left right cs

module _ (pad : ℕ) (junk : ℤ) where
  -- The merges one after the other.
  unfoldable pub run : List Merging → List ℤ → Option (List ℤ)
  unfolding merge
  run [] vet = some vet
  run (m ∷ ms) vet = merge pad junk m.left m.middle m.right vet >>= run ms
