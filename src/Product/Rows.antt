-- ===== src/Product/Rows.antt =====
-- The rows of Lab2/Lab2.3_1.c and Lab2/Lab2.3_2.c, once all are computed.
use system_device_programmin.Base.{
  ℕ, zero, suc, ◌+◌, ◌<◌, ◌≡◌, refl, ◌∙◌, List, some, get_elem?, set, length, length-set,
  length-replicate, get_elem?-set_self, get_elem?-set_ne, replicate, ℕ_discrete, arith,
}
use system_device_programmin.Product.{Float, row, result_loop, rows_loop, sequential}

module _ (f : Float) (k : ℕ) (v1 v2 : ℕ → f.F) (mat : ℕ → ℕ → f.F) (junk : f.F) where
  abbrev pub AllRows : List f.F → Type 0
  AllRows v = (i : ℕ) → i < k → get_elem? v i ≡ some (row f k v1 v2 mat junk i)

  -- They determine the result, and all accesses are inside.
  result_loop-total :
      (n i : ℕ) (r : f.F)
      → i + n ≡ k
      → (x : f.F) × ((v : List f.F) → AllRows v → result_loop f k v1 v2 mat junk n i r v ≡ some x)
  unfolding result_loop
  result_loop-total zero i r e = (r, λ v all. refl)
  result_loop-total (suc n) i r e =
      let (x, h) =
        result_loop-total n (suc i) (f.plus r (f.times (v1 i) (row f k v1 v2 mat junk i)))
          (omega arith) in
      (x, λ v all. ground (arith, all i (omega arith), h v all))

  rows_loop-AllRows :
      (n i : ℕ) (v : List f.F)
      → i + n ≡ k
      → length v ≡ k
      → ((j : ℕ) → j < i → get_elem? v j ≡ some (row f k v1 v2 mat junk j))
      → AllRows (rows_loop f k v1 v2 mat junk n i v)
  unfolding rows_loop
  rows_loop-AllRows zero i v e size before = λ j lt. before j (omega arith)
  rows_loop-AllRows (suc n) i v e size before =
      rows_loop-AllRows n (suc i) (set v i (row f k v1 v2 mat junk i)) (omega arith)
        (omega (arith, size, length-set v i (row f k v1 v2 mat junk i)))
        (λ j lt. elim (ℕ_discrete i j) [
          | yes same ↦ rw (← same) (get_elem?-set_self v i (row f k v1 v2 mat junk i) (omega arith))
          | no ne ↦ get_elem?-set_ne v (row f k v1 v2 mat junk i) ne ∙ before j (omega arith)
        ])

  -- The result of Lab2.3_1.c is that of any vector of all the rows.
  pub sequential_lem :
      (x : f.F) × (sequential f k v1 v2 mat junk ≡ some x)
      × ((v : List f.F) → AllRows v → result_loop f k v1 v2 mat junk k 0 f.nil v ≡ some x)
  unfolding sequential
  sequential_lem =
      let (x, h) = result_loop-total k 0 f.nil (omega arith) in
      (
        x,
        h _ (
            rows_loop-AllRows k 0 (replicate k junk) (omega arith) (length-replicate k junk)
              (λ j lt. absurd (omega arith))),
        h,
      )
