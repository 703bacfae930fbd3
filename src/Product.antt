-- ===== src/Product.antt =====
-- The product v1 * mat * v2 of Lab2/Lab2.3_1.c, and with threads of Lab2/Lab2.3_2.c.
pub mod Rows
pub mod Threads
mod Tests
use system_device_programmin.Base.{
  ℕ, zero, suc, ◌+◌, ◌-◌, ◌*◌, ◌≡◌, List, [], ◌∷◌, ◌++◌, Option, none, some, if◌then◌else◌, ◌==◌,
  get_elem?, set, replicate,
}

-- `float`, of which the programs use 0, addition and multiplication.
pub record Float : Type 1 where
  pub F : Type 0
  pub nil : F
  pub plus : F → F → F
  pub times : F → F → F

-- A thread of Lab2.3_2.c computes its row, then it counts down.
pub data Place : Type 0 where
  computes : Place
  counts : Place
  ended : Place

-- What is printed, the last one last, beside `v`, `b.cnt` and the threads.
pub record System (f : Float) : Type 0 where
  pub v : List f.F
  pub cnt : ℕ
  pub printed : List (Option f.F)
  pub threads : List Place

-- The vectors, and `mat` by row and column. Where an entry was never stored it holds `junk`.
module _ (f : Float) (k : ℕ) (v1 v2 : ℕ → f.F) (mat : ℕ → ℕ → f.F) (junk : f.F) where
  -- `for (j) v[i] += mat[i][j] * v2[i];`, with `n` columns left.
  pub row_loop : ℕ → ℕ → ℕ → f.F → f.F
  row_loop zero i j sum = sum
  row_loop (suc n) i j sum = row_loop n i (suc j) (f.plus sum (f.times (mat i j) (v2 i)))

  pub row : ℕ → f.F
  unfolding row_loop
  row i = row_loop k i 0 f.nil

  -- `for (i) result += v1[i] * v[i];`, with `n` entries left; `none` is an access outside `v`.
  pub result_loop : ℕ → ℕ → f.F → List f.F → Option f.F
  result_loop zero i result v = some result
  result_loop (suc n) i result v =
      let next = λ (x : f.F). result_loop n (suc i) (f.plus result (f.times (v1 i) x)) v in
      elim (get_elem? v i) [ none ↦ none | some x ↦ next x ]

  -- The loop over the rows of Lab2.3_1.c, with `n` rows left.
  pub rows_loop : ℕ → ℕ → List f.F → List f.F
  unfolding row
  rows_loop zero i v = v
  rows_loop (suc n) i v = rows_loop n (suc i) (set v i (row i))

  pub sequential : Option f.F
  unfolding rows_loop result_loop
  sequential = result_loop k 0 f.nil (rows_loop k 0 (replicate k junk))

  abbrev pub compute : ℕ → System f → System f
  compute i s = record s { v = set s.v i (row i); threads = set s.threads i counts }

  -- The section under the lock.
  abbrev pub count_down : ℕ → System f → System f
  count_down i s = record s {
    cnt = s.cnt - 1;
    printed = (if s.cnt - 1 == 0 then s.printed ++ result_loop k 0 f.nil s.v ∷ [] else s.printed);
    threads = set s.threads i ended;
  }

  pub data Step (s : System f) : System f → Type 0 where
    computing : (i : ℕ) → get_elem? s.threads i ≡ some computes → Step s (compute i s)
    counting : (i : ℕ) → get_elem? s.threads i ≡ some counts → Step s (count_down i s)

  abbrev pub initial : System f
  initial = record { v = replicate k junk; cnt = k; printed = []; threads = replicate k computes }

  pub data Reach : System f → Type 0 where
    start : Reach initial
    next : {s t : System f} → Reach s → Step s t → Reach t
