-- ===== src/Vectors.antt =====
-- Lab1/Lab1.1.c: two vectors of random numbers are sorted and written to files.
pub mod Sorts
mod Tests
use system_device_programmin.Base.{
  ℕ, zero, suc, ◌+◌, ◌%◌, List, [], ◌∷◌, ◌++◌, Bool, Option, none, some, if◌then◌else◌, get_elem?,
  set, length, ℤ, pos, ltb_ℤ,
}
use system_device_programmin.Regions.{◌>>=◌}

-- `exchange(src + i, src + j)`; `none` is an access outside the vector.
pub exchange : ℕ → ℕ → List ℤ → Option (List ℤ)
exchange i j src = do x ← get_elem? src i; y ← get_elem? src j; some (set (set src i y) j x)

-- `below` is what the cell in front of the vector holds, if it can be read: the `while` reads it
-- before it tests `tmp >= 0`.
module _ (below : Option ℤ) where
  -- The `while` of `sort`, at the index `tmp + 1`.
  pub down : ℕ → List ℤ → Option (List ℤ)
  unfolding exchange
  down zero src = do x ← below; y ← get_elem? src zero; some src
  down (suc tmp) src =
      let next = λ (src' : List ℤ). down tmp src' in
      do
        x ← get_elem? src tmp
        y ← get_elem? src (tmp + 1)
        if ltb_ℤ y x then exchange tmp (tmp + 1) src >>= next else some src

  -- The `for`, with `n` rounds left.
  pub sort_from : ℕ → ℕ → List ℤ → Option (List ℤ)
  unfolding down
  sort_from zero i src = some src
  sort_from (suc n) i src = down i src >>= sort_from n (i + 1)

  pub sort : ℕ → List ℤ → Option (List ℤ)
  unfolding sort_from
  sort size src = sort_from size zero src

-- A `for` of `main`, with `n` numbers left; `rand` is what the calls of `rand` return, in their
-- order, and `k` of them were made.
pub random_fill : (ℕ → ℕ) → ℕ → ℕ → ℕ → ℕ → List ℤ
random_fill rand range first zero k = []
random_fill rand range first (suc n) k =
    pos (rand k % range + first) ∷ random_fill rand range first n (k + 1)

pub data Name : Type 0 where
  fv1_txt fv2_txt fv1_b fv2_b : Name

-- The files written so far.
abbrev pub Files : Type 0
Files = List (Name × List ℤ)

-- `fopened` says for which names `fopen` does not return NULL.
module _ (fopened : Name → Bool) where
  pub write : Name → List ℤ → Files → Option Files
  write filename src files =
      some (if fopened filename then files ++ ((filename, src) ∷ []) else files)

  -- `fwrite` to a stream that is NULL is `none`.
  pub write_binary : Name → List ℤ → Files → Option Files
  write_binary filename src files =
      if fopened filename then some (files ++ ((filename, src) ∷ [])) else none

  -- `main`, with two numbers that are not negative; the vectors lie behind the cells `b1`, `b2`.
  pub main : (ℕ → ℕ) → Option ℤ → Option ℤ → ℕ → ℕ → Option Files
  unfolding sort write write_binary random_fill
  main rand b1 b2 n1 n2 = do
    v1 ← sort b1 n1 (random_fill rand 91 10 n1 0)
    v2 ← sort b2 n2 (random_fill rand 81 20 n2 n1)
    files ← write fv1_txt v1 []
    files' ← write fv2_txt v2 files
    files'' ← write_binary fv1_b v1 files'
    write_binary fv2_b v2 files''
