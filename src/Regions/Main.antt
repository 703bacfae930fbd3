-- ===== src/Regions/Main.antt =====
-- `main` of Lab4/Lab4_2.c, and Lab4/Lab4_1.c, which writes the files that it sorts.
pub mod Ends
use system_device_programmin.Base.{
  ℕ, zero, suc, ◌+◌, ◌*◌, ◌/◌, ◌%◌, ◌^◌, List, [], ◌∷◌, Bool, true, Option, none, some,
  if◌then◌else◌, ◌&&◌, ltb, ◌==◌, length, ℤ, pos, negsuc, int,
}
use system_device_programmin.Regions.{Numbers, rounds}

-- A file of `int`s; `rest` bytes are left over behind the last whole one.
pub record File : Type 0 where
  pub numbers : Numbers
  pub rest : ℕ

-- `st_size`, in bytes, and the `int` `len` that it is stored in.
abbrev pub st_size : File → ℕ
st_size f = 4 * length f.numbers + f.rest

abbrev pub len : File → ℤ
len f = int (pos (st_size f))

-- How often `10` is multiplied until `n` is not above the power `p`, on fuel.
pub log_loop : ℕ → ℕ → ℕ → ℕ → ℕ
log_loop zero n t p = t
log_loop (suc fuel) n t p =
    let more = log_loop fuel n (suc t) (10 * p) in if ltb p n then more else t

-- `ceil(log10(n))` for a positive `n`.
unfoldable pub ceil_log10 : ℕ → ℕ
unfolding log_loop
ceil_log10 n = log_loop n n 0 1

-- The messages with which `main` returns 1.
pub data Failure : Type 0 where
  syntax fail_opening fail_stat fail_mapping fail_creating : Failure

-- `no_logarithm`: log10(0) has no value that an `int` holds. `prints` is what the last thread at the
-- barrier prints before it calls `exit`.
pub data Ended : Type 0 where
  returns : Failure → Ended
  no_logarithm divides_by_zero : Ended
  prints : Option Numbers → Ended

-- `created i` says whether `pthread_create` makes the thread `i`; `orders` and `fuel` are those of
-- `rounds`.
module _ (created : ℕ → Bool) (orders : ℕ → List ℕ) (fuel : ℕ) where
  -- The `for` that creates the threads, with `k` of them left.
  pub create : ℕ → ℕ → Bool
  create zero i = true
  create (suc k) i = created i && create k (i + 1)

  -- From the computation of `nthreads` on.
  pub launch : ℕ → Numbers → Ended
  unfolding ceil_log10 create rounds
  launch n paddr =
      let nthreads = ceil_log10 n in
      if n == 0
      then no_logarithm
      else if nthreads == 0
      then divides_by_zero
      else if create nthreads 0
      then prints (rounds nthreads n orders fuel 0 paddr)
      else returns fail_creating

  -- `mmap`, and what follows it.
  pub map_file : Bool → ℤ → Numbers → Ended
  unfolding launch
  map_file maps (pos l) paddr =
      if maps && ltb 0 l then launch (l / 4) paddr else returns fail_mapping
  map_file maps (negsuc l) paddr = returns fail_mapping

  -- The arguments are as they should be or not; `open` finds the file or fails; `fstat` and `mmap`
  -- work or fail; `mmap` always fails for a length of 0, and for a negative one, which it reads as a
  -- length above all addresses.
  unfoldable pub main : Bool → Option File → Bool → Bool → Ended
  unfolding map_file
  main args found stats maps =
      if args
      then elim found [
        | none ↦ returns fail_opening
        | some f ↦ if stats then map_file maps (len f) f.numbers else returns fail_stat
      ]
      else returns syntax

-- The `for` of Lab4_1.c, with `n` numbers left; `rand` is what its calls return, in their order.
unfoldable pub drawn : (ℕ → ℕ) → ℕ → ℕ → Numbers
drawn rand zero i = []
drawn rand (suc n) i = pos (rand i) ∷ drawn rand n (i + 1)

-- `main` of Lab4_1.c with a number that is not negative: the file that it leaves, if the arguments
-- are as they should be. `none` is a `fwrite` to the NULL that `fopen` returned.
unfoldable pub write_random : (ℕ → ℕ) → Bool → ℕ → Option File
unfolding drawn
write_random rand fopened n =
    if fopened then some (record { numbers = drawn rand n 0; rest = 0 }) else none
