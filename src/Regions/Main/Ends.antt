-- ===== src/Regions/Main/Ends.antt =====
-- How the program Lab4/Lab4_2.c ends, for each size of the file.
use system_device_programmin.Base.{
  pos, ◌^◌, int_of_IsInt, ℕ, zero, suc, ◌+◌, ◌*◌, ◌/◌, ◌^◌, ◌≤◌, ◌<◌, ◌≡◌, refl, sym, List, Bool,
  true, Option, some, length, subst, arith, dec_lt, ℕ_discrete,
}
use native.Mathlib.Nat.{pow-suc}
use system_device_programmin.Regions.{Numbers, rounds}
use system_device_programmin.Regions.Swaps.{inversions}
use system_device_programmin.Regions.Sorted.{IsOrder, Sorted, rounds-Sorted}
use system_device_programmin.Regions.Main.{
  File, st_size, len, map_file, log_loop, ceil_log10, Ended, returns, fail_mapping, no_logarithm,
  divides_by_zero, prints, create, launch, main, drawn, write_random,
}

-- The least power of 10 that is not below `n`.
pub record IsLog (n t : ℕ) : Type 0 where
  pub above : n ≤ 10 ^ t
  pub least : (s : ℕ) → s < t → 10 ^ s < n

log_loop-IsLog :
    (fuel n t p : ℕ)
    → p ≡ 10 ^ t
    → 0 < p
    → n < p + fuel + 1
    → ((s : ℕ) → s < t → 10 ^ s < n)
    → IsLog n (log_loop fuel n t p) × (log_loop fuel n t p ≤ t + fuel)
unfolding log_loop
log_loop-IsLog zero n t p e p_pos enough below =
    (record { above = omega (arith, e); least = below }, omega arith)
log_loop-IsLog (suc fuel) n t p e p_pos enough below = elim (dec_lt p n) [
  | yes lt ↦
      let (l, le) =
        log_loop-IsLog fuel n (suc t) (10 * p) (omega (arith, e, pow-suc 10 t)) (omega arith)
          (omega arith)
          (λ s ls. elim (ℕ_discrete s t) [
            | yes same ↦ rw same (omega (arith, e, lt))
            | no ne ↦ below s (omega arith)
          ]) in
      ground (arith, lt, l, le)
  | no ge ↦ ground (arith, ge, below, e)
]

-- `ceil_log10` is the logarithm, rounded up.
pub ceil_log10-IsLog : (n : ℕ) → IsLog n (ceil_log10 n) × (ceil_log10 n ≤ n)
unfolding ceil_log10
ceil_log10-IsLog n =
    let (l, le) =
      log_loop-IsLog n n 0 1 refl (omega arith) (omega arith) (λ s ls. absurd (omega arith)) in
    (l, omega (arith, le))

IsLog-pos : (n t : ℕ) → IsLog n t → 2 ≤ n → 0 < t
IsLog-pos n zero l two = absurd (omega (arith, l.above))
IsLog-pos n (suc t) l two = omega arith

IsLog-one : (t : ℕ) → IsLog 1 t → t ≡ 0
IsLog-one zero l = refl
IsLog-one (suc t) l = absurd (omega (arith, l.least 0 (omega arith)))

-- How the program ends, for each number of numbers in the file.
pub data Right (f : File) : Ended → Type 0 where
  nothing : st_size f ≡ 0 → Right f (returns fail_mapping)
  too_short : length f.numbers ≡ 0 → 0 < f.rest → Right f no_logarithm
  just_one : length f.numbers ≡ 1 → Right f divides_by_zero
  several :
      (t : ℕ) {o : Option Numbers}
      → 2 ≤ length f.numbers
      → IsLog (length f.numbers) t
      → Sorted (length f.numbers) f.numbers o
      → Right f (prints o)

-- What the program prints, if its threads sort to the end.
pub data Printed (n : ℕ) (v : Numbers) : Ended → Type 0 where
  printed : {o : Option Numbers} → Sorted n v o → Printed n v (prints o)

module _ (created : ℕ → Bool) (all : (i : ℕ) → created i ≡ true) (orders : ℕ → List ℕ)
    (fuel : ℕ) where
  create_lem : (k i : ℕ) → create created orders fuel k i ≡ true
  unfolding create
  create_lem zero i = refl
  create_lem (suc k) i = rw (all i) (create_lem k (i + 1))

  module _ (f : File) (valid : (r : ℕ) → IsOrder (ceil_log10 (length f.numbers)) (orders r))
      (enough : inversions f.numbers < fuel) where
    launch-several :
        2 ≤ length f.numbers → Right f (launch created orders fuel (length f.numbers) f.numbers)
    unfolding launch
    launch-several two =
        let n = length f.numbers in
        let (l, le) = ceil_log10-IsLog n in
        let some_thread = IsLog-pos n (ceil_log10 n) l two in
        let ends : Right f (prints (rounds (ceil_log10 n) n orders fuel 0 f.numbers)) =
          several (ceil_log10 n) two l (
            rounds-Sorted (ceil_log10 n) n some_thread le orders valid fuel 0 f.numbers refl
              enough) in
        ground (arith, two, some_thread, create_lem (ceil_log10 n) 0, ends)

    launch-Right : 0 < st_size f → Right f (launch created orders fuel (length f.numbers) f.numbers)
    launch-Right some_byte = elim (dec_lt 1 (length f.numbers)) [
      | yes two ↦ launch-several two
      | no few ↦ elim (ℕ_discrete (length f.numbers) 0) [
        | yes zero_there ↦
            let ends : Right f no_logarithm = too_short zero_there (omega (arith, zero_there)) in
            unfold launch in ground (arith, zero_there, ends)
        | no ne ↦
            let one : length f.numbers ≡ 1 = omega arith in
            let no_thread = IsLog-one (ceil_log10 (length f.numbers)) (
              subst (λ n. IsLog n (ceil_log10 (length f.numbers))) one
                ((ceil_log10-IsLog (length f.numbers)).0)) in
            let ends : Right f divides_by_zero = just_one one in
            unfold launch in ground (arith, one, no_thread, ends)
      ]
    ]

  len_lem : (f : File) → st_size f < 2 ^ 31 → len f ≡ pos (st_size f)
  len_lem f small = int_of_IsInt (pos (st_size f)) (omega arith, omega (arith, small))

  -- Where the arguments are as they should be, no call but `mmap` fails, the file has fewer than
  -- 2 ^ 31 bytes, and the threads sort in any order in a round: `mmap` fails for an empty file,
  -- log10(0) is taken for fewer than 4 bytes, `main` divides by zero for one number, and for two or
  -- more the program ends with the numbers printed, all ascending, and no access outside the file.
  -- The rounds have fuel for more of them than there are pairs in the wrong order.
  pub main-Right :
      (f : File)
      → f.rest < 4
      → st_size f < 2 ^ 31
      → ((r : ℕ) → IsOrder (ceil_log10 (length f.numbers)) (orders r))
      → inversions f.numbers < fuel
      → Right f (main created orders fuel true (some f) true true)
  unfolding main map_file
  main-Right f few small valid enough = elim (ℕ_discrete (st_size f) 0) [
    | yes none_there ↦
        let ends : Right f (returns fail_mapping) = nothing none_there in
        rw (len_lem f small) (ground (arith, none_there, ends))
    | no ne ↦
        let whole : st_size f / 4 ≡ length f.numbers = omega (arith, few) in
        let ends = launch-Right f valid enough (omega arith) in
        rw (len_lem f small, whole) (ground (arith, ne, ends))
  ]

  length-drawn : (rand : ℕ → ℕ) (n i : ℕ) → length (drawn rand n i) ≡ n
  unfolding drawn
  length-drawn rand zero i = refl
  length-drawn rand (suc n) i = omega (arith, length-drawn rand n (i + 1))

  Right-Printed :
      {f : File} {e : Ended}
      → 2 ≤ length f.numbers
      → Right f e
      → Printed (length f.numbers) f.numbers e
  Right-Printed two (nothing none_there) = absurd (omega arith)
  Right-Printed two (too_short none_there some_byte) = absurd (omega arith)
  Right-Printed two (just_one one) = absurd (omega arith)
  Right-Printed two (several t _ _ s) = printed s

  -- Lab4_2.c after Lab4_1.c, where no call fails and the threads sort in any order in a round: for
  -- a file of two numbers or more, and fewer than 2 ^ 29, it prints the numbers that Lab4_1.c has
  -- drawn, all ascending. The rounds have fuel for more of them than there are pairs in the wrong
  -- order.
  pub write_random-main :
      (rand : ℕ → ℕ) (n : ℕ)
      → 2 ≤ n
      → n < 2 ^ 29
      → ((r : ℕ) → IsOrder (ceil_log10 n) (orders r))
      → inversions (drawn rand n 0) < fuel
      → Printed n
          (drawn rand n 0)
          (main created orders fuel true (write_random rand true n) true true)
  unfolding write_random
  write_random-main rand n two small valid enough =
      let f : File = record { numbers = drawn rand n 0; rest = 0 } in
      let size : length f.numbers ≡ n = length-drawn rand n 0 in
      let e = main created orders fuel true (some f) true true in
      subst (λ k. Printed k f.numbers e) size
        (Right-Printed (omega (arith, size, two)) (
          main-Right f (omega arith) (omega (arith, size, small))
            (λ r. subst (λ k. IsOrder (ceil_log10 k) (orders r)) (sym size) (valid r)) enough))
