-- ===== src/Kernel/Fd/Count.antt =====
-- How many descriptors of a process refer to a file: the references that
-- Lab6/xv6-semaphores/file.c counts in `ref`.
use system_device_programmin.Base.{
  ℕ, zero, suc, ◌+◌, ◌≤◌, ◌<◌, ◌≡◌, [], ◌∷◌, Option, none, some, ◌==◌, if◌then◌else◌, length,
  get_elem?, set, arith,
}
use system_device_programmin.Kernel.Fd.{Ofile}

-- 1 if the descriptor refers to the file `i`.
abbrev pub refers : ℕ → Option ℕ → ℕ
refers i none = 0
refers i (some j) = if j == i then 1 else 0

pub refers-le : (i : ℕ) (p : Option ℕ) → refers i p ≤ 1
refers-le i none = omega arith
refers-le i (some j) = ground arith

unfoldable pub count : ℕ → Ofile → ℕ
count i [] = 0
count i (p ∷ o) = refers i p + count i o

pub count-le-length : (i : ℕ) (o : Ofile) → count i o ≤ length o
unfolding count
count-le-length i [] = omega arith
count-le-length i (p ∷ o) = omega (arith, refers-le i p, count-le-length i o)

pub count-set :
    (i : ℕ) (o : Ofile) (fd : ℕ) (new : Option ℕ) {old : Option ℕ}
    → get_elem? o fd ≡ some old
    → count i (set o fd new) + refers i old ≡ count i o + refers i new
unfolding count
count-set i [] fd new h = absurd (ground arith)
count-set i (p ∷ o) zero new {old} h = let e : p ≡ old = ground arith in rw e (omega arith)
count-set i (p ∷ o) (suc fd) new h = omega (arith, count-set i o fd new h)

pub refers_self : (i : ℕ) → refers i (some i) ≡ 1
refers_self i = ground arith

-- A descriptor that refers to a file is counted.
pub count_pos : (i : ℕ) (o : Ofile) (fd : ℕ) → get_elem? o fd ≡ some (some i) → 0 < count i o
count_pos i o fd h = omega (arith, count-set i o fd none h, refers_self i)
