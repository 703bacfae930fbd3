-- ===== src/Base/Places.antt =====
-- How many threads of a program stand at a place in its code.
use Prim.Native.Nat.{ℕ, zero, suc, ◌+◌, ◌<◌}
use mathlib.Core.Path.{◌≡◌, ap}
use mathlib.Core.List.{List, [], ◌∷◌}
use mathlib.Core.Option.{some}
use native.Mathlib.Omega.{arith}
use native.Mathlib.Decide.{ℕ_discrete}
use system_device_programmin.Base.Tests.{◌==◌, if◌then◌else◌}
use system_device_programmin.Base.Lists.{get_elem?, set}

-- Places are told apart by their numbers.
module _ {P : Type 0} (code : P → ℕ) where
  abbrev pub same_place : P → P → ℕ
  same_place p q = if code p == code q then 1 else 0

  unfoldable pub count : P → List P → ℕ
  count p [] = 0
  count p (q ∷ l) = same_place p q + count p l

  -- A thread that moves is counted elsewhere.
  pub count-set :
      (p new : P) (l : List P) (i : ℕ) {old : P}
      → get_elem? l i ≡ some old
      → count p (set l i new) + same_place p old ≡ count p l + same_place p new
  unfolding count
  count-set p new [] i e = absurd (ground arith)
  count-set p new (q ∷ l) zero e = ground arith
  count-set p new (q ∷ l) (suc i) e = omega (arith, count-set p new l i e)

  pub count_pos : (p : P) (l : List P) (i : ℕ) → get_elem? l i ≡ some p → 0 < count p l
  unfolding count
  count_pos p [] i e = absurd (ground arith)
  count_pos p (q ∷ l) zero e = ground arith
  count_pos p (q ∷ l) (suc i) e = omega (arith, count_pos p l i e)

  module _ (apart : (p q : P) → code p ≡ code q → q ≡ p) where
    pub count_found : (p : P) (l : List P) → 0 < count p l → (i : ℕ) × (get_elem? l i ≡ some p)
    unfolding count
    count_found p [] some_there = absurd (omega arith)
    count_found p (q ∷ l) some_there = elim (ℕ_discrete (code p) (code q)) [
      | yes e ↦ (0, ap some (apart p q e))
      | no ne ↦ let (i, e) = count_found p l (ground (arith, ne)) in (suc i, e)
    ]
