-- ===== src/Regions/Borders.antt =====
-- The borders of the regions in Lab4/Lab4_2.c, which the last thread at the barrier looks at.
use system_device_programmin.Base.{
  ℕ, zero, suc, ◌+◌, ◌-◌, ◌*◌, ◌≤◌, ◌<◌, ◌≡◌, inl, inr, refl, Bool, true, some, Option, get_elem?,
  get_elem?_total, set, length, length-set, ℤ, ltb_ℤ, ◌<ℤ◌, ◌≤ℤ◌, arith, Bool-cases, subst,
  ℕ_discrete,
}
use native.Mathlib.Nat.{div-mul-le_self, mul-le-mul_right, le-div_iff_mul-le, suc-mul}
use system_device_programmin.Regions.{Numbers, swap, borders, region_length}
use system_device_programmin.Regions.Swaps.{Swaps, same, more, Swaps-append}

module _ (nthreads n : ℕ) (some_thread : 0 < nthreads) (enough : nthreads ≤ n) where
  abbrev pub len : ℕ
  len = region_length nthreads n

  -- No region is empty.
  pub len_pos : 0 < len
  len_pos = (le-div_iff_mul-le some_thread).1 (omega arith)

  pub before_next : (i j : ℕ) → i < j → i * len + len ≤ j * len
  before_next i j lt = omega (arith, mul-le-mul_right len lt, suc-mul i len)

  pub inside_file : (i : ℕ) → i < nthreads → i * len + len ≤ n
  inside_file i lt = omega (arith, before_next i nthreads lt, div-mul-le_self n nthreads)

  -- The two numbers at the border in front of the region `i` are in order.
  abbrev pub InOrder : Numbers → ℕ → Type 0
  InOrder v i =
      (x y : ℤ) → get_elem? v (i * len - 1) ≡ some x → get_elem? v (i * len) ≡ some y → x ≤ℤ y

  -- All borders from `i` on are in order and nothing has changed; or some were exchanged.
  pub data Crossed (i k : ℕ) (swapped : Bool) (v : Numbers) : Option (Numbers × Bool) → Type 0 where
    none_crossed :
        ((j : ℕ) → i ≤ j → j < i + k → InOrder v j) → Crossed i k swapped v (some (v, swapped))
    crossed :
        {c : ℕ} {w : Numbers} → 0 < c → Swaps 0 n c v w → Crossed i k swapped v (some (w, true))

  module _ (i k at : ℕ) (swapped : Bool) (v : Numbers) (x y : ℤ) (is_at : at ≡ i * len)
      (pos_at : 0 < at) (inside : at < n) (ex : get_elem? v (at - 1) ≡ some x)
      (ey : get_elem? v at ≡ some y) where
    skipped :
        x ≤ℤ y
        → {o : Option (Numbers × Bool)} → Crossed (suc i) k swapped v o
        → Crossed i (suc k) swapped v o
    skipped le (crossed some_swap s) = crossed some_swap s
    skipped le (none_crossed h) = none_crossed (λ j ij jk. elim (ℕ_discrete j i) [
      | no ne ↦ h j (omega arith) (omega arith)
      | yes e ↦ λ p q ep eq.
          let ep' : x ≡ p = ground (arith, e, is_at) in
          let eq' : y ≡ q = ground (arith, e, is_at) in rw (← ep', ← eq') le
    ])

    exchange : y <ℤ x → Swaps 0 n 1 v (set (set v (at - 1) y) at x)
    exchange lt =
        let e : suc (at - 1) ≡ at = omega arith in
        subst (λ b. Swaps 0 n 1 v (set (set v (at - 1) y) b x)) e
          (more (at - 1) x y (omega arith) (omega arith) ex (rw e ey) lt same)

    taken :
        y <ℤ x
        → {o : Option (Numbers × Bool)} → Crossed (suc i) k true (set (set v (at - 1) y) at x) o
        → Crossed i (suc k) swapped v o
    taken lt (none_crossed h) = crossed (omega arith) (exchange lt)
    taken lt (crossed some_swap s) = crossed (omega arith) (Swaps-append (exchange lt) s)

  pub borders-Crossed :
      (k i : ℕ) (swapped : Bool) (v : Numbers)
      → length v ≡ n
      → 0 < i
      → i + k ≤ nthreads
      → Crossed i k swapped v (borders nthreads n k i swapped v)
  unfolding borders swap
  borders-Crossed zero i swapped v size first last = none_crossed (λ j ij jk. absurd (omega arith))
  borders-Crossed (suc k) i swapped v size first last =
      let inside : i * len < n = omega (arith, inside_file i (omega arith), len_pos) in
      let pos_at : 0 < i * len = omega (arith, before_next 0 i first, len_pos) in
      let (x, ex) = get_elem?_total v (i * len - 1) (omega arith) in
      let (y, ey) = get_elem?_total v (i * len) (omega arith) in
      elim (Bool-cases (ltb_ℤ y x)) [
        | inl smaller ↦
            let v' = set (set v (i * len - 1) y) (i * len) x in
            subst (Crossed i (suc k) swapped v) (ground arith) (
              taken i k (i * len) swapped v x y refl pos_at inside ex ey (ground arith) (
                borders-Crossed k (suc i) true v'
                  (omega (
                    arith,
                    size,
                    length-set (set v (i * len - 1) y) (i * len) x,
                    length-set v (i * len - 1) y,
                  ))
                  (omega arith) (omega arith)))
        | inr ordered ↦ subst (Crossed i (suc k) swapped v) (ground arith) (
            skipped i k (i * len) swapped v x y refl pos_at inside ex ey (ground arith)
              (borders-Crossed k (suc i) swapped v size (omega arith) (omega arith)))
      ]
