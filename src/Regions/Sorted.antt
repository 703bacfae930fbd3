-- ===== src/Regions/Sorted.antt =====
-- The rounds of Lab4/Lab4_2.c end, with the numbers of the whole file in order.
use system_device_programmin.Base.{
  ℕ, zero, suc, ◌-◌, ◌*◌, ◌≤◌, ◌<◌, ◌≡◌, ◌≢◌, inr, subst, ◌∙◌, List, Bool, false, some, Option,
  if◌then◌else◌, get_elem?, get_elem?_total, length, ℤ, ◌≤ℤ◌, arith, dec_lt, ℕ_discrete,
}
use native.Mathlib.Nat.{suc-mul}
use mathlib.Core.List.{Perm}
use mathlib.Core.List.Perm
use system_device_programmin.Regions.{Numbers, region_length, region_right, rounds, ◌>>=◌}
use system_device_programmin.Regions.Swaps.{
  Swaps, inversions, Swaps-perm, Swaps-inversions, Swaps-length,
}
use system_device_programmin.Regions.Sift.{Ascending}
use system_device_programmin.Regions.Borders.{
  InOrder, Crossed, none_crossed, crossed, borders-Crossed, len_pos,
}
use system_device_programmin.Regions.Round.{RegionAscends, bounds, sort_all-Ascending}

-- Two parts that ascend, with their border in order.
glue :
    (m r : ℕ) (v : Numbers)
    → r ≤ length v
    → Ascending 0 m v
    → Ascending m r v
    → (0 < m → (x y : ℤ) → get_elem? v (m - 1) ≡ some x → get_elem? v m ≡ some y → x ≤ℤ y)
    → Ascending 0 r v
glue m r v room low high border a b x y la ab br ea eb = elim (dec_lt b m) [
  | yes left_of ↦ low a b x y la ab left_of ea eb
  | no right_of ↦ elim (dec_lt a m) [
    | no behind_too ↦ high a b x y (omega arith) ab br ea eb
    | yes lt ↦
        let (p, ep) = get_elem?_total v (m - 1) (omega arith) in
        let (q, eq) = get_elem?_total v m (omega arith) in
        let mid : p ≤ℤ q = border (omega arith) p q ep eq in
        let before : x ≤ℤ p = elim (ℕ_discrete a (m - 1)) [
          | yes e ↦ ground (arith, e)
          | no ne ↦ low a (m - 1) x p (omega arith) (omega arith) (omega arith) ea ep
        ] in
        let behind : q ≤ℤ y = elim (ℕ_discrete b m) [
          | yes e ↦ ground (arith, e)
          | no ne ↦ high m b q y (omega arith) (omega arith) br eq eb
        ] in
        omega arith
  ]
]

-- Every thread sorts its region in each round, and no other thread does.
pub record IsOrder (nthreads : ℕ) (order : List ℕ) : Type 0 where
  pub threads : (p i : ℕ) → get_elem? order p ≡ some i → i < nthreads
  pub all : (i : ℕ) → i < nthreads → (p : ℕ) × (get_elem? order p ≡ some i)

-- What the last thread at the barrier prints: the same numbers, all of them ascending.
pub data Sorted (n : ℕ) (v : Numbers) : Option Numbers → Type 0 where
  sorted : {w : Numbers} → Ascending 0 n w → Perm v w → Sorted n v (some w)

Sorted-before :
    {n k : ℕ} {u v : Numbers} {o : Option Numbers} → Swaps 0 n k u v → Sorted n v o → Sorted n u o
Sorted-before s (sorted asc same) = sorted asc (Perm.trans (Swaps-perm s) same)

module _ (nthreads n : ℕ) (some_thread : 0 < nthreads) (enough : nthreads ≤ n) where
  module _ (v : Numbers) (size : length v ≡ n)
      (regions : (i : ℕ) → i < nthreads → RegionAscends nthreads n some_thread enough v i)
      (in_order : (j : ℕ) → 1 ≤ j → j < nthreads → InOrder nthreads n some_thread enough v j) where
    border :
        (m : ℕ)
        → m < nthreads
        → 0 < m * region_length nthreads n
        → InOrder nthreads n some_thread enough v m
    border zero lt none_before = absurd (omega arith)
    border (suc m) lt _ = in_order (suc m) (omega arith) lt

    -- The first `m` regions, the last one not among them.
    first : (m : ℕ) → m < nthreads → Ascending 0 (m * region_length nthreads n) v
    first zero lt = λ a b x y la ab br. absurd (omega arith)
    first (suc m) lt =
        let end : suc (region_right nthreads n m) ≡ suc m * region_length nthreads n =
          (let next = suc-mul m (region_length nthreads n) in
            let pos_len = len_pos nthreads n some_thread enough in
            let below : m ≢ nthreads - 1 = omega arith in ground (arith, next, pos_len)) in
        let room = (bounds nthreads n some_thread enough m (omega arith)).1 in
        subst (λ c. Ascending 0 c v) end
          (glue (m * region_length nthreads n) (suc (region_right nthreads n m)) v
            (omega (arith, room, size)) (first m (omega arith)) (regions m (omega arith))
            (border m (omega arith)))

    pub whole : Ascending 0 n v
    whole =
        let last = nthreads - 1 in
        let end : suc (region_right nthreads n last) ≡ n = ground arith in
        subst (λ c. Ascending 0 c v) end
          (glue (last * region_length nthreads n) (suc (region_right nthreads n last)) v
            (omega (arith, size, end)) (first last (omega arith)) (regions last (omega arith))
            (border last (omega arith)))

  module _ (orders : ℕ → List ℕ) (valid : (r : ℕ) → IsOrder nthreads (orders r)) where
    -- Behind the barrier: the next round, or the end.
    behind_barrier :
        (w : Numbers) (fuel r : ℕ)
        → length w ≡ n
        → ((i : ℕ) → i < nthreads → RegionAscends nthreads n some_thread enough w i)
        → inversions w < suc fuel
        → ((v : Numbers)
            → length v ≡ n
            → inversions v < fuel
            → Sorted n v (rounds nthreads n orders fuel r v))
        → {o : Option (Numbers × Bool)}
        → Crossed nthreads n some_thread enough 1 (nthreads - 1) false w o
        → Sorted n w
            (o >>= λ (v, swapped). (if swapped then rounds nthreads n orders fuel r v else some v))
    behind_barrier w fuel r size regions few next (none_crossed in_order) =
        sorted (whole w size regions (λ j lo hi. in_order j lo (omega arith))) Perm.rfl
    behind_barrier w fuel r size regions few next (crossed {w = v} some_swap s) =
        Sorted-before s (next v (Swaps-length s ∙ size) (omega (arith, Swaps-inversions s)))

    -- Where there are at least as many numbers as threads the program ends: with more rounds than
    -- there are pairs in the wrong order, and in whatever order the threads run, no access leaves the
    -- file, and in the end the same numbers stand there, all of them ascending.
    pub rounds-Sorted :
        (fuel r : ℕ) (v : Numbers)
        → length v ≡ n
        → inversions v < fuel
        → Sorted n v (rounds nthreads n orders fuel r v)
    unfolding rounds
    rounds-Sorted zero r v size few = absurd (omega arith)
    rounds-Sorted (suc fuel) r v size few =
        let (k, w, e, s, asc) =
          sort_all-Ascending nthreads n some_thread enough (orders r) v size (valid r).threads in
        let size' : length w ≡ n = Swaps-length s ∙ size in
        rw e (
          Sorted-before s (
            behind_barrier w fuel (suc r) size' (λ i lt. asc i lt (inr ((valid r).all i lt)))
              (omega (arith, few, Swaps-inversions s)) (rounds-Sorted fuel (suc r))
              (borders-Crossed nthreads n some_thread enough (nthreads - 1) 1 false w size'
                (omega arith) (omega arith))))
