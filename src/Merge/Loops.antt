-- ===== src/Merge/Loops.antt =====
-- The loops of `merge` in Lab2/merge.c that write the result back.
use system_device_programmin.Base.{
  ℕ, zero, suc, ◌+◌, ◌-◌, ◌<◌, ◌≡◌, refl, ap, ◌∙◌, List, [], ◌∷◌, ◌++◌, some, length, get_elem?,
  set, ℤ, ltb_ℤ, arith, length-append, Bool-cases, inl, inr, true, false,
}
use mathlib.Core.List.{append_assoc}
use system_device_programmin.Merge.{rest_loop, merge_loop}
use system_device_programmin.Merge.Ascending.{Merged, only_left, only_right, left, right}
use system_device_programmin.Merge.Copy.{Begins}

Begins-head :
    (a : List ℤ) (i : ℕ) (x : ℤ) (xs : List ℤ) → Begins a i (x ∷ xs) → get_elem? a i ≡ some x
Begins-head a i x xs b = ground (arith, b 0 (omega arith))

Begins-tail : (a : List ℤ) (i : ℕ) (x : ℤ) (xs : List ℤ) → Begins a i (x ∷ xs) → Begins a (i + 1) xs
Begins-tail a i x xs b m lt = ground (arith, b (m + 1) (omega arith))

-- A store to the first cell behind `done`.
pub set-append :
    (before : List ℤ) (g v : ℤ) (tail : List ℤ) (k : ℕ)
    → k ≡ length before
    → set (before ++ g ∷ tail) k v ≡ (before ++ v ∷ []) ++ tail
set-append [] g v tail k e = ground arith
set-append (x ∷ before) g v tail zero e = absurd (ground arith)
set-append (x ∷ before) g v tail (suc k) e = ap (◌∷◌ x) (set-append before g v tail k (omega arith))

rest_loop_lem :
    (n i k : ℕ) (a xs before gap after : List ℤ)
    → Begins a i xs
    → n ≡ length xs
    → k ≡ length before
    → length gap ≡ length xs
    → rest_loop n a i k (before ++ (gap ++ after)) ≡ some (before ++ (xs ++ after))
unfolding rest_loop
rest_loop_lem zero i k a [] before [] after b en ek size = refl
rest_loop_lem zero i k a [] before (g ∷ gap) after b en ek size = absurd (omega arith)
rest_loop_lem zero i k a (x ∷ xs) before gap after b en ek size = absurd (omega arith)
rest_loop_lem (suc n) i k a [] before gap after b en ek size = absurd (omega arith)
rest_loop_lem (suc n) i k a (x ∷ xs) before [] after b en ek size = absurd (omega arith)
rest_loop_lem (suc n) i k a (x ∷ xs) before (g ∷ gap) after b en ek size =
    let ih =
      rest_loop_lem n (i + 1) (k + 1) a xs (before ++ x ∷ []) gap after (Begins-tail a i x xs b)
        (omega arith) (omega (arith, length-append before (x ∷ []))) (omega arith) in
    ground (
      arith,
      Begins-head a i x xs b,
      length-append before (g ∷ (gap ++ after)),
      set-append before g x (gap ++ after) k ek,
      ih,
      append_assoc before (x ∷ []) (xs ++ after),
    )

-- The state of the first loop: `xs` and `ys` are still to be merged, to where `gap` is.
pub record Ready (l r : List ℤ) (n1 n2 i j k : ℕ) (xs ys before gap : List ℤ) : Type 0 where
  pub begins_l : Begins l i xs
  pub begins_r : Begins r j ys
  pub rest_l : i + length xs ≡ n1
  pub rest_r : j + length ys ≡ n2
  pub at_k : k ≡ length before
  pub room : length gap ≡ length xs + length ys

module _ (l r : List ℤ) (n1 n2 : ℕ) (after : List ℤ) where
  no_left :
      (fuel i j k : ℕ) (ys before gap : List ℤ)
      → Ready l r n1 n2 i j k [] ys before gap
      → merge_loop (suc fuel) l r n1 n2 i j k (before ++ (gap ++ after))
        ≡ some (before ++ (ys ++ after))
  unfolding merge_loop rest_loop
  no_left fuel i j k ys before gap s = ground (
    arith,
    s.rest_l,
    s.rest_r,
    rest_loop_lem (n2 - j) j (k + (n1 - i)) r ys before gap after s.begins_r
        (omega (arith, s.rest_r)) (omega (arith, s.at_k, s.rest_l)) (omega (arith, s.room)),
  )

  no_right :
      (fuel i j k : ℕ) (xs before gap : List ℤ)
      → Ready l r n1 n2 i j k xs [] before gap
      → merge_loop (suc fuel) l r n1 n2 i j k (before ++ (gap ++ after))
        ≡ some (before ++ (xs ++ after))
  unfolding merge_loop rest_loop
  no_right fuel i j k xs before gap s = ground (
    arith,
    s.rest_l,
    s.rest_r,
    rest_loop_lem (n1 - i) i k l xs before gap after s.begins_l (omega (arith, s.rest_l)) s.at_k
        (omega (arith, s.room)),
  )

  take_left :
      (fuel i j k : ℕ) (x y g : ℤ) (xs ys before gap : List ℤ)
      → Ready l r n1 n2 i j k (x ∷ xs) (y ∷ ys) before (g ∷ gap)
      → ltb_ℤ y x ≡ false
      → merge_loop (suc fuel) l r n1 n2 i j k (before ++ (g ∷ (gap ++ after)))
        ≡ merge_loop fuel l r n1 n2 (i + 1) j (k + 1) ((before ++ x ∷ []) ++ (gap ++ after))
  unfolding merge_loop
  take_left fuel i j k x y g xs ys before gap s le = ground (
    arith,
    s.rest_l,
    s.rest_r,
    s.at_k,
    Begins-head l i x xs s.begins_l,
    Begins-head r j y ys s.begins_r,
    length-append before (g ∷ (gap ++ after)),
    set-append before g x (gap ++ after) k s.at_k,
  )

  take_right :
      (fuel i j k : ℕ) (x y g : ℤ) (xs ys before gap : List ℤ)
      → Ready l r n1 n2 i j k (x ∷ xs) (y ∷ ys) before (g ∷ gap)
      → ltb_ℤ y x ≡ true
      → merge_loop (suc fuel) l r n1 n2 i j k (before ++ (g ∷ (gap ++ after)))
        ≡ merge_loop fuel l r n1 n2 i (j + 1) (k + 1) ((before ++ y ∷ []) ++ (gap ++ after))
  unfolding merge_loop
  take_right fuel i j k x y g xs ys before gap s lt = ground (
    arith,
    s.rest_l,
    s.rest_r,
    s.at_k,
    Begins-head l i x xs s.begins_l,
    Begins-head r j y ys s.begins_r,
    length-append before (g ∷ (gap ++ after)),
    set-append before g y (gap ++ after) k s.at_k,
  )

  pub merge_loop-Merged :
      (fuel i j k : ℕ) (xs ys before gap : List ℤ)
      → Ready l r n1 n2 i j k xs ys before gap
      → length xs + length ys < fuel
      → (zs : List ℤ) × Merged xs ys zs
        × (merge_loop fuel l r n1 n2 i j k (before ++ (gap ++ after))
            ≡ some (before ++ (zs ++ after)))
  merge_loop-Merged zero i j k xs ys before gap s lt = absurd (omega arith)
  merge_loop-Merged (suc fuel) i j k [] ys before gap s lt =
      (ys, only_right, no_left fuel i j k ys before gap s)
  merge_loop-Merged (suc fuel) i j k (x ∷ xs) [] before gap s lt =
      (x ∷ xs, only_left, no_right fuel i j k (x ∷ xs) before gap s)
  merge_loop-Merged (suc fuel) i j k (x ∷ xs) (y ∷ ys) before [] s lt =
      absurd (omega (arith, s.room))
  merge_loop-Merged (suc fuel) i j k (x ∷ xs) (y ∷ ys) before (g ∷ gap) s lt =
      elim (Bool-cases (ltb_ℤ y x)) [
        | inl less ↦
            let (zs, m, e) =
              merge_loop-Merged fuel i (j + 1) (k + 1) (x ∷ xs) ys (before ++ y ∷ []) gap
                (record {
                  begins_l = s.begins_l;
                  begins_r = Begins-tail r j y ys s.begins_r;
                  rest_l = s.rest_l;
                  rest_r = omega (arith, s.rest_r);
                  at_k = omega (arith, s.at_k, length-append before (y ∷ []));
                  room = omega (arith, s.room);
                })
                (omega arith) in
            (
              y ∷ zs,
              right (ground arith) m,
              take_right fuel i j k x y g xs ys before gap s less
                  ∙ e
                  ∙ ap some (append_assoc before (y ∷ []) (zs ++ after)),
            )
        | inr ge ↦
            let (zs, m, e) =
              merge_loop-Merged fuel (i + 1) j (k + 1) xs (y ∷ ys) (before ++ x ∷ []) gap
                (record {
                  begins_l = Begins-tail l i x xs s.begins_l;
                  begins_r = s.begins_r;
                  rest_l = omega (arith, s.rest_l);
                  rest_r = s.rest_r;
                  at_k = omega (arith, s.at_k, length-append before (x ∷ []));
                  room = omega (arith, s.room);
                })
                (omega arith) in
            (
              x ∷ zs,
              left (ground arith) m,
              take_left fuel i j k x y g xs ys before gap s ge
                  ∙ e
                  ∙ ap some (append_assoc before (x ∷ []) (zs ++ after)),
            )
      ]
