-- ===== src/Merge/Sorts.antt =====
-- `mergeSort` of Lab2/merge.c.
use system_device_programmin.Base.{
  ℕ, zero, suc, ◌+◌, ◌-◌, ◌/◌, ◌≤◌, ◌<◌, ◌≡◌, refl, sym, ap, ◌∙◌, subst, List, [], ◌∷◌, ◌++◌,
  Option, none, some, length, take, drop, ℤ, arith, Option-cases, inl, inr, ℕ_discrete,
  length-append, length-take, length-drop,
}
use mathlib.Core.List.{append_assoc, Perm}
use mathlib.Core.List.Perm
use system_device_programmin.Merge.{merge, merge_sort}
use system_device_programmin.Merge.Ascending.{
  IsAscending, empty, step, Merged-IsAscending, Merged-perm, Merged-length,
}
use system_device_programmin.Merge.Once.{merge-Merged, merge-overrun}

pub take-drop : (n : ℕ) (xs : List ℤ) → take n xs ++ drop n xs ≡ xs
take-drop zero xs = refl
take-drop (suc n) [] = refl
take-drop (suc n) (x ∷ xs) = ap (◌∷◌ x) (take-drop n xs)

module _ (pad : ℕ) (junk : ℤ) where
  pub single : (seg : List ℤ) → length seg ≡ 1 → IsAscending seg
  single [] e = absurd (omega arith)
  single (x ∷ []) e = (x, step (omega arith) empty)
  single (x ∷ y ∷ seg) e = absurd (omega arith)

  -- What `mergeSort` has done.
  abbrev Sorted : List ℤ → List ℤ → List ℤ → Option (List ℤ) → Type 0
  Sorted before seg after o =
      (zs : List ℤ) × IsAscending zs
      × Perm seg zs
      × (length zs ≡ length seg)
      × (o ≡ some (before ++ (zs ++ after)))

  composed :
      (fuel left middle right : ℕ) (v0 v1 v2 v3 : List ℤ)
      → left < right
      → middle ≡ left + (right - left) / 2
      → merge_sort pad junk fuel left middle v0 ≡ some v1
      → merge_sort pad junk fuel (middle + 1) right v1 ≡ some v2
      → merge pad junk left middle right v2 ≡ some v3
      → merge_sort pad junk (suc fuel) left right v0 ≡ some v3
  unfolding merge_sort
  composed fuel left middle right v0 v1 v2 v3 lt em e1 e2 e3 = ground arith

  -- The two halves and then their merge, for the cells `s1` and `s2`.
  joined :
      (fuel left middle right : ℕ) (before s1 s2 after : List ℤ)
      → 0 < pad
      → 0 < length after
      → left ≡ length before
      → left < right
      → middle ≡ left + (right - left) / 2
      → length s1 ≡ middle + 1 - left
      → length s2 ≡ right - middle
      → Sorted before s1
          (s2 ++ after)
          (merge_sort pad junk fuel left middle (before ++ (s1 ++ (s2 ++ after))))
      → ((z1 : List ℤ)
          → length z1 ≡ length s1
          → Sorted
              (before ++ z1)
              s2
              after
              (merge_sort pad junk fuel (middle + 1) right ((before ++ z1) ++ (s2 ++ after))))
      → Sorted before
          (s1 ++ s2)
          after
          (merge_sort pad junk (suc fuel) left right (before ++ ((s1 ++ s2) ++ after)))
  joined fuel left middle right before s1 s2 after room behind el lt em size1 size2
        (z1, a1, p1, l1, e1) second =
      let (z2, a2, p2, l2, e2) = second z1 l1 in
      let (zs, m, e3) =
        merge-Merged pad junk left middle right before z1 z2 after room behind el (omega arith)
          (omega arith) (omega arith) in
      (
        zs,
        Merged-IsAscending {xs = z1} {ys = z2} {zs = zs} a1 a2 m,
        Perm.trans {l₂ = z1 ++ z2} (Perm.append p1 p2)
            (Merged-perm {xs = z1} {ys = z2} {zs = zs} m),
        omega (arith, Merged-length m, length-append s1 s2),
        composed fuel left middle right _ _ _ _ lt em
            (ap (λ w. merge_sort pad junk fuel left middle (before ++ w)) (append_assoc s1 s2 after)
              ∙ e1)
            (ap (merge_sort pad junk fuel (middle + 1) right)
                (sym (append_assoc before z1 (s2 ++ after)))
              ∙ e2
              ∙ ap some (
                  append_assoc before z1 (z2 ++ after)
                  ∙ ap (λ w. before ++ w) (sym (append_assoc z1 z2 after))))
            e3,
      )

  sorts :
      (fuel left right : ℕ) (before seg after : List ℤ)
      → 0 < pad
      → 0 < length after
      → left ≡ length before
      → left ≤ right
      → left + length seg ≡ right + 1
      → right ≤ left + fuel
      → Sorted before seg after (merge_sort pad junk fuel left right (before ++ (seg ++ after)))
  unfolding merge_sort
  sorts zero left right before seg after room behind el le size enough =
      (seg, single seg (omega arith), Perm.rfl, refl, ground arith)
  sorts (suc fuel) left right before seg after room behind el le size enough =
      elim (ℕ_discrete left right) [
        | yes e ↦ (seg, single seg (omega arith), Perm.rfl, refl, ground arith)
        | no ne ↦
            let middle = left + (right - left) / 2 in
            let n = (right - left) / 2 + 1 in
            let len1 : length (take n seg) ≡ middle + 1 - left = omega (arith, length-take n seg) in
            let len2 : length (drop n seg) ≡ right - middle = omega (arith, length-drop n seg) in
            subst
              (λ w.
                Sorted before w after
                  (merge_sort pad junk (suc fuel) left right (before ++ (w ++ after))))
              (take-drop n seg)
              (joined fuel left middle right before (take n seg) (drop n seg) after room behind el
                (omega arith) refl len1 len2
                (sorts fuel left middle before (take n seg) (drop n seg ++ after) room
                  (omega (arith, length-append (drop n seg) after)) el (omega arith) (omega arith)
                  (omega arith))
                (λ z1 l1.
                  sorts fuel (middle + 1) right (before ++ z1) (drop n seg) after room behind
                    (omega (arith, length-append before z1)) (omega arith) (omega arith)
                    (omega arith)))
      ]

  -- `mergeSort` of the cells `left` to `right`, with a cell behind `vet` and behind each temporary
  -- array, and fuel for as many levels as there are cells: it ends inside the arrays, the cells then
  -- hold the same values in ascending order, and no other cell has changed.
  pub merge_sort-IsAscending :
      (fuel left right : ℕ) (before seg after : List ℤ)
      → 0 < pad
      → 0 < length after
      → left ≡ length before
      → left ≤ right
      → left + length seg ≡ right + 1
      → right ≤ left + fuel
      → (zs : List ℤ) × IsAscending zs
        × Perm seg zs
        × (merge_sort pad junk fuel left right (before ++ (seg ++ after))
            ≡ some (before ++ (zs ++ after)))
  merge_sort-IsAscending fuel left right before seg after room behind el le size enough =
      let (zs, a, p, _, e) = sorts fuel left right before seg after room behind el le size enough in
      (zs, a, p, e)

-- Without a cell behind the temporary arrays, `mergeSort` of two cells or more always writes outside
-- them.
pub merge_sort-overrun :
    (fuel left right : ℕ) (junk : ℤ) (vet : List ℤ)
    → left < right
    → merge_sort 0 junk fuel left right vet ≡ none
unfolding merge_sort
merge_sort-overrun zero left right junk vet lt = ground arith
merge_sort-overrun (suc fuel) left right junk vet lt =
    let middle = left + (right - left) / 2 in
    elim (Option-cases (merge_sort 0 junk fuel left middle vet)) [
      | inl e ↦ ground arith
      | inr (v1, e1) ↦ elim (Option-cases (merge_sort 0 junk fuel (middle + 1) right v1)) [
        | inl e ↦ ground arith
        | inr (v2, e2) ↦ ground (arith, merge-overrun left middle right junk v2)
      ]
    ]
