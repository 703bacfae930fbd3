-- ===== src/Merge/Once.antt =====
-- `merge` of Lab2/merge.c merges its halves when there is a cell behind each array, and leaves the
-- temporary arrays when there is none.
use system_device_programmin.Base.{
  ℕ, zero, suc, ◌+◌, ◌-◌, ◌<◌, ◌≡◌, refl, sym, ap, ◌∙◌, subst, List, [], ◌∷◌, ◌++◌, none, some,
  length, get_elem?, replicate, ℤ, arith, length-append, length-replicate,
}
use mathlib.Core.List.{append_assoc}
use system_device_programmin.Merge.{merge}
use system_device_programmin.Merge.Ascending.{Merged}
use system_device_programmin.Merge.Copy.{Begins, copy_loop-copies, copy_loop-overrun}
use system_device_programmin.Merge.Loops.{merge_loop-Merged}

pub get_elem?-behind :
    (before tail : List ℤ) (i m : ℕ)
    → i ≡ length before + m
    → get_elem? (before ++ tail) i ≡ get_elem? tail m
get_elem?-behind [] tail i m e = ground arith
get_elem?-behind (x ∷ before) tail zero m e = absurd (omega arith)
get_elem?-behind (x ∷ before) tail (suc i) m e = get_elem?-behind before tail i m (omega arith)

get_elem?-front :
    (xs tail : List ℤ) (m : ℕ) → m < length xs → get_elem? (xs ++ tail) m ≡ get_elem? xs m
get_elem?-front [] tail m lt = absurd (omega arith)
get_elem?-front (x ∷ xs) tail zero lt = refl
get_elem?-front (x ∷ xs) tail (suc m) lt = get_elem?-front xs tail m (omega arith)

-- A copy of the cells that hold `xs`.
copied :
    (a : List ℤ) (off : ℕ) (before xs tail : List ℤ)
    → off ≡ length before
    → ((m : ℕ)
        → m < length xs + 1
        → get_elem? a (0 + m) ≡ get_elem? (before ++ (xs ++ tail)) (off + (0 + m)))
    → Begins a 0 xs
copied a off before xs tail e same m lt = ground (
  arith,
  same m (omega arith),
  get_elem?-behind before (xs ++ tail) (off + m) m (omega arith),
  get_elem?-front xs tail m lt,
)

module _ (pad : ℕ) (junk : ℤ) where
  pub merge-Merged :
      (left middle right : ℕ) (before xs ys after : List ℤ)
      → 0 < pad
      → 0 < length after
      → left ≡ length before
      → middle + 1 ≡ left + length xs
      → right ≡ middle + length ys
      → 0 < length xs
      → (zs : List ℤ) × Merged xs ys zs
        × (merge pad junk left middle right (before ++ ((xs ++ ys) ++ after))
            ≡ some (before ++ (zs ++ after)))
  unfolding merge
  merge-Merged left middle right before xs ys after room behind el em er some_left =
      let vet = before ++ ((xs ++ ys) ++ after) in
      let size : length vet ≡ length before + (length xs + length ys + length after) = omega (
        arith,
        length-append before ((xs ++ ys) ++ after),
        length-append (xs ++ ys) after,
        length-append xs ys,
      ) in
      let (l, e1, same_l, _) =
        copy_loop-copies (length xs + 1) 0 left vet (replicate (length xs + pad) junk) (omega arith)
          (omega (arith, length-replicate (length xs + pad) junk)) in
      let (r, e2, same_r, _) =
        copy_loop-copies (length ys + 1) 0 (middle + 1) vet (replicate (length ys + pad) junk)
          (omega arith) (omega (arith, length-replicate (length ys + pad) junk)) in
      let split_l : vet ≡ before ++ (xs ++ (ys ++ after)) =
        ap (λ w. before ++ w) (append_assoc xs ys after) in
      let split_r : vet ≡ (before ++ xs) ++ (ys ++ after) =
        split_l ∙ sym (append_assoc before xs (ys ++ after)) in
      let n1 : middle + 1 - left ≡ length xs = omega arith in
      let n2 : right - middle ≡ length ys = omega arith in
      let (zs, m, e3) =
        merge_loop-Merged l r (length xs) (length ys) after (length xs + length ys + 1) 0 0 left xs
          ys before (xs ++ ys)
          (record {
            begins_l = copied l left before xs (ys ++ after) el (
                subst
                  (λ w.
                    (m : ℕ)
                    → m < length xs + 1
                    → get_elem? l (0 + m) ≡ get_elem? w (left + (0 + m)))
                  split_l same_l);
            begins_r =
                copied r (middle + 1) (before ++ xs) ys after
                  (omega (arith, length-append before xs))
                  (subst
                    (λ w.
                      (m : ℕ)
                      → m < length ys + 1
                      → get_elem? r (0 + m) ≡ get_elem? w (middle + 1 + (0 + m)))
                    split_r same_r);
            rest_l = omega arith;
            rest_r = omega arith;
            at_k = el;
            room = length-append xs ys;
          })
          (omega arith) in
      (zs, m, ground (arith, n1, n2, e1, e2, e3))

pub merge-overrun :
    (left middle right : ℕ) (junk : ℤ) (vet : List ℤ) → merge 0 junk left middle right vet ≡ none
unfolding merge
merge-overrun left middle right junk vet =
    let n1 = middle + 1 - left in
    ground (
      arith,
      copy_loop-overrun n1 0 left vet (replicate (n1 + 0) junk)
          (omega (arith, length-replicate (n1 + 0) junk)),
    )
