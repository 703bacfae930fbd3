-- ===== src/Merge/Threads/Orders.antt =====
-- In whatever order the threads of Lab2/Lab2.1.c and Lab2/Lab2.2.c merge, the array is sorted.
use system_device_programmin.Base.{
  ℕ, ◌+◌, ◌-◌, ◌<◌, ◌≤◌, ◌≡◌, refl, sym, ap, subst, List, [], ◌∷◌, ◌++◌, some, length,
  length-append, length-take, length-drop, length-replicate, replicate, take, drop, ℤ, arith,
}
use mathlib.Core.List.{Perm}
use mathlib.Core.List.Perm
use system_device_programmin.Merge.{merge}
use system_device_programmin.Merge.Ascending.{
  IsAscending, Merged, only_left, only_right, left, right, Merged-IsAscending, Merged-perm,
  Merged-length,
}
use system_device_programmin.Merge.Once.{merge-Merged}
use system_device_programmin.Merge.Sorts.{take-drop, single}
use system_device_programmin.Merge.Threads.{
  Merging, Interleaved, half, Run, small, in_turn, in_threads, run,
}
use system_device_programmin.Merge.Threads.Acts.{
  Acts, nothing, merging, Acts-run, Acts-length, Acts-append, Interleaved-Acts, in_turn-Interleaved,
}

Merged-unique : {xs ys zs ws : List ℤ} → Merged xs ys zs → Merged xs ys ws → zs ≡ ws
Merged-unique only_right only_right = refl
Merged-unique only_right only_left = refl
Merged-unique only_left only_right = refl
Merged-unique only_left only_left = refl
Merged-unique (left {x} le m) (left le' m') = ap (◌∷◌ x) (Merged-unique m m')
Merged-unique (left le m) (right lt m') = absurd (omega arith)
Merged-unique (right lt m) (left le m') = absurd (omega arith)
Merged-unique (right {y = y} lt m) (right lt' m') = ap (◌∷◌ y) (Merged-unique m m')

module _ (pad : ℕ) (junk : ℤ) (room : 0 < pad) where
  -- A merge of two parts that stand side by side.
  merge-Acts :
      (l r : ℕ) (xs ys : List ℤ)
      → l < r
      → half l r + 1 ≡ l + length xs
      → r ≡ half l r + length ys
      → (zs : List ℤ) × Merged xs ys zs
        × Acts pad junk l ((record { left = l; middle = half l r; right = r }) ∷ []) (xs ++ ys) zs
  merge-Acts l r xs ys lt em er =
      let (zs, m, _) =
        merge-Merged pad junk l (half l r) r (replicate l junk) xs ys (junk ∷ []) room (omega arith)
          (omega (arith, length-replicate l junk)) em er (omega arith) in
      (
        zs,
        m,
        merging _ (omega (arith, Merged-length m, length-append xs ys))
            (λ before after el behind.
              let (ws, m', e) =
                merge-Merged pad junk l (half l r) r before xs ys after room behind el em er
                  (omega arith) in
              subst
                (λ v.
                  merge pad junk l (half l r) r (before ++ ((xs ++ ys) ++ after))
                  ≡ some (before ++ (v ++ after)))
                (Merged-unique m' m) e)
            nothing,
      )

  -- What a run does to its part.
  abbrev SortedBy : ℕ → List Merging → List ℤ → Type 0
  SortedBy l ms seg = (zs : List ℤ) × IsAscending zs × Perm seg zs × Acts pad junk l ms seg zs

  joined :
      {l r : ℕ} {xs ps cs : List Merging} (seg : List ℤ)
      → l < r
      → l + length seg ≡ r + 1
      → SortedBy l xs (take (half l r + 1 - l) seg)
      → SortedBy (half l r + 1) ps (drop (half l r + 1 - l) seg)
      → Interleaved xs ps cs
      → SortedBy l (cs ++ (record { left = l; middle = half l r; right = r }) ∷ []) seg
  joined {l} {r} {cs = cs} seg lt size (z1, a1, p1, s1) (z2, a2, p2, s2) i =
      let n = half l r + 1 - l in
      let len1 : length (take n seg) ≡ n = omega (arith, length-take n seg) in
      let len2 : length (drop n seg) ≡ r - half l r = omega (arith, length-drop n seg) in
      let (zs, m, s3) =
        merge-Acts l r z1 z2 lt (omega (arith, Acts-length pad junk s1))
          (omega (arith, Acts-length pad junk s2)) in
      let both = Interleaved-Acts pad junk (half l r + 1) i (omega arith) (omega arith) s1 s2 in
      subst (SortedBy l (cs ++ (record { left = l; middle = half l r; right = r }) ∷ []))
        (take-drop n seg)
        (
          zs,
          Merged-IsAscending {xs = z1} {ys = z2} {zs = zs} a1 a2 m,
          Perm.trans {l₂ = z1 ++ z2} (Perm.append p1 p2)
              (Merged-perm {xs = z1} {ys = z2} {zs = zs} m),
          Acts-append pad junk both s3,
        )

  Run-SortedBy :
      {threshold l r : ℕ} {ms : List Merging} (seg : List ℤ)
      → l ≤ r
      → l + length seg ≡ r + 1
      → Run threshold l r ms
      → SortedBy l ms seg
  Run-SortedBy seg le size (small ge) = (seg, single pad junk seg (omega arith), Perm.rfl, nothing)
  Run-SortedBy {l = l} {r} seg le size (in_turn {os = xs} {ps} lt few one other e) =
      subst (λ ms. SortedBy l ms seg) (sym e)
        (joined seg lt size
          (Run-SortedBy (take (half l r + 1 - l) seg) (omega arith)
            (omega (arith, length-take (half l r + 1 - l) seg)) one)
          (Run-SortedBy (drop (half l r + 1 - l) seg) (omega arith)
            (omega (arith, length-drop (half l r + 1 - l) seg)) other)
          (in_turn-Interleaved xs ps))
  Run-SortedBy {l = l} {r} seg le size (in_threads lt many one other i e) =
      subst (λ ms. SortedBy l ms seg) (sym e)
        (joined seg lt size
          (Run-SortedBy (take (half l r + 1 - l) seg) (omega arith)
            (omega (arith, length-take (half l r + 1 - l) seg)) one)
          (Run-SortedBy (drop (half l r + 1 - l) seg) (omega arith)
            (omega (arith, length-drop (half l r + 1 - l) seg)) other)
          i)

  -- With a cell behind each array, `threaded_sort` of the cells `l` to `r` sorts them, in whatever
  -- order its threads merge: no access leaves the arrays, the cells then hold the same values in
  -- ascending order, and no other cell has changed.
  pub threaded_sort-IsAscending :
      {threshold l r : ℕ} {ms : List Merging} (before seg after : List ℤ)
      → Run threshold l r ms
      → l ≤ r
      → l ≡ length before
      → l + length seg ≡ r + 1
      → 0 < length after
      → (zs : List ℤ) × IsAscending zs
        × Perm seg zs
        × (run pad junk ms (before ++ (seg ++ after)) ≡ some (before ++ (zs ++ after)))
  threaded_sort-IsAscending before seg after r le el size behind =
      let (zs, asc, perm, acts) = Run-SortedBy seg le size r in
      (zs, asc, perm, Acts-run pad junk before after acts el behind)
