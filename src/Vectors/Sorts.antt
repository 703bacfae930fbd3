-- ===== src/Vectors/Sorts.antt =====
-- What `sort` of Lab1/Lab1.1.c leaves, and what its `main` writes.
use system_device_programmin.Base.{
  ℕ, zero, suc, ◌+◌, ◌-◌, ◌≤◌, ◌<◌, ◌≡◌, refl, subst, ap, if◌then◌else◌, ◌++◌, inl, inr, List, [],
  ◌∷◌, Bool, true, Option, none, some, get_elem?_total, length, length-set, set, ℤ, ltb_ℤ, arith,
  Bool-cases,
}
use mathlib.Core.List.Perm
use system_device_programmin.Regions
use system_device_programmin.Regions.{sift, ◌>>=◌}
use system_device_programmin.Regions.Swaps.{Swaps-perm}
use system_device_programmin.Regions.Sift.{sort_region-Ascending}
use system_device_programmin.Regions.Sorted.{Sorted, sorted}
use system_device_programmin.Vectors.{
  exchange, down, sort_from, sort, Name, fv1_txt, fv2_txt, fv1_b, fv2_b, Files, write, write_binary,
  random_fill, main,
}

module _ (b : ℤ) where
  down-sift :
      (t : ℕ) (v : List ℤ)
      → t < length v
      → (w : List ℤ) × (down (some b) t v ≡ some w) × (sift 0 t v ≡ some w) × (length w ≡ length v)
  unfolding down sift Regions.swap exchange
  down-sift zero v lt =
      let (y, ey) = get_elem?_total v zero lt in (v, ground (arith, ey), refl, refl)
  down-sift (suc t) v lt =
      let (x, ex) = get_elem?_total v t (omega arith) in
      let (y, ey) = get_elem?_total v (suc t) lt in
      elim (Bool-cases (ltb_ℤ y x)) [
        | inl smaller ↦
            let v' = set (set v t y) (suc t) x in
            let (w, d, s, len) =
              down-sift t v' (omega (arith, length-set (set v t y) (suc t) x, length-set v t y)) in
            (
              w,
              ground (arith, ex, ey, smaller, d),
              ground (arith, ex, ey, smaller, s),
              omega (arith, len, length-set (set v t y) (suc t) x, length-set v t y),
            )
        | inr ordered ↦ (v, ground (arith, ex, ey), ground (arith, ex, ey), refl)
      ]

  sort_from-same :
      (n i : ℕ) (v : List ℤ)
      → i + n ≤ length v
      → sort_from (some b) n i v ≡ Regions.sort_loop n i 0 v
  unfolding sort_from Regions.sort_loop
  sort_from-same zero i v room = refl
  sort_from-same (suc n) i v room =
      let (w, d, s, len) = down-sift i v (omega arith) in
      let rest = sort_from-same n (suc i) w (omega (arith, len)) in ground (arith, d, s, rest)

  -- `sort` of a vector whose cell in front can be read leaves the same numbers in ascending order,
  -- whatever that cell holds.
  pub sort-Sorted : (v : List ℤ) → Sorted (length v) v (sort (some b) (length v) v)
  unfolding sort Regions.sort_region
  sort-Sorted [] = sorted (λ a b x y la ab br. absurd (omega arith)) Perm.rfl
  sort-Sorted (x ∷ v) =
      let (k, w, e, s, asc) =
        sort_region-Ascending 0 (length v) (x ∷ v) (omega arith) (omega arith) in
      let same = sort_from-same (suc (length v)) 0 (x ∷ v) (omega arith) in
      let rounds : length v + 1 - 0 ≡ suc (length v) = omega arith in
      let sorts = subst (λ n. Regions.sort_loop n 0 0 (x ∷ v) ≡ some w) rounds e in
      rw (same, sorts) (sorted asc (Swaps-perm s))

-- What `main` leaves when `v1` and `v2` are the sorted vectors.
abbrev pub written : (Name → Bool) → List ℤ → List ℤ → Files
written fopened v1 v2 =
    (if fopened fv1_txt then (fv1_txt, v1) ∷ [] else [])
    ++ (if fopened fv2_txt then (fv2_txt, v2) ∷ [] else [])
    ++ (fv1_b, v1) ∷ (fv2_b, v2) ∷ []

Sorted-some :
    {n : ℕ} {v : List ℤ} {o : Option (List ℤ)}
    → Sorted n v o
    → (w : List ℤ) × (o ≡ some w) × Sorted n v (some w)
Sorted-some (sorted {w} asc same) = (w, refl, sorted asc same)

module _ (rand : ℕ → ℕ) where
  length-random_fill : (range first n k : ℕ) → length (random_fill rand range first n k) ≡ n
  unfolding random_fill
  length-random_fill range first zero k = refl
  length-random_fill range first (suc n) k = ap suc (length-random_fill range first n (k + 1))

  random_fill-Sorted :
      (b : ℤ) (range first n k : ℕ)
      → let v = random_fill rand range first n k in Sorted n v (sort (some b) n v)
  random_fill-Sorted b range first n k =
      let v = random_fill rand range first n k in
      subst (λ m. Sorted m v (sort (some b) m v)) (length-random_fill range first n k)
        (sort-Sorted b v)

  -- Where both binary files can be opened and the cell in front of each vector can be read, `main` of
  -- Lab1.1.c writes both random vectors in ascending order to them, and to each text file that can be
  -- opened.
  pub main_writes :
      (fopened : Name → Bool) (b1 b2 : ℤ) (n1 n2 : ℕ)
      → fopened fv1_b ≡ true
      → fopened fv2_b ≡ true
      → (v1 v2 : List ℤ) × Sorted n1 (random_fill rand 91 10 n1 0) (some v1)
        × Sorted n2 (random_fill rand 81 20 n2 n1) (some v2)
        × (main fopened rand (some b1) (some b2) n1 n2 ≡ some (written fopened v1 v2))
  unfolding main write write_binary
  main_writes fopened b1 b2 n1 n2 o1 o2 =
      let (v1, e1, s1) = Sorted-some (random_fill-Sorted b1 91 10 n1 0) in
      let (v2, e2, s2) = Sorted-some (random_fill-Sorted b2 81 20 n2 n1) in
      (
        v1,
        v2,
        s1,
        s2,
        elim (Bool-cases (fopened fv1_txt)) [
          | inl t1 ↦ elim (Bool-cases (fopened fv2_txt)) [
            | inl t2 ↦ ground (arith, e1, e2, o1, o2, t1, t2)
            | inr t2 ↦ ground (arith, e1, e2, o1, o2, t1, t2)
          ]
          | inr t1 ↦ elim (Bool-cases (fopened fv2_txt)) [
            | inl t2 ↦ ground (arith, e1, e2, o1, o2, t1, t2)
            | inr t2 ↦ ground (arith, e1, e2, o1, o2, t1, t2)
          ]
        ],
      )

-- Where the cell in front of the first vector cannot be read, `main` reads it all the same.
pub sort-below : (x : ℤ) (v : List ℤ) → sort none (length (x ∷ v)) (x ∷ v) ≡ none
unfolding sort sort_from down
sort-below x v = refl
