-- ===== src/Regions/Round.antt =====
-- A round of the threads in Lab4/Lab4_2.c: each sorts its region, in any order.
use system_device_programmin.Base.{
  ℕ, zero, suc, ◌+◌, ◌-◌, ◌≤◌, ◌<◌, ◌≡◌, ◌≢◌, ◌⊎◌, inl, inr, refl, sym, subst, ◌∙◌, List, [], ◌∷◌,
  some, get_elem?, length, arith, ℕ_discrete, dec_lt,
}
use native.Mathlib.Nat.{suc-mul}
use system_device_programmin.Regions.{Numbers, sort_all, region_length, region_left, region_right}
use system_device_programmin.Regions.Swaps.{
  Swaps, same, Swaps-length, Swaps-append, Swaps-widen, Swaps-outside,
}
use system_device_programmin.Regions.Sift.{Ascending, sort_region-Ascending}
use system_device_programmin.Regions.Borders.{len_pos, before_next, inside_file}

module _ (nthreads n : ℕ) (some_thread : 0 < nthreads) (enough : nthreads ≤ n) where
  -- Behind the region `i`.
  abbrev pub region_end : ℕ → ℕ
  region_end i = suc (region_right nthreads n i)

  abbrev pub RegionAscends : Numbers → ℕ → Type 0
  RegionAscends v i = Ascending (region_left nthreads n i) (region_end i) v

  pub bounds :
      (i : ℕ)
      → i < nthreads
      → (region_left nthreads n i ≤ region_right nthreads n i) × (region_end i ≤ n)
  bounds i lt =
      let room = inside_file nthreads n some_thread enough i lt in
      let pos_len = len_pos nthreads n some_thread enough in
      let next = suc-mul i (region_length nthreads n) in
      elim (ℕ_discrete i (nthreads - 1)) [
        | yes e ↦ (ground (arith, room, pos_len), ground (arith, room, pos_len))
        | no ne ↦ (ground (arith, room, pos_len, next), ground (arith, room, pos_len, next))
      ]

  apart : (i j : ℕ) → i < j → j < nthreads → region_end i ≤ region_left nthreads n j
  apart i j lt lt' =
      let further = before_next nthreads n some_thread enough i j lt in
      let pos_len = len_pos nthreads n some_thread enough in
      let next = suc-mul i (region_length nthreads n) in
      let below : i ≢ nthreads - 1 = omega arith in ground (arith, further, pos_len, next)

  -- The exchanges in one region leave the others as they are.
  pub keeps :
      {k : ℕ} {v w : Numbers} (i j : ℕ)
      → i ≢ j
      → i < nthreads
      → j < nthreads
      → Swaps (region_left nthreads n i) (region_end i) k v w
      → RegionAscends v j
      → RegionAscends w j
  keeps i j ne li lj s h a b x y la ab br ea eb =
      h a b x y la ab br (sym (Swaps-outside a s (outside a la (omega arith))) ∙ ea)
        (sym (Swaps-outside b s (outside b (omega arith) br)) ∙ eb)
    where
      outside :
          (c : ℕ)
          → region_left nthreads n j ≤ c
          → c < region_end j
          → (c < region_left nthreads n i) ⊎ (region_end i ≤ c)
      outside c lc cr = elim (dec_lt i j) [
        | yes lt ↦ inr (omega (arith, apart i j lt lj))
        | no ge ↦ inl (omega (arith, apart j i (omega arith) li))
      ]

  -- Its own thread has sorted a region, or it is as it was and may still come.
  passed :
      {k : ℕ} (i : ℕ) (order : List ℕ) (v w : Numbers) (j : ℕ)
      → i < nthreads
      → j < nthreads
      → Swaps (region_left nthreads n i) (region_end i) k v w
      → RegionAscends w i
      → RegionAscends v j ⊎ ((p : ℕ) × (get_elem? (i ∷ order) p ≡ some j))
      → RegionAscends w j ⊎ ((p : ℕ) × (get_elem? order p ≡ some j))
  passed i order v w j li lj s asc (inl h) = elim (ℕ_discrete i j) [
    | yes e ↦ inl (subst (λ c. RegionAscends w c) e asc)
    | no ne ↦ inl (keeps i j ne li lj s h)
  ]
  passed i order v w j li lj s asc (inr (zero, at)) =
      inl (subst (λ c. RegionAscends w c) (ground arith) asc)
  passed i order v w j li lj s asc (inr (suc p, at)) = inr (p, at)

  pub sort_all-Ascending :
      (order : List ℕ) (v : Numbers)
      → length v ≡ n
      → ((p i : ℕ) → get_elem? order p ≡ some i → i < nthreads)
      → (k : ℕ) × (w : Numbers) × (sort_all nthreads n order v ≡ some w)
        × Swaps 0 n k v w
        × ((i : ℕ)
            → i < nthreads
            → RegionAscends v i ⊎ ((p : ℕ) × (get_elem? order p ≡ some i))
            → RegionAscends w i)
  unfolding sort_all
  sort_all-Ascending [] v size inside =
      (0, v, refl, same, λ i lt o. elim o [ inl h ↦ h | inr h ↦ absurd (ground (arith, h.1)) ])
  sort_all-Ascending (i ∷ order) v size inside =
      let lt = inside 0 i refl in
      let (le, room) = bounds i lt in
      let (k, w, e, s, asc) =
        sort_region-Ascending (region_left nthreads n i) (region_right nthreads n i) v le
          (omega arith) in
      let (k', w', e', s', asc') =
        sort_all-Ascending order w (omega (arith, Swaps-length s))
          (λ p j at. inside (suc p) j at) in
      (
        k + k',
        w',
        ground (arith, e, e'),
        Swaps-append (Swaps-widen (omega arith) room s) s',
        λ j lj o. asc' j lj (passed i order v w j lt lj s asc o),
      )
