-- ===== src/Regions/Sift.antt =====
-- The two loops of `thread_sort` in Lab4/Lab4_2.c that sort a region.
use system_device_programmin.Base.{
  ℕ, zero, suc, ◌+◌, ◌-◌, ◌≤◌, ◌<◌, ◌≡◌, ◌≢◌, inl, inr, refl, subst, some, get_elem?,
  get_elem?_total, set, length, length-set, leb, ℤ, ltb_ℤ, ◌<ℤ◌, ◌≤ℤ◌, arith, Bool-cases,
  ℕ_discrete,
}
use system_device_programmin.Regions.{Numbers, sift, sort_loop, sort_region}
use system_device_programmin.Regions.Swaps.{
  Swaps, same, more, exchanged, exchanged_cases, Swaps-length, Swaps-append, Swaps-widen,
}

-- The numbers from `l` to below `r` ascend.
abbrev pub Ascending : ℕ → ℕ → Numbers → Type 0
Ascending l r v =
    (a b : ℕ) (x y : ℤ)
    → l ≤ a
    → a < b
    → b < r
    → get_elem? v a ≡ some x
    → get_elem? v b ≡ some y
    → x ≤ℤ y

-- They do but for that at `tmp`, which may be smaller than those before it.
abbrev Sifting : ℕ → ℕ → ℕ → Numbers → Type 0
Sifting l tmp r v =
    (a b : ℕ) (x y : ℤ)
    → l ≤ a
    → a < b
    → b < r
    → b ≢ tmp
    → get_elem? v a ≡ some x
    → get_elem? v b ≡ some y
    → x ≤ℤ y

module _ (l r : ℕ) where
  sifted_down :
      (t : ℕ) (v : Numbers) (x y : ℤ)
      → l ≤ t
      → suc t < r
      → get_elem? v t ≡ some x
      → get_elem? v (suc t) ≡ some y
      → y <ℤ x
      → Sifting l (suc t) r v
      → Sifting l t r (exchanged v t x y)
  sifted_down t v x y le inside ex ey lt h a b p q la ab br ne ea eb =
      elim (exchanged_cases v t b eb) [
        | inl (is_b, is_q) ↦ elim (exchanged_cases v t a ea) [
          | inl (is_a, _) ↦ absurd (omega arith)
          | inr (inl (is_a, is_p)) ↦ ground (arith, is_p, is_q)
          | inr (inr (ne_a, _, at_a)) ↦
              rw is_q (h a t p x la (omega arith) (omega arith) (omega arith) at_a ex)
        ]
        | inr (inl (is_b, _)) ↦ absurd (ne is_b)
        | inr (inr (_, ne', at_b)) ↦ elim (exchanged_cases v t a ea) [
          | inl (is_a, is_p) ↦ rw is_p (h t b x q (omega arith) (omega arith) br ne' ex at_b)
          | inr (inl (is_a, is_p)) ↦
              rw is_p (h (suc t) b y q (omega arith) (omega arith) br ne' ey at_b)
          | inr (inr (_, _, at_a)) ↦ h a b p q la ab br ne' at_a at_b
        ]
      ]

  -- Where it is not smaller than its neighbour all ascend.
  sifted :
      (t : ℕ) (v : Numbers) (x y : ℤ)
      → get_elem? v t ≡ some x
      → get_elem? v (suc t) ≡ some y
      → x ≤ℤ y
      → suc t < r
      → Sifting l (suc t) r v
      → Ascending l r v
  sifted t v x y ex ey le inside h a b p q la ab br ea eb = elim (ℕ_discrete b (suc t)) [
    | no ne ↦ h a b p q la ab br ne ea eb
    | yes is_b ↦ elim (ℕ_discrete a t) [
      | yes is_a ↦ ground (arith, is_a, is_b)
      | no ne ↦
          let short_of = h a t p x la (omega arith) (omega arith) (omega arith) ea ex in
          let is_q : y ≡ q = ground (arith, is_b) in rw (← is_q) (omega arith)
    ]
  ]

  -- What the inner loop leaves, from the index `tmp`.
  sift-Ascending :
      (tmp : ℕ) (v : Numbers)
      → l ≤ tmp
      → tmp < r
      → r ≤ length v
      → Sifting l tmp r v
      → (k : ℕ) × (w : Numbers) × (sift l tmp v ≡ some w) × Swaps l r k v w × Ascending l r w
  unfolding sift
  sift-Ascending zero v lt inside room h =
      (0, v, refl, same, λ a b x y la ab br. h a b x y la ab br (omega arith))
  sift-Ascending (suc t) v lt inside room h = elim (Bool-cases (leb (l + 1) (suc t))) [
    | inr at_left ↦
        let first : l ≡ suc t = ground arith in
        (0, v, ground arith, same, λ a b x y la ab br. h a b x y la ab br (omega arith))
    | inl above ↦
        let le : l ≤ t = ground arith in
        let (x, ex) = get_elem?_total v t (omega arith) in
        let (y, ey) = get_elem?_total v (suc t) (omega arith) in
        elim (Bool-cases (ltb_ℤ y x)) [
          | inl smaller ↦
              let lt' : y <ℤ x = ground arith in
              let v' = exchanged v t x y in
              let (k, w, e, s, asc) =
                sift-Ascending t v' le (omega arith)
                  (omega (arith, length-set (set v t y) (suc t) x, length-set v t y))
                  (sifted_down t v x y le inside ex ey lt' h) in
              (suc k, w, ground arith, more t x y le inside ex ey lt' s, asc)
          | inr ordered ↦ (0, v, ground arith, same, sifted t v x y ex ey (ground arith) inside h)
        ]
  ]

  -- One element more: it is sifted down among those that ascend.
  Ascending-Sifting : (cur : ℕ) (v : Numbers) → Ascending l cur v → Sifting l cur (suc cur) v
  Ascending-Sifting cur v h a b x y la ab br ne = h a b x y la ab (omega arith)

module _ (l : ℕ) where
  sort_loop-Ascending :
      (n cur : ℕ) (v : Numbers)
      → l ≤ cur
      → cur + n ≤ length v
      → Ascending l cur v
      → (k : ℕ) × (w : Numbers) × (sort_loop n cur l v ≡ some w)
        × Swaps l (cur + n) k v w
        × Ascending l (cur + n) w
  unfolding sort_loop
  sort_loop-Ascending zero cur v le room h =
      (0, v, refl, same, subst (λ c. Ascending l c v) {x = cur} (omega arith) h)
  sort_loop-Ascending (suc n) cur v le room h =
      let (k, w, e, s, asc) =
        sift-Ascending l (suc cur) cur v le (omega arith) (omega arith)
          (Ascending-Sifting l (suc cur) cur v h) in
      let (k', w', e', s', asc') =
        sort_loop-Ascending n (suc cur) w (omega arith) (omega (arith, Swaps-length s)) asc in
      (
        k + k',
        w',
        ground (arith, e, e'),
        Swaps-append (Swaps-widen (omega arith) (omega arith) s)
            (Swaps-widen (omega arith) (omega arith) s'),
        subst (λ c. Ascending l c w') {x = suc cur + n} (omega arith) asc',
      )

  -- `thread_sort` sorts its region by exchanges of neighbours in it.
  pub sort_region-Ascending :
      (right : ℕ) (v : Numbers)
      → l ≤ right
      → right < length v
      → (k : ℕ) × (w : Numbers) × (sort_region l right v ≡ some w)
        × Swaps l (suc right) k v w
        × Ascending l (suc right) w
  unfolding sort_region
  sort_region-Ascending right v le lt =
      let (k, w, e, s, asc) =
        sort_loop-Ascending (right + 1 - l) l v (omega arith) (omega arith)
          (λ a b x y la ab br. absurd (omega arith)) in
      let end : l + (right + 1 - l) ≡ suc right = omega arith in
      (k, w, e, subst (λ c. Swaps l c k v w) end s, subst (λ c. Ascending l c w) end asc)
