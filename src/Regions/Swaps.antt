-- ===== src/Regions/Swaps.antt =====
-- Exchanges of neighbours that stand in the wrong order, as Lab4/Lab4_2.c makes them: each leaves one
-- inversion less.
use system_device_programmin.Base.{
  ℕ, zero, suc, ◌+◌, ◌≤◌, ◌<◌, ◌≡◌, ◌≢◌, ◌⊎◌, inl, inr, refl, subst, sym, ◌∙◌, List, [], ◌∷◌, some,
  if◌then◌else◌, get_elem?, set, length, length-set, get_elem?-set_cases, get_elem?-set_ne, ℤ,
  ltb_ℤ, ◌<ℤ◌, arith,
}
use mathlib.Core.List.{Perm}
use mathlib.Core.List.Perm

abbrev pub smaller : ℤ → List ℤ → ℕ
smaller x [] = 0
smaller x (y ∷ ys) = (if ltb_ℤ y x then 1 else 0) + smaller x ys

-- The pairs that stand in the wrong order.
abbrev pub inversions : List ℤ → ℕ
inversions [] = 0
inversions (x ∷ xs) = smaller x xs + inversions xs

abbrev pub exchanged : List ℤ → ℕ → ℤ → ℤ → List ℤ
exchanged v t x y = set (set v t y) (suc t) x

module _ {x y : ℤ} where
  exchanged-perm :
      (v : List ℤ) (t : ℕ)
      → get_elem? v t ≡ some x
      → get_elem? v (suc t) ≡ some y
      → Perm v (exchanged v t x y)
  exchanged-perm [] t ex ey = absurd (ground arith)
  exchanged-perm (a ∷ []) zero ex ey = absurd (ground arith)
  exchanged-perm (a ∷ b ∷ v) zero ex ey =
      let ea : a ≡ x = ground arith in
      let eb : b ≡ y = ground arith in rw (ea, eb) (Perm.swap y x v)
  exchanged-perm (a ∷ v) (suc t) ex ey = Perm.cons a (exchanged-perm v t ex ey)

  exchanged-smaller :
      (z : ℤ) (v : List ℤ) (t : ℕ)
      → get_elem? v t ≡ some x
      → get_elem? v (suc t) ≡ some y
      → smaller z (exchanged v t x y) ≡ smaller z v
  exchanged-smaller z [] t ex ey = refl
  exchanged-smaller z (a ∷ []) zero ex ey = absurd (ground arith)
  exchanged-smaller z (a ∷ b ∷ v) zero ex ey = ground arith
  exchanged-smaller z (a ∷ v) (suc t) ex ey = ground (arith, exchanged-smaller z v t ex ey)

  exchanged-inversions :
      (v : List ℤ) (t : ℕ)
      → get_elem? v t ≡ some x
      → get_elem? v (suc t) ≡ some y
      → y <ℤ x
      → inversions v ≡ suc (inversions (exchanged v t x y))
  exchanged-inversions [] t ex ey lt = absurd (ground arith)
  exchanged-inversions (a ∷ []) zero ex ey lt = absurd (ground arith)
  exchanged-inversions (a ∷ b ∷ v) zero ex ey lt = ground arith
  exchanged-inversions (a ∷ v) (suc t) ex ey lt =
      ground (arith, exchanged-smaller a v t ex ey, exchanged-inversions v t ex ey lt)

-- So many exchanges from `lo` to below `hi`.
pub data Swaps (lo hi : ℕ) : ℕ → List ℤ → List ℤ → Type 0 where
  same : {v : List ℤ} → Swaps lo hi 0 v v
  more :
      {k : ℕ} {v w : List ℤ} (t : ℕ) (x y : ℤ)
      → lo ≤ t
      → suc t < hi
      → get_elem? v t ≡ some x
      → get_elem? v (suc t) ≡ some y
      → y <ℤ x
      → Swaps lo hi k (exchanged v t x y) w
      → Swaps lo hi (suc k) v w

pub Swaps-perm : {lo hi k : ℕ} {v w : List ℤ} → Swaps lo hi k v w → Perm v w
Swaps-perm same = Perm.rfl
Swaps-perm {v = v} (more t x y _ _ ex ey _ rest) =
    Perm.trans (exchanged-perm v t ex ey) (Swaps-perm rest)

pub Swaps-inversions :
    {lo hi k : ℕ} {v w : List ℤ} → Swaps lo hi k v w → inversions v ≡ k + inversions w
Swaps-inversions same = omega arith
Swaps-inversions {v = v} (more t x y _ _ ex ey lt rest) =
    omega (arith, exchanged-inversions v t ex ey lt, Swaps-inversions rest)

pub Swaps-length : {lo hi k : ℕ} {v w : List ℤ} → Swaps lo hi k v w → length w ≡ length v
Swaps-length same = refl
Swaps-length {v = v} (more t x y _ _ _ _ _ rest) =
    omega (arith, Swaps-length rest, length-set (set v t y) (suc t) x, length-set v t y)

exchanged_elsewhere :
    (x y : ℤ) (v : List ℤ) (t i : ℕ)
    → i ≢ t
    → i ≢ suc t
    → get_elem? (exchanged v t x y) i ≡ get_elem? v i
exchanged_elsewhere x y v t i ne ne' =
    get_elem?-set_ne (set v t y) x (λ e. ne' (sym e)) ∙ get_elem?-set_ne v y (λ e. ne (sym e))

pub Swaps-outside :
    {lo hi k : ℕ} {v w : List ℤ} (i : ℕ)
    → Swaps lo hi k v w
    → (i < lo) ⊎ (hi ≤ i)
    → get_elem? w i ≡ get_elem? v i
Swaps-outside i same out = refl
Swaps-outside {v = v} i (more t x y above below _ _ _ rest) (inl lt) =
    Swaps-outside i rest (inl lt) ∙ exchanged_elsewhere x y v t i (omega arith) (omega arith)
Swaps-outside {v = v} i (more t x y above below _ _ _ rest) (inr le) =
    Swaps-outside i rest (inr le) ∙ exchanged_elsewhere x y v t i (omega arith) (omega arith)

pub Swaps-append :
    {lo hi j k : ℕ} {u v w : List ℤ}
    → Swaps lo hi j u v
    → Swaps lo hi k v w
    → Swaps lo hi (j + k) u w
Swaps-append {lo} {hi} {k = k} {u = u} {w = w} same s =
    subst (λ n. Swaps lo hi n u w) {x = k} (omega arith) s
Swaps-append {lo} {hi} {j = suc j} {k = k} {u = u} {w = w} (more t x y a b c d e rest) s =
    subst (λ n. Swaps lo hi n u w) {x = suc (j + k)} (omega arith)
      (more t x y a b c d e (Swaps-append rest s))

pub Swaps-widen :
    {lo hi lo' hi' k : ℕ} {v w : List ℤ}
    → lo' ≤ lo
    → hi ≤ hi'
    → Swaps lo hi k v w
    → Swaps lo' hi' k v w
Swaps-widen l h same = same
Swaps-widen l h (more t x y a b c d e rest) =
    more t x y (omega arith) (omega arith) c d e (Swaps-widen l h rest)

-- What stands at `b` behind an exchange.
pub exchanged_cases :
    {x y z : ℤ} (v : List ℤ) (t b : ℕ)
    → get_elem? (exchanged v t x y) b ≡ some z
    → ((b ≡ suc t) × (z ≡ x))
      ⊎ (((b ≡ t) × (z ≡ y)) ⊎ ((b ≢ t) × (b ≢ suc t) × (get_elem? v b ≡ some z)))
exchanged_cases {x} {y} v t b e = elim (get_elem?-set_cases (set v t y) (suc t) b x e) [
  | inl p ↦ inl (omega (arith, p.0), sym p.1)
  | inr p ↦ elim (get_elem?-set_cases v t b y p.1) [
    | inl q ↦ inr (inl (omega (arith, q.0), sym q.1))
    | inr q ↦ inr (inr (omega (arith, q.0), omega (arith, p.0), q.1))
  ]
]
