-- ===== src/Merge/Copy.antt =====
-- The copies that `merge` of Lab2/merge.c makes of its two halves.
use system_device_programmin.Base.{
  ℕ, zero, suc, ◌+◌, ◌-◌, ◌≤◌, ◌<◌, ◌≡◌, ◌≢◌, refl, List, none, some, length, get_elem?, set, ℤ,
  arith, ℕ_discrete, get_elem?_total, get_elem?-set_self, get_elem?-set_ne, length-set,
  Option-cases, inl, inr,
}
use system_device_programmin.Merge.{copy_loop}

-- The entries of `a` from `i` on begin with `xs`.
abbrev pub Begins : List ℤ → ℕ → List ℤ → Type 0
Begins a i xs = (m : ℕ) → m < length xs → get_elem? a (i + m) ≡ get_elem? xs m

-- With a cell behind each array, the copy succeeds: `a'` agrees with `vet` on the cells copied and with
-- `a` on the others.
pub copy_loop-copies :
    (n i off : ℕ) (vet a : List ℤ)
    → off + i + n ≤ length vet
    → i + n ≤ length a
    → (a' : List ℤ) × (copy_loop n i off vet a ≡ some a')
      × ((m : ℕ) → m < n → get_elem? a' (i + m) ≡ get_elem? vet (off + (i + m)))
      × ((m : ℕ) → m < i → get_elem? a' m ≡ get_elem? a m)
unfolding copy_loop
copy_loop-copies zero i off vet a src dst = (a, refl, λ m lt. elim lt [ ], λ m lt. refl)
copy_loop-copies (suc n) i off vet a src dst =
    let (v, at_i) = get_elem?_total vet (off + i) (omega arith) in
    let (a', e, new, old) =
      copy_loop-copies n (i + 1) off vet (set a i v) (omega arith)
        (omega (arith, length-set a i v)) in
    (
      a',
      ground arith,
      λ m lt. elim (ℕ_discrete m 0) [
        | yes z ↦ ground (arith, old i (omega arith), get_elem?-set_self a i v (omega arith))
        | no ne ↦ ground (arith, new (m - 1) (omega arith))
      ],
      λ m lt.
          let other : i ≢ m = omega arith in
          ground (arith, old m (omega arith), get_elem?-set_ne a v other),
    )

-- Without a cell behind the array, the last round of the copy is outside.
pub copy_loop-overrun :
    (n i off : ℕ) (vet a : List ℤ) → length a ≡ i + n → copy_loop (suc n) i off vet a ≡ none
unfolding copy_loop
copy_loop-overrun zero i off vet a size = elim (Option-cases (get_elem? vet (off + i))) [
  | inl out ↦ ground arith
  | inr (v, at_i) ↦ ground arith
]
copy_loop-overrun (suc n) i off vet a size = elim (Option-cases (get_elem? vet (off + i))) [
  | inl out ↦ ground arith
  | inr (v, at_i) ↦
      let rest =
        copy_loop-overrun n (i + 1) off vet (set a i v) (omega (arith, length-set a i v)) in
      ground arith
]
