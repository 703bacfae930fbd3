-- ===== src/Merge/Ascending.antt =====
-- Ascending lists, and what it is to merge two of them; for Lab2/merge.c.
use system_device_programmin.Base.{
  ◌≡◌, List, [], ◌∷◌, ◌++◌, ◌⊎◌, inl, inr, ℤ, ◌≤ℤ◌, ◌<ℤ◌, arith, dec_lt, pos_part, neg_part, length,
  ◌+◌,
}
use mathlib.Core.List.{Perm, perm_middle, append-nil}
use mathlib.Core.List.Perm

-- Ascending, with values from `b` on.
pub data From : ℤ → List ℤ → Type 0 where
  empty : {b : ℤ} → From b []
  step : {b x : ℤ} {xs : List ℤ} → b ≤ℤ x → From x xs → From b (x ∷ xs)

abbrev pub IsAscending : List ℤ → Type 0
IsAscending xs = (b : ℤ) × From b xs

-- Always the smaller head next, and on equal heads that of the first list.
pub data Merged : List ℤ → List ℤ → List ℤ → Type 0 where
  only_right : {ys : List ℤ} → Merged [] ys ys
  only_left : {xs : List ℤ} → Merged xs [] xs
  left :
      {x y : ℤ} {xs ys zs : List ℤ}
      → x ≤ℤ y
      → Merged xs (y ∷ ys) zs
      → Merged (x ∷ xs) (y ∷ ys) (x ∷ zs)
  right :
      {x y : ℤ} {xs ys zs : List ℤ}
      → y <ℤ x
      → Merged (x ∷ xs) ys zs
      → Merged (x ∷ xs) (y ∷ ys) (y ∷ zs)

From-le : {b c : ℤ} {xs : List ℤ} → b ≤ℤ c → From c xs → From b xs
From-le le empty = empty
From-le le (step h f) = step (omega arith) f

Merged-From : {b : ℤ} {xs ys zs : List ℤ} → From b xs → From b ys → Merged xs ys zs → From b zs
Merged-From f g only_right = g
Merged-From f g only_left = f
Merged-From (step h f) (step h' g) (left le m) = step h (Merged-From f (step le g) m)
Merged-From (step h f) (step h' g) (right lt m) = step h' (Merged-From (step (omega arith) f) g m)

pub Merged-IsAscending :
    {xs ys zs : List ℤ} → IsAscending xs → IsAscending ys → Merged xs ys zs → IsAscending zs
Merged-IsAscending (b, f) (c, g) m = elim (total b c) [
  | inl le ↦ (b, Merged-From f (From-le le g) m)
  | inr le ↦ (c, Merged-From (From-le le f) g m)
]
  where
    total : (b c : ℤ) → (b ≤ℤ c) ⊎ (c ≤ℤ b)
    total b c = elim (dec_lt (pos_part c + neg_part b) (pos_part b + neg_part c)) [
      | yes lt ↦ inr (omega arith)
      | no ge ↦ inl (omega arith)
    ]

pub Merged-perm : {xs ys zs : List ℤ} → Merged xs ys zs → Perm (xs ++ ys) zs
Merged-perm only_right = Perm.rfl
Merged-perm {xs} only_left = rw (append-nil xs) Perm.rfl
Merged-perm (left le m) = Perm.cons _ (Merged-perm m)
Merged-perm {xs} (right {ys = ys} lt m) =
    Perm.trans (perm_middle xs ys) (Perm.cons _ (Merged-perm m))

pub Merged-length : {xs ys zs : List ℤ} → Merged xs ys zs → length zs ≡ length xs + length ys
Merged-length only_right = omega arith
Merged-length only_left = omega arith
Merged-length (left le m) = omega (arith, Merged-length m)
Merged-length (right lt m) = omega (arith, Merged-length m)
