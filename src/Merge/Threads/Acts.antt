-- ===== src/Merge/Threads/Acts.antt =====
-- Merges of Lab2/Lab2.1.c and Lab2/Lab2.2.c in different parts of the array do not disturb each other.
use system_device_programmin.Base.{
  ℕ, ◌+◌, ◌<◌, ◌≡◌, refl, sym, ap, ◌∙◌, List, [], ◌∷◌, ◌++◌, some, length, length-append, ℤ, arith,
}
use mathlib.Core.List.{append_assoc}
use system_device_programmin.Merge.{merge}
use system_device_programmin.Merge.Threads.{Merging, Interleaved, both_done, first, second, run}

module _ (pad : ℕ) (junk : ℤ) where
  -- What merges do to the cells from `left` on, whatever stands around them.
  pub data Acts (left : ℕ) : List Merging → List ℤ → List ℤ → Type 0 where
    nothing : {seg : List ℤ} → Acts left [] seg seg
    merging :
        {seg mid end : List ℤ} (m : Merging) {ms : List Merging}
        → length mid ≡ length seg
        → ((before after : List ℤ)
            → left ≡ length before
            → 0 < length after
            → merge pad junk m.left m.middle m.right (before ++ (seg ++ after))
              ≡ some (before ++ (mid ++ after)))
        → Acts left ms mid end
        → Acts left (m ∷ ms) seg end

  pub Acts-run :
      {left : ℕ} {ms : List Merging} {seg end : List ℤ} (before after : List ℤ)
      → Acts left ms seg end
      → left ≡ length before
      → 0 < length after
      → run pad junk ms (before ++ (seg ++ after)) ≡ some (before ++ (end ++ after))
  unfolding run
  Acts-run before after nothing el behind = refl
  Acts-run before after (merging m _ step rest) el behind =
      ground (arith, step before after el behind, Acts-run before after rest el behind)

  pub Acts-length :
      {left : ℕ} {ms : List Merging} {seg end : List ℤ}
      → Acts left ms seg end
      → length end ≡ length seg
  Acts-length nothing = refl
  Acts-length (merging m size _ rest) = Acts-length rest ∙ size

  pub Acts-append :
      {left : ℕ} {os ps : List Merging} {u v w : List ℤ}
      → Acts left os u v
      → Acts left ps v w
      → Acts left (os ++ ps) u w
  Acts-append nothing next = next
  Acts-append (merging m size step rest) next = merging m size step (Acts-append rest next)

  -- Both parts, in any order.
  pub Interleaved-Acts :
      {left : ℕ} {os ps cs : List Merging} {a1 z1 a2 z2 : List ℤ} (right : ℕ)
      → Interleaved os ps cs
      → right ≡ left + length a1
      → 0 < length a2
      → Acts left os a1 z1
      → Acts right ps a2 z2
      → Acts left cs (a1 ++ a2) (z1 ++ z2)
  Interleaved-Acts right both_done er some_right nothing nothing = nothing
  Interleaved-Acts {a2 = a2} right (first _ i) er some_right (merging {seg} {mid} m size step rest)
        s2 =
      merging m (omega (arith, size, length-append mid a2, length-append seg a2))
        (λ before after el behind.
          ap (λ w. merge pad junk m.left m.middle m.right (before ++ w)) (append_assoc seg a2 after)
          ∙ step before (a2 ++ after) el (omega (arith, length-append a2 after))
          ∙ ap (λ w. some (before ++ w)) (sym (append_assoc mid a2 after)))
        (Interleaved-Acts right i (omega (arith, size)) some_right rest s2)
  Interleaved-Acts {a1 = a1} right (second _ i) er some_right s1
        (merging {seg} {mid} m size step rest) =
      merging m (omega (arith, size, length-append a1 mid, length-append a1 seg))
        (λ before after el behind.
          ap (merge pad junk m.left m.middle m.right) (split before a1 seg after)
          ∙ step (before ++ a1) after (omega (arith, length-append before a1)) behind
          ∙ ap some (sym (split before a1 mid after)))
        (Interleaved-Acts right i er (omega (arith, size)) s1 rest)
    where
      split :
          (before a1 seg after : List ℤ)
          → before ++ ((a1 ++ seg) ++ after) ≡ (before ++ a1) ++ (seg ++ after)
      split before a1 seg after =
          ap (λ w. before ++ w) (append_assoc a1 seg after)
          ∙ sym (append_assoc before a1 (seg ++ after))

-- One after the other is one such order.
pub in_turn-Interleaved : {A : Type 0} (os ps : List A) → Interleaved os ps (os ++ ps)
in_turn-Interleaved [] [] = both_done
in_turn-Interleaved [] (b ∷ ps) = second b (in_turn-Interleaved [] ps)
in_turn-Interleaved (a ∷ os) ps = first a (in_turn-Interleaved os ps)
