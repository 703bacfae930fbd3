-- ===== src/Vectors/Tests.antt =====
-- The program Lab1/Lab1.1.c on small vectors.
use system_device_programmin.Base.{
  ℕ, ◌*◌, ◌+◌, ◌≡◌, refl, List, [], ◌∷◌, Bool, true, false, none, some, ℤ, pos,
}
use system_device_programmin.Regions.Sorted.{Sorted}
use system_device_programmin.Vectors.{
  exchange, down, sort_from, sort, Name, fv1_txt, fv2_txt, fv1_b, fv2_b, write, write_binary,
  random_fill, main,
}
use system_device_programmin.Vectors.Sorts.{written, main_writes}

-- The second text file cannot be opened.
abbrev opens : Name → Bool
opens fv1_txt = true
opens fv2_txt = false
opens fv1_b = true
opens fv2_b = true

abbrev rolls : ℕ → ℕ
rolls k = k * 100 + 90

sorts :
    sort (some (pos 5)) 4 (pos 9 ∷ pos 4 ∷ pos 7 ∷ pos 4 ∷ [])
    ≡ some (pos 4 ∷ pos 4 ∷ pos 7 ∷ pos 9 ∷ [])
unfolding sort sort_from down exchange
sorts = refl

not_opened : main (λ name. false) rolls (some (pos 5)) (some (pos 5)) 2 1 ≡ none
unfolding main sort sort_from down exchange write write_binary random_fill
not_opened = refl

main_writes_example :
    (v1 v2 : List ℤ) × Sorted 3 (random_fill rolls 91 10 3 0) (some v1)
    × Sorted 2 (random_fill rolls 81 20 2 3) (some v2)
    × (main opens rolls (some (pos 5)) (some (pos 7)) 3 2 ≡ some (written opens v1 v2))
main_writes_example = main_writes rolls opens (pos 5) (pos 7) 3 2 refl refl
