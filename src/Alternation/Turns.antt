-- ===== src/Alternation/Turns.antt =====
-- Which lines the parent of Lab1/Lab1.2.c prints.
use system_device_programmin.Base.{
  ℕ, zero, suc, ◌+◌, ◌-◌, ◌%◌, ◌≤◌, ◌≡◌, refl, ap, List, [], ◌∷◌, ◌++◌, ◌==◌, if◌then◌else◌, length,
  arith, ℕ_discrete,
}
use system_device_programmin.Alternation.{altern, alternations, pass, passes}

alternations-parity : (n print : ℕ) → print ≤ 1 → alternations n print ≡ (print + n) % 2
unfolding alternations altern
alternations-parity zero print le = omega arith
alternations-parity (suc n) print le =
    omega (arith, alternations-parity n (1 - print) (omega arith))

module _ (signals : ℕ → ℕ) where
  -- The signals that came before the call `k`, without those just before it.
  abbrev pub before : ℕ → ℕ
  before zero = 0
  before (suc k) = before k + signals k

  -- `print` is 1 after an even number of signals.
  abbrev print_at : ℕ → ℕ
  print_at k = (1 + before k) % 2

  print_next : (k : ℕ) → alternations (signals k) (print_at k) ≡ print_at (suc k)
  print_next k = omega (arith, alternations-parity (signals k) (print_at k) (omega arith))

module _ {Line : Type 0} (signals : ℕ → ℕ) where
  -- The lines with their numbers in the file, where an even number of signals came.
  abbrev pub shown : List Line → ℕ → ℕ → List (ℕ × Line)
  shown [] number k = []
  shown (line ∷ lines) number k =
      if before signals (suc k) % 2 == 0
      then (number + 1, line) ∷ shown lines (number + 1) (suc k)
      else shown lines (number + 1) (suc k)

  abbrev pub shown_passes : ℕ → List Line → ℕ → List (ℕ × Line)
  shown_passes zero file k = []
  shown_passes (suc n) file k = shown file 0 k ++ shown_passes n file (k + length file)

  pass-shown :
      (lines : List Line) (number k : ℕ)
      → pass signals lines number k (print_at signals k)
        ≡ (shown lines number k, print_at signals (k + length lines))
  unfolding pass
  pass-shown [] number k = ap (λ j. ([], print_at signals j)) (plus_zero k)
    where
      plus_zero : (j : ℕ) → j ≡ j + 0
      plus_zero j = omega arith
  pass-shown (line ∷ lines) number k =
      let tail = pass-shown lines (number + 1) (suc k) in
      let end : suc k + length lines ≡ k + suc (length lines) = omega arith in
      rw (print_next signals k, tail, end)
        (elim (ℕ_discrete (before signals (suc k) % 2) 0) [
          | yes even ↦ ground (arith, even)
          | no odd ↦ ground (arith, odd)
        ])

  from_call :
      (n : ℕ) (file : List Line) (k : ℕ)
      → passes signals n file (length file) k (print_at signals k) ≡ shown_passes n file k
  unfolding passes
  from_call zero file k = refl
  from_call (suc n) file k =
      rw (pass-shown file 0 k)
        (ap (λ rest. shown file 0 k ++ rest) (from_call n file (k + length file)))

  -- In `n` passes over the file, `main` prints each line that it reads after an even number of
  -- signals SIGUSR1, in their order and with its number in the file, and no other.
  pub passes-shown :
      (n : ℕ) (file : List Line) → passes signals n file (length file) 0 1 ≡ shown_passes n file 0
  passes-shown n file = from_call n file 0
