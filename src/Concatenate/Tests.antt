-- ===== src/Concatenate/Tests.antt =====
-- The search of exam/20110629/file_concatenate.c in a directory with three files.
use system_device_programmin.Base.{
  ℕ, zero, suc, ◌+◌, ◌<◌, ◌≡◌, refl, if◌then◌else◌, ◌==◌, true, false, List, [], ◌∷◌, some, arith,
}
use system_device_programmin.Concatenate.{
  Name, dot, file, Answer, entry, at_end, breaks_locked, reads_null, unlocked, same_name,
  first_body, second_body, first_loop, second_loop, after_first, after_second, end_with, section,
}
use system_device_programmin.Concatenate.Copy
use system_device_programmin.Concatenate.Copy.{Reading, bytes, Call, process}
use system_device_programmin.Concatenate.Copy.Bytes.{
  Delivers, nothing, portion, written, open_after, process-writes,
}
use system_device_programmin.Concatenate.Scan.{Searched, section-Searched}

-- Three entries, and then nothing more.
abbrev listing : ℕ → Answer
listing zero = entry dot
listing (suc zero) = entry (file 4)
listing (suc (suc zero)) = entry (file 7)
listing (suc (suc (suc k))) = at_end

-- The entry of the first file is not overwritten.
abbrev keeps : Name → ℕ → Name
keeps name k = name

-- It is, by the next call.
abbrev overwritten : Name → ℕ → Name
overwritten name k = if k == 2 then name else file 7

finds_both : section listing keeps 8 0 true true ≡ some (unlocked (file 4) (some (file 7)) 3)
unfolding section first_loop after_first second_loop after_second first_body second_body end_with
    same_name
finds_both = refl

-- Then the thread finds the second file to be the same as the first, and no other.
finds_none : section listing overwritten 8 0 true true ≡ some breaks_locked
unfolding section first_loop after_first second_loop after_second first_body second_body end_with
    same_name
finds_none = refl

-- An empty directory.
breaks : section (λ k. at_end) keeps 8 0 true true ≡ some breaks_locked
unfolding section first_loop after_first first_body
breaks = refl

-- In a later section, where `next1` is 0 from the one before, the end of the directory is taken for
-- a file.
null_later : section listing keeps 8 3 false false ≡ some reads_null
unfolding section first_loop after_first first_body
null_later = refl

listing_ends : (k : ℕ) → (j : ℕ) × (j < 4) × (listing (k + j) ≡ at_end)
listing_ends zero = (3, omega arith, refl)
listing_ends (suc zero) = (2, omega arith, refl)
listing_ends (suc (suc zero)) = (1, omega arith, refl)
listing_ends (suc (suc (suc k))) = (0, omega arith, ground arith)

section-Searched_example : Searched (section listing keeps 8 0 true true)
section-Searched_example = section-Searched listing keeps (λ name k. refl) 4 listing_ends 0

-- The bytes of the first file come in two portions; the second file is empty.
abbrev reads1 : ℕ → Reading
reads1 zero = bytes (1 ∷ 2 ∷ [])
reads1 (suc zero) = bytes (3 ∷ [])
reads1 (suc (suc k)) = Copy.at_end

abbrev reads2 : ℕ → Reading
reads2 k = Copy.at_end

delivers1 : Delivers reads1 0 2 (1 ∷ 2 ∷ 3 ∷ [])
delivers1 = portion refl (portion refl (nothing refl))

process-writes_example :
    (cs : List Call) × (process (λ d. true) reads1 reads2 3 false false (file 4) (file 7) ≡ some cs)
    × (written cs ≡ 1 ∷ 2 ∷ 3 ∷ [])
    × (open_after cs [] ≡ [])
process-writes_example =
    process-writes (λ d. true) reads1 reads2 3 2 0 (1 ∷ 2 ∷ 3 ∷ []) [] false false (file 4) (file 7)
      (λ d. refl) (omega arith) (omega arith) delivers1 (nothing refl)
