-- ===== src/Concatenate/Copy.antt =====
-- exam/20110629/file_concatenate.c: what a thread does with the two files behind its section, as the
-- calls of the operating system that it makes.
pub mod Bytes
use system_device_programmin.Base.{
  ℕ, zero, suc, ◌+◌, Bool, List, [], ◌∷◌, ◌++◌, Option, none, some, if◌then◌else◌,
}
use system_device_programmin.Concatenate.{Name}

-- The names of files: `filename` and `hardlink` are put together from two names.
pub data FileName : Type 0 where
  plain : Name → FileName
  in_tmp joined : Name → Name → FileName

pub data Descriptor : Type 0 where
  file1 file2 dest : Descriptor

-- `write` with a count of -1 is `writes_failed`. A file that `open` fails for has the descriptor -1:
-- `read` and `close` fail for it.
pub data Call : Type 0 where
  opens : Descriptor → FileName → Call
  closes : Descriptor → Call
  fails_opening : Descriptor → FileName → Call
  fails_closing : Descriptor → Call
  writes : List ℕ → Call
  writes_failed : Call
  links : FileName → FileName → Call
  unlinks chmods : FileName → Call

-- What `read` returns: so many bytes, 0 or -1.
pub data Reading : Type 0 where
  bytes : List ℕ → Reading
  at_end failed : Reading

abbrev pub also : Call → Option (List Call) → Option (List Call)
also c none = none
also c (some cs) = some (c ∷ cs)

pub append : Option (List Call) → Option (List Call) → Option (List Call)
append none ds = none
append (some cs) none = none
append (some cs) (some ds) = some (cs ++ ds)

-- A round of the `while` over the first file, with what it read and the rounds behind it.
pub first_round : Option (List Call) → Reading → Option (List Call)
first_round rest (bytes bs) = also (writes bs) rest
first_round rest at_end = some []
first_round rest failed = some []

-- The same for the second file: only 0 ends the loop.
pub second_round : Option (List Call) → Reading → Option (List Call)
second_round rest (bytes bs) = also (writes bs) rest
second_round rest at_end = some []
second_round rest failed = also writes_failed rest

-- `read` is what the calls of `read` for the file return, in their order; `none` is a loop that runs
-- out of fuel.
module _ (read : ℕ → Reading) where
  pub first_copy : ℕ → ℕ → Option (List Call)
  unfolding first_round
  first_copy zero k = none
  first_copy (suc fuel) k = first_round (first_copy fuel (k + 1)) (read k)

  pub second_copy : ℕ → ℕ → Option (List Call)
  unfolding second_round
  second_copy zero k = none
  second_copy (suc fuel) k = second_round (second_copy fuel (k + 1)) (read k)

-- `opened` says for which files `open` works.
module _ (opened : Descriptor → Bool) where
  pub opening : Descriptor → FileName → Call
  opening d p = if opened d then opens d p else fails_opening d p

  pub closing : Descriptor → Call
  closing d = if opened d then closes d else fails_closing d

  pub reading : Descriptor → (ℕ → Reading) → ℕ → Reading
  reading d read k = if opened d then read k else failed

module _ (opened : Descriptor → Bool) (read1 read2 : ℕ → Reading) where
  -- `name1` and `name2` are what the two entries of `readdir` hold behind the section, where no call of
  -- another thread overwrites them. `is_dir1` and `is_dir2` are what is in `status` behind the two calls of `fstat`, of which one fails
  -- where the file is not open, and leaves `status` as it was.
  pub process : ℕ → Bool → Bool → Name → Name → Option (List Call)
  unfolding first_copy second_copy append opening closing reading
  process fuel is_dir1 is_dir2 name1 name2 =
      let filename = in_tmp name1 name2 in
      let hardlink = joined name1 name2 in
      let before =
        opening opened file1 (plain name1)
        ∷ opening opened file2 (plain name2)
        ∷ unlinks (plain name1)
        ∷ unlinks (plain name2)
        ∷ opening opened dest filename
        ∷ [] in
      let behind =
        closing opened dest
        ∷ links filename hardlink
        ∷ chmods hardlink
        ∷ unlinks filename
        ∷ closing opened file1
        ∷ closing opened file2
        ∷ [] in
      let copies =
        append (first_copy (reading opened file1 read1) fuel 0)
          (append (second_copy (reading opened file2 read2) fuel 0) (some behind)) in
      if is_dir1
      then some (opening opened file1 (plain name1) ∷ closing opened file1 ∷ [])
      else if is_dir2
      then some (
          opening opened file1 (plain name1)
          ∷ opening opened file2 (plain name2)
          ∷ closing opened file2
          ∷ [])
      else append (some before) copies
