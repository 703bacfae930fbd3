-- ===== src/Concatenate/Copy/Bytes.antt =====
-- What the new file of exam/20110629/file_concatenate.c holds, and which files stay open.
use system_device_programmin.Base.{
  ℕ, zero, suc, ◌+◌, ◌<◌, ◌≡◌, refl, sym, subst, ap, ◌∙◌, ◌||◌, List, [], ◌∷◌, ◌++◌, Bool, true,
  false, not, ◌==◌, ◌&&◌, Option, none, some, if◌then◌else◌, arith,
}
use mathlib.Core.List.{append-nil, append_assoc}
use system_device_programmin.Concatenate.{Name}
use system_device_programmin.Concatenate.Copy.{
  Descriptor, file1, file2, dest, fails_opening, fails_closing, opening, closing, reading, Call,
  opens, closes, writes, writes_failed, links, unlinks, chmods, Reading, bytes, at_end, failed,
  also, first_round, second_round, first_copy, second_copy, append, process,
}

-- `Delivers read k n bs`: from the call `k` on, `read` returns the bytes `bs` in `n` portions, and
-- then 0.
pub data Delivers (read : ℕ → Reading) : ℕ → ℕ → List ℕ → Type 0 where
  nothing : {k : ℕ} → read k ≡ at_end → Delivers read k 0 []
  portion :
      {k n : ℕ} {bs cs : List ℕ}
      → read k ≡ bytes bs
      → Delivers read (k + 1) n cs
      → Delivers read k (suc n) (bs ++ cs)

-- The bytes that are written, in their order.
abbrev pub written : List Call → List ℕ
written [] = []
written (writes bs ∷ cs) = bs ++ written cs
written (c ∷ cs) = written cs

abbrev number : Descriptor → ℕ
number file1 = 0
number file2 = 1
number dest = 2

without : Descriptor → List Descriptor → List Descriptor
without d [] = []
without d (e ∷ fds) = let rest = without d fds in if number d == number e then rest else e ∷ rest

-- The files that are open behind the calls, where `fds` were open before them.
unfoldable pub open_after : List Call → List Descriptor → List Descriptor
unfolding without
open_after [] fds = fds
open_after (opens d p ∷ cs) fds = open_after cs (d ∷ fds)
open_after (closes d ∷ cs) fds = open_after cs (without d fds)
open_after (writes bs ∷ cs) fds = open_after cs fds
open_after (writes_failed ∷ cs) fds = open_after cs fds
open_after (fails_opening d p ∷ cs) fds = open_after cs fds
open_after (fails_closing d ∷ cs) fds = open_after cs fds
open_after (links p q ∷ cs) fds = open_after cs fds
open_after (unlinks p ∷ cs) fds = open_after cs fds
open_after (chmods p ∷ cs) fds = open_after cs fds

written-append : (cs ds : List Call) → written (cs ++ ds) ≡ written cs ++ written ds
written-append [] ds = refl
written-append (writes bs ∷ cs) ds =
    rw (written-append cs ds) (sym (append_assoc bs (written cs) (written ds)))
written-append (opens d p ∷ cs) ds = written-append cs ds
written-append (closes d ∷ cs) ds = written-append cs ds
written-append (fails_opening d p ∷ cs) ds = written-append cs ds
written-append (fails_closing d ∷ cs) ds = written-append cs ds
written-append (writes_failed ∷ cs) ds = written-append cs ds
written-append (links p q ∷ cs) ds = written-append cs ds
written-append (unlinks p ∷ cs) ds = written-append cs ds
written-append (chmods p ∷ cs) ds = written-append cs ds

-- Calls of which the writes hold these bytes, and that open and close no file.
abbrev Copied : List ℕ → Option (List Call) → Type 0
Copied bs o =
    (cs : List Call) × (o ≡ some cs)
    × (written cs ≡ bs)
    × ((ds : List Call) (fds : List Descriptor) → open_after (cs ++ ds) fds ≡ open_after ds fds)

also-Copied :
    (bs cs : List ℕ) (o : Option (List Call)) → Copied cs o → Copied (bs ++ cs) (also (writes bs) o)
unfolding open_after
also-Copied bs cs o (ds, e, w, opens_none) =
    (writes bs ∷ ds, ground (arith, e), ap (λ x. bs ++ x) w, opens_none)

-- The two loops do the same up to the end of a file that can be read.
module _ (read : ℕ → Reading) (copy : ℕ → ℕ → Option (List Call))
    (round : Option (List Call) → Reading → Option (List Call))
    (copy_rounds : (fuel k : ℕ) → copy (suc fuel) k ≡ round (copy fuel (k + 1)) (read k))
    (at_bytes : (rest : Option (List Call)) (bs : List ℕ)
      → round rest (bytes bs) ≡ also (writes bs) rest)
    (at_eof : (rest : Option (List Call)) → round rest at_end ≡ some []) where
  copy-Copied :
      (fuel k n : ℕ) (bs : List ℕ) → n < fuel → Delivers read k n bs → Copied bs (copy fuel k)
  copy-Copied zero k n bs lt d = absurd (omega arith)
  copy-Copied (suc fuel) k _ _ lt (nothing e) =
      ([], copy_rounds fuel k ∙ ap (round _) e ∙ at_eof _, refl, λ ds fds. refl)
  copy-Copied (suc fuel) k _ _ lt (portion {n} {bs} {cs} e d) =
      let rest = copy fuel (k + 1) in
      let step = copy_rounds fuel k ∙ ap (round rest) e ∙ at_bytes rest bs in
      subst (Copied (bs ++ cs)) (sym step)
        (also-Copied bs cs rest (copy-Copied fuel (k + 1) n cs (omega arith) d))

module _ (read : ℕ → Reading) (fuel n : ℕ) (bs : List ℕ) (lt : n < fuel)
    (d : Delivers read 0 n bs) where
  first_copy-Copied : Copied bs (first_copy read fuel 0)
  unfolding first_copy first_round
  first_copy-Copied =
      copy-Copied read (first_copy read) first_round (λ m k. refl) (λ rest cs. refl) (λ rest. refl)
        fuel 0 n bs lt d

  second_copy-Copied : Copied bs (second_copy read fuel 0)
  unfolding second_copy second_round
  second_copy-Copied =
      copy-Copied read (second_copy read) second_round (λ m k. refl) (λ rest cs. refl)
        (λ rest. refl) fuel 0 n bs lt d

-- An open file is read as it is.
reading-Delivers :
    (opened : Descriptor → Bool) (d : Descriptor) (read : ℕ → Reading) {k n : ℕ} {bs : List ℕ}
    → opened d ≡ true
    → Delivers read k n bs
    → Delivers (reading opened d read) k n bs
unfolding reading
reading-Delivers opened d read ok (nothing e) = nothing (rw ok e)
reading-Delivers opened d read ok (portion e rest) =
    portion (rw ok e) (reading-Delivers opened d read ok rest)

-- What the calls of both loops write, with calls behind them that write nothing.
written_between :
    {bs1 bs2 : List ℕ} (cs1 cs2 behind : List Call)
    → written cs1 ≡ bs1
    → written cs2 ≡ bs2
    → written behind ≡ []
    → written (cs1 ++ (cs2 ++ behind)) ≡ bs1 ++ bs2
written_between {bs1} cs1 cs2 behind w1 w2 w3 =
    rw (written-append cs1 (cs2 ++ behind), written-append cs2 behind, w1, w2, w3)
      (ap (λ x. bs1 ++ x) (append-nil _))

-- Where the files can be opened, and both files be read to their ends, behind the section a thread
-- writes the bytes of the first file and then those of the second, or none if one of them is a
-- directory. No file is open then, except that the first one is where only the second is a directory.
pub process-writes :
    (opened : Descriptor → Bool) (read1 read2 : ℕ → Reading) (fuel n1 n2 : ℕ) (bs1 bs2 : List ℕ)
    (is_dir1 is_dir2 : Bool) (name1 name2 : Name)
    → ((d : Descriptor) → opened d ≡ true)
    → n1 < fuel
    → n2 < fuel
    → Delivers read1 0 n1 bs1
    → Delivers read2 0 n2 bs2
    → (cs : List Call) × (process opened read1 read2 fuel is_dir1 is_dir2 name1 name2 ≡ some cs)
      × (written cs ≡ (if is_dir1 || is_dir2 then [] else bs1 ++ bs2))
      × (open_after cs [] ≡ (if not is_dir1 && is_dir2 then file1 ∷ [] else []))
unfolding process append opening closing open_after without
process-writes opened read1 read2 fuel n1 n2 bs1 bs2 true is_dir2 name1 name2 all lt1 lt2 d1 d2 =
    rw (all file1) (_, refl, refl, refl)
process-writes opened read1 read2 fuel n1 n2 bs1 bs2 false true name1 name2 all lt1 lt2 d1 d2 =
    rw (all file1, all file2) (_, refl, refl, refl)
process-writes opened read1 read2 fuel n1 n2 bs1 bs2 false false name1 name2 all lt1 lt2 d1 d2 =
    let (cs1, e1, w1, o1) =
      first_copy-Copied (reading opened file1 read1) fuel n1 bs1 lt1
        (reading-Delivers opened file1 read1 (all file1) d1) in
    let (cs2, e2, w2, o2) =
      second_copy-Copied (reading opened file2 read2) fuel n2 bs2 lt2
        (reading-Delivers opened file2 read2 (all file2) d2) in
    rw (e1, e2, all file1, all file2, all dest)
      (_, refl, written_between cs1 cs2 _ w1 w2 refl, o1 _ _ ∙ o2 _ _)

-- Where the second file cannot be read, the loop over it does not end.
second_copy-none : (fuel k : ℕ) → second_copy (λ i. failed) fuel k ≡ none
unfolding second_copy second_round
second_copy-none zero k = refl
second_copy-none (suc fuel) k = ap (also writes_failed) (second_copy-none fuel (k + 1))
