-- ===== src/Concatenate/Scan.antt =====
-- The search of exam/20110629/file_concatenate.c for two files ends, with what it looks for.
use system_device_programmin.Base.{
  ℕ, zero, suc, ◌+◌, ◌*◌, ◌≤◌, ◌<◌, ◌≡◌, ◌≢◌, subst, sym, refl, inl, inr, Bool, true, false, ◌||◌,
  Option, some, arith, Bool-cases,
}
use system_device_programmin.Concatenate.{
  Name, Answer, entry, at_end, failed, same_name, passed_over, Scanned, stopped, found, first_loop,
  second_loop, section, Section, after_first, after_second, end_with, first_body, second_body,
  breaks_locked, unlocked,
}

-- A loop that ended with `cont` 0, or with a name that the thread looks for.
data Head : Option Scanned → Type 0 where
  stops : Head (some stopped)
  finds : {name : Name} {k : ℕ} → passed_over name ≡ false → Head (some (found (some name) k))

data OtherHead (name1 : Name) : Option Scanned → Type 0 where
  stops : OtherHead name1 (some stopped)
  finds :
      {name : Name} {k : ℕ}
      → passed_over name ≡ false
      → same_name name1 name ≡ false
      → OtherHead name1 (some (found (some name) k))

-- The section ended: the lock is held still, or the thread has two different names.
pub data Searched : Option Section → Type 0 where
  breaks : Searched (some breaks_locked)
  two_names :
      {name1 name2 : Name} {k : ℕ}
      → passed_over name1 ≡ false
      → passed_over name2 ≡ false
      → same_name name1 name2 ≡ false
      → Searched (some (unlocked name1 (some name2) k))

module _ (rest : Bool → Bool → Option Scanned) (k : ℕ) where
  first_body-Head :
      (rewinded : Bool) (a : Answer)
      → (a ≢ at_end → Head (rest true rewinded))
      → (rewinded ≡ false → Head (rest true true))
      → Head (first_body rest k true rewinded a)
  unfolding first_body
  first_body-Head rewinded (entry name) skips ends = elim (Bool-cases (passed_over name)) [
    | inl skip ↦ rw skip (skips (ground arith))
    | inr wanted ↦ rw wanted (finds wanted)
  ]
  first_body-Head true at_end skips ends = stops
  first_body-Head false at_end skips ends = ends refl
  first_body-Head rewinded failed skips ends = stops

module _ (name1 : Name) (rest : Bool → Bool → Bool → Option Scanned) (k : ℕ) where
  second_body-OtherHead :
      (cont rewinded : Bool) (a : Answer)
      → (a ≢ at_end → (c : Bool) → OtherHead name1 (rest c true rewinded))
      → (rewinded ≡ false → OtherHead name1 (rest cont true true))
      → OtherHead name1 (second_body name1 rest k cont true rewinded a)
  unfolding second_body end_with
  second_body-OtherHead cont rewinded (entry name) skips ends =
      elim (Bool-cases (passed_over name || same_name name1 name)) [
        | inl skip ↦ rw skip (skips (ground arith) cont)
        | inr wanted ↦ rw wanted (left_with cont (ground arith) (ground arith))
      ]
    where
      left_with :
          (c : Bool)
          → passed_over name ≡ false
          → same_name name1 name ≡ false
          → OtherHead name1 (some (end_with c (some name) k))
      left_with true wanted other = finds wanted other
      left_with false wanted other = stops
  second_body-OtherHead cont true at_end skips ends = stops
  second_body-OtherHead cont false at_end skips ends = ends refl
  second_body-OtherHead cont rewinded failed skips ends = skips (ground arith) false

module _ (readdir : ℕ → Answer) where
  at_once : (k : ℕ) → readdir (k + 0) ≡ at_end → readdir k ≡ at_end
  at_once k e = subst (λ i. readdir i ≡ at_end) {x = k + 0} (omega arith) e

  at_next : (k j : ℕ) → readdir (k + suc j) ≡ at_end → readdir (k + 1 + j) ≡ at_end
  at_next k j e = subst (λ i. readdir i ≡ at_end) {x = k + suc j} (omega arith) e

  -- The call `k + j` comes to the end of the directory.
  first_rewound :
      (j fuel k : ℕ)
      → readdir (k + j) ≡ at_end
      → j < fuel
      → Head (first_loop readdir fuel k true true)
  unfolding first_loop
  first_rewound j zero k e lt = absurd (omega arith)
  first_rewound zero (suc fuel) k e lt =
      first_body-Head (first_loop readdir fuel (k + 1)) (k + 1) true (readdir k)
        (λ ne. absurd (ne (at_once k e))) (λ is. absurd (ground arith))
  first_rewound (suc j) (suc fuel) k e lt =
      first_body-Head (first_loop readdir fuel (k + 1)) (k + 1) true (readdir k)
        (λ ne. first_rewound j fuel (k + 1) (at_next k j e) (omega arith))
        (λ is. absurd (ground arith))

  module _ (now : Name → ℕ → Name) (kept : (name : Name) (k : ℕ) → now name k ≡ name) where
    -- The body of the second loop, with the name that the first entry still holds.
    kept_body-OtherHead :
        (name1 : Name) (rest : Bool → Bool → Bool → Option Scanned) (k : ℕ) (cont rewinded : Bool)
        (a : Answer)
        → (a ≢ at_end → (c : Bool) → OtherHead name1 (rest c true rewinded))
        → (rewinded ≡ false → OtherHead name1 (rest cont true true))
        → OtherHead name1 (second_body (now name1 k) rest k cont true rewinded a)
    kept_body-OtherHead name1 rest k cont rewinded a skips ends =
        subst (λ x. OtherHead name1 (second_body x rest k cont true rewinded a))
          (sym (kept name1 k)) (second_body-OtherHead name1 rest k cont rewinded a skips ends)

    second_rewound :
        (name1 : Name) (j fuel k : ℕ) (cont : Bool)
        → readdir (k + j) ≡ at_end
        → j < fuel
        → OtherHead name1 (second_loop readdir now name1 fuel k cont true true)
    unfolding second_loop
    second_rewound name1 j zero k cont e lt = absurd (omega arith)
    second_rewound name1 zero (suc fuel) k cont e lt =
        kept_body-OtherHead name1 (second_loop readdir now name1 fuel (k + 1)) (k + 1) cont true
          (readdir k) (λ ne. absurd (ne (at_once k e))) (λ is. absurd (ground arith))
    second_rewound name1 (suc j) (suc fuel) k cont e lt =
        kept_body-OtherHead name1 (second_loop readdir now name1 fuel (k + 1)) (k + 1) cont true
          (readdir k) (λ ne c. second_rewound name1 j fuel (k + 1) c (at_next k j e) (omega arith))
          (λ is. absurd (ground arith))

    -- Within `m` calls there is always one that comes to the end of the directory.
    module _ (m : ℕ) (ends : (k : ℕ) → (j : ℕ) × (j < m) × (readdir (k + j) ≡ at_end)) where
      first_again : (fuel k : ℕ) → m ≤ fuel → Head (first_loop readdir fuel k true true)
      first_again fuel k le = let (j, lt, e) = ends k in first_rewound j fuel k e (omega arith)

      second_again :
          (name1 : Name) (fuel k : ℕ) (cont : Bool)
          → m ≤ fuel
          → OtherHead name1 (second_loop readdir now name1 fuel k cont true true)
      second_again name1 fuel k cont le =
          let (j, lt, e) = ends k in second_rewound name1 j fuel k cont e (omega arith)

      first_fresh :
          (j fuel k : ℕ)
          → readdir (k + j) ≡ at_end
          → j + m < fuel
          → Head (first_loop readdir fuel k true false)
      unfolding first_loop
      first_fresh j zero k e lt = absurd (omega arith)
      first_fresh zero (suc fuel) k e lt =
          first_body-Head (first_loop readdir fuel (k + 1)) (k + 1) false (readdir k)
            (λ ne. absurd (ne (at_once k e))) (λ is. first_again fuel (k + 1) (omega arith))
      first_fresh (suc j) (suc fuel) k e lt =
          first_body-Head (first_loop readdir fuel (k + 1)) (k + 1) false (readdir k)
            (λ ne. first_fresh j fuel (k + 1) (at_next k j e) (omega arith))
            (λ is. first_again fuel (k + 1) (omega arith))

      second_fresh :
          (name1 : Name) (j fuel k : ℕ) (cont : Bool)
          → readdir (k + j) ≡ at_end
          → j + m < fuel
          → OtherHead name1 (second_loop readdir now name1 fuel k cont true false)
      unfolding second_loop
      second_fresh name1 j zero k cont e lt = absurd (omega arith)
      second_fresh name1 zero (suc fuel) k cont e lt =
          kept_body-OtherHead name1 (second_loop readdir now name1 fuel (k + 1)) (k + 1) cont false
            (readdir k) (λ ne. absurd (ne (at_once k e)))
            (λ is. second_again name1 fuel (k + 1) cont (omega arith))
      second_fresh name1 (suc j) (suc fuel) k cont e lt =
          kept_body-OtherHead name1 (second_loop readdir now name1 fuel (k + 1)) (k + 1) cont false
            (readdir k) (λ ne c. second_fresh name1 j fuel (k + 1) c (at_next k j e) (omega arith))
            (λ is. second_again name1 fuel (k + 1) cont (omega arith))

      after_first-Searched :
          (fuel : ℕ) (o : Option Scanned)
          → Head o
          → m + m < suc fuel
          → Searched (after_first readdir now fuel true o)
      unfolding after_first after_second
      after_first-Searched fuel _ stops room = breaks
      after_first-Searched fuel _ (finds {name} {k} wanted) room =
          let (j, lt, e) = ends k in
          searched wanted (second_fresh name j fuel k true e (omega arith))
        where
          searched :
              {name1 : Name} {o : Option Scanned}
              → passed_over name1 ≡ false
              → OtherHead name1 o
              → Searched (after_second (now name1) o)
          searched wanted stops = breaks
          searched {name1} wanted (finds {name} {k} wanted' other) =
              subst (λ x. Searched (some (unlocked x (some name) k))) (sym (kept name1 k))
                (two_names wanted wanted' other)

      -- Where `readdir` comes to the end of the directory in any `m` calls, and does not overwrite
      -- the entry that it returned for the first file, the first section of a thread ends within
      -- `2 * m` calls for each of its loops: it has two different names, neither of which is passed
      -- over, or it has left with the lock held.
      pub section-Searched : (k : ℕ) → Searched (section readdir now (2 * m) k true true)
      unfolding section
      section-Searched k =
          let (j, lt, e) = ends k in
          after_first-Searched (2 * m) _ (first_fresh j (2 * m) k e (omega arith)) (omega arith)
