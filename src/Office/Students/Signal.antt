-- ===== src/Office/Students/Signal.antt =====
-- The signal that ends the program of Lab3/Lab3.c comes once, when all students are done.
use system_device_programmin.Base.{
  ℕ, zero, suc, ◌+◌, ◌≤◌, ◌<◌, ◌≡◌, ◌⊎◌, inl, inr, refl, sym, ap, List, [], ◌∷◌, some,
  if◌then◌else◌, ◌==◌, get_elem?, set, length, length-set, replicate, length-replicate, count,
  count-set, arith, ℕ_discrete,
}
use system_device_programmin.Office.Ring.{Info}
use system_device_programmin.Office.System.{System}
use system_device_programmin.Office.Tokens.Served.{initial}
use system_device_programmin.Office.Students.{
  Student, at_home, in_normal, to_special, in_special, to_urgent, in_urgent, leaving, last, gone,
  Campus, after_answer, check_out, Move, enters, is_answered, goes_special, comes_back, goes_urgent,
  completes, checks_out, kills, office_moves, Moves, start, next,
}

-- Whether the thread is behind its section on `num_students`.
abbrev pub done : Student → ℕ
done last = 1
done gone = 1
done _ = 0

abbrev is_last : Student → ℕ
is_last last = 1
is_last _ = 0

-- The campus at the start, with `k` students.
abbrev pub opening : ℕ → Info → (ℕ → ℕ) → Campus
opening k junk urgent = record {
  system = initial k junk urgent;
  students = replicate k at_home;
  num = k;
  signals = 0;
}

record IsCounted (k : ℕ) (c : Campus) : Type 0 where
  size : length c.students ≡ k
  counted : c.num + count done gone c.students ≡ k
  signal : count is_last last c.students + c.signals ≡ (if c.num == 0 then 1 else 0)

replicate-count :
    (f : Student → ℕ) (p : Student)
    → f at_home ≡ 0
    → f p ≡ 1
    → (k : ℕ) → count f p (replicate k at_home) ≡ 0
unfolding count
replicate-count f p home away zero = refl
replicate-count f p home away (suc k) = ground (arith, home, away, replicate-count f p home away k)

not_last : (p : Student) → done p ≡ 0 → is_last p ≡ 0
not_last last e = absurd (omega arith)
not_last gone e = refl
not_last at_home e = refl
not_last in_normal e = refl
not_last (to_special info) e = refl
not_last in_special e = refl
not_last (to_urgent info) e = refl
not_last in_urgent e = refl
not_last (leaving info) e = refl

module _ (f : Student → ℕ) (p : Student) where
  count-le : (l : List Student) → count f p l ≤ length l
  unfolding count
  count-le [] = omega arith
  count-le (q ∷ l) = ground (arith, count-le l)

  -- Where all are counted, each is.
  count_full :
      (l : List Student) (i : ℕ) {q : Student}
      → count f p l ≡ length l
      → get_elem? l i ≡ some q
      → f q ≡ f p
  unfolding count
  count_full [] i full e = absurd (ground arith)
  count_full (q ∷ l) zero full e = ground (arith, count-le l)
  count_full (q ∷ l) (suc i) full e = count_full l i (ground (arith, count-le l)) e

module _ {k : ℕ} {c : Campus} (v : IsCounted k c) where
  -- A student moves on before the section.
  move-IsCounted :
      (i : ℕ) {old : Student} (new : Student) (system : System)
      → get_elem? c.students i ≡ some old
      → done old ≡ 0
      → done new ≡ 0
      → IsCounted k (record c { students = set c.students i new; system = system })
  move-IsCounted i {old} new system e before after = record {
    size = omega (arith, v.size, length-set c.students i new);
    counted = ground (arith, v.counted, count-set done gone new c.students i e);
    signal = ground (
      arith,
      v.signal,
      count-set is_last last new c.students i e,
      not_last old before,
      not_last new after,
    );
  }

  check_out-IsCounted :
      (i : ℕ) (info : Info)
      → get_elem? c.students i ≡ some (leaving info)
      → IsCounted k
          (record c { students = set c.students i (check_out c.num).0; num = (check_out c.num).1 })
  unfolding check_out
  check_out-IsCounted i info e =
      let some_left : 0 < c.num = omega (
        arith,
        v.size,
        v.counted,
        count-set done gone gone c.students i e,
        count-le done gone (set c.students i gone),
        length-set c.students i gone,
      ) in
      record {
        size = omega (arith, v.size, length-set c.students i (check_out c.num).0);
        counted = ground (
          arith,
          v.counted,
          some_left,
          count-set done gone last c.students i e,
          count-set done gone gone c.students i e,
        );
        signal = ground (
          arith,
          v.signal,
          some_left,
          count-set is_last last last c.students i e,
          count-set is_last last gone c.students i e,
        );
      }

  kill-IsCounted :
      (i : ℕ)
      → get_elem? c.students i ≡ some last
      → IsCounted k (record c { students = set c.students i gone; signals = c.signals + 1 })
  kill-IsCounted i e = record {
    size = omega (arith, v.size, length-set c.students i gone);
    counted = ground (arith, v.counted, count-set done gone gone c.students i e);
    signal = ground (arith, v.signal, count-set is_last last gone c.students i e);
  }

after_answer-done : (info : Info) → done (after_answer info) ≡ 0
unfolding after_answer
after_answer-done info = ground arith

Move-IsCounted : {k : ℕ} {c d : Campus} → IsCounted k c → Move c d → IsCounted k d
Move-IsCounted v (enters i e sent) = move-IsCounted v i in_normal _ e refl refl
Move-IsCounted v (is_answered i info e got) =
    move-IsCounted v i (after_answer info) _ e refl (after_answer-done info)
Move-IsCounted v (goes_special i info e sent) = move-IsCounted v i in_special _ e refl refl
Move-IsCounted v (comes_back i info e got) = move-IsCounted v i (to_urgent info) _ e refl refl
Move-IsCounted v (goes_urgent i info e sent) = move-IsCounted v i in_urgent _ e refl refl
Move-IsCounted v (completes i info e got) = move-IsCounted v i (leaving info) _ e refl refl
Move-IsCounted v (checks_out i info e) = check_out-IsCounted v i info e
Move-IsCounted v (kills i e) = kill-IsCounted v i e
Move-IsCounted v (office_moves st other) = record {
  size = v.size;
  counted = v.counted;
  signal = v.signal;
}

opening-IsCounted :
    (k : ℕ) (junk : Info) (urgent : ℕ → ℕ) → 0 < k → IsCounted k (opening k junk urgent)
opening-IsCounted k junk urgent some_student = record {
  size = length-replicate k at_home;
  counted = omega (arith, replicate-count done gone refl refl k);
  signal = ground (arith, replicate-count is_last last refl refl k, some_student);
}

Moves-IsCounted :
    (n k : ℕ) (junk : Info) (urgent : ℕ → ℕ) {c : Campus}
    → 0 < k
    → Moves (opening k junk urgent) n c
    → IsCounted k c
Moves-IsCounted zero k junk urgent lt start = opening-IsCounted k junk urgent lt
Moves-IsCounted (suc n) k junk urgent lt (next ms st) =
    Move-IsCounted (Moves-IsCounted n k junk urgent lt ms) st

last_unique : (p : Student) → 0 < is_last p → last ≡ p
last_unique last some_there = refl
last_unique at_home some_there = absurd (omega arith)
last_unique in_normal some_there = absurd (omega arith)
last_unique (to_special info) some_there = absurd (omega arith)
last_unique in_special some_there = absurd (omega arith)
last_unique (to_urgent info) some_there = absurd (omega arith)
last_unique in_urgent some_there = absurd (omega arith)
last_unique (leaving info) some_there = absurd (omega arith)
last_unique gone some_there = absurd (omega arith)

last_found : (l : List Student) → 0 < count is_last last l → (i : ℕ) × (get_elem? l i ≡ some last)
unfolding count
last_found [] some_there = absurd (omega arith)
last_found (q ∷ l) some_there = elim (ℕ_discrete (is_last q) 0) [
  | yes e ↦ let (i, at_i) = last_found l (ground (arith, e)) in (suc i, at_i)
  | no ne ↦ (0, ap some (sym (last_unique q (omega arith))))
]

-- With at least one student, in any run of the threads: the signal that ends the program is sent at
-- most once; when it has been sent every student is behind its section on `num_students`; and when
-- that is counted down to 0 it has been sent, or a student is just before the `kill`.
pub signal_when_done :
    (n k : ℕ) (junk : Info) (urgent : ℕ → ℕ) {c : Campus}
    → 0 < k
    → Moves (opening k junk urgent) n c
    → (c.signals ≤ 1)
      × ((i : ℕ) (p : Student) → 0 < c.signals → get_elem? c.students i ≡ some p → done p ≡ 1)
      × (c.num ≡ 0 → (c.signals ≡ 1) ⊎ (i : ℕ) × (get_elem? c.students i ≡ some last))
signal_when_done n k junk urgent {c} lt ms =
    let v = Moves-IsCounted n k junk urgent lt ms in
    (
      ground (arith, v.signal),
      λ i p sent e.
          let none_left : c.num ≡ 0 = ground (arith, v.signal) in
          count_full done gone c.students i (omega (arith, v.counted, v.size)) e,
      λ none_left. elim (ℕ_discrete c.signals 0) [
        | yes e ↦ inr (last_found c.students (ground (arith, v.signal, e)))
        | no ne ↦ inl (ground (arith, v.signal, ne))
      ],
    )
