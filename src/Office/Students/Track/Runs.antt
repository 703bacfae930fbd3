-- ===== src/Office/Students/Track/Runs.antt =====
-- What the tracks of the requests give for whole runs of Lab3/Lab3.c.
use system_device_programmin.Base.{
  ℕ, zero, suc, ◌+◌, ◌/◌, ◌≤◌, ◌≡◌, refl, [], some, get_elem?, get_elem?-replicate_inv, subst,
  length, arith,
}
use system_device_programmin.Office.Ring.{Info}
use system_device_programmin.Office.Ring.Refines.{b_init-IsQueue}
use system_device_programmin.Office.System.{
  student_normal, student_special, student_urgent, student_receives, Reach, start, next,
}
use system_device_programmin.Office.Tokens.Served.{initial}
use system_device_programmin.Office.Students
use system_device_programmin.Office.Students.{
  Student, at_home, in_normal, to_special, in_special, to_urgent, in_urgent, gone, Campus, Move,
  enters, is_answered, goes_special, comes_back, goes_urgent, completes, checks_out, kills,
  office_moves, Moves,
}
use system_device_programmin.Office.Students.Signal.{opening}
use system_device_programmin.Office.Students.Track.{
  Lists, Represents, Each, is_normal, is_special, is_urgent, of_mine, in_urgents, in_hands,
  in_special_hand, Fits, OnTrack, Track,
}
use system_device_programmin.Office.Students.Track.Own.{none-OnTrack}
use system_device_programmin.Office.Students.Track.Moves.{Move-Track}

abbrev no_lists : Lists
no_lists = record { normal = []; special = []; urgent = λ o. []; answers = λ i. [] }

opening-Track :
    (k : ℕ) (junk : Info) (urgent : ℕ → ℕ) → 2 ≤ k → Track (opening k junk urgent) no_lists
opening-Track k junk urgent two = record {
  lists = record {
    normal = b_init-IsQueue junk k (omega arith);
    special = b_init-IsQueue junk k (omega arith);
    urgent = λ o. b_init-IsQueue junk (k / 2) (omega arith);
    answers = λ i. b_init-IsQueue junk 2 (omega arith);
  };
  again = tt;
  special_hand = λ v e. absurd (ground arith);
  each = λ i p e.
      subst (λ q. OnTrack i q (initial k junk urgent) no_lists)
        (get_elem?-replicate_inv k i at_home e)
        (none-OnTrack i at_home (initial k junk urgent) no_lists refl tt refl);
  strangers = λ i no_i. none-OnTrack i gone (initial k junk urgent) no_lists refl tt refl;
}

pub Moves-Track :
    (n k : ℕ) (junk : Info) (urgent : ℕ → ℕ) {c : Campus}
    → 2 ≤ k
    → Moves (opening k junk urgent) n c
    → (l : Lists) × Track c l
Moves-Track zero k junk urgent two Students.start = (no_lists, opening-Track k junk urgent two)
Moves-Track (suc n) k junk urgent two (Students.next ms mv) =
    let (l, t) = Moves-Track n k junk urgent two ms in Move-Track _ l t mv

-- A move is a step of the offices and requests, or none.
Move-Reach :
    (k m : ℕ) (junk : Info) (urgent : ℕ → ℕ) {c d : Campus} {l : Lists}
    → Track c l
    → Move c d
    → Reach (initial k junk urgent) m c.system
    → (m' : ℕ) × Reach (initial k junk urgent) m' d.system
Move-Reach k m junk urgent t (enters i e sent) r = (_, next r (student_normal _ refl sent))
Move-Reach k m junk urgent t (is_answered i v e got) r = (_, next r (student_receives i v got))
Move-Reach k m junk urgent t (goes_special i v e sent) r =
    let again = (t.each i (to_special v) e).held.1 in (_, next r (student_special v again.0 sent))
Move-Reach k m junk urgent t (comes_back i v e got) r = (_, next r (student_receives i v got))
Move-Reach k m junk urgent t (goes_urgent i v e sent) r =
    let again = (t.each i (to_urgent v) e).held.1 in
    (_, next r (student_urgent v again.0 again.1 sent))
Move-Reach k m junk urgent t (completes i v e got) r = (_, next r (student_receives i v got))
Move-Reach k m junk urgent t (checks_out i v e) r = (_, r)
Move-Reach k m junk urgent t (kills i e) r = (_, r)
Move-Reach k m junk urgent t (office_moves st office) r = (_, next r st)

-- Every run with at least two students as threads is, for the shared state and the offices, a run
-- of System: the students send only requests that keep the guards there.
pub Moves-Reach :
    (n k : ℕ) (junk : Info) (urgent : ℕ → ℕ) {c : Campus}
    → 2 ≤ k
    → Moves (opening k junk urgent) n c
    → (m : ℕ) × Reach (initial k junk urgent) m c.system
Moves-Reach zero k junk urgent two Students.start = (0, start)
Moves-Reach (suc n) k junk urgent two (Students.next ms mv) =
    let (l, t) = Moves-Track n k junk urgent two ms in
    let (m, r) = Moves-Reach n k junk urgent two ms in Move-Reach k m junk urgent t mv r

-- In every state of a run with at least two students, exactly one request of a student is in the
-- buffers and in the hands of the offices while the student waits for an answer, and none at any
-- other time; and what is in the buffer for its answers is its own.
pub one_request :
    (n k : ℕ) (junk : Info) (urgent : ℕ → ℕ) {c : Campus}
    → 2 ≤ k
    → Moves (opening k junk urgent) n c
    → (l : Lists) × Represents c.system.shared l
      × ((i : ℕ) (p : Student)
          → get_elem? c.students i ≡ some p
          → (of_mine i l.normal
                + of_mine i l.special
                + in_urgents i l.urgent
                + length (l.answers i)
                + in_hands i c.system.office
                + in_special_hand i c.system.special
              ≡ is_normal p + is_special p + is_urgent p)
            × Each (Fits i p) (l.answers i))
one_request n k junk urgent two ms =
    let (l, t) = Moves-Track n k junk urgent two ms in
    (l, t.lists, λ i p e. ((t.each i p e).total, (t.each i p e).answers))
