-- ===== src/Office/Students/Track/Progress.antt =====
-- The threads of Lab3/Lab3.c do not all wait while a student is not done.
use system_device_programmin.Base.{
  ℕ, ◌+◌, ◌≤◌, ◌<◌, ◌≡◌, ◌≢◌, refl, ap, inl, inr, List, [], ◌∷◌, some, get_elem?, length, arith,
  dec_lt,
}
use system_device_programmin.Office.Ring.{Info}
use system_device_programmin.Office.Ring.Refines.{get-IsQueue}
use system_device_programmin.Office.{
  num_offices, Queue, normal_q, special_q, urgent_q, answer_q, buffer_of, Shared, send, receive,
}
use system_device_programmin.Office.Tokens.{Tokens}
use system_device_programmin.Office.Tokens.Served.{IsZeroed, Reach-Tokens}
use system_device_programmin.Office.Students.{
  Student, at_home, in_normal, to_special, in_special, to_urgent, in_urgent, leaving, last, gone,
  Campus, Move, enters, is_answered, goes_special, comes_back, goes_urgent, completes, checks_out,
  kills, Moves,
}
use system_device_programmin.Office.Students.Signal.{opening}
use system_device_programmin.Office.Students.Track.{
  Lists, Represents, list_of, is_normal, is_special, is_urgent, of_mine, in_hand, in_hands,
  in_urgents, in_special_hand, Track,
}
use system_device_programmin.Office.Students.Track.Buffers.{list-buffer}
use system_device_programmin.Office.Students.Track.Runs.{Moves-Track, Moves-Reach}
use system_device_programmin.Office.Students.Track.Work.{
  Goes, can_send, can_receive, one_of_four, office_goes, special_office_goes, urgent_goes,
  normal_goes, special_goes,
}

length-of_mine : (i : ℕ) (xs : List Info) → 0 < of_mine i xs → 0 < length xs
length-of_mine i [] some_there = absurd (omega arith)
length-of_mine i (x ∷ xs) some_there = omega arith

can_get :
    (q : Queue) {s : Shared} {l : Lists}
    → Represents s l
    → 0 < length (list_of q l)
    → (v : Info) × (m : Shared) × (receive q s ≡ some (v, m))
can_get q {s} {l} r some_there = can_receive q s (λ stuck.
    elim (get-IsQueue (buffer_of q s) (list_of q l) (list-buffer q r)) [
      | inl (empty, e) ↦ omega (arith, ap length empty)
      | inr (x, ys, at_head, b, e, rest, same) ↦ ground arith
    ])

module _ (c : Campus) (l : Lists) (t : Track c l) (tokens : Tokens c.system) where
  -- The student sends, or the buffer is full and so not empty.
  sends :
      (q : Queue) (v : Info)
      → ((m : Shared) → send q v c.system.shared ≡ some m → Goes c)
      → (0 < length (list_of q l) → Goes c)
      → Goes c
  sends q v if_sent if_full =
      let b = list-buffer q t.lists in
      elim (dec_lt (length (list_of q l)) (buffer_of q c.system.shared).dim) [
        | yes room ↦ let (m, sent) = can_send q v t.lists room in if_sent m sent
        | no full ↦ if_full (omega (arith, b.out_in))
      ]

  -- A request of the student `i` is on its way to an answer.
  on_its_way :
      (i : ℕ)
      → 0
        < of_mine i l.normal
          + of_mine i l.special
          + in_urgents i l.urgent
          + in_hands i c.system.office
          + in_special_hand i c.system.special
      → Goes c
  on_its_way i somewhere = elim (dec_lt 0 (of_mine i l.normal)) [
    | yes here ↦ normal_goes c l t tokens (length-of_mine i l.normal here)
    | no not_normal ↦ elim (dec_lt 0 (of_mine i l.special)) [
      | yes here ↦ special_goes c l t tokens (length-of_mine i l.special here)
      | no not_special ↦ elim (dec_lt 0 (in_urgents i l.urgent)) [
        | yes here ↦
            let (o, lt, there) = one_of_four (λ j. of_mine i (l.urgent j)) here in
            urgent_goes c l t tokens o lt (length-of_mine i (l.urgent o) there)
        | no not_urgent ↦ elim (dec_lt 0 (in_hands i c.system.office)) [
          | yes here ↦
              let (o, lt, busy) = one_of_four (λ j. in_hand i (c.system.office j)) here in
              office_goes c l t tokens o lt (λ e. omega (arith, ap (in_hand i) e))
          | no not_hand ↦
              special_office_goes c l t tokens (λ e. omega (arith, ap (in_special_hand i) e))
        ]
      ]
    ]
  ]

  -- The student waits for its answer: it is there, or its request is on its way.
  waits :
      (i : ℕ) (p : Student)
      → get_elem? c.students i ≡ some p
      → is_normal p + is_special p + is_urgent p ≡ 1
      → ((v : Info) (m : Shared) → receive (answer_q i) c.system.shared ≡ some (v, m) → Goes c)
      → Goes c
  waits i p e waiting_there if_answered =
      let total = (t.each i p e).total in
      elim (dec_lt 0 (length (l.answers i))) [
        | no not_yet ↦ on_its_way i (omega arith)
        | yes answered ↦
            let (v, m, got) = can_get (answer_q i) t.lists answered in if_answered v m got
      ]

  student_goes : (i : ℕ) (p : Student) → get_elem? c.students i ≡ some p → p ≢ gone → Goes c
  student_goes i at_home e here =
      sends normal_q (record { id = i; office_no = num_offices; urgent = 0 })
        (λ m sent. (_, enters i e sent)) (normal_goes c l t tokens)
  student_goes i in_normal e here = waits i in_normal e refl (λ v m got. (_, is_answered i v e got))
  student_goes i (to_special v) e here =
      sends special_q v (λ m sent. (_, goes_special i v e sent)) (special_goes c l t tokens)
  student_goes i in_special e here =
      waits i in_special e refl (λ v m got. (_, comes_back i v e got))
  student_goes i (to_urgent v) e here =
      sends (urgent_q v.office_no) v (λ m sent. (_, goes_urgent i v e sent))
        (urgent_goes c l t tokens v.office_no (t.each i (to_urgent v) e).held.1.1)
  student_goes i in_urgent e here = waits i in_urgent e refl (λ v m got. (_, completes i v e got))
  student_goes i (leaving v) e here = (_, checks_out i v e)
  student_goes i last e here = (_, kills i e)
  student_goes i gone e here = absurd (here refl)

-- In every state of a run with at least two students, where the counters `urgent`, which the
-- program does not set, started at 0: while a student is not at the end of its thread, some thread
-- can go on: the students, the offices and the special office never all wait for one another.
pub threads_go_on :
    (n k : ℕ) (junk : Info) (urgent : ℕ → ℕ) {c : Campus} (i : ℕ) (p : Student)
    → 2 ≤ k
    → IsZeroed urgent
    → Moves (opening k junk urgent) n c
    → get_elem? c.students i ≡ some p
    → p ≢ gone
    → (d : Campus) × Move c d
threads_go_on n k junk urgent {c} i p two zeroed ms e here =
    let (l, t) = Moves-Track n k junk urgent two ms in
    let (m, r) = Moves-Reach n k junk urgent two ms in
    student_goes c l t (Reach-Tokens m k junk urgent two zeroed r) i p e here
