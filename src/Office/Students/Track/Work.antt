-- ===== src/Office/Students/Track/Work.antt =====
-- Where a request of Lab3/Lab3.c is in a buffer of requests or in the hands of an office, an office
-- can go on.
use system_device_programmin.Base.{
  ℕ, ◌+◌, ◌<◌, ◌≡◌, ◌≢◌, refl, ap, inl, inr, false, none, some, Option-cases, get_elem?, length,
  ℕ_discrete, arith,
}
use system_device_programmin.Office.Ring.{Info, get}
use system_device_programmin.Office.Ring.Refines.{put-IsQueue}
use system_device_programmin.Office.{
  num_offices, Shared, Queue, normal_q, special_q, urgent_q, answer_q, buffer_of, with_buffer,
  notify, send, receive, Office, waiting, serve_urgent, serve_normal, answer, office_take,
  office_urgent, office_normal, office_answer, special_take, special_serve,
}
use system_device_programmin.Office.System.{
  System, Special, at_top, serve_special, answer_special, Step, takes, serves_urgent, serves_normal,
  answers, special_takes, special_serves, special_answers,
}
use system_device_programmin.Office.Tokens.{Tokens, at_normal, at_urgent, at_special}
use system_device_programmin.Office.Tokens.Served.{office_finds, special_finds}
use system_device_programmin.Office.Students.{Campus, Move, by_student, office_moves}
use system_device_programmin.Office.Students.Track.{
  Lists, list_of, Represents, mine, in_hands, in_special_hand, Track,
}
use system_device_programmin.Office.Students.Track.Buffers.{list-buffer}
use system_device_programmin.Office.Students.Track.Own.{one_place, hand_mine}

pub one_of_four : (f : ℕ → ℕ) → 0 < f 0 + f 1 + f 2 + f 3 → (o : ℕ) × (o < num_offices) × (0 < f o)
one_of_four f some_one = elim (ℕ_discrete (f 0) 0) [
  | no at_0 ↦ (0, omega arith, omega arith)
  | yes e0 ↦ elim (ℕ_discrete (f 1) 0) [
    | no at_1 ↦ (1, omega arith, omega arith)
    | yes e1 ↦ elim (ℕ_discrete (f 2) 0) [
      | no at_2 ↦ (2, omega arith, omega arith)
      | yes e2 ↦ (3, omega arith, omega arith)
    ]
  ]
]

-- A thread can go on.
abbrev pub Goes : Campus → Type 0
Goes c = (d : Campus) × Move c d

pub can_send :
    (q : Queue) (v : Info) {s : Shared} {l : Lists}
    → Represents s l
    → length (list_of q l) < (buffer_of q s).dim
    → (m : Shared) × (send q v s ≡ some m)
unfolding send
can_send q v {s} {l} r room = elim (put-IsQueue (buffer_of q s) (list_of q l) v (list-buffer q r)) [
  | inl (there, b, e, new, same) ↦
      let s' = with_buffer q b s in (record s' { cond = notify q v s'.cond }, ground (arith, e))
  | inr (full, e) ↦ absurd (omega arith)
]

pub can_receive :
    (q : Queue) (s : Shared)
    → get (buffer_of q s) ≢ none
    → (v : Info) × (m : Shared) × (receive q s ≡ some (v, m))
unfolding receive
can_receive q s finds = elim (Option-cases (get (buffer_of q s))) [
  | inl stuck ↦ absurd (finds stuck)
  | inr ((v, b), got) ↦ (v, with_buffer q b s, ground (arith, got))
]

module _ (c : Campus) (l : Lists) (t : Track c l) (tokens : Tokens c.system) where
  shared : Shared
  shared = c.system.shared

  by_office : {u : System} (st : Step c.system u) → by_student st ≡ false → Goes c
  by_office st other = (_, office_moves st other)

  -- Whoever has a request in hand, there is nothing in the buffer for its answers.
  no_answer :
      (j : ℕ)
      → 0 < in_hands j c.system.office + in_special_hand j c.system.special
      → length (l.answers j) ≡ 0
  no_answer j in_hand = elim (Option-cases (get_elem? c.students j)) [
    | inl no_j ↦ absurd (omega (arith, (t.strangers j no_j).total))
    | inr (p, at_j) ↦ omega (arith, (t.each j p at_j).total, one_place p)
  ]

  can_answer :
      (v : Info)
      → 0 < in_hands v.id c.system.office + in_special_hand v.id c.system.special
      → (m : Shared) × (office_answer v c.system.shared ≡ some m)
  unfolding office_answer
  can_answer v in_hand =
      let some_room = (list-buffer (answer_q v.id) t.lists).out_in in
      can_send (answer_q v.id) v t.lists (omega (arith, no_answer v.id in_hand))

  -- An office that is not at the top of its loop goes on.
  busy_goes : (o : ℕ) (w : Office) → o < num_offices → c.system.office o ≡ w → w ≢ waiting → Goes c
  unfolding office_urgent office_normal
  busy_goes o waiting lt e busy = absurd (busy refl)
  busy_goes o serve_urgent lt e busy =
      let (v, m, got) =
        can_receive (urgent_q o) c.system.shared
          (office_finds c.system tokens o (urgent_q o) serve_urgent lt e refl) in
      elim (Option-cases (office_urgent o c.system.shared)) [
        | inl waits ↦ absurd (ground (arith, got))
        | inr ((w, m'), goes) ↦ by_office (serves_urgent o w lt e goes) refl
      ]
  busy_goes o serve_normal lt e busy =
      let (v, m, got) =
        can_receive normal_q c.system.shared
          (office_finds c.system tokens o normal_q serve_normal lt e refl) in
      elim (Option-cases (office_normal 0 o c.system.shared)) [
        | inl waits ↦ absurd (ground (arith, got))
        | inr ((w, m'), goes) ↦ by_office (serves_normal o 0 w lt e goes) refl
      ]
  busy_goes o (answer v) lt e busy =
      let (m, sent) = can_answer v (omega (arith, hand_mine v.id c.system.office o v lt e refl)) in
      by_office (answers o v lt e sent) refl

  -- The special office goes on where it is not at the top of its loop.
  busy_special_goes : (w : Special) → c.system.special ≡ w → w ≢ at_top → Goes c
  unfolding special_serve
  busy_special_goes at_top e busy = absurd (busy refl)
  busy_special_goes serve_special e busy =
      let (v, m, got) =
        can_receive special_q c.system.shared
          (special_finds c.system tokens special_q serve_special e refl) in
      by_office (special_serves v e got) refl
  busy_special_goes (answer_special v) e busy =
      let holds = ap (in_special_hand v.id) e in
      let one : mine v.id v ≡ 1 = ground arith in
      let (m, sent) = can_answer v (omega arith) in by_office (special_answers v e sent) refl

  -- An office goes on where a request is counted.
  counted_goes :
      (o : ℕ)
      → o < num_offices
      → 0 < c.system.shared.cond.normal + c.system.shared.cond.urgent o
      → Goes c
  unfolding office_take
  counted_goes o lt counted = at_place (c.system.office o) refl
    where
      at_place : (w : Office) → c.system.office o ≡ w → Goes c
      at_place waiting e = elim (Option-cases (office_take o c.system.shared)) [
        | inl waits ↦ absurd (ground arith)
        | inr ((w, m), goes) ↦ by_office (takes o w lt e goes) refl
      ]
      at_place serve_urgent e = busy_goes o serve_urgent lt e (ground arith)
      at_place serve_normal e = busy_goes o serve_normal lt e (ground arith)
      at_place (answer v) e = busy_goes o (answer v) lt e (ground arith)

  pub office_goes : (o : ℕ) → o < num_offices → c.system.office o ≢ waiting → Goes c
  office_goes o lt busy = busy_goes o (c.system.office o) lt refl busy

  pub special_office_goes : c.system.special ≢ at_top → Goes c
  special_office_goes busy = busy_special_goes c.system.special refl busy

  -- Where a buffer of requests is not empty, an office goes on.
  pub urgent_goes : (o : ℕ) → o < num_offices → 0 < length (l.urgent o) → Goes c
  urgent_goes o lt some_there =
      let size = (tokens.urgent o lt).0 in
      let same = (t.lists.urgent o).counted in
      elim (ℕ_discrete (c.system.shared.cond.urgent o) 0) [
        | yes none_counted ↦ office_goes o lt (λ e. omega (arith, ap at_urgent e))
        | no counted ↦ counted_goes o lt (omega arith)
      ]

  pub normal_goes : 0 < length l.normal → Goes c
  normal_goes some_there =
      let size = tokens.normal.0 in
      let same = t.lists.normal.counted in
      elim (ℕ_discrete c.system.shared.cond.normal 0) [
        | yes none_counted ↦
            let (o, lt, busy) = one_of_four (λ i. at_normal (c.system.office i)) (omega arith) in
            office_goes o lt (λ e. omega (arith, ap at_normal e))
        | no counted ↦ counted_goes 0 (omega arith) (omega arith)
      ]

  pub special_goes : 0 < length l.special → Goes c
  unfolding special_take
  special_goes some_there = at_place c.system.special refl
    where
      at_place : (w : Special) → c.system.special ≡ w → Goes c
      at_place at_top e =
          let size = tokens.special.0 in
          let same = t.lists.special.counted in
          let nobody = ap at_special e in
          let counted : c.system.shared.cond.urgent num_offices ≢ 0 = λ none_counted. omega arith in
          elim (Option-cases (special_take c.system.shared)) [
            | inl waits ↦ absurd (ground (arith, counted))
            | inr (m, goes) ↦ by_office (special_takes e goes) refl
          ]
      at_place serve_special e = busy_special_goes serve_special e (ground arith)
      at_place (answer_special v) e = busy_special_goes (answer_special v) e (ground arith)
