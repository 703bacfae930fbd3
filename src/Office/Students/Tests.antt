-- ===== src/Office/Students/Tests.antt =====
-- A run of the only student of Lab3/Lab3.c, up to the signal.
use system_device_programmin.Base.{
  length, ◌+◌, ℕ, ◌≤◌, ◌<◌, ◌≡◌, ◌⊎◌, refl, [], ◌∷◌, some, get_elem?, arith,
}
use system_device_programmin.Office.Ring.{Info, b_init, put, get}
use system_device_programmin.Office.{
  Shared, normal_q, answer_q, send, receive, notify, update, Office, waiting, serve_normal, answer,
  office_take, office_normal, office_answer,
}
use system_device_programmin.Office.System.{takes, serves_normal, answers}
use system_device_programmin.Office.Students.{
  Student, last, leaving, gone, Campus, check_out, after_answer, Moves, start, next, enters,
  is_answered, checks_out, kills, office_moves,
}
use system_device_programmin.Office.Students.{in_normal, move, Move}
use system_device_programmin.Office.System.{Reach}
use system_device_programmin.Office.Tokens.Served.{IsZeroed, initial}
use system_device_programmin.Office.Students.Track.{
  Lists, Represents, Each, Fits, of_mine, in_urgents, in_hands, in_special_hand, is_normal,
  is_special, is_urgent,
}
use system_device_programmin.Office.Students.Track.Runs.{Moves-Reach, one_request}
use system_device_programmin.Office.Students.Track.Progress.{threads_go_on}
use system_device_programmin.Office.Students.Signal.{done, opening, signal_when_done}

-- The counters in zeroed memory.
abbrev zeros : ℕ → ℕ
zeros i = 0

zeros-IsZeroed : IsZeroed zeros
zeros-IsZeroed i le = refl

abbrev blank : Info
blank = record { id = 0; office_no = 0; urgent = 0 }

abbrev request : Info
request = record { id = 0; office_no = 4; urgent = 0 }

-- The answer of office 2.
abbrev reply : Info
reply = record { id = 0; office_no = 2; urgent = 0 }

abbrev first : Campus
first = opening 1 blank zeros

abbrev m1 : Shared
m1 = record first.system.shared {
  normal_Q = record { buffer = request ∷ []; in_at = 0; out_at = 0; count = 1; dim = 1 };
  cond = record { urgent = λ i. 0; normal = 1 };
}

abbrev m2 : Shared
m2 = record m1 { cond = record { urgent = λ i. 0; normal = 0 } }

abbrev m3 : Shared
m3 = record m2 {
  normal_Q = record { buffer = request ∷ []; in_at = 0; out_at = 0; count = 0; dim = 1 };
}

abbrev m4 : Shared
m4 = record m3 {
  answer_Q =
      update m3.answer_Q 0
        (record { buffer = reply ∷ blank ∷ []; in_at = 1; out_at = 0; count = 1; dim = 2 });
}

abbrev m5 : Shared
m5 = record m4 {
  answer_Q =
      update m4.answer_Q 0
        (record { buffer = reply ∷ blank ∷ []; in_at = 1; out_at = 1; count = 0; dim = 2 });
}

enter : send normal_q request first.system.shared ≡ some m1
unfolding send notify put b_init
enter = refl

take : office_take 2 m1 ≡ some (serve_normal, m2)
unfolding office_take
take = refl

serve : office_normal 9 2 m2 ≡ some (answer reply, m3)
unfolding office_normal receive get
serve = refl

reply_sent : office_answer reply m3 ≡ some m4
unfolding office_answer send notify put b_init
reply_sent = refl

reply_got : receive (answer_q 0) m4 ≡ some (reply, m5)
unfolding receive get
reply_got = refl

-- The office serves the student; then the student leaves, counts down and sends the signal.
abbrev office : ℕ → Office
office = update (update (update first.system.office 2 serve_normal) 2 (answer reply)) 2 waiting

abbrev left : Campus
left = record {
  system = record first.system { shared = m5; office = office };
  students = gone ∷ [];
  num = 0;
  signals = 1;
}

leaves : after_answer reply ≡ leaving reply
unfolding after_answer
leaves = refl

run : Moves first 7 left
unfolding check_out after_answer
run =
    next
      (next
        (next
          (next
            (next
              (next (next start (enters 0 refl enter))
                (office_moves (takes 2 serve_normal (omega arith) refl take) refl))
              (office_moves (serves_normal 2 9 (answer reply) (omega arith) refl serve) refl))
            (office_moves (answers 2 reply (omega arith) refl reply_sent) refl))
          (is_answered 0 reply refl reply_got))
        (checks_out 0 reply refl))
      (kills 0 refl)

signal_when_done_example :
    (left.signals ≤ 1)
    × ((i : ℕ) (p : Student) → 0 < left.signals → get_elem? left.students i ≡ some p → done p ≡ 1)
    × (left.num ≡ 0 → (left.signals ≡ 1) ⊎ (i : ℕ) × (get_elem? left.students i ≡ some last))
signal_when_done_example = signal_when_done 7 1 blank zeros (omega arith) run

-- Of two students the second has sent its request.
abbrev second : Info
second = record { id = 1; office_no = 4; urgent = 0 }

abbrev both : Campus
both = opening 2 blank zeros

abbrev sent : Shared
sent = record both.system.shared {
  normal_Q = record { buffer = second ∷ blank ∷ []; in_at = 1; out_at = 0; count = 1; dim = 2 };
  cond = record { urgent = λ i. 0; normal = 1 };
}

second_sends : send normal_q second both.system.shared ≡ some sent
unfolding send notify put b_init
second_sends = refl

abbrev waits : Campus
waits = move 1 in_normal sent both

short_run : Moves both 1 waits
short_run = next start (enters 1 refl second_sends)

Moves-Reach_example : (m : ℕ) × Reach (initial 2 blank zeros) m waits.system
Moves-Reach_example = Moves-Reach 1 2 blank zeros (omega arith) short_run

threads_go_on_example : (d : Campus) × Move waits d
threads_go_on_example =
    threads_go_on 1 2 blank zeros 1 in_normal (omega arith) zeros-IsZeroed short_run refl
      (ground arith)

one_request_example :
    (l : Lists) × Represents waits.system.shared l
    × ((i : ℕ) (p : Student)
        → get_elem? waits.students i ≡ some p
        → (of_mine i l.normal
              + of_mine i l.special
              + in_urgents i l.urgent
              + length (l.answers i)
              + in_hands i waits.system.office
              + in_special_hand i waits.system.special
            ≡ is_normal p + is_special p + is_urgent p)
          × Each (Fits i p) (l.answers i))
one_request_example = one_request 1 2 blank zeros (omega arith) short_run
