-- ===== src/Office/Tokens/Served.antt =====
-- In Lab3/Lab3.c a request that an office has counted down is in the buffer.
use system_device_programmin.Base.{
  ℕ, zero, suc, ◌/◌, ◌≤◌, ◌<◌, ◌≡◌, ◌≢◌, refl, [], ◌==◌, if◌then◌else◌, ℕ_discrete, Option, none,
  some, subst, ap, arith,
}
use mathlib.Core.Option.{some-injective}
use system_device_programmin.Office.Ring.{Info, Buffer, b_init, get}
use system_device_programmin.Office.Ring.Refines.{b_init-IsQueue}
use system_device_programmin.Office.{
  num_offices, normal_q, special_q, urgent_q, receive, Office, waiting, serve_urgent, serve_normal,
  Queue, buffer_of, answer,
}
use system_device_programmin.Office.System.{
  System, Special, answer_special, at_top, serve_special, Step, student_normal, student_special,
  student_urgent, student_receives, takes, serves_urgent, serves_normal, answers, special_takes,
  special_serves, special_answers, Reach, start, next,
}
use system_device_programmin.Office.Tokens.{
  Holds, get_finds, at_normal, at_urgent, at_special, all_normal, all_normal-update, Tokens,
}
use system_device_programmin.Office.Tokens.Students.{
  student_normal-Tokens, student_special-Tokens, student_urgent-Tokens, answer_received-Tokens,
  answer_sent-Tokens,
}
use system_device_programmin.Office.Tokens.Offices.{
  office_take-Tokens, office_urgent-Tokens, office_normal-Tokens, office_answer-Tokens,
}
use system_device_programmin.Office.Tokens.Seat.{
  special_take-Tokens, special_serve-Tokens, special_answer-Tokens,
}

-- The start, with `k` students and every thread at its top. `cond_init` sets `normal` to 0, and leaves
-- in the counters `urgent` what stood in the memory from malloc; numbers below 0 are left out here.
abbrev pub initial : ℕ → Info → (ℕ → ℕ) → System
initial k junk urgent = record {
  shared = record {
    normal_Q = b_init junk k;
    special_Q = b_init junk k;
    urgent_Q = λ i. b_init junk (k / 2);
    answer_Q = λ i. b_init junk 2;
    cond = record { urgent = urgent; normal = 0 };
  };
  office = λ i. waiting;
  special = at_top;
}

b_init-Holds : (junk : Info) (dim : ℕ) → 0 < dim → Holds (b_init junk dim) 0
unfolding b_init
b_init-Holds junk dim room = (refl, [], b_init-IsQueue junk dim room)

-- The memory that `malloc` returned for the counters was zeroed.
abbrev pub IsZeroed : (ℕ → ℕ) → Type 0
IsZeroed urgent = (i : ℕ) → i ≤ num_offices → urgent i ≡ 0

initial-Tokens :
    (k : ℕ) (junk : Info) (urgent : ℕ → ℕ)
    → 2 ≤ k
    → IsZeroed urgent
    → Tokens (initial k junk urgent)
initial-Tokens k junk urgent two zeroed = record {
  normal = b_init-Holds junk k (omega arith);
  urgent = λ i lt.
      subst (Holds (b_init junk (k / 2))) {x = 0} (omega (arith, zeroed i (omega arith)))
        (b_init-Holds junk (k / 2) (omega arith));
  special =
      subst (Holds (b_init junk k)) {x = 0} (omega (arith, zeroed num_offices (omega arith)))
        (b_init-Holds junk k (omega arith));
}

Step-Tokens : {s s' : System} → Tokens s → Step s s' → Tokens s'
Step-Tokens {s} t (student_normal info plain e) = student_normal-Tokens s t info plain e
Step-Tokens {s} t (student_special info again e) = student_special-Tokens s t info again e
Step-Tokens {s} t (student_urgent info again inside e) =
    student_urgent-Tokens s t info again inside e
Step-Tokens {s} t (student_receives i info e) = answer_received-Tokens s t i info e
Step-Tokens {s} t (takes i w lt idle e) = office_take-Tokens s t i w lt idle e
Step-Tokens {s} t (serves_urgent i w lt busy e) = office_urgent-Tokens s t i w lt busy e
Step-Tokens {s} t (serves_normal i draw w lt busy e) = office_normal-Tokens s t i draw w lt busy e
Step-Tokens {s} t (answers i info lt busy e) =
    office_answer-Tokens _ (answer_sent-Tokens s t info e) i info lt busy
Step-Tokens {s} t (special_takes idle e) = special_take-Tokens s t idle e
Step-Tokens {s} t (special_serves info busy e) = special_serve-Tokens s t info busy e
Step-Tokens {s} t (special_answers info busy e) =
    special_answer-Tokens _ (answer_sent-Tokens s t info e) info busy

-- In every state that the threads reach, with at least two students and the counters `urgent`
-- started at 0, each buffer of requests holds as many as its counter says, and one more for each
-- thread that has counted one down and has not received it yet.
pub Reach-Tokens :
    (n k : ℕ) (junk : Info) (urgent : ℕ → ℕ) {s : System}
    → 2 ≤ k
    → IsZeroed urgent
    → Reach (initial k junk urgent) n s
    → Tokens s
Reach-Tokens zero k junk urgent two zeroed start = initial-Tokens k junk urgent two zeroed
Reach-Tokens (suc n) k junk urgent two zeroed (next r step) =
    Step-Tokens (Reach-Tokens n k junk urgent two zeroed r) step

finds : (b : Buffer) (n : ℕ) → 0 < n → Holds b n → get b ≢ none
finds b zero lt h = elim lt [ ]
finds b (suc n) lt h = get_finds b n h

busy-all_normal : (f : ℕ → Office) (i : ℕ) → i < num_offices → f i ≡ serve_normal → 0 < all_normal f
busy-all_normal f i lt busy = omega (arith, all_normal-update f i waiting lt, ap at_normal busy)

-- The buffer at whose `receive` a thread stands after it has counted a request down: that of office
-- `i`, or of the special office.
abbrev pub pending_office : ℕ → Office → Option Queue
pending_office i serve_normal = some normal_q
pending_office i serve_urgent = some (urgent_q i)
pending_office i _ = none

abbrev pub pending_special : Special → Option Queue
pending_special serve_special = some special_q
pending_special _ = none

abbrev pub pending : ℕ → System → Option Queue
pending i s = if i == num_offices then pending_special s.special else pending_office i (s.office i)

pub office_finds :
    (s : System) (t : Tokens s) (i : ℕ) (q : Queue) (w : Office)
    → i < num_offices
    → s.office i ≡ w
    → pending_office i w ≡ some q
    → get (buffer_of q s.shared) ≢ none
office_finds s t i q serve_normal lt busy e =
    subst (λ x. get (buffer_of x s.shared) ≢ none) (some-injective _ _ e)
      (finds s.shared.normal_Q _ (omega (arith, busy-all_normal s.office i lt busy)) t.normal)
office_finds s t i q serve_urgent lt busy e =
    subst (λ x. get (buffer_of x s.shared) ≢ none) (some-injective _ _ e)
      (finds (s.shared.urgent_Q i) _ (omega (arith, ap at_urgent busy)) (t.urgent i lt))
office_finds s t i q waiting lt busy e = absurd (ground arith)
office_finds s t i q (answer v) lt busy e = absurd (ground arith)

pub special_finds :
    (s : System) (t : Tokens s) (q : Queue) (w : Special)
    → s.special ≡ w
    → pending_special w ≡ some q
    → get (buffer_of q s.shared) ≢ none
special_finds s t q serve_special busy e =
    subst (λ x. get (buffer_of x s.shared) ≢ none) (some-injective _ _ e)
      (finds s.shared.special_Q _ (omega (arith, ap at_special busy)) t.special)
special_finds s t q at_top busy e = absurd (ground arith)
special_finds s t q (answer_special v) busy e = absurd (ground arith)

-- In every state that the threads reach, with at least two students, and where the counters
-- `urgent` started at 0, an office or the special office that has counted a request down does not
-- wait in the `receive` that follows.
pub served_at_once :
    (n k : ℕ) (junk : Info) (urgent : ℕ → ℕ) {s : System} (i : ℕ) (q : Queue)
    → 2 ≤ k
    → IsZeroed urgent
    → Reach (initial k junk urgent) n s
    → i ≤ num_offices
    → pending i s ≡ some q
    → receive q s.shared ≢ none
unfolding receive
served_at_once n k junk urgent {s} i q two zeroed r le e =
    let t = Reach-Tokens n k junk urgent two zeroed r in
    elim (ℕ_discrete i num_offices) [
      | yes top ↦
          let found = special_finds s t q s.special refl (ground arith) in
          λ stuck. found (ground arith)
      | no ne ↦
          let found = office_finds s t i q (s.office i) (omega arith) refl (ground arith) in
          λ stuck. found (ground arith)
    ]
