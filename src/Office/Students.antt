-- ===== src/Office/Students.antt =====
-- The students of Lab3/Lab3.c as threads beside the offices, up to the signal that ends the program.
pub mod Signal
pub mod Track
mod Tests
use system_device_programmin.Base.{
  ℕ, suc, ◌-◌, ◌+◌, ◌≡◌, Bool, true, false, List, some, if◌then◌else◌, ◌==◌, get_elem?, set,
}
use system_device_programmin.Office.Ring.{Info}
use system_device_programmin.Office.{
  num_offices, Shared, normal_q, special_q, urgent_q, answer_q, send, receive,
}
use system_device_programmin.Office.System.{
  System, Step, student_normal, student_special, student_urgent, student_receives,
}

-- Where the thread of a student stands.
pub data Student : Type 0 where
  at_home : Student  -- before the first `send`
  in_normal : Student  -- at the first `receive`
  to_special : Info → Student
  in_special : Student
  to_urgent : Info → Student
  in_urgent : Student
  leaving : Info → Student  -- before the lock of `num_students`
  last : Student  -- it has counted down to 0 and is at the `kill`
  gone : Student

-- `num` is `num_students.num`; `signals` counts the calls of `kill`.
pub record Campus : Type 0 where
  pub system : System
  pub students : List Student
  pub num : ℕ
  pub signals : ℕ

-- Behind the first `receive`.
unfoldable pub after_answer : Info → Student
after_answer info = if info.urgent == 1 then to_special info else leaving info

-- The section under the lock of `num_students`: the place behind it, and `num`.
unfoldable pub check_out : ℕ → Student × ℕ
check_out num = let num' = num - 1 in (if num' == 0 then last else gone, num')

abbrev pub move : ℕ → Student → Shared → Campus → Campus
move i p m c = record c { system = record c.system { shared = m }; students = set c.students i p }

abbrev pub by_student : {s t : System} → Step s t → Bool
by_student (student_normal info plain e) = true
by_student (student_special info again e) = true
by_student (student_urgent info again inside e) = true
by_student (student_receives i info e) = true
by_student _ = false

-- A step of the student `i`, or of an office.
pub data Move (c : Campus) : Campus → Type 0 where
  enters :
      (i : ℕ) {m : Shared}
      → get_elem? c.students i ≡ some at_home
      → send normal_q (record { id = i; office_no = num_offices; urgent = 0 }) c.system.shared
        ≡ some m
      → Move c (move i in_normal m c)
  is_answered :
      (i : ℕ) (info : Info) {m : Shared}
      → get_elem? c.students i ≡ some in_normal
      → receive (answer_q i) c.system.shared ≡ some (info, m)
      → Move c (move i (after_answer info) m c)
  goes_special :
      (i : ℕ) (info : Info) {m : Shared}
      → get_elem? c.students i ≡ some (to_special info)
      → send special_q info c.system.shared ≡ some m
      → Move c (move i in_special m c)
  comes_back :
      (i : ℕ) (info : Info) {m : Shared}
      → get_elem? c.students i ≡ some in_special
      → receive (answer_q i) c.system.shared ≡ some (info, m)
      → Move c (move i (to_urgent info) m c)
  goes_urgent :
      (i : ℕ) (info : Info) {m : Shared}
      → get_elem? c.students i ≡ some (to_urgent info)
      → send (urgent_q info.office_no) info c.system.shared ≡ some m
      → Move c (move i in_urgent m c)
  completes :
      (i : ℕ) (info : Info) {m : Shared}
      → get_elem? c.students i ≡ some in_urgent
      → receive (answer_q i) c.system.shared ≡ some (info, m)
      → Move c (move i (leaving info) m c)
  checks_out :
      (i : ℕ) (info : Info)
      → get_elem? c.students i ≡ some (leaving info)
      → Move c
          (record c { students = set c.students i (check_out c.num).0; num = (check_out c.num).1 })
  kills :
      (i : ℕ)
      → get_elem? c.students i ≡ some last
      → Move c (record c { students = set c.students i gone; signals = c.signals + 1 })
  office_moves :
      {t : System} (st : Step c.system t) → by_student st ≡ false → Move c (record c { system = t })

pub data Moves (c : Campus) : ℕ → Campus → Type 0 where
  start : Moves c 0 c
  next : {n : ℕ} {d e : Campus} → Moves c n d → Move d e → Moves c (suc n) e
