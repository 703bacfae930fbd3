-- ===== src/Office/System.antt =====
-- The threads of Lab3/Lab3.c, in any order: the offices and the special office as in their code,
-- and requests of students.
use system_device_programmin.Base.{ℕ, suc, ◌<◌, ◌≡◌, some}
use system_device_programmin.Office.Ring.{Info}
use system_device_programmin.Office.{
  num_offices, update, Shared, normal_q, special_q, urgent_q, answer_q, send, receive, Office,
  waiting, serve_urgent, serve_normal, answer, office_take, office_urgent, office_normal,
  office_answer, special_take, special_serve,
}

-- Where the thread of the special office stands.
pub data Special : Type 0 where
  at_top : Special
  serve_special : Special
  answer_special : Info → Special

pub record System : Type 0 where
  pub shared : Shared
  pub office : ℕ → Office
  pub special : Special

-- A step of one thread. What a student sends where is what `student` does: to the normal queue with
-- `urgent` 0; and with `urgent` 1 to the special queue and to the queue of `office_no`.
pub data Step (s : System) : System → Type 0 where
  student_normal :
      (info : Info) {m : Shared}
      → info.urgent ≡ 0
      → send normal_q info s.shared ≡ some m
      → Step s (record s { shared = m })
  student_special :
      (info : Info) {m : Shared}
      → info.urgent ≡ 1
      → send special_q info s.shared ≡ some m
      → Step s (record s { shared = m })
  student_urgent :
      (info : Info) {m : Shared}
      → info.urgent ≡ 1
      → info.office_no < num_offices
      → send (urgent_q info.office_no) info s.shared ≡ some m
      → Step s (record s { shared = m })
  student_receives :
      (i : ℕ) (info : Info) {m : Shared}
      → receive (answer_q i) s.shared ≡ some (info, m)
      → Step s (record s { shared = m })
  takes :
      (i : ℕ) (w : Office) {m : Shared}
      → i < num_offices
      → s.office i ≡ waiting
      → office_take i s.shared ≡ some (w, m)
      → Step s (record s { shared = m; office = update s.office i w })
  serves_urgent :
      (i : ℕ) (w : Office) {m : Shared}
      → i < num_offices
      → s.office i ≡ serve_urgent
      → office_urgent i s.shared ≡ some (w, m)
      → Step s (record s { shared = m; office = update s.office i w })
  serves_normal :
      (i draw : ℕ) (w : Office) {m : Shared}
      → i < num_offices
      → s.office i ≡ serve_normal
      → office_normal draw i s.shared ≡ some (w, m)
      → Step s (record s { shared = m; office = update s.office i w })
  answers :
      (i : ℕ) (info : Info) {m : Shared}
      → i < num_offices
      → s.office i ≡ answer info
      → office_answer info s.shared ≡ some m
      → Step s (record s { shared = m; office = update s.office i waiting })
  special_takes :
      {m : Shared}
      → s.special ≡ at_top
      → special_take s.shared ≡ some m
      → Step s (record s { shared = m; special = serve_special })
  special_serves :
      (info : Info) {m : Shared}
      → s.special ≡ serve_special
      → special_serve s.shared ≡ some (info, m)
      → Step s (record s { shared = m; special = answer_special info })
  special_answers :
      (info : Info) {m : Shared}
      → s.special ≡ answer_special info
      → office_answer info s.shared ≡ some m
      → Step s (record s { shared = m; special = at_top })

-- `Reach s k t`: `k` steps lead from `s` to `t`.
pub data Reach (s : System) : ℕ → System → Type 0 where
  start : Reach s 0 s
  next : {k : ℕ} {t u : System} → Reach s k t → Step t u → Reach s (suc k) u
