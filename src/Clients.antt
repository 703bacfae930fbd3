-- ===== src/Clients.antt =====
-- Lab1/Lab1.3.c: two clients read numbers from files, and the handler of a signal serves them.
pub mod Counts
pub mod Stuck
mod Tests
use system_device_programmin.Base.{
  ℕ, zero, suc, ◌+◌, ◌-◌, ◌*◌, ◌<◌, ◌≡◌, ◌≢◌, Bool, true, false, List, [], ◌∷◌, some, get_elem?,
  set, ℤ, pos, ◌+ℤ◌, int, if◌then◌else◌, ◌==◌,
}

-- Where a client stands in `thread_func`. It holds `mutex` in `reading`, `has_read`, `at_eof` and
-- `printing`.
pub data Client : Type 0 where
  at_open at_top reading has_read at_eof at_kill at_ready to_print printing finished : Client

-- Where the handler `server_func` stands in a thread, `idle` where it does not run there. It holds
-- `mutex` in `doubling`.
pub data Server : Type 0 where
  idle at_mutex doubling to_post : Server

-- The clients are the threads 0 and 1, `main` is the thread 2. Each thread has its place in
-- `handlers`: while the handler runs in a thread, that thread does nothing else, and a second signal
-- does not interrupt it, but the handler may run in the other threads at the same time. A signal that
-- comes while one is `pending` is lost. Each client has the rest of its file. `printed` has the
-- results so far, with the ids 1 and 2.
pub record System : Type 0 where
  pub mutex : ℕ
  pub ready : ℕ
  pub number : ℤ
  pub request_nb : ℕ
  pub clients : List Client
  pub files : ℕ → List ℤ
  pub pending : Bool
  pub handlers : List Server
  pub printed : List (ℕ × ℤ)

abbrev pub At : ℕ → Client → System → Type 0
At i p s = (get_elem? s.clients i ≡ some p) × (get_elem? s.handlers i ≡ some idle)

abbrev pub to : ℕ → Client → System → System
to i p s = record s { clients = set s.clients i p }

-- The handler in the thread `i` goes to `w`.
abbrev pub serve : ℕ → Server → System → System
serve i w s = record s { handlers = set s.handlers i w }

pub data Step (s : System) : System → Type 0 where
  opens : (i : ℕ) → At i at_open s → Step s (to i at_top s)
  fails_opening : (i : ℕ) → At i at_open s → Step s (to i finished s)
  enters :
      (i : ℕ)
      → At i at_top s
      → 0 < s.mutex
      → Step s (record (to i reading s) { mutex = s.mutex - 1 })
  reads :
      (i : ℕ) (x : ℤ) (xs : List ℤ)
      → At i reading s
      → s.files i ≡ x ∷ xs
      → Step s
          (record (to i has_read s) { number = x; files = λ j. if j == i then xs else s.files j })
  meets_end : (i : ℕ) → At i reading s → s.files i ≡ [] → Step s (to i at_eof s)
  leaves : (i : ℕ) → At i has_read s → Step s (record (to i at_kill s) { mutex = s.mutex + 1 })
  ends : (i : ℕ) → At i at_eof s → Step s (record (to i finished s) { mutex = s.mutex + 1 })
  kills : (i : ℕ) → At i at_kill s → Step s (record (to i at_ready s) { pending = true })
  is_ready :
      (i : ℕ)
      → At i at_ready s
      → 0 < s.ready
      → Step s (record (to i to_print s) { ready = s.ready - 1 })
  enters_again :
      (i : ℕ)
      → At i to_print s
      → 0 < s.mutex
      → Step s (record (to i printing s) { mutex = s.mutex - 1 })
  prints :
      (i : ℕ)
      → At i printing s
      → Step s
          (record (to i at_top s) { mutex = s.mutex + 1; printed = (i + 1, s.number) ∷ s.printed })
  interrupts :
      (i : ℕ)
      → s.pending ≡ true
      → get_elem? s.handlers i ≡ some idle
      → get_elem? s.clients i ≢ some finished
      → Step s (record (serve i at_mutex s) { pending = false })
  locks :
      (i : ℕ)
      → get_elem? s.handlers i ≡ some at_mutex
      → 0 < s.mutex
      → Step s (record (serve i doubling s) { mutex = s.mutex - 1 })
  doubles :
      (i : ℕ)
      → get_elem? s.handlers i ≡ some doubling
      → Step s (record (serve i to_post s) {
        number = int (s.number +ℤ s.number);
        request_nb = s.request_nb + 1;
        mutex = s.mutex + 1;
      })
  posts :
      (i : ℕ)
      → get_elem? s.handlers i ≡ some to_post
      → Step s (record (serve i idle s) { ready = s.ready + 1 })

-- `Reach s n t`: `n` steps lead from `s` to `t`.
pub data Reach (s : System) : ℕ → System → Type 0 where
  start : Reach s 0 s
  next : {n : ℕ} {t u : System} → Reach s n t → Step t u → Reach s (suc n) u

-- `main`, with both clients created.
abbrev pub initial : (ℕ → List ℤ) → System
initial files = record {
  mutex = 1;
  ready = 0;
  number = pos 0;
  request_nb = 0;
  clients = at_open ∷ at_open ∷ [];
  files = files;
  pending = false;
  handlers = idle ∷ idle ∷ idle ∷ [];
  printed = [];
}
