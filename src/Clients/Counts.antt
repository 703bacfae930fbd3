-- ===== src/Clients/Counts.antt =====
-- In Lab1/Lab1.3.c one thread at a time is inside `mutex`, and every answer belongs to a request.
use system_device_programmin.Base.{
  ℕ, zero, suc, ◌+◌, ◌≤◌, ◌≡◌, refl, List, some, get_elem?, set, length, count, count-set,
  same_place, ℤ, arith,
}
use system_device_programmin.Clients.{
  Client, at_open, at_top, reading, has_read, at_eof, at_kill, at_ready, to_print, printing,
  finished, Server, idle, at_mutex, doubling, to_post, System, Step, opens, fails_opening, enters,
  reads, meets_end, leaves, ends, kills, is_ready, enters_again, prints, interrupts, locks, doubles,
  posts, Reach, start, next, initial,
}

-- Whether a client is inside `mutex`.
abbrev pub inside : Client → ℕ
inside reading = 1
inside has_read = 1
inside at_eof = 1
inside printing = 1
inside _ = 0

-- Whether it has been served and has not printed the result.
abbrev served : Client → ℕ
served to_print = 1
served printing = 1
served _ = 0

-- The places of the handler that are counted.
abbrev pub server_code : Server → ℕ
server_code doubling = 1
server_code to_post = 2
server_code _ = 0

pub record IsCounted (s : System) : Type 0 where
  pub mutex : s.mutex + count inside reading s.clients + count server_code doubling s.handlers ≡ 1
  pub requests :
      s.request_nb
      ≡ length s.printed
        + count served to_print s.clients
        + s.ready
        + count server_code to_post s.handlers

-- A step of the client `i`.
moved :
    {s t : System} (i : ℕ) (old new : Client)
    → IsCounted s
    → get_elem? s.clients i ≡ some old
    → t.clients ≡ set s.clients i new
    → t.handlers ≡ s.handlers
    → t.request_nb ≡ s.request_nb
    → t.mutex + inside new ≡ s.mutex + inside old
    → length t.printed + served new + t.ready ≡ length s.printed + served old + s.ready
    → IsCounted t
moved {s} {t} i old new v e clients handlers nb mutex requests = record {
  mutex =
      rw (clients, handlers) (ground (arith, v.mutex, count-set inside reading new s.clients i e));
  requests =
      rw (clients, handlers, nb)
        (ground (arith, v.requests, count-set served to_print new s.clients i e));
}

-- A step of the handler in the thread `i`.
handler_moved :
    {s t : System} (i : ℕ) (old new : Server)
    → IsCounted s
    → get_elem? s.handlers i ≡ some old
    → t.handlers ≡ set s.handlers i new
    → t.clients ≡ s.clients
    → length t.printed ≡ length s.printed
    → t.mutex + same_place server_code doubling new ≡ s.mutex + same_place server_code doubling old
    → t.request_nb + s.ready + same_place server_code to_post old
      ≡ s.request_nb + t.ready + same_place server_code to_post new
    → IsCounted t
handler_moved {s} {t} i old new v e handlers clients printed mutex requests = record {
  mutex =
      rw (clients, handlers)
        (omega (arith, v.mutex, count-set server_code doubling new s.handlers i e));
  requests =
      rw (clients, handlers, printed)
        (omega (arith, v.requests, count-set server_code to_post new s.handlers i e));
}

pub Step-IsCounted : {s t : System} → IsCounted s → Step s t → IsCounted t
Step-IsCounted v (opens i (e, f)) =
    moved i at_open at_top v e refl refl refl (omega arith) (omega arith)
Step-IsCounted v (fails_opening i (e, f)) =
    moved i at_open finished v e refl refl refl (omega arith) (omega arith)
Step-IsCounted v (enters i (e, f) lt) =
    moved i at_top reading v e refl refl refl (omega arith) (omega arith)
Step-IsCounted v (reads i x xs (e, f) rest) =
    moved i reading has_read v e refl refl refl (omega arith) (omega arith)
Step-IsCounted v (meets_end i (e, f) rest) =
    moved i reading at_eof v e refl refl refl (omega arith) (omega arith)
Step-IsCounted v (leaves i (e, f)) =
    moved i has_read at_kill v e refl refl refl (omega arith) (omega arith)
Step-IsCounted v (ends i (e, f)) =
    moved i at_eof finished v e refl refl refl (omega arith) (omega arith)
Step-IsCounted v (kills i (e, f)) =
    moved i at_kill at_ready v e refl refl refl (omega arith) (omega arith)
Step-IsCounted v (is_ready i (e, f) lt) =
    moved i at_ready to_print v e refl refl refl (omega arith) (omega arith)
Step-IsCounted v (enters_again i (e, f) lt) =
    moved i to_print printing v e refl refl refl (omega arith) (omega arith)
Step-IsCounted v (prints i (e, f)) =
    moved i printing at_top v e refl refl refl (omega arith) (omega arith)
Step-IsCounted v (interrupts i sent e there) =
    handler_moved i idle at_mutex v e refl refl refl (omega arith) (omega arith)
Step-IsCounted v (locks i e lt) =
    handler_moved i at_mutex doubling v e refl refl refl (omega arith) (omega arith)
Step-IsCounted v (doubles i e) =
    handler_moved i doubling to_post v e refl refl refl (omega arith) (omega arith)
Step-IsCounted v (posts i e) =
    handler_moved i to_post idle v e refl refl refl (omega arith) (omega arith)

initial-IsCounted : (files : ℕ → List ℤ) → IsCounted (initial files)
unfolding count
initial-IsCounted files = record { mutex = refl; requests = refl }

pub Reach-IsCounted :
    (n : ℕ) (files : ℕ → List ℤ) {s : System} → Reach (initial files) n s → IsCounted s
Reach-IsCounted zero files start = initial-IsCounted files
Reach-IsCounted (suc n) files (next r st) = Step-IsCounted (Reach-IsCounted n files r) st

-- In every state that the threads reach, the clients inside `mutex` and the threads in which
-- the handler is inside it are one at most, and no more results have been printed than requests were served.
pub one_inside :
    (n : ℕ) (files : ℕ → List ℤ) {s : System}
    → Reach (initial files) n s
    → (count inside reading s.clients + count server_code doubling s.handlers ≤ 1)
      × (length s.printed ≤ s.request_nb)
one_inside n files r =
    let v = Reach-IsCounted n files r in (omega (arith, v.mutex), omega (arith, v.requests))
