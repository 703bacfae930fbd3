-- ===== src/Clients/Tests.antt =====
-- Runs of Lab1/Lab1.3.c: the second client is interrupted inside `mutex`.
use system_device_programmin.Base.{
  ℕ, zero, suc, ◌+◌, ◌≤◌, ◌≡◌, refl, List, [], ◌∷◌, some, get_elem?, length, count, if◌then◌else◌,
  ◌==◌, ℤ, pos, arith,
}
use system_device_programmin.Clients.{
  reading, at_ready, System, idle, at_mutex, doubling, opens, enters, reads, leaves, kills,
  interrupts, Reach, start, next, initial,
}
use system_device_programmin.Clients.Counts.{inside, server_code, one_inside}
use system_device_programmin.Clients.Stuck.{handler_waits}

abbrev files : ℕ → List ℤ
files zero = pos 21 ∷ []
files (suc i) = pos 34 ∷ []

abbrev rest : ℕ → List ℤ
rest j = if j == 0 then [] else files j

-- Client 0 has read a number and sent the signal; client 1 is about to read, and is interrupted.
abbrev interrupted : System
interrupted = record (initial files) {
  mutex = 0;
  number = pos 21;
  clients = at_ready ∷ reading ∷ [];
  files = rest;
  handlers = idle ∷ at_mutex ∷ idle ∷ [];
}

run : Reach (initial files) 8 interrupted
run =
    next
      (next
        (next
          (next
            (next
              (next (next (next start (opens 0 (refl, refl))) (opens 1 (refl, refl)))
                (enters 0 (refl, refl) (omega arith)))
              (reads 0 (pos 21) [] (refl, refl) refl))
            (leaves 0 (refl, refl)))
          (kills 0 (refl, refl)))
        (enters 1 (refl, refl) (omega arith)))
      (interrupts 1 refl refl (ground arith))

-- Both clients have sent a signal: the handler runs in `main` and in client 0 at once.
abbrev two_handlers : System
two_handlers = record (initial files) {
  number = pos 34;
  clients = at_ready ∷ at_ready ∷ [];
  files = λ j. if j == 1 then [] else rest j;
  handlers = at_mutex ∷ idle ∷ at_mutex ∷ [];
}

two_at_once : Reach (initial files) 12 two_handlers
two_at_once =
    next
      (next
        (next
          (next
            (next
              (next
                (next
                  (next
                    (next
                      (next (next (next start (opens 0 (refl, refl))) (opens 1 (refl, refl)))
                        (enters 0 (refl, refl) (omega arith)))
                      (reads 0 (pos 21) [] (refl, refl) refl))
                    (leaves 0 (refl, refl)))
                  (kills 0 (refl, refl)))
                (interrupts 2 refl refl (ground arith)))
              (enters 1 (refl, refl) (omega arith)))
            (reads 1 (pos 34) [] (refl, refl) refl))
          (leaves 1 (refl, refl)))
        (kills 1 (refl, refl)))
      (interrupts 0 refl refl (ground arith))

one_inside_example :
    (count inside reading interrupted.clients + count server_code doubling interrupted.handlers ≤ 1)
    × (length interrupted.printed ≤ interrupted.request_nb)
one_inside_example = one_inside 8 files run

handler_waits_example :
    (get_elem? interrupted.handlers 1 ≡ some at_mutex)
    × (get_elem? interrupted.clients 1 ≡ some reading)
    × (interrupted.request_nb ≡ interrupted.request_nb)
handler_waits_example = handler_waits 8 0 1 reading files run refl refl refl start
