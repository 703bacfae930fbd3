-- ===== src/Office/Tests.antt =====
-- The threads of Lab3/Lab3.c with two students: runs and the theorems there.
use system_device_programmin.Base.{
  ℕ, ◌<◌, ◌≡◌, ◌≢◌, ◌⊎◌, refl, List, [], ◌∷◌, ◌++◌, none, some, length, arith,
}
use system_device_programmin.Office.Ring.{Info, Buffer, b_init, put, get}
use system_device_programmin.Office.Ring.Refines.{IsQueue, b_init-IsQueue, put-IsQueue, get-IsQueue}
use system_device_programmin.Office.{
  Shared, normal_q, send, office_take, notify, serve_normal, update, receive,
}
use system_device_programmin.Office.System.{System, student_normal, takes, Reach, start, next}
use system_device_programmin.Office.Tokens.Served.{IsZeroed, initial, served_at_once}

-- The counters in zeroed memory.
abbrev zeros : ℕ → ℕ
zeros i = 0

zeros-IsZeroed : IsZeroed zeros
zeros-IsZeroed i le = refl

abbrev blank : Info
blank = record { id = 0; office_no = 0; urgent = 0 }

abbrev first : Info
first = record { id = 1; office_no = 4; urgent = 0 }

-- The first student has sent a request, and office 2 has counted it down.
abbrev sent : Shared
sent = record (initial 2 blank zeros).shared {
  normal_Q = record { buffer = first ∷ blank ∷ []; in_at = 1; out_at = 0; count = 1; dim = 2 };
  cond = record { urgent = λ i. 0; normal = 1 };
}

abbrev counted : Shared
counted = record sent { cond = record { urgent = λ i. 0; normal = 0 } }

abbrev taken : System
taken = record (initial 2 blank zeros) {
  shared = counted;
  office = update (initial 2 blank zeros).office 2 serve_normal;
}

send_runs : send normal_q first (initial 2 blank zeros).shared ≡ some sent
unfolding send notify put b_init
send_runs = refl

take_runs : office_take 2 sent ≡ some (serve_normal, counted)
unfolding office_take
take_runs = refl

run : Reach (initial 2 blank zeros) 2 taken
run =
    next (next start (student_normal first refl send_runs))
      (takes 2 serve_normal (omega arith) refl take_runs)

served_at_once_example : receive normal_q counted ≢ none
served_at_once_example =
    served_at_once 2 2 blank zeros 2 normal_q (omega arith) zeros-IsZeroed run (omega arith) refl

put-IsQueue_example :
    ((length {A = Info} [] < (b_init blank 2).dim)
      × (b' : Buffer) × (put first (b_init blank 2) ≡ some b')
      × IsQueue b' ([] ++ first ∷ [])
      × (b'.dim ≡ (b_init blank 2).dim))
    ⊎ ((length {A = Info} [] ≡ (b_init blank 2).dim) × (put first (b_init blank 2) ≡ none))
put-IsQueue_example = put-IsQueue (b_init blank 2) [] first (b_init-IsQueue blank 2 (omega arith))

get-IsQueue_example :
    ((◌≡◌ {A = List Info} [] []) × (get (b_init blank 2) ≡ none))
    ⊎ ((x : Info) × (ys : List Info) × (◌≡◌ {A = List Info} [] (x ∷ ys))
        × (b' : Buffer) × (get (b_init blank 2) ≡ some (x, b'))
        × IsQueue b' ys
        × (b'.dim ≡ (b_init blank 2).dim))
get-IsQueue_example = get-IsQueue (b_init blank 2) [] (b_init-IsQueue blank 2 (omega arith))
