-- ===== src/Office.antt =====
-- The offices and students of Lab3/Lab3.c and Lab3/office.h: cyclic buffers between threads, and
-- the counters of waiting requests.
pub mod Ring
pub mod System
pub mod Tokens
pub mod Students
mod Tests
use system_device_programmin.Base.{ℕ, ◌+◌, ◌-◌, ltb, Option, none, some, ◌==◌, if◌then◌else◌}
use system_device_programmin.Office.Ring.{Info, Buffer, put, get}

-- `NUM_OFFICES`
abbrev pub num_offices : ℕ
num_offices = 4

-- A store to the entry `i` of an array.
abbrev pub update {ℓ} : {A : Type ℓ} → (ℕ → A) → ℕ → A → ℕ → A
update f i a j = if j == i then a else f j

-- `Cond`. Of `urgent` the entries 0 to `num_offices` are used; the last is for the special office.
pub record Cond : Type 0 where
  pub urgent : ℕ → ℕ
  pub normal : ℕ

-- The buffers, by the variables that point to them.
pub data Queue : Type 0 where
  normal_q : Queue
  special_q : Queue
  urgent_q : ℕ → Queue
  answer_q : ℕ → Queue

pub record Shared : Type 0 where
  pub normal_Q : Buffer
  pub special_Q : Buffer
  pub urgent_Q : ℕ → Buffer
  pub answer_Q : ℕ → Buffer
  pub cond : Cond

abbrev pub buffer_of : Queue → Shared → Buffer
buffer_of normal_q s = s.normal_Q
buffer_of special_q s = s.special_Q
buffer_of (urgent_q o) s = s.urgent_Q o
buffer_of (answer_q i) s = s.answer_Q i

abbrev pub with_buffer : Queue → Buffer → Shared → Shared
with_buffer normal_q b s = record s { normal_Q = b }
with_buffer special_q b s = record s { special_Q = b }
with_buffer (urgent_q o) b s = record s { urgent_Q = update s.urgent_Q o b }
with_buffer (answer_q i) b s = record s { answer_Q = update s.answer_Q i b }

-- The end of `send`: which counter goes up.
unfoldable pub notify : Queue → Info → Cond → Cond
notify (urgent_q o) info c =
    if info.urgent == 1
    then (if o == info.office_no
        then record c { urgent = update c.urgent info.office_no (c.urgent info.office_no + 1) }
        else c)
    else c
notify special_q info c =
    if info.urgent == 1
    then record c { urgent = update c.urgent num_offices (c.urgent num_offices + 1) }
    else c
notify normal_q info c = if info.urgent == 1 then c else record c { normal = c.normal + 1 }
notify (answer_q i) info c = c

-- A thread holds the lock of the buffer from start to end, but for the wait: so it either waits
-- (`none`) or runs in one step.
unfoldable pub send : Queue → Info → Shared → Option Shared
unfolding notify
send q info s = elim (put info (buffer_of q s)) [
  | none ↦ none
  | some b ↦ let s' = with_buffer q b s in some (record s' { cond = notify q info s'.cond })
]

unfoldable pub receive : Queue → Shared → Option (Info × Shared)
receive q s = elim (get (buffer_of q s)) [
  | none ↦ none
  | some (info, b) ↦ some (info, with_buffer q b s)
]

-- Where the thread of an office stands.
pub data Office : Type 0 where
  waiting : Office  -- at the top of the loop
  serve_urgent : Office  -- it has counted down `urgent` and is at the `receive` there
  serve_normal : Office  -- it has counted down `normal` and is at the `receive` there
  answer : Info → Office  -- at the `send` of its answer

-- The part of `office` under the lock of `cond`; `none`: it waits.
unfoldable pub office_take : ℕ → Shared → Option (Office × Shared)
office_take i s =
    if s.cond.urgent i == 0
    then (if s.cond.normal == 0
        then none
        else some (serve_normal, record s { cond = record s.cond { normal = s.cond.normal - 1 } }))
    else some (
      serve_urgent,
      record s { cond = record s.cond { urgent = update s.cond.urgent i (s.cond.urgent i - 1) } },
    )

-- The `receive` of an urgent request, and what is done to it.
unfoldable pub office_urgent : ℕ → Shared → Option (Office × Shared)
unfolding receive
office_urgent i s = elim (receive (urgent_q i) s) [
  | none ↦ none
  | some (info, s') ↦ some (answer (record info { urgent = 0 }), s')
]

-- The same of a normal one; `draw` is `rand() % 10`.
unfoldable pub office_normal : ℕ → ℕ → Shared → Option (Office × Shared)
unfolding receive
office_normal draw i s = elim (receive normal_q s) [
  | none ↦ none
  | some (info, s') ↦
      some (answer (record info { office_no = i; urgent = if ltb draw 4 then 1 else 0 }), s')
]

unfoldable pub office_answer : Info → Shared → Option Shared
unfolding send
office_answer info s = send (answer_q info.id) info s

-- The parts of `special_office`, in the same way.
unfoldable pub special_take : Shared → Option Shared
special_take s =
    if s.cond.urgent num_offices == 0
    then none
    else some (record s {
      cond = record s.cond {
        urgent = update s.cond.urgent num_offices (s.cond.urgent num_offices - 1);
      };
    })

unfoldable pub special_serve : Shared → Option (Info × Shared)
unfolding receive
special_serve s = receive special_q s
