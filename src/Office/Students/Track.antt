-- ===== src/Office/Students/Track.antt =====
-- Where the requests of the students of Lab3/Lab3.c are: in the buffers, taken as lists, and in the
-- hands of the offices.
pub mod Buffers
pub mod Own
pub mod Hands
pub mod Seat
pub mod Results
pub mod Steps
pub mod Moves
pub mod Runs
pub mod Work
pub mod Progress
use system_device_programmin.Base.{
  ℕ, ◌+◌, ◌≤◌, ◌<◌, ◌≡◌, List, [], ◌∷◌, none, some, if◌then◌else◌, ◌==◌, length, get_elem?,
}
use system_device_programmin.Office.Ring.{Info}
use system_device_programmin.Office.Ring.Refines.{IsQueue}
use system_device_programmin.Office.{
  num_offices, update, Shared, Queue, normal_q, special_q, urgent_q, answer_q, Office, answer,
}
use system_device_programmin.Office.System.{System, Special, answer_special}
use system_device_programmin.Office.Students.{
  Student, gone, in_normal, to_special, in_special, to_urgent, in_urgent, leaving, Campus,
}

pub record Lists : Type 0 where
  pub normal : List Info
  pub special : List Info
  pub urgent : ℕ → List Info
  pub answers : ℕ → List Info

abbrev pub list_of : Queue → Lists → List Info
list_of normal_q l = l.normal
list_of special_q l = l.special
list_of (urgent_q o) l = l.urgent o
list_of (answer_q i) l = l.answers i

abbrev pub with_list : Queue → List Info → Lists → Lists
with_list normal_q xs l = record l { normal = xs }
with_list special_q xs l = record l { special = xs }
with_list (urgent_q o) xs l = record l { urgent = update l.urgent o xs }
with_list (answer_q i) xs l = record l { answers = update l.answers i xs }

-- The buffers hold these lists.
pub record Represents (s : Shared) (l : Lists) : Type 0 where
  pub normal : IsQueue s.normal_Q l.normal
  pub special : IsQueue s.special_Q l.special
  pub urgent : (o : ℕ) → IsQueue (s.urgent_Q o) (l.urgent o)
  pub answers : (i : ℕ) → IsQueue (s.answer_Q i) (l.answers i)

abbrev pub Each : (Info → Type 0) → List Info → Type 0
Each P [] = Unit
Each P (x ∷ xs) = P x × Each P xs

-- An `Info` that the special office may get.
abbrev pub Again : Info → Type 0
Again v = (v.urgent ≡ 1) × (v.office_no < num_offices)

abbrev pub is_normal : Student → ℕ
is_normal in_normal = 1
is_normal _ = 0

abbrev pub is_special : Student → ℕ
is_special in_special = 1
is_special _ = 0

abbrev pub is_urgent : Student → ℕ
is_urgent in_urgent = 1
is_urgent _ = 0

module _ (i : ℕ) where
  -- Whether it is a request of the student `i`; and how many such are in a list.
  abbrev pub mine : Info → ℕ
  mine v = if v.id == i then 1 else 0

  abbrev pub of_mine : List Info → ℕ
  of_mine [] = 0
  of_mine (v ∷ vs) = mine v + of_mine vs

  abbrev pub in_hand : Office → ℕ
  in_hand (answer v) = mine v
  in_hand _ = 0

  abbrev pub in_special_hand : Special → ℕ
  in_special_hand (answer_special v) = mine v
  in_special_hand _ = 0

  abbrev pub in_hands : (ℕ → Office) → ℕ
  in_hands f = in_hand (f 0) + in_hand (f 1) + in_hand (f 2) + in_hand (f 3)

  abbrev pub in_urgents : (ℕ → List Info) → ℕ
  in_urgents u = of_mine (u 0) + of_mine (u 1) + of_mine (u 2) + of_mine (u 3)

  -- What a student that stands at `p` may be answered, and what an office may have for it.
  pub record Fits (p : Student) (v : Info) : Type 0 where
    pub own : v.id ≡ i
    pub of_normal : is_normal p ≡ 1 → v.office_no < num_offices
    pub of_special : is_special p ≡ 1 → Again v

  pub record HandFits (p : Student) (v : Info) : Type 0 where
    pub of_normal : is_normal p ≡ 1 → v.office_no < num_offices
    pub not_special : is_special p ≡ 0

  abbrev pub Held : Student → Type 0
  Held (to_special v) = (v.id ≡ i) × Again v
  Held (to_urgent v) = (v.id ≡ i) × Again v
  Held _ = Unit

  -- The student `i` stands at `p`: it has one request on its way where it waits for an answer, and
  -- none else; and that is where the code has it.
  pub record OnTrack (p : Student) (s : System) (l : Lists) : Type 0 where
    pub total :
        of_mine l.normal
          + of_mine l.special
          + in_urgents l.urgent
          + length (l.answers i)
          + in_hands s.office
          + in_special_hand s.special
        ≡ is_normal p + is_special p + is_urgent p
    pub normal : of_mine l.normal ≤ is_normal p
    pub special : of_mine l.special + in_special_hand s.special ≤ is_special p
    pub urgent : in_urgents l.urgent ≤ is_urgent p
    pub answers : Each (Fits p) (l.answers i)
    pub hands :
        (o : ℕ) (v : Info) → o < num_offices → s.office o ≡ answer v → v.id ≡ i → HandFits p v
    pub held : Held p

pub record Track (c : Campus) (l : Lists) : Type 0 where
  pub lists : Represents c.system.shared l
  pub again : Each Again l.special
  pub special_hand : (v : Info) → c.system.special ≡ answer_special v → Again v
  pub each : (i : ℕ) (p : Student) → get_elem? c.students i ≡ some p → OnTrack i p c.system l
  pub strangers : (i : ℕ) → get_elem? c.students i ≡ none → OnTrack i gone c.system l
