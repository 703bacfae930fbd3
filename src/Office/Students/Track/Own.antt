-- ===== src/Office/Students/Track/Own.antt =====
-- The steps of a student of Lab3/Lab3.c keep its own request on its track, and those of other
-- students.
use system_device_programmin.Base.{
  ℕ, ◌+◌, ◌≤◌, ◌<◌, ◌≡◌, ◌≢◌, sym, subst, ap, List, [], ◌∷◌, ◌++◌, length, arith,
}
use system_device_programmin.Office.Ring.{Info}
use system_device_programmin.Office.{
  num_offices, update, normal_q, special_q, urgent_q, answer_q, Office, answer,
}
use system_device_programmin.Office.System.{System}
use system_device_programmin.Office.Students.{
  Student, at_home, in_normal, to_special, in_special, to_urgent, in_urgent, leaving, last, gone,
}
use system_device_programmin.Office.Students.Track.{
  Lists, with_list, Each, is_normal, is_special, is_urgent, mine, of_mine, in_hand, in_special_hand,
  in_hands, in_urgents, Fits, Held, OnTrack,
}

pub Each-append :
    (P : Info → Type 0) (xs : List Info) (v : Info) → Each P xs → P v → Each P (xs ++ v ∷ [])
Each-append P [] v e new = (new, tt)
Each-append P (x ∷ xs) v (e, es) new = (e, Each-append P xs v es new)

empty-Each : (P : Info → Type 0) (xs : List Info) → length xs ≡ 0 → Each P xs
empty-Each P [] empty = tt
empty-Each P (x ∷ xs) empty = absurd (omega arith)

pub one_place : (p : Student) → is_normal p + is_special p + is_urgent p ≤ 1
one_place at_home = omega arith
one_place in_normal = omega arith
one_place (to_special v) = omega arith
one_place in_special = omega arith
one_place (to_urgent v) = omega arith
one_place in_urgent = omega arith
one_place (leaving v) = omega arith
one_place last = omega arith
one_place gone = omega arith

module _ (i : ℕ) where
  pub of_mine-append :
      (xs : List Info) (v : Info) → of_mine i (xs ++ v ∷ []) ≡ of_mine i xs + mine i v
  of_mine-append [] v = omega arith
  of_mine-append (x ∷ xs) v = omega (arith, of_mine-append xs v)

  pub in_urgents-update :
      (u : ℕ → List Info) (o : ℕ) (xs : List Info)
      → o < num_offices
      → in_urgents i (update u o xs) + of_mine i (u o) ≡ in_urgents i u + of_mine i xs
  in_urgents-update u o xs lt = ground arith

  pub hand_mine :
      (f : ℕ → Office) (o : ℕ) (v : Info)
      → o < num_offices
      → f o ≡ answer v
      → v.id ≡ i
      → 0 < in_hands i f
  hand_mine f o v lt e own = ground (arith, ap (in_hand i) e)

  -- No request of the student `i` is on its way.
  abbrev None : System → Lists → Type 0
  None s l =
      of_mine i l.normal
        + of_mine i l.special
        + in_urgents i l.urgent
        + length (l.answers i)
        + in_hands i s.office
        + in_special_hand i s.special
      ≡ 0

  -- No request is in the buffer for its answers or with an office for normal and urgent requests.
  only_sent-OnTrack :
      (p : Student) (s : System) (l : Lists)
      → Held i p
      → length (l.answers i) ≡ 0
      → in_hands i s.office ≡ 0
      → of_mine i l.normal
          + of_mine i l.special
          + in_urgents i l.urgent
          + in_special_hand i s.special
        ≡ is_normal p + is_special p + is_urgent p
      → of_mine i l.normal ≤ is_normal p
      → of_mine i l.special + in_special_hand i s.special ≤ is_special p
      → in_urgents i l.urgent ≤ is_urgent p
      → OnTrack i p s l
  only_sent-OnTrack p s l held no_answer no_hand total normal special urgent = record {
    total = omega arith;
    normal = normal;
    special = special;
    urgent = urgent;
    answers = empty-Each (Fits i p) (l.answers i) no_answer;
    hands = λ o v lt e own. absurd (omega (arith, hand_mine s.office o v lt e own));
    held = held;
  }

  pub none-OnTrack :
      (p : Student) (s : System) (l : Lists)
      → is_normal p + is_special p + is_urgent p ≡ 0
      → Held i p
      → None s l
      → OnTrack i p s l
  none-OnTrack p s l idle held none =
      only_sent-OnTrack p s l held (omega arith) (omega arith) (omega arith) (omega arith)
        (omega arith) (omega arith)

  pub idle-None :
      (p : Student) (s : System) (l : Lists)
      → is_normal p + is_special p + is_urgent p ≡ 0
      → OnTrack i p s l
      → None s l
  idle-None p s l idle t = omega (arith, t.total)

  -- The student takes its answer.
  pub received :
      (p : Student) (v : Info) (ys : List Info) (s : System) (l : Lists)
      → l.answers i ≡ v ∷ ys
      → OnTrack i p s l
      → Fits i p v × None s (with_list (answer_q i) ys l)
  received p v ys s l e t =
      let left : update l.answers i ys i ≡ ys = ground arith in
      let (fits, rest) = subst (Each (Fits i p)) e t.answers in
      (fits, omega (arith, t.total, one_place p, ap length left, ap length e))

  -- It sends its request.
  module _ (v : Info) (s : System) (l : Lists) (own : v.id ≡ i) (none : None s l) where
    is_mine : mine i v ≡ 1
    is_mine = ground (arith, own)

    pub sent_normal : OnTrack i in_normal s (with_list normal_q (l.normal ++ v ∷ []) l)
    sent_normal =
        let l' = with_list normal_q (l.normal ++ v ∷ []) l in
        let grows = of_mine-append l.normal v in
        only_sent-OnTrack in_normal s l' tt (omega arith) (omega arith) (omega (arith, is_mine))
          (omega (arith, is_mine)) (omega arith) (omega arith)

    pub sent_special : OnTrack i in_special s (with_list special_q (l.special ++ v ∷ []) l)
    sent_special =
        let l' = with_list special_q (l.special ++ v ∷ []) l in
        let grows = of_mine-append l.special v in
        only_sent-OnTrack in_special s l' tt (omega arith) (omega arith) (omega (arith, is_mine))
          (omega arith) (omega (arith, is_mine)) (omega arith)

    pub sent_urgent :
        (o : ℕ)
        → o < num_offices
        → OnTrack i in_urgent s (with_list (urgent_q o) (l.urgent o ++ v ∷ []) l)
    sent_urgent o lt =
        let l' = with_list (urgent_q o) (l.urgent o ++ v ∷ []) l in
        let grows = of_mine-append (l.urgent o) v in
        let change = in_urgents-update l.urgent o (l.urgent o ++ v ∷ []) lt in
        only_sent-OnTrack in_urgent s l' tt (omega arith) (omega arith) (omega (arith, is_mine))
          (omega arith) (omega arith) (omega (arith, is_mine))

  -- Another student sends or takes.
  module _ (p : Student) (v : Info) (s : System) (l : Lists) (other : v.id ≢ i)
      (t : OnTrack i p s l) where
    not_mine : mine i v ≡ 0
    not_mine = ground (arith, other)

    pub other_normal : OnTrack i p s (with_list normal_q (l.normal ++ v ∷ []) l)
    other_normal =
        let grows = of_mine-append l.normal v in
        record {
          total = omega (arith, t.total, not_mine);
          normal = omega (arith, t.normal, not_mine);
          special = t.special;
          urgent = t.urgent;
          answers = t.answers;
          hands = t.hands;
          held = t.held;
        }

    pub other_special : OnTrack i p s (with_list special_q (l.special ++ v ∷ []) l)
    other_special =
        let grows = of_mine-append l.special v in
        record {
          total = omega (arith, t.total, not_mine);
          normal = t.normal;
          special = omega (arith, t.special, not_mine);
          urgent = t.urgent;
          answers = t.answers;
          hands = t.hands;
          held = t.held;
        }

    pub other_urgent :
        (o : ℕ) → o < num_offices → OnTrack i p s (with_list (urgent_q o) (l.urgent o ++ v ∷ []) l)
    other_urgent o lt =
        let grows = of_mine-append (l.urgent o) v in
        let change = in_urgents-update l.urgent o (l.urgent o ++ v ∷ []) lt in
        record {
          total = omega (arith, t.total, not_mine);
          normal = t.normal;
          special = t.special;
          urgent = omega (arith, t.urgent, not_mine);
          answers = t.answers;
          hands = t.hands;
          held = t.held;
        }

  pub other_received :
      (p : Student) (j : ℕ) (ys : List Info) (s : System) (l : Lists)
      → j ≢ i
      → OnTrack i p s l
      → OnTrack i p s (with_list (answer_q j) ys l)
  other_received p j ys s l other t =
      let stays : update l.answers j ys i ≡ l.answers i = ground (arith, other) in
      record {
        total = omega (arith, t.total, ap length stays);
        normal = t.normal;
        special = t.special;
        urgent = t.urgent;
        answers = subst (Each (Fits i p)) (sym stays) t.answers;
        hands = t.hands;
        held = t.held;
      }
