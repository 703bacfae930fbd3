-- ===== src/Office/Students/Track/Steps.antt =====
-- The steps of the offices of Lab3/Lab3.c keep the requests of all students on their tracks.
use system_device_programmin.Base.{ℕ, ◌≡◌, subst, inl, inr, [], ◌∷◌, ◌++◌, false, arith}
use system_device_programmin.Office.Ring.{Info}
use system_device_programmin.Office.{
  update, Shared, normal_q, special_q, urgent_q, answer_q, office_answer, special_serve,
}
use system_device_programmin.Office.System.{
  System, answer_special, Step, student_normal, student_special, student_urgent, student_receives,
  takes, serves_urgent, serves_normal, answers, special_takes, special_serves, special_answers,
}
use system_device_programmin.Office.Students.{Student, gone, Campus, by_student}
use system_device_programmin.Office.Students.Track.{
  Lists, with_list, Represents, Each, Again, OnTrack, Track,
}
use system_device_programmin.Office.Students.Track.Buffers.{
  send-Represents, receive-Represents, other_cond,
}
use system_device_programmin.Office.Students.Track.Hands.{
  took, served_urgent, served_normal, answered,
}
use system_device_programmin.Office.Students.Track.Seat.{
  special_took, special_served, special_answered,
}
use system_device_programmin.Office.Students.Track.Results.{
  office_take-some, office_urgent-some, office_normal-some, special_take-some,
}

module _ (c : Campus) (l : Lists) (t : Track c l) where
  -- The counters do not matter.
  counters_changed : {m : Shared} → record c.system.shared { cond = m.cond } ≡ m → Represents m l
  counters_changed e = subst (λ x. Represents x l) e (other_cond t.lists)

  -- An office goes on, and the buffers hold `l'` then.
  office_moved :
      (u : System) (l' : Lists)
      → Represents u.shared l'
      → Each Again l'.special
      → ((v : Info) → u.special ≡ answer_special v → Again v)
      → ((i : ℕ) (p : Student) → OnTrack i p c.system l → OnTrack i p u l')
      → Track (record c { system = u }) l'
  office_moved u l' lists again special each = record {
    lists = lists;
    again = again;
    special_hand = special;
    each = λ i p at_i. each i p (t.each i p at_i);
    strangers = λ i no_i. each i gone (t.strangers i no_i);
  }

  pub Step-Track :
      {u : System} (st : Step c.system u)
      → by_student st ≡ false
      → (l' : Lists) × Track (record c { system = u }) l'
  unfolding office_answer special_serve
  Step-Track (student_normal v plain e) office = absurd (ground arith)
  Step-Track (student_special v again e) office = absurd (ground arith)
  Step-Track (student_urgent v again inside e) office = absurd (ground arith)
  Step-Track (student_receives i v e) office = absurd (ground arith)
  Step-Track (takes o w {m} lt idle e) office =
      let (same, serves) = office_take-some o w c.system.shared e in
      (
        l,
        office_moved _ l (counters_changed same) t.again t.special_hand (λ i p on. elim serves [
          | inl normal ↦ took i p c.system l m on o w lt idle (ground arith) (ground arith)
          | inr urgent ↦ took i p c.system l m on o w lt idle (ground arith) (ground arith)
        ]),
      )
  Step-Track (serves_urgent o w {m} lt busy e) office =
      let (v, got, is_w) = office_urgent-some o w c.system.shared e in
      let (ys, at_head, lists) = receive-Represents (urgent_q o) v t.lists got in
      let l' = with_list (urgent_q o) ys l in
      (
        l',
        office_moved _ l' lists t.again t.special_hand (λ i p on.
            subst
              (λ x.
                OnTrack i p (record c.system { shared = m; office = update c.system.office o x })
                  l')
              is_w (served_urgent i p c.system l m on o v ys lt busy at_head)),
      )
  Step-Track (serves_normal o draw w {m} lt busy e) office =
      let (v, got, u, is_w) = office_normal-some draw o w c.system.shared e in
      let (ys, at_head, lists) = receive-Represents normal_q v t.lists got in
      let l' = with_list normal_q ys l in
      (
        l',
        office_moved _ l' lists t.again t.special_hand (λ i p on.
            subst
              (λ x.
                OnTrack i p (record c.system { shared = m; office = update c.system.office o x })
                  l')
              is_w (served_normal i p c.system l m on o u v ys lt busy at_head)),
      )
  Step-Track (answers o v {m} lt busy e) office =
      let l' = with_list (answer_q v.id) (l.answers v.id ++ v ∷ []) l in
      (
        l',
        office_moved _ l' (send-Represents (answer_q v.id) v t.lists e) t.again t.special_hand
            (λ i p on. answered i p c.system l m on o v lt busy),
      )
  Step-Track (special_takes {m} idle e) office = (
    l,
    office_moved _ l (counters_changed (special_take-some c.system.shared e)) t.again
        (λ v is_answer. absurd (ground arith)) (λ i p on. special_took i p c.system l m on idle),
  )
  Step-Track (special_serves v {m} busy e) office =
      let (ys, at_head, lists) = receive-Represents special_q v t.lists e in
      let (again, rest) = subst (Each Again) at_head t.again in
      let l' = with_list special_q ys l in
      (
        l',
        office_moved _ l' lists rest (λ x is_answer. ground (arith, again, is_answer))
            (λ i p on. special_served i p c.system l m on v ys busy at_head),
      )
  Step-Track (special_answers v {m} busy e) office =
      let l' = with_list (answer_q v.id) (l.answers v.id ++ v ∷ []) l in
      (
        l',
        office_moved _ l' (send-Represents (answer_q v.id) v t.lists e) t.again
            (λ x is_answer. absurd (ground arith))
            (λ i p on. special_answered i p c.system l m on v busy (t.special_hand v busy)),
      )
