-- ===== src/Office/Students/Track/Moves.antt =====
-- Every run of Lab3/Lab3.c with its students as threads keeps their requests on track, and is a run
-- of offices and requests.
use system_device_programmin.Base.{
  ℕ, ◌+◌, ◌-◌, ◌<◌, ◌≡◌, ◌≢◌, refl, sym, subst, ◌∙◌, inl, inr, [], ◌∷◌, ◌++◌, some, get_elem?,
  get_elem?-set_ne, get_elem?-set_self, get_elem?-lt, get_elem?-set_cases, set, ℕ_discrete, arith,
}
use system_device_programmin.Office.Ring.{Info}
use system_device_programmin.Office.{num_offices, Shared, normal_q, special_q, urgent_q, answer_q}
use system_device_programmin.Office.System.{System}
use system_device_programmin.Office.Students.{
  Student, at_home, in_normal, to_special, in_special, to_urgent, in_urgent, leaving, last, gone,
  Campus, after_answer, check_out, Move, enters, is_answered, goes_special, comes_back, goes_urgent,
  completes, checks_out, kills, office_moves,
}
use system_device_programmin.Office.Students.Track.{
  Lists, with_list, Represents, Each, Again, is_normal, is_special, is_urgent, Held, OnTrack, Track,
}
use system_device_programmin.Office.Students.Track.Buffers.{send-Represents, receive-Represents}
use system_device_programmin.Office.Students.Track.Own.{
  Each-append, none-OnTrack, idle-None, received, sent_normal, sent_special, sent_urgent,
  other_normal, other_special, other_urgent, other_received,
}
use system_device_programmin.Office.Students.Track.Steps.{Step-Track}

reshared :
    (i : ℕ) (p : Student) (s : System) (m : Shared) (l : Lists)
    → OnTrack i p s l
    → OnTrack i p (record s { shared = m }) l
reshared i p s m l t = record {
  total = t.total;
  normal = t.normal;
  special = t.special;
  urgent = t.urgent;
  answers = t.answers;
  hands = t.hands;
  held = t.held;
}

-- Behind its answer a student waits for nothing.
after_answer-Held :
    (i : ℕ) (v : Info)
    → v.id ≡ i
    → v.office_no < num_offices
    → let p = after_answer v in Held i p × (is_normal p + is_special p + is_urgent p ≡ 0)
unfolding after_answer
after_answer-Held i v own lt = elim (ℕ_discrete v.urgent 1) [
  | yes again ↦ ground (arith, again, own, lt)
  | no normal ↦ ground (arith, normal)
]

check_out-Held :
    (i num : ℕ)
    → let p = (check_out num).0 in Held i p × (is_normal p + is_special p + is_urgent p ≡ 0)
unfolding check_out
check_out-Held i num = elim (ℕ_discrete (num - 1) 0) [
  | yes none_left ↦ ground (arith, none_left)
  | no some_left ↦ ground (arith, some_left)
]

module _ (c : Campus) (l : Lists) (t : Track c l) where
  -- The student `i` goes on, and the buffers hold `l'` then.
  student_moved :
      (i num signals : ℕ) {old : Student} (new : Student) (m : Shared) (l' : Lists)
      → let s = record c.system { shared = m } in
        get_elem? c.students i ≡ some old
        → Represents m l'
        → Each Again l'.special
        → OnTrack i new s l'
        → ((j : ℕ) (p : Student) → i ≢ j → OnTrack j p s l → OnTrack j p s l')
        → Track
            (record { system = s; students = set c.students i new; num = num; signals = signals })
            l'
  student_moved i num signals new m l' e lists again own others = record {
    lists = lists;
    again = again;
    special_hand = t.special_hand;
    each = λ j p at_j. elim (get_elem?-set_cases c.students i j new at_j) [
      | inl (same, is_new) ↦
          subst (λ k. OnTrack k p s l') same (subst (λ q. OnTrack i q s l') is_new own)
      | inr (other, before) ↦ others j p other (reshared j p c.system m l (t.each j p before))
    ];
    strangers = λ j no_j. elim (ℕ_discrete i j) [
      | yes same ↦
          let at_i = get_elem?-set_self c.students i new (get_elem?-lt c.students i e) in
          absurd (ground (arith, same))
      | no other ↦
          let before = sym (get_elem?-set_ne c.students new other) ∙ no_j in
          others j gone other (reshared j gone c.system m l (t.strangers j before))
    ];
  }
    where
      s : System
      s = record c.system { shared = m }

  -- The lists that the buffers hold after a move.
  pub Move-Track : {d : Campus} → Move c d → (l' : Lists) × Track d l'
  Move-Track (enters i {m} e sent) =
      let v : Info = record { id = i; office_no = num_offices; urgent = 0 } in
      let s = record c.system { shared = m } in
      let l' = with_list normal_q (l.normal ++ v ∷ []) l in
      let none = idle-None i at_home c.system l refl (t.each i at_home e) in
      (
        l',
        student_moved i c.num c.signals in_normal m l' e (send-Represents normal_q v t.lists sent)
            t.again (sent_normal i v s l refl none)
            (λ j p other on. other_normal j p v s l other on),
      )
  Move-Track (is_answered i v {m} e got) =
      let s = record c.system { shared = m } in
      let (ys, at_head, lists) = receive-Represents (answer_q i) v t.lists got in
      let l' = with_list (answer_q i) ys l in
      let (fits, none) = received i in_normal v ys c.system l at_head (t.each i in_normal e) in
      let (held, idle) = after_answer-Held i v fits.own (fits.of_normal refl) in
      (
        l',
        student_moved i c.num c.signals (after_answer v) m l' e lists t.again
            (none-OnTrack i (after_answer v) s l' idle held none)
            (λ j p other on. other_received j p i ys s l other on),
      )
  Move-Track (goes_special i v {m} e sent) =
      let s = record c.system { shared = m } in
      let on = t.each i (to_special v) e in
      let (own, again) = on.held in
      let l' = with_list special_q (l.special ++ v ∷ []) l in
      let none = idle-None i (to_special v) c.system l refl on in
      (
        l',
        student_moved i c.num c.signals in_special m l' e (send-Represents special_q v t.lists sent)
            (Each-append Again l.special v t.again again) (sent_special i v s l own none)
            (λ j p other on'. other_special j p v s l (λ e'. other (sym own ∙ e')) on'),
      )
  Move-Track (comes_back i v {m} e got) =
      let s = record c.system { shared = m } in
      let (ys, at_head, lists) = receive-Represents (answer_q i) v t.lists got in
      let l' = with_list (answer_q i) ys l in
      let (fits, none) = received i in_special v ys c.system l at_head (t.each i in_special e) in
      (
        l',
        student_moved i c.num c.signals (to_urgent v) m l' e lists t.again
            (none-OnTrack i (to_urgent v) s l' refl (fits.own, fits.of_special refl) none)
            (λ j p other on. other_received j p i ys s l other on),
      )
  Move-Track (goes_urgent i v {m} e sent) =
      let s = record c.system { shared = m } in
      let on = t.each i (to_urgent v) e in
      let (own, again) = on.held in
      let inside = again.1 in
      let o = v.office_no in
      let l' = with_list (urgent_q o) (l.urgent o ++ v ∷ []) l in
      let none = idle-None i (to_urgent v) c.system l refl on in
      (
        l',
        student_moved i c.num c.signals in_urgent m l' e
            (send-Represents (urgent_q o) v t.lists sent) t.again
            (sent_urgent i v s l own none o inside)
            (λ j p other on'. other_urgent j p v s l (λ e'. other (sym own ∙ e')) on' o inside),
      )
  Move-Track (completes i v {m} e got) =
      let s = record c.system { shared = m } in
      let (ys, at_head, lists) = receive-Represents (answer_q i) v t.lists got in
      let l' = with_list (answer_q i) ys l in
      let (fits, none) = received i in_urgent v ys c.system l at_head (t.each i in_urgent e) in
      (
        l',
        student_moved i c.num c.signals (leaving v) m l' e lists t.again
            (none-OnTrack i (leaving v) s l' refl tt none)
            (λ j p other on. other_received j p i ys s l other on),
      )
  Move-Track (checks_out i v e) =
      let (new, num) = check_out c.num in
      let (held, idle) = check_out-Held i c.num in
      let none = idle-None i (leaving v) c.system l refl (t.each i (leaving v) e) in
      (
        l,
        student_moved i num c.signals new c.system.shared l e t.lists t.again
            (none-OnTrack i new c.system l idle held none) (λ j p other on. on),
      )
  Move-Track (kills i e) =
      let none = idle-None i last c.system l refl (t.each i last e) in
      (
        l,
        student_moved i c.num (c.signals + 1) gone c.system.shared l e t.lists t.again
            (none-OnTrack i gone c.system l refl tt none) (λ j p other on. on),
      )
  Move-Track (office_moves st office) = Step-Track c l t st office
